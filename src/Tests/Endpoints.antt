-- ===== src/Tests/Endpoints.antt =====
-- One webhook destination: its circuit, its retries, a delivery; the sender without targets; a probe.
use school_bells.Prelude.{
  inl, inr, ℕ, ◌+◌, ◌≤◌, ◌≡◌, ◌↔◌, ◌⊎◌, refl, sym, ap, ◌∙◌, any, String, Bool, true, false, List,
  [], ◌∷◌, Option, none, some, arith, show, ◌==◌, not, if◌then◌else◌,
}
use mathlib.Core.List.{Perm}
use mathlib.Core.List.Perm as Permuted
use school_bells.Prelude.Results.{Result, ok, err, ok-injective}
use school_bells.Config.{http, plain_rtp, by_name, pcmu, Destination}
use school_bells.Endpoints.{DeliveryOutcome, EndpointRegistry, should_attempt}
use school_bells.Endpoints.Circuit.{record_all, circuit_opens}
use school_bells.Endpoints.Webhook.{
  Response, answered as status, Request, Triggered, trigger, given, post, try_from, accepted,
  retryable, request_for, outcome_of, after_delay,
}
use school_bells.Endpoints.Retries.{Reports, Unset, trigger-Reports}
use school_bells.Wire.{next}
use school_bells.Wire.Rtp.{build_packet as build_rtp}
use school_bells.Transmit.{
  DestinationEndpoint, Target, WireFormat, plain, Cancel, TransmitResult, send, send_frames, alert,
  finish, is_poly, errors_of, zero_counts, frame_round, frame_to, send_packet, add_bytes, build,
}
use school_bells.Transmit.Count.{Sent, Grew, send-Sent}
use school_bells.Delivery.{
  Task, Delivered, DeliveryReport, deliver, multicast_outcomes, enabled_destinations,
}
use school_bells.Delivery.Coverage.{
  destinations_of, serves, has_outcome, multicast_outcomes-names, Covers, deliver-Covers,
}
use school_bells.Delivery.Required.{Reported, deliver-Reported}
use school_bells.Watchdog.{WatchConfig, Notice, notice, outage}
use school_bells.Tests.{strobe, gym}

abbrev registry : EndpointRegistry
registry = record { failure_threshold = 2; cooldown = 60; items = [] }

abbrev failure : DeliveryOutcome
failure = record {
  destination = "strobe";
  protocol = http;
  success = false;
  status = "failed";
  detail = "timed out";
  attempts = 3;
  duration = 0;
}

abbrev elsewhere : DeliveryOutcome
elsewhere = record failure { destination = "hall" }

circuit_opens_example :
    (should_attempt
        (record_all (("later", 11, elsewhere) ∷ []) (
          record_all
            (("now", 9, failure) ∷ ("between", 6, elsewhere) ∷ ("then", 4, failure) ∷ [])
            registry))
        50
        strobe
      ≡ true)
    ↔ ((strobe.required ≡ true) ⊎ (9 + 60 ≤ 50))
circuit_opens_example =
    circuit_opens strobe "now" 9 failure (("later", 11, elsewhere) ∷ [])
      (("between", 6, elsewhere) ∷ ("then", 4, failure) ∷ []) registry 50 (refl, tt)
      (refl, refl, refl) (inr refl, (inl (refl, refl, refl), tt)) (omega arith)

abbrev no_environment : String → Option String
no_environment name = none

abbrev no_digest : String → String → String
no_digest secret message = ""

-- Busy at first.
abbrev busy_once : Request → ℕ → Response
busy_once request attempt = if attempt == 0 then status 503 else status 200

abbrev strobe_lit : Triggered
strobe_lit = record {
  outcome = record {
    destination = "strobe";
    protocol = http;
    success = true;
    status = "200";
    detail = "webhook accepted";
    attempts = 2;
    duration = 0;
  };
  delays = 250000 ∷ [];
}

lit : trigger no_environment no_digest busy_once strobe "{}" "key" "0" 0 ≡ ok strobe_lit
unfolding trigger given post try_from accepted retryable request_for outcome_of after_delay show
lit = refl

trigger-Reports_example :
    (Unset no_environment strobe
      × (strobe_lit.outcome.attempts ≡ 0)
      × (strobe_lit.outcome.success ≡ false))
    ⊎ ((Unset no_environment strobe → ⊥) × Reports busy_once strobe "key" strobe_lit)
trigger-Reports_example =
    trigger-Reports no_environment no_digest busy_once strobe "{}" "key" "0" 0 strobe_lit lit

abbrev quiet : Cancel
quiet = record { after_alert = false; at_head = λ _. false; in_wait = λ n. not (n == 0) }

abbrev takes_all : DestinationEndpoint → List (List ℕ) → List ℕ → Result ℕ
takes_all endpoint before packet = err "unreachable"

abbrev stopped : TransmitResult
stopped = record {
  packet_count = 1;
  destination_bytes = ("hall", 13) ∷ [];
  destination_errors = [];
  cancelled = true;
}

abbrev wire : WireFormat
wire = plain (record { payload_type = 0 })

abbrev hall : Target
hall = record {
  endpoint = record { name = "hall"; group = "239.0.0.1"; port = 601; ttl = 1 };
  has_socket = false;
  state = record { seq = 65535; timestamp = 0; ssrc = 9; timestamp_step = 160 };
  previous_payload = none;
  error = none;
  given = [];
}

abbrev hall_after : Target
hall_after = record hall {
  state = record { seq = 0; timestamp = 160; ssrc = 9; timestamp_step = 160 };
  previous_payload = some (1 ∷ []);
}

page_stopped :
    send takes_all wire (hall ∷ []) ((1 ∷ []) ∷ (2 ∷ []) ∷ []) 0 quiet
    ≡ ok (stopped, hall_after ∷ [])
unfolding send send_frames alert finish is_poly errors_of zero_counts frame_round frame_to
    send_packet add_bytes build next build_rtp
page_stopped = refl

send-Sent_example : Sent ((1 ∷ []) ∷ (2 ∷ []) ∷ []) 0 1 true × Grew 1 (hall ∷ []) (hall_after ∷ [])
send-Sent_example =
    send-Sent takes_all wire (hall ∷ []) (hall_after ∷ []) ((1 ∷ []) ∷ (2 ∷ []) ∷ []) 0 quiet
      stopped page_stopped

abbrev success : DeliveryOutcome
success = strobe_lit.outcome

abbrev run_strobe : Task → Result (List DeliveryOutcome)
run_strobe task = ok (success ∷ [])

abbrev in_order : List Task → List Task
in_order tasks = tasks

abbrev as_given : List DeliveryOutcome → List DeliveryOutcome
as_given outcomes = outcomes

abbrev delivered : Delivered
delivered =
    deliver run_strobe in_order as_given (strobe ∷ []) registry plain_rtp "now" 0 false 0 gym

abbrev report : DeliveryReport
report = record { outcomes = success ∷ []; cancelled = false; duration = 0 }

is_delivered : delivered.report ≡ ok report
unfolding deliver by_name should_attempt
is_delivered = refl

as_given-Perm : (os : List DeliveryOutcome) → Perm (as_given os) os
as_given-Perm os = Permuted.refl os

deliver-Reported_example :
    Reported run_strobe in_order as_given as_given-Perm
      (strobe ∷ [])
      registry
      plain_rtp
      "now"
      0
      gym
      delivered
      report
deliver-Reported_example =
    deliver-Reported run_strobe in_order as_given as_given-Perm (strobe ∷ []) registry plain_rtp
      "now" 0 false 0 gym report is_delivered

abbrev played : TransmitResult
played = record {
  packet_count = 1;
  destination_bytes = [];
  destination_errors = [];
  cancelled = false;
}

-- Every task succeeds at all its destinations.
abbrev run_each : Task → Result (List DeliveryOutcome)
run_each task = ok (multicast_outcomes pcmu (destinations_of task) 0 (ok played))

run_each_answers :
    (t : Task) (os : List DeliveryOutcome) (name : String)
    → run_each t ≡ ok os
    → serves name t ≡ true
    → has_outcome name os ≡ true
run_each_answers t os name ran served =
    ap (has_outcome name) (sym (ok-injective ran))
    ∙ multicast_outcomes-names pcmu (destinations_of t) 0 (ok played) name
    ∙ served

all_in_order :
    (ts : List Task) (name : String)
    → any (serves name) ts ≡ true
    → any (serves name) (in_order ts) ≡ true
all_in_order ts name h = h

all_as_given :
    (p : DeliveryOutcome → Bool) (os : List DeliveryOutcome)
    → any p os ≡ true
    → any p (as_given os) ≡ true
all_as_given p os h = h

abbrev beacon : Destination
beacon = record strobe { required = true }

abbrev beacon_lit : DeliveryReport
beacon_lit = record {
  outcomes = multicast_outcomes pcmu (beacon ∷ []) 0 (ok played);
  cancelled = false;
  duration = 0;
}

beacon_enabled : enabled_destinations (beacon ∷ []) gym.destinations ≡ ok (beacon ∷ [])
unfolding enabled_destinations by_name
beacon_enabled = refl

is_lit :
    (deliver run_each in_order as_given (beacon ∷ []) registry plain_rtp "now" 0 false 0 gym).report
    ≡ ok beacon_lit
unfolding deliver by_name should_attempt multicast_outcomes
is_lit = refl

deliver-Covers_example :
    Covers run_each in_order as_given run_each_answers all_in_order all_as_given
      (beacon ∷ [])
      beacon_lit
deliver-Covers_example =
    deliver-Covers run_each in_order as_given run_each_answers all_in_order all_as_given
      (beacon ∷ []) registry plain_rtp "now" 0 false 0 gym (beacon ∷ []) beacon_lit beacon_enabled
      is_lit

abbrev watch : WatchConfig
watch = record {
  owner = "office";
  escalation = "principal";
  failure_threshold = 1;
  recovery_threshold = 1;
  reminder_seconds = 60;
  escalation_seconds = 600;
}

abbrev never_blank : String → Bool
never_blank text = false

abbrev first_notice : Notice
first_notice = notice watch outage "i" 5 "down"
