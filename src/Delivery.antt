-- ===== src/Delivery.antt =====
-- bell/delivery.py: a page given to a zone's destinations, with required and optional ones. A task is
-- what the source submits to its pool; what a task returns is the argument `run`, the order in which
-- the tasks complete is `completed`, and `media` transcodes the sound.
pub mod Required
pub mod Coverage
use school_bells.Prelude.{
  ℕ, zero, suc, ◌+◌, String, Bool, true, false, ◌&&◌, ◌||◌, not, List, [], ◌∷◌, ◌++◌, Option, none,
  some, if◌then◌else◌, length, map, select, any, all, str_eq, show, is_some,
}
use school_bells.Prelude.Results.{Result, ok, err, ensure, ◌>>=◌, ◌>>◌}
use school_bells.Dates.{◌&◌}
use school_bells.Config.{
  Protocol, multicast, sip, http, WireName, plain_rtp, poly_group_page, CodecName, pcmu, pcma, g722,
  Destination, Zone, BellEvent, by_name,
}
use school_bells.Endpoints.{DeliveryOutcome, EndpointRegistry, should_attempt, record_outcome}
use school_bells.Transmit.{DestinationEndpoint, TransmitResult}

pub record DeliveryReport : Type 0 where
  pub outcomes : List DeliveryOutcome
  pub cancelled : Bool
  pub duration : ℕ

-- `successful`
unfoldable pub successful : DeliveryReport → Bool
successful r = not r.cancelled && all (λ (o : DeliveryOutcome). o.success) r.outcomes

pub data Task : Type 0 where
  multicast_task : WireName → CodecName → List Destination → Task
  sip_task : Destination → Task
  webhook_task : Destination → Task

-- The zone's enabled destinations, in its order; the configuration's check lets no name be unknown.
unfoldable pub enabled_destinations : List Destination → List String → Result (List Destination)
enabled_destinations configured [] = ok []
enabled_destinations configured (name ∷ names) =
    let rest = enabled_destinations configured names in
    elim (by_name (λ (d : Destination). d.name) name configured) [
      | none ↦ err name
      | some d ↦ do ds ← rest; ok (if d.enabled then d ∷ ds else ds)
    ]

unfoldable pub skipped : Destination → DeliveryOutcome
skipped d = record {
  destination = d.name;
  protocol = d.protocol;
  success = false;
  status = "circuit_open";
  detail = "optional destination skipped during circuit-breaker cooldown";
  attempts = 0;
  duration = 0;
}

unfoldable pub same_wire : WireName → WireName → Bool
same_wire plain_rtp plain_rtp = true
same_wire plain_rtp poly_group_page = false
same_wire poly_group_page plain_rtp = false
same_wire poly_group_page poly_group_page = true

unfoldable pub same_codec : CodecName → CodecName → Bool
same_codec pcmu pcmu = true
same_codec pcmu pcma = false
same_codec pcmu g722 = false
same_codec pcma pcmu = false
same_codec pcma pcma = true
same_codec pcma g722 = false
same_codec g722 pcmu = false
same_codec g722 pcma = false
same_codec g722 g722 = true

-- `multicast_groups.setdefault((wire_name, codec), []).append(destination)`
unfoldable pub join_group : WireName → CodecName → Destination → List Task → List Task
unfolding same_wire same_codec
join_group wire codec d [] = multicast_task wire codec (d ∷ []) ∷ []
join_group wire codec d (multicast_task w c group ∷ tasks) =
    if same_wire w wire && same_codec c codec
    then multicast_task w c (group ++ d ∷ []) ∷ tasks
    else multicast_task w c group ∷ join_group wire codec d tasks
join_group wire codec d (sip_task e ∷ tasks) = sip_task e ∷ join_group wire codec d tasks
join_group wire codec d (webhook_task e ∷ tasks) = webhook_task e ∷ join_group wire codec d tasks

-- `destination.codecs[0]`; a multicast destination has exactly one codec.
unfoldable pub first_codec : List CodecName → CodecName
first_codec [] = pcmu
first_codec (c ∷ cs) = c

unfoldable pub effective_wire : Option WireName → WireName → WireName
effective_wire none default = default
effective_wire (some w) default = w

-- What a ready destination adds to the multicast groups, and which task of its own it gets.
unfoldable pub add_group : Protocol → WireName → Destination → List Task → List Task
unfolding join_group first_codec effective_wire
add_group multicast default d tasks =
    join_group (effective_wire d.wire_format default) (first_codec d.codecs) d tasks
add_group sip default d tasks = tasks
add_group http default d tasks = tasks

unfoldable pub own_task : Protocol → Destination → List Task → List Task
own_task multicast d tasks = tasks
own_task sip d tasks = sip_task d ∷ tasks
own_task http d tasks = webhook_task d ∷ tasks

-- The multicast groups of the destinations that are ready, in the order of the dictionary.
unfoldable pub groups : WireName → List Destination → List Task → List Task
unfolding add_group
groups default [] tasks = tasks
groups default (d ∷ ds) tasks = groups default ds (add_group d.protocol default d tasks)

unfoldable pub others : List Destination → List Task
unfolding own_task
others [] = []
others (d ∷ ds) = own_task d.protocol d (others ds)

-- `outcomes` after the tasks, in the order of their completion.
unfoldable pub run_all :
    (Task → Result (List DeliveryOutcome)) → List Task → Result (List DeliveryOutcome)
run_all run [] = ok []
run_all run (t ∷ ts) = do outcomes ← run t; rest ← run_all run ts; ok (outcomes ++ rest)

unfoldable pub record_outcomes :
    String → ℕ → List DeliveryOutcome → EndpointRegistry → EndpointRegistry
record_outcomes now clock [] r = r
record_outcomes now clock (o ∷ os) r = record_outcomes now clock os (record_outcome now clock o r)

-- "; ".join(f"{item.destination}: {item.detail}" ...)
unfoldable pub summary : List DeliveryOutcome → String
summary [] = ""
summary (o ∷ []) = o.destination & ": " & o.detail
summary (o ∷ p ∷ os) = o.destination & ": " & o.detail & "; " & summary (p ∷ os)

unfoldable pub failed_required : List Destination → List DeliveryOutcome → List DeliveryOutcome
failed_required destinations outcomes =
    select
      (λ (o : DeliveryOutcome).
        any (λ (d : Destination). d.required && str_eq d.name o.destination) destinations
        && not o.success)
      outcomes

abbrev pub is_empty {ℓ} : {A : Type ℓ} → List A → Bool
is_empty [] = true
is_empty (x ∷ xs) = false

-- The two checks on the outcomes.
unfoldable pub settle : List Destination → List DeliveryOutcome → Result (Unit {0})
unfolding summary failed_required
settle destinations outcomes = do
  ensure (is_empty (failed_required destinations outcomes))
      ("required delivery failed: " & summary (failed_required destinations outcomes))
  ensure (is_empty outcomes || any (λ (o : DeliveryOutcome). o.success) outcomes)
      ("no destination accepted the page: " & summary outcomes)

-- `deliver`: the report, if it returns one, and the registry, which the outcomes reach even if it
-- raises. `sort_outcomes` is the sort by name.
pub record Delivered : Type 0 where
  pub report : Result DeliveryReport
  pub registry : EndpointRegistry

module _ (run : Task → Result (List DeliveryOutcome)) (completed : List Task → List Task)
    (by_destination : List DeliveryOutcome → List DeliveryOutcome) where
  unfoldable pub settled :
      EndpointRegistry → String → ℕ → Bool → ℕ → List Destination → List DeliveryOutcome → Delivered
  unfolding settle record_outcomes
  settled registry now clock cancelled duration destinations outcomes = record {
    report =
        settle destinations outcomes
        >> ok (record {
          outcomes = by_destination outcomes;
          cancelled = cancelled;
          duration = duration;
        });
    registry = record_outcomes now clock outcomes registry;
  }

  unfoldable pub finished :
      EndpointRegistry
      → String
      → ℕ
      → Bool
      → ℕ
      → List Destination
      → List DeliveryOutcome
      → Result (List DeliveryOutcome)
      → Delivered
  unfolding settled
  finished registry now clock cancelled duration destinations skips (ok outcomes) =
      settled registry now clock cancelled duration destinations (skips ++ outcomes)
  finished registry now clock cancelled duration destinations skips (err e) = record {
    report = err e;
    registry = registry;
  }

  unfoldable pub to_enabled :
      EndpointRegistry → WireName → String → ℕ → Bool → ℕ → Zone → List Destination → Delivered
  unfolding finished run_all groups others skipped
  to_enabled registry default now clock cancelled duration zone [] = record {
    report = err ("zone '" & zone.name & "' has no enabled destinations");
    registry = registry;
  }
  to_enabled registry default now clock cancelled duration zone (d ∷ ds) =
      let ready = select (should_attempt registry clock) (d ∷ ds) in
      finished registry now clock cancelled duration (d ∷ ds)
        (map skipped (select (λ e. not (should_attempt registry clock e)) (d ∷ ds)))
        (run_all run (completed (groups default ready [] ++ others ready)))

  unfoldable pub to_zone :
      EndpointRegistry
      → WireName
      → String
      → ℕ
      → Bool
      → ℕ
      → Zone
      → Result (List Destination)
      → Delivered
  unfolding to_enabled
  to_zone registry default now clock cancelled duration zone (ok destinations) =
      to_enabled registry default now clock cancelled duration zone destinations
  to_zone registry default now clock cancelled duration zone (err e) = record {
    report = err e;
    registry = registry;
  }

  unfoldable pub deliver :
      List Destination → EndpointRegistry → WireName → String → ℕ → Bool → ℕ → Zone → Delivered
  unfolding enabled_destinations to_zone
  deliver configured registry default now clock cancelled duration zone =
      to_zone registry default now clock cancelled duration zone
        (enabled_destinations configured zone.destinations)

-- `_multicast`'s list of outcomes, for the result of `send` or the exception that it raised.
codec_upper : CodecName → String
codec_upper pcmu = "PCMU"
codec_upper pcma = "PCMA"
codec_upper g722 = "G722"

found : String → List (String × String) → Option String
found name [] = none
found name ((key, value) ∷ rest) = if str_eq key name then some value else found name rest

bytes_of : String → List (String × ℕ) → ℕ
bytes_of name [] = 0
bytes_of name ((key, n) ∷ rest) = if str_eq key name then n else bytes_of name rest

sent_outcome : CodecName → TransmitResult → ℕ → Destination → DeliveryOutcome
unfolding found bytes_of codec_upper
sent_outcome codec r duration d =
    let failure = found d.name r.destination_errors in
    record {
      destination = d.name;
      protocol = multicast;
      success = not r.cancelled && not (is_some failure);
      status = if r.cancelled then "cancelled" else if is_some failure then "failed" else "sent";
      detail = elim failure [
        | some e ↦ e
        | none ↦
            show r.packet_count
            & " "
            & codec_upper codec
            & " packets, "
            & show (bytes_of d.name r.destination_bytes)
            & " bytes"
      ];
      attempts = 1;
      duration = duration;
    }

raised_outcome : String → ℕ → Destination → DeliveryOutcome
raised_outcome e duration d = record {
  destination = d.name;
  protocol = multicast;
  success = false;
  status = "failed";
  detail = e;
  attempts = 1;
  duration = duration;
}

unfoldable pub multicast_outcomes :
    CodecName → List Destination → ℕ → Result TransmitResult → List DeliveryOutcome
unfolding sent_outcome raised_outcome
multicast_outcomes codec destinations duration (ok r) =
    map (sent_outcome codec r duration) destinations
multicast_outcomes codec destinations duration (err e) =
    map (raised_outcome e duration) destinations
