-- ===== src/Tests/Runtime.antt =====
-- A page of the service's runtime, played and refused; readiness; the loop; the start.
use school_bells.Prelude.{
  ℕ, ◌≡◌, ◌↔◌, refl, String, Bool, true, false, List, [], ◌∷◌, Option, none, some, arith, not, any,
  str_eq,
}
use school_bells.Prelude.Results.{Result, ok, err}
use school_bells.Config.{BellEvent, BusyPolicy, plain_rtp, Destination, Zone, http, by_name}
use school_bells.Paging.{PageLease}
use school_bells.Endpoints.{DeliveryOutcome, EndpointRegistry, record_outcome}
use school_bells.Delivery.{DeliveryReport, enabled_destinations}
use school_bells.Alerts.{Settings as AlertSettings}
use school_bells.Service.{Settings, LastFire}
use school_bells.Service.Slot.{attempt_page}
use school_bells.Service.Report.{Runtime, transmit_event}
use school_bells.Service.Fire.{Rang, Failed, transmit_event-Rang, transmit_event-Failed, fired}
use school_bells.Service.Health.{Surroundings, Sound, is_ready, ready_status, required_names}
use school_bells.Service.Health.Rules.{is_ready_iff}
use school_bells.Service.Health.Failing.{record_outcome-not_ready}
use school_bells.Service.Watch.{
  Turn, supervise, starting, told, Alternates, exit_code, supervise-Alternates,
}
use school_bells.Service.Startup.{Machine, StartupConfig, validate_startup}
use school_bells.Service.Startup.Fit.{Fit, validate_startup-Fit}
use school_bells.Tests.{first_bell, school_safety, strobe, gym}

abbrev gym_bell : BellEvent
gym_bell = record first_bell { zone = "gym"; repeat_count = 2 }

abbrev report : DeliveryReport
report = record { outcomes = []; cancelled = false; duration = 3 }

abbrev deliver_all : Option String → String → Unit {0} → Unit {0} × Result DeliveryReport
deliver_all sound key s = (s, ok report)

abbrev deliver_none : Option String → String → Unit {0} → Unit {0} × Result DeliveryReport
deliver_none sound key s = (s, err "no destination accepted the page")

abbrev undisturbed : ℕ → Unit {0} → Unit {0} × Bool
undisturbed interval s = (s, false)

abbrev free_slot : String → ℕ → BusyPolicy → Unit {0} → Unit {0} × PageLease
free_slot label priority policy s =
    (s, record { acquired = true; reason = "page slot acquired"; token = some "a" })

abbrev give_back : String → Unit {0} → Unit {0}
give_back token s = s

abbrev one_second : String → Result ℕ
one_second sound = ok 8000

abbrev decimals : ℕ → String
decimals n = "1.00"

abbrev limits : Settings
limits = record { max_audio = 60000000; max_page = 300000000; wire_format = plain_rtp }

abbrev with_webhook : AlertSettings
with_webhook = record {
  alert_webhook_url = some "https://alerts.example";
  alert_webhook_secret_env = none;
}

abbrev stamped : LastFire → String × String
stamped fire = ("n1", "{}")

abbrev idle : Runtime (Unit {0})
idle = record { slots = tt; last_fire = none; outbox = [] }

abbrev rung : Runtime (Unit {0}) × Result (List DeliveryReport)
rung =
    fired deliver_all undisturbed "key" free_slot give_back one_second decimals limits school_safety
      (gym ∷ []) (strobe ∷ []) with_webhook 900 7 stamped "08:00" "regular" gym_bell idle

abbrev failed : Runtime (Unit {0}) × Result (List DeliveryReport)
failed =
    fired deliver_none undisturbed "key" free_slot give_back one_second decimals limits
      school_safety (gym ∷ []) (strobe ∷ []) with_webhook 900 7 stamped "08:00" "regular" gym_bell
      idle

rung_twice : rung.1 ≡ ok (report ∷ report ∷ [])
unfolding transmit_event by_name enabled_destinations attempt_page
rung_twice = refl

transmit_event-Rang_example :
    Rang deliver_all undisturbed "key" free_slot give_back one_second decimals limits school_safety
      (gym ∷ [])
      (strobe ∷ [])
      with_webhook
      900
      7
      stamped
      "08:00"
      "regular"
      gym_bell
      idle
      rung.0
      (report ∷ report ∷ [])
transmit_event-Rang_example =
    transmit_event-Rang deliver_all undisturbed "key" free_slot give_back one_second decimals limits
      school_safety (gym ∷ []) (strobe ∷ []) with_webhook 900 7 stamped "08:00" "regular" gym_bell
      idle (report ∷ report ∷ []) (omega arith) rung_twice

gym_enabled : enabled_destinations (strobe ∷ []) gym.destinations ≡ ok (strobe ∷ [])
unfolding enabled_destinations by_name
gym_enabled = refl

failed_once : failed.1 ≡ err "no destination accepted the page"
unfolding transmit_event by_name enabled_destinations attempt_page
failed_once = refl

gym_found : by_name (λ (z : Zone). z.name) "gym" (gym ∷ []) ≡ some gym
unfolding by_name
gym_found = refl

transmit_event-Failed_example :
    Failed deliver_none undisturbed "key" free_slot give_back one_second decimals limits
      school_safety
      (gym ∷ [])
      (strobe ∷ [])
      with_webhook
      900
      7
      stamped
      "08:00"
      "regular"
      gym_bell
      idle
      failed.0
      "no destination accepted the page"
transmit_event-Failed_example =
    transmit_event-Failed deliver_none undisturbed "key" free_slot give_back one_second decimals
      limits school_safety (gym ∷ []) (strobe ∷ []) with_webhook 900 7 stamped "08:00" "regular"
      gym_bell idle "no destination accepted the page" gym (strobe ∷ []) gym_found gym_enabled
      failed_once

abbrev calm : Surroundings
calm = record {
  restore_incomplete = false;
  synchronized = some true;
  clock_sync_required = true;
  scheduler_running = true;
  monitor_running = true;
  disk_free = 1000000000;
}

is_ready_iff_example :
    (ready_status (is_ready calm (strobe ∷ []) []) ≡ 200) ↔ Sound calm (strobe ∷ []) []
is_ready_iff_example = is_ready_iff calm (strobe ∷ []) []

abbrev alarm : Destination
alarm = record strobe { required = true }

abbrev registry : EndpointRegistry
registry = record { failure_threshold = 2; cooldown = 60; items = [] }

abbrev no_answer : DeliveryOutcome
no_answer = record {
  destination = "strobe";
  protocol = http;
  success = false;
  status = "failed";
  detail = "timed out";
  attempts = 3;
  duration = 0;
}

alarm_required : any (str_eq "strobe") (required_names (alarm ∷ [])) ≡ true
unfolding required_names
alarm_required = refl

record_outcome-not_ready_example :
    is_ready calm (alarm ∷ []) (record_outcome "now" 4 no_answer registry).items ≡ false
record_outcome-not_ready_example =
    record_outcome-not_ready calm (alarm ∷ []) registry "now" 4 no_answer alarm_required refl

abbrev good_turn : Turn
good_turn = record {
  alive = true;
  beat_clock = 20000000;
  beat_done = 20000000;
  maintenance = false;
  check_clock = 20000000;
  check_done = 20000000;
  ready = true;
}

abbrev turns : List Turn
turns =
    good_turn
    ∷ record good_turn { check_clock = 40000000; check_done = 40000000; ready = false }
    ∷ record good_turn { alive = false }
    ∷ []

supervise-Alternates_example :
    Alternates none
      (told (supervise 1000000 turns starting).1)
      (supervise 1000000 turns starting).0.last_ready
    × ((exit_code (supervise 1000000 turns starting).0 ≡ 1)
        ↔ (any (λ (t : Turn). not t.alive) turns ≡ true))
supervise-Alternates_example = supervise-Alternates 1000000 turns

abbrev school_machine : Machine
school_machine = record {
  environ = λ name. none;
  is_file = λ path. false;
  tools = true;
  size_of = one_second;
  transcodes = λ sound codec. ok 8000;
  interface_present = true;
  interface_detail = "";
  multicast_error = λ d. none;
  synchronized = some true;
  sync_detail = "";
}

abbrev small_school : StartupConfig
small_school = record {
  schedules = record { name = "regular"; events = first_bell ∷ [] } ∷ [];
  standing_items = [];
  destinations = strobe ∷ [];
  max_audio = 60000000;
  clock_sync_required = true;
}

starts : validate_startup school_machine decimals small_school ≡ []
unfolding validate_startup
starts = refl

validate_startup-Fit_example : Fit school_machine small_school
validate_startup-Fit_example = validate_startup-Fit school_machine decimals small_school starts
