-- ===== src/Tests/Rings.antt =====
-- The calendar, the safety checks and the fires of bell/scheduler.py and bell/safety.py on one bell.
use school_bells.Prelude.{
  All, ◌++◌, String, ◌*◌, ℕ, ◌≤◌, ◌≡◌, ◌↔◌, ◌⊎◌, refl, Bool, true, false, [], ◌∷◌, some, arith,
  take,
}
use school_bells.Config.{by_name, plain_rtp}
use school_bells.Dates.{Offset, east, hour}
use school_bells.Dates.Order.{From}
use school_bells.Safety.{
  FireCheck, evaluate_fire, readable, check_kill_switch, check_pause, check_allowed_hours,
  within_allowed_hours, check_daily_cap, check_sound,
}
use school_bells.Safety.Rules.{MayFire, evaluate_fire_iff}
use school_bells.Fires.{
  FireRow, record_once, has_attempt, attempt_count, claim_api_request, Tables, result_of,
  find_request, api_result,
}
use school_bells.Fires.Claims.{HasKey, BelowCap, record_once-Inserts}
use school_bells.Fires.Requests.{claim_once, Life-HasKeys, HasKeys, created, written, attempt, here}
use school_bells.Scheduler.{resolve_day, upcoming_events, start_of, DayPlan}
use school_bells.Scheduler.Days.{IsValid, resolve_day_plan, OnDay, MadeOf}
use school_bells.Scheduler.Upcoming.{upcoming_events_lem, horizon}
use school_bells.Scheduler.Fire.{
  fire, claim, prepare, completed, day_of, key_of_request, config_changed, is_late, fire_check,
}
use school_bells.Scheduler.Fire.Outcome.{Rings, fire-Rings_iff, fire_outcome, status_of}
use school_bells.Scheduler.Fire.Once.{
  at_most_once, Run, start, step, check, won, Distinct, sent_on, System,
}
use school_bells.Config.Check.{Loaded, config_errors, within_window}
use school_bells.Config.Consistent.{Consistent, no_errors-Consistent}
use school_bells.Tests.{
  strobe, monday, at_eight, planned_bell, no_tables, school_safety, ring_now, school,
}

abbrev morning : FireCheck
morning = record {
  now = at_eight;
  safety = school_safety;
  sound = "sounds/bell.wav";
  sound_file = readable;
  attempt_count = 1;
  manual = false;
  override_hours = false;
  maintenance_marker = false;
}

evaluate_fire_iff_example : ((evaluate_fire morning).allowed ≡ true) ↔ MayFire morning
evaluate_fire_iff_example = evaluate_fire_iff morning

record_once-Inserts_example :
    (((record_once monday "k" "started" "" at_eight (some planned_bell) (some 2) no_tables).1
        ≡ true)
      ↔ (All (λ row. HasKey monday "k" row → ⊥) no_tables.fire_attempts
          × BelowCap monday (some 2) no_tables.fire_attempts))
    × ((record_once monday "k" "started" "" at_eight (some planned_bell) (some 2) no_tables).1
          ≡ true
        → (row : FireRow) × HasKey monday "k" row
          × (row.result ≡ "started")
          × (row.detail ≡ "")
          × ((record_once monday "k" "started" "" at_eight (some planned_bell) (some 2) no_tables).0
              ≡ record no_tables { fire_attempts = no_tables.fire_attempts ++ row ∷ [] }))
    × ((record_once monday "k" "started" "" at_eight (some planned_bell) (some 2) no_tables).1
          ≡ false
        → (record_once monday "k" "started" "" at_eight (some planned_bell) (some 2) no_tables).0
          ≡ no_tables)
record_once-Inserts_example =
    record_once-Inserts monday "k" "started" "" at_eight (some planned_bell) (some 2) no_tables

abbrev once : Tables × Bool
once = record_once monday "k" "started" "" at_eight (some planned_bell) (some 2) no_tables

claim_once_example :
    claim_api_request "key" at_eight "other" (claim_api_request "key" at_eight "hash" no_tables).0
    ≡ ((claim_api_request "key" at_eight "hash" no_tables).0, false)
unfolding claim_api_request find_request api_result
claim_once_example = claim_once "key" at_eight at_eight "hash" "other" no_tables refl here

Life-HasKeys_example : HasKeys once.0
Life-HasKeys_example = Life-HasKeys (
    written created
      (attempt monday "k" "started" "" at_eight (some planned_bell) (some 2) no_tables))

utc : ℕ → ℕ → Offset
utc day time = east 0

school-IsValid : IsValid school
unfolding by_name
school-IsValid = record {
  calendar = record { overrides = (refl, tt); ranges = tt; weekdays = tt };
  schedules = ((omega arith, tt), tt);
  standing = tt;
}

resolve_day_plan_example :
    (plan : DayPlan) × (resolve_day utc monday school ≡ some plan)
    × From (start_of utc) 0 plan.events
    × OnDay utc monday plan.events
    × MadeOf utc monday school plan
resolve_day_plan_example = resolve_day_plan utc monday school school-IsValid

upcoming_events_lem_example :
    (upcoming_events utc school at_eight 5 2
      ≡ some (take 5 (horizon utc school school-IsValid at_eight 3 monday)))
    × From (start_of utc) 0 (horizon utc school school-IsValid at_eight 3 monday)
upcoming_events_lem_example = upcoming_events_lem utc school school-IsValid at_eight 5 2

fire-Rings_iff_example :
    ((fire ring_now completed no_tables).transmitted ≡ true) ↔ Rings ring_now no_tables
fire-Rings_iff_example = fire-Rings_iff ring_now completed no_tables

fire_outcome_example :
    (((fire ring_now completed no_tables).decision.allowed ≡ true)
      ↔ (Rings ring_now no_tables × (completed ≡ completed)))
    × (Rings ring_now no_tables
        → result_of
            (day_of ring_now)
            (key_of_request ring_now)
            (fire ring_now completed no_tables).tables
          ≡ some (status_of completed))
    × (ring_now.restore_marker ≡ false
        → config_changed ring_now.expected_config_hash ring_now.config_hash ≡ false
        → has_attempt (day_of ring_now) (key_of_request ring_now) no_tables ≡ false
        → ((is_late ring_now ≡ true)
            → result_of
                (day_of ring_now)
                (key_of_request ring_now)
                (fire ring_now completed no_tables).tables
              ≡ some "missed")
          × ((is_late ring_now ≡ false)
              → (evaluate_fire (fire_check ring_now no_tables)).allowed ≡ false
              → result_of
                  (day_of ring_now)
                  (key_of_request ring_now)
                  (fire ring_now completed no_tables).tables
                ≡ some "blocked"))
    × ((ring_now.restore_marker ≡ true)
          ⊎ (config_changed ring_now.expected_config_hash ring_now.config_hash ≡ true)
          ⊎ ((is_late ring_now ≡ false)
              × (has_attempt (day_of ring_now) (key_of_request ring_now) no_tables ≡ true))
        → (fire ring_now completed no_tables).tables ≡ no_tables)
fire_outcome_example = fire_outcome ring_now completed no_tables

abbrev before_all : System
before_all = record { tables = no_tables; ready = []; sending = []; sent = [] }

abbrev checked : System
checked = record {
  tables = (prepare ring_now no_tables).0;
  ready = ring_now ∷ [];
  sending = [];
  sent = [];
}

abbrev claimed : System
claimed = record {
  tables = (claim ring_now checked.tables).0;
  ready = [];
  sending = ring_now ∷ [];
  sent = (monday, key_of_request ring_now) ∷ [];
}

two_steps : Run 2 no_tables claimed
unfolding prepare claim record_once has_attempt attempt_count evaluate_fire config_changed is_late
    fire_check check_kill_switch check_pause check_allowed_hours within_allowed_hours
    check_daily_cap check_sound
two_steps =
    step (step start (check before_all ring_now refl))
      (won checked [] [] ring_now refl (omega arith) refl)

at_most_once_example : Distinct claimed.sent × ((d : ℕ) → sent_on d claimed.sent ≤ 2)
at_most_once_example = at_most_once two_steps

abbrev always : String → Bool
always file = true

abbrev loaded : Loaded
loaded = record {
  destinations = strobe ∷ [];
  zones = record { name = "all"; channel = 3; destinations = "strobe" ∷ []; description = "" } ∷ [];
  schedules = school.schedules;
  standing_items = [];
  calendar = school.calendar;
  wire_format = plain_rtp;
  max_repeats = 3;
  hours_start = 6 * hour;
  hours_end = 20 * hour;
}

no_errors : config_errors always loaded ≡ []
unfolding config_errors by_name within_window
no_errors = refl

no_errors-Consistent_example : Consistent always loaded
no_errors-Consistent_example = no_errors-Consistent always loaded no_errors
