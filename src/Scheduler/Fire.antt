-- ===== src/Scheduler/Fire.antt =====
-- `BellScheduler.fire` of bell/scheduler.py, in the three parts between which other threads and
-- processes may write to the database: the checks, the claim, and what follows the transmission.
-- `transmit` is a parameter of the source; what it did is an argument.
pub mod Outcome
pub mod Once
use school_bells.Prelude.{
  ℕ, ◌+◌, ◌*◌, String, Bool, true, false, not, ◌&&◌, List, [], ◌∷◌, Option, none, some, ltb, str_eq,
  if◌then◌else◌, ◌==◌,
}
use school_bells.Dates.{Moment, wall, second, ◌&◌}
use school_bells.Safety.{Safety, SafetyDecision, allow, refuse, SoundFile, FireCheck, evaluate_fire}
use school_bells.Fires.{
  PlannedEvent, key, Tables, has_attempt, attempt_count, record_once, update_result,
}

-- A call of `fire`, with what it reads of the configuration and of the file system.
pub record FireRequest : Type 0 where
  pub planned : PlannedEvent
  pub now : Moment
  pub manual : Bool
  pub override_hours : Bool
  pub expected_config_hash : Option String
  pub config_hash : String
  pub safety : Safety
  pub sounds_path : String
  pub sound_file : SoundFile
  pub restore_marker : Bool
  pub maintenance_marker : Bool

pub data Transmission : Type 0 where
  completed : Transmission
  raised : String → Transmission

abbrev pub day_of : FireRequest → ℕ
day_of r = r.now.date

abbrev pub key_of_request : FireRequest → String
key_of_request r = key r.planned

-- `expected_config_hash is not None and config.hash != expected_config_hash`
unfoldable pub config_changed : Option String → String → Bool
config_changed none hash = false
config_changed (some expected) hash = not (str_eq hash expected)

unfoldable pub is_late : FireRequest → Bool
is_late r = not r.manual && ltb (wall r.planned.scheduled_at + 60 * second) (wall r.now)

unfoldable pub fire_check : FireRequest → Tables → FireCheck
fire_check r t = record {
  now = r.now;
  safety = r.safety;
  sound = r.sounds_path & "/" & r.planned.event.sound;
  sound_file = r.sound_file;
  attempt_count = attempt_count (day_of r) t;
  manual = r.manual;
  override_hours = r.override_hours;
  maintenance_marker = r.maintenance_marker;
}

note : FireRequest → String → String → Tables → Tables
note r result reason t =
    (record_once (day_of r) (key_of_request r) result reason r.now (some r.planned) none t).0

after_checks : FireRequest → SafetyDecision → Tables → Tables × Option SafetyDecision
unfolding note
after_checks r decision t =
    if decision.allowed then (t, none) else (note r "blocked" decision.reason t, some decision)

-- Up to the claim: the tables, and the decision where the call ends here.
unfoldable pub prepare : FireRequest → Tables → Tables × Option SafetyDecision
unfolding after_checks note
prepare r t =
    if r.restore_marker
    then (t, some (refuse "Restore maintenance; transmissions are blocked"))
    else if config_changed r.expected_config_hash r.config_hash
    then (t, some (refuse "Configuration changed; review a new page"))
    else if is_late r
    then (
      note r "missed" "event is more than 60 seconds late; skipped" t,
      some (refuse "event is more than 60 seconds late; skipped"),
    )
    else if has_attempt (day_of r) (key_of_request r) t
    then (t, some (refuse "event already attempted today"))
    else after_checks r (evaluate_fire (fire_check r t)) t

-- The claim, with the daily cap once more.
unfoldable pub claim : FireRequest → Tables → Tables × Bool
claim r t =
    record_once (day_of r) (key_of_request r) "started" "transmission claimed" r.now
      (some r.planned) (some r.safety.max_events_per_day) t

-- After `transmit` has returned or raised.
unfoldable pub conclude : FireRequest → Transmission → Tables → Tables × SafetyDecision
conclude r completed t = (
  update_result (day_of r) (key_of_request r) "success" "transmission completed" t,
  allow "transmission completed",
)
conclude r (raised error) t = (
  update_result (day_of r) (key_of_request r) "failed" error t,
  refuse ("transmission failed: " & error),
)

pub record Fired : Type 0 where
  pub tables : Tables
  pub decision : SafetyDecision
  pub transmitted : Bool

after_claim : FireRequest → Transmission → Tables × Bool → Fired
after_claim r outcome (t, false) = record {
  tables = t;
  decision = refuse "event already attempted or daily cap reached";
  transmitted = false;
}
after_claim r outcome (t, true) =
    let (u, decision) = conclude r outcome t in
    record { tables = u; decision = decision; transmitted = true }

after_prepare : FireRequest → Transmission → Tables × Option SafetyDecision → Fired
after_prepare r outcome (t, some decision) = record {
  tables = t;
  decision = decision;
  transmitted = false;
}
after_prepare r outcome (t, none) = after_claim r outcome (claim r t)

-- The whole method, with no one else at the database.
unfoldable pub fire : FireRequest → Transmission → Tables → Fired
unfolding after_prepare after_claim
fire r outcome t = after_prepare r outcome (prepare r t)
