-- ===== src/Safety.antt =====
-- bell/safety.py: the checks made just before every fire. The maintenance marker and the sound file
-- are read from the file system, so what is found there is an argument.
pub mod Rules
use school_bells.Prelude.{
  ℕ, ◌≤◌, String, Bool, true, false, ◌&&◌, ◌||◌, List, [], ◌∷◌, Option, none, some, leb, ltb,
  if◌then◌else◌, show,
}
use school_bells.Dates.{Moment, instant, iso, iso_date, ◌&◌}

-- The `Safety` model of bell/config.py. Times are microseconds of the day, dates ordinals.
pub record Safety : Type 0 where
  pub allowed_hours_start : ℕ
  pub allowed_hours_end : ℕ
  pub max_events_per_day : ℕ
  pub max_repeats : ℕ
  pub emergency_priority_threshold : ℕ
  pub kill_switch_enabled : Bool
  pub kill_switch_until : Option ℕ
  pub pause_until : Option Moment
  pub pause_reason : Option String

pub record SafetyDecision : Type 0 where
  pub allowed : Bool
  pub reason : String

abbrev pub allow : String → SafetyDecision
allow reason = record { allowed = true; reason = reason }

abbrev pub refuse : String → SafetyDecision
refuse reason = record { allowed = false; reason = reason }

unfoldable pub within_allowed_hours : ℕ → ℕ → ℕ → Bool
within_allowed_hours value start end =
    if leb start end then leb start value && leb value end else leb start value || leb value end

unfoldable pub check_allowed_hours : Moment → Safety → Bool → Bool → SafetyDecision
check_allowed_hours now safety manual override =
    if within_allowed_hours now.time safety.allowed_hours_start safety.allowed_hours_end
    then allow "within allowed hours"
    else if manual && override
    then allow "manual allowed-hours override accepted and logged"
    else refuse "outside allowed bell hours"

kill_switch_suffix : Option ℕ → String
kill_switch_suffix none = ""
kill_switch_suffix (some until) = " through " & iso_date until

expired_on : ℕ → Option ℕ → Bool
expired_on date none = false
expired_on date (some until) = ltb until date

unfoldable pub check_kill_switch : ℕ → Safety → SafetyDecision
unfolding expired_on kill_switch_suffix
check_kill_switch date safety =
    if safety.kill_switch_enabled
    then if expired_on date safety.kill_switch_until
      then allow "kill switch has expired"
      else refuse ("kill switch is enabled" & kill_switch_suffix safety.kill_switch_until)
    else allow "kill switch is off"

-- `safety.pause_reason or "operator pause"`
reason_or_default : Option String → String
reason_or_default none = "operator pause"
reason_or_default (some String.[]) = "operator pause"
reason_or_default (some reason) = reason

pause_at : Moment → Option Moment → Option String → SafetyDecision
pause_at now none reason = allow "temporary pause is inactive"
pause_at now (some until) reason =
    if leb (instant until) (instant now)
    then allow "temporary pause is inactive"
    else refuse ("bell service paused until " & iso until & ": " & reason_or_default reason)

unfoldable pub check_pause : Moment → Safety → SafetyDecision
unfolding pause_at reason_or_default
check_pause now safety = pause_at now safety.pause_until safety.pause_reason

unfoldable pub check_daily_cap : ℕ → Safety → SafetyDecision
check_daily_cap attempt_count safety =
    if leb safety.max_events_per_day attempt_count
    then refuse ("daily event cap (" & show safety.max_events_per_day & ") reached")
    else allow "daily event cap not reached"

-- What opening the sound file finds; the text of an `OSError` with it.
pub data SoundFile : Type 0 where
  missing readable : SoundFile
  unreadable : String → SoundFile

unfoldable pub check_sound : String → SoundFile → SafetyDecision
check_sound path missing = refuse ("sound file is missing: " & path)
check_sound path (unreadable error) = refuse ("sound file is unreadable: " & error)
check_sound path readable = allow "sound file exists and is readable"

-- `for decision in checks: if not decision.allowed: return decision`
unfoldable pub first_refusal : List SafetyDecision → SafetyDecision
first_refusal [] = allow "all fire-time safety checks passed"
first_refusal (decision ∷ rest) = if decision.allowed then first_refusal rest else decision

pub record FireCheck : Type 0 where
  pub now : Moment
  pub safety : Safety
  pub sound : String
  pub sound_file : SoundFile
  pub attempt_count : ℕ
  pub manual : Bool
  pub override_hours : Bool
  pub maintenance_marker : Bool

unfoldable pub evaluate_fire : FireCheck → SafetyDecision
unfolding first_refusal
evaluate_fire c =
    if c.maintenance_marker
    then refuse "upgrade maintenance; transmissions are blocked"
    else first_refusal (
        check_kill_switch c.now.date c.safety
        ∷ check_pause c.now c.safety
        ∷ check_allowed_hours c.now c.safety c.manual c.override_hours
        ∷ check_daily_cap c.attempt_count c.safety
        ∷ check_sound c.sound c.sound_file
        ∷ [])
