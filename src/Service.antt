-- ===== src/Service.antt =====
-- ServiceRuntime of bell/service.py: what the daemon does with an event that fires, when it calls
-- itself ready, and what it checks before it starts. Durations are microseconds.
pub mod Slot
pub mod Report
pub mod Page
pub mod Fire
pub mod Health
pub mod Watch
pub mod Startup
use school_bells.Prelude.{
  ℕ, zero, suc, ◌+◌, ◌-◌, ◌*◌, String, Bool, true, false, ◌&&◌, List, [], ◌∷◌, ◌++◌, Option, none,
  some, leb, if◌then◌else◌, any, map, is_some, show,
}
use school_bells.Prelude.Results.{Result, ok, err, ensure, ◌>>=◌, ◌>>◌}
use school_bells.Dates.{◌&◌}
use school_bells.Config.{
  Protocol, multicast, sip, http, WireName, plain_rtp, poly_group_page, BusyPolicy, preempt,
  Destination, Zone, BellEvent, by_name,
}
use school_bells.Safety.{Safety}
use school_bells.Endpoints.{DeliveryOutcome}
use school_bells.Delivery.{DeliveryReport, enabled_destinations}
use school_bells.Paging.{PageLease}
use school_bells.Alerts.{Settings as AlertSettings, Table, NewAlert, enqueue}

pub record Settings : Type 0 where
  pub max_audio : ℕ
  pub max_page : ℕ
  pub wire_format : WireName

-- The entries that `last_fire` has only after a success (the count, the duration) or only after a
-- failure (the detail) are options.
pub record LastFire : Type 0 where
  pub timestamp : String
  pub schedule_name : String
  pub event_label : String
  pub zone : String
  pub channel : ℕ
  pub destinations : List String
  pub sound_file : String
  pub priority : ℕ
  pub repeat_count : Option ℕ
  pub delivery_outcomes : List DeliveryOutcome
  pub duration : Option ℕ
  pub succeeded : Bool
  pub detail : Option String

-- A file of eight-bit samples at 8000 Hz.
unfoldable pub playing_time : ℕ → ℕ
playing_time size = size * 125

-- A sound's name that is not empty.
unfoldable pub truthy : Option String → Option String
truthy none = none
truthy (some String.[]) = none
truthy (some (String.◌∷◌ c s)) = some (String.◌∷◌ c s)

unfoldable pub pre_duration : (String → Result ℕ) → Option String → Result ℕ
unfolding playing_time
pre_duration transcode none = ok 0
pre_duration transcode (some tone) = do size ← transcode tone; ok (playing_time size)

is_multicast : Protocol → Bool
is_multicast multicast = true
is_multicast sip = false
is_multicast http = false

is_poly : Option WireName → WireName → Bool
is_poly none plain_rtp = false
is_poly none poly_group_page = true
is_poly (some plain_rtp) default = false
is_poly (some poly_group_page) default = true

pages_poly : WireName → Option Destination → Bool
unfolding is_multicast is_poly
pages_poly default none = false
pages_poly default (some d) = d.enabled && is_multicast d.protocol && is_poly d.wire_format default

unfoldable pub uses_poly : WireName → List Destination → List String → Bool
unfolding pages_poly
uses_poly default configured names =
    any (λ name. pages_poly default (by_name (λ (d : Destination). d.name) name configured)) names

-- `PolyGroupPage.session_overhead_seconds`: 31 alerts and 12 ends, 30 ms apart, and a pause of 50 ms
abbrev pub session_overhead : ℕ
session_overhead = 31 * 30000 + 50000 + 12 * 30000

unfoldable pub total_duration : Settings → List Destination → Zone → BellEvent → ℕ → ℕ → ℕ
unfolding uses_poly
total_duration s configured zone event main pre =
    pre
    + main * event.repeat_count
    + event.repeat_interval * (event.repeat_count - 1)
    + (if uses_poly s.wire_format configured zone.destinations
        then session_overhead * (event.repeat_count + (if is_some event.pre_tone then 1 else 0))
        else 0)

-- The sounds and the durations that `transmit_event` looks at before it asks for the page slot:
-- `transcode` gives the size of a sound's file, `two_decimals` is the format ".2f" of seconds.
unfoldable pub plan :
    (String → Result ℕ) → (ℕ → String) → Settings → List Destination → Zone → BellEvent → Result ℕ
unfolding playing_time pre_duration truthy total_duration
plan transcode two_decimals s configured zone event = do
  size ← transcode event.sound
  pre ← pre_duration transcode (truthy event.pre_tone)
  ensure (leb (playing_time size) s.max_audio) (
      "sound duration "
      & two_decimals (playing_time size)
      & "s exceeds max_audio_seconds "
      & two_decimals s.max_audio
      & "s")
  ensure (leb pre s.max_audio) (
      "pre-tone duration "
      & two_decimals pre
      & "s exceeds max_audio_seconds "
      & two_decimals s.max_audio
      & "s")
  ensure (leb (total_duration s configured zone event (playing_time size) pre) s.max_page) (
      "page duration "
      & two_decimals (total_duration s configured zone event (playing_time size) pre)
      & "s exceeds max_page_seconds "
      & two_decimals s.max_page
      & "s")
  ok (total_duration s configured zone event (playing_time size) pre)

unfoldable pub busy_policy : Safety → BellEvent → BusyPolicy
busy_policy safety event =
    if leb safety.emergency_priority_threshold event.priority then preempt else event.busy_policy

-- The reports so far, the state that is left, and how the page went on.
pub record Played (S : Type 0) : Type 0 where
  pub reports : List DeliveryReport
  pub left : S
  pub ended : Result (Unit {0})

abbrev pub any_cancelled : List DeliveryReport → Bool
any_cancelled reports = any (λ (r : DeliveryReport). r.cancelled) reports

abbrev pub outcomes_of : List DeliveryReport → List DeliveryOutcome
outcomes_of [] = []
outcomes_of (r ∷ rs) = r.outcomes ++ outcomes_of rs

abbrev pub time_of : List DeliveryReport → ℕ
time_of [] = 0
time_of (r ∷ rs) = r.duration + time_of rs
