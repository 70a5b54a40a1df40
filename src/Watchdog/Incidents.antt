-- ===== src/Watchdog/Incidents.antt =====
-- The order in which bell/watchdog.py sends its notices.
use school_bells.Prelude.{
  ◌++◌, ℕ, ◌≡◌, String, Bool, true, false, List, [], ◌∷◌, Option, none, some,
}
use school_bells.Prelude.Results.{ok}
use school_bells.Watchdog.{
  Watch, WatchConfig, Kind, outage, recovered, escalation, reminder, Incident, Notice, observe,
  empty_watch, acknowledged_by, flush, counted, due, notice, id_of, opened_or,
}

-- What a notice may follow, and leaves: whether an incident is open.
abbrev pub allowed : Bool → Kind → Option Bool
allowed false outage = some true
allowed true outage = none
allowed false recovered = none
allowed true recovered = some false
allowed false escalation = none
allowed true escalation = some true
allowed false reminder = none
allowed true reminder = some true

-- Whether an incident is open after those notices, the latest last; `none` where one of them was
-- out of order.
abbrev pub open_after : Bool → List Notice → Option Bool
open_after b [] = some b
open_after b (n ∷ ns) = elim (allowed b n.kind) [ none ↦ none | some c ↦ open_after c ns ]

-- The kind of the notice that a probe gives rise to, if any.
kind_of : WatchConfig → Bool → String → ℕ → Watch → Option Kind
kind_of config healthy detail now s = due config healthy now (counted healthy detail now s)

after : String → ℕ → Option Kind → Option Incident → Option Incident
after fresh now none i = i
after fresh now (some kind) i = opened_or kind fresh now i

allowed_due : Bool → Option Kind → Option Bool
allowed_due b none = some b
allowed_due b (some k) = allowed b k

-- The notices that a probe adds to the pending ones.
added : WatchConfig → String → String → ℕ → Watch → Option Kind → List Notice
added config fresh detail now s none = []
added config fresh detail now s (some kind) =
    notice config kind (id_of fresh s.incident) now detail ∷ []

-- What can happen to the record, and the notices that its probes put behind the pending ones, the
-- latest last.
pub data Watched (config : WatchConfig) (is_blank : String → Bool)
    : Watch → List Notice → Type 0 where
  start : Watched config is_blank empty_watch []
  probed :
      {s : Watch} {notices : List Notice} (fresh : String) (healthy : Bool) (detail : String)
      (now : ℕ) (new : List Notice)
      → Watched config is_blank s notices
      → (observe config fresh healthy detail now s).pending ≡ s.pending ++ new
      → Watched config is_blank (observe config fresh healthy detail now s) (notices ++ new)
  answered :
      {s t : Watch} {notices : List Notice} (identity observer note : String) (now : ℕ)
      → Watched config is_blank s notices
      → acknowledged_by is_blank identity observer note now s ≡ ok t
      → Watched config is_blank t notices
  flushed :
      {s : Watch} {notices : List Notice} (enqueue : Notice → Bool × String)
      → Watched config is_blank s notices
      → Watched config is_blank (flush enqueue s) notices
