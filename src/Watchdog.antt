-- ===== src/Watchdog.antt =====
-- WatchState of bell/watchdog.py: the external monitor's record of incidents. Times are numbers of
-- seconds since the epoch, not zero; the identity of a new incident is an argument. `details` of an
-- alert is its notice.
pub mod Incidents
use school_bells.Prelude.{
  ℕ, zero, suc, ◌+◌, String, Bool, true, false, ◌&&◌, ◌||◌, not, List, [], ◌∷◌, ◌++◌, Option, none,
  some, if◌then◌else◌, length, leb, str_eq, show, is_some, codes, ◌==◌,
}
use school_bells.Prelude.Results.{Result, ok, err, ensure, ◌>>=◌, ◌>>◌}
use school_bells.Dates.{◌&◌}

pub record WatchConfig : Type 0 where
  pub owner : String
  pub escalation : String
  pub failure_threshold : ℕ
  pub recovery_threshold : ℕ
  pub reminder_seconds : ℕ
  pub escalation_seconds : ℕ

pub record Acknowledged : Type 0 where
  pub who : String
  pub note : String
  pub at : ℕ

pub record Incident : Type 0 where
  pub id : String
  pub opened : ℕ
  pub last_notice : ℕ
  pub acknowledged : Option Acknowledged
  pub escalated : Option ℕ

pub data Kind : Type 0 where
  outage recovered escalation reminder : Kind

pub record Notice : Type 0 where
  pub kind : Kind
  pub incident : String
  pub at : ℕ
  pub detail : String
  pub owner : String
  pub escalation : String

pub record Watch : Type 0 where
  pub last_probe : Option ℕ
  pub detail : String
  pub failures : ℕ
  pub successes : ℕ
  pub incident : Option Incident
  pub last_incident : Option (Incident × ℕ)
  pub pending : List Notice

-- `'{}'`
unfoldable pub empty_watch : Watch
empty_watch = record {
  last_probe = none;
  detail = "";
  failures = 0;
  successes = 0;
  incident = none;
  last_incident = none;
  pending = [];
}

-- The state with the probe's result and the two counts.
unfoldable pub counted : Bool → String → ℕ → Watch → Watch
counted healthy detail now s = record s {
  last_probe = some now;
  detail = detail;
  failures = if healthy then 0 else s.failures + 1;
  successes = if healthy then s.successes + 1 else 0;
}

unfoldable pub new_incident : String → ℕ → Incident
new_incident fresh now = record {
  id = fresh;
  opened = now;
  last_notice = now;
  acknowledged = none;
  escalated = none;
}

-- Which notice is due, if any, with so many failures and successes in a row.
unfoldable pub due_for : WatchConfig → Bool → ℕ → ℕ → ℕ → Option Incident → Option Kind
due_for config healthy now failures successes none =
    if not healthy && leb config.failure_threshold failures then some outage else none
due_for config healthy now failures successes (some i) =
    if healthy && leb config.recovery_threshold successes
    then some recovered
    else if leb (i.opened + config.escalation_seconds) now && not (is_some i.escalated)
    then some escalation
    else if not (is_some i.acknowledged) && leb (i.last_notice + config.reminder_seconds) now
    then some reminder
    else none

unfoldable pub due : WatchConfig → Bool → ℕ → Watch → Option Kind
unfolding due_for
due config healthy now s = due_for config healthy now s.failures s.successes s.incident

unfoldable pub notice : WatchConfig → Kind → String → ℕ → String → Notice
notice config kind incident now detail = record {
  kind = kind;
  incident = incident;
  at = now;
  detail = detail;
  owner = config.owner;
  escalation = config.escalation;
}

-- The state's incident, which is there whenever one of the last three is due.
unfoldable pub on_incident : Kind → ℕ → Option Incident → Option Incident
on_incident kind now none = none
on_incident outage now (some i) = some i
on_incident recovered now (some i) = none
on_incident escalation now (some i) = some (record i { escalated = some now; last_notice = now })
on_incident reminder now (some i) = some (record i { last_notice = now })

unfoldable pub id_of : String → Option Incident → String
id_of fresh none = fresh
id_of fresh (some i) = i.id

unfoldable pub close_of : Kind → ℕ → Option Incident → Option (Incident × ℕ) → Option (Incident × ℕ)
close_of outage now i last = last
close_of recovered now none last = last
close_of recovered now (some i) last = some (i, now)
close_of escalation now i last = last
close_of reminder now i last = last

unfoldable pub opened_or : Kind → String → ℕ → Option Incident → Option Incident
unfolding on_incident new_incident
opened_or outage fresh now i = some (new_incident fresh now)
opened_or recovered fresh now i = on_incident recovered now i
opened_or escalation fresh now i = on_incident escalation now i
opened_or reminder fresh now i = on_incident reminder now i

unfoldable pub noticed : WatchConfig → String → String → ℕ → Option Kind → Watch → Watch
unfolding opened_or close_of notice id_of
noticed config fresh detail now none s = s
noticed config fresh detail now (some kind) s = record s {
  incident = opened_or kind fresh now s.incident;
  last_incident = close_of kind now s.incident s.last_incident;
  pending = s.pending ++ notice config kind (id_of fresh s.incident) now detail ∷ [];
}

unfoldable pub observe : WatchConfig → String → Bool → String → ℕ → Watch → Watch
unfolding counted due noticed
observe config fresh healthy detail now s =
    let s1 = counted healthy detail now s in
    noticed config fresh detail now (due config healthy now s1) s1

unfoldable pub is_answer : (is_blank : String → Bool) → String → String → Bool
is_answer is_blank observer note = not (
    is_blank observer
    || is_blank note
    || not (leb (length (codes observer)) 100)
    || not (leb (length (codes note)) 500))

unfoldable pub acknowledge_on :
    String → String → String → ℕ → Watch → Option Incident → Result Watch
acknowledge_on identity observer note now s none = err "That incident is no longer active"
acknowledge_on identity observer note now s (some i) =
    if str_eq i.id identity
    then ok (record s {
      incident =
          some
            (record i { acknowledged = some (record { who = observer; note = note; at = now }) });
    })
    else err "That incident is no longer active"

-- `acknowledge`; `is_blank` is `not text.strip()`.
unfoldable pub acknowledged_by :
    (is_blank : String → Bool) → String → String → String → ℕ → Watch → Result Watch
unfolding is_answer acknowledge_on
acknowledged_by is_blank identity observer note now s = do
  ensure (is_answer is_blank observer note) "Enter an owner and a brief response plan"
  acknowledge_on identity observer note now s s.incident

-- The notices that stay pending: those that the outbox, the argument, neither takes nor has already.
unfoldable pub unsent : (Notice → Bool × String) → List Notice → List Notice
unsent enqueue [] = []
unsent enqueue (n ∷ ns) =
    let (success, detail) = enqueue n in
    let rest = unsent enqueue ns in
    if success || str_eq detail "alert already queued" || str_eq detail "duplicate alert suppressed"
    then rest
    else n ∷ rest

unfoldable pub flush : (Notice → Bool × String) → Watch → Watch
unfolding unsent
flush enqueue s = record s { pending = unsent enqueue s.pending }
