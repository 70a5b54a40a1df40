-- ===== src/Fires.antt =====
-- FireState of bell/scheduler.py: the SQLite tables as lists of rows in the order of insertion. One
-- method is one transaction, so it is one function from the tables to the tables.
pub mod Claims
pub mod Requests
use school_bells.Prelude.{
  ℕ, suc, ◌+◌, ◌-◌, ◌*◌, String, Bool, true, false, not, ◌&&◌, ◌||◌, List, [], ◌∷◌, ◌++◌, Option,
  none, some, ltb, leb, ◌==◌, str_eq, if◌then◌else◌, length, select, any, take, map, is_some,
}
use Prim.Native.Nat.{min, max}
use school_bells.Config.{BellEvent}
use school_bells.Dates.{Moment, instant, day_length, second, iso, text_lt, ◌&◌, iso_date, clock}
use school_bells.Dates.Order.{sort_by}

pub record PlannedEvent : Type 0 where
  pub event : BellEvent
  pub source : String
  pub scheduled_at : Moment
  pub action_id : Option String

dated_key : PlannedEvent → String
dated_key p =
    iso_date p.scheduled_at.date
    & "|"
    & clock p.event.time
    & "|"
    & p.event.label
    & "|"
    & p.event.zone

key_of : Option String → PlannedEvent → String
key_of none p = dated_key p
key_of (some String.[]) p = dated_key p
key_of (some action_id) p = "manual:" & action_id

unfoldable pub key : PlannedEvent → String
unfolding key_of dated_key
key p = key_of p.action_id p

pub record FireRow : Type 0 where
  pub day : ℕ
  pub event_key : String
  pub attempted_at : Moment
  pub result : String
  pub detail : String
  pub source : String
  pub label : String
  pub zone : String
  pub sound : String
  pub scheduled_at : Moment

pub record ZoneRow : Type 0 where
  pub zone : String
  pub confirmed_at : Moment
  pub observer : String
  pub note : String

pub record ApiRow : Type 0 where
  pub idempotency_key : String
  pub created_at : Moment
  pub status : String
  pub detail : String
  pub request_hash : String

pub record AuditRow : Type 0 where
  pub occurred_at : Moment
  pub action : String
  pub target : String
  pub detail : String

pub record Tables : Type 0 where
  pub fire_attempts : List FireRow
  pub zone_acceptance : List ZoneRow
  pub api_requests : List ApiRow
  pub audit_events : List AuditRow

-- The two deletions of the constructor, at the instant `now`. `julianday` reads the offset.
unfoldable pub purge : ℕ → Tables → Tables
purge now t = record t {
  api_requests = select (λ r. leb (now - 30 * day_length) (instant r.created_at)) t.api_requests;
  fire_attempts =
      select (λ r. leb (now - 400 * day_length) (instant r.attempted_at)) t.fire_attempts;
}

-- WHERE day=? AND event_key=?
unfoldable pub is_row : ℕ → String → FireRow → Bool
is_row day event_key row = row.day == day && str_eq row.event_key event_key

unfoldable pub has_attempt : ℕ → String → Tables → Bool
unfolding is_row
has_attempt day event_key t = any (is_row day event_key) t.fire_attempts

-- The `result` column of the row with this key, if there is one.
unfoldable pub result_in : ℕ → String → List FireRow → Option String
unfolding is_row
result_in day event_key [] = none
result_in day event_key (row ∷ rows) =
    if is_row day event_key row then some row.result else result_in day event_key rows

unfoldable pub result_of : ℕ → String → Tables → Option String
unfolding result_in
result_of day event_key t = result_in day event_key t.fire_attempts

unfoldable pub count_day : ℕ → List FireRow → ℕ
count_day day [] = 0
count_day day (row ∷ rows) = if row.day == day then suc (count_day day rows) else count_day day rows

unfoldable pub attempt_count : ℕ → Tables → ℕ
unfolding count_day
attempt_count day t = count_day day t.fire_attempts

pub fire_row : ℕ → String → String → String → Moment → Option PlannedEvent → FireRow
fire_row day event_key result detail now none = record {
  day = day;
  event_key = event_key;
  attempted_at = now;
  result = result;
  detail = detail;
  source = "";
  label = "";
  zone = "";
  sound = "";
  scheduled_at = now;
}
fire_row day event_key result detail now (some planned) = record {
  day = day;
  event_key = event_key;
  attempted_at = now;
  result = result;
  detail = detail;
  source = planned.source;
  label = planned.event.label;
  zone = planned.event.zone;
  sound = planned.event.sound;
  scheduled_at = planned.scheduled_at;
}

unfoldable pub reached : ℕ → Option ℕ → Bool
reached count none = false
reached count (some cap) = leb cap count

-- The primary key is (day, event_key): a row that is there already is kept. The result says whether
-- a row was inserted.
unfoldable pub record_once :
    ℕ → String → String → String → Moment → Option PlannedEvent → Option ℕ → Tables → Tables × Bool
unfolding fire_row reached
record_once day event_key result detail now planned max_attempts t =
    if reached (attempt_count day t) max_attempts
    then (t, false)
    else if has_attempt day event_key t
    then (t, false)
    else (
      record t {
        fire_attempts = t.fire_attempts ++ fire_row day event_key result detail now planned ∷ [];
      },
      true,
    )

unfoldable pub update_rows : ℕ → String → String → String → List FireRow → List FireRow
unfolding is_row
update_rows day event_key result detail [] = []
update_rows day event_key result detail (row ∷ rows) =
    (if is_row day event_key row then record row { result = result; detail = detail } else row)
    ∷ update_rows day event_key result detail rows

unfoldable pub update_result : ℕ → String → String → String → Tables → Tables
update_result day event_key result detail t = record t {
  fire_attempts = update_rows day event_key result detail t.fire_attempts;
}

-- `if value: clauses.append(...)`: an empty text filters nothing.
fits : Option String → String → Bool
fits none column = true
fits (some String.[]) column = true
fits (some value) column = str_eq column value

-- ORDER BY attempted_at DESC compares texts: the later one first. (SQLite leaves the order of rows
-- with equal texts open; here it is that of insertion.)
insert_latest : FireRow → List FireRow → List FireRow
insert_latest a [] = a ∷ []
insert_latest a (b ∷ bs) =
    if text_lt (iso a.attempted_at) (iso b.attempted_at) then b ∷ insert_latest a bs else a ∷ b ∷ bs

latest_first : List FireRow → List FireRow
unfolding insert_latest
latest_first [] = []
latest_first (a ∷ rows) = insert_latest a (latest_first rows)

unfoldable pub recent : ℕ → Option String → Option String → Option String → Tables → List FireRow
unfolding latest_first fits
recent limit result zone source t = take (min (max limit 1) 1000) (
    latest_first (
      select (λ r. fits result r.result && fits zone r.zone && fits source r.source)
        t.fire_attempts))

unfoldable pub record_audit : String → String → String → Moment → Tables → Tables
record_audit action target detail now t = record t {
  audit_events =
      t.audit_events
      ++ record { occurred_at = now; action = action; target = target; detail = detail } ∷ [];
}

-- ON CONFLICT(zone) DO UPDATE
put_zone : ZoneRow → List ZoneRow → List ZoneRow
put_zone new [] = new ∷ []
put_zone new (row ∷ rows) = if str_eq row.zone new.zone then new ∷ rows else row ∷ put_zone new rows

unfoldable pub confirm_zone : String → String → String → Moment → Tables → Tables
unfolding put_zone
confirm_zone zone observer note now t = record t {
  zone_acceptance =
      put_zone (record { zone = zone; confirmed_at = now; observer = observer; note = note })
        t.zone_acceptance;
}

unfoldable pub find_request : String → List ApiRow → Option ApiRow
find_request k [] = none
find_request k (row ∷ rows) = if str_eq row.idempotency_key k then some row else find_request k rows

unfoldable pub api_result : String → Tables → Option ApiRow
unfolding find_request
api_result k t = find_request k t.api_requests

unfoldable pub claim_api_request : String → Moment → String → Tables → Tables × Bool
claim_api_request k now request_hash t = if is_some (api_result k t) then (t, false) else (
  record t {
    api_requests =
        t.api_requests
        ++ record {
          idempotency_key = k;
          created_at = now;
          status = "processing";
          detail = "request claimed";
          request_hash = request_hash;
        }
          ∷ [];
  },
  true,
)

update_request : String → (ApiRow → Bool) → String → String → List ApiRow → List ApiRow
update_request k ready status detail [] = []
update_request k ready status detail (row ∷ rows) =
    (if str_eq row.idempotency_key k && ready row
      then record row { status = status; detail = detail }
      else row)
    ∷ update_request k ready status detail rows

-- `status='processing' AND created_at<?`, on the text of the time stamp. `cutoff` is
-- `now - timedelta(seconds=max_age_seconds)`.
is_stale : Moment → ApiRow → Bool
is_stale cutoff row = str_eq row.status "processing" && text_lt (iso row.created_at) (iso cutoff)

unfoldable pub expire_stale_api_request : String → Moment → Tables → Tables × Bool
unfolding update_request is_stale
expire_stale_api_request k cutoff t = (
  record t {
    api_requests =
        update_request k (is_stale cutoff) "indeterminate"
          "request was interrupted; use a new key after verifying receivers" t.api_requests;
  },
  any (λ r. str_eq r.idempotency_key k && is_stale cutoff r) t.api_requests,
)

unfoldable pub finish_api_request : String → String → String → Tables → Tables
unfolding update_request
finish_api_request k status detail t = record t {
  api_requests = update_request k (λ _. true) status detail t.api_requests;
}
