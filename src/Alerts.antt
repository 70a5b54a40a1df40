-- ===== src/Alerts.antt =====
-- AlertDispatcher of bell/alerts.py: the outbox of operational notifications, the table as the list
-- of its rows in the order of insertion. Times are microseconds; the clock, the new identity and the
-- JSON document are arguments, and so is what the webhook answers. Where the source takes any one
-- row of several, the first is taken.
pub mod Outbox
pub mod Attempts
use Prim.Native.Nat.{min}
use school_bells.Prelude.{
  ℕ, zero, suc, ◌+◌, ◌-◌, ◌*◌, ◌^◌, String, Bool, true, false, ◌&&◌, ◌||◌, not, List, [], ◌∷◌, ◌++◌,
  Option, none, some, leb, ltb, ◌==◌, if◌then◌else◌, length, select, any, take, map, str_eq, show,
  is_some,
}
use school_bells.Dates.{◌&◌, second}
use school_bells.Dates.Order.{sort_by}

pub data Status : Type 0 where
  pending sent exhausted : Status

pub record Notification : Type 0 where
  pub id : String
  pub dedupe_key : String
  pub payload : String
  pub url : String
  pub secret_env : Option String
  pub attempts : ℕ
  pub due : ℕ
  pub lease : ℕ
  pub status : Status
  pub detail : String
  pub updated : ℕ

abbrev pub Table : Type 0
Table = List Notification

pub record AlertOutcome : Type 0 where
  pub success : Bool
  pub detail : String

pub record Settings : Type 0 where
  pub alert_webhook_url : Option String
  pub alert_webhook_secret_env : Option String

abbrev pub is_pending : Notification → Bool
is_pending n = elim n.status [ pending ↦ true | sent ↦ false | exhausted ↦ false ]

abbrev pub is_sent : Notification → Bool
is_sent n = elim n.status [ sent ↦ true | pending ↦ false | exhausted ↦ false ]

-- The row of the first SELECT: one with this key that is pending, or was sent within the window.
unfoldable pub prior : String → ℕ → ℕ → Table → Option Notification
prior key now window [] = none
prior key now window (n ∷ ns) =
    if str_eq n.dedupe_key key && (is_pending n || (is_sent n && ltb now (n.updated + window)))
    then some n
    else prior key now window ns

-- SELECT id ... ORDER BY updated DESC LIMIT 500: the latest rows, found from the other end of the
-- order by time.
insert_newest : Notification → Table → Table
insert_newest n [] = n ∷ []
insert_newest n (m ∷ ms) = if ltb n.updated m.updated then m ∷ insert_newest n ms else n ∷ m ∷ ms

newest_first : Table → Table
newest_first [] = []
newest_first (n ∷ ns) = insert_newest n (newest_first ns)

abbrev pub history_limit : ℕ
history_limit = 500

abbrev pub pending_limit : ℕ
pending_limit = 500

keeps : List String → Notification → Bool
keeps ids n = is_pending n || any (str_eq n.id) ids

-- DELETE FROM notifications WHERE status!='pending' AND id NOT IN ...
unfoldable pub trim : Table → Table
unfolding keeps newest_first insert_newest
trim t = select (keeps (map (λ (n : Notification). n.id) (take history_limit (newest_first t)))) t

unfoldable pub pending_count : Table → ℕ
pending_count t = length (select is_pending t)

pub record NewAlert : Type 0 where
  pub identity : String
  pub kind : String
  pub message : String
  pub payload : String
  pub force : Bool

unfoldable pub alert_key : NewAlert → String
alert_key a = a.kind & "|" & a.message

unfoldable pub new_row : String → Option String → ℕ → NewAlert → Notification
unfolding alert_key
new_row url secret_env now a = record {
  id = a.identity;
  dedupe_key = alert_key a;
  payload = a.payload;
  url = url;
  secret_env = secret_env;
  attempts = 0;
  due = now;
  lease = 0;
  status = pending;
  detail = "Queued";
  updated = now;
}

unfoldable pub suppressed : Notification → String
suppressed n = if is_pending n then "alert already queued" else "duplicate alert suppressed"

-- After the duplicates: trim the history, then insert unless too many are pending.
unfoldable pub insert_alert :
    String → Option String → ℕ → NewAlert → Table → Table × Option String × String
unfolding new_row
insert_alert url secret_env now a t =
    if leb pending_limit (pending_count (trim t))
    then (trim t, none, "notification outbox is full; operator intervention required")
    else (trim t ++ new_row url secret_env now a ∷ [], some a.identity, "Queued for delivery")

unfoldable pub unless_prior :
    Option Notification
    → (force : Bool) → String
    → Option String
    → ℕ
    → NewAlert
    → Table
    → Table × Option String × String
unfolding suppressed insert_alert
unless_prior none force url secret_env now a t = insert_alert url secret_env now a t
unless_prior (some n) true url secret_env now a t = insert_alert url secret_env now a t
unless_prior (some n) false url secret_env now a t = (t, none, suppressed n)

-- `_enqueue`
unfoldable pub enqueue_row :
    Option String → Option String → ℕ → ℕ → NewAlert → Table → Table × Option String × String
unfolding prior alert_key unless_prior
enqueue_row none secret_env window now a t =
    (t, none, "operational alert webhook is not configured")
enqueue_row (some String.[]) secret_env window now a t =
    (t, none, "operational alert webhook is not configured")
enqueue_row (some url) secret_env window now a t =
    unless_prior (prior (alert_key a) now window t) a.force url secret_env now a t

unfoldable pub enqueue : Settings → ℕ → ℕ → NewAlert → Table → Table × AlertOutcome
unfolding enqueue_row
enqueue s window now a t =
    let (u, identity, detail) =
      enqueue_row s.alert_webhook_url s.alert_webhook_secret_env window now a t in
    (u, record { success = is_some identity; detail = detail })

-- Whether the UPDATE of `_deliver` takes the row.
unfoldable pub is_due : String → ℕ → Notification → Bool
is_due id now n =
    str_eq n.id id && is_pending n && ltb n.attempts 5 && leb n.due now && leb n.lease now

unfoldable pub leased : ℕ → Notification → Notification
leased now n = record n { lease = now + 60 * second; attempts = n.attempts + 1 }

-- The first transaction of `_deliver`: the table, and the row to deliver if the claim took it.
unfoldable pub claim_delivery : String → ℕ → Table → Table × Option Notification
unfolding is_due leased
claim_delivery id now [] = ([], none)
claim_delivery id now (n ∷ ns) =
    let (u, found) = claim_delivery id now ns in
    if is_due id now n then (leased now n ∷ ns, some (leased now n)) else (n ∷ u, found)

unfoldable pub next_status : Bool → Bool → ℕ → Status
next_status true terminal attempts = sent
next_status false terminal attempts = if terminal || leb 5 attempts then exhausted else pending

-- 15 s, 30 s, 60 s, 120 s
unfoldable pub backoff : ℕ → ℕ
backoff attempts = min (120 * second) (15 * second * 2 ^ (attempts - 1))

unfoldable pub settled : AlertOutcome → Bool → ℕ → Notification → Notification → Notification
unfolding next_status backoff
settled outcome terminal now row n = record n {
  attempts = row.attempts;
  status = next_status outcome.success terminal row.attempts;
  detail = outcome.detail;
  updated = now;
  due = now + backoff row.attempts;
  lease = 0;
}

unfoldable pub finished_row : AlertOutcome → Bool → ℕ → Notification → Notification → Notification
unfolding settled
finished_row outcome terminal now row n =
    if str_eq n.id row.id then settled outcome terminal now row n else n

-- The last transaction of `_deliver`, for the row that was claimed.
unfoldable pub finish_delivery : AlertOutcome → Bool → ℕ → Notification → Table → Table
unfolding finished_row
finish_delivery outcome terminal now row t = map (finished_row outcome terminal now row) t

-- What `_deliver` finds out about the claimed row: the outcome, and whether it is the last word.
unfoldable pub attempt :
    Settings → (Notification → AlertOutcome) → Notification → AlertOutcome × Bool
attempt s post row = elim s.alert_webhook_url [
  | none ↦ (
    record { success = false; detail = "Webhook changed or disabled; old notification cancelled" },
    true,
  )
  | some url ↦ if str_eq row.url url then (post row, false) else (
    record { success = false; detail = "Webhook changed or disabled; old notification cancelled" },
    true,
  )
]

after_claim :
    Settings
    → (Notification → AlertOutcome)
    → ℕ
    → Table × Option Notification
    → Table × AlertOutcome
after_claim s post now (t, none) =
    (t, record { success = false; detail = "notification is not due or is being delivered" })
after_claim s post now (t, some row) =
    let (outcome, terminal) = attempt s post row in
    (finish_delivery outcome terminal now row t, outcome)

-- `_deliver`, with no one else at the table.
unfoldable pub deliver :
    Settings → (Notification → AlertOutcome) → ℕ → ℕ → String → Table → Table × AlertOutcome
unfolding after_claim claim_delivery attempt finish_delivery
deliver s post now later id t = after_claim s post later (claim_delivery id now t)

-- The statuses for which the answer of `_post` counts as taken.
unfoldable pub posted : ℕ → AlertOutcome
posted status = record {
  success = leb 200 status && ltb status 300;
  detail = "webhook returned HTTP " & show status;
}

unfoldable pub exhausted_row : ℕ → Notification → Notification
exhausted_row now n =
    if is_pending n && leb 5 n.attempts && leb n.lease now
    then record n {
      status = exhausted;
      detail = "Attempt budget exhausted after interruption";
      updated = now;
    }
    else n

-- The first UPDATE of `retry_pending`.
unfoldable pub exhaust : ℕ → Table → Table
unfolding exhausted_row
exhaust now t = map (exhausted_row now) t

due_ids : ℕ → ℕ → Table → List String
due_ids now limit t =
    map (λ (n : Notification). n.id)
      (take limit (
        sort_by (λ (n : Notification). n.due)
          (select (λ (n : Notification). is_pending n && leb n.due now && leb n.lease now) t)))

deliver_all :
    Settings
    → (Notification → AlertOutcome)
    → ℕ
    → ℕ
    → List String
    → Table
    → Table × List AlertOutcome
deliver_all s post now later [] t = (t, [])
deliver_all s post now later (id ∷ ids) t =
    let (u, outcome) = deliver s post now later id t in
    let (v, outcomes) = deliver_all s post now later ids u in (v, outcome ∷ outcomes)

unfoldable pub retry_pending :
    Settings → (Notification → AlertOutcome) → ℕ → ℕ → ℕ → Table → Table × List AlertOutcome
unfolding exhaust due_ids deliver_all
retry_pending s post now later limit t =
    deliver_all s post now later (due_ids now limit (exhaust now t)) (exhaust now t)

pub record Snapshot : Type 0 where
  pub configured : Bool
  pub pending_rows : ℕ
  pub exhausted_rows : ℕ
  pub last : Option Notification

is_exhausted : Notification → Bool
is_exhausted n = elim n.status [ exhausted ↦ true | pending ↦ false | sent ↦ false ]

is_url : Option String → Bool
is_url none = false
is_url (some String.[]) = false
is_url (some (String.◌∷◌ c s)) = true

first_of : Table → Option Notification
first_of [] = none
first_of (n ∷ ns) = some n

unfoldable pub snapshot : Settings → Table → Snapshot
unfolding is_exhausted is_url first_of newest_first insert_newest pending_count
snapshot s t = record {
  configured = is_url s.alert_webhook_url;
  pending_rows = pending_count t;
  exhausted_rows = length (select is_exhausted t);
  last = first_of (newest_first t);
}
