-- ===== src/Alerts/Attempts/Bound.antt =====
-- The bound on the posts of a notification of bell/alerts.py, over every run.
use school_bells.Prelude.{
  ℕ, ◌≤◌, ◌<◌, ◌≡◌, ◌≢◌, refl, String, Bool, true, false, List, [], ◌∷◌, ◌++◌, Option, none, some,
  leb, All-imp, All-select, Bool-cases, inl, inr, arith, eq_iff,
}
use school_bells.Alerts.{
  Notification, Table, NewAlert, trim, new_row, enqueue_row, unless_prior, insert_alert, prior,
  alert_key, leased, pending_limit, pending_count,
}
use school_bells.Alerts.Attempts.{posts_of, has_id, System, Holds, Counts, IsSafe, All-split}
use school_bells.Alerts.Attempts.Rows.{
  Fits, Flown, posts_self, has_id-Others, claim-counted, claim-apart, claim-Holds, row-Holds,
  select-Fits, append-Fits, IsKeyed-swap,
}

-- What a call of `_enqueue` leaves.
pub data Queued (t : Table) (url : String) (secret_env : Option String) (now : ℕ) (a : NewAlert)
    : Table → Type 0 where
  same : Queued t url secret_env now a t
  trimmed : Queued t url secret_env now a (trim t)
  added : Queued t url secret_env now a (trim t ++ new_row url secret_env now a ∷ [])

insert-Queued :
    (url : String) (secret_env : Option String) (now : ℕ) (a : NewAlert) (t : Table)
    → Queued t url secret_env now a (insert_alert url secret_env now a t).0
unfolding insert_alert
insert-Queued url secret_env now a t =
    elim (Bool-cases (leb pending_limit (pending_count (trim t)))) [
      | inl full ↦ rw (full, insert_alert) trimmed
      | inr room ↦ rw (room, insert_alert) added
    ]

unless_prior-Queued :
    (o : Option Notification) (force : Bool) (url : String) (secret_env : Option String) (now : ℕ)
    (a : NewAlert) (t : Table)
    → Queued t url secret_env now a (unless_prior o force url secret_env now a t).0
unfolding unless_prior
unless_prior-Queued none force url secret_env now a t = insert-Queued url secret_env now a t
unless_prior-Queued (some n) true url secret_env now a t = insert-Queued url secret_env now a t
unless_prior-Queued (some n) false url secret_env now a t = same

pub enqueue-Queued :
    (url : Option String) (secret_env : Option String) (window now : ℕ) (a : NewAlert) (t : Table)
    → (u : String) × Queued t u secret_env now a (enqueue_row url secret_env window now a t).0
unfolding enqueue_row
enqueue-Queued none secret_env window now a t = ("", same)
enqueue-Queued (some String.[]) secret_env window now a t = ("", same)
enqueue-Queued (some (String.◌∷◌ c s)) secret_env window now a t = (
  String.◌∷◌ c s,
  unless_prior-Queued (prior (alert_key a) now window t) a.force (String.◌∷◌ c s) secret_env now a
      t,
)

pub fits : {s : System} → IsSafe s → Fits s.clock s.flights s.posts s.table
fits v = record { keyed = v.keyed; counted = v.counted; held = v.held }

-- A step that leaves the deliveries and the posts as they are.
pub with_table :
    (s : System) (t : Table)
    → IsSafe s
    → Fits s.clock s.flights s.posts t
    → IsSafe (record s { table = t })
with_table s t v f = record {
  keyed = f.keyed;
  counted = f.counted;
  held = f.held;
  apart = v.apart;
  flown = v.flown;
  bounded = v.bounded;
}

pub queue-IsSafe :
    (s : System) (url : String) (secret_env : Option String) (now : ℕ) (a : NewAlert) (u : Table)
    → has_id a.identity s.table ≡ false
    → posts_of a.identity s.posts ≡ 0
    → Queued s.table url secret_env now a u
    → IsSafe s
    → IsSafe (record s { table = u })
unfolding trim new_row
queue-IsSafe s url secret_env now a u fresh new same v = v
queue-IsSafe s url secret_env now a u fresh new trimmed v =
    with_table s _ v (select-Fits s.clock s.flights s.posts _ s.table (fits v))
queue-IsSafe s url secret_env now a u fresh new added v = with_table s _ v (
    append-Fits s.clock s.flights s.posts (new_row url secret_env now a) (trim s.table)
      (All-select (λ (n : Notification). n.id ≢ a.identity) _ s.table
        (has_id-Others a.identity s.table fresh))
      new refl v.flown (select-Fits s.clock s.flights s.posts _ s.table (fits v)))

still-Flown :
    (posts : List String) (id : String) (fs : List Notification)
    → Flown posts fs
    → Flown (id ∷ posts) fs
still-Flown posts id fs w =
    All-imp (λ (f : Notification). 1 ≤ posts_of f.id posts)
      (λ (f : Notification). 1 ≤ posts_of f.id (id ∷ posts)) fs (λ f h. omega (arith, h)) w

pub post-IsSafe :
    (clock : ℕ) (flights : List Notification) (posts : List String) (before rest : Table)
    (old : Notification)
    → old.lease ≤ clock
    → old.attempts < 5
    → IsSafe
        (record { table = before ++ old ∷ rest; clock = clock; flights = flights; posts = posts })
    → IsSafe (record {
      table = before ++ leased clock old ∷ rest;
      clock = clock;
      flights = leased clock old ∷ flights;
      posts = (leased clock old).id ∷ posts;
    })
unfolding leased
post-IsSafe clock flights posts before rest old free few v =
    let (_, c) = All-split (Counts posts) before (old ∷ rest) v.counted in
    record {
      keyed = IsKeyed-swap before old (leased clock old) rest refl v.keyed;
      counted = claim-counted clock posts before rest old v.keyed v.counted free few;
      held = (
        row-Holds clock posts before rest old v.keyed v.counted free few,
        All-imp (Holds clock (before ++ old ∷ rest))
            (Holds clock (before ++ leased clock old ∷ rest)) flights
            (claim-Holds clock posts before rest old v.keyed v.counted free few) v.held,
      );
      apart = (
        All-imp (Holds clock (before ++ old ∷ rest))
            (λ (g : Notification). g.id ≡ (leased clock old).id → g.lease ≤ clock) flights
            (claim-apart clock posts before rest old v.keyed v.counted free few) v.held,
        v.apart,
      );
      flown = (omega (arith, posts_self old.id posts), still-Flown posts old.id flights v.flown);
      bounded = λ id. under id c.0.0;
    }
  where
    under : (id : String) → posts_of old.id posts ≤ old.attempts → posts_of id (old.id ∷ posts) ≤ 5
    under id h = ground (arith, v.bounded id, eq_iff old.id id, few, h)
