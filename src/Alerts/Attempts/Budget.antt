-- ===== src/Alerts/Attempts/Budget.antt =====
-- The attempt budget of a notification of bell/alerts.py, over every run.
use school_bells.Prelude.{
  ℕ, ◌≤◌, ◌<◌, ◌≡◌, ◌≢◌, ◌∙◌, refl, sym, String, Bool, List, [], ◌∷◌, ◌++◌, All, All-append,
  All-imp, arith,
}
use mathlib.Core.Path.{subst}
use school_bells.Alerts.{
  Notification, Table, AlertOutcome, finish_delivery, finished_row, exhaust, exhausted_row,
}
use school_bells.Alerts.Attempts.{
  posts_of, System, Step, tick, queue, post, finish, expire, crash, Run, start, step, InLease,
  IsTimely, Holds, Apart, IsSafe, All-split, Claimed, claim-Claimed,
}
use school_bells.Alerts.Attempts.Rows.{
  Agrees, Flown, everywhere, exhausted_row-same, finished_row-id, finished_row-other,
  finished_row-attempts, map-Fits, map-Agrees, map-Counts, map-IsKeyed,
}
use school_bells.Alerts.Attempts.Bound.{enqueue-Queued, queue-IsSafe, post-IsSafe, with_table, fits}

-- The deliveries beside one whose lease runs are of other notifications, or over.
Apart-others :
    (clock : ℕ) (before rest : List Notification) (row : Notification)
    → clock < row.lease
    → Apart clock (before ++ row ∷ rest)
    → All (λ (g : Notification). clock < g.lease → g.id ≢ row.id) (before ++ rest)
      × Apart clock (before ++ rest)
Apart-others clock [] rest row runs a = (
  All-imp (λ (g : Notification). g.id ≡ row.id → g.lease ≤ clock)
      (λ (g : Notification). clock < g.lease → g.id ≢ row.id) rest
      (λ g h longer e. omega (arith, h e, longer)) a.0,
  a.1,
)
Apart-others clock (f ∷ fs) rest row runs a =
    let (b1, b2) =
      All-split (λ (g : Notification). g.id ≡ f.id → g.lease ≤ clock) fs (row ∷ rest) a.0 in
    let (c, d) = Apart-others clock fs rest row runs a.1 in
    (
      ((λ _ e. omega (arith, b2.0 (sym e), runs)), c),
      (All-append (λ (g : Notification). g.id ≡ f.id → g.lease ≤ clock) fs rest b1 b2.1, d),
    )

-- The end of a delivery, seen by another one.
finish-Holds :
    (clock : ℕ) (outcome : AlertOutcome) (terminal : Bool) (row : Notification) (t : Table)
    (g : Notification)
    → (clock < g.lease → g.id ≢ row.id)
    → Holds clock t g
    → Holds clock (finish_delivery outcome terminal clock row t) g
unfolding finish_delivery
finish-Holds clock outcome terminal row t g other h runs =
    map-Agrees (finished_row outcome terminal clock row)
      (finished_row-id outcome terminal clock row) g t
      (everywhere _
        (λ n e.
          let same =
            finished_row-other outcome terminal clock row n (λ q. other runs (sym e ∙ q)) in
          (rw (same) refl, rw (same) refl))
        t)
      (h runs)

finish-IsSafe :
    (table : Table) (clock : ℕ) (flights : List Notification) (posts : List String)
    (before rest : List Notification) (row : Notification) (outcome : AlertOutcome)
    (terminal : Bool)
    → flights ≡ before ++ row ∷ rest
    → clock < row.lease
    → IsSafe (record { table = table; clock = clock; flights = flights; posts = posts })
    → IsSafe (record {
      table = finish_delivery outcome terminal clock row table;
      clock = clock;
      flights = before ++ rest;
      posts = posts;
    })
unfolding finish_delivery
finish-IsSafe table clock flights posts before rest row outcome terminal here runs v =
    let (h1, h2) =
      All-split (Holds clock table) before (row ∷ rest)
        (subst (All (Holds clock table)) here v.held) in
    let (w1, w2) =
      All-split (λ (f : Notification). 1 ≤ posts_of f.id posts) before (row ∷ rest)
        (subst (Flown posts) here v.flown) in
    let (others, apart) =
      Apart-others clock before rest row runs (subst (Apart clock) here v.apart) in
    record {
      keyed =
          map-IsKeyed (finished_row outcome terminal clock row)
            (finished_row-id outcome terminal clock row) table v.keyed;
      counted =
          map-Counts (finished_row outcome terminal clock row)
            (finished_row-id outcome terminal clock row) posts table
            (All-imp (Agrees row) _ table
              (λ n a. finished_row-attempts outcome terminal clock row n a) (h2.0 runs))
            v.counted;
      held = both (before ++ rest) others (All-append (Holds clock table) before rest h1 h2.1);
      apart = apart;
      flown = All-append (λ (f : Notification). 1 ≤ posts_of f.id posts) before rest w1 w2.1;
      bounded = v.bounded;
    }
  where
    both :
        (fs : List Notification)
        → All (λ (g : Notification). clock < g.lease → g.id ≢ row.id) fs
        → All (Holds clock table) fs
        → All (Holds clock (finish_delivery outcome terminal clock row table)) fs
    both [] o h = tt
    both (g ∷ gs) o h = (finish-Holds clock outcome terminal row table g o.0 h.0, both gs o.1 h.1)

expire-IsSafe : (s : System) → IsSafe s → IsSafe (record s { table = exhaust s.clock s.table })
unfolding exhaust
expire-IsSafe s v = with_table s _ v (
    map-Fits s.clock s.flights s.posts (exhausted_row s.clock) s.table
      (λ n. (exhausted_row-same s.clock n).0)
      (everywhere _ (λ n. (exhausted_row-same s.clock n).1) s.table)
      (λ n. (exhausted_row-same s.clock n).2) (fits v))

still-Apart : (a b : ℕ) (fs : List Notification) → a ≤ b → Apart a fs → Apart b fs
still-Apart a b [] le h = tt
still-Apart a b (f ∷ fs) le h = (
  All-imp (λ (g : Notification). g.id ≡ f.id → g.lease ≤ a)
      (λ (g : Notification). g.id ≡ f.id → g.lease ≤ b) fs (λ g k e. omega (arith, k e, le)) h.0,
  still-Apart a b fs le h.1,
)

tick-IsSafe : (s : System) (now : ℕ) → s.clock ≤ now → IsSafe s → IsSafe (record s { clock = now })
tick-IsSafe s now le v = record {
  keyed = v.keyed;
  counted = v.counted;
  held =
      All-imp (Holds s.clock s.table) (Holds now s.table) s.flights
        (λ g h runs. h (omega (arith, le, runs))) v.held;
  apart = still-Apart s.clock now s.flights le v.apart;
  flown = v.flown;
  bounded = v.bounded;
}

claimed-IsSafe :
    (table u : Table) (clock : ℕ) (flights : List Notification) (posts : List String) (id : String)
    (row : Notification)
    → Claimed id clock table u row
    → IsSafe (record { table = table; clock = clock; flights = flights; posts = posts })
    → IsSafe (record { table = u; clock = clock; flights = row ∷ flights; posts = row.id ∷ posts })
claimed-IsSafe table u clock flights posts id row c v =
    let before =
      subst (λ t. IsSafe (record { table = t; clock = clock; flights = flights; posts = posts }))
        c.here v in
    let after = post-IsSafe clock flights posts c.before c.rest c.old c.free c.few before in
    let named =
      subst
        (λ r. IsSafe (record {
          table = c.before ++ r ∷ c.rest;
          clock = clock;
          flights = r ∷ flights;
          posts = r.id ∷ posts;
        }))
        (sym c.row_is) after in
    subst
      (λ t.
        IsSafe
          (record { table = t; clock = clock; flights = row ∷ flights; posts = row.id ∷ posts }))
      (sym c.left) named

step-IsSafe : {s u : System} (one : Step s u) → InLease one → IsSafe s → IsSafe u
step-IsSafe (tick s now le) _ v = tick-IsSafe s now le v
step-IsSafe (queue s url secret_env window a fresh new) _ v =
    let (name, left) = enqueue-Queued url secret_env window s.clock a s.table in
    queue-IsSafe s name secret_env s.clock a _ fresh new left v
step-IsSafe (post s id row taken) _ v =
    claimed-IsSafe s.table _ s.clock s.flights s.posts id row
      (claim-Claimed id s.clock s.table row taken) v
step-IsSafe (finish s before rest row outcome terminal here) runs v =
    finish-IsSafe s.table s.clock s.flights s.posts before rest row outcome terminal here runs v
step-IsSafe (expire s) _ v = expire-IsSafe s v
step-IsSafe (crash s) _ v = record {
  keyed = v.keyed;
  counted = v.counted;
  held = tt;
  apart = tt;
  flown = tt;
  bounded = v.bounded;
}

run-IsSafe : {s : System} (run : Run s) → IsTimely run → IsSafe s
run-IsSafe (start now) _ = record {
  keyed = tt;
  counted = tt;
  held = tt;
  apart = tt;
  flown = tt;
  bounded = λ id. omega arith;
}
run-IsSafe (step r one) (timely, runs) = step-IsSafe one runs (run-IsSafe r timely)

-- In every run of any number of processes over the outbox (queueing a new identity, claiming and
-- posting a due row, recording the outcome of a post, exhausting rows, a crash that loses all
-- deliveries under way, the clock moving on) in which no outcome of a post is recorded later than 60
-- seconds after its claim, each identity is posted five times at most.
pub posts-Run : {s : System} (run : Run s) → IsTimely run → (id : String) → posts_of id s.posts ≤ 5
posts-Run run timely id = (run-IsSafe run timely).bounded id
