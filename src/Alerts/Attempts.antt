-- ===== src/Alerts/Attempts.antt =====
-- How often a notification of bell/alerts.py is posted, by any number of processes.
pub mod Rows
pub mod Bound
pub mod Budget
use school_bells.Prelude.{
  ℕ, zero, suc, ◌+◌, ◌*◌, ◌≤◌, ◌<◌, ◌≡◌, ◌≢◌, ◌∙◌, ◌⊎◌, refl, sym, ap, String, Bool, true, false,
  ◌&&◌, ◌||◌, List, [], ◌∷◌, ◌++◌, Option, none, some, leb, ltb, if◌then◌else◌, select, any, All,
  All-append, All-map, All-select, All-imp, Bool-cases, inl, inr, arith, str_eq, eq_iff, eq_refl,
  map, is_some,
}
use mathlib.Core.Path.{subst}
use mathlib.Core.Option.{some-injective}
use school_bells.Dates.{second}
use school_bells.Alerts.{
  Notification, Table, NewAlert, AlertOutcome, pending, exhausted, is_pending, trim, new_row,
  enqueue_row, unless_prior, insert_alert, prior, alert_key, is_due, leased, claim_delivery,
  finish_delivery, settled, exhaust,
}

-- How often an identity was posted.
abbrev pub posts_of : String → List String → ℕ
posts_of id [] = 0
posts_of id (p ∷ ps) = (if str_eq p id then 1 else 0) + posts_of id ps

abbrev pub has_id : String → Table → Bool
has_id id t = any (λ (n : Notification). str_eq n.id id) t

-- The table, the clock, the deliveries that are under way, and what was posted, the latest first.
pub record System : Type 0 where
  pub table : Table
  pub clock : ℕ
  pub flights : List Notification
  pub posts : List String

-- What can happen: a delivery under way may end at any time, or never.
pub data Step : System → System → Type 0 where
  tick : (s : System) (now : ℕ) → s.clock ≤ now → Step s (record s { clock = now })
  queue :
      (s : System) (url : Option String) (secret_env : Option String) (window : ℕ) (a : NewAlert)
      → has_id a.identity s.table ≡ false
      → posts_of a.identity s.posts ≡ 0
      → Step s (record s { table = (enqueue_row url secret_env window s.clock a s.table).0 })
  post :
      (s : System) (id : String) (row : Notification)
      → (claim_delivery id s.clock s.table).1 ≡ some row
      → Step s (record s {
        table = (claim_delivery id s.clock s.table).0;
        flights = row ∷ s.flights;
        posts = row.id ∷ s.posts;
      })
  finish :
      (s : System) (before rest : List Notification) (row : Notification) (outcome : AlertOutcome)
      (terminal : Bool)
      → s.flights ≡ before ++ row ∷ rest
      → Step s (record s {
        table = finish_delivery outcome terminal s.clock row s.table;
        flights = before ++ rest;
      })
  expire : (s : System) → Step s (record s { table = exhaust s.clock s.table })
  crash : (s : System) → Step s (record s { flights = [] })

pub data Run : System → Type 0 where
  start : (now : ℕ) → Run (record { table = []; clock = now; flights = []; posts = [] })
  step : {s u : System} → Run s → Step s u → Run u

-- A delivery that ends in this step does so while its lease of 60 s runs.
abbrev pub InLease : {s u : System} → Step s u → Type 0
InLease (tick s now le) = Unit
InLease (queue s url secret_env window a fresh new) = Unit
InLease (post s id row taken) = Unit
InLease (finish s before rest row outcome terminal here) = s.clock < row.lease
InLease (expire s) = Unit
InLease (crash s) = Unit

-- Every delivery of the run that ends does so within its lease. The source gives the post a timeout
-- of 5 s, which bounds each of its blocking operations and not all of them together.
abbrev pub IsTimely : {s : System} → Run s → Type 0
IsTimely (start now) = Unit
IsTimely (step run s) = IsTimely run × InLease s

-- The row of a delivery whose lease still runs is as the claim left it.
abbrev pub Holds : ℕ → Table → Notification → Type 0
Holds clock t f =
    clock < f.lease
    → All (λ (n : Notification). n.id ≡ f.id → (n.attempts ≡ f.attempts) × (n.lease ≡ f.lease)) t

-- Of two deliveries of one notification at most the later runs within its lease.
abbrev pub Apart : ℕ → List Notification → Type 0
Apart clock [] = Unit
Apart clock (f ∷ fs) = All (λ (g : Notification). g.id ≡ f.id → g.lease ≤ clock) fs × Apart clock fs

abbrev pub Others : String → Table → Type 0
Others id t = All (λ (n : Notification). n.id ≢ id) t

abbrev pub IsKeyed : Table → Type 0
IsKeyed [] = Unit
IsKeyed (n ∷ ns) = Others n.id ns × IsKeyed ns

abbrev pub Counts : List String → Notification → Type 0
Counts posts n = (posts_of n.id posts ≤ n.attempts) × (n.attempts ≤ 5)

pub record IsSafe (s : System) : Type 0 where
  pub keyed : IsKeyed s.table
  pub counted : All (Counts s.posts) s.table
  pub held : All (Holds s.clock s.table) s.flights
  pub apart : Apart s.clock s.flights
  pub flown : All (λ (f : Notification). 1 ≤ posts_of f.id s.posts) s.flights
  pub bounded : (id : String) → posts_of id s.posts ≤ 5

pub All-split {ℓ κ} :
    {A : Type ℓ} (P : A → Type κ) (xs ys : List A) → All P (xs ++ ys) → All P xs × All P ys
All-split P [] ys h = (tt, h)
All-split P (x ∷ xs) ys h = let (a, b) = All-split P xs ys h.1 in ((h.0, a), b)

-- What `claim_delivery` does where it takes a row.
pub record Claimed (id : String) (now : ℕ) (t u : Table) (row : Notification) : Type 0 where
  pub before : Table
  pub old : Notification
  pub rest : Table
  pub here : t ≡ before ++ old ∷ rest
  pub left : u ≡ before ++ row ∷ rest
  pub row_is : row ≡ leased now old
  pub free : old.lease ≤ now
  pub few : old.attempts < 5

later :
    (id : String) (now : ℕ) (n : Notification) (t u : Table) (row : Notification)
    → Claimed id now t u row
    → Claimed id now (n ∷ t) (n ∷ u) row
later id now n t u row c = record {
  before = n ∷ c.before;
  old = c.old;
  rest = c.rest;
  here = ap (λ l. n ∷ l) c.here;
  left = ap (λ l. n ∷ l) c.left;
  row_is = c.row_is;
  free = c.free;
  few = c.few;
}

due-free :
    (id : String) (now : ℕ) (n : Notification)
    → is_due id now n ≡ true
    → (n.lease ≤ now) × (n.attempts < 5)
unfolding is_due
due-free id now n h = ground arith

pub claim-Claimed :
    (id : String) (now : ℕ) (t : Table) (row : Notification)
    → (claim_delivery id now t).1 ≡ some row
    → Claimed id now t (claim_delivery id now t).0 row
unfolding claim_delivery
claim-Claimed id now [] row = λ e. absurd (cc)
claim-Claimed id now (n ∷ ns) row = elim (Bool-cases (is_due id now n)) [
  | inl due ↦
      let (free, few) = due-free id now n due in
      rw (due, claim_delivery)
        (λ e.
          let same : leased now n ≡ row = some-injective (leased now n) row e in
          record {
            before = [];
            old = n;
            rest = ns;
            here = refl;
            left = ap (λ m. m ∷ ns) same;
            row_is = sym same;
            free = free;
            few = few;
          })
  | inr rests ↦
      rw (rests, claim_delivery) (λ e. later id now n ns _ row (claim-Claimed id now ns row e))
]
