-- ===== src/Paging/Exclusion.antt =====
-- One page at a time: the runs of PageCoordinator (bell/paging.py) under any number of threads.
use school_bells.Prelude.{
  ℕ, ◌≤◌, ◌≡◌, refl, ap, sym, ◌∙◌, String, List, [], ◌∷◌, ◌++◌, Option, none, some, arith, eq_iff,
  length,
}
use school_bells.Paging.{
  ActivePage, Coordinator, PageRequest, Attempt, returns, waits, cancel_active, enter, wake, turn,
  acquire, release,
}

-- The coordinator, the requests in `wait`, and the tokens of the leases that are out.
pub record Pages : Type 0 where
  pub coordinator : Coordinator
  pub waiting : List PageRequest
  pub leases : List String

abbrev pub idle : Pages
idle = record { coordinator = record { active = none; events = [] }; waiting = []; leases = [] }

-- What a thread goes on with.
abbrev pub resume : PageRequest → Attempt → List PageRequest → List PageRequest
resume r waits waiting = r ∷ waiting
resume r (returns lease) waiting = waiting

abbrev pub leased : Attempt → List String → List String
leased waits leases = leases
leased (returns lease) leases = elim lease.token [ none ↦ leases | some token ↦ token ∷ leases ]

abbrev pub go : PageRequest → List PageRequest → Pages → Coordinator × Attempt → Pages
go r waiting s (c, attempt) = record {
  coordinator = c;
  waiting = resume r attempt waiting;
  leases = leased attempt s.leases;
}

pub data Move : Pages → Pages → Type 0 where
  call :
      (s : Pages) (r : PageRequest) (now : ℕ) (token : String)
      → Move s (go r s.waiting s (acquire r now token s.coordinator))
  woken :
      (s : Pages) (before rest : List PageRequest) (r : PageRequest) (now : ℕ) (token : String)
      → s.waiting ≡ before ++ r ∷ rest
      → Move s (go r (before ++ rest) s (wake r now token s.coordinator))
  -- The `finally` of `lease`: the thread that holds the token gives it back once.
  done :
      (s : Pages) (before rest : List String) (token : String)
      → s.leases ≡ before ++ token ∷ rest
      → Move s (record s { coordinator = release token s.coordinator; leases = before ++ rest })
  stopped : (s : Pages) → Move s (record s { coordinator = (cancel_active s.coordinator).0 })

pub data Reached : Pages → Type 0 where
  start : Reached idle
  move : {s u : Pages} → Reached s → Move s u → Reached u

abbrev token_of : Option ActivePage → List String
token_of none = []
token_of (some page) = page.token ∷ []

-- The leases that are out are the active page's, no more and no fewer.
abbrev pub IsExclusive : Pages → Type 0
IsExclusive s = s.leases ≡ token_of s.coordinator.active

turn-IsExclusive :
    (a : Option ActivePage) (r : PageRequest) (waiting : List PageRequest) (now : ℕ)
    (token : String) (s : Pages) (c : Coordinator)
    → c.active ≡ a
    → s.leases ≡ token_of a
    → IsExclusive (go r waiting s (turn a r now token c))
unfolding turn
turn-IsExclusive none r waiting now token s c e h = ap (λ l. token ∷ l) h
turn-IsExclusive (some page) r waiting now token s c e h = ground (arith)

active-enter : (r : PageRequest) (c : Coordinator) → (enter r c).active ≡ c.active
unfolding enter
active-enter r c = ground arith

active-cancel : (c : Coordinator) → (cancel_active c).0.active ≡ c.active
unfolding cancel_active
active-cancel c = ground arith

one_left :
    (before rest : List String) (token held : String)
    → held ∷ [] ≡ before ++ token ∷ rest
    → (before ++ rest ≡ []) × (held ≡ token)
one_left [] rest token held e = ground arith
one_left (b ∷ []) rest token held e = ground arith
one_left (b ∷ c ∷ before) rest token held e = ground arith

release-IsExclusive :
    (a : Option ActivePage) (before rest : List String) (token : String) (c : Coordinator)
    → c.active ≡ a
    → token_of a ≡ before ++ token ∷ rest
    → before ++ rest ≡ token_of (release token c).active
unfolding release
release-IsExclusive none [] rest token c e h = cc
release-IsExclusive none (b ∷ before) rest token c e h = cc
release-IsExclusive (some page) before rest token c e h =
    (one_left before rest token page.token h).0 ∙ sym (ap token_of freed)
  where
    freed : (release token c).active ≡ none
    freed = rw (e, (eq_iff page.token token).1 (one_left before rest token page.token h).1) refl

wake-IsExclusive :
    (r : PageRequest) (waiting : List PageRequest) (now : ℕ) (token : String) (s : Pages)
    (c : Coordinator)
    → s.leases ≡ token_of c.active
    → IsExclusive (go r waiting s (wake r now token c))
unfolding wake
wake-IsExclusive r waiting now token s c h =
    turn-IsExclusive c.active r waiting now token s c refl h

Move-IsExclusive : {s u : Pages} → Move s u → IsExclusive s → IsExclusive u
unfolding acquire
Move-IsExclusive (call s r now token) h =
    wake-IsExclusive r s.waiting now token s (enter r s.coordinator)
      (h ∙ ap token_of (sym (active-enter r s.coordinator)))
Move-IsExclusive (woken s before rest r now token e) h =
    wake-IsExclusive r (before ++ rest) now token s s.coordinator h
Move-IsExclusive (done s before rest token e) h =
    release-IsExclusive s.coordinator.active before rest token s.coordinator refl (sym h ∙ e)
Move-IsExclusive (stopped s) h = h ∙ ap token_of (sym (active-cancel s.coordinator))

length-token_of : (a : Option ActivePage) → length (token_of a) ≤ 1
length-token_of none = omega arith
length-token_of (some page) = omega arith

-- In every run, with any number of threads that ask, wait, are woken in any order, give their lease
-- back or stop a page, the leases that are out are exactly that of the active page; so at most one
-- is out, and the slot is free exactly when none is.
pub Reached-IsExclusive : {s : Pages} → Reached s → IsExclusive s × (length s.leases ≤ 1)
Reached-IsExclusive {s} run =
    (exclusive run, rw (exclusive run) (length-token_of s.coordinator.active))
  where
    exclusive : {s : Pages} → Reached s → IsExclusive s
    exclusive start = refl
    exclusive (move run m) = Move-IsExclusive m (exclusive run)
