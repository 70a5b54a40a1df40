-- ===== src/Paging/Preemption.antt =====
-- What an asking page gets, and whom it may stop, in PageCoordinator of bell/paging.py.
use school_bells.Prelude.{
  ℕ, ◌≤◌, ◌<◌, ◌≡◌, ◌↔◌, ◌⊎◌, ◌∙◌, refl, ap, String, Bool, true, false, Option, none, some, arith,
  str_eq, eq_iff, if◌then◌else◌, any, Bool-cases, inl, inr, leb, tests,
}
use school_bells.Config.{skip, preempt}
use school_bells.Paging.{
  ActivePage, Coordinator, PageRequest, Attempt, returns, waits, enter, wake, turn, acquire, signal,
  outranks, refused_by, is_set,
}

abbrev pub granted : Attempt → Bool
granted waits = false
granted (returns lease) = lease.acquired

-- A request that gives up at once where the slot is taken.
abbrev pub GivesUp : PageRequest → ActivePage → Type 0
GivesUp r page = (r.policy ≡ skip) ⊎ ((r.policy ≡ preempt) × (r.priority ≤ page.priority))

active-enter : (r : PageRequest) (c : Coordinator) → (enter r c).active ≡ c.active
unfolding enter
active-enter r c = ground arith

turn-granted :
    (a : Option ActivePage) (r : PageRequest) (now : ℕ) (token : String) (c : Coordinator)
    → (granted (turn a r now token c).1 ≡ true) ↔ (a ≡ none)
unfolding turn
turn-granted none r now token c = ground arith
turn-granted (some page) r now token c = ground arith

GivesUp-iff : (r : PageRequest) (page : ActivePage) → (refused_by r page ≡ true) ↔ GivesUp r page
unfolding refused_by
GivesUp-iff r page = ground arith

turn-waits :
    (r : PageRequest) (page : ActivePage) (now : ℕ) (token : String) (c : Coordinator)
    → ((turn (some page) r now token c).1 ≡ waits) ↔ ((¬ GivesUp r page) × (now < r.deadline))
unfolding turn
turn-waits r page now token c = elim (Bool-cases (refused_by r page)) [
  | inl up ↦ rw up (λ h. cc, λ h. absurd (h.0 ((GivesUp-iff r page).0 up)))
  | inr on ↦ elim (Bool-cases (leb r.deadline now)) [
    | inl late ↦ rw (on, late) (λ h. cc, λ h. absurd (omega (tests, late)))
    | inr early ↦
        rw (on, early) (λ _. (λ g. cc ((GivesUp-iff r page).1 g), ground arith), λ _. refl)
  ]
]

-- A call of `_acquire` gets the slot exactly when it is free, whatever its policy or deadline. With
-- a page active it waits exactly when it does not give up (the policy is neither "skip" nor
-- "preempt" at a priority that is no higher) and its deadline lies ahead.
pub acquire_answer :
    (r : PageRequest) (now : ℕ) (token : String) (c : Coordinator)
    → ((granted (acquire r now token c).1 ≡ true) ↔ (c.active ≡ none))
      × ((page : ActivePage)
          → c.active ≡ some page
          → ((acquire r now token c).1 ≡ waits) ↔ ((¬ GivesUp r page) × (now < r.deadline)))
unfolding acquire wake
acquire_answer r now token c = (
  rw (active-enter r c) (turn-granted c.active r now token (enter r c)),
  λ page e. rw (active-enter r c ∙ e) (turn-waits r page now token (enter r c)),
)

events-turn :
    (a : Option ActivePage) (r : PageRequest) (now : ℕ) (token : String) (c : Coordinator)
    → (turn a r now token c).0.events ≡ c.events
unfolding turn
events-turn none r now token c = refl
events-turn (some page) r now token c = ground arith

events-wake :
    (r : PageRequest) (now : ℕ) (token t : String) (c : Coordinator)
    → is_set t (wake r now token c).0 ≡ is_set t c
unfolding wake
events-wake r now token t c = ap (any (str_eq t)) (events-turn c.active r now token c)

-- The requests that stop a page when they come in.
abbrev pub Stops : PageRequest → Option ActivePage → String → Type 0
Stops r none t = ⊥
Stops r (some page) t = (r.policy ≡ preempt) × (page.priority < r.priority) × (page.token ≡ t)

set-enter :
    (a : Option ActivePage) (r : PageRequest) (t : String) (c : Coordinator)
    → (is_set t (if outranks r a then signal a c else c) ≡ true)
      ↔ ((is_set t c ≡ true) ⊎ Stops r a t)
unfolding outranks signal
set-enter none r t c = ground arith
set-enter (some page) r t c = ground (arith, eq_iff t page.token, eq_iff page.token t)

-- A call of `_acquire` sets the cancel event of the active page exactly when its policy is
-- "preempt" and its priority is higher, and touches no other event; one that is woken sets none.
pub acquire_signals :
    (r : PageRequest) (now : ℕ) (token t : String) (c : Coordinator)
    → ((is_set t (acquire r now token c).0 ≡ true) ↔ ((is_set t c ≡ true) ⊎ Stops r c.active t))
      × (is_set t (wake r now token c).0 ≡ is_set t c)
unfolding acquire enter
acquire_signals r now token t c = (
  rw (events-wake r now token t (enter r c)) (set-enter c.active r t c),
  events-wake r now token t c,
)
