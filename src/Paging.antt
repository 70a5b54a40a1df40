-- ===== src/Paging.antt =====
-- PageCoordinator of bell/paging.py. The condition variable serialises the methods, so each stretch
-- of `_acquire` between two waits is one function on the coordinator's state. A cancel event is
-- known by the token of the lease that holds it; the clock (`time.monotonic`) and the random token
-- are arguments.
pub mod Exclusion
pub mod Preemption
use school_bells.Prelude.{
  ℕ, ◌≤◌, ◌<◌, String, Bool, true, false, ◌&&◌, ◌||◌, List, [], ◌∷◌, Option, none, some, ltb, leb,
  str_eq, if◌then◌else◌, any, is_some, show,
}
use school_bells.Dates.{◌&◌}
use school_bells.Config.{BusyPolicy, skip, queue, preempt}

pub record ActivePage : Type 0 where
  pub token : String
  pub label : String
  pub priority : ℕ

-- `events` lists the tokens whose cancel event is set.
pub record Coordinator : Type 0 where
  pub active : Option ActivePage
  pub events : List String

pub record PageRequest : Type 0 where
  pub label : String
  pub priority : ℕ
  pub policy : BusyPolicy
  pub deadline : ℕ

pub record PageLease : Type 0 where
  pub acquired : Bool
  pub reason : String
  pub token : Option String

-- How a stretch of `_acquire` ends: with a result, or in `self._condition.wait`.
pub data Attempt : Type 0 where
  returns : PageLease → Attempt
  waits : Attempt

abbrev pub is_set : String → Coordinator → Bool
is_set token c = any (str_eq token) c.events

unfoldable pub snapshot : Coordinator → Option (String × ℕ)
snapshot c = elim c.active [ none ↦ none | some page ↦ some (page.label, page.priority) ]

signal : Option ActivePage → Coordinator → Coordinator
signal none c = c
signal (some page) c = record c { events = page.token ∷ c.events }

unfoldable pub cancel_active : Coordinator → Coordinator × Bool
unfolding signal
cancel_active c = (signal c.active c, is_some c.active)

abbrev pub is_preempt : BusyPolicy → Bool
is_preempt preempt = true
is_preempt skip = false
is_preempt queue = false

abbrev pub is_skip : BusyPolicy → Bool
is_skip skip = true
is_skip preempt = false
is_skip queue = false

outranks : PageRequest → Option ActivePage → Bool
outranks r none = false
outranks r (some page) = is_preempt r.policy && ltb page.priority r.priority

-- The first test of `_acquire`: a preempting request of higher priority sets the active page's event.
unfoldable pub enter : PageRequest → Coordinator → Coordinator
unfolding signal outranks
enter r c = if outranks r c.active then signal c.active c else c

refused_by : PageRequest → ActivePage → Bool
refused_by r page = is_skip r.policy || (is_preempt r.policy && leb r.priority page.priority)

abbrev pub no_lease : String → Attempt
no_lease reason = returns (record { acquired = false; reason = reason; token = none })

-- The loop `while self._active is not None` and what follows it, up to the next wait.
turn : Option ActivePage → PageRequest → ℕ → String → Coordinator → Coordinator × Attempt
unfolding refused_by
turn none r now token c = (
  record c { active = some (record { token = token; label = r.label; priority = r.priority }) },
  returns (record { acquired = true; reason = "page slot acquired"; token = some token }),
)
turn (some page) r now token c =
    if refused_by r page
    then (c, no_lease ("busy with '" & page.label & "' at priority " & show page.priority))
    else if leb r.deadline now
    then (c, no_lease "timed out waiting for active page")
    else (c, waits)

unfoldable pub wake : PageRequest → ℕ → String → Coordinator → Coordinator × Attempt
unfolding turn
wake r now token c = turn c.active r now token c

-- A call of `_acquire`, up to its result or its first wait.
unfoldable pub acquire : PageRequest → ℕ → String → Coordinator → Coordinator × Attempt
unfolding wake enter
acquire r now token c = wake r now token (enter r c)

holds : String → Option ActivePage → Bool
holds token none = false
holds token (some page) = str_eq page.token token

unfoldable pub release : String → Coordinator → Coordinator
unfolding holds
release token c = if holds token c.active then record c { active = none } else c
