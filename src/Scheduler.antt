-- ===== src/Scheduler.antt =====
-- bell/scheduler.py: resolving a day's bells, and `BellScheduler.fire`. The zone database of the
-- source (`ZoneInfo`) is the argument `zone`: the offset that a wall-clock time has.
pub mod Made
pub mod Days
pub mod Upcoming
pub mod Fire
use school_bells.Prelude.{
  ℕ, zero, suc, ◌+◌, ◌≤◌, String, Bool, true, false, not, ◌&&◌, ◌||◌, List, [], ◌∷◌, ◌++◌, Option,
  none, some, ltb, leb, ◌==◌, str_eq, if◌then◌else◌, length, select, any, take, map, is_some,
}
use school_bells.Config.{
  BellEvent, BellSchedule, StandingItem, DateRangeRule, CalendarRule, by_name,
}
use school_bells.Dates.{Moment, Offset, wall, weekday_name}
use school_bells.Dates.Order.{sort_by}
use school_bells.Fires.{PlannedEvent}

pub record DayPlan : Type 0 where
  pub day : ℕ
  pub schedule_name : Option String
  pub events : List PlannedEvent
  pub reason : Option String

-- What `resolve_day` reads of the configuration.
pub record Bells : Type 0 where
  pub calendar : CalendarRule
  pub schedules : List BellSchedule
  pub standing_items : List StandingItem

-- A dictionary with dates for keys.
unfoldable pub on_date : ℕ → List (ℕ × String) → Option String
on_date day [] = none
on_date day ((d, name) ∷ rest) = if d == day then some name else on_date day rest

-- The first range that holds the day.
unfoldable pub in_ranges : ℕ → List DateRangeRule → Option String
in_ranges day [] = none
in_ranges day (rule ∷ rest) =
    if leb rule.start day && leb day rule.end then some rule.schedule else in_ranges day rest

-- `weekday_defaults.get(...)`: a weekday that is missing and one that is null are both `none`.
unfoldable pub weekday_default : String → List (String × Option String) → Option String
weekday_default name [] = none
weekday_default name ((w, schedule) ∷ rest) =
    if str_eq w name then schedule else weekday_default name rest

abbrev pub or_else {ℓ} : {A : Type ℓ} → Option A → Option A → Option A
or_else none b = b
or_else (some a) b = some a

unfoldable pub schedule_for : ℕ → CalendarRule → Option String
schedule_for day calendar = or_else (on_date day calendar.overrides) (
    or_else (in_ranges day calendar.date_ranges)
      (weekday_default (weekday_name day) calendar.weekday_defaults))

-- `if schedule_name:`
unfoldable pub truthy : Option String → Bool
truthy none = false
truthy (some String.[]) = false
truthy (some (String.◌∷◌ _ _)) = true

module _ (zone : ℕ → ℕ → Offset) where
  unfoldable pub plan_event : ℕ → String → BellEvent → PlannedEvent
  plan_event day source event = record {
    event = event;
    source = source;
    scheduled_at = record { date = day; time = event.time; offset = zone day event.time };
    action_id = none;
  }

  unfoldable pub scheduled_events : ℕ → String → Option BellSchedule → Option (List PlannedEvent)
  scheduled_events day name none = none
  scheduled_events day name (some schedule) = some (map (plan_event day name) schedule.events)

  -- `config.schedule_map[schedule_name].events`, where there is a name; `none` is a `KeyError`.
  unfoldable pub named_events : ℕ → Option String → List BellSchedule → Option (List PlannedEvent)
  unfolding scheduled_events
  named_events day none schedules = some []
  named_events day (some String.[]) schedules = some []
  named_events day (some name) schedules =
      scheduled_events day name (by_name (λ (s : BellSchedule). s.name) name schedules)

  unfoldable pub standing_events : ℕ → List StandingItem → List PlannedEvent
  standing_events day items =
      map (λ (item : StandingItem). plan_event day "Standing" item.event)
        (select (λ (item : StandingItem). item.enabled) items)

  abbrev pub start_of : PlannedEvent → ℕ
  start_of p = wall p.scheduled_at

  no_events_reason : List PlannedEvent → Option String
  no_events_reason [] = some "no schedule assigned"
  no_events_reason (_ ∷ _) = none

  day_plan : ℕ → Option String → List PlannedEvent → DayPlan
  day_plan day name events =
      let sorted = sort_by start_of events in
      record { day = day; schedule_name = name; events = sorted; reason = no_events_reason sorted }

  resolve_named : ℕ → Option String → Bells → Option DayPlan
  resolve_named day name bells = elim (named_events day name bells.schedules) [
    | none ↦ none
    | some events ↦ some (
        day_plan day name
          (events ++ (if truthy name then standing_events day bells.standing_items else [])))
  ]

  unfoldable pub resolve_day : ℕ → Bells → Option DayPlan
  unfolding resolve_named day_plan no_events_reason
  resolve_day day bells = elim (on_date day bells.calendar.no_bell_dates) [
    | some why ↦ some (record { day = day; schedule_name = none; events = []; reason = some why })
    | none ↦ resolve_named day (schedule_for day bells.calendar) bells
  ]

  abbrev pub after : Moment → List PlannedEvent → List PlannedEvent
  after now = select (λ p. ltb (wall now) (start_of p))

  -- The loop over the days left, from `day` on. It stops when enough events are found.
  search_days : ℕ → ℕ → ℕ → Moment → Bells → List PlannedEvent → Option (List PlannedEvent)
  search_days zero day limit now bells found = some found
  search_days (suc days) day limit now bells found = elim (resolve_day day bells) [
    | none ↦ none
    | some plan ↦
        let more = found ++ after now plan.events in
        elim (leb limit (length more)) [
          | true ↦ some more
          | false ↦ search_days days (day + 1) limit now bells more
        ]
  ]

  sorted_first : ℕ → Option (List PlannedEvent) → Option (List PlannedEvent)
  sorted_first limit none = none
  sorted_first limit (some found) = some (take limit (sort_by start_of found))

  unfoldable pub upcoming_events : Bells → Moment → ℕ → ℕ → Option (List PlannedEvent)
  unfolding search_days sorted_first
  upcoming_events bells now limit days =
      if ltb limit 1
      then some []
      else sorted_first limit (search_days (days + 1) now.date limit now bells [])
