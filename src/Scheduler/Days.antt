-- ===== src/Scheduler/Days.antt =====
-- The plan that `resolve_day` of bell/scheduler.py gives a day.
use school_bells.Prelude.{
  ℕ, ◌<◌, ◌≡◌, ◌⊎◌, refl, String, Bool, true, false, ◌&&◌, List, [], ◌∷◌, ◌++◌, Option, none, some,
  leb, ◌==◌, str_eq, if◌then◌else◌, All, All-append, All-map, All-select, All-imp, Bool-cases, inl,
  inr, is_some, Option-cases,
}
use mathlib.Core.List.{Perm}
use mathlib.Core.Option.{some-injective}
use mathlib.Core.Path.{subst}
use school_bells.Config.{BellEvent, BellSchedule, StandingItem, DateRangeRule, by_name, later_or}
use school_bells.Dates.{Offset, day_length, weekday_name}
use school_bells.Dates.Order.{From, sort_by-From, sort_by-perm, sort_by-All}
use school_bells.Fires.{PlannedEvent}
use school_bells.Scheduler.{
  DayPlan, Bells, on_date, in_ranges, weekday_default, or_else, schedule_for, truthy, plan_event,
  named_events, scheduled_events, standing_events, start_of, day_plan, resolve_named, resolve_day,
}
use school_bells.Scheduler.Made.{
  Dated, Chosen, Rings, on_date-Dated, schedule_for-Chosen, named-Rings,
}

abbrev pub known : List BellSchedule → String → Bool
known schedules name = is_some (by_name (λ (s : BellSchedule). s.name) name schedules)

-- What `load_config` checks last: the calendar names schedules that are there.
pub record IsKnown (b : Bells) : Type 0 where
  pub overrides : All (λ (r : ℕ × String). known b.schedules r.1 ≡ true) b.calendar.overrides
  pub ranges :
      All (λ (r : DateRangeRule). known b.schedules r.schedule ≡ true) b.calendar.date_ranges
  pub weekdays :
      All
        (λ (r : String × Option String).
          (truthy r.1 ≡ false)
          ⊎ ((name : String) × (r.1 ≡ some name) × (known b.schedules name ≡ true)))
        b.calendar.weekday_defaults

abbrev pub IsTime : BellEvent → Type 0
IsTime event = event.time < day_length

-- A configuration that `load_config` has let through, as far as the calendar is concerned.
pub record IsValid (b : Bells) : Type 0 where
  pub calendar : IsKnown b
  pub schedules : All (λ (s : BellSchedule). All IsTime s.events) b.schedules
  pub standing : All (λ (i : StandingItem). IsTime i.event) b.standing_items

later_or-keeps {ℓ} :
    {A : Type ℓ} (P : A → Type 0) (o : Option A) (same : Bool) (x y : A)
    → ((z : A) → o ≡ some z → P z)
    → P x
    → later_or o same x ≡ some y
    → P y
unfolding later_or
later_or-keeps P (some z) same x y ho hx e = subst P (some-injective z y e) (ho z refl)
later_or-keeps P none true x y ho hx e = subst P (some-injective x y e) hx
later_or-keeps P none false x y ho hx e = cc

by_name-All {ℓ} :
    {A : Type ℓ} (P : A → Type 0) (f : A → String) (k : String) (xs : List A) (y : A)
    → All P xs
    → by_name f k xs ≡ some y
    → P y
unfolding by_name
by_name-All P f k [] y h e = cc
by_name-All P f k (x ∷ xs) y h e =
    later_or-keeps P (by_name f k xs) _ x y (λ z q. by_name-All P f k xs z h.1 q) h.0 e

abbrev NameIsKnown : List BellSchedule → Option String → Type 0
NameIsKnown schedules o =
    (truthy o ≡ false) ⊎ ((name : String) × (o ≡ some name) × (known schedules name ≡ true))

on_date-known :
    (schedules : List BellSchedule) (day : ℕ) (rows : List (ℕ × String))
    → All (λ (r : ℕ × String). known schedules r.1 ≡ true) rows
    → NameIsKnown schedules (on_date day rows)
unfolding on_date truthy
on_date-known schedules day [] h = inl refl
on_date-known schedules day ((d, n) ∷ rows) h = elim (Bool-cases (d == day)) [
  | inl here ↦ rw (here, on_date) (inr (n, refl, h.0))
  | inr there ↦ rw (there, on_date) (on_date-known schedules day rows h.1)
]

in_ranges-known :
    (schedules : List BellSchedule) (day : ℕ) (rows : List DateRangeRule)
    → All (λ (r : DateRangeRule). known schedules r.schedule ≡ true) rows
    → NameIsKnown schedules (in_ranges day rows)
unfolding in_ranges truthy
in_ranges-known schedules day [] h = inl refl
in_ranges-known schedules day (r ∷ rows) h = elim (Bool-cases (leb r.start day && leb day r.end)) [
  | inl here ↦ rw (here, in_ranges) (inr (r.schedule, refl, h.0))
  | inr there ↦ rw (there, in_ranges) (in_ranges-known schedules day rows h.1)
]

weekday-known :
    (schedules : List BellSchedule) (w : String) (rows : List (String × Option String))
    → All (λ (r : String × Option String). NameIsKnown schedules r.1) rows
    → NameIsKnown schedules (weekday_default w rows)
unfolding weekday_default truthy
weekday-known schedules w [] h = inl refl
weekday-known schedules w ((v, o) ∷ rows) h = elim (Bool-cases (str_eq v w)) [
  | inl here ↦ rw (here, weekday_default) h.0
  | inr there ↦ rw (there, weekday_default) (weekday-known schedules w rows h.1)
]

or_else-known :
    (schedules : List BellSchedule) (a b : Option String)
    → NameIsKnown schedules a
    → NameIsKnown schedules b
    → NameIsKnown schedules (or_else a b)
or_else-known schedules none b ha hb = hb
or_else-known schedules (some n) b ha hb = ha

schedule_for-known :
    (b : Bells) (day : ℕ) → IsKnown b → NameIsKnown b.schedules (schedule_for day b.calendar)
unfolding schedule_for
schedule_for-known b day k =
    or_else-known b.schedules (on_date day b.calendar.overrides) _
      (on_date-known b.schedules day b.calendar.overrides k.overrides)
      (or_else-known b.schedules (in_ranges day b.calendar.date_ranges) _
        (in_ranges-known b.schedules day b.calendar.date_ranges k.ranges)
        (weekday-known b.schedules (weekday_name day) b.calendar.weekday_defaults k.weekdays))

module _ (zone : ℕ → ℕ → Offset) where
  scheduled-total :
      (day : ℕ) (name : String) (o : Option BellSchedule)
      → is_some o ≡ true
      → (events : List PlannedEvent) × (scheduled_events zone day name o ≡ some events)
  unfolding scheduled_events
  scheduled-total day name none h = cc
  scheduled-total day name (some s) h = (_, refl)

  named_events-total :
      (day : ℕ) (o : Option String) (schedules : List BellSchedule)
      → NameIsKnown schedules o
      → (events : List PlannedEvent) × (named_events zone day o schedules ≡ some events)
  unfolding named_events truthy
  named_events-total day none schedules h = ([], refl)
  named_events-total day (some String.[]) schedules h = ([], refl)
  named_events-total day (some (String.◌∷◌ c s)) schedules (inl h) = cc
  named_events-total day (some (String.◌∷◌ c s)) schedules (inr (n, e, h)) =
      scheduled-total day (String.◌∷◌ c s) _ (rw (some-injective (String.◌∷◌ c s) n e) h)

  -- The plan of a day that is no no-bell date, from the events of its schedule.
  resolve_named-some :
      (day : ℕ) (o : Option String) (b : Bells) (events : List PlannedEvent)
      → named_events zone day o b.schedules ≡ some events
      → resolve_named zone day o b
        ≡ some (
            day_plan zone day o
              (events ++ (if truthy o then standing_events zone day b.standing_items else [])))
  unfolding resolve_named
  resolve_named-some day o b events e = rw (e, resolve_named) refl

  abbrev pub OnDay : ℕ → List PlannedEvent → Type 0
  OnDay day =
      All (λ (p : PlannedEvent). (p.scheduled_at.date ≡ day) × (p.scheduled_at.time < day_length))

  standing-OnDay :
      (day : ℕ) (items : List StandingItem)
      → All (λ (i : StandingItem). IsTime i.event) items
      → OnDay day (standing_events zone day items)
  unfolding standing_events plan_event
  standing-OnDay day items h =
      All-map _ _ _
        (All-imp _ _ _ (λ i t. (refl, t)) (All-select _ (λ (i : StandingItem). i.enabled) items h))

  scheduled-OnDay :
      (day : ℕ) (name : String) (o : Option BellSchedule) (events : List PlannedEvent)
      → ((s : BellSchedule) → o ≡ some s → All IsTime s.events)
      → scheduled_events zone day name o ≡ some events
      → OnDay day events
  unfolding scheduled_events plan_event
  scheduled-OnDay day name none events h e = cc
  scheduled-OnDay day name (some s) events h e =
      subst (OnDay day) (some-injective _ events e)
        (All-map _ _ s.events (All-imp _ _ s.events (λ x t. (refl, t)) (h s refl)))

  named-OnDay :
      (day : ℕ) (o : Option String) (schedules : List BellSchedule) (events : List PlannedEvent)
      → All (λ (s : BellSchedule). All IsTime s.events) schedules
      → named_events zone day o schedules ≡ some events
      → OnDay day events
  unfolding named_events
  named-OnDay day none schedules events h e = subst (OnDay day) (some-injective [] events e) tt
  named-OnDay day (some String.[]) schedules events h e =
      subst (OnDay day) (some-injective [] events e) tt
  named-OnDay day (some (String.◌∷◌ c s)) schedules events h e =
      scheduled-OnDay day (String.◌∷◌ c s) _ events
        (λ x q. by_name-All _ _ (String.◌∷◌ c s) schedules x h q) e

  if-OnDay :
      (day : ℕ) (t : Bool) (xs : List PlannedEvent)
      → OnDay day xs
      → OnDay day (if t then xs else [])
  if-OnDay day true xs h = h
  if-OnDay day false xs h = tt

  -- What a day's plan is made of: nothing but a reason on a no-bell date, and else the events that
  -- the schedule named by the calendar rings.
  abbrev pub MadeOf : ℕ → Bells → DayPlan → Type 0
  MadeOf day b plan =
      ((why : String) × Dated day b.calendar.no_bell_dates (some why)
        × (plan.reason ≡ some why)
        × (plan.schedule_name ≡ none)
        × (plan.events ≡ []))
      ⊎ (Dated day b.calendar.no_bell_dates none
          × (name : Option String) × Chosen day b.calendar name
          × (plan.schedule_name ≡ name)
          × (events : List PlannedEvent) × Rings zone day b.schedules b.standing_items name events
          × Perm plan.events events)

  -- Where the calendar names only schedules that are there, and all times are times of day, every day
  -- has a plan, with no `KeyError`: its events lie on the day and stand in the order of their times.
  -- On a no-bell date it has none, and the date's reason. On another day its schedule is that of an
  -- override of the date, else that of the first date range which holds the day, else the default of
  -- the weekday; without a name for it there are no events, and with one they are those of the
  -- schedule of that name and those of the standing items that are enabled, each at its time.
  pub resolve_day_plan :
      (day : ℕ) (b : Bells)
      → IsValid b
      → (plan : DayPlan) × (resolve_day zone day b ≡ some plan)
        × From (start_of zone) 0 plan.events
        × OnDay day plan.events
        × MadeOf day b plan
  unfolding resolve_day
  resolve_day_plan day b k = elim (Option-cases (on_date day b.calendar.no_bell_dates)) [
    | inr (why, e) ↦ (
      record { day = day; schedule_name = none; events = []; reason = some why },
      rw (e, resolve_day) refl,
      tt,
      tt,
      inl (
        why,
        subst (Dated day b.calendar.no_bell_dates) e (on_date-Dated day b.calendar.no_bell_dates),
        refl,
        refl,
        refl,
      ),
    )
    | inl e ↦
        let name = schedule_for day b.calendar in
        let (events, found) =
          named_events-total day name b.schedules (schedule_for-known b day k.calendar) in
        let all =
          events ++ (if truthy name then standing_events zone day b.standing_items else []) in
        (
          day_plan zone day name all,
          rw (e, resolve_day) (resolve_named-some day name b events found),
          unfold day_plan in sort_by-From (start_of zone) all,
          unfold day_plan in
              sort_by-All (start_of zone) _ all (
                All-append _ events _ (named-OnDay day name b.schedules events k.schedules found)
                  (if-OnDay day (truthy name) _ (standing-OnDay day b.standing_items k.standing))),
          inr (
            subst (Dated day b.calendar.no_bell_dates) e
                (on_date-Dated day b.calendar.no_bell_dates),
            name,
            schedule_for-Chosen day b.calendar,
            unfold day_plan in refl,
            all,
            named-Rings zone day b.schedules b.standing_items name events found,
            unfold day_plan in sort_by-perm (start_of zone) all,
          ),
        )
  ]
