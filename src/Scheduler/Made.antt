-- ===== src/Scheduler/Made.antt =====
-- What a day's plan of bell/scheduler.py is made of: the schedule that the calendar gives the day, its
-- events, and the standing items.
use school_bells.Prelude.{
  if◌then◌else◌, ℕ, ◌≤◌, ◌≡◌, ◌≢◌, ◌⊎◌, refl, ap, sym, ◌∙◌, String, Bool, true, false, ◌&&◌, List,
  [], ◌∷◌, ◌++◌, Option, none, some, leb, ◌==◌, ==_iff, str_eq, eq_iff, Bool-cases, Option-cases,
  inl, inr, arith, map, le→leb,
}
use mathlib.Core.Option.{some-injective}
use school_bells.Config.{
  BellEvent, BellSchedule, StandingItem, DateRangeRule, CalendarRule, by_name,
}
use school_bells.Dates.{Offset, weekday_name}
use school_bells.Fires.{PlannedEvent}
use school_bells.Scheduler.{
  on_date, in_ranges, weekday_default, or_else, schedule_for, truthy, plan_event, scheduled_events,
  named_events, standing_events,
}

-- The first item with a property gives the value; without one there is none.
abbrev pub First {ℓ} :
    {A : Type ℓ} → (A → Type 0) → (A → Option String) → List A → Option String → Type 0
First holds value [] o = o ≡ none
First holds value (x ∷ xs) o = (holds x × (o ≡ value x)) ⊎ ((holds x → ⊥) × First holds value xs o)

-- What a dictionary with dates for keys has for a day.
abbrev pub Dated : ℕ → List (ℕ × String) → Option String → Type 0
Dated day = First (λ (r : ℕ × String). r.0 ≡ day) (λ (r : ℕ × String). some r.1)

-- The schedule of the first range that holds the day.
abbrev pub Ranged : ℕ → List DateRangeRule → Option String → Type 0
Ranged day =
    First (λ (r : DateRangeRule). (r.start ≤ day) × (day ≤ r.end))
      (λ (r : DateRangeRule). some r.schedule)

-- The default of the day's weekday.
abbrev pub Weekly : ℕ → List (String × Option String) → Option String → Type 0
Weekly day =
    First (λ (w : String × Option String). w.0 ≡ weekday_name day)
      (λ (w : String × Option String). w.1)

-- The schedule's name that the calendar gives a day: of an override, else of a range, else of the
-- weekday.
abbrev pub Chosen : ℕ → CalendarRule → Option String → Type 0
Chosen day c o =
    ((name : String) × (o ≡ some name) × Dated day c.overrides o)
    ⊎ (Dated day c.overrides none
        × (((name : String) × (o ≡ some name) × Ranged day c.date_ranges o)
            ⊎ (Ranged day c.date_ranges none × Weekly day c.weekday_defaults o)))

-- The events of the items that are enabled, in their order.
abbrev pub Enabled : List StandingItem → List BellEvent → Type 0
Enabled [] es = es ≡ []
Enabled (i ∷ is) es =
    ((i.enabled ≡ true) × (rest : List BellEvent) × (es ≡ i.event ∷ rest) × Enabled is rest)
    ⊎ ((i.enabled ≡ false) × Enabled is es)

pub on_date-Dated : (day : ℕ) (rows : List (ℕ × String)) → Dated day rows (on_date day rows)
unfolding on_date
on_date-Dated day [] = refl
on_date-Dated day ((d, n) ∷ rows) = elim (Bool-cases (d == day)) [
  | inl here ↦ rw (here, on_date) (inl ((==_iff d day).0 here, refl))
  | inr there ↦
      rw (there, on_date)
        (inr (λ e. absurd (cc (there, (==_iff d day).1 e)), on_date-Dated day rows))
]

in_range : (a b c : ℕ) → (leb a b && leb b c) ≡ true → (a ≤ b) × (b ≤ c)
in_range a b c h = ground (arith, h)

out_of_range : (a b c : ℕ) → (leb a b && leb b c) ≡ false → (a ≤ b) × (b ≤ c) → ⊥
out_of_range a b c h (low, high) = cc (h, both (le→leb a b low) (le→leb b c high))
  where
    both : {x y : Bool} → x ≡ true → y ≡ true → (x && y) ≡ true
    both {x} {y} h k = ground arith

in_ranges-Ranged : (day : ℕ) (rows : List DateRangeRule) → Ranged day rows (in_ranges day rows)
unfolding in_ranges
in_ranges-Ranged day [] = refl
in_ranges-Ranged day (r ∷ rows) = elim (Bool-cases (leb r.start day && leb day r.end)) [
  | inl here ↦ rw (here, in_ranges) (inl (in_range r.start day r.end here, refl))
  | inr there ↦
      rw (there, in_ranges) (inr (out_of_range r.start day r.end there, in_ranges-Ranged day rows))
]

weekday_default-Weekly :
    (day : ℕ) (rows : List (String × Option String))
    → Weekly day rows (weekday_default (weekday_name day) rows)
unfolding weekday_default
weekday_default-Weekly day [] = refl
weekday_default-Weekly day ((w, o) ∷ rows) = elim (Bool-cases (str_eq w (weekday_name day))) [
  | inl here ↦ rw (here, weekday_default) (inl ((eq_iff w (weekday_name day)).0 here, refl))
  | inr there ↦
      rw (there, weekday_default)
        (inr (
          λ e. absurd (cc (there, (eq_iff w (weekday_name day)).1 e)),
          weekday_default-Weekly day rows,
        ))
]

pub schedule_for-Chosen : (day : ℕ) (c : CalendarRule) → Chosen day c (schedule_for day c)
unfolding schedule_for
schedule_for-Chosen day c =
    on (on_date day c.overrides) (in_ranges day c.date_ranges) (on_date-Dated day c.overrides)
      (in_ranges-Ranged day c.date_ranges)
  where
    on :
        (a b : Option String)
        → Dated day c.overrides a
        → Ranged day c.date_ranges b
        → Chosen day c
            (or_else a (or_else b (weekday_default (weekday_name day) c.weekday_defaults)))
    on (some name) b dated ranged = inl (name, refl, dated)
    on none (some name) dated ranged = inr (dated, inl (name, refl, ranged))
    on none none dated ranged =
        inr (dated, inr (ranged, weekday_default-Weekly day c.weekday_defaults))

module _ (zone : ℕ → ℕ → Offset) where
  -- An event at its time of the day.
  abbrev pub at_day : ℕ → String → BellEvent → PlannedEvent
  at_day day source event = record {
    event = event;
    source = source;
    scheduled_at = record { date = day; time = event.time; offset = zone day event.time };
    action_id = none;
  }

  pub standing-Enabled :
      (day : ℕ) (items : List StandingItem)
      → (es : List BellEvent) × Enabled items es
        × (standing_events zone day items ≡ map (at_day day "Standing") es)
  unfolding standing_events plan_event
  standing-Enabled day [] = ([], refl, refl)
  standing-Enabled day (i ∷ is) = elim (Bool-cases i.enabled) [
    | inl on ↦
        let (es, kept, same) = standing-Enabled day is in
        rw (on, standing_events)
          (
            i.event ∷ es,
            inl (refl, es, refl, kept),
            ap (λ ps. at_day day "Standing" i.event ∷ ps) same,
          )
    | inr off ↦
        let (es, kept, same) = standing-Enabled day is in
        rw (off, standing_events) (es, inr (refl, kept), same)
  ]

  -- The events that a day with this schedule's name rings, in some order: none without a name; else
  -- those of the schedule of the name and those of the enabled standing items.
  abbrev pub Rings :
      ℕ → List BellSchedule → List StandingItem → Option String → List PlannedEvent → Type 0
  Rings day schedules items o events =
      (((o ≡ none) ⊎ (o ≡ some "")) × (events ≡ []))
      ⊎ ((name : String) × (o ≡ some name)
          × (name ≢ "")
          × (s : BellSchedule) × (by_name (λ (s : BellSchedule). s.name) name schedules ≡ some s)
          × (standing : List BellEvent) × Enabled items standing
          × (events ≡ map (at_day day name) s.events ++ map (at_day day "Standing") standing))

  pub named-Rings :
      (day : ℕ) (schedules : List BellSchedule) (items : List StandingItem) (o : Option String)
      (events : List PlannedEvent)
      → named_events zone day o schedules ≡ some events
      → Rings day schedules items o
          (events ++ (if truthy o then standing_events zone day items else []))
  unfolding named_events scheduled_events truthy plan_event
  named-Rings day schedules items none events h =
      inl (inl refl, ap (λ es. es ++ []) (some-injective events [] (sym h)))
  named-Rings day schedules items (some String.[]) events h =
      inl (inr refl, ap (λ es. es ++ []) (some-injective events [] (sym h)))
  named-Rings day schedules items (some (String.◌∷◌ c t)) events h =
      let (standing, kept, same) = standing-Enabled day items in
      let name = String.◌∷◌ c t in
      elim (Option-cases (by_name (λ (s : BellSchedule). s.name) name schedules)) [
        | inl missing ↦ absurd (cc (h, ap (scheduled_events zone day name) missing))
        | inr (s, found) ↦
            let own : map (at_day day name) s.events ≡ events =
              some-injective _ events (sym (ap (scheduled_events zone day name) found) ∙ h) in
            inr (
              name,
              refl,
              λ e. cc (e),
              s,
              found,
              standing,
              kept,
              ap (λ es. es ++ standing_events zone day items) (sym own)
                  ∙ ap (λ es. map (at_day day name) s.events ++ es) same,
            )
      ]
