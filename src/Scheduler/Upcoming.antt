-- ===== src/Scheduler/Upcoming.antt =====
-- The list of coming bells that `upcoming_events` of bell/scheduler.py returns.
use school_bells.Prelude.{
  ℕ, zero, suc, ◌+◌, ◌*◌, ◌≤◌, ◌<◌, ◌≡◌, ◌⊎◌, refl, ap, sym, ◌∙◌, false, List, [], ◌∷◌, ◌++◌, some,
  arith, ltb, leb, All-select, All-imp, Bool-cases, inl, inr, length, take, leb→le,
}
use mathlib.Core.List.{append_assoc, append-nil}
use school_bells.Dates.{Moment, Offset, day_length}
use school_bells.Dates.Order.{From, From-le, From-select, From-append, sort_by-sorted}
use school_bells.Fires.{PlannedEvent}
use school_bells.Scheduler.{
  DayPlan, Bells, start_of, after, search_days, sorted_first, upcoming_events,
}
use school_bells.Scheduler.Days.{IsValid, OnDay, resolve_day_plan}

take-append {ℓ} :
    {A : Type ℓ} (n : ℕ) (xs ys : List A) → n ≤ length xs → take n (xs ++ ys) ≡ take n xs
take-append zero xs ys h = refl
take-append (suc n) [] ys h = absurd (omega arith)
take-append (suc n) (x ∷ xs) ys h = ap (λ t. x ∷ t) (take-append n xs ys (omega arith))

module _ (zone : ℕ → ℕ → Offset) (b : Bells) (v : IsValid b) where
  abbrev plan_of : ℕ → DayPlan
  plan_of day = (resolve_day_plan zone day b v).0

  -- Every event after `now` of the days from `day` on.
  abbrev pub horizon : Moment → ℕ → ℕ → List PlannedEvent
  horizon now zero day = []
  horizon now (suc days) day = after zone now (plan_of day).events ++ horizon now days (day + 1)

  start_in_day :
      (day : ℕ) (p : PlannedEvent)
      → (p.scheduled_at.date ≡ day) × (p.scheduled_at.time < day_length)
      → (day * day_length ≤ start_of zone p) × (start_of zone p ≤ (day + 1) * day_length)
  start_in_day day p h = rw h.0 (omega arith)

  From-day :
      (day : ℕ) (xs : List PlannedEvent)
      → OnDay zone day xs
      → From (start_of zone) 0 xs
      → From (start_of zone) (day * day_length) xs
  From-day day [] h s = tt
  From-day day (x ∷ xs) h s = ((start_in_day day x h.0).0, s.1)

  horizon-From :
      (now : Moment) (days day : ℕ) → From (start_of zone) (day * day_length) (horizon now days day)
  horizon-From now zero day = tt
  horizon-From now (suc days) day =
      From-append (start_of zone) (day * day_length) ((day + 1) * day_length)
        (after zone now (plan_of day).events) (horizon now days (day + 1))
        (From-select (start_of zone) _ _ (plan_of day).events
          (From-day day (plan_of day).events on_day (resolve_day_plan zone day b v).2))
        (All-select _ _ (plan_of day).events
          (All-imp _ _ _ (λ p h. (start_in_day day p h).1) on_day))
        (omega arith) (horizon-From now days (day + 1))
    where
      on_day : OnDay zone day (plan_of day).events
      on_day = (resolve_day_plan zone day b v).3

  -- The loop ends with the whole horizon or with enough of it.
  search-horizon :
      (days day limit : ℕ) (now : Moment) (found : List PlannedEvent)
      → (r rest : List PlannedEvent) × (search_days zone days day limit now b found ≡ some r)
        × (r ++ rest ≡ found ++ horizon now days day)
        × ((rest ≡ []) ⊎ (limit ≤ length r))
  unfolding search_days
  search-horizon zero day limit now found = (found, [], refl, refl, inl refl)
  search-horizon (suc days) day limit now found =
      let more = found ++ after zone now (plan_of day).events in
      elim (Bool-cases (leb limit (length more))) [
        | inl enough ↦ (
          more,
          horizon now days (day + 1),
          rw ((resolve_day_plan zone day b v).1, enough, search_days) refl,
          append_assoc found _ _,
          inr (leb→le _ _ enough),
        )
        | inr short ↦
            let (r, rest, e, q, c) = search-horizon days (day + 1) limit now more in
            (
              r,
              rest,
              rw ((resolve_day_plan zone day b v).1, short, search_days) e,
              q ∙ append_assoc found _ _,
              c,
            )
      ]

  From-prefix :
      (n : ℕ) (xs ys : List PlannedEvent)
      → From (start_of zone) n (xs ++ ys)
      → From (start_of zone) n xs
  From-prefix n [] ys s = tt
  From-prefix n (x ∷ xs) ys s = (s.0, From-prefix (start_of zone x) xs ys s.1)

  take-prefix :
      (n : ℕ) (r rest whole : List PlannedEvent)
      → r ++ rest ≡ whole
      → (rest ≡ []) ⊎ (n ≤ length r)
      → take n r ≡ take n whole
  take-prefix n r rest whole q (inl e) =
      ap (take n) (sym (append-nil r) ∙ ap (λ t. r ++ t) (sym e) ∙ q)
  take-prefix n r rest whole q (inr h) = sym (take-append n r rest h) ∙ ap (take n) q

  sorted-horizon : (now : Moment) (days : ℕ) → From (start_of zone) 0 (horizon now days now.date)
  sorted-horizon now days =
      From-le (start_of zone) 0 (now.date * day_length) (horizon now days now.date) (omega arith)
        (horizon-From now days now.date)

  search-upcoming :
      (now : Moment) (limit days : ℕ)
      → sorted_first zone limit (search_days zone days now.date limit now b [])
        ≡ some (take limit (horizon now days now.date))
  unfolding sorted_first
  search-upcoming now limit days =
      let (r, rest, e, q, c) = search-horizon days now.date limit now [] in
      let sorted = From-prefix 0 r rest (rw q (sorted-horizon now days)) in
      rw (e, sort_by-sorted (start_of zone) 0 r sorted)
        (ap some (take-prefix limit r rest (horizon now days now.date) q c))

  -- With a valid configuration, `upcoming_events` raises no error and returns the first `limit` of
  -- all events after `now` on the days from today to `days` days ahead: stopping at the first day
  -- that gives enough of them loses none, and those events already stand in the order of their
  -- times.
  pub upcoming_events_lem :
      (now : Moment) (limit days : ℕ)
      → (upcoming_events zone b now limit days
          ≡ some (take limit (horizon now (days + 1) now.date)))
        × From (start_of zone) 0 (horizon now (days + 1) now.date)
  unfolding upcoming_events
  upcoming_events_lem now zero days = (refl, sorted-horizon now (days + 1))
  upcoming_events_lem now (suc limit) days =
      (rw positive (search-upcoming now (suc limit) (days + 1)), sorted-horizon now (days + 1))
    where
      positive : ltb (suc limit) 1 ≡ false
      positive = ground arith
