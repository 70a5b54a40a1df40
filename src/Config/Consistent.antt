-- ===== src/Config/Consistent.antt =====
-- What a configuration without errors has, after the checks of `load_config` of bell/config.py.
use school_bells.Prelude.{
  ◌<◌, ◌⊎◌, ◌≢◌, ◌∙◌, ap, Option, none, some, leb, str_eq, eq_iff, Bool-cases, inl, inr, select,
  map, ℕ, ◌≤◌, ◌≡◌, refl, String, Bool, true, false, not, List, [], ◌∷◌, ◌++◌, All, is_some, ltb,
  arith,
}
use mathlib.Core.Path.{subst}
use school_bells.Config.{
  later_or, StandingItem, DateRangeRule, Destination, Zone, BellEvent, BellSchedule, by_name,
}
use school_bells.Config.Check.{
  pre_tone_missing, weekday_names, Loaded, ConfigError, when, is_known, unknown_in, zone_errors,
  event_errors, calendar_errors, config_errors, within_window, referenced, all_events, wire_errors,
}

append_nil {ℓ} : {A : Type ℓ} (xs ys : List A) → xs ++ ys ≡ [] → (xs ≡ []) × (ys ≡ [])
append_nil [] ys h = (refl, h)
append_nil (x ∷ xs) ys h = absurd cc

when-false : (b : Bool) (e : ConfigError) → when b e ≡ [] → b ≡ false
unfolding when
when-false false e h = refl
when-false true e h = absurd cc

not-false : (b : Bool) → not b ≡ false → b ≡ true
not-false true h = refl
not-false false h = absurd cc

-- An item of the list has this name.
abbrev pub Names {ℓ} : {A : Type ℓ} → (A → String) → List A → String → Type 0
Names name_of [] n = ⊥
Names name_of (x ∷ xs) n = (name_of x ≡ n) ⊎ Names name_of xs n

later {ℓ} :
    {A : Type ℓ} (o : Option A) (x : A) → is_some (later_or o false x) ≡ true → is_some o ≡ true
unfolding later_or
later none x h = absurd (cc (h))
later (some y) x h = refl

by_name-Names {ℓ} :
    {A : Type ℓ} (name_of : A → String) (n : String) (xs : List A)
    → is_some (by_name name_of n xs) ≡ true
    → Names name_of xs n
unfolding by_name later_or
by_name-Names name_of n [] = λ h. absurd (cc (h))
by_name-Names name_of n (x ∷ xs) = elim (Bool-cases (str_eq (name_of x) n)) [
  | inl hit ↦ λ _. inl ((eq_iff (name_of x) n).0 hit)
  | inr miss ↦ rw (miss) (λ h. inr (by_name-Names name_of n xs (later (by_name name_of n xs) x h)))
]

unknown_in-All :
    (zone : Zone) (ds : List Destination) (names : List String)
    → unknown_in zone ds names ≡ []
    → All (Names (λ (d : Destination). d.name) ds) names
unfolding unknown_in is_known
unknown_in-All zone ds [] h = tt
unknown_in-All zone ds (n ∷ ns) h =
    let (here, rest) = append_nil (when _ _) (unknown_in zone ds ns) h in
    (
      by_name-Names _ n ds (not-false (is_known ds n) (when-false _ _ here)),
      unknown_in-All zone ds ns rest,
    )

calendar_errors-All :
    (schedules : List BellSchedule) (names : List String)
    → calendar_errors schedules names ≡ []
    → All (Names (λ (s : BellSchedule). s.name) schedules) names
unfolding calendar_errors
calendar_errors-All schedules [] h = tt
calendar_errors-All schedules (n ∷ ns) h =
    let (here, rest) = append_nil (when _ _) (calendar_errors schedules ns) h in
    (
      by_name-Names _ n schedules (not-false _ (when-false _ _ here)),
      calendar_errors-All schedules ns rest,
    )

-- A time between the two, past midnight where the window ends before it starts.
abbrev pub InHours : ℕ → ℕ → ℕ → Type 0
InHours time start end =
    ((start ≤ time) × (time ≤ end)) ⊎ ((end < start) × ((start ≤ time) ⊎ (time ≤ end)))

within-InHours : (time start end : ℕ) → within_window time start end ≡ true → InHours time start end
unfolding within_window
within-InHours time start end = elim (Bool-cases (leb start end)) [
  | inl day ↦ rw (day, within_window) (λ h. inl (ground (arith, h)))
  | inr night ↦ rw (night, within_window) (λ h. inr (ground (arith, night, h)))
]

-- An event that may be rung.
pub record IsSound (readable : String → Bool) (c : Loaded) (e : BellEvent) : Type 0 where
  pub zone : Names (λ (z : Zone). z.name) c.zones e.zone
  pub sound : readable e.sound ≡ true
  pub pre_tone : (tone : String) → e.pre_tone ≡ some tone → tone ≢ "" → readable tone ≡ true
  pub repeats : e.repeat_count ≤ c.max_repeats
  pub hours : InHours e.time c.hours_start c.hours_end

tone-readable :
    (readable : String → Bool) (o : Option String) (tone : String)
    → pre_tone_missing readable o ≡ false
    → o ≡ some tone
    → tone ≢ ""
    → readable tone ≡ true
unfolding pre_tone_missing
tone-readable readable none tone h e filled = absurd (cc (e))
tone-readable readable (some String.[]) tone h e filled = absurd (filled (cc (e)))
tone-readable readable (some (String.◌∷◌ x xs)) tone h e filled =
    ap readable (same (String.◌∷◌ x xs) tone e) ∙ not-false _ h
  where
    same : (a b : String) → some a ≡ some b → b ≡ a
    same a b e = cc (e)

few : (a b : ℕ) → ltb a b ≡ false → b ≤ a
few a b h = ground arith

event_errors-All :
    (readable : String → Bool) (c : Loaded) (es : List BellEvent)
    → event_errors readable c es ≡ []
    → All (IsSound readable c) es
unfolding event_errors
event_errors-All readable c [] h = tt
event_errors-All readable c (e ∷ es) h =
    let (h5, rest) = append_nil _ (event_errors readable c es) h in
    let (h4, window) = append_nil _ (when _ _) h5 in
    let (h3, many) = append_nil _ (when _ _) h4 in
    let (h2, toneless) = append_nil _ (when _ _) h3 in
    let (unknown, unread) = append_nil (when _ _) (when _ _) h2 in
    (
      record {
        zone = by_name-Names _ e.zone c.zones (not-false _ (when-false _ _ unknown));
        sound = not-false _ (when-false _ _ unread);
        pre_tone = λ tone. tone-readable readable e.pre_tone tone (when-false _ _ toneless);
        repeats = few c.max_repeats e.repeat_count (when-false _ _ many);
        hours = within-InHours e.time _ _ (not-false _ (when-false _ _ window));
      },
      event_errors-All readable c es rest,
    )

zone_errors-All :
    (ds : List Destination) (zones : List Zone)
    → zone_errors ds zones ≡ []
    → All (λ (z : Zone). All (Names (λ (d : Destination). d.name) ds) z.destinations) zones
unfolding zone_errors
zone_errors-All ds [] h = tt
zone_errors-All ds (z ∷ zs) h =
    let (h3, rest) = append_nil _ (zone_errors ds zs) h in
    let (h2, _) = append_nil _ (when _ _) h3 in
    let (_, known) = append_nil (when _ _) (unknown_in z ds z.destinations) h2 in
    (unknown_in-All z ds z.destinations known, zone_errors-All ds zs rest)

All-split {ℓ} :
    {A : Type ℓ} (P : A → Type 0) (xs ys : List A) → All P (xs ++ ys) → All P xs × All P ys
All-split P [] ys h = (tt, h)
All-split P (x ∷ xs) ys h = let (a, b) = All-split P xs ys h.1 in ((h.0, a), b)

-- The events of the schedules, and of the standing items that are enabled.
events-All :
    (P : BellEvent → Type 0) (schedules : List BellSchedule) (items : List StandingItem)
    → All P (all_events schedules items)
    → All (λ (s : BellSchedule). All P s.events) schedules
      × All (λ (i : StandingItem). i.enabled ≡ true → P i.event) items
unfolding all_events
events-All P [] items h = (tt, chosen items h)
  where
    chosen :
        (items : List StandingItem)
        → All P
            (map (λ (i : StandingItem). i.event) (select (λ (i : StandingItem). i.enabled) items))
        → All (λ (i : StandingItem). i.enabled ≡ true → P i.event) items
    chosen [] = λ _. tt
    chosen (i ∷ is) = elim (Bool-cases i.enabled) [
      | inl on ↦ rw (on, select) (λ h. (λ _. h.0, chosen is h.1))
      | inr off ↦ rw (off, select) (λ h. (λ on. absurd (cc (on)), chosen is h))
    ]
events-All P (s ∷ schedules) items h =
    let (own, rest) = All-split P s.events (all_events schedules items) h in
    let (others, standing) = events-All P schedules items rest in ((own, others), standing)

All-unmap {ℓ κ} :
    {A : Type ℓ} {B : Type κ} (P : B → Type 0) (f : A → B) (xs : List A)
    → All P (map f xs)
    → All (λ x. P (f x)) xs
All-unmap P f [] h = tt
All-unmap P f (x ∷ xs) h = (h.0, All-unmap P f xs h.1)

weekdays-All :
    (P : String → Type 0) (defaults : List (String × Option String))
    → All P (weekday_names defaults)
    → All (λ (w : String × Option String). (n : String) → w.1 ≡ some n → n ≢ "" → P n) defaults
unfolding weekday_names
weekdays-All P [] h = tt
weekdays-All P ((day, none) ∷ rest) h = (λ n e filled. absurd (cc (e)), weekdays-All P rest h)
weekdays-All P ((day, some String.[]) ∷ rest) h =
    (λ n e filled. absurd (filled (cc (e))), weekdays-All P rest h)
weekdays-All P ((day, some (String.◌∷◌ x xs)) ∷ rest) h =
    (λ n e filled. subst P (same (String.◌∷◌ x xs) n e) h.0, weekdays-All P rest h.1)
  where
    same : (a b : String) → some a ≡ some b → a ≡ b
    same a b e = cc (e)

-- What the parts of a configuration say of each other.
pub record Consistent (readable : String → Bool) (c : Loaded) : Type 0 where
  pub zones :
      All
        (λ (z : Zone). All (Names (λ (d : Destination). d.name) c.destinations) z.destinations)
        c.zones
  pub events : All (λ (s : BellSchedule). All (IsSound readable c) s.events) c.schedules
  pub standing :
      All (λ (i : StandingItem). i.enabled ≡ true → IsSound readable c i.event) c.standing_items
  pub weekdays :
      All
        (λ (w : String × Option String).
          (n : String) → w.1 ≡ some n → n ≢ "" → Names (λ (s : BellSchedule). s.name) c.schedules n)
        c.calendar.weekday_defaults
  pub overrides :
      All
        (λ (o : ℕ × String). Names (λ (s : BellSchedule). s.name) c.schedules o.1)
        c.calendar.overrides
  pub ranges :
      All
        (λ (r : DateRangeRule). Names (λ (s : BellSchedule). s.name) c.schedules r.schedule)
        c.calendar.date_ranges

-- In a configuration that `load_config` finds no error in: every destination that a zone names is
-- there; every event of a schedule and of an enabled standing item has a zone that is there, a
-- readable sound and pre-tone, no more repeats than the safety limit and a time in the safety window,
-- which may go past midnight; and every schedule that the calendar names, as the default of a
-- weekday, an override or the schedule of a date range, is there.
pub no_errors-Consistent :
    (readable : String → Bool) (c : Loaded) → config_errors readable c ≡ [] → Consistent readable c
unfolding config_errors referenced
no_errors-Consistent readable c h =
    let (h3, calendar) = append_nil _ (calendar_errors c.schedules (referenced c.calendar)) h in
    let (h2, events) =
      append_nil _ (event_errors readable c (all_events c.schedules c.standing_items)) h3 in
    let (h1, _) = append_nil _ (wire_errors c.wire_format c.destinations) h2 in
    let (_, zones) = append_nil _ (zone_errors c.destinations c.zones) h1 in
    let (rung, standing) =
      events-All (IsSound readable c) c.schedules c.standing_items
        (event_errors-All readable c (all_events c.schedules c.standing_items) events) in
    let there = Names (λ (s : BellSchedule). s.name) c.schedules in
    let names = weekday_names c.calendar.weekday_defaults in
    let dated = map (λ (o : ℕ × String). o.1) c.calendar.overrides in
    let (days, ranges) =
      All-split there (names ++ dated)
        (map (λ (r : DateRangeRule). r.schedule) c.calendar.date_ranges)
        (calendar_errors-All c.schedules (referenced c.calendar) calendar) in
    let (weekdays, overrides) = All-split there names dated days in
    record {
      zones = zone_errors-All c.destinations c.zones zones;
      events = rung;
      standing = standing;
      weekdays = weekdays-All there c.calendar.weekday_defaults weekdays;
      overrides = All-unmap there _ c.calendar.overrides overrides;
      ranges = All-unmap there _ c.calendar.date_ranges ranges;
    }
