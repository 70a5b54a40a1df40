-- ===== src/Delivery/Required.antt =====
-- What a report of bell/delivery.py says of the required destinations.
use mathlib.Core.List.{Perm}
use mathlib.Core.Path.{subst}
use school_bells.Prelude.{
  map, ℕ, ◌≡◌, ◌⊎◌, refl, sym, ap, String, Bool, true, false, ◌&&◌, ◌||◌, not, List, [], ◌∷◌, ◌++◌,
  arith, select, any, All, str_eq, Bool-cases, inl, inr,
}
use school_bells.Prelude.Results.{
  Result, ok, err, ok-injective, not-ok-err, ensure, ensure-then, >>=-eq-ok,
}
use school_bells.Config.{Destination, Zone, WireName}
use school_bells.Endpoints.{DeliveryOutcome, EndpointRegistry, should_attempt, record_outcome}
use school_bells.Delivery.{
  skipped, groups, others, run_all, DeliveryReport, Task, Delivered, deliver, enabled_destinations,
  to_enabled, to_zone, finished, settled, settle, failed_required, is_empty, record_outcomes,
}

unfoldable pub is_required : List Destination → DeliveryOutcome → Bool
is_required destinations o =
    any (λ (d : Destination). d.required && str_eq d.name o.destination) destinations

-- No outcome of a required destination is a failure, and not all are failures.
pub record Accepted (destinations : List Destination) (outcomes : List DeliveryOutcome)
    : Type 0 where
  pub required : All (λ o. is_required destinations o ≡ true → o.success ≡ true) outcomes
  pub some_success : (outcomes ≡ []) ⊎ (any (λ (o : DeliveryOutcome). o.success) outcomes ≡ true)

none_failed :
    (destinations : List Destination) (outcomes : List DeliveryOutcome)
    → is_empty (failed_required destinations outcomes) ≡ true
    → All (λ o. is_required destinations o ≡ true → o.success ≡ true) outcomes
unfolding failed_required is_required
none_failed destinations [] = λ _. tt
none_failed destinations (o ∷ os) =
    elim (Bool-cases (is_required destinations o && not o.success)) [
      | inl bad ↦ rw (bad, select) (λ h. absurd cc)
      | inr fine ↦
          rw (fine, select)
            (λ h.
              (implied (is_required destinations o) o.success fine, none_failed destinations os h))
    ]
  where
    implied : (a b : Bool) → (a && not b) ≡ false → a ≡ true → b ≡ true
    implied a b h e = ground arith

pub settle-Accepted :
    (destinations : List Destination) (outcomes : List DeliveryOutcome)
    → settle destinations outcomes ≡ ok tt
    → Accepted destinations outcomes
unfolding settle
settle-Accepted destinations outcomes h =
    let (fine, rest) = ensure-then (is_empty (failed_required destinations outcomes)) _ _ h in
    record { required = none_failed destinations outcomes fine; some_success = one outcomes _ rest }
  where
    ensured : (b : Bool) (e : String) → ensure b e ≡ ok tt → b ≡ true
    ensured true e k = refl
    ensured false e k = absurd (not-ok-err (sym k))

    one :
        (os : List DeliveryOutcome) (e : String)
        → ensure (is_empty os || any (λ (o : DeliveryOutcome). o.success) os) e ≡ ok tt
        → (os ≡ []) ⊎ (any (λ (o : DeliveryOutcome). o.success) os ≡ true)
    one [] e k = inl refl
    one (o ∷ os) e k = inr (ensured _ e k)

-- The outcome of a destination that is not tried.
abbrev pub skip_of : Destination → DeliveryOutcome
skip_of d = record {
  destination = d.name;
  protocol = d.protocol;
  success = false;
  status = "circuit_open";
  detail = "optional destination skipped during circuit-breaker cooldown";
  attempts = 0;
  duration = 0;
}

-- The registry after the outcomes, the earliest first.
abbrev pub registered : String → ℕ → List DeliveryOutcome → EndpointRegistry → EndpointRegistry
registered now clock [] r = r
registered now clock (o ∷ os) r = registered now clock os (record_outcome now clock o r)

record_outcomes-registered :
    (now : String) (clock : ℕ) (os : List DeliveryOutcome) (r : EndpointRegistry)
    → record_outcomes now clock os r ≡ registered now clock os r
unfolding record_outcomes
record_outcomes-registered now clock [] r = refl
record_outcomes-registered now clock (o ∷ os) r =
    record_outcomes-registered now clock os (record_outcome now clock o r)

skipped-skip_of : (ds : List Destination) → map skipped ds ≡ map skip_of ds
unfolding skipped
skipped-skip_of [] = refl
skipped-skip_of (d ∷ ds) = ap (λ os. skip_of d ∷ os) (skipped-skip_of ds)

module _ (run : Task → Result (List DeliveryOutcome)) (completed : List Task → List Task)
    (by_destination : List DeliveryOutcome → List DeliveryOutcome)
    (keeps : (os : List DeliveryOutcome) → Perm (by_destination os) os) where
  -- What a page that `deliver` reports on went through: the destinations that were skipped, the
  -- outcomes of the tasks, and what became of both.
  pub record Reported (configured : List Destination) (registry : EndpointRegistry)
      (default : WireName) (now : String) (clock : ℕ) (zone : Zone) (left : Delivered)
      (report : DeliveryReport) : Type 0 where
    pub destinations : List Destination
    pub enabled : enabled_destinations configured zone.destinations ≡ ok destinations
    pub skips : List DeliveryOutcome
    pub skips_are :
        skips ≡ map skip_of (select (λ d. not (should_attempt registry clock d)) destinations)
    pub ran : List DeliveryOutcome
    pub tried :
        run_all run (
          completed (
            groups default (select (should_attempt registry clock) destinations) []
            ++ others (select (should_attempt registry clock) destinations)))
        ≡ ok ran
    pub reported : Perm report.outcomes (skips ++ ran)
    pub recorded : left.registry ≡ registered now clock (skips ++ ran) registry
    pub accepted : Accepted destinations (skips ++ ran)

  finished-Reported :
      (configured : List Destination) (registry : EndpointRegistry) (default : WireName)
      (now : String) (clock : ℕ) (cancelled : Bool) (duration : ℕ) (zone : Zone)
      (destinations : List Destination) (skips : List DeliveryOutcome)
      (tasks : Result (List DeliveryOutcome)) (report : DeliveryReport)
      → enabled_destinations configured zone.destinations ≡ ok destinations
      → skips ≡ map skip_of (select (λ d. not (should_attempt registry clock d)) destinations)
      → run_all run (
          completed (
            groups default (select (should_attempt registry clock) destinations) []
            ++ others (select (should_attempt registry clock) destinations)))
        ≡ tasks
      → (finished run completed by_destination registry now clock cancelled duration destinations
          skips tasks).report
        ≡ ok report
      → Reported configured registry default now clock zone
          (finished run completed by_destination registry now clock cancelled duration destinations
            skips tasks)
          report
  unfolding finished settled
  finished-Reported configured registry default now clock cancelled duration zone destinations skips
        (ok os) report e s t h =
      let (_, fine, built) = >>=-eq-ok (settle destinations (skips ++ os)) _ h in
      record {
        destinations = destinations;
        enabled = e;
        skips = skips;
        skips_are = s;
        ran = os;
        tried = t;
        reported =
            subst (λ (r : DeliveryReport). Perm r.outcomes (skips ++ os)) (ok-injective built)
              (keeps (skips ++ os));
        recorded = record_outcomes-registered now clock (skips ++ os) registry;
        accepted = settle-Accepted destinations (skips ++ os) fine;
      }
  finished-Reported configured registry default now clock cancelled duration zone destinations skips
        (err m) report e s t h =
      absurd (not-ok-err (sym h))

  to_zone-Reported :
      (configured : List Destination) (registry : EndpointRegistry) (default : WireName)
      (now : String) (clock : ℕ) (cancelled : Bool) (duration : ℕ) (zone : Zone)
      (m : Result (List Destination)) (report : DeliveryReport)
      → enabled_destinations configured zone.destinations ≡ m
      → (to_zone run completed by_destination registry default now clock cancelled duration zone
          m).report
        ≡ ok report
      → Reported configured registry default now clock zone
          (to_zone run completed by_destination registry default now clock cancelled duration zone
            m)
          report
  unfolding to_zone to_enabled
  to_zone-Reported configured registry default now clock cancelled duration zone (err e) report i
        h =
      absurd (not-ok-err (sym h))
  to_zone-Reported configured registry default now clock cancelled duration zone (ok []) report i
        h =
      absurd (not-ok-err (sym h))
  to_zone-Reported configured registry default now clock cancelled duration zone (ok (d ∷ ds))
        report i h =
      finished-Reported configured registry default now clock cancelled duration zone (d ∷ ds) _ _
        report i (skipped-skip_of _) refl h

  -- A page that `deliver` reports on, whatever the order its tasks complete in, where the sort by
  -- destination keeps the outcomes: there is an outcome `circuit_open` for each of the zone's enabled
  -- destinations that the circuit breaker skips, and the tasks for the others all returned; the
  -- outcomes of the report are those of the skipped destinations and of the tasks, and each of them
  -- has been recorded in the registry, those of the skipped first; no outcome of a required destination is a
  -- failure, and unless there is no outcome at all one is a success.
  pub deliver-Reported :
      (configured : List Destination) (registry : EndpointRegistry) (default : WireName)
      (now : String) (clock : ℕ) (cancelled : Bool) (duration : ℕ) (zone : Zone)
      (report : DeliveryReport)
      → (deliver run completed by_destination configured registry default now clock cancelled
          duration zone).report
        ≡ ok report
      → Reported configured registry default now clock zone
          (deliver run completed by_destination configured registry default now clock cancelled
            duration zone)
          report
  unfolding deliver
  deliver-Reported configured registry default now clock cancelled duration zone report h =
      to_zone-Reported configured registry default now clock cancelled duration zone
        (enabled_destinations configured zone.destinations) report refl h
