-- ===== src/Scheduler/Fire/Outcome.antt =====
-- What one call of `fire` does when no other writes to the database meanwhile.
use school_bells.Prelude.{
  ℕ, ◌<◌, ◌≡◌, ◌↔◌, ◌⊎◌, refl, ap, sym, String, Bool, true, false, ◌∙◌, Option, none, some, arith,
  leb, Option-cases, is_some, inl, inr,
}
use mathlib.Core.Option.{some-injective}
use mathlib.Core.Bool.{false≢true}
use school_bells.Safety.{SafetyDecision, evaluate_fire}
use school_bells.Safety.Rules.{MayFire, evaluate_fire_iff}
use school_bells.Fires.{Tables, has_attempt, result_of, reached}
use school_bells.Fires.Claims.{record_once_iff, record_once_effect, result-update, result-record}
use school_bells.Scheduler.Fire.{
  FireRequest, Transmission, completed, raised, day_of, key_of_request, prepare, claim, conclude,
  config_changed, is_late, fire_check, after_prepare, after_claim, fire, Fired,
}

-- The conditions under which `fire` calls `transmit`.
pub record Rings (r : FireRequest) (t : Tables) : Type 0 where
  pub no_restore : r.restore_marker ≡ false
  pub same_config : config_changed r.expected_config_hash r.config_hash ≡ false
  pub on_time : is_late r ≡ false
  pub first : has_attempt (day_of r) (key_of_request r) t ≡ false
  pub safe : MayFire (fire_check r t)

prepare_iff : (r : FireRequest) (t : Tables) → ((prepare r t).1 ≡ none) ↔ Rings r t
unfolding prepare
prepare_iff r t = (forth, back)
  where
    forth : (prepare r t).1 ≡ none → Rings r t
    forth h = record {
      no_restore = ground arith;
      same_config = ground arith;
      on_time = ground arith;
      first = ground arith;
      safe = (evaluate_fire_iff (fire_check r t)).0 (ground arith);
    }

    back : Rings r t → (prepare r t).1 ≡ none
    back c = simp (
      c.no_restore,
      c.same_config,
      c.on_time,
      c.first,
      (evaluate_fire_iff (fire_check r t)).1 c.safe,
    )

prepare-ready : (r : FireRequest) (t : Tables) → Rings r t → prepare r t ≡ (t, none)
unfolding prepare
prepare-ready r t c =
    simp (
      c.no_restore,
      c.same_config,
      c.on_time,
      c.first,
      (evaluate_fire_iff (fire_check r t)).1 c.safe,
    )

claim-ready : (r : FireRequest) (t : Tables) → Rings r t → (claim r t).1 ≡ true
unfolding claim fire_check reached
claim-ready r t c = (record_once_iff _ _ _ _ _ _ _ t).1 (c.first, below c.safe.below_cap)
  where
    below : {m n : ℕ} → n < m → leb m n ≡ false
    below h = ground arith

after_claim-true :
    (r : FireRequest) (outcome : Transmission) (c : Tables × Bool)
    → (after_claim r outcome c).transmitted ≡ c.1
unfolding after_claim
after_claim-true r outcome (t, true) = refl
after_claim-true r outcome (t, false) = refl

after_prepare-none :
    (r : FireRequest) (outcome : Transmission) (p : Tables × Option SafetyDecision)
    → (after_prepare r outcome p).transmitted ≡ true
    → p.1 ≡ none
unfolding after_prepare
after_prepare-none r outcome (t, none) h = refl
after_prepare-none r outcome (t, some d) h = cc

-- `fire` calls `transmit` exactly when no restore is under way, the configuration is the one that
-- was reviewed, the event is manual or at most 60 seconds late, its key has no attempt today, and
-- every safety rule allows it; the second look at the daily cap never stops a call that runs alone.
pub fire-Rings_iff :
    (r : FireRequest) (outcome : Transmission) (t : Tables)
    → ((fire r outcome t).transmitted ≡ true) ↔ Rings r t
unfolding fire
fire-Rings_iff r outcome t = (
  λ h. (prepare_iff r t).0 (after_prepare-none r outcome (prepare r t) h),
  λ c.
      ap (λ (p : Tables × Option SafetyDecision). (after_prepare r outcome p).transmitted)
        (prepare-ready r t c)
      ∙ after_claim-true r outcome (claim r t)
      ∙ claim-ready r t c,
)

after_claim-allowed :
    (r : FireRequest) (outcome : Transmission) (c : Tables × Bool)
    → ((after_claim r outcome c).decision.allowed ≡ true) ↔ ((c.1 ≡ true) × (outcome ≡ completed))
unfolding after_claim conclude
after_claim-allowed r completed (t, true) = ground arith
after_claim-allowed r (raised e) (t, true) = ground arith
after_claim-allowed r completed (t, false) = ground arith
after_claim-allowed r (raised e) (t, false) = ground arith

abbrev pub status_of : Transmission → String
status_of completed = "success"
status_of (raised _) = "failed"

module _ (r : FireRequest) (outcome : Transmission) (t : Tables) where
  abbrev result : Tables → Option String
  result = result_of (day_of r) (key_of_request r)

  fire-ready : Rings r t → fire r outcome t ≡ after_claim r outcome (claim r t)
  unfolding fire
  fire-ready c = ap (after_prepare r outcome) (prepare-ready r t c)

  after_claim-result :
      (c : Tables × Bool)
      → c.1 ≡ true
      → has_attempt (day_of r) (key_of_request r) c.0 ≡ true
      → result (after_claim r outcome c).tables ≡ some (status_of outcome)
  unfolding after_claim
  after_claim-result (u, true) e h = conclude-result outcome
    where
      conclude-result : (o : Transmission) → result (conclude r o u).0 ≡ some (status_of o)
      conclude-result completed = unfold conclude in result-update _ _ _ _ u h
      conclude-result (raised x) = unfold conclude in result-update _ _ _ _ u h
  after_claim-result (u, false) e h = cc

  ring-result : Rings r t → result (fire r outcome t).tables ≡ some (status_of outcome)
  ring-result c =
      ap (λ (f : Fired). result f.tables) (fire-ready c)
      ∙ after_claim-result (claim r t) (claim-ready r t c) (claimed (claim-ready r t c))
    where
      claimed :
          (claim r t).1 ≡ true → has_attempt (day_of r) (key_of_request r) (claim r t).0 ≡ true
      claimed e = unfold claim in ((record_once_effect _ _ _ _ _ _ _ t).0 (unfold claim in e)).0

  after_prepare-some :
      (p : Tables × Option SafetyDecision) (d : SafetyDecision)
      → p.1 ≡ some d
      → (after_prepare r outcome p).decision ≡ d
  unfolding after_prepare
  after_prepare-some (u, none) d e = cc
  after_prepare-some (u, some x) d e = some-injective x d e

  prepare-refuses : (d : SafetyDecision) → (prepare r t).1 ≡ some d → d.allowed ≡ false
  unfolding prepare
  prepare-refuses d e = ground arith

  allowed-Rings : (fire r outcome t).decision.allowed ≡ true → Rings r t × (outcome ≡ completed)
  allowed-Rings h = elim (Option-cases (prepare r t).1) [
    | inl e ↦
        let c = (prepare_iff r t).0 e in
        (
          c,
          ((after_claim-allowed r outcome (claim r t)).0
              (ap (λ (f : Fired). f.decision.allowed) (sym (fire-ready c)) ∙ h)).1,
        )
    | inr (d, e) ↦ absurd (
        false≢true (
          sym (prepare-refuses d e)
          ∙ ap (λ (x : SafetyDecision). x.allowed) (sym (after_prepare-some (prepare r t) d e))
          ∙ (unfold fire in h)))
  ]

  Rings-allowed : Rings r t → outcome ≡ completed → (fire r outcome t).decision.allowed ≡ true
  Rings-allowed c o =
      ap (λ (f : Fired). f.decision.allowed) (fire-ready c)
      ∙ (after_claim-allowed r outcome (claim r t)).1 (claim-ready r t c, o)

  after_prepare-tables :
      (p : Tables × Option SafetyDecision)
      → is_some p.1 ≡ true
      → (after_prepare r outcome p).tables ≡ p.0
  unfolding after_prepare
  after_prepare-tables (u, none) h = cc
  after_prepare-tables (u, some d) h = refl

  module _ (open_now : r.restore_marker ≡ false)
      (same : config_changed r.expected_config_hash r.config_hash ≡ false)
      (fresh : has_attempt (day_of r) (key_of_request r) t ≡ false) where
    prepare-late :
        is_late r ≡ true
        → (is_some (prepare r t).1 ≡ true) × (result (prepare r t).0 ≡ some "missed")
    unfolding prepare reached
    prepare-late late =
        simp (open_now, same, late) (refl, result-record _ _ _ _ _ _ none t fresh refl)

    prepare-unsafe :
        is_late r ≡ false
        → (evaluate_fire (fire_check r t)).allowed ≡ false
        → (is_some (prepare r t).1 ≡ true) × (result (prepare r t).0 ≡ some "blocked")
    unfolding prepare reached
    prepare-unsafe late no_fire =
        simp (open_now, same, late, fresh, no_fire)
          (refl, result-record _ _ _ _ _ _ none t fresh refl)

  ends-result :
      (word : String)
      → (is_some (prepare r t).1 ≡ true) × (result (prepare r t).0 ≡ some word)
      → result (fire r outcome t).tables ≡ some word
  unfolding fire
  ends-result word h = ap result (after_prepare-tables (prepare r t) h.0) ∙ h.1

  abbrev Stop : Type 0
  Stop =
      (r.restore_marker ≡ true)
      ⊎ (config_changed r.expected_config_hash r.config_hash ≡ true)
      ⊎ ((is_late r ≡ false) × (has_attempt (day_of r) (key_of_request r) t ≡ true))

  prepare-stopped : Stop → (is_some (prepare r t).1 ≡ true) × ((prepare r t).0 ≡ t)
  unfolding prepare
  prepare-stopped h = ground arith

  stopped : Stop → (fire r outcome t).tables ≡ t
  unfolding fire
  stopped h = after_prepare-tables (prepare r t) (prepare-stopped h).0 ∙ (prepare-stopped h).1

  -- How a call of `fire` that runs alone ends. It reports success exactly when it called `transmit`
  -- and that returned. A call that transmits leaves the result of the transmission in the event's
  -- row, and never the claim's own "started". A call that comes too late leaves "missed" and one
  -- that a safety rule stops leaves "blocked", where the key had no attempt. One that finds a
  -- restore under way, another configuration or an attempt leaves the tables as they were.
  pub fire_outcome :
      (((fire r outcome t).decision.allowed ≡ true) ↔ (Rings r t × (outcome ≡ completed)))
      × (Rings r t → result (fire r outcome t).tables ≡ some (status_of outcome))
      × (r.restore_marker ≡ false
          → config_changed r.expected_config_hash r.config_hash ≡ false
          → has_attempt (day_of r) (key_of_request r) t ≡ false
          → ((is_late r ≡ true) → result (fire r outcome t).tables ≡ some "missed")
            × ((is_late r ≡ false)
                → (evaluate_fire (fire_check r t)).allowed ≡ false
                → result (fire r outcome t).tables ≡ some "blocked"))
      × ((r.restore_marker ≡ true)
            ⊎ (config_changed r.expected_config_hash r.config_hash ≡ true)
            ⊎ ((is_late r ≡ false) × (has_attempt (day_of r) (key_of_request r) t ≡ true))
          → (fire r outcome t).tables ≡ t)
  fire_outcome = (
    (allowed-Rings, λ h. Rings-allowed h.0 h.1),
    ring-result,
    λ a b c. (
      λ late. ends-result "missed" (prepare-late a b c late),
      λ late no_fire. ends-result "blocked" (prepare-unsafe a b c late no_fire),
    ),
    stopped,
  )
