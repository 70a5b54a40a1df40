-- ===== src/Service/Health/Failing.antt =====
-- What a failed outcome of bell/monitor.py's registry does to the readiness of bell/service.py.
use school_bells.Prelude.{
  ℕ, ◌+◌, ◌≡◌, ◌∙◌, refl, sym, ap, String, Bool, true, false, ◌&&◌, ◌||◌, List, [], ◌∷◌, Option,
  none, some, leb, any, All, Bool-cases, inl, inr, arith, str_eq, eq_iff,
}
use mathlib.Core.Path.{subst}
use mathlib.Core.Option.{some-injective}
use school_bells.Config.{Destination, Protocol}
use school_bells.Endpoints.{
  EndpointHealth, EndpointRegistry, DeliveryOutcome, record_outcome, health_of, put_health, updated,
  known_or_new, same_protocol, endpoint_health,
}
use school_bells.Service.Health.{
  Surroundings, required_names, is_failing, is_ready, ready_status, NotRequired,
}
use school_bells.Service.Health.Rules.{not_required, Well, is_ready_iff}

fails_at : String → EndpointHealth → Bool
fails_at name h = str_eq h.name name && is_failing h.state

put_health-fails :
    (name : String) (health : EndpointHealth) (items : List EndpointHealth)
    → health.name ≡ name
    → is_failing health.state ≡ true
    → any (fails_at name) (put_health health items) ≡ true
unfolding put_health fails_at
put_health-fails name health [] same failing = rw ((eq_iff health.name name).1 same, failing) refl
put_health-fails name health (h ∷ hs) same failing = elim (Bool-cases (str_eq h.name health.name)) [
  | inl hit ↦ rw (hit, put_health, (eq_iff health.name name).1 same, failing) refl
  | inr miss ↦
      rw (miss, put_health)
        (or_right (fails_at name h) _ (put_health-fails name health hs same failing))
]
  where
    or_right : (a b : Bool) → b ≡ true → (a || b) ≡ true
    or_right a b h = ground arith

health_of-name :
    (name : String) (items : List EndpointHealth) (h : EndpointHealth)
    → health_of name items ≡ some h
    → h.name ≡ name
unfolding health_of
health_of-name name [] h = λ e. absurd (cc (e))
health_of-name name (x ∷ xs) h = elim (Bool-cases (str_eq x.name name)) [
  | inl hit ↦
      rw (hit, health_of)
        (λ e.
          ap (λ (y : EndpointHealth). y.name) (sym (some-injective x h e))
          ∙ (eq_iff x.name name).0 hit)
  | inr miss ↦ rw (miss, health_of) (λ e. health_of-name name xs h e)
]

known_or_new-name :
    (o : Option EndpointHealth) (name : String) (protocol : Protocol)
    → ((h : EndpointHealth) → o ≡ some h → h.name ≡ name)
    → (known_or_new o name protocol).name ≡ name
unfolding known_or_new endpoint_health
known_or_new-name none name protocol k = refl
known_or_new-name (some h) name protocol k = elim (Bool-cases (same_protocol h.protocol protocol)) [
  | inl same ↦ rw (same, known_or_new) (k h refl)
  | inr other ↦ rw (other, known_or_new) refl
]

updated-fails :
    (threshold cooldown : ℕ) (now : String) (clock : ℕ) (outcome : DeliveryOutcome)
    (h : EndpointHealth)
    → outcome.success ≡ false
    → ((updated threshold cooldown now clock outcome h).name ≡ h.name)
      × (is_failing (updated threshold cooldown now clock outcome h).state ≡ true)
unfolding updated is_failing
updated-fails threshold cooldown now clock outcome h failed =
    elim (Bool-cases (leb threshold (h.consecutive_failures + 1))) [
      | inl open_now ↦ rw (failed, open_now, updated) (refl, refl)
      | inr counted ↦ rw (failed, counted, updated) (refl, refl)
    ]

not-Well :
    (name : String) (ds : List Destination) (items : List EndpointHealth)
    → any (str_eq name) (required_names ds) ≡ true
    → any (fails_at name) items ≡ true
    → All (Well ds) items
    → ⊥
unfolding fails_at
not-Well name ds [] needed found = λ w. cc (found)
not-Well name ds (h ∷ hs) needed found = elim (Bool-cases (fails_at name h)) [
  | inr fine ↦ λ w. not-Well name ds hs needed (later (fails_at name h) _ fine found) w.1
  | inl fails ↦ λ w.
      let (same, failing) = both (str_eq h.name name) (is_failing h.state) fails in
      let e = (eq_iff h.name name).0 same in
      cc (needed, (not_required name ds).1 (subst (λ n. NotRequired n ds) e (w.0 failing)))
]
  where
    later : (a b : Bool) → a ≡ false → (a || b) ≡ true → b ≡ true
    later a b h k = ground arith

    both : (a b : Bool) → (a && b) ≡ true → (a ≡ true) × (b ≡ true)
    both a b h = ground arith

-- As soon as an outcome is recorded that is a failure of an enabled and required destination, whether
-- a page or the monitor reports it, the service is not ready, whatever else is well.
pub record_outcome-not_ready :
    (s : Surroundings) (ds : List Destination) (registry : EndpointRegistry) (now : String)
    (clock : ℕ) (outcome : DeliveryOutcome)
    → any (str_eq outcome.destination) (required_names ds) ≡ true
    → outcome.success ≡ false
    → is_ready s ds (record_outcome now clock outcome registry).items ≡ false
unfolding record_outcome ready_status
record_outcome-not_ready s ds registry now clock outcome needed failed =
    let old =
      known_or_new (health_of outcome.destination registry.items) outcome.destination
        outcome.protocol in
    let (same, failing) =
      updated-fails registry.failure_threshold registry.cooldown now clock outcome old failed in
    let named =
      known_or_new-name (health_of outcome.destination registry.items) outcome.destination
        outcome.protocol (λ h e. health_of-name outcome.destination registry.items h e) in
    let found =
      put_health-fails outcome.destination
        (updated registry.failure_threshold registry.cooldown now clock outcome old) registry.items
        (same ∙ named) failing in
    elim (Bool-cases (is_ready s ds (record_outcome now clock outcome registry).items)) [
      | inr no_more ↦ no_more
      | inl ready ↦ absurd (
          not-Well outcome.destination ds _ needed found
            ((is_ready_iff s ds (record_outcome now clock outcome registry).items).0
              (ap ready_status ready)).well)
    ]
