-- ===== src/Service/Health.antt =====
-- Readiness in bell/service.py: `health_data`, the reasons that make the service degraded, and what
-- `/ready` answers.
pub mod Rules
pub mod Failing
use school_bells.Prelude.{
  ℕ, ◌+◌, ◌*◌, ◌≤◌, ◌<◌, ◌≡◌, ◌≢◌, ◌∙◌, ◌⊎◌, ◌↔◌, refl, sym, ap, String, Bool, true, false, ◌&&◌,
  ◌||◌, not, List, [], ◌∷◌, ◌++◌, Option, none, some, leb, ltb, if◌then◌else◌, any, All, Bool-cases,
  inl, inr, arith, leb→le, is_some, select, map, str_eq, eq_iff, eq_refl,
}
use school_bells.Config.{Destination}
use school_bells.Endpoints.{
  EndpointHealth, EndpointRegistry, HealthState, healthy, unhealthy, circuit_open, unknown,
  DeliveryOutcome, record_outcome, health_of, put_health, updated, known_or_new,
}
use school_bells.Delivery.{is_empty}

-- What `health_data` reads outside of the registry; `synchronized` is none where the state of the
-- clock is not known.
pub record Surroundings : Type 0 where
  pub restore_incomplete : Bool
  pub synchronized : Option Bool
  pub clock_sync_required : Bool
  pub scheduler_running : Bool
  pub monitor_running : Bool
  pub disk_free : ℕ

unfoldable pub required_names : List Destination → List String
required_names ds =
    map (λ (d : Destination). d.name) (select (λ (d : Destination). d.enabled && d.required) ds)

unfoldable pub is_failing : HealthState → Bool
is_failing unhealthy = true
is_failing circuit_open = true
is_failing healthy = false
is_failing unknown = false

unfoldable pub unhealthy_required : List Destination → List EndpointHealth → List String
unfolding required_names is_failing
unhealthy_required ds items =
    map (λ (h : EndpointHealth). h.name)
      (select
        (λ (h : EndpointHealth). any (str_eq h.name) (required_names ds) && is_failing h.state)
        items)

-- `required - known`, in the order of the configuration; `sorted` orders what is shown of it.
unfoldable pub unknown_required : List Destination → List EndpointHealth → List String
unfolding required_names
unknown_required ds items =
    select (λ name. not (any (λ (h : EndpointHealth). str_eq h.name name) items))
      (required_names ds)

unfoldable pub is_synchronized : Option Bool → Bool
is_synchronized none = false
is_synchronized (some b) = b

unfoldable pub reason : Bool → String → List String
reason true text = text ∷ []
reason false text = []

unfoldable pub readiness_reasons :
    Surroundings → List Destination → List EndpointHealth → List String
unfolding unhealthy_required unknown_required is_synchronized reason
readiness_reasons s ds items =
    reason s.restore_incomplete "Restore maintenance requires completion or recovery"
    ++ (reason (not (is_empty (unhealthy_required ds items))) "required endpoint unhealthy"
        ++ (reason (not (is_empty (unknown_required ds items))) "required endpoint not checked"
            ++ (reason (not (is_synchronized s.synchronized) && s.clock_sync_required)
                  "clock not synchronized"
                ++ (reason (not s.scheduler_running) "scheduler not running"
                    ++ (reason (not s.monitor_running) "endpoint monitor not running"
                        ++ reason (ltb s.disk_free (256 * 1024 * 1024))
                            "storage critically low")))))

unfoldable pub is_ready : Surroundings → List Destination → List EndpointHealth → Bool
unfolding readiness_reasons
is_ready s ds items = is_empty (readiness_reasons s ds items)

-- The status of `/ready`.
unfoldable pub ready_status : Bool → ℕ
ready_status ready = if ready then 200 else 503

abbrev pub is_needed : Destination → Bool
is_needed d = d.enabled && d.required

-- No enabled and required destination has the name.
abbrev pub NotRequired : String → List Destination → Type 0
NotRequired name ds = All (λ (d : Destination). is_needed d ≡ true → name ≢ d.name) ds

-- What it takes to be ready, said without the lists of names.
pub record Sound (s : Surroundings) (ds : List Destination) (items : List EndpointHealth)
    : Type 0 where
  pub restored : s.restore_incomplete ≡ false
  pub checked :
      All
        (λ (d : Destination).
          is_needed d ≡ true → any (λ (h : EndpointHealth). str_eq h.name d.name) items ≡ true)
        ds
  pub well : All (λ (h : EndpointHealth). is_failing h.state ≡ true → NotRequired h.name ds) items
  pub clock : (s.clock_sync_required ≡ false) ⊎ (s.synchronized ≡ some true)
  pub scheduler : s.scheduler_running ≡ true
  pub monitor : s.monitor_running ≡ true
  pub disk : 256 * 1024 * 1024 ≤ s.disk_free
