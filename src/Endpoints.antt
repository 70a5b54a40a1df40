-- ===== src/Endpoints.antt =====
-- bell/monitor.py: the registry of the destinations' health, with its circuit breaker;
-- bell/protocols/base.py: the outcome of a delivery. A dictionary is the list of its values, whose
-- keys are their names; the clocks' readings are arguments, in microseconds.
pub mod Webhook
pub mod Retries
pub mod Circuit
pub mod Probe
use school_bells.Prelude.{
  ℕ, ◌+◌, String, Bool, true, false, ◌&&◌, ◌||◌, not, List, [], ◌∷◌, Option, none, some, leb, ltb,
  if◌then◌else◌, str_eq, any, map, select, is_some,
}
use school_bells.Config.{Protocol, multicast, sip, http, Destination, by_name}

pub record DeliveryOutcome : Type 0 where
  pub destination : String
  pub protocol : Protocol
  pub success : Bool
  pub status : String
  pub detail : String
  pub attempts : ℕ
  pub duration : ℕ

pub data HealthState : Type 0 where
  unknown healthy unhealthy circuit_open : HealthState

pub record EndpointHealth : Type 0 where
  pub name : String
  pub protocol : Protocol
  pub state : HealthState
  pub detail : String
  pub last_checked : Option String
  pub last_success : Option String
  pub consecutive_failures : ℕ
  pub circuit_open_until : ℕ

pub record EndpointRegistry : Type 0 where
  pub failure_threshold : ℕ
  pub cooldown : ℕ
  pub items : List EndpointHealth

unfoldable pub same_protocol : Protocol → Protocol → Bool
same_protocol multicast multicast = true
same_protocol multicast sip = false
same_protocol multicast http = false
same_protocol sip multicast = false
same_protocol sip sip = true
same_protocol sip http = false
same_protocol http multicast = false
same_protocol http sip = false
same_protocol http http = true

unfoldable pub endpoint_health : String → Protocol → EndpointHealth
endpoint_health name protocol = record {
  name = name;
  protocol = protocol;
  state = unknown;
  detail = "not checked";
  last_checked = none;
  last_success = none;
  consecutive_failures = 0;
  circuit_open_until = 0;
}

-- `_items.get(name)`
unfoldable pub health_of : String → List EndpointHealth → Option EndpointHealth
health_of name [] = none
health_of name (h ∷ hs) = if str_eq h.name name then some h else health_of name hs

-- `_items[health.name] = health`
unfoldable pub put_health : EndpointHealth → List EndpointHealth → List EndpointHealth
put_health health [] = health ∷ []
put_health health (h ∷ hs) =
    if str_eq h.name health.name then health ∷ hs else h ∷ put_health health hs

unfoldable pub known_or_new : Option EndpointHealth → String → Protocol → EndpointHealth
unfolding same_protocol endpoint_health
known_or_new none name protocol = endpoint_health name protocol
known_or_new (some health) name protocol =
    if same_protocol health.protocol protocol then health else endpoint_health name protocol

-- What `record` writes into a destination's health.
unfoldable pub updated : ℕ → ℕ → String → ℕ → DeliveryOutcome → EndpointHealth → EndpointHealth
updated threshold cooldown now clock outcome health =
    if outcome.success
    then record health {
      last_checked = some now;
      detail = outcome.detail;
      state = healthy;
      last_success = some now;
      consecutive_failures = 0;
      circuit_open_until = 0;
    }
    else let failures = health.consecutive_failures + 1 in
      if leb threshold failures
      then record health {
        last_checked = some now;
        detail = outcome.detail;
        state = circuit_open;
        consecutive_failures = failures;
        circuit_open_until = clock + cooldown;
      }
      else record health {
        last_checked = some now;
        detail = outcome.detail;
        state = unhealthy;
        consecutive_failures = failures;
      }

unfoldable pub record_outcome : String → ℕ → DeliveryOutcome → EndpointRegistry → EndpointRegistry
unfolding health_of known_or_new updated put_health
record_outcome now clock outcome registry = record registry {
  items =
      put_health
        (updated registry.failure_threshold registry.cooldown now clock outcome (
          known_or_new (health_of outcome.destination registry.items) outcome.destination
            outcome.protocol))
        registry.items;
}

-- `_items` after both loops of `reconcile`; the configured destinations are the enabled ones.
reconciled : List Destination → List EndpointHealth → List EndpointHealth
unfolding same_protocol endpoint_health
reconciled configured [] = []
reconciled configured (h ∷ hs) =
    let rest = reconciled configured hs in
    elim (by_name (λ (d : Destination). d.name) h.name configured) [
      | none ↦ rest
      | some d ↦ known_or_new (some h) h.name d.protocol ∷ rest
    ]

unfoldable pub reconcile : List Destination → EndpointRegistry → EndpointRegistry
unfolding reconciled
reconcile destinations registry = record registry {
  items = reconciled (select (λ (d : Destination). d.enabled) destinations) registry.items;
}

-- Whether a destination's health, if it has one, lets it be tried.
unfoldable pub closed : Option EndpointHealth → ℕ → Bool
closed none clock = true
closed (some health) clock = leb health.circuit_open_until clock

unfoldable pub should_attempt : EndpointRegistry → ℕ → Destination → Bool
unfolding closed health_of
should_attempt registry clock d =
    if d.required then true else closed (health_of d.name registry.items) clock
