-- ===== src/Config.antt =====
-- bell/config.py: the validated configuration that the runtime reads. Durations that the source
-- holds as floats are in microseconds, file paths are texts.
pub mod Check
pub mod Consistent
use school_bells.Prelude.{ℕ, String, Bool, true, false, List, [], ◌∷◌, Option, none, some, str_eq}

pub data Protocol : Type 0 where
  multicast sip http : Protocol

pub data WireName : Type 0 where
  plain_rtp poly_group_page : WireName

pub data CodecName : Type 0 where
  pcmu pcma g722 : CodecName

pub data SipTransport : Type 0 where
  udp tcp tls : SipTransport

pub data BusyPolicy : Type 0 where
  skip queue preempt : BusyPolicy

pub record Destination : Type 0 where
  pub name : String
  pub protocol : Protocol
  pub group : Option String
  pub port : ℕ
  pub ttl : ℕ
  pub wire_format : Option WireName
  pub codecs : List CodecName
  pub sip_uri : Option String
  pub sip_host : Option String
  pub sip_transport : SipTransport
  pub sip_username : Option String
  pub sip_password_env : Option String
  pub tls_server_name : Option String
  pub tls_ca_file : Option String
  pub webhook_url : Option String
  pub webhook_secret_env : Option String
  pub allow_insecure_http : Bool
  pub healthcheck_url : Option String
  pub timeout : ℕ
  pub retries : ℕ
  pub required : Bool
  pub enabled : Bool

pub record Zone : Type 0 where
  pub name : String
  pub channel : ℕ
  pub destinations : List String
  pub description : String

pub record BellEvent : Type 0 where
  pub time : ℕ
  pub sound : String
  pub zone : String
  pub label : String
  pub pre_tone : Option String
  pub repeat_count : ℕ
  pub repeat_interval : ℕ
  pub priority : ℕ
  pub busy_policy : BusyPolicy

pub record BellSchedule : Type 0 where
  pub name : String
  pub events : List BellEvent

pub record StandingItem : Type 0 where
  pub event : BellEvent
  pub enabled : Bool

-- Dates are ordinals, both ends included.
pub record DateRangeRule : Type 0 where
  pub start : ℕ
  pub end : ℕ
  pub schedule : String

pub record CalendarRule : Type 0 where
  pub weekday_defaults : List (String × Option String)
  pub overrides : List (ℕ × String)
  pub date_ranges : List DateRangeRule
  pub no_bell_dates : List (ℕ × String)

-- The later of two items with one name.
unfoldable pub later_or {ℓ} : {A : Type ℓ} → Option A → Bool → A → Option A
later_or (some y) same x = some y
later_or none true x = some x
later_or none false x = none

-- `{item.name: item for item in items}`: of two items with one name the later one stays.
unfoldable pub by_name {ℓ} : {A : Type ℓ} → (A → String) → String → List A → Option A
unfolding later_or
by_name name_of key [] = none
by_name name_of key (x ∷ xs) = later_or (by_name name_of key xs) (str_eq (name_of x) key) x
