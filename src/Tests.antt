-- ===== src/Tests.antt =====
-- The data of the tests, and the theorems applied to it.
pub mod Rings
pub mod Pages
pub mod Packets
pub mod Endpoints
pub mod Notices
pub mod Runtime
pub mod Calls
pub mod Users
use school_bells.Prelude.{ℕ, ◌*◌, ◌+◌, String, Bool, true, false, List, [], ◌∷◌, Option, none, some}
use school_bells.Config.{
  BellEvent, BellSchedule, StandingItem, CalendarRule, DateRangeRule, skip, queue, preempt,
  Destination, Zone, http, udp, pcmu,
}
use school_bells.Dates.{Moment, east, hour, minute}
use school_bells.Safety.{Safety, FireCheck, readable}
use school_bells.Fires.{PlannedEvent, Tables}
use school_bells.Scheduler.{Bells}
use school_bells.Scheduler.Fire.{FireRequest}

abbrev pub monday : ℕ
monday = 739000

abbrev pub first_bell : BellEvent
first_bell = record {
  time = 8 * hour;
  sound = "bell.wav";
  zone = "all";
  label = "First bell";
  pre_tone = none;
  repeat_count = 1;
  repeat_interval = 0;
  priority = 50;
  busy_policy = queue;
}

abbrev pub at_eight : Moment
at_eight = record { date = monday; time = 8 * hour; offset = east 0 }

abbrev pub planned_bell : PlannedEvent
planned_bell = record {
  event = first_bell;
  source = "regular";
  scheduled_at = at_eight;
  action_id = none;
}

abbrev pub no_tables : Tables
no_tables = record {
  fire_attempts = [];
  zone_acceptance = [];
  api_requests = [];
  audit_events = [];
}

abbrev pub school_safety : Safety
school_safety = record {
  allowed_hours_start = 6 * hour;
  allowed_hours_end = 20 * hour;
  max_events_per_day = 2;
  max_repeats = 3;
  emergency_priority_threshold = 90;
  kill_switch_enabled = false;
  kill_switch_until = none;
  pause_until = none;
  pause_reason = none;
}

abbrev pub ring_now : FireRequest
ring_now = record {
  planned = planned_bell;
  now = at_eight;
  manual = false;
  override_hours = false;
  expected_config_hash = none;
  config_hash = "abc";
  safety = school_safety;
  sounds_path = "sounds";
  sound_file = readable;
  restore_marker = false;
  maintenance_marker = false;
}

abbrev pub school : Bells
school = record {
  calendar = record {
    weekday_defaults = [];
    overrides = (monday, "regular") ∷ [];
    date_ranges = [];
    no_bell_dates = [];
  };
  schedules = record { name = "regular"; events = first_bell ∷ [] } ∷ [];
  standing_items = [];
}

abbrev pub strobe : Destination
strobe = record {
  name = "strobe";
  protocol = http;
  group = none;
  port = 0;
  ttl = 1;
  wire_format = none;
  codecs = pcmu ∷ [];
  sip_uri = none;
  sip_host = none;
  sip_transport = udp;
  sip_username = none;
  sip_password_env = none;
  tls_server_name = none;
  tls_ca_file = none;
  webhook_url = some "https://strobe.example/page";
  webhook_secret_env = none;
  allow_insecure_http = false;
  healthcheck_url = none;
  timeout = 5000000;
  retries = 2;
  required = false;
  enabled = true;
}

abbrev pub gym : Zone
gym = record { name = "gym"; channel = 3; destinations = "strobe" ∷ []; description = "" }
