-- ===== src/Service/Report.antt =====
-- What `transmit_event` of bell/service.py leaves: the last fire, and the alert of a failure.
use school_bells.Prelude.{ℕ, String, true, false, List, Option, none, some, map}
use school_bells.Prelude.Results.{Result, ok, err}
use school_bells.Dates.{◌&◌}
use school_bells.Config.{Destination, Zone, BellEvent, by_name}
use school_bells.Delivery.{DeliveryReport, enabled_destinations}
use school_bells.Alerts.{Settings as AlertSettings, Table, NewAlert, enqueue}
use school_bells.Service.{LastFire, Played, outcomes_of, time_of}

-- `last_fire` after a success and after a failure.
unfoldable pub success_fire :
    String → String → Zone → List Destination → BellEvent → List DeliveryReport → LastFire
success_fire started schedule zone destinations event reports = record {
  timestamp = started;
  schedule_name = schedule;
  event_label = event.label;
  zone = zone.name;
  channel = zone.channel;
  destinations = map (λ (d : Destination). d.name) destinations;
  sound_file = event.sound;
  priority = event.priority;
  repeat_count = some event.repeat_count;
  delivery_outcomes = outcomes_of reports;
  duration = some (time_of reports);
  succeeded = true;
  detail = none;
}

unfoldable pub failed_fire :
    String → String → Zone → List Destination → BellEvent → List DeliveryReport → String → LastFire
failed_fire started schedule zone destinations event reports detail = record {
  timestamp = started;
  schedule_name = schedule;
  event_label = event.label;
  zone = zone.name;
  channel = zone.channel;
  destinations = map (λ (d : Destination). d.name) destinations;
  sound_file = event.sound;
  priority = event.priority;
  repeat_count = none;
  delivery_outcomes = outcomes_of reports;
  duration = none;
  succeeded = false;
  detail = some detail;
}

-- What the runtime holds beside its slots: the last fire, and the outbox of its alerts.
pub record Runtime (S : Type 0) : Type 0 where
  pub slots : S
  pub last_fire : Option LastFire
  pub outbox : Table

unfoldable pub failed_alert : (LastFire → String × String) → BellEvent → Zone → LastFire → NewAlert
failed_alert stamped event zone fire = record {
  identity = (stamped fire).0;
  kind = "bell_transmission_failed";
  message = event.label & " failed in zone " & zone.name;
  payload = (stamped fire).1;
  force = false;
}

-- What `transmit_event` does with the end of the page. `stamped` gives an alert its identity and its
-- JSON document.
unfoldable pub close_fire :
    {S : Type 0}
    → AlertSettings
    → (window : ℕ) → (now : ℕ) → (LastFire → String × String)
    → (success : List DeliveryReport → LastFire)
    → (failure : List DeliveryReport → String → LastFire) → BellEvent
    → Zone
    → Runtime S
    → Played S
    → Runtime S × Result (List DeliveryReport)
unfolding failed_alert
close_fire alerts window now stamped success failure event zone r p = elim p.ended [
  | ok _ ↦ (record r { slots = p.left; last_fire = some (success p.reports) }, ok p.reports)
  | err e ↦ (
    record {
      slots = p.left;
      last_fire = some (failure p.reports e);
      outbox =
          (enqueue alerts window now (failed_alert stamped event zone (failure p.reports e))
            r.outbox).0;
    },
    err e,
  )
]

unfoldable pub transmit_to :
    {S : Type 0}
    → (BellEvent → Zone → S → Played S)
    → AlertSettings
    → ℕ
    → ℕ
    → (LastFire → String × String)
    → String
    → String
    → BellEvent
    → Zone
    → List Destination
    → Runtime S
    → Runtime S × Result (List DeliveryReport)
unfolding close_fire success_fire failed_fire
transmit_to attempt alerts window now stamped started schedule event zone destinations r =
    close_fire alerts window now stamped (success_fire started schedule zone destinations event)
      (failed_fire started schedule zone destinations event) event zone r
      (attempt event zone r.slots)

-- `transmit_event`; a zone or a destination that the configuration does not have is a KeyError
-- outside of the `try`. `attempt` is `attempt_page` with its other arguments.
unfoldable pub transmit_event :
    {S : Type 0}
    → (BellEvent → Zone → S → Played S)
    → AlertSettings
    → ℕ
    → ℕ
    → (LastFire → String × String)
    → String
    → String
    → List Zone
    → List Destination
    → BellEvent
    → Runtime S
    → Runtime S × Result (List DeliveryReport)
unfolding transmit_to
transmit_event attempt alerts window now stamped started schedule zones configured event r =
    elim (by_name (λ (z : Zone). z.name) event.zone zones) [
      | none ↦ (r, err event.zone)
      | some zone ↦ elim (enabled_destinations configured zone.destinations) [
        | err e ↦ (r, err e)
        | ok destinations ↦
            transmit_to attempt alerts window now stamped started schedule event zone destinations r
      ]
    ]
