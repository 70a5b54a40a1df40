-- ===== src/Service/Fire.antt =====
-- What `transmit_event` of bell/service.py leaves, whichever way it ends.
use school_bells.Prelude.{
  [], ◌∷◌, ◌++◌, ◌+◌, ◌*◌, ◌-◌, ◌⊎◌, ◌||◌, true, false, none, map, any, is_some, arith,
  if◌then◌else◌, ℕ, ◌≤◌, ◌≡◌, ◌≢◌, ◌∙◌, refl, sym, ap, String, Bool, List, Option, some, leb, inl,
  inr, leb→le, Option-cases,
}
use school_bells.Prelude.Results.{
  Result, ok, err, ok-injective, err-injective, not-ok-err, ensure-then, >>=-eq-ok, Result-cases,
}
use mathlib.Core.Path.{subst}
use school_bells.Dates.{◌&◌}
use school_bells.Endpoints.{DeliveryOutcome}
use school_bells.Config.{
  WireName, poly_group_page, multicast, Destination, Zone, BellEvent, BusyPolicy, by_name,
}
use school_bells.Safety.{Safety}
use school_bells.Paging.{PageLease}
use school_bells.Delivery.{DeliveryReport, enabled_destinations}
use school_bells.Alerts.{Settings as AlertSettings, alert_key, enqueue}
use school_bells.Alerts.Outbox.{Holds, enqueue_row-Holds}
use school_bells.Service.{
  Settings, Played, LastFire, plan, total_duration, truthy, playing_time, pre_duration, uses_poly,
  pages_poly, outcomes_of, time_of,
}
use school_bells.Service.Slot.{attempt_page, page}
use school_bells.Service.Report.{
  Runtime, close_fire, success_fire, failed_fire, failed_alert, transmit_to, transmit_event,
}
use school_bells.Service.Page.{Paged, page-Paged, tones, Toneless, truthy-none, truthy-some}

-- A name of a list.
abbrev pub Among : String → List String → Type 0
Among name [] = ⊥
Among name (n ∷ names) = (n ≡ name) ⊎ Among name names

any-Among :
    (p : String → Bool) (name : String) (names : List String)
    → Among name names
    → p name ≡ true
    → any p names ≡ true
any-Among p name [] h holds = absurd h
any-Among p name (n ∷ names) (inl e) holds = rw (e, holds) refl
any-Among p name (n ∷ names) (inr more) holds =
    rw (any-Among p name names more holds) (or_true (p n))
  where
    or_true : (b : Bool) → (b || true) ≡ true
    or_true b = ground arith

pages-poly :
    (default : WireName) (configured : List Destination) (name : String) (d : Destination)
    → by_name (λ (x : Destination). x.name) name configured ≡ some d
    → d.enabled ≡ true
    → d.protocol ≡ multicast
    → (d.wire_format ≡ some poly_group_page)
      ⊎ ((d.wire_format ≡ none) × (default ≡ poly_group_page))
    → pages_poly default (by_name (λ (x : Destination). x.name) name configured) ≡ true
unfolding pages_poly
pages-poly default configured name d found enabled cast (inl own) =
    rw (found, enabled, cast, own) refl
pages-poly default configured name d found enabled cast (inr (unset, same)) =
    rw (found, enabled, cast, unset, same) refl

poly-total :
    (s : Settings) (configured : List Destination) (zone : Zone) (event : BellEvent) (main pre : ℕ)
    → uses_poly s.wire_format configured zone.destinations ≡ true
    → total_duration s configured zone event main pre
      ≡ pre
        + main * event.repeat_count
        + event.repeat_interval * (event.repeat_count - 1)
        + 1340000 * (event.repeat_count + tones event.pre_tone)
unfolding total_duration
poly-total s configured zone event main pre uses = rw (uses) (
    ap
      (λ t.
        pre
        + main * event.repeat_count
        + event.repeat_interval * (event.repeat_count - 1)
        + 1340000 * (event.repeat_count + t))
      (one (event.pre_tone)))
  where
    one : (tone : Option String) → (if is_some tone then 1 else 0) ≡ tones tone
    one none = refl
    one (some tone) = refl

plain-total :
    (s : Settings) (configured : List Destination) (zone : Zone) (event : BellEvent) (main pre : ℕ)
    → pre + main * event.repeat_count + event.repeat_interval * (event.repeat_count - 1)
      ≤ total_duration s configured zone event main pre
unfolding total_duration
plain-total s configured zone event main pre = more _ _
  where
    more : (a b : ℕ) → a ≤ a + b
    more a b = omega arith

-- The limits that a page keeps which asks for the slot: each sound, and the page with its repeats
-- and the pauses between them; where one of its destinations pages by the Poly protocol, also the
-- 1.34 seconds of alerts and ends of each delivery. A byte of sound is 125 microseconds.
pub record Planned (transcode : String → Result ℕ) (s : Settings) (configured : List Destination)
    (zone : Zone) (event : BellEvent) : Type 0 where
  pub size : ℕ
  pub pre : ℕ
  pub sound : transcode event.sound ≡ ok size
  pub plain : Toneless event.pre_tone → pre ≡ 0
  pub toned :
      (tone : String)
      → event.pre_tone ≡ some tone
      → tone ≢ ""
      → (length : ℕ) × (transcode tone ≡ ok length) × (pre ≡ length * 125)
  pub sound_fits : size * 125 ≤ s.max_audio
  pub tone_fits : pre ≤ s.max_audio
  pub page_fits :
      pre + size * 125 * event.repeat_count + event.repeat_interval * (event.repeat_count - 1)
      ≤ s.max_page
  pub poly_fits :
      (name : String) (d : Destination)
      → Among name zone.destinations
      → by_name (λ (x : Destination). x.name) name configured ≡ some d
      → d.enabled ≡ true
      → d.protocol ≡ multicast
      → (d.wire_format ≡ some poly_group_page)
        ⊎ ((d.wire_format ≡ none) × (s.wire_format ≡ poly_group_page))
      → pre
          + size * 125 * event.repeat_count
          + event.repeat_interval * (event.repeat_count - 1)
          + 1340000 * (event.repeat_count + tones event.pre_tone)
        ≤ s.max_page

plain-pre :
    (transcode : String → Result ℕ) (tone : Option String) (pre : ℕ)
    → tone ≡ none
    → pre_duration transcode tone ≡ ok pre
    → pre ≡ 0
unfolding pre_duration
plain-pre transcode none pre e h = sym (ok-injective h)
plain-pre transcode (some tone) pre e h = absurd (cc e)

name_same : (tone name : String) → some tone ≡ some name → name ≡ tone
name_same tone name e = cc (e)

toned-pre :
    (transcode : String → Result ℕ) (tone : Option String) (pre : ℕ) (name : String)
    → tone ≡ some name
    → pre_duration transcode tone ≡ ok pre
    → (length : ℕ) × (transcode name ≡ ok length) × (pre ≡ length * 125)
unfolding pre_duration playing_time
toned-pre transcode none pre name e h = absurd (cc e)
toned-pre transcode (some tone) pre name e h =
    let (size, sound, same) = >>=-eq-ok (transcode tone) _ h in
    (size, (ap transcode (name_same tone name e) ∙ sound), sym (ok-injective same))

less : (a b c : ℕ) → a ≤ b → b ≤ c → a ≤ c
less a b c h k = omega (arith, h, k)

poly-uses :
    (s : Settings) (configured : List Destination) (zone : Zone) (name : String) (d : Destination)
    → Among name zone.destinations
    → by_name (λ (x : Destination). x.name) name configured ≡ some d
    → d.enabled ≡ true
    → d.protocol ≡ multicast
    → (d.wire_format ≡ some poly_group_page)
      ⊎ ((d.wire_format ≡ none) × (s.wire_format ≡ poly_group_page))
    → uses_poly s.wire_format configured zone.destinations ≡ true
unfolding uses_poly
poly-uses s configured zone name d among found enabled cast format =
    any-Among _ name zone.destinations among
      (pages-poly s.wire_format configured name d found enabled cast format)

plan-Planned :
    (transcode : String → Result ℕ) (two_decimals : ℕ → String) (s : Settings)
    (configured : List Destination) (zone : Zone) (event : BellEvent) (total : ℕ)
    → plan transcode two_decimals s configured zone event ≡ ok total
    → Planned transcode s configured zone event
unfolding plan playing_time
plan-Planned transcode two_decimals s configured zone event total h =
    let (size, sound, a) = >>=-eq-ok (transcode event.sound) _ h in
    let (pre, tone, b) = >>=-eq-ok (pre_duration transcode (truthy event.pre_tone)) _ a in
    let (sound_fits, c) = ensure-then (leb (playing_time size) s.max_audio) _ _ b in
    let (tone_fits, d) = ensure-then (leb pre s.max_audio) _ _ c in
    let (page_fits, _) =
      ensure-then (leb (total_duration s configured zone event (playing_time size) pre) s.max_page)
        _ _ d in
    record {
      size = size;
      pre = pre;
      sound = sound;
      plain = λ toneless.
          plain-pre transcode (truthy event.pre_tone) pre (truthy-none event.pre_tone toneless)
            tone;
      toned = λ name named filled.
          toned-pre transcode (truthy event.pre_tone) pre name
            (ap truthy named ∙ truthy-some name filled) tone;
      sound_fits = leb→le _ _ sound_fits;
      tone_fits = leb→le _ _ tone_fits;
      page_fits =
          less _ _ _ (plain-total s configured zone event (playing_time size) pre)
            (leb→le _ _ page_fits);
      poly_fits = λ name d among found enabled cast format.
          subst (λ t. t ≤ s.max_page)
            (poly-total s configured zone event (playing_time size) pre
              (poly-uses s configured zone name d among found enabled cast format))
            (leb→le _ _ page_fits);
    }

abbrev pub all_outcomes : List (List DeliveryOutcome) → List DeliveryOutcome
all_outcomes [] = []
all_outcomes (os ∷ oss) = os ++ all_outcomes oss

abbrev pub total : List ℕ → ℕ
total [] = 0
total (n ∷ ns) = n + total ns

outcomes_of_lem :
    (reports : List DeliveryReport)
    → outcomes_of reports ≡ all_outcomes (map (λ (q : DeliveryReport). q.outcomes) reports)
outcomes_of_lem [] = refl
outcomes_of_lem (q ∷ reports) = ap (λ os. q.outcomes ++ os) (outcomes_of_lem reports)

time_of_lem :
    (reports : List DeliveryReport)
    → time_of reports ≡ total (map (λ (q : DeliveryReport). q.duration) reports)
time_of_lem [] = refl
time_of_lem (q ∷ reports) = ap (λ n. q.duration + n) (time_of_lem reports)

module _ (started schedule : String) (zone : Zone) (destinations : List Destination)
    (event : BellEvent) (reports : List DeliveryReport) where
  success_fire-fields : success_fire started schedule zone destinations event reports ≡ record {
    timestamp = started;
    schedule_name = schedule;
    event_label = event.label;
    zone = zone.name;
    channel = zone.channel;
    destinations = map (λ (d : Destination). d.name) destinations;
    sound_file = event.sound;
    priority = event.priority;
    repeat_count = some event.repeat_count;
    delivery_outcomes = all_outcomes (map (λ (q : DeliveryReport). q.outcomes) reports);
    duration = some (total (map (λ (q : DeliveryReport). q.duration) reports));
    succeeded = true;
    detail = none;
  }
  unfolding success_fire
  success_fire-fields = rw (outcomes_of_lem reports, time_of_lem reports) refl

  failed_fire-fields :
      (e : String)
      → failed_fire started schedule zone destinations event reports e ≡ record {
        timestamp = started;
        schedule_name = schedule;
        event_label = event.label;
        zone = zone.name;
        channel = zone.channel;
        destinations = map (λ (d : Destination). d.name) destinations;
        sound_file = event.sound;
        priority = event.priority;
        repeat_count = none;
        delivery_outcomes = all_outcomes (map (λ (q : DeliveryReport). q.outcomes) reports);
        duration = none;
        succeeded = false;
        detail = some e;
      }
  unfolding failed_fire
  failed_fire-fields e = rw (outcomes_of_lem reports) refl

module _ {S : Type 0} (alerts : AlertSettings) (window now : ℕ)
    (stamped : LastFire → String × String) (success : List DeliveryReport → LastFire)
    (failure : List DeliveryReport → String → LastFire) (event : BellEvent) (zone : Zone)
    (r : Runtime S) (p : Played S) where
  closed-ok :
      (reports : List DeliveryReport)
      → (close_fire alerts window now stamped success failure event zone r p).1 ≡ ok reports
      → (p.ended ≡ ok tt)
        × (reports ≡ p.reports)
        × ((close_fire alerts window now stamped success failure event zone r p).0.last_fire
            ≡ some (success p.reports))
        × ((close_fire alerts window now stamped success failure event zone r p).0.outbox
            ≡ r.outbox)
  unfolding close_fire
  closed-ok reports = elim (Result-cases p.ended) [
    | inl (e, raised) ↦ rw (raised, close_fire) (λ h. absurd (not-ok-err (sym h)))
    | inr (done, ended) ↦ rw (ended, close_fire) (λ h. (refl, sym (ok-injective h), refl, refl))
  ]

  closed-err :
      (e : String)
      → (close_fire alerts window now stamped success failure event zone r p).1 ≡ err e
      → ((close_fire alerts window now stamped success failure event zone r p).0.last_fire
          ≡ some (failure p.reports e))
        × ((url : String)
            → alerts.alert_webhook_url ≡ some url
            → url ≢ ""
            → Holds
                ("bell_transmission_failed" & "|" & event.label & " failed in zone " & zone.name)
                now
                window
                (close_fire alerts window now stamped success failure event zone r p).0.outbox)
  unfolding close_fire enqueue failed_alert alert_key
  closed-err e = elim (Result-cases p.ended) [
    | inr (done, ended) ↦ rw (ended, close_fire) (λ h. absurd (not-ok-err h))
    | inl (message, raised) ↦
        rw (raised, close_fire)
          (λ h. (
            ap (λ m. some (failure p.reports m)) (err-injective h),
            (λ url configured_url some_url. rw (configured_url) (
                enqueue_row-Holds url alerts.alert_webhook_secret_env window now
                  (failed_alert stamped event zone (failure p.reports message)) r.outbox some_url
                  refl)),
          ))
  ]

module _ {S : Type 0} (deliver : Option String → String → S → S × Result DeliveryReport)
    (wait : ℕ → S → S × Bool) (base_key : String)
    (lease : String → ℕ → BusyPolicy → S → S × PageLease) (release : String → S → S)
    (transcode : String → Result ℕ) (two_decimals : ℕ → String) (settings : Settings)
    (safety : Safety) (zones : List Zone) (configured : List Destination) where
  abbrev pub attempt : BellEvent → Zone → S → Played S
  attempt event zone s =
      attempt_page deliver wait base_key lease release transcode two_decimals settings safety
        configured zone event s

  attempt-page :
      (event : BellEvent) (zone : Zone) (s : S)
      → (attempt event zone s).ended ≡ ok tt
      → Planned transcode settings configured zone event
        × (attempt event zone s ≡ page deliver wait base_key lease release safety event s)
  unfolding attempt_page
  attempt-page event zone s =
      elim (Result-cases (plan transcode two_decimals settings configured zone event)) [
        | inl (e, refused) ↦ rw (refused, attempt_page) (λ h. absurd (not-ok-err (sym h)))
        | inr (total, planned) ↦
            rw (planned, attempt_page)
              (λ _. (
                plan-Planned transcode two_decimals settings configured zone event total planned,
                refl,
              ))
      ]

  module _ (alerts : AlertSettings) (window now : ℕ) (stamped : LastFire → String × String)
      (started schedule : String) (event : BellEvent) where
    abbrev pub fired : Runtime S → Runtime S × Result (List DeliveryReport)
    fired r =
        transmit_event attempt alerts window now stamped started schedule zones configured event r

    pub record Rang (r after : Runtime S) (reports : List DeliveryReport) : Type 0 where
      pub zone : Zone
      pub destinations : List Destination
      pub found : by_name (λ (z : Zone). z.name) event.zone zones ≡ some zone
      pub enabled : enabled_destinations configured zone.destinations ≡ ok destinations
      pub planned : Planned transcode settings configured zone event
      pub paged : Paged deliver wait base_key lease safety event r.slots reports
      pub fire :
          after.last_fire
          ≡ some (record {
            timestamp = started;
            schedule_name = schedule;
            event_label = event.label;
            zone = zone.name;
            channel = zone.channel;
            destinations = map (λ (d : Destination). d.name) destinations;
            sound_file = event.sound;
            priority = event.priority;
            repeat_count = some event.repeat_count;
            delivery_outcomes = all_outcomes (map (λ (q : DeliveryReport). q.outcomes) reports);
            duration = some (total (map (λ (q : DeliveryReport). q.duration) reports));
            succeeded = true;
            detail = none;
          })
      pub quiet : after.outbox ≡ r.outbox

    pub record Failed (r after : Runtime S) (e : String) : Type 0 where
      pub zone : Zone
      pub destinations : List Destination
      pub found : by_name (λ (z : Zone). z.name) event.zone zones ≡ some zone
      pub enabled : enabled_destinations configured zone.destinations ≡ ok destinations
      pub fire :
          after.last_fire
          ≡ some (record {
            timestamp = started;
            schedule_name = schedule;
            event_label = event.label;
            zone = zone.name;
            channel = zone.channel;
            destinations = map (λ (d : Destination). d.name) destinations;
            sound_file = event.sound;
            priority = event.priority;
            repeat_count = none;
            delivery_outcomes =
                all_outcomes
                  (map (λ (q : DeliveryReport). q.outcomes) (attempt event zone r.slots).reports);
            duration = none;
            succeeded = false;
            detail = some e;
          })
      pub alerted :
          (url : String)
          → alerts.alert_webhook_url ≡ some url
          → url ≢ ""
          → Holds
              ("bell_transmission_failed" & "|" & event.label & " failed in zone " & zone.name)
              now
              window
              after.outbox

    transmit_to-Rang :
        (zone : Zone) (destinations : List Destination) (r : Runtime S)
        (reports : List DeliveryReport)
        → by_name (λ (z : Zone). z.name) event.zone zones ≡ some zone
        → enabled_destinations configured zone.destinations ≡ ok destinations
        → 1 ≤ event.repeat_count
        → (transmit_to attempt alerts window now stamped started schedule event zone destinations
            r).1
          ≡ ok reports
        → Rang r
            (transmit_to attempt alerts window now stamped started schedule event zone destinations
              r).0
            reports
    unfolding transmit_to
    transmit_to-Rang zone destinations r reports found enabled some_repeats h =
        let p = attempt event zone r.slots in
        let (ended, same, fire, quiet) =
          closed-ok alerts window now stamped
            (success_fire started schedule zone destinations event)
            (failed_fire started schedule zone destinations event) event zone r p reports h in
        let (planned, on) = attempt-page event zone r.slots ended in
        let paged =
          page-Paged deliver wait base_key lease release safety event r.slots some_repeats
            (ap (λ (q : Played S). q.ended) (sym on) ∙ ended) in
        record {
          zone = zone;
          destinations = destinations;
          found = found;
          enabled = enabled;
          planned = planned;
          paged =
              subst (Paged deliver wait base_key lease safety event r.slots)
                (ap (λ (q : Played S). q.reports) (sym on) ∙ sym same) paged;
          fire =
              fire
              ∙ ap (λ rs. some (success_fire started schedule zone destinations event rs))
                  (sym same)
              ∙ ap some (success_fire-fields started schedule zone destinations event reports);
          quiet = quiet;
        }

    transmit_to-Failed :
        (zone : Zone) (destinations : List Destination) (r : Runtime S) (e : String)
        → by_name (λ (z : Zone). z.name) event.zone zones ≡ some zone
        → enabled_destinations configured zone.destinations ≡ ok destinations
        → (transmit_to attempt alerts window now stamped started schedule event zone destinations
            r).1
          ≡ err e
        → Failed r
            (transmit_to attempt alerts window now stamped started schedule event zone destinations
              r).0
            e
    unfolding transmit_to
    transmit_to-Failed zone destinations r e found enabled h =
        let p = attempt event zone r.slots in
        let (fire, alerted) =
          closed-err alerts window now stamped
            (success_fire started schedule zone destinations event)
            (failed_fire started schedule zone destinations event) event zone r p e h in
        record {
          zone = zone;
          destinations = destinations;
          found = found;
          enabled = enabled;
          fire =
              fire
              ∙ ap some (failed_fire-fields started schedule zone destinations event p.reports e);
          alerted = alerted;
        }

    -- An event of at least one repeat that `transmit_event` reports as rung: its zone and destinations
    -- are configured; each of its sounds keeps the limit of a sound, and the page that of a page, with
    -- its repeats, the pauses between them and the overhead of the Poly protocol where a destination
    -- pages by it; the page slot was acquired, by preemption where the priority reaches the emergency
    -- threshold and at the event's own policy below it; there is a report for each repeat, and one for
    -- the pre-tone if it has one; none of them was cancelled; `last_fire` is a success without detail
    -- that shows the event, all outcomes of the reports and the sum of their durations; and no alert
    -- is queued.
    pub transmit_event-Rang :
        (r : Runtime S) (reports : List DeliveryReport)
        → 1 ≤ event.repeat_count
        → (fired r).1 ≡ ok reports
        → Rang r (fired r).0 reports
    unfolding transmit_event
    transmit_event-Rang r reports some_repeats =
        elim (Option-cases (by_name (λ (z : Zone). z.name) event.zone zones)) [
          | inl missing ↦ rw (missing, transmit_event) (λ h. absurd (not-ok-err (sym h)))
          | inr (zone, found) ↦
              elim (Result-cases (enabled_destinations configured zone.destinations)) [
                | inl (e, unknown) ↦
                    rw (found, unknown, transmit_event) (λ h. absurd (not-ok-err (sym h)))
                | inr (destinations, enabled) ↦
                    rw (found, enabled, transmit_event)
                      (λ h.
                        transmit_to-Rang zone destinations r reports found enabled some_repeats h)
              ]
        ]

    -- An event whose zone and destinations are configured and which `transmit_event` fails at, for
    -- whatever reason: `last_fire` is a failure with that reason as its detail and all outcomes of the
    -- reports that there were until then; and where an alert webhook is configured the outbox then
    -- holds the alert of this label and zone, waiting or sent lately, unless it is full.
    pub transmit_event-Failed :
        (r : Runtime S) (e : String) (zone : Zone) (destinations : List Destination)
        → by_name (λ (z : Zone). z.name) event.zone zones ≡ some zone
        → enabled_destinations configured zone.destinations ≡ ok destinations
        → (fired r).1 ≡ err e
        → Failed r (fired r).0 e
    unfolding transmit_event
    transmit_event-Failed r e zone destinations found enabled =
        rw (found, enabled, transmit_event)
          (λ h. transmit_to-Failed zone destinations r e found enabled h)
