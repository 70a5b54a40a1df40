-- ===== src/Service/Slot.antt =====
-- The page of `transmit_event` in bell/service.py, in the slot that the coordinator gives it.
use school_bells.Prelude.{
  ℕ, zero, suc, ◌+◌, String, Bool, true, false, List, [], ◌∷◌, ◌++◌, Option, none, some,
  if◌then◌else◌, show,
}
use school_bells.Prelude.Results.{Result, ok, err}
use school_bells.Dates.{◌&◌}
use school_bells.Config.{BusyPolicy, Destination, Zone, BellEvent}
use school_bells.Safety.{Safety}
use school_bells.Delivery.{DeliveryReport}
use school_bells.Paging.{PageLease}
use school_bells.Service.{Settings, truthy, plan, busy_policy, Played, any_cancelled}

-- The page in the slot. The state holds what deliveries, waits and other threads change: the
-- registry, the cancel event, the clock. `deliver` is given the pre-tone's name, or none for the
-- event's own sound, and the idempotency key; `wait` says whether the cancel event was set.
module _ {S : Type 0} (deliver : Option String → String → S → S × Result DeliveryReport)
    (wait : ℕ → S → S × Bool) (base_key : String) where
  -- The rest of the loop over `range(event.repeat_count)`, from a repeat on.
  unfoldable pub play_repeats :
      (interval : ℕ) → (left : ℕ) → (repeat : ℕ) → List DeliveryReport → S → Played S
  play_repeats interval zero repeat reports s = record {
    reports = reports;
    left = s;
    ended = ok tt;
  }
  play_repeats interval (suc n) repeat reports s =
      let (t, delivered) = deliver none (base_key & "-" & show (repeat + 1)) s in
      elim delivered [
        | err e ↦ record { reports = reports; left = t; ended = err e }
        | ok report ↦ elim (any_cancelled (reports ++ report ∷ [])) [
          | true ↦ record {
            reports = reports ++ report ∷ [];
            left = t;
            ended = err "page was preempted";
          }
          | false ↦ elim n [
            | zero ↦ record { reports = reports ++ report ∷ []; left = t; ended = ok tt }
            | suc _ ↦ elim (wait interval t).1 [
              | true ↦ record {
                reports = reports ++ report ∷ [];
                left = (wait interval t).0;
                ended = err "page was preempted between repeats";
              }
              | false ↦
                  play_repeats interval n (repeat + 1) (reports ++ report ∷ []) (wait interval t).0
            ]
          ]
        ]
      ]

  -- What follows the delivery of the pre-tone, in front of the repeats.
  unfoldable pub after_tone : BellEvent → S → Result DeliveryReport → Played S
  unfolding play_repeats
  after_tone event t (err e) = record { reports = []; left = t; ended = err e }
  after_tone event t (ok report) = elim (wait 100000 t).1 [
    | true ↦ record {
      reports = report ∷ [];
      left = (wait 100000 t).0;
      ended = err "page was preempted after pre-tone";
    }
    | false ↦
        play_repeats event.repeat_interval event.repeat_count 0 (report ∷ []) (wait 100000 t).0
  ]

  -- The body of `with self.coordinator.lease(...)`, with the slot taken.
  unfoldable pub play : BellEvent → Option String → S → Played S
  unfolding after_tone
  play event none s = play_repeats event.repeat_interval event.repeat_count 0 [] s
  play event (some tone) s =
      let (t, delivered) = deliver (some tone) (base_key & "-pre") s in after_tone event t delivered

  -- The lease and the page in it: `lease` acquires the slot, `release` gives it back.
  module _ (lease : String → ℕ → BusyPolicy → S → S × PageLease) (release : String → S → S) where
    unfoldable pub give_back : Option String → Played S → Played S
    give_back none p = p
    give_back (some token) p = record p { left = release token p.left }

    unfoldable pub with_lease : BellEvent → PageLease → S → Played S
    unfolding play truthy give_back
    with_lease event given s =
        if given.acquired
        then give_back (truthy given.token) (play event (truthy event.pre_tone) s)
        else record { reports = []; left = s; ended = err given.reason }

    unfoldable pub page : Safety → BellEvent → S → Played S
    unfolding with_lease busy_policy
    page safety event s =
        let (t, given) = lease event.label event.priority (busy_policy safety event) s in
        with_lease event given t

    -- The `try` of `transmit_event`, up to the reports.
    unfoldable pub attempt_page :
        (String → Result ℕ)
        → (ℕ → String)
        → Settings
        → Safety
        → List Destination
        → Zone
        → BellEvent
        → S
        → Played S
    unfolding plan page
    attempt_page transcode two_decimals settings safety configured zone event s =
        elim (plan transcode two_decimals settings configured zone event) [
          | err e ↦ record { reports = []; left = s; ended = err e }
          | ok total ↦ page safety event s
        ]
