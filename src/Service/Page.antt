-- ===== src/Service/Page.antt =====
-- What a page that `transmit_event` of bell/service.py plays out went through.
use school_bells.Prelude.{
  ℕ, zero, suc, ◌+◌, ◌≤◌, ◌≢◌, ◌⊎◌, ◌<◌, leb, le→leb, ◌≡◌, ◌∙◌, refl, sym, ap, String, Bool, true,
  false, List, [], ◌∷◌, ◌++◌, Option, none, some, length, ◌||◌, All, Bool-cases, inl, inr, arith,
  show, length-append,
}
use mathlib.Core.Path.{subst}
use school_bells.Prelude.Results.{Result, ok, err, not-ok-err, Result-cases}
use school_bells.Dates.{◌&◌}
use school_bells.Config.{BellEvent, BusyPolicy, preempt}
use school_bells.Safety.{Safety}
use school_bells.Paging.{PageLease}
use school_bells.Delivery.{DeliveryReport}
use school_bells.Service.{Played, any_cancelled, truthy, busy_policy}
use school_bells.Service.Slot.{play_repeats, play, after_tone, page, give_back, with_lease}

or_false : (a b : Bool) → (a || b) ≡ false → (a ≡ false) × (b ≡ false)
or_false a b h = ground arith

pub not_any :
    (reports : List DeliveryReport)
    → any_cancelled reports ≡ false
    → All (λ (r : DeliveryReport). r.cancelled ≡ false) reports
not_any [] h = tt
not_any (r ∷ rs) h = let (a, b) = or_false r.cancelled (any_cancelled rs) h in (a, not_any rs b)

lt→leb-false : (a b : ℕ) → b < a → leb a b ≡ false
lt→leb-false a b low = ground (arith, low)

busy_policy-high :
    (safety : Safety) (event : BellEvent)
    → safety.emergency_priority_threshold ≤ event.priority
    → busy_policy safety event ≡ preempt
unfolding busy_policy
busy_policy-high safety event high = rw (le→leb _ _ high) refl

busy_policy-low :
    (safety : Safety) (event : BellEvent)
    → event.priority < safety.emergency_priority_threshold
    → busy_policy safety event ≡ event.busy_policy
unfolding busy_policy
busy_policy-low safety event low = rw (lt→leb-false _ _ low) refl

-- All repeats were delivered, and no delivery was cancelled.
abbrev Complete : ℕ → List DeliveryReport → Type 0
Complete n reports = (length reports ≡ n) × (any_cancelled reports ≡ false)

abbrev pub tones : Option String → ℕ
tones none = 0
tones (some tone) = 1

-- No pre-tone: none, or an empty name.
abbrev pub Toneless : Option String → Type 0
Toneless tone = (tone ≡ none) ⊎ (tone ≡ some "")

pub truthy-none : (tone : Option String) → Toneless tone → truthy tone ≡ none
unfolding truthy
truthy-none sound (inl e) = rw (e) refl
truthy-none sound (inr e) = rw (e) refl

pub truthy-some : (tone : String) → tone ≢ "" → truthy (some tone) ≡ some tone
unfolding truthy
truthy-some String.[] filled = absurd (filled refl)
truthy-some (String.◌∷◌ c s) filled = refl

without : (n m : ℕ) (tone : Option String) → tone ≡ none → m ≡ n + tones tone → m ≡ n
without n m none e count = omega (arith, count)
without n m (some tone) e count = absurd (cc e)

with_one :
    (n m : ℕ) (tone : Option String) (name : String)
    → tone ≡ some name
    → m ≡ n + tones tone
    → m ≡ n + 1
with_one n m none name e count = absurd (cc e)
with_one n m (some tone) name e count = count

module _ {S : Type 0} (deliver : Option String → String → S → S × Result DeliveryReport)
    (wait : ℕ → S → S × Bool) (base_key : String) where
  -- The next delivery of a page that is played to its end.
  Delivers : ℕ → List DeliveryReport → S → Type 0
  Delivers repeat reports s =
      (report : DeliveryReport) × ((deliver none (base_key & "-" & show (repeat + 1)) s).1
        ≡ ok report)
      × (any_cancelled (reports ++ report ∷ []) ≡ false)

  next_repeat :
      (interval n repeat : ℕ) (reports : List DeliveryReport) (s : S)
      → (play_repeats deliver wait base_key interval (suc n) repeat reports s).ended ≡ ok tt
      → Delivers repeat reports s
  unfolding play_repeats Delivers
  next_repeat interval n repeat reports s =
      elim (Result-cases (deliver none (base_key & "-" & show (repeat + 1)) s).1) [
        | inl (e, raised) ↦ rw (raised, play_repeats) (λ h. absurd (not-ok-err (sym h)))
        | inr (report, returned) ↦ elim (Bool-cases (any_cancelled (reports ++ report ∷ []))) [
          | inl cancelled ↦
              rw (returned, cancelled, play_repeats) (λ h. absurd (not-ok-err (sym h)))
          | inr fine ↦ λ _. (report, returned, fine)
        ]
      ]

  one_more :
      (reports : List DeliveryReport) (report : DeliveryReport)
      → length (reports ++ report ∷ []) ≡ length reports + 1
  one_more reports report = length-append reports (report ∷ [])

  next_wait :
      (interval n repeat : ℕ) (reports : List DeliveryReport) (s : S)
      → Delivers repeat reports s
      → (play_repeats deliver wait base_key interval (suc (suc n)) repeat reports s).ended ≡ ok tt
      → (wait interval (deliver none (base_key & "-" & show (repeat + 1)) s).0).1 ≡ false
  unfolding play_repeats Delivers
  next_wait interval n repeat reports s (report, returned, fine) =
      elim (Bool-cases (wait interval (deliver none (base_key & "-" & show (repeat + 1)) s).0).1) [
        | inl set ↦ rw (returned, fine, set, play_repeats) (λ h. absurd (not-ok-err (sym h)))
        | inr clear ↦ λ _. clear
      ]

  play_repeats-Complete :
      (interval n repeat : ℕ) (reports : List DeliveryReport) (s : S)
      → (play_repeats deliver wait base_key interval (suc n) repeat reports s).ended ≡ ok tt
      → Complete
          (length reports + suc n)
          (play_repeats deliver wait base_key interval (suc n) repeat reports s).reports
  unfolding play_repeats Delivers
  play_repeats-Complete interval zero repeat reports s h =
      let (report, returned, fine) = next_repeat interval zero repeat reports s h in
      rw (returned, fine, play_repeats) (one_more reports report, fine)
  play_repeats-Complete interval (suc n) repeat reports s h =
      let (report, returned, fine) = next_repeat interval (suc n) repeat reports s h in
      let clear = next_wait interval n repeat reports s (report, returned, fine) h in
      let t = (wait interval (deliver none (base_key & "-" & show (repeat + 1)) s).0).0 in
      let on : play_repeats deliver wait base_key interval (suc (suc n)) repeat reports s
          ≡ play_repeats deliver wait base_key interval (suc n) (repeat + 1)
              (reports ++ report ∷ []) t =
        rw (returned, fine, clear, play_repeats) refl in
      rw (on) (
        more _ _ _ (one_more reports report) (
          play_repeats-Complete interval n (repeat + 1) (reports ++ report ∷ []) t
            (ap (λ (p : Played S). p.ended) (sym on) ∙ h)))
    where
      more :
          (a b : ℕ) (rs : List DeliveryReport)
          → b ≡ a + 1
          → Complete (b + suc n) rs
          → Complete (a + suc (suc n)) rs
      more a b rs e (count, calm) = (omega (arith, count, e), calm)

  from_start :
      (interval n : ℕ) (reports : List DeliveryReport) (s : S)
      → 1 ≤ n
      → (play_repeats deliver wait base_key interval n 0 reports s).ended ≡ ok tt
      → Complete
          (length reports + n)
          (play_repeats deliver wait base_key interval n 0 reports s).reports
  from_start interval zero reports s some_repeats h = absurd (omega (arith, some_repeats))
  from_start interval (suc n) reports s some_repeats h =
      play_repeats-Complete interval n 0 reports s h

  after_tone-Complete :
      (event : BellEvent) (t : S) (delivered : Result DeliveryReport)
      → 1 ≤ event.repeat_count
      → (after_tone deliver wait base_key event t delivered).ended ≡ ok tt
      → Complete
          (event.repeat_count + 1)
          (after_tone deliver wait base_key event t delivered).reports
  unfolding after_tone
  after_tone-Complete event t (err e) some_repeats = λ h. absurd (not-ok-err (sym h))
  after_tone-Complete event t (ok report) some_repeats = elim (Bool-cases (wait 100000 t).1) [
    | inl set ↦ rw (set, after_tone) (λ h. absurd (not-ok-err (sym h)))
    | inr clear ↦
        rw (clear, after_tone)
          (λ h.
            let (count, calm) =
              from_start event.repeat_interval event.repeat_count (report ∷ []) _ some_repeats h in
            (omega (arith, count), calm))
  ]

  pub play-Complete :
      (event : BellEvent) (tone : Option String) (s : S)
      → 1 ≤ event.repeat_count
      → (play deliver wait base_key event tone s).ended ≡ ok tt
      → Complete (event.repeat_count + tones tone) (play deliver wait base_key event tone s).reports
  unfolding play
  play-Complete event none s some_repeats h =
      let (count, calm) = from_start event.repeat_interval event.repeat_count [] s some_repeats h in
      (omega (arith, count), calm)
  play-Complete event (some tone) s some_repeats h = after_tone-Complete event _ _ some_repeats h

  -- What a page that ends well went through.
  pub record Paged (lease : String → ℕ → BusyPolicy → S → S × PageLease) (safety : Safety)
      (event : BellEvent) (s : S) (reports : List DeliveryReport) : Type 0 where
    pub emergency :
        safety.emergency_priority_threshold ≤ event.priority
        → (lease event.label event.priority preempt s).1.acquired ≡ true
    pub ordinary :
        event.priority < safety.emergency_priority_threshold
        → (lease event.label event.priority event.busy_policy s).1.acquired ≡ true
    pub plain : Toneless event.pre_tone → length reports ≡ event.repeat_count
    pub toned :
        (tone : String)
        → event.pre_tone ≡ some tone
        → tone ≢ ""
        → length reports ≡ event.repeat_count + 1
    pub undisturbed : All (λ (r : DeliveryReport). r.cancelled ≡ false) reports

  module _ (lease : String → ℕ → BusyPolicy → S → S × PageLease) (release : String → S → S) where
    give_back-same :
        (token : Option String) (p : Played S)
        → ((give_back deliver wait base_key lease release token p).reports ≡ p.reports)
          × ((give_back deliver wait base_key lease release token p).ended ≡ p.ended)
    unfolding give_back
    give_back-same none p = (refl, refl)
    give_back-same (some token) p = (refl, refl)

    with_lease-Complete :
        (event : BellEvent) (given : PageLease) (t : S)
        → 1 ≤ event.repeat_count
        → (with_lease deliver wait base_key lease release event given t).ended ≡ ok tt
        → (given.acquired ≡ true)
          × Complete
              (event.repeat_count + tones (truthy event.pre_tone))
              (with_lease deliver wait base_key lease release event given t).reports
    unfolding with_lease
    with_lease-Complete event given t some_repeats = elim (Bool-cases given.acquired) [
      | inr refused ↦ rw (refused, with_lease) (λ h. absurd (not-ok-err (sym h)))
      | inl taken ↦
          let p = play deliver wait base_key event (truthy event.pre_tone) t in
          let (reports, ended) = give_back-same (truthy given.token) p in
          rw (taken, with_lease)
            (λ h.
              let (count, calm) =
                play-Complete event (truthy event.pre_tone) t some_repeats (sym ended ∙ h) in
              (refl, (ap length reports ∙ count, ap any_cancelled reports ∙ calm)))
    ]

    pub page-Paged :
        (safety : Safety) (event : BellEvent) (s : S)
        → 1 ≤ event.repeat_count
        → (page deliver wait base_key lease release safety event s).ended ≡ ok tt
        → Paged lease safety event s
            (page deliver wait base_key lease release safety event s).reports
    unfolding page
    page-Paged safety event s some_repeats h =
        let (acquired, (count, calm)) = with_lease-Complete event _ _ some_repeats h in
        record {
          emergency = λ high.
              subst (λ b. (lease event.label event.priority b s).1.acquired ≡ true)
                (busy_policy-high safety event high) acquired;
          ordinary = λ low.
              subst (λ b. (lease event.label event.priority b s).1.acquired ≡ true)
                (busy_policy-low safety event low) acquired;
          plain = λ toneless.
              without event.repeat_count _ (truthy event.pre_tone)
                (truthy-none event.pre_tone toneless) count;
          toned = λ tone named filled.
              with_one event.repeat_count _ (truthy event.pre_tone) tone
                (ap truthy named ∙ truthy-some tone filled) count;
          undisturbed = not_any _ calm;
        }
