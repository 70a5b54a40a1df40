-- ===== src/Delivery/Coverage.antt =====
-- That bell/delivery.py leaves no destination of the zone without an outcome.
use school_bells.Prelude.{
  ℕ, ◌≡◌, ◌∙◌, ◌⊎◌, refl, sym, ap, String, Bool, true, false, ◌&&◌, ◌||◌, not, List, [], ◌∷◌, ◌++◌,
  arith, map, select, any, All, All-imp, All-both, str_eq, eq_refl, eq_iff, Bool-cases, inl, inr,
}
use school_bells.Prelude.Results.{Result, ok, err, ok-injective, not-ok-err, >>=-eq-ok}
use school_bells.Config.{Destination, Zone, Protocol, multicast, sip, http, WireName, CodecName}
use school_bells.Endpoints.{DeliveryOutcome, EndpointRegistry, should_attempt}
use school_bells.Delivery.{
  DeliveryReport, Task, multicast_task, sip_task, webhook_task, deliver, enabled_destinations,
  to_enabled, to_zone, finished, settled, settle, skipped, same_wire, same_codec, join_group,
  first_codec, effective_wire, groups, others, add_group, own_task, run_all, multicast_outcomes,
  sent_outcome, raised_outcome,
}
use school_bells.Transmit.{TransmitResult}
use school_bells.Delivery.Required.{settle-Accepted, is_required}

abbrev pub destinations_of : Task → List Destination
destinations_of (multicast_task w c ds) = ds
destinations_of (sip_task d) = d ∷ []
destinations_of (webhook_task d) = d ∷ []

abbrev pub names : String → List Destination → Bool
names name ds = any (λ (d : Destination). str_eq d.name name) ds

-- A task for a destination of the name.
abbrev pub serves : String → Task → Bool
serves name t = names name (destinations_of t)

abbrev pub has_outcome : String → List DeliveryOutcome → Bool
has_outcome name os = any (λ (o : DeliveryOutcome). str_eq o.destination name) os

any-append {ℓ} :
    {A : Type ℓ} (p : A → Bool) (xs ys : List A) → any p (xs ++ ys) ≡ (any p xs || any p ys)
any-append p [] ys = refl
any-append p (x ∷ xs) ys = rw (any-append p xs ys) (assoc (p x) (any p xs) (any p ys))
  where
    assoc : (a b c : Bool) → (a || (b || c)) ≡ ((a || b) || c)
    assoc a b c = ground arith

or_left : (a b : Bool) → a ≡ true → (a || b) ≡ true
or_left a b h = ground arith

or_right : (a b : Bool) → b ≡ true → (a || b) ≡ true
or_right a b h = ground arith

any-left {ℓ} :
    {A : Type ℓ} (p : A → Bool) (xs ys : List A) → any p xs ≡ true → any p (xs ++ ys) ≡ true
any-left p xs ys h = any-append p xs ys ∙ or_left _ _ h

any-right {ℓ} :
    {A : Type ℓ} (p : A → Bool) (xs ys : List A) → any p ys ≡ true → any p (xs ++ ys) ≡ true
any-right p xs ys h = any-append p xs ys ∙ or_right _ _ h

-- The destinations that a test picks, and those that it does not, are all.
All-both_ways :
    (P : Destination → Type 0) (p : Destination → Bool) (ds : List Destination)
    → All P (select p ds)
    → All P (select (λ d. not (p d)) ds)
    → All P ds
All-both_ways P p [] = λ h k. tt
All-both_ways P p (d ∷ ds) = elim (Bool-cases (p d)) [
  | inl picked ↦ rw (picked, select) (λ h k. (h.0, All-both_ways P p ds h.1 k))
  | inr left ↦ rw (left, select) (λ h k. (k.0, All-both_ways P p ds h k.1))
]

skipped-has_outcome :
    (ds : List Destination)
    → All (λ (d : Destination). has_outcome d.name (map skipped ds) ≡ true) ds
unfolding skipped
skipped-has_outcome [] = tt
skipped-has_outcome (d ∷ ds) = (
  or_left _ _ (eq_refl d.name),
  All-imp (λ (e : Destination). has_outcome e.name (map skipped ds) ≡ true)
      (λ (e : Destination). has_outcome e.name (map skipped (d ∷ ds)) ≡ true) ds
      (λ e h. or_right _ _ h) (skipped-has_outcome ds),
)

swap : (a b c : Bool) → (a || (b || c)) ≡ (b || (a || c))
swap a b c = ground arith

merge : (a b c : Bool) → ((a || (b || false)) || c) ≡ (b || (a || c))
merge a b c = ground arith

no_more : (a : Bool) → ((a || false) || false) ≡ (a || false)
no_more a = ground arith

-- Joining a group serves the destination and whatever was served.
join_group-serves :
    (wire : WireName) (codec : CodecName) (d : Destination) (name : String) (ts : List Task)
    → any (serves name) (join_group wire codec d ts) ≡ (str_eq d.name name || any (serves name) ts)
unfolding join_group
join_group-serves wire codec d name [] = no_more (str_eq d.name name)
join_group-serves wire codec d name (sip_task e ∷ ts) =
    rw (join_group-serves wire codec d name ts)
      (swap (str_eq e.name name || false) (str_eq d.name name) _)
join_group-serves wire codec d name (webhook_task e ∷ ts) =
    rw (join_group-serves wire codec d name ts)
      (swap (str_eq e.name name || false) (str_eq d.name name) _)
join_group-serves wire codec d name (multicast_task w c group ∷ ts) =
    elim (Bool-cases (same_wire w wire && same_codec c codec)) [
      | inl same ↦
          rw (same, join_group, any-append (λ (e : Destination). str_eq e.name name) group (d ∷ []))
            (merge (names name group) (str_eq d.name name) _)
      | inr other ↦
          rw (other, join_group, join_group-serves wire codec d name ts)
            (swap (names name group) (str_eq d.name name) _)
    ]

-- A destination is served by its group or by a task of its own.
add_group-keeps :
    (p : Protocol) (default : WireName) (d : Destination) (ts : List Task) (name : String)
    → any (serves name) ts ≡ true
    → any (serves name) (add_group p default d ts) ≡ true
unfolding add_group
add_group-keeps multicast default d ts name h =
    join_group-serves (effective_wire d.wire_format default) (first_codec d.codecs) d name ts
    ∙ or_right _ _ h
add_group-keeps sip default d ts name h = h
add_group-keeps http default d ts name h = h

own_task-keeps :
    (p : Protocol) (d : Destination) (ts : List Task) (name : String)
    → any (serves name) ts ≡ true
    → any (serves name) (own_task p d ts) ≡ true
unfolding own_task
own_task-keeps multicast d ts name h = h
own_task-keeps sip d ts name h = or_right _ _ h
own_task-keeps http d ts name h = or_right _ _ h

groups-keeps :
    (default : WireName) (ds : List Destination) (ts : List Task) (name : String)
    → any (serves name) ts ≡ true
    → any (serves name) (groups default ds ts) ≡ true
unfolding groups
groups-keeps default [] ts name h = h
groups-keeps default (d ∷ ds) ts name h =
    groups-keeps default ds (add_group d.protocol default d ts) name
      (add_group-keeps d.protocol default d ts name h)

placed :
    (p : Protocol) (default : WireName) (d : Destination) (ts os : List Task)
    → (any (serves d.name) (add_group p default d ts) ≡ true)
      ⊎ (any (serves d.name) (own_task p d os) ≡ true)
unfolding add_group own_task
placed multicast default d ts os = inl (
    join_group-serves (effective_wire d.wire_format default) (first_codec d.codecs) d d.name ts
    ∙ or_left _ _ (eq_refl d.name))
placed sip default d ts os = inr (or_left _ _ (or_left _ _ (eq_refl d.name)))
placed http default d ts os = inr (or_left _ _ (or_left _ _ (eq_refl d.name)))

second : (a b : Bool) → a ≡ false → (a || b) ≡ true → b ≡ true
second a b h k = ground arith

-- All ready destinations are served by the tasks.
all_served :
    (default : WireName) (ds : List Destination) (ts : List Task)
    → All (λ (d : Destination). any (serves d.name) (groups default ds ts ++ others ds) ≡ true) ds
unfolding groups others
all_served default [] ts = tt
all_served default (d ∷ ds) ts =
    let gs = groups default ds (add_group d.protocol default d ts) in
    (
      elim (placed d.protocol default d ts (others ds)) [
        | inl grouped ↦
            any-left (serves d.name) gs (own_task d.protocol d (others ds))
              (groups-keeps default ds (add_group d.protocol default d ts) d.name grouped)
        | inr alone ↦ any-right (serves d.name) gs (own_task d.protocol d (others ds)) alone
      ],
      All-imp (λ (e : Destination). any (serves e.name) (gs ++ others ds) ≡ true) _ ds
          (λ e h. widened e.name gs (others ds) d h)
          (all_served default ds (add_group d.protocol default d ts)),
    )
  where
    widened :
        (name : String) (gs os : List Task) (d : Destination)
        → any (serves name) (gs ++ os) ≡ true
        → any (serves name) (gs ++ own_task d.protocol d os) ≡ true
    widened name gs os d h = elim (Bool-cases (any (serves name) gs)) [
      | inl grouped ↦ any-left (serves name) gs (own_task d.protocol d os) grouped
      | inr not_grouped ↦ any-right (serves name) gs (own_task d.protocol d os) (
          own_task-keeps d.protocol d os name
            (second _ _ not_grouped (sym (any-append (serves name) gs os) ∙ h)))
    ]

needed :
    (ds : List Destination)
    → All
        (λ (d : Destination).
          (o : DeliveryOutcome)
          → d.required ≡ true
          → str_eq o.destination d.name ≡ true
          → is_required ds o ≡ true)
        ds
unfolding is_required
needed [] = tt
needed (d ∷ ds) = (
  (λ o required same. or_left _ _ (
      both d.required _ required
        ((eq_iff d.name o.destination).1 (sym ((eq_iff o.destination d.name).0 same))))),
  All-imp _ _ ds (λ e h o required same. or_right _ _ (h o required same)) (needed ds),
)
  where
    both : (a b : Bool) → a ≡ true → b ≡ true → (a && b) ≡ true
    both a b h k = ground arith

-- The outcome of a name is a success if all outcomes of the name are.
succeeds :
    (name : String) (os : List DeliveryOutcome)
    → has_outcome name os ≡ true
    → All (λ (o : DeliveryOutcome). str_eq o.destination name ≡ true → o.success ≡ true) os
    → any (λ (o : DeliveryOutcome). str_eq o.destination name && o.success) os ≡ true
succeeds name [] h = λ k. absurd (cc (h))
succeeds name (o ∷ os) h = elim (Bool-cases (str_eq o.destination name)) [
  | inl hit ↦ λ k. or_left _ _ (both _ _ hit (k.0 hit))
  | inr miss ↦ λ k. or_right _ _ (succeeds name os (second _ _ miss h) k.1)
]
  where
    both : (a b : Bool) → a ≡ true → b ≡ true → (a && b) ≡ true
    both a b h k = ground arith

-- The outcomes of a multicast, sent or raised, are those of its destinations.
pub multicast_outcomes-names :
    (codec : CodecName) (ds : List Destination) (duration : ℕ) (r : Result TransmitResult)
    (name : String)
    → has_outcome name (multicast_outcomes codec ds duration r) ≡ names name ds
unfolding multicast_outcomes sent_outcome raised_outcome
multicast_outcomes-names codec [] duration (ok r) name = refl
multicast_outcomes-names codec [] duration (err e) name = refl
multicast_outcomes-names codec (d ∷ ds) duration (ok r) name =
    ap (λ b. str_eq d.name name || b) (multicast_outcomes-names codec ds duration (ok r) name)
multicast_outcomes-names codec (d ∷ ds) duration (err e) name =
    ap (λ b. str_eq d.name name || b) (multicast_outcomes-names codec ds duration (err e) name)

module _ (run : Task → Result (List DeliveryOutcome)) (completed : List Task → List Task)
    (by_destination : List DeliveryOutcome → List DeliveryOutcome)
    (answers : (t : Task) (os : List DeliveryOutcome) (name : String)
      → run t ≡ ok os
      → serves name t ≡ true
      → has_outcome name os ≡ true)
    (complete : (ts : List Task) (name : String)
      → any (serves name) ts ≡ true
      → any (serves name) (completed ts) ≡ true)
    (sorted : (p : DeliveryOutcome → Bool) (os : List DeliveryOutcome)
      → any p os ≡ true
      → any p (by_destination os) ≡ true) where
  run_all-has_outcome :
      (ts : List Task) (os : List DeliveryOutcome) (name : String)
      → any (serves name) ts ≡ true
      → run_all run ts ≡ ok os
      → has_outcome name os ≡ true
  unfolding run_all
  run_all-has_outcome [] os name h r = absurd (cc (h))
  run_all-has_outcome (t ∷ ts) os name h r =
      let (first, ran, more) = >>=-eq-ok (run t) _ r in
      let (later, others_ran, all) = >>=-eq-ok (run_all run ts) _ more in
      ap (has_outcome name) (sym (ok-injective all)) ∙ (elim (Bool-cases (serves name t)) [
        | inl own ↦ any-left _ first later (answers t first name ran own)
        | inr other ↦
            any-right _ first later
              (run_all-has_outcome ts later name (second _ _ other h) others_ran)
      ])

  -- Every one of some destinations has an outcome in a report, and each required one a success.
  abbrev pub Covers : List Destination → DeliveryReport → Type 0
  Covers destinations report =
      All
        (λ (d : Destination).
          (has_outcome d.name report.outcomes ≡ true)
          × (d.required ≡ true
              → any (λ (o : DeliveryOutcome). str_eq o.destination d.name && o.success)
                  report.outcomes
                ≡ true))
        destinations

  -- The outcomes that the tasks brought, with those of the destinations that were skipped.
  all_have_outcome :
      (default : WireName) (registry : EndpointRegistry) (clock : ℕ) (ds : List Destination)
      (os : List DeliveryOutcome)
      → run_all run (
          completed (
            groups default (select (should_attempt registry clock) ds) []
            ++ others (select (should_attempt registry clock) ds)))
        ≡ ok os
      → All
          (λ (d : Destination).
            has_outcome d.name
              (map skipped (select (λ e. not (should_attempt registry clock e)) ds) ++ os)
            ≡ true)
          ds
  all_have_outcome default registry clock ds os ran =
      let ready = select (should_attempt registry clock) ds in
      let left = select (λ e. not (should_attempt registry clock e)) ds in
      All-both_ways (λ (d : Destination). has_outcome d.name (map skipped left ++ os) ≡ true)
        (should_attempt registry clock) ds
        (All-imp
          (λ (d : Destination).
            any (serves d.name) (groups default ready [] ++ others ready) ≡ true)
          _ ready
          (λ d h. any-right _ (map skipped left) os (
            run_all-has_outcome (completed (groups default ready [] ++ others ready)) os d.name
              (complete (groups default ready [] ++ others ready) d.name h) ran))
          (all_served default ready []))
        (All-imp (λ (d : Destination). has_outcome d.name (map skipped left) ≡ true) _ left
          (λ d h. any-left _ (map skipped left) os h) (skipped-has_outcome left))

  settled-Covers :
      (registry : EndpointRegistry) (now : String) (clock : ℕ) (cancelled : Bool) (duration : ℕ)
      (ds : List Destination) (os : List DeliveryOutcome) (report : DeliveryReport)
      → All (λ (d : Destination). has_outcome d.name os ≡ true) ds
      → (settled run completed by_destination registry now clock cancelled duration ds os).report
        ≡ ok report
      → Covers ds report
  unfolding settled
  settled-Covers registry now clock cancelled duration ds os report covered h =
      let (_, fine, built) = >>=-eq-ok (settle ds os) _ h in
      let accepted = settle-Accepted ds os fine in
      let reported : by_destination os ≡ report.outcomes =
        ap (λ (r : DeliveryReport). r.outcomes) (ok-injective built) in
      All-imp _ _ ds
        (λ d (has, needs). (
          ap (has_outcome d.name) (sym reported) ∙ sorted _ os has,
          (λ required.
              ap (any (λ (o : DeliveryOutcome). str_eq o.destination d.name && o.success))
                (sym reported)
              ∙ sorted _ os (
                  succeeds d.name os has (
                    All-imp _ _ os (λ o success same. success (needs o required same))
                      accepted.required))),
        ))
        (All-both _ _ ds covered (needed ds))

  finished-Covers :
      (registry : EndpointRegistry) (now : String) (clock : ℕ) (cancelled : Bool) (duration : ℕ)
      (ds : List Destination) (skips : List DeliveryOutcome) (tasks : Result (List DeliveryOutcome))
      (report : DeliveryReport)
      → ((os : List DeliveryOutcome)
          → tasks ≡ ok os
          → All (λ (d : Destination). has_outcome d.name (skips ++ os) ≡ true) ds)
      → (finished run completed by_destination registry now clock cancelled duration ds skips
          tasks).report
        ≡ ok report
      → Covers ds report
  unfolding finished
  finished-Covers registry now clock cancelled duration ds skips (ok os) report covered h =
      settled-Covers registry now clock cancelled duration ds (skips ++ os) report (covered os refl)
        h
  finished-Covers registry now clock cancelled duration ds skips (err e) report covered h =
      absurd (not-ok-err (sym h))

  to_enabled-Covers :
      (registry : EndpointRegistry) (default : WireName) (now : String) (clock : ℕ)
      (cancelled : Bool) (duration : ℕ) (zone : Zone) (ds : List Destination)
      (report : DeliveryReport)
      → (to_enabled run completed by_destination registry default now clock cancelled duration zone
          ds).report
        ≡ ok report
      → Covers ds report
  unfolding to_enabled
  to_enabled-Covers registry default now clock cancelled duration zone [] report h = tt
  to_enabled-Covers registry default now clock cancelled duration zone (d ∷ ds) report h =
      finished-Covers registry now clock cancelled duration (d ∷ ds) _ _ report
        (all_have_outcome default registry clock (d ∷ ds)) h

  -- Where every task that returns brings an outcome for each of its destinations, every submitted
  -- task completes and the sort by name keeps the outcomes, a report of `deliver` leaves nobody out:
  -- each enabled destination of the zone, tried or skipped, has an outcome in it, and each that is
  -- required has one that is a success.
  pub deliver-Covers :
      (configured : List Destination) (registry : EndpointRegistry) (default : WireName)
      (now : String) (clock : ℕ) (cancelled : Bool) (duration : ℕ) (zone : Zone)
      (ds : List Destination) (report : DeliveryReport)
      → enabled_destinations configured zone.destinations ≡ ok ds
      → (deliver run completed by_destination configured registry default now clock cancelled
          duration zone).report
        ≡ ok report
      → Covers ds report
  unfolding deliver to_zone
  deliver-Covers configured registry default now clock cancelled duration zone ds report enabled =
      rw (enabled, to_zone)
        (λ h. to_enabled-Covers registry default now clock cancelled duration zone ds report h)
