-- ===== src/Endpoints/Circuit.antt =====
-- The circuit breaker of bell/monitor.py.
use school_bells.Prelude.{
  select, false, if◌then◌else◌, ℕ, suc, ◌+◌, ◌≤◌, ◌≡◌, ◌⊎◌, ◌↔◌, refl, ap, sym, ◌∙◌, String, true,
  List, [], ◌∷◌, Option, none, some, leb, length, All, str_eq, eq_iff, Bool-cases, inl, inr, arith,
  leb→le, le→leb,
}
use mathlib.Core.Option.{some-injective}
use school_bells.Config.{Protocol, multicast, sip, http, Destination}
use school_bells.Endpoints.{
  DeliveryOutcome, EndpointHealth, EndpointRegistry, health_of, put_health, known_or_new, updated,
  record_outcome, should_attempt, closed, endpoint_health, same_protocol,
}

health_of-put_health :
    (name : String) (h : EndpointHealth) (hs : List EndpointHealth)
    → h.name ≡ name
    → health_of name (put_health h hs) ≡ some h
unfolding health_of put_health
health_of-put_health name h [] e = rw ((eq_iff h.name name).1 e) refl
health_of-put_health name h (k ∷ ks) e = elim (Bool-cases (str_eq k.name h.name)) [
  | inl same ↦ rw (same, (eq_iff h.name name).1 e) refl
  | inr other ↦
      rw (other, ap (λ n. str_eq k.name n) (sym e) ∙ other) (health_of-put_health name h ks e)
]

health_of-first :
    (name : String) (k : EndpointHealth) (hs : List EndpointHealth)
    → str_eq k.name name ≡ true
    → health_of name (k ∷ hs) ≡ some k
unfolding health_of
health_of-first name k hs e = rw (e) refl

health_of-rest :
    (name : String) (k : EndpointHealth) (hs : List EndpointHealth)
    → str_eq k.name name ≡ false
    → health_of name (k ∷ hs) ≡ health_of name hs
unfolding health_of
health_of-rest name k hs e = rw (e) refl

health_of-name :
    (name : String) (hs : List EndpointHealth) (h : EndpointHealth)
    → health_of name hs ≡ some h
    → h.name ≡ name
unfolding health_of
health_of-name name [] h e = cc
health_of-name name (k ∷ ks) h e = elim (Bool-cases (str_eq k.name name)) [
  | inl same ↦
      ap (λ (k : EndpointHealth). k.name)
        (sym (some-injective k h (sym (health_of-first name k ks same) ∙ e)))
      ∙ (eq_iff k.name name).0 same
  | inr other ↦ health_of-name name ks h (sym (health_of-rest name k ks other) ∙ e)
]

same_protocol_refl : (p : Protocol) → same_protocol p p ≡ true
unfolding same_protocol
same_protocol_refl multicast = refl
same_protocol_refl sip = refl
same_protocol_refl http = refl

-- The entry that `record` goes on with has the outcome's name and protocol.
known_or_new-fits :
    (o : Option EndpointHealth) (name : String) (p : Protocol)
    → ((h : EndpointHealth) → o ≡ some h → h.name ≡ name)
    → ((known_or_new o name p).name ≡ name)
      × (same_protocol (known_or_new o name p).protocol p ≡ true)
unfolding known_or_new endpoint_health
known_or_new-fits none name p named = (refl, same_protocol_refl p)
known_or_new-fits (some h) name p named = elim (Bool-cases (same_protocol h.protocol p)) [
  | inl same ↦ rw (same) (named h refl, same)
  | inr other ↦ rw (other) (refl, same_protocol_refl p)
]

updated-fits :
    (threshold cooldown : ℕ) (now : String) (clock : ℕ) (o : DeliveryOutcome) (h : EndpointHealth)
    → o.success ≡ false
    → ((updated threshold cooldown now clock o h).name ≡ h.name)
      × ((updated threshold cooldown now clock o h).protocol ≡ h.protocol)
      × ((updated threshold cooldown now clock o h).consecutive_failures
          ≡ h.consecutive_failures + 1)
unfolding updated
updated-fits threshold cooldown now clock o h failed =
    elim (Bool-cases (leb threshold (h.consecutive_failures + 1))) [
      | inl opens ↦ simp (failed, opens) (refl, refl, refl)
      | inr waits ↦ simp (failed, waits) (refl, refl, refl)
    ]

updated-opens :
    (threshold cooldown : ℕ) (now : String) (clock : ℕ) (o : DeliveryOutcome) (h : EndpointHealth)
    → o.success ≡ false
    → threshold ≤ h.consecutive_failures + 1
    → (updated threshold cooldown now clock o h).circuit_open_until ≡ clock + cooldown
unfolding updated
updated-opens threshold cooldown now clock o h failed many =
    simp (failed, le→leb threshold (h.consecutive_failures + 1) many)

-- Outcomes recorded one after the other, the latest first, each with the clocks' readings.
abbrev pub record_all : List (String × ℕ × DeliveryOutcome) → EndpointRegistry → EndpointRegistry
record_all [] r = r
record_all ((now, clock, o) ∷ earlier) r = record_outcome now clock o (record_all earlier r)

abbrev pub Fails : Destination → (String × ℕ × DeliveryOutcome) → Type 0
Fails d (now, clock, o) = (o.destination ≡ d.name) × (o.protocol ≡ d.protocol) × (o.success ≡ false)

-- What `record` goes on with for a destination.
entry : Destination → EndpointRegistry → EndpointHealth
entry d r = known_or_new (health_of d.name r.items) d.name d.protocol

record_all-threshold :
    (os : List (String × ℕ × DeliveryOutcome)) (r : EndpointRegistry)
    → ((record_all os r).failure_threshold ≡ r.failure_threshold)
      × ((record_all os r).cooldown ≡ r.cooldown)
unfolding record_outcome
record_all-threshold [] r = (refl, refl)
record_all-threshold (o ∷ os) r = record_all-threshold os r

record_outcome-entry :
    (d : Destination) (now : String) (clock : ℕ) (o : DeliveryOutcome) (r : EndpointRegistry)
    → Fails d (now, clock, o)
    → health_of d.name (record_outcome now clock o r).items
      ≡ some (updated r.failure_threshold r.cooldown now clock o (entry d r))
unfolding record_outcome entry
record_outcome-entry d now clock o r (named, via, failed) =
    health_of-put_health d.name _ r.items (
      (updated-fits r.failure_threshold r.cooldown now clock o (of o.destination o.protocol)
        failed).0
      ∙ (known_or_new-fits (health_of o.destination r.items) o.destination o.protocol
          (health_of-name o.destination r.items)).0
      ∙ named)
    ∙ ap (λ h. some (updated r.failure_threshold r.cooldown now clock o h))
        (ap (λ n. of n o.protocol) named ∙ ap (λ p. of d.name p) via)
  where
    of : String → Protocol → EndpointHealth
    of name p = known_or_new (health_of name r.items) name p

-- Each failure adds one to the entry's count.
entry-failures :
    (d : Destination) (now : String) (clock : ℕ) (o : DeliveryOutcome) (r : EndpointRegistry)
    → Fails d (now, clock, o)
    → (entry d (record_outcome now clock o r)).consecutive_failures
      ≡ (entry d r).consecutive_failures + 1
unfolding entry known_or_new
entry-failures d now clock o r f =
    ap (λ h. (known_or_new h d.name d.protocol).consecutive_failures)
      (record_outcome-entry d now clock o r f)
    ∙ kept
  where
    next : EndpointHealth
    next = updated r.failure_threshold r.cooldown now clock o (entry d r)

    fits : ((entry d r).name ≡ d.name) × (same_protocol (entry d r).protocol d.protocol ≡ true)
    fits =
        known_or_new-fits (health_of d.name r.items) d.name d.protocol
          (health_of-name d.name r.items)

    step :
        (next.name ≡ (entry d r).name)
        × (next.protocol ≡ (entry d r).protocol)
        × (next.consecutive_failures ≡ (entry d r).consecutive_failures + 1)
    step = updated-fits r.failure_threshold r.cooldown now clock o (entry d r) f.2

    kept :
        (known_or_new (some next) d.name d.protocol).consecutive_failures
        ≡ (entry d r).consecutive_failures + 1
    kept = rw (ap (λ p. same_protocol p d.protocol) step.1 ∙ fits.1) step.2

-- The outcome of another destination.
abbrev pub Other : Destination → (String × ℕ × DeliveryOutcome) → Type 0
Other d (now, clock, o) = str_eq o.destination d.name ≡ false

-- The number of those outcomes that are the destination's.
abbrev pub count_of : Destination → List (String × ℕ × DeliveryOutcome) → ℕ
count_of d os =
    length (select (λ (x : String × ℕ × DeliveryOutcome). str_eq x.2.destination d.name) os)

updated-name :
    (threshold cooldown : ℕ) (now : String) (clock : ℕ) (o : DeliveryOutcome) (h : EndpointHealth)
    → (updated threshold cooldown now clock o h).name ≡ h.name
unfolding updated
updated-name threshold cooldown now clock o h = elim (Bool-cases o.success) [
  | inl fine ↦ simp (fine) refl
  | inr failed ↦ (updated-fits threshold cooldown now clock o h failed).0
]

health_of-put_other :
    (name : String) (h : EndpointHealth) (hs : List EndpointHealth)
    → str_eq h.name name ≡ false
    → health_of name (put_health h hs) ≡ health_of name hs
unfolding health_of put_health
health_of-put_other name h [] e = rw (e) refl
health_of-put_other name h (k ∷ ks) e = elim (Bool-cases (str_eq k.name h.name)) [
  | inl same ↦
      let other : str_eq k.name name ≡ false =
        ap (λ n. str_eq n name) ((eq_iff k.name h.name).0 same) ∙ e in
      rw (same, e, other) refl
  | inr differs ↦
      rw (differs)
        (ap (λ o. if str_eq k.name name then some k else o) (health_of-put_other name h ks e))
]

-- The outcome of another destination leaves the entry as it is.
record_outcome-Other :
    (d : Destination) (now : String) (clock : ℕ) (o : DeliveryOutcome) (r : EndpointRegistry)
    → Other d (now, clock, o)
    → health_of d.name (record_outcome now clock o r).items ≡ health_of d.name r.items
unfolding record_outcome
record_outcome-Other d now clock o r other = health_of-put_other d.name _ r.items (
    ap (λ n. str_eq n d.name)
      (updated-name r.failure_threshold r.cooldown now clock o
          (known_or_new (health_of o.destination r.items) o.destination o.protocol)
        ∙ (known_or_new-fits (health_of o.destination r.items) o.destination o.protocol
            (health_of-name o.destination r.items)).0)
    ∙ other)

record_all-Other :
    (d : Destination) (os : List (String × ℕ × DeliveryOutcome)) (r : EndpointRegistry)
    → All (Other d) os
    → health_of d.name (record_all os r).items ≡ health_of d.name r.items
record_all-Other d [] r h = refl
record_all-Other d ((now, clock, o) ∷ os) r (other, rest) =
    record_outcome-Other d now clock o (record_all os r) other ∙ record_all-Other d os r rest

one_more : (n a b : ℕ) → n ≤ a → b ≡ a + 1 → suc n ≤ b
one_more n a b le e = omega (arith, le, e)

no_more : (n a b : ℕ) → n ≤ a → b ≡ a → n ≤ b
no_more n a b le e = omega (arith, le, e)

failures-count :
    (d : Destination) (os : List (String × ℕ × DeliveryOutcome)) (r : EndpointRegistry)
    → All (λ x. Fails d x ⊎ Other d x) os
    → count_of d os ≤ (entry d (record_all os r)).consecutive_failures
unfolding entry
failures-count d [] r fs = omega arith
failures-count d ((now, clock, o) ∷ os) r (inl f, fs) =
    rw ((eq_iff o.destination d.name).1 f.0, select)
      (one_more _ _ _ (failures-count d os r fs)
        (unfold entry in entry-failures d now clock o (record_all os r) f))
failures-count d ((now, clock, o) ∷ os) r (inr other, fs) =
    rw (other, select)
      (no_more _ _ _ (failures-count d os r fs) (
        ap (λ h. (known_or_new h d.name d.protocol).consecutive_failures)
          (record_outcome-Other d now clock o (record_all os r) other)))

-- Whatever happened before, let a destination have failed at least as often as the threshold says
-- without a success between, while others may have been tried in between and after. Then, if it is
-- optional, it is tried again when the cooldown since its last failure is over and not before; if it
-- is required, it is always tried.
pub circuit_opens :
    (d : Destination) (now : String) (clock : ℕ) (o : DeliveryOutcome)
    (later earlier : List (String × ℕ × DeliveryOutcome)) (r : EndpointRegistry) (t : ℕ)
    → All (Other d) later
    → Fails d (now, clock, o)
    → All (λ x. Fails d x ⊎ Other d x) earlier
    → r.failure_threshold ≤ suc (count_of d earlier)
    → (should_attempt (record_all later (record_all ((now, clock, o) ∷ earlier) r)) t d ≡ true)
      ↔ ((d.required ≡ true) ⊎ (clock + r.cooldown ≤ t))
unfolding should_attempt closed
circuit_opens d now clock o later earlier r t others f fs many = elim (Bool-cases d.required) [
  | inl must ↦ rw (must) (λ _. inl refl, λ _. refl)
  | inr optional ↦
      rw
        (
          optional,
          record_all-Other d later (record_all ((now, clock, o) ∷ earlier) r) others
              ∙ record_outcome-entry d now clock o (record_all earlier r) f,
          opens,
        )
        (λ h. inr (leb→le _ _ h), λ c. elim c [ inl e ↦ absurd cc | inr late ↦ le→leb _ _ late ])
]
  where
    opens :
        (updated
          (record_all earlier r).failure_threshold
          (record_all earlier r).cooldown
          now
          clock
          o
          (entry d (record_all earlier r))).circuit_open_until
        ≡ clock + r.cooldown
    opens =
        updated-opens _ _ now clock o (entry d (record_all earlier r)) f.2
          (omega (arith, (record_all-threshold earlier r).0, failures-count d earlier r fs, many))
        ∙ ap (λ c. clock + c) (record_all-threshold earlier r).1
