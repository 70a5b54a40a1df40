-- ===== src/Service/Health/Rules.antt =====
-- When bell/service.py calls itself ready.
use school_bells.Prelude.{
  ℕ, ◌*◌, ◌≤◌, ◌≡◌, ◌∙◌, ◌⊎◌, ◌↔◌, refl, sym, ap, String, Bool, true, false, ◌&&◌, ◌||◌, not, List,
  [], ◌∷◌, ◌++◌, Option, none, some, ltb, any, All, All-imp, Bool-cases, inl, inr, arith, select,
  map, str_eq, eq_iff,
}
use school_bells.Config.{Destination}
use school_bells.Endpoints.{EndpointHealth}
use school_bells.Delivery.{is_empty}
use school_bells.Service.Health.{
  Surroundings, required_names, is_failing, unhealthy_required, unknown_required, readiness_reasons,
  is_ready, ready_status, Sound, is_needed, NotRequired, reason, is_synchronized,
}

pub is_empty-append {ℓ} :
    {A : Type ℓ} (xs ys : List A)
    → (is_empty (xs ++ ys) ≡ true) ↔ ((is_empty xs ≡ true) × (is_empty ys ≡ true))
is_empty-append [] ys = ((λ h. (refl, h)), (λ h. h.1))
is_empty-append (x ∷ xs) ys = ((λ h. absurd (cc (h))), (λ h. absurd (cc (h.0))))

pub is_empty-reason : (b : Bool) (text : String) → (is_empty (reason b text) ≡ true) ↔ (b ≡ false)
unfolding reason
is_empty-reason true text = ((λ h. absurd cc), (λ h. absurd cc))
is_empty-reason false text = ((λ h. refl), (λ h. refl))

-- One reason in front of others.
pub one_reason :
    (b : Bool) (text : String) (rest : List String)
    → (is_empty (reason b text ++ rest) ≡ true) ↔ ((b ≡ false) × (is_empty rest ≡ true))
one_reason b text rest = (
  (λ h.
      let (x, y) = (is_empty-append (reason b text) rest).0 h in ((is_empty-reason b text).0 x, y)),
  (λ h. (is_empty-append (reason b text) rest).1 ((is_empty-reason b text).1 h.0, h.1)),
)

pub is_empty-map {κ ℓ} :
    {B : Type κ} {A : Type ℓ} (f : A → B) (xs : List A) → is_empty (map f xs) ≡ is_empty xs
is_empty-map f [] = refl
is_empty-map f (x ∷ xs) = refl

pub is_empty-select {ℓ} :
    {A : Type ℓ} (p : A → Bool) (xs : List A)
    → (is_empty (select p xs) ≡ true) ↔ All (λ x. p x ≡ false) xs
is_empty-select p [] = ((λ _. tt), (λ _. refl))
is_empty-select p (x ∷ xs) = elim (Bool-cases (p x)) [
  | inl keep ↦ rw (keep, select) ((λ h. absurd cc), (λ h. absurd (cc (h.0))))
  | inr drop ↦
      rw (drop, select)
        ((λ h. (refl, (is_empty-select p xs).0 h)), (λ h. (is_empty-select p xs).1 h.1))
]

pub not_required :
    (name : String) (ds : List Destination)
    → (any (str_eq name) (required_names ds) ≡ false) ↔ NotRequired name ds
unfolding required_names
not_required name [] = ((λ _. tt), (λ _. refl))
not_required name (d ∷ ds) = elim (Bool-cases (is_needed d)) [
  | inr free ↦
      rw (free, select)
        ((λ h. ((λ n. absurd cc), (not_required name ds).0 h)), (λ h. (not_required name ds).1 h.1))
  | inl needed ↦
      rw (needed, select)
        (
          (λ h.
              let (a, b) =
                or_false (str_eq name d.name) (any (str_eq name) (required_names ds)) h in
              ((λ n e. absurd (cc (a, (eq_iff name d.name).1 e))), (not_required name ds).0 b)),
          (λ h.
              false_or (str_eq name d.name) (any (str_eq name) (required_names ds))
                (differ (str_eq name d.name) (λ q. h.0 refl ((eq_iff name d.name).0 q)))
                ((not_required name ds).1 h.1)),
        )
]
  where
    or_false : (a b : Bool) → (a || b) ≡ false → (a ≡ false) × (b ≡ false)
    or_false a b h = ground arith

    false_or : (a b : Bool) → a ≡ false → b ≡ false → (a || b) ≡ false
    false_or a b h k = ground arith

    differ : (a : Bool) → ¬ (a ≡ true) → a ≡ false
    differ a h = ground arith

abbrev pub Well : List Destination → EndpointHealth → Type 0
Well ds h = is_failing h.state ≡ true → NotRequired h.name ds

fails_none :
    (ds : List Destination) (h : EndpointHealth)
    → ((any (str_eq h.name) (required_names ds) && is_failing h.state) ≡ false) ↔ Well ds h
fails_none ds h = (
  (λ e failing.
      (not_required h.name ds).0
        (left (any (str_eq h.name) (required_names ds)) (is_failing h.state) e failing)),
  (λ w.
      both (any (str_eq h.name) (required_names ds)) (is_failing h.state)
        (λ failing. (not_required h.name ds).1 (w failing))),
)
  where
    left : (a b : Bool) → (a && b) ≡ false → b ≡ true → a ≡ false
    left a b h k = ground arith

    both : (a b : Bool) → (b ≡ true → a ≡ false) → (a && b) ≡ false
    both a b h = ground arith

none_unhealthy :
    (ds : List Destination) (items : List EndpointHealth)
    → (is_empty (unhealthy_required ds items) ≡ true) ↔ All (Well ds) items
unfolding unhealthy_required
none_unhealthy ds items = (
  (λ h.
      All-imp _ (Well ds) items (λ x. (fails_none ds x).0)
        ((is_empty-select (fails ds) items).0
          (sym (is_empty-map _ (select (fails ds) items)) ∙ h))),
  (λ h.
      is_empty-map _ (select (fails ds) items)
      ∙ (is_empty-select (fails ds) items).1
          (All-imp (Well ds) _ items (λ x. (fails_none ds x).1) h)),
)
  where
    fails : List Destination → EndpointHealth → Bool
    fails ds h = any (str_eq h.name) (required_names ds) && is_failing h.state

abbrev Checked : List EndpointHealth → Destination → Type 0
Checked items d =
    is_needed d ≡ true → any (λ (h : EndpointHealth). str_eq h.name d.name) items ≡ true

none_unknown :
    (ds : List Destination) (items : List EndpointHealth)
    → (is_empty (unknown_required ds items) ≡ true) ↔ All (Checked items) ds
unfolding unknown_required required_names
none_unknown [] items = ((λ _. tt), (λ _. refl))
none_unknown (d ∷ ds) items = elim (Bool-cases (is_needed d)) [
  | inr free ↦
      rw (free, select)
        (
          (λ h. ((λ n. absurd cc), (none_unknown ds items).0 h)),
          (λ h. (none_unknown ds items).1 h.1),
        )
  | inl needed ↦ elim (Bool-cases (any (λ (h : EndpointHealth). str_eq h.name d.name) items)) [
    | inl known ↦
        rw (needed, select, known)
          ((λ h. ((λ _. refl), (none_unknown ds items).0 h)), (λ h. (none_unknown ds items).1 h.1))
    | inr new ↦ rw (needed, select, new) ((λ h. absurd cc), (λ h. absurd (cc (h.0 refl))))
  ]
]

clock_fine :
    (o : Option Bool) (required : Bool)
    → ((not (is_synchronized o) && required) ≡ false) ↔ ((required ≡ false) ⊎ (o ≡ some true))
unfolding is_synchronized
clock_fine none true =
    ((λ h. absurd cc), (λ h. absurd (elim h [ inl a ↦ cc (a) | inr b ↦ cc (b) ])))
clock_fine none false = ((λ h. inl refl), (λ h. refl))
clock_fine (some true) required = ((λ h. inr refl), (λ h. refl))
clock_fine (some false) true =
    ((λ h. absurd cc), (λ h. absurd (elim h [ inl a ↦ cc (a) | inr b ↦ cc (ap get b) ])))
  where
    get : Option Bool → Bool
    get none = false
    get (some b) = b
clock_fine (some false) false = ((λ h. inl refl), (λ h. refl))

negated : (b : Bool) → (not b ≡ false) ↔ (b ≡ true)
negated b = ground arith

-- The service is ready, and `/ready` answers 200 instead of 503, exactly if no restore is unfinished,
-- every enabled and required destination has been checked and none of them is failing or has its
-- circuit open, the clock is known to be synchronized where that is required, the scheduler and the
-- monitor run, and 256 MiB are free.
pub is_ready_iff :
    (s : Surroundings) (ds : List Destination) (items : List EndpointHealth)
    → (ready_status (is_ready s ds items) ≡ 200) ↔ Sound s ds items
unfolding is_ready readiness_reasons ready_status
is_ready_iff s ds items = (
  (λ answer.
      let (restored, r1) = (one_reason _ _ _).0 (answers (is_ready s ds items) answer) in
      let (well, r2) = (one_reason _ _ _).0 r1 in
      let (checked, r3) = (one_reason _ _ _).0 r2 in
      let (clock, r4) = (one_reason _ _ _).0 r3 in
      let (scheduler, r5) = (one_reason _ _ _).0 r4 in
      let (monitor, r6) = (one_reason _ _ _).0 r5 in
      record {
        restored = restored;
        checked = (none_unknown ds items).0 ((negated _).0 checked);
        well = (none_unhealthy ds items).0 ((negated _).0 well);
        clock = (clock_fine s.synchronized s.clock_sync_required).0 clock;
        scheduler = (negated _).0 scheduler;
        monitor = (negated _).0 monitor;
        disk = enough s.disk_free ((is_empty-reason _ _).0 r6);
      }),
  (λ v. ap ready_status (
      (one_reason _ _ _).1 (
        v.restored,
        (one_reason _ _ _).1 (
          (negated _).1 ((none_unhealthy ds items).1 v.well),
          (one_reason _ _ _).1 (
            (negated _).1 ((none_unknown ds items).1 v.checked),
            (one_reason _ _ _).1 (
              (clock_fine s.synchronized s.clock_sync_required).1 v.clock,
              (one_reason _ _ _).1 (
                (negated _).1 v.scheduler,
                (one_reason _ _ _).1
                    ((negated _).1 v.monitor, (is_empty-reason _ _).1 (short s.disk_free v.disk)),
              ),
            ),
          ),
        ),
      ))),
)
  where
    answers : (b : Bool) → ready_status b ≡ 200 → b ≡ true
    answers b h = ground arith

    enough : (free : ℕ) → ltb free (256 * 1024 * 1024) ≡ false → 256 * 1024 * 1024 ≤ free
    enough free h = ground arith

    short : (free : ℕ) → 256 * 1024 * 1024 ≤ free → ltb free (256 * 1024 * 1024) ≡ false
    short free h = ground arith
