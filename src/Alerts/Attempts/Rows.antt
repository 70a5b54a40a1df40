-- ===== src/Alerts/Attempts/Rows.antt =====
-- What the updates of bell/alerts.py do to the invariant of its rows.
use school_bells.Prelude.{
  ℕ, ◌+◌, ◌≤◌, ◌<◌, ◌≡◌, ◌≢◌, ◌∙◌, refl, sym, ap, String, Bool, false, ◌&&◌, ◌||◌, List, [], ◌∷◌,
  ◌++◌, leb, if◌then◌else◌, select, All, All-append, All-select, All-imp, Bool-cases, inl, inr,
  arith, leb→le, str_eq, eq_iff, eq_refl, map,
}
use mathlib.Core.Path.{subst}
use school_bells.Alerts.{
  Notification, Table, AlertOutcome, is_pending, leased, settled, exhausted_row, finished_row,
}
use school_bells.Alerts.Attempts.{posts_of, has_id, Holds, Others, IsKeyed, Counts, All-split}

abbrev pub Agrees : Notification → Notification → Type 0
Agrees f n = n.id ≡ f.id → (n.attempts ≡ f.attempts) × (n.lease ≡ f.lease)

pub not_le : (a b : ℕ) → leb a b ≡ false → b < a
not_le a b h = ground arith

posts_of-cons :
    (id p : String) (ps : List String)
    → posts_of id (p ∷ ps) ≡ (if str_eq p id then 1 else 0) + posts_of id ps
posts_of-cons id p ps = refl

pub posts_other :
    (id p : String) (ps : List String) → id ≢ p → posts_of id (p ∷ ps) ≡ posts_of id ps
posts_other id p ps ne = ground (arith, eq_iff p id, eq_iff id p)

pub posts_self : (id : String) (ps : List String) → posts_of id (id ∷ ps) ≡ posts_of id ps + 1
posts_self id ps = rw (eq_refl id) (omega arith)

Others-middle :
    (before : Table) (n : Notification) (rest : Table)
    → IsKeyed (before ++ n ∷ rest)
    → Others n.id before × Others n.id rest
Others-middle [] n rest k = (tt, k.0)
Others-middle (m ∷ ms) n rest k =
    let (a, b) = Others-middle ms n rest k.1 in
    let (_, c) = All-split (λ (x : Notification). x.id ≢ m.id) ms (n ∷ rest) k.0 in
    (((λ e. c.0 (sym e)), a), b)

pub IsKeyed-swap :
    (before : Table) (n m : Notification) (rest : Table)
    → m.id ≡ n.id
    → IsKeyed (before ++ n ∷ rest)
    → IsKeyed (before ++ m ∷ rest)
IsKeyed-swap [] n m rest e k = (subst (λ id. Others id rest) (sym e) k.0, k.1)
IsKeyed-swap (x ∷ xs) n m rest e k =
    let (a, b) = All-split (λ (y : Notification). y.id ≢ x.id) xs (n ∷ rest) k.0 in
    (
      All-append (λ (y : Notification). y.id ≢ x.id) xs (m ∷ rest) a ((λ q. b.0 (sym e ∙ q)), b.1),
      IsKeyed-swap xs n m rest e k.1,
    )

-- A claim, seen from a table that is taken apart.
module _ (clock : ℕ) (posts : List String) (before rest : Table) (old : Notification)
    (keyed : IsKeyed (before ++ old ∷ rest)) (counted : All (Counts posts) (before ++ old ∷ rest))
    (free : old.lease ≤ clock) (few : old.attempts < 5) where
  pub row-id : (leased clock old).id ≡ old.id
  unfolding leased
  row-id = refl

  row-attempts : (leased clock old).attempts ≡ old.attempts + 1
  unfolding leased
  row-attempts = refl

  others-counted :
      (t : Table)
      → Others old.id t
      → All (Counts posts) t
      → All (Counts ((leased clock old).id ∷ posts)) t
  unfolding leased
  others-counted [] o c = tt
  others-counted (n ∷ ns) o c =
      ((rw (posts_other n.id old.id posts o.0) c.0.0, c.0.1), others-counted ns o.1 c.1)

  row-counted : Counts ((leased clock old).id ∷ posts) (leased clock old)
  unfolding leased
  row-counted =
      let (_, c) = All-split (Counts posts) before (old ∷ rest) counted in
      (omega (arith, posts_self old.id posts, c.0.0), omega (arith, few))

  pub claim-counted :
      All (Counts ((leased clock old).id ∷ posts)) (before ++ (leased clock old) ∷ rest)
  claim-counted =
      let (o1, o2) = Others-middle before old rest keyed in
      let (c1, c2) = All-split (Counts posts) before (old ∷ rest) counted in
      All-append (Counts ((leased clock old).id ∷ posts)) before ((leased clock old) ∷ rest)
        (others-counted before o1 c1) (row-counted, others-counted rest o2 c2.1)

  -- A delivery whose lease still runs is of another notification.
  claim-free :
      (f : Notification) → Holds clock (before ++ old ∷ rest) f → clock < f.lease → old.id ≢ f.id
  claim-free f h runs e =
      let (_, b) = All-split (Agrees f) before (old ∷ rest) (h runs) in
      omega (arith, (b.0 e).1, free)

  pub claim-apart :
      (f : Notification)
      → Holds clock (before ++ old ∷ rest) f
      → f.id ≡ (leased clock old).id
      → f.lease ≤ clock
  claim-apart f h e = elim (Bool-cases (leb f.lease clock)) [
    | inl over ↦ leb→le _ _ over
    | inr runs ↦ absurd (claim-free f h (not_le f.lease clock runs) (sym (e ∙ row-id)))
  ]

  pub claim-Holds :
      (f : Notification)
      → Holds clock (before ++ old ∷ rest) f
      → Holds clock (before ++ (leased clock old) ∷ rest) f
  claim-Holds f h runs =
      let (a, b) = All-split (Agrees f) before (old ∷ rest) (h runs) in
      All-append (Agrees f) before ((leased clock old) ∷ rest) a
        ((λ e. absurd (claim-free f h runs (sym row-id ∙ e))), b.1)

  disagree : (t : Table) → Others old.id t → All (Agrees (leased clock old)) t
  disagree [] o = tt
  disagree (n ∷ ns) o = ((λ e. absurd (o.0 (e ∙ row-id))), disagree ns o.1)

  pub row-Holds : Holds clock (before ++ (leased clock old) ∷ rest) (leased clock old)
  row-Holds _ =
      let (o1, o2) = Others-middle before old rest keyed in
      All-append (Agrees (leased clock old)) before ((leased clock old) ∷ rest) (disagree before o1)
        ((λ _. (refl, refl)), disagree rest o2)

-- A change of every row that keeps the identity.
module _ (f : Notification → Notification) (same : (n : Notification) → (f n).id ≡ n.id) where
  map-Others : (id : String) (t : Table) → Others id t → Others id (map f t)
  map-Others id [] o = tt
  map-Others id (n ∷ ns) o = ((λ e. o.0 (sym (same n) ∙ e)), map-Others id ns o.1)

  pub map-IsKeyed : (t : Table) → IsKeyed t → IsKeyed (map f t)
  map-IsKeyed [] k = tt
  map-IsKeyed (n ∷ ns) k = (
    subst (λ id. Others id (map f ns)) (sym (same n)) (map-Others n.id ns k.0),
    map-IsKeyed ns k.1,
  )

  pub map-Counts :
      (posts : List String) (t : Table)
      → All (λ (n : Notification). (f n).attempts ≡ n.attempts) t
      → All (Counts posts) t
      → All (Counts posts) (map f t)
  map-Counts posts [] e c = tt
  map-Counts posts (n ∷ ns) e c =
      ((rw (same n, e.0) c.0.0, rw (e.0) c.0.1), map-Counts posts ns e.1 c.1)

  pub map-Agrees :
      (g : Notification) (t : Table)
      → All
          (λ (n : Notification).
            n.id ≡ g.id → ((f n).attempts ≡ n.attempts) × ((f n).lease ≡ n.lease))
          t
      → All (Agrees g) t
      → All (Agrees g) (map f t)
  map-Agrees g [] e a = tt
  map-Agrees g (n ∷ ns) e a = (
    (λ q.
        let id_is = sym (same n) ∙ q in
        let (attempts, lease) = e.0 id_is in
        let (a1, a2) = a.0 id_is in (attempts ∙ a1, lease ∙ a2)),
    map-Agrees g ns e.1 a.1,
  )

pub everywhere : (P : Notification → Type 0) → ((n : Notification) → P n) → (t : Table) → All P t
everywhere P h [] = tt
everywhere P h (n ∷ ns) = (h n, everywhere P h ns)

select-Others :
    (p : Notification → Bool) (id : String) (t : Table) → Others id t → Others id (select p t)
select-Others p id t o = All-select (λ (n : Notification). n.id ≢ id) p t o

select-IsKeyed : (p : Notification → Bool) (t : Table) → IsKeyed t → IsKeyed (select p t)
select-IsKeyed p [] k = tt
select-IsKeyed p (n ∷ ns) k = elim (Bool-cases (p n)) [
  | inl y ↦ rw (y, select) (select-Others p n.id ns k.0, select-IsKeyed p ns k.1)
  | inr q ↦ rw (q, select) (select-IsKeyed p ns k.1)
]

append-IsKeyed :
    (t : Table) (row : Notification) → Others row.id t → IsKeyed t → IsKeyed (t ++ row ∷ [])
append-IsKeyed [] row o k = (tt, tt)
append-IsKeyed (n ∷ ns) row o k = (
  All-append (λ (m : Notification). m.id ≢ n.id) ns (row ∷ []) k.0 ((λ e. o.0 (sym e)), tt),
  append-IsKeyed ns row o.1 k.1,
)

pub has_id-Others : (id : String) (t : Table) → has_id id t ≡ false → Others id t
has_id-Others id [] h = tt
has_id-Others id (n ∷ ns) h =
    let (a, b) = neither (str_eq n.id id) (has_id id ns) h in
    ((λ e. absurd (cc (a, (eq_iff n.id id).1 e))), has_id-Others id ns b)
  where
    neither : (a b : Bool) → (a || b) ≡ false → (a ≡ false) × (b ≡ false)
    neither a b h = ground arith

-- What the invariant says of the table.
pub record Fits (clock : ℕ) (flights : List Notification) (posts : List String) (t : Table)
    : Type 0 where
  pub keyed : IsKeyed t
  pub counted : All (Counts posts) t
  pub held : All (Holds clock t) flights

abbrev pub Flown : List String → List Notification → Type 0
Flown posts = All (λ (f : Notification). 1 ≤ posts_of f.id posts)

module _ (clock : ℕ) (flights : List Notification) (posts : List String) where
  pub select-Fits :
      (p : Notification → Bool) (t : Table)
      → Fits clock flights posts t
      → Fits clock flights posts (select p t)
  select-Fits p t f = record {
    keyed = select-IsKeyed p t f.keyed;
    counted = All-select (Counts posts) p t f.counted;
    held =
        All-imp (Holds clock t) (Holds clock (select p t)) flights
          (λ g h runs. All-select (Agrees g) p t (h runs)) f.held;
  }

  pub append-Fits :
      (row : Notification) (t : Table)
      → Others row.id t
      → posts_of row.id posts ≡ 0
      → row.attempts ≡ 0
      → Flown posts flights
      → Fits clock flights posts t
      → Fits clock flights posts (t ++ row ∷ [])
  append-Fits row t o new zero_attempts flown f = record {
    keyed = append-IsKeyed t row o f.keyed;
    counted =
        All-append (Counts posts) t (row ∷ []) f.counted
          ((omega (arith, new, zero_attempts), omega (arith, zero_attempts)), tt);
    held = held_by flights flown f.held;
  }
    where
      held_by :
          (fs : List Notification)
          → Flown posts fs
          → All (Holds clock t) fs
          → All (Holds clock (t ++ row ∷ [])) fs
      held_by [] w h = tt
      held_by (g ∷ gs) w h = (
        (λ runs.
            All-append (Agrees g) t (row ∷ []) (h.0 runs)
              ((λ e. absurd (omega (arith, w.0, ap (λ id. posts_of id posts) e, new))), tt)),
        held_by gs w.1 h.1,
      )

  pub map-Fits :
      (f : Notification → Notification) (t : Table)
      → ((n : Notification) → (f n).id ≡ n.id)
      → All (λ (n : Notification). (f n).attempts ≡ n.attempts) t
      → ((n : Notification) → (f n).lease ≡ n.lease)
      → Fits clock flights posts t
      → Fits clock flights posts (map f t)
  map-Fits f t same attempts lease fits = record {
    keyed = map-IsKeyed f same t fits.keyed;
    counted = map-Counts f same posts t attempts fits.counted;
    held =
        All-imp (Holds clock t) (Holds clock (map f t)) flights
          (λ g h runs.
            map-Agrees f same g t
              (All-imp (λ (n : Notification). (f n).attempts ≡ n.attempts) _ t
                (λ n e _. (e, lease n)) attempts)
              (h runs))
          fits.held;
  }

pub exhausted_row-same :
    (now : ℕ) (n : Notification)
    → ((exhausted_row now n).id ≡ n.id)
      × ((exhausted_row now n).attempts ≡ n.attempts)
      × ((exhausted_row now n).lease ≡ n.lease)
unfolding exhausted_row
exhausted_row-same now n = elim (Bool-cases (is_pending n && leb 5 n.attempts && leb n.lease now)) [
  | inl over ↦ rw (over, exhausted_row) (refl, refl, refl)
  | inr fine ↦ rw (fine, exhausted_row) (refl, refl, refl)
]

pub finished_row-id :
    (outcome : AlertOutcome) (terminal : Bool) (now : ℕ) (row n : Notification)
    → (finished_row outcome terminal now row n).id ≡ n.id
unfolding finished_row settled
finished_row-id outcome terminal now row n = elim (Bool-cases (str_eq n.id row.id)) [
  | inl hit ↦ rw (hit, finished_row) refl
  | inr miss ↦ rw (miss, finished_row) refl
]

pub finished_row-other :
    (outcome : AlertOutcome) (terminal : Bool) (now : ℕ) (row n : Notification)
    → n.id ≢ row.id
    → finished_row outcome terminal now row n ≡ n
unfolding finished_row
finished_row-other outcome terminal now row n ne = elim (Bool-cases (str_eq n.id row.id)) [
  | inl hit ↦ absurd (ne ((eq_iff n.id row.id).0 hit))
  | inr miss ↦ rw (miss, finished_row) refl
]

pub finished_row-attempts :
    (outcome : AlertOutcome) (terminal : Bool) (now : ℕ) (row n : Notification)
    → Agrees row n
    → (finished_row outcome terminal now row n).attempts ≡ n.attempts
unfolding finished_row settled
finished_row-attempts outcome terminal now row n a = elim (Bool-cases (str_eq n.id row.id)) [
  | inl hit ↦ rw (hit, finished_row) (sym (a ((eq_iff n.id row.id).0 hit)).0)
  | inr miss ↦ rw (miss, finished_row) refl
]
