-- ===== src/Fires/Claims.antt =====
-- Claiming an event in `fire_attempts` of bell/scheduler.py.
use school_bells.Prelude.{
  All, length, leb, suc, none, ◌<◌, ℕ, ◌+◌, ◌≡◌, ◌↔◌, ◌⊎◌, refl, ap, ◌∙◌, String, Bool, true, false,
  List, [], ◌∷◌, ◌++◌, Option, some, arith, ◌==◌, ==_iff, eq_iff, if◌then◌else◌, any, select,
  Bool-cases, inl, inr,
}
use school_bells.Dates.{Moment}
use school_bells.Fires.{
  PlannedEvent, FireRow, Tables, is_row, has_attempt, count_day, attempt_count, fire_row, reached,
  record_once, update_rows, result_in, result_of, update_result,
}

abbrev pub has_row : ℕ → String → List FireRow → Bool
has_row day k rows = any (is_row day k) rows

-- No two rows have one primary key.
abbrev pub IsKeyed : List FireRow → Type 0
IsKeyed [] = Unit
IsKeyed (row ∷ rows) = (has_row row.day row.event_key rows ≡ false) × IsKeyed rows

is_row_iff :
    (d : ℕ) (k : String) (r : FireRow) → (is_row d k r ≡ true) ↔ ((r.day ≡ d) × (r.event_key ≡ k))
unfolding is_row
is_row_iff d k r = ground (arith, eq_iff r.event_key k, ==_iff r.day d)

pub has_row-append :
    (d : ℕ) (k : String) (rows more : List FireRow)
    → has_row d k (rows ++ more) ≡ (if has_row d k rows then true else has_row d k more)
has_row-append d k [] more = refl
has_row-append d k (r ∷ rows) more = ground (arith, has_row-append d k rows more)

pub count_day-append :
    (d : ℕ) (rows more : List FireRow)
    → count_day d (rows ++ more) ≡ count_day d rows + count_day d more
unfolding count_day
count_day-append d [] more = omega arith
count_day-append d (r ∷ rows) more = ground (arith, count_day-append d rows more)

-- A new key at the end keeps the keys distinct.
IsKeyed-append :
    (rows : List FireRow) (r : FireRow)
    → has_row r.day r.event_key rows ≡ false
    → IsKeyed rows
    → IsKeyed (rows ++ r ∷ [])
IsKeyed-append [] r fresh h = (refl, tt)
IsKeyed-append (s ∷ rows) r fresh h = (other, IsKeyed-append rows r (ground arith) h.1)
  where
    apart : is_row s.day s.event_key r ≡ false
    apart = ground (arith, is_row_iff s.day s.event_key r, is_row_iff r.day r.event_key s)

    other : has_row s.day s.event_key (rows ++ r ∷ []) ≡ false
    other = rw (has_row-append s.day s.event_key rows (r ∷ []), h.0) (ground (arith, apart))

module _ (day : ℕ) (k result detail : String) where
  pub has_row-update_rows :
      (d : ℕ) (j : String) (rows : List FireRow)
      → has_row d j (update_rows day k result detail rows) ≡ has_row d j rows
  unfolding update_rows
  has_row-update_rows d j [] = refl
  has_row-update_rows d j (r ∷ rows) = ground (arith, has_row-update_rows d j rows)

  pub count_day-update_rows :
      (d : ℕ) (rows : List FireRow)
      → count_day d (update_rows day k result detail rows) ≡ count_day d rows
  unfolding update_rows count_day
  count_day-update_rows d [] = refl
  count_day-update_rows d (r ∷ rows) = ground (arith, count_day-update_rows d rows)

  pub IsKeyed-update_rows :
      (rows : List FireRow) → IsKeyed rows → IsKeyed (update_rows day k result detail rows)
  unfolding update_rows
  IsKeyed-update_rows [] h = tt
  IsKeyed-update_rows (r ∷ rows) h = elim (Bool-cases (is_row day k r)) [
    | inl hit ↦
        rw (hit, update_rows)
          (rw (has_row-update_rows r.day r.event_key rows) h.0, IsKeyed-update_rows rows h.1)
    | inr miss ↦
        rw (miss, update_rows)
          (rw (has_row-update_rows r.day r.event_key rows) h.0, IsKeyed-update_rows rows h.1)
  ]

has_row-select :
    (p : FireRow → Bool) (d : ℕ) (k : String) (rows : List FireRow)
    → has_row d k rows ≡ false
    → has_row d k (select p rows) ≡ false
has_row-select p d k [] h = refl
has_row-select p d k (r ∷ rows) h = ground (arith, has_row-select p d k rows)

pub IsKeyed-select :
    (p : FireRow → Bool) (rows : List FireRow) → IsKeyed rows → IsKeyed (select p rows)
IsKeyed-select p [] h = tt
IsKeyed-select p (r ∷ rows) h = elim (Bool-cases (p r)) [
  | inl keep ↦
      rw (keep, select) (has_row-select p r.day r.event_key rows h.0, IsKeyed-select p rows h.1)
  | inr drop ↦ rw (drop, select) (IsKeyed-select p rows h.1)
]

result-append :
    (day : ℕ) (k : String) (row : FireRow) (rows : List FireRow)
    → has_row day k rows ≡ false
    → is_row day k row ≡ true
    → result_in day k (rows ++ row ∷ []) ≡ some row.result
unfolding result_in
result-append day k row [] fresh this = rw this refl
result-append day k row (r ∷ rows) fresh this = ground (arith, result-append day k row rows)

result-update_rows :
    (day : ℕ) (k result detail : String) (rows : List FireRow)
    → has_row day k rows ≡ true
    → result_in day k (update_rows day k result detail rows) ≡ some result
unfolding result_in update_rows
result-update_rows day k result detail [] h = cc
result-update_rows day k result detail (r ∷ rows) h =
    ground (arith, result-update_rows day k result detail rows)

-- After an update the row of the key shows the new result.
pub result-update :
    (day : ℕ) (k result detail : String) (t : Tables)
    → has_attempt day k t ≡ true
    → result_of day k (update_result day k result detail t) ≡ some result
unfolding result_of update_result has_attempt
result-update day k result detail t h = result-update_rows day k result detail t.fire_attempts h

module _ (day : ℕ) (k result detail : String) (now : Moment) (planned : Option PlannedEvent)
    (cap : Option ℕ) (t : Tables) where
  abbrev after : Tables × Bool
  after = record_once day k result detail now planned cap t

  pub record_once_iff :
      (after.1 ≡ true)
      ↔ ((has_attempt day k t ≡ false) × (reached (attempt_count day t) cap ≡ false))
  unfolding record_once
  record_once_iff = ground arith

  row_day : (fire_row day k result detail now planned).day ≡ day
  unfolding fire_row
  row_day = ground arith

  row_key : (fire_row day k result detail now planned).event_key ≡ k
  unfolding fire_row
  row_key = ground arith

  row_is : is_row day k (fire_row day k result detail now planned) ≡ true
  row_is = (is_row_iff day k _).1 (row_day, row_key)

  count_one :
      (d : ℕ)
      → count_day d (fire_row day k result detail now planned ∷ []) ≡ (if day == d then 1 else 0)
  unfolding count_day
  count_one d = rw row_day refl

  abbrev grown : List FireRow
  grown = t.fire_attempts ++ fire_row day k result detail now planned ∷ []

  has_row-grown : has_row day k grown ≡ true
  has_row-grown = rw (has_row-append day k t.fire_attempts _) (ground (arith, row_is))

  -- The two ways in which a claim ends.
  pub record_once-cases :
      (after ≡ (t, false))
      ⊎ ((after ≡ (record t { fire_attempts = grown }, true))
          × (has_attempt day k t ≡ false)
          × (reached (attempt_count day t) cap ≡ false))
  unfolding record_once
  record_once-cases = elim (Bool-cases (reached (attempt_count day t) cap)) [
    | inl full ↦ inl (rw full refl)
    | inr room ↦ elim (Bool-cases (has_attempt day k t)) [
      | inl seen ↦ inl (rw (room, seen) refl)
      | inr fresh ↦ inr (rw (room, fresh) refl, fresh, room)
    ]
  ]

  -- A claim that succeeds leaves the key attempted and adds one to the attempts of its day and of
  -- no other; a claim that fails changes no table.
  pub record_once_effect :
      (after.1 ≡ true
        → (has_attempt day k after.0 ≡ true)
          × ((d : ℕ) → attempt_count d after.0 ≡ attempt_count d t + (if day == d then 1 else 0)))
      × (after.1 ≡ false → after.0 ≡ t)
  unfolding has_attempt attempt_count
  record_once_effect = elim record_once-cases [
    | inl e ↦ (λ h. cc, λ h. ap (λ (r : Tables × Bool). r.0) e)
    | inr (e, fresh, room) ↦ (
      λ h. (rw e has_row-grown, λ d. rw (e, count_day-append d t.fire_attempts, count_one d)),
      λ h. cc,
    )
  ]

  pub record_once-IsKeyed : IsKeyed t.fire_attempts → IsKeyed after.0.fire_attempts
  unfolding has_attempt
  record_once-IsKeyed h = elim record_once-cases [
    | inl e ↦ rw e h
    | inr (e, fresh, room) ↦ rw e (
        IsKeyed-append t.fire_attempts (fire_row day k result detail now planned)
          (rw (row_day, row_key) fresh) h)
  ]

  pub row_result : (fire_row day k result detail now planned).result ≡ result
  unfolding fire_row
  row_result = ground arith

  -- A new row shows the result that it was recorded with.
  pub result-record :
      has_attempt day k t ≡ false
      → reached (attempt_count day t) cap ≡ false
      → result_of day k after.0 ≡ some result
  unfolding result_of has_attempt
  result-record fresh room = elim record_once-cases [
    | inl e ↦ absurd (cc (record_once_iff.1 (fresh, room)))
    | inr (e, f, g) ↦
        rw e (
          result-append day k (fire_row day k result detail now planned) t.fire_attempts fresh
            row_is)
        ∙ ap some row_result
  ]

-- The row has this key.
abbrev pub HasKey : ℕ → String → FireRow → Type 0
HasKey day k row = (row.day ≡ day) × (row.event_key ≡ k)

fresh_rows :
    (day : ℕ) (k : String) (rows : List FireRow)
    → (has_row day k rows ≡ false) ↔ All (λ row. HasKey day k row → ⊥) rows
fresh_rows day k [] = (λ _. tt, λ _. refl)
fresh_rows day k (row ∷ rows) = elim (Bool-cases (is_row day k row)) [
  | inl hit ↦ rw (hit) (λ h. absurd cc, λ (other, _). absurd (other ((is_row_iff day k row).0 hit)))
  | inr miss ↦ rw (miss) (
    λ h. (λ e. absurd (cc (miss, (is_row_iff day k row).1 e)), (fresh_rows day k rows).0 h),
    λ (_, rest). (fresh_rows day k rows).1 rest,
  )
]

-- The rows of a day, counted.
count_day_lem :
    (day : ℕ) (rows : List FireRow)
    → count_day day rows ≡ length (select (λ (row : FireRow). row.day == day) rows)
unfolding count_day
count_day_lem day [] = refl
count_day_lem day (row ∷ rows) = elim (Bool-cases (row.day == day)) [
  | inl hit ↦ rw (hit, select) (ap suc (count_day_lem day rows))
  | inr miss ↦ rw (miss, select) (count_day_lem day rows)
]

-- There is no cap, or the day has fewer rows than it.
abbrev pub BelowCap : ℕ → Option ℕ → List FireRow → Type 0
BelowCap day cap rows =
    (n : ℕ) → cap ≡ some n → length (select (λ (row : FireRow). row.day == day) rows) < n

below_cap :
    (day : ℕ) (cap : Option ℕ) (rows : List FireRow)
    → (reached (count_day day rows) cap ≡ false) ↔ BelowCap day cap rows
unfolding reached
below_cap day none rows = (λ _ n e. absurd (cc e), λ _. refl)
below_cap day (some n) rows = (λ h m e. below m (same m e) h, λ h. free (h n refl))
  where
    same : (m : ℕ) → some n ≡ some m → n ≡ m
    same m e = cc (e)

    below :
        (m : ℕ)
        → n ≡ m
        → leb n (count_day day rows) ≡ false
        → length (select (λ (row : FireRow). row.day == day) rows) < m
    below m e h = ground (arith, e, h, count_day_lem day rows)

    free :
        length (select (λ (row : FireRow). row.day == day) rows) < n
        → leb n (count_day day rows) ≡ false
    free h = ground (arith, h, count_day_lem day rows)

row_detail :
    (day : ℕ) (k result detail : String) (now : Moment) (planned : Option PlannedEvent)
    → (fire_row day k result detail now planned).detail ≡ detail
unfolding fire_row
row_detail day k result detail now planned = ground arith

-- `record_once` inserts exactly when no row has the key and the rows of the day are fewer than the
-- cap, if one is given. When it does, one row with the key, the result and the detail given stands
-- behind the rows of `fire_attempts` that were there, and the other tables are as they were; when it
-- does not, no table changes.
pub record_once-Inserts :
    (day : ℕ) (k result detail : String) (now : Moment) (planned : Option PlannedEvent)
    (cap : Option ℕ) (t : Tables)
    → (((record_once day k result detail now planned cap t).1 ≡ true)
        ↔ (All (λ row. HasKey day k row → ⊥) t.fire_attempts × BelowCap day cap t.fire_attempts))
      × ((record_once day k result detail now planned cap t).1 ≡ true
          → (row : FireRow) × HasKey day k row
            × (row.result ≡ result)
            × (row.detail ≡ detail)
            × ((record_once day k result detail now planned cap t).0
                ≡ record t { fire_attempts = t.fire_attempts ++ row ∷ [] }))
      × ((record_once day k result detail now planned cap t).1 ≡ false
          → (record_once day k result detail now planned cap t).0 ≡ t)
unfolding has_attempt attempt_count
record_once-Inserts day k result detail now planned cap t = (
  (
    λ h.
        let (fresh, room) = (record_once_iff day k result detail now planned cap t).0 h in
        ((fresh_rows day k t.fire_attempts).0 fresh, (below_cap day cap t.fire_attempts).0 room),
    λ (fresh, room).
        (record_once_iff day k result detail now planned cap t).1
          ((fresh_rows day k t.fire_attempts).1 fresh, (below_cap day cap t.fire_attempts).1 room),
  ),
  λ h. elim (record_once-cases day k result detail now planned cap t) [
    | inl e ↦ absurd (cc (h, e))
    | inr (e, _, _) ↦ (
      fire_row day k result detail now planned,
      (
        row_day day k result detail now planned cap t,
        row_key day k result detail now planned cap t,
      ),
      row_result day k result detail now planned cap t,
      row_detail day k result detail now planned,
      ap (λ (r : Tables × Bool). r.0) e,
    )
  ],
  (record_once_effect day k result detail now planned cap t).1,
)
