-- ===== src/Dates/Order.antt =====
-- Lists of anything that has a wall-clock time: `list.sort(key=...)` is stable.
use school_bells.Prelude.{
  ℕ, ◌≤◌, ◌≡◌, refl, Bool, List, [], ◌∷◌, ◌++◌, arith, leb, All, select, if◌then◌else◌, Bool-cases,
  inl, inr, le→leb, leb→le,
}
use mathlib.Core.List.{Perm}
use mathlib.Core.List.Perm

module _ {ℓ} {A : Type ℓ} (key : A → ℕ) where
  -- In front of the first element with a greater key or an equal one.
  insert_by : A → List A → List A
  insert_by a [] = a ∷ []
  insert_by a (b ∷ bs) = if leb (key a) (key b) then a ∷ b ∷ bs else b ∷ insert_by a bs

  unfoldable pub sort_by : List A → List A
  unfolding insert_by
  sort_by [] = []
  sort_by (a ∷ xs) = insert_by a (sort_by xs)

  abbrev pub From : ℕ → List A → Type 0
  From n [] = Unit
  From n (a ∷ xs) = (n ≤ key a) × From (key a) xs

  pub From-le : (m n : ℕ) (xs : List A) → m ≤ n → From n xs → From m xs
  From-le m n [] h s = tt
  From-le m n (a ∷ xs) h s = (omega arith, s.1)

  insert_by-From : (n : ℕ) (a : A) (bs : List A) → n ≤ key a → From n bs → From n (insert_by a bs)
  unfolding insert_by
  insert_by-From n a [] h s = (h, tt)
  insert_by-From n a (b ∷ bs) h s = elim (Bool-cases (leb (key a) (key b))) [
    | inl le ↦ rw (le, insert_by) (h, (leb→le _ _ le, s.1))
    | inr gt ↦ rw (gt, insert_by) (s.0, insert_by-From (key b) a bs (ground arith) s.1)
  ]

  -- The result is sorted.
  pub sort_by-From : (xs : List A) → From 0 (sort_by xs)
  unfolding sort_by
  sort_by-From [] = tt
  sort_by-From (a ∷ xs) = insert_by-From 0 a (sort_by xs) (omega arith) (sort_by-From xs)

  insert_by-perm : (a : A) (bs : List A) → Perm (insert_by a bs) (a ∷ bs)
  unfolding insert_by
  insert_by-perm a [] = Perm.refl _
  insert_by-perm a (b ∷ bs) = elim (Bool-cases (leb (key a) (key b))) [
    | inl le ↦ rw (le, insert_by) (Perm.refl _)
    | inr gt ↦
        rw (gt, insert_by) (Perm.trans (Perm.cons b (insert_by-perm a bs)) (Perm.swap a b bs))
  ]

  -- The result has the elements of the list.
  pub sort_by-perm : (xs : List A) → Perm (sort_by xs) xs
  unfolding sort_by
  sort_by-perm [] = Perm.refl _
  sort_by-perm (a ∷ xs) = Perm.trans (insert_by-perm a (sort_by xs)) (Perm.cons a (sort_by-perm xs))

  insert_by-least : (a : A) (bs : List A) → From (key a) bs → insert_by a bs ≡ a ∷ bs
  unfolding insert_by
  insert_by-least a [] s = refl
  insert_by-least a (b ∷ bs) s = rw (le→leb (key a) (key b) s.0, insert_by)

  -- A sorted list stays as it is.
  pub sort_by-sorted : (n : ℕ) (xs : List A) → From n xs → sort_by xs ≡ xs
  unfolding sort_by
  sort_by-sorted n [] s = refl
  sort_by-sorted n (a ∷ xs) s = rw (sort_by-sorted (key a) xs s.1) (insert_by-least a xs s.1)

  insert_by-All : (P : A → Type 0) (a : A) (bs : List A) → P a → All P bs → All P (insert_by a bs)
  unfolding insert_by
  insert_by-All P a [] h hs = (h, tt)
  insert_by-All P a (b ∷ bs) h hs = elim (Bool-cases (leb (key a) (key b))) [
    | inl le ↦ rw (le, insert_by) (h, (hs.0, hs.1))
    | inr gt ↦ rw (gt, insert_by) (hs.0, insert_by-All P a bs h hs.1)
  ]

  pub sort_by-All : (P : A → Type 0) (xs : List A) → All P xs → All P (sort_by xs)
  unfolding sort_by
  sort_by-All P [] h = tt
  sort_by-All P (a ∷ xs) h = insert_by-All P a (sort_by xs) h.0 (sort_by-All P xs h.1)

  pub From-select : (p : A → Bool) (n : ℕ) (xs : List A) → From n xs → From n (select p xs)
  From-select p n [] s = tt
  From-select p n (a ∷ xs) s = elim (Bool-cases (p a)) [
    | inl keep ↦ rw (keep, select) (s.0, From-select p (key a) xs s.1)
    | inr drop ↦ rw (drop, select) (From-select p n xs (From-le n (key a) xs s.0 s.1))
  ]

  -- A sorted block below a bound, in front of a sorted block above it.
  pub From-append :
      (n m : ℕ) (xs ys : List A)
      → From n xs
      → All (λ a. key a ≤ m) xs
      → n ≤ m
      → From m ys
      → From n (xs ++ ys)
  From-append n m [] ys s b h t = From-le n m ys h t
  From-append n m (a ∷ xs) ys s b h t = (s.0, From-append (key a) m xs ys s.1 b.1 b.0 t)
