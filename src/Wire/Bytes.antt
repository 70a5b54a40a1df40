-- ===== src/Wire/Bytes.antt =====
-- Fields of a packet: big-endian numbers, and where they are read again.
use Prim.Native.Nat.{bit_or}
use school_bells.Prelude.{
  ℕ, zero, suc, ◌+◌, ◌*◌, ◌/◌, ◌%◌, ◌^◌, ◌<◌, ◌≡◌, refl, Bool, true, ◌&&◌, List, [], ◌∷◌, arith,
  ◌==◌, ==_iff,
}

abbrev pub be16 : ℕ → List ℕ
be16 n = n / 256 % 256 ∷ n % 256 ∷ []

abbrev pub be32 : ℕ → List ℕ
be32 n = n / 16777216 % 256 ∷ n / 65536 % 256 ∷ n / 256 % 256 ∷ n % 256 ∷ []

-- The byte at a place; 0 past the end, where the source never reads.
abbrev pub byte_at : ℕ → List ℕ → ℕ
byte_at i [] = 0
byte_at zero (b ∷ bs) = b
byte_at (suc i) (b ∷ bs) = byte_at i bs

-- `struct.unpack("!I", ...)`
abbrev pub read32 : ℕ → List ℕ → ℕ
read32 i bs =
    byte_at i bs * 16777216
    + byte_at (suc i) bs * 65536
    + byte_at (suc (suc i)) bs * 256
    + byte_at (suc (suc (suc i))) bs

pub read-be32 :
    (n : ℕ)
    → n < 2 ^ 32
    → n / 16777216 % 256 * 16777216 + n / 65536 % 256 * 65536 + n / 256 % 256 * 256 + n % 256 ≡ n
read-be32 n h = omega arith

pub read-be16 : (n : ℕ) → n < 2 ^ 16 → n / 256 % 256 * 256 + n % 256 ≡ n
read-be16 n h = omega arith

-- A test of the first numbers, one by one.
unfoldable pub all_below : ℕ → (ℕ → Bool) → Bool
all_below zero test = true
all_below (suc count) test = all_below count test && test count

pub all_below_sound :
    (count : ℕ) (test : ℕ → Bool) (k : ℕ) → all_below count test ≡ true → k < count → test k ≡ true
unfolding all_below
all_below_sound (suc count) test k passed below = ground (arith, all_below_sound count test k)
all_below_sound zero test k passed below = absurd (omega arith)

or_table : all_below 128 (λ p. bit_or 128 p == 128 + p) ≡ true
unfolding all_below
or_table = refl

pub bit_or-128 : (p : ℕ) → p < 128 → bit_or 128 p ≡ 128 + p
bit_or-128 p h = (==_iff _ _).0 (all_below_sound 128 (λ p. bit_or 128 p == 128 + p) p or_table h)

zero_table : all_below 128 (λ p. bit_or 0 p == p) ≡ true
unfolding all_below
zero_table = refl

pub bit_or-0 : (p : ℕ) → p < 128 → bit_or 0 p ≡ p
bit_or-0 p h = (==_iff _ _).0 (all_below_sound 128 (λ p. bit_or 0 p == p) p zero_table h)
