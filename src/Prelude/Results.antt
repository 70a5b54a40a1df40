-- ===== src/Prelude/Results.antt =====
-- Exceptions as values: what a function that may raise returns, with the message of the exception.
use Prim.Native.String.{String}
use mathlib.Core.Path.{◌≡◌, refl, sym, ap}
use mathlib.Core.Bool.{Bool, true, false}
use mathlib.Core.Logic.{◌⊎◌, inl, inr}

pub data Result {ℓ} (A : Type ℓ) : Type ℓ where
  err : String → Result A
  ok : A → Result A

-- `if not test: raise ...`
abbrev pub ensure : Bool → String → Result (Unit {0})
ensure false message = err message
ensure true message = ok tt

infixl 5 ◌>>=◌
abbrev pub ◌>>=◌ {κ ℓ} : {B : Type κ} {A : Type ℓ} → Result A → (A → Result B) → Result B
err message >>= next = err message
ok value >>= next = next value

infixl 5 ◌>>◌
abbrev pub ◌>>◌ {κ} : {B : Type κ} → Result (Unit {0}) → Result B → Result B
first >> rest = first >>= λ _. rest

abbrev pub is_ok {ℓ} : {A : Type ℓ} → Result A → Bool
is_ok (ok _) = true
is_ok (err _) = false

-- A chain that returns has a first part that returned.
pub >>=-eq-ok {κ ℓ} :
    {B : Type κ} {A : Type ℓ} {result : B} (call : Result A) (next : A → Result B)
    → (call >>= next) ≡ ok result
    → (value : A) × (call ≡ ok value) × (next value ≡ ok result)
>>=-eq-ok (err message) next raised = cc
>>=-eq-ok (ok value) next returned = (value, refl, returned)

abbrev from_ok {ℓ} : {A : Type ℓ} → A → Result A → A
from_ok d (ok a) = a
from_ok d (err _) = d

pub ok-injective {ℓ} : {A : Type ℓ} {a b : A} → ok a ≡ ok b → a ≡ b
ok-injective {a = a} e = ap (from_ok a) e

pub not-ok-err {ℓ} : {A : Type ℓ} {a : A} {e : String} → ok a ≡ err e → ⊥
not-ok-err h = cc

-- What a guard that let the rest go on says.
pub ensure-then {ℓ} :
    {B : Type ℓ} (b : Bool) (e : String) (k : Result B) {v : B}
    → (ensure b e >> k) ≡ ok v
    → (b ≡ true) × (k ≡ ok v)
ensure-then true e k h = (refl, h)
ensure-then false e k h = absurd (not-ok-err (sym h))

-- `try: ... except ...: raise ... from exc`, with one message.
abbrev pub reraise {ℓ} : {A : Type ℓ} → String → Result A → Result A
reraise message (ok a) = ok a
reraise message (err _) = err message

pub reraise-ok {ℓ} :
    {A : Type ℓ} (message : String) (m : Result A) {a : A} → reraise message m ≡ ok a → m ≡ ok a
reraise-ok message (ok b) h = h
reraise-ok message (err e) h = absurd (not-ok-err (sym h))

pub Result-cases {ℓ} :
    {A : Type ℓ} (m : Result A) → ((e : String) × (m ≡ err e)) ⊎ ((a : A) × (m ≡ ok a))
Result-cases (err e) = inl (e, refl)
Result-cases (ok a) = inr (a, refl)

abbrev message_of {ℓ} : {A : Type ℓ} → Result A → String
message_of (ok a) = ""
message_of (err e) = e

pub err-injective {ℓ} : {A : Type ℓ} {a b : String} → Path (Result A) (err a) (err b) → a ≡ b
err-injective e = ap message_of e
