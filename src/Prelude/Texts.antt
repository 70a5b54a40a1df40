-- ===== src/Prelude/Texts.antt =====
-- Texts: decimal numerals as `str` and `format` write them, and the code points of a text.
use Prim.Native.Nat.{ℕ, zero, suc, ◌/◌, ◌%◌, ◌+◌}
use Prim.Native.Char.{code}
use Prim.Native.String.{String, ◌++◌}
use mathlib.Core.Path.{◌≡◌, refl}
use mathlib.Core.List.{List, [], ◌∷◌}
use school_bells.Prelude.Tests.{◌==◌, ltb, if◌then◌else◌}

-- The code points of a text; its bytes, where it is ASCII.
abbrev pub codes : String → List ℕ
codes String.[] = []
codes (String.◌∷◌ c s) = code c ∷ codes s

pub digit : ℕ → String
digit d =
    if d == 0
    then "0"
    else if d == 1
    then "1"
    else if d == 2
    then "2"
    else if d == 3
    then "3"
    else if d == 4
    then "4"
    else if d == 5
    then "5"
    else if d == 6
    then "6"
    else if d == 7
    then "7"
    else if d == 8
    then "8"
    else "9"

-- The decimal digits of a number; a number has fewer digits than its own value plus one.
numeral : ℕ → ℕ → String → String
numeral zero n tail = tail
numeral (suc fuel) n tail =
    let rest = numeral fuel (n / 10) (digit (n % 10) ++ tail) in
    if ltb n 10 then digit n ++ tail else rest

-- str(n)
unfoldable pub show : ℕ → String
unfolding numeral digit
show n = numeral (n + 1) n ""

-- f"{n:02}" and f"{n:04}", for numbers of at most so many digits
unfoldable pub pad_two : ℕ → String
unfolding digit
pad_two n = digit (n / 10 % 10) ++ digit (n % 10)

unfoldable pub pad_four : ℕ → String
unfolding pad_two
pad_four n = pad_two (n / 100) ++ pad_two (n % 100)

show_runs : show 2050 ++ pad_two 7 ++ pad_four 42 ≡ "2050070042"
unfolding show pad_four
show_runs = refl
