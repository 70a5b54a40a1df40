-- ===== src/Dates.antt =====
-- The values of Python's `datetime` that bell/scheduler.py and bell/safety.py compute with: a date
-- is its proleptic ordinal (`date.toordinal`), a time of day its microseconds, and an aware
-- datetime the two with the offset from UTC that its zone gives. Datetimes of one zone compare by
-- the wall clock, of two zones by the instant, as Python's do.
pub mod Order
use Prim.Native.String.{◌++◌ as append, compare}
use Prim.Native.Nat.{Ordering}
use school_bells.Prelude.{
  ℕ, zero, suc, ◌+◌, ◌-◌, ◌*◌, ◌/◌, ◌%◌, String, Bool, true, false, ◌&&◌, ◌||◌, not, List, [], ◌∷◌,
  ltb, leb, ◌==◌, if◌then◌else◌, show, pad_two, pad_four, ◌≡◌, refl,
}

infixr 65 ◌&◌
abbrev pub ◌&◌ : String → String → String
a & b = append a b

-- Microseconds.
abbrev pub second : ℕ
second = 1000000

abbrev pub minute : ℕ
minute = 60 * second

abbrev pub hour : ℕ
hour = 60 * minute

abbrev pub day_length : ℕ
day_length = 24 * hour

-- Minutes east or west of UTC.
pub data Offset : Type 0 where
  east west : ℕ → Offset

pub record Moment : Type 0 where
  pub date : ℕ
  pub time : ℕ
  pub offset : Offset

-- Comparisons and differences within one zone.
abbrev pub wall : Moment → ℕ
wall m = m.date * day_length + m.time

abbrev shift : Offset → ℕ → ℕ
shift (east k) t = t - k * minute
shift (west k) t = t + k * minute

-- Comparisons between zones.
abbrev pub instant : Moment → ℕ
instant m = shift m.offset (wall m)

-- `date.strftime("%A").lower()`
unfoldable pub weekday_name : ℕ → String
weekday_name d =
    let w = (d + 6) % 7 in
    if w == 0
    then "monday"
    else if w == 1
    then "tuesday"
    else if w == 2
    then "wednesday"
    else if w == 3
    then "thursday"
    else if w == 4
    then "friday"
    else if w == 5
    then "saturday"
    else "sunday"

pub record Civil : Type 0 where
  pub year : ℕ
  pub month : ℕ
  pub day : ℕ

days_before_month : ℕ → Bool → ℕ
days_before_month m leap =
    let feb = if leap then 1 else 0 in
    if leb m 1 then 0 else if m == 2 then 31 else feb + (367 * m - 362) / 12 - 2

-- `date.fromordinal`, by the cycles of 400, 100, 4 and 1 years.
unfoldable pub civil : ℕ → Civil
unfolding days_before_month
civil ordinal =
    let n = ordinal - 1 in
    let r400 = n % 146097 in
    let n100 = r400 / 36524 in
    let r100 = r400 % 36524 in
    let n4 = r100 / 1461 in
    let r4 = r100 % 1461 in
    let n1 = r4 / 365 in
    let r = r4 % 365 in
    let y = n / 146097 * 400 + n100 * 100 + n4 * 4 + n1 + 1 in
    let leap = n1 == 3 && (not (n4 == 24) || n100 == 3) in
    let guess = (r + 50) / 32 in
    let m = if ltb r (days_before_month guess leap) then guess - 1 else guess in
    if n1 == 4 || n100 == 4
    then record { year = y - 1; month = 12; day = 31 }
    else record { year = y; month = m; day = r - days_before_month m leap + 1 }

-- `date.isoformat()`
unfoldable pub iso_date : ℕ → String
unfolding civil pad_four
iso_date d = let c = civil d in pad_four c.year & "-" & pad_two c.month & "-" & pad_two c.day

-- f"{t:%H:%M}"
unfoldable pub clock : ℕ → String
unfolding pad_two
clock t = pad_two (t / hour) & ":" & pad_two (t / minute % 60)

offset_text : Offset → String
unfolding pad_two
offset_text (east k) = "+" & pad_two (k / 60) & ":" & pad_two (k % 60)
offset_text (west zero) = "+00:00"
offset_text (west k) = "-" & pad_two (k / 60) & ":" & pad_two (k % 60)

six_digits : ℕ → String
unfolding pad_four
six_digits n = pad_two (n / 10000) & pad_four (n % 10000)

-- `datetime.isoformat()`: the microseconds are left out where they are zero.
unfoldable pub iso : Moment → String
unfolding iso_date clock six_digits offset_text
iso m =
    let fraction = m.time % second in
    iso_date m.date
    & "T"
    & clock m.time
    & ":"
    & pad_two (m.time / second % 60)
    & (if fraction == 0 then "" else "." & six_digits fraction)
    & offset_text m.offset

-- The order of texts in SQLite.
abbrev pub text_lt : String → String → Bool
text_lt a b = elim (compare a b) [ Ordering.lt ↦ true | _ ↦ false ]

epoch_is_a_thursday : weekday_name 719163 ≡ "thursday"
unfolding weekday_name
epoch_is_a_thursday = refl

iso_runs :
    iso (record { date = 738945; time = 8 * hour + 5 * minute + 250; offset = west 360 })
    ≡ "2024-02-29T08:05:00.000250-06:00"
unfolding iso
iso_runs = refl

civil_year_end :
    iso_date 738885 & iso_date 739251 & iso_date 739252 ≡ "2023-12-312024-12-312025-01-01"
unfolding iso_date
civil_year_end = refl
