-- ===== src/Tests/Ascii.antt =====
-- The decimal digits of ASCII alone, as one reading of `\d`.
use android_farm.Prelude.{
  ℕ, ◌+◌, ◌-◌, ◌<◌, ◌≡◌, ◌&&◌, Option, none, some, arith, leb, if◌then◌else◌,
}
use android_farm.Prelude.Decimal.{Unicode}

abbrev pub ascii_digit : ℕ → Option ℕ
ascii_digit c = if leb 48 c && leb c 57 then some (c - 48) else none

pub ascii_digit_lem : (d : ℕ) → d < 10 → ascii_digit (48 + d) ≡ some d
ascii_digit_lem d h = ground arith

pub ascii_digit_below : (c d : ℕ) → ascii_digit c ≡ some d → d < 10
ascii_digit_below c d h = ground arith

abbrev pub ascii : Unicode
ascii = record {
  decimal_digit = ascii_digit;
  ascii = ascii_digit_lem;
  below_ten = ascii_digit_below;
}
