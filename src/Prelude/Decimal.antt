-- ===== src/Prelude/Decimal.antt =====
-- Python's decimal texts: `str(n)`, `f'{n:0wd}'` and `int(text)` on decimal digits.
use Prim.Native.Nat.{ℕ, zero, suc, ◌+◌, ◌*◌, ◌/◌, ◌%◌, ◌^◌, ◌≤◌, ◌<◌}
use mathlib.Core.Path.{◌≡◌, ap, ◌∙◌}
use mathlib.Core.Logic.{inl, inr}
use mathlib.Core.Bool.{Bool, true, false}
use mathlib.Core.List.{[], ◌∷◌}
use mathlib.Core.Option.{Option, none, some}
use native.Mathlib.Nat.{pow-suc}
use native.Mathlib.Omega.{arith}
use android_farm.Prelude.Tests.{ltb, ◌==◌, if◌then◌else◌, Bool-cases}
use android_farm.Prelude.Lists.{length}
use android_farm.Prelude.Texts.{Text}

-- The decimal digits that `\d` and `int` know: those of ASCII and others of Unicode.
pub record Unicode : Type 0 where
  pub decimal_digit : ℕ → Option ℕ
  pub ascii : (d : ℕ) → d < 10 → decimal_digit (48 + d) ≡ some d
  pub below_ten : (c d : ℕ) → decimal_digit c ≡ some d → d < 10

-- The digits of `n` before `out`; the fuel is the number of digits at most.
unfoldable pub digits : ℕ → ℕ → Text → Text
digits zero n out = out
digits (suc f) n out =
    let rest = digits f (n / 10) ((48 + n % 10) ∷ out) in
    if n / 10 == 0 then (48 + n % 10) ∷ out else rest

unfoldable pub decimal : ℕ → Text
unfolding digits
decimal n = digits (suc n) n []

-- `0` before a text until it is `w` characters long
unfoldable pub pad_left : ℕ → Text → Text
pad_left zero s = s
pad_left (suc w) s = if ltb (length s) (suc w) then 48 ∷ pad_left w s else s

module _ (u : Unicode) where
  unfoldable pub is_digit : ℕ → Bool
  is_digit c = elim (u.decimal_digit c) [ none ↦ false | some d ↦ true ]

  unfoldable pub digit_value : ℕ → ℕ
  digit_value c = elim (u.decimal_digit c) [ none ↦ 0 | some d ↦ d ]

  -- `int(s)` on a text of digits, from the value `n` of the digits before
  unfoldable pub read_from : ℕ → Text → ℕ
  unfolding digit_value
  read_from n [] = n
  read_from n (c ∷ s) = read_from (n * 10 + digit_value c) s

  pub digit_value_ascii : (d : ℕ) → d < 10 → digit_value (48 + d) ≡ d
  unfolding digit_value
  digit_value_ascii d h = rw (u.ascii d h, digit_value)

  pub is_digit_ascii : (d : ℕ) → d < 10 → is_digit (48 + d) ≡ true
  unfolding is_digit
  is_digit_ascii d h = rw (u.ascii d h, is_digit)

  -- Reading goes on from the number that was printed.
  pub read_from-digits :
      (f n : ℕ) (out : Text) → n < f → read_from 0 (digits f n out) ≡ read_from n out
  unfolding read_from digits
  read_from-digits zero n out h = absurd (omega arith)
  read_from-digits (suc f) n out h = elim (Bool-cases (n / 10 == 0)) [
    | inl last ↦ rw last (ap (λ k. read_from k out) (omega (arith, value, is_zero last)))
    | inr more ↦ rw more (
        read_from-digits f (n / 10) ((48 + n % 10) ∷ out) (omega (arith, is_pos more))
        ∙ ap (λ k. read_from k out) (omega (arith, value)))
  ]
    where
      value : digit_value (48 + n % 10) ≡ n % 10
      value = digit_value_ascii (n % 10) (omega arith)

      is_zero : (n / 10 == 0) ≡ true → n / 10 ≡ 0
      is_zero e = ground arith

      is_pos : (n / 10 == 0) ≡ false → 0 < n / 10
      is_pos e = ground arith

-- A number below `10 ^ (k + 1)` has at most `k + 1` digits.
pub length-digits-le :
    (k f n : ℕ) (out : Text) → n < 10 ^ suc k → length (digits f n out) ≤ suc k + length out
unfolding digits
length-digits-le k zero n out h = omega arith
length-digits-le zero (suc f) n out h = ground arith
length-digits-le (suc k) (suc f) n out h = elim (Bool-cases (n / 10 == 0)) [
  | inl last ↦ rw last (omega arith)
  | inr more ↦ rw more (
      omega (
        arith,
        length-digits-le k f (n / 10) ((48 + n % 10) ∷ out) (tenth (10 ^ suc k) (rw pow-suc at h)),
      ))
]
  where
    tenth : (p : ℕ) → n < p * 10 → n / 10 < p
    tenth p q = omega arith
