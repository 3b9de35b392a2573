-- ===== src/Device/Format.antt =====
-- Identifiers and indices of devices (ops/device_ids.py).
use android_farm.Prelude.{
  ℕ, zero, suc, ◌+◌, ◌-◌, ◌*◌, ◌/◌, ◌%◌, ◌≤◌, ◌<◌, Text, Bool, true, false, [], ◌∷◌, ◌≡◌, refl, ap,
  ◌∙◌, ◌⊎◌, inl, inr, Option, none, some, arith, ◌==◌, length, all, drop, Bool-cases, Result, ok,
  err, ◌>>=◌,
}
use android_farm.Prelude.Int.{pos}
use android_farm.Prelude.Decimal.{
  Unicode, digits, decimal, pad_left, is_digit, is_digit_ascii, read_from, digit_value,
  digit_value_ascii, read_from-digits, length-digits-le,
}
use android_farm.Json.{Json, int, str}
use android_farm.Device.{
  device_limit, device_name, device_id, text_or_empty, after_prefix, is_number, index_of_digits,
  index_of_text, device_index, canonical_device,
}

module _ (u : Unicode) where
  -- the digits of a positive number begin with a digit other than 0
  is_number-digits :
      (f n : ℕ) (out : Text)
      → n < f
      → 0 < n
      → all (is_digit u) out ≡ true
      → is_number u (digits f n out) ≡ true
  unfolding is_number digits
  is_number-digits zero n out h p o = absurd (omega arith)
  is_number-digits (suc f) n out h p o = elim (Bool-cases (n / 10 == 0)) [
    | inl last ↦ rw last (ground arith)
    | inr more ↦ rw more (
        is_number-digits f (n / 10) ((48 + n % 10) ∷ out) (ground arith) (ground arith)
          (rw (is_digit_ascii u (n % 10) (omega arith)) o))
  ]

  is_number-pad_left : (w : ℕ) (s : Text) → is_number u (pad_left w s) ≡ is_number u s
  unfolding is_number pad_left
  is_number-pad_left zero s = refl
  is_number-pad_left (suc w) s = ground (arith, is_number-pad_left w s)

  digit_value-zero : digit_value u 48 ≡ 0
  digit_value-zero = digit_value_ascii u 0 (omega arith)

  read_from-zero : (s : Text) → read_from u 0 (48 ∷ s) ≡ read_from u 0 s
  unfolding read_from
  read_from-zero s = ap (λ n. read_from u n s) (omega (arith, digit_value-zero))

  read_from-pad_left : (w : ℕ) (s : Text) → read_from u 0 (pad_left w s) ≡ read_from u 0 s
  unfolding pad_left
  read_from-pad_left zero s = refl
  read_from-pad_left (suc w) s =
      ground (arith, read_from-pad_left w s, read_from-zero (pad_left w s))

  le-read_from : (s : Text) (n : ℕ) → n ≤ read_from u n s
  unfolding read_from
  le-read_from [] n = omega arith
  le-read_from (c ∷ s) n = omega (arith, le-read_from s (n * 10 + digit_value u c))

  nonzero_digit : (c : ℕ) → 49 ≤ c → c ≤ 57 → 0 < digit_value u c
  nonzero_digit c l h =
      let e : 48 + (c - 48) ≡ c = omega arith in
      let v : digit_value u (48 + (c - 48)) ≡ c - 48 = digit_value_ascii u (c - 48) (omega arith) in
      omega (arith, ap (digit_value u) e, v)

  read_from-pos : (s : Text) → is_number u s ≡ true → 0 < read_from u 0 s
  unfolding is_number read_from
  read_from-pos [] h = cc
  read_from-pos (c ∷ s) h = elim (Bool-cases (c == 48)) [
    | inl e ↦ ground (arith, read_from-pos s, digit_value-zero)
    | inr e ↦ ground (arith, le-read_from s (0 * 10 + digit_value u c), nonzero_digit c)
  ]

pub length-pad_left : (w : ℕ) (s : Text) → length (pad_left w s) ≤ w + length s
unfolding pad_left
length-pad_left zero s = omega arith
length-pad_left (suc w) s = ground (arith, length-pad_left w s)

pub length-decimal : (n : ℕ) → n < 10000 → length (decimal n) ≤ 4
unfolding decimal
length-decimal n h = length-digits-le 3 (suc n) n [] h

module _ (u : Unicode) where
  -- what follows `num` in an identifier reads as its index
  pub read_from-device_name : (i : ℕ) → read_from u 0 (drop 3 (device_name i)) ≡ i
  unfolding device_name
  read_from-device_name i =
      read_from-pad_left u 2 (decimal i)
      ∙ unfold decimal read_from in read_from-digits u (suc i) i [] (omega arith)

  index_of_digits-decimal :
      (i : ℕ) → i ≤ device_limit → index_of_digits u (pad_left 2 (decimal i)) ≡ ok i
  unfolding index_of_digits
  index_of_digits-decimal i h =
      ground (arith, length-decimal i, length-pad_left 2 (decimal i), value)
    where
      value : read_from u 0 (pad_left 2 (decimal i)) ≡ i
      value =
          read_from-pad_left u 2 (decimal i)
          ∙ unfold decimal read_from in read_from-digits u (suc i) i [] (omega arith)

  -- The identifier of an index in range is read back as that index, with aliases and without.
  pub device_index-device_name :
      (aliases : Bool) (i : ℕ)
      → 1 ≤ i
      → i ≤ device_limit
      → device_index u aliases (str (device_name i)) ≡ ok i
  unfolding device_index device_name text_or_empty after_prefix
  device_index-device_name aliases i l h = ground (arith, index_of_digits-decimal i h, shape)
    where
      shape : is_number u (pad_left 2 (decimal i)) ≡ true
      shape =
          is_number-pad_left u 2 (decimal i)
          ∙ unfold decimal in is_number-digits u (suc i) i [] (omega arith) l refl

  index_of_text_bounds :
      (aliases : Bool) (t : Text) (i : ℕ)
      → index_of_text u aliases t ≡ ok i
      → (1 ≤ i) × (i ≤ device_limit)
  unfolding index_of_text
  index_of_text_bounds aliases t i h = elim (after_prefix_cases (after_prefix aliases t)) [
    | inl e ↦ absurd (ground (arith, e))
    | inr (s, e) ↦ ground (arith, e, read_from-pos u s)
  ]
    where
      after_prefix_cases : (o : Option Text) → (o ≡ none) ⊎ ((s : Text) × (o ≡ some s))
      after_prefix_cases none = inl refl
      after_prefix_cases (some s) = inr (s, refl)

  -- An index that a value is read as lies between 1 and the limit.
  pub device_index_bounds :
      (aliases : Bool) (v : Json) (i : ℕ)
      → device_index u aliases v ≡ ok i
      → (1 ≤ i) × (i ≤ device_limit)
  unfolding device_index
  device_index_bounds aliases v i h = go (text_or_empty v) h
    where
      go : (r : Result Text) → (r >>= index_of_text u aliases) ≡ ok i → (1 ≤ i) × (i ≤ device_limit)
      go (ok t) e = index_of_text_bounds aliases t i e
      go (err x) e = absurd (ground arith)

  pub device_id_of_index :
      (i : ℕ) → 1 ≤ i → i ≤ device_limit → device_id (int (pos i)) ≡ ok (device_name i)
  unfolding device_id
  device_id_of_index i l h = ground arith

  canonical_device_inv :
      (v : Json) (t : Text)
      → canonical_device u v ≡ ok t
      → (i : ℕ) × (device_index u true v ≡ ok i)
        × (t ≡ device_name i)
        × (1 ≤ i)
        × (i ≤ device_limit)
  unfolding canonical_device
  canonical_device_inv v t h = go (device_index u true v) refl
    where
      go :
          (r : Result ℕ)
          → device_index u true v ≡ r
          → (i : ℕ) × (device_index u true v ≡ ok i)
            × (t ≡ device_name i)
            × (1 ≤ i)
            × (i ≤ device_limit)
      go (ok i) e =
          let b : (1 ≤ i) × (i ≤ device_limit) = device_index_bounds true v i e in
          (i, e, cc (h, e, device_id_of_index i b.0 b.1), b.0, b.1)
      go (err x) e = absurd (ground (arith, h, e))

  -- Every accepted value has one canonical identifier: reading the identifier back gives the same
  -- index and the same identifier, and no alias is needed for it.
  pub canonical_device-IsCanonical :
      (v : Json) (t : Text)
      → canonical_device u v ≡ ok t
      → (canonical_device u (str t) ≡ ok t) × (device_index u false (str t) ≡ device_index u true v)
  canonical_device-IsCanonical v t h =
      let (i, e, name, l, b) = canonical_device_inv v t h in
      (
        rw name (
            unfold canonical_device in
            rw (device_index-device_name true i l b) (device_id_of_index i l b)),
        rw (name, e) (device_index-device_name false i l b),
      )

  -- Two indices in range with one identifier are equal.
  pub device_name-injective :
      (i j : ℕ)
      → 1 ≤ i
      → i ≤ device_limit
      → 1 ≤ j
      → j ≤ device_limit
      → device_name i ≡ device_name j
      → i ≡ j
  device_name-injective i j a b c d e = ground (
    arith,
    device_index-device_name true i a b,
    device_index-device_name true j c d,
    ap (λ t. device_index u true (str t)) e,
  )
