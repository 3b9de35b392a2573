-- ===== src/Tests/Codec.antt =====
-- A JSON encoder and decoder for the tests: a text of numbers that a machine with a stack reads.
use android_farm.Prelude.{
  ℕ, Text, ◌≡◌, refl, sym, Bool, true, false, List, [], ◌∷◌, ◌++◌, Option, none, some, ◌==◌,
  if◌then◌else◌,
}
use mathlib.Core.List.{append-nil, append_assoc}
use android_farm.Prelude.Int.{ℤ, pos, negsuc}
use android_farm.Json.{
  Json, null, bool, int, float, str, arr, obj, Items, nil, cons, Fields, end, field,
}

pub data Value : Type 0 where
  whole : Json → Value
  some_items : Items → Value
  some_fields : Fields → Value

abbrev text_code : Text → Text
text_code [] = 6 ∷ []
text_code (c ∷ s) = text_code s ++ (14 ∷ c ∷ [])

abbrev number_code : ℤ → Text
number_code (pos n) = 2 ∷ 14 ∷ n ∷ []
number_code (negsuc n) = 3 ∷ 14 ∷ n ∷ []

mutual
  pub code : Json → Text
  code null = 0 ∷ []
  code (bool b) = if b then 1 ∷ [] else 5 ∷ []
  code (int n) = number_code n
  code (float none) = 4 ∷ []
  code (float (some n)) = number_code n ++ (7 ∷ [])
  code (str s) = text_code s
  code (arr xs) = items_code xs ++ (10 ∷ [])
  code (obj fs) = fields_code fs ++ (13 ∷ [])

  items_code : Items → Text
  items_code nil = 8 ∷ []
  items_code (cons x xs) = items_code xs ++ (code x ++ (9 ∷ []))

  fields_code : Fields → Text
  fields_code end = 11 ∷ []
  fields_code (field k v fs) = fields_code fs ++ (text_code k ++ (code v ++ (12 ∷ [])))

abbrev payload : ℕ → List Value → List Value
payload n (whole (int (pos m)) ∷ st) = whole (int (pos n)) ∷ st
payload n (whole (int (negsuc m)) ∷ st) = whole (int (negsuc n)) ∷ st
payload n (whole (str s) ∷ st) = whole (str (n ∷ s)) ∷ st
payload n st = st

abbrev to_float : List Value → List Value
to_float (whole (int n) ∷ st) = whole (float (some n)) ∷ st
to_float st = st

abbrev to_array : List Value → List Value
to_array (some_items xs ∷ st) = whole (arr xs) ∷ st
to_array st = st

abbrev add_item : List Value → List Value
add_item (whole x ∷ some_items xs ∷ st) = some_items (cons x xs) ∷ st
add_item st = st

abbrev add_field : List Value → List Value
add_field (whole v ∷ whole (str k) ∷ some_fields fs ∷ st) = some_fields (field k v fs) ∷ st
add_field st = st

abbrev to_object : List Value → List Value
to_object (some_fields fs ∷ st) = whole (obj fs) ∷ st
to_object st = st

abbrev step : ℕ → List Value → List Value
step n st =
    if n == 0
    then whole null ∷ st
    else if n == 1
    then whole (bool true) ∷ st
    else if n == 2
    then whole (int (pos 0)) ∷ st
    else if n == 3
    then whole (int (negsuc 0)) ∷ st
    else if n == 4
    then whole (float none) ∷ st
    else if n == 5
    then whole (bool false) ∷ st
    else if n == 6
    then whole (str []) ∷ st
    else if n == 7
    then to_float st
    else if n == 8
    then some_items nil ∷ st
    else if n == 9
    then add_item st
    else if n == 10
    then to_array st
    else if n == 11
    then some_fields end ∷ st
    else if n == 12
    then add_field st
    else to_object st

-- 14 says that a payload follows
abbrev pub steps : Bool → Text → List Value → List Value
steps b [] st = st
steps true (n ∷ s) st = steps false s (payload n st)
steps false (n ∷ s) st = if n == 14 then steps true s st else steps false s (step n st)

steps-number :
    (n : ℤ) (r : Text) (st : List Value)
    → steps false (number_code n ++ r) st ≡ steps false r (whole (int n) ∷ st)
steps-number (pos n) r st = refl
steps-number (negsuc n) r st = refl

steps-text :
    (s r : Text) (st : List Value)
    → steps false (text_code s ++ r) st ≡ steps false r (whole (str s) ∷ st)
steps-text [] r st = refl
steps-text (c ∷ s) r st =
    rw (append_assoc (text_code s) (14 ∷ c ∷ []) r, steps-text s (14 ∷ c ∷ r) st) refl

mutual
  unfolding code items_code fields_code

  steps-code :
      (j : Json) (r : Text) (st : List Value)
      → steps false (code j ++ r) st ≡ steps false r (whole j ∷ st)
  steps-code null r st = refl
  steps-code (bool true) r st = refl
  steps-code (bool false) r st = refl
  steps-code (int n) r st = steps-number n r st
  steps-code (float none) r st = refl
  steps-code (float (some n)) r st =
      rw (append_assoc (number_code n) (7 ∷ []) r, steps-number n (7 ∷ r) st) refl
  steps-code (str s) r st = steps-text s r st
  steps-code (arr xs) r st =
      rw (append_assoc (items_code xs) (10 ∷ []) r, steps-items xs (10 ∷ r) st) refl
  steps-code (obj fs) r st =
      rw (append_assoc (fields_code fs) (13 ∷ []) r, steps-fields fs (13 ∷ r) st) refl

  steps-items :
      (xs : Items) (r : Text) (st : List Value)
      → steps false (items_code xs ++ r) st ≡ steps false r (some_items xs ∷ st)
  steps-items nil r st = refl
  steps-items (cons x xs) r st =
      rw
        (
          append_assoc (items_code xs) (code x ++ (9 ∷ [])) r,
          steps-items xs ((code x ++ (9 ∷ [])) ++ r) st,
          append_assoc (code x) (9 ∷ []) r,
          steps-code x (9 ∷ r) (some_items xs ∷ st),
        )
        refl

  steps-fields :
      (fs : Fields) (r : Text) (st : List Value)
      → steps false (fields_code fs ++ r) st ≡ steps false r (some_fields fs ∷ st)
  steps-fields end r st = refl
  steps-fields (field k v fs) r st =
      rw
        (
          append_assoc (fields_code fs) (text_code k ++ (code v ++ (12 ∷ []))) r,
          steps-fields fs ((text_code k ++ (code v ++ (12 ∷ []))) ++ r) st,
          append_assoc (text_code k) (code v ++ (12 ∷ [])) r,
          steps-text k ((code v ++ (12 ∷ [])) ++ r) (some_fields fs ∷ st),
          append_assoc (code v) (12 ∷ []) r,
          steps-code v (12 ∷ r) (whole (str k) ∷ some_fields fs ∷ st),
        )
        refl

abbrev top : List Value → Option Json
top (whole j ∷ []) = some j
top _ = none

abbrev pub decode : Text → Option Json
decode s = top (steps false s [])

pub decode-code : (j : Json) → decode (code j) ≡ some j
decode-code j = rw (sym (append-nil (code j)), steps-code j [] []) refl
