-- ===== src/Prelude/Dict.antt =====
-- Python's `dict` with `str` keys, in the order of insertion.
use mathlib.Core.Path.{◌≡◌, refl}
use mathlib.Core.List.{List, [], ◌∷◌, map}
use mathlib.Core.Option.{Option, none, some}
use native.Mathlib.Omega.{arith}
use mathlib.Core.Bool.{Bool, true, false}
use android_farm.Prelude.Lists.{any, all}
use android_farm.Prelude.Tests.{if◌then◌else◌}
use android_farm.Prelude.Texts.{Text, text_eq, text_eq_iff, text_eq_refl}

abbrev pub Dict {ℓ} : Type ℓ → Type ℓ
Dict V = List (Text × V)

module _ {ℓ} {V : Type ℓ} where
  unfoldable pub lookup : Text → Dict V → Option V
  lookup k [] = none
  lookup k ((j, v) ∷ d) = if text_eq j k then some v else lookup k d

  -- `d[k] = v` keeps the place of a key that is there, and appends a new one.
  unfoldable pub insert : Text → V → Dict V → Dict V
  insert k v [] = (k, v) ∷ []
  insert k v ((j, w) ∷ d) = if text_eq j k then (j, v) ∷ d else (j, w) ∷ insert k v d

  -- `d.pop(k, None)`
  unfoldable pub remove : Text → Dict V → Dict V
  remove k [] = []
  remove k ((j, w) ∷ d) = let rest = remove k d in if text_eq j k then rest else (j, w) ∷ rest

  -- `d.values()`
  abbrev pub values : Dict V → List V
  values = map (λ e. e.1)

  pub lookup-insert :
      (k j : Text) (v : V) (d : Dict V)
      → lookup j (insert k v d) ≡ (if text_eq k j then some v else lookup j d)
  unfolding lookup insert
  lookup-insert k j v [] = refl
  lookup-insert k j v ((i, w) ∷ d) =
      ground (arith, text_eq_iff k j, text_eq_iff i k, text_eq_iff i j, lookup-insert k j v d)

  pub lookup-remove :
      (k j : Text) (d : Dict V) → lookup j (remove k d) ≡ (if text_eq k j then none else lookup j d)
  unfolding lookup remove
  lookup-remove k j [] = ground arith
  lookup-remove k j ((i, w) ∷ d) =
      ground (arith, text_eq_iff k j, text_eq_iff i k, text_eq_iff i j, lookup-remove k j d)

  pub any-values :
      (p : V → Bool) (k : Text) (v : V) (d : Dict V)
      → any p (values d) ≡ false
      → lookup k d ≡ some v
      → p v ≡ false
  unfolding lookup
  any-values p k v [] h e = cc e
  any-values p k v ((j, w) ∷ d) h e = ground (arith, any-values p k v d)

  pub insert-insert : (k : Text) (v w : V) (d : Dict V) → insert k v (insert k w d) ≡ insert k v d
  unfolding insert
  insert-insert k v w [] = ground (arith, text_eq_refl k)
  insert-insert k v w ((i, x) ∷ d) = ground (arith, insert-insert k v w d)

  pub remove-remove : (k : Text) (d : Dict V) → remove k (remove k d) ≡ remove k d
  unfolding remove
  remove-remove k [] = refl
  remove-remove k ((i, x) ∷ d) = ground (arith, remove-remove k d)

  pub remove-insert :
      (j k : Text) (v : V) (d : Dict V)
      → text_eq k j ≡ false
      → remove j (insert k v d) ≡ insert k v (remove j d)
  unfolding insert remove
  remove-insert j k v [] h = ground arith
  remove-insert j k v ((i, x) ∷ d) h =
      ground (arith, text_eq_iff i k, text_eq_iff i j, text_eq_iff k j, remove-insert j k v d h)

  -- a test of the keys
  pub all-remove :
      (p : Text → Bool) (k : Text) (d : Dict V)
      → all (λ e. p e.0) d ≡ true
      → all (λ e. p e.0) (remove k d) ≡ true
  unfolding remove
  all-remove p k [] h = refl
  all-remove p k ((i, x) ∷ d) h = ground (arith, all-remove p k d)

  pub all-insert :
      (p : Text → Bool) (k : Text) (v : V) (d : Dict V)
      → p k ≡ true
      → all (λ e. p e.0) d ≡ true
      → all (λ e. p e.0) (insert k v d) ≡ true
  unfolding insert
  all-insert p k v [] q h = ground (arith, q)
  all-insert p k v ((i, x) ∷ d) q h = ground (arith, all-insert p k v d q)
