-- ===== src/Prelude/Errors.antt =====
-- Python's exceptions as values. A message is kept up to its first interpolated part.
use Prim.Native.String.{String}
use mathlib.Core.Path.{◌≡◌, refl}
use mathlib.Core.Bool.{Bool, true, false}

pub data Exception : Type 0 where
  value_error runtime_error key_error type_error os_error queue_conflict integrity_error :
      String → Exception

-- what a call raises, or what it returns
pub data Result {ℓ} (A : Type ℓ) : Type ℓ where
  err : Exception → Result A
  ok : A → Result A

module _ {ℓ κ} {A : Type ℓ} {B : Type κ} where
  infixl 5 ◌>>=◌ ◌>>◌
  -- the rest of a block, which an exception skips
  abbrev pub ◌>>=◌ : Result A → (A → Result B) → Result B
  err raised >>= rest = err raised
  ok value >>= rest = rest value

  abbrev pub ◌>>◌ : Result A → Result B → Result B
  err raised >> rest = err raised
  ok value >> rest = rest

-- `if test: raise e`
abbrev pub raise_if : Bool → Exception → Result (Unit {0})
raise_if true e = err e
raise_if false e = ok tt

-- `except …: raise e`, where every error of the body is of the kind that is caught
abbrev pub replace_error {ℓ} : {A : Type ℓ} → Exception → Result A → Result A
replace_error e (ok a) = ok a
replace_error e (err _) = err e

-- what a block that returns says of its first call
module _ {ℓ κ} {A : Type ℓ} {B : Type κ} where
  pub >>=-ok :
      (m : Result A) (f : A → Result B) (b : B)
      → (m >>= f) ≡ ok b
      → (a : A) × (m ≡ ok a) × (f a ≡ ok b)
  >>=-ok (ok a) f b e = (a, refl, e)
  >>=-ok (err x) f b e = cc e

  pub >>-ok : (m : Result A) (n : Result B) (b : B) → (m >> n) ≡ ok b → n ≡ ok b
  >>-ok (ok a) n b e = e
  >>-ok (err x) n b e = cc e

  pub >>-first : (m : Result A) (n : Result B) (b : B) → (m >> n) ≡ ok b → (a : A) × (m ≡ ok a)
  >>-first (ok a) n b e = (a, refl)
  >>-first (err x) n b e = cc e

pub raise_if-ok {ℓ} :
    {B : Type ℓ} (t : Bool) (e : Exception) (n : Result B) (b : B)
    → (raise_if t e >> n) ≡ ok b
    → (t ≡ false) × (n ≡ ok b)
raise_if-ok true e n b h = cc h
raise_if-ok false e n b h = (refl, h)

pub replace_error-ok {ℓ} :
    {A : Type ℓ} (e : Exception) (m : Result A) (a : A) → replace_error e m ≡ ok a → m ≡ ok a
replace_error-ok e (ok b) a h = h
replace_error-ok e (err x) a h = cc h
