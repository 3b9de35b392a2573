-- ===== src/Json.antt =====
-- Python values as the `json` module reads them: what the guards of the code inspect.
use android_farm.Prelude.{
  Text, text_eq, Bool, true, false, List, [], ◌∷◌, Option, none, some, ◌≡◌, ap, text_eq_iff,
  text_eq_refl,
}
use android_farm.Prelude.Dict.{Dict}
use android_farm.Prelude.Int.{ℤ, pos, eq_ℤ}

-- A float is kept by the integer that it equals, if there is one: nothing else of it is tested.
mutual
  pub data Json : Type 0 where
    null : Json
    bool : Bool → Json
    int : ℤ → Json
    float : Option ℤ → Json
    str : Text → Json
    arr : Items → Json
    obj : Fields → Json

  pub data Items : Type 0 where
    nil : Items
    cons : Json → Items → Items

  pub data Fields : Type 0 where
    end : Fields
    field : Text → Json → Fields → Fields

-- the elements of an array
unfoldable pub elements : Items → List Json
elements nil = []
elements (cons x xs) = x ∷ elements xs

-- an object as a dictionary
unfoldable pub entries : Fields → Dict Json
entries end = []
entries (field k v fs) = (k, v) ∷ entries fs

unfoldable pub fields : Dict Json → Fields
fields [] = end
fields ((k, v) ∷ d) = field k v (fields d)

-- `value == n` for an integer `n`: `True` is 1, `False` is 0, and a float may be whole.
unfoldable pub eq_int : Json → ℤ → Bool
eq_int (int a) n = eq_ℤ a n
eq_int (bool true) n = eq_ℤ (pos 1) n
eq_int (bool false) n = eq_ℤ (pos 0) n
eq_int (float (some a)) n = eq_ℤ a n
eq_int _ n = false

-- `value == s` for a text `s`
unfoldable pub eq_str : Json → Text → Bool
eq_str (str t) s = text_eq t s
eq_str _ s = false

pub eq_of_eq_str : (v : Json) (s : Text) → eq_str v s ≡ true → v ≡ str s
unfolding eq_str
eq_of_eq_str (str t) s h = ap str ((text_eq_iff t s).0 h)
eq_of_eq_str null s h = cc
eq_of_eq_str _ s h = cc

pub eq_str_refl : (s : Text) → eq_str (str s) s ≡ true
unfolding eq_str
eq_str_refl s = text_eq_refl s

-- `dict.get(key)` gives `None` for a missing key.
unfoldable pub or_null : Option Json → Json
or_null none = null
or_null (some v) = v
