-- ===== src/Intent/Holds.antt =====
-- The safety holds of ops/account_policy.py over a history.
use android_farm.Prelude.{
  ℕ, Text, text_eq, ◌≡◌, refl, sym, ap, Bool, true, false, not, ◌&&◌, List, [], ◌∷◌, Option, none,
  some, arith, if◌then◌else◌, Exception, Result, ok, err, ◌>>=◌, raise_if, runtime_error,
}
use android_farm.Prelude.Dict.{Dict, lookup, insert, remove, lookup-insert, lookup-remove}
use android_farm.Prelude.Decimal.{Unicode}
use android_farm.Json.{Json, null, obj, fields}
use android_farm.Device.{canonical_device}
use android_farm.Intent.{
  write_file, HoldAction, hold, release, read_holds, check_holds, is_held, is_present,
  assert_not_held, change_holds, change_hold, apply_hold,
}
use android_farm.Intent.Last.{entries-fields, write_file-fails, names}

-- one request to hold or release, and whether its write fails
pub record HoldRequest : Type 0 where
  pub action : HoldAction
  pub device : Json
  pub now : ℕ
  pub fails : Bool

-- what a request decides, if anything: a hold needs a reason, a release needs the confirmation
unfoldable pub decided : HoldAction → Bool → Bool
decided (hold none) b = b
decided (hold (some reason)) b = true
decided (release false) b = b
decided (release true) b = false

present_if :
    (c : Bool) (h o : Option Json) (b : Bool)
    → is_present o ≡ b
    → is_present (if c then h else o) ≡ (if c then is_present h else b)
present_if true h o b e = refl
present_if false h o b e = e

module _ (u : Unicode) where
  unfoldable pub hold_all : List HoldRequest → Option Json → Option Json
  hold_all [] file = file
  hold_all (q ∷ qs) file = hold_all qs (apply_hold q.fails u q.action q.device q.now file).1

  -- the last decision on a device
  unfoldable pub last_held : Text → Bool → List HoldRequest → Bool
  last_held d b [] = b
  last_held d b (q ∷ qs) =
      last_held d (if not q.fails && names u q.device d then decided q.action b else b) qs

  -- the file reads, and says of the device whether it is held
  abbrev Says : Text → Bool → Option Json → Type 0
  Says d b file = (holds : Dict Json) × (read_holds file ≡ ok holds) × (is_held d holds ≡ b)

  written-Says :
      (d : Text) (b : Bool) (holds : Dict Json)
      → is_held d holds ≡ b
      → Says d b (some (obj (fields holds)))
  unfolding read_holds check_holds
  written-Says d b holds e = (holds, ap ok (entries-fields holds), e)

  change_hold-refused :
      (action : HoldAction) (w : Json) (now : ℕ) (file : Option Json) (holds : Dict Json)
      (e : Exception)
      → read_holds file ≡ ok holds
      → canonical_device u w ≡ err e
      → (apply_hold false u action w now file).1 ≡ file
  unfolding apply_hold change_hold
  change_hold-refused action w now file holds e l q = rw (l, q) refl

  change_hold-named :
      (action : HoldAction) (w : Json) (now : ℕ) (file : Option Json) (holds : Dict Json) (t : Text)
      → read_holds file ≡ ok holds
      → canonical_device u w ≡ ok t
      → (apply_hold false u action w now file).1
        ≡ (write_file false file
            (do changed ← change_holds action t now holds; ok (null, obj (fields changed)))).1
  unfolding apply_hold change_hold
  change_hold-named action w now file holds t l q = rw (l, q) refl

  -- a named device's request
  decides :
      (action : HoldAction) (d t : Text) (b : Bool) (now : ℕ) (file : Option Json)
      (holds : Dict Json)
      → read_holds file ≡ ok holds
      → is_held d holds ≡ b
      → Says d
          (if text_eq t d then decided action b else b)
          (write_file false file
            (do changed ← change_holds action t now holds; ok (null, obj (fields changed)))).1
  unfolding change_holds write_file decided
  decides (hold none) d t b now file holds l e = (holds, l, ground (arith, e))
  decides (hold (some reason)) d t b now file holds l e =
      written-Says d _ (insert t _ holds)
        (rw lookup-insert (present_if (text_eq t d) _ (lookup d holds) b e))
  decides (release false) d t b now file holds l e = (holds, l, ground (arith, e))
  decides (release true) d t b now file holds l e =
      written-Says d _ (remove t holds)
        (rw lookup-remove (present_if (text_eq t d) none (lookup d holds) b e))

  step-Says :
      (action : HoldAction) (w : Json) (d : Text) (b fails : Bool) (now : ℕ) (file : Option Json)
      → Says d b file
      → Says d
          (if not fails && names u w d then decided action b else b)
          (apply_hold fails u action w now file).1
  unfolding apply_hold
  step-Says action w d b true now file s =
      rw (write_file-fails file (change_hold u action w now file)) s
  step-Says action w d b false now file (holds, l, e) = go (canonical_device u w) refl
    where
      go :
          (m : Result Text)
          → canonical_device u w ≡ m
          → Says d
              (if not false && names u w d then decided action b else b)
              (apply_hold false u action w now file).1
      go (err x) q = rw (change_hold-refused action w now file holds x l q, q) (holds, l, e)
      go (ok t) q =
          rw (change_hold-named action w now file holds t l q, q)
            (decides action d t b now file holds l e)

  hold_all-Says :
      (d : Text) (qs : List HoldRequest) (b : Bool) (file : Option Json)
      → Says d b file
      → Says d (last_held d b qs) (hold_all qs file)
  unfolding hold_all last_held
  hold_all-Says d [] b file s = s
  hold_all-Says d (q ∷ qs) b file s =
      hold_all-Says d qs _ _ (step-Says q.action q.device d b q.fails q.now file s)

  -- From a file of holds that can be read, after any requests, a start of a device is refused
  -- exactly if the last request for the device that was written and had its reason or confirmation
  -- was a hold, or if there was none and the device was held before.
  pub assert_not_held-last :
      (d : Text) (qs : List HoldRequest) (file : Option Json) (holds : Dict Json)
      → read_holds file ≡ ok holds
      → assert_not_held d (hold_all qs file)
        ≡ raise_if (last_held d (is_held d holds) qs) (runtime_error "device on manual safety hold")
  unfolding assert_not_held
  assert_not_held-last d qs file holds l =
      let (after, l', e) = hold_all-Says d qs (is_held d holds) file (holds, l, refl) in
      rw (l', sym e) refl
