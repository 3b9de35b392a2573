-- ===== src/Intent/Last.antt =====
-- The recorded intents of ops/desired_state.py over a history.
use android_farm.Prelude.{
  ℕ, Text, codes, text_eq, ◌≡◌, refl, sym, ap, ◌∙◌, Bool, true, false, not, ◌&&◌, List, [], ◌∷◌,
  Option, none, some, arith, if◌then◌else◌, Exception, Result, ok, err, >>=-ok, raise_if-ok,
}
use android_farm.Prelude.Dict.{Dict, lookup, insert, lookup-insert}
use android_farm.Prelude.Decimal.{Unicode}
use android_farm.Prelude.Int.{pos}
use android_farm.Json.{Json, obj, entries, fields, eq_int, or_null}
use android_farm.Device.{canonical_device}
use android_farm.Intent.{
  load, check_state, devices_of, new_state, intent_entry, prepare_running, write_file, set_running,
  is_true, entry_running, wants_running,
}

pub entries-fields : (d : Dict Json) → entries (fields d) ≡ d
unfolding entries fields
entries-fields [] = refl
entries-fields ((k, v) ∷ d) = ap (λ r. (k, v) ∷ r) (entries-fields d)

-- does a value name this device?
abbrev pub is_device : Result Text → Text → Bool
is_device (err e) d = false
is_device (ok t) d = text_eq t d

abbrev pub names : Unicode → Json → Text → Bool
names u v d = is_device (canonical_device u v) d

-- A file that loads has the version 1.
load-version :
    (file : Option Json) (state devices : Dict Json)
    → load file ≡ ok (state, devices)
    → eq_int (or_null (lookup (codes "schema_version") state)) (pos 1) ≡ true
unfolding load check_state new_state lookup eq_int or_null text_eq
load-version none state devices e = ground (arith, e)
load-version (some (obj value)) state devices e =
    let (t, e1) =
      raise_if-ok (not (eq_int (or_null (lookup (codes "schema_version") (entries value))) (pos 1)))
        _ _ (state, devices) e in
    let (d, p, e2) =
      >>=-ok (devices_of (or_null (lookup (codes "devices") (entries value)))) _ (state, devices)
        e1 in
    let same : entries value ≡ state = ground (arith, e2) in rw (sym same) (ground (arith, t))
load-version (some v) state devices e = cc e

load-written :
    (state devices : Dict Json)
    → eq_int (or_null (lookup (codes "schema_version") state)) (pos 1) ≡ true
    → load (some (obj (fields (insert (codes "devices") (obj (fields devices)) state))))
      ≡ ok (insert (codes "devices") (obj (fields devices)) state, devices)
unfolding load check_state devices_of or_null text_eq
load-written state devices e =
    let written : Dict Json = insert (codes "devices") (obj (fields devices)) state in
    let p : lookup (codes "schema_version") written ≡ lookup (codes "schema_version") state =
      lookup-insert (codes "devices") (codes "schema_version") (obj (fields devices)) state in
    let q : lookup (codes "devices") written ≡ some (obj (fields devices)) =
      lookup-insert (codes "devices") (codes "devices") (obj (fields devices)) state in
    rw (entries-fields written, p, e, q, entries-fields devices) refl

-- what a device's answer is, from its file
wants_running-of :
    (u : Unicode) (v : Json) (d : Text) (file : Option Json) (state devices : Dict Json)
    → canonical_device u v ≡ ok d
    → load file ≡ ok (state, devices)
    → wants_running u v file ≡ ok (entry_running (or_null (lookup d devices)))
unfolding wants_running
wants_running-of u v d file state devices p q = rw (p, q) refl

entry_running-intent : (b : Bool) (now : ℕ) → entry_running (intent_entry b now) ≡ b
unfolding entry_running intent_entry entries fields lookup text_eq or_null is_true
entry_running-intent b now = refl

-- The answer after one call that is written.
written-answer :
    (u : Unicode) (v : Json) (d t : Text) (running : Bool) (now : ℕ) (file : Option Json)
    (state devices : Dict Json)
    → canonical_device u v ≡ ok d
    → load file ≡ ok (state, devices)
    → wants_running u v (
        some (
          obj (
            fields (
              insert
                (codes "devices")
                (obj (fields (insert t (intent_entry running now) devices)))
                state))))
      ≡ ok (if text_eq t d then running else entry_running (or_null (lookup d devices)))
unfolding or_null
written-answer u v d t running now file state devices p q =
    wants_running-of u v d _ _ _ p (
      load-written state (insert t (intent_entry running now) devices)
        (load-version file state devices q))
    ∙ ap ok (rw lookup-insert (go (text_eq t d)))
  where
    go :
        (b : Bool)
        → entry_running (or_null (if b then some (intent_entry running now) else lookup d devices))
          ≡ (if b then running else entry_running (or_null (lookup d devices)))
    go true = entry_running-intent running now
    go false = refl

-- one call of `set_running`, and whether its write fails
pub record Call : Type 0 where
  pub device : Json
  pub running : Bool
  pub now : ℕ
  pub fails : Bool

pub write_file-fails :
    (file : Option Json) (m : Result (Json × Json)) → (write_file true file m).1 ≡ file
unfolding write_file
write_file-fails file (err e) = refl
write_file-fails file (ok (answer, value)) = refl

module _ (u : Unicode) where
  unfoldable pub record_all : List Call → Option Json → Option Json
  record_all [] file = file
  record_all (c ∷ cs) file = record_all cs (set_running c.fails u c.device c.running c.now file).1

  -- the value of the last call for a device that is written, or the one before all calls
  unfoldable pub last_running : Text → Bool → List Call → Bool
  last_running d b [] = b
  last_running d b (c ∷ cs) =
      last_running d (if not c.fails && names u c.device d then c.running else b) cs

  wants_running-loads :
      (v : Json) (d : Text) (b : Bool) (file : Option Json)
      → canonical_device u v ≡ ok d
      → wants_running u v file ≡ ok b
      → (state : Dict Json) × (devices : Dict Json) × (load file ≡ ok (state, devices))
        × (b ≡ entry_running (or_null (lookup d devices)))
  unfolding wants_running
  wants_running-loads v d b file p w =
      let (t, p', e1) = >>=-ok (canonical_device u v) _ b w in
      let (l, q, e2) = >>=-ok (load file) _ b e1 in
      let same : t ≡ d = ground (arith, p, p') in (l.0, l.1, q, at t l.1 same (ground (arith, e2)))
    where
      at :
          (t : Text) (devices : Dict Json)
          → t ≡ d
          → entry_running (or_null (lookup t devices)) ≡ b
          → b ≡ entry_running (or_null (lookup d devices))
      at t devices e f = sym f ∙ rw e refl

  set_running-refused :
      (w : Json) (running : Bool) (now : ℕ) (file : Option Json) (e : Exception)
      → canonical_device u w ≡ err e
      → (set_running false u w running now file).1 ≡ file
  unfolding set_running prepare_running
  set_running-refused w running now file e q = rw (set_running, q) refl

  set_running-written :
      (w : Json) (running : Bool) (now : ℕ) (file : Option Json) (t : Text)
      (state devices : Dict Json)
      → canonical_device u w ≡ ok t
      → load file ≡ ok (state, devices)
      → (set_running false u w running now file).1
        ≡ some (
            obj (
              fields (
                insert
                  (codes "devices")
                  (obj (fields (insert t (intent_entry running now) devices)))
                  state)))
  unfolding set_running prepare_running
  set_running-written w running now file t state devices q l = rw (q, l) refl

  set_running-answer :
      (v w : Json) (d : Text) (b : Bool) (fails running : Bool) (now : ℕ) (file : Option Json)
      → canonical_device u v ≡ ok d
      → wants_running u v file ≡ ok b
      → wants_running u v (set_running fails u w running now file).1
        ≡ ok (if not fails && names u w d then running else b)
  unfolding set_running write_file prepare_running
  set_running-answer v w d b fails running now file p h = go fails (canonical_device u w) refl
    where
      go :
          (fails : Bool) (m : Result Text)
          → canonical_device u w ≡ m
          → wants_running u v (set_running fails u w running now file).1
            ≡ ok (if not fails && names u w d then running else b)
      go true m q = rw (write_file-fails file (prepare_running u w running now file)) h
      go false (err e) q = rw (set_running-refused w running now file e q, q) h
      go false (ok t) q =
          let (state, devices, l, same) = wants_running-loads v d b file p h in
          rw (set_running-written w running now file t state devices q l, q)
            (written-answer u v d t running now file state devices p l
              ∙ ap (λ z. ok (if text_eq t d then running else z)) (sym same))

  -- Whatever is recorded, the answer for a device is the running state of the last call that names
  -- the device, by whatever alias, and whose write does not fail; calls for other devices, for no
  -- device and with failed writes do not matter.
  pub wants_running-last :
      (v : Json) (d : Text) (cs : List Call) (b : Bool) (file : Option Json)
      → canonical_device u v ≡ ok d
      → wants_running u v file ≡ ok b
      → wants_running u v (record_all cs file) ≡ ok (last_running d b cs)
  unfolding record_all last_running
  wants_running-last v d [] b file p w = w
  wants_running-last v d (c ∷ cs) b file p w =
      wants_running-last v d cs _ _ p
        (set_running-answer v c.device d b c.fails c.running c.now file p w)
