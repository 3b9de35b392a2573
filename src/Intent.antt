-- ===== src/Intent.antt =====
-- ops/desired_state.py and ops/account_policy.py: the operator's intent and the safety hold of each
-- device. A file is the value that it holds, or `none` where there is no file; what is written is
-- read back with its keys in another order, which no lookup sees.
pub mod Last
pub mod Holds
use android_farm.Prelude.{
  ℕ, zero, suc, Text, codes, Bool, true, false, not, ◌&&◌, List, [], ◌∷◌, Option, none, some,
  if◌then◌else◌, Result, ok, err, runtime_error, value_error, os_error, ◌>>=◌, ◌>>◌, raise_if,
  replace_error,
}
use android_farm.Prelude.Dict.{Dict, lookup, insert, remove}
use android_farm.Prelude.Decimal.{Unicode}
use android_farm.Prelude.Int.{pos}
use android_farm.Json.{
  Json, null, bool, int, str, arr, obj, float, entries, fields, eq_int, or_null,
}
use android_farm.Device.{canonical_device}

-- `load`'s tests of the field `devices`
unfoldable pub devices_of : Json → Result (Dict Json)
devices_of (obj devices) = ok (entries devices)
devices_of _ = err (runtime_error "desired device state file is invalid")

-- the whole file and its devices
unfoldable pub check_state : Json → Result (Dict Json × Dict Json)
check_state (obj value) = do
  raise_if (not (eq_int (or_null (lookup (codes "schema_version") (entries value))) (pos 1)))
      (runtime_error "desired device state file is invalid")
  devices ← devices_of (or_null (lookup (codes "devices") (entries value)))
  ok (entries value, devices)
check_state _ = err (runtime_error "desired device state file is invalid")

unfoldable pub new_state : Dict Json
new_state = (codes "schema_version", int (pos 1)) ∷ (codes "devices", obj (fields [])) ∷ []

unfoldable pub load : Option Json → Result (Dict Json × Dict Json)
load none = ok (new_state, [])
load (some value) = check_state value

unfoldable pub intent_entry : Bool → ℕ → Json
intent_entry running now =
    obj (fields ((codes "running", bool running) ∷ (codes "updated_at", int (pos now)) ∷ []))

-- `set_running`, up to the write: the device's entry and the value that is written
unfoldable pub prepare_running : Unicode → Json → Bool → ℕ → Option Json → Result (Json × Json)
prepare_running u device running now file = do
  d ← canonical_device u device
  (state, devices) ← load file
  let entry = intent_entry running now
  ok (entry, obj (fields (insert (codes "devices") (obj (fields (insert d entry devices))) state)))

-- the result of an operation and the file that it leaves
unfoldable pub write_file : Bool → Option Json → Result (Json × Json) → Result Json × Option Json
write_file fails file (err e) = (err e, file)
write_file fails file (ok (answer, value)) =
    if fails then (err (os_error "write failed"), file) else (ok answer, some value)

unfoldable pub set_running :
    Bool → Unicode → Json → Bool → ℕ → Option Json → Result Json × Option Json
unfolding write_file
set_running fails u device running now file =
    write_file fails file (prepare_running u device running now file)

-- `isinstance(entry, dict) and entry.get('running') is True`
unfoldable pub is_true : Json → Bool
is_true (bool b) = b
is_true _ = false

unfoldable pub entry_running : Json → Bool
entry_running (obj entry) = is_true (or_null (lookup (codes "running") (entries entry)))
entry_running _ = false

unfoldable pub wants_running : Unicode → Json → Option Json → Result Bool
wants_running u device file = do
  d ← canonical_device u device
  (state, devices) ← load file
  ok (entry_running (or_null (lookup d devices)))

-- `_read_holds`
unfoldable pub check_holds : Json → Result (Dict Json)
check_holds (obj holds) = ok (entries holds)
check_holds _ = err (runtime_error "safety holds file is invalid")

unfoldable pub read_holds : Option Json → Result (Dict Json)
read_holds none = ok []
read_holds (some value) = check_holds value

abbrev pub is_present : Option Json → Bool
is_present none = false
is_present (some v) = true

abbrev pub is_held : Text → Dict Json → Bool
is_held device holds = is_present (lookup device holds)

unfoldable pub assert_not_held : Text → Option Json → Result (Unit {0})
assert_not_held device file = do
  holds ← read_holds file
  raise_if (is_held device holds) (runtime_error "device on manual safety hold")

-- what the command line asks for: to hold, with its reason, or to release, with the confirmation
pub data HoldAction : Type 0 where
  hold : Option Text → HoldAction
  release : Bool → HoldAction

unfoldable pub change_holds : HoldAction → Text → ℕ → Dict Json → Result (Dict Json)
change_holds (hold none) device now holds = err (value_error "--reason required")
change_holds (hold (some reason)) device now holds = ok (
    insert device (obj (fields ((codes "reason", str reason) ∷ (codes "at", int (pos now)) ∷ [])))
      holds)
change_holds (release false) device now holds =
    err (value_error "explicit --review-completed required; no timed automatic release")
change_holds (release true) device now holds = ok (remove device holds)

-- `main`, up to the write of the file, for the actions that change it
unfoldable pub change_hold : Unicode → HoldAction → Json → ℕ → Option Json → Result (Json × Json)
change_hold u action device now file = do
  holds ← read_holds file
  d ← replace_error (value_error "valid device required") (canonical_device u device)
  changed ← change_holds action d now holds
  ok (null, obj (fields changed))

unfoldable pub apply_hold :
    Bool → Unicode → HoldAction → Json → ℕ → Option Json → Result Json × Option Json
unfolding write_file
apply_hold fails u action device now file =
    write_file fails file (change_hold u action device now file)
