-- ===== src/Tests/Intent.antt =====
-- The theorems on intents and holds (ops/desired_state.py, ops/account_policy.py) at concrete inputs.
use android_farm.Prelude.{
  ◌≡◌, refl, codes, true, false, none, some, [], ◌∷◌, List, ok, raise_if, runtime_error,
}
use android_farm.Prelude.Dict.{lookup}
use android_farm.Prelude.Decimal.{decimal, digits, pad_left, is_digit, read_from}
use android_farm.Prelude.Int.{pos}
use android_farm.Json.{str, int, or_null}
use android_farm.Device.{
  canonical_device, device_id, device_name, device_index, index_of_text, index_of_digits,
  text_or_empty, after_prefix, is_number,
}
use android_farm.Intent.{
  load, entry_running, wants_running, is_held, hold, release, read_holds, assert_not_held,
}
use android_farm.Intent.Last.{Call, record_all, last_running, wants_running-last}
use android_farm.Intent.Holds.{HoldRequest, hold_all, last_held, assert_not_held-last}
use android_farm.Tests.Ascii.{ascii}

abbrev calls : List Call
calls =
    (record { device = str (codes "num1"); running = true; now = 5; fails = false })
    ∷ (record { device = int (pos 2); running = true; now = 6; fails = false })
    ∷ (record { device = str (codes "num01"); running = false; now = 7; fails = true })
    ∷ []

named : canonical_device ascii (str (codes "num01")) ≡ ok (codes "num01")
unfolding canonical_device device_id device_name device_index index_of_text index_of_digits
    text_or_empty after_prefix is_number decimal digits pad_left is_digit read_from
named = refl

unknown : wants_running ascii (str (codes "num01")) none ≡ ok false
unfolding wants_running load entry_running or_null lookup canonical_device device_id device_name
    device_index index_of_text index_of_digits text_or_empty after_prefix is_number decimal digits
    pad_left is_digit read_from
unknown = refl

wants_running-last_example :
    wants_running ascii (str (codes "num01")) (record_all ascii calls none)
    ≡ ok (last_running ascii (codes "num01") false calls)
wants_running-last_example =
    wants_running-last ascii (str (codes "num01")) (codes "num01") calls false none named unknown

abbrev requests : List HoldRequest
requests =
    (record {
      action = hold (some (codes "maintenance"));
      device = str (codes "num1");
      now = 5;
      fails = false;
    })
    ∷ (record { action = release false; device = str (codes "num01"); now = 6; fails = false })
    ∷ []

unread : read_holds none ≡ ok []
unfolding read_holds
unread = refl

assert_not_held-last_example :
    assert_not_held (codes "num01") (hold_all ascii requests none)
    ≡ raise_if
        (last_held ascii (codes "num01") (is_held (codes "num01") []) requests)
        (runtime_error "device on manual safety hold")
assert_not_held-last_example = assert_not_held-last ascii (codes "num01") requests none [] unread
