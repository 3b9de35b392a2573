-- ===== src/Tests/Inventory.antt =====
-- The theorems on the inventory (ops/inventory.py) at concrete inputs.
use android_farm.Prelude.{
  ℕ, ◌≡◌, ◌≢◌, refl, Text, codes, text_eq, true, false, none, some, [], ◌∷◌, ok,
}
use android_farm.Prelude.Dict.{lookup, insert}
use android_farm.Prelude.Decimal.{decimal, digits, pad_left, is_digit, read_from}
use android_farm.Json.{str, eq_str}
use android_farm.Device.{
  device_id, device_name, device_index, index_of_text, index_of_digits, text_or_empty, after_prefix,
  is_number,
}
use android_farm.Inventory.{
  Inventory, DeviceRecord, empty_inventory, phone_hash, proxy_hash, request_hash, get, item,
  new_record, choose, choose_phone, allocate, any_incomplete, any_proxy, find_phone, resume,
  resume_target, resume_record, find_device, load, save, to_json,
}
use android_farm.Inventory.Valid.{IsValid, Holds, empty_inventory-IsValid}
use android_farm.Inventory.Choose.{
  choose-IsValid, choose-resume, choose_outcome, choose_fresh, Outcome,
}
use android_farm.Inventory.Normalize.{load-save}
use android_farm.Tests.Ascii.{ascii}

abbrev first : DeviceRecord
first = new_record (codes "num01") (codes "p") (codes "q") (codes "r")

abbrev one_device : Inventory
one_device = record { next_index = 2; devices = (codes "num01", first) ∷ [] }

chosen :
    choose ascii empty_inventory (codes "p") (codes "q") (codes "r") none
    ≡ ok (first, true, one_device)
unfolding choose choose_phone allocate any_incomplete any_proxy find_phone device_id device_name
    decimal digits pad_left insert
chosen = refl

given : (s : Text) (c : ℕ) → c ∷ s ≢ []
given s c e = cc e

choose-IsValid_example : IsValid one_device
choose-IsValid_example =
    choose-IsValid ascii empty_inventory (codes "p") (codes "q") (codes "r") none first true
      one_device empty_inventory-IsValid (given [] 112) (given [] 113) chosen

choose_fresh_example :
    (k : Text) × (get (codes "id") first ≡ str k)
    × (lookup k empty_inventory.devices ≡ none)
    × Holds one_device k first
    × ((j : Text) → j ≢ k → lookup j one_device.devices ≡ lookup j empty_inventory.devices)
choose_fresh_example =
    choose_fresh ascii empty_inventory (codes "p") (codes "q") (codes "r") first one_device
      empty_inventory-IsValid chosen

choose_outcome_example :
    Outcome empty_inventory (codes "p") (codes "q") (codes "r") first true one_device
choose_outcome_example =
    choose_outcome ascii empty_inventory (codes "p") (codes "q") (codes "r") first true one_device
      chosen

resumed :
    choose ascii one_device (codes "p") (codes "q") (codes "r") (some (str (codes "num01")))
    ≡ ok (first, false, one_device)
unfolding choose resume resume_target resume_record find_device lookup item text_eq eq_str
    device_index index_of_text index_of_digits text_or_empty after_prefix is_number device_id
    device_name decimal digits pad_left is_digit read_from
resumed = refl

choose-resume_example :
    (k : Text) × (str (codes "num01") ≡ str k)
    × Holds one_device k first
    × (get phone_hash first ≡ str (codes "p"))
    × (get request_hash first ≡ str (codes "r"))
    × (get proxy_hash first ≡ str (codes "q"))
    × (false ≡ false)
    × (one_device ≡ one_device)
choose-resume_example =
    choose-resume ascii one_device (codes "p") (codes "q") (codes "r") (str (codes "num01")) first
      false one_device resumed

loaded : load ascii none ≡ ok empty_inventory
unfolding load
loaded = refl

load-save_example :
    IsValid empty_inventory
    × (save ascii empty_inventory ≡ ok (to_json empty_inventory))
    × (load ascii (some (to_json empty_inventory)) ≡ ok empty_inventory)
load-save_example = load-save ascii none empty_inventory loaded
