-- ===== src/Inventory/Valid.antt =====
-- When an inventory of ops/inventory.py is valid.
use android_farm.Prelude.{ℕ, ◌+◌, ◌≤◌, ◌<◌, Text, codes, ◌≡◌, ◌≢◌, [], some, arith}
use android_farm.Prelude.Dict.{lookup}
use android_farm.Json.{str}
use android_farm.Device.{device_limit, device_name}
use android_farm.Inventory.{Inventory, DeviceRecord, empty_inventory, phone_hash, proxy_hash, get}

-- the record that stands under an identifier
abbrev pub Holds : Inventory → Text → DeviceRecord → Type 0
Holds inv k r = lookup k inv.devices ≡ some r

-- a nonempty text under a key
abbrev pub HasText : Text → DeviceRecord → Type 0
HasText key r = (s : Text) × (get key r ≡ str s) × (s ≢ [])

-- Identifiers are canonical and below the next index, and no phone or proxy serves two devices.
pub record IsValid (inv : Inventory) : Type 0 where
  pub canonical :
      (k : Text) (r : DeviceRecord)
      → Holds inv k r
      → (i : ℕ) × (k ≡ device_name i) × (1 ≤ i) × (i < inv.next_index)
  pub named : (k : Text) (r : DeviceRecord) → Holds inv k r → get (codes "id") r ≡ str k
  pub phoned : (k : Text) (r : DeviceRecord) → Holds inv k r → HasText phone_hash r
  pub proxied : (k : Text) (r : DeviceRecord) → Holds inv k r → HasText proxy_hash r
  pub phone_unique :
      (j k : Text) (r s : DeviceRecord)
      → Holds inv j r
      → Holds inv k s
      → get phone_hash r ≡ get phone_hash s
      → j ≡ k
  pub proxy_unique :
      (j k : Text) (r s : DeviceRecord)
      → Holds inv j r
      → Holds inv k s
      → get proxy_hash r ≡ get proxy_hash s
      → j ≡ k
  pub next_positive : 1 ≤ inv.next_index
  pub next_bounded : inv.next_index ≤ device_limit + 1

-- the empty inventory is valid
pub empty_inventory-IsValid : IsValid empty_inventory
unfolding lookup
empty_inventory-IsValid = record {
  canonical = λ k r h. cc;
  named = λ k r h. cc;
  phoned = λ k r h. cc;
  proxied = λ k r h. cc;
  phone_unique = λ j k r s g h e. cc;
  proxy_unique = λ j k r s g h e. cc;
  next_positive = omega arith;
  next_bounded = omega arith;
}
