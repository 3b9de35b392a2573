-- ===== src/Inventory.antt =====
-- ops/inventory.py: the versioned inventory of devices and the choice of a device for a request.
pub mod Valid
pub mod Extend
pub mod Settled
pub mod Choose
pub mod Checks
pub mod Normalize
use android_farm.Prelude.{
  mem, ℕ, suc, ◌+◌, max, Text, codes, text_eq, Bool, true, false, not, ◌&&◌, ◌||◌, List, [], ◌∷◌,
  map, any, drop, Option, none, some, String, ltb, leb, if◌then◌else◌, Result, ok, err, value_error,
  runtime_error, key_error, type_error, ◌>>=◌, ◌>>◌, raise_if, replace_error,
}
use android_farm.Prelude.Dict.{Dict, lookup, insert, values}
use android_farm.Prelude.Int.{ℤ, pos, negsuc}
use android_farm.Prelude.Decimal.{Unicode, read_from}
use android_farm.Json.{
  Json, null, bool, int, float, str, arr, obj, Items, elements, entries, fields, eq_int, eq_str,
  or_null,
}
use android_farm.Device.{device_limit, device_id, device_index}

abbrev pub schema_version : ℤ
schema_version = pos 2

abbrev pub DeviceRecord : Type 0
DeviceRecord = Dict Json

-- The parts of the inventory that the code reads.
pub record Inventory : Type 0 where
  pub next_index : ℕ
  pub devices : Dict DeviceRecord

abbrev pub empty_inventory : Inventory
empty_inventory = record { next_index = 1; devices = [] }

abbrev pub phone_hash : Text
phone_hash = codes "phone_hash"

abbrev pub proxy_hash : Text
proxy_hash = codes "proxy_hash"

abbrev pub request_hash : Text
request_hash = codes "request_hash"

-- `record.get(key)`
unfoldable pub get : Text → DeviceRecord → Json
get key r = or_null (lookup key r)

-- `record[key]`
unfoldable pub item : Text → DeviceRecord → Result Json
item key r = elim (lookup key r) [ none ↦ err (key_error "missing key") | some v ↦ ok v ]

-- what the loop of `normalize` has seen
pub record Seen : Type 0 where
  pub phones : List Text
  pub proxies : List Text
  pub maximum : ℕ

-- `not isinstance(value, str) or not value or value in seen`, else `seen.add(value)`
unfoldable pub add_seen : String → Json → List Text → Result (List Text)
add_seen message (str []) seen = err (runtime_error message)
add_seen message (str (c ∷ s)) seen =
    if mem (c ∷ s) seen then err (runtime_error message) else ok ((c ∷ s) ∷ seen)
add_seen message _ seen = err (runtime_error message)

-- a device's value, which must be an object with the device's identifier
unfoldable pub as_record : Text → Json → Result DeviceRecord
as_record device (obj fs) =
    if eq_str (or_null (lookup (codes "id") (entries fs))) device
    then ok (entries fs)
    else err (runtime_error "inventory contains an invalid device record")
as_record device _ = err (runtime_error "inventory contains an invalid device record")

-- `except ValueError`: a text raises no other error here.
unfoldable pub canonical_id : Unicode → Text → Result Text
canonical_id u device =
    replace_error (runtime_error "inventory contains an invalid device record")
      (do i ← device_index u false (str device); device_id (int (pos i)))

unfoldable pub check_record : Unicode → Text → Json → Seen → Result (DeviceRecord × Seen)
check_record u device value s = do
  canonical ← canonical_id u device
  raise_if (not (text_eq canonical device))
      (runtime_error "inventory contains an invalid device record")
  r ← as_record device value
  phones ←
      add_seen "inventory contains an invalid or duplicate phone_hash" (get phone_hash r) s.phones
  proxies ←
      add_seen "inventory contains an invalid or duplicate proxy_hash" (get proxy_hash r) s.proxies
  ok (
    r,
    record {
      phones = phones;
      proxies = proxies;
      maximum = max s.maximum (read_from u 0 (drop 3 device));
    },
  )

-- the loop over `devices.items()`
unfoldable pub check_records : Unicode → Dict Json → Seen → Result (Dict DeviceRecord × ℕ)
check_records u [] s = ok ([], s.maximum)
check_records u ((device, value) ∷ rest) s = do
  (r, s') ← check_record u device value s
  (records, maximum) ← check_records u rest s'
  ok ((device, r) ∷ records, maximum)

-- the checks of an object
unfoldable pub check_devices : Unicode → Json → Json → Result Inventory
check_devices u (obj fs) (int n) = do
  (records, maximum) ←
      check_records u (entries fs) (record { phones = []; proxies = []; maximum = 0 })
  elim n [
    | pos next ↦
        if ltb maximum next && leb next (device_limit + 1)
        then ok (record { next_index = next; devices = records })
        else err (runtime_error "inventory next_index is not monotonic")
    | negsuc _ ↦ err (runtime_error "inventory next_index is not monotonic")
  ]
check_devices u _ _ = err (runtime_error "inventory structure is invalid")

unfoldable pub check_object : Unicode → Dict Json → Result Inventory
check_object u raw =
    if eq_int (or_null (lookup (codes "schema_version") raw)) schema_version
    then check_devices u (or_null (lookup (codes "devices") raw))
        (or_null (lookup (codes "next_index") raw))
    else err (runtime_error "inventory schema must be version ")

-- `item['id']` of an element of the first, list-based format
unfoldable pub old_id : Json → Result Json
old_id (obj fs) = elim (lookup (codes "id") (entries fs)) [
  | none ↦ err (key_error "id")
  | some v ↦ ok v
]
old_id _ = err (type_error "indices must be integers or slices, not str")

-- A key must be hashable.
unfoldable pub hashable : Json → Result Json
hashable (arr xs) = err (type_error "unhashable type: 'list'")
hashable (obj fs) = err (type_error "unhashable type: 'dict'")
hashable v = ok v

-- the keys and values of `{item['id']: item for item in raw}`, before equal keys are joined
unfoldable pub old_items : List Json → Result (List (Json × Json))
unfolding old_id hashable
old_items [] = ok []
old_items (x ∷ xs) = do v ← old_id x; key ← hashable v; rest ← old_items xs; ok ((key, x) ∷ rest)

-- `max((device_index(device, aliases=False) for device in devices), default=0)`
unfoldable pub max_index : Unicode → List (Json × Json) → ℕ → Result ℕ
max_index u [] m = ok m
max_index u ((key, x) ∷ rest) m = do i ← device_index u false key; max_index u rest (max m i)

-- Equal keys are joined: the last value stands at the place of the first. Once `max_index` has
-- returned, every key is a text.
unfoldable pub old_devices : List (Json × Json) → Dict Json → Dict Json
old_devices [] d = d
old_devices ((str key, x) ∷ rest) d = old_devices rest (insert key x d)
old_devices (_ ∷ rest) d = old_devices rest d

unfoldable pub migrate : Unicode → List Json → Result (Dict Json)
migrate u xs = do
  items ← old_items xs
  maximum ← max_index u items 0
  ok (
      (codes "schema_version", int schema_version)
      ∷ (codes "next_index", int (pos (maximum + 1)))
      ∷ (codes "devices", obj (fields (old_devices items [])))
      ∷ [])

unfoldable pub normalize : Unicode → Json → Result Inventory
normalize u (arr xs) = do raw ← migrate u (elements xs); check_object u raw
normalize u (obj fs) = check_object u (entries fs)
normalize u _ = err (runtime_error "inventory schema must be version ")

-- the object that an inventory stands for
unfoldable pub to_json : Inventory → Json
to_json inv = obj (
    fields (
      (codes "schema_version", int schema_version)
      ∷ (codes "next_index", int (pos inv.next_index))
      ∷ (codes "devices", obj (fields (map (λ e. (e.0, obj (fields e.1))) inv.devices)))
      ∷ []))

-- The file is a value, or absent.
unfoldable pub load : Unicode → Option Json → Result Inventory
load u none = ok empty_inventory
load u (some value) = normalize u value

-- what `save` writes: the inventory, after the same checks
unfoldable pub save : Unicode → Inventory → Result Json
save u inv = do _ ← normalize u (to_json inv); ok (to_json inv)

unfoldable pub find_device : Inventory → Text → Option DeviceRecord
find_device inv device = lookup device inv.devices

-- `resume_id` must be the identifier of a device itself.
unfoldable pub resume_target : Unicode → Json → Result Text
resume_target u target = do
  canonical ←
      replace_error (runtime_error "resume target must be a canonical device identifier")
        (do i ← device_index u false target; device_id (int (pos i)))
  raise_if (not (eq_str target canonical))
      (runtime_error "resume target must be a canonical device identifier")
  ok canonical

unfoldable pub resume_record : Inventory → Text → Text → Text → Text → Result DeviceRecord
resume_record inv phone proxy request k = do
  r ← elim (find_device inv k) [
    | none ↦ err (runtime_error "resume target is not allocated in the managed inventory")
    | some r ↦ ok r
  ]
  recorded_phone ← item phone_hash r
  raise_if (not (eq_str recorded_phone phone))
      (runtime_error "resume phone does not match the selected device; use its original request")
  recorded_request ← item request_hash r
  raise_if (not (eq_str recorded_request request)) (
      runtime_error
        "resume request differs from the selected device; use its original egress and application")
  recorded_proxy ← item proxy_hash r
  raise_if (not (eq_str recorded_proxy proxy)) (
      runtime_error
        "resume request differs from the selected device; use its original egress and application")
  ok r

-- `resume_id` is given: the record that it names, never another one.
unfoldable pub resume : Unicode → Inventory → Text → Text → Text → Json → Result DeviceRecord
resume u inv phone proxy request target = do
  k ← resume_target u target
  resume_record inv phone proxy request k

-- the first record with the phone, in the loop over `records(inventory)`
unfoldable pub find_phone : Text → List DeviceRecord → Result (Option DeviceRecord)
find_phone phone [] = ok none
find_phone phone (r ∷ rs) =
    let rest = find_phone phone rs in
    do v ← item phone_hash r; if eq_str v phone then ok (some r) else rest

-- `record.get('phase') not in COMPLETE_PHASES`: an unhashable value raises.
unfoldable pub incomplete : Json → Result Bool
unfolding hashable
incomplete phase = do
  v ← hashable phase
  ok (
      not
        (eq_str v (codes "ready_for_operator") || eq_str v (codes "ready_for_manual_registration")))

unfoldable pub any_incomplete : List DeviceRecord → Result Bool
any_incomplete [] = ok false
any_incomplete (r ∷ rs) =
    let rest = any_incomplete rs in
    do b ← incomplete (get (codes "phase") r); if b then ok true else rest

unfoldable pub any_proxy : Text → List DeviceRecord → Result Bool
any_proxy proxy [] = ok false
any_proxy proxy (r ∷ rs) =
    let rest = any_proxy proxy rs in
    do v ← item proxy_hash r; if eq_str v proxy then ok true else rest

abbrev pub new_record : Text → Text → Text → Text → DeviceRecord
new_record device phone proxy request =
    (codes "id", str device)
    ∷ (phone_hash, str phone)
    ∷ (proxy_hash, str proxy)
    ∷ (request_hash, str request)
    ∷ (codes "phase", str (codes "reserved"))
    ∷ []

-- the last part of `choose`: a new device
unfoldable pub allocate : Inventory → Text → Text → Text → Result (DeviceRecord × Bool × Inventory)
allocate inv phone proxy request = do
  unfinished ← any_incomplete (values inv.devices)
  raise_if unfinished
      (runtime_error "resume or quarantine the incomplete device before adding another")
  used ← any_proxy proxy (values inv.devices)
  raise_if used
      (runtime_error "proxy account/session already assigned; use a dedicated sticky session")
  raise_if (ltb device_limit inv.next_index)
      (runtime_error "device address/port allocator is exhausted")
  device ← device_id (int (pos inv.next_index))
  let r = new_record device phone proxy request
  ok (r, true, record { next_index = inv.next_index + 1; devices = insert device r inv.devices })

unfoldable pub choose_phone :
    Inventory → Text → Text → Text → Option DeviceRecord → Result (DeviceRecord × Bool × Inventory)
choose_phone inv phone proxy request none = allocate inv phone proxy request
choose_phone inv phone proxy request (some r) = do
  recorded ← item request_hash r
  raise_if (not (eq_str recorded request))
      (runtime_error "existing phone has a different request; do not reassign its identity")
  ok (r, false, inv)

-- The record, whether it is new, and the inventory afterwards.
unfoldable pub choose :
    Unicode
    → Inventory
    → Text
    → Text
    → Text
    → Option Json
    → Result (DeviceRecord × Bool × Inventory)
choose u inv phone proxy request (some target) = do
  r ← resume u inv phone proxy request target
  ok (r, false, inv)
choose u inv phone proxy request none = do
  found ← find_phone phone (values inv.devices)
  choose_phone inv phone proxy request found
