-- ===== src/Inventory/Extend.antt =====
-- `allocate` of ops/inventory.py, and the inventory with one more device.
use android_farm.Prelude.{
  ◌+◌, ◌≤◌, Text, codes, text_eq, text_eq_iff, ◌≡◌, ◌≢◌, refl, sym, ap, ◌∙◌, Bool, true, false, [],
  ◌∷◌, none, some, arith, ◌⊎◌, inl, inr, ok,
}
use android_farm.Prelude.Dict.{Dict, lookup, insert, values, lookup-insert}
use android_farm.Prelude.Decimal.{Unicode}
use android_farm.Json.{str, eq_str, or_null, eq_str_refl}
use android_farm.Device.{device_limit, device_name, device_id}
use android_farm.Device.Format.{device_name-injective}
use android_farm.Inventory.{
  Inventory, DeviceRecord, phone_hash, proxy_hash, get, item, find_phone, any_proxy, any_incomplete,
  new_record, allocate,
}
use android_farm.Inventory.Valid.{Holds, IsValid}

pub find_phone-none :
    (phone : Text) (d : Dict DeviceRecord) (k : Text) (r : DeviceRecord)
    → find_phone phone (values d) ≡ ok none
    → lookup k d ≡ some r
    → eq_str (get phone_hash r) phone ≡ false
unfolding find_phone lookup item get or_null
find_phone-none phone [] k r f h = cc
find_phone-none phone ((j, s) ∷ d) k r f h = ground (arith, find_phone-none phone d k r)

pub any_proxy-false :
    (proxy : Text) (d : Dict DeviceRecord) (k : Text) (r : DeviceRecord)
    → any_proxy proxy (values d) ≡ ok false
    → lookup k d ≡ some r
    → eq_str (get proxy_hash r) proxy ≡ false
unfolding any_proxy lookup item get or_null
any_proxy-false proxy [] k r f h = cc
any_proxy-false proxy ((j, s) ∷ d) k r f h = ground (arith, any_proxy-false proxy d k r)

-- the inventory with one more device
abbrev pub extend : Inventory → Text → Text → Text → Inventory
extend inv phone proxy request = record {
  next_index = inv.next_index + 1;
  devices =
      insert (device_name inv.next_index)
        (new_record (device_name inv.next_index) phone proxy request) inv.devices;
}

pub record Allocated (inv : Inventory) (phone proxy request : Text) (r : DeviceRecord) (b : Bool)
    (inv' : Inventory) : Type 0 where
  pub complete : any_incomplete (values inv.devices) ≡ ok false
  pub unused : any_proxy proxy (values inv.devices) ≡ ok false
  pub low : 1 ≤ inv.next_index
  pub high : inv.next_index ≤ device_limit
  pub the_record : r ≡ new_record (device_name inv.next_index) phone proxy request
  pub is_new : b ≡ true
  pub the_inventory : inv' ≡ extend inv phone proxy request

pub allocate_inv :
    (inv : Inventory) (phone proxy request : Text) (r : DeviceRecord) (b : Bool) (inv' : Inventory)
    → allocate inv phone proxy request ≡ ok (r, b, inv')
    → Allocated inv phone proxy request r b inv'
unfolding allocate device_id
allocate_inv inv phone proxy request r b inv' e = ground arith

module _ (device phone proxy request : Text) where
  pub new_record_fields :
      (get (codes "id") (new_record device phone proxy request) ≡ str device)
      × (get phone_hash (new_record device phone proxy request) ≡ str phone)
      × (get proxy_hash (new_record device phone proxy request) ≡ str proxy)
  unfolding get lookup or_null text_eq
  new_record_fields = (refl, refl, refl)

module _ (u : Unicode) (inv : Inventory) (phone proxy request : Text) (valid : IsValid inv)
    (low : 1 ≤ inv.next_index) (high : inv.next_index ≤ device_limit) where
  abbrev pub name : Text
  name = device_name inv.next_index

  abbrev pub new : DeviceRecord
  new = new_record name phone proxy request

  pub name_fresh : (r : DeviceRecord) → ¬ Holds inv name r
  name_fresh r h =
      let (i, e, l, b) = valid.canonical name r h in
      absurd (omega (arith, device_name-injective u inv.next_index i low high l (omega arith) e))

  extend_cases :
      (k : Text) (s : DeviceRecord)
      → Holds (extend inv phone proxy request) k s
      → ((k ≡ name) × (s ≡ new)) ⊎ Holds inv k s
  extend_cases k s h = ground (arith, lookup-insert name k new inv.devices, text_eq_iff name k)

  module _ (new_phone : find_phone phone (values inv.devices) ≡ ok none)
      (new_proxy : any_proxy proxy (values inv.devices) ≡ ok false) (phone_given : phone ≢ [])
      (proxy_given : proxy ≢ []) where
    phone_differs :
        (k : Text) (r : DeviceRecord) → Holds inv k r → get phone_hash r ≢ get phone_hash new
    phone_differs k r h e = ground (
      arith,
      find_phone-none phone inv.devices k r new_phone h,
      eq_str_refl phone,
      e,
      (new_record_fields name phone proxy request).1,
    )

    proxy_differs :
        (k : Text) (r : DeviceRecord) → Holds inv k r → get proxy_hash r ≢ get proxy_hash new
    proxy_differs k r h e = ground (
      arith,
      any_proxy-false proxy inv.devices k r new_proxy h,
      eq_str_refl proxy,
      e,
      (new_record_fields name phone proxy request).2,
    )

    pub extend-IsValid : IsValid (extend inv phone proxy request)
    extend-IsValid = record {
      canonical = λ k r h. elim (extend_cases k r h) [
        | inl (e, _) ↦ (inv.next_index, e, low, omega arith)
        | inr old ↦ let (i, e, l, b) = valid.canonical k r old in (i, e, l, omega arith)
      ];
      named = λ k r h. elim (extend_cases k r h) [
        | inl (e, n) ↦ rw (n, e) (new_record_fields name phone proxy request).0
        | inr old ↦ valid.named k r old
      ];
      phoned = λ k r h. elim (extend_cases k r h) [
        | inl (e, n) ↦ (phone, rw n (new_record_fields name phone proxy request).1, phone_given)
        | inr old ↦ valid.phoned k r old
      ];
      proxied = λ k r h. elim (extend_cases k r h) [
        | inl (e, n) ↦ (proxy, rw n (new_record_fields name phone proxy request).2, proxy_given)
        | inr old ↦ valid.proxied k r old
      ];
      phone_unique = λ j k r s g h e. elim (extend_cases j r g) [
        | inl (x, n) ↦ elim (extend_cases k s h) [
          | inl (y, m) ↦ x ∙ sym y
          | inr old ↦ absurd (phone_differs k s old (sym e ∙ ap (get phone_hash) n))
        ]
        | inr here ↦ elim (extend_cases k s h) [
          | inl (y, m) ↦ absurd (phone_differs j r here (e ∙ ap (get phone_hash) m))
          | inr old ↦ valid.phone_unique j k r s here old e
        ]
      ];
      proxy_unique = λ j k r s g h e. elim (extend_cases j r g) [
        | inl (x, n) ↦ elim (extend_cases k s h) [
          | inl (y, m) ↦ x ∙ sym y
          | inr old ↦ absurd (proxy_differs k s old (sym e ∙ ap (get proxy_hash) n))
        ]
        | inr here ↦ elim (extend_cases k s h) [
          | inl (y, m) ↦ absurd (proxy_differs j r here (e ∙ ap (get proxy_hash) m))
          | inr old ↦ valid.proxy_unique j k r s here old e
        ]
      ];
      next_positive = omega arith;
      next_bounded = omega arith;
    }
