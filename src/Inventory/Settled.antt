-- ===== src/Inventory/Settled.antt =====
-- What `choose` of ops/inventory.py adds, and what the recorded devices are when it does.
use android_farm.Prelude.{
  ◌+◌, ◌≤◌, ◌||◌, Text, codes, text_eq, text_eq_iff, text_eq_refl, ◌≡◌, ◌≢◌, refl, ap, Bool, true,
  false, List, [], ◌∷◌, none, arith, ◌⊎◌, ok, In,
}
use android_farm.Prelude.Dict.{lookup, values, lookup-insert}
use android_farm.Json.{Json, str, eq_str, eq_str_refl, or_null, eq_of_eq_str}
use android_farm.Device.{device_limit, device_name}
use android_farm.Inventory.{
  Inventory, DeviceRecord, phone_hash, proxy_hash, request_hash, get, item, find_phone, any_proxy,
  any_incomplete, incomplete, hashable,
}
use android_farm.Inventory.Valid.{Holds}
use android_farm.Inventory.Extend.{Allocated}

-- what each recorded device has to be for a device to be added: prepared to its end, and of another
-- phone and another proxy
pub record IsSettled (phone proxy : Text) (s : DeviceRecord) : Type 0 where
  pub phase :
      (get (codes "phase") s ≡ str (codes "ready_for_operator"))
      ⊎ (get (codes "phase") s ≡ str (codes "ready_for_manual_registration"))
  pub other_phone : get phone_hash s ≢ str phone
  pub other_proxy : get proxy_hash s ≢ str proxy

-- a device that is added
pub record Added (inv : Inventory) (phone proxy request : Text) (r : DeviceRecord) (b : Bool)
    (inv' : Inventory) : Type 0 where
  pub settled : (s : DeviceRecord) → In s (values inv.devices) → IsSettled phone proxy s
  pub low : 1 ≤ inv.next_index
  pub high : inv.next_index ≤ device_limit
  pub identifier : get (codes "id") r ≡ str (device_name inv.next_index)
  pub the_phone : get phone_hash r ≡ str phone
  pub the_proxy : get proxy_hash r ≡ str proxy
  pub the_request : get request_hash r ≡ str request
  pub reserved : get (codes "phase") r ≡ str (codes "reserved")
  pub is_new : b ≡ true
  pub next : inv'.next_index ≡ inv.next_index + 1
  pub here : Holds inv' (device_name inv.next_index) r
  pub others :
      (j : Text) → j ≢ device_name inv.next_index → lookup j inv'.devices ≡ lookup j inv.devices

settled_phone :
    (phone : Text) (rs : List DeviceRecord) (s : DeviceRecord)
    → find_phone phone rs ≡ ok none
    → In s rs
    → eq_str (get phone_hash s) phone ≡ false
unfolding find_phone item get or_null
settled_phone phone [] s f i = elim i [ ]
settled_phone phone (r ∷ rs) s f i = ground (arith, f, i, settled_phone phone rs s)

settled_proxy :
    (proxy : Text) (rs : List DeviceRecord) (s : DeviceRecord)
    → any_proxy proxy rs ≡ ok false
    → In s rs
    → eq_str (get proxy_hash s) proxy ≡ false
unfolding any_proxy item get or_null
settled_proxy proxy [] s f i = elim i [ ]
settled_proxy proxy (r ∷ rs) s f i = ground (arith, f, i, settled_proxy proxy rs s)

unfoldable is_complete : Json → Bool
is_complete v =
    eq_str v (codes "ready_for_operator") || eq_str v (codes "ready_for_manual_registration")

incomplete-false : (v : Json) → incomplete v ≡ ok false → is_complete v ≡ true
unfolding incomplete is_complete hashable
incomplete-false v e = ground (arith, e)

complete_phase :
    (v : Json)
    → is_complete v ≡ true
    → (v ≡ str (codes "ready_for_operator")) ⊎ (v ≡ str (codes "ready_for_manual_registration"))
unfolding is_complete
complete_phase v e = ground (
  arith,
  e,
  eq_of_eq_str v (codes "ready_for_operator"),
  eq_of_eq_str v (codes "ready_for_manual_registration"),
)

settled_phase :
    (rs : List DeviceRecord) (s : DeviceRecord)
    → any_incomplete rs ≡ ok false
    → In s rs
    → incomplete (get (codes "phase") s) ≡ ok false
unfolding any_incomplete
settled_phase [] s f i = elim i [ ]
settled_phase (r ∷ rs) s f i = ground (arith, f, i, settled_phase rs s)

apart : (v : Json) (t : Text) → eq_str v t ≡ false → v ≢ str t
apart v t e h = cc (e, ap (λ x. eq_str x t) h, eq_str_refl t)

pub allocated-Added :
    (inv : Inventory) (phone proxy request : Text) (r : DeviceRecord) (b : Bool) (inv' : Inventory)
    → find_phone phone (values inv.devices) ≡ ok none
    → Allocated inv phone proxy request r b inv'
    → Added inv phone proxy request r b inv'
unfolding get lookup or_null text_eq
allocated-Added inv phone proxy request r b inv' f a = record {
  settled = λ s i. record {
    phase = complete_phase (get (codes "phase") s) (
        incomplete-false (get (codes "phase") s)
          (settled_phase (values inv.devices) s a.complete i));
    other_phone = apart (get phone_hash s) phone (settled_phone phone (values inv.devices) s f i);
    other_proxy =
        apart (get proxy_hash s) proxy (settled_proxy proxy (values inv.devices) s a.unused i);
  };
  low = a.low;
  high = a.high;
  identifier = rw a.the_record refl;
  the_phone = rw a.the_record refl;
  the_proxy = rw a.the_record refl;
  the_request = rw a.the_record refl;
  reserved = rw a.the_record refl;
  is_new = a.is_new;
  next = rw a.the_inventory refl;
  here = rw (a.the_inventory, a.the_record, lookup-insert) (rw text_eq_refl refl);
  others = λ j n.
      rw (a.the_inventory, lookup-insert)
        (ground (arith, text_eq_iff (device_name inv.next_index) j));
}
