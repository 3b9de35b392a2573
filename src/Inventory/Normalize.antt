-- ===== src/Inventory/Normalize.antt =====
-- What `normalize` of ops/inventory.py accepts, and what `save` writes.
use android_farm.Prelude.{
  mem, ℕ, ◌+◌, ◌≤◌, ◌<◌, Text, codes, text_eq, text_eq_iff, text_eq_refl, ◌≡◌, refl, sym, ap, ◌∙◌,
  true, false, List, [], ◌∷◌, map, Option, none, some, arith, Bool-cases, inl, inr, Result, ok, err,
  ◌>>=◌,
}
use android_farm.Prelude.Dict.{Dict, lookup}
use android_farm.Prelude.Int.{pos, negsuc}
use android_farm.Prelude.Decimal.{Unicode}
use android_farm.Json.{
  Json, null, int, str, arr, obj, elements, entries, fields, eq_int, or_null, eq_str_refl,
}
use android_farm.Device.{device_limit, device_name}
use android_farm.Inventory.{
  Inventory, DeviceRecord, phone_hash, proxy_hash, get, Seen, as_record, check_record,
  check_records, check_devices, check_object, migrate, normalize, to_json, load, save,
  empty_inventory, schema_version,
}
use android_farm.Inventory.Valid.{IsValid, HasText}
use android_farm.Inventory.Checks.{
  Distinct, Named, AllChecked, check_records_inv, check_records-Cons, as_record_inv,
  check_record-Parts,
}

Distinct-unseen :
    (key : Text) (seen : List Text) (d : Dict DeviceRecord) (k t : Text) (r : DeviceRecord)
    → Distinct key seen d
    → lookup k d ≡ some r
    → get key r ≡ str t
    → mem t seen ≡ false
unfolding lookup mem
Distinct-unseen key seen [] k t r h l g = absurd (ground arith)
Distinct-unseen key seen ((j, x) ∷ d) k t r (s, e, n, f, rest) l g =
    elim (Bool-cases (text_eq j k)) [
      | inl here ↦ ground (arith, here, e, g, f, l)
      | inr there ↦ ground (arith, there, l, Distinct-unseen key (s ∷ seen) d k t r rest)
    ]

Distinct-text :
    (key : Text) (seen : List Text) (d : Dict DeviceRecord) (k : Text) (r : DeviceRecord)
    → Distinct key seen d
    → lookup k d ≡ some r
    → HasText key r
unfolding lookup
Distinct-text key seen [] k r h l = absurd (ground arith)
Distinct-text key seen ((j, x) ∷ d) k r (s, e, n, f, rest) l = elim (Bool-cases (text_eq j k)) [
  | inl here ↦ (s, ground arith, n)
  | inr there ↦ Distinct-text key (s ∷ seen) d k r rest (ground arith)
]

mem_self : (s : Text) (seen : List Text) → mem s (s ∷ seen) ≡ true
unfolding mem
mem_self s seen = rw text_eq_refl refl

Distinct-unique :
    (key : Text) (seen : List Text) (d : Dict DeviceRecord) (j k : Text) (r r' : DeviceRecord)
    → Distinct key seen d
    → lookup j d ≡ some r
    → lookup k d ≡ some r'
    → get key r ≡ get key r'
    → j ≡ k
unfolding lookup
Distinct-unique key seen [] j k r r' h l l' g = absurd (ground arith)
Distinct-unique key seen ((i, x) ∷ d) j k r r' (s, e, n, f, rest) l l' g =
    elim (Bool-cases (text_eq i j)) [
      | inl a ↦ elim (Bool-cases (text_eq i k)) [
        | inl b ↦ sym ((text_eq_iff i j).0 a) ∙ (text_eq_iff i k).0 b
        | inr b ↦
            let u = Distinct-unseen key (s ∷ seen) d k s r' rest (ground arith) (ground arith) in
            absurd (ground (arith, u, mem_self s seen))
      ]
      | inr a ↦ elim (Bool-cases (text_eq i k)) [
        | inl b ↦
            let u = Distinct-unseen key (s ∷ seen) d j s r rest (ground arith) (ground arith) in
            absurd (ground (arith, u, mem_self s seen))
        | inr b ↦ Distinct-unique key (s ∷ seen) d j k r r' rest (ground arith) (ground arith) g
      ]
    ]

Named-lookup :
    (m : ℕ) (d : Dict DeviceRecord) (k : Text) (r : DeviceRecord)
    → Named m d
    → lookup k d ≡ some r
    → ((i : ℕ) × (k ≡ device_name i) × (1 ≤ i) × (i ≤ m)) × (get (codes "id") r ≡ str k)
unfolding lookup
Named-lookup m [] k r h l = absurd (ground arith)
Named-lookup m ((j, x) ∷ d) k r ((i, n, lo, hi, b), g, rest) l = elim (Bool-cases (text_eq j k)) [
  | inl here ↦
      let e : j ≡ k = (text_eq_iff j k).0 here in
      ((i, sym e ∙ n, lo, b), ground (arith, g, e, l, here))
  | inr there ↦ Named-lookup m d k r rest (ground arith)
]

abbrev pub start : Seen
start = record { phones = []; proxies = []; maximum = 0 }

pub AllChecked-IsValid :
    (inv : Inventory) (m : ℕ)
    → AllChecked start m inv.devices
    → m < inv.next_index
    → inv.next_index ≤ device_limit + 1
    → IsValid inv
AllChecked-IsValid inv m c below bound = record {
  canonical =
      λ k r h. let x = (Named-lookup m inv.devices k r c.named h).0 in (x.0, x.1, x.2, omega arith);
  named = λ k r h. (Named-lookup m inv.devices k r c.named h).1;
  phoned = λ k r h. Distinct-text phone_hash [] inv.devices k r c.phones h;
  proxied = λ k r h. Distinct-text proxy_hash [] inv.devices k r c.proxies h;
  phone_unique = λ j k r s. Distinct-unique phone_hash [] inv.devices j k r s c.phones;
  proxy_unique = λ j k r s. Distinct-unique proxy_hash [] inv.devices j k r s c.proxies;
  next_positive = omega arith;
  next_bounded = bound;
}

-- what an accepted object holds
pub record Accepted (u : Unicode) (inv : Inventory) : Type 0 where
  pub old : Dict Json
  pub m : ℕ
  pub loop : check_records u old start ≡ ok (inv.devices, m)
  pub below : m < inv.next_index
  pub bound : inv.next_index ≤ device_limit + 1

pub check_devices_inv :
    (u : Unicode) (v w : Json) (inv : Inventory) → check_devices u v w ≡ ok inv → Accepted u inv
unfolding check_devices
check_devices_inv u (obj fs) (int (pos n)) inv h = go (check_records u (entries fs) start) refl
  where
    go :
        (c : Result (Dict DeviceRecord × ℕ))
        → check_records u (entries fs) start ≡ c
        → Accepted u inv
    go (ok (rs, m)) e =
        let x : (inv.devices ≡ rs) × (inv.next_index ≡ n) × (m < n) × (n ≤ device_limit + 1) =
          ground arith in
        record {
          old = entries fs;
          m = m;
          loop = rw x.0 e;
          below = omega arith;
          bound = omega arith;
        }
    go (err x) e = absurd (ground arith)
check_devices_inv u (obj fs) (int (negsuc n)) inv h =
    absurd (go (check_records u (entries fs) start) refl)
  where
    go : (c : Result (Dict DeviceRecord × ℕ)) → check_records u (entries fs) start ≡ c → ⊥
    go (ok (rs, m)) e = ground arith
    go (err x) e = ground arith
check_devices_inv u (obj fs) w inv h = absurd (ground arith)
check_devices_inv u v w inv h = absurd (ground arith)

pub check_object_inv :
    (u : Unicode) (raw : Dict Json) (inv : Inventory) → check_object u raw ≡ ok inv → Accepted u inv
unfolding check_object
check_object_inv u raw inv h =
    check_devices_inv u (or_null (lookup (codes "devices") raw))
      (or_null (lookup (codes "next_index") raw)) inv (ground arith)

normalize_inv :
    (u : Unicode) (raw : Json) (inv : Inventory) → normalize u raw ≡ ok inv → Accepted u inv
unfolding normalize
normalize_inv u (obj fs) inv h = check_object_inv u (entries fs) inv h
normalize_inv u (arr xs) inv h = go (migrate u (elements xs)) h
  where
    go : (m : Result (Dict Json)) → (m >>= check_object u) ≡ ok inv → Accepted u inv
    go (ok raw) e = check_object_inv u raw inv e
    go (err x) e = absurd (ground arith)
normalize_inv u null inv h = absurd (ground arith)
normalize_inv u _ inv h = absurd (ground arith)

entries-fields : (d : Dict Json) → entries (fields d) ≡ d
unfolding entries fields
entries-fields [] = refl
entries-fields ((k, v) ∷ d) = ap (◌∷◌ (k, v)) (entries-fields d)

-- a record as a value of the object of devices
abbrev pub saved : Dict DeviceRecord → Dict Json
saved = map (λ e. (e.0, obj (fields e.1)))

check_record_again :
    (u : Unicode) (device : Text) (value : Json) (r : DeviceRecord) (s s' : Seen)
    → check_record u device value s ≡ ok (r, s')
    → check_record u device (obj (fields r)) s ≡ ok (r, s')
check_record_again u device value r s s' h =
    let p = check_record-Parts u device value r s s' h in
    let again : as_record device (obj (fields r)) ≡ ok r =
      unfold as_record in
      rw (entries-fields r) (
        ground
          (arith, (as_record_inv device value r p.is_record).0, eq_str_refl device, get_lem)) in
    unfold check_record in ground (arith, p.is_record, again, p.canonical)
  where
    get_lem : get (codes "id") r ≡ or_null (lookup (codes "id") r)
    get_lem = unfold get in refl

check_records_step :
    (u : Unicode) (device : Text) (value : Json) (rest : Dict Json) (s s' : Seen) (r : DeviceRecord)
    (rs : Dict DeviceRecord) (m : ℕ)
    → check_record u device value s ≡ ok (r, s')
    → check_records u rest s' ≡ ok (rs, m)
    → check_records u ((device, value) ∷ rest) s ≡ ok ((device, r) ∷ rs, m)
unfolding check_records
check_records_step u device value rest s s' r rs m e f = rw e (rw f refl)

check_records_again :
    (u : Unicode) (old : Dict Json) (s : Seen) (d : Dict DeviceRecord) (m : ℕ)
    → check_records u old s ≡ ok (d, m)
    → check_records u (saved d) s ≡ ok (d, m)
check_records_again u [] s d m h =
    let e : (d ≡ []) × (m ≡ s.maximum) = unfold check_records in ground arith in
    rw (e.0, e.1) (unfold check_records in refl)
check_records_again u ((device, value) ∷ rest) s d m h =
    let c = check_records-Cons u device value rest s d m h in
    let x = check_record_again u device value c.r s c.s' c.head in
    rw c.whole (
      check_records_step u device (obj (fields c.r)) (saved c.rs) s c.s' c.r c.rs m x
        (check_records_again u rest c.s' c.rs m c.tail))

check_devices-saved :
    (u : Unicode) (inv : Inventory)
    → Accepted u inv
    → check_devices u (obj (fields (saved inv.devices))) (int (pos inv.next_index)) ≡ ok inv
unfolding check_devices
check_devices-saved u inv a = rw (entries-fields (saved inv.devices)) (
    rw (check_records_again u a.old start inv.devices a.m a.loop)
      (ground (arith, a.below, a.bound)))

-- `to_json` writes what `check_object` reads.
normalize-to_json :
    (u : Unicode) (inv : Inventory) → Accepted u inv → normalize u (to_json inv) ≡ ok inv
unfolding normalize to_json
normalize-to_json u inv a =
    rw (entries-fields (raw inv))
      (unfold check_object lookup text_eq or_null eq_int in check_devices-saved u inv a)
  where
    raw : Inventory → Dict Json
    raw inv =
        (codes "schema_version", int schema_version)
        ∷ (codes "next_index", int (pos inv.next_index))
        ∷ (codes "devices", obj (fields (saved inv.devices)))
        ∷ []

empty_inventory-Accepted : (u : Unicode) → Accepted u empty_inventory
unfolding check_records
empty_inventory-Accepted u = record {
  old = [];
  m = 0;
  loop = refl;
  below = omega arith;
  bound = omega arith;
}

load_inv :
    (u : Unicode) (file : Option Json) (inv : Inventory) → load u file ≡ ok inv → Accepted u inv
unfolding load
load_inv u none inv h =
    let e : inv ≡ empty_inventory = ground arith in rw e (empty_inventory-Accepted u)
load_inv u (some raw) inv h = normalize_inv u raw inv h

-- An inventory that was loaded is valid and can be saved, and what is saved is loaded as the same
-- inventory.
pub load-save :
    (u : Unicode) (file : Option Json) (inv : Inventory)
    → load u file ≡ ok inv
    → IsValid inv × (save u inv ≡ ok (to_json inv)) × (load u (some (to_json inv)) ≡ ok inv)
load-save u file inv h =
    let a = load_inv u file inv h in
    let again = normalize-to_json u inv a in
    (
      AllChecked-IsValid inv a.m (check_records_inv u a.old start inv.devices a.m a.loop) a.below
          a.bound,
      unfold save in rw again refl,
      unfold load in again,
    )
