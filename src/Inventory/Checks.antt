-- ===== src/Inventory/Checks.antt =====
-- What the loop of `normalize` in ops/inventory.py has established of the devices that it passed.
use android_farm.Prelude.{
  mem, ℕ, ◌≤◌, max, Text, codes, text_eq_iff, ◌≡◌, ◌≢◌, refl, ap, ◌∙◌, false, List, [], ◌∷◌, arith,
  Result, ok, err, runtime_error, ◌>>=◌, drop, String, replace_error,
}
use android_farm.Prelude.Dict.{Dict, lookup}
use android_farm.Prelude.Int.{pos}
use android_farm.Prelude.Decimal.{Unicode, read_from}
use android_farm.Json.{Json, null, int, str, obj, Fields, entries, or_null, eq_of_eq_str}
use android_farm.Device.{device_limit, device_name, device_id, device_index}
use android_farm.Device.Format.{device_id_of_index, device_index_bounds, read_from-device_name}
use android_farm.Inventory.{
  DeviceRecord, phone_hash, proxy_hash, get, Seen, add_seen, as_record, canonical_id, check_record,
  check_records,
}

canonical_id_inv :
    (u : Unicode) (device k : Text)
    → canonical_id u device ≡ ok k
    → (i : ℕ) × (k ≡ device_name i) × (1 ≤ i) × (i ≤ device_limit)
unfolding canonical_id
canonical_id_inv u device k h = go (device_index u false (str device)) refl h
  where
    go :
        (m : Result ℕ)
        → device_index u false (str device) ≡ m
        → replace_error
            (runtime_error "inventory contains an invalid device record")
            (m >>= λ i. device_id (int (pos i)))
          ≡ ok k
        → (i : ℕ) × (k ≡ device_name i) × (1 ≤ i) × (i ≤ device_limit)
    go (ok i) e f =
        let b = device_index_bounds u false (str device) i e in
        (i, ground (arith, device_id_of_index u i b.0 b.1), b.0, b.1)
    go (err x) e f = absurd (ground arith)

add_seen_inv :
    (message : String) (v : Json) (seen seen' : List Text)
    → add_seen message v seen ≡ ok seen'
    → (s : Text) × (v ≡ str s) × (s ≢ []) × (mem s seen ≡ false) × (seen' ≡ s ∷ seen)
unfolding add_seen
add_seen_inv message (str (c ∷ s)) seen seen' h =
    (c ∷ s, refl, λ e. cc e, ground arith, ground arith)
add_seen_inv message (str []) seen seen' h = absurd (ground arith)
add_seen_inv message _ seen seen' h = absurd (ground arith)

pub as_record_inv :
    (device : Text) (v : Json) (r : DeviceRecord)
    → as_record device v ≡ ok r
    → (get (codes "id") r ≡ str device) × (fs : Fields) × (r ≡ entries fs)
unfolding as_record get
as_record_inv device (obj fs) r h = (
  ground (arith, eq_of_eq_str (or_null (lookup (codes "id") (entries fs))) device),
  fs,
  ground arith,
)
as_record_inv device null r h = absurd (ground arith)
as_record_inv device _ r h = absurd (ground arith)

-- what one round of the loop has established
pub record Checked (device : Text) (r : DeviceRecord) (s s' : Seen) : Type 0 where
  pub index : ℕ
  pub name : device ≡ device_name index
  pub low : 1 ≤ index
  pub high : index ≤ device_limit
  pub maximum : s'.maximum ≡ max s.maximum index
  pub id : get (codes "id") r ≡ str device
  pub phone :
      (p : Text) × (get phone_hash r ≡ str p)
      × (p ≢ [])
      × (mem p s.phones ≡ false)
      × (s'.phones ≡ p ∷ s.phones)
  pub proxy :
      (p : Text) × (get proxy_hash r ≡ str p)
      × (p ≢ [])
      × (mem p s.proxies ≡ false)
      × (s'.proxies ≡ p ∷ s.proxies)

pub record Parts (u : Unicode) (device : Text) (value : Json) (r : DeviceRecord) (s s' : Seen)
    : Type 0 where
  pub canonical : canonical_id u device ≡ ok device
  pub is_record : as_record device value ≡ ok r
  pub phones : (m : String) × (add_seen m (get phone_hash r) s.phones ≡ ok s'.phones)
  pub proxies : (m : String) × (add_seen m (get proxy_hash r) s.proxies ≡ ok s'.proxies)
  pub maximum : s'.maximum ≡ max s.maximum (read_from u 0 (drop 3 device))

pub check_record-Parts :
    (u : Unicode) (device : Text) (value : Json) (r : DeviceRecord) (s s' : Seen)
    → check_record u device value s ≡ ok (r, s')
    → Parts u device value r s s'
unfolding check_record
check_record-Parts u device value r s s' h = record {
  canonical = go (canonical_id u device) refl;
  is_record = ground arith;
  phones = ("inventory contains an invalid or duplicate phone_hash", ground arith);
  proxies = ("inventory contains an invalid or duplicate proxy_hash", ground arith);
  maximum = ground arith;
}
  where
    go : (m : Result Text) → canonical_id u device ≡ m → canonical_id u device ≡ ok device
    go (ok c) e = ground (arith, text_eq_iff c device)
    go (err x) e = absurd (ground arith)

check_record_inv :
    (u : Unicode) (device : Text) (value : Json) (r : DeviceRecord) (s s' : Seen)
    → check_record u device value s ≡ ok (r, s')
    → Checked device r s s'
check_record_inv u device value r s s' h =
    let p = check_record-Parts u device value r s s' h in
    let (i, name, low, high) = canonical_id_inv u device device p.canonical in
    record {
      index = i;
      name = name;
      low = low;
      high = high;
      maximum = p.maximum ∙ ap (max s.maximum) (rw name (read_from-device_name u i));
      id = (as_record_inv device value r p.is_record).0;
      phone = add_seen_inv p.phones.0 (get phone_hash r) s.phones s'.phones p.phones.1;
      proxy = add_seen_inv p.proxies.0 (get proxy_hash r) s.proxies s'.proxies p.proxies.1;
    }

-- A text stands under the key in every record, and no two of these and of `seen` are equal.
abbrev pub Distinct : Text → List Text → Dict DeviceRecord → Type 0
Distinct key seen [] = Unit
Distinct key seen ((k, r) ∷ d) =
    (s : Text) × (get key r ≡ str s) × (s ≢ []) × (mem s seen ≡ false) × Distinct key (s ∷ seen) d

-- Every identifier is that of an index up to `m`, and its record bears it.
abbrev pub Named : ℕ → Dict DeviceRecord → Type 0
Named m [] = Unit
Named m ((k, r) ∷ d) =
    ((i : ℕ) × (k ≡ device_name i) × (1 ≤ i) × (i ≤ device_limit) × (i ≤ m))
    × (get (codes "id") r ≡ str k)
    × Named m d

pub record AllChecked (s : Seen) (m : ℕ) (d : Dict DeviceRecord) : Type 0 where
  pub phones : Distinct phone_hash s.phones d
  pub proxies : Distinct proxy_hash s.proxies d
  pub named : Named m d
  pub above : s.maximum ≤ m

pub record Cons (u : Unicode) (device : Text) (value : Json) (rest : Dict Json) (s : Seen)
    (d : Dict DeviceRecord) (m : ℕ) : Type 0 where
  pub r : DeviceRecord
  pub s' : Seen
  pub rs : Dict DeviceRecord
  pub head : check_record u device value s ≡ ok (r, s')
  pub tail : check_records u rest s' ≡ ok (rs, m)
  pub whole : d ≡ (device, r) ∷ rs

pub check_records-Cons :
    (u : Unicode) (device : Text) (value : Json) (rest : Dict Json) (s : Seen)
    (d : Dict DeviceRecord) (m : ℕ)
    → check_records u ((device, value) ∷ rest) s ≡ ok (d, m)
    → Cons u device value rest s d m
unfolding check_records
check_records-Cons u device value rest s d m h = go (check_record u device value s) refl
  where
    after :
        (r : DeviceRecord) (s' : Seen)
        → check_record u device value s ≡ ok (r, s')
        → (n : Result (Dict DeviceRecord × ℕ)) → check_records u rest s' ≡ n
        → Cons u device value rest s d m
    after r s' e (ok (rs, n)) f = record {
      r = r;
      s' = s';
      rs = rs;
      head = e;
      tail = ground arith;
      whole = ground arith;
    }
    after r s' e (err x) f = absurd (ground arith)

    go :
        (n : Result (DeviceRecord × Seen))
        → check_record u device value s ≡ n
        → Cons u device value rest s d m
    go (ok (r, s')) e = after r s' e (check_records u rest s') refl
    go (err x) e = absurd (ground arith)

Distinct-subst :
    (key : Text) {a b : List Text} (d : Dict DeviceRecord)
    → a ≡ b
    → Distinct key a d
    → Distinct key b d
Distinct-subst key d e h = rw e at h

pub check_records_inv :
    (u : Unicode) (raw : Dict Json) (s : Seen) (d : Dict DeviceRecord) (m : ℕ)
    → check_records u raw s ≡ ok (d, m)
    → AllChecked s m d
check_records_inv u [] s d m h =
    let e : (d ≡ []) × (m ≡ s.maximum) = unfold check_records in ground arith in
    rw e.0 (record { phones = tt; proxies = tt; named = tt; above = omega arith })
check_records_inv u ((device, value) ∷ rest) s d m h =
    let c = check_records-Cons u device value rest s d m h in
    let x = check_record_inv u device value c.r s c.s' c.head in
    let ih = check_records_inv u rest c.s' c.rs m c.tail in
    let p = x.phone in
    let q = x.proxy in
    rw c.whole (record {
      phones = (p.0, p.1, p.2, p.3, Distinct-subst phone_hash c.rs p.4 ih.phones);
      proxies = (q.0, q.1, q.2, q.3, Distinct-subst proxy_hash c.rs q.4 ih.proxies);
      named =
          ((x.index, x.name, x.low, x.high, omega (arith, x.maximum, ih.above)), x.id, ih.named);
      above = omega (arith, x.maximum, ih.above);
    })
