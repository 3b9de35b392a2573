-- ===== src/Inventory/Choose.antt =====
-- `choose` of ops/inventory.py.
use android_farm.Prelude.{
  ◌≤◌, Text, codes, text_eq_iff, text_eq_refl, ◌≡◌, ◌≢◌, refl, Bool, true, false, List, [], ◌∷◌,
  Option, none, some, arith, ◌⊎◌, inl, inr, Result, ok, err, runtime_error, not, ◌>>=◌, ◌>>◌,
  raise_if, In,
}
use android_farm.Prelude.Dict.{Dict, lookup, values, lookup-insert}
use android_farm.Prelude.Decimal.{Unicode}
use android_farm.Json.{Json, str, eq_str, or_null, eq_of_eq_str}
use android_farm.Device.{device_limit, device_name}
use android_farm.Inventory.{
  Inventory, DeviceRecord, phone_hash, proxy_hash, request_hash, get, item, find_phone,
  choose_phone, resume_target, resume_record, resume, choose, find_device,
}
use android_farm.Inventory.Valid.{Holds, IsValid}
use android_farm.Inventory.Settled.{Added, allocated-Added}
use android_farm.Inventory.Extend.{
  Allocated, allocate_inv, new_record_fields, name_fresh, extend-IsValid,
}

find_phone-some :
    (phone : Text) (rs : List DeviceRecord) (r : DeviceRecord)
    → find_phone phone rs ≡ ok (some r)
    → (eq_str (get phone_hash r) phone ≡ true) × In r rs
unfolding find_phone item get or_null
find_phone-some phone [] r f = cc
find_phone-some phone (s ∷ rs) r f = ground (arith, find_phone-some phone rs r)

-- What a record that was there before answers to a request: it is the request's own.
pub record Matches (inv : Inventory) (phone request : Text) (r : DeviceRecord) : Type 0 where
  pub recorded : In r (values inv.devices)
  pub same_phone : get phone_hash r ≡ str phone
  pub same_request : get request_hash r ≡ str request

lookup-In :
    (k : Text) (d : Dict DeviceRecord) (r : DeviceRecord) → lookup k d ≡ some r → In r (values d)
unfolding lookup
lookup-In k [] r h = cc
lookup-In k ((j, s) ∷ d) r h = ground (arith, lookup-In k d r)

resume_target_inv :
    (u : Unicode) (target : Json) (k : Text) → resume_target u target ≡ ok k → target ≡ str k
unfolding resume_target
resume_target_inv u target k h = go _ h
  where
    go :
        (m : Result Text)
        → (m >>= λ c.
            raise_if
              (not (eq_str target c))
              (runtime_error "resume target must be a canonical device identifier")
            >> ok c)
          ≡ ok k
        → target ≡ str k
    go (ok c) e = ground (arith, eq_of_eq_str target c)
    go (err x) e = absurd (ground arith)

resume_record_inv :
    (inv : Inventory) (phone proxy request k : Text) (r : DeviceRecord)
    → resume_record inv phone proxy request k ≡ ok r
    → Holds inv k r
      × (get phone_hash r ≡ str phone)
      × (get request_hash r ≡ str request)
      × (get proxy_hash r ≡ str proxy)
unfolding resume_record find_device item get or_null
resume_record_inv inv phone proxy request k r h = ground (
  arith,
  eq_of_eq_str (or_null (lookup phone_hash r)) phone,
  eq_of_eq_str (or_null (lookup request_hash r)) request,
  eq_of_eq_str (or_null (lookup proxy_hash r)) proxy,
)

abbrev unchanged : Inventory → DeviceRecord → Result (DeviceRecord × Bool × Inventory)
unchanged inv r = ok (r, false, inv)

-- A targeted continuation returns the record under the identifier that it names, with the phone,
-- the request and the proxy of the call, and leaves the inventory as it was.
pub choose-resume :
    (u : Unicode) (inv : Inventory) (phone proxy request : Text) (target : Json) (r : DeviceRecord)
    (b : Bool) (inv' : Inventory)
    → choose u inv phone proxy request (some target) ≡ ok (r, b, inv')
    → (k : Text) × (target ≡ str k)
      × Holds inv k r
      × (get phone_hash r ≡ str phone)
      × (get request_hash r ≡ str request)
      × (get proxy_hash r ≡ str proxy)
      × (b ≡ false)
      × (inv' ≡ inv)
unfolding choose resume
choose-resume u inv phone proxy request target r b inv' h = go (resume_target u target) refl h
  where
    go :
        (m : Result Text)
        → resume_target u target ≡ m
        → ((m >>= resume_record inv phone proxy request) >>= unchanged inv) ≡ ok (r, b, inv')
        → (k : Text) × (target ≡ str k)
          × Holds inv k r
          × (get phone_hash r ≡ str phone)
          × (get request_hash r ≡ str request)
          × (get proxy_hash r ≡ str proxy)
          × (b ≡ false)
          × (inv' ≡ inv)
    go (ok k) e h =
        let x : (resume_record inv phone proxy request k ≡ ok r) × (b ≡ false) × (inv' ≡ inv) =
          ground arith in
        let y = resume_record_inv inv phone proxy request k r x.0 in
        (k, resume_target_inv u target k e, y.0, y.1, y.2, y.3, x.1, x.2)
    go (err x) e h = absurd (ground arith)

-- the two ways in which `choose` answers a request with no target
choose_phone_inv :
    (inv : Inventory) (phone proxy request : Text) (s r : DeviceRecord) (b : Bool)
    (inv' : Inventory)
    → choose_phone inv phone proxy request (some s) ≡ ok (r, b, inv')
    → (r ≡ s) × (b ≡ false) × (inv' ≡ inv) × (get request_hash r ≡ str request)
unfolding choose_phone item get or_null
choose_phone_inv inv phone proxy request s r b inv' h =
    ground (arith, eq_of_eq_str (or_null (lookup request_hash s)) request)

abbrev Parts : Inventory → Text → Text → Text → DeviceRecord → Bool → Inventory → Type 0
Parts inv phone proxy request r b inv' =
    ((find_phone phone (values inv.devices) ≡ ok none) × Allocated inv phone proxy request r b inv')
    ⊎ (Matches inv phone request r × (b ≡ false) × (inv' ≡ inv))

choose-Parts :
    (u : Unicode) (inv : Inventory) (phone proxy request : Text) (r : DeviceRecord) (b : Bool)
    (inv' : Inventory)
    → choose u inv phone proxy request none ≡ ok (r, b, inv')
    → Parts inv phone proxy request r b inv'
unfolding choose
choose-Parts u inv phone proxy request r b inv' h =
    go (find_phone phone (values inv.devices)) refl h
  where
    go :
        (m : Result (Option DeviceRecord))
        → find_phone phone (values inv.devices) ≡ m
        → (m >>= choose_phone inv phone proxy request) ≡ ok (r, b, inv')
        → Parts inv phone proxy request r b inv'
    go (ok none) e h =
        inl (e, allocate_inv inv phone proxy request r b inv' (unfold choose_phone in h))
    go (ok (some s)) e h =
        let x = choose_phone_inv inv phone proxy request s r b inv' h in
        let y = find_phone-some phone (values inv.devices) s e in
        inr (
          record {
            recorded = rw x.0 y.1;
            same_phone = rw x.0 (eq_of_eq_str (get phone_hash s) phone y.0);
            same_request = x.3;
          },
          x.1,
          x.2,
        )
    go (err x) e h = absurd (ground arith)

abbrev pub Outcome : Inventory → Text → Text → Text → DeviceRecord → Bool → Inventory → Type 0
Outcome inv phone proxy request r b inv' =
    Added inv phone proxy request r b inv'
    ⊎ (Matches inv phone request r × (b ≡ false) × (inv' ≡ inv))

-- Without a target, a call that returns either answers with a recorded device that has the phone
-- and the request, and leaves the inventory as it was, or adds one device: then every recorded device
-- is in one of the two complete phases and has another phone and another proxy, the new record has the
-- next identifier, the hashes of the call and the phase `reserved`, and all else is kept.
pub choose_outcome :
    (u : Unicode) (inv : Inventory) (phone proxy request : Text) (r : DeviceRecord) (b : Bool)
    (inv' : Inventory)
    → choose u inv phone proxy request none ≡ ok (r, b, inv')
    → Outcome inv phone proxy request r b inv'
choose_outcome u inv phone proxy request r b inv' h =
    elim (choose-Parts u inv phone proxy request r b inv' h) [
      | inl (f, a) ↦ inl (allocated-Added inv phone proxy request r b inv' f a)
      | inr m ↦ inr m
    ]

-- Every call of `choose` with a phone hash and a proxy hash that are not empty keeps the inventory
-- valid when it returns.
pub choose-IsValid :
    (u : Unicode) (inv : Inventory) (phone proxy request : Text) (target : Option Json)
    (r : DeviceRecord) (b : Bool) (inv' : Inventory)
    → IsValid inv
    → phone ≢ []
    → proxy ≢ []
    → choose u inv phone proxy request target ≡ ok (r, b, inv')
    → IsValid inv'
choose-IsValid u inv phone proxy request (some target) r b inv' v p q h =
    let x = choose-resume u inv phone proxy request target r b inv' h in rw x.7 v
choose-IsValid u inv phone proxy request none r b inv' v p q h =
    elim (choose-Parts u inv phone proxy request r b inv' h) [
      | inl (f, a) ↦
          rw a.the_inventory
            (extend-IsValid u inv phone proxy request v a.low a.high f a.unused p q)
      | inr (m, c, e) ↦ rw e v
    ]

-- A new device has an identifier that no device had, and every other identifier keeps its record.
pub choose_fresh :
    (u : Unicode) (inv : Inventory) (phone proxy request : Text) (r : DeviceRecord)
    (inv' : Inventory)
    → IsValid inv
    → choose u inv phone proxy request none ≡ ok (r, true, inv')
    → (k : Text) × (get (codes "id") r ≡ str k)
      × (lookup k inv.devices ≡ none)
      × Holds inv' k r
      × ((j : Text) → j ≢ k → lookup j inv'.devices ≡ lookup j inv.devices)
choose_fresh u inv phone proxy request r inv' v h =
    elim (choose-Parts u inv phone proxy request r true inv' h) [
      | inl (f, a) ↦ (
        device_name inv.next_index,
        rw a.the_record (new_record_fields (device_name inv.next_index) phone proxy request).0,
        absent a.low a.high (lookup (device_name inv.next_index) inv.devices) refl,
        rw (a.the_inventory, a.the_record, lookup-insert) (rw text_eq_refl refl),
        λ j n.
            rw (a.the_inventory, lookup-insert)
              (ground (arith, text_eq_iff (device_name inv.next_index) j)),
      )
      | inr (m, c, e) ↦ cc c
    ]
  where
    absent :
        1 ≤ inv.next_index
        → inv.next_index ≤ device_limit
        → (o : Option DeviceRecord) → lookup (device_name inv.next_index) inv.devices ≡ o
        → o ≡ none
    absent l b none e = refl
    absent l b (some s) e = absurd (name_fresh u inv phone proxy request v l b s e)
