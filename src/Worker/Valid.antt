-- ===== src/Worker/Valid.antt =====
-- Which tasks `validate` passes, and that a task that was written is read back (worker.py).
use android_farm.Prelude.{
  ℕ, ◌≤◌, Text, codes, text_eq, mem, ◌≡◌, refl, sym, Bool, true, false, not, Option, none, some,
  arith, if◌then◌else◌, ok, >>=-ok, raise_if-ok,
}
use android_farm.Prelude.Int.{pos, negsuc}
use android_farm.Json.{Json, null, int, str, obj, entries, eq_int}
use android_farm.Worker.Task.{
  RawTask, Task, raw_of, device_json, task_object, sorted_fields, Env, check_action, check_key,
  check_no_device, check_some_device, check_device, check_created_at, check_attempt,
  check_max_attempts, check_uuid, validate, to_json, of_fields, of_json, from_json, matches_device,
  matches_key, allowed_actions,
}
use android_farm.Prelude.Dict.{lookup}

check_action-ok :
    (j : Json) (s : Text) → check_action j ≡ ok s → (j ≡ str s) × (mem s allowed_actions ≡ true)
unfolding check_action
check_action-ok (str t) s e = ground (arith, e)
check_action-ok null s e = cc e
check_action-ok _ s e = cc e

check_key-ok : (j : Json) (s : Text) → check_key j ≡ ok s → (j ≡ str s) × (matches_key s ≡ true)
unfolding check_key
check_key-ok (str t) s e = ground (arith, e)
check_key-ok null s e = cc e
check_key-ok _ s e = cc e

check_no_device-ok :
    (j : Json) (o : Option Text) → check_no_device j ≡ ok o → (j ≡ null) × (o ≡ none)
unfolding check_no_device
check_no_device-ok null o e = ground (arith, e)
check_no_device-ok (str s) o e = cc e
check_no_device-ok _ o e = cc e

check_some_device-ok :
    (j : Json) (o : Option Text)
    → check_some_device j ≡ ok o
    → (d : Text) × (o ≡ some d) × (j ≡ str d) × (matches_device d ≡ true)
unfolding check_some_device
check_some_device-ok (str t) o e = (t, ground (arith, e), refl, ground (arith, e))
check_some_device-ok null o e = cc e
check_some_device-ok _ o e = cc e

-- a device is there exactly if the action is not the status of all
abbrev pub Fits : Text → Option Text → Type 0
Fits action none = text_eq action (codes "status") ≡ true
Fits action (some d) = (text_eq action (codes "status") ≡ false) × (matches_device d ≡ true)

check_device-ok :
    (action : Text) (j : Json) (o : Option Text)
    → check_device action j ≡ ok o
    → (j ≡ device_json o) × Fits action o
unfolding check_device
check_device-ok action j o e = go (text_eq action (codes "status")) refl e
  where
    go :
        (b : Bool)
        → text_eq action (codes "status") ≡ b
        → (if b then check_no_device j else check_some_device j) ≡ ok o
        → (j ≡ device_json o) × Fits action o
    go true t e = let (p, q) = check_no_device-ok j o e in rw q (p, t)
    go false t e = let (d, q, p, m) = check_some_device-ok j o e in rw q (p, (t, m))

check_created_at-ok : (j : Json) (n : ℕ) → check_created_at j ≡ ok n → (j ≡ int (pos n)) × (1 ≤ n)
unfolding check_created_at
check_created_at-ok (int (pos m)) n e = ground (arith, e)
check_created_at-ok (int (negsuc m)) n e = cc e
check_created_at-ok null n e = cc e
check_created_at-ok _ n e = cc e

check_attempt-ok : (j : Json) (n : ℕ) → check_attempt j ≡ ok n → j ≡ int (pos n)
unfolding check_attempt
check_attempt-ok (int (pos m)) n e = ground (arith, e)
check_attempt-ok (int (negsuc m)) n e = cc e
check_attempt-ok null n e = cc e
check_attempt-ok _ n e = cc e

check_max_attempts-ok :
    (j : Json) (n : ℕ) → check_max_attempts j ≡ ok n → (j ≡ int (pos n)) × (1 ≤ n) × (n ≤ 10)
unfolding check_max_attempts
check_max_attempts-ok (int (pos m)) n e = ground (arith, e)
check_max_attempts-ok (int (negsuc m)) n e = cc e
check_max_attempts-ok null n e = cc e
check_max_attempts-ok _ n e = cc e

-- a task that `validate` passes
pub record IsTask (env : Env) (t : Task) : Type 0 where
  pub version : eq_int t.schema_version (pos 1) ≡ true
  pub uuid : env.is_uuid t.task_id ≡ true
  pub key : matches_key t.idempotency_key ≡ true
  pub action : mem t.action allowed_actions ≡ true
  pub device : Fits t.action t.device
  pub created : 1 ≤ t.created_at
  pub attempt : t.attempt ≤ t.max_attempts
  pub some_attempts : 1 ≤ t.max_attempts
  pub few_attempts : t.max_attempts ≤ 10

module _ (env : Env) where
  check_uuid-ok :
      (j : Json) (s : Text) → check_uuid env j ≡ ok s → (j ≡ str s) × (env.is_uuid s ≡ true)
  unfolding check_uuid
  check_uuid-ok (str t) s e = ground (arith, e)
  check_uuid-ok null s e = cc e
  check_uuid-ok (int n) s e = cc e
  check_uuid-ok _ s e = cc e

  -- `validate` returns the fields that it was given, and they are those of a task.
  pub validate-ok : (r : RawTask) (t : Task) → validate env r ≡ ok t → (r ≡ raw_of t) × IsTask env t
  unfolding validate raw_of
  validate-ok r t e =
      let (v, e0) = raise_if-ok (not (eq_int r.schema_version (pos 1))) _ _ t e in
      let (id, p1, e1) = >>=-ok (check_uuid env r.task_id) _ t e0 in
      let (key, p2, e2) = >>=-ok (check_key r.idempotency_key) _ t e1 in
      let (action, p3, e3) = >>=-ok (check_action r.action) _ t e2 in
      let (device, p4, e4) = >>=-ok (check_device action r.device) _ t e3 in
      let (created, p5, e5) = >>=-ok (check_created_at r.created_at) _ t e4 in
      let (attempt, p6, e6) = >>=-ok (check_attempt r.attempt) _ t e5 in
      let (limit, p7, e7) = >>=-ok (check_max_attempts r.max_attempts) _ t e6 in
      finish id key action device created attempt limit (ground (arith, v))
        (check_uuid-ok r.task_id id p1) (check_key-ok r.idempotency_key key p2)
        (check_action-ok r.action action p3) (check_device-ok action r.device device p4)
        (check_created_at-ok r.created_at created p5) (check_attempt-ok r.attempt attempt p6)
        (check_max_attempts-ok r.max_attempts limit p7) (ground (arith, e7)) (ground (arith, e7))
    where
      finish :
          (id key action : Text) (device : Option Text) (created attempt limit : ℕ)
          → eq_int r.schema_version (pos 1) ≡ true
          → (r.task_id ≡ str id) × (env.is_uuid id ≡ true)
          → (r.idempotency_key ≡ str key) × (matches_key key ≡ true)
          → (r.action ≡ str action) × (mem action allowed_actions ≡ true)
          → (r.device ≡ device_json device) × Fits action device
          → (r.created_at ≡ int (pos created)) × (1 ≤ created)
          → r.attempt ≡ int (pos attempt)
          → (r.max_attempts ≡ int (pos limit)) × (1 ≤ limit) × (limit ≤ 10)
          → attempt ≤ limit
          → record {
            schema_version = r.schema_version;
            task_id = id;
            idempotency_key = key;
            action = action;
            device = device;
            created_at = created;
            attempt = attempt;
            max_attempts = limit;
          }
            ≡ t
          → (r ≡ raw_of t) × IsTask env t
      finish id key action device created attempt limit v p1 p2 p3 p4 p5 p6 p7 le same =
          rw (sym same) (
            ground (arith, p1, p2, p3, p4, p5, p6, p7),
            record {
              version = v;
              uuid = p1.1;
              key = p2.1;
              action = p3.1;
              device = p4.1;
              created = p5.1;
              attempt = le;
              some_attempts = p7.1;
              few_attempts = p7.2;
            },
          )

  check_device-Fits :
      (action : Text) (o : Option Text) → Fits action o → check_device action (device_json o) ≡ ok o
  unfolding check_device check_no_device check_some_device
  check_device-Fits action none h = rw h refl
  check_device-Fits action (some d) (h, m) = rw (h, m) refl

  -- The tasks that `validate` passes are exactly these.
  pub validate-IsTask : (t : Task) → IsTask env t → validate env (raw_of t) ≡ ok t
  unfolding validate raw_of check_uuid check_key check_action check_created_at check_attempt
      check_max_attempts
  validate-IsTask t v = ground (
    arith,
    v.version,
    v.uuid,
    v.key,
    v.action,
    check_device-Fits t.action t.device v.device,
    v.created,
    v.attempt,
    v.some_attempts,
    v.few_attempts,
  )

  device_json-injective : (o p : Option Text) → device_json o ≡ device_json p → o ≡ p
  device_json-injective none none e = refl
  device_json-injective none (some d) e = cc e
  device_json-injective (some d) none e = cc e
  device_json-injective (some d) (some f) e = ground (arith, e)

  pub raw_of-injective : (t q : Task) → raw_of t ≡ raw_of q → t ≡ q
  unfolding raw_of
  raw_of-injective t q e = ground (arith, e, device_json-injective t.device q.device)

  pub to_json-ok :
      (t : Task) (raw : Text)
      → to_json env t ≡ ok raw
      → IsTask env t × (raw ≡ env.dumps (task_object (raw_of t)))
  unfolding to_json
  to_json-ok t raw e =
      let (q, p, e1) = >>=-ok (validate env (raw_of t)) _ raw e in
      let (r, v) = validate-ok (raw_of t) q p in (rw (raw_of-injective t q r) v, ground (arith, e1))

  -- reading a text never gives anything but a task
  pub from_json-IsTask : (raw : Text) (t : Task) → from_json env raw ≡ ok t → IsTask env t
  unfolding from_json of_json of_fields
  from_json-IsTask raw t e = go (env.loads raw) e
    where
      go : (o : Option Json) → of_json env o ≡ ok t → IsTask env t
      go (some (obj fs)) e = let (u, e1) = raise_if-ok _ _ _ t e in (validate-ok _ t e1).1
      go none e = cc e
      go (some null) e = cc e
      go (some _) e = cc e

  -- A task that was written is read back as the same task.
  pub from_json-to_json :
      (t : Task) (raw : Text) → to_json env t ≡ ok raw → from_json env raw ≡ ok t
  unfolding from_json of_json of_fields entries sorted_fields lookup mem text_eq raw_of
  from_json-to_json t raw e =
      let (v, same) = to_json-ok t raw e in
      rw (same, env.reads_back (raw_of t)) (validate-IsTask t v)
