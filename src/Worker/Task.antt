-- ===== src/Worker/Task.antt =====
-- `Task`, `WorkerConfig` and `command_for` of services/worker/worker.py. A task is read from JSON, so
-- its fields may be any JSON values until `validate` has passed them.
use android_farm.Prelude.{
  ℕ, Text, codes, text_eq, mem, ◌≡◌, Bool, false, not, ◌&&◌, ◌||◌, List, [], ◌∷◌, ◌++◌, map, all,
  length, Option, none, some, leb, ltb, ◌==◌, if◌then◌else◌, Result, ok, err, value_error,
  type_error, ◌>>=◌, ◌>>◌, raise_if,
}
use android_farm.Prelude.Dict.{Dict, lookup}
use android_farm.Prelude.Int.{ℤ, pos}
use android_farm.Json.{Json, null, int, str, arr, obj, Fields, end, field, entries, eq_int}

-- the fields in the order of the class
pub record RawTask : Type 0 where
  pub schema_version : Json
  pub task_id : Json
  pub idempotency_key : Json
  pub action : Json
  pub device : Json
  pub created_at : Json
  pub attempt : Json
  pub max_attempts : Json

-- a task whose fields `validate` has passed; the version may be any value that equals 1
pub record Task : Type 0 where
  pub schema_version : Json
  pub task_id : Text
  pub idempotency_key : Text
  pub action : Text
  pub device : Option Text
  pub created_at : ℕ
  pub attempt : ℕ
  pub max_attempts : ℕ

abbrev pub device_json : Option Text → Json
device_json none = null
device_json (some d) = str d

unfoldable pub raw_of : Task → RawTask
raw_of t = record {
  schema_version = t.schema_version;
  task_id = str t.task_id;
  idempotency_key = str t.idempotency_key;
  action = str t.action;
  device = device_json t.device;
  created_at = int (pos t.created_at);
  attempt = int (pos t.attempt);
  max_attempts = int (pos t.max_attempts);
}

-- `self.__dict__`
unfoldable pub task_object : RawTask → Json
task_object t = obj (
    field (codes "schema_version") t.schema_version (
      field (codes "task_id") t.task_id (
        field (codes "idempotency_key") t.idempotency_key (
          field (codes "action") t.action (
            field (codes "device") t.device (
              field (codes "created_at") t.created_at (
                field (codes "attempt") t.attempt
                  (field (codes "max_attempts") t.max_attempts end))))))))

-- the same with the keys sorted, as `_json` writes them
unfoldable pub sorted_fields : RawTask → Fields
sorted_fields t = field (codes "action") t.action (
    field (codes "attempt") t.attempt (
      field (codes "created_at") t.created_at (
        field (codes "device") t.device (
          field (codes "idempotency_key") t.idempotency_key (
            field (codes "max_attempts") t.max_attempts (
              field (codes "schema_version") t.schema_version
                (field (codes "task_id") t.task_id end)))))))

-- What the code takes from elsewhere: whether `uuid.UUID` accepts a text, the JSON encoder and
-- decoder, which reads back what was written, what `int` makes of the text before a colon in a claim,
-- and the paths of the interpreter and of the tree.
pub record Env : Type 0 where
  pub is_uuid : Text → Bool
  pub dumps : Json → Text
  pub loads : Text → Option Json
  pub reads_back : (t : RawTask) → loads (dumps (task_object t)) ≡ some (obj (sorted_fields t))
  pub claim_time : Text → Option ℤ
  pub executable : Text
  pub provisioner : Text

abbrev pub is_digit : ℕ → Bool
is_digit c = leb b'0' c && leb c b'9'

abbrev pub is_letter : ℕ → Bool
is_letter c = leb b'a' c && leb c b'z' || leb b'A' c && leb c b'Z'

-- `num[0-9]{2,6}\Z`
unfoldable pub matches_device : Text → Bool
matches_device (a ∷ b ∷ c ∷ s) =
    a == b'n' && b == b'u' && c == b'm' && all is_digit s && leb 2 (length s) && leb (length s) 6
matches_device _ = false

-- `[A-Za-z0-9][A-Za-z0-9_.:-]{0,127}\Z`
unfoldable pub matches_key : Text → Bool
matches_key [] = false
matches_key (c ∷ s) =
    (is_letter c || is_digit c)
    && all (λ x. is_letter x || is_digit x || x == b'_' || x == b'.' || x == b':' || x == b'-') s
    && leb (length s) 127

abbrev pub allowed_actions : List Text
allowed_actions =
    codes "up"
    ∷ codes "down"
    ∷ codes "restart"
    ∷ codes "check"
    ∷ codes "status"
    ∷ codes "health"
    ∷ []

-- a test of a set, which hashes the value: lists and dictionaries have no hash
unfoldable pub check_action : Json → Result Text
check_action (str s) =
    if mem s allowed_actions then ok s else err (value_error "unsupported action")
check_action (arr xs) = err (type_error "unhashable type")
check_action (obj fs) = err (type_error "unhashable type")
check_action _ = err (value_error "unsupported action")

-- `fullmatch` takes texts only
unfoldable pub check_key : Json → Result Text
check_key (str s) = if matches_key s then ok s else err (value_error "invalid idempotency_key")
check_key _ = err (type_error "expected string or bytes-like object")

unfoldable pub check_no_device : Json → Result (Option Text)
check_no_device null = ok none
check_no_device _ = err (value_error "status must not select a device")

unfoldable pub check_some_device : Json → Result (Option Text)
check_some_device (str s) =
    if matches_device s
    then ok (some s)
    else err (value_error "action requires a canonical numXX device")
check_some_device _ = err (value_error "action requires a canonical numXX device")

unfoldable pub check_device : Text → Json → Result (Option Text)
check_device action device =
    if text_eq action (codes "status") then check_no_device device else check_some_device device

unfoldable pub check_created_at : Json → Result ℕ
check_created_at (int (pos n)) =
    if leb n 0 then err (value_error "created_at must be a positive integer") else ok n
check_created_at _ = err (value_error "created_at must be a positive integer")

unfoldable pub check_attempt : Json → Result ℕ
check_attempt (int (pos n)) = ok n
check_attempt _ = err (value_error "attempt must be a non-negative integer")

unfoldable pub check_max_attempts : Json → Result ℕ
check_max_attempts (int (pos n)) =
    if leb 1 n && leb n 10 then ok n else err (value_error "max_attempts must be between 1 and 10")
check_max_attempts _ = err (value_error "max_attempts must be between 1 and 10")

-- `lease_seconds` and the other settings of `WorkerConfig`
pub record Config : Type 0 where
  pub provisioner_config : Text
  pub lease_seconds : ℕ
  pub command_timeout : ℕ
  pub block_seconds : ℕ
  pub backoff_base : ℕ
  pub backoff_max : ℕ
  pub result_ttl_seconds : ℕ

unfoldable pub is_absolute : Text → Bool
is_absolute [] = false
is_absolute (c ∷ s) = c == b'/'

unfoldable pub validate_config : Config → Result Config
validate_config c = do
  raise_if (not (is_absolute c.provisioner_config))
      (value_error "provisioner config path must be absolute")
  raise_if (not (leb 60 c.lease_seconds && leb c.lease_seconds 3600))
      (value_error "lease_seconds must be between 60 and 3600")
  raise_if (not (leb 1 c.command_timeout && ltb c.command_timeout c.lease_seconds))
      (value_error "command_timeout must be positive and shorter than the lease")
  raise_if (not (leb 3600 c.result_ttl_seconds && leb c.result_ttl_seconds 7776000))
      (value_error "result_ttl_seconds must be between one hour and 90 days")
  ok c

abbrev pub task_fields : List Text
task_fields =
    codes "schema_version"
    ∷ codes "task_id"
    ∷ codes "idempotency_key"
    ∷ codes "action"
    ∷ codes "device"
    ∷ codes "created_at"
    ∷ codes "attempt"
    ∷ codes "max_attempts"
    ∷ []

abbrev pub or_null : Option Json → Json
or_null none = null
or_null (some v) = v

abbrev pub device_words : Option Text → List Text
device_words none = []
device_words (some d) = d ∷ []

module _ (env : Env) where
  unfoldable pub check_uuid : Json → Result Text
  check_uuid (str s) = if env.is_uuid s then ok s else err (value_error "task_id must be a UUID")
  check_uuid null =
      err (type_error "one of the hex, bytes, bytes_le, fields, or int arguments must be given")
  check_uuid _ = err (value_error "task_id must be a UUID")

  -- `Task.validate`
  unfoldable pub validate : RawTask → Result Task
  validate t = do
    raise_if (not (eq_int t.schema_version (pos 1))) (value_error "unsupported task schema_version")
    id ← check_uuid t.task_id
    key ← check_key t.idempotency_key
    action ← check_action t.action
    device ← check_device action t.device
    created ← check_created_at t.created_at
    attempt ← check_attempt t.attempt
    limit ← check_max_attempts t.max_attempts
    raise_if (ltb limit attempt) (value_error "attempt exceeds max_attempts")
    ok (record {
      schema_version = t.schema_version;
      task_id = id;
      idempotency_key = key;
      action = action;
      device = device;
      created_at = created;
      attempt = attempt;
      max_attempts = limit;
    })

  unfoldable pub to_json : Task → Result Text
  to_json t = do _ ← validate (raw_of t); ok (env.dumps (task_object (raw_of t)))

  -- `set(value) != expected`, and `cls(**value).validate()`
  unfoldable pub of_fields : Dict Json → Result Task
  of_fields d = do
    raise_if
        (not (all (λ e. mem e.0 task_fields) d && all (λ k. mem k (map (λ e. e.0) d)) task_fields))
        (value_error "task fields do not match the versioned schema")
    validate (record {
      schema_version = or_null (lookup (codes "schema_version") d);
      task_id = or_null (lookup (codes "task_id") d);
      idempotency_key = or_null (lookup (codes "idempotency_key") d);
      action = or_null (lookup (codes "action") d);
      device = or_null (lookup (codes "device") d);
      created_at = or_null (lookup (codes "created_at") d);
      attempt = or_null (lookup (codes "attempt") d);
      max_attempts = or_null (lookup (codes "max_attempts") d);
    })

  unfoldable pub of_json : Option Json → Result Task
  of_json none = err (value_error "task is not valid JSON")
  of_json (some (obj fs)) = of_fields (entries fs)
  of_json (some _) = err (value_error "task fields do not match the versioned schema")

  unfoldable pub from_json : Text → Result Task
  from_json raw = of_json (env.loads raw)

  -- `Task.create`, with the new identifier and the time
  unfoldable pub create : Text → ℕ → Text → Json → Text → ℕ → Result Task
  create id now action device key limit = validate (record {
    schema_version = int (pos 1);
    task_id = str id;
    idempotency_key = str key;
    action = str action;
    device = device;
    created_at = int (pos now);
    attempt = int (pos 0);
    max_attempts = int (pos limit);
  })

  -- the words of the command, after the validation
  unfoldable pub words : Task → Config → List Text
  words t c =
      let base = env.executable ∷ env.provisioner ∷ codes "--config" ∷ c.provisioner_config ∷ [] in
      if text_eq t.action (codes "status")
      then base ++ codes "status" ∷ codes "--json" ∷ []
      else if text_eq t.action (codes "health")
      then env.executable
        ∷ codes "-m"
        ∷ codes "ops.healthcheck"
        ∷ codes "--config"
        ∷ c.provisioner_config
        ∷ codes "--device"
        ∷ device_words t.device
      else base ++ t.action ∷ codes "--id" ∷ device_words t.device

  unfoldable pub command_for : Task → Config → Result (List Text)
  command_for t c = do _ ← validate (raw_of t); _ ← validate_config c; ok (words t c)
