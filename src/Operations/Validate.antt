-- ===== src/Operations/Validate.antt =====
-- `Operations.validate_job` of services/api/operations.py.
use android_farm.Prelude.{
  Text, codes, text_eq, Bool, true, false, not, ◌&&◌, ◌||◌, List, [], ◌∷◌, all, length, Option,
  none, some, leb, ◌==◌, if◌then◌else◌, String, Result, ok, err, value_error, ◌>>=◌, ◌>>◌, raise_if,
}
use android_farm.Prelude.Dict
use android_farm.Prelude.Dict.{Dict, lookup, insert}
use android_farm.Json.{Json, null, str, eq_str}
use android_farm.Inventory
use android_farm.Proxy.Ops
use android_farm.Operations.Request.{
  remove, Lifecycle, release, Action, life, proxy, provision, resume, proxy_add, credential_rotate,
  proxy_credentials, core_activate, artifact_import, artifact_remove, read_action, check_fields,
  as_object, check_identifier, check_device, is_flag, is_true, App, Settings, Host, Job, param,
  is_known, is_digit,
}
use android_farm.Operations.Artifacts.{check_import, check_artifact}
use android_farm.Operations.Secrets.{
  show_proxy, check_rotation, check_proxy_password, check_new_proxy,
}

abbrev pub confirm_fields : List Text
confirm_fields = codes "review_completed" ∷ []

-- a device that the inventory knows
unfoldable pub check_known : String → Host → Settings → Text → Result (Unit {0})
check_known message h c device = do
  inv ← Inventory.load h.unicode c.inventory
  raise_if (not (is_known (Inventory.find_device inv device))) (value_error message)

unfoldable pub check_confirmed : Lifecycle → Dict Json → Result (Unit {0})
check_confirmed release params = do
  check_fields confirm_fields [] params
  raise_if (not (is_true (param "review_completed" params)))
      (value_error "explicit confirmation of the completed operator review is required")
check_confirmed _ params = check_fields [] [] params

-- the checks of a removal
unfoldable pub check_removal : Text → Dict Json → Result (Unit {0})
check_removal device params = do
  raise_if (not (eq_str (param "confirm" params) device))
      (value_error "confirm must repeat the device identifier exactly")
  raise_if (not (is_flag (lookup (codes "purge_data") params)))
      (value_error "purge_data must be a boolean")

unfoldable pub check_no_device : Option Json → Result (Unit {0})
check_no_device none = ok tt
check_no_device (some v) = err (value_error "this action does not accept a device field")

-- the fields of `provision` and `resume` up to the egress
unfoldable pub is_phone : Text → Bool
is_phone (p ∷ c ∷ s) =
    p == b'+' && leb b'1' c && leb c b'9' && all is_digit s && leb 9 (length s) && leb (length s) 14
is_phone _ = false

unfoldable pub is_phone_value : Json → Bool
is_phone_value (str s) = is_phone s
is_phone_value _ = false

unfoldable pub is_available : Option App → Bool
is_available none = false
is_available (some app) = app.available

-- whether the egress is direct; a missing one is not
unfoldable pub read_egress : Option Json → Result Bool
read_egress none = ok false
read_egress (some (str s)) =
    if text_eq s (codes "proxy")
    then ok false
    else if text_eq s (codes "direct")
    then ok true
    else err (value_error "egress must be proxy or direct")
read_egress (some _) = err (value_error "egress must be proxy or direct")

unfoldable pub is_absent : Option Json → Bool
is_absent none = true
is_absent (some null) = true
is_absent (some _) = false

abbrev pub egress_json : Bool → Json
egress_json direct = str (if direct then codes "direct" else codes "proxy")

-- the last checks, and the parameters that remain
unfoldable pub check_egress : Host → Settings → Dict Json → Bool → Result (Dict Json)
check_egress h c params true = do
  raise_if (not (is_absent (lookup (codes "proxy_id") params)))
      (value_error "direct egress does not accept a proxy_id")
  ok (insert (codes "egress") (egress_json true) (Dict.remove (codes "proxy_id") params))
check_egress h c params false = do
  raise_if (not (is_known (lookup (codes "proxy_id") params)))
      (value_error "proxy_id is required unless egress is direct")
  metadata ← show_proxy h c (param "proxy_id" params)
  raise_if (not (Ops.is_enabled metadata.state))
      (value_error "proxy must be enabled before provisioning")
  ok (insert (codes "egress") (egress_json false) params)

unfoldable pub check_provision : Host → Settings → Dict Json → Result (Dict Json)
check_provision h c params = do
  check_fields (codes "phone" ∷ codes "owner_authorized" ∷ codes "artifact_id" ∷ [])
      (codes "proxy_id" ∷ codes "egress" ∷ []) params
  raise_if
      (not (is_phone_value (param "phone" params))
        || not (is_true (param "owner_authorized" params)))
      (value_error "valid E.164 phone and explicit owner authorization are required")
  direct ← read_egress (lookup (codes "egress") params)
  catalog ← h.catalog
  id ← check_identifier (param "artifact_id" params)
  raise_if (not (is_available (lookup id catalog)))
      (value_error "approved APK is unavailable; configure the private application catalog")
  raise_if (not c.has_trust_file) (value_error "APK signer trust policy is not configured")
  check_egress h c params direct

unfoldable pub checked : Action → Option Text → Dict Json → Job
checked action device params = record { action = action; device = device; params = params }

-- the actions on a device that do not prepare it
unfoldable pub check_life : Host → Settings → Lifecycle → Option Json → Dict Json → Result Job
check_life h c l device params = do
  check_confirmed l params
  d ← check_device h.unicode device
  check_known "device is not allocated in the managed inventory" h c d
  ok (checked (life l) (some d) params)

unfoldable pub check_remove : Host → Settings → Option Json → Dict Json → Result Job
check_remove h c device params = do
  check_fields (codes "confirm" ∷ []) (codes "purge_data" ∷ []) params
  d ← check_device h.unicode device
  check_removal d params
  check_known "device is not allocated in the managed inventory" h c d
  ok (checked remove (some d) params)

unfoldable pub check_resume : Host → Settings → Option Json → Dict Json → Result Job
check_resume h c device params = do
  d ← check_device h.unicode device
  check_known "selected resume device is not allocated in the managed inventory" h c d
  prepared ← check_provision h c params
  ok (checked resume (some d) prepared)

unfoldable pub check_action : Host → Settings → Bool → Action → Option Json → Dict Json → Result Job
check_action h c trusted (life l) device params = check_life h c l device params
check_action h c trusted remove device params = check_remove h c device params
check_action h c trusted resume device params = check_resume h c device params
check_action h c trusted provision device params = do
  check_no_device device
  prepared ← check_provision h c params
  ok (checked provision none prepared)
check_action h c trusted core_activate device params = do
  check_no_device device
  check_fields [] [] params
  ok (checked core_activate none params)
check_action h c trusted artifact_import device params = do
  check_no_device device
  check_import c params
  ok (checked artifact_import none params)
check_action h c trusted artifact_remove device params = do
  check_no_device device
  check_artifact h params
  ok (checked artifact_remove none params)
check_action h c trusted credential_rotate device params = do
  check_no_device device
  check_rotation h trusted params
  ok (checked credential_rotate none params)
check_action h c trusted proxy_credentials device params = do
  check_no_device device
  check_proxy_password h c trusted params
  ok (checked proxy_credentials none params)
check_action h c trusted proxy_add device params = do
  check_no_device device
  check_new_proxy h params
  ok (checked proxy_add none params)
check_action h c trusted (proxy a) device params = do
  check_no_device device
  check_fields (codes "id" ∷ []) [] params
  _ ← show_proxy h c (param "id" params)
  ok (checked (proxy a) none params)

unfoldable pub params_of : Option Json → Result (Dict Json)
params_of none = ok []
params_of (some v) = as_object "params must be an object" v

unfoldable pub payload_fields : Bool → List Text
payload_fields trusted =
    codes "device" ∷ codes "params" ∷ (if trusted then codes "auth_revision" ∷ [] else [])

unfoldable pub validate_job : Host → Bool → Json → Result Job
validate_job h trusted payload = do
  d ← as_object "unsupported request fields" payload
  check_fields (codes "action" ∷ []) (payload_fields trusted) d
  action ← read_action (param "action" d)
  params ← params_of (lookup (codes "params") d)
  c ← h.config
  check_action h c trusted action (lookup (codes "device") d) params

-- a job as the queue keeps it and `execute` gets it
unfoldable pub device_field : Option Text → Dict Json
device_field none = []
device_field (some d) = (codes "device", str d) ∷ []
