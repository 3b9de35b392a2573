-- ===== src/Operations/Request.antt =====
-- The helpers of services/api/operations.py that check the fields of a request, the actions, and the
-- host as `validate_job` reads it.
use android_farm.Prelude.{
  mem, ℕ, Text, codes, text_eq, Bool, true, false, not, ◌&&◌, ◌||◌, List, [], ◌∷◌, ◌++◌, all, any,
  length, Option, none, some, ltb, leb, ◌==◌, if◌then◌else◌, String, Result, ok, err, value_error,
  ◌>>=◌, ◌>>◌, raise_if, ◌≡◌, arith,
}
use android_farm.Prelude.Dict.{Dict, lookup}
use android_farm.Prelude.Decimal.{Unicode}
use android_farm.Json.{Json, bool, str, obj, entries, or_null}
use android_farm.Device.{canonical_device}
use android_farm.Proxy
use android_farm.Proxy.{matches_proxy_id}

pub data Lifecycle : Type 0 where
  up down restart check check_ip backup release : Lifecycle

pub data ProxyAction : Type 0 where
  test enable disable : ProxyAction

pub data Action : Type 0 where
  life : Lifecycle → Action
  proxy : ProxyAction → Action
  provision resume proxy_add credential_rotate proxy_credentials core_activate artifact_import
        artifact_remove remove :
      Action

unfoldable pub life_name : Lifecycle → Text
life_name up = codes "up"
life_name down = codes "down"
life_name restart = codes "restart"
life_name check = codes "check"
life_name check_ip = codes "check-ip"
life_name backup = codes "backup"
life_name release = codes "release"

unfoldable pub action_name : Action → Text
unfolding life_name
action_name (life l) = life_name l
action_name (proxy test) = codes "proxy-test"
action_name (proxy enable) = codes "proxy-enable"
action_name (proxy disable) = codes "proxy-disable"
action_name provision = codes "provision"
action_name resume = codes "resume"
action_name proxy_add = codes "proxy-add"
action_name credential_rotate = codes "credential-rotate"
action_name proxy_credentials = codes "proxy-credentials"
action_name core_activate = codes "core-activate"
action_name artifact_import = codes "artifact-import"
action_name artifact_remove = codes "artifact-remove"
action_name remove = codes "remove"

abbrev pub actions : List Action
actions =
    life up
    ∷ life down
    ∷ life restart
    ∷ life check
    ∷ life check_ip
    ∷ life backup
    ∷ life release
    ∷ proxy test
    ∷ proxy enable
    ∷ proxy disable
    ∷ provision
    ∷ resume
    ∷ proxy_add
    ∷ credential_rotate
    ∷ proxy_credentials
    ∷ core_activate
    ∷ artifact_import
    ∷ artifact_remove
    ∷ remove
    ∷ []

unfoldable pub find_action : Text → List Action → Result Action
unfolding action_name
find_action s [] = err (value_error "unsupported action")
find_action s (a ∷ rest_of) =
    let rest = find_action s rest_of in if text_eq (action_name a) s then ok a else rest

unfoldable pub read_action : Json → Result Action
unfolding find_action
read_action (str s) = find_action s actions
read_action _ = err (value_error "unsupported action")

abbrev pub is_known {ℓ} : {A : Type ℓ} → Option A → Bool
is_known none = false
is_known (some a) = true

-- `_fields`
unfoldable pub check_fields : List Text → List Text → Dict Json → Result (Unit {0})
check_fields required optional d = do
  raise_if (not (all (λ e. mem e.0 (required ++ optional)) d))
      (value_error "unsupported request fields")
  raise_if (not (all (λ k. is_known (lookup k d)) required))
      (value_error "required request fields are missing")

unfoldable pub as_object : String → Json → Result (Dict Json)
as_object message (obj fs) = ok (entries fs)
as_object message _ = err (value_error message)

-- `_text`
unfoldable pub is_text : ℕ → Text → Bool
is_text maximum s =
    not (leb (length s) 0) && leb (length s) maximum && not (any (λ c. ltb c 32 || c == 127) s)

unfoldable pub check_text : String → ℕ → Json → Result Text
check_text message maximum (str s) = if is_text maximum s then ok s else err (value_error message)
check_text message maximum _ = err (value_error message)

-- `_identifier`
unfoldable pub check_identifier : Json → Result Text
check_identifier (str s) =
    if matches_proxy_id s then ok s else err (value_error "invalid identifier")
check_identifier _ = err (value_error "invalid identifier")

-- `_device`
unfoldable pub check_device : Unicode → Option Json → Result Text
check_device u (some (str s)) = do
  canonical ← canonical_device u (str s)
  raise_if (not (text_eq canonical s)) (value_error "device must be a canonical numNN identifier")
  ok s
check_device u _ = err (value_error "device must be a canonical numNN identifier")

-- a flag that is missing, `True` or `False`
unfoldable pub is_flag : Option Json → Bool
is_flag none = true
is_flag (some (bool b)) = true
is_flag (some _) = false

unfoldable pub is_true : Json → Bool
is_true (bool b) = b
is_true _ = false

-- an application of the catalog, and whether its file is there
pub record App : Type 0 where
  pub available : Bool
  pub metadata : Dict Json

-- What the operations read of the host: the digits and the white space that Python knows, and the
-- private files by their readers' results. `staged` is whether an upload is there.
pub record Settings : Type 0 where
  pub inventory : Option Json
  pub proxies : Proxy.Store
  pub has_trust_file : Bool
  pub staged : Text → Result (Unit {0})

pub record Host : Type 0 where
  pub unicode : Unicode
  pub is_space : ℕ → Bool
  pub proxy_env : Proxy.Env
  pub config : Result Settings
  pub catalog : Result (Dict App)

-- what `validate_job` returns
pub record Job : Type 0 where
  pub action : Action
  pub device : Option Text
  pub params : Dict Json

unfoldable pub param : String → Dict Json → Json
param k d = or_null (lookup (codes k) d)

-- a check of a field that may be missing
unfoldable pub optional {ℓ} : {A : Type ℓ} → (Json → Result A) → Option Json → Result (Unit {0})
optional read none = ok tt
optional read (some v) = do _ ← read v; ok tt

abbrev pub is_digit : ℕ → Bool
is_digit c = leb b'0' c && leb c b'9'

abbrev pub is_letter : ℕ → Bool
is_letter c = leb b'a' c && leb c b'z' || leb b'A' c && leb c b'Z'

abbrev pub is_word : ℕ → Bool
is_word c = is_letter c || is_digit c || c == b'_'

-- what a passed check of the fields says
pub check_fields-ok :
    (required optional : List Text) (d : Dict Json) (x : Unit {0})
    → check_fields required optional d ≡ ok x
    → (all (λ e. mem e.0 (required ++ optional)) d ≡ true)
      × (all (λ k. is_known (lookup k d)) required ≡ true)
unfolding check_fields
check_fields-ok required optional d x h = ground (arith, h)

pub check_fields-all :
    (required optional : List Text) (d : Dict Json)
    → all (λ e. mem e.0 (required ++ optional)) d ≡ true
    → all (λ k. is_known (lookup k d)) required ≡ true
    → check_fields required optional d ≡ ok tt
unfolding check_fields
check_fields-all required optional d h k = ground (arith, h, k)
