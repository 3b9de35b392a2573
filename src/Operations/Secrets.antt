-- ===== src/Operations/Secrets.antt =====
-- The checks of passwords and proxies in services/api/operations.py. Its Persian messages stand in
-- English.
use android_farm.Prelude.{
  ℕ, ◌+◌, Text, codes, Bool, true, false, not, ◌&&◌, ◌||◌, List, [], ◌∷◌, ◌++◌, all, length, ltb,
  leb, ◌==◌, ◌^◌, if◌then◌else◌, Result, ok, err, value_error, ◌>>=◌, ◌>>◌, raise_if,
}
use android_farm.Prelude.Dict.{Dict, lookup}
use android_farm.Prelude.Int.{ℤ, pos, negsuc}
use android_farm.Json.{Json, int, str, eq_str}
use android_farm.Device.{ipv4_text}
use android_farm.Proxy
use android_farm.Proxy.{ProxyState, enabled, disabled}
use android_farm.Proxy.Ops
use android_farm.Operations.Request.{
  check_fields, check_text, check_identifier, Settings, Host, param, optional, is_digit, is_letter,
}

-- `current_password` is required of a browser, and no longer there when the job runs
unfoldable pub check_secret_fields : Bool → List Text → Dict Json → Result (Unit {0})
check_secret_fields true names params = check_fields names (codes "current_password" ∷ []) params
check_secret_fields false names params =
    check_fields (names ++ codes "current_password" ∷ []) [] params

unfoldable pub is_username : Text → Bool
is_username [] = false
is_username (c ∷ s) =
    (is_letter c || is_digit c || c == b'.' || c == b'_')
    && all (λ x. is_letter x || is_digit x || x == b'.' || x == b'_' || x == b'-') s
    && leb (length s) 63

unfoldable pub check_username : Json → Result Text
check_username (str s) =
    if is_username s
    then ok s
    else err (value_error "the user name must have 1 to 64 permitted characters")
check_username _ = err (value_error "the user name must have 1 to 64 permitted characters")

-- the length in UTF-8; a surrogate has none
unfoldable pub utf8_length : Text → Result ℕ
utf8_length [] = ok 0
utf8_length (c ∷ s) = do
  raise_if (leb 55296 c && leb c 57343) (value_error "surrogates not allowed")
  n ← utf8_length s
  ok (n + (if ltb c 128 then 1 else if ltb c 2048 then 2 else if ltb c 65536 then 3 else 4))

-- `value == value.strip()`
unfoldable pub is_trimmed : (ℕ → Bool) → Text → Bool
is_trimmed space [] = true
is_trimmed space (c ∷ s) = not (space c) && not (space (Proxy.last_of c s))

unfoldable pub check_target : Json → Result (Unit {0})
check_target v =
    raise_if
      (not (eq_str v (codes "web") || eq_str v (codes "grafana") || eq_str v (codes "platform")))
      (value_error "the target of the password change is not valid")

unfoldable pub check_rotation : Host → Bool → Dict Json → Result (Unit {0})
check_rotation h trusted params = do
  check_secret_fields trusted (codes "target" ∷ codes "username" ∷ codes "password" ∷ []) params
  check_target (param "target" params)
  _ ← check_username (param "username" params)
  password ← check_text "invalid password" 72 (param "password" params)
  n ← utf8_length password
  raise_if (not (leb 12 n && leb n 72))
      (value_error "the new password must have 12 to 72 bytes in UTF-8")
  raise_if (not (is_trimmed h.is_space password))
      (value_error "the password must not begin or end with a space")
  optional (check_text "invalid current password" 4096) (lookup (codes "current_password") params)

unfoldable pub show_proxy : Host → Settings → Json → Result Proxy.Redacted
show_proxy h c v = do id ← check_identifier v; Ops.show h.proxy_env id c.proxies

unfoldable pub check_proxy_password : Host → Settings → Bool → Dict Json → Result (Unit {0})
check_proxy_password h c trusted params = do
  check_secret_fields trusted (codes "id" ∷ codes "password" ∷ []) params
  _ ← show_proxy h c (param "id" params)
  password ← check_text "invalid proxy password" 4096 (param "password" params)
  raise_if (not (is_trimmed h.is_space password))
      (value_error "the password must not begin or end with a space")
  optional (check_text "invalid current password" 4096) (lookup (codes "current_password") params)

-- what proxy_store.py makes of a JSON value
-- an integer is an address, too; a Boolean is one that is not global
unfoldable pub check_number : Proxy.Env → ℤ → Result Text
check_number env (pos n) =
    if ltb n (2 ^ 32)
    then Proxy.public_ipv4 env (ipv4_text n)
    else err (value_error "must be a pinned public IPv4 address")
check_number env (negsuc n) = err (value_error "must be a pinned public IPv4 address")

unfoldable pub check_address : Proxy.Env → Json → Result Text
check_address env (str s) = Proxy.public_ipv4 env s
check_address env (int n) = check_number env n
check_address env _ = err (value_error "must be a pinned public IPv4 address")

unfoldable pub check_port : Json → Result ℕ
check_port (int (pos n)) = Proxy.port n
check_port _ = err (value_error "server_port must be an integer between 1 and 65535")

unfoldable pub check_kind : Json → Result Text
check_kind (str s) = Proxy.kind s
check_kind _ = err (value_error "invalid proxy type")

unfoldable pub check_new_proxy : Host → Dict Json → Result (Unit {0})
check_new_proxy h params = do
  check_fields
      (codes "id"
        ∷ codes "label"
        ∷ codes "type"
        ∷ codes "server"
        ∷ codes "server_port"
        ∷ codes "username"
        ∷ codes "password"
        ∷ codes "expected_egress_ip"
        ∷ [])
      [] params
  _ ← check_identifier (param "id" params)
  _ ← check_text "invalid proxy label" 80 (param "label" params)
  _ ← check_kind (param "type" params)
  _ ← check_address h.proxy_env (param "server" params)
  _ ← check_port (param "server_port" params)
  _ ← check_address h.proxy_env (param "expected_egress_ip" params)
  _ ← check_text "invalid username" 512 (param "username" params)
  _ ← check_text "invalid password" 4096 (param "password" params)
  ok tt
