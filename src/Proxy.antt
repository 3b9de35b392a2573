-- ===== src/Proxy.antt =====
-- ops/proxy_store.py: the registry of proxies and the secret file of each. The two are one state;
-- `Writes` says how each of an operation's writes ends.
pub mod Ops
pub mod Check
pub mod Consistent
pub mod Keep
pub mod Pairs
pub mod History
pub mod Evidence
use android_farm.Prelude.{
  mem, ℕ, zero, suc, ◌+◌, Text, codes, text_eq, Bool, true, false, not, ◌&&◌, ◌||◌, List, [], ◌∷◌,
  ◌++◌, map, any, all, Option, none, some, leb, ltb, ◌==◌, if◌then◌else◌, length, Exception, Result,
  ok, err, value_error, runtime_error, key_error, os_error, ◌>>=◌, ◌>>◌, raise_if, replace_error,
}
use android_farm.Prelude.Dict.{Dict, lookup, insert, remove, values}
use android_farm.Prelude.Decimal.{Unicode}
use android_farm.Json.{str}
use android_farm.Device.{canonical_device}

-- What the code takes from elsewhere: the digits that `\d` knows, `IPv4Address(value)` as a text if
-- that is a global address, and the SHA-256 of the identity of a session.
pub record Env : Type 0 where
  pub unicode : Unicode
  pub public_ipv4 : Text → Option Text
  pub session_digest : Text → Text → ℕ → Text → Text

pub data ProxyState : Type 0 where
  enabled disabled : ProxyState

pub record Health : Type 0 where
  pub healthy : Bool
  pub checked_at : ℕ
  pub observed_egress_ip : Option Text

pub record Proxy : Type 0 where
  pub id : Text
  pub label : Text
  pub type : Text
  pub server : Text
  pub server_port : ℕ
  pub expected_egress_ip : Text
  pub username_hint : Text
  pub session_sha256 : Text
  pub state : ProxyState
  pub assigned_device : Option Text
  pub secret_version : ℕ
  pub created_at : ℕ
  pub updated_at : ℕ
  pub last_health : Option Health

pub record Secret : Type 0 where
  pub type : Text
  pub server : Text
  pub server_port : ℕ
  pub username : Text
  pub password : Text
  pub secret_version : ℕ

-- the registry file and the secret files, which are named by the identifier
pub record Store : Type 0 where
  pub registry : Dict Proxy
  pub secrets : Dict Secret

-- `_redacted`: the record without the digest
pub record Redacted : Type 0 where
  pub id : Text
  pub label : Text
  pub type : Text
  pub server : Text
  pub server_port : ℕ
  pub expected_egress_ip : Text
  pub credential : Text
  pub state : ProxyState
  pub assigned_device : Option Text
  pub secret_version : ℕ
  pub created_at : ℕ
  pub updated_at : ℕ
  pub last_health : Option Health

unfoldable pub redacted : Proxy → Redacted
redacted r = record {
  id = r.id;
  label = r.label;
  type = r.type;
  server = r.server;
  server_port = r.server_port;
  expected_egress_ip = r.expected_egress_ip;
  credential = r.username_hint;
  state = r.state;
  assigned_device = r.assigned_device;
  secret_version = r.secret_version;
  created_at = r.created_at;
  updated_at = r.updated_at;
  last_health = r.last_health;
}

abbrev is_lower : ℕ → Bool
is_lower c = leb b'a' c && leb c b'z'

abbrev is_ascii_digit : ℕ → Bool
is_ascii_digit c = leb b'0' c && leb c b'9'

-- `[a-z][a-z0-9-]{2,62}`, of the whole text
unfoldable pub matches_proxy_id : Text → Bool
matches_proxy_id [] = false
matches_proxy_id (c ∷ s) =
    is_lower c
    && all (λ x. is_lower x || is_ascii_digit x || x == b'-') s
    && leb 2 (length s)
    && leb (length s) 62

unfoldable pub proxy_id : Text → Result Text
proxy_id s =
    if matches_proxy_id s
    then ok s
    else err (
        value_error
          "proxy id must be 3-63 lowercase letters, digits or hyphens, starting with a letter")

unfoldable pub text : ℕ → Text → Result Text
text maximum [] = err (value_error "must be a non-empty string of at most ")
text maximum (c ∷ s) = do
  raise_if (ltb maximum (length (c ∷ s))) (value_error "must be a non-empty string of at most ")
  raise_if (any (λ x. ltb x 32 || x == 127) (c ∷ s))
      (value_error "may not contain control characters")
  ok (c ∷ s)

unfoldable pub kind : Text → Result Text
kind s =
    if text_eq s (codes "socks5")
    then ok (codes "socks")
    else if text_eq s (codes "http") || text_eq s (codes "socks")
    then ok s
    else err (value_error "proxy type must be http, socks or socks5")

unfoldable pub port : ℕ → Result ℕ
port n =
    if leb 1 n && leb n 65535
    then ok n
    else err (value_error "server_port must be an integer between 1 and 65535")

-- the last character of `c ∷ s`
unfoldable pub last_of : ℕ → Text → ℕ
last_of c [] = c
last_of c (d ∷ s) = last_of d s

unfoldable pub username_hint : Text → Text
username_hint [] = []
username_hint (c ∷ []) = codes "*"
username_hint (c ∷ d ∷ []) = codes "**"
username_hint (c ∷ d ∷ e ∷ s) = c ∷ (codes "***" ++ last_of e s ∷ [])

abbrev is_hex : ℕ → Bool
is_hex c = is_ascii_digit c || leb b'a' c && leb c b'f'

-- `[0-9a-f]{64}`
unfoldable pub is_digest : Text → Bool
is_digest s = length s == 64 && all is_hex s

module _ (env : Env) where
  unfoldable pub public_ipv4 : Text → Result Text
  public_ipv4 s = elim (env.public_ipv4 s) [
    | none ↦ err (value_error "must be a pinned public IPv4 address")
    | some t ↦ ok t
  ]

  unfoldable pub device_id : Text → Result Text
  device_id s = do
    canonical ←
        replace_error (value_error "device id must be a canonical numNN identifier")
          (canonical_device env.unicode (str s))
    raise_if (not (text_eq canonical s))
        (value_error "device id must be a canonical numNN identifier")
    ok s

  -- the device of a record, which no record before it has
  unfoldable pub check_assigned : Option Text → List Text → Result (List Text)
  check_assigned none assignments = ok assignments
  check_assigned (some device) assignments = do
    _ ← device_id device
    raise_if (mem device assignments) (value_error "device assigned to more than one proxy")
    ok (device ∷ assignments)

  -- one round of the loop of `_load`, with the digests and devices of the records before
  unfoldable pub check_proxy : Text → Proxy → List Text → List Text → Result (List Text × List Text)
  check_proxy key r sessions assignments = do
    _ ← proxy_id key
    raise_if (not (text_eq r.id key)) (value_error "record id differs from its key")
    _ ← kind r.type
    _ ← public_ipv4 r.server
    _ ← public_ipv4 r.expected_egress_ip
    _ ← port r.server_port
    _ ← text 80 r.label
    _ ← text 16 r.username_hint
    raise_if (not (is_digest r.session_sha256)) (value_error "invalid session digest")
    raise_if (mem r.session_sha256 sessions) (value_error "duplicate endpoint/username session")
    raise_if (ltb r.secret_version 1) (value_error "invalid secret version")
    assignments' ← check_assigned r.assigned_device assignments
    ok (r.session_sha256 ∷ sessions, assignments')

  unfoldable pub check_proxies : Dict Proxy → List Text → List Text → Result (Unit {0})
  check_proxies [] sessions assignments = ok tt
  check_proxies ((key, r) ∷ rest) sessions assignments = do
    (sessions', assignments') ←
        replace_error (runtime_error "invalid proxy registry record ")
          (check_proxy key r sessions assignments)
    check_proxies rest sessions' assignments'

  -- `_load`: the registry, checked
  unfoldable pub load_registry : Store → Result (Dict Proxy)
  load_registry s = do check_proxies s.registry [] []; ok s.registry

  unfoldable pub require : Text → Dict Proxy → Result Proxy
  require key registry = elim (lookup key registry) [
    | none ↦ err (key_error "proxy does not exist")
    | some r ↦ ok r
  ]

  unfoldable pub find_secret : Store → Text → Result Secret
  find_secret s key = elim (lookup key s.secrets) [
    | none ↦ err (os_error "proxy secret")
    | some x ↦ ok x
  ]

  -- the tests of `_read_secret`: the fields of the file, and that they are those of the record
  unfoldable pub check_secret : Proxy → Secret → Result (Unit {0})
  check_secret r secret = do
    type ← replace_error (runtime_error "proxy secret is invalid") (kind secret.type)
    server ← replace_error (runtime_error "proxy secret is invalid") (public_ipv4 secret.server)
    number ← replace_error (runtime_error "proxy secret is invalid") (port secret.server_port)
    username ← replace_error (runtime_error "proxy secret is invalid") (text 512 secret.username)
    _ ← replace_error (runtime_error "proxy secret is invalid") (text 4096 secret.password)
    raise_if
        (not (
          text_eq type r.type
          && text_eq server r.server
          && number == r.server_port
          && text_eq (env.session_digest type server number username) r.session_sha256
          && secret.secret_version == r.secret_version))
        (runtime_error "proxy secret does not match registry metadata")

  unfoldable pub read_secret : Store → Text → Proxy → Result Secret
  read_secret s key r = do secret ← find_secret s key; check_secret r secret; ok secret

-- How a change of a file ends: it is made, or it raises before the file is replaced or after that.
pub data Write : Type 0 where
  written lost late : Write

-- the changes in the order in which an operation makes them, those that put a file back included
pub record Writes : Type 0 where
  pub first : Write
  pub second : Write
  pub third : Write
  pub fourth : Write

abbrev pub disk_error : Exception
disk_error = os_error "write failed"

-- what a file holds after the change
unfoldable pub left {ℓ} : {A : Type ℓ} → Write → A → A → A
left written old new = new
left lost old new = old
left late old new = new

-- a change, and what follows it unless it raises
unfoldable pub after_write {ℓ} :
    {A : Type ℓ} → Write → Store → Store → (Store → Result A × Store) → Result A × Store
after_write written old new rest = rest new
after_write lost old new rest = (err disk_error, old)
after_write late old new rest = (err disk_error, new)

-- a change that ends the operation, with what its handler does when it raises
unfoldable pub or_undo {ℓ} :
    {A : Type ℓ} → Write → A → Store → Store → (Store → Store) → Result A × Store
or_undo written a old new undo = (ok a, new)
or_undo lost a old new undo = (err disk_error, undo old)
or_undo late a old new undo = (err disk_error, undo new)

-- the arguments of `add`
pub record NewProxy : Type 0 where
  pub id : Text
  pub label : Text
  pub type : Text
  pub server : Text
  pub server_port : ℕ
  pub username : Text
  pub password : Text
  pub expected_egress_ip : Text
