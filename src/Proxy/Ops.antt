-- ===== src/Proxy/Ops.antt =====
-- The operations of `ProxyStore` in ops/proxy_store.py. A result stands beside the store that the
-- operation leaves, which is also the one that a raised exception leaves.
use android_farm.Prelude.{
  ℕ, ◌+◌, Text, text_eq, Bool, true, false, not, ◌&&◌, ◌||◌, List, [], ◌∷◌, any, Option, none, some,
  ltb, ◌==◌, if◌then◌else◌, Result, ok, err, runtime_error, ◌>>=◌, ◌>>◌, raise_if,
}
use android_farm.Prelude.Dict.{Dict, lookup, insert, remove, values}
use android_farm.Proxy.{
  Env, Proxy, Secret, Store, ProxyState, enabled, disabled, Redacted, redacted, proxy_id, text,
  kind, port, public_ipv4, device_id, username_hint, load_registry, require, read_secret, Writes,
  left, after_write, or_undo, NewProxy,
}

abbrev pub is_enabled : ProxyState → Bool
is_enabled enabled = true
is_enabled disabled = false

-- `item["assigned_device"] == device_id`
abbrev pub is_assigned : Text → Option Text → Bool
is_assigned device none = false
is_assigned device (some d) = text_eq d device

abbrev pub is_unassigned : Option Text → Bool
is_unassigned none = true
is_unassigned (some d) = false

abbrev pub is_present {ℓ} : {A : Type ℓ} → Option A → Bool
is_present none = false
is_present (some a) = true

-- lexicographic order of texts, for `sorted(…, key=lambda item: item["id"])`
unfoldable pub text_lt : Text → Text → Bool
text_lt s [] = false
text_lt [] (d ∷ t) = true
text_lt (c ∷ s) (d ∷ t) = ltb c d || c == d && text_lt s t

unfoldable pub insert_sorted : Proxy → List Proxy → List Proxy
insert_sorted r [] = r ∷ []
insert_sorted r (x ∷ xs) = if text_lt r.id x.id then r ∷ x ∷ xs else x ∷ insert_sorted r xs

unfoldable pub sort_by_id : List Proxy → List Proxy → List Proxy
sort_by_id sorted [] = sorted
sort_by_id sorted (r ∷ rs) = sort_by_id (insert_sorted r sorted) rs

unfoldable pub shown : Bool → List Proxy → List Redacted
shown include_disabled [] = []
shown include_disabled (r ∷ rs) =
    if include_disabled || is_enabled r.state
    then redacted r ∷ shown include_disabled rs
    else shown include_disabled rs

-- what the host provisioner gets: the secret without its version
pub record Credentials : Type 0 where
  pub type : Text
  pub server : Text
  pub server_port : ℕ
  pub username : Text
  pub password : Text

-- `self._save(registry)` of one changed record
unfoldable pub save_record : Writes → Store → Text → Proxy → Result Redacted × Store
unfolding or_undo
save_record w s key r =
    or_undo w.first (redacted r) s (record s { registry = insert key r s.registry }) (λ t. t)

-- the end of an operation that changes one record
unfoldable pub save_checked : Writes → Store → Text → Result Proxy → Result Redacted × Store
save_checked w s key (err e) = (err e, s)
save_checked w s key (ok r) = save_record w s key r

module _ (env : Env) where
  -- the tests of `add` against the two files
  unfoldable pub check_new : Store → Dict Proxy → Text → Text → Result (Unit {0})
  check_new s registry id digest = do
    raise_if (is_present (lookup id registry)) (runtime_error "proxy id already exists")
    raise_if (any (λ r. text_eq r.session_sha256 digest) (values registry))
        (runtime_error "endpoint and username session already exists")
    raise_if (is_present (lookup id s.secrets)) (runtime_error "proxy secret path already exists")

  unfoldable pub new_proxy : ℕ → NewProxy → Proxy
  new_proxy now a = record {
    id = a.id;
    label = a.label;
    type = a.type;
    server = a.server;
    server_port = a.server_port;
    expected_egress_ip = a.expected_egress_ip;
    username_hint = username_hint a.username;
    session_sha256 = env.session_digest a.type a.server a.server_port a.username;
    state = enabled;
    assigned_device = none;
    secret_version = 1;
    created_at = now;
    updated_at = now;
    last_health = none;
  }

  unfoldable pub new_secret : NewProxy → Secret
  new_secret a = record {
    type = a.type;
    server = a.server;
    server_port = a.server_port;
    username = a.username;
    password = a.password;
    secret_version = 1;
  }

  -- the arguments of `add`, validated
  unfoldable pub check_arguments : NewProxy → Result NewProxy
  check_arguments a = do
    id ← proxy_id a.id
    label ← text 80 a.label
    type ← kind a.type
    server ← public_ipv4 env a.server
    number ← port a.server_port
    username ← text 512 a.username
    password ← text 4096 a.password
    expected ← public_ipv4 env a.expected_egress_ip
    ok (record {
      id = id;
      label = label;
      type = type;
      server = server;
      server_port = number;
      username = username;
      password = password;
      expected_egress_ip = expected;
    })

  -- `add`, up to the writes
  unfoldable pub prepare_add : ℕ → NewProxy → Store → Result (Proxy × Secret)
  prepare_add now a s = do
    b ← check_arguments a
    registry ← load_registry env s
    check_new s registry b.id (env.session_digest b.type b.server b.server_port b.username)
    ok (new_proxy now b, new_secret b)

  -- the two writes of `add`: the secret is removed if the registry is not written
  unfoldable pub write_add : Writes → Store → Result (Proxy × Secret) → Result Redacted × Store
  unfolding after_write or_undo left
  write_add w s (err e) = (err e, s)
  write_add w s (ok (r, x)) =
      after_write w.first s (record s { secrets = insert r.id x s.secrets })
        (λ t.
          or_undo w.second (redacted r) t (record t { registry = insert r.id r t.registry })
            (λ u. record u { secrets = left w.third u.secrets (remove r.id u.secrets) }))

  unfoldable pub add : Writes → ℕ → NewProxy → Store → Result Redacted × Store
  unfolding write_add
  add w now a s = write_add w s (prepare_add now a s)

  unfoldable pub list : Bool → Store → Result (List Redacted)
  list include_disabled s = do
    registry ← load_registry env s
    ok (shown include_disabled (sort_by_id [] (values registry)))

  -- the record that an operation is about
  unfoldable pub find_record : Text → Store → Result Proxy
  find_record id s = do key ← proxy_id id; registry ← load_registry env s; require env key registry

  unfoldable pub show : Text → Store → Result Redacted
  show id s = do r ← find_record id s; ok (redacted r)

  unfoldable pub provisioning_secret : Text → Store → Result Credentials
  provisioning_secret id s = do
    r ← find_record id s
    raise_if (not (is_enabled r.state)) (runtime_error "disabled proxy cannot be provisioned")
    x ← read_secret env s id r
    ok (record {
      type = x.type;
      server = x.server;
      server_port = x.server_port;
      username = x.username;
      password = x.password;
    })

  unfoldable pub disable : Writes → ℕ → Text → Store → Result Redacted × Store
  disable w now id s =
      save_checked w s id
        (do r ← find_record id s; ok (record r { state = disabled; updated_at = now }))

  unfoldable pub enable : Writes → ℕ → Text → Store → Result Redacted × Store
  enable w now id s =
      save_checked w s id
        (do r ← find_record id s; ok (record r { state = enabled; updated_at = now }))

  unfoldable pub prepare_assign : ℕ → Text → Text → Store → Result Proxy
  prepare_assign now id device s = do
    key ← proxy_id id
    target ← device_id env device
    registry ← load_registry env s
    r ← require env key registry
    raise_if (not (is_enabled r.state)) (runtime_error "disabled proxy cannot be assigned")
    raise_if (not (is_unassigned r.assigned_device || is_assigned target r.assigned_device))
        (runtime_error "proxy is already assigned to another device")
    raise_if
        (any (λ x. not (text_eq x.id key) && is_assigned target x.assigned_device)
          (values registry))
        (runtime_error "device already has an assigned proxy")
    ok (record r { assigned_device = some target; updated_at = now })

  unfoldable pub assign : Writes → ℕ → Text → Text → Store → Result Redacted × Store
  assign w now id device s = save_checked w s id (prepare_assign now id device s)

  -- `device_id is not None`: the assignment must be that device's.
  unfoldable pub check_device : Option Text → Proxy → Result (Unit {0})
  check_device none r = ok tt
  check_device (some device) r =
      raise_if (not (is_assigned device r.assigned_device))
        (runtime_error "proxy assignment does not match device")

  unfoldable pub valid_device : Option Text → Result (Unit {0})
  valid_device none = ok tt
  valid_device (some device) = do _ ← device_id env device; ok tt

  unfoldable pub prepare_unassign : ℕ → Text → Option Text → Store → Result Proxy
  prepare_unassign now id device s = do
    key ← proxy_id id
    valid_device device
    registry ← load_registry env s
    r ← require env key registry
    check_device device r
    ok (record r { assigned_device = none; updated_at = now })

  unfoldable pub unassign : Writes → ℕ → Text → Option Text → Store → Result Redacted × Store
  unassign w now id device s = save_checked w s id (prepare_unassign now id device s)

  unfoldable pub prepare_delete : Text → Store → Result (Proxy × Secret)
  prepare_delete id s = do
    r ← find_record id s
    raise_if (not (is_unassigned r.assigned_device))
        (runtime_error "assigned proxy cannot be deleted")
    x ← read_secret env s id r
    ok (r, x)

  -- the handler of a secret that is not removed: both files are written again
  unfoldable pub restore : Writes → Text → Proxy → Secret → Store → Store
  unfolding after_write left
  restore w id r x s =
      (after_write {0} w.third s (record s { registry = insert id r s.registry })
        (λ t. (ok tt, record t { secrets = left w.fourth t.secrets (insert id x t.secrets) }))).1

  -- The registry is written without the record, then the secret is removed; if that fails, both
  -- are written again, and the record stands last.
  unfoldable pub write_delete :
      Writes → Store → Text → Result (Proxy × Secret) → Result (Unit {0}) × Store
  unfolding after_write or_undo restore
  write_delete w s id (err e) = (err e, s)
  write_delete w s id (ok (r, x)) =
      after_write w.first s (record s { registry = remove id s.registry })
        (λ t. or_undo w.second tt t (record t { secrets = remove id t.secrets }) (restore w id r x))

  unfoldable pub delete : Writes → Text → Store → Result (Unit {0}) × Store
  unfolding write_delete
  delete w id s = write_delete w s id (prepare_delete id s)

  unfoldable pub prepare_rotate : Text → Text → Store → Result (Proxy × Secret)
  prepare_rotate id password s = do
    key ← proxy_id id
    _ ← text 4096 password
    registry ← load_registry env s
    r ← require env key registry
    x ← read_secret env s key r
    ok (r, x)

  -- The secret is written first, and written back if the registry is not written.
  unfoldable pub write_rotate :
      Writes → ℕ → Store → Text → Text → Result (Proxy × Secret) → Result Redacted × Store
  unfolding after_write or_undo left
  write_rotate w now s id password (err e) = (err e, s)
  write_rotate w now s id password (ok (r, x)) =
      let y = record x { password = password; secret_version = r.secret_version + 1 } in
      let r' = record r { secret_version = r.secret_version + 1; updated_at = now } in
      after_write w.first s (record s { secrets = insert id y s.secrets })
        (λ t.
          or_undo w.second (redacted r') t (record t { registry = insert id r' t.registry })
            (λ u. record u { secrets = left w.third u.secrets (insert id x u.secrets) }))

  unfoldable pub rotate_password : Writes → ℕ → Text → Text → Store → Result Redacted × Store
  unfolding write_rotate
  rotate_password w now id password s =
      write_rotate w now s id password (prepare_rotate id password s)
