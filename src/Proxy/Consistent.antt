-- ===== src/Proxy/Consistent.antt =====
-- When the registry and the secrets of ops/proxy_store.py agree, and what a change of one record
-- does to that.
use android_farm.Prelude.{
  Text, text_eq, text_eq_iff, ◌≡◌, ◌≢◌, sym, ap, ◌∙◌, false, Option, none, some, arith,
  if◌then◌else◌, Bool-cases, inl, inr, ◌⊎◌,
}
use android_farm.Prelude.Dict.{Dict, lookup}
use android_farm.Proxy.{Env, Proxy, Secret, Store}

-- the record and the secret of one proxy
pub record Agrees (env : Env) (r : Proxy) (x : Secret) : Type 0 where
  pub type : x.type ≡ r.type
  pub server : x.server ≡ r.server
  pub server_port : x.server_port ≡ r.server_port
  pub version : x.secret_version ≡ r.secret_version
  pub digest : env.session_digest x.type x.server x.server_port x.username ≡ r.session_sha256

-- Records and secrets come in pairs that agree, and no session or device belongs to two proxies.
pub record IsConsistent (env : Env) (s : Store) : Type 0 where
  pub named : (k : Text) (r : Proxy) → lookup k s.registry ≡ some r → r.id ≡ k
  pub secret :
      (k : Text) (r : Proxy)
      → lookup k s.registry ≡ some r
      → (x : Secret) × (lookup k s.secrets ≡ some x) × Agrees env r x
  pub no_orphan : (k : Text) → lookup k s.registry ≡ none → lookup k s.secrets ≡ none
  pub sessions :
      (j k : Text) (r q : Proxy)
      → lookup j s.registry ≡ some r
      → lookup k s.registry ≡ some q
      → r.session_sha256 ≡ q.session_sha256
      → j ≡ k
  pub exclusive :
      (j k : Text) (r q : Proxy) (d : Text)
      → lookup j s.registry ≡ some r
      → lookup k s.registry ≡ some q
      → r.assigned_device ≡ some d
      → q.assigned_device ≡ some d
      → j ≡ k

-- `q` is `r` with other values in the columns that no other file or record depends on
pub record Kept (r q : Proxy) : Type 0 where
  pub id : q.id ≡ r.id
  pub type : q.type ≡ r.type
  pub server : q.server ≡ r.server
  pub server_port : q.server_port ≡ r.server_port
  pub session : q.session_sha256 ≡ r.session_sha256

-- no other proxy has the device that the record names
abbrev pub Exclusive : Store → Text → Proxy → Type 0
Exclusive s k q =
    (d : Text)
    → q.assigned_device ≡ some d
    → (j : Text) (y : Proxy) → lookup j s.registry ≡ some y
    → y.assigned_device ≡ some d
    → j ≡ k

-- the entries of `d`, with those of `k` replaced
abbrev pub Updated {ℓ} : {V : Type ℓ} → Text → Option V → Dict V → Dict V → Type ℓ
Updated k v d e = (j : Text) → lookup j e ≡ (if text_eq k j then v else lookup j d)

update-cases {ℓ} :
    {V : Type ℓ} (k j : Text) (v w : V) (d e : Dict V)
    → Updated k (some v) d e
    → lookup j e ≡ some w
    → ((j ≡ k) × (w ≡ v)) ⊎ (lookup j d ≡ some w)
update-cases k j v w d e u h = ground (arith, u j, text_eq_iff k j)

module _ (env : Env) (s t : Store) (c : IsConsistent env s) (k : Text) where
  -- One record and its secret are replaced.
  pub replace-IsConsistent :
      (r q : Proxy) (x : Secret)
      → lookup k s.registry ≡ some r
      → Kept r q
      → Exclusive s k q
      → Agrees env q x
      → Updated k (some q) s.registry t.registry
      → Updated k (some x) s.secrets t.secrets
      → IsConsistent env t
  replace-IsConsistent r q x e same only agrees u v = record {
    named = λ j y h. elim (update-cases k j q y s.registry t.registry u h) [
      | inl (p, n) ↦ rw (n, p) (same.id ∙ c.named k r e)
      | inr old ↦ c.named j y old
    ];
    secret = λ j y h. elim (Bool-cases (text_eq k j)) [
      | inl w ↦
          let n : y ≡ q = ground (arith, h, u j, w) in (x, ground (arith, v j, w), rw n agrees)
      | inr w ↦
          let old : lookup j s.registry ≡ some y = ground (arith, h, u j, w) in
          let (z, f, a) = c.secret j y old in (z, ground (arith, v j, w, f), a)
    ];
    no_orphan = λ j h. ground (arith, u j, v j, c.no_orphan j);
    sessions = λ i j y z g h f. elim (update-cases k i q y s.registry t.registry u g) [
      | inl (p, n) ↦ elim (update-cases k j q z s.registry t.registry u h) [
        | inl (p', n') ↦ p ∙ sym p'
        | inr old ↦
            p
            ∙ c.sessions k j r z e old
                (sym same.session ∙ ap (λ (v : Proxy). v.session_sha256) (sym n) ∙ f)
      ]
      | inr here ↦ elim (update-cases k j q z s.registry t.registry u h) [
        | inl (p', n') ↦
            c.sessions i k y r here e (f ∙ ap (λ (v : Proxy). v.session_sha256) n' ∙ same.session)
            ∙ sym p'
        | inr old ↦ c.sessions i j y z here old f
      ]
    ];
    exclusive = λ i j y z d g h a b. elim (update-cases k i q y s.registry t.registry u g) [
      | inl (p, n) ↦ elim (update-cases k j q z s.registry t.registry u h) [
        | inl (p', n') ↦ p ∙ sym p'
        | inr old ↦ p ∙ sym (only d (ap (λ (v : Proxy). v.assigned_device) (sym n) ∙ a) j z old b)
      ]
      | inr here ↦ elim (update-cases k j q z s.registry t.registry u h) [
        | inl (p', n') ↦
            only d (ap (λ (v : Proxy). v.assigned_device) (sym n') ∙ b) i y here a ∙ sym p'
        | inr old ↦ c.exclusive i j y z d here old a b
      ]
    ];
  }

  -- A record with its secret is added.
  pub extend-IsConsistent :
      (q : Proxy) (x : Secret)
      → q.id ≡ k
      → q.assigned_device ≡ none
      → ((j : Text) (y : Proxy)
          → lookup j s.registry ≡ some y
          → y.session_sha256 ≢ q.session_sha256)
      → Agrees env q x
      → Updated k (some q) s.registry t.registry
      → Updated k (some x) s.secrets t.secrets
      → IsConsistent env t
  extend-IsConsistent q x name free fresh agrees u v = record {
    named = λ j y h. elim (update-cases k j q y s.registry t.registry u h) [
      | inl (p, n) ↦ rw (n, p) name
      | inr old ↦ c.named j y old
    ];
    secret = λ j y h. elim (Bool-cases (text_eq k j)) [
      | inl w ↦
          let n : y ≡ q = ground (arith, h, u j, w) in (x, ground (arith, v j, w), rw n agrees)
      | inr w ↦
          let old : lookup j s.registry ≡ some y = ground (arith, h, u j, w) in
          let (z, f, a) = c.secret j y old in (z, ground (arith, v j, w, f), a)
    ];
    no_orphan = λ j h. ground (arith, u j, v j, c.no_orphan j);
    sessions = λ i j y z g h f. ground (
      arith,
      update-cases k i q y s.registry t.registry u g,
      update-cases k j q z s.registry t.registry u h,
      fresh i y,
      fresh j z,
      c.sessions i j y z,
    );
    exclusive = λ i j y z d g h a b. ground (
      arith,
      update-cases k i q y s.registry t.registry u g,
      update-cases k j q z s.registry t.registry u h,
      c.exclusive i j y z d,
    );
  }

  -- A record and its secret are removed.
  pub remove-IsConsistent :
      Updated k none s.registry t.registry → Updated k none s.secrets t.secrets → IsConsistent env t
  remove-IsConsistent u v =
      let kept : (j : Text) (y : Proxy)
          → lookup j t.registry ≡ some y
          → (text_eq k j ≡ false) × (lookup j s.registry ≡ some y) =
        λ j y h. ground (arith, u j, h) in
      record {
        named = λ j y h. c.named j y (kept j y h).1;
        secret = λ j y h.
            let (w, old) = kept j y h in
            let (z, f, a) = c.secret j y old in (z, ground (arith, v j, w, f), a);
        no_orphan = λ j h. ground (arith, u j, v j, c.no_orphan j);
        sessions = λ i j y z g h. c.sessions i j y z (kept i y g).1 (kept j z h).1;
        exclusive = λ i j y z d g h. c.exclusive i j y z d (kept i y g).1 (kept j z h).1;
      }

-- Only what is looked up matters.
pub same-IsConsistent :
    (env : Env) (s : Store) (secrets : Dict Secret)
    → IsConsistent env s
    → ((j : Text) → lookup j secrets ≡ lookup j s.secrets)
    → IsConsistent env (record s { secrets = secrets })
same-IsConsistent env s secrets c e = record {
  named = c.named;
  secret = λ j y h. let (z, f, a) = c.secret j y h in (z, e j ∙ f, a);
  no_orphan = λ j h. e j ∙ c.no_orphan j h;
  sessions = c.sessions;
  exclusive = c.exclusive;
}
