-- ===== src/Proxy/Keep.antt =====
-- What the operations of ops/proxy_store.py that change one record do to the agreement of the
-- registry and the secrets.
use android_farm.Prelude.{
  ℕ, Text, text_eq, text_eq_iff, ◌≡◌, refl, sym, ◌∙◌, true, false, not, ◌&&◌, any, Option, none,
  some, arith, ◌==◌, Result, ok, err, ◌>>=◌, ◌>>◌, raise_if, runtime_error, key_error, >>=-ok,
  >>-ok,
}
use android_farm.Prelude.Dict.{Dict, lookup, insert, values, lookup-insert, any-values}
use android_farm.Proxy.{
  Env, Proxy, Store, Write, written, lost, late, Writes, or_undo, proxy_id, Health, load_registry,
  require, device_id,
}
use android_farm.Proxy.Ops.{
  save_record, save_checked, find_record, is_enabled, is_assigned, disable, enable, assign,
  prepare_assign, unassign, prepare_unassign, valid_device, check_device,
}
use android_farm.Proxy.Check.{record_health, prepare_health, write_health}
use android_farm.Proxy.Consistent.{IsConsistent, Kept, Exclusive, replace-IsConsistent}

module _ (env : Env) where
  pub require-lookup :
      (k : Text) (d : Dict Proxy) (r : Proxy) → require env k d ≡ ok r → lookup k d ≡ some r
  unfolding require
  require-lookup k d r e = go (lookup k d) refl e
    where
      go :
          (o : Option Proxy)
          → lookup k d ≡ o
          → elim o [ none ↦ err (key_error "proxy does not exist") | some r ↦ ok r ] ≡ ok r
          → lookup k d ≡ some r
      go none p e = cc e
      go (some x) p e = p ∙ ground (arith, e)

  pub load_registry-ok : (s : Store) (d : Dict Proxy) → load_registry env s ≡ ok d → d ≡ s.registry
  unfolding load_registry
  load_registry-ok s d e = ground (arith, e)

  pub find_record-lookup :
      (k : Text) (s : Store) (r : Proxy) → find_record env k s ≡ ok r → lookup k s.registry ≡ some r
  unfolding find_record proxy_id
  find_record-lookup k s r e =
      let (key, p, e') = >>=-ok (proxy_id k) _ r e in
      let (d, q, e'') = >>=-ok (load_registry env s) _ r e' in
      let name : key ≡ k = ground (arith, p) in
      let kept = load_registry-ok s d q in
      require-lookup k s.registry r (ground (arith, e'', name, kept))

  -- A device is given only to an enabled record, and to one that no other record's device is.
  pub prepare_assign-ok :
      (now : ℕ) (id device : Text) (s : Store) (q : Proxy)
      → prepare_assign env now id device s ≡ ok q
      → (r : Proxy) × (lookup id s.registry ≡ some r)
        × (is_enabled r.state ≡ true)
        × (any
              (λ x. not (text_eq x.id id) && is_assigned device x.assigned_device)
              (values s.registry)
            ≡ false)
        × (q ≡ record r { assigned_device = some device; updated_at = now })
  unfolding prepare_assign proxy_id device_id
  prepare_assign-ok now id device s q e =
      let (key, p, e1) = >>=-ok (proxy_id id) _ q e in
      let (target, p2, e2) = >>=-ok (device_id env device) _ q e1 in
      let (d, p3, e3) = >>=-ok (load_registry env s) _ q e2 in
      let (r, p4, e4) = >>=-ok (require env key d) _ q e3 in
      finish key target d r (ground (arith, p)) (ground (arith, p2)) (load_registry-ok s d p3) p4
        (ground (arith, e4)) (ground (arith, e4)) (ground (arith, e4))
    where
      finish :
          (key target : Text) (d : Dict Proxy) (r : Proxy)
          → key ≡ id
          → target ≡ device
          → d ≡ s.registry
          → require env key d ≡ ok r
          → is_enabled r.state ≡ true
          → any (λ x. not (text_eq x.id key) && is_assigned target x.assigned_device) (values d)
            ≡ false
          → q ≡ record r { assigned_device = some target; updated_at = now }
          → (r : Proxy) × (lookup id s.registry ≡ some r)
            × (is_enabled r.state ≡ true)
            × (any
                  (λ x. not (text_eq x.id id) && is_assigned device x.assigned_device)
                  (values s.registry)
                ≡ false)
            × (q ≡ record r { assigned_device = some device; updated_at = now })
      finish key target d r n same kept p on none_else final = (
        r,
        rw (sym n, sym kept) (require-lookup key d r p),
        on,
        rw (sym n, sym same, sym kept) none_else,
        rw (sym same) final,
      )

  -- A result of a probe is written only for the record and the version of its secret that were probed.
  pub prepare_health-ok :
      (now : ℕ) (id : Text) (version : ℕ) (evidence : Health) (s : Store) (q : Proxy)
      → prepare_health env now id version evidence s ≡ ok q
      → (r : Proxy) × (lookup id s.registry ≡ some r)
        × (r.secret_version ≡ version)
        × (q ≡ record r { last_health = some evidence; updated_at = now })
  unfolding prepare_health load_registry
  prepare_health-ok now id version evidence s q e =
      go (lookup id s.registry) refl (ground (arith, e))
    where
      go :
          (o : Option Proxy)
          → lookup id s.registry ≡ o
          → (do
            r ← elim o [
              | none ↦
                  err (runtime_error "proxy changed during health check; result was not recorded")
              | some r ↦ ok r
            ]
            raise_if
                (not (r.secret_version == version))
                (runtime_error "proxy changed during health check; result was not recorded")
            ok (record r { last_health = some evidence; updated_at = now }))
            ≡ ok q
          → (r : Proxy) × (lookup id s.registry ≡ some r)
            × (r.secret_version ≡ version)
            × (q ≡ record r { last_health = some evidence; updated_at = now })
      go none p e = cc e
      go (some r) p e = (r, p, ground (arith, e), ground (arith, e))

  module _ (s : Store) (c : IsConsistent env s) where
    -- A record changes in columns that its secret does not depend on.
    pub change-IsConsistent :
        (k : Text) (r q : Proxy)
        → lookup k s.registry ≡ some r
        → Kept r q
        → q.secret_version ≡ r.secret_version
        → Exclusive s k q
        → IsConsistent env (record s { registry = insert k q s.registry })
    change-IsConsistent k r q e same version only =
        let (x, f, a) = c.secret k r e in
        replace-IsConsistent env s _ c k r q x e same only
          (record {
            type = a.type ∙ sym same.type;
            server = a.server ∙ sym same.server;
            server_port = a.server_port ∙ sym same.server_port;
            version = a.version ∙ sym version;
            digest = a.digest ∙ sym same.session;
          })
          (λ j. lookup-insert k j q s.registry) (λ j. ground (arith, text_eq_iff k j, f))

    -- the device was the record's before, so no other has it
    pub same_device :
        (k : Text) (r q : Proxy)
        → lookup k s.registry ≡ some r
        → q.assigned_device ≡ r.assigned_device
        → Exclusive s k q
    same_device k r q e same d a j y f b = c.exclusive j k y r d f e b (sym same ∙ a)

    -- a change of the registry alone, wherever it raises
    or_undo-IsConsistent {ℓ} :
        {A : Type ℓ} (b : Write) (a : A) (t : Store)
        → IsConsistent env t
        → IsConsistent env (or_undo b a s t (λ u. u)).1
    unfolding or_undo
    or_undo-IsConsistent written a t k = k
    or_undo-IsConsistent lost a t k = c
    or_undo-IsConsistent late a t k = k

    pub save-IsConsistent :
        (w : Writes) (k : Text) (m : Result Proxy)
        → ((q : Proxy)
            → m ≡ ok q
            → IsConsistent env (record s { registry = insert k q s.registry }))
        → IsConsistent env (save_checked w s k m).1
    unfolding save_checked save_record or_undo
    save-IsConsistent w k (err e) f = c
    save-IsConsistent w k (ok q) f = or_undo-IsConsistent w.first _ _ (f q refl)

    -- an operation that finds a record and changes no column that anything depends on
    update-IsConsistent :
        (w : Writes) (id : Text) (f : Proxy → Proxy)
        → ((r : Proxy) → Kept r (f r))
        → ((r : Proxy) → (f r).secret_version ≡ r.secret_version)
        → ((r : Proxy) → (f r).assigned_device ≡ r.assigned_device)
        → IsConsistent env (save_checked w s id (do r ← find_record env id s; ok (f r))).1
    update-IsConsistent w id f kept version device = save-IsConsistent w id _ λ q e.
        let (r, p, e') = >>=-ok (find_record env id s) _ q e in
        let here = find_record-lookup id s r p in
        let same : f r ≡ q = ground (arith, e') in
        rw (sym same) (
          change-IsConsistent id r (f r) here (kept r) (version r)
            (same_device id r (f r) here (device r)))

    -- `disable` leaves a consistent store, whether it returns or raises.
    pub disable-IsConsistent :
        (w : Writes) (now : ℕ) (id : Text) → IsConsistent env (disable env w now id s).1
    unfolding disable
    disable-IsConsistent w now id =
        update-IsConsistent w id _
          (λ r. record {
            id = refl;
            type = refl;
            server = refl;
            server_port = refl;
            session = refl;
          })
          (λ r. refl) (λ r. refl)

    pub enable-IsConsistent :
        (w : Writes) (now : ℕ) (id : Text) → IsConsistent env (enable env w now id s).1
    unfolding enable
    enable-IsConsistent w now id =
        update-IsConsistent w id _
          (λ r. record {
            id = refl;
            type = refl;
            server = refl;
            server_port = refl;
            session = refl;
          })
          (λ r. refl) (λ r. refl)

    pub unassign-IsConsistent :
        (w : Writes) (now : ℕ) (id : Text) (device : Option Text)
        → IsConsistent env (unassign env w now id device s).1
    unfolding unassign prepare_unassign proxy_id
    unassign-IsConsistent w now id device = save-IsConsistent w id _ λ q e.
        let (key, p, e1) = >>=-ok (proxy_id id) _ q e in
        let e2 = >>-ok (valid_device env device) _ q e1 in
        let (d, p3, e3) = >>=-ok (load_registry env s) _ q e2 in
        let (r, p4, e4) = >>=-ok (require env key d) _ q e3 in
        let e5 = >>-ok (check_device env device r) _ q e4 in
        let name : key ≡ id = ground (arith, p) in
        let here : lookup id s.registry ≡ some r =
          ground (arith, require-lookup key d r p4, name, load_registry-ok s d p3) in
        change-IsConsistent id r q here (ground (arith, e5)) (ground (arith, e5))
          (ground (arith, e5))

    -- the tests of `assign` leave the device to the record alone
    alone :
        (id target : Text) (q : Proxy)
        → q.assigned_device ≡ some target
        → any
            (λ x. not (text_eq x.id id) && is_assigned target x.assigned_device)
            (values s.registry)
          ≡ false
        → Exclusive s id q
    alone id target q e none_else d a j y f b =
        let t : not (text_eq y.id id) && is_assigned target y.assigned_device ≡ false =
          any-values (λ x. not (text_eq x.id id) && is_assigned target x.assigned_device) j y
            s.registry none_else f in
        let n : y.id ≡ j = c.named j y f in
        let here : d ≡ target = ground (arith, a, e) in
        ground (arith, t, n, b, here, text_eq_iff y.id id, text_eq_iff d target)

    pub assign-IsConsistent :
        (w : Writes) (now : ℕ) (id device : Text)
        → IsConsistent env (assign env w now id device s).1
    unfolding assign prepare_assign proxy_id
    assign-IsConsistent w now id device = save-IsConsistent w id _ λ q e.
        let (r, here, on, none_else, same) = prepare_assign-ok now id device s q e in
        let only : Exclusive s id q = alone id device q (rw same refl) none_else in
        change-IsConsistent id r q here
          (rw same
            (record { id = refl; type = refl; server = refl; server_port = refl; session = refl }))
          (rw same refl) only

    pub record_health-IsConsistent :
        (w : Writes) (now : ℕ) (id : Text) (version : ℕ) (evidence : Health)
        → IsConsistent env (record_health env w now id version evidence s).1
    unfolding record_health write_health
    record_health-IsConsistent w now id version evidence =
        go (prepare_health env now id version evidence s) refl
      where
        go :
            (m : Result Proxy)
            → prepare_health env now id version evidence s ≡ m
            → IsConsistent env (write_health env w id s m).1
        go (err e) p = c
        go (ok q) p = or_undo-IsConsistent w.first _ _ kept
          where
            kept : IsConsistent env (record s { registry = insert id q s.registry })
            kept =
                let (r, here, version', same) = prepare_health-ok now id version evidence s q p in
                rw same (
                  change-IsConsistent id r
                    (record r { last_health = some evidence; updated_at = now }) here
                    (record {
                      id = refl;
                      type = refl;
                      server = refl;
                      server_port = refl;
                      session = refl;
                    })
                    refl
                    (same_device id r (record r { last_health = some evidence; updated_at = now })
                      here refl))
