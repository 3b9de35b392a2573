-- ===== src/Proxy/Pairs.antt =====
-- What the operations of ops/proxy_store.py that write both files do to the agreement of the
-- registry and the secrets.
use android_farm.Prelude.{
  ◌&&◌, ℕ, ◌+◌, Text, text_eq, text_eq_iff, ◌≡◌, ◌≢◌, refl, sym, ap, ◌∙◌, Bool, true, false, not,
  Option, none, some, arith, Result, ok, err, os_error, >>=-ok, >>-first, >>-ok, raise_if-ok,
}
use android_farm.Prelude.Dict.{
  Dict, lookup, insert, remove, lookup-insert, lookup-remove, any-values,
}
use android_farm.Proxy.{
  Write, written, lost, late, left, after_write, or_undo, Env, Proxy, Secret, Store, Writes,
  NewProxy, proxy_id, text, load_registry, require, read_secret, check_secret, find_secret,
}
use android_farm.Proxy.Ops.{
  restore, find_record, is_present, check_new, new_proxy, new_secret, check_arguments, add,
  prepare_add, write_add, delete, prepare_delete, write_delete, rotate_password, prepare_rotate,
  write_rotate, is_unassigned,
}
use android_farm.Proxy.Consistent.{
  Agrees, IsConsistent, replace-IsConsistent, extend-IsConsistent, remove-IsConsistent,
  same-IsConsistent,
}
use android_farm.Proxy.Keep.{load_registry-ok, require-lookup, find_record-lookup, same_device}

-- what `add` has seen to be true when it starts to write
record Fresh (env : Env) (s : Store) (r : Proxy) (x : Secret) : Type 0 where
  new_id : lookup r.id s.registry ≡ none
  new_secret : lookup r.id s.secrets ≡ none
  new_session :
      (j : Text) (y : Proxy) → lookup j s.registry ≡ some y → y.session_sha256 ≢ r.session_sha256
  free : r.assigned_device ≡ none
  agrees : Agrees env r x

absent {ℓ} : {A : Type ℓ} (o : Option A) → is_present o ≡ false → o ≡ none
absent none e = refl
absent (some a) e = cc e

module _ (env : Env) (s : Store) where
  new-Fresh :
      (now : ℕ) (b : NewProxy) (d : Dict Proxy) (u : Unit {0})
      → d ≡ s.registry
      → check_new env s d b.id (env.session_digest b.type b.server b.server_port b.username) ≡ ok u
      → Fresh env s (new_proxy env now b) (new_secret env b)
  unfolding check_new new_proxy new_secret
  new-Fresh now b d u same e =
      let (t1, e1) = raise_if-ok _ _ _ u e in
      let (t2, e2) = raise_if-ok _ _ _ u e1 in
      record {
        new_id = rw⁻¹ same (absent (lookup b.id d) t1);
        new_secret = absent (lookup b.id s.secrets) (ground (arith, e2));
        new_session = λ j y f h. ground (
          arith,
          text_eq_iff y.session_sha256
              (env.session_digest b.type b.server b.server_port b.username),
          any-values
              (λ r.
                text_eq r.session_sha256
                  (env.session_digest b.type b.server b.server_port b.username))
              j y d t2 (rw same f),
          h,
        );
        free = refl;
        agrees = record {
          type = refl;
          server = refl;
          server_port = refl;
          version = refl;
          digest = refl;
        };
      }

  prepare_add-Fresh :
      (now : ℕ) (a : NewProxy) (r : Proxy) (x : Secret)
      → prepare_add env now a s ≡ ok (r, x)
      → Fresh env s r x
  unfolding prepare_add
  prepare_add-Fresh now a r x e =
      let (b, p1, e1) = >>=-ok (check_arguments env a) _ (r, x) e in
      let (d, p2, e2) = >>=-ok (load_registry env s) _ (r, x) e1 in
      let (u, p3) = >>-first (check_new env s d b.id _) _ (r, x) e2 in
      let fresh = new-Fresh now b d u (load_registry-ok env s d p2) p3 in
      let made : (new_proxy env now b ≡ r) × (new_secret env b ≡ x) = ground (arith, e2) in
      rw (sym made.0, sym made.1) fresh

-- a change that does not raise after the file was replaced, and one that does not raise
abbrev is_early : Write → Bool
is_early late = false
is_early _ = true

abbrev is_written : Write → Bool
is_written written = true
is_written _ = false

-- no change raises after its file was replaced, and those that put a file back do not raise
abbrev pub is_whole : Writes → Bool
is_whole w = is_early w.first && is_early w.second && is_written w.third && is_written w.fourth

unassigned : (o : Option Text) → not (is_unassigned o) ≡ false → o ≡ none
unassigned none e = refl
unassigned (some d) e = cc e

module _ (env : Env) (s : Store) (c : IsConsistent env s) where
  pub add-IsConsistent :
      (w : Writes) (now : ℕ) (a : NewProxy)
      → is_whole w ≡ true
      → IsConsistent env (add env w now a s).1
  unfolding add write_add after_write or_undo left
  add-IsConsistent w now a h = go (prepare_add env now a s) refl
    where
      go :
          (m : Result (Proxy × Secret))
          → prepare_add env now a s ≡ m
          → IsConsistent env (write_add env w s m).1
      go (err e) p = c
      go (ok (r, x)) p =
          at w.first w.second w.third (ground (arith, h)) (ground (arith, h)) (ground (arith, h))
        where
          fresh : Fresh env s r x
          fresh = prepare_add-Fresh env s now a r x p

          ended : Write → Write → Write → Store
          ended b d u =
              (write_add env (record { first = b; second = d; third = u; fourth = written }) s
                (ok (r, x))).1

          at :
              (b d u : Write)
              → is_early b ≡ true
              → is_early d ≡ true
              → is_written u ≡ true
              → IsConsistent env (ended b d u)
          at lost d u e f g = c
          at late d u e f g = cc e
          at written late u e f g = cc f
          at written lost lost e f g = cc g
          at written lost late e f g = cc g
          at written lost written e f g =
              same-IsConsistent env s (remove r.id (insert r.id x s.secrets)) c (λ j. ground (
                arith,
                lookup-remove r.id j (insert r.id x s.secrets),
                lookup-insert r.id j x s.secrets,
                text_eq_iff r.id j,
                fresh.new_secret,
              ))
          at written written u e f g =
              extend-IsConsistent env s _ c r.id r x refl fresh.free fresh.new_session fresh.agrees
                (λ j. lookup-insert r.id j r s.registry) (λ j. lookup-insert r.id j x s.secrets)

  find_secret-lookup :
      (k : Text) (x : Secret) → find_secret env s k ≡ ok x → lookup k s.secrets ≡ some x
  unfolding find_secret
  find_secret-lookup k x e = go (lookup k s.secrets) e
    where
      go :
          (o : Option Secret)
          → elim o [ none ↦ err (os_error "proxy secret") | some x ↦ ok x ] ≡ ok x
          → o ≡ some x
      go none e = cc e
      go (some y) e = ground (arith, e)

  read_secret-lookup :
      (k : Text) (r : Proxy) (x : Secret)
      → read_secret env s k r ≡ ok x
      → lookup k s.secrets ≡ some x
  unfolding read_secret
  read_secret-lookup k r x e =
      let (y, p, e1) = >>=-ok (find_secret env s k) _ x e in
      let same : y ≡ x = ground (arith, >>-ok (check_secret env r y) (ok y) x e1) in
      find_secret-lookup k y p ∙ ap some same

  prepare_delete-ok :
      (id : Text) (r : Proxy) (x : Secret)
      → prepare_delete env id s ≡ ok (r, x)
      → (lookup id s.registry ≡ some r)
        × (lookup id s.secrets ≡ some x)
        × (r.assigned_device ≡ none)
  unfolding prepare_delete
  prepare_delete-ok id r x e =
      let (q, p, e1) = >>=-ok (find_record env id s) _ (r, x) e in
      let (t, e2) = raise_if-ok (not (is_unassigned q.assigned_device)) _ _ (r, x) e1 in
      let (y, p3, e3) = >>=-ok (read_secret env s id q) _ (r, x) e2 in
      let made : (q ≡ r) × (y ≡ x) = ground (arith, e3) in
      (
        find_record-lookup env id s q p ∙ ap some made.0,
        read_secret-lookup id q y p3 ∙ ap some made.1,
        ap (λ (v : Proxy). v.assigned_device) (sym made.0) ∙ unassigned q.assigned_device t,
      )

  pub delete-IsConsistent :
      (w : Writes) (id : Text) → is_whole w ≡ true → IsConsistent env (delete env w id s).1
  unfolding delete write_delete after_write or_undo restore left
  delete-IsConsistent w id h = go (prepare_delete env id s) refl
    where
      go :
          (m : Result (Proxy × Secret))
          → prepare_delete env id s ≡ m
          → IsConsistent env (write_delete env w s id m).1
      go (err e) p = c
      go (ok (r, x)) p =
          at w.first w.second w.third w.fourth (ground (arith, h)) (ground (arith, h))
            (ground (arith, h)) (ground (arith, h))
        where
          ended : Write → Write → Write → Write → Store
          ended b d u v =
              (write_delete env (record { first = b; second = d; third = u; fourth = v }) s id
                (ok (r, x))).1

          at :
              (b d u v : Write)
              → is_early b ≡ true
              → is_early d ≡ true
              → is_written u ≡ true
              → is_written v ≡ true
              → IsConsistent env (ended b d u v)
          at lost d u v e f g k = c
          at late d u v e f g k = cc e
          at written late u v e f g k = cc f
          at written written u v e f g k =
              remove-IsConsistent env s _ c id (λ j. lookup-remove id j s.registry)
                (λ j. lookup-remove id j s.secrets)
          at written lost lost v e f g k = cc g
          at written lost late v e f g k = cc g
          at written lost written lost e f g k = cc k
          at written lost written late e f g k = cc k
          at written lost written written e f g k =
              let (here, secret, free) = prepare_delete-ok id r x p in
              let (z, has, agrees) = c.secret id r here in
              let same : z ≡ x = ground (arith, has, secret) in
              replace-IsConsistent env s _ c id r r x here
                (record {
                  id = refl;
                  type = refl;
                  server = refl;
                  server_port = refl;
                  session = refl;
                })
                (same_device env s c id r r here refl) (rw (sym same) agrees)
                (λ j. ground (
                  arith,
                  lookup-insert id j r (remove id s.registry),
                  lookup-remove id j s.registry,
                ))
                (λ j. lookup-insert id j x s.secrets)

  prepare_rotate-ok :
      (id password : Text) (r : Proxy) (x : Secret)
      → prepare_rotate env id password s ≡ ok (r, x)
      → (lookup id s.registry ≡ some r) × (lookup id s.secrets ≡ some x)
  unfolding prepare_rotate proxy_id
  prepare_rotate-ok id password r x e =
      let (key, p, e1) = >>=-ok (proxy_id id) _ (r, x) e in
      let (t, p2, e2) = >>=-ok (text 4096 password) _ (r, x) e1 in
      let (d, p3, e3) = >>=-ok (load_registry env s) _ (r, x) e2 in
      let (q, p4, e4) = >>=-ok (require env key d) _ (r, x) e3 in
      let (y, p5, e5) = >>=-ok (read_secret env s key q) _ (r, x) e4 in
      finish key d q y (ground (arith, p)) (load_registry-ok env s d p3) p4 p5 (ground (arith, e5))
        (ground (arith, e5))
    where
      finish :
          (key : Text) (d : Dict Proxy) (q : Proxy) (y : Secret)
          → key ≡ id
          → d ≡ s.registry
          → require env key d ≡ ok q
          → read_secret env s key q ≡ ok y
          → q ≡ r
          → y ≡ x
          → (lookup id s.registry ≡ some r) × (lookup id s.secrets ≡ some x)
      finish key d q y n m p p' a b = (
        rw (sym n, sym m, sym a) (require-lookup env key d q p),
        rw (sym n, sym b) (read_secret-lookup key q y p'),
      )

  pub rotate_password-IsConsistent :
      (w : Writes) (now : ℕ) (id password : Text)
      → is_whole w ≡ true
      → IsConsistent env (rotate_password env w now id password s).1
  unfolding rotate_password write_rotate after_write or_undo left
  rotate_password-IsConsistent w now id password h = go (prepare_rotate env id password s) refl
    where
      go :
          (m : Result (Proxy × Secret))
          → prepare_rotate env id password s ≡ m
          → IsConsistent env (write_rotate env w now s id password m).1
      go (err e) p = c
      go (ok (r, x)) p =
          at w.first w.second w.third (ground (arith, h)) (ground (arith, h)) (ground (arith, h))
        where
          here : lookup id s.registry ≡ some r
          here = (prepare_rotate-ok id password r x p).0

          secret : lookup id s.secrets ≡ some x
          secret = (prepare_rotate-ok id password r x p).1

          agrees : Agrees env r x
          agrees =
              let (z, has, a) = c.secret id r here in
              let same : z ≡ x = ground (arith, has, secret) in rw (sym same) a

          q : Proxy
          q = record r { secret_version = r.secret_version + 1; updated_at = now }

          y : Secret
          y = record x { password = password; secret_version = r.secret_version + 1 }

          ended : Write → Write → Write → Store
          ended b d u =
              (write_rotate env (record { first = b; second = d; third = u; fourth = written }) now
                s id password (ok (r, x))).1

          at :
              (b d u : Write)
              → is_early b ≡ true
              → is_early d ≡ true
              → is_written u ≡ true
              → IsConsistent env (ended b d u)
          at lost d u e f g = c
          at late d u e f g = cc e
          at written late u e f g = cc f
          at written lost lost e f g = cc g
          at written lost late e f g = cc g
          at written lost written e f g = same-IsConsistent env s _ c (λ j. ground (
            arith,
            lookup-insert id j x (insert id y s.secrets),
            lookup-insert id j y s.secrets,
            secret,
            text_eq_iff id j,
          ))
          at written written u e f g =
              replace-IsConsistent env s _ c id r q y here
                (record {
                  id = refl;
                  type = refl;
                  server = refl;
                  server_port = refl;
                  session = refl;
                })
                (same_device env s c id r q here refl)
                (record {
                  type = agrees.type;
                  server = agrees.server;
                  server_port = agrees.server_port;
                  version = refl;
                  digest = agrees.digest;
                })
                (λ j. lookup-insert id j q s.registry) (λ j. lookup-insert id j y s.secrets)
