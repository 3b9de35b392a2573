-- ===== src/Server/Stable.antt =====
-- Each action that services/api/operations.py accepts is accepted again without the current password.
use android_farm.Prelude.{
  Text, codes, text_eq, text_eq_refl, mem, ◌≡◌, refl, sym, ap, ◌∙◌, Bool, true, false, not, [], ◌∷◌,
  ◌++◌, Option, none, some, arith, leb, ◌&&◌, Result, ok, err, ◌>>=◌, ◌>>◌, >>=-ok, >>-first, >>-ok,
  raise_if-ok,
}
use android_farm.Prelude.Dict
use android_farm.Prelude.Dict.{Dict, lookup, lookup-remove, all-remove}
use android_farm.Prelude.Decimal.{Unicode}
use android_farm.Json.{Json, str}
use android_farm.Device.{canonical_device}
use android_farm.Operations.Request.{
  Lifecycle, ProxyAction, Action, life, proxy, provision, resume, proxy_add, credential_rotate,
  proxy_credentials, core_activate, artifact_import, artifact_remove, remove, Settings, Host, Job,
  param, check_fields, check_fields-ok, check_fields-all, check_device, check_text, optional,
}
use android_farm.Operations.Artifacts.{check_import, check_artifact}
use android_farm.Proxy
use android_farm.Operations.Secrets.{
  check_new_proxy, show_proxy, check_secret_fields, check_rotation, check_proxy_password,
  check_target, check_username, utf8_length, is_trimmed,
}
use android_farm.Operations.Validate.{
  check_action, check_life, check_remove, check_resume, check_provision, check_no_device,
  check_confirmed, check_known, check_removal, checked,
}
use android_farm.Operations.Prepared.{check_provision-again}
use android_farm.Server.{current_password, kept_params, is_secret}

check_device-ok :
    (u : Unicode) (o : Option Json) (d : Text) → check_device u o ≡ ok d → o ≡ some (str d)
unfolding check_device
check_device-ok u (some (str s)) d e =
    let (k, x, e1) = >>=-ok (canonical_device u (str s)) _ d e in
    let (same, e2) = raise_if-ok (not (text_eq k s)) _ _ d e1 in ap (λ t. some (str t)) (cc e2)
check_device-ok u none d e = cc e
check_device-ok u (some _) d e = cc e

check_no_device-ok : (o : Option Json) (x : Unit {0}) → check_no_device o ≡ ok x → o ≡ none
unfolding check_no_device
check_no_device-ok none x e = refl
check_no_device-ok (some v) x e = cc e

-- the device field of a job
abbrev pub device_value : Option Text → Option Json
device_value none = none
device_value (some d) = some (str d)

module _ (h : Host) (c : Settings) where
  -- the job has the action, and is accepted again, by the executor and without the password
  pub record IsStable (a : Action) (j : Job) : Type 0 where
    pub action : j.action ≡ a
    pub again :
        check_action h c true a (device_value j.device) (kept_params a j.params)
        ≡ ok (record j { params = kept_params a j.params })

  life-IsStable :
      (l : Lifecycle) (o : Option Json) (params : Dict Json) (j : Job)
      → check_life h c l o params ≡ ok j
      → IsStable (life l) j
  unfolding check_life check_action kept_params checked is_secret
  life-IsStable l o params j e =
      let (x, p) = >>-first (check_confirmed l params) _ j e in
      let e1 = >>-ok (check_confirmed l params) _ j e in
      let (d, q, e2) = >>=-ok (check_device h.unicode o) _ j e1 in
      let e3 =
        >>-ok (check_known "device is not allocated in the managed inventory" h c d) _ j e2 in
      let same : checked (life l) (some d) params ≡ j = cc e3 in
      rw (sym same) (record {
        action = refl;
        again = rw (sym (check_device-ok h.unicode o d q)) (e ∙ ap ok (sym same));
      })

  remove-IsStable :
      (o : Option Json) (params : Dict Json) (j : Job)
      → check_remove h c o params ≡ ok j
      → IsStable remove j
  unfolding check_remove check_action kept_params checked is_secret
  remove-IsStable o params j e =
      let e1 = >>-ok (check_fields (codes "confirm" ∷ []) (codes "purge_data" ∷ []) params) _ j e in
      let (d, q, e2) = >>=-ok (check_device h.unicode o) _ j e1 in
      let e3 = >>-ok (check_removal d params) _ j e2 in
      let e4 =
        >>-ok (check_known "device is not allocated in the managed inventory" h c d) _ j e3 in
      let same : checked remove (some d) params ≡ j = cc e4 in
      rw (sym same) (record {
        action = refl;
        again = rw (sym (check_device-ok h.unicode o d q)) (e ∙ ap ok (sym same));
      })

  resume-IsStable :
      (o : Option Json) (params : Dict Json) (j : Job)
      → check_resume h c o params ≡ ok j
      → IsStable resume j
  unfolding check_resume check_action kept_params checked is_secret
  resume-IsStable o params j e =
      let (d, q, e1) = >>=-ok (check_device h.unicode o) _ j e in
      let (x, known) =
        >>-first
          (check_known "selected resume device is not allocated in the managed inventory" h c d) _ j
          e1 in
      let e2 =
        >>-ok (check_known "selected resume device is not allocated in the managed inventory" h c d)
          _ j e1 in
      let (p, r, e3) = >>=-ok (check_provision h c params) _ j e2 in
      let same : checked resume (some d) p ≡ j = cc e3 in
      rw (sym same) (record {
        action = refl;
        again =
            rw
              (
                sym (check_device-ok h.unicode o d q),
                q,
                known,
                check_provision-again h c params p r,
              )
              refl;
      })

  provision-IsStable :
      (o : Option Json) (params : Dict Json) (j : Job)
      → check_action h c false provision o params ≡ ok j
      → IsStable provision j
  unfolding check_action kept_params checked is_secret check_no_device
  provision-IsStable o params j e =
      let e1 = >>-ok (check_no_device o) _ j e in
      let (p, r, e2) = >>=-ok (check_provision h c params) _ j e1 in
      let same : checked provision none p ≡ j = cc e2 in
      rw (sym same)
        (record { action = refl; again = rw (check_provision-again h c params p r) refl })

  -- the actions without a device that keep their parameters
  plain-IsStable :
      (a : Action) (o : Option Json) (params : Dict Json) (j : Job) (m : Result (Unit {0}))
      → is_secret a ≡ false
      → ((t : Bool) (o : Option Json)
          → check_action h c t a o params
            ≡ (check_no_device o >> (m >> ok (checked a none params))))
      → check_action h c false a o params ≡ ok j
      → IsStable a j
  unfolding kept_params checked check_no_device
  plain-IsStable a o params j m s shape e =
      let e0 = sym (shape false o) ∙ e in
      let e1 = >>-ok (check_no_device o) _ j e0 in
      let e2 = >>-ok m _ j e1 in
      let (x, first) = >>-first m _ j e1 in
      let same : checked a none params ≡ j = cc e2 in
      rw (sym same) (record { action = refl; again = rw s (shape true none ∙ rw first refl) })

  kept-lookup :
      (k : Text) (params : Dict Json)
      → text_eq current_password k ≡ false
      → lookup k (Dict.remove current_password params) ≡ lookup k params
  kept-lookup k params d = lookup-remove current_password k params ∙ rw d refl

  kept-none :
      (params : Dict Json) → lookup current_password (Dict.remove current_password params) ≡ none
  kept-none params =
      lookup-remove current_password current_password params
      ∙ rw (text_eq_refl current_password) refl

  rotation_fields-kept :
      (params : Dict Json) (x : Unit {0})
      → check_secret_fields false (codes "target" ∷ codes "username" ∷ codes "password" ∷ []) params
        ≡ ok x
      → check_secret_fields true
          (codes "target" ∷ codes "username" ∷ codes "password" ∷ [])
          (Dict.remove current_password params)
        ≡ ok tt
  unfolding check_secret_fields text_eq
  rotation_fields-kept params x e =
      let names = codes "target" ∷ codes "username" ∷ codes "password" ∷ [] in
      let (known, present) = check_fields-ok (names ++ current_password ∷ []) [] params x e in
      check_fields-all names (current_password ∷ []) (Dict.remove current_password params)
        (all-remove (λ k. mem k (names ++ current_password ∷ [])) current_password params known)
        (rw
          (
            kept-lookup (codes "target") params refl,
            kept-lookup (codes "username") params refl,
            kept-lookup (codes "password") params refl,
          )
          (ground (arith, present)))

  proxy_fields-kept :
      (params : Dict Json) (x : Unit {0})
      → check_secret_fields false (codes "id" ∷ codes "password" ∷ []) params ≡ ok x
      → check_secret_fields true
          (codes "id" ∷ codes "password" ∷ [])
          (Dict.remove current_password params)
        ≡ ok tt
  unfolding check_secret_fields text_eq
  proxy_fields-kept params x e =
      let names = codes "id" ∷ codes "password" ∷ [] in
      let (known, present) = check_fields-ok (names ++ current_password ∷ []) [] params x e in
      check_fields-all names (current_password ∷ []) (Dict.remove current_password params)
        (all-remove (λ k. mem k (names ++ current_password ∷ [])) current_password params known)
        (rw (kept-lookup (codes "id") params refl, kept-lookup (codes "password") params refl)
          (ground (arith, present)))

  rotation-kept :
      (params : Dict Json) (x : Unit {0})
      → check_rotation h false params ≡ ok x
      → check_rotation h true (Dict.remove current_password params) ≡ ok tt
  unfolding check_rotation param optional text_eq
  rotation-kept params x e =
      let names = codes "target" ∷ codes "username" ∷ codes "password" ∷ [] in
      let (y, a) = >>-first (check_secret_fields false names params) _ x e in
      let e1 = >>-ok (check_secret_fields false names params) _ x e in
      let (z, b) = >>-first (check_target (param "target" params)) _ x e1 in
      let e2 = >>-ok (check_target (param "target" params)) _ x e1 in
      let (user, u, e3) = >>=-ok (check_username (param "username" params)) _ x e2 in
      let (password, w, e4) =
        >>=-ok (check_text "invalid password" 72 (param "password" params)) _ x e3 in
      let (n, v, e5) = >>=-ok (utf8_length password) _ x e4 in
      let (long, e6) = raise_if-ok (not (leb 12 n && leb n 72)) _ _ x e5 in
      let (trim, e7) = raise_if-ok (not (is_trimmed h.is_space password)) _ _ x e6 in
      rw
        (
          rotation_fields-kept params y a,
          kept-lookup (codes "target") params refl,
          kept-lookup (codes "username") params refl,
          kept-lookup (codes "password") params refl,
          kept-none params,
          b,
          u,
          w,
          v,
          long,
          trim,
        )
        refl

  password-kept :
      (params : Dict Json) (x : Unit {0})
      → check_proxy_password h c false params ≡ ok x
      → check_proxy_password h c true (Dict.remove current_password params) ≡ ok tt
  unfolding check_proxy_password param optional text_eq
  password-kept params x e =
      let names = codes "id" ∷ codes "password" ∷ [] in
      let (y, a) = >>-first (check_secret_fields false names params) _ x e in
      let e1 = >>-ok (check_secret_fields false names params) _ x e in
      let (shown, s, e2) = >>=-ok (show_proxy h c (param "id" params)) _ x e1 in
      let (password, w, e3) =
        >>=-ok (check_text "invalid proxy password" 4096 (param "password" params)) _ x e2 in
      let (trim, e4) = raise_if-ok (not (is_trimmed h.is_space password)) _ _ x e3 in
      rw
        (
          proxy_fields-kept params y a,
          kept-lookup (codes "id") params refl,
          kept-lookup (codes "password") params refl,
          kept-none params,
          s,
          w,
          trim,
        )
        refl

  rotation-IsStable :
      (o : Option Json) (params : Dict Json) (j : Job)
      → check_action h c false credential_rotate o params ≡ ok j
      → IsStable credential_rotate j
  unfolding check_action kept_params checked is_secret check_no_device
  rotation-IsStable o params j e =
      let e1 = >>-ok (check_no_device o) _ j e in
      let (x, r) = >>-first (check_rotation h false params) _ j e1 in
      let same : checked credential_rotate none params ≡ j =
        cc (>>-ok (check_rotation h false params) _ j e1) in
      rw (sym same) (record { action = refl; again = rw (rotation-kept params x r) refl })

  password-IsStable :
      (o : Option Json) (params : Dict Json) (j : Job)
      → check_action h c false proxy_credentials o params ≡ ok j
      → IsStable proxy_credentials j
  unfolding check_action kept_params checked is_secret check_no_device
  password-IsStable o params j e =
      let e1 = >>-ok (check_no_device o) _ j e in
      let (x, r) = >>-first (check_proxy_password h c false params) _ j e1 in
      let same : checked proxy_credentials none params ≡ j =
        cc (>>-ok (check_proxy_password h c false params) _ j e1) in
      rw (sym same) (record { action = refl; again = rw (password-kept params x r) refl })

  abbrev passed : Result (Unit {0})
  passed = ok tt

  regroup :
      (m n : Result (Unit {0})) (s : Result Proxy.Redacted) (r : Result Job)
      → (m >> (n >> (s >>= λ _. r))) ≡ (m >> ((n >> (s >>= λ _. passed)) >> r))
  regroup (err x) n s r = refl
  regroup (ok x) (err y) s r = refl
  regroup (ok x) (ok y) (err z) r = refl
  regroup (ok x) (ok y) (ok z) r = refl

  -- the checks of a proxy action, as one result
  shown : Dict Json → Result (Unit {0})
  shown params = do
    check_fields (codes "id" ∷ []) [] params
    _ ← show_proxy h c (param "id" params)
    ok tt

  proxy-shape :
      (a : ProxyAction) (t : Bool) (o : Option Json) (params : Dict Json)
      → check_action h c t (proxy a) o params
        ≡ (check_no_device o >> (shown params >> ok (checked (proxy a) none params)))
  unfolding check_action shown
  proxy-shape a t o params =
      regroup (check_no_device o) (check_fields (codes "id" ∷ []) [] params)
        (show_proxy h c (param "id" params)) (ok (checked (proxy a) none params))

  pub check-IsStable :
      (a : Action) (o : Option Json) (params : Dict Json) (j : Job)
      → check_action h c false a o params ≡ ok j
      → IsStable a j
  unfolding check_action is_secret
  check-IsStable (life l) o params j e = life-IsStable l o params j e
  check-IsStable remove o params j e = remove-IsStable o params j e
  check-IsStable resume o params j e = resume-IsStable o params j e
  check-IsStable provision o params j e = provision-IsStable o params j e
  check-IsStable core_activate o params j e =
      plain-IsStable core_activate o params j (check_fields [] [] params) refl (λ t o. refl) e
  check-IsStable artifact_import o params j e =
      plain-IsStable artifact_import o params j (check_import c params) refl (λ t o. refl) e
  check-IsStable artifact_remove o params j e =
      plain-IsStable artifact_remove o params j (check_artifact h params) refl (λ t o. refl) e
  check-IsStable proxy_add o params j e =
      plain-IsStable proxy_add o params j (check_new_proxy h params) refl (λ t o. refl) e
  check-IsStable credential_rotate o params j e = rotation-IsStable o params j e
  check-IsStable proxy_credentials o params j e = password-IsStable o params j e
  check-IsStable (proxy a) o params j e =
      plain-IsStable (proxy a) o params j (shown params) refl (λ t o. proxy-shape a t o params) e
