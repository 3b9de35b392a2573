-- ===== src/Credentials/Preflight.antt =====
-- What the preflight of services/api/credentials.py finds.
use android_farm.Prelude.{
  ℕ, codes, Text, text_eq_iff, List, [], Option, none, some, Result, ok, err, ◌≡◌, refl, ap, arith,
}
use android_farm.Prelude.Dict.{Dict, lookup}
use android_farm.Credentials.{
  Target, web, grafana, platform, Change, Profile, Services, World, WebPlan, GrafanaPlan, Web,
  Grafana, continue, read_changes, environment_changes, environment_names,
}
use android_farm.Credentials.Rotate.{
  prepare_web, check_profile, plan_grafana, prepare_profile, prepare_grafana, for_grafana,
}
use android_farm.Credentials.Before.{
  IsSame, AreBefore, AreBefore-++, AreBefore-moved, read_changes-AreBefore,
}
use android_farm.Credentials.Steps.{continue-keeps, continue-ok, environment_from-IsRead}
use android_farm.Credentials.Honest.{asked, IsReady}
use android_farm.Credentials.Outcomes.{IsPlanned}

-- the account that Grafana knows by the stored login and password
unfoldable profile_id : Result Profile → ℕ
profile_id (err e) = 0
profile_id (ok profile) = profile.id

unfoldable pub admin_id : {S : Type 0} → Services S → Result GrafanaPlan → S → ℕ
unfolding profile_id
admin_id api (err e) s = 0
admin_id api (ok p) s = profile_id (api.get p.old_user p.old_password s)

-- the account after a change that completes
unfoldable pub wanted :
    {S : Type 0} → Services S → S → Text → Text → ℕ → Target → Option (Text × Text)
wanted api A username password id web = api.account id A
wanted api A username password id _ = some (username, password)

module _ {S : Type 0} (api : Services S) (config_dir recovery : Text) (F : Dict Text) (A : S)
    (username password : Text) where
  -- the preflight changed nothing, and its plan is ready
  unfoldable pub IsPrepared : ℕ → Option (Text × Text) → Result (Option Grafana) × World S → Type 0
  IsPrepared id new m =
      (m.1.files ≡ F)
      × (m.1.services ≡ A)
      × ((monitor : Option Grafana)
          → m.0 ≡ ok monitor
          → IsReady api F A id username password monitor
            × (asked api A id username password monitor ≡ new))

  cast :
      (id : ℕ) (new : Option (Text × Text)) (m n : Option Grafana)
      → m ≡ n
      → IsReady api F A id username password m × (asked api A id username password m ≡ new)
      → IsReady api F A id username password n × (asked api A id username password n ≡ new)
  cast id new m n e h = rw e at h

  pub IsSame-files : {files : Dict Text} → files ≡ F → IsSame [] F files
  unfolding IsSame
  IsSame-files e p m = ap (lookup p) e

  check_profile-login :
      (user : Text) (profile : Profile) (u : Unit {0})
      → check_profile user profile ≡ ok u
      → profile.login ≡ user
  unfolding check_profile
  check_profile-login user profile u h = ground (arith, h, text_eq_iff profile.login user)

  prepare_profile-IsPrepared :
      (p : GrafanaPlan) (r : Result Profile) (w : World S)
      → api.get p.old_user p.old_password A ≡ r
      → w.files ≡ F
      → w.services ≡ A
      → IsPrepared
          (profile_id r)
          (some (username, password))
          (prepare_profile api config_dir recovery p username password r w)
  unfolding prepare_profile plan_grafana IsPrepared profile_id environment_changes IsReady asked
  prepare_profile-IsPrepared p (err e) w g f a = (f, a, λ m h. cc h)
  prepare_profile-IsPrepared p (ok profile) w g f a =
      let key = codes "GRAFANA_ADMIN_USER" in
      let (x, y, z) = environment_from-IsRead F A config_dir key username environment_names w f a in
      (
        continue-keeps (λ (v : World S). v.files ≡ F) (check_profile p.old_user profile, w) _ f
            (λ _.
              continue-keeps (λ (v : World S). v.files ≡ F)
                (environment_changes config_dir key username w) _ x (λ _. x)),
        continue-keeps (λ (v : World S). v.services ≡ A) (check_profile p.old_user profile, w) _ a
            (λ _.
              continue-keeps (λ (v : World S). v.services ≡ A)
                (environment_changes config_dir key username w) _ y (λ _. y)),
        λ m h.
            let (u, i, j, k) =
              continue-ok (check_profile p.old_user profile, w)
                (λ _ v. continue (environment_changes config_dir key username v) (λ more u.
                  (ok (some (plan_grafana p username password v.files profile more)), u)))
                m h in
            let (more, b, c, d) =
              continue-ok (environment_changes config_dir key username w)
                (λ more u. (ok (some (plan_grafana p username password w.files profile more)), u)) m
                j in
            planned more (z more b) (check_profile-login p.old_user profile u i) m c,
      )
    where
      planned :
          (more : List Change)
          → AreBefore [] F more
          → profile.login ≡ p.old_user
          → (m : Option Grafana)
          → ok (some (plan_grafana p username password w.files profile more)) ≡ ok m
          → IsReady api F A profile.id username password m
            × (asked api A profile.id username password m ≡ some (username, password))
      planned more b l m c =
          cast profile.id (some (username, password))
            (some (plan_grafana p username password w.files profile more)) m (cc c)
            (
              (
                refl,
                cc (api.get-account p.old_user p.old_password A profile g, l),
                (refl, refl),
                AreBefore-++ [] F (read_changes w.files p.writes) more
                    (AreBefore-moved [] F w.files (read_changes w.files p.writes) (IsSame-files f)
                      (read_changes-AreBefore w.files p.writes))
                    b,
              ),
              refl,
            )

  prepare_grafana-IsPrepared :
      (plan : Result GrafanaPlan) (w : World S)
      → w.files ≡ F
      → w.services ≡ A
      → IsPrepared
          (admin_id api plan A)
          (some (username, password))
          (prepare_grafana api config_dir recovery (some plan) username password w)
  unfolding prepare_grafana IsPrepared admin_id
  prepare_grafana-IsPrepared (err e) w f a = (f, a, λ m h. cc h)
  prepare_grafana-IsPrepared (ok p) w f a =
      rw (ap (api.get p.old_user p.old_password) a)
        (prepare_profile-IsPrepared p (api.get p.old_user p.old_password A) w refl f a)

  pub IsPrepared-target :
      (target : Target) (plan : Result GrafanaPlan) (w : World S)
      → w.files ≡ F
      → w.services ≡ A
      → IsPrepared
          (admin_id api plan A)
          (wanted api A username password (admin_id api plan A) target)
          (prepare_grafana api config_dir recovery (for_grafana target plan) username password w)
  unfolding for_grafana prepare_grafana wanted IsPrepared IsReady asked
  IsPrepared-target web plan w f a = (
    f,
    a,
    λ m h.
        cast (admin_id api plan A) (wanted api A username password (admin_id api plan A) web) none m
          (cc h) (tt, refl),
  )
  IsPrepared-target grafana plan w f a = prepare_grafana-IsPrepared plan w f a
  IsPrepared-target platform plan w f a = prepare_grafana-IsPrepared plan w f a

  IsPlanned-cast : (x y : Option Web) → x ≡ y → IsPlanned F x → IsPlanned F y
  IsPlanned-cast x y e h = rw e at h

  pub IsPlanned-web :
      (plan : Option (Result WebPlan)) (w : World S)
      → w.files ≡ F
      → (console : Option Web) → prepare_web plan w ≡ ok console
      → IsPlanned F console
  unfolding prepare_web IsPlanned
  IsPlanned-web none w f console h = IsPlanned-cast none console (cc h) tt
  IsPlanned-web (some (err e)) w f console h = cc h
  IsPlanned-web (some (ok p)) w f console h =
      IsPlanned-cast
        (some (record {
          changes = read_changes w.files p.writes;
          plan = p.plan;
          revision = p.revision;
        }))
        console (cc h)
        (AreBefore-moved [] F w.files (read_changes w.files p.writes) (IsSame-files f)
          (read_changes-AreBefore w.files p.writes))
