-- ===== src/Credentials/Promise.antt =====
-- What `rotate` of services/api/credentials.py promises when it ends.
use android_farm.Prelude.{
  ℕ, Text, Bool, true, false, Option, none, if◌then◌else◌, Result, ok, err, ◌≡◌, refl, ◌∙◌, ap,
}
use android_farm.Prelude.Dict.{Dict}
use android_farm.Credentials.{
  Target, Services, World, WebPlan, GrafanaPlan, Web, Grafana, Outcome, refused, continue, access,
}
use android_farm.Credentials.Rotate.{
  recover, with_grafana, with_web, for_web, for_grafana, after_lock, rotate,
}
use android_farm.Credentials.Steps.{continue-keeps, access-same}
use android_farm.Credentials.Honest.{
  IsKept, IsHonest, IsReady, written, IsStill, IsUndoable, recover-IsHonest,
}
use android_farm.Credentials.Outcomes.{IsPlanned, change-Honest}
use android_farm.Credentials.Preflight.{
  admin_id, wanted, IsSame-files, IsPrepared, IsPrepared-target, IsPlanned-web,
}

module _ {S : Type 0} (api : Services S) (config_dir recovery : Text) (F : Dict Text) (A : S)
    (username password : Text) where
  recover-kept :
      (id : ℕ) (new : Option (Text × Text)) (w : World S)
      → w.files ≡ F
      → w.services ≡ A
      → IsHonest api config_dir recovery F A id new (recover api config_dir recovery none none w)
  unfolding IsReady IsUndoable IsStill written
  recover-kept id new w f a =
      recover-IsHonest api config_dir recovery F A id username password new none none w tt
        (IsSame-files api config_dir recovery F A username password f) (ap (api.account id) a)

  IsHonest-cast :
      (id : ℕ) (new old : Option (Text × Text)) (m : Outcome × World S)
      → old ≡ new
      → IsHonest api config_dir recovery F A id old m
      → IsHonest api config_dir recovery F A id new m
  IsHonest-cast id new old m e h = rw e at h

  with_grafana-IsHonest :
      (id : ℕ) (new : Option (Text × Text)) (console : Option Web)
      (m : Result (Option Grafana) × World S)
      → IsPrepared api config_dir recovery F A username password id new m
      → IsPlanned F console
      → IsHonest api config_dir recovery F A id new (with_grafana api config_dir recovery console m)
  unfolding with_grafana IsPrepared
  with_grafana-IsHonest id new console (err e, w) (f, a, k) b = recover-kept id new w f a
  with_grafana-IsHonest id new console (ok monitor, w) (f, a, k) b =
      let (r, e) = k monitor refl in
      IsHonest-cast id new _ _ e
        (change-Honest api config_dir recovery F A id username password console monitor w f a r b)

  with_web-IsHonest :
      (target : Target) (plan : Result GrafanaPlan) (w : World S) (r : Result (Option Web))
      → w.files ≡ F
      → w.services ≡ A
      → ((console : Option Web) → r ≡ ok console → IsPlanned F console)
      → IsHonest api config_dir recovery F A
          (admin_id api plan A)
          (wanted api A username password (admin_id api plan A) target)
          (with_web api config_dir recovery (for_grafana target plan) username password w r)
  unfolding with_web
  with_web-IsHonest target plan w (err e) f a k =
      recover-kept (admin_id api plan A)
        (wanted api A username password (admin_id api plan A) target) w f a
  with_web-IsHonest target plan w (ok console) f a k =
      with_grafana-IsHonest (admin_id api plan A)
        (wanted api A username password (admin_id api plan A) target) console _
        (IsPrepared-target api config_dir recovery F A username password target plan w f a)
        (k console refl)

  pub after_lock-IsHonest :
      (target : Target) (web_plan : Result WebPlan) (plan : Result GrafanaPlan)
      (m : Result (Unit {0}) × World S)
      → m.1.files ≡ F
      → m.1.services ≡ A
      → IsHonest api config_dir recovery F A
          (admin_id api plan A)
          (wanted api A username password (admin_id api plan A) target)
          (after_lock api config_dir recovery target username password web_plan plan m)
  unfolding after_lock IsHonest IsKept
  after_lock-IsHonest target web_plan plan (err e, w) f a = (
    IsSame-files api config_dir recovery F A username password f,
    ap (api.account (admin_id api plan A)) a,
  )
  after_lock-IsHonest target web_plan plan (ok u, w) f a =
      with_web-IsHonest target plan w _ f a
        (IsPlanned-web api config_dir recovery F A username password (for_web target web_plan) w f)

  -- an early refusal
  pub refuse-IsHonest :
      (id : ℕ) (new : Option (Text × Text)) (t : Bool) (m : Outcome × World S) (w : World S)
      → w.files ≡ F
      → w.services ≡ A
      → IsHonest api config_dir recovery F A id new m
      → IsHonest api config_dir recovery F A id new (if t then m else (refused, w))
  unfolding IsHonest IsKept
  refuse-IsHonest id new true m w f a h = h
  refuse-IsHonest id new false m w f a h =
      (IsSame-files api config_dir recovery F A username password f, ap (api.account id) a)

  pub locked :
      (w : World S)
      → w.files ≡ F
      → w.services ≡ A
      → let m = continue (access w) (λ _ v. continue (access v) (λ _ u. access u)) in
        (m.1.files ≡ F) × (m.1.services ≡ A)
  locked w f a =
      let x = access-same w in
      let y = access-same (access w).1 in
      let z = access-same (access (access w).1).1 in
      (
        continue-keeps (λ (v : World S). v.files ≡ F) (access w) _ (x.0 ∙ f)
            (λ _.
              continue-keeps (λ (v : World S). v.files ≡ F) (access (access w).1) _ (y.0 ∙ x.0 ∙ f)
                (λ _. z.0 ∙ y.0 ∙ x.0 ∙ f)),
        continue-keeps (λ (v : World S). v.services ≡ A) (access w) _ (x.1 ∙ a)
            (λ _.
              continue-keeps (λ (v : World S). v.services ≡ A) (access (access w).1) _
                (y.1 ∙ x.1 ∙ a) (λ _. z.1 ∙ y.1 ∙ x.1 ∙ a)),
      )

module _ {S : Type 0} (api : Services S) (config_dir recovery : Text) where
  -- However a change of credentials ends, and whichever of its file accesses and requests fail: when it
  -- completes for Grafana, the administrator has the new login and password, and otherwise the account
  -- is as before; when it is refused, or ends with the error that says that all was kept or put back,
  -- every file and the account are as before; and when it asks for a review, the recovery file was
  -- written.
  pub rotate-IsHonest :
      (is_space : ℕ → Bool) (target : Target) (username password : Text) (web_plan : Result WebPlan)
      (plan : Result GrafanaPlan) (w : World S)
      → IsHonest api config_dir recovery w.files w.services
          (admin_id api plan w.services)
          (wanted api w.services username password (admin_id api plan w.services) target)
          (rotate api config_dir recovery is_space target username password web_plan plan w)
  unfolding rotate
  rotate-IsHonest is_space target username password web_plan plan w =
      let id = admin_id api plan w.services in
      let (f, a) =
        locked api config_dir recovery w.files w.services username password w refl refl in
      refuse-IsHonest api config_dir recovery w.files w.services username password id _ _ _ w refl
        refl
        (after_lock-IsHonest api config_dir recovery w.files w.services username password target
          web_plan plan _ f a)
