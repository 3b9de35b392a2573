-- ===== src/Credentials/Rotate.antt =====
-- `CredentialManager.rotate` of services/api/credentials.py.
use android_farm.Prelude.{
  ℕ, leb, ltb, ◌==◌, Text, codes, text_eq, Bool, true, false, not, ◌&&◌, ◌||◌, List, ◌++◌, any,
  Option, none, some, if◌then◌else◌, Result, ok, err, runtime_error, raise_if,
}
use android_farm.Prelude.Dict.{Dict}
use android_farm.Operations.Secrets.{is_username, utf8_length, is_trimmed}
use android_farm.Credentials.{
  Target, web, grafana, Change, Profile, Services, World, WebPlan, GrafanaPlan, Web, Grafana,
  Outcome, completed, refused, restored, review, unrecorded, continue, access, write, read_changes,
  environment_changes,
}
use android_farm.Credentials.Account.{grafana_set, recover_web, recover_grafana, apply_and_refresh}

abbrev pub recovery_path : Text → Text
recovery_path config_dir = config_dir ++ codes "/credential-recovery.json"

unfoldable pub check_profile : Text → Profile → Result (Unit {0})
check_profile user profile =
    raise_if (leb profile.id 0 || not profile.is_admin || not (text_eq profile.login user))
      (runtime_error "the stored account is no administrator of Grafana")

unfoldable pub plan_grafana :
    GrafanaPlan → Text → Text → Dict Text → Profile → List Change → Grafana
plan_grafana p username password files profile more = record {
  profile = profile;
  old_user = p.old_user;
  old_password = p.old_password;
  username = username;
  password = password;
  changes = read_changes files p.writes ++ more;
  plan = p.plan;
}

-- which of the two the target has
unfoldable pub for_web {ℓ} : {A : Type ℓ} → Target → A → Option A
for_web grafana a = none
for_web _ a = some a

unfoldable pub for_grafana {ℓ} : {A : Type ℓ} → Target → A → Option A
for_grafana web a = none
for_grafana _ a = some a

-- `validate_credentials`
unfoldable pub byte_length : Result ℕ → ℕ
byte_length (ok n) = n
byte_length (err e) = 0

unfoldable pub is_password : (ℕ → Bool) → Text → Bool
unfolding byte_length
is_password is_space password =
    leb 12 (byte_length (utf8_length password))
    && leb (byte_length (utf8_length password)) 72
    && is_trimmed is_space password
    && not (any (λ c. ltb c 32 || c == 127) password)

module _ {S : Type 0} where
  unfoldable pub recorded : Result (Unit {0}) × World S → Outcome × World S
  recorded (ok _, w) = (review, w)
  recorded (err e, w) = (unrecorded, w)

  -- the preflight: the plan of the account, its current profile, and the files as they are
  unfoldable pub prepare_web : Option (Result WebPlan) → World S → Result (Option Web)
  prepare_web none w = ok none
  prepare_web (some (err e)) w = err e
  prepare_web (some (ok p)) w = ok (
      some
        (record { changes = read_changes w.files p.writes; plan = p.plan; revision = p.revision }))

module _ {S : Type 0} (api : Services S) where
  unfoldable pub change_grafana : Option Grafana → World S → Result (Unit {0}) × World S
  unfolding continue
  change_grafana none w = (ok tt, w)
  change_grafana (some g) w =
      continue (grafana_set api g.profile g.old_user g.old_password g.username g.password w)
        (λ _ v. apply_and_refresh api false g.changes g.plan v)

module _ {S : Type 0} (api : Services S) (config_dir recovery : Text) where
  unfoldable pub conclude : Bool → World S → Outcome × World S
  unfolding recorded
  conclude true w = (restored, w)
  conclude false w = recorded (write (recovery_path config_dir) (some recovery) w)

  -- the handler of errors: what was attempted is put back, the console first
  unfoldable pub after_web : Option Grafana → Bool × World S → Outcome × World S
  unfolding conclude
  after_web monitor (done, w) =
      conclude (done && (recover_grafana api monitor w).0) (recover_grafana api monitor w).1

  unfoldable pub recover : Option Web → Option Grafana → World S → Outcome × World S
  unfolding after_web
  recover console monitor w = after_web monitor (recover_web api console w)

  unfoldable pub end_web : Web → Option Grafana → Result (Unit {0}) × World S → Outcome × World S
  unfolding recover
  end_web x monitor (ok _, w) = (completed, w)
  end_web x monitor (err e, w) = recover (some x) monitor w

  unfoldable pub with_environment :
      Web → Option Grafana → Result (List Change) × World S → Outcome × World S
  unfolding end_web recover
  with_environment x monitor (err e, w) = recover none monitor w
  with_environment x monitor (ok more, w) =
      let y = record x { changes = x.changes ++ more } in
      end_web y monitor (apply_and_refresh api false y.changes y.plan w)

  unfoldable pub change_web : Option Web → Option Grafana → World S → Outcome × World S
  unfolding with_environment
  change_web none monitor w = (completed, w)
  change_web (some x) monitor w =
      with_environment x monitor
        (environment_changes config_dir (codes "FARM_HTTP_AUTH_REVISION") x.revision w)

  unfoldable pub after_grafana :
      Option Web → Option Grafana → Result (Unit {0}) × World S → Outcome × World S
  unfolding recover change_web
  after_grafana console monitor (err e, w) = recover none monitor w
  after_grafana console monitor (ok _, w) = change_web console monitor w

  unfoldable pub change : Option Web → Option Grafana → World S → Outcome × World S
  unfolding after_grafana change_grafana
  change console monitor w = after_grafana console monitor (change_grafana api monitor w)

  unfoldable pub prepare_profile :
      GrafanaPlan → Text → Text → Result Profile → World S → Result (Option Grafana) × World S
  unfolding check_profile plan_grafana continue
  prepare_profile p username password (err e) w = (err e, w)
  prepare_profile p username password (ok profile) w =
      continue (check_profile p.old_user profile, w)
        (λ _ v.
          continue (environment_changes config_dir (codes "GRAFANA_ADMIN_USER") username v)
            (λ more u. (ok (some (plan_grafana p username password v.files profile more)), u)))

  unfoldable pub prepare_grafana :
      Option (Result GrafanaPlan) → Text → Text → World S → Result (Option Grafana) × World S
  unfolding prepare_profile
  prepare_grafana none username password w = (ok none, w)
  prepare_grafana (some (err e)) username password w = (err e, w)
  prepare_grafana (some (ok p)) username password w =
      prepare_profile p username password (api.get p.old_user p.old_password w.services) w

  unfoldable pub with_grafana : Option Web → Result (Option Grafana) × World S → Outcome × World S
  unfolding recover change
  with_grafana console (err e, w) = recover none none w
  with_grafana console (ok monitor, w) = change console monitor w

  unfoldable pub with_web :
      Option (Result GrafanaPlan) → Text → Text → World S → Result (Option Web) → Outcome × World S
  unfolding recover with_grafana prepare_grafana
  with_web monitor username password w (err e) = recover none none w
  with_web monitor username password w (ok console) =
      with_grafana console (prepare_grafana monitor username password w)

  -- `rotate`; the first three accesses are the two directories and the lock
  unfoldable pub after_lock :
      Target
      → Text
      → Text
      → Result WebPlan
      → Result GrafanaPlan
      → Result (Unit {0}) × World S
      → Outcome × World S
  unfolding with_web prepare_web for_web for_grafana
  after_lock target username password web_plan grafana_plan (err e, w) = (refused, w)
  after_lock target username password web_plan grafana_plan (ok _, w) =
      with_web (for_grafana target grafana_plan) username password w
        (prepare_web (for_web target web_plan) w)

  unfoldable pub rotate :
      (ℕ → Bool)
      → Target
      → Text
      → Text
      → Result WebPlan
      → Result GrafanaPlan
      → World S
      → Outcome × World S
  unfolding after_lock is_password continue access
  rotate is_space target username password web_plan grafana_plan w =
      let rest =
        after_lock target username password web_plan grafana_plan
          (continue (access w) (λ _ v. continue (access v) (λ _ u. access u))) in
      if is_username username && is_password is_space password then rest else (refused, w)
