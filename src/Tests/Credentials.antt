-- ===== src/Tests/Credentials.antt =====
-- The theorem on a change of credentials (services/api/credentials.py) at a concrete farm.
use android_farm.Prelude.{
  ℕ, ◌≡◌, refl, Text, codes, text_eq, text_eq_iff, mem, leb, Bool, true, false, ◌&&◌, ◌==◌, List,
  [], ◌∷◌, Option, none, some, if◌then◌else◌, Result, ok, err, runtime_error, arith,
}
use android_farm.Prelude.Dict.{lookup, insert}
use android_farm.Proxy
use android_farm.Operations.Secrets.{is_username, utf8_length, is_trimmed}
use android_farm.Credentials.{
  web, environment_names, platform, Profile, Services, World, WebPlan, GrafanaPlan, completed,
  restored, environment_changes, apply_files, read_changes, value_of, reversed,
}
use android_farm.Credentials.Account.{grafana_set, apply_and_refresh, recover_web, recover_grafana}
use android_farm.Credentials.Rotate.{rotate}
use android_farm.Credentials.Honest.{IsHonest}
use android_farm.Credentials.Preflight.{admin_id, wanted}
use android_farm.Credentials.Promise.{rotate-IsHonest}
use android_farm.Credentials.Written.{latest, environment_paths, rotate-latest}

-- one account with its login and its password
abbrev Account : Type 0
Account = Text × Text

unfoldable find_account : Text → Text → Account → Result Profile
find_account user password (u, p) =
    if text_eq u user && text_eq p password
    then ok (record { id = 1; login = u; is_admin = true })
    else err (runtime_error "unauthorized")

unfoldable change_account : Account → Text → Text → Account → Result (Unit {0}) × Account
change_account b user password (u, p) =
    if text_eq u user && text_eq p password
    then (ok tt, b)
    else (err (runtime_error "unauthorized"), (u, p))

unfoldable known_account : ℕ → Account → Option (Text × Text)
known_account id (u, p) = if id == 1 then some (u, p) else none

find_account-known :
    (user password : Text) (a : Account) (profile : Profile)
    → find_account user password a ≡ ok profile
    → known_account profile.id a ≡ some (profile.login, password)
unfolding find_account known_account
find_account-known user password (u, p) profile h = ground (arith, h, text_eq_iff p password)

abbrev api : Services Account
api = record {
  get = find_account;
  put_password = λ user old new a. change_account (a.0, new) user old a;
  put_login = λ profile user password login a. change_account (login, a.1) user password a;
  start = λ plan files a. (ok tt, a);
  account = known_account;
  get-account = find_account-known;
  start-account = λ id plan files a. refl;
}

abbrev web_plan : WebPlan
web_plan = record {
  writes =
      (codes "/auth", codes "operator:$2new")
      ∷ (codes "/etc/web-login-password", codes "a longer password")
      ∷ [];
  plan = codes "android-farm-gateway-secret-init";
  revision = codes "5d";
}

abbrev grafana_plan : GrafanaPlan
grafana_plan = record {
  old_user = codes "admin";
  old_password = codes "the old password";
  writes = (codes "/etc/grafana-admin-password", codes "a longer password") ∷ [];
  plan = codes "android-farm-grafana-secret-init";
}

-- a farm of which some accesses to files fail
abbrev farm : List Bool → World Account
farm failing = record {
  files =
      (codes "/auth", codes "operator:$2old")
      ∷ (codes "/etc/grafana-admin-password", codes "the old password")
      ∷ (codes "/etc/compose.env", codes "A=1")
      ∷ [];
  failing = failing;
  services = (codes "admin", codes "the old password");
}

-- the second file of the console cannot be written
abbrev failing : List Bool
failing = false ∷ false ∷ false ∷ false ∷ false ∷ false ∷ false ∷ false ∷ true ∷ []

abbrev is_space : ℕ → Bool
is_space c = leb c 32

rotate-IsHonest_example :
    IsHonest api
      (codes "/etc")
      (codes "{}")
      (farm failing).files
      (farm failing).services
      (admin_id api (ok grafana_plan) (farm failing).services)
      (wanted api
        (farm failing).services
        (codes "operator")
        (codes "a longer password")
        (admin_id api (ok grafana_plan) (farm failing).services)
        platform)
      (rotate api
        (codes "/etc")
        (codes "{}")
        is_space
        platform
        (codes "operator")
        (codes "a longer password")
        (ok web_plan)
        (ok grafana_plan)
        (farm failing))
rotate-IsHonest_example =
    rotate-IsHonest api (codes "/etc") (codes "{}") is_space platform (codes "operator")
      (codes "a longer password") (ok web_plan) (ok grafana_plan) (farm failing)

put_back :
    (rotate api
      (codes "/etc")
      (codes "{}")
      is_space
      platform
      (codes "operator")
      (codes "a longer password")
      (ok web_plan)
      (ok grafana_plan)
      (farm failing)).0
    ≡ restored
unfolding rotate find_account change_account known_account is_username utf8_length is_trimmed
    Proxy.last_of text_eq environment_changes lookup grafana_set apply_and_refresh apply_files
    read_changes value_of insert recover_web reversed recover_grafana
put_back = refl

changed :
    (rotate api
      (codes "/etc")
      (codes "{}")
      is_space
      platform
      (codes "operator")
      (codes "a longer password")
      (ok web_plan)
      (ok grafana_plan)
      (farm [])).0
    ≡ completed
unfolding rotate find_account change_account known_account is_username utf8_length is_trimmed
    Proxy.last_of text_eq environment_changes lookup grafana_set apply_and_refresh apply_files
    read_changes value_of insert
changed = refl

console_changed :
    (rotate api
      (codes "/etc")
      (codes "{}")
      is_space
      web
      (codes "operator")
      (codes "a longer password")
      (ok web_plan)
      (ok grafana_plan)
      (farm [])).0
    ≡ completed
unfolding rotate find_account change_account known_account is_username utf8_length is_trimmed
    Proxy.last_of text_eq environment_changes lookup grafana_set apply_and_refresh apply_files
    read_changes value_of insert
console_changed = refl

named : mem (codes "/auth") (environment_paths (codes "/etc") environment_names) ≡ false
unfolding mem text_eq
named = refl

rotate-latest_example :
    lookup
      (codes "/auth")
      (rotate api
        (codes "/etc")
        (codes "{}")
        is_space
        web
        (codes "operator")
        (codes "a longer password")
        (ok web_plan)
        (ok grafana_plan)
        (farm [])).1.files
    ≡ some (codes "operator:$2new")
unfolding latest lookup text_eq
rotate-latest_example =
    rotate-latest api (codes "/etc") (codes "{}") is_space (codes "operator")
      (codes "a longer password") web_plan (ok grafana_plan) (farm []) (codes "/auth") named
      console_changed
