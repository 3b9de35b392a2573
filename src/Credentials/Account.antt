-- ===== src/Credentials/Account.antt =====
-- The account of Grafana in services/api/credentials.py, and how an account and its files are put back.
use android_farm.Prelude.{
  ◌==◌, Text, text_eq, Bool, true, false, not, ◌||◌, List, [], ◌∷◌, Option, none, some,
  if◌then◌else◌, Result, ok, err, runtime_error, raise_if,
}
use android_farm.Credentials.{Change, Profile, Services, World, Web, Grafana, continue, apply_files}

module _ {S : Type 0} (api : Services S) where
  -- a request that changes the services
  unfoldable pub ask : (S → Result (Unit {0}) × S) → World S → Result (Unit {0}) × World S
  ask f w = ((f w.services).0, record w { services = (f w.services).1 })

  -- `_refresh`
  unfoldable pub refresh : Text → World S → Result (Unit {0}) × World S
  unfolding ask
  refresh plan w = ask (api.start plan w.files) w

  unfoldable pub set_password : Text → Text → Text → World S → Result (Unit {0}) × World S
  unfolding ask
  set_password user old password w =
      if text_eq old password then (ok tt, w) else ask (api.put_password user old password) w

  unfoldable pub set_login : Profile → Text → Text → Text → World S → Result (Unit {0}) × World S
  unfolding ask
  set_login profile user password login w =
      if text_eq user login then (ok tt, w) else ask (api.put_login profile user password login) w

  unfoldable pub is_account : Profile → Text → Result Profile → Result (Unit {0})
  is_account profile login (err e) = err e
  is_account profile login (ok verified) =
      raise_if (not (verified.id == profile.id) || not (text_eq verified.login login))
        (runtime_error "the final check of the Grafana account failed")

  -- `_grafana_set`
  unfoldable pub grafana_set :
      Profile → Text → Text → Text → Text → World S → Result (Unit {0}) × World S
  unfolding continue set_password set_login is_account
  grafana_set profile source_user source_password username password w =
      continue (set_password source_user source_password password w) (λ _ v.
        continue (set_login profile source_user password username v)
          (λ _ u. (is_account profile username (api.get username password u.services), u)))

  -- the body of `_grafana_rollback` for one pair that may work
  unfoldable pub restore_from :
      Grafana → Text → Text → Result Profile → World S → Result (Unit {0}) × World S
  unfolding continue grafana_set refresh
  restore_from g user password (err e) w = (err e, w)
  restore_from g user password (ok current) w =
      let restored =
        continue (grafana_set g.profile user password g.old_user g.old_password w)
          (λ _ v. continue (apply_files true g.changes v) (λ _ u. refresh g.plan u)) in
      if current.id == g.profile.id then restored else (err (runtime_error "another account"), w)

  unfoldable pub try_next :
      Result (Unit {0}) × World S → (World S → Bool × World S) → Bool × World S
  try_next (ok _, w) rest = (true, w)
  try_next (err e, w) rest = rest w

  unfoldable pub try_pairs : Grafana → List (Text × Text) → World S → Bool × World S
  unfolding restore_from try_next
  try_pairs g [] w = (false, w)
  try_pairs g ((user, password) ∷ pairs) w =
      try_next (restore_from g user password (api.get user password w.services) w)
        (try_pairs g pairs)

  -- `_grafana_rollback`, and whether it returns
  unfoldable pub grafana_rollback : Grafana → World S → Bool × World S
  unfolding try_pairs
  grafana_rollback g w =
      try_pairs g
        ((g.username, g.password) ∷ (g.old_user, g.password) ∷ (g.old_user, g.old_password) ∷ []) w

  unfoldable pub is_ok : Result (Unit {0}) × World S → Bool × World S
  is_ok (ok _, w) = (true, w)
  is_ok (err e, w) = (false, w)

  -- the files of an account and the container that copies them
  unfoldable pub apply_and_refresh :
      Bool → List Change → Text → World S → Result (Unit {0}) × World S
  unfolding continue refresh
  apply_and_refresh rollback changes plan w =
      continue (apply_files rollback changes w) (λ _ v. refresh plan v)

  -- the parts of the handler of errors
  unfoldable pub recover_web : Option Web → World S → Bool × World S
  unfolding is_ok apply_and_refresh
  recover_web none w = (true, w)
  recover_web (some x) w = is_ok (apply_and_refresh true x.changes x.plan w)

  unfoldable pub recover_grafana : Option Grafana → World S → Bool × World S
  unfolding grafana_rollback
  recover_grafana none w = (true, w)
  recover_grafana (some g) w = grafana_rollback g w
