-- ===== src/Credentials/Honest.antt =====
-- What `rotate` of services/api/credentials.py leaves, for each of its endings.
use android_farm.Prelude.{
  ℕ, Text, Bool, true, false, List, [], Option, none, some, Result, ok, err, ◌≡◌, refl, ◌∙◌,
}
use android_farm.Prelude.Dict.{Dict, lookup}
use android_farm.Credentials.{
  Services, World, Web, Grafana, Outcome, completed, refused, restored, review, unrecorded, write,
}
use android_farm.Credentials.Account.{is_ok, apply_and_refresh, recover_web, recover_grafana}
use android_farm.Credentials.Rotate.{recovery_path, recorded, conclude, after_web, recover}
use android_farm.Credentials.Before.{paths, IsSame, AreBefore}
use android_farm.Credentials.Steps.{write-value}
use android_farm.Credentials.Undo.{
  IsOutside, grafana_rollback-IsUndone, apply_and_refresh-account, apply_and_refresh-undone,
}

module _ {S : Type 0} (api : Services S) (F : Dict Text) (A : S) (id : ℕ) where
  -- the files and the account are as they were
  unfoldable pub IsKept : World S → Type 0
  IsKept w = IsSame [] F w.files × (api.account id w.services ≡ api.account id A)

  -- the preflight read the files and the account as they were
  unfoldable pub IsReady : Text → Text → Option Grafana → Type 0
  IsReady username password none = Unit {0}
  IsReady username password (some g) =
      (g.profile.id ≡ id)
      × (api.account id A ≡ some (g.old_user, g.old_password))
      × ((g.username ≡ username) × (g.password ≡ password))
      × AreBefore [] F g.changes

module _ {S : Type 0} (api : Services S) (A : S) (id : ℕ) where
  -- the account that the change asks for
  unfoldable pub asked : Text → Text → Option Grafana → Option (Text × Text)
  asked username password none = api.account id A
  asked username password (some g) = some (username, password)

  -- without a change of Grafana its account stays
  unfoldable pub IsStill : Option Grafana → S → Type 0
  IsStill none s = api.account id s ≡ api.account id A
  IsStill (some g) s = Unit {0}

  pub IsStill-moved :
      (monitor : Option Grafana) (s t : S)
      → api.account id t ≡ api.account id s
      → IsStill monitor s
      → IsStill monitor t
  unfolding IsStill
  IsStill-moved none s t e h = e ∙ h
  IsStill-moved (some g) s t e h = tt

-- the files of the account, which may have been written
unfoldable pub written : Option Grafana → List Text
written none = []
written (some g) = paths g.changes

module _ {S : Type 0} (api : Services S) (config_dir recovery : Text) (F : Dict Text) (A : S)
    (id : ℕ) where
  -- what each ending promises
  unfoldable pub IsHonest : Option (Text × Text) → Outcome × World S → Type 0
  IsHonest new (completed, w) = api.account id w.services ≡ new
  IsHonest new (refused, w) = IsKept api F A id w
  IsHonest new (restored, w) = IsKept api F A id w
  IsHonest new (review, w) = lookup (recovery_path config_dir) w.files ≡ some recovery
  IsHonest new (unrecorded, w) = Unit {0}

-- what the console's files need for being put back
unfoldable pub IsUndoable :
    {S : Type 0} → Services S → Dict Text → Option Grafana → Option Web → World S → Type 0
IsUndoable api F monitor none w = IsSame (written monitor) F w.files
IsUndoable api F monitor (some x) w =
    AreBefore (written monitor) F x.changes × IsOutside api (written monitor) x.changes F w

module _ {S : Type 0} (api : Services S) (config_dir recovery : Text) (F : Dict Text) (A : S)
    (id : ℕ) (username password : Text) where
  conclude-IsHonest :
      (new : Option (Text × Text)) (done : Bool) (w : World S)
      → (done ≡ true → IsKept api F A id w)
      → IsHonest api config_dir recovery F A id new (conclude api config_dir recovery done w)
  unfolding conclude IsHonest
  conclude-IsHonest new true w k = k refl
  conclude-IsHonest new false w k =
      go (write path (some recovery) w) (write-value path (some recovery) w)
    where
      path : Text
      path = recovery_path config_dir

      go :
          (m : Result (Unit {0}) × World S)
          → (m.0 ≡ ok tt → lookup path m.1.files ≡ some recovery)
          → IsHonest api config_dir recovery F A id new (recorded m)
      go (ok u, v) h = h refl
      go (err e, v) h = tt

  recover_grafana-IsKept :
      (monitor : Option Grafana) (w : World S)
      → IsReady api F A id username password monitor
      → IsSame (written monitor) F w.files
      → IsStill api A id monitor w.services
      → (recover_grafana api monitor w).0 ≡ true
      → IsKept api F A id (recover_grafana api monitor w).1
  unfolding recover_grafana IsReady IsStill written IsKept IsSame
  recover_grafana-IsKept none w r s t h = (s, t)
  recover_grafana-IsKept (some g) w (i, o, n, b) s t h =
      let (f, a) = grafana_rollback-IsUndone api [] F g w b (λ p x y. s p y) h in (f, cc (a, i, o))

  after_web-IsHonest :
      (new : Option (Text × Text)) (monitor : Option Grafana) (done : Bool) (w : World S)
      → IsReady api F A id username password monitor
      → (done ≡ true → IsSame (written monitor) F w.files × IsStill api A id monitor w.services)
      → IsHonest api config_dir recovery F A id new
          (after_web api config_dir recovery monitor (done, w))
  unfolding after_web
  after_web-IsHonest new monitor true w r k =
      conclude-IsHonest new _ _ (λ h. recover_grafana-IsKept monitor w r (k refl).0 (k refl).1 h)
  after_web-IsHonest new monitor false w r k = conclude-IsHonest new false _ (λ h. cc h)

  recover_web-kept :
      (console : Option Web) (monitor : Option Grafana) (w : World S)
      → IsUndoable api F monitor console w
      → IsStill api A id monitor w.services
      → (recover_web api console w).0 ≡ true
      → IsSame (written monitor) F (recover_web api console w).1.files
        × IsStill api A id monitor (recover_web api console w).1.services
  unfolding recover_web IsUndoable
  recover_web-kept none monitor w s t h = (s, t)
  recover_web-kept (some x) monitor w (b, s) t h =
      go (apply_and_refresh api true x.changes x.plan w)
        (apply_and_refresh-undone api (written monitor) F x.changes x.plan w b s)
        (IsStill-moved api A id monitor w.services _
          (apply_and_refresh-account api id true x.changes x.plan w) t)
        h
    where
      go :
          (m : Result (Unit {0}) × World S)
          → (m.0 ≡ ok tt → IsSame (written monitor) F m.1.files)
          → IsStill api A id monitor m.1.services
          → (is_ok api m).0 ≡ true
          → IsSame (written monitor) F (is_ok api m).1.files
            × IsStill api A id monitor (is_ok api m).1.services
      go (ok u, v) k t h = (k refl, t)
      go (err e, v) k t h = cc h

  pub recover-IsHonest :
      (new : Option (Text × Text)) (console : Option Web) (monitor : Option Grafana) (w : World S)
      → IsReady api F A id username password monitor
      → IsUndoable api F monitor console w
      → IsStill api A id monitor w.services
      → IsHonest api config_dir recovery F A id new
          (recover api config_dir recovery console monitor w)
  unfolding recover
  recover-IsHonest new console monitor w r s t =
      after_web-IsHonest new monitor (recover_web api console w).0 (recover_web api console w).1 r
        (recover_web-kept console monitor w s t)
