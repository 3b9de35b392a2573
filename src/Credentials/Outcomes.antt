-- ===== src/Credentials/Outcomes.antt =====
-- The endings of `rotate` of services/api/credentials.py, from the preflight on.
use android_farm.Prelude.{
  ℕ, codes, Text, mem, false, List, [], ◌++◌, Option, none, some, Result, ok, err, ◌≡◌, refl, ◌∙◌,
  ap,
}
use android_farm.Prelude.Dict.{Dict, lookup}
use android_farm.Credentials.{
  Change, Services, World, Web, Grafana, Outcome, environment_changes, environment_names,
}
use android_farm.Credentials.Account.{apply_and_refresh, grafana_set}
use android_farm.Credentials.Rotate.{
  end_web, with_environment, change_web, after_grafana, change_grafana, change,
}
use android_farm.Credentials.Before.{IsSame, AreBefore, AreBefore-++, AreBefore-moved}
use android_farm.Credentials.Steps.{continue-keeps, continue-ok, environment_from-IsRead}
use android_farm.Credentials.Honest.{
  asked, IsHonest, IsReady, written, IsStill, IsUndoable, IsStill-moved, recover-IsHonest,
}
use android_farm.Credentials.Undo.{
  grafana_set-files, grafana_set-account, apply_and_refresh-IsOutside, apply_and_refresh-account,
}

-- what the preflight promises of the console
unfoldable pub IsPlanned : Dict Text → Option Web → Type 0
IsPlanned F none = Unit {0}
IsPlanned F (some x) = AreBefore [] F x.changes

module _ {S : Type 0} (api : Services S) (config_dir recovery : Text) (F : Dict Text) (A : S)
    (id : ℕ) (username password : Text) where
  abbrev Honest : Option (Text × Text) → Outcome × World S → Type 0
  Honest = IsHonest api config_dir recovery F A id

  abbrev Ready : Option Grafana → Type 0
  Ready = IsReady api F A id username password

  abbrev Still : Option Grafana → S → Type 0
  Still = IsStill api A id

  abbrev Undoable : Option Grafana → Option Web → World S → Type 0
  Undoable = IsUndoable api F

  abbrev expected : Option Grafana → Option (Text × Text)
  expected = asked api A id username password

  end_web-Honest :
      (new : Option (Text × Text)) (y : Web) (monitor : Option Grafana)
      (m : Result (Unit {0}) × World S)
      → Ready monitor
      → Undoable monitor (some y) m.1
      → Still monitor m.1.services
      → api.account id m.1.services ≡ new
      → Honest new (end_web api config_dir recovery y monitor m)
  unfolding end_web IsHonest
  end_web-Honest new y monitor (ok u, w) r s t e = e
  end_web-Honest new y monitor (err x, w) r s t e =
      recover-IsHonest api config_dir recovery F A id username password new (some y) monitor w r s t

  with_environment-Honest :
      (new : Option (Text × Text)) (x : Web) (monitor : Option Grafana)
      (m : Result (List Change) × World S) (G : Dict Text)
      → Ready monitor
      → IsSame (written monitor) F m.1.files
      → IsSame (written monitor) F G
      → ((cs : List Change) → m.0 ≡ ok cs → AreBefore [] G cs)
      → AreBefore (written monitor) F x.changes
      → Still monitor m.1.services
      → api.account id m.1.services ≡ new
      → Honest new (with_environment api config_dir recovery x monitor m)
  unfolding with_environment IsUndoable IsSame
  with_environment-Honest new x monitor (err e, w) G r s q c b t a =
      recover-IsHonest api config_dir recovery F A id username password new none monitor w r s t
  with_environment-Honest new x monitor (ok more, w) G r s q c b t a =
      let moved = apply_and_refresh-account api id false (x.changes ++ more) x.plan w in
      end_web-Honest new (record x { changes = x.changes ++ more }) monitor
        (apply_and_refresh api false (x.changes ++ more) x.plan w) r
        (
          AreBefore-++ (written monitor) F x.changes more b
              (AreBefore-moved (written monitor) F G more q (c more refl)),
          apply_and_refresh-IsOutside api (written monitor) F false (x.changes ++ more) x.plan w
              (λ p m n. s p m),
        )
        (IsStill-moved api A id monitor w.services _ moved t) (moved ∙ a)

  change_web-Honest :
      (new : Option (Text × Text)) (console : Option Web) (monitor : Option Grafana) (w : World S)
      → Ready monitor
      → IsSame (written monitor) F w.files
      → IsPlanned F console
      → Still monitor w.services
      → api.account id w.services ≡ new
      → Honest new (change_web api config_dir recovery console monitor w)
  unfolding change_web IsHonest IsPlanned environment_changes IsSame
  change_web-Honest new none monitor w r s b t a = a
  change_web-Honest new (some x) monitor w r s b t a =
      let (f, g, c) =
        environment_from-IsRead w.files w.services config_dir (codes "FARM_HTTP_AUTH_REVISION")
          x.revision environment_names w refl refl in
      with_environment-Honest new x monitor _ w.files r (λ p m. ap (lookup p) f ∙ s p m) s c
        (AreBefore-moved (written monitor) F F x.changes (λ p m. refl) b)
        (IsStill-moved api A id monitor w.services _ (ap (api.account id) g) t)
        (ap (api.account id) g ∙ a)

  change_grafana-kept :
      (monitor : Option Grafana) (w : World S)
      → w.files ≡ F
      → IsSame (written monitor) F (change_grafana api monitor w).1.files
  unfolding change_grafana written IsSame mem
  change_grafana-kept none w f p m = ap (lookup p) f
  change_grafana-kept (some g) w f p m =
      let set = grafana_set api g.profile g.old_user g.old_password g.username g.password w in
      let same : set.1.files ≡ F =
        grafana_set-files api g.profile g.old_user g.old_password g.username g.password w ∙ f in
      continue-keeps (λ (v : World S). lookup p v.files ≡ lookup p F) set _ (ap (lookup p) same)
        (λ _.
          apply_and_refresh-IsOutside api [] F false g.changes g.plan set.1
            (λ q x y. ap (lookup q) same) p refl m)

  change_grafana-asked :
      (monitor : Option Grafana) (w : World S)
      → w.services ≡ A
      → Ready monitor
      → (change_grafana api monitor w).0 ≡ ok tt
      → api.account id (change_grafana api monitor w).1.services ≡ expected monitor
  unfolding change_grafana IsReady asked
  change_grafana-asked none w a r h = ap (api.account id) a
  change_grafana-asked (some g) w a (i, o, n, b) h =
      let (u, e, f, k) =
        continue-ok (grafana_set api g.profile g.old_user g.old_password g.username g.password w)
          (λ _ v. apply_and_refresh api false g.changes g.plan v) tt h in
      ap (λ (v : World S). api.account id v.services) k
      ∙ apply_and_refresh-account api id false g.changes g.plan _
      ∙ cc (
        grafana_set-account api g.profile g.old_user g.old_password g.username g.password w e,
        i,
        n.0,
        n.1,
      )

  after_grafana-Honest :
      (console : Option Web) (monitor : Option Grafana) (m : Result (Unit {0}) × World S)
      → Ready monitor
      → IsPlanned F console
      → IsSame (written monitor) F m.1.files
      → Still monitor m.1.services
      → (m.0 ≡ ok tt → api.account id m.1.services ≡ expected monitor)
      → Honest (expected monitor) (after_grafana api config_dir recovery console monitor m)
  unfolding after_grafana IsUndoable
  after_grafana-Honest console monitor (err e, w) r b s t a =
      recover-IsHonest api config_dir recovery F A id username password (expected monitor) none
        monitor w r s t
  after_grafana-Honest console monitor (ok u, w) r b s t a =
      change_web-Honest (expected monitor) console monitor w r s b t (a refl)

  Still-changed :
      (monitor : Option Grafana) (w : World S)
      → w.services ≡ A
      → Still monitor (change_grafana api monitor w).1.services
  unfolding change_grafana IsStill
  Still-changed none w a = ap (api.account id) a
  Still-changed (some g) w a = tt

  pub change-Honest :
      (console : Option Web) (monitor : Option Grafana) (w : World S)
      → w.files ≡ F
      → w.services ≡ A
      → Ready monitor
      → IsPlanned F console
      → Honest (expected monitor) (change api config_dir recovery console monitor w)
  unfolding change
  change-Honest console monitor w f a r b =
      after_grafana-Honest console monitor (change_grafana api monitor w) r b
        (change_grafana-kept monitor w f) (Still-changed monitor w a)
        (change_grafana-asked monitor w a r)
