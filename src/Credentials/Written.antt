-- ===== src/Credentials/Written.antt =====
-- What the files hold after a change of the console's credentials in services/api/credentials.py.
use android_farm.Prelude.{
  ℕ, codes, Text, text_eq, text_eq_iff, mem, Bool, true, false, ◌&&◌, List, [], ◌∷◌, ◌++◌, map,
  Option, none, some, if◌then◌else◌, Result, ok, err, ◌≡◌, refl, sym, ◌∙◌, ap, arith,
}
use android_farm.Prelude.Dict.{Dict, lookup}
use android_farm.Credentials.{
  web, Change, Services, World, WebPlan, GrafanaPlan, Web, Grafana, Outcome, completed, refused,
  continue, access, write, value_of, apply_each, apply_files, read_changes, environment_changes,
  environment_from, environment_names, with_change, set_variable,
}
use android_farm.Operations.Secrets.{is_username}
use android_farm.Credentials.Account.{refresh, ask, apply_and_refresh}
use android_farm.Credentials.Rotate.{
  recorded, conclude, after_web, recover, end_web, with_environment, change_web, after_grafana,
  change_grafana, change, prepare_web, prepare_grafana, with_grafana, with_web, for_web,
  for_grafana, is_password, after_lock, rotate,
}
use android_farm.Credentials.Steps.{continue-ok, write-value, write-other, environment_from-IsRead}
use android_farm.Credentials.Promise.{locked}

-- the value of a file after some writes: the last one counts
unfoldable pub latest : List (Text × Text) → Text → Option Text → Option Text
latest [] p o = o
latest ((path, content) ∷ ws) p o = latest ws p (if text_eq path p then some content else o)

abbrev writes_of : List Change → List (Text × Text)
writes_of = map (λ c. (c.path, c.after))

latest-++ :
    (cs ds : List Change) (p : Text) (o : Option Text)
    → latest (writes_of (cs ++ ds)) p o ≡ latest (writes_of ds) p (latest (writes_of cs) p o)
unfolding latest
latest-++ [] ds p o = refl
latest-++ (c ∷ cs) ds p o = latest-++ cs ds p _

latest-read :
    (F : Dict Text) (ws : List (Text × Text)) (p : Text) (o : Option Text)
    → latest (writes_of (read_changes F ws)) p o ≡ latest ws p o
unfolding latest read_changes
latest-read F [] p o = refl
latest-read F ((path, content) ∷ ws) p o = latest-read F ws p _

latest-cast :
    (p : Text) (o : Option Text) (ds cs : List Change)
    → ds ≡ cs
    → latest (writes_of ds) p o ≡ o
    → latest (writes_of cs) p o ≡ o
latest-cast p o ds cs e h = cc (h, ap (λ x. latest (writes_of x) p o) e)

abbrev pub environment_paths : Text → List Text → List Text
environment_paths config_dir = map (λ name. config_dir ++ name)

module _ {S : Type 0} where
  write-lookup :
      (path p : Text) (value : Option Text) (w : World S)
      → (write path value w).0 ≡ ok tt
      → lookup p (write path value w).1.files ≡ (if text_eq path p then value else lookup p w.files)
  write-lookup path p value w h = go (text_eq path p) refl
    where
      go :
          (t : Bool)
          → text_eq path p ≡ t
          → lookup p (write path value w).1.files ≡ (if t then value else lookup p w.files)
      go true e =
          ap (λ q. lookup q (write path value w).1.files) (sym ((text_eq_iff path p).0 e))
          ∙ write-value path value w h
      go false e = write-other path p value w e

  apply_each-latest :
      (cs : List Change) (w : World S) (p : Text)
      → (apply_each false cs w).0 ≡ ok tt
      → lookup p (apply_each false cs w).1.files ≡ latest (writes_of cs) p (lookup p w.files)
  unfolding apply_each latest value_of
  apply_each-latest [] w p h = refl
  apply_each-latest (c ∷ cs) w p h =
      let (u, e, f, g) =
        continue-ok (write c.path (some c.after) w) (λ _ v. apply_each false cs v) tt h in
      ap (λ (v : World S). lookup p v.files) g
      ∙ apply_each-latest cs (write c.path (some c.after) w).1 p f
      ∙ ap (latest (writes_of cs) p) (write-lookup c.path p (some c.after) w e)

  -- the changes of the environment write only its files
  unfoldable IsOnly : Text → Result (List Change) × World S → Type 0
  IsOnly p m = (cs : List Change) (o : Option Text) → m.0 ≡ ok cs → latest (writes_of cs) p o ≡ o

  with_change-IsOnly :
      (path key value p : Text) (o : Option Text) (rest : World S → Result (List Change) × World S)
      (w : World S)
      → text_eq path p ≡ false
      → ((v : World S) → IsOnly p (rest v))
      → IsOnly p (with_change path key value o rest w)
  unfolding with_change IsOnly latest
  with_change-IsOnly path key value p none rest w t k = k w
  with_change-IsOnly path key value p (some content) rest w t k = λ cs o e.
      let c : Change = record {
        path = path;
        before = some content;
        after = set_variable key value content;
      } in
      let (u, a, q, r) =
        continue-ok (access w) (λ _ v. continue (rest v) (λ changes u. (ok (c ∷ changes), u))) cs
          e in
      let (ds, m, n, x) =
        continue-ok (rest (access w).1) (λ changes u. (ok (c ∷ changes), u)) cs q in
      latest-cast p o (c ∷ ds) cs (cc n)
        (ap (latest (writes_of ds) p) (ground (arith, t)) ∙ k (access w).1 ds o m)

  environment_from-IsOnly :
      (config_dir key value p : Text) (names : List Text) (w : World S)
      → mem p (environment_paths config_dir names) ≡ false
      → IsOnly p (environment_from config_dir key value names w)
  unfolding environment_from mem IsOnly latest
  environment_from-IsOnly config_dir key value p [] w m =
      λ cs o e. latest-cast p o [] cs (cc e) refl
  environment_from-IsOnly config_dir key value p (name ∷ names) w m =
      with_change-IsOnly (config_dir ++ name) key value p (lookup (config_dir ++ name) w.files)
        (environment_from config_dir key value names) w (ground (arith, m))
        (λ v. environment_from-IsOnly config_dir key value p names v (ground (arith, m)))

  apply_and_refresh-latest :
      (api : Services S) (cs : List Change) (plan : Text) (w : World S) (p : Text)
      → (apply_and_refresh api false cs plan w).0 ≡ ok tt
      → lookup p (apply_and_refresh api false cs plan w).1.files
        ≡ latest (writes_of cs) p (lookup p w.files)
  unfolding apply_and_refresh refresh ask apply_files
  apply_and_refresh-latest api cs plan w p h =
      let (u, e, f, g) = continue-ok (apply_files false cs w) (λ _ v. refresh api plan v) tt h in
      ap (λ (v : World S). lookup p v.files) g ∙ apply_each-latest cs w p e

-- a change that completes leaves the file `p` with the content `o`
unfoldable Leaves : {S : Type 0} → Text → Option Text → Outcome × World S → Type 0
Leaves p o m = m.0 ≡ completed → lookup p m.1.files ≡ o

module _ {S : Type 0} (api : Services S) (config_dir recovery : Text) (p : Text)
    (o : Option Text) where
  recorded-Leaves : (m : Result (Unit {0}) × World S) → Leaves p o (recorded m)
  unfolding recorded Leaves
  recorded-Leaves (ok u, w) h = cc h
  recorded-Leaves (err e, w) h = cc h

  conclude-Leaves :
      (done : Bool) (w : World S) → Leaves p o (conclude api config_dir recovery done w)
  unfolding conclude Leaves
  conclude-Leaves true w = λ h. cc h
  conclude-Leaves false w = recorded-Leaves _

  recover-Leaves :
      (console : Option Web) (monitor : Option Grafana) (w : World S)
      → Leaves p o (recover api config_dir recovery console monitor w)
  unfolding recover after_web
  recover-Leaves console monitor w = conclude-Leaves _ _

  end_web-Leaves :
      (x : Web) (monitor : Option Grafana) (m : Result (Unit {0}) × World S)
      → (m.0 ≡ ok tt → lookup p m.1.files ≡ o)
      → Leaves p o (end_web api config_dir recovery x monitor m)
  unfolding end_web Leaves
  end_web-Leaves x monitor (ok u, w) k = λ h. k refl
  end_web-Leaves x monitor (err e, w) k = recover-Leaves (some x) monitor w

  with_environment-Leaves :
      (x : Web) (monitor : Option Grafana) (m : Result (List Change) × World S)
      → ((more : List Change)
          → m.0 ≡ ok more
          → latest (writes_of (x.changes ++ more)) p (lookup p m.1.files) ≡ o)
      → Leaves p o (with_environment api config_dir recovery x monitor m)
  unfolding with_environment Leaves
  with_environment-Leaves x monitor (err e, w) k = recover-Leaves none monitor w
  with_environment-Leaves x monitor (ok more, w) k =
      end_web-Leaves (record x { changes = x.changes ++ more }) monitor _
        (λ h. apply_and_refresh-latest api (x.changes ++ more) x.plan w p h ∙ k more refl)

module _ {S : Type 0} (api : Services S) (config_dir recovery : Text) where
  change_web-Leaves :
      (F : Dict Text) (plan : WebPlan) (monitor : Option Grafana) (w : World S) (p : Text)
      → w.files ≡ F
      → mem p (environment_paths config_dir environment_names) ≡ false
      → Leaves p (latest plan.writes p (lookup p F)) (
          change_web api config_dir recovery
            (some (record {
              changes = read_changes F plan.writes;
              plan = plan.plan;
              revision = plan.revision;
            }))
            monitor
            w)
  unfolding change_web environment_changes IsOnly
  change_web-Leaves F plan monitor w p f m =
      let x : Web = record {
        changes = read_changes F plan.writes;
        plan = plan.plan;
        revision = plan.revision;
      } in
      let key = codes "FARM_HTTP_AUTH_REVISION" in
      let read =
        environment_from-IsRead F w.services config_dir key plan.revision environment_names w f
          refl in
      with_environment-Leaves api config_dir recovery p (latest plan.writes p (lookup p F)) x
        monitor (environment_from config_dir key plan.revision environment_names w)
        (λ more e.
          latest-++ x.changes more p _
          ∙ environment_from-IsOnly config_dir key plan.revision p environment_names w m more _ e
          ∙ latest-read F plan.writes p _
          ∙ ap (λ (files : Dict Text). latest plan.writes p (lookup p files)) read.0)

  after_lock-Leaves :
      (username password : Text) (plan : WebPlan) (grafana_plan : Result GrafanaPlan)
      (m : Result (Unit {0}) × World S) (p : Text)
      → mem p (environment_paths config_dir environment_names) ≡ false
      → Leaves p
          (latest plan.writes p (lookup p m.1.files))
          (after_lock api config_dir recovery web username password (ok plan) grafana_plan m)
  unfolding after_lock with_web prepare_web prepare_grafana with_grafana change change_grafana
      after_grafana for_web for_grafana Leaves
  after_lock-Leaves username password plan grafana_plan (err e, w) p m = λ h. cc h
  after_lock-Leaves username password plan grafana_plan (ok u, w) p m =
      change_web-Leaves w.files plan none w p refl m

  -- When a change of the console alone completes, each file but those of the environment holds the last
  -- content that the plan has for it, and is as before when the plan does not name it.
  pub rotate-latest :
      (is_space : ℕ → Bool) (username password : Text) (plan : WebPlan)
      (grafana_plan : Result GrafanaPlan) (w : World S) (p : Text)
      → mem p (environment_paths config_dir environment_names) ≡ false
      → (rotate api config_dir recovery is_space web username password (ok plan) grafana_plan w).0
        ≡ completed
      → lookup p
          (rotate api config_dir recovery is_space web username password
            (ok plan)
            grafana_plan
            w).1.files
        ≡ latest plan.writes p (lookup p w.files)
  unfolding rotate Leaves
  rotate-latest is_space username password plan grafana_plan w p m =
      go (is_username username && is_password is_space password)
    where
      lock : Result (Unit {0}) × World S
      lock = continue (access w) (λ _ v. continue (access v) (λ _ u. access u))

      go :
          (t : Bool)
          → Leaves p (latest plan.writes p (lookup p w.files)) (
              if t
              then after_lock api config_dir recovery web username password
                  (ok plan)
                  grafana_plan
                  lock
              else (refused, w))
      go false = λ h. cc h
      go true = λ h.
          after_lock-Leaves username password plan grafana_plan lock p m h
          ∙ ap (λ (files : Dict Text). latest plan.writes p (lookup p files))
              (locked api config_dir recovery w.files w.services username password w refl refl).0
