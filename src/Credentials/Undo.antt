-- ===== src/Credentials/Undo.antt =====
-- What `_grafana_set` and `_grafana_rollback` of services/api/credentials.py leave when they return.
use android_farm.Prelude.{
  ℕ, ◌==◌, Text, text_eq_iff, mem, Bool, true, false, List, [], ◌∷◌, some, if◌then◌else◌, Result,
  ok, err, ◌≡◌, refl, ◌∙◌, ap, arith, runtime_error,
}
use android_farm.Prelude.Dict.{Dict, lookup}
use android_farm.Credentials.{Change, Profile, Services, World, Grafana, continue, apply_files}
use android_farm.Credentials.Account.{
  ask, refresh, set_password, set_login, is_account, grafana_set, apply_and_refresh, restore_from,
  try_next, try_pairs, grafana_rollback,
}
use android_farm.Credentials.Before.{paths, IsSame, AreBefore}
use android_farm.Credentials.Steps.{
  continue-keeps, continue-ok, apply_files-services, apply_files-other, apply_files-undoes,
}

module _ {S : Type 0} (api : Services S) where
  set_password-files :
      (user old password : Text) (w : World S)
      → (set_password api user old password w).1.files ≡ w.files
  unfolding set_password ask
  set_password-files user old password w = ground arith

  set_login-files :
      (profile : Profile) (user password login : Text) (w : World S)
      → (set_login api profile user password login w).1.files ≡ w.files
  unfolding set_login ask
  set_login-files profile user password login w = ground arith

  pub grafana_set-files :
      (profile : Profile) (u p user password : Text) (w : World S)
      → (grafana_set api profile u p user password w).1.files ≡ w.files
  unfolding grafana_set
  grafana_set-files profile u p user password w =
      continue-keeps (λ (v : World S). v.files ≡ w.files) (set_password api u p password w) _
        (set_password-files u p password w)
        (λ _.
          continue-keeps (λ (v : World S). v.files ≡ w.files)
            (set_login api profile u password user (set_password api u p password w).1) _
            (set_login-files profile u password user _ ∙ set_password-files u p password w)
            (λ _. set_login-files profile u password user _ ∙ set_password-files u p password w))

  is_account-ok :
      (profile : Profile) (user password : Text) (s : S)
      → is_account api profile user (api.get user password s) ≡ ok tt
      → api.account profile.id s ≡ some (user, password)
  unfolding is_account
  is_account-ok profile user password s e = go (api.get user password s) refl e
    where
      go :
          (r : Result Profile)
          → api.get user password s ≡ r
          → is_account api profile user r ≡ ok tt
          → api.account profile.id s ≡ some (user, password)
      go (err x) f h = cc h
      go (ok v) f h = let (i, l) = same v h in cc (api.get-account user password s v f, i, l)
        where
          same :
              (v : Profile)
              → is_account api profile user (ok v) ≡ ok tt
              → (v.id ≡ profile.id) × (v.login ≡ user)
          same v h = ground (arith, h, text_eq_iff v.login user)

  -- when it returns, the account has the new login and password
  pub grafana_set-account :
      (profile : Profile) (u p user password : Text) (w : World S)
      → (grafana_set api profile u p user password w).0 ≡ ok tt
      → api.account profile.id (grafana_set api profile u p user password w).1.services
        ≡ some (user, password)
  unfolding grafana_set
  grafana_set-account profile u p user password w h =
      let (a, e, f, g) = continue-ok (set_password api u p password w) _ tt h in
      let (b, x, y, z) =
        continue-ok (set_login api profile u password user (set_password api u p password w).1) _ tt
          f in
      ap (λ (v : World S). api.account profile.id v.services) (g ∙ z)
      ∙ is_account-ok profile user password _ y

  -- outside of some paths the files are those of `F`
  abbrev pub IsOutside : List Text → List Change → Dict Text → World S → Type 0
  IsOutside X cs F w =
      (p : Text) → mem p X ≡ false → mem p (paths cs) ≡ false → lookup p w.files ≡ lookup p F

  restored_files :
      (X : List Text) (F : Dict Text) (g : Grafana) (user password : Text) (w : World S)
      → IsOutside X g.changes F w
      → IsOutside X g.changes F
          (grafana_set api g.profile user password g.old_user g.old_password w).1
  restored_files X F g user password w s p m n =
      ap (lookup p) (grafana_set-files g.profile user password g.old_user g.old_password w)
      ∙ s p m n

  restore_from-IsOutside :
      (X : List Text) (F : Dict Text) (g : Grafana) (user password : Text) (r : Result Profile)
      (w : World S)
      → IsOutside X g.changes F w
      → IsOutside X g.changes F (restore_from api g user password r w).1
  unfolding restore_from refresh ask
  restore_from-IsOutside X F g user password (err e) w s = s
  restore_from-IsOutside X F g user password (ok v) w s = go (v.id == g.profile.id)
    where
      set : Result (Unit {0}) × World S
      set = grafana_set api g.profile user password g.old_user g.old_password w

      go :
          (t : Bool)
          → IsOutside X g.changes F
              (if t
                then continue set
                    (λ _ v. continue (apply_files true g.changes v) (λ _ u. refresh api g.plan u))
                else (err (runtime_error "another account"), w)).1
      go false = s
      go true =
          continue-keeps (IsOutside X g.changes F) set _ (restored_files X F g user password w s)
            (λ _.
              continue-keeps (IsOutside X g.changes F) (apply_files true g.changes set.1) _
                (apply_files-other true g.changes X F set.1
                  (restored_files X F g user password w s))
                (λ _.
                  apply_files-other true g.changes X F set.1
                    (restored_files X F g user password w s)))

  -- the files are those of `F`, and the account has its old login and password
  abbrev pub IsUndone : List Text → Dict Text → Grafana → World S → Type 0
  IsUndone X F g w =
      IsSame X F w.files × (api.account g.profile.id w.services ≡ some (g.old_user, g.old_password))

  restore_from-IsUndone :
      (X : List Text) (F : Dict Text) (g : Grafana) (user password : Text) (r : Result Profile)
      (w : World S)
      → AreBefore X F g.changes
      → IsOutside X g.changes F w
      → (restore_from api g user password r w).0 ≡ ok tt
      → IsUndone X F g (restore_from api g user password r w).1
  unfolding restore_from refresh ask IsSame
  restore_from-IsUndone X F g user password (err e) w b s h = cc h
  restore_from-IsUndone X F g user password (ok v) w b s h = go (v.id == g.profile.id) h
    where
      set : Result (Unit {0}) × World S
      set = grafana_set api g.profile user password g.old_user g.old_password w

      go :
          (t : Bool)
          → (if t
              then continue set
                  (λ _ v. continue (apply_files true g.changes v) (λ _ u. refresh api g.plan u))
              else (err (runtime_error "another account"), w)).0
            ≡ ok tt
          → IsUndone X F g
              (if t
                then continue set
                    (λ _ v. continue (apply_files true g.changes v) (λ _ u. refresh api g.plan u))
                else (err (runtime_error "another account"), w)).1
      go false h = cc h
      go true h =
          let (a, e, f, i) =
            continue-ok set
              (λ _ v. continue (apply_files true g.changes v) (λ _ u. refresh api g.plan u)) tt h in
          let (c, x, y, z) =
            continue-ok (apply_files true g.changes set.1) (λ _ u. refresh api g.plan u) tt f in
          let r = apply_files true g.changes set.1 in
          (
            λ p m.
                ap (λ (u : World S). lookup p u.files) (i ∙ z)
                ∙ apply_files-undoes X F g.changes set.1 b (restored_files X F g user password w s)
                    x p m,
            ap (λ (u : World S). api.account g.profile.id u.services) (i ∙ z)
                ∙ api.start-account g.profile.id g.plan r.1.files r.1.services
                ∙ ap (api.account g.profile.id) (apply_files-services true g.changes set.1)
                ∙ grafana_set-account g.profile user password g.old_user g.old_password w e,
          )

  try_next-IsUndone :
      (X : List Text) (F : Dict Text) (g : Grafana) (m : Result (Unit {0}) × World S)
      (rest : World S → Bool × World S)
      → IsOutside X g.changes F m.1
      → (m.0 ≡ ok tt → IsUndone X F g m.1)
      → ((v : World S) → IsOutside X g.changes F v → (rest v).0 ≡ true → IsUndone X F g (rest v).1)
      → (try_next api m rest).0 ≡ true
      → IsUndone X F g (try_next api m rest).1
  unfolding try_next
  try_next-IsUndone X F g (ok u, v) rest o d k h = d refl
  try_next-IsUndone X F g (err e, v) rest o d k h = k v o h

  try_pairs-IsUndone :
      (X : List Text) (F : Dict Text) (g : Grafana) (pairs : List (Text × Text)) (w : World S)
      → AreBefore X F g.changes
      → IsOutside X g.changes F w
      → (try_pairs api g pairs w).0 ≡ true
      → IsUndone X F g (try_pairs api g pairs w).1
  unfolding try_pairs
  try_pairs-IsUndone X F g [] w b s h = cc h
  try_pairs-IsUndone X F g ((user, password) ∷ pairs) w b s h =
      try_next-IsUndone X F g
        (restore_from api g user password (api.get user password w.services) w)
        (try_pairs api g pairs)
        (restore_from-IsOutside X F g user password (api.get user password w.services) w s)
        (restore_from-IsUndone X F g user password (api.get user password w.services) w b s)
        (λ v o. try_pairs-IsUndone X F g pairs v b o) h

  -- when the rollback returns, the files and the account are as before
  pub grafana_rollback-IsUndone :
      (X : List Text) (F : Dict Text) (g : Grafana) (w : World S)
      → AreBefore X F g.changes
      → IsOutside X g.changes F w
      → (grafana_rollback api g w).0 ≡ true
      → IsUndone X F g (grafana_rollback api g w).1
  unfolding grafana_rollback
  grafana_rollback-IsUndone X F g w b s h =
      try_pairs-IsUndone X F g
        ((g.username, g.password) ∷ (g.old_user, g.password) ∷ (g.old_user, g.old_password) ∷ []) w
        b s h

  pub apply_and_refresh-IsOutside :
      (X : List Text) (F : Dict Text) (rollback : Bool) (cs : List Change) (plan : Text)
      (w : World S)
      → IsOutside X cs F w
      → IsOutside X cs F (apply_and_refresh api rollback cs plan w).1
  unfolding apply_and_refresh refresh ask
  apply_and_refresh-IsOutside X F rollback cs plan w s =
      continue-keeps (IsOutside X cs F) (apply_files rollback cs w) _
        (apply_files-other rollback cs X F w s) (λ _. apply_files-other rollback cs X F w s)

  pub apply_and_refresh-account :
      (id : ℕ) (rollback : Bool) (cs : List Change) (plan : Text) (w : World S)
      → api.account id (apply_and_refresh api rollback cs plan w).1.services
        ≡ api.account id w.services
  unfolding apply_and_refresh refresh ask
  apply_and_refresh-account id rollback cs plan w =
      continue-keeps (λ (v : World S). api.account id v.services ≡ api.account id w.services)
        (apply_files rollback cs w) _ (ap (api.account id) (apply_files-services rollback cs w))
        (λ _.
          api.start-account id plan _ _ ∙ ap (api.account id) (apply_files-services rollback cs w))

  pub apply_and_refresh-undone :
      (X : List Text) (F : Dict Text) (cs : List Change) (plan : Text) (w : World S)
      → AreBefore X F cs
      → IsOutside X cs F w
      → (apply_and_refresh api true cs plan w).0 ≡ ok tt
      → IsSame X F (apply_and_refresh api true cs plan w).1.files
  unfolding apply_and_refresh refresh ask IsSame
  apply_and_refresh-undone X F cs plan w b s h p m =
      let (u, e, f, g) = continue-ok (apply_files true cs w) (λ _ v. refresh api plan v) tt h in
      ap (λ (v : World S). lookup p v.files) g ∙ apply_files-undoes X F cs w b s e p m
