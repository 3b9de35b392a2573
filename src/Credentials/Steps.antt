-- ===== src/Credentials/Steps.antt =====
-- What each step of a change of credentials leaves of the files and of the services.
use android_farm.Prelude.{
  Text, text_eq, text_eq_iff, text_eq_refl, mem, Bool, true, false, List, [], ◌∷◌, ◌++◌, Option,
  none, some, if◌then◌else◌, Result, ok, err, ◌≡◌, refl, ◌∙◌, ap, arith,
}
use android_farm.Prelude.Dict.{Dict, lookup, lookup-insert, lookup-remove}
use android_farm.Credentials.{
  Change, World, continue, access, access_from, set_file, write, value_of, reversed, apply_each,
  apply_files, environment_from, with_change, set_variable,
}
use android_farm.Credentials.Before.{
  paths, IsSame, AreBefore, AreBefore-cast, AreBefore-reversed, mem-reversed,
}

module _ {S : Type 0} where
  pub continue-keeps {ℓ κ ℓp} :
      {A : Type ℓ} {B : Type κ} (P : World S → Type ℓp) (m : Result A × World S)
      (f : A → World S → Result B × World S)
      → P m.1
      → ((a : A) → P (f a m.1).1)
      → P (continue m f).1
  unfolding continue
  continue-keeps P (err e, w) f h k = h
  continue-keeps P (ok a, w) f h k = k a

  pub continue-ok {ℓ κ} :
      {A : Type ℓ} {B : Type κ} (m : Result A × World S) (f : A → World S → Result B × World S)
      (b : B)
      → (continue m f).0 ≡ ok b
      → (a : A) × (m.0 ≡ ok a) × ((f a m.1).0 ≡ ok b) × ((continue m f).1 ≡ (f a m.1).1)
  unfolding continue
  continue-ok (err e, w) f b h = cc h
  continue-ok (ok a, w) f b h = (a, refl, h, refl)

  access_from-same :
      (l : List Bool) (w : World S)
      → ((access_from l w).1.files ≡ w.files) × ((access_from l w).1.services ≡ w.services)
  unfolding access_from
  access_from-same [] w = (refl, refl)
  access_from-same (false ∷ l) w = (refl, refl)
  access_from-same (true ∷ l) w = (refl, refl)

  pub access-same :
      (w : World S) → ((access w).1.files ≡ w.files) × ((access w).1.services ≡ w.services)
  unfolding access
  access-same w = access_from-same w.failing w

  set_file-lookup :
      (path p : Text) (value : Option Text) (w : World S)
      → lookup p (set_file path value w).files
        ≡ (if text_eq path p then value else lookup p w.files)
  unfolding set_file
  set_file-lookup path p none w = lookup-remove path p w.files
  set_file-lookup path p (some s) w = lookup-insert path p s w.files

  pub write-other :
      (path p : Text) (value : Option Text) (w : World S)
      → text_eq path p ≡ false
      → lookup p (write path value w).1.files ≡ lookup p w.files
  unfolding write
  write-other path p value w h =
      continue-keeps (λ (v : World S). lookup p v.files ≡ lookup p w.files) (access w)
        (λ _ v. (ok tt, set_file path value v)) (ap (lookup p) (access-same w).0)
        (λ _. set_file-lookup path p value (access w).1 ∙ ground (arith, h, (access-same w).0))

  pub write-value :
      (path : Text) (value : Option Text) (w : World S)
      → (write path value w).0 ≡ ok tt
      → lookup path (write path value w).1.files ≡ value
  unfolding write
  write-value path value w h =
      let (u, e, f, g) = continue-ok (access w) (λ _ v. (ok tt, set_file path value v)) tt h in
      ap (λ (v : World S). lookup path v.files) g
      ∙ set_file-lookup path path value (access w).1
      ∙ ground (arith, text_eq_refl path)

  write-services :
      (path : Text) (value : Option Text) (w : World S)
      → (write path value w).1.services ≡ w.services
  unfolding write set_file
  write-services path none w =
      continue-keeps (λ (v : World S). v.services ≡ w.services) (access w) _ (access-same w).1
        (λ _. (access-same w).1)
  write-services path (some s) w =
      continue-keeps (λ (v : World S). v.services ≡ w.services) (access w) _ (access-same w).1
        (λ _. (access-same w).1)

  apply_each-services :
      (rollback : Bool) (cs : List Change) (w : World S)
      → (apply_each rollback cs w).1.services ≡ w.services
  unfolding apply_each
  apply_each-services rollback [] w = refl
  apply_each-services rollback (c ∷ cs) w =
      continue-keeps (λ (v : World S). v.services ≡ w.services)
        (write c.path (value_of rollback c) w) (λ _ v. apply_each rollback cs v)
        (write-services c.path (value_of rollback c) w)
        (λ _. apply_each-services rollback cs _ ∙ write-services c.path (value_of rollback c) w)

  apply_each-other :
      (rollback : Bool) (cs : List Change) (w : World S) (p : Text)
      → mem p (paths cs) ≡ false
      → lookup p (apply_each rollback cs w).1.files ≡ lookup p w.files
  unfolding apply_each mem
  apply_each-other rollback [] w p m = refl
  apply_each-other rollback (c ∷ cs) w p m =
      continue-keeps (λ (v : World S). lookup p v.files ≡ lookup p w.files)
        (write c.path (value_of rollback c) w) (λ _ v. apply_each rollback cs v)
        (write-other c.path p (value_of rollback c) w (ground (arith, m)))
        (λ _.
          apply_each-other rollback cs _ p (ground (arith, m))
          ∙ write-other c.path p (value_of rollback c) w (ground (arith, m)))

  -- each change is undone, whatever was done before
  apply_each-undoes :
      (X : List Text) (F : Dict Text) (cs : List Change) (w : World S)
      → AreBefore X F cs
      → ((p : Text) → mem p X ≡ false → mem p (paths cs) ≡ false → lookup p w.files ≡ lookup p F)
      → (apply_each true cs w).0 ≡ ok tt
      → IsSame X F (apply_each true cs w).1.files
  unfolding apply_each AreBefore IsSame mem value_of
  apply_each-undoes X F [] w b s h p m = s p m refl
  apply_each-undoes X F (c ∷ cs) w (b, bs) s h p m =
      let (u, e, f, g) = continue-ok (write c.path c.before w) (λ _ v. apply_each true cs v) tt h in
      ap (λ (v : World S). lookup p v.files) g
      ∙ apply_each-undoes X F cs (write c.path c.before w).1 bs (step e) f p m
    where
      step :
          {u : Unit {0}}
          → (write c.path c.before w).0 ≡ ok u
          → (q : Text) → mem q X ≡ false
          → mem q (paths cs) ≡ false
          → lookup q (write c.path c.before w).1.files ≡ lookup q F
      step e q x y = at (text_eq c.path q) refl
        where
          at :
              (t : Bool)
              → text_eq c.path q ≡ t
              → lookup q (write c.path c.before w).1.files ≡ lookup q F
          at true t =
              let eq = (text_eq_iff c.path q).0 t in
              cc (eq, write-value c.path c.before w e, b (ap (λ r. mem r X) eq ∙ x))
          at false t = write-other c.path q c.before w t ∙ s q x (ground (arith, t, y))

  pub apply_files-services :
      (rollback : Bool) (cs : List Change) (w : World S)
      → (apply_files rollback cs w).1.services ≡ w.services
  unfolding apply_files
  apply_files-services rollback cs w =
      apply_each-services rollback (if rollback then reversed cs else cs) w

  -- writing leaves the other files as they are, also when a write fails
  pub apply_files-other :
      (rollback : Bool) (cs : List Change) (X : List Text) (F : Dict Text) (w : World S)
      → ((p : Text) → mem p X ≡ false → mem p (paths cs) ≡ false → lookup p w.files ≡ lookup p F)
      → (p : Text) → mem p X ≡ false
      → mem p (paths cs) ≡ false
      → lookup p (apply_files rollback cs w).1.files ≡ lookup p F
  unfolding apply_files
  apply_files-other false cs X F w s p m n = apply_each-other false cs w p n ∙ s p m n
  apply_files-other true cs X F w s p m n =
      apply_each-other true (reversed cs) w p (mem-reversed p cs ∙ n) ∙ s p m n

  pub apply_files-undoes :
      (X : List Text) (F : Dict Text) (cs : List Change) (w : World S)
      → AreBefore X F cs
      → ((p : Text) → mem p X ≡ false → mem p (paths cs) ≡ false → lookup p w.files ≡ lookup p F)
      → (apply_files true cs w).0 ≡ ok tt
      → IsSame X F (apply_files true cs w).1.files
  unfolding apply_files
  apply_files-undoes X F cs w b s h =
      apply_each-undoes X F (reversed cs) w (AreBefore-reversed X F cs b)
        (λ p m n. s p m (cc (mem-reversed p cs, n))) h

  -- nothing was changed, and what was read are the files as they are
  abbrev pub IsRead : Dict Text → S → Result (List Change) × World S → Type 0
  IsRead F A m =
      (m.1.files ≡ F) × (m.1.services ≡ A) × ((cs : List Change) → m.0 ≡ ok cs → AreBefore [] F cs)

  with_change-IsRead :
      (F : Dict Text) (A : S) (path key value : Text) (o : Option Text)
      (rest : World S → Result (List Change) × World S) (w : World S)
      → w.files ≡ F
      → w.services ≡ A
      → lookup path w.files ≡ o
      → ((v : World S) → v.files ≡ F → v.services ≡ A → IsRead F A (rest v))
      → IsRead F A (with_change path key value o rest w)
  unfolding with_change AreBefore
  with_change-IsRead F A path key value none rest w f a l k = k w f a
  with_change-IsRead F A path key value (some content) rest w f a l k =
      let (x, y) = access-same w in
      let read = k (access w).1 (x ∙ f) (y ∙ a) in
      let c : Change = record {
        path = path;
        before = some content;
        after = set_variable key value content;
      } in
      (
        continue-keeps (λ (v : World S). v.files ≡ F) (access w) _ (x ∙ f)
            (λ _.
              continue-keeps (λ (v : World S). v.files ≡ F) (rest (access w).1) _ read.0
                (λ _. read.0)),
        continue-keeps (λ (v : World S). v.services ≡ A) (access w) _ (y ∙ a)
            (λ _.
              continue-keeps (λ (v : World S). v.services ≡ A) (rest (access w).1) _ read.1
                (λ _. read.1)),
        λ cs e.
            let (u, p, q, r) =
              continue-ok (access w) (λ _ v. continue (rest v) (λ changes u. (ok (c ∷ changes), u)))
                cs e in
            let (ds, m, n, o) =
              continue-ok (rest (access w).1) (λ changes u. (ok (c ∷ changes), u)) cs q in
            AreBefore-cast F (c ∷ ds) cs (cc n) ((λ _. cc (l, f)), read.2 ds m),
      )

  pub environment_from-IsRead :
      (F : Dict Text) (A : S) (config_dir key value : Text) (names : List Text) (w : World S)
      → w.files ≡ F
      → w.services ≡ A
      → IsRead F A (environment_from config_dir key value names w)
  unfolding environment_from AreBefore
  environment_from-IsRead F A config_dir key value [] w f a =
      (f, a, λ cs e. AreBefore-cast F [] cs (cc e) tt)
  environment_from-IsRead F A config_dir key value (name ∷ names) w f a =
      with_change-IsRead F A (config_dir ++ name) key value (lookup (config_dir ++ name) w.files)
        (environment_from config_dir key value names) w f a refl
        (environment_from-IsRead F A config_dir key value names)
