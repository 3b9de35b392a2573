-- ===== src/Worker/Command.antt =====
-- The commands that services/worker/worker.py runs for a task.
use android_farm.Prelude.{
  Text, codes, text_eq, text_eq_refl, mem, ◌≡◌, refl, Bool, true, false, ◌⊎◌, inl, inr, List, [],
  ◌∷◌, All, Option, none, some, arith, ok,
}
use android_farm.Worker.Task.{
  Task, Config, Env, allowed_actions, matches_device, device_words, words, validate_config,
  command_for,
}
use android_farm.Worker.Valid.{IsTask, Fits, validate-IsTask}

-- the options and fixed words, and the actions
abbrev pub own_words : List Text
own_words =
    codes "--config"
    ∷ codes "--json"
    ∷ codes "-m"
    ∷ codes "ops.healthcheck"
    ∷ codes "--device"
    ∷ codes "--id"
    ∷ allowed_actions

skip : (w x : Text) (xs : List Text) → mem w xs ≡ true → mem w (x ∷ xs) ≡ true
unfolding mem
skip w x xs h = ground (arith, h)

-- the words that do not come from a task, and the actions
abbrev pub constants : Env → Config → List Text
constants env c = env.executable ∷ env.provisioner ∷ c.provisioner_config ∷ own_words

-- a constant, or the device of the task in its canonical form
abbrev pub IsSafe : Env → Config → Task → Text → Type 0
IsSafe env c t w =
    (mem w (constants env c) ≡ true) ⊎ ((t.device ≡ some w) × (matches_device w ≡ true))

module _ (env : Env) (c : Config) where
  device_words-IsSafe :
      (t : Task) → Fits t.action t.device → All (IsSafe env c t) (device_words t.device)
  device_words-IsSafe t f = go t.device refl f
    where
      go :
          (o : Option Text) → t.device ≡ o → Fits t.action o → All (IsSafe env c t) (device_words o)
      go none e f = tt
      go (some d) e (h, m) = (inr (e, m), tt)

  executable-IsSafe : (t : Task) → IsSafe env c t env.executable
  unfolding mem
  executable-IsSafe t = inl (ground (arith, text_eq_refl env.executable))

  base-IsSafe : (t : Task) → IsSafe env c t env.provisioner × IsSafe env c t c.provisioner_config
  unfolding mem
  base-IsSafe t = (
    inl (ground (arith, text_eq_refl env.provisioner)),
    inl (ground (arith, text_eq_refl c.provisioner_config)),
  )

  literal : (t : Task) (w : Text) → mem w own_words ≡ true → IsSafe env c t w
  literal t w h =
      inl (skip w env.executable _ (skip w env.provisioner _ (skip w c.provisioner_config _ h)))

  action-IsSafe : (t : Task) → mem t.action allowed_actions ≡ true → IsSafe env c t t.action
  action-IsSafe t h = literal t t.action (
      skip t.action _ _ (
        skip t.action _ _
          (skip t.action _ _ (skip t.action _ _ (skip t.action _ _ (skip t.action _ _ h))))))

  -- The command of a task starts with the interpreter; every word is a constant of the program or
  -- of its settings, one of the six actions, or the task's device, which is `num` with digits.
  -- Every task that `validate` passes has such a command.
  pub command_for-IsSafe :
      (t : Task)
      → IsTask env t
      → validate_config c ≡ ok c
      → (rest : List Text) × (command_for env t c ≡ ok (env.executable ∷ rest))
        × All (IsSafe env c t) (env.executable ∷ rest)
  unfolding command_for words mem text_eq
  command_for-IsSafe t v good =
      go (text_eq t.action (codes "status")) (text_eq t.action (codes "health")) refl refl
    where
      go :
          (p q : Bool)
          → text_eq t.action (codes "status") ≡ p
          → text_eq t.action (codes "health") ≡ q
          → (rest : List Text) × (command_for env t c ≡ ok (env.executable ∷ rest))
            × All (IsSafe env c t) (env.executable ∷ rest)
      go true q e f = (
        env.provisioner
            ∷ codes "--config"
            ∷ c.provisioner_config
            ∷ codes "status"
            ∷ codes "--json"
            ∷ [],
        rw (validate-IsTask env t v, good, e) refl,
        (
          executable-IsSafe t,
          (
            (base-IsSafe t).0,
            (
              literal t (codes "--config") refl,
              (
                (base-IsSafe t).1,
                (literal t (codes "status") refl, (literal t (codes "--json") refl, tt)),
              ),
            ),
          ),
        ),
      )
      go false true e f = (
        codes "-m"
            ∷ codes "ops.healthcheck"
            ∷ codes "--config"
            ∷ c.provisioner_config
            ∷ codes "--device"
            ∷ device_words t.device,
        rw (validate-IsTask env t v, good, e, f) refl,
        (
          executable-IsSafe t,
          (
            literal t (codes "-m") refl,
            (
              literal t (codes "ops.healthcheck") refl,
              (
                literal t (codes "--config") refl,
                (
                  (base-IsSafe t).1,
                  (literal t (codes "--device") refl, device_words-IsSafe t v.device),
                ),
              ),
            ),
          ),
        ),
      )
      go false false e f = (
        env.provisioner
            ∷ codes "--config"
            ∷ c.provisioner_config
            ∷ t.action
            ∷ codes "--id"
            ∷ device_words t.device,
        rw (validate-IsTask env t v, good, e, f) refl,
        (
          executable-IsSafe t,
          (
            (base-IsSafe t).0,
            (
              literal t (codes "--config") refl,
              (
                (base-IsSafe t).1,
                (
                  action-IsSafe t v.action,
                  (literal t (codes "--id") refl, device_words-IsSafe t v.device),
                ),
              ),
            ),
          ),
        ),
      )
