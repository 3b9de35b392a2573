-- ===== src/Worker/History.antt =====
-- Interleavings of the scripts of services/worker/worker.py: any number of workers and producers,
-- each event one script or transaction, with any arguments that the code may pass.
use android_farm.Prelude.{
  ℕ, Text, Bool, true, false, List, [], ◌∷◌, Option, none, some, ◌≡◌, refl, sym, ap, Result, ok,
  err,
}
use android_farm.Json.{Json}
use android_farm.Worker.Redis.{
  Redis, Keyspace, lock, running, hget, do_fetch, del, Script, done, ◌>>=◌, ◌>>◌, do_update, run,
  exec, run-exec,
}
use android_farm.Worker.Task.{Task, Config, Env}
use android_farm.Worker.Queue.{
  enqueue, promote, prune, take, settle, reclaim_orphan, reclaim, drop_lease, acquire_device,
  release_device, renew, finish, fail, defer_locked,
}

-- `lock_expired` is Redis's own: the lifetime of a lock is over.
pub data Event : Type 0 where
  enqueued : Task → ℕ → Event
  promoted : Text → Event
  pruned : Text → Event
  taken : Text → Event
  settled : Text → Text → ℕ → Event
  orphan_reclaimed : Text → Text → Event
  lease_reclaimed : Text → Text → ℕ → Event
  lease_read lease_dropped : Text → Event
  acquired released : Task → Event
  renewed : Task → ℕ → Event
  lock_expired : Text → Event
  finished : Task → Text → ℕ → Json → Event
  failed : Task → Text → ℕ → Text → Event
  deferred : Task → Text → ℕ → Event

-- what a script has done to a task: it was given to a worker, or it left one
pub data Effect : Type 0 where
  nothing : Effect
  started left : Text → Effect

abbrev pub quiet {ℓ} : {A : Type ℓ} → A → Effect
quiet a = nothing

abbrev pub leaves : Text → Bool → Effect
leaves id true = left id
leaves id false = nothing

abbrev pub starts : Option (Task × Text) → Effect
starts none = nothing
starts (some (t, raw)) = started t.task_id

-- a script that an exception has prevented does nothing
abbrev pub or_nothing : {A : Type 0} → (A → Effect) → Result (Script A) → Script Effect
or_nothing f (err e) = done nothing
or_nothing f (ok p) = p >>= λ a. done (f a)

module _ (env : Env) (c : Config) where
  unfoldable pub script : Event → Script Effect
  script (enqueued t now) = or_nothing quiet (enqueue env c t now)
  script (promoted raw) = promote raw >>= λ b. done nothing
  script (pruned id) = prune id >>= λ b. done nothing
  script (taken claim) = take claim >>= λ o. done nothing
  script (settled raw claim now) = or_nothing starts (settle env c raw claim now)
  script (orphan_reclaimed raw claim) = reclaim_orphan raw claim >>= λ b. done nothing
  script (lease_reclaimed id raw now) = or_nothing (leaves id) (reclaim env c id raw now)
  script (lease_read id) = do_fetch (hget running id) >>= λ o. done nothing
  script (lease_dropped id) = drop_lease id >> done nothing
  script (acquired t) = acquire_device t >>= λ b. done nothing
  script (released t) = release_device t >> done nothing
  script (renewed t now) = renew env c t now >>= λ b. done nothing
  script (lock_expired s) = do_update (del (lock s)) >> done nothing
  script (finished t raw now duration) =
      finish env c t raw now duration >>= λ b. done (leaves t.task_id b)
  script (failed t raw now error) = fail env c t raw now error >>= λ b. done (leaves t.task_id b)
  script (deferred t raw now) = or_nothing (leaves t.task_id) (defer_locked env c t raw now)

  -- the effects of a history, and the data after it
  unfoldable pub replay : List Event → Keyspace → List Effect × Keyspace
  replay [] s = ([], s)
  replay (e ∷ es) s = let (f, s') = exec (script e) s in let (fs, t) = replay es s' in (f ∷ fs, t)

  module _ (r : Redis) where
    -- the same on a Redis
    unfoldable pub run_all : List Event → r.Db → List Effect × r.Db
    run_all [] d = ([], d)
    run_all (e ∷ es) d =
        let (f, d') = run r (script e) d in let (fs, d'') = run_all es d' in (f ∷ fs, d'')

    -- A history on a Redis has the effects, and leaves the visible data, that the manual's account
    -- of the commands gives.
    pub run_all_refines :
        (es : List Event) (d : r.Db)
        → ((run_all es d).0 ≡ (replay es (r.view d)).0)
          × (r.view (run_all es d).1 ≡ (replay es (r.view d)).1)
    unfolding run_all replay
    run_all_refines [] d = (refl, refl)
    run_all_refines (e ∷ es) d =
        let (a, b) = run-exec r (script e) d in
        let (x, y) = run_all_refines es (run r (script e) d).1 in
        rw (sym a, sym b) (ap (λ fs. (run r (script e) d).0 ∷ fs) x, y)
