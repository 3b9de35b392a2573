-- ===== src/Worker/Run.antt =====
-- `RedisQueue.finish`, `fail` and `reserve` as they are called, and `Worker` of
-- services/worker/worker.py, on any Redis whose calls return. What other workers and producers do
-- before each call, and while the command of a task runs, is an argument.
use android_farm.Prelude.{
  ℕ, zero, suc, Text, Bool, true, false, List, [], ◌∷◌, Option, none, some, Exception, Result, ok,
  err, if◌then◌else◌,
}
use android_farm.Prelude.Int.{ℤ, pos, negsuc}
use android_farm.Json.{Json}
use android_farm.Worker.Redis.{Redis, running, hget, Script, done, do_fetch, run}
use android_farm.Worker.Task.{Task, Config, Env, command_for}
use android_farm.Worker.Queue
use android_farm.Worker.Queue.{is_stale}
use android_farm.Worker.History.{Event, run_all}

-- how the command of a task ended: its return code with the redacted error, its time, an exception
-- that `execute_one` catches, or another one
pub data Outcome : Type 0 where
  exited : ℤ → Text → Json → Outcome
  caught : Text → Outcome
  uncaught : Exception → Outcome

-- what others do before a task's device is locked, before the call that follows (while its command
-- runs, or before the task is deferred), and before its device is released
pub record Between : Type 0 where
  pub lock : List Event
  pub next : List Event
  pub release : List Event

-- an expired lease, with what others do before the task is read and before it is reclaimed
pub record Expired : Type 0 where
  pub id : Text
  pub read : List Event
  pub change : List Event

module _ (env : Env) (c : Config) (r : Redis) where
  -- a call, after what others have done
  unfoldable pub run_after : {A : Type 0} → List Event → Script A → r.Db → A × r.Db
  run_after others p d = run r p (run_all env c r others d).1

  -- `finish` and `fail`: the script, and then the lock
  unfoldable pub finish_task : Task → Text → ℕ → Json → Between → r.Db → Bool × r.Db
  unfolding run_after
  finish_task t raw now duration o d =
      let (committed, d') = run_after o.next (Queue.finish env c t raw now duration) d in
      (committed, (run_after o.release (Queue.release_device t) d').1)

  unfoldable pub fail_task : Task → Text → ℕ → Text → Between → r.Db → Bool × r.Db
  unfolding run_after
  fail_task t raw now error o d =
      let (committed, d') = run_after o.next (Queue.fail env c t raw now error) d in
      (committed, (run_after o.release (Queue.release_device t) d').1)

  unfoldable pub returned : Bool × r.Db → Result Bool × r.Db
  returned (b, d) = (ok b, d)

  -- `if result.returncode` and the handler of the exceptions
  unfoldable pub end_task : Task → Text → ℕ → Outcome → Between → r.Db → Result Bool × r.Db
  unfolding returned finish_task fail_task
  end_task t raw now (exited (pos zero) error duration) o d =
      returned (finish_task t raw now duration o d)
  end_task t raw now (exited (pos (suc n)) error duration) o d =
      returned (fail_task t raw now error o d)
  end_task t raw now (exited (negsuc n) error duration) o d =
      returned (fail_task t raw now error o d)
  end_task t raw now (caught error) o d = returned (fail_task t raw now error o d)
  end_task t raw now (uncaught e) o d = (err e, d)

  -- the part of `execute_one` under `try`; a ValueError of `command_for` is not caught
  unfoldable pub run_command :
      Task → Text → ℕ → Outcome → Between → Result (List Text) → r.Db → Result Bool × r.Db
  unfolding end_task
  run_command t raw now ended o (err e) d = (err e, d)
  run_command t raw now ended o (ok argv) d = end_task t raw now ended o d

  -- a script that an exception may prevent
  unfoldable pub run_result : {A : Type 0} → List Event → Result (Script A) → r.Db → Result A × r.Db
  unfolding run_after
  run_result others (err e) d = (err e, d)
  run_result others (ok p) d = let (a, d') = run_after others p d in (ok a, d')

  unfoldable pub execute_locked :
      Task → Text → ℕ → Outcome → Between → Bool → r.Db → Result Bool × r.Db
  unfolding run_result run_command
  execute_locked t raw now ended o false d =
      run_result o.next (Queue.defer_locked env c t raw now) d
  execute_locked t raw now ended o true d = run_command t raw now ended o (command_for env t c) d

  unfoldable pub execute_one : Task → Text → ℕ → Outcome → Between → r.Db → Result Bool × r.Db
  unfolding execute_locked run_after
  execute_one t raw now ended o d =
      let (free, d') = run_after o.lock (Queue.acquire_device t) d in
      execute_locked t raw now ended o free d'

  -- how many of the scripts answered yes, each with what others do before it
  unfoldable pub count_scripts :
      {A : Type 0} → (A → Script Bool) → List (List Event × A) → r.Db → ℕ × r.Db
  unfolding run_after
  count_scripts f [] d = (0, d)
  count_scripts f ((others, x) ∷ xs) d =
      let (b, d') = run_after others (f x) d in
      let (n, d'') = count_scripts f xs d' in (if b then suc n else n, d'')

  -- `prune` and `promote_due`, for what ZRANGEBYSCORE has answered
  unfoldable pub prune_all : List (List Event × Text) → r.Db → ℕ × r.Db
  unfolding count_scripts
  prune_all ids d = count_scripts Queue.prune ids d

  unfoldable pub promote_due : List (List Event × Text) → r.Db → ℕ × r.Db
  unfolding count_scripts
  promote_due raws d = count_scripts Queue.promote raws d

  -- `reclaim_orphans`, for what HGETALL has answered
  unfoldable pub orphan_script : ℕ → Text × Text → Script Bool
  orphan_script now (raw, claim) =
      if is_stale now c.block_seconds (env.claim_time claim)
      then Queue.reclaim_orphan raw claim
      else done false

  unfoldable pub reclaim_orphans : ℕ → List (List Event × (Text × Text)) → r.Db → ℕ × r.Db
  unfolding count_scripts orphan_script
  reclaim_orphans now entries d = count_scripts (orphan_script now) entries d

  -- `reclaim_expired`, one task and all
  unfoldable pub reclaim_found : ℕ → List Event → Text → Option Text → r.Db → Result Bool × r.Db
  unfolding run_after
  reclaim_found now others id none d = (ok false, (run_after others (Queue.drop_lease id) d).1)
  reclaim_found now others id (some []) d = (ok false, (run_after others (Queue.drop_lease id) d).1)
  reclaim_found now others id (some (x ∷ xs)) d =
      run_result others (Queue.reclaim env c id (x ∷ xs) now) d

  unfoldable pub reclaim_one : ℕ → Expired → r.Db → Result Bool × r.Db
  unfolding reclaim_found run_after
  reclaim_one now x d =
      let (raw, d') = run_after x.read (do_fetch (hget running x.id)) d in
      reclaim_found now x.change x.id raw d'

  unfoldable pub add_reclaimed : Bool → Result ℕ × r.Db → Result ℕ × r.Db
  add_reclaimed b (err e, d) = (err e, d)
  add_reclaimed b (ok n, d) = (ok (if b then suc n else n), d)

  unfoldable pub reclaim_rest : Result Bool × r.Db → (r.Db → Result ℕ × r.Db) → Result ℕ × r.Db
  unfolding add_reclaimed
  reclaim_rest (err e, d) rest = (err e, d)
  reclaim_rest (ok b, d) rest = add_reclaimed b (rest d)

  unfoldable pub reclaim_expired : ℕ → List Expired → r.Db → Result ℕ × r.Db
  unfolding reclaim_one reclaim_rest
  reclaim_expired now [] d = (ok 0, d)
  reclaim_expired now (x ∷ xs) d =
      reclaim_rest (reclaim_one now x d) (λ d. reclaim_expired now xs d)

  -- `reserve`, with its new claim
  unfoldable pub reserve_taken :
      Text → ℕ → List Event → Option Text → r.Db → Result (Option (Task × Text)) × r.Db
  unfolding run_result
  reserve_taken claim now others none d = (ok none, d)
  reserve_taken claim now others (some raw) d =
      run_result others (Queue.settle env c raw claim now) d

  unfoldable pub reserve :
      Text → ℕ → List Event → List Event → r.Db → Result (Option (Task × Text)) × r.Db
  unfolding reserve_taken run_after
  reserve claim now first second d =
      let (raw, d') = run_after first (Queue.take claim) d in reserve_taken claim now second raw d'

-- One pass of `Worker.run`: what Redis lists for it, the readings of the clock, the command, and what
-- others do before each call.
pub record Pass : Type 0 where
  pub ended : List (List Event × Text)
  pub due : List (List Event × Text)
  pub claimed : List (List Event × (Text × Text))
  pub expired : List Expired
  pub before_take : List Event
  pub before_settle : List Event
  pub claim : Text
  pub now : ℕ
  pub finish_time : ℕ
  pub outcome : Outcome
  pub between : Between

module _ (env : Env) (c : Config) (r : Redis) (p : Pass) where
  unfoldable pub run_reserved : Result (Option (Task × Text)) → r.Db → Result Bool × r.Db
  run_reserved (err e) d = (err e, d)
  run_reserved (ok none) d = (ok false, d)
  run_reserved (ok (some (t, raw))) d =
      execute_one env c r t raw p.finish_time p.outcome p.between d

  unfoldable pub run_next : Result ℕ → r.Db → Result Bool × r.Db
  unfolding run_reserved
  run_next (err e) d = (err e, d)
  run_next (ok n) d =
      let (o, d') = reserve env c r p.claim p.now p.before_take p.before_settle d in
      run_reserved o d'

  unfoldable pub run_pass : r.Db → Result Bool × r.Db
  unfolding run_next
  run_pass d =
      let d1 = (prune_all env c r p.ended d).1 in
      let d2 = (promote_due env c r p.due d1).1 in
      let d3 = (reclaim_orphans env c r p.now p.claimed d2).1 in
      let (n, d4) = reclaim_expired env c r p.now p.expired d3 in run_next n d4
