-- ===== src/Worker/Once.antt =====
-- Who owns a task on the queue of services/worker/worker.py.
use android_farm.Prelude.{
  ℕ, ◌+◌, ◌-◌, ◌≤◌, Text, text_eq, text_eq_iff, ◌≡◌, refl, sym, ◌∙◌, Bool, true, false, not, List,
  [], ◌∷◌, Option, none, some, arith, mem, if◌then◌else◌, count_if, Result, ok, err, value_error,
  runtime_error, key_error, leb,
}
use android_farm.Worker.Redis.{
  Redis, Keyspace, key_eq, pending, processing, leases, running, claims, idempotency, lock, Update,
  Fetch, Attempt, lpush, hset, hdel, zadd, del, rpop, hget, get, lrem, zrem, set_nx, Script, done,
  updates, fetches, attempts, scores, ◌>>=◌, ◌>>◌, do_update, do_attempt, do_fetch, exec, update_of,
  fetch_of, attempt_of, is_some,
}
use android_farm.Worker.Task.{Task, Config, Env, raw_of, to_json, validate, from_json}
use android_farm.Worker.Queue
use android_farm.Worker.Queue.{is_text, only_if}
use android_farm.Worker.History.{
  Event, enqueued, promoted, pruned, taken, settled, orphan_reclaimed, lease_reclaimed, lease_read,
  lease_dropped, acquired, released, renewed, lock_expired, finished, failed, deferred, Effect,
  nothing, started, left, leaves, starts, quiet, or_nothing, script, replay, run_all,
  run_all_refines,
}
use android_farm.Worker.Effects.{exec->>=, exec-commit, commit_end, left_by, taken_out}

-- a command that does not write the hash of the running tasks
abbrev spares : Update → Bool
spares (hset k f v) = not (key_eq k running)
spares (hdel k f) = not (key_eq k running)
spares _ = true

-- every update of a script is such
abbrev Spares : {A : Type 0} → Script A → Type 0
Spares (done a) = Unit {0}
Spares (updates c p) = (spares c ≡ true) × Spares p
Spares (fetches c p) = (o : Option Text) → Spares (p o)
Spares (attempts c p) = (b : Bool) → Spares (p b)
Spares (scores k m p) = (o : Option ℕ) → Spares (p o)

update-running :
    (c : Update) (s : Keyspace) (id : Text)
    → spares c ≡ true
    → (update_of c s).hash running id ≡ s.hash running id
unfolding update_of
update-running (lpush k x) s id h = refl
update-running (hset k f v) s id h = ground (arith, h)
update-running (hdel k f) s id h = ground (arith, h)
update-running (zadd k n m) s id h = refl
update-running (del k) s id h = refl

fetch-running :
    (c : Fetch) (s : Keyspace) (id : Text) → (fetch_of c s).1.hash running id ≡ s.hash running id
unfolding fetch_of
fetch-running (rpop k) s id = refl
fetch-running (hget k f) s id = refl
fetch-running (get k) s id = refl

attempt-running :
    (c : Attempt) (s : Keyspace) (id : Text)
    → (attempt_of c s).1.hash running id ≡ s.hash running id
unfolding attempt_of
attempt-running (lrem k x) s id = refl
attempt-running (zrem k m) s id = refl
attempt-running (set_nx k v) s id = ground arith

-- such a script leaves the owners alone
exec-Spares :
    {A : Type 0} (p : Script A) (s : Keyspace) (id : Text)
    → Spares p
    → (exec p s).1.hash running id ≡ s.hash running id
unfolding exec
exec-Spares (done a) s id h = refl
exec-Spares (updates c p) s id h = exec-Spares p (update_of c s) id h.1 ∙ update-running c s id h.0
exec-Spares (fetches c p) s id h =
    exec-Spares (p (fetch_of c s).0) (fetch_of c s).1 id (h (fetch_of c s).0) ∙ fetch-running c s id
exec-Spares (attempts c p) s id h =
    exec-Spares (p (attempt_of c s).0) (attempt_of c s).1 id (h (attempt_of c s).0)
    ∙ attempt-running c s id
exec-Spares (scores k m p) s id h = exec-Spares (p (s.zset k m)) s id (h (s.zset k m))

>>=-Spares :
    {A B : Type 0} (p : Script A) (f : A → Script B)
    → Spares p
    → ((a : A) → Spares (f a))
    → Spares (p >>= f)
>>=-Spares (done a) f h g = g a
>>=-Spares (updates c p) f h g = (h.0, >>=-Spares p f h.1 g)
>>=-Spares (fetches c p) f h g = λ o. >>=-Spares (p o) f (h o) g
>>=-Spares (attempts c p) f h g = λ b. >>=-Spares (p b) f (h b) g
>>=-Spares (scores k m p) f h g = λ o. >>=-Spares (p o) f (h o) g

only_if-Spares : (b : Bool) (p : Script (Unit {0})) → Spares p → Spares (only_if b p)
only_if-Spares true p h = h
only_if-Spares false p h = tt

-- is the task of this identifier with a worker?
abbrev pub owned : Text → Keyspace → ℕ
owned id s = if is_some (s.hash running id) then 1 else 0

abbrev pub is_left : Text → Effect → Bool
is_left id (left j) = text_eq j id
is_left id _ = false

abbrev pub is_started : Text → Effect → Bool
is_started id (started j) = text_eq j id
is_started id _ = false

abbrev one : Bool → ℕ
one b = if b then 1 else 0

-- one event balances: what leaves or stays was started or was there
abbrev Balances : Text → Keyspace → Effect × Keyspace → Type 0
Balances id s r = one (is_left id r.0) + owned id r.1 ≤ one (is_started id r.0) + owned id s

quiet-Balances :
    {A : Type 0} (p : Script A) (id : Text) (s : Keyspace)
    → Spares p
    → Balances id s (exec (p >>= λ a. done nothing) s)
unfolding exec
quiet-Balances p id s h = rw (exec->>= p (λ a. done nothing) s, exec-Spares p s id h) (omega arith)

-- a task that leaves was with a worker
was_owned :
    (id raw j : Text) (s t : Keyspace)
    → is_text raw (s.hash running id) ≡ true
    → t.hash running j ≡ (if text_eq id j then none else s.hash running j)
    → Balances j s (left id, t)
was_owned id raw j s t e h = go (text_eq id j) refl
  where
    owner : (o : Option Text) → is_text raw o ≡ true → is_some o ≡ true
    owner none e = cc e
    owner (some x) e = refl

    go : (b : Bool) → text_eq id j ≡ b → Balances j s (left id, t)
    go true p =
        let same : id ≡ j = (text_eq_iff id j).0 p in
        let held : is_some (s.hash running j) ≡ true =
          rw (sym same) (owner (s.hash running id) e) in
        ground (arith, h, p, held)
    go false p = ground (arith, h, p)

-- a task that starts is with a worker
given :
    (id raw j : Text) (s u : Keyspace)
    → u.hash running j ≡ s.hash running j
    → 0 + (if is_some (if text_eq id j then some raw else u.hash running j) then 1 else 0)
      ≤ one (text_eq id j) + owned j s
given id raw j s u e = go (text_eq id j)
  where
    go :
        (b : Bool)
        → 0 + (if is_some (if b then some raw else u.hash running j) then 1 else 0)
          ≤ one b + owned j s
    go true = omega arith
    go false = rw e (omega arith)

promote-Spares : (raw : Text) → Spares (Queue.promote raw)
unfolding Queue.promote
promote-Spares raw true = (refl, tt)
promote-Spares raw false = tt

forget_raw-Spares : (o : Option Text) → Spares (Queue.forget_raw o)
unfolding Queue.forget_raw
forget_raw-Spares none = tt
forget_raw-Spares (some raw) = λ b. tt

forget_key-Spares : (id : Text) (o : Option Text) → Spares (Queue.forget_key id o)
unfolding Queue.forget_key
forget_key-Spares id none = tt
forget_key-Spares id (some key) =
    λ o. only_if-Spares (is_text id o) (do_update (hdel idempotency key)) (refl, tt)

prune-Spares : (id : Text) → Spares (Queue.prune id)
unfolding Queue.prune Queue.prune_known
prune-Spares id none = tt
prune-Spares id (some n) = λ key raw.
    >>=-Spares (Queue.forget_raw raw) _ (forget_raw-Spares raw) (λ u.
      >>=-Spares (Queue.forget_key id key) _ (forget_key-Spares id key)
        (λ u. (refl, (refl, (refl, λ b. tt)))))

take-Spares : (claim : Text) → Spares (Queue.take claim)
unfolding Queue.take Queue.claim_raw
take-Spares claim none = tt
take-Spares claim (some raw) = (refl, (refl, tt))

orphan-Spares : (raw claim : Text) → Spares (Queue.reclaim_orphan raw claim)
unfolding Queue.reclaim_orphan Queue.restore_orphan
orphan-Spares raw claim o = go (is_text claim o)
  where
    removed : (b : Bool) → Spares (only_if b (do_update (lpush pending raw)) >> done b)
    removed true = (refl, tt)
    removed false = tt

    go :
        (b : Bool)
        → Spares (
            if not b then done false else (do
              removed ← do_attempt (lrem processing raw)
              do_update (hdel claims raw)
              only_if removed (do_update (lpush pending raw))
              done removed))
    go true = λ b. (refl, removed b)
    go false = tt

release-Spares : (t : Task) → Spares (Queue.release_device t)
unfolding Queue.release_device
release-Spares t o =
    only_if-Spares (is_text t.task_id o) (do_update (del (Queue.lock_of t))) (refl, tt)

renew-Spares : (env : Env) (c : Config) (t : Task) (now : ℕ) → Spares (Queue.renew env c t now)
unfolding Queue.renew Queue.renew_owned
renew-Spares env c t now o = go (is_text t.task_id o)
  where
    go : (b : Bool) → Spares (Queue.renew_owned env c t now b)
    go true = (refl, tt)
    go false = tt

module _ (env : Env) (c : Config) where
  -- only the owner of the lease takes a task away, and then nobody has it
  commit-Balances :
      (id raw j : Text) (entries : Script (Unit {0})) (s : Keyspace)
      → Spares entries
      → Balances j s (exec (Queue.commit id raw entries >>= λ b. done (leaves id b)) s)
  unfolding exec text_eq
  commit-Balances id raw j entries s h =
      rw
        (
          exec->>= (Queue.commit id raw entries) (λ b. done (leaves id b)) s,
          exec-commit id raw entries s,
        )
        (go (is_text raw (s.hash running id)) (mem raw (s.list processing)) refl)
    where
      go :
          (a b : Bool)
          → is_text raw (s.hash running id) ≡ a
          → Balances j s (
              exec
                (done (leaves id (commit_end a b id raw entries s).0))
                (commit_end a b id raw entries s).1)
      go false b e = omega arith
      go true false e = omega arith
      go true true e =
          was_owned id raw j s (exec entries (left_by id raw s)).1 e
            (exec-Spares entries (left_by id raw s) j h)

  reclaim-Balances :
      (id raw j : Text) (now : ℕ) (dead : Bool) (result : Text) (s : Keyspace)
      → Balances j s
          (exec (Queue.reclaim_script env c id raw now dead result >>= λ b. done (leaves id b)) s)
  unfolding exec text_eq mem update_of fetch_of attempt_of Queue.reclaim_script Queue.reclaim_scored
      Queue.reclaim_owned Queue.reclaim_entries
  reclaim-Balances id raw j now dead result s = go (Queue.is_expired now (s.zset leases id))
    where
      ends :
          (dead : Bool)
          → is_text raw (s.hash running id) ≡ true
          → Balances j s (
              exec
                (Queue.reclaim_owned env c id raw now dead result true >>= λ b. done (leaves id b))
                s)
      ends true f =
          was_owned id raw j s (exec (Queue.reclaim_owned env c id raw now true result true) s).1 f
            refl
      ends false f =
          was_owned id raw j s (exec (Queue.reclaim_owned env c id raw now false result true) s).1 f
            refl

      at :
          (a : Bool)
          → is_text raw (s.hash running id) ≡ a
          → Balances j s (
              exec
                (Queue.reclaim_owned env c id raw now dead result a >>= λ b. done (leaves id b))
                s)
      at false f = omega arith
      at true f = ends dead f

      go :
          (b : Bool)
          → Balances j s (
              exec
                (Queue.reclaim_scored env c id raw now dead result b >>= λ b. done (leaves id b))
                s)
      go false = omega arith
      go true = at (is_text raw (s.hash running id)) refl

  start-Balances :
      (t : Task) (raw claim running_raw j : Text) (now : ℕ) (s : Keyspace)
      → Balances j s
          (exec (Queue.start env c t raw claim running_raw now >>= λ o. done (starts o)) s)
  unfolding exec text_eq mem update_of fetch_of attempt_of Queue.start Queue.start_claimed
      Queue.start_found
  start-Balances t raw claim running_raw j now s = go (is_text claim (s.hash claims raw))
    where
      at :
          (b : Bool) (u : Keyspace)
          → u.hash running j ≡ s.hash running j
          → Balances j s
              (exec (Queue.start_found env c t raw running_raw now b >>= λ o. done (starts o)) u)
      at false u e = rw e (omega arith)
      at true u e = given t.task_id running_raw j s u e

      go :
          (b : Bool)
          → Balances j s
              (exec (Queue.start_claimed env c t raw running_raw now b >>= λ o. done (starts o)) s)
      go false = omega arith
      go true = at (mem raw (s.list processing)) (taken_out raw s) refl

  settle-Balances :
      (raw claim j : Text) (now : ℕ) (s : Keyspace)
      → Balances j s (exec (or_nothing starts (Queue.settle env c raw claim now)) s)
  unfolding exec text_eq mem update_of fetch_of attempt_of Queue.settle Queue.exhaust Queue.reject
  settle-Balances raw claim j now s = go (from_json env raw)
    where
      encoded :
          (t : Task) (m : Result Text)
          → Balances j s (exec (or_nothing starts (Queue.start_encoded env c t raw claim now m)) s)
      encoded t (err e) = omega arith
      encoded t (ok running_raw) = start-Balances t raw claim running_raw j now s

      valid :
          (m : Result Task)
          → Balances j s (exec (or_nothing starts (Queue.start_valid env c raw claim now m)) s)
      valid (err e) = omega arith
      valid (ok t) = encoded t (to_json env t)

      fresh :
          (b : Bool) (queued : Task)
          → Balances j s (
              exec
                (or_nothing starts (
                  if b
                  then ok (Queue.exhaust env c queued raw now)
                  else Queue.start_valid env c raw claim now
                      (validate env (raw_of (record queued { attempt = queued.attempt + 1 })))))
                s)
      fresh true queued = omega arith
      fresh false queued =
          valid (validate env (raw_of (record queued { attempt = queued.attempt + 1 })))

      go :
          (m : Result Task)
          → Balances j s (exec (or_nothing starts (Queue.settle_read env c raw claim now m)) s)
      go (ok queued) = fresh (leb queued.max_attempts queued.attempt) queued
      go (err (value_error x)) = omega arith
      go (err (runtime_error x)) = omega arith
      go (err (key_error x)) = omega arith
      go (err _) = omega arith

  defer-Balances :
      (t : Task) (raw j : Text) (now : ℕ) (s : Keyspace)
      → Balances j s (exec (or_nothing (leaves t.task_id) (Queue.defer_locked env c t raw now)) s)
  unfolding exec Queue.defer_locked Queue.defer_entries
  defer-Balances t raw j now s = go (to_json env (record t { attempt = t.attempt - 1 }))
    where
      go :
          (m : Result Text)
          → Balances j s
              (exec (or_nothing (leaves t.task_id) (Queue.defer_encoded env c t raw now m)) s)
      go (err e) = omega arith
      go (ok queued_raw) = commit-Balances t.task_id raw j _ s (refl, (refl, tt))

  failed_entries-Spares :
      (t : Task) (raw : Text) (now : ℕ) (error : Text) (dead : Bool)
      → Spares (Queue.failed_entries env c t raw now error dead)
  unfolding Queue.failed_entries Queue.dead_entries
  failed_entries-Spares t raw now error true = (refl, (refl, (refl, (refl, tt))))
  failed_entries-Spares t raw now error false = (refl, (refl, tt))

  enqueue-Balances :
      (t : Task) (j : Text) (now : ℕ) (s : Keyspace)
      → Balances j s (exec (or_nothing quiet (Queue.enqueue env c t now)) s)
  unfolding exec Queue.enqueue Queue.enqueue_raw Queue.add_new
  enqueue-Balances t j now s = go (to_json env t)
    where
      added : (o : Option Text) (raw : Text) → Spares (Queue.add_new env c t raw now o)
      added none raw = (refl, (refl, (refl, (refl, tt))))
      added (some x) raw = tt

      go :
          (m : Result Text)
          → Balances j s (exec (or_nothing quiet (Queue.enqueue_encoded env c t now m)) s)
      go (err e) = omega arith
      go (ok raw) = quiet-Balances (Queue.enqueue_raw env c t raw now) j s (λ o. added o raw)

  lease-Balances :
      (id raw j : Text) (now : ℕ) (s : Keyspace)
      → Balances j s (exec (or_nothing (leaves id) (Queue.reclaim env c id raw now)) s)
  unfolding exec Queue.reclaim
  lease-Balances id raw j now s = go (Queue.judge_lease env c id now (from_json env raw))
    where
      go :
          (m : Result (Bool × Text))
          → Balances j s (exec (or_nothing (leaves id) (Queue.reclaim_judged env c id raw now m)) s)
      go (err e) = omega arith
      go (ok (dead, result)) = reclaim-Balances id raw j now dead result s

  script-Balances : (e : Event) (j : Text) (s : Keyspace) → Balances j s (exec (script env c e) s)
  unfolding script exec Queue.finish Queue.fail Queue.commit Queue.drop_lease Queue.acquire_device
  script-Balances (enqueued t now) j s = enqueue-Balances t j now s
  script-Balances (promoted raw) j s = quiet-Balances (Queue.promote raw) j s (promote-Spares raw)
  script-Balances (pruned id) j s = quiet-Balances (Queue.prune id) j s (prune-Spares id)
  script-Balances (taken claim) j s = quiet-Balances (Queue.take claim) j s (take-Spares claim)
  script-Balances (settled raw claim now) j s = settle-Balances raw claim j now s
  script-Balances (orphan_reclaimed raw claim) j s =
      quiet-Balances (Queue.reclaim_orphan raw claim) j s (orphan-Spares raw claim)
  script-Balances (lease_reclaimed id raw now) j s = lease-Balances id raw j now s
  script-Balances (lease_read id) j s = quiet-Balances (do_fetch (hget running id)) j s (λ o. tt)
  script-Balances (lease_dropped id) j s = quiet-Balances (Queue.drop_lease id) j s (λ b. tt)
  script-Balances (acquired t) j s = quiet-Balances (Queue.acquire_device t) j s (λ b. tt)
  script-Balances (released t) j s = quiet-Balances (Queue.release_device t) j s (release-Spares t)
  script-Balances (renewed t now) j s =
      quiet-Balances (Queue.renew env c t now) j s (renew-Spares env c t now)
  script-Balances (lock_expired x) j s = quiet-Balances (do_update (del (lock x))) j s (refl, tt)
  script-Balances (finished t raw now duration) j s =
      commit-Balances t.task_id raw j _ s (refl, (refl, tt))
  script-Balances (failed t raw now error) j s =
      commit-Balances t.task_id raw j _ s (failed_entries-Spares t raw now error (Queue.is_dead t))
  script-Balances (deferred t raw now) j s = defer-Balances t raw j now s

  replay-Balances :
      (es : List Event) (j : Text) (s : Keyspace)
      → count_if (is_left j) (replay env c es s).0 + owned j (replay env c es s).1
        ≤ count_if (is_started j) (replay env c es s).0 + owned j s
  unfolding replay
  replay-Balances [] j s = omega arith
  replay-Balances (e ∷ es) j s =
      omega (arith, script-Balances e j s, replay-Balances es j (exec (script env c e) s).1)

  -- On any Redis that does what the manual says, and however the scripts of workers, reclaimers and
  -- producers are interleaved, a task leaves its workers by success, failure, deferral and reclaimed
  -- leases no more often than it was given to one, counting a worker that had it at the start; so
  -- of a worker that finishes and a reclaimer, only one commits.
  pub left-le-started :
      (r : Redis) (es : List Event) (j : Text) (d : r.Db)
      → count_if (is_left j) (run_all env c r es d).0 + owned j (r.view (run_all env c r es d).1)
        ≤ count_if (is_started j) (run_all env c r es d).0 + owned j (r.view d)
  left-le-started r es j d =
      let (x, y) = run_all_refines env c r es d in rw (x, y) (replay-Balances es j (r.view d))
