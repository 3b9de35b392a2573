-- ===== src/Worker/Queue.antt =====
-- `RedisQueue` of services/worker/worker.py. Each Lua script and each transaction is one `Script`;
-- `now` is the reading of the clock in the call. What ZRANGEBYSCORE and HGETALL answer only selects
-- what the scripts try, so it is an argument.
use android_farm.Prelude.{
  ℕ, ◌+◌, ◌-◌, ◌*◌, ◌^◌, min, max, Text, codes, text_eq, Bool, true, false, not, [], ◌∷◌, Option,
  none, some, leb, if◌then◌else◌, Result, ok, err, value_error,
}
use android_farm.Prelude.Int.{ℤ, pos, negsuc}
use android_farm.Json.{Json, int, str, obj, Fields, end, field}
use android_farm.Worker.Redis.{
  Key, pending, processing, scheduled, leases, running, claims, results, dlq, idempotency,
  task_keys, terminal, archives, lock, lpush, hset, hdel, zadd, del, rpop, hget, get, lrem, zrem,
  set_nx, Script, done, ◌>>=◌, ◌>>◌, do_update, do_fetch, do_attempt, do_score,
}
use android_farm.Worker.Task.{Task, raw_of, Config, Env, to_json, from_json, validate, device_json}

-- `redis.call(…) == value` on an answer that may be nil
abbrev pub is_text : Text → Option Text → Bool
is_text s none = false
is_text s (some t) = text_eq t s

-- `if when then …`, as a step without an answer
abbrev pub only_if : Bool → Script (Unit {0}) → Script (Unit {0})
only_if true p = p
only_if false p = done tt

-- `task.device or 'global'`
unfoldable pub or_global : Option Text → Text
or_global none = codes "global"
or_global (some []) = codes "global"
or_global (some (c ∷ s)) = c ∷ s

-- the lock of a task's device
unfoldable pub lock_of : Task → Key
lock_of t = lock (or_global t.device)

-- `promote_due`, one entry
unfoldable pub promote : Text → Script Bool
promote raw = do
  moved ← do_attempt (zrem scheduled raw)
  only_if moved (do_update (lpush pending raw))
  done moved

unfoldable pub forget_key : Text → Option Text → Script (Unit {0})
forget_key id none = done tt
forget_key id (some key) = do
  owner ← do_fetch (hget idempotency key)
  only_if (is_text id owner) (do_update (hdel idempotency key))

unfoldable pub forget_raw : Option Text → Script (Unit {0})
forget_raw none = done tt
forget_raw (some raw) = do _ ← do_attempt (lrem dlq raw); done tt

-- `prune`, one task
unfoldable pub prune_known : Text → Option ℕ → Script Bool
prune_known id none = done false
prune_known id (some score) = do
  key ← do_fetch (hget task_keys id)
  raw ← do_fetch (hget archives id)
  forget_raw raw
  forget_key id key
  do_update (hdel results id)
  do_update (hdel task_keys id)
  do_update (hdel archives id)
  _ ← do_attempt (zrem terminal id)
  done true

unfoldable pub prune : Text → Script Bool
prune id = do score ← do_score terminal id; prune_known id score

-- the two steps of `reserve`: the move with its claim, and what follows
unfoldable pub claim_raw : Text → Option Text → Script (Option Text)
claim_raw claim none = done none
claim_raw claim (some raw) = do
  do_update (lpush processing raw)
  do_update (hset claims raw claim)
  done (some raw)

unfoldable pub take : Text → Script (Option Text)
take claim = do raw ← do_fetch (rpop pending); claim_raw claim raw

-- the branch of an entry that is no task
unfoldable pub reject : Text → Script (Option (Task × Text))
reject raw = do
  _ ← do_attempt (lrem processing raw)
  do_update (hdel claims raw)
  do_update (lpush dlq raw)
  done none

-- `reclaim_orphans`, one claim: is it old, and its script
unfoldable pub is_stale : ℕ → ℕ → Option ℤ → Bool
is_stale now block none = true
is_stale now block (some (negsuc n)) = true
is_stale now block (some (pos n)) = leb (n + max 10 (block * 3)) now

unfoldable pub restore_orphan : Text → Text → Option Text → Script Bool
restore_orphan raw claim owner = if not (is_text claim owner) then done false else do
  removed ← do_attempt (lrem processing raw)
  do_update (hdel claims raw)
  only_if removed (do_update (lpush pending raw))
  done removed

unfoldable pub reclaim_orphan : Text → Text → Script Bool
reclaim_orphan raw claim = do owner ← do_fetch (hget claims raw); restore_orphan raw claim owner

-- `_discard_raw`
unfoldable pub discard : Text → Text → Script (Unit {0})
discard id raw = do
  _ ← do_attempt (lrem processing raw)
  _ ← do_attempt (zrem leases id)
  do_update (hdel running id)
  do_update (hdel claims raw)

unfoldable pub acquire_device : Task → Script Bool
acquire_device t = do_attempt (set_nx (lock_of t) t.task_id)

unfoldable pub release_device : Task → Script (Unit {0})
release_device t = do
  owner ← do_fetch (get (lock_of t))
  only_if (is_text t.task_id owner) (do_update (del (lock_of t)))

-- The opening of `finish`, `fail` and `defer_locked`: only the owner of the lease goes on, and the
-- task leaves `running`, `processing` and `leases`.
unfoldable pub leave_found : Text → Bool → Script Bool
leave_found id false = done false
leave_found id true = do do_update (hdel running id); _ ← do_attempt (zrem leases id); done true

unfoldable pub leave_owned : Text → Text → Bool → Script Bool
leave_owned id raw false = done false
leave_owned id raw true = do found ← do_attempt (lrem processing raw); leave_found id found

unfoldable pub leave : Text → Text → Script Bool
leave id raw = do owner ← do_fetch (hget running id); leave_owned id raw (is_text raw owner)

-- `leave`, and then the entries of the new state
unfoldable pub commit : Text → Text → Script (Unit {0}) → Script Bool
commit id raw entries = do owned ← leave id raw; only_if owned entries; done owned

abbrev pub destination : Bool → Key
destination dead = if dead then dlq else pending

unfoldable pub is_expired : ℕ → Option ℕ → Bool
is_expired now none = false
is_expired now (some score) = leb score now

-- the lease of a task that does not run
unfoldable pub drop_lease : Text → Script (Unit {0})
drop_lease id = do _ ← do_attempt (zrem leases id); done tt

unfoldable pub is_dead : Task → Bool
is_dead t = leb t.max_attempts t.attempt

module _ (env : Env) (c : Config) where
  -- `task_result`, with the fields of the state
  unfoldable pub task_result : Text → Task → ℕ → Fields → Text
  task_result state t now fields = env.dumps (
      obj (
        field (codes "schema_version") (int (pos 1)) (
          field (codes "state") (str state) (
            field (codes "task_id") (str t.task_id) (
              field (codes "action") (str t.action) (
                field (codes "device") (device_json t.device) (
                  field (codes "attempt") (int (pos t.attempt))
                    (field (codes "updated_at") (int (pos now)) fields))))))))

  unfoldable pub add_new : Task → Text → ℕ → Option Text → Script (Text × Bool)
  add_new t raw now (some id) = done (id, false)
  add_new t raw now none = do
    do_update (hset idempotency t.idempotency_key t.task_id)
    do_update (hset results t.task_id (task_result (codes "queued") t now end))
    do_update (lpush pending raw)
    do_update (hset task_keys t.task_id t.idempotency_key)
    done (t.task_id, true)

  unfoldable pub enqueue_raw : Task → Text → ℕ → Script (Text × Bool)
  enqueue_raw t raw now = do
    existing ← do_fetch (hget idempotency t.idempotency_key)
    add_new t raw now existing

  unfoldable pub enqueue_encoded : Task → ℕ → Result Text → Result (Script (Text × Bool))
  enqueue_encoded t now (err e) = err e
  enqueue_encoded t now (ok raw) = ok (enqueue_raw t raw now)

  unfoldable pub enqueue : Task → ℕ → Result (Script (Text × Bool))
  unfolding enqueue_encoded
  enqueue t now = enqueue_encoded t now (to_json env t)

  -- `reserve` at the retry limit
  unfoldable pub exhaust : Task → Text → ℕ → Script (Option (Task × Text))
  exhaust t raw now = do
    _ ← do_attempt (lrem processing raw)
    do_update (hdel claims raw)
    do_update (lpush dlq raw)
    do_update (
        hset results t.task_id (
          task_result (codes "dead") t now
            (field (codes "error") (str (codes "retry limit reached before reservation")) end)))
    do_update (hset archives t.task_id raw)
    do_update (zadd terminal (now + c.result_ttl_seconds) t.task_id)
    done none

  -- the script of `reserve` for the task with its new attempt
  unfoldable pub start_found : Task → Text → Text → ℕ → Bool → Script (Option (Task × Text))
  start_found t raw running_raw now false = done none
  start_found t raw running_raw now true = do
    do_update (hdel claims raw)
    do_update (lpush processing running_raw)
    do_update (hset running t.task_id running_raw)
    do_update (zadd leases (now + c.lease_seconds) t.task_id)
    do_update (hset results t.task_id (task_result (codes "running") t now end))
    done (some (t, running_raw))

  unfoldable pub start_claimed : Task → Text → Text → ℕ → Bool → Script (Option (Task × Text))
  start_claimed t raw running_raw now false = done none
  start_claimed t raw running_raw now true = do
    found ← do_attempt (lrem processing raw)
    start_found t raw running_raw now found

  unfoldable pub start : Task → Text → Text → Text → ℕ → Script (Option (Task × Text))
  start t raw claim running_raw now = do
    owner ← do_fetch (hget claims raw)
    start_claimed t raw running_raw now (is_text claim owner)

  unfoldable pub start_encoded :
      Task → Text → Text → ℕ → Result Text → Result (Script (Option (Task × Text)))
  start_encoded t raw claim now (err e) = err e
  start_encoded t raw claim now (ok running_raw) = ok (start t raw claim running_raw now)

  unfoldable pub start_valid :
      Text → Text → ℕ → Result Task → Result (Script (Option (Task × Text)))
  unfolding start_encoded
  start_valid raw claim now (err e) = err e
  start_valid raw claim now (ok t) = start_encoded t raw claim now (to_json env t)

  -- the part of `reserve` after the entry has been read as a task
  unfoldable pub start_task : Task → Text → Text → ℕ → Result (Script (Option (Task × Text)))
  unfolding start_valid
  start_task queued raw claim now =
      if leb queued.max_attempts queued.attempt
      then ok (exhaust queued raw now)
      else start_valid raw claim now
          (validate env (raw_of (record queued { attempt = queued.attempt + 1 })))

  -- `except ValueError`: any other exception leaves `reserve`
  unfoldable pub settle_read :
      Text → Text → ℕ → Result Task → Result (Script (Option (Task × Text)))
  unfolding start_task
  settle_read raw claim now (err (value_error s)) = ok (reject raw)
  settle_read raw claim now (err e) = err e
  settle_read raw claim now (ok queued) = start_task queued raw claim now

  -- `reserve` after the move
  unfoldable pub settle : Text → Text → ℕ → Result (Script (Option (Task × Text)))
  unfolding settle_read
  settle raw claim now = settle_read raw claim now (from_json env raw)

  -- `reclaim_expired`: what the leased entry says, and whether it is at its limit
  unfoldable pub judge_lease : Text → ℕ → Result Task → Result (Bool × Text)
  judge_lease id now (ok t) =
      if leb t.max_attempts t.attempt
      then ok (
        true,
        task_result (codes "dead") t now
            (field (codes "error") (str (codes "lease expired at retry limit")) end),
      )
      else ok (
        false,
        task_result (codes "retrying") t now
            (field (codes "error") (str (codes "worker lease expired")) end),
      )
  judge_lease id now (err (value_error s)) = ok (
    true,
    env.dumps (
        obj (
          field (codes "schema_version") (int (pos 1)) (
            field (codes "state") (str (codes "dead")) (
              field (codes "task_id") (str id) (
                field (codes "error") (str (codes "invalid leased task"))
                  (field (codes "updated_at") (int (pos now)) end)))))),
  )
  judge_lease id now (err e) = err e

  -- where the task goes from there
  unfoldable pub reclaim_entries : Text → Text → ℕ → Bool → Text → Script (Unit {0})
  reclaim_entries id raw now dead result = do
    do_update (lpush (destination dead) raw)
    do_update (hset results id result)
    only_if dead (do
      do_update (zadd terminal (now + c.result_ttl_seconds) id)
      do_update (hset archives id raw))

  unfoldable pub reclaim_owned : Text → Text → ℕ → Bool → Text → Bool → Script Bool
  reclaim_owned id raw now dead result false = done false
  reclaim_owned id raw now dead result true = do
    _ ← do_attempt (lrem processing raw)
    _ ← do_attempt (zrem leases id)
    do_update (hdel running id)
    reclaim_entries id raw now dead result
    done true

  unfoldable pub reclaim_scored : Text → Text → ℕ → Bool → Text → Bool → Script Bool
  reclaim_scored id raw now dead result false = done false
  reclaim_scored id raw now dead result true = do
    owner ← do_fetch (hget running id)
    reclaim_owned id raw now dead result (is_text raw owner)

  unfoldable pub reclaim_script : Text → Text → ℕ → Bool → Text → Script Bool
  reclaim_script id raw now dead result = do
    score ← do_score leases id
    reclaim_scored id raw now dead result (is_expired now score)

  unfoldable pub reclaim_judged : Text → Text → ℕ → Result (Bool × Text) → Result (Script Bool)
  reclaim_judged id raw now (err e) = err e
  reclaim_judged id raw now (ok (dead, result)) = ok (reclaim_script id raw now dead result)

  -- one task of `reclaim_expired`, whose entry was read before
  unfoldable pub reclaim : Text → Text → ℕ → Result (Script Bool)
  unfolding reclaim_judged
  reclaim id raw now = reclaim_judged id raw now (judge_lease id now (from_json env raw))

  unfoldable pub renew_owned : Task → ℕ → Bool → Script Bool
  renew_owned t now false = done false
  renew_owned t now true = do do_update (zadd leases (now + c.lease_seconds) t.task_id); done true

  -- `renew`; the caller raises if the answer is no
  unfoldable pub renew : Task → ℕ → Script Bool
  renew t now = do owner ← do_fetch (get (lock_of t)); renew_owned t now (is_text t.task_id owner)

  -- the script of `finish`, with the rounded duration
  unfoldable pub finish : Task → Text → ℕ → Json → Script Bool
  finish t raw now duration = commit t.task_id raw (do
    do_update (
        hset results t.task_id
          (task_result (codes "succeeded") t now (field (codes "duration_seconds") duration end)))
    do_update (zadd terminal (now + c.result_ttl_seconds) t.task_id))

  unfoldable pub retry_delay : Task → ℕ
  retry_delay t = min c.backoff_max (c.backoff_base * 2 ^ (t.attempt - 1))

  unfoldable pub dead_entries : Task → Text → ℕ → Script (Unit {0})
  dead_entries t raw now = do
    do_update (lpush dlq raw)
    do_update (hset archives t.task_id raw)
    do_update (zadd terminal (now + c.result_ttl_seconds) t.task_id)

  unfoldable pub failed_entries : Task → Text → ℕ → Text → Bool → Script (Unit {0})
  failed_entries t raw now error true = do
    dead_entries t raw now
    do_update (
        hset results t.task_id
          (task_result (codes "dead") t now (field (codes "error") (str error) end)))
  failed_entries t raw now error false = do
    do_update (zadd scheduled (now + retry_delay t) raw)
    do_update (
        hset results t.task_id (
          task_result (codes "retrying") t now (
            field (codes "retry_in_seconds") (int (pos (retry_delay t)))
              (field (codes "error") (str error) end))))

  -- the script of `fail`, with the redacted error
  unfoldable pub fail : Task → Text → ℕ → Text → Script Bool
  fail t raw now error = commit t.task_id raw (failed_entries t raw now error (is_dead t))

  unfoldable pub defer_entries : Task → Text → ℕ → Script (Unit {0})
  defer_entries t queued_raw now = do
    do_update (zadd scheduled (now + 5) queued_raw)
    do_update (hset results t.task_id (task_result (codes "waiting_for_device_lock") t now end))

  unfoldable pub defer_encoded : Task → Text → ℕ → Result Text → Result (Script Bool)
  defer_encoded t raw now (err e) = err e
  defer_encoded t raw now (ok queued_raw) =
      ok (commit t.task_id raw (defer_entries t queued_raw now))

  -- the attempt is given back
  unfoldable pub defer_locked : Task → Text → ℕ → Result (Script Bool)
  unfolding defer_encoded
  defer_locked t raw now =
      defer_encoded t raw now (to_json env (record t { attempt = t.attempt - 1 }))
