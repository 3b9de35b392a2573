-- ===== src/Worker/Durable.antt =====
-- Histories of services/worker/worker.py: what stays of every task.
use android_farm.Prelude.{
  ℕ, ◌+◌, ◌-◌, Text, text_eq, ◌≡◌, refl, sym, ap, Bool, true, false, not, Option, none, some, arith,
  mem, if◌then◌else◌, Result, ok, err, leb, value_error, runtime_error,
}
use android_farm.Worker.Redis.{
  Keyspace, pending, processing, leases, running, claims, hdel, lpush, lrem, Script, done, ◌>>=◌,
  ◌>>◌, do_update, do_attempt, exec, update_of, fetch_of,
}
use android_farm.Worker.Task.{Task, Config, Env, raw_of, to_json, from_json, validate}
use android_farm.Worker.Valid.{from_json-to_json, validate-ok}
use android_farm.Worker.Queue
use android_farm.Worker.Queue.{is_text, only_if}
use android_farm.Worker.Effects.{exec->>=, exec-commit, commit_end, left_by}
use android_farm.Worker.Named.{Named, IsOwn, Names, exec-Named}
use android_farm.Worker.Held.{Safe}
use android_farm.Worker.Kept.{
  Tracked, Safe-Tracked, promote-Tracked, reject-Tracked, take-Tracked, exhaust-Tracked,
  orphan-Tracked, reclaim-Tracked,
}
use android_farm.Worker.Lost.{start-Tracked, defer-Tracked, eq_of_is_text}
use android_farm.Worker.History.{Effect, leaves, starts, quiet, or_nothing}

module _ (env : Env) (c : Config) where
  abbrev pub Sound : Text → Keyspace → Type 0
  Sound id s = Named env s × Tracked env id s

  -- the owner's entry bears its identifier, so what is written of it does
  pub commit-Named :
      (j raw : Text) (entries : Script (Unit {0})) (s : Keyspace)
      → (IsOwn env j raw → Names env entries)
      → Named env s
      → Named env (exec (Queue.commit j raw entries) s).1
  unfolding exec update_of text_eq
  commit-Named j raw entries s names n =
      rw (exec-commit j raw entries s)
        (go (is_text raw (s.hash running j)) (mem raw (s.list processing)) refl)
    where
      left : Named env (left_by j raw s)
      left = exec-Named env (do_update (hdel running j)) s (tt, tt) n

      go :
          (a b : Bool)
          → is_text raw (s.hash running j) ≡ a
          → Named env (commit_end a b j raw entries s).1
      go false b e = n
      go true false e = n
      go true true e =
          exec-Named env entries (left_by j raw s)
            (names (λ t p. n running j raw refl (eq_of_is_text raw (s.hash running j) e) t p)) left

  pub failed-Names :
      (t : Task) (raw : Text) (now : ℕ) (error : Text) (dead : Bool)
      → IsOwn env t.task_id raw
      → Names env (Queue.failed_entries env c t raw now error dead)
  unfolding Queue.failed_entries Queue.dead_entries
  failed-Names t raw now error true own = (tt, ((λ h. own), (tt, ((λ h. cc h), tt))))
  failed-Names t raw now error false own = (tt, ((λ h. cc h), tt))

  start-Names :
      (t : Task) (raw claim running_raw : Text) (now : ℕ)
      → to_json env t ≡ ok running_raw
      → Names env (Queue.start env c t raw claim running_raw now)
  unfolding Queue.start Queue.start_claimed Queue.start_found
  start-Names t raw claim running_raw now q o = go (is_text claim o)
    where
      own : IsOwn env t.task_id running_raw
      own r p =
          let same : t ≡ r = ground (arith, p, from_json-to_json env t running_raw q) in
          ap (λ (v : Task). v.task_id) (sym same)

      found : (b : Bool) → Names env (Queue.start_found env c t raw running_raw now b)
      found true = (tt, (tt, ((λ h. own), (tt, ((λ h. cc h), tt)))))
      found false = tt

      go : (b : Bool) → Names env (Queue.start_claimed env c t raw running_raw now b)
      go true = found
      go false = tt

  -- the effect of an event says nothing of the data
  pub effect-Sound :
      {A : Type 0} (id : Text) (p : Script A) (f : A → Effect) (s : Keyspace)
      → Sound id (exec p s).1
      → Sound id (exec (p >>= λ a. done (f a)) s).1
  unfolding exec
  effect-Sound id p f s h = rw (exec->>= p (λ a. done (f a)) s) h

  promote-Names : (raw : Text) → Names env (Queue.promote raw)
  unfolding Queue.promote
  promote-Names raw true = (tt, tt)
  promote-Names raw false = tt

  take-Names : (claim : Text) → Names env (Queue.take claim)
  unfolding Queue.take Queue.claim_raw
  take-Names claim none = tt
  take-Names claim (some raw) = (tt, ((λ h. cc h), tt))

  orphan-Names : (raw claim : Text) → Names env (Queue.reclaim_orphan raw claim)
  unfolding Queue.reclaim_orphan Queue.restore_orphan
  orphan-Names raw claim o = go (is_text claim o)
    where
      removed : (b : Bool) → Names env (only_if b (do_update (lpush pending raw)) >> done b)
      removed true = (tt, tt)
      removed false = tt

      go :
          (b : Bool)
          → Names env (
              if not b then done false else (do
                removed ← do_attempt (lrem processing raw)
                do_update (hdel claims raw)
                only_if removed (do_update (lpush pending raw))
                done removed))
      go true = λ b. (tt, removed b)
      go false = tt

  exhaust-Names :
      (q : Task) (raw : Text) (now : ℕ)
      → IsOwn env q.task_id raw
      → Names env (Queue.exhaust env c q raw now)
  unfolding Queue.exhaust
  exhaust-Names q raw now own = λ b. (tt, (tt, ((λ h. cc h), ((λ h. own), (tt, tt)))))

  reject-Names : (raw : Text) → Names env (Queue.reject raw)
  unfolding Queue.reject
  reject-Names raw = λ b. (tt, (tt, tt))

  IsOwn-of : (raw : Text) (q : Task) → from_json env raw ≡ ok q → IsOwn env q.task_id raw
  IsOwn-of raw q p r e =
      let same : q ≡ r = ground (arith, p, e) in ap (λ (v : Task). v.task_id) (sym same)

  same_id :
      (q t : Task)
      → validate env (raw_of (record q { attempt = q.attempt + 1 })) ≡ ok t
      → t.task_id ≡ q.task_id
  unfolding raw_of
  same_id q t e =
      ground (arith, (validate-ok env (raw_of (record q { attempt = q.attempt + 1 })) t e).0)

  pub promote-Sound :
      (raw id : Text) (s : Keyspace) → Sound id s → Sound id (exec (Queue.promote raw) s).1
  promote-Sound raw id s (n, k) =
      (exec-Named env (Queue.promote raw) s (promote-Names raw) n, promote-Tracked env raw id s k)

  pub take-Sound :
      (claim id : Text) (s : Keyspace) → Sound id s → Sound id (exec (Queue.take claim) s).1
  take-Sound claim id s (n, k) =
      (exec-Named env (Queue.take claim) s (take-Names claim) n, take-Tracked env claim id s k)

  pub orphan-Sound :
      (raw claim id : Text) (s : Keyspace)
      → Sound id s
      → Sound id (exec (Queue.reclaim_orphan raw claim) s).1
  orphan-Sound raw claim id s (n, k) = (
    exec-Named env (Queue.reclaim_orphan raw claim) s (orphan-Names raw claim) n,
    orphan-Tracked env raw claim id s k,
  )

  pub settle-Sound :
      (raw claim id : Text) (now : ℕ) (s : Keyspace)
      → Sound id s
      → Sound id (exec (or_nothing starts (Queue.settle env c raw claim now)) s).1
  unfolding exec Queue.settle
  settle-Sound raw claim id now s (n, k) = go (from_json env raw) refl
    where
      encoded :
          (queued t : Task) (m : Result Text)
          → from_json env raw ≡ ok queued
          → to_json env t ≡ m
          → t.task_id ≡ queued.task_id
          → Sound id (exec (or_nothing starts (Queue.start_encoded env c t raw claim now m)) s).1
      encoded queued t (err e) p q same = (n, k)
      encoded queued t (ok running_raw) p q same =
          effect-Sound id (Queue.start env c t raw claim running_raw now) starts s (
            exec-Named env _ s (start-Names t raw claim running_raw now q) n,
            start-Tracked env c t queued raw claim running_raw id now s p q same k,
          )

      valid :
          (queued : Task) (m : Result Task)
          → from_json env raw ≡ ok queued
          → validate env (raw_of (record queued { attempt = queued.attempt + 1 })) ≡ m
          → Sound id (exec (or_nothing starts (Queue.start_valid env c raw claim now m)) s).1
      valid queued (err e) p q = (n, k)
      valid queued (ok t) p q = encoded queued t (to_json env t) p refl (same_id queued t q)

      fresh :
          (b : Bool) (queued : Task)
          → from_json env raw ≡ ok queued
          → Sound id
              (exec
                (or_nothing starts (
                  if b
                  then ok (Queue.exhaust env c queued raw now)
                  else Queue.start_valid env c raw claim now
                      (validate env (raw_of (record queued { attempt = queued.attempt + 1 })))))
                s).1
      fresh true queued p = effect-Sound id (Queue.exhaust env c queued raw now) starts s (
        exec-Named env _ s (exhaust-Names queued raw now (IsOwn-of raw queued p)) n,
        exhaust-Tracked env c queued raw id now s k,
      )
      fresh false queued p =
          valid queued (validate env (raw_of (record queued { attempt = queued.attempt + 1 }))) p
            refl

      go :
          (m : Result Task)
          → from_json env raw ≡ m
          → Sound id (exec (or_nothing starts (Queue.settle_read env c raw claim now m)) s).1
      go (ok queued) p = fresh (leb queued.max_attempts queued.attempt) queued p
      go (err (value_error x)) p =
          effect-Sound id (Queue.reject raw) starts s (
            exec-Named env (Queue.reject raw) s (reject-Names raw) n,
            reject-Tracked env raw id s k,
          )
      go (err (runtime_error x)) p = (n, k)
      go (err _) p = (n, k)

  reclaim_script-Named :
      (j raw : Text) (now : ℕ) (dead : Bool) (result : Text) (s : Keyspace)
      → Named env s
      → Named env (exec (Queue.reclaim_script env c j raw now dead result) s).1
  unfolding exec Queue.reclaim_script Queue.reclaim_scored Queue.reclaim_owned Queue.reclaim_entries
      fetch_of
  reclaim_script-Named j raw now dead result s n = go (Queue.is_expired now (s.zset leases j))
    where
      names :
          (dead : Bool)
          → IsOwn env j raw
          → Names env (Queue.reclaim_owned env c j raw now dead result true)
      names true own = λ a b. (tt, (tt, ((λ h. cc h), (tt, ((λ h. own), tt)))))
      names false own = λ a b. (tt, (tt, ((λ h. cc h), tt)))

      at :
          (b : Bool)
          → is_text raw (s.hash running j) ≡ b
          → Named env (exec (Queue.reclaim_owned env c j raw now dead result b) s).1
      at false e = n
      at true e =
          exec-Named env (Queue.reclaim_owned env c j raw now dead result true) s
            (names dead (λ t p. n running j raw refl (eq_of_is_text raw (s.hash running j) e) t p))
            n

      go : (b : Bool) → Named env (exec (Queue.reclaim_scored env c j raw now dead result b) s).1
      go false = n
      go true = at (is_text raw (s.hash running j)) refl

  pub reclaim-Sound :
      (j raw id : Text) (now : ℕ) (s : Keyspace)
      → Sound id s
      → Sound id (exec (or_nothing (leaves j) (Queue.reclaim env c j raw now)) s).1
  unfolding exec Queue.reclaim
  reclaim-Sound j raw id now s (n, k) = go (Queue.judge_lease env c j now (from_json env raw))
    where
      go :
          (m : Result (Bool × Text))
          → Sound id (exec (or_nothing (leaves j) (Queue.reclaim_judged env c j raw now m)) s).1
      go (err e) = (n, k)
      go (ok (dead, result)) =
          effect-Sound id (Queue.reclaim_script env c j raw now dead result) (leaves j) s (
            reclaim_script-Named j raw now dead result s n,
            reclaim-Tracked env c j raw id now dead result s k,
          )

  pub defer-Sound :
      (t : Task) (raw id : Text) (now : ℕ) (s : Keyspace)
      → Sound id s
      → Sound id (exec (or_nothing (leaves t.task_id) (Queue.defer_locked env c t raw now)) s).1
  unfolding exec Queue.defer_locked Queue.defer_entries
  defer-Sound t raw id now s (n, k) = go (to_json env (record t { attempt = t.attempt - 1 })) refl
    where
      go :
          (m : Result Text)
          → to_json env (record t { attempt = t.attempt - 1 }) ≡ m
          → Sound id
              (exec (or_nothing (leaves t.task_id) (Queue.defer_encoded env c t raw now m)) s).1
      go (err e) q = (n, k)
      go (ok queued_raw) q =
          effect-Sound id (Queue.commit t.task_id raw (Queue.defer_entries env c t queued_raw now))
            (leaves t.task_id) s
            (
              commit-Named t.task_id raw _ s (λ own. (tt, ((λ h. cc h), tt))) n,
              defer-Tracked env c t raw queued_raw id now s q n k,
            )

  pub enqueue-Sound :
      (t : Task) (id : Text) (now : ℕ) (s : Keyspace)
      → Sound id s
      → Sound id (exec (or_nothing quiet (Queue.enqueue env c t now)) s).1
  unfolding exec Queue.enqueue Queue.enqueue_raw Queue.add_new
  enqueue-Sound t id now s (n, k) = go (to_json env t)
    where
      names : (o : Option Text) (raw : Text) → Names env (Queue.add_new env c t raw now o)
      names none raw = ((λ h. cc h), ((λ h. cc h), (tt, ((λ h. cc h), tt))))
      names (some x) raw = tt

      safe : (x : Text) (o : Option Text) (raw : Text) → Safe x id (Queue.add_new env c t raw now o)
      safe x none raw = tt
      safe x (some y) raw = tt

      go :
          (m : Result Text)
          → Sound id (exec (or_nothing quiet (Queue.enqueue_encoded env c t now m)) s).1
      go (err e) = (n, k)
      go (ok raw) = effect-Sound id (Queue.enqueue_raw env c t raw now) quiet s (
        exec-Named env (Queue.enqueue_raw env c t raw now) s (λ o. names o raw) n,
        Safe-Tracked env (Queue.enqueue_raw env c t raw now) id s (λ x. (tt, λ o. safe x o raw)) k,
      )
