-- ===== src/Worker/Survive.antt =====
-- Every history of services/worker/worker.py keeps track of every task that it does not prune.
use android_farm.Prelude.{
  ℕ, Text, text_eq, text_eq_iff, ◌≡◌, refl, Bool, true, false, not, List, [], ◌∷◌, Option, none,
  some, arith, all,
}
use android_farm.Json.{Json}
use android_farm.Worker.Redis.{
  Redis, Keyspace, archives, terminal, idempotency, task_keys, results, lock, hdel, del, zrem,
  Script, done, updates, fetches, attempts, scores, ◌>>=◌, ◌>>◌, do_update, do_attempt, do_fetch,
  hget, running, exec, fetch_of,
}
use android_farm.Worker.Task.{Task, Config, Env}
use android_farm.Worker.Queue
use android_farm.Worker.Queue.{is_text, only_if}
use android_farm.Worker.Named.{Named, Names, exec-Named, >>=-Names, only_if-Names}
use android_farm.Worker.Held.{Safe}
use android_farm.Worker.Kept.{Tracked, exec-Tracked, Safe-Tracked}
use android_farm.Worker.Lost.{finish-Tracked, fail-Tracked}
use android_farm.Worker.Durable.{
  Sound, commit-Named, failed-Names, effect-Sound, promote-Sound, take-Sound, orphan-Sound,
  settle-Sound, reclaim-Sound, defer-Sound, enqueue-Sound,
}
use android_farm.Worker.History.{
  Event, enqueued, promoted, pruned, taken, settled, orphan_reclaimed, lease_reclaimed, lease_read,
  lease_dropped, acquired, released, renewed, lock_expired, finished, failed, deferred, nothing,
  leaves, script, replay, run_all, run_all_refines,
}

-- the event does not expire what is known of this task
abbrev pub spares : Text → Event → Bool
spares id (pruned j) = not (text_eq j id)
spares id _ = true

>>=-Safe :
    {A B : Type 0} (x id : Text) (p : Script A) (f : A → Script B)
    → Safe x id p
    → ((a : A) → Safe x id (f a))
    → Safe x id (p >>= f)
>>=-Safe x id (done a) f h g = g a
>>=-Safe x id (updates c p) f h g = >>=-Safe x id p f h g
>>=-Safe x id (fetches c p) f h g = (h.0, λ o. >>=-Safe x id (p o) f (h.1 o) g)
>>=-Safe x id (attempts c p) f h g = (h.0, λ b. >>=-Safe x id (p b) f (h.1 b) g)
>>=-Safe x id (scores k m p) f h g = λ o. >>=-Safe x id (p o) f (h o) g

only_if-Safe :
    (x id : Text) (b : Bool) (p : Script (Unit {0})) → Safe x id p → Safe x id (only_if b p)
only_if-Safe x id true p h = h
only_if-Safe x id false p h = tt

-- the rest of `prune` when the keys have been read
abbrev forget : Text → Option Text → Option Text → Script Bool
forget j key raw = do
  Queue.forget_raw raw
  Queue.forget_key j key
  do_update (hdel results j)
  do_update (hdel task_keys j)
  do_update (hdel archives j)
  _ ← do_attempt (zrem terminal j)
  done true

forget_key-Safe : (x id j : Text) (o : Option Text) → Safe x id (Queue.forget_key j o)
unfolding Queue.forget_key
forget_key-Safe x id j none = tt
forget_key-Safe x id j (some key) =
    (tt, λ o. only_if-Safe x id (is_text j o) (do_update (hdel idempotency key)) tt)

forget-Safe :
    (x id j : Text) (key raw : Option Text)
    → Safe x id (Queue.forget_raw raw)
    → text_eq j id ≡ false
    → Safe x id (forget j key raw)
unfolding text_eq
forget-Safe x id j key raw h d = >>=-Safe x id (Queue.forget_raw raw) _ h (λ u.
    >>=-Safe x id (Queue.forget_key j key) _ (forget_key-Safe x id j key)
      (λ u. ((refl, d), λ b. tt)))

module _ (env : Env) (c : Config) where
  forget_key-Names : (j : Text) (o : Option Text) → Names env (Queue.forget_key j o)
  unfolding Queue.forget_key
  forget_key-Names j none = tt
  forget_key-Names j (some key) =
      λ o. only_if-Names env (is_text j o) (do_update (hdel idempotency key)) (tt, tt)

  forget-Names : (j : Text) (key raw : Option Text) → Names env (forget j key raw)
  unfolding Queue.forget_raw
  forget-Names j key none =
      >>=-Names env (Queue.forget_key j key) _ (forget_key-Names j key)
        (λ u. (tt, (tt, (tt, λ b. tt))))
  forget-Names j key (some raw) = λ b.
      >>=-Names env (Queue.forget_key j key) _ (forget_key-Names j key)
        (λ u. (tt, (tt, (tt, λ b. tt))))

  prune-Sound :
      (j id : Text) (s : Keyspace)
      → text_eq j id ≡ false
      → Sound env c id s
      → Sound env c id (exec (Queue.prune j) s).1
  unfolding exec Queue.prune Queue.prune_known Queue.forget_raw fetch_of
  prune-Sound j id s d (n, k) = go (s.zset terminal j) (s.hash archives j) refl
    where
      forgotten :
          (raw : Option Text)
          → s.hash archives j ≡ raw
          → Tracked env id (exec (forget j (s.hash task_keys j) raw) s).1
      forgotten none e =
          Safe-Tracked env (forget j (s.hash task_keys j) none) id s
            (λ x. forget-Safe x id j (s.hash task_keys j) none tt d) k
      forgotten (some raw) e =
          exec-Tracked env (forget j (s.hash task_keys j) (some raw)) raw id s
            (λ x q. forget-Safe x id j (s.hash task_keys j) (some raw) (q, λ b. tt) d)
            (λ t p m h.
              let own = n archives j raw refl e t p in
              let bad : ⊥ = ground (arith, text_eq_iff j id, own, m, d) in absurd bad)
            k

      go :
          (o : Option ℕ) (raw : Option Text)
          → s.hash archives j ≡ raw
          → Sound env c id (exec (Queue.prune_known j o) s).1
      go none raw e = (n, k)
      go (some score) raw e = (
        exec-Named env (forget j (s.hash task_keys j) (s.hash archives j)) s
            (forget-Names j (s.hash task_keys j) (s.hash archives j)) n,
        forgotten (s.hash archives j) refl,
      )

  -- the scripts that touch only leases and locks
  plain-Sound :
      {A : Type 0} (id : Text) (p : Script A) (s : Keyspace)
      → Names env p
      → ((x : Text) → Safe x id p)
      → Sound env c id s
      → Sound env c id (exec (p >>= λ a. done nothing) s).1
  plain-Sound id p s names safe (n, k) =
      effect-Sound env c id p (λ a. nothing) s
        (exec-Named env p s names n, Safe-Tracked env p id s safe k)

  finish-Sound :
      (t : Task) (raw id : Text) (now : ℕ) (duration : Json) (s : Keyspace)
      → Sound env c id s
      → Sound env c id (exec (Queue.finish env c t raw now duration) s).1
  unfolding Queue.finish
  finish-Sound t raw id now duration s (n, k) = (
    commit-Named env c t.task_id raw _ s (λ own. ((λ h. cc h), (tt, tt))) n,
    finish-Tracked env c t raw id now duration s n k,
  )

  fail-Sound :
      (t : Task) (raw id : Text) (now : ℕ) (error : Text) (s : Keyspace)
      → Sound env c id s
      → Sound env c id (exec (Queue.fail env c t raw now error) s).1
  unfolding Queue.fail
  fail-Sound t raw id now error s (n, k) = (
    commit-Named env c t.task_id raw _ s (failed-Names env c t raw now error (Queue.is_dead t)) n,
    fail-Tracked env c t raw id now error s k,
  )

  script-Sound :
      (e : Event) (id : Text) (s : Keyspace)
      → spares id e ≡ true
      → Sound env c id s
      → Sound env c id (exec (script env c e) s).1
  unfolding script Queue.drop_lease Queue.acquire_device Queue.release_device Queue.renew
      Queue.renew_owned text_eq
  script-Sound (enqueued t now) id s h k = enqueue-Sound env c t id now s k
  script-Sound (promoted raw) id s h k =
      effect-Sound env c id (Queue.promote raw) (λ b. nothing) s (promote-Sound env c raw id s k)
  script-Sound (pruned j) id s h k =
      effect-Sound env c id (Queue.prune j) (λ b. nothing) s
        (prune-Sound j id s (ground (arith, h)) k)
  script-Sound (taken claim) id s h k =
      effect-Sound env c id (Queue.take claim) (λ b. nothing) s (take-Sound env c claim id s k)
  script-Sound (settled raw claim now) id s h k = settle-Sound env c raw claim id now s k
  script-Sound (orphan_reclaimed raw claim) id s h k =
      effect-Sound env c id (Queue.reclaim_orphan raw claim) (λ b. nothing) s
        (orphan-Sound env c raw claim id s k)
  script-Sound (lease_reclaimed j raw now) id s h k = reclaim-Sound env c j raw id now s k
  script-Sound (lease_read j) id s h k =
      plain-Sound id (do_fetch (hget running j)) s (λ o. tt) (λ x. (tt, λ o. tt)) k
  script-Sound (lease_dropped j) id s h k =
      plain-Sound id (Queue.drop_lease j) s (λ b. tt) (λ x. ((refl, refl), λ b. tt)) k
  script-Sound (acquired t) id s h k =
      plain-Sound id (Queue.acquire_device t) s (λ b. tt) (λ x. (tt, λ b. tt)) k
  script-Sound (released t) id s h k =
      plain-Sound id (Queue.release_device t) s
        (λ o. only_if-Names env (is_text t.task_id o) (do_update (del (Queue.lock_of t))) (tt, tt))
        (λ x.
          (tt, λ o. only_if-Safe x id (is_text t.task_id o) (do_update (del (Queue.lock_of t))) tt))
        k
  script-Sound (renewed t now) id s h k =
      plain-Sound id (Queue.renew env c t now) s (λ o. names (is_text t.task_id o))
        (λ x. (tt, λ o. safe x (is_text t.task_id o))) k
    where
      names : (b : Bool) → Names env (Queue.renew_owned env c t now b)
      names true = (tt, tt)
      names false = tt

      safe : (x : Text) (b : Bool) → Safe x id (Queue.renew_owned env c t now b)
      safe x true = tt
      safe x false = tt
  script-Sound (lock_expired x) id s h k =
      plain-Sound id (do_update (del (lock x))) s (tt, tt) (λ y. tt) k
  script-Sound (finished t raw now duration) id s h k =
      effect-Sound env c id (Queue.finish env c t raw now duration) (leaves t.task_id) s
        (finish-Sound t raw id now duration s k)
  script-Sound (failed t raw now error) id s h k =
      effect-Sound env c id (Queue.fail env c t raw now error) (leaves t.task_id) s
        (fail-Sound t raw id now error s k)
  script-Sound (deferred t raw now) id s h k = defer-Sound env c t raw id now s k

  replay-Sound :
      (es : List Event) (id : Text) (s : Keyspace)
      → all (spares id) es ≡ true
      → Sound env c id s
      → Sound env c id (replay env c es s).1
  unfolding replay
  replay-Sound [] id s h k = k
  replay-Sound (e ∷ es) id s h k =
      replay-Sound es id (exec (script env c e) s).1 (ground (arith, h))
        (script-Sound e id s (ground (arith, h)) k)

  -- On any Redis that does what the manual says, and however the scripts are interleaved, a task
  -- that waits in one of the lists or in the schedule, or has its final result, does so after any
  -- history that does not prune it, if the entries of running tasks and of the archive stand under
  -- the identifiers of their own tasks at the start.
  pub history-Tracked :
      (r : Redis) (es : List Event) (id : Text) (d : r.Db)
      → all (spares id) es ≡ true
      → Named env (r.view d)
      → Tracked env id (r.view d)
      → Tracked env id (r.view (run_all env c r es d).1)
  history-Tracked r es id d h n k =
      rw (run_all_refines env c r es d).1 (replay-Sound es id (r.view d) h (n, k)).1
