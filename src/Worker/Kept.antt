-- ===== src/Worker/Kept.antt =====
-- No task is lost on the queue of services/worker/worker.py.
use android_farm.Prelude.{
  ℕ, Text, text_eq, text_eq_iff, text_eq_refl, ◌≡◌, refl, Bool, true, false, not, ◌||◌, ◌⊎◌, inl,
  inr, List, [], ◌∷◌, Option, none, some, arith, mem, if◌then◌else◌, ok,
}
use android_farm.Worker.Redis.{
  Keyspace, pending, processing, scheduled, leases, running, claims, lpush, hdel, lrem, Script,
  done, ◌>>=◌, ◌>>◌, do_update, do_attempt, exec, update_of, fetch_of, attempt_of, is_some,
  pop_last, put_zset, put_list, put_hash,
}
use android_farm.Worker.Task.{Task, Config, Env, from_json}
use android_farm.Worker.Queue
use android_farm.Worker.Queue.{is_text, only_if}
use android_farm.Worker.Effects.{taken_out}
use android_farm.Worker.Held.{held, ended, Safe, exec-held, exec-ended, another, mem-remove_absent}

module _ (env : Env) where
  -- the task waits somewhere, or has its final result
  abbrev pub Tracked : Text → Keyspace → Type 0
  Tracked id s =
      ((x : Text) × (t : Task) × (from_json env x ≡ ok t) × (t.task_id ≡ id) × (held x s ≡ true))
      ⊎ (ended id s ≡ true)

  -- A script that takes away at most the entry `raw` keeps track if it puts its task elsewhere.
  pub exec-Tracked :
      {A : Type 0} (p : Script A) (raw id : Text) (s : Keyspace)
      → ((x : Text) → text_eq raw x ≡ false → Safe x id p)
      → ((t : Task)
          → from_json env raw ≡ ok t
          → t.task_id ≡ id
          → held raw s ≡ true
          → Tracked id (exec p s).1)
      → Tracked id s
      → Tracked id (exec p s).1
  exec-Tracked p raw id s safe here (inr e) =
      let (y, d) = another raw in inr (exec-ended p y id s (safe y d) e)
  exec-Tracked p raw id s safe here (inl (x, t, e, n, h)) = go (text_eq raw x) refl
    where
      go : (b : Bool) → text_eq raw x ≡ b → Tracked id (exec p s).1
      go false d = inl (x, t, e, n, exec-held p x id s (safe x d) h)
      go true d = let same : raw ≡ x = (text_eq_iff raw x).0 d in here t (rw same e) n (rw same h)

  pub Safe-Tracked :
      {A : Type 0} (p : Script A) (id : Text) (s : Keyspace)
      → ((x : Text) → Safe x id p)
      → Tracked id s
      → Tracked id (exec p s).1
  Safe-Tracked p id s safe (inr e) = inr (exec-ended p id id s (safe id) e)
  Safe-Tracked p id s safe (inl (x, t, e, n, h)) = inl (x, t, e, n, exec-held p x id s (safe x) h)

  pub promote-Tracked :
      (raw id : Text) (s : Keyspace) → Tracked id s → Tracked id (exec (Queue.promote raw) s).1
  unfolding Queue.promote text_eq exec update_of attempt_of mem
  promote-Tracked raw id s =
      exec-Tracked (Queue.promote raw) raw id s (λ x d. ((d, refl), safe x))
        (λ t e n h. inl (raw, t, e, n, again h))
    where
      safe : (x : Text) (b : Bool) → Safe x id (only_if b (do_update (lpush pending raw)) >> done b)
      safe x true = tt
      safe x false = tt

      again : held raw s ≡ true → held raw (exec (Queue.promote raw) s).1 ≡ true
      again h = go (is_some (s.zset scheduled raw)) refl
        where
          go :
              (b : Bool)
              → is_some (s.zset scheduled raw) ≡ b
              → held raw
                  (exec
                    (only_if b (do_update (lpush pending raw)) >> done b)
                    (put_zset scheduled s raw none)).1
                ≡ true
          go true e = ground (arith, text_eq_refl raw)
          go false e = ground (arith, text_eq_refl raw, h, e)

  pub reject-Tracked :
      (raw id : Text) (s : Keyspace) → Tracked id s → Tracked id (exec (Queue.reject raw) s).1
  unfolding Queue.reject exec update_of attempt_of mem
  reject-Tracked raw id s =
      exec-Tracked (Queue.reject raw) raw id s (λ x d. (d, λ b. tt))
        (λ t e n h. inl (raw, t, e, n, ground (arith, text_eq_refl raw)))

  pop_last-mem :
      (x : Text) (xs : List Text) → mem x xs ≡ (is_text x (pop_last xs).0 || mem x (pop_last xs).1)
  unfolding mem pop_last
  pop_last-mem x [] = refl
  pop_last-mem x (y ∷ []) = ground (arith, text_eq_iff x y, text_eq_iff y x)
  pop_last-mem x (y ∷ z ∷ zs) = ground (arith, pop_last-mem x (z ∷ zs))

  pub take-Tracked :
      (claim id : Text) (s : Keyspace) → Tracked id s → Tracked id (exec (Queue.take claim) s).1
  unfolding Queue.take Queue.claim_raw exec fetch_of update_of text_eq mem
  take-Tracked claim id s (inr e) = go (pop_last (s.list pending)).0
    where
      go :
          (o : Option Text)
          → Tracked id
              (exec (Queue.claim_raw claim o) (put_list pending s (pop_last (s.list pending)).1)).1
      go none = inr e
      go (some y) = inr e
  take-Tracked claim id s (inl (x, t, e, n, h)) = go (pop_last (s.list pending)).0 refl
    where
      go :
          (o : Option Text)
          → (pop_last (s.list pending)).0 ≡ o
          → Tracked id
              (exec (Queue.claim_raw claim o) (put_list pending s (pop_last (s.list pending)).1)).1
      go none p = inl (x, t, e, n, ground (arith, h, p, pop_last-mem x (s.list pending)))
      go (some y) p = inl (x, t, e, n, ground (arith, h, p, pop_last-mem x (s.list pending)))

  pub exhaust-Tracked :
      (c : Config) (q : Task) (raw id : Text) (now : ℕ) (s : Keyspace)
      → Tracked id s
      → Tracked id (exec (Queue.exhaust env c q raw now) s).1
  unfolding Queue.exhaust exec update_of attempt_of mem
  exhaust-Tracked c q raw id now s =
      exec-Tracked (Queue.exhaust env c q raw now) raw id s (λ x d. (d, λ b. tt))
        (λ t e n h. inl (raw, t, e, n, ground (arith, text_eq_refl raw)))

  pub orphan-Tracked :
      (raw claim id : Text) (s : Keyspace)
      → Tracked id s
      → Tracked id (exec (Queue.reclaim_orphan raw claim) s).1
  unfolding Queue.reclaim_orphan Queue.restore_orphan exec update_of attempt_of fetch_of text_eq mem
  orphan-Tracked raw claim id s k = go (is_text claim (s.hash claims raw))
    where
      body : Script Bool
      body = do
        removed ← do_attempt (lrem processing raw)
        do_update (hdel claims raw)
        only_if removed (do_update (lpush pending raw))
        done removed

      safe : (x : Text) (b : Bool) → Safe x id (only_if b (do_update (lpush pending raw)) >> done b)
      safe x true = tt
      safe x false = tt

      again :
          (b : Bool)
          → mem raw (s.list processing) ≡ b
          → held raw s ≡ true
          → held raw (exec body s).1 ≡ true
      again b e h = ends (mem raw (s.list processing)) refl
        where
          ends :
              (b : Bool)
              → mem raw (s.list processing) ≡ b
              → held raw
                  (exec
                    (only_if b (do_update (lpush pending raw)) >> done b)
                    (put_hash claims (taken_out raw s) raw none)).1
                ≡ true
          ends true e = ground (arith, text_eq_refl raw)
          ends false e = ground (arith, h, e, mem-remove_absent raw (s.list processing) e)

      go : (b : Bool) → Tracked id (exec (if not b then done false else body) s).1
      go false = k
      go true =
          exec-Tracked body raw id s (λ x d. (d, safe x))
            (λ t e n h. inl (raw, t, e, n, again (mem raw (s.list processing)) refl h)) k

  pub reclaim-Tracked :
      (c : Config) (j raw id : Text) (now : ℕ) (dead : Bool) (result : Text) (s : Keyspace)
      → Tracked id s
      → Tracked id (exec (Queue.reclaim_script env c j raw now dead result) s).1
  unfolding exec Queue.reclaim_script Queue.reclaim_scored Queue.reclaim_owned Queue.reclaim_entries
      fetch_of attempt_of update_of text_eq mem
  reclaim-Tracked c j raw id now dead result s k = go (Queue.is_expired now (s.zset leases j))
    where
      at : (b : Bool) → Tracked id (exec (Queue.reclaim_owned env c j raw now dead result b) s).1
      at false = k
      at true = moved dead
        where
          moved :
              (dead : Bool)
              → Tracked id (exec (Queue.reclaim_owned env c j raw now dead result true) s).1
          moved true =
              exec-Tracked (Queue.reclaim_owned env c j raw now true result true) raw id s
                (λ x d. (d, λ b. ((refl, refl), λ b. tt)))
                (λ t e n h. inl (raw, t, e, n, ground (arith, text_eq_refl raw))) k
          moved false =
              exec-Tracked (Queue.reclaim_owned env c j raw now false result true) raw id s
                (λ x d. (d, λ b. ((refl, refl), λ b. tt)))
                (λ t e n h. inl (raw, t, e, n, ground (arith, text_eq_refl raw))) k

      go : (b : Bool) → Tracked id (exec (Queue.reclaim_scored env c j raw now dead result b) s).1
      go false = k
      go true = at (is_text raw (s.hash running j))
