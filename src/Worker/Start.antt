-- ===== src/Worker/Start.antt =====
-- What `reserve` of services/worker/worker.py gives to a worker.
use android_farm.Prelude.{
  ℕ, ◌+◌, Text, text_eq, text_eq_iff, text_eq_refl, ◌≡◌, refl, sym, ap, ◌∙◌, Bool, true, false,
  Option, none, some, value_error, Result, ok, err, if◌then◌else◌, arith, leb,
}
use android_farm.Worker.Redis.{
  Keyspace, Script, exec, processing, claims, running, update_of, fetch_of, attempt_of, lrem,
}
use android_farm.Worker.Task.{Task, Config, Env, raw_of, to_json, from_json, validate}
use android_farm.Worker.Valid.{IsTask, validate-ok, to_json-ok, from_json-to_json, raw_of-injective}
use android_farm.Worker.Queue
use android_farm.Worker.Queue.{is_text}

module _ (env : Env) (c : Config) where
  -- The task is the queued one in its next attempt, valid, and recorded as running; the worker
  -- still had its claim.
  pub record IsStarted (raw claim : Text) (s s' : Keyspace) (t : Task) (running_raw : Text)
      : Type 0 where
    pub queued : Task
    pub read : from_json env raw ≡ ok queued
    pub next : t ≡ record queued { attempt = queued.attempt + 1 }
    pub valid : IsTask env t
    pub reads_back : from_json env running_raw ≡ ok t
    pub owned : s.hash claims raw ≡ some claim
    pub recorded : s'.hash running t.task_id ≡ some running_raw

  reject-none : (raw : Text) (s : Keyspace) → (exec (Queue.reject raw) s).0 ≡ none
  unfolding Queue.reject exec
  reject-none raw s = refl

  exhaust-none :
      (q : Task) (raw : Text) (now : ℕ) (s : Keyspace)
      → (exec (Queue.exhaust env c q raw now) s).0 ≡ none
  unfolding Queue.exhaust exec
  exhaust-none q raw now s = refl

  module _ (t : Task) (raw running_raw : Text) (now : ℕ) where
    -- a script that answers with the task has recorded it
    abbrev Starts : Script (Option (Task × Text)) → Keyspace → Type 0
    Starts p s =
        (u : Task) (other : Text)
        → (exec p s).0 ≡ some (u, other)
        → (u ≡ t) × (other ≡ running_raw) × ((exec p s).1.hash running t.task_id ≡ some running_raw)

    found-Starts :
        (b : Bool) (s : Keyspace) → Starts (Queue.start_found env c t raw running_raw now b) s
    unfolding exec Queue.start_found update_of text_eq
    found-Starts false s u other e = cc e
    found-Starts true s u other e = (cc e, cc e, ground (arith, text_eq_refl t.task_id))

    claimed-Starts :
        (b : Bool) (s : Keyspace) (u : Task) (other : Text)
        → (exec (Queue.start_claimed env c t raw running_raw now b) s).0 ≡ some (u, other)
        → (b ≡ true) × Starts (Queue.start_claimed env c t raw running_raw now b) s
    unfolding exec Queue.start_claimed
    claimed-Starts false s u other e = cc e
    claimed-Starts true s u other e =
        let tried = attempt_of (lrem processing raw) s in (refl, found-Starts tried.0 tried.1)

    start-Starts :
        (claim : Text) (s : Keyspace) (u : Task) (other : Text)
        → (exec (Queue.start env c t raw claim running_raw now) s).0 ≡ some (u, other)
        → (s.hash claims raw ≡ some claim)
          × Starts (Queue.start env c t raw claim running_raw now) s
    unfolding exec Queue.start fetch_of
    start-Starts claim s u other e =
        let (own, starts) = claimed-Starts (is_text claim (s.hash claims raw)) s u other e in
        (owner (s.hash claims raw) own, starts)
      where
        owner : (o : Option Text) → is_text claim o ≡ true → o ≡ some claim
        owner none h = cc h
        owner (some x) h = ap some ((text_eq_iff x claim).0 h)

  -- What the second part of `reserve` gives to a worker is the queued task in its next attempt,
  -- valid, so that the attempt is at least 1 and at most the limit of at most 10; it is recorded
  -- as running, is read back from the record, and the worker's claim on the entry still stood.
  pub settle-IsStarted :
      (raw claim : Text) (now : ℕ) (p : Script (Option (Task × Text))) (s : Keyspace) (t : Task)
      (running_raw : Text)
      → Queue.settle env c raw claim now ≡ ok p
      → (exec p s).0 ≡ some (t, running_raw)
      → IsStarted raw claim s (exec p s).1 t running_raw
  unfolding Queue.settle Queue.settle_read exec
  settle-IsStarted raw claim now p s t running_raw e h = go (from_json env raw) refl e
    where
      encoded :
          (q u : Task) (m : Result Text)
          → from_json env raw ≡ ok q
          → u ≡ record q { attempt = q.attempt + 1 }
          → to_json env u ≡ m
          → Queue.start_encoded env c u raw claim now m ≡ ok p
          → IsStarted raw claim s (exec p s).1 t running_raw
      encoded q u (err x) r n w e = cc e
      encoded q u (ok written) r n w e =
          let same : Queue.start env c u raw claim written now ≡ p = cc e in
          let h' = ap (λ q. (exec q s).0) same ∙ h in
          let (own, starts) = start-Starts u raw written now claim s t running_raw h' in
          let (a, b, recorded) = starts t running_raw h' in
          record {
            queued = q;
            read = r;
            next = a ∙ n;
            valid = rw a (to_json-ok env u written w).0;
            reads_back = rw (a, b) (from_json-to_json env u written w);
            owned = own;
            recorded =
                rw (a, b) (ap (λ q. (exec q s).1.hash running u.task_id) (sym same) ∙ recorded);
          }

      validated :
          (q : Task) (m : Result Task)
          → from_json env raw ≡ ok q
          → validate env (raw_of (record q { attempt = q.attempt + 1 })) ≡ m
          → Queue.start_valid env c raw claim now m ≡ ok p
          → IsStarted raw claim s (exec p s).1 t running_raw
      validated q (err x) r v e = cc e
      validated q (ok u) r v e =
          encoded q u (to_json env u) r (sym (raw_of-injective env _ u (validate-ok env _ u v).0))
            refl e

      limited :
          (q : Task) (b : Bool)
          → from_json env raw ≡ ok q
          → leb q.max_attempts q.attempt ≡ b
          → (if b
              then ok (Queue.exhaust env c q raw now)
              else Queue.start_valid env c raw claim now
                  (validate env (raw_of (record q { attempt = q.attempt + 1 }))))
            ≡ ok p
          → IsStarted raw claim s (exec p s).1 t running_raw
      limited q true r l e =
          let same : Queue.exhaust env c q raw now ≡ p = cc e in
          let bad : none ≡ some (t, running_raw) =
            sym (exhaust-none q raw now s) ∙ ap (λ q. (exec q s).0) same ∙ h in
          cc bad
      limited q false r l e = validated q _ r refl e

      go :
          (m : Result Task)
          → from_json env raw ≡ m
          → Queue.settle_read env c raw claim now m ≡ ok p
          → IsStarted raw claim s (exec p s).1 t running_raw
      go (ok q) r e = limited q (leb q.max_attempts q.attempt) r refl e
      go (err (value_error x)) r e =
          let same : Queue.reject raw ≡ p = cc e in
          let bad : none ≡ some (t, running_raw) =
            sym (reject-none raw s) ∙ ap (λ q. (exec q s).0) same ∙ h in
          cc bad
      go (err _) r e = cc e
