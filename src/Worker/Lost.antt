-- ===== src/Worker/Lost.antt =====
-- The scripts of services/worker/worker.py that give a task another entry or a result.
use android_farm.Prelude.{
  ℕ, ◌-◌, Text, text_eq, text_eq_iff, text_eq_refl, ◌≡◌, refl, sym, ap, ◌∙◌, Bool, true, false, inl,
  inr, Option, none, some, arith, mem, ok,
}
use android_farm.Json.{Json}
use android_farm.Worker.Redis.{
  Keyspace, processing, running, claims, Script, exec, update_of, fetch_of, attempt_of,
}
use android_farm.Worker.Task.{Task, Config, Env, to_json, from_json}
use android_farm.Worker.Valid.{from_json-to_json}
use android_farm.Worker.Queue
use android_farm.Worker.Queue.{is_text, only_if}
use android_farm.Worker.Effects.{exec-commit, commit_end, left_by, taken_out}
use android_farm.Worker.Named.{Named}
use android_farm.Worker.Held.{
  held, Safe, exec-held, exec-ended, mem-remove_absent, mem-remove_first,
}
use android_farm.Worker.Kept.{Tracked, exec-Tracked}

pub eq_of_is_text : (s : Text) (o : Option Text) → is_text s o ≡ true → o ≡ some s
eq_of_is_text s none h = cc h
eq_of_is_text s (some t) h = ap some ((text_eq_iff t s).0 h)

module _ (env : Env) (c : Config) where
  pub start-Tracked :
      (t queued : Task) (raw claim running_raw id : Text) (now : ℕ) (s : Keyspace)
      → from_json env raw ≡ ok queued
      → to_json env t ≡ ok running_raw
      → t.task_id ≡ queued.task_id
      → Tracked env id s
      → Tracked env id (exec (Queue.start env c t raw claim running_raw now) s).1
  unfolding Queue.start Queue.start_claimed Queue.start_found exec fetch_of attempt_of update_of
      text_eq mem
  start-Tracked t queued raw claim running_raw id now s p q same k =
      go (is_text claim (s.hash claims raw))
    where
      body : Script (Option (Task × Text))
      body = Queue.start_claimed env c t raw running_raw now true

      safe : (x : Text) (b : Bool) → Safe x id (Queue.start_found env c t raw running_raw now b)
      safe x true = tt
      safe x false = tt

      ends :
          (b : Bool)
          → mem raw (s.list processing) ≡ b
          → (r : Task) → from_json env raw ≡ ok r
          → r.task_id ≡ id
          → held raw s ≡ true
          → Tracked env id
              (exec (Queue.start_found env c t raw running_raw now b) (taken_out raw s)).1
      ends true e r f n h =
          let one : queued ≡ r = ground (arith, p, f) in
          inl (
            running_raw,
            t,
            from_json-to_json env t running_raw q,
            same ∙ ap (λ (v : Task). v.task_id) one ∙ n,
            ground (arith, text_eq_refl running_raw),
          )
      ends false e r f n h =
          inl (raw, r, f, n, ground (arith, h, e, mem-remove_absent raw (s.list processing) e))

      go :
          (b : Bool) → Tracked env id (exec (Queue.start_claimed env c t raw running_raw now b) s).1
      go false = k
      go true =
          exec-Tracked env body raw id s (λ x d. (d, safe x))
            (ends (mem raw (s.list processing)) refl) k

  -- the owner's entry goes, and its task has another one or a result
  pub commit-Tracked :
      (j raw id : Text) (entries : Script (Unit {0})) (s : Keyspace)
      → ((x : Text) → Safe x id entries)
      → (is_text raw (s.hash running j) ≡ true
          → (t : Task) → from_json env raw ≡ ok t
          → t.task_id ≡ id
          → Tracked env id (exec entries (left_by j raw s)).1)
      → Tracked env id s
      → Tracked env id (exec (Queue.commit j raw entries) s).1
  unfolding text_eq mem
  commit-Tracked j raw id entries s safe here k =
      rw (exec-commit j raw entries s)
        (go (is_text raw (s.hash running j)) (mem raw (s.list processing)) refl refl k)
    where
      go :
          (a b : Bool)
          → is_text raw (s.hash running j) ≡ a
          → mem raw (s.list processing) ≡ b
          → Tracked env id s
          → Tracked env id (commit_end a b j raw entries s).1
      go false b e f k = k
      go true false e f (inr h) = inr h
      go true false e f (inl (x, t, p, n, h)) = inl (
        x,
        t,
        p,
        n,
        ground (
          arith,
          h,
          f,
          mem-remove_absent raw (s.list processing) f,
          mem-remove_first x raw (s.list processing),
          text_eq_iff raw x,
          text_eq_iff x raw,
        ),
      )
      go true true e f (inr h) = inr (exec-ended entries id id (left_by j raw s) (safe id) h)
      go true true e f (inl (x, t, p, n, h)) = at (text_eq raw x) refl
        where
          at : (b : Bool) → text_eq raw x ≡ b → Tracked env id (exec entries (left_by j raw s)).1
          at true d = here e t (rw ((text_eq_iff raw x).0 d) p) n
          at false d = inl (
            x,
            t,
            p,
            n,
            exec-held entries x id (left_by j raw s) (safe x)
                (ground (arith, h, mem-remove_first x raw (s.list processing) d)),
          )

  pub finish-Tracked :
      (t : Task) (raw id : Text) (now : ℕ) (duration : Json) (s : Keyspace)
      → Named env s
      → Tracked env id s
      → Tracked env id (exec (Queue.finish env c t raw now duration) s).1
  unfolding Queue.finish exec update_of text_eq
  finish-Tracked t raw id now duration s named k =
      commit-Tracked t.task_id raw id _ s (λ x. tt)
        (λ owner r p n.
          let own =
            named running t.task_id raw refl (eq_of_is_text raw (s.hash running t.task_id) owner) r
              p in
          inr (ground (arith, text_eq_iff t.task_id id, own, n)))
        k

  pub fail-Tracked :
      (t : Task) (raw id : Text) (now : ℕ) (error : Text) (s : Keyspace)
      → Tracked env id s
      → Tracked env id (exec (Queue.fail env c t raw now error) s).1
  unfolding Queue.fail Queue.failed_entries Queue.dead_entries exec update_of text_eq mem
  fail-Tracked t raw id now error s k = go (Queue.is_dead t)
    where
      go :
          (dead : Bool)
          → Tracked env id
              (exec
                (Queue.commit t.task_id raw (Queue.failed_entries env c t raw now error dead))
                s).1
      go true =
          commit-Tracked t.task_id raw id _ s (λ x. tt)
            (λ owner r p n. inl (raw, r, p, n, ground (arith, text_eq_refl raw))) k
      go false =
          commit-Tracked t.task_id raw id _ s (λ x. tt)
            (λ owner r p n. inl (raw, r, p, n, ground (arith, text_eq_refl raw))) k

  pub defer-Tracked :
      (t : Task) (raw queued_raw id : Text) (now : ℕ) (s : Keyspace)
      → to_json env (record t { attempt = t.attempt - 1 }) ≡ ok queued_raw
      → Named env s
      → Tracked env id s
      → Tracked env id
          (exec (Queue.commit t.task_id raw (Queue.defer_entries env c t queued_raw now)) s).1
  unfolding Queue.defer_entries exec update_of text_eq mem
  defer-Tracked t raw queued_raw id now s q named k =
      commit-Tracked t.task_id raw id _ s (λ x. tt)
        (λ owner r p n.
          let own =
            named running t.task_id raw refl (eq_of_is_text raw (s.hash running t.task_id) owner) r
              p in
          inl (
            queued_raw,
            record t { attempt = t.attempt - 1 },
            from_json-to_json env (record t { attempt = t.attempt - 1 }) queued_raw q,
            sym own ∙ n,
            ground (arith, text_eq_refl queued_raw),
          ))
        k
