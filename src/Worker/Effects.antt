-- ===== src/Worker/Effects.antt =====
-- What the scripts of services/worker/worker.py that decide who owns a task leave behind.
use android_farm.Prelude.{Text, ◌≡◌, refl, ◌∙◌, Bool, true, false, none, mem, if◌then◌else◌}
use android_farm.Worker.Redis.{
  Keyspace, processing, leases, running, Script, done, updates, fetches, attempts, scores, ◌>>=◌,
  ◌>>◌, exec, update_of, fetch_of, attempt_of, put_list, put_hash, put_zset, remove_first,
}
use android_farm.Worker.Queue.{is_text, only_if, leave_found, leave_owned, leave, commit}

pub exec->>= :
    {A B : Type 0} (p : Script A) (f : A → Script B) (s : Keyspace)
    → exec (p >>= f) s ≡ exec (f (exec p s).0) (exec p s).1
unfolding exec
exec->>= (done a) f s = refl
exec->>= (updates c p) f s = exec->>= p f (update_of c s)
exec->>= (fetches c p) f s = exec->>= (p (fetch_of c s).0) f (fetch_of c s).1
exec->>= (attempts c p) f s = exec->>= (p (attempt_of c s).0) f (attempt_of c s).1
exec->>= (scores k m p) f s = exec->>= (p (s.zset k m)) f s

-- the entry has been taken from `processing`
abbrev pub taken_out : Text → Keyspace → Keyspace
taken_out raw s = put_list processing s (remove_first raw (s.list processing))

-- and the task has left `running` and `leases`
abbrev pub left_by : Text → Text → Keyspace → Keyspace
left_by id raw s = put_zset leases (put_hash running (taken_out raw s) id none) id none

pub exec-leave :
    (id raw : Text) (s : Keyspace)
    → exec (leave id raw) s ≡ (
        if is_text raw (s.hash running id)
        then (if mem raw (s.list processing)
            then (true, left_by id raw s)
            else (false, taken_out raw s))
        else (false, s))
unfolding exec leave leave_owned leave_found update_of fetch_of attempt_of
exec-leave id raw s = go (is_text raw (s.hash running id)) (mem raw (s.list processing)) refl refl
  where
    go :
        (a b : Bool)
        → is_text raw (s.hash running id) ≡ a
        → mem raw (s.list processing) ≡ b
        → exec (leave id raw) s ≡ (
            if a
            then (if b then (true, left_by id raw s) else (false, taken_out raw s))
            else (false, s))
    go false b e f = rw e refl
    go true false e f = rw (e, leave_owned, f) refl
    go true true e f = rw (e, leave_owned, f) refl

-- the end of `commit`: is the task this caller's, and is its entry there?
abbrev pub commit_end : Bool → Bool → Text → Text → Script (Unit {0}) → Keyspace → Bool × Keyspace
commit_end false b id raw entries s = (false, s)
commit_end true false id raw entries s = (false, taken_out raw s)
commit_end true true id raw entries s = (true, (exec entries (left_by id raw s)).1)

pub exec-commit :
    (id raw : Text) (entries : Script (Unit {0})) (s : Keyspace)
    → exec (commit id raw entries) s
      ≡ commit_end (is_text raw (s.hash running id)) (mem raw (s.list processing)) id raw entries s
unfolding exec commit
exec-commit id raw entries s =
    exec->>= (leave id raw) (λ owned. only_if owned entries >> done owned) s
    ∙ go (is_text raw (s.hash running id)) (mem raw (s.list processing)) (exec (leave id raw) s)
        (exec-leave id raw s)
  where
    go :
        (a b : Bool) (m : Bool × Keyspace)
        → m ≡ (
            if a
            then (if b then (true, left_by id raw s) else (false, taken_out raw s))
            else (false, s))
        → exec (only_if m.0 entries >> done m.0) m.1 ≡ commit_end a b id raw entries s
    go false b m e = rw e refl
    go true false m e = rw e refl
    go true true m e = rw e (exec->>= entries (λ u. done true) (left_by id raw s))
