-- ===== src/Worker/Named.antt =====
-- The entries of running tasks and of the archive on the queue of services/worker/worker.py stand
-- under the identifier of their own task.
use android_farm.Prelude.{
  ℕ, Text, text_eq, text_eq_iff, ◌≡◌, refl, sym, Bool, true, false, ◌&&◌, ◌||◌, Option, none, some,
  arith, if◌then◌else◌, ◌==◌, ok,
}
use android_farm.Worker.Redis.{
  Keyspace, Key, tag, key_eq, Update, Fetch, Attempt, lpush, hset, hdel, zadd, del, rpop, hget, get,
  lrem, zrem, set_nx, Script, done, updates, fetches, attempts, scores, ◌>>=◌, exec, update_of,
  fetch_of, attempt_of, is_some, put_value,
}
use android_farm.Worker.Task.{Task, Env, from_json}
use android_farm.Worker.Queue.{only_if}

abbrev is_named : Key → Bool
is_named k = tag k == 4 || tag k == 11

module _ (env : Env) where
  -- an entry that is a task is the task of its field
  abbrev pub IsOwn : Text → Text → Type 0
  IsOwn f v = (t : Task) → from_json env v ≡ ok t → t.task_id ≡ f

  abbrev pub Named : Keyspace → Type 0
  Named s = (k : Key) (f v : Text) → is_named k ≡ true → s.hash k f ≡ some v → IsOwn f v

  abbrev pub NamesUpdate : Update → Type 0
  NamesUpdate (hset k f v) = is_named k ≡ true → IsOwn f v
  NamesUpdate _ = Unit {0}

  -- what a script writes there
  abbrev pub Names : {A : Type 0} → Script A → Type 0
  Names (done a) = Unit {0}
  Names (updates c p) = NamesUpdate c × Names p
  Names (fetches c p) = (o : Option Text) → Names (p o)
  Names (attempts c p) = (b : Bool) → Names (p b)
  Names (scores k m p) = (o : Option ℕ) → Names (p o)

  update-Named : (c : Update) (s : Keyspace) → NamesUpdate c → Named s → Named (update_of c s)
  unfolding update_of
  update-Named (lpush k x) s h n = n
  update-Named (zadd k x m) s h n = n
  update-Named (del k) s h n = n
  update-Named (hdel k f) s h n = λ j g w a e. go (key_eq k j && text_eq f g) j g w a e
    where
      go :
          (b : Bool) (j : Key) (g w : Text)
          → is_named j ≡ true
          → (if b then none else s.hash j g) ≡ some w
          → IsOwn g w
      go true j g w a e = cc e
      go false j g w a e = n j g w a e
  update-Named (hset k f v) s h n = λ j g w a e. go (key_eq k j && text_eq f g) j g w refl a e
    where
      go :
          (b : Bool) (j : Key) (g w : Text)
          → (key_eq k j && text_eq f g) ≡ b
          → is_named j ≡ true
          → (if b then some v else s.hash j g) ≡ some w
          → IsOwn g w
      go false j g w p a e = n j g w a e
      go true j g w p a e =
          let named : is_named k ≡ true = ground (arith, p, a) in
          let here : f ≡ g = ground (arith, p, text_eq_iff f g) in
          let same : v ≡ w = ground (arith, e) in rw (sym here, sym same) (h named)

  fetch-Named : (c : Fetch) (s : Keyspace) → Named s → Named (fetch_of c s).1
  unfolding fetch_of
  fetch-Named (rpop k) s n = n
  fetch-Named (hget k f) s n = n
  fetch-Named (get k) s n = n

  attempt-Named : (c : Attempt) (s : Keyspace) → Named s → Named (attempt_of c s).1
  unfolding attempt_of
  attempt-Named (lrem k x) s n = n
  attempt-Named (zrem k m) s n = n
  attempt-Named (set_nx k v) s n = go (is_some (s.value k))
    where
      go :
          (b : Bool)
          → Named
              (let r : Bool × Keyspace = if b then (false, s) else (true, put_value k s (some v)) in
                r).1
      go true = n
      go false = n

  pub exec-Named :
      {A : Type 0} (p : Script A) (s : Keyspace) → Names p → Named s → Named (exec p s).1
  unfolding exec
  exec-Named (done a) s h n = n
  exec-Named (updates c p) s h n = exec-Named p (update_of c s) h.1 (update-Named c s h.0 n)
  exec-Named (fetches c p) s h n =
      exec-Named (p (fetch_of c s).0) (fetch_of c s).1 (h (fetch_of c s).0) (fetch-Named c s n)
  exec-Named (attempts c p) s h n =
      exec-Named (p (attempt_of c s).0) (attempt_of c s).1 (h (attempt_of c s).0)
        (attempt-Named c s n)
  exec-Named (scores k m p) s h n = exec-Named (p (s.zset k m)) s (h (s.zset k m)) n

  pub >>=-Names :
      {A B : Type 0} (p : Script A) (f : A → Script B)
      → Names p
      → ((a : A) → Names (f a))
      → Names (p >>= f)
  >>=-Names (done a) f h g = g a
  >>=-Names (updates c p) f h g = (h.0, >>=-Names p f h.1 g)
  >>=-Names (fetches c p) f h g = λ o. >>=-Names (p o) f (h o) g
  >>=-Names (attempts c p) f h g = λ b. >>=-Names (p b) f (h b) g
  >>=-Names (scores k m p) f h g = λ o. >>=-Names (p o) f (h o) g

  pub only_if-Names : (b : Bool) (p : Script (Unit {0})) → Names p → Names (only_if b p)
  only_if-Names true p h = h
  only_if-Names false p h = tt
