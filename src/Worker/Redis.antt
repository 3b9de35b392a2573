-- ===== src/Worker/Redis.antt =====
-- What services/worker/worker.py asks of Redis, which is not part of the repository: the commands of
-- its scripts, and what the Redis manual says of each. A script runs alone, so it is a program of
-- commands; `run` executes it on any Redis.
use android_farm.Prelude.{
  ℕ, Text, text_eq, ◌≡◌, refl, sym, Bool, true, false, ◌&&◌, List, [], ◌∷◌, Option, none, some,
  ◌==◌, if◌then◌else◌, mem,
}

-- the names of the keys: PREFIX with a suffix, and the locks of the devices
pub data Key : Type 0 where
  pending processing scheduled leases running claims results dlq idempotency task_keys terminal
        archives :
      Key
  lock : Text → Key

abbrev pub tag : Key → ℕ
tag pending = 0
tag processing = 1
tag scheduled = 2
tag leases = 3
tag running = 4
tag claims = 5
tag results = 6
tag dlq = 7
tag idempotency = 8
tag task_keys = 9
tag terminal = 10
tag archives = 11
tag (lock s) = 12

abbrev pub locked : Key → Text
locked (lock s) = s
locked _ = []

abbrev pub key_eq : Key → Key → Bool
key_eq a b = tag a == tag b && text_eq (locked a) (locked b)

-- what can be seen of the data: lists from the head, hashes, sorted sets and strings
pub record Keyspace : Type 0 where
  pub list : Key → List Text
  pub hash : Key → Text → Option Text
  pub zset : Key → Text → Option ℕ
  pub value : Key → Option Text

-- commands without an answer that the scripts use
pub data Update : Type 0 where
  lpush : Key → Text → Update
  hset : Key → Text → Text → Update
  hdel : Key → Text → Update
  zadd : Key → ℕ → Text → Update
  del : Key → Update

-- commands that answer with a value
pub data Fetch : Type 0 where
  rpop : Key → Fetch
  hget : Key → Text → Fetch
  get : Key → Fetch

-- commands that answer whether they did something
pub data Attempt : Type 0 where
  lrem : Key → Text → Attempt
  zrem : Key → Text → Attempt
  set_nx : Key → Text → Attempt

module _ (k : Key) (s : Keyspace) where
  abbrev pub put_list : List Text → Keyspace
  put_list xs = record s { list = λ j. if key_eq k j then xs else s.list j }

  abbrev pub put_hash : Text → Option Text → Keyspace
  put_hash f v = record s { hash = λ j g. if key_eq k j && text_eq f g then v else s.hash j g }

  abbrev pub put_zset : Text → Option ℕ → Keyspace
  put_zset m v = record s { zset = λ j n. if key_eq k j && text_eq m n then v else s.zset j n }

  abbrev pub put_value : Option Text → Keyspace
  put_value v = record s { value = λ j. if key_eq k j then v else s.value j }

-- LREM with the count 1: the first occurrence
unfoldable pub remove_first : Text → List Text → List Text
remove_first x [] = []
remove_first x (y ∷ ys) = if text_eq y x then ys else y ∷ remove_first x ys

-- RPOP: the last element, and the rest
unfoldable pub pop_last : List Text → Option Text × List Text
pop_last [] = (none, [])
pop_last (x ∷ []) = (some x, [])
pop_last (x ∷ y ∷ ys) = let (o, rest) = pop_last (y ∷ ys) in (o, x ∷ rest)

abbrev pub is_some {ℓ} : {A : Type ℓ} → Option A → Bool
is_some none = false
is_some (some a) = true

-- the manual's account of each command
unfoldable pub update_of : Update → Keyspace → Keyspace
update_of (lpush k x) s = put_list k s (x ∷ s.list k)
update_of (hset k f v) s = put_hash k s f (some v)
update_of (hdel k f) s = put_hash k s f none
update_of (zadd k n m) s = put_zset k s m (some n)
update_of (del k) s = put_value k s none

unfoldable pub fetch_of : Fetch → Keyspace → Option Text × Keyspace
fetch_of (rpop k) s = let (o, rest) = pop_last (s.list k) in (o, put_list k s rest)
fetch_of (hget k f) s = (s.hash k f, s)
fetch_of (get k) s = (s.value k, s)

unfoldable pub attempt_of : Attempt → Keyspace → Bool × Keyspace
attempt_of (lrem k x) s = (mem x (s.list k), put_list k s (remove_first x (s.list k)))
attempt_of (zrem k m) s = (is_some (s.zset k m), put_zset k s m none)
attempt_of (set_nx k v) s =
    if is_some (s.value k) then (false, s) else (true, put_value k s (some v))

-- a Redis: its data, what can be seen of it, its commands, and that they do what the manual says
pub record Redis : Type 1 where
  pub Db : Type 0
  pub view : Db → Keyspace
  pub update : Update → Db → Db
  pub fetch : Fetch → Db → Option Text × Db
  pub attempt : Attempt → Db → Bool × Db
  pub zscore : Key → Text → Db → Option ℕ
  pub update_law : (c : Update) (d : Db) → view (update c d) ≡ update_of c (view d)
  pub fetch_answer : (c : Fetch) (d : Db) → (fetch c d).0 ≡ (fetch_of c (view d)).0
  pub fetch_law : (c : Fetch) (d : Db) → view (fetch c d).1 ≡ (fetch_of c (view d)).1
  pub attempt_answer : (c : Attempt) (d : Db) → (attempt c d).0 ≡ (attempt_of c (view d)).0
  pub attempt_law : (c : Attempt) (d : Db) → view (attempt c d).1 ≡ (attempt_of c (view d)).1
  pub zscore_answer : (k : Key) (m : Text) (d : Db) → zscore k m d ≡ (view d).zset k m

-- a script or transaction that ends with a value of `A`
pub data Script (A : Type 0) : Type 0 where
  done : A → Script A
  updates : Update → Script A → Script A
  fetches : Fetch → (Option Text → Script A) → Script A
  attempts : Attempt → (Bool → Script A) → Script A
  scores : Key → Text → (Option ℕ → Script A) → Script A

module _ {A B : Type 0} where
  infixl 5 ◌>>=◌
  abbrev pub ◌>>=◌ : Script A → (A → Script B) → Script B
  done a >>= f = f a
  updates c p >>= f = updates c (p >>= f)
  fetches c p >>= f = fetches c (λ o. p o >>= f)
  attempts c p >>= f = attempts c (λ b. p b >>= f)
  scores k m p >>= f = scores k m (λ o. p o >>= f)

  infixl 5 ◌>>◌
  abbrev pub ◌>>◌ : Script A → Script B → Script B
  p >> q = p >>= λ _. q

abbrev pub do_update : Update → Script (Unit {0})
do_update c = updates c (done tt)

abbrev pub do_fetch : Fetch → Script (Option Text)
do_fetch c = fetches c done

abbrev pub do_attempt : Attempt → Script Bool
do_attempt c = attempts c done

abbrev pub do_score : Key → Text → Script (Option ℕ)
do_score k m = scores k m done

module _ (r : Redis) where
  unfoldable pub run : {A : Type 0} → Script A → r.Db → A × r.Db
  run (done a) d = (a, d)
  run (updates c p) d = run p (r.update c d)
  run (fetches c p) d = let (o, d') = r.fetch c d in run (p o) d'
  run (attempts c p) d = let (b, d') = r.attempt c d in run (p b) d'
  run (scores k m p) d = run (p (r.zscore k m d)) d

-- the manual itself
unfoldable pub exec : {A : Type 0} → Script A → Keyspace → A × Keyspace
exec (done a) s = (a, s)
exec (updates c p) s = exec p (update_of c s)
exec (fetches c p) s = exec (p (fetch_of c s).0) (fetch_of c s).1
exec (attempts c p) s = exec (p (attempt_of c s).0) (attempt_of c s).1
exec (scores k m p) s = exec (p (s.zset k m)) s

-- On any Redis a script answers, and changes what can be seen, as the manual says.
pub run-exec :
    (r : Redis) {A : Type 0} (p : Script A) (d : r.Db)
    → ((run r p d).0 ≡ (exec p (r.view d)).0) × (r.view (run r p d).1 ≡ (exec p (r.view d)).1)
unfolding run exec
run-exec r (done a) d = (refl, refl)
run-exec r (updates c p) d = rw (exec, sym (r.update_law c d)) (run-exec r p (r.update c d))
run-exec r (fetches c p) d =
    rw (exec, sym (r.fetch_answer c d), sym (r.fetch_law c d))
      (run-exec r (p (r.fetch c d).0) (r.fetch c d).1)
run-exec r (attempts c p) d =
    rw (exec, sym (r.attempt_answer c d), sym (r.attempt_law c d))
      (run-exec r (p (r.attempt c d).0) (r.attempt c d).1)
run-exec r (scores k m p) d =
    rw (exec, sym (r.zscore_answer k m d)) (run-exec r (p (r.zscore k m d)) d)
