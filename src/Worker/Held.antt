-- ===== src/Worker/Held.antt =====
-- Which commands of services/worker/worker.py can take an entry away from the places where tasks wait.
use android_farm.Prelude.{
  ℕ, Text, text_eq, text_eq_iff, ◌≡◌, refl, sym, ap, ◌∙◌, Bool, true, false, ◌&&◌, ◌||◌, List, [],
  ◌∷◌, Option, arith, mem, if◌then◌else◌, ◌==◌,
}
use android_farm.Worker.Redis.{
  Keyspace, Key, tag, locked, key_eq, pending, processing, scheduled, leases, running, claims,
  results, dlq, idempotency, task_keys, terminal, archives, lock, Update, Fetch, Attempt, lpush,
  hset, hdel, zadd, del, rpop, hget, get, lrem, zrem, set_nx, Script, done, updates, fetches,
  attempts, scores, exec, update_of, fetch_of, attempt_of, is_some, remove_first,
}

key_of : ℕ → Text → Key
key_of n s =
    if n == 0
    then pending
    else if n == 1
    then processing
    else if n == 2
    then scheduled
    else if n == 3
    then leases
    else if n == 4
    then running
    else if n == 5
    then claims
    else if n == 6
    then results
    else if n == 7
    then dlq
    else if n == 8
    then idempotency
    else if n == 9
    then task_keys
    else if n == 10
    then terminal
    else if n == 11
    then archives
    else lock s

key_of-tag : (k : Key) → key_of (tag k) (locked k) ≡ k
unfolding key_of
key_of-tag pending = refl
key_of-tag _ = refl

eq_of_key_eq : (a b : Key) → key_eq a b ≡ true → a ≡ b
eq_of_key_eq a b h =
    let m : tag a ≡ tag b = ground (arith, h) in
    let n : locked a ≡ locked b = ground (arith, h, text_eq_iff (locked a) (locked b)) in
    sym (key_of-tag a)
    ∙ ap (λ t. key_of t (locked a)) m
    ∙ ap (λ s. key_of (tag b) s) n
    ∙ key_of-tag b

-- the entry waits: to be run, to be finished, to be tried again, or for the operator
abbrev pub held : Text → Keyspace → Bool
held x s =
    mem x (s.list pending)
    || mem x (s.list processing)
    || mem x (s.list dlq)
    || is_some (s.zset scheduled x)

abbrev pub ended : Text → Keyspace → Bool
ended id s = is_some (s.zset terminal id)

-- a command that takes neither the entry nor a result away
abbrev pub SafeAttempt : Text → Text → Attempt → Type 0
SafeAttempt x id (lrem k y) = text_eq y x ≡ false
SafeAttempt x id (zrem k m) =
    ((key_eq k scheduled && text_eq m x) ≡ false) × ((key_eq k terminal && text_eq m id) ≡ false)
SafeAttempt x id (set_nx k v) = Unit {0}

abbrev pub SafeFetch : Fetch → Type 0
SafeFetch (rpop k) = ⊥
SafeFetch _ = Unit {0}

abbrev pub Safe : {A : Type 0} → Text → Text → Script A → Type 0
Safe x id (done a) = Unit {0}
Safe x id (updates c p) = Safe x id p
Safe x id (fetches c p) = SafeFetch c × ((o : Option Text) → Safe x id (p o))
Safe x id (attempts c p) = SafeAttempt x id c × ((b : Bool) → Safe x id (p b))
Safe x id (scores k m p) = (o : Option ℕ) → Safe x id (p o)

pub mem-remove_first :
    (x y : Text) (xs : List Text) → text_eq y x ≡ false → mem x (remove_first y xs) ≡ mem x xs
unfolding mem remove_first
mem-remove_first x y [] h = refl
mem-remove_first x y (z ∷ zs) h =
    ground (arith, mem-remove_first x y zs h, text_eq_iff z y, text_eq_iff z x, text_eq_iff y x)

-- a list after an insertion or a removal of another entry
list-lpush :
    (k j : Key) (x y : Text) (s : Keyspace)
    → mem x (s.list j) ≡ true
    → mem x (if key_eq k j then y ∷ s.list k else s.list j) ≡ true
unfolding mem
list-lpush k j x y s h = go (key_eq k j) refl
  where
    go : (b : Bool) → key_eq k j ≡ b → mem x (if b then y ∷ s.list k else s.list j) ≡ true
    go false e = h
    go true e =
        let same : mem x (s.list k) ≡ true = rw (eq_of_key_eq k j e) h in ground (arith, same)

list-lrem :
    (k j : Key) (x y : Text) (s : Keyspace)
    → text_eq y x ≡ false
    → mem x (if key_eq k j then remove_first y (s.list k) else s.list j) ≡ mem x (s.list j)
list-lrem k j x y s n = go (key_eq k j) refl
  where
    go :
        (b : Bool)
        → key_eq k j ≡ b
        → mem x (if b then remove_first y (s.list k) else s.list j) ≡ mem x (s.list j)
    go false e = refl
    go true e = mem-remove_first x y (s.list k) n ∙ ap (λ i. mem x (s.list i)) (eq_of_key_eq k j e)

update-held :
    (c : Update) (x : Text) (s : Keyspace) → held x s ≡ true → held x (update_of c s) ≡ true
unfolding update_of
update-held (hset k f v) x s h = h
update-held (hdel k f) x s h = h
update-held (del k) x s h = h
update-held (zadd k n m) x s h = ground (arith, h)
update-held (lpush k y) x s h =
    ground
      (arith, h, list-lpush k pending x y s, list-lpush k processing x y s, list-lpush k dlq x y s)

update-ended :
    (c : Update) (id : Text) (s : Keyspace) → ended id s ≡ true → ended id (update_of c s) ≡ true
unfolding update_of
update-ended (hset k f v) x s h = h
update-ended (hdel k f) x s h = h
update-ended (del k) x s h = h
update-ended (lpush k y) x s h = h
update-ended (zadd k n m) x s h = ground (arith, h)

fetch-held :
    (c : Fetch) (x : Text) (s : Keyspace) → SafeFetch c → held x (fetch_of c s).1 ≡ held x s
unfolding fetch_of
fetch-held (rpop k) x s h = absurd h
fetch-held (hget k f) x s h = refl
fetch-held (get k) x s h = refl

fetch-ended : (c : Fetch) (id : Text) (s : Keyspace) → ended id (fetch_of c s).1 ≡ ended id s
unfolding fetch_of
fetch-ended (rpop k) x s = refl
fetch-ended (hget k f) x s = refl
fetch-ended (get k) x s = refl

attempt-held :
    (c : Attempt) (x id : Text) (s : Keyspace)
    → SafeAttempt x id c
    → held x (attempt_of c s).1 ≡ held x s
unfolding attempt_of
attempt-held (lrem k y) x id s h =
    rw (list-lrem k pending x y s h, list-lrem k processing x y s h, list-lrem k dlq x y s h) refl
attempt-held (zrem k m) x id s h = ground (arith, h)
attempt-held (set_nx k v) x id s h = ground arith

attempt-ended :
    (c : Attempt) (x id : Text) (s : Keyspace)
    → SafeAttempt x id c
    → ended id (attempt_of c s).1 ≡ ended id s
unfolding attempt_of
attempt-ended (lrem k y) x id s h = refl
attempt-ended (zrem k m) x id s h = ground (arith, h)
attempt-ended (set_nx k v) x id s h = ground arith

pub exec-held :
    {A : Type 0} (p : Script A) (x id : Text) (s : Keyspace)
    → Safe x id p
    → held x s ≡ true
    → held x (exec p s).1 ≡ true
unfolding exec
exec-held (done a) x id s h e = e
exec-held (updates c p) x id s h e = exec-held p x id (update_of c s) h (update-held c x s e)
exec-held (fetches c p) x id s h e =
    exec-held (p (fetch_of c s).0) x id (fetch_of c s).1 (h.1 (fetch_of c s).0)
      (fetch-held c x s h.0 ∙ e)
exec-held (attempts c p) x id s h e =
    exec-held (p (attempt_of c s).0) x id (attempt_of c s).1 (h.1 (attempt_of c s).0)
      (attempt-held c x id s h.0 ∙ e)
exec-held (scores k m p) x id s h e = exec-held (p (s.zset k m)) x id s (h (s.zset k m)) e

pub exec-ended :
    {A : Type 0} (p : Script A) (x id : Text) (s : Keyspace)
    → Safe x id p
    → ended id s ≡ true
    → ended id (exec p s).1 ≡ true
unfolding exec
exec-ended (done a) x id s h e = e
exec-ended (updates c p) x id s h e = exec-ended p x id (update_of c s) h (update-ended c id s e)
exec-ended (fetches c p) x id s h e =
    exec-ended (p (fetch_of c s).0) x id (fetch_of c s).1 (h.1 (fetch_of c s).0)
      (fetch-ended c id s ∙ e)
exec-ended (attempts c p) x id s h e =
    exec-ended (p (attempt_of c s).0) x id (attempt_of c s).1 (h.1 (attempt_of c s).0)
      (attempt-ended c x id s h.0 ∙ e)
exec-ended (scores k m p) x id s h e = exec-ended (p (s.zset k m)) x id s (h (s.zset k m)) e

different : (x : Text) (a : ℕ) → text_eq x (a ∷ x) ≡ false
unfolding text_eq
different [] a = refl
different (b ∷ x) a = ground (arith, different x b)

-- every text has another one
pub another : (x : Text) → (y : Text) × (text_eq x y ≡ false)
another x = (0 ∷ x, different x 0)

pub mem-remove_absent :
    (x : Text) (xs : List Text) → mem x xs ≡ false → mem x (remove_first x xs) ≡ false
unfolding mem remove_first
mem-remove_absent x [] h = refl
mem-remove_absent x (z ∷ zs) h = ground (arith, mem-remove_absent x zs, h)
