-- ===== src/Proxy/History.antt =====
-- Any sequence of the operations of ops/proxy_store.py, with writes that raise. A health
-- check is a request of its own, in which other requests may stand between its two transactions.
use android_farm.Prelude.{
  Bool, true, ◌&&◌, arith, ℕ, Text, ◌≡◌, refl, List, [], ◌∷◌, Option, Result, ok, err,
}
use android_farm.Prelude.Dict.{lookup}
use android_farm.Proxy.{Env, Proxy, Store, Writes, NewProxy}
use android_farm.Proxy.Ops.{add, disable, enable, assign, unassign, delete, rotate_password}
use android_farm.Proxy.Check.{Probe, judge, begin_check, finish_check, check_health}
use android_farm.Proxy.Consistent.{IsConsistent}
use android_farm.Proxy.Keep.{
  disable-IsConsistent, enable-IsConsistent, unassign-IsConsistent, assign-IsConsistent,
  record_health-IsConsistent,
}
use android_farm.Proxy.Pairs.{
  is_whole, add-IsConsistent, delete-IsConsistent, rotate_password-IsConsistent,
}

pub data Operation : Type 0 where
  adding : NewProxy → Operation
  disabling enabling deleting : Text → Operation
  assigning : Text → Text → Operation
  unassigning : Text → Option Text → Operation
  rotating : Text → Text → Operation

pub record Request : Type 0 where
  pub operation : Operation
  pub now : ℕ
  pub writes : Writes

-- the store after a request, whether that returned or raised
unfoldable pub perform : Env → Request → Store → Store
perform env q s = at q.operation
  where
    at : Operation → Store
    at (adding a) = (add env q.writes q.now a s).1
    at (disabling id) = (disable env q.writes q.now id s).1
    at (enabling id) = (enable env q.writes q.now id s).1
    at (deleting id) = (delete env q.writes id s).1
    at (assigning id device) = (assign env q.writes q.now id device s).1
    at (unassigning id device) = (unassign env q.writes q.now id device s).1
    at (rotating id password) = (rotate_password env q.writes q.now id password s).1

unfoldable pub perform_all : Env → List Request → Store → Store
perform_all env [] s = s
perform_all env (q ∷ qs) s = perform_all env qs (perform env q s)

-- a request, or a health check with the requests that come between its transactions
pub data Step : Type 0 where
  request : Request → Step
  check : Writes → ℕ → Text → Probe → List Request → Step

unfoldable pub step : Env → Step → Store → Store
step env (request q) s = perform env q s
step env (check w now id probe between) s =
    (check_health env w now id probe (perform_all env between) s).1

unfoldable pub run : Env → List Step → Store → Store
run env [] s = s
run env (x ∷ xs) s = run env xs (step env x s)

-- The operations on one file may end anyhow; the others must be able to put a file back.
abbrev pub is_contained : Operation → Writes → Bool
is_contained (adding a) w = is_whole w
is_contained (deleting id) w = is_whole w
is_contained (rotating id password) w = is_whole w
is_contained _ w = true

abbrev pub are_contained : List Request → Bool
are_contained [] = true
are_contained (q ∷ qs) = is_contained q.operation q.writes && are_contained qs

abbrev pub all_contained : List Step → Bool
all_contained [] = true
all_contained (request q ∷ xs) = is_contained q.operation q.writes && all_contained xs
all_contained (check w now id probe between ∷ xs) = are_contained between && all_contained xs

abbrev pub empty_store : Store
empty_store = record { registry = []; secrets = [] }

pub empty_store-IsConsistent : (env : Env) → IsConsistent env empty_store
unfolding lookup
empty_store-IsConsistent env = record {
  named = λ k r e. cc e;
  secret = λ k r e. cc e;
  no_orphan = λ k e. refl;
  sessions = λ j k r q e. cc e;
  exclusive = λ j k r q d e. cc e;
}

module _ (env : Env) where
  pub perform-IsConsistent :
      (q : Request) (s : Store)
      → IsConsistent env s
      → is_contained q.operation q.writes ≡ true
      → IsConsistent env (perform env q s)
  unfolding perform
  perform-IsConsistent q s c h = at q.operation refl h
    where
      at :
          (o : Operation)
          → q.operation ≡ o
          → is_contained o q.writes ≡ true
          → IsConsistent env (perform env q s)
      at (adding a) e h = rw e (add-IsConsistent env s c q.writes q.now a h)
      at (disabling id) e h = rw e (disable-IsConsistent env s c q.writes q.now id)
      at (enabling id) e h = rw e (enable-IsConsistent env s c q.writes q.now id)
      at (deleting id) e h = rw e (delete-IsConsistent env s c q.writes id h)
      at (assigning id device) e h = rw e (assign-IsConsistent env s c q.writes q.now id device)
      at (unassigning id device) e h = rw e (unassign-IsConsistent env s c q.writes q.now id device)
      at (rotating id password) e h =
          rw e (rotate_password-IsConsistent env s c q.writes q.now id password h)

  perform_all-IsConsistent :
      (qs : List Request) (s : Store)
      → IsConsistent env s
      → are_contained qs ≡ true
      → IsConsistent env (perform_all env qs s)
  unfolding perform_all
  perform_all-IsConsistent [] s c h = c
  perform_all-IsConsistent (q ∷ qs) s c h =
      perform_all-IsConsistent qs (perform env q s) (perform-IsConsistent q s c (ground (arith, h)))
        (ground (arith, h))

  check_health-IsConsistent :
      (w : Writes) (now : ℕ) (id : Text) (probe : Probe) (between : Store → Store) (s : Store)
      → IsConsistent env s
      → IsConsistent env (between s)
      → IsConsistent env (check_health env w now id probe between s).1
  unfolding check_health finish_check
  check_health-IsConsistent w now id probe between s c d = go (begin_check env id s) refl
    where
      go :
          (m : Result Proxy)
          → begin_check env id s ≡ m
          → IsConsistent env (check_health env w now id probe between s).1
      go (err e) p = rw (check_health, p) c
      go (ok r) p =
          rw (check_health, p)
            (record_health-IsConsistent env (between s) d w now id r.secret_version
              (judge env now id r.expected_egress_ip probe).0)

  -- After any sequence of operations and health checks, with other operations between the two
  -- transactions of a check, a store that was consistent is consistent, also where operations raised
  -- because a write failed: records and secrets come in pairs that agree in endpoint, digest and
  -- version, no secret is left over, no session is registered twice, and no device has two proxies.
  -- The condition is that no change of a file by `add`, `delete` and `rotate_password` raises after it
  -- was made, and that the changes by which they put a file back do not raise.
  pub run-IsConsistent :
      (xs : List Step) (s : Store)
      → IsConsistent env s
      → all_contained xs ≡ true
      → IsConsistent env (run env xs s)
  unfolding run step
  run-IsConsistent [] s c h = c
  run-IsConsistent (request q ∷ xs) s c h =
      run-IsConsistent xs (perform env q s) (perform-IsConsistent q s c (ground (arith, h)))
        (ground (arith, h))
  run-IsConsistent (check w now id probe between ∷ xs) s c h =
      run-IsConsistent xs (step env (check w now id probe between) s)
        (check_health-IsConsistent w now id probe (perform_all env between) s c
          (perform_all-IsConsistent between s c (ground (arith, h))))
        (ground (arith, h))
