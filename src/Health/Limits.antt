-- ===== src/Health/Limits.antt =====
-- How many recoveries a pass of ops/healthcheck.py tries.
use android_farm.Prelude.{
  ℕ, ◌+◌, ◌≤◌, ◌<◌, Text, ◌≡◌, refl, List, [], ◌∷◌, ◌++◌, length, Option, none, some, arith, ok,
  >>=-ok,
}
use android_farm.Prelude.Dict.{Dict, insert}
use android_farm.Prelude.Decimal.{Unicode}
use android_farm.Health.{Observation, Component}
use android_farm.Health.Control.{
  ControlConfig, Entry, Settings, Recovery, Action, Verdict, resets, fails, verdict, chosen,
  threshold, act, recover, visit_verdict, visit, listed, counted, reconcile_from, reconcile,
  entry_of, note, compose_argv,
}

-- What a recovery says of the decision to try it.
pub chosen-some :
    (c : Settings) (now restarted failures : ℕ) (e : Entry) (o : Observation)
    (component : Component)
    → chosen c now restarted e failures o ≡ some component
    → (restarted < c.restart_limit)
      × (e.next_restart_at ≤ now)
      × (threshold c o ≤ failures)
      × (o.recovery_component ≡ some component)
unfolding chosen
chosen-some c now restarted failures e o component h = ground (arith, h)

module _ (u : Unicode) (k : ControlConfig) (c : Settings) (now : ℕ) where
  -- a visit that tries a recovery
  pub record IsTried (restarted : ℕ) (e e' : Entry) (o : Observation) (r : Recovery) (a : Action)
      : Type 0 where
    pub component : Component
    pub failing : verdict o.state ≡ fails
    pub decided : chosen c now restarted e (e.consecutive_failures + 1) o ≡ some component
    pub action :
        a ≡ (act c now (note now (e.consecutive_failures + 1) o.state e) o.device component r).0
    pub entry :
        e' ≡ (act c now (note now (e.consecutive_failures + 1) o.state e) o.device component r).1

  pub visit-IsTried :
      (restarted : ℕ) (e e' : Entry) (o : Observation) (r : Recovery) (a : Action)
      → visit u k c now restarted e o r ≡ ok (some a, e')
      → IsTried restarted e e' o r a
  unfolding visit visit_verdict recover
  visit-IsTried restarted e e' o r a h = go (verdict o.state) refl h
    where
      decided :
          (m : Option Component)
          → chosen c now restarted e (e.consecutive_failures + 1) o ≡ m
          → verdict o.state ≡ fails
          → recover u k c now (note now (e.consecutive_failures + 1) o.state e) o r m
            ≡ ok (some a, e')
          → IsTried restarted e e' o r a
      decided none q v h = cc h
      decided (some component) q v h =
          let (argv, x, y) = >>=-ok (compose_argv u k component o.device) _ _ h in
          record { component = component; failing = v; decided = q; action = cc y; entry = cc y }

      go :
          (v : Verdict)
          → verdict o.state ≡ v
          → visit_verdict u k c now restarted e o r v ≡ ok (some a, e')
          → IsTried restarted e e' o r a
      go resets v h = cc h
      go fails v h = decided _ refl v h

  counted-le :
      (restarted : ℕ) (e e' : Entry) (o : Observation) (r : Recovery) (m : Option Action)
      → visit u k c now restarted e o r ≡ ok (m, e')
      → restarted ≤ c.restart_limit
      → counted u k c now restarted m ≤ c.restart_limit
  counted-le restarted e e' o r none h q = q
  counted-le restarted e e' o r (some a) h q =
      let t = visit-IsTried restarted e e' o r a h in
      omega (arith, (chosen-some c now restarted _ e o t.component t.decided).0)

  listed-length :
      (restarted : ℕ) (m : Option Action) (ys : List Action)
      → restarted + length (listed u k c now m ++ ys) ≡ counted u k c now restarted m + length ys
  listed-length restarted none ys = refl
  listed-length restarted (some a) ys = omega arith

  -- the parts of a pass with an observation at its head
  pub reconcile_from-∷ :
      (runner : ℕ → Text → Recovery) (restarted : ℕ) (o : Observation) (os : List Observation)
      (d : Dict Entry) (x : List Action × Dict Entry)
      → reconcile_from u k c now runner restarted (o ∷ os) d ≡ ok x
      → (m : Option Action) × (e : Entry) × (y : List Action × Dict Entry) × (visit u k c now
            restarted
            (entry_of o.device d)
            o
            (runner restarted o.device)
          ≡ ok (m, e))
        × (reconcile_from u k c now runner (counted u k c now restarted m) os (insert o.device e d)
            ≡ ok y)
        × (x.0 ≡ listed u k c now m ++ y.0)
  unfolding reconcile_from
  reconcile_from-∷ runner restarted o os d x h =
      let (me, v, h1) =
        >>=-ok (visit u k c now restarted (entry_of o.device d) o (runner restarted o.device)) _ x
          h in
      let (y, w, h2) =
        >>=-ok
          (reconcile_from u k c now runner (counted u k c now restarted me.0) os
            (insert o.device me.1 d))
          _ x h1 in
      (me.0, me.1, y, v, w, cc h2)

  reconcile_from-length :
      (runner : ℕ → Text → Recovery) (restarted : ℕ) (os : List Observation) (d : Dict Entry)
      (x : List Action × Dict Entry)
      → reconcile_from u k c now runner restarted os d ≡ ok x
      → restarted ≤ c.restart_limit
      → restarted + length x.0 ≤ c.restart_limit
  unfolding reconcile_from
  reconcile_from-length runner restarted [] d x h q =
      let same : x.0 ≡ [] = cc h in rw same (omega (arith, q))
  reconcile_from-length runner restarted (o ∷ os) d x h q =
      let (m, e, y, v, w, same) = reconcile_from-∷ runner restarted o os d x h in
      let less = counted-le restarted (entry_of o.device d) e o _ m v q in
      rw same (
        omega (
          arith,
          listed-length restarted m y.0,
          reconcile_from-length runner (counted u k c now restarted m) os (insert o.device e d) y w
              less,
        ))

  -- A pass tries at most as many recoveries as the limit says, in a dry run too.
  pub reconcile-length :
      (runner : ℕ → Text → Recovery) (os : List Observation) (d d' : Dict Entry)
      (actions : List Action)
      → reconcile u k c now runner os d ≡ ok (actions, d')
      → length actions ≤ c.restart_limit
  unfolding reconcile
  reconcile-length runner os d d' actions h =
      omega (arith, reconcile_from-length runner 0 os d (actions, d') h (omega arith))
