-- ===== src/Health/Spaced.antt =====
-- The cooldown of ops/healthcheck.py, over any visits of one device.
use android_farm.Prelude.{
  ℕ, Text, ◌++◌, ◌+◌, ◌-◌, ◌*◌, ◌^◌, ◌≤◌, min, ◌≡◌, sym, ap, Bool, true, false, List, [], ◌∷◌,
  Option, none, some, if◌then◌else◌, arith, Result, ok, err, ◌>>=◌, >>=-ok,
}
use native.Mathlib.Nat.{mul-le-mul_left, one-le-pow}
use android_farm.Prelude.Decimal.{Unicode}
use android_farm.Health.{Observation, Component}
use android_farm.Health.Control.{
  ControlConfig, Entry, Settings, Recovery, skipped, recovered, failed, Action, Verdict, resets,
  fails, verdict, act, settle, delay, recover, visit_verdict, visit, note, compose_argv,
}
use android_farm.Health.Limits.{chosen-some, visit-IsTried}

-- one visit of the device: the time, how many recoveries the pass has tried, what was observed, and
-- the answer of the command
pub record Turn : Type 0 where
  pub now : ℕ
  pub restarted : ℕ
  pub observed : Observation
  pub answer : Recovery

-- the time of a visit that ran its recovery
abbrev pub time_of : ℕ → Option Action → List ℕ
time_of now none = []
time_of now (some a) = elim a.result [
  | none ↦ []
  | some r ↦ elim r [ skipped ↦ [] | recovered ↦ now ∷ [] | failed ↦ now ∷ [] ]
]

-- each time is at least the bound, and at least `gap` after the one before
abbrev pub IsSpaced : ℕ → ℕ → List ℕ → Type 0
IsSpaced gap from [] = Unit {0}
IsSpaced gap from (t ∷ ts) = (from ≤ t) × IsSpaced gap (t + gap) ts

earlier-IsSpaced :
    (gap from to : ℕ) (ts : List ℕ) → from ≤ to → IsSpaced gap to ts → IsSpaced gap from ts
earlier-IsSpaced gap from to [] h q = tt
earlier-IsSpaced gap from to (t ∷ ts) h q = (omega (arith, q.0), q.1)

-- The delay lies between the two bounds.
delay-bounds :
    (c : Settings) (failures : ℕ)
    → c.cooldown_base ≤ c.cooldown_max
    → (c.cooldown_base ≤ delay c failures) × (delay c failures ≤ c.cooldown_max)
unfolding delay
delay-bounds c failures h =
    let p = mul-le-mul_left c.cooldown_base (one-le-pow (min (failures - 1) 8) 2 (omega arith)) in
    let q : c.cooldown_base ≤ c.cooldown_base * 2 ^ min (failures - 1) 8 = omega (arith, p) in
    (omega (arith, h, q), omega arith)

abbrev next_of : Result (Option Action × Entry) → ℕ
next_of (ok (m, e)) = e.next_restart_at
next_of (err x) = 0

module _ (u : Unicode) (k : ControlConfig) (c : Settings) where
  -- the times of the recoveries of a device over its visits
  unfoldable pub times : List Turn → Entry → Result (List ℕ)
  times [] e = ok []
  times (t ∷ ts) e = do
    (m, e') ← visit u k c t.now t.restarted e t.observed t.answer
    rest ← times ts e'
    ok (time_of t.now m ++ rest)

  module _ (b : c.cooldown_base ≤ c.cooldown_max) (now : ℕ) (device : Text) (component : Component)
      (ts : List ℕ) where
    later :
        (e : Entry)
        → IsSpaced c.cooldown_base (now + delay c e.consecutive_failures) ts
        → IsSpaced c.cooldown_base (now + c.cooldown_base) ts
    later e h =
        earlier-IsSpaced c.cooldown_base (now + c.cooldown_base) _ ts
          (omega (arith, (delay-bounds c e.consecutive_failures b).0)) h

    -- after a recovery that ran the next one waits for the delay
    settle-IsSpaced :
        (e : Entry) (r : Recovery)
        → e.next_restart_at ≤ now
        → IsSpaced c.cooldown_base (settle c now e r).next_restart_at ts
        → IsSpaced c.cooldown_base e.next_restart_at (
            time_of now (
              some (record {
                device = device;
                component = component;
                dry_run = false;
                result = some r;
              }))
            ++ ts)
    unfolding settle
    settle-IsSpaced e skipped a h = h
    settle-IsSpaced e recovered a h = (a, later e h)
    settle-IsSpaced e failed a h = (a, later e h)

    abbrev acted : Entry → Recovery → Bool → Action × Entry
    acted e r dry =
        if dry
        then (record { device = device; component = component; dry_run = true; result = none }, e)
        else (
          record { device = device; component = component; dry_run = false; result = some r },
          settle c now e r,
        )

    act-IsSpaced :
        (e : Entry) (r : Recovery)
        → e.next_restart_at ≤ now
        → IsSpaced c.cooldown_base (act c now e device component r).1.next_restart_at ts
        → IsSpaced c.cooldown_base e.next_restart_at
            (time_of now (some (act c now e device component r).0) ++ ts)
    unfolding act
    act-IsSpaced e r a h = go c.dry_run h
      where
        go :
            (dry : Bool)
            → IsSpaced c.cooldown_base (acted e r dry).1.next_restart_at ts
            → IsSpaced c.cooldown_base e.next_restart_at
                (time_of now (some (acted e r dry).0) ++ ts)
        go true h = h
        go false h = settle-IsSpaced e r a h

  visit-none :
      (now restarted : ℕ) (e e' : Entry) (o : Observation) (r : Recovery)
      → visit u k c now restarted e o r ≡ ok (none, e')
      → e'.next_restart_at ≡ e.next_restart_at
  unfolding visit visit_verdict recover note
  visit-none now restarted e e' o r h = go (verdict o.state) h
    where
      decided :
          (m : Option Component)
          → recover u k c now (note now (e.consecutive_failures + 1) o.state e) o r m
            ≡ ok (none, e')
          → e'.next_restart_at ≡ e.next_restart_at
      decided none h = ap (λ m. next_of m) (sym h)
      decided (some component) h =
          let (argv, x, y) = >>=-ok (compose_argv u k component o.device) _ _ h in cc y

      go :
          (v : Verdict)
          → visit_verdict u k c now restarted e o r v ≡ ok (none, e')
          → e'.next_restart_at ≡ e.next_restart_at
      go resets h = ap (λ m. next_of m) (sym h)
      go fails h = decided _ h

  -- Over any visits of a device, the recoveries that ran, with success or not, are at least the
  -- base of the cooldown apart, and none is before the time that the state file allowed at the
  -- start, if the base is at most the maximum.
  pub times-IsSpaced :
      (ts : List Turn) (e : Entry) (found : List ℕ)
      → c.cooldown_base ≤ c.cooldown_max
      → times ts e ≡ ok found
      → IsSpaced c.cooldown_base e.next_restart_at found
  unfolding times note
  times-IsSpaced [] e found b h = let same : found ≡ [] = cc h in rw same tt
  times-IsSpaced (t ∷ ts) e found b h =
      let (me, v, h1) = >>=-ok (visit u k c t.now t.restarted e t.observed t.answer) _ found h in
      let (rest, w, h2) = >>=-ok (times ts me.1) _ found h1 in
      let same : found ≡ time_of t.now me.0 ++ rest = cc h2 in
      rw same (go me.0 me.1 v rest (times-IsSpaced ts me.1 rest b w))
    where
      go :
          (m : Option Action) (e' : Entry)
          → visit u k c t.now t.restarted e t.observed t.answer ≡ ok (m, e')
          → (rest : List ℕ) → IsSpaced c.cooldown_base e'.next_restart_at rest
          → IsSpaced c.cooldown_base e.next_restart_at (time_of t.now m ++ rest)
      go none e' v rest h = rw (sym (visit-none t.now t.restarted e e' t.observed t.answer v)) h
      go (some a) e' v rest h =
          let x = visit-IsTried u k c t.now t.restarted e e' t.observed t.answer a v in
          let allowed = (chosen-some c t.now t.restarted _ e t.observed x.component x.decided).1 in
          rw x.action (
            act-IsSpaced b t.now t.observed.device x.component rest
              (note t.now (e.consecutive_failures + 1) t.observed.state e) t.answer allowed
              (rw (sym x.entry) h))
