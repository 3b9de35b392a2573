-- ===== src/Health/Wanted.antt =====
-- Which devices ops/healthcheck.py recovers.
use android_farm.Prelude.{
  ℕ, Text, ◌≡◌, refl, ap, ◌∙◌, Bool, true, false, List, [], ◌∷◌, ◌++◌, All, Option, none, some,
  runtime_error, os_error, arith, Result, ok, err, >>=-ok,
}
use android_farm.Prelude.Dict.{Dict, insert}
use android_farm.Prelude.Decimal.{Unicode}
use android_farm.Json.{Json, str}
use android_farm.Device.{device_index, network_plan}
use android_farm.Intent.{wants_running}
use android_farm.Health.{
  Component, Container, Observation, Answers, is_running, is_crashed, no_screen, probed,
  or_probe_failed, check_device, observe_stopped, observe_started, observe_answers,
  observe_containers, judge_stop, observe, observe_all,
}
use android_farm.Health.Control.{
  ControlConfig, Entry, Settings, Recovery, Action, act, visit, listed, counted, reconcile_from,
  reconcile, entry_of,
}
use android_farm.Health.Limits.{chosen-some, visit-IsTried, reconcile_from-∷}

module _ (u : Unicode) (intent : Option Json) where
  -- Android runs, or it ended badly although it is wanted to run
  pub data IsWanted (device : Text) (a : Answers) : Type 0 where
    runs :
        (item : Option Container) → a.android ≡ ok item → is_running item ≡ true → IsWanted device a
    ended_badly :
        (item : Option Container)
        → a.android ≡ ok item
        → is_crashed item ≡ true
        → wants_running u (str device) intent ≡ ok true
        → IsWanted device a

  module _ (device : Text) (a : Answers) (grace : ℕ) where
    -- what an observation with a component for recovery says
    abbrev pub Says : Observation → Type 0
    Says o =
        (component : Component)
        → o.recovery_component ≡ some component
        → (o.device ≡ device) × IsWanted device a

    stopped-Says :
        (item : Option Container) (b screen_running proxy_running : Bool) (o : Observation)
        → a.android ≡ ok item
        → is_crashed item ≡ b
        → observe_stopped u device intent a grace b screen_running proxy_running ≡ ok o
        → Says o
    unfolding observe_stopped judge_stop
    stopped-Says item false x y o e k h component q = cc (h, q)
    stopped-Says item true x y o e k h component q =
        let (wanted, w, h1) = >>=-ok (wants_running u (str device) intent) _ o h in go wanted w h1
      where
        go :
            (wanted : Bool)
            → wants_running u (str device) intent ≡ ok wanted
            → ok (judge_stop u device intent a grace wanted x y) ≡ ok o
            → (o.device ≡ device) × IsWanted device a
        go true w h = (cc h, ended_badly item e k w)
        go false w h = cc (h, q)

    started-device :
        (item screen_item : Option Container) (proxy_running b : Bool) (o : Observation)
        → observe_started u device intent a grace item screen_item proxy_running b ≡ ok o
        → o.device ≡ device
    unfolding observe_started no_screen probed
    started-device item screen_item proxy_running false o h = cc h
    started-device item screen_item proxy_running true o h =
        let (index, x, h1) = >>=-ok (device_index u false (str device)) _ o h in
        let (plan, y, h2) = >>=-ok (network_plan u index) _ o h1 in cc h2

    containers-Says :
        (item proxy screen_item : Option Container) (b : Bool) (o : Observation)
        → a.android ≡ ok item
        → is_running item ≡ b
        → observe_containers u device intent a grace item proxy screen_item b ≡ ok o
        → Says o
    unfolding observe_containers
    containers-Says item proxy screen_item false o e r h component q =
        stopped-Says item (is_crashed item) (is_running screen_item) (is_running proxy) o e refl h
          component q
    containers-Says item proxy screen_item true o e r h component q = (
      started-device item screen_item (is_running proxy) (is_running screen_item) o h,
      runs item e r,
    )

    answers-Says : (o : Observation) → observe_answers u device intent a grace ≡ ok o → Says o
    unfolding observe_answers
    answers-Says o h =
        let (index, c, h1) = >>=-ok (check_device u device) _ o h in
        let (item, e, h2) = >>=-ok a.android _ o h1 in
        let (proxy, p, h3) = >>=-ok a.proxy _ o h2 in
        let (screen_item, s, h4) = >>=-ok a.screen _ o h3 in
        containers-Says item proxy screen_item (is_running item) o e refl h4

    observe-Says : (o : Observation) → observe u device intent a grace ≡ ok o → Says o
    unfolding observe or_probe_failed
    observe-Says o h component q =
        let (index, c, h1) = >>=-ok (check_device u device) _ o h in
        go (observe_answers u device intent a grace) refl h1
      where
        go :
            (m : Result Observation)
            → observe_answers u device intent a grace ≡ m
            → or_probe_failed device m ≡ ok o
            → (o.device ≡ device) × IsWanted device a
        go (ok p) e h = answers-Says o (e ∙ h) component q
        go (err (os_error s)) e h = cc (h, q)
        go (err (runtime_error s)) e h = cc (h, q)
        go (err _) e h = cc h

  module _ (answers : Text → Answers) (grace : ℕ) where
    -- a device with that name is wanted, if the observation asks for a recovery
    abbrev Asks : Observation → Type 0
    Asks o =
        (component : Component)
        → o.recovery_component ≡ some component
        → IsWanted o.device (answers o.device)

    observe_all-Asks :
        (devices : List Text) (os : List Observation)
        → observe_all u intent answers grace devices ≡ ok os
        → All Asks os
    unfolding observe_all
    observe_all-Asks [] os h = let same : os ≡ [] = cc h in rw same tt
    observe_all-Asks (device ∷ devices) os h =
        let (o, e, h1) = >>=-ok (observe u device intent (answers device) grace) _ os h in
        let (rest, w, h2) = >>=-ok (observe_all u intent answers grace devices) _ os h1 in
        let same : os ≡ o ∷ rest = cc h2 in
        rw same (
          (λ component q.
              let (name, wanted) = observe-Says device (answers device) grace o e component q in
              rw name wanted),
          observe_all-Asks devices rest w,
        )

    act-device :
        (c : Settings) (now : ℕ) (e : Entry) (device : Text) (component : Component) (r : Recovery)
        → (act c now e device component r).0.device ≡ device
    unfolding act
    act-device c now e device component r = ground arith

    module _ (k : ControlConfig) (c : Settings) (now : ℕ) (runner : ℕ → Text → Recovery) where
      abbrev Fits : List Action → Type 0
      Fits actions = All (λ a. IsWanted a.device (answers a.device)) actions

      listed-Fits :
          (restarted : ℕ) (e e' : Entry) (o : Observation) (m : Option Action) (ys : List Action)
          → Asks o
          → visit u k c now restarted e o (runner restarted o.device) ≡ ok (m, e')
          → Fits ys
          → Fits (listed u k c now m ++ ys)
      listed-Fits restarted e e' o none ys asks v h = h
      listed-Fits restarted e e' o (some a) ys asks v h =
          let x = visit-IsTried u k c now restarted e e' o (runner restarted o.device) a v in
          let named : a.device ≡ o.device =
            ap (λ z. z.device) x.action ∙ act-device c now _ o.device x.component _ in
          (
            rw named (asks x.component (chosen-some c now restarted _ e o x.component x.decided).3),
            h,
          )

      reconcile_from-Fits :
          (restarted : ℕ) (os : List Observation) (d : Dict Entry) (x : List Action × Dict Entry)
          → All Asks os
          → reconcile_from u k c now runner restarted os d ≡ ok x
          → Fits x.0
      unfolding reconcile_from
      reconcile_from-Fits restarted [] d x asks h = let same : x.0 ≡ [] = cc h in rw same tt
      reconcile_from-Fits restarted (o ∷ os) d x (asks, others) h =
          let (m, e, y, v, w, same) = reconcile_from-∷ u k c now runner restarted o os d x h in
          rw same (
            listed-Fits restarted (entry_of o.device d) e o m y.0 asks v (
              reconcile_from-Fits (counted u k c now restarted m) os (insert o.device e d) y others
                w))

      -- A pass that observes its devices and recovers what it finds tries a recovery only of a
      -- device whose Android runs, or whose Android ended badly and which is recorded as wanted
      -- running: a device that was stopped on purpose is never started.
      pub reconcile-IsWanted :
          (devices : List Text) (os : List Observation) (d d' : Dict Entry) (actions : List Action)
          → observe_all u intent answers grace devices ≡ ok os
          → reconcile u k c now runner os d ≡ ok (actions, d')
          → All (λ a. IsWanted a.device (answers a.device)) actions
      unfolding reconcile
      reconcile-IsWanted devices os d d' actions e h =
          reconcile_from-Fits 0 os d (actions, d') (observe_all-Asks devices os e) h
