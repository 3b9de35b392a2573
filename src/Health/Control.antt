-- ===== src/Health/Control.antt =====
-- The recovery of ops/healthcheck.py: `compose_argv` and `reconcile`. The state file is a dictionary
-- of entries at their declared types, the recovery commands answer by an argument, and notifications
-- are left out.
use android_farm.Prelude.{
  ℕ, ◌+◌, ◌-◌, ◌*◌, ◌^◌, min, Text, codes, Bool, true, false, not, ◌&&◌, ◌||◌, List, [], ◌∷◌, ◌++◌,
  Option, none, some, ltb, leb, if◌then◌else◌, Result, ok, ◌>>=◌,
}
use android_farm.Prelude.Dict.{Dict, lookup, insert}
use android_farm.Prelude.Decimal.{Unicode}
use android_farm.Health.{
  State, healthy, stopped, crashed, booting, proxy_unhealthy, probe_failed, stalled, screen_missing,
  Component, android, screen, android_crashed, Observation, check_device,
}

pub record ControlConfig : Type 0 where
  pub executable : Text
  pub compose_file : Text
  pub compose_project : Text
  pub compose_env_file : Option Text
  pub access_mode : Text
  pub secret_dir : Text
  pub profile_dir : Text
  pub proxy_registry : Text
  pub proxy_store_dir : Text

unfoldable pub recovery_action : Component → Text
recovery_action android = codes "recover"
recovery_action screen = codes "recover-screen"
recovery_action android_crashed = codes "recover-crashed"

unfoldable pub env_words : Option Text → List Text
env_words none = []
env_words (some []) = []
env_words (some (x ∷ xs)) = codes "--env-file" ∷ (x ∷ xs) ∷ []

-- the action is always "restart", and a component is always one of the three
unfoldable pub compose_argv : Unicode → ControlConfig → Component → Text → Result (List Text)
compose_argv u c component device = do
  _ ← check_device u device
  ok (
      c.executable ∷ codes "-m" ∷ codes "ops.farmctl" ∷ recovery_action component ∷ device ∷ []
      ++ env_words c.compose_env_file
      ++ codes "--project"
        ∷ c.compose_project
        ∷ codes "--compose"
        ∷ c.compose_file
        ∷ codes "--access-mode"
        ∷ c.access_mode
        ∷ codes "--secret-dir"
        ∷ c.secret_dir
        ∷ codes "--profile-dir"
        ∷ c.profile_dir
        ∷ codes "--proxy-registry"
        ∷ c.proxy_registry
        ∷ codes "--proxy-store-dir"
        ∷ c.proxy_store_dir
        ∷ [])

-- `last_state`
pub data LastState : Type 0 where
  unknown changed_after_observation : LastState
  seen : State → LastState

-- what the state file says of a device; a counter or time that is missing is read as 0
pub record Entry : Type 0 where
  pub consecutive_failures : ℕ
  pub last_state : LastState
  pub checked_at : ℕ
  pub last_restart_at : ℕ
  pub next_restart_at : ℕ
  pub restart_total : ℕ
  pub recovery_failure_total : ℕ
  pub last_recovery_error : Option Text

abbrev pub no_entry : Entry
no_entry = record {
  consecutive_failures = 0;
  last_state = unknown;
  checked_at = 0;
  last_restart_at = 0;
  next_restart_at = 0;
  restart_total = 0;
  recovery_failure_total = 0;
  last_recovery_error = none;
}

abbrev pub entry_of : Text → Dict Entry → Entry
entry_of device d = elim (lookup device d) [ none ↦ no_entry | some e ↦ e ]

pub record Settings : Type 0 where
  pub dry_run : Bool
  pub cooldown_base : ℕ
  pub cooldown_max : ℕ
  pub restart_limit : ℕ
  pub failure_threshold : ℕ

-- how a recovery command ends: with return code 0 and the marker of a skipped recovery or without
-- it, or otherwise
pub data Recovery : Type 0 where
  skipped recovered failed : Recovery

pub record Action : Type 0 where
  pub device : Text
  pub component : Component
  pub dry_run : Bool
  pub result : Option Recovery

-- how a state counts: it is well, says nothing of a stall, or is a failure
pub data Verdict : Type 0 where
  resets fails : Verdict

unfoldable pub verdict : State → Verdict
verdict healthy = resets
verdict stopped = resets
verdict booting = resets
verdict proxy_unhealthy = resets
verdict probe_failed = resets
verdict crashed = fails
verdict stalled = fails
verdict screen_missing = fails

unfoldable pub is_crash : State → Bool
is_crash crashed = true
is_crash _ = false

unfoldable pub is_stopped_screen : Option Component → Bool → Bool
is_stopped_screen (some screen) running = not running
is_stopped_screen _ running = false

unfoldable pub is_immediate : Observation → Bool
is_immediate o = is_crash o.state || is_stopped_screen o.recovery_component o.screen_running

unfoldable pub threshold : Settings → Observation → ℕ
threshold c o = if is_immediate o then 1 else c.failure_threshold

unfoldable pub delay : Settings → ℕ → ℕ
delay c failures = min c.cooldown_max (c.cooldown_base * 2 ^ min (failures - 1) 8)

-- the entry when the observation is noted
unfoldable pub note : ℕ → ℕ → State → Entry → Entry
note now failures state previous = record previous {
  consecutive_failures = failures;
  last_state = seen state;
  checked_at = now;
}

-- the entry after a recovery command
unfoldable pub settle : Settings → ℕ → Entry → Recovery → Entry
settle c now e skipped = record e {
  consecutive_failures = 0;
  last_state = changed_after_observation;
}
settle c now e recovered = record e {
  last_restart_at = now;
  next_restart_at = now + delay c e.consecutive_failures;
  restart_total = e.restart_total + 1;
  last_recovery_error = none;
}
settle c now e failed = record e {
  last_restart_at = now;
  next_restart_at = now + delay c e.consecutive_failures;
  recovery_failure_total = e.recovery_failure_total + 1;
  last_recovery_error = some (codes "managed recovery command failed");
}

-- whether the failing device is recovered now, and by which component
unfoldable pub chosen : Settings → ℕ → ℕ → Entry → ℕ → Observation → Option Component
chosen c now restarted previous failures o =
    if leb (threshold c o) failures
      && leb previous.next_restart_at now
      && ltb restarted c.restart_limit
    then o.recovery_component
    else none

unfoldable pub act : Settings → ℕ → Entry → Text → Component → Recovery → Action × Entry
act c now e device component r =
    if c.dry_run
    then (record { device = device; component = component; dry_run = true; result = none }, e)
    else (
      record { device = device; component = component; dry_run = false; result = some r },
      settle c now e r,
    )

-- one observation, when so many recoveries were tried before: its action and the entry of its device
module _ (u : Unicode) (k : ControlConfig) (c : Settings) (now : ℕ) where
  unfoldable pub recover :
      Entry → Observation → Recovery → Option Component → Result (Option Action × Entry)
  recover e o r none = ok (none, e)
  recover e o r (some component) = do
    _ ← compose_argv u k component o.device
    let (action, e') = act c now e o.device component r
    ok (some action, e')

  unfoldable pub visit_verdict :
      ℕ → Entry → Observation → Recovery → Verdict → Result (Option Action × Entry)
  unfolding recover
  visit_verdict restarted previous o r resets = ok (none, note now 0 o.state previous)
  visit_verdict restarted previous o r fails =
      let failures = previous.consecutive_failures + 1 in
      recover (note now failures o.state previous) o r (chosen c now restarted previous failures o)

  unfoldable pub visit : ℕ → Entry → Observation → Recovery → Result (Option Action × Entry)
  unfolding visit_verdict
  visit restarted previous o r = visit_verdict restarted previous o r (verdict o.state)

  abbrev pub listed : Option Action → List Action
  listed none = []
  listed (some a) = a ∷ []

  abbrev pub counted : ℕ → Option Action → ℕ
  counted n none = n
  counted n (some a) = n + 1

  -- `reconcile`; `runner n device` is the answer of the command after `n` recoveries
  unfoldable pub reconcile_from :
      (ℕ → Text → Recovery) → ℕ → List Observation → Dict Entry → Result (List Action × Dict Entry)
  reconcile_from runner restarted [] d = ok ([], d)
  reconcile_from runner restarted (o ∷ os) d = do
    (action, e) ← visit restarted (entry_of o.device d) o (runner restarted o.device)
    (actions, d') ← reconcile_from runner (counted restarted action) os (insert o.device e d)
    ok (listed action ++ actions, d')

  unfoldable pub reconcile :
      (ℕ → Text → Recovery) → List Observation → Dict Entry → Result (List Action × Dict Entry)
  unfolding reconcile_from
  reconcile runner os d = reconcile_from runner 0 os d
