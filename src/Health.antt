-- ===== src/Health.antt =====
-- ops/healthcheck.py: what the health controller observes of a device. Docker's answers and the
-- probes' are arguments; the latency of the proxy, which is only printed, is left out.
pub mod Control
pub mod Wanted
pub mod Limits
pub mod Spaced
use android_farm.Prelude.{
  ℕ, zero, suc, Text, codes, text_eq, Bool, true, false, not, ◌&&◌, ◌||◌, List, [], ◌∷◌, Option,
  none, some, ltb, if◌then◌else◌, Exception, value_error, runtime_error, os_error, Result, ok, err,
  ◌>>=◌, ◌>>◌, raise_if,
}
use android_farm.Prelude.Int.{ℤ, pos, negsuc}
use android_farm.Json.{Json, str}
use android_farm.Prelude.Decimal.{Unicode}
use android_farm.Device.{device_index, network_plan}
use android_farm.Worker.Task.{matches_device}
use android_farm.Intent.{wants_running}

pub data State : Type 0 where
  healthy stopped crashed booting proxy_unhealthy probe_failed stalled screen_missing : State

-- the keys of RECOVERY_ACTIONS
pub data Component : Type 0 where
  android screen android_crashed : Component

-- what `docker inspect` says of a container: its flags, its exit code if it is an integer, and the
-- whole seconds since its start, if they can be read
pub record Container : Type 0 where
  pub running : Bool
  pub paused : Bool
  pub restarting : Bool
  pub oom_killed : Bool
  pub exit_code : Option ℤ
  pub age : Option ℤ

-- a command ends with its return code and its stripped output, or with an exception that
-- `probe_command` catches
pub data Probe : Type 0 where
  exited : ℤ → Text → Probe
  unanswered : Probe

pub record Observation : Type 0 where
  pub device : Text
  pub state : State
  pub android_running : Bool
  pub screen_running : Bool
  pub proxy_running : Bool
  pub adb_healthy : Bool
  pub boot_completed : Bool
  pub proxy_healthy : Bool
  pub recovery_component : Option Component
  pub failed_probe : Bool

-- what Docker and the probes answer for one device
pub record Answers : Type 0 where
  pub android : Result (Option Container)
  pub proxy : Result (Option Container)
  pub screen : Result (Option Container)
  pub proxy_check : Probe
  pub shell : Probe
  pub boot : Probe

unfoldable pub is_running : Option Container → Bool
is_running none = false
is_running (some k) = k.running

unfoldable pub age_seconds : Option Container → ℕ
age_seconds none = 0
age_seconds (some k) = elim k.age [ none ↦ 0 | some a ↦ elim a [ pos n ↦ n | negsuc n ↦ 0 ] ]

unfoldable pub is_failure : Option ℤ → Bool
is_failure none = false
is_failure (some (pos zero)) = false
is_failure (some (pos (suc n))) = true
is_failure (some (negsuc n)) = true

-- `_crashed`
unfoldable pub is_crashed : Option Container → Bool
is_crashed none = false
is_crashed (some k) =
    if k.running || k.paused || k.restarting then false else k.oom_killed || is_failure k.exit_code

unfoldable pub succeeded : Probe → Bool
succeeded (exited (pos zero) s) = true
succeeded (exited _ s) = false
succeeded unanswered = false

unfoldable pub output : Probe → Text
output (exited n s) = s
output unanswered = []

-- an observation of a device whose Android does not run, or is not known to
abbrev pub idle : Text → State → Bool → Bool → Option Component → Bool → Observation
idle device state screen_running proxy_running component failed = record {
  device = device;
  state = state;
  android_running = false;
  screen_running = screen_running;
  proxy_running = proxy_running;
  adb_healthy = false;
  boot_completed = false;
  proxy_healthy = false;
  recovery_component = component;
  failed_probe = failed;
}

-- the state of a device whose Android and screen run
unfoldable pub judge : Bool → Bool → Bool → ℕ → ℕ → State × Option Component
judge adb boot proxy age grace =
    if adb && boot && proxy
    then (healthy, none)
    else if not proxy
    then (proxy_unhealthy, none)
    else if not boot && ltb age grace
    then (booting, none)
    else (stalled, some android)

-- Android runs and the screen does not
unfoldable pub no_screen : Text → Option Container → Bool → Bool → Observation
no_screen device item proxy_running proxy_healthy = record {
  device = device;
  state = elim item [ none ↦ screen_missing | some k ↦ stalled ];
  android_running = true;
  screen_running = false;
  proxy_running = proxy_running;
  adb_healthy = false;
  boot_completed = false;
  proxy_healthy = proxy_healthy;
  recovery_component = elim item [ none ↦ none | some k ↦ some screen ];
  failed_probe = false;
}

-- Android and the screen run
unfoldable pub probed : Text → Option Container → Bool → Bool → Probe → Probe → ℕ → Observation
probed device item proxy_running proxy_healthy shell boot grace =
    let adb = succeeded shell && text_eq (output shell) (codes "android-farm-health") in
    let booted = succeeded shell && succeeded boot && text_eq (output boot) (codes "1") in
    let (state, component) = judge adb booted proxy_healthy (age_seconds item) grace in
    record {
      device = device;
      state = state;
      android_running = true;
      screen_running = true;
      proxy_running = proxy_running;
      adb_healthy = adb;
      boot_completed = booted;
      proxy_healthy = proxy_healthy;
      recovery_component = component;
      failed_probe = false;
    }

-- `except (OSError, subprocess.SubprocessError, RuntimeError)`
unfoldable pub or_probe_failed : Text → Result Observation → Result Observation
or_probe_failed device (ok o) = ok o
or_probe_failed device (err (os_error s)) = ok (idle device probe_failed false false none true)
or_probe_failed device (err (runtime_error s)) = ok (idle device probe_failed false false none true)
or_probe_failed device (err e) = err e

module _ (u : Unicode) where
  unfoldable pub check_device : Text → Result ℕ
  check_device device = do
    raise_if (not (matches_device device))
        (value_error "device must be a canonical numXX identifier")
    device_index u false (str device)

  module _ (device : Text) (intent : Option Json) (a : Answers) (grace : ℕ) where
    -- a crash is told from a stop by the recorded intent
    unfoldable pub judge_stop : Bool → Bool → Bool → Observation
    judge_stop true screen_running proxy_running =
        idle device crashed screen_running proxy_running (some android_crashed) false
    judge_stop false screen_running proxy_running =
        idle device stopped screen_running proxy_running none false

    unfoldable pub observe_stopped : Bool → Bool → Bool → Result Observation
    unfolding judge_stop
    observe_stopped false screen_running proxy_running =
        ok (judge_stop false screen_running proxy_running)
    observe_stopped true screen_running proxy_running = do
      wanted ← wants_running u (str device) intent
      ok (judge_stop wanted screen_running proxy_running)

    unfoldable pub observe_started :
        Option Container → Option Container → Bool → Bool → Result Observation
    observe_started item screen_item proxy_running false =
        ok (no_screen device screen_item proxy_running (proxy_running && succeeded a.proxy_check))
    observe_started item screen_item proxy_running true = do
      index ← device_index u false (str device)
      _ ← network_plan u index
      ok (
          probed device item proxy_running (proxy_running && succeeded a.proxy_check) a.shell a.boot
            grace)

    unfoldable pub observe_containers :
        Option Container → Option Container → Option Container → Bool → Result Observation
    unfolding observe_stopped observe_started
    observe_containers item proxy screen_item false =
        observe_stopped (is_crashed item) (is_running screen_item) (is_running proxy)
    observe_containers item proxy screen_item true =
        observe_started item screen_item (is_running proxy) (is_running screen_item)

    -- `_observe`
    unfoldable pub observe_answers : Result Observation
    unfolding observe_containers
    observe_answers = do
      _ ← check_device device
      item ← a.android
      proxy ← a.proxy
      screen_item ← a.screen
      observe_containers item proxy screen_item (is_running item)

    unfoldable pub observe : Result Observation
    unfolding observe_answers or_probe_failed
    observe = do _ ← check_device device; or_probe_failed device observe_answers

-- the observations of `main`, each with what Docker and the probes answer for its device
module _ (u : Unicode) (intent : Option Json) (answers : Text → Answers) (grace : ℕ) where
  unfoldable pub observe_all : List Text → Result (List Observation)
  observe_all [] = ok []
  observe_all (device ∷ devices) = do
    o ← observe u device intent (answers device) grace
    os ← observe_all devices
    ok (o ∷ os)
