-- ===== src/Tests/Health.antt =====
-- The theorems on the health controller (ops/healthcheck.py) at a device that has crashed.
use android_farm.Prelude.{
  ℕ, ◌≤◌, ◌≡◌, refl, arith, Text, codes, text_eq, true, false, List, [], ◌∷◌, All, length, none,
  some, ok,
}
use android_farm.Prelude.Dict.{lookup, insert}
use android_farm.Prelude.Decimal.{decimal, digits, pad_left, is_digit, read_from}
use android_farm.Prelude.Int.{pos}
use android_farm.Json.{Json, bool, int, str, obj, end, field, entries, eq_int, or_null}
use android_farm.Device.{
  canonical_device, device_id, device_name, device_index, index_of_text, index_of_digits,
  text_or_empty, after_prefix, is_number,
}
use android_farm.Worker.Task.{matches_device}
use android_farm.Intent.{load, check_state, devices_of, entry_running, is_true, wants_running}
use android_farm.Health.{
  Container, Answers, Observation, unanswered, crashed, android_crashed, idle, is_running,
  is_crashed, is_failure, check_device, or_probe_failed, observe_stopped, judge_stop,
  observe_containers, observe_answers, observe, observe_all,
}
use android_farm.Health.Control.{
  ControlConfig, Settings, Entry, Action, Recovery, recovered, failed, no_entry, reconcile,
  reconcile_from, visit, visit_verdict, recover, verdict, chosen, threshold, is_immediate, is_crash,
  act, settle, delay, note, compose_argv,
}
use android_farm.Health.Limits.{reconcile-length}
use android_farm.Health.Wanted.{IsWanted, reconcile-IsWanted}
use android_farm.Health.Spaced.{Turn, times, IsSpaced, times-IsSpaced}
use android_farm.Tests.Ascii.{ascii}

abbrev device : Text
device = codes "num07"

abbrev intent : Json
intent = obj (
    field (codes "schema_version") (int (pos 1)) (
      field (codes "devices")
        (obj (field device (obj (field (codes "running") (bool true) end)) end)) end))

abbrev dead : Container
dead = record {
  running = false;
  paused = false;
  restarting = false;
  oom_killed = false;
  exit_code = some (pos 137);
  age = none;
}

abbrev answers : Text → Answers
answers d = record {
  android = ok (some dead);
  proxy = ok none;
  screen = ok none;
  proxy_check = unanswered;
  shell = unanswered;
  boot = unanswered;
}

abbrev observed : Observation
observed = idle device crashed false false (some android_crashed) false

abbrev config : ControlConfig
config = record {
  executable = codes "/usr/bin/python3";
  compose_file = codes "/opt/farm/compose.yaml";
  compose_project = codes "farm";
  compose_env_file = none;
  access_mode = codes "domain";
  secret_dir = codes "/etc/android-farm/secrets";
  profile_dir = codes "/etc/android-farm/device-profiles";
  proxy_registry = codes "/var/lib/android-farm/proxies.json";
  proxy_store_dir = codes "/etc/android-farm/proxies";
}

abbrev settings : Settings
settings = record {
  dry_run = false;
  cooldown_base = 300;
  cooldown_max = 3600;
  restart_limit = 1;
  failure_threshold = 2;
}

abbrev runner : ℕ → Text → Recovery
runner n d = recovered

checked : check_device ascii device ≡ ok 7
unfolding check_device matches_device device_index index_of_text index_of_digits text_or_empty
    after_prefix is_number is_digit read_from
checked = refl

wanted : wants_running ascii (str device) (some intent) ≡ ok true
unfolding wants_running load check_state devices_of entry_running is_true entries eq_int or_null
    lookup canonical_device device_id device_name device_index index_of_text index_of_digits
    text_or_empty after_prefix is_number decimal digits pad_left is_digit read_from text_eq
wanted = refl

seen : observe_all ascii (some intent) answers 600 (device ∷ []) ≡ ok (observed ∷ [])
unfolding observe_all observe or_probe_failed observe_answers observe_containers observe_stopped
    judge_stop is_running is_crashed is_failure
seen = rw (checked, wanted) refl

abbrev action : Action
action = record {
  device = device;
  component = android_crashed;
  dry_run = false;
  result = some recovered;
}

abbrev restarted_entry : Entry
restarted_entry = settle settings 1000 (note 1000 1 crashed no_entry) recovered

reconciled :
    reconcile ascii config settings 1000 runner (observed ∷ []) []
    ≡ ok (action ∷ [], (device, restarted_entry) ∷ [])
unfolding reconcile reconcile_from visit visit_verdict recover verdict chosen threshold is_immediate
    is_crash act compose_argv insert lookup
reconciled = rw checked refl

reconcile-length_example : length (action ∷ []) ≤ settings.restart_limit
reconcile-length_example =
    reconcile-length ascii config settings 1000 runner (observed ∷ []) []
      ((device, restarted_entry) ∷ []) (action ∷ []) reconciled

reconcile-IsWanted_example :
    All (λ a. IsWanted ascii (some intent) a.device (answers a.device)) (action ∷ [])
reconcile-IsWanted_example =
    reconcile-IsWanted ascii (some intent) answers 600 config settings 1000 runner (device ∷ [])
      (observed ∷ []) [] ((device, restarted_entry) ∷ []) (action ∷ []) seen reconciled

abbrev turns : List Turn
turns =
    (record { now = 1000; restarted = 0; observed = observed; answer = recovered })
    ∷ (record { now = 1100; restarted = 0; observed = observed; answer = recovered })
    ∷ (record { now = 1300; restarted = 0; observed = observed; answer = failed })
    ∷ []

ran : times ascii config settings turns no_entry ≡ ok (1000 ∷ 1300 ∷ [])
unfolding times visit visit_verdict recover verdict chosen threshold is_immediate is_crash act
    compose_argv settle delay note check_device matches_device device_index index_of_text
    index_of_digits text_or_empty after_prefix is_number is_digit read_from
ran = refl

times-IsSpaced_example : IsSpaced 300 0 (1000 ∷ 1300 ∷ [])
times-IsSpaced_example =
    times-IsSpaced ascii config settings turns no_entry (1000 ∷ 1300 ∷ []) (omega arith) ran
