-- ===== src/Tests/Worker.antt =====
-- The theorems on the task queue (services/worker/worker.py) at concrete histories.
use android_farm.Prelude.{
  Option, ◌+◌, ◌≤◌, ◌≡◌, refl, inl, arith, Text, codes, text_eq, text_eq_refl, mem, Bool, true,
  false, List, [], ◌∷◌, length, All, none, some, if◌then◌else◌, ◌&&◌, ◌||◌, ltb, ◌==◌, count_if, ok,
}
use android_farm.Prelude.Int.{pos}
use android_farm.Json.{Json, int, obj, eq_int, Fields, end, field}
use android_farm.Worker.Redis.{
  pop_last, Script, exec, Keyspace, Redis, update_of, fetch_of, attempt_of, key_eq, pending,
}
use android_farm.Worker.Task.{
  Task, RawTask, Config, Env, raw_of, task_object, sorted_fields, matches_key, matches_device,
  validate_config, is_absolute, to_json, from_json, command_for,
}
use android_farm.Worker.Valid.{IsTask, from_json-to_json, validate-IsTask}
use android_farm.Worker.Command.{IsSafe, command_for-IsSafe}
use android_farm.Worker.History.{
  Event, enqueued, promoted, taken, settled, finished, lease_reclaimed, run_all,
}
use android_farm.Worker.Once.{left-le-started, owned, is_left, is_started}
use android_farm.Worker.Kept.{Tracked}
use android_farm.Worker.Named.{Named}
use android_farm.Worker.Survive.{history-Tracked}
use android_farm.Worker.Run.{Pass, run_pass, exited}
use android_farm.Worker.Pass.{run_pass-Tracked}
use android_farm.Worker.Start.{IsStarted, settle-IsStarted}
use android_farm.Worker.Queue.{
  enqueue_raw, take, claim_raw, start, start_claimed, start_found, settle, settle_read, start_task,
}
use android_farm.Tests.Codec.{code, decode, decode-code}

-- the order of texts
abbrev text_lt : Text → Text → Bool
text_lt [] [] = false
text_lt [] (c ∷ s) = true
text_lt (c ∷ s) [] = false
text_lt (c ∷ s) (d ∷ t) = ltb c d || c == d && text_lt s t

abbrev insert_field : Text → Json → Fields → Fields
insert_field k v end = field k v end
insert_field k v (field l w fs) =
    if text_lt l k then field l w (insert_field k v fs) else field k v (field l w fs)

abbrev sort_fields : Fields → Fields
sort_fields end = end
sort_fields (field k v fs) = insert_field k v (sort_fields fs)

-- `sort_keys`
abbrev sort_keys : Json → Json
sort_keys (obj fs) = obj (sort_fields fs)
sort_keys v = v

abbrev dumps : Json → Text
dumps v = code (sort_keys v)

reads_back : (t : RawTask) → decode (dumps (task_object t)) ≡ some (obj (sorted_fields t))
unfolding task_object sorted_fields
reads_back t = decode-code (sort_keys (task_object t))

abbrev env : Env
env = record {
  is_uuid = λ s. length s == 36;
  dumps = dumps;
  loads = decode;
  reads_back = reads_back;
  claim_time = λ s. none;
  executable = codes "/usr/bin/python3";
  provisioner = codes "/opt/farm/provisioner.py";
}

abbrev config : Config
config = record {
  provisioner_config = codes "/etc/farm.toml";
  lease_seconds = 900;
  command_timeout = 600;
  block_seconds = 5;
  backoff_base = 5;
  backoff_max = 300;
  result_ttl_seconds = 604800;
}

abbrev uuid : Text
uuid = codes "6f1d2c3b-0000-4000-8000-0123456789ab"

abbrev task : Task
task = record {
  schema_version = int (pos 1);
  task_id = uuid;
  idempotency_key = codes "nightly:42";
  action = codes "restart";
  device = some (codes "num07");
  created_at = 1000;
  attempt = 0;
  max_attempts = 3;
}

-- the same task in its first execution
abbrev started_task : Task
started_task = record task { attempt = 1 }

abbrev raw : Text
raw = dumps (task_object (raw_of task))

abbrev started_raw : Text
started_raw = dumps (task_object (raw_of started_task))

-- a Redis that is the manual itself
abbrev redis : Redis
redis = record {
  Db = Keyspace;
  view = λ s. s;
  update = update_of;
  fetch = fetch_of;
  attempt = attempt_of;
  zscore = λ k m s. s.zset k m;
  update_law = λ c s. refl;
  fetch_answer = λ c s. refl;
  fetch_law = λ c s. refl;
  attempt_answer = λ c s. refl;
  attempt_law = λ c s. refl;
  zscore_answer = λ k m s. refl;
}

abbrev empty : Keyspace
empty = record { list = λ k. []; hash = λ k f. none; zset = λ k m. none; value = λ k. none }

-- one task is queued, taken by a worker, whose lease runs out and who finishes too late, and taken again
abbrev story : List Event
story =
    enqueued task 1000
    ∷ taken (codes "1001:a")
    ∷ settled raw (codes "1001:a") 1001
    ∷ lease_reclaimed uuid started_raw 2000
    ∷ finished started_task started_raw 2001 (int (pos 7))
    ∷ []

task-IsTask : IsTask env task
unfolding mem text_eq matches_key matches_device eq_int
task-IsTask = record {
  version = refl;
  uuid = refl;
  key = refl;
  action = refl;
  device = (refl, refl);
  created = omega arith;
  attempt = omega arith;
  some_attempts = omega arith;
  few_attempts = omega arith;
}

config-ok : validate_config config ≡ ok config
unfolding validate_config is_absolute
config-ok = refl

to_json-raw : to_json env task ≡ ok raw
unfolding to_json
to_json-raw = rw (validate-IsTask env task task-IsTask) refl

from_json-to_json_example : from_json env raw ≡ ok task
from_json-to_json_example = from_json-to_json env task raw to_json-raw

command_for-IsSafe_example :
    (rest : List Text) × (command_for env task config ≡ ok (env.executable ∷ rest))
    × All (IsSafe env config task) (env.executable ∷ rest)
command_for-IsSafe_example = command_for-IsSafe env config task task-IsTask config-ok

left-le-started_example :
    count_if (is_left uuid) (run_all env config redis story empty).0
      + owned uuid (run_all env config redis story empty).1
    ≤ count_if (is_started uuid) (run_all env config redis story empty).0 + owned uuid empty
left-le-started_example = left-le-started env config redis story uuid empty

-- the data when the task is queued
abbrev waiting : Text → Keyspace
waiting x = record empty { list = λ k. if key_eq k pending then x ∷ [] else [] }

abbrev queued : Keyspace
queued = waiting raw

queued-Named : Named env queued
queued-Named k f v h e = cc e

queued-Tracked : Tracked env uuid queued
unfolding mem text_eq
queued-Tracked = inl (raw, task, from_json-to_json_example, refl, ground (arith, text_eq_refl raw))

history-Tracked_example : Tracked env uuid (run_all env config redis story queued).1
history-Tracked_example =
    history-Tracked env config redis story uuid queued refl queued-Named queued-Tracked

abbrev pass : Pass
pass = record {
  ended = [];
  due = [];
  claimed = [];
  expired = [];
  before_take = [];
  before_settle = promoted (codes "x") ∷ [];
  claim = codes "1001:a";
  now = 1001;
  finish_time = 1020;
  outcome = exited (pos 0) [] (int (pos 19));
  between = record { lock = []; next = lease_reclaimed uuid raw 1005 ∷ []; release = [] };
}

run_pass-Tracked_example : Tracked env uuid (run_pass env config redis pass queued).1
unfolding text_eq
run_pass-Tracked_example =
    run_pass-Tracked env config redis uuid pass queued refl queued-Named queued-Tracked

-- the entry between the two steps of `reserve`
abbrev claimed : Keyspace
claimed = (exec (take (codes "1001:a")) queued).1

abbrev reserved : Script (Option (Task × Text))
reserved = start env config started_task raw (codes "1001:a") started_raw 1001

started_task-IsTask : IsTask env started_task
started_task-IsTask = record {
  version = task-IsTask.version;
  uuid = task-IsTask.uuid;
  key = task-IsTask.key;
  action = task-IsTask.action;
  device = task-IsTask.device;
  created = task-IsTask.created;
  attempt = omega arith;
  some_attempts = task-IsTask.some_attempts;
  few_attempts = task-IsTask.few_attempts;
}

to_json-started : to_json env started_task ≡ ok started_raw
unfolding to_json
to_json-started = rw (validate-IsTask env started_task started_task-IsTask) refl

settle-reserved : settle env config raw (codes "1001:a") 1001 ≡ ok reserved
unfolding settle settle_read start_task
settle-reserved =
    rw
      (
        from_json-to_json_example,
        validate-IsTask env started_task started_task-IsTask,
        to_json-started,
      )
      refl

starts_waiting :
    (x y : Text)
    → (exec
        (start env config started_task x (codes "1001:a") y 1001)
        (exec (take (codes "1001:a")) (waiting x)).1).0
      ≡ some (started_task, y)
unfolding exec take claim_raw start start_claimed start_found text_eq mem fetch_of attempt_of
    update_of pop_last
starts_waiting x y = ground (arith, text_eq_refl x)

reserved-started : (exec reserved claimed).0 ≡ some (started_task, started_raw)
reserved-started = starts_waiting raw started_raw

settle-IsStarted_example :
    IsStarted env config raw
      (codes "1001:a")
      claimed
      (exec reserved claimed).1
      started_task
      started_raw
settle-IsStarted_example =
    settle-IsStarted env config raw (codes "1001:a") 1001 reserved claimed started_task started_raw
      settle-reserved reserved-started

-- the script of `enqueue` for the task
abbrev added : Script (Text × Bool)
added = enqueue_raw env config task raw 1000
