-- ===== src/Lib.antt =====
-- Verification of Android Farm, a platform that runs Android devices in containers for QA.
--
-- The program's host side is a set of small Python components over private JSON files and one
-- SQLite database. A web API puts operations into a durable queue (services/api/jobs.py); an
-- executor thread runs them one at a time and crosses the host guards. A second queue in Redis
-- (services/worker/worker.py) hands tasks to workers under leases. A controller
-- (ops/healthcheck.py) observes the devices and restarts those that crashed or stalled, within a
-- limit and a cooldown. Devices have identifiers from which their subnets, addresses and ports
-- follow (ops/device_ids.py), and the inventory (ops/inventory.py) says which request owns which
-- device.
--
-- Which file models what:
-- Prelude and the files below it: shared helpers, not code of the program: Boolean tests on
-- numbers, lists, texts as lists of code points, Python dictionaries as association lists in the
-- order of insertion, exceptions as values, and decimal texts. The digits that Python's \d and
-- int() know are a parameter (Unicode), since Unicode has more than ASCII.
-- Json: Python values as the json module reads them. A float is kept by the integer that it
-- equals, if there is one.
-- Device: ops/device_ids.py. device_id, device_index, canonical_device, subnet (_subnet) and
-- network_plan, with the regular expression written out as after_prefix and is_number.
-- Inventory: ops/inventory.py. normalize, load, save and choose, each loop a recursion; a
-- dictionary that is changed in place is returned.
-- Jobs: services/api/jobs.py. The table jobs is the list of its rows in the order of rowid;
-- submit, cancel, list_jobs and the two transactions of run_one (claim and complete) are
-- functions on it. Jobs.Service puts them, the executor loop, failed writes and restarts into one
-- history of events. The digest, the JSON encoder and decoder and uuid4 are parameters.
-- Intent: ops/desired_state.py and ops/account_policy.py. The two files as values; set_running,
-- wants_running, assert_not_held and the hold and release actions of main.
-- Events: ops/events.py, in part. The file of the event log as its lines: appending and _rotate.
-- Proxy: ops/proxy_store.py. The registry and the secret files are one Store; each operation
-- returns its result beside the store that it leaves, and Writes says how each of its writes
-- ends, those that put a file back included: done, raised before or raised after it replaced the
-- file. Proxy/Ops has the operations, Proxy/Check the two transactions of check_health,
-- Proxy/History the sequences of both. The address test, SHA-256 and the output of curl are
-- parameters.
-- Worker: services/worker/worker.py. Worker/Task has Task, WorkerConfig and command_for;
-- Worker/Redis the commands that the code asks of Redis, which is a parameter, as a record of the
-- commands and of what its manual says of them, with a script as a program of commands;
-- Worker/Queue the scripts of RedisQueue; Worker/History the interleavings of the scripts of any
-- number of workers and producers; Worker/Run finish, fail, reserve, execute_one and a pass of
-- Worker.run as they call the scripts, with what others do before each call, on a Redis whose
-- calls return. The encoder and decoder of JSON, the test of UUIDs and the reading of the clock
-- are parameters.
-- Health: ops/healthcheck.py. observe on the answers of Docker and of the probes, with the
-- desired state of Intent and the identifiers of Device; Health/Control has compose_argv and
-- reconcile, on the state file as a dictionary of entries and with the answers of the recovery
-- commands as a parameter. Notifications and the latency of the proxy are left out.
-- Operations: services/api/operations.py, in part: validate_job, with the configuration, the
-- catalog and the staged uploads as values of a Host. Operations/Request has the shared checks of
-- fields, Operations/Artifacts those of applications, Operations/Secrets those of passwords and
-- proxies, Operations/Validate the gate itself. Persian messages stand in English.
-- Server: services/api/server.py, in part: Application.__call__ and upload on the table of Jobs,
-- in Server/Handler. What a library reads out of a request is part of the Call; what the snapshot
-- shows is left out.
-- Credentials: services/api/credentials.py, in part: the change of the passwords of the console
-- and of Grafana. Credentials has the private files and _apply_files, Credentials/Account
-- _grafana_set and _grafana_rollback, Credentials/Rotate rotate with the part of the preflight
-- that reads the files and the account. Grafana and the container that copies secrets are a
-- parameter, a record of what the code asks of them with what their documentation says of an
-- account.
-- Tests and the files below it: the theorems at concrete inputs.
--
-- Bounds and fuel: the only recursion on fuel is that of decimal digits, whose fuel is the number
-- plus one; Prelude.Decimal proves that enough. Everything else is structural.
--
-- Not modelled: subprocesses, Docker and HTTP input and output, the inside of Redis, file
-- permissions and locks, the installer, and the web front end.
pub mod Credentials
pub mod Device
pub mod Events
pub mod Health
pub mod Intent
pub mod Inventory
pub mod Jobs
pub mod Json
pub mod Operations
pub mod Prelude
pub mod Proxy
pub mod Server
pub mod Tests
pub mod Worker
