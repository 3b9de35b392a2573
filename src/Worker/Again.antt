-- ===== src/Worker/Again.antt =====
-- The idempotency keys of `enqueue` in services/worker/worker.py.
use android_farm.Worker.Task.{Task}
