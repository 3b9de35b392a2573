-- ===== src/Worker.antt =====
-- services/worker/worker.py: the task queue on Redis and its worker.
pub mod Redis
pub mod Task
pub mod Queue
pub mod Valid
pub mod Command
pub mod History
pub mod Effects
pub mod Once
pub mod Named
pub mod Held
pub mod Kept
pub mod Lost
pub mod Durable
pub mod Survive
pub mod Run
pub mod Pass
pub mod Start
pub mod Again
