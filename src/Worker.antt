-- ===== src/Worker.antt =====
-- backend/src/worker: the deduplicated queue (dedup.py) and the arq jobs.
pub mod Dedup
pub mod Jobs
pub mod Retrain
pub mod Replay
mod Tests
mod RetrainTests
