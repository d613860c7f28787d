-- ===== src/Scripts.antt =====
-- The demo data: scripts/generate_demo_batches.py, and the payload of scripts/inject_demo_batch.py.
pub mod Batches
pub mod Payload
mod Tests
