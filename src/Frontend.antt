-- ===== src/Frontend.antt =====
-- frontend/app.py: the parts of the dashboard that decide something, the eligibility badge and the injected batch.
pub mod Badge
pub mod Batch
pub mod Field
pub mod Top
mod Tests
