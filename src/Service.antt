-- ===== src/Service.antt =====
-- The drift service of backend/src/service.
pub mod Promotion
pub mod Alerts
pub mod Predictions
pub mod Reports
pub mod Listing
pub mod Start
mod Tests
mod DriftTests
mod ReportTests
mod TrainedTests
