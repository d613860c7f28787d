-- ===== src/Drift.antt =====
-- backend/src/drift: the drift tests (psi.py, chi2.py, output_drift.py) and the aggregate report with
-- its webhook contract (severity.py).
pub mod Severity
pub mod Psi
pub mod Chi2
pub mod Output
pub mod Report
mod Tests
