-- ===== src/Ml.antt =====
-- The training side of the classifier, backend/src/ml. `pandas`, `sklearn` and MLflow are parameters.
pub mod Data
pub mod Reference
pub mod Choice
pub mod Threshold
pub mod Train
pub mod Register
mod Tests
