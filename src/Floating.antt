-- ===== src/Floating.antt =====
-- What the code does with a `float`. The type and its operations are a parameter of the model: the
-- arithmetic of IEEE doubles, `numpy` and the platform's `log` lie outside the repository. The laws
-- are records of hypotheses; they speak of finite values, and `Floating.Fixed` meets them.
mod Defs
pub mod Laws
pub mod Fixed
pub use Defs.*
