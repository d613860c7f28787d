-- ===== src/Settings.antt =====
-- The part of backend/src/core/settings.py that the modelled code reads.
use drift_triage_co_pilot.Prelude.{ℕ, String}
use drift_triage_co_pilot.Floating.{Float}

pub record Settings (F : Type 0) : Type 0 where
  pub promotion_api_key : String
  pub test_size : F
  pub val_size : F
  pub min_recall : F
  pub drift_chi2_alpha : F
  pub drift_window_size : ℕ
  pub redis_queue_name : String

-- The defaults; the promotion key has none.
abbrev pub default_settings : {F : Type 0} ⦃f : Float F⦄ → String → Settings F
default_settings ⦃f⦄ key = record {
  promotion_api_key = key;
  test_size = f.literal 2 1;
  val_size = f.literal 2 1;
  min_recall = f.literal 75 2;
  drift_chi2_alpha = f.literal 5 2;
  drift_window_size = 500;
  redis_queue_name = "drift_actions";
}
