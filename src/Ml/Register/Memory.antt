-- ===== src/Ml/Register/Memory.antt =====
-- The laws of `IsMlflow` can be met: a store of one version, which is numbered 1.
use drift_triage_co_pilot.Prelude.{
  ◌≡◌, refl, ap, String, string_eq, eq_refl, Option, none, some, List, [], ◌∷◌,
}
use drift_triage_co_pilot.Service.Promotion.{Stage, staging, production, unstaged, archived}
use drift_triage_co_pilot.Ml.Reference.{lookup}
use drift_triage_co_pilot.Ml.Register.{VersionInfo, Mlflow}
use drift_triage_co_pilot.Ml.Register.RoundTrip.{IsMlflow}

-- A store of one version, numbered 1: its pipeline, its tags, and whether it is in Staging.
pub record Store (P : Type 0) : Type 0 where
  pub pipeline : P
  pub tags : List (String × String)
  pub staged : Option VersionInfo

abbrev only_version : VersionInfo
only_version = record { version = 1; run_id = "u1"; source = "models/1" }

tagged_first :
    (key value : String) (tags : List (String × String))
    → lookup key ((key, value) ∷ tags) ≡ some value
tagged_first key value tags = rw (eq_refl key, lookup) refl

module _ {P : Type 0} where
  abbrev listed : Stage → Store P → List VersionInfo
  listed staging s = elim s.staged [ none ↦ [] | some v ↦ v ∷ [] ]
  listed other s = []

  abbrev pub store : Mlflow P (Store P)
  store = record {
    get_latest_versions = λ name stage s. some (listed stage s);
    load_pipeline = λ source s. s.pipeline;
    version_tag = λ name v key s. lookup key s.tags;
    run_param = λ run_id key s. none;
    search_model_versions = λ name s. 1 ∷ [];
    log_model = λ name p key value s. record { pipeline = p; tags = []; staged = none };
    transition_to_staging = λ name v s. record {
      pipeline = s.pipeline;
      tags = s.tags;
      staged = some (record only_version { version = v });
    };
    set_model_version_tag = λ name v key value s. record {
      pipeline = s.pipeline;
      tags = (key, value) ∷ s.tags;
      staged = s.staged;
    };
  }

  listed_tagged :
      (key value : String) (stage : Stage) (s : Store P)
      → listed stage
          (record { pipeline = s.pipeline; tags = (key, value) ∷ s.tags; staged = s.staged })
        ≡ listed stage s
  listed_tagged key value staging s = refl
  listed_tagged key value production s = refl
  listed_tagged key value unstaged s = refl
  listed_tagged key value archived s = refl

  pub store-IsMlflow : IsMlflow store
  store-IsMlflow = record {
    Holds = λ name v p s. s.pipeline ≡ p;
    logged = λ name key value p s. (1, [], refl, refl);
    logged_production = λ name key value p s h. refl;
    staged = λ name v p s h. (record only_version { version = v }, refl, refl, h);
    staged_production = λ name v s h. refl;
    tagged = λ name key value v s. tagged_first key value s.tags;
    tagged_other = λ name key other value v s differs. rw (differs, lookup) refl;
    tagged_versions = λ name key value v stage s. ap some (listed_tagged key value stage s);
    tagged_pipeline = λ name key value source v s. refl;
  }
