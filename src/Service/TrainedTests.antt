-- ===== src/Service/TrainedTests.antt =====
-- The theorems on what a training leaves to the service, at concrete datasets and stores.
use drift_triage_co_pilot.Prelude.{
  ℕ, ◌+◌, ◌*◌, ◌/◌, ◌≤◌, ◌≡◌, refl, nat_eq, ◌==◌, if◌then◌else◌, String, Option, none, some, List,
  [], ◌∷◌, map, length, min, All, Occurs, inr, subst, sym, ok_injective, value_error, Result,
  Exception, ok, raised, arith,
}
use drift_triage_co_pilot.Settings.{default_settings}
use drift_triage_co_pilot.Floating.Fixed.{
  Fixed, fixed_float, fixed_numpy, Fixed-IsOrdered, Fixed-IsSigned, Fixed-IsNumpy,
}
use drift_triage_co_pilot.Drift.Report.{DriftReport}
use drift_triage_co_pilot.Drift.Report.Payload.{IsValidated}
use drift_triage_co_pilot.Ml.Reference.{ReferenceStats}
use drift_triage_co_pilot.Service.Predictions.{Features, predict, predict_with}
use drift_triage_co_pilot.Service.Predictions.Window.{predict_all}
use drift_triage_co_pilot.Service.Reports.{compute_drift}
use drift_triage_co_pilot.Floating.{◌≼◌, nought}
use drift_triage_co_pilot.Ml.Data.Split.{
  Cell, Columns, Labelled, Split, number, text, add_flag, engineer, load_data,
}
use drift_triage_co_pilot.Ml.Data.Split.Typed.{IsTyped}
use drift_triage_co_pilot.Ml.Data.{numeric_features}
use drift_triage_co_pilot.Ml.Reference.Compute.{Pandas, compute_reference_stats}
use drift_triage_co_pilot.Ml.Register.{
  registered_name, Trained, answering, register_model, load_model,
}
use drift_triage_co_pilot.Ml.Register.Memory.{Store, store, store-IsMlflow}
use drift_triage_co_pilot.Service.Start.{Started, start, load_reference_stats, get_ref_stats}
use drift_triage_co_pilot.Service.Start.Trained.{start-register_model}
use drift_triage_co_pilot.Service.Reports.Trained.{compute_drift-load_data}
use drift_triage_co_pilot.Service.ReportTests.{client, app, requests, ref_stats}

-- Each cell counts for itself.
abbrev even_shares : ℕ → List (Cell Fixed) → List (Cell Fixed × Fixed)
even_shares n [] = []
even_shares n (c ∷ cs) = (c, 100_000_000 / n) ∷ even_shares n cs

even_shares-nonneg : (n : ℕ) (cs : List (Cell Fixed)) → All (λ e. nought ≼ e.1) (even_shares n cs)
even_shares-nonneg n [] = tt
even_shares-nonneg n (c ∷ cs) = (ground arith, even_shares-nonneg n cs)

abbrev add_count : ℕ → List (ℕ × ℕ) → List (ℕ × ℕ)
add_count y [] = (y, 1) ∷ []
add_count y ((u, c) ∷ counts) = if u == y then (u, c + 1) ∷ counts else (u, c) ∷ add_count y counts

abbrev counted : List ℕ → List (ℕ × ℕ)
counted [] = []
counted (y ∷ ys) = add_count y (counted ys)

abbrev fixed_pandas : Pandas Fixed
fixed_pandas = record {
  mean = λ xs. 0;
  std = λ xs. 0;
  quantile = λ xs q. q;
  arange = λ a b step. a ∷ [];
  parse = λ s. none;
  value_counts = λ cs. even_shares (length cs) cs;
  unique = counted;
}

-- A row of the file
abbrev bank_row : ℕ → String → String → Columns Fixed
bank_row age contact y =
    ("age", number (age * 100_000_000))
    ∷ ("contact", text contact)
    ∷ ("duration", number 26_100_000_000)
    ∷ ("campaign", number 200_000_000)
    ∷ ("pdays", number 99_900_000_000)
    ∷ ("previous", number 0)
    ∷ ("emp.var.rate", number 110_000_000)
    ∷ ("cons.price.idx", number 9_399_000_000)
    ∷ ("cons.conf.idx", number 3_640_000_000)
    ∷ ("euribor3m", number 485_000_000)
    ∷ ("nr.employed", number 519_100_000_000)
    ∷ ("y", text y)
    ∷ []

bank_row-IsTyped : (age : ℕ) (contact y : String) → IsTyped (bank_row age contact y)
bank_row-IsTyped age contact y = (
  (
    (_, refl),
    (
      (_, refl),
      ((_, refl), ((_, refl), ((_, refl), ((_, refl), ((_, refl), ((_, refl), ((_, refl), tt))))))),
    ),
  ),
  refl,
)

abbrev bank_file : List (Columns Fixed)
bank_file =
    bank_row 41 "cellular" "no" ∷ bank_row 30 "cellular" "yes" ∷ bank_row 50 "telephone" "no" ∷ []

-- One row stays; a table without rows is refused.
abbrev rest_of :
    Fixed → List (Labelled Fixed) → Result (List (Labelled Fixed) × List (Labelled Fixed))
rest_of size [] = raised (value_error "empty")
rest_of size (row ∷ rows) = ok (row ∷ [], rows)

rest_of-drawn :
    (size : Fixed) (all : List (Labelled Fixed))
    (parts : List (Labelled Fixed) × List (Labelled Fixed)) (row : Labelled Fixed)
    → rest_of size all ≡ ok parts
    → Occurs row parts.1
    → Occurs row all
rest_of-drawn size [] parts row split o = ground (arith, split)
rest_of-drawn size (first ∷ all) parts row split o =
    inr (subst (λ p. Occurs row p.1) (sym (ok_injective _ parts split)) o)

abbrev bank_split : Split Fixed
bank_split = record {
  train = engineer (bank_row 41 "cellular" "no") ∷ [];
  val = engineer (bank_row 30 "cellular" "yes") ∷ [];
  test = engineer (bank_row 50 "telephone" "no") ∷ [];
  numeric_columns = numeric_features;
  categorical_columns = "contact" ∷ [];
}

bank_split-loaded : load_data (default_settings "key") rest_of bank_file ≡ ok bank_split
unfolding load_data engineer add_flag
bank_split-loaded = refl

compute_drift-load_data_example :
    let rows = (predict_all app requests []).1 in
    (stats : ReferenceStats Fixed) × (r : DriftReport Fixed) × (compute_reference_stats fixed_pandas
        (map (λ row. 60_000_000))
        bank_split
        "d1"
      ≡ ok stats)
    × (compute_drift fixed_numpy (default_settings "key") "r1" 7 stats rows "bank" 1 ≡ ok r)
    × IsValidated r
    × (r.window_size ≡ min 500 (length rows))
    × (length r.psi_results ≤ 10)
    × (length r.chi2_results ≤ 10)
compute_drift-load_data_example =
    compute_drift-load_data fixed_numpy fixed_pandas Fixed-IsOrdered Fixed-IsSigned Fixed-IsNumpy
      (default_settings "key") rest_of bank_file bank_split (map (λ row. 60_000_000)) "d1" "r1" 7
      (predict_all app requests []).1 "bank" 1 (λ cs. even_shares-nonneg (length cs) cs)
      rest_of-drawn
      (
        bank_row-IsTyped 41 "cellular" "no",
        (bank_row-IsTyped 30 "cellular" "yes", (bank_row-IsTyped 50 "telephone" "no", tt)),
      )
      bank_split-loaded (omega arith)

-- The trained pipeline gives each client a probability of 0.6, and the store is empty.
abbrev trained : Trained Fixed (Features Fixed → Fixed)
trained = record {
  pipeline = λ _. 60_000_000;
  auc = 90_000_000;
  recall = 74_000_000;
  val_recall = 80_000_000;
}

abbrev empty_store : Store (Features Fixed → Fixed)
empty_store = record { pipeline = λ _. 0; tags = []; staged = none }

abbrev read_half : String → Option Fixed
read_half _ = some 50_000_000

start-register_model_example :
    let model =
      load_model store read_half registered_name
        (register_model store answering trained 50_000_000 empty_store).1 in
    (s : Started Fixed) × (start model (load_reference_stats (some (ok ref_stats))) ≡ ok s)
    × (get_ref_stats s ≡ ok ref_stats)
    × (predict "p1" s.app client [] ≡ predict_with "p1" (λ _. 60_000_000) 50_000_000 client [])
    × ((e : Exception) × (start model (load_reference_stats none) ≡ raised e))
start-register_model_example =
    start-register_model store store-IsMlflow read_half trained 50_000_000 empty_store ref_stats
      "p1" client [] refl refl refl
