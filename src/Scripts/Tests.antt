-- ===== src/Scripts/Tests.antt =====
-- The theorems on the demo batches at a source of two rows, with draws that take the first rows.
use drift_triage_co_pilot.Prelude.{
  ℕ, zero, suc, ◌+◌, ◌≤◌, ◌<◌, ◌≡◌, refl, ap, ◌⊎◌, inl, inr, Bool, true, false, String, ◌==◌,
  string_eq, some, List, [], ◌∷◌, ◌++◌, map, take, length, replicate, length-replicate, All, Occurs,
  if◌then◌else◌, leb, Bool-cases, Result, ok, raised, value_error, str_int, arith,
}
use drift_triage_co_pilot.Floating.Fixed.{Fixed, fixed_float}
use drift_triage_co_pilot.Frontend.Batch.{prediction_fields, is_one_of, Reading, Payload}
use drift_triage_co_pilot.Scripts.Batches.{
  Value, number, text, nan, Row, Frame, Draws, scenarios, categorical_columns, value_text, main,
}
use drift_triage_co_pilot.Scripts.Batches.Drawn.{IsBatch, IsDrawn, Occurs-observed}
use drift_triage_co_pilot.Scripts.Batches.Valid.{IsDraws, HoldsTexts, IsNamedBatch, main-ok}
use drift_triage_co_pilot.Scripts.Payload.{
  keys, whole_fields, load_allowed_categories, build_prediction_payload,
}
use drift_triage_co_pilot.Scripts.Payload.Accepted.{IsReady, Carries, build_prediction_payload-ok}

module _ {A : Type 0} where
  All-later : (x : A) (xs ys : List A) → All (λ y. Occurs y xs) ys → All (λ y. Occurs y (x ∷ xs)) ys
  All-later x xs [] h = tt
  All-later x xs (y ∷ ys) h = (inr h.0, All-later x xs ys h.1)

  Occurs-take : (n : ℕ) (xs : List A) → All (λ x. Occurs x xs) (take n xs)
  Occurs-take zero xs = tt
  Occurs-take (suc n) [] = tt
  Occurs-take (suc n) (x ∷ xs) = (inl refl, All-later x xs (take n xs) (Occurs-take n xs))

  All-first : (n : ℕ) (x : A) (xs : List A) → All (λ y. Occurs y (x ∷ xs)) (replicate n x)
  All-first zero x xs = tt
  All-first (suc n) x xs = (inl refl, All-first n x xs)

  length-take_of_le : (n : ℕ) (xs : List A) → n ≤ length xs → length (take n xs) ≡ n
  length-take_of_le zero xs h = refl
  length-take_of_le (suc n) [] h = absurd (omega arith)
  length-take_of_le (suc n) (x ∷ xs) h = omega (arith, length-take_of_le n xs)

abbrev draw : ℕ → Bool → ℕ → List (Row Fixed) → Result (List (Row Fixed))
draw n replace seed [] = raised (value_error "empty")
draw n replace seed (row ∷ rows) =
    if leb n (length (row ∷ rows))
    then ok (take n (row ∷ rows))
    else if replace
    then ok (replicate n row)
    else raised (value_error "too few")

abbrev below : ℕ → List ℕ
below zero = []
below (suc n) = n ∷ below n

abbrev first_or_nan : List Fixed → Value Fixed
first_or_nan [] = nan
first_or_nan (v ∷ vs) = number v

abbrev first_rows : Draws Fixed ℕ
first_rows = record {
  sample = draw;
  default_rng = λ seed. seed;
  choice = λ long size rng. (below size, rng + 1);
  parse = λ s. nan;
  clip = λ source v. v;
  quantile = λ vs q. first_or_nan vs;
  stored = λ b. b;
  is_inferred = λ s. s == "007";
}

draw-sampled :
    (n : ℕ) (replace : Bool) (seed : ℕ) (rows : List (Row Fixed))
    → 0 < length rows
    → (n ≤ length rows) ⊎ (replace ≡ true)
    → (xs : List (Row Fixed)) × (draw n replace seed rows ≡ ok xs)
      × (length xs ≡ n)
      × All (λ x. Occurs x rows) xs
draw-sampled n replace seed [] filled fits = absurd (omega arith)
draw-sampled n replace seed (row ∷ rows) filled fits =
    elim (Bool-cases (leb n (length (row ∷ rows)))) [
      | inl enough ↦ (
        take n (row ∷ rows),
        rw enough refl,
        length-take_of_le n (row ∷ rows) (ground (arith, enough)),
        Occurs-take n (row ∷ rows),
      )
      | inr few ↦
          let again : replace ≡ true = elim fits [ inl le ↦ ground (arith, few, le) | inr e ↦ e ] in
          (replicate n row, rw (few, again) refl, length-replicate n row, All-first n row rows)
    ]

first_rows-IsDraws : IsDraws first_rows
first_rows-IsDraws = record { sampled = draw-sampled; stored_texts = λ b column s texts o. o }

abbrev source_row : String → Row Fixed
source_row category column =
    if is_one_of column categorical_columns
    then text category
    else if column == "y"
    then text "no"
    else number 1_000_000_000

abbrev source : Frame Fixed
source = record {
  columns = prediction_fields ++ "y" ∷ [];
  rows = source_row "unknown" ∷ source_row "may" ∷ [];
}

source-HoldsTexts : HoldsTexts first_rows source
source-HoldsTexts =
    let both : (false ≡ false) × ((false ≡ false) × Unit {0}) = (refl, (refl, tt)) in
    (both, (both, (both, (both, (both, (both, (both, (both, (both, (both, tt))))))))))

main-ok_example :
    (bs : List (String × Frame Fixed)) × (main first_rows source 3 42 ≡ ok bs)
    × (map (λ b. b.0) bs ≡ scenarios)
    × All (IsNamedBatch first_rows first_rows-IsDraws source 3) bs
main-ok_example = main-ok first_rows first_rows-IsDraws source 3 42 (omega arith) source-HoldsTexts

abbrev reading : Reading ℕ Fixed
reading = record { float_of = λ s. raised (value_error s); int_of = λ x. ok x }

source-IsDrawn : (row : Row Fixed) → Occurs row source.rows → IsDrawn source.rows row
source-IsDrawn row o column s known e = Occurs-observed column source.rows row s o e

source-IsBatch : IsBatch source 2 source
source-IsBatch = record {
  columns_kept = refl;
  size = refl;
  drawn = (source-IsDrawn _ (inl refl), (source-IsDrawn _ (inr (inl refl)), tt));
}

abbrev Ready : String → Type 0
Ready field = IsReady reading source.columns (source_row "may") field

category :
    (field : String)
    → is_one_of field source.columns ≡ true
    → is_one_of field categorical_columns ≡ true
    → Ready field
category field there known = record {
  present = there;
  filled = ("may", rw known refl);
  readable = inl known;
}

measure :
    (field : String)
    → is_one_of field source.columns ≡ true
    → is_one_of field categorical_columns ≡ false
    → source_row "may" field ≡ number 1_000_000_000
    → Ready field
measure field there numeric holds = record {
  present = there;
  filled = (str_int 1_000_000_000, ap value_text holds);
  readable = inr (
    numeric,
    (
      1_000_000_000,
      holds,
      elim (Bool-cases (is_one_of field whole_fields)) [
        | inl whole ↦ inr (whole, (1_000_000_000, refl))
        | inr other ↦ inl other
      ],
    ),
  );
}

may-ready : All Ready prediction_fields
may-ready = (
  measure "age" refl refl refl,
  (
    category "job" refl refl,
    (
      category "marital" refl refl,
      (
        category "education" refl refl,
        (
          category "default" refl refl,
          (
            category "housing" refl refl,
            (
              category "loan" refl refl,
              (
                category "contact" refl refl,
                (
                  category "month" refl refl,
                  (
                    category "day_of_week" refl refl,
                    (
                      measure "campaign" refl refl refl,
                      (
                        measure "pdays" refl refl refl,
                        (
                          measure "previous" refl refl refl,
                          (
                            category "poutcome" refl refl,
                            (
                              measure "emp.var.rate" refl refl refl,
                              (
                                measure "cons.price.idx" refl refl refl,
                                (
                                  measure "cons.conf.idx" refl refl refl,
                                  (
                                    measure "euribor3m" refl refl refl,
                                    (measure "nr.employed" refl refl refl, tt),
                                  ),
                                ),
                              ),
                            ),
                          ),
                        ),
                      ),
                    ),
                  ),
                ),
              ),
            ),
          ),
        ),
      ),
    ),
  ),
)

build_prediction_payload-ok_example :
    (p : Payload ℕ Fixed) × (build_prediction_payload reading source.columns
        (source_row "may")
        (some (load_allowed_categories source))
      ≡ ok p)
    × (keys reading p ≡ prediction_fields)
    × All (Carries reading (source_row "may")) p
build_prediction_payload-ok_example =
    build_prediction_payload-ok reading first_rows first_rows-IsDraws source 2 source
      (source_row "may") source-HoldsTexts source-IsBatch (inr (inl refl))
      (refl, (refl, (refl, (refl, (refl, (refl, (refl, (refl, (refl, (refl, tt)))))))))) may-ready
