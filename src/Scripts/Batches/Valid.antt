-- ===== src/Scripts/Batches/Valid.antt =====
-- scripts/generate_demo_batches.py: the batches of all scenarios, and the check of their categories.
use drift_triage_co_pilot.Prelude.{
  ℕ, suc, ◌+◌, ◌/◌, ◌≤◌, ◌<◌, ◌≡◌, refl, ap, ◌∙◌, max, ◌⊎◌, inl, inr, Bool, true, false, not, ◌&&◌,
  ◌||◌, String, ◌==◌, string_eq, some, List, [], ◌∷◌, map, length, Occurs-filter_by, All, All-imp,
  All-of_Occurs, All-Occurs, all_of-All, Occurs, ltb, leb, Bool-cases, and-both, Option-cases,
  if◌then◌else◌, ok, ◌>>=◌, bind_parts, raise_if, value_error, arith,
}
use drift_triage_co_pilot.Floating.{Float}
use drift_triage_co_pilot.Frontend.Batch.{is_one_of}
use drift_triage_co_pilot.Scripts.Batches.{
  Row, Frame, Draws, Mutation, scenarios, categorical_columns, mutations_of, both_have, value_text,
  keeps_categories, observed, validate_no_invalid_categories, mutate_all, apply_scenario_mutations,
  positives, is_positive, sample_base, sample_scenario_base, generate_from, generate_batches,
  check_batches, main,
}
use drift_triage_co_pilot.Scripts.Batches.Drawn.{
  IsDrawn, IsSafe, IsBatch, Occurs-observed, Occurs-is_one_of, is_one_of-Occurs, mutate_all-IsBatch,
}

-- What pandas documents: a sample has the asked number of rows, all of the frame, where they are enough or may
-- repeat; and a column is read back from a file with no new texts, if none of its texts is one from which a type other
-- than that of texts is inferred.
pub record IsDraws {F G : Type 0} ⦃f : Float F⦄ (d : Draws F G) : Type 0 where
  pub sampled :
      (n : ℕ) (replace : Bool) (seed : ℕ) (rows : List (Row F))
      → 0 < length rows
      → (n ≤ length rows) ⊎ (replace ≡ true)
      → (xs : List (Row F)) × (d.sample n replace seed rows ≡ ok xs)
        × (length xs ≡ n)
        × All (λ x. Occurs x rows) xs
  pub stored_texts :
      (b : Frame F) (column s : String)
      → All (λ t. d.is_inferred t ≡ false) (observed column b.rows)
      → Occurs s (observed column (d.stored b).rows)
      → Occurs s (observed column b.rows)

-- The categorical columns of the source hold only texts that are read back as texts.
abbrev pub HoldsTexts : {F G : Type 0} ⦃f : Float F⦄ → Draws F G → Frame F → Type 0
HoldsTexts d source =
    All (λ c. All (λ t. d.is_inferred t ≡ false) (observed c source.rows)) categorical_columns

-- The calls of a scenario are known, and write numbers to numeric columns.
abbrev HasCalls : String → Type 0
HasCalls scenario = (ms : List Mutation) × (mutations_of scenario ≡ ok ms) × All IsSafe ms

scenarios-HasCalls : All HasCalls scenarios
scenarios-HasCalls = (
  (_, refl, tt),
  (
    (_, refl, (refl, (refl, (tt, (tt, (tt, tt)))))),
    (
      (_, refl, (refl, (refl, (refl, (refl, (tt, (tt, (tt, (tt, tt))))))))),
      (
        (
          _,
          refl,
          (
            refl,
            (refl, (refl, (refl, (refl, (refl, (tt, (tt, (tt, (tt, (tt, (tt, (tt, tt)))))))))))),
          ),
        ),
        tt,
      ),
    ),
  ),
)

categorical_known : All (λ c. is_one_of c categorical_columns ≡ true) categorical_columns
categorical_known =
    (refl, (refl, (refl, (refl, (refl, (refl, (refl, (refl, (refl, (refl, tt))))))))))

enough : (n long : ℕ) → (n ≤ long) ⊎ (ltb long n ≡ true)
enough n long = elim (Bool-cases (ltb long n)) [ inl few ↦ inr few | inr many ↦ inl (ground arith) ]

not_or : (a b : Bool) → b ≡ true → (not a || b) ≡ true
not_or true b h = h
not_or false b h = refl

at_least_fifty : (quarter long : ℕ) → leb (max 50 quarter) long ≡ true → 0 < long
at_least_fifty quarter long h = ground arith

module _ {F : Type 0} ⦃f : Float F⦄ (source : List (Row F)) where
  pub observed-IsDrawn :
      (column s : String) (rows : List (Row F))
      → is_one_of column categorical_columns ≡ true
      → All (IsDrawn source) rows
      → Occurs s (observed column rows)
      → Occurs s (observed column source)
  observed-IsDrawn column s [] known drawn o = ground (arith, o)
  observed-IsDrawn column s (row ∷ rows) known drawn o =
      elim (Option-cases (value_text (row column))) [
        | inl dropped ↦ observed-IsDrawn column s rows known drawn.1 (rw (dropped, observed) at o)
        | inr (t, kept) ↦
            let either : (t ≡ s) ⊎ Occurs s (observed column rows) = rw (kept, observed) at o in
            elim either [
              | inl same ↦ drawn.0 column s known (kept ∙ ap some same)
              | inr later ↦ observed-IsDrawn column s rows known drawn.1 later
            ]
      ]

  sampled-IsDrawn :
      (base rows : List (Row F))
      → ((row : Row F) → Occurs row base → Occurs row source)
      → All (λ x. Occurs x base) rows
      → All (IsDrawn source) rows
  sampled-IsDrawn base rows within drawn =
      All-imp (λ x. Occurs x base) (IsDrawn source)
        (λ row o column s known e. Occurs-observed column source row s (within row o) e) rows drawn

module _ {F G : Type 0} ⦃f : Float F⦄ (d : Draws F G) (is : IsDraws d) (source : Frame F)
    (n : ℕ) where
  -- What a file gives back of a categorical column of a batch, the column of the source holds.
  pub stored-drawn :
      (b : Frame F) (c s : String)
      → HoldsTexts d source
      → IsBatch source n b
      → is_one_of c categorical_columns ≡ true
      → Occurs s (observed c (d.stored b).rows)
      → Occurs s (observed c source.rows)
  stored-drawn b c s texts batch known o =
      let kept : (t : String) → Occurs t (observed c b.rows) → Occurs t (observed c source.rows) =
        λ t. observed-IsDrawn source.rows c t b.rows known batch.drawn in
      let listed =
        All-Occurs (λ x. All (λ t. d.is_inferred t ≡ false) (observed x source.rows)) c
          categorical_columns texts (is_one_of-Occurs c categorical_columns known) in
      kept s (
        is.stored_texts b c s
          (All-of_Occurs (λ t. d.is_inferred t ≡ false) (observed c b.rows)
            (λ t there.
              All-Occurs (λ u. d.is_inferred u ≡ false) t (observed c source.rows) listed
                (kept t there)))
          o)

  validate-stored :
      (b : Frame F)
      → HoldsTexts d source
      → IsBatch source n b
      → validate_no_invalid_categories (d.stored b) source ≡ ok tt
  unfolding validate_no_invalid_categories
  validate-stored b texts batch =
      let passes = all_of-All (keeps_categories (d.stored b) source) categorical_columns (
        All-imp (λ c. is_one_of c categorical_columns ≡ true)
          (λ c. keeps_categories (d.stored b) source c ≡ true)
          (λ c known. not_or (both_have c (d.stored b) source) _ (
            all_of-All (λ s. is_one_of s (observed c source.rows)) (observed c (d.stored b).rows)
              (All-of_Occurs (λ s. is_one_of s (observed c source.rows) ≡ true)
                (observed c (d.stored b).rows)
                (λ s o.
                  Occurs-is_one_of s (observed c source.rows)
                    (stored-drawn b c s texts batch known o)))))
          categorical_columns categorical_known) in
      ap (λ t. raise_if (not t) (value_error "invalid categories")) passes

  -- What a sample is drawn from.
  record IsBase (base : List (Row F) × Bool) : Type 0 where
    filled : 0 < length base.0
    fits : (n ≤ length base.0) ⊎ (base.1 ≡ true)
    within : (row : Row F) → Occurs row base.0 → Occurs row source.rows

  if-IsBase :
      (b : Bool) (x y : List (Row F) × Bool)
      → (b ≡ true → IsBase x)
      → IsBase y
      → IsBase (if b then x else y)
  if-IsBase true x y hx hy = hx refl
  if-IsBase false x y hx hy = hy

  sample_base-IsBase :
      (scenario : String) → 0 < length source.rows → IsBase (sample_base d source scenario n)
  unfolding sample_base
  sample_base-IsBase scenario filled =
      if-IsBase
        (scenario == "rollback_drift"
          && is_one_of "y" source.columns
          && leb (max 50 (n / 4)) (length (positives d source)))
        _ _
        (λ positive. record {
          filled = at_least_fifty (n / 4) (length (positives d source)) (and-both _ _ positive).1;
          fits = enough n (length (positives d source));
          within = λ row o. (Occurs-filter_by (is_positive d) row source.rows o).0;
        })
        (record { filled = filled; fits = enough n (length source.rows); within = λ row o. o })

  -- A batch of a scenario, by its name.
  abbrev pub IsNamedBatch : String × Frame F → Type 0
  IsNamedBatch b = IsBatch source n b.1

  scenario-ok :
      (scenario : String) (seed : ℕ)
      → 0 < length source.rows
      → HasCalls scenario
      → (b : Frame F) × ((sample_scenario_base d source scenario n seed >>= λ base.
            apply_scenario_mutations d base source scenario seed)
          ≡ ok b)
        × IsBatch source n b
  unfolding sample_scenario_base apply_scenario_mutations
  scenario-ok scenario seed filled (ms, known, safe) =
      let base = sample_base-IsBase scenario filled in
      let (rows, drawn, size, within) =
        is.sampled n (sample_base d source scenario n).1 seed (sample_base d source scenario n).0
          base.filled base.fits in
      let df : Frame F = record { columns = source.columns; rows = rows } in
      (
        (mutate_all d source ms (df, d.default_rng seed)).0,
        rw (drawn, known) refl,
        mutate_all-IsBatch d source n ms df (d.default_rng seed) safe (record {
          columns_kept = refl;
          size = size;
          drawn =
              sampled-IsDrawn source.rows (sample_base d source scenario n).0 rows base.within
                within;
        }),
      )

  generate_from-ok :
      (seed offset : ℕ) (names : List String)
      → 0 < length source.rows
      → All HasCalls names
      → (bs : List (String × Frame F)) × (generate_from d source n seed offset names ≡ ok bs)
        × (map (λ b. b.0) bs ≡ names)
        × All IsNamedBatch bs
  unfolding generate_from
  generate_from-ok seed offset [] filled calls = ([], refl, refl, tt)
  generate_from-ok seed offset (scenario ∷ names) filled calls =
      let (b, built, batch) = scenario-ok scenario (seed + offset) filled calls.0 in
      let (base, sampled, mutated) =
        bind_parts (sample_scenario_base d source scenario n (seed + offset)) _ built in
      let (bs, later, named, batches) = generate_from-ok seed (suc offset) names filled calls.1 in
      (
        (scenario, b) ∷ bs,
        rw sampled (rw mutated (rw later refl)),
        ap (λ ns. scenario ∷ ns) named,
        (batch, batches),
      )

  check_batches-ok :
      (bs : List (String × Frame F))
      → HoldsTexts d source
      → All IsNamedBatch bs
      → check_batches d source bs ≡ ok tt
  unfolding check_batches
  check_batches-ok [] texts batches = refl
  check_batches-ok (b ∷ bs) texts batches =
      rw (validate-stored b.1 texts batches.0) (check_batches-ok bs texts batches.1)

  -- If samples and files are as pandas documents them, the source has a row, and its categorical columns hold only
  -- texts from which no other type is inferred when they are read back: `main` completes, whatever the draws
  -- and the number of rows asked for. It makes a batch for each scenario, in order, none of which fails the check of
  -- its categories; each has the columns of the source and the rows asked for, and its categorical columns hold only
  -- texts that the column of the source holds.
  pub main-ok :
      (random_state : ℕ)
      → 0 < length source.rows
      → HoldsTexts d source
      → (bs : List (String × Frame F)) × (main d source n random_state ≡ ok bs)
        × (map (λ b. b.0) bs ≡ scenarios)
        × All IsNamedBatch bs
  unfolding main generate_batches
  main-ok random_state filled texts =
      let (bs, built, named, batches) =
        generate_from-ok random_state 0 scenarios filled scenarios-HasCalls in
      (bs, rw (built, check_batches-ok bs texts batches) refl, named, batches)
