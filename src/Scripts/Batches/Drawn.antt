-- ===== src/Scripts/Batches/Drawn.antt =====
-- scripts/generate_demo_batches.py: the categories of a batch through the mutations.
use drift_triage_co_pilot.Prelude.{
  ℕ, suc, ◌≡◌, ◌≢◌, refl, sym, ap, subst, inl, inr, Bool, true, false, ◌&&◌, ◌||◌, String, ◌==◌,
  string_eq, none, some, List, [], ◌∷◌, length, All, Occurs, Bool-cases, Option-cases, beq-path,
  beq-same, beq-false, and-both, ◌∙◌, if◌then◌else◌, arith,
}
use drift_triage_co_pilot.Floating.{Float}
use drift_triage_co_pilot.Frontend.Batch.{is_one_of}
use drift_triage_co_pilot.Scripts.Batches.{
  Value, text, Row, Frame, Draws, Mutation, shift_numeric, set_fraction, set_numeric_quantile,
  set_low_pdays, categorical_columns, put, put_all, put_at, is_chosen, both_have, value_text,
  observed, mutate, mutate_all,
}

true_ne_false : true ≢ false
true_ne_false h = ground (arith, h)

some_injective : (s t : String) → some s ≡ some t → s ≡ t
some_injective s t e = ap (λ o. elim o [ none ↦ s | some u ↦ u ]) e

pub is_one_of-Occurs : (s : String) (xs : List String) → is_one_of s xs ≡ true → Occurs s xs
is_one_of-Occurs s [] h = ground (arith, h)
is_one_of-Occurs s (x ∷ xs) h = elim (Bool-cases (x == s)) [
  | inl same ↦ inl (beq-path x s same)
  | inr other ↦ inr (is_one_of-Occurs s xs (rw other at h))
]

or_true : (b : Bool) → (b || true) ≡ true
or_true true = refl
or_true false = refl

pub Occurs-is_one_of : (s : String) (xs : List String) → Occurs s xs → is_one_of s xs ≡ true
Occurs-is_one_of s [] h = ground (arith, h)
Occurs-is_one_of s (x ∷ xs) (inl e) = rw (beq-same x s e) refl
Occurs-is_one_of s (x ∷ xs) (inr o) = rw (Occurs-is_one_of s xs o) (or_true (x == s))

-- A numeric column is none of the categorical ones.
abbrev pub IsNumeric : String → Type 0
IsNumeric column = is_one_of column categorical_columns ≡ false

module _ {F : Type 0} ⦃f : Float F⦄ where
  pub Occurs-observed :
      (column : String) (rows : List (Row F)) (row : Row F) (s : String)
      → Occurs row rows
      → value_text (row column) ≡ some s
      → Occurs s (observed column rows)
  Occurs-observed column [] row s o e = ground (arith, o)
  Occurs-observed column (r ∷ rows) row s (inl same) e =
      rw (subst (λ q. value_text (q column) ≡ some s) (sym same) e, observed) (inl refl)
  Occurs-observed column (r ∷ rows) row s (inr later) e =
      elim (Option-cases (value_text (r column))) [
        | inl dropped ↦ rw (dropped, observed) (Occurs-observed column rows row s later e)
        | inr (t, kept) ↦ rw (kept, observed) (inr (Occurs-observed column rows row s later e))
      ]

  -- The row has only texts of the source in the categorical columns.
  abbrev pub IsDrawn : List (Row F) → Row F → Type 0
  IsDrawn source row =
      (column s : String)
      → is_one_of column categorical_columns ≡ true
      → value_text (row column) ≡ some s
      → Occurs s (observed column source)

  put-IsDrawn_numeric :
      (source : List (Row F)) (column : String) (v : Value F) (row : Row F)
      → IsNumeric column
      → IsDrawn source row
      → IsDrawn source (put column v row)
  put-IsDrawn_numeric source column v row numeric drawn c s known e =
      let apart : (c == column) ≡ false = beq-false c column (λ same.
        true_ne_false (sym known ∙ (ap (λ n. is_one_of n categorical_columns) same ∙ numeric))) in
      drawn c s known (rw apart at e)

  put_all-IsDrawn :
      (source : List (Row F)) (column : String) (v : Row F → Value F) (rows : List (Row F))
      → IsNumeric column
      → All (IsDrawn source) rows
      → All (IsDrawn source) (put_all column v rows)
  put_all-IsDrawn source column v [] numeric drawn = tt
  put_all-IsDrawn source column v (row ∷ rows) numeric drawn = (
    put-IsDrawn_numeric source column (v row) row numeric drawn.0,
    put_all-IsDrawn source column v rows numeric drawn.1,
  )

  put-IsDrawn_text :
      (source : List (Row F)) (column s : String) (row : Row F)
      → Occurs s (observed column source)
      → IsDrawn source row
      → IsDrawn source (put column (text s) row)
  put-IsDrawn_text source column s row occurs drawn c t known e = elim (Bool-cases (c == column)) [
    | inl same ↦
        let written : some s ≡ some t = rw same at e in
        subst (λ n. Occurs t (observed n source)) (sym (beq-path c column same))
          (subst (λ u. Occurs u (observed column source)) (some_injective s t written) occurs)
    | inr other ↦ drawn c t known (rw other at e)
  ]

  if-IsDrawn :
      (source : List (Row F)) (b : Bool) (x y : Row F)
      → IsDrawn source x
      → IsDrawn source y
      → IsDrawn source (if b then x else y)
  if-IsDrawn source true x y hx hy = hx
  if-IsDrawn source false x y hx hy = hy

  put_at-IsDrawn :
      (source : List (Row F)) (idx : List ℕ) (column s : String) (k : ℕ) (rows : List (Row F))
      → Occurs s (observed column source)
      → All (IsDrawn source) rows
      → All (IsDrawn source) (put_at idx column (text s) k rows)
  put_at-IsDrawn source idx column s k [] occurs drawn = tt
  put_at-IsDrawn source idx column s k (row ∷ rows) occurs drawn = (
    if-IsDrawn source (is_chosen k idx) (put column (text s) row) row
        (put-IsDrawn_text source column s row occurs drawn.0) drawn.0,
    put_at-IsDrawn source idx column s (suc k) rows occurs drawn.1,
  )

-- A call that writes a number writes it to a numeric column.
abbrev pub IsSafe : Mutation → Type 0
IsSafe (shift_numeric column m e) = IsNumeric column
IsSafe (set_fraction column value percent) = Unit
IsSafe (set_numeric_quantile column percent) = IsNumeric column
IsSafe set_low_pdays = Unit

length-put_all :
    {F : Type 0} (column : String) (v : Row F → Value F) (rows : List (Row F))
    → length (put_all column v rows) ≡ length rows
length-put_all column v [] = refl
length-put_all column v (row ∷ rows) = omega (arith, length-put_all column v rows)

length-put_at :
    {F : Type 0} (idx : List ℕ) (column : String) (v : Value F) (k : ℕ) (rows : List (Row F))
    → length (put_at idx column v k rows) ≡ length rows
length-put_at idx column v k [] = refl
length-put_at idx column v k (row ∷ rows) = omega (arith, length-put_at idx column v (suc k) rows)

-- What a mutation keeps: the columns, the number of rows, and that they are drawn.
pub record IsBatch {F : Type 0} ⦃f : Float F⦄ (source : Frame F) (n : ℕ) (df : Frame F)
    : Type 0 where
  pub columns_kept : df.columns ≡ source.columns
  pub size : length df.rows ≡ n
  pub drawn : All (IsDrawn source.rows) df.rows

module _ {F G : Type 0} ⦃f : Float F⦄ (d : Draws F G) (source : Frame F) (n : ℕ) where
  -- A column that is written, or the frame as it was.
  put_all-IsBatch :
      (b : Bool) (column : String) (v : Row F → Value F) (df : Frame F) (rng : G)
      → IsNumeric column
      → IsBatch source n df
      → IsBatch source n
          (if◌then◌else◌ {A = Frame F × G} b
            (record df { rows = put_all column v df.rows }, rng)
            (df, rng)).0
  put_all-IsBatch false column v df rng numeric is = is
  put_all-IsBatch true column v df rng numeric is = record {
    columns_kept = is.columns_kept;
    size = length-put_all column v df.rows ∙ is.size;
    drawn = put_all-IsDrawn source.rows column v df.rows numeric is.drawn;
  }

  put_at-IsBatch :
      (b : Bool) (idx : List ℕ) (column s : String) (df : Frame F) (drawn_rng rng : G)
      → (b ≡ true → Occurs s (observed column source.rows))
      → IsBatch source n df
      → IsBatch source n
          (if◌then◌else◌ {A = Frame F × G} b
            (record df { rows = put_at idx column (text s) 0 df.rows }, drawn_rng)
            (df, rng)).0
  put_at-IsBatch false idx column s df drawn_rng rng occurs is = is
  put_at-IsBatch true idx column s df drawn_rng rng occurs is = record {
    columns_kept = is.columns_kept;
    size = length-put_at idx column (text s) 0 df.rows ∙ is.size;
    drawn = put_at-IsDrawn source.rows idx column s 0 df.rows (occurs refl) is.drawn;
  }

  mutate-IsBatch :
      (m : Mutation) (df : Frame F) (rng : G)
      → IsSafe m
      → IsBatch source n df
      → IsBatch source n (mutate d source m (df, rng)).0
  unfolding mutate
  mutate-IsBatch (shift_numeric column m e) df rng safe is =
      put_all-IsBatch (both_have column df source) column _ df rng safe is
  mutate-IsBatch (set_fraction column value percent) df rng safe is =
      put_at-IsBatch (both_have column df source && is_one_of value (observed column source.rows)) _
        column value df _ rng
        (λ both.
          is_one_of-Occurs value (observed column source.rows)
            (and-both (both_have column df source) _ both).1)
        is
  mutate-IsBatch (set_numeric_quantile column percent) df rng safe is =
      put_all-IsBatch (both_have column df source) column _ df rng safe is
  mutate-IsBatch set_low_pdays df rng safe is =
      put_all-IsBatch (both_have "pdays" df source) "pdays" _ df rng refl is

  pub mutate_all-IsBatch :
      (ms : List Mutation) (df : Frame F) (rng : G)
      → All IsSafe ms
      → IsBatch source n df
      → IsBatch source n (mutate_all d source ms (df, rng)).0
  unfolding mutate_all
  mutate_all-IsBatch [] df rng safe is = is
  mutate_all-IsBatch (m ∷ ms) df rng safe is =
      let after = mutate d source m (df, rng) in
      mutate_all-IsBatch ms after.0 after.1 safe.1 (mutate-IsBatch m df rng safe.0 is)
