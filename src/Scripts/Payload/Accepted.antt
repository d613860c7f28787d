-- ===== src/Scripts/Payload/Accepted.antt =====
-- scripts/inject_demo_batch.py with scripts/generate_demo_batches.py: the payloads of the rows of a generated batch.
use drift_triage_co_pilot.Prelude.{
  ℕ, ◌≡◌, refl, sym, ap, ◌∙◌, subst, ◌⊎◌, inl, inr, Bool, true, false, String, ◌==◌, string_eq,
  Option, some, List, [], ◌∷◌, map, filter_by, All, All-Occurs, Occurs, Bool-cases, beq-path, ok,
  collect-ok, collect-map, ◌>>=◌, bind_parts, ok_injective, arith,
}
use drift_triage_co_pilot.Floating.{Float}
use drift_triage_co_pilot.Ml.Reference.{lookup}
use drift_triage_co_pilot.Frontend.Batch as Batch
use drift_triage_co_pilot.Frontend.Batch.{prediction_fields, is_one_of, Reading, Payload}
use drift_triage_co_pilot.Scripts.Batches.{
  Row, Frame, Draws, number, categorical_columns, value_text, observed,
}
use drift_triage_co_pilot.Scripts.Batches.Drawn.{
  IsBatch, Occurs-observed, Occurs-is_one_of, is_one_of-Occurs,
}
use drift_triage_co_pilot.Scripts.Batches.Valid.{IsDraws, HoldsTexts, stored-drawn}
use drift_triage_co_pilot.Scripts.Payload.{
  Allowed, load_allowed_categories, is_allowed, whole_fields, json_number, categorical_value,
  payload_value, payload_entry, keys, checked_payload, build_prediction_payload,
}

is_one_of-filter_by :
    (q : String → Bool) (c : String) (xs : List String)
    → is_one_of c xs ≡ true
    → q c ≡ true
    → is_one_of c (filter_by q xs) ≡ true
is_one_of-filter_by q c [] h fits = h
is_one_of-filter_by q c (x ∷ xs) h fits = elim (Bool-cases (x == c)) [
  | inl same ↦ rw (subst (λ y. q y ≡ true) (sym (beq-path x c same)) fits, filter_by) (rw same refl)
  | inr other ↦
      let later = is_one_of-filter_by q c xs (rw other at h) fits in
      elim (Bool-cases (q x)) [
        | inl kept ↦ rw (kept, filter_by) (rw (other, later) refl)
        | inr left ↦ rw (left, filter_by) later
      ]
]

lookup-map :
    {V : Type 0} (g : String → V) (c : String) (xs : List String)
    → is_one_of c xs ≡ true
    → lookup c (map (λ x. (x, g x)) xs) ≡ some (g c)
lookup-map g c [] h = ground (arith, h)
lookup-map g c (x ∷ xs) h = elim (Bool-cases (x == c)) [
  | inl same ↦ rw (same, lookup) (ap (λ y. some (g y)) (beq-path x c same))
  | inr other ↦ rw (other, lookup) (lookup-map g c xs (rw other at h))
]

-- The row has the field: a category that is not missing; or a number, and one that `int` takes where the field is whole.
pub record IsReady {I F : Type 0} ⦃f : Float F⦄ (read : Reading I F) (columns : List String)
    (row : Row F) (field : String) : Type 0 where
  pub present : is_one_of field columns ≡ true
  pub filled : (s : String) × (value_text (row field) ≡ some s)
  pub readable :
      (is_one_of field categorical_columns ≡ true)
      ⊎ ((is_one_of field categorical_columns ≡ false)
          × ((v : F) × (row field ≡ number v)
              × ((is_one_of field whole_fields ≡ false)
                  ⊎ ((is_one_of field whole_fields ≡ true) × ((k : I) × (read.int_of v ≡ ok k))))))

-- The value of the field is the row's: the text of a category, a number as it is, or its whole part.
abbrev pub Carries :
    {I F : Type 0} ⦃f : Float F⦄ → Reading I F → Row F → String × Batch.Value I F → Type 0
Carries read row (field, Batch.Value.text s) = value_text (row field) ≡ some s
Carries read row (field, Batch.Value.number v) = row field ≡ number v
Carries {F = F} read row (field, Batch.Value.integer k) =
    (v : F) × (row field ≡ number v) × (read.int_of v ≡ ok k)

module _ {I F G : Type 0} ⦃f : Float F⦄ (read : Reading I F) (d : Draws F G) (is : IsDraws d)
    (source : Frame F) (n : ℕ) where
  is_allowed-loaded :
      (c s : String)
      → is_one_of c categorical_columns ≡ true
      → is_one_of c source.columns ≡ true
      → Occurs s (observed c source.rows)
      → is_allowed (some (load_allowed_categories source)) c s ≡ true
  unfolding load_allowed_categories
  is_allowed-loaded c s known there o =
      let found =
        lookup-map (λ x. observed x source.rows) c
          (filter_by (λ x. is_one_of x source.columns) categorical_columns)
          (is_one_of-filter_by (λ x. is_one_of x source.columns) c categorical_columns known
            there) in
      rw (found, is_allowed) (Occurs-is_one_of s (observed c source.rows) o)

  json_number-ok :
      (field : String) (row : Row F) (v : F)
      → row field ≡ number v
      → (is_one_of field whole_fields ≡ false)
        ⊎ ((is_one_of field whole_fields ≡ true) × ((k : I) × (read.int_of v ≡ ok k)))
      → (w : Batch.Value I F) × (json_number read (row field) field ≡ ok w)
        × Carries read row (field, w)
  unfolding json_number
  json_number-ok field row v holds (inl other) =
      (Batch.Value.number v, rw (holds, other) refl, holds)
  json_number-ok field row v holds (inr (whole, (k, taken))) =
      (Batch.Value.integer k, rw (holds, whole, taken) refl, (v, holds, taken))

  payload_value-ok :
      (b : Frame F) (row : Row F) (field : String)
      → HoldsTexts d source
      → IsBatch source n b
      → Occurs row (d.stored b).rows
      → All (λ c. is_one_of c source.columns ≡ true) categorical_columns
      → IsReady read (d.stored b).columns row field
      → (v : Batch.Value I F) × (payload_value read
            (some (load_allowed_categories source))
            field
            (row field)
          ≡ ok v)
        × Carries read row (field, v)
  unfolding payload_value
  payload_value-ok b row field texts batch o there ready =
      let (s, shown) = ready.filled in
      elim ready.readable [
        | inl known ↦
            let drawn =
              stored-drawn d is source n b field s texts batch known
                (Occurs-observed field (d.stored b).rows row s o shown) in
            let listed =
              All-Occurs (λ c. is_one_of c source.columns ≡ true) field categorical_columns there
                (is_one_of-Occurs field categorical_columns known) in
            (
              Batch.Value.text s,
              rw (shown, payload_value)
                  (rw known
                    (rw (is_allowed-loaded field s known listed drawn, categorical_value) refl)),
              shown,
            )
        | inr (numeric, (v, holds, whole)) ↦
            let (w, read, carried) = json_number-ok field row v holds whole in
            (w, rw (shown, payload_value) (rw (numeric, read) refl), carried)
      ]

  payload_entry-ok :
      (b : Frame F) (row : Row F)
      → HoldsTexts d source
      → IsBatch source n b
      → Occurs row (d.stored b).rows
      → All (λ c. is_one_of c source.columns ≡ true) categorical_columns
      → (field : String) → IsReady read (d.stored b).columns row field
      → (e : String × Batch.Value I F) × (payload_entry read
            (some (load_allowed_categories source))
            (d.stored b).columns
            row
            field
          ≡ ok e)
        × Carries read row e
  unfolding payload_entry
  payload_entry-ok b row texts batch o there field ready =
      let (v, built, carried) = payload_value-ok b row field texts batch o there ready in
      ((field, v), rw (ready.present, built) refl, carried)

  payload_entry-named :
      (allowed : Option Allowed) (columns : List String) (row : Row F) (field : String)
      (e : String × Batch.Value I F)
      → payload_entry read allowed columns row field ≡ ok e
      → e.0 ≡ field
  unfolding payload_entry
  payload_entry-named allowed columns row field e built =
      elim (Bool-cases (is_one_of field columns)) [
        | inr missing ↦ ground (arith, rw missing at built)
        | inl present ↦
            let (v, _, r) =
              bind_parts (payload_value read allowed field (row field)) _ (rw present at built) in
            ap (λ x. x.0) (sym (ok_injective (field, v) e r))
      ]

  checked_payload-ok :
      (p : Payload I F) → keys read p ≡ prediction_fields → checked_payload read p ≡ ok p
  unfolding checked_payload
  checked_payload-ok p named = rw named refl

  -- If samples and files are as pandas documents them, the source has the categorical columns, and these hold only
  -- texts from which no other type is inferred when they are read back: from each row of a generated batch, as it is
  -- read from its file, that has every field, a category that is not missing or a number, and one that `int` takes
  -- where the field is whole, a payload is built under the categories of the source. Its keys are the fields of a
  -- prediction, in order, without `y` and `duration`, and each value is the row's: the text of a category, a number as
  -- it is, or its whole part.
  pub build_prediction_payload-ok :
      (b : Frame F) (row : Row F)
      → HoldsTexts d source
      → IsBatch source n b
      → Occurs row (d.stored b).rows
      → All (λ c. is_one_of c source.columns ≡ true) categorical_columns
      → All (IsReady read (d.stored b).columns row) prediction_fields
      → (p : Payload I F) × (build_prediction_payload read
            (d.stored b).columns
            row
            (some (load_allowed_categories source))
          ≡ ok p)
        × (keys read p ≡ prediction_fields)
        × All (Carries read row) p
  unfolding build_prediction_payload
  build_prediction_payload-ok b row texts batch o there ready =
      let allowed = some (load_allowed_categories source) in
      let entry = payload_entry read allowed (d.stored b).columns row in
      let (p, built, carried, _) =
        collect-ok entry (IsReady read (d.stored b).columns row) (Carries read row)
          (λ field given. payload_entry-ok b row texts batch o there field given) prediction_fields
          ready in
      let named =
        collect-map entry (λ e. e.0)
          (λ field e made. payload_entry-named allowed (d.stored b).columns row field e made)
          prediction_fields p built in
      (p, ap (λ r. r >>= checked_payload read) built ∙ checked_payload-ok p named, named, carried)
