-- ===== src/Scripts/Payload.antt =====
-- scripts/inject_demo_batch.py, lines 80-125 and 268-277: the payload that the script makes of a row of a batch.
pub mod Accepted
use drift_triage_co_pilot.Prelude.{
  Bool, true, false, not, ◌||◌, String, ◌&◌, ◌==◌, string_eq, Option, none, some, List, [], ◌∷◌,
  map, filter_by, all_of, if◌then◌else◌, Result, ok, raised, value_error, raise_if, collect, ◌>>=◌,
  ◌>>◌,
}
use drift_triage_co_pilot.Floating.{Float}
use drift_triage_co_pilot.Ml.Reference.{lookup}
use drift_triage_co_pilot.Frontend.Batch as Batch
use drift_triage_co_pilot.Frontend.Batch.{prediction_fields, is_one_of, Reading, Payload}
use drift_triage_co_pilot.Scripts.Batches.{
  Value, number, text, nan, Row, Frame, categorical_columns, value_text, observed,
}

-- A set of texts for each column.
abbrev pub Allowed : Type 0
Allowed = List (String × List String)

-- `{"age", "campaign", "pdays", "previous"}`
abbrev pub whole_fields : List String
whole_fields = "age" ∷ "campaign" ∷ "pdays" ∷ "previous" ∷ []

module _ {F : Type 0} ⦃f : Float F⦄ where
  -- `load_allowed_categories`, from the source frame on
  unfoldable pub load_allowed_categories : Frame F → Allowed
  load_allowed_categories source =
      map (λ c. (c, observed c source.rows))
        (filter_by (λ c. is_one_of c source.columns) categorical_columns)

-- `allowed_categories.get(field, set())`, where none restrict.
abbrev pub is_allowed : Option Allowed → String → String → Bool
is_allowed none field s = true
is_allowed (some allowed) field s = elim (lookup field allowed) [
  | none ↦ false
  | some texts ↦ is_one_of s texts
]

module _ {I F : Type 0} ⦃f : Float F⦄ (read : Reading I F) where
  abbrev pub json_float : Value F → Result F
  json_float (number v) = ok v
  json_float (text s) = read.float_of s
  json_float nan = raised (value_error "nan")

  -- `_json_number`
  unfoldable pub json_number : Value F → String → Result (Batch.Value I F)
  json_number value field = json_float value >>= λ v.
      if is_one_of field whole_fields
      then (read.int_of v >>= λ n. ok (Batch.Value.integer n))
      else ok (Batch.Value.number v)

  -- A categorical value, by the text that `str` gives.
  abbrev pub categorical_value : Option Allowed → String → String → Result (Batch.Value I F)
  categorical_value allowed field s =
      if is_allowed allowed field s
      then ok (Batch.Value.text s)
      else raised (value_error ("Invalid category for " & field))

  -- The value of a field that is there.
  unfoldable pub payload_value : Option Allowed → String → Value F → Result (Batch.Value I F)
  unfolding json_number
  payload_value allowed field value = elim (value_text value) [
    | none ↦ raised (value_error ("Null prediction field: " & field))
    | some s ↦
        if is_one_of field categorical_columns
        then categorical_value allowed field s
        else json_number value field
  ]

  unfoldable pub payload_entry :
      Option Allowed → (columns : List String) → Row F → String → Result (String × Batch.Value I F)
  unfolding payload_value
  payload_entry allowed columns row field =
      if is_one_of field columns
      then (payload_value allowed field (row field) >>= λ v. ok (field, v))
      else raised (value_error ("Missing prediction field: " & field))

  abbrev pub keys : Payload I F → List String
  keys payload = map (λ e. e.0) payload

  -- The two checks at the end.
  unfoldable pub checked_payload : Payload I F → Result (Payload I F)
  checked_payload payload =
      raise_if (not (all_of (λ k. is_one_of k prediction_fields) (keys payload)))
        (value_error "Unexpected payload fields")
      >> raise_if (is_one_of "y" (keys payload) || is_one_of "duration" (keys payload))
          (value_error "Payload must not include y or duration")
      >> ok payload

  unfoldable pub build_prediction_payload :
      (columns : List String) → Row F → Option Allowed → Result (Payload I F)
  unfolding payload_entry checked_payload
  build_prediction_payload columns row allowed =
      collect (payload_entry allowed columns row) prediction_fields >>= checked_payload
