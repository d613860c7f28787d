-- ===== src/Frontend/Field/Search.antt =====
-- frontend/app.py, `extract_field`: where the search passes over a value, and where it finds one.
use drift_triage_co_pilot.Prelude.{
  ℕ, ◌<◌, ◌≡◌, refl, ap, true, false, not, ◌&&◌, and-both, all_of, String, codes, str_int,
  str_int-IsDigit, str_int-filled, IsDigit, ◌==◌, nat_eq, Option, none, some, List, [], ◌∷◌, ◌++◌,
  All, All-imp, length, Bool-cases, not-true, beq-same, inl, inr, arith,
}
use drift_triage_co_pilot.Drift.Severity.{Severity, severity_text, low, medium, high}
use drift_triage_co_pilot.Worker.Dedup.{
  Action, action_text, no_action, replay_test, retrain, rollback,
}
use drift_triage_co_pilot.Frontend.Field.{
  is_stop, strip_prefix, take_run, filled, match_here, search,
}

-- The characters of a key, and those of a value.
abbrev pub IsKeyCode : ℕ → Type 0
IsKeyCode c = (b',' == c) ≡ false

abbrev pub IsValueCode : ℕ → Type 0
IsValueCode c = (is_stop c ≡ false) × ((c == b'=') ≡ false)

-- A value without a comma, a dot, white space, or an equals sign, which is not empty.
pub record IsPlain (v : List ℕ) : Type 0 where
  pub plain : All IsValueCode v
  pub filled_in : 0 < length v

-- No key is found across the end of a value.
strip_prefix-value :
    (key v rest : List ℕ)
    → All IsKeyCode key
    → All IsValueCode v
    → strip_prefix (key ++ b'=' ∷ []) (v ++ b',' ∷ rest) ≡ none
unfolding strip_prefix
strip_prefix-value [] [] rest k p = refl
strip_prefix-value [] (c ∷ v) rest k p = rw (p.0.1, strip_prefix) refl
strip_prefix-value (d ∷ key) [] rest k p = rw (k.0, strip_prefix) refl
strip_prefix-value (d ∷ key) (c ∷ v) rest k p = elim (Bool-cases (c == d)) [
  | inl same ↦ rw (same, strip_prefix) (strip_prefix-value key v rest k.1 p.1)
  | inr other ↦ rw (other, strip_prefix) refl
]

pub search-value :
    (key v rest : List ℕ)
    → All IsKeyCode key
    → All IsValueCode v
    → search (key ++ b'=' ∷ []) (v ++ b',' ∷ rest) ≡ search (key ++ b'=' ∷ []) (b',' ∷ rest)
unfolding search match_here
search-value key [] rest k p = refl
search-value key (c ∷ v) rest k p =
    rw (strip_prefix-value key (c ∷ v) rest k p, search) (search-value key v rest k p.1)

same_code : (c : ℕ) → (c == c) ≡ true
same_code c = beq-same c c refl

strip_prefix-append : (p s : List ℕ) → strip_prefix p (p ++ s) ≡ some s
unfolding strip_prefix
strip_prefix-append [] s = refl
strip_prefix-append (c ∷ p) s = rw (same_code c, strip_prefix) (strip_prefix-append p s)

take_run-value : (v rest : List ℕ) → All IsValueCode v → take_run (v ++ b',' ∷ rest) ≡ v
unfolding take_run
take_run-value [] rest p = refl
take_run-value (c ∷ v) rest p = rw (p.0.0, take_run) (ap (λ s. c ∷ s) (take_run-value v rest p.1))

match_here-value : (p v rest : List ℕ) → IsPlain v → match_here p (p ++ (v ++ b',' ∷ rest)) ≡ some v
unfolding match_here
match_here-value p [] rest is = absurd (omega (arith, is.filled_in))
match_here-value p (c ∷ v) rest is =
    rw (strip_prefix-append p ((c ∷ v) ++ b',' ∷ rest), match_here)
      (ap filled (take_run-value (c ∷ v) rest is.plain))

pub search-hit :
    (p v rest : List ℕ) → 0 < length p → IsPlain v → search p (p ++ (v ++ b',' ∷ rest)) ≡ some v
unfolding search
search-hit [] v rest long is = absurd (omega arith)
search-hit (d ∷ p) v rest long is = rw (match_here-value (d ∷ p) v rest is, search) refl

digit-IsValueCode : (c : ℕ) → IsDigit c → IsValueCode c
digit-IsValueCode c h = (ground arith, ground arith)

str_int-IsPlain : (n : ℕ) → IsPlain (codes (str_int n))
str_int-IsPlain n = record {
  plain = All-imp IsDigit IsValueCode digit-IsValueCode (codes (str_int n)) (str_int-IsDigit n);
  filled_in = str_int-filled n;
}

-- The characters of a text, checked by evaluation.
values_checked :
    (v : List ℕ) → all_of (λ c. not (is_stop c) && not (c == b'=')) v ≡ true → All IsValueCode v
values_checked [] h = tt
values_checked (c ∷ v) h =
    let (here, later) = and-both (not (is_stop c) && not (c == b'=')) _ h in
    let (runs, differs) = and-both (not (is_stop c)) (not (c == b'=')) here in
    ((not-true (is_stop c) runs, not-true (c == b'=') differs), values_checked v later)

pub keys_checked : (k : List ℕ) → all_of (λ c. not (b',' == c)) k ≡ true → All IsKeyCode k
keys_checked [] h = tt
keys_checked (c ∷ k) h =
    let (here, later) = and-both (not (b',' == c)) _ h in
    (not-true (b',' == c) here, keys_checked k later)

pub literal-IsPlain :
    (v : List ℕ)
    → all_of (λ c. not (is_stop c) && not (c == b'=')) v ≡ true
    → 0 < length v
    → IsPlain v
literal-IsPlain v h long = record { plain = values_checked v h; filled_in = long }

severity_text-IsPlain : (s : Severity) → IsPlain (codes (severity_text s))
severity_text-IsPlain low = literal-IsPlain _ refl (omega arith)
severity_text-IsPlain medium = literal-IsPlain _ refl (omega arith)
severity_text-IsPlain high = literal-IsPlain _ refl (omega arith)

pub action_text-IsPlain : (a : Action) → IsPlain (codes (action_text a))
action_text-IsPlain replay_test = literal-IsPlain _ refl (omega arith)
action_text-IsPlain retrain = literal-IsPlain _ refl (omega arith)
action_text-IsPlain rollback = literal-IsPlain _ refl (omega arith)
action_text-IsPlain no_action = literal-IsPlain _ refl (omega arith)

pub severity_or-IsPlain :
    (o : Option Severity)
    → IsPlain (codes (elim o as (λ _. String) [ none ↦ "unknown" | some v ↦ severity_text v ]))
severity_or-IsPlain none = literal-IsPlain _ refl (omega arith)
severity_or-IsPlain (some v) = severity_text-IsPlain v

pub version_or-IsPlain :
    (o : Option ℕ)
    → IsPlain (codes (elim o as (λ _. String) [ none ↦ "unknown" | some v ↦ str_int v ]))
version_or-IsPlain none = literal-IsPlain _ refl (omega arith)
version_or-IsPlain (some v) = str_int-IsPlain v
