-- ===== src/Frontend/Field.antt =====
-- frontend/app.py, `extract_field`: a field is read from the summary of an investigation. Texts are their code points.
pub mod Search
pub mod RoundTrip
use mathlib.Core.Option
use drift_triage_co_pilot.Prelude.{
  ℕ, Bool, true, false, ◌||◌, String, truthy, codes, ◌==◌, nat_eq, Option, none, some, List, [],
  ◌∷◌, ◌++◌, if◌then◌else◌,
}
use drift_triage_co_pilot.Agent.Security.{is_space}

-- The characters that `[^,\.\s]` excludes.
abbrev pub is_stop : ℕ → Bool
is_stop c = c == b',' || (c == b'.' || is_space c)

-- What follows the prefix `p` of `s`.
unfoldable pub strip_prefix : List ℕ → List ℕ → Option (List ℕ)
strip_prefix [] s = some s
strip_prefix (p ∷ ps) [] = none
strip_prefix (p ∷ ps) (c ∷ s) =
    let rest = strip_prefix ps s in elim (c == p) [ true ↦ rest | false ↦ none ]

-- The longest run of other characters at the front.
unfoldable pub take_run : List ℕ → List ℕ
take_run [] = []
take_run (c ∷ s) = let rest = take_run s in elim (is_stop c) [ true ↦ [] | false ↦ c ∷ rest ]

abbrev pub filled : List ℕ → Option (List ℕ)
filled [] = none
filled (c ∷ s) = some (c ∷ s)

-- The group of `p([^,\.\s]+)` at the front.
unfoldable pub match_here : List ℕ → List ℕ → Option (List ℕ)
unfolding strip_prefix take_run
match_here p s = elim (strip_prefix p s) [ none ↦ none | some rest ↦ filled (take_run rest) ]

-- `re.search`: the group at the first place where it matches.
unfoldable pub search : List ℕ → List ℕ → Option (List ℕ)
unfolding match_here
search p [] = none
search p (c ∷ s) =
    let later = search p s in elim (match_here p (c ∷ s)) [ none ↦ later | some found ↦ some found ]

abbrev pub pattern_of : String → List ℕ
pattern_of name = codes name ++ b'=' ∷ []

unfoldable pub extract_field : Option String → String → List ℕ
unfolding search
extract_field none name = codes "Not available"
extract_field (some summary) name =
    if truthy summary
    then Option.get_or (search (pattern_of name) (codes summary)) (codes "Not available")
    else codes "Not available"
