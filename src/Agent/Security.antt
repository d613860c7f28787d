-- ===== src/Agent/Security.antt =====
-- backend/src/agent/security.py. `nfkc` stands for `unicodedata.normalize("NFKC", ·)`, whose tables are
-- a parameter. The search for injection patterns only logs, and is left out.
pub mod Clean
use Prim.Native.Char.{Char, code}
use Prim.Native.String.count
use drift_triage_co_pilot.Prelude.{
  ℕ, zero, suc, Bool, true, false, not, ◌&&◌, ◌||◌, String, ◌&◌, ◌==◌, nat_eq, leb, if◌then◌else◌,
}

-- `[\x00-\x08\x0b\x0c\x0e-\x1f\x7f]`
abbrev pub is_control : ℕ → Bool
is_control c = leb c 0x08 || (c == 0x0b || (c == 0x0c || ((leb 0x0e c && leb c 0x1f) || c == 0x7f)))

-- `[ \t]`
abbrev pub is_blank : ℕ → Bool
is_blank c = c == 0x20 || c == 0x09

-- The whitespace of Python's `str.strip`.
abbrev pub is_space : ℕ → Bool
is_space c =
    (leb 0x09 c && leb c 0x0d)
    || ((leb 0x1c c && leb c 0x20)
        || (c == 0x85
            || (c == 0xa0
                || (c == 0x1680
                    || ((leb 0x2000 c && leb c 0x200a)
                        || (c == 0x2028
                            || (c == 0x2029 || (c == 0x202f || (c == 0x205f || c == 0x3000)))))))))

-- `re.sub(r"[...]", "", text)`
unfoldable pub strip_control : String → String
strip_control String.[] = String.[]
strip_control (String.◌∷◌ c s) =
    let rest = strip_control s in if is_control (code c) then rest else String.◌∷◌ c rest

-- `re.sub(r"[ \t]+", " ", text)`: `after_blank` says that the run has already given its blank.
collapse_from : Bool → String → String
collapse_from after_blank String.[] = String.[]
collapse_from after_blank (String.◌∷◌ c s) =
    let rest = collapse_from (is_blank (code c)) s in
    if is_blank (code c)
    then (if after_blank then rest else String.◌∷◌ " " rest)
    else String.◌∷◌ c rest

unfoldable pub collapse_blanks : String → String
unfolding collapse_from
collapse_blanks s = collapse_from false s

-- `text.lstrip()`, `text.rstrip()` and `text.strip()`
unfoldable pub strip_left : String → String
strip_left String.[] = String.[]
strip_left (String.◌∷◌ c s) =
    let rest = strip_left s in if is_space (code c) then rest else String.◌∷◌ c s

abbrev join_right : Char → String → String
join_right c String.[] = if is_space (code c) then String.[] else String.◌∷◌ c String.[]
join_right c (String.◌∷◌ d s) = String.◌∷◌ c (String.◌∷◌ d s)

unfoldable pub strip_right : String → String
strip_right String.[] = String.[]
strip_right (String.◌∷◌ c s) = join_right c (strip_right s)

-- `text[:n]`
unfoldable pub prefix : ℕ → String → String
prefix zero s = String.[]
prefix (suc n) String.[] = String.[]
prefix (suc n) (String.◌∷◌ c s) = String.◌∷◌ c (prefix n s)

-- `_MAX_EXTERNAL_LEN`
abbrev pub max_external_len : ℕ
max_external_len = 4096

unfoldable pub sanitize : (nfkc : String → String) → ℕ → String → String
unfolding strip_control collapse_blanks strip_left strip_right prefix
sanitize nfkc max_len text =
    prefix max_len (strip_right (strip_left (collapse_blanks (strip_control (nfkc text)))))

unfoldable pub sanitize_query : (nfkc : String → String) → String → String
unfolding sanitize
sanitize_query nfkc text = sanitize nfkc max_external_len text

unfoldable pub sanitize_feature_string : (nfkc : String → String) → String → String
unfolding sanitize
sanitize_feature_string nfkc text = sanitize nfkc 512 text

-- `f"<external_data>\n{...}\n</external_data>"`
unfoldable pub delimit_external : (nfkc : String → String) → String → String
unfolding sanitize_query
delimit_external nfkc text = "<external_data>\n" & sanitize_query nfkc text & "\n</external_data>"
