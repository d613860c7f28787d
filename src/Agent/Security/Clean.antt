-- ===== src/Agent/Security/Clean.antt =====
-- backend/src/agent/security.py: the characters of a sanitized text, and texts that sanitizing keeps.
use Prim.Native.Char.{Char, code}
use Prim.Native.String.{count}
use Prim.Native.String.count
use drift_triage_co_pilot.Prelude.{
  ℕ, zero, suc, ◌≤◌, ◌≡◌, refl, ap, Bool, true, false, String, nat_eq, arith, Bool-cases, inl, inr,
}
use drift_triage_co_pilot.Agent.Security.{
  is_control, is_blank, is_space, strip_control, collapse_from, collapse_blanks, strip_left,
  strip_right, join_right, prefix, sanitize,
}

abbrev pub AllChars : (ℕ → Type 0) → String → Type 0
AllChars P String.[] = Unit
AllChars P (String.◌∷◌ c s) = P (code c) × AllChars P s

-- Every blank is a space, and none follows another; `after_blank` says what stands in front.
abbrev pub IsCollapsed : Bool → String → Type 0
IsCollapsed after_blank String.[] = Unit
IsCollapsed after_blank (String.◌∷◌ c s) =
    (is_blank (code c) ≡ true → (code c ≡ 0x20) × (after_blank ≡ false))
    × IsCollapsed (is_blank (code c)) s

-- The first character, if there is one, is no whitespace.
abbrev pub StartsClean : String → Type 0
StartsClean String.[] = Unit
StartsClean (String.◌∷◌ c s) = is_space (code c) ≡ false

abbrev NotControl : ℕ → Type 0
NotControl c = is_control c ≡ false

strip_control-AllChars : (s : String) → AllChars NotControl (strip_control s)
unfolding strip_control
strip_control-AllChars String.[] = tt
strip_control-AllChars (String.◌∷◌ c s) = elim (Bool-cases (is_control (code c))) [
  | inl control ↦ rw control (strip_control-AllChars s)
  | inr plain ↦ rw plain (plain, strip_control-AllChars s)
]

collapse_from-AllChars :
    (b : Bool) (s : String) → AllChars NotControl s → AllChars NotControl (collapse_from b s)
unfolding collapse_from
collapse_from-AllChars b String.[] h = tt
collapse_from-AllChars b (String.◌∷◌ c s) h = elim (Bool-cases (is_blank (code c))) [
  | inl blank ↦ rw blank (elim (Bool-cases b) [
    | inl again ↦ rw again (collapse_from-AllChars true s h.1)
    | inr first ↦ rw first (refl, collapse_from-AllChars true s h.1)
  ])
  | inr other ↦ rw other (h.0, collapse_from-AllChars false s h.1)
]

collapse_from-IsCollapsed : (b : Bool) (s : String) → IsCollapsed b (collapse_from b s)
unfolding collapse_from
collapse_from-IsCollapsed b String.[] = tt
collapse_from-IsCollapsed b (String.◌∷◌ c s) = elim (Bool-cases (is_blank (code c))) [
  | inl blank ↦ rw blank (elim (Bool-cases b) [
    | inl again ↦ rw again (collapse_from-IsCollapsed true s)
    | inr first ↦ rw first ((λ _. (refl, refl)), collapse_from-IsCollapsed true s)
  ])
  | inr other ↦ rw other ((λ h. cc), rw other (collapse_from-IsCollapsed false s))
]

-- What stands in front of a text may be forgotten.
IsCollapsed-false : (b : Bool) (s : String) → IsCollapsed b s → IsCollapsed false s
IsCollapsed-false b String.[] h = tt
IsCollapsed-false b (String.◌∷◌ c s) h = ((λ e. ((h.0 e).0, refl)), h.1)

module _ (P : ℕ → Type 0) where
  strip_left-AllChars : (s : String) → AllChars P s → AllChars P (strip_left s)
  unfolding strip_left
  strip_left-AllChars String.[] h = tt
  strip_left-AllChars (String.◌∷◌ c s) h = elim (Bool-cases (is_space (code c))) [
    | inl space ↦ rw space (strip_left-AllChars s h.1)
    | inr other ↦ rw other h
  ]

  join_right-AllChars :
      (c : Char) (s : String) → P (code c) → AllChars P s → AllChars P (join_right c s)
  join_right-AllChars c String.[] p h = elim (Bool-cases (is_space (code c))) [
    | inl space ↦ rw space tt
    | inr other ↦ rw other (p, tt)
  ]
  join_right-AllChars c (String.◌∷◌ d s) p h = (p, h)

  strip_right-AllChars : (s : String) → AllChars P s → AllChars P (strip_right s)
  unfolding strip_right
  strip_right-AllChars String.[] h = tt
  strip_right-AllChars (String.◌∷◌ c s) h =
      join_right-AllChars c (strip_right s) h.0 (strip_right-AllChars s h.1)

  prefix-AllChars : (n : ℕ) (s : String) → AllChars P s → AllChars P (prefix n s)
  unfolding prefix
  prefix-AllChars zero s h = tt
  prefix-AllChars (suc n) String.[] h = tt
  prefix-AllChars (suc n) (String.◌∷◌ c s) h = (h.0, prefix-AllChars n s h.1)

strip_left-IsCollapsed :
    (b : Bool) (s : String) → IsCollapsed b s → IsCollapsed false (strip_left s)
unfolding strip_left
strip_left-IsCollapsed b String.[] h = tt
strip_left-IsCollapsed b (String.◌∷◌ c s) h = elim (Bool-cases (is_space (code c))) [
  | inl space ↦ rw space (strip_left-IsCollapsed (is_blank (code c)) s h.1)
  | inr other ↦ rw other (IsCollapsed-false b (String.◌∷◌ c s) h)
]

strip_left-StartsClean : (s : String) → StartsClean (strip_left s)
unfolding strip_left
strip_left-StartsClean String.[] = tt
strip_left-StartsClean (String.◌∷◌ c s) = elim (Bool-cases (is_space (code c))) [
  | inl space ↦ rw space (strip_left-StartsClean s)
  | inr other ↦ rw other other
]

join_right-IsCollapsed :
    (b : Bool) (c : Char) (s t : String)
    → IsCollapsed b (String.◌∷◌ c t)
    → IsCollapsed (is_blank (code c)) s
    → IsCollapsed b (join_right c s)
join_right-IsCollapsed b c String.[] t h k = elim (Bool-cases (is_space (code c))) [
  | inl space ↦ rw space tt
  | inr other ↦ rw other (h.0, tt)
]
join_right-IsCollapsed b c (String.◌∷◌ d s) t h k = (h.0, k)

strip_right-IsCollapsed : (b : Bool) (s : String) → IsCollapsed b s → IsCollapsed b (strip_right s)
unfolding strip_right
strip_right-IsCollapsed b String.[] h = tt
strip_right-IsCollapsed b (String.◌∷◌ c s) h =
    join_right-IsCollapsed b c (strip_right s) s h
      (strip_right-IsCollapsed (is_blank (code c)) s h.1)

strip_right-StartsClean : (s : String) → StartsClean s → StartsClean (strip_right s)
unfolding strip_right
strip_right-StartsClean String.[] h = tt
strip_right-StartsClean (String.◌∷◌ c s) h = clean (strip_right s)
  where
    clean : (t : String) → StartsClean (join_right c t)
    clean String.[] = rw h h
    clean (String.◌∷◌ d t) = h

prefix-IsCollapsed : (n : ℕ) (b : Bool) (s : String) → IsCollapsed b s → IsCollapsed b (prefix n s)
unfolding prefix
prefix-IsCollapsed zero b s h = tt
prefix-IsCollapsed (suc n) b String.[] h = tt
prefix-IsCollapsed (suc n) b (String.◌∷◌ c s) h =
    (h.0, prefix-IsCollapsed n (is_blank (code c)) s h.1)

prefix-StartsClean : (n : ℕ) (s : String) → StartsClean s → StartsClean (prefix n s)
unfolding prefix
prefix-StartsClean zero s h = tt
prefix-StartsClean (suc n) String.[] h = tt
prefix-StartsClean (suc n) (String.◌∷◌ c s) h = h

count-prefix-le : (n : ℕ) (s : String) → count (prefix n s) ≤ n
unfolding prefix
count-prefix-le zero s = omega arith
count-prefix-le (suc n) String.[] = omega arith
count-prefix-le (suc n) (String.◌∷◌ c s) =
    omega (arith, count-prefix-le n s, count.cons c (prefix n s))

-- Whatever the text, the sanitized one has at most `max_len` characters and no control character;
-- every blank in it is a single space, and it does not start with whitespace.
pub sanitize_clean :
    (nfkc : String → String) (max_len : ℕ) (text : String)
    → let out = sanitize nfkc max_len text in
      (count out ≤ max_len)
      × AllChars (λ c. is_control c ≡ false) out
      × IsCollapsed false out
      × StartsClean out
unfolding sanitize collapse_blanks
sanitize_clean nfkc max_len text =
    let plain = strip_control (nfkc text) in
    let collapsed = collapse_from false plain in
    let left = strip_left collapsed in
    (
      count-prefix-le max_len _,
      prefix-AllChars NotControl max_len _ (
          strip_right-AllChars NotControl left (
            strip_left-AllChars NotControl collapsed
              (collapse_from-AllChars false plain (strip_control-AllChars (nfkc text))))),
      prefix-IsCollapsed max_len false _ (
          strip_right-IsCollapsed false left
            (strip_left-IsCollapsed false collapsed (collapse_from-IsCollapsed false plain))),
      prefix-StartsClean max_len _
          (strip_right-StartsClean left (strip_left-StartsClean collapsed)),
    )

-- A text of printable characters, with no whitespace.
abbrev pub IsPlain : ℕ → Type 0
IsPlain c = (is_control c ≡ false) × (is_space c ≡ false)

blank_is_space : (c : ℕ) → is_space c ≡ false → is_blank c ≡ false
blank_is_space c h = ground arith

strip_control_plain : (s : String) → AllChars IsPlain s → strip_control s ≡ s
unfolding strip_control
strip_control_plain String.[] h = refl
strip_control_plain (String.◌∷◌ c s) h = rw (h.0.0, strip_control_plain s h.1) refl

collapse_from_plain : (b : Bool) (s : String) → AllChars IsPlain s → collapse_from b s ≡ s
unfolding collapse_from
collapse_from_plain b String.[] h = refl
collapse_from_plain b (String.◌∷◌ c s) h =
    rw (blank_is_space (code c) h.0.1, collapse_from_plain false s h.1) refl

strip_left_plain : (s : String) → AllChars IsPlain s → strip_left s ≡ s
unfolding strip_left
strip_left_plain String.[] h = refl
strip_left_plain (String.◌∷◌ c s) h = rw h.0.1 refl

join_right_plain :
    (c : Char) (s : String) → is_space (code c) ≡ false → join_right c s ≡ String.◌∷◌ c s
join_right_plain c String.[] h = rw h refl
join_right_plain c (String.◌∷◌ d s) h = refl

strip_right_plain : (s : String) → AllChars IsPlain s → strip_right s ≡ s
unfolding strip_right
strip_right_plain String.[] h = refl
strip_right_plain (String.◌∷◌ c s) h = rw (strip_right_plain s h.1) (join_right_plain c s h.0.1)

prefix_all : (n : ℕ) (s : String) → count s ≤ n → prefix n s ≡ s
unfolding prefix
prefix_all zero String.[] h = refl
prefix_all zero (String.◌∷◌ c s) h = absurd (omega (arith, count.cons c s))
prefix_all (suc n) String.[] h = refl
prefix_all (suc n) (String.◌∷◌ c s) h =
    ap (λ t. String.◌∷◌ c t) (prefix_all n s (omega (arith, count.cons c s)))

-- A text of printable characters without whitespace, in normal form and not too long, is kept as it is:
-- no character of it is escaped, so a closing tag within it stays.
pub sanitize_plain :
    (nfkc : String → String) (max_len : ℕ) (text : String)
    → nfkc text ≡ text
    → AllChars IsPlain text
    → count text ≤ max_len
    → sanitize nfkc max_len text ≡ text
unfolding sanitize collapse_blanks
sanitize_plain nfkc max_len text normal plain short =
    rw
      (
        normal,
        strip_control_plain text plain,
        collapse_from_plain false text plain,
        strip_left_plain text plain,
        strip_right_plain text plain,
      )
      (prefix_all max_len text short)
