-- ===== src/Import/Prefix.antt =====
-- What the check of the prefix accepts, and what it guarantees to the generator.
use elixir_mcp_lib.Base.{
  ℕ, ◌^◌, ◌<◌, ◌≡◌, ◌↔◌, refl, arith, Bool, true, ◌&&◌, some, List, [], ◌∷◌, ◌++◌, Text, as_bytes,
  utf8_char, is_ascii_digit, All, length, Bool-cases, inl, inr,
}
use elixir_mcp_lib.Errors.{ok}
use elixir_mcp_lib.Codegen.Ident.{dedup}
use elixir_mcp_lib.Codegen.Ident.Chars.{IsIdentChar, starts_with_digit}
use elixir_mcp_lib.Codegen.Ident.Bounds.{IsFragment, IsIdent}
use elixir_mcp_lib.Codegen.Ident.Dedup.{originals, sql_names, Distinct, dedup-Distinct}
use elixir_mcp_lib.Import.{is_fragment_byte, all_fragment_bytes, first_is_digit, validate_prefix}

all-append :
    (s t : List ℕ) → all_fragment_bytes (s ++ t) ≡ all_fragment_bytes s && all_fragment_bytes t
all-append [] t = refl
all-append (b ∷ s) t = ground (arith, all-append s t)

-- the bytes of a character are of the class exactly when the character is
all-utf8_char : (c : ℕ) → all_fragment_bytes (utf8_char c) ≡ is_fragment_byte c
all-utf8_char c = ground arith

first-utf8_char : (c : ℕ) (s : List ℕ) → first_is_digit (utf8_char c ++ s) ≡ is_ascii_digit c
first-utf8_char c s = ground arith

-- the class, character by character
abbrev all_chars : Text → Bool
all_chars [] = true
all_chars (c ∷ s) = is_fragment_byte c && all_chars s

all-as_bytes : (s : Text) → all_fragment_bytes (as_bytes s) ≡ all_chars s
unfolding as_bytes
all-as_bytes [] = refl
all-as_bytes (c ∷ s) =
    ground (arith, all-append (utf8_char c) (as_bytes s), all-utf8_char c, all-as_bytes s)

first-as_bytes : (s : Text) → first_is_digit (as_bytes s) ≡ starts_with_digit s
unfolding as_bytes
first-as_bytes [] = refl
first-as_bytes (c ∷ s) = first-utf8_char c (as_bytes s)

All-all_chars : (s : Text) → all_chars s ≡ true → All IsIdentChar s
All-all_chars [] h = tt
All-all_chars (c ∷ s) h = (ground (arith, h), All-all_chars s (ground (arith, h)))

all_chars-All : (s : Text) → All IsIdentChar s → all_chars s ≡ true
all_chars-All [] h = refl
all_chars-All (c ∷ s) (p, h) = ground (arith, p, all_chars-All s h)

accepted_sound : (raw p : Text) → validate_prefix raw ≡ ok p → (p ≡ raw) × IsFragment raw
unfolding validate_prefix
accepted_sound raw p h = elim (Bool-cases (all_chars raw)) [
  | inl a ↦ elim (Bool-cases (starts_with_digit raw)) [
    | inl d ↦ absurd (ground (arith, h, all-as_bytes raw, first-as_bytes raw))
    | inr d ↦ (
      ground (arith, h, all-as_bytes raw, first-as_bytes raw),
      record { chars = All-all_chars raw a; head = d },
    )
  ]
  | inr a ↦ absurd (ground (arith, h, all-as_bytes raw, first-as_bytes raw))
]

accepted_complete : (raw p : Text) → p ≡ raw → IsFragment raw → validate_prefix raw ≡ ok p
unfolding validate_prefix
accepted_complete raw p same f =
    ground (arith, all-as_bytes raw, first-as_bytes raw, all_chars-All raw f.chars, f.head, same)

-- The check accepts a prefix, as it is, exactly when it holds nothing but `[a-z0-9_]` and does not
-- start with a digit.
pub validate_prefix_iff :
    (raw p : Text) → (validate_prefix raw ≡ ok p) ↔ ((p ≡ raw) × IsFragment raw)
unfolding validate_prefix
validate_prefix_iff raw p = (accepted_sound raw p, λ (same, f). accepted_complete raw p same f)

-- Under a prefix that the check accepts, `dedup` gives every name an identifier of its own, on every
-- list of fewer than 2^64 names.
pub validated-dedup :
    (to_lowercase : Text → Text) (names : List Text) (raw p : Text)
    → validate_prefix raw ≡ ok p
    → length names < 2 ^ 64
    → (out : List (Text × Text)) × (dedup to_lowercase names p ≡ some out)
      × (originals out ≡ names)
      × All IsIdent (sql_names out)
      × Distinct (sql_names out)
validated-dedup to_lowercase names raw p accepted small =
    let (same, f) = (validate_prefix_iff raw p).0 accepted in
    dedup-Distinct to_lowercase names p (rw same f) small
