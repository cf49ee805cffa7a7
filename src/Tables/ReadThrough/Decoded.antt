-- ===== src/Tables/ReadThrough/Decoded.antt =====
-- The base64 decoder reads back what an encoder of RFC 4648 writes.
use mathlib.Core.Path.{ap₂}
use elixir_mcp_lib.Base.{
  ℕ, ◌+◌, ◌-◌, ◌*◌, ◌/◌, ◌%◌, ◌^◌, ◌≡◌, ◌<◌, refl, ap, ◌∙◌, arith, not, Option, some, List, [], ◌∷◌,
  if◌then◌else◌, ltb, ◌==◌, Text, as_bytes, All, IsAscii, Bool-cases, inl, inr,
}
use elixir_mcp_lib.Tables.Catalog.Filters.{filter}
use elixir_mcp_lib.Tables.ReadThrough.Base64.{
  value_of_byte, is_blank_byte, stripped, decode_chunks, base64_decode,
}

-- the character of a value below 64
abbrev digit : ℕ → ℕ
digit s =
    if ltb s 26
    then b'A' + s
    else if ltb s 52
    then b'a' + (s - 26)
    else if ltb s 62
    then b'0' + (s - 52)
    else if s == 62
    then b'+'
    else b'/'

-- RFC 4648: four characters for three bytes, the last group filled up with `=`
abbrev pub base64_encode : List ℕ → Text
base64_encode [] = []
base64_encode (x ∷ []) = digit (x / 4) ∷ digit (x % 4 * 16) ∷ b'=' ∷ b'=' ∷ []
base64_encode (x ∷ y ∷ []) =
    digit (x / 4) ∷ digit (x % 4 * 16 + y / 16) ∷ digit (y % 16 * 4) ∷ b'=' ∷ []
base64_encode (x ∷ y ∷ z ∷ rest) =
    digit (x / 4)
    ∷ digit (x % 4 * 16 + y / 16)
    ∷ digit (y % 16 * 4 + z / 64)
    ∷ digit (z % 64)
    ∷ base64_encode rest

abbrev pub IsByte : ℕ → Type 0
IsByte b = b < 256

-- the characters that are no white space
abbrev pub visible : Text → Text
visible s = filter (λ c. not (is_blank_byte c)) s

value_of_byte-digit : (s : ℕ) → s < 64 → value_of_byte (digit s) ≡ some s
unfolding value_of_byte
value_of_byte-digit s h = ground arith

stripped-digit :
    (s : ℕ) (rest : Text) → s < 64 → stripped (digit s ∷ rest) ≡ digit s ∷ stripped rest
unfolding stripped
stripped-digit s rest h = ground arith

digit-IsAscii : (s : ℕ) → s < 64 → IsAscii (digit s)
digit-IsAscii s h = ground arith

-- a group of four characters, in front of the rest
decode_chunks-four :
    (a b c d : ℕ) (rest : Text) (out : List ℕ)
    → a < 64
    → b < 64
    → c < 64
    → d < 64
    → decode_chunks rest ≡ some out
    → decode_chunks (digit a ∷ digit b ∷ digit c ∷ digit d ∷ rest)
      ≡ some (
          ((a * 2 ^ 18 + b * 2 ^ 12 + c * 2 ^ 6 + d) / 2 ^ 16 % 256)
          ∷ ((a * 2 ^ 18 + b * 2 ^ 12 + c * 2 ^ 6 + d) / 2 ^ 8 % 256)
          ∷ ((a * 2 ^ 18 + b * 2 ^ 12 + c * 2 ^ 6 + d) % 256)
          ∷ out)
unfolding decode_chunks
decode_chunks-four a b c d rest out ha hb hc hd h =
    rw
      (
        value_of_byte-digit a ha,
        value_of_byte-digit b hb,
        value_of_byte-digit c hc,
        value_of_byte-digit d hd,
        h,
      )
      refl

three_bytes :
    (x y z : ℕ) (rest : List ℕ)
    → x < 256
    → y < 256
    → z < 256
    → ◌≡◌ {A = Option (List ℕ)}
        (some (
          ((x / 4 * 2 ^ 18
              + (x % 4 * 16 + y / 16) * 2 ^ 12
              + (y % 16 * 4 + z / 64) * 2 ^ 6
              + z % 64)
            / 2 ^ 16
            % 256)
          ∷ ((x / 4 * 2 ^ 18
                + (x % 4 * 16 + y / 16) * 2 ^ 12
                + (y % 16 * 4 + z / 64) * 2 ^ 6
                + z % 64)
              / 2 ^ 8
              % 256)
          ∷ ((x / 4 * 2 ^ 18
                + (x % 4 * 16 + y / 16) * 2 ^ 12
                + (y % 16 * 4 + z / 64) * 2 ^ 6
                + z % 64)
              % 256)
          ∷ rest))
        (some (x ∷ y ∷ z ∷ rest))
three_bytes x y z rest hx hy hz = ground arith

stripped-pad : (rest : Text) → stripped (b'=' ∷ rest) ≡ []
unfolding stripped
stripped-pad rest = refl

decoded :
    (bytes : List ℕ)
    → All IsByte bytes
    → decode_chunks (stripped (base64_encode bytes)) ≡ some bytes
unfolding decode_chunks
decoded [] h = unfold stripped in refl
decoded (x ∷ []) (hx, h) =
    rw
      (
        stripped-digit (x / 4) _ (omega arith),
        stripped-digit (x % 4 * 16) _ (omega arith),
        stripped-pad,
        value_of_byte-digit (x / 4) (omega arith),
        value_of_byte-digit (x % 4 * 16) (omega arith),
      )
      (ap (λ b. some (b ∷ [])) (omega arith))
decoded (x ∷ y ∷ []) (hx, (hy, h)) =
    rw
      (
        stripped-digit (x / 4) _ (omega arith),
        stripped-digit (x % 4 * 16 + y / 16) _ (omega arith),
        stripped-digit (y % 16 * 4) _ (omega arith),
        stripped-pad,
        value_of_byte-digit (x / 4) (omega arith),
        value_of_byte-digit (x % 4 * 16 + y / 16) (omega arith),
        value_of_byte-digit (y % 16 * 4) (omega arith),
      )
      (ap₂ (λ b c. some (b ∷ c ∷ [])) (omega arith) (omega arith))
decoded (x ∷ y ∷ z ∷ rest) (hx, (hy, (hz, h))) =
    rw
      (
        stripped-digit (x / 4) _ (omega arith),
        stripped-digit (x % 4 * 16 + y / 16) _ (omega arith),
        stripped-digit (y % 16 * 4 + z / 64) _ (omega arith),
        stripped-digit (z % 64) _ (omega arith),
      )
      (decode_chunks-four (x / 4) (x % 4 * 16 + y / 16) (y % 16 * 4 + z / 64) (z % 64)
          (stripped (base64_encode rest)) rest (omega arith) (omega arith) (omega arith)
          (omega arith) (decoded rest h)
        ∙ three_bytes x y z rest hx hy hz)

-- What the decoder sees of a text is its visible characters.
stripped-visible : (s : Text) → stripped s ≡ stripped (visible s)
unfolding stripped
stripped-visible [] = refl
stripped-visible (c ∷ s) = elim (Bool-cases (is_blank_byte c)) [
  | inl blank ↦ rw blank (stripped-visible s)
  | inr shown ↦ rw (shown, shown) (ap (λ r. if c == b'=' then [] else c ∷ r) (stripped-visible s))
]

All-base64_encode : (bytes : List ℕ) → All IsByte bytes → All IsAscii (base64_encode bytes)
All-base64_encode [] h = tt
All-base64_encode (x ∷ []) (hx, h) = (
  digit-IsAscii (x / 4) (omega arith),
  (digit-IsAscii (x % 4 * 16) (omega arith), (omega arith, (omega arith, tt))),
)
All-base64_encode (x ∷ y ∷ []) (hx, (hy, h)) = (
  digit-IsAscii (x / 4) (omega arith),
  (
    digit-IsAscii (x % 4 * 16 + y / 16) (omega arith),
    (digit-IsAscii (y % 16 * 4) (omega arith), (omega arith, tt)),
  ),
)
All-base64_encode (x ∷ y ∷ z ∷ rest) (hx, (hy, (hz, h))) = (
  digit-IsAscii (x / 4) (omega arith),
  (
    digit-IsAscii (x % 4 * 16 + y / 16) (omega arith),
    (
      digit-IsAscii (y % 16 * 4 + z / 64) (omega arith),
      (digit-IsAscii (z % 64) (omega arith), All-base64_encode rest h),
    ),
  ),
)

All-visible : (s : Text) → All IsAscii (visible s) → All IsAscii s
All-visible [] h = tt
All-visible (c ∷ s) h = elim (Bool-cases (is_blank_byte c)) [
  | inl blank ↦ (ground arith, All-visible s (rw blank at h))
  | inr shown ↦ let shown_all = rw shown at h in (shown_all.0, All-visible s shown_all.1)
]

as_bytes-ascii : (s : Text) → All IsAscii s → as_bytes s ≡ s
unfolding as_bytes
as_bytes-ascii [] h = refl
as_bytes-ascii (c ∷ s) (hc, h) = ground (arith, as_bytes-ascii s h)

-- A text whose characters other than spaces, tabs and line breaks are the base64 form of a list of
-- bytes, padding included, is decoded to those bytes.
pub base64_decode-encode :
    (bytes : List ℕ) (s : Text)
    → All IsByte bytes
    → visible s ≡ base64_encode bytes
    → base64_decode s ≡ some bytes
unfolding base64_decode
base64_decode-encode bytes s h shown =
    let ascii = All-visible s (rw shown (All-base64_encode bytes h)) in
    ap (λ t. decode_chunks (stripped t)) (as_bytes-ascii s ascii)
    ∙ ap decode_chunks (stripped-visible s)
    ∙ ap (λ t. decode_chunks (stripped t)) shown
    ∙ decoded bytes h
