-- ===== src/Codegen/Sha256/Hex.antt =====
-- The suffix is seven lower-case hexadecimal digits.
use elixir_mcp_lib.Base.{
  ℕ, ◌≤◌, ◌<◌, ◌≡◌, ◌⊎◌, inl, inr, refl, arith, length, All, Text, Bool-cases, ltb, as_bytes, take,
}
use elixir_mcp_lib.Codegen.Sha256.{
  Words, be_bytes, digest, hex_digit, hex_byte, hex_string, hash_words, sha_suffix,
}

abbrev pub IsHexDigit : ℕ → Type 0
IsHexDigit c = (b'0' ≤ c) × (c ≤ b'9') ⊎ (b'a' ≤ c) × (c ≤ b'f')

hex_digit-IsHexDigit : (n : ℕ) → n < 16 → IsHexDigit (hex_digit n)
unfolding hex_digit
hex_digit-IsHexDigit n h = elim (Bool-cases (ltb n 10)) [
  | inl e ↦ inl (ground arith)
  | inr e ↦ inr (ground arith)
]

-- Seven digits of four bytes, whatever the working variables are.
digest_shape :
    (s : Words)
    → (length (take 7 (hex_string (take 4 (digest s)))) ≡ 7)
      × All IsHexDigit (take 7 (hex_string (take 4 (digest s))))
unfolding digest be_bytes hex_string hex_byte
digest_shape s =
    let d = λ (n : ℕ) (h : n < 16). hex_digit-IsHexDigit n h in
    (
      refl,
      (
        d _ (omega arith),
        (
          d _ (omega arith),
          (
            d _ (omega arith),
            (d _ (omega arith), (d _ (omega arith), (d _ (omega arith), (d _ (omega arith), tt)))),
          ),
        ),
      ),
    )

-- The suffix of every name has seven digits, each of 0-9 and a-f.
pub sha_suffix_shape : (s : Text) → (length (sha_suffix s) ≡ 7) × All IsHexDigit (sha_suffix s)
unfolding sha_suffix
sha_suffix_shape s = digest_shape (hash_words (as_bytes s))
