-- ===== src/Tables/ReadThrough/Base64.antt =====
-- pg/pg_mcp/src/tables/readthrough.rs: the base64 decoder of `blob` contents.
use elixir_mcp_lib.Base.{
  ℕ, ◌+◌, ◌-◌, ◌*◌, ◌/◌, ◌%◌, ◌^◌, Bool, ◌||◌, Option, none, some, List, [], ◌∷◌, if◌then◌else◌,
  ◌==◌, Text, as_bytes, is_ascii_lowercase, is_ascii_uppercase, is_ascii_digit, ◌>>=◌,
}

unfoldable pub value_of_byte : ℕ → Option ℕ
value_of_byte byte =
    if is_ascii_uppercase byte
    then some (byte - b'A')
    else if is_ascii_lowercase byte
    then some (byte - b'a' + 26)
    else if is_ascii_digit byte
    then some (byte - b'0' + 52)
    else if byte == b'+'
    then some 62
    else if byte == b'/'
    then some 63
    else none

-- `b" \t\r\n".contains(b)`
abbrev pub is_blank_byte : ℕ → Bool
is_blank_byte b = (b == 32) || (b == 9) || (b == 13) || (b == 10)

-- the bytes up to the padding, without white space
unfoldable pub stripped : List ℕ → List ℕ
stripped [] = []
stripped (b ∷ bs) =
    let rest = stripped bs in if is_blank_byte b then rest else if b == b'=' then [] else b ∷ rest

-- `chunks(4)`, each decoded. `acc |= v << s` fills bits that are 0 and is written as a sum.
unfoldable pub decode_chunks : List ℕ → Option (List ℕ)
unfolding value_of_byte
decode_chunks [] = some []
decode_chunks (a ∷ []) = none
decode_chunks (a ∷ b ∷ []) = do
  v ← value_of_byte a
  w ← value_of_byte b
  let acc = v * 2 ^ 18 + w * 2 ^ 12
  some ((acc / 2 ^ 16 % 256) ∷ [])
decode_chunks (a ∷ b ∷ c ∷ []) = do
  v ← value_of_byte a
  w ← value_of_byte b
  x ← value_of_byte c
  let acc = v * 2 ^ 18 + w * 2 ^ 12 + x * 2 ^ 6
  some ((acc / 2 ^ 16 % 256) ∷ (acc / 2 ^ 8 % 256) ∷ [])
decode_chunks (a ∷ b ∷ c ∷ d ∷ rest) = do
  v ← value_of_byte a
  w ← value_of_byte b
  x ← value_of_byte c
  y ← value_of_byte d
  out ← decode_chunks rest
  let acc = v * 2 ^ 18 + w * 2 ^ 12 + x * 2 ^ 6 + y
  some ((acc / 2 ^ 16 % 256) ∷ (acc / 2 ^ 8 % 256) ∷ (acc % 256) ∷ out)

unfoldable pub base64_decode : Text → Option (List ℕ)
unfolding stripped decode_chunks
base64_decode input = decode_chunks (stripped (as_bytes input))
