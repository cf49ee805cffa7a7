-- ===== src/Codegen/Sha256.antt =====
-- pg/pg_mcp/src/codegen/ident.rs: SHA-256, and the seven hex digits of it that the generator puts
-- behind a truncated or a colliding name. A `u32` is a number below `2 ^ 32`.
pub mod Padding
pub mod Hex
mod Tests
use Prim.Native.Nat.{bit_and, bit_or, bit_xor}
use mathlib.Core.List.{reverse}
use elixir_mcp_lib.Base.{
  ℕ, zero, suc, ◌+◌, ◌-◌, ◌*◌, ◌/◌, ◌%◌, ◌^◌, List, [], ◌∷◌, ◌++◌, ltb, if◌then◌else◌, Text, length,
  get_or, take, drop, replicate, as_bytes,
}

abbrev u32_mod : ℕ
u32_mod = 2 ^ 32

abbrev wrapping_add : ℕ → ℕ → ℕ
wrapping_add a b = (a + b) % u32_mod

abbrev rotate_right : ℕ → ℕ → ℕ
rotate_right x n = bit_or (x / 2 ^ n) (x * 2 ^ (32 - n) % u32_mod)

abbrev xor3 : ℕ → ℕ → ℕ → ℕ
xor3 a b c = bit_xor (bit_xor a b) c

-- `n.to_be_bytes()` for a number of `k` bytes
pub be_bytes : ℕ → ℕ → List ℕ
be_bytes zero n = []
be_bytes (suc k) n = be_bytes k (n / 256) ++ n % 256 ∷ []

-- `(message.len() + 9).div_ceil(64) * 64`
pub padded_len : ℕ → ℕ
padded_len n = (n + 9 + 63) / 64 * 64

-- The block: the message, 0x80, zeros, and the bit length in the last eight bytes.
pub pad : List ℕ → List ℕ
unfolding padded_len be_bytes
pad message =
    let bit_len = length message * 8 % 2 ^ 64 in
    let zeros = padded_len (length message) - 8 - (length message + 1) in
    message ++ (0x80 ∷ (replicate zeros 0 ++ be_bytes 8 bit_len))

abbrev round_constants : List ℕ
round_constants =
    0x428a2f98 ∷ 0x71374491 ∷ 0xb5c0fbcf ∷ 0xe9b5dba5 ∷ 0x3956c25b ∷ 0x59f111f1 ∷ 0x923f82a4
    ∷ 0xab1c5ed5 ∷ 0xd807aa98 ∷ 0x12835b01 ∷ 0x243185be ∷ 0x550c7dc3 ∷ 0x72be5d74 ∷ 0x80deb1fe
    ∷ 0x9bdc06a7 ∷ 0xc19bf174 ∷ 0xe49b69c1 ∷ 0xefbe4786 ∷ 0x0fc19dc6 ∷ 0x240ca1cc ∷ 0x2de92c6f
    ∷ 0x4a7484aa ∷ 0x5cb0a9dc ∷ 0x76f988da ∷ 0x983e5152 ∷ 0xa831c66d ∷ 0xb00327c8 ∷ 0xbf597fc7
    ∷ 0xc6e00bf3 ∷ 0xd5a79147 ∷ 0x06ca6351 ∷ 0x14292967 ∷ 0x27b70a85 ∷ 0x2e1b2138 ∷ 0x4d2c6dfc
    ∷ 0x53380d13 ∷ 0x650a7354 ∷ 0x766a0abb ∷ 0x81c2c92e ∷ 0x92722c85 ∷ 0xa2bfe8a1 ∷ 0xa81a664b
    ∷ 0xc24b8b70 ∷ 0xc76c51a3 ∷ 0xd192e819 ∷ 0xd6990624 ∷ 0xf40e3585 ∷ 0x106aa070 ∷ 0x19a4c116
    ∷ 0x1e376c08 ∷ 0x2748774c ∷ 0x34b0bcb5 ∷ 0x391c0cb3 ∷ 0x4ed8aa4a ∷ 0x5b9cca4f ∷ 0x682e6ff3
    ∷ 0x748f82ee ∷ 0x78a5636f ∷ 0x84c87814 ∷ 0x8cc70208 ∷ 0x90befffa ∷ 0xa4506ceb ∷ 0xbef9a3f7
    ∷ 0xc67178f2 ∷ []

-- The eight working variables; `h` of the source is a list of eight words, kept the same way.
pub record Words : Type 0 where
  pub a : ℕ
  pub b : ℕ
  pub c : ℕ
  pub d : ℕ
  pub e : ℕ
  pub f : ℕ
  pub g : ℕ
  pub h : ℕ

abbrev initial : Words
initial = record {
  a = 0x6a09e667;
  b = 0xbb67ae85;
  c = 0x3c6ef372;
  d = 0xa54ff53a;
  e = 0x510e527f;
  f = 0x9b05688c;
  g = 0x1f83d9ab;
  h = 0x5be0cd19;
}

-- `u32::from_be_bytes` of the first `n` groups of four bytes, the latest word first.
words : ℕ → List ℕ → List ℕ → List ℕ
words zero chunk out = out
words (suc n) chunk out =
    let word =
      get_or chunk 0 0 * 2 ^ 24
      + get_or chunk 1 0 * 2 ^ 16
      + get_or chunk 2 0 * 2 ^ 8
      + get_or chunk 3 0 in
    words n (drop 4 chunk) (word ∷ out)

-- `for i in 16..64`: `w` holds the latest word first, so `w[i - 15]` is entry 14.
extend : ℕ → List ℕ → List ℕ
extend zero w = w
extend (suc n) w =
    let x = get_or w 14 0 in
    let y = get_or w 1 0 in
    let s0 = xor3 (rotate_right x 7) (rotate_right x 18) (x / 2 ^ 3) in
    let s1 = xor3 (rotate_right y 17) (rotate_right y 19) (y / 2 ^ 10) in
    let next = wrapping_add (wrapping_add (wrapping_add (get_or w 15 0) s0) (get_or w 6 0)) s1 in
    extend n (next ∷ w)

-- one round of `for i in 0..64`
round : ℕ → ℕ → Words → Words
round k w s =
    let s1 = xor3 (rotate_right s.e 6) (rotate_right s.e 11) (rotate_right s.e 25) in
    let ch = bit_xor (bit_and s.e s.f) (bit_and (u32_mod - 1 - s.e) s.g) in
    let temp1 = wrapping_add (wrapping_add (wrapping_add (wrapping_add s.h s1) ch) k) w in
    let s0 = xor3 (rotate_right s.a 2) (rotate_right s.a 13) (rotate_right s.a 22) in
    let maj = xor3 (bit_and s.a s.b) (bit_and s.a s.c) (bit_and s.b s.c) in
    let temp2 = wrapping_add s0 maj in
    record {
      a = wrapping_add temp1 temp2;
      b = s.a;
      c = s.b;
      d = s.c;
      e = wrapping_add s.d temp1;
      f = s.e;
      g = s.f;
      h = s.g;
    }

rounds : List ℕ → List ℕ → Words → Words
unfolding round
rounds [] ws s = s
rounds (k ∷ ks) [] s = s
rounds (k ∷ ks) (w ∷ ws) s = rounds ks ws (round k w s)

-- the body of `for chunk in …`
compress : List ℕ → Words → Words
unfolding words extend rounds
compress chunk s =
    let t = rounds round_constants (reverse (extend 48 (words 16 chunk []))) s in
    record {
      a = wrapping_add s.a t.a;
      b = wrapping_add s.b t.b;
      c = wrapping_add s.c t.c;
      d = wrapping_add s.d t.d;
      e = wrapping_add s.e t.e;
      f = wrapping_add s.f t.f;
      g = wrapping_add s.g t.g;
      h = wrapping_add s.h t.h;
    }

-- `block.as_chunks::<64>()`, one chunk in a round
chunks : ℕ → List ℕ → Words → Words
unfolding compress
chunks zero block s = s
chunks (suc n) block s = chunks n (drop 64 block) (compress (take 64 block) s)

digest : Words → List ℕ
unfolding be_bytes
digest s =
    be_bytes 4 s.a
    ++ be_bytes 4 s.b
    ++ be_bytes 4 s.c
    ++ be_bytes 4 s.d
    ++ be_bytes 4 s.e
    ++ be_bytes 4 s.f
    ++ be_bytes 4 s.g
    ++ be_bytes 4 s.h

-- `h` after the last chunk
hash_words : List ℕ → Words
unfolding pad chunks
hash_words message = chunks (length (pad message) / 64) (pad message) initial

pub sha256 : List ℕ → List ℕ
unfolding hash_words digest
sha256 message = digest (hash_words message)

hex_digit : ℕ → ℕ
hex_digit n = if ltb n 10 then b'0' + n else b'a' + (n - 10)

-- `format!("{b:02x}")`
hex_byte : ℕ → Text
unfolding hex_digit
hex_byte b = hex_digit (b / 16) ∷ hex_digit (b % 16) ∷ []

-- `.map(…).collect::<String>()`
hex_string : List ℕ → Text
unfolding hex_byte
hex_string [] = []
hex_string (b ∷ bytes) = hex_byte b ++ hex_string bytes

pub sha256_hex7 : List ℕ → Text
unfolding sha256 hex_string
sha256_hex7 bytes = take 7 (hex_string (take 4 (sha256 bytes)))

unfoldable pub sha_suffix : Text → Text
unfolding sha256_hex7 as_bytes
sha_suffix original = sha256_hex7 (as_bytes original)
