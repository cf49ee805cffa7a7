-- ===== src/Codegen/Sha256/Padding.antt =====
-- The padded block: whole chunks of 64 bytes that begin with the message.
use elixir_mcp_lib.Base.{
  ℕ, zero, suc, ◌+◌, ◌-◌, ◌*◌, ◌/◌, ◌%◌, ◌^◌, ◌≤◌, ◌<◌, ◌≡◌, refl, arith, List, [], ◌∷◌, ◌++◌,
  length, length-append, length-replicate, replicate,
}
use elixir_mcp_lib.Codegen.Sha256.{be_bytes, padded_len, pad}

pub length-be_bytes : (k n : ℕ) → length (be_bytes k n) ≡ k
unfolding be_bytes
length-be_bytes zero n = refl
length-be_bytes (suc k) n =
    omega (arith, length-append (be_bytes k (n / 256)) (n % 256 ∷ []), length-be_bytes k (n / 256))

-- the block of a message of `n` bytes has room for the 0x80 and the bit length
padded_len_bounds : (n : ℕ) → (n + 9 ≤ padded_len n) × (padded_len n < n + 73)
unfolding padded_len
padded_len_bounds n = omega arith

length-pad_exact : (m : List ℕ) → length (pad m) ≡ padded_len (length m)
unfolding pad
length-pad_exact m =
    let zeros : List ℕ = replicate (padded_len (length m) - 8 - (length m + 1)) 0 in
    let bits : List ℕ = be_bytes 8 (length m * 8 % 2 ^ 64) in
    omega (
      arith,
      length-append m (0x80 ∷ (zeros ++ bits)),
      length-append zeros bits,
      length-replicate {A = ℕ} (padded_len (length m) - 8 - (length m + 1)) 0,
      length-be_bytes 8 (length m * 8 % 2 ^ 64),
      padded_len_bounds (length m),
    )

-- The block has the computed length: at least nine bytes more than the message, fewer than
-- seventy-three more, and a whole count of chunks, so `as_chunks` leaves no byte over.
pub length-pad :
    (m : List ℕ)
    → (length (pad m) ≡ padded_len (length m))
      × (length m + 9 ≤ length (pad m))
      × (length (pad m) < length m + 73)
      × (length (pad m) % 64 ≡ 0)
unfolding padded_len
length-pad m = omega (arith, length-pad_exact m, padded_len_bounds (length m))
