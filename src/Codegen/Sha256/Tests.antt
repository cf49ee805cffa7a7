-- ===== src/Codegen/Sha256/Tests.antt =====
-- The published test vectors of FIPS 180-4, as far as the suffix shows them.
use elixir_mcp_lib.Base.{ℕ, ◌≡◌, refl, codes, List, as_bytes}
use elixir_mcp_lib.Codegen.Sha256.{sha_suffix}

sha_suffix_abc : sha_suffix (codes "abc") ≡ codes "ba7816b"
unfolding sha_suffix
sha_suffix_abc = refl

sha_suffix_empty : sha_suffix (codes "") ≡ codes "e3b0c44"
unfolding sha_suffix
sha_suffix_empty = refl

sha_suffix_two_chunks :
    sha_suffix (codes "abcdbcdecdefdefgefghfghighijhijkijkljklmklmnlmnomnopnopq") ≡ codes "248d6a6"
unfolding sha_suffix
sha_suffix_two_chunks = refl

abbrev abc : List ℕ
unfolding as_bytes
abc = as_bytes (codes "abc")
