-- ===== src/Codegen/Ident/Bounds.antt =====
-- A derived name is an identifier that PostgreSQL keeps whole.
use elixir_mcp_lib.Base.{
  ℕ, zero, suc, ◌+◌, ◌≤◌, ◌<◌, ◌≡◌, refl, arith, false, some, [], ◌∷◌, ◌++◌, take, ltb, Text, All,
  All-append, All-take, All-imp, IsAscii, length, length-append, length-take, len, len_ascii,
  slice_to_ascii, Bool-cases, inl, inr, lt→ltb,
}
use elixir_mcp_lib.Codegen.Sha256.{sha_suffix}
use elixir_mcp_lib.Codegen.Sha256.Hex.{IsHexDigit, sha_suffix_shape}
use elixir_mcp_lib.Codegen.Ident.{
  max_bytes, truncate_bytes, underscore, enforce_length, derive, derive_base,
}
use elixir_mcp_lib.Codegen.Ident.Chars.{
  IsIdentChar, IsIdentChar-IsAscii, IsHexDigit-IsIdentChar, starts_with_digit, All-derive_base,
  starts_with_digit-derive_base,
}

-- The characters and the first one are those of an unquoted identifier; it may be empty.
pub record IsFragment (s : Text) : Type 0 where
  pub chars : All IsIdentChar s
  pub head : starts_with_digit s ≡ false

-- A fragment of at most 63 bytes, which PostgreSQL does not truncate.
pub record IsIdent (s : Text) : Type 0 where
  pub fragment : IsFragment s
  pub fits : len s ≤ max_bytes

pub All-IsAscii : (s : Text) → All IsIdentChar s → All IsAscii s
All-IsAscii s h = All-imp IsIdentChar IsAscii IsIdentChar-IsAscii s h

pub All-sha_suffix : (s : Text) → All IsIdentChar (sha_suffix s)
All-sha_suffix s = All-imp IsHexDigit IsIdentChar IsHexDigit-IsIdentChar _ (sha_suffix_shape s).1

starts_with_digit-append :
    (s t : Text)
    → starts_with_digit s ≡ false
    → starts_with_digit t ≡ false
    → starts_with_digit (s ++ t) ≡ false
starts_with_digit-append [] t hs ht = ht
starts_with_digit-append (c ∷ s) t hs ht = hs

-- A cut in front of the end keeps the first character.
pub starts_with_digit-take :
    (n : ℕ) (s t : Text)
    → starts_with_digit s ≡ false
    → starts_with_digit (take n s ++ underscore ∷ t) ≡ false
starts_with_digit-take zero s t h = refl
starts_with_digit-take (suc n) [] t h = refl
starts_with_digit-take (suc n) (c ∷ s) t h = h

-- a head of at most `n` characters, and a tail behind an underscore
pub IsIdent-cut :
    (n : ℕ) (s t : Text)
    → IsFragment s
    → All IsIdentChar t
    → n + 1 + length t ≤ max_bytes
    → IsIdent (take n s ++ underscore ∷ t)
IsIdent-cut n s t f ht fits =
    let chars : All IsIdentChar (take n s ++ underscore ∷ t) =
      All-append IsIdentChar (take n s) (underscore ∷ t) (All-take IsIdentChar n s f.chars)
        (refl, ht) in
    record {
      fragment = record { chars = chars; head = starts_with_digit-take n s t f.head };
      fits = omega (
        arith,
        len_ascii _ (All-IsAscii _ chars),
        length-append (take n s) (underscore ∷ t),
        length-take n s,
      );
    }

enforce_length-IsIdent :
    (s : Text) → IsFragment s → (r : Text) × (enforce_length s ≡ some r) × IsIdent r
unfolding enforce_length
enforce_length-IsIdent s f = elim (Bool-cases (ltb max_bytes (len s))) [
  | inl long ↦ (
    take truncate_bytes s ++ underscore ∷ sha_suffix s,
    rw (
      long,
      slice_to_ascii truncate_bytes s (All-IsAscii s f.chars)
          (ground (arith, len_ascii s (All-IsAscii s f.chars))),
    ),
    IsIdent-cut truncate_bytes s (sha_suffix s) f (All-sha_suffix s)
        (omega (arith, (sha_suffix_shape s).0)),
  )
  | inr short ↦ (s, rw short, record { fragment = f; fits = ground arith })
]

-- a text over the limit is cut to exactly the limit
enforce_length_long :
    (s : Text)
    → IsFragment s
    → max_bytes < len s
    → (r : Text) × (enforce_length s ≡ some r) × (len r ≡ max_bytes)
unfolding enforce_length
enforce_length_long s f long =
    let n : truncate_bytes ≤ length s = omega (arith, len_ascii s (All-IsAscii s f.chars)) in
    let cut : Text = take truncate_bytes s in
    let i : IsIdent (cut ++ underscore ∷ sha_suffix s) =
      IsIdent-cut truncate_bytes s (sha_suffix s) f (All-sha_suffix s)
        (omega (arith, (sha_suffix_shape s).0)) in
    (
      cut ++ underscore ∷ sha_suffix s,
      rw (lt→ltb max_bytes (len s) long, slice_to_ascii truncate_bytes s (All-IsAscii s f.chars) n),
      omega (
        arith,
        len_ascii _ (All-IsAscii _ i.fragment.chars),
        length-append cut (underscore ∷ sha_suffix s),
        length-take truncate_bytes s,
        (sha_suffix_shape s).0,
      ),
    )

append-IsFragment : (s t : Text) → IsFragment s → IsFragment t → IsFragment (s ++ t)
append-IsFragment s t fs ft = record {
  chars = All-append IsIdentChar s t fs.chars ft.chars;
  head = starts_with_digit-append s t fs.head ft.head;
}

-- Under a prefix of identifier characters that does not start with a digit, `derive` does not
-- panic on any name, and gives at most 63 bytes of `[a-z0-9_]` that do not start with a digit.
pub derive-IsIdent :
    (to_lowercase : Text → Text) (name prefix : Text)
    → IsFragment prefix
    → (r : Text) × (derive to_lowercase name prefix ≡ some r) × IsIdent r
unfolding derive
derive-IsIdent to_lowercase name prefix f =
    enforce_length-IsIdent (prefix ++ derive_base to_lowercase name) (
      append-IsFragment prefix (derive_base to_lowercase name) f (record {
        chars = All-derive_base to_lowercase name;
        head = starts_with_digit-derive_base to_lowercase name;
      }))

-- A name that is over the limit behind its prefix is derived to exactly 63 bytes.
pub derive_long :
    (to_lowercase : Text → Text) (name prefix : Text)
    → IsFragment prefix
    → max_bytes < len (prefix ++ derive_base to_lowercase name)
    → (r : Text) × (derive to_lowercase name prefix ≡ some r) × (len r ≡ max_bytes)
unfolding derive
derive_long to_lowercase name prefix f long =
    enforce_length_long (prefix ++ derive_base to_lowercase name)
      (append-IsFragment prefix (derive_base to_lowercase name) f (record {
        chars = All-derive_base to_lowercase name;
        head = starts_with_digit-derive_base to_lowercase name;
      }))
      long
