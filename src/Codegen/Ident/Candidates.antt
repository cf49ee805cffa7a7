-- ===== src/Codegen/Ident/Candidates.antt =====
-- The names that `dedup` tries on a collision: identifiers, and one for each ordinal.
use elixir_mcp_lib.Base.{
  ℕ, zero, suc, ◌+◌, ◌-◌, ◌^◌, ◌≤◌, ◌<◌, min, ◌≡◌, ◌≢◌, refl, sym, ap, arith, Bool, true, false,
  Option, none, some, List, [], ◌∷◌, ◌++◌, ◌>>=◌, take, ltb, if◌then◌else◌, ◌==◌, Text, All,
  All-append, All-imp, IsDigit, IsAscii, length, length-append, len, len_ascii, slice_to,
  slice_to_ascii, to_string, to_string_inj, All-to_string, length-to_string, append_assoc,
}
use elixir_mcp_lib.Codegen.Ident.{truncate_bytes, underscore, first_candidate, ordinal_candidate}
use elixir_mcp_lib.Codegen.Ident.Chars.{IsIdentChar}
use elixir_mcp_lib.Codegen.Ident.Bounds.{IsIdent, IsIdent-cut, All-IsAscii}

-- What follows the last underscore; `cur` is what has followed it so far.
after_last : Text → Text → Text
after_last cur [] = cur
after_last cur (c ∷ s) = after_last (if c == underscore then [] else cur ++ c ∷ []) s

after_last-digits : (cur d : Text) → All IsDigit d → after_last cur d ≡ cur ++ d
unfolding after_last
after_last-digits cur [] h = sym (elixir_mcp_lib.Base.append-nil cur)
after_last-digits cur (c ∷ d) (p, h) =
    ground (arith, after_last-digits (cur ++ c ∷ []) d h, append_assoc cur (c ∷ []) d)

after_last-append : (cur s d : Text) → All IsDigit d → after_last cur (s ++ underscore ∷ d) ≡ d
unfolding after_last
after_last-append cur [] d h = after_last-digits [] d h
after_last-append cur (c ∷ s) d h =
    after_last-append (if c == underscore then [] else cur ++ c ∷ []) s d h

IsDigit-IsIdentChar : (c : ℕ) → IsDigit c → IsIdentChar c
IsDigit-IsIdentChar c h = ground arith

-- A suffix of seven identifier characters.
pub record IsSuffix (hash : Text) : Type 0 where
  pub chars : All IsIdentChar hash
  pub seven : length hash ≡ 7

-- The name that is tried at an ordinal.
pub ordinal_name : Text → Text → ℕ → Text
ordinal_name sql hash n =
    take (min (truncate_bytes - (1 + len (to_string n))) (len sql)) sql
    ++ underscore ∷ (hash ++ underscore ∷ to_string n)

after_last-ordinal_name :
    (sql hash : Text) (n : ℕ) → after_last [] (ordinal_name sql hash n) ≡ to_string n
unfolding ordinal_name
after_last-ordinal_name sql hash n =
    let head = take (min (truncate_bytes - (1 + len (to_string n))) (len sql)) sql in
    rw (← append_assoc head (underscore ∷ hash) (underscore ∷ to_string n))
      (after_last-append [] (head ++ underscore ∷ hash) (to_string n) (All-to_string n))

pub ordinal_name_inj :
    (sql hash : Text) (n m : ℕ) → ordinal_name sql hash n ≡ ordinal_name sql hash m → n ≡ m
ordinal_name_inj sql hash n m e = to_string_inj n m (
    cc (
      ap (after_last []) e,
      after_last-ordinal_name sql hash n,
      after_last-ordinal_name sql hash m,
    ))

pub ordinal_candidate-eq :
    (sql hash : Text) (n : ℕ)
    → IsIdent sql
    → ordinal_candidate sql hash n ≡ some (ordinal_name sql hash n)
unfolding ordinal_candidate ordinal_name
ordinal_candidate-eq sql hash n i =
    let k : ℕ = min (truncate_bytes - (1 + len (to_string n))) (len sql) in
    rw (
      slice_to_ascii k sql (All-IsAscii sql i.fragment.chars)
        (omega (arith, len_ascii sql (All-IsAscii sql i.fragment.chars))))

pub ordinal_name-IsIdent :
    (sql hash : Text) (n : ℕ)
    → IsIdent sql
    → IsSuffix hash
    → n < 10 ^ 20
    → IsIdent (ordinal_name sql hash n)
unfolding ordinal_name
ordinal_name-IsIdent sql hash n i s small =
    let ordinal = to_string n in
    let chars : All IsIdentChar ordinal =
      All-imp IsDigit IsIdentChar IsDigit-IsIdentChar ordinal (All-to_string n) in
    IsIdent-cut (min (truncate_bytes - (1 + len ordinal)) (len sql)) sql
      (hash ++ underscore ∷ ordinal) i.fragment
      (All-append IsIdentChar hash (underscore ∷ ordinal) s.chars (refl, chars))
      (omega (
        arith,
        s.seven,
        length-append hash (underscore ∷ ordinal),
        length-to_string 19 n small,
        len_ascii ordinal (All-IsAscii ordinal chars),
      ))

pub first_name : Text → Text → Text
first_name sql hash = take (min (len sql) truncate_bytes) sql ++ underscore ∷ hash

pub first_candidate-eq :
    (sql hash : Text) → IsIdent sql → first_candidate sql hash ≡ some (first_name sql hash)
unfolding first_candidate first_name
first_candidate-eq sql hash i = rw (
    slice_to_ascii (min (len sql) truncate_bytes) sql (All-IsAscii sql i.fragment.chars)
      (omega (arith, len_ascii sql (All-IsAscii sql i.fragment.chars))))

pub first_name-IsIdent :
    (sql hash : Text) → IsIdent sql → IsSuffix hash → IsIdent (first_name sql hash)
unfolding first_name
first_name-IsIdent sql hash i s =
    IsIdent-cut (min (len sql) truncate_bytes) sql hash i.fragment s.chars (omega (arith, s.seven))
