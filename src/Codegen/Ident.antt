-- ===== src/Codegen/Ident.antt =====
-- pg/pg_mcp/src/codegen/ident.rs: SQL identifiers from MCP names, and the resolution of collisions.
-- A name is the list of its code points. Rust's Unicode `str::to_lowercase` is the parameter
-- `to_lowercase`. `none` is a panic of a byte slice, or the end of the fuel of the one `while`.
pub mod Chars
pub mod Bounds
pub mod Candidates
pub mod Loop
pub mod Dedup
pub mod Empty
pub mod Reserved
mod Tests
use elixir_mcp_lib.Base.{
  ℕ, zero, suc, ◌+◌, ◌-◌, min, Bool, true, false, ◌&&◌, ◌||◌, not, Option, none, some, List, [],
  ◌∷◌, ◌++◌, ltb, if◌then◌else◌, ◌>>=◌, Text, length, contains, len, slice_to, is_ascii_lowercase,
  is_ascii_uppercase, is_ascii_digit, to_string, ◌==◌,
}
use elixir_mcp_lib.Codegen.Sha256.{sha_suffix}

abbrev pub max_bytes : ℕ
max_bytes = 63

abbrev pub truncate_bytes : ℕ
truncate_bytes = 55

abbrev pub underscore : ℕ
underscore = b'_'

-- `chars.get(i + 1).is_some_and(|n| n.is_ascii_lowercase())`
next_is_lowercase : Text → Bool
next_is_lowercase [] = false
next_is_lowercase (n ∷ s) = is_ascii_lowercase n

boundary : ℕ → ℕ → Text → Bool
unfolding next_is_lowercase
boundary prev c rest =
    is_ascii_lowercase prev && is_ascii_uppercase c
    || is_ascii_uppercase prev && is_ascii_uppercase c && next_is_lowercase rest
    || is_ascii_digit prev && is_ascii_uppercase c

-- the loop from the second character on; `prev` is `chars[i - 1]`
split_rest : ℕ → Text → Text
unfolding boundary
split_rest prev [] = []
split_rest prev (c ∷ rest) =
    let tail = c ∷ split_rest c rest in if boundary prev c rest then underscore ∷ tail else tail

pub split_case_boundaries : Text → Text
unfolding split_rest
split_case_boundaries [] = []
split_case_boundaries (c ∷ rest) = c ∷ split_rest c rest

abbrev is_empty : Text → Bool
is_empty [] = true
is_empty (c ∷ s) = false

-- the loop of `derive_base` over the lowered characters
collapse : Text → Bool → Text → Text
collapse out last_was_underscore [] = out
collapse out last_was_underscore (c ∷ s) =
    let kept = collapse (out ++ c ∷ []) false s in
    let separated = collapse (out ++ underscore ∷ []) true s in
    let dropped = collapse out last_was_underscore s in
    if is_ascii_lowercase c || is_ascii_digit c
    then kept
    else if not last_was_underscore && not (is_empty out)
    then separated
    else dropped

-- `while out.starts_with('_') { out.remove(0); }`
strip_leading : Text → Text
strip_leading [] = []
strip_leading (c ∷ s) = if c == underscore then strip_leading s else c ∷ s

-- `while out.ends_with('_') { out.pop(); }`
strip_trailing : Text → Text
strip_trailing [] = []
strip_trailing (c ∷ s) =
    let rest = strip_trailing s in if is_empty rest && (c == underscore) then [] else c ∷ rest

prefix_digit : Text → Text
prefix_digit [] = []
prefix_digit (c ∷ s) = if is_ascii_digit c then underscore ∷ c ∷ s else c ∷ s

-- what `derive_base` does after lowering
base_of_lowered : Text → Text
unfolding collapse strip_leading strip_trailing prefix_digit
base_of_lowered lowered = prefix_digit (strip_trailing (strip_leading (collapse [] false lowered)))

module _ (to_lowercase : Text → Text) where
  unfoldable pub derive_base : Text → Text
  unfolding split_case_boundaries base_of_lowered
  derive_base name = base_of_lowered (to_lowercase (split_case_boundaries name))

-- the 63-byte rule
pub enforce_length : Text → Option Text
enforce_length composed =
    if ltb max_bytes (len composed)
    then (do
      truncated ← slice_to truncate_bytes composed
      some (truncated ++ underscore ∷ sha_suffix composed))
    else some composed

module _ (to_lowercase : Text → Text) where
  -- An empty prefix is prepended like any other.
  unfoldable pub derive : Text → Text → Option Text
  unfolding derive_base enforce_length
  derive name prefix = enforce_length (prefix ++ derive_base to_lowercase name)

  pub derive_all : List Text → Text → Option (List Text)
  unfolding derive
  derive_all [] prefix = some []
  derive_all (n ∷ names) prefix = do
    d ← derive n prefix
    ds ← derive_all names prefix
    some (d ∷ ds)

-- `{head}_{original_hash}`
pub first_candidate : Text → Text → Option Text
first_candidate sql hash = do
  head ← slice_to (min (len sql) truncate_bytes) sql
  some (head ++ underscore ∷ hash)

-- `{head}_{original_hash}_{ordinal}`, on a head that shrinks with the ordinal
pub ordinal_candidate : Text → Text → ℕ → Option Text
ordinal_candidate sql hash occurrence = do
  let ordinal = to_string occurrence
  head ← slice_to (min (truncate_bytes - (1 + len ordinal)) (len sql)) sql
  some (head ++ underscore ∷ (hash ++ underscore ∷ ordinal))

-- `while seen.contains_key(&candidate)`
pub next_free : ℕ → List Text → Text → Text → ℕ → Text → Option Text
unfolding ordinal_candidate
next_free zero seen sql hash occurrence candidate = none
next_free (suc fuel) seen sql hash occurrence candidate =
    let again = (do
      next ← ordinal_candidate sql hash (occurrence + 1)
      next_free fuel seen sql hash (occurrence + 1) next) in
    if contains seen candidate then again else some candidate

-- the name for one pair: `seen` has the keys of the map, whose values are never read
pub settle : List Text → Text → Text → Option Text
unfolding first_candidate next_free
settle seen original sql =
    if contains seen sql
    then (do
      candidate ← first_candidate sql (sha_suffix original)
      next_free (length seen + 2) seen sql (sha_suffix original) 1 candidate)
    else some sql

pub resolve : List Text → List Text → List Text → Option (List (Text × Text))
unfolding settle
resolve seen (original ∷ names) (sql ∷ derived) = do
  name ← settle seen original sql
  rest ← resolve (name ∷ seen) names derived
  some ((original, name) ∷ rest)
resolve seen _ _ = some []

module _ (to_lowercase : Text → Text) where
  unfoldable pub dedup : List Text → Text → Option (List (Text × Text))
  unfolding derive_all resolve
  dedup names prefix = do derived ← derive_all to_lowercase names prefix; resolve [] names derived
