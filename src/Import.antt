-- ===== src/Import.antt =====
-- pg/pg_mcp/src/import.rs: the check of the prefix that derived names get.
pub mod Prefix
mod Tests
use mathlib.Core.Option
use elixir_mcp_lib.Base.{
  ℕ, Bool, true, false, ◌&&◌, ◌||◌, not, Option, none, some, List, [], ◌∷◌, ◌++◌, if◌then◌else◌,
  ◌==◌, Text, codes, as_bytes, is_ascii_lowercase, is_ascii_digit,
}
use elixir_mcp_lib.Errors.{McpError, invalid_option, McpResult, ok, err}

-- `[a-z0-9_]`
abbrev pub is_fragment_byte : ℕ → Bool
is_fragment_byte b = is_ascii_lowercase b || is_ascii_digit b || (b == b'_')

abbrev pub all_fragment_bytes : List ℕ → Bool
all_fragment_bytes [] = true
all_fragment_bytes (b ∷ bs) = is_fragment_byte b && all_fragment_bytes bs

-- `bytes().next().is_some_and(|b| b.is_ascii_digit())`
abbrev pub first_is_digit : List ℕ → Bool
first_is_digit [] = false
first_is_digit (b ∷ bs) = is_ascii_digit b

unfoldable pub validate_prefix : Text → McpResult Text
validate_prefix raw =
    if all_fragment_bytes (as_bytes raw) && not (first_is_digit (as_bytes raw))
    then ok raw
    else err (
        invalid_option (
          codes "invalid value for import option \"prefix\": \""
          ++ raw
          ++ codes
              "\" is not an identifier fragment (lowercase letters, digits, underscores; must not start with a digit)"))
