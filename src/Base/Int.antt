-- ===== src/Base/Int.antt =====
-- `i64` values: an integer, its comparison, and its decimal print.
use Prim.Native.Nat.{ℕ, suc}
use mathlib.Core.Path.{◌≡◌}
use mathlib.Core.Bool.{Bool, true, false}
use mathlib.Core.List.{◌∷◌}
use native.Mathlib.Omega.{arith}
use elixir_mcp_lib.Base.Tests.{◌==◌}
use elixir_mcp_lib.Base.Str.{Text}
use elixir_mcp_lib.Base.Decimal.{to_string}

-- `negsuc n` is -(n + 1).
pub data ℤ : Type 0 where
  pos : ℕ → ℤ
  negsuc : ℕ → ℤ

abbrev pub int_eq : ℤ → ℤ → Bool
int_eq (pos n) (pos m) = n == m
int_eq (negsuc n) (negsuc m) = n == m
int_eq _ _ = false

pub int_eq_refl : (a : ℤ) → int_eq a a ≡ true
int_eq_refl (pos n) = ground arith
int_eq_refl (negsuc n) = ground arith

pub int_eq_sound : (a b : ℤ) → int_eq a b ≡ true → a ≡ b
int_eq_sound (pos n) (pos m) h = ground arith
int_eq_sound (negsuc n) (negsuc m) h = ground arith
int_eq_sound (pos n) (negsuc m) h = cc
int_eq_sound (negsuc n) (pos m) h = cc

pub int_to_string : ℤ → Text
unfolding to_string
int_to_string (pos n) = to_string n
int_to_string (negsuc n) = b'-' ∷ to_string (suc n)
