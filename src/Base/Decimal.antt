-- ===== src/Base/Decimal.antt =====
-- `usize::to_string`: the decimal digits of a number.
use Prim.Native.Nat.{ℕ, zero, suc, ◌+◌, ◌-◌, ◌*◌, ◌/◌, ◌%◌, ◌^◌, ◌≤◌, ◌<◌}
use mathlib.Core.Path.{◌≡◌, refl, ap}
use mathlib.Core.List.{[], ◌∷◌, ◌++◌}
use native.Mathlib.Omega.{arith}
use elixir_mcp_lib.Base.Tests.{ltb, if◌then◌else◌}
use elixir_mcp_lib.Base.Lists.{length, length-append, All, All-append}
use elixir_mcp_lib.Base.Str.{Text}

-- The fuel bounds the count of digits; a number has fewer digits than its successor.
pub decimal_fuel : ℕ → ℕ → Text
decimal_fuel zero n = []
decimal_fuel (suc f) n =
    let more = decimal_fuel f (n / 10) ++ (b'0' + n % 10) ∷ [] in
    if ltb n 10 then (b'0' + n) ∷ [] else more

unfoldable pub to_string : ℕ → Text
unfolding decimal_fuel
to_string n = decimal_fuel (suc n) n

-- The number that digits spell behind `n`.
value : ℕ → Text → ℕ
value n [] = n
value n (c ∷ s) = value (n * 10 + (c - b'0')) s

value-append : (n : ℕ) (s t : Text) → value n (s ++ t) ≡ value (value n s) t
unfolding value
value-append n [] t = refl
value-append n (c ∷ s) t = value-append (n * 10 + (c - b'0')) s t

value-decimal_fuel : (f n : ℕ) → n < f → value 0 (decimal_fuel f n) ≡ n
unfolding value decimal_fuel
value-decimal_fuel zero n h = absurd (omega arith)
value-decimal_fuel (suc f) n h = ground (
  arith,
  value-decimal_fuel f (n / 10),
  value-append 0 (decimal_fuel f (n / 10)) ((b'0' + n % 10) ∷ []),
)

value-to_string : (n : ℕ) → value 0 (to_string n) ≡ n
unfolding to_string
value-to_string n = value-decimal_fuel (suc n) n (omega arith)

pub to_string_inj : (n m : ℕ) → to_string n ≡ to_string m → n ≡ m
to_string_inj n m e = cc (ap (value 0) e, value-to_string n, value-to_string m)

abbrev pub IsDigit : ℕ → Type 0
IsDigit c = (b'0' ≤ c) × (c ≤ b'9')

All-decimal_fuel : (f n : ℕ) → All IsDigit (decimal_fuel f n)
unfolding decimal_fuel
All-decimal_fuel zero n = tt
All-decimal_fuel (suc f) n = ground (
  arith,
  All-append IsDigit (decimal_fuel f (n / 10)) ((b'0' + n % 10) ∷ []) (All-decimal_fuel f (n / 10)),
)

pub All-to_string : (n : ℕ) → All IsDigit (to_string n)
unfolding to_string
All-to_string n = All-decimal_fuel (suc n) n

length-decimal_fuel : (f k n : ℕ) → n < 10 ^ suc k → length (decimal_fuel f n) ≤ suc k
unfolding decimal_fuel
length-decimal_fuel zero k n h = omega arith
length-decimal_fuel (suc f) zero n h = ground arith
length-decimal_fuel (suc f) (suc k) n h = ground (
  arith,
  length-decimal_fuel f k (n / 10),
  length-append (decimal_fuel f (n / 10)) ((b'0' + n % 10) ∷ []),
)

-- A number below a power of ten has no more digits than the exponent.
pub length-to_string : (k n : ℕ) → n < 10 ^ suc k → length (to_string n) ≤ suc k
unfolding to_string
length-to_string k n = length-decimal_fuel (suc n) k n
