-- ===== src/Base/Pigeon.antt =====
-- More distinct texts than a list has entries cannot all stand in it.
use Prim.Native.Nat.{ℕ, zero, suc, ◌≤◌, ◌<◌}
use mathlib.Core.Path.{◌≡◌}
use mathlib.Core.Logic.{◌≢◌, inl, inr}
use mathlib.Core.Bool.{true}
use mathlib.Core.List.{List, [], ◌∷◌}
use native.Mathlib.Omega.{arith}
use elixir_mcp_lib.Base.Tests.{if◌then◌else◌, Bool-cases}
use elixir_mcp_lib.Base.Lists.{length}
use elixir_mcp_lib.Base.Str.{Text, text_eq, text_eq_iff, contains}

-- the list without the first entry equal to `s`
erase : Text → List Text → List Text
erase s [] = []
erase s (t ∷ ts) = if text_eq t s then ts else t ∷ erase s ts

length-erase :
    (s : Text) (ts : List Text) → contains ts s ≡ true → length ts ≡ suc (length (erase s ts))
unfolding erase
length-erase s [] h = cc
length-erase s (t ∷ ts) h = elim (Bool-cases (text_eq t s)) [
  | inl e ↦ rw e
  | inr e ↦ rw e (omega (arith, length-erase s ts (ground arith)))
]

contains-erase :
    (s u : Text) (ts : List Text) → s ≢ u → contains ts u ≡ true → contains (erase s ts) u ≡ true
unfolding erase
contains-erase s u [] ne h = h
contains-erase s u (t ∷ ts) ne h =
    ground (arith, text_eq_iff t s, text_eq_iff t u, contains-erase s u ts)

pub pigeon :
    (f : ℕ → Text)
    → ((i j : ℕ) → f i ≡ f j → i ≡ j)
    → (k : ℕ) (seen : List Text) → ((i : ℕ) → i < k → contains seen (f i) ≡ true)
    → k ≤ length seen
pigeon f inj zero seen all = omega arith
pigeon f inj (suc k) seen all = omega (
  arith,
  length-erase (f k) seen (all k (omega arith)),
  pigeon f inj k (erase (f k) seen) (λ i h.
      contains-erase (f k) (f i) seen (λ e. absurd (omega (arith, inj k i e)))
        (all i (omega arith))),
)
