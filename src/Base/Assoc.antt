-- ===== src/Base/Assoc.antt =====
-- A `HashMap` as an association list: one entry for a key, over any keys with a Boolean equality.
use mathlib.Core.Path.{◌≡◌}
use mathlib.Core.Logic.{◌↔◌}
use mathlib.Core.Bool.{Bool, true}
use mathlib.Core.List.{List, [], ◌∷◌}
use mathlib.Core.Option.{Option, none, some}
use native.Mathlib.Omega.{arith}
use elixir_mcp_lib.Base.Tests.{if◌then◌else◌}

pub record Key (K : Type 0) : Type 0 where
  pub beq : K → K → Bool
  pub beq_iff : (j k : K) → (beq j k ≡ true) ↔ (j ≡ k)

module _ {K V : Type 0} ⦃key : Key K⦄ where
  unfoldable pub find : List (K × V) → K → Option V
  find [] k = none
  find ((j, v) ∷ m) k = if key.beq j k then some v else find m k

  unfoldable pub remove : List (K × V) → K → List (K × V)
  remove [] k = []
  remove ((j, v) ∷ m) k = let rest = remove m k in if key.beq j k then rest else (j, v) ∷ rest

  unfoldable pub insert : List (K × V) → K → V → List (K × V)
  insert m k v = (k, v) ∷ remove m k

  pub find-remove :
      (m : List (K × V)) (k j : K) → find (remove m k) j ≡ (if key.beq k j then none else find m j)
  unfolding find remove
  find-remove [] k j = ground arith
  find-remove ((i, v) ∷ m) k j =
      ground (arith, find-remove m k j, key.beq_iff i k, key.beq_iff i j, key.beq_iff k j)

  pub find-insert :
      (m : List (K × V)) (k : K) (v : V) (j : K)
      → find (insert m k v) j ≡ (if key.beq k j then some v else find m j)
  unfolding find insert
  find-insert m k v j = ground (arith, find-remove m k j)
