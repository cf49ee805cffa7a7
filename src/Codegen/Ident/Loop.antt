-- ===== src/Codegen/Ident/Loop.antt =====
-- The loop of `dedup` on a collision: it ends, and the name that it settles on is free.
use elixir_mcp_lib.Base.{
  ℕ, zero, suc, ◌+◌, ◌^◌, ◌<◌, ◌≡◌, ◌⊎◌, inl, inr, arith, true, false, Option, some, List, Text,
  length, contains, pigeon, Bool-cases,
}
use elixir_mcp_lib.Codegen.Sha256.{sha_suffix}
use elixir_mcp_lib.Codegen.Sha256.Hex.{sha_suffix_shape}
use elixir_mcp_lib.Codegen.Ident.{next_free, settle}
use elixir_mcp_lib.Codegen.Ident.Bounds.{IsIdent, All-sha_suffix}
use elixir_mcp_lib.Codegen.Ident.Candidates.{
  IsSuffix, ordinal_name, ordinal_name_inj, ordinal_candidate-eq, ordinal_name-IsIdent, first_name,
  first_candidate-eq, first_name-IsIdent,
}

-- a result that is an identifier and is not taken
abbrev pub Fresh : List Text → Option Text → Type 0
Fresh seen o = (r : Text) × (o ≡ some r) × IsIdent r × (contains seen r ≡ false)

-- what holds of the next ordinal and of those behind it holds of all from the next one on
shift :
    (P : ℕ → Type 0) (fuel n : ℕ)
    → (0 < fuel → P (n + 1))
    → ((k : ℕ) → k + 1 < fuel → P (n + 1 + 1 + k))
    → (k : ℕ) → k + 1 < suc fuel
    → P (n + 1 + k)
shift P fuel n here behind zero h =
    let e : n + 1 + 0 ≡ n + 1 = omega arith in rw e (here (omega arith))
shift P fuel n here behind (suc k) h =
    let e : n + 1 + suc k ≡ n + 1 + 1 + k = omega arith in rw e (behind k (omega arith))

module _ (seen : List Text) (sql hash : Text) (i : IsIdent sql) (s : IsSuffix hash) where
  abbrev Taken : ℕ → ℕ → Text → Type 0
  Taken fuel n candidate =
      (0 < fuel → contains seen candidate ≡ true)
      × ((k : ℕ) → k + 1 < fuel → contains seen (ordinal_name sql hash (n + 1 + k)) ≡ true)

  Taken-behind :
      (fuel n : ℕ) (candidate : Text)
      → contains seen candidate ≡ true
      → Fresh seen (next_free fuel seen sql hash (n + 1) (ordinal_name sql hash (n + 1)))
        ⊎ Taken fuel (n + 1) (ordinal_name sql hash (n + 1))
      → Fresh seen (next_free fuel seen sql hash (n + 1) (ordinal_name sql hash (n + 1)))
        ⊎ Taken (suc fuel) n candidate
  Taken-behind fuel n candidate taken (inl fresh) = inl fresh
  Taken-behind fuel n candidate taken (inr (here, behind)) =
      inr (
        (λ _. taken),
        shift (λ m. contains seen (ordinal_name sql hash m) ≡ true) fuel n here behind,
      )

  next_free_step :
      (fuel n : ℕ) (candidate : Text)
      → contains seen candidate ≡ true
      → next_free (suc fuel) seen sql hash n candidate
        ≡ next_free fuel seen sql hash (n + 1) (ordinal_name sql hash (n + 1))
  unfolding next_free
  next_free_step fuel n candidate taken = rw (taken, ordinal_candidate-eq sql hash (n + 1) i)

  next_free_free :
      (fuel n : ℕ) (candidate : Text)
      → contains seen candidate ≡ false
      → next_free (suc fuel) seen sql hash n candidate ≡ some candidate
  unfolding next_free
  next_free_free fuel n candidate free = rw free

  -- Either the loop finds a free name, or every name that the fuel reaches is taken.
  next_free_cases :
      (fuel n : ℕ) (candidate : Text)
      → IsIdent candidate
      → n + fuel < 10 ^ 20
      → Fresh seen (next_free fuel seen sql hash n candidate) ⊎ Taken fuel n candidate
  next_free_cases zero n candidate ic small =
      inr ((λ h. absurd (omega arith)), λ k h. absurd (omega arith))
  next_free_cases (suc fuel) n candidate ic small = elim (Bool-cases (contains seen candidate)) [
    | inl taken ↦ rw (next_free_step fuel n candidate taken) (
        Taken-behind fuel n candidate taken (
          next_free_cases fuel (n + 1) (ordinal_name sql hash (n + 1))
            (ordinal_name-IsIdent sql hash (n + 1) i s (omega arith)) (omega arith)))
    | inr free ↦ inl (candidate, next_free_free fuel n candidate free, ic, free)
  ]

  -- So many ordinals are distinct that not all of them are taken.
  not_all-Taken : (candidate : Text) → ¬ Taken (length seen + 2) 1 candidate
  not_all-Taken candidate t = absurd (
      omega (
        arith,
        pigeon (λ k. ordinal_name sql hash (1 + 1 + k))
            (λ j k e. omega (arith, ordinal_name_inj sql hash (1 + 1 + j) (1 + 1 + k) e))
            (length seen + 1) seen (λ k h. t.1 k (omega arith)),
      ))

  next_free-Fresh :
      (candidate : Text)
      → IsIdent candidate
      → length seen < 2 ^ 64
      → Fresh seen (next_free (length seen + 2) seen sql hash 1 candidate)
  next_free-Fresh candidate ic small =
      elim (next_free_cases (length seen + 2) 1 candidate ic (omega arith)) [
        | inl fresh ↦ fresh
        | inr taken ↦ absurd (not_all-Taken candidate taken)
      ]

sha_suffix-IsSuffix : (s : Text) → IsSuffix (sha_suffix s)
sha_suffix-IsSuffix s = record { chars = All-sha_suffix s; seven = (sha_suffix_shape s).0 }

-- A collision or not, one name is settled.
pub settle-Fresh :
    (seen : List Text) (original sql : Text)
    → IsIdent sql
    → length seen < 2 ^ 64
    → Fresh seen (settle seen original sql)
unfolding settle
settle-Fresh seen original sql i small = elim (Bool-cases (contains seen sql)) [
  | inl taken ↦
      let hash = sha_suffix original in
      let is : IsSuffix hash = sha_suffix-IsSuffix original in
      rw (taken, first_candidate-eq sql hash i)
        (next_free-Fresh seen sql hash i is (first_name sql hash) (first_name-IsIdent sql hash i is)
          small)
  | inr free ↦ (sql, rw free, i, free)
]
