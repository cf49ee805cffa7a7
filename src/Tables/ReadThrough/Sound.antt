-- ===== src/Tables/ReadThrough/Sound.antt =====
-- The rows of the read-through tables hold what the restrictions of their columns allow.
pub mod Contents
pub mod Messages
pub mod Candidates
pub mod Keyed
use mathlib.Core.Path.{subst}
use elixir_mcp_lib.Base.{
  ℕ, ◌≡◌, refl, ◌∙◌, ap, sym, arith, true, none, some, List, [], ◌∷◌, Text, All, All-imp,
}
use elixir_mcp_lib.Json.{Value, null, boolean, number, string, array, object, as_str}
use elixir_mcp_lib.Quals.{Qual, Equality, contains_value}
use elixir_mcp_lib.Tables.{TableSpec, Cell, Row, Numbers, as_json, nth, ScanContext}
use elixir_mcp_lib.Tables.Catalog.Conform.{Conforms}
use elixir_mcp_lib.Tables.ReadThrough.{
  CtxError, CtxResult, returned, raised, Fetch, Store, behind, restricted, texts_of,
}
use elixir_mcp_lib.Tables.ReadThrough.Restricted.{
  IsEquivalence, allowed, allowed_by, restricted-allowed,
}

-- A result that was returned satisfies `P`.
pub data Given {ℓ κ} {A : Type ℓ} (P : A → Type κ) : CtxResult A → Type (ℓ ⊔ κ) where
  returns : (a : A) → P a → Given P (returned a)
  raises : (e : CtxError) → Given P (raised e)

-- So does a result with the state that it leaves.
pub data Ensures {κ} {N W A : Type 0} (P : A → Type κ) : CtxResult A × Store N W → Type κ where
  yields : (a : A) (s : Store N W) → P a → Ensures P (returned a, s)
  stops : (e : CtxError) (s : Store N W) → Ensures P (raised e, s)

pub Ensures-give {κ} :
    {N W A : Type 0} (P : A → Type κ) {r : CtxResult A} (s : Store N W)
    → Given P r
    → Ensures P (r, s)
Ensures-give P s (returns a p) = yields a s p
Ensures-give P s (raises e) = stops e s

pub Ensures-any : {N W A : Type 0} (m : CtxResult A × Store N W) → Ensures (λ _. Unit {0}) m
Ensures-any (returned a, s) = yields a s tt
Ensures-any (raised e, s) = stops e s

pub Ensures-behind {κ ι} :
    {N W A B : Type 0} (P : A → Type κ) (Q : B → Type ι) {m : CtxResult A × Store N W}
    (f : A → Fetch N W B)
    → Ensures P m
    → ((a : A) (s : Store N W) → P a → Ensures Q (f a s))
    → Ensures Q (behind m f)
Ensures-behind P Q f (yields a s p) next = next a s p
Ensures-behind P Q f (stops e s) next = stops e s

-- the context of a scan of that table
abbrev pub at_spec : {N : Type 0} → TableSpec → ScanContext N → ScanContext N
at_spec spec ctx = record ctx { base = record ctx.base { spec = spec } }

module _ {N : Type 0} (eq : Equality N) where
  -- The column restrictions allow the value.
  abbrev pub IsAllowed : List (Qual N) → Text → Value N → Type 0
  IsAllowed quals column v = allowed eq quals column v ≡ true

  module _ (e : IsEquivalence eq) where
    All-members : (xs : List (Value N)) → All (λ v. contains_value eq xs v ≡ true) xs
    All-members [] = tt
    All-members (x ∷ xs) = (
      ground (arith, e.reflexive x),
      All-imp (λ v. contains_value eq xs v ≡ true) (λ v. contains_value eq (x ∷ xs) v ≡ true)
          (λ v h. ground arith) xs (All-members xs),
    )

    -- The values that the restrictions of a column come to are allowed.
    pub All-restricted :
        (quals : List (Qual N)) (column : Text) (values : List (Value N))
        → restricted eq quals column ≡ some values
        → All (IsAllowed quals column) values
    All-restricted quals column values h =
        All-imp (λ v. contains_value eq values v ≡ true) (IsAllowed quals column)
          (λ v member.
            sym (restricted-allowed eq e quals column v).0
            ∙ ap (λ acc. allowed_by eq acc v) h
            ∙ member)
          values (All-members values)

    pub unrestricted :
        (quals : List (Qual N)) (column : Text) (v : Value N)
        → restricted eq quals column ≡ none
        → IsAllowed quals column v
    unrestricted quals column v h =
        sym (restricted-allowed eq e quals column v).0 ∙ ap (λ acc. allowed_by eq acc v) h

module _ {N : Type 0} (P : Value N → Type 0) where
  pub All-texts_of : (vs : List (Value N)) → All P vs → All (λ u. P (string u)) (texts_of vs)
  unfolding texts_of
  All-texts_of [] h = tt
  All-texts_of (string u ∷ vs) (p, h) = (p, All-texts_of vs h)
  All-texts_of (null ∷ vs) (p, h) = All-texts_of vs h
  All-texts_of (boolean b ∷ vs) (p, h) = All-texts_of vs h
  All-texts_of (number n ∷ vs) (p, h) = All-texts_of vs h
  All-texts_of (array xs ∷ vs) (p, h) = All-texts_of vs h
  All-texts_of (object fs ∷ vs) (p, h) = All-texts_of vs h

module _ {N F : Type 0} (eq : Equality N) (num : Numbers N F) where
  -- The cell at `k` holds a value that the restrictions of the column allow.
  abbrev pub Holds : List (Qual N) → Text → Row N F → ℕ → Type 0
  Holds quals column row k =
      (c : Cell N F) × (nth row k ≡ some (some c)) × IsAllowed eq quals column (as_json num c)
