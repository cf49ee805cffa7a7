-- ===== src/Tables/PerTool/Equalities.antt =====
-- Which restriction of a scan gives an input its value.
use elixir_mcp_lib.Base.{
  ◌≡◌, ◌≢◌, ◌⊎◌, refl, ap, Bool, true, false, ◌&&◌, Option, none, some, List, [], ◌∷◌, ◌++◌, Text,
  text_eq, text_eq_iff, text_eq_sound, Bool-cases, inl, inr, In, in_head, in_tail,
}
use elixir_mcp_lib.Json.{Value}
use elixir_mcp_lib.Quals.{Qual, Operator, equal, any_equal}
use elixir_mcp_lib.Codegen.Table.{Column}
use elixir_mcp_lib.Tables.PerTool.Shape.{is_equal, bound_value}

pub is_equal_sound : (o : Operator) → is_equal o ≡ true → o ≡ equal
is_equal_sound equal h = refl
is_equal_sound any_equal h = cc

module _ {N : Type 0} where
  -- an equality restriction on the column
  abbrev pub IsEqualityOn : Text → Qual N → Type 0
  IsEqualityOn column q = (q.field ≡ column) × (q.operator ≡ equal)

  -- the value of the first equality restriction on the column, or nothing where there is none
  abbrev pub IsFirstEquality : List (Qual N) → Text → Option (Value N) → Type 0
  IsFirstEquality quals column none = (q : Qual N) → In q quals → IsEqualityOn column q → ⊥
  IsFirstEquality quals column (some v) =
      (before : List (Qual N)) × (q : Qual N) × (after : List (Qual N)) × (quals
        ≡ before ++ q ∷ after)
      × IsEqualityOn column q
      × (q.value ≡ v)
      × ((p : Qual N) → In p before → IsEqualityOn column p → ⊥)

  test : Text → Qual N → Bool
  test column q = text_eq q.field column && is_equal q.operator

  test_sound : (column : Text) (q : Qual N) → test column q ≡ true → IsEqualityOn column q
  unfolding test
  test_sound column q h = elim (Bool-cases (text_eq q.field column)) [
    | inl named ↦ (text_eq_sound q.field column named, is_equal_sound q.operator (rw named at h))
    | inr other ↦ cc (rw other at h)
  ]

  test_complete : (column : Text) (q : Qual N) → test column q ≡ false → IsEqualityOn column q → ⊥
  unfolding test
  test_complete column q h (named, equality) =
      true_not_false (rw (named, equality, (text_eq_iff column column).1 refl) at h)
    where
      true_not_false : true ≡ false → ⊥
      true_not_false e = cc

  kept_apart :
      (column : Text) (q : Qual N) (quals : List (Qual N))
      → (IsEqualityOn column q → ⊥)
      → ((p : Qual N) → In p quals → IsEqualityOn column p → ⊥)
      → (p : Qual N) → In p (q ∷ quals)
      → IsEqualityOn column p
      → ⊥
  kept_apart column q quals apart rest _ in_head = apart
  kept_apart column q quals apart rest p (in_tail m) = rest p m

  behind :
      (column : Text) (q : Qual N) (quals : List (Qual N)) (o : Option (Value N))
      → (IsEqualityOn column q → ⊥)
      → IsFirstEquality quals column o
      → IsFirstEquality (q ∷ quals) column o
  behind column q quals none apart h = kept_apart column q quals apart h
  behind column q quals (some v) apart (before, p, after, split, on, value, earlier) = (
    q ∷ before,
    p,
    after,
    ap (λ ps. q ∷ ps) split,
    on,
    value,
    kept_apart column q before apart earlier,
  )

  pub bound_value-IsFirstEquality :
      (quals : List (Qual N)) (column : Text)
      → IsFirstEquality quals column (bound_value quals column)
  unfolding bound_value test
  bound_value-IsFirstEquality [] column = λ q m on. elim m [ ]
  bound_value-IsFirstEquality (q ∷ quals) column = elim (Bool-cases (test column q)) [
    | inl on ↦
        rw (on, bound_value) ([], q, quals, refl, test_sound column q on, refl, λ p m. elim m [ ])
    | inr off ↦
        rw (off, bound_value)
          (behind column q quals (bound_value quals column) (test_complete column q off)
            (bound_value-IsFirstEquality quals column))
  ]

  -- A column without an equality restriction has no value.
  pub bound_value-none :
      (quals : List (Qual N)) (column : Text)
      → ((q : Qual N) → In q quals → IsEqualityOn column q → ⊥)
      → bound_value quals column ≡ none
  unfolding bound_value test
  bound_value-none [] column h = refl
  bound_value-none (q ∷ quals) column h = elim (Bool-cases (test column q)) [
    | inl on ↦ absurd (h q in_head (test_sound column q on))
    | inr off ↦ rw (off, bound_value) (bound_value-none quals column (λ p m. h p (in_tail m)))
  ]

  -- What is sent under a property: the value of the first equality restriction on the column of the
  -- input with that property, if there is such an input.
  abbrev pub IsSent : List (Qual N) → List Column → Text → Option (Value N) → Type 0
  IsSent quals inputs key o =
      ((c : Column) × In c inputs × (c.property ≡ key) × IsFirstEquality quals c.sql_name o)
      ⊎ (((c : Column) → In c inputs → c.property ≢ key) × (o ≡ none))
