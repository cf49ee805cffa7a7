-- ===== src/Tables/ReadThrough/Rows.antt =====
-- Rows that are filled cell by cell: what their columns hold.
use elixir_mcp_lib.Base.{
  ℕ, zero, suc, ◌-◌, ◌≤◌, ◌≡◌, refl, ap, ◌∙◌, arith, Bool, false, Option, none, some, List, [], ◌∷◌,
  if◌then◌else◌, ◌==◌, Text, text_eq, replicate, length, All, Bool-cases, inl, inr,
}
use elixir_mcp_lib.Tables.{
  ColumnSpec, TableSpec, position_from, attno, Cell, Row, empty_row, put, nth,
}
use elixir_mcp_lib.Tables.Catalog.{set}
use elixir_mcp_lib.Tables.Catalog.Conform.{Fits, Conforms}
use elixir_mcp_lib.Tables.ReadThrough.{put_all}

module _ {N F : Type 0} where
  -- The cell fits the first column of that name.
  abbrev pub FitsColumn : List ColumnSpec → Text → Option (Cell N F) → Type 0
  FitsColumn [] column cell = Unit
  FitsColumn (c ∷ cs) column cell =
      if text_eq c.name column then Fits c.pg_type cell else FitsColumn cs column cell

  abbrev put_at : Row N F → ℕ → Option ℕ → Option (Cell N F) → Row N F
  put_at row from none cell = row
  put_at row from (some index) cell = put row (index - from) cell

position_from-le :
    (from : ℕ) (cs : List ColumnSpec) (column : Text) (i : ℕ)
    → position_from from cs column ≡ some i
    → from ≤ i
position_from-le from [] column i h = cc
position_from-le from (c ∷ cs) column i h = elim (Bool-cases (text_eq c.name column)) [
  | inl here ↦ ground (arith, rw here at h)
  | inr other ↦ ground (arith, position_from-le (suc from) cs column i (rw other at h))
]

module _ {N F : Type 0} where
  -- the row with another cell in the first column of that name
  abbrev put_named : List ColumnSpec → Row N F → Text → Option (Cell N F) → Row N F
  put_named [] row column cell = row
  put_named (c ∷ cs) [] column cell = []
  put_named (c ∷ cs) (x ∷ row) column cell =
      let rest = put_named cs row column cell in
      if text_eq c.name column then cell ∷ row else x ∷ rest

  put_at_nil : (from : ℕ) (i : Option ℕ) (cell : Option (Cell N F)) → put_at [] from i cell ≡ []
  put_at_nil from none cell = refl
  put_at_nil from (some i) cell = refl

  put_at-suc :
      (from : ℕ) (i : Option ℕ) (x : Option (Cell N F)) (row : Row N F) (cell : Option (Cell N F))
      → ((j : ℕ) → i ≡ some j → suc from ≤ j)
      → put_at (x ∷ row) from i cell ≡ x ∷ put_at row (suc from) i cell
  put_at-suc from none x row cell h = refl
  put_at-suc from (some j) x row cell h =
      let below = h j refl in let e : j - from ≡ suc (j - suc from) = omega arith in rw e refl

  put_at-named :
      (from : ℕ) (cs : List ColumnSpec) (row : Row N F) (column : Text) (cell : Option (Cell N F))
      → put_at row from (position_from from cs column) cell ≡ put_named cs row column cell
  put_at-named from [] row column cell = refl
  put_at-named from (c ∷ cs) [] column cell =
      put_at_nil from (position_from from (c ∷ cs) column) cell
  put_at-named from (c ∷ cs) (x ∷ row) column cell = elim (Bool-cases (text_eq c.name column)) [
    | inl here ↦
        let e : from - from ≡ zero = omega arith in rw here (ap (λ i. put (x ∷ row) i cell) e)
    | inr other ↦ rw other (
        put_at-suc from (position_from (suc from) cs column) x row cell
          (λ j. position_from-le (suc from) cs column j)
        ∙ ap (λ r. x ∷ r) (put_at-named (suc from) cs row column cell))
  ]

  set-named :
      (spec : TableSpec) (row : Row N F) (column : Text) (cell : Option (Cell N F))
      → set spec row column cell ≡ put_named spec.columns row column cell
  unfolding set
  set-named spec row column cell =
      found (attno spec column) ∙ put_at-named 1 spec.columns row column cell
    where
      found :
          (i : Option ℕ)
          → ◌≡◌ {A = Row N F}
              (elim i [ none ↦ row | some index ↦ put row (index - 1) cell ])
              (put_at row 1 i cell)
      found none = refl
      found (some index) = refl

  Conforms-put_named :
      (cs : List ColumnSpec) (row : Row N F) (column : Text) (cell : Option (Cell N F))
      → Conforms cs row
      → FitsColumn cs column cell
      → Conforms cs (put_named cs row column cell)
  Conforms-put_named [] row column cell h fits = h
  Conforms-put_named (c ∷ cs) [] column cell h fits = h
  Conforms-put_named (c ∷ cs) (x ∷ row) column cell (hx, h) fits =
      elim (Bool-cases (text_eq c.name column)) [
        | inl here ↦ rw here (rw here at fits, h)
        | inr other ↦ rw other (hx, Conforms-put_named cs row column cell h (rw other at fits))
      ]

  Conforms-put_all :
      (spec : TableSpec) (row : Row N F) (cells : List (Text × Option (Cell N F)))
      → Conforms spec.columns row
      → All (λ (p : Text × Option (Cell N F)). FitsColumn spec.columns p.0 p.1) cells
      → Conforms spec.columns (put_all spec row cells)
  unfolding put_all
  Conforms-put_all spec row [] h fits = h
  Conforms-put_all spec row ((column, none) ∷ cells) h (_, fits) =
      Conforms-put_all spec row cells h fits
  Conforms-put_all spec row ((column, some c) ∷ cells) h (here, fits) =
      Conforms-put_all spec (set spec row column (some c)) cells
        (rw (set-named spec row column (some c))
          (Conforms-put_named spec.columns row column (some c) h here))
        fits

module _ (N F : Type 0) where
  Conforms-empty : (cs : List ColumnSpec) → Conforms {N = N} {F = F} cs (replicate (length cs) none)
  Conforms-empty [] = tt
  Conforms-empty (c ∷ cs) = (tt, Conforms-empty cs)

-- whether the number of a column is that of column `k`, counted from 0
abbrev pub is_at : Option ℕ → ℕ → Bool
is_at none k = false
is_at (some index) k = index - 1 == k

module _ {N F : Type 0} where
  -- A row that is filled with cells of the columns' types conforms.
  pub filled-Conforms :
      (spec : TableSpec) (cells : List (Text × Option (Cell N F)))
      → All (λ (p : Text × Option (Cell N F)). FitsColumn spec.columns p.0 p.1) cells
      → Conforms spec.columns (put_all spec (empty_row N F spec) cells)
  filled-Conforms spec cells fits =
      Conforms-put_all spec (empty_row N F spec) cells (Conforms-empty N F spec.columns) fits

  nth-put :
      (row : Row N F) (i k : ℕ) (cell : Option (Cell N F))
      → (i == k) ≡ false
      → nth (put row i cell) k ≡ nth row k
  nth-put [] i k cell h = refl
  nth-put (x ∷ row) zero zero cell h = absurd (ground arith)
  nth-put (x ∷ row) zero (suc k) cell h = refl
  nth-put (x ∷ row) (suc i) zero cell h = refl
  nth-put (x ∷ row) (suc i) (suc k) cell h = nth-put row i k cell (ground arith)

  nth-set :
      (spec : TableSpec) (row : Row N F) (column : Text) (cell : Option (Cell N F)) (k : ℕ)
      → is_at (attno spec column) k ≡ false
      → nth (set spec row column cell) k ≡ nth row k
  unfolding set
  nth-set spec row column cell k h = placed (attno spec column) h
    where
      placed :
          (i : Option ℕ)
          → is_at i k ≡ false
          → nth (elim i [ none ↦ row | some index ↦ put row (index - 1) cell ]) k ≡ nth row k
      placed none h = refl
      placed (some index) h = nth-put row (index - 1) k cell h

  -- Cells of other columns leave column `k` alone.
  nth-put_all :
      (spec : TableSpec) (row : Row N F) (cells : List (Text × Option (Cell N F))) (k : ℕ)
      → All (λ (p : Text × Option (Cell N F)). is_at (attno spec p.0) k ≡ false) cells
      → nth (put_all spec row cells) k ≡ nth row k
  unfolding put_all
  nth-put_all spec row [] k h = refl
  nth-put_all spec row ((column, none) ∷ cells) k (_, h) = nth-put_all spec row cells k h
  nth-put_all spec row ((column, some c) ∷ cells) k (apart, h) =
      nth-put_all spec (set spec row column (some c)) cells k h
      ∙ nth-set spec row column (some c) k apart

  -- A cell that is placed stays, when the cells behind it are of other columns.
  pub nth-placed :
      (spec : TableSpec) (row : Row N F) (column : Text) (c : Cell N F)
      (cells : List (Text × Option (Cell N F))) (k : ℕ)
      → All (λ (p : Text × Option (Cell N F)). is_at (attno spec p.0) k ≡ false) cells
      → nth (set spec row column (some c)) k ≡ some (some c)
      → nth (put_all spec row ((column, some c) ∷ cells)) k ≡ some (some c)
  unfolding put_all
  nth-placed spec row column c cells k apart here =
      nth-put_all spec (set spec row column (some c)) cells k apart ∙ here

  -- the cells behind the first, put into the row that has it
  pub nth-behind :
      (spec : TableSpec) (row : Row N F) (column : Text) (c : Cell N F)
      (cells : List (Text × Option (Cell N F))) (k : ℕ) (x : Option (Option (Cell N F)))
      → nth (put_all spec (set spec row column (some c)) cells) k ≡ x
      → nth (put_all spec row ((column, some c) ∷ cells)) k ≡ x
  unfolding put_all
  nth-behind spec row column c cells k x h = h
