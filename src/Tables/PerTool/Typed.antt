-- ===== src/Tables/PerTool/Typed.antt =====
-- The rows of the table of a tool fit the columns that CREATE FOREIGN TABLE declares.
use elixir_mcp_lib.Base.{
  map-append, ◌≡◌, refl, Bool, false, Option, none, some, List, [], ◌∷◌, ◌++◌, map, Text, replicate,
  length, All,
}
use elixir_mcp_lib.Json.{Value, null, get}
use elixir_mcp_lib.Errors.{McpError}
use elixir_mcp_lib.Codegen.Table.{ColumnType, Column, PlannedTool, output_columns, table_columns}
use elixir_mcp_lib.Tables.{Cell, Row, bool, int4, int8, uuid, timestamp_tz, float8, date}
use elixir_mcp_lib.Tables.Catalog.Conform.{Fits, type_of}
use elixir_mcp_lib.Tables.PerTool.{
  ◌>>=◌ as bound, Outcome, done, refused, thrown, Input, datum, no_datum, raises, Reader,
  type_error, cell_or, read_or, typed_cell, json_to_cell, ToolState,
}
use elixir_mcp_lib.Tables.PerTool.Shape.{
  or_no_cell, cell_at, cells_of, content_cell, shape_row, element_rows, one_row,
}
use elixir_mcp_lib.Tables.PerTool.Scan.{and_then}

-- A result that there is satisfies `P`.
pub data Gives {ℓ κ} {A : Type ℓ} (P : A → Type κ) : Outcome A → Type (ℓ ⊔ κ) where
  gives : (a : A) → P a → Gives P (done a)
  refuses : (e : McpError) → Gives P (refused e)
  throws : Gives P thrown

pub Gives-bind :
    {A B : Type 0} (P : A → Type 0) (Q : B → Type 0) {m : Outcome A} (f : A → Outcome B)
    → Gives P m
    → ((a : A) → P a → Gives Q (f a))
    → Gives Q (bound m f)
Gives-bind P Q f (gives a p) next = next a p
Gives-bind P Q f (refuses e) next = refuses e
Gives-bind P Q f throws next = throws

pub Gives-and_then :
    {N W A B : Type 0} (Q : B → Type 0) (m : Outcome A × ToolState N W)
    (f : A → ToolState N W → Outcome B × ToolState N W)
    → ((a : A) (s : ToolState N W) → m ≡ (done a, s) → Gives Q (f a s).0)
    → Gives Q (and_then m f).0
unfolding and_then
Gives-and_then Q (done a, s) f next = next a s refl
Gives-and_then Q (refused e, s) f next = refuses e
Gives-and_then Q (thrown, s) f next = throws

module _ {N F : Type 0} where
  -- A cell for each type, and each fits.
  abbrev pub FitAll : List ColumnType → Row N F → Type 0
  FitAll [] [] = Unit
  FitAll [] (c ∷ cs) = ⊥
  FitAll (t ∷ ts) [] = ⊥
  FitAll (t ∷ ts) (c ∷ cs) = Fits t c × FitAll ts cs

  FitAll-append :
      (ts us : List ColumnType) (cs ds : Row N F)
      → FitAll ts cs
      → FitAll us ds
      → FitAll (ts ++ us) (cs ++ ds)
  FitAll-append [] us [] ds h k = k
  FitAll-append [] us (c ∷ cs) ds h k = absurd h
  FitAll-append (t ∷ ts) us [] ds h k = absurd h
  FitAll-append (t ∷ ts) us (c ∷ cs) ds (here, h) k = (here, FitAll-append ts us cs ds h k)

module _ (N F : Type 0) where
  pub FitAll-replicate :
      (cols : List Column)
      → FitAll {N = N} {F = F} (map (λ c. c.pg_type) cols) (replicate (length cols) none)
  FitAll-replicate [] = tt
  FitAll-replicate (c ∷ cols) = (tt, FitAll-replicate cols)

-- the types of the columns of the tool's table, in the order of its definition
abbrev pub row_types : PlannedTool → List ColumnType
row_types tool =
    map (λ c. c.pg_type) (table_columns tool) ++ ColumnType.jsonb ∷ ColumnType.boolean ∷ []

module _ {N F : Type 0} where
  abbrev pub IsToolRow : PlannedTool → Row N F → Type 0
  IsToolRow tool row = FitAll (row_types tool) row

  -- Rows of the tool, at least one.
  abbrev pub AreToolRows : PlannedTool → List (Row N F) → Type 0
  AreToolRows tool [] = ⊥
  AreToolRows tool (row ∷ rows) = IsToolRow tool row × All (IsToolRow tool) rows

module _ {N F : Type 0} (reader : Reader N F) where
  content_cell-Fits : (o : Option (Value N)) → Fits {F = F} ColumnType.jsonb (content_cell reader o)
  content_cell-Fits none = tt
  content_cell-Fits (some v) = refl

  Gives-cell_or :
      {A : Type 0} (ty : ColumnType) (f : A → Cell N F) (v : Value N) (column expected : Text)
      (o : Option A)
      → ((a : A) → type_of (f a) ≡ ty)
      → Gives (Fits ty) (cell_or reader f (type_error reader v column expected) o)
  unfolding type_error
  Gives-cell_or ty f v column expected none h = refuses _
  Gives-cell_or ty f v column expected (some a) h = gives _ (h a)

  Gives-read_or :
      {A : Type 0} (ty : ColumnType) (f : A → Cell N F) (v : Value N) (column expected : Text)
      (o : Option (Input A))
      → ((a : A) → type_of (f a) ≡ ty)
      → Gives (Fits ty) (read_or reader f (type_error reader v column expected) o)
  unfolding type_error
  Gives-read_or ty f v column expected none h = refuses _
  Gives-read_or ty f v column expected (some (datum a)) h = gives _ (h a)
  Gives-read_or ty f v column expected (some no_datum) h = refuses _
  Gives-read_or ty f v column expected (some raises) h = throws

  Gives-typed_cell :
      (v : Value N) (ty : ColumnType) (column : Text)
      → Gives (Fits ty) (typed_cell reader v ty column)
  unfolding typed_cell
  Gives-typed_cell v ColumnType.text column = gives _ refl
  Gives-typed_cell v ColumnType.jsonb column = gives _ refl
  Gives-typed_cell v ColumnType.boolean column = Gives-cell_or _ bool v column _ _ λ a. refl
  Gives-typed_cell v ColumnType.int4 column = Gives-cell_or _ int4 v column _ _ λ a. refl
  Gives-typed_cell v ColumnType.int8 column = Gives-cell_or _ int8 v column _ _ λ a. refl
  Gives-typed_cell v ColumnType.float8 column = Gives-cell_or _ float8 v column _ _ λ a. refl
  Gives-typed_cell v ColumnType.uuid column = Gives-read_or _ uuid v column _ _ λ a. refl
  Gives-typed_cell v ColumnType.timestamp_tz column =
      Gives-read_or _ timestamp_tz v column _ _ λ a. refl
  Gives-typed_cell v ColumnType.date column = Gives-read_or _ (λ u. date _) v column _ _ λ a. refl
  Gives-typed_cell v ColumnType.bytea column = unfold type_error in refuses _

  Gives-or_no_cell :
      (ty : ColumnType) (o : Outcome (Option (Cell N F)))
      → Gives (Fits ty) o
      → Gives (Fits ty) (or_no_cell reader o)
  Gives-or_no_cell ty (done c) (gives c' h) = gives _ h
  Gives-or_no_cell ty (refused e) h = gives none tt
  Gives-or_no_cell ty thrown h = throws

  Gives-json_to_cell :
      (v : Value N) (ty : ColumnType) (column : Text)
      → Gives (Fits ty) (json_to_cell reader v ty column)
  unfolding json_to_cell
  Gives-json_to_cell null ty column = gives none tt
  Gives-json_to_cell (Value.boolean b) ty column = Gives-typed_cell (Value.boolean b) ty column
  Gives-json_to_cell (Value.number n) ty column = Gives-typed_cell (Value.number n) ty column
  Gives-json_to_cell (Value.string s) ty column = Gives-typed_cell (Value.string s) ty column
  Gives-json_to_cell (Value.array vs) ty column = Gives-typed_cell (Value.array vs) ty column
  Gives-json_to_cell (Value.object fs) ty column = Gives-typed_cell (Value.object fs) ty column

  Gives-cell_at :
      (o : Option (Value N)) (col : Column) → Gives (Fits col.pg_type) (cell_at reader o col)
  Gives-cell_at none col = gives none tt
  Gives-cell_at (some v) col =
      Gives-or_no_cell col.pg_type _ (Gives-json_to_cell v col.pg_type col.sql_name)

  pub Gives-cells_of :
      (find : Text → Option (Value N)) (cols : List Column)
      → Gives (FitAll (map (λ c. c.pg_type) cols)) (cells_of reader find cols)
  unfolding cells_of
  Gives-cells_of find [] = gives [] tt
  Gives-cells_of find (col ∷ cols) =
      let ts = map (λ (c : Column). c.pg_type) cols in
      Gives-bind (Fits col.pg_type) (FitAll (col.pg_type ∷ ts)) _
        (Gives-cell_at (find col.property) col)
        λ c h.
          Gives-bind (FitAll ts) (FitAll (col.pg_type ∷ ts)) _ (Gives-cells_of find cols)
            λ cs hs. gives _ (h, hs)

  pub Gives-shape_row :
      (tool : PlannedTool) (arguments : Value N) (outputs : Row N F) (is_error : Bool)
      (content : Option (Value N))
      → FitAll (map (λ c. c.pg_type) (output_columns tool)) outputs
      → Gives (IsToolRow tool) (shape_row reader tool arguments outputs is_error content)
  unfolding shape_row table_columns
  Gives-shape_row tool arguments outputs is_error content fit =
      let ts = map (λ (c : Column). c.pg_type) tool.inputs in
      let us = map (λ (c : Column). c.pg_type) (output_columns tool) in
      let tail = ColumnType.jsonb ∷ ColumnType.boolean ∷ [] in
      Gives-bind (FitAll ts) (IsToolRow tool) _ (Gives-cells_of (get arguments) tool.inputs)
        λ echo h. gives _ (
          rw (map-append (λ (c : Column). c.pg_type) tool.inputs (output_columns tool)) (
            FitAll-append (ts ++ us) tail (echo ++ outputs) _
              (FitAll-append ts us echo outputs h fit) (content_cell-Fits content, (refl, tt))))

  pub Gives-one_row :
      (tool : PlannedTool) (row : Outcome (Row N F))
      → Gives (IsToolRow tool) row
      → Gives (AreToolRows tool) (one_row reader row)
  Gives-one_row tool row h =
      Gives-bind (IsToolRow tool) (AreToolRows tool) _ h λ r p. gives _ (p, tt)

  pub Gives-element_rows :
      (tool : PlannedTool) (arguments : Value N) (columns : List Column)
      (content : Option (Value N)) (elements : List (Value N))
      → output_columns tool ≡ columns
      → Gives (All (IsToolRow tool)) (element_rows reader tool arguments columns content elements)
  unfolding element_rows
  Gives-element_rows tool arguments columns content [] e = gives [] tt
  Gives-element_rows tool arguments columns content (element ∷ elements) e =
      Gives-bind (FitAll (map (λ c. c.pg_type) columns)) (All (IsToolRow tool)) _
        (Gives-cells_of (get element) columns)
        λ cells hc.
          Gives-bind (IsToolRow tool) (All (IsToolRow tool)) _
            (Gives-shape_row tool arguments cells false content (rw e hc))
            λ row hr.
              Gives-bind (All (IsToolRow tool)) (All (IsToolRow tool)) _
                (Gives-element_rows tool arguments columns content elements e)
                λ rows hs. gives _ (hr, hs)

  -- the rows of elements that are there
  pub Gives-some_elements :
      (tool : PlannedTool) (arguments : Value N) (columns : List Column)
      (content : Option (Value N)) (element : Value N) (elements : List (Value N))
      → output_columns tool ≡ columns
      → Gives
          (AreToolRows tool)
          (element_rows reader tool arguments columns content (element ∷ elements))
  unfolding element_rows
  Gives-some_elements tool arguments columns content element elements e =
      Gives-bind (FitAll (map (λ c. c.pg_type) columns)) (AreToolRows tool) _
        (Gives-cells_of (get element) columns)
        λ cells hc.
          Gives-bind (IsToolRow tool) (AreToolRows tool) _
            (Gives-shape_row tool arguments cells false content (rw e hc))
            λ row hr.
              Gives-bind (All (IsToolRow tool)) (AreToolRows tool) _
                (Gives-element_rows tool arguments columns content elements e)
                λ rows hs. gives _ (hr, hs)
