-- ===== src/Tables/PerTool/Returned.antt =====
-- What a scan of the table of a tool and an insert into it return.
use mathlib.Core.Path.{subst}
use elixir_mcp_lib.Base.{
  ℕ, ◌≡◌, ◌∙◌, refl, ap, Bool, true, false, Option, List, [], ◌∷◌, map, Text, codes, All,
  Bool-cases, inl, inr,
}
use elixir_mcp_lib.Json.{Value, object, get}
use elixir_mcp_lib.Quals.{Equality}
use elixir_mcp_lib.Client.Wire.{Env}
use elixir_mcp_lib.Client.Content.{is_error_result}
use elixir_mcp_lib.Codegen.Table.{
  Column, OutputShape, no_output, element_of, single, PlannedTool, output_columns, columns_of,
}
use elixir_mcp_lib.Tables.{Row, Numbers}
use elixir_mcp_lib.Tables.Catalog.Filters.{filter}
use elixir_mcp_lib.Tables.PerTool.{
  Outcome, done, refused, thrown, Reader, PerToolContext, ToolState,
}
use elixir_mcp_lib.Tables.PerTool.Filtered.{Respects, post_filter-Respects}
use elixir_mcp_lib.Tables.PerTool.Shape.{
  elements_in, get_in, null_outputs, rows_of_elements, shaped, shape_result, shape_row, one_row,
}
use elixir_mcp_lib.Tables.PerTool.Scan.{
  resolve_tool, invoke_and_shape, scan_tool, begin_scan, first_or_empty, insert_tool_row,
  insert_row,
}
use elixir_mcp_lib.Tables.PerTool.Typed.{
  Gives, gives, Gives-bind, Gives-and_then, FitAll, FitAll-replicate, IsToolRow, AreToolRows,
  Gives-cells_of, Gives-shape_row, Gives-one_row, Gives-some_elements,
}

module _ {N F : Type 0} (reader : Reader N F) where
  Gives-null_row :
      (tool : PlannedTool) (arguments : Value N) (is_error : Bool) (content : Option (Value N))
      → Gives (AreToolRows tool) (
          one_row reader
            (shape_row reader tool arguments (null_outputs reader tool) is_error content))
  Gives-null_row tool arguments is_error content = Gives-one_row reader tool _ (
      Gives-shape_row reader tool arguments _ is_error content
        (FitAll-replicate N F (output_columns tool)))

  Gives-rows_of_elements :
      (tool : PlannedTool) (arguments : Value N) (columns : List Column)
      (content : Option (Value N)) (elements : List (Value N))
      → output_columns tool ≡ columns
      → Gives (AreToolRows tool) (rows_of_elements reader tool arguments columns content elements)
  Gives-rows_of_elements tool arguments columns content [] e =
      Gives-null_row tool arguments false content
  Gives-rows_of_elements tool arguments columns content (element ∷ elements) e =
      Gives-some_elements reader tool arguments columns content element elements e

  Gives-shaped :
      (tool : PlannedTool) (arguments : Value N) (content structured : Option (Value N))
      (output : OutputShape)
      → output_columns tool ≡ columns_of output
      → Gives (AreToolRows tool) (shaped reader tool arguments content structured output)
  unfolding shaped
  Gives-shaped tool arguments content structured (element_of property columns) e =
      Gives-rows_of_elements tool arguments columns content
        (elements_in reader (get_in reader structured property)) e
  Gives-shaped tool arguments content structured (single columns) e = Gives-one_row reader tool _ (
      Gives-bind (FitAll (map (λ c. c.pg_type) columns)) (IsToolRow tool) _
        (Gives-cells_of reader (get_in reader structured) columns)
        λ cells h. Gives-shape_row reader tool arguments cells false content (rw e h))
  Gives-shaped tool arguments content structured no_output e =
      Gives-one_row reader tool _ (Gives-shape_row reader tool arguments [] false content (rw e tt))

  Gives-shape_result :
      (tool : PlannedTool) (arguments result : Value N)
      → Gives (AreToolRows tool) (shape_result reader tool arguments result)
  unfolding shape_result
  Gives-shape_result tool arguments result = elim (Bool-cases (is_error_result result)) [
    | inl failed ↦
        rw (failed, shape_result)
          (Gives-null_row tool arguments true (get result (codes "content")))
    | inr fine ↦
        rw (fine, shape_result)
          (Gives-shaped tool arguments (get result (codes "content"))
            (get result (codes "structuredContent")) tool.output (unfold output_columns in refl))
  ]

-- All rows that pass a filter have what passing it means, and keep what all rows have.
All-filter :
    {A : Type 0} (P Q : A → Type 0) (p : A → Bool) (xs : List A)
    → ((x : A) → p x ≡ true → Q x)
    → All P xs
    → All (λ x. P x × Q x) (filter p xs)
All-filter P Q p [] sound h = tt
All-filter P Q p (x ∷ xs) sound (here, h) = elim (Bool-cases (p x)) [
  | inl stays ↦ rw stays ((here, sound x stays), All-filter P Q p xs sound h)
  | inr goes ↦ rw goes (All-filter P Q p xs sound h)
]

All-AreToolRows :
    {N F : Type 0} (tool : PlannedTool) (rows : List (Row N F))
    → AreToolRows tool rows
    → All (IsToolRow tool) rows
All-AreToolRows tool [] h = tt
All-AreToolRows tool (row ∷ rows) h = h

module _ {N F W : Type 0} (env : Env N W) (reader : Reader N F) where
  Gives-invoke_and_shape :
      (ctx : PerToolContext N) (tool : PlannedTool) (arguments : Value N) (s : ToolState N W)
      → Gives (AreToolRows tool) (invoke_and_shape env reader ctx tool arguments s).0
  unfolding invoke_and_shape
  Gives-invoke_and_shape ctx tool arguments s =
      Gives-and_then (AreToolRows tool) _ _
        λ result s2 h. Gives-shape_result reader tool arguments result

  Gives-invoked :
      (ctx : PerToolContext N) (tool : PlannedTool) (arguments : Value N) (s s2 : ToolState N W)
      (rows : List (Row N F))
      → invoke_and_shape env reader ctx tool arguments s ≡ (done rows, s2)
      → AreToolRows tool rows
  Gives-invoked ctx tool arguments s s2 rows h =
      given (invoke_and_shape env reader ctx tool arguments s).0
        (Gives-invoke_and_shape ctx tool arguments s)
        (ap (λ (m : Outcome (List (Row N F)) × ToolState N W). m.0) h)
    where
      given :
          (o : Outcome (List (Row N F)))
          → Gives (AreToolRows tool) o
          → o ≡ done rows
          → AreToolRows tool rows
      given (done rs) (gives rs' h) e = subst (AreToolRows tool) (done_eq e) h
        where
          done_eq : ◌≡◌ {A = Outcome (List (Row N F))} (done rs) (done rows) → rs ≡ rows
          done_eq e = cc
      given (refused x) h e = cc
      given thrown h e = cc

module _ {N F W : Type 0} (env : Env N W) (to_lowercase : Text → Text) (render : Value N → Text)
    (reader : Reader N F) (now later : ℕ) where
  -- The tool was resolved to `tool`.
  abbrev pub Resolves : PerToolContext N → ToolState N W → PlannedTool → Type 0
  Resolves ctx s tool = (resolve_tool env to_lowercase render now later ctx s).0 ≡ done tool

  -- The rows of a scan: of the resolved tool, each as its restrictions ask.
  abbrev pub AreScanned :
      Equality N → Numbers N F → PerToolContext N → ToolState N W → List (Row N F) → Type 0
  AreScanned eq num ctx s rows =
      (tool : PlannedTool) × Resolves ctx s tool
      × All (λ row. IsToolRow tool row × All (Respects eq num tool row) ctx.quals) rows

  -- Each row that a scan returns has one cell for each column of the table that is declared for the
  -- tool as the server lists it now, of the column's type. For each restriction one of these holds: it
  -- is an equality on an input column; or the row has no output, content or error cell of its name (so a
  -- set of values for an input column alone is passed over); or the first such cell equals one of the
  -- values that the restriction lists.
  pub begin_scan-AreScanned :
      (eq : Equality N) (num : Numbers N F) (ctx : PerToolContext N) (s : ToolState N W)
      → Gives
          (AreScanned eq num ctx s)
          (begin_scan env to_lowercase render reader now later eq num ctx s).0
  unfolding begin_scan scan_tool
  begin_scan-AreScanned eq num ctx s = Gives-and_then (AreScanned eq num ctx s) _ _ λ u s1 opened.
      Gives-and_then (AreScanned eq num ctx s) _ _ λ tool s2 resolved.
        Gives-and_then (AreScanned eq num ctx s) _ _ λ fs s3 bound.
          Gives-and_then (AreScanned eq num ctx s) _ _ λ rows s4 invoked. gives _ (
            tool,
            ap (λ t. (resolve_tool env to_lowercase render now later ctx t).0)
                  (ap (λ (m : Outcome (Unit {0}) × ToolState N W). m.1) opened)
                ∙ ap (λ (m : Outcome PlannedTool × ToolState N W). m.0) resolved,
            All-filter (IsToolRow tool) (λ row. All (Respects eq num tool row) ctx.quals) _ rows
                (post_filter-Respects eq num tool ctx.quals)
                (All-AreToolRows tool rows
                  (Gives-invoked env reader ctx tool (object fs) s3 s4 rows invoked)),
          )

  -- An inserted row comes back whole: with one cell for each column of the tool's table, of the column's
  -- type. The empty row that stands for a missing one is never returned.
  pub insert_row-IsToolRow :
      (ctx : PerToolContext N) (supplied : List (Text × Option (Value N))) (s : ToolState N W)
      → Gives
          (λ row.
            (tool : PlannedTool) × Resolves (record ctx { quals = [] }) s tool × IsToolRow tool row)
          (insert_row env to_lowercase render reader now later ctx supplied s).0
  unfolding insert_row insert_tool_row
  insert_row-IsToolRow ctx supplied s = Gives-and_then _ _ _ λ tool s2 resolved.
      Gives-and_then _ _ _ λ fs s3 bound. Gives-and_then _ _ _ λ rows s4 invoked. gives _ (
        tool,
        ap (λ (m : Outcome PlannedTool × ToolState N W). m.0) resolved,
        first_row tool rows (
            Gives-invoked env reader (record ctx { quals = [] }) tool (object fs) s3 s4 rows
              invoked),
      )
    where
      first_row :
          (tool : PlannedTool) (rows : List (Row N F))
          → AreToolRows tool rows
          → IsToolRow tool (first_or_empty env reader rows)
      first_row tool [] h = absurd h
      first_row tool (row ∷ rows) (here, _) = here
