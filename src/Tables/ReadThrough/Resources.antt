-- ===== src/Tables/ReadThrough/Resources.antt =====
-- pg/pg_mcp/src/tables/readthrough.rs: the table `resource_contents`.
use elixir_mcp_lib.Base.{
  ℕ, suc, ◌<◌, Bool, true, Option, none, some, List, [], ◌∷◌, ◌++◌, if◌then◌else◌, ltb, Text, codes,
  length, ℤ, pos, negsuc, int_eq, int_to_string, to_string, map,
}
use elixir_mcp_lib.Base
use elixir_mcp_lib.Json.{Value, string, object, end, field, get, as_str}
use elixir_mcp_lib.Errors.{too_many_arguments, invalid_params}
use elixir_mcp_lib.Quals.{Equality}
use elixir_mcp_lib.Client.Wire.{Env}
use elixir_mcp_lib.Tables.{TableSpec, Cell, text, int4, bytea, Row, empty_row, as_i32, ScanContext}
use elixir_mcp_lib.Tables.Catalog.{text_at, json_cell}
use elixir_mcp_lib.Tables.ReadThrough.{
  CtxError, CtxResult, returned, raised, feature, Fetch, give, ◌>>=◌, dedupe, restricted, texts_of,
  array_at, put_all, ask, ask_list, BufferedCursor, buffered,
}
use elixir_mcp_lib.Tables.ReadThrough.Base64.{base64_decode}

abbrev pub unqualified_resource_contents : Text
unqualified_resource_contents =
    codes
      "unqualified scan of mcp.resource_contents requires a uri qual or max_unqualified_reads > 0"

abbrev pub too_many_uris : ℕ → ℤ → CtxError
too_many_uris count cap = record {
  error = too_many_arguments (
      codes "unqualified scan of mcp.resource_contents would read "
      ++ (to_string count
          ++ (codes " distinct URIs, exceeding max_unqualified_reads = " ++ int_to_string cap)));
  method = codes "resources/read";
}

-- `count as i64 > cap`
abbrev pub exceeds : ℕ → ℤ → Bool
exceeds count (pos n) = ltb n count
exceeds count (negsuc n) = true

abbrev pub bad_blob : Text → CtxError
bad_blob uri = record {
  error = invalid_params (
      codes "resource_contents: the server's blob for uri \""
      ++ (uri ++ codes "\" is not valid base64"));
  method = codes "resources/read";
}

module _ {N : Type 0} where
  -- the `uri` of each listed resource that has one
  unfoldable pub uris_of : List (Value N) → List Text
  uris_of [] = []
  uris_of (item ∷ listed) =
      let rest = uris_of listed in
      elim (get item (codes "uri")) [
        | none ↦ rest
        | some v ↦ elim (as_str v) [ none ↦ rest | some u ↦ u ∷ rest ]
      ]

module _ {N : Type 0} (eq : Equality N) where
  -- the distinct URIs among those listed
  unfoldable pub distinct_uris : List (Value N) → List Text
  unfolding uris_of dedupe texts_of
  distinct_uris listed = texts_of (dedupe eq (map string (uris_of listed)))

-- the test of the cap on what is left to read
unfoldable pub capped : ℤ → List Text → CtxResult (List Text)
capped cap distinct =
    if exceeds (length distinct) cap
    then raised (too_many_uris (length distinct) cap)
    else returned distinct

module _ {N W : Type 0} (env : Env N W) (eq : Equality N) where
  unfoldable pub unqualified_uris : ScanContext N → Fetch N W (List Text)
  unfolding feature ask_list distinct_uris capped
  unqualified_uris ctx s =
      let cap = ctx.base.resolved.options.max_unqualified_reads in
      if int_eq cap (pos 0)
      then (raised (feature unqualified_resource_contents (codes "resources/list")), s)
      else (ask_list env ctx.base.resolved (codes "resources/list") (codes "resources") (object end)
            >>= (λ listed. give (capped cap (distinct_uris eq listed))))
          s

  -- the keys of the requests
  unfoldable pub uris_to_read : ScanContext N → Fetch N W (List Text)
  unfolding restricted unqualified_uris texts_of
  uris_to_read ctx s = elim (restricted eq ctx.quals (codes "uri")) [
    | none ↦ unqualified_uris ctx s
    | some values ↦ (returned (texts_of values), s)
  ]

module _ {N F : Type 0} where
  abbrev pub decoded_cell : Text → Option (List ℕ) → CtxResult (Option (Cell N F))
  decoded_cell uri none = raised (bad_blob uri)
  decoded_cell uri (some bytes) = returned (some (bytea bytes))

  -- the bytes of a `blob` that is a text
  abbrev pub decoded_blob : Text → Option Text → CtxResult (Option (Cell N F))
  decoded_blob uri none = returned none
  decoded_blob uri (some blob) = decoded_cell uri (base64_decode blob)

  unfoldable pub blob_cell : Text → Value N → CtxResult (Option (Cell N F))
  unfolding base64_decode
  blob_cell uri content = decoded_blob uri (Base.◌>>=◌ (get content (codes "blob")) as_str)

  unfoldable pub content_cells :
      Text → ℕ → Value N → Option (Cell N F) → List (Text × Option (Cell N F))
  unfolding text_at
  content_cells uri idx content blob =
      (codes "uri", some (text uri))
      ∷ (codes "idx", some (int4 (as_i32 idx)))
      ∷ (codes "mime_type", text_at content (codes "mimeType"))
      ∷ (codes "text", text_at content (codes "text"))
      ∷ (codes "blob", blob)
      ∷ (codes "meta", json_cell (get content (codes "_meta")))
      ∷ []

  abbrev pub row_with :
      TableSpec → Text → ℕ → Value N → CtxResult (Option (Cell N F)) → CtxResult (Row N F)
  row_with spec uri idx content (raised e) = raised e
  row_with spec uri idx content (returned blob) =
      returned (put_all spec (empty_row N F spec) (content_cells uri idx content blob))

  unfoldable pub resource_content_row : TableSpec → Text → ℕ → Value N → CtxResult (Row N F)
  unfolding blob_cell put_all content_cells
  resource_content_row spec uri idx content = row_with spec uri idx content (blob_cell uri content)

  -- a row in front of those of the rest, or the first error
  abbrev pub row_then :
      CtxResult (Row N F) → CtxResult (List (Row N F)) → CtxResult (List (Row N F))
  row_then (raised e) rest = raised e
  row_then (returned row) (raised e) = raised e
  row_then (returned row) (returned rows) = returned (row ∷ rows)

  unfoldable pub content_rows : TableSpec → Text → ℕ → List (Value N) → CtxResult (List (Row N F))
  unfolding resource_content_row
  content_rows spec uri idx [] = returned []
  content_rows spec uri idx (content ∷ rest) =
      row_then (resource_content_row spec uri idx content) (content_rows spec uri (suc idx) rest)

module _ {N F W : Type 0} (env : Env N W) (eq : Equality N) where
  -- the loop over the URIs
  unfoldable pub read_uris : ScanContext N → List Text → Fetch N W (List (Row N F))
  unfolding ask array_at content_rows
  read_uris ctx [] s = (returned [], s)
  read_uris ctx (uri ∷ uris) s =
      (do
        result ←
            ask env ctx.base.resolved (codes "resources/read")
              (object (field (codes "uri") (string uri) end))
        rows ← give (content_rows ctx.base.spec uri 0 (array_at result (codes "contents")))
        rest ← read_uris ctx uris
        give (returned (rows ++ rest)))
        s

  unfoldable pub resource_contents_rows : ScanContext N → Fetch N W (List (Row N F))
  unfolding uris_to_read read_uris
  resource_contents_rows ctx = do uris ← uris_to_read env eq ctx; read_uris ctx uris

  -- `begin_scan`; an error is raised with the server's name and the method
  unfoldable pub resource_contents_scan : ScanContext N → Fetch N W (BufferedCursor (Row N F))
  unfolding resource_contents_rows buffered
  resource_contents_scan ctx = do rows ← resource_contents_rows ctx; give (returned (buffered rows))
