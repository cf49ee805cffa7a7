-- ===== src/Tables/ReadThrough/Sound/Contents.antt =====
-- The rows of `resource_contents`.
use elixir_mcp_lib.Base.{
  ℕ, suc, ◌≡◌, refl, Option, none, some, List, [], ◌∷◌, Text, codes, All, All-append, Option-cases,
  inl, inr, ◌>>=◌,
}
use elixir_mcp_lib.Json.{Value, string, object, field, end, get, as_str}
use elixir_mcp_lib.Quals.{Qual, Equality}
use elixir_mcp_lib.Client.Wire.{Env}
use elixir_mcp_lib.Codegen.Table.{ColumnType}
use elixir_mcp_lib.Tables.{Cell, Row, Numbers, as_json, ScanContext, empty_row}
use elixir_mcp_lib.Tables.Specs.{resource_contents_spec}
use elixir_mcp_lib.Tables.Catalog.{set}
use elixir_mcp_lib.Tables.Catalog.Conform.{Fits, Conforms, Fits-text_at, json_cell-Fits}
use elixir_mcp_lib.Tables.ReadThrough.{
  CtxResult, returned, raised, Store, restricted, put_all, ask, array_at,
}
use elixir_mcp_lib.Tables.ReadThrough.Base64.{base64_decode}
use elixir_mcp_lib.Tables.ReadThrough.Restricted.{IsEquivalence}
use elixir_mcp_lib.Tables.ReadThrough.Rows.{filled-Conforms, nth-placed}
use elixir_mcp_lib.Tables.ReadThrough.Resources.{
  decoded_cell, decoded_blob, blob_cell, content_cells, row_with, resource_content_row, row_then,
  content_rows, uris_to_read, unqualified_uris, read_uris, resource_contents_rows,
}
use elixir_mcp_lib.Tables.ReadThrough.Sound.{
  Given, returns, raises, Ensures, yields, stops, Ensures-give, Ensures-behind, Ensures-any,
  at_spec, IsAllowed, All-restricted, unrestricted, All-texts_of, Holds,
}

module _ {N F : Type 0} (eq : Equality N) (num : Numbers N F) where
  -- A row of the table, with a URI that the restrictions allow.
  abbrev pub IsContentRow : List (Qual N) → Row N F → Type 0
  IsContentRow quals row =
      Conforms resource_contents_spec.columns row × Holds eq num quals (codes "uri") row 0

  module _ (quals : List (Qual N)) (uri : Text)
      (ok_uri : IsAllowed eq quals (codes "uri") (string uri)) where
    Given-decoded_cell :
        (bytes : Option (List ℕ))
        → Given (Fits {N = N} {F = F} ColumnType.bytea) (decoded_cell uri bytes)
    Given-decoded_cell none = raises _
    Given-decoded_cell (some bytes) = returns _ refl

    Given-decoded_blob :
        (blob : Option Text) → Given (Fits {N = N} {F = F} ColumnType.bytea) (decoded_blob uri blob)
    Given-decoded_blob none = returns none tt
    Given-decoded_blob (some blob) = Given-decoded_cell (base64_decode blob)

    content_row :
        (idx : ℕ) (content : Value N) (blob : Option (Cell N F))
        → Fits ColumnType.bytea blob
        → IsContentRow quals (
            put_all resource_contents_spec
              (empty_row N F resource_contents_spec)
              (content_cells uri idx content blob))
    unfolding content_cells resource_contents_spec set as_json
    content_row idx content blob fits = (
      filled-Conforms resource_contents_spec (content_cells uri idx content blob) (
        refl,
        (
          refl,
          (
            Fits-text_at N F content (codes "mimeType"),
            (
              Fits-text_at N F content (codes "text"),
              (fits, (json_cell-Fits N F (get content (codes "_meta")), tt)),
            ),
          ),
        ),
      ),
      (
        Cell.text uri,
        nth-placed resource_contents_spec _ _ _ _ 0 (refl, (refl, (refl, (refl, (refl, tt))))) refl,
        ok_uri,
      ),
    )

    Given-row_with :
        (idx : ℕ) (content : Value N) (blob : CtxResult (Option (Cell N F)))
        → Given (Fits ColumnType.bytea) blob
        → Given (IsContentRow quals) (row_with resource_contents_spec uri idx content blob)
    Given-row_with idx content (returned blob) (returns b fits) =
        returns _ (content_row idx content b fits)
    Given-row_with idx content (raised e) (raises e') = raises e

    Given-row_then :
        (row : CtxResult (Row N F)) (rows : CtxResult (List (Row N F)))
        → Given (IsContentRow quals) row
        → Given (All (IsContentRow quals)) rows
        → Given (All (IsContentRow quals)) (row_then row rows)
    Given-row_then (raised e) rows h hs = raises e
    Given-row_then (returned row) (raised e) h hs = raises e
    Given-row_then (returned row) (returned rows) (returns r h) (returns rs hs) = returns _ (h, hs)

    Given-content_rows :
        (idx : ℕ) (contents : List (Value N))
        → Given (All (IsContentRow quals)) (content_rows resource_contents_spec uri idx contents)
    unfolding content_rows resource_content_row blob_cell
    Given-content_rows idx [] = returns [] tt
    Given-content_rows idx (content ∷ rest) =
        Given-row_then (resource_content_row resource_contents_spec uri idx content)
          (content_rows resource_contents_spec uri (suc idx) rest)
          (Given-row_with idx content (blob_cell uri content)
            (Given-decoded_blob (get content (codes "blob") >>= as_str)))
          (Given-content_rows (suc idx) rest)

module _ {N F W : Type 0} (env : Env N W) (eq : Equality N) (num : Numbers N F) where
  Ensures-read_uris :
      (ctx : ScanContext N) (uris : List Text) (s : Store N W)
      → All (λ u. IsAllowed eq ctx.quals (codes "uri") (string u)) uris
      → Ensures
          (All (IsContentRow eq num ctx.quals))
          (read_uris env eq (at_spec resource_contents_spec ctx) uris s)
  unfolding read_uris
  Ensures-read_uris ctx [] s h = yields [] s tt
  Ensures-read_uris ctx (uri ∷ uris) s (here, h) =
      let P = IsContentRow eq num ctx.quals in
      Ensures-behind _ (All P)
        {m = ask env ctx.base.resolved (codes "resources/read")
          (object (field (codes "uri") (string uri) end)) s}
        _ (Ensures-any _)
        λ result s1 _.
          Ensures-behind (All P) (All P) _
            (Ensures-give (All P) s1
              (Given-content_rows eq num ctx.quals uri here 0 (array_at result (codes "contents"))))
            λ rows s2 hr.
              Ensures-behind (All P) (All P) _ (Ensures-read_uris ctx uris s2 h)
                λ rest s3 hs. yields _ s3 (All-append P rows rest hr hs)

  module _ (e : IsEquivalence eq) where
    Ensures-uris_to_read :
        (ctx : ScanContext N) (s : Store N W)
        → Ensures
            (All (λ u. IsAllowed eq ctx.quals (codes "uri") (string u)))
            (uris_to_read env eq ctx s)
    unfolding uris_to_read
    Ensures-uris_to_read ctx s = elim (Option-cases (restricted eq ctx.quals (codes "uri"))) [
      | inl free ↦ rw (free, uris_to_read) (all_allowed free (unqualified_uris env eq ctx s))
      | inr (values, found) ↦
          rw (found, uris_to_read)
            (yields _ s (
              All-texts_of (IsAllowed eq ctx.quals (codes "uri")) values
                (All-restricted eq e ctx.quals (codes "uri") values found)))
    ]
      where
        every :
            restricted eq ctx.quals (codes "uri") ≡ none
            → (uris : List Text) → All (λ u. IsAllowed eq ctx.quals (codes "uri") (string u)) uris
        every free [] = tt
        every free (u ∷ us) =
            (unrestricted eq e ctx.quals (codes "uri") (string u) free, every free us)

        all_allowed :
            restricted eq ctx.quals (codes "uri") ≡ none
            → (m : CtxResult (List Text) × Store N W)
            → Ensures (All (λ u. IsAllowed eq ctx.quals (codes "uri") (string u))) m
        all_allowed free (returned us, t) = yields us t (every free us)
        all_allowed free (raised x, t) = stops x t

    pub Ensures-contents :
        (ctx : ScanContext N) (s : Store N W)
        → Ensures
            (All (IsContentRow eq num ctx.quals))
            (resource_contents_rows env eq (at_spec resource_contents_spec ctx) s)
    unfolding resource_contents_rows
    Ensures-contents ctx s =
        let P = IsContentRow eq num ctx.quals in
        Ensures-behind (All (λ u. IsAllowed eq ctx.quals (codes "uri") (string u))) (All P) _
          (Ensures-uris_to_read (at_spec resource_contents_spec ctx) s)
          λ uris s1 h. Ensures-read_uris ctx uris s1 h
