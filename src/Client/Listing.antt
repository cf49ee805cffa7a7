-- ===== src/Client/Listing.antt =====
-- pg/pg_mcp/src/client.rs: the helper that follows the cursors of a paginated list.
use elixir_mcp_lib.Base.{
  ℕ, zero, suc, Option, none, some, List, [], ◌∷◌, ◌++◌, if◌then◌else◌, Text, codes, contains,
  to_string,
}
use elixir_mcp_lib.Json.{Value, string, array, object, get, items, insert_field}
use elixir_mcp_lib.Errors.{McpError, transport, ok, err}
use elixir_mcp_lib.Client.Wire.{Env}
use elixir_mcp_lib.Client.Session.{Exec, Transport, and_then, request}

abbrev pub max_list_pages : ℕ
max_list_pages = 1000

module _ {N : Type 0} where
  -- The items of a page, and the cursor of the next one.
  unfoldable pub page_items : Value N → Text → List (Value N) × Option Text
  page_items result array_key = (
    elim (get result array_key) [ none ↦ [] | some (array vs) ↦ items vs | some _ ↦ [] ],
    elim (get result (codes "nextCursor")) [
      | none ↦ none
      | some (string c) ↦ some c
      | some _ ↦ none
    ],
  )

  -- `if let Some(obj) = params.as_object_mut() { obj.insert("cursor", …) }`
  unfoldable pub with_cursor : Value N → Text → Value N
  with_cursor (object fs) cursor = object (insert_field fs (codes "cursor") (string cursor))
  with_cursor v cursor = v

pub too_many_pages : Text → McpError
too_many_pages method = transport (
    codes "MCP list method \""
    ++ method
    ++ codes "\" did not exhaust its cursor within "
    ++ to_string max_list_pages
    ++ codes " pages")

pub repeated_cursor : Text → McpError
repeated_cursor method =
    transport (codes "MCP list method \"" ++ method ++ codes "\" repeated pagination cursor")

module _ {N W : Type 0} (method : Text) where
  -- What the loop does with a page; `further` is the loop on the next one.
  unfoldable pub turn_page :
      List (Value N)
      → List Text
      → (List (Value N) → Text → Exec N W (List (Value N)))
      → List (Value N) × Option Text
      → Exec N W (List (Value N))
  unfolding repeated_cursor
  turn_page collected followed further (page, none) s = (ok (collected ++ page), s)
  turn_page collected followed further (page, some cursor) s =
      if contains followed cursor
      then (err (repeated_cursor method), s)
      else further (collected ++ page) cursor s

module _ {N W : Type 0} (ask : Value N → Exec N W (Value N)) (method array_key : Text) where
  -- `room` is `MAX_LIST_PAGES - followed.len()`: the guard at the head of the loop is `room = 0`.
  -- `followed` has the latest cursor first; it is only searched.
  unfoldable pub list_loop : ℕ → List (Value N) → List Text → Value N → Exec N W (List (Value N))
  unfolding too_many_pages turn_page
  list_loop zero collected followed params s = (err (too_many_pages method), s)
  list_loop (suc room) collected followed params s = and_then (ask params s) λ result.
      turn_page method collected followed
        (λ xs cursor. list_loop room xs (cursor ∷ followed) (with_cursor params cursor))
        (page_items result array_key)

module _ {N W : Type 0} (env : Env N W) (t : Transport) where
  unfoldable pub list_all : Text → Text → Value N → Exec N W (List (Value N))
  unfolding list_loop
  list_all method array_key params =
      list_loop (request env t method) method array_key max_list_pages [] [] params
