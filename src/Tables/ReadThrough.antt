-- ===== src/Tables/ReadThrough.antt =====
-- pg/pg_mcp/src/tables/readthrough.rs: the tables that send one request for each row key.
-- A request runs in `with_session`; what it leaves is the sessions and the world behind the server.
pub mod Base64
pub mod Decoded
pub mod Restricted
pub mod Resources
pub mod Prompts
pub mod Completions
pub mod Traffic
pub mod Rows
pub mod Sound
mod Tests
use elixir_mcp_lib.Base.{
  ℕ, suc, ◌+◌, Bool, true, false, Option, none, some, List, [], ◌∷◌, ◌++◌, if◌then◌else◌, ltb, Text,
  text_eq, codes, length, not,
}
use elixir_mcp_lib.Json.{Value, get, as_str, as_array}
use elixir_mcp_lib.Errors.{McpError, feature_not_supported, McpResult, ok, err}
use elixir_mcp_lib.Quals.{Qual, Equality, restricted_values, contains_value}
use elixir_mcp_lib.Client.Wire.{Env}
use elixir_mcp_lib.Client.Session.{McpSession, Transport, State, request}
use elixir_mcp_lib.Client.Listing.{list_all}
use elixir_mcp_lib.Sessions.{Resolved, Sessions, with_session}
use elixir_mcp_lib.Tables.{TableSpec, Cell, Row, nth}
use elixir_mcp_lib.Tables.Catalog.{set}
use elixir_mcp_lib.Tables.Catalog.Filters.{filter}

-- The error and the method that `raise_ctx` names.
pub record CtxError : Type 0 where
  pub error : McpError
  pub method : Text

pub data CtxResult {ℓ} (A : Type ℓ) : Type ℓ where
  returned : A → CtxResult A
  raised : CtxError → CtxResult A

unfoldable pub feature : Text → Text → CtxError
feature message method = record { error = feature_not_supported message; method = method }

-- the sessions, and the world behind them
abbrev pub Store : Type 0 → Type 0 → Type 0
Store N W = Sessions N × W

abbrev pub Fetch : Type 0 → Type 0 → Type 0 → Type 0
Fetch N W A = Store N W → CtxResult A × Store N W

module _ {N W A : Type 0} where
  abbrev pub give : CtxResult A → Fetch N W A
  give r s = (r, s)

module _ {N W A B : Type 0} where
  abbrev pub behind : CtxResult A × Store N W → (A → Fetch N W B) → CtxResult B × Store N W
  behind (returned a, s) f = f a s
  behind (raised e, s) f = (raised e, s)

infixl 5 ◌>>=◌
abbrev pub ◌>>=◌ : {N W A B : Type 0} → Fetch N W A → (A → Fetch N W B) → Fetch N W B
◌>>=◌ m f s = behind (m s) f

module _ {N : Type 0} (eq : Equality N) where
  -- `!out.contains(&v)` before each push, from `seen` on
  unfoldable pub dedupe_from : List (Value N) → List (Value N) → List (Value N)
  dedupe_from seen [] = seen
  dedupe_from seen (v ∷ vs) =
      dedupe_from (if contains_value eq seen v then seen else seen ++ v ∷ []) vs

  unfoldable pub dedupe : List (Value N) → List (Value N)
  unfolding dedupe_from
  dedupe values = dedupe_from [] values

  -- a set of values, met with what the earlier restrictions allow
  abbrev pub met : Option (List (Value N)) → List (Value N) → List (Value N)
  met none set' = set'
  met (some prev) set' = filter (contains_value eq set') prev

  -- the loop over the restrictions of the column
  unfoldable pub restricted_from :
      Option (List (Value N)) → List (Qual N) → Text → Option (List (Value N))
  unfolding restricted_values
  restricted_from acc [] column = acc
  restricted_from acc (q ∷ qs) column =
      restricted_from (if text_eq q.field column then some (met acc (restricted_values q)) else acc)
        qs column

  abbrev map_dedupe : Option (List (Value N)) → Option (List (Value N))
  map_dedupe none = none
  map_dedupe (some vs) = some (dedupe vs)

  -- `none`: no restriction on the column. `some []`: nothing can match.
  unfoldable pub restricted : List (Qual N) → Text → Option (List (Value N))
  unfolding restricted_from dedupe
  restricted quals column = map_dedupe (restricted_from none quals column)

-- rows that were all fetched, and how many of them were given
pub record BufferedCursor (R : Type 0) : Type 0 where
  pub rows : List R
  pub pos : ℕ

module _ {R : Type 0} where
  unfoldable pub buffered : List R → BufferedCursor R
  buffered rows = record { rows = rows; pos = 0 }

  unfoldable pub iter_buffered : BufferedCursor R → Option R × BufferedCursor R
  iter_buffered c =
      if ltb c.pos (length c.rows)
      then (nth c.rows c.pos, record c { pos = c.pos + 1 })
      else (none, c)

  unfoldable pub re_scan_buffered : BufferedCursor R → BufferedCursor R
  re_scan_buffered c = record c { pos = 0 }

module _ {N : Type 0} where
  -- `filter_map(text_of)`
  unfoldable pub texts_of : List (Value N) → List Text
  texts_of [] = []
  texts_of (v ∷ vs) = let rest = texts_of vs in elim (as_str v) [ none ↦ rest | some s ↦ s ∷ rest ]

  -- `.get(key).and_then(Value::as_array).cloned().unwrap_or_default()`
  unfoldable pub array_at : Value N → Text → List (Value N)
  array_at v key = elim (get v key) [
    | none ↦ []
    | some m ↦ elim (as_array m) [ none ↦ [] | some vs ↦ vs ]
  ]

module _ {N F : Type 0} where
  -- one `if let Some(cell) = … { put(…) }` after the other
  unfoldable pub put_all : TableSpec → Row N F → List (Text × Option (Cell N F)) → Row N F
  unfolding set
  put_all spec row [] = row
  put_all spec row ((column, none) ∷ cells) = put_all spec row cells
  put_all spec row ((column, some c) ∷ cells) = put_all spec (set spec row column (some c)) cells

module _ {N W : Type 0} (env : Env N W) where
  unfoldable pub request_in :
      Text
      → Value N
      → Transport
      → McpSession N
      → Sessions N
      → W
      → McpResult (Value N) × McpSession N × Sessions N × W
  unfolding request
  request_in method params t session sessions w =
      let (result, s) = request env t method params (record { session = session; world = w }) in
      (result, s.session, sessions, s.world)

  unfoldable pub list_in :
      Text
      → Text
      → Value N
      → Transport
      → McpSession N
      → Sessions N
      → W
      → McpResult (List (Value N)) × McpSession N × Sessions N × W
  unfolding list_all
  list_in method array_key params t session sessions w =
      let (result, s) =
        list_all env t method array_key params (record { session = session; world = w }) in
      (result, s.session, sessions, s.world)

-- `map_err(|e| CtxError::new(e, method))`
abbrev pub with_context :
    {N W A : Type 0} → Text → McpResult A × Sessions N × W → CtxResult A × Store N W
with_context method (ok a, sessions, w) = (returned a, (sessions, w))
with_context method (err e, sessions, w) =
    (raised (record { error = e; method = method }), (sessions, w))

module _ {N W : Type 0} (env : Env N W) (resolved : Resolved) where
  -- one request, in the session of the server and role
  unfoldable pub ask : Text → Value N → Fetch N W (Value N)
  unfolding with_session request_in
  ask method params (sessions, w) =
      with_context method (with_session env (request_in env method params) resolved sessions w)

  unfoldable pub ask_list : Text → Text → Value N → Fetch N W (List (Value N))
  unfolding with_session list_in
  ask_list method array_key params (sessions, w) =
      with_context method
        (with_session env (list_in env method array_key params) resolved sessions w)
