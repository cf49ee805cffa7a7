-- ===== src/Tables/ReadThrough/Sound/Keyed.antt =====
-- The rows of the three tables, by the keys of their requests.
use elixir_mcp_lib.Base.{Option, ℤ, All}
use elixir_mcp_lib.Quals.{Equality}
use elixir_mcp_lib.Client.Wire.{Env}
use elixir_mcp_lib.Tables.{Numbers, ScanContext}
use elixir_mcp_lib.Tables.Specs.{resource_contents_spec, prompt_messages_spec, completions_spec}
use elixir_mcp_lib.Tables.ReadThrough.{Store}
use elixir_mcp_lib.Tables.ReadThrough.Restricted.{IsEquivalence}
use elixir_mcp_lib.Tables.ReadThrough.Resources.{resource_contents_rows}
use elixir_mcp_lib.Tables.ReadThrough.Prompts.{prompt_messages_rows}
use elixir_mcp_lib.Tables.ReadThrough.Completions.{completions_rows}
use elixir_mcp_lib.Tables.ReadThrough.Sound.{Ensures, at_spec}
use elixir_mcp_lib.Tables.ReadThrough.Sound.Contents.{IsContentRow, Ensures-contents}
use elixir_mcp_lib.Tables.ReadThrough.Sound.Messages.{IsMessageRow, Ensures-messages}
use elixir_mcp_lib.Tables.ReadThrough.Sound.Candidates.{IsCandidateRow, Ensures-candidates}

-- Where equality of documents is an equivalence: when a scan of `resource_contents`, `prompt_messages`
-- or `completions` returns rows, each of them has one cell for each column, of the column's type, and in
-- the columns that key the requests a value that every restriction of that column lists.
pub rows_keyed :
    {N F W : Type 0} (env : Env N W) (eq : Equality N) (num : Numbers N F) (as_i64 : N → Option ℤ)
    (e : IsEquivalence eq) (ctx : ScanContext N) (s : Store N W)
    → Ensures
        (All (IsContentRow eq num ctx.quals))
        (resource_contents_rows env eq (at_spec resource_contents_spec ctx) s)
      × Ensures
          (All (IsMessageRow eq num ctx.quals))
          (prompt_messages_rows env eq (at_spec prompt_messages_spec ctx) s)
      × Ensures
          (All (IsCandidateRow eq num ctx.quals))
          (completions_rows env eq as_i64 (at_spec completions_spec ctx) s)
rows_keyed env eq num as_i64 e ctx s = (
  Ensures-contents env eq num e ctx s,
  Ensures-messages env eq num e ctx s,
  Ensures-candidates env eq num as_i64 e ctx s,
)
