-- ===== src/Tables/ToolCalls/Insert.antt =====
-- pg/pg_mcp/src/tables/tool_calls.rs: one `tools/call` for an inserted row, logged and audited.
-- The clocks and the random bytes are given with the call.
use elixir_mcp_lib.Base.{
  ℕ, ◌^◌, ◌-◌, Option, none, some, List, ◌++◌, if◌then◌else◌, ltb, Text, codes, ℤ, pos,
}
use elixir_mcp_lib.Json.{Value, object, string, end, field, get}
use elixir_mcp_lib.Errors.{McpError, internal, not_null_violation, McpResult, ok, err}
use elixir_mcp_lib.Client.Wire.{Env}
use elixir_mcp_lib.Client.Session.{McpSession, Transport, request}
use elixir_mcp_lib.Client.Content.{is_error_result}
use elixir_mcp_lib.Sessions.{Sessions, with_session}
use elixir_mcp_lib.Tables.{Cell, Row, InsertRow, value, TableContext}
use elixir_mcp_lib.Tables.ToolCalls.{CallRecord, CallLogs, log_call, row_from_record, uuid_v4}
use elixir_mcp_lib.Tables.ToolCalls.Audit.{Spi, audit_append}

-- what the code reads off the machine during the call
pub record Reading : Type 0 where
  pub called_at : ℤ
  pub elapsed_ms : ℕ
  pub random : Option (List ℕ)
  pub now_bytes : List ℕ

-- what an insert changes
pub record Backend (N W D : Type 0) : Type 0 where
  pub sessions : Sessions N
  pub logs : CallLogs N
  pub world : W
  pub database : D

-- `i32::try_from(n).unwrap_or(i32::MAX)`
abbrev pub saturate_i32 : ℕ → ℤ
saturate_i32 n = if ltb n (2 ^ 31) then pos n else pos (2 ^ 31 - 1)

module _ {N F : Type 0} (debug : Cell N F → Text) where
  abbrev pub tool_missing : McpError
  tool_missing = not_null_violation (
      codes
        "null value in column \"tool\" of relation \"tool_calls\": a call names a tool (PRD-7 §4.7)")

  -- the tool of the row; `debug` is `{other:?}`
  unfoldable pub tool_of : Option (Cell N F) → McpResult Text
  tool_of none = err tool_missing
  tool_of (some (Cell.text tool)) = ok tool
  tool_of (some other) =
      err
        (internal (codes "column \"tool\" arrived as " ++ (debug other ++ codes "; expected text")))

module _ {N F : Type 0} where
  unfoldable pub arguments_of : Option (Cell N F) → Value N
  arguments_of (some (Cell.json v)) = v
  arguments_of _ = object end

module _ {N W : Type 0} (env : Env N W) where
  -- the closure: the request in the session
  unfoldable pub call_in :
      Value N
      → Transport
      → McpSession N
      → Sessions N
      → W
      → McpResult (Value N) × McpSession N × Sessions N × W
  unfolding request
  call_in params t session sessions w =
      let (result, s) =
        request env t (codes "tools/call") params (record { session = session; world = w }) in
      (result, s.session, sessions, s.world)

module _ {N : Type 0} where
  abbrev pub call_params : Text → Value N → Value N
  call_params tool arguments =
      object (field (codes "name") (string tool) (field (codes "arguments") arguments end))

  -- the record of a completed call
  unfoldable pub completed : Reading → Text → Value N → Value N → CallRecord N
  unfolding uuid_v4 is_error_result
  completed reading tool arguments result = record {
    id = uuid_v4 reading.random reading.now_bytes;
    tool = tool;
    arguments = arguments;
    content = get result (codes "content");
    structured = get result (codes "structuredContent");
    is_error = is_error_result result;
    error = none;
    called_at = reading.called_at;
    duration_ms = saturate_i32 reading.elapsed_ms;
  }

module _ {N F W D : Type 0} (env : Env N W) (spi : Spi D) (print : Value N → Text)
    (debug : Cell N F → Text) where
  -- `self.audit_append(&rec)?; Ok(row)`
  unfoldable pub audited : CallRecord N → McpResult (Unit {0}) → McpResult (Row N F)
  unfolding row_from_record
  audited rec (ok u) = ok (row_from_record rec)
  audited rec (err e) = err e

  -- what follows the answer: a completed call is logged, and audited
  unfoldable pub after_call :
      Reading
      → TableContext
      → Text
      → Value N
      → McpResult (Value N) × Sessions N × W
      → Backend N W D
      → McpResult (Row N F) × Backend N W D
  unfolding completed log_call audit_append audited
  after_call reading ctx tool arguments (err e, sessions, w) b =
      (err e, record b { sessions = sessions; world = w })
  after_call reading ctx tool arguments (ok result, sessions, w) b =
      let rec = completed reading tool arguments result in
      let (outcome, db) =
        audit_append print spi ctx.resolved.options.audit_table ctx.server_name rec b.database in
      (
        audited rec outcome,
        record {
          sessions = sessions;
          logs = log_call ctx.resolved.key rec b.logs;
          world = w;
          database = db;
        },
      )

  unfoldable pub insert_tool :
      Reading
      → TableContext
      → McpResult Text
      → Value N
      → Backend N W D
      → McpResult (Row N F) × Backend N W D
  unfolding with_session call_in after_call
  insert_tool reading ctx (err e) arguments b = (err e, b)
  insert_tool reading ctx (ok tool) arguments b =
      after_call reading ctx tool arguments
        (with_session env (call_in env (call_params tool arguments)) ctx.resolved b.sessions
          b.world)
        b

  unfoldable pub insert :
      Reading → TableContext → InsertRow N F → Backend N W D → McpResult (Row N F) × Backend N W D
  unfolding value tool_of arguments_of insert_tool
  insert reading ctx input b =
      insert_tool reading ctx (tool_of debug (value input (codes "tool")))
        (arguments_of (value input (codes "arguments"))) b
