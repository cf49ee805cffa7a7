-- ===== src/Tables/Specs.antt =====
-- pg/pg_mcp/src/tables/mod.rs: the columns of the ten tables.
use elixir_mcp_lib.Base.{[], ◌∷◌, Text, codes}
use elixir_mcp_lib.Codegen.Table.{
  ColumnType, text, jsonb, boolean, int4, int8, bytea, uuid, timestamp_tz,
}
use elixir_mcp_lib.Tables.{
  Source, server_identity, initialize, list, read_through, invocation, local, ColumnSpec, TableSpec,
}

abbrev column_spec : Text → ColumnType → Source → ColumnSpec
column_spec name pg_type source = record { name = name; pg_type = pg_type; source = source }

unfoldable pub server_spec : TableSpec
server_spec = record {
  name = codes "server";
  columns =
      column_spec (codes "name") text server_identity
      ∷ column_spec (codes "url") text server_identity
      ∷ column_spec (codes "protocol_version") text initialize
      ∷ column_spec (codes "server_name") text initialize
      ∷ column_spec (codes "server_version") text initialize
      ∷ column_spec (codes "instructions") text initialize
      ∷ column_spec (codes "capabilities") jsonb initialize
      ∷ column_spec (codes "mode") text server_identity
      ∷ column_spec (codes "session_id") text server_identity
      ∷ [];
}

unfoldable pub tools_spec : TableSpec
tools_spec = record {
  name = codes "tools";
  columns =
      column_spec (codes "name") text (list (codes "tools/list"))
      ∷ column_spec (codes "title") text (list (codes "tools/list"))
      ∷ column_spec (codes "description") text (list (codes "tools/list"))
      ∷ column_spec (codes "input_schema") jsonb (list (codes "tools/list"))
      ∷ column_spec (codes "output_schema") jsonb (list (codes "tools/list"))
      ∷ column_spec (codes "annotations") jsonb (list (codes "tools/list"))
      ∷ column_spec (codes "read_only") boolean (list (codes "tools/list"))
      ∷ column_spec (codes "destructive") boolean (list (codes "tools/list"))
      ∷ column_spec (codes "idempotent") boolean (list (codes "tools/list"))
      ∷ column_spec (codes "open_world") boolean (list (codes "tools/list"))
      ∷ column_spec (codes "meta") jsonb (list (codes "tools/list"))
      ∷ [];
}

unfoldable pub prompts_spec : TableSpec
prompts_spec = record {
  name = codes "prompts";
  columns =
      column_spec (codes "name") text (list (codes "prompts/list"))
      ∷ column_spec (codes "title") text (list (codes "prompts/list"))
      ∷ column_spec (codes "description") text (list (codes "prompts/list"))
      ∷ column_spec (codes "meta") jsonb (list (codes "prompts/list"))
      ∷ [];
}

unfoldable pub prompt_arguments_spec : TableSpec
prompt_arguments_spec = record {
  name = codes "prompt_arguments";
  columns =
      column_spec (codes "prompt") text (list (codes "prompts/list"))
      ∷ column_spec (codes "name") text (list (codes "prompts/list"))
      ∷ column_spec (codes "description") text (list (codes "prompts/list"))
      ∷ column_spec (codes "required") boolean (list (codes "prompts/list"))
      ∷ column_spec (codes "idx") int4 (list (codes "prompts/list"))
      ∷ [];
}

unfoldable pub resources_spec : TableSpec
resources_spec = record {
  name = codes "resources";
  columns =
      column_spec (codes "uri") text (list (codes "resources/list"))
      ∷ column_spec (codes "name") text (list (codes "resources/list"))
      ∷ column_spec (codes "title") text (list (codes "resources/list"))
      ∷ column_spec (codes "description") text (list (codes "resources/list"))
      ∷ column_spec (codes "mime_type") text (list (codes "resources/list"))
      ∷ column_spec (codes "size") int8 (list (codes "resources/list"))
      ∷ column_spec (codes "annotations") jsonb (list (codes "resources/list"))
      ∷ column_spec (codes "meta") jsonb (list (codes "resources/list"))
      ∷ [];
}

unfoldable pub resource_templates_spec : TableSpec
resource_templates_spec = record {
  name = codes "resource_templates";
  columns =
      column_spec (codes "uri_template") text (list (codes "resources/templates/list"))
      ∷ column_spec (codes "name") text (list (codes "resources/templates/list"))
      ∷ column_spec (codes "title") text (list (codes "resources/templates/list"))
      ∷ column_spec (codes "description") text (list (codes "resources/templates/list"))
      ∷ column_spec (codes "mime_type") text (list (codes "resources/templates/list"))
      ∷ column_spec (codes "annotations") jsonb (list (codes "resources/templates/list"))
      ∷ column_spec (codes "meta") jsonb (list (codes "resources/templates/list"))
      ∷ [];
}

unfoldable pub resource_contents_spec : TableSpec
resource_contents_spec = record {
  name = codes "resource_contents";
  columns =
      column_spec (codes "uri") text (read_through (codes "resources/read"))
      ∷ column_spec (codes "idx") int4 (read_through (codes "resources/read"))
      ∷ column_spec (codes "mime_type") text (read_through (codes "resources/read"))
      ∷ column_spec (codes "text") text (read_through (codes "resources/read"))
      ∷ column_spec (codes "blob") bytea (read_through (codes "resources/read"))
      ∷ column_spec (codes "meta") jsonb (read_through (codes "resources/read"))
      ∷ [];
}

unfoldable pub prompt_messages_spec : TableSpec
prompt_messages_spec = record {
  name = codes "prompt_messages";
  columns =
      column_spec (codes "prompt") text (read_through (codes "prompts/get"))
      ∷ column_spec (codes "arguments") jsonb (read_through (codes "prompts/get"))
      ∷ column_spec (codes "idx") int4 (read_through (codes "prompts/get"))
      ∷ column_spec (codes "role") text (read_through (codes "prompts/get"))
      ∷ column_spec (codes "content_type") text (read_through (codes "prompts/get"))
      ∷ column_spec (codes "text") text (read_through (codes "prompts/get"))
      ∷ column_spec (codes "content") jsonb (read_through (codes "prompts/get"))
      ∷ column_spec (codes "description") text (read_through (codes "prompts/get"))
      ∷ [];
}

unfoldable pub completions_spec : TableSpec
completions_spec = record {
  name = codes "completions";
  columns =
      column_spec (codes "ref") jsonb (read_through (codes "completion/complete"))
      ∷ column_spec (codes "argument_name") text (read_through (codes "completion/complete"))
      ∷ column_spec (codes "argument_value") text (read_through (codes "completion/complete"))
      ∷ column_spec (codes "value") text (read_through (codes "completion/complete"))
      ∷ column_spec (codes "idx") int4 (read_through (codes "completion/complete"))
      ∷ column_spec (codes "total") int4 (read_through (codes "completion/complete"))
      ∷ column_spec (codes "has_more") boolean (read_through (codes "completion/complete"))
      ∷ [];
}

unfoldable pub tool_calls_spec : TableSpec
tool_calls_spec = record {
  name = codes "tool_calls";
  columns =
      column_spec (codes "id") uuid local
      ∷ column_spec (codes "tool") text invocation
      ∷ column_spec (codes "arguments") jsonb invocation
      ∷ column_spec (codes "content") jsonb invocation
      ∷ column_spec (codes "structured") jsonb invocation
      ∷ column_spec (codes "is_error") boolean invocation
      ∷ column_spec (codes "error") jsonb invocation
      ∷ column_spec (codes "called_at") timestamp_tz local
      ∷ column_spec (codes "duration_ms") int4 local
      ∷ [];
}
