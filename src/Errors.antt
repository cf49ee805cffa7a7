-- ===== src/Errors.antt =====
-- pg/pg_mcp/src/errors.rs: what a failure is called, and the SQLSTATE that it is reported as.
pub mod Codes
pub mod Results
mod Tests
use elixir_mcp_lib.Base.{
  ℕ, Bool, true, false, ◌&&◌, ◌||◌, ◌++◌, map, if◌then◌else◌, ◌==◌, Text, codes, to_ascii_lowercase,
  contains_str, to_string, ℤ, pos, negsuc, int_eq, int_to_string,
}

-- JSON-RPC reserved codes; `negsuc n` is -(n + 1)
abbrev pub jsonrpc_invalid_params : ℤ
jsonrpc_invalid_params = negsuc 32601

abbrev pub jsonrpc_method_not_found : ℤ
jsonrpc_method_not_found = negsuc 32600

abbrev pub jsonrpc_invalid_request : ℤ
jsonrpc_invalid_request = negsuc 32599

abbrev pub jsonrpc_parse_error : ℤ
jsonrpc_parse_error = negsuc 32699

abbrev pub jsonrpc_internal_error : ℤ
jsonrpc_internal_error = negsuc 32602

pub data McpError : Type 0 where
  invalid_params method_not_found forbidden transport undefined_object : Text → McpError
  no_auth_mapping tool_error invalid_option not_implemented internal : Text → McpError
  feature_not_supported too_many_arguments not_null_violation : Text → McpError
  datatype_mismatch invalid_schema_name : Text → McpError
  rpc : ℤ → Text → McpError

pub data McpResult {ℓ} (A : Type ℓ) : Type ℓ where
  ok : A → McpResult A
  err : McpError → McpResult A

unfoldable pub sqlstate : McpError → Text
sqlstate (invalid_params m) = codes "22023"
sqlstate (invalid_option m) = codes "22023"
sqlstate (rpc c m) = codes "22023"
sqlstate (method_not_found m) = codes "0A000"
sqlstate (not_implemented m) = codes "0A000"
sqlstate (feature_not_supported m) = codes "0A000"
sqlstate (internal m) = codes "XX000"
sqlstate (too_many_arguments m) = codes "54023"
sqlstate (not_null_violation m) = codes "23502"
sqlstate (datatype_mismatch m) = codes "42804"
sqlstate (invalid_schema_name m) = codes "3F000"
sqlstate (forbidden m) = codes "42501"
sqlstate (transport m) = codes "08006"
sqlstate (undefined_object m) = codes "42704"
sqlstate (no_auth_mapping m) = codes "28000"
sqlstate (tool_error m) = codes "P0001"

unfoldable pub message : McpError → Text
message (invalid_params m) = m
message (method_not_found m) = m
message (forbidden m) = m
message (transport m) = m
message (undefined_object m) = m
message (no_auth_mapping m) = m
message (tool_error m) = m
message (invalid_option m) = m
message (not_implemented m) = m
message (internal m) = m
message (feature_not_supported m) = m
message (too_many_arguments m) = m
message (not_null_violation m) = m
message (datatype_mismatch m) = m
message (invalid_schema_name m) = m
message (rpc c m) = m

unfoldable pub is_authz_message : Text → Bool
unfolding contains_str
is_authz_message message =
    let lower = map to_ascii_lowercase message in
    contains_str lower (codes "unauthorized")
    || contains_str lower (codes "forbidden")
    || contains_str lower (codes "access denied")
    || contains_str lower (codes "insufficient scope")
    || contains_str lower (codes "invalid_token")

unfoldable pub is_expired_session : Text → Bool
unfolding contains_str
is_expired_session message =
    let lower = map to_ascii_lowercase message in
    contains_str lower (codes "session")
      && (contains_str lower (codes "expired")
          || contains_str lower (codes "unknown")
          || contains_str lower (codes "not found"))
    || contains_str lower (codes "invalid session id")

unfoldable pub from_rpc : ℤ → Text → McpError
from_rpc code message =
    if int_eq code jsonrpc_invalid_params
    then invalid_params message
    else if int_eq code jsonrpc_method_not_found
    then method_not_found message
    else if int_eq code jsonrpc_invalid_request
        || int_eq code jsonrpc_parse_error
        || int_eq code jsonrpc_internal_error
    then internal (codes "MCP protocol failure (" ++ int_to_string code ++ codes "): " ++ message)
    else if is_authz_message message
    then forbidden message
    else rpc code message

unfoldable pub from_http_status : ℕ → McpError
from_http_status status =
    if status == 401 || status == 403
    then forbidden (codes "MCP server rejected the request (HTTP " ++ to_string status ++ codes ")")
    else if status == 400
    then invalid_params (codes "MCP server rejected the request (HTTP 400)")
    else if status == 405
    then method_not_found (codes "MCP server does not accept POST (HTTP 405)")
    else transport (codes "MCP server returned HTTP " ++ to_string status)

-- the pgrx constants that `error_code` names
pub data PgSqlErrorCode : Type 0 where
  errcode_invalid_parameter_value errcode_feature_not_supported errcode_internal_error :
      PgSqlErrorCode
  errcode_too_many_arguments errcode_not_null_violation errcode_datatype_mismatch : PgSqlErrorCode
  errcode_invalid_schema_name errcode_insufficient_privilege errcode_connection_failure :
      PgSqlErrorCode
  errcode_undefined_object errcode_invalid_authorization_specification : PgSqlErrorCode
  errcode_raise_exception : PgSqlErrorCode

unfoldable pub error_code : McpError → PgSqlErrorCode
error_code (invalid_params m) = errcode_invalid_parameter_value
error_code (invalid_option m) = errcode_invalid_parameter_value
error_code (rpc c m) = errcode_invalid_parameter_value
error_code (method_not_found m) = errcode_feature_not_supported
error_code (not_implemented m) = errcode_feature_not_supported
error_code (feature_not_supported m) = errcode_feature_not_supported
error_code (internal m) = errcode_internal_error
error_code (too_many_arguments m) = errcode_too_many_arguments
error_code (not_null_violation m) = errcode_not_null_violation
error_code (datatype_mismatch m) = errcode_datatype_mismatch
error_code (invalid_schema_name m) = errcode_invalid_schema_name
error_code (forbidden m) = errcode_insufficient_privilege
error_code (transport m) = errcode_connection_failure
error_code (undefined_object m) = errcode_undefined_object
error_code (no_auth_mapping m) = errcode_invalid_authorization_specification
error_code (tool_error m) = errcode_raise_exception

-- `matches!(outcome, Err(McpError::Transport(_)))` on the error
unfoldable pub is_transport : McpError → Bool
is_transport (transport m) = true
is_transport _ = false
