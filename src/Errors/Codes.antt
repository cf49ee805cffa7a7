-- ===== src/Errors/Codes.antt =====
-- The two tables of `McpError` agree, and a server's error keeps its message.
use elixir_mcp_lib.Base.{
  ◌≡◌, arith, Text, ◌++◌, ℤ, false, [], codes, if◌then◌else◌, int_eq, int_to_string, ◌||◌,
}
use elixir_mcp_lib.Errors.{
  McpError, invalid_params, PgSqlErrorCode, sqlstate, error_code, message, from_rpc, is_transport,
  jsonrpc_invalid_params, jsonrpc_method_not_found, jsonrpc_invalid_request, jsonrpc_parse_error,
  jsonrpc_internal_error, errcode_invalid_parameter_value, errcode_feature_not_supported,
  errcode_internal_error, errcode_too_many_arguments, errcode_not_null_violation,
  errcode_datatype_mismatch, errcode_invalid_schema_name, errcode_insufficient_privilege,
  errcode_connection_failure, errcode_undefined_object, errcode_invalid_authorization_specification,
  errcode_raise_exception,
}

-- The SQLSTATE of each pgrx constant, as PostgreSQL's errcodes appendix lists it.
pub record IsErrcodeTable (state : PgSqlErrorCode → Text) : Type 0 where
  pub invalid_parameter_value : state errcode_invalid_parameter_value ≡ codes "22023"
  pub feature_not_supported : state errcode_feature_not_supported ≡ codes "0A000"
  pub internal_error : state errcode_internal_error ≡ codes "XX000"
  pub too_many_arguments : state errcode_too_many_arguments ≡ codes "54023"
  pub not_null_violation : state errcode_not_null_violation ≡ codes "23502"
  pub datatype_mismatch : state errcode_datatype_mismatch ≡ codes "42804"
  pub invalid_schema_name : state errcode_invalid_schema_name ≡ codes "3F000"
  pub insufficient_privilege : state errcode_insufficient_privilege ≡ codes "42501"
  pub connection_failure : state errcode_connection_failure ≡ codes "08006"
  pub undefined_object : state errcode_undefined_object ≡ codes "42704"
  pub invalid_authorization : state errcode_invalid_authorization_specification ≡ codes "28000"
  pub raise_exception : state errcode_raise_exception ≡ codes "P0001"

-- With PostgreSQL's table of SQLSTATEs, the code that `raise` reports for an error is the one that
-- `sqlstate` names, for every error.
pub state-error_code :
    (state : PgSqlErrorCode → Text) (e : McpError)
    → IsErrcodeTable state
    → state (error_code e) ≡ sqlstate e
unfolding error_code sqlstate
state-error_code state (invalid_params m) t = t.invalid_parameter_value
state-error_code state e t = search

-- what stands in front of the server's message in the error's text
front : ℤ → Text
front code =
    if int_eq code jsonrpc_invalid_params
    then []
    else if int_eq code jsonrpc_method_not_found
    then []
    else if int_eq code jsonrpc_invalid_request
        || int_eq code jsonrpc_parse_error
        || int_eq code jsonrpc_internal_error
    then codes "MCP protocol failure (" ++ int_to_string code ++ codes "): "
    else []

-- What a server reports by a JSON-RPC error is never taken for a failure of the transport, and the
-- error's text ends in the server's own message.
pub message-from_rpc :
    (code : ℤ) (m : Text)
    → (is_transport (from_rpc code m) ≡ false)
      × ((front : Text) × (message (from_rpc code m) ≡ front ++ m))
unfolding is_transport from_rpc message front
message-from_rpc code m = (ground arith, (front code, ground arith))
