-- ===== src/Errors/Tests.antt =====
-- PostgreSQL's table of SQLSTATEs, and two errors of a server.
use elixir_mcp_lib.Base.{◌≡◌, refl, Text, codes}
use elixir_mcp_lib.Errors.{
  forbidden, PgSqlErrorCode, sqlstate, error_code, errcode_invalid_parameter_value,
  errcode_feature_not_supported, errcode_internal_error, errcode_too_many_arguments,
  errcode_not_null_violation, errcode_datatype_mismatch, errcode_invalid_schema_name,
  errcode_insufficient_privilege, errcode_connection_failure, errcode_undefined_object,
  errcode_invalid_authorization_specification, errcode_raise_exception,
}
use elixir_mcp_lib.Errors.Codes.{IsErrcodeTable, state-error_code}

abbrev errcodes : PgSqlErrorCode → Text
errcodes errcode_invalid_parameter_value = codes "22023"
errcodes errcode_feature_not_supported = codes "0A000"
errcodes errcode_internal_error = codes "XX000"
errcodes errcode_too_many_arguments = codes "54023"
errcodes errcode_not_null_violation = codes "23502"
errcodes errcode_datatype_mismatch = codes "42804"
errcodes errcode_invalid_schema_name = codes "3F000"
errcodes errcode_insufficient_privilege = codes "42501"
errcodes errcode_connection_failure = codes "08006"
errcodes errcode_undefined_object = codes "42704"
errcodes errcode_invalid_authorization_specification = codes "28000"
errcodes errcode_raise_exception = codes "P0001"

errcodes-IsErrcodeTable : IsErrcodeTable errcodes
errcodes-IsErrcodeTable = record {
  invalid_parameter_value = refl;
  feature_not_supported = refl;
  internal_error = refl;
  too_many_arguments = refl;
  not_null_violation = refl;
  datatype_mismatch = refl;
  invalid_schema_name = refl;
  insufficient_privilege = refl;
  connection_failure = refl;
  undefined_object = refl;
  invalid_authorization = refl;
  raise_exception = refl;
}

state-error_code_example :
    errcodes (error_code (forbidden (codes "no"))) ≡ sqlstate (forbidden (codes "no"))
state-error_code_example =
    state-error_code errcodes (forbidden (codes "no")) errcodes-IsErrcodeTable
