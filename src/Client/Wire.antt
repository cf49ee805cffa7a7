-- ===== src/Client/Wire.antt =====
-- pg/pg_mcp/src/client.rs: one HTTP exchange, and what its answer is taken for.
use elixir_mcp_lib.Base.{
  ℕ, Bool, Option, none, some, [], ◌++◌, map, if◌then◌else◌, ◌==◌, Text, codes, contains_str,
  to_ascii_lowercase, to_string, ℤ, pos,
}
use elixir_mcp_lib.Json.{Value, string, get}
use elixir_mcp_lib.Errors.{
  McpError, transport, invalid_params, McpResult, ok, err, from_rpc, from_http_status,
}
use elixir_mcp_lib.Sse.{Stream, Decoder}

pub record Request (N : Type 0) : Type 0 where
  pub url : Text
  pub body : Value N
  pub protocol_version : Option Text
  pub session_id : Option Text
  pub authorization : Option Text

-- What reading a response body gives, whole (`inr`: the kind of the failure) or as a stream.
pub data ReadText : Type 0 where
  read_all : Text → ReadText
  read_error : Text → ReadText

pub record Response : Type 0 where
  pub status : ℕ
  pub session_header : Option Text
  pub content_type : Option Text
  pub text : ReadText
  pub stream : Stream

-- `ureq`'s result: a response below 400, a status error, or a failure to reach the server.
pub data HttpOutcome : Type 0 where
  response : Response → HttpOutcome
  status_error : ℕ → HttpOutcome
  unreachable : Text → HttpOutcome

pub record Env (N W : Type 0) : Type 0 where
  pub decoder : Decoder N
  pub of_ℕ : ℕ → N
  pub client_version : Text
  pub check : W → Option McpError
  pub encode_error : Value N → Option Text
  pub send : Request N → W → HttpOutcome × W

pub data Wire (N : Type 0) : Type 0 where
  json : Value N → Option Text → Wire N
  sse : Stream → Wire N
  accepted : Wire N
  session_gone : Wire N
  failed : McpError → Wire N

-- `response.header("content-type").unwrap_or("")` names an event stream
unfoldable pub is_event_stream : Option Text → Bool
is_event_stream none = contains_str [] (codes "text/event-stream")
is_event_stream (some t) = contains_str (map to_ascii_lowercase t) (codes "text/event-stream")

module _ {N : Type 0} where
  unfoldable pub rpc_error : Decoder N → Value N → Option (ℤ × Text)
  rpc_error d value = elim (get value (codes "error")) [
    | none ↦ none
    | some error ↦
        let code : ℤ = elim (get error (codes "code")) [
          | none ↦ pos 0
          | some (Value.number n) ↦ elim (d.as_i64 n) [ none ↦ pos 0 | some c ↦ c ]
          | some _ ↦ pos 0
        ] in
        let message : Text = elim (get error (codes "message")) [
          | none ↦ codes "MCP server returned an error"
          | some (string m) ↦ m
          | some _ ↦ codes "MCP server returned an error"
        ] in
        some (code, message)
  ]

  unfoldable pub finish : Decoder N → Value N → ℕ → McpResult (Value N)
  unfolding rpc_error
  finish d value id = elim (rpc_error d value) [
    | some (code, message) ↦ err (from_rpc code message)
    | none ↦ elim (get value (codes "result")) [
      | some result ↦ ok result
      | none ↦ err (
          transport (
            codes "MCP response for request "
            ++ to_string id
            ++ codes " carried neither result nor error"))
    ]
  ]

  unfoldable pub classify_status : ℕ → Wire N
  classify_status status = if status == 404 then session_gone else failed (from_http_status status)

  -- the body of a response that is no event stream
  unfoldable pub decode_text : Decoder N → Option Text → ReadText → Wire N
  decode_text d session (read_error kind) =
      failed (transport (codes "could not read the MCP response body: " ++ kind))
  decode_text d session (read_all text) = elim (d.from_str text) [
    | some v ↦ json v session
    | none ↦ failed (transport (codes "MCP server returned a malformed JSON body"))
  ]

  unfoldable pub classify : Decoder N → HttpOutcome → Wire N
  unfolding classify_status decode_text is_event_stream
  classify d (status_error status) = classify_status status
  classify d (unreachable kind) =
      failed (transport (codes "could not reach the MCP server: " ++ kind))
  classify d (response r) =
      if r.status == 202
      then accepted
      else if is_event_stream r.content_type
      then sse r.stream
      else decode_text d r.session_header r.text

module _ {N W : Type 0} (env : Env N W) where
  -- an exchange that no interrupt stops, with a body that can be encoded
  exchange_http : Request N → W → Wire N × W
  unfolding classify
  exchange_http request w =
      let (outcome, w') = env.send request w in (classify env.decoder outcome, w')

  unfoldable pub dispatch : Request N → W → Wire N × W
  unfolding exchange_http
  dispatch request w = elim (env.check w) [
    | some e ↦ (failed e, w)
    | none ↦ elim (env.encode_error request.body) [
      | some e ↦ (failed (invalid_params (codes "could not encode request: " ++ e)), w)
      | none ↦ exchange_http request w
    ]
  ]
