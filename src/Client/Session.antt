-- ===== src/Client/Session.antt =====
-- pg/pg_mcp/src/client.rs: the session's state, the handshake, and a request that re-initializes
-- once where the server has dropped the session. `initialized_at` is not kept: nothing reads it.
use elixir_mcp_lib.Base.{
  ℕ, ◌+◌, Bool, true, false, Option, none, some, ◌++◌, if◌then◌else◌, Text, codes, text_eq, pos,
}
use elixir_mcp_lib.Json.{Value, null, string, number, object, end, field, get}
use elixir_mcp_lib.Errors.{transport, McpResult, ok, err, message, is_expired_session}
use elixir_mcp_lib.Sse.{Stream, read_until_id_observed}
use elixir_mcp_lib.Client.Wire.{
  Env, Wire, json, sse, accepted, session_gone, failed, Request, finish, dispatch,
}

abbrev pub client_protocol_version : Text
client_protocol_version = codes "2025-11-25"

pub record McpSession (N : Type 0) : Type 0 where
  pub url : Text
  pub session_id : Option Text
  pub protocol_version : Text
  pub server_info : Value N
  pub capabilities : Value N
  pub next_id : ℕ
  pub initialize_count : ℕ
  -- the flag of the shared `Notifications`
  pub tools_list_changed : Bool

pub record Transport : Type 0 where
  pub timeout_ms : ℕ
  pub bearer : Option Text
  -- `notifications` is the session's own flags (`true`) or nothing
  pub observing : Bool

pub record State (N W : Type 0) : Type 0 where
  pub session : McpSession N
  pub world : W

-- A method returns its result and the state that it leaves, after an error too.
abbrev pub Exec : Type 0 → Type 0 → Type 0 → Type 0
Exec N W A = State N W → McpResult A × State N W

module _ {N W A B : Type 0} where
  -- `?` on the result of a method
  abbrev pub and_then : McpResult A × State N W → (A → Exec N W B) → McpResult B × State N W
  and_then (ok a, s) f = f a s
  and_then (err e, s) f = (err e, s)

module _ {N : Type 0} where
  unfoldable pub observe : Value N → Bool → Bool
  observe frame flag = elim (get frame (codes "method")) [
    | none ↦ flag
    | some (string m) ↦ if text_eq m (codes "notifications/tools/list_changed") then true else flag
    | some _ ↦ flag
  ]

module _ {N W : Type 0} (env : Env N W) (t : Transport) where
  -- `take_id`: the id that the next message carries, and the state that has used it
  abbrev pub take_id : State N W → State N W
  take_id s = record s { session = record s.session { next_id = s.session.next_id + 1 } }

  unfoldable pub build : McpSession N → Value N → Option Text → Bool → Request N
  build session body session_id send_protocol_version = record {
    url = session.url;
    body = body;
    protocol_version = if send_protocol_version then some session.protocol_version else none;
    session_id = session_id;
    authorization = elim t.bearer [ none ↦ none | some token ↦ some (codes "Bearer " ++ token) ];
  }

  unfoldable pub read_stream : Stream → ℕ → Exec N W (Value N)
  unfolding observe
  read_stream stream want_id s =
      let (result, flag) =
        read_until_id_observed env.decoder
          (λ frame seen. if t.observing then observe frame seen else seen) (pos want_id)
          t.timeout_ms stream s.session.tools_list_changed in
      (result, record s { session = record s.session { tools_list_changed = flag } })

  -- `dispatch` on the state
  unfoldable pub transmit : Request N → State N W → Wire N × State N W
  transmit request s =
      let (wire, w) = dispatch env request s.world in (wire, record s { world = w })

  unfoldable pub after_exchange :
      ℕ → Wire N × State N W → McpResult (Value N × Option Text) × State N W
  unfolding read_stream
  after_exchange id (json value sid, s) =
      (elim (finish env.decoder value id) [ ok result ↦ ok (result, sid) | err e ↦ err e ], s)
  after_exchange id (sse stream, s) = and_then (read_stream stream id s) λ value s'.
      (elim (finish env.decoder value id) [ ok result ↦ ok (result, none) | err e ↦ err e ], s')
  after_exchange id (accepted, s) =
      (err (transport (codes "MCP server did not answer initialize")), s)
  after_exchange id (session_gone, s) = (
    err (transport (codes "MCP server rejected the initialize request as an unknown session")),
    s,
  )
  after_exchange id (failed e, s) = (err e, s)

  -- The exchange of `initialize`: a session that is gone is an error.
  unfoldable pub exchange : Value N → ℕ → Option Text → Bool → Exec N W (Value N × Option Text)
  unfolding build transmit after_exchange
  exchange body id session_id send_protocol_version s =
      after_exchange id (transmit (build s.session body session_id send_protocol_version) s)

  unfoldable pub after_notify : Wire N × State N W → McpResult (Unit {0}) × State N W
  after_notify (failed e, s) = (err e, s)
  after_notify (_, s) = (ok tt, s)

  unfoldable pub notify : Value N → Exec N W (Unit {0})
  unfolding build transmit after_notify
  notify body s = after_notify (transmit (build s.session body s.session.session_id true) s)

  unfoldable pub after_checked :
      ℕ → Wire N × State N W → McpResult (Option (Value N × Option Text)) × State N W
  unfolding read_stream
  after_checked id (json value sid, s) = (
    elim (finish env.decoder value id) [
      | ok result ↦ ok (some (result, sid))
      | err e ↦ if is_expired_session (message e) then ok none else err e
    ],
    s,
  )
  after_checked id (sse stream, s) = and_then (read_stream stream id s) λ value s'. (
    elim (finish env.decoder value id) [ ok result ↦ ok (some (result, none)) | err e ↦ err e ],
    s',
  )
  after_checked id (accepted, s) =
      (err (transport (codes "MCP server accepted the request without answering it")), s)
  after_checked id (session_gone, s) = (ok none, s)
  after_checked id (failed e, s) = (err e, s)

  -- `ok none`: the session is gone, and the caller may re-initialize once.
  unfoldable pub exchange_checked : Value N → ℕ → Exec N W (Option (Value N × Option Text))
  unfolding build transmit after_checked
  exchange_checked body id s =
      after_checked id (transmit (build s.session body s.session.session_id true) s)

  abbrev pub rpc_body : ℕ → Text → Value N → Value N
  rpc_body id method params = object (
      field (codes "jsonrpc") (string (codes "2.0")) (
        field (codes "id") (number (env.of_ℕ id))
          (field (codes "method") (string method) (field (codes "params") params end))))

  abbrev pub initialize_params : Value N
  initialize_params = object (
      field (codes "protocolVersion") (string client_protocol_version) (
        field (codes "capabilities") (object end) (
          field (codes "clientInfo")
            (object (
              field (codes "name") (string (codes "pg_mcp"))
                (field (codes "version") (string env.client_version) end)))
            end)))

  abbrev pub initialized_note : Value N
  initialized_note = object (
      field (codes "jsonrpc") (string (codes "2.0"))
        (field (codes "method") (string (codes "notifications/initialized")) end))

  abbrev member_or_null : Value N → Text → Value N
  member_or_null v key = elim (get v key) [ none ↦ null | some m ↦ m ]

  -- what the answer to `initialize` sets
  unfoldable pub established : Value N → Option Text → State N W → State N W
  established result session_id s = record s {
    session = record s.session {
      session_id = session_id;
      protocol_version = elim (get result (codes "protocolVersion")) [
        | none ↦ client_protocol_version
        | some (string v) ↦ v
        | some _ ↦ client_protocol_version
      ];
      server_info = member_or_null result (codes "serverInfo");
      capabilities = member_or_null result (codes "capabilities");
      initialize_count = s.session.initialize_count + 1;
    };
  }

  -- the rest of `initialize` behind its answer
  unfoldable pub complete_handshake : Value N × Option Text → Exec N W (Unit {0})
  unfolding established notify
  complete_handshake (result, session_id) s =
      notify initialized_note (established result session_id s)

  unfoldable pub initialize : Exec N W (Unit {0})
  unfolding exchange complete_handshake
  initialize s =
      let id = s.session.next_id in
      and_then
        (exchange (rpc_body id (codes "initialize") initialize_params) id none false (take_id s))
        complete_handshake

  -- the value of an answer, without the session id that came with it
  unfoldable pub value_of : Option (Value N × Option Text) → Exec N W (Option (Value N))
  value_of none s = (ok none, s)
  value_of (some (value, sid)) s = (ok (some value), s)

  unfoldable pub try_request : Text → Value N → Exec N W (Option (Value N))
  unfolding exchange_checked value_of
  try_request method params s =
      let id = s.session.next_id in
      and_then (exchange_checked (rpc_body id method params) id (take_id s)) value_of

  -- the answer of the second try
  abbrev pub second_answer : Option (Value N) → Exec N W (Value N)
  second_answer (some value) s = (ok value, s)
  second_answer none s = (
    err (transport (codes "MCP session was rejected twice; giving up after one re-initialize")),
    s,
  )

  abbrev pub drop_session_id : State N W → State N W
  drop_session_id s = record s { session = record s.session { session_id = none } }

  -- the rest of `request` behind its first try
  unfoldable pub try_again : Text → Value N → Unit {0} → Exec N W (Value N)
  unfolding try_request
  try_again method params _ s = and_then (try_request method params s) second_answer

  unfoldable pub retry_once : Text → Value N → Option (Value N) → Exec N W (Value N)
  unfolding initialize try_again
  retry_once method params (some value) s = (ok value, s)
  retry_once method params none s =
      and_then (initialize (drop_session_id s)) (try_again method params)

  unfoldable pub request : Text → Value N → Exec N W (Value N)
  unfolding try_request retry_once
  request method params s = and_then (try_request method params s) (retry_once method params)

  -- the session that `McpSession::open` starts from
  abbrev pub fresh : Text → McpSession N
  fresh url = record {
    url = url;
    session_id = none;
    protocol_version = client_protocol_version;
    server_info = null;
    capabilities = null;
    next_id = 1;
    initialize_count = 0;
    tools_list_changed = false;
  }

  -- On an error the session is dropped; the world goes on.
  unfoldable pub open_session : Text → W → McpResult (McpSession N) × W
  unfolding initialize
  open_session url w =
      let (result, s) = initialize (record { session = fresh url; world = w }) in
      (elim result [ ok _ ↦ ok s.session | err e ↦ err e ], s.world)
