-- ===== src/Client/Recovery.antt =====
-- A session that the server has dropped is re-initialized, and the request sent again.
use elixir_mcp_lib.Base.{
  ℕ, ◌+◌, ◌≡◌, ◌++◌, refl, arith, Bool, true, false, Option, none, some, Text, codes, ap, ◌∙◌,
}
use elixir_mcp_lib.Json.{Value, string, number, object, end, field, get}
use elixir_mcp_lib.Errors.{McpError, ok, err, message, is_expired_session}
use elixir_mcp_lib.Sse.{Stream}
use elixir_mcp_lib.Client.Wire.{
  Env, HttpOutcome, Request, Wire, json, sse, accepted, session_gone, classify, dispatch, finish,
}
use elixir_mcp_lib.Client.Session.{
  State, Transport, and_then, take_id, read_stream, transmit, build, exchange, notify,
  exchange_checked, after_checked, after_exchange, after_notify, established, initialize,
  complete_handshake, value_of, try_request, try_again, second_answer, drop_session_id, retry_once,
  request, rpc_body, initialize_params, initialized_note,
}

module _ {N W : Type 0} (env : Env N W) (t : Transport) where
  -- In the world `w` no interrupt is pending, and the server's answer to any request is read as `wire`.
  pub record Answers (w : W) (wire : Wire N) (w' : W) : Type 0 where
    pub calm : env.check w ≡ none
    pub outcome : HttpOutcome
    pub sent : (q : Request N) → env.send q w ≡ (outcome, w')
    pub read : classify env.decoder outcome ≡ wire

  -- The same of one request: in the world `w` it is answered so.
  pub record AnswersTo (q : Request N) (w : W) (wire : Wire N) (w' : W) : Type 0 where
    pub calm : env.check w ≡ none
    pub outcome : HttpOutcome
    pub sent : env.send q w ≡ (outcome, w')
    pub read : classify env.decoder outcome ≡ wire

  toward : {w w' : W} {wire : Wire N} (q : Request N) → Answers w wire w' → AnswersTo q w wire w'
  toward q a = record { calm = a.calm; outcome = a.outcome; sent = a.sent q; read = a.read }

  -- the `Authorization` header of a transport with this token
  abbrev pub header_of : Option Text → Option Text
  header_of none = none
  header_of (some token) = some (codes "Bearer " ++ token)

  -- a POST of this body, with this `MCP-Protocol-Version` and this `Mcp-Session-Id`
  abbrev pub posted : Text → Value N → Option Text → Option Text → Request N
  posted url body version sid = record {
    url = url;
    body = body;
    protocol_version = version;
    session_id = sid;
    authorization = header_of t.bearer;
  }

  -- a JSON-RPC request
  abbrev pub rpc_call : ℕ → Text → Value N → Value N
  rpc_call id method params = object (
      field (codes "jsonrpc") (string (codes "2.0")) (
        field (codes "id") (number (env.of_ℕ id))
          (field (codes "method") (string method) (field (codes "params") params end))))

  -- the protocol version that the server names, or the client's own
  abbrev pub negotiated : Option (Value N) → Text
  negotiated (some (string version)) = version
  negotiated _ = codes "2025-11-25"

  -- The four requests of a recovery, in a session at this state, of this method and parameters; the
  -- handshake is answered by `result` and the session `sid`.
  abbrev pub first_request : Text → Value N → State N W → Request N
  first_request method params s =
      posted s.session.url (rpc_call s.session.next_id method params)
        (some s.session.protocol_version) s.session.session_id

  abbrev pub handshake_request : State N W → Request N
  handshake_request s =
      posted s.session.url
        (rpc_call (s.session.next_id + 1) (codes "initialize") (
          object (
            field (codes "protocolVersion") (string (codes "2025-11-25")) (
              field (codes "capabilities") (object end) (
                field (codes "clientInfo")
                  (object (
                    field (codes "name") (string (codes "pg_mcp"))
                      (field (codes "version") (string env.client_version) end)))
                  end)))))
        none none

  abbrev pub note_request : Value N → Option Text → State N W → Request N
  note_request result sid s =
      posted s.session.url
        (object (
          field (codes "jsonrpc") (string (codes "2.0"))
            (field (codes "method") (string (codes "notifications/initialized")) end)))
        (some (negotiated (get result (codes "protocolVersion")))) sid

  abbrev pub repeated_request : Text → Value N → Value N → Option Text → State N W → Request N
  repeated_request method params result sid s =
      posted s.session.url (rpc_call (s.session.next_id + 1 + 1) method params)
        (some (negotiated (get result (codes "protocolVersion")))) sid

  -- `serde_json::to_vec` encodes every document.
  pub record Encodes : Type 0 where
    pub always : (v : Value N) → env.encode_error v ≡ none

  dispatch-Answers :
      {w w' : W} {wire : Wire N} (q : Request N)
      → Encodes
      → AnswersTo q w wire w'
      → dispatch env q w ≡ (wire, w')
  unfolding dispatch
  dispatch-Answers {w} q enc a = ground (arith, a.calm, enc.always q.body, a.sent, a.read)

  abbrev at : State N W → W → State N W
  at s w = record s { world = w }

  transmit-Answers :
      {w' : W} {wire : Wire N} (q : Request N) (s : State N W)
      → Encodes
      → AnswersTo q s.world wire w'
      → transmit env t q s ≡ (wire, at s w')
  unfolding transmit
  transmit-Answers q s enc a = rw (dispatch-Answers q enc a)

  exchange_checked-Answers :
      {w' : W} {wire : Wire N} (body : Value N) (id : ℕ) (s : State N W)
      → Encodes
      → AnswersTo (build env t s.session body s.session.session_id true) s.world wire w'
      → exchange_checked env t body id s ≡ after_checked env t id (wire, at s w')
  unfolding exchange_checked
  exchange_checked-Answers body id s enc a =
      ap (after_checked env t id)
        (transmit-Answers (build env t s.session body s.session.session_id true) s enc a)

  exchange-Answers :
      {w' : W} {wire : Wire N} (body : Value N) (id : ℕ) (sid : Option Text) (send : Bool)
      (s : State N W)
      → Encodes
      → AnswersTo (build env t s.session body sid send) s.world wire w'
      → exchange env t body id sid send s ≡ after_exchange env t id (wire, at s w')
  unfolding exchange
  exchange-Answers body id sid send s enc a =
      ap (after_exchange env t id) (transmit-Answers (build env t s.session body sid send) s enc a)

  notify-accepted :
      {w' : W} (body : Value N) (s : State N W)
      → Encodes
      → AnswersTo (build env t s.session body s.session.session_id true) s.world accepted w'
      → notify env t body s ≡ (ok tt, at s w')
  unfolding notify
  notify-accepted body s enc a =
      ap (after_notify env t)
        (transmit-Answers (build env t s.session body s.session.session_id true) s enc a)

  -- an answer that says that the session is gone
  try_request_gone :
      {w' : W} (method : Text) (params : Value N) (s : State N W)
      → Encodes
      → AnswersTo (first_request method params s) s.world session_gone w'
      → try_request env t method params s ≡ (ok none, at (take_id env t s) w')
  unfolding try_request after_checked value_of
  try_request_gone method params s enc a =
      ap (λ r. and_then r (value_of env t))
        (exchange_checked-Answers (rpc_body env t s.session.next_id method params) s.session.next_id
          (take_id env t s) enc a)

  -- an answer with a result
  try_request_json :
      {w' : W} {v result : Value N} {sid : Option Text} (method : Text) (params : Value N)
      (s : State N W)
      → Encodes
      → AnswersTo (first_request method params s) s.world (json v sid) w'
      → finish env.decoder v s.session.next_id ≡ ok result
      → try_request env t method params s ≡ (ok (some result), at (take_id env t s) w')
  unfolding try_request after_checked value_of
  try_request_json method params s enc a fin =
      ap (λ r. and_then r (value_of env t))
        (exchange_checked-Answers (rpc_body env t s.session.next_id method params) s.session.next_id
          (take_id env t s) enc a)
      ∙ rw fin

  -- the state behind a handshake with this answer
  abbrev pub restored : Value N → Option Text → W → W → State N W → State N W
  restored result sid w₁ w₂ s = at (established env t result sid (at (take_id env t s) w₁)) w₂

  -- a handshake that the server completes
  initialize_json :
      {w₁ w₂ : W} {v result : Value N} {sid : Option Text} (s : State N W)
      → Encodes
      → AnswersTo
          (build env t s.session
            (rpc_body env t s.session.next_id (codes "initialize") (initialize_params env t))
            none
            false)
          s.world
          (json v sid)
          w₁
      → AnswersTo
          (build env t (established env t result sid s).session (initialized_note env t) sid true)
          w₁
          accepted
          w₂
      → finish env.decoder v s.session.next_id ≡ ok result
      → initialize env t s ≡ (ok tt, restored result sid w₁ w₂ s)
  unfolding initialize after_exchange complete_handshake
  initialize_json {w₁} {w₂} {v} {result} {sid} s enc a b fin =
      ap (λ r. and_then r (complete_handshake env t))
        (exchange-Answers
          (rpc_body env t s.session.next_id (codes "initialize") (initialize_params env t))
          s.session.next_id none false (take_id env t s) enc a)
      ∙ rw fin (
          notify-accepted (initialized_note env t)
            (established env t result sid (at (take_id env t s) w₁)) enc b)

  -- Let every document be encodable and no interrupt be pending at the four requests: the request
  -- itself; `initialize` with the next id, without a session id; the notification, with the session id
  -- and the protocol version of the answer; and the request repeated, with the id after that. Where the
  -- first is answered that the session is gone, the second by a result and the header of a new session,
  -- the third is accepted and the fourth gets a result, the request returns that result; the session
  -- then has the new id, three more ids are used and one more initialization is counted.
  pub request_recovers :
      {w₁ w₂ w₃ w₄ : W} {v₁ r₁ v₂ r₂ : Value N} {sid sid' : Option Text} (method : Text)
      (params : Value N) (s : State N W)
      → Encodes
      → AnswersTo (first_request method params s) s.world session_gone w₁
      → AnswersTo (handshake_request s) w₁ (json v₁ sid) w₂
      → finish env.decoder v₁ (s.session.next_id + 1) ≡ ok r₁
      → AnswersTo (note_request r₁ sid s) w₂ accepted w₃
      → AnswersTo (repeated_request method params r₁ sid s) w₃ (json v₂ sid') w₄
      → finish env.decoder v₂ (s.session.next_id + 1 + 1) ≡ ok r₂
      → (s' : State N W) × (request env t method params s ≡ (ok r₂, s'))
        × (s'.session.session_id ≡ sid)
        × (s'.session.next_id ≡ s.session.next_id + 3)
        × (s'.session.initialize_count ≡ s.session.initialize_count + 1)
        × (s'.world ≡ w₄)
  unfolding request retry_once try_again established
  request_recovers {w₁} {w₂} {w₃} {w₄} {r₁ = r₁} {sid = sid} method params s enc a b fin₁ c d fin₂ =
      let gone = drop_session_id env t (at (take_id env t s) w₁) in
      let back = restored r₁ sid w₂ w₃ gone in
      (
        at (take_id env t back) w₄,
        ap (λ r. and_then r (retry_once env t method params))
              (try_request_gone method params s enc a)
            ∙ ap (λ r. and_then r (try_again env t method params))
                (initialize_json gone enc b c fin₁)
            ∙ ap (λ r. and_then r (second_answer env t))
                (try_request_json method params back enc d fin₂),
        refl,
        omega arith,
        refl,
        refl,
      )

  -- Let every document be encodable and no interrupt be pending. An error whose message says
  -- that the session has expired makes `try_request` answer that the session is gone if it came
  -- as a JSON body; if it came over an event stream, the same error is returned as it is.
  pub expired_session_by_transport :
      {w₁ w₂ : W} {v : Value N} {sid : Option Text} {stream : Stream} {s₂ : State N W}
      {e : McpError} (method : Text) (params : Value N) (s z : State N W)
      → Encodes
      → is_expired_session (message e) ≡ true
      → Answers s.world (json v sid) w₁
      → finish env.decoder v s.session.next_id ≡ err e
      → Answers z.world (sse stream) w₂
      → read_stream env t stream z.session.next_id (at (take_id env t z) w₂) ≡ (ok v, s₂)
      → finish env.decoder v z.session.next_id ≡ err e
      → (try_request env t method params s ≡ (ok none, at (take_id env t s) w₁))
        × (try_request env t method params z ≡ (err e, s₂))
  unfolding try_request after_checked value_of
  expired_session_by_transport method params s z enc expired a fin b arrived fin' = (
    ap (λ r. and_then r (value_of env t))
          (exchange_checked-Answers (rpc_body env t s.session.next_id method params)
            s.session.next_id (take_id env t s) enc (toward _ a))
        ∙ rw fin (rw expired),
    ap (λ r. and_then r (value_of env t))
          (exchange_checked-Answers (rpc_body env t z.session.next_id method params)
            z.session.next_id (take_id env t z) enc (toward _ b))
        ∙ rw arrived (rw fin'),
  )
