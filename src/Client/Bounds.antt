-- ===== src/Client/Bounds.antt =====
-- What a request may change in its session: how many ids it uses, and how often it re-initializes.
use elixir_mcp_lib.Base.{ℕ, ◌+◌, ◌≤◌, ◌≡◌, refl, arith, Bool, true, false, Option, none, some, Text}
use elixir_mcp_lib.Json.{Value}
use elixir_mcp_lib.Errors.{McpResult, ok, err}
use elixir_mcp_lib.Sse.{Stream}
use elixir_mcp_lib.Client.Wire.{Env, Wire, json, sse, accepted, session_gone, failed, Request}
use elixir_mcp_lib.Client.Session.{
  McpSession, State, Transport, Exec, and_then, take_id, read_stream, transmit, build,
  after_exchange, exchange, after_notify, notify, after_checked, exchange_checked, established,
  initialize, try_request, second_answer, drop_session_id, retry_once, request, complete_handshake,
  value_of, try_again, rpc_body,
}

-- The step from `a` to `b` keeps the URL, uses `ids` to `more` ids, and initializes at most `n` times.
pub record Uses {N : Type 0} (ids more n : ℕ) (a b : McpSession N) : Type 0 where
  pub url : b.url ≡ a.url
  pub least : a.next_id + ids ≤ b.next_id
  pub most : b.next_id ≤ a.next_id + more
  pub init_least : a.initialize_count ≤ b.initialize_count
  pub init_most : b.initialize_count ≤ a.initialize_count + n

module _ {N : Type 0} where
  Uses-trans :
      {i m n j k l : ℕ} {a b c : McpSession N}
      → Uses i m n a b
      → Uses j k l b c
      → Uses (i + j) (m + k) (n + l) a c
  Uses-trans u v = record {
    url = cc (u.url, v.url);
    least = omega arith;
    most = omega arith;
    init_least = omega arith;
    init_most = omega arith;
  }

module _ {N W A B : Type 0} where
  -- A method behind another: the second may run, or the first has failed.
  and_then-Uses :
      (i m n m' n' : ℕ) (a : McpSession N) (r : McpResult A × State N W) (f : A → Exec N W B)
      → Uses i m n a r.1.session
      → ((x : A) (s : State N W) → Uses 0 m' n' s.session (f x s).1.session)
      → Uses i (m + m') (n + n') a (and_then r f).1.session
  and_then-Uses i m n m' n' a (ok x, s) f u step =
      let v = step x s in
      record {
        url = cc (u.url, v.url);
        least = omega arith;
        most = omega arith;
        init_least = omega arith;
        init_most = omega arith;
      }
  and_then-Uses i m n m' n' a (err e, s) f u step = record {
    url = u.url;
    least = u.least;
    most = omega arith;
    init_least = u.init_least;
    init_most = omega arith;
  }

module _ {N W : Type 0} (env : Env N W) (t : Transport) where
  read_stream-Uses :
      (stream : Stream) (id : ℕ) (s : State N W)
      → Uses 0 0 0 s.session (read_stream env t stream id s).1.session
  unfolding read_stream
  read_stream-Uses stream id s = record {
    url = refl;
    least = omega arith;
    most = omega arith;
    init_least = omega arith;
    init_most = omega arith;
  }

  transmit-Uses :
      (q : Request N) (s : State N W) → Uses 0 0 0 s.session (transmit env t q s).1.session
  unfolding transmit
  transmit-Uses q s = record {
    url = refl;
    least = omega arith;
    most = omega arith;
    init_least = omega arith;
    init_most = omega arith;
  }

  Uses-refl : (a : McpSession N) → Uses 0 0 0 a a
  Uses-refl a = record {
    url = refl;
    least = omega arith;
    most = omega arith;
    init_least = omega arith;
    init_most = omega arith;
  }

  after_checked-Uses :
      (a : McpSession N) (id : ℕ) (r : Wire N × State N W)
      → Uses 0 0 0 a r.1.session
      → Uses 0 0 0 a (after_checked env t id r).1.session
  unfolding after_checked
  after_checked-Uses a id (json value sid, s) u = u
  after_checked-Uses a id (sse stream, s) u =
      and_then-Uses 0 0 0 0 0 a (read_stream env t stream id s) _
        (Uses-trans u (read_stream-Uses stream id s)) (λ x s'. Uses-refl s'.session)
  after_checked-Uses a id (accepted, s) u = u
  after_checked-Uses a id (session_gone, s) u = u
  after_checked-Uses a id (failed e, s) u = u

  after_exchange-Uses :
      (a : McpSession N) (id : ℕ) (r : Wire N × State N W)
      → Uses 0 0 0 a r.1.session
      → Uses 0 0 0 a (after_exchange env t id r).1.session
  unfolding after_exchange
  after_exchange-Uses a id (json value sid, s) u = u
  after_exchange-Uses a id (sse stream, s) u =
      and_then-Uses 0 0 0 0 0 a (read_stream env t stream id s) _
        (Uses-trans u (read_stream-Uses stream id s)) (λ x s'. Uses-refl s'.session)
  after_exchange-Uses a id (accepted, s) u = u
  after_exchange-Uses a id (session_gone, s) u = u
  after_exchange-Uses a id (failed e, s) u = u

  after_notify-Uses :
      (a : McpSession N) (r : Wire N × State N W)
      → Uses 0 0 0 a r.1.session
      → Uses 0 0 0 a (after_notify env t r).1.session
  unfolding after_notify
  after_notify-Uses a (failed e, s) u = u
  after_notify-Uses a (_, s) u = u

  exchange_checked-Uses :
      (body : Value N) (id : ℕ) (s : State N W)
      → Uses 0 0 0 s.session (exchange_checked env t body id s).1.session
  exchange_checked-Uses body id s =
      let q = build env t s.session body s.session.session_id true in
      unfold exchange_checked in
      after_checked-Uses s.session id (transmit env t q s) (transmit-Uses q s)

  exchange-Uses :
      (body : Value N) (id : ℕ) (sid : Option Text) (send : Bool) (s : State N W)
      → Uses 0 0 0 s.session (exchange env t body id sid send s).1.session
  exchange-Uses body id sid send s =
      let q = build env t s.session body sid send in
      unfold exchange in after_exchange-Uses s.session id (transmit env t q s) (transmit-Uses q s)

  notify-Uses :
      (body : Value N) (s : State N W) → Uses 0 0 0 s.session (notify env t body s).1.session
  notify-Uses body s =
      let q = build env t s.session body s.session.session_id true in
      unfold notify in after_notify-Uses s.session (transmit env t q s) (transmit-Uses q s)

  take_id-Uses : (s : State N W) → Uses 1 1 0 s.session (take_id env t s).session
  take_id-Uses s = record {
    url = refl;
    least = omega arith;
    most = omega arith;
    init_least = omega arith;
    init_most = omega arith;
  }

  established-Uses :
      (result : Value N) (sid : Option Text) (s : State N W)
      → Uses 0 0 1 s.session (established env t result sid s).session
  unfolding established
  established-Uses result sid s = record {
    url = refl;
    least = omega arith;
    most = omega arith;
    init_least = omega arith;
    init_most = omega arith;
  }

  complete_handshake-Uses :
      (answer : Value N × Option Text) (s : State N W)
      → Uses 0 0 1 s.session (complete_handshake env t answer s).1.session
  unfolding complete_handshake
  complete_handshake-Uses (result, sid) s =
      Uses-trans (established-Uses result sid s) (notify-Uses _ (established env t result sid s))

  initialize-Uses : (s : State N W) → Uses 1 1 1 s.session (initialize env t s).1.session
  unfolding initialize
  initialize-Uses s =
      and_then-Uses 1 1 0 0 1 s.session
        (exchange env t _ s.session.next_id none false (take_id env t s)) (complete_handshake env t)
        (Uses-trans (take_id-Uses s)
          (exchange-Uses _ s.session.next_id none false (take_id env t s)))
        complete_handshake-Uses

  value_of-Uses :
      (answer : Option (Value N × Option Text)) (s : State N W)
      → Uses 0 0 0 s.session (value_of env t answer s).1.session
  unfolding value_of
  value_of-Uses none s = Uses-refl s.session
  value_of-Uses (some (value, sid)) s = Uses-refl s.session

  try_request-Uses :
      (method : Text) (params : Value N) (s : State N W)
      → Uses 1 1 0 s.session (try_request env t method params s).1.session
  unfolding try_request
  try_request-Uses method params s =
      and_then-Uses 1 1 0 0 0 s.session
        (exchange_checked env t (rpc_body env t s.session.next_id method params) s.session.next_id
          (take_id env t s))
        (value_of env t)
        (Uses-trans (take_id-Uses s) (exchange_checked-Uses _ s.session.next_id (take_id env t s)))
        value_of-Uses

  second_answer-Uses :
      (answer : Option (Value N)) (s : State N W)
      → Uses 0 0 0 s.session (second_answer env t answer s).1.session
  second_answer-Uses none s = Uses-refl s.session
  second_answer-Uses (some v) s = Uses-refl s.session

  -- one id or more is none or more
  Uses-weaken : {i m n : ℕ} {a b : McpSession N} → Uses i m n a b → Uses 0 m n a b
  Uses-weaken u = record {
    url = u.url;
    least = omega arith;
    most = u.most;
    init_least = u.init_least;
    init_most = u.init_most;
  }

  try_again-Uses :
      (method : Text) (params : Value N) (u : Unit {0}) (s : State N W)
      → Uses 0 1 0 s.session (try_again env t method params u s).1.session
  unfolding try_again
  try_again-Uses method params u s = Uses-weaken (
      and_then-Uses 1 1 0 0 0 s.session (try_request env t method params s) (second_answer env t)
        (try_request-Uses method params s) second_answer-Uses)

  retry_once-Uses :
      (method : Text) (params : Value N) (answer : Option (Value N)) (s : State N W)
      → Uses 0 2 1 s.session (retry_once env t method params answer s).1.session
  unfolding retry_once
  retry_once-Uses method params (some v) s = record {
    url = refl;
    least = omega arith;
    most = omega arith;
    init_least = omega arith;
    init_most = omega arith;
  }
  retry_once-Uses method params none s =
      let gone = drop_session_id env t s in
      let dropped : Uses 0 0 0 s.session gone.session = record {
        url = refl;
        least = omega arith;
        most = omega arith;
        init_least = omega arith;
        init_most = omega arith;
      } in
      Uses-weaken (
        and_then-Uses 1 1 1 1 0 s.session (initialize env t gone) (try_again env t method params)
          (Uses-trans dropped (initialize-Uses gone)) (try_again-Uses method params))

  -- Whatever the server answers, a request keeps the session's URL, moves the next id on by at least
  -- one and at most three, and counts at most one more initialization.
  pub request-Uses :
      (method : Text) (params : Value N) (s : State N W)
      → Uses 1 3 1 s.session (request env t method params s).1.session
  unfolding request
  request-Uses method params s =
      and_then-Uses 1 1 0 2 1 s.session (try_request env t method params s)
        (retry_once env t method params) (try_request-Uses method params s)
        (retry_once-Uses method params)
