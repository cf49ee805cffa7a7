-- ===== src/Sessions.antt =====
-- pg/pg_mcp/src/session.rs: the sessions that a backend keeps, by server and role.
-- The closure that uses a session is `use_session`. It may re-enter SQL, so it also takes the map and
-- returns it.
pub mod Kept
mod Tests
use elixir_mcp_lib.Base.{
  ℕ, Bool, true, false, Option, none, some, List, [], ◌∷◌, if◌then◌else◌, Text, text_eq,
}
use elixir_mcp_lib.Base.Assoc
use elixir_mcp_lib.Base.Assoc.{Key}
use elixir_mcp_lib.Json.{Value, null, object, end}
use elixir_mcp_lib.Errors.{McpError, McpResult, ok, err, is_transport}
use elixir_mcp_lib.Options.{ServerOptions}
use elixir_mcp_lib.Cache.{CacheKey, oids_key}
use elixir_mcp_lib.Client.Wire.{Env}
use elixir_mcp_lib.Client.Session.{McpSession, Transport, open_session}

-- what `resolve` has found for a server and the current role
pub record Resolved : Type 0 where
  pub key : CacheKey
  pub options : ServerOptions
  pub bearer : Option Text

abbrev pub Sessions : Type 0 → Type 0
Sessions N = List (CacheKey × McpSession N)

-- The session's own flags are observed once there is a session.
abbrev pub transport_of : Resolved → Bool → Transport
transport_of resolved observing = record {
  timeout_ms = resolved.options.timeout_ms;
  bearer = resolved.bearer;
  observing = observing;
}

module _ {N W : Type 0} (env : Env N W) where
  -- the session to use: the kept one if it has the server's URL, else a new one
  unfoldable pub session_for : Resolved → Option (McpSession N) → W → McpResult (McpSession N) × W
  unfolding open_session
  session_for resolved none w =
      open_session env (transport_of resolved false) resolved.options.url w
  session_for resolved (some existing) w =
      if text_eq existing.url resolved.options.url
      then (ok existing, w)
      else open_session env (transport_of resolved false) resolved.options.url w

module _ {N A : Type 0} where
  -- A session goes back into the map unless the transport failed.
  unfoldable pub give_back : CacheKey → McpResult A → McpSession N → Sessions N → Sessions N
  give_back key (ok a) session sessions = Assoc.insert sessions key session
  give_back key (err e) session sessions =
      if is_transport e then sessions else Assoc.insert sessions key session

module _ {N W A : Type 0} (env : Env N W)
    (use_session : Transport
      → McpSession N
      → Sessions N
      → W
      → McpResult A × McpSession N × Sessions N × W) where
  -- what is done with the session, if there is one
  unfoldable pub run_in :
      Resolved → McpResult (McpSession N) × W → Sessions N → McpResult A × Sessions N × W
  unfolding give_back
  run_in resolved (err e, w) sessions = (err e, sessions, w)
  run_in resolved (ok session, w) sessions =
      let (outcome, session', sessions', w') =
        use_session (transport_of resolved true) session sessions w in
      (outcome, give_back resolved.key outcome session' sessions', w')

  -- The session is taken out of the map while it is used.
  unfoldable pub with_session : Resolved → Sessions N → W → McpResult A × Sessions N × W
  unfolding session_for run_in
  with_session resolved sessions w =
      run_in resolved (session_for env resolved (Assoc.find sessions resolved.key) w)
        (Assoc.remove sessions resolved.key)

module _ {N : Type 0} where
  abbrev holds : Option (McpSession N) → Bool
  holds none = false
  holds (some s) = true

  unfoldable pub drop_session : CacheKey → Sessions N → Bool × Sessions N
  drop_session key sessions = (holds (Assoc.find sessions key), Assoc.remove sessions key)

  -- the argument object of a request; a missing one is empty
  unfoldable pub params_object : Option (Value N) → Value N
  params_object none = object end
  params_object (some null) = object end
  params_object (some v) = v
