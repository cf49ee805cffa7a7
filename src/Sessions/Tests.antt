-- ===== src/Sessions/Tests.antt =====
-- Two kept sessions, and a call whose transport fails.
use elixir_mcp_lib.Base.{pos, ℕ, ◌+◌, ◌≡◌, refl, false, none, some, [], ◌∷◌, Text, codes}
use elixir_mcp_lib.Base.Assoc
use elixir_mcp_lib.Json.{null}
use elixir_mcp_lib.Errors.{ok, transport, McpResult, err, is_transport}
use elixir_mcp_lib.Options.{auto, no_auth, ServerOptions}
use elixir_mcp_lib.Cache.{oids_key}
use elixir_mcp_lib.Client.Wire.{Env, unreachable}
use elixir_mcp_lib.Client.Session.{McpSession, Transport}
use elixir_mcp_lib.Sessions.{Resolved, Sessions, with_session}
use elixir_mcp_lib.Sessions.Kept.{LeavesMap, with_session_broken, with_session_reuses}

abbrev no_server : Env ℕ ℕ
no_server = record {
  decoder = record { from_str = λ t. none; as_i64 = λ n. none; parse_i64 = λ t. none };
  of_ℕ = λ n. n;
  client_version = codes "0.1.0";
  check = λ w. none;
  encode_error = λ v. none;
  send = λ q w. (unreachable (codes "ConnectionFailed"), w + 1);
}

abbrev session_to : Text → McpSession ℕ
session_to url = record {
  url = url;
  session_id = some (codes "s");
  protocol_version = codes "2025-11-25";
  server_info = null;
  capabilities = null;
  next_id = 2;
  initialize_count = 1;
  tools_list_changed = false;
}

abbrev kept : Sessions ℕ
kept = ((1, 10), session_to (codes "http://a")) ∷ ((1, 11), session_to (codes "http://a")) ∷ []

abbrev times_out :
    Transport → McpSession ℕ → Sessions ℕ → ℕ → McpResult ℕ × McpSession ℕ × Sessions ℕ × ℕ
times_out t s sessions w = (err (transport (codes "timeout")), s, sessions, w + 1)

abbrev local_options : ServerOptions
local_options = record {
  url = codes "http://a";
  mode = auto;
  timeout_ms = 1000;
  auth = no_auth;
  max_unqualified_reads = pos 0;
  audit_table = none;
  cache_ttl_ms = 60_000;
}

abbrev resolved : Resolved
resolved = record { key = (1, 10); options = local_options; bearer = none }

times_out-LeavesMap : LeavesMap no_server times_out
times_out-LeavesMap t s sessions w = refl

with_session_broken_example :
    Assoc.find (with_session no_server times_out resolved kept 0).1 (1, 10) ≡ none
unfolding with_session Assoc.find is_transport
with_session_broken_example =
    with_session_broken no_server times_out resolved kept 0 (transport (codes "timeout"))
      times_out-LeavesMap refl refl

abbrev answers :
    Transport → McpSession ℕ → Sessions ℕ → ℕ → McpResult ℕ × McpSession ℕ × Sessions ℕ × ℕ
answers t s sessions w = (ok w, record s { next_id = s.next_id + 1 }, sessions, w + 1)

with_session_reuses_example :
    ((with_session no_server answers resolved kept 5).0 ≡ ok 5)
    × (Assoc.find (with_session no_server answers resolved kept 5).1 (1, 10)
        ≡ some (record (session_to (codes "http://a")) { next_id = 3 }))
with_session_reuses_example =
    with_session_reuses no_server answers resolved kept 5 (session_to (codes "http://a"))
      (unfold Assoc.find in refl) refl (λ e failed. cc failed)
