-- ===== src/Options/Tests.antt =====
-- Runs of the option parsers.
use elixir_mcp_lib.Base.{
  ◌≡◌, refl, Bool, true, none, some, List, [], ◌∷◌, if◌then◌else◌, text_eq, Text, codes, pos, ◌↔◌,
}
use elixir_mcp_lib.Errors.{McpError, invalid_option, ok, err}
use elixir_mcp_lib.Options.{
  domain, Url, Net, auto, no_auth, ServerOptions, parse, split_qualified, token, parse_mapping,
  check_names, parse_url, parse_mode, parse_timeout, parse_auth, is_loopback, parse_non_negative,
  parse_audit_table, parse_non_negative_u64, split, qualified_parts, is_plain_identifier,
  mapping_of, user_mapping_option_names,
}
use elixir_mcp_lib.Options.Accepted.{AllKnown, IsAccepted, parse-IsAccepted}
use elixir_mcp_lib.Options.Mapping.{
  IsGiven, parse_mapping_iff, with_token, parse_mapping-with_token,
}

-- One URL is known, of a local host; an address is a Boolean, whether it is loopback.
abbrev local_url : Url Bool
local_url = record {
  scheme = codes "http";
  host = some (domain (codes "localhost"));
  port_or_known_default = some 80;
  printed = codes "http://localhost/mcp";
}

abbrev net : Net Bool
net = record {
  parse = λ raw. if text_eq raw (codes "http://localhost/mcp") then some local_url else none;
  to_socket_addrs = λ name port. some (true ∷ []);
  is_loopback = λ ip. ip;
  parse_u64 = λ raw. if text_eq raw (codes "20") then some 20 else none;
  parse_i64 = λ raw. if text_eq raw (codes "20") then some (pos 20) else none;
  is_blank = λ raw. text_eq raw [];
}

abbrev server_options : List (Text × Text)
server_options =
    (codes "url", codes "http://localhost/mcp")
    ∷ (codes "auth", codes "none")
    ∷ (codes "timeout_ms", codes "20")
    ∷ (codes "audit_table", codes "mcp.audit")
    ∷ []

abbrev accepted : ServerOptions
accepted = record {
  url = codes "http://localhost/mcp";
  mode = auto;
  timeout_ms = 20;
  auth = no_auth;
  max_unqualified_reads = pos 0;
  audit_table = some (codes "mcp.audit");
  cache_ttl_ms = 60_000;
}

parse_accepted : parse net server_options ≡ ok accepted
unfolding parse check_names parse_url parse_mode parse_timeout parse_auth is_loopback
    parse_non_negative parse_audit_table parse_non_negative_u64 split_qualified qualified_parts
    split is_plain_identifier
parse_accepted = refl

parse-IsAccepted_example : IsAccepted net server_options accepted
parse-IsAccepted_example = parse-IsAccepted net server_options accepted parse_accepted

abbrev with_secret : List (Text × Text)
with_secret = (codes "token", codes "t0p") ∷ []

parse_mapping_iff_example :
    (parse_mapping net with_secret ≡ ok (record { credential = token (codes "t0p") })) ↔ (
      AllKnown user_mapping_option_names with_secret
      × IsGiven net (some (codes "t0p")) none (token (codes "t0p")))
parse_mapping_iff_example =
    parse_mapping_iff net with_secret (record { credential = token (codes "t0p") })

abbrev exclusive : McpError
exclusive =
    invalid_option
      (codes "user mapping options \"token\" and \"token_secret\" are mutually exclusive")

abbrev both : List (Text × Text)
both = (codes "token", codes "t0p") ∷ (codes "token_secret", codes "mcp.tokens") ∷ []

refused : parse_mapping net (with_token (codes "t0p") both) ≡ err exclusive
unfolding parse_mapping check_names mapping_of
refused = refl

parse_mapping-with_token_example :
    parse_mapping net (with_token (codes "other") both) ≡ err exclusive
parse_mapping-with_token_example =
    parse_mapping-with_token net (codes "t0p") (codes "other") both exclusive refl refused
