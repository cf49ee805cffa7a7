-- ===== src/Options.antt =====
-- pg/pg_mcp/src/options.rs: the options of a foreign server and of a user mapping.
-- The crate `url`, name resolution and Rust's parsing of integers are the record `Net`; a name
-- resolves alike throughout one call.
pub mod Accepted
pub mod Qualified
pub mod Mapping
mod Tests
use elixir_mcp_lib.Base.{
  ℕ, Bool, true, false, ◌&&◌, ◌||◌, not, Option, none, some, List, [], ◌∷◌, ◌++◌, if◌then◌else◌,
  ltb, leb, ◌==◌, map, Text, codes, text_eq, contains, join, len, to_string, ℤ, pos, negsuc,
  is_ascii_lowercase, is_ascii_uppercase, is_ascii_digit, to_ascii_lowercase, All,
}
use elixir_mcp_lib.Errors.{McpError, invalid_option, McpResult, ok, err}
use elixir_mcp_lib.Errors.Results.{◌>>=◌, ◌>>◌, refuse_if, ok_or}

abbrev pub default_timeout_ms : ℕ
default_timeout_ms = 15_000

abbrev pub min_timeout_ms : ℕ
min_timeout_ms = 1

abbrev pub max_timeout_ms : ℕ
max_timeout_ms = 600_000

abbrev pub default_cache_ttl_ms : ℕ
default_cache_ttl_ms = 60_000

pub data Mode : Type 0 where
  auto generic sql : Mode

unfoldable pub parse_mode : Text → McpResult Mode
parse_mode raw =
    if text_eq raw (codes "auto")
    then ok auto
    else if text_eq raw (codes "generic")
    then ok generic
    else if text_eq raw (codes "sql")
    then ok sql
    else err (
        invalid_option (
          codes "invalid value for foreign server option \"mode\": \""
          ++ raw
          ++ codes "\" (expected auto, generic or sql)"))

-- `no_auth` is the source's `None`.
pub data AuthMode : Type 0 where
  bearer no_auth : AuthMode

unfoldable pub parse_auth : Text → McpResult AuthMode
parse_auth raw =
    if text_eq raw (codes "bearer")
    then ok bearer
    else if text_eq raw (codes "none")
    then ok no_auth
    else err (
        invalid_option (
          codes "invalid value for foreign server option \"auth\": \""
          ++ raw
          ++ codes "\" (expected bearer or none)"))

abbrev pub is_none : AuthMode → Bool
is_none bearer = false
is_none no_auth = true

pub record ServerOptions : Type 0 where
  pub url : Text
  pub mode : Mode
  pub timeout_ms : ℕ
  pub auth : AuthMode
  pub max_unqualified_reads : ℤ
  pub audit_table : Option Text
  pub cache_ttl_ms : ℕ

-- An address is of the type `Ip`.
pub data Host (Ip : Type 0) : Type 0 where
  address : Ip → Host Ip
  domain : Text → Host Ip

-- what the code asks of a parsed URL
pub record Url (Ip : Type 0) : Type 0 where
  pub scheme : Text
  pub host : Option (Host Ip)
  pub port_or_known_default : Option ℕ
  pub printed : Text

-- `parse_u64` and `parse_i64` are `raw.trim().parse()`, `is_blank` is `raw.trim().is_empty()`.
pub record Net (Ip : Type 0) : Type 0 where
  pub parse : Text → Option (Url Ip)
  pub to_socket_addrs : Text → ℕ → Option (List Ip)
  pub is_loopback : Ip → Bool
  pub parse_u64 : Text → Option ℕ
  pub parse_i64 : Text → Option ℤ
  pub is_blank : Text → Bool

abbrev pub server_option_names : List Text
server_option_names =
    codes "url"
    ∷ codes "mode"
    ∷ codes "timeout_ms"
    ∷ codes "auth"
    ∷ codes "max_unqualified_reads"
    ∷ codes "audit_table"
    ∷ codes "cache_ttl_ms"
    ∷ []

abbrev pub user_mapping_option_names : List Text
user_mapping_option_names = codes "token" ∷ codes "token_secret" ∷ []

-- the value of the first option of that name
abbrev pub option : List (Text × Text) → Text → Option Text
option [] k = none
option ((n, v) ∷ opts) k = if text_eq n k then some v else option opts k

abbrev pub unknown_option : Text → List Text → Text → McpError
unknown_option name valid what = invalid_option (
    codes "invalid option \""
    ++ name
    ++ codes "\" for a pg_mcp "
    ++ what
    ++ codes " (valid options: "
    ++ join valid (codes ", ")
    ++ codes ")")

-- the loop that refuses the first unknown name
unfoldable pub check_names : List Text → Text → List (Text × Text) → McpResult (Unit {0})
unfolding join
check_names valid what [] = ok tt
check_names valid what ((name, v) ∷ opts) =
    let rest = check_names valid what opts in
    if contains valid name then rest else err (unknown_option name valid what)

abbrev pub invalid_value : Text → Text → McpError
invalid_value name problem =
    invalid_option
      (codes "invalid value for foreign server option \"" ++ name ++ codes "\": " ++ problem)

-- a character in front of the first part
abbrev pub push_char : ℕ → List Text → List Text
push_char c [] = (c ∷ []) ∷ []
push_char c (p ∷ ps) = (c ∷ p) ∷ ps

-- `raw.split('.')`: the text up to each separator
unfoldable pub split : Text → ℕ → List Text
split [] sep = [] ∷ []
split (c ∷ s) sep = let rest = split s sep in if c == sep then [] ∷ rest else push_char c rest

abbrev pub is_ascii_alphabetic : ℕ → Bool
is_ascii_alphabetic c = is_ascii_lowercase c || is_ascii_uppercase c

abbrev pub is_identifier_char : ℕ → Bool
is_identifier_char c = (is_ascii_alphabetic c || is_ascii_digit c) || (c == b'_') || (c == b'$')

abbrev pub all_identifier_chars : Text → Bool
all_identifier_chars [] = true
all_identifier_chars (c ∷ s) = is_identifier_char c && all_identifier_chars s

abbrev pub starts_identifier : Text → Bool
starts_identifier [] = false
starts_identifier (c ∷ s) = is_ascii_alphabetic c || (c == b'_')

abbrev pub is_empty : Text → Bool
is_empty [] = true
is_empty (c ∷ s) = false

unfoldable pub is_plain_identifier : Text → Bool
unfolding len
is_plain_identifier s =
    not (is_empty s) && leb (len s) 63 && starts_identifier s && all_identifier_chars s

abbrev pub not_qualified : Text → Text → McpError
not_qualified raw name = invalid_option (
    codes "invalid value for option \""
    ++ name
    ++ codes "\": \""
    ++ raw
    ++ codes "\" is not a schema-qualified name (expected schema.table)")

abbrev pub not_plain : Text → Text → McpError
not_plain raw name = invalid_option (
    codes "invalid value for option \""
    ++ name
    ++ codes "\": \""
    ++ raw
    ++ codes "\" is not a plain SQL identifier pair")

-- the two tests on the parts of a name
unfoldable pub qualified_parts : Text → Text → List Text → McpResult (Text × Text)
unfolding is_plain_identifier
qualified_parts raw name (s ∷ t ∷ []) =
    if is_empty s || is_empty t
    then err (not_qualified raw name)
    else if is_plain_identifier s && is_plain_identifier t
    then ok (s, t)
    else err (not_plain raw name)
qualified_parts raw name _ = err (not_qualified raw name)

unfoldable pub split_qualified : Text → Text → McpResult (Text × Text)
unfolding split qualified_parts
split_qualified raw name = qualified_parts raw name (split raw b'.')

unfoldable pub parse_audit_table : Text → McpResult Text
unfolding split_qualified
parse_audit_table raw = do
  (schema, table) ← split_qualified raw (codes "audit_table")
  ok (schema ++ b'.' ∷ table)

abbrev pub is_empty_list {ℓ} : {A : Type ℓ} → List A → Bool
is_empty_list [] = true
is_empty_list (x ∷ xs) = false

-- `get(name)` parsed, or the default
abbrev pub or_default {ℓ} : {A : Type ℓ} → (Text → McpResult A) → A → Option Text → McpResult A
or_default parse d none = ok d
or_default parse d (some raw) = parse raw

abbrev pub optional {ℓ} : {A : Type ℓ} → (Text → McpResult A) → Option Text → McpResult (Option A)
optional parse none = ok none
optional parse (some raw) = do ok (some (← parse raw))

abbrev pub is_negative : ℤ → Bool
is_negative (pos n) = false
is_negative (negsuc n) = true

module _ {Ip : Type 0} where
  abbrev pub has_host : Url Ip → Bool
  has_host url = elim url.host [ none ↦ false | some h ↦ true ]

  abbrev pub is_http : Url Ip → Bool
  is_http url = text_eq url.scheme (codes "http")

module _ {Ip : Type 0} (net : Net Ip) where
  abbrev pub all_loopback : List Ip → Bool
  all_loopback [] = true
  all_loopback (a ∷ as') = net.is_loopback a && all_loopback as'

  -- some address, and every address loopback
  abbrev pub resolves_to_loopback : Option (List Ip) → Bool
  resolves_to_loopback none = false
  resolves_to_loopback (some addrs) = not (is_empty_list addrs) && all_loopback addrs

  abbrev pub host_is_loopback : Option ℕ → Option (Host Ip) → Bool
  host_is_loopback port none = false
  host_is_loopback port (some (address ip)) = net.is_loopback ip
  host_is_loopback port (some (domain name)) =
      if text_eq (map to_ascii_lowercase name) (codes "localhost")
      then true
      else resolves_to_loopback (net.to_socket_addrs name (elim port [ none ↦ 80 | some p ↦ p ]))

  unfoldable pub is_loopback : Url Ip → Bool
  is_loopback url = host_is_loopback url.port_or_known_default url.host

  unfoldable pub parse_url : Text → McpResult (Url Ip)
  parse_url raw = do
    parsed ←
        ok_or (net.parse raw)
          (invalid_value (codes "url") (codes "\"" ++ raw ++ codes "\" is not an absolute URL"))
    refuse_if (not (is_http parsed) && not (text_eq parsed.scheme (codes "https"))) (
        invalid_value (codes "url")
          (codes "scheme \"" ++ parsed.scheme ++ codes "\" is not http or https"))
    refuse_if (not (has_host parsed)) (invalid_value (codes "url") (codes "missing host"))
    ok parsed

  abbrev pub not_an_integer : Text → Text → McpError
  not_an_integer name raw = invalid_value name (codes "\"" ++ raw ++ codes "\" is not an integer")

  unfoldable pub parse_timeout : Text → McpResult ℕ
  unfolding to_string
  parse_timeout raw = do
    n ← ok_or (net.parse_u64 raw) (not_an_integer (codes "timeout_ms") raw)
    refuse_if (not (leb min_timeout_ms n && leb n max_timeout_ms)) (
        invalid_value (codes "timeout_ms") (
          to_string n
          ++ codes " is outside "
          ++ to_string min_timeout_ms
          ++ codes ".."
          ++ to_string max_timeout_ms))
    ok n

  unfoldable pub parse_non_negative : Text → Text → McpResult ℤ
  parse_non_negative name raw = do
    n ← ok_or (net.parse_i64 raw) (not_an_integer name raw)
    refuse_if (is_negative n) (invalid_value name (codes "must be >= 0"))
    ok n

  unfoldable pub parse_non_negative_u64 : Text → Text → McpResult ℕ
  parse_non_negative_u64 name raw = ok_or (net.parse_u64 raw) (not_an_integer name raw)

  abbrev pub url_required : McpError
  url_required = invalid_option (codes "foreign server option \"url\" is required")

  abbrev pub auth_needs_loopback : McpError
  auth_needs_loopback = invalid_option (
      codes
        "foreign server option \"auth\" may only be 'none' when \"url\" points at a loopback host")

  abbrev pub http_needs_loopback : McpError
  http_needs_loopback =
      invalid_option
        (codes "foreign server option \"url\" must use https unless the host is loopback")

  -- `ServerOptions::parse`
  unfoldable pub parse : List (Text × Text) → McpResult ServerOptions
  unfolding check_names parse_url parse_mode parse_timeout parse_auth is_loopback parse_non_negative
      parse_audit_table parse_non_negative_u64
  parse opts = do
    check_names server_option_names (codes "foreign server") opts
    raw_url ← ok_or (option opts (codes "url")) url_required
    parsed ← parse_url raw_url
    mode ← or_default parse_mode auto (option opts (codes "mode"))
    timeout_ms ← or_default parse_timeout default_timeout_ms (option opts (codes "timeout_ms"))
    auth ← or_default parse_auth bearer (option opts (codes "auth"))
    refuse_if (is_none auth && not (is_loopback parsed)) auth_needs_loopback
    refuse_if (is_http parsed && not (is_loopback parsed)) http_needs_loopback
    max_unqualified_reads ←
        or_default (parse_non_negative (codes "max_unqualified_reads")) (pos 0)
          (option opts (codes "max_unqualified_reads"))
    audit_table ← optional parse_audit_table (option opts (codes "audit_table"))
    cache_ttl_ms ←
        or_default (parse_non_negative_u64 (codes "cache_ttl_ms")) default_cache_ttl_ms
          (option opts (codes "cache_ttl_ms"))
    ok record {
      url = parsed.printed;
      mode = mode;
      timeout_ms = timeout_ms;
      auth = auth;
      max_unqualified_reads = max_unqualified_reads;
      audit_table = audit_table;
      cache_ttl_ms = cache_ttl_ms;
    }

pub data Credential : Type 0 where
  token : Text → Credential
  token_secret : Text → Text → Credential

pub record UserMappingOptions : Type 0 where
  pub credential : Credential

module _ {Ip : Type 0} (net : Net Ip) where
  -- the `match` on the two options
  unfoldable pub mapping_of : Option Text → Option Text → McpResult UserMappingOptions
  unfolding split_qualified
  mapping_of (some t) (some secret) = err (
      invalid_option
        (codes "user mapping options \"token\" and \"token_secret\" are mutually exclusive"))
  mapping_of (some t) none = do
    refuse_if (net.is_blank t)
        (invalid_option (codes "user mapping option \"token\" must not be empty"))
    ok record { credential = token t }
  mapping_of none (some secret) = do
    (schema, table) ← split_qualified secret (codes "token_secret")
    ok record { credential = token_secret schema table }
  mapping_of none none =
      err (
        invalid_option
          (codes "a pg_mcp user mapping requires either \"token\" or \"token_secret\""))

  -- `UserMappingOptions::parse`
  unfoldable pub parse_mapping : List (Text × Text) → McpResult UserMappingOptions
  unfolding check_names mapping_of
  parse_mapping opts = do
    check_names user_mapping_option_names (codes "user mapping") opts
    mapping_of (option opts (codes "token")) (option opts (codes "token_secret"))
