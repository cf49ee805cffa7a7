-- ===== src/Options/Accepted.antt =====
-- What an accepted option list guarantees.
use elixir_mcp_lib.Base.{
  ℕ, ◌≤◌, ◌≡◌, refl, arith, true, false, ◌&&◌, not, Option, none, some, List, [], ◌∷◌, ◌++◌, ◌⊎◌,
  inl, inr, Text, codes, text_eq, contains, ℤ, pos, negsuc, All, Bool-cases,
}
use elixir_mcp_lib.Errors.{McpResult, ok, err}
use elixir_mcp_lib.Errors.Results.{
  Ensures, returns, fails, Ensures-bind, Ensures-refuse_if, Ensures-ok_or, Ensures-returned,
  Ensures-if, Ensures-imp, Ensures-any,
}
use elixir_mcp_lib.Options.Qualified.{IsPairOf, Ensures-qualified_parts}
use elixir_mcp_lib.Options.{
  auto, AuthMode, bearer, no_auth, is_none, ServerOptions, Url, Net, parse_mode, parse_auth,
  server_option_names, option, check_names, unknown_option, split, is_plain_identifier,
  split_qualified, parse_audit_table, or_default, optional, is_negative, is_loopback, has_host,
  is_http, parse_url, parse_timeout, parse_non_negative, parse_non_negative_u64, parse,
  default_timeout_ms, default_cache_ttl_ms,
}

Ensures-or_default {ℓ κ} :
    {A : Type ℓ} (P : A → Type κ) (f : Text → McpResult A) (d : A) (o : Option Text)
    → P d
    → ((raw : Text) → Ensures P (f raw))
    → Ensures P (or_default f d o)
Ensures-or_default P f d none p h = returns d p
Ensures-or_default P f d (some raw) p h = h raw

-- what holds of a value that may be missing
abbrev pub IfSome : (Text → Type 0) → Option Text → Type 0
IfSome P none = Unit
IfSome P (some t) = P t

Ensures-optional :
    (P : Text → Type 0) (f : Text → McpResult Text) (o : Option Text)
    → ((raw : Text) → Ensures P (f raw))
    → Ensures (IfSome P) (optional f o)
Ensures-optional P f none h = returns none tt
Ensures-optional P f (some raw) h =
    Ensures-bind P (IfSome P) (λ a. ok (some a)) (h raw) (λ a p. returns (some a) p)

abbrev pub AllKnown : List Text → List (Text × Text) → Type 0
AllKnown valid opts = All (λ (p : Text × Text). contains valid p.0 ≡ true) opts

pub Ensures-check_names :
    (valid : List Text) (what : Text) (opts : List (Text × Text))
    → Ensures (λ (_ : Unit {0}). AllKnown valid opts) (check_names valid what opts)
unfolding check_names
Ensures-check_names valid what [] = returns tt tt
Ensures-check_names valid what ((n, v) ∷ opts) =
    Ensures-if (λ (_ : Unit {0}). AllKnown valid ((n, v) ∷ opts)) (contains valid n)
      (check_names valid what opts) (err (unknown_option n valid what))
      (λ known.
        Ensures-imp (λ (_ : Unit {0}). AllKnown valid opts)
          (λ (_ : Unit {0}). AllKnown valid ((n, v) ∷ opts)) (λ a h. (known, h))
          (Ensures-check_names valid what opts))
      (λ unknown. fails (unknown_option n valid what))

-- Two plain identifiers around a dot.
abbrev pub IsQualified : Text → Type 0
IsQualified t =
    (schema : Text) × (table : Text) × (t ≡ schema ++ b'.' ∷ table)
    × (is_plain_identifier schema ≡ true)
    × (is_plain_identifier table ≡ true)

Ensures-parse_audit_table : (raw : Text) → Ensures IsQualified (parse_audit_table raw)
unfolding parse_audit_table split_qualified
Ensures-parse_audit_table raw =
    Ensures-bind (IsPairOf (split raw b'.')) IsQualified _
      (Ensures-qualified_parts raw (codes "audit_table") (split raw b'.'))
      (λ p h. returns _ (p.0, p.1, refl, h.1, h.2))

module _ {Ip : Type 0} (net : Net Ip) where
  abbrev IsUrl : Text → Url Ip → Type 0
  IsUrl raw url =
      (net.parse raw ≡ some url)
      × ((is_http url ≡ true) ⊎ (text_eq url.scheme (codes "https") ≡ true))
      × (has_host url ≡ true)

  scheme_of :
      (url : Url Ip)
      → (not (is_http url) && not (text_eq url.scheme (codes "https"))) ≡ false
      → (is_http url ≡ true) ⊎ (text_eq url.scheme (codes "https") ≡ true)
  scheme_of url h = elim (Bool-cases (is_http url)) [
    | inl http ↦ inl http
    | inr other ↦ inr (ground (arith, other))
  ]

  Ensures-parse_url : (raw : Text) → Ensures (IsUrl raw) (parse_url net raw)
  unfolding parse_url
  Ensures-parse_url raw =
      Ensures-bind (λ url. net.parse raw ≡ some url) (IsUrl raw) _ (Ensures-ok_or (net.parse raw) _)
        (λ url parsed. Ensures-bind _ (IsUrl raw) _ (Ensures-refuse_if _ _) (λ _ scheme.
          Ensures-bind _ (IsUrl raw) _ (Ensures-refuse_if _ _)
            (λ _ host. returns url (parsed, scheme_of url scheme, ground arith))))

  abbrev IsInRange : ℕ → Type 0
  IsInRange n = (1 ≤ n) × (n ≤ 600_000)

  Ensures-parse_timeout : (raw : Text) → Ensures IsInRange (parse_timeout net raw)
  unfolding parse_timeout
  Ensures-parse_timeout raw =
      Ensures-bind (λ n. net.parse_u64 raw ≡ some n) IsInRange _
        (Ensures-ok_or (net.parse_u64 raw) _)
        (λ n parsed.
          Ensures-bind _ IsInRange _ (Ensures-refuse_if _ _)
            (λ _ inside. returns n (ground arith, ground arith)))

  abbrev IsNatural : ℤ → Type 0
  IsNatural z = (n : ℕ) × (z ≡ pos n)

  natural : (z : ℤ) → is_negative z ≡ false → IsNatural z
  natural (pos n) h = (n, refl)
  natural (negsuc n) h = cc

  Ensures-parse_non_negative :
      (name raw : Text) → Ensures IsNatural (parse_non_negative net name raw)
  unfolding parse_non_negative
  Ensures-parse_non_negative name raw =
      Ensures-bind (λ z. net.parse_i64 raw ≡ some z) IsNatural _
        (Ensures-ok_or (net.parse_i64 raw) _)
        (λ z parsed.
          Ensures-bind _ IsNatural _ (Ensures-refuse_if _ _) (λ _ sign. returns z (natural z sign)))

-- What `parse` promises of the options that it returns for a list.
pub record IsAccepted {Ip : Type 0} (net : Net Ip) (opts : List (Text × Text)) (o : ServerOptions)
    : Type 0 where
  pub known : AllKnown server_option_names opts
  pub raw : Text
  pub given : option opts (codes "url") ≡ some raw
  pub target : Url Ip
  pub parsed : net.parse raw ≡ some target
  pub hosted : has_host target ≡ true
  pub printed : o.url ≡ target.printed
  -- Plain http is for loopback hosts, and so is a server without authentication.
  pub secure : (text_eq target.scheme (codes "https") ≡ true) ⊎ (is_loopback net target ≡ true)
  pub authenticated : (o.auth ≡ bearer) ⊎ (is_loopback net target ≡ true)
  pub timely : (1 ≤ o.timeout_ms) × (o.timeout_ms ≤ 600_000)
  pub reads : (n : ℕ) × (o.max_unqualified_reads ≡ pos n)
  pub audited : IfSome IsQualified o.audit_table

module _ {Ip : Type 0} (net : Net Ip) where
  secure_of :
      (url : Url Ip)
      → (is_http url ≡ true) ⊎ (text_eq url.scheme (codes "https") ≡ true)
      → (is_http url && not (is_loopback net url)) ≡ false
      → (text_eq url.scheme (codes "https") ≡ true) ⊎ (is_loopback net url ≡ true)
  secure_of url (inl http) h = inr (ground (arith, http))
  secure_of url (inr https) h = inl https

  authenticated_of :
      (url : Url Ip) (auth : AuthMode)
      → (is_none auth && not (is_loopback net url)) ≡ false
      → (auth ≡ bearer) ⊎ (is_loopback net url ≡ true)
  authenticated_of url bearer h = inl refl
  authenticated_of url no_auth h = inr (ground arith)

  Ensures-parse : (opts : List (Text × Text)) → Ensures (IsAccepted net opts) (parse net opts)
  unfolding parse
  Ensures-parse opts =
      let Q = IsAccepted net opts in
      Ensures-bind _ Q _ (Ensures-check_names server_option_names _ opts) λ _ known.
        Ensures-bind _ Q _ (Ensures-ok_or (option opts (codes "url")) _) λ raw given.
          Ensures-bind (IsUrl net raw) Q _ (Ensures-parse_url net raw) λ url is_url.
            Ensures-bind _ Q _
              (Ensures-any (or_default parse_mode auto (option opts (codes "mode"))))
              λ mode _.
                Ensures-bind (IsInRange net) Q _
                  (Ensures-or_default (IsInRange net) (parse_timeout net) default_timeout_ms
                    (option opts (codes "timeout_ms")) (omega arith, omega arith)
                    (Ensures-parse_timeout net))
                  λ timeout timely.
                    Ensures-bind _ Q _
                      (Ensures-any (or_default parse_auth bearer (option opts (codes "auth"))))
                      λ auth _. Ensures-bind _ Q _ (Ensures-refuse_if _ _) λ _ opted.
                        Ensures-bind _ Q _ (Ensures-refuse_if _ _) λ _ encrypted.
                          Ensures-bind (IsNatural net) Q _
                            (Ensures-or_default (IsNatural net)
                              (parse_non_negative net (codes "max_unqualified_reads")) (pos 0)
                              (option opts (codes "max_unqualified_reads")) (0, refl)
                              (Ensures-parse_non_negative net (codes "max_unqualified_reads")))
                            λ reads natural.
                              Ensures-bind (IfSome IsQualified) Q _
                                (Ensures-optional IsQualified parse_audit_table
                                  (option opts (codes "audit_table")) Ensures-parse_audit_table)
                                λ audit audited.
                                  Ensures-bind _ Q _
                                    (Ensures-any (
                                      or_default (parse_non_negative_u64 net (codes "cache_ttl_ms"))
                                        default_cache_ttl_ms (option opts (codes "cache_ttl_ms"))))
                                    λ ttl _. returns _ (record {
                                      known = known;
                                      raw = raw;
                                      given = given;
                                      target = url;
                                      parsed = is_url.0;
                                      hosted = is_url.2;
                                      printed = refl;
                                      secure = secure_of url is_url.1 encrypted;
                                      authenticated = authenticated_of url auth opted;
                                      timely = timely;
                                      reads = natural;
                                      audited = audited;
                                    })

  -- A list of server options that is accepted names known options only and a URL with a host, over
  -- https or to a loopback host; authentication is left out for loopback hosts only, the timeout is
  -- between 1 and 600000 ms, the bound on reads is not negative, and an audit table is two plain
  -- identifiers around a dot.
  pub parse-IsAccepted :
      (opts : List (Text × Text)) (o : ServerOptions)
      → parse net opts ≡ ok o
      → IsAccepted net opts o
  parse-IsAccepted opts o h = Ensures-returned (IsAccepted net opts) o (Ensures-parse opts) h
