-- ===== src/Tables/Catalog/Fetched.antt =====
-- What a scan of a list is given: a method that is missing, and a list that changed.
use mathlib.Core.Path.{subst}
use elixir_mcp_lib.Base.{
  sym, [], ◌∷◌, ℕ, zero, suc, ◌*◌, ◌≡◌, refl, ap, ◌∙◌, Bool, true, false, Option, none, some, List,
  Text, if◌then◌else◌, Option-cases, Bool-cases, inl, inr,
}
use elixir_mcp_lib.Json.{Value, object, end}
use elixir_mcp_lib.Errors.{
  McpResult, ok, err, invalid_params, method_not_found, forbidden, transport, undefined_object,
  no_auth_mapping, tool_error, invalid_option, not_implemented, internal, feature_not_supported,
  too_many_arguments, not_null_violation, datatype_mismatch, invalid_schema_name, rpc,
}
use elixir_mcp_lib.Cache.{
  Slice, tools, oids_eq_iff, entry, fresh_items, Caches, drop_tools, get_or_fetch, fetch_and_keep,
  CacheKey,
}
use elixir_mcp_lib.Cache.Laws.{entry-drop_tools}
use elixir_mcp_lib.Client.Wire.{Env}
use elixir_mcp_lib.Client.Session.{McpSession, Transport, State}
use elixir_mcp_lib.Client.Listing.{list_all}
use elixir_mcp_lib.Tables.Catalog.Scope.{scoped_items, strip_all}
use elixir_mcp_lib.Sessions.{Sessions}
use elixir_mcp_lib.Tables.{TableContext, effective_ttl_ms, upstream}
use elixir_mcp_lib.Tables.Catalog.Scan.{
  is_method_not_found, fail_open, scoped, map_ok, poll_changed, fetch_in,
}

abbrev pub is_missing {ℓ} : {A : Type ℓ} → McpResult A → Bool
is_missing (ok a) = false
is_missing (err e) = is_method_not_found e

module _ {N S : Type 0} where
  missing-fail_open : (r : McpResult (List (Value N)) × S) → is_missing (fail_open r).0 ≡ false
  unfolding fail_open
  missing-fail_open (ok a, s) = refl
  missing-fail_open (err e, s) = elim (Bool-cases (is_method_not_found e)) [
    | inl missing ↦ rw missing refl
    | inr other ↦ rw (other, other) refl
  ]

missing-map_ok {ℓ κ} :
    {A : Type ℓ} {B : Type κ} (f : A → B) (r : McpResult A) → is_missing (map_ok f r) ≡ is_missing r
missing-map_ok f (ok a) = refl
missing-map_ok f (err e) = refl

module _ {A S : Type 0} (fetch : S → McpResult (List A) × S) (now later : ℕ) where
  missing-get_or_fetch :
      (key : CacheKey) (ttl : ℕ) (slice : Slice) (caches : Caches A) (s : S)
      → ((s : S) → is_missing (fetch s).0 ≡ false)
      → is_missing (get_or_fetch fetch now later key ttl slice caches s).0 ≡ false
  unfolding get_or_fetch fetch_and_keep
  missing-get_or_fetch key zero slice caches s h = h s
  missing-get_or_fetch key (suc ms) slice caches s h =
      elim (Option-cases (fresh_items (entry caches key slice) (suc ms * 1_000_000) now)) [
        | inl stale ↦ rw (stale, get_or_fetch) (h s)
        | inr (listed, fresh) ↦ rw (fresh, get_or_fetch) refl
      ]

  -- an entry that is not there is fetched
  get_or_fetch_absent :
      (key : CacheKey) (ttl : ℕ) (slice : Slice) (caches : Caches A) (s : S)
      → entry caches key slice ≡ none
      → ((get_or_fetch fetch now later key ttl slice caches s).0 ≡ (fetch s).0)
        × ((get_or_fetch fetch now later key ttl slice caches s).2 ≡ (fetch s).1)
  unfolding get_or_fetch fetch_and_keep fresh_items
  get_or_fetch_absent key zero slice caches s h = (refl, refl)
  get_or_fetch_absent key (suc ms) slice caches s h =
      (rw (h, get_or_fetch) refl, rw (h, get_or_fetch) refl)

module _ {A : Type 0} where
  dropped : (key : CacheKey) (caches : Caches A) → entry (drop_tools key caches).1 key tools ≡ none
  dropped key caches =
      (entry-drop_tools key caches key tools).0 ∙ rw ((oids_eq_iff key key).1 refl) refl

module _ {N : Type 0} where
  -- What a scan gives where the server's answer to the list is the first argument.
  abbrev pub IsRelisted :
      Option Text → McpResult (List (Value N)) → McpResult (List (Value N)) → Type 0
  IsRelisted u (ok listed) r = r ≡ ok (scoped u listed)
  IsRelisted u (err (method_not_found m)) r = r ≡ ok []
  IsRelisted u (err (invalid_params m)) r = r ≡ err (invalid_params m)
  IsRelisted u (err (forbidden m)) r = r ≡ err (forbidden m)
  IsRelisted u (err (transport m)) r = r ≡ err (transport m)
  IsRelisted u (err (undefined_object m)) r = r ≡ err (undefined_object m)
  IsRelisted u (err (no_auth_mapping m)) r = r ≡ err (no_auth_mapping m)
  IsRelisted u (err (tool_error m)) r = r ≡ err (tool_error m)
  IsRelisted u (err (invalid_option m)) r = r ≡ err (invalid_option m)
  IsRelisted u (err (not_implemented m)) r = r ≡ err (not_implemented m)
  IsRelisted u (err (internal m)) r = r ≡ err (internal m)
  IsRelisted u (err (feature_not_supported m)) r = r ≡ err (feature_not_supported m)
  IsRelisted u (err (too_many_arguments m)) r = r ≡ err (too_many_arguments m)
  IsRelisted u (err (not_null_violation m)) r = r ≡ err (not_null_violation m)
  IsRelisted u (err (datatype_mismatch m)) r = r ≡ err (datatype_mismatch m)
  IsRelisted u (err (invalid_schema_name m)) r = r ≡ err (invalid_schema_name m)
  IsRelisted u (err (rpc c m)) r = r ≡ err (rpc c m)

  scoped_none : (u : Option Text) → scoped {N = N} u [] ≡ []
  unfolding scoped scoped_items strip_all
  scoped_none none = refl
  scoped_none (some []) = refl
  scoped_none (some (c ∷ t)) = refl

module _ {N W : Type 0} where
  fail_open-IsRelisted :
      (u : Option Text) (r : McpResult (List (Value N))) (s : State N W)
      → IsRelisted u r (map_ok (scoped u) (fail_open (r, s)).0)
  unfolding fail_open
  fail_open-IsRelisted u (ok listed) s = refl
  fail_open-IsRelisted u (err (method_not_found m)) s = ap ok (scoped_none u)
  fail_open-IsRelisted u (err (invalid_params m)) s = refl
  fail_open-IsRelisted u (err (forbidden m)) s = refl
  fail_open-IsRelisted u (err (transport m)) s = refl
  fail_open-IsRelisted u (err (undefined_object m)) s = refl
  fail_open-IsRelisted u (err (no_auth_mapping m)) s = refl
  fail_open-IsRelisted u (err (tool_error m)) s = refl
  fail_open-IsRelisted u (err (invalid_option m)) s = refl
  fail_open-IsRelisted u (err (not_implemented m)) s = refl
  fail_open-IsRelisted u (err (internal m)) s = refl
  fail_open-IsRelisted u (err (feature_not_supported m)) s = refl
  fail_open-IsRelisted u (err (too_many_arguments m)) s = refl
  fail_open-IsRelisted u (err (not_null_violation m)) s = refl
  fail_open-IsRelisted u (err (datatype_mismatch m)) s = refl
  fail_open-IsRelisted u (err (invalid_schema_name m)) s = refl
  fail_open-IsRelisted u (err (rpc c m)) s = refl

module _ {N W : Type 0} (env : Env N W) (parse_u64 : Text → Option ℕ) (now later : ℕ) where
  -- A list method that the server has not never fails a scan in an open session, whatever the state of
  -- the cache and whatever the server answers: the result is a list, or another error.
  pub missing-fetch_in :
      (ctx : TableContext) (slice : Slice) (method array_key : Text) (poll : Bool) (t : Transport)
      (session : McpSession N) (sessions : Sessions N) (caches : Caches (Value N)) (w : W)
      → is_missing
          (fetch_in env parse_u64 now later ctx slice method array_key poll t session sessions
            (caches, w)).0
        ≡ false
  unfolding fetch_in
  missing-fetch_in ctx slice method array_key poll t session sessions caches w =
      let (changed, session') = poll_changed poll session in
      let fetch = λ (s : State N W). fail_open (list_all env t method array_key (object end) s) in
      missing-map_ok (scoped (upstream ctx)) _
      ∙ missing-get_or_fetch fetch now later ctx.resolved.key (effective_ttl_ms parse_u64 ctx) slice
          (if changed then (drop_tools ctx.resolved.key caches).1 else caches)
          (record { session = session'; world = w })
          (λ s. missing-fail_open (list_all env t method array_key (object end) s))

  -- Where a session is open in which a change of the tools was announced, a scan of `tools` asks the
  -- server whatever the cache keeps: it gets the list that the server gives, scoped to its upstream, the
  -- empty list where the server has no such method, and every other error of the request as it is.
  pub fetch_in_changed :
      (ctx : TableContext) (method array_key : Text) (t : Transport) (session : McpSession N)
      (sessions : Sessions N) (caches : Caches (Value N)) (w : W)
      → session.tools_list_changed ≡ true
      → IsRelisted
          (upstream ctx)
          (list_all env t method array_key
            (object end)
            (record { session = record session { tools_list_changed = false }; world = w })).0
          (fetch_in env parse_u64 now later ctx tools method array_key true t session sessions
            (caches, w)).0
  unfolding fetch_in poll_changed
  fetch_in_changed ctx method array_key t session sessions caches w raised =
      let key = ctx.resolved.key in
      let ttl = effective_ttl_ms parse_u64 ctx in
      let s : State N W = record {
        session = record session { tools_list_changed = false };
        world = w;
      } in
      let listed = list_all env t method array_key (object end) s in
      let fetch = λ (s : State N W). fail_open (list_all env t method array_key (object end) s) in
      subst (IsRelisted (upstream ctx) listed.0)
        (sym (
          ap
            (λ b.
              map_ok (scoped (upstream ctx))
                (get_or_fetch fetch now later key ttl tools
                  (if b then (drop_tools key caches).1 else caches) s).0)
            raised
          ∙ ap (map_ok (scoped (upstream ctx)))
              (get_or_fetch_absent fetch now later key ttl tools (drop_tools key caches).1 s
                (dropped key caches)).0))
        (fail_open-IsRelisted (upstream ctx) listed.0 listed.1)
