-- ===== src/Sessions/Kept.antt =====
-- Which sessions are kept behind a call.
use elixir_mcp_lib.Base.{
  some, text_eq, ◌≡◌, refl, ap, ◌∙◌, arith, true, false, none, Bool-cases, inl, inr,
}
use elixir_mcp_lib.Base.Assoc
use elixir_mcp_lib.Base.Assoc.{Key, find-insert, find-remove}
use elixir_mcp_lib.Errors.{McpError, McpResult, ok, err, is_transport}
use elixir_mcp_lib.Cache.{CacheKey, oids_key, oids_eq, oids_eq_iff}
use elixir_mcp_lib.Client.Wire.{Env}
use elixir_mcp_lib.Client.Session.{McpSession, Transport}
use elixir_mcp_lib.Sessions.{
  Resolved, Sessions, transport_of, session_for, give_back, run_in, with_session,
}

module _ {N A : Type 0} where
  find-give_back :
      (key : CacheKey) (outcome : McpResult A) (session : McpSession N) (sessions : Sessions N)
      (other : CacheKey)
      → oids_eq key other ≡ false
      → Assoc.find (give_back key outcome session sessions) other ≡ Assoc.find sessions other
  unfolding give_back
  find-give_back key (ok a) session sessions other apart =
      find-insert sessions key session other ∙ rw apart refl
  find-give_back key (err e) session sessions other apart = elim (Bool-cases (is_transport e)) [
    | inl broken ↦ rw broken refl
    | inr usable ↦ rw usable (find-insert sessions key session other ∙ rw apart refl)
  ]

  give_back_broken :
      (key : CacheKey) (outcome : McpResult A) (e : McpError) (session : McpSession N)
      (sessions : Sessions N)
      → outcome ≡ err e
      → is_transport e ≡ true
      → give_back key outcome session sessions ≡ sessions
  unfolding give_back
  give_back_broken key (ok a) e session sessions h broken = cc
  give_back_broken key (err e') e session sessions h broken = ground (arith, h, broken)

module _ {N W A : Type 0} (env : Env N W)
    (use_session : Transport
      → McpSession N
      → Sessions N
      → W
      → McpResult A × McpSession N × Sessions N × W) where
  -- The closure opens and drops no session of its own.
  abbrev pub LeavesMap : Type 0
  LeavesMap =
      (t : Transport) (s : McpSession N) (sessions : Sessions N) (w : W)
      → (use_session t s sessions w).2 ≡ sessions

  run_in_other :
      (resolved : Resolved) (start : McpResult (McpSession N) × W) (sessions : Sessions N)
      (other : CacheKey)
      → LeavesMap
      → oids_eq resolved.key other ≡ false
      → Assoc.find (run_in env use_session resolved start sessions).1 other
        ≡ Assoc.find sessions other
  unfolding run_in
  run_in_other resolved (err e, w) sessions other leaves apart = refl
  run_in_other resolved (ok s, w) sessions other leaves apart =
      let used = use_session (transport_of resolved true) s sessions w in
      find-give_back resolved.key used.0 used.1 used.2 other apart
      ∙ ap (λ m. Assoc.find m other) (leaves (transport_of resolved true) s sessions w)

  -- A call under one server and role leaves the sessions of all others as they were, if the closure
  -- does not touch the map.
  pub with_session_isolated :
      (resolved : Resolved) (sessions : Sessions N) (w : W) (other : CacheKey)
      → LeavesMap
      → oids_eq resolved.key other ≡ false
      → Assoc.find (with_session env use_session resolved sessions w).1 other
        ≡ Assoc.find sessions other
  unfolding with_session
  with_session_isolated resolved sessions w other leaves apart =
      run_in_other resolved (session_for env resolved (Assoc.find sessions resolved.key) w)
        (Assoc.remove sessions resolved.key) other leaves apart
      ∙ find-remove sessions resolved.key other
      ∙ rw apart refl

  run_in_broken :
      (resolved : Resolved) (start : McpResult (McpSession N) × W) (sessions : Sessions N)
      (e : McpError)
      → LeavesMap
      → is_transport e ≡ true
      → (run_in env use_session resolved start sessions).0 ≡ err e
      → (run_in env use_session resolved start sessions).1 ≡ sessions
  unfolding run_in
  run_in_broken resolved (err e', w) sessions e leaves broken h = refl
  run_in_broken resolved (ok s, w) sessions e leaves broken h =
      let used = use_session (transport_of resolved true) s sessions w in
      give_back_broken resolved.key used.0 e used.1 used.2 h broken
      ∙ leaves (transport_of resolved true) s sessions w

  -- Behind a call that ends in a transport failure no session is kept for its server and role,
  -- if the closure does not touch the map.
  pub with_session_broken :
      (resolved : Resolved) (sessions : Sessions N) (w : W) (e : McpError)
      → LeavesMap
      → is_transport e ≡ true
      → (with_session env use_session resolved sessions w).0 ≡ err e
      → Assoc.find (with_session env use_session resolved sessions w).1 resolved.key ≡ none
  unfolding with_session
  with_session_broken resolved sessions w e leaves broken h =
      ap (λ m. Assoc.find m resolved.key)
        (run_in_broken resolved (session_for env resolved (Assoc.find sessions resolved.key) w)
          (Assoc.remove sessions resolved.key) e leaves broken h)
      ∙ find-remove sessions resolved.key resolved.key
      ∙ rw ((oids_eq_iff resolved.key resolved.key).1 refl) refl

module _ {N A : Type 0} where
  find-give_back_usable :
      (key : CacheKey) (outcome : McpResult A) (session : McpSession N) (sessions : Sessions N)
      → ((e : McpError) → outcome ≡ err e → is_transport e ≡ false)
      → Assoc.find (give_back key outcome session sessions) key ≡ some session
  unfolding give_back
  find-give_back_usable key (ok a) session sessions usable =
      find-insert sessions key session key ∙ rw ((oids_eq_iff key key).1 refl) refl
  find-give_back_usable key (err e) session sessions usable =
      rw (usable e refl)
        (find-insert sessions key session key ∙ rw ((oids_eq_iff key key).1 refl) refl)

module _ {N W A : Type 0} (env : Env N W)
    (use_session : Transport
      → McpSession N
      → Sessions N
      → W
      → McpResult A × McpSession N × Sessions N × W) where
  -- Where a session with the server's URL is kept, a call uses that session as it is; if the call does
  -- not end in a transport failure, the session that the closure leaves is the one kept for the next
  -- call, whatever else the closure did to the map.
  pub with_session_reuses :
      (resolved : Resolved) (sessions : Sessions N) (w : W) (session : McpSession N)
      → Assoc.find sessions resolved.key ≡ some session
      → text_eq session.url resolved.options.url ≡ true
      → ((e : McpError)
          → (use_session
              (transport_of resolved true)
              session
              (Assoc.remove sessions resolved.key)
              w).0
            ≡ err e
          → is_transport e ≡ false)
      → ((with_session env use_session resolved sessions w).0
          ≡ (use_session
              (transport_of resolved true)
              session
              (Assoc.remove sessions resolved.key)
              w).0)
        × (Assoc.find (with_session env use_session resolved sessions w).1 resolved.key
            ≡ some
                (use_session
                  (transport_of resolved true)
                  session
                  (Assoc.remove sessions resolved.key)
                  w).1)
  unfolding with_session session_for run_in
  with_session_reuses resolved sessions w session there same usable =
      let used =
        use_session (transport_of resolved true) session (Assoc.remove sessions resolved.key) w in
      (
        rw there (rw same refl),
        rw there (rw same (find-give_back_usable resolved.key used.0 used.1 used.2 usable)),
      )
