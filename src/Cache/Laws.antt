-- ===== src/Cache/Laws.antt =====
-- What the cache serves: only what was stored for the same role, server and slice, and only while it
-- is fresh.
use elixir_mcp_lib.Base.{
  ℕ, zero, suc, ◌*◌, ◌-◌, ◌<◌, ◌≡◌, refl, arith, false, ◌&&◌, none, some, List, ◌⊎◌, if◌then◌else◌,
  Option-cases, inl, inr,
}
use elixir_mcp_lib.Base.Assoc
use elixir_mcp_lib.Base.Assoc.{Key, find-insert, find-remove}
use elixir_mcp_lib.Errors.{McpError, McpResult, ok, err}
use elixir_mcp_lib.Cache.{
  Slice, tools, slice_key, slice_eq, slice_eq_iff, CacheKey, oids_key, oids_eq, oids_eq_iff, Entry,
  Caches, server_entries, entry, store, fresh_items, keep, get_or_fetch, drop_tools, drop, is_some,
}

module _ {A : Type 0} where
  -- a write under one key and slice
  pub entry-store :
      (caches : Caches A) (key : CacheKey) (slice : Slice) (e : Entry A) (key' : CacheKey)
      (slice' : Slice)
      → entry (store caches key slice e) key' slice'
        ≡ (if oids_eq key key' && slice_eq slice slice' then some e else entry caches key' slice')
  unfolding entry store server_entries Assoc.find
  entry-store caches key slice e key' slice' = ground (
    arith,
    find-insert caches key (Assoc.insert (server_entries caches key) slice e) key',
    find-insert (server_entries caches key) slice e slice',
    oids_eq_iff key key',
  )

  -- After `drop_tools` the tools of that server and role are gone, and nothing else; it reports
  -- whether they were there.
  pub entry-drop_tools :
      (key : CacheKey) (caches : Caches A) (key' : CacheKey) (slice' : Slice)
      → (entry (drop_tools key caches).1 key' slice'
          ≡ (if oids_eq key key' && slice_eq tools slice' then none else entry caches key' slice'))
        × ((drop_tools key caches).0 ≡ is_some (entry caches key tools))
  unfolding entry drop_tools
  entry-drop_tools key caches key' slice' = elim (Option-cases (Assoc.find caches key)) [
    | inl missing ↦ (ground (arith, oids_eq_iff key key'), ground arith)
    | inr (server, there) ↦ (
      ground (
        arith,
        find-insert caches key (Assoc.remove server tools) key',
        find-remove server tools slice',
        oids_eq_iff key key',
      ),
      ground arith,
    )
  ]

  -- After `drop` nothing is kept for that server and role, and what others keep is untouched.
  pub entry-drop :
      (key : CacheKey) (caches : Caches A) (key' : CacheKey) (slice' : Slice)
      → entry (drop key caches).1 key' slice'
        ≡ (if oids_eq key key' then none else entry caches key' slice')
  unfolding entry drop
  entry-drop key caches key' slice' = ground (arith, find-remove caches key key')

  -- keeping the result of a fetch writes under its own key and slice
  entry-keep :
      (key : CacheKey) (slice : Slice) (now : ℕ) (result : McpResult (List A)) (caches : Caches A)
      (key' : CacheKey) (slice' : Slice)
      → oids_eq key key' && slice_eq slice slice' ≡ false
      → entry (keep key slice now result caches) key' slice' ≡ entry caches key' slice'
  unfolding keep
  entry-keep key slice now (ok items) caches key' slice' other = rw entry-store (rw other)
  entry-keep key slice now (err e) caches key' slice' other = refl

  keep_error :
      (key : CacheKey) (slice : Slice) (now : ℕ) (result : McpResult (List A)) (caches : Caches A)
      (e : McpError)
      → result ≡ err e
      → keep key slice now result caches ≡ caches
  unfolding keep
  keep_error key slice now (ok items) caches e h = cc
  keep_error key slice now (err e') caches e h = refl

module _ {A W : Type 0} (fetch : W → McpResult (List A) × W) (now later : ℕ) where
  -- Whatever a look-up does, the entries of other servers, roles and slices stay as they are.
  pub get_or_fetch_isolated :
      (key : CacheKey) (ttl_ms : ℕ) (slice : Slice) (caches : Caches A) (w : W) (key' : CacheKey)
      (slice' : Slice)
      → oids_eq key key' && slice_eq slice slice' ≡ false
      → entry (get_or_fetch fetch now later key ttl_ms slice caches w).1 key' slice'
        ≡ entry caches key' slice'
  unfolding get_or_fetch
  get_or_fetch_isolated key zero slice caches w key' slice' other = refl
  get_or_fetch_isolated key (suc ms) slice caches w key' slice' other =
      ground (arith, entry-keep key slice later (fetch w).0 caches key' slice' other)

  -- A look-up that fails, and one with a time to live of 0, leave the cache as it was.
  pub get_or_fetch_keeps :
      (key : CacheKey) (ttl_ms : ℕ) (slice : Slice) (caches : Caches A) (w : W)
      → (ttl_ms ≡ 0)
        ⊎ ((e : McpError) × ((get_or_fetch fetch now later key ttl_ms slice caches w).0 ≡ err e))
      → (get_or_fetch fetch now later key ttl_ms slice caches w).1 ≡ caches
  unfolding get_or_fetch
  get_or_fetch_keeps key zero slice caches w h = refl
  get_or_fetch_keeps key (suc ms) slice caches w (inl zero_ttl) = absurd (omega arith)
  get_or_fetch_keeps key (suc ms) slice caches w (inr (e, failed)) =
      ground (arith, keep_error key slice later (fetch w).0 caches e)

-- an entry that has just been stored is found, and is fresh
fresh_of_store :
    {A : Type 0} (caches : Caches A) (key : CacheKey) (slice : Slice) (e : Entry A) (ttl now : ℕ)
    → now - e.fetched_at < ttl
    → fresh_items (entry (store caches key slice e) key slice) ttl now ≡ some e.items
unfolding fresh_items
fresh_of_store caches key slice e ttl now young =
    rw entry-store (ground (arith, oids_eq_iff key key, slice_eq_iff slice slice))

-- Where no fresh entry is kept and the fetch succeeds, its items are answered and stored: a
-- later look-up under the same key, slice and time to live gives the same items and changes
-- nothing, with no further fetch, as long as they are younger than the time to live.
pub get_or_fetch_again :
    {A W : Type 0} (fetch fetch' : W → McpResult (List A) × W) (now later now' later' : ℕ)
    (key : CacheKey) (ttl_ms : ℕ) (slice : Slice) (caches : Caches A) (w w' v : W) (items : List A)
    → fresh_items (entry caches key slice) (ttl_ms * 1_000_000) now ≡ none
    → fetch w ≡ (ok items, w')
    → now' - later < ttl_ms * 1_000_000
    → (caches' : Caches A) × (get_or_fetch fetch now later key ttl_ms slice caches w
        ≡ (ok items, caches', w'))
      × (get_or_fetch fetch' now' later' key ttl_ms slice caches' v ≡ (ok items, caches', v))
unfolding get_or_fetch keep
get_or_fetch_again fetch fetch' now later now' later' key zero slice caches w w' v items miss
      fetched young =
    absurd (omega arith)
get_or_fetch_again fetch fetch' now later now' later' key (suc ms) slice caches w w' v items miss
      fetched young =
    let e : Entry _ = record { fetched_at = later; items = items } in
    (
      store caches key slice e,
      ground arith,
      ground (arith, fresh_of_store caches key slice e (suc ms * 1_000_000) now' young),
    )
