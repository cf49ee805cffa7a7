-- ===== src/Cache.antt =====
-- pg/pg_mcp/src/cache.rs: the catalog items that a server listed for one role, kept for a while.
-- An `Oid` is a number; the clock counts nanoseconds. A fetch talks to the server and does not enter the
-- cache again: those of the source list a method, and do nothing else.
pub mod Laws
mod Tests
use elixir_mcp_lib.Base.{
  ℕ, zero, suc, ◌*◌, ◌-◌, Bool, true, false, ◌&&◌, not, Option, none, some, List, [], ◌∷◌,
  if◌then◌else◌, ltb, ◌==◌, ◌≡◌, refl, ◌↔◌, arith,
}
use elixir_mcp_lib.Base.Assoc
use elixir_mcp_lib.Base.Assoc.{Key}
use elixir_mcp_lib.Errors.{McpError, McpResult, ok, err}

pub data Slice : Type 0 where
  tools prompts resources resource_templates initialize : Slice

abbrev pub slice_number : Slice → ℕ
slice_number tools = 0
slice_number prompts = 1
slice_number resources = 2
slice_number resource_templates = 3
slice_number initialize = 4

abbrev pub slice_eq : Slice → Slice → Bool
slice_eq a b = slice_number a == slice_number b

pub slice_eq_iff : (a b : Slice) → (slice_eq a b ≡ true) ↔ (a ≡ b)
slice_eq_iff a b = ground arith

instance abbrev pub slice_key : Key Slice
slice_key = record { beq = slice_eq; beq_iff = slice_eq_iff }

-- (server, user)
abbrev pub CacheKey : Type 0
CacheKey = ℕ × ℕ

abbrev pub oids_eq : CacheKey → CacheKey → Bool
oids_eq (a, b) (c, d) = a == c && b == d

pub oids_eq_iff : (p q : CacheKey) → (oids_eq p q ≡ true) ↔ (p ≡ q)
oids_eq_iff (a, b) (c, d) = ground arith

instance abbrev pub oids_key : Key CacheKey
oids_key = record { beq = oids_eq; beq_iff = oids_eq_iff }

pub record Entry (A : Type 0) : Type 0 where
  pub fetched_at : ℕ
  pub items : List A

abbrev pub ServerCache : Type 0 → Type 0
ServerCache A = List (Slice × Entry A)

abbrev pub Caches : Type 0 → Type 0
Caches A = List (CacheKey × ServerCache A)

module _ {A : Type 0} where
  -- `entry(key).or_default()`
  unfoldable pub server_entries : Caches A → CacheKey → ServerCache A
  server_entries caches key = elim (Assoc.find caches key) [ none ↦ [] | some server ↦ server ]

  -- `caches.get(&key).and_then(|server| server.entries.get(&slice))`
  unfoldable pub entry : Caches A → CacheKey → Slice → Option (Entry A)
  unfolding Assoc.find
  entry caches key slice = elim (Assoc.find caches key) [
    | none ↦ none
    | some server ↦ Assoc.find server slice
  ]

  unfoldable pub store : Caches A → CacheKey → Slice → Entry A → Caches A
  unfolding server_entries
  store caches key slice e =
      Assoc.insert caches key (Assoc.insert (server_entries caches key) slice e)

  -- the items of an entry that is younger than the time to live
  unfoldable pub fresh_items : Option (Entry A) → ℕ → ℕ → Option (List A)
  fresh_items none ttl now = none
  fresh_items (some e) ttl now = if ltb (now - e.fetched_at) ttl then some e.items else none

  -- what is stored when the fetch has returned
  unfoldable pub keep : CacheKey → Slice → ℕ → McpResult (List A) → Caches A → Caches A
  keep key slice now (ok items) caches =
      store caches key slice (record { fetched_at = now; items = items })
  keep key slice now (err e) caches = caches

-- `fetch` runs in the world `W`; the clock shows `now` at the look-up and `later` behind the fetch.
module _ {A W : Type 0} (fetch : W → McpResult (List A) × W) (now later : ℕ) where
  unfoldable pub fetch_and_keep :
      CacheKey → Slice → Caches A → W → McpResult (List A) × Caches A × W
  fetch_and_keep key slice caches w =
      let (result, w') = fetch w in (result, keep key slice later result caches, w')

  unfoldable pub get_or_fetch :
      CacheKey → ℕ → Slice → Caches A → W → McpResult (List A) × Caches A × W
  unfolding fetch_and_keep
  get_or_fetch key zero slice caches w = let (result, w') = fetch w in (result, caches, w')
  get_or_fetch key (suc ms) slice caches w =
      elim (fresh_items (entry caches key slice) (suc ms * 1_000_000) now) [
        | some items ↦ (ok items, caches, w)
        | none ↦ fetch_and_keep key slice caches w
      ]

module _ {A : Type 0} where
  abbrev pub is_some : Option (Entry A) → Bool
  is_some none = false
  is_some (some e) = true

  unfoldable pub drop_tools : CacheKey → Caches A → Bool × Caches A
  drop_tools key caches = elim (Assoc.find caches key) [
    | none ↦ (false, caches)
    | some server ↦
        (is_some (Assoc.find server tools), Assoc.insert caches key (Assoc.remove server tools))
  ]

  abbrev pub is_empty : ServerCache A → Bool
  is_empty [] = true
  is_empty (x ∷ xs) = false

  unfoldable pub drop : CacheKey → Caches A → Bool × Caches A
  drop key caches = (
    elim (Assoc.find caches key) [ none ↦ false | some server ↦ not (is_empty server) ],
    Assoc.remove caches key,
  )
