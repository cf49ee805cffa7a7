-- ===== src/Cache/Tests.antt =====
-- The cache at concrete entries.
use elixir_mcp_lib.Base.{ℕ, ◌+◌, ◌≡◌, refl, arith, List, [], ◌∷◌, codes}
use elixir_mcp_lib.Base.Assoc
use elixir_mcp_lib.Errors.{transport, McpResult, ok, err}
use elixir_mcp_lib.Cache.{tools, prompts, Caches, entry, get_or_fetch, fresh_items}
use elixir_mcp_lib.Cache.Laws.{get_or_fetch_isolated, get_or_fetch_again}

-- role 10 of server 1 keeps its tools and its prompts, role 11 its tools
abbrev filled : Caches ℕ
filled =
    (
      (1, 10),
      (tools, record { fetched_at = 5; items = 7 ∷ [] })
          ∷ (prompts, record { fetched_at = 6; items = [] })
          ∷ [],
    )
    ∷ ((1, 11), (tools, record { fetched_at = 8; items = 9 ∷ [] }) ∷ [])
    ∷ []

abbrev counting : ℕ → McpResult (List ℕ) × ℕ
counting w = (ok (w ∷ []), w + 1)

abbrev broken : ℕ → McpResult (List ℕ) × ℕ
broken w = (err (transport (codes "timeout")), w + 1)

get_or_fetch_again_example :
    (caches' : Caches ℕ) × (get_or_fetch counting 100 200 (2, 10) 1 tools filled 3
      ≡ (ok (3 ∷ []), caches', 4))
    × (get_or_fetch broken 900 950 (2, 10) 1 tools caches' 6 ≡ (ok (3 ∷ []), caches', 6))
unfolding entry fresh_items Assoc.find
get_or_fetch_again_example =
    get_or_fetch_again counting broken 100 200 900 950 (2, 10) 1 tools filled 3 4 6 (3 ∷ []) refl
      refl (omega arith)

get_or_fetch_isolated_example :
    entry (get_or_fetch counting 100 200 (2, 10) 1 tools filled 3).1 (1, 11) tools
    ≡ entry filled (1, 11) tools
get_or_fetch_isolated_example =
    get_or_fetch_isolated counting 100 200 (2, 10) 1 tools filled 3 (1, 11) tools refl
