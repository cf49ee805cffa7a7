-- ===== src/Tables/Catalog/Tests.antt =====
-- A small catalog of two tools, scanned.
use elixir_mcp_lib.Base.{
  In, ◌↔◌, ℕ, ◌+◌, ◌≡◌, refl, Bool, true, false, none, some, List, [], ◌∷◌, map, Text, codes,
  text_eq, pos, All,
}
use elixir_mcp_lib.Json.{Value, string, object, end, field, null}
use elixir_mcp_lib.Quals.{Equality}
use elixir_mcp_lib.Cache.{tools, Caches, store}
use elixir_mcp_lib.Options.{auto, no_auth}
use elixir_mcp_lib.Client.Wire.{Env, unreachable}
use elixir_mcp_lib.Client.Session.{McpSession, Transport}
use elixir_mcp_lib.Client.Listing.{list_all}
use elixir_mcp_lib.Tables.{Numbers, TableContext}
use elixir_mcp_lib.Tables.Specs.{
  tools_spec, prompts_spec, prompt_arguments_spec, resources_spec, resource_templates_spec,
}
use elixir_mcp_lib.Tables.Registry.{find, TableEntry, tools_table, IsConsistent, find-IsConsistent}
use elixir_mcp_lib.Tables.Catalog.{
  tools_row, prompts_row, prompt_argument_rows, resources_row, resource_templates_row,
}
use elixir_mcp_lib.Tables.Catalog.Filters.{filter}
use elixir_mcp_lib.Tables.Catalog.Conform.{Conforms, catalog_rows-Conform}
use elixir_mcp_lib.Tables.Catalog.Cursor.{iterate, rescan, answers, new, answers-IsIterator}
use elixir_mcp_lib.Tables.Catalog.Scope.{scoped_items, scoped_name, with_prefix, name_of}
use elixir_mcp_lib.Tables.Catalog.Dots.{IsLocal, found}
use elixir_mcp_lib.Tables.Catalog.Scoped.{scoped_items-partition}
use elixir_mcp_lib.Tables.Catalog.Scan.{fetch_in}
use elixir_mcp_lib.Tables.Catalog.Fetched.{
  is_missing, missing-fetch_in, IsRelisted, fetch_in_changed,
}

abbrev tool : Text → Value ℕ
tool name = object (field (codes "name") (string name) end)

abbrev catalog : List (Value ℕ)
catalog = tool (codes "engine.add") ∷ tool (codes "status") ∷ []

catalog_rows-Conform_example :
    Conforms tools_spec.columns (tools_row ℕ ℕ tools_spec (tool (codes "status")))
    × Conforms prompts_spec.columns (prompts_row ℕ ℕ prompts_spec (tool (codes "status")))
    × All
        (Conforms prompt_arguments_spec.columns)
        (prompt_argument_rows ℕ ℕ prompt_arguments_spec catalog)
    × Conforms resources_spec.columns
        (resources_row ℕ ℕ (λ n. some (pos n)) resources_spec (tool (codes "status")))
    × Conforms resource_templates_spec.columns
        (resource_templates_row ℕ ℕ resource_templates_spec (tool (codes "status")))
catalog_rows-Conform_example =
    catalog_rows-Conform ℕ ℕ (λ n. some (pos n)) (tool (codes "status")) catalog

answers-IsIterator_example :
    answers (new {R = ℕ} (1 ∷ 2 ∷ [])) (iterate ∷ iterate ∷ iterate ∷ rescan ∷ iterate ∷ [])
    ≡ some 1 ∷ some 2 ∷ none ∷ none ∷ some 1 ∷ []
answers-IsIterator_example =
    answers-IsIterator (1 ∷ 2 ∷ []) (iterate ∷ iterate ∷ iterate ∷ rescan ∷ iterate ∷ [])

scoped_items-partition_example :
    (map (with_prefix (codes "engine.")) (scoped_items (codes "engine") catalog)
      ≡ filter (λ item. found (scoped_name (codes "engine.") item)) catalog)
    × (In (tool (codes "status")) (scoped_items [] catalog)
        ↔ (In (tool (codes "status")) catalog × IsLocal (name_of (tool (codes "status")))))
    × (filter (λ item. found (scoped_name (codes "engine.") item)) (scoped_items [] catalog) ≡ [])
scoped_items-partition_example =
    scoped_items-partition b'e' (codes "ngine") catalog (tool (codes "status"))

scoped_run : scoped_items (codes "engine") catalog ≡ tool (codes "add") ∷ []
unfolding scoped_items
scoped_run = refl

-- Two texts are the same value when they are equal; nothing else is compared here.
abbrev same_text : Value ℕ → Value ℕ → Bool
same_text (string a) (string b) = text_eq a b
same_text _ _ = false

abbrev comparison : Equality ℕ
comparison = record { same_f64 = λ a b. true; same_value = same_text }

abbrev numbers : Numbers ℕ ℕ
numbers = record { of_i64 = λ i. 0; from_f64 = λ f. some f }

abbrev tools_entry : TableEntry
tools_entry = record { spec = tools_spec; handler = tools_table }

find_tools : find (codes "tools") ≡ some tools_entry
unfolding find tools_spec
find_tools = refl

find-IsConsistent_example : (tools_entry.spec.name ≡ codes "tools") × IsConsistent tools_entry
find-IsConsistent_example = find-IsConsistent (codes "tools") tools_entry find_tools

-- A session behind which nothing answers, and a cache that keeps the catalog.
abbrev no_server : Env ℕ ℕ
no_server = record {
  decoder = record { from_str = λ t. none; as_i64 = λ n. none; parse_i64 = λ t. none };
  of_ℕ = λ n. n;
  client_version = codes "0.1.0";
  check = λ w. none;
  encode_error = λ v. none;
  send = λ q w. (unreachable (codes "ConnectionFailed"), w + 1);
}

abbrev session_that : Bool → McpSession ℕ
session_that changed = record {
  url = codes "http://a";
  session_id = none;
  protocol_version = codes "2025-11-25";
  server_info = null;
  capabilities = null;
  next_id = 2;
  initialize_count = 1;
  tools_list_changed = changed;
}

abbrev context : TableContext
context = record {
  spec = tools_spec;
  server_name = codes "a";
  resolved = record {
    key = (1, 10);
    options = record {
      url = codes "http://a";
      mode = auto;
      timeout_ms = 1000;
      auth = no_auth;
      max_unqualified_reads = pos 0;
      audit_table = none;
      cache_ttl_ms = 60_000;
    };
    bearer = none;
  };
  table_options = (codes "upstream", codes "engine") ∷ [];
}

abbrev transport_of_test : Transport
transport_of_test = record { timeout_ms = 1000; bearer = none; observing = true }

abbrev caches : Caches (Value ℕ)
caches = store [] (1, 10) tools (record { fetched_at = 5; items = catalog })

fetch_in_changed_example :
    IsRelisted
      (some (codes "engine"))
      (list_all no_server transport_of_test
        (codes "tools/list")
        (codes "tools")
        (object end)
        (record { session = session_that false; world = 0 })).0
      (fetch_in no_server
        (λ t. none)
        6
        7
        context
        tools
        (codes "tools/list")
        (codes "tools")
        true
        transport_of_test
        (session_that true)
        []
        (caches, 0)).0
fetch_in_changed_example =
    fetch_in_changed no_server (λ t. none) 6 7 context (codes "tools/list") (codes "tools")
      transport_of_test (session_that true) [] caches 0 refl

missing-fetch_in_example :
    is_missing
      (fetch_in no_server
        (λ t. none)
        6
        7
        context
        tools
        (codes "tools/list")
        (codes "tools")
        true
        transport_of_test
        (session_that true)
        []
        (caches, 0)).0
    ≡ false
missing-fetch_in_example =
    missing-fetch_in no_server (λ t. none) 6 7 context tools (codes "tools/list") (codes "tools")
      true transport_of_test (session_that true) [] caches 0
