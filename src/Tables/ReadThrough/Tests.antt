-- ===== src/Tables/ReadThrough/Tests.antt =====
-- A server that answers one request, scanned.
use elixir_mcp_lib.Base.{
  ℕ, ◌+◌, ◌≡◌, refl, ◌==◌, arith, if◌then◌else◌, Bool, true, false, Option, none, some, List, [],
  ◌∷◌, Text, codes, pos, contains_str, text_eq, text_eq_refl, text_eq_iff, All,
}
use elixir_mcp_lib.Base.Assoc
use elixir_mcp_lib.Json.{Value, string, array, object, end, field, null, boolean, cons, nil, as_str}
use elixir_mcp_lib.Quals.{Qual, Equality, qual_any_equal}
use elixir_mcp_lib.Options.{auto, no_auth}
use elixir_mcp_lib.Client.Wire.{dispatch, finish, Env, HttpOutcome, response, unreachable, read_all}
use elixir_mcp_lib.Sse.Frames.{calm}
use elixir_mcp_lib.Client.Session.{McpSession, request}
use elixir_mcp_lib.Client.Listing.{page_items}
use elixir_mcp_lib.Tables.{Numbers, ScanContext}
use elixir_mcp_lib.Tables.Specs.{resource_contents_spec, prompt_messages_spec, completions_spec}
use elixir_mcp_lib.Tables.ReadThrough.{returned, Store, restricted}
use elixir_mcp_lib.Tables.ReadThrough.Base64.{base64_decode}
use elixir_mcp_lib.Tables.ReadThrough.Decoded.{base64_decode-encode}
use elixir_mcp_lib.Tables.ReadThrough.Restricted.{
  IsEquivalence, allowed, allowed_by, Fresh, values_or_none, restricted-allowed,
}
use elixir_mcp_lib.Tables.ReadThrough.Resources.{unqualified_uris, resource_contents_rows}
use elixir_mcp_lib.Tables.ReadThrough.Prompts.{prompt_messages_rows}
use elixir_mcp_lib.Tables.ReadThrough.Completions.{completions_rows}
use elixir_mcp_lib.Tables.ReadThrough.Traffic.{IsWithin, unqualified_uris-IsWithin}
use elixir_mcp_lib.Tables.ReadThrough.Sound.{Ensures, at_spec}
use elixir_mcp_lib.Tables.ReadThrough.Sound.Contents.{IsContentRow}
use elixir_mcp_lib.Tables.ReadThrough.Sound.Messages.{IsMessageRow}
use elixir_mcp_lib.Tables.ReadThrough.Sound.Candidates.{IsCandidateRow}
use elixir_mcp_lib.Tables.ReadThrough.Sound.Keyed.{rows_keyed}

-- "Hi!" over two lines
base64_decode-encode_example : base64_decode (codes "SG\nkh") ≡ some (72 ∷ 105 ∷ 33 ∷ [])
base64_decode-encode_example =
    base64_decode-encode (72 ∷ 105 ∷ 33 ∷ []) (codes "SG\nkh") (ground arith) refl

-- Documents are the same here when they are the same text, or both are no text.
abbrev same_str : Option Text → Option Text → Bool
same_str none none = true
same_str none (some b) = false
same_str (some a) none = false
same_str (some a) (some b) = text_eq a b

abbrev comparison : Equality ℕ
comparison = record { same_f64 = λ a b. true; same_value = λ a b. same_str (as_str a) (as_str b) }

same_str_refl : (a : Option Text) → same_str a a ≡ true
same_str_refl none = refl
same_str_refl (some a) = text_eq_refl a

same_str_sym : (a b : Option Text) → same_str a b ≡ same_str b a
same_str_sym none none = refl
same_str_sym none (some b) = refl
same_str_sym (some a) none = refl
same_str_sym (some a) (some b) = ground (arith, text_eq_iff a b, text_eq_iff b a)

same_str_trans :
    (a b c : Option Text) → same_str a b ≡ true → same_str b c ≡ true → same_str a c ≡ true
same_str_trans none none none h k = refl
same_str_trans none none (some c) h k = cc
same_str_trans none (some b) c h k = cc
same_str_trans (some a) none c h k = cc
same_str_trans (some a) (some b) none h k = cc
same_str_trans (some a) (some b) (some c) h k =
    ground (arith, text_eq_iff a b, text_eq_iff b c, text_eq_iff a c)

comparison-IsEquivalence : IsEquivalence comparison
comparison-IsEquivalence = record {
  reflexive = λ a. same_str_refl (as_str a);
  symmetric = λ a b. same_str_sym (as_str a) (as_str b);
  transitive = λ a b c. same_str_trans (as_str a) (as_str b) (as_str c);
}

abbrev word : Text → Value ℕ
word s = string s

abbrev quals : List (Qual ℕ)
quals =
    qual_any_equal (codes "uri") (word (codes "a") ∷ word (codes "b") ∷ word (codes "a") ∷ [])
    ∷ qual_any_equal (codes "uri") (word (codes "c") ∷ word (codes "a") ∷ [])
    ∷ []

restricted_run : restricted comparison quals (codes "uri") ≡ some (word (codes "a") ∷ [])
unfolding restricted qual_any_equal
restricted_run = refl

restricted-allowed_example :
    (allowed_by comparison (restricted comparison quals (codes "uri")) (word (codes "b"))
      ≡ allowed comparison quals (codes "uri") (word (codes "b")))
    × Fresh comparison [] (values_or_none comparison (restricted comparison quals (codes "uri")))
restricted-allowed_example =
    restricted-allowed comparison comparison-IsEquivalence quals (codes "uri") (word (codes "b"))

abbrev resource : Text → Value ℕ
resource uri = object (field (codes "uri") (word uri) end)

-- a reply that lists two resources three times
abbrev answer : Value ℕ
answer = object (
    field (codes "id") (boolean true) (
      field (codes "result")
        (object (
          field (codes "resources")
            (array (
              cons (resource (codes "a"))
                (cons (resource (codes "b")) (cons (resource (codes "a")) nil))))
            end))
        end))

abbrev body : HttpOutcome
body = response (record {
  status = 200;
  session_header = none;
  content_type = some (codes "application/json");
  text = read_all (codes "answer");
  stream = calm [];
})

abbrev server : Env ℕ ℕ
server = record {
  decoder = record { from_str = λ t. some answer; as_i64 = λ n. none; parse_i64 = λ t. none };
  of_ℕ = λ n. n;
  client_version = codes "0.1.0";
  check = λ w. none;
  encode_error = λ v. none;
  send = λ q w. (if w == 0 then body else unreachable (codes "ConnectionFailed"), w + 1);
}

abbrev session : McpSession ℕ
session = record {
  url = codes "http://a";
  session_id = none;
  protocol_version = codes "2025-11-25";
  server_info = null;
  capabilities = null;
  next_id = 2;
  initialize_count = 1;
  tools_list_changed = false;
}

abbrev context : List (Qual ℕ) → ScanContext ℕ
context restrictions = record {
  base = record {
    spec = resource_contents_spec;
    server_name = codes "a";
    resolved = record {
      key = (1, 10);
      options = record {
        url = codes "http://a";
        mode = auto;
        timeout_ms = 1000;
        auth = no_auth;
        max_unqualified_reads = pos 2;
        audit_table = none;
        cache_ttl_ms = 60_000;
      };
      bearer = none;
    };
    table_options = [];
  };
  quals = restrictions;
}

abbrev store_of_test : Store ℕ ℕ
store_of_test = (((1, 10), session) ∷ [], 0)

abbrev distinct : List Text
distinct = codes "a" ∷ codes "b" ∷ []

uris_returned :
    (unqualified_uris server comparison (context []) store_of_test).0 ≡ returned distinct
unfolding unqualified_uris Assoc.find request dispatch contains_str finish page_items
uris_returned = refl

unqualified_uris-IsWithin_example :
    IsWithin (pos 2) 2 × Fresh comparison [] (word (codes "a") ∷ word (codes "b") ∷ [])
unqualified_uris-IsWithin_example =
    unqualified_uris-IsWithin server comparison (context []) store_of_test distinct uris_returned

abbrev numbers : Numbers ℕ ℕ
numbers = record { of_i64 = λ i. 0; from_f64 = λ f. some f }

rows_keyed_example :
    Ensures (All (IsContentRow comparison numbers quals)) (
      resource_contents_rows server comparison
        (at_spec resource_contents_spec (context quals))
        store_of_test)
    × Ensures (All (IsMessageRow comparison numbers quals)) (
        prompt_messages_rows server comparison
          (at_spec prompt_messages_spec (context quals))
          store_of_test)
    × Ensures (All (IsCandidateRow comparison numbers quals)) (
        completions_rows server comparison
          (λ n. none)
          (at_spec completions_spec (context quals))
          store_of_test)
rows_keyed_example =
    rows_keyed server comparison numbers (λ n. none) comparison-IsEquivalence (context quals)
      store_of_test
