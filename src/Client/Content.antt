-- ===== src/Client/Content.antt =====
-- pg/pg_mcp/src/client.rs: what a caller reads off the result of a tool call, and the notification
-- flag of a session.
use elixir_mcp_lib.Base.{
  ◌≡◌, refl, ap, Bool, false, Option, none, some, List, [], ◌∷◌, ◌++◌, if◌then◌else◌, Text, codes,
  text_eq, ◌>>=◌,
}
use elixir_mcp_lib.Json.{
  Value, Fields, Items, nil, cons, end, field, string, array, object, get, items, as_str, as_bool,
  as_array,
}
use elixir_mcp_lib.Client.Session.{McpSession}

abbrev pub concat_parts : List Text → Text
concat_parts [] = []
concat_parts (t ∷ ts) = t ++ concat_parts ts

abbrev some_parts : List Text → Option Text
some_parts [] = none
some_parts (t ∷ ts) = some (concat_parts (t ∷ ts))

module _ {N : Type 0} where
  -- the text of one part, if it is a text part
  unfoldable pub part_text : Value N → Option Text
  part_text item = elim (get item (codes "type") >>= as_str) [
    | none ↦ none
    | some t ↦ if text_eq t (codes "text") then get item (codes "text") >>= as_str else none
  ]

  unfoldable pub text_parts : List (Value N) → List Text
  unfolding part_text
  text_parts [] = []
  text_parts (v ∷ vs) =
      let rest = text_parts vs in elim (part_text v) [ none ↦ rest | some t ↦ t ∷ rest ]

  unfoldable pub text_content : Value N → Option Text
  unfolding text_parts
  text_content result = elim (get result (codes "content") >>= as_array) [
    | none ↦ none
    | some parts ↦ some_parts (text_parts parts)
  ]

  unfoldable pub is_error_result : Value N → Bool
  is_error_result result = elim (get result (codes "isError") >>= as_bool) [
    | none ↦ false
    | some b ↦ b
  ]

  -- `swap(false)` on the flag: what it was, and the session with the flag down
  unfoldable pub take_tools_list_changed : McpSession N → Bool × McpSession N
  take_tools_list_changed s = (s.tools_list_changed, record s { tools_list_changed = false })

  -- A text part as a server writes it.
  abbrev pub text_part : Text → Value N
  text_part t =
      object (field (codes "type") (string (codes "text")) (field (codes "text") (string t) end))

  abbrev pub parts_of : List Text → Items N
  parts_of [] = nil
  parts_of (t ∷ ts) = cons (text_part t) (parts_of ts)

module _ (N : Type 0) where
  text_parts-parts_of : (ts : List Text) → text_parts {N = N} (items (parts_of ts)) ≡ ts
  unfolding text_parts
  text_parts-parts_of [] = refl
  text_parts-parts_of (t ∷ ts) = ap (λ l. t ∷ l) (text_parts-parts_of ts)

module _ {N : Type 0} where
  -- The text of a result that holds text parts is their texts, one after the other; a result whose
  -- content is empty has none.
  pub text_content-parts_of :
      (ts : List Text) (rest : Fields N)
      → text_content (object (field (codes "content") (array (parts_of ts)) rest))
        ≡ elim ts [ [] ↦ none | t ∷ us ↦ some (concat_parts (t ∷ us)) ]
  unfolding text_content
  text_content-parts_of [] rest = refl
  text_content-parts_of (t ∷ ts) rest = ap some_parts (text_parts-parts_of N (t ∷ ts))
