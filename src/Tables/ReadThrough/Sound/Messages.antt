-- ===== src/Tables/ReadThrough/Sound/Messages.antt =====
-- The rows of `prompt_messages`.
use elixir_mcp_lib.Base.{
  ℕ, suc, ◌≡◌, refl, Option, none, some, List, [], ◌∷◌, Text, codes, All, All-append, Option-cases,
  inl, inr,
}
use elixir_mcp_lib.Json.{Value, string, object, end, get}
use elixir_mcp_lib.Quals.{Equality}
use elixir_mcp_lib.Quals
use elixir_mcp_lib.Client.Wire.{Env}
use elixir_mcp_lib.Codegen.Table.{ColumnType}
use elixir_mcp_lib.Tables.{Cell, Row, Numbers, as_json, ScanContext, empty_row}
use elixir_mcp_lib.Tables.Specs.{prompt_messages_spec}
use elixir_mcp_lib.Tables.Catalog.{text_at, set}
use elixir_mcp_lib.Tables.Catalog.Conform.{Fits, Conforms, Fits-text_at, json_cell-Fits}
use elixir_mcp_lib.Tables.ReadThrough.{Store, restricted, array_at, put_all}
use elixir_mcp_lib.Tables.ReadThrough.Restricted.{IsEquivalence}
use elixir_mcp_lib.Tables.ReadThrough.Rows.{filled-Conforms, nth-placed, nth-behind}
use elixir_mcp_lib.Tables.ReadThrough.Prompts.{
  or_null, argument_sets_of, message_cells, message_rows, get_prompts, read_prompts,
  prompt_messages_rows,
}
use elixir_mcp_lib.Tables.ReadThrough.Sound.{
  Ensures, yields, stops, Ensures-behind, Ensures-any, at_spec, IsAllowed, All-restricted,
  unrestricted, Holds,
}

module _ {N F : Type 0} (eq : Equality N) (num : Numbers N F) where
  -- A row of the table, with a prompt and arguments that the restrictions allow.
  abbrev pub IsMessageRow : List (Quals.Qual N) → Row N F → Type 0
  IsMessageRow quals row =
      Conforms prompt_messages_spec.columns row
      × Holds eq num quals (codes "prompt") row 0
      × Holds eq num quals (codes "arguments") row 1

  module _ (quals : List (Quals.Qual N)) (name : Text) (arguments : Value N) where
    message_row :
        (idx : ℕ) (message : Value N) (description : Option (Cell N F))
        → Fits ColumnType.text description
        → IsAllowed eq quals (codes "prompt") (string name)
        → IsAllowed eq quals (codes "arguments") arguments
        → IsMessageRow quals (
            put_all prompt_messages_spec
              (empty_row N F prompt_messages_spec)
              (message_cells name arguments idx message description))
    unfolding message_cells prompt_messages_spec set as_json
    message_row idx message description fits prompt_ok arguments_ok =
        let content = or_null (get message (codes "content")) in
        (
          filled-Conforms prompt_messages_spec
              (message_cells name arguments idx message description)
              (
                refl,
                (
                  refl,
                  (
                    refl,
                    (
                      Fits-text_at N F message (codes "role"),
                      (
                        Fits-text_at N F content (codes "type"),
                        (
                          Fits-text_at N F content (codes "text"),
                          (json_cell-Fits N F (some content), (fits, tt)),
                        ),
                      ),
                    ),
                  ),
                ),
              ),
          (
            Cell.text name,
            nth-placed prompt_messages_spec _ _ _ _ 0
                (refl, (refl, (refl, (refl, (refl, (refl, (refl, tt))))))) refl,
            prompt_ok,
          ),
          (
            Cell.json arguments,
            nth-behind prompt_messages_spec _ _ _ _ 1 _ (
                nth-placed prompt_messages_spec _ _ _ _ 1
                  (refl, (refl, (refl, (refl, (refl, (refl, tt)))))) refl),
            arguments_ok,
          ),
        )

    All-message_rows :
        (idx : ℕ) (messages : List (Value N)) (description : Option (Cell N F))
        → Fits ColumnType.text description
        → IsAllowed eq quals (codes "prompt") (string name)
        → IsAllowed eq quals (codes "arguments") arguments
        → All
            (IsMessageRow quals)
            (message_rows prompt_messages_spec name arguments description idx messages)
    unfolding message_rows
    All-message_rows idx [] description fits prompt_ok arguments_ok = tt
    All-message_rows idx (m ∷ ms) description fits prompt_ok arguments_ok = (
      message_row idx m description fits prompt_ok arguments_ok,
      All-message_rows (suc idx) ms description fits prompt_ok arguments_ok,
    )

module _ {N F W : Type 0} (env : Env N W) (eq : Equality N) (num : Numbers N F) where
  Ensures-get_prompts :
      (ctx : ScanContext N) (name : Text) (sets : List (Value N)) (s : Store N W)
      → IsAllowed eq ctx.quals (codes "prompt") (string name)
      → All (IsAllowed eq ctx.quals (codes "arguments")) sets
      → Ensures
          (All (IsMessageRow eq num ctx.quals))
          (get_prompts env eq (at_spec prompt_messages_spec ctx) name sets s)
  unfolding get_prompts
  Ensures-get_prompts ctx name [] s prompt_ok h = yields [] s tt
  Ensures-get_prompts ctx name (arguments ∷ sets) s prompt_ok (here, h) =
      let P = IsMessageRow eq num ctx.quals in
      Ensures-behind _ (All P) _ (Ensures-any _) λ result s1 _.
        Ensures-behind (All P) (All P) _ (Ensures-get_prompts ctx name sets s1 prompt_ok h)
          λ rest s2 hs. yields _ s2 (
            All-append P _ rest
              (All-message_rows eq num ctx.quals name arguments 0
                (array_at result (codes "messages")) (text_at result (codes "description"))
                (Fits-text_at N F result (codes "description")) prompt_ok here)
              hs)

  Ensures-read_prompts :
      (ctx : ScanContext N) (sets prompts : List (Value N)) (s : Store N W)
      → All (IsAllowed eq ctx.quals (codes "arguments")) sets
      → All (IsAllowed eq ctx.quals (codes "prompt")) prompts
      → Ensures
          (All (IsMessageRow eq num ctx.quals))
          (read_prompts env eq (at_spec prompt_messages_spec ctx) sets prompts s)
  unfolding read_prompts
  Ensures-read_prompts ctx sets [] s h hp = yields [] s tt
  Ensures-read_prompts ctx sets (string name ∷ prompts) s h (here, hp) =
      let P = IsMessageRow eq num ctx.quals in
      Ensures-behind (All P) (All P) _ (Ensures-get_prompts ctx name sets s here h) λ rows s1 hr.
        Ensures-behind (All P) (All P) _ (Ensures-read_prompts ctx sets prompts s1 h hp)
          λ rest s2 hs. yields _ s2 (All-append P rows rest hr hs)
  Ensures-read_prompts ctx sets (Value.null ∷ prompts) s h (here, hp) =
      Ensures-read_prompts ctx sets prompts s h hp
  Ensures-read_prompts ctx sets (Value.boolean b ∷ prompts) s h (here, hp) =
      Ensures-read_prompts ctx sets prompts s h hp
  Ensures-read_prompts ctx sets (Value.number n ∷ prompts) s h (here, hp) =
      Ensures-read_prompts ctx sets prompts s h hp
  Ensures-read_prompts ctx sets (Value.array vs ∷ prompts) s h (here, hp) =
      Ensures-read_prompts ctx sets prompts s h hp
  Ensures-read_prompts ctx sets (object fs ∷ prompts) s h (here, hp) =
      Ensures-read_prompts ctx sets prompts s h hp

  module _ (e : IsEquivalence eq) where
    All-argument_sets :
        (quals : List (Quals.Qual N)) (o : Option (List (Value N)))
        → restricted eq quals (codes "arguments") ≡ o
        → All (IsAllowed eq quals (codes "arguments")) (argument_sets_of o)
    All-argument_sets quals none h =
        (unrestricted eq e quals (codes "arguments") (object end) h, tt)
    All-argument_sets quals (some values) h = All-restricted eq e quals (codes "arguments") values h

    pub Ensures-messages :
        (ctx : ScanContext N) (s : Store N W)
        → Ensures
            (All (IsMessageRow eq num ctx.quals))
            (prompt_messages_rows env eq (at_spec prompt_messages_spec ctx) s)
    unfolding prompt_messages_rows
    Ensures-messages ctx s = elim (Option-cases (restricted eq ctx.quals (codes "prompt"))) [
      | inl free ↦ rw (free, prompt_messages_rows) (stops _ s)
      | inr (prompts, found) ↦
          rw (found, prompt_messages_rows)
            (Ensures-read_prompts ctx
              (argument_sets_of (restricted eq ctx.quals (codes "arguments"))) prompts s
              (All-argument_sets ctx.quals _ refl)
              (All-restricted eq e ctx.quals (codes "prompt") prompts found))
    ]
