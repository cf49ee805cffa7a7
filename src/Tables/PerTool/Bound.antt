-- ===== src/Tables/PerTool/Bound.antt =====
-- The arguments that a scan sends are the values that its restrictions bind.
use mathlib.Core.Path.{subst}
use elixir_mcp_lib.Base.{
  true, ◌≢◌, In, in_head, in_tail, ◌≡◌, refl, ap, sym, ◌∙◌, arith, false, Option, none, some, List,
  [], ◌∷◌, map, if◌then◌else◌, Text, text_eq, text_eq_iff, text_eq_sound, contains, Bool-cases,
  Option-cases, inl, inr,
}
use elixir_mcp_lib.Json.{Value, Fields, end, field, lookup_field, insert_field}
use elixir_mcp_lib.Errors.{ok}
use elixir_mcp_lib.Quals.{Qual}
use elixir_mcp_lib.Codegen.Ident.Dedup.{Distinct}
use elixir_mcp_lib.Codegen.Table.{Column, PlannedTool}
use elixir_mcp_lib.Tables.PerTool.Equalities.{IsSent, bound_value-IsFirstEquality}
use elixir_mcp_lib.Tables.PerTool.Shape.{bound_value, bind_arguments, arguments_from_quals}

abbrev pub properties_of : List Column → List Text
properties_of cs = map (λ (c : Column). c.property) cs

module _ {N : Type 0} where
  lookup-insert_field :
      (fs : Fields N) (key : Text) (v : Value N) → lookup_field (insert_field fs key v) key ≡ some v
  lookup-insert_field end key v = ground (arith, text_eq_iff key key)
  lookup-insert_field (field k w fs) key v = elim (Bool-cases (text_eq k key)) [
    | inl here ↦ rw here (rw here refl)
    | inr other ↦ rw other (rw other (lookup-insert_field fs key v))
  ]

  lookup-insert_field_other :
      (fs : Fields N) (k key : Text) (v : Value N)
      → text_eq k key ≡ false
      → lookup_field (insert_field fs k v) key ≡ lookup_field fs key
  lookup-insert_field_other end k key v h = rw h refl
  lookup-insert_field_other (field l w fs) k key v h = elim (Bool-cases (text_eq l k)) [
    | inl here ↦
        let apart : text_eq l key ≡ false = rw (text_eq_sound l k here) h in rw here (rw apart refl)
    | inr other ↦
        rw other
          (ap (λ r. if text_eq l key then some w else r) (lookup-insert_field_other fs k key v h))
  ]

  -- the value bound to the input of that property
  abbrev pub sent : (Text → Option (Value N)) → List Column → Text → Option (Value N)
  sent find [] key = none
  sent find (c ∷ cs) key = if text_eq c.property key then find c.sql_name else sent find cs key

  abbrev or_else : Option (Value N) → Option (Value N) → Option (Value N)
  or_else none other = other
  or_else (some v) other = some v

  sent_absent :
      (find : Text → Option (Value N)) (cs : List Column) (key : Text)
      → contains (properties_of cs) key ≡ false
      → sent find cs key ≡ none
  sent_absent find [] key h = refl
  sent_absent find (c ∷ cs) key h = elim (Bool-cases (text_eq c.property key)) [
    | inl here ↦ cc (rw here at h)
    | inr other ↦ rw other (sent_absent find cs key (rw other at h))
  ]

  bound_then :
      (find : Text → Option (Value N)) (c : Column) (cs : List Column) (fs : Fields N) (v : Value N)
      (key : Text)
      → contains (properties_of cs) c.property ≡ false
      → find c.sql_name ≡ some v
      → or_else (sent find cs key) (lookup_field (insert_field fs c.property v) key)
        ≡ or_else (sent find (c ∷ cs) key) (lookup_field fs key)
  bound_then find c cs fs v key fresh found = elim (Bool-cases (text_eq c.property key)) [
    | inl here ↦
        let e : c.property ≡ key = text_eq_sound c.property key here in
        let none_later = sent_absent find cs key (rw e at fresh) in
        rw (here, none_later, found)
          (ap (λ k. lookup_field (insert_field fs k v) key) e ∙ lookup-insert_field fs key v)
    | inr other ↦
        rw other
          (ap (or_else (sent find cs key)) (lookup-insert_field_other fs c.property key v other))
  ]

  free_then :
      (find : Text → Option (Value N)) (c : Column) (cs : List Column) (fs : Fields N) (key : Text)
      → contains (properties_of cs) c.property ≡ false
      → find c.sql_name ≡ none
      → or_else (sent find cs key) (lookup_field fs key)
        ≡ or_else (sent find (c ∷ cs) key) (lookup_field fs key)
  free_then find c cs fs key fresh free = elim (Bool-cases (text_eq c.property key)) [
    | inl here ↦
        let e : c.property ≡ key = text_eq_sound c.property key here in
        let none_later = sent_absent find cs key (rw e at fresh) in rw (here, none_later, free) refl
    | inr other ↦ rw other refl
  ]

  bind_arguments-sent :
      (find : Text → Option (Value N)) (tool how : Text) (cs : List Column) (fs out : Fields N)
      → bind_arguments find tool how cs fs ≡ ok out
      → Distinct (properties_of cs)
      → (key : Text) → lookup_field out key ≡ or_else (sent find cs key) (lookup_field fs key)
  unfolding bind_arguments
  bind_arguments-sent find tool how [] fs out h distinct key =
      let same : fs ≡ out = cc in ap (λ f. lookup_field f key) (sym same)
  bind_arguments-sent find tool how (c ∷ cs) fs out h (fresh, distinct) key =
      elim (Option-cases (find c.sql_name)) [
        | inl free ↦ elim (Bool-cases c.required) [
          | inl needed ↦ cc (rw (free, bind_arguments, needed) at h)
          | inr optional ↦
              bind_arguments-sent find tool how cs fs out (rw (free, bind_arguments, optional) at h)
                distinct key
              ∙ free_then find c cs fs key fresh free
        ]
        | inr (v, found) ↦
            bind_arguments-sent find tool how cs (insert_field fs c.property v) out
              (rw (found, bind_arguments) at h) distinct key
            ∙ bound_then find c cs fs v key fresh found
      ]

  arguments-sent :
      (tool : PlannedTool) (quals : List (Qual N)) (fs : Fields N) (key : Text)
      → arguments_from_quals tool quals ≡ ok fs
      → Distinct (properties_of tool.inputs)
      → lookup_field fs key ≡ sent (bound_value quals) tool.inputs key
  unfolding arguments_from_quals
  arguments-sent tool quals fs key h distinct =
      bind_arguments-sent (bound_value quals) tool.tool_name _ tool.inputs end fs h distinct key
      ∙ or_none (sent (bound_value quals) tool.inputs key)
    where
      or_none : (o : Option (Value N)) → or_else o none ≡ o
      or_none none = refl
      or_none (some v) = refl

  under_more :
      (quals : List (Qual N)) (c : Column) (cs : List Column) (key : Text) (o : Option (Value N))
      → (c.property ≢ key)
      → IsSent quals cs key o
      → IsSent quals (c ∷ cs) key o
  under_more quals c cs key o apart (inl (d, m, named, first)) = inl (d, in_tail m, named, first)
  under_more quals c cs key o apart (inr (absent, nothing)) =
      inr (λ d m. elsewhere c d m absent apart, nothing)
    where
      elsewhere :
          (c d : Column)
          → In d (c ∷ cs)
          → ((d : Column) → In d cs → d.property ≢ key)
          → (c.property ≢ key)
          → d.property ≢ key
      elsewhere c _ in_head absent apart = apart
      elsewhere c d (in_tail m) absent apart = absent d m

  sent-IsSent :
      (quals : List (Qual N)) (cs : List Column) (key : Text)
      → IsSent quals cs key (sent (bound_value quals) cs key)
  sent-IsSent quals [] key = inr (λ c m. elim m [ ], refl)
  sent-IsSent quals (c ∷ cs) key = elim (Bool-cases (text_eq c.property key)) [
    | inl here ↦ rw here (
        inl (
          c,
          in_head,
          text_eq_sound c.property key here,
          bound_value-IsFirstEquality quals c.sql_name,
        ))
    | inr other ↦ rw other (
        under_more quals c cs key (sent (bound_value quals) cs key)
          (λ e. apart (rw other at (text_eq_iff c.property key).1 e)) (sent-IsSent quals cs key))
  ]
    where
      apart : false ≡ true → ⊥
      apart e = cc

  -- Where no two inputs have the same property, the arguments that a scan sends have, under the property
  -- of each input, the value of the first equality restriction on the input's column, if there is one,
  -- and nothing else.
  pub arguments_from_quals-IsSent :
      (tool : PlannedTool) (quals : List (Qual N)) (fs : Fields N) (key : Text)
      → arguments_from_quals tool quals ≡ ok fs
      → Distinct (properties_of tool.inputs)
      → IsSent quals tool.inputs key (lookup_field fs key)
  arguments_from_quals-IsSent tool quals fs key h distinct =
      subst (IsSent quals tool.inputs key) (sym (arguments-sent tool quals fs key h distinct))
        (sent-IsSent quals tool.inputs key)
