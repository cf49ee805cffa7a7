-- ===== src/Codegen/Plan/Counted.antt =====
-- A batch is planned without a panic, and every tool is accounted for.
use elixir_mcp_lib.Base.{
  Bool, true, false, ℕ, zero, suc, ◌+◌, ◌^◌, ◌≡◌, ◌≤◌, ◌<◌, refl, ap, ◌∙◌, arith, Option, none,
  some, List, [], ◌∷◌, ◌++◌, map, length, replicate, Text, text_eq, All, All-imp, Bool-cases, inl,
  inr,
}
use elixir_mcp_lib.Json.{Value}
use elixir_mcp_lib.Errors.{ok}
use elixir_mcp_lib.Codegen.Ident.Bounds.{IsFragment}
use elixir_mcp_lib.Codegen.Ident.Dedup.{dedup-Distinct}
use elixir_mcp_lib.Codegen.Types.{properties}
use elixir_mcp_lib.Codegen.Plan.{
  InvokeOnSelect, Planned, planned, plan_one, plan_with, input_schema_of,
}
use elixir_mcp_lib.Codegen.Table.{PlannedTool}
use elixir_mcp_lib.Codegen.Plan.Columns.{IsAnswer, plan_one_total}
use elixir_mcp_lib.Codegen.Plan.Batch.{
  SchemaMode, GenerationPlan, Routed, route_one, route_all, name_or_none, push_index, group_from,
  local_at, put_name, put_names, name_groups, Emitted, emit_one, emit, tool_display_name,
  finished_plan, plan,
}

-- The groups are no longer than the bound.
abbrev AreWithin : ℕ → List (Text × List ℕ) → Type 0
AreWithin n groups = All (λ (g : Text × List ℕ). length g.1 ≤ n) groups

length-snoc : (is : List ℕ) (i : ℕ) → length (is ++ i ∷ []) ≡ suc (length is)
length-snoc [] i = refl
length-snoc (j ∷ is) i = ap suc (length-snoc is i)

AreWithin-suc :
    (n : ℕ) (groups : List (Text × List ℕ)) → AreWithin n groups → AreWithin (suc n) groups
AreWithin-suc n groups h =
    All-imp (λ (g : Text × List ℕ). length g.1 ≤ n) (λ (g : Text × List ℕ). length g.1 ≤ suc n)
      (λ g le. omega arith) groups h

push_index-AreWithin :
    (n : ℕ) (groups : List (Text × List ℕ)) (target : Text) (i : ℕ)
    → AreWithin n groups
    → AreWithin (suc n) (push_index groups target i)
push_index-AreWithin n [] target i h = (omega arith, tt)
push_index-AreWithin n ((t, is) ∷ groups) target i (here, h) =
    elim (Bool-cases (text_eq t target)) [
      | inl same ↦ rw same (rw (length-snoc is i) (omega arith), AreWithin-suc n groups h)
      | inr other ↦ rw other (omega arith, push_index-AreWithin n groups target i h)
    ]

length-replicate : {A : Type 0} (n : ℕ) (a : A) → length (replicate n a) ≡ n
length-replicate zero a = refl
length-replicate (suc n) a = ap suc (length-replicate n a)

length-map_list : {A B : Type 0} (f : A → B) (xs : List A) → length (map f xs) ≡ length xs
length-map_list f [] = refl
length-map_list f (x ∷ xs) = ap suc (length-map_list f xs)

length-put_name :
    (names : List Text) (i : ℕ) (s : Text) → length (put_name names i s) ≡ length names
length-put_name [] i s = refl
length-put_name (n ∷ names) zero s = refl
length-put_name (n ∷ names) (suc i) s = ap suc (length-put_name names i s)

length-put_names :
    (names : List Text) (is : List ℕ) (pairs : List (Text × Text))
    → length (put_names names is pairs) ≡ length names
unfolding put_names
length-put_names names [] pairs = refl
length-put_names names (i ∷ is) [] = refl
length-put_names names (i ∷ is) ((original, s) ∷ pairs) =
    length-put_names (put_name names i s) is pairs ∙ length-put_name names i s

module _ {N : Type 0} where
  group_from-AreWithin :
      (i n : ℕ) (routed : List (Routed N)) (groups : List (Text × List ℕ))
      → AreWithin n groups
      → AreWithin (n + length routed) (group_from i routed groups)
  unfolding group_from
  group_from-AreWithin i n [] groups h = let e : n + 0 ≡ n = omega arith in rw e h
  group_from-AreWithin i n (r ∷ routed) groups h =
      let e : n + suc (length routed) ≡ suc n + length routed = omega arith in
      rw e
        (group_from-AreWithin (suc i) (suc n) routed _ (push_index-AreWithin n groups r.target i h))

module _ {N : Type 0} where
  -- one tool's name in front of those of the others: where it has a usable name, and its schema lists
  -- properties (`wanted` is `true`) or does not
  abbrev pub listed : Bool → Option Text → Option (List (Text × Value N)) → List Text → List Text
  listed wanted none props rest = rest
  listed wanted (some []) props rest = rest
  listed true (some (c ∷ cs)) none rest = rest
  listed true (some (c ∷ cs)) (some p) rest = (c ∷ cs) ∷ rest
  listed false (some (c ∷ cs)) none rest = (c ∷ cs) ∷ rest
  listed false (some (c ∷ cs)) (some p) rest = rest

  -- The names of the tools, in order, that have a usable name and a schema with (`true`) or without
  -- (`false`) properties.
  abbrev pub names_with : Bool → List (Value N) → List Text
  names_with wanted [] = []
  names_with wanted (tool ∷ tools) =
      listed wanted (name_or_none tool) (properties (input_schema_of tool))
        (names_with wanted tools)

  -- a routed tool has a name
  abbrev Named : Routed N → Type 0
  Named r = (c : ℕ) × (cs : Text) × (name_or_none r.tool ≡ some (c ∷ cs))

  abbrev tools_of : List (Routed N) → List (Value N)
  tools_of routed = map (λ (r : Routed N). r.tool) routed

  listed-ap :
      (wanted : Bool) (o : Option Text) (props : Option (List (Text × Value N))) {xs ys : List Text}
      → xs ≡ ys
      → listed wanted o props xs ≡ listed wanted o props ys
  listed-ap wanted o props e = ap (listed wanted o props) e

  -- Routing keeps the tools with a name, in order, and no more tools than there are.
  route_all-names :
      (mode : SchemaMode) (schema : Text) (tools : List (Value N))
      → All Named (route_all mode schema tools).0
        × ((wanted : Bool)
            → names_with wanted (tools_of (route_all mode schema tools).0)
              ≡ names_with wanted tools)
        × (length (route_all mode schema tools).0 ≤ length tools)
  unfolding route_all
  route_all-names mode schema [] = (tt, (λ wanted. refl), omega arith)
  route_all-names mode schema (tool ∷ tools) =
      let (named, same, fits) = route_all-names mode schema tools in
      routed_one (name_or_none tool) refl named same fits
    where
      routed_one :
          (o : Option Text)
          → name_or_none tool ≡ o
          → All Named (route_all mode schema tools).0
          → ((wanted : Bool)
              → names_with wanted (tools_of (route_all mode schema tools).0)
                ≡ names_with wanted tools)
          → length (route_all mode schema tools).0 ≤ length tools
          → All Named (route_one mode schema tool o (route_all mode schema tools)).0
            × ((wanted : Bool)
                → names_with wanted
                    (tools_of (route_one mode schema tool o (route_all mode schema tools)).0)
                  ≡ listed wanted o (properties (input_schema_of tool)) (names_with wanted tools))
            × (length (route_one mode schema tool o (route_all mode schema tools)).0
                ≤ suc (length tools))
      routed_one none e named same fits = (named, same, omega arith)
      routed_one (some []) e named same fits = (named, same, omega arith)
      routed_one (some (c ∷ cs)) e named same fits = (
        ((c, cs, e), named),
        (λ wanted.
            ap
              (λ o.
                listed wanted o (properties (input_schema_of tool))
                  (names_with wanted (tools_of (route_all mode schema tools).0)))
              e
            ∙ ap (listed wanted (some (c ∷ cs)) (properties (input_schema_of tool))) (same wanted)),
        omega arith,
      )

module _ {N : Type 0} (to_lowercase : Text → Text) where
  name_groups-length :
      (prefix : Text) (routed : List (Routed N)) (n : ℕ) (groups : List (Text × List ℕ))
      (names : List Text)
      → IsFragment prefix
      → n < 2 ^ 64
      → AreWithin n groups
      → (out : List Text) × (name_groups to_lowercase prefix routed groups names ≡ some out)
        × (length out ≡ length names)
  unfolding name_groups
  name_groups-length prefix routed n [] names f small h = (names, refl, refl)
  name_groups-length prefix routed n ((target, is) ∷ groups) names f small (here, h) =
      let fits : length (map (local_at routed) is) < 2 ^ 64 =
        rw (length-map_list (local_at routed) is) (omega arith) in
      let (deduped, run, _, _, _) =
        dedup-Distinct to_lowercase (map (local_at routed) is) prefix f fits in
      let (out, rest, same) =
        name_groups-length prefix routed n groups (put_names names is deduped) f small h in
      (out, rw run rest, same ∙ length-put_names names is deduped)

module _ {N : Type 0} (to_lowercase : Text → Text) (render : Value N → Text) where
  shown :
      (tool : Value N) (name : Text) → name_or_none tool ≡ some name → tool_display_name tool ≡ name
  unfolding tool_display_name
  shown tool name e = rw (e, tool_display_name) refl

  name_in : Planned → Option Text
  name_in (planned p) = some p.tool_name
  name_in _ = none

  -- A planned tool keeps the name that the server gave it.
  plan_one-name :
      (tool : Value N) (local sql target name : Text) (gate : InvokeOnSelect) (p : PlannedTool)
      → plan_one to_lowercase render tool local sql target gate ≡ planned p
      → name_or_none tool ≡ some name
      → p.tool_name ≡ name
  unfolding plan_one plan_with name_in
  plan_one-name tool local sql target name gate p h e = ground (arith, ap name_in h, e)

  -- one tool in front of what is emitted
  emit_one-names :
      (gate : InvokeOnSelect) (r : Routed N) (sql : Text) (rest : Emitted)
      → Named r
      → (e : Emitted) × (emit_one gate
            (tool_display_name r.tool)
            (plan_one to_lowercase render r.tool r.local sql r.target gate)
            rest
          ≡ some e)
        × (map (λ (p : PlannedTool). p.tool_name) e.tools
            ≡ listed true
                (name_or_none r.tool)
                (properties (input_schema_of r.tool))
                (map (λ (p : PlannedTool). p.tool_name) rest.tools))
        × (e.skipped
            ≡ listed false (name_or_none r.tool) (properties (input_schema_of r.tool)) rest.skipped)
  unfolding tool_display_name
  emit_one-names gate r sql rest (c, cs, named) =
      answered (properties (input_schema_of r.tool)) _ refl
        (plan_one_total to_lowercase render r.tool r.local sql r.target gate)
    where
      answered :
          (o : Option (List (Text × Value N))) (a : Planned)
          → plan_one to_lowercase render r.tool r.local sql r.target gate ≡ a
          → IsAnswer o a
          → (e : Emitted) × (emit_one gate (tool_display_name r.tool) a rest ≡ some e)
            × (map (λ (p : PlannedTool). p.tool_name) e.tools
                ≡ listed true
                    (name_or_none r.tool)
                    o
                    (map (λ (p : PlannedTool). p.tool_name) rest.tools))
            × (e.skipped ≡ listed false (name_or_none r.tool) o rest.skipped)
      answered none a run (reason, h) =
          rw (h, named) (_, refl, refl, ap (λ n. n ∷ rest.skipped) (shown r.tool (c ∷ cs) named))
      answered (some props) a run (p, h) =
          rw (h, named)
            (
              _,
              refl,
              ap (λ n. n ∷ map (λ (p : PlannedTool). p.tool_name) rest.tools)
                  (plan_one-name r.tool r.local sql r.target (c ∷ cs) gate p (run ∙ h) named),
              refl,
            )

  emit-names :
      (gate : InvokeOnSelect) (routed : List (Routed N)) (names : List Text)
      → All Named routed
      → length names ≡ length routed
      → (e : Emitted) × (emit to_lowercase render gate routed names ≡ some e)
        × (map (λ (p : PlannedTool). p.tool_name) e.tools ≡ names_with true (tools_of routed))
        × (e.skipped ≡ names_with false (tools_of routed))
  unfolding emit
  emit-names gate [] names all h = (_, refl, refl, refl)
  emit-names gate (r ∷ routed) [] all h = cc
  emit-names gate (r ∷ routed) (sql ∷ names) (named, all) h =
      let (rest, run, planned_ones, skipped_ones) =
        emit-names gate routed names all (omega arith) in
      let (e, one, more, fewer) = emit_one-names gate r sql rest named in
      (
        e,
        rw run one,
        more
            ∙ ap (listed true (name_or_none r.tool) (properties (input_schema_of r.tool)))
                planned_ones,
        fewer
            ∙ ap (listed false (name_or_none r.tool) (properties (input_schema_of r.tool)))
                skipped_ones,
      )

  -- Under a prefix of identifier characters that does not start with a digit, and for a schema with a
  -- name, a batch of fewer than 2^64 tools is planned without a panic, in a release build: the planned
  -- tools are those with a usable name and a schema that lists properties, under the names that the
  -- server gave them, the skipped ones those with a usable name and no such schema, both in order.
  pub plan_accounts :
      (tools : List (Value N)) (c : ℕ) (schema prefix : Text) (gate : InvokeOnSelect)
      (mode : SchemaMode)
      → IsFragment prefix
      → length tools < 2 ^ 64
      → (p : GenerationPlan) × (plan to_lowercase render tools (c ∷ schema) prefix gate mode
          ≡ some (ok p))
        × (map (λ (t : PlannedTool). t.tool_name) p.tools ≡ names_with true tools)
        × (p.skipped ≡ names_with false tools)
  unfolding plan
  plan_accounts tools c schema prefix gate mode f small =
      let routed = (route_all mode (c ∷ schema) tools).0 in
      let (named_all, same_names, fits) = route_all-names mode (c ∷ schema) tools in
      let (names, named, same) =
        name_groups-length to_lowercase prefix routed (0 + length routed) (group_from 0 routed [])
          (replicate (length routed) []) f (omega arith) (group_from-AreWithin 0 0 routed [] tt) in
      let (e, emitted, planned_ones, skipped_ones) =
        emit-names gate routed names named_all (same ∙ length-replicate (length routed) []) in
      (
        finished_plan to_lowercase render gate (route_all mode (c ∷ schema) tools).1 e,
        rw (named, emitted) refl,
        planned_ones ∙ same_names true,
        skipped_ones ∙ same_names false,
      )
