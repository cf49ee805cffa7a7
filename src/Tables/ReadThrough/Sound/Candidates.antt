-- ===== src/Tables/ReadThrough/Sound/Candidates.antt =====
-- The rows of `completions`.
use elixir_mcp_lib.Base.{
  ℕ, suc, ◌≡◌, refl, Option, none, some, List, [], ◌∷◌, Text, codes, ℤ, ◌>>=◌, All, All-append,
  Option-cases, inl, inr,
}
use elixir_mcp_lib.Json.{Value, string, get, as_str, as_bool, object, null, boolean, number, array}
use elixir_mcp_lib.Quals.{Equality}
use elixir_mcp_lib.Quals
use elixir_mcp_lib.Client.Wire.{Env}
use elixir_mcp_lib.Codegen.Table.{ColumnType}
use elixir_mcp_lib.Tables.{Cell, Row, Numbers, as_json, ScanContext, empty_row, int_as_i32}
use elixir_mcp_lib.Tables.Specs.{completions_spec}
use elixir_mcp_lib.Tables.Catalog.{bool_at, value_as_i64, set}
use elixir_mcp_lib.Tables.Catalog.Conform.{Fits-some, Conforms}
use elixir_mcp_lib.Tables.ReadThrough.{
  CtxResult, returned, raised, Store, Fetch, restricted, array_at, put_all,
}
use elixir_mcp_lib.Tables.ReadThrough.Restricted.{IsEquivalence}
use elixir_mcp_lib.Tables.ReadThrough.Rows.{filled-Conforms, nth-placed, nth-behind}
use elixir_mcp_lib.Tables.ReadThrough.Prompts.{or_null}
use elixir_mcp_lib.Tables.ReadThrough.Completions.{
  completion_required, restricted_columns, candidate_cells, candidate_rows, complete, each,
  complete_all, completions_rows,
}
use elixir_mcp_lib.Tables.ReadThrough.Sound.{
  Given, returns, raises, Ensures, yields, Ensures-give, Ensures-behind, Ensures-any, at_spec,
  IsAllowed, All-restricted, Holds,
}

module _ {N F : Type 0} (eq : Equality N) (num : Numbers N F) where
  -- A row of the table, with a reference, a name and a value that the restrictions allow.
  abbrev pub IsCandidateRow : List (Quals.Qual N) → Row N F → Type 0
  IsCandidateRow quals row =
      Conforms completions_spec.columns row
      × Holds eq num quals (codes "ref") row 0
      × Holds eq num quals (codes "argument_name") row 1
      × Holds eq num quals (codes "argument_value") row 2

  module _ (as_i64 : N → Option ℤ) (quals : List (Quals.Qual N)) (ref : Value N)
      (name value : Text) where
    -- The keys of one request are allowed.
    abbrev AreAllowed : Type 0
    AreAllowed =
        IsAllowed eq quals (codes "ref") ref
        × IsAllowed eq quals (codes "argument_name") (string name)
        × IsAllowed eq quals (codes "argument_value") (string value)

    candidate_row :
        (completion : Value N) (idx : ℕ) (candidate : Value N)
        → AreAllowed
        → IsCandidateRow quals (
            put_all completions_spec
              (empty_row N F completions_spec)
              (candidate_cells as_i64 ref name value completion idx candidate))
    unfolding candidate_cells completions_spec set as_json bool_at
    candidate_row completion idx candidate (ref_ok, name_ok, value_ok) = (
      filled-Conforms completions_spec
          (candidate_cells as_i64 ref name value completion idx candidate)
          (
            refl,
            (
              refl,
              (
                refl,
                (
                  Fits-some N F ColumnType.text Cell.text (as_str candidate) (λ s. refl),
                  (
                    refl,
                    (
                      Fits-some N F ColumnType.int4 (λ n. Cell.int4 (int_as_i32 n))
                          (get completion (codes "total") >>= value_as_i64 as_i64) (λ n. refl),
                      (
                        Fits-some N F ColumnType.boolean Cell.bool
                            (get completion (codes "hasMore") >>= as_bool) (λ b. refl),
                        tt,
                      ),
                    ),
                  ),
                ),
              ),
            ),
          ),
      (
        Cell.json ref,
        nth-placed completions_spec _ _ _ _ 0 (refl, (refl, (refl, (refl, (refl, (refl, tt))))))
            refl,
        ref_ok,
      ),
      (
        Cell.text name,
        nth-behind completions_spec _ _ _ _ 1 _
            (nth-placed completions_spec _ _ _ _ 1 (refl, (refl, (refl, (refl, (refl, tt))))) refl),
        name_ok,
      ),
      (
        Cell.text value,
        nth-behind completions_spec _ _ _ _ 2 _ (
            nth-behind completions_spec _ _ _ _ 2 _
              (nth-placed completions_spec _ _ _ _ 2 (refl, (refl, (refl, (refl, tt)))) refl)),
        value_ok,
      ),
    )

    All-candidate_rows :
        (completion : Value N) (idx : ℕ) (candidates : List (Value N))
        → AreAllowed
        → All
            (IsCandidateRow quals)
            (candidate_rows as_i64 completions_spec ref name value completion idx candidates)
    unfolding candidate_rows
    All-candidate_rows completion idx [] h = tt
    All-candidate_rows completion idx (c ∷ cs) h =
        (candidate_row completion idx c h, All-candidate_rows completion (suc idx) cs h)

module _ {N : Type 0} (P : Value N → Type 0) where
  -- The text, where there is one, satisfies `P`.
  abbrev AllText : Option Text → Type 0
  AllText none = Unit
  AllText (some t) = P (string t)

  AllText-as_str : (v : Value N) → P v → AllText (as_str v)
  AllText-as_str (string t) p = p
  AllText-as_str null p = tt
  AllText-as_str (boolean b) p = tt
  AllText-as_str (number n) p = tt
  AllText-as_str (array vs) p = tt
  AllText-as_str (object fs) p = tt

module _ {N : Type 0} (eq : Equality N) (e : IsEquivalence eq) (quals : List (Quals.Qual N)) where
  -- For each column, values that the restrictions allow it.
  abbrev AllAllowed : List Text → List (List (Value N)) → Type 0
  AllAllowed [] [] = Unit
  AllAllowed [] (vs ∷ vss) = ⊥
  AllAllowed (c ∷ cs) [] = ⊥
  AllAllowed (c ∷ cs) (vs ∷ vss) = All (IsAllowed eq quals c) vs × AllAllowed cs vss

  Given-rest :
      (c : Text) (cs : List Text) (values : List (Value N))
      (later : CtxResult (List (List (Value N))))
      → restricted eq quals c ≡ some values
      → Given (AllAllowed cs) later
      → Given
          (AllAllowed (c ∷ cs))
          (elim later [ raised x ↦ raised x | returned cols ↦ returned (values ∷ cols) ])
  Given-rest c cs values (raised x) found h = raises x
  Given-rest c cs values (returned cols) found (returns cols' h) =
      returns _ (All-restricted eq e quals c values found, h)

  Given-restricted_columns :
      (cs : List Text) → Given (AllAllowed cs) (restricted_columns eq quals cs)
  unfolding restricted_columns
  Given-restricted_columns [] = returns [] tt
  Given-restricted_columns (c ∷ cs) = elim (Option-cases (restricted eq quals c)) [
    | inl free ↦ rw (free, restricted_columns) (raises _)
    | inr (values, found) ↦
        rw (found, restricted_columns)
          (Given-rest c cs values (restricted_columns eq quals cs) found
            (Given-restricted_columns cs))
  ]

module _ {N F W : Type 0} (env : Env N W) (eq : Equality N) (num : Numbers N F)
    (as_i64 : N → Option ℤ) where
  Ensures-complete :
      (ctx : ScanContext N) (ref : Value N) (name value : Option Text) (s : Store N W)
      → IsAllowed eq ctx.quals (codes "ref") ref
      → AllText (IsAllowed eq ctx.quals (codes "argument_name")) name
      → AllText (IsAllowed eq ctx.quals (codes "argument_value")) value
      → Ensures
          (All (IsCandidateRow eq num ctx.quals))
          (complete env eq as_i64 (at_spec completions_spec ctx) ref name value s)
  unfolding complete
  Ensures-complete ctx ref (some name) (some value) s hr hn hv =
      let P = IsCandidateRow eq num ctx.quals in
      Ensures-behind _ (All P) _ (Ensures-any _) λ result s1 _.
        let completion = or_null (get result (codes "completion")) in
        yields _ s1 (
          All-candidate_rows eq num as_i64 ctx.quals ref name value completion 0
            (array_at completion (codes "values")) (hr, hn, hv))
  Ensures-complete ctx ref (some name) none s hr hn hv = yields [] s tt
  Ensures-complete ctx ref none value s hr hn hv = yields [] s tt

  Ensures-each :
      (P : Row N F → Type 0) (Q : Value N → Type 0) (round : Value N → Fetch N W (List (Row N F)))
      (vs : List (Value N)) (s : Store N W)
      → All Q vs
      → ((v : Value N) (t : Store N W) → Q v → Ensures (All P) (round v t))
      → Ensures (All P) (each env eq as_i64 round vs s)
  unfolding each
  Ensures-each P Q round [] s h rounds = yields [] s tt
  Ensures-each P Q round (v ∷ vs) s (here, h) rounds =
      Ensures-behind (All P) (All P) _ (rounds v s here) λ rows s1 hr.
        Ensures-behind (All P) (All P) _ (Ensures-each P Q round vs s1 h rounds)
          λ rest s2 hs. yields _ s2 (All-append P rows rest hr hs)

  module _ (e : IsEquivalence eq) where
    Ensures-complete_all :
        (ctx : ScanContext N) (columns : List (List (Value N))) (s : Store N W)
        → AllAllowed eq e ctx.quals completion_required columns
        → Ensures
            (All (IsCandidateRow eq num ctx.quals))
            (complete_all env eq as_i64 (at_spec completions_spec ctx) columns s)
    unfolding complete_all
    Ensures-complete_all ctx (refs ∷ names ∷ values ∷ []) s (hr, (hn, (hv, _))) =
        let P = IsCandidateRow eq num ctx.quals in
        let A = λ (column : Text). IsAllowed eq ctx.quals column in
        Ensures-each P (A (codes "ref")) _ refs s hr λ ref s1 ref_ok.
          Ensures-each P (A (codes "argument_name")) _ names s1 hn λ name s2 name_ok.
            Ensures-each P (A (codes "argument_value")) _ values s2 hv λ value s3 value_ok.
              Ensures-complete ctx ref (as_str name) (as_str value) s3 ref_ok
                (AllText-as_str (A (codes "argument_name")) name name_ok)
                (AllText-as_str (A (codes "argument_value")) value value_ok)
    Ensures-complete_all ctx [] s h = absurd h
    Ensures-complete_all ctx (refs ∷ []) s (_, h) = absurd h
    Ensures-complete_all ctx (refs ∷ names ∷ []) s (_, (_, h)) = absurd h
    Ensures-complete_all ctx (refs ∷ names ∷ values ∷ more ∷ cs) s (_, (_, (_, h))) = absurd h

    pub Ensures-candidates :
        (ctx : ScanContext N) (s : Store N W)
        → Ensures
            (All (IsCandidateRow eq num ctx.quals))
            (completions_rows env eq as_i64 (at_spec completions_spec ctx) s)
    unfolding completions_rows
    Ensures-candidates ctx s =
        let P = IsCandidateRow eq num ctx.quals in
        Ensures-behind (AllAllowed eq e ctx.quals completion_required) (All P) _
          (Ensures-give (AllAllowed eq e ctx.quals completion_required) s
            (Given-restricted_columns eq e ctx.quals completion_required))
          λ columns s1 h. Ensures-complete_all ctx columns s1 h
