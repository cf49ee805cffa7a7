-- ===== src/Tables/ReadThrough/Restricted.antt =====
-- What the restrictions of a column come to: the values that all of them list, each once.
use elixir_mcp_lib.Base.{
  ◌≡◌, refl, ◌∙◌, arith, Bool, true, false, ◌&&◌, ◌||◌, Option, none, some, List, [], ◌∷◌, ◌++◌,
  append_assoc, append-nil, if◌then◌else◌, Text, text_eq, Bool-cases, inl, inr,
}
use elixir_mcp_lib.Json.{Value}
use elixir_mcp_lib.Quals.{Qual, Equality, restricted_values, contains_value}
use elixir_mcp_lib.Tables.Catalog.Filters.{filter}
use elixir_mcp_lib.Tables.ReadThrough.{dedupe_from, dedupe, met, restricted_from, restricted}

-- Equality of documents is an equivalence.
pub record IsEquivalence {N : Type 0} (eq : Equality N) : Type 0 where
  pub reflexive : (a : Value N) → eq.same_value a a ≡ true
  pub symmetric : (a b : Value N) → eq.same_value a b ≡ eq.same_value b a
  pub transitive :
      (a b c : Value N)
      → eq.same_value a b ≡ true
      → eq.same_value b c ≡ true
      → eq.same_value a c ≡ true

module _ {N : Type 0} (eq : Equality N) where
  -- Every restriction of the column lists the value.
  abbrev pub allowed : List (Qual N) → Text → Value N → Bool
  allowed [] column v = true
  allowed (q ∷ qs) column v =
      (if text_eq q.field column then contains_value eq (restricted_values q) v else true)
      && allowed qs column v

  -- No value of the list equals one before it or one of `seen`.
  abbrev pub Fresh : List (Value N) → List (Value N) → Type 0
  Fresh seen [] = Unit
  Fresh seen (v ∷ vs) = (contains_value eq seen v ≡ false) × Fresh (seen ++ v ∷ []) vs

  -- whether a value is allowed, where no restriction allows every one
  abbrev pub allowed_by : Option (List (Value N)) → Value N → Bool
  allowed_by none w = true
  allowed_by (some vs) w = contains_value eq vs w

  abbrev pub values_or_none : Option (List (Value N)) → List (Value N)
  values_or_none none = []
  values_or_none (some vs) = vs

  contains-append :
      (xs ys : List (Value N)) (v : Value N)
      → contains_value eq (xs ++ ys) v ≡ (contains_value eq xs v || contains_value eq ys v)
  contains-append [] ys v = refl
  contains-append (x ∷ xs) ys v = ground (arith, contains-append xs ys v)

  Fresh-snoc :
      (seen xs : List (Value N)) (v : Value N)
      → Fresh seen xs
      → contains_value eq (seen ++ xs) v ≡ false
      → Fresh seen (xs ++ v ∷ [])
  Fresh-snoc seen [] v h new = (rw append-nil at new, tt)
  Fresh-snoc seen (x ∷ xs) v (here, h) new =
      (here, Fresh-snoc (seen ++ x ∷ []) xs v h (rw append_assoc new))

  pub dedupe_from-Fresh :
      (seen vs : List (Value N)) → Fresh [] seen → Fresh [] (dedupe_from eq seen vs)
  unfolding dedupe_from
  dedupe_from-Fresh seen [] h = h
  dedupe_from-Fresh seen (v ∷ vs) h = elim (Bool-cases (contains_value eq seen v)) [
    | inl old ↦ rw old (dedupe_from-Fresh seen vs h)
    | inr new ↦ rw new (dedupe_from-Fresh (seen ++ v ∷ []) vs (Fresh-snoc [] seen v h new))
  ]

  module _ (e : IsEquivalence eq) where
    contains_same :
        (xs : List (Value N)) (v w : Value N)
        → eq.same_value v w ≡ true
        → contains_value eq xs v ≡ contains_value eq xs w
    contains_same [] v w h = refl
    contains_same (x ∷ xs) v w h =
        ground
          (arith, contains_same xs v w h, e.transitive x v w, e.transitive x w v, e.symmetric v w)

    contains-dedupe_from :
        (seen vs : List (Value N)) (w : Value N)
        → contains_value eq (dedupe_from eq seen vs) w
          ≡ (contains_value eq seen w || contains_value eq vs w)
    unfolding dedupe_from
    contains-dedupe_from seen [] w = ground arith
    contains-dedupe_from seen (v ∷ vs) w = elim (Bool-cases (contains_value eq seen v)) [
      | inl old ↦ rw old (ground (arith, contains-dedupe_from seen vs w, contains_same seen v w))
      | inr new ↦ rw new (
          ground
            (arith, contains-dedupe_from (seen ++ v ∷ []) vs w, contains-append seen (v ∷ []) w))
    ]

    contains-met :
        (set' prev : List (Value N)) (w : Value N)
        → contains_value eq (filter (contains_value eq set') prev) w
          ≡ (contains_value eq prev w && contains_value eq set' w)
    contains-met set' [] w = refl
    contains-met set' (p ∷ ps) w = ground (arith, contains-met set' ps w, contains_same set' p w)

    restricted_from-allowed :
        (acc : Option (List (Value N))) (quals : List (Qual N)) (column : Text) (w : Value N)
        → allowed_by (restricted_from eq acc quals column) w
          ≡ (allowed_by acc w && allowed quals column w)
    unfolding restricted_from
    restricted_from-allowed none [] column w = refl
    restricted_from-allowed (some vs) [] column w = ground arith
    restricted_from-allowed acc (q ∷ qs) column w = elim (Bool-cases (text_eq q.field column)) [
      | inl same ↦
          rw (same, restricted_from-allowed (some (met eq acc (restricted_values q))) qs column w)
            (met_allowed acc)
      | inr other ↦ rw (other, restricted_from-allowed acc qs column w) refl
    ]
      where
        met_allowed :
            (acc : Option (List (Value N)))
            → (contains_value eq (met eq acc (restricted_values q)) w && allowed qs column w) ≡ (
                allowed_by acc w
                && (contains_value eq (restricted_values q) w && allowed qs column w))
        met_allowed none = refl
        met_allowed (some prev) = ground (arith, contains-met (restricted_values q) prev w)

    allowed-restricted :
        (acc : Option (List (Value N))) (quals : List (Qual N)) (column : Text) (w : Value N)
        → restricted_from eq none quals column ≡ acc
        → (allowed_by (restricted eq quals column) w ≡ allowed_by acc w)
          × Fresh [] (values_or_none (restricted eq quals column))
    unfolding restricted dedupe
    allowed-restricted none quals column w h = rw h (refl, tt)
    allowed-restricted (some vs) quals column w h =
        rw h (contains-dedupe_from [] vs w, dedupe_from-Fresh [] vs tt)

    -- Where equality of documents is an equivalence: the values that the restrictions of a column come
    -- to are those that every one of them lists, and no two of them are equal; where nothing restricts
    -- the column, every value is allowed.
    pub restricted-allowed :
        (quals : List (Qual N)) (column : Text) (w : Value N)
        → (allowed_by (restricted eq quals column) w ≡ allowed quals column w)
          × Fresh [] (values_or_none (restricted eq quals column))
    restricted-allowed quals column w =
        let found = allowed-restricted (restricted_from eq none quals column) quals column w refl in
        (found.0 ∙ restricted_from-allowed none quals column w, found.1)
