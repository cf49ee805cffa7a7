-- ===== src/Tables/ReadThrough/Traffic.antt =====
-- How many resources a scan without a restriction reads.
use elixir_mcp_lib.Base.{
  ℕ, ◌≡◌, ◌≤◌, ◌<◌, refl, ap, arith, false, List, [], ◌∷◌, ◌++◌, map, Text, length, ℤ, pos, negsuc,
  int_eq, All, All-append, Bool-cases, inl, inr,
}
use elixir_mcp_lib.Json.{Value, string}
use elixir_mcp_lib.Quals.{Equality, contains_value}
use elixir_mcp_lib.Client.Wire.{Env}
use elixir_mcp_lib.Tables.{ScanContext}
use elixir_mcp_lib.Tables.ReadThrough.{
  CtxError, CtxResult, returned, raised, Store, give, behind, dedupe_from, dedupe, texts_of,
}
use elixir_mcp_lib.Tables.ReadThrough.Restricted.{Fresh, dedupe_from-Fresh}
use elixir_mcp_lib.Tables.ReadThrough.Resources.{
  exceeds, uris_of, distinct_uris, capped, unqualified_uris,
}

module _ {N : Type 0} where
  abbrev IsText : Value N → Type 0
  IsText v = (u : Text) × (v ≡ string u)

  map-texts_of : (vs : List (Value N)) → All IsText vs → map string (texts_of vs) ≡ vs
  unfolding texts_of
  map-texts_of [] h = refl
  map-texts_of (v ∷ vs) ((u, e), h) = rw e (ap (λ ws. string u ∷ ws) (map-texts_of vs h))

module _ (N : Type 0) where
  All-map_string : (us : List Text) → All (IsText {N = N}) (map string us)
  All-map_string [] = tt
  All-map_string (u ∷ us) = ((u, refl), All-map_string us)

module _ {N : Type 0} (eq : Equality N) where
  All-dedupe_from :
      (seen vs : List (Value N))
      → All IsText seen
      → All IsText vs
      → All IsText (dedupe_from eq seen vs)
  unfolding dedupe_from
  All-dedupe_from seen [] hs h = hs
  All-dedupe_from seen (v ∷ vs) hs (hv, h) = elim (Bool-cases (contains_value eq seen v)) [
    | inl old ↦ rw old (All-dedupe_from seen vs hs h)
    | inr new ↦
        rw new (All-dedupe_from (seen ++ v ∷ []) vs (All-append IsText seen (v ∷ []) hs (hv, tt)) h)
  ]

  map-distinct_uris :
      (listed : List (Value N))
      → map string (distinct_uris eq listed) ≡ dedupe eq (map string (uris_of listed))
  unfolding distinct_uris dedupe
  map-distinct_uris listed =
      map-texts_of _
        (All-dedupe_from [] (map string (uris_of listed)) tt (All-map_string N (uris_of listed)))

  Fresh-distinct_uris :
      (listed : List (Value N)) → Fresh eq [] (map string (distinct_uris eq listed))
  unfolding dedupe
  Fresh-distinct_uris listed =
      rw (map-distinct_uris listed) (dedupe_from-Fresh eq [] (map string (uris_of listed)) tt)

-- what the cap lets through
abbrev pub IsWithin : ℤ → ℕ → Type 0
IsWithin cap count = (n : ℕ) × (cap ≡ pos n) × (0 < n) × (count ≤ n)

within :
    (cap : ℤ) (count : ℕ)
    → int_eq cap (pos 0) ≡ false
    → exceeds count cap ≡ false
    → IsWithin cap count
within (pos n) count nonzero h = (n, refl, ground arith, ground arith)
within (negsuc n) count nonzero h = cc

module _ {N : Type 0} (eq : Equality N) where
  capped-IsWithin :
      (cap : ℤ) (listed : List (Value N)) (uris : List Text)
      → int_eq cap (pos 0) ≡ false
      → capped cap (distinct_uris eq listed) ≡ returned uris
      → IsWithin cap (length uris) × Fresh eq [] (map string uris)
  unfolding capped
  capped-IsWithin cap listed uris nonzero h =
      elim (Bool-cases (exceeds (length (distinct_uris eq listed)) cap)) [
        | inl over ↦ absurd (raised-not-returned (rw over at h))
        | inr fits ↦
            let same : distinct_uris eq listed ≡ uris = returned_eq (rw fits at h) in
            rw (← same) (
              within cap (length (distinct_uris eq listed)) nonzero fits,
              Fresh-distinct_uris eq listed,
            )
      ]
    where
      raised-not-returned :
          {e : CtxError} → ◌≡◌ {A = CtxResult (List Text)} (raised e) (returned uris) → ⊥
      raised-not-returned e = cc

      returned_eq :
          {us : List Text}
          → ◌≡◌ {A = CtxResult (List Text)} (returned us) (returned uris)
          → us ≡ uris
      returned_eq e = cc

module _ {N W : Type 0} (env : Env N W) (eq : Equality N) where
  behind-capped :
      (cap : ℤ) (answer : CtxResult (List (Value N)) × Store N W) (uris : List Text)
      → int_eq cap (pos 0) ≡ false
      → (behind answer (λ listed. give (capped cap (distinct_uris eq listed)))).0 ≡ returned uris
      → IsWithin cap (length uris) × Fresh eq [] (map string uris)
  behind-capped cap (returned listed, s) uris nonzero h =
      capped-IsWithin eq cap listed uris nonzero h
  behind-capped cap (raised e, s) uris nonzero h = cc

  -- A scan of the resources that nothing restricts reads, where it reads at all, no more of them than
  -- `max_unqualified_reads`, which is then positive, and none twice.
  pub unqualified_uris-IsWithin :
      (ctx : ScanContext N) (s : Store N W) (uris : List Text)
      → (unqualified_uris env eq ctx s).0 ≡ returned uris
      → IsWithin ctx.base.resolved.options.max_unqualified_reads (length uris)
        × Fresh eq [] (map string uris)
  unfolding unqualified_uris
  unqualified_uris-IsWithin ctx s uris h =
      let cap = ctx.base.resolved.options.max_unqualified_reads in
      elim (Bool-cases (int_eq cap (pos 0))) [
        | inl none_allowed ↦ cc (rw none_allowed at h)
        | inr nonzero ↦ behind-capped cap _ uris nonzero (rw nonzero at h)
      ]
