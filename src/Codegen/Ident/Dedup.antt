-- ===== src/Codegen/Ident/Dedup.antt =====
-- `dedup` ends on every input, and gives every name an identifier of its own.
use elixir_mcp_lib.Base.{
  suc, ◌+◌, ◌^◌, ◌<◌, ◌≡◌, inl, inr, refl, ap, arith, true, false, some, List, [], ◌∷◌, Text, All,
  length, text_eq, text_eq_iff, contains, Bool-cases,
}
use elixir_mcp_lib.Codegen.Ident.{resolve, derive_all, dedup}
use elixir_mcp_lib.Codegen.Ident.Bounds.{IsFragment, IsIdent, derive-IsIdent}
use elixir_mcp_lib.Codegen.Ident.Loop.{settle-Fresh}

-- each name of the pairs is an identifier, and is neither among `seen` nor given twice
abbrev AllFresh : List Text → List (Text × Text) → Type 0
AllFresh seen [] = Unit
AllFresh seen ((original, name) ∷ out) =
    IsIdent name × (contains seen name ≡ false) × AllFresh (name ∷ seen) out

abbrev pub originals : List (Text × Text) → List Text
originals [] = []
originals ((original, name) ∷ out) = original ∷ originals out

abbrev pub sql_names : List (Text × Text) → List Text
sql_names [] = []
sql_names ((original, name) ∷ out) = name ∷ sql_names out

-- No entry stands in the list twice.
abbrev pub Distinct : List Text → Type 0
Distinct [] = Unit
Distinct (s ∷ ss) = (contains ss s ≡ false) × Distinct ss

resolve-AllFresh :
    (seen names derived : List Text)
    → All IsIdent derived
    → length derived ≡ length names
    → length seen + length names < 2 ^ 64
    → (out : List (Text × Text)) × (resolve seen names derived ≡ some out)
      × (originals out ≡ names)
      × AllFresh seen out
unfolding resolve
resolve-AllFresh seen [] [] h e small = ([], refl, refl, tt)
resolve-AllFresh seen [] (d ∷ ds) h e small = absurd (omega arith)
resolve-AllFresh seen (n ∷ names) [] h e small = absurd (omega arith)
resolve-AllFresh seen (n ∷ names) (d ∷ ds) (i, h) e small =
    let (name, settled, in_name, free) = settle-Fresh seen n d i (omega arith) in
    let (out, run, same, fresh) =
      resolve-AllFresh (name ∷ seen) names ds h (omega arith) (omega arith) in
    ((n, name) ∷ out, rw (settled, run), ap (λ l. n ∷ l) same, (in_name, free, fresh))

-- what is seen is not given again
avoids_seen :
    (s : Text) (seen : List Text) (out : List (Text × Text))
    → contains seen s ≡ true
    → AllFresh seen out
    → contains (sql_names out) s ≡ false
avoids_seen s seen [] h fresh = refl
avoids_seen s seen ((original, name) ∷ out) h (_, free, fresh) =
    elim (Bool-cases (text_eq name s)) [
      | inl e ↦ cc (ap (contains seen) ((text_eq_iff name s).0 e))
      | inr e ↦ rw e (avoids_seen s (name ∷ seen) out (rw e h) fresh)
    ]

AllFresh-Distinct :
    (seen : List Text) (out : List (Text × Text)) → AllFresh seen out → Distinct (sql_names out)
AllFresh-Distinct seen [] fresh = tt
AllFresh-Distinct seen ((original, name) ∷ out) (_, _, fresh) = (
  avoids_seen name (name ∷ seen) out (ground (arith, text_eq_iff name name)) fresh,
  AllFresh-Distinct (name ∷ seen) out fresh,
)

AllFresh-IsIdent :
    (seen : List Text) (out : List (Text × Text)) → AllFresh seen out → All IsIdent (sql_names out)
AllFresh-IsIdent seen [] fresh = tt
AllFresh-IsIdent seen ((original, name) ∷ out) (i, _, fresh) =
    (i, AllFresh-IsIdent (name ∷ seen) out fresh)

derive_all-IsIdent :
    (to_lowercase : Text → Text) (names : List Text) (prefix : Text)
    → IsFragment prefix
    → (ds : List Text) × (derive_all to_lowercase names prefix ≡ some ds)
      × All IsIdent ds
      × (length ds ≡ length names)
unfolding derive_all
derive_all-IsIdent to_lowercase [] prefix f = ([], refl, tt, refl)
derive_all-IsIdent to_lowercase (n ∷ names) prefix f =
    let (d, derived, i) = derive-IsIdent to_lowercase n prefix f in
    let (ds, rest, is, same) = derive_all-IsIdent to_lowercase names prefix f in
    (d ∷ ds, rw (derived, rest), (i, is), ap suc same)

-- Under a prefix of identifier characters that does not start with a digit, `dedup` ends without a
-- panic on every list of fewer than 2^64 names: the pairs carry the names in their order, every SQL
-- name is an identifier of at most 63 bytes, and no SQL name is given twice.
pub dedup-Distinct :
    (to_lowercase : Text → Text) (names : List Text) (prefix : Text)
    → IsFragment prefix
    → length names < 2 ^ 64
    → (out : List (Text × Text)) × (dedup to_lowercase names prefix ≡ some out)
      × (originals out ≡ names)
      × All IsIdent (sql_names out)
      × Distinct (sql_names out)
unfolding dedup
dedup-Distinct to_lowercase names prefix f small =
    let (ds, derived, is, same) = derive_all-IsIdent to_lowercase names prefix f in
    let (out, run, order, fresh) = resolve-AllFresh [] names ds is same (omega arith) in
    (out, rw (derived, run), order, AllFresh-IsIdent [] out fresh, AllFresh-Distinct [] out fresh)
