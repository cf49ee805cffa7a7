-- ===== src/Options/Qualified.antt =====
-- A schema-qualified name is read into its two identifiers, and nothing else is accepted.
use elixir_mcp_lib.Base.{
  ℕ, ◌≡◌, refl, arith, ap, append_assoc, ◌∙◌, sym, true, false, ◌&&◌, ◌||◌, List, [], ◌∷◌, ◌++◌,
  ◌↔◌, ◌==◌, ==_iff, Text, All, Bool-cases, join, inl, inr,
}
use elixir_mcp_lib.Errors.{ok, err}
use elixir_mcp_lib.Errors.Results.{Ensures, returns, fails, Ensures-if, Ensures-returned}
use elixir_mcp_lib.Options.{
  push_char, split, is_empty, all_identifier_chars, is_plain_identifier, not_qualified, not_plain,
  qualified_parts, split_qualified,
}

-- `split_qualified` at two plain identifiers around a dot.
NotDot : ℕ → Type 0
NotDot c = (c == b'.') ≡ false

split_plain : (t : Text) → All NotDot t → split t b'.' ≡ t ∷ []
unfolding split NotDot
split_plain [] h = refl
split_plain (c ∷ t) (apart, h) = rw (apart, split_plain t h) refl

split_pair : (s t : Text) → All NotDot s → All NotDot t → split (s ++ b'.' ∷ t) b'.' ≡ s ∷ t ∷ []
unfolding split NotDot
split_pair [] t hs ht = rw (split_plain t ht) refl
split_pair (c ∷ s) t (apart, hs) ht = rw (apart, split_pair s t hs ht) refl

NotDot-chars : (s : Text) → all_identifier_chars s ≡ true → All NotDot s
unfolding NotDot
NotDot-chars [] h = tt
NotDot-chars (c ∷ s) h = (ground arith, NotDot-chars s (ground arith))

NotDot-plain : (s : Text) → is_plain_identifier s ≡ true → All NotDot s
unfolding is_plain_identifier
NotDot-plain s h = NotDot-chars s (ground arith)

nonempty_plain : (s : Text) → is_plain_identifier s ≡ true → is_empty s ≡ false
unfolding is_plain_identifier
nonempty_plain s h = ground arith

pub split_qualified_pair :
    (name s t : Text)
    → is_plain_identifier s ≡ true
    → is_plain_identifier t ≡ true
    → split_qualified (s ++ b'.' ∷ t) name ≡ ok (s, t)
unfolding split_qualified qualified_parts
split_qualified_pair name s t hs ht =
    rw
      (
        split_pair s t (NotDot-plain s hs) (NotDot-plain t ht),
        hs,
        ht,
        nonempty_plain s hs,
        nonempty_plain t ht,
      )
      refl

join-push_char : (c : ℕ) (ps : List Text) (sep : Text) → join (push_char c ps) sep ≡ c ∷ join ps sep
unfolding join
join-push_char c [] sep = refl
join-push_char c (p ∷ []) sep = refl
join-push_char c (p ∷ q ∷ ps) sep = refl

join-cons : (c : ℕ) (s sep : Text) (d : ℕ) → join ([] ∷ split s d) sep ≡ sep ++ join (split s d) sep
unfolding split join
join-cons c [] sep d = refl
join-cons c (e ∷ s) sep d = elim (Bool-cases (e == d)) [
  | inl same ↦ rw same refl
  | inr apart ↦ rw apart (pushed (split s d))
]
  where
    pushed : (ps : List Text) → join ([] ∷ push_char e ps) sep ≡ sep ++ join (push_char e ps) sep
    pushed [] = refl
    pushed (p ∷ ps) = refl

join-split : (s : Text) (d : ℕ) → join (split s d) (d ∷ []) ≡ s
unfolding split join
join-split [] d = refl
join-split (c ∷ s) d = elim (Bool-cases (c == d)) [
  | inl same ↦ rw same (
      join-cons c s (d ∷ []) d
      ∙ ap (λ u. d ∷ u) (join-split s d)
      ∙ ap (λ e. e ∷ s) (sym ((==_iff c d).0 same)))
  | inr apart ↦ rw apart (join-push_char c (split s d) (d ∷ []) ∙ ap (λ u. c ∷ u) (join-split s d))
]

abbrev pub IsPairOf : List Text → Text × Text → Type 0
IsPairOf parts p =
    (parts ≡ p.0 ∷ p.1 ∷ []) × (is_plain_identifier p.0 ≡ true) × (is_plain_identifier p.1 ≡ true)

pub Ensures-qualified_parts :
    (raw name : Text) (parts : List Text)
    → Ensures (IsPairOf parts) (qualified_parts raw name parts)
unfolding qualified_parts
Ensures-qualified_parts raw name [] = fails _
Ensures-qualified_parts raw name (s ∷ []) = fails _
Ensures-qualified_parts raw name (s ∷ t ∷ u ∷ us) = fails _
Ensures-qualified_parts raw name (s ∷ t ∷ []) =
    Ensures-if (IsPairOf (s ∷ t ∷ [])) (is_empty s || is_empty t) (err (not_qualified raw name)) _
      (λ e. fails (not_qualified raw name))
      (λ e.
        Ensures-if (IsPairOf (s ∷ t ∷ [])) (is_plain_identifier s && is_plain_identifier t)
          (ok (s, t)) (err (not_plain raw name))
          (λ p. returns (s, t) (refl, ground arith, ground arith))
          (λ n. fails (not_plain raw name)))

pub accepted_pair :
    (raw name s t : Text)
    → split_qualified raw name ≡ ok (s, t)
    → (raw ≡ s ++ b'.' ∷ t) × (is_plain_identifier s ≡ true) × (is_plain_identifier t ≡ true)
unfolding split_qualified join
accepted_pair raw name s t h =
    let found =
      Ensures-returned (IsPairOf (split raw b'.')) (s, t)
        (Ensures-qualified_parts raw name (split raw b'.')) h in
    (
      sym (join-split raw b'.') ∙ ap (λ ps. join ps (b'.' ∷ [])) found.0 ∙ (simp append_assoc),
      found.1,
      found.2,
    )

-- A name is accepted, as a schema and a table, exactly when it is the two around a dot and each of
-- them is a plain identifier.
pub split_qualified_iff :
    (raw name s t : Text)
    → (split_qualified raw name ≡ ok (s, t))
      ↔ ((raw ≡ s ++ b'.' ∷ t) × (is_plain_identifier s ≡ true) × (is_plain_identifier t ≡ true))
split_qualified_iff raw name s t =
    (accepted_pair raw name s t, λ h. rw h.0 (split_qualified_pair name s t h.1 h.2))
