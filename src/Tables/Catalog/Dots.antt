-- ===== src/Tables/Catalog/Dots.antt =====
-- Names with a dot and without, and what a filter keeps of a list.
use elixir_mcp_lib.Base.{
  ◌≡◌, refl, ap, arith, Bool, true, false, Option, none, some, List, [], ◌∷◌, ◌++◌, Text, ◌==◌,
  ==_iff, Bool-cases, inl, inr, ◌>>=◌, ◌≢◌, ◌↔◌, In, in_head, in_tail,
}
use elixir_mcp_lib.Tables.Catalog.Filters.{filter}
use elixir_mcp_lib.Tables.Catalog.Scope.{has_dot, strip_prefix, local_name}

abbrev pub found : Option Text → Bool
found none = false
found (some t) = true

pub strip_prefix-some : (s p l : Text) → strip_prefix s p ≡ some l → s ≡ p ++ l
strip_prefix-some s [] l h = cc
strip_prefix-some [] (d ∷ p) l h = cc
strip_prefix-some (c ∷ s) (d ∷ p) l h = elim (Bool-cases (c == d)) [
  | inl same ↦ rw ((==_iff c d).0 same) (ap (λ t. d ∷ t) (strip_prefix-some s p l (rw same at h)))
  | inr other ↦ absurd (none-not-some (rw other at h))
]
  where
    none-not-some : ◌≡◌ {A = Option Text} none (some l) → ⊥
    none-not-some e = cc

has_dot-strip_prefix :
    (s u : Text) → found (strip_prefix s (u ++ b'.' ∷ [])) ≡ true → has_dot s ≡ true
has_dot-strip_prefix [] [] h = cc
has_dot-strip_prefix (c ∷ s) [] h = ground arith
has_dot-strip_prefix [] (d ∷ u) h = cc
has_dot-strip_prefix (c ∷ s) (d ∷ u) h = ground (arith, has_dot-strip_prefix s u)

-- A name without a dot; an item without a name has none either.
abbrev pub IsLocal : Option Text → Type 0
IsLocal none = Unit
IsLocal (some n) = (s t : Text) → n ≢ s ++ b'.' ∷ t

has_dot-split : (n : Text) → has_dot n ≡ true → (s : Text) × (t : Text) × (n ≡ s ++ b'.' ∷ t)
has_dot-split [] h = cc
has_dot-split (c ∷ n) h = elim (Bool-cases (c == b'.')) [
  | inl dot ↦ ([], n, ap (λ d. d ∷ n) ((==_iff c b'.').0 dot))
  | inr other ↦
      let (s, t, split) = has_dot-split n (rw other at h) in (c ∷ s, t, ap (λ m. c ∷ m) split)
]

has_dot-middle : (s t : Text) → has_dot (s ++ b'.' ∷ t) ≡ true
has_dot-middle [] t = refl
has_dot-middle (c ∷ s) t = ground (arith, has_dot-middle s t)

pub local_name_iff : (name : Option Text) → (local_name name ≡ true) ↔ IsLocal name
local_name_iff none = ((λ h. tt), (λ h. refl))
local_name_iff (some n) = (
  λ h s t split. ground (arith, ap has_dot split, has_dot-middle s t),
  λ h. elim (Bool-cases (has_dot n)) [
    | inl dotted ↦ let (s, t, split) = has_dot-split n dotted in absurd (h s t split)
    | inr plain ↦ rw plain refl
  ],
)

pub not_both :
    (u : Text) (name : Option Text)
    → local_name name ≡ true
    → found (name >>= (λ n. strip_prefix n (u ++ b'.' ∷ []))) ≡ false
not_both u none h = refl
not_both u (some n) h = ground (arith, has_dot-strip_prefix n u)

module _ {A : Type 0} where
  In-kept :
      (p : A → Bool) (x y : A) (ys xs : List A)
      → (In x ys → In x xs × (p x ≡ true))
      → p y ≡ true
      → In x (y ∷ ys)
      → In x (y ∷ xs) × (p x ≡ true)
  In-kept p x _ ys xs rest stays in_head = (in_head, stays)
  In-kept p x y ys xs rest stays (in_tail m) = let (m', h) = rest m in (in_tail m', h)

  pub In-filter : (p : A → Bool) (x : A) (xs : List A) → In x (filter p xs) → In x xs × (p x ≡ true)
  In-filter p x [] m = elim m [ ]
  In-filter p x (y ∷ xs) m = elim (Bool-cases (p y)) [
    | inl stays ↦ In-kept p x y (filter p xs) xs (λ n. In-filter p x xs n) stays (rw stays at m)
    | inr goes ↦ let (m', h) = In-filter p x xs (rw goes at m) in (in_tail m', h)
  ]

  pub filter-In : (p : A → Bool) (x : A) (xs : List A) → In x xs → p x ≡ true → In x (filter p xs)
  filter-In p x [] m h = elim m [ ]
  filter-In p x (_ ∷ xs) in_head h = rw h in_head
  filter-In p x (y ∷ xs) (in_tail m) h = elim (Bool-cases (p y)) [
    | inl stays ↦ rw stays (in_tail (filter-In p x xs m h))
    | inr goes ↦ rw goes (filter-In p x xs m h)
  ]

  pub filter_apart :
      (p q : A → Bool) (xs : List A)
      → ((x : A) → p x ≡ true → q x ≡ false)
      → filter q (filter p xs) ≡ []
  filter_apart p q [] h = refl
  filter_apart p q (x ∷ xs) h = elim (Bool-cases (p x)) [
    | inl stays ↦ rw (stays, h x stays) (filter_apart p q xs h)
    | inr goes ↦ rw goes (filter_apart p q xs h)
  ]
