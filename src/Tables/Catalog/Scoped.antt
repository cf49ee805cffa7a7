-- ===== src/Tables/Catalog/Scoped.antt =====
-- Upstream slices of a list: what each holds, and that the prefix is all that they take away.
use elixir_mcp_lib.Base.{
  ℕ, ◌≡◌, refl, ap, Option, none, some, List, [], ◌∷◌, ◌++◌, if◌then◌else◌, Text, codes, text_eq,
  text_eq_refl, map, Bool-cases, inl, inr, ◌>>=◌, sym, ◌∙◌, ◌↔◌, In,
}
use elixir_mcp_lib.Json.{
  Value, null, boolean, number, string, array, object, Fields, end, field, as_str, insert_field,
  lookup_field,
}
use elixir_mcp_lib.Tables.Catalog.Filters.{filter}
use elixir_mcp_lib.Tables.Catalog.Scope.{
  strip_prefix, local_name, name_of, rename, scoped_name, strip_all, scoped_items, prefixed,
  with_prefix,
}
use elixir_mcp_lib.Tables.Catalog.Dots.{
  IsLocal, found, strip_prefix-some, not_both, local_name_iff, In-filter, filter-In, filter_apart,
}

bind_some {ℓ κ} :
    {A : Type ℓ} {B : Type κ} (o : Option A) (f : A → Option B) {b : B}
    → (o >>= f) ≡ some b
    → (a : A) × (o ≡ some a) × (f a ≡ some b)
bind_some none f h = cc
bind_some (some a) f h = (a, refl, h)

module _ {N : Type 0} where
  lookup_field-insert_field :
      (fs : Fields N) (k : Text) (w : Value N) → lookup_field (insert_field fs k w) k ≡ some w
  lookup_field-insert_field end k w = rw (text_eq_refl k) refl
  lookup_field-insert_field (field j v fs) k w = elim (Bool-cases (text_eq j k)) [
    | inl here ↦ rw (here, here) refl
    | inr other ↦ rw (other, other) (lookup_field-insert_field fs k w)
  ]

  some_eq : {v w : Value N} → ◌≡◌ {A = Option (Value N)} (some v) (some w) → v ≡ w
  some_eq h = cc

  insert_field-insert_field :
      (fs : Fields N) (k : Text) (v w : Value N)
      → lookup_field fs k ≡ some v
      → insert_field (insert_field fs k w) k v ≡ fs
  insert_field-insert_field end k v w h = cc
  insert_field-insert_field (field j u fs) k v w h = elim (Bool-cases (text_eq j k)) [
    | inl here ↦ rw (here, here) (ap (λ x. field j x fs) (sym (some_eq (rw here at h))))
    | inr other ↦
        rw (other, other)
          (ap (λ x. field j u x) (insert_field-insert_field fs k v w (rw other at h)))
  ]

  string_of : (o : Option (Value N)) (n : Text) → (o >>= as_str) ≡ some n → o ≡ some (string n)
  string_of none n h = cc
  string_of (some (string s)) n h = cc
  string_of (some null) n h = cc
  string_of (some (boolean b)) n h = cc
  string_of (some (number x)) n h = cc
  string_of (some (array vs)) n h = cc
  string_of (some (object fs)) n h = cc

  name_of-rename :
      (item : Value N) (n m : Text) → name_of item ≡ some n → name_of (rename item m) ≡ some m
  name_of-rename (object fs) n m h =
      ap (λ (o : Option (Value N)). o >>= as_str)
        (lookup_field-insert_field fs (codes "name") (string m))
  name_of-rename null n m h = cc
  name_of-rename (boolean b) n m h = cc
  name_of-rename (number x) n m h = cc
  name_of-rename (string s) n m h = cc
  name_of-rename (array vs) n m h = cc

  rename-rename :
      (item : Value N) (n m : Text) → name_of item ≡ some n → rename (rename item m) n ≡ item
  rename-rename (object fs) n m h = ap object (
      insert_field-insert_field fs (codes "name") (string n) (string m)
        (string_of (lookup_field fs (codes "name")) n h))
  rename-rename null n m h = cc
  rename-rename (boolean b) n m h = cc
  rename-rename (number x) n m h = cc
  rename-rename (string s) n m h = cc
  rename-rename (array vs) n m h = cc

  with_prefix-rename :
      (prefix : Text) (item : Value N) (local : Text)
      → scoped_name prefix item ≡ some local
      → with_prefix prefix (rename item local) ≡ item
  with_prefix-rename prefix item local h =
      let (n, named, stripped) = bind_some (name_of item) (λ n. strip_prefix n prefix) h in
      ap (prefixed prefix (rename item local)) (name_of-rename item n local named)
      ∙ ap (rename (rename item local)) (sym (strip_prefix-some n prefix local stripped))
      ∙ rename-rename item n local named

  prefix-strip_all :
      (prefix : Text) (listed : List (Value N))
      → map (with_prefix prefix) (strip_all prefix listed)
        ≡ filter (λ item. found (scoped_name prefix item)) listed
  unfolding strip_all
  prefix-strip_all prefix [] = refl
  prefix-strip_all prefix (v ∷ vs) = kept (scoped_name prefix v) refl (prefix-strip_all prefix vs)
    where
      kept :
          (o : Option Text)
          → scoped_name prefix v ≡ o
          → map (with_prefix prefix) (strip_all prefix vs)
            ≡ filter (λ item. found (scoped_name prefix item)) vs
          → map (with_prefix prefix) (elim o [
            | none ↦ strip_all prefix vs
            | some local ↦ rename v local ∷ strip_all prefix vs
          ])
            ≡ (if found o
                then v ∷ filter (λ item. found (scoped_name prefix item)) vs
                else filter (λ item. found (scoped_name prefix item)) vs)
      kept none e rest = rest
      kept (some local) e rest = rw (with_prefix-rename prefix v local e, rest) refl

  -- The slice of an upstream is the items whose name starts with the upstream and a dot, in the
  -- server's order and with nothing else changed: under their full names they are those items. The
  -- engine's own slice has exactly the items without a dot in their name, and none of the upstream's.
  pub scoped_items-partition :
      (c : ℕ) (u : Text) (listed : List (Value N)) (item : Value N)
      → (map (with_prefix ((c ∷ u) ++ codes ".")) (scoped_items (c ∷ u) listed)
          ≡ filter (λ item. found (scoped_name ((c ∷ u) ++ codes ".") item)) listed)
        × (In item (scoped_items [] listed) ↔ (In item listed × IsLocal (name_of item)))
        × (filter (λ item. found (scoped_name ((c ∷ u) ++ codes ".") item)) (scoped_items [] listed)
            ≡ [])
  unfolding scoped_items
  scoped_items-partition c u listed item =
      let own = λ (v : Value N). local_name (name_of v) in
      (
        prefix-strip_all ((c ∷ u) ++ codes ".") listed,
        (
          λ m.
              let (m', h) = In-filter own item listed m in
              (m', (local_name_iff (name_of item)).0 h),
          λ h. filter-In own item listed h.0 ((local_name_iff (name_of item)).1 h.1),
        ),
        filter_apart own (λ item. found (scoped_name ((c ∷ u) ++ codes ".") item)) listed
            (λ v h. not_both (c ∷ u) (name_of v) h),
      )
