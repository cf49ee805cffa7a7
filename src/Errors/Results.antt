-- ===== src/Errors/Results.antt =====
-- `?` on a `McpResult`, and what holds of the value that a function returns.
use elixir_mcp_lib.Base.{◌≡◌, refl, Bool, true, false, Option, none, some, if◌then◌else◌}
use mathlib.Core.Path.{subst}
use elixir_mcp_lib.Errors.{McpError, McpResult, ok, err}

infixl 5 ◌>>=◌ ◌>>◌
abbrev pub ◌>>=◌ {ℓ κ} : {A : Type ℓ} {B : Type κ} → McpResult A → (A → McpResult B) → McpResult B
ok a >>= f = f a
err e >>= f = err e

abbrev pub ◌>>◌ {ℓ} : {B : Type ℓ} → McpResult (Unit {0}) → McpResult B → McpResult B
m >> k = m >>= λ _. k

-- `if refused { return Err(e); }`
abbrev pub refuse_if : Bool → McpError → McpResult (Unit {0})
refuse_if true e = err e
refuse_if false e = ok tt

-- `ok_or_else`
abbrev pub ok_or {ℓ} : {A : Type ℓ} → Option A → McpError → McpResult A
ok_or none e = err e
ok_or (some a) e = ok a

-- A result that is no error satisfies `P`.
pub data Ensures {ℓ κ} {A : Type ℓ} (P : A → Type κ) : McpResult A → Type (ℓ ⊔ κ) where
  returns : (a : A) → P a → Ensures P (ok a)
  fails : (e : McpError) → Ensures P (err e)

pub Ensures-bind {ℓ κ ι μ} :
    {A : Type ℓ} {B : Type κ} (P : A → Type ι) (Q : B → Type μ) {r : McpResult A}
    (f : A → McpResult B)
    → Ensures P r
    → ((a : A) → P a → Ensures Q (f a))
    → Ensures Q (r >>= f)
Ensures-bind P Q f (returns a p) next = next a p
Ensures-bind P Q f (fails e) next = fails e

pub Ensures-refuse_if :
    (b : Bool) (e : McpError) → Ensures (λ (_ : Unit {0}). b ≡ false) (refuse_if b e)
Ensures-refuse_if true e = fails e
Ensures-refuse_if false e = returns tt refl

pub Ensures-ok_or {ℓ} :
    {A : Type ℓ} (o : Option A) (e : McpError) → Ensures (λ a. o ≡ some a) (ok_or o e)
Ensures-ok_or none e = fails e
Ensures-ok_or (some a) e = returns a refl

pub Ensures-returned {ℓ κ} :
    {A : Type ℓ} (P : A → Type κ) {r : McpResult A} (a : A) → Ensures P r → r ≡ ok a → P a
Ensures-returned P a (returns b p) h = subst P (cc) p
Ensures-returned P a (fails e) h = cc

pub Ensures-imp {ℓ κ ι} :
    {A : Type ℓ} (P : A → Type κ) (Q : A → Type ι) {r : McpResult A}
    → ((a : A) → P a → Q a)
    → Ensures P r
    → Ensures Q r
Ensures-imp P Q f (returns a p) = returns a (f a p)
Ensures-imp P Q f (fails e) = fails e

pub Ensures-if {ℓ κ} :
    {A : Type ℓ} (P : A → Type κ) (b : Bool) (x y : McpResult A)
    → (b ≡ true → Ensures P x)
    → (b ≡ false → Ensures P y)
    → Ensures P (if b then x else y)
Ensures-if P true x y hx hy = hx refl
Ensures-if P false x y hx hy = hy refl

pub Ensures-any {ℓ} : {A : Type ℓ} (r : McpResult A) → Ensures (λ (a : A). r ≡ ok a) r
Ensures-any (ok a) = returns a refl
Ensures-any (err e) = fails e
