-- ===== src/Tables/ToolCalls/Audited.antt =====
-- The check of the audit table, and that nothing is written to one of another shape.
use elixir_mcp_lib.Base.{
  ◌≡◌, refl, arith, Option, none, some, List, [], ◌∷◌, Text, text_eq_iff, ◌↔◌, All, inl, inr,
  split_once, ◌⊎◌,
}
use elixir_mcp_lib.Json.{Value}
use elixir_mcp_lib.Errors.{McpError, McpResult, ok, err}
use elixir_mcp_lib.Errors.Results.{
  ◌>>◌, Ensures, returns, fails, Ensures-bind, Ensures-any, Ensures-imp,
}
use elixir_mcp_lib.Tables.{find_option}
use elixir_mcp_lib.Tables.ToolCalls.{CallRecord}
use elixir_mcp_lib.Tables.ToolCalls.Audit.{
  Spi, check_column, check_columns, validate_audit_shape, append_to, audit_parts, audit_append,
  listing_query, listing_of, exists_or, expected, Answer, answered, failed, from_spi, lookup_failed,
  qualified, regclass_query,
}

-- Each expected column stands in the listing with its type.
abbrev pub HasShape : List (Text × Text) → List (Text × Text) → Type 0
HasShape found wanted = All (λ (c : Text × Text). find_option found c.0 ≡ some c.1) wanted

check_column_iff :
    (schema table column want : Text) (have : Option Text)
    → (check_column schema table column want have ≡ ok tt) ↔ (have ≡ some want)
check_column_iff schema table column want none =
    (λ h. absurd (err-not-ok h), λ h. absurd (none-not-some h))
  where
    err-not-ok : {e : McpError} → ◌≡◌ {A = McpResult (Unit {0})} (err e) (ok tt) → ⊥
    err-not-ok h = cc

    none-not-some : ◌≡◌ {A = Option Text} none (some want) → ⊥
    none-not-some h = cc
check_column_iff schema table column want (some have) = ground (arith, text_eq_iff have want)

then_ok : (m k : McpResult (Unit {0})) → ((m >> k) ≡ ok tt) ↔ ((m ≡ ok tt) × (k ≡ ok tt))
then_ok (ok tt) k = (λ h. (refl, h), λ h. h.1)
then_ok (err e) k = (λ h. absurd (err-not-ok h), λ h. absurd (err-not-ok h.0))
  where
    err-not-ok : ◌≡◌ {A = McpResult (Unit {0})} (err e) (ok tt) → ⊥
    err-not-ok h = cc

-- The check of the columns passes exactly when each expected column is listed with its type.
pub check_columns_iff :
    (schema table : Text) (listed wanted : List (Text × Text))
    → (check_columns schema table listed wanted ≡ ok tt) ↔ HasShape listed wanted
unfolding check_columns
check_columns_iff schema table listed [] = (λ h. tt, λ h. refl)
check_columns_iff schema table listed ((column, want) ∷ rest) =
    let here = check_column_iff schema table column want (find_option listed column) in
    let both =
      then_ok (check_column schema table column want (find_option listed column))
        (check_columns schema table listed rest) in
    let below = check_columns_iff schema table listed rest in
    (λ h. (here.0 (both.0 h).0, below.0 (both.0 h).1), λ h. both.1 (here.1 h.0, below.1 h.1))

module _ {D : Type 0} (spi : Spi D) where
  -- The database lists the columns of the table, and they have the shape.
  abbrev pub IsAuditTable : Text → Text → D → Type 0
  IsAuditTable schema table db =
      (listing : Option Text) × (listed : List (Text × Text)) × (spi.get_one
          (listing_query spi schema table) db
        ≡ answered listing)
      × (listing_of spi listing ≡ ok listed)
      × HasShape listed expected

  Ensures-from_spi {ℓ} :
      {A : Type ℓ} (what : Text) (a : Answer A) → Ensures (λ x. a ≡ answered x) (from_spi what a)
  Ensures-from_spi what (answered x) = returns x refl
  Ensures-from_spi what (failed e) = fails _

  Ensures-validate :
      (schema table : Text) (db : D)
      → Ensures
          (λ (_ : Unit {0}). IsAuditTable schema table db)
          (validate_audit_shape spi schema table db)
  unfolding validate_audit_shape
  Ensures-validate schema table db =
      let Q = λ (_ : Unit {0}). IsAuditTable schema table db in
      Ensures-bind _ Q _
        (Ensures-from_spi lookup_failed
          (spi.get_one (regclass_query spi (qualified schema table)) db))
        λ oid _.
          Ensures-bind _ Q _ (Ensures-any (exists_or spi (qualified schema table) oid)) λ _ _.
            Ensures-bind _ Q _
              (Ensures-from_spi lookup_failed (spi.get_one (listing_query spi schema table) db))
              λ listing asked.
                Ensures-bind _ Q _ (Ensures-any (listing_of spi listing)) λ listed read.
                  Ensures-imp _ Q
                    (λ u checked. (
                      listing,
                      listed,
                      asked,
                      read,
                      (check_columns_iff schema table listed expected).0 checked,
                    ))
                    (Ensures-any (check_columns schema table listed expected))

module _ {N D : Type 0} (print : Value N → Text) (spi : Spi D) where
  append_to_safe :
      (server_name target schema table : Text) (rec : CallRecord N) (checked : McpResult (Unit {0}))
      (db : D)
      → Ensures (λ (_ : Unit {0}). IsAuditTable spi schema table db) checked
      → IsAuditTable spi schema table db
        ⊎ ((append_to print spi server_name target schema table rec checked db).1 ≡ db)
  unfolding append_to
  append_to_safe server_name target schema table rec (ok u) db (returns v shape) = inl shape
  append_to_safe server_name target schema table rec (err e) db h = inr refl

  audit_parts_safe :
      (server_name target : Text) (rec : CallRecord N) (parts : Option (Text × Text)) (db : D)
      → ((schema : Text) × (table : Text) × (parts ≡ some (schema, table))
          × IsAuditTable spi schema table db)
        ⊎ ((audit_parts print spi server_name target rec parts db).1 ≡ db)
  audit_parts_safe server_name target rec none db = inr refl
  audit_parts_safe server_name target rec (some (schema, table)) db =
      elim (append_to_safe server_name target schema table rec
        (validate_audit_shape spi schema table db) db (Ensures-validate spi schema table db)) [
          | inl shape ↦ inl (schema, table, refl, shape)
          | inr same ↦ inr same
        ]

  -- A call is written to the table that the option names only where the database lists all the
  -- expected columns of it with their types; else the database stays as it is.
  pub audit_append_safe :
      (target server_name : Text) (rec : CallRecord N) (db : D)
      → ((schema : Text) × (table : Text) × (split_once target b'.' ≡ some (schema, table))
          × IsAuditTable spi schema table db)
        ⊎ ((audit_append print spi (some target) server_name rec db).1 ≡ db)
  unfolding audit_append
  audit_append_safe target server_name rec db =
      audit_parts_safe server_name target rec (split_once target b'.') db
