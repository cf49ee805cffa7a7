-- ===== src/Tables/ToolCalls/Logged.antt =====
-- What an insert leaves behind: the log, and the audit table.
use mathlib.Core.Path.{subst}
use elixir_mcp_lib.Base.{
  ℕ, zero, suc, ◌≡◌, refl, ap, sym, ◌∙◌, true, false, Option, none, some, List, [], ◌∷◌, map, take,
  Text, codes,
}
use elixir_mcp_lib.Json.{Value}
use elixir_mcp_lib.Quals.{Equality}
use elixir_mcp_lib.Tables.Catalog.Filters.{filter}
use elixir_mcp_lib.Errors.{McpError, McpResult, ok, err}
use elixir_mcp_lib.Cache.{oids_eq, oids_eq_iff, CacheKey}
use elixir_mcp_lib.Client.Wire.{Env}
use elixir_mcp_lib.Sessions.{Sessions}
use elixir_mcp_lib.Tables.{value, Cell, Row, InsertRow, TableContext, ScanContext}
use elixir_mcp_lib.Codegen.Table.{ColumnType}
use elixir_mcp_lib.Tables.Specs.{tool_calls_spec}
use elixir_mcp_lib.Tables.Catalog.Conform.{Conforms, Fits-some}
use elixir_mcp_lib.Tables.ToolCalls.{
  CallRecord, CallLogs, log_cap, log_call, snapshot, row_from_record, log_entry_matches, log_scan,
}
use elixir_mcp_lib.Tables.ToolCalls.History.{snapshot-log_call}
use elixir_mcp_lib.Tables.ToolCalls.Audit.{Spi, audit_append}
use elixir_mcp_lib.Tables.ToolCalls.Insert.{
  Reading, Backend, completed, audited, after_call, insert_tool, insert, tool_of, arguments_of,
}

map-take {ℓ κ} :
    {A : Type ℓ} {B : Type κ} (n : ℕ) (f : A → B) (xs : List A)
    → map f (take n xs) ≡ take n (map f xs)
map-take zero f xs = refl
map-take (suc n) f [] = refl
map-take (suc n) f (x ∷ xs) = ap (λ l. f x ∷ l) (map-take n f xs)

module _ {N : Type 0} where
  snapshot-own_log :
      (key : CacheKey) (rec : CallRecord N) (logs : CallLogs N)
      → snapshot key (log_call key rec logs) ≡ take log_cap (rec ∷ snapshot key logs)
  snapshot-own_log key rec logs =
      snapshot-log_call key key rec logs ∙ rw ((oids_eq_iff key key).1 refl) refl

module _ {N : Type 0} where
  -- a scan of the table without restrictions
  abbrev pub unrestricted : TableContext → ScanContext N
  unrestricted ctx = record { base = ctx; quals = [] }

module _ {N F : Type 0} where
  abbrev rows_of : CacheKey → CallLogs N → List (Row N F)
  rows_of key logs = map row_from_record (snapshot key logs)

  -- A scan without restrictions gives a row for each logged call.
  log_scan-unrestricted :
      (eq : Equality N) (ctx : TableContext) (logs : CallLogs N)
      → log_scan eq (unrestricted ctx) logs ≡ rows_of ctx.resolved.key logs
  unfolding log_scan log_entry_matches
  log_scan-unrestricted eq ctx logs =
      ap (map row_from_record) (all_pass (snapshot ctx.resolved.key logs))
    where
      all_pass : (recs : List (CallRecord N)) → filter (λ r. true) recs ≡ recs
      all_pass [] = refl
      all_pass (r ∷ recs) = ap (λ rs. r ∷ rs) (all_pass recs)

module _ (N F : Type 0) where
  row_from_record-Conforms :
      (rec : CallRecord N) → Conforms tool_calls_spec.columns (row_from_record {F = F} rec)
  unfolding row_from_record tool_calls_spec
  row_from_record-Conforms rec = (
    refl,
    (
      refl,
      (
        refl,
        (
          Fits-some N F ColumnType.jsonb Cell.json rec.content (λ v. refl),
          (
            Fits-some N F ColumnType.jsonb Cell.json rec.structured (λ v. refl),
            (
              refl,
              (Fits-some N F ColumnType.jsonb Cell.json rec.error (λ v. refl), (refl, (refl, tt))),
            ),
          ),
        ),
      ),
    ),
  )

module _ {N F W D : Type 0} (env : Env N W) (spi : Spi D) (print : Value N → Text)
    (debug : Cell N F → Text) where
  none_is_not_some : {t : Text} → ◌≡◌ {A = Option Text} none (some t) → ⊥
  none_is_not_some h = cc

  no_row : {e : McpError} {r : Row N F} → ◌≡◌ {A = McpResult (Row N F)} (err e) (ok r) → ⊥
  no_row h = cc

  row_eq : {r s : Row N F} → ◌≡◌ {A = McpResult (Row N F)} (ok r) (ok s) → r ≡ s
  row_eq h = cc

  audited-returned :
      (rec : CallRecord N) (outcome : McpResult (Unit {0})) (row : Row N F)
      → audited env spi print debug rec outcome ≡ ok row
      → row_from_record rec ≡ row
  unfolding audited
  audited-returned rec (ok u) row h = row_eq h
  audited-returned rec (err e) row h = cc

  -- the row that is returned is the one that is logged
  abbrev IsLogged :
      TableContext → Backend N W D → McpResult (Row N F) × Backend N W D → Row N F → Type 0
  IsLogged ctx b after row =
      (rec : CallRecord N) × (row_from_record rec ≡ row)
      × (after.1.logs ≡ log_call ctx.resolved.key rec b.logs)

  after_call-IsLogged :
      (reading : Reading) (ctx : TableContext) (tool : Text) (arguments : Value N)
      (answer : McpResult (Value N) × Sessions N × W) (b : Backend N W D) (row : Row N F)
      → (after_call env spi print debug reading ctx tool arguments answer b).0 ≡ ok row
      → IsLogged ctx b (after_call env spi print debug reading ctx tool arguments answer b) row
  unfolding after_call
  after_call-IsLogged reading ctx tool arguments (err e, sessions, w) b row h = absurd (no_row h)
  after_call-IsLogged reading ctx tool arguments (ok result, sessions, w) b row h =
      let rec = completed reading tool arguments result in
      (
        rec,
        audited-returned rec
            (audit_append print spi ctx.resolved.options.audit_table ctx.server_name rec
              b.database).0
            row h,
        refl,
      )

  insert_tool-IsLogged :
      (reading : Reading) (ctx : TableContext) (tool : McpResult Text) (arguments : Value N)
      (b : Backend N W D) (row : Row N F)
      → (insert_tool env spi print debug reading ctx tool arguments b).0 ≡ ok row
      → IsLogged ctx b (insert_tool env spi print debug reading ctx tool arguments b) row
  unfolding insert_tool
  insert_tool-IsLogged reading ctx (err e) arguments b row h = absurd (no_row h)
  insert_tool-IsLogged reading ctx (ok tool) arguments b row h =
      after_call-IsLogged reading ctx tool arguments _ b row h

  first_logged :
      (ctx : TableContext) (b : Backend N W D) (after : McpResult (Row N F) × Backend N W D)
      (row : Row N F)
      → IsLogged ctx b after row
      → rows_of ctx.resolved.key after.1.logs ≡ take log_cap (row ∷ rows_of ctx.resolved.key b.logs)
  first_logged ctx b after row (rec, same, logged) =
      ap (λ logs. rows_of {F = F} ctx.resolved.key logs) logged
      ∙ ap (map row_from_record) (snapshot-own_log ctx.resolved.key rec b.logs)
      ∙ map-take log_cap row_from_record (rec ∷ snapshot ctx.resolved.key b.logs)
      ∙ ap (λ r. take log_cap (r ∷ rows_of ctx.resolved.key b.logs)) same

  others_kept :
      (ctx : TableContext) (b : Backend N W D) (after : McpResult (Row N F) × Backend N W D)
      (row : Row N F) (other : CacheKey)
      → IsLogged ctx b after row
      → oids_eq ctx.resolved.key other ≡ false
      → rows_of {F = F} other after.1.logs ≡ rows_of {F = F} other b.logs
  others_kept ctx b after row other (rec, same, logged) apart =
      ap (λ logs. rows_of {F = F} other logs) logged
      ∙ ap (map row_from_record)
          (snapshot-log_call ctx.resolved.key other rec b.logs ∙ rw apart refl)

  -- The row that an insert returns is a row of the table, and it is the first that a scan without
  -- restrictions gives from then on, in front of the rows that such a scan gave before, up to 1000; a
  -- scan without restrictions for another server or role gives what it gave.
  pub insert-scanned :
      (eq : Equality N) (reading : Reading) (ctx : TableContext) (input : InsertRow N F)
      (b : Backend N W D) (row : Row N F) (other : TableContext)
      → oids_eq ctx.resolved.key other.resolved.key ≡ false
      → (insert env spi print debug reading ctx input b).0 ≡ ok row
      → Conforms tool_calls_spec.columns row
        × (log_scan eq (unrestricted ctx) (insert env spi print debug reading ctx input b).1.logs
            ≡ take log_cap (row ∷ log_scan eq (unrestricted ctx) b.logs))
        × (log_scan {F = F} eq
              (unrestricted other)
              (insert env spi print debug reading ctx input b).1.logs
            ≡ log_scan eq (unrestricted other) b.logs)
  unfolding insert
  insert-scanned eq reading ctx input b row other apart h =
      let tool = tool_of debug (value input (codes "tool")) in
      let arguments = arguments_of (value input (codes "arguments")) in
      let after = insert_tool env spi print debug reading ctx tool arguments b in
      let logged = insert_tool-IsLogged reading ctx tool arguments b row h in
      (
        subst (Conforms tool_calls_spec.columns) logged.1 (row_from_record-Conforms N F logged.0),
        log_scan-unrestricted eq ctx after.1.logs
            ∙ first_logged ctx b after row logged
            ∙ ap (λ rows. take log_cap (row ∷ rows)) (sym (log_scan-unrestricted eq ctx b.logs)),
        log_scan-unrestricted eq other after.1.logs
            ∙ others_kept ctx b after row other.resolved.key logged apart
            ∙ sym (log_scan-unrestricted eq other b.logs),
      )

  audited_unset :
      (reading : Reading) (tool : Text) (arguments result : Value N) (ctx : TableContext)
      (b : Backend N W D) (target : Option Text) (e : McpError)
      → target ≡ none
      → audited env spi print debug
          (completed reading tool arguments result)
          (audit_append print spi target ctx.server_name
            (completed reading tool arguments result)
            b.database).0
        ≡ err e
      → ⊥
  unfolding audited audit_append
  audited_unset reading tool arguments result ctx b none e unset h = no_row (sym h)
  audited_unset reading tool arguments result ctx b (some t) e unset h =
      absurd (none_is_not_some (sym unset))

  after_call_failed :
      (reading : Reading) (ctx : TableContext) (tool : Text) (arguments : Value N)
      (answer : McpResult (Value N) × Sessions N × W) (b : Backend N W D) (e : McpError)
      → ctx.resolved.options.audit_table ≡ none
      → (after_call env spi print debug reading ctx tool arguments answer b).0 ≡ err e
      → ((after_call env spi print debug reading ctx tool arguments answer b).1.logs ≡ b.logs)
        × ((after_call env spi print debug reading ctx tool arguments answer b).1.database
            ≡ b.database)
  unfolding after_call
  after_call_failed reading ctx tool arguments (err e', sessions, w) b e unset h = (refl, refl)
  after_call_failed reading ctx tool arguments (ok result, sessions, w) b e unset h =
      absurd (
        audited_unset reading tool arguments result ctx b ctx.resolved.options.audit_table e unset
          h)

  insert_tool_failed :
      (reading : Reading) (ctx : TableContext) (tool : McpResult Text) (arguments : Value N)
      (b : Backend N W D) (e : McpError)
      → ctx.resolved.options.audit_table ≡ none
      → (insert_tool env spi print debug reading ctx tool arguments b).0 ≡ err e
      → ((insert_tool env spi print debug reading ctx tool arguments b).1.logs ≡ b.logs)
        × ((insert_tool env spi print debug reading ctx tool arguments b).1.database ≡ b.database)
  unfolding insert_tool
  insert_tool_failed reading ctx (err e') arguments b e unset h = (refl, refl)
  insert_tool_failed reading ctx (ok tool) arguments b e unset h =
      after_call_failed reading ctx tool arguments _ b e unset h

  -- Where no audit table is set, an insert that fails, for a row without a tool or in the request,
  -- leaves the log of every server and role, and the database, as they were.
  pub insert_failed :
      (reading : Reading) (ctx : TableContext) (input : InsertRow N F) (b : Backend N W D)
      (e : McpError)
      → ctx.resolved.options.audit_table ≡ none
      → (insert env spi print debug reading ctx input b).0 ≡ err e
      → ((insert env spi print debug reading ctx input b).1.logs ≡ b.logs)
        × ((insert env spi print debug reading ctx input b).1.database ≡ b.database)
  unfolding insert
  insert_failed reading ctx input b e unset h =
      insert_tool_failed reading ctx (tool_of debug (value input (codes "tool")))
        (arguments_of (value input (codes "arguments"))) b e unset h
