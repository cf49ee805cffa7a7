-- ===== src/Tables/ToolCalls.antt =====
-- pg/pg_mcp/src/tables/tool_calls.rs: the log of completed calls, and its scan.
pub mod History
pub mod Audit
pub mod Audited
pub mod Insert
pub mod Logged
mod Tests
use elixir_mcp_lib.Base.{
  ℕ, zero, suc, ◌+◌, ◌-◌, ◌/◌, ◌%◌, ◌^◌, Bool, true, false, ◌&&◌, ◌||◌, Option, none, some, List,
  [], ◌∷◌, ◌++◌, map, if◌then◌else◌, ltb, ◌==◌, Text, codes, text_eq, ℤ, length, take, drop, ◌>>=◌,
  pos,
}
use elixir_mcp_lib.Base.Assoc
use elixir_mcp_lib.Json.{Value, string, array, items}
use elixir_mcp_lib.Cache.{CacheKey, oids_key}
use elixir_mcp_lib.Quals.{Qual, Equality, Operator, equal, any_equal, contains_value}
use elixir_mcp_lib.Tables.{
  TableSpec, Cell, text, json, bool, int4, uuid, timestamp_tz, Row, ScanContext, put,
}
use elixir_mcp_lib.Tables.Catalog.Filters.{filter}

abbrev pub log_cap : ℕ
log_cap = 1000

pub record CallRecord (N : Type 0) : Type 0 where
  pub id : List ℕ
  pub tool : Text
  pub arguments : Value N
  pub content : Option (Value N)
  pub structured : Option (Value N)
  pub is_error : Bool
  pub error : Option (Value N)
  pub called_at : ℤ
  pub duration_ms : ℤ

-- The newest call stands at the end.
abbrev pub CallLogs : Type 0 → Type 0
CallLogs N = List (CacheKey × List (CallRecord N))

module _ {A : Type 0} where
  -- `while log.len() > cap { log.pop_front(); }`
  unfoldable pub trim : ℕ → List A → List A
  trim cap [] = []
  trim cap (x ∷ xs) = let rest = trim cap xs in if ltb cap (length (x ∷ xs)) then rest else x ∷ xs

  abbrev pub reverse : List A → List A
  reverse [] = []
  reverse (x ∷ xs) = reverse xs ++ x ∷ []

  abbrev pub or_empty : Option (List A) → List A
  or_empty none = []
  or_empty (some xs) = xs

module _ {N : Type 0} where
  unfoldable pub log_call : CacheKey → CallRecord N → CallLogs N → CallLogs N
  unfolding trim
  log_call key rec logs =
      Assoc.insert logs key (trim log_cap (or_empty (Assoc.find logs key) ++ rec ∷ []))

  unfoldable pub snapshot : CacheKey → CallLogs N → List (CallRecord N)
  snapshot key logs = reverse (or_empty (Assoc.find logs key))

-- `{b:02x}`
abbrev pub hex_digit : ℕ → ℕ
hex_digit n = if ltb n 10 then b'0' + n else b'a' + (n - 10)

abbrev pub hex : List ℕ → Text
hex [] = []
hex (b ∷ bs) = hex_digit (b / 16 % 16) ∷ hex_digit (b % 16) ∷ hex bs

-- `&hex[from..to]` of digits, which are one byte each
abbrev slice : ℕ → ℕ → Text → Text
slice from to s = take (to - from) (drop from s)

unfoldable pub uuid_hex : List ℕ → Text
uuid_hex bytes =
    let digits = hex bytes in
    slice 0 8 digits
    ++ (b'-' ∷ slice 8 12 digits
        ++ (b'-' ∷ slice 12 16 digits
            ++ (b'-' ∷ slice 16 20 digits ++ (b'-' ∷ slice 20 32 digits))))

-- the version and variant bits of an id
unfoldable pub mark_version : List ℕ → List ℕ
mark_version bytes = mark 0 bytes
  where
    mark : ℕ → List ℕ → List ℕ
    mark i [] = []
    mark i (b ∷ bs) =
        (if i == 6 then b % 16 + 0x40 else if i == 8 then b % 64 + 0x80 else b) ∷ mark (suc i) bs

-- the 16 random bytes, or the clock's where there are none
unfoldable pub uuid_v4 : Option (List ℕ) → List ℕ → List ℕ
unfolding mark_version
uuid_v4 none now = mark_version now
uuid_v4 (some random) now = mark_version random

-- the id, arguments and times of a call, with what the server has answered
module _ {N F : Type 0} where
  unfoldable pub row_from_record : CallRecord N → Row N F
  row_from_record rec =
      some (uuid rec.id)
      ∷ some (text rec.tool)
      ∷ some (json rec.arguments)
      ∷ (rec.content >>= (λ v. some (json v)))
      ∷ (rec.structured >>= (λ v. some (json v)))
      ∷ some (bool rec.is_error)
      ∷ (rec.error >>= (λ v. some (json v)))
      ∷ some (timestamp_tz rec.called_at)
      ∷ some (int4 rec.duration_ms)
      ∷ []

module _ {N : Type 0} (eq : Equality N) where
  unfoldable pub qual_matches : Operator → Value N → Value N → Bool
  qual_matches equal v candidate = eq.same_value v candidate
  qual_matches any_equal (array vs) candidate = contains_value eq (items vs) candidate
  qual_matches any_equal _ candidate = false

  -- the closure of `all`: the restriction of one column
  unfoldable pub entry_matches : CallRecord N → Qual N → Bool
  unfolding qual_matches uuid_hex
  entry_matches rec q =
      if text_eq q.field (codes "tool")
      then qual_matches q.operator q.value (string rec.tool)
      else if text_eq q.field (codes "id")
      then qual_matches q.operator q.value (string (uuid_hex rec.id))
      else true

  unfoldable pub log_entry_matches : List (Qual N) → CallRecord N → Bool
  unfolding entry_matches
  log_entry_matches [] rec = true
  log_entry_matches (q ∷ qs) rec = entry_matches rec q && log_entry_matches qs rec

module _ {N F : Type 0} (eq : Equality N) where
  -- `begin_scan`: the rows that the cursor gives, one after the other
  unfoldable pub log_scan : ScanContext N → CallLogs N → List (Row N F)
  unfolding snapshot log_entry_matches row_from_record
  log_scan ctx logs =
      map row_from_record
        (filter (log_entry_matches eq ctx.quals) (snapshot ctx.base.resolved.key logs))
