-- ===== src/Sse.antt =====
-- pg/pg_mcp/src/sse.rs: the reader of an event stream, up to the reply to one request.
pub mod Frames
pub mod Replies
mod Tests
use Prim.Native.Nat.{compare}
use elixir_mcp_lib.Base.{
  ℕ, Bool, true, false, ◌||◌, Option, none, some, List, [], ◌∷◌, ◌++◌, if◌then◌else◌, ◌==◌, Text,
  codes, text_eq, starts_with, split_once, join, to_string, ℤ, int_eq, ◌>>=◌,
}
use elixir_mcp_lib.Json.{Value, number, string, get}
use elixir_mcp_lib.Errors.{McpError, transport, McpResult, ok, err}

-- The stream as the loop meets it. Each round first looks at the clock (`Bool`: is the budget used
-- up?), then reads. A line comes with what the interrupt check says if the line is blank; an empty
-- text is `read == 0`, the end of the stream.
pub data Stream : Type 0 where
  closed : Bool → Stream
  failing : Bool → Text → Stream
  line : Bool → Option McpError → Text → Stream → Stream

pub record Event : Type 0 where
  pub event : Option Text
  pub id : Option Text
  pub data_text : Text

abbrev pub default_event : Event
default_event = record { event = none; id = none; data_text = [] }

abbrev is_newline : ℕ → Bool
is_newline c = c == b'\r' || c == b'\n'

-- `trim_end_matches(['\r', '\n'])`
unfoldable pub trim_end : Text → Text
trim_end [] = []
trim_end (c ∷ s) =
    let rest = trim_end s in
    if is_newline c then elim rest [ [] ↦ [] | d ∷ t ↦ c ∷ d ∷ t ] else c ∷ rest

-- `v.strip_prefix(' ').unwrap_or(v)`
pub strip_space : Text → Text
strip_space [] = []
strip_space (c ∷ s) = if c == b' ' then s else c ∷ s

unfoldable pub field_and_value : Text → Text × Text
unfolding strip_space
field_and_value trimmed = elim (split_once trimmed b':') [
  | none ↦ (trimmed, [])
  | some (f, v) ↦ (f, strip_space v)
]

module _ (timeout_ms : ℕ) where
  pub timed_out : McpError
  timed_out = transport (
      codes "MCP request timed out after "
      ++ to_string timeout_ms
      ++ codes "ms while reading the event stream")

pub ended : McpError
ended = transport (codes "MCP event stream ended before the response arrived")

pub read_failed : Text → McpError
read_failed kind = transport (codes "event stream read failed: " ++ kind)

-- what one line that is not blank does to `data_lines` and `pending`
unfoldable pub take_line : Text → List Text → Event → List Text × Event
unfolding field_and_value
take_line trimmed data_lines pending =
    if starts_with trimmed (codes ":")
    then (data_lines, pending)
    else (let (name, value) = field_and_value trimmed in
        if text_eq name (codes "data")
        then (data_lines ++ value ∷ [], pending)
        else if text_eq name (codes "id")
        then (data_lines, record pending { id = some value })
        else if text_eq name (codes "event")
        then (data_lines, record pending { event = some value })
        else (data_lines, pending))

-- What the source uses of serde_json and of `str::parse::<i64>`.
pub record Decoder (N : Type 0) : Type 0 where
  pub from_str : Text → Option (Value N)
  pub as_i64 : N → Option ℤ
  pub parse_i64 : Text → Option ℤ

module _ {N : Type 0} (d : Decoder N) where
  unfoldable pub json_id : Value N → Option ℤ
  json_id (number n) = d.as_i64 n
  json_id (string s) = d.parse_i64 s
  json_id _ = none

  -- `parsed.get("id").and_then(json_id)`, compared to the wanted id
  unfoldable pub answers : ℤ → Value N → Bool
  unfolding json_id
  answers want_id parsed = elim (get parsed (codes "id") >>= json_id) [
    | none ↦ false
    | some id ↦ int_eq id want_id
  ]

  -- `serde_json::from_str` of the data lines; nothing where there are none, or no JSON
  unfoldable pub payload : List Text → Option (Value N)
  payload [] = none
  payload (l ∷ ls) = d.from_str (join (l ∷ ls) (codes "\n"))

  -- The observer's state is passed through: it sees every dispatched frame before the match.
  module _ {S : Type 0} (observe : Value N → S → S) (want_id : ℤ) (timeout_ms : ℕ) where
    unfoldable pub read_loop : Stream → Event → List Text → S → McpResult (Value N) × S
    unfolding timed_out ended read_failed trim_end take_line answers payload
    read_loop (closed expired) pending data_lines s =
        if expired then (err (timed_out timeout_ms), s) else (err ended, s)
    read_loop (failing expired kind) pending data_lines s =
        if expired then (err (timed_out timeout_ms), s) else (err (read_failed kind), s)
    read_loop (line expired interrupt text rest) pending data_lines s =
        let trimmed = trim_end text in
        let blank : McpResult (Value N) × S = elim interrupt [
          | some e ↦ (err e, s)
          | none ↦ elim (payload data_lines) [
            | none ↦ read_loop rest default_event [] s
            | some parsed ↦ elim (answers want_id parsed) [
              | true ↦ (ok parsed, observe parsed s)
              | false ↦ read_loop rest default_event [] (observe parsed s)
            ]
          ]
        ] in
        let taken = take_line trimmed data_lines pending in
        let content = read_loop rest taken.1 taken.0 s in
        if expired
        then (err (timed_out timeout_ms), s)
        else if text_eq text []
        then (err ended, s)
        else if text_eq trimmed []
        then blank
        else content

    unfoldable pub read_until_id_observed : Stream → S → McpResult (Value N) × S
    unfolding read_loop
    read_until_id_observed stream s = read_loop stream default_event [] s
