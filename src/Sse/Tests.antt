-- ===== src/Sse/Tests.antt =====
-- Event streams of two documents, and the theorems at them.
use elixir_mcp_lib.Base.{
  ℕ, ◌+◌, ◌≡◌, refl, Option, none, some, List, [], ◌∷◌, if◌then◌else◌, Text, codes, text_eq, join,
  pos,
}
use elixir_mcp_lib.Json.{Value, number, object, end, field}
use elixir_mcp_lib.Errors.{ok}
use elixir_mcp_lib.Sse.{Decoder, read_until_id_observed}
use elixir_mcp_lib.Sse.Frames.{calm, first_answer}
use elixir_mcp_lib.Sse.Replies.{
  Carries, event_stream, decode_all, read-event_stream, read_until_id-Carries,
}

-- a document with this id
abbrev reply : ℕ → Value ℕ
reply n = object (field (codes "id") (number n) end)

abbrev decode : Text → Option (Value ℕ)
decode text =
    if text_eq text (codes "one")
    then some (reply 1)
    else if text_eq text (codes "two")
    then some (reply 2)
    else none

abbrev decoder : Decoder ℕ
decoder = record { from_str = decode; as_i64 = λ n. some (pos n); parse_i64 = λ t. none }

-- how many documents were seen
abbrev count : Value ℕ → ℕ → ℕ
count v n = n + 1

abbrev two_events : List Text
two_events =
    codes ": ping"
    ∷ codes "data: one\r\n"
    ∷ codes "\r\n"
    ∷ codes "event: message"
    ∷ codes "data:two"
    ∷ codes "\n"
    ∷ []

skips_the_first :
    read_until_id_observed decoder count (pos 2) 1000 (calm two_events) 0 ≡ (ok (reply 2), 2)
unfolding read_until_id_observed join
skips_the_first = refl

read_until_id-Carries_example : Carries decoder (pos 2) (reply 2)
read_until_id-Carries_example =
    read_until_id-Carries decoder count (pos 2) 1000 (calm two_events) 0 2 (reply 2) skips_the_first

abbrev texts : List Text
texts = codes "one" ∷ codes "no json" ∷ codes "two" ∷ []

read-event_stream_example :
    read_until_id_observed decoder count (pos 2) 1000 (calm (event_stream texts)) 0
    ≡ first_answer decoder count (pos 2) (decode_all decoder texts) 0
read-event_stream_example = read-event_stream decoder count (pos 2) 1000 texts 0 (
  (refl, (refl, (refl, tt))),
  ((refl, (refl, (refl, (refl, (refl, (refl, (refl, tt))))))), ((refl, (refl, (refl, tt))), tt)),
)
