-- ===== src/Sse/Replies.antt =====
-- What the reader answers on streams that a server writes, and at the deadline.
use elixir_mcp_lib.Base.{
  ℕ, ◌≡◌, refl, arith, true, false, ◌||◌, ◌==◌, Option, none, some, List, [], ◌∷◌, ◌++◌, Text,
  codes, text_eq, All, ℤ, Bool-cases, inl, inr, ap, ◌∙◌, map, join, false, int_eq, int_eq_sound,
}
use elixir_mcp_lib.Json.{Value, null, boolean, number, string, array, object, get}
use elixir_mcp_lib.Errors.{McpError, McpResult, ok, err}
use elixir_mcp_lib.Sse.{
  Stream, closed, failing, line, Event, default_event, Decoder, trim_end, take_line, answers,
  payload, json_id, read_loop, read_until_id_observed,
}
use elixir_mcp_lib.Sse.Frames.{calm, frames, documents, first_answer, read_until_id-first_answer}

-- One line of text: no carriage return, no line feed.
abbrev pub IsLine : Text → Type 0
IsLine = All (λ c. (c == b'\r' || c == b'\n') ≡ false)

-- How the server writes a document: `data: <text>` and a blank line.
abbrev pub event_lines : Text → List Text
event_lines text = (codes "data: " ++ text ++ codes "\n") ∷ codes "\n" ∷ []

abbrev pub event_stream : List Text → List Text
event_stream [] = []
event_stream (t ∷ ts) = event_lines t ++ event_stream ts

trim_end-line : (t : Text) → IsLine t → trim_end (t ++ codes "\n") ≡ t
unfolding trim_end
trim_end-line [] h = refl
trim_end-line (c ∷ t) (p, h) = rw (p, trim_end-line t h)

trim_end-newline : trim_end (codes "\n") ≡ []
unfolding trim_end
trim_end-newline = refl

frames-event_lines :
    (t : Text) (rest : List Text)
    → IsLine t
    → frames (event_lines t ++ rest) [] default_event ≡ (t ∷ []) ∷ frames rest [] default_event
unfolding frames take_line
frames-event_lines t rest h = rw (
  trim_end-line (codes "data: " ++ t) (refl, (refl, (refl, (refl, (refl, (refl, h)))))),
  trim_end-newline,
)

frames-event_stream :
    (ts : List Text)
    → All IsLine ts
    → frames (event_stream ts) [] default_event ≡ map (λ t. t ∷ []) ts
frames-event_stream [] h = unfold frames in refl
frames-event_stream (t ∷ ts) (p, h) =
    frames-event_lines t (event_stream ts) p ∙ ap (λ fs. (t ∷ []) ∷ fs) (frames-event_stream ts h)

module _ {N : Type 0} (d : Decoder N) where
  -- the texts that are JSON, decoded
  unfoldable pub decode_all : List Text → List (Value N)
  decode_all [] = []
  decode_all (t ∷ ts) = elim (d.from_str t) [ none ↦ decode_all ts | some v ↦ v ∷ decode_all ts ]

  documents-singles : (ts : List Text) → documents d (map (λ t. t ∷ []) ts) ≡ decode_all ts
  unfolding documents payload join decode_all
  documents-singles [] = refl
  documents-singles (t ∷ ts) = ground (arith, documents-singles ts)

  -- The value is this integer, or spells it.
  abbrev pub IsId : ℤ → Value N → Type 0
  IsId want (number n) = d.as_i64 n ≡ some want
  IsId want (string s) = d.parse_i64 s ≡ some want
  IsId want _ = ⊥

  -- The document has that id.
  abbrev pub Carries : ℤ → Value N → Type 0
  Carries want v = (id : Value N) × (get v (codes "id") ≡ some id) × IsId want id

  same_id :
      (o : Option ℤ) (want : ℤ)
      → elim o [ none ↦ false | some id ↦ int_eq id want ] ≡ true
      → o ≡ some want
  same_id none want h = cc
  same_id (some id) want h = ap some (int_eq_sound id want h)

  json_id-IsId : (v : Value N) (want : ℤ) → json_id d v ≡ some want → IsId want v
  unfolding json_id
  json_id-IsId (number n) want h = h
  json_id-IsId (string s) want h = h
  json_id-IsId null want h = cc
  json_id-IsId (boolean b) want h = cc
  json_id-IsId (array vs) want h = cc
  json_id-IsId (object fs) want h = cc

  answers-Carries : (want : ℤ) (v : Value N) → answers d want v ≡ true → Carries want v
  unfolding answers
  answers-Carries want v h = with_id (get v (codes "id")) refl
    where
      with_id : (o : Option (Value N)) → get v (codes "id") ≡ o → Carries want v
      with_id none e = cc (rw (e, answers) at h)
      with_id (some id) e =
          (id, e, json_id-IsId id want (same_id (json_id d id) want (rw (e, answers) at h)))

  module _ {S : Type 0} (observe : Value N → S → S) (want_id : ℤ) (timeout_ms : ℕ) where
    -- Documents that a server writes one to an event (`data: <text>` and a blank line, the texts
    -- without line breaks) are read back in their order: the reader returns the first that carries
    -- the wanted id, having shown the observer those up to it, and a text that is no JSON is skipped.
    pub read-event_stream :
        (ts : List Text) (s : S)
        → All IsLine ts
        → read_until_id_observed d observe want_id timeout_ms (calm (event_stream ts)) s
          ≡ first_answer d observe want_id (decode_all ts) s
    read-event_stream ts s h =
        read_until_id-first_answer d observe want_id timeout_ms (event_stream ts) s
        ∙ ap (λ fs. first_answer d observe want_id (documents d fs) s) (frames-event_stream ts h)
        ∙ ap (λ vs. first_answer d observe want_id vs s) (documents-singles ts)

    dispatched_sound :
        (o : Option (Value N)) (r : S → McpResult (Value N) × S)
        → ((s t : S) (v : Value N) → r s ≡ (ok v, t) → answers d want_id v ≡ true)
        → (s t : S) (v : Value N)
        → ◌≡◌ {A = McpResult (Value N) × S}
            (elim o [
              | none ↦ r s
              | some parsed ↦ elim (answers d want_id parsed) [
                | true ↦ (ok parsed, observe parsed s)
                | false ↦ r (observe parsed s)
              ]
            ])
            (ok v, t)
        → answers d want_id v ≡ true
    dispatched_sound none r sound s t v h = sound s t v h
    dispatched_sound (some parsed) r sound s t v h = ground (arith, sound (observe parsed s) t v)

    blank_sound :
        (interrupt : Option McpError) (rest : Stream) (o : Option (Value N)) (s t : S) (v : Value N)
        → ((s t : S) (v : Value N)
            → read_loop d observe want_id timeout_ms rest default_event [] s ≡ (ok v, t)
            → answers d want_id v ≡ true)
        → ◌≡◌ {A = McpResult (Value N) × S}
            (elim interrupt [
              | some e ↦ (err e, s)
              | none ↦ elim o [
                | none ↦ read_loop d observe want_id timeout_ms rest default_event [] s
                | some parsed ↦ elim (answers d want_id parsed) [
                  | true ↦ (ok parsed, observe parsed s)
                  | false ↦
                      read_loop d observe want_id timeout_ms rest default_event []
                        (observe parsed s)
                ]
              ]
            ])
            (ok v, t)
        → answers d want_id v ≡ true
    blank_sound (some e) rest o s t v sound h =
        ground (arith, ap (λ (p : McpResult (Value N) × S). p.0) h)
    blank_sound none rest o s t v sound h =
        dispatched_sound o (λ s. read_loop d observe want_id timeout_ms rest default_event [] s)
          sound s t v h

    err_not_ok : {e : McpError} {v : Value N} → ◌≡◌ {A = McpResult (Value N)} (err e) (ok v) → ⊥
    err_not_ok h = cc

    read_loop_sound :
        (stream : Stream) (pending : Event) (data_lines : List Text) (s t : S) (v : Value N)
        → read_loop d observe want_id timeout_ms stream pending data_lines s ≡ (ok v, t)
        → answers d want_id v ≡ true
    unfolding read_loop
    read_loop_sound (closed expired) pending data_lines s t v h =
        ground (arith, ap (λ (p : McpResult (Value N) × S). p.0) h)
    read_loop_sound (failing expired kind) pending data_lines s t v h =
        ground (arith, ap (λ (p : McpResult (Value N) × S). p.0) h)
    read_loop_sound (line true interrupt text rest) pending data_lines s t v h =
        ground (arith, ap (λ (p : McpResult (Value N) × S). p.0) h)
    read_loop_sound (line false interrupt text rest) pending data_lines s t v h =
        elim (Bool-cases (text_eq text [])) [
          | inl empty ↦
              absurd (err_not_ok (ap (λ (p : McpResult (Value N) × S). p.0) (rw empty at h)))
          | inr more ↦ elim (Bool-cases (text_eq (trim_end text) [])) [
            | inl blank ↦
                blank_sound interrupt rest (payload d data_lines) s t v
                  (read_loop_sound rest default_event []) (rw (more, blank) at h)
            | inr content ↦
                let taken = take_line (trim_end text) data_lines pending in
                read_loop_sound rest taken.1 taken.0 s t v (rw (more, content) at h)
          ]
        ]

    -- Whatever the stream does, a document that the reader returns has an `id`, and it is the wanted
    -- one: a number that is this integer, or a string that spells it.
    pub read_until_id-Carries :
        (stream : Stream) (s t : S) (v : Value N)
        → read_until_id_observed d observe want_id timeout_ms stream s ≡ (ok v, t)
        → Carries want_id v
    unfolding read_until_id_observed
    read_until_id-Carries stream s t v h =
        answers-Carries want_id v (read_loop_sound stream default_event [] s t v h)
