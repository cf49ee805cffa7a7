-- ===== src/Sse/Frames.antt =====
-- An independent description of the stream: its frames, and the first frame that answers.
use elixir_mcp_lib.Base.{
  ℕ, ◌≡◌, refl, arith, true, false, Option, none, some, List, [], ◌∷◌, if◌then◌else◌, Text, text_eq,
  ℤ, Bool-cases, inl, inr,
}
use elixir_mcp_lib.Json.{Value}
use elixir_mcp_lib.Errors.{McpResult, ok, err}
use elixir_mcp_lib.Sse.{
  Stream, closed, line, Event, default_event, Decoder, trim_end, take_line, ended, answers, payload,
  read_loop, read_until_id_observed,
}

-- A calm stream: the budget lasts, no interrupt comes, and the server closes the connection.
abbrev pub calm : List Text → Stream
calm [] = closed false
calm (text ∷ rest) = line false none text (calm rest)

-- The data lines of the frames that a blank line ends; what follows the last blank line is no frame,
-- and an empty text is the end of the stream.
unfoldable pub frames : List Text → List Text → Event → List (List Text)
frames [] data_lines pending = []
frames (text ∷ rest) data_lines pending =
    let trimmed = trim_end text in
    let taken = take_line trimmed data_lines pending in
    let closed_frame = data_lines ∷ frames rest [] default_event in
    let open_frame = frames rest taken.0 taken.1 in
    if text_eq text [] then [] else if text_eq trimmed [] then closed_frame else open_frame

module _ {N : Type 0} (d : Decoder N) where
  -- The documents of the frames that hold one.
  unfoldable pub documents : List (List Text) → List (Value N)
  documents [] = []
  documents (f ∷ fs) = elim (payload d f) [ none ↦ documents fs | some v ↦ v ∷ documents fs ]

  module _ {S : Type 0} (observe : Value N → S → S) (want_id : ℤ) where
    -- The first document that answers, with every document up to it observed.
    unfoldable pub first_answer : List (Value N) → S → McpResult (Value N) × S
    first_answer [] s = (err ended, s)
    first_answer (v ∷ vs) s = elim (answers d want_id v) [
      | true ↦ (ok v, observe v s)
      | false ↦ first_answer vs (observe v s)
    ]

    -- a dispatched frame, with `r` for the rest of the stream
    dispatch-first_answer :
        (o : Option (Value N)) (vs : List (Value N)) (r : S → McpResult (Value N) × S)
        → ((s : S) → r s ≡ first_answer vs s)
        → (s : S)
        → ◌≡◌ {A = McpResult (Value N) × S}
            (elim o [
              | none ↦ r s
              | some parsed ↦ elim (answers d want_id parsed) [
                | true ↦ (ok parsed, observe parsed s)
                | false ↦ r (observe parsed s)
              ]
            ])
            (first_answer (elim o [ none ↦ vs | some v ↦ v ∷ vs ]) s)
    unfolding first_answer
    dispatch-first_answer none vs r h s = h s
    dispatch-first_answer (some v) vs r h s = ground (arith, h (observe v s))

    module _ (timeout_ms : ℕ) where
      read_loop-calm :
          (lines : List Text) (pending : Event) (data_lines : List Text) (s : S)
          → read_loop d observe want_id timeout_ms (calm lines) pending data_lines s
            ≡ first_answer (documents (frames lines data_lines pending)) s
      unfolding read_loop frames documents first_answer
      read_loop-calm [] pending data_lines s = refl
      read_loop-calm (text ∷ rest) pending data_lines s =
          let taken = take_line (trim_end text) data_lines pending in
          elim (Bool-cases (text_eq text [])) [
            | inl empty ↦ rw (empty, read_loop, frames) refl
            | inr more ↦ elim (Bool-cases (text_eq (trim_end text) [])) [
              | inl blank ↦
                  rw (more, blank)
                    (dispatch-first_answer (payload d data_lines)
                      (documents (frames rest [] default_event))
                      (λ t. read_loop d observe want_id timeout_ms (calm rest) default_event [] t)
                      (λ t. read_loop-calm rest default_event [] t) s)
              | inr content ↦ rw (more, content) (read_loop-calm rest taken.1 taken.0 s)
            ]
          ]

      -- On a stream that meets no deadline, interrupt or read error, the reader returns the first
      -- document that carries the wanted id among the frames of the stream, and reports that the
      -- stream ended where there is none; the observer has seen the documents up to the answer, and
      -- no other.
      pub read_until_id-first_answer :
          (lines : List Text) (s : S)
          → read_until_id_observed d observe want_id timeout_ms (calm lines) s
            ≡ first_answer (documents (frames lines [] default_event)) s
      unfolding read_until_id_observed
      read_until_id-first_answer lines s = read_loop-calm lines default_event [] s
