-- ===== src/Client/Tests.antt =====
-- A scripted server, and the theorems on sessions at its answers.
use elixir_mcp_lib.Base.{
  ℕ, ◌+◌, ◌≡◌, ◌≤◌, ◌↔◌, ◌==◌, join, contains_str, refl, true, Option, none, some, List, [], ◌∷◌,
  if◌then◌else◌, Text, codes, text_eq, pos, length,
}
use elixir_mcp_lib.Json.{Value, null, boolean, number, string, array, object, nil, cons, end, field}
use elixir_mcp_lib.Errors.{ok, err, rpc, from_rpc, message, is_expired_session, is_authz_message}
use elixir_mcp_lib.Sse.{Decoder, read_until_id_observed}
use elixir_mcp_lib.Sse.Frames.{calm}
use elixir_mcp_lib.Client.Wire.{
  Env, HttpOutcome, response, status_error, unreachable, read_all, classify, dispatch, finish,
}
use elixir_mcp_lib.Client.Session.{State, Transport, fresh, request, try_request, read_stream}
use elixir_mcp_lib.Client.Listing.{list_all, max_list_pages, page_items, with_cursor}
use elixir_mcp_lib.Client.Bounds.{Uses, request-Uses}
use elixir_mcp_lib.Client.Recovery.{Encodes, request_recovers, expired_session_by_transport}
use elixir_mcp_lib.Client.Pages.{Chain, concat, list_all_iff}

-- the documents that the server sends, by a name
abbrev answer : Value ℕ
answer = object (field (codes "id") (number 1) (field (codes "result") (boolean true) end))

abbrev page_one : Value ℕ
page_one = object (
    field (codes "result")
      (object (
        field (codes "tools") (array (cons (string (codes "a")) nil))
          (field (codes "nextCursor") (string (codes "c1")) end)))
      end)

abbrev page_two : Value ℕ
page_two = object (
    field (codes "result")
      (object (field (codes "tools") (array (cons (string (codes "b")) nil)) end)) end)

abbrev expired : Value ℕ
expired = object (
    field (codes "id") (number 1) (
      field (codes "error")
        (object (
          field (codes "code") (number 5)
            (field (codes "message") (string (codes "session expired")) end)))
        end))

abbrev decode : Text → Option (Value ℕ)
decode text =
    if text_eq text (codes "answer")
    then some answer
    else if text_eq text (codes "page one")
    then some page_one
    else if text_eq text (codes "page two")
    then some page_two
    else if text_eq text (codes "expired")
    then some expired
    else none

abbrev decoder : Decoder ℕ
decoder = record { from_str = decode; as_i64 = λ n. some (pos n); parse_i64 = λ t. none }

abbrev body : Text → HttpOutcome
body text = response (record {
  status = 200;
  session_header = some (codes "new");
  content_type = some (codes "application/json");
  text = read_all text;
  stream = calm [];
})

abbrev event_stream : HttpOutcome
event_stream = response (record {
  status = 200;
  session_header = none;
  content_type = some (codes "text/event-stream");
  text = read_all [];
  stream = calm (codes "data: expired" ∷ codes "\n" ∷ []);
})

abbrev accept : HttpOutcome
accept = response (record {
  status = 202;
  session_header = none;
  content_type = none;
  text = read_all [];
  stream = calm [];
})

-- the answer to the request with this number
abbrev script : ℕ → HttpOutcome
script w =
    if w == 0
    then status_error 404
    else if w == 1
    then body (codes "answer")
    else if w == 2
    then accept
    else if w == 3
    then body (codes "answer")
    else if w == 10
    then body (codes "expired")
    else if w == 11
    then event_stream
    else if w == 20
    then body (codes "page one")
    else if w == 21
    then body (codes "page two")
    else unreachable (codes "ConnectionFailed")

abbrev server : Env ℕ ℕ
server = record {
  decoder = decoder;
  of_ℕ = λ n. n;
  client_version = codes "0.1.0";
  check = λ w. none;
  encode_error = λ v. none;
  send = λ q w. (script w, w + 1);
}

abbrev transport_of_test : Transport
transport_of_test = record { timeout_ms = 1000; bearer = none; observing = true }

-- a session that no request has used, at this point of the script
abbrev session_at : ℕ → State ℕ ℕ
session_at w = record {
  session = fresh server transport_of_test (codes "http://localhost/mcp");
  world = w;
}

encodes : Encodes server transport_of_test
encodes = record { always = λ v. refl }

-- the whole recovery, run
recovered :
    (request server transport_of_test (codes "ping") null (session_at 0)).0 ≡ ok (boolean true)
unfolding request dispatch contains_str finish
recovered = refl

request_recovers_example :
    (s' : State ℕ ℕ) × (request server transport_of_test (codes "ping") null (session_at 0)
      ≡ (ok (boolean true), s'))
    × (s'.session.session_id ≡ some (codes "new"))
    × (s'.session.next_id ≡ 4)
    × (s'.session.initialize_count ≡ 1)
    × (s'.world ≡ 4)
unfolding classify finish contains_str
request_recovers_example =
    request_recovers server transport_of_test {w₁ = 1} {w₂ = 2} {w₃ = 3} {w₄ = 4} {v₁ = answer}
      {r₁ = boolean true} {v₂ = answer} {r₂ = boolean true} {sid = some (codes "new")}
      {sid' = some (codes "new")} (codes "ping") null (session_at 0) encodes
      (record { calm = refl; outcome = script 0; sent = refl; read = refl })
      (record { calm = refl; outcome = script 1; sent = refl; read = refl }) refl
      (record { calm = refl; outcome = script 2; sent = refl; read = refl })
      (record { calm = refl; outcome = script 3; sent = refl; read = refl }) refl

request-Uses_example :
    Uses 1 3 1
      (session_at 0).session
      (request server transport_of_test (codes "ping") null (session_at 0)).1.session
request-Uses_example = request-Uses server transport_of_test (codes "ping") null (session_at 0)

expired_session_by_transport_example :
    (try_request server transport_of_test (codes "ping") null (session_at 10) ≡ (
      ok none,
      record (session_at 11) { session = record (session_at 11).session { next_id = 2 } },
    ))
    × (try_request server transport_of_test (codes "ping") null (session_at 11) ≡ (
      err (rpc (pos 5) (codes "session expired")),
      record (session_at 12) { session = record (session_at 12).session { next_id = 2 } },
    ))
unfolding classify finish from_rpc message is_expired_session read_stream join is_authz_message
    read_until_id_observed
expired_session_by_transport_example =
    expired_session_by_transport server transport_of_test {w₁ = 11} {w₂ = 12} {v = expired}
      {sid = some (codes "new")} {stream = calm (codes "data: expired" ∷ codes "\n" ∷ [])}
      {s₂ = record (session_at 12) { session = record (session_at 12).session { next_id = 2 } }}
      {e = rpc (pos 5) (codes "session expired")} (codes "ping") null (session_at 10)
      (session_at 11) encodes refl
      (record { calm = refl; outcome = script 10; sent = λ q. refl; read = refl }) refl
      (record { calm = refl; outcome = script 11; sent = λ q. refl; read = refl }) refl refl

-- two pages, listed
abbrev listed : List (Value ℕ)
listed = string (codes "a") ∷ string (codes "b") ∷ []

abbrev behind_pages : State ℕ ℕ
behind_pages = record (session_at 22) { session = record (session_at 22).session { next_id = 3 } }

lists :
    list_all server transport_of_test
      (codes "tools/list")
      (codes "tools")
      (object end)
      (session_at 20)
    ≡ (ok listed, behind_pages)
unfolding list_all request dispatch contains_str finish page_items with_cursor
lists = refl

list_all_iff_example :
    (list_all server transport_of_test
        (codes "tools/list")
        (codes "tools")
        (object end)
        (session_at 20)
      ≡ (ok listed, behind_pages))
    ↔ ((pages : List (List (Value ℕ))) × Chain
          (request server transport_of_test (codes "tools/list"))
          (codes "tools")
          []
          (object end)
          (session_at 20)
          pages
          behind_pages
        × (listed ≡ concat pages)
        × (length pages ≤ max_list_pages))
list_all_iff_example =
    list_all_iff server transport_of_test (codes "tools/list") (codes "tools") (object end)
      (session_at 20) behind_pages listed
