-- ===== src/Client/Pages.antt =====
-- A paginated list is the items of its pages, in the order of the cursors.
use elixir_mcp_lib.Base.{
  ℕ, zero, suc, ◌≤◌, ◌≡◌, refl, sym, ap, ◌∙◌, arith, ◌↔◌, false, Option, none, some, List, [], ◌∷◌,
  ◌++◌, append_assoc, append-nil, Text, contains, length, Bool-cases, inl, inr,
}
use elixir_mcp_lib.Json.{Value}
use elixir_mcp_lib.Errors.{McpResult, ok, err}
use elixir_mcp_lib.Client.Wire.{Env}
use elixir_mcp_lib.Client.Session.{Exec, State, Transport, and_then, request}
use elixir_mcp_lib.Client.Listing.{
  max_list_pages, page_items, with_cursor, list_loop, list_all, turn_page,
}

module _ {N W : Type 0} (ask : Value N → Exec N W (Value N)) (array_key : Text) where
  -- The pages that the server serves from `params` on, each behind the cursor of the one before. No
  -- cursor stands in `seen`, or comes twice.
  pub data Chain
      : List Text → Value N → State N W → List (List (Value N)) → State N W → Type 0 where
    last :
        {seen : List Text} {params result : Value N} {s s' : State N W} {page : List (Value N)}
        → ask params s ≡ (ok result, s')
        → page_items result array_key ≡ (page, none)
        → Chain seen params s (page ∷ []) s'
    more :
        {seen : List Text} {params result : Value N} {s s₁ s' : State N W} {page : List (Value N)}
        {cursor : Text} {pages : List (List (Value N))}
        → ask params s ≡ (ok result, s₁)
        → page_items result array_key ≡ (page, some cursor)
        → contains seen cursor ≡ false
        → Chain (cursor ∷ seen) (with_cursor params cursor) s₁ pages s'
        → Chain seen params s (page ∷ pages) s'

abbrev pub concat {ℓ} : {A : Type ℓ} → List (List A) → List A
concat [] = []
concat (xs ∷ xss) = xs ++ concat xss

module _ {N W : Type 0} (ask : Value N → Exec N W (Value N)) (method array_key : Text) where
  list_loop_complete :
      (room : ℕ) (collected : List (Value N)) {seen : List Text} {params : Value N}
      {s s' : State N W} {pages : List (List (Value N))}
      → Chain ask array_key seen params s pages s'
      → length pages ≤ room
      → list_loop ask method array_key room collected seen params s
        ≡ (ok (collected ++ concat pages), s')
  unfolding list_loop
  list_loop_complete zero collected (last answered page) fits = absurd (omega arith)
  list_loop_complete (suc room) collected (last {s' = t} {page = p} answered page) fits =
      rw answered (rw page (ap (λ xs. (ok (collected ++ xs), t)) (sym (append-nil p))))
  list_loop_complete zero collected (more answered page free rest) fits = absurd (omega arith)
  list_loop_complete (suc room) collected
        (more {s' = t} {page = p} {pages = ps} answered page free rest) fits =
      rw answered (
        rw page (
          rw free (
            list_loop_complete room (collected ++ p) rest (omega arith)
            ∙ ap (λ xs. (ok xs, t)) (append_assoc collected p (concat ps)))))

  -- a list that the loop returns is the items of a chain of pages
  abbrev Served :
      ℕ → List (Value N) → List Text → Value N → State N W → List (Value N) → State N W → Type 0
  Served room collected seen params s out s' =
      (pages : List (List (Value N))) × Chain ask array_key seen params s pages s'
      × (out ≡ collected ++ concat pages)
      × (length pages ≤ room)

  last_page :
      (room : ℕ) (collected : List (Value N)) (seen : List Text) (params result : Value N)
      (s t s' : State N W) (page out : List (Value N))
      → ask params s ≡ (ok result, t)
      → page_items result array_key ≡ (page, none)
      → ◌≡◌ {A = McpResult (List (Value N)) × State N W} (ok (collected ++ page), t) (ok out, s')
      → Served (suc room) collected seen params s out s'
  last_page room collected seen params result s t s' page out answered items h = (
    page ∷ [],
    last
        (answered
          ∙ ap (λ u. (ok result, u)) (ap (λ (r : McpResult (List (Value N)) × State N W). r.1) h))
        items,
    rw append-nil (cc (ap (λ (r : McpResult (List (Value N)) × State N W). r.0) h)),
    omega arith,
  )

  turn_page_sound :
      (room : ℕ) (collected : List (Value N)) (seen : List Text) (params result : Value N)
      (s t s' : State N W) (out : List (Value N)) (turn : List (Value N) × Option Text)
      → ask params s ≡ (ok result, t)
      → page_items result array_key ≡ turn
      → ((xs : List (Value N)) (c : Text)
          → list_loop ask method array_key room xs (c ∷ seen) (with_cursor params c) t
            ≡ (ok out, s')
          → Served room xs (c ∷ seen) (with_cursor params c) t out s')
      → turn_page method collected seen
          (λ xs c. list_loop ask method array_key room xs (c ∷ seen) (with_cursor params c))
          turn
          t
        ≡ (ok out, s')
      → Served (suc room) collected seen params s out s'
  unfolding turn_page
  turn_page_sound room collected seen params result s t s' out (page, none) answered items sound h =
      last_page room collected seen params result s t s' page out answered items h
  turn_page_sound room collected seen params result s t s' out (page, some c) answered items sound
        h =
      elim (Bool-cases (contains seen c)) [
        | inl taken ↦ cc (ap (λ (r : McpResult (List (Value N)) × State N W). r.0) (rw taken at h))
        | inr free ↦
            let (pages, chain, same, few) = sound (collected ++ page) c (rw free at h) in
            (
              page ∷ pages,
              more answered items free chain,
              same ∙ append_assoc collected page (concat pages),
              omega arith,
            )
      ]

  answer_sound :
      (room : ℕ) (collected : List (Value N)) (seen : List Text) (params : Value N)
      (s s' : State N W) (out : List (Value N)) (answer : McpResult (Value N) × State N W)
      → ask params s ≡ answer
      → ((t : State N W) (xs : List (Value N)) (c : Text)
          → list_loop ask method array_key room xs (c ∷ seen) (with_cursor params c) t
            ≡ (ok out, s')
          → Served room xs (c ∷ seen) (with_cursor params c) t out s')
      → and_then answer (λ result.
        turn_page method collected seen
          (λ xs c. list_loop ask method array_key room xs (c ∷ seen) (with_cursor params c))
          (page_items result array_key))
        ≡ (ok out, s')
      → Served (suc room) collected seen params s out s'
  answer_sound room collected seen params s s' out (err e, t) answered sound h =
      cc (ap (λ (r : McpResult (List (Value N)) × State N W). r.0) h)
  answer_sound room collected seen params s s' out (ok result, t) answered sound h =
      turn_page_sound room collected seen params result s t s' out (page_items result array_key)
        answered refl (sound t) h

  list_loop_sound :
      (room : ℕ) (collected : List (Value N)) (seen : List Text) (params : Value N)
      (s s' : State N W) (out : List (Value N))
      → list_loop ask method array_key room collected seen params s ≡ (ok out, s')
      → Served room collected seen params s out s'
  unfolding list_loop
  list_loop_sound zero collected seen params s s' out h =
      cc (ap (λ (r : McpResult (List (Value N)) × State N W). r.0) h)
  list_loop_sound (suc room) collected seen params s s' out h =
      answer_sound room collected seen params s s' out (ask params s) refl
        (λ t xs c. list_loop_sound room xs (c ∷ seen) (with_cursor params c) t s' out) h

module _ {N W : Type 0} (env : Env N W) (t : Transport) (method array_key : Text) where
  -- `list_all` returns the items of all pages, in order, exactly where the server serves a chain of
  -- at most 1000 pages, each behind the cursor of the one before, in which no cursor comes twice;
  -- the state it leaves is that behind the last page.
  pub list_all_iff :
      (params : Value N) (s s' : State N W) (out : List (Value N))
      → (list_all env t method array_key params s ≡ (ok out, s')) ↔ (
          (pages : List (List (Value N))) × Chain
            (request env t method)
            array_key
            []
            params
            s
            pages
            s'
          × (out ≡ concat pages)
          × (length pages ≤ max_list_pages))
  unfolding list_all
  list_all_iff params s s' out = (
    list_loop_sound (request env t method) method array_key max_list_pages [] [] params s s' out,
    λ (pages, chain, same, few).
        list_loop_complete (request env t method) method array_key max_list_pages [] chain few
        ∙ ap (λ xs. (ok xs, s')) (sym same),
  )
