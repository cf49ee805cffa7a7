-- ===== src/Tables/Catalog/Cursor.antt =====
-- pg/pg_mcp/src/tables/catalog.rs: the cursor over rows that are all there.
use elixir_mcp_lib.Base.{
  ℕ, zero, suc, ◌≡◌, refl, ap, Option, none, some, List, [], ◌∷◌, drop, ◌∙◌, Option-cases, inl, inr,
}
use elixir_mcp_lib.Tables.{nth}

-- a row is of the type `R`
pub record RowsCursor (R : Type 0) : Type 0 where
  pub rows : List R
  pub position : ℕ

module _ {R : Type 0} where
  unfoldable pub new : List R → RowsCursor R
  new rows = record { rows = rows; position = 0 }

  -- what a row that was found does to the cursor
  abbrev pub advance : Option R → RowsCursor R → RowsCursor R
  advance none c = c
  advance (some r) c = record c { position = suc c.position }

  unfoldable pub iter_scan : RowsCursor R → Option R × RowsCursor R
  iter_scan c = let row = nth c.rows c.position in (row, advance row c)

  unfoldable pub re_scan : RowsCursor R → RowsCursor R
  re_scan c = record c { position = 0 }

-- A call that the executor makes, and what it is answered.
pub data Call : Type 0 where
  iterate rescan : Call

module _ {R : Type 0} where
  unfoldable pub step : RowsCursor R → Call → Option R × RowsCursor R
  unfolding iter_scan re_scan
  step c iterate = iter_scan c
  step c rescan = (none, re_scan c)

  unfoldable pub answers : RowsCursor R → List Call → List (Option R)
  unfolding step
  answers c [] = []
  answers c (k ∷ ks) = (step c k).0 ∷ answers (step c k).1 ks

  abbrev head_of : List R → Option R
  head_of [] = none
  head_of (r ∷ rs) = some r

  abbrev tail_of : List R → List R
  tail_of [] = []
  tail_of (r ∷ rs) = rs

  -- What is promised: an iterator over `rows`, with `left` still to come.
  abbrev pub promised : List R → List R → List Call → List (Option R)
  promised rows left [] = []
  promised rows left (iterate ∷ ks) = head_of left ∷ promised rows (tail_of left) ks
  promised rows left (rescan ∷ ks) = none ∷ promised rows rows ks

  drop-past : (rows : List R) (p : ℕ) → nth rows p ≡ none → drop p rows ≡ []
  drop-past [] zero h = refl
  drop-past [] (suc p) h = refl
  drop-past (r ∷ rows) zero h = cc
  drop-past (r ∷ rows) (suc p) h = drop-past rows p h

  drop-at :
      (rows : List R) (p : ℕ) (r : R) → nth rows p ≡ some r → drop p rows ≡ r ∷ drop (suc p) rows
  drop-at [] p r h = cc
  drop-at (x ∷ rows) zero r h = cc
  drop-at (x ∷ rows) (suc p) r h = drop-at rows p r h

  answers-promised :
      (rows : List R) (p : ℕ) (ks : List Call)
      → answers (record { rows = rows; position = p }) ks ≡ promised rows (drop p rows) ks
  unfolding answers step iter_scan re_scan
  answers-promised rows p [] = refl
  answers-promised rows p (iterate ∷ ks) = elim (Option-cases (nth rows p)) [
    | inl past ↦
        rw (past, drop-past rows p past)
          (ap (λ l. none ∷ l)
            (answers-promised rows p ks
              ∙ ap (λ left. promised rows left ks) (drop-past rows p past)))
    | inr (r, here) ↦
        rw (here, drop-at rows p r here) (ap (λ l. some r ∷ l) (answers-promised rows (suc p) ks))
  ]
  answers-promised rows p (rescan ∷ ks) = ap (λ l. none ∷ l) (answers-promised rows 0 ks)

  -- The cursor is an iterator over its rows: it answers each series of fetches and restarts with the
  -- rows in order, each once, then with nothing for ever, and from the first row again after a restart.
  pub answers-IsIterator :
      (rows : List R) (ks : List Call) → answers (new rows) ks ≡ promised rows rows ks
  unfolding new
  answers-IsIterator rows ks = answers-promised rows 0 ks
