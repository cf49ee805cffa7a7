-- ===== src/Tables/ToolCalls/History.antt =====
-- The log implements its specification: the last 1000 calls of a server and role, the newest first.
use elixir_mcp_lib.Base.{
  ℕ, zero, suc, ◌≤◌, ◌≡◌, refl, ap, sym, ◌∙◌, arith, List, [], ◌∷◌, ◌++◌, if◌then◌else◌, ltb,
  length, length-append, take, Bool-cases, inl, inr,
}
use elixir_mcp_lib.Base.Assoc
use elixir_mcp_lib.Base.Assoc.{find-insert}
use elixir_mcp_lib.Cache.{CacheKey, oids_key, oids_eq, oids_eq_iff}
use elixir_mcp_lib.Tables.ToolCalls.{
  log_cap, CallRecord, CallLogs, trim, reverse, or_empty, log_call, snapshot,
}

module _ {A : Type 0} where
  take_all : (n : ℕ) (xs : List A) → length xs ≤ n → take n xs ≡ xs
  take_all zero [] h = refl
  take_all zero (x ∷ xs) h = absurd (omega arith)
  take_all (suc n) [] h = refl
  take_all (suc n) (x ∷ xs) h = ap (λ l. x ∷ l) (take_all n xs (omega arith))

  take-append : (n : ℕ) (xs ys : List A) → n ≤ length xs → take n (xs ++ ys) ≡ take n xs
  take-append zero xs ys h = refl
  take-append (suc n) [] ys h = absurd (omega arith)
  take-append (suc n) (x ∷ xs) ys h = ap (λ l. x ∷ l) (take-append n xs ys (omega arith))

  take-take : (n : ℕ) (xs : List A) → take n (take (suc n) xs) ≡ take n xs
  take-take zero xs = refl
  take-take (suc n) [] = refl
  take-take (suc n) (x ∷ xs) = ap (λ l. x ∷ l) (take-take n xs)

  length-reverse : (xs : List A) → length (reverse xs) ≡ length xs
  length-reverse [] = refl
  length-reverse (x ∷ xs) =
      omega (arith, length-append {0} (reverse xs) (x ∷ []), length-reverse xs)

  reverse-snoc : (xs : List A) (x : A) → reverse (xs ++ x ∷ []) ≡ x ∷ reverse xs
  reverse-snoc [] x = refl
  reverse-snoc (y ∷ xs) x = ap (λ l. l ++ y ∷ []) (reverse-snoc xs x)

  reverse-trim : (cap : ℕ) (xs : List A) → reverse (trim cap xs) ≡ take cap (reverse xs)
  unfolding trim
  reverse-trim zero [] = refl
  reverse-trim (suc cap) [] = refl
  reverse-trim cap (x ∷ xs) = elim (Bool-cases (ltb cap (length (x ∷ xs)))) [
    | inl over ↦ rw over (
        reverse-trim cap xs
        ∙ sym (take-append cap (reverse xs) (x ∷ []) (ground (arith, length-reverse xs))))
    | inr fits ↦
        rw fits (sym (take_all cap (reverse (x ∷ xs)) (ground (arith, length-reverse (x ∷ xs)))))
  ]

module _ {N : Type 0} where
  -- the logs behind a series of calls, the newest first in the list
  abbrev pub logs_of : List (CacheKey × CallRecord N) → CallLogs N
  logs_of [] = []
  logs_of ((key, rec) ∷ earlier) = log_call key rec (logs_of earlier)

  -- The specification: the calls of one server and role.
  abbrev pub calls_of : CacheKey → List (CacheKey × CallRecord N) → List (CallRecord N)
  calls_of key [] = []
  calls_of key ((k, rec) ∷ earlier) =
      let rest = calls_of key earlier in if oids_eq k key then rec ∷ rest else rest

  pub snapshot-log_call :
      (k key : CacheKey) (rec : CallRecord N) (logs : CallLogs N)
      → snapshot key (log_call k rec logs)
        ≡ (if oids_eq k key then take log_cap (rec ∷ snapshot k logs) else snapshot key logs)
  unfolding snapshot log_call
  snapshot-log_call k key rec logs =
      let old = or_empty (Assoc.find logs k) in
      ap (λ o. reverse (or_empty o)) (find-insert logs k (trim log_cap (old ++ rec ∷ [])) key)
      ∙ elim (Bool-cases (oids_eq k key)) [
        | inl same ↦
            rw same
              (reverse-trim log_cap (old ++ rec ∷ []) ∙ ap (take log_cap) (reverse-snoc old rec))
        | inr other ↦ rw other refl
      ]

  -- What a scan sees of a server and role is the last 1000 of its calls, the newest first, whatever
  -- other servers and roles have called in between.
  pub snapshot-Refines :
      (history : List (CacheKey × CallRecord N)) (key : CacheKey)
      → snapshot key (logs_of history) ≡ take log_cap (calls_of key history)
  unfolding snapshot Assoc.find
  snapshot-Refines [] key = refl
  snapshot-Refines ((k, rec) ∷ earlier) key =
      snapshot-log_call k key rec (logs_of earlier) ∙ elim (Bool-cases (oids_eq k key)) [
        | inl same ↦ rw same (
            ap (take log_cap) (ap (λ l. rec ∷ l) (snapshot-Refines earlier k))
            ∙ ap (λ l. rec ∷ l) (take-take 999 (calls_of k earlier))
            ∙ ap (λ j. take log_cap (rec ∷ calls_of j earlier)) ((oids_eq_iff k key).0 same))
        | inr other ↦ rw other (snapshot-Refines earlier key)
      ]
