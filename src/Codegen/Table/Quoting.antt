-- ===== src/Codegen/Table/Quoting.antt =====
-- A quoted name or literal is read back by PostgreSQL's rules, whatever it holds.
use elixir_mcp_lib.Base.{
  ℕ, ◌≡◌, ◌≢◌, arith, Option, none, some, [], ◌∷◌, ◌++◌, if◌then◌else◌, ◌==◌, Text, append_assoc,
  ==_iff, ap, sym, ◌∙◌, Bool-cases, inl, inr, ◌≤◌, ◌-◌, length, utf8_char, len, leb, refl, true,
}
use mathlib.Core.Option
use elixir_mcp_lib.Codegen.Table.{double, quote_ident, quote_literal}

-- A quoted token behind its opening quote `q`: a doubled quote stands for one, a single one ends it.
-- The result is what it spells and what follows it; `none` if it does not end.
pub read_quoted : ℕ → Text → Option (Text × Text)
read_quoted q [] = none
read_quoted q (c ∷ []) = if c == q then some ([], []) else none
read_quoted q (c ∷ d ∷ s) =
    let behind = read_quoted q s in
    let on = read_quoted q (d ∷ s) in
    if c == q
    then (if d == q
        then Option.map (λ (r : Text × Text). (q ∷ r.0, r.1)) behind
        else some ([], d ∷ s))
    else Option.map (λ (r : Text × Text). (c ∷ r.0, r.1)) on

-- the token at the head of a text, behind its opening quote
pub lex_quoted : ℕ → Text → Option (Text × Text)
unfolding read_quoted
lex_quoted q [] = none
lex_quoted q (c ∷ s) = if c == q then read_quoted q s else none

-- The text does not go on with the quote.
abbrev pub NotQuote : ℕ → Text → Type 0
NotQuote q [] = Unit
NotQuote q (c ∷ s) = c ≢ q

-- the closing quote
read_end : (q : ℕ) (rest : Text) → NotQuote q rest → read_quoted q (q ∷ rest) ≡ some ([], rest)
unfolding read_quoted
read_end q [] h = ground arith
read_end q (c ∷ rest) h = ground arith

-- one character that is not the quote, with at least one behind it
read_plain :
    (q c : ℕ) (s : Text) (r : Text × Text)
    → c ≢ q
    → read_quoted q s ≡ some r
    → read_quoted q (c ∷ s) ≡ some (c ∷ r.0, r.1)
unfolding read_quoted
read_plain q c [] r ne h = cc
read_plain q c (d ∷ s) r ne h = ground arith

-- a doubled quote
read_doubled :
    (q : ℕ) (s : Text) (r : Text × Text)
    → read_quoted q s ≡ some r
    → read_quoted q (q ∷ q ∷ s) ≡ some (q ∷ r.0, r.1)
unfolding read_quoted
read_doubled q s r h = ground arith

read-double :
    (q : ℕ) (s rest : Text)
    → NotQuote q rest
    → read_quoted q (double q s ++ q ∷ rest) ≡ some (s, rest)
unfolding double
read-double q [] rest h = read_end q rest h
read-double q (c ∷ s) rest h = elim (Bool-cases (c == q)) [
  | inl e ↦ rw e (
      read_doubled q (double q s ++ q ∷ rest) (s, rest) (read-double q s rest h)
      ∙ ap (λ d. some (d ∷ s, rest)) (sym ((==_iff c q).0 e)))
  | inr e ↦ rw e (
      read_plain q c (double q s ++ q ∷ rest) (s, rest) (λ same. cc (e, (==_iff c q).1 same))
        (read-double q s rest h))
]

-- the longest start of a text that fits this many bytes, in whole characters
pub clip : ℕ → Text → Text
clip room [] = []
clip room (c ∷ s) =
    let size = length (utf8_char c) in
    let rest = clip (room - size) s in if leb size room then c ∷ rest else []

-- A quoted name by PostgreSQL's rules: it has a character, and counts up to 63 bytes of UTF-8.
pub lex_ident : Text → Option (Text × Text)
unfolding lex_quoted
lex_ident s = elim (lex_quoted b'"' s) [
  | none ↦ none
  | some (name, rest) ↦ elim name [ [] ↦ none | c ∷ cs ↦ some (clip 63 (c ∷ cs), rest) ]
]

leb-true : (a b : ℕ) → a ≤ b → leb a b ≡ true
leb-true a b h = ground arith

clip-fits : (room : ℕ) (s : Text) → len s ≤ room → clip room s ≡ s
unfolding clip len
clip-fits room [] h = refl
clip-fits room (c ∷ s) h =
    let size : length (utf8_char c) ≤ room = omega arith in
    rw (leb-true (length (utf8_char c)) room size)
      (ap (λ t. c ∷ t) (clip-fits (room - length (utf8_char c)) s (omega arith)))

lex_quoted-quote_ident :
    (name rest : Text)
    → NotQuote b'"' rest
    → lex_quoted b'"' (quote_ident name ++ rest) ≡ some (name, rest)
unfolding lex_quoted quote_ident
lex_quoted-quote_ident name rest h =
    ap (read_quoted b'"') (append_assoc (double b'"' name) (b'"' ∷ []) rest)
    ∙ read-double b'"' name rest h

-- A name of at least one character and at most 63 bytes, whatever characters it holds, quotes included,
-- is read back whole from its quoted form by PostgreSQL's rules for quoted names, and the reading goes
-- on behind it, if what follows does not start with a double quote.
pub lex-quote_ident :
    (c : ℕ) (cs rest : Text)
    → len (c ∷ cs) ≤ 63
    → NotQuote b'"' rest
    → lex_ident (quote_ident (c ∷ cs) ++ rest) ≡ some (c ∷ cs, rest)
unfolding lex_ident
lex-quote_ident c cs rest short h =
    rw (lex_quoted-quote_ident (c ∷ cs) rest h, lex_ident)
      (ap (λ t. some (t, rest)) (clip-fits 63 (c ∷ cs) short))

-- Whatever characters a value holds, quotes included, a reader that takes a doubled quote for one reads
-- the quoted literal back whole, and goes on behind it, if what follows does not start with a single
-- quote.
pub lex-quote_literal :
    (value rest : Text)
    → NotQuote 39 rest
    → lex_quoted 39 (quote_literal value ++ rest) ≡ some (value, rest)
unfolding lex_quoted quote_literal
lex-quote_literal value rest h =
    ap (read_quoted 39) (append_assoc (double 39 value) (39 ∷ []) rest)
    ∙ read-double 39 value rest h
