-- ===== src/Options/Mapping.antt =====
-- The credential of a user mapping: which one is accepted, and that no error shows it.
use elixir_mcp_lib.Base.{
  ◌≡◌, refl, ap, ◌∙◌, true, false, Option, none, some, List, [], ◌∷◌, ◌++◌, ◌↔◌, inl, inr,
  if◌then◌else◌, Text, codes, text_eq, text_eq_sound, Bool-cases,
}
use elixir_mcp_lib.Errors.{McpError, McpResult, ok, err}
use elixir_mcp_lib.Errors.Results.{
  ◌>>◌, Ensures, returns, fails, Ensures-bind, Ensures-refuse_if, Ensures-returned, Ensures-any,
  Ensures-imp,
}
use elixir_mcp_lib.Options.{
  Net, Credential, token, token_secret, UserMappingOptions, option, check_names,
  user_mapping_option_names, mapping_of, parse_mapping, is_plain_identifier, split_qualified,
}
use elixir_mcp_lib.Options.Qualified.{accepted_pair, split_qualified_pair}
use elixir_mcp_lib.Options.Accepted.{AllKnown, Ensures-check_names}

module _ {Ip : Type 0} (net : Net Ip) where
  -- the one option that gives the credential, with no other beside it
  abbrev pub IsGiven : Option Text → Option Text → Credential → Type 0
  IsGiven t secret (token u) = (t ≡ some u) × (secret ≡ none) × (net.is_blank u ≡ false)
  IsGiven t secret (token_secret schema table) =
      (t ≡ none)
      × (secret ≡ some (schema ++ b'.' ∷ table))
      × (is_plain_identifier schema ≡ true)
      × (is_plain_identifier table ≡ true)

  Ensures-mapping_of :
      (t secret : Option Text)
      → Ensures
          (λ (o : UserMappingOptions). IsGiven t secret o.credential)
          (mapping_of net t secret)
  unfolding mapping_of
  Ensures-mapping_of (some t) (some secret) = fails _
  Ensures-mapping_of none none = fails _
  Ensures-mapping_of (some t) none =
      Ensures-bind _ (λ (o : UserMappingOptions). IsGiven (some t) none o.credential) _
        (Ensures-refuse_if (net.is_blank t) _) (λ _ shown. returns _ (refl, refl, shown))
  Ensures-mapping_of none (some secret) =
      Ensures-bind _ (λ (o : UserMappingOptions). IsGiven none (some secret) o.credential) _
        (Ensures-any (split_qualified secret (codes "token_secret")))
        (λ p h.
          let found = accepted_pair secret (codes "token_secret") p.0 p.1 h in
          returns _ (refl, ap some found.0, found.1, found.2))

  mapping_of_given :
      (t secret : Option Text) (c : Credential)
      → IsGiven t secret c
      → mapping_of net t secret ≡ ok (record { credential = c })
  unfolding mapping_of
  mapping_of_given t secret (token u) (ht, hs, shown) = rw (ht, hs, shown) refl
  mapping_of_given t secret (token_secret schema table) (ht, hs, ps, pt) =
      rw (ht, hs, split_qualified_pair (codes "token_secret") schema table ps pt) refl

  check_names_known :
      (valid : List Text) (what : Text) (opts : List (Text × Text))
      → AllKnown valid opts
      → check_names valid what opts ≡ ok tt
  unfolding check_names
  check_names_known valid what [] h = refl
  check_names_known valid what ((n, v) ∷ opts) (known, h) =
      rw (known, check_names_known valid what opts h) refl

  mapping_accepted :
      (opts : List (Text × Text)) (o : UserMappingOptions)
      → parse_mapping net opts ≡ ok o
      → AllKnown user_mapping_option_names opts
        × IsGiven (option opts (codes "token")) (option opts (codes "token_secret")) o.credential
  unfolding parse_mapping
  mapping_accepted opts o h =
      let Q = λ (o : UserMappingOptions).
        AllKnown user_mapping_option_names opts
        × IsGiven (option opts (codes "token")) (option opts (codes "token_secret")) o.credential in
      Ensures-returned Q o
        (Ensures-bind _ Q _
          (Ensures-check_names user_mapping_option_names (codes "user mapping") opts)
          λ _ known.
            Ensures-imp _ Q (λ o given. (known, given))
              (Ensures-mapping_of (option opts (codes "token"))
                (option opts (codes "token_secret"))))
        h

  -- A user mapping is accepted, with a credential, exactly when it has known options only and the
  -- credential is all that they give: a token that is not blank, or a secret named by two plain
  -- identifiers around a dot, and not both.
  pub parse_mapping_iff :
      (opts : List (Text × Text)) (o : UserMappingOptions)
      → (parse_mapping net opts ≡ ok o) ↔ (
          AllKnown user_mapping_option_names opts
          × IsGiven (option opts (codes "token")) (option opts (codes "token_secret")) o.credential)
  unfolding parse_mapping
  parse_mapping_iff opts o = (
    mapping_accepted opts o,
    λ h.
        rw
          (
            check_names_known user_mapping_option_names (codes "user mapping") opts h.0,
            mapping_of_given (option opts (codes "token")) (option opts (codes "token_secret"))
                o.credential h.1,
          )
          refl,
  )

-- the options with every token replaced by one
abbrev pub with_token : Text → List (Text × Text) → List (Text × Text)
with_token s [] = []
with_token s ((n, v) ∷ opts) = (n, if text_eq n (codes "token") then s else v) ∷ with_token s opts

abbrev replaced : Text → Option Text → Option Text
replaced s none = none
replaced s (some v) = some s

option-with_token :
    (s : Text) (opts : List (Text × Text))
    → option (with_token s opts) (codes "token") ≡ replaced s (option opts (codes "token"))
option-with_token s [] = refl
option-with_token s ((n, v) ∷ opts) = elim (Bool-cases (text_eq n (codes "token"))) [
  | inl here ↦ rw here refl
  | inr other ↦ rw other (option-with_token s opts)
]

option-with_token_secret :
    (s : Text) (opts : List (Text × Text))
    → option (with_token s opts) (codes "token_secret") ≡ option opts (codes "token_secret")
option-with_token_secret s [] = refl
option-with_token_secret s ((n, v) ∷ opts) = elim (Bool-cases (text_eq n (codes "token_secret"))) [
  | inl here ↦ rw (text_eq_sound n (codes "token_secret") here) refl
  | inr other ↦ rw other (option-with_token_secret s opts)
]

check_names-with_token :
    (s : Text) (valid : List Text) (what : Text) (opts : List (Text × Text))
    → check_names valid what (with_token s opts) ≡ check_names valid what opts
unfolding check_names
check_names-with_token s valid what [] = refl
check_names-with_token s valid what ((n, v) ∷ opts) =
    rw (check_names-with_token s valid what opts) refl

module _ {Ip : Type 0} (net : Net Ip) where
  ok-not-err :
      {o : UserMappingOptions} {e : McpError}
      → ◌≡◌ {A = McpResult UserMappingOptions} (ok o) (err e)
      → ⊥
  ok-not-err h = cc

  mapping_of-replaced :
      (s t : Text) (given secret : Option Text) (e : McpError)
      → net.is_blank s ≡ net.is_blank t
      → mapping_of net (replaced s given) secret ≡ err e
      → mapping_of net (replaced t given) secret ≡ err e
  unfolding mapping_of
  mapping_of-replaced s t none secret e same h = h
  mapping_of-replaced s t (some v) (some w) e same h = h
  mapping_of-replaced s t (some v) none e same h = elim (Bool-cases (net.is_blank t)) [
    | inl blank ↦ rw blank (rw (same ∙ blank) at h)
    | inr shown ↦ absurd (ok-not-err (rw (same ∙ shown) at h))
  ]

  after_names :
      (s t : Text) (checked : McpResult (Unit {0})) (given secret : Option Text) (e : McpError)
      → net.is_blank s ≡ net.is_blank t
      → (checked >> mapping_of net (replaced s given) secret) ≡ err e
      → (checked >> mapping_of net (replaced t given) secret) ≡ err e
  after_names s t (err e') given secret e same h = h
  after_names s t (ok u) given secret e same h = mapping_of-replaced s t given secret e same h

  -- No error shows a token: where the options fail with one token, they fail with the same error
  -- with another that is blank or not alike.
  pub parse_mapping-with_token :
      (s t : Text) (opts : List (Text × Text)) (e : McpError)
      → net.is_blank s ≡ net.is_blank t
      → parse_mapping net (with_token s opts) ≡ err e
      → parse_mapping net (with_token t opts) ≡ err e
  unfolding parse_mapping
  parse_mapping-with_token s t opts e same =
      rw
        (
          check_names-with_token s user_mapping_option_names (codes "user mapping") opts,
          check_names-with_token t user_mapping_option_names (codes "user mapping") opts,
          option-with_token s opts,
          option-with_token t opts,
          option-with_token_secret s opts,
          option-with_token_secret t opts,
        )
        (after_names s t (check_names user_mapping_option_names (codes "user mapping") opts)
          (option opts (codes "token")) (option opts (codes "token_secret")) e same)
