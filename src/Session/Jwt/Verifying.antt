-- ===== src/Session/Jwt/Verifying.antt =====
-- What a verified token has passed, and how one that was not is reported.
use kal.Base.{
  ℕ, Bool, true, false, Option, none, some, List, ◌≡◌, ◌⊎◌, refl, sym, ap, ◌∙◌, Text, codes,
  is_empty, if◌then◌else◌, String, any, map, All, All-mono, text_eq, text_eq_refl, [], ◌∷◌, arith,
  find, find-any, Bool-cases, Option-cases, inl, inr, subst,
}
use kal.Kalerr.{Result, ok, err, as_error, Code, plain}
use kal.Session.Jwt.{
  Jwt, Claim, Claims, text_claim, expiration_time, Unverified, KeyChoice, one, any_of, has_kid,
  all_public, keyfunc, verify, asserted, flatten, Parsed, accepted, rejected, ParserOptions,
  options_of, no_verifier, invalid_token,
}

-- What the claims say is what is returned.
abbrev pub Reads : Text → List (Text × Claim) → Claims → Type 0
Reads audience cs c =
    (c.user_id ≡ text_claim (codes "sub") cs)
    × (is_empty c.user_id ≡ false)
    × (c.session_id ≡ text_claim (codes "sid") cs)
    × (c.audience ≡ audience)
    × (expiration_time cs ≡ some c.expires_at)

same_claims : (c d : Claims) → ◌≡◌ {A = Result Claims} (ok c) (ok d) → c ≡ d
same_claims c d h = cc h

same_choice : (c d : KeyChoice) → ◌≡◌ {A = Result KeyChoice} (ok c) (ok d) → c ≡ d
same_choice c d h = cc h

asserted-Reads :
    (audience : Text) (cs : List (Text × Claim)) (c : Claims)
    → asserted audience cs ≡ ok c
    → Reads audience cs c
asserted-Reads audience cs c h =
    by_claims (is_empty (text_claim (codes "sub") cs)) (expiration_time cs) refl refl h
  where
    by_claims :
        (b : Bool) (o : Option ℕ)
        → is_empty (text_claim (codes "sub") cs) ≡ b
        → expiration_time cs ≡ o
        → (if b then err (invalid_token (plain "no sub claim")) else elim o [
          | none ↦ err (invalid_token (plain "no exp claim"))
          | some exp ↦ ok (record {
            user_id = text_claim (codes "sub") cs;
            session_id = text_claim (codes "sid") cs;
            audience = audience;
            expires_at = exp;
          })
        ])
          ≡ ok c
        → Reads audience cs c
    by_claims true o e f q = absurd (cc q)
    by_claims false none e f q = absurd (cc q)
    by_claims false (some exp) e f q =
        let same = same_claims _ c q in
        (
          ap (λ (x : Claims). x.user_id) (sym same),
          ap (λ (x : Claims). is_empty x.user_id) (sym same) ∙ e,
          ap (λ (x : Claims). x.session_id) (sym same),
          ap (λ (x : Claims). x.audience) (sym same),
          f ∙ ap (λ (x : Claims). some x.expires_at) same,
        )

module _ (public : Text → Text)
    (parse : Text → (Unverified → Result KeyChoice) → ParserOptions → Parsed) (j : Jwt)
    (tok audience : Text) where
  -- What the parser is asked to check.
  abbrev pub Strict : ParserOptions → Type 0
  Strict o =
      (o.valid_methods ≡ codes "EdDSA" ∷ [])
      × (o.issuer ≡ j.issuer)
      × (o.audience ≡ audience)
      × (o.expiration_required ≡ true)

  -- A key that the verifier holds.
  abbrev pub Holds : Text → Type 0
  Holds key = any (λ e. text_eq (public e.1) key) j.keys ≡ true

  abbrev pub Own : KeyChoice → Type 0
  Own (one key) = Holds key
  Own (any_of keys) = All Holds keys

  All-public-Holds :
      (es : List (Text × Text))
      → All (λ key. any (λ e. text_eq (public e.1) key) es ≡ true) (map (λ e. public e.1) es)
  unfolding any
  All-public-Holds [] = tt
  All-public-Holds ((kid, key) ∷ es) = (
    rw (text_eq_refl (public key)) refl,
    All-mono (λ x. any (λ e. text_eq (public e.1) x) es ≡ true) _ (map (λ e. public e.1) es)
        (λ x h. ground (arith, h)) (All-public-Holds es),
  )

  keyfunc-Own :
      (t : Unverified) (choice : KeyChoice)
      → keyfunc public j t ≡ ok choice
      → (t.is_eddsa ≡ true) × Own choice
  unfolding keyfunc
  keyfunc-Own t choice h = elim (Bool-cases t.is_eddsa) [
    | inr e ↦ absurd (cc (rw (e, keyfunc) at h))
    | inl e ↦ (e, by_kid e (Option-cases t.kid))
  ]
    where
      owned : (c : KeyChoice) → Own c → ◌≡◌ {A = Result KeyChoice} (ok c) (ok choice) → Own choice
      owned c own q = subst Own (same_choice c choice q) own

      by_entry :
          (kid : Text)
          → t.is_eddsa ≡ true
          → t.kid ≡ some kid
          → (find (has_kid kid) j.keys ≡ none)
            ⊎ ((e : Text × Text) × (find (has_kid kid) j.keys ≡ some e))
          → Own choice
      by_entry kid e k (inl absent) =
          owned (any_of (all_public public j)) (All-public-Holds j.keys)
            (rw (e, keyfunc, k, absent) at h)
      by_entry kid e k (inr ((name, key), found)) =
          owned (one (public key))
            (find-any (has_kid kid) (λ x. text_eq (public x.1) (public key)) j.keys found
              (text_eq_refl (public key)))
            (rw (e, keyfunc, k, found) at h)

      by_kid : t.is_eddsa ≡ true → (t.kid ≡ none) ⊎ ((kid : Text) × (t.kid ≡ some kid)) → Own choice
      by_kid e (inl no_kid) =
          owned (any_of (all_public public j)) (All-public-Holds j.keys)
            (rw (e, keyfunc, no_kid) at h)
      by_kid e (inr (kid, k)) = by_entry kid e k (Option-cases (find (has_kid kid) j.keys))

  -- A token that verifies was accepted by the parser with EdDSA as the only method, this issuer and
  -- this audience to check, an expiry required, and a key function that refuses every token that is
  -- not of EdDSA and otherwise names public halves of this verifier's keys alone; what is returned is
  -- what the accepted token claims, for a user that is named, an audience that is not empty and an
  -- expiry that it has.
  pub verify-Reads :
      {c : Claims}
      → verify public parse j tok audience ≡ ok c
      → (kf : Unverified → Result KeyChoice) × (o : ParserOptions) × (cs : List (Text × Claim))
        × (parse tok kf o ≡ accepted cs)
        × Strict o
        × ((t : Unverified) (choice : KeyChoice)
            → kf t ≡ ok choice
            → (t.is_eddsa ≡ true) × Own choice)
        × (is_empty audience ≡ false)
        × Reads audience cs c
  unfolding verify
  verify-Reads {c} h =
      let (cs, passed, heard, reads) =
        by_answer (is_empty audience) (parse tok (keyfunc public j) (options_of j audience)) refl
          refl h in
      (
        keyfunc public j,
        options_of j audience,
        cs,
        passed,
        (refl, refl, refl, refl),
        keyfunc-Own,
        heard,
        reads,
      )
    where
      by_answer :
          (b : Bool) (r : Parsed)
          → is_empty audience ≡ b
          → parse tok (keyfunc public j) (options_of j audience) ≡ r
          → (if b
              then err no_verifier
              else elim r [ rejected e ↦ err (flatten e) | accepted cs ↦ asserted audience cs ])
            ≡ ok c
          → (cs : List (Text × Claim)) × (parse tok (keyfunc public j) (options_of j audience)
              ≡ accepted cs)
            × (is_empty audience ≡ false)
            × Reads audience cs c
      by_answer true r e f q = absurd (cc q)
      by_answer false (rejected x) e f q = absurd (cc q)
      by_answer false (accepted cs) e f q = (cs, f, e, asserted-Reads audience cs c q)

  -- What a caller is shown of the outcome.
  abbrev pub shown : Result Claims → Option (Code × String)
  shown (ok c) = none
  shown (err e) = as_error e
