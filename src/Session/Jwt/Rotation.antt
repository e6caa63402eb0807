-- ===== src/Session/Jwt/Rotation.antt =====
-- A token that one key set minted, at a verifier with another one that overlaps with it.
use kal.Base.{
  ℕ, ◌+◌, ◌/◌, ◌<◌, ◌≡◌, refl, sym, ap, subst, ◌∙◌, Bool, true, false, not, ◌==◌, ◌||◌, some, List,
  [], ◌∷◌, Text, codes, text_eq, text_eq_refl, text_eq_iff, is_empty, any, All, map, find, length,
  Bool-cases, inl, inr, if◌then◌else◌,
}
use kal.Base.Int.{ℤ}
use kal.Kalerr.{Result, ok, err, plain}
use kal.Authz.Directive.{second}
use kal.Authz.Principal.{Principal, Context, require}
use kal.World.{World}
use kal.Session.Jwt.Minting.{same_jwt}
use kal.Session.Jwt.{
  Jwt, Claim, Unverified, KeyChoice, one, any_of, ParserOptions, options_of, Parsed, accepted,
  capped, claims_of, token, sign_first, has_kid, keyfunc, text_claim, expiration_time, verify,
  with_kids, new_jwt, thumbprint, private_key_size, no_issuer,
}

-- The key may be tried.
abbrev pub Admits : KeyChoice → Text → Type 0
Admits (one k) key = k ≡ key
Admits (any_of ks) key = any (text_eq key) ks ≡ true

-- What golang-jwt documents of a token that it signed over these claims: it is accepted, with the
-- claims, where the key function names the key it was signed with for an EdDSA token with its kid,
-- EdDSA is among the methods, the issuer and the audience are those claimed, and at `now`, in seconds,
-- it has not expired.
abbrev pub Faithful :
    (Text → Text)
    → (Text → List (Text × Claim) → Text → Result Text)
    → (Text → (Unverified → Result KeyChoice) → ParserOptions → Parsed)
    → ℕ
    → List (Text × Claim)
    → Type 0
Faithful public sign parse now cs =
    (kid key tok : Text) (kf : Unverified → Result KeyChoice) (o : ParserOptions)
    (choice : KeyChoice) (exp : ℕ)
    → sign kid cs key ≡ ok tok
    → kf (record { is_eddsa = true; kid = some kid }) ≡ ok choice
    → Admits choice (public key)
    → any (text_eq (codes "EdDSA")) o.valid_methods ≡ true
    → text_claim (codes "iss") cs ≡ o.issuer
    → text_claim (codes "aud") cs ≡ o.audience
    → expiration_time cs ≡ some exp
    → now < exp
    → parse tok kf o ≡ accepted cs

module _ (public sha256 : Text → Text) where
  abbrev kid_of : Text → Text
  kid_of k = thumbprint sha256 (public k)

  abbrev entry : Text → Text × Text
  entry k = (kid_of k, k)

  with_kids-map :
      (ks : List Text) {pairs : List (Text × Text)}
      → with_kids public sha256 ks ≡ ok pairs
      → pairs ≡ map entry ks
  unfolding with_kids
  with_kids-map [] {pairs} h = cc h
  with_kids-map (k ∷ ks) {pairs} h =
      by_rest (not (length k == private_key_size)) (with_kids public sha256 ks)
        (λ rest e. with_kids-map ks e) h
    where
      by_rest :
          (b : Bool) (r : Result (List (Text × Text)))
          → ((rest : List (Text × Text)) → r ≡ ok rest → rest ≡ map entry ks)
          → (if b
              then err (plain "session: Ed25519 private key must be 64 bytes")
              else elim r [ ok rest ↦ ok (entry k ∷ rest) | err e ↦ err e ])
            ≡ ok pairs
          → pairs ≡ entry k ∷ map entry ks
      by_rest true r more q = absurd (cc q)
      by_rest false (err e) more q = absurd (cc q)
      by_rest false (ok rest) more q = cc (q, more rest refl)

  new_jwt-keys :
      (issuer : Text) (ks : List Text) {j : Jwt}
      → new_jwt public sha256 issuer ks ≡ ok j
      → (j.issuer ≡ issuer) × (j.keys ≡ map entry ks)
  unfolding new_jwt
  new_jwt-keys issuer [] {j} h = elim (Bool-cases (is_empty issuer)) [
    | inl blank ↦ absurd (cc (rw blank at h))
    | inr named ↦ absurd (cc (rw named at h))
  ]
  new_jwt-keys issuer (k ∷ ks) {j} h =
      by_tests (is_empty issuer) (with_kids public sha256 (k ∷ ks))
        (λ pairs e. with_kids-map (k ∷ ks) e) h
    where
      by_tests :
          (b : Bool) (r : Result (List (Text × Text)))
          → ((pairs : List (Text × Text)) → r ≡ ok pairs → pairs ≡ map entry (k ∷ ks))
          → (if b then err (no_issuer public sha256) else elim r [
            | ok pairs ↦ ok (record { issuer = issuer; keys = pairs })
            | err e ↦ err e
          ])
            ≡ ok j
          → (j.issuer ≡ issuer) × (j.keys ≡ map entry (k ∷ ks))
      by_tests true r shown q = absurd (cc q)
      by_tests false (err e) shown q = absurd (cc q)
      by_tests false (ok pairs) shown q =
          let same = same_jwt _ j q in
          (ap (λ x. x.issuer) (sym same), ap (λ x. x.keys) (sym same) ∙ shown pairs refl)

  -- Two keys with one thumbprint are one key.
  abbrev pub Apart : Text → List Text → Type 0
  Apart k = All (λ x. text_eq (kid_of x) (kid_of k) ≡ true → public x ≡ public k)

  find-kid :
      (k : Text) (ks : List Text)
      → any (text_eq k) ks ≡ true
      → Apart k ks
      → (e : Text × Text) × (find (has_kid (kid_of k)) (map entry ks) ≡ some e)
        × (public e.1 ≡ public k)
  unfolding find any
  find-kid k [] h apart = cc
  find-kid k (x ∷ xs) h apart = elim (Bool-cases (text_eq (kid_of x) (kid_of k))) [
    | inl hit ↦ (entry x, rw hit refl, apart.0 hit)
    | inr miss ↦
        let (e, found, same) = find-kid k xs (elsewhere (text_eq k x) refl miss h) apart.1 in
        (e, rw miss found, same)
  ]
    where
      elsewhere :
          (b : Bool)
          → text_eq k x ≡ b
          → text_eq (kid_of x) (kid_of k) ≡ false
          → (b || any (text_eq k) xs) ≡ true
          → any (text_eq k) xs ≡ true
      elsewhere false e miss q = q
      elsewhere true e miss q = absurd (
          cc (
            miss,
            subst (λ y. text_eq (kid_of y) (kid_of k) ≡ true) ((text_eq_iff k x).0 e)
                (text_eq_refl (kid_of k)),
          ))

  module _ (sign : Text → List (Text × Claim) → Text → Result Text)
      (parse : Text → (Unverified → Result KeyChoice) → ParserOptions → Parsed) where
    -- What a minted token was signed over.
    token-signed :
        (j : Jwt) (ctx : Context) (ttl : ℤ) (audience : Text) (w : World) (p : Principal)
        {tok : Text} {w' : World}
        → ctx.principal ≡ some p
        → token sign j ctx ttl audience w ≡ (ok tok, w')
        → (is_empty audience ≡ false)
          × (sign_first sign j.keys (claims_of j p audience w.clock (capped ttl)) ≡ ok tok)
    unfolding token require
    token-signed j ctx ttl audience w p {tok} {w'} known h = elim (Bool-cases (is_empty audience)) [
      | inl blank ↦ absurd (cc (rw (known, blank) at h))
      | inr heard ↦ (heard, ap (λ (x : Result Text × World). x.0) (rw (known, heard) at h))
    ]

    -- A token that was minted verifies, until it expires, at every verifier of the same issuer and
    -- audience that still holds the key that signed it, in whatever place: it asserts the caller, the
    -- caller's session and the expiry that it was minted with. It is assumed that no two of the
    -- verifier's keys have one thumbprint, that the caller has an id, and that the library accepts
    -- what it signed.
    pub token-verify :
        (issuer k : Text) (ks held : List Text) (ctx : Context) (ttl : ℤ) (audience : Text)
        (w : World) (now : ℕ) {j : Jwt} {verifier : Jwt} {p : Principal} {tok : Text} {w' : World}
        → new_jwt public sha256 issuer (k ∷ ks) ≡ ok j
        → new_jwt public sha256 issuer held ≡ ok verifier
        → any (text_eq k) held ≡ true
        → Apart k held
        → ctx.principal ≡ some p
        → is_empty p.user_id ≡ false
        → token sign j ctx ttl audience w ≡ (ok tok, w')
        → now < (w.clock + capped ttl) / second
        → Faithful public sign parse now (claims_of j p audience w.clock (capped ttl))
        → verify public parse verifier tok audience
          ≡ ok (record {
            user_id = p.user_id;
            session_id = p.session_id;
            audience = audience;
            expires_at = (w.clock + capped ttl) / second;
          })
    unfolding verify keyfunc text_claim expiration_time find text_eq any
    token-verify issuer k ks held ctx ttl audience w now {j} {verifier} {p} {tok} {w'} minting
          verifying kept apart known named h early faithful =
        let (heard, signed) = token-signed j ctx ttl audience w p known h in
        let cs = claims_of j p audience w.clock (capped ttl) in
        let by_k : sign (kid_of k) cs k ≡ ok tok =
          subst (λ es. sign_first sign es cs ≡ ok tok) (new_jwt-keys issuer (k ∷ ks) minting).1
            signed in
        let (e, found, same) = find-kid k held kept apart in
        let chosen : keyfunc public verifier (record { is_eddsa = true; kid = some (kid_of k) })
            ≡ ok (one (public e.1)) =
          rw ((new_jwt-keys issuer held verifying).1, found) refl in
        let passed : parse tok (keyfunc public verifier) (options_of verifier audience)
            ≡ accepted cs =
          faithful (kid_of k) k tok (keyfunc public verifier) (options_of verifier audience)
            (one (public e.1)) _ by_k chosen same refl
            ((new_jwt-keys issuer (k ∷ ks) minting).0 ∙ sym (new_jwt-keys issuer held verifying).0)
            refl refl early in
        rw (heard, passed, named) refl
