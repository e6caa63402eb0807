-- ===== src/Session/Jwt/Tests.antt =====
-- Tests of the tokens, with a signer that answers with the key and a parser for each outcome.
use kal.Base.{
  ◌/◌, true, false, some, List, [], ◌∷◌, ◌≡◌, refl, Text, codes, find, text_eq, is_empty, ◌++◌,
  subst, any, arith, All,
}
use kal.Base.Int.{pos}
use kal.Base64.{digit, IsByte}
use kal.Kalerr.{Result, ok, err, as_error, unauthenticated}
use kal.Authz.Directive.{second}
use kal.Authz.Principal.{Principal, Context, background, require}
use kal.Session.Tests.{at_twenty, alice_on, same}
use kal.Session.Jwt.{
  Jwt, Claim, str, num, Claims, capped, token, sign_first, max_token_ttl, text_claim,
  expiration_time, Unverified, KeyChoice, keyfunc, thumbprint, ParseError, Parsed, accepted,
  rejected, ParserOptions, verify, claims_of, new_jwt, with_kids, flatten,
}
use kal.Session.Jwt.Jwks.{jwks, names, Matches, jwks-keyfunc}
use kal.Session.Jwt.Minting.{token-Asserts, Asserts}
use kal.Session.Jwt.Rotation.{Faithful, token-verify}
use kal.Session.Jwt.Verifying.{Strict, Own, verify-Reads, Reads, shown}

abbrev key : Text
key = codes "0123456789abcdef0123456789abcdef" ++ codes "0123456789abcdef0123456789abcdef"

abbrev issuer : Jwt
issuer = record { issuer = codes "kal"; keys = (codes "k1", codes "key") ∷ [] }

abbrev as_alice : Context
as_alice = record background { principal = some (alice_on (codes "s1")) }

abbrev sign : Text → List (Text × Claim) → Text → Result Text
sign kid cs k = ok k

capped_day : capped (pos 86_400_000_000_000) ≡ max_token_ttl
unfolding capped
capped_day = refl

token-Asserts_example :
    (p : Principal) × (cs : List (Text × Claim)) × (as_alice.principal ≡ some p)
    × (sign_first sign issuer.keys cs ≡ ok (codes "key"))
    × Asserts issuer p (codes "api") (at_twenty.clock / second) cs
unfolding token require capped
token-Asserts_example =
    token-Asserts sign issuer as_alice (pos 60_000_000_000) (codes "api") at_twenty {w' = at_twenty}
      refl

abbrev claimed : List (Text × Claim)
claimed =
    (codes "sub", str (codes "u1")) ∷ (codes "sid", str (codes "s1")) ∷ (codes "exp", num 300) ∷ []

abbrev accepts : Text → (Unverified → Result KeyChoice) → ParserOptions → Parsed
accepts t k o = accepted claimed

abbrev read : Claims
read = record {
  user_id = codes "u1";
  session_id = codes "s1";
  audience = codes "api";
  expires_at = 300;
}

verify-Reads_example :
    (kf : Unverified → Result KeyChoice) × (o : ParserOptions) × (cs : List (Text × Claim))
    × (accepts (codes "t") kf o ≡ accepted cs)
    × Strict same accepts issuer (codes "t") (codes "api") o
    × ((t : Unverified) (choice : KeyChoice)
        → kf t ≡ ok choice
        → (t.is_eddsa ≡ true) × Own same accepts issuer (codes "t") (codes "api") choice)
    × (is_empty (codes "api") ≡ false)
    × Reads (codes "api") cs read
unfolding verify text_claim expiration_time find text_eq
verify-Reads_example = verify-Reads same accepts issuer (codes "t") (codes "api") {c = read} refl

-- Expired, and forged as well.
abbrev forged : ParseError
forged = record {
  signature_invalid = true;
  malformed = false;
  unverifiable = false;
  expired = true;
  not_valid_yet = false;
}

abbrev rejects : Text → (Unverified → Result KeyChoice) → ParserOptions → Parsed
rejects t k o = rejected forged

verify-forged :
    shown same rejects issuer
      (codes "t")
      (codes "api")
      (verify same rejects issuer (codes "t") (codes "api"))
    ≡ some (unauthenticated, "invalid token")
unfolding verify flatten as_error
verify-forged = refl

abbrev newer : Text
newer = codes "fedcba9876543210fedcba9876543210" ++ codes "fedcba9876543210fedcba9876543210"

-- The verifier has the new key before the old one.
abbrev rotated : List Text
rotated = newer ∷ (key ∷ [])

abbrev before : Jwt
before = record { issuer = codes "kal"; keys = (thumbprint same (same key), key) ∷ [] }

abbrev after : Jwt
after = record {
  issuer = codes "kal";
  keys = (thumbprint same (same newer), newer) ∷ ((thumbprint same (same key), key) ∷ []);
}

abbrev minted : List (Text × Claim)
minted = claims_of before (alice_on (codes "s1")) (codes "api") at_twenty.clock 60_000_000_000

-- A library whose token is the kid that it was signed under.
abbrev as_kid : Text → List (Text × Claim) → Text → Result Text
as_kid kid cs k = ok kid

abbrev by_kid : Text → (Unverified → Result KeyChoice) → ParserOptions → Parsed
by_kid tok kf o = elim (kf (record { is_eddsa = true; kid = some tok })) [
  | ok choice ↦ accepted minted
  | err e ↦ rejected forged
]

same_text : (s t : Text) → ◌≡◌ {A = Result Text} (ok s) (ok t) → s ≡ t
same_text s t h = cc h

by_kid-Faithful : Faithful same as_kid by_kid 0 minted
by_kid-Faithful kid k tok kf o choice exp signed chosen admitted methods iss aud expiry early =
    rw
      (
        subst (λ t. kf (record { is_eddsa = true; kid = some t }) ≡ ok choice)
            (same_text kid tok signed) chosen,
        by_kid,
      )
      refl

unequal : false ≡ true → ⊥
unequal h = cc h

token-verify_example :
    verify same by_kid after (thumbprint same key) (codes "api")
    ≡ ok (record {
      user_id = codes "u1";
      session_id = codes "s1";
      audience = codes "api";
      expires_at = 60;
    })
unfolding token require capped new_jwt with_kids any text_eq thumbprint digit
token-verify_example =
    token-verify same same as_kid by_kid (codes "kal") key [] rotated as_alice (pos 60_000_000_000)
      (codes "api") at_twenty 0 {j = before} {verifier = after} {p = alice_on (codes "s1")}
      {w' = at_twenty} refl refl refl ((λ h. absurd (unequal h)), ((λ h. refl), tt)) refl refl refl
      (omega arith) by_kid-Faithful

abbrev bytes_of : Text → Text
bytes_of k = codes "Ab"

bytes_of-IsByte : (k : Text) → All IsByte (bytes_of k)
bytes_of-IsByte k = (omega arith, (omega arith, tt))

jwks-keyfunc_example :
    (c : KeyChoice) × (keyfunc bytes_of issuer (record { is_eddsa = true; kid = some (codes "k1") })
      ≡ ok c)
    × Matches bytes_of
        (jwks bytes_of issuer)
        (find (names bytes_of (codes "k1")) (jwks bytes_of issuer))
        c
jwks-keyfunc_example = jwks-keyfunc bytes_of bytes_of-IsByte issuer (codes "k1")
