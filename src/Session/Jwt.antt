-- ===== src/Session/Jwt.antt =====
-- session/jwt.go: short-lived bearer tokens minted from a live session. The library
-- golang-jwt is a parameter: `sign` for `SignedString` of an EdDSA token, `parse` for
-- `ParseWithClaims`; `public` gives an Ed25519 private key's public half, `sha256` is on bytes.
pub mod Minting
pub mod Verifying
pub mod Rotation
pub mod Jwks
mod Tests
use kal.Base.{
  ℕ, Bool, true, false, not, ◌&&◌, ◌||◌, ◌==◌, ◌+◌, ◌*◌, ◌/◌, Option, none, some, List, [], ◌∷◌,
  Text, String, codes, text_eq, is_empty, if◌then◌else◌, find, length, ltb, map,
}
use kal.Base.Int.{ℤ, pos, negsuc}
use kal.Base64.{encode, url}
use kal.Kalerr.{Result, ok, err, Failure, coded, coded_by, plain, invalid_input, unauthenticated}
use kal.Authz.Directive.{second}
use kal.Authz.Principal.{Principal, Context, require}
use kal.World.{World, Action, fail, fail_if, lift, ◌>>=◌, ◌>>◌}

abbrev pub max_token_ttl : ℕ
max_token_ttl = 5 * (60 * second)

abbrev pub private_key_size : ℕ
private_key_size = 64

-- `keys` and `kids` are read together at one index, so they are kept as pairs, the kid first.
pub record Jwt : Type 0 where
  pub issuer : Text
  pub keys : List (Text × Text)

-- `Claims`; the expiry counts seconds.
pub record Claims : Type 0 where
  pub user_id : Text
  pub session_id : Text
  pub audience : Text
  pub expires_at : ℕ

-- A value of `jwt.MapClaims`.
pub data Claim : Type 0 where
  str : Text → Claim
  num : ℕ → Claim
  other : Claim

-- What `keyfunc` reads of the unverified token.
pub record Unverified : Type 0 where
  pub is_eddsa : Bool
  pub kid : Option Text

-- The key that `keyfunc` names, or the set of keys to try.
pub data KeyChoice : Type 0 where
  one : Text → KeyChoice
  any_of : List Text → KeyChoice

-- Which of the library's errors the joined error of a parse is, by `errors.Is`.
pub record ParseError : Type 0 where
  pub signature_invalid : Bool
  pub malformed : Bool
  pub unverifiable : Bool
  pub expired : Bool
  pub not_valid_yet : Bool

-- The options of the call.
pub record ParserOptions : Type 0 where
  pub valid_methods : List Text
  pub issuer : Text
  pub audience : Text
  pub expiration_required : Bool

pub data Parsed : Type 0 where
  accepted : List (Text × Claim) → Parsed
  rejected : ParseError → Parsed

-- `thumbprint`.
unfoldable pub thumbprint : (Text → Text) → Text → Text
unfolding encode
thumbprint sha256 pub_key = encode url (sha256 pub_key)

module _ (public sha256 : Text → Text) where
  -- The loop over the keys: the first of a wrong size is the error,
  -- whose length the message leaves out.
  unfoldable pub with_kids : List Text → Result (List (Text × Text))
  unfolding thumbprint
  with_kids [] = ok []
  with_kids (k ∷ ks) =
      let rest = with_kids ks in
      if not (length k == private_key_size)
      then err (plain "session: Ed25519 private key must be 64 bytes")
      else elim rest [ ok pairs ↦ ok ((thumbprint sha256 (public k), k) ∷ pairs) | err e ↦ err e ]

  abbrev pub no_issuer : Failure
  no_issuer =
      plain
        "session: JWT issuer is required — a verifier that does not check iss accepts tokens from any issuer it trusts"

  -- `NewJWT`.
  unfoldable pub new_jwt : Text → List Text → Result Jwt
  unfolding with_kids
  new_jwt issuer [] =
      if is_empty issuer
      then err no_issuer
      else err (plain "session: at least one Ed25519 key is required")
  new_jwt issuer (k ∷ ks) = if is_empty issuer then err no_issuer else elim (with_kids (k ∷ ks)) [
    | ok pairs ↦ ok (record { issuer = issuer; keys = pairs })
    | err e ↦ err e
  ]

-- The lifetime that is asked for, capped; zero and less mean the cap.
unfoldable pub capped : ℤ → ℕ
capped (negsuc n) = max_token_ttl
capped (pos n) = if n == 0 || ltb max_token_ttl n then max_token_ttl else n

abbrev pub claims_of : Jwt → Principal → Text → ℕ → ℕ → List (Text × Claim)
claims_of j p audience now ttl =
    (codes "iss", str j.issuer)
    ∷ (codes "sub", str p.user_id)
    ∷ (codes "aud", str audience)
    ∷ (codes "sid", str p.session_id)
    ∷ (codes "iat", num (now / second))
    ∷ (codes "exp", num ((now + ttl) / second))
    ∷ []

abbrev pub no_audience : Failure
no_audience =
    coded invalid_input
      "an audience is required — a token nobody checks the audience of authenticates against every service that trusts the issuer"

abbrev pub no_verifier : Failure
no_verifier = coded invalid_input "an audience is required to verify against"

-- A `Jwt` without keys is not built; where the source would index out of range, this is an error.
abbrev pub sign_first :
    (Text → List (Text × Claim) → Text → Result Text)
    → List (Text × Text)
    → List (Text × Claim)
    → Result Text
sign_first sign [] cs = err (plain "index out of range")
sign_first sign ((kid, key) ∷ rest) cs = sign kid cs key

abbrev pub mint :
    (Text → List (Text × Claim) → Text → Result Text) → Jwt → ℤ → Text → Principal → Action Text
mint sign j ttl audience p w =
    (sign_first sign j.keys (claims_of j p audience w.clock (capped ttl)), w)

-- `Token`.
unfoldable pub token :
    (Text → List (Text × Claim) → Text → Result Text) → Jwt → Context → ℤ → Text → Action Text
unfolding require capped
token sign j ctx ttl audience = lift (require ctx) >>= λ p.
    fail_if (is_empty audience) no_audience >> mint sign j ttl audience p

abbrev pub has_kid : Text → Text × Text → Bool
has_kid kid (k, key) = text_eq k kid

abbrev pub all_public : (Text → Text) → Jwt → List Text
all_public public j = map (λ e. public e.1) j.keys

-- `keyfunc`.
unfoldable pub keyfunc : (Text → Text) → Jwt → Unverified → Result KeyChoice
unfolding find text_eq
keyfunc public j t =
    if not t.is_eddsa then err (plain "session: unexpected signing method") else elim t.kid [
      | none ↦ ok (any_of (all_public public j))
      | some kid ↦ elim (find (has_kid kid) j.keys) [
        | none ↦ ok (any_of (all_public public j))
        | some (k, key) ↦ ok (one (public key))
      ]
    ]

-- `invalidToken`.
abbrev pub invalid_token : Failure → Failure
invalid_token e = coded_by unauthenticated "invalid token" e

-- The text of the library's error is left out.
abbrev pub parse_failure : ParseError → Failure
parse_failure e = plain "jwt"

abbrev pub is_fatal : ParseError → Bool
is_fatal e = e.signature_invalid || (e.malformed || e.unverifiable)

abbrev pub is_late : ParseError → Bool
is_late e = e.expired || e.not_valid_yet

-- The switch over the joined error, the fatal conditions first.
unfoldable pub flatten : ParseError → Failure
flatten e =
    if is_fatal e
    then invalid_token (parse_failure e)
    else if is_late e
    then coded_by unauthenticated "token has expired" (parse_failure e)
    else invalid_token (parse_failure e)

abbrev pub named_claim : Text → Text × Claim → Bool
named_claim n (m, c) = text_eq m n

-- `claims[name].(string)`: what is missing or no string is empty.
unfoldable pub text_claim : Text → List (Text × Claim) → Text
unfolding find text_eq
text_claim n cs = elim (find (named_claim n) cs) [ some (m, str t) ↦ t | _ ↦ [] ]

unfoldable pub expiration_time : List (Text × Claim) → Option ℕ
unfolding find text_eq
expiration_time cs = elim (find (named_claim (codes "exp")) cs) [
  | some (m, num n) ↦ some n
  | _ ↦ none
]

abbrev pub options_of : Jwt → Text → ParserOptions
options_of j audience = record {
  valid_methods = codes "EdDSA" ∷ [];
  issuer = j.issuer;
  audience = audience;
  expiration_required = true;
}

abbrev pub asserted : Text → List (Text × Claim) → Result Claims
asserted audience cs =
    if is_empty (text_claim (codes "sub") cs)
    then err (invalid_token (plain "no sub claim"))
    else elim (expiration_time cs) [
      | none ↦ err (invalid_token (plain "no exp claim"))
      | some exp ↦ ok (record {
        user_id = text_claim (codes "sub") cs;
        session_id = text_claim (codes "sid") cs;
        audience = audience;
        expires_at = exp;
      })
    ]

-- `Verify`.
unfoldable pub verify :
    (Text → Text)
    → (Text → (Unverified → Result KeyChoice) → ParserOptions → Parsed)
    → Jwt
    → Text
    → Text
    → Result Claims
unfolding keyfunc flatten text_claim expiration_time
verify public parse j tok audience =
    if is_empty audience
    then err no_verifier
    else elim (parse tok (keyfunc public j) (options_of j audience)) [
      | rejected e ↦ err (flatten e)
      | accepted cs ↦ asserted audience cs
    ]
