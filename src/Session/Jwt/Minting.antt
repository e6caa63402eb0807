-- ===== src/Session/Jwt/Minting.antt =====
-- What a minted token asserts, for how long, and under which key it is verified.
use kal.Base.{
  ℕ, ◌+◌, ◌/◌, ◌≤◌, Bool, true, false, Option, none, some, List, ◌∷◌, ◌≡◌, refl, sym, ap, arith,
  Text, codes, text_eq_refl, is_empty, if◌then◌else◌, not, length, ◌==◌, find,
}
use kal.Base.Int.{ℤ, pos, negsuc}
use kal.Kalerr.{Result, ok, err, plain}
use kal.Authz.Directive.{second}
use kal.Authz.Principal.{Principal, Context, require, authentication_required}
use kal.World.{World, next, lift, fail_if, ◌>>=◌, ◌>>◌}
use kal.Session.Jwt.{
  Jwt, Claim, capped, max_token_ttl, claims_of, token, mint, sign_first, no_audience, text_claim,
  expiration_time, keyfunc, one, with_kids, new_jwt, thumbprint, private_key_size, no_issuer,
}

pub capped_bounds : (ttl : ℤ) → (1 ≤ capped ttl) × (capped ttl ≤ max_token_ttl)
unfolding capped
capped_bounds (negsuc n) = (omega arith, omega arith)
capped_bounds (pos n) = ground arith

capped_seconds :
    (now ttl : ℕ)
    → ttl ≤ max_token_ttl
    → (now / second ≤ (now + ttl) / second) × ((now + ttl) / second ≤ now / second + 300)
capped_seconds now ttl h = (omega arith, omega arith)

-- The claims name the caller, the session, the service and the issuer, and expire at most five
-- minutes after they were issued.
abbrev pub Asserts : Jwt → Principal → Text → ℕ → List (Text × Claim) → Type 0
Asserts j p audience issued cs =
    (text_claim (codes "iss") cs ≡ j.issuer)
    × (text_claim (codes "sub") cs ≡ p.user_id)
    × (text_claim (codes "sid") cs ≡ p.session_id)
    × (text_claim (codes "aud") cs ≡ audience)
    × ((exp : ℕ) × (expiration_time cs ≡ some exp) × (issued ≤ exp) × (exp ≤ issued + 300))

claims_of-Asserts :
    (j : Jwt) (p : Principal) (audience : Text) (now ttl : ℕ)
    → ttl ≤ max_token_ttl
    → Asserts j p audience (now / second) (claims_of j p audience now ttl)
unfolding text_claim expiration_time
claims_of-Asserts j p audience now ttl h =
    (refl, refl, refl, refl, (_, refl, (capped_seconds now ttl h).0, (capped_seconds now ttl h).1))

-- A token that is minted was signed, for the caller and under the first key, over claims that name
-- the caller, the caller's session, the audience and the issuer; they expire no earlier than they
-- were issued, and at most five minutes later, whatever lifetime was asked for.
pub token-Asserts :
    (sign : Text → List (Text × Claim) → Text → Result Text) (j : Jwt) (ctx : Context) (ttl : ℤ)
    (audience : Text) (w : World) {tok : Text} {w' : World}
    → token sign j ctx ttl audience w ≡ (ok tok, w')
    → (p : Principal) × (cs : List (Text × Claim)) × (ctx.principal ≡ some p)
      × (sign_first sign j.keys cs ≡ ok tok)
      × Asserts j p audience (w.clock / second) cs
unfolding token require
token-Asserts sign j ctx ttl audience w {tok} {w'} h = by_caller ctx.principal refl h
  where
    signed : Principal → Result Text
    signed p = sign_first sign j.keys (claims_of j p audience w.clock (capped ttl))

    by_audience :
        (p : Principal) (b : Bool)
        → ◌≡◌ {A = Result Text × World}
            ((next
              (λ _. mint sign j ttl audience p)
              ((if b then err no_audience else ok (tt {0})), w)))
            (ok tok, w')
        → signed p ≡ ok tok
    by_audience p false k = ap (λ (x : Result Text × World). x.0) k
    by_audience p true k = cc

    by_caller :
        (o : Option Principal)
        → ctx.principal ≡ o
        → ((lift (elim o [ none ↦ err authentication_required | some p ↦ ok p ]) >>= λ p.
              fail_if (is_empty audience) no_audience >> mint sign j ttl audience p)
            w)
          ≡ (ok tok, w')
        → (p : Principal) × (cs : List (Text × Claim)) × (ctx.principal ≡ some p)
          × (sign_first sign j.keys cs ≡ ok tok)
          × Asserts j p audience (w.clock / second) cs
    by_caller none e k = absurd (cc k)
    by_caller (some p) e k = (
      p,
      claims_of j p audience w.clock (capped ttl),
      e,
      by_audience p (is_empty audience) k,
      claims_of-Asserts j p audience w.clock (capped ttl) (capped_bounds ttl).1,
    )

pub same_jwt : (i j : Jwt) → ◌≡◌ {A = Result Jwt} (ok i) (ok j) → i ≡ j
same_jwt i j h = cc h

-- The first key of a `Jwt` that was built, under its thumbprint.
new_jwt-first :
    (public sha256 : Text → Text) (issuer k : Text) (ks : List Text) {j : Jwt}
    → new_jwt public sha256 issuer (k ∷ ks) ≡ ok j
    → (rest : List (Text × Text)) × (j.keys ≡ (thumbprint sha256 (public k), k) ∷ rest)
unfolding new_jwt with_kids
new_jwt-first public sha256 issuer k ks {j} h =
    by_tests (is_empty issuer) (not (length k == private_key_size)) (with_kids public sha256 ks) h
  where
    by_tests :
        (a b : Bool) (r : Result (List (Text × Text)))
        → (if a
            then err (no_issuer public sha256)
            else elim (if b
                then err (plain "session: Ed25519 private key must be 64 bytes")
                else elim r [
                  | ok pairs ↦ ok ((thumbprint sha256 (public k), k) ∷ pairs)
                  | err e ↦ err e
                ]) [ ok pairs ↦ ok (record { issuer = issuer; keys = pairs }) | err e ↦ err e ])
          ≡ ok j
        → (rest : List (Text × Text)) × (j.keys ≡ (thumbprint sha256 (public k), k) ∷ rest)
    by_tests true b r q = absurd (cc q)
    by_tests false true r q = absurd (cc q)
    by_tests false false (err e) q = absurd (cc q)
    by_tests false false (ok pairs) q = (pairs, ap (λ (x : Jwt). x.keys) (sym (same_jwt _ j q)))

-- A token that carries the first key's id is checked with that key alone.
pub keyfunc-new_jwt :
    (public sha256 : Text → Text) (issuer k : Text) (ks : List Text) {j : Jwt}
    → new_jwt public sha256 issuer (k ∷ ks) ≡ ok j
    → keyfunc public j (record { is_eddsa = true; kid = some (thumbprint sha256 (public k)) })
      ≡ ok (one (public k))
unfolding keyfunc find
keyfunc-new_jwt public sha256 issuer k ks {j} h =
    let (rest, e) = new_jwt-first public sha256 issuer k ks h in
    rw (e, text_eq_refl (thumbprint sha256 (public k))) refl
