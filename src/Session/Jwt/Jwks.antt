-- ===== src/Session/Jwt/Jwks.antt =====
-- session/jwt.go, `JWKS`: the published keys. Their rendering as JSON and the response are I/O.
use kal.Base.{
  ◌≡◌, refl, sym, ap, subst, ◌∙◌, true, Option, none, some, List, [], ◌∷◌, Text, codes, text_eq,
  All, map, find, Bool-cases, Bool, inl, inr,
}
use kal.Base64.{encode, decode, url, IsByte}
use kal.Base64.Laws.{decode-encode, url-IsAlphabet}
use kal.Kalerr.{ok}
use kal.Session.Jwt.{Jwt, KeyChoice, one, any_of, keyfunc, has_kid, all_public}

-- `jwk`.
pub record Jwk : Type 0 where
  pub kty : Text
  pub crv : Text
  pub x : Text
  pub use_of : Text
  pub alg : Text
  pub kid : Text

module _ (public : Text → Text) where
  abbrev jwk_of : Text × Text → Jwk
  jwk_of (kid, key) = record {
    kty = codes "OKP";
    crv = codes "Ed25519";
    use_of = codes "sig";
    alg = codes "EdDSA";
    x = encode url (public key);
    kid = kid;
  }

  -- The keys of the document, in the order of the configuration.
  unfoldable pub jwks : Jwt → List Jwk
  unfolding encode
  jwks j = map jwk_of j.keys

  -- Another verifier's reading of an entry.
  abbrev pub read_key : Jwk → Option Text
  read_key e = decode true url e.x

  abbrev pub names : Text → Jwk → Bool
  names kid e = text_eq e.kid kid

  -- The choice is the published key, or all of them where none is named.
  abbrev pub Matches : List Jwk → Option Jwk → KeyChoice → Type 0
  Matches all (some e) c = (key : Text) × (c ≡ one key) × (read_key e ≡ some key)
  Matches all none c =
      (keys : List Text) × (c ≡ any_of keys) × (map read_key all ≡ map (λ k. some k) keys)

  module _ (bytes : (key : Text) → All IsByte (public key)) where
    read_key_lem : (e : Text × Text) → read_key (jwk_of e) ≡ some (public e.1)
    read_key_lem e = decode-encode true url (public e.1) url-IsAlphabet (bytes e.1)

    read_all :
        (es : List (Text × Text))
        → map read_key (map jwk_of es) ≡ map (λ k. some k) (map (λ e. public e.1) es)
    read_all [] = refl
    read_all (e ∷ es) = rw (read_key_lem e, read_all es) refl

    abbrev entry_of : Option (Text × Text) → Option Jwk
    entry_of none = none
    entry_of (some e) = some (jwk_of e)

    find-jwk :
        (kid : Text) (es : List (Text × Text))
        → find (names kid) (map jwk_of es) ≡ entry_of (find (has_kid kid) es)
    unfolding find
    find-jwk kid [] = refl
    find-jwk kid ((k, key) ∷ es) = elim (Bool-cases (text_eq k kid)) [
      | inl hit ↦ rw hit refl
      | inr miss ↦ rw miss (find-jwk kid es)
    ]

    -- A verifier that has the published document alone chooses the key that kal's own one does: for an
    -- EdDSA token with some kid, the entry of that kid decodes to the key that `keyfunc` names; where
    -- there is no such entry, the entries decode to the keys that it would try. It is assumed that a
    -- public key is made of bytes.
    pub jwks-keyfunc :
        (j : Jwt) (kid : Text)
        → (c : KeyChoice) × (keyfunc public j (record { is_eddsa = true; kid = some kid }) ≡ ok c)
          × Matches (jwks j) (find (names kid) (jwks j)) c
    unfolding keyfunc jwks
    jwks-keyfunc j kid = by_entry (find (has_kid kid) j.keys) refl
      where
        by_entry :
            (o : Option (Text × Text))
            → find (has_kid kid) j.keys ≡ o
            → (c : KeyChoice) × (keyfunc public j (record { is_eddsa = true; kid = some kid })
                ≡ ok c)
              × Matches (jwks j) (find (names kid) (jwks j)) c
        by_entry none e = (
          any_of (all_public public j),
          rw (e, keyfunc) refl,
          subst (λ o. Matches (jwks j) o (any_of (all_public public j)))
              (sym (find-jwk kid j.keys ∙ ap entry_of e))
              (all_public public j, refl, read_all j.keys),
        )
        by_entry (some (k, key)) e = (
          one (public key),
          rw (e, keyfunc) refl,
          subst (λ o. Matches (jwks j) o (one (public key)))
              (sym (find-jwk kid j.keys ∙ ap entry_of e)) (public key, refl, read_key_lem (k, key)),
        )
