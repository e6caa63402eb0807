-- ===== src/E2ee/Secret.antt =====
-- e2ee/e2ee.go: `ValidateAuthSecret`, the shape of what arrives in the password field.
use kal.Base.{
  ℕ, ◌+◌, ◌*◌, ◌/◌, ◌<◌, true, Option, none, some, List, [], ◌∷◌, ◌++◌, map, ◌≡◌, ◌↔◌, refl, sym,
  ap, ◌∙◌, arith, Text, codes, cut_prefix, cut_prefix-inv, byte_len, byte_len-ascii,
  length_le-byte_len, length, All, if◌then◌else◌, ◌==◌, ==_iff, Bool-cases, Option-cases, inl, inr,
}
use kal.Kalerr.{Result, ok, err, Failure, coded, invalid_input}
use kal.Base64.{url, encode, decode, digit, digits, pack, group, IsByte, IsDigit}
use kal.Base64.Laws.{url-IsAlphabet, decode-encode, group-IsDigit}
use kal.Base64.Inverse.{
  decode-inv, decode-digits, digits-OneLine, digits-length-le, length-group, pack-inv, length-map,
  digits-IsDigit,
}

abbrev pub auth_secret_prefix : Text
auth_secret_prefix = codes "kal1."

abbrev pub auth_secret_bytes : ℕ
auth_secret_bytes = 32

abbrev pub auth_secret_chars : ℕ
auth_secret_chars = 43

abbrev pub bad_secret : Failure
bad_secret = coded invalid_input "an auth secret is 32 bytes of unpadded base64url after \"kal1.\""

abbrev pub not_a_secret : Failure
not_a_secret =
    coded invalid_input
      "expected a client-derived auth secret, not a password — see docs/e2ee-client.md"

abbrev pub check_decoded : Option (List ℕ) → Result (Unit {0})
check_decoded none = err bad_secret
check_decoded (some raw) = if length raw == auth_secret_bytes then ok tt else err bad_secret

-- What is asked of the text after the prefix.
unfoldable pub check_rest : Text → Result (Unit {0})
unfolding decode byte_len
check_rest rest =
    if byte_len rest == auth_secret_chars
    then check_decoded (decode true url rest)
    else err bad_secret

-- `ValidateAuthSecret`.
unfoldable pub validate_auth_secret : Text → Result (Unit {0})
unfolding cut_prefix check_rest
validate_auth_secret s = elim (cut_prefix s auth_secret_prefix) [
  | none ↦ err not_a_secret
  | some rest ↦ check_rest rest
]

-- The encoding of thirty-two bytes.
abbrev pub Encodes : Text → List ℕ → Type 0
Encodes rest bytes =
    All IsByte bytes × (length bytes ≡ auth_secret_bytes) × (rest ≡ encode url bytes)

digits-ascii : (ds : List ℕ) → All IsDigit ds → All (λ c. c < 128) (map (digit url) ds)
unfolding digit
digits-ascii [] k = tt
digits-ascii (d ∷ ds) k = (ground (arith, k.0), digits-ascii ds k.1)

byte_len-encode :
    (bytes : List ℕ) → All IsByte bytes → byte_len (encode url bytes) ≡ (4 * length bytes + 2) / 3
unfolding encode
byte_len-encode bytes h =
    byte_len-ascii (map (digit url) (group bytes))
      (digits-ascii (group bytes) (group-IsDigit bytes h))
    ∙ length-map (digit url) (group bytes)
    ∙ length-group bytes

check_rest-accepts : (rest : Text) (bytes : List ℕ) → Encodes rest bytes → check_rest rest ≡ ok tt
unfolding check_rest
check_rest-accepts rest bytes (h, l, e) =
    let width : byte_len (encode url bytes) ≡ 43 = omega (arith, byte_len-encode bytes h, l) in
    rw (e, width, decode-encode true url bytes url-IsAlphabet h, l) refl

check_decoded-inv :
    (o : Option (List ℕ))
    → check_decoded o ≡ ok tt
    → (raw : List ℕ) × (o ≡ some raw) × (length raw ≡ auth_secret_bytes)
check_decoded-inv none h = cc
check_decoded-inv (some raw) h = elim (Bool-cases (length raw == auth_secret_bytes)) [
  | inl e ↦ (raw, refl, (==_iff (length raw) auth_secret_bytes).0 e)
  | inr e ↦ absurd (cc (rw e at h))
]

check_rest-Encodes : (rest : Text) → check_rest rest ≡ ok tt → (bytes : List ℕ) × Encodes rest bytes
unfolding check_rest
check_rest-Encodes rest h = elim (Bool-cases (byte_len rest == auth_secret_chars)) [
  | inr e ↦ absurd (cc (rw e at h))
  | inl e ↦
      let (raw, ed, l) = check_decoded-inv (decode true url rest) (rw e at h) in
      let (ds, es, ep) = decode-digits url rest {bytes = raw} ed in
      let g : length ds ≡ length rest = same_length raw ds e es ep l in
      let (same, all) =
        decode-inv url rest {bytes = raw} url-IsAlphabet (digits-OneLine url rest es g) ed in
      (raw, (all, l, sym same))
]
  where
    same_length :
        (raw ds : List ℕ)
        → (byte_len rest == auth_secret_chars) ≡ true
        → digits url rest ≡ some ds
        → pack true ds ≡ some raw
        → length raw ≡ auth_secret_bytes
        → length ds ≡ length rest
    same_length raw ds e es ep l =
        let packed = (pack-inv ds {bytes = raw} (digits-IsDigit url rest url-IsAlphabet es) ep).0 in
        omega (
          arith,
          (==_iff (byte_len rest) auth_secret_chars).0 e,
          length_le-byte_len rest,
          digits-length-le url rest {ds = ds} es,
          length-group raw,
          ap length packed,
          l,
        )

-- `ValidateAuthSecret` accepts exactly the texts "kal1." followed by the unpadded base64url encoding
-- of thirty-two bytes: no other length, no line end, no padding and no non-canonical last character.
-- Since the encoding determines its bytes and is determined by them, one secret has one form.
pub validate_auth_secret_iff :
    (s : Text)
    → (validate_auth_secret s ≡ ok tt) ↔ (
        (bytes : List ℕ) × All IsByte bytes
        × (length bytes ≡ auth_secret_bytes)
        × (s ≡ auth_secret_prefix ++ encode url bytes))
unfolding validate_auth_secret
validate_auth_secret_iff s = (accepted, canonical)
  where
    accepted :
        validate_auth_secret s ≡ ok tt
        → (bytes : List ℕ) × All IsByte bytes
          × (length bytes ≡ auth_secret_bytes)
          × (s ≡ auth_secret_prefix ++ encode url bytes)
    accepted h = elim (Option-cases (cut_prefix s auth_secret_prefix)) [
      | inl e ↦ absurd (cc (rw e at h))
      | inr (rest, e) ↦
          let (bytes, (all, l, q)) = check_rest-Encodes rest (rw e at h) in
          (
            bytes,
            all,
            l,
            cut_prefix-inv s auth_secret_prefix {r = rest} e ∙ ap (λ r. auth_secret_prefix ++ r) q,
          )
    ]

    canonical :
        (bytes : List ℕ) × All IsByte bytes
          × (length bytes ≡ auth_secret_bytes)
          × (s ≡ auth_secret_prefix ++ encode url bytes)
        → validate_auth_secret s ≡ ok tt
    canonical (bytes, all, l, q) = rw q (check_rest-accepts (encode url bytes) bytes (all, l, refl))
