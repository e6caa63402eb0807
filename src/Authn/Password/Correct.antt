-- ===== src/Authn/Password/Correct.antt =====
-- `Hasher.Hash` and `Hasher.Verify`: a password verifies against its own hash, and the policy.
use kal.Base.{
  ◌≤◌, ℕ, Bool, true, false, ◌≡◌, ◌↔◌, refl, ap, ◌∙◌, arith, Text, text_eq, text_eq_refl,
  text_eq_iff, has_prefix, length, if◌then◌else◌, All,
}
use kal.Base64.{IsByte}
use kal.Kalerr.{Result, ok, err, plain}
use kal.Authn.Params.{Params, weaker}
use kal.Authn.Phc.Roundtrip.{IsParams, Fits, with_lengths, parse_phc-encode_phc}
use kal.Authn.Password.{Kdf, Hasher, matches, panics, derive, compare_hash}

-- What the derivation promises: as many bytes as it is asked for.
abbrev pub IsKdf : Kdf → Type 0
IsKdf k =
    (password salt : Text) (time memory threads len : ℕ)
    → All IsByte (k.id_key password salt time memory threads len)
      × (length (k.id_key password salt time memory threads len) ≡ len)

module _ (k : Kdf) (h : Hasher) where
  abbrev pub key_of : Text → Text → Text
  key_of password salt =
      k.id_key password salt h.params.time h.params.memory h.params.parallelism h.params.key_len

  not_weaker :
      (p : Params) (salt key : Text)
      → length key ≡ p.key_len
      → weaker (with_lengths p salt key) p ≡ false
  unfolding weaker
  not_weaker p salt key e = ground (arith, e)

  -- A hash made under a hasher's parameters is compared with another password by its key alone.
  compare_hash-derive :
      (password other salt : Text)
      → IsKdf k
      → IsParams h.params
      → 1 ≤ h.params.time
      → 1 ≤ h.params.parallelism
      → Fits salt (key_of password salt)
      → compare_hash k h other (derive k h.params password salt)
        ≡ ok (
            if text_eq (key_of other salt) (key_of password salt)
            then (true, false)
            else (false, false))
  unfolding compare_hash derive has_prefix
  compare_hash-derive password other salt kdf b rounds threads f =
      ap answer (parse_phc-encode_phc h.params salt (key_of password salt) b f)
      ∙ ap (guarded (length (key_of password salt))) (runs rounds threads)
      ∙ ap same_length kept
      ∙ ap not_weak (not_weaker h.params salt (key_of password salt) kept)
    where
      kept : length (key_of password salt) ≡ h.params.key_len
      kept =
          (kdf password salt h.params.time h.params.memory h.params.parallelism h.params.key_len).1

      answer : Result (Params × Text × Text) → Result (Bool × Bool)
      answer r = elim r [
        | err e ↦ err e
        | ok (stored, s, key) ↦
            if panics k stored
            then err (plain "argon2: panic")
            else ok (
                if matches k other stored s key
                then (true, weaker stored h.params)
                else (false, false))
      ]

      runs : 1 ≤ h.params.time → 1 ≤ h.params.parallelism → panics k h.params ≡ false
      runs rounds threads = ground (arith, rounds, threads)

      same_length : ℕ → Result (Bool × Bool)
      same_length n = ok (
          if text_eq (k.id_key other salt h.params.time h.params.memory h.params.parallelism n)
            (key_of password salt)
          then (true, weaker (with_lengths h.params salt (key_of password salt)) h.params)
          else (false, false))

      guarded : ℕ → Bool → Result (Bool × Bool)
      guarded n b = if b then err (plain "argon2: panic") else same_length n

      not_weak : Bool → Result (Bool × Bool)
      not_weak w =
          ok (
            if text_eq (key_of other salt) (key_of password salt)
            then (true, w)
            else (false, false))

  -- `Verify` on a hash that was made under the hasher's own parameters, with a salt of 8 to 64 bytes
  -- and a key length of 16 to 128, which are the lengths that `parsePHC` accepts: the password it was
  -- made of matches and is not to be hashed anew, and another password matches exactly when it
  -- derives the same key under the same salt. It is assumed that the derivation gives as many bytes
  -- as it is asked for and that the costs are within their Go types, with at least one round and one
  -- thread.
  pub verify-derive :
      (password other salt : Text)
      → IsKdf k
      → IsParams h.params
      → 1 ≤ h.params.time
      → 1 ≤ h.params.parallelism
      → All IsByte salt
      → 8 ≤ length salt
      → length salt ≤ 64
      → 16 ≤ h.params.key_len
      → h.params.key_len ≤ 128
      → (compare_hash k h password (derive k h.params password salt) ≡ ok (true, false))
        × ((b : Bool) × (compare_hash k h other (derive k h.params password salt) ≡ ok (b, false))
            × ((b ≡ true) ↔ (key_of other salt ≡ key_of password salt)))
  verify-derive password other salt kdf b rounds threads bytes s_low s_high k_low k_high = (
    compare_hash-derive password password salt kdf b rounds threads fits
        ∙ ap answer (text_eq_refl (key_of password salt)),
    (
      text_eq (key_of other salt) (key_of password salt),
      compare_hash-derive password other salt kdf b rounds threads fits
          ∙ answer-ok (text_eq (key_of other salt) (key_of password salt)),
      text_eq_iff (key_of other salt) (key_of password salt),
    ),
  )
    where
      derived :
          All IsByte (key_of password salt) × (length (key_of password salt) ≡ h.params.key_len)
      derived =
          kdf password salt h.params.time h.params.memory h.params.parallelism h.params.key_len

      fits : Fits salt (key_of password salt)
      fits = record {
        salt_bytes = bytes;
        key_bytes = derived.0;
        salt_low = s_low;
        salt_high = s_high;
        key_low = omega (arith, k_low, derived.1);
        key_high = omega (arith, k_high, derived.1);
      }

      answer : Bool → Result (Bool × Bool)
      answer m = ok (if m then (true, false) else (false, false))

      answer-ok : (m : Bool) → answer m ≡ ok (m, false)
      answer-ok true = refl
      answer-ok false = refl
