-- ===== src/Authn/Phc/Roundtrip.antt =====
-- What `encodePHC` writes, `parsePHC` reads back.
use kal.Base.{
  ℕ, suc, ◌^◌, ◌≤◌, ◌<◌, true, false, some, List, [], ◌∷◌, ◌++◌, map, ◌≡◌, refl, ap, ◌∙◌, arith,
  Text, codes, if◌then◌else◌, ◌==◌, length, All, text_eq, cut_prefix, is_space,
}
use kal.Base.Decimal.{
  print_before, print_fuel-All, scan_uint-print, skip_space, scan_number, take_digits,
}
use kal.Base64.{std, encode, decode, digit, group, IsByte, IsDigit}
use kal.Base64.Laws.{std-IsAlphabet, decode-encode, group-IsDigit}
use kal.Kalerr.{ok, err, plain}
use kal.Authn.Params.{Params}
use kal.Authn.Phc.{
  dollar, version_part, params_part, encode_phc, split, scan_params, scan_memory, scan_time,
  scan_parallelism, cost, parse_phc, parse_parts, decode_parts, decode_salt, decode_key,
  check_lengths, implausible, is_version,
}

abbrev pub Plain : ℕ → Type 0
Plain c = (c == dollar) ≡ false

split-Plain : (s : Text) → All Plain s → split s ≡ s ∷ []
unfolding split
split-Plain [] h = refl
split-Plain (c ∷ s) h = rw (h.0, split-Plain s h.1) refl

split-append : (s rest : Text) → All Plain s → split (s ++ (dollar ∷ rest)) ≡ s ∷ split rest
unfolding split
split-append [] rest h = refl
split-append (c ∷ s) rest h = rw (h.0, split-append s rest h.1) refl

digit-Plain : (d : ℕ) → d < 64 → Plain (digit std d)
unfolding digit
digit-Plain d h = ground arith

print-Plain : (n : ℕ) (tail : Text) → All Plain tail → All Plain (print_before n tail)
unfolding print_before
print-Plain n tail h = print_fuel-All Plain (suc n) n tail (λ d k. ground arith) h

params_part-Plain : (p : Params) → All Plain (params_part p)
unfolding params_part
params_part-Plain p = (
  refl,
  (
    refl,
    print-Plain p.memory _ (
      refl,
      (refl, (refl, print-Plain p.time _ (refl, (refl, (refl, print-Plain p.parallelism [] tt))))),
    ),
  ),
)

encode-Plain : (bytes : List ℕ) → All IsByte bytes → All Plain (encode std bytes)
unfolding encode
encode-Plain bytes h = digits_plain (group bytes) (group-IsDigit bytes h)
  where
    digits_plain : (ds : List ℕ) → All IsDigit ds → All Plain (map (digit std) ds)
    digits_plain [] k = tt
    digits_plain (d ∷ ds) k = (digit-Plain d k.0, digits_plain ds k.1)

-- The bounds of the Go types.
pub record IsParams (p : Params) : Type 0 where
  pub memory : p.memory < 2 ^ 32
  pub time : p.time < 2 ^ 32
  pub parallelism : p.parallelism < 2 ^ 8

scan_params-print :
    (p : Params)
    → IsParams p
    → scan_params (params_part p) ≡ some (cost p.memory p.time p.parallelism)
unfolding scan_params params_part
scan_params-print p b =
    ap scan_memory
      (scan_uint-print (2 ^ 32) p.memory (codes ",t=" ++ print_before p.time last) b.memory refl)
    ∙ ap (scan_time p.memory) (scan_uint-print (2 ^ 32) p.time last b.time refl)
    ∙ ap (scan_parallelism p.memory p.time)
        (scan_uint-print (2 ^ 8) p.parallelism [] b.parallelism tt)
  where
    last : Text
    last = codes ",p=" ++ print_before p.parallelism []

split-encode_phc :
    (p : Params) (salt key : Text)
    → All IsByte salt
    → All IsByte key
    → split (encode_phc p salt key)
      ≡ []
        ∷ (codes "argon2id"
            ∷ (version_part ∷ (params_part p ∷ (encode std salt ∷ (encode std key ∷ [])))))
unfolding encode_phc split
split-encode_phc p salt key hs hk =
    ap front (
      split-append (params_part p) (encode std salt ++ (dollar ∷ encode std key))
        (params_part-Plain p))
    ∙ ap (λ ts. front (params_part p ∷ ts))
        (split-append (encode std salt) (encode std key) (encode-Plain salt hs)
          ∙ ap (λ ts. encode std salt ∷ ts) (split-Plain (encode std key) (encode-Plain key hk)))
  where
    front : List Text → List Text
    front ts = [] ∷ (codes "argon2id" ∷ (version_part ∷ ts))

-- The lengths that `parsePHC` accepts.
pub record Fits (salt key : Text) : Type 0 where
  pub salt_bytes : All IsByte salt
  pub key_bytes : All IsByte key
  pub salt_low : 8 ≤ length salt
  pub salt_high : length salt ≤ 64
  pub key_low : 16 ≤ length key
  pub key_high : length key ≤ 128

abbrev pub with_lengths : Params → Text → Text → Params
with_lengths p salt key = record p { salt_len = length salt; key_len = length key }

check_lengths-Fits :
    (p : Params) (salt key : Text)
    → Fits salt key
    → check_lengths p salt key ≡ ok (with_lengths p salt key, salt, key)
check_lengths-Fits p salt key f =
    ap
      (λ b.
        if b
        then err (plain "authn: implausible salt or key length")
        else ok (with_lengths p salt key, salt, key))
      plausible
  where
    plausible : implausible salt key ≡ false
    plausible = ground (arith, f.salt_low, f.salt_high, f.key_low, f.key_high)

is_version-written : is_version version_part ≡ true
unfolding is_version cut_prefix skip_space scan_number take_digits is_space
is_version-written = refl

parse_parts-six :
    (params salt key : Text)
    → parse_parts ([] ∷ (codes "argon2id" ∷ (version_part ∷ (params ∷ (salt ∷ (key ∷ []))))))
      ≡ decode_parts salt key (scan_params params)
unfolding text_eq
parse_parts-six params salt key =
    ap
      (λ b.
        if b
        then decode_parts salt key (scan_params params)
        else err (plain "authn: unsupported argon2 version"))
      is_version-written

-- `parsePHC` reads what `encodePHC` wrote: for costs within their Go types, a salt of 8 to 64 bytes
-- and a key of 16 to 128, it gives back the costs, the salt and the key, with their lengths as the
-- stored ones.
pub parse_phc-encode_phc :
    (p : Params) (salt key : Text)
    → IsParams p
    → Fits salt key
    → parse_phc (encode_phc p salt key) ≡ ok (with_lengths p salt key, salt, key)
unfolding parse_phc decode
parse_phc-encode_phc p salt key b f =
    ap parse_parts (split-encode_phc p salt key f.salt_bytes f.key_bytes)
    ∙ parse_parts-six (params_part p) (encode std salt) (encode std key)
    ∙ ap (decode_parts (encode std salt) (encode std key)) (scan_params-print p b)
    ∙ ap (decode_salt q (encode std key)) (decode-encode false std salt std-IsAlphabet f.salt_bytes)
    ∙ ap (decode_key q salt) (decode-encode false std key std-IsAlphabet f.key_bytes)
    ∙ check_lengths-Fits q salt key f
  where
    q : Params
    q = cost p.memory p.time p.parallelism
