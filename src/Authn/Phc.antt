-- ===== src/Authn/Phc.antt =====
-- authn/password.go: `encodePHC` and `parsePHC`, the encoding of an Argon2id hash. Salt and key are
-- texts of bytes.
pub mod Roundtrip
use kal.Base.{
  ℕ, ◌+◌, ◌^◌, Bool, true, false, not, ◌&&◌, ◌||◌, Option, none, some, List, [], ◌∷◌, ◌++◌, Text,
  codes, text_eq, is_empty, cut_prefix, if◌then◌else◌, ltb, ◌==◌, length,
}
use kal.Base.Decimal.{print_before, scan_uint, skip_space, number_after, within}
use kal.Base64.{std, encode, decode}
use kal.Kalerr.{Result, ok, err, Failure, plain}
use kal.Authn.Params.{Params}

abbrev pub dollar : ℕ
dollar = 36

abbrev pub argon2_version : ℕ
argon2_version = 19

abbrev pub version_part : Text
version_part = codes "v=19"

-- `m=…,t=…,p=…`.
unfoldable pub params_part : Params → Text
unfolding print_before
params_part p =
    codes "m="
    ++ print_before p.memory
        (codes ",t=" ++ print_before p.time (codes ",p=" ++ print_before p.parallelism []))

-- `encodePHC`.
unfoldable pub encode_phc : Params → Text → Text → Text
unfolding params_part encode
encode_phc p salt key =
    dollar
    ∷ (codes "argon2id"
        ++ (dollar
            ∷ (version_part
                ++ (dollar
                    ∷ (params_part p
                        ++ (dollar ∷ (encode std salt ++ (dollar ∷ encode std key))))))))

-- `strings.Split(s, "$")`.
abbrev pub onto_first : ℕ → List Text → List Text
onto_first c [] = (c ∷ []) ∷ []
onto_first c (t ∷ ts) = (c ∷ t) ∷ ts

unfoldable pub split : Text → List Text
split [] = [] ∷ []
split (c ∷ s) = let rest = split s in if c == dollar then [] ∷ rest else onto_first c rest

-- `strings.CutPrefix`, then a number: a literal and a `%d` of a format. `none` passes on.
abbrev pub after : Text → Text → Option Text
after literal s = cut_prefix s literal

abbrev pub then_uint : ℕ → Option Text → Option (ℕ × Text)
then_uint bound none = none
then_uint bound (some s) = scan_uint bound s

-- `%d` into an `int` also takes a sign.
abbrev pub signed : Option Text → Option (ℕ × Text)
signed none = none
signed (some []) = none
signed (some (c ∷ s)) = if c == 43 then number_after (some s) else number_after (some (c ∷ s))

abbrev pub has_version : Option (ℕ × Text) → Bool
has_version none = false
has_version (some (n, rest)) = n == argon2_version

abbrev pub version_after : Option Text → Option (ℕ × Text)
version_after none = none
version_after (some s) = signed (skip_space s)

-- `Sscanf(part, "v=%d", &version)` and the comparison. What follows the number is not looked at.
unfoldable pub is_version : Text → Bool
unfolding cut_prefix skip_space
is_version part = has_version (version_after (after (codes "v=") part))

abbrev pub cost : ℕ → ℕ → ℕ → Params
cost memory time parallelism = record {
  memory = memory;
  time = time;
  parallelism = parallelism;
  salt_len = 0;
  key_len = 0;
}

abbrev pub scan_parallelism : ℕ → ℕ → Option (ℕ × Text) → Option Params
scan_parallelism m t none = none
scan_parallelism m t (some (p, rest)) = some (cost m t p)

abbrev pub scan_time : ℕ → Option (ℕ × Text) → Option Params
scan_time m none = none
scan_time m (some (t, rest)) = scan_parallelism m t (then_uint (2 ^ 8) (after (codes ",p=") rest))

abbrev pub scan_memory : Option (ℕ × Text) → Option Params
scan_memory none = none
scan_memory (some (m, rest)) = scan_time m (then_uint (2 ^ 32) (after (codes ",t=") rest))

-- `Sscanf(part, "m=%d,t=%d,p=%d", …)` into two uint32 and a uint8.
unfoldable pub scan_params : Text → Option Params
unfolding cut_prefix scan_uint
scan_params part = scan_memory (then_uint (2 ^ 32) (after (codes "m=") part))

abbrev pub implausible : Text → Text → Bool
implausible salt key =
    ltb (length salt) 8 || (ltb 64 (length salt) || (ltb (length key) 16 || ltb 128 (length key)))

abbrev pub check_lengths : Params → Text → Text → Result (Params × Text × Text)
check_lengths p salt key =
    if implausible salt key
    then err (plain "authn: implausible salt or key length")
    else ok (record p { salt_len = length salt; key_len = length key }, salt, key)

abbrev pub decode_key : Params → Text → Option Text → Result (Params × Text × Text)
decode_key p salt none = err (plain "authn: malformed key encoding")
decode_key p salt (some key) = check_lengths p salt key

abbrev pub decode_salt : Params → Text → Option Text → Result (Params × Text × Text)
decode_salt p key none = err (plain "authn: malformed salt encoding")
decode_salt p key (some salt) = decode_key p salt (decode false std key)

abbrev pub decode_parts : Text → Text → Option Params → Result (Params × Text × Text)
decode_parts salt key none = err (plain "authn: malformed argon2 parameters")
decode_parts salt key (some p) = decode_salt p key (decode false std salt)

abbrev pub not_phc : Result (Params × Text × Text)
not_phc = err (plain "authn: not an argon2id PHC string")

abbrev pub parse_parts : List Text → Result (Params × Text × Text)
parse_parts (first ∷ (variant ∷ (version ∷ (params ∷ (salt ∷ (key ∷ [])))))) =
    if is_empty first && text_eq variant (codes "argon2id")
    then (if is_version version
        then decode_parts salt key (scan_params params)
        else err (plain "authn: unsupported argon2 version"))
    else not_phc
parse_parts _ = not_phc

-- `parsePHC`.
unfoldable pub parse_phc : Text → Result (Params × Text × Text)
unfolding split text_eq is_version scan_params decode
parse_phc s = parse_parts (split s)
