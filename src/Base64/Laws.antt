-- ===== src/Base64/Laws.antt =====
-- Every encoding decodes to its bytes.
use kal.Base.{ℕ, ◌<◌, Bool, false, some, List, [], ◌∷◌, map, ◌≡◌, refl, arith, Text, All}
use kal.Base64.{
  Alphabet, std, url, digit, undigit, group, encode, pack, is_newline, digits, decode, IsByte,
  IsDigit,
}

pub group-IsDigit : (bytes : List ℕ) → All IsByte bytes → All IsDigit (group bytes)
unfolding group
group-IsDigit [] h = tt
group-IsDigit (a ∷ []) h = omega arith
group-IsDigit (a ∷ b ∷ []) h = omega arith
group-IsDigit (a ∷ b ∷ c ∷ r) h =
    (omega arith, (omega arith, (omega arith, (omega arith, group-IsDigit r h.1.1.1))))

pack-group :
    (strict : Bool) (bytes : List ℕ) → All IsByte bytes → pack strict (group bytes) ≡ some bytes
unfolding group pack
pack-group strict [] h = refl
pack-group strict (a ∷ []) h = ground arith
pack-group strict (a ∷ b ∷ []) h = ground arith
pack-group strict (a ∷ b ∷ c ∷ r) h = rw (pack-group strict r h.1.1.1) (ground arith)

undigit-digit-std : (d : ℕ) → d < 64 → undigit std (digit std d) ≡ some d
unfolding undigit digit
undigit-digit-std d h = ground arith

undigit-digit-url : (d : ℕ) → d < 64 → undigit url (digit url d) ≡ some d
unfolding undigit digit
undigit-digit-url d h = ground arith

-- What the two codings need of an alphabet.
pub record IsAlphabet (al : Alphabet) : Type 0 where
  pub reads :
      (d : ℕ) → d < 64 → (undigit al (digit al d) ≡ some d) × (is_newline (digit al d) ≡ false)
  pub writes : (c d : ℕ) → undigit al c ≡ some d → (digit al d ≡ c) × (d < 64)

std-reads :
    (d : ℕ) → d < 64 → (undigit std (digit std d) ≡ some d) × (is_newline (digit std d) ≡ false)
unfolding undigit digit
std-reads d h = (undigit-digit-std d h, ground arith)

url-reads :
    (d : ℕ) → d < 64 → (undigit url (digit url d) ≡ some d) × (is_newline (digit url d) ≡ false)
unfolding undigit digit
url-reads d h = (undigit-digit-url d h, ground arith)

std-writes : (c d : ℕ) → undigit std c ≡ some d → (digit std d ≡ c) × (d < 64)
unfolding undigit digit
std-writes c d h = (ground arith, ground arith)

url-writes : (c d : ℕ) → undigit url c ≡ some d → (digit url d ≡ c) × (d < 64)
unfolding undigit digit
url-writes c d h = (ground arith, ground arith)

pub std-IsAlphabet : IsAlphabet std
std-IsAlphabet = record { reads = std-reads; writes = std-writes }

pub url-IsAlphabet : IsAlphabet url
url-IsAlphabet = record { reads = url-reads; writes = url-writes }

abbrev pub OneLine : Text → Type 0
OneLine = All (λ c. is_newline c ≡ false)

digits-map :
    (al : Alphabet) (ds : List ℕ)
    → IsAlphabet al
    → All IsDigit ds
    → digits al (map (digit al) ds) ≡ some ds
unfolding digits
digits-map al [] a h = refl
digits-map al (d ∷ ds) a h = rw ((a.reads d h.0).1, (a.reads d h.0).0, digits-map al ds a h.1)

pub decode-encode :
    (strict : Bool) (al : Alphabet) (bytes : List ℕ)
    → IsAlphabet al
    → All IsByte bytes
    → decode strict al (encode al bytes) ≡ some bytes
unfolding decode encode
decode-encode strict al bytes a h =
    rw (digits-map al (group bytes) a (group-IsDigit bytes h)) (pack-group strict bytes h)
