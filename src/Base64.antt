-- ===== src/Base64.antt =====
-- Go's encoding/base64 without padding, for the two alphabets that kal uses: what `RawStdEncoding`
-- and `RawURLEncoding` compute, on bytes as numbers below 256. The decoder skips carriage returns and
-- line feeds wherever they stand; `Strict` only adds that the trailing bits are zero.
pub mod Laws
pub mod Inverse
use kal.Base.{
  ℕ, zero, suc, ◌+◌, ◌-◌, ◌*◌, ◌/◌, ◌%◌, ◌≤◌, ◌<◌, Bool, true, false, not, ◌&&◌, ◌||◌, Option, none,
  some, List, [], ◌∷◌, ◌++◌, map, ◌≡◌, ◌≢◌, refl, arith, Text, if◌then◌else◌, ltb, leb, ◌==◌,
  length, All, ap, ◌∙◌, Bool-cases, Option-cases, inl, inr, ◌⊎◌, sym,
}

-- The characters of the digits 62 and 63.
pub record Alphabet : Type 0 where
  pub plus : ℕ
  pub slash : ℕ

abbrev pub std : Alphabet
std = record { plus = 43; slash = 47 }

abbrev pub url : Alphabet
url = record { plus = 45; slash = 95 }

unfoldable pub digit : Alphabet → ℕ → ℕ
digit al d =
    if ltb d 26
    then d + 65
    else if ltb d 52
    then d + 71
    else if ltb d 62
    then d - 4
    else if d == 62
    then al.plus
    else al.slash

unfoldable pub undigit : Alphabet → ℕ → Option ℕ
undigit al c =
    if leb 65 c && leb c 90
    then some (c - 65)
    else if leb 97 c && leb c 122
    then some (c - 71)
    else if leb 48 c && leb c 57
    then some (c + 4)
    else if c == al.plus
    then some 62
    else if c == al.slash
    then some 63
    else none

-- Bytes to digits, three to four.
unfoldable pub group : List ℕ → List ℕ
group [] = []
group (a ∷ []) = a / 4 ∷ (a % 4 * 16) ∷ []
group (a ∷ b ∷ []) = a / 4 ∷ (a % 4 * 16 + b / 16) ∷ (b % 16 * 4) ∷ []
group (a ∷ b ∷ c ∷ r) = a / 4 ∷ (a % 4 * 16 + b / 16) ∷ (b % 16 * 4 + c / 64) ∷ (c % 64) ∷ group r

unfoldable pub encode : Alphabet → List ℕ → Text
unfolding group
encode al bytes = map (digit al) (group bytes)

abbrev pub before {ℓ} : {A : Type ℓ} → List A → Option (List A) → Option (List A)
before xs none = none
before [] (some ys) = some ys
before (x ∷ xs) (some ys) = some (x ∷ (xs ++ ys))

-- Digits to bytes, four to three; a single digit is left over by no encoding.
unfoldable pub pack : Bool → List ℕ → Option (List ℕ)
pack strict [] = some []
pack strict (s ∷ []) = none
pack strict (s ∷ t ∷ []) =
    if strict && not (t % 16 == 0) then none else some ((s * 4 + t / 16) ∷ [])
pack strict (s ∷ t ∷ u ∷ []) =
    if strict && not (u % 4 == 0)
    then none
    else some ((s * 4 + t / 16) ∷ (t % 16 * 16 + u / 4) ∷ [])
pack strict (s ∷ t ∷ u ∷ v ∷ r) =
    before ((s * 4 + t / 16) ∷ (t % 16 * 16 + u / 4) ∷ (u % 4 * 64 + v) ∷ []) (pack strict r)

abbrev pub is_newline : ℕ → Bool
is_newline c = c == 10 || c == 13

abbrev pub push : Option ℕ → Option (List ℕ) → Option (List ℕ)
push none r = none
push (some d) none = none
push (some d) (some ds) = some (d ∷ ds)

unfoldable pub digits : Alphabet → Text → Option (List ℕ)
digits al [] = some []
digits al (c ∷ s) =
    let rest = digits al s in if is_newline c then rest else push (undigit al c) rest

abbrev pub packed : Bool → Option (List ℕ) → Option (List ℕ)
packed strict none = none
packed strict (some ds) = pack strict ds

unfoldable pub decode : Bool → Alphabet → Text → Option (List ℕ)
unfolding pack digits
decode strict al s = packed strict (digits al s)

abbrev pub IsByte : ℕ → Type 0
IsByte b = b < 256

abbrev pub IsDigit : ℕ → Type 0
IsDigit d = d < 64
