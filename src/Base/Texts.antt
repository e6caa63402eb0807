-- ===== src/Base/Texts.antt =====
-- Text that the program walks: a list of code points (a byte string is one of bytes). Go's `strings.ToLower`, `TrimSpace` and
-- `EqualFold` are written out; their case mapping is the one of the ASCII letters.
use Prim.Native.Nat.{ℕ, ◌+◌, ◌≤◌, ◌<◌}
use Prim.Native.Char.{code}
use Prim.Native.String.{String}
use mathlib.Core.Path.{◌≡◌, refl}
use mathlib.Core.Logic.{◌↔◌}
use mathlib.Core.Bool.{Bool, true, false, ◌&&◌, ◌||◌}
use mathlib.Core.List.{List, [], ◌∷◌, ◌++◌, map, reverse}
use native.Mathlib.Omega.{arith}
use kal.Base.Tests.{leb, ltb, ◌==◌, ==_iff, if◌then◌else◌, Bool-cases}
use kal.Base.Lists.{length, All}
use mathlib.Core.Option.{Option, none, some, some-injective}
use mathlib.Core.Logic.{inl, inr}

abbrev pub Text : Type 0
Text = List ℕ

-- The code points of a literal.
abbrev pub codes : String → Text
codes String.[] = []
codes (String.◌∷◌ c s) = code c ∷ codes s

-- Go's `==` on strings.
unfoldable pub text_eq : Text → Text → Bool
text_eq [] [] = true
text_eq (c ∷ s) (d ∷ t) = c == d && text_eq s t
text_eq _ _ = false

pub text_eq_refl : (s : Text) → text_eq s s ≡ true
unfolding text_eq
text_eq_refl [] = refl
text_eq_refl (c ∷ s) = ground (arith, text_eq_refl s)

text_eq_sound : (s t : Text) → text_eq s t ≡ true → s ≡ t
unfolding text_eq
text_eq_sound [] [] h = refl
text_eq_sound (c ∷ s) (d ∷ t) h = ground (arith, text_eq_sound s t)
text_eq_sound [] (d ∷ t) h = cc
text_eq_sound (c ∷ s) [] h = cc

pub text_eq_iff : (s t : Text) → (text_eq s t ≡ true) ↔ (s ≡ t)
text_eq_iff s t = (text_eq_sound s t, λ e. rw e (text_eq_refl t))

abbrev pub is_empty : Text → Bool
is_empty [] = true
is_empty (c ∷ s) = false

-- `strings.ToLower`, on the ASCII letters.
unfoldable pub lower_code : ℕ → ℕ
lower_code c = if leb 65 c && leb c 90 then c + 32 else c

unfoldable pub to_lower : Text → Text
unfolding lower_code
to_lower = map lower_code

pub lower_code_idem : (c : ℕ) → lower_code (lower_code c) ≡ lower_code c
unfolding lower_code
lower_code_idem c = ground arith

pub to_lower_idem : (s : Text) → to_lower (to_lower s) ≡ to_lower s
unfolding to_lower
to_lower_idem [] = refl
to_lower_idem (c ∷ s) = cc (lower_code_idem c, to_lower_idem s)

-- `unicode.IsSpace`.
unfoldable pub is_space : ℕ → Bool
is_space c =
    (leb 9 c && leb c 13)
    || c == 0x20
    || c == 0x85
    || c == 0xA0
    || c == 0x1680
    || (leb 0x2000 c && leb c 0x200a)
    || c == 0x2028
    || c == 0x2029
    || c == 0x202f
    || c == 0x205f
    || c == 0x3000

unfoldable pub trim_left : Text → Text
trim_left [] = []
trim_left (c ∷ s) = let rest = trim_left s in if is_space c then rest else c ∷ s

unfoldable pub trim_space : Text → Text
unfolding trim_left is_space
trim_space s = reverse (trim_left (reverse (trim_left s)))

-- `strings.EqualFold`.
unfoldable pub equal_fold : Text → Text → Bool
unfolding to_lower text_eq
equal_fold s t = text_eq (to_lower s) (to_lower t)

unfoldable pub contains_code : ℕ → Text → Bool
contains_code c [] = false
contains_code c (d ∷ s) = c == d || contains_code c s

unfoldable pub has_prefix : Text → Text → Bool
has_prefix s [] = true
has_prefix [] (d ∷ t) = false
has_prefix (c ∷ s) (d ∷ t) = c == d && has_prefix s t

-- `strings.Join`.
unfoldable pub join : Text → List Text → Text
join sep [] = []
join sep (s ∷ []) = s
join sep (s ∷ (t ∷ ts)) = s ++ (sep ++ join sep (t ∷ ts))

-- `^[a-z_][a-z0-9_]*$`, which every package compiles as `identRe`.
is_ident_start : ℕ → Bool
is_ident_start c = (leb 97 c && leb c 122) || c == 95

is_ident_code : ℕ → Bool
is_ident_code c = is_ident_start c || (leb 48 c && leb c 57)

all_ident : Text → Bool
all_ident [] = true
all_ident (c ∷ s) = is_ident_code c && all_ident s

unfoldable pub is_ident : Text → Bool
unfolding is_ident_start is_ident_code all_ident
is_ident [] = false
is_ident (c ∷ s) = is_ident_start c && all_ident s

-- The bytes of a code point in UTF-8.
unfoldable pub utf8_len : ℕ → ℕ
utf8_len c = if ltb c 0x80 then 1 else if ltb c 0x800 then 2 else if ltb c 0x1_0000 then 3 else 4

unfoldable pub byte_len : Text → ℕ
unfolding utf8_len
byte_len [] = 0
byte_len (c ∷ s) = utf8_len c + byte_len s

pub length_le-byte_len : (s : Text) → length s ≤ byte_len s
unfolding byte_len utf8_len
length_le-byte_len [] = omega arith
length_le-byte_len (c ∷ s) = ground (arith, length_le-byte_len s)

pub byte_len-ascii : (s : Text) → All (λ c. c < 128) s → byte_len s ≡ length s
unfolding byte_len utf8_len
byte_len-ascii [] h = refl
byte_len-ascii (c ∷ s) h = ground (arith, h.0, byte_len-ascii s h.1)

-- `strings.CutPrefix(s, prefix)`: what follows the prefix, if it is one.
unfoldable pub cut_prefix : Text → Text → Option Text
cut_prefix s [] = some s
cut_prefix [] (d ∷ p) = none
cut_prefix (c ∷ s) (d ∷ p) = let rest = cut_prefix s p in if c == d then rest else none

pub cut_prefix-inv : (s p : Text) {r : Text} → cut_prefix s p ≡ some r → s ≡ p ++ r
unfolding cut_prefix
cut_prefix-inv s [] {r} h = some-injective s r h
cut_prefix-inv [] (d ∷ p) h = cc
cut_prefix-inv (c ∷ s) (d ∷ p) {r} h = elim (Bool-cases (c == d)) [
  | inl e ↦ cc ((==_iff c d).0 e, cut_prefix-inv s p {r = r} (rw e at h))
  | inr e ↦ absurd (cc (rw e at h))
]
