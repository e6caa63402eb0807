-- ===== src/Base/Escape.antt =====
-- Go's `url.QueryEscape`: what is not unreserved is written as the percent-encoded bytes of its UTF-8
-- form, a space as a plus.
use Prim.Native.Nat.{ℕ, ◌+◌, ◌/◌, ◌%◌}
use mathlib.Core.Bool.{Bool, ◌&&◌, ◌||◌}
use mathlib.Core.List.{List, [], ◌∷◌, ◌++◌}
use kal.Base.Tests.{ltb, leb, ◌==◌, if◌then◌else◌}
use kal.Base.Texts.{Text}

unfoldable pub utf8 : ℕ → List ℕ
utf8 c =
    if ltb c 0x80
    then c ∷ []
    else if ltb c 0x800
    then (0xC0 + c / 64) ∷ (0x80 + c % 64) ∷ []
    else if ltb c 0x1_0000
    then (0xE0 + c / 4096) ∷ (0x80 + c / 64 % 64) ∷ (0x80 + c % 64) ∷ []
    else (0xF0 + c / 0x4_0000)
      ∷ (0x80 + c / 4096 % 64)
      ∷ (0x80 + c / 64 % 64)
      ∷ (0x80 + c % 64)
      ∷ []

hex : ℕ → ℕ
hex d = if ltb d 10 then d + 48 else d + 55

percent : List ℕ → Text
percent [] = []
percent (b ∷ bs) = 37 ∷ hex (b / 16) ∷ hex (b % 16) ∷ percent bs

unfoldable pub is_unreserved : ℕ → Bool
is_unreserved c =
    (leb 97 c && leb c 122)
    || (leb 65 c && leb c 90)
    || (leb 48 c && leb c 57)
    || c == 45
    || c == 95
    || c == 46
    || c == 126

unfoldable pub query_escape : Text → Text
unfolding utf8 hex percent is_unreserved
query_escape [] = []
query_escape (c ∷ s) =
    (if is_unreserved c then c ∷ [] else if c == 32 then 43 ∷ [] else percent (utf8 c))
    ++ query_escape s
