-- ===== src/Base/Decimal.antt =====
-- Go's `%d`, printing with `fmt.Sprintf` and scanning with `fmt.Sscanf`: a scan skips blanks, takes at
-- least one digit, and leaves what follows the number.
use Prim.Native.Nat.{ℕ, zero, suc, ◌+◌, ◌-◌, ◌*◌, ◌/◌, ◌%◌, ◌<◌}
use mathlib.Core.Path.{◌≡◌, refl, ◌∙◌, ap, subst}
use mathlib.Core.Bool.{Bool, true, false, ◌&&◌}
use mathlib.Core.Option.{Option, none, some}
use mathlib.Core.List.{[], ◌∷◌}
use mathlib.Core.Logic.{inl, inr}
use native.Mathlib.Omega.{arith}
use kal.Base.Tests.{ltb→lt, lt→ltb, ltb, leb, ◌==◌, if◌then◌else◌, Bool-cases}
use kal.Base.Lists.{All}
use kal.Base.Texts.{Text, is_space}

abbrev pub is_decimal : ℕ → Bool
is_decimal c = leb 48 c && leb c 57

-- The digits of a number in front of a text. The fuel is above the number.
unfoldable pub print_fuel : ℕ → ℕ → Text → Text
print_fuel zero n tail = tail
print_fuel (suc f) n tail =
    let rest = print_fuel f (n / 10) ((48 + n % 10) ∷ tail) in
    if ltb n 10 then (48 + n) ∷ tail else rest

unfoldable pub print_before : ℕ → Text → Text
unfolding print_fuel
print_before n tail = print_fuel (suc n) n tail

-- Blanks before a number; a line end is an error.
unfoldable pub skip_space : Text → Option Text
unfolding is_space
skip_space [] = some []
skip_space (c ∷ s) =
    let rest = skip_space s in if c == 10 then none else if is_space c then rest else some (c ∷ s)

unfoldable pub take_digits : ℕ → Text → ℕ × Text
take_digits n [] = (n, [])
take_digits n (c ∷ s) =
    let rest = take_digits (n * 10 + (c - 48)) s in if is_decimal c then rest else (n, c ∷ s)

unfoldable pub scan_number : Text → Option (ℕ × Text)
unfolding take_digits
scan_number [] = none
scan_number (c ∷ s) = if is_decimal c then some (take_digits 0 (c ∷ s)) else none

abbrev pub within : ℕ → Option (ℕ × Text) → Option (ℕ × Text)
within bound none = none
within bound (some (n, rest)) = if ltb n bound then some (n, rest) else none

abbrev pub number_after : Option Text → Option (ℕ × Text)
number_after none = none
number_after (some s) = scan_number s

-- `%d` into an unsigned number below the bound.
unfoldable pub scan_uint : ℕ → Text → Option (ℕ × Text)
unfolding skip_space scan_number
scan_uint bound s = within bound (number_after (skip_space s))

take_digits-print :
    (f n : ℕ) (tail : Text) → n < f → take_digits 0 (print_fuel f n tail) ≡ take_digits n tail
unfolding print_fuel take_digits
take_digits-print zero n tail h = absurd (omega arith)
take_digits-print (suc f) n tail h = elim (Bool-cases (ltb n 10)) [
  | inl small ↦ ground arith
  | inr big ↦
      rw big (take_digits-print f (n / 10) ((48 + n % 10) ∷ tail) (ground arith) ∙ ground arith)
]

print_fuel-head :
    (f n : ℕ) (tail : Text)
    → n < f
    → (c : ℕ) × (rest : Text) × (print_fuel f n tail ≡ c ∷ rest) × (is_decimal c ≡ true)
unfolding print_fuel
print_fuel-head zero n tail h = absurd (omega arith)
print_fuel-head (suc f) n tail h = elim (Bool-cases (ltb n 10)) [
  | inl small ↦ (48 + n, tail, rw small refl, ground arith)
  | inr big ↦ rw big (print_fuel-head f (n / 10) ((48 + n % 10) ∷ tail) (ground arith))
]

-- The text does not go on with a digit.
abbrev pub Stops : Text → Type 0
Stops [] = Unit
Stops (c ∷ s) = is_decimal c ≡ false

take_digits-Stops : (n : ℕ) (tail : Text) → Stops tail → take_digits n tail ≡ (n, tail)
unfolding take_digits
take_digits-Stops n [] h = refl
take_digits-Stops n (c ∷ s) h = rw h refl

skip_space-decimal : (c : ℕ) (s : Text) → is_decimal c ≡ true → skip_space (c ∷ s) ≡ some (c ∷ s)
unfolding skip_space is_space
skip_space-decimal c s h = ground arith

scan_number-decimal :
    (c : ℕ) (s : Text) → is_decimal c ≡ true → scan_number (c ∷ s) ≡ some (take_digits 0 (c ∷ s))
unfolding scan_number
scan_number-decimal c s h = rw h refl

-- Scanning gives back the number that was printed, and leaves the text after it.
pub scan_uint-print :
    (bound n : ℕ) (tail : Text)
    → n < bound
    → Stops tail
    → scan_uint bound (print_before n tail) ≡ some (n, tail)
unfolding scan_uint print_before
scan_uint-print bound n tail h stop =
    let (c, rest, e, d) = print_fuel-head (suc n) n tail (omega arith) in
    let read : take_digits 0 (c ∷ rest) ≡ (n, tail) =
      subst (λ s. take_digits 0 s ≡ (n, tail)) e
        (take_digits-print (suc n) n tail (omega arith) ∙ take_digits-Stops n tail stop) in
    let fits : ltb n bound ≡ true = lt→ltb n bound h in
    ap (λ s. within bound (number_after (skip_space s))) e
    ∙ ap (λ s. within bound (number_after s)) (skip_space-decimal c rest d)
    ∙ ap (within bound) (scan_number-decimal c rest d ∙ ap some read)
    ∙ ap (λ b. if b then some (n, tail) else none) fits

-- What a text of digits contains.
pub print_fuel-All :
    (P : ℕ → Type 0) (f n : ℕ) (tail : Text)
    → ((d : ℕ) → d < 10 → P (48 + d))
    → All P tail
    → All P (print_fuel f n tail)
unfolding print_fuel
print_fuel-All P zero n tail digit h = h
print_fuel-All P (suc f) n tail digit h = elim (Bool-cases (ltb n 10)) [
  | inl small ↦ rw small (digit n (ltb→lt n 10 small), h)
  | inr big ↦
      rw big
        (print_fuel-All P f (n / 10) ((48 + n % 10) ∷ tail) digit (digit (n % 10) (omega arith), h))
]
