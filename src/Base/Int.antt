-- ===== src/Base/Int.antt =====
-- Integers over the native numbers, for Go's signed `int` and `time.Duration` where the code tests
-- the sign.
use Prim.Native.Nat.{ℕ, zero, suc, ◌+◌, ◌-◌, ◌≤◌, ◌<◌}
use mathlib.Core.Bool.{Bool, true, false}
use mathlib.Core.Path.{◌≡◌}
use native.Mathlib.Omega.{arith}
use kal.Base.Tests.{ltb}

-- `negsuc n` is -(n + 1).
pub data ℤ : Type 0 where
  pos : ℕ → ℤ
  negsuc : ℕ → ℤ

-- `x <= 0`.
abbrev pub is_nonpos : ℤ → Bool
is_nonpos (pos zero) = true
is_nonpos (pos (suc n)) = false
is_nonpos (negsuc n) = true

-- The number that a positive integer is, and 0 for any other.
abbrev pub pos_part : ℤ → ℕ
pos_part (pos n) = n
pos_part (negsuc n) = 0

-- `a < b`.
abbrev pub lt_int : ℤ → ℤ → Bool
lt_int (pos m) (pos n) = ltb m n
lt_int (pos m) (negsuc n) = false
lt_int (negsuc m) (pos n) = true
lt_int (negsuc m) (negsuc n) = ltb n m

-- `a ≤ b`, as a type.
abbrev pub AtMost : ℤ → ℤ → Type 0
AtMost (pos m) (pos n) = m ≤ n
AtMost (pos m) (negsuc n) = ⊥
AtMost (negsuc m) (pos n) = Unit {0}
AtMost (negsuc m) (negsuc n) = n ≤ m

pub lt_int-AtMost : (a b : ℤ) → lt_int b a ≡ false → AtMost a b
lt_int-AtMost (pos m) (pos n) h = ground arith
lt_int-AtMost (pos m) (negsuc n) h = cc
lt_int-AtMost (negsuc m) (pos n) h = tt
lt_int-AtMost (negsuc m) (negsuc n) h = ground arith

-- The instant that lies a signed duration after another. What would lie before the first instant is
-- the first instant.
abbrev pub shift : ℕ → ℤ → ℕ
shift now (pos n) = now + n
shift now (negsuc n) = now - suc n

pub shift-later : (now : ℕ) (d : ℤ) → 0 < pos_part d → ltb now (shift now d) ≡ true
shift-later now (pos n) h = ground arith
shift-later now (negsuc n) h = ground arith
