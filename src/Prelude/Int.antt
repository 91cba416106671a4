-- ===== src/Prelude/Int.antt =====
-- C's `int` counters as integers: the source only adds and subtracts one, and compares.
use Prim.Native.Nat.{ℕ, zero, suc, ◌+◌, ◌-◌}
use mathlib.Core.Path.{◌≡◌, refl}
use mathlib.Core.Bool.{Bool, false}
use native.Mathlib.Omega.{arith}
use chat_application.Prelude.Tests.{leb, ◌==◌, if◌then◌else◌}

-- `negsuc n` is -(n + 1).
pub data ℤ : Type 0 where
  pos : ℕ → ℤ
  negsuc : ℕ → ℤ

-- `n++`
abbrev pub incr : ℤ → ℤ
incr (pos n) = pos (n + 1)
incr (negsuc zero) = pos 0
incr (negsuc (suc n)) = negsuc n

-- `n--`
abbrev pub decr : ℤ → ℤ
decr (pos zero) = negsuc 0
decr (pos (suc n)) = pos n
decr (negsuc n) = negsuc (n + 1)

-- `n == k`, for a constant `k`
abbrev pub is_num : ℤ → ℕ → Bool
is_num (pos n) k = n == k
is_num (negsuc n) k = false

-- `n >= k`, for a constant `k`
abbrev pub at_least : ℤ → ℕ → Bool
at_least (pos n) k = leb k n
at_least (negsuc n) k = false

pub decr-incr : (z : ℤ) → decr (incr z) ≡ z
decr-incr (pos n) = ground arith
decr-incr (negsuc zero) = refl
decr-incr (negsuc (suc n)) = ground arith

-- The difference of two numbers, and a sum with one.
unfoldable pub minus : ℕ → ℕ → ℤ
minus a b = if leb b a then pos (a - b) else negsuc (b - a - 1)

unfoldable pub plus : ℤ → ℕ → ℤ
unfolding minus
plus (pos a) n = pos (a + n)
plus (negsuc a) n = minus n (a + 1)
