-- ===== src/Prelude/Word.antt =====
-- 32-bit words as native numbers below 2 ^ 32. An `int` is its bit pattern.
use Prim.Native.Nat.{ℕ, ◌+◌, ◌-◌, ◌*◌, ◌/◌, ◌%◌, ◌^◌}
use mathlib.Core.Bool.{Bool, xor, not, ◌||◌}
use pandos.Prelude.Tests.{leb, ◌==◌, if◌then◌else◌}

abbrev pub word_mod : ℕ
word_mod = 2 ^ 32

abbrev pub add32 : ℕ → ℕ → ℕ
add32 a b = (a + b) % word_mod

abbrev pub sub32 : ℕ → ℕ → ℕ
sub32 a b = (a + word_mod - b) % word_mod

abbrev pub mul32 : ℕ → ℕ → ℕ
mul32 a b = (a * b) % word_mod

-- `x < 0` and `x <= 0` at type `int`.
abbrev pub is_neg : ℕ → Bool
is_neg x = leb (2 ^ 31) x

abbrev pub is_nonpos : ℕ → Bool
is_nonpos x = (x == 0) || is_neg x

-- x & (2 ^ k - 1), x >> k, and the test x & (1 << i).
abbrev pub low_bits : ℕ → ℕ → ℕ
low_bits x k = x % 2 ^ k

abbrev pub shr : ℕ → ℕ → ℕ
shr x k = x / 2 ^ k

abbrev pub test_bit : ℕ → ℕ → Bool
test_bit x i = (x / 2 ^ i) % 2 == 1

-- The size of an `int`, and `a / b` at type `int`, which rounds towards zero.
abbrev pub abs32 : ℕ → ℕ
abs32 a = if is_neg a then word_mod - a else a

unfoldable pub sdiv32 : ℕ → ℕ → ℕ
sdiv32 a b = let q : ℕ = abs32 a / abs32 b in if xor (is_neg a) (is_neg b) then sub32 0 q else q

-- `a % b` at type `int`, with the sign of `a`, and the test `a < b`.
unfoldable pub srem32 : ℕ → ℕ → ℕ
srem32 a b = let r : ℕ = abs32 a % abs32 b in if is_neg a then sub32 0 r else r

abbrev pub slt32 : ℕ → ℕ → Bool
slt32 a b = not (leb (add32 b (2 ^ 31)) (add32 a (2 ^ 31)))

-- x << k, and x & ~(2 ^ k - 1).
abbrev pub shl : ℕ → ℕ → ℕ
shl x k = mul32 x (2 ^ k)

abbrev pub clear_low : ℕ → ℕ → ℕ
clear_low x k = x - x % 2 ^ k
