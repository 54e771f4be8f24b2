-- ===== src/Common/Words.antt =====
-- `int` and `size_t` of a 64-bit Linux target. An `int` is its 32-bit pattern, a `size_t` a number
-- below 2 ^ 64. Conversions, additions and subtractions wrap; comparisons of `int` are signed.
use Prim.Native.Nat.{ℕ, ◌+◌, ◌-◌, ◌%◌, ◌^◌, ◌<◌, ◌≤◌}
use mathlib.Core.Path.{◌≡◌}
use mathlib.Core.Bool.{Bool}
use native.Mathlib.Omega.{arith}
use linuxgameserver.Common.Tests.{ltb, leb, if◌then◌else◌}

-- The sign-extending conversion of an `int` to a `size_t`, and the truncating one back.
unfoldable pub size_of_int : ℕ → ℕ
size_of_int x = if ltb x (2 ^ 31) then x else x + (2 ^ 64 - 2 ^ 32)

unfoldable pub int_of_size : ℕ → ℕ
int_of_size x = x % 2 ^ 32

unfoldable pub size_add : ℕ → ℕ → ℕ
size_add a b = (a + b) % 2 ^ 64

unfoldable pub size_sub : ℕ → ℕ → ℕ
size_sub a b = (a + 2 ^ 64 - b) % 2 ^ 64

unfoldable pub int_add : ℕ → ℕ → ℕ
int_add a b = (a + b) % 2 ^ 32

unfoldable pub int_sub : ℕ → ℕ → ℕ
int_sub a b = (a + 2 ^ 32 - b) % 2 ^ 32

-- The order of two `int`s: the patterns with their sign bit turned.
unfoldable pub int_lt : ℕ → ℕ → Bool
int_lt a b = ltb ((a + 2 ^ 31) % 2 ^ 32) ((b + 2 ^ 31) % 2 ^ 32)

unfoldable pub int_le : ℕ → ℕ → Bool
int_le a b = leb ((a + 2 ^ 31) % 2 ^ 32) ((b + 2 ^ 31) % 2 ^ 32)

-- On numbers that an `int` holds without a sign these are the operations on ℕ.
pub size_of_int_small : (x : ℕ) → x < 2 ^ 31 → size_of_int x ≡ x
unfolding size_of_int
size_of_int_small x h = ground arith

pub int_of_size_small : (x : ℕ) → x < 2 ^ 32 → int_of_size x ≡ x
unfolding int_of_size
int_of_size_small x h = omega arith

pub size_add_small : (a b : ℕ) → a + b < 2 ^ 64 → size_add a b ≡ a + b
unfolding size_add
size_add_small a b h = omega arith

pub size_sub_small : (a b : ℕ) → b ≤ a → a < 2 ^ 64 → size_sub a b ≡ a - b
unfolding size_sub
size_sub_small a b h k = omega arith

pub int_add_small : (a b : ℕ) → a + b < 2 ^ 32 → int_add a b ≡ a + b
unfolding int_add
int_add_small a b h = omega arith

pub int_sub_small : (a b : ℕ) → b ≤ a → a < 2 ^ 32 → int_sub a b ≡ a - b
unfolding int_sub
int_sub_small a b h k = omega arith

pub int_lt_small : (a b : ℕ) → a < 2 ^ 31 → b < 2 ^ 31 → int_lt a b ≡ ltb a b
unfolding int_lt
int_lt_small a b h k = ground arith

pub int_le_small : (a b : ℕ) → a < 2 ^ 31 → b < 2 ^ 31 → int_le a b ≡ leb a b
unfolding int_le
int_le_small a b h k = ground arith
