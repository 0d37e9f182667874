-- ===== src/Prelude/Int64.antt =====
-- Go's `int64`, and `int` on the 64-bit targets, as a two's complement bit pattern: a number below
-- 2 ^ 64, which stands for itself below 2 ^ 63 and for itself less 2 ^ 64 from there on.
use bitbox_wallet_app.Prelude.Tests.{ltb, leb, if◌then◌else◌}
use Prim.Native.Nat.{ℕ, ◌+◌, ◌-◌, ◌*◌, ◌/◌, ◌%◌, ◌^◌, ◌≤◌, ◌<◌}
use mathlib.Core.Path.{◌≡◌}
use mathlib.Core.Bool.{Bool, true, false}
use native.Mathlib.Omega.{arith}

abbrev pub Int64 : Type 0
Int64 = ℕ

abbrev pub modulus : ℕ
modulus = 2 ^ 64

-- The first pattern of a negative number.
abbrev pub half : ℕ
half = 2 ^ 63

unfoldable pub add : Int64 → Int64 → Int64
add a b = (a + b) % modulus

unfoldable pub sub : Int64 → Int64 → Int64
sub a b = (a + modulus - b) % modulus

unfoldable pub mul : Int64 → Int64 → Int64
mul a b = (a * b) % modulus

unfoldable pub neg : Int64 → Int64
neg a = (modulus - a) % modulus

-- Division by a positive constant, which rounds towards zero.
unfoldable pub quot : Int64 → ℕ → Int64
unfolding neg
quot a n = if ltb a half then a / n else neg ((modulus - a) / n)

-- The signed order: adding 2 ^ 63 turns it into the order of the patterns.
unfoldable pub lt : Int64 → Int64 → Bool
lt a b = ltb ((a + half) % modulus) ((b + half) % modulus)

unfoldable pub le : Int64 → Int64 → Bool
le a b = leb ((a + half) % modulus) ((b + half) % modulus)

unfoldable pub is_negative : Int64 → Bool
is_negative a = leb half a

-- On values that are not negative, with a result that is not, the operations are those of ℕ.
pub add-eq : (a b : ℕ) → a + b < modulus → add a b ≡ a + b
unfolding add
add-eq a b h = omega arith

pub sub-eq : (a b : ℕ) → b ≤ a → a < modulus → sub a b ≡ a - b
unfolding sub
sub-eq a b h k = omega arith

pub lt-eq : (a b : ℕ) → a < half → b < half → lt a b ≡ ltb a b
unfolding lt
lt-eq a b h k = ground arith

pub le-eq : (a b : ℕ) → a < half → b < half → le a b ≡ leb a b
unfolding le
le-eq a b h k = ground arith

pub lt→true : (a b : ℕ) → a < b → b < half → lt a b ≡ true
unfolding lt
lt→true a b h k = ground arith

pub le→lt_false : (a b : ℕ) → b ≤ a → a < half → lt a b ≡ false
unfolding lt
le→lt_false a b h k = ground arith

pub le→true : (a b : ℕ) → a ≤ b → b < half → le a b ≡ true
unfolding le
le→true a b h k = ground arith

pub lt→le_false : (a b : ℕ) → b < a → a < half → le a b ≡ false
unfolding le
lt→le_false a b h k = ground arith

pub mul-eq : (a b : ℕ) → a * b < modulus → mul a b ≡ a * b
unfolding mul
mul-eq a b h = omega arith

pub quot-eq : (a n : ℕ) → a < half → quot a n ≡ a / n
unfolding quot
quot-eq a n h = ground arith
