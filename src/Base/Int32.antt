-- ===== src/Base/Int32.antt =====
-- Go's int32 as its bit pattern: a number below 2^32, of which those from 2^31 on are negative.
use Prim.Native.Nat.{ℕ, ◌+◌, ◌-◌, ◌*◌, ◌/◌, ◌%◌}
use mathlib.Core.Bool.{Bool}
use openshift_vsphere_migrat.Base.Tests.{ltb, leb, if◌then◌else◌}

abbrev pub Int32 : Type 0
Int32 = ℕ

abbrev pub modulus : ℕ
modulus = 4294967296

-- The largest int32 is one less.
abbrev pub sign_bit : ℕ
sign_bit = 2147483648

-- A conversion to int32 keeps the low 32 bits.
abbrev pub wrap : ℕ → Int32
wrap n = n % modulus

abbrev pub add : Int32 → Int32 → Int32
add a b = wrap (a + b)

abbrev pub mul : Int32 → Int32 → Int32
mul a b = wrap (a * b)

-- The order of the signed values is that of the patterns moved by half the range.
abbrev pub biased : Int32 → ℕ
biased a = wrap (a + sign_bit)

abbrev pub lt : Int32 → Int32 → Bool
lt a b = ltb (biased a) (biased b)

abbrev pub le : Int32 → Int32 → Bool
le a b = leb (biased a) (biased b)

abbrev pub negate : Int32 → Int32
negate a = wrap (modulus - a)

abbrev pub is_negative : Int32 → Bool
is_negative a = leb sign_bit a

abbrev pub magnitude : Int32 → ℕ
magnitude a = if is_negative a then modulus - a else a

-- Go's division truncates towards zero. The callers test the divisor first.
abbrev pub div : Int32 → Int32 → Int32
div a b =
    let q = magnitude a / magnitude b in
    if is_negative a
    then (if is_negative b then wrap q else negate q)
    else (if is_negative b then negate q else wrap q)
