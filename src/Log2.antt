-- ===== src/Log2.antt =====
-- The base 2 logarithms of log2.h. `none` is a call of the function that is declared and never defined,
-- `____ilog2_NaN`.
pub mod Bounds
pub mod Rounding
use hashtable_linux_kernel.Common.{
  ℕ, zero, suc, ◌+◌, ◌-◌, ◌*◌, ◌%◌, ◌^◌, Bool, true, false, not, ◌&&◌, ltb, ◌==◌, if◌then◌else◌,
  Option, none, some,
}
use Prim.Native.Nat.{bit_and}

-- `n & (1ULL << k)` as a test.
abbrev pub has_bit : (n k : ℕ) → Bool
has_bit n k = not (bit_and n (2 ^ k) == 0)

-- The conditional operators from the bit `k` down to the bit 0.
unfoldable pub ilog2_from : (k n : ℕ) → Option ℕ
ilog2_from zero n = if has_bit n 0 then some 0 else none
ilog2_from (suc k) n = if has_bit n (suc k) then some (suc k) else ilog2_from k n

-- `ilog2` of a constant.
unfoldable pub ilog2_constant : ℕ → Option ℕ
unfolding ilog2_from
ilog2_constant n = if ltb n 1 then none else ilog2_from 63 n

unfoldable pub is_power_of_2 : ℕ → Bool
is_power_of_2 n = not (n == 0) && bit_and n (n - 1) == 0

-- `__builtin_clz` of a word that is not 0: how many of the bits from bit `k` down come before the first
-- that is set.
leading_zeros : (k x : ℕ) → ℕ
leading_zeros zero x = if has_bit x 0 then 0 else 1
leading_zeros (suc k) x = if has_bit x (suc k) then 0 else suc (leading_zeros k x)

-- The argument and the result are bit patterns of an `int`.
unfoldable pub fls : ℕ → ℕ
unfolding leading_zeros
fls x = if x == 0 then 0 else 32 - leading_zeros 31 x

unfoldable pub __ilog2_u32 : ℕ → ℕ
__ilog2_u32 n = (fls n + (2 ^ 32 - 1)) % 2 ^ 32

-- The call of `fls` cuts the argument down to an `int`.
unfoldable pub __ilog2_u64 : ℕ → ℕ
__ilog2_u64 n = (fls (n % 2 ^ 32) + (2 ^ 32 - 1)) % 2 ^ 32

-- `1UL << k`, which is undefined from 64 on.
abbrev pub shift_long : ℕ → Option ℕ
shift_long k = if ltb k 64 then some (2 ^ k) else none

abbrev pub then_shift : Option ℕ → (more : ℕ) → Option ℕ
then_shift none more = none
then_shift (some l) more = shift_long (l + more)

-- The macros for a constant, of 64 bits without a sign; the forms for other arguments call functions
-- that no file defines.
unfoldable pub roundup_pow_of_two : ℕ → Option ℕ
roundup_pow_of_two n =
    if n == 1 then some 1 else then_shift (ilog2_constant ((n + (2 ^ 64 - 1)) % 2 ^ 64)) 1

unfoldable pub rounddown_pow_of_two : ℕ → Option ℕ
rounddown_pow_of_two n = then_shift (ilog2_constant n) 0

abbrev pub then_log : Option ℕ → Option ℕ
then_log none = none
then_log (some power) = ilog2_constant power

unfoldable pub order_base_2 : ℕ → Option ℕ
order_base_2 n = then_log (roundup_pow_of_two n)
