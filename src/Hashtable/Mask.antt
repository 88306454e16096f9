-- ===== src/Hashtable/Mask.antt =====
-- The bucket of a key (`calc_bkt`).
use hashtable_linux_kernel.Common.{ℕ, ◌%◌, ◌^◌, ◌≡◌, ◌<◌, arith}
use native.Mathlib.Nat.{mod-lt, one-le-pow}
use hashtable_linux_kernel.Common.Bits.{bit_and_mask}
use hashtable_linux_kernel.Hashtable.{calc_bkt}

-- For a power of two as divisor, `calc_bkt` is the remainder.
pub calc_bkt-mod : (num k : ℕ) → calc_bkt num (2 ^ k) ≡ num % 2 ^ k
unfolding calc_bkt
calc_bkt-mod num k = bit_and_mask k num

-- The bucket is one of the table.
pub calc_bkt-lt : (num k : ℕ) → calc_bkt num (2 ^ k) < 2 ^ k
calc_bkt-lt num k =
    let some : 0 < 2 ^ k = omega (arith, one-le-pow k 2) in
    omega (arith, calc_bkt-mod num k, mod-lt num some)
