-- ===== src/Hash/Golden.antt =====
-- `hash_64`, `hash_32` and the pointer hashes: the multiplication by shifts, when they are defined,
-- the range of the result, and that the full width loses nothing.
use hashtable_linux_kernel.Common.{
  ℕ, ◌-◌, ◌*◌, ◌/◌, ◌%◌, ◌^◌, ◌≡◌, ◌≢◌, ◌↔◌, ◌≤◌, sym, ◌∙◌, ◌<◌, ap, arith, none, some,
}
use native.Mathlib.Nat.{div-lt_iff_lt-mul, one-le-pow}
use hashtable_linux_kernel.Common.Bits.{pow-add}
use hashtable_linux_kernel.Hash.{
  u32, u64, golden_ratio_prime_32, golden_ratio_prime_64, mix_64, hash_64, hash_64_multiply,
  hash_32, shift_right, high_shift,
}

mix_64_lem : (val : ℕ) → val < u64 → mix_64 val ≡ (val * golden_ratio_prime_64) % u64
unfolding mix_64
mix_64_lem val small = omega arith

-- The shifts and sums of `hash_64` are the multiplication by the golden ratio prime: both builds give
-- the same hash.
pub hash_64-multiply : (val bits : ℕ) → val < u64 → hash_64 val bits ≡ hash_64_multiply val bits
unfolding hash_64_multiply hash_64
hash_64-multiply val bits small =
    ap (λ h. shift_right 64 h (high_shift 64 bits)) (mix_64_lem val small)

-- The high bits of a word: fewer than `2 ^ bits` values.
high_bits-lt : (width bits h : ℕ) → bits ≤ width → h < 2 ^ width → h / 2 ^ (width - bits) < 2 ^ bits
high_bits-lt width bits h fits small =
    let split : 2 ^ bits * 2 ^ (width - bits) ≡ 2 ^ width =
      sym (pow-add 2 bits (width - bits)) ∙ ap (λ (t : ℕ). 2 ^ t) (omega arith) in
    (div-lt_iff_lt-mul (one-le-pow (width - bits) 2 (omega arith))).1 (rw split small)

high_shift_lem : (bits : ℕ) → 1 ≤ bits → bits ≤ 32 → high_shift 32 bits ≡ 32 - bits
high_shift_lem bits lo hi = omega arith

-- `hash_32` is defined exactly for 1 to 32 bits.
pub hash_32-defined :
    (val bits : ℕ) → bits < u32 → (hash_32 val bits ≢ none) ↔ ((1 ≤ bits) × (bits ≤ 32))
unfolding hash_32
hash_32-defined val bits word = (λ h. ground arith, λ h. ground arith)

-- `hash_32` of 1 to 32 bits lies below `2 ^ bits`.
pub hash_32-lt :
    (val bits : ℕ) → 1 ≤ bits → bits ≤ 32 → (h : ℕ) × (hash_32 val bits ≡ some h) × (h < 2 ^ bits)
unfolding hash_32
hash_32-lt val bits lo hi = (
  ((val * golden_ratio_prime_32) % u32) / 2 ^ (32 - bits),
  ground (arith, high_shift_lem bits),
  high_bits-lt 32 bits _ hi (omega arith),
)

high_shift_lem64 : (bits : ℕ) → 1 ≤ bits → bits ≤ 64 → high_shift 64 bits ≡ 64 - bits
high_shift_lem64 bits lo hi = omega arith

-- `hash_64` of 1 to 64 bits lies below `2 ^ bits`.
pub hash_64-lt :
    (val bits : ℕ) → 1 ≤ bits → bits ≤ 64 → (h : ℕ) × (hash_64 val bits ≡ some h) × (h < 2 ^ bits)
unfolding hash_64
hash_64-lt val bits lo hi = (
  mix_64 val / 2 ^ (64 - bits),
  ground (arith, high_shift_lem64 bits),
  high_bits-lt 64 bits _ hi (omega arith),
)

-- The inverse of the odd multiplier modulo 2 ^ 32.
abbrev inverse : ℕ
inverse = 1640562689

unmix : (a : ℕ) → a < u32 → a ≡ (a * golden_ratio_prime_32) % u32 * inverse % u32
unmix a p = omega arith

-- With all 32 bits `hash_32` loses nothing: two words with one hash are the same word.
pub hash_32-injective : (a b : ℕ) → a < u32 → b < u32 → hash_32 a 32 ≡ hash_32 b 32 → a ≡ b
unfolding hash_32
hash_32-injective a b p q e =
    let high : (a * golden_ratio_prime_32) % u32 / 2 ^ 0
        ≡ (b * golden_ratio_prime_32) % u32 / 2 ^ 0 =
      cc in
    let same : (a * golden_ratio_prime_32) % u32 ≡ (b * golden_ratio_prime_32) % u32 =
      omega (arith, high) in
    unmix a p ∙ ap (λ (t : ℕ). t * inverse % u32) same ∙ sym (unmix b q)
