-- ===== src/Log2/Rounding.antt =====
-- What rounding to a power of two computes.
use hashtable_linux_kernel.Common.{
  ℕ, suc, ◌+◌, ◌-◌, ◌%◌, ◌^◌, ◌≡◌, ◌<◌, ◌≤◌, refl, true, false, ltb, leb, ◌==◌, some, arith,
  Bool-cases, inl, inr, ap, ◌∙◌,
}
use native.Mathlib.Nat.{pow-suc, one-le-pow, pow-le-pow_right}
use hashtable_linux_kernel.Log2.{
  ilog2_constant, then_log, roundup_pow_of_two, rounddown_pow_of_two, order_base_2,
}
use hashtable_linux_kernel.Log2.Bounds.{ilog2_constant-floor}

-- Powers are in the order of their exponents.
exponent-le : (a b : ℕ) → 2 ^ a < 2 ^ suc b → a ≤ b
exponent-le a b lt = elim (Bool-cases (leb a b)) [
  | inl t ↦ ground (arith, t)
  | inr f ↦
      let above : suc b ≤ a = ground (arith, f) in
      absurd (omega (arith, lt, pow-le-pow_right {n = 2} (omega arith) above))
]

-- The logarithm of a power of two.
pub ilog2_constant-power : (k : ℕ) → k < 64 → ilog2_constant (2 ^ k) ≡ some k
ilog2_constant-power k small =
    let below = pow-le-pow_right {n = 2} (omega arith) {i = k} {j = 63} (omega arith) in
    let (l, found, low, high) =
      ilog2_constant-floor (2 ^ k) (omega (arith, one-le-pow k 2)) (omega arith) in
    let same : l ≡ k = omega (
      arith,
      exponent-le k l high,
      exponent-le l k (omega (arith, low, pow-suc 2 k, one-le-pow k 2)),
    ) in
    found ∙ ap some same

roundup_pow_of_two-found :
    (n l : ℕ)
    → 2 ≤ n
    → n < 2 ^ 64
    → ilog2_constant (n - 1) ≡ some l
    → l < 63
    → roundup_pow_of_two n ≡ some (2 ^ suc l)
unfolding roundup_pow_of_two
roundup_pow_of_two-found n l given small found under =
    let less : (n + (2 ^ 64 - 1)) % 2 ^ 64 ≡ n - 1 = omega arith in
    let other : (n == 1) ≡ false = ground arith in
    let fits : ltb (l + 1) 64 ≡ true = ground arith in
    let next : l + 1 ≡ suc l = omega arith in rw (other, less, found, fits, next) refl

-- For a constant from 2 to 2 ^ 63, `order_base_2` is its logarithm rounded up, and `roundup_pow_of_two`
-- the power of two of that: the least one that is not below the constant.
pub order_base_2-ceiling :
    (n : ℕ)
    → 2 ≤ n
    → n ≤ 2 ^ 63
    → (k : ℕ) × (roundup_pow_of_two n ≡ some (2 ^ suc k))
      × (order_base_2 n ≡ some (suc k))
      × (2 ^ k < n)
      × (n ≤ 2 ^ suc k)
unfolding order_base_2
order_base_2-ceiling n given small =
    let (l, found, low, high) = ilog2_constant-floor (n - 1) (omega arith) (omega arith) in
    let under : l < 63 = omega (arith, exponent-le l 62 (omega (arith, low, small))) in
    let rounded = roundup_pow_of_two-found n l given (omega (arith, small)) found under in
    (
      l,
      rounded,
      ap then_log rounded ∙ ilog2_constant-power (suc l) (omega arith),
      omega arith,
      omega arith,
    )

-- For a constant from 1 to 2 ^ 64 - 1, `rounddown_pow_of_two` is the greatest power of two that is not
-- above it.
pub rounddown_pow_of_two-floor :
    (n : ℕ)
    → 1 ≤ n
    → n < 2 ^ 64
    → (k : ℕ) × (rounddown_pow_of_two n ≡ some (2 ^ k)) × (2 ^ k ≤ n) × (n < 2 ^ suc k)
unfolding rounddown_pow_of_two
rounddown_pow_of_two-floor n given lt =
    let (l, found, low, high) = ilog2_constant-floor n given lt in
    let under : l < 64 = omega (arith, exponent-le l 63 (omega (arith, low, lt))) in
    let fits : ltb (l + 0) 64 ≡ true = ground arith in
    let same : l + 0 ≡ l = omega arith in (l, rw (found, fits, same) refl, low, high)
