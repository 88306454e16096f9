-- ===== src/Log2/Bounds.antt =====
-- What the logarithms compute.
use hashtable_linux_kernel.Common.{
  ℕ, zero, suc, ◌/◌, ◌%◌, ◌^◌, ◌≡◌, ◌<◌, ◌≤◌, refl, true, false, ltb, leb, if◌then◌else◌, some,
  arith, Bool-cases, inl, inr,
}
use Prim.Native.Nat.{bit_and, min}
use native.Mathlib.Nat.{pow-suc, one-le-pow}
use hashtable_linux_kernel.Common.Bits.{bit_and-half}
use hashtable_linux_kernel.Log2.{has_bit, ilog2_from, ilog2_constant}

-- Below twice a power of two, the bit of the power is set from the power on.
top_bit : (k n : ℕ) → n < 2 ^ suc k → bit_and n (2 ^ k) ≡ (if leb (2 ^ k) n then 2 ^ k else 0)
top_bit zero zero lt = refl
top_bit zero (suc zero) lt = refl
top_bit zero (suc (suc n)) lt = absurd (omega arith)
top_bit (suc k) n lt =
    let p = pow-suc 2 k in
    let p' = pow-suc 2 (suc k) in
    let rest = top_bit k (n / 2) (omega arith) in
    let step = bit_and-half n (2 ^ suc k) in
    let low : 2 ^ suc k % 2 ≡ 0 = omega arith in
    let high : 2 ^ suc k / 2 ≡ 2 ^ k = omega arith in
    let none_low : min (n % 2) 0 ≡ 0 = omega arith in
    rw (step, high, low, none_low, rest)
      (elim (Bool-cases (leb (2 ^ k) (n / 2))) [
        | inl e ↦ let e' : leb (2 ^ suc k) n ≡ true = ground arith in rw (e, e') (omega arith)
        | inr e ↦ let e' : leb (2 ^ suc k) n ≡ false = ground arith in rw (e, e') (omega arith)
      ])

ilog2_from-some :
    (k n : ℕ)
    → 1 ≤ n
    → n < 2 ^ suc k
    → (l : ℕ) × (ilog2_from k n ≡ some l) × (2 ^ l ≤ n) × (n < 2 ^ suc l)
unfolding ilog2_from
ilog2_from-some zero zero given lt = absurd (omega arith)
ilog2_from-some zero (suc zero) given lt = (0, refl, omega arith, omega arith)
ilog2_from-some zero (suc (suc n)) given lt = absurd (omega arith)
ilog2_from-some (suc k) n given lt =
    let top = top_bit (suc k) n lt in
    let power = one-le-pow (suc k) 2 in
    elim (Bool-cases (leb (2 ^ suc k) n)) [
      | inl e ↦
          let set : has_bit n (suc k) ≡ true = rw (top, e) (ground arith) in
          (suc k, rw set refl, ground arith, lt)
      | inr e ↦
          let clear : has_bit n (suc k) ≡ false = rw (top, e) refl in
          let (l, found, low, high) = ilog2_from-some k n given (ground arith) in
          (l, rw clear found, low, high)
    ]

-- For a constant from 1 to 2 ^ 64 - 1 the conditional operators of `ilog2` give its logarithm, rounded
-- down.
pub ilog2_constant-floor :
    (n : ℕ)
    → 1 ≤ n
    → n < 2 ^ 64
    → (l : ℕ) × (ilog2_constant n ≡ some l) × (2 ^ l ≤ n) × (n < 2 ^ suc l)
unfolding ilog2_constant
ilog2_constant-floor n given lt =
    let (l, found, low, high) = ilog2_from-some 63 n given lt in
    let e : ltb n 1 ≡ false = ground arith in (l, rw e found, low, high)
