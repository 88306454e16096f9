-- ===== src/Common/Bits.antt =====
-- The digit operations at variables: the law of the lowest digit, masks, and bounds.
use Prim.Native.Nat.{
  ℕ, zero, suc, ◌+◌, ◌-◌, ◌*◌, ◌/◌, ◌%◌, ◌^◌, ◌≤◌, ◌<◌, min, bit_and, bit_xor, digits, differ,
  bit_and-bitwise, bit_xor-bitwise,
}
use mathlib.Core.Path.{◌≡◌, refl, ap, ap₂, ◌∙◌, sym}
use native.Mathlib.Nat.{
  pow-suc, suc-add, zero-add, pow-zero, one-le-pow, div-add-mod, mod-lt, mul-add-mod_self_left,
  mod-eq_of_lt,
}
use native.Mathlib.Omega.{arith}

-- The count of digits to go does not matter once it covers the first number.
digits_enough :
    (z : ℕ → ℕ) (f : ℕ → ℕ → ℕ) (n m a b : ℕ) → a ≤ n → a ≤ m → digits z f n a b ≡ digits z f m a b
digits_enough z f zero zero zero b p q = refl
digits_enough z f zero (suc m) zero b p q = refl
digits_enough z f (suc n) zero zero b p q = refl
digits_enough z f (suc n) (suc m) zero b p q = refl
digits_enough z f zero m (suc a) b p q = absurd (omega arith)
digits_enough z f (suc n) zero (suc a) b p q = absurd (omega arith)
digits_enough z f (suc n) (suc m) (suc a) b p q =
    ap (λ (t : ℕ). t * 2 + f (suc a % 2) (b % 2))
      (digits_enough z f n m (suc a / 2) (b / 2) (omega arith) (omega arith))

digits_step :
    (z : ℕ → ℕ) (f : ℕ → ℕ → ℕ)
    → ((b : ℕ) → z b ≡ z (b / 2) * 2 + f 0 (b % 2))
    → (a b : ℕ) → digits z f a a b ≡ digits z f (a / 2) (a / 2) (b / 2) * 2 + f (a % 2) (b % 2)
digits_step z f base zero b = base b
digits_step z f base (suc a) b =
    ap (λ (t : ℕ). t * 2 + f (suc a % 2) (b % 2))
      (digits_enough z f a (suc a / 2) (suc a / 2) (b / 2) (omega arith) (omega arith))

pub bit_and-half : (a b : ℕ) → bit_and a b ≡ bit_and (a / 2) (b / 2) * 2 + min (a % 2) (b % 2)
bit_and-half a b =
    bit_and-bitwise a b
    ∙ digits_step (λ _. 0) min (λ b. omega arith) a b
    ∙ ap (λ (t : ℕ). t * 2 + min (a % 2) (b % 2)) (sym (bit_and-bitwise (a / 2) (b / 2)))

pub bit_xor-half : (a b : ℕ) → bit_xor a b ≡ bit_xor (a / 2) (b / 2) * 2 + differ (a % 2) (b % 2)
bit_xor-half a b =
    bit_xor-bitwise a b
    ∙ digits_step (λ b. b) differ (λ b. omega arith) a b
    ∙ ap (λ (t : ℕ). t * 2 + differ (a % 2) (b % 2)) (sym (bit_xor-bitwise (a / 2) (b / 2)))

pub differ-lt : (a b : ℕ) → a < 2 → b < 2 → differ a b < 2
differ-lt zero b p q = q
differ-lt (suc zero) zero p q = omega arith
differ-lt (suc zero) (suc b) p q = omega arith
differ-lt (suc (suc a)) b p q = absurd (omega arith)

bit_and-zero_below : (top n : ℕ) → n ≤ top → bit_and n 0 ≡ 0
bit_and-zero_below top zero small = refl
bit_and-zero_below zero (suc n) small = absurd (omega arith)
bit_and-zero_below (suc top) (suc n) small =
    let rest = bit_and-zero_below top (suc n / 2) (omega arith) in
    omega (arith, rest, bit_and-half (suc n) 0)

mod-double : (a m : ℕ) → 0 < m → a % (2 * m) ≡ (a / 2) % m * 2 + a % 2
mod-double a m h =
    let s = (a / 2) % m * 2 + a % 2 in
    let split : a ≡ 2 * m * (a / 2 / m) + s = omega (arith, div-add-mod (a / 2) m) in
    let small : s < 2 * m = omega (arith, mod-lt (a / 2) h) in
    ap (λ (t : ℕ). t % (2 * m)) split
    ∙ mul-add-mod_self_left (2 * m) (a / 2 / m) s
    ∙ mod-eq_of_lt small

-- A mask of `k` ones keeps the remainder by `2 ^ k`.
pub bit_and_mask : (k a : ℕ) → bit_and a (2 ^ k - 1) ≡ a % 2 ^ k
bit_and_mask zero a = omega (arith, bit_and-zero_below a a (omega arith))
bit_and_mask (suc k) a =
    let p : 2 ^ suc k ≡ 2 * 2 ^ k = omega (arith, pow-suc 2 k) in
    let one = one-le-pow k 2 in
    let half : (2 * 2 ^ k - 1) / 2 ≡ 2 ^ k - 1 = omega arith in
    rw p (
      bit_and-half a (2 * 2 ^ k - 1)
      ∙ ap₂ (λ (s t : ℕ). s * 2 + t) (ap (bit_and (a / 2)) half ∙ bit_and_mask k (a / 2))
          (omega arith)
      ∙ sym (mod-double a (2 ^ k) (omega arith)))

pub bit_xor-lt : (k a b : ℕ) → a < 2 ^ k → b < 2 ^ k → bit_xor a b < 2 ^ k
bit_xor-lt zero zero zero p q = omega arith
bit_xor-lt zero zero (suc b) p q = absurd (omega arith)
bit_xor-lt zero (suc a) b p q = absurd (omega arith)
bit_xor-lt (suc k) a b p q =
    let e = pow-suc 2 k in
    omega (
      arith,
      e,
      bit_xor-half a b,
      differ-lt (a % 2) (b % 2) (omega arith) (omega arith),
      bit_xor-lt k (a / 2) (b / 2) (omega (arith, e)) (omega (arith, e)),
    )

pub pow-add : (n a b : ℕ) → n ^ (a + b) ≡ n ^ a * n ^ b
pow-add n zero b = rw (zero-add, pow-zero) (omega arith)
pow-add n (suc a) b = rw (suc-add, pow-suc, pow-suc, pow-add n a b) (omega arith)
