-- ===== src/Main/Time.antt =====
-- The time that the example program prints (`diff_timespec`).
use hashtable_linux_kernel.Common.{
  ℕ, zero, suc, [], ◌∷◌, ◌+◌, ◌-◌, ◌*◌, ◌^◌, ◌≡◌, ◌≤◌, ◌<◌, refl, false, ltb, leb, ◌==◌, ◌&&◌, ◌||◌,
  if◌then◌else◌, ◌⊎◌, Bool-cases, inl, inr, arith,
}
use hashtable_linux_kernel.Main.{
  Timespec, TimeText, float_text, integer_text, Diff, negative, overflow, printed, FloatOps,
  in_unit, diff_timespec,
}

-- Nanoseconds since the origin of the clock.
abbrev pub nanoseconds : Timespec → ℕ
nanoseconds t = t.tv_sec * 1000000000 + t.tv_nsec

-- The order of two times.
earlier :
    (s1 n1 s2 n2 : ℕ)
    → n1 < 1000000000
    → n2 < 1000000000
    → (ltb s2 s1 || ((s2 == s1) && ltb n2 n1)) ≡ ltb (s2 * 1000000000 + n2) (s1 * 1000000000 + n1)
earlier s1 n1 s2 n2 proper proper' = ground arith

-- What the borrowed second leaves.
borrowed :
    (s1 n1 s2 n2 : ℕ)
    → n1 < 1000000000
    → n2 < 1000000000
    → ltb (s2 * 1000000000 + n2) (s1 * 1000000000 + n1) ≡ false
    → (if ltb n2 n1 then s2 - s1 - 1 else s2 - s1) * 1000000000
        + (if ltb n2 n1 then n2 + 1000000000 - n1 else n2 - n1)
      ≡ s2 * 1000000000 + n2 - (s1 * 1000000000 + n1)
borrowed s1 n1 s2 n2 proper proper' later = ground (arith, later)

module _ {Float : Type 0} (ops : FloatOps Float) where
  -- The text of `n` nanoseconds in the unit of `1000 ^ k` of them.
  abbrev pub unit_text : (k n : ℕ) → TimeText Float
  unit_text zero n = integer_text n (110 ∷ 115 ∷ [])
  unit_text (suc zero) n =
      float_text (ops.divide (ops.of_integer n) (ops.constant 1000)) (194 ∷ 181 ∷ 115 ∷ [])
  unit_text (suc (suc zero)) n =
      float_text (ops.divide (ops.of_integer n) (ops.constant (1000 * 1000))) (109 ∷ 115 ∷ [])
  unit_text (suc (suc (suc k))) n =
      float_text (ops.divide (ops.of_integer n) (ops.constant (1000 * 1000 * 1000))) (115 ∷ [])

  -- What is to be printed between `n1` and `n2` nanoseconds: nothing if `n2` is the earlier, and else
  -- their difference, in the largest of the four units that is not above it, or in nanoseconds.
  pub data Shown (n1 n2 : ℕ) : Diff Float → Type 0 where
    earlier_end : n2 < n1 → Shown n1 n2 negative
    too_long : n1 + 2 ^ 63 ≤ n2 → Shown n1 n2 overflow
    shown :
        (k n : ℕ)
        → n1 + n ≡ n2
        → n < 2 ^ 63
        → k ≤ 3
        → (k ≡ 0) ⊎ (1000 ^ k ≤ n)
        → (k ≡ 3) ⊎ (n < 1000 ^ suc k)
        → Shown n1 n2 (printed (unit_text k n))

  in_unit-Shown : (n1 n2 n : ℕ) → n1 + n ≡ n2 → n < 2 ^ 63 → Shown n1 n2 (printed (in_unit ops n))
  unfolding in_unit
  in_unit-Shown n1 n2 n sum small = elim (Bool-cases (leb 1000000000 n)) [
    | inl s ↦ rw s (shown 3 n sum small (omega arith) (inr (ground (arith, s))) (inl refl))
    | inr s ↦ elim (Bool-cases (leb 1000000 n)) [
      | inl ms ↦
          rw (s, ms)
            (shown 2 n sum small (omega arith) (inr (ground (arith, ms))) (inr (ground (arith, s))))
      | inr ms ↦ elim (Bool-cases (leb 1000 n)) [
        | inl us ↦
            rw (s, ms, us)
              (shown 1 n sum small (omega arith) (inr (ground (arith, us)))
                (inr (ground (arith, ms))))
        | inr us ↦
            rw (s, ms, us) (shown 0 n sum small (omega arith) (inl refl) (inr (ground (arith, us))))
      ]
    ]
  ]

  -- For two times with less than a second of nanoseconds each, `diff_timespec` returns NULL if the second
  -- is the earlier one, and else prints the difference of the two in nanoseconds, divided by the largest
  -- of a microsecond, a millisecond and a second that is not above it, with the name of that unit, or
  -- whole if it is below a microsecond. A difference of 2 ^ 63 nanoseconds or more is undefined.
  pub diff_timespec-Shown :
      (t1 t2 : Timespec)
      → t1.tv_nsec < 1000000000
      → t2.tv_nsec < 1000000000
      → Shown (nanoseconds t1) (nanoseconds t2) (diff_timespec ops t1 t2)
  unfolding diff_timespec
  diff_timespec-Shown t1 t2 proper proper' =
      let order = earlier t1.tv_sec t1.tv_nsec t2.tv_sec t2.tv_nsec proper proper' in
      let n = nanoseconds t2 - nanoseconds t1 in
      elim (Bool-cases (ltb (nanoseconds t2) (nanoseconds t1))) [
        | inl t ↦ rw (order, t) (earlier_end (ground (arith, t)))
        | inr f ↦
            let sum = borrowed t1.tv_sec t1.tv_nsec t2.tv_sec t2.tv_nsec proper proper' f in
            elim (Bool-cases (ltb n (2 ^ 63))) [
              | inl u ↦
                  rw (order, f, sum, u)
                    (in_unit-Shown (nanoseconds t1) (nanoseconds t2) n (ground (arith, f))
                      (ground (arith, u)))
              | inr u ↦ rw (order, f, sum, u) (too_long (ground (arith, f, u)))
            ]
      ]
