-- ===== src/Hash/Words.antt =====
-- `hash_str`: it ends, when it is defined, its range, and which strings it confuses.
use hashtable_linux_kernel.Common.{
  ℕ, zero, suc, ◌+◌, ◌%◌, ◌^◌, ◌≡◌, ◌≤◌, ◌<◌, refl, ap, sym, ◌∙◌, true, leb, some, List, [], ◌∷◌,
  ◌++◌, arith, ltb, length, length-append, length-drop, take, drop, take-append, drop-append,
  Bool-cases, inl, inr,
}
use hashtable_linux_kernel.Hash.{u32, u64, add64, word, read_size, finish_str, sum_loop, hash_str}
use hashtable_linux_kernel.Hash.Golden.{hash_32-lt, hash_64-lt}

-- With more fuel than bytes the loop over the string ends, in a 64-bit word.
sum_loop-ends :
    (fuel hash : ℕ) (str : List ℕ)
    → length str < fuel
    → hash < u64
    → (h : ℕ) × (sum_loop fuel hash str ≡ some h) × (h < u64)
unfolding sum_loop
sum_loop-ends zero hash str enough small = absurd (omega arith)
sum_loop-ends (suc fuel) hash str enough small = elim (Bool-cases (ltb 0 (length str))) [
  | inr done ↦ (hash, rw done, small)
  | inl more ↦
      let k = read_size (length str) in
      let left : length (drop k str) < fuel = ground (arith, length-drop k str) in
      let (h, e, b) =
        sum_loop-ends fuel (add64 hash (word (take k str))) (drop k str) left (omega arith) in
      (h, rw more e, b)
]

-- `hash_str` is defined for 1 to 64 bits, on every string: its loop ends, and the hash lies below
-- `2 ^ bits`.
pub hash_str-lt :
    (str : List ℕ) (bits : ℕ)
    → 1 ≤ bits
    → bits ≤ 64
    → (h : ℕ) × (hash_str str bits ≡ some h) × (h < 2 ^ bits)
unfolding hash_str
hash_str-lt str bits lo hi =
    let (s, e, small) = sum_loop-ends (length str + 1) 0 str (omega arith) (omega arith) in
    let run = ap (finish_str bits) e in
    elim (Bool-cases (leb bits 32)) [
      | inl narrow ↦
          let r = hash_32-lt (s % u32) bits lo (ground arith) in (r.0, run ∙ rw narrow r.1, r.2)
      | inr wide ↦ let r = hash_64-lt s bits lo hi in (r.0, run ∙ rw wide r.1, r.2)
    ]

-- One round over a block of eight bytes.
sum_loop-block :
    (fuel hash : ℕ) (x rest : List ℕ)
    → length x ≡ 8
    → sum_loop (suc fuel) hash (x ++ rest) ≡ sum_loop fuel (add64 hash (word x)) rest
unfolding sum_loop
sum_loop-block fuel hash x rest eight =
    let k : read_size (length (x ++ rest)) ≡ length x = ground (arith, length-append x rest) in
    let more : ltb 0 (length (x ++ rest)) ≡ true = ground (arith, length-append x rest) in
    rw (more, k, take-append x rest, drop-append x rest)

sum_loop-blocks :
    (fuel : ℕ) (x y rest : List ℕ)
    → length x ≡ 8
    → length y ≡ 8
    → sum_loop (suc (suc fuel)) 0 (x ++ (y ++ rest)) ≡ sum_loop fuel ((word x + word y) % u64) rest
sum_loop-blocks fuel x y rest p q =
    sum_loop-block (suc fuel) 0 x (y ++ rest) p
    ∙ sum_loop-block fuel (add64 0 (word x)) y rest q
    ∙ ap (λ (h : ℕ). sum_loop fuel h rest) (omega arith)

-- `hash_str` confuses strings that differ in the order of their first two blocks of eight bytes.
pub hash_str-swap :
    (x y rest : List ℕ) (bits : ℕ)
    → length x ≡ 8
    → length y ≡ 8
    → hash_str (x ++ (y ++ rest)) bits ≡ hash_str (y ++ (x ++ rest)) bits
unfolding hash_str
hash_str-swap x y rest bits p q =
    let n = length rest + 15 in
    let a : length (x ++ (y ++ rest)) + 1 ≡ suc (suc n) =
      omega (arith, length-append x (y ++ rest), length-append y rest) in
    let b : length (y ++ (x ++ rest)) + 1 ≡ suc (suc n) =
      omega (arith, length-append y (x ++ rest), length-append x rest) in
    ap (finish_str bits) (
      ap (λ (k : ℕ). sum_loop k 0 (x ++ (y ++ rest))) a
      ∙ sum_loop-blocks n x y rest p q
      ∙ ap (λ (h : ℕ). sum_loop n h rest) (omega arith)
      ∙ sym (sum_loop-blocks n y x rest q p)
      ∙ sym (ap (λ (k : ℕ). sum_loop k 0 (y ++ (x ++ rest))) b))

-- A zero byte at the end of a string of at most two bytes does not change `hash_str`.
pub hash_str-zero :
    (str : List ℕ) (bits : ℕ) → length str ≤ 2 → hash_str (str ++ 0 ∷ []) bits ≡ hash_str str bits
unfolding hash_str
hash_str-zero [] bits h = refl
hash_str-zero (a ∷ []) bits h = ap (λ (s : ℕ). finish_str bits (some s)) (omega arith)
hash_str-zero (a ∷ b ∷ []) bits h = ap (λ (s : ℕ). finish_str bits (some s)) (omega arith)
hash_str-zero (a ∷ b ∷ c ∷ str) bits h = absurd (omega arith)
