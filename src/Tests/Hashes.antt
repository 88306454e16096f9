-- ===== src/Tests/Hashes.antt =====
-- The theorems of the hash functions and the logarithm at concrete words and strings.
use hashtable_linux_kernel.Common.{suc}
use hashtable_linux_kernel.Log2.{roundup_pow_of_two, order_base_2}
use hashtable_linux_kernel.Log2.Rounding.{order_base_2-ceiling}
use hashtable_linux_kernel.Common.{ℕ, ◌≡◌, ◌≤◌, ◌<◌, ◌^◌, some, [], ◌∷◌, arith}
use hashtable_linux_kernel.Hash.{hash_64, hash_64_multiply, hash_time33, hash_str}
use hashtable_linux_kernel.Hash.Golden.{hash_64-multiply}
use hashtable_linux_kernel.Hash.Strings.{hash_time33-times_33}
use hashtable_linux_kernel.Hash.Words.{hash_str-lt}

hash_64-multiply_example : hash_64 123456789 20 ≡ hash_64_multiply 123456789 20
hash_64-multiply_example = hash_64-multiply 123456789 20 (omega arith)

-- The bytes of "ab" and 200, a negative `char`.
hash_time33-times_33_example : hash_time33 (97 ∷ 98 ∷ 200 ∷ []) ≡ some 193485808
hash_time33-times_33_example = hash_time33-times_33 (97 ∷ 98 ∷ 200 ∷ []) (λ c o. ground arith)

hash_str-lt_example : (h : ℕ) × (hash_str (97 ∷ 98 ∷ []) 10 ≡ some h) × (h < 2 ^ 10)
hash_str-lt_example = hash_str-lt (97 ∷ 98 ∷ []) 10 (omega arith) (omega arith)

order_base_2-ceiling_example :
    (k : ℕ) × (roundup_pow_of_two 1000 ≡ some (2 ^ suc k))
    × (order_base_2 1000 ≡ some (suc k))
    × (2 ^ k < 1000)
    × (1000 ≤ 2 ^ suc k)
order_base_2-ceiling_example = order_base_2-ceiling 1000 (omega arith) (omega arith)
