-- ===== src/Hash.antt =====
-- The hash functions of hash.h. A word is a number below 2 ^ 32 or 2 ^ 64, an `int` its bit pattern, a
-- string the list of its bytes. `none` is what is undefined: a shift by the width or more, and for an
-- `int` a sum or a product that does not fit, and a shift to the left of a negative number or past the
-- largest `int`.
pub mod Golden
pub mod Strings
pub mod Words
use hashtable_linux_kernel.Common.{
  ℕ, zero, suc, ◌+◌, ◌-◌, ◌*◌, ◌/◌, ◌%◌, ◌^◌, Bool, true, false, not, ◌&&◌, ◌||◌, ltb, leb,
  if◌then◌else◌, Option, bind, none, some, List, [], ◌∷◌, length, take, drop, ◌==◌,
}
use Prim.Native.Nat.{bit_xor}

abbrev pub u32 : ℕ
u32 = 2 ^ 32

abbrev pub u64 : ℕ
u64 = 2 ^ 64

-- `a - b` on `u64`.
abbrev pub sub64 : ℕ → ℕ → ℕ
sub64 a b = (a + (u64 - b)) % u64

abbrev pub add64 : ℕ → ℕ → ℕ
add64 a b = (a + b) % u64

abbrev pub shl64 : ℕ → ℕ → ℕ
shl64 a k = (a * 2 ^ k) % u64

abbrev pub golden_ratio_prime_32 : ℕ
golden_ratio_prime_32 = 0x9e370001

abbrev pub golden_ratio_prime_64 : ℕ
golden_ratio_prime_64 = 0x9e37fffffffc0001

-- `hash >> k` at a width of `width` bits.
abbrev pub shift_right : (width hash k : ℕ) → Option ℕ
shift_right width hash k = if ltb k width then some (hash / 2 ^ k) else none

-- `width - bits` of an `unsigned int`.
abbrev pub high_shift : (width bits : ℕ) → ℕ
high_shift width bits = (width + (u32 - bits % u32)) % u32

-- The product by shifts and sums: the branch for a build without `CONFIG_ARCH_HAS_FAST_MULTIPLIER`,
-- which no file of the repository defines.
unfoldable pub mix_64 : ℕ → ℕ
mix_64 val =
    let n = shl64 val 18 in
    let hash = sub64 val n in
    let n = shl64 n 33 in
    let hash = sub64 hash n in
    let n = shl64 n 3 in
    let hash = add64 hash n in
    let n = shl64 n 3 in
    let hash = sub64 hash n in
    let n = shl64 n 4 in let hash = add64 hash n in let n = shl64 n 2 in add64 hash n

unfoldable pub hash_64 : (val bits : ℕ) → Option ℕ
unfolding mix_64
hash_64 val bits = shift_right 64 (mix_64 val) (high_shift 64 bits)

-- The branch for a fast multiplier.
unfoldable pub hash_64_multiply : (val bits : ℕ) → Option ℕ
hash_64_multiply val bits =
    shift_right 64 ((val * golden_ratio_prime_64) % u64) (high_shift 64 bits)

unfoldable pub hash_32 : (val bits : ℕ) → Option ℕ
hash_32 val bits = shift_right 32 ((val * golden_ratio_prime_32) % u32) (high_shift 32 bits)

-- `__BITS_PER_LONG` is 64.
unfoldable pub hash_ptr : (ptr bits : ℕ) → Option ℕ
hash_ptr ptr bits = hash_64 ptr bits

unfoldable pub hash32_ptr : ℕ → ℕ
hash32_ptr ptr = bit_xor ptr (ptr / 2 ^ 32) % u32

-- `hash >> k` of an `int`: copies of the sign bit come in.
abbrev pub shift_signed : (hash k : ℕ) → ℕ
shift_signed hash k = if ltb hash (2 ^ 31) then hash / 2 ^ k else (hash + (2 ^ k - 1) * u32) / 2 ^ k

-- A `char` is signed: its value as an `int`.
abbrev pub char_to_int : ℕ → ℕ
char_to_int c = if ltb c 128 then c else c + (u32 - 256)

abbrev pub is_negative : ℕ → Bool
is_negative a = leb (2 ^ 31) a

abbrev pub same_sign : (a b : ℕ) → Bool
same_sign a b = if is_negative a then is_negative b else not (is_negative b)

-- `a + b`, `a << k` and `a * b` of `int`.
abbrev pub add_int : (a b : ℕ) → Option ℕ
add_int a b =
    let sum = (a + b) % u32 in if (same_sign a b) && not (same_sign sum a) then none else some sum

abbrev pub shl_int : (a k : ℕ) → Option ℕ
shl_int a k = if is_negative a || leb (2 ^ 31) (a * 2 ^ k) then none else some (a * 2 ^ k)

abbrev pub magnitude : ℕ → ℕ
magnitude a = if is_negative a then u32 - a else a

abbrev pub mul_int : (a b : ℕ) → Option ℕ
mul_int a b =
    let product = magnitude a * magnitude b in
    if same_sign a b
    then (if ltb product (2 ^ 31) then some product else none)
    else if leb product (2 ^ 31)
    then some ((u32 - product) % u32)
    else none

-- `hash += (hash << k)`
abbrev pub add_shifted : (hash k : ℕ) → Option ℕ
add_shifted hash k = bind (shl_int hash k) (λ shifted. add_int hash shifted)

jenkins_step : ℕ → ℕ → Option ℕ
jenkins_step hash c =
    bind (add_int hash c)
      (λ hash. bind (add_shifted hash 10) (λ hash. some (bit_xor hash (shift_signed hash 6))))

-- A loop over the bytes with a step that may be undefined.
unfoldable pub over_bytes : (step : ℕ → ℕ → Option ℕ) → ℕ → List ℕ → Option ℕ
over_bytes step hash [] = some hash
over_bytes step hash (c ∷ str) = bind (step hash c) (λ hash. over_bytes step hash str)

unfoldable pub hash_jenkins : List ℕ → Option ℕ
unfolding jenkins_step over_bytes
hash_jenkins key = bind (over_bytes jenkins_step 0 key) (λ hash.
    bind (add_shifted hash 3) (λ hash. add_shifted (bit_xor hash (shift_signed hash 11)) 15))

-- `hash = ((hash << 5) + hash) + *str++`
unfoldable pub time33_step : ℕ → ℕ → Option ℕ
time33_step hash c =
    bind (shl_int hash 5)
      (λ shifted. bind (add_int shifted hash) (λ sum. add_int sum (char_to_int c)))

-- The cases of the `switch`, each of which falls through to the next.
case_1 : ℕ → List ℕ → Option ℕ
unfolding time33_step
case_1 hash [] = some hash
case_1 hash (c ∷ str) = bind (time33_step hash c) (λ hash. some hash)

case_2 : ℕ → List ℕ → Option ℕ
unfolding time33_step case_1
case_2 hash [] = some hash
case_2 hash (c ∷ str) = bind (time33_step hash c) (λ hash. case_1 hash str)

case_3 : ℕ → List ℕ → Option ℕ
unfolding time33_step case_2
case_3 hash [] = some hash
case_3 hash (c ∷ str) = bind (time33_step hash c) (λ hash. case_2 hash str)

case_4 : ℕ → List ℕ → Option ℕ
unfolding time33_step case_3
case_4 hash [] = some hash
case_4 hash (c ∷ str) = bind (time33_step hash c) (λ hash. case_3 hash str)

case_5 : ℕ → List ℕ → Option ℕ
unfolding time33_step case_4
case_5 hash [] = some hash
case_5 hash (c ∷ str) = bind (time33_step hash c) (λ hash. case_4 hash str)

case_6 : ℕ → List ℕ → Option ℕ
unfolding time33_step case_5
case_6 hash [] = some hash
case_6 hash (c ∷ str) = bind (time33_step hash c) (λ hash. case_5 hash str)

case_7 : ℕ → List ℕ → Option ℕ
unfolding time33_step case_6
case_7 hash [] = some hash
case_7 hash (c ∷ str) = bind (time33_step hash c) (λ hash. case_6 hash str)

switch_time33 : (len hash : ℕ) → List ℕ → Option ℕ
unfolding case_1 case_2 case_3 case_4 case_5 case_6 case_7
switch_time33 len hash str =
    if len == 7
    then case_7 hash str
    else if len == 6
    then case_6 hash str
    else if len == 5
    then case_5 hash str
    else if len == 4
    then case_4 hash str
    else if len == 3
    then case_3 hash str
    else if len == 2
    then case_2 hash str
    else if len == 1
    then case_1 hash str
    else some hash

-- Eight bytes to a round while at least eight are left.
time33_loop : ℕ → List ℕ → Option ℕ
unfolding switch_time33 time33_step
time33_loop hash (a ∷ b ∷ c ∷ d ∷ e ∷ f ∷ g ∷ h ∷ str) = bind (time33_step hash a) (λ hash.
    bind (time33_step hash b) (λ hash. bind (time33_step hash c) (λ hash.
      bind (time33_step hash d) (λ hash. bind (time33_step hash e) (λ hash.
        bind (time33_step hash f) (λ hash.
          bind (time33_step hash g)
            (λ hash. bind (time33_step hash h) (λ hash. time33_loop hash str))))))))
time33_loop hash str = switch_time33 (length str) hash str

unfoldable pub hash_time33 : List ℕ → Option ℕ
unfolding time33_loop
hash_time33 str = time33_loop 5381 str

-- As an `int`, a negative number.
abbrev pub fnv_prime : ℕ
fnv_prime = 0x811C9DC5

unfoldable pub fnv_step : ℕ → ℕ → Option ℕ
fnv_step hash c = bind (mul_int hash fnv_prime) (λ hash. some (bit_xor hash (char_to_int c)))

unfoldable pub hash_fnv : List ℕ → Option ℕ
unfolding fnv_step over_bytes
hash_fnv str = over_bytes fnv_step 0 str

-- The number that bytes stand for in memory, lowest first.
abbrev pub word : List ℕ → ℕ
word [] = 0
word (b ∷ bs) = b + 256 * word bs

-- How many bytes a round reads when `len` are left.
abbrev pub read_size : ℕ → ℕ
read_size len = if leb 8 len then 8 else if leb 4 len then 4 else 1

-- `while (len > 0)`; `none` means that the fuel ran out.
unfoldable pub sum_loop : ℕ → ℕ → List ℕ → Option ℕ
sum_loop zero hash str = none
sum_loop (suc fuel) hash str =
    let k = read_size (length str) in
    let rest = sum_loop fuel (add64 hash (word (take k str))) (drop k str) in
    if ltb 0 (length str) then rest else some hash

-- What follows the loop: the 32-bit hash for up to 32 bits, the 64-bit hash for more.
abbrev pub finish_str : (bits : ℕ) → Option ℕ → Option ℕ
finish_str bits none = none
finish_str bits (some hash) = if leb bits 32 then hash_32 (hash % u32) bits else hash_64 hash bits

unfoldable pub hash_str : List ℕ → (bits : ℕ) → Option ℕ
unfolding sum_loop
hash_str str bits = finish_str bits (sum_loop (length str + 1) 0 str)

unfoldable pub hash64_str : List ℕ → Option ℕ
hash64_str str = hash_str str 64

unfoldable pub hash32_str : List ℕ → Option ℕ
hash32_str str = hash_str str 32
