-- ===== src/Main/Texts.antt =====
-- The texts that the example program prints: numbers and hardware addresses.
use hashtable_linux_kernel.Common.{
  ℕ, zero, suc, ◌+◌, ◌-◌, ◌*◌, ◌%◌, ◌/◌, ◌^◌, ◌≡◌, ◌<◌, refl, Bool-cases, inl, inr, ltb, leb, ◌&&◌,
  ◌==◌, true, false, Option, none, some, bind, if◌then◌else◌, List, [], ◌∷◌, ◌++◌, length, arith,
}
use hashtable_linux_kernel.Main.Nodes.{decimal_from, decimal, hex_digit, mac_text}

-- The number that a text of decimal digits stands for.
abbrev pub number_from : ℕ → List ℕ → ℕ
number_from n [] = n
number_from n (c ∷ cs) = number_from (n * 10 + (c - 48)) cs

number_from-append :
    (n : ℕ) (xs : List ℕ) (c : ℕ) → number_from n (xs ++ c ∷ []) ≡ number_from n xs * 10 + (c - 48)
number_from-append n [] c = refl
number_from-append n (x ∷ xs) c = number_from-append (n * 10 + (x - 48)) xs c

decimal_from-number : (fuel n : ℕ) → n < 10 ^ fuel → number_from 0 (decimal_from fuel n) ≡ n
unfolding decimal_from
decimal_from-number zero n small = omega (arith, small)
decimal_from-number (suc fuel) n small = elim (Bool-cases (ltb n 10)) [
  | inl t ↦ rw t (omega arith)
  | inr f ↦
      rw
        (
          f,
          number_from-append 0 (decimal_from fuel (n / 10)) (48 + n % 10),
          decimal_from-number fuel (n / 10) (omega (arith, small)),
        )
        (omega arith)
]

-- The text of an `int` that is not negative stands for that number.
pub decimal-number : (n : ℕ) → n < 2 ^ 31 → number_from 0 (decimal n) ≡ n
decimal-number n small = decimal_from-number 10 n (omega (arith, small))

-- The text of six bytes has 17 characters, as `print_mac_node` reserves.
mac_text-length : (b : ℕ) (bs : List ℕ) → length (mac_text (b ∷ bs)) ≡ 2 + 3 * length bs
unfolding mac_text
mac_text-length b [] = refl
mac_text-length b (c ∷ bs) = let rest = mac_text-length c bs in omega arith

-- The value of a digit of a hexadecimal number, `0` to `9` and `a` to `f`; no other character is one.
abbrev digit_value : ℕ → Option ℕ
digit_value c =
    if leb 48 c && leb c 57
    then some (c - 48)
    else if leb 97 c && leb c 102
    then some (c - 87)
    else none

abbrev pair_value : (h l : ℕ) → Option ℕ
pair_value h l = bind (digit_value h) (λ x. bind (digit_value l) (λ y. some (x * 16 + y)))

-- The bytes of a text of pairs of digits with one colon between each two; another text has none.
abbrev pub bytes_of : List ℕ → Option (List ℕ)
bytes_of [] = some []
bytes_of (h ∷ []) = none
bytes_of (h ∷ l ∷ []) = bind (pair_value h l) (λ b. some (b ∷ []))
bytes_of (h ∷ l ∷ c ∷ []) = none
bytes_of (h ∷ l ∷ c ∷ d ∷ cs) =
    let rest = bytes_of (d ∷ cs) in
    if c == 58 then bind (pair_value h l) (λ b. bind rest (λ bs. some (b ∷ bs))) else none

hex_digit-value : (d : ℕ) → d < 16 → digit_value (hex_digit d) ≡ some d
unfolding hex_digit
hex_digit-value d small = elim (Bool-cases (ltb d 10)) [
  | inl t ↦
      let low : (leb 48 (48 + d) && leb (48 + d) 57) ≡ true = ground (arith, t) in
      let same : 48 + d - 48 ≡ d = omega arith in rw (t, low, same) refl
  | inr f ↦
      let high : (leb 48 (87 + d) && leb (87 + d) 57) ≡ false = ground (arith, f) in
      let letter : (leb 97 (87 + d) && leb (87 + d) 102) ≡ true = ground (arith, f) in
      let same : 87 + d - 87 ≡ d = omega arith in rw (f, high, letter, same) refl
]

-- Every member of the list is a byte.
abbrev pub AllBytes : List ℕ → Type 0
AllBytes [] = Unit
AllBytes (b ∷ bs) = (b < 256) × AllBytes bs

hex-value : (b : ℕ) → b < 256 → pair_value (hex_digit (b / 16)) (hex_digit (b % 16)) ≡ some b
unfolding bind
hex-value b small =
    let same : b / 16 * 16 + b % 16 ≡ b = omega arith in
    rw (hex_digit-value (b / 16) (omega arith), hex_digit-value (b % 16) (omega arith), same) refl

-- The text of a list of bytes, as a hardware address is printed, is of pairs of hexadecimal digits with one
-- colon between each two, and gives the bytes back.
pub mac_text-bytes_of : (bs : List ℕ) → AllBytes bs → bytes_of (mac_text bs) ≡ some bs
unfolding mac_text bind
mac_text-bytes_of [] small = refl
mac_text-bytes_of (b ∷ []) small = rw (hex-value b small.0) refl
mac_text-bytes_of (b ∷ c ∷ []) small =
    rw (hex-value b small.0, mac_text-bytes_of (c ∷ []) small.1) refl
mac_text-bytes_of (b ∷ c ∷ d ∷ bs) small =
    rw (hex-value b small.0, mac_text-bytes_of (c ∷ d ∷ bs) small.1) refl
