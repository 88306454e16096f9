-- ===== src/Hash/Strings.antt =====
-- `hash_time33` and `hash_fnv`.
use hashtable_linux_kernel.Common.{
  Bool, ℕ, zero, suc, ◌+◌, ◌-◌, ◌*◌, ◌^◌, ◌≡◌, ◌≤◌, ◌<◌, refl, ap, ◌∙◌, Bool-cases, inl, inr, true,
  false, ltb, ◌&&◌, if◌then◌else◌, Option, none, some, bind, List, [], ◌∷◌, ◌++◌, replicate, arith,
  ◌∈◌,
}
use mathlib.Core.Path.{fun_ext}
use hashtable_linux_kernel.Hash.{
  time33_step, time33_loop, over_bytes, hash_time33, hash_fnv, fnv_step, shl_int, add_int,
  char_to_int,
}

time33_loop-over_bytes :
    (hash : ℕ) (str : List ℕ) → time33_loop hash str ≡ over_bytes time33_step hash str
unfolding time33_loop over_bytes
time33_loop-over_bytes hash (a ∷ b ∷ c ∷ d ∷ e ∷ f ∷ g ∷ h ∷ str) =
    ap
      (λ (rest : ℕ → Option ℕ). bind (time33_step hash a) (λ hash.
        bind (time33_step hash b) (λ hash. bind (time33_step hash c) (λ hash.
          bind (time33_step hash d) (λ hash. bind (time33_step hash e) (λ hash.
            bind (time33_step hash f)
              (λ hash. bind (time33_step hash g) (λ hash. bind (time33_step hash h) rest))))))))
      (fun_ext (λ hash'. time33_loop-over_bytes hash' str))
time33_loop-over_bytes hash [] = refl
time33_loop-over_bytes hash (a ∷ []) = refl
time33_loop-over_bytes hash (a ∷ b ∷ []) = refl
time33_loop-over_bytes hash (a ∷ b ∷ c ∷ []) = refl
time33_loop-over_bytes hash (a ∷ b ∷ c ∷ d ∷ []) = refl
time33_loop-over_bytes hash (a ∷ b ∷ c ∷ d ∷ e ∷ []) = refl
time33_loop-over_bytes hash (a ∷ b ∷ c ∷ d ∷ e ∷ f ∷ []) = refl
time33_loop-over_bytes hash (a ∷ b ∷ c ∷ d ∷ e ∷ f ∷ g ∷ []) = refl

-- The number `33 * hash + c` for a signed `char`.
abbrev pub next_33 : (hash c : ℕ) → ℕ
next_33 hash c = if ltb c 128 then 33 * hash + c else 33 * hash + c - 256

abbrev pub fits_33 : (hash c : ℕ) → Bool
fits_33 hash c = ltb (33 * hash) (2 ^ 31) && ltb (next_33 hash c) (2 ^ 31)

-- `hash(i) = hash(i-1) * 33 + str[i]` while the numbers fit in an `int`, and else undefined.
abbrev pub times_33 : ℕ → List ℕ → Option ℕ
times_33 hash [] = some hash
times_33 hash (c ∷ str) =
    let rest = times_33 (next_33 hash c) str in if fits_33 hash c then rest else none

shl_int-fits :
    (a : ℕ) → a < 2 ^ 31 → shl_int a 5 ≡ (if ltb (32 * a) (2 ^ 31) then some (32 * a) else none)
shl_int-fits a small = ground arith

add_int-fits :
    (a b : ℕ)
    → a < 2 ^ 31
    → b < 2 ^ 31
    → add_int a b ≡ (if ltb (a + b) (2 ^ 31) then some (a + b) else none)
add_int-fits a b small small' = ground arith

-- The sum with a signed `char`, when the number is not below 128.
add_int-char :
    (a c : ℕ)
    → 128 ≤ a
    → a < 2 ^ 31
    → c < 256
    → add_int a (char_to_int c) ≡ (
        if ltb (if ltb c 128 then a + c else a + c - 256) (2 ^ 31)
        then some (if ltb c 128 then a + c else a + c - 256)
        else none)
add_int-char a c low small byte = elim (Bool-cases (ltb c 128)) [
  | inl t ↦ rw t (add_int-fits a c small (ground (arith, t)))
  | inr f ↦ rw f (ground (arith, f))
]

time33_step-next_33 :
    (hash c : ℕ)
    → 5381 ≤ hash
    → hash < 2 ^ 31
    → c < 256
    → time33_step hash c ≡ (if fits_33 hash c then some (next_33 hash c) else none)
unfolding time33_step bind
time33_step-next_33 hash c low high byte = elim (Bool-cases (ltb (32 * hash) (2 ^ 31))) [
  | inl t ↦
      let sum : 32 * hash + hash ≡ 33 * hash = omega arith in
      elim (Bool-cases (ltb (33 * hash) (2 ^ 31))) [
        | inl u ↦
            rw
              (
                shl_int-fits hash high,
                t,
                add_int-fits (32 * hash) hash (ground (arith, t)) high,
                sum,
                u,
              )
              (add_int-char (33 * hash) c (omega arith) (ground (arith, u)) byte)
        | inr u ↦
            rw
              (
                shl_int-fits hash high,
                t,
                add_int-fits (32 * hash) hash (ground (arith, t)) high,
                sum,
                u,
              )
              refl
      ]
  | inr f ↦
      let past : ltb (33 * hash) (2 ^ 31) ≡ false = ground (arith, f) in
      rw (shl_int-fits hash high, f, past) refl
]

over_bytes-times_33 :
    (hash : ℕ) (str : List ℕ)
    → 5381 ≤ hash
    → hash < 2 ^ 31
    → ((c : ℕ) → c ∈ str → c < 256)
    → over_bytes time33_step hash str ≡ times_33 hash str
unfolding over_bytes bind
over_bytes-times_33 hash [] low high bytes = refl
over_bytes-times_33 hash (c ∷ str) low high bytes =
    let step = time33_step-next_33 hash c low high (bytes c (ground arith)) in
    elim (Bool-cases (fits_33 hash c)) [
      | inl t ↦
          rw (step, t)
            (over_bytes-times_33 (next_33 hash c) str (ground arith) (ground (arith, t))
              (λ b o. bytes b (ground arith)))
      | inr f ↦ rw (step, f) refl
    ]

-- For a string of bytes `hash_time33`, unrolled eight times and with a `switch` that falls through, is
-- the loop `hash = hash * 33 + c` from 5381 over all bytes in order, each a signed `char`, as long as
-- `hash * 33` and the sum fit in an `int`, and is undefined else.
pub hash_time33-times_33 :
    (str : List ℕ) → ((c : ℕ) → c ∈ str → c < 256) → hash_time33 str ≡ times_33 5381 str
unfolding hash_time33
hash_time33-times_33 str bytes =
    time33_loop-over_bytes 5381 str ∙ over_bytes-times_33 5381 str (omega arith) (omega arith) bytes

next_33-low : (hash c : ℕ) → 8 ≤ hash → 33 * hash ≤ next_33 hash c + 256
next_33-low hash c low = ground arith

none_else : (b : Bool) (o : Option ℕ) → o ≡ none → (if b then o else none) ≡ none
none_else true o e = e
none_else false o e = refl

-- Of four bytes or more the hash is undefined.
pub hash_time33-none :
    (a b c d : ℕ) (str : List ℕ)
    → ((e : ℕ) → e ∈ a ∷ b ∷ c ∷ d ∷ str → e < 256)
    → hash_time33 (a ∷ b ∷ c ∷ d ∷ str) ≡ none
hash_time33-none a b c d str bytes =
    let h1 = next_33 5381 a in
    let h2 = next_33 h1 b in
    let h3 = next_33 h2 c in
    let past : ltb (33 * h3) (2 ^ 31) ≡ false =
      ground (arith, next_33-low 5381 a (omega arith), next_33-low h1 b, next_33-low h2 c) in
    let rest : (if fits_33 h3 d then times_33 (next_33 h3 d) str else none) ≡ none = rw past refl in
    hash_time33-times_33 (a ∷ b ∷ c ∷ d ∷ str) bytes
    ∙ none_else (fits_33 5381 a) _ (none_else (fits_33 h1 b) _ (none_else (fits_33 h2 c) _ rest))

-- Leading zero bytes do not change `hash_fnv`: it starts at 0, where FNV has its offset basis.
pub hash_fnv-zeros : (n : ℕ) (str : List ℕ) → hash_fnv (replicate n 0 ++ str) ≡ hash_fnv str
unfolding hash_fnv over_bytes fnv_step bind
hash_fnv-zeros zero str = refl
hash_fnv-zeros (suc n) str = hash_fnv-zeros n str
