-- ===== src/Once/Copies.antt =====
-- What `READ_ONCE` and `WRITE_ONCE` (compiler.h) read and write, for an object of any size.
use hashtable_linux_kernel.Common.{
  ℕ, zero, suc, ◌+◌, ◌-◌, ◌*◌, ◌/◌, ◌%◌, ◌≡◌, ◌<◌, refl, ap, ap₂, ◌∙◌, sym, Bool-cases, inl, inr,
  true, false, ltb, leb, ◌&&◌, ◌||◌, ◌==◌, if◌then◌else◌, List, [], ◌∷◌, length, arith, ◌∈◌,
  Returns, returns, Returns-inv,
}
use hashtable_linux_kernel.Links.{Addr, update}
use hashtable_linux_kernel.Once.{
  Bytes, load, store, assign, copied, memcpy, __read_once_size, __write_once_size, bytes_at, put,
  read_once,
}

-- Every byte of the memory is a byte.
abbrev pub IsBytes : Bytes → Type 0
IsBytes m = (a : Addr) → m a < 256

store-load :
    (n to from : ℕ) (m g : Bytes)
    → IsBytes m
    → (a : Addr)
    → store n to (load n from m) g a
      ≡ (if leb to a && ltb a (to + n) then m (from + (a - to)) else g a)
unfolding store load
store-load zero to from m g is a =
    let none : (leb to a && ltb a (to + 0)) ≡ false = ground arith in rw none refl
store-load (suc n) to from m g is a =
    let b = is from in
    let low : (m from + 256 * load n (suc from) m) % 256 ≡ m from = omega (arith, b) in
    let high : (m from + 256 * load n (suc from) m) / 256 ≡ load n (suc from) m =
      omega (arith, b) in
    rw (low, high, store-load n (suc to) (suc from) m (update g to (m from)) is a)
      (elim (Bool-cases (a == to)) [
        | inl e ↦
            let same : a ≡ to = ground arith in
            let out : (leb (suc to) a && ltb a (suc to + n)) ≡ false = ground arith in
            let here : (leb to a && ltb a (to + suc n)) ≡ true = ground arith in
            let at : from ≡ from + (a - to) = omega arith in rw (out, here, e) (ap m at)
        | inr e ↦ elim (Bool-cases (leb (suc to) a && ltb a (suc to + n))) [
          | inl o ↦
              let here : (leb to a && ltb a (to + suc n)) ≡ true = ground arith in
              let at : suc from + (a - suc to) ≡ from + (a - to) = ground arith in
              rw (o, here) (ap m at)
          | inr o ↦
              let out : (leb to a && ltb a (to + suc n)) ≡ false = ground arith in
              rw (o, out, e) refl
        ]
      ])

-- Two objects of one size do not overlap.
abbrev pub Apart : (p q size : ℕ) → Type 0
Apart p q size = (leb (p + size) q || leb (q + size) p) ≡ true

module _ (m : Bytes) (is : IsBytes m) (p res size : ℕ) where
  assigned :
      (n : ℕ)
      → size ≡ n
      → Returns (λ _ g. (a : Addr) → g a ≡ copied res p size m a) (assign n res p m)
  assigned n same =
      returns (λ a. store-load n res p m m is a ∙ ap (λ k. copied res p k m a) (sym same))

  -- Every case of `__read_once_size` copies `size` bytes.
  pub __read_once_size-copied :
      Apart res p size
      → Returns (λ _ g. (a : Addr) → g a ≡ copied res p size m a) (__read_once_size p res size m)
  unfolding __read_once_size memcpy
  __read_once_size-copied out = elim (Bool-cases (size == 1)) [
    | inl e ↦ rw e (assigned 1 (ground arith))
    | inr e ↦ elim (Bool-cases (size == 2)) [
      | inl e2 ↦ rw (e, e2) (assigned 2 (ground arith))
      | inr e2 ↦ elim (Bool-cases (size == 4)) [
        | inl e4 ↦ rw (e, e2, e4) (assigned 4 (ground arith))
        | inr e4 ↦ elim (Bool-cases (size == 8)) [
          | inl e8 ↦ rw (e, e2, e4, e8) (assigned 8 (ground arith))
          | inr e8 ↦ rw (e, e2, e4, e8, out) (returns (λ a. refl))
        ]
      ]
    ]
  ]

  pub __write_once_size-read : __write_once_size res p size ≡ __read_once_size p res size
  unfolding __write_once_size __read_once_size
  __write_once_size-read = refl

pub bytes_at-same :
    (n p q : ℕ) (f g : Bytes)
    → ((i : ℕ) → i < n → f (p + i) ≡ g (q + i))
    → bytes_at p n f ≡ bytes_at q n g
unfolding bytes_at
bytes_at-same zero p q f g same = refl
bytes_at-same (suc n) p q f g same =
    let at : p ≡ p + 0 = omega arith in
    let at' : q + 0 ≡ q = omega arith in
    ap₂ (λ b bs. b ∷ bs) (ap f at ∙ same 0 (omega arith) ∙ ap g at')
      (bytes_at-same n (suc p) (suc q) f g λ i lt.
        let here : suc p + i ≡ p + suc i = omega arith in
        let there : q + suc i ≡ suc q + i = omega arith in
        ap f here ∙ same (suc i) (omega arith) ∙ ap g there)

pub put-outside :
    (bs : List ℕ) (p : Addr) (m : Bytes) (a : Addr)
    → (leb p a && ltb a (p + length bs)) ≡ false
    → put p bs m a ≡ m a
unfolding put
put-outside [] p m a out = refl
put-outside (b ∷ bs) p m a out =
    let ne : (a == p) ≡ false = ground arith in
    put-outside bs (suc p) (update m p b) a (ground arith) ∙ (rw ne refl)

pub bytes_at-put : (bs : List ℕ) (p : Addr) (m : Bytes) → bytes_at p (length bs) (put p bs m) ≡ bs
unfolding bytes_at put
bytes_at-put [] p m = refl
bytes_at-put (b ∷ bs) p m =
    ap₂ (λ c cs. c ∷ cs) (put-outside bs (suc p) (update m p b) p (ground arith) ∙ ground arith)
      (bytes_at-put bs (suc p) (update m p b))

pub put-IsBytes :
    (bs : List ℕ) (p : Addr) (m : Bytes)
    → IsBytes m
    → ((b : ℕ) → b ∈ bs → b < 256)
    → IsBytes (put p bs m)
unfolding put
put-IsBytes [] p m is small = is
put-IsBytes (b ∷ bs) p m is small =
    put-IsBytes bs (suc p) (update m p b) (λ a. ground (arith, is a, small b))
      (λ c o. small c (ground arith))

-- `READ_ONCE` of an object that is apart from the union returns the bytes of the object, and changes no byte
-- but the union's.
pub read_once-bytes_at :
    (m : Bytes) (u x size : ℕ)
    → IsBytes m
    → 0 < size
    → Apart u x size
    → Returns
        (λ val g.
          (val ≡ bytes_at x size m)
          × ((a : Addr) → (leb u a && ltb a (u + size)) ≡ false → g a ≡ m a))
        (read_once u x size m)
unfolding read_once
read_once-bytes_at m u x size is some out =
    let (_, g, run, same) =
      Returns-inv
        (__read_once_size-copied (update m u 0) (λ a. ground (arith, is a)) x u size out) in
    rw run (
      returns (
        bytes_at-same size u x g m (λ i lt.
            let inside : (leb u (u + i) && ltb (u + i) (u + size)) ≡ true = ground arith in
            let at : x + (u + i - u) ≡ x + i = omega arith in
            let ne : (x + i == u) ≡ false = ground arith in
            same (u + i) ∙ (rw (inside, at, ne) refl)),
        λ a off. let ne : (a == u) ≡ false = ground arith in same a ∙ (rw (off, ne) refl),
      ))
