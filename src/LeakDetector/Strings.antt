-- ===== src/LeakDetector/Strings.antt =====
-- What the copies of a file name leave in the buffers (`strncpy` in `add_mem_info`, `strcpy` in `add`).
use hashtable_linux_kernel.Common.{
  ℕ, zero, suc, ◌≤◌, ◌<◌, ◌≡◌, refl, Option-cases, inl, inr, none, some, List, [], ◌∷◌, ◌++◌, arith,
  length, take, drop, replicate, ◌∉◌, count-append,
}
use hashtable_linux_kernel.LeakDetector.{strncpy, string_in, strcpy}

pub string_in-ends :
    (source s back : List ℕ) → string_in source ≡ some s → string_in (s ++ 0 ∷ back) ≡ some s
unfolding string_in
string_in-ends [] s back e = ground (arith, e)
string_in-ends (c ∷ cs) s back e = elim (Option-cases (string_in cs)) [
  | inl f ↦ ground (arith, e, f)
  | inr (t, f) ↦ ground (arith, e, f, string_in-ends cs t back f)
]

padded :
    (file back : List ℕ) (n k : ℕ)
    → length file < n
    → 0 < k
    → 0 ∉ file
    → string_in (take n (file ++ replicate k 0) ++ back) ≡ some file
unfolding string_in
padded [] back (suc n) (suc k) short more plain = refl
padded (c ∷ cs) back (suc n) k short more plain =
    rw (padded cs back n k (omega arith) more (ground arith)) (ground arith)
padded [] back zero k short more plain = absurd (omega arith)
padded (c ∷ cs) back zero k short more plain = absurd (omega arith)
padded [] back (suc n) zero short more plain = absurd (omega arith)

-- A file name that fits is in the buffer, with a NUL behind it.
pub string_in-strncpy :
    (file buffer : List ℕ) (n : ℕ)
    → length file < n
    → 0 ∉ file
    → string_in (strncpy buffer file n) ≡ some file
unfolding strncpy
string_in-strncpy file buffer n short plain =
    padded file (drop n buffer) n n short (omega arith) plain

string_in-plain : (cs : List ℕ) → 0 ∉ cs → string_in cs ≡ none
unfolding string_in
string_in-plain [] plain = refl
string_in-plain (c ∷ cs) plain = rw (string_in-plain cs (ground arith)) (ground arith)

take-prefix : (n : ℕ) (xs ys : List ℕ) → n ≤ length xs → 0 ∉ xs → 0 ∉ take n (xs ++ ys)
take-prefix zero xs ys long plain = refl
take-prefix (suc n) [] ys long plain = absurd (omega arith)
take-prefix (suc n) (x ∷ xs) ys long plain = ground (arith, take-prefix n xs ys)

-- A file name that is too long fills the `n` bytes, and no NUL ends it there.
pub string_in-strncpy_long :
    (file buffer : List ℕ) (n : ℕ)
    → n ≤ length file
    → 0 ∉ file
    → 0 ∉ drop n buffer
    → string_in (strncpy buffer file n) ≡ none
unfolding strncpy
string_in-strncpy_long file buffer n long plain rest = string_in-plain _ (
    omega (
      arith,
      take-prefix n file (replicate n 0) long plain,
      rest,
      count-append 0 (take n (file ++ replicate n 0)) (drop n buffer),
    ))

-- `strcpy` of a string: the buffer then holds it.
pub strcpy-string :
    (buffer source s : List ℕ)
    → string_in source ≡ some s
    → (copy : List ℕ) × (strcpy buffer source ≡ some copy) × (string_in copy ≡ some s)
unfolding strcpy
strcpy-string buffer source s e =
    let back = drop (suc (length s)) buffer in
    (s ++ 0 ∷ back, ground (arith, e), string_in-ends source s back e)

pub strcpy-endless :
    (buffer source : List ℕ) → string_in source ≡ none → strcpy buffer source ≡ none
unfolding strcpy
strcpy-endless buffer source e = ground (arith, e)
