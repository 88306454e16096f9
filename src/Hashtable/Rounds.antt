-- ===== src/Hashtable/Rounds.antt =====
-- The buckets while `CLEAR_HASHTABLE_BITS` empties one after the other.
use hashtable_linux_kernel.Common.{
  ℕ, zero, suc, ◌+◌, ◌≡◌, ◌<◌, refl, ap, ◌∙◌, false, ltb, List, [], ◌++◌, arith, if◌then◌else◌,
  ◌==◌, Bool-cases, inl, inr,
}
use hashtable_linux_kernel.Links.{Addr, update}

pub update-nil :
    (buckets : ℕ → List Addr) (b : ℕ) (xs : List Addr) (i : ℕ)
    → update (update buckets b xs) b [] i ≡ update buckets b [] i
update-nil buckets b xs i = ground arith

pub update-at :
    (buckets : ℕ → List Addr) (b : ℕ) → buckets b ≡ [] → (i : ℕ) → buckets i ≡ update buckets b [] i
update-at buckets b at i = elim (Bool-cases (i == b)) [
  | inl e ↦ let same : i ≡ b = ground arith in rw e (ap buckets same ∙ at)
  | inr e ↦ rw e refl
]

-- The buckets after `n` rounds from bucket `i` on, and the nodes that the rounds free.
abbrev pub emptied : (buckets : ℕ → List Addr) (n i : ℕ) → ℕ → List Addr
emptied buckets n i j = if ltb j i then buckets j else if ltb j (n + i) then [] else buckets j

abbrev pub nodes_of : (buckets : ℕ → List Addr) (n i : ℕ) → List Addr
nodes_of buckets zero i = []
nodes_of buckets (suc n) i = buckets i ++ nodes_of buckets n (suc i)

pub emptied-zero : (buckets : ℕ → List Addr) (i j : ℕ) → buckets j ≡ emptied buckets 0 i j
emptied-zero buckets i j = elim (Bool-cases (ltb j i)) [
  | inl e ↦ rw e refl
  | inr e ↦ let over : ltb j (0 + i) ≡ false = ground arith in rw (e, over) refl
]

pub emptied-suc :
    (buckets : ℕ → List Addr) (n i j : ℕ)
    → emptied (update buckets i []) n (suc i) j ≡ emptied buckets (suc n) i j
emptied-suc buckets n i j = ground arith

pub nodes_of-update :
    (buckets : ℕ → List Addr) (b n i : ℕ)
    → b < i
    → nodes_of (update buckets b []) n i ≡ nodes_of buckets n i
nodes_of-update buckets b zero i lt = refl
nodes_of-update buckets b (suc n) i lt =
    let other : (i == b) ≡ false = ground arith in
    rw (other, nodes_of-update buckets b n (suc i) (omega arith)) refl
