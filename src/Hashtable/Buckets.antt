-- ===== src/Hashtable/Buckets.antt =====
-- What the memory of a hash table means, and insertion and deletion (`hash_add_bits`, `hash_del`).
use hashtable_linux_kernel.Common.{
  ℕ, ◌%◌, ◌^◌, ◌≡◌, ◌≢◌, ◌<◌, true, ltb, List, ◌∷◌, ◌++◌, arith, ◌∈◌, ◌∉◌, count-append, ◌==◌,
  Returns, Returns-mono, Bool-cases, inl, inr, sym, subst,
}
use hashtable_linux_kernel.Links.{Addr, null, update}
use hashtable_linux_kernel.HLinks.{HLinks}
use hashtable_linux_kernel.HList.Chain.{Chain, SameOutside, Chain-frame}
use hashtable_linux_kernel.HList.Add.{hlist_add_head-Chain}
use hashtable_linux_kernel.HList.Unlink.{hlist_del_init-Chain, hlist_del-Chain}
use hashtable_linux_kernel.HList.{hlist_del}
use hashtable_linux_kernel.Hashtable.{bucket_at, hash_add_bits, hash_del, calc_bkt, shift_one}
use hashtable_linux_kernel.Hashtable.Mask.{calc_bkt-mod, calc_bkt-lt}

-- The objects of bucket `i`: its head and its nodes.
abbrev pub objects : (table : Addr) (buckets : ℕ → List Addr) (i : ℕ) → List Addr
objects table buckets i = bucket_at table i ∷ buckets i

-- The array of `2 ^ bits` heads at `table` holds the nodes `buckets i` in bucket `i`, and no object
-- belongs to two buckets.
pub record IsTable (m : HLinks) (table : Addr) (bits : ℕ) (buckets : ℕ → List Addr) : Type 0 where
  pub chain : (i : ℕ) → i < 2 ^ bits → Chain m (bucket_at table i) (buckets i)
  pub apart :
      (i j : ℕ)
      → i < 2 ^ bits
      → j < 2 ^ bits
      → i ≢ j
      → (a : Addr) → a ∈ objects table buckets i
      → a ∉ objects table buckets j

-- `n` is in no bucket, and no head.
abbrev pub Outside : (table : Addr) (bits : ℕ) (buckets : ℕ → List Addr) (n : Addr) → Type 0
Outside table bits buckets n = (i : ℕ) → i < 2 ^ bits → n ∉ null ∷ objects table buckets i

module _ (buckets : ℕ → List Addr) (b : ℕ) (ys : List Addr) where
  pub update-same : update buckets b ys b ≡ ys
  update-same = ground arith

  pub update-other : (i : ℕ) → i ≢ b → update buckets b ys i ≡ buckets i
  update-other i ne = ground arith

module _ (m g : HLinks) (table : Addr) (bits : ℕ) (buckets : ℕ → List Addr) (b : ℕ)
    (ys d : List Addr) (is : IsTable m table bits buckets) (small : b < 2 ^ bits)
    (spare : (i : ℕ)
      → i < 2 ^ bits
      → i ≢ b
      → (a : Addr) → a ∈ objects table buckets i
      → (a ∉ d) × (a ∉ bucket_at table b ∷ ys))
    (same : SameOutside d m g) (new : Chain g (bucket_at table b) ys) where
  Chain-update : (i : ℕ) → i < 2 ^ bits → Chain g (bucket_at table i) (update buckets b ys i)
  Chain-update i lt = elim (Bool-cases (i == b)) [
    | inl e ↦
        let at : i ≡ b = ground arith in
        subst (λ j. Chain g (bucket_at table j) (update buckets b ys j)) (sym at)
          (rw (update-same buckets b ys) new)
    | inr e ↦
        let ne : i ≢ b = ground arith in
        rw (update-other buckets b ys i ne) (
          Chain-frame m g (bucket_at table i) (buckets i) d same (λ a o. (spare i lt ne a o).0)
            (is.chain i lt))
  ]

  apart_update :
      (i j : ℕ)
      → i < 2 ^ bits
      → j < 2 ^ bits
      → i ≢ j
      → (a : Addr) → a ∈ objects table (update buckets b ys) i
      → a ∉ objects table (update buckets b ys) j
  apart_update i j lt lt' ne a o = elim (Bool-cases (i == b)) [
    | inl e ↦
        let at : i ≡ b = ground arith in
        let other : j ≢ b = ground arith in
        let apart = spare j lt' other a in ground (arith, e, other)
    | inr e ↦ elim (Bool-cases (j == b)) [
      | inl e' ↦
          let at : j ≡ b = ground arith in
          let other : i ≢ b = ground arith in
          let apart = spare i lt other a in ground (arith, e, e')
      | inr e' ↦ let apart = is.apart i j lt lt' ne a in ground (arith, e, e')
    ]
  ]

  -- A change of one bucket that spares the others.
  pub one-IsTable : IsTable g table bits (update buckets b ys)
  one-IsTable = record { chain = Chain-update; apart = apart_update }

module _ {m : HLinks} {table : Addr} {bits : ℕ} {buckets : ℕ → List Addr}
    (is : IsTable m table bits buckets) (few : bits < 31) where
  -- `hash_add_bits` puts a node that is in no bucket in front of the bucket `key % 2 ^ bits`, does not
  -- fault, and leaves every other bucket.
  pub hash_add_bits-IsTable :
      (n key : ℕ)
      → Outside table bits buckets n
      → m.node_live n ≡ true
      → Returns
          (λ _ g.
            IsTable g table bits (update buckets (key % 2 ^ bits) (n ∷ buckets (key % 2 ^ bits))))
          (hash_add_bits table bits n key m)
  unfolding hash_add_bits shift_one
  hash_add_bits-IsTable n key out live =
      let b = calc_bkt key (2 ^ bits) in
      let small = calc_bkt-lt key bits in
      let defined : ltb bits 31 ≡ true = ground arith in
      rw (defined, sym (calc_bkt-mod key bits))
        (Returns-mono (hlist_add_head-Chain n (buckets b) (is.chain b small) (out b small) live)
          (λ _ g added.
            one-IsTable m g table bits buckets b (n ∷ buckets b) (n ∷ objects table buckets b) is
              small
              (λ i lt ne a o.
                let apart = is.apart i b lt small ne a o in
                let fresh = out i lt in (ground arith, ground arith))
              added.1 added.0))

  module _ (b : ℕ) (front : List Addr) (x : Addr) (back : List Addr) (small : b < 2 ^ bits)
      (at : buckets b ≡ front ++ x ∷ back) where
    pub bucket-Chain : Chain m (bucket_at table b) (front ++ x ∷ back)
    bucket-Chain = subst (Chain m (bucket_at table b)) at (is.chain b small)

    -- A change that takes one node out of its bucket.
    removed-IsTable :
        (g : HLinks)
        → Chain g (bucket_at table b) (front ++ back)
        → SameOutside (bucket_at table b ∷ front ++ x ∷ back) m g
        → IsTable g table bits (update buckets b (front ++ back))
    removed-IsTable g c same =
        one-IsTable m g table bits buckets b (front ++ back) (bucket_at table b ∷ front ++ x ∷ back)
          is small
          (λ i lt ne a o.
            let apart : a ∉ bucket_at table b ∷ front ++ x ∷ back =
              subst (λ t. a ∉ bucket_at table b ∷ t) at (is.apart i b lt small ne a o) in
            (apart, omega (arith, count-append a front (x ∷ back), count-append a front back)))
          same c

    -- The node is in no bucket then.
    pub removed-out :
        (i : ℕ) → i < 2 ^ bits → x ∉ objects table (update buckets b (front ++ back)) i
    removed-out i lt =
        let number = count-append x front (x ∷ back) in
        let number' = count-append x front back in
        let here : x ∈ objects table buckets b = rw at (ground arith) in
        elim (Bool-cases (i == b)) [
          | inl e ↦ let same : i ≡ b = ground arith in ground (arith, e, bucket-Chain.distinct x)
          | inr e ↦
              let other : b ≢ i = ground arith in
              ground (arith, e, is.apart b i small lt other x here)
        ]

    -- `hash_del` takes a node out of whichever bucket holds it, wherever it stands there, leaves the
    -- node unhashed, does not fault, leaves every other bucket, and writes nothing outside the one.
    pub hash_del-IsTable :
        Returns
          (λ _ g.
            IsTable g table bits (update buckets b (front ++ back))
            × (g.pprev x ≡ null)
            × SameOutside (bucket_at table b ∷ front ++ x ∷ back) m g)
          (hash_del x m)
    unfolding hash_del
    hash_del-IsTable =
        Returns-mono (hlist_del_init-Chain front x back bucket-Chain)
          (λ _ g deleted. (removed-IsTable g deleted.0 deleted.3, deleted.2, deleted.3))

    -- `hlist_del` does so and poisons the node.
    pub hlist_del-IsTable :
        Returns
          (λ _ g.
            IsTable g table bits (update buckets b (front ++ back))
            × SameOutside (bucket_at table b ∷ front ++ x ∷ back) m g)
          (hlist_del x m)
    hlist_del-IsTable =
        Returns-mono (hlist_del-Chain front x back bucket-Chain)
          (λ _ g deleted. (removed-IsTable g deleted.0 deleted.3, deleted.3))
