-- ===== src/LeakDetector/Track.antt =====
-- What the records say of the program's blocks (`xmalloc`, `xcalloc`, `xfree`, `xrealloc`).
use hashtable_linux_kernel.Common.{
  ℕ, ◌+◌, ◌*◌, ◌%◌, ◌^◌, ◌≤◌, ◌≡◌, ◌≢◌, refl, true, false, ◌==◌, if◌then◌else◌, Bool-cases, inl,
  inr, List, [], ◌∷◌, ◌++◌, arith, ap, ◌∙◌, count, count-append, ◌∈◌, ◌∉◌, Distinct, Returns,
  returns, Returns-inv, Returns-mono, ◌<◌, length,
}
use hashtable_linux_kernel.Links.{Addr, update}
use hashtable_linux_kernel.LeakDetector.{
  MemInfo, Leaks, xmalloc, xcalloc, malloc_bytes, add_mem_info, file_name_length,
}
use hashtable_linux_kernel.LeakDetector.Valid.{
  Leak, nodes, addresses, IsStatic, IsFresh, Keeps, used, unused, AllStored-frame, fresh-out,
  nodes-append,
}
use hashtable_linux_kernel.LeakDetector.Add.{Kept, add_mem_info-Kept}
use hashtable_linux_kernel.LeakDetector.Remove.{erase_first}

-- The detector keeps one record for each of the program's blocks `bs`, in the order of their
-- allocation.
pub record Tracks (m : Leaks) (bs : List Addr) (rs : List Leak) : Type 0 where
  pub keeps : Keeps m rs
  pub same : addresses rs ≡ bs
  pub distinct : Distinct bs
  pub owned : (a : Addr) → a ∈ bs → m.heap a ≡ true
  pub apart : (a : Addr) → a ∈ bs → a ∉ m.head ∷ nodes rs

-- The blocks without `a`.
abbrev pub without : Addr → List Addr → List Addr
without a [] = []
without a (b ∷ bs) = if b == a then bs else b ∷ without a bs

addresses-append : (xs ys : List Leak) → addresses (xs ++ ys) ≡ addresses xs ++ addresses ys
addresses-append [] ys = refl
addresses-append (x ∷ xs) ys = rw (addresses-append xs ys) refl

pub addresses-erase_first :
    (a : Addr) (rs : List Leak) → addresses (erase_first a rs) ≡ without a (addresses rs)
addresses-erase_first a [] = refl
addresses-erase_first a (r ∷ rs) = elim (Bool-cases (r.info.address == a)) [
  | inl t ↦ rw t refl
  | inr f ↦ rw (f, addresses-erase_first a rs) refl
]

pub nodes-erase_first :
    (a n : Addr) (rs : List Leak) → count n (nodes (erase_first a rs)) ≤ count n (nodes rs)
nodes-erase_first a n [] = omega arith
nodes-erase_first a n (r ∷ rs) = elim (Bool-cases (r.info.address == a)) [
  | inl t ↦ rw t (omega arith)
  | inr f ↦ rw f (omega (arith, nodes-erase_first a n rs))
]

pub count-without :
    (a b : Addr) (bs : List Addr) → count b bs ≤ count b (without a bs) + count b (a ∷ [])
count-without a b [] = omega arith
count-without a b (c ∷ bs) = elim (Bool-cases (c == a)) [
  | inl t ↦ rw t (ground (arith, t))
  | inr f ↦ rw f (omega (arith, count-without a b bs))
]

pub count-without_le : (a b : Addr) (bs : List Addr) → count b (without a bs) ≤ count b bs
count-without_le a b [] = omega arith
count-without_le a b (c ∷ bs) = elim (Bool-cases (c == a)) [
  | inl t ↦ rw t (omega arith)
  | inr f ↦ rw f (omega (arith, count-without_le a b bs))
]

pub count-without_same : (a : Addr) (bs : List Addr) → Distinct bs → a ∉ without a bs
count-without_same a [] once = refl
count-without_same a (c ∷ bs) once = elim (Bool-cases (c == a)) [
  | inl t ↦ rw t (ground (arith, once a, t))
  | inr f ↦ rw f (ground (arith, f, count-without_same a bs (λ b. omega (arith, once b))))
]

-- `malloc` of another block.
abbrev taken : Leaks → Addr → Leaks
taken m p = record m { heap = update m.heap p true }

taken-IsStatic : (m : Leaks) (p : Addr) → IsFresh m p → IsStatic m → IsStatic (taken m p)
taken-IsStatic m p fresh fixed = record {
  head_live = fixed.head_live;
  static = ground (arith, fixed.static, fresh.apart);
  null_live = fixed.null_live;
  null_heap = ground (arith, fixed.null_heap, fresh.given);
}

taken-Keeps :
    (m : Leaks) (p : Addr) (rs : List Leak) → IsFresh m p → Keeps m rs → Keeps (taken m p) rs
taken-Keeps m p _ fresh (unused is) =
    unused (record { fixed = taken-IsStatic m p fresh is.fixed; flag = is.flag; next = is.next })
taken-Keeps m p rs fresh (used is) = used (record {
  fixed = taken-IsStatic m p fresh is.fixed;
  flag = is.flag;
  list = is.list;
  heap = λ a i. ground (arith, is.heap a);
  stored = AllStored-frame m (taken m p) rs (λ a i. refl) is.stored;
})

module _ (m : Leaks) (bs : List Addr) (rs : List Leak) (tracks : Tracks m bs rs) (ptr fresh : Addr)
    (new : IsFresh m ptr) (new_record : IsFresh m fresh) (apart : ptr ≢ fresh) (stack : MemInfo)
    (file : List ℕ) (line : ℕ) (short : length file < file_name_length) (plain : 0 ∉ file) where
  abbrev pub leak : ℕ → Leak
  leak size = record {
    node = fresh;
    info = record { address = ptr; size = size; file_name = file; line = line };
  }

  counts :
      (a : Addr) (size : ℕ)
      → count a (nodes (rs ++ leak size ∷ [])) ≡ count a (nodes rs) + count a (fresh ∷ [])
  counts a size =
      ap (count a) (nodes-append rs (leak size ∷ [])) ∙ count-append a (nodes rs) (fresh ∷ [])

  kept-Tracks :
      (size : ℕ) (g : Leaks)
      → Kept (taken m ptr) rs fresh (leak size).info tt g
      → Tracks g (bs ++ ptr ∷ []) (rs ++ leak size ∷ [])
  kept-Tracks size g (is, heap, head) =
      let out = fresh-out m rs ptr tracks.keeps new in
      record {
        keeps = used is;
        same = addresses-append rs (leak size ∷ []) ∙ ap (λ t. t ++ ptr ∷ []) tracks.same;
        distinct = λ a.
            ground
              (arith, count-append a bs (ptr ∷ []), tracks.distinct a, tracks.owned a, new.heap);
        owned = λ a i. rw heap (ground (arith, count-append a bs (ptr ∷ []), tracks.owned a));
        apart = λ a i. rw head (
            ground (
              arith,
              counts a size,
              out,
              count-append a bs (ptr ∷ []),
              tracks.owned a,
              tracks.apart a,
              new_record.heap,
              new.apart,
              apart,
            ));
      }

  -- The block and its record.
  pub recorded-Tracks :
      (size : ℕ)
      → Returns
          (λ _ g. Tracks g (bs ++ ptr ∷ []) (rs ++ leak size ∷ []))
          (add_mem_info fresh stack ptr size file line (taken m ptr))
  recorded-Tracks size =
      let fresh' : IsFresh (taken m ptr) fresh = record {
        given = new_record.given;
        heap = ground (arith, new_record.heap, apart);
        apart = new_record.apart;
      } in
      let keeps = taken-Keeps m ptr rs new tracks.keeps in
      Returns-mono
        (add_mem_info-Kept (taken m ptr) rs fresh keeps fresh' stack ptr size file line short plain)
        (λ _ g k. kept-Tracks size g k)

  -- `xmalloc`, likewise.
  pub xmalloc-Tracks :
      (size : ℕ)
      → Returns
          (λ p g. (p ≡ ptr) × Tracks g (bs ++ ptr ∷ []) (rs ++ leak size ∷ []))
          (xmalloc ptr fresh stack size file line m)
  unfolding xmalloc malloc_bytes
  xmalloc-Tracks size =
      let given : (ptr == 0) ≡ false = ground (arith, new.given) in
      let (_, g, run, t) = Returns-inv (recorded-Tracks size) in
      rw (given, given, run) (returns (refl, t))

  -- `xcalloc` of a program whose blocks the detector tracks, when both allocations are given, returns
  -- the block and adds a last record of it, whose size is `elements * size` modulo 2 ^ 32.
  pub xcalloc-Tracks :
      (elements size : ℕ)
      → Returns
          (λ p g.
            (p ≡ ptr) × Tracks g (bs ++ ptr ∷ []) (rs ++ leak (elements * size % 2 ^ 32) ∷ []))
          (xcalloc ptr fresh stack elements size file line m)
  unfolding xcalloc malloc_bytes
  xcalloc-Tracks elements size =
      let given : (ptr == 0) ≡ false = ground (arith, new.given) in
      let (_, g, run, t) = Returns-inv (recorded-Tracks (elements * size % 2 ^ 32)) in
      rw (given, given, run) (returns (refl, t))
