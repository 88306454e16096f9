-- ===== src/KList/Join.antt =====
-- Joining two lists (`k_list_splice`, `k_list_splice_tail`, `k_list_splice_init`,
-- `k_list_splice_tail_init`).
use hashtable_linux_kernel.Common.{
  ◌≡◌, refl, true, List, [], ◌∷◌, ◌++◌, arith, ◌∈◌, ◌∉◌, Returns, returns, count-append, append-nil,
  subst, sym,
}
use hashtable_linux_kernel.Links.{Addr, Links, get_next, get_prev}
use hashtable_linux_kernel.KList.{
  k_list_splice, k_list_splice_tail, k_list_splice_init, k_list_splice_tail_init,
}
use hashtable_linux_kernel.KList.Insert.{
  initialised, k_init_list_head-ok, initialised-IsList, initialised-SameOutside,
}
use hashtable_linux_kernel.KList.Query.{k_list_empty-is_nil}
use hashtable_linux_kernel.KList.Ring.{
  IsList, SameOutside, Ring-frame, next-mem, prev-mem, Apart, SameOutside-refl,
}
use hashtable_linux_kernel.KList.Splice.{spliced, spliced-Ring, spliced-Ring_tail, __list_splice-ok}

-- What is left elsewhere when the entries of one list are linked into another.
spliced-SameOutside :
    (m : Links) (list x : Addr) (xs : List Addr) (p n h : Addr) (ys : List Addr)
    → IsList m list (x ∷ xs)
    → p ∈ h ∷ ys
    → n ∈ h ∷ ys
    → SameOutside (list ∷ x ∷ xs ++ h ∷ ys) m (spliced m list p n)
spliced-SameOutside m list x xs p n h ys r i j =
    let first = next-mem m list (x ∷ xs) r in
    let last = prev-mem m list (x ∷ xs) r in
    let number = λ (a : Addr). count-append a xs (h ∷ ys) in
    record {
      next = λ a o. ground (arith, first, last, i, j, number a);
      prev = λ a o. ground (arith, first, last, i, j, number a);
      live = λ a. refl;
    }

-- The emptied head is a list again, and the joined list survives.
emptied :
    (g : Links) (list h : Addr) (zs : List Addr)
    → g.live list ≡ true
    → list ∉ h ∷ zs
    → IsList g h zs
    → IsList (initialised g list) h zs × IsList (initialised g list) list []
emptied g list h zs live out r = (
  Ring-frame g (h ∷ zs) (list ∷ []) (initialised-SameOutside g list live) (λ a i. ground arith) r,
  initialised-IsList g list live,
)

module _ {m : Links} {list h : Addr} where
  -- `k_list_splice` puts the entries of one list in front of those of another, in their order, and does not fault, whether or not a list is empty.
  pub k_list_splice-append :
      (xs ys : List Addr)
      → IsList m list xs
      → IsList m h ys
      → Apart (h ∷ ys) (list ∷ xs)
      → Returns
          (λ _ g. IsList g h (xs ++ ys) × SameOutside (list ∷ xs ++ h ∷ ys) m g)
          (k_list_splice list h m)
  unfolding k_list_splice get_next
  k_list_splice-append [] ys r s apart =
      rw (k_list_empty-is_nil [] r) (returns (s, SameOutside-refl m _))
  k_list_splice-append (x ∷ xs) ys r s apart =
      rw
        (
          k_list_empty-is_nil (x ∷ xs) r,
          s.live h (ground arith),
          __list_splice-ok m list x xs r h ys s apart h (m.next h) (s.live h (ground arith))
              (s.live _ (next-mem m h ys s)),
        )
        (returns (
          spliced-Ring m list x xs r h ys apart s,
          spliced-SameOutside m list x xs h (m.next h) h ys r (ground arith) (next-mem m h ys s),
        ))

  -- `k_list_splice_tail` puts the entries of one list behind those of another, in their order, and does not fault, whether or not a list is empty.
  pub k_list_splice_tail-append :
      (xs ys : List Addr)
      → IsList m list xs
      → IsList m h ys
      → Apart (h ∷ ys) (list ∷ xs)
      → Returns
          (λ _ g. IsList g h (ys ++ xs) × SameOutside (list ∷ xs ++ h ∷ ys) m g)
          (k_list_splice_tail list h m)
  unfolding k_list_splice_tail get_prev
  k_list_splice_tail-append [] ys r s apart =
      rw (k_list_empty-is_nil [] r)
        (returns (subst (IsList m h) (sym (append-nil ys)) s, SameOutside-refl m _))
  k_list_splice_tail-append (x ∷ xs) ys r s apart =
      rw
        (
          k_list_empty-is_nil (x ∷ xs) r,
          s.live h (ground arith),
          __list_splice-ok m list x xs r h ys s apart (m.prev h) h (s.live _ (prev-mem m h ys s))
              (s.live h (ground arith)),
        )
        (returns (
          spliced-Ring_tail m list x xs r h ys s apart,
          spliced-SameOutside m list x xs (m.prev h) h h ys r (prev-mem m h ys s) (ground arith),
        ))

  -- `k_list_splice_init` puts the entries of one list in front of those of another and leaves the first list
  -- empty, in their order, and does not fault, whether or not a list is empty.
  pub k_list_splice_init-append :
      (xs ys : List Addr)
      → IsList m list xs
      → IsList m h ys
      → Apart (h ∷ ys) (list ∷ xs)
      → Returns (λ _ g. IsList g h (xs ++ ys) × IsList g list []) (k_list_splice_init list h m)
  unfolding k_list_splice_init get_next
  k_list_splice_init-append [] ys r s apart = rw (k_list_empty-is_nil [] r) (returns (s, r))
  k_list_splice_init-append (x ∷ xs) ys r s apart =
      let live : m.live list ≡ true = r.live list (ground arith) in
      let out : list ∉ h ∷ (x ∷ xs) ++ ys =
        ground (arith, apart list, r.distinct list, count-append list xs ys) in
      rw
        (
          k_list_empty-is_nil (x ∷ xs) r,
          s.live h (ground arith),
          __list_splice-ok m list x xs r h ys s apart h (m.next h) (s.live h (ground arith))
              (s.live _ (next-mem m h ys s)),
          k_init_list_head-ok (spliced m list h (m.next h)) list live,
        )
        (returns
          (emptied _ list h ((x ∷ xs) ++ ys) live out (spliced-Ring m list x xs r h ys apart s)))

  -- `k_list_splice_tail_init` puts the entries of one list behind those of another and leaves the first list
  -- empty, in their order, and does not fault, whether or not a list is empty.
  pub k_list_splice_tail_init-append :
      (xs ys : List Addr)
      → IsList m list xs
      → IsList m h ys
      → Apart (h ∷ ys) (list ∷ xs)
      → Returns (λ _ g. IsList g h (ys ++ xs) × IsList g list []) (k_list_splice_tail_init list h m)
  unfolding k_list_splice_tail_init get_prev
  k_list_splice_tail_init-append [] ys r s apart =
      rw (k_list_empty-is_nil [] r) (returns (subst (IsList m h) (sym (append-nil ys)) s, r))
  k_list_splice_tail_init-append (x ∷ xs) ys r s apart =
      let live : m.live list ≡ true = r.live list (ground arith) in
      let out : list ∉ h ∷ ys ++ x ∷ xs =
        ground (arith, apart list, r.distinct list, count-append list ys (x ∷ xs)) in
      rw
        (
          k_list_empty-is_nil (x ∷ xs) r,
          s.live h (ground arith),
          __list_splice-ok m list x xs r h ys s apart (m.prev h) h (s.live _ (prev-mem m h ys s))
              (s.live h (ground arith)),
          k_init_list_head-ok (spliced m list (m.prev h) h) list live,
        )
        (returns
          (emptied _ list h (ys ++ x ∷ xs) live out (spliced-Ring_tail m list x xs r h ys s apart)))
