-- ===== src/KList/Splice.antt =====
-- Joining two lists (`__list_splice` and the four functions that call it).
use hashtable_linux_kernel.Common.{
  ◌≡◌, true, List, [], ◌∷◌, ◌++◌, arith, count, ◌∉◌, ok, count-append, append-nil, append_assoc,
  subst, sym, ap, ◌∙◌,
}
use hashtable_linux_kernel.Links.{Addr, Links, update, get_next, get_prev, set_next, set_prev}
use hashtable_linux_kernel.KList.{__list_splice}
use hashtable_linux_kernel.KList.Ring.{
  Seg, Cycle, Ring, IsList, Seg-frame, Ring-rotate, next-mem, prev-mem, Apart, Seg-prev, Seg-join,
  Ring-Turned, Seg-redirect,
}

-- The memory after `__list_splice`.
abbrev pub spliced : Links → (list prev next : Addr) → Links
spliced m list prev next = record m {
  next = update (update m.next prev (m.next list)) (m.prev list) next;
  prev = update (update m.prev (m.next list) prev) next (m.prev list);
}

module _ (m : Links) (list x : Addr) (xs : List Addr) (r : IsList m list (x ∷ xs)) where
  middle :
      (p n : Addr) → p ∉ list ∷ x ∷ xs → n ∉ list ∷ x ∷ xs → Seg (spliced m list p n) p (x ∷ xs) n
  middle p n out out' =
      let member = Seg-prev m list x xs r.cycle.2 in
      (
        ground (arith, r.cycle, member),
        ground (arith, r.cycle),
        Seg-redirect m (spliced m list p n) x xs list n (λ a. ground (arith, r.distinct a))
            (λ a i o. ground arith) (λ a i. ground (arith, r.cycle, r.distinct a)) (ground arith)
            (ground arith) r.cycle.2,
      )

  spliced-Cycle :
      (p : Addr) (zs : List Addr)
      → Apart (p ∷ zs) (list ∷ x ∷ xs)
      → Ring m (p ∷ zs)
      → Cycle (spliced m list p (m.next p)) (p ∷ (x ∷ xs) ++ zs)
  spliced-Cycle p [] apart s =
      let out = apart p (ground arith) in
      subst (λ c. Cycle (spliced m list p (m.next p)) (p ∷ x ∷ c)) (sym (append-nil xs))
        (subst (λ n. Seg (spliced m list p n) p (x ∷ xs) p) (sym s.cycle.0) (middle p p out out))
  spliced-Cycle p (z ∷ zs) apart s =
      let member = Seg-prev m list x xs r.cycle.2 in
      let back =
        Seg-frame m (spliced m list p z) z zs p
          (λ a i. ground (arith, apart a, member, s.distinct p))
          (λ a i. ground (arith, apart a, r.cycle.0, s.distinct a, s.distinct z)) s.cycle.2 in
      subst (λ n. Cycle (spliced m list p n) (p ∷ (x ∷ xs) ++ z ∷ zs)) (sym s.cycle.0)
        (Seg-join (spliced m list p z) p (x ∷ xs) z zs p
          (middle p z (apart p (ground arith)) (apart z (ground arith))) back)

  -- Behind `p` all the entries of the list are linked in.
  pub spliced-Ring :
      (p : Addr) (zs : List Addr)
      → Apart (p ∷ zs) (list ∷ x ∷ xs)
      → Ring m (p ∷ zs)
      → Ring (spliced m list p (m.next p)) (p ∷ (x ∷ xs) ++ zs)
  spliced-Ring p zs apart s =
      let number = λ (a : Addr). count-append a xs zs in
      record {
        cycle = spliced-Cycle p zs apart s;
        distinct = λ a. ground (arith, apart a, r.distinct a, s.distinct a, number a);
        live = λ a i. ground (arith, r.live a, s.live a, number a);
      }

  module _ (h : Addr) (ys : List Addr) (s : IsList m h ys)
      (apart : Apart (h ∷ ys) (list ∷ x ∷ xs)) where
    pub spliced-Ring_tail : Ring (spliced m list (m.prev h) h) (h ∷ ys ++ x ∷ xs)
    spliced-Ring_tail =
        let t = Ring-Turned m h ys s in
        let apart' : Apart (t.last ∷ t.init) (list ∷ x ∷ xs) = λ a i.
          apart a (omega (arith, ap (count a) t.split, count-append a t.init (t.last ∷ []))) in
        let base = spliced-Ring t.last t.init apart' t.ring in
        let front = Ring-rotate _ (t.last ∷ x ∷ xs) t.init base in
        let split : (h ∷ ys) ++ x ∷ xs ≡ t.init ++ t.last ∷ x ∷ xs =
          ap (λ c. c ++ x ∷ xs) t.split ∙ append_assoc t.init (t.last ∷ []) (x ∷ xs) in
        subst (λ p. Ring (spliced m list p h) (h ∷ ys ++ x ∷ xs)) (sym t.prev)
          (subst (λ q. Ring (spliced m list t.last q) (h ∷ ys ++ x ∷ xs)) t.next
            (subst (Ring (spliced m list t.last (m.next t.last))) (sym split) front))

    pub __list_splice-ok :
        (p n : Addr)
        → m.live p ≡ true
        → m.live n ≡ true
        → __list_splice list p n m ≡ ok tt (spliced m list p n)
    unfolding __list_splice get_next get_prev set_next set_prev
    __list_splice-ok p n a b = ground (
      arith,
      r.live list (ground arith),
      r.live (m.next list) (next-mem m list (x ∷ xs) r),
      r.live (m.prev list) (prev-mem m list (x ∷ xs) r),
    )
