-- ===== src/HList/Add.antt =====
-- Insertion into a chain (`hlist_add_head`, `hlist_add_before`, `hlist_add_behind`), and moving a
-- whole chain to another head (`hlist_move_list`).
use hashtable_linux_kernel.Common.{
  ◌+◌, ◌≡◌, refl, true, ◌||◌, List, [], ◌∷◌, ◌++◌, arith, count, Distinct, ◌∉◌, count-append,
  if◌then◌else◌, is_zero, ok, Returns, returns, Bool-cases, inl, inr, sym, subst, append_assoc,
}
use hashtable_linux_kernel.Links.{Addr, null, update}
use hashtable_linux_kernel.HLinks.{
  HLinks, set_slot, get_first, set_first, get_hnext, set_hnext, get_pprev, set_pprev,
}
use hashtable_linux_kernel.HList.{
  hlist_add_head, hlist_add_before, hlist_add_behind, hlist_move_list,
}
use hashtable_linux_kernel.HList.Chain.{HSeg, Chain, SameOutside, HSeg-frame, next-mem}
use hashtable_linux_kernel.HList.Link.{
  hooked, last_or, hooked-Chain, hooked-SameOutside, HSeg-last_or, last_or-mem, last_or-snoc,
}

-- The chain with the new node, and that nothing else is written.
abbrev pub Added : HLinks → (n h : Addr) → (front back : List Addr) → Unit {0} → HLinks → Type 0
Added m n h front back _ g = Chain g h (front ++ n ∷ back) × SameOutside (n ∷ h ∷ front ++ back) m g

alike : (m : HLinks) (n p : Addr) → SameOutside [] (hooked m n p) (hooked m n p)
alike m n p = record {
  next = λ a o. refl;
  pprev = λ a o. refl;
  node_live = λ a. refl;
  head_live = λ a. refl;
}

module _ {m : HLinks} {h : Addr} (n : Addr) where
  hooked-Added :
      (front back : List Addr)
      → Chain m h (front ++ back)
      → n ∉ null ∷ h ∷ front ++ back
      → m.node_live n ≡ true
      → (g : HLinks) → SameOutside [] (hooked m n (last_or h front)) g
      → Added m n h front back tt g
  hooked-Added front back c out live g same = (
    hooked-Chain n front back c out live g same,
    hooked-SameOutside n front back c out live g same,
  )

  module _ (xs : List Addr) (c : Chain m h xs) (out : n ∉ null ∷ h ∷ xs)
      (live : m.node_live n ≡ true) where
    hlist_add_head-ok : hlist_add_head n h m ≡ ok tt (hooked m n h)
    unfolding hlist_add_head get_first set_first set_hnext set_pprev
    hlist_add_head-ok =
        let first = next-mem m h xs c.seg in
        elim (Bool-cases (is_zero (m.next h))) [
          | inl empty ↦ ground (arith, live, c.head, empty)
          | inr more ↦ ground (arith, live, c.head, more, c.nodes (m.next h), first)
        ]

    -- `hlist_add_head` puts a node that is in no chain in front of a chain, does not fault, and writes
    -- nothing but the node and the chain.
    pub hlist_add_head-Chain : Returns (Added m n h [] xs) (hlist_add_head n h m)
    hlist_add_head-Chain =
        rw hlist_add_head-ok (returns (hooked-Added [] xs c out live _ (alike m n h)))

  module _ (front : List Addr) (x : Addr) (back : List Addr) (c : Chain m h (front ++ x ∷ back))
      (out : n ∉ null ∷ h ∷ front ++ x ∷ back) (live : m.node_live n ≡ true) where
    number : (a : Addr) → count a (front ++ x ∷ back) ≡ count a front + count a (x ∷ back)
    number a = count-append a front (x ∷ back)

    x_live : m.node_live x ≡ true
    x_live = c.nodes x (ground (arith, number x))

    at : HSeg m (last_or h front) (x ∷ back)
    at = HSeg-last_or m h front (x ∷ back) c.seg

    slot : (m.node_live (last_or h front) || m.head_live (last_or h front)) ≡ true
    slot =
        let p = last_or h front in ground (arith, last_or-mem h front, c.nodes p, c.head, number p)

    abbrev before : HLinks
    before = record m {
      next = update (update m.next n x) (m.pprev x) n;
      pprev = update (update m.pprev n (m.pprev x)) x n;
    }

    hlist_add_before-ok : hlist_add_before n x m ≡ ok tt before
    unfolding hlist_add_before get_pprev set_pprev set_hnext set_slot
    hlist_add_before-ok = ground (arith, live, x_live, slot, at.1, out, number x, number n)

    before-alike : SameOutside [] (hooked m n (last_or h front)) before
    before-alike = record {
      next = λ a o. ground (arith, at.0, at.1);
      pprev = λ a o. ground (arith, at.0, at.1, out, number n, c.non_null, number null);
      node_live = λ a. refl;
      head_live = λ a. refl;
    }

    -- `hlist_add_before` puts a node that is in no chain before a given node of a chain.
    pub hlist_add_before-Chain : Returns (Added m n h front (x ∷ back)) (hlist_add_before n x m)
    hlist_add_before-Chain =
        rw hlist_add_before-ok
          (returns (hooked-Added front (x ∷ back) c out live before before-alike))

    hlist_add_behind-ok : hlist_add_behind n x m ≡ ok tt (hooked m n x)
    unfolding hlist_add_behind get_hnext set_pprev set_hnext
    hlist_add_behind-ok =
        let next = next-mem m x back at.2 in
        elim (Bool-cases (is_zero (m.next x))) [
          | inl last ↦ ground (arith, live, x_live, last, out, number n)
          | inr more ↦ ground (
            arith,
            live,
            x_live,
            more,
            out,
            number n,
            c.nodes (m.next x),
            next,
            number (m.next x),
          )
        ]

    -- `hlist_add_behind` puts a node that is in no chain behind a given node of a chain, does not
    -- fault, and writes nothing but the node and the chain.
    pub hlist_add_behind-Chain :
        Returns (Added m n h (front ++ x ∷ []) back) (hlist_add_behind n x m)
    hlist_add_behind-Chain =
        let shape = append_assoc front (x ∷ []) back in
        rw hlist_add_behind-ok (
          returns (
            hooked-Added (front ++ x ∷ []) back (subst (Chain m h) (sym shape) c)
              (subst (λ t. n ∉ null ∷ h ∷ t) (sym shape) out) live (hooked m n x)
              (subst (λ p. SameOutside [] (hooked m n p) (hooked m n x))
                (sym (last_or-snoc h front x)) (alike m n x))))

-- The memory after `hlist_move_list`.
abbrev moved : HLinks → (old new : Addr) → HLinks
moved m old new = record m {
  next = update (update m.next new (m.next old)) old null;
  pprev = λ a. if is_zero (m.next old) then m.pprev a else update m.pprev (m.next old) new a;
}

moved-HSeg :
    (m : HLinks) (old new : Addr) (xs : List Addr)
    → Distinct (old ∷ xs)
    → null ∉ xs
    → new ∉ old ∷ xs
    → HSeg m old xs
    → HSeg (moved m old new) new xs
moved-HSeg m old new [] once proper out s = ground (arith, s)
moved-HSeg m old new (x ∷ xs) once proper out s = (
  ground (arith, s),
  ground (arith, s),
  HSeg-frame m (moved m old new) x xs (λ a i. ground (arith, once old))
      (λ a i. ground (arith, s.0, once x)) s.2,
)

-- `hlist_move_list` gives the nodes of one head to another, whatever the other held, and leaves the
-- first head empty.
pub hlist_move_list-Chain :
    (m : HLinks) (old new : Addr) (xs : List Addr)
    → Chain m old xs
    → m.head_live new ≡ true
    → new ∉ null ∷ old ∷ xs
    → Returns (λ _ g. Chain g new xs × Chain g old []) (hlist_move_list old new m)
unfolding hlist_move_list get_first set_first set_pprev
hlist_move_list-Chain m old new xs c live out =
    let first = next-mem m old xs c.seg in
    let run : hlist_move_list old new m ≡ ok tt (moved m old new) =
      elim (Bool-cases (is_zero (m.next old))) [
        | inl empty ↦ ground (arith, live, c.head, empty)
        | inr more ↦ ground (arith, live, c.head, more, c.nodes (m.next old), first)
      ] in
    rw run (
      returns (
        record {
          seg =
              moved-HSeg m old new xs c.distinct (ground (arith, c.non_null)) (ground arith) c.seg;
          distinct = λ a. ground (arith, c.distinct a);
          non_null = ground (arith, c.non_null);
          nodes = λ a i. c.nodes a i;
          head = live;
        },
        record {
          seg = ground arith;
          distinct = λ a. ground arith;
          non_null = ground (arith, c.non_null);
          nodes = λ a i. absurd (omega arith);
          head = c.head;
        },
      ))
