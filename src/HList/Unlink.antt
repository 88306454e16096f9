-- ===== src/HList/Unlink.antt =====
-- Deletion of a node from its chain (`__hlist_del`, `hlist_del`, `hlist_del_init`), and the tests.
use hashtable_linux_kernel.Common.{
  ◌+◌, ◌≡◌, refl, true, false, ◌||◌, List, [], ◌∷◌, ◌++◌, arith, count, Distinct, ◌∈◌, ◌∉◌,
  count-append, if◌then◌else◌, is_zero, is_nil, ok, Returns, returns, Bool-cases, inl, inr,
}
use hashtable_linux_kernel.Links.{Addr, null, update, list_poison1, list_poison2}
use hashtable_linux_kernel.HLinks.{
  HLinks, set_slot, get_first, get_hnext, set_hnext, get_pprev, set_pprev,
}
use hashtable_linux_kernel.HList.{
  __hlist_del, hlist_del, hlist_del_init, hlist_unhashed, hlist_empty, init_hlist_node,
}
use hashtable_linux_kernel.HList.Chain.{
  HSeg, Chain, SameOutside, HSeg-frame, Chain-frame, next-mem, pprev-mem, HSeg-tail,
}

-- The memory after `__hlist_del`.
abbrev pub unhooked : HLinks → Addr → HLinks
unhooked m n = record m {
  next = update m.next (m.pprev n) (m.next n);
  pprev = λ a. if is_zero (m.next n) then m.pprev a else update m.pprev (m.next n) (m.pprev n) a;
}

unhooked-HSeg :
    (m : HLinks) (p : Addr) (front : List Addr) (x : Addr) (back : List Addr)
    → Distinct (p ∷ front ++ x ∷ back)
    → null ∉ p ∷ front ++ x ∷ back
    → HSeg m p (front ++ x ∷ back)
    → HSeg (unhooked m x) p (front ++ back)
unhooked-HSeg m p [] x [] once proper s = ground (arith, s)
unhooked-HSeg m p [] x (b ∷ bs) once proper s = (
  ground (arith, s),
  ground (arith, s),
  HSeg-frame m (unhooked m x) b bs (λ a i. ground (arith, s.1, once p))
      (λ a i. ground (arith, s.2.0, once b)) s.2.2,
)
unhooked-HSeg m p (f ∷ front) x back once proper s =
    let number = λ (a : Addr). count-append a front (x ∷ back) in
    let before = pprev-mem m f front x back s.2 in
    let behind = next-mem m x back (HSeg-tail m f front x back s.2) in
    (
      ground (arith, s.0, before, once p, number p),
      ground (arith, s.1, behind, once f, number f),
      unhooked-HSeg m f front x back (λ a. ground (arith, once a)) (ground arith) s.2,
    )

-- The deletion of one node, as the memory after it: whatever was written in the deleted node.
abbrev pub Gone : Addr → HLinks → HLinks → Type 0
Gone x m g = SameOutside (x ∷ []) (unhooked m x) g

module _ {m : HLinks} {h : Addr} (front : List Addr) (x : Addr) (back : List Addr)
    (c : Chain m h (front ++ x ∷ back)) where
  number : (a : Addr) → count a (front ++ x ∷ back) ≡ count a front + count a (x ∷ back)
  number a = count-append a front (x ∷ back)

  number' : (a : Addr) → count a (front ++ back) ≡ count a front + count a back
  number' a = count-append a front back

  before : m.pprev x ∈ h ∷ front
  before = pprev-mem m h front x back c.seg

  behind : m.next x ∈ null ∷ back
  behind = next-mem m x back (HSeg-tail m h front x back c.seg)

  x_live : m.node_live x ≡ true
  x_live = c.nodes x (ground (arith, number x))

  slot_live : (m.node_live (m.pprev x) || m.head_live (m.pprev x)) ≡ true
  slot_live = ground (arith, before, c.nodes (m.pprev x), c.head, number (m.pprev x))

  behind_live : is_zero (m.next x) ≡ false → m.node_live (m.next x) ≡ true
  behind_live e = c.nodes (m.next x) (ground (arith, behind, number (m.next x)))

  pub Gone-Chain : (g : HLinks) → Gone x m g → Chain g h (front ++ back)
  Gone-Chain g same =
      Chain-frame (unhooked m x) g h (front ++ back) (x ∷ []) same
        (λ a i. ground (arith, c.distinct x, number x, number' a))
        (record {
          seg = unhooked-HSeg m h front x back c.distinct c.non_null c.seg;
          distinct = λ a. ground (arith, c.distinct a, number a, number' a);
          non_null = ground (arith, c.non_null, number null, number' null);
          nodes = λ a i. c.nodes a (omega (arith, number a, number' a));
          head = c.head;
        })

  pub Gone-SameOutside : (g : HLinks) → Gone x m g → SameOutside (h ∷ front ++ x ∷ back) m g
  Gone-SameOutside g same = record {
    next = λ a o. ground (arith, same.next a, before, number a);
    pprev = λ a o. ground (arith, same.pprev a, behind, number a);
    node_live = same.node_live;
    head_live = same.head_live;
  }

  __hlist_del-ok : __hlist_del x m ≡ ok tt (unhooked m x)
  unfolding __hlist_del get_hnext get_pprev set_slot set_pprev
  __hlist_del-ok = elim (Bool-cases (is_zero (m.next x))) [
    | inl last ↦ ground (arith, x_live, slot_live, last)
    | inr more ↦ ground (arith, x_live, slot_live, more, behind_live more)
  ]

  abbrev written : (next pprev : Addr) → HLinks
  written a b =
      let u = unhooked m x in record u { next = update u.next x a; pprev = update u.pprev x b }

  written-Gone : (a b : Addr) → Gone x m (written a b)
  written-Gone a b = record {
    next = λ z o. ground arith;
    pprev = λ z o. ground arith;
    node_live = λ z. refl;
    head_live = λ z. refl;
  }

  hlist_del-ok : hlist_del x m ≡ ok tt (written list_poison1 list_poison2)
  unfolding hlist_del set_hnext set_pprev
  hlist_del-ok = rw __hlist_del-ok (ground (arith, x_live))

  hashed : hlist_unhashed x m ≡ ok false m
  unfolding hlist_unhashed get_pprev
  hashed = ground (arith, x_live, before, c.non_null, number null)

  hlist_del_init-ok : hlist_del_init x m ≡ ok tt (written null null)
  unfolding hlist_del_init init_hlist_node set_hnext set_pprev
  hlist_del_init-ok = rw (hashed, __hlist_del-ok) (ground (arith, x_live))

  -- The chain after a deletion, what the deleted node holds, and that nothing else is written.
  abbrev pub Deleted : (next pprev : Addr) → Unit {0} → HLinks → Type 0
  Deleted a b _ g =
      Chain g h (front ++ back)
      × (g.next x ≡ a)
      × (g.pprev x ≡ b)
      × SameOutside (h ∷ front ++ x ∷ back) m g

  written-Deleted : (a b : Addr) → Deleted a b tt (written a b)
  written-Deleted a b = (
    Gone-Chain (written a b) (written-Gone a b),
    ground arith,
    ground arith,
    Gone-SameOutside (written a b) (written-Gone a b),
  )

  -- `hlist_del` takes a node out of its chain, wherever it stands, keeps the others in their order,
  -- poisons the node, does not fault, and writes nothing outside the chain.
  pub hlist_del-Chain : Returns (Deleted list_poison1 list_poison2) (hlist_del x m)
  hlist_del-Chain = rw hlist_del-ok (returns (written-Deleted list_poison1 list_poison2))

  -- `hlist_del_init` takes a node out of its chain, wherever it stands, keeps the others in their order,
  -- leaves the node unhashed, does not fault, and writes nothing outside the chain.
  pub hlist_del_init-Chain : Returns (Deleted null null) (hlist_del_init x m)
  hlist_del_init-Chain = rw hlist_del_init-ok (returns (written-Deleted null null))

-- On a node that is in no chain `hlist_del_init` does nothing.
pub hlist_del_init-unhashed :
    (m : HLinks) (n : Addr) → m.node_live n ≡ true → m.pprev n ≡ null → hlist_del_init n m ≡ ok tt m
unfolding hlist_del_init hlist_unhashed get_pprev
hlist_del_init-unhashed m n live e = ground arith

-- `hlist_empty` tells whether the chain has no node, and writes nothing.
pub hlist_empty-is_nil :
    (m : HLinks) (h : Addr) (xs : List Addr) → Chain m h xs → hlist_empty h m ≡ ok (is_nil xs) m
unfolding hlist_empty get_first
hlist_empty-is_nil m h [] c = ground (arith, c.seg, c.head)
hlist_empty-is_nil m h (x ∷ xs) c = ground (arith, c.seg, c.head, c.non_null)
