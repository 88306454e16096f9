-- ===== src/KList/Delete.antt =====
-- Deletion of an entry from its list (`__list_del`, `k_list_del`, `k_list_del_init`).
use hashtable_linux_kernel.Common.{
  ◌≡◌, refl, true, List, [], ◌∷◌, ◌++◌, arith, count, ◌∈◌, ◌∉◌, ok, Returns, returns, count-append,
  append_assoc, subst, sym, ap, unsnoc, ◌∙◌,
}
use hashtable_linux_kernel.Links.{
  Addr, Links, update, get_next, get_prev, set_next, set_prev, list_poison1, list_poison2,
}
use hashtable_linux_kernel.KList.{
  __list_del, __list_del_entry, k_list_del, k_list_del_init, k_init_list_head,
}
use hashtable_linux_kernel.KList.Ring.{
  Ring, IsList, SameOutside, Seg-frame, Ring-rotate, Ring-frame,
}

-- The memory after `__list_del`.
abbrev pub unlinked : Links → (prev next : Addr) → Links
unlinked m prev next = record m { next = update m.next prev next; prev = update m.prev next prev }

unlinked-Ring_head :
    (m : Links) (p x : Addr) (zs : List Addr)
    → Ring m (p ∷ x ∷ zs)
    → Ring (unlinked m p (m.next x)) (p ∷ zs)
unlinked-Ring_head m p x [] r = record {
  cycle = (ground (arith, r.cycle), ground (arith, r.cycle));
  distinct = λ a. ground (arith, r.distinct a);
  live = λ a i. ground (arith, r.live a);
}
unlinked-Ring_head m p x (z ∷ zs) r = record {
  cycle = (
    ground (arith, r.cycle),
    ground (arith, r.cycle),
    Seg-frame m (unlinked m p (m.next x)) z zs p (λ a i. ground (arith, r.distinct a, r.distinct p))
        (λ a i. ground (arith, r.cycle, r.distinct a, r.distinct p, r.distinct z)) r.cycle.2.2,
  );
  distinct = λ a. ground (arith, r.distinct a);
  live = λ a i. ground (arith, r.live a);
}

-- Where an entry stands in its list, and what is left of the list without it.
pub record Located (m : Links) (h : Addr) (front : List Addr) (x : Addr) (back : List Addr)
    : Type 0 where
  pub prev : m.prev x ∈ h ∷ front ++ back
  pub next : m.next x ∈ h ∷ front ++ back
  pub out : x ∉ h ∷ front ++ back
  pub entry_live : m.live x ≡ true
  pub prev_live : m.live (m.prev x) ≡ true
  pub next_live : m.live (m.next x) ≡ true
  pub rest : Ring (unlinked m (m.prev x) (m.next x)) (h ∷ front ++ back)

next-mem_second :
    (m : Links) (p x : Addr) (zs : List Addr) → Ring m (p ∷ x ∷ zs) → m.next x ∈ p ∷ zs
next-mem_second m p x [] r = ground (arith, r.cycle)
next-mem_second m p x (z ∷ zs) r = ground (arith, r.cycle)

Located-turned :
    (m : Links) (h : Addr) (front : List Addr) (x : Addr) (back init : List Addr) (p : Addr)
    → h ∷ front ++ back ≡ init ++ p ∷ back
    → Ring m (p ∷ x ∷ back ++ init)
    → Located m h front x back
Located-turned m h front x back init p e r =
    let same : (a : Addr) → count a (h ∷ front ++ back) ≡ count a (p ∷ back ++ init) = λ a.
      ap (count a) e ∙ omega (arith, count-append a init (p ∷ back), count-append a back init) in
    let pred : m.prev x ≡ p = r.cycle.1 in
    let member = next-mem_second m p x (back ++ init) r in
    let ring = Ring-rotate _ (p ∷ back) init (unlinked-Ring_head m p x (back ++ init) r) in
    record {
      prev = ground (arith, same (m.prev x));
      next = omega (arith, same (m.next x), member);
      out = ground (arith, same x, r.distinct x);
      entry_live = r.live x (ground arith);
      prev_live = rw pred (r.live p (ground arith));
      next_live = r.live (m.next x) (ground (arith, member));
      rest =
          subst (λ q. Ring (unlinked m q (m.next x)) (h ∷ front ++ back)) (sym pred)
            (subst (Ring (unlinked m p (m.next x))) (sym e) ring);
    }

pub Ring-Located :
    (m : Links) (h : Addr) (front : List Addr) (x : Addr) (back : List Addr)
    → IsList m h (front ++ x ∷ back)
    → Located m h front x back
Ring-Located m h front x back r =
    let (init, p, e) = unsnoc h front in
    let shape = λ (c : List Addr). ap (λ t. t ++ c) e ∙ append_assoc init (p ∷ []) c in
    Located-turned m h front x back init p (shape back)
      (Ring-rotate m init (p ∷ x ∷ back) (subst (Ring m) (shape (x ∷ back)) r))

-- The deletion of one node, as the memory after it: whatever was written in the deleted node.
abbrev pub Gone : Addr → Links → Links → Type 0
Gone x m g = SameOutside (x ∷ []) (unlinked m (m.prev x) (m.next x)) g

module _ {m : Links} {h : Addr} (front : List Addr) (x : Addr) (back : List Addr)
    (r : IsList m h (front ++ x ∷ back)) where
  pub Gone-IsList : (g : Links) → Gone x m g → IsList g h (front ++ back)
  Gone-IsList g same =
      let loc = Ring-Located m h front x back r in
      Ring-frame _ (h ∷ front ++ back) (x ∷ []) same (λ a i. ground (arith, loc.out)) loc.rest

  pub Gone-SameOutside : (g : Links) → Gone x m g → SameOutside (h ∷ front ++ x ∷ back) m g
  Gone-SameOutside g same =
      let loc = Ring-Located m h front x back r in
      record {
        next = λ a o. ground (
          arith,
          same.next a,
          loc.prev,
          count-append a front back,
          count-append a front (x ∷ back),
        );
        prev = λ a o. ground (
          arith,
          same.prev a,
          loc.next,
          count-append a front back,
          count-append a front (x ∷ back),
        );
        live = λ a. same.live a;
      }

  pub __list_del_entry-ok : __list_del_entry x m ≡ ok tt (unlinked m (m.prev x) (m.next x))
  unfolding __list_del_entry __list_del get_next get_prev set_next set_prev
  __list_del_entry-ok =
      let loc = Ring-Located m h front x back r in
      ground (arith, loc.entry_live, loc.prev_live, loc.next_live)

  abbrev poisoned : Links
  poisoned =
      let u = unlinked m (m.prev x) (m.next x) in
      record u { next = update u.next x list_poison1; prev = update u.prev x list_poison2 }

  k_list_del-ok : k_list_del x m ≡ ok tt poisoned
  unfolding k_list_del __list_del get_next get_prev set_next set_prev
  k_list_del-ok =
      let loc = Ring-Located m h front x back r in
      ground (arith, loc.entry_live, loc.prev_live, loc.next_live)

  poisoned-Gone : Gone x m poisoned
  poisoned-Gone = record {
    next = λ a o. ground arith;
    prev = λ a o. ground arith;
    live = λ a. refl;
  }

  -- `k_list_del` takes an entry out of its list, wherever it stands, keeps the other entries in
  -- their order, poisons the entry, does not fault, and writes no node outside the list.
  pub k_list_del-IsList :
      Returns
        (λ _ g.
          IsList g h (front ++ back)
          × (g.next x ≡ list_poison1)
          × (g.prev x ≡ list_poison2)
          × SameOutside (h ∷ front ++ x ∷ back) m g)
        (k_list_del x m)
  k_list_del-IsList = rw k_list_del-ok (
      returns (
        Gone-IsList poisoned poisoned-Gone,
        ground arith,
        ground arith,
        Gone-SameOutside poisoned poisoned-Gone,
      ))

  abbrev alone : Links
  alone =
      let u = unlinked m (m.prev x) (m.next x) in
      record u { next = update u.next x x; prev = update u.prev x x }

  k_list_del_init-ok : k_list_del_init x m ≡ ok tt alone
  unfolding k_list_del_init k_init_list_head set_next set_prev
  k_list_del_init-ok =
      let loc = Ring-Located m h front x back r in
      rw __list_del_entry-ok (ground (arith, loc.entry_live))

  alone-Gone : Gone x m alone
  alone-Gone = record { next = λ a o. ground arith; prev = λ a o. ground arith; live = λ a. refl }

  -- `k_list_del_init` takes an entry out of its list, wherever it stands, keeps the other entries in
  -- their order, leaves the entry as the head of an empty list, does not fault, and writes no node
  -- outside the list.
  pub k_list_del_init-IsList :
      Returns
        (λ _ g.
          IsList g h (front ++ back) × IsList g x [] × SameOutside (h ∷ front ++ x ∷ back) m g)
        (k_list_del_init x m)
  k_list_del_init-IsList = rw k_list_del_init-ok (
      returns (
        Gone-IsList alone alone-Gone,
        record {
          cycle = (ground arith, ground arith);
          distinct = λ a. ground arith;
          live = λ a i. ground (arith, (Ring-Located m h front x back r).entry_live);
        },
        Gone-SameOutside alone alone-Gone,
      ))
