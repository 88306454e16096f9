-- ===== src/LeakDetector/Remove.antt =====
-- Removing a record (`remove_mem_info`, `del_memleak_list`).
use hashtable_linux_kernel.Common.{
  ℕ, ◌+◌, zero, suc, ◌≡◌, ◌≢◌, refl, true, false, ◌==◌, if◌then◌else◌, Option, none, some,
  Bool-cases, inl, inr, List, [], ◌∷◌, ◌++◌, arith, ap, subst, sym, count, count-append, ◌∈◌, ◌∉◌,
  Returns, returns, Cmd, pure, ok, ◌<◌, length,
}
use hashtable_linux_kernel.Links.{Addr, update, set_next, set_prev, get_prev, get_next}
use hashtable_linux_kernel.KList.Ring.{IsList, Ring-live, Seg, SameOutside-refl}
use hashtable_linux_kernel.KList.Delete.{unlinked, Ring-Located, Gone-IsList}
use hashtable_linux_kernel.LeakDetector.{
  Leaks, del_memleak_list, __del_memleak_list, remove_from, remove_mem_info, get_info, free_heap,
}
use hashtable_linux_kernel.LeakDetector.Valid.{
  Leak, nodes, AllStored, IsDetector, nodes-append, AllStored-frame,
}

-- The records without the first of an address.
abbrev pub erase_first : Addr → List Leak → List Leak
erase_first a [] = []
erase_first a (r ∷ rs) = if r.info.address == a then rs else r ∷ erase_first a rs

abbrev find_node : Addr → List Leak → Option Addr
find_node a [] = none
find_node a (r ∷ rs) = if r.info.address == a then some r.node else find_node a rs

abbrev delete_found : Option Addr → Cmd Leaks (Unit {0})
delete_found none = pure tt
delete_found (some n) = del_memleak_list n

-- The loop looks for the record, and deletes it.
remove_from-find :
    (m : Leaks) (a : Addr) (rs : List Leak) (curr fuel : ℕ)
    → length rs < fuel
    → Seg m.links curr (nodes rs) m.head
    → m.head ∉ nodes rs
    → m.links.live curr ≡ true
    → ((x : Addr) → x ∈ nodes rs → m.links.live x ≡ true)
    → AllStored m rs
    → remove_from fuel a curr m ≡ delete_found (find_node a rs) m
unfolding remove_from get_next get_info
remove_from-find m a [] curr (suc fuel) enough seg out here live stored =
    let last : (m.links.next curr == m.head) ≡ true = ground (arith, seg.0) in rw (here, last) refl
remove_from-find m a (r ∷ rs) curr (suc fuel) enough seg out here live stored =
    let inner : (m.links.next curr == m.head) ≡ false = ground (arith, seg.0, out) in
    let there : m.links.live r.node ≡ true = live r.node (ground arith) in
    rw (here, inner, seg.0, there, stored.0.address)
      (elim (Bool-cases (r.info.address == a)) [
        | inl t ↦ rw t refl
        | inr f ↦ rw f (
            remove_from-find m a rs r.node fuel (omega arith) seg.2 (ground arith) there
              (λ x i. live x (omega arith)) stored.1)
      ])
remove_from-find m a rs curr zero enough seg out here live stored = absurd (omega arith)

-- What the search finds.
data Search (a : Addr) (rs : List Leak) : Option Addr → Type 0 where
  absent : erase_first a rs ≡ rs → Search a rs none
  taken :
      (front : List Leak) (r : Leak) (back : List Leak)
      → rs ≡ front ++ r ∷ back
      → erase_first a rs ≡ front ++ back
      → Search a rs (some r.node)

Search-cons :
    (a : Addr) (r : Leak) (rs : List Leak) (o : Option Addr)
    → (r.info.address == a) ≡ false
    → Search a rs o
    → Search a (r ∷ rs) o
Search-cons a r rs _ other (absent same) = absent (rw (other, same) refl)
Search-cons a r rs _ other (taken front s back split erased) =
    taken (r ∷ front) s back (ap (λ t. r ∷ t) split) (rw (other, erased) refl)

find_node-Search : (a : Addr) (rs : List Leak) → Search a rs (find_node a rs)
find_node-Search a [] = absent refl
find_node-Search a (r ∷ rs) = elim (Bool-cases (r.info.address == a)) [
  | inl t ↦ rw t (taken [] r rs refl (rw t refl))
  | inr f ↦ rw f (Search-cons a r rs _ f (find_node-Search a rs))
]

-- The memory without the record at `x`.
abbrev deleted : Leaks → Addr → Leaks
deleted m x =
    let l = unlinked m.links (m.links.prev x) (m.links.next x) in
    record m {
      heap = update m.heap x false;
      links = record l { live = update m.links.live x false };
    }

del_memleak_list-ok :
    (m : Leaks) (front : List Leak) (r : Leak) (back : List Leak)
    → IsDetector m (front ++ r ∷ back)
    → del_memleak_list r.node m ≡ ok tt (deleted m r.node)
unfolding del_memleak_list __del_memleak_list get_prev get_next set_prev set_next free_heap
del_memleak_list-ok m front r back is =
    let list : IsList m.links m.head (nodes front ++ r.node ∷ nodes back) =
      subst (IsList m.links m.head) (nodes-append front (r ∷ back)) is.list in
    let loc = Ring-Located m.links m.head (nodes front) r.node (nodes back) list in
    let kept : m.heap r.node ≡ true = is.heap r.node (
      ground (
        arith,
        ap (count r.node) (nodes-append front (r ∷ back)),
        count-append r.node (nodes front) (r.node ∷ nodes back),
      )) in
    let given : (r.node == 0) ≡ false = ground (arith, loc.entry_live, is.fixed.null_live) in
    rw (loc.entry_live, loc.entry_live, loc.next_live, loc.prev_live, given, kept) refl

-- What a removal leaves: `left` of the records `rs`; the objects of the others are given back, and
-- no other block.
pub record Removed (m : Leaks) (rs left : List Leak) (g : Leaks) : Type 0 where
  pub detector : IsDetector g left
  pub head : g.head ≡ m.head
  pub freed : (a : Addr) → a ∈ nodes rs → a ∉ nodes left → g.heap a ≡ false
  pub others : (a : Addr) → a ∉ nodes rs → g.heap a ≡ m.heap a

AllStored-without :
    (m : Leaks) (front : List Leak) (r : Leak) (back : List Leak)
    → AllStored m (front ++ r ∷ back)
    → AllStored m (front ++ back)
AllStored-without m [] r back s = s.1
AllStored-without m (f ∷ front) r back s = (s.0, AllStored-without m front r back s.1)

module _ (m : Leaks) (front : List Leak) (r : Leak) (back : List Leak)
    (is : IsDetector m (front ++ r ∷ back)) where
  abbrev x : Addr
  x = r.node

  list : IsList m.links m.head (nodes front ++ x ∷ nodes back)
  list = subst (IsList m.links m.head) (nodes-append front (r ∷ back)) is.list

  counts :
      (a : Addr)
      → count a (nodes (front ++ r ∷ back)) ≡ count a (nodes (front ++ back)) + count a (x ∷ [])
  counts a = omega (
    arith,
    ap (count a) (nodes-append front (r ∷ back)),
    ap (count a) (nodes-append front back),
    count-append a (nodes front) (x ∷ nodes back),
    count-append a (nodes front) (nodes back),
  )

  static_apart : (a : Addr) → m.links.live a ≡ false → a ≢ x
  static_apart a dead = ground (arith, is.list.live x, counts x, dead)

  deleted-Removed : Removed m (front ++ r ∷ back) (front ++ back) (deleted m x)
  deleted-Removed =
      let loc = Ring-Located m.links m.head (nodes front) x (nodes back) list in
      let l = unlinked m.links (m.links.prev x) (m.links.next x) in
      let rest = Gone-IsList (nodes front) x (nodes back) list l (SameOutside-refl l (x ∷ [])) in
      let still : IsList l m.head (nodes (front ++ back)) =
        subst (IsList l m.head) (sym (nodes-append front back)) rest in
      let apart : m.head ≢ x = ground (arith, loc.out) in
      let gone : count x (nodes (front ++ back)) ≡ 0 =
        ground (arith, counts x, is.list.distinct x) in
      record {
        detector = record {
          fixed = record {
            head_live = ground (arith, is.fixed.head_live, apart);
            static = ground (arith, is.fixed.static);
            null_live = ground (arith, is.fixed.null_live);
            null_heap = ground (arith, is.fixed.null_heap);
          };
          flag = is.flag;
          list =
              Ring-live l (update m.links.live x false) (m.head ∷ nodes (front ++ back))
                (λ a i. ground (arith, gone, still.live a)) still;
          heap = λ a i. ground (arith, gone, counts a, is.heap a);
          stored =
              AllStored-frame m (deleted m x) (front ++ back) (λ a i. refl)
                (AllStored-without m front r back is.stored);
        };
        head = refl;
        freed = λ a i o. ground (arith, counts a);
        others = λ a o. ground (arith, counts a);
      }

delete_found-Removed :
    (m : Leaks) (rs : List Leak) (a : Addr) (o : Option Addr)
    → IsDetector m rs
    → Search a rs o
    → Returns (λ _ g. Removed m rs (erase_first a rs) g) (delete_found o m)
delete_found-Removed m rs a _ is (absent same) =
    subst (λ left. Returns (λ _ g. Removed m rs left g) (ok tt m)) (sym same)
      (returns (record {
        detector = is;
        head = refl;
        freed = λ x i o. absurd (omega arith);
        others = λ x o. refl;
      }))
delete_found-Removed m rs a _ is (taken front r back split erased) =
    let is' = subst (IsDetector m) split is in
    let removed = deleted-Removed m front r back is' in
    rw (del_memleak_list-ok m front r back is') (
      returns (
        subst (λ left. Removed m rs left (deleted m r.node)) (sym erased)
          (subst (λ t. Removed m t (front ++ back) (deleted m r.node)) (sym split) removed)))

-- `remove_mem_info`, with fuel above the number of records, does not fault; of the records it leaves
-- all but the first of the address, in their order; it frees the object of that one and no other
-- block.
pub remove_mem_info-Removed :
    (m : Leaks) (rs : List Leak) (a : Addr) (fuel : ℕ)
    → IsDetector m rs
    → length rs < fuel
    → Returns (λ _ g. Removed m rs (erase_first a rs) g) (remove_mem_info fuel a m)
unfolding remove_mem_info
remove_mem_info-Removed m rs a fuel is enough =
    rw
      (remove_from-find m a rs m.head fuel enough is.list.cycle
        (ground (arith, is.list.distinct m.head)) is.fixed.head_live
        (λ x i. is.list.live x (omega arith)) is.stored)
      (delete_found-Removed m rs a (find_node a rs) is (find_node-Search a rs))
