-- ===== src/KList/Cut.antt =====
-- Cutting a list in two (`k_list_cut_position`) and taking out a range (`list_del_range`).
use hashtable_linux_kernel.Common.{
  Bool, not, is_nil, ◌+◌, ◌&&◌, ◌≡◌, refl, true, false, List, [], ◌∷◌, ◌++◌, arith, count, Distinct,
  ◌∈◌, ◌∉◌, ok, Returns, returns, count-append, append_assoc, subst, sym, ◌==◌, if◌then◌else◌,
}
use hashtable_linux_kernel.Links.{Addr, Links, update, get_next, get_prev, set_next, set_prev}
use hashtable_linux_kernel.KList.Ring.{
  Seg, IsList, Seg-frame, Ring-frame, Seg-prev, Seg-join, Seg-split, Seg-redirect,
}
use hashtable_linux_kernel.KList.{__list_cut_position, k_list_cut_position}
use hashtable_linux_kernel.KList.Insert.{
  k_init_list_head-ok, initialised-IsList, initialised-SameOutside,
}
use hashtable_linux_kernel.KList.Query.{
  is_single, k_list_empty-is_nil, k_list_is_singular-is_single,
}

-- The node behind the last one of a part.
abbrev first_or : List Addr → Addr → Addr
first_or [] q = q
first_or (y ∷ ys) q = y

-- The memory after `__list_cut_position`.
abbrev cut : Links → (list head entry : Addr) → Links
cut m list head entry =
    let n = m.next entry in
    let first = m.next head in
    record m {
      next = update (update (update m.next list first) entry list) head n;
      prev = update (update (update m.prev first list) list entry) n head;
    }

cut_rest :
    (m : Links) (list head entry x : Addr) (ys : List Addr)
    → m.next head ≡ x
    → list ∉ head ∷ ys
    → entry ∉ head ∷ ys
    → x ∉ head ∷ ys
    → Distinct (head ∷ ys)
    → Seg m entry ys head
    → Seg (cut m list head entry) head ys head
cut_rest m list head entry x [] e a b c once s = (ground (arith, s), ground (arith, s))
cut_rest m list head entry x (y ∷ ys) e a b c once s = (
  ground (arith, s.0),
  ground (arith, s.0),
  Seg-frame m (cut m list head entry) y ys head (λ z i. ground (arith, once head))
      (λ z i. ground (arith, s.0, once z, once y)) s.2,
)

-- The early return for a list of one entry is not taken for an entry of the list.
keeps :
    (x : Addr) (xs back : List Addr) (entry : Addr) (b : Bool)
    → entry ∈ x ∷ xs
    → (is_single (x ∷ xs ++ back) && (not (x == entry) && b)) ≡ false
keeps x [] [] entry b i = ground (arith, i)
keeps x [] (y ∷ back) entry b i = refl
keeps x (y ∷ xs) back entry b i = refl

pred :
    (m : Links) (entry : Addr) (ys : List Addr) (head : Addr)
    → Seg m entry ys head
    → m.prev (m.next entry) ≡ entry
pred m entry [] head s = rw s.0 s.1
pred m entry (y ∷ ys) head s = rw s.0 s.1

module _ (m : Links) (list head entry x : Addr) (xs back : List Addr) (live : m.live list ≡ true)
    (out : list ∉ head ∷ (x ∷ xs) ++ back) (r : IsList m head ((x ∷ xs) ++ back))
    (last : Seg m head (x ∷ xs) (m.next entry)) (pred : m.prev (m.next entry) ≡ entry)
    (after : Seg m entry back head) where
  number : (a : Addr) → count a (xs ++ back) ≡ count a xs + count a back
  number a = count-append a xs back

  member : entry ∈ x ∷ xs
  member = subst (λ e. e ∈ x ∷ xs) pred (Seg-prev m (m.next entry) x xs last.2)

  next-first_or : m.next entry ∈ head ∷ back
  next-first_or = go back after
    where
      go : (ys : List Addr) → Seg m entry ys head → m.next entry ∈ head ∷ ys
      go [] s = ground (arith, s)
      go (y ∷ ys) s = ground (arith, s)

  cut_part : Seg (cut m list head entry) list (x ∷ xs) list
  cut_part = (
    ground (arith, last.0, member, out, number list),
    ground (arith, last.0, out, next-first_or, r.distinct x, number x, number list),
    Seg-redirect m (cut m list head entry) x xs (m.next entry) list
        (λ a. ground (arith, r.distinct a, number a))
        (λ a i o. ground (arith, pred, out, number list, number a, r.distinct head, number head))
        (λ a i. ground (arith, last.0, out, number list, next-first_or, r.distinct a, number a))
        (ground (arith, pred, out, number list, member, r.distinct entry, number entry))
        (ground (arith, pred, next-first_or, out, number list, last.0)) last.2,
  )

  cut-Rings :
      IsList (cut m list head entry) list (x ∷ xs) × IsList (cut m list head entry) head back
  cut-Rings = (
    record {
      cycle = cut_part;
      distinct = λ a. ground (arith, r.distinct a, number a, out, number list);
      live = λ a i. ground (arith, r.live a, number a);
    },
    record {
      cycle =
          cut_rest m list head entry x back last.0 (omega (arith, out, number list))
            (ground (arith, r.distinct entry, number entry, member))
            (ground (arith, r.distinct x, number x)) (λ a. ground (arith, r.distinct a, number a))
            after;
      distinct = λ a. ground (arith, r.distinct a, number a);
      live = λ a i. ground (arith, r.live a, number a);
    },
  )

  __list_cut_position-ok : __list_cut_position list head entry m ≡ ok tt (cut m list head entry)
  unfolding __list_cut_position get_next get_prev set_next set_prev
  __list_cut_position-ok = ground (
    arith,
    r.live head (ground arith),
    r.live entry (ground (arith, member, number entry)),
    r.live x (ground arith),
    r.live (m.next entry) (ground (arith, next-first_or, number (m.next entry))),
    last.0,
  )

  is_cut :
      (entry == head) ≡ false
      → Returns
          (λ _ g. IsList g list (x ∷ xs) × IsList g head back)
          (k_list_cut_position list head entry m)
  unfolding k_list_cut_position get_next
  is_cut differ =
      rw
        (
          k_list_empty-is_nil ((x ∷ xs) ++ back) r,
          k_list_is_singular-is_single ((x ∷ xs) ++ back) r,
          r.live head (ground arith),
          last.0,
          keeps x xs back entry (not (head == entry)) member,
          differ,
          __list_cut_position-ok,
        )
        (returns cut-Rings)

-- `k_list_cut_position` moves the entries up to and with a given one from a list to another head, in
-- their order, leaves the others, and does not fault. What the other head held before does not matter.
pub k_list_cut_position-parts :
    (m : Links) (list head : Addr) (front : List Addr) (entry : Addr) (back : List Addr)
    → m.live list ≡ true
    → list ∉ head ∷ front ++ entry ∷ back
    → IsList m head (front ++ entry ∷ back)
    → Returns
        (λ _ g. IsList g list (front ++ entry ∷ []) × IsList g head back)
        (k_list_cut_position list head entry m)
k_list_cut_position-parts m list head [] entry back live out r =
    let (before, after) = Seg-split m head [] entry back head r.cycle in
    let e = pred m entry back head after in
    is_cut m list head entry entry [] back live out r (before.0, before.1, (refl, e)) e after
      (ground (arith, r.distinct entry))
k_list_cut_position-parts m list head (f ∷ fs) entry back live out r =
    let (before, after) = Seg-split m head (f ∷ fs) entry back head r.cycle in
    let e = pred m entry back head after in
    let shape = append_assoc fs (entry ∷ []) back in
    is_cut m list head entry f (fs ++ entry ∷ []) back live
      (subst (λ t. list ∉ head ∷ f ∷ t) (sym shape) out)
      (subst (λ t. IsList m head (f ∷ t)) (sym shape) r)
      (Seg-join m head (f ∷ fs) entry [] (m.next entry) before (refl, e)) e after
      (ground (arith, r.distinct entry, count-append entry fs (entry ∷ back)))

never : (b c : Bool) (h : Addr) → (b && (c && not (h == h))) ≡ false
never b c h = ground arith

-- Where the given entry is the head itself, `k_list_cut_position` empties the other head and leaves
-- the list as it is, if the list has an entry; if it has none, nothing is written.
pub k_list_cut_position-head :
    (m : Links) (list head : Addr) (xs : List Addr)
    → m.live list ≡ true
    → list ∉ head ∷ xs
    → IsList m head xs
    → Returns
        (λ _ g. IsList g head xs × (if is_nil xs then g ≡ m else IsList g list []))
        (k_list_cut_position list head head m)
unfolding k_list_cut_position get_next
k_list_cut_position-head m list head [] live out r =
    rw (k_list_empty-is_nil [] r) (returns (r, refl))
k_list_cut_position-head m list head (x ∷ xs) live out r =
    let same : (head == head) ≡ true = ground arith in
    let test : (is_single (x ∷ xs) && (not (m.next head == head) && not (head == head))) ≡ false =
      never (is_single (x ∷ xs)) (not (m.next head == head)) head in
    rw
      (
        k_list_empty-is_nil (x ∷ xs) r,
        k_list_is_singular-is_single (x ∷ xs) r,
        r.live head (ground arith),
        test,
        same,
        k_init_list_head-ok m list live,
      )
      (returns (
        Ring-frame m (head ∷ x ∷ xs) (list ∷ []) (initialised-SameOutside m list live)
            (λ a i. ground arith) r,
        initialised-IsList m list live,
      ))
