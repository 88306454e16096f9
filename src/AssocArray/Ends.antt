-- ===== src/AssocArray/Ends.antt =====
-- The oldest and the newest entry: `array_get_first`, `array_get_last`, `array_del_first`,
-- `array_del_last`.
use hashtable_linux_kernel.Common.{
  ℕ, ◌-◌, ◌≡◌, is_nil, refl, subst, true, false, ◌==◌, List, [], ◌∷◌, ◌++◌, append-nil, arith,
  length-append, ◌∈◌, count-append, Cmd, ok, Returns, returns, Returns-inv,
}
use hashtable_linux_kernel.Links.{Addr, get_next, get_prev}
use hashtable_linux_kernel.KList.Ring.{IsList, Seg-split}
use hashtable_linux_kernel.KList.Query.{k_list_empty-is_nil}
use hashtable_linux_kernel.World.{World, lnode, list_of, get_array_size}
use hashtable_linux_kernel.AssocArray.{
  array_del_last, array_get_last, array_del_first, _array_del_first, array_get_first,
  _array_get_first, array_is_empty, end_entry,
}
use hashtable_linux_kernel.AssocArray.Valid.{oldest_first, IsAssoc}
use hashtable_linux_kernel.AssocArray.Split.{oldest_first-split}
use hashtable_linux_kernel.AssocArray.Delete.{FreesEntry, delete_entry-IsAssoc}
use hashtable_linux_kernel.AssocArray.Remove.{entry_ne_null}

module _ (w : World) (arr : Addr) (front : List Addr) (e : Addr)
    (is : IsAssoc w arr (front ++ e ∷ [])) where
  oldest : IsList w.links (list_of arr) (lnode e ∷ oldest_first front)
  oldest = subst (IsList w.links (list_of arr)) (oldest_first-split front e []) is.list

  not_empty : array_is_empty arr w ≡ ok false w
  unfolding array_is_empty get_array_size
  not_empty =
      let given : (arr == 0) ≡ false = ground (arith, is.array.given) in
      let size : (w.size arr == 0) ≡ false =
        ground (arith, is.size, length-append front (e ∷ [])) in
      let full = k_list_empty-is_nil (lnode e ∷ oldest_first front) oldest in
      rw (given, full, is.array.arr_live, size) refl

  first_entry : end_entry arr true w ≡ ok e w
  unfolding end_entry get_next
  first_entry =
      let head_live = oldest.live (list_of arr) (ground arith) in
      let next : w.links.next (list_of arr) ≡ lnode e = oldest.cycle.0 in
      let back : lnode e - 16 ≡ e = omega arith in rw (head_live, next, back) refl

  -- `array_get_first` of an array that has an entry returns the oldest, and changes nothing.
  pub array_get_first-oldest : array_get_first arr w ≡ ok e w
  unfolding array_get_first _array_get_first
  array_get_first-oldest = rw (not_empty, first_entry) refl

  -- `array_del_first` of an array that has an entry does not fault, returns 0, and takes out and frees
  -- the oldest; the others stay in their order.
  pub array_del_first-oldest :
      (call_fill : Addr → (entry data_ : Addr) → List ℕ → Cmd World ℕ)
      (call_free : Addr → Addr → Cmd World (Unit {0}))
      → FreesEntry w (call_free (w.free_entry arr)) e
      → Returns
          (λ ret g. (ret ≡ 0) × IsAssoc g arr front × (g.tables.chains.node_live e ≡ false))
          (array_del_first call_fill call_free arr w)
  unfolding array_del_first _array_del_first
  array_del_first-oldest call_fill call_free frees =
      let o : e ∈ front ++ e ∷ [] = ground (arith, count-append e front (e ∷ [])) in
      let proper : (e == 0) ≡ false =
        ground (arith, entry_ne_null w arr (front ++ e ∷ []) e is o) in
      let (_, g, run, (left, gone)) =
        Returns-inv (delete_entry-IsAssoc w arr front e [] is call_fill call_free frees) in
      rw (not_empty, first_entry, proper, run)
        (returns (refl, subst (IsAssoc g arr) (append-nil front) left, gone))

is_nil-snoc : (xs : List Addr) (y : Addr) → is_nil (xs ++ y ∷ []) ≡ false
is_nil-snoc [] y = refl
is_nil-snoc (x ∷ xs) y = refl

module _ (w : World) (arr : Addr) (e : Addr) (back : List Addr)
    (is : IsAssoc w arr (e ∷ back)) where
  has_entry : array_is_empty arr w ≡ ok false w
  unfolding array_is_empty get_array_size
  has_entry =
      let given : (arr == 0) ≡ false = ground (arith, is.array.given) in
      let size : (w.size arr == 0) ≡ false = ground (arith, is.size) in
      let full = k_list_empty-is_nil (oldest_first back ++ lnode e ∷ []) is.list in
      rw (given, full, is_nil-snoc (oldest_first back) (lnode e), is.array.arr_live, size) refl

  last_entry : end_entry arr false w ≡ ok e w
  unfolding end_entry get_prev
  last_entry =
      let head_live = is.list.live (list_of arr) (ground arith) in
      let (_, end) =
        Seg-split w.links (list_of arr) (oldest_first back) (lnode e) [] (list_of arr)
          is.list.cycle in
      let same : lnode e - 16 ≡ e = omega arith in rw (head_live, end.1, same) refl

  -- `array_get_last` of an array that has an entry returns the newest, and changes nothing.
  pub array_get_last-newest : array_get_last arr w ≡ ok e w
  unfolding array_get_last _array_get_first
  array_get_last-newest = rw (has_entry, last_entry) refl

  -- `array_del_last` of an array that has an entry does not fault, returns 0, and takes out and frees
  -- the newest; the others stay in their order.
  pub array_del_last-newest :
      (call_fill : Addr → (entry data_ : Addr) → List ℕ → Cmd World ℕ)
      (call_free : Addr → Addr → Cmd World (Unit {0}))
      → FreesEntry w (call_free (w.free_entry arr)) e
      → Returns
          (λ ret g. (ret ≡ 0) × IsAssoc g arr back × (g.tables.chains.node_live e ≡ false))
          (array_del_last call_fill call_free arr w)
  unfolding array_del_last _array_del_first
  array_del_last-newest call_fill call_free frees =
      let o : e ∈ e ∷ back = ground arith in
      let proper : (e == 0) ≡ false = ground (arith, entry_ne_null w arr (e ∷ back) e is o) in
      let (_, g, run, (left, gone)) =
        Returns-inv (delete_entry-IsAssoc w arr [] e back is call_fill call_free frees) in
      rw (has_entry, last_entry, proper, run) (returns (refl, left, gone))
