-- ===== src/HList.antt =====
-- The list with a one-pointer head of list.h, over the memory of `HLinks`. A pointer is tested as C
-- tests it: `NULL` is 0.
pub mod Chain
pub mod Unlink
pub mod Link
pub mod Add
pub mod Loops
pub mod Entries
use hashtable_linux_kernel.Common.{
  ℕ, zero, suc, Bool, not, ◌==◌, if◌then◌else◌, Cmd, pure, ◌>>=◌, ◌>>◌, out_of_fuel, is_zero,
}
use hashtable_linux_kernel.Links.{Addr, null, list_poison1, list_poison2}
use hashtable_linux_kernel.HLinks.{
  HLinks, set_slot, get_first, set_first, get_hnext, set_hnext, get_pprev, set_pprev,
}

unfoldable pub init_hlist_head : Addr → Cmd HLinks (Unit {0})
init_hlist_head ptr = set_first ptr null

unfoldable pub init_hlist_node : Addr → Cmd HLinks (Unit {0})
init_hlist_node h = do set_hnext h null; set_pprev h null

unfoldable pub hlist_unhashed : Addr → Cmd HLinks Bool
hlist_unhashed h = do pprev ← get_pprev h; pure (is_zero pprev)

unfoldable pub hlist_empty : Addr → Cmd HLinks Bool
hlist_empty h = do first ← get_first h; pure (is_zero first)

unfoldable pub __hlist_del : Addr → Cmd HLinks (Unit {0})
__hlist_del n = do
  next ← get_hnext n
  pprev ← get_pprev n
  set_slot pprev next
  if is_zero next then pure tt else set_pprev next pprev

unfoldable pub hlist_del : Addr → Cmd HLinks (Unit {0})
hlist_del n = do __hlist_del n; set_hnext n list_poison1; set_pprev n list_poison2

unfoldable pub hlist_del_init : Addr → Cmd HLinks (Unit {0})
hlist_del_init n = do
  unhashed ← hlist_unhashed n
  if unhashed then pure tt else do __hlist_del n; init_hlist_node n

-- `&n->next` is the address of the node, `&h->first` that of the head.
unfoldable pub hlist_add_head : (n h : Addr) → Cmd HLinks (Unit {0})
hlist_add_head n h = do
  first ← get_first h
  set_hnext n first
  if is_zero first then pure tt else set_pprev first n
  set_first h n
  set_pprev n h

-- `*(n->pprev) = n` reads `n->pprev` again.
unfoldable pub hlist_add_before : (n next : Addr) → Cmd HLinks (Unit {0})
hlist_add_before n next = do
  p ← get_pprev next
  set_pprev n p
  set_hnext n next
  set_pprev next n
  p' ← get_pprev n
  set_slot p' n

unfoldable pub hlist_add_behind : (n prev : Addr) → Cmd HLinks (Unit {0})
hlist_add_behind n prev = do
  next ← get_hnext prev
  set_hnext n next
  set_hnext prev n
  set_pprev n prev
  next' ← get_hnext n
  if is_zero next' then pure tt else set_pprev next' n

unfoldable pub hlist_add_fake : Addr → Cmd HLinks (Unit {0})
hlist_add_fake n = set_pprev n n

unfoldable pub hlist_fake : Addr → Cmd HLinks Bool
hlist_fake h = do p ← get_pprev h; pure (p == h)

unfoldable pub hlist_move_list : (old new : Addr) → Cmd HLinks (Unit {0})
hlist_move_list old new = do
  first ← get_first old
  set_first new first
  first' ← get_first new
  if is_zero first' then pure tt else set_pprev first' new
  set_first old null

module _ {S B : Type 0} (next_of : Addr → Cmd S Addr) (body : Addr → B → Cmd S B) where
  -- `for (; pos; pos = pos->next)`.
  unfoldable pub hlist_for_each_from : ℕ → Addr → B → Cmd S B
  hlist_for_each_from zero pos acc = λ _. out_of_fuel
  hlist_for_each_from (suc fuel) pos acc =
      if is_zero pos
      then pure acc
      else do acc' ← body pos acc; n ← next_of pos; hlist_for_each_from fuel n acc'

  -- `for (; pos && ({ n = pos->next; 1; }); pos = n)`.
  unfoldable pub hlist_for_each_safe_from : ℕ → Addr → B → Cmd S B
  hlist_for_each_safe_from zero pos acc = λ _. out_of_fuel
  hlist_for_each_safe_from (suc fuel) pos acc =
      if is_zero pos
      then pure acc
      else do n ← next_of pos; acc' ← body pos acc; hlist_for_each_safe_from fuel n acc'
