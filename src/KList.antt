-- ===== src/KList.antt =====
-- The circular doubly linked list of list.h. A function of the header is a command over the memory of
-- list heads; a macro that loops takes fuel, its step (`next` or `prev`) and its body.
pub mod Ring
pub mod Insert
pub mod Delete
pub mod Query
pub mod Splice
pub mod Replace
pub mod Cut
pub mod Loops
pub mod Join
pub mod Move
pub mod Entries
pub mod EntryLoops
use hashtable_linux_kernel.Common.{
  ℕ, zero, suc, Bool, false, not, ◌&&◌, ◌==◌, if◌then◌else◌, Option, none, some, Cmd, pure, ◌>>=◌,
  ◌>>◌, out_of_fuel,
}
use hashtable_linux_kernel.Links.{
  Addr, list_poison1, list_poison2, Links, get_next, get_prev, set_next, set_prev,
}

unfoldable pub k_init_list_head : Addr → Cmd Links (Unit {0})
k_init_list_head list = do set_next list list; set_prev list list

unfoldable pub __list_add : (new prev next : Addr) → Cmd Links (Unit {0})
__list_add new prev next = do
  set_prev next new
  set_next new next
  set_prev new prev
  set_next prev new

unfoldable pub k_list_add : (new head : Addr) → Cmd Links (Unit {0})
k_list_add new head = do first ← get_next head; __list_add new head first

unfoldable pub k_list_add_tail : (new head : Addr) → Cmd Links (Unit {0})
k_list_add_tail new head = do last ← get_prev head; __list_add new last head

unfoldable pub __list_del : (prev next : Addr) → Cmd Links (Unit {0})
__list_del prev next = do set_prev next prev; set_next prev next

unfoldable pub __list_del_entry : Addr → Cmd Links (Unit {0})
__list_del_entry entry = do p ← get_prev entry; n ← get_next entry; __list_del p n

unfoldable pub k_list_del : Addr → Cmd Links (Unit {0})
k_list_del entry = do
  p ← get_prev entry
  n ← get_next entry
  __list_del p n
  set_next entry list_poison1
  set_prev entry list_poison2

-- `new->next->prev = new` reads `new->next` again.
unfoldable pub k_list_replace : (old new : Addr) → Cmd Links (Unit {0})
k_list_replace old new = do
  n ← get_next old
  set_next new n
  n' ← get_next new
  set_prev n' new
  p ← get_prev old
  set_prev new p
  p' ← get_prev new
  set_next p' new

unfoldable pub k_list_replace_init : (old new : Addr) → Cmd Links (Unit {0})
k_list_replace_init old new = do k_list_replace old new; k_init_list_head old

unfoldable pub k_list_del_init : Addr → Cmd Links (Unit {0})
k_list_del_init entry = do __list_del_entry entry; k_init_list_head entry

unfoldable pub k_list_move : (list head : Addr) → Cmd Links (Unit {0})
k_list_move list head = do __list_del_entry list; k_list_add list head

unfoldable pub k_list_move_tail : (list head : Addr) → Cmd Links (Unit {0})
k_list_move_tail list head = do __list_del_entry list; k_list_add_tail list head

unfoldable pub k_list_is_last : (list head : Addr) → Cmd Links Bool
k_list_is_last list head = do n ← get_next list; pure (n == head)

unfoldable pub k_list_empty : Addr → Cmd Links Bool
k_list_empty head = do n ← get_next head; pure (n == head)

-- `&&` reads `head->prev` only if the first test holds.
unfoldable pub k_list_empty_careful : Addr → Cmd Links Bool
k_list_empty_careful head = do
  next ← get_next head
  if next == head then (do p ← get_prev head; pure (next == p)) else pure false

unfoldable pub k_list_rotate_left : Addr → Cmd Links (Unit {0})
k_list_rotate_left head = do
  empty ← k_list_empty head
  if empty then pure tt else do first ← get_next head; k_list_move_tail first head

unfoldable pub k_list_is_singular : Addr → Cmd Links Bool
k_list_is_singular head = do
  empty ← k_list_empty head
  if empty then pure false else do n ← get_next head; p ← get_prev head; pure (n == p)

unfoldable pub __list_cut_position : (list head entry : Addr) → Cmd Links (Unit {0})
__list_cut_position list head entry = do
  new_first ← get_next entry
  first ← get_next head
  set_next list first
  first' ← get_next list
  set_prev first' list
  set_prev list entry
  set_next entry list
  set_next head new_first
  set_prev new_first head

unfoldable pub k_list_cut_position : (list head entry : Addr) → Cmd Links (Unit {0})
k_list_cut_position list head entry = do
  empty ← k_list_empty head
  if empty then pure tt else do
    singular ← k_list_is_singular head
    n ← get_next head
    if singular && (not (n == entry) && not (head == entry))
        then pure tt
        else if entry == head
        then k_init_list_head list
        else __list_cut_position list head entry

unfoldable pub __list_splice : (list prev next : Addr) → Cmd Links (Unit {0})
__list_splice list prev next = do
  first ← get_next list
  last ← get_prev list
  set_prev first prev
  set_next prev first
  set_next last next
  set_prev next last

unfoldable pub k_list_splice : (list head : Addr) → Cmd Links (Unit {0})
k_list_splice list head = do
  empty ← k_list_empty list
  if empty then pure tt else do n ← get_next head; __list_splice list head n

unfoldable pub k_list_splice_tail : (list head : Addr) → Cmd Links (Unit {0})
k_list_splice_tail list head = do
  empty ← k_list_empty list
  if empty then pure tt else do p ← get_prev head; __list_splice list p head

unfoldable pub k_list_splice_init : (list head : Addr) → Cmd Links (Unit {0})
k_list_splice_init list head = do
  empty ← k_list_empty list
  if empty then pure tt else do n ← get_next head; __list_splice list head n; k_init_list_head list

unfoldable pub k_list_splice_tail_init : (list head : Addr) → Cmd Links (Unit {0})
k_list_splice_tail_init list head = do
  empty ← k_list_empty list
  if empty then pure tt else do p ← get_prev head; __list_splice list p head; k_init_list_head list

-- The list head's members, read as entries (`container_of` is the caller's).
unfoldable pub k_list_first_entry_or_null : Addr → Cmd Links (Option Addr)
k_list_first_entry_or_null ptr = do
  empty ← k_list_empty ptr
  if empty then pure none else do n ← get_next ptr; pure (some n)

unfoldable pub k_list_last_entry_or_null : Addr → Cmd Links (Option Addr)
k_list_last_entry_or_null ptr = do
  empty ← k_list_empty ptr
  if empty then pure none else do p ← get_prev ptr; pure (some p)

unfoldable pub list_del_range : (begin end : Addr) → Cmd Links (Unit {0})
list_del_range begin end = do
  p ← get_prev begin
  n ← get_next end
  set_next p n
  n' ← get_next end
  p' ← get_prev begin
  set_prev n' p'

module _ {S B : Type 0} (step : Addr → Cmd S Addr) (body : Addr → B → Cmd S B) (head : Addr) where
  -- `for (; pos != head; pos = pos->next)`; the variables that the body changes are the accumulator.
  unfoldable pub list_for_each_from : ℕ → Addr → B → Cmd S B
  list_for_each_from zero pos acc = λ _. out_of_fuel
  list_for_each_from (suc fuel) pos acc =
      if pos == head
      then pure acc
      else do acc' ← body pos acc; n ← step pos; list_for_each_from fuel n acc'

  unfoldable pub k_list_for_each : ℕ → B → Cmd S B
  unfolding list_for_each_from
  k_list_for_each fuel acc = do pos ← step head; list_for_each_from fuel pos acc

  -- The successor is read before the body runs, so the body may delete `pos`.
  unfoldable pub for_each_safe_from : ℕ → (pos n : Addr) → B → Cmd S B
  for_each_safe_from zero pos n acc = λ _. out_of_fuel
  for_each_safe_from (suc fuel) pos n acc =
      if pos == head
      then pure acc
      else do acc' ← body pos acc; n' ← step n; for_each_safe_from fuel n n' acc'

  unfoldable pub k_list_for_each_safe : ℕ → B → Cmd S B
  unfolding for_each_safe_from
  k_list_for_each_safe fuel acc = do
    pos ← step head
    n ← step pos
    for_each_safe_from fuel pos n acc
