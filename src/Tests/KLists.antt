-- ===== src/Tests/KLists.antt =====
-- A memory with two lists, and the theorems of the circular list at it.
use hashtable_linux_kernel.Common.{
  ◌≡◌, refl, ◌&&◌, ltb, ◌==◌, if◌then◌else◌, [], ◌∷◌, arith, Returns,
}
use hashtable_linux_kernel.Links.{Links, list_poison1, list_poison2, get_next}
use hashtable_linux_kernel.KList.{k_list_add, k_list_del, k_list_splice}
use hashtable_linux_kernel.KList.Ring.{IsList, SameOutside, Ring, Apart}
use hashtable_linux_kernel.KList.Insert.{k_list_add-IsList}
use hashtable_linux_kernel.KList.Delete.{k_list_del-IsList}
use hashtable_linux_kernel.KList.Join.{k_list_splice-append}
use hashtable_linux_kernel.Common.{ℕ, ◌+◌, ◌*◌, ok}
use hashtable_linux_kernel.Links.{get_prev}
use hashtable_linux_kernel.KList.Loops.{visit}
use hashtable_linux_kernel.KList.EntryLoops.{
  HasEntries, delete_member, k_list_for_each_entry, k_list_for_each_entry_reverse,
  k_list_for_each_entry_safe, k_list_for_each_entry-foldl, k_list_for_each_entry_safe-delete,
}

-- Head 1 holds 2 and 3, head 4 holds 5 and 6, and the objects 7 to 9 are in no list.
abbrev memory : Links
memory = record {
  live = λ a. ltb 0 a && ltb a 10;
  next = λ a.
      if a == 1
      then 2
      else if a == 2
      then 3
      else if a == 3
      then 1
      else if a == 4
      then 5
      else if a == 5
      then 6
      else if a == 6
      then 4
      else a;
  prev = λ a.
      if a == 2
      then 1
      else if a == 3
      then 2
      else if a == 1
      then 3
      else if a == 5
      then 4
      else if a == 6
      then 5
      else if a == 4
      then 6
      else a;
}

one-IsList : IsList memory 1 (2 ∷ 3 ∷ [])
one-IsList = record {
  cycle = (refl, refl, (refl, refl, (refl, refl)));
  distinct = λ a. ground arith;
  live = λ a i. ground arith;
}

four-IsList : IsList memory 4 (5 ∷ 6 ∷ [])
four-IsList = record {
  cycle = (refl, refl, (refl, refl, (refl, refl)));
  distinct = λ a. ground arith;
  live = λ a i. ground arith;
}

k_list_add-IsList_example :
    Returns
      (λ _ g. IsList g 1 (7 ∷ 2 ∷ 3 ∷ []) × SameOutside (7 ∷ 1 ∷ 2 ∷ 3 ∷ []) memory g)
      (k_list_add 7 1 memory)
k_list_add-IsList_example = k_list_add-IsList 7 one-IsList refl refl

k_list_del-IsList_example :
    Returns
      (λ _ g.
        IsList g 1 (3 ∷ [])
        × (g.next 2 ≡ list_poison1)
        × (g.prev 2 ≡ list_poison2)
        × SameOutside (1 ∷ 2 ∷ 3 ∷ []) memory g)
      (k_list_del 2 memory)
k_list_del-IsList_example = k_list_del-IsList [] 2 (3 ∷ []) one-IsList

two_lists-Apart : Apart (4 ∷ 5 ∷ 6 ∷ []) (1 ∷ 2 ∷ 3 ∷ [])
two_lists-Apart = λ a i. ground arith

two_lists-Apart_sym : Apart (1 ∷ 2 ∷ 3 ∷ []) (4 ∷ 5 ∷ 6 ∷ [])
two_lists-Apart_sym = λ a i. ground arith

k_list_splice-append_example :
    Returns
      (λ _ g. IsList g 4 (2 ∷ 3 ∷ 5 ∷ 6 ∷ []) × SameOutside (1 ∷ 2 ∷ 3 ∷ 4 ∷ 5 ∷ 6 ∷ []) memory g)
      (k_list_splice 1 4 memory)
k_list_splice-append_example =
    k_list_splice-append (2 ∷ 3 ∷ []) (5 ∷ 6 ∷ []) one-IsList four-IsList two_lists-Apart

two-Ring : Ring memory (2 ∷ 3 ∷ 1 ∷ [])
two-Ring = record {
  cycle = (refl, refl, (refl, refl, (refl, refl)));
  distinct = λ a. ground arith;
  live = λ a i. ground arith;
}

-- The entries 1 and 2 have the nodes 2 and 3 as members.
one-HasEntries : HasEntries memory 1 1 (1 ∷ 2 ∷ [])
one-HasEntries = record {
  list = one-IsList;
  head_small = omega arith;
  small = λ e o. ground arith;
  fits = omega arith;
}

k_list_for_each_entry_safe-delete_example :
    Returns
      (λ _ g. IsList g 1 [])
      (k_list_for_each_entry_safe get_next get_prev 1 (delete_member 1) 1 4 tt memory)
k_list_for_each_entry_safe-delete_example =
    k_list_for_each_entry_safe-delete 1 4 memory 1 (1 ∷ 2 ∷ []) one-HasEntries (omega arith)

k_list_for_each_entry-foldl_example :
    (k_list_for_each_entry get_next get_prev 1 (visit {B = ℕ} (λ n e. 10 * n + e)) 1 3 0 memory
      ≡ ok 12 memory)
    × (k_list_for_each_entry_reverse get_next get_prev 1
          (visit {B = ℕ} (λ n e. 10 * n + e))
          1
          3
          0
          memory
        ≡ ok 21 memory)
k_list_for_each_entry-foldl_example =
    k_list_for_each_entry-foldl {B = ℕ} (λ n e. 10 * n + e) memory 1 1 3 (1 ∷ 2 ∷ []) 0
      one-HasEntries (omega arith)
