-- ===== src/KList/Move.antt =====
-- Moving an entry within a list or to another one (`k_list_move`, `k_list_move_tail`,
-- `k_list_rotate_left`).
use hashtable_linux_kernel.Common.{
  refl, List, [], ◌∷◌, ◌++◌, arith, ◌∉◌, Returns, returns, count-append, Returns-mono,
}
use hashtable_linux_kernel.Links.{Addr, Links, get_next}
use hashtable_linux_kernel.KList.{k_list_move, k_list_move_tail, k_list_rotate_left}
use hashtable_linux_kernel.KList.Insert.{k_list_add-IsList, k_list_add_tail-IsList}
use hashtable_linux_kernel.KList.Delete.{
  unlinked, Gone, Gone-IsList, Gone-SameOutside, Ring-Located, __list_del_entry-ok,
}
use hashtable_linux_kernel.KList.Query.{k_list_empty-is_nil}
use hashtable_linux_kernel.KList.Ring.{IsList, SameOutside, Ring-frame, SameOutside-trans, Apart}

module _ {m : Links} {h : Addr} (front : List Addr) (x : Addr) (back : List Addr)
    (r : IsList m h (front ++ x ∷ back)) where
  abbrev u : Links
  u = unlinked m (m.prev x) (m.next x)

  u-Gone : Gone x m u
  u-Gone = record { next = λ a o. refl; prev = λ a o. refl; live = λ a. refl }

  u-IsList : IsList u h (front ++ back)
  u-IsList = Gone-IsList front x back r u u-Gone

  same :
      (g : Links)
      → SameOutside (x ∷ h ∷ front ++ back) u g
      → SameOutside (h ∷ front ++ x ∷ back) m g
  same g s =
      SameOutside-trans (h ∷ front ++ x ∷ back) (x ∷ h ∷ front ++ back) (h ∷ front ++ x ∷ back)
        (Gone-SameOutside front x back r u u-Gone) s
        λ a o. (o, omega (arith, count-append a front back, count-append a front (x ∷ back)))

  -- `k_list_move` to the head of its own list puts an entry in front of the others.
  pub k_list_move-IsList :
      Returns
        (λ _ g. IsList g h (x ∷ front ++ back) × SameOutside (h ∷ front ++ x ∷ back) m g)
        (k_list_move x h m)
  unfolding k_list_move
  k_list_move-IsList =
      let loc = Ring-Located m h front x back r in
      rw (__list_del_entry-ok front x back r) (
        Returns-mono (k_list_add-IsList x u-IsList loc.out loc.entry_live)
          λ _ g (is, s). (is, same g s))

  -- `k_list_move_tail` to the head of its own list puts an entry behind the others.
  pub k_list_move_tail-IsList :
      Returns
        (λ _ g. IsList g h ((front ++ back) ++ x ∷ []) × SameOutside (h ∷ front ++ x ∷ back) m g)
        (k_list_move_tail x h m)
  unfolding k_list_move_tail
  k_list_move_tail-IsList =
      let loc = Ring-Located m h front x back r in
      rw (__list_del_entry-ok front x back r) (
        Returns-mono (k_list_add_tail-IsList x u-IsList loc.out loc.entry_live)
          λ _ g (is, s). (is, same g s))

  module _ (h' : Addr) (ys : List Addr) (r' : IsList m h' ys)
      (apart : Apart (h' ∷ ys) (h ∷ front ++ x ∷ back)) where
    other : IsList u h' ys
    other =
        Ring-frame m (h' ∷ ys) (h ∷ front ++ x ∷ back) (Gone-SameOutside front x back r u u-Gone)
          apart r'

    new : x ∉ h' ∷ ys
    new = ground (arith, apart x, count-append x front (x ∷ back))

    -- `k_list_move` to another list takes an entry out of the one and puts it in front of the other.
    pub k_list_move-other :
        Returns (λ _ g. IsList g h (front ++ back) × IsList g h' (x ∷ ys)) (k_list_move x h' m)
    unfolding k_list_move
    k_list_move-other =
        let loc = Ring-Located m h front x back r in
        rw (__list_del_entry-ok front x back r) (
          Returns-mono (k_list_add-IsList x other new loc.entry_live) λ _ g (is, s). (
            Ring-frame u (h ∷ front ++ back) (x ∷ h' ∷ ys) s
                (λ a i. ground (
                  arith,
                  apart a,
                  loc.out,
                  count-append a front back,
                  count-append a front (x ∷ back),
                ))
                u-IsList,
            is,
          ))

-- The entries after a turn to the left.
abbrev pub rotate_left : List Addr → List Addr
rotate_left [] = []
rotate_left (x ∷ xs) = xs ++ x ∷ []

-- `k_list_rotate_left` moves the first entry behind the others, and does nothing to an empty list.
pub k_list_rotate_left-IsList :
    {m : Links} {h : Addr} (xs : List Addr)
    → IsList m h xs
    → Returns (λ _ g. IsList g h (rotate_left xs)) (k_list_rotate_left h m)
unfolding k_list_rotate_left get_next
k_list_rotate_left-IsList [] r = rw (k_list_empty-is_nil [] r) (returns r)
k_list_rotate_left-IsList {m} {h} (x ∷ xs) r =
    rw (k_list_empty-is_nil (x ∷ xs) r, r.live h (ground arith), r.cycle.0)
      (Returns-mono (k_list_move_tail-IsList [] x xs r) λ _ g (is, s). is)
