-- ===== src/KList/Entries.antt =====
-- The entries that list nodes are members of (container_of.h, and the macros of list.h that go from an
-- entry to another). The offset of the member is an argument; a pointer below it wraps around.
use hashtable_linux_kernel.Common.{
  ℕ, ◌+◌, ◌-◌, ◌%◌, ◌^◌, ◌≡◌, ◌<◌, ◌≤◌, refl, true, ◌==◌, if◌then◌else◌, List, [], ◌∷◌, ◌++◌, arith,
  ap, subst, Cmd, ok, pure, ◌>>=◌, count-append,
}
use hashtable_linux_kernel.Links.{Addr, null, Links, get_next, get_prev}
use hashtable_linux_kernel.KList.Ring.{IsList, Seg-split}
use hashtable_linux_kernel.KList.Insert.{initialised}

-- `&entry->member`.
abbrev pub member_of : (offset : ℕ) → Addr → Addr
member_of offset entry = (entry + offset) % 2 ^ 64

unfoldable pub k_container_of : (offset : ℕ) → (ptr : Addr) → Addr
k_container_of offset ptr = (ptr + (2 ^ 64 - offset)) % 2 ^ 64

-- `K_LIST_HEAD` at an address: an empty list.
abbrev pub k_list_head : Addr → Links → Links
k_list_head name m =
    let u = initialised m name in record u { live = λ a. if a == name then true else m.live a }

module _ {S : Type 0} (next_of prev_of : Addr → Cmd S Addr) (offset : ℕ) where
  unfoldable pub k_list_first_entry : (ptr : Addr) → Cmd S Addr
  unfolding k_container_of
  k_list_first_entry ptr = do n ← next_of ptr; pure (k_container_of offset n)

  unfoldable pub k_list_last_entry : (ptr : Addr) → Cmd S Addr
  unfolding k_container_of
  k_list_last_entry ptr = do p ← prev_of ptr; pure (k_container_of offset p)

  unfoldable pub k_list_next_entry : (pos : Addr) → Cmd S Addr
  unfolding k_container_of
  k_list_next_entry pos = do n ← next_of (member_of offset pos); pure (k_container_of offset n)

  unfoldable pub k_list_prev_entry : (pos : Addr) → Cmd S Addr
  unfolding k_container_of
  k_list_prev_entry pos = do p ← prev_of (member_of offset pos); pure (k_container_of offset p)

  -- The new value of `n`.
  unfoldable pub k_list_safe_reset_next : (pos : Addr) → Cmd S Addr
  unfolding k_list_next_entry
  k_list_safe_reset_next pos = k_list_next_entry pos

module _ (offset : ℕ) where
  unfoldable pub k_list_prepare_entry : (pos head : Addr) → Addr
  unfolding k_container_of
  k_list_prepare_entry pos head = if pos == null then k_container_of offset head else pos

  -- An entry is found from its member.
  pub k_container_of-member_of :
      (entry : Addr)
      → entry < 2 ^ 64
      → offset ≤ 2 ^ 64
      → k_container_of offset (member_of offset entry) ≡ entry
  unfolding k_container_of
  k_container_of-member_of entry small fits = omega arith

  -- The members of entries.
  abbrev pub members : List Addr → List Addr
  members [] = []
  members (e ∷ es) = member_of offset e ∷ members es

  pub members-append : (xs ys : List Addr) → members (xs ++ ys) ≡ members xs ++ members ys
  members-append [] ys = refl
  members-append (x ∷ xs) ys = ap (λ t. member_of offset x ∷ t) (members-append xs ys)

  -- In a list of entries, `k_list_next_entry` goes from an entry to the one behind it, and
  -- `k_list_prev_entry` back.
  pub k_list_next_entry-cons :
      (m : Links) (h : Addr) (front : List Addr) (e f : Addr) (back : List Addr)
      → IsList m h (members (front ++ e ∷ f ∷ back))
      → e < 2 ^ 64
      → f < 2 ^ 64
      → offset ≤ 2 ^ 64
      → (k_list_next_entry get_next get_prev offset e m ≡ ok f m)
        × (k_list_prev_entry get_next get_prev offset f m ≡ ok e m)
  unfolding k_list_next_entry k_list_prev_entry get_next get_prev
  k_list_next_entry-cons m h front e f back is small small' fits =
      let x = member_of offset e in
      let y = member_of offset f in
      let list : IsList m h (members front ++ x ∷ y ∷ members back) =
        subst (IsList m h) (members-append front (e ∷ f ∷ back)) is in
      let (_, rest) = Seg-split m h (members front) x (y ∷ members back) h list.cycle in
      let live_x : m.live x ≡ true =
        list.live x (ground (arith, count-append x (members front) (x ∷ y ∷ members back))) in
      let live_y : m.live y ≡ true =
        list.live y (ground (arith, count-append y (members front) (x ∷ y ∷ members back))) in
      (
        rw (live_x, rest.0, k_container_of-member_of f small' fits) refl,
        rw (live_y, rest.1, k_container_of-member_of e small fits) refl,
      )
