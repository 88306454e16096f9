-- ===== src/HList/Entries.antt =====
-- The loops over the entries that the nodes of a chain are members of (the macros `hlist_for_each_entry...` of
-- list.h).
use hashtable_linux_kernel.Common.{
  ℕ, zero, suc, ◌^◌, ◌≡◌, ◌<◌, ◌≤◌, refl, true, false, if◌then◌else◌, List, [], ◌∷◌, arith, ◌∈◌,
  ◌∉◌, Cmd, ok, out_of_fuel, pure, ◌>>=◌, foldl, length, is_zero,
}
use hashtable_linux_kernel.Links.{Addr, null}
use hashtable_linux_kernel.HLinks.{HLinks, get_first, get_hnext}
use hashtable_linux_kernel.HList.Chain.{HSeg, Chain}
use hashtable_linux_kernel.HList.Loops.{visit}
use hashtable_linux_kernel.KList.Entries.{
  member_of, members, k_container_of, k_container_of-member_of,
}

unfoldable pub hlist_entry_safe : (offset : ℕ) → (ptr : Addr) → Addr
unfolding k_container_of
hlist_entry_safe offset ptr = if is_zero ptr then null else k_container_of offset ptr

module _ {S B : Type 0} (first_of next_of : Addr → Cmd S Addr) (offset : ℕ)
    (body : (pos : Addr) → B → Cmd S B) where
  unfoldable pub hlist_for_each_entry_from : ℕ → (pos : Addr) → B → Cmd S B
  unfolding hlist_entry_safe
  hlist_for_each_entry_from zero pos acc = λ _. out_of_fuel
  hlist_for_each_entry_from (suc fuel) pos acc = if is_zero pos then pure acc else do
    acc' ← body pos acc
    n ← next_of (member_of offset pos)
    hlist_for_each_entry_from fuel (hlist_entry_safe offset n) acc'

  unfoldable pub hlist_for_each_entry : ℕ → (head : Addr) → B → Cmd S B
  unfolding hlist_for_each_entry_from
  hlist_for_each_entry fuel head acc = do
    first ← first_of head
    hlist_for_each_entry_from fuel (hlist_entry_safe offset first) acc

  unfoldable pub hlist_for_each_entry_continue : ℕ → (pos : Addr) → B → Cmd S B
  unfolding hlist_for_each_entry_from
  hlist_for_each_entry_continue fuel pos acc = do
    n ← next_of (member_of offset pos)
    hlist_for_each_entry_from fuel (hlist_entry_safe offset n) acc

  -- The loop of `hlist_for_each_entry_safe`; `n` is a node.
  unfoldable pub hlist_safe_entries_from : ℕ → (pos : Addr) → B → Cmd S B
  unfolding hlist_entry_safe
  hlist_safe_entries_from zero pos acc = λ _. out_of_fuel
  hlist_safe_entries_from (suc fuel) pos acc = if is_zero pos then pure acc else do
    n ← next_of (member_of offset pos)
    acc' ← body pos acc
    hlist_safe_entries_from fuel (hlist_entry_safe offset n) acc'

  unfoldable pub hlist_for_each_entry_safe : ℕ → (head : Addr) → B → Cmd S B
  unfolding hlist_safe_entries_from
  hlist_for_each_entry_safe fuel head acc = do
    first ← first_of head
    hlist_safe_entries_from fuel (hlist_entry_safe offset first) acc

-- A chain of entries: the nodes are their members, no entry is NULL, and every address has 64 bits.
pub record HasEntries (m : HLinks) (offset : ℕ) (h : Addr) (es : List Addr) : Type 0 where
  pub chain : Chain m h (members offset es)
  pub small : (e : Addr) → e ∈ es → e < 2 ^ 64
  pub proper : null ∉ es
  pub fits : offset ≤ 2 ^ 64

module _ {B : Type 0} (f : B → Addr → B) (m : HLinks) (offset : ℕ) (fits : offset ≤ 2 ^ 64) where
  entries-foldl :
      (fuel : ℕ) (p : Addr) (es : List Addr) (acc : B)
      → HSeg m p (members offset es)
      → ((a : Addr) → a ∈ members offset es → m.node_live a ≡ true)
      → null ∉ members offset es
      → ((e : Addr) → e ∈ es → e < 2 ^ 64)
      → null ∉ es
      → length es < fuel
      → hlist_for_each_entry_from get_first get_hnext offset
          (visit f)
          fuel
          (hlist_entry_safe offset (m.next p))
          acc
          m
        ≡ ok (foldl f acc es) m
  unfolding hlist_for_each_entry_from hlist_entry_safe get_hnext
  entries-foldl zero p es acc s live given small proper enough = absurd (omega arith)
  entries-foldl (suc fuel) p [] acc s live given small proper enough = rw s refl
  entries-foldl (suc fuel) p (e ∷ es) acc s live given small proper enough =
      let x = member_of offset e in
      let node : is_zero x ≡ false = ground arith in
      let entry : is_zero e ≡ false = ground arith in
      rw
        (
          s.0,
          node,
          k_container_of-member_of offset e (small e (ground arith)) fits,
          entry,
          live x (ground arith),
        )
        (entries-foldl fuel x es (f acc e) s.2 (λ a o. live a (omega arith)) (ground arith)
          (λ a o. small a (omega arith)) (ground arith) (omega arith))

-- With more fuel than entries `hlist_for_each_entry` visits each entry of a chain once, in order, ends,
-- and changes nothing.
pub hlist_for_each_entry-foldl :
    {B : Type 0} (f : B → Addr → B) (m : HLinks) (offset fuel : ℕ) (h : Addr) (es : List Addr)
    (acc : B)
    → HasEntries m offset h es
    → length es < fuel
    → hlist_for_each_entry get_first get_hnext offset (visit f) fuel h acc m ≡ ok (foldl f acc es) m
unfolding hlist_for_each_entry get_first
hlist_for_each_entry-foldl f m offset fuel h es acc is enough =
    let c = is.chain in
    rw c.head (
      entries-foldl f m offset is.fits fuel h es acc c.seg c.nodes (ground (arith, c.non_null))
        is.small is.proper enough)
