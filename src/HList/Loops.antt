-- ===== src/HList/Loops.antt =====
-- The loops over a chain with bodies that only compute: which nodes they visit, and that they end.
use hashtable_linux_kernel.Common.{
  ℕ, zero, suc, ◌≡◌, ◌<◌, true, false, List, [], ◌∷◌, arith, ◌∈◌, ◌∉◌, Cmd, ok, pure, foldl, length,
  is_zero,
}
use hashtable_linux_kernel.Links.{Addr, null}
use hashtable_linux_kernel.HLinks.{HLinks, get_hnext}
use hashtable_linux_kernel.HList.{hlist_for_each_from}
use hashtable_linux_kernel.HList.Chain.{HSeg, Chain}

-- A body that computes `f` and touches no chain.
abbrev pub visit : {B : Type 0} → (B → Addr → B) → Addr → B → Cmd HLinks B
visit f pos acc = pure (f acc pos)

module _ {B : Type 0} (f : B → Addr → B) (m : HLinks) where
  from-foldl :
      (fuel : ℕ) (p : Addr) (xs : List Addr) (acc : B)
      → HSeg m p xs
      → ((a : Addr) → a ∈ xs → m.node_live a ≡ true)
      → null ∉ xs
      → length xs < fuel
      → hlist_for_each_from get_hnext (visit f) fuel (m.next p) acc m ≡ ok (foldl f acc xs) m
  unfolding hlist_for_each_from get_hnext
  from-foldl zero p xs acc s live proper enough = absurd (omega arith)
  from-foldl (suc fuel) p [] acc s live proper enough = ground arith
  from-foldl (suc fuel) p (x ∷ xs) acc s live proper enough =
      let more : is_zero x ≡ false = ground arith in
      rw (s.0, more, live x (ground arith))
        (from-foldl fuel x xs (f acc x) s.2 (λ a i. live a (omega arith)) (ground arith)
          (omega arith))

  -- With more fuel than nodes the loop from the first node visits each node once, in order, ends, and
  -- changes nothing.
  pub hlist_for_each-foldl :
      (fuel : ℕ) (h : Addr) (xs : List Addr) (acc : B)
      → Chain m h xs
      → length xs < fuel
      → hlist_for_each_from get_hnext (visit f) fuel (m.next h) acc m ≡ ok (foldl f acc xs) m
  hlist_for_each-foldl fuel h xs acc c enough =
      from-foldl fuel h xs acc c.seg c.nodes (ground (arith, c.non_null)) enough
