-- ===== src/KList/Replace.antt =====
-- Putting one node in the place of another (`k_list_replace`, `k_list_replace_init`).
use hashtable_linux_kernel.Common.{◌≡◌, true, List, [], ◌∷◌, arith, ◌∉◌, ok, Returns, returns}
use hashtable_linux_kernel.Links.{Addr, Links, update, get_next, get_prev, set_next, set_prev}
use hashtable_linux_kernel.KList.Ring.{
  Cycle, Ring, IsList, Ring-frame, next-mem, prev-mem, Seg-prev, Seg-redirect,
}
use hashtable_linux_kernel.KList.{k_list_replace, k_list_replace_init}
use hashtable_linux_kernel.KList.Insert.{
  k_init_list_head-ok, initialised-IsList, initialised-SameOutside,
}

-- The memory after `k_list_replace`; the second read of `old->prev` sees the first write.
abbrev replaced : Links → (old new : Addr) → Links
replaced m old new =
    let q = m.next old in
    let p = update m.prev q new old in
    record m {
      next = update (update m.next new q) p new;
      prev = update (update m.prev q new) new p;
    }

module _ (m : Links) (old new : Addr) (live : m.live new ≡ true) where
  replaced-Cycle :
      (zs : List Addr) → new ∉ old ∷ zs → Ring m (old ∷ zs) → Cycle (replaced m old new) (new ∷ zs)
  replaced-Cycle [] out r = (ground (arith, r.cycle), ground (arith, r.cycle))
  replaced-Cycle (z ∷ zs) out r =
      let member = Seg-prev m old z zs r.cycle.2 in
      (
        ground (arith, r.cycle, member, r.distinct old),
        ground (arith, r.cycle),
        Seg-redirect m (replaced m old new) z zs old new (λ a. ground (arith, r.distinct a))
            (λ a i o. ground (arith, r.cycle, r.distinct old))
            (λ a i. ground (arith, r.cycle, r.distinct a)) (ground (arith, r.cycle, r.distinct old))
            (ground (arith, r.cycle, r.distinct old)) r.cycle.2,
      )

  module _ {zs : List Addr} (out : new ∉ old ∷ zs) (r : Ring m (old ∷ zs)) where
    replaced-Ring : Ring (replaced m old new) (new ∷ zs)
    replaced-Ring = record {
      cycle = replaced-Cycle zs out r;
      distinct = λ a. ground (arith, r.distinct a);
      live = λ a i. ground (arith, r.live a);
    }

    k_list_replace-ok : k_list_replace old new m ≡ ok tt (replaced m old new)
    unfolding k_list_replace get_next get_prev set_next set_prev
    k_list_replace-ok = ground (
      arith,
      r.live old (ground arith),
      r.live (m.next old) (next-mem m old zs r),
      r.live (m.prev old) (prev-mem m old zs r),
    )

    -- `k_list_replace` puts a new node at the place of an old one in its ring, also where the old
    -- one is alone, and does not fault.
    pub k_list_replace-Ring : Returns (λ _ g. Ring g (new ∷ zs)) (k_list_replace old new m)
    k_list_replace-Ring = rw k_list_replace-ok (returns replaced-Ring)

    -- `k_list_replace_init` puts a new node at the place of an old one in its ring, and leaves the
    -- old one as the head of an empty list.
    pub k_list_replace_init-Ring :
        Returns (λ _ g. Ring g (new ∷ zs) × IsList g old []) (k_list_replace_init old new m)
    unfolding k_list_replace_init
    k_list_replace_init-Ring =
        let g = replaced m old new in
        let live' : m.live old ≡ true = r.live old (ground arith) in
        rw (k_list_replace-ok, k_init_list_head-ok g old live')
          (returns (
            Ring-frame g (new ∷ zs) (old ∷ []) (initialised-SameOutside g old live')
                (λ a i. ground (arith, r.distinct old)) replaced-Ring,
            initialised-IsList g old live',
          ))
