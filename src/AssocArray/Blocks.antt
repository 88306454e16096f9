-- ===== src/AssocArray/Blocks.antt =====
-- The entries that own two blocks each, their key and their data, and `free_assoc_array_entry` over all
-- of them.
use hashtable_linux_kernel.Common.{
  ◌≡◌, refl, subst, true, false, ◌==◌, List, [], ◌∷◌, arith, ◌∈◌, ◌∉◌, Distinct, returns,
}
use hashtable_linux_kernel.Links.{Addr, null, update}
use hashtable_linux_kernel.Hashtable.{Tables}
use hashtable_linux_kernel.World.{World, get_key, get_data, free_block, free_object, mark_entry}
use hashtable_linux_kernel.AssocArray.{free_assoc_array_entry}
use hashtable_linux_kernel.AssocArray.Release.{FreesEntries}

-- The blocks of the entries.
abbrev pub blocks_of : World → List Addr → List Addr
blocks_of w [] = []
blocks_of w (e ∷ es) = w.data_of e ∷ w.key e ∷ blocks_of w es

-- No entry is NULL; the blocks are live, distinct and not NULL.
pub record OwnsBlocks (es : List Addr) (w : World) : Type 0 where
  pub proper : null ∉ es
  pub given : null ∉ blocks_of w es
  pub live : (p : Addr) → p ∈ blocks_of w es → w.block_live p ≡ true
  pub distinct : Distinct (blocks_of w es)

-- The memory without an entry and its blocks.
abbrev without_entry : World → Addr → World
without_entry w e =
    mark_entry e false
      (record w { block_live = update (update w.block_live (w.data_of e) false) (w.key e) false })

blocks_of-same :
    (w : World) (e : Addr) (es : List Addr) → blocks_of (without_entry w e) es ≡ blocks_of w es
blocks_of-same w e [] = refl
blocks_of-same w e (a ∷ es) = rw (blocks_of-same w e es) refl

blocks_of-retabled :
    (w : World) (t : Tables) (es : List Addr)
    → blocks_of (record w { tables = t }) es ≡ blocks_of w es
blocks_of-retabled w t [] = refl
blocks_of-retabled w t (a ∷ es) = rw (blocks_of-retabled w t es) refl

-- `free_assoc_array_entry` frees entries one after the other, when their keys and data are distinct
-- live blocks.
pub free_assoc_array_entry-FreesEntries : FreesEntries free_assoc_array_entry OwnsBlocks
unfolding free_assoc_array_entry get_key get_data free_block free_object
free_assoc_array_entry-FreesEntries = record {
  frees = λ e es w live owns.
      let some_entry : (e == 0) ≡ false = ground (arith, owns.proper) in
      let some_data : (w.data_of e == 0) ≡ false = ground (arith, owns.given) in
      let some_key : (w.key e == 0) ≡ false = ground (arith, owns.given) in
      let off : (w.key e == w.data_of e) ≡ false = ground (arith, owns.distinct (w.key e)) in
      let data_live = owns.live (w.data_of e) (ground arith) in
      let key_live = owns.live (w.key e) (ground arith) in
      let same = blocks_of-same w e es in
      rw (live, some_data, data_live, live, some_key, off, key_live, some_entry, live)
        (returns (
          record {
            tables = record {
              node_live = λ a. refl;
              head_live = λ a. refl;
              next = λ a ne. refl;
              pprev = λ a ne. refl;
              rest = refl;
            };
            links = refl;
            keys = λ a o ne. refl;
            rest = refl;
          },
          record {
            proper = ground (arith, owns.proper);
            given = rw same (ground (arith, owns.given));
            live = λ p o.
                let here : p ∈ blocks_of w es = subst (λ t. p ∈ t) same o in
                ground (arith, here, owns.distinct p, owns.live p);
            distinct = rw same (λ p. omega (arith, owns.distinct p));
          },
        ));
  retabled = λ es w t owns. record {
    proper = owns.proper;
    given = rw (blocks_of-retabled w t es) owns.given;
    live = rw (blocks_of-retabled w t es) owns.live;
    distinct = rw (blocks_of-retabled w t es) owns.distinct;
  };
}
