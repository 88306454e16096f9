-- ===== src/AssocArray/Fill.antt =====
-- `fill_assoc_array_entry`, the function that fills an entry when the caller gives none.
use hashtable_linux_kernel.Common.{
  ℕ, ◌≡◌, ◌≢◌, refl, true, false, ◌==◌, List, arith, Returns, returns,
}
use hashtable_linux_kernel.Links.{Addr, null}
use hashtable_linux_kernel.World.{World, malloc_block, set_key, get_key, set_key_size, set_data}
use hashtable_linux_kernel.AssocArray.{fill_assoc_array_entry, copy_bytes}
use hashtable_linux_kernel.AssocArray.Add.{Filled}

module _ (w : World) (p e data_ : Addr) (key : List ℕ)
    (live : w.tables.chains.node_live e ≡ true) where
  same : (e == e) ≡ true
  same = ground arith

  same_block : (p == p) ≡ true
  same_block = ground arith

  -- With a block for the key that no other entry uses, `fill_assoc_array_entry` returns 0 and fills the
  -- entry.
  pub fill_assoc_array_entry-Filled :
      p ≢ null
      → ((a : Addr) → w.tables.chains.node_live a ≡ true → a ≢ e → w.key a ≢ p)
      → Returns (λ ret g. (ret ≡ 0) × Filled e key w g) (fill_assoc_array_entry p e data_ key w)
  unfolding fill_assoc_array_entry malloc_block set_key get_key copy_bytes set_key_size set_data
  fill_assoc_array_entry-Filled given unused =
      let some_block : (p == 0) ≡ false = ground arith in
      rw (some_block, live, live, same, some_block, same_block, live, live)
        (returns (
          refl,
          record {
            own = rw (same, same_block) refl;
            others = λ a l ne.
                let off : (a == e) ≡ false = ground arith in
                let apart : (w.key a == p) ≡ false = ground (arith, unused a l ne) in
                rw (off, apart) refl;
            rest = refl;
          },
        ))
