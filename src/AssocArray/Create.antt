-- ===== src/AssocArray/Create.antt =====
-- A new array (`array_create`).
use hashtable_linux_kernel.Common.{
  ℕ, ◌≡◌, ◌≢◌, ◌<◌, refl, true, false, ◌==◌, if◌then◌else◌, [], arith, Cmd, Returns, returns,
  Returns-inv,
}
use hashtable_linux_kernel.Links.{Addr, null}
use hashtable_linux_kernel.KList.Insert.{k_init_list_head-ok, initialised-IsList}
use hashtable_linux_kernel.Hashtable.{Tables}
use hashtable_linux_kernel.Hashtable.Create.{no_nodes}
use hashtable_linux_kernel.Hashtable.Buckets.{IsTable}
use hashtable_linux_kernel.World.{
  World, list_of, mark_array, malloc_array, free_array, set_ht, get_ht, set_array_size,
  set_free_entry, set_fill_entry,
}
use hashtable_linux_kernel.AssocArray.{array_create}
use hashtable_linux_kernel.AssocArray.Valid.{IsAssoc}

-- What `array_create` wants of the function that makes a table: an empty live one.
pub record NewTable (n : ℕ) (ht : Addr) (g : Tables) : Type 0 where
  pub given : ht ≢ null
  pub live : g.ht_live ht ≡ true
  pub bits : g.bits ht ≡ n
  pub no_object : g.chains.node_live null ≡ false
  pub table : IsTable g.chains (g.table ht) n no_nodes

module _ (w : World) (call_ht_create : Addr → (bits : ℕ) → Cmd Tables Addr) (fresh : Addr)
    (given : fresh ≢ null) (default_free default_fill : Addr) (bits : ℕ)
    (free_entry fill_entry : Addr) where
  -- `array_create`, when its object and its table can be made and the table has fewer than 31 bits,
  -- returns an array without entries, which has the functions that are given, or the default ones for
  -- NULL.
  pub array_create-IsAssoc :
      bits < 31
      → Returns (NewTable bits) (call_ht_create w.custom_ht_create bits w.tables)
      → Returns
          (λ arr g.
            (arr ≡ fresh)
            × IsAssoc g fresh []
            × (g.tables.chains.node_live null ≡ false)
            × (g.free_entry fresh ≡ (if free_entry == null then default_free else free_entry))
            × (g.fill_entry fresh ≡ (if fill_entry == null then default_fill else fill_entry)))
          (array_create call_ht_create fresh default_free default_fill bits free_entry fill_entry w)
  unfolding array_create malloc_array set_ht get_ht set_array_size set_free_entry set_fill_entry
  array_create-IsAssoc few makes =
      let (ht, t, run, new) = Returns-inv makes in
      let some : (fresh == 0) ≡ false = ground (arith, given) in
      let same : (fresh == fresh) ≡ true = ground arith in
      let some_ht : (ht == 0) ≡ false = ground (arith, new.given) in
      let links = (mark_array fresh true w).links in
      let here : links.live (list_of fresh) ≡ true = ground arith in
      let init = k_init_list_head-ok links (list_of fresh) here in
      rw (some, some, run, same, same, some_ht, init, same, same, same)
        (returns (
          refl,
          record {
            array = record {
              given = given;
              arr_live = rw same refl;
              ht_live = rw same new.live;
              few = rw (same, new.bits) few;
              table = rw (same, new.bits) new.table;
            };
            list = initialised-IsList links (list_of fresh) here;
            size = rw same refl;
          },
          new.no_object,
          rw same refl,
          rw same refl,
        ))

  -- When no table can be made, `array_create` frees its object again and returns NULL.
  pub array_create-null :
      w.arr_live fresh ≡ false
      → Returns (λ ht g. ht ≡ null) (call_ht_create w.custom_ht_create bits w.tables)
      → Returns
          (λ arr g. (arr ≡ null) × (g.arr_live fresh ≡ false))
          (array_create call_ht_create fresh default_free default_fill bits free_entry fill_entry w)
  unfolding array_create malloc_array set_ht get_ht free_array
  array_create-null dead fails =
      let (ht, t, run, new) = Returns-inv fails in
      let some : (fresh == 0) ≡ false = ground (arith, given) in
      let same : (fresh == fresh) ≡ true = ground arith in
      rw (some, some, run, same, same, new) (rw (some, same) (returns (refl, rw same refl)))
