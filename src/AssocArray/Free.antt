-- ===== src/AssocArray/Free.antt =====
-- `free_assoc_array_entry`, the function that frees an entry when the caller gives none.
use hashtable_linux_kernel.Common.{◌≡◌, ◌≢◌, refl, true, false, ◌==◌, arith, returns}
use hashtable_linux_kernel.Links.{Addr, null}
use hashtable_linux_kernel.World.{World, get_key, get_data, free_block, free_object}
use hashtable_linux_kernel.AssocArray.{free_assoc_array_entry}
use hashtable_linux_kernel.AssocArray.Delete.{FreesEntry}

-- `free_assoc_array_entry` frees an entry whose key and data are two live blocks.
pub free_assoc_array_entry-FreesEntry :
    (w : World) (e : Addr)
    → e ≢ null
    → w.data_of e ≢ null
    → w.block_live (w.data_of e) ≡ true
    → w.key e ≢ null
    → w.block_live (w.key e) ≡ true
    → w.key e ≢ w.data_of e
    → FreesEntry w free_assoc_array_entry e
unfolding free_assoc_array_entry get_key get_data free_block free_object
free_assoc_array_entry-FreesEntry w e proper data_given data_live key_given key_live apart m l live
      live' =
    let some_entry : (e == 0) ≡ false = ground arith in
    let some_data : (w.data_of e == 0) ≡ false = ground arith in
    let some_key : (w.key e == 0) ≡ false = ground arith in
    let off : (w.key e == w.data_of e) ≡ false = ground arith in
    rw (live, some_data, data_live, live, some_key, off, key_live, some_entry, live)
      (returns (record {
        tables = record {
          node_live = λ a. refl;
          head_live = λ a. refl;
          next = λ a ne. refl;
          pprev = λ a ne. refl;
          rest = refl;
        };
        links = refl;
        keys = λ a o ne. refl;
        rest = refl;
      }))
