-- ===== src/World.antt =====
-- The memory of the associative array (assoc_array.h). An `assoc_array_entry_t` has its `hnode` at
-- offset 0, so it has the address of that node, and its `lnode` at offset 16; an `assoc_array_t` has
-- its `list` at offset 8. A function pointer is an address. What a pointer to plain bytes leads to
-- (keys, data) is a block: a list of bytes, live until it is freed.
use hashtable_linux_kernel.Common.{
  ℕ, ◌+◌, Bool, true, false, ◌==◌, if◌then◌else◌, Run, Cmd, ok, fault, out_of_fuel, List,
}
use hashtable_linux_kernel.Links.{Addr, null, Links, update}
use hashtable_linux_kernel.Hashtable.{Tables}

pub record World : Type 0 where
  pub tables : Tables
  pub links : Links
  -- The members of an entry.
  pub key : Addr → Addr
  pub key_size : Addr → ℕ
  pub data_of : Addr → Addr
  -- The members of an array.
  pub arr_live : Addr → Bool
  pub ht : Addr → Addr
  pub size : Addr → ℕ
  pub free_entry : Addr → Addr
  pub fill_entry : Addr → Addr
  -- The blocks.
  pub block_live : Addr → Bool
  pub bytes : Addr → List ℕ
  -- The members of a `mac_node_t` (main.c) beside its address `mac`, which is a block of its own.
  pub ip : Addr → ℕ
  pub hostname : Addr → Addr
  -- The function that `array_create` calls for its table.
  pub custom_ht_create : Addr

abbrev pub lnode : Addr → Addr
lnode entry = entry + 16

abbrev pub list_of : Addr → Addr
list_of arr = arr + 8

abbrev pub retable : {A : Type 0} → World → Run Tables A → Run World A
retable w (ok a t) = ok a (record w { tables = t })
retable w fault = fault
retable w out_of_fuel = out_of_fuel

abbrev pub with_tables : {A : Type 0} → Cmd Tables A → Cmd World A
with_tables c w = retable w (c w.tables)

abbrev pub relist : {A : Type 0} → World → Run Links A → Run World A
relist w (ok a l) = ok a (record w { links = l })
relist w fault = fault
relist w out_of_fuel = out_of_fuel

abbrev pub with_list : {A : Type 0} → Cmd Links A → Cmd World A
with_list c w = relist w (c w.links)

-- The memory where the entry at `e` is live, or is not.
abbrev pub mark_entry : Addr → Bool → World → World
mark_entry e b w = record w {
  tables = record w.tables {
    chains = record w.tables.chains { node_live = update w.tables.chains.node_live e b };
  };
  links = record w.links { live = update w.links.live (lnode e) b };
}

abbrev pub mark_array : Addr → Bool → World → World
mark_array a b w = record w {
  arr_live = update w.arr_live a b;
  links = record w.links { live = update w.links.live (list_of a) b };
}

abbrev pub is_entry : Addr → World → Bool
is_entry e w = w.tables.chains.node_live e

-- `malloc` returns `fresh`: NULL, or an object that is now live.
unfoldable pub malloc_entry : Addr → Cmd World Addr
malloc_entry fresh w = if fresh == null then ok null w else ok fresh (mark_entry fresh true w)

unfoldable pub malloc_array : Addr → Cmd World Addr
malloc_array fresh w = if fresh == null then ok null w else ok fresh (mark_array fresh true w)

unfoldable pub malloc_block : Addr → Cmd World Addr
malloc_block fresh w =
    if fresh == null
    then ok null w
    else ok fresh (record w { block_live = update w.block_live fresh true })

unfoldable pub free_object : Addr → Cmd World (Unit {0})
free_object e w =
    if e == null then ok tt w else if is_entry e w then ok tt (mark_entry e false w) else fault

unfoldable pub free_array : Addr → Cmd World (Unit {0})
free_array a w =
    if a == null then ok tt w else if w.arr_live a then ok tt (mark_array a false w) else fault

unfoldable pub free_block : Addr → Cmd World (Unit {0})
free_block p w =
    if p == null
    then ok tt w
    else if w.block_live p
    then ok tt (record w { block_live = update w.block_live p false })
    else fault

-- The members, read and written.
unfoldable pub get_key : Addr → Cmd World Addr
get_key e w = if is_entry e w then ok (w.key e) w else fault

unfoldable pub get_data : Addr → Cmd World Addr
get_data e w = if is_entry e w then ok (w.data_of e) w else fault

unfoldable pub set_key : Addr → Addr → Cmd World (Unit {0})
set_key e p w = if is_entry e w then ok tt (record w { key = update w.key e p }) else fault

unfoldable pub set_key_size : Addr → ℕ → Cmd World (Unit {0})
set_key_size e n w =
    if is_entry e w then ok tt (record w { key_size = update w.key_size e n }) else fault

unfoldable pub set_data : Addr → Addr → Cmd World (Unit {0})
set_data e p w = if is_entry e w then ok tt (record w { data_of = update w.data_of e p }) else fault

unfoldable pub get_ht : Addr → Cmd World Addr
get_ht a w = if w.arr_live a then ok (w.ht a) w else fault

unfoldable pub set_ht : Addr → Addr → Cmd World (Unit {0})
set_ht a h w = if w.arr_live a then ok tt (record w { ht = update w.ht a h }) else fault

unfoldable pub get_array_size : Addr → Cmd World ℕ
get_array_size a w = if w.arr_live a then ok (w.size a) w else fault

unfoldable pub set_array_size : Addr → ℕ → Cmd World (Unit {0})
set_array_size a n w = if w.arr_live a then ok tt (record w { size = update w.size a n }) else fault

unfoldable pub get_free_entry : Addr → Cmd World Addr
get_free_entry a w = if w.arr_live a then ok (w.free_entry a) w else fault

unfoldable pub set_free_entry : Addr → Addr → Cmd World (Unit {0})
set_free_entry a f w =
    if w.arr_live a then ok tt (record w { free_entry = update w.free_entry a f }) else fault

unfoldable pub get_fill_entry : Addr → Cmd World Addr
get_fill_entry a w = if w.arr_live a then ok (w.fill_entry a) w else fault

unfoldable pub set_fill_entry : Addr → Addr → Cmd World (Unit {0})
set_fill_entry a f w =
    if w.arr_live a then ok tt (record w { fill_entry = update w.fill_entry a f }) else fault
