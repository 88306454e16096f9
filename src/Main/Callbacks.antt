-- ===== src/Main/Callbacks.antt =====
-- The functions that the example program gives to its array: they are a pair that fills and frees
-- entries as the array wants it.
use hashtable_linux_kernel.Common.{
  ℕ, ◌%◌, ◌≡◌, ◌≢◌, refl, true, false, ◌==◌, List, arith, Returns, returns, Returns-mono, length,
}
use hashtable_linux_kernel.Links.{Addr, null}
use hashtable_linux_kernel.World.{
  World, lnode, get_data, free_block, free_object, set_key, set_key_size, set_data,
}
use hashtable_linux_kernel.AssocArray.Add.{Filled}
use hashtable_linux_kernel.AssocArray.Delete.{FreesEntry, FreedEntry, unlinked_world}
use hashtable_linux_kernel.Main.Nodes.{mac_of, get_hostname, free_node, free_entry, fill_entry}

-- A node and its name are freed, and no other block.
pub record FreedNode (node name : Addr) (w g : World) : Type 0 where
  pub node_gone : g.block_live node ≡ false
  pub mac_gone : g.block_live (mac_of node) ≡ false
  pub name_gone : g.block_live name ≡ false
  pub others : (a : Addr) → a ≢ node → a ≢ mac_of node → a ≢ name → g.block_live a ≡ w.block_live a

-- The example's `free_entry` of a live entry whose node and the node's name are two live objects does not
-- fault: it frees the node, its name and the entry, and no other block and no other entry, and no key of
-- another entry changes.
pub free_entry-Freed :
    (w : World) (e : Addr)
    → e ≢ null
    → w.tables.chains.node_live e ≡ true
    → w.links.live (lnode e) ≡ true
    → w.data_of e ≢ null
    → w.block_live (w.data_of e) ≡ true
    → w.block_live (w.hostname (w.data_of e)) ≡ true
    → w.hostname (w.data_of e) ≢ null
    → w.hostname (w.data_of e) ≢ w.data_of e
    → Returns
        (λ _ g. FreedEntry e w g × FreedNode (w.data_of e) (w.hostname (w.data_of e)) w g)
        (free_entry e w)
unfolding free_entry get_data get_hostname free_block free_node free_object
free_entry-Freed w e proper entry_live list_live given live name_live name_given apart =
    let some_entry : (e == 0) ≡ false = ground arith in
    let some_node : (w.data_of e == 0) ≡ false = ground arith in
    let some_name : (w.hostname (w.data_of e) == 0) ≡ false = ground arith in
    let off : (w.data_of e == w.hostname (w.data_of e)) ≡ false = ground (arith, apart) in
    rw
      (
        entry_live, live, some_name, some_name, name_live, some_node, off, live, some_entry,
        entry_live,
      )
      (returns (
        record {
          tables = record {
            node_live = λ a. refl;
            head_live = λ a. refl;
            next = λ a ne. refl;
            pprev = λ a ne. refl;
            rest = refl;
          };
          links = refl;
          keys = λ a o ne. refl;
          rest = refl;
        },
        record {
          node_gone = ground arith;
          mac_gone = ground arith;
          name_gone = ground arith;
          others = λ a ne ne' ne2. ground arith;
        },
      ))

-- It is a function that frees entries, as the array asks.
pub free_entry-FreesEntry :
    (w : World) (e : Addr)
    → e ≢ null
    → w.data_of e ≢ null
    → w.block_live (w.data_of e) ≡ true
    → w.block_live (w.hostname (w.data_of e)) ≡ true
    → w.hostname (w.data_of e) ≢ null
    → w.hostname (w.data_of e) ≢ w.data_of e
    → FreesEntry w free_entry e
free_entry-FreesEntry w e proper given live name_live name_given apart m l entry_live list_live =
    Returns-mono
      (free_entry-Freed (unlinked_world w m l) e proper entry_live list_live given live name_live
        name_given apart)
      (λ _ g p. p.0)

-- The example's `fill_entry` does what the array asks of its function: with the node's own bytes as the
-- key it returns 0, sets the entry's key, key size and data, and leaves the keys of other entries.
pub fill_entry-Filled :
    (w : World) (e data_ : Addr) (key : List ℕ)
    → w.tables.chains.node_live e ≡ true
    → w.bytes (mac_of data_) ≡ key
    → Returns
        (λ ret g.
          (ret ≡ 0) × Filled e key w g × (g.data_of e ≡ data_) × (g.key_size e ≡ length key % 256))
        (fill_entry e data_ (mac_of data_) (length key) w)
unfolding fill_entry set_key set_key_size set_data
fill_entry-Filled w e data_ key live holds =
    let same : (e == e) ≡ true = ground arith in
    rw (live, live, live)
      (returns (
        refl,
        record {
          own = rw same holds;
          others = λ a l ne. (let off : (a == e) ≡ false = ground arith in rw off refl);
          rest = refl;
        },
        rw same refl,
        rw same refl,
      ))
