-- ===== src/Hashtable/Free.antt =====
-- `HT_FREE`: the nodes, the array and the table itself are freed.
use hashtable_linux_kernel.Common.{
  ℕ, ◌^◌, ◌≡◌, ◌≢◌, ◌<◌, refl, sym, subst, not, ◌&&◌, true, false, List, [], ◌>>=◌, ◌>>◌, arith,
  ◌∈◌, ◌∉◌, Cmd, Returns, returns, Returns-inv, ◌==◌, length,
}
use native.Mathlib.Nat.{one-le-pow}
use hashtable_linux_kernel.Links.{Addr, null, update}
use hashtable_linux_kernel.Hashtable.{
  bucket_at, in_block, Tables, ht_free, get_table, get_bits, free_heads, free_ht,
}
use hashtable_linux_kernel.Hashtable.Buckets.{IsTable}
use hashtable_linux_kernel.Hashtable.Create.{bucket_in_block}
use hashtable_linux_kernel.Hashtable.Clear.{Gone, clear_hashtable_bits-Gone}
use hashtable_linux_kernel.Hashtable.Callback.{TablesIn, FreesAll, reads}
use hashtable_linux_kernel.Hashtable.Rounds.{nodes_of}

-- The table is gone: its object, its array with every bucket, and its nodes; the other nodes are as
-- before.
pub record Freed (w : Tables) (ht : Addr) (buckets : ℕ → List Addr) (g : Tables) : Type 0 where
  pub ht_live : g.ht_live ht ≡ false
  pub others : (a : Addr) → a ≢ ht → g.ht_live a ≡ w.ht_live a
  pub block : g.block (w.table ht) ≡ 0
  pub heads : (j : ℕ) → j < 2 ^ w.bits ht → g.chains.head_live (bucket_at (w.table ht) j) ≡ false
  pub nodes : (a : Addr) → a ∈ nodes_of buckets (2 ^ w.bits ht) 0 → g.chains.node_live a ≡ false
  pub kept :
      (a : Addr)
      → a ∉ nodes_of buckets (2 ^ w.bits ht) 0
      → g.chains.node_live a ≡ w.chains.node_live a

-- The tables when the array is freed.
abbrev without_heads : Tables → Addr → Tables
without_heads u table = record u {
  chains = record u.chains {
    head_live = λ a. not (in_block table (u.block table) a) && u.chains.head_live a;
  };
  block = update u.block table 0;
}

module _ (S : Type 0) (on_tables : (A : Type 0) → Cmd Tables A → Cmd S A)
    (part : TablesIn S on_tables) (free_func : Addr → Cmd S (Unit {0}))
    (Ready : List Addr → S → Type 0) (all : FreesAll S on_tables part free_func Ready) where
  -- What `HT_FREE` does at the end: the array is freed, and the object of the table.
  ended :
      (fuel : ℕ) (w g : S) (ht : Addr) (buckets : ℕ → List Addr)
      → (part.tables w).ht_live ht ≡ true
      → ht ≢ null
      → (part.tables w).table ht ≢ null
      → (part.tables w).block ((part.tables w).table ht) ≡ 2 ^ (part.tables w).bits ht
      → Gone (nodes_of buckets (2 ^ (part.tables w).bits ht) 0) (part.tables w) (part.tables g)
      → Ready [] g
      → Returns
          (λ _ h. Freed (part.tables w) ht buckets (part.tables h) × Ready [] h)
          ((on_tables Addr (get_table ht) >>= λ table.
              on_tables _ (free_heads table) >> on_tables _ (free_ht ht))
            g)
  unfolding get_table free_heads free_ht
  ended fuel w g ht buckets live proper proper' given gone ready =
      let t = part.tables w in
      let u = part.tables g in
      let table = t.table ht in
      let live' : u.ht_live ht ≡ true = rw gone.rest live in
      let table' : u.table ht ≡ table = rw gone.rest refl in
      let block' : u.block table ≡ 2 ^ t.bits ht = rw gone.rest given in
      let some : (table == 0) ≡ false = ground arith in
      let some' : (ht == 0) ≡ false = ground arith in
      let filled : (u.block table == 0) ≡ false = ground (arith, one-le-pow (t.bits ht) 2) in
      let rest : (a : Addr) → u.ht_live a ≡ t.ht_live a = λ a. rw gone.rest refl in
      let u1 = without_heads u table in
      let u2 : Tables = record u1 { ht_live = update u1.ht_live ht false } in
      let g1 = part.put u1 g in
      let back = part.tables-put u1 g in
      let read = reads S on_tables part Addr (get_table ht) g table (rw (live', table') refl) in
      let heads = part.runs (Unit {0}) (free_heads table) g tt u1 (rw (some, filled) refl) in
      let object = part.runs (Unit {0}) (free_ht ht) g1 tt u2 (rw (back, some', live') refl) in
      rw (read, heads, object)
        (returns (
          subst (Freed t ht buckets) (sym (part.tables-put u2 g1)) (record {
            ht_live = ground arith;
            others = λ a ne. ground (arith, rest a);
            block = ground arith;
            heads = λ j lt. ground (arith, bucket_in_block table (2 ^ t.bits ht) j lt, block');
            nodes = gone.gone;
            kept = gone.kept;
          }),
          all.after g1 u2 (all.after g u1 ready),
        ))

  -- `HT_FREE` of a live table in the caller's state, whose array `malloc` gave, with a function that
  -- frees the objects of its nodes in turn, ends without a fault and frees the nodes, the array and the
  -- table, and no other node and no other table.
  pub ht_free-FreedIn :
      (fuel : ℕ) (w : S) (ht : Addr) (buckets : ℕ → List Addr)
      → (part.tables w).ht_live ht ≡ true
      → ht ≢ null
      → (part.tables w).table ht ≢ null
      → (part.tables w).bits ht < 31
      → (part.tables w).block ((part.tables w).table ht) ≡ 2 ^ (part.tables w).bits ht
      → IsTable (part.tables w).chains ((part.tables w).table ht) ((part.tables w).bits ht) buckets
      → ((j : ℕ) → j < 2 ^ (part.tables w).bits ht → length (buckets j) < fuel)
      → Ready (nodes_of buckets (2 ^ (part.tables w).bits ht) 0) w
      → Returns
          (λ _ g. Freed (part.tables w) ht buckets (part.tables g) × Ready [] g)
          (ht_free S on_tables free_func fuel ht w)
  unfolding ht_free get_table get_bits
  ht_free-FreedIn fuel w ht buckets live proper proper' few given is enough ready =
      let t = part.tables w in
      let table_read = reads S on_tables part Addr (get_table ht) w (t.table ht) (rw live refl) in
      let bits_read = reads S on_tables part ℕ (get_bits ht) w (t.bits ht) (rw live refl) in
      let (_, g, e, (_, gone, ready')) = Returns-inv (
        clear_hashtable_bits-Gone S on_tables part free_func Ready all (t.table ht) (t.bits ht) few
          fuel w buckets is enough ready) in
      rw (table_read, bits_read, e)
        (ended fuel w g ht buckets live proper proper' given gone ready')
