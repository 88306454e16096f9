-- ===== src/Hashtable/Create.antt =====
-- `ht_create`: a new table is empty, and a failed allocation leaves nothing behind.
use hashtable_linux_kernel.Common.{
  ℕ, zero, suc, ◌+◌, ◌^◌, ◌≡◌, ◌≢◌, ◌<◌, ◌≤◌, refl, true, false, ◌||◌, ltb, List, [], arith, ok,
  fault, Returns, returns, Returns-mono, Returns-inv, ◌==◌,
}
use hashtable_linux_kernel.Links.{Addr, null, update}
use hashtable_linux_kernel.HLinks.{HLinks, set_first}
use hashtable_linux_kernel.HList.{init_hlist_head}
use hashtable_linux_kernel.Hashtable.{
  bucket_at, hash_init_from, __hash_init, Tables, malloc_ht, malloc_heads, free_ht, get_table,
  set_table, get_bits, set_bits, shift_one, hashtable_init, ht_create, in_block,
}
use hashtable_linux_kernel.Hashtable.Buckets.{IsTable}

abbrev pub no_nodes : ℕ → List Addr
no_nodes i = []

-- After the loop the heads of the rounds are empty, and nothing else is written.
record Cleared (table i n : ℕ) (m g : HLinks) : Type 0 where
  heads : (j : ℕ) → i ≤ j → j < n + i → g.next (bucket_at table j) ≡ null
  others : (j : ℕ) → j < i → g.next (bucket_at table j) ≡ m.next (bucket_at table j)
  live : (a : Addr) → g.head_live a ≡ m.head_live a

from-Cleared :
    (n i : ℕ) (table : Addr) (m : HLinks)
    → ((j : ℕ) → j < n + i → m.head_live (bucket_at table j) ≡ true)
    → Returns (λ _ g. Cleared table i n m g) (hash_init_from n i table m)
unfolding hash_init_from init_hlist_head set_first
from-Cleared zero i table m live =
    returns
      (record { heads = λ j a b. absurd (omega arith); others = λ j a. refl; live = λ a. refl })
from-Cleared (suc n) i table m live =
    let u : HLinks = record m { next = update m.next (bucket_at table i) null } in
    rw (live i (omega arith)) (
      Returns-mono (from-Cleared n (suc i) table u (λ j lt. live j (omega arith))) (λ _ g c.
        record {
          heads = λ j a b. ground (arith, c.heads j, c.others j);
          others = λ j a. ground (arith, c.others j);
          live = c.live;
        }))

-- `__hash_init` empties every bucket of an array of live heads, and does not fault.
pub __hash_init-IsTable :
    (m : HLinks) (table bits : ℕ)
    → ((j : ℕ) → j < 2 ^ bits → m.head_live (bucket_at table j) ≡ true)
    → 0 < table
    → Returns (λ _ g. IsTable g table bits no_nodes) (__hash_init table (2 ^ bits) m)
unfolding __hash_init
__hash_init-IsTable m table bits live given =
    Returns-mono (from-Cleared (2 ^ bits) 0 table m (λ j lt. live j (omega arith))) (λ _ g c.
      record {
        chain = λ i lt. record {
          seg = c.heads i (omega arith) (omega arith);
          distinct = λ a. ground arith;
          non_null = ground arith;
          nodes = λ a o. absurd (omega arith);
          head = ground (arith, c.live (bucket_at table i), live i lt);
        };
        apart = λ i j lt lt' ne a o. ground arith;
      })

pub bucket_in_block : (table n j : ℕ) → j < n → in_block table n (bucket_at table j) ≡ true
bucket_in_block table n j lt = ground arith

-- The memory when both allocations are done.
abbrev allocated : Tables → (fresh_ht fresh_table : Addr) → (bits : ℕ) → Tables
allocated w fresh_ht fresh_table bits = record w {
  chains = record w.chains {
    head_live = λ a. in_block fresh_table (2 ^ bits) a || w.chains.head_live a;
  };
  ht_live = update w.ht_live fresh_ht true;
  bits = update w.bits fresh_ht bits;
  table = update w.table fresh_ht fresh_table;
  block = update w.block fresh_table (2 ^ bits);
}

-- The memory when the second allocation has failed.
abbrev undone : Tables → (fresh_ht : Addr) → (bits : ℕ) → Tables
undone w fresh_ht bits = record w {
  ht_live = update (update w.ht_live fresh_ht true) fresh_ht false;
  bits = update w.bits fresh_ht bits;
  table = update w.table fresh_ht null;
}

module _ (w : Tables) (bits : ℕ) (few : bits < 31) (fresh_ht : Addr) (given : fresh_ht ≢ null) where
  defined : ltb bits 31 ≡ true
  defined = ground arith

  some : (fresh_ht == 0) ≡ false
  some = ground arith

  same : (fresh_ht == fresh_ht) ≡ true
  same = ground arith

  undone-ok : ht_create fresh_ht null bits w ≡ ok null (undone w fresh_ht bits)
  unfolding ht_create malloc_ht malloc_heads free_ht set_bits set_table get_table shift_one
  undone-ok = rw (some, some, same, defined, same, same, same, some) refl

  allocated-ok :
      (fresh_table : Addr) (m : HLinks)
      → fresh_table ≢ null
      → __hash_init fresh_table (2 ^ bits) (allocated w fresh_ht fresh_table bits).chains ≡ ok tt m
      → ht_create fresh_ht fresh_table bits w
        ≡ ok fresh_ht (record (allocated w fresh_ht fresh_table bits) { chains = m })
  unfolding ht_create malloc_ht malloc_heads set_bits set_table get_table get_bits shift_one
      hashtable_init
  allocated-ok fresh_table m given' init =
      let some' : (fresh_table == 0) ≡ false = ground arith in
      rw (some, some, same, defined, some', same, same, some', same, same, defined, init) refl

  -- For fewer than 31 bits, with both allocations given, `ht_create` does not fault and returns a live
  -- table of `2 ^ bits` empty buckets, whose array of heads has that size.
  pub ht_create-IsTable :
      (fresh_table : Addr)
      → fresh_table ≢ null
      → Returns
          (λ ht g.
            (ht ≡ fresh_ht)
            × (g.ht_live ht ≡ true)
            × (g.bits ht ≡ bits)
            × (g.table ht ≡ fresh_table)
            × (g.block fresh_table ≡ 2 ^ bits)
            × IsTable g.chains fresh_table bits no_nodes)
          (ht_create fresh_ht fresh_table bits w)
  ht_create-IsTable fresh_table given' =
      let heads = (allocated w fresh_ht fresh_table bits).chains in
      let init =
        __hash_init-IsTable heads fresh_table bits
          (λ j lt. ground (arith, bucket_in_block fresh_table (2 ^ bits) j lt)) (omega arith) in
      let (_, m, e, is) = Returns-inv init in
      rw (allocated-ok fresh_table m given' e)
        (returns (refl, ground arith, ground arith, ground arith, ground arith, is))

  -- When the first allocation fails nothing is written; when the second fails the object of the first
  -- is freed again, no other table and no chain is touched, and NULL is returned.
  pub ht_create-null :
      ((table : Addr) → ht_create null table bits w ≡ ok null w)
      × Returns
          (λ ht g.
            (ht ≡ null)
            × (g.ht_live fresh_ht ≡ false)
            × ((a : Addr) → a ≢ fresh_ht → g.ht_live a ≡ w.ht_live a)
            × (g.chains ≡ w.chains))
          (ht_create fresh_ht null bits w)
  unfolding ht_create malloc_ht
  ht_create-null =
      (λ table. refl, rw undone-ok (returns (refl, ground arith, λ a ne. ground arith, refl)))

-- For 31 bits or more `ht_create` shifts a 1 of an `int` out of its range, which is undefined, once its
-- first allocation is given.
pub ht_create-fault :
    (w : Tables) (bits : ℕ) (fresh_ht fresh_table : Addr)
    → 31 ≤ bits
    → fresh_ht ≢ null
    → ht_create fresh_ht fresh_table bits w ≡ fault
unfolding ht_create malloc_ht set_bits shift_one
ht_create-fault w bits fresh_ht fresh_table many given =
    let some_ht : (fresh_ht == 0) ≡ false = ground arith in
    let live : (fresh_ht == fresh_ht) ≡ true = ground arith in
    let past : ltb bits 31 ≡ false = ground arith in rw (some_ht, some_ht, live, past) refl
