-- ===== src/Hashtable.antt =====
-- The hash table of hashtable.h and `ht_create` of hashtable.c: an array of list heads, over the memory
-- of `HLinks`. Bucket `i` of the array at `table` has the address `table + 8 * i`. What `malloc` returns
-- is an argument. `1 << bits` is an `int`: from 31 bits on it is undefined, a fault.
pub mod Mask
pub mod Buckets
pub mod Empty
pub mod Create
pub mod Count
pub mod Release
pub mod Rounds
pub mod Callback
pub mod Clear
pub mod Free
pub mod Arrays
use hashtable_linux_kernel.Common.{
  ℕ, zero, suc, ◌+◌, ◌-◌, ◌*◌, ◌%◌, ◌^◌, Bool, true, false, not, ◌&&◌, ◌||◌, ltb, leb, ◌==◌,
  if◌then◌else◌, Run, Cmd, ok, fault, out_of_fuel, pure, ◌>>=◌, ◌>>◌,
}
use Prim.Native.Nat.{bit_and}
use hashtable_linux_kernel.Links.{Addr, null, update}
use hashtable_linux_kernel.HLinks.{HLinks, get_first, get_hnext}
use hashtable_linux_kernel.HList.{
  init_hlist_head, hlist_empty, hlist_unhashed, hlist_del_init, hlist_add_head, hlist_for_each_from,
  hlist_for_each_safe_from,
}

-- `num & (divisor - 1)`.
unfoldable pub calc_bkt : (num divisor : ℕ) → ℕ
calc_bkt num divisor = bit_and num (divisor - 1)

-- `&table[i]`.
abbrev pub bucket_at : (table i : ℕ) → Addr
bucket_at table i = table + 8 * i

-- `1 << bits`.
unfoldable pub shift_one : {S : Type 0} (bits : ℕ) → Cmd S ℕ
shift_one bits = if ltb bits 31 then pure (2 ^ bits) else (λ _. fault)

-- `for (; i < sz; i++)`, with `n` rounds to go.
unfoldable pub hash_init_from : (n i : ℕ) → (ht : Addr) → Cmd HLinks (Unit {0})
hash_init_from zero i ht = pure tt
hash_init_from (suc n) i ht = do init_hlist_head (bucket_at ht i); hash_init_from n (suc i) ht

unfoldable pub __hash_init : (ht : Addr) (sz : ℕ) → Cmd HLinks (Unit {0})
__hash_init ht sz = hash_init_from sz 0 ht

unfoldable pub hash_add_bits :
    (table : Addr) (bits : ℕ) (node : Addr) (key : ℕ) → Cmd HLinks (Unit {0})
unfolding shift_one calc_bkt
hash_add_bits table bits node key = do
  divisor ← shift_one bits
  hlist_add_head node (bucket_at table (calc_bkt key divisor))

unfoldable pub hash_hashed : Addr → Cmd HLinks Bool
hash_hashed node = do unhashed ← hlist_unhashed node; pure (not unhashed)

-- The loop of `__hash_empty`: it returns at the first bucket that is not empty.
unfoldable pub hash_empty_from : (n i : ℕ) → (ht : Addr) → Cmd HLinks Bool
hash_empty_from zero i ht = pure true
hash_empty_from (suc n) i ht = do
  empty ← hlist_empty (bucket_at ht i)
  if empty then hash_empty_from n (suc i) ht else pure false

unfoldable pub __hash_empty : (ht : Addr) (sz : ℕ) → Cmd HLinks Bool
__hash_empty ht sz = hash_empty_from sz 0 ht

unfoldable pub hash_del : Addr → Cmd HLinks (Unit {0})
hash_del node = hlist_del_init node

-- The loop over the nodes of a bucket leaves `obj` NULL, so the test `obj == NULL` of the loop over
-- the buckets holds in every round; `n` is the number of buckets to go.
module _ {B : Type 0} (body : Addr → B → Cmd HLinks B) (fuel : ℕ) (table : Addr) where
  unfoldable pub hash_for_each_from : (n bkt : ℕ) → B → Cmd HLinks B
  hash_for_each_from zero bkt acc = pure acc
  hash_for_each_from (suc n) bkt acc = do
    first ← get_first (bucket_at table bkt)
    acc' ← hlist_for_each_from get_hnext body fuel first acc
    hash_for_each_from n (suc bkt) acc'

  unfoldable pub hash_for_each_bits : (bits : ℕ) → B → Cmd HLinks B
  unfolding hash_for_each_from shift_one
  hash_for_each_bits bits acc = do size ← shift_one bits; hash_for_each_from size 0 acc

-- `count++` of a `size_t`.
abbrev pub count_one : Addr → ℕ → Cmd HLinks ℕ
count_one cur count = pure ((count + 1) % 2 ^ 64)

-- The memory with `hashtable_t` objects: `ht_live` says where one is, `block` how many heads `malloc`
-- gave at an address.
pub record Tables : Type 0 where
  pub chains : HLinks
  pub ht_live : Addr → Bool
  pub table : Addr → Addr
  pub bits : Addr → ℕ
  pub block : Addr → ℕ

-- A list function run on the chains.
abbrev pub rechain : {A : Type 0} → Tables → Run HLinks A → Run Tables A
rechain w (ok a m) = ok a (record w { chains = m })
rechain w fault = fault
rechain w out_of_fuel = out_of_fuel

abbrev pub with_chains : {A : Type 0} → Cmd HLinks A → Cmd Tables A
with_chains c w = rechain w (c w.chains)

unfoldable pub malloc_ht : Addr → Cmd Tables Addr
malloc_ht fresh w =
    if fresh == null
    then ok null w
    else ok fresh (record w { ht_live = update w.ht_live fresh true })

unfoldable pub free_ht : Addr → Cmd Tables (Unit {0})
free_ht p w =
    if p == null
    then ok tt w
    else if w.ht_live p
    then ok tt (record w { ht_live = update w.ht_live p false })
    else fault

-- The addresses of the `n` heads of an array.
abbrev pub in_block : (base n a : ℕ) → Bool
in_block base n a = leb base a && (ltb a (base + 8 * n) && ((a - base) % 8 == 0))

unfoldable pub malloc_heads : Addr → (n : ℕ) → Cmd Tables Addr
malloc_heads fresh n w =
    if fresh == null
    then ok null w
    else ok fresh (record w {
      chains = record w.chains { head_live = λ a. in_block fresh n a || w.chains.head_live a };
      block = update w.block fresh n;
    })

unfoldable pub free_heads : Addr → Cmd Tables (Unit {0})
free_heads p w =
    if p == null
    then ok tt w
    else if w.block p == 0
    then fault
    else ok tt (record w {
      chains = record w.chains {
        head_live = λ a. not (in_block p (w.block p) a) && w.chains.head_live a;
      };
      block = update w.block p 0;
    })

unfoldable pub get_table : Addr → Cmd Tables Addr
get_table ht w = if w.ht_live ht then ok (w.table ht) w else fault

unfoldable pub set_table : Addr → Addr → Cmd Tables (Unit {0})
set_table ht t w = if w.ht_live ht then ok tt (record w { table = update w.table ht t }) else fault

unfoldable pub get_bits : Addr → Cmd Tables ℕ
get_bits ht w = if w.ht_live ht then ok (w.bits ht) w else fault

unfoldable pub set_bits : Addr → ℕ → Cmd Tables (Unit {0})
set_bits ht b w = if w.ht_live ht then ok tt (record w { bits = update w.bits ht b }) else fault

unfoldable pub hashtable_init : (ht : Addr) → Cmd Tables (Unit {0})
unfolding get_table get_bits shift_one
hashtable_init ht = do
  table ← get_table ht
  bits ← get_bits ht
  size ← shift_one bits
  with_chains (__hash_init table size)

-- `fresh_ht` and `fresh_table` are what the two calls of `malloc` return.
unfoldable pub ht_create : (fresh_ht fresh_table : Addr) → (bits : ℕ) → Cmd Tables Addr
unfolding malloc_ht malloc_heads free_ht set_bits set_table get_table shift_one hashtable_init
ht_create fresh_ht fresh_table bits = do
  ht ← malloc_ht fresh_ht
  if ht == null then pure null else do
    set_bits ht bits
    size ← shift_one bits
    heads ← malloc_heads fresh_table size
    set_table ht heads
    table ← get_table ht
    if table == null then (do free_ht ht; pure null) else do hashtable_init ht; pure ht

unfoldable pub hashtable_add : (ht node : Addr) (key : ℕ) → Cmd Tables (Unit {0})
unfolding get_table get_bits
hashtable_add ht node key = do
  table ← get_table ht
  bits ← get_bits ht
  with_chains (hash_add_bits table bits node key)

unfoldable pub count_entries_in_hashtable : (fuel : ℕ) (ht : Addr) → Cmd Tables ℕ
unfolding get_table get_bits
count_entries_in_hashtable fuel ht = do
  table ← get_table ht
  bits ← get_bits ht
  with_chains (hash_for_each_bits count_one fuel table bits 0)

-- The caller's state, and the tables in it: the state is the tables themselves, or has them as a part.
abbrev pub in_tables : (A : Type 0) → Cmd Tables A → Cmd Tables A
in_tables A c = c

-- The loops of `CLEAR_HASHTABLE_BITS`; the successor of a node is read before the node is freed.
module _ (S : Type 0) (on_tables : (A : Type 0) → Cmd Tables A → Cmd S A)
    (free_func : Addr → Cmd S (Unit {0})) where
  unfoldable pub clear_one : Addr → Unit {0} → Cmd S (Unit {0})
  clear_one cur _ = do on_tables _ (with_chains (hash_del cur)); free_func cur

  module _ (fuel : ℕ) where
    unfoldable pub clear_from : (n bkt : ℕ) (table : Addr) → Cmd S (Unit {0})
    unfolding clear_one
    clear_from zero bkt table = pure tt
    clear_from (suc n) bkt table = do
      first ← on_tables _ (with_chains (get_first (bucket_at table bkt)))
      hlist_for_each_safe_from (λ p. on_tables _ (with_chains (get_hnext p))) clear_one fuel first
          tt
      clear_from n (suc bkt) table

    unfoldable pub clear_hashtable_bits : (table : Addr) (bits : ℕ) → Cmd S (Unit {0})
    unfolding shift_one clear_from
    clear_hashtable_bits table bits = do
      size ← on_tables _ (shift_one bits)
      clear_from size 0 table

    unfoldable pub ht_free : Addr → Cmd S (Unit {0})
    unfolding get_table get_bits free_heads free_ht clear_hashtable_bits
    ht_free ht = do
      table ← on_tables _ (get_table ht)
      bits ← on_tables _ (get_bits ht)
      clear_hashtable_bits table bits
      table' ← on_tables _ (get_table ht)
      on_tables _ (free_heads table')
      on_tables _ (free_ht ht)
