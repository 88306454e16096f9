-- ===== src/Hashtable/Count.antt =====
-- `COUNT_ENTRIES_IN_HASHTABLE`.
use hashtable_linux_kernel.Common.{
  ℕ, zero, suc, ◌+◌, ◌%◌, ◌^◌, ◌≡◌, ◌<◌, ◌≤◌, true, List, [], ◌∷◌, arith, length, ok, foldl, ltb,
}
use hashtable_linux_kernel.Links.{Addr}
use hashtable_linux_kernel.HLinks.{HLinks, get_first}
use hashtable_linux_kernel.HList.Loops.{hlist_for_each-foldl}
use hashtable_linux_kernel.Hashtable.{
  bucket_at, count_one, hash_for_each_from, hash_for_each_bits, Tables, count_entries_in_hashtable,
  get_table, get_bits, shift_one,
}
use hashtable_linux_kernel.Hashtable.Buckets.{IsTable}

-- How many nodes the `n` buckets from bucket `i` on hold.
abbrev pub total : (buckets : ℕ → List Addr) (n i : ℕ) → ℕ
total buckets zero i = 0
total buckets (suc n) i = length (buckets i) + total buckets n (suc i)

abbrev tick : ℕ → Addr → ℕ
tick count cur = (count + 1) % 2 ^ 64

foldl-tick : (xs : List Addr) (acc : ℕ) → foldl tick acc xs % 2 ^ 64 ≡ (acc + length xs) % 2 ^ 64
foldl-tick [] acc = omega arith
foldl-tick (x ∷ xs) acc = omega (arith, foldl-tick xs (tick acc x))

foldl-lt : (xs : List Addr) (acc : ℕ) → acc < 2 ^ 64 → foldl tick acc xs < 2 ^ 64
foldl-lt [] acc lt = lt
foldl-lt (x ∷ xs) acc lt = foldl-lt xs (tick acc x) (omega arith)

module _ {m : HLinks} {table : Addr} {bits : ℕ} {buckets : ℕ → List Addr}
    (is : IsTable m table bits buckets) (fuel : ℕ)
    (enough : (i : ℕ) → i < 2 ^ bits → length (buckets i) < fuel) where
  from-total :
      (n i acc : ℕ)
      → n + i ≤ 2 ^ bits
      → acc < 2 ^ 64
      → hash_for_each_from count_one fuel table n i acc m
        ≡ ok ((acc + total buckets n i) % 2 ^ 64) m
  unfolding hash_for_each_from get_first
  from-total zero i acc fits lt = ground arith
  from-total (suc n) i acc fits lt =
      let xs = buckets i in
      let c = is.chain i (omega arith) in
      let counted = foldl tick acc xs in
      let rest = from-total n (suc i) counted (omega arith) (foldl-lt xs acc lt) in
      let here =
        hlist_for_each-foldl tick m fuel (bucket_at table i) xs acc c (enough i (omega arith)) in
      rw (c.head, here, rest) (ground (arith, foldl-tick xs acc, foldl-lt xs acc lt))

-- `COUNT_ENTRIES_IN_HASHTABLE` of a live table, with more fuel than any bucket has nodes, ends, counts
-- the nodes of all buckets modulo 2 ^ 64, and writes nothing.
pub count_entries-total :
    (w : Tables) (ht fuel : ℕ) (buckets : ℕ → List Addr)
    → w.ht_live ht ≡ true
    → w.bits ht < 31
    → IsTable w.chains (w.table ht) (w.bits ht) buckets
    → ((i : ℕ) → i < 2 ^ w.bits ht → length (buckets i) < fuel)
    → count_entries_in_hashtable fuel ht w ≡ ok (total buckets (2 ^ w.bits ht) 0 % 2 ^ 64) w
unfolding count_entries_in_hashtable get_table get_bits hash_for_each_bits shift_one
count_entries-total w ht fuel buckets live few is enough =
    let defined : ltb (w.bits ht) 31 ≡ true = ground arith in
    let loop = from-total is fuel enough (2 ^ w.bits ht) 0 0 (omega arith) (omega arith) in
    rw (live, live, defined, loop) (ground arith)
