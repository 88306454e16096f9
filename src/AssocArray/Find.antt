-- ===== src/AssocArray/Find.antt =====
-- `array_get_by_key`: which entry it finds.
use hashtable_linux_kernel.Common.{
  ℕ, zero, suc, ◌%◌, ◌^◌, ◌≡◌, ◌≢◌, ◌<◌, ◌≤◌, refl, true, false, ltb, ◌==◌, if◌then◌else◌, some,
  List, [], ◌∷◌, arith, length, ◌∈◌, ◌∉◌, ok, is_zero, Bool-cases, inl, inr,
}
use hashtable_linux_kernel.Links.{Addr, null}
use hashtable_linux_kernel.HLinks.{get_first, get_hnext}
use hashtable_linux_kernel.HList.Chain.{HSeg}
use hashtable_linux_kernel.Hash.{hash32_str}
use hashtable_linux_kernel.Hashtable.{bucket_at, calc_bkt, shift_one, get_table, get_bits}
use hashtable_linux_kernel.Hashtable.Mask.{calc_bkt-lt}
use hashtable_linux_kernel.Hashtable.Buckets.{IsTable}
use hashtable_linux_kernel.World.{World, get_key, get_ht}
use hashtable_linux_kernel.AssocArray.{starts_with, memcmp_equal, find_from, array_get_by_key}

-- The bytes of the key of an entry.
abbrev pub key_of : World → Addr → List ℕ
key_of w e = w.bytes (w.key e)

-- The first of the entries whose key begins with the bytes of `key`, or NULL.
abbrev pub find_key : (w : World) (key : List ℕ) → List Addr → Addr
find_key w key [] = null
find_key w key (e ∷ es) = if starts_with key (key_of w e) then e else find_key w key es

-- The entry's key can be compared with `key`: its block is live and has as many bytes at least.
abbrev pub Comparable : (w : World) (key : List ℕ) (e : Addr) → Type 0
Comparable w key e = (w.block_live (w.key e) ≡ true) × (length key ≤ length (key_of w e))

module _ (w : World) (key : List ℕ) where
  memcmp_equal-starts_with :
      (e : Addr)
      → Comparable w key e
      → memcmp_equal (w.key e) key w ≡ ok (starts_with key (key_of w e)) w
  unfolding memcmp_equal
  memcmp_equal-starts_with e c =
      let enough : ltb (length (key_of w e)) (length key) ≡ false = ground (arith, c.1) in
      rw (c.0, enough) refl

  pub find_from-find_key :
      (fuel : ℕ) (p : Addr) (es : List Addr)
      → HSeg w.tables.chains p es
      → null ∉ es
      → ((e : Addr) → e ∈ es → w.tables.chains.node_live e ≡ true)
      → ((e : Addr) → e ∈ es → Comparable w key e)
      → length es < fuel
      → find_from fuel key (w.tables.chains.next p) w ≡ ok (find_key w key es) w
  unfolding find_from get_hnext get_key
  find_from-find_key zero p es s proper live cmp enough = absurd (omega arith)
  find_from-find_key (suc fuel) p [] s proper live cmp enough = rw s refl
  find_from-find_key (suc fuel) p (e ∷ es) s proper live cmp enough =
      let more : is_zero e ≡ false = ground arith in
      let live' = live e (ground arith) in
      let here = memcmp_equal-starts_with e (cmp e (ground arith)) in
      let rest =
        find_from-find_key fuel e es s.2 (ground arith) (λ a o. live a (omega arith))
          (λ a o. cmp a (omega arith)) (omega arith) in
      elim (Bool-cases (starts_with key (key_of w e))) [
        | inl found ↦ rw (s.0, more, live', live', here, found) refl
        | inr other ↦ rw (s.0, more, live', live', here, other, rest) refl
      ]

-- A live array over a live table.
pub record IsArray (w : World) (arr : Addr) (buckets : ℕ → List Addr) : Type 0 where
  pub given : arr ≢ null
  pub arr_live : w.arr_live arr ≡ true
  pub ht_live : w.tables.ht_live (w.ht arr) ≡ true
  pub few : w.tables.bits (w.ht arr) < 31
  pub table : IsTable w.tables.chains (w.tables.table (w.ht arr)) (w.tables.bits (w.ht arr)) buckets

module _ (w : World) (arr : Addr) (buckets : ℕ → List Addr) (is : IsArray w arr buckets) where
  -- The bucket that `array_get_by_key` searches.
  abbrev pub searched : (h : ℕ) → List Addr
  searched h = buckets (h % 2 ^ w.tables.bits (w.ht arr))

  pub array_get_by_key-find_from :
      (fuel h : ℕ) (key : List ℕ)
      → hash32_str key ≡ some h
      → array_get_by_key fuel arr key w
        ≡ find_from fuel key
            (w.tables.chains.next
              (bucket_at (w.tables.table (w.ht arr)) (calc_bkt h (2 ^ w.tables.bits (w.ht arr)))))
            w
  unfolding array_get_by_key get_ht get_bits get_table shift_one get_first
  array_get_by_key-find_from fuel h key hash =
      let given : (arr == 0) ≡ false = ground (arith, is.given) in
      let defined : ltb (w.tables.bits (w.ht arr)) 31 ≡ true = ground (arith, is.few) in
      let b = calc_bkt h (2 ^ w.tables.bits (w.ht arr)) in
      let c = is.table.chain b (calc_bkt-lt h (w.tables.bits (w.ht arr))) in
      rw (given, hash, is.arr_live, is.ht_live, defined, is.ht_live, c.head) refl
