-- ===== src/AssocArray.antt =====
-- The associative array of assoc_array.c: entries in a hash table by the hash of their key, and in a
-- list by the time of their insertion. A key is the list of its `key_size` bytes. What the calls of
-- `malloc` return are arguments. `call_fill` and `call_free` run the caller's function at a pointer; a
-- NULL pointer given to `array_create` means the functions of this file.
pub mod Find
pub mod Lookup
pub mod Valid
pub mod Add
pub mod Fill
pub mod Free
pub mod Split
pub mod Delete
pub mod Remove
pub mod Ends
pub mod Create
pub mod Release
pub mod Blocks
use hashtable_linux_kernel.Common.{
  ℕ, zero, suc, ◌+◌, ◌-◌, ◌*◌, ◌/◌, ◌%◌, ◌^◌, Bool, true, false, not, ◌&&◌, ltb, ◌==◌,
  if◌then◌else◌, Option, none, some, List, [], ◌∷◌, length, Cmd, ok, fault, out_of_fuel, pure,
  ◌>>=◌, ◌>>◌, is_zero,
}
use hashtable_linux_kernel.Links.{Addr, null, update, get_next, get_prev}
use hashtable_linux_kernel.KList.{k_init_list_head, k_list_add_tail, k_list_del, k_list_empty}
use hashtable_linux_kernel.HLinks.{get_first, get_hnext}
use hashtable_linux_kernel.HList.{hlist_del, hlist_for_each_from}
use hashtable_linux_kernel.Hash.{hash32_str}
use hashtable_linux_kernel.Hashtable.{
  bucket_at, calc_bkt, shift_one, with_chains, get_table, get_bits, ht_free, Tables, hashtable_add,
  count_one,
}
use hashtable_linux_kernel.World.{
  World, lnode, list_of, with_tables, with_list, malloc_entry, malloc_array, malloc_block,
  free_object, free_array, free_block, get_key, get_data, set_key, set_key_size, set_data, get_ht,
  set_ht, get_array_size, set_array_size, get_free_entry, set_free_entry, get_fill_entry,
  set_fill_entry,
}

-- `-1` as an `int`, and the error code of errno.h.
abbrev pub minus_one : ℕ
minus_one = 2 ^ 32 - 1

abbrev pub einval : ℕ
einval = 22

-- `memcpy(dst, bytes, length bytes)` to the start of a block.
unfoldable pub copy_bytes : Addr → List ℕ → Cmd World (Unit {0})
copy_bytes dst bs w =
    if w.block_live dst then ok tt (record w { bytes = update w.bytes dst bs }) else fault

unfoldable pub fill_assoc_array_entry : (fresh_key entry data_ : Addr) → List ℕ → Cmd World ℕ
unfolding malloc_block set_key get_key copy_bytes set_key_size set_data
fill_assoc_array_entry fresh_key entry data_ key = do
  p ← malloc_block fresh_key
  set_key entry p
  k ← get_key entry
  if k == null
      then pure 1
      else do copy_bytes k key; set_key_size entry (length key); set_data entry data_; pure 0

unfoldable pub free_assoc_array_entry : Addr → Cmd World (Unit {0})
unfolding get_data get_key free_block free_object
free_assoc_array_entry entry = do
  free_block (← get_data entry)
  free_block (← get_key entry)
  free_object entry

unfoldable pub set_ht_create : Addr → Cmd World (Unit {0})
set_ht_create ht_create_func w = ok tt (record w { custom_ht_create = ht_create_func })

-- `call_ht_create` runs the function that makes a table: `ht_create`, until `set_ht_create` is called.
unfoldable pub array_create :
    (call_ht_create : Addr → (bits : ℕ) → Cmd Tables Addr) (fresh_arr : Addr)
    (default_free default_fill : Addr) (bits : ℕ) (free_entry fill_entry : Addr)
    → Cmd World Addr
unfolding malloc_array free_array set_ht get_ht set_array_size set_free_entry set_fill_entry
array_create call_ht_create fresh_arr default_free default_fill bits free_entry fill_entry = do
  arr ← malloc_array fresh_arr
  if arr == null then pure null else do
    create ← (λ w. ok w.custom_ht_create w)
    set_ht arr (← with_tables (call_ht_create create bits))
    ht ← get_ht arr
    if ht == null then (do free_array arr; pure null) else do
      with_list (k_init_list_head (list_of arr))
      set_array_size arr 0
      set_free_entry arr (if free_entry == null then default_free else free_entry)
      set_fill_entry arr (if fill_entry == null then default_fill else fill_entry)
      pure arr

-- Whether the bytes begin with `key`.
abbrev pub starts_with : (key bs : List ℕ) → Bool
starts_with [] bs = true
starts_with (k ∷ ks) [] = false
starts_with (k ∷ ks) (b ∷ bs) = k == b && starts_with ks bs

-- `memcmp(p, key, key_size) == 0` for the block at `p`, from its start: a block of fewer bytes is read
-- beyond its end.
unfoldable pub memcmp_equal : Addr → (key : List ℕ) → Cmd World Bool
memcmp_equal p key w =
    if w.block_live p && not (ltb (length (w.bytes p)) (length key))
    then ok (starts_with key (w.bytes p)) w
    else fault

-- The hash of a key as a command; a shift that is undefined is a fault.
abbrev pub defined : {S : Type 0} → Option ℕ → Cmd S ℕ
defined none w = fault
defined (some h) w = ok h w

-- The loop over one bucket, which returns at the first entry whose key compares equal.
unfoldable pub find_from : (fuel : ℕ) (key : List ℕ) (cur : Addr) → Cmd World Addr
unfolding get_key memcmp_equal
find_from zero key cur = λ _. out_of_fuel
find_from (suc fuel) key cur = if is_zero cur then pure null else do
  tmp ← with_tables (with_chains (get_hnext cur))
  k ← get_key cur
  equal ← memcmp_equal k key
  if equal then pure cur else find_from fuel key tmp

unfoldable pub array_get_by_key : (fuel : ℕ) (arr : Addr) (key : List ℕ) → Cmd World Addr
unfolding get_ht get_table get_bits shift_one find_from
array_get_by_key fuel arr key = if arr == null then pure null else do
  hash_key ← defined (hash32_str key)
  ht ← get_ht arr
  bits ← with_tables (get_bits ht)
  divisor ← shift_one bits
  table ← with_tables (get_table ht)
  first ← with_tables (with_chains (get_first (bucket_at table (calc_bkt hash_key divisor))))
  find_from fuel key first

-- `arr->size++` and `arr->size--` of a `size_t`.
unfoldable pub increase_size : Addr → Cmd World (Unit {0})
unfolding get_array_size set_array_size
increase_size arr = do n ← get_array_size arr; set_array_size arr ((n + 1) % 2 ^ 64)

unfoldable pub decrease_size : Addr → Cmd World (Unit {0})
unfolding get_array_size set_array_size
decrease_size arr = do
  n ← get_array_size arr
  set_array_size arr (if n == 0 then 2 ^ 64 - 1 else n - 1)

-- `arr == NULL || k_list_empty(&arr->list) || arr->size == 0`.
unfoldable pub array_is_empty : Addr → Cmd World Bool
unfolding get_array_size
array_is_empty arr = if arr == null then pure true else do
  empty ← with_list (k_list_empty (list_of arr))
  if empty then pure true else do n ← get_array_size arr; pure (n == 0)

-- The entry of the first or the last `lnode`.
unfoldable pub end_entry : (arr : Addr) (is_first : Bool) → Cmd World Addr
end_entry arr is_first = do
  n ← with_list (if is_first then get_next (list_of arr) else get_prev (list_of arr))
  pure (n - 16)

unfoldable pub _array_get_first : (arr : Addr) (is_first : Bool) → Cmd World Addr
unfolding array_is_empty end_entry
_array_get_first arr is_first = do
  empty ← array_is_empty arr
  if empty then pure null else end_entry arr is_first

unfoldable pub array_get_first : Addr → Cmd World Addr
array_get_first arr = _array_get_first arr true

unfoldable pub array_get_last : Addr → Cmd World Addr
array_get_last arr = _array_get_first arr false

module _ (call_fill : Addr → (entry data_ : Addr) → List ℕ → Cmd World ℕ)
    (call_free : Addr → Addr → Cmd World (Unit {0})) where
  unfoldable pub array_add : (fresh_entry arr data_ : Addr) → List ℕ → Cmd World ℕ
  unfolding malloc_entry free_object get_fill_entry get_ht increase_size
  array_add fresh_entry arr data_ key = if arr == null then pure minus_one else do
    new_entry ← malloc_entry fresh_entry
    if new_entry == null then pure minus_one else do
      fill_entry ← get_fill_entry arr
      ret ← call_fill fill_entry new_entry data_ key
      if not (ret == 0) then (do free_object new_entry; pure minus_one) else do
        hash_key ← defined (hash32_str key)
        ht ← get_ht arr
        with_tables (hashtable_add ht new_entry hash_key)
        with_list (k_list_add_tail (lnode new_entry) (list_of arr))
        increase_size arr
        pure 0

  -- The entry is taken out of its bucket and of the list, and freed.
  unfoldable pub delete_entry : (arr entry : Addr) → Cmd World (Unit {0})
  unfolding get_free_entry decrease_size
  delete_entry arr entry = do
    with_tables (with_chains (hlist_del entry))
    with_list (k_list_del (lnode entry))
    free_entry ← get_free_entry arr
    call_free free_entry entry
    decrease_size arr

  unfoldable pub array_del : (fuel : ℕ) (arr : Addr) → List ℕ → Cmd World ℕ
  array_del fuel arr key = if arr == null then pure einval else do
    existing_entry ← array_get_by_key fuel arr key
    if existing_entry == null then pure 1 else do delete_entry arr existing_entry; pure 0

  unfoldable pub array_add_replace :
      (fuel : ℕ) (fresh_entry arr data_ : Addr) → List ℕ → Cmd World ℕ
  array_add_replace fuel fresh_entry arr data_ key =
      if arr == null
      then pure minus_one
      else do array_del fuel arr key; array_add fresh_entry arr data_ key

  unfoldable pub _array_del_first : (arr : Addr) (is_first : Bool) → Cmd World ℕ
  unfolding array_is_empty end_entry
  _array_del_first arr is_first = do
    empty ← array_is_empty arr
    if empty then pure minus_one else do
      e ← end_entry arr is_first
      if e == null then pure minus_one else do delete_entry arr e; pure 0

  unfoldable pub array_del_first : Addr → Cmd World ℕ
  array_del_first arr = _array_del_first arr true

  unfoldable pub array_del_last : Addr → Cmd World ℕ
  array_del_last arr = _array_del_first arr false

  -- `HT_FREE` calls `arr->free_entry`, which it reads for each entry.
  unfoldable pub array_free : (fuel : ℕ) → Addr → Cmd World ℕ
  unfolding get_ht get_free_entry free_array
  array_free fuel arr = if arr == null then pure minus_one else do
    ht ← get_ht arr
    ht_free World (λ A. with_tables {A = A})
        (λ obj. get_free_entry arr >>= λ free_entry. call_free free_entry obj) fuel ht
    free_array arr
    pure 0

-- The loop of `array_collision_percent`: `n` buckets to go.
unfoldable pub collisions_from : (fuel : ℕ) (table : Addr) (n i collisions : ℕ) → Cmd World ℕ
collisions_from fuel table zero i collisions = pure collisions
collisions_from fuel table (suc n) i collisions = do
  first ← with_tables (with_chains (get_first (bucket_at table i)))
  count ← with_tables (with_chains (hlist_for_each_from get_hnext count_one fuel first 0))
  collisions_from fuel table n (suc i)
      (if ltb 1 count then (collisions + (count - 1)) % 2 ^ 64 else collisions)

-- The result is cut down to an `int`.
unfoldable pub array_collision_percent : (fuel : ℕ) → Addr → Cmd World ℕ
unfolding get_ht get_array_size get_table get_bits shift_one collisions_from
array_collision_percent fuel arr = if arr == null then pure 0 else do
  ht ← get_ht arr
  if ht == null then pure 0 else do
    size ← get_array_size arr
    if size == 0 then pure 0 else do
      bits ← with_tables (get_bits ht)
      num_buckets ← shift_one bits
      table ← with_tables (get_table ht)
      collisions ← collisions_from fuel table num_buckets 0 0
      pure (((collisions * 100) % 2 ^ 64 / size) % 2 ^ 32)
