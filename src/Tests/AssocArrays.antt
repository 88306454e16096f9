-- ===== src/Tests/AssocArrays.antt =====
-- An associative array on the table of `Hashtables`, and the theorems of the lookup at it.
use hashtable_linux_kernel.AssocArray.{array_free}
use hashtable_linux_kernel.AssocArray.Release.{FreedArray, by_bucket, array_free-Freed}
use hashtable_linux_kernel.AssocArray.Blocks.{OwnsBlocks, free_assoc_array_entry-FreesEntries}
use hashtable_linux_kernel.Common.{sym, subst}
use hashtable_linux_kernel.AssocArray.{array_del}
use hashtable_linux_kernel.AssocArray.Remove.{Removed, array_del-Removed}
use hashtable_linux_kernel.AssocArray.Free.{free_assoc_array_entry-FreesEntry}
use hashtable_linux_kernel.AssocArray.{array_del_first, array_del_last}
use hashtable_linux_kernel.AssocArray.Ends.{array_del_first-oldest, array_del_last-newest}
use hashtable_linux_kernel.Common.{Cmd, ◌||◌, ◌&&◌, ltb, suc, zero}
use hashtable_linux_kernel.AssocArray.Find.{key_of}
use hashtable_linux_kernel.Common.{
  ℕ, ◌+◌, ◌*◌, ◌%◌, ◌^◌, ◌≡◌, refl, true, false, ◌==◌, if◌then◌else◌, some, List, [], ◌∷◌, arith,
  length, ok, Returns,
}
use hashtable_linux_kernel.Links.{Addr}
use hashtable_linux_kernel.Hash.{hash32_str, hash_str, hash_32}
use hashtable_linux_kernel.World.{World, mark_entry}
use hashtable_linux_kernel.AssocArray.{
  array_get_by_key, array_add, fill_assoc_array_entry, free_assoc_array_entry,
}
use hashtable_linux_kernel.Hashtable.Release.{IsTable-ext}
use hashtable_linux_kernel.AssocArray.Valid.{IsAssoc, bucket_of}
use hashtable_linux_kernel.AssocArray.Add.{array_add-IsAssoc}
use hashtable_linux_kernel.AssocArray.Fill.{fill_assoc_array_entry-Filled}
use hashtable_linux_kernel.AssocArray.Find.{IsArray}
use hashtable_linux_kernel.AssocArray.Lookup.{
  Answer, array_get_by_key-Answer, array_get_by_key-prefix,
}
use hashtable_linux_kernel.Tests.Hashtables.{tables, buckets, chains-IsTable, short}

-- The array 100 has the entries 2, 3 and 4, whose keys are the blocks 202, 203 and 204.
abbrev world : (Addr → List ℕ) → World
world bytes = record {
  tables = tables;
  links = record { live = λ a. false; next = λ a. 0; prev = λ a. 0 };
  key = λ e. e + 200;
  key_size = λ e. length (bytes (e + 200));
  data_of = λ e. e + 300;
  arr_live = λ a. a == 100;
  ht = λ a. 40;
  size = λ a. 3;
  free_entry = λ a. 0;
  fill_entry = λ a. 0;
  block_live = λ p. true;
  bytes = bytes;
  ip = λ a. 0;
  hostname = λ a. 0;
  custom_ht_create = 0;
}

world-IsArray : (bytes : Addr → List ℕ) → IsArray (world bytes) 100 buckets
world-IsArray bytes = record {
  given = omega arith;
  arr_live = refl;
  ht_live = refl;
  few = omega arith;
  table = chains-IsTable;
}

-- Keys of one byte.
abbrev letters : Addr → List ℕ
letters p = (if p == 202 then 98 else if p == 203 then 100 else 97) ∷ []

array_get_by_key-Answer_example :
    (h : ℕ) × (hash32_str (97 ∷ []) ≡ some h)
    × Returns
        (λ e g. (g ≡ world letters) × Answer (world letters) (97 ∷ []) (buckets (h % 2 ^ 1)) e)
        (array_get_by_key 3 100 (97 ∷ []) (world letters))
array_get_by_key-Answer_example =
    array_get_by_key-Answer (world letters) 100 buckets (world-IsArray letters) 3 short (97 ∷ [])
      (λ i lt e o. (refl, refl))

-- The entry 4 has the key "a\0".
abbrev mixed : Addr → List ℕ
mixed p = if p == 204 then 97 ∷ 0 ∷ [] else 98 ∷ []

-- The key "a" finds it.
array_get_by_key-prefix_example :
    array_get_by_key 3 100 (97 ∷ []) (world mixed) ≡ ok 4 (world mixed)
unfolding hash32_str hash_str hash_32
array_get_by_key-prefix_example =
    array_get_by_key-prefix (world mixed) 100 buckets (world-IsArray mixed) 3 short (97 ∷ [])
      ((97 * 0x9e370001) % 2 ^ 32) 4 [] (omega arith) refl refl refl (λ a o. (refl, ground arith))

-- The array `world letters` with its list: 4, 3 and 2, from the first to the last.
abbrev pub assoc : World
assoc = record (world letters) {
  links = record {
    live = λ a. a == 108 || (ltb 17 a && ltb a 21);
    next = λ a. if a == 108 then 20 else if a == 20 then 19 else if a == 19 then 18 else 108;
    prev = λ a. if a == 108 then 18 else if a == 18 then 19 else if a == 19 then 20 else 108;
  };
}

buckets-bucket_of : (i : ℕ) → buckets i ≡ bucket_of assoc 1 (2 ∷ 3 ∷ 4 ∷ []) i
unfolding hash32_str hash_str hash_32
buckets-bucket_of zero = refl
buckets-bucket_of (suc zero) = refl
buckets-bucket_of (suc (suc i)) = ground arith

assoc-IsAssoc : IsAssoc assoc 100 (2 ∷ 3 ∷ 4 ∷ [])
assoc-IsAssoc = record {
  array = record {
    given = omega arith;
    arr_live = refl;
    ht_live = refl;
    few = omega arith;
    table = IsTable-ext buckets-bucket_of chains-IsTable;
  };
  list = record {
    cycle = (refl, refl, (refl, refl, (refl, refl, (refl, refl))));
    distinct = λ a. ground arith;
    live = λ a o. ground arith;
  };
  size = refl;
}

-- The callbacks are those of the library, and `malloc` gives the block 500 for the key.
abbrev call_fill : Addr → (entry data_ : Addr) → List ℕ → Cmd World ℕ
call_fill f entry data_ key = fill_assoc_array_entry 500 entry data_ key

abbrev call_free : Addr → Addr → Cmd World (Unit {0})
call_free f entry = free_assoc_array_entry entry

-- The entry 50 with the key "b".
array_add-IsAssoc_example :
    Returns
      (λ ret g. (ret ≡ 0) × IsAssoc g 100 (50 ∷ 2 ∷ 3 ∷ 4 ∷ []) × (key_of g 50 ≡ 98 ∷ []))
      (array_add call_fill call_free 50 100 700 (98 ∷ []) assoc)
array_add-IsAssoc_example =
    array_add-IsAssoc call_fill call_free assoc 100 (2 ∷ 3 ∷ 4 ∷ []) assoc-IsAssoc 50 700 (98 ∷ [])
      (record { given = omega arith; node = refl; head = refl; list = refl }) (omega arith)
      (fill_assoc_array_entry-Filled (mark_entry 50 true assoc) 500 50 700 (98 ∷ []) refl
        (omega arith) (λ a live ne. ground arith))

-- The key "a" is that of the entry 4.
array_del-Removed_example :
    Returns
      (λ ret g. Removed assoc 100 (2 ∷ 3 ∷ 4 ∷ []) (97 ∷ []) ret g)
      (array_del call_fill call_free 4 100 (97 ∷ []) assoc)
array_del-Removed_example =
    array_del-Removed call_fill call_free assoc 100 (2 ∷ 3 ∷ 4 ∷ []) assoc-IsAssoc
      (λ e o.
        free_assoc_array_entry-FreesEntry assoc e (ground arith) (omega arith) refl (omega arith)
          refl (omega arith))
      4 (97 ∷ []) (omega arith) (λ e o. (refl, refl))

array_del_first-oldest_example :
    Returns
      (λ ret g. (ret ≡ 0) × IsAssoc g 100 (2 ∷ 3 ∷ []) × (g.tables.chains.node_live 4 ≡ false))
      (array_del_first call_fill call_free 100 assoc)
array_del_first-oldest_example =
    array_del_first-oldest assoc 100 (2 ∷ 3 ∷ []) 4 assoc-IsAssoc call_fill call_free (
      free_assoc_array_entry-FreesEntry assoc 4 (omega arith) (omega arith) refl (omega arith) refl
        (omega arith))

bucket_order : by_bucket assoc 100 (2 ∷ 3 ∷ 4 ∷ []) ≡ 2 ∷ 3 ∷ 4 ∷ []
unfolding hash32_str hash_str hash_32
bucket_order = refl

owns_all : OwnsBlocks (2 ∷ 3 ∷ 4 ∷ []) assoc
owns_all = record {
  proper = ground arith;
  given = ground arith;
  live = λ p o. refl;
  distinct = λ p. ground arith;
}

array_free-Freed_example :
    Returns
      (λ ret g. (ret ≡ 0) × FreedArray assoc 100 (2 ∷ 3 ∷ 4 ∷ []) g)
      (array_free call_fill call_free 4 100 assoc)
array_free-Freed_example =
    array_free-Freed call_fill call_free 100 0 OwnsBlocks free_assoc_array_entry-FreesEntries assoc
      (2 ∷ 3 ∷ 4 ∷ []) 4 assoc-IsAssoc refl (omega arith) (omega arith) refl (omega arith)
      (subst (λ es. OwnsBlocks es assoc) (sym bucket_order) owns_all)

array_del_last-newest_example :
    Returns
      (λ ret g. (ret ≡ 0) × IsAssoc g 100 (3 ∷ 4 ∷ []) × (g.tables.chains.node_live 2 ≡ false))
      (array_del_last call_fill call_free 100 assoc)
array_del_last-newest_example =
    array_del_last-newest assoc 100 2 (3 ∷ 4 ∷ []) assoc-IsAssoc call_fill call_free (
      free_assoc_array_entry-FreesEntry assoc 2 (omega arith) (omega arith) refl (omega arith) refl
        (omega arith))
