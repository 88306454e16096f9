-- ===== src/Tests/Hashtables.antt =====
-- A memory with a table of two buckets, and the theorems of the hash table at it.
use hashtable_linux_kernel.Common.{ok}
use hashtable_linux_kernel.Common.{
  ℕ, zero, suc, ◌%◌, ◌^◌, ◌≡◌, ◌≢◌, ◌<◌, refl, true, false, ◌&&◌, ◌||◌, ltb, ◌==◌, if◌then◌else◌,
  List, [], ◌∷◌, arith, ◌∈◌, ◌∉◌, length, Returns, ok,
}
use hashtable_linux_kernel.Links.{Addr, null, update}
use hashtable_linux_kernel.HLinks.{HLinks}
use hashtable_linux_kernel.HList.Chain.{Chain, SameOutside}
use hashtable_linux_kernel.Hashtable.{bucket_at, hash_add_bits, hash_del, Tables, ht_create}
use hashtable_linux_kernel.Hashtable.Buckets.{
  IsTable, Outside, objects, hash_add_bits-IsTable, hash_del-IsTable,
}
use hashtable_linux_kernel.Hashtable.Create.{no_nodes, ht_create-IsTable}

-- The heads 16 and 24; the nodes 2 and 3 in bucket 0, 4 in bucket 1, and 5 in none.
abbrev pub chains : HLinks
chains = record {
  node_live = λ a. ltb 1 a && ltb a 6;
  head_live = λ a. a == 16 || a == 24;
  next = λ a. if a == 16 then 2 else if a == 2 then 3 else if a == 24 then 4 else 0;
  pprev = λ a. if a == 2 then 16 else if a == 3 then 2 else if a == 4 then 24 else 0;
}

abbrev pub buckets : ℕ → List Addr
buckets i = if i == 0 then 2 ∷ 3 ∷ [] else if i == 1 then 4 ∷ [] else []

chains-Chain : (i : ℕ) → i < 2 ^ 1 → Chain chains (bucket_at 16 i) (buckets i)
chains-Chain zero lt = record {
  seg = (refl, refl, (refl, refl, refl));
  distinct = λ a. ground arith;
  non_null = refl;
  nodes = λ a o. ground arith;
  head = refl;
}
chains-Chain (suc zero) lt = record {
  seg = (refl, refl, refl);
  distinct = λ a. ground arith;
  non_null = refl;
  nodes = λ a o. ground arith;
  head = refl;
}
chains-Chain (suc (suc i)) lt = absurd (omega arith)

chains-apart :
    (i j : ℕ)
    → i < 2 ^ 1
    → j < 2 ^ 1
    → i ≢ j
    → (a : Addr) → a ∈ objects 16 buckets i
    → a ∉ objects 16 buckets j
chains-apart zero zero lt lt' ne a o = absurd (ne refl)
chains-apart zero (suc zero) lt lt' ne a o = ground arith
chains-apart (suc zero) zero lt lt' ne a o = ground arith
chains-apart (suc zero) (suc zero) lt lt' ne a o = absurd (ne refl)
chains-apart (suc (suc i)) j lt lt' ne a o = absurd (omega arith)
chains-apart i (suc (suc j)) lt lt' ne a o = absurd (omega arith)

pub chains-IsTable : IsTable chains 16 1 buckets
chains-IsTable = record { chain = chains-Chain; apart = chains-apart }

five-Outside : Outside 16 1 buckets 5
five-Outside zero lt = refl
five-Outside (suc zero) lt = refl
five-Outside (suc (suc i)) lt = absurd (omega arith)

pub short : (i : ℕ) → i < 2 ^ 1 → length (buckets i) < 3
short zero lt = omega arith
short (suc zero) lt = omega arith
short (suc (suc i)) lt = absurd (omega arith)

hash_add_bits-IsTable_example :
    Returns
      (λ _ g. IsTable g 16 1 (update buckets (7 % 2 ^ 1) (5 ∷ buckets (7 % 2 ^ 1))))
      (hash_add_bits 16 1 5 7 chains)
hash_add_bits-IsTable_example =
    hash_add_bits-IsTable chains-IsTable (omega arith) 5 7 five-Outside refl

hash_del-IsTable_example :
    Returns
      (λ _ g.
        IsTable g 16 1 (update buckets 0 (2 ∷ []))
        × (g.pprev 3 ≡ null)
        × SameOutside (16 ∷ 2 ∷ 3 ∷ []) chains g)
      (hash_del 3 chains)
hash_del-IsTable_example =
    hash_del-IsTable chains-IsTable (omega arith) 0 (2 ∷ []) 3 [] (omega arith) refl

-- The table object 40 on these chains.
abbrev pub tables : Tables
tables = record {
  chains = chains;
  ht_live = λ a. a == 40;
  table = λ a. 16;
  bits = λ a. 1;
  block = λ a. if a == 16 then 2 else 0;
}

ht_create-IsTable_example :
    Returns
      (λ ht g.
        (ht ≡ 48)
        × (g.ht_live ht ≡ true)
        × (g.bits ht ≡ 4)
        × (g.table ht ≡ 64)
        × (g.block 64 ≡ 2 ^ 4)
        × IsTable g.chains 64 4 no_nodes)
      (ht_create 48 64 4 tables)
ht_create-IsTable_example =
    ht_create-IsTable tables 4 (omega arith) 48 (omega arith) 64 (omega arith)

-- A function that frees the object of a node.
abbrev free_node : Addr → Tables → Tables
free_node x w = record w {
  chains = record w.chains { node_live = update w.chains.node_live x false };
}
