-- ===== src/AssocArray/Release.antt =====
-- Freeing an array (`array_free`): `HT_FREE` over the array's memory.
use hashtable_linux_kernel.Common.{
  ℕ, zero, suc, ◌+◌, ◌^◌, ◌≡◌, ◌≢◌, ◌<◌, ◌≤◌, refl, ap, ◌∙◌, subst, Bool, true, false, ◌==◌, List,
  [], ◌∷◌, arith, ◌∈◌, ◌∉◌, count-append, Bool-cases, inl, inr, length, Cmd, ◌>>=◌, Returns,
  returns, Returns-inv, Returns-mono,
}
use hashtable_linux_kernel.Links.{Addr, null}
use hashtable_linux_kernel.Hashtable.{Tables, bucket_at}
use hashtable_linux_kernel.Hashtable.Callback.{TablesIn, FreesAll}
use hashtable_linux_kernel.Hashtable.Free.{ht_free-FreedIn}
use hashtable_linux_kernel.Hashtable.Rounds.{nodes_of}
use hashtable_linux_kernel.World.{World, with_tables, get_ht, get_free_entry, free_array}
use hashtable_linux_kernel.AssocArray.{array_free}
use hashtable_linux_kernel.AssocArray.Find.{key_of}
use hashtable_linux_kernel.AssocArray.Valid.{
  IsAssoc, bucket_of, bits_of, bucket_for, bucket_for-lt, bucket_of-mem,
}
use hashtable_linux_kernel.AssocArray.Delete.{FreedEntry}
use hashtable_linux_kernel.AssocArray.Remove.{bucket_of-part, length-bucket_of}

-- The tables of the array's memory.
abbrev world_tables : TablesIn World (λ A. with_tables {A = A})
world_tables = record {
  tables = λ w. w.tables;
  put = λ t w. record w { tables = t };
  runs = λ A c w a t e. rw e refl;
  tables-put = λ t w. refl;
  put-tables = λ w. refl;
}

-- A function frees the entries of a list one after the other: `Owned es w` says what it needs for that
-- in `w`, and does not depend on the tables.
pub record FreesEntries (free : Addr → Cmd World (Unit {0})) (Owned : List Addr → World → Type 0)
    : Type 0 where
  pub frees :
      (e : Addr) (es : List Addr) (w : World)
      → w.tables.chains.node_live e ≡ true
      → Owned (e ∷ es) w
      → Returns (λ _ g. FreedEntry e w g × Owned es g) (free e w)
  pub retabled :
      (es : List Addr) (w : World) (t : Tables) → Owned es w → Owned es (record w { tables = t })

-- The entries in the order of the buckets.
abbrev pub by_bucket : World → (arr : Addr) → List Addr → List Addr
by_bucket w arr rs = nodes_of (bucket_of w (bits_of w arr) rs) (2 ^ bits_of w arr) 0

-- The nodes of the rounds are the members of their buckets.
nodes_of-mem :
    (buckets : ℕ → List Addr) (a b n i : ℕ)
    → i ≤ b
    → b < n + i
    → a ∈ buckets b
    → a ∈ nodes_of buckets n i
nodes_of-mem buckets a b zero i low high here = absurd (omega arith)
nodes_of-mem buckets a b (suc n) i low high here =
    let split = count-append a (buckets i) (nodes_of buckets n (suc i)) in
    elim (Bool-cases (i == b)) [
      | inl e ↦
          let same : b ≡ i = ground arith in
          let first : a ∈ buckets i = subst (λ j. a ∈ buckets j) same here in
          omega (arith, split, first)
      | inr e ↦ omega (
        arith,
        split,
        nodes_of-mem buckets a b n (suc i) (ground (arith, low, e)) (omega (arith, high)) here,
      )
    ]

nodes_of-out :
    (buckets : ℕ → List Addr) (a n i : ℕ) → ((j : ℕ) → a ∉ buckets j) → a ∉ nodes_of buckets n i
nodes_of-out buckets a zero i out = refl
nodes_of-out buckets a (suc n) i out = omega (
  arith,
  out i,
  count-append a (buckets i) (nodes_of buckets n (suc i)),
  nodes_of-out buckets a n (suc i) out,
)

module _ (call_fill : Addr → (entry data_ : Addr) → List ℕ → Cmd World ℕ)
    (call_free : Addr → Addr → Cmd World (Unit {0})) (arr f : Addr)
    (Owned : List Addr → World → Type 0) (all : FreesEntries (call_free f) Owned)
    (live : Addr → Bool) (arr_given : live arr ≡ true) where
  -- What the loop over the table needs, and that the live arrays stay `live`.
  record Ready (es : List Addr) (w : World) : Type 0 where
    arrays : w.arr_live ≡ live
    free_entry : w.free_entry arr ≡ f
    owned : Owned es w

  abbrev free_func : Addr → Cmd World (Unit {0})
  free_func obj = get_free_entry arr >>= λ free_entry. call_free free_entry obj

  free_func-FreesAll : FreesAll World (λ A. with_tables {A = A}) world_tables free_func Ready
  unfolding get_free_entry
  free_func-FreesAll = record {
    frees = λ x xs w live ready.
        rw (ap (λ l. l arr) ready.arrays ∙ arr_given, ready.free_entry)
          (Returns-mono (all.frees x xs w live ready.owned) (λ _ g p. (
            p.0.tables,
            record {
              arrays = ap (λ v. v.arr_live) p.0.rest ∙ ready.arrays;
              free_entry = ap (λ v. v.free_entry arr) p.0.rest ∙ ready.free_entry;
              owned = p.1;
            },
          )));
    relinked = λ xs w m same ready. record {
      arrays = ready.arrays;
      free_entry = ready.free_entry;
      owned = all.retabled xs w (record w.tables { chains = m }) ready.owned;
    };
    after = λ w t ready. record {
      arrays = ready.arrays;
      free_entry = ready.free_entry;
      owned = all.retabled [] w t ready.owned;
    };
  }

-- What `array_free` has freed: the entries, the table with its object, its array of heads and every head,
-- and the array; no other entry, no other table and no other array.
pub record FreedArray (w : World) (arr : Addr) (rs : List Addr) (g : World) : Type 0 where
  pub entries : (a : Addr) → a ∈ rs → g.tables.chains.node_live a ≡ false
  pub other_entries :
      (a : Addr) → a ∉ rs → g.tables.chains.node_live a ≡ w.tables.chains.node_live a
  pub table : g.tables.ht_live (w.ht arr) ≡ false
  pub other_tables : (a : Addr) → a ≢ w.ht arr → g.tables.ht_live a ≡ w.tables.ht_live a
  pub block : g.tables.block (w.tables.table (w.ht arr)) ≡ 0
  pub heads :
      (j : ℕ)
      → j < 2 ^ bits_of w arr
      → g.tables.chains.head_live (bucket_at (w.tables.table (w.ht arr)) j) ≡ false
  pub array : g.arr_live arr ≡ false
  pub other_arrays : (a : Addr) → a ≢ arr → g.arr_live a ≡ w.arr_live a

module _ (call_fill : Addr → (entry data_ : Addr) → List ℕ → Cmd World ℕ)
    (call_free : Addr → Addr → Cmd World (Unit {0})) (arr f : Addr)
    (Owned : List Addr → World → Type 0) (all : FreesEntries (call_free f) Owned) where
  -- `array_free` of an array whose table and heads `malloc` gave, with more fuel than entries and a
  -- function that can free its entries one after the other, does not fault and returns 0: every entry is
  -- freed and no other, the table, its array of heads and the array are, and no other table or array.
  pub array_free-Freed :
      (w : World) (rs : List Addr) (fuel : ℕ)
      → IsAssoc w arr rs
      → w.free_entry arr ≡ f
      → w.ht arr ≢ null
      → w.tables.table (w.ht arr) ≢ null
      → w.tables.block (w.tables.table (w.ht arr)) ≡ 2 ^ bits_of w arr
      → length rs < fuel
      → Owned (by_bucket w arr rs) w
      → Returns
          (λ ret g. (ret ≡ 0) × FreedArray w arr rs g)
          (array_free call_fill call_free fuel arr w)
  unfolding array_free get_ht free_array
  array_free-Freed w rs fuel is same proper proper' given enough owned =
      let bits = bits_of w arr in
      let buckets = bucket_of w bits rs in
      let some : (arr == 0) ≡ false = ground (arith, is.array.given) in
      let arr_live = is.array.arr_live in
      let (_, g, run, (freed, ready)) = Returns-inv (
        ht_free-FreedIn World (λ A. with_tables {A = A}) world_tables
          (free_func call_fill call_free arr f Owned all w.arr_live arr_live)
          (Ready call_fill call_free arr f Owned all w.arr_live arr_live)
          (free_func-FreesAll call_fill call_free arr f Owned all w.arr_live arr_live) fuel w
          (w.ht arr) buckets is.array.ht_live proper proper' is.array.few given is.array.table
          (λ j lt. omega (arith, length-bucket_of w bits rs j))
          (record { arrays = refl; free_entry = same; owned = owned })) in
      let kept : (a : Addr) → g.arr_live a ≡ w.arr_live a = λ a. ap (λ l. l a) ready.arrays in
      rw (some, arr_live, run, some, kept arr, arr_live)
        (returns (
          refl,
          record {
            entries = λ a o. freed.nodes a (
                nodes_of-mem buckets a (bucket_for bits (key_of w a)) (2 ^ bits) 0 (omega arith)
                  (omega (arith, bucket_for-lt bits (key_of w a))) (bucket_of-mem w bits rs a o));
            other_entries = λ a o. freed.kept a (
                nodes_of-out buckets a (2 ^ bits) 0
                  (λ j. omega (arith, o, bucket_of-part w bits rs j a)));
            table = freed.ht_live;
            other_tables = freed.others;
            block = freed.block;
            heads = freed.heads;
            array = ground arith;
            other_arrays = λ a ne. ground (arith, kept a);
          },
        ))
