-- ===== src/AssocArray/Add.antt =====
-- `array_add`: the new entry is the newest.
use hashtable_linux_kernel.Common.{
  ℕ, ◌+◌, ◌%◌, ◌^◌, ◌≡◌, ◌≢◌, ◌<◌, refl, ap, sym, ◌∙◌, subst, true, false, ◌==◌, List, ◌∷◌, arith,
  length, ◌∈◌, ◌∉◌, Cmd, ok, Returns, returns, Returns-inv, Bool-cases, inl, inr, some,
}
use hashtable_linux_kernel.Links.{Addr, null, update, Links}
use hashtable_linux_kernel.HLinks.{HLinks}
use hashtable_linux_kernel.KList.Ring.{IsList, Ring-live}
use hashtable_linux_kernel.KList.{k_list_add_tail}
use hashtable_linux_kernel.KList.Insert.{k_list_add_tail-IsList}
use hashtable_linux_kernel.Hash.{hash32_str}
use hashtable_linux_kernel.Hashtable.{hashtable_add, get_table, get_bits, hash_add_bits}
use hashtable_linux_kernel.Hashtable.Buckets.{IsTable, Outside, hash_add_bits-IsTable}
use hashtable_linux_kernel.Hashtable.Release.{IsTable-ext}
use hashtable_linux_kernel.World.{
  World, lnode, list_of, mark_entry, malloc_entry, get_fill_entry, get_ht, get_array_size,
  set_array_size,
}
use hashtable_linux_kernel.AssocArray.{array_add, increase_size, minus_one}
use hashtable_linux_kernel.AssocArray.Find.{key_of}
use hashtable_linux_kernel.AssocArray.Lookup.{hash32_str-some}
use hashtable_linux_kernel.AssocArray.Valid.{
  or_zero, IsAssoc-live, bucket_for, bucket_of, oldest_first, bits_of, IsAssoc, bucket_of-keys,
  IsTable-live,
}

-- Memory that `malloc` may give for an entry.
pub record Fresh (w : World) (e : Addr) : Type 0 where
  pub given : e ≢ null
  pub node : w.tables.chains.node_live e ≡ false
  pub head : w.tables.chains.head_live e ≡ false
  pub list : w.links.live (lnode e) ≡ false

-- What a function that fills an entry does: the entry has the key; the keys of the other entries, the
-- lists, the tables and the arrays are as before.
pub record Filled (e : Addr) (key : List ℕ) (w g : World) : Type 0 where
  pub own : key_of g e ≡ key
  pub others : (a : Addr) → w.tables.chains.node_live a ≡ true → a ≢ e → key_of g a ≡ key_of w a
  pub rest : g ≡ record w {
    key = g.key;
    key_size = g.key_size;
    data_of = g.data_of;
    block_live = g.block_live;
    bytes = g.bytes;
  }

module _ (w : World) (arr : Addr) (rs : List Addr) (is : IsAssoc w arr rs) (e : Addr)
    (fresh : Fresh w e) where
  bucket_live :
      (i : ℕ)
      → i < 2 ^ bits_of w arr
      → (a : Addr) → a ∈ bucket_of w (bits_of w arr) rs i
      → w.tables.chains.node_live a ≡ true
  bucket_live i lt a o = (is.array.table.chain i lt).nodes a o

  fresh-Outside :
      Outside (w.tables.table (w.ht arr)) (bits_of w arr) (bucket_of w (bits_of w arr) rs) e
  fresh-Outside i lt =
      let c = is.array.table.chain i lt in
      let not_node = c.nodes e in
      ground (arith, fresh.given, fresh.node, fresh.head, c.head, not_node)

  fresh_lnode : lnode e ∉ list_of arr ∷ oldest_first rs
  fresh_lnode = let in_list = is.list.live (lnode e) in ground (arith, in_list, fresh.list)

  module _ (g : World) (key : List ℕ) (filled : Filled e key (mark_entry e true w) g) where
    table_kept :
        IsTable g.tables.chains
          (w.tables.table (w.ht arr))
          (bits_of w arr)
          (bucket_of w (bits_of w arr) rs)
    table_kept =
        subst
          (λ (v : World).
            IsTable v.tables.chains (w.tables.table (w.ht arr)) (bits_of w arr)
              (bucket_of w (bits_of w arr) rs))
          (sym filled.rest)
          (IsTable-live w.tables.chains (update w.tables.chains.node_live e true) _ _ _
            (λ a o. ground arith) is.array.table)

    list_kept : IsList g.links (list_of arr) (oldest_first rs)
    list_kept =
        subst (λ (v : World). IsList v.links (list_of arr) (oldest_first rs)) (sym filled.rest)
          (Ring-live w.links (update w.links.live (lnode e) true) (list_of arr ∷ oldest_first rs)
            (λ a o. let old = is.list.live a o in ground arith) is.list)

    key_kept : (a : Addr) → a ∈ rs → key_of g a ≡ key_of w a
    key_kept a o =
        let live = IsAssoc-live w arr rs is a o in
        filled.others a (ground arith) (λ same. ground (arith, fresh.node, live))

    bucket_added :
        (h : ℕ)
        → hash32_str key ≡ some h
        → (i : ℕ)
        → update
            (bucket_of w (bits_of w arr) rs)
            (h % 2 ^ bits_of w arr)
            (e ∷ bucket_of w (bits_of w arr) rs (h % 2 ^ bits_of w arr))
            i
          ≡ bucket_of g (bits_of w arr) (e ∷ rs) i
    bucket_added h hash i =
        let bits = bits_of w arr in
        let b : bucket_for bits (key_of g e) ≡ h % 2 ^ bits =
          ap (bucket_for bits) filled.own ∙ ap (λ o. or_zero o % 2 ^ bits) hash in
        let rest = bucket_of-keys w g bits rs i key_kept in
        elim (Bool-cases (i == h % 2 ^ bits)) [
          | inl here ↦
              let at : i ≡ h % 2 ^ bits = ground arith in
              rw (b, here, rest) (ap (λ j. e ∷ bucket_of w bits rs j) (sym at))
          | inr there ↦ rw (b, there, rest) refl
        ]

    kept :
        {A : Type 0} (f : World → A)
        → f g
          ≡ f (record (mark_entry e true w) {
            key = g.key;
            key_size = g.key_size;
            data_of = g.data_of;
            block_live = g.block_live;
            bytes = g.bytes;
          })
    kept f = ap f filled.rest

    -- The memory after the entry is linked and counted.
    abbrev linked : HLinks → Links → World
    linked m l = record g {
      tables = record g.tables { chains = m };
      links = l;
      size = update g.size arr ((g.size arr + 1) % 2 ^ 64);
    }

    linked-IsAssoc :
        (m : HLinks) (l : Links)
        → length rs + 1 < 2 ^ 64
        → IsTable m
            (w.tables.table (w.ht arr))
            (bits_of w arr)
            (bucket_of g (bits_of w arr) (e ∷ rs))
        → IsList l (list_of arr) (oldest_first (e ∷ rs))
        → IsAssoc (linked m l) arr (e ∷ rs)
    linked-IsAssoc m l room table list = record {
      array = record {
        given = is.array.given;
        arr_live = kept (λ v. v.arr_live arr) ∙ is.array.arr_live;
        ht_live = kept (λ v. v.tables.ht_live (v.ht arr)) ∙ is.array.ht_live;
        few = subst (λ n. n < 31) (sym (kept (λ v. v.tables.bits (v.ht arr)))) is.array.few;
        table =
            subst
              (λ (v : World).
                IsTable m (v.tables.table (v.ht arr)) (v.tables.bits (v.ht arr))
                  (bucket_of g (v.tables.bits (v.ht arr)) (e ∷ rs)))
              (sym filled.rest) table;
      };
      list = list;
      size = ground (arith, kept (λ v. v.size arr), is.size);
    }

    add-ok :
        (call_fill : Addr → (entry data_ : Addr) → List ℕ → Cmd World ℕ)
        (call_free : Addr → Addr → Cmd World (Unit {0})) (data_ h : ℕ) (m : HLinks) (l : Links)
        → call_fill (w.fill_entry arr) e data_ key (mark_entry e true w) ≡ ok 0 g
        → hash32_str key ≡ some h
        → hash_add_bits (w.tables.table (w.ht arr)) (bits_of w arr) e h g.tables.chains ≡ ok tt m
        → k_list_add_tail (lnode e) (list_of arr) g.links ≡ ok tt l
        → array_add call_fill call_free e arr data_ key w ≡ ok 0 (linked m l)
    unfolding array_add malloc_entry get_fill_entry get_ht hashtable_add get_table get_bits
        increase_size get_array_size set_array_size
    add-ok call_fill call_free data_ h m l filling hash hashing listing =
        let given : (arr == 0) ≡ false = ground (arith, is.array.given) in
        let given' : (e == 0) ≡ false = ground (arith, fresh.given) in
        let arr_live : g.arr_live arr ≡ true = kept (λ v. v.arr_live arr) ∙ is.array.arr_live in
        let ht_live : g.tables.ht_live (g.ht arr) ≡ true =
          kept (λ v. v.tables.ht_live (v.ht arr)) ∙ is.array.ht_live in
        let hashing' : hash_add_bits (g.tables.table (g.ht arr)) (g.tables.bits (g.ht arr)) e h
              g.tables.chains
            ≡ ok tt m =
          kept (λ v.
            hash_add_bits (v.tables.table (v.ht arr)) (v.tables.bits (v.ht arr)) e h
              g.tables.chains)
          ∙ hashing in
        rw
          (
            given, given', given', is.array.arr_live, filling, hash, arr_live, ht_live, ht_live,
            hashing', listing, arr_live, arr_live,
          )
          refl

module _ (call_fill : Addr → (entry data_ : Addr) → List ℕ → Cmd World ℕ)
    (call_free : Addr → Addr → Cmd World (Unit {0})) (w : World) (arr : Addr) (rs : List Addr)
    (is : IsAssoc w arr rs) (e : Addr) (data_ : Addr) (key : List ℕ) where
  -- `array_add` with memory for the entry, and a function that fills it and returns 0, does not fault,
  -- returns 0, and makes the entry, with the given key, the newest of the array: the first of its bucket
  -- and the last of the list. The array has room for one more.
  pub array_add-IsAssoc :
      Fresh w e
      → length rs + 1 < 2 ^ 64
      → Returns
          (λ ret g. (ret ≡ 0) × Filled e key (mark_entry e true w) g)
          (call_fill (w.fill_entry arr) e data_ key (mark_entry e true w))
      → Returns
          (λ ret g. (ret ≡ 0) × IsAssoc g arr (e ∷ rs) × (key_of g e ≡ key))
          (array_add call_fill call_free e arr data_ key w)
  array_add-IsAssoc fresh room fills =
      let (ret, g, filling, (zero_ret, filled)) = Returns-inv fills in
      let (h, hash) = hash32_str-some key in
      let live : g.tables.chains.node_live e ≡ true =
        kept w arr rs is e fresh g key filled (λ v. v.tables.chains.node_live e) ∙ ground arith in
      let live' : g.links.live (lnode e) ≡ true =
        kept w arr rs is e fresh g key filled (λ v. v.links.live (lnode e)) ∙ ground arith in
      let (_, m, hashing, table) = Returns-inv (
        hash_add_bits-IsTable (table_kept w arr rs is e fresh g key filled) is.array.few e h
          (fresh-Outside w arr rs is e fresh) live) in
      let (_, l, listing, (list, _)) = Returns-inv (
        k_list_add_tail-IsList (lnode e) (list_kept w arr rs is e fresh g key filled)
          (fresh_lnode w arr rs is e fresh) live') in
      let table' = IsTable-ext (bucket_added w arr rs is e fresh g key filled h hash) table in
      let filling' = filling ∙ ap (λ n. ok n g) zero_ret in
      rw
        (add-ok w arr rs is e fresh g key filled call_fill call_free data_ h m l filling' hash
          hashing listing)
        (returns
          (refl, linked-IsAssoc w arr rs is e fresh g key filled m l room table' list, filled.own))

  -- `array_add` without memory for the entry returns -1 and changes nothing.
  pub array_add-null : array_add call_fill call_free null arr data_ key w ≡ ok minus_one w
  unfolding array_add malloc_entry
  array_add-null = let given : (arr == 0) ≡ false = ground (arith, is.array.given) in rw given refl
