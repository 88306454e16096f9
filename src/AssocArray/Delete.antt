-- ===== src/AssocArray/Delete.antt =====
-- Taking an entry out of the array (`delete_entry`, the common part of `array_del` and
-- `_array_del_first`).
use hashtable_linux_kernel.Common.{
  ℕ, ◌+◌, ◌-◌, ◌*◌, ◌^◌, ◌≡◌, ◌≢◌, ◌<◌, ap, sym, ◌∙◌, subst, true, false, ◌==◌, if◌then◌else◌, List,
  ◌∷◌, ◌++◌, arith, length-append, ◌∈◌, ◌∉◌, count-append, Cmd, Returns, returns, Returns-inv,
}
use hashtable_linux_kernel.Links.{Addr, update, Links}
use hashtable_linux_kernel.HLinks.{HLinks}
use hashtable_linux_kernel.HList.{hlist_del}
use hashtable_linux_kernel.HList.Chain.{SameOutside}
use hashtable_linux_kernel.KList.Ring.{IsList, Ring-live}
use hashtable_linux_kernel.KList.Delete.{k_list_del-IsList}
use hashtable_linux_kernel.Hashtable.{Tables}
use hashtable_linux_kernel.Hashtable.Buckets.{IsTable, hlist_del-IsTable, removed-out}
use hashtable_linux_kernel.Hashtable.Release.{Released, Released-IsTable, IsTable-ext}
use hashtable_linux_kernel.World.{
  World, lnode, list_of, get_free_entry, get_array_size, set_array_size,
}
use hashtable_linux_kernel.AssocArray.{delete_entry, decrease_size}
use hashtable_linux_kernel.AssocArray.Find.{key_of}
use hashtable_linux_kernel.AssocArray.Valid.{
  bucket_for, bucket_for-lt, bucket_of, bucket_of-keys, oldest_first, bits_of, IsAssoc,
  IsAssoc-live, count-oldest_first,
}
use hashtable_linux_kernel.AssocArray.Split.{
  bucket_of-split, bucket_of-without, oldest_first-append, oldest_first-split,
}

-- What a function that frees an entry does: its object is given back; the keys of the other entries,
-- the links, the other tables and the arrays are as before.
pub record FreedEntry (e : Addr) (w g : World) : Type 0 where
  pub tables : Released e w.tables g.tables
  pub links : g.links ≡ record w.links { live = update w.links.live (lnode e) false }
  pub keys : (a : Addr) → w.tables.chains.node_live a ≡ true → a ≢ e → key_of g a ≡ key_of w a
  pub rest : g ≡ record w {
    tables = g.tables;
    links = g.links;
    key = g.key;
    key_size = g.key_size;
    data_of = g.data_of;
    block_live = g.block_live;
    bytes = g.bytes;
  }

-- The memory when an entry is in no list any more.
abbrev pub unlinked_world : World → HLinks → Links → World
unlinked_world w m l = record w { tables = record w.tables { chains = m }; links = l }

-- The function frees the entry `e` of `w`, once it is in no list.
abbrev pub FreesEntry : World → (Addr → Cmd World (Unit {0})) → Addr → Type 0
FreesEntry w free_entry e =
    (m : HLinks) (l : Links)
    → m.node_live e ≡ true
    → l.live (lnode e) ≡ true
    → Returns (λ _ g. FreedEntry e (unlinked_world w m l) g) (free_entry e (unlinked_world w m l))

module _ (w : World) (arr : Addr) (front : List Addr) (e : Addr) (back : List Addr)
    (is : IsAssoc w arr (front ++ e ∷ back)) where
  abbrev bits : ℕ
  bits = bits_of w arr

  abbrev own : ℕ
  own = bucket_for bits (key_of w e)

  abbrev table_at : Addr
  table_at = w.tables.table (w.ht arr)

  in_list : IsList w.links (list_of arr) (oldest_first back ++ lnode e ∷ oldest_first front)
  in_list = subst (IsList w.links (list_of arr)) (oldest_first-split front e back) is.list

  -- No entry stands in the array twice.
  once : e ∉ front ++ back
  once =
      let dist = in_list.distinct (lnode e) in
      ground (
        arith,
        count-append (lnode e) (oldest_first back) (lnode e ∷ oldest_first front),
        count-oldest_first e front,
        count-oldest_first e back,
        count-append e front back,
      )

  unlinked :
      Returns
        (λ _ m.
          IsTable m table_at bits (
            update
              (bucket_of w bits (front ++ e ∷ back))
              own
              (bucket_of w bits front own ++ bucket_of w bits back own))
          × SameOutside
              ((table_at + 8 * own) ∷ bucket_of w bits front own ++ e ∷ bucket_of w bits back own)
              w.tables.chains
              m)
        (hlist_del e w.tables.chains)
  unlinked =
      hlist_del-IsTable is.array.table is.array.few own (bucket_of w bits front own) e
        (bucket_of w bits back own) (bucket_for-lt bits (key_of w e))
        (bucket_of-split w bits front e back)

  old_live : (a : Addr) → a ∈ front ++ back → w.tables.chains.node_live a ≡ true
  old_live a o =
      IsAssoc-live w arr (front ++ e ∷ back) is a
        (omega (arith, o, count-append a front back, count-append a front (e ∷ back)))

  own_live : w.tables.chains.node_live e ≡ true
  own_live =
      IsAssoc-live w arr (front ++ e ∷ back) is e (ground (arith, count-append e front (e ∷ back)))

  module _ (m : HLinks) (l : Links) (g : World)
      (table : IsTable m table_at bits (
        update
          (bucket_of w bits (front ++ e ∷ back))
          own
          (bucket_of w bits front own ++ bucket_of w bits back own)))
      (nodes : (a : Addr) → m.node_live a ≡ w.tables.chains.node_live a)
      (list : IsList l (list_of arr) (oldest_first back ++ oldest_first front))
      (freed : FreedEntry e (unlinked_world w m l) g) where
    ht_kept : g.ht arr ≡ w.ht arr
    ht_kept = ap (λ v. v.ht arr) freed.rest

    member_kept :
        {A : Type 0} (f : Tables → A)
        → f g.tables ≡ f (record w.tables { chains = g.tables.chains })
    member_kept f = ap f freed.tables.rest

    key_kept : (a : Addr) → a ∈ front ++ back → key_of g a ≡ key_of w a
    key_kept a o =
        freed.keys a (ground (arith, nodes a, old_live a o)) (λ same. ground (arith, once))

    buckets_left :
        (i : ℕ)
        → update
            (bucket_of w bits (front ++ e ∷ back))
            own
            (bucket_of w bits front own ++ bucket_of w bits back own)
            i
          ≡ bucket_of g bits (front ++ back) i
    buckets_left i =
        bucket_of-without w bits front e back i
        ∙ sym (bucket_of-keys w g bits (front ++ back) i key_kept)

    table_left : IsTable g.tables.chains table_at bits (bucket_of g bits (front ++ back))
    table_left = IsTable-ext buckets_left (
        Released-IsTable freed.tables
          (removed-out is.array.table is.array.few own (bucket_of w bits front own) e
            (bucket_of w bits back own) (bucket_for-lt bits (key_of w e))
            (bucket_of-split w bits front e back))
          table)

    list_left : IsList g.links (list_of arr) (oldest_first (front ++ back))
    list_left =
        let shape = oldest_first-append front back in
        let number = count-append (lnode e) (oldest_first back) (oldest_first front) in
        let number' = count-append (lnode e) (oldest_first back) (lnode e ∷ oldest_first front) in
        let out : lnode e ∉ list_of arr ∷ oldest_first back ++ oldest_first front =
          ground (arith, in_list.distinct (lnode e)) in
        rw shape (
          subst (λ k. IsList k (list_of arr) (oldest_first back ++ oldest_first front))
            (sym freed.links)
            (Ring-live l (update l.live (lnode e) false)
              (list_of arr ∷ oldest_first back ++ oldest_first front)
              (λ a o. let old = list.live a o in ground arith) list))

    bits_kept : g.tables.bits (g.ht arr) ≡ bits
    bits_kept = ap g.tables.bits ht_kept ∙ member_kept (λ t. t.bits (w.ht arr))

    table_kept : g.tables.table (g.ht arr) ≡ table_at
    table_kept = ap g.tables.table ht_kept ∙ member_kept (λ t. t.table (w.ht arr))

    -- The memory when the entry is counted no more.
    abbrev deleted : World
    deleted = record g {
      size = update g.size arr (if g.size arr == 0 then 2 ^ 64 - 1 else g.size arr - 1);
    }

    deleted-IsAssoc : IsAssoc deleted arr (front ++ back)
    deleted-IsAssoc = record {
      array = record {
        given = is.array.given;
        arr_live = ap (λ v. v.arr_live arr) freed.rest ∙ is.array.arr_live;
        ht_live =
            ap g.tables.ht_live ht_kept
            ∙ member_kept (λ t. t.ht_live (w.ht arr))
            ∙ is.array.ht_live;
        few = subst (λ n. n < 31) (sym bits_kept) is.array.few;
        table =
            subst
              (λ t.
                IsTable g.tables.chains t (g.tables.bits (g.ht arr))
                  (bucket_of g (g.tables.bits (g.ht arr)) (front ++ back)))
              (sym table_kept)
              (subst (λ n. IsTable g.tables.chains table_at n (bucket_of g n (front ++ back)))
                (sym bits_kept) table_left);
      };
      list = list_left;
      size = ground (
        arith,
        ap (λ v. v.size arr) freed.rest,
        is.size,
        length-append front (e ∷ back),
        length-append front back,
      );
    }

  module _ (call_fill : Addr → (entry data_ : Addr) → List ℕ → Cmd World ℕ)
      (call_free : Addr → Addr → Cmd World (Unit {0}))
      (frees : FreesEntry w (call_free (w.free_entry arr)) e) where
    -- The array without a given entry: `delete_entry` does not fault, takes the entry out of its bucket
    -- and of the list, frees it, and keeps the other entries in their order.
    pub delete_entry-IsAssoc :
        Returns
          (λ _ g. IsAssoc g arr (front ++ back) × (g.tables.chains.node_live e ≡ false))
          (delete_entry call_fill call_free arr e w)
    unfolding delete_entry get_free_entry decrease_size get_array_size set_array_size
    delete_entry-IsAssoc =
        let (_, m, hunlinking, (table, same)) = Returns-inv unlinked in
        let (_, l, unlinking, (list, _, _, same')) =
          Returns-inv
            (k_list_del-IsList (oldest_first back) (lnode e) (oldest_first front) in_list) in
        let in_oldest = count-append (lnode e) (oldest_first back) (lnode e ∷ oldest_first front) in
        let lnode_live : w.links.live (lnode e) ≡ true = in_list.live (lnode e) (ground arith) in
        let (_, g, freeing, freed) = Returns-inv (
          frees m l (ground (arith, same.node_live e, own_live))
            (ground (arith, same'.live (lnode e), lnode_live))) in
        let arr_live : g.arr_live arr ≡ true =
          ap (λ v. v.arr_live arr) freed.rest ∙ is.array.arr_live in
        rw (hunlinking, unlinking, is.array.arr_live, freeing, arr_live, arr_live)
          (returns (
            deleted-IsAssoc m l g table same.node_live list freed,
            ground (arith, freed.tables.node_live e),
          ))
