-- ===== src/Hashtable/Clear.antt =====
-- `CLEAR_HASHTABLE_BITS`: every node is taken out and freed, once.
use hashtable_linux_kernel.Common.{
  ℕ, zero, suc, ◌+◌, ◌^◌, ◌≡◌, ◌≢◌, ◌<◌, ◌≤◌, refl, ap, ◌∙◌, sym, subst, true, false, ltb, List, [],
  ◌∷◌, arith, ◌∈◌, ◌∉◌, Cmd, ok, Returns, returns, Returns-mono, Returns-inv, ◌==◌, is_zero, length,
  Bool-cases, inl, inr, ◌++◌, count-append,
}
use hashtable_linux_kernel.Links.{Addr, update}
use hashtable_linux_kernel.HLinks.{HLinks, get_first, get_hnext}
use hashtable_linux_kernel.HList.{hlist_for_each_safe_from}
use hashtable_linux_kernel.HList.Chain.{Chain, HSeg}
use hashtable_linux_kernel.Hashtable.{
  bucket_at, Tables, hash_del, with_chains, clear_one, clear_from, clear_hashtable_bits, shift_one,
}
use hashtable_linux_kernel.Hashtable.Buckets.{IsTable, objects, update-same, hash_del-IsTable}
use hashtable_linux_kernel.Hashtable.Rounds.{
  update-nil, update-at, emptied, nodes_of, emptied-zero, emptied-suc, nodes_of-update,
}
use hashtable_linux_kernel.Hashtable.Release.{Released, IsTable-ext, Released-IsTable}
use hashtable_linux_kernel.Hashtable.Callback.{TablesIn, reads, FreesAll}

-- The nodes `xs` are freed; everything but the chains is as before, and no other node is freed.
pub record Gone (xs : List Addr) (w g : Tables) : Type 0 where
  pub gone : (a : Addr) → a ∈ xs → g.chains.node_live a ≡ false
  pub kept : (a : Addr) → a ∉ xs → g.chains.node_live a ≡ w.chains.node_live a
  pub rest : g ≡ record w { chains = g.chains }

abbrev rechained : HLinks → Tables → Tables
rechained m w = record w { chains = m }

-- The pointer behind `p` depends on the nodes alone.
HSeg-next :
    (m g : HLinks) (p q : Addr) (xs : List Addr) → HSeg m p xs → HSeg g q xs → m.next p ≡ g.next q
HSeg-next m g p q [] s t = s ∙ sym t
HSeg-next m g p q (x ∷ xs) s t = s.0 ∙ sym t.0

Gone-trans : (xs ys : List Addr) (w u g : Tables) → Gone xs w u → Gone ys u g → Gone (xs ++ ys) w g
Gone-trans xs ys w u g p q = record {
  gone = λ a o. ground (arith, count-append a xs ys, p.gone a, q.gone a, q.kept a);
  kept = λ a o. ground (arith, count-append a xs ys, p.kept a, q.kept a);
  rest = q.rest ∙ ap (rechained g.chains) p.rest;
}

module _ (table bits : ℕ) (few : bits < 31) where
  -- The first node of a bucket is in no bucket once it is taken out.
  taken-out :
      (m : HLinks) (buckets : ℕ → List Addr) (b : ℕ) (x : Addr) (xs : List Addr)
      → b < 2 ^ bits
      → IsTable m table bits buckets
      → buckets b ≡ x ∷ xs
      → (i : ℕ) → i < 2 ^ bits
      → x ∉ objects table (update buckets b xs) i
  taken-out m buckets b x xs small is at i lt =
      let c : Chain m (bucket_at table b) (x ∷ xs) =
        subst (Chain m (bucket_at table b)) at (is.chain b small) in
      let here : x ∈ objects table buckets b = rw at (ground arith) in
      elim (Bool-cases (i == b)) [
        | inl e ↦ let same : i ≡ b = ground arith in ground (arith, e, c.distinct x)
        | inr e ↦
            let other : b ≢ i = ground arith in
            ground (arith, e, is.apart b i small lt other x here)
      ]

module _ (S : Type 0) (on_tables : (A : Type 0) → Cmd Tables A → Cmd S A)
    (part : TablesIn S on_tables) (free_func : Addr → Cmd S (Unit {0}))
    (Ready : List Addr → S → Type 0) (all : FreesAll S on_tables part free_func Ready)
    (table bits : ℕ) (few : bits < 31) where
  -- One round at the first node of a bucket.
  one-round :
      (w : S) (buckets : ℕ → List Addr) (b : ℕ) (x : Addr) (xs later : List Addr)
      → b < 2 ^ bits
      → IsTable (part.tables w).chains table bits buckets
      → buckets b ≡ x ∷ xs
      → Ready (x ∷ later) w
      → Returns
          (λ _ g.
            IsTable (part.tables g).chains table bits (update buckets b xs)
            × Gone (x ∷ []) (part.tables w) (part.tables g)
            × Ready later g)
          (clear_one S on_tables free_func x tt w)
  unfolding clear_one
  one-round w buckets b x xs later small is at ready =
      let t = part.tables w in
      let c : Chain t.chains (bucket_at table b) (x ∷ xs) =
        subst (Chain t.chains (bucket_at table b)) at (is.chain b small) in
      let (_, m, e, (is', _, same)) = Returns-inv (hash_del-IsTable is few b [] x xs small at) in
      let t' : Tables = record t { chains = m } in
      let run : with_chains (hash_del x) t ≡ ok tt t' = rw e refl in
      let here = part.tables-put t' w in
      let live : (part.tables (part.put t' w)).chains.node_live x ≡ true =
        rw here (ground (arith, same.node_live x, c.nodes x)) in
      let freeing =
        all.frees x later (part.put t' w) live
          (all.relinked (x ∷ later) w m same.node_live ready) in
      rw (part.runs (Unit {0}) (with_chains (hash_del x)) w tt t' run) (
        Returns-mono freeing (λ _ g p.
          let r : Released x t' (part.tables g) =
            subst (λ u. Released x u (part.tables g)) here p.0 in
          (
            Released-IsTable r (taken-out table bits few t.chains buckets b x xs small is at) is',
            record {
              gone = λ a o. ground (arith, r.node_live a);
              kept = λ a o. ground (arith, r.node_live a, same.node_live a);
              rest = r.rest;
            },
            p.1,
          )))

  -- What the loop reads.
  read_first :
      (w : S) (h : Addr)
      → (part.tables w).chains.head_live h ≡ true
      → on_tables Addr (with_chains (get_first h)) w ≡ ok ((part.tables w).chains.next h) w
  unfolding get_first
  read_first w h live = reads S on_tables part Addr (with_chains (get_first h)) w _ (rw live refl)

  read_next :
      (w : S) (x : Addr)
      → (part.tables w).chains.node_live x ≡ true
      → on_tables Addr (with_chains (get_hnext x)) w ≡ ok ((part.tables w).chains.next x) w
  unfolding get_hnext
  read_next w x live = reads S on_tables part Addr (with_chains (get_hnext x)) w _ (rw live refl)

  -- The loop over one bucket.
  one-bucket :
      (fuel : ℕ) (w : S) (buckets : ℕ → List Addr) (b : ℕ) (xs later : List Addr)
      → b < 2 ^ bits
      → IsTable (part.tables w).chains table bits buckets
      → buckets b ≡ xs
      → length xs < fuel
      → Ready (xs ++ later) w
      → Returns
          (λ _ g.
            IsTable (part.tables g).chains table bits (update buckets b [])
            × Gone xs (part.tables w) (part.tables g)
            × Ready later g)
          (hlist_for_each_safe_from
            (λ p. on_tables _ (with_chains (get_hnext p)))
            (clear_one S on_tables free_func)
            fuel
            ((part.tables w).chains.next (bucket_at table b))
            tt
            w)
  unfolding hlist_for_each_safe_from
  one-bucket zero w buckets b xs later small is at enough ready = absurd (omega arith)
  one-bucket (suc fuel) w buckets b [] later small is at enough ready =
      let c : Chain (part.tables w).chains (bucket_at table b) [] =
        subst (Chain (part.tables w).chains (bucket_at table b)) at (is.chain b small) in
      rw c.seg (
        returns (
          IsTable-ext (update-at buckets b at) is,
          record { gone = λ a o. absurd (omega arith); kept = λ a o. refl; rest = refl },
          ready,
        ))
  one-bucket (suc fuel) w buckets b (x ∷ xs) later small is at enough ready =
      let m = (part.tables w).chains in
      let c : Chain m (bucket_at table b) (x ∷ xs) =
        subst (Chain m (bucket_at table b)) at (is.chain b small) in
      let more : is_zero x ≡ false = ground (arith, c.non_null) in
      let (_, u, e, (is', gone, ready')) =
        Returns-inv (one-round w buckets b x xs (xs ++ later) small is at ready) in
      let c' : Chain (part.tables u).chains (bucket_at table b) xs =
        subst (Chain (part.tables u).chains (bucket_at table b)) (update-same buckets b xs)
          (is'.chain b small) in
      let next = HSeg-next m (part.tables u).chains x (bucket_at table b) xs c.seg.2 c'.seg in
      let rest =
        one-bucket fuel u (update buckets b xs) b xs later small is' (update-same buckets b xs)
          (omega arith) ready' in
      rw (c.seg.0, more, read_next w x (c.nodes x (ground arith)), e, next)
        (Returns-mono rest (λ _ g p. (
          IsTable-ext (update-nil buckets b xs) p.0,
          Gone-trans (x ∷ []) xs (part.tables w) (part.tables u) (part.tables g) gone p.1,
          p.2,
        )))

  module _ (fuel : ℕ) where
    enough-update :
        (buckets : ℕ → List Addr) (i : ℕ)
        → ((j : ℕ) → j < 2 ^ bits → length (buckets j) < fuel)
        → (j : ℕ) → j < 2 ^ bits
        → length (update buckets i [] j) < fuel
    enough-update buckets i enough j lt = elim (Bool-cases (j == i)) [
      | inl e ↦ let more = enough j lt in rw e (omega arith)
      | inr e ↦ rw e (enough j lt)
    ]

    from-Gone :
        (n i : ℕ) (w : S) (buckets : ℕ → List Addr)
        → n + i ≤ 2 ^ bits
        → IsTable (part.tables w).chains table bits buckets
        → ((j : ℕ) → j < 2 ^ bits → length (buckets j) < fuel)
        → Ready (nodes_of buckets n i) w
        → Returns
            (λ _ g.
              IsTable (part.tables g).chains table bits (emptied buckets n i)
              × Gone (nodes_of buckets n i) (part.tables w) (part.tables g)
              × Ready [] g)
            (clear_from S on_tables free_func fuel n i table w)
    unfolding clear_from
    from-Gone zero i w buckets fits is enough ready = returns (
      IsTable-ext (emptied-zero buckets i) is,
      record { gone = λ a o. absurd (omega arith); kept = λ a o. refl; rest = refl },
      ready,
    )
    from-Gone (suc n) i w buckets fits is enough ready =
        let small : i < 2 ^ bits = omega arith in
        let c = is.chain i small in
        let (_, u, e, (is', gone, ready')) = Returns-inv (
          one-bucket fuel w buckets i (buckets i) (nodes_of buckets n (suc i)) small is refl
            (enough i small) ready) in
        let same = nodes_of-update buckets i n (suc i) (omega arith) in
        let rest =
          from-Gone n (suc i) u (update buckets i []) (omega arith) is'
            (enough-update buckets i enough) (subst (λ t. Ready t u) (sym same) ready') in
        rw (read_first w (bucket_at table i) c.head, e)
          (Returns-mono rest (λ _ g p. (
            IsTable-ext (emptied-suc buckets n i) p.0,
            Gone-trans (buckets i) (nodes_of buckets n (suc i)) (part.tables w) (part.tables u)
                (part.tables g) gone (subst (λ t. Gone t (part.tables u) (part.tables g)) same p.1),
            p.2,
          )))

    -- `CLEAR_HASHTABLE_BITS` with a function that frees the objects of the table's nodes one after the
    -- other, and with more fuel than any bucket has nodes, ends without a fault: every bucket is empty,
    -- every node of the table is freed, no other node is, and nothing but the chains of the tables
    -- changes.
    pub clear_hashtable_bits-Gone :
        (w : S) (buckets : ℕ → List Addr)
        → IsTable (part.tables w).chains table bits buckets
        → ((j : ℕ) → j < 2 ^ bits → length (buckets j) < fuel)
        → Ready (nodes_of buckets (2 ^ bits) 0) w
        → Returns
            (λ _ g.
              ((j : ℕ) → j < 2 ^ bits → Chain (part.tables g).chains (bucket_at table j) [])
              × Gone (nodes_of buckets (2 ^ bits) 0) (part.tables w) (part.tables g)
              × Ready [] g)
            (clear_hashtable_bits S on_tables free_func fuel table bits w)
    unfolding clear_hashtable_bits shift_one
    clear_hashtable_bits-Gone w buckets is enough ready =
        let defined : ltb bits 31 ≡ true = ground arith in
        let size = reads S on_tables part ℕ (shift_one bits) w (2 ^ bits) (rw defined refl) in
        rw size (
          Returns-mono (from-Gone (2 ^ bits) 0 w buckets (omega arith) is enough ready) (λ _ g p. (
            λ j lt.
                let inside : ltb j (2 ^ bits + 0) ≡ true = ground arith in
                let low : ltb j 0 ≡ false = ground arith in
                let nil : emptied buckets (2 ^ bits) 0 j ≡ [] = rw (low, inside) refl in
                subst (Chain (part.tables g).chains (bucket_at table j)) nil (p.0.chain j lt),
            p.1,
            p.2,
          )))
