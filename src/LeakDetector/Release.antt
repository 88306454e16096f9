-- ===== src/LeakDetector/Release.antt =====
-- Giving blocks back, and moving them (`xfree`, `xrealloc`).
use hashtable_linux_kernel.Common.{
  ℕ, ◌≡◌, ◌≢◌, ◌⊎◌, inl, inr, refl, true, false, ◌==◌, List, [], ◌∷◌, ◌++◌, arith, ap, subst, sym,
  ◌∙◌, ◌∈◌, ◌∉◌, Returns, returns, Returns-inv, Returns-mono, ◌<◌, length,
}
use hashtable_linux_kernel.Links.{Addr, update}
use hashtable_linux_kernel.KList.Ring.{Ring-live}
use hashtable_linux_kernel.LeakDetector.{
  MemInfo, Leaks, xfree, xrealloc, realloc_heap, malloc_bytes, free_heap, remove_mem_info,
  file_name_length,
}
use hashtable_linux_kernel.LeakDetector.Valid.{
  Leak, nodes, IsDetector, IsFresh, used, AllStored-frame, Keeps-IsDetector, length-addresses,
}
use hashtable_linux_kernel.LeakDetector.Remove.{erase_first, remove_mem_info-Removed}
use hashtable_linux_kernel.LeakDetector.Track.{
  Tracks, without, addresses-erase_first, nodes-erase_first, count-without_le, count-without_same,
  recorded-Tracks,
}

-- `free` of a block that is no record.
abbrev dropped : Leaks → Addr → Leaks
dropped m p = record m {
  heap = update m.heap p false;
  links = record m.links { live = update m.links.live p false };
}

dropped-IsDetector :
    (m : Leaks) (rs : List Leak) (p : Addr)
    → p ∉ m.head ∷ nodes rs
    → IsDetector m rs
    → IsDetector (dropped m p) rs
dropped-IsDetector m rs p out is = record {
  fixed = record {
    head_live = ground (arith, is.fixed.head_live, out);
    static = ground (arith, is.fixed.static);
    null_live = ground (arith, is.fixed.null_live);
    null_heap = ground (arith, is.fixed.null_heap);
  };
  flag = is.flag;
  list =
      Ring-live m.links (update m.links.live p false) (m.head ∷ nodes rs)
        (λ a i. ground (arith, out, is.list.live a)) is.list;
  heap = λ a i. ground (arith, out, is.heap a);
  stored = AllStored-frame m (dropped m p) rs (λ a i. refl) is.stored;
}

module _ (m : Leaks) (bs : List Addr) (rs : List Leak) (tracks : Tracks m bs rs) (p : Addr)
    (mine : p ∈ bs) (fuel : ℕ) (enough : length bs < fuel) where
  used_detector : IsDetector m rs
  used_detector = Keeps-IsDetector m rs p tracks.keeps (subst (λ t. p ∈ t) (sym tracks.same) mine)

  -- When the record is gone and the block is not given back yet.
  abbrev Between : Leaks → Type 0
  Between g =
      IsDetector g (erase_first p rs)
      × (g.head ≡ m.head)
      × ((a : Addr) → a ∈ bs → g.heap a ≡ true)
      × ((a : Addr) → m.heap a ≡ false → g.heap a ≡ false)

  remove_mem_info-Between : Returns (λ _ g. Between g) (remove_mem_info fuel p m)
  remove_mem_info-Between =
      Returns-mono
        (remove_mem_info-Removed m rs p fuel used_detector
          (subst (λ n. n < fuel) (ap length (sym tracks.same) ∙ length-addresses rs) enough))
        (λ _ g r. (
          r.detector,
          r.head,
          λ a i. r.others a (omega (arith, tracks.apart a i)) ∙ tracks.owned a i,
          λ a dead. r.others a (ground (arith, used_detector.heap a, dead)) ∙ dead,
        ))

  given : (p == 0) ≡ false
  given = ground (arith, used_detector.fixed.null_heap, tracks.owned p mine)

  dropped-Tracks : (g : Leaks) → Between g → Tracks (dropped g p) (without p bs) (erase_first p rs)
  dropped-Tracks g (is, head, owned, _) = record {
    keeps = used (
        dropped-IsDetector g (erase_first p rs) p
          (rw head (omega (arith, tracks.apart p mine, nodes-erase_first p p rs))) is);
    same = addresses-erase_first p rs ∙ ap (without p) tracks.same;
    distinct = λ a. omega (arith, tracks.distinct a, count-without_le p a bs);
    owned = λ a i.
        ground (arith, owned a, count-without_le p a bs, count-without_same p bs tracks.distinct);
    apart = λ a i.
        rw head (ground (arith, tracks.apart a, count-without_le p a bs, nodes-erase_first p a rs));
  }

  -- `xfree` of a block of a program whose blocks the detector tracks, with fuel above their number,
  -- does not fault, and the detector then tracks the other blocks.
  pub xfree-Tracks : Returns (λ _ g. Tracks g (without p bs) (erase_first p rs)) (xfree fuel p m)
  unfolding xfree free_heap
  xfree-Tracks =
      let (_, g, run, between) = Returns-inv remove_mem_info-Between in
      rw (run, given, between.2 p mine) (returns (dropped-Tracks g between))

  dropped-IsFresh :
      (g : Leaks) → Between g → (a : Addr) → (a ≡ p) ⊎ IsFresh m a → IsFresh (dropped g p) a
  dropped-IsFresh g (is, head, owned, dead) a (inl e) = record {
    given = ground (arith, given);
    heap = ground arith;
    apart = rw head (ground (arith, tracks.apart p mine));
  }
  dropped-IsFresh g (is, head, owned, dead) a (inr new) = record {
    given = new.given;
    heap = ground (arith, dead a new.heap);
    apart = rw head new.apart;
  }

  module _ (moved fresh : Addr) (new : (moved ≡ p) ⊎ IsFresh m moved) (new_record : IsFresh m fresh)
      (apart : moved ≢ fresh) (stack : MemInfo) (file : List ℕ) (line : ℕ)
      (short : length file < file_name_length) (plain : 0 ∉ file) where
    -- `xrealloc` of a block of a program whose blocks the detector tracks, when the allocations are
    -- given and the fuel is above the number of the blocks, does not fault; the block stays or moves,
    -- its record goes, and a last record of the new size is added.
    pub xrealloc-Tracks :
        (size : ℕ)
        → Returns
            (λ q g.
              (q ≡ moved)
              × Tracks g (without p bs ++ moved ∷ []) (
                  erase_first p rs
                  ++ record {
                    node = fresh;
                    info = record { address = moved; size = size; file_name = file; line = line };
                  }
                    ∷ []))
            (xrealloc fuel moved fresh stack p size file line m)
    unfolding xrealloc realloc_heap free_heap malloc_bytes
    xrealloc-Tracks size =
        let (_, g, run, between) = Returns-inv remove_mem_info-Between in
        let new' = dropped-IsFresh g between moved new in
        let target : (moved == 0) ≡ false = ground (arith, new'.given) in
        let (_, h, add, t) = Returns-inv (
          recorded-Tracks (dropped g p) (without p bs) (erase_first p rs) (dropped-Tracks g between)
            moved fresh new' (dropped-IsFresh g between fresh (inr new_record)) apart stack file
            line short plain size) in
        rw (run, given, between.2 p mine, target, add) (returns (refl, t))
