-- ===== src/LeakDetector/Add.antt =====
-- Adding a record (`add`, `add_mem_info`).
use hashtable_linux_kernel.Common.{
  ℕ, ◌≡◌, refl, true, false, ◌==◌, if◌then◌else◌, Bool-cases, inl, inr, some, List, [], ◌∷◌, ◌++◌,
  arith, count, ap, subst, ◌∙◌, Returns-mono, count-append, ◌∉◌, Returns, returns, Returns-inv, ◌<◌,
  length,
}
use hashtable_linux_kernel.Links.{Addr, update, set_next, set_prev, get_prev}
use hashtable_linux_kernel.KList.{__list_add, k_list_add_tail}
use hashtable_linux_kernel.KList.Ring.{Ring-live}
use hashtable_linux_kernel.KList.Insert.{initialised, k_list_add_tail-IsList, initialised-IsList}
use hashtable_linux_kernel.LeakDetector.{
  MemInfo, Leaks, string_in, strcpy, strncpy, add, add_mem_info, copy_name, get_info, set_info,
  malloc_memleak, memleak_add_list_tail, __add_memleak_list, file_name_length, on_links,
}
use hashtable_linux_kernel.LeakDetector.Strings.{strcpy-string, string_in-strncpy}
use hashtable_linux_kernel.LeakDetector.Valid.{
  Leak, nodes, Stored, IsStatic, IsDetector, IsFresh, Keeps, used, unused, nodes-append,
  AllStored-append, AllStored-frame, Keeps-IsStatic, fresh-out,
}

-- The list functions are those of list.h.
memleak_add_list_tail-k_list :
    (new head : Addr) (m : Leaks)
    → memleak_add_list_tail new head m ≡ on_links (k_list_add_tail new head) m
unfolding memleak_add_list_tail __add_memleak_list k_list_add_tail __list_add get_prev set_next
    set_prev
memleak_add_list_tail-k_list new head m = ground arith

-- The memory with a new record that is in no list yet.
abbrev written : Leaks → Addr → MemInfo → List ℕ → Leaks
written m p info copy =
    let object = m.mem_info p in
    let one = record object { address = info.address } in
    let two = record one { size = info.size } in
    let three = record two { file_name = copy } in
    let four = record three { line = info.line } in
    record m {
      heap = update m.heap p true;
      links = record m.links { live = update m.links.live p true };
      mem_info = update (update (update (update m.mem_info p one) p two) p three) p four;
    }

-- The memory with the list made ready.
abbrev ready : Leaks → Leaks
ready m =
    if m.memleak_flag
    then m
    else record m { links = initialised m.links m.head; memleak_flag = true }

add-steps :
    (m : Leaks) (p : Addr) (info : MemInfo) (copy : List ℕ)
    → IsStatic m
    → IsFresh m p
    → strcpy (m.mem_info p).file_name info.file_name ≡ some copy
    → add p info m ≡ memleak_add_list_tail p m.head (ready (written m p info copy))
unfolding add get_info set_info malloc_memleak copy_name set_next set_prev
add-steps m p info copy fixed fresh e =
    let same : (p == p) ≡ true = ground arith in
    let given : (p == 0) ≡ false = ground (arith, fresh.given) in
    let other : (m.head == p) ≡ false = ground (arith, fresh.apart) in
    rw (given, same, same, same, same, same, e, same)
      (elim (Bool-cases m.memleak_flag) [
        | inl t ↦ rw (same, same, t) refl
        | inr f ↦ rw (same, same, f, other, fixed.head_live) (rw (other, fixed.head_live) refl)
      ])

written-IsStatic :
    (m : Leaks) (p : Addr) (info : MemInfo) (copy : List ℕ)
    → IsStatic m
    → IsFresh m p
    → IsStatic (written m p info copy)
written-IsStatic m p info copy fixed fresh = record {
  head_live = ground (arith, fixed.head_live);
  static = ground (arith, fixed.static, fresh.apart);
  null_live = ground (arith, fixed.null_live, fresh.given);
  null_heap = ground (arith, fixed.null_heap, fresh.given);
}

-- Linking in a node that is written already.
tail-IsDetector :
    (w : Leaks) (rs : List Leak) (p : Addr) (info : MemInfo)
    → IsDetector w rs
    → p ∉ w.head ∷ nodes rs
    → w.links.live p ≡ true
    → w.heap p ≡ true
    → Stored (w.mem_info p) info
    → Returns
        (λ _ g.
          IsDetector g (rs ++ record { node = p; info = info } ∷ [])
          × (g.heap ≡ w.heap)
          × (g.head ≡ w.head))
        (memleak_add_list_tail p w.head w)
tail-IsDetector w rs p info is out live heap stored =
    let new : Leak = record { node = p; info = info } in
    let (_, l, run, (list, same)) = Returns-inv (k_list_add_tail-IsList p is.list out live) in
    let g : Leaks = record w { links = l } in
    rw (memleak_add_list_tail-k_list p w.head w, run)
      (returns (
        record {
          fixed = record {
            head_live = rw (same.live w.head) is.fixed.head_live;
            static = is.fixed.static;
            null_live = rw (same.live 0) is.fixed.null_live;
            null_heap = is.fixed.null_heap;
          };
          flag = is.flag;
          list = rw (nodes-append rs (new ∷ [])) list;
          heap = λ a i. ground (
            arith,
            is.heap a,
            heap,
            ap (count a) (nodes-append rs (new ∷ [])),
            count-append a (nodes rs) (p ∷ []),
          );
          stored =
              AllStored-append g rs (new ∷ []) (AllStored-frame w g rs (λ a i. refl) is.stored)
                (stored, tt);
        },
        refl,
        refl,
      ))

-- The memory before the new record is linked in.
ready-IsDetector :
    (m : Leaks) (rs : List Leak) (p : Addr) (info : MemInfo) (copy : List ℕ)
    → Keeps m rs
    → IsFresh m p
    → IsDetector (ready (written m p info copy)) rs
ready-IsDetector m rs p info copy (used is) fresh =
    let fixed = written-IsStatic m p info copy is.fixed fresh in
    rw is.flag (record {
      fixed = record {
        head_live = fixed.head_live;
        static = fixed.static;
        null_live = fixed.null_live;
        null_heap = fixed.null_heap;
      };
      flag = refl;
      list =
          Ring-live m.links (update m.links.live p true) (m.head ∷ nodes rs)
            (λ a i. ground (arith, is.list.live a i)) is.list;
      heap = λ a i. ground (arith, is.heap a i);
      stored =
          AllStored-frame m (written m p info copy) rs
            (λ a i.
              (let other : (a == p) ≡ false = ground (arith, is.heap a i, fresh.heap) in
                rw other refl))
            is.stored;
    })
ready-IsDetector m rs p info copy (unused is) fresh =
    let fixed = written-IsStatic m p info copy is.fixed fresh in
    rw is.flag (record {
      fixed = record {
        head_live = fixed.head_live;
        static = fixed.static;
        null_live = fixed.null_live;
        null_heap = fixed.null_heap;
      };
      flag = refl;
      list =
          initialised-IsList (record m.links { live = update m.links.live p true }) m.head
            (ground (arith, is.fixed.head_live));
      heap = λ a i. absurd (omega arith);
      stored = tt;
    })

ready-heap : (m : Leaks) → ((ready m).heap ≡ m.heap) × ((ready m).head ≡ m.head)
ready-heap m = elim (Bool-cases m.memleak_flag) [
  | inl t ↦ rw t (refl, refl)
  | inr f ↦ rw f (refl, refl)
]

ready-object :
    (m : Leaks) → ((ready m).mem_info ≡ m.mem_info) × ((ready m).links.live ≡ m.links.live)
ready-object m = elim (Bool-cases m.memleak_flag) [
  | inl t ↦ rw t (refl, refl)
  | inr f ↦ rw f (refl, refl)
]

-- A record is kept: it is the last one, and its object is not free.
abbrev pub Kept : Leaks → List Leak → Addr → MemInfo → Unit {0} → Leaks → Type 0
Kept m rs p info _ g =
    IsDetector g (rs ++ record { node = p; info = info } ∷ [])
    × (g.heap ≡ update m.heap p true)
    × (g.head ≡ m.head)

module _ (m : Leaks) (rs : List Leak) (p : Addr) (keeps : Keeps m rs) (fresh : IsFresh m p) where
  add-Kept :
      (info : MemInfo) (name : List ℕ)
      → string_in info.file_name ≡ some name
      → Returns (Kept m rs p (record info { file_name = name })) (add p info m)
  add-Kept info name e =
      let (copy, run, ends) = strcpy-string (m.mem_info p).file_name info.file_name name e in
      let before = written m p info copy in
      let w = ready before in
      let (heap, head) = ready-heap before in
      let (object, live) = ready-object before in
      let same : (p == p) ≡ true = ground arith in
      let out : p ∉ w.head ∷ nodes rs =
        rw head (ground (arith, fresh.apart, fresh-out m rs p keeps fresh)) in
      let named : MemInfo = record info { file_name = name } in
      let tail =
        tail-IsDetector w rs p named (ready-IsDetector m rs p info copy keeps fresh) out
          (rw (live, same) refl) (rw (heap, same) refl)
          (rw (object, same) (record { address = refl; size = refl; line = refl; name = ends })) in
      rw (add-steps m p info copy (Keeps-IsStatic m rs keeps) fresh run) (
        subst (λ h. Returns (Kept m rs p named) (memleak_add_list_tail p h w)) head
          (Returns-mono tail (λ _ g k. (k.0, k.1 ∙ heap, k.2 ∙ head))))

  -- `add_mem_info`
  pub add_mem_info-Kept :
      (stack : MemInfo) (mem_ref : Addr) (size : ℕ) (file : List ℕ) (line : ℕ)
      → length file < file_name_length
      → 0 ∉ file
      → Returns
          (Kept m rs p (record { address = mem_ref; size = size; file_name = file; line = line }))
          (add_mem_info p stack mem_ref size file line m)
  unfolding add_mem_info
  add_mem_info-Kept stack mem_ref size file line short plain =
      add-Kept
        (record {
          address = mem_ref;
          size = size;
          file_name = strncpy stack.file_name file file_name_length;
          line = line;
        })
        file (string_in-strncpy file stack.file_name file_name_length short plain)
