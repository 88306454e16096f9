-- ===== src/LeakDetector/Reach.antt =====
-- The runs of a program that allocates and frees by the functions of the leak detector alone.
use hashtable_linux_kernel.Common.{
  ℕ, suc, ◌≡◌, ◌≢◌, refl, ◌⊎◌, Bool, true, if◌then◌else◌, is_nil, zero, List, [], ◌∷◌, ◌++◌, arith,
  ap, subst, sym, ◌∈◌, ◌∉◌, Returns, Returns-ok, Run, ok, fault, ◌<◌, length,
}
use hashtable_linux_kernel.Links.{Addr}
use hashtable_linux_kernel.LeakDetector.{
  MemInfo, Leaks, xmalloc, xcalloc, xfree, xrealloc, report_mem_leak, file_name_length,
}
use hashtable_linux_kernel.LeakDetector.Valid.{
  length-addresses, Leak, addresses, IsUnused, IsDetector, IsFresh, Keeps, used, unused,
}
use hashtable_linux_kernel.LeakDetector.Track.{Tracks, without, xmalloc-Tracks, xcalloc-Tracks}
use hashtable_linux_kernel.LeakDetector.Release.{xfree-Tracks, xrealloc-Tracks}
use hashtable_linux_kernel.LeakDetector.Report.{report_mem_leak-fault, report_mem_leak-none}

-- What `malloc` returns for a block and for its record, and the name of the file of the call.
pub record IsCall (m : Leaks) (ptr fresh : Addr) (file : List ℕ) : Type 0 where
  pub fresh_record : IsFresh m fresh
  pub apart : ptr ≢ fresh
  pub short : length file < file_name_length
  pub plain : 0 ∉ file

-- `Reach bs m`: a run from a detector not in use may come to `m` and own the blocks `bs` there.
pub data Reach : List Addr → Leaks → Type 0 where
  start : {m : Leaks} → IsUnused m → Reach [] m
  malloc :
      {bs : List Addr} {m g : Leaks} {p : Addr} (ptr fresh : Addr) (stack : MemInfo) (size : ℕ)
      (file : List ℕ) (line : ℕ)
      → Reach bs m
      → IsFresh m ptr
      → IsCall m ptr fresh file
      → xmalloc ptr fresh stack size file line m ≡ ok p g
      → Reach (bs ++ p ∷ []) g
  calloc :
      {bs : List Addr} {m g : Leaks} {p : Addr} (ptr fresh : Addr) (stack : MemInfo)
      (elements size : ℕ) (file : List ℕ) (line : ℕ)
      → Reach bs m
      → IsFresh m ptr
      → IsCall m ptr fresh file
      → xcalloc ptr fresh stack elements size file line m ≡ ok p g
      → Reach (bs ++ p ∷ []) g
  realloc :
      {bs : List Addr} {m g : Leaks} {p : Addr} (fuel : ℕ) (moved fresh : Addr) (stack : MemInfo)
      (block : Addr) (size : ℕ) (file : List ℕ) (line : ℕ)
      → Reach bs m
      → block ∈ bs
      → length bs < fuel
      → (moved ≡ block) ⊎ IsFresh m moved
      → IsCall m moved fresh file
      → xrealloc fuel moved fresh stack block size file line m ≡ ok p g
      → Reach (without block bs ++ p ∷ []) g
  free :
      {bs : List Addr} {m g : Leaks} (fuel : ℕ) (block : Addr)
      → Reach bs m
      → block ∈ bs
      → length bs < fuel
      → xfree fuel block m ≡ ok tt g
      → Reach (without block bs) g

-- What a run of an allocation proves of its result.
result-Tracks :
    (bs : List Addr) {rs : List Leak} {g : Leaks} {p ptr : Addr} {r : Run Leaks Addr}
    → r ≡ ok p g
    → Returns (λ q h. (q ≡ ptr) × Tracks h (bs ++ ptr ∷ []) rs) r
    → Tracks g (bs ++ p ∷ []) rs
result-Tracks bs {rs} {g} {p} {ptr} run result =
    let (e, t) = Returns-ok (subst (Returns _) run result) in
    subst (λ q. Tracks g (bs ++ q ∷ []) rs) (sym e) t

-- A program that allocates, moves and frees blocks by `xmalloc`, `xcalloc`, `xrealloc` and `xfree`
-- alone, from a detector not in use, with file names below 512 bytes and every allocation given, owns
-- in each state just the blocks that the detector has a record of, in the order of the records; the
-- blocks are distinct, live, and apart from the detector's own objects.
pub Reach-Tracks : {bs : List Addr} {m : Leaks} → Reach bs m → (rs : List Leak) × Tracks m bs rs
Reach-Tracks (start is) = (
  [],
  record {
    keeps = unused is;
    same = refl;
    distinct = λ a. omega arith;
    owned = λ a i. absurd (omega arith);
    apart = λ a i. absurd (omega arith);
  },
)
Reach-Tracks (malloc ptr fresh stack size file line before new call run) =
    let (rs, t) = Reach-Tracks before in
    (
      _,
      result-Tracks _ run (
          xmalloc-Tracks _ _ rs t ptr fresh new call.fresh_record call.apart stack file line
            call.short call.plain size),
    )
Reach-Tracks (calloc ptr fresh stack elements size file line before new call run) =
    let (rs, t) = Reach-Tracks before in
    (
      _,
      result-Tracks _ run (
          xcalloc-Tracks _ _ rs t ptr fresh new call.fresh_record call.apart stack file line
            call.short call.plain elements size),
    )
Reach-Tracks (realloc fuel moved fresh stack block size file line before mine enough new call run) =
    let (rs, t) = Reach-Tracks before in
    (
      _,
      result-Tracks _ run (
          xrealloc-Tracks _ _ rs t block mine fuel enough moved fresh new call.fresh_record
            call.apart stack file line call.short call.plain size),
    )
Reach-Tracks (free fuel block before mine enough run) =
    let (rs, t) = Reach-Tracks before in
    (_, Returns-ok (subst (Returns _) run (xfree-Tracks _ _ rs t block mine fuel enough)))

Keeps-flag : (m : Leaks) (rs : List Leak) → Keeps m rs → m.memleak_flag ≡ true → IsDetector m rs
Keeps-flag m _ (unused is) flag = absurd (ground (arith, is.flag, flag))
Keeps-flag m _ (used is) flag = is

Tracks-report :
    {bs : List Addr} {m : Leaks} (rs : List Leak) (fuel : ℕ) (opened : Bool)
    → addresses rs ≡ bs
    → IsDetector m rs
    → length bs < fuel
    → report_mem_leak fuel opened m ≡ (if is_nil bs then ok [] m else fault)
Tracks-report {bs} {m} [] (suc fuel) opened same is enough =
    subst (λ t. report_mem_leak (suc fuel) opened m ≡ (if is_nil t then ok [] m else fault)) same
      (report_mem_leak-none m fuel opened is)
Tracks-report {bs} {m} (r ∷ rs) fuel opened same is enough =
    let short : length rs < fuel = omega (arith, length-addresses (r ∷ rs), ap length same) in
    subst (λ t. report_mem_leak fuel opened m ≡ (if is_nil t then ok [] m else fault)) same
      (report_mem_leak-fault m r rs fuel opened is short).1
Tracks-report {bs} {m} [] zero opened same is enough = absurd (omega arith)

-- In a state of such a program where an allocation was made and the fuel is above the number of its
-- blocks, `report_mem_leak` returns with an empty report if no block is left, and is a fault if one
-- is, whether its file can be opened or not.
pub Reach-report_mem_leak :
    {bs : List Addr} {m : Leaks} (fuel : ℕ) (opened : Bool)
    → Reach bs m
    → m.memleak_flag ≡ true
    → length bs < fuel
    → report_mem_leak fuel opened m ≡ (if is_nil bs then ok [] m else fault)
Reach-report_mem_leak fuel opened run flag enough =
    let (rs, t) = Reach-Tracks run in
    Tracks-report rs fuel opened t.same (Keeps-flag _ rs t.keeps flag) enough
