-- ===== src/LeakDetector/Report.antt =====
-- The report (`report_mem_leak`), `clear`, and the calls that come before any record.
use hashtable_linux_kernel.Common.{
  ℕ, zero, suc, ◌≡◌, ◌≢◌, refl, Bool, true, false, ◌==◌, if◌then◌else◌, List, [], ◌∷◌, arith, ◌∈◌,
  ◌∉◌, pure, ◌>>◌, ok, fault, ◌<◌, length, drop, ◌≤◌,
}
use hashtable_linux_kernel.Links.{Addr, get_next}
use hashtable_linux_kernel.KList.Ring.{Seg}
use hashtable_linux_kernel.LeakDetector.{
  MemInfo, Leaks, clear, clear_loop, report_from, report_mem_leak, remove_mem_info, remove_from,
  get_info, free_heap, add_mem_info, add, malloc_memleak, set_info, copy_name, file_name_length,
  strncpy,
}
use hashtable_linux_kernel.LeakDetector.Strings.{string_in-strncpy_long, strcpy-endless}
use hashtable_linux_kernel.LeakDetector.Valid.{Leak, nodes, infos, AllStored, IsUnused, IsDetector}

-- All records but the last.
abbrev pub all_but_last : List MemInfo → List MemInfo
all_but_last [] = []
all_but_last (i ∷ []) = []
all_but_last (i ∷ j ∷ is) = i ∷ all_but_last (j ∷ is)

-- The loop stops at the last record: the one whose `next` is the head.
report_from-all_but_last :
    (m : Leaks) (r : Leak) (rs : List Leak) (fuel : ℕ)
    → length rs < fuel
    → Seg m.links r.node (nodes rs) m.head
    → m.head ∉ nodes rs
    → ((x : Addr) → x ∈ r.node ∷ nodes rs → m.links.live x ≡ true)
    → AllStored m (r ∷ rs)
    → report_from fuel r.node m ≡ ok (all_but_last (infos (r ∷ rs))) m
unfolding report_from get_next get_info
report_from-all_but_last m r [] (suc fuel) enough seg out live stored =
    let here : m.links.live r.node ≡ true = live r.node (ground arith) in
    let last : (m.links.next r.node == m.head) ≡ true = ground (arith, seg.0) in
    rw (here, last) refl
report_from-all_but_last m r (s ∷ rs) (suc fuel) enough seg out live stored =
    let here : m.links.live r.node ≡ true = live r.node (ground arith) in
    let inner : (m.links.next r.node == m.head) ≡ false = ground (arith, seg.0, out) in
    let rest =
      report_from-all_but_last m s rs fuel (omega arith) seg.2 (ground arith)
        (λ x i. live x (omega arith)) stored.1 in
    rw
      (
        here, inner, here, stored.0.name, seg.0, rest, stored.0.address, stored.0.size,
        stored.0.line,
      )
      refl
report_from-all_but_last m r rs zero enough seg out live stored = absurd (omega arith)

-- `clear` begins with the head, which `malloc` did not return.
clear-fault :
    (m : Leaks) (r : Leak) (rs : List Leak) (fuel : ℕ)
    → IsDetector m (r ∷ rs)
    → clear (suc fuel) m ≡ fault
unfolding clear clear_loop get_next free_heap
clear-fault m r rs fuel is =
    let inner : (m.links.next m.head == m.head) ≡ false =
      ground (arith, is.list.cycle, is.list.distinct m.head) in
    let given : (m.head == 0) ≡ false = ground (arith, is.fixed.head_live, is.fixed.null_live) in
    rw (is.fixed.head_live, inner, given, is.fixed.static) refl

report_mem_leak-runs :
    (m : Leaks) (fuel : ℕ) (opened : Bool) (is : List MemInfo)
    → m.links.live m.head ≡ true
    → report_from fuel (m.links.next m.head) m ≡ ok is m
    → report_mem_leak fuel opened m ≡ (clear fuel >> pure (if opened then is else [])) m
unfolding report_mem_leak get_next
report_mem_leak-runs m fuel true is live body = rw (live, body) refl
report_mem_leak-runs m fuel false is live body = rw live refl

-- When the detector has records and the fuel is at least their number, the loop of `report_mem_leak`
-- writes all of them but the last, and the function is a fault, since `clear` frees the static head.
pub report_mem_leak-fault :
    (m : Leaks) (r : Leak) (rs : List Leak) (fuel : ℕ) (opened : Bool)
    → IsDetector m (r ∷ rs)
    → length rs < fuel
    → (report_from fuel (m.links.next m.head) m ≡ ok (all_but_last (infos (r ∷ rs))) m)
      × (report_mem_leak fuel opened m ≡ fault)
unfolding report_mem_leak get_next
report_mem_leak-fault m r rs (suc fuel) opened is enough =
    let body : report_from (suc fuel) (m.links.next m.head) m
        ≡ ok (all_but_last (infos (r ∷ rs))) m =
      rw is.list.cycle.0 (
        report_from-all_but_last m r rs (suc fuel) enough is.list.cycle.2
          (ground (arith, is.list.distinct m.head)) (λ x i. is.list.live x (omega arith))
          is.stored) in
    let end = clear-fault m r rs fuel is in
    (body, rw (report_mem_leak-runs m (suc fuel) opened _ is.fixed.head_live body, end) refl)
report_mem_leak-fault m r rs zero opened is enough = absurd (omega arith)

-- `remove_mem_info` before the first record was added is a fault, whatever the address: the links of
-- the head are NULL then.
pub remove_mem_info-unused :
    (m : Leaks) (a : Addr) (fuel : ℕ)
    → IsUnused m
    → m.head ≢ 0
    → remove_mem_info (suc fuel) a m ≡ fault
unfolding remove_mem_info remove_from get_next get_info
remove_mem_info-unused m a fuel is given =
    let inner : (0 == m.head) ≡ false = ground (arith, given) in
    rw (is.fixed.head_live, is.next, inner, is.fixed.null_live) refl

report_mem_leak-unused :
    (m : Leaks) (fuel : ℕ) → IsUnused m → report_mem_leak (suc fuel) true m ≡ fault
unfolding report_mem_leak report_from get_next get_info
report_mem_leak-unused m fuel is = rw (is.fixed.head_live, is.next, is.fixed.null_live) refl

none_written :
    (m : Leaks) (is : List MemInfo) (opened : Bool) → ok (if opened then is else is) m ≡ ok is m
none_written m is true = refl
none_written m is false = refl

pub report_mem_leak-none :
    (m : Leaks) (fuel : ℕ) (opened : Bool)
    → IsDetector m []
    → report_mem_leak (suc fuel) opened m ≡ ok [] m
unfolding report_mem_leak report_from clear clear_loop get_next get_info
report_mem_leak-none m fuel opened is =
    let self : m.links.next m.head ≡ m.head = is.list.cycle.0 in
    let last : (m.head == m.head) ≡ true = ground arith in
    let body : report_from (suc fuel) (m.links.next m.head) m ≡ ok [] m =
      rw (self, is.fixed.head_live, self, last) refl in
    rw
      (
        report_mem_leak-runs m (suc fuel) opened [] is.fixed.head_live body,
        is.fixed.head_live,
        self,
        last,
      )
      (none_written m [] opened)

-- `add_mem_info` with a file name of 512 bytes or more is a fault, when the bytes of the local buffer
-- behind the first 512 hold no NUL and `malloc` gives the record: no NUL ends the copy that `add`
-- reads.
pub add_mem_info-long :
    (m : Leaks) (fresh : Addr) (stack : MemInfo) (mem_ref : Addr) (size : ℕ) (file : List ℕ)
    (line : ℕ)
    → file_name_length ≤ length file
    → 0 ∉ file
    → 0 ∉ drop file_name_length stack.file_name
    → fresh ≢ 0
    → add_mem_info fresh stack mem_ref size file line m ≡ fault
unfolding add_mem_info add get_info set_info malloc_memleak copy_name
add_mem_info-long m fresh stack mem_ref size file line long plain rest given =
    let same : (fresh == fresh) ≡ true = ground arith in
    let given' : (fresh == 0) ≡ false = ground (arith, given) in
    let endless =
      strcpy-endless (m.mem_info fresh).file_name (strncpy stack.file_name file file_name_length)
        (string_in-strncpy_long file stack.file_name file_name_length long plain rest) in
    rw (given', same, same, same, same, same, endless) refl

-- `add` does not test what `malloc` returns.
add-null : (m : Leaks) (info : MemInfo) → m.links.live 0 ≡ false → add 0 info m ≡ fault
unfolding add get_info malloc_memleak
add-null m info dead = rw dead refl
