-- ===== src/LeakDetector.antt =====
-- The leak detector (leak_detector_c.c, leak_detector_c.h). `malloc`, `calloc` and `realloc` of the C
-- library are given the address that they return, NULL or not; uninitialised memory is an argument
-- too. `heap p` says that `p` was returned by one of them and is not freed since. A `MEMLEAK` has its
-- two links as a list head; a string is the list of its bytes before the NUL.
pub mod Strings
pub mod Valid
pub mod Add
pub mod Remove
pub mod Track
pub mod Release
pub mod Report
pub mod Reach
use hashtable_linux_kernel.Common.{
  ℕ, zero, suc, ◌+◌, ◌*◌, ◌%◌, ◌^◌, Bool, true, false, ◌==◌, if◌then◌else◌, Option, none, some, Run,
  Cmd, ok, fault, out_of_fuel, pure, ◌>>=◌, ◌>>◌, List, [], ◌∷◌, ◌++◌, length, take, drop,
  replicate,
}
use hashtable_linux_kernel.Links.{Addr, null, Links, update, get_next, get_prev, set_next, set_prev}

-- `MEM_INFO`; the bytes of `file_name` are in it from the first.
pub record MemInfo : Type 0 where
  pub address : Addr
  pub size : ℕ
  pub file_name : List ℕ
  pub line : ℕ

-- The memory: the members of the `MEMLEAK` objects, and the static variables.
pub record Leaks : Type 0 where
  pub links : Links
  pub mem_info : Addr → MemInfo
  pub heap : Addr → Bool
  pub head : Addr
  pub memleak_flag : Bool

abbrev pub file_name_length : ℕ
file_name_length = 512

abbrev pub relink : {A : Type 0} → Leaks → Run Links A → Run Leaks A
relink m (ok a l) = ok a (record m { links = l })
relink m fault = fault
relink m out_of_fuel = out_of_fuel

abbrev pub on_links : {A : Type 0} → Cmd Links A → Cmd Leaks A
on_links c m = relink m (c m.links)

abbrev pub get_head : Cmd Leaks Addr
get_head m = ok m.head m

abbrev pub get_flag : Cmd Leaks Bool
get_flag m = ok m.memleak_flag m

abbrev pub set_flag : Cmd Leaks (Unit {0})
set_flag m = ok tt (record m { memleak_flag = true })

unfoldable pub get_info : Addr → Cmd Leaks MemInfo
get_info p m = if m.links.live p then ok (m.mem_info p) m else fault

unfoldable pub set_info : Addr → MemInfo → Cmd Leaks (Unit {0})
set_info p i m =
    if m.links.live p then ok tt (record m { mem_info = update m.mem_info p i }) else fault

-- A value that is undefined where the code reads beyond an object.
abbrev pub defined : {A : Type 0} → Option A → Cmd Leaks A
defined none m = fault
defined (some a) m = ok a m

-- `malloc(sizeof(MEMLEAK))` of the C library, which returns `fresh`.
unfoldable pub malloc_memleak : Addr → Cmd Leaks Addr
malloc_memleak fresh m =
    if fresh == null
    then ok null m
    else ok fresh (record m {
      heap = update m.heap fresh true;
      links = record m.links { live = update m.links.live fresh true };
    })

-- `malloc` and `calloc` of the C library for a block of the program.
unfoldable pub malloc_bytes : Addr → Cmd Leaks Addr
malloc_bytes fresh m =
    if fresh == null then ok null m else ok fresh (record m { heap = update m.heap fresh true })

-- `free` of the C library.
unfoldable pub free_heap : Addr → Cmd Leaks (Unit {0})
free_heap p m =
    if p == null
    then ok tt m
    else if m.heap p
    then ok tt (record m {
      heap = update m.heap p false;
      links = record m.links { live = update m.links.live p false };
    })
    else fault

-- `realloc` of the C library, which returns `fresh`: the block in a new place or in the old one, or
-- NULL with the block left as it is.
unfoldable pub realloc_heap : (fresh ptr : Addr) → Cmd Leaks Addr
realloc_heap fresh ptr m =
    if ptr == null
    then malloc_bytes fresh m
    else if m.heap ptr
    then (if fresh == null then ok null m else (free_heap ptr >> malloc_bytes fresh) m)
    else fault

-- `strncpy(buffer, file, n)`: NULs fill what the string leaves of the `n` bytes; no NUL follows a
-- string that is not shorter.
unfoldable pub strncpy : (buffer file : List ℕ) → ℕ → List ℕ
strncpy buffer file n = take n (file ++ replicate n 0) ++ drop n buffer

-- The string in a buffer, if a NUL ends it there.
unfoldable pub string_in : List ℕ → Option (List ℕ)
string_in [] = none
string_in (c ∷ cs) =
    let rest = string_in cs in
    if c == 0 then some [] else elim rest [ none ↦ none | some s ↦ some (c ∷ s) ]

-- `strcpy(buffer, source)`, which reads on behind a source that no NUL ends.
unfoldable pub strcpy : (buffer source : List ℕ) → Option (List ℕ)
strcpy buffer source = elim (string_in source) [
  | none ↦ none
  | some s ↦ some (s ++ 0 ∷ drop (suc (length s)) buffer)
]

unfoldable pub __add_memleak_list : (new prev next : Addr) → Cmd Leaks (Unit {0})
__add_memleak_list new prev next = do
  on_links (set_prev next new)
  on_links (set_next new next)
  on_links (set_prev new prev)
  on_links (set_next prev new)

unfoldable pub memleak_add_list_tail : (new head : Addr) → Cmd Leaks (Unit {0})
memleak_add_list_tail new head = do
  last ← on_links (get_prev head)
  __add_memleak_list new last head

unfoldable pub ht_list_add : (new head : Addr) → Cmd Leaks (Unit {0})
ht_list_add new head = do first ← on_links (get_next head); __add_memleak_list new head first

unfoldable pub __del_memleak_list : (prev next : Addr) → Cmd Leaks (Unit {0})
__del_memleak_list prev next = do on_links (set_prev next prev); on_links (set_next prev next)

unfoldable pub del_memleak_list : Addr → Cmd Leaks (Unit {0})
del_memleak_list entry = do
  prev ← on_links (get_prev entry)
  next ← on_links (get_next entry)
  __del_memleak_list prev next
  free_heap entry

-- `strcpy(new->mem_info.file_name, alloc_info.file_name)`
unfoldable pub copy_name : Addr → List ℕ → Cmd Leaks (Unit {0})
copy_name new name = do
  info ← get_info new
  copy ← defined (strcpy info.file_name name)
  set_info new (record info { file_name = copy })

-- `add`, whose `malloc` returns `fresh`; its result is not tested.
unfoldable pub add : (fresh : Addr) → MemInfo → Cmd Leaks (Unit {0})
add fresh alloc_info = do
  new ← malloc_memleak fresh
  info ← get_info new
  set_info new (record info { address = alloc_info.address })
  info' ← get_info new
  set_info new (record info' { size = alloc_info.size })
  copy_name new alloc_info.file_name
  info'' ← get_info new
  set_info new (record info'' { line = alloc_info.line })
  flag ← get_flag
  head ← get_head
  if flag
      then pure tt
      else do on_links (set_prev head head); on_links (set_next head head); set_flag
  memleak_add_list_tail new head

-- The loop of `clear`: it frees a node and goes on to the next one.
unfoldable pub clear_loop : ℕ → Addr → Cmd Leaks (Unit {0})
clear_loop zero curr = λ m. out_of_fuel
clear_loop (suc fuel) curr = do
  head ← get_head
  next_node ← on_links (get_next curr)
  if next_node == head then pure tt else do free_heap curr; clear_loop fuel next_node

unfoldable pub clear : ℕ → Cmd Leaks (Unit {0})
clear fuel = do head ← get_head; clear_loop fuel head

-- `stack` is what the memory of the local `info` holds before.
unfoldable pub add_mem_info :
    (fresh : Addr) (stack : MemInfo) (mem_ref : Addr) (size : ℕ) (file : List ℕ) (line : ℕ)
    → Cmd Leaks (Unit {0})
add_mem_info fresh stack mem_ref size file line = add fresh (record {
  address = mem_ref;
  size = size;
  file_name = strncpy stack.file_name file file_name_length;
  line = line;
})

-- The loop of `remove_mem_info`.
unfoldable pub remove_from : ℕ → (mem_ref curr : Addr) → Cmd Leaks (Unit {0})
remove_from zero mem_ref curr = λ m. out_of_fuel
remove_from (suc fuel) mem_ref curr = do
  head ← get_head
  next ← on_links (get_next curr)
  if next == head then pure tt else do
    info ← get_info next
    if info.address == mem_ref then del_memleak_list next else remove_from fuel mem_ref next

unfoldable pub remove_mem_info : ℕ → Addr → Cmd Leaks (Unit {0})
remove_mem_info fuel mem_ref = do head ← get_head; remove_from fuel mem_ref head

-- The functions that stand for the C library's: `ptr` is what that returns, `fresh` the record.
unfoldable pub xmalloc :
    (ptr fresh : Addr) (stack : MemInfo) (size : ℕ) (file : List ℕ) (line : ℕ) → Cmd Leaks Addr
xmalloc ptr fresh stack size file line = do
  p ← malloc_bytes ptr
  if p == null then pure tt else add_mem_info fresh stack p size file line
  pure p

unfoldable pub xcalloc :
    (ptr fresh : Addr) (stack : MemInfo) (elements size : ℕ) (file : List ℕ) (line : ℕ)
    → Cmd Leaks Addr
xcalloc ptr fresh stack elements size file line = do
  p ← malloc_bytes ptr
  if p == null then pure tt else add_mem_info fresh stack p (elements * size % 2 ^ 32) file line
  pure p

-- The result of `realloc` is not tested.
unfoldable pub xrealloc :
    (fuel : ℕ) (moved fresh : Addr) (stack : MemInfo) (ptr : Addr) (size : ℕ) (file : List ℕ)
    (line : ℕ)
    → Cmd Leaks Addr
xrealloc fuel moved fresh stack ptr size file line = do
  remove_mem_info fuel ptr
  p ← realloc_heap moved ptr
  add_mem_info fresh stack p size file line
  pure p

unfoldable pub xfree : ℕ → Addr → Cmd Leaks (Unit {0})
xfree fuel mem_ref = do remove_mem_info fuel mem_ref; free_heap mem_ref

-- What the loop of `report_mem_leak` writes about each node: `printf` of a string that no NUL ends
-- is a fault.
unfoldable pub report_from : ℕ → Addr → Cmd Leaks (List MemInfo)
report_from zero curr = λ m. out_of_fuel
report_from (suc fuel) curr = do
  head ← get_head
  next ← on_links (get_next curr)
  if next == head then pure [] else do
    info ← get_info curr
    name ← defined (string_in info.file_name)
    rest ← report_from fuel next
    pure (record info { file_name = name } ∷ rest)

-- `report_mem_leak`; `opened` says whether `fopen` gave a file. The result is what the file lists.
unfoldable pub report_mem_leak : ℕ → (opened : Bool) → Cmd Leaks (List MemInfo)
report_mem_leak fuel opened = do
  head ← get_head
  curr ← on_links (get_next head)
  written ← if opened then report_from fuel curr else pure []
  clear fuel
  pure written
