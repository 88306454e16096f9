-- ===== src/Deque.antt =====
-- The deque of deque.c: a list head with a counter, over entries that `malloc` gives. A `deq_t` and a
-- `deq_entry_t` begin with their `k_list_head`, so each has the address of that member. What `malloc`
-- returns is an argument; a member of a fresh object holds whatever the memory held.
pub mod Valid
pub mod Push
pub mod Pop
pub mod Lifetime
pub mod Macros
pub mod Order
use hashtable_linux_kernel.Common.{
  ℕ, ◌+◌, ◌-◌, ◌^◌, Bool, true, false, ◌==◌, if◌then◌else◌, Run, Cmd, ok, fault, out_of_fuel, pure,
  ◌>>=◌, ◌>>◌,
}
use hashtable_linux_kernel.Links.{Addr, null, Links, update, get_next, get_prev}
use hashtable_linux_kernel.KList.{
  k_init_list_head, k_list_add, k_list_add_tail, k_list_del, k_list_for_each_safe,
}

-- `size` is an `int`, kept as its bit pattern below 2 ^ 32.
pub record Heap : Type 0 where
  pub links : Links
  pub size : Addr → ℕ
  pub value : Addr → ℕ

-- A list function run on the list heads of the heap.
abbrev pub relink : {A : Type 0} → Heap → Run Links A → Run Heap A
relink w (ok a l) = ok a (record w { links = l })
relink w fault = fault
relink w out_of_fuel = out_of_fuel

abbrev pub with_links : {A : Type 0} → Cmd Links A → Cmd Heap A
with_links c w = relink w (c w.links)

-- `malloc` returns `fresh`: NULL, or an object that is now live.
unfoldable pub malloc : Addr → Cmd Heap Addr
malloc fresh w =
    if fresh == null
    then ok null w
    else ok fresh (record w {
      links = record {
        live = update w.links.live fresh true;
        next = w.links.next;
        prev = w.links.prev;
      };
    })

-- `free(NULL)` does nothing; an object that is not live cannot be freed.
unfoldable pub free : Addr → Cmd Heap (Unit {0})
free p w =
    if p == null
    then ok tt w
    else if w.links.live p
    then ok tt (record w {
      links = record {
        live = update w.links.live p false;
        next = w.links.next;
        prev = w.links.prev;
      };
    })
    else fault

unfoldable pub get_size : Addr → Cmd Heap ℕ
get_size d w = if w.links.live d then ok (w.size d) w else fault

unfoldable pub set_size : Addr → ℕ → Cmd Heap (Unit {0})
set_size d n w = if w.links.live d then ok tt (record w { size = update w.size d n }) else fault

unfoldable pub set_value : Addr → ℕ → Cmd Heap (Unit {0})
set_value e v w = if w.links.live e then ok tt (record w { value = update w.value e v }) else fault

abbrev pub int_max : ℕ
int_max = 2 ^ 31 - 1

abbrev pub int_min : ℕ
int_min = 2 ^ 31

-- `++n` and `--n` of an `int`; the overflow of a signed integer is undefined.
abbrev pub increment : ℕ → Cmd Heap ℕ
increment n w = if n == int_max then fault else ok (if n == 2 ^ 32 - 1 then 0 else n + 1) w

abbrev pub decrement : ℕ → Cmd Heap ℕ
decrement n w = if n == int_min then fault else ok (if n == 0 then 2 ^ 32 - 1 else n - 1) w

unfoldable pub deque_create : (fresh : Addr) → Cmd Heap Addr
unfolding malloc
deque_create fresh = do
  deq ← malloc fresh
  if deq == null then pure null else do with_links (k_init_list_head deq); pure deq

unfoldable pub _deq_push : (fresh name : Addr) → (push_tail_flag : Bool) → ℕ → Cmd Heap (Unit {0})
unfolding malloc get_size set_size set_value
_deq_push fresh name push_tail_flag v = do
  size ← get_size name
  set_size name (← increment size)
  deq_item ← malloc fresh
  set_value deq_item v
  if push_tail_flag
      then with_links (k_list_add_tail deq_item name)
      else with_links (k_list_add deq_item name)

unfoldable pub deq_push_tail : (fresh name : Addr) → ℕ → Cmd Heap (Unit {0})
deq_push_tail fresh name v = _deq_push fresh name true v

unfoldable pub deq_push_head : (fresh name : Addr) → ℕ → Cmd Heap (Unit {0})
deq_push_head fresh name v = _deq_push fresh name false v

unfoldable pub deq_isempty : Addr → Cmd Heap Bool
unfolding get_size
deq_isempty name = do size ← get_size name; pure (size == 0)

-- The loop body frees the entry; `list_for_each_entry_safe` has read its successor.
unfoldable pub deq_free : (fuel : ℕ) → Addr → Cmd Heap (Unit {0})
unfolding free
deq_free fuel name = do
  k_list_for_each_safe (λ p. with_links (get_next p)) (λ item _. free item) name fuel tt
  free name

unfoldable pub _deq_pop : Addr → (pop_from_tail : Bool) → Cmd Heap Addr
unfolding deq_isempty get_size set_size
_deq_pop deq pop_from_tail = do
  empty ← deq_isempty deq
  if empty then pure null else do
    item ← (if pop_from_tail then with_links (get_prev deq) else with_links (get_next deq))
    with_links (k_list_del item)
    size ← get_size deq
    set_size deq (← decrement size)
    pure item

unfoldable pub deq_pop_tail : Addr → Cmd Heap Addr
deq_pop_tail deq = _deq_pop deq true

unfoldable pub deq_pop_head : Addr → Cmd Heap Addr
deq_pop_head deq = _deq_pop deq false

unfoldable pub _deq_get : Addr → (peek_from_tail : Bool) → Cmd Heap Addr
unfolding deq_isempty
_deq_get deq peek_from_tail = do
  empty ← deq_isempty deq
  if empty
      then pure null
      else (if peek_from_tail then with_links (get_prev deq) else with_links (get_next deq))

unfoldable pub deq_get_head : Addr → Cmd Heap Addr
deq_get_head deq = _deq_get deq false

unfoldable pub deq_get_tail : Addr → Cmd Heap Addr
deq_get_tail deq = _deq_get deq true
