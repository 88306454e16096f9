-- ===== src/Tests/Deques.antt =====
-- A heap with a deque, and the theorems of the deque at it.
use hashtable_linux_kernel.Common.{
  ◌*◌, ◌≡◌, refl, false, ◌&&◌, ltb, ◌==◌, if◌then◌else◌, [], ◌∷◌, arith, Returns, ok,
}
use hashtable_linux_kernel.Common.{Run, out_of_fuel}
use hashtable_linux_kernel.Links.{get_next, get_prev, set_next, set_prev}
use hashtable_linux_kernel.KList.{
  k_list_add_tail, __list_add, k_list_del, __list_del_entry, __list_del,
}
use hashtable_linux_kernel.Deque.{_deq_push, malloc, get_size, set_size, set_value, _deq_pop}
use hashtable_linux_kernel.Deque.Order.{Queued, Waiting, start, push, pop, Queued-Waiting}
use hashtable_linux_kernel.KList.Ring.{IsList}
use hashtable_linux_kernel.Deque.{
  Heap, deque_create, deq_push_tail, deq_pop_head, deq_isempty, deq_free,
}
use hashtable_linux_kernel.Common.{fault}
use hashtable_linux_kernel.Deque.{deq_pop_tail}
use hashtable_linux_kernel.Deque.Lifetime.{with_live}
use hashtable_linux_kernel.Deque.Macros.{
  deq_pop_macro, deq_pop_tail_macro, deq_isempty_macro, deq_clear, deq_pop_macro-deq_pop_head,
  deq_clear-dangling,
}
use hashtable_linux_kernel.Deque.Valid.{IsDeque}
use hashtable_linux_kernel.Deque.Push.{deq_push_tail-snoc}
use hashtable_linux_kernel.Deque.Lifetime.{freed, deque_create-isempty, deq_free-freed}

-- The deque at 1 has the entries 2 and 3; the rest of the memory is not in use.
abbrev heap : Heap
heap = record {
  links = record {
    live = λ a. ltb 0 a && ltb a 4;
    next = λ a. if a == 1 then 2 else if a == 2 then 3 else 1;
    prev = λ a. if a == 1 then 3 else if a == 2 then 1 else 2;
  };
  size = λ a. if a == 1 then 2 else 77;
  value = λ a. a * 10;
}

abbrev heap-IsDeque : IsDeque heap 1 (20 ∷ 30 ∷ [])
heap-IsDeque = record {
  entries = 2 ∷ 3 ∷ [];
  list = record {
    cycle = (refl, refl, (refl, refl, (refl, refl)));
    distinct = λ a. ground arith;
    live = λ a i. ground arith;
  };
  values = refl;
  size = refl;
  small = omega arith;
  no_null = refl;
}

deq_push_tail-snoc_example :
    Returns (λ _ g. IsDeque g 1 (20 ∷ 30 ∷ 5 ∷ [])) (deq_push_tail 9 1 5 heap)
deq_push_tail-snoc_example =
    deq_push_tail-snoc heap 1 9 5 (20 ∷ 30 ∷ []) heap-IsDeque (omega arith) (omega arith) refl

-- A fresh object whose memory holds 77: the new deque is not empty.
deque_create-isempty_example :
    Returns
      (λ d g. (d ≡ 9) × IsList g.links d [] × (g.size d ≡ 77) × (deq_isempty d g ≡ ok false g))
      (deque_create 9 heap)
deque_create-isempty_example = deque_create-isempty heap 9 (omega arith)

deq_free-freed_example :
    deq_free 3 1 heap
    ≡ ok tt (record heap {
      links = record heap.links { live = freed heap.links.live (1 ∷ 2 ∷ 3 ∷ []) };
    })
deq_free-freed_example = deq_free-freed heap 1 (20 ∷ 30 ∷ []) 3 heap-IsDeque (omega arith)

deq_pop_macro-deq_pop_head_example :
    (deq_pop_macro 1 heap ≡ deq_pop_head 1 heap) × (deq_pop_tail_macro 1 heap ≡ deq_pop_tail 1 heap)
deq_pop_macro-deq_pop_head_example = deq_pop_macro-deq_pop_head heap 1 20 (30 ∷ []) heap-IsDeque

abbrev cleared : Heap
cleared = with_live heap 1 (freed heap.links.live (2 ∷ 3 ∷ []))

deq_clear-dangling_example :
    (deq_clear 3 1 heap ≡ ok tt cleared)
    × (deq_isempty_macro 1 cleared ≡ ok 0 cleared)
    × (deq_pop_macro 1 cleared ≡ fault)
deq_clear-dangling_example = deq_clear-dangling heap 1 20 (30 ∷ []) 3 heap-IsDeque (omega arith)

-- The deque at 1 is empty.
abbrev empty_heap : Heap
empty_heap = record {
  links = record { live = λ a. a == 1; next = λ a. a; prev = λ a. a };
  size = λ a. if a == 1 then 0 else 77;
  value = λ a. 0;
}

empty_heap-IsDeque : IsDeque empty_heap 1 []
empty_heap-IsDeque = record {
  entries = [];
  list = record { cycle = (refl, refl); distinct = λ a. ground arith; live = λ a i. ground arith };
  values = refl;
  size = refl;
  small = omega arith;
  no_null = refl;
}

abbrev heap_of : {A : Type 0} → Run Heap A → Heap
heap_of (ok a g) = g
heap_of fault = empty_heap
heap_of out_of_fuel = empty_heap

abbrev one_pushed : Heap
one_pushed = heap_of (deq_push_tail 9 1 5 empty_heap)

abbrev two_pushed : Heap
two_pushed = heap_of (deq_push_tail 10 1 6 one_pushed)

abbrev one_popped : Heap
one_popped = heap_of (deq_pop_head 1 two_pushed)

three_steps : Queued empty_heap 1 (5 ∷ 6 ∷ []) (one_popped.value 9 ∷ []) one_popped
unfolding deq_push_tail _deq_push malloc get_size set_size set_value k_list_add_tail __list_add
    deq_pop_head _deq_pop deq_isempty k_list_del __list_del_entry __list_del get_next get_prev
    set_next set_prev
three_steps =
    pop 9
      (push 10 6 (push 9 5 start (omega arith) (omega arith) refl refl) (omega arith) (omega arith)
        refl refl)
      refl (omega arith)

Queued-Waiting_example : Waiting 1 (5 ∷ 6 ∷ []) (one_popped.value 9 ∷ []) one_popped
Queued-Waiting_example =
    Queued-Waiting empty_heap 1 (5 ∷ 6 ∷ []) (one_popped.value 9 ∷ []) one_popped empty_heap-IsDeque
      three_steps
