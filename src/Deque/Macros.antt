-- ===== src/Deque/Macros.antt =====
-- The macros of deque.h on a `deq_t` that is a variable: `DEFINE_DEQ`, `DEQ_ISEMPTY`, `DEQ_FOR_EACH`, `DEQ_POP`,
-- `DEQ_POP_TAIL` and `DEQ_CLEAR`. An entry begins with its list node.
use hashtable_linux_kernel.Common.{
  ℕ, suc, ◌≡◌, ◌<◌, refl, ap, true, false, List, [], ◌∷◌, length, arith, ◌∈◌, Cmd, ok, fault,
  Returns, returns, if◌then◌else◌, ◌==◌, pure, ◌>>=◌, ◌>>◌, subst, sym,
}
use hashtable_linux_kernel.Links.{Addr, update, get_next, get_prev}
use hashtable_linux_kernel.KList.{
  k_init_list_head, k_list_del, __list_del_entry, k_list_for_each_safe,
}
use hashtable_linux_kernel.KList.Insert.{k_init_list_head-ok, initialised-IsList}
use hashtable_linux_kernel.KList.Ring.{Seg}
use hashtable_linux_kernel.KList.EntryLoops.{k_list_for_each_entry}
use hashtable_linux_kernel.Deque.{
  Heap, with_links, free, get_size, set_size, decrement, deq_isempty, _deq_pop, deq_pop_head,
  deq_pop_tail,
}
use hashtable_linux_kernel.Deque.Valid.{IsDeque, length-map_values, Cons-values}
use hashtable_linux_kernel.Deque.Lifetime.{freed, free_from, next-mem, with_live}

-- The variable is an object from here on.
unfoldable pub define_deq : (name : Addr) → Cmd Heap (Unit {0})
unfolding set_size
define_deq name = do
  (λ w. ok tt (record w { links = record w.links { live = update w.links.live name true } }))
  set_size name 0
  with_links (k_init_list_head name)

unfoldable pub deq_isempty_macro : (name : Addr) → Cmd Heap ℕ
unfolding get_size
deq_isempty_macro name = do size ← get_size name; pure (if size == 0 then 1 else 0)

unfoldable pub deq_for_each :
    {B : Type 0}
    → (deq_member : ℕ) → (body : (pos : Addr) → B → Cmd Heap B) → (deq_struct : Addr) → (fuel : ℕ)
    → B
    → Cmd Heap B
unfolding k_list_for_each_entry
deq_for_each deq_member body deq_struct fuel acc =
    k_list_for_each_entry (λ p. with_links (get_next p)) (λ p. with_links (get_prev p)) deq_member
      body deq_struct fuel acc

unfoldable pub deq_pop_macro : (name : Addr) → Cmd Heap Addr
unfolding get_size set_size
deq_pop_macro name = do
  item ← with_links (get_next name)
  first ← with_links (get_next name)
  with_links (k_list_del first)
  size ← get_size name
  set_size name (← decrement size)
  pure item

unfoldable pub deq_pop_tail_macro : (name : Addr) → Cmd Heap Addr
unfolding get_size set_size
deq_pop_tail_macro name = do
  item ← with_links (get_prev name)
  last ← with_links (get_prev name)
  with_links (k_list_del last)
  size ← get_size name
  set_size name (← decrement size)
  pure item

unfoldable pub deq_clear : (fuel : ℕ) → (name : Addr) → Cmd Heap (Unit {0})
unfolding free
deq_clear fuel name =
    k_list_for_each_safe (λ p. with_links (get_next p)) (λ item _. free item) name fuel tt

-- `DEFINE_DEQ` makes an empty deque of a variable.
pub define_deq-IsDeque :
    (w : Heap) (d : Addr) → 0 < d → Returns (λ _ g. IsDeque g d []) (define_deq d w)
unfolding define_deq
define_deq-IsDeque w d given =
    let m = record w.links { live = update w.links.live d true } in
    let live : m.live d ≡ true = ground arith in
    rw (live, k_init_list_head-ok m d live)
      (returns (record {
        entries = [];
        list = initialised-IsList m d live;
        values = refl;
        size = ground arith;
        small = omega arith;
        no_null = ground arith;
      }))

module _ (w : Heap) (d : Addr) where
  -- On a deque that is not empty `DEQ_POP` does what `deq_pop_head` does, and `DEQ_POP_TAIL` what
  -- `deq_pop_tail` does.
  pub deq_pop_macro-deq_pop_head :
      (v : ℕ) (vs : List ℕ)
      → IsDeque w d (v ∷ vs)
      → (deq_pop_macro d w ≡ deq_pop_head d w) × (deq_pop_tail_macro d w ≡ deq_pop_tail d w)
  unfolding deq_pop_macro deq_pop_tail_macro deq_pop_head deq_pop_tail _deq_pop deq_isempty get_next
      get_prev
  deq_pop_macro-deq_pop_head v vs is =
      let live_d = is.list.live d (ground arith) in
      let some : (w.size d == 0) ≡ false = ground (arith, is.size) in
      (rw (live_d, some, live_d) refl, rw (live_d, some, live_d) refl)

  -- `DEQ_CLEAR` of a deque that is not empty frees each entry once and changes nothing else: the counter
  -- stays, the head leads to a freed entry, and a `DEQ_POP` after it is a fault.
  pub deq_clear-dangling :
      (v : ℕ) (vs : List ℕ) (fuel : ℕ) (is : IsDeque w d (v ∷ vs))
      → suc (length vs) < fuel
      → (deq_clear fuel d w ≡ ok tt (with_live w d (freed w.links.live is.entries)))
        × (deq_isempty_macro d (with_live w d (freed w.links.live is.entries))
            ≡ ok 0 (with_live w d (freed w.links.live is.entries)))
        × (deq_pop_macro d (with_live w d (freed w.links.live is.entries)) ≡ fault)
  unfolding deq_clear deq_pop_macro deq_isempty_macro k_list_for_each_safe k_list_del
      __list_del_entry get_next get_prev
  deq_clear-dangling v vs fuel is enough =
      let m = w.links in
      let first = next-mem m d is.entries d is.list.cycle in
      let loop =
        free_from w d fuel m.live d is.entries is.list.cycle is.list.live is.list.distinct
          (ground (arith, is.no_null))
          (omega (arith, enough, ap length is.values, length-map_values w.value is.entries)) in
      let here : freed m.live is.entries d ≡ true =
        ground (arith, is.list.live d, is.list.distinct d) in
      let some : (w.size d == 0) ≡ false = ground (arith, is.size) in
      let c = Cons-values w.value is.entries v vs is.values in
      let at : m.next d ≡ c.first = (subst (λ es. Seg m d es d) c.split is.list.cycle).0 in
      let o : c.first ∈ is.entries = subst (λ es. c.first ∈ es) (sym c.split) (ground arith) in
      let dead : freed m.live is.entries c.first ≡ false = ground (arith, o) in
      (
        rw (is.list.live d (ground arith), is.list.live (m.next d) (ground (arith, first)), loop)
            refl,
        rw (here, some) refl,
        rw (here, at, here, dead) refl,
      )
