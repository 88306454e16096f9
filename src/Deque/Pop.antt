-- ===== src/Deque/Pop.antt =====
-- `deq_pop_head`, `deq_pop_tail`, `deq_get_head`, `deq_get_tail` and `deq_isempty`.
use hashtable_linux_kernel.Common.{
  ℕ, ◌+◌, ◌≡◌, ◌≢◌, ◌<◌, refl, ap, ◌∙◌, Bool, true, false, List, [], ◌∷◌, ◌++◌, map, length,
  length-append, arith, ◌∉◌, ok, Returns, returns, Returns-inv, if◌then◌else◌, subst, count-append,
  is_nil, append-nil,
}
use hashtable_linux_kernel.Links.{Addr, null, Links, update, get_next, get_prev}
use hashtable_linux_kernel.KList.{k_list_del}
use hashtable_linux_kernel.KList.Delete.{k_list_del-IsList}
use hashtable_linux_kernel.KList.Ring.{IsList, Seg-split}
use hashtable_linux_kernel.Deque.{
  Heap, int_max, _deq_pop, deq_pop_tail, deq_pop_head, deq_isempty, _deq_get, deq_get_head,
  deq_get_tail,
}
use hashtable_linux_kernel.Deque.Valid.{IsDeque, Snoc-values, Cons-values}

module _ (w : Heap) (d : Addr) where
  -- `deq_isempty` tells whether the deque holds no value.
  pub deq_isempty-is_nil : (vs : List ℕ) → IsDeque w d vs → deq_isempty d w ≡ ok (is_nil vs) w
  unfolding deq_isempty
  deq_isempty-is_nil [] is = ground (arith, is.list.live d (ground arith), is.size)
  deq_isempty-is_nil (v ∷ vs) is = ground (arith, is.list.live d (ground arith), is.size)

  -- On an empty deque the four reads return NULL and change nothing.
  pub pop_get-nil :
      IsDeque w d []
      → (deq_pop_head d w ≡ ok null w)
        × (deq_pop_tail d w ≡ ok null w)
        × (deq_get_head d w ≡ ok null w)
        × (deq_get_tail d w ≡ ok null w)
  unfolding deq_pop_head deq_pop_tail deq_get_head deq_get_tail _deq_pop _deq_get
  pop_get-nil is = (
    rw (deq_isempty-is_nil [] is),
    rw (deq_isempty-is_nil [] is),
    rw (deq_isempty-is_nil [] is),
    rw (deq_isempty-is_nil [] is),
  )

-- What a pop returns and leaves: the entry with the value, still allocated, and the other values.
pub record Popped (d : Addr) (v : ℕ) (vs : List ℕ) (item : Addr) (g : Heap) : Type 0 where
  pub rest : IsDeque g d vs
  pub value : g.value item ≡ v
  pub ne_null : item ≢ null
  pub live : g.links.live item ≡ true

module _ (w : Heap) (d x : Addr) (front back : List Addr) (v : ℕ) (vs : List ℕ)
    (list : IsList w.links d (front ++ x ∷ back)) (values : map w.value (front ++ back) ≡ vs)
    (value : w.value x ≡ v) (size : w.size d ≡ length vs + 1) (small : length vs < int_max)
    (no_null : null ∉ d ∷ front ++ x ∷ back) where
  abbrev shrunk : Links → Heap
  shrunk l = record w { links = l; size = update w.size d (length vs) }

  pop-ok :
      (flag : Bool) (l : Links)
      → (if flag then get_prev d w.links else get_next d w.links) ≡ ok x w.links
      → k_list_del x w.links ≡ ok tt l
      → l.live d ≡ true
      → _deq_pop d flag w ≡ ok x (shrunk l)
  unfolding _deq_pop
  pop-ok true l e f live = ground (arith, list.live d (ground arith), size)
  pop-ok false l e f live = ground (arith, list.live d (ground arith), size)

  popped :
      (flag : Bool)
      → (if flag then get_prev d w.links else get_next d w.links) ≡ ok x w.links
      → Returns (Popped d v vs) (_deq_pop d flag w)
  popped flag e =
      let (_, l, f, (ring, _, _, same)) = Returns-inv (k_list_del-IsList front x back list) in
      let number = λ (a : Addr). count-append a front (x ∷ back) in
      let number' = λ (a : Addr). count-append a front back in
      rw (pop-ok flag l e f (ring.live d (ground arith))) (
        returns (record {
          rest = record {
            entries = front ++ back;
            list = ring;
            values = values;
            size = ground arith;
            small = omega arith;
            no_null = omega (arith, number null, number' null);
          };
          value = value;
          ne_null = ground (arith, number null);
          live = ground (arith, same.live x, list.live x, number x);
        }))

module _ (w : Heap) (d : Addr) (v : ℕ) (vs : List ℕ) where
  -- `deq_pop_head` of a deque that has a first value returns the entry of that value, which stays live,
  -- leaves the deque of the other values in their order, and does not fault.
  pub deq_pop_head-cons : IsDeque w d (v ∷ vs) → Returns (Popped d v vs) (deq_pop_head d w)
  unfolding deq_pop_head get_next
  deq_pop_head-cons is =
      let c = Cons-values w.value is.entries v vs is.values in
      let list : IsList w.links d ([] ++ c.first ∷ c.back) =
        subst (IsList w.links d) c.split is.list in
      popped w d c.first [] c.back v vs list c.values c.value (omega (arith, is.size))
        (omega (arith, is.small)) (subst (λ t. null ∉ d ∷ t) c.split is.no_null) false
        (ground (arith, list.live d (ground arith), list.cycle.0))

  -- `deq_pop_tail` of a deque that has a last value returns the entry of that value, which stays live,
  -- leaves the deque of the other values in their order, and does not fault.
  pub deq_pop_tail-snoc : IsDeque w d (vs ++ v ∷ []) → Returns (Popped d v vs) (deq_pop_tail d w)
  unfolding deq_pop_tail get_prev
  deq_pop_tail-snoc is =
      let s = Snoc-values w.value is.entries vs v is.values in
      let list : IsList w.links d (s.front ++ s.last ∷ []) =
        subst (IsList w.links d) s.split is.list in
      let n = length-append vs (v ∷ []) in
      popped w d s.last s.front [] v vs list (ap (map w.value) (append-nil s.front) ∙ s.values)
        s.value (omega (arith, is.size, n)) (omega (arith, is.small, n))
        (subst (λ t. null ∉ d ∷ t) s.split is.no_null) true
        (ground (
          arith,
          list.live d (ground arith),
          (Seg-split w.links d s.front s.last [] d list.cycle).1.1,
        ))

-- The entry that a peek returns: it holds the value, and the heap is as before.
abbrev pub Peeks : ℕ → Heap → Addr → Heap → Type 0
Peeks v w item g = (g ≡ w) × (w.value item ≡ v) × (item ≢ null)

module _ (w : Heap) (d x : Addr) (front back : List Addr) (v : ℕ)
    (list : IsList w.links d (front ++ x ∷ back)) (value : w.value x ≡ v) (size : 0 < w.size d)
    (no_null : null ∉ d ∷ front ++ x ∷ back) where
  peeked :
      (flag : Bool)
      → (if flag then get_prev d w.links else get_next d w.links) ≡ ok x w.links
      → Returns (Peeks v w) (_deq_get d flag w)
  unfolding _deq_get deq_isempty
  peeked flag e =
      let run : _deq_get d flag w ≡ ok x w = go flag e in
      rw run (returns (refl, value, ground (arith, count-append null front (x ∷ back))))
    where
      go :
          (flag : Bool)
          → (if flag then get_prev d w.links else get_next d w.links) ≡ ok x w.links
          → _deq_get d flag w ≡ ok x w
      go true e = ground (arith, list.live d (ground arith))
      go false e = ground (arith, list.live d (ground arith))

module _ (w : Heap) (d : Addr) (v : ℕ) (vs : List ℕ) where
  -- `deq_get_head` returns the entry of the first value and changes nothing.
  pub deq_get_head-cons : IsDeque w d (v ∷ vs) → Returns (Peeks v w) (deq_get_head d w)
  unfolding deq_get_head get_next
  deq_get_head-cons is =
      let c = Cons-values w.value is.entries v vs is.values in
      let list : IsList w.links d ([] ++ c.first ∷ c.back) =
        subst (IsList w.links d) c.split is.list in
      peeked w d c.first [] c.back v list c.value (omega (arith, is.size))
        (subst (λ t. null ∉ d ∷ t) c.split is.no_null) false
        (ground (arith, list.live d (ground arith), list.cycle.0))

  -- `deq_get_tail` returns the entry of the last value and changes nothing.
  pub deq_get_tail-snoc : IsDeque w d (vs ++ v ∷ []) → Returns (Peeks v w) (deq_get_tail d w)
  unfolding deq_get_tail get_prev
  deq_get_tail-snoc is =
      let s = Snoc-values w.value is.entries vs v is.values in
      let list : IsList w.links d (s.front ++ s.last ∷ []) =
        subst (IsList w.links d) s.split is.list in
      let last = (Seg-split w.links d s.front s.last [] d list.cycle).1.1 in
      peeked w d s.last s.front [] v list s.value
        (omega (arith, is.size, length-append vs (v ∷ [])))
        (subst (λ t. null ∉ d ∷ t) s.split is.no_null) true
        (ground (arith, list.live d (ground arith), last))
