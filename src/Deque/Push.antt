-- ===== src/Deque/Push.antt =====
-- `deq_push_tail` and `deq_push_head`.
use hashtable_linux_kernel.Common.{
  ℕ, ◌+◌, ◌≡◌, ◌≢◌, ◌<◌, ap₂, ◌∙◌, Bool, true, false, List, [], ◌∷◌, ◌++◌, map, length,
  length-append, arith, ◌∉◌, fault, Returns, returns, Returns-inv, if◌then◌else◌, count-append,
}
use hashtable_linux_kernel.Links.{Addr, null, Links, update}
use hashtable_linux_kernel.KList.{k_list_add, k_list_add_tail}
use hashtable_linux_kernel.KList.Insert.{k_list_add-IsList, k_list_add_tail-IsList}
use hashtable_linux_kernel.KList.Ring.{IsList, Ring-live}
use hashtable_linux_kernel.Deque.{Heap, int_max, relink, _deq_push, deq_push_tail, deq_push_head}
use hashtable_linux_kernel.Deque.Valid.{IsDeque, map-update, map-append_one}

module _ (w : Heap) (d fresh : Addr) (v : ℕ) (vs : List ℕ) (is : IsDeque w d vs)
    (room : length vs < int_max) (given : fresh ≢ null) (unused : w.links.live fresh ≡ false) where
  -- The list heads after the allocation.
  abbrev grown : Links
  grown = record w.links { live = update w.links.live fresh true }

  -- The heap when the entry is about to be linked.
  abbrev filled : Heap
  filled = record {
    links = grown;
    size = update w.size d (length vs + 1);
    value = update w.value fresh v;
  }

  outside : fresh ∉ d ∷ is.entries
  outside = ground (arith, is.list.live fresh)

  grown-IsList : IsList grown d is.entries
  grown-IsList =
      Ring-live w.links (update w.links.live fresh true) (d ∷ is.entries)
        (λ a i. ground (arith, is.list.live a)) is.list

  _deq_push-ok :
      (flag : Bool)
      → _deq_push fresh d flag v w
        ≡ relink filled (if flag then k_list_add_tail fresh d grown else k_list_add fresh d grown)
  unfolding _deq_push
  _deq_push-ok true = ground (arith, is.list.live d (ground arith), is.size)
  _deq_push-ok false = ground (arith, is.list.live d (ground arith), is.size)

  live_fresh : grown.live fresh ≡ true
  live_fresh = ground arith

  written : map filled.value is.entries ≡ vs
  written = map-update w.value fresh v is.entries (ground (arith, outside)) ∙ is.values

  absent : null ∉ fresh ∷ d ∷ is.entries
  absent = ground (arith, is.no_null)

  -- `deq_push_tail` puts a value behind the others and does not fault, if `malloc` gives an object and
  -- the counter has room.
  pub deq_push_tail-snoc : Returns (λ _ g. IsDeque g d (vs ++ v ∷ [])) (deq_push_tail fresh d v w)
  unfolding deq_push_tail
  deq_push_tail-snoc =
      let (_, l, e, (ring, _)) =
        Returns-inv (k_list_add_tail-IsList fresh grown-IsList outside live_fresh) in
      rw (_deq_push-ok true, e)
        (returns (record {
          entries = is.entries ++ fresh ∷ [];
          list = ring;
          values =
              map-append_one filled.value is.entries fresh
              ∙ ap₂ (λ a b. a ++ b ∷ []) written (ground arith);
          size = ground (arith, length-append vs (v ∷ []));
          small = omega (arith, length-append vs (v ∷ []));
          no_null = ground (arith, absent, count-append null is.entries (fresh ∷ []));
        }))

  -- `deq_push_head` puts a value in front of the others and does not fault, if `malloc` gives an
  -- object and the counter has room.
  pub deq_push_head-cons : Returns (λ _ g. IsDeque g d (v ∷ vs)) (deq_push_head fresh d v w)
  unfolding deq_push_head
  deq_push_head-cons =
      let (_, l, e, (ring, _)) =
        Returns-inv (k_list_add-IsList fresh grown-IsList outside live_fresh) in
      rw (_deq_push-ok false, e)
        (returns (record {
          entries = fresh ∷ is.entries;
          list = ring;
          values = ap₂ (λ a b. a ∷ b) (ground arith) written;
          size = ground arith;
          small = omega arith;
          no_null = ground (arith, absent);
        }))

-- Without memory a push dereferences NULL: `malloc` is not checked.
pub _deq_push-null :
    (w : Heap) (d : Addr) (flag : Bool) (v : ℕ)
    → w.links.live null ≡ false
    → _deq_push null d flag v w ≡ fault
unfolding _deq_push
_deq_push-null w d flag v unmapped = ground arith
