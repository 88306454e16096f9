-- ===== src/Deque/Order.antt =====
-- The deque as a queue: `deq_push_tail` and `deq_pop_head` in any order.
use hashtable_linux_kernel.Common.{
  ℕ, ◌≡◌, ◌≢◌, ◌<◌, refl, ap, ◌∙◌, sym, subst, false, List, [], ◌∷◌, ◌++◌, arith, ok, Returns-inv,
  append_assoc,
}
use hashtable_linux_kernel.Links.{Addr, null}
use hashtable_linux_kernel.Deque.{Heap, int_max, deq_push_tail, deq_pop_head}
use hashtable_linux_kernel.Deque.Valid.{IsDeque}
use hashtable_linux_kernel.Deque.Push.{deq_push_tail-snoc}
use hashtable_linux_kernel.Deque.Pop.{pop_get-nil, deq_pop_head-cons}

-- The heaps that pushes at the tail and pops at the head lead to from `w`, with the values pushed and
-- popped so far. A push has room and fresh memory; a pop that counts returns an entry.
pub data Queued (w : Heap) (d : Addr) : (pushed popped : List ℕ) → Heap → Type 0 where
  start : Queued w d [] [] w
  push :
      {ps qs : List ℕ} {g g' : Heap} (fresh : Addr) (v : ℕ)
      → Queued w d ps qs g
      → g.size d < int_max
      → fresh ≢ null
      → g.links.live fresh ≡ false
      → deq_push_tail fresh d v g ≡ ok tt g'
      → Queued w d (ps ++ v ∷ []) qs g'
  pop :
      {ps qs : List ℕ} {g g' : Heap} (item : Addr)
      → Queued w d ps qs g
      → deq_pop_head d g ≡ ok item g'
      → item ≢ null
      → Queued w d ps (qs ++ g'.value item ∷ []) g'

-- The values that are still in the deque.
pub record Waiting (d : Addr) (ps qs : List ℕ) (g : Heap) : Type 0 where
  pub values : List ℕ
  pub is : IsDeque g d values
  pub order : ps ≡ qs ++ values

popped-Waiting :
    (d : Addr) (ps qs vs : List ℕ) (g g' : Heap) (item : Addr)
    → IsDeque g d vs
    → ps ≡ qs ++ vs
    → deq_pop_head d g ≡ ok item g'
    → item ≢ null
    → Waiting d ps (qs ++ g'.value item ∷ []) g'
popped-Waiting d ps qs [] g g' item is order run proper =
    let empty : deq_pop_head d g ≡ ok null g = (pop_get-nil g d is).0 in
    let none : item ≡ null = cc in absurd (proper none)
popped-Waiting d ps qs (v ∷ vs) g g' item is order run proper =
    let (i, h, run', p) = Returns-inv (deq_pop_head-cons g d v vs is) in
    let same : i ≡ item = cc in
    let same' : h ≡ g' = cc in
    let value : v ≡ g'.value item = sym p.value ∙ ap h.value same ∙ ap (λ k. k.value item) same' in
    record {
      values = vs;
      is = subst (λ k. IsDeque k d vs) same' p.rest;
      order = order ∙ ap (λ x. qs ++ x ∷ vs) value ∙ sym (append_assoc qs (g'.value item ∷ []) vs);
    }

pushed-Waiting :
    (d : Addr) (ps qs vs : List ℕ) (g g' : Heap) (fresh : Addr) (v : ℕ)
    → IsDeque g d vs
    → ps ≡ qs ++ vs
    → g.size d < int_max
    → fresh ≢ null
    → g.links.live fresh ≡ false
    → deq_push_tail fresh d v g ≡ ok tt g'
    → Waiting d (ps ++ v ∷ []) qs g'
pushed-Waiting d ps qs vs g g' fresh v is order room given unused run =
    let (_, h, run', p) =
      Returns-inv (deq_push_tail-snoc g d fresh v vs is (omega (arith, is.size)) given unused) in
    let same : h ≡ g' = cc in
    record {
      values = vs ++ v ∷ [];
      is = subst (λ k. IsDeque k d (vs ++ v ∷ [])) same p;
      order = ap (λ xs. xs ++ v ∷ []) order ∙ append_assoc qs vs (v ∷ []);
    }

-- The deque is a queue: from an empty deque, by pushes at the tail and pops at the head in any order, the
-- values pushed are at every time the values popped followed by those that are in it, in one order.
pub Queued-Waiting :
    (w : Heap) (d : Addr) (ps qs : List ℕ) (g : Heap)
    → IsDeque w d []
    → Queued w d ps qs g
    → Waiting d ps qs g
Queued-Waiting w d ps qs g empty start = record { values = []; is = empty; order = refl }
Queued-Waiting w d ps qs g empty (push fresh v before room given unused run) =
    let b = Queued-Waiting w d _ qs _ empty before in
    pushed-Waiting d _ qs b.values _ g fresh v b.is b.order room given unused run
Queued-Waiting w d ps qs g empty (pop item before run proper) =
    let b = Queued-Waiting w d ps _ _ empty before in
    popped-Waiting d ps _ b.values _ g item b.is b.order run proper
