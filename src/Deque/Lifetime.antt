-- ===== src/Deque/Lifetime.antt =====
-- `deque_create` and `deq_free`.
use hashtable_linux_kernel.Common.{
  ℕ, zero, suc, ◌≡◌, ◌≢◌, ◌<◌, refl, ap, ◌∙◌, Bool, true, false, List, [], ◌∷◌, length, arith, ◌∈◌,
  ◌∉◌, count, ok, Returns, returns, if◌then◌else◌, ◌==◌, Distinct, is_zero,
}
use mathlib.Core.Path.{fun_ext}
use hashtable_linux_kernel.Links.{Addr, null, Links, update, get_next}
use hashtable_linux_kernel.KList.{for_each_safe_from, k_list_for_each_safe}
use hashtable_linux_kernel.KList.Insert.{k_init_list_head-ok, initialised, initialised-IsList}
use hashtable_linux_kernel.KList.Ring.{IsList, Seg}
use hashtable_linux_kernel.Deque.{Heap, with_links, free, deque_create, deq_isempty, deq_free}
use hashtable_linux_kernel.Deque.Valid.{IsDeque, length-map_values}

module _ (w : Heap) (fresh : Addr) (given : fresh ≢ null) where
  abbrev grown : Links
  grown = record w.links { live = update w.links.live fresh true }

  live_fresh : grown.live fresh ≡ true
  live_fresh = ground arith

  deque_create-ok : deque_create fresh w ≡ ok fresh (record w { links = initialised grown fresh })
  unfolding deque_create
  deque_create-ok = ground (arith, k_init_list_head-ok grown fresh live_fresh)

  -- `deque_create` makes an empty list but leaves the counter as `malloc` gave it: the new deque
  -- counts as empty exactly when the memory happened to hold 0 there.
  pub deque_create-isempty :
      Returns
        (λ d g.
          (d ≡ fresh)
          × IsList g.links d []
          × (g.size d ≡ w.size fresh)
          × (deq_isempty d g ≡ ok (w.size fresh == 0) g))
        (deque_create fresh w)
  unfolding deq_isempty
  deque_create-isempty =
      rw deque_create-ok
        (returns (refl, initialised-IsList grown fresh live_fresh, refl, ground arith))

  -- Over zeroed memory the result is an empty deque.
  pub deque_create-IsDeque :
      w.size fresh ≡ 0 → Returns (λ d g. IsDeque g d []) (deque_create fresh w)
  deque_create-IsDeque zeroed = rw deque_create-ok (
      returns (record {
        entries = [];
        list = initialised-IsList grown fresh live_fresh;
        values = refl;
        size = zeroed;
        small = omega arith;
        no_null = ground arith;
      }))

-- What is live after the objects of a list are freed.
abbrev pub freed : (Addr → Bool) → List Addr → Addr → Bool
freed live xs a = if is_zero (count a xs) then live a else false

pub next-mem : (m : Links) (q : Addr) (xs : List Addr) (d : Addr) → Seg m q xs d → m.next q ∈ d ∷ xs
next-mem m q [] d s = ground (arith, s)
next-mem m q (x ∷ xs) d s = ground (arith, s)

module _ (w : Heap) (d : Addr) where
  abbrev pub with_live : (Addr → Bool) → Heap
  with_live live = record w { links = record w.links { live = live } }

  pub free_from :
      (fuel : ℕ) (live : Addr → Bool) (q : Addr) (xs : List Addr)
      → Seg w.links q xs d
      → ((a : Addr) → a ∈ d ∷ xs → live a ≡ true)
      → Distinct (d ∷ xs)
      → null ∉ xs
      → length xs < fuel
      → for_each_safe_from
          (λ p. with_links (get_next p))
          (λ item _. free item)
          d
          fuel
          (w.links.next q)
          (w.links.next (w.links.next q))
          tt
          (with_live live)
        ≡ ok tt (with_live (freed live xs))
  unfolding for_each_safe_from free get_next
  free_from zero live q xs s alive once non enough = absurd (omega arith)
  free_from (suc fuel) live q [] s alive once non enough = ground (arith, s.0)
  free_from (suc fuel) live q (x ∷ xs) s alive once non enough =
      let rest =
        free_from fuel (update live x false) x xs s.2 (λ a i. ground (arith, alive a, once a))
          (λ a. ground (arith, once a)) (ground arith) (omega arith) in
      let inside : (x == d) ≡ false = ground (arith, once d) in
      let proper : (x == null) ≡ false = ground arith in
      let successor : update live x false (w.links.next x) ≡ true =
        ground (arith, next-mem w.links x xs d s.2, alive (w.links.next x), once x) in
      let all : freed (update live x false) xs ≡ freed live (x ∷ xs) =
        fun_ext (λ a. ground arith) in
      rw (s.0, inside, proper, alive x (ground arith), successor)
        (rest ∙ ap (λ live'. ok tt (with_live live')) all)

-- `deq_free` with more fuel than entries ends without a fault, frees the deque and each of its
-- entries exactly once, frees nothing else, and writes nothing.
pub deq_free-freed :
    (w : Heap) (d : Addr) (vs : List ℕ) (fuel : ℕ) (is : IsDeque w d vs)
    → length vs < fuel
    → deq_free fuel d w
      ≡ ok tt (record w { links = record w.links { live = freed w.links.live (d ∷ is.entries) } })
unfolding deq_free k_list_for_each_safe get_next
deq_free-freed w d vs fuel is enough =
    let m = w.links in
    let first = next-mem m d is.entries d is.list.cycle in
    let loop =
      free_from w d fuel m.live d is.entries is.list.cycle is.list.live is.list.distinct
        (ground (arith, is.no_null))
        (omega (arith, enough, ap length is.values, length-map_values w.value is.entries)) in
    let here : freed m.live is.entries d ≡ true =
      ground (arith, is.list.live d, is.list.distinct d) in
    let proper : (d == null) ≡ false = ground (arith, is.no_null) in
    let all : update (freed m.live is.entries) d false ≡ freed m.live (d ∷ is.entries) =
      fun_ext (λ a. ground arith) in
    rw
      (
        is.list.live d (ground arith),
        is.list.live (m.next d) (ground (arith, first)),
        loop,
        proper,
        here,
      )
      (ap (λ live'. ok tt (with_live w d live')) all)
