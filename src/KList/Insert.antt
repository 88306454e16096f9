-- ===== src/KList/Insert.antt =====
-- Insertion behind a node, at the front and at the tail (`__list_add`, `k_list_add`,
-- `k_list_add_tail`), and the initialisation of a head.
use hashtable_linux_kernel.Common.{
  ◌≡◌, refl, true, List, [], ◌∷◌, ◌++◌, arith, count, ◌∈◌, ◌∉◌, ok, Returns, returns, count-append,
  append_assoc, subst, sym, ap, ◌∙◌,
}
use hashtable_linux_kernel.Links.{Addr, Links, update, get_next, get_prev, set_next, set_prev}
use hashtable_linux_kernel.KList.{k_init_list_head, __list_add, k_list_add, k_list_add_tail}
use hashtable_linux_kernel.KList.Ring.{
  next-mem, prev-mem, Ring-Turned, Ring, IsList, SameOutside, Seg-frame, Ring-rotate,
}

-- The memory after `K_INIT_LIST_HEAD`.
abbrev pub initialised : Links → Addr → Links
initialised m p = record m { next = update m.next p p; prev = update m.prev p p }

module _ (m : Links) (p : Addr) (live : m.live p ≡ true) where
  pub k_init_list_head-ok : k_init_list_head p m ≡ ok tt (initialised m p)
  unfolding k_init_list_head set_next set_prev
  k_init_list_head-ok = ground arith

  pub initialised-IsList : IsList (initialised m p) p []
  initialised-IsList = record {
    cycle = (ground arith, ground arith);
    distinct = λ a. ground arith;
    live = λ a i. ground arith;
  }

  pub initialised-SameOutside : SameOutside (p ∷ []) m (initialised m p)
  initialised-SameOutside = record {
    next = λ a o. ground arith;
    prev = λ a o. ground arith;
    live = λ a. refl;
  }

-- The memory after `__list_add`.
abbrev pub linked : Links → (new prev next : Addr) → Links
linked m new prev next = record m {
  next = update (update m.next new next) prev new;
  prev = update (update m.prev next new) new prev;
}

pub __list_add-ok :
    (m : Links) (new prev next : Addr)
    → m.live new ≡ true
    → m.live prev ≡ true
    → m.live next ≡ true
    → __list_add new prev next m ≡ ok tt (linked m new prev next)
unfolding __list_add set_next set_prev
__list_add-ok m new prev next a b c = ground arith

-- Behind `p` a node that is not in the ring is linked in.
pub linked-Ring :
    (m : Links) (new p : Addr) (xs : List Addr)
    → new ∉ p ∷ xs
    → m.live new ≡ true
    → Ring m (p ∷ xs)
    → Ring (linked m new p (m.next p)) (p ∷ new ∷ xs)
linked-Ring m new p [] out live r = record {
  cycle = (ground arith, ground arith, (ground (arith, r.cycle), ground (arith, r.cycle)));
  distinct = λ a. ground (arith, r.distinct a);
  live = λ a i. ground (arith, r.live a);
}
linked-Ring m new p (y ∷ ys) out live r = record {
  cycle = (
    ground arith,
    ground (arith, r.cycle),
    (
      ground (arith, r.cycle),
      ground (arith, r.cycle),
      Seg-frame m (linked m new p (m.next p)) y ys p
          (λ a i. ground (arith, r.distinct a, r.distinct p))
          (λ a i. ground (arith, r.cycle, r.distinct a, r.distinct p, r.distinct y)) r.cycle.2,
    ),
  );
  distinct = λ a. ground (arith, r.distinct a);
  live = λ a i. ground (arith, r.live a);
}

linked-SameOutside :
    (m : Links) (d : List Addr) (new p q : Addr)
    → new ∈ d
    → p ∈ d
    → q ∈ d
    → SameOutside d m (linked m new p q)
linked-SameOutside m d new p q a b c = record {
  next = λ x o. ground arith;
  prev = λ x o. ground arith;
  live = λ x. refl;
}

linked-Ring_tail :
    (m : Links) (h : Addr) (xs : List Addr) (new : Addr)
    → new ∉ h ∷ xs
    → m.live new ≡ true
    → Ring m (h ∷ xs)
    → Ring (linked m new (m.prev h) h) (h ∷ xs ++ new ∷ [])
linked-Ring_tail m h xs new out live r =
    let t = Ring-Turned m h xs r in
    let out' : count new (t.last ∷ t.init) ≡ 0 =
      omega (arith, ap (count new) t.split, count-append new t.init (t.last ∷ [])) in
    let base = linked-Ring m new t.last t.init out' live t.ring in
    let front = Ring-rotate _ (t.last ∷ new ∷ []) t.init base in
    let split : (h ∷ xs) ++ new ∷ [] ≡ t.init ++ t.last ∷ new ∷ [] =
      ap (λ c. c ++ new ∷ []) t.split ∙ append_assoc t.init (t.last ∷ []) (new ∷ []) in
    subst (λ p. Ring (linked m new p h) (h ∷ xs ++ new ∷ [])) (sym t.prev)
      (subst (λ q. Ring (linked m new t.last q) (h ∷ xs ++ new ∷ [])) t.next
        (subst (Ring (linked m new t.last (m.next t.last))) (sym split) front))

module _ {m : Links} {h : Addr} {xs : List Addr} (new : Addr) (r : IsList m h xs)
    (out : new ∉ h ∷ xs) (live : m.live new ≡ true) where
  -- `k_list_add` puts the new node in front of the entries of a list, does not fault, and writes no
  -- node outside the list but the new one.
  pub k_list_add-IsList :
      Returns (λ _ g. IsList g h (new ∷ xs) × SameOutside (new ∷ h ∷ xs) m g) (k_list_add new h m)
  unfolding k_list_add get_next
  k_list_add-IsList =
      rw
        (
          r.live h (ground arith),
          __list_add-ok m new h (m.next h) live (r.live h (ground arith))
              (r.live _ (next-mem m h xs r)),
        )
        (returns (
          linked-Ring m new h xs out live r,
          linked-SameOutside m (new ∷ h ∷ xs) new h (m.next h) (ground arith) (ground arith)
              (omega (arith, next-mem m h xs r)),
        ))

  -- `k_list_add_tail` puts the new node behind the entries of a list, does not fault, and writes no
  -- node outside the list but the new one.
  pub k_list_add_tail-IsList :
      Returns
        (λ _ g. IsList g h (xs ++ new ∷ []) × SameOutside (new ∷ h ∷ xs) m g)
        (k_list_add_tail new h m)
  unfolding k_list_add_tail get_prev
  k_list_add_tail-IsList =
      let member = prev-mem m h xs r in
      rw
        (
          r.live h (ground arith),
          __list_add-ok m new (m.prev h) h live (r.live _ member) (r.live h (ground arith)),
        )
        (returns (
          linked-Ring_tail m h xs new out live r,
          linked-SameOutside m (new ∷ h ∷ xs) new (m.prev h) h (ground arith)
              (omega (arith, member)) (ground arith),
        ))
