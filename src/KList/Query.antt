-- ===== src/KList/Query.antt =====
-- The tests and the reads of a list (`k_list_empty`, `k_list_empty_careful`, `k_list_is_singular`,
-- `k_list_is_last`, `k_list_first_entry_or_null`, `k_list_last_entry_or_null`).
use hashtable_linux_kernel.Common.{
  Bool, ◌≡◌, ◌≢◌, true, false, List, [], ◌∷◌, ◌++◌, arith, ok, count-append, Option, none, some,
  is_nil,
}
use hashtable_linux_kernel.Links.{Addr, Links, get_next, get_prev}
use hashtable_linux_kernel.KList.{
  k_list_empty, k_list_empty_careful, k_list_is_singular, k_list_is_last,
  k_list_first_entry_or_null, k_list_last_entry_or_null,
}
use hashtable_linux_kernel.KList.Ring.{Seg, IsList, Seg-split, Seg-prev}

abbrev pub head? : List Addr → Option Addr
head? [] = none
head? (x ∷ xs) = some x

abbrev pub get_last? : List Addr → Option Addr
get_last? [] = none
get_last? (x ∷ []) = some x
get_last? (x ∷ y ∷ xs) = get_last? (y ∷ xs)

abbrev pub is_single : List Addr → Bool
is_single (x ∷ []) = true
is_single _ = false

Seg-get_last? :
    (m : Links) (h : Addr) (x : Addr) (xs : List Addr)
    → Seg m x xs h
    → get_last? (x ∷ xs) ≡ some (m.prev h)
Seg-get_last? m h x [] s = ground (arith, s)
Seg-get_last? m h x (y ∷ ys) s = Seg-get_last? m h y ys s.2

module _ {m : Links} {h : Addr} where
  live_head : (xs : List Addr) → IsList m h xs → m.live h ≡ true
  live_head xs r = r.live h (ground arith)

  -- `k_list_empty` tells whether the list has no entry, and writes nothing.
  pub k_list_empty-is_nil : (xs : List Addr) → IsList m h xs → k_list_empty h m ≡ ok (is_nil xs) m
  unfolding k_list_empty get_next
  k_list_empty-is_nil [] r = ground (arith, live_head [] r, r.cycle)
  k_list_empty-is_nil (x ∷ xs) r = ground (arith, live_head (x ∷ xs) r, r.cycle, r.distinct h)

  pub k_list_empty_careful-is_nil :
      (xs : List Addr) → IsList m h xs → k_list_empty_careful h m ≡ ok (is_nil xs) m
  unfolding k_list_empty_careful get_next get_prev
  k_list_empty_careful-is_nil [] r = ground (arith, live_head [] r, r.cycle)
  k_list_empty_careful-is_nil (x ∷ xs) r =
      ground (arith, live_head (x ∷ xs) r, r.cycle, r.distinct h)

  prev-ne-next : (x y : Addr) (xs : List Addr) → IsList m h (x ∷ y ∷ xs) → m.prev h ≢ x
  prev-ne-next x y xs r e = ground (arith, Seg-prev m h y xs r.cycle.2.2, r.distinct x)

  -- `k_list_is_singular` tells whether the list has exactly one entry, and writes nothing.
  pub k_list_is_singular-is_single :
      (xs : List Addr) → IsList m h xs → k_list_is_singular h m ≡ ok (is_single xs) m
  unfolding k_list_is_singular get_next get_prev
  k_list_is_singular-is_single [] r = rw (k_list_empty-is_nil [] r)
  k_list_is_singular-is_single (x ∷ []) r =
      rw (k_list_empty-is_nil (x ∷ []) r) (ground (arith, live_head (x ∷ []) r, r.cycle))
  k_list_is_singular-is_single (x ∷ y ∷ xs) r =
      rw (k_list_empty-is_nil (x ∷ y ∷ xs) r)
        (ground (arith, live_head (x ∷ y ∷ xs) r, r.cycle, prev-ne-next x y xs r))

  -- `k_list_first_entry_or_null` returns the first entry, or NULL if there is none.
  pub k_list_first_entry_or_null-head? :
      (xs : List Addr) → IsList m h xs → k_list_first_entry_or_null h m ≡ ok (head? xs) m
  unfolding k_list_first_entry_or_null get_next
  k_list_first_entry_or_null-head? [] r = rw (k_list_empty-is_nil [] r)
  k_list_first_entry_or_null-head? (x ∷ xs) r =
      rw (k_list_empty-is_nil (x ∷ xs) r) (ground (arith, live_head (x ∷ xs) r, r.cycle))

  pub k_list_last_entry_or_null-get_last? :
      (xs : List Addr) → IsList m h xs → k_list_last_entry_or_null h m ≡ ok (get_last? xs) m
  unfolding k_list_last_entry_or_null get_prev
  k_list_last_entry_or_null-get_last? [] r = rw (k_list_empty-is_nil [] r)
  k_list_last_entry_or_null-get_last? (x ∷ xs) r =
      rw (k_list_empty-is_nil (x ∷ xs) r, Seg-get_last? m h x xs r.cycle.2)
        (ground (arith, live_head (x ∷ xs) r))

  -- `k_list_is_last` tells of an entry whether no other follows it in the list.
  pub k_list_is_last-is_nil :
      (front : List Addr) (x : Addr) (back : List Addr)
      → IsList m h (front ++ x ∷ back)
      → k_list_is_last x h m ≡ ok (is_nil back) m
  unfolding k_list_is_last get_next
  k_list_is_last-is_nil front x [] r =
      let after = (Seg-split m h front x [] h r.cycle).1 in
      ground (arith, after, r.live x (ground (arith, count-append x front (x ∷ []))))
  k_list_is_last-is_nil front x (y ∷ back) r =
      let after = (Seg-split m h front x (y ∷ back) h r.cycle).1 in
      ground (
        arith,
        after.0,
        r.live x (ground (arith, count-append x front (x ∷ y ∷ back))),
        r.distinct h,
        count-append h front (x ∷ y ∷ back),
      )
