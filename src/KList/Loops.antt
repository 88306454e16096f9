-- ===== src/KList/Loops.antt =====
-- The loops over a list (`k_list_for_each`, its reverse, and the safe form): which entries they visit,
-- that they end, and that the safe form allows its body to delete the entry it stands at.
use hashtable_linux_kernel.Common.{
  ℕ, zero, suc, ◌+◌, ◌≡◌, ◌<◌, refl, true, List, [], ◌∷◌, arith, ◌∈◌, ◌∉◌, Cmd, ok, pure, Returns,
  returns, Returns-bind, foldl, reverse, ◌==◌, false, sym, ◌∙◌, length, count,
}
use mathlib.Core.List.{reverse_aux}
use hashtable_linux_kernel.Links.{Addr, Links, get_next, get_prev}
use hashtable_linux_kernel.KList.{
  list_for_each_from, k_list_for_each, for_each_safe_from, k_list_for_each_safe, k_list_del,
}
use hashtable_linux_kernel.KList.Delete.{k_list_del-IsList}
use hashtable_linux_kernel.KList.Ring.{Seg, IsList, next-mem}

-- From position `p` on, steps of `nx` stand at the nodes of `xs` and then at `h`.
abbrev pub Trail : (Addr → Addr) → Addr → List Addr → Addr → Type 0
Trail nx p [] h = p ≡ h
Trail nx p (x ∷ xs) h = (p ≡ x) × Trail nx (nx x) xs h

pub Trail-next :
    (m : Links) (p : Addr) (xs : List Addr) (q : Addr) → Seg m p xs q → Trail m.next (m.next p) xs q
Trail-next m p [] q s = s.0
Trail-next m p (x ∷ xs) q s = (s.0, Trail-next m x xs q s.2)

pub Trail-prev :
    (m : Links) (p : Addr) (xs : List Addr) (q : Addr) (ys : List Addr) (h : Addr)
    → Seg m p xs q
    → Trail m.prev p ys h
    → Trail m.prev (m.prev q) (reverse_aux xs ys) h
Trail-prev m p [] q ys h s t = rw s.1 t
Trail-prev m p (x ∷ xs) q ys h s t = Trail-prev m x xs q (x ∷ ys) h s.2 (refl, rw s.1 t)

pub count-reverse_aux :
    (a : ℕ) (xs ys : List ℕ) → count a (reverse_aux xs ys) ≡ count a xs + count a ys
count-reverse_aux a [] ys = omega arith
count-reverse_aux a (x ∷ xs) ys = omega (arith, count-reverse_aux a xs (x ∷ ys))

pub length-reverse_aux : (xs ys : List ℕ) → length (reverse_aux xs ys) ≡ length xs + length ys
length-reverse_aux [] ys = omega arith
length-reverse_aux (x ∷ xs) ys = omega (arith, length-reverse_aux xs (x ∷ ys))

-- A body that computes `f` and touches no list.
abbrev pub visit : {B : Type 0} → (B → Addr → B) → Addr → B → Cmd Links B
visit f pos acc = pure (f acc pos)

module _ {B : Type 0} (f : B → Addr → B) (m : Links) (h : Addr) where
  module _ (step : Addr → Cmd Links Addr) (nx : Addr → Addr)
      (steps : (a : Addr) → m.live a ≡ true → step a m ≡ ok (nx a) m) where
    from-foldl :
        (fuel : ℕ) (p : Addr) (xs : List Addr) (acc : B)
        → Trail nx p xs h
        → ((a : Addr) → a ∈ xs → m.live a ≡ true)
        → h ∉ xs
        → length xs < fuel
        → list_for_each_from step (visit f) h fuel p acc m ≡ ok (foldl f acc xs) m
    unfolding list_for_each_from
    from-foldl zero p xs acc t live out enough = absurd (omega arith)
    from-foldl (suc fuel) p [] acc t live out enough = ground arith
    from-foldl (suc fuel) p (x ∷ xs) acc t live out enough = ground (
      arith,
      steps x (live x (ground arith)),
      from-foldl fuel (nx x) xs (f acc x) t.1 (λ a i. live a (ground arith)) (ground arith)
          (omega arith),
    )

  -- With more fuel than entries `k_list_for_each` visits each entry once, in order, ends, and
  -- changes nothing.
  pub k_list_for_each-foldl :
      (fuel : ℕ) (xs : List Addr) (acc : B)
      → IsList m h xs
      → length xs < fuel
      → k_list_for_each get_next (visit f) h fuel acc m ≡ ok (foldl f acc xs) m
  unfolding k_list_for_each get_next
  k_list_for_each-foldl fuel xs acc r enough = ground (
    arith,
    r.live h (ground arith),
    from-foldl get_next m.next (λ a e. ground arith) fuel (m.next h) xs acc
        (Trail-next m h xs h r.cycle) (λ a i. r.live a (omega arith)) (ground (arith, r.distinct h))
        enough,
  )

  -- With more fuel than entries the loop over `prev` visits each entry once, in reverse order, ends,
  -- and changes nothing.
  pub k_list_for_each-reverse :
      (fuel : ℕ) (xs : List Addr) (acc : B)
      → IsList m h xs
      → length xs < fuel
      → k_list_for_each get_prev (visit f) h fuel acc m ≡ ok (foldl f acc (reverse xs)) m
  unfolding k_list_for_each get_prev
  k_list_for_each-reverse fuel xs acc r enough =
      let number = λ (a : Addr). count-reverse_aux a xs [] in
      ground (
        arith,
        r.live h (ground arith),
        from-foldl get_prev m.prev (λ a e. ground arith) fuel (m.prev h) (reverse xs) acc
            (Trail-prev m h xs h [] h r.cycle refl) (λ a i. r.live a (omega (arith, number a)))
            (ground (arith, r.distinct h, number h)) (omega (arith, length-reverse_aux xs [])),
      )

abbrev pub delete : Addr → Unit {0} → Cmd Links (Unit {0})
delete pos acc = k_list_del pos

unfoldable pub first_or : List Addr → Addr → Addr
first_or [] q = q
first_or (y ∷ ys) q = y

pub Seg-first_or :
    (m : Links) (p : Addr) (xs : List Addr) (q : Addr) → Seg m p xs q → m.next p ≡ first_or xs q
unfolding first_or
Seg-first_or m p [] q s = s.0
Seg-first_or m p (x ∷ xs) q s = s.0

delete_from :
    (fuel : ℕ) (m : Links) (h : Addr) (xs : List Addr)
    → IsList m h xs
    → length xs < fuel
    → Returns
        (λ _ g. IsList g h [])
        (for_each_safe_from get_next delete h fuel (m.next h) (m.next (m.next h)) tt m)
unfolding for_each_safe_from get_next
delete_from zero m h xs r enough = absurd (omega arith)
delete_from (suc fuel) m h [] r enough =
    let done : (m.next h == h) ≡ true = ground (arith, r.cycle.0) in rw done (returns r)
delete_from (suc fuel) m h (x ∷ xs) r enough =
    let more : (m.next h == h) ≡ false = ground (arith, r.cycle.0, r.distinct h) in
    rw (more, r.cycle.0)
      (Returns-bind (k_list_del-IsList [] x xs r) λ _ g (is, _, _, _).
        let after : m.next x ≡ g.next h =
          Seg-first_or m x xs h r.cycle.2 ∙ sym (Seg-first_or g h xs h is.cycle) in
        let live = is.live (g.next h) (next-mem g h xs is) in
        rw (after, live) (delete_from fuel g h xs is (omega arith)))

-- The safe loop may delete the entry that it stands at: with more fuel than entries it deletes every
-- entry, ends without a fault, and leaves the head as an empty list.
pub k_list_for_each_safe-delete :
    (fuel : ℕ) (m : Links) (h : Addr) (xs : List Addr)
    → IsList m h xs
    → length xs < fuel
    → Returns (λ _ g. IsList g h []) (k_list_for_each_safe get_next delete h fuel tt m)
unfolding k_list_for_each_safe get_next
k_list_for_each_safe-delete fuel m h xs r enough =
    rw (r.live h (ground arith), r.live (m.next h) (next-mem m h xs r))
      (delete_from fuel m h xs r enough)
