-- ===== src/KList/EntryLoops.antt =====
-- The loops over the entries that list nodes are members of (the macros `k_list_for_each_entry...` of list.h).
use hashtable_linux_kernel.Common.{
  ℕ, zero, suc, ◌^◌, ◌≡◌, ◌<◌, ◌≤◌, refl, true, false, ◌==◌, if◌then◌else◌, List, [], ◌∷◌, arith,
  ◌∈◌, ◌∉◌, Cmd, ok, out_of_fuel, pure, ◌>>=◌, foldl, reverse, length, sym, ◌∙◌, ap, subst, Returns,
  returns, Returns-bind,
}
use mathlib.Core.List.{reverse_aux}
use hashtable_linux_kernel.Links.{Addr, Links, get_next, get_prev}
use hashtable_linux_kernel.KList.Ring.{IsList, next-mem}
use hashtable_linux_kernel.KList.{k_list_del}
use hashtable_linux_kernel.KList.Delete.{k_list_del-IsList}
use hashtable_linux_kernel.KList.Loops.{
  Trail, Trail-next, Trail-prev, count-reverse_aux, length-reverse_aux, visit, Seg-first_or,
  first_or,
}
use hashtable_linux_kernel.KList.Entries.{
  member_of, members, k_container_of, k_container_of-member_of, k_list_first_entry,
  k_list_last_entry, k_list_next_entry, k_list_prev_entry,
}

-- The loops of the macros: `step` goes from an entry to the next.
module _ {S B : Type 0} (offset : ℕ) (body : (pos : Addr) → B → Cmd S B) (head : Addr) where
  unfoldable pub entries_from : (step : Addr → Cmd S Addr) → ℕ → (pos : Addr) → B → Cmd S B
  entries_from step zero pos acc = λ _. out_of_fuel
  entries_from step (suc fuel) pos acc =
      if member_of offset pos == head
      then pure acc
      else do acc' ← body pos acc; n ← step pos; entries_from step fuel n acc'

  -- The entry after `pos` is found before the body runs.
  unfoldable pub safe_entries_from : (step : Addr → Cmd S Addr) → ℕ → (pos n : Addr) → B → Cmd S B
  safe_entries_from step zero pos n acc = λ _. out_of_fuel
  safe_entries_from step (suc fuel) pos n acc =
      if member_of offset pos == head
      then pure acc
      else do acc' ← body pos acc; n' ← step n; safe_entries_from step fuel n n' acc'

module _ {S B : Type 0} (next_of prev_of : Addr → Cmd S Addr) (offset : ℕ)
    (body : (pos : Addr) → B → Cmd S B) (head : Addr) (fuel : ℕ) where
  unfoldable pub k_list_for_each_entry : B → Cmd S B
  unfolding entries_from k_list_first_entry k_list_next_entry
  k_list_for_each_entry acc = do
    pos ← k_list_first_entry next_of prev_of offset head
    entries_from offset body head (k_list_next_entry next_of prev_of offset) fuel pos acc

  unfoldable pub k_list_for_each_entry_reverse : B → Cmd S B
  unfolding entries_from k_list_last_entry k_list_prev_entry
  k_list_for_each_entry_reverse acc = do
    pos ← k_list_last_entry next_of prev_of offset head
    entries_from offset body head (k_list_prev_entry next_of prev_of offset) fuel pos acc

  unfoldable pub k_list_for_each_entry_continue : (pos : Addr) → B → Cmd S B
  unfolding entries_from k_list_next_entry
  k_list_for_each_entry_continue pos acc = do
    pos' ← k_list_next_entry next_of prev_of offset pos
    entries_from offset body head (k_list_next_entry next_of prev_of offset) fuel pos' acc

  unfoldable pub k_list_for_each_entry_continue_reverse : (pos : Addr) → B → Cmd S B
  unfolding entries_from k_list_prev_entry
  k_list_for_each_entry_continue_reverse pos acc = do
    pos' ← k_list_prev_entry next_of prev_of offset pos
    entries_from offset body head (k_list_prev_entry next_of prev_of offset) fuel pos' acc

  unfoldable pub k_list_for_each_entry_from : (pos : Addr) → B → Cmd S B
  unfolding entries_from k_list_next_entry
  k_list_for_each_entry_from pos acc =
      entries_from offset body head (k_list_next_entry next_of prev_of offset) fuel pos acc

  unfoldable pub k_list_for_each_entry_safe : B → Cmd S B
  unfolding k_list_first_entry k_list_next_entry safe_entries_from
  k_list_for_each_entry_safe acc = do
    pos ← k_list_first_entry next_of prev_of offset head
    n ← k_list_next_entry next_of prev_of offset pos
    safe_entries_from offset body head (k_list_next_entry next_of prev_of offset) fuel pos n acc

  unfoldable pub k_list_for_each_entry_safe_continue : (pos : Addr) → B → Cmd S B
  unfolding k_list_next_entry safe_entries_from
  k_list_for_each_entry_safe_continue pos acc = do
    pos' ← k_list_next_entry next_of prev_of offset pos
    n ← k_list_next_entry next_of prev_of offset pos'
    safe_entries_from offset body head (k_list_next_entry next_of prev_of offset) fuel pos' n acc

  unfoldable pub k_list_for_each_entry_safe_from : (pos : Addr) → B → Cmd S B
  unfolding k_list_next_entry safe_entries_from
  k_list_for_each_entry_safe_from pos acc = do
    n ← k_list_next_entry next_of prev_of offset pos
    safe_entries_from offset body head (k_list_next_entry next_of prev_of offset) fuel pos n acc

  unfoldable pub k_list_for_each_entry_safe_reverse : B → Cmd S B
  unfolding k_list_last_entry k_list_prev_entry safe_entries_from
  k_list_for_each_entry_safe_reverse acc = do
    pos ← k_list_last_entry next_of prev_of offset head
    n ← k_list_prev_entry next_of prev_of offset pos
    safe_entries_from offset body head (k_list_prev_entry next_of prev_of offset) fuel pos n acc

member_of-k_container_of :
    (offset ptr : ℕ)
    → ptr < 2 ^ 64
    → offset ≤ 2 ^ 64
    → member_of offset (k_container_of offset ptr) ≡ ptr
unfolding k_container_of
member_of-k_container_of offset ptr small fits = omega arith

length-members : (offset : ℕ) (es : List Addr) → length (members offset es) ≡ length es
length-members offset [] = refl
length-members offset (e ∷ es) = ap suc (length-members offset es)

-- A list of entries: the nodes are their members, and every address has 64 bits.
pub record HasEntries (m : Links) (offset : ℕ) (h : Addr) (es : List Addr) : Type 0 where
  pub list : IsList m h (members offset es)
  pub head_small : h < 2 ^ 64
  pub small : (e : Addr) → e ∈ es → e < 2 ^ 64
  pub fits : offset ≤ 2 ^ 64

module _ {B : Type 0} (f : B → Addr → B) (m : Links) (offset : ℕ) (h : Addr) where
  module _ (step : Addr → Cmd Links Addr) (nx : Addr → Addr)
      (steps : (e : Addr)
        → m.live (member_of offset e) ≡ true
        → step e m ≡ ok (k_container_of offset (nx (member_of offset e))) m)
      (fits : offset ≤ 2 ^ 64) (head_small : h < 2 ^ 64) where
    entries_from-foldl :
        (fuel : ℕ) (p : Addr) (es : List Addr) (acc : B)
        → Trail nx p (members offset es) h
        → ((a : Addr) → a ∈ members offset es → m.live a ≡ true)
        → ((e : Addr) → e ∈ es → e < 2 ^ 64)
        → h ∉ members offset es
        → length es < fuel
        → entries_from offset (visit f) h step fuel (k_container_of offset p) acc m
          ≡ ok (foldl f acc es) m
    unfolding entries_from
    entries_from-foldl zero p es acc t live small out enough = absurd (omega arith)
    entries_from-foldl (suc fuel) p [] acc t live small out enough =
        let done : (member_of offset (k_container_of offset h) == h) ≡ true =
          ground (arith, member_of-k_container_of offset h head_small fits) in
        rw (t, done) refl
    entries_from-foldl (suc fuel) p (e ∷ es) acc t live small out enough =
        let more : (member_of offset e == h) ≡ false = ground arith in
        rw
          (
            t.0,
            k_container_of-member_of offset e (small e (ground arith)) fits,
            more,
            steps e (live (member_of offset e) (ground arith)),
          )
          (entries_from-foldl fuel (nx (member_of offset e)) es (f acc e) t.1
            (λ a o. live a (omega arith)) (λ a o. small a (omega arith)) (ground arith)
            (omega arith))

reverse_aux-members :
    (offset : ℕ) (es fs : List Addr)
    → reverse_aux (members offset es) (members offset fs) ≡ members offset (reverse_aux es fs)
reverse_aux-members offset [] fs = refl
reverse_aux-members offset (e ∷ es) fs = reverse_aux-members offset es (e ∷ fs)

module _ {B : Type 0} (f : B → Addr → B) (m : Links) (offset : ℕ) (h : Addr) where
  -- With more fuel than entries `k_list_for_each_entry` visits each entry of a list once, in order, and
  -- `k_list_for_each_entry_reverse` in reverse order; both end and change nothing.
  pub k_list_for_each_entry-foldl :
      (fuel : ℕ) (es : List Addr) (acc : B)
      → HasEntries m offset h es
      → length es < fuel
      → (k_list_for_each_entry get_next get_prev offset (visit f) h fuel acc m
          ≡ ok (foldl f acc es) m)
        × (k_list_for_each_entry_reverse get_next get_prev offset (visit f) h fuel acc m
            ≡ ok (foldl f acc (reverse es)) m)
  unfolding k_list_for_each_entry k_list_for_each_entry_reverse k_list_first_entry k_list_last_entry
      k_list_next_entry k_list_prev_entry get_next get_prev
  k_list_for_each_entry-foldl fuel es acc is enough =
      let live_h = is.list.live h (ground arith) in
      let number = λ (a : Addr). count-reverse_aux a (members offset es) [] in
      let turned : reverse_aux (members offset es) [] ≡ members offset (reverse es) =
        reverse_aux-members offset es [] in
      let forward =
        entries_from-foldl f m offset h (k_list_next_entry get_next get_prev offset) m.next
          (λ e live. rw live refl) is.fits is.head_small fuel (m.next h) es acc
          (Trail-next m h (members offset es) h is.list.cycle) (λ a o. is.list.live a (omega arith))
          is.small (ground (arith, is.list.distinct h)) enough in
      let back =
        entries_from-foldl f m offset h (k_list_prev_entry get_next get_prev offset) m.prev
          (λ e live. rw live refl) is.fits is.head_small fuel (m.prev h) (reverse es) acc
          (subst (λ t. Trail m.prev (m.prev h) t h) turned
            (Trail-prev m h (members offset es) h [] h is.list.cycle refl))
          (subst (λ t. (a : Addr) → a ∈ t → m.live a ≡ true) turned
            (λ a o. is.list.live a (omega (arith, number a))))
          (λ e o. is.small e (omega (arith, count-reverse_aux e es [])))
          (subst (λ t. h ∉ t) turned (ground (arith, is.list.distinct h, number h)))
          (omega (arith, length-reverse_aux es [])) in
      (rw live_h forward, rw live_h back)

-- `k_list_del(&pos->member)`.
abbrev pub delete_member : (offset pos : ℕ) → Unit {0} → Cmd Links (Unit {0})
delete_member offset pos acc = k_list_del (member_of offset pos)

module _ (offset : ℕ) (h : Addr) (fits : offset ≤ 2 ^ 64) (head_small : h < 2 ^ 64) where
  first_small : (es : List Addr) → first_or (members offset es) h < 2 ^ 64
  unfolding first_or
  first_small [] = head_small
  first_small (e ∷ es) = omega arith

  delete_entries_from :
      (fuel : ℕ) (m : Links) (es : List Addr)
      → IsList m h (members offset es)
      → ((e : Addr) → e ∈ es → e < 2 ^ 64)
      → length es < fuel
      → Returns
          (λ _ g. IsList g h [])
          (safe_entries_from offset
            (delete_member offset)
            h
            (k_list_next_entry get_next get_prev offset)
            fuel
            (k_container_of offset (m.next h))
            (k_container_of offset (m.next (m.next h)))
            tt
            m)
  unfolding safe_entries_from k_list_next_entry get_next
  delete_entries_from zero m es r small enough = absurd (omega arith)
  delete_entries_from (suc fuel) m [] r small enough =
      let done : (member_of offset (k_container_of offset (m.next h)) == h) ≡ true =
        ground (arith, r.cycle.0, member_of-k_container_of offset h head_small fits) in
      rw done (returns r)
  delete_entries_from (suc fuel) m (e ∷ es) r small enough =
      let x = member_of offset e in
      let more : (x == h) ≡ false = ground (arith, r.distinct h) in
      rw (r.cycle.0, k_container_of-member_of offset e (small e (ground arith)) fits, more)
        (Returns-bind (k_list_del-IsList [] x (members offset es) r) λ _ g (is, _, _, _).
          let after : m.next x ≡ g.next h =
            Seg-first_or m x (members offset es) h r.cycle.2
            ∙ sym (Seg-first_or g h (members offset es) h is.cycle) in
          let live = is.live (g.next h) (next-mem g h (members offset es) is) in
          let back : member_of offset (k_container_of offset (g.next h)) ≡ g.next h =
            member_of-k_container_of offset (g.next h)
              (omega (arith, first_small es, Seg-first_or g h (members offset es) h is.cycle))
              fits in
          rw (after, back, live)
            (delete_entries_from fuel g es is (λ a o. small a (omega arith)) (omega arith)))

-- `k_list_for_each_entry_safe` may delete the entry that it stands at: with more fuel than entries it
-- deletes every entry, ends without a fault, and leaves the head as an empty list.
pub k_list_for_each_entry_safe-delete :
    (offset : ℕ) (fuel : ℕ) (m : Links) (h : Addr) (es : List Addr)
    → HasEntries m offset h es
    → length es < fuel
    → Returns
        (λ _ g. IsList g h [])
        (k_list_for_each_entry_safe get_next get_prev offset (delete_member offset) h fuel tt m)
unfolding k_list_for_each_entry_safe k_list_first_entry k_list_next_entry get_next
k_list_for_each_entry_safe-delete offset fuel m h es is enough =
    let first : m.next h ≡ first_or (members offset es) h =
      Seg-first_or m h (members offset es) h is.list.cycle in
    let back : member_of offset (k_container_of offset (m.next h)) ≡ m.next h =
      member_of-k_container_of offset (m.next h)
        (omega (arith, first, first_small offset h is.fits is.head_small es)) is.fits in
    rw
      (
        is.list.live h (ground arith),
        back,
        is.list.live (m.next h) (next-mem m h (members offset es) is.list),
      )
      (delete_entries_from offset h is.fits is.head_small fuel m es is.list is.small enough)
