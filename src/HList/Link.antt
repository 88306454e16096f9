-- ===== src/HList/Link.antt =====
-- Hooking a node into a chain, wherever, as the memory after it.
use hashtable_linux_kernel.Common.{
  ◌≡◌, refl, true, List, [], ◌∷◌, ◌++◌, arith, Distinct, ◌∈◌, ◌∉◌, count-append, if◌then◌else◌,
  is_zero,
}
use hashtable_linux_kernel.Links.{Addr, null, update}
use hashtable_linux_kernel.HLinks.{HLinks}
use hashtable_linux_kernel.HList.Chain.{HSeg, Chain, SameOutside, HSeg-frame, Chain-frame, next-mem}

-- The memory when `n` has been hooked in behind the pointer at `p`.
abbrev pub hooked : HLinks → (n p : Addr) → HLinks
hooked m n p = record m {
  next = update (update m.next n (m.next p)) p n;
  pprev = update (λ a. if is_zero (m.next p) then m.pprev a else update m.pprev (m.next p) n a) n p;
}

-- The object whose pointer leads to what follows `front`.
abbrev pub last_or : Addr → List Addr → Addr
last_or s [] = s
last_or s (f ∷ front) = last_or f front

pub last_or-mem : (s : Addr) (front : List Addr) → last_or s front ∈ s ∷ front
last_or-mem s [] = ground arith
last_or-mem s (f ∷ front) = omega (arith, last_or-mem f front)

pub HSeg-last_or :
    (m : HLinks) (s : Addr) (front back : List Addr)
    → HSeg m s (front ++ back)
    → HSeg m (last_or s front) back
HSeg-last_or m s [] back h = h
HSeg-last_or m s (f ∷ front) back h = HSeg-last_or m f front back h.2

hooked-first :
    (m : HLinks) (n p : Addr) (back : List Addr)
    → Distinct (p ∷ back)
    → null ∉ p ∷ back
    → n ∉ null ∷ p ∷ back
    → HSeg m p back
    → HSeg (hooked m n p) p (n ∷ back)
hooked-first m n p [] once proper out h = (ground arith, ground arith, ground (arith, h))
hooked-first m n p (b ∷ bs) once proper out h = (
  ground arith,
  ground arith,
  (
    ground (arith, h),
    ground (arith, h),
    HSeg-frame m (hooked m n p) b bs (λ a i. ground (arith, once p))
        (λ a i. ground (arith, h, once b)) h.2,
  ),
)

hooked-HSeg :
    (m : HLinks) (n s : Addr) (front back : List Addr)
    → Distinct (s ∷ front ++ back)
    → null ∉ s ∷ front ++ back
    → n ∉ null ∷ s ∷ front ++ back
    → HSeg m s (front ++ back)
    → HSeg (hooked m n (last_or s front)) s (front ++ n ∷ back)
hooked-HSeg m n s [] back once proper out h = hooked-first m n s back once proper out h
hooked-HSeg m n s (f ∷ front) back once proper out h =
    let number = λ (a : Addr). count-append a front back in
    let member = last_or-mem f front in
    let behind = next-mem m (last_or f front) back (HSeg-last_or m f front back h.2) in
    (
      ground (arith, h.0, member, once s, number s),
      ground (arith, h.1, behind, once f, number f),
      hooked-HSeg m n f front back (λ a. ground (arith, once a)) (ground arith) (ground arith) h.2,
    )

module _ {m : HLinks} {h : Addr} (n : Addr) (front back : List Addr) (c : Chain m h (front ++ back))
    (out : n ∉ null ∷ h ∷ front ++ back) (live : m.node_live n ≡ true) where
  -- The memory with the same members as after the hooking.
  pub hooked-Chain :
      (g : HLinks) → SameOutside [] (hooked m n (last_or h front)) g → Chain g h (front ++ n ∷ back)
  hooked-Chain g same =
      let number = λ (a : Addr). count-append a front back in
      let number' = λ (a : Addr). count-append a front (n ∷ back) in
      Chain-frame (hooked m n (last_or h front)) g h (front ++ n ∷ back) [] same (λ a i. refl)
        (record {
          seg = hooked-HSeg m n h front back c.distinct c.non_null out c.seg;
          distinct = λ a. ground (arith, c.distinct a, number a, number' a, out, number n);
          non_null = ground (arith, c.non_null, number null, number' null, out);
          nodes = λ a i. ground (arith, c.nodes a, number a, number' a);
          head = c.head;
        })

  -- What the hooking leaves elsewhere.
  pub hooked-SameOutside :
      (g : HLinks)
      → SameOutside [] (hooked m n (last_or h front)) g
      → SameOutside (n ∷ h ∷ front ++ back) m g
  hooked-SameOutside g same =
      let number = λ (a : Addr). count-append a front back in
      let member = last_or-mem h front in
      let behind = next-mem m (last_or h front) back (HSeg-last_or m h front back c.seg) in
      record {
        next = λ a o. ground (arith, same.next a, member, number a);
        pprev = λ a o. ground (arith, same.pprev a, behind, number a);
        node_live = same.node_live;
        head_live = same.head_live;
      }

pub last_or-snoc : (s : Addr) (front : List Addr) (x : Addr) → last_or s (front ++ x ∷ []) ≡ x
last_or-snoc s [] x = refl
last_or-snoc s (f ∷ front) x = last_or-snoc f front x
