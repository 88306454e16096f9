-- ===== src/KList/Ring.antt =====
-- What the memory of list heads means: a cycle of linked nodes, and its invariance under rotation.
use hashtable_linux_kernel.Common.{
  Bool, ◌≡◌, ◌≢◌, Bool, true, List, [], ◌∷◌, ◌++◌, arith, Distinct, ◌∈◌, ◌∉◌, count-append,
  append-nil, subst, sym, unsnoc, refl, ◌∙◌,
}
use hashtable_linux_kernel.Links.{Addr, Links}

-- From `p` the links lead through `xs` to `q`, and back.
abbrev pub Seg : Links → Addr → List Addr → Addr → Type 0
Seg m p [] q = (m.next p ≡ q) × (m.prev q ≡ p)
Seg m p (x ∷ xs) q = (m.next p ≡ x) × (m.prev x ≡ p) × Seg m x xs q

abbrev pub Cycle : Links → List Addr → Type 0
Cycle m [] = Unit
Cycle m (x ∷ xs) = Seg m x xs x

-- The nodes of `c`, in this order, form one ring of live nodes.
pub record Ring (m : Links) (c : List Addr) : Type 0 where
  pub cycle : Cycle m c
  pub distinct : Distinct c
  pub live : (a : Addr) → a ∈ c → m.live a ≡ true

-- The list with head `h` holds the entries `xs`.
abbrev pub IsList : Links → Addr → List Addr → Type 0
IsList m h xs = Ring m (h ∷ xs)

-- `g` differs from `m` at most in the members of the nodes of `c`.
pub record SameOutside (c : List Addr) (m g : Links) : Type 0 where
  pub next : (a : Addr) → a ∉ c → g.next a ≡ m.next a
  pub prev : (a : Addr) → a ∉ c → g.prev a ≡ m.prev a
  pub live : (a : Addr) → g.live a ≡ m.live a

module _ (m : Links) where
  pub Seg-split :
      (p : Addr) (xs : List Addr) (y : Addr) (ys : List Addr) (q : Addr)
      → Seg m p (xs ++ y ∷ ys) q
      → Seg m p xs y × Seg m y ys q
  Seg-split p [] y ys q s = ((s.0, s.1), s.2)
  Seg-split p (x ∷ xs) y ys q s = let (a, b) = Seg-split x xs y ys q s.2 in ((s.0, s.1, a), b)

  pub Seg-join :
      (p : Addr) (xs : List Addr) (y : Addr) (ys : List Addr) (q : Addr)
      → Seg m p xs y
      → Seg m y ys q
      → Seg m p (xs ++ y ∷ ys) q
  Seg-join p [] y ys q s t = (s.0, s.1, t)
  Seg-join p (x ∷ xs) y ys q s t = (s.0, s.1, Seg-join x xs y ys q s.2 t)

  Cycle-rotate : (xs ys : List Addr) → Cycle m (xs ++ ys) → Cycle m (ys ++ xs)
  Cycle-rotate [] ys c = subst (Cycle m) (sym (append-nil ys)) c
  Cycle-rotate (x ∷ xs) [] c = subst (λ t. Cycle m (x ∷ t)) (append-nil xs) c
  Cycle-rotate (x ∷ xs) (y ∷ ys) c =
      let (a, b) = Seg-split x xs y ys x c in Seg-join y ys x xs y b a

  -- A ring has no first node.
  pub Ring-rotate : (xs ys : List Addr) → Ring m (xs ++ ys) → Ring m (ys ++ xs)
  Ring-rotate xs ys r = record {
    cycle = Cycle-rotate xs ys r.cycle;
    distinct = λ a. omega (arith, r.distinct a, count-append a xs ys, count-append a ys xs);
    live = λ a i. r.live a (omega (arith, count-append a xs ys, count-append a ys xs));
  }

  -- A segment survives any change that spares the `next` members of `p` and `xs` and the `prev`
  -- members of `xs` and `q`.
  pub Seg-frame :
      (g : Links) (p : Addr) (xs : List Addr) (q : Addr)
      → ((a : Addr) → a ∈ p ∷ xs → g.next a ≡ m.next a)
      → ((a : Addr) → a ∈ q ∷ xs → g.prev a ≡ m.prev a)
      → Seg m p xs q
      → Seg g p xs q
  Seg-frame g p [] q n v s = (ground (arith, n p), ground (arith, v q))
  Seg-frame g p (x ∷ xs) q n v s = (
    ground (arith, n p),
    ground (arith, v x),
    Seg-frame g x xs q (λ a i. n a (omega arith)) (λ a i. v a (ground arith)) s.2,
  )

  -- A ring survives any change that spares its own nodes.
  pub Ring-frame :
      {g : Links} (c d : List Addr)
      → SameOutside d m g
      → ((a : Addr) → a ∈ c → a ∉ d)
      → Ring m c
      → Ring g c
  Ring-frame [] d same apart r = record {
    cycle = tt;
    distinct = r.distinct;
    live = λ a i. absurd (omega arith);
  }
  Ring-frame {g} (x ∷ xs) d same apart r = record {
    cycle =
        Seg-frame g x xs x (λ a i. same.next a (apart a i)) (λ a i. same.prev a (apart a i))
          r.cycle;
    distinct = r.distinct;
    live = λ a i. ground (arith, same.live a, r.live a i);
  }

-- The node before the end of a segment is one of its nodes.
pub Seg-prev : (m : Links) (h : Addr) (x : Addr) (xs : List Addr) → Seg m x xs h → m.prev h ∈ x ∷ xs
Seg-prev m h x [] s = ground (arith, s)
Seg-prev m h x (y ∷ ys) s = omega (arith, Seg-prev m h y ys s.2)

-- A segment whose last node is linked to another end.
pub Seg-redirect :
    (m g : Links) (x : Addr) (xs : List Addr) (q n : Addr)
    → Distinct (x ∷ xs)
    → ((a : Addr) → a ∈ x ∷ xs → a ≢ m.prev q → g.next a ≡ m.next a)
    → ((a : Addr) → a ∈ xs → g.prev a ≡ m.prev a)
    → g.next (m.prev q) ≡ n
    → g.prev n ≡ m.prev q
    → Seg m x xs q
    → Seg g x xs n
Seg-redirect m g x [] q n once same_next same_prev e f s = (ground (arith, s), ground (arith, s))
Seg-redirect m g x (y ∷ ys) q n once same_next same_prev e f s =
    let member = Seg-prev m q y ys s.2 in
    (
      ground (arith, s.0, same_next x, once x, member),
      ground (arith, s.1, same_prev y),
      Seg-redirect m g y ys q n (λ a. ground (arith, once a))
          (λ a i o. same_next a (ground arith) o) (λ a i. same_prev a (ground arith)) e f s.2,
    )

-- The ring of a list, turned so that the node before the head comes first.
pub record Turned (m : Links) (h : Addr) (xs : List Addr) : Type 0 where
  pub init : List Addr
  pub last : Addr
  pub split : h ∷ xs ≡ init ++ last ∷ []
  pub prev : m.prev h ≡ last
  pub next : m.next last ≡ h
  pub ring : Ring m (last ∷ init)
  pub member : last ∈ h ∷ xs

module _ (m : Links) where
  turned_ends :
      (h l : Addr) (xs ys : List Addr)
      → h ∷ xs ≡ ys ++ l ∷ []
      → Cycle m (l ∷ ys)
      → (m.prev h ≡ l) × (m.next l ≡ h)
  turned_ends h l xs [] e c = (cc, cc)
  turned_ends h l xs (y ∷ ys) e c = (cc, cc)

  pub Ring-Turned : (h : Addr) (xs : List Addr) → Ring m (h ∷ xs) → Turned m h xs
  Ring-Turned h xs r =
      let (ys, l, e) = unsnoc h xs in
      let turned : Ring m (l ∷ ys) = Ring-rotate m ys (l ∷ []) (subst (Ring m) e r) in
      let ends = turned_ends h l xs ys e turned.cycle in
      record {
        init = ys;
        last = l;
        split = e;
        prev = ends.0;
        next = ends.1;
        ring = turned;
        member = subst (λ t. l ∈ t) (sym e) (ground (arith, count-append l ys (l ∷ [])));
      }

  pub next-mem : (p : Addr) (xs : List Addr) → Ring m (p ∷ xs) → m.next p ∈ p ∷ xs
  next-mem p [] r = ground (arith, r.cycle)
  next-mem p (x ∷ xs) r = ground (arith, r.cycle)

  pub prev-mem : (h : Addr) (xs : List Addr) → Ring m (h ∷ xs) → m.prev h ∈ h ∷ xs
  prev-mem h xs r = let t = Ring-Turned h xs r in subst (λ p. p ∈ h ∷ xs) (sym t.prev) t.member

pub SameOutside-trans :
    {m u g : Links} (c d e : List Addr)
    → SameOutside c m u
    → SameOutside d u g
    → ((a : Addr) → a ∉ e → (a ∉ c) × (a ∉ d))
    → SameOutside e m g
SameOutside-trans c d e s t sub = record {
  next = λ a o. t.next a (sub a o).1 ∙ s.next a (sub a o).0;
  prev = λ a o. t.prev a (sub a o).1 ∙ s.prev a (sub a o).0;
  live = λ a. t.live a ∙ s.live a;
}

-- Two rings that share no node.
abbrev pub Apart : List Addr → List Addr → Type 0
Apart c d = (a : Addr) → a ∈ c → a ∉ d

pub SameOutside-refl : (m : Links) (c : List Addr) → SameOutside c m m
SameOutside-refl m c = record { next = λ a o. refl; prev = λ a o. refl; live = λ a. refl }

-- Allocation and release elsewhere leave a ring alone.
pub Ring-live :
    (m : Links) (live : Addr → Bool) (c : List Addr)
    → ((a : Addr) → a ∈ c → live a ≡ true)
    → Ring m c
    → Ring (record m { live = live }) c
Ring-live m live [] alive r = record { cycle = tt; distinct = r.distinct; live = alive }
Ring-live m live (x ∷ xs) alive r = record {
  cycle = Seg-frame m (record m { live = live }) x xs x (λ a i. refl) (λ a i. refl) r.cycle;
  distinct = r.distinct;
  live = alive;
}
