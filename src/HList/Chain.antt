-- ===== src/HList/Chain.antt =====
-- What the memory of a list with a one-pointer head means: a chain of nodes.
use hashtable_linux_kernel.Common.{◌≡◌, true, List, [], ◌∷◌, ◌++◌, arith, Distinct, ◌∈◌, ◌∉◌}
use hashtable_linux_kernel.Links.{Addr, null}
use hashtable_linux_kernel.HLinks.{HLinks}

-- The pointer at `p` leads to the first of `xs`, each `next` to the following node, each `pprev`
-- back, and the last `next` is NULL.
abbrev pub HSeg : HLinks → Addr → List Addr → Type 0
HSeg m p [] = m.next p ≡ null
HSeg m p (x ∷ xs) = (m.next p ≡ x) × (m.pprev x ≡ p) × HSeg m x xs

-- The chain at head `h` holds the nodes `xs`.
pub record Chain (m : HLinks) (h : Addr) (xs : List Addr) : Type 0 where
  pub seg : HSeg m h xs
  pub distinct : Distinct (h ∷ xs)
  pub non_null : null ∉ h ∷ xs
  pub nodes : (a : Addr) → a ∈ xs → m.node_live a ≡ true
  pub head : m.head_live h ≡ true

-- `g` differs from `m` at most in the objects at the addresses of `c`.
pub record SameOutside (c : List Addr) (m g : HLinks) : Type 0 where
  pub next : (a : Addr) → a ∉ c → g.next a ≡ m.next a
  pub pprev : (a : Addr) → a ∉ c → g.pprev a ≡ m.pprev a
  pub node_live : (a : Addr) → g.node_live a ≡ m.node_live a
  pub head_live : (a : Addr) → g.head_live a ≡ m.head_live a

module _ (m g : HLinks) where
  -- A segment survives any change that spares the `next` members of `p` and `xs` and the `pprev`
  -- members of `xs`.
  pub HSeg-frame :
      (p : Addr) (xs : List Addr)
      → ((a : Addr) → a ∈ p ∷ xs → g.next a ≡ m.next a)
      → ((a : Addr) → a ∈ xs → g.pprev a ≡ m.pprev a)
      → HSeg m p xs
      → HSeg g p xs
  HSeg-frame p [] n v s = ground (arith, n p)
  HSeg-frame p (x ∷ xs) n v s = (
    ground (arith, n p),
    ground (arith, v x),
    HSeg-frame x xs (λ a i. n a (omega arith)) (λ a i. v a (omega arith)) s.2,
  )

  -- A chain survives any change that spares its own objects.
  pub Chain-frame :
      (h : Addr) (xs d : List Addr)
      → SameOutside d m g
      → ((a : Addr) → a ∈ h ∷ xs → a ∉ d)
      → Chain m h xs
      → Chain g h xs
  Chain-frame h xs d same apart c = record {
    seg =
        HSeg-frame h xs (λ a i. same.next a (apart a i))
          (λ a i. same.pprev a (apart a (omega arith))) c.seg;
    distinct = c.distinct;
    non_null = c.non_null;
    nodes = λ a i. ground (arith, same.node_live a, c.nodes a i);
    head = ground (arith, same.head_live h, c.head);
  }

module _ (m : HLinks) where
  -- The node behind the pointer at `p`, if any, is the first of the chain.
  pub next-mem : (p : Addr) (xs : List Addr) → HSeg m p xs → m.next p ∈ null ∷ xs
  next-mem p [] s = ground arith
  next-mem p (x ∷ xs) s = ground (arith, s.0)

  pub pprev-mem :
      (p : Addr) (front : List Addr) (x : Addr) (back : List Addr)
      → HSeg m p (front ++ x ∷ back)
      → m.pprev x ∈ p ∷ front
  pprev-mem p [] x back s = ground (arith, s.1)
  pprev-mem p (f ∷ front) x back s = omega (arith, pprev-mem f front x back s.2)

  pub HSeg-tail :
      (p : Addr) (front : List Addr) (x : Addr) (back : List Addr)
      → HSeg m p (front ++ x ∷ back)
      → HSeg m x back
  HSeg-tail p [] x back s = s.2
  HSeg-tail p (f ∷ front) x back s = HSeg-tail f front x back s.2
