-- ===== src/Deque/Valid.antt =====
-- What a deque in memory stands for: the sequence of its values.
use hashtable_linux_kernel.Common.{
  ℕ, suc, ◌≡◌, ◌≤◌, refl, List, [], ◌∷◌, ◌++◌, map, length, arith, ◌∉◌, Run, ok, ap, ap₂,
}
use hashtable_linux_kernel.Links.{Addr, null, Links, update}
use hashtable_linux_kernel.KList.Ring.{IsList}
use hashtable_linux_kernel.Deque.{Heap, int_max, relink}

-- The deque at `d` holds the values `vs`, from head to tail.
pub record IsDeque (w : Heap) (d : Addr) (vs : List ℕ) : Type 0 where
  pub entries : List Addr
  pub list : IsList w.links d entries
  pub values : map w.value entries ≡ vs
  pub size : w.size d ≡ length vs
  pub small : length vs ≤ int_max
  pub no_null : null ∉ d ∷ entries

pub length-map_values : (f : Addr → ℕ) (es : List Addr) → length (map f es) ≡ length es
length-map_values f [] = refl
length-map_values f (e ∷ es) = ap suc (length-map_values f es)

-- A write to another object leaves the values.
pub map-update :
    (f : Addr → ℕ) (e : Addr) (v : ℕ) (es : List Addr) → e ∉ es → map (update f e v) es ≡ map f es
map-update f e v [] out = refl
map-update f e v (x ∷ es) out =
    ap₂ (λ a b. a ∷ b) (ground arith) (map-update f e v es (ground arith))

pub map-append_one :
    (f : Addr → ℕ) (es : List Addr) (e : Addr) → map f (es ++ e ∷ []) ≡ map f es ++ f e ∷ []
map-append_one f [] e = refl
map-append_one f (x ∷ es) e = ap (λ t. f x ∷ t) (map-append_one f es e)

-- A list function that ends well ends well in the heap.
pub relink-ok :
    {A : Type 0} (w : Heap) {r : Run Links A} {a : A} {l : Links}
    → r ≡ ok a l
    → relink w r ≡ ok a (record w { links = l })
relink-ok w e = ap (relink w) e

-- A deque with a last value has a last entry.
pub record Snoc (f : Addr → ℕ) (es : List Addr) (vs : List ℕ) (v : ℕ) : Type 0 where
  pub front : List Addr
  pub last : Addr
  pub split : es ≡ front ++ last ∷ []
  pub values : map f front ≡ vs
  pub value : f last ≡ v

pub Snoc-values :
    (f : Addr → ℕ) (es : List Addr) (vs : List ℕ) (v : ℕ) → map f es ≡ vs ++ v ∷ [] → Snoc f es vs v
Snoc-values f [] [] v h = absurd (cc)
Snoc-values f [] (u ∷ us) v h = absurd (cc)
Snoc-values f (e ∷ []) [] v h = record {
  front = [];
  last = e;
  split = refl;
  values = refl;
  value = cc;
}
Snoc-values f (e ∷ e' ∷ es) [] v h = absurd (cc)
Snoc-values f (e ∷ es) (u ∷ us) v h =
    let s = Snoc-values f es us v (cc) in
    record {
      front = e ∷ s.front;
      last = s.last;
      split = ap (λ t. e ∷ t) s.split;
      values = ap₂ (λ a b. a ∷ b) (cc) s.values;
      value = s.value;
    }

-- A deque with a first value has a first entry.
pub record Cons (f : Addr → ℕ) (es : List Addr) (v : ℕ) (vs : List ℕ) : Type 0 where
  pub first : Addr
  pub back : List Addr
  pub split : es ≡ first ∷ back
  pub values : map f back ≡ vs
  pub value : f first ≡ v

pub Cons-values :
    (f : Addr → ℕ) (es : List Addr) (v : ℕ) (vs : List ℕ) → map f es ≡ v ∷ vs → Cons f es v vs
Cons-values f [] v vs h = absurd (cc)
Cons-values f (e ∷ es) v vs h = record {
  first = e;
  back = es;
  split = refl;
  values = cc;
  value = cc;
}
