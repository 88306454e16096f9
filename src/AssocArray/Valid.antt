-- ===== src/AssocArray/Valid.antt =====
-- What the memory of an associative array means: one sequence of entries, newest first, of which the
-- list is the reverse and each bucket a part.
use hashtable_linux_kernel.Common.{
  ℕ, ◌%◌, ◌^◌, ◌≡◌, ◌<◌, refl, ap₂, Bool, true, ◌==◌, if◌then◌else◌, Option, none, some, List, [],
  ◌∷◌, ◌++◌, arith, length, ◌∈◌, count, count-append, Bool-cases, inl, inr,
}
use native.Mathlib.Nat.{mod-lt, one-le-pow}
use hashtable_linux_kernel.Links.{Addr}
use hashtable_linux_kernel.HLinks.{HLinks}
use hashtable_linux_kernel.HList.Chain.{HSeg-frame}
use hashtable_linux_kernel.KList.Ring.{IsList}
use hashtable_linux_kernel.Hash.{hash32_str}
use hashtable_linux_kernel.Hashtable.Buckets.{IsTable}
use hashtable_linux_kernel.World.{World, lnode, list_of}
use hashtable_linux_kernel.AssocArray.Find.{key_of, IsArray}

abbrev pub or_zero : Option ℕ → ℕ
or_zero none = 0
or_zero (some h) = h

-- The bucket of a key in a table of `2 ^ bits` buckets.
abbrev pub bucket_for : (bits : ℕ) (key : List ℕ) → ℕ
bucket_for bits key = or_zero (hash32_str key) % 2 ^ bits

-- The entries of bucket `i`, newest first.
abbrev pub bucket_of : (w : World) (bits : ℕ) (rs : List Addr) (i : ℕ) → List Addr
bucket_of w bits [] i = []
bucket_of w bits (r ∷ rs) i =
    if i == bucket_for bits (key_of w r) then r ∷ bucket_of w bits rs i else bucket_of w bits rs i

-- The list nodes of the entries, oldest first.
abbrev pub oldest_first : List Addr → List Addr
oldest_first [] = []
oldest_first (r ∷ rs) = oldest_first rs ++ lnode r ∷ []

abbrev pub bits_of : World → Addr → ℕ
bits_of w arr = w.tables.bits (w.ht arr)

-- The array at `arr` holds the entries `rs`, newest first.
pub record IsAssoc (w : World) (arr : Addr) (rs : List Addr) : Type 0 where
  pub array : IsArray w arr (bucket_of w (bits_of w arr) rs)
  pub list : IsList w.links (list_of arr) (oldest_first rs)
  pub size : w.size arr ≡ length rs

-- The buckets depend on the keys of their entries alone.
pub bucket_of-keys :
    (w g : World) (bits : ℕ) (rs : List Addr) (i : ℕ)
    → ((r : Addr) → r ∈ rs → key_of g r ≡ key_of w r)
    → bucket_of g bits rs i ≡ bucket_of w bits rs i
bucket_of-keys w g bits [] i same = refl
bucket_of-keys w g bits (r ∷ rs) i same =
    ap₂ (λ k t. if i == bucket_for bits k then r ∷ t else t) (same r (ground arith))
      (bucket_of-keys w g bits rs i (λ a o. same a (omega arith)))

-- Every entry is in the list by its node.
pub count-oldest_first :
    (a : Addr) (rs : List Addr) → count (lnode a) (oldest_first rs) ≡ count a rs
count-oldest_first a [] = refl
count-oldest_first a (r ∷ rs) =
    let rest = count-oldest_first a rs in
    let split = count-append (lnode a) (oldest_first rs) (lnode r ∷ []) in ground arith

-- More live nodes do not disturb a table.
pub IsTable-live :
    (m : HLinks) (live : Addr → Bool) (table bits : ℕ) (buckets : ℕ → List Addr)
    → ((a : Addr) → m.node_live a ≡ true → live a ≡ true)
    → IsTable m table bits buckets
    → IsTable (record m { node_live = live }) table bits buckets
IsTable-live m live table bits buckets grows is = record {
  chain = λ i lt.
      let c = is.chain i lt in
      record {
        seg = HSeg-frame m (record m { node_live = live }) _ _ (λ a o. refl) (λ a o. refl) c.seg;
        distinct = c.distinct;
        non_null = c.non_null;
        nodes = λ a o. grows a (c.nodes a o);
        head = c.head;
      };
  apart = is.apart;
}

pub bucket_for-lt : (bits : ℕ) (key : List ℕ) → bucket_for bits key < 2 ^ bits
bucket_for-lt bits key =
    let buckets : 0 < 2 ^ bits = omega (arith, one-le-pow bits 2) in
    mod-lt (or_zero (hash32_str key)) buckets

-- Every entry is in the bucket of its key.
pub bucket_of-mem :
    (w : World) (bits : ℕ) (rs : List Addr) (r : Addr)
    → r ∈ rs
    → r ∈ bucket_of w bits rs (bucket_for bits (key_of w r))
bucket_of-mem w bits [] r o = absurd (omega arith)
bucket_of-mem w bits (x ∷ rs) r o = elim (Bool-cases (r == x)) [
  | inl e ↦
      let same : r ≡ x = ground arith in
      let here : (bucket_for bits (key_of w r) == bucket_for bits (key_of w x)) ≡ true =
        rw same (ground arith) in
      rw here (ground arith)
  | inr e ↦
      let rest = bucket_of-mem w bits rs r (ground arith) in
      elim (Bool-cases (bucket_for bits (key_of w r) == bucket_for bits (key_of w x))) [
        | inl here ↦ rw here (omega arith)
        | inr there ↦ rw there rest
      ]
]

pub IsAssoc-live :
    (w : World) (arr : Addr) (rs : List Addr)
    → IsAssoc w arr rs
    → (r : Addr) → r ∈ rs
    → w.tables.chains.node_live r ≡ true
IsAssoc-live w arr rs is r o =
    let bits = bits_of w arr in
    let i = bucket_for bits (key_of w r) in
    (is.array.table.chain i (bucket_for-lt bits (key_of w r))).nodes r (bucket_of-mem w bits rs r o)
