-- ===== src/AssocArray/Lookup.antt =====
-- `array_get_by_key` as a lookup: when it finds the key, when it finds another, and when it reads
-- beyond a key.
use hashtable_linux_kernel.Common.{
  ℕ, zero, suc, ◌%◌, ◌^◌, ◌≡◌, ◌≢◌, ◌<◌, ◌≤◌, ◌⊎◌, refl, ap, ap₂, sym, ◌∙◌, subst, Bool, true,
  false, not, ◌&&◌, ltb, ◌==◌, if◌then◌else◌, some, List, [], ◌∷◌, ◌++◌, arith, length, ◌∈◌, ok,
  fault, is_zero, Bool-cases, inl, inr, Returns, returns,
}
use hashtable_linux_kernel.Links.{Addr, null}
use hashtable_linux_kernel.HLinks.{get_hnext}
use hashtable_linux_kernel.HList.Chain.{Chain}
use hashtable_linux_kernel.Hash.{hash32_str}
use hashtable_linux_kernel.Hash.Words.{hash_str-lt, hash_str-zero}
use hashtable_linux_kernel.Hashtable.{bucket_at, calc_bkt}
use hashtable_linux_kernel.Hashtable.Mask.{calc_bkt-mod, calc_bkt-lt}
use hashtable_linux_kernel.World.{World, get_key}
use hashtable_linux_kernel.AssocArray.{starts_with, memcmp_equal, find_from, array_get_by_key}
use hashtable_linux_kernel.AssocArray.Find.{
  key_of, find_key, Comparable, IsArray, searched, find_from-find_key, array_get_by_key-find_from,
}

pub hash32_str-some : (key : List ℕ) → (h : ℕ) × (hash32_str key ≡ some h)
unfolding hash32_str
hash32_str-some key = let (h, e, lt) = hash_str-lt key 32 (omega arith) (omega arith) in (h, e)

starts_with-append : (key rest : List ℕ) → starts_with key (key ++ rest) ≡ true
starts_with-append [] rest = refl
starts_with-append (k ∷ key) rest = let more = starts_with-append key rest in ground arith

starts_with_self : (key : List ℕ) → starts_with key key ≡ true
starts_with_self [] = refl
starts_with_self (k ∷ key) = let more = starts_with_self key in ground arith

-- A key of the same size that begins with `key` is `key`.
starts_with_same_size :
    (key bs : List ℕ) → length bs ≡ length key → starts_with key bs ≡ true → bs ≡ key
starts_with_same_size [] [] size e = refl
starts_with_same_size [] (b ∷ bs) size e = absurd (omega arith)
starts_with_same_size (k ∷ ks) [] size e = absurd (omega arith)
starts_with_same_size (k ∷ ks) (b ∷ bs) size e =
    let head : k ≡ b = ground arith in
    let tail : starts_with ks bs ≡ true = ground arith in
    ap₂ (λ x xs. x ∷ xs) (sym head) (starts_with_same_size ks bs (omega arith) tail)

-- What a lookup of `key` among entries says.
abbrev pub Answer : (w : World) (key : List ℕ) (es : List Addr) (e : Addr) → Type 0
Answer w key es e =
    ((e ≡ null) × ((a : Addr) → a ∈ es → key_of w a ≢ key)) ⊎ ((e ∈ es) × (key_of w e ≡ key))

find_key-Answer :
    (w : World) (key : List ℕ) (es : List Addr)
    → ((e : Addr) → e ∈ es → length (key_of w e) ≡ length key)
    → Answer w key es (find_key w key es)
find_key-Answer w key [] sizes = inl (refl, λ a o. absurd (omega arith))
find_key-Answer w key (e ∷ es) sizes = elim (Bool-cases (starts_with key (key_of w e))) [
  | inl found ↦
      let eq = starts_with_same_size key (key_of w e) (sizes e (ground arith)) found in
      rw found (inr (ground arith, eq))
  | inr other ↦
      let differs : key_of w e ≢ key = λ eq.
        let same : starts_with key (key_of w e) ≡ true = rw eq (starts_with_self key) in
        absurd (ground arith) in
      let skip : find_key w key es ≡ find_key w key (e ∷ es) = rw other refl in
      subst (Answer w key (e ∷ es)) skip
        (elim (find_key-Answer w key es (λ a o. sizes a (omega arith))) [
          | inl none_of ↦ inl (
            none_of.0,
            λ a o. elim (Bool-cases (a == e)) [
              | inl at ↦ let same : a ≡ e = ground arith in rw same differs
              | inr off ↦ none_of.1 a (ground arith)
            ],
          )
          | inr here ↦ inr (omega (arith, here.0), here.1)
        ])
]

find_from-overread :
    (fuel : ℕ) (key : List ℕ) (cur e : Addr) (w : World)
    → 0 < fuel
    → cur ≡ e
    → e ≢ null
    → w.tables.chains.node_live e ≡ true
    → length (key_of w e) < length key
    → find_from fuel key cur w ≡ fault
unfolding find_from get_hnext get_key memcmp_equal
find_from-overread zero key cur e w fueled at proper live short = absurd (omega arith)
find_from-overread (suc fuel) key cur e w fueled at proper live short =
    let more : is_zero e ≡ false = ground arith in
    let over : (w.block_live (w.key e) && not (ltb (length (key_of w e)) (length key))) ≡ false =
      ground arith in
    rw (at, more, live, live, over) refl

module _ (w : World) (arr : Addr) (buckets : ℕ → List Addr) (is : IsArray w arr buckets) (fuel : ℕ)
    (enough : (i : ℕ) → i < 2 ^ w.tables.bits (w.ht arr) → length (buckets i) < fuel) where
  at_hash :
      (key : List ℕ) (h : ℕ)
      → hash32_str key ≡ some h
      → ((e : Addr) → e ∈ searched w arr buckets is h → Comparable w key e)
      → array_get_by_key fuel arr key w ≡ ok (find_key w key (searched w arr buckets is h)) w
  at_hash key h hash cmp =
      let bits = w.tables.bits (w.ht arr) in
      let b = calc_bkt h (2 ^ bits) in
      let small = calc_bkt-lt h bits in
      let at : b ≡ h % 2 ^ bits = calc_bkt-mod h bits in
      let c = is.table.chain b small in
      let cmp' : (e : Addr) → e ∈ buckets b → Comparable w key e =
        subst (λ j. (e : Addr) → e ∈ buckets j → Comparable w key e) (sym at) cmp in
      array_get_by_key-find_from w arr buckets is fuel h key hash
      ∙ find_from-find_key w key fuel (bucket_at (w.tables.table (w.ht arr)) b) (buckets b) c.seg
          (ground (arith, c.non_null)) c.nodes cmp' (enough b small)
      ∙ ap (λ j. ok (find_key w key (buckets j)) w) at

  -- If all keys in the array have the size of `key`, `array_get_by_key` ends without a fault, changes
  -- nothing, and returns an entry of the bucket of the hash of `key` whose key is `key`, or NULL when
  -- that bucket has none.
  pub array_get_by_key-Answer :
      (key : List ℕ)
      → ((i : ℕ)
          → i < 2 ^ w.tables.bits (w.ht arr)
          → (e : Addr) → e ∈ buckets i
          → (w.block_live (w.key e) ≡ true) × (length (key_of w e) ≡ length key))
      → (h : ℕ) × (hash32_str key ≡ some h)
        × Returns
            (λ e g. (g ≡ w) × Answer w key (buckets (h % 2 ^ w.tables.bits (w.ht arr))) e)
            (array_get_by_key fuel arr key w)
  array_get_by_key-Answer key sizes =
      let bits = w.tables.bits (w.ht arr) in
      let (h, hash) = hash32_str-some key in
      let small : h % 2 ^ bits < 2 ^ bits =
        subst (λ j. j < 2 ^ bits) (calc_bkt-mod h bits) (calc_bkt-lt h bits) in
      let sizes' = sizes (h % 2 ^ bits) small in
      let run = at_hash key h hash (λ e o. ((sizes' e o).0, omega (arith, (sizes' e o).1))) in
      (
        h,
        hash,
        rw run (
            returns (refl, find_key-Answer w key (buckets (h % 2 ^ bits)) (λ e o. (sizes' e o).1))),
      )

  -- A key of at most two bytes finds an entry that is stored first in its bucket under the key with a
  -- zero byte behind it, which is another key.
  pub array_get_by_key-prefix :
      (key : List ℕ) (h : ℕ) (e : Addr) (es : List Addr)
      → length key ≤ 2
      → hash32_str (key ++ 0 ∷ []) ≡ some h
      → buckets (h % 2 ^ w.tables.bits (w.ht arr)) ≡ e ∷ es
      → key_of w e ≡ key ++ 0 ∷ []
      → ((a : Addr) → a ∈ e ∷ es → Comparable w key a)
      → array_get_by_key fuel arr key w ≡ ok e w
  unfolding hash32_str
  array_get_by_key-prefix key h e es short hash at stored cmp =
      let same : hash32_str key ≡ some h = sym (hash_str-zero key 32 short) ∙ hash in
      let found : starts_with key (key_of w e) ≡ true =
        rw stored (starts_with-append key (0 ∷ [])) in
      let cmp' : (a : Addr) → a ∈ buckets (h % 2 ^ w.tables.bits (w.ht arr)) → Comparable w key a =
        subst (λ t. (a : Addr) → a ∈ t → Comparable w key a) (sym at) cmp in
      at_hash key h same cmp'
      ∙ ap (λ t. ok (find_key w key t) w) at
      ∙ ap (λ (c : Bool). ok (if c then e else find_key w key es) w) found

  -- When the first entry of the searched bucket has a key shorter than `key`, the comparison reads
  -- beyond the entry's key: a fault.
  pub array_get_by_key-overread :
      (key : List ℕ) (h : ℕ) (e : Addr) (es : List Addr)
      → hash32_str key ≡ some h
      → buckets (h % 2 ^ w.tables.bits (w.ht arr)) ≡ e ∷ es
      → length (key_of w e) < length key
      → array_get_by_key fuel arr key w ≡ fault
  array_get_by_key-overread key h e es hash at short =
      let bits = w.tables.bits (w.ht arr) in
      let b = calc_bkt h (2 ^ bits) in
      let small = calc_bkt-lt h bits in
      let shape : buckets b ≡ e ∷ es = ap buckets (calc_bkt-mod h bits) ∙ at in
      let c =
        subst (Chain w.tables.chains (bucket_at (w.tables.table (w.ht arr)) b)) shape
          (is.table.chain b small) in
      let some_fuel : 0 < fuel = omega (arith, enough b small) in
      array_get_by_key-find_from w arr buckets is fuel h key hash
      ∙ find_from-overread fuel key (w.tables.chains.next (bucket_at (w.tables.table (w.ht arr)) b))
          e w some_fuel c.seg.0 (ground (arith, c.non_null)) (c.nodes e (ground arith)) short
