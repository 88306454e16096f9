-- ===== src/AssocArray/Remove.antt =====
-- `array_del` and `array_del_first`.
use hashtable_linux_kernel.Common.{
  ℕ, ◌%◌, ◌^◌, ◌≡◌, ◌≢◌, ◌<◌, ◌≤◌, inl, inr, ap, ◌∙◌, subst, true, false, ◌==◌, List, [], ◌∷◌, ◌++◌,
  arith, length, ◌∈◌, ◌∉◌, count, Cmd, ok, Returns, returns, Returns-inv, Returns-mono, Bool-cases,
}
use hashtable_linux_kernel.Links.{Addr, null}
use hashtable_linux_kernel.World.{World}
use hashtable_linux_kernel.AssocArray.{array_get_by_key, array_del, delete_entry}
use hashtable_linux_kernel.AssocArray.Find.{key_of}
use hashtable_linux_kernel.AssocArray.Lookup.{array_get_by_key-Answer}
use hashtable_linux_kernel.AssocArray.Valid.{
  or_zero, bucket_for, bucket_for-lt, bucket_of, bucket_of-mem, bits_of, IsAssoc,
}
use hashtable_linux_kernel.AssocArray.Delete.{FreesEntry, delete_entry-IsAssoc}

module _ (w : World) (bits : ℕ) where
  pub bucket_of-part :
      (rs : List Addr) (i : ℕ) (a : Addr) → count a (bucket_of w bits rs i) ≤ count a rs
  bucket_of-part [] i a = omega arith
  bucket_of-part (r ∷ rs) i a =
      let rest = bucket_of-part rs i a in
      elim (Bool-cases (i == bucket_for bits (key_of w r))) [
        | inl e ↦ rw e (omega arith)
        | inr e ↦ rw e (omega arith)
      ]

  pub length-bucket_of : (rs : List Addr) (i : ℕ) → length (bucket_of w bits rs i) ≤ length rs
  length-bucket_of [] i = omega arith
  length-bucket_of (r ∷ rs) i =
      let rest = length-bucket_of rs i in
      elim (Bool-cases (i == bucket_for bits (key_of w r))) [
        | inl e ↦ rw e (omega arith)
        | inr e ↦ rw e (omega arith)
      ]

-- An entry of a sequence divides it.
pub record Divided (rs : List Addr) (e : Addr) : Type 0 where
  pub front : List Addr
  pub back : List Addr
  pub split : rs ≡ front ++ e ∷ back

divided : (rs : List Addr) (e : Addr) → e ∈ rs → Divided rs e
divided [] e o = absurd (omega arith)
divided (r ∷ rs) e o = elim (Bool-cases (e == r)) [
  | inl same ↦
      let at : r ≡ e = ground arith in record { front = []; back = rs; split = ap (λ x. x ∷ rs) at }
  | inr off ↦
      let d = divided rs e (ground arith) in
      record { front = r ∷ d.front; back = d.back; split = ap (λ t. r ∷ t) d.split }
]

-- What `array_del` has done: nothing, for want of an entry with the key, or it has taken one out.
pub data Removed (w : World) (arr : Addr) (rs : List Addr) (key : List ℕ) : ℕ → World → Type 0 where
  absent : ((a : Addr) → a ∈ rs → key_of w a ≢ key) → Removed w arr rs key 1 w
  taken :
      {g : World} (front : List Addr) (e : Addr) (back : List Addr)
      → rs ≡ front ++ e ∷ back
      → key_of w e ≡ key
      → IsAssoc g arr (front ++ back)
      → g.tables.chains.node_live e ≡ false
      → Removed w arr rs key 0 g

pub entry_ne_null :
    (w : World) (arr : Addr) (rs : List Addr) (e : Addr) → IsAssoc w arr rs → e ∈ rs → e ≢ null
entry_ne_null w arr rs e is o =
    let bits = bits_of w arr in
    let i = bucket_for bits (key_of w e) in
    let c = is.array.table.chain i (bucket_for-lt bits (key_of w e)) in
    let here = bucket_of-mem w bits rs e o in
    λ same.
      let none_there : e ∉ bucket_of w bits rs i = rw same (ground (arith, c.non_null)) in
      absurd (omega arith)

module _ (call_fill : Addr → (entry data_ : Addr) → List ℕ → Cmd World ℕ)
    (call_free : Addr → Addr → Cmd World (Unit {0})) (w : World) (arr : Addr) (rs : List Addr)
    (is : IsAssoc w arr rs)
    (frees : (e : Addr) → e ∈ rs → FreesEntry w (call_free (w.free_entry arr)) e) where
  remove-taken :
      (e : Addr) (key : List ℕ)
      → e ∈ rs
      → key_of w e ≡ key
      → Returns (λ _ g. Removed w arr rs key 0 g) (delete_entry call_fill call_free arr e w)
  remove-taken e key o eq =
      let d = divided rs e o in
      Returns-mono
        (delete_entry-IsAssoc w arr d.front e d.back (subst (IsAssoc w arr) d.split is) call_fill
          call_free (frees e o))
        (λ _ g p. taken d.front e d.back d.split eq p.0 p.1)

  -- Among keys of one size, `array_del` does not fault: it returns 1 and changes nothing if no entry has
  -- the key, and else returns 0, takes one entry with the key out of its bucket and the list, frees it,
  -- and keeps the others in their order.
  pub array_del-Removed :
      (fuel : ℕ) (key : List ℕ)
      → length rs < fuel
      → ((e : Addr) → e ∈ rs → (w.block_live (w.key e) ≡ true) × (length (key_of w e) ≡ length key))
      → Returns (λ ret g. Removed w arr rs key ret g) (array_del call_fill call_free fuel arr key w)
  unfolding array_del
  array_del-Removed fuel key enough sizes =
      let bits = bits_of w arr in
      let buckets = bucket_of w bits rs in
      let (h, hash, found) =
        array_get_by_key-Answer w arr buckets is.array fuel
          (λ i lt. omega (arith, length-bucket_of w bits rs i)) key
          (λ i lt e o. sizes e (omega (arith, o, bucket_of-part w bits rs i e))) in
      let (e, g, run, (same, answer)) = Returns-inv found in
      let given : (arr == 0) ≡ false = ground (arith, is.array.given) in
      let run' : array_get_by_key fuel arr key w ≡ ok e w = run ∙ ap (ok e) same in
      let b : (a : Addr) → key_of w a ≡ key → bucket_for bits (key_of w a) ≡ h % 2 ^ bits =
        λ a eq. ap (bucket_for bits) eq ∙ ap (λ o. or_zero o % 2 ^ bits) hash in
      elim answer [
        | inl missing ↦
            let none_found : (e == 0) ≡ true = ground (arith, missing.0) in
            rw (given, run', none_found)
              (returns (
                absent (λ a o eq.
                  missing.1 a (subst (λ i. a ∈ buckets i) (b a eq) (bucket_of-mem w bits rs a o))
                    eq)))
        | inr here ↦
            let o : e ∈ rs = omega (arith, here.0, bucket_of-part w bits rs (h % 2 ^ bits) e) in
            let some_found : (e == 0) ≡ false = ground (arith, entry_ne_null w arr rs e is o) in
            let (_, g', run'', removed) = Returns-inv (remove-taken e key o here.1) in
            rw (given, run', some_found, run'') (returns removed)
      ]
