-- ===== src/AssocArray/Split.antt =====
-- The buckets and the list of a sequence of entries around one of them.
use hashtable_linux_kernel.Common.{
  ℕ, ◌≡◌, refl, ap, sym, ◌∙◌, Bool, true, ◌==◌, if◌then◌else◌, List, [], ◌∷◌, ◌++◌, append-nil,
  append_assoc, arith, Bool-cases, inl, inr,
}
use hashtable_linux_kernel.Links.{Addr, update}
use hashtable_linux_kernel.World.{World, lnode}
use hashtable_linux_kernel.AssocArray.Find.{key_of}
use hashtable_linux_kernel.AssocArray.Valid.{bucket_for, bucket_of, oldest_first}

module _ (w : World) (bits : ℕ) where
  pub bucket_of-append :
      (xs ys : List Addr) (i : ℕ)
      → bucket_of w bits (xs ++ ys) i ≡ bucket_of w bits xs i ++ bucket_of w bits ys i
  bucket_of-append [] ys i = refl
  bucket_of-append (x ∷ xs) ys i =
      let rest = bucket_of-append xs ys i in
      elim (Bool-cases (i == bucket_for bits (key_of w x))) [
        | inl e ↦ rw (e, rest) refl
        | inr e ↦ rw (e, rest) refl
      ]

  module _ (front : List Addr) (x : Addr) (back : List Addr) where
    abbrev own : ℕ
    own = bucket_for bits (key_of w x)

    -- The bucket of an entry has it between the older and the newer entries.
    pub bucket_of-split :
        bucket_of w bits (front ++ x ∷ back) own
        ≡ bucket_of w bits front own ++ x ∷ bucket_of w bits back own
    bucket_of-split =
        let here : (own == own) ≡ true = ground arith in
        bucket_of-append front (x ∷ back) own
        ∙ ap
            (λ (c : Bool).
              bucket_of w bits front own
              ++ (if c then x ∷ bucket_of w bits back own else bucket_of w bits back own))
            here

    -- Without the entry its bucket lacks it, and the others are the same.
    pub bucket_of-without :
        (i : ℕ)
        → update
            (bucket_of w bits (front ++ x ∷ back))
            own
            (bucket_of w bits front own ++ bucket_of w bits back own)
            i
          ≡ bucket_of w bits (front ++ back) i
    bucket_of-without i = elim (Bool-cases (i == own)) [
      | inl e ↦
          let at : i ≡ own = ground arith in
          rw e
            (sym (bucket_of-append front back own) ∙ ap (bucket_of w bits (front ++ back)) (sym at))
      | inr e ↦ rw e (
          bucket_of-append front (x ∷ back) i
          ∙ ap
              (λ (c : Bool).
                bucket_of w bits front i
                ++ (if c then x ∷ bucket_of w bits back i else bucket_of w bits back i))
              e
          ∙ sym (bucket_of-append front back i))
    ]

pub oldest_first-append :
    (xs ys : List Addr) → oldest_first (xs ++ ys) ≡ oldest_first ys ++ oldest_first xs
oldest_first-append [] ys = sym (append-nil (oldest_first ys))
oldest_first-append (x ∷ xs) ys =
    ap (λ t. t ++ lnode x ∷ []) (oldest_first-append xs ys)
    ∙ append_assoc (oldest_first ys) (oldest_first xs) (lnode x ∷ [])

-- The list has the older entries before an entry and the newer behind it.
pub oldest_first-split :
    (front : List Addr) (x : Addr) (back : List Addr)
    → oldest_first (front ++ x ∷ back) ≡ oldest_first back ++ lnode x ∷ oldest_first front
oldest_first-split front x back =
    oldest_first-append front (x ∷ back)
    ∙ append_assoc (oldest_first back) (lnode x ∷ []) (oldest_first front)
