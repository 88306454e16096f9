-- ===== src/Hashtable/Empty.antt =====
-- `__hash_empty`: whether every bucket is empty.
use hashtable_linux_kernel.Common.{
  ℕ, zero, suc, ◌+◌, ◌^◌, ◌≡◌, ◌≤◌, refl, Bool, true, ◌&&◌, List, arith, is_nil, ok, Bool-cases,
  inl, inr,
}
use hashtable_linux_kernel.Links.{Addr}
use hashtable_linux_kernel.HLinks.{HLinks}
use hashtable_linux_kernel.HList.Unlink.{hlist_empty-is_nil}
use hashtable_linux_kernel.Hashtable.{bucket_at, hash_empty_from, __hash_empty}
use hashtable_linux_kernel.Hashtable.Buckets.{IsTable}

-- Whether each of the `n` buckets from bucket `i` on is empty.
abbrev pub all_nil : (buckets : ℕ → List Addr) (n i : ℕ) → Bool
all_nil buckets zero i = true
all_nil buckets (suc n) i = is_nil (buckets i) && all_nil buckets n (suc i)

module _ {m : HLinks} {table : Addr} {bits : ℕ} {buckets : ℕ → List Addr}
    (is : IsTable m table bits buckets) where
  from-all_nil :
      (n i : ℕ) → n + i ≤ 2 ^ bits → hash_empty_from n i table m ≡ ok (all_nil buckets n i) m
  unfolding hash_empty_from
  from-all_nil zero i fits = refl
  from-all_nil (suc n) i fits =
      let head = hlist_empty-is_nil m (bucket_at table i) (buckets i) (is.chain i (omega arith)) in
      let rest = from-all_nil n (suc i) (omega arith) in
      elim (Bool-cases (is_nil (buckets i))) [
        | inl e ↦ rw (head, e, rest) refl
        | inr e ↦ rw (head, e) refl
      ]

  -- `__hash_empty` of a table tells whether all of its buckets are empty, and writes nothing.
  pub __hash_empty-all_nil : __hash_empty table (2 ^ bits) m ≡ ok (all_nil buckets (2 ^ bits) 0) m
  unfolding __hash_empty
  __hash_empty-all_nil = from-all_nil (2 ^ bits) 0 (omega arith)
