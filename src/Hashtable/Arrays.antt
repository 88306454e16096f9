-- ===== src/Hashtable/Arrays.antt =====
-- The macros of hashtable.h for an array of heads that is declared with its size (`DEFINE_HASHTABLE`,
-- `hash_init`, `hash_empty`, `hash_for_each`, `hash_for_each_possible`, and their safe forms).
use hashtable_linux_kernel.Common.{
  ℕ, zero, suc, ◌%◌, ◌^◌, ◌≡◌, ◌<◌, refl, Bool, true, ltb, ◌||◌, if◌then◌else◌, Option, none, some,
  List, arith, foldl, length, Cmd, ok, fault, Returns, returns, pure, ◌>>=◌,
}
use hashtable_linux_kernel.Links.{Addr, null}
use hashtable_linux_kernel.HLinks.{HLinks, get_first, get_hnext}
use hashtable_linux_kernel.HList.{hlist_for_each_from, hlist_for_each_safe_from}
use hashtable_linux_kernel.HList.Loops.{visit, hlist_for_each-foldl}
use hashtable_linux_kernel.Log2.{ilog2_constant}
use hashtable_linux_kernel.Log2.Rounding.{ilog2_constant-power}
use hashtable_linux_kernel.Hashtable.{
  bucket_at, in_block, calc_bkt, shift_one, __hash_init, __hash_empty, hash_for_each_from,
}
use hashtable_linux_kernel.Hashtable.Mask.{calc_bkt-mod, calc_bkt-lt}
use hashtable_linux_kernel.Hashtable.Buckets.{IsTable}
use hashtable_linux_kernel.Hashtable.Create.{no_nodes, bucket_in_block}

-- An array with its number of heads.
pub record HashArray : Type 0 where
  pub at : Addr
  pub heads : ℕ

-- `struct hlist_head name[1 << (bits)]` at an address.
unfoldable pub declare_hashtable : (at : Addr) (bits : ℕ) → HashArray
declare_hashtable at bits = record { at = at; heads = 2 ^ bits }

abbrev pub hash_size : HashArray → ℕ
hash_size name = name.heads

unfoldable pub hash_bits : HashArray → Option ℕ
hash_bits name = ilog2_constant (hash_size name)

-- The heads are live and have no first node.
unfoldable pub define_hashtable : (at : Addr) (bits : ℕ) → Cmd HLinks HashArray
unfolding declare_hashtable
define_hashtable at bits = do
  size ← shift_one bits
  (λ m. ok (declare_hashtable at bits) (record m {
    head_live = λ a. in_block at size a || m.head_live a;
    next = λ a. if in_block at size a then null else m.next a;
  }))

unfoldable pub hash_init : HashArray → Cmd HLinks (Unit {0})
hash_init hashtable = __hash_init hashtable.at (hash_size hashtable)

unfoldable pub hash_empty : HashArray → Cmd HLinks Bool
hash_empty hashtable = __hash_empty hashtable.at (hash_size hashtable)

-- The number of bits, if it is a constant that can be computed.
abbrev pub known : Option ℕ → Cmd HLinks ℕ
known none m = fault
known (some bits) m = ok bits m

module _ {B : Type 0} (body : Addr → B → Cmd HLinks B) (fuel : ℕ) where
  unfoldable pub hash_for_each : HashArray → B → Cmd HLinks B
  hash_for_each name acc = hash_for_each_from body fuel name.at (hash_size name) 0 acc

  -- As in `hash_for_each_bits`, the test `obj == NULL` holds in every round.
  unfoldable pub hash_for_each_safe_from : (table : Addr) (n bkt : ℕ) → B → Cmd HLinks B
  hash_for_each_safe_from table zero bkt acc = pure acc
  hash_for_each_safe_from table (suc n) bkt acc = do
    first ← get_first (bucket_at table bkt)
    acc' ← hlist_for_each_safe_from get_hnext body fuel first acc
    hash_for_each_safe_from table n (suc bkt) acc'

  unfoldable pub hash_for_each_safe : HashArray → B → Cmd HLinks B
  unfolding hash_for_each_safe_from
  hash_for_each_safe name acc = hash_for_each_safe_from name.at (hash_size name) 0 acc

  unfoldable pub hash_for_each_safe_bits : (table : Addr) (bits : ℕ) → B → Cmd HLinks B
  unfolding hash_for_each_safe_from
  hash_for_each_safe_bits table bits acc = do
    size ← shift_one bits
    hash_for_each_safe_from table size 0 acc

  unfoldable pub hash_for_each_possible_bits : (table : Addr) (bits key : ℕ) → B → Cmd HLinks B
  hash_for_each_possible_bits table bits key acc = do
    divisor ← shift_one bits
    first ← get_first (bucket_at table (calc_bkt key divisor))
    hlist_for_each_from get_hnext body fuel first acc

  unfoldable pub hash_for_each_possible : HashArray → (key : ℕ) → B → Cmd HLinks B
  unfolding hash_for_each_possible_bits hash_bits
  hash_for_each_possible name key acc = do
    bits ← known (hash_bits name)
    hash_for_each_possible_bits name.at bits key acc

  unfoldable pub hash_for_each_possible_safe : HashArray → (key : ℕ) → B → Cmd HLinks B
  unfolding hash_bits
  hash_for_each_possible_safe name key acc = do
    bits ← known (hash_bits name)
    divisor ← shift_one bits
    first ← get_first (bucket_at name.at (calc_bkt key divisor))
    hlist_for_each_safe_from get_hnext body fuel first acc

-- `DEFINE_HASHTABLE` gives an array of empty buckets, whose number of bits `HASH_BITS` computes.
pub define_hashtable-IsTable :
    (m : HLinks) (at bits : ℕ)
    → 0 < at
    → bits < 31
    → Returns
        (λ name g. (hash_bits name ≡ some bits) × IsTable g name.at bits no_nodes)
        (define_hashtable at bits m)
unfolding define_hashtable declare_hashtable hash_bits shift_one
define_hashtable-IsTable m at bits given few =
    let defined : ltb bits 31 ≡ true = ground arith in
    rw defined (
      returns (
        ilog2_constant-power bits (omega arith),
        record {
          chain = λ i lt.
              let here = bucket_in_block at (2 ^ bits) i lt in
              record {
                seg = rw here refl;
                distinct = λ a. ground arith;
                non_null = ground arith;
                nodes = λ a o. absurd (omega arith);
                head = rw here refl;
              };
          apart = λ i j lt lt' ne a o. ground arith;
        },
      ))

-- `hash_for_each_possible` over a declared array visits the nodes of the bucket of the key, `key`
-- modulo the number of buckets, once each and in order, and ends when the fuel is above their number.
pub hash_for_each_possible-foldl :
    {B : Type 0} (f : B → Addr → B) (m : HLinks) (at bits fuel key : ℕ) (buckets : ℕ → List Addr)
    (acc : B)
    → bits < 31
    → IsTable m at bits buckets
    → length (buckets (key % 2 ^ bits)) < fuel
    → hash_for_each_possible (visit f) fuel (declare_hashtable at bits) key acc m
      ≡ ok (foldl f acc (buckets (key % 2 ^ bits))) m
unfolding hash_for_each_possible hash_for_each_possible_bits hash_bits declare_hashtable shift_one
    get_first
hash_for_each_possible-foldl f m at bits fuel key buckets acc few is enough =
    let defined : ltb bits 31 ≡ true = ground arith in
    let i = key % 2 ^ bits in
    let small : i < 2 ^ bits = omega (arith, calc_bkt-lt key bits, calc_bkt-mod key bits) in
    let c = is.chain i small in
    rw (ilog2_constant-power bits (omega arith), defined, calc_bkt-mod key bits, c.head)
      (hlist_for_each-foldl f m fuel (bucket_at at i) (buckets i) acc c enough)
