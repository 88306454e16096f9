-- ===== src/Once/Writes.antt =====
-- `WRITE_ONCE` (compiler.h), and a `READ_ONCE` after it.
use hashtable_linux_kernel.Common.{
  ℕ, ◌+◌, ◌-◌, ◌≡◌, ◌<◌, refl, ◌∙◌, ap, true, false, ltb, leb, ◌&&◌, List, length, arith, ◌∈◌,
  Returns, returns, Returns-inv, Returns-bind, Returns-mono, ◌>>◌,
}
use hashtable_linux_kernel.Links.{Addr}
use hashtable_linux_kernel.Once.{Bytes, bytes_at, put, read_once, write_once}
use hashtable_linux_kernel.Once.Copies.{
  IsBytes, Apart, __read_once_size-copied, __write_once_size-read, bytes_at-same, put-outside,
  bytes_at-put, put-IsBytes, read_once-bytes_at,
}

-- What `WRITE_ONCE` leaves: the value in the object and in the union, and all else as it was.
pub record Written (u x : Addr) (val : List ℕ) (m : Bytes) (ret : List ℕ) (g : Bytes) : Type 0 where
  pub returned : ret ≡ val
  pub object : bytes_at x (length val) g ≡ val
  pub bytes : IsBytes g
  pub others :
      (a : Addr)
      → (leb u a && ltb a (u + length val)) ≡ false
      → (leb x a && ltb a (x + length val)) ≡ false
      → g a ≡ m a

-- `WRITE_ONCE` of a value of any size to an object that is apart from the union returns the value, leaves
-- it in the object, and changes no byte outside the two.
pub write_once-Written :
    (m : Bytes) (u x : Addr) (val : List ℕ)
    → IsBytes m
    → ((b : ℕ) → b ∈ val → b < 256)
    → Apart x u (length val)
    → Returns (Written u x val m) (write_once u x val m)
unfolding write_once
write_once-Written m u x val is small out =
    let n = length val in
    let m' = put u val m in
    let is' = put-IsBytes val u m is small in
    let (_, g, run, same) = Returns-inv (__read_once_size-copied m' is' u x n out) in
    let run' = ap (λ c. c m') (__write_once_size-read m' is' u x n) ∙ run in
    let kept : (a : Addr) → (leb x a && ltb a (x + n)) ≡ false → g a ≡ m' a =
      λ a off. same a ∙ (rw off refl) in
    let union : bytes_at u n g ≡ val =
      bytes_at-same n u u g m' (λ i lt. kept (u + i) (ground arith)) ∙ bytes_at-put val u m in
    let object : bytes_at x n g ≡ val =
      bytes_at-same n x u g m' (λ i lt.
        let inside : (leb x (x + i) && ltb (x + i) (x + n)) ≡ true = ground arith in
        let at : u + (x + i - x) ≡ u + i = omega arith in same (x + i) ∙ (rw (inside, at) refl))
      ∙ bytes_at-put val u m in
    rw run' (
      returns (record {
        returned = union;
        object = object;
        bytes = λ a. ground (arith, same a, is' a, is' (u + (a - x)));
        others = λ a off off'. kept a off' ∙ put-outside val u m a off;
      }))

-- `READ_ONCE` of an object of at least one byte after `WRITE_ONCE` returns the value that was written.
pub read_once-write_once :
    (m : Bytes) (u u' x : Addr) (val : List ℕ)
    → IsBytes m
    → ((b : ℕ) → b ∈ val → b < 256)
    → 0 < length val
    → Apart x u (length val)
    → Apart u' x (length val)
    → Returns (λ read g. read ≡ val) ((do write_once u x val; read_once u' x (length val)) m)
read_once-write_once m u u' x val is small some out out' =
    Returns-bind (write_once-Written m u x val is small out) λ _ g w.
      Returns-mono (read_once-bytes_at g u' x (length val) w.bytes some out')
        λ read g' p. p.0 ∙ w.object
