-- ===== src/Once.antt =====
-- Single reads and writes of an object (`READ_ONCE` and `WRITE_ONCE` of compiler.h), over a memory of bytes.
-- `barrier` orders accesses and changes no memory. The address of the macros' union is an argument.
pub mod Copies
pub mod Writes
use hashtable_linux_kernel.Common.{
  ℕ, zero, suc, ◌+◌, ◌-◌, ◌*◌, ◌/◌, ◌%◌, ◌≡◌, ◌<◌, ◌≤◌, refl, ap, ap₂, ◌∙◌, sym, subst, Bool,
  Bool-cases, inl, inr, true, false, ltb, leb, ◌&&◌, ◌||◌, ◌==◌, if◌then◌else◌, List, [], ◌∷◌,
  length, arith, ◌∈◌, Cmd, ok, fault, Returns, returns, Returns-inv, pure, ◌>>=◌, ◌>>◌,
}
use hashtable_linux_kernel.Links.{Addr, update}

abbrev pub Bytes : Type 0
Bytes = Addr → ℕ

-- An unsigned integer of `n` bytes at `p`, read and written, the low byte first.
unfoldable pub load : (n : ℕ) → (p : Addr) → Bytes → ℕ
load zero p m = 0
load (suc n) p m = m p + 256 * load n (suc p) m

unfoldable pub store : (n : ℕ) → (p : Addr) → (v : ℕ) → Bytes → Bytes
store zero p v m = m
store (suc n) p v m = store n (suc p) (v / 256) (update m p (v % 256))

-- `*(T *)to = *(T *)from` for a type `T` of `n` bytes.
abbrev pub assign : (n : ℕ) → (to from : Addr) → Cmd Bytes (Unit {0})
assign n to from m = ok tt (store n to (load n from m) m)

abbrev pub copied : (to from size : ℕ) → Bytes → Bytes
copied to from size m a = if leb to a && ltb a (to + size) then m (from + (a - to)) else m a

-- `__builtin_memcpy`; objects that overlap are undefined.
unfoldable pub memcpy : (to from size : ℕ) → Cmd Bytes (Unit {0})
memcpy to from size m =
    if leb (to + size) from || leb (from + size) to then ok tt (copied to from size m) else fault

unfoldable pub __read_once_size : (p res : Addr) → (size : ℕ) → Cmd Bytes (Unit {0})
unfolding memcpy load store
__read_once_size p res size =
    if size == 1
    then assign 1 res p
    else if size == 2
    then assign 2 res p
    else if size == 4
    then assign 4 res p
    else if size == 8
    then assign 8 res p
    else memcpy res p size

unfoldable pub __write_once_size : (p res : Addr) → (size : ℕ) → Cmd Bytes (Unit {0})
unfolding memcpy load store
__write_once_size p res size =
    if size == 1
    then assign 1 p res
    else if size == 2
    then assign 2 p res
    else if size == 4
    then assign 4 p res
    else if size == 8
    then assign 8 p res
    else memcpy p res size

-- The bytes of an object.
unfoldable pub bytes_at : (p : Addr) → (size : ℕ) → Bytes → List ℕ
bytes_at p zero m = []
bytes_at p (suc n) m = m p ∷ bytes_at (suc p) n m

unfoldable pub put : (p : Addr) → List ℕ → Bytes → Bytes
put p [] m = m
put p (b ∷ bs) m = put (suc p) bs (update m p b)

-- The value of the object at `x`; `u` is the union, whose first byte is set to 0.
unfoldable pub read_once : (u x : Addr) → (size : ℕ) → Cmd Bytes (List ℕ)
unfolding __read_once_size bytes_at
read_once u x size = do
  (λ m. ok tt (update m u 0))
  __read_once_size x u size
  (λ m. ok (bytes_at u size m) m)

unfoldable pub write_once : (u x : Addr) → (val : List ℕ) → Cmd Bytes (List ℕ)
unfolding __write_once_size bytes_at put
write_once u x val = do
  (λ m. ok tt (put u val m))
  __write_once_size x u (length val)
  (λ m. ok (bytes_at u (length val) m) m)
