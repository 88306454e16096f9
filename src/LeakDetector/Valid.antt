-- ===== src/LeakDetector/Valid.antt =====
-- What the state of the leak detector means: the records that it keeps, in their order.
use hashtable_linux_kernel.Common.{
  ◌≡◌, ◌≢◌, refl, true, false, some, List, [], ◌∷◌, ◌++◌, arith, ap, suc, length, ◌∈◌, ◌∉◌,
}
use hashtable_linux_kernel.Links.{Addr}
use hashtable_linux_kernel.KList.Ring.{IsList}
use hashtable_linux_kernel.LeakDetector.{MemInfo, Leaks, string_in}

-- A record of the list, with the file name as a string.
pub record Leak : Type 0 where
  pub node : Addr
  pub info : MemInfo

abbrev pub nodes : List Leak → List Addr
nodes [] = []
nodes (r ∷ rs) = r.node ∷ nodes rs

-- What the records are of.
abbrev pub addresses : List Leak → List Addr
addresses [] = []
addresses (r ∷ rs) = r.info.address ∷ addresses rs

abbrev pub infos : List Leak → List MemInfo
infos [] = []
infos (r ∷ rs) = r.info ∷ infos rs

-- The object holds what the record says; its buffer holds the name as a string.
pub record Stored (object info : MemInfo) : Type 0 where
  pub address : object.address ≡ info.address
  pub size : object.size ≡ info.size
  pub line : object.line ≡ info.line
  pub name : string_in object.file_name ≡ some info.file_name

abbrev pub AllStored : Leaks → List Leak → Type 0
AllStored m [] = Unit
AllStored m (r ∷ rs) = Stored (m.mem_info r.node) r.info × AllStored m rs

-- What holds from the start of the program on: the head is static, NULL is no object.
pub record IsStatic (m : Leaks) : Type 0 where
  pub head_live : m.links.live m.head ≡ true
  pub static : m.heap m.head ≡ false
  pub null_live : m.links.live 0 ≡ false
  pub null_heap : m.heap 0 ≡ false

-- No record was added yet.
pub record IsUnused (m : Leaks) : Type 0 where
  pub fixed : IsStatic m
  pub flag : m.memleak_flag ≡ false
  pub next : m.links.next m.head ≡ 0

pub record IsDetector (m : Leaks) (rs : List Leak) : Type 0 where
  pub fixed : IsStatic m
  pub flag : m.memleak_flag ≡ true
  pub list : IsList m.links m.head (nodes rs)
  pub heap : (a : Addr) → a ∈ nodes rs → m.heap a ≡ true
  pub stored : AllStored m rs

-- The records that the detector keeps, at any time.
pub data Keeps (m : Leaks) : List Leak → Type 0 where
  unused : IsUnused m → Keeps m []
  used : {rs : List Leak} → IsDetector m rs → Keeps m rs

-- An address that `malloc` may return.
pub record IsFresh (m : Leaks) (p : Addr) : Type 0 where
  pub given : p ≢ 0
  pub heap : m.heap p ≡ false
  pub apart : p ≢ m.head

pub nodes-append : (xs ys : List Leak) → nodes (xs ++ ys) ≡ nodes xs ++ nodes ys
nodes-append [] ys = refl
nodes-append (x ∷ xs) ys = rw (nodes-append xs ys) refl

pub AllStored-append :
    (m : Leaks) (xs ys : List Leak) → AllStored m xs → AllStored m ys → AllStored m (xs ++ ys)
AllStored-append m [] ys a b = b
AllStored-append m (x ∷ xs) ys a b = (a.0, AllStored-append m xs ys a.1 b)

-- The records stand as long as their objects are as before.
pub AllStored-frame :
    (m g : Leaks) (rs : List Leak)
    → ((a : Addr) → a ∈ nodes rs → g.mem_info a ≡ m.mem_info a)
    → AllStored m rs
    → AllStored g rs
AllStored-frame m g [] same s = tt
AllStored-frame m g (r ∷ rs) same s =
    (rw (same r.node (ground arith)) s.0, AllStored-frame m g rs (λ a i. same a (omega arith)) s.1)

pub Keeps-IsStatic : (m : Leaks) (rs : List Leak) → Keeps m rs → IsStatic m
Keeps-IsStatic m _ (unused is) = is.fixed
Keeps-IsStatic m _ (used is) = is.fixed

-- What `malloc` returns is no node of the list.
pub fresh-out : (m : Leaks) (rs : List Leak) (p : Addr) → Keeps m rs → IsFresh m p → p ∉ nodes rs
fresh-out m _ p (unused is) fresh = refl
fresh-out m rs p (used is) fresh = ground (arith, is.heap p, fresh.heap)

-- A detector with a record is in use.
pub Keeps-IsDetector :
    (m : Leaks) (rs : List Leak) (a : Addr) → Keeps m rs → a ∈ addresses rs → IsDetector m rs
Keeps-IsDetector m _ a (unused is) i = absurd (omega arith)
Keeps-IsDetector m _ a (used is) i = is

pub length-addresses : (xs : List Leak) → length (addresses xs) ≡ length xs
length-addresses [] = refl
length-addresses (x ∷ xs) = ap (λ n. suc n) (length-addresses xs)
