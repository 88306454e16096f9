-- ===== src/Links.antt =====
-- The memory of `struct k_list_head` objects (types.h). `live p` says that `p` is the address of
-- such an object; `next` and `prev` are the members of the object at each address. An access through
-- an address that is not live (NULL, a poison value, a freed object) is a fault.
use hashtable_linux_kernel.Common.{ℕ, Bool, ◌==◌, if◌then◌else◌, Cmd, ok, fault}

abbrev pub Addr : Type 0
Addr = ℕ

abbrev pub null : Addr
null = 0

-- What `k_list_del` and `hlist_del` leave in the members of a deleted node (poison.h).
abbrev pub list_poison1 : Addr
list_poison1 = 0x100

abbrev pub list_poison2 : Addr
list_poison2 = 0x200

pub record Links : Type 0 where
  pub live : Addr → Bool
  pub next : Addr → Addr
  pub prev : Addr → Addr

abbrev pub update {ℓ} : {A : Type ℓ} → (Addr → A) → Addr → A → Addr → A
update f p v a = if a == p then v else f a

-- `p->next` and `p->prev`, read and written.
unfoldable pub get_next : Addr → Cmd Links Addr
get_next p m = if m.live p then ok (m.next p) m else fault

unfoldable pub get_prev : Addr → Cmd Links Addr
get_prev p m = if m.live p then ok (m.prev p) m else fault

unfoldable pub set_next : Addr → Addr → Cmd Links (Unit {0})
set_next p v m = if m.live p then ok tt (record m { next = update m.next p v }) else fault

unfoldable pub set_prev : Addr → Addr → Cmd Links (Unit {0})
set_prev p v m = if m.live p then ok tt (record m { prev = update m.prev p v }) else fault
