-- ===== src/HLinks.antt =====
-- The memory of `struct hlist_head` and `struct hlist_node` objects (types.h). `first` of a head and
-- `next` of a node stand at offset 0, so a pointer to such a member, as `pprev` holds it, is the
-- address of its object; `next a` is the member at address `a`, of whichever object stands there. An
-- access through an address at which no such object is live is a fault.
use hashtable_linux_kernel.Common.{Bool, ◌||◌, if◌then◌else◌, Cmd, ok, fault}
use hashtable_linux_kernel.Links.{Addr, update}

pub record HLinks : Type 0 where
  pub node_live : Addr → Bool
  pub head_live : Addr → Bool
  pub next : Addr → Addr
  pub pprev : Addr → Addr

-- `*p` for a pointer to a `first` or a `next` member.
unfoldable pub get_slot : Addr → Cmd HLinks Addr
get_slot p m = if m.node_live p || m.head_live p then ok (m.next p) m else fault

unfoldable pub set_slot : Addr → Addr → Cmd HLinks (Unit {0})
set_slot p v m =
    if m.node_live p || m.head_live p then ok tt (record m { next = update m.next p v }) else fault

unfoldable pub get_first : Addr → Cmd HLinks Addr
get_first h m = if m.head_live h then ok (m.next h) m else fault

unfoldable pub set_first : Addr → Addr → Cmd HLinks (Unit {0})
set_first h v m = if m.head_live h then ok tt (record m { next = update m.next h v }) else fault

unfoldable pub get_hnext : Addr → Cmd HLinks Addr
get_hnext n m = if m.node_live n then ok (m.next n) m else fault

unfoldable pub set_hnext : Addr → Addr → Cmd HLinks (Unit {0})
set_hnext n v m = if m.node_live n then ok tt (record m { next = update m.next n v }) else fault

unfoldable pub get_pprev : Addr → Cmd HLinks Addr
get_pprev n m = if m.node_live n then ok (m.pprev n) m else fault

unfoldable pub set_pprev : Addr → Addr → Cmd HLinks (Unit {0})
set_pprev n v m = if m.node_live n then ok tt (record m { pprev = update m.pprev n v }) else fault
