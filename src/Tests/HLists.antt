-- ===== src/Tests/HLists.antt =====
-- A memory with a chain, and the theorems of the one-pointer list at it.
use hashtable_linux_kernel.Common.{
  ◌≡◌, refl, ◌&&◌, ◌||◌, ltb, ◌==◌, if◌then◌else◌, [], ◌∷◌, arith, Returns,
}
use hashtable_linux_kernel.Links.{null}
use hashtable_linux_kernel.HLinks.{HLinks}
use hashtable_linux_kernel.HList.{hlist_del_init, hlist_add_head}
use hashtable_linux_kernel.HList.Chain.{Chain, SameOutside}
use hashtable_linux_kernel.HList.Add.{Added, hlist_add_head-Chain}
use hashtable_linux_kernel.HList.Unlink.{hlist_del_init-Chain}

-- Head 1 holds 2 and 3, head 8 is empty, and the nodes 4 to 7 are in no chain.
abbrev memory : HLinks
memory = record {
  node_live = λ a. ltb 1 a && ltb a 8;
  head_live = λ a. a == 1 || a == 8;
  next = λ a. if a == 1 then 2 else if a == 2 then 3 else 0;
  pprev = λ a. if a == 2 then 1 else if a == 3 then 2 else 0;
}

one-Chain : Chain memory 1 (2 ∷ 3 ∷ [])
one-Chain = record {
  seg = (refl, refl, (refl, refl, refl));
  distinct = λ a. ground arith;
  non_null = refl;
  nodes = λ a i. ground arith;
  head = refl;
}

hlist_add_head-Chain_example :
    Returns (Added memory 5 1 [] (2 ∷ 3 ∷ [])) (hlist_add_head 5 1 memory)
hlist_add_head-Chain_example = hlist_add_head-Chain 5 (2 ∷ 3 ∷ []) one-Chain refl refl

hlist_del_init-Chain_example :
    Returns
      (λ _ g.
        Chain g 1 (3 ∷ [])
        × (g.next 2 ≡ null)
        × (g.pprev 2 ≡ null)
        × SameOutside (1 ∷ 2 ∷ 3 ∷ []) memory g)
      (hlist_del_init 2 memory)
hlist_del_init-Chain_example = hlist_del_init-Chain [] 2 (3 ∷ []) one-Chain
