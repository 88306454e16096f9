-- ===== src/Main/Run.antt =====
-- The run of the example program (`run_example_code`): what it prints, and its calls of the array.
use hashtable_linux_kernel.Common.{
  ℕ, suc, ◌%◌, ◌==◌, if◌then◌else◌, List, [], ◌∷◌, ◌++◌, length, Cmd, ok, fault, pure, ◌>>=◌, ◌>>◌,
}
use hashtable_linux_kernel.Links.{Addr, null}
use hashtable_linux_kernel.Hashtable.{Tables}
use hashtable_linux_kernel.World.{World, get_data}
use hashtable_linux_kernel.AssocArray.{
  array_create, array_add_replace, array_get_last, array_get_first, array_get_by_key,
  array_del_first, array_collision_percent, array_free,
}
use hashtable_linux_kernel.Main.{Timespec, Diff, FloatOps, diff_timespec}
use hashtable_linux_kernel.Main.Nodes.{
  mac_of, malloc_node, generate_mac, generate_ipv4, generate_hostname, print_mac_node, free_entry,
  fill_entry, Line,
}

-- What the C library returns while one node is made: the addresses of the node, of its name and of its
-- entry, and the random numbers.
pub record Choice : Type 0 where
  pub node : Addr
  pub name : Addr
  pub entry : Addr
  pub mac : ℕ → ℕ
  pub ip : ℕ

-- What a run prints: the nodes, the percentage of collisions, and the time between its two readings of
-- the clock.
pub record Printed (Float : Type 0) : Type 0 where
  pub lines : List Line
  pub collisions : ℕ
  pub time_passed : Diff Float

-- The addresses of the two functions, and the loops' fuel.
module _ (free_at fill_at : Addr) (fuel : ℕ) where
  abbrev pub call_free : Addr → Addr → Cmd World (Unit {0})
  call_free pointer entry = if pointer == free_at then free_entry entry else λ w. fault

  -- The key of a node is its own `mac`.
  abbrev pub call_fill : Addr → (entry data_ : Addr) → List ℕ → Cmd World ℕ
  call_fill pointer entry data_ key =
      if pointer == fill_at then fill_entry entry data_ (mac_of data_) (length key) else λ w. fault

  -- The bytes at `node->mac`, which are the key.
  abbrev pub key_at : Addr → Cmd World (List ℕ)
  key_at node w = ok (w.bytes (mac_of node)) w

  -- A node is filled with an address, a number and a name.
  unfoldable pub generate : Choice → (node : Addr) (index : ℕ) → Cmd World (Unit {0})
  generate choice node index = do
    generate_mac choice.mac (mac_of node)
    generate_ipv4 choice.ip node
    generate_hostname choice.name node index

  module _ (arr : Addr) (print_divisor : ℕ) where
    -- The loop that fills the array, from the index `i` on; `i % print_divisor` is undefined for 0.
    unfoldable pub fill_from : ℕ → List Choice → Cmd World (List Line)
    unfolding generate
    fill_from i [] = pure []
    fill_from i (choice ∷ choices) = do
      node ← malloc_node choice.node
      if node == null then fill_from (suc i) choices else do
        generate choice node i
        key ← key_at node
        array_add_replace call_fill call_free fuel choice.entry arr node key
        lines ←
            if print_divisor == 0
            then (λ w. fault)
            else if i % print_divisor == 0
            then (do l ← print_mac_node node; pure (l ∷ []))
            else pure []
        rest ← fill_from (suc i) choices
        pure (lines ++ rest)

  -- `e ? print_mac_node(e->data)`.
  unfoldable pub print_entry : Addr → Cmd World (List Line)
  print_entry e =
      if e == null then pure [] else do node ← get_data e; l ← print_mac_node node; pure (l ∷ [])

  -- `choices` are of the nodes of the loop, `last` of the one behind it. The result is what is
  -- printed, and the percentage of collisions. (The last `data` is read before `last_entry` is
  -- tested; what `malloc` returns for the last node is not.)
  unfoldable pub run_example_code :
      {Float : Type 0} (ops : FloatOps Float) (call_ht_create : Addr → (bits : ℕ) → Cmd Tables Addr)
      (fresh_arr : Addr) (default_free default_fill : Addr) (bits print_divisor : ℕ)
      (choices : List Choice) (last : Choice) (start finish : Timespec)
      → Cmd World (Printed Float)
  unfolding fill_from print_entry generate
  run_example_code ops call_ht_create fresh_arr default_free default_fill bits print_divisor choices
        last start finish =
      do
        arr ← array_create call_ht_create fresh_arr default_free default_fill bits free_at fill_at
        filled ← fill_from arr print_divisor 0 choices
        last_entry ← array_get_last arr
        node ← get_data last_entry
        last_line ← print_mac_node node
        if last_entry == null then pure 0 else array_del_first call_fill call_free arr
        node' ← malloc_node last.node
        generate last node' 100
        new_line ← print_mac_node node'
        key ← key_at node'
        array_add_replace call_fill call_free fuel last.entry arr node' key
        e ← array_get_by_key fuel arr key
        found ← print_entry e
        e' ← array_get_first arr
        first ← print_entry e'
        coll ← array_collision_percent fuel arr
        array_free call_fill call_free fuel arr
        pure (record {
          lines = filled ++ last_line ∷ new_line ∷ found ++ first;
          collisions = coll;
          time_passed = diff_timespec ops start finish;
        })
