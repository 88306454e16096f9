-- ===== src/Main/Nodes.antt =====
-- The `mac_node_t` objects of the example program, and its two functions on entries. A node at `p` has
-- its `ip` at `p`, its bytes `mac` at `p + 4`, which are the key of its entry, and its `hostname`
-- behind; all of it is one object of `malloc`.
use hashtable_linux_kernel.Common.{
  ℕ, zero, suc, ◌+◌, ◌-◌, ◌%◌, ◌/◌, ◌^◌, Bool, true, false, ltb, ◌==◌, if◌then◌else◌, List, [], ◌∷◌,
  ◌++◌, Cmd, ok, fault, pure, ◌>>=◌, ◌>>◌,
}
use hashtable_linux_kernel.Links.{Addr, null, update}
use hashtable_linux_kernel.World.{
  World, get_data, free_block, free_object, set_key, set_key_size, set_data,
}

abbrev pub eth_alen : ℕ
eth_alen = 6

-- `&node->mac`.
abbrev pub mac_of : Addr → Addr
mac_of node = node + 4

-- The memory where the node at `p` is live, or is not.
abbrev pub mark_node : Addr → Bool → World → World
mark_node p b w = record w { block_live = update (update w.block_live p b) (mac_of p) b }

-- `malloc(sizeof(mac_node_t))` and `free(mac_node)`.
unfoldable pub malloc_node : Addr → Cmd World Addr
malloc_node fresh w = if fresh == null then ok null w else ok fresh (mark_node fresh true w)

unfoldable pub free_node : Addr → Cmd World (Unit {0})
free_node p w =
    if p == null then ok tt w else if w.block_live p then ok tt (mark_node p false w) else fault

unfoldable pub get_hostname : Addr → Cmd World Addr
get_hostname node w = if w.block_live node then ok (w.hostname node) w else fault

unfoldable pub set_hostname : Addr → Addr → Cmd World (Unit {0})
set_hostname node p w =
    if w.block_live node then ok tt (record w { hostname = update w.hostname node p }) else fault

-- The bytes that the loop of `generate_mac` writes, from `i` on; `random n` is the result of the call
-- number `n`.
unfoldable pub mac_from : (random : ℕ → ℕ) (n i : ℕ) → List ℕ
mac_from random zero i = []
mac_from random (suc n) i = random i % 256 ∷ mac_from random n (suc i)

unfoldable pub generate_mac : (random : ℕ → ℕ) (mac : Addr) → Cmd World (Unit {0})
generate_mac random mac w =
    if w.block_live mac
    then ok tt (record w { bytes = update w.bytes mac (mac_from random eth_alen 0) })
    else fault

-- `INT32_MAX` is 2 ^ 31 - 1.
unfoldable pub generate_ipv4 : (random : ℕ) (node : Addr) → Cmd World (Unit {0})
generate_ipv4 random node w =
    if w.block_live node
    then ok tt (record w { ip = update w.ip node (random % (2 ^ 31 - 1)) })
    else fault

-- `%d` of a number that is not negative; ten digits are enough for an `int`.
unfoldable pub decimal_from : (fuel n : ℕ) → List ℕ
decimal_from zero n = []
decimal_from (suc fuel) n =
    let front = decimal_from fuel (n / 10) in
    if ltb n 10 then (48 + n) ∷ [] else front ++ (48 + n % 10) ∷ []

abbrev pub decimal : ℕ → List ℕ
decimal n = decimal_from 10 n

-- `Device %d`
abbrev pub device_name : ℕ → List ℕ
device_name index = 68 ∷ 101 ∷ 118 ∷ 105 ∷ 99 ∷ 101 ∷ 32 ∷ decimal index

-- `strdup` of a string, which returns `fresh`: NULL, or a block with the string and its NUL.
unfoldable pub strdup : (fresh : Addr) → List ℕ → Cmd World Addr
strdup fresh string w =
    if fresh == null
    then ok null w
    else ok fresh (record w {
      block_live = update w.block_live fresh true;
      bytes = update w.bytes fresh (string ++ 0 ∷ []);
    })

unfoldable pub generate_hostname : (fresh node : Addr) (index : ℕ) → Cmd World (Unit {0})
generate_hostname fresh node index = do p ← strdup fresh (device_name index); set_hostname node p

-- `%02x` of a byte.
unfoldable pub hex_digit : ℕ → ℕ
hex_digit d = if ltb d 10 then 48 + d else 87 + d

abbrev pub hex : ℕ → List ℕ
hex b = hex_digit (b / 16) ∷ hex_digit (b % 16) ∷ []

-- The bytes with colons between them.
unfoldable pub mac_text : List ℕ → List ℕ
mac_text [] = []
mac_text (b ∷ []) = hex b
mac_text (b ∷ c ∷ bs) = hex b ++ 58 ∷ mac_text (c ∷ bs)

-- What `print_mac_node` prints of a node: `%s` of a NULL name is undefined.
pub record Line : Type 0 where
  pub mac : List ℕ
  pub ip : ℕ
  pub name : List ℕ

unfoldable pub print_mac_node : Addr → Cmd World Line
print_mac_node node w =
    if w.block_live node
    then (if w.block_live (w.hostname node)
        then ok
            (record {
              mac = mac_text (w.bytes (mac_of node));
              ip = w.ip node;
              name = w.bytes (w.hostname node);
            })
            w
        else fault)
    else fault

unfoldable pub free_entry : Addr → Cmd World (Unit {0})
unfolding get_hostname free_node
free_entry entry = do
  mac_node ← get_data entry
  hostname ← get_hostname mac_node
  if hostname == null then pure tt else free_block hostname
  free_node mac_node
  free_object entry

unfoldable pub fill_entry : (entry data_ key : Addr) (key_size : ℕ) → Cmd World ℕ
fill_entry entry data_ key key_size = do
  set_key entry key
  set_key_size entry (key_size % 256)
  set_data entry data_
  pure 0
