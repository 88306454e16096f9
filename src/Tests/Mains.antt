-- ===== src/Tests/Mains.antt =====
-- The theorems of the example program at concrete arguments and memories.
use hashtable_linux_kernel.Common.{
  ℕ, some, ◌++◌, ◌+◌, ◌≡◌, refl, false, ◌||◌, ◌==◌, List, [], ◌∷◌, arith, ok, fault, Cmd, Returns,
  returns,
}
use hashtable_linux_kernel.Links.{Addr, null}
use hashtable_linux_kernel.Hashtable.{Tables}
use hashtable_linux_kernel.Hashtable.Buckets.{IsTable}
use hashtable_linux_kernel.Hashtable.Create.{no_nodes}
use hashtable_linux_kernel.World.{World}
use hashtable_linux_kernel.AssocArray.{array_create}
use hashtable_linux_kernel.AssocArray.Valid.{IsAssoc}
use hashtable_linux_kernel.AssocArray.Delete.{FreedEntry}
use hashtable_linux_kernel.AssocArray.Create.{NewTable, array_create-IsAssoc}
use hashtable_linux_kernel.Main.{Timespec, FloatOps, diff_timespec}
use hashtable_linux_kernel.Main.Time.{Shown, diff_timespec-Shown}
use hashtable_linux_kernel.Main.Nodes.{mac_text, free_entry}
use hashtable_linux_kernel.Main.Callbacks.{FreedNode, free_entry-Freed}
use hashtable_linux_kernel.Main.Texts.{bytes_of, mac_text-bytes_of}
use hashtable_linux_kernel.Main.Run.{Choice, run_example_code}
use hashtable_linux_kernel.Main.Empty.{run_example_code-fault}
use hashtable_linux_kernel.Tests.AssocArrays.{assoc}

-- 5.9 s and 7.1 s: a second is borrowed.
abbrev early : Timespec
early = record { tv_sec = 5; tv_nsec = 900000000 }

abbrev late : Timespec
late = record { tv_sec = 7; tv_nsec = 100000000 }

-- The texts of the numbers with a point do not matter: an expression stands for itself.
abbrev quotients : FloatOps (List ℕ)
quotients = record { of_integer = λ n. n ∷ []; constant = λ n. n ∷ []; divide = λ a b. a ++ b }

diff_timespec-Shown_example :
    Shown quotients 5900000000 7100000000 (diff_timespec quotients early late)
diff_timespec-Shown_example = diff_timespec-Shown quotients early late (omega arith) (omega arith)

-- The program's name and four arguments: the last begins another group.
abbrev arguments : List (List ℕ)
arguments = (49 ∷ []) ∷ (50 ∷ 51 ∷ []) ∷ (52 ∷ []) ∷ (53 ∷ 54 ∷ 55 ∷ []) ∷ []

mac_text-bytes_of_example :
    bytes_of (mac_text (0 ∷ 31 ∷ 255 ∷ 160 ∷ 9 ∷ 10 ∷ [])) ≡ some (0 ∷ 31 ∷ 255 ∷ 160 ∷ 9 ∷ 10 ∷ [])
mac_text-bytes_of_example =
    mac_text-bytes_of (0 ∷ 31 ∷ 255 ∷ 160 ∷ 9 ∷ 10 ∷ [])
      (omega arith, (omega arith, (omega arith, (omega arith, (omega arith, (omega arith, tt))))))

-- The array of `AssocArrays`, whose entry 2 has a node at 302 with its name at 602.
abbrev named : World
named = record assoc { hostname = λ a. a + 300 }

free_entry-Freed_example :
    Returns (λ _ g. FreedEntry 2 named g × FreedNode 302 602 named g) (free_entry 2 named)
free_entry-Freed_example =
    free_entry-Freed named 2 (omega arith) refl refl (omega arith) refl refl (omega arith)
      (omega arith)

-- A memory with a table of two empty buckets at 40.
abbrev new_tables : Tables
new_tables = record {
  chains = record {
    next = λ a. 0;
    pprev = λ a. 0;
    head_live = λ a. a == 64 || a == 72;
    node_live = λ a. false;
  };
  ht_live = λ a. a == 40;
  table = λ a. 64;
  bits = λ a. 1;
  block = λ a. 2;
}

new_tables-IsTable : IsTable new_tables.chains 64 1 no_nodes
new_tables-IsTable = record {
  chain = λ i lt. record {
    seg = refl;
    distinct = λ a. ground arith;
    non_null = ground arith;
    nodes = λ a o. absurd (omega arith);
    head = ground arith;
  };
  apart = λ i j lt lt' ne a o. ground arith;
}

abbrev make_table : Addr → (bits : ℕ) → Cmd Tables Addr
make_table pointer bits t = ok 40 new_tables

make_table-NewTable : Returns (NewTable 1) (make_table 0 1 assoc.tables)
make_table-NewTable = returns (record {
  given = omega arith;
  live = refl;
  bits = refl;
  no_object = refl;
  table = new_tables-IsTable;
})

array_create-IsAssoc_example :
    Returns
      (λ arr g.
        (arr ≡ 700)
        × IsAssoc g 700 []
        × (g.tables.chains.node_live null ≡ false)
        × (g.free_entry 700 ≡ 800)
        × (g.fill_entry 700 ≡ 9))
      (array_create make_table 700 8 9 1 800 null assoc)
array_create-IsAssoc_example =
    array_create-IsAssoc assoc make_table 700 (omega arith) 8 9 1 800 null (omega arith)
      make_table-NewTable

abbrev choice : Choice
choice = record { node = 900; name = 910; entry = 920; mac = λ n. n; ip = 5 }

run_example_code-fault_example :
    run_example_code 800 810 3 quotients make_table 700 8 9 1 1 [] choice early late assoc ≡ fault
run_example_code-fault_example =
    run_example_code-fault quotients 800 810 3 assoc make_table 700 8 9 1 1 choice early late
      (omega arith) (omega arith) make_table-NewTable
