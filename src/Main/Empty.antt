-- ===== src/Main/Empty.antt =====
-- The run of the example program with no entry.
use hashtable_linux_kernel.Common.{
  ℕ, ◌≡◌, ◌≢◌, ◌<◌, refl, false, ◌==◌, [], arith, Cmd, Returns, Returns-inv, fault, ok,
}
use hashtable_linux_kernel.Links.{Addr, null}
use hashtable_linux_kernel.KList.Query.{k_list_empty-is_nil}
use hashtable_linux_kernel.Hashtable.{Tables}
use hashtable_linux_kernel.World.{World, get_data}
use hashtable_linux_kernel.AssocArray.{array_get_last, _array_get_first, array_is_empty}
use hashtable_linux_kernel.AssocArray.Valid.{IsAssoc}
use hashtable_linux_kernel.AssocArray.Create.{NewTable, array_create-IsAssoc}
use hashtable_linux_kernel.Main.{Timespec, FloatOps}
use hashtable_linux_kernel.Main.Run.{Choice, fill_from, run_example_code}

-- The last entry of an array without entries.
pub array_get_last-null :
    (w : World) (arr : Addr) → IsAssoc w arr [] → array_get_last arr w ≡ ok null w
unfolding array_get_last _array_get_first array_is_empty
array_get_last-null w arr is =
    let given : (arr == 0) ≡ false = ground (arith, is.array.given) in
    rw (given, k_list_empty-is_nil [] is.list) refl

-- `run_example_code` with no entry to add, when the array can be made, is a fault: `array_get_last`
-- returns NULL, and its `data` is read before the test.
pub run_example_code-fault :
    {Float : Type 0} (ops : FloatOps Float) (free_at fill_at : Addr) (fuel : ℕ) (w : World)
    (call_ht_create : Addr → (bits : ℕ) → Cmd Tables Addr) (fresh : Addr)
    (default_free default_fill : Addr) (bits print_divisor : ℕ) (last : Choice)
    (start finish : Timespec)
    → fresh ≢ null
    → bits < 31
    → Returns (NewTable bits) (call_ht_create w.custom_ht_create bits w.tables)
    → run_example_code free_at fill_at fuel ops call_ht_create fresh default_free default_fill bits
        print_divisor [] last start finish w
      ≡ fault
unfolding run_example_code fill_from get_data
run_example_code-fault ops free_at fill_at fuel w call_ht_create fresh default_free default_fill
      bits print_divisor last start finish given few makes =
    let (arr, g, run, (same, is, none, _, _)) = Returns-inv (
      array_create-IsAssoc w call_ht_create fresh given default_free default_fill bits free_at
        fill_at few makes) in
    rw (run, same, array_get_last-null g fresh is, none) refl
