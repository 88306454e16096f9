-- ===== src/Lib.antt =====
-- The hash table library: intrusive lists, a hash table and a deque over them, and hash functions.
--
-- The program is a library in C. `list.h` holds two intrusive lists, the circular doubly linked list of
-- `k_list_head` and the list of `hlist_node` with a head of one pointer. `hashtable.h` and `hashtable.c`
-- build the hash table on the second: an array of heads, and a bucket chosen by the low bits of a key,
-- which the functions of `hash.h` compute. `assoc_array.c` keeps entries in such a table and in a list at
-- once. `deque.c` builds a deque on the list. `leak_detector_c.c` wraps the allocation functions and keeps
-- a record of each block. `main.c` is an example that fills an array and deletes its entries one by one.
--
-- How the code is modelled:
-- - A C function is a command, a function from a memory to a run, which ends in a value and a new memory,
--   in a fault, or with its fuel used up (Common/Commands). A fault is undefined behaviour: an access
--   through an address at which no live object stands, a signed overflow, a shift by the width or more.
-- - A memory is a record of one function per member, from addresses to values, with the set of live
--   objects. An intrusive node has the address of the member in its object; the way from it to the
--   object, `k_container_of`, is in the macros on entries. What `malloc` returns is an argument; a fresh object holds what the memory held before.
-- - A macro that loops takes fuel, a body, and the variables that the body changes. One unit of fuel is
--   one round, and the theorems ask for more fuel than the list, or any bucket, has nodes. The walks of
--   the leak detector over its records, and the loops of `main.c`, take fuel in the same way.
-- - An integer of w bits is a number below 2 ^ w with its wrap-around written out; for a signed one the
--   wrap-around is undefined, and a function without a memory gives `none` for it.
--
-- Which file models which part:
-- - Links, KList (list.h, `k_list_head` of types.h): every function, and the loops. KList/Ring says what a
--   list in memory is; KList/Insert, Delete, Move, Replace, Splice, Join, Cut, Query and Loops hold the
--   theorems of the functions. KList/Entries and EntryLoops have the macros on the entries that
--   nodes are members of.
-- - HLinks, HList (list.h, `hlist_head` and `hlist_node` of types.h): every function, and the loops.
--   HList/Chain says what a chain in memory is; HList/Link, Add, Unlink, Loops and Entries hold the theorems,
--   the last with the macros on entries.
-- - Hashtable (hashtable.h, hashtable.c): `ht_create`, `calc_bkt`, `hash_add_bits`, `hash_del`, the loops
--   over all buckets, `COUNT_ENTRIES_IN_HASHTABLE`, `CLEAR_HASHTABLE_BITS`, `HT_FREE`. Hashtable/Buckets
--   says what a table in memory is. The caller's `free_func` is a parameter; Hashtable/Release states what
--   the clearing relies on: it frees the object of a live node, and nothing else. The clearing runs on any
--   memory that has tables in it (Hashtable/Callback). Hashtable/Arrays has the macros for an array of heads
--   that is declared with its size.
-- - World, AssocArray (assoc_array.c, assoc_array.h): the memory of the entries and arrays with the
--   members that the example adds, and every function. The callbacks are parameters, and so is what the
--   pointer `custom_ht_create` calls. AssocArray/Valid says what an array in memory is; AssocArray/Create,
--   Find, Lookup, Add, Fill, Split, Delete, Free, Remove, Ends, Release and Blocks hold the theorems.
-- - Deque (deque.c, deque.h): every function and macro that can be used. Deque/Valid says which sequence a deque stands for.
--   Deque/Push, Pop and Lifetime hold the theorems, Deque/Order those of a run of pushes and pops, and
--   Deque/Macros the macros that take a variable.
-- - Hash (hash.h): every function.
-- - Log2 (log2.h): `ilog2` and the rounding macros of a constant, `fls` and its uses, `is_power_of_2`.
-- - LeakDetector (leak_detector_c.c): every function. Its memory has the MEMLEAK objects, the blocks and
--   the head. LeakDetector/Valid says what the records of a program's blocks are; LeakDetector/Strings,
--   Add, Track, Remove, Release, Report and Reach hold the theorems, the last over a step relation of the
--   programs that use the detector.
-- - Main (main.c): the arguments, the difference of two times, the functions on nodes (Main/Nodes) and
--   `run_example_code` (Main/Run). `atoi`, `atof`, the random numbers, and the numbers with a point and
--   their quotient are parameters; what is printed is what `snprintf` is given.
-- - Once (compiler.h): `READ_ONCE` and `WRITE_ONCE` over a memory of bytes. Once/Copies and Once/Writes hold
--   the theorems.
-- - Common: Boolean tests and lists over the native numbers, commands, and the bit operations.
-- - Tests: concrete memories, and the theorems at them.
--
-- Not modelled: the allocation mocks, which are function pointers that tests set, and the tests; the
-- compiler headers, which but for `READ_ONCE` and `WRITE_ONCE` have no run-time behaviour; jemalloc.h and
-- unity, which are other projects' code; the second text of hash.h (lines 95 to 205), which the include guard of the first drops; in main.c, the
-- clock, `inet_ntop`, and the arithmetic on numbers with a point; `DEQ_PUSH` and
-- `DEQ_PUSH_TAIL`, which name a member that no type has; and the rounding macros of log2.h for an argument
-- that is no constant, which call functions that no file defines.
pub mod Common
pub mod Links
pub mod KList
pub mod LeakDetector
pub mod Deque
pub mod Hash
pub mod Log2
pub mod Once
pub mod HLinks
pub mod HList
pub mod Hashtable
pub mod World
pub mod AssocArray
pub mod Main
pub mod Tests
