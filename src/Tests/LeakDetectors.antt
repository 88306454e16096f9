-- ===== src/Tests/LeakDetectors.antt =====
-- A leak detector with two records, and one not in use.
use hashtable_linux_kernel.Common.{
  ℕ, ◌≡◌, refl, true, false, ◌&&◌, ◌||◌, ltb, ◌==◌, if◌then◌else◌, List, [], ◌∷◌, arith, Returns,
  ok, fault, inr, Run, some, suc, ◌≤◌,
}
use hashtable_linux_kernel.Links.{Addr, get_prev, set_next, set_prev}
use hashtable_linux_kernel.LeakDetector.{
  MemInfo, Leaks, xmalloc, xrealloc, remove_mem_info, report_from, report_mem_leak, add_mem_info,
  string_in, malloc_bytes, add, malloc_memleak, get_info, set_info, copy_name, strncpy, strcpy,
  memleak_add_list_tail, __add_memleak_list,
}
use hashtable_linux_kernel.LeakDetector.Valid.{Leak, IsUnused, IsDetector, IsFresh, used}
use hashtable_linux_kernel.LeakDetector.Remove.{Removed, remove_mem_info-Removed}
use hashtable_linux_kernel.LeakDetector.Track.{Tracks}
use hashtable_linux_kernel.LeakDetector.Release.{xrealloc-Tracks}
use hashtable_linux_kernel.LeakDetector.Report.{report_mem_leak-fault}
use hashtable_linux_kernel.LeakDetector.Reach.{
  Reach, start, malloc, Reach-Tracks, Reach-report_mem_leak,
}

abbrev object : ℕ → MemInfo
object p = record { address = p; size = 4; file_name = 97 ∷ 46 ∷ 99 ∷ 0 ∷ 5 ∷ []; line = 7 }

abbrev record_at : Addr → ℕ → Leak
record_at n p = record {
  node = n;
  info = record { address = p; size = 4; file_name = 97 ∷ 46 ∷ 99 ∷ []; line = 7 };
}

-- The head at 1 has the records 2 and 3, of the blocks 100 and 200.
abbrev memory : Leaks
memory = record {
  links = record {
    live = λ a. ltb 0 a && ltb a 4;
    next = λ a. if a == 1 then 2 else if a == 2 then 3 else 1;
    prev = λ a. if a == 1 then 3 else if a == 2 then 1 else 2;
  };
  mem_info = λ a. object (if a == 2 then 100 else 200);
  heap = λ a. a == 2 || (a == 3 || (a == 100 || a == 200));
  head = 1;
  memleak_flag = true;
}

abbrev records : List Leak
records = record_at 2 100 ∷ record_at 3 200 ∷ []

name_ends : string_in (97 ∷ 46 ∷ 99 ∷ 0 ∷ 5 ∷ []) ≡ some (97 ∷ 46 ∷ 99 ∷ [])
unfolding string_in
name_ends = refl

abbrev memory-IsDetector : IsDetector memory records
memory-IsDetector = record {
  fixed = record { head_live = refl; static = refl; null_live = refl; null_heap = refl };
  flag = refl;
  list = record {
    cycle = (refl, refl, (refl, refl, (refl, refl)));
    distinct = λ a. ground arith;
    live = λ a i. ground arith;
  };
  heap = λ a i. ground arith;
  stored = (
    record { address = refl; size = refl; line = refl; name = name_ends },
    (record { address = refl; size = refl; line = refl; name = name_ends }, tt),
  );
}

abbrev memory-Tracks : Tracks memory (100 ∷ 200 ∷ []) records
memory-Tracks = record {
  keeps = used memory-IsDetector;
  same = refl;
  distinct = λ a. ground arith;
  owned = λ a i. ground arith;
  apart = λ a i. ground arith;
}

abbrev memory-IsFresh : (a : Addr) → 200 ≤ a → IsFresh memory (suc a)
memory-IsFresh a big = record {
  given = λ e. omega arith;
  heap = ground arith;
  apart = λ e. omega arith;
}

remove_mem_info-Removed_example :
    Returns (λ _ g. Removed memory records (record_at 2 100 ∷ []) g) (remove_mem_info 5 200 memory)
remove_mem_info-Removed_example =
    remove_mem_info-Removed memory records 200 5 memory-IsDetector (omega arith)

xrealloc-Tracks_example :
    Returns
      (λ q g.
        (q ≡ 301)
        × Tracks g (200 ∷ 301 ∷ []) (
            record_at 3 200
            ∷ record {
              node = 401;
              info = record { address = 301; size = 9; file_name = 98 ∷ []; line = 8 };
            }
            ∷ []))
      (xrealloc 5 301 401 (object 0) 100 9 (98 ∷ []) 8 memory)
xrealloc-Tracks_example =
    xrealloc-Tracks memory (100 ∷ 200 ∷ []) records memory-Tracks 100 (omega arith) 5 (omega arith)
      301 401 (inr (memory-IsFresh 300 (omega arith))) (memory-IsFresh 400 (omega arith))
      (λ e. omega arith) (object 0) (98 ∷ []) 8 (omega arith) refl 9

report_mem_leak-fault_example :
    (report_from 5 2 memory ≡ ok ((record_at 2 100).info ∷ []) memory)
    × (report_mem_leak 5 true memory ≡ fault)
report_mem_leak-fault_example =
    report_mem_leak-fault memory (record_at 2 100) (record_at 3 200 ∷ []) 5 true memory-IsDetector
      (omega arith)

-- The detector at the start of a program.
abbrev untouched : Leaks
untouched = record memory {
  links = record { live = λ a. a == 1; next = λ a. 0; prev = λ a. 0 };
  heap = λ a. false;
  memleak_flag = false;
}

abbrev untouched-IsUnused : IsUnused untouched
untouched-IsUnused = record {
  fixed = record { head_live = refl; static = refl; null_live = refl; null_heap = refl };
  flag = refl;
  next = refl;
}

abbrev state_of : Run Leaks Addr → Leaks
state_of (ok a m) = m
state_of _ = untouched

abbrev first_call : Run Leaks Addr
first_call = xmalloc 301 401 (object 0) 4 (98 ∷ []) 8 untouched

abbrev untouched-IsFresh : (a : Addr) → 200 ≤ a → IsFresh untouched (suc a)
untouched-IsFresh a big = record { given = λ e. omega arith; heap = refl; apart = λ e. omega arith }

first_run : Reach (301 ∷ []) (state_of first_call)
unfolding xmalloc malloc_bytes add_mem_info add malloc_memleak get_info set_info copy_name strncpy
    strcpy string_in memleak_add_list_tail __add_memleak_list get_prev set_next set_prev
first_run =
    malloc 301 401 (object 0) 4 (98 ∷ []) 8 (start untouched-IsUnused)
      (untouched-IsFresh 300 (omega arith))
      (record {
        fresh_record = untouched-IsFresh 400 (omega arith);
        apart = λ e. omega arith;
        short = omega arith;
        plain = refl;
      })
      refl

Reach-Tracks_example : (rs : List Leak) × Tracks (state_of first_call) (301 ∷ []) rs
Reach-Tracks_example = Reach-Tracks first_run

flag_set : (state_of first_call).memleak_flag ≡ true
unfolding xmalloc malloc_bytes add_mem_info add malloc_memleak get_info set_info copy_name strncpy
    strcpy string_in memleak_add_list_tail __add_memleak_list get_prev set_next set_prev
flag_set = refl

Reach-report_mem_leak_example : report_mem_leak 5 true (state_of first_call) ≡ fault
Reach-report_mem_leak_example = Reach-report_mem_leak 5 true first_run flag_set (omega arith)
