-- ===== src/Main.antt =====
-- The example program (main.c): its arguments, the time it prints, and its run of the associative
-- array. A string is the list of its bytes before the NUL. What the C library returns (numbers read
-- from strings, random numbers, addresses of new objects) are arguments.
pub mod Time
pub mod Args
pub mod Nodes
pub mod Run
pub mod Callbacks
pub mod Texts
pub mod Empty
use hashtable_linux_kernel.Common.{
  ℕ, zero, suc, ◌+◌, ◌-◌, ◌*◌, ◌%◌, ◌/◌, ◌^◌, Bool, true, false, not, ◌&&◌, ◌||◌, ltb, leb, ◌==◌,
  if◌then◌else◌, List, [], ◌∷◌, ◌++◌, is_nil, length, Cmd, ok, fault, pure, ◌>>=◌, ◌>>◌,
}
use hashtable_linux_kernel.Links.{Addr, null, update}

-- The loop of `matches`, which stops at the end of the string or at the first difference; the byte
-- at the end of the prefix is the NUL, which is in no string.
unfoldable pub matches_from : (prefix string : List ℕ) → Bool
matches_from prefix [] = is_nil prefix
matches_from [] (c ∷ string) = true
matches_from (p ∷ prefix) (c ∷ string) = if p == c then matches_from prefix string else false

unfoldable pub matches : (prefix string : List ℕ) → Bool
matches prefix string = if is_nil prefix then false else matches_from prefix string

pub record Timespec : Type 0 where
  pub tv_sec : ℕ
  pub tv_nsec : ℕ

-- What `snprintf` is given, with its format: `%f %s` of a number with a point, or `%ld %s` of an integer.
pub data TimeText (Float : Type 0) : Type 0 where
  float_text : (value : Float) (unit : List ℕ) → TimeText Float
  integer_text : (value : ℕ) (unit : List ℕ) → TimeText Float

-- `diff_timespec` returns NULL, or a string; a sum above 2 ^ 63 - 1 is undefined.
pub data Diff (Float : Type 0) : Type 0 where
  negative : Diff Float
  overflow : Diff Float
  printed : TimeText Float → Diff Float

-- The numbers with a point: the conversion of an integer, the constant `n.0f`, and the quotient.
pub record FloatOps (Float : Type 0) : Type 0 where
  pub of_integer : ℕ → Float
  pub constant : ℕ → Float
  pub divide : Float → Float → Float

module _ {Float : Type 0} (ops : FloatOps Float) where
  -- The most fitting unit of a number of nanoseconds: `s`, `ms`, `µs` (two bytes for `µ`), `ns`.
  unfoldable pub in_unit : ℕ → TimeText Float
  in_unit total_nsecs =
      if leb 1000000000 total_nsecs
      then float_text (ops.divide (ops.of_integer total_nsecs) (ops.constant 1000000000)) (115 ∷ [])
      else if leb 1000000 total_nsecs
      then float_text (ops.divide (ops.of_integer total_nsecs) (ops.constant 1000000))
          (109 ∷ 115 ∷ [])
      else if leb 1000 total_nsecs
      then float_text (ops.divide (ops.of_integer total_nsecs) (ops.constant 1000))
          (194 ∷ 181 ∷ 115 ∷ [])
      else integer_text total_nsecs (110 ∷ 115 ∷ [])

  -- The times are not negative. A difference of nanoseconds below 0 is written as what is left of the
  -- second that is taken from the seconds.
  unfoldable pub diff_timespec : (t1 t2 : Timespec) → Diff Float
  unfolding in_unit
  diff_timespec t1 t2 =
      if ltb t2.tv_sec t1.tv_sec || ((t2.tv_sec == t1.tv_sec) && ltb t2.tv_nsec t1.tv_nsec)
      then negative
      else let borrow = ltb t2.tv_nsec t1.tv_nsec in
        let sec_diff = if borrow then t2.tv_sec - t1.tv_sec - 1 else t2.tv_sec - t1.tv_sec in
        let nsec_diff =
          if borrow then t2.tv_nsec + 1000000000 - t1.tv_nsec else t2.tv_nsec - t1.tv_nsec in
        let total_nsecs = sec_diff * 1000000000 + nsec_diff in
        if ltb total_nsecs (2 ^ 63) then printed (in_unit total_nsecs) else overflow

-- What the arguments set; `Float` is the type of the C library's numbers with a point.
pub record Config (Float : Type 0) : Type 0 where
  pub bits : ℕ
  pub density : Float
  pub print_freq_density : Float

-- What the command line leads to: the two functions that leave the program, or a run; or the loop has
-- not ended when its fuel is used up.
pub data Outcome (Float : Type 0) : Type 0 where
  loops : Outcome Float
  incomplete_command : Outcome Float
  usage : Outcome Float
  runs : Config Float → Outcome Float

-- `-h` and `--help`.
abbrev pub is_help : List ℕ → Bool
is_help arg = matches arg (45 ∷ 104 ∷ []) || matches arg (45 ∷ 45 ∷ 104 ∷ 101 ∷ 108 ∷ 112 ∷ [])

-- `NEXT_ARG()`, where `argv` and `argc` are what is left of the arguments, the current one first.
unfoldable pub next_arg :
    {Float : Type 0}
    → (argv : List (List ℕ)) → ((arg : List ℕ) (argv : List (List ℕ)) → Outcome Float)
    → Outcome Float
next_arg [] continue = incomplete_command
next_arg (current ∷ []) continue = incomplete_command
next_arg (current ∷ arg ∷ argv) continue = continue arg (arg ∷ argv)

-- `NEXT_ARG_OK()`.
abbrev pub next_arg_ok : List (List ℕ) → Bool
next_arg_ok argv = ltb 1 (length argv)

-- The loop of `main`, for `atoi` and `atof` of the C library.
module _ {Float : Type 0} (atoi : List ℕ → ℕ) (atof : List ℕ → Float) where
  unfoldable pub parse_from : ℕ → List (List ℕ) → Config Float → Outcome Float
  unfolding next_arg
  parse_from zero argv config = loops
  parse_from (suc fuel) argv config =
      if leb (length argv) 1
      then runs config
      else next_arg argv (λ arg argv_1.
        if is_help arg
        then usage
        else let with_bits = record config { bits = atoi arg } in
          if not (next_arg_ok argv_1)
          then parse_from fuel argv_1 with_bits
          else next_arg argv_1 (λ arg_2 argv_2.
            let with_density = record with_bits { density = atof arg_2 } in
            if not (next_arg_ok argv_2)
            then parse_from fuel argv_2 with_density
            else next_arg argv_2 (λ arg_3 argv_3.
              parse_from fuel argv_3 (record with_density { print_freq_density = atof arg_3 }))))

  -- `main` up to its call of `run_example_code`; `half` is 0.5.
  unfoldable pub main : (half : Float) → (argv : List (List ℕ)) → Outcome Float
  main half argv =
      parse_from (length argv) argv
        (record { bits = 18; density = half; print_freq_density = half })
