-- ===== src/Tests/Onces.antt =====
-- A memory of bytes, and the theorems of the single accesses at it.
use hashtable_linux_kernel.Common.{ℕ, ◌%◌, ◌≡◌, List, [], ◌∷◌, arith, Returns, ◌>>◌, refl}
use hashtable_linux_kernel.Once.{Bytes, read_once, write_once}
use hashtable_linux_kernel.Once.Writes.{read_once-write_once}

abbrev memory : Bytes
memory = λ a. a % 256

abbrev three : List ℕ
three = 7 ∷ 255 ∷ 9 ∷ []

-- An object of three bytes at 100, and the unions at 8 and 16.
read_once-write_once_example :
    Returns (λ read g. read ≡ three) ((do write_once 8 100 three; read_once 16 100 3) memory)
read_once-write_once_example =
    read_once-write_once memory 8 16 100 three (λ a. omega arith) (λ b o. ground arith)
      (omega arith) refl refl
