-- ===== src/String/Examples.antt =====
-- The theorems of kernel/string.c at a short string, and runs of its routines.
use avx_loong_arch.Prelude.{◌≡◌, refl, arith}
use avx_loong_arch.String.Compare.{IsBytes}
use avx_loong_arch.String.Copy.{moved, memmove-moved, IsString}
use avx_loong_arch.String.{Memory, store, memmove}

-- "abcd" at 100, and 7 elsewhere.
abbrev mem : Memory
mem = store (store (store (store (store (λ p. 7) 100 97) 101 98) 102 99) 103 100) 104 0

mem-IsBytes : IsBytes mem
mem-IsBytes = λ p. ground arith

mem-IsString : IsString mem 100 4
mem-IsString = record { bytes = λ j lt. ground arith; nul = refl }

memmove-moved_example : memmove mem 101 100 4 102 ≡ moved mem 101 100 4 102
memmove-moved_example = memmove-moved mem 101 100 4 102
