-- ===== src/Sysfile/Examples.antt =====
-- The theorems of kernel/sysfile.c at a process whose descriptors 0 and 1 name the files 4 and 5.
use avx_loong_arch.Prelude.{ℕ, ◌+◌, ◌≡◌, refl, true, none, some, [], ◌∷◌, ◌==◌}
use avx_loong_arch.Sysfile.Uses.{one_if, uses, Counted}
use avx_loong_arch.Sysfile.Descriptors.{CountedEnd, sys_close-Counted}
use avx_loong_arch.Sysfile.{Ofile, found, argfd, sys_close}
use avx_loong_arch.File.{fd_none, Table}

abbrev two_open : Ofile
two_open = some 4 ∷ some 5 ∷ none ∷ none ∷ []

-- File 4 has one more reference, from another process.
abbrev others : ℕ → ℕ
others i = one_if (i == 4)

abbrev file_table : Table
file_table i = record {
  kind = fd_none;
  ref = one_if (i == 4) + uses i two_open;
  writable = true;
  off = 0;
}

two_open-Counted : Counted others (two_open, file_table)
two_open-Counted i = refl

sys_close-Counted_example : CountedEnd others (sys_close 1 (two_open, file_table))
sys_close-Counted_example = sys_close-Counted others 1 two_open file_table two_open-Counted

argfd-zero : argfd 0 two_open ≡ found 0 4
unfolding argfd
argfd-zero = refl
