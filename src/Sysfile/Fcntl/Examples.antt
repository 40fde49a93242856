-- ===== src/Sysfile/Fcntl/Examples.antt =====
-- The theorem on sys_fcntl where a process duplicates its descriptor 0 from 2 on.
use avx_loong_arch.Prelude.{◌≡◌, refl, true, none, some, [], ◌∷◌, arith}
use avx_loong_arch.File.{fd_none, Table}
use avx_loong_arch.Sysfile.Descriptors.{CountedEnd}
use avx_loong_arch.Sysfile.Fcntl.Counts.{sys_fcntl-Counted}
use avx_loong_arch.Sysfile.Fcntl.Lowest.{IsLowest, fdalloc2-IsLowest}
use avx_loong_arch.Sysfile.Fcntl.{f_dupfd_cloexec, fdalloc_from, fdalloc2, sys_fcntl}
use avx_loong_arch.Sysfile.Uses.{uses, Counted}
use avx_loong_arch.Sysfile.{Ofile, fdalloc}

abbrev gap : Ofile
gap = some 4 ∷ none ∷ some 5 ∷ none ∷ []

abbrev gap_table : Table
gap_table i = record { kind = fd_none; ref = uses i gap; writable = true; off = 0 }

gap-Counted : Counted (λ i. 0) (gap, gap_table)
gap-Counted i = omega arith

sys_fcntl-Counted_example :
    CountedEnd (λ i. 0) (sys_fcntl 4 0 f_dupfd_cloexec 2 (λ d. 0) (gap, gap_table))
sys_fcntl-Counted_example =
    sys_fcntl-Counted (λ i. 0) 4 0 f_dupfd_cloexec 2 (λ d. 0) gap gap_table gap-Counted

-- The descriptor 1 is free, but below the start.
fdalloc2-gap : fdalloc2 4 2 4 gap ≡ some (3, some 4 ∷ none ∷ some 5 ∷ some 4 ∷ [])
unfolding fdalloc2 fdalloc_from fdalloc
fdalloc2-gap = refl

fdalloc2-IsLowest_example : IsLowest 4 2 4 gap (fdalloc2 4 2 4 gap)
fdalloc2-IsLowest_example = fdalloc2-IsLowest 4 2 4 gap (omega arith)
