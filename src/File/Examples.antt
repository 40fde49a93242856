-- ===== src/File/Examples.antt =====
-- The theorems of kernel/file.c at a table with a pipe that two descriptors use.
use avx_loong_arch.Prelude.{ℕ, ◌≡◌, refl, ◌≢◌, true, false, [], ◌∷◌, ◌==◌, if◌then◌else◌, ok, panic}
use avx_loong_arch.File.Refs.{close_n, close_n_lem}
use avx_loong_arch.File.{fd_none, fd_pipe, File, Table, nothing, close_pipe, fileclose}

abbrev free_file : File
free_file = record { kind = fd_none; ref = 0; writable = false; off = 0 }

abbrev pipe_file : File
pipe_file = record { kind = fd_pipe 7; ref = 2; writable = true; off = 0 }

abbrev table : Table
table i = if i == 0 then pipe_file else free_file

close_n_lem_example :
    (u : Table) × (close_n 2 0 table ≡ ok (nothing ∷ close_pipe 7 true ∷ [], u))
    × ((u 0).ref ≡ 0)
    × (fileclose 0 u ≡ panic)
    × ((j : ℕ) → j ≢ 0 → u j ≡ table j)
close_n_lem_example = close_n_lem 1 0 table refl
