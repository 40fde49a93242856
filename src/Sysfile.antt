-- ===== src/Sysfile.antt =====
-- kernel/sysfile.c: the file descriptors of a process. A file is its index in ftable.file, and
-- `ofile` the array of the process, where none is NULL. An int argument is its word of 32 bits.
pub mod Uses
pub mod Descriptors
pub mod Fcntl
mod Examples
use avx_loong_arch.Prelude.{
  ℕ, zero, suc, ◌+◌, ◌-◌, ◌*◌, ◌/◌, ◌%◌, ◌^◌, ◌≤◌, ◌<◌, min, ◌≡◌, refl, sym, ap, ap₂, ◌∙◌, ◌≢◌, ◌↔◌,
  ◌⊎◌, inl, inr, Bool, true, false, ◌&&◌, ◌||◌, not, Option, none, some, List, [], ◌∷◌, ◌++◌,
  append-nil, append_assoc, arith, ltb, leb, ◌==◌, if◌then◌else◌, InRange, InRange-cons, Bool-cases,
  Option-cases, eq_of_==, ne_of_==, ==_refl, ==_of_ne, length, get_elem?, replicate, All, has,
  Outcome, ok, panic, out_of_fuel, ◌>>=◌,
}
use avx_loong_arch.File.{
  FileType, fd_none, fd_device, fd_sock, fd_null, fd_pipe, fd_entry, File, nfile, Table, set_file,
  filealloc_loop, filealloc, filedup, Closing, nothing, close_pipe, put_entry, closing, fileclose,
  seek, seek_set_cur, seek_kind, fileseek, hash_loop, hashpath,
}
use avx_loong_arch.File

abbrev pub Ofile : Type 0
Ofile = List (Option ℕ)

abbrev pub nofile : ℕ
nofile = 128

-- `p->ofile[fd] = f`, for a descriptor in the array
abbrev pub set_fd : Ofile → ℕ → Option ℕ → Ofile
set_fd [] fd v = []
set_fd (x ∷ xs) zero v = v ∷ xs
set_fd (x ∷ xs) (suc fd) v = x ∷ set_fd xs fd v

-- The results of argfd: -1, -2, or 0 with the descriptor and the file.
pub data FdArg : Type 0 where
  minus_one : FdArg
  minus_two : FdArg
  found : ℕ → ℕ → FdArg

abbrev pub file_at : ℕ → Option (Option ℕ) → FdArg
file_at fd (some (some f)) = found fd f
file_at fd _ = minus_one

-- argfd; -1 is 2 ^ 32 - 1, and a negative int is 2 ^ 31 or more.
pub argfd : ℕ → Ofile → FdArg
argfd fd ofile =
    if fd == 2 ^ 32 - 1
    then minus_two
    else if fd == 2 ^ 32 - 100
    then minus_one
    else if leb (2 ^ 31) fd || leb nofile fd
    then minus_one
    else file_at fd (get_elem? ofile fd)

abbrev pub put_behind : Option ℕ → Option (ℕ × Ofile) → Option (ℕ × Ofile)
put_behind x none = none
put_behind x (some (fd, xs)) = some (suc fd, x ∷ xs)

-- fdalloc on the `left` descriptors that may still be used; none is -1.
pub fdalloc : ℕ → ℕ → Ofile → Option (ℕ × Ofile)
fdalloc f zero xs = none
fdalloc f (suc left) [] = none
fdalloc f (suc left) (none ∷ xs) = some (0, some f ∷ xs)
fdalloc f (suc left) (some g ∷ xs) = put_behind (some g) (fdalloc f left xs)

-- The state of the descriptors and of the file table.
abbrev pub Files : Type 0
Files = Ofile × Table

-- A result below 0 is written as none.
abbrev pub dup_to : Table → ℕ → Option (ℕ × Ofile) → Ofile → Outcome (Option ℕ × Files)
dup_to t f none xs = ok (none, (xs, t))
dup_to t f (some (fd, xs')) xs = filedup f t >>= λ t'. ok (some fd, (xs', t'))

abbrev pub dup_arg : ℕ → Files → FdArg → Outcome (Option ℕ × Files)
dup_arg limit (xs, t) (found fd f) = dup_to t f (fdalloc f limit xs) xs
dup_arg limit s _ = ok (none, s)

-- sys_dup, with the process's limit NOFILEMAX.
pub sys_dup : ℕ → ℕ → Files → Outcome (Option ℕ × Files)
sys_dup limit fd (xs, t) = dup_arg limit (xs, t) (argfd fd xs)

abbrev pub is_file : ℕ → Option (Option ℕ) → Bool
is_file f (some (some g)) = g == f
is_file f _ = false

abbrev pub dup3_arg : ℕ → ℕ → Files → FdArg → Outcome (Option ℕ × Files)
dup3_arg limit newfd (xs, t) (found fd f) =
    if leb (2 ^ 31) newfd
    then ok (none, (xs, t))
    else if leb limit newfd
    then ok (none, (xs, t))
    else if is_file f (get_elem? xs newfd)
    then ok (some newfd, (xs, t))
    else (filedup f t >>= λ t'. ok (some newfd, (set_fd xs newfd (some f), t')))
dup3_arg limit newfd s _ = ok (none, s)

-- sys_dup3. What stood at newfd is not closed.
pub sys_dup3 : ℕ → ℕ → ℕ → Files → Outcome (Option ℕ × Files)
sys_dup3 limit fd newfd (xs, t) = dup3_arg limit newfd (xs, t) (argfd fd xs)

abbrev pub close_arg : Files → FdArg → Outcome (Option Closing × Files)
close_arg (xs, t) (found fd f) = fileclose f t >>= λ r. ok (some (r.0), (set_fd xs fd none, r.1))
close_arg s _ = ok (none, s)

-- sys_close: what fileclose calls for the last user, or none for -1.
pub sys_close : ℕ → Files → Outcome (Option Closing × Files)
sys_close fd (xs, t) = close_arg (xs, t) (argfd fd xs)
