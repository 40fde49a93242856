-- ===== src/Sysfile/Fcntl.antt =====
-- kernel/sysfile.c: sys_fcntl, with fdalloc2. The array exec_close of the process is a function from
-- descriptors to words of 32 bits, as is the int that a call returns.
pub mod Counts
pub mod Lowest
mod Examples
use avx_loong_arch.Prelude.{
  ℕ, zero, suc, ◌%◌, ◌^◌, Option, none, some, [], ◌∷◌, leb, ◌==◌, if◌then◌else◌, Outcome, ok, ◌>>=◌,
}
use avx_loong_arch.File.{Table, filedup}
use avx_loong_arch.Sysfile.{Ofile, put_behind, fdalloc, Files, FdArg, found, argfd}

abbrev pub Flags : Type 0
Flags = ℕ → ℕ

abbrev pub set_flag : Flags → ℕ → ℕ → Flags
set_flag flags fd v d = if d == fd then v else flags d

abbrev pub f_dupfd : ℕ
f_dupfd = 0

abbrev pub f_getfd : ℕ
f_getfd = 1

abbrev pub f_setfd : ℕ
f_setfd = 2

abbrev pub f_dupfd_cloexec : ℕ
f_dupfd_cloexec = 1030

-- What sys_fcntl returns: -1, -24, or a number.
pub data FcntlResult : Type 0 where
  refused : FcntlResult
  no_descriptor : FcntlResult
  value : ℕ → FcntlResult

-- The loop of fdalloc2, which first passes over `start` of the `left` descriptors below the limit.
pub fdalloc_from : (f start left : ℕ) → Ofile → Option (ℕ × Ofile)
fdalloc_from f zero left xs = fdalloc f left xs
fdalloc_from f (suc start) zero xs = none
fdalloc_from f (suc start) (suc left) [] = none
fdalloc_from f (suc start) (suc left) (x ∷ xs) = put_behind x (fdalloc_from f start left xs)

-- fdalloc2. filelimit is a uint64, so that a negative start is not below the limit.
pub fdalloc2 : (f start limit : ℕ) → Ofile → Option (ℕ × Ofile)
fdalloc2 f start limit xs = if leb (2 ^ 31) start then none else fdalloc_from f start limit xs

abbrev pub dup_from :
    (ℕ → Flags → Flags)
    → Flags
    → Table
    → ℕ
    → Option (ℕ × Ofile)
    → Ofile
    → Outcome ((FcntlResult × Flags) × Files)
dup_from mark flags t f none xs = ok ((no_descriptor, flags), (xs, t))
dup_from mark flags t f (some (fd, xs')) xs =
    filedup f t >>= λ t'. ok ((value fd, mark fd flags), (xs', t'))

abbrev pub fcntl_arg :
    (limit cmd arg : ℕ) → Flags → Files → FdArg → Outcome ((FcntlResult × Flags) × Files)
fcntl_arg limit cmd arg flags (xs, t) (found fd f) =
    if cmd == f_getfd
    then ok ((value (flags fd), flags), (xs, t))
    else if cmd == f_setfd
    then ok ((value 0, set_flag flags fd (arg % 2 ^ 32)), (xs, t))
    else if cmd == f_dupfd
    then dup_from (λ d m. m) flags t f (fdalloc2 f (arg % 2 ^ 32) limit xs) xs
    else if cmd == f_dupfd_cloexec
    then dup_from (λ d m. set_flag m d 1) flags t f (fdalloc2 f (arg % 2 ^ 32) limit xs) xs
    else ok ((value 0, flags), (xs, t))
fcntl_arg limit cmd arg flags s _ = ok ((refused, flags), s)

-- sys_fcntl, with the process's limit NOFILEMAX.
pub sys_fcntl : (limit fd cmd arg : ℕ) → Flags → Files → Outcome ((FcntlResult × Flags) × Files)
sys_fcntl limit fd cmd arg flags (xs, t) = fcntl_arg limit cmd arg flags (xs, t) (argfd fd xs)
