-- ===== src/File.antt =====
-- kernel/file.c: the table of open files. What runs under ftable.lock is one step; what fileclose
-- calls for the last user of a file is returned.
pub mod Refs
pub mod Seek
mod Examples
use avx_loong_arch.Prelude.{
  ℕ, zero, suc, ◌+◌, ◌-◌, ◌*◌, ◌%◌, ◌^◌, Bool, Option, none, some, List, ◌∷◌, ltb, ◌==◌,
  if◌then◌else◌, Outcome, ok, panic, [],
}

-- The type of a file; FD_PIPE and FD_ENTRY with the address of what stands behind it.
pub data FileType : Type 0 where
  fd_none fd_device fd_sock fd_null : FileType
  fd_pipe fd_entry : ℕ → FileType

-- The fields of struct file that this code uses.
pub record File : Type 0 where
  pub kind : FileType
  pub ref : ℕ
  pub writable : Bool
  pub off : ℕ

abbrev pub nfile : ℕ
nfile = 100

-- ftable.file, of which only the indices below NFILE are used.
abbrev pub Table : Type 0
Table = ℕ → File

abbrev pub set_file : Table → ℕ → File → Table
set_file t i f k = if i == k then f else t k

-- filealloc from index k on, with `left` files to look at; `none` is NULL.
pub filealloc_loop : ℕ → ℕ → Table → Option (ℕ × Table)
filealloc_loop zero k t = none
filealloc_loop (suc left) k t =
    let rest = filealloc_loop left (k + 1) t in
    if (t k).ref == 0 then some (k, set_file t k (record (t k) { ref = 1 })) else rest

pub filealloc : Table → Option (ℕ × Table)
filealloc t = filealloc_loop nfile 0 t

pub filedup : ℕ → Table → Outcome Table
filedup i t =
    if ltb (t i).ref 1 then panic else ok (set_file t i (record (t i) { ref = (t i).ref + 1 }))

-- What fileclose does for the last user of a file.
pub data Closing : Type 0 where
  nothing : Closing
  close_pipe : (pipe : ℕ) → (writable : Bool) → Closing
  put_entry : ℕ → Closing

abbrev pub closing : FileType → Bool → Closing
closing (fd_pipe p) w = close_pipe p w
closing (fd_entry e) w = put_entry e
closing _ w = nothing

pub fileclose : ℕ → Table → Outcome (Closing × Table)
fileclose i t =
    let f = t i in
    if ltb f.ref 1
    then panic
    else (if ltb 0 (f.ref - 1)
        then ok (nothing, set_file t i (record f { ref = f.ref - 1 }))
        else ok (closing f.kind f.writable, set_file t i (record f { ref = 0; kind = fd_none })))

-- fileseek: the result, a uint64 with 2 ^ 64 - 1 for -1, and the file. `off` is a uint. SEEK_SET is
-- 0, SEEK_CUR 1 and SEEK_END 2; `size` is the entry's file_size.
abbrev pub seek : File → (ret off : ℕ) → ℕ × File
seek f ret off = (ret, record f { off = off % 2 ^ 32 })

abbrev pub seek_set_cur : File → (offset whence : ℕ) → (otherwise : ℕ × File) → ℕ × File
seek_set_cur f offset whence otherwise =
    if whence == 0
    then seek f offset offset
    else (if whence == 1 then seek f ((f.off + offset) % 2 ^ 32) (f.off + offset) else otherwise)

abbrev pub seek_kind : (size : ℕ) → File → (offset whence : ℕ) → FileType → ℕ × File
seek_kind size f offset whence (fd_entry e) =
    seek_set_cur f offset whence
      (if whence == 2 then seek f ((size + offset) % 2 ^ 32) (size + offset) else (2 ^ 64 - 1, f))
seek_kind size f offset whence (fd_pipe p) = seek_set_cur f offset whence (2 ^ 64 - 1, f)
seek_kind size f offset whence _ = (2 ^ 64 - 1, f)

pub fileseek : (size : ℕ) → File → (offset whence : ℕ) → ℕ × File
fileseek size f offset whence = seek_kind size f offset whence f.kind

-- hashpath of a name's characters; `int` is never left.
pub hash_loop : ℕ → List ℕ → ℕ
hash_loop h [] = h
hash_loop h (c ∷ cs) =
    let g = h * 128 + c in hash_loop (if ltb 1000000 g then g % 1000000 else g) cs

pub hashpath : List ℕ → ℕ
hashpath cs = hash_loop 0 cs
