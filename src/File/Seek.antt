-- ===== src/File/Seek.antt =====
-- The offsets that fileseek of kernel/file.c sets, and the bound of the hash of a path.
use avx_loong_arch.Prelude.{
  ℕ, ◌+◌, ◌*◌, ◌%◌, ◌^◌, ◌≤◌, ◌<◌, ◌≡◌, refl, ap, ◌⊎◌, inl, inr, ◌-◌, List, [], ◌∷◌, arith, ltb,
  ◌==◌, if◌then◌else◌, Bool-cases, All,
}
use avx_loong_arch.File.{
  FileType, fd_none, fd_device, fd_sock, fd_null, fd_pipe, fd_entry, File, seek, seek_set_cur,
  seek_kind, fileseek, hash_loop, hashpath,
}

-- A seek that moved the offset to its result, cut to 32 bits, or failed.
abbrev pub Sought : File → ℕ × File → Type 0
Sought f (ret, g) = (g ≡ record f { off = ret % 2 ^ 32 }) ⊎ (ret ≡ 2 ^ 64 - 1) × (g ≡ f)

seek-Sought : (f : File) (ret off : ℕ) → off % 2 ^ 32 ≡ ret % 2 ^ 32 → Sought f (seek f ret off)
seek-Sought f ret off e = inl (ap (λ o. record f { off = o }) e)

seek_set_cur-Sought :
    (f : File) (offset whence : ℕ) (r : ℕ × File)
    → Sought f r
    → Sought f (seek_set_cur f offset whence r)
seek_set_cur-Sought f offset whence r h = elim (Bool-cases (whence == 0)) [
  | inl set_it ↦ rw set_it (seek-Sought f offset offset refl)
  | inr other ↦ elim (Bool-cases (whence == 1)) [
    | inl cur ↦
        rw (other, cur) (seek-Sought f ((f.off + offset) % 2 ^ 32) (f.off + offset) (omega arith))
    | inr neither ↦ rw (other, neither) h
  ]
]

seek_kind-Sought :
    (size : ℕ) (f : File) (offset whence : ℕ) (k : FileType)
    → Sought f (seek_kind size f offset whence k)
seek_kind-Sought size f offset whence (fd_entry e) =
    seek_set_cur-Sought f offset whence
      (if whence == 2 then seek f ((size + offset) % 2 ^ 32) (size + offset) else (2 ^ 64 - 1, f))
      (elim (Bool-cases (whence == 2)) [
        | inl end ↦ rw end (seek-Sought f ((size + offset) % 2 ^ 32) (size + offset) (omega arith))
        | inr none_of ↦ rw none_of (inr (refl, refl))
      ])
seek_kind-Sought size f offset whence (fd_pipe p) =
    seek_set_cur-Sought f offset whence (2 ^ 64 - 1, f) (inr (refl, refl))
seek_kind-Sought size f offset whence fd_none = inr (refl, refl)
seek_kind-Sought size f offset whence fd_device = inr (refl, refl)
seek_kind-Sought size f offset whence fd_sock = inr (refl, refl)
seek_kind-Sought size f offset whence fd_null = inr (refl, refl)

-- fileseek moves the offset to its result, cut to 32 bits, and changes nothing else of the file; or
-- it fails with -1 and the file stays as it is.
pub fileseek-Sought :
    (size : ℕ) (f : File) (offset whence : ℕ) → Sought f (fileseek size f offset whence)
unfolding fileseek
fileseek-Sought size f offset whence = seek_kind-Sought size f offset whence f.kind

hash_loop-bound :
    (h : ℕ) (cs : List ℕ) → h ≤ 1000000 → All (λ c. c < 128) cs → hash_loop h cs ≤ 1000000
unfolding hash_loop
hash_loop-bound h [] le all = le
hash_loop-bound h (c ∷ cs) le (lt, all) =
    hash_loop-bound (if ltb 1000000 (h * 128 + c) then (h * 128 + c) % 1000000 else h * 128 + c) cs
      (ground arith) all

-- On a name of 7-bit characters hashpath answers at most 1000000, so that the int that it multiplies
-- by 128 in each round does not overflow.
pub hashpath-bound : (cs : List ℕ) → All (λ c. c < 128) cs → hashpath cs ≤ 1000000
unfolding hashpath
hashpath-bound cs all = hash_loop-bound 0 cs (omega arith) all
