-- ===== src/Fat/Chain.antt =====
-- kernel/fat32.c: allocating, following and freeing the clusters of a file.
pub mod Search
pub mod Alloc
pub mod Truncate
pub mod Relocate
mod Examples
use avx_loong_arch.Prelude.{
  ℕ, zero, suc, ◌+◌, ◌-◌, ◌*◌, ◌/◌, ◌%◌, ◌^◌, Bool, true, false, ◌&&◌, not, Option, none, some, ltb,
  leb, ◌==◌, if◌then◌else◌, Outcome, ok, panic, out_of_fuel, ◌>>=◌,
}
use avx_loong_arch.Fat.{
  bsize, fat32_bad, fat32_eoc, fat32_eof, Disk, Fat, get16, get32, put8, put32, is_fat32, read_bpb,
  fat32_init, bad_clus, first_sec_of_clus, fat_bytes, fat_sec_of_clus, fat_offset_of_clus, read_fat,
  write_fat, free_clus, zero_secs, zero_clus,
}

-- The j-th word of a sector is 0, for the first such j.
pub find_word : Disk → ℕ → ℕ → ℕ → Option ℕ
find_word d s zero j = none
find_word d s (suc left) j =
    let rest = find_word d s left (j + 1) in if get32 d s (j * 4) == 0 then some j else rest

-- alloc_clus once it has found the j-th word of sector s free: the word ends a chain, and cluster c
-- is zeroed and returned.
pub take_word : Fat → Disk → (s j c : ℕ) → Outcome (ℕ × Disk)
take_word f d s j c = zero_clus f (put32 d s (j * 4) fat32_eof) c >>= λ d'. ok (c, d')

-- What alloc_clus does with the search of a sector; `rest` is the search of the next ones.
pub after_search : Fat → Disk → (s words i : ℕ) → Outcome (ℕ × Disk) → Option ℕ → Outcome (ℕ × Disk)
after_search f d s words i rest none = rest
after_search f d s words i rest (some j) = take_word f d s j ((i * words + j + 2) % 2 ^ 32)

-- alloc_clus from the i-th sector of the FAT on, with `left` sectors to go. The cluster number is the
-- code's, two more than the number of the word.
pub alloc_loop : Fat → Disk → ℕ → ℕ → Outcome (ℕ × Disk)
alloc_loop f d zero i = panic
alloc_loop f d (suc left) i =
    let s = (f.rsvd_sec_cnt + i) % 2 ^ 32 in
    let words = f.byts_per_sec / 4 in
    let rest = alloc_loop f d left (i + 1) in
    after_search f d s words i rest (find_word d s words 0)

pub alloc_clus : Fat → Disk → Outcome (ℕ × Disk)
alloc_clus f d = alloc_loop f d f.fat_sz 0

-- The fields of struct dirent that follow a file's clusters.
pub record Dirent : Type 0 where
  pub first_clus : ℕ
  pub file_size : ℕ
  pub cur_clus : ℕ
  pub clus_cnt : ℕ
  pub dirty : Bool

-- `clus >= 2 && clus < FAT32_EOC`
abbrev pub in_chain : ℕ → Bool
in_chain c = leb 2 c && ltb c fat32_eoc

-- The loop of etrunc, and the second of etruncate.
pub free_chain : ℕ → Fat → Disk → ℕ → Outcome Disk
free_chain zero f d c = out_of_fuel
free_chain (suc fuel) f d c =
    let rest = read_fat f d c >>= λ n. (free_clus f d c >>= λ d'. free_chain fuel f d' n) in
    if in_chain c then rest else ok d

pub etrunc : ℕ → Fat → Disk → Dirent → Outcome (Disk × Dirent)
etrunc fuel f d e = free_chain fuel f d e.first_clus >>= λ d'.
    ok (d', record e { file_size = 0; first_clus = 0; dirty = true })

-- The first loop of etruncate: `i` is not counted up in it.
pub skip_chain : ℕ → Fat → Disk → (i clus_num c : ℕ) → Outcome ℕ
skip_chain zero f d i clus_num c = out_of_fuel
skip_chain (suc fuel) f d i clus_num c =
    let rest = read_fat f d c >>= skip_chain fuel f d i clus_num in
    if ltb i clus_num && in_chain c then rest else ok c

-- etruncate; `none` is the return of -1. The length is a non-negative int.
pub etruncate : ℕ → Fat → Disk → Dirent → ℕ → Outcome (Option (Disk × Dirent))
etruncate fuel f d e len =
    if ltb e.file_size len
    then ok none
    else (let clus_num =
          if len % f.byts_per_clus == 0 then len / f.byts_per_clus else len / f.byts_per_clus + 1 in
        skip_chain fuel f d 0 clus_num e.first_clus >>= λ c.
        (free_chain fuel f d c >>= λ d'. ok (some (d', record e { file_size = len }))))

-- `clus >= FAT32_EOC` where `clus` is an int.
abbrev pub is_end : ℕ → Bool
is_end c = leb fat32_eoc c && ltb c (2 ^ 31)

-- One round of reloc_clus's first loop; `none` is its return of -1, where the position is reset.
pub reloc_step : Fat → Disk → Dirent → Bool → Outcome (Option (Disk × Dirent))
reloc_step f d e alloc = read_fat f d e.cur_clus >>= λ c.
    (if is_end c
      then (if alloc
          then (alloc_clus f d >>= λ r.
              (write_fat f r.1 e.cur_clus r.0 >>= λ d'.
              ok (some (d', record e { cur_clus = r.0; clus_cnt = e.clus_cnt + 1 }))))
          else ok none)
      else (if c == fat32_bad
          then panic
          else ok (some (d, record e { cur_clus = c; clus_cnt = e.clus_cnt + 1 }))))

abbrev pub rewound : Dirent → Dirent
rewound e = record e { cur_clus = e.first_clus; clus_cnt = 0 }

-- The first loop, `n` rounds from where the entry stands: the disk, the entry, and whether the end
-- of the chain was not met.
pub grow : ℕ → Fat → Disk → Dirent → Bool → Outcome (Disk × Dirent × Bool)
grow zero f d e alloc = ok (d, e, true)
grow (suc n) f d e alloc = reloc_step f d e alloc >>= λ r. elim r [
  | none ↦ ok (d, rewound e, false)
  | some (d', e') ↦ grow n f d' e' alloc
]

-- The second loop, `n` rounds.
pub follow : ℕ → Fat → Disk → Dirent → Outcome Dirent
follow zero f d e = ok e
follow (suc n) f d e = read_fat f d e.cur_clus >>= λ c.
    (let next = follow n f d (record e { cur_clus = c; clus_cnt = e.clus_cnt + 1 }) in
      if leb fat32_eoc c then panic else next)

-- reloc_clus: the offset in the cluster, or `none` for -1.
pub reloc_clus : Fat → Disk → Dirent → ℕ → Bool → Outcome (Option ℕ × Disk × Dirent)
reloc_clus f d e off alloc =
    let clus_num = off / f.byts_per_clus in
    grow (clus_num - e.clus_cnt) f d e alloc >>= λ (d', e', fits).
    (if not fits
      then ok (none, d', e')
      else (if ltb clus_num e'.clus_cnt
          then (follow clus_num f d' (rewound e') >>= λ e''.
              ok (some (off % f.byts_per_clus), d', e''))
          else ok (some (off % f.byts_per_clus), d', e')))
