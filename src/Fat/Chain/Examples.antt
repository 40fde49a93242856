-- ===== src/Fat/Chain/Examples.antt =====
-- The theorems of kernel/fat32.c at a volume of 64 clusters.
use avx_loong_arch.Prelude.{
  ℕ, ◌+◌, ◌%◌, ◌≤◌, ◌<◌, ◌≡◌, refl, ◌≢◌, true, false, [], ◌∷◌, arith, if◌then◌else◌, has, ok, ◌>>=◌,
}
use avx_loong_arch.Fat.Chain.Relocate.{IsFileChain, IsPlaced}
use avx_loong_arch.Fat.Chain.Truncate.{ClusChain, etrunc_lem}
use avx_loong_arch.Fat.Chain.Alloc.{alloc_clus_lem}
use avx_loong_arch.Fat.Chain.{
  find_word, take_word, after_search, alloc_loop, alloc_clus, Dirent, etrunc,
}
use avx_loong_arch.Fat.Store.File.{eread-ewrite}
use avx_loong_arch.Fat.Store.{get_kernel, ewrite}
use avx_loong_arch.Fat.Data.{eread, put_kernel}
use avx_loong_arch.Fat.Data.Read.{stored}
use avx_loong_arch.Fat.Layout.{IsMounted, IsClus, entry, write_fat-entry}
use avx_loong_arch.Fat.{
  fat32_eof, Disk, Fat, put32, first_sec_of_clus, read_fat, write_fat, zero_secs, zero_clus,
}

-- One reserved sector, one FAT of one sector, one sector in a cluster.
abbrev volume : Fat
volume = record {
  byts_per_sec = 512;
  sec_per_clus = 1;
  rsvd_sec_cnt = 1;
  fat_cnt = 1;
  hidd_sec = 0;
  tot_sec = 66;
  fat_sz = 1;
  root_clus = 2;
  first_data_sec = 2;
  data_sec_cnt = 64;
  data_clus_cnt = 64;
  byts_per_clus = 512;
}

volume-IsMounted : IsMounted volume
volume-IsMounted = record {
  sectors = refl;
  clusters = omega arith;
  per_clus = refl;
  fats = omega arith;
  first_data = omega arith;
  words = omega arith;
  small = omega arith;
  few = omega arith;
  ends = omega arith;
}

clus : (c : ℕ) → 2 ≤ c → c ≤ 65 → IsClus volume c
clus c lo hi = record { low = lo; high = hi }

-- The FAT: words 0 and 1 as mkfs leaves them, clusters 2 and 3 a chain, the others free.
abbrev fat_disk : Disk
fat_disk =
    put32 (put32 (put32 (put32 (λ s o. 0) 1 0 0x0fff_fff8) 1 4 0x0fff_ffff) 1 8 3) 1 12 0x0fff_ffff

abbrev file : Dirent
file = record { first_clus = 2; file_size = 700; cur_clus = 2; clus_cnt = 0; dirty = false }

file-ClusChain : ClusChain volume fat_disk 2 (2 ∷ 3 ∷ [])
unfolding put32
file-ClusChain = (
  refl,
  clus 2 (omega arith) (omega arith),
  refl,
  (refl, clus 3 (omega arith) (omega arith), refl, refl),
)

file-IsFileChain : IsFileChain volume fat_disk (2 ∷ 3 ∷ [])
unfolding put32
file-IsFileChain = (
  clus 2 (omega arith) (omega arith),
  refl,
  (clus 3 (omega arith) (omega arith), omega arith, omega arith),
)

file-IsPlaced : IsPlaced file (2 ∷ 3 ∷ [])
file-IsPlaced = record { first = refl; current = refl; inside = omega arith }

-- The first free word is 4, the cluster returned is 6.
abbrev taken_disk : Disk
taken_disk = zero_secs 1 6 (put32 fat_disk 1 16 fat32_eof)

alloc_clus-taken : alloc_clus volume fat_disk ≡ ok (6, taken_disk)
unfolding alloc_clus alloc_loop find_word after_search take_word zero_clus first_sec_of_clus put32
    zero_secs
alloc_clus-taken = refl

write_fat-entry_example :
    (d' : Disk) × (write_fat volume fat_disk 3 9 ≡ ok d')
    × (read_fat volume d' 3 ≡ ok 9)
    × ((c' : ℕ) → c' ≢ 3 → IsClus volume c' → read_fat volume d' c' ≡ read_fat volume fat_disk c')
    × ((s o : ℕ) → 2 ≤ s → d' s o ≡ fat_disk s o)
write_fat-entry_example =
    write_fat-entry volume volume-IsMounted fat_disk 3 9 (clus 3 (omega arith) (omega arith))
      (omega arith)

alloc_clus_lem_example :
    (c : ℕ) × (d' : Disk) × (w : ℕ) × (alloc_clus volume fat_disk ≡ ok (c, d'))
    × (c ≡ w + 2)
    × (entry volume fat_disk w ≡ 0)
    × ((v : ℕ) → v < w → entry volume fat_disk v ≢ 0)
    × (entry volume d' w ≡ fat32_eof)
    × ((y : ℕ) → IsClus volume y → y ≢ w → read_fat volume d' y ≡ read_fat volume fat_disk y)
    × (read_fat volume d' c ≡ read_fat volume fat_disk c)
alloc_clus_lem_example =
    alloc_clus_lem volume volume-IsMounted fat_disk 7 (unfold put32 in refl) (omega arith)

etrunc_lem_example :
    (d' : Disk) × (etrunc 3 volume fat_disk file
      ≡ ok (d', record file { file_size = 0; first_clus = 0; dirty = true }))
    × ((y : ℕ)
        → IsClus volume y
        → read_fat volume d' y ≡ (if has y (2 ∷ 3 ∷ []) then ok 0 else read_fat volume fat_disk y))
    × ((s o : ℕ) → 2 ≤ s → d' s o ≡ fat_disk s o)
etrunc_lem_example =
    etrunc_lem volume volume-IsMounted 3 fat_disk file (2 ∷ 3 ∷ []) (omega arith) file-ClusChain

-- 300 bytes over the end of the first cluster.
eread-ewrite_example :
    (mem' : ℕ → ℕ) × (e' : Dirent) × ((ewrite
          (get_kernel (λ p. p % 7))
          volume
          fat_disk
          file
          false
          9000
          400
          300
        >>= λ (put, d₁, e₁). eread put_kernel volume d₁ e₁ false 5000 400 300 (λ p. 0))
      ≡ ok (300, mem', e'))
    × ((p : ℕ) → mem' p ≡ stored (λ j. (9000 + j) % 7) 5000 300 (λ q. 0) p)
eread-ewrite_example =
    eread-ewrite volume volume-IsMounted (omega arith) (λ p. p % 7) fat_disk file (2 ∷ 3 ∷ []) 9000
      5000 400 300 (λ p. 0) file-IsFileChain file-IsPlaced (omega arith) (omega arith) (omega arith)
      (omega arith)
