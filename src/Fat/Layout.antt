-- ===== src/Fat/Layout.antt =====
-- Where kernel/fat32.c finds a cluster: its word in the FAT and its sectors.
use mathlib.Core.Path.{subst}
use avx_loong_arch.Prelude.{
  ℕ, ◌+◌, ◌-◌, ◌*◌, ◌/◌, ◌%◌, ◌^◌, ◌≤◌, ◌<◌, ◌≡◌, sym, ap, ◌∙◌, ◌≢◌, ◌⊎◌, inl, inr, false, arith,
  ltb, leb, ◌==◌, Bool-cases, eq_of_==, ok,
}
use avx_loong_arch.Fat.{
  bsize, fat32_bad, fat32_eoc, Disk, Fat, get32, put32, first_sec_of_clus, fat_sec_of_clus,
  fat_offset_of_clus, read_fat, write_fat,
}

-- A volume as mkfs makes it: sectors of 512 bytes, the FATs and then the data behind the reserved
-- sectors, a FAT with a word for each cluster, cluster numbers of 28 bits, sector numbers of 32.
pub record IsMounted (f : Fat) : Type 0 where
  pub sectors : f.byts_per_sec ≡ bsize
  pub clusters : 0 < f.sec_per_clus
  pub per_clus : f.byts_per_clus ≡ f.sec_per_clus * bsize
  pub fats : 0 < f.fat_cnt
  pub first_data : f.rsvd_sec_cnt + f.fat_sz ≤ f.first_data_sec
  pub words : (f.data_clus_cnt + 2) * 4 ≤ f.fat_sz * bsize
  pub small : f.fat_sz ≤ 2 ^ 22
  pub few : f.data_clus_cnt + 2 ≤ fat32_bad
  pub ends : f.first_data_sec + f.data_clus_cnt * f.sec_per_clus ≤ 2 ^ 32

-- A data cluster.
pub record IsClus (f : Fat) (c : ℕ) : Type 0 where
  pub low : 2 ≤ c
  pub high : c ≤ f.data_clus_cnt + 1

-- The word of cluster c in the first FAT.
abbrev pub entry_sec : Fat → ℕ → ℕ
entry_sec f c = f.rsvd_sec_cnt + c * 4 / bsize

abbrev pub entry_off : ℕ → ℕ
entry_off c = c * 4 % bsize

abbrev pub entry : Fat → Disk → ℕ → ℕ
entry f d c = get32 d (entry_sec f c) (entry_off c)

-- Every byte of a disk is a byte.
abbrev pub IsDisk : Disk → Type 0
IsDisk d = (s o : ℕ) → d s o < 2 ^ 8

-- A write of one word is read back, and changes no other word at an offset that is a multiple of 4.
pub get32-put32_self : (d : Disk) (s o v : ℕ) → v < 2 ^ 32 → get32 (put32 d s o v) s o ≡ v
unfolding put32
get32-put32_self d s o v h = ground arith

put32-away :
    (d : Disk) (s o v s' p : ℕ) → (s' ≡ s → (p < o) ⊎ (o + 3 < p)) → put32 d s o v s' p ≡ d s' p
unfolding put32
put32-away d s o v s' p out = elim (Bool-cases (s' == s)) [
  | inl same ↦ elim (out (eq_of_== same)) [ inl lt ↦ ground arith | inr gt ↦ ground arith ]
  | inr other ↦ rw other
]

pub get32-put32_ne :
    (d : Disk) (s o v s' o' : ℕ)
    → o % 4 ≡ 0
    → o' % 4 ≡ 0
    → (s' ≡ s → o' ≢ o)
    → get32 (put32 d s o v) s' o' ≡ get32 d s' o'
get32-put32_ne d s o v s' o' ho ho' ne =
    let away : (i : ℕ) → i < 4 → put32 d s o v s' (o' + i) ≡ d s' (o' + i) =
      λ i lt. put32-away d s o v s' (o' + i) (λ e. apart i lt (ne e)) in
    omega (
      arith,
      put32-away d s o v s' o'
          (λ e. subst (λ x. (x < o) ⊎ (o + 3 < x)) (omega arith) (apart 0 (omega arith) (ne e))),
      away 1 (omega arith),
      away 2 (omega arith),
      away 3 (omega arith),
    )
  where
    apart : (i : ℕ) → i < 4 → o' ≢ o → (o' + i < o) ⊎ (o + 3 < o' + i)
    apart i lt e = grind arith

pub put32-other : (d : Disk) (s o v s' o' : ℕ) → s' ≢ s → put32 d s o v s' o' ≡ d s' o'
unfolding put32
put32-other d s o v s' o' ne = ground arith

pub index_lt : (a b n i : ℕ) → a < b → i < n → a * n + i < b * n
index_lt a b n i p q = grind arith

pub index_injective : (a b n i j : ℕ) → i < n → j < n → a * n + i ≡ b * n + j → (a ≡ b) × (i ≡ j)
index_injective a b n i j p q e = elim (Bool-cases (ltb a b)) [
  | inl lt ↦ absurd (omega (arith, index_lt a b n i (ground arith) p))
  | inr ge ↦ elim (Bool-cases (ltb b a)) [
    | inl gt ↦ absurd (omega (arith, index_lt b a n j (ground arith) q))
    | inr le ↦ let same : a ≡ b = ground arith in (same, omega (arith, ap (λ (x : ℕ). x * n) same))
  ]
]

module _ (f : Fat) (m : IsMounted f) where
  pub fat_sec-entry : (c : ℕ) → IsClus f c → fat_sec_of_clus f c 1 ≡ ok (entry_sec f c)
  unfolding fat_sec_of_clus
  fat_sec-entry c k =
      ground (arith, m.sectors, m.few, m.words, m.ends, m.first_data, m.fats, k.low, k.high)

  fat_offset-entry : (c : ℕ) → IsClus f c → fat_offset_of_clus f c ≡ ok (entry_off c)
  unfolding fat_offset_of_clus
  fat_offset-entry c k = ground (arith, m.sectors, m.few, k.low, k.high)

  -- read_fat of a data cluster is the cluster's word of the first FAT.
  pub read_fat-entry : (d : Disk) (c : ℕ) → IsClus f c → read_fat f d c ≡ ok (entry f d c)
  unfolding read_fat
  read_fat-entry d c k =
      let low : ltb c 2 ≡ false = ground (arith, k.low) in
      let small : leb fat32_eoc c ≡ false = ground (arith, k.high, m.few) in
      let high : ltb (f.data_clus_cnt + 1) c ≡ false = ground (arith, k.high) in
      rw (low, small, high, fat_sec-entry c k, fat_offset-entry c k)

  pub write_fat-put32 :
      (d : Disk) (c v : ℕ)
      → IsClus f c
      → write_fat f d c v ≡ ok (put32 d (entry_sec f c) (entry_off c) v)
  unfolding write_fat
  write_fat-put32 d c v k =
      let low : ltb c 2 ≡ false = ground (arith, k.low) in
      rw (low, fat_sec-entry c k, fat_offset-entry c k)

  -- The words of two data clusters do not overlap.
  pub entry_apart :
      (c c' : ℕ) → c' ≢ c → entry_sec f c' ≡ entry_sec f c → entry_off c' ≢ entry_off c
  entry_apart c c' ne e e' = ne (omega arith)

  -- write_fat of a data cluster makes its word the content, and changes neither the word of another
  -- cluster nor any sector of the data area.
  pub write_fat-entry :
      (d : Disk) (c v : ℕ)
      → IsClus f c
      → v < 2 ^ 32
      → (d' : Disk) × (write_fat f d c v ≡ ok d')
        × (read_fat f d' c ≡ ok v)
        × ((c' : ℕ) → c' ≢ c → IsClus f c' → read_fat f d' c' ≡ read_fat f d c')
        × ((s o : ℕ) → f.first_data_sec ≤ s → d' s o ≡ d s o)
  write_fat-entry d c v k hv =
      let d' = put32 d (entry_sec f c) (entry_off c) v in
      (
        d',
        write_fat-put32 d c v k,
        read_fat-entry d' c k ∙ ap ok (get32-put32_self d (entry_sec f c) (entry_off c) v hv),
        λ c' ne k'.
            read_fat-entry d' c' k'
            ∙ ap ok (
                get32-put32_ne d (entry_sec f c) (entry_off c) v (entry_sec f c') (entry_off c')
                  (omega arith) (omega arith) (entry_apart c c' ne))
            ∙ sym (read_fat-entry d c' k'),
        λ s o hs.
            put32-other d (entry_sec f c) (entry_off c) v s o
              (omega (arith, k.high, m.words, m.first_data)),
      )

  -- A cluster's sectors lie in the data area, below 2 ^ 32, and those of different clusters are
  -- different.
  pub first_sec_of_clus_lem :
      (c c' i i' : ℕ)
      → IsClus f c
      → IsClus f c'
      → i < f.sec_per_clus
      → i' < f.sec_per_clus
      → (s s' : ℕ) × (first_sec_of_clus f c ≡ ok s)
        × (first_sec_of_clus f c' ≡ ok s')
        × (f.first_data_sec ≤ s)
        × (s + i < 2 ^ 32)
        × (s + i ≡ s' + i' → (c ≡ c') × (i ≡ i'))
  unfolding first_sec_of_clus
  first_sec_of_clus_lem c c' i i' k k' hi hi' =
      let fits =
        index_lt (c - 2) f.data_clus_cnt f.sec_per_clus i (omega (arith, k.low, k.high)) hi in
      let fits' =
        index_lt (c' - 2) f.data_clus_cnt f.sec_per_clus i' (omega (arith, k'.low, k'.high)) hi' in
      (
        (c - 2) * f.sec_per_clus + f.first_data_sec,
        (c' - 2) * f.sec_per_clus + f.first_data_sec,
        ground (arith, m.ends, fits),
        ground (arith, m.ends, fits'),
        omega arith,
        omega (arith, m.ends, fits),
        λ e.
            let (same, same_i) =
              index_injective (c - 2) (c' - 2) f.sec_per_clus i i' hi hi' (omega arith) in
            (omega (arith, k.low, k'.low), same_i),
      )
