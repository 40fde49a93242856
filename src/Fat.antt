-- ===== src/Fat.antt =====
-- kernel/fat32.c: the volume, its file allocation table, and clusters. The buffer cache is seen
-- through: `bread` gives a sector's bytes, and what is written to a buffer and by bwrite is the
-- sector from then on.
pub mod Layout
pub mod Chain
pub mod Data
pub mod Store
pub mod Ecache
pub mod Path
pub mod LongName
pub mod FormatName
use avx_loong_arch.Prelude.{
  ℕ, zero, suc, ◌+◌, ◌-◌, ◌*◌, ◌/◌, ◌%◌, ◌^◌, Bool, ◌&&◌, ◌||◌, not, ltb, leb, ◌==◌, if◌then◌else◌,
  Outcome, ok, panic, ◌>>=◌,
}

abbrev pub bsize : ℕ
bsize = 512

abbrev pub fat32_bad : ℕ
fat32_bad = 0x0fff_fff7

abbrev pub fat32_eoc : ℕ
fat32_eoc = 0x0fff_fff8

abbrev pub fat32_eof : ℕ
fat32_eof = 0x0fff_ffff

-- The bytes of the sectors of device 0.
abbrev pub Disk : Type 0
Disk = ℕ → ℕ → ℕ

-- The static `fat` with its `bpb`.
pub record Fat : Type 0 where
  pub byts_per_sec : ℕ
  pub sec_per_clus : ℕ
  pub rsvd_sec_cnt : ℕ
  pub fat_cnt : ℕ
  pub hidd_sec : ℕ
  pub tot_sec : ℕ
  pub fat_sz : ℕ
  pub root_clus : ℕ
  pub first_data_sec : ℕ
  pub data_sec_cnt : ℕ
  pub data_clus_cnt : ℕ
  pub byts_per_clus : ℕ

-- A little-endian uint16 and uint32 in a sector.
abbrev pub get16 : Disk → ℕ → ℕ → ℕ
get16 d s o = d s o + d s (o + 1) * 2 ^ 8

abbrev pub get32 : Disk → ℕ → ℕ → ℕ
get32 d s o = d s o + d s (o + 1) * 2 ^ 8 + d s (o + 2) * 2 ^ 16 + d s (o + 3) * 2 ^ 24

abbrev pub put8 : Disk → ℕ → ℕ → ℕ → Disk
put8 d s o b s' o' = if (s' == s) && (o' == o) then b else d s' o'

-- `*(uint32 *)(b->data + o) = v`
pub put32 : Disk → ℕ → ℕ → ℕ → Disk
put32 d s o v =
    put8
      (put8 (put8 (put8 d s o (v % 2 ^ 8)) s (o + 1) (v / 2 ^ 8 % 2 ^ 8)) s (o + 2)
        (v / 2 ^ 16 % 2 ^ 8))
      s (o + 3) (v / 2 ^ 24 % 2 ^ 8)

-- `strncmp(b->data + 82, "FAT32", 5)` is 0.
abbrev pub is_fat32 : Disk → Bool
is_fat32 d =
    (d 0 82 == b'F') && (d 0 83 == b'A') && (d 0 84 == b'T') && (d 0 85 == b'3') && (d 0 86 == b'2')

-- The boot parameters as fat32_init reads them. Two sums are cut: `rsvd_sec_cnt` is a uint16, the
-- others are uint32.
pub read_bpb : Disk → Fat
read_bpb d =
    let spc = d 0 13 in
    let hidd = get32 d 0 28 in
    let rsvd = (get16 d 0 14 + hidd) % 2 ^ 16 in
    let cnt = d 0 16 in
    let sz = get32 d 0 36 in
    let first = (rsvd + cnt * sz) % 2 ^ 32 in
    let data_secs = (get32 d 0 32 + 2 ^ 32 - first) % 2 ^ 32 in
    record {
      byts_per_sec = get16 d 0 11;
      sec_per_clus = spc;
      rsvd_sec_cnt = rsvd;
      fat_cnt = cnt;
      hidd_sec = hidd;
      tot_sec = get32 d 0 32;
      fat_sz = sz;
      root_clus = get32 d 0 44;
      first_data_sec = first;
      data_sec_cnt = data_secs;
      data_clus_cnt = data_secs / spc;
      byts_per_clus = spc * get16 d 0 11;
    }

-- fat32_init: the volume, or a panic where it is none or its sectors are not of BSIZE bytes. A
-- volume with no sector in a cluster divides by 0 and is taken as a panic.
pub fat32_init : Disk → Outcome Fat
fat32_init d =
    if not (is_fat32 d)
    then panic
    else (let f = read_bpb d in
        if (f.sec_per_clus == 0) || not (f.byts_per_sec == bsize) then panic else ok f)

abbrev pub bad_clus : Fat → ℕ → Bool
bad_clus f c = ltb c 2 || ltb (f.data_clus_cnt + 1) c

pub first_sec_of_clus : Fat → ℕ → Outcome ℕ
first_sec_of_clus f c =
    if bad_clus f c then panic else ok (((c - 2) * f.sec_per_clus + f.first_data_sec) % 2 ^ 32)

-- `cluster << 2` on uint32
abbrev pub fat_bytes : ℕ → ℕ
fat_bytes c = c * 4 % 2 ^ 32

pub fat_sec_of_clus : Fat → ℕ → ℕ → Outcome ℕ
fat_sec_of_clus f c fat_num =
    if bad_clus f c
    then panic
    else (if ltb f.fat_cnt fat_num
        then panic
        else ok
            ((f.rsvd_sec_cnt + fat_bytes c / f.byts_per_sec + f.fat_sz * (fat_num - 1)) % 2 ^ 32))

pub fat_offset_of_clus : Fat → ℕ → Outcome ℕ
fat_offset_of_clus f c = if bad_clus f c then panic else ok (fat_bytes c % f.byts_per_sec)

pub read_fat : Fat → Disk → ℕ → Outcome ℕ
read_fat f d c =
    if ltb c 2
    then panic
    else (if leb fat32_eoc c
        then ok c
        else (if ltb (f.data_clus_cnt + 1) c
            then ok 0
            else (fat_sec_of_clus f c 1 >>= λ s.
                (fat_offset_of_clus f c >>= λ o. ok (get32 d s o)))))

pub write_fat : Fat → Disk → ℕ → ℕ → Outcome Disk
write_fat f d c v =
    if ltb c 2
    then panic
    else (fat_sec_of_clus f c 1 >>= λ s. (fat_offset_of_clus f c >>= λ o. ok (put32 d s o v)))

pub free_clus : Fat → Disk → ℕ → Outcome Disk
free_clus f d c = write_fat f d c 0

-- `n` sectors of zeros from sector s on.
pub zero_secs : ℕ → ℕ → Disk → Disk
zero_secs zero s d = d
zero_secs (suc n) s d = zero_secs n ((s + 1) % 2 ^ 32) (λ s' o. if s' == s then 0 else d s' o)

pub zero_clus : Fat → Disk → ℕ → Outcome Disk
zero_clus f d c = first_sec_of_clus f c >>= λ s. ok (zero_secs f.sec_per_clus s d)
