-- ===== src/Fat/Store.antt =====
-- kernel/fat32.c: writing the data of a file. `get` is either_copyin, from the kernel's or the
-- user's memory: whether it returned 0, the number of bytes that it moved, and these bytes. A sector
-- holds what its buffer holds, also where no bwrite follows.
pub mod Sectors
pub mod Clusters
pub mod File
use avx_loong_arch.Prelude.{
  ℕ, zero, suc, ◌+◌, ◌-◌, ◌*◌, ◌/◌, ◌%◌, ◌^◌, ◌≤◌, ◌<◌, min, ◌≡◌, refl, sym, ap, ap₂, ◌∙◌, ◌≢◌, ◌↔◌,
  ◌⊎◌, inl, inr, Bool, true, false, ◌&&◌, ◌||◌, not, Option, none, some, List, [], ◌∷◌, ◌++◌,
  append-nil, append_assoc, arith, ltb, leb, ◌==◌, if◌then◌else◌, InRange, InRange-cons, Bool-cases,
  Option-cases, eq_of_==, ne_of_==, ==_refl, ==_of_ne, length, get_elem?, replicate, All, has,
  Outcome, ok, panic, out_of_fuel, ◌>>=◌,
}
use avx_loong_arch.Fat.Chain.{Dirent, alloc_clus, reloc_clus}
use avx_loong_arch.Fat.{bsize, fat32_eoc, Disk, Fat, first_sec_of_clus}

abbrev pub Get : Type 0
Get = (src m : ℕ) → Bool × ℕ × (ℕ → ℕ)

-- either_copyin from the kernel: memmove to a buffer.
abbrev pub get_kernel : (ℕ → ℕ) → Get
get_kernel mem src m = (true, m, λ k. mem (src + k))

-- m bytes at offset o of the buffer of sector s.
abbrev pub put_bytes : Disk → (s o m : ℕ) → (ℕ → ℕ) → Disk
put_bytes d s o m bytes s' o' =
    if (s' == s) && (leb o o' && ltb o' (o + m)) then bytes (o' - o) else d s' o'

-- The first cluster of a file that has none.
abbrev pub with_cluster : Fat → Disk → Dirent → Outcome (Disk × Dirent)
with_cluster f d e =
    let fresh = alloc_clus f d >>= λ (c, d').
    ok (d', record e { first_clus = c; cur_clus = c; clus_cnt = 0; dirty = true }) in
    if e.first_clus == 0 then fresh else ok (d, e)

-- The size of a file after a write that ended at off.
abbrev pub grown_to : ℕ → ℕ → Dirent → Dirent
grown_to n off e =
    if ltb 0 n && ltb e.file_size off then record e { file_size = off; dirty = true } else e

module _ (get : Get) where
  -- The loop of rw_clus that writes, at the state it has before a round. A round writes at least one
  -- byte, or is the last.
  pub write_secs : ℕ → Disk → (sec off src n tot : ℕ) → Outcome (ℕ × Disk)
  write_secs zero d sec off src n tot = out_of_fuel
  write_secs (suc fuel) d sec off src n tot =
      let m = min (bsize - off % bsize) (n - tot) in
      let (fine, moved, bytes) = get src m in
      let d' = put_bytes d sec (off % bsize) moved bytes in
      let next = write_secs fuel d' ((sec + 1) % 2 ^ 32) (off + m) (src + m) n (tot + m) in
      let rest = if fine then next else ok (tot, d') in if ltb tot n then rest else ok (tot, d)

  -- rw_clus with write 1.
  pub rw_clus_write : Fat → Disk → (cluster src off n : ℕ) → Outcome (ℕ × Disk)
  rw_clus_write f d cluster src off n =
      if ltb f.byts_per_clus ((off + n) % 2 ^ 32)
      then panic
      else (first_sec_of_clus f cluster >>= λ s.
          write_secs (n + 1) d ((s + off / f.byts_per_sec) % 2 ^ 32) (off % f.byts_per_sec) src n 0)

  -- The loop of ewrite, at the state it has before a round, and the values of tot and off behind it.
  pub write_clusters :
      ℕ → Fat → Disk → Dirent → (src off n tot : ℕ) → Outcome (ℕ × ℕ × Disk × Dirent)
  write_clusters zero f d e src off n tot = out_of_fuel
  write_clusters (suc fuel) f d e src off n tot =
      let m = min (f.byts_per_clus - off % f.byts_per_clus) (n - tot) in
      let rest = reloc_clus f d e off true >>= λ (_, d', e').
      rw_clus_write f d' e'.cur_clus src (off % f.byts_per_clus) m >>= λ (put, d'').
      let more = write_clusters fuel f d'' e' (src + m) (off + m) n (tot + m) in
      if put == m then more else ok (tot, off, d'', e') in
      if ltb tot n then rest else ok (tot, off, d, e)

  -- ewrite; none for -1, `read_only` is the bit of the entry's attribute. The numbers are uint.
  pub ewrite : Fat → Disk → Dirent → Bool → (src off n : ℕ) → Outcome (Option ℕ × Disk × Dirent)
  ewrite f d e read_only src off n =
      if ltb e.file_size off
        || ltb ((off + n) % 2 ^ 32) off
        || ltb 0xffff_ffff (off + n)
        || read_only
      then ok (none, d, e)
      else (with_cluster f d e >>= λ (d', e').
          (write_clusters (n + 1) f d' e' src off n 0 >>= λ (tot, off', d'', e'').
          ok (some tot, d'', grown_to n off' e'')))
