-- ===== src/Fat/Data.antt =====
-- kernel/fat32.c: reading the data of a file. `put` is either_copyout, to the kernel's or the
-- user's memory M: the memory after the bytes were stored, or none for -1. A sector that bread
-- returns holds what is on the disk.
pub mod Read
pub mod File
use avx_loong_arch.Prelude.{
  ℕ, zero, suc, ◌+◌, ◌-◌, ◌*◌, ◌/◌, ◌%◌, ◌^◌, ◌≤◌, ◌<◌, min, ◌≡◌, refl, sym, ap, ap₂, ◌∙◌, ◌≢◌, ◌↔◌,
  ◌⊎◌, inl, inr, Bool, true, false, ◌&&◌, ◌||◌, not, Option, none, some, List, [], ◌∷◌, ◌++◌,
  append-nil, append_assoc, arith, ltb, leb, ◌==◌, if◌then◌else◌, InRange, InRange-cons, Bool-cases,
  Option-cases, eq_of_==, ne_of_==, ==_refl, ==_of_ne, length, get_elem?, replicate, All, has,
  Outcome, ok, panic, out_of_fuel, ◌>>=◌,
}
use avx_loong_arch.Fat.Chain.{
  find_word, take_word, after_search, alloc_loop, alloc_clus, Dirent, in_chain, free_chain, etrunc,
  skip_chain, etruncate, is_end, reloc_step, rewound, grow, follow, reloc_clus,
}
use avx_loong_arch.Fat.{
  bsize, fat32_bad, fat32_eoc, fat32_eof, Disk, Fat, get16, get32, put8, put32, is_fat32, read_bpb,
  fat32_init, bad_clus, first_sec_of_clus, fat_bytes, fat_sec_of_clus, fat_offset_of_clus, read_fat,
  write_fat, free_clus, zero_secs, zero_clus,
}
use avx_loong_arch.Fat
use avx_loong_arch.Fat.Chain

-- The memory, the address, the number of bytes and the bytes.
abbrev pub Put : Type 0 → Type 0
Put M = M → ℕ → ℕ → (ℕ → ℕ) → Option M

-- either_copyout to the kernel: memmove from a buffer.
abbrev pub put_kernel : Put (ℕ → ℕ)
put_kernel mem dst m bytes =
    some (λ p. if leb dst p && ltb p (dst + m) then bytes (p - dst) else mem p)

module _ {M : Type 0} (put : Put M) where
  -- The loop of rw_clus that reads, at the state it has before a round. A round reads at least one
  -- byte.
  pub read_secs : ℕ → Disk → (sec off dst n tot : ℕ) → M → Outcome (ℕ × M)
  read_secs zero d sec off dst n tot mem = out_of_fuel
  read_secs (suc fuel) d sec off dst n tot mem =
      let m = min (bsize - off % bsize) (n - tot) in
      let rest : Outcome (ℕ × M) = elim (put mem dst m (λ k. d sec (off % bsize + k))) [
        | none ↦ ok (tot, mem)
        | some mem' ↦ read_secs fuel d ((sec + 1) % 2 ^ 32) (off + m) (dst + m) n (tot + m) mem'
      ] in
      if ltb tot n then rest else ok (tot, mem)

  -- rw_clus with write 0.
  pub rw_clus_read : Fat → Disk → (cluster dst off n : ℕ) → M → Outcome (ℕ × M)
  rw_clus_read f d cluster dst off n mem =
      if ltb f.byts_per_clus ((off + n) % 2 ^ 32)
      then panic
      else (first_sec_of_clus f cluster >>= λ s.
          read_secs (n + 1) d ((s + off / f.byts_per_sec) % 2 ^ 32) (off % f.byts_per_sec) dst n 0
            mem)

  -- The loop of eread, at the state it has before a round.
  pub read_clusters : ℕ → Fat → Disk → Dirent → (dst off n tot : ℕ) → M → Outcome (ℕ × M × Dirent)
  read_clusters zero f d e dst off n tot mem = out_of_fuel
  read_clusters (suc fuel) f d e dst off n tot mem =
      let m = min (f.byts_per_clus - off % f.byts_per_clus) (n - tot) in
      let rest = reloc_clus f d e off false >>= λ (_, d', e').
      rw_clus_read f d' e'.cur_clus dst (off % f.byts_per_clus) m mem >>= λ (got, mem').
      let more = read_clusters fuel f d' e' (dst + m) (off + m) n (tot + m) mem' in
      if got == m then more else ok (tot, mem', e') in
      if ltb e.cur_clus fat32_eoc && ltb tot n then rest else ok (tot, mem, e)

  -- eread; `is_directory` is the bit of the entry's attribute. The numbers are uint.
  pub eread : Fat → Disk → Dirent → Bool → (dst off n : ℕ) → M → Outcome (ℕ × M × Dirent)
  eread f d e is_directory dst off n mem =
      let last = (off + n) % 2 ^ 32 in
      let clipped = if ltb e.file_size last then e.file_size - off else n in
      if ltb e.file_size off || ltb last off || is_directory
      then ok (0, mem, e)
      else read_clusters (clipped + 1) f d e dst off clipped 0 mem
