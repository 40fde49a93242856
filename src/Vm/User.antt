-- ===== src/Vm/User.antt =====
-- kernel/vm.c: the user part of an address space (uvmalloc1 to uvmclear), freewalk, and the copies
-- between user and kernel memory. A result true stands for 0, false for -1, and a size is one.
pub mod Buffer
pub mod Copy
pub mod CopyIn
pub mod Free
use Prim.Native.Nat.{bit_or}
use avx_loong_arch.Prelude.{
  ℕ, zero, suc, ◌+◌, ◌-◌, ◌*◌, ◌/◌, ◌%◌, ◌^◌, ◌≤◌, ◌<◌, min, ◌≡◌, refl, sym, ap, ap₂, ◌∙◌, ◌≢◌, ◌↔◌,
  ◌⊎◌, inl, inr, Bool, true, false, ◌&&◌, ◌||◌, not, Option, none, some, List, [], ◌∷◌, ◌++◌,
  append-nil, append_assoc, arith, ltb, leb, ◌==◌, if◌then◌else◌, InRange, InRange-cons, Bool-cases,
  Option-cases, eq_of_==, ne_of_==, ==_refl, ==_of_ne, length, get_elem?, replicate, All, has,
  Outcome, ok, panic, out_of_fuel, ◌>>=◌,
}
use avx_loong_arch.Vm.{
  dmwin_mask, maxva, px, is_direct, frame, pte2pa, is_valid, is_user, set_bit, table_pte, leaf_pte,
  pte_flags, Mem, set_page, set_word, after_kalloc, alloc_page, after_kfree, free_page, enter_table,
  next_table, walk_levels, walk, user_address, walkaddr, kernel_address, kwalkaddr, enter_leaf,
  map_page, map_loop, mappages, kvmmap, clear_leaf, unmap_page, unmap_loop, vmunmap, cleared,
  uvmcreate,
}
use avx_loong_arch.Kalloc.{
  pgsize, pgshift, ramstop, pg_round_up, pg_round_down, Kmem, update, junk_word, fill_page, refused,
  freed, kfree, taken, kalloc, freemem_amount, freerange_loop, freerange, kinit,
}
use avx_loong_arch.Kalloc
use avx_loong_arch.String.{memmove}
use avx_loong_arch.Vm

-- `a | DMWIN_MASK`
abbrev pub in_window : ℕ → ℕ
in_window a = set_bit 60 (set_bit 63 a)

-- uvmdealloc1, for a number of pages that fits an int.
pub uvmdealloc1 : ℕ → Mem → ℕ → ℕ → ℕ → Outcome (Bool × Mem)
uvmdealloc1 kernel_end m pagetable start end =
    let first = pg_round_up start in
    let last = pg_round_up end in
    if leb end start
    then ok (false, m)
    else if leb first last
    then (vmunmap kernel_end true m pagetable first ((last - first) / pgsize) >>= λ m'.
        ok (true, m'))
    else ok (true, m)

abbrev pub fail_with : Bool × Mem → Outcome (Bool × Mem)
fail_with (r, m) = ok (false, m)

-- One round of uvmalloc1 behind its kalloc: -1 where there is no page, or no page for a table; then
-- what the rounds before mapped is given back.
abbrev pub alloc_mapped : ℕ → ℕ → ℕ → ℕ → ℕ → ℕ × Mem → Outcome (Bool × Mem)
alloc_mapped kernel_end pagetable start a perm (mem, m) =
    if mem == 0
    then uvmdealloc1 kernel_end m pagetable start a >>= fail_with
    else (mappages (set_page m mem 0) pagetable a pgsize mem perm >>= λ r.
        if r.0
        then ok r
        else (free_page kernel_end (r.1) mem >>= λ m'.
            uvmdealloc1 kernel_end m' pagetable start a >>= fail_with))

pub uvmalloc1_loop : ℕ → ℕ → Mem → ℕ → ℕ → ℕ → ℕ → ℕ → Outcome (Bool × Mem)
uvmalloc1_loop zero kernel_end m pagetable start a end perm = out_of_fuel
uvmalloc1_loop (suc fuel) kernel_end m pagetable start a end perm =
    let round = alloc_mapped kernel_end pagetable start a perm (alloc_page m) in
    let rest = round >>= λ r.
    let more = uvmalloc1_loop fuel kernel_end (r.1) pagetable start (a + pgsize) end perm in
    if r.0 then more else ok r in
    if ltb a end then rest else ok (true, m)

-- uvmalloc1, one round for each page and one for the test that ends the loop.
pub uvmalloc1 : ℕ → Mem → ℕ → ℕ → ℕ → ℕ → Outcome (Bool × Mem)
uvmalloc1 kernel_end m pagetable start end perm =
    if leb end start
    then ok (false, m)
    else uvmalloc1_loop ((end - start) / pgsize + 2) kernel_end m pagetable start start end perm

-- uvmdealloc, for a number of pages that fits an int.
pub uvmdealloc : ℕ → Mem → ℕ → ℕ → ℕ → Outcome (ℕ × Mem)
uvmdealloc kernel_end m pagetable oldsz newsz =
    let first = pg_round_up newsz in
    let last = pg_round_up oldsz in
    if leb oldsz newsz
    then ok (oldsz, m)
    else if ltb first last
    then (vmunmap kernel_end true m pagetable first ((last - first) / pgsize) >>= λ m'.
        ok (newsz, m'))
    else ok (newsz, m)

abbrev pub size_zero : ℕ × Mem → Outcome (Bool × Mem)
size_zero (sz, m) = ok (false, m)

-- One round of uvmalloc behind its kalloc. `perm | PTE_PLV3` sets the bits 2 and 3.
abbrev pub grow_mapped : ℕ → ℕ → ℕ → ℕ → ℕ → ℕ × Mem → Outcome (Bool × Mem)
grow_mapped kernel_end pagetable oldsz a perm (mem, m) =
    if mem == 0
    then uvmdealloc kernel_end m pagetable a oldsz >>= size_zero
    else (mappages (set_page m mem 0) pagetable a pgsize mem (set_bit 2 (set_bit 3 perm)) >>= λ r.
        if r.0
        then ok r
        else (free_page kernel_end (r.1) mem >>= λ m'.
            uvmdealloc kernel_end m' pagetable a oldsz >>= size_zero))

pub uvmalloc_loop : ℕ → ℕ → Mem → ℕ → ℕ → ℕ → ℕ → ℕ → Outcome (Bool × Mem)
uvmalloc_loop zero kernel_end m pagetable oldsz a newsz perm = out_of_fuel
uvmalloc_loop (suc fuel) kernel_end m pagetable oldsz a newsz perm =
    let round = grow_mapped kernel_end pagetable oldsz a perm (alloc_page m) in
    let rest = round >>= λ r.
    let more = uvmalloc_loop fuel kernel_end (r.1) pagetable oldsz (a + pgsize) newsz perm in
    if r.0 then more else ok r in
    if ltb a newsz then rest else ok (true, m)

-- uvmalloc: the new size, or 0 on error.
pub uvmalloc : ℕ → Mem → ℕ → ℕ → ℕ → ℕ → Outcome (ℕ × Mem)
uvmalloc kernel_end m pagetable oldsz newsz perm =
    let from = pg_round_up oldsz in
    if ltb newsz oldsz
    then ok (oldsz, m)
    else (uvmalloc_loop ((newsz - from) / pgsize + 2) kernel_end m pagetable from from newsz perm
        >>= λ r. ok (if r.0 then newsz else 0, r.1))

-- The loop of freewalk over the entries from i on; `child` is freewalk on a table one level down.
pub free_entries : (Mem → ℕ → Outcome Mem) → ℕ → Mem → ℕ → ℕ → Outcome Mem
free_entries child zero m pagetable i = ok m
free_entries child (suc left) m pagetable i =
    let pte = m.words (pagetable + 8 * i) in
    let walked = child m (in_window (pte2pa pte)) >>= λ m'.
    free_entries child left (set_word m' (pagetable + 8 * i) 0) pagetable (i + 1) in
    let skipped = free_entries child left m pagetable (i + 1) in
    if is_valid pte && (pte_flags pte == 1) then walked else skipped

-- The fuel is the number of levels.
pub freewalk : ℕ → ℕ → Mem → ℕ → Outcome Mem
freewalk zero kernel_end m pagetable = out_of_fuel
freewalk (suc levels) kernel_end m pagetable =
    free_entries (freewalk levels kernel_end) 512 m pagetable 0 >>= λ m'.
    free_page kernel_end m' pagetable

pub uvmfree : ℕ → Mem → ℕ → ℕ → Outcome Mem
uvmfree kernel_end m pagetable sz =
    let pages = vmunmap kernel_end true m pagetable 0 (pg_round_up sz / pgsize) in
    (if ltb 0 sz then pages else ok m) >>= λ m'. freewalk 4 kernel_end m' pagetable

pub uvmclear : Mem → ℕ → ℕ → Outcome Mem
uvmclear m pagetable va = walk false m pagetable va >>= λ r.
    let pte = r.0 in
    let w = m.words pte in if pte == 0 then panic else ok (set_word m pte (w - w / 4 % 4 * 4))

-- What experm does with the entry that walk found: 0, or the entry with more bits.
abbrev pub give_permission : Mem → ℕ → ℕ → Outcome (ℕ × Mem)
give_permission m pte perm =
    let w = bit_or (m.words pte) perm in
    if pte == 0
    then ok (0, m)
    else if not (is_valid (m.words pte))
    then ok (0, m)
    else if not (is_user (m.words pte))
    then ok (0, m)
    else ok (pte2pa w, set_word m pte w)

pub experm : Mem → ℕ → ℕ → ℕ → Outcome (ℕ × Mem)
experm m pagetable va perm =
    if leb maxva va
    then ok (0, m)
    else walk false m pagetable va >>= λ r. give_permission m (r.0) perm

-- memmove on the data bytes.
abbrev pub move : Mem → ℕ → ℕ → ℕ → Mem
move m dst src n = record m { bytes = memmove m.bytes dst src n }

-- `n = PGSIZE - (va - va0); if (n > len) n = len;`
abbrev pub chunk : ℕ → ℕ → ℕ
chunk va len = min (pgsize - va % pgsize) len

-- The loop of copyout. A round copies at least one byte, so len + 1 rounds are enough.
pub copyout_loop : ℕ → Mem → ℕ → ℕ → ℕ → ℕ → Outcome (Bool × Mem)
copyout_loop zero m pagetable dstva src len = out_of_fuel
copyout_loop (suc fuel) m pagetable dstva src len =
    let n = chunk dstva len in
    let va0 = pg_round_down dstva in
    let rest = walkaddr m pagetable va0 >>= λ pa0.
    let more =
      copyout_loop fuel (move m (in_window (pa0 + dstva % pgsize)) src n) pagetable (va0 + pgsize)
        (src + n) (len - n) in
    if pa0 == 0 then ok (false, m) else more in
    if len == 0 then ok (true, m) else rest

-- PROCVKSTACK(NPROC - 1)
abbrev pub lowest_kstack : ℕ
lowest_kstack = maxva - 4 * pgsize - 50 * (8 * pgsize) + 2 * pgsize

pub copyout : Mem → ℕ → ℕ → ℕ → ℕ → Outcome (Bool × Mem)
copyout m pagetable dstva src len =
    if ltb maxva dstva
    then panic
    else if ltb src lowest_kstack
    then panic
    else copyout_loop (len + 1) m pagetable dstva src len

pub copyin_loop : ℕ → Mem → ℕ → ℕ → ℕ → ℕ → Outcome (Bool × Mem)
copyin_loop zero m pagetable dst srcva len = out_of_fuel
copyin_loop (suc fuel) m pagetable dst srcva len =
    let n = chunk srcva len in
    let va0 = pg_round_down srcva in
    let rest = walkaddr m pagetable va0 >>= λ pa0.
    let more =
      copyin_loop fuel (move m dst (in_window (pa0 + srcva % pgsize)) n) pagetable (dst + n)
        (va0 + pgsize) (len - n) in
    if pa0 == 0 then ok (false, m) else more in
    if len == 0 then ok (true, m) else rest

pub copyin : Mem → ℕ → ℕ → ℕ → ℕ → Outcome (Bool × Mem)
copyin m pagetable dst srcva len =
    if ltb maxva srcva && is_direct srcva
    then panic
    else copyin_loop (len + 1) m pagetable dst srcva len

-- copyout2 and copyin2, with the size of the process's memory.
pub copyout2 : ℕ → Mem → ℕ → ℕ → ℕ → Bool × Mem
copyout2 sz m dstva src len =
    if ltb sz ((dstva + len) % 2 ^ 64) || leb sz dstva
    then (false, m)
    else (true, move m dstva src len)

pub copyin2 : ℕ → Mem → ℕ → ℕ → ℕ → Bool × Mem
copyin2 sz m dst srcva len =
    if ltb sz ((srcva + len) % 2 ^ 64) || leb sz srcva
    then (false, m)
    else (true, move m dst srcva len)
