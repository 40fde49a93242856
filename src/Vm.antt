-- ===== src/Vm.antt =====
-- kernel/vm.c, with the macros of kernel/include/loongarch.h: four levels of page tables. The
-- masks are written as quotients and remainders by powers of two.
pub mod User
pub mod Tree
pub mod Grow
pub mod Walk
pub mod Map
pub mod Range
pub mod Mappages
pub mod Translate
pub mod Unmap
pub mod Create
mod Examples
use avx_loong_arch.Prelude.{
  ℕ, zero, suc, ◌+◌, ◌-◌, ◌*◌, ◌/◌, ◌%◌, ◌^◌, ◌≤◌, ◌<◌, min, ◌≡◌, refl, sym, ap, ap₂, ◌∙◌, ◌≢◌, ◌↔◌,
  ◌⊎◌, inl, inr, Bool, true, false, ◌&&◌, ◌||◌, not, Option, none, some, List, [], ◌∷◌, ◌++◌,
  append-nil, append_assoc, arith, ltb, leb, ◌==◌, if◌then◌else◌, InRange, InRange-cons, Bool-cases,
  Option-cases, eq_of_==, ne_of_==, ==_refl, ==_of_ne, length, get_elem?, replicate, All, has,
  Outcome, ok, panic, out_of_fuel, ◌>>=◌,
}
use avx_loong_arch.Kalloc.{
  pgsize, pgshift, ramstop, pg_round_up, pg_round_down, Kmem, update, junk_word, fill_page, refused,
  freed, kfree, taken, kalloc, freemem_amount, freerange_loop, freerange, kinit,
}
use avx_loong_arch.Kalloc

abbrev pub dmwin_mask : ℕ
dmwin_mask = 0x9000_0000_0000_0000

abbrev pub maxva : ℕ
maxva = 2 ^ 46

-- The entries of a table have 8 bytes, so entry i of the table at t is the word at t + 8 * i.
abbrev pub px : ℕ → ℕ → ℕ
px level va = va / 2 ^ (pgshift + 9 * level) % 512

-- `va & DMWIN_MASK` is not 0: bit 63 or bit 60 is set.
abbrev pub is_direct : ℕ → Bool
is_direct va = (va / 2 ^ 63 % 2 == 1) || (va / 2 ^ 60 % 2 == 1)

-- The bits of PAMASK, 12 to 47.
abbrev pub frame : ℕ → ℕ
frame pa = pa / 4096 % 2 ^ 36 * 4096

-- PTE2PA. The bits of DMWIN_MASK are not in PAMASK, so the or is a sum.
abbrev pub pte2pa : ℕ → ℕ
pte2pa pte = frame pte + dmwin_mask

-- `pte & PTE_V`
abbrev pub is_valid : ℕ → Bool
is_valid pte = pte % 2 == 1

-- `pte & PTE_PLV3`, bits 2 and 3
abbrev pub is_user : ℕ → Bool
is_user pte = not (pte / 4 % 4 == 0)

-- `x | 1 << k`
abbrev pub set_bit : ℕ → ℕ → ℕ
set_bit k x = if x / 2 ^ k % 2 == 0 then x + 2 ^ k else x

-- PA2PTE(pagetable) | PTE_V | DMWIN_MASK
abbrev pub table_pte : ℕ → ℕ
table_pte pa = frame pa + 1 + dmwin_mask

-- PA2PTE(pa) | perm | PTE_V | PTE_MAT | PTE_D, for a perm below 2^12, where no flag of an int is
-- in PAMASK.
pub leaf_pte : ℕ → ℕ → ℕ
leaf_pte pa perm = set_bit 1 (set_bit 4 (set_bit 0 (frame pa + perm)))

-- PTE_FLAGS: the low nine bits and the bits 61 to 63.
abbrev pub pte_flags : ℕ → ℕ
pte_flags pte = pte % 2 ^ 9 + pte / 2 ^ 61 % 8 * 2 ^ 61

-- The memory as the page tables see it (words, by address) and as data (bytes, by address), and
-- the allocator. A memset of a page shows in both; the code writes page tables by words and user
-- pages by bytes.
pub record Mem : Type 0 where
  pub kmem : Kmem
  pub words : ℕ → ℕ
  pub bytes : ℕ → ℕ

-- memset(pa, c, PGSIZE)
abbrev pub set_page : Mem → ℕ → ℕ → Mem
set_page m pa c = record m {
  words = λ a. if a / pgsize == pa / pgsize then junk_word c else m.words a;
  bytes = λ a. if a / pgsize == pa / pgsize then c else m.bytes a;
}

abbrev pub set_word : Mem → ℕ → ℕ → Mem
set_word m a w = record m { words = update m.words a w }

-- What kalloc leaves in memory: the page that it returns is filled with 5.
abbrev pub after_kalloc : Mem → ℕ × Kmem → ℕ × Mem
after_kalloc m (pa, k) =
    if pa == 0 then (0, record m { kmem = k }) else (pa, set_page (record m { kmem = k }) pa 5)

abbrev pub alloc_page : Mem → ℕ × Mem
alloc_page m = after_kalloc m (kalloc m.kmem)

-- What kfree leaves in memory: a page filled with 1 whose first word is the next free page.
abbrev pub after_kfree : Mem → ℕ → Kmem → Mem
after_kfree m pa k = set_word (set_page (record m { kmem = k }) pa 1) pa m.kmem.freelist

abbrev pub free_page : ℕ → Mem → ℕ → Outcome Mem
free_page kernel_end m pa = kfree kernel_end m.kmem pa >>= λ k. ok (after_kfree m pa k)

-- The body of the branch of walk that makes a table: NULL, or the new table, cleared and entered
-- in the word at `pte`.
abbrev pub enter_table : ℕ → ℕ × Mem → ℕ × Mem
enter_table pte (pa, m) =
    if pa == 0 then (0, m) else (pa, set_word (set_page m pa 0) pte (table_pte pa))

-- One round of the loop of walk: the table of the next level, or 0 where walk returns 0.
pub next_table : ℕ → Bool → Mem → ℕ → ℕ → ℕ × Mem
next_table level alloc m pagetable va =
    let pte = pagetable + 8 * px level va in
    if is_valid (m.words pte)
    then (pte2pa (m.words pte), m)
    else if alloc
    then enter_table pte (alloc_page m)
    else (0, m)

-- The rounds from `level` down to 1, and the address of the entry at level 0.
pub walk_levels : ℕ → Bool → Mem → ℕ → ℕ → ℕ × Mem
walk_levels zero alloc m pagetable va = (pagetable + 8 * px 0 va, m)
walk_levels (suc level) alloc m pagetable va =
    let down : ℕ × Mem = next_table (suc level) alloc m pagetable va in
    let rest = walk_levels level alloc down.1 down.0 va in if down.0 == 0 then (0, down.1) else rest

pub walk : Bool → Mem → ℕ → ℕ → Outcome (ℕ × Mem)
walk alloc m pagetable va =
    if is_direct va
    then ok (va, m)
    else if leb maxva va
    then panic
    else ok (walk_levels 3 alloc m pagetable va)

-- What walkaddr returns for the entry that walk found.
abbrev pub user_address : Mem → ℕ → ℕ
user_address m pte =
    if pte == 0
    then 0
    else if not (is_valid (m.words pte))
    then 0
    else if not (is_user (m.words pte))
    then 0
    else pte2pa (m.words pte)

pub walkaddr : Mem → ℕ → ℕ → Outcome ℕ
walkaddr m pagetable va =
    if is_direct va
    then ok va
    else if leb maxva va
    then ok 0
    else walk false m pagetable va >>= λ r. ok (user_address m (r.0))

-- What kwalkaddr returns for the entry that walk found.
abbrev pub kernel_address : Mem → ℕ → ℕ → Outcome ℕ
kernel_address m pte off =
    if pte == 0
    then panic
    else if not (is_valid (m.words pte))
    then panic
    else ok ((pte2pa (m.words pte) + off) % 2 ^ 64)

pub kwalkaddr : Mem → ℕ → ℕ → Outcome ℕ
kwalkaddr m kpt va = walk false m kpt va >>= λ r. kernel_address m (r.0) (va % pgsize)

-- One round of mappages on what walk returned: -1 (as false) where walk has no memory, the panic
-- "remap" where the entry is valid.
abbrev pub enter_leaf : ℕ → ℕ → ℕ × Mem → Outcome (Bool × Mem)
enter_leaf pa perm (pte, m) =
    if pte == 0
    then ok (false, m)
    else if is_valid (m.words pte)
    then panic
    else ok (true, set_word m pte (leaf_pte pa perm))

pub map_page : Mem → ℕ → ℕ → ℕ → ℕ → Outcome (Bool × Mem)
map_page m pagetable a pa perm = walk true m pagetable a >>= enter_leaf pa perm

-- The loop of mappages. The result is true for 0 and false for -1.
pub map_loop : ℕ → Mem → ℕ → ℕ → ℕ → ℕ → ℕ → Outcome (Bool × Mem)
map_loop zero m pagetable a last pa perm = out_of_fuel
map_loop (suc fuel) m pagetable a last pa perm = map_page m pagetable a pa perm >>= λ r.
    let rest =
      map_loop fuel (r.1) pagetable ((a + pgsize) % 2 ^ 64) last ((pa + pgsize) % 2 ^ 64) perm in
    if not (r.0) || (a == last) then ok r else rest

-- One round for each page of the range.
pub mappages : Mem → ℕ → ℕ → ℕ → ℕ → ℕ → Outcome (Bool × Mem)
mappages m pagetable va size pa perm =
    let a = pg_round_down va in
    let last = pg_round_down ((va + size + 2 ^ 64 - 1) % 2 ^ 64) in
    if size == 0
    then panic
    else map_loop ((last + 2 ^ 64 - a) % 2 ^ 64 / pgsize + 1) m pagetable a last pa perm

-- kvmmap on the kernel's page table.
pub kvmmap : Mem → ℕ → ℕ → ℕ → ℕ → ℕ → Outcome Mem
kvmmap m kernel_pagetable va pa sz perm =
    mappages m kernel_pagetable va sz pa perm >>= λ r. if r.0 then ok (r.1) else panic

-- One round of vmunmap on what walk returned.
abbrev pub clear_leaf : ℕ → Bool → ℕ × Mem → Outcome Mem
clear_leaf kernel_end do_free (pte, m) =
    let w = m.words pte in
    if pte == 0
    then panic
    else if not (is_valid w)
    then panic
    else if pte_flags w == 1
    then panic
    else if do_free
    then (free_page kernel_end m (pte2pa w) >>= λ m'. ok (set_word m' pte 0))
    else ok (set_word m pte 0)

pub unmap_page : ℕ → Bool → Mem → ℕ → ℕ → Outcome Mem
unmap_page kernel_end do_free m pagetable a =
    walk false m pagetable a >>= clear_leaf kernel_end do_free

-- The loop of vmunmap, one round for each page.
pub unmap_loop : ℕ → ℕ → Bool → Mem → ℕ → ℕ → Outcome Mem
unmap_loop zero kernel_end do_free m pagetable a = ok m
unmap_loop (suc npages) kernel_end do_free m pagetable a =
    unmap_page kernel_end do_free m pagetable a >>= λ m'.
    unmap_loop npages kernel_end do_free m' pagetable (a + pgsize)

-- For ranges that do not wrap around the address space.
pub vmunmap : ℕ → Bool → Mem → ℕ → ℕ → ℕ → Outcome Mem
vmunmap kernel_end do_free m pagetable va npages =
    if not (va % pgsize == 0) then panic else unmap_loop npages kernel_end do_free m pagetable va

-- uvmcreate: the new page table, cleared, or 0.
abbrev pub cleared : ℕ × Mem → ℕ × Mem
cleared (pa, m) = if pa == 0 then (0, m) else (pa, set_page m pa 0)

pub uvmcreate : Mem → ℕ × Mem
uvmcreate m = cleared (alloc_page m)
