-- ===== src/Kalloc.antt =====
-- kernel/kalloc.c: the physical page allocator. The lock is not a field: each critical section is
-- one step, since the code between acquire and release of kmem.lock is run by one CPU at a time.
pub mod FreeList
pub mod Range
mod Examples
use avx_loong_arch.Prelude.{
  ℕ, zero, suc, ◌+◌, ◌-◌, ◌*◌, ◌/◌, ◌%◌, ◌^◌, Bool, true, false, ◌||◌, ltb, leb, ◌==◌,
  if◌then◌else◌, not, Outcome, ok, panic, out_of_fuel, ◌>>=◌,
}

abbrev pub pgsize : ℕ
pgsize = 4096

abbrev pub pgshift : ℕ
pgshift = 12

-- RAMBASE + 128 MiB, where RAMBASE is 0x90000000 | DMWIN_MASK.
abbrev pub ramstop : ℕ
ramstop = 0x9000_0000_9000_0000 + 128 * 1024 * 1024

-- PGROUNDUP on uint64: the sum wraps, the mask clears the low twelve bits.
abbrev pub pg_round_up : ℕ → ℕ
pg_round_up sz = (sz + pgsize - 1) % 2 ^ 64 / pgsize * pgsize

-- PGROUNDDOWN
abbrev pub pg_round_down : ℕ → ℕ
pg_round_down a = a / pgsize * pgsize

-- kmem, and the free pages as memory: `next` is the first word of a page (struct run) and `fill`
-- the byte that the rest of the page holds.
pub record Kmem : Type 0 where
  pub freelist : ℕ
  pub npage : ℕ
  pub next : ℕ → ℕ
  pub fill : ℕ → ℕ

abbrev pub update : (ℕ → ℕ) → ℕ → ℕ → ℕ → ℕ
update f p v q = if p == q then v else f q

-- A word that memset filled with the byte 1 or 5.
abbrev pub junk_word : ℕ → ℕ
junk_word c = c * 0x0101_0101_0101_0101

-- memset(pa, c, PGSIZE)
abbrev pub fill_page : Kmem → ℕ → ℕ → Kmem
fill_page k pa c = record k { next = update k.next pa (junk_word c); fill = update k.fill pa c }

abbrev pub refused : ℕ → ℕ → Bool
refused kernel_end pa = not (pa % pgsize == 0) || ltb pa kernel_end || leb ramstop pa

-- The state that kfree leaves: the page filled with 1, then pushed on the list.
abbrev pub freed : Kmem → ℕ → Kmem
freed k pa =
    let m = fill_page k pa 1 in
    record m { next = update m.next pa m.freelist; freelist = pa; npage = (m.npage + 1) % 2 ^ 64 }

-- `kernel_end` is the linker's symbol.
pub kfree : ℕ → Kmem → ℕ → Outcome Kmem
kfree kernel_end k pa = if refused kernel_end pa then panic else ok (freed k pa)

-- The state that kalloc leaves where there is a page: the list's first page popped, filled with 5.
abbrev pub taken : Kmem → Kmem
taken k =
    fill_page (record k { freelist = k.next k.freelist; npage = (k.npage + 2 ^ 64 - 1) % 2 ^ 64 })
      k.freelist 5

-- The page, or 0, and the new state.
pub kalloc : Kmem → ℕ × Kmem
kalloc k = if k.freelist == 0 then (0, k) else (k.freelist, taken k)

-- freemem_amount: `npage << PGSHIFT` on uint64
pub freemem_amount : Kmem → ℕ
freemem_amount k = k.npage * 2 ^ pgshift % 2 ^ 64

-- The loop of freerange, `for (; p + PGSIZE <= pa_end; p += PGSIZE) kfree(p)`.
pub freerange_loop : ℕ → ℕ → ℕ → ℕ → Kmem → Outcome Kmem
freerange_loop kernel_end zero p pa_end k = out_of_fuel
freerange_loop kernel_end (suc fuel) p pa_end k =
    let rest = kfree kernel_end k p >>= freerange_loop kernel_end fuel (p + pgsize) pa_end in
    if leb (p + pgsize) pa_end then rest else ok k

-- One round for each page of the range, and one for the test that ends the loop.
pub freerange : ℕ → ℕ → ℕ → Kmem → Outcome Kmem
freerange kernel_end pa_start pa_end =
    freerange_loop kernel_end (pa_end / pgsize + 1) (pg_round_up pa_start) pa_end

-- kinit on the memory that the machine starts with.
pub kinit : ℕ → Kmem → Outcome Kmem
kinit kernel_end k = freerange kernel_end kernel_end ramstop (record k { freelist = 0; npage = 0 })
