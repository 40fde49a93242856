-- ===== src/Vm/Tree.antt =====
-- The page tables of kernel/vm.c as a tree, and one round of walk on it. `page l p` is the table of
-- level l for the addresses whose bits above 12 + 9 * (l + 1) are p, or 0.
use avx_loong_arch.Prelude.{
  ℕ, zero, suc, ◌+◌, ◌*◌, ◌/◌, ◌%◌, ◌^◌, ◌≤◌, ◌<◌, ◌≡◌, ◌≢◌, ◌⊎◌, inl, inr, Bool, true, false, ◌&&◌,
  List, arith, ◌==◌, if◌then◌else◌, has,
}
use avx_loong_arch.Vm.{dmwin_mask, px, pte2pa, table_pte, Mem, alloc_page, enter_table, next_table}
use avx_loong_arch.Kalloc.FreeList.{IsPage, FreeList}
use avx_loong_arch.Kalloc.{pgsize}

-- The number of the table of level l on the way to va.
abbrev pub region : ℕ → ℕ → ℕ
region zero va = va / 2 ^ 21
region (suc l) va = region l va / 512

-- What an entry above level 0 says of the table below it, `q` or none (0).
abbrev pub Link : ℕ → ℕ → Type 0
Link e q = ((e % 2 ≡ 0) × (q ≡ 0)) ⊎ ((e % 2 ≡ 1) × (pte2pa e ≡ q) × (q ≢ 0))

abbrev pub slot : (ℕ → ℕ → ℕ) → ℕ → ℕ → ℕ
slot page l p = page l (p / 512) + 8 * (p % 512)

-- The tables below `root` are pages of the allocator's range, none of them free, each in one
-- place, and the entries above level 0 lead to them. `xs` are the free pages.
pub record IsTree (kernel_end root : ℕ) (m : Mem) (page : ℕ → ℕ → ℕ) (xs : List ℕ) : Type 0 where
  pub top : page 3 0 ≡ root
  pub rooted : root ≢ 0
  pub orphan : (l p : ℕ) → l < 3 → page (suc l) (p / 512) ≡ 0 → page l p ≡ 0
  pub link :
      (l p : ℕ)
      → l < 3
      → page (suc l) (p / 512) ≢ 0
      → Link (m.words (slot page (suc l) p)) (page l p)
  pub once : (l p l' p' : ℕ) → page l p ≢ 0 → page l p ≡ page l' p' → (l ≡ l') × (p ≡ p')
  pub pages : (l p : ℕ) → page l p ≢ 0 → IsPage kernel_end (page l p)
  pub apart : (l p : ℕ) → page l p ≢ 0 → has (page l p) xs ≡ false
  pub free : FreeList kernel_end m.kmem xs

-- The entry at level 0 for the virtual page v, or 0 where there is no table for it.
abbrev pub entry : (ℕ → ℕ → ℕ) → Mem → ℕ → ℕ
entry page m v = if page 0 (v / 512) == 0 then 0 else m.words (slot page 0 v)

-- The table of level l and number p is now x.
abbrev pub with_table : (ℕ → ℕ → ℕ) → ℕ → ℕ → ℕ → ℕ → ℕ → ℕ
with_table page l p x l' p' = if (l == l') && (p == p') then x else page l' p'

pub px-region : (l va : ℕ) → l < 3 → px (suc l) va ≡ region l va % 512
px-region zero va h = omega arith
px-region (suc zero) va h = omega arith
px-region (suc (suc zero)) va h = omega arith
px-region (suc (suc (suc l))) va h = absurd (omega arith)

module _ {kernel_end : ℕ} (low : dmwin_mask ≤ kernel_end) where
  -- The entry that walk makes leads to the page that it was made for.
  pub table_pte-Link :
      (x : ℕ) → IsPage kernel_end x → (table_pte x % 2 ≡ 1) × (pte2pa (table_pte x) ≡ x)
  table_pte-Link x page = (omega arith, omega (arith, page.above, page.below, page.aligned, low))

module _ {kernel_end root : ℕ} (m : Mem) (page : ℕ → ℕ → ℕ) (xs : List ℕ)
    (t : IsTree kernel_end root m page xs) where
  pub next_table-old :
      (alloc : Bool) (l va : ℕ)
      → l < 3
      → page (suc l) (region (suc l) va) ≢ 0
      → page l (region l va) ≢ 0
      → next_table (suc l) alloc m (page (suc l) (region (suc l) va)) va ≡ (page l (region l va), m)
  unfolding next_table
  next_table-old alloc l va lt up down =
      rw (px-region l va lt) (elim (t.link l (region l va) lt up) [
        | inl (e, z) ↦ absurd (down z)
        | inr (e, q, ne) ↦ ground (arith, e, q)
      ])

  pub next_table-none :
      (l va : ℕ)
      → l < 3
      → page (suc l) (region (suc l) va) ≢ 0
      → page l (region l va) ≡ 0
      → next_table (suc l) false m (page (suc l) (region (suc l) va)) va ≡ (0, m)
  unfolding next_table
  next_table-none l va lt up down = rw (px-region l va lt) (elim (t.link l (region l va) lt up) [
    | inl (e, z) ↦ ground (arith, e)
    | inr (e, q, ne) ↦ absurd (ne down)
  ])

  pub next_table-make :
      (l va : ℕ)
      → l < 3
      → page (suc l) (region (suc l) va) ≢ 0
      → page l (region l va) ≡ 0
      → next_table (suc l) true m (page (suc l) (region (suc l) va)) va
        ≡ enter_table (slot page (suc l) (region l va)) (alloc_page m)
  unfolding next_table
  next_table-make l va lt up down = rw (px-region l va lt) (elim (t.link l (region l va) lt up) [
    | inl (e, z) ↦ ground (arith, e)
    | inr (e, q, ne) ↦ absurd (ne down)
  ])

  -- The word of an entry belongs to one entry of one table.
  pub slot_once :
      (l p l' p' : ℕ)
      → page l (p / 512) ≢ 0
      → page l' (p' / 512) ≢ 0
      → slot page l p ≡ slot page l' p'
      → (l ≡ l') × (p ≡ p')
  slot_once l p l' p' h h' e =
      let a = (t.pages l (p / 512) h).aligned in
      let b = (t.pages l' (p' / 512) h').aligned in
      let same = t.once l (p / 512) l' (p' / 512) h (omega (arith, a, b, e)) in
      (same.0, omega (arith, a, b, e, same.1))

  -- An entry is in the page of its table.
  pub slot-page :
      (l p : ℕ) → page l (p / 512) ≢ 0 → slot page l p / pgsize ≡ page l (p / 512) / pgsize
  slot-page l p h = omega (arith, (t.pages l (p / 512) h).aligned)
