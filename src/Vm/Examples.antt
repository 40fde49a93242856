-- ===== src/Vm/Examples.antt =====
-- The theorems of kernel/vm.c at a machine with one mapped page, at the user address 0x1000.
use mathlib.Core.Path.{subst, subst₂}
use avx_loong_arch.Prelude.{
  ℕ, zero, suc, ◌+◌, ◌-◌, ◌*◌, ◌/◌, ◌%◌, ◌≤◌, ◌<◌, ◌≡◌, refl, sym, ap, ◌∙◌, ◌≢◌, inl, inr, true,
  false, ◌&&◌, [], ◌∷◌, arith, ltb, leb, ◌==◌, if◌then◌else◌, Bool-cases, eq_of_==, ne_of_==, ok,
  ◌>>=◌,
}
use avx_loong_arch.Vm.User.Free.{IsEntry}
use avx_loong_arch.Vm.User.Buffer.{phys, IsBuffer, phys-near}
use avx_loong_arch.Vm.User.Copy.{CopiedOut, copyout-CopiedOut}
use avx_loong_arch.Vm.User.CopyIn.{copyin-copyout}
use avx_loong_arch.Vm.User.{copyout, copyin}
use avx_loong_arch.Vm.Unmap.{vmunmap-mappages}
use avx_loong_arch.Vm.Translate.{leaf_pte_lem, walkaddr-mapped}
use avx_loong_arch.Vm.Range.{mapped}
use avx_loong_arch.Vm.Mappages.{RangeEnd, mappages-RangeEnd}
use avx_loong_arch.Vm.Map.{Maps}
use avx_loong_arch.Vm.Tree.{Link, slot, IsTree, entry}
use avx_loong_arch.Vm.{table_pte, leaf_pte, Mem, walkaddr, mappages, vmunmap}
use avx_loong_arch.Kalloc.FreeList.{IsPage, FreeList}
use avx_loong_arch.Kalloc.{pgsize}

abbrev kernel_end : ℕ
kernel_end = 0x9000_0000_9020_0000

-- The table of level l, the free page and the user's page.
abbrev table : ℕ → ℕ
table l = 0x9000_0000_9030_0000 + l * pgsize

abbrev free_one : ℕ
free_one = 0x9000_0000_9031_0000

abbrev user_page : ℕ
user_page = 0x9000_0000_9032_0000

-- PTE_P | PTE_W | PTE_PLV3 | PTE_MAT | PTE_D
abbrev rw_user : ℕ
rw_user = 0x19e

abbrev example : Mem
example = record {
  kmem = record { freelist = free_one; npage = 1; next = λ p. 0; fill = λ p. 1 };
  words = λ a.
      if a == table 3
      then table_pte (table 2)
      else if a == table 2
      then table_pte (table 1)
      else if a == table 1
      then table_pte (table 0)
      else if a == table 0 + 8
      then leaf_pte user_page rw_user
      else 0;
  bytes = λ a. a % 256;
}

abbrev tables : ℕ → ℕ → ℕ
tables l p = if leb l 3 && (p == 0) then table l else 0

tables-cases : (l p : ℕ) → tables l p ≢ 0 → (l ≤ 3) × (p ≡ 0) × (tables l p ≡ table l)
tables-cases l p h = elim (Bool-cases (leb l 3 && (p == 0))) [
  | inl e ↦ (ground (arith, e), ground (arith, e), rw e refl)
  | inr e ↦ absurd (h (rw e refl))
]

table-IsPage : (l : ℕ) → l ≤ 3 → IsPage kernel_end (table l)
table-IsPage l h = record { aligned = omega arith; above = omega arith; below = omega arith }

free_one-IsPage : IsPage kernel_end free_one
free_one-IsPage = record { aligned = refl; above = omega arith; below = omega arith }

example-FreeList : FreeList kernel_end example.kmem (free_one ∷ [])
example-FreeList = record { chain = (refl, free_one-IsPage, refl, refl); count = refl }

example-Link :
    (l p : ℕ)
    → l < 3
    → Link (example.words (table (suc l) + 8 * (p % 512))) (if p % 512 == 0 then table l else 0)
example-Link zero p h = ground arith
example-Link (suc zero) p h = ground arith
example-Link (suc (suc zero)) p h = ground arith
example-Link (suc (suc (suc l))) p h = absurd (omega arith)

example_linked :
    (l p : ℕ)
    → l < 3
    → tables (suc l) (p / 512) ≢ 0
    → Link (example.words (slot tables (suc l) p)) (tables l p)
example_linked l p lt up =
    let (_, low, e) = tables-cases (suc l) (p / 512) up in
    let word : slot tables (suc l) p ≡ table (suc l) + 8 * (p % 512) =
      ap (λ q. q + 8 * (p % 512)) e in
    let below : tables l p ≡ (if p % 512 == 0 then table l else 0) = ground (arith, low) in
    subst₂ Link (ap (example.words) (sym word)) (sym below) (example-Link l p lt)

other-entry : (v : ℕ) → v ≢ 1 → entry tables example v ≡ 0
other-entry v ne = ground arith

example-entry : (v : ℕ) → entry tables example v ≡ mapped (λ v. 0) 1 1 user_page rw_user v
example-entry v = elim (Bool-cases (v == 1)) [
  | inl e ↦
      subst (λ u. entry tables example u ≡ mapped (λ v. 0) 1 1 user_page rw_user u)
        (sym (eq_of_== e)) refl
  | inr ne ↦
      let out : (leb 1 v && ltb v 2) ≡ false = ground (arith, ne) in
      rw out (other-entry v (ne_of_== ne))
]

example-IsTree : IsTree kernel_end (table 3) example tables (free_one ∷ [])
example-IsTree = record {
  top = refl;
  rooted = λ e. omega (arith, e);
  orphan = λ l p lt h. ground (arith, h);
  link = λ l p lt up. example_linked l p lt up;
  once = λ l p l' p' h e.
      let (a, b, x) = tables-cases l p h in
      let (a', b', y) = tables-cases l' p' (λ z. h (e ∙ z)) in
      (omega (arith, sym x ∙ e ∙ y), b ∙ sym b');
  pages = λ l p h. let (le, _, e) = tables-cases l p h in rw e (table-IsPage l le);
  apart = λ l p h. let (le, _, e) = tables-cases l p h in rw e (ground arith);
  free = example-FreeList;
}

-- Page 1 and no other is mapped.
abbrev one_page : ℕ → ℕ
one_page = mapped (λ v. 0) 1 1 user_page rw_user

example-Maps : Maps kernel_end (table 3) example one_page (free_one ∷ [])
example-Maps = record { page = tables; tree = example-IsTree; entries = λ v. example-entry v }

mappages-RangeEnd_example :
    RangeEnd kernel_end
      (table 3)
      example
      one_page
      (free_one ∷ [])
      (0x3010 / pgsize)
      ((0x3010 + 0x1000 - 1) / pgsize - 0x3010 / pgsize + 1)
      user_page
      rw_user
      (mappages example (table 3) 0x3010 0x1000 user_page rw_user)
mappages-RangeEnd_example =
    mappages-RangeEnd kernel_end (table 3) example one_page (free_one ∷ []) 0x3010 0x1000 user_page
      rw_user (omega arith) example-Maps (omega arith) (omega arith) (omega arith)

walkaddr-mapped_example : walkaddr example (table 3) 0x1234 ≡ ok user_page
walkaddr-mapped_example =
    walkaddr-mapped example (λ v. 0) (free_one ∷ []) 1 1 user_page rw_user 0x1234 (omega arith)
      example-Maps (omega arith) (λ e. omega (arith, e)) (omega arith) (omega arith) (omega arith)

vmunmap-mappages_example :
    (m' : Mem) × (vmunmap kernel_end false example (table 3) 0x1000 1 ≡ ok m')
    × Maps kernel_end (table 3) m' (λ v. 0) (free_one ∷ [])
vmunmap-mappages_example =
    vmunmap-mappages kernel_end (table 3) example (λ v. 0) (free_one ∷ []) 0x1000 1 user_page
      rw_user (omega arith) example-Maps (omega arith) (λ k h. refl) refl (omega arith)

in_page : (j : ℕ) → j < 5 → (0x1010 + j) / pgsize ≡ 1
in_page j h = omega arith

user_page-IsBuffer : IsBuffer one_page 0x1010 5
user_page-IsBuffer =
    let (valid, plv, _, _) = leaf_pte_lem user_page rw_user (omega arith) in
    let near : (j : ℕ) → j < 5 → phys one_page (0x1010 + j) ≡ phys one_page 0x1010 + j =
      λ j h. phys-near one_page 0x1010 j (omega arith) in
    record {
      below = omega arith;
      user = λ j h. rw (in_page j h, valid, plv) refl;
      apart = λ i j hi hj e. omega (arith, sym (near i hi) ∙ e ∙ near j hj);
    }

-- The user's page is behind the free page, so the buffer is not in its first half.
buffer_clear :
    (k : ℕ) → k < 2048 → (i j : ℕ) → i < 5 → j < 5 → phys one_page (0x1010 + i) ≢ free_one + k + j
buffer_clear k hk i j hi hj e =
    let near : phys one_page (0x1010 + i) ≡ phys one_page 0x1010 + i =
      phys-near one_page 0x1010 i (omega arith) in
    let (_, _, same, _) = leaf_pte_lem user_page rw_user (omega arith) in
    omega (arith, e, near, same)

copyout-CopiedOut_example :
    (b' : ℕ → ℕ) × (copyout example (table 3) 0x1010 free_one 5
      ≡ ok (true, record example { bytes = b' }))
    × CopiedOut one_page (example.bytes) b' 0x1010 free_one 5
copyout-CopiedOut_example =
    copyout-CopiedOut example one_page (free_one ∷ []) 0x1010 free_one 5 (omega arith) example-Maps
      (omega arith) user_page-IsBuffer (buffer_clear 0 (omega arith))

copyin-copyout_example :
    (b' : ℕ → ℕ) × ((copyout example (table 3) 0x1010 free_one 5 >>= λ r.
    copyin (r.1) (table 3) (free_one + 100) 0x1010 5)
      ≡ ok (true, record example { bytes = b' }))
    × ((j : ℕ) → j < 5 → b' (free_one + 100 + j) ≡ example.bytes (free_one + j))
copyin-copyout_example =
    copyin-copyout example one_page (free_one ∷ []) (free_one + 100) 0x1010 free_one 5 (omega arith)
      example-Maps (omega arith) user_page-IsBuffer (buffer_clear 0 (omega arith))
      (buffer_clear 100 (omega arith))

root-IsEntry : (j : ℕ) → j < 512 → IsEntry (example.words (table 3 + 8 * j))
root-IsEntry zero h = inr (inl (table 2, refl))
root-IsEntry (suc j) h = inl (ground arith)
