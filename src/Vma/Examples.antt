-- ===== src/Vma/Examples.antt =====
-- The theorems of kernel/vma.c at the list that vma_init makes, and runs of its operations.
use avx_loong_arch.Prelude.{◌-◌, ◌≡◌, refl, inl, inr, true, some, List, [], ◌∷◌, ◌++◌, arith, ok}
use avx_loong_arch.Vma.Stack.{StackAt}
use avx_loong_arch.Vma.Order.{IsOrdered, Allocated, alloc_vma_lem}
use avx_loong_arch.Vma.{
  user_mmap_start, user_stack_top, stack_step, mmap_seg, Vma, find_spot, fresh_vma, alloc_vma,
  find_mmap_vma, alloc_mmap_vma, vma_init, new_stack,
}

-- The empty area at USER_MMAP_START.
abbrev initial : List Vma
initial = record (fresh_vma mmap_seg user_mmap_start user_mmap_start 0 0) { fd = some 0 } ∷ []

vma_init-initial : vma_init true true ≡ ok (some initial)
unfolding vma_init alloc_mmap_vma alloc_vma find_mmap_vma find_spot
vma_init-initial = refl

initial-IsOrdered : IsOrdered 0 initial
initial-IsOrdered = (omega arith, omega arith, tt)

alloc_vma_lem_example :
    Allocated 0x1000 0x2000 true true initial
      (alloc_vma mmap_seg 0x1000 0x2000 7 true 0 true true initial)
alloc_vma_lem_example =
    alloc_vma_lem mmap_seg 0x1000 0x2000 7 true 0 true true initial (omega arith) initial-IsOrdered

abbrev with_stack : List Vma
with_stack = initial ++ new_stack 3 ∷ []

with_stack-StackAt : StackAt (user_stack_top - stack_step) user_stack_top with_stack
with_stack-StackAt = inr (refl, inl (refl, refl, refl))
