-- ===== src/Vm/User/Free.antt =====
-- freewalk of kernel/vm.c on the entries that walk and mappages make.
use avx_loong_arch.Prelude.{
  ℕ, zero, suc, ◌+◌, ◌*◌, ◌^◌, ◌<◌, ◌≡◌, refl, ◌⊎◌, inl, inr, false, ◌&&◌, arith, ◌==◌, Outcome, ok,
}
use avx_loong_arch.Vm.Translate.{leaf_pte_lem}
use avx_loong_arch.Vm.User.{free_entries, freewalk}
use avx_loong_arch.Vm.{is_valid, table_pte, leaf_pte, pte_flags, Mem, free_page}

-- What the words of a table hold: nothing valid, the entry of a table below, or that of a page.
abbrev pub IsEntry : ℕ → Type 0
IsEntry w =
    (is_valid w ≡ false)
    ⊎ ((pa : ℕ) × (w ≡ table_pte pa))
    ⊎ ((pa perm : ℕ) × (perm < 2 ^ 9) × (w ≡ leaf_pte pa perm))

-- No such entry is a table to freewalk: that of a table also has bit 63, which DMWIN_MASK put
-- there and PTE_FLAGS keeps.
IsEntry-skipped : (w : ℕ) → IsEntry w → (is_valid w && (pte_flags w == 1)) ≡ false
IsEntry-skipped w (inl bad) = rw bad refl
IsEntry-skipped w (inr (inl (pa, e))) = ground (arith, e)
IsEntry-skipped w (inr (inr (pa, perm, small, e))) =
    let (_, _, _, other) = leaf_pte_lem pa perm small in ground (arith, e, other)

free_entries-none :
    (child : Mem → ℕ → Outcome Mem) (left : ℕ) (m : Mem) (pagetable i : ℕ)
    → ((j : ℕ) → j < i + left → IsEntry (m.words (pagetable + 8 * j)))
    → free_entries child left m pagetable i ≡ ok m
unfolding free_entries
free_entries-none child zero m pagetable i each = refl
free_entries-none child (suc left) m pagetable i each =
    rw (IsEntry-skipped (m.words (pagetable + 8 * i)) (each i (omega arith)))
      (free_entries-none child left m pagetable (i + 1) (λ j h. each j (omega arith)))

-- freewalk of a table whose entries are invalid or were made by walk or mappages frees that table
-- and nothing else: the tables below it stay allocated.
pub freewalk_frees_one :
    (levels kernel_end : ℕ) (m : Mem) (pagetable : ℕ)
    → ((j : ℕ) → j < 512 → IsEntry (m.words (pagetable + 8 * j)))
    → freewalk (suc levels) kernel_end m pagetable ≡ free_page kernel_end m pagetable
unfolding freewalk
freewalk_frees_one levels kernel_end m pagetable each =
    rw (free_entries-none (freewalk levels kernel_end) 512 m pagetable 0 each) refl
