-- ===== src/Proc/Life/Exit.antt =====
-- exit and allocproc of kernel/proc.c.
use avx_loong_arch.Prelude.{
  ℕ, ◌<◌, ◌≡◌, refl, ◌≢◌, true, false, some, List, [], ◌∷◌, ◌++◌, arith, ◌==◌, if◌then◌else◌,
  InRange, ==_of_ne, ok,
}
use avx_loong_arch.Proc.Life.{begun, alloc_slot, exit_finish}
use avx_loong_arch.Proc.{
  sleeping, zombie, proc_chan, is_proc, Proc, nproc, Table, Release, page, vma_list, address_space,
  freeproc, reparent_one,
}

-- After exit by process i (not init): i is a zombie with the status, no process has i as its
-- parent, the children that it had are init's, its own parent does not sleep on its own address or
-- on that of i, and the parent field of a process that was not a child of i is as it was.
pub exit_finish_lem :
    (initproc parent i status : ℕ) (t : Table)
    → i ≢ initproc
    → i < nproc
    → (t i).parent ≡ some parent
    → parent ≢ i
    → let u = exit_finish initproc parent i status t in
      ((u i).state ≡ zombie)
      × ((u i).xstate ≡ status)
      × InRange (λ k. is_proc (u k).parent i ≡ false) 0 nproc
      × ((k : ℕ) → k < nproc → is_proc (t k).parent i ≡ true → (u k).parent ≡ some initproc)
      × ((k : ℕ) → is_proc (t k).parent i ≡ false → (u k).parent ≡ (t k).parent)
      × ((u parent).state ≡ sleeping
          → (u parent).chan ≢ proc_chan parent × ((u parent).chan ≢ proc_chan i))
unfolding exit_finish reparent_one
exit_finish_lem initproc parent i status t ne lt ns np = (
  ground arith,
  ground arith,
  λ k lo hi. ground arith,
  λ k hi c. ground arith,
  λ k c. ground arith,
  λ s. (λ e. ground arith, λ e. ground arith),
)

-- A slot that was in use before and whose new page table cannot be built: freeproc is called on it
-- before a new page is in `exec_close`, so the page that the slot's last freeproc handed to kfree is
-- handed to it once more.
pub alloc_slot_stale :
    (pid trapframe exec_close : ℕ) (p : Proc)
    → trapframe ≢ 0
    → (r : Proc) × (before after : List Release) × (alloc_slot pid trapframe 0 exec_close
          (freeproc p).1
        ≡ ok (false, page trapframe ∷ page p.exec_close ∷ [], r))
      × ((freeproc p).0 ≡ before ++ (page p.exec_close ∷ after))
unfolding alloc_slot
alloc_slot_stale pid tf ec p ne = (
  (freeproc (record (begun pid (freeproc p).1) { trapframe = tf; pagetable = 0 })).1,
  if p.trapframe == 0 then [] else page p.trapframe ∷ [],
  if p.pagetable == 0 then [] else vma_list p.vma ∷ address_space p.pagetable p.sz ∷ [],
  rw (==_of_ne ne),
  refl,
)
