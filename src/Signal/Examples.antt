-- ===== src/Signal/Examples.antt =====
-- The theorems of kernel/signal.c at a process with a handler for SIGALRM.
use avx_loong_arch.Prelude.{ℕ, ◌^◌, ◌≡◌, refl, some, [], ◌∷◌, arith, ok}
use avx_loong_arch.Signal.Deliver.{rt_sigreturn-sighandle}
use avx_loong_arch.Signal.{Trapframe, SigProc, sigprocmask, enter_handler, sighandle, rt_sigreturn}
use avx_loong_arch.Kalloc.FreeList.{IsPage, FreeList}

abbrev kernel_end : ℕ
kernel_end = 0x9000_0000_9020_0000

abbrev free_one : ℕ
free_one = 0x9000_0000_9031_0000

abbrev registers : Trapframe
registers = record { era = 0x1000; ra = 0x2000; sp = 0x8000; a0 = 7; other = λ i. i }

abbrev handled : SigProc
handled = record {
  actions = λ s. record { handler = 0x4000; mask = 0; flags = 0 };
  sig_set = 0;
  sig_pending = 2 ^ 14;
  killed = 14;
  trapframe = registers;
  sig_tf = 0;
  saved = λ a. registers;
  kmem = record { freelist = free_one; npage = 1; next = λ p. 0; fill = λ p. 1 };
}

free_one-IsPage : IsPage kernel_end free_one
free_one-IsPage = record { aligned = refl; above = omega arith; below = omega arith }

handled-FreeList : FreeList kernel_end handled.kmem (free_one ∷ [])
handled-FreeList = record { chain = (refl, free_one-IsPage, refl, refl); count = refl }

-- SIGINT (2), which is to be blocked, is not.
blocked_sigint : (sigprocmask 0 (some (2 ^ 2)) handled).1.sig_set ≡ 0
unfolding sigprocmask
blocked_sigint = refl

rt_sigreturn-sighandle_example :
    (q : SigProc) × (sighandle handled ≡ ok (some q))
    × (q.trapframe ≡ enter_handler 0x4000 registers)
    × ((r : SigProc) × (rt_sigreturn kernel_end
            (record q { trapframe = record registers { a0 = 0 } })
          ≡ ok (7, r))
        × (r.trapframe ≡ registers)
        × (r.sig_tf ≡ 0)
        × FreeList kernel_end r.kmem (free_one ∷ []))
rt_sigreturn-sighandle_example =
    rt_sigreturn-sighandle kernel_end handled free_one [] (record registers { a0 = 0 })
      (omega arith) handled-FreeList (λ e. omega (arith, e))
