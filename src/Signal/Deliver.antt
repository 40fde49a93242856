-- ===== src/Signal/Deliver.antt =====
-- The delivery of a signal in kernel/signal.c, and the masks.
use mathlib.Core.Path.{subst}
use avx_loong_arch.Prelude.{
  ℕ, ◌/◌, ◌%◌, ◌^◌, ◌<◌, ◌≡◌, refl, sym, ap, ◌∙◌, ◌≢◌, Option, some, List, [], ◌∷◌, arith, ◌==◌,
  if◌then◌else◌, ==_refl, ==_of_ne, ok,
}
use avx_loong_arch.Signal.{
  Trapframe, SigProc, keep_three, new_mask, sigprocmask, clear_bit, enter_handler, sighandle,
  rt_sigreturn,
}
use avx_loong_arch.Kalloc.FreeList.{FreeList, kfree-FreeList, kalloc-cons}
use avx_loong_arch.Kalloc.{Kmem, kfree}

-- The numbers with no other bits than 9, 15 and 19.
abbrev pub OnlyThree : ℕ → Type 0
OnlyThree m =
    (m % 2 ^ 9 ≡ 0) × (m / 2 ^ 10 % 2 ^ 5 ≡ 0) × (m / 2 ^ 16 % 2 ^ 3 ≡ 0) × (m / 2 ^ 20 ≡ 0)

keep_three-OnlyThree : (x : ℕ) → OnlyThree (keep_three x)
keep_three-OnlyThree x = (omega arith, omega arith, omega arith, omega arith)

-- After sigprocmask, whatever it was called with, no signal but SIGKILL (9), SIGTERM (15) and
-- SIGSTOP (19) is in the mask.
pub sigprocmask_keeps_three :
    (how : ℕ) (set : Option ℕ) (p : SigProc) → OnlyThree (sigprocmask how set p).1.sig_set
unfolding sigprocmask
sigprocmask_keeps_three how set p = keep_three-OnlyThree (new_mask how set p.sig_set)

-- What sighandle makes of a process with a handler for the signal, on the pages xs that are free.
abbrev pub Delivered : ℕ → SigProc → List ℕ → SigProc → Type 0
Delivered kernel_end p [] q = ⊥
Delivered kernel_end p (x ∷ xs) q =
    (q.trapframe ≡ enter_handler (p.actions p.killed).handler p.trapframe)
    × (q.sig_tf ≡ x)
    × (q.saved x ≡ p.trapframe)
    × FreeList kernel_end q.kmem xs
    × (q.sig_pending ≡ clear_bit p.killed p.sig_pending)

sighandle-Delivered :
    {kernel_end : ℕ} (p : SigProc) (x : ℕ) (xs : List ℕ)
    → 0 < kernel_end
    → FreeList kernel_end p.kmem (x ∷ xs)
    → (p.actions p.killed).handler ≢ 0
    → (q : SigProc) × (sighandle p ≡ ok (some q)) × Delivered kernel_end p (x ∷ xs) q
unfolding sighandle
sighandle-Delivered p x xs pos free some_handler =
    let (k, e, rest, _, _) = kalloc-cons p.kmem x xs pos free in
    let nz : x ≢ 0 = λ z. omega (arith, pos, z, free.chain.1.above) in
    let pending = clear_bit p.killed p.sig_pending in
    let q : SigProc = record p {
      kmem = k;
      sig_tf = x;
      saved = λ a. if x == a then p.trapframe else p.saved a;
      trapframe = enter_handler (p.actions p.killed).handler p.trapframe;
      sig_pending = pending;
      killed = (if pending == 0 then 0 else p.killed);
    } in
    (
      q,
      rw (==_of_ne some_handler, e, ==_of_ne nz) refl,
      (refl, refl, rw (==_refl x) refl, rest, refl),
    )

rt_sigreturn-ok :
    (kernel_end : ℕ) (q : SigProc) (k : Kmem)
    → kfree kernel_end q.kmem q.sig_tf ≡ ok k
    → rt_sigreturn kernel_end q
      ≡ ok ((q.saved q.sig_tf).a0, record q { trapframe = q.saved q.sig_tf; kmem = k; sig_tf = 0 })
unfolding rt_sigreturn
rt_sigreturn-ok kernel_end q k e = rw e refl

-- A signal with a handler interrupts a process and the handler returns: where a page is free,
-- sighandle starts the handler, and whatever registers the handler leaves, rt_sigreturn then puts
-- back all those that the process had before, returns its a0, and gives the page back.
pub rt_sigreturn-sighandle :
    (kernel_end : ℕ) (p : SigProc) (x : ℕ) (xs : List ℕ) (left_by_handler : Trapframe)
    → 0 < kernel_end
    → FreeList kernel_end p.kmem (x ∷ xs)
    → (p.actions p.killed).handler ≢ 0
    → (q : SigProc) × (sighandle p ≡ ok (some q))
      × (q.trapframe ≡ enter_handler (p.actions p.killed).handler p.trapframe)
      × ((r : SigProc) × (rt_sigreturn kernel_end (record q { trapframe = left_by_handler })
            ≡ ok (p.trapframe.a0, r))
          × (r.trapframe ≡ p.trapframe)
          × (r.sig_tf ≡ 0)
          × FreeList kernel_end r.kmem (x ∷ xs))
rt_sigreturn-sighandle kernel_end p x xs left_by_handler pos free some_handler =
    let (q, e, (entered, at_x, saved, rest, _)) =
      sighandle-Delivered p x xs pos free some_handler in
    let (k, f, back, _) = kfree-FreeList q.kmem x xs rest (free.chain.1) (free.chain.2) in
    let restored : q.saved q.sig_tf ≡ p.trapframe = ap q.saved at_x ∙ saved in
    let freed_page : kfree kernel_end q.kmem q.sig_tf ≡ ok k =
      subst (λ a. kfree kernel_end q.kmem a ≡ ok k) (sym at_x) f in
    let r : SigProc = record q { trapframe = q.saved q.sig_tf; kmem = k; sig_tf = 0 } in
    (
      q,
      e,
      entered,
      (
        r,
        rt_sigreturn-ok kernel_end (record q { trapframe = left_by_handler }) k freed_page
            ∙ ap (λ t. ok (t.a0, r)) restored,
        restored,
        refl,
        back,
      ),
    )
