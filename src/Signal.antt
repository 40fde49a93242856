-- ===== src/Signal.antt =====
-- kernel/signal.c: the actions, the mask and the delivery of signals. A process's other fields are
-- those of kernel/proc.c.
pub mod Deliver
mod Examples
use Prim.Native.Nat.{bit_or, bit_and}
use avx_loong_arch.Prelude.{
  ℕ, zero, suc, ◌+◌, ◌-◌, ◌*◌, ◌/◌, ◌%◌, ◌^◌, ◌≤◌, ◌<◌, min, ◌≡◌, refl, sym, ap, ap₂, ◌∙◌, ◌≢◌, ◌↔◌,
  ◌⊎◌, inl, inr, Bool, true, false, ◌&&◌, ◌||◌, not, Option, none, some, List, [], ◌∷◌, ◌++◌,
  append-nil, append_assoc, arith, ltb, leb, ◌==◌, if◌then◌else◌, InRange, InRange-cons, Bool-cases,
  Option-cases, eq_of_==, ne_of_==, ==_refl, ==_of_ne, length, get_elem?, replicate, All, has,
  Outcome, ok, panic, out_of_fuel, ◌>>=◌,
}
use avx_loong_arch.Kalloc.{
  pgsize, pgshift, ramstop, pg_round_up, pg_round_down, Kmem, update, junk_word, fill_page, refused,
  freed, kfree, taken, kalloc, freemem_amount, freerange_loop, freerange, kinit,
}
use avx_loong_arch.Kalloc

-- struct sigaction; a handler of 0 is none. A set of signals is one word, since SIGSET_LEN is 1.
pub record Sigaction : Type 0 where
  pub handler : ℕ
  pub mask : ℕ
  pub flags : ℕ

-- struct trapframe: the registers that signal.c uses, and the other words by their offset.
pub record Trapframe : Type 0 where
  pub era : ℕ
  pub ra : ℕ
  pub sp : ℕ
  pub a0 : ℕ
  pub other : ℕ → ℕ

-- The fields of struct proc that signal.c uses, and the allocator. `sig_tf` is the address of the
-- saved trapframe, 0 for none, and `saved` what is in memory at an address.
pub record SigProc : Type 0 where
  pub actions : ℕ → Sigaction
  pub sig_set : ℕ
  pub sig_pending : ℕ
  pub killed : ℕ
  pub trapframe : Trapframe
  pub sig_tf : ℕ
  pub saved : ℕ → Trapframe
  pub kmem : Kmem

-- `oldact` was given, and there is a handler: the old action is returned in it.
abbrev pub old_action : Bool → Sigaction → Option Sigaction
old_action wanted a = if not (a.handler == 0) && wanted then some a else none

abbrev pub put_action : ℕ → Option Sigaction → SigProc → SigProc
put_action signum none p = p
put_action signum (some a) p = record p { actions = λ s. if signum == s then a else p.actions s }

-- set_sigaction with the new action or none for NULL, and whether oldact is not NULL.
pub set_sigaction : ℕ → Option Sigaction → Bool → SigProc → Option Sigaction × SigProc
set_sigaction signum act wanted p = (old_action wanted (p.actions signum), put_action signum act p)

-- `x & (1ul << SIGTERM | 1ul << SIGKILL | 1ul << SIGSTOP)`: the bits 15, 9 and 19.
abbrev pub keep_three : ℕ → ℕ
keep_three x = x / 2 ^ 15 % 2 * 2 ^ 15 + x / 2 ^ 9 % 2 * 2 ^ 9 + x / 2 ^ 19 % 2 * 2 ^ 19

-- The switch: SIG_BLOCK is 0, SIG_UNBLOCK 1 and SIG_SETMASK 2.
abbrev pub masked : ℕ → ℕ → ℕ → ℕ
masked how set old =
    if how == 0
    then bit_or old set
    else if how == 1
    then bit_and old (2 ^ 64 - 1 - set)
    else if how == 2
    then set
    else old

abbrev pub new_mask : ℕ → Option ℕ → ℕ → ℕ
new_mask how none old = old
new_mask how (some set) old = masked how set old

-- sigprocmask with the set or none for NULL: what is returned in oldset, and the process.
pub sigprocmask : ℕ → Option ℕ → SigProc → ℕ × SigProc
sigprocmask how set p = (p.sig_set, record p { sig_set = keep_three (new_mask how set p.sig_set) })

-- SIGTRAMPOLINE is MAXVA - 3 * PGSIZE.
abbrev pub sigtrampoline : ℕ
sigtrampoline = 2 ^ 46 - 3 * pgsize

-- `x & ~(1ul << k)`
abbrev pub clear_bit : ℕ → ℕ → ℕ
clear_bit k x = if x / 2 ^ k % 2 == 1 then x - 2 ^ k else x

-- The registers with which the handler starts.
abbrev pub enter_handler : ℕ → Trapframe → Trapframe
enter_handler handler t = record t {
  era = handler;
  ra = sigtrampoline;
  sp = (t.sp + 2 ^ 64 - pgsize) % 2 ^ 64;
}

-- The trapframe is saved in the page that kalloc returned; the copy to address 0, where there is
-- no page, is a fault in the kernel, which panics.
abbrev pub deliver : SigProc → ℕ × Kmem → Outcome SigProc
deliver p (page, k) =
    let signum = p.killed in
    let pending = clear_bit signum p.sig_pending in
    if page == 0
    then panic
    else ok (record p {
      kmem = k;
      sig_tf = page;
      saved = λ a. if page == a then p.trapframe else p.saved a;
      trapframe = enter_handler (p.actions signum).handler p.trapframe;
      sig_pending = pending;
      killed = (if pending == 0 then 0 else signum);
    })

-- sighandle; `none` is the call exit(-1), where there is no handler.
pub sighandle : SigProc → Outcome (Option SigProc)
sighandle p =
    let delivered = deliver p (kalloc p.kmem) >>= λ q. ok (some q) in
    if (p.actions p.killed).handler == 0 then ok none else delivered

-- rt_sigreturn: the result, and the process. `kernel_end` is the linker's symbol.
pub rt_sigreturn : ℕ → SigProc → Outcome (ℕ × SigProc)
rt_sigreturn kernel_end p =
    let t = p.saved p.sig_tf in
    kfree kernel_end p.kmem p.sig_tf >>= λ k.
    ok (t.a0, record p { trapframe = t; kmem = k; sig_tf = 0 })
