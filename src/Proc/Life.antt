-- ===== src/Proc/Life.antt =====
-- kernel/proc.c: how a process begins (allocproc), ends (exit) and is waited for (wait, wait4pid).
pub mod Wait
pub mod Wait4pid
pub mod Exit
pub mod NoLost
pub mod Handover
pub mod Parents
pub mod Wakeups
use avx_loong_arch.Prelude.{
  ℕ, zero, suc, ◌+◌, ◌*◌, ◌%◌, ◌^◌, Bool, true, false, ◌&&◌, ◌||◌, not, Option, none, some, List,
  ◌∷◌, ◌==◌, if◌then◌else◌, Outcome, ok, panic, [],
}
use avx_loong_arch.Proc.{
  ProcState, unused, used, sleeping, runnable, running, zombie, is_unused, is_sleeping, is_runnable,
  is_running, is_zombie, Chan, null_chan, proc_chan, addr_chan, same_chan, is_proc, Proc, nproc,
  Table, set_proc, wake_one, wakeup, wakeup1, kill_one, kill_loop, kill, sleep_enter, sleep_leave,
  yield_enter, schedule_one, sched_check, procnum_loop, procnum, Release, page, vma_list,
  address_space, freeproc, reparent_one, reparent,
}

abbrev pub nofile : ℕ
nofile = 128

-- allocproc's first assignments to the slot that it found.
abbrev pub begun : ℕ → Proc → Proc
begun pid p = record p {
  pid = pid;
  vma = 0;
  filelimit = nofile;
  ktime = 1;
  utime = 1;
  sig_pending = 0;
}

-- allocproc from `found` on. The pages are what kalloc returns for the trapframe and for exec_close,
-- the page table what proc_pagetable returns, 0 where they fail. The success, what freeproc handed
-- on, and the slot. The failure of the last kalloc is not tested: the loop then writes through
-- the null pointer, which is a panic.
unfoldable pub alloc_slot :
    (pid trapframe pagetable exec_close : ℕ) → Proc → Outcome (Bool × List Release × Proc)
unfolding freeproc
alloc_slot pid tf pt ec p =
    let q = record (begun pid p) { trapframe = tf } in
    if tf == 0
    then ok (false, [], q)
    else (if pt == 0
        then (let (freed, r) = freeproc (record q { pagetable = 0 }) in ok (false, freed, r))
        else (if ec == 0
            then panic
            else ok (true, [], record q { pagetable = pt; exec_close = ec })))

-- The search of allocproc for an unused slot.
unfoldable pub find_unused : ℕ → ℕ → Table → Option ℕ
find_unused zero k t = none
find_unused (suc left) k t =
    let rest = find_unused left (k + 1) t in if is_unused (t k).state then some k else rest

-- The open files of an exiting process, in order.
pub open_files : List ℕ → List ℕ
open_files [] = []
open_files (f ∷ fs) = let rest = open_files fs in if f == 0 then rest else f ∷ rest

unfoldable pub zeros : List ℕ → List ℕ
zeros [] = []
zeros (f ∷ fs) = 0 ∷ zeros fs

-- exit up to the wakeup of init: the files for fileclose, the entry for eput, the table.
pub exit_begin : (initproc i : ℕ) → Table → Outcome (List ℕ × ℕ × Table)
unfolding open_files zeros wakeup1
exit_begin initproc i t =
    if i == initproc
    then panic
    else (let p = t i in
        let t₁ = set_proc t i (record p { ofile = zeros p.ofile; cwd = 0 }) in
        ok (open_files p.ofile, p.cwd, set_proc t₁ initproc (wakeup1 initproc (t₁ initproc))))

-- `if (original_parent->chan == p && original_parent->state == SLEEPING)`
pub wake_waiter : ℕ → Proc → Proc
wake_waiter i p =
    if same_chan p.chan (proc_chan i) && is_sleeping p.state
    then record p { state = runnable }
    else p

-- exit from the acquire of the parent's lock, `parent` being the original parent, to sched.
pub exit_finish : (initproc parent i status : ℕ) → Table → Table
unfolding reparent wakeup1 wake_waiter
exit_finish initproc parent i status t =
    let t₁ = reparent initproc i t in
    let t₂ = set_proc t₁ parent (wake_waiter i (wakeup1 parent (t₁ parent))) in
    set_proc t₂ i (record (t₂ i) { xstate = status; state = zombie })

-- What a round of wait or wait4pid ends in: a pid, with the status that was copied to the caller's
-- memory (none where the address is 0), -1, or sleep.
pub data WaitEnd : Type 0 where
  returned : ℕ → Option ℕ → WaitEnd
  failed : WaitEnd
  asleep : Chan → WaitEnd

-- The word of 32 bits that copyout is given, where there is an address to copy it to.
abbrev pub copied_status : ℕ → Proc → Option ℕ
copied_status addr child = if addr == 0 then none else some child.xstate

abbrev pub wanted : Option ℕ → ℕ → Bool
wanted none pid = true
wanted (some want) pid = pid == want

-- findchild, `none` standing for the pid -1: the first zombie among the children of process i that
-- are wanted, and the last wanted child looked at.
pub findchild : Option ℕ → ℕ → ℕ → ℕ → Option ℕ → Table → Option ℕ × Option ℕ
findchild want i zero k last t = (none, last)
findchild want i (suc left) k last t =
    let mine = wanted want (t k).pid && is_proc (t k).parent i in
    let rest = findchild want i left (k + 1) (if mine then some k else last) t in
    if mine && is_zombie (t k).state then (some k, some k) else rest

-- The scan of wait: the first zombie child, and havekids.
pub wait_scan : ℕ → ℕ → ℕ → Bool → Table → Option ℕ × Bool
wait_scan i zero k havekids t = (none, havekids)
wait_scan i (suc left) k havekids t =
    let mine = is_proc (t k).parent i in
    let rest = wait_scan i left (k + 1) (mine || havekids) t in
    if mine && is_zombie (t k).state then (some k, true) else rest

-- What wait does with the result of its scan. `addr` is where the status goes, and `copied` whether
-- copyout takes it.
pub wait_act : ℕ → ℕ → Bool → Table → Option ℕ × Bool → WaitEnd × List Release × Table
unfolding freeproc sleep_enter
wait_act i addr copied t (some k, havekids) =
    if not (addr == 0) && not copied
    then (failed, [], t)
    else (let (freed, q) = freeproc (t k) in
        (returned (t k).pid (copied_status addr (t k)), freed, set_proc t k q))
wait_act i addr copied t (none, havekids) =
    if not havekids || not ((t i).killed == 0)
    then (failed, [], t)
    else (asleep (proc_chan i), [], set_proc t i (sleep_enter (proc_chan i) (t i)))

-- One round of wait by process i.
pub wait : ℕ → (addr : ℕ) → (copied : Bool) → Table → WaitEnd × List Release × Table
unfolding wait_scan wait_act
wait i addr copied t = wait_act i addr copied t (wait_scan i nproc 0 false t)

-- `child->xstate <<= 8`, on int
abbrev pub status_shifted : Proc → Proc
status_shifted p = record p { xstate = p.xstate * 256 % 2 ^ 32 }

-- The channel of wait4pid: the process itself for the pid -1, the child looked at last otherwise.
abbrev pub wait_chan : Option ℕ → ℕ → ℕ → Chan
wait_chan none i k = proc_chan i
wait_chan (some want) i k = proc_chan k

-- What wait4pid does with the result of findchild.
pub wait4pid_act :
    Option ℕ → ℕ → ℕ → Bool → Table → Option ℕ × Option ℕ → WaitEnd × List Release × Table
unfolding freeproc sleep_enter
wait4pid_act want i addr copied t (some k, last) =
    let child = status_shifted (t k) in
    if not (addr == 0) && not copied
    then (failed, [], set_proc t k child)
    else (let (freed, q) = freeproc child in
        (returned child.pid (copied_status addr child), freed, set_proc t k q))
wait4pid_act want i addr copied t (none, none) = (failed, [], t)
wait4pid_act want i addr copied t (none, some k) =
    (asleep (wait_chan want i k), [], set_proc t i (sleep_enter (wait_chan want i k) (t i)))

-- One round of wait4pid by process i.
pub wait4pid : Option ℕ → ℕ → (addr : ℕ) → (copied : Bool) → Table → WaitEnd × List Release × Table
unfolding findchild wait4pid_act
wait4pid want i addr copied t = wait4pid_act want i addr copied t (findchild want i nproc 0 none t)
