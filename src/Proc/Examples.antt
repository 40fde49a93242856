-- ===== src/Proc/Examples.antt =====
-- The theorems of kernel/proc.c at a table of three processes: init (0), a parent (1), its child (2).
use avx_loong_arch.Prelude.{refl, true, none, some, [], arith, ◌==◌, if◌then◌else◌}
use avx_loong_arch.Proc.Life.Wait4pid
use avx_loong_arch.Proc.Life.Wait4pid.{wait4pid-Waited}
use avx_loong_arch.Proc.Life.{exit_finish, wait4pid}
use avx_loong_arch.Proc.Life.NoLost.{NoLost}
use avx_loong_arch.Proc.Life.Wakeups.{
  Copies, set_copy, exit_copies, exits, Reach, here, next, Reach-NoLost,
}
use avx_loong_arch.Proc.{unused, runnable, running, null_chan, Proc, Table}

abbrev free_slot : Proc
free_slot = record {
  state = unused;
  parent = none;
  chan = null_chan;
  killed = 0;
  xstate = 0;
  pid = 0;
  sz = 0;
  pagetable = 0;
  trapframe = 0;
  exec_close = 0;
  vma = 0;
  ofile = [];
  cwd = 0;
  name = [];
  ktime = 0;
  utime = 0;
  filelimit = 0;
  sig_pending = 0;
}

abbrev child : Proc
child = record free_slot { state = running; parent = some 1; pid = 3; exec_close = 0x5000 }

abbrev family : Table
family i =
    if i == 0
    then record free_slot { state = runnable; pid = 1 }
    else (if i == 1
        then record free_slot { state = runnable; parent = some 0; pid = 2 }
        else (if i == 2 then child else free_slot))

family-NoLost : NoLost 0 family
family-NoLost = record {
  rootless = λ i. ground arith;
  no_self = λ k. ground arith;
  any = λ i k ne lt c sl ch dead. ground arith;
  one = λ i k ne lt c sl ch dead. ground arith;
}

-- The child copies its parent, which then exits itself and gives the child to init. The child goes on
-- with the parent that it copied.
abbrev orphaned : Table
orphaned = exit_finish 0 1 2 7 (exit_finish 0 0 1 5 family)

abbrev copies_after : Copies
copies_after =
    set_copy (set_copy (set_copy (set_copy (λ i. none) 2 (some 1)) 1 (some 0)) 1 none) 2 none

orphaned-Reach : Reach 0 family (λ i. none) orphaned copies_after
orphaned-Reach =
    next
      (next (next (next here (exit_copies 2)) (exit_copies 1))
        (exits 1 0 5 (omega arith) (omega arith) refl))
      (exits 2 1 7 (omega arith) (omega arith) refl)

wait4pid-Waited_example :
    Wait4pid.Waited (some 3) 0 0x1000 true orphaned (wait4pid (some 3) 0 0x1000 true orphaned)
wait4pid-Waited_example = wait4pid-Waited (some 3) 0 0x1000 true orphaned

Reach-NoLost_example : NoLost 0 orphaned
Reach-NoLost_example = Reach-NoLost 0 family orphaned copies_after family-NoLost orphaned-Reach
