-- ===== src/Proc.antt =====
-- kernel/proc.c: the process table. The code that runs under a process's lock is one step; what
-- the handlers of other parts are called with (pages for kfree, files for fileclose, the entry for
-- eput) is returned as a list.
pub mod Life
pub mod Fork
pub mod Signals
mod Examples
use Prim.Native.Nat.{bit_or}
use avx_loong_arch.Prelude.{
  ℕ, zero, suc, ◌+◌, ◌-◌, ◌^◌, Bool, true, false, ◌&&◌, ◌||◌, not, Option, none, some, List, ◌∷◌,
  ◌++◌, ltb, ◌==◌, if◌then◌else◌, [],
}

-- enum procstate
pub data ProcState : Type 0 where
  unused used sleeping runnable running zombie : ProcState

abbrev pub is_unused : ProcState → Bool
is_unused unused = true
is_unused _ = false

abbrev pub is_sleeping : ProcState → Bool
is_sleeping sleeping = true
is_sleeping _ = false

abbrev pub is_runnable : ProcState → Bool
is_runnable runnable = true
is_runnable _ = false

abbrev pub is_running : ProcState → Bool
is_running running = true
is_running _ = false

abbrev pub is_zombie : ProcState → Bool
is_zombie zombie = true
is_zombie _ = false

-- The address slept on: null, that of a process, or another one.
pub data Chan : Type 0 where
  null_chan : Chan
  proc_chan : ℕ → Chan
  addr_chan : ℕ → Chan

abbrev pub same_chan : Chan → Chan → Bool
same_chan null_chan null_chan = true
same_chan (proc_chan i) (proc_chan j) = i == j
same_chan (addr_chan a) (addr_chan b) = a == b
same_chan _ _ = false

abbrev pub is_proc : Option ℕ → ℕ → Bool
is_proc none i = false
is_proc (some j) i = j == i

-- The fields of struct proc that the process table's code reads and writes. A process is its index
-- in `proc`; a page, a page table or an entry is its address, 0 for null.
pub record Proc : Type 0 where
  pub state : ProcState
  pub parent : Option ℕ
  pub chan : Chan
  pub killed : ℕ
  pub xstate : ℕ
  pub pid : ℕ
  pub sz : ℕ
  pub pagetable : ℕ
  pub trapframe : ℕ
  pub exec_close : ℕ
  pub vma : ℕ
  pub ofile : List ℕ
  pub cwd : ℕ
  pub name : List ℕ
  pub ktime : ℕ
  pub utime : ℕ
  pub filelimit : ℕ
  pub sig_pending : ℕ

abbrev pub nproc : ℕ
nproc = 50

-- The array `proc`, of which only the indices below NPROC are used. A loop over the whole array
-- that treats each process alone is a function of the index.
abbrev pub Table : Type 0
Table = ℕ → Proc

abbrev pub set_proc : Table → ℕ → Proc → Table
set_proc t i p k = if i == k then p else t k

-- wakeup's body for one process.
pub wake_one : Chan → Proc → Proc
wake_one c p =
    if is_sleeping p.state && same_chan p.chan c then record p { state = runnable } else p

pub wakeup : Chan → Table → Table
wakeup c t k = if ltb k nproc then wake_one c (t k) else t k

-- wakeup1 of process i, whose lock the caller holds.
pub wakeup1 : ℕ → Proc → Proc
wakeup1 i p =
    if same_chan p.chan (proc_chan i) && is_sleeping p.state
    then record p { state = runnable }
    else p

-- kill's body for the process that it finds.
-- `1 << sig` on int, as a word of 64 bits: bit 31 is its sign. A shift by 32 or more is undefined in
-- C; sig is below 32.
abbrev pub sig_bit : ℕ → ℕ
sig_bit sig = if sig == 31 then 2 ^ 64 - 2 ^ 31 else 2 ^ sig

pub kill_one : ℕ → Proc → Proc
kill_one sig p = record p {
  sig_pending = bit_or p.sig_pending (sig_bit sig);
  killed = (if (p.killed == 0) || ltb sig p.killed then sig else p.killed);
  state = (if is_sleeping p.state then runnable else p.state);
}

-- kill from index k on, with `left` processes to look at; `none` is the return of -1.
pub kill_loop : ℕ → ℕ → ℕ → ℕ → Table → Option Table
kill_loop pid sig zero k t = none
kill_loop pid sig (suc left) k t =
    let rest = kill_loop pid sig left (k + 1) t in
    if (t k).pid == pid then some (set_proc t k (kill_one sig (t k))) else rest

pub kill : ℕ → ℕ → Table → Option Table
kill pid sig t = kill_loop pid sig nproc 0 t

-- sleep up to sched: the process sleeps on c. After sched it clears its channel.
pub sleep_enter : Chan → Proc → Proc
sleep_enter c p = record p { chan = c; state = sleeping }

pub sleep_leave : Proc → Proc
sleep_leave p = record p { chan = null_chan }

pub yield_enter : Proc → Proc
yield_enter p = record p { state = runnable }

-- The scheduler's choice: a runnable process runs, any other is passed over.
pub schedule_one : Proc → Bool × Proc
schedule_one p = if is_runnable p.state then (true, record p { state = running }) else (false, p)

-- The tests of sched, in its order: the lock held, one lock only, not running, interrupts off.
pub sched_check : Bool → ℕ → ProcState → Bool → Bool
sched_check holds noff s enabled = holds && (noff == 1) && not (is_running s) && not enabled

pub procnum_loop : ℕ → ℕ → Table → ℕ
procnum_loop zero k t = 0
procnum_loop (suc left) k t = (if is_unused (t k).state then 0 else 1) + procnum_loop left (k + 1) t

pub procnum : Table → ℕ
procnum t = procnum_loop nproc 0 t

-- What freeproc hands to other parts.
pub data Release : Type 0 where
  page : ℕ → Release
  vma_list : ℕ → Release
  address_space : (pagetable sz : ℕ) → Release

pub freeproc : Proc → List Release × Proc
freeproc p =
    let pages = if p.trapframe == 0 then [] else page p.trapframe ∷ [] in
    let space =
      if p.pagetable == 0 then [] else vma_list p.vma ∷ address_space p.pagetable p.sz ∷ [] in
    (
      pages ++ (page p.exec_close ∷ space),
      record p {
        trapframe = 0;
        pagetable = 0;
        vma = 0;
        sz = 0;
        pid = 0;
        parent = none;
        name = [];
        chan = null_chan;
        killed = 0;
        xstate = 0;
        state = unused;
      },
    )

-- reparent of process i, with `initproc` the first process.
pub reparent_one : ℕ → ℕ → Proc → Proc
reparent_one initproc i p = if is_proc p.parent i then record p { parent = some initproc } else p

pub reparent : ℕ → ℕ → Table → Table
reparent initproc i t k = if ltb k nproc then reparent_one initproc i (t k) else t k
