-- ===== src/Timer.antt =====
-- kernel/timer.c: the tick counter and the interval timers. Only the timers below NTIMERS are used.
pub mod Expiry
mod Examples
use avx_loong_arch.Prelude.{
  ℕ, zero, suc, ◌+◌, ◌-◌, ◌*◌, ◌/◌, ◌%◌, ◌^◌, ◌≤◌, ◌<◌, min, ◌≡◌, refl, sym, ap, ap₂, ◌∙◌, ◌≢◌, ◌↔◌,
  ◌⊎◌, inl, inr, Bool, true, false, ◌&&◌, ◌||◌, not, Option, none, some, List, [], ◌∷◌, ◌++◌,
  append-nil, append_assoc, arith, ltb, leb, ◌==◌, if◌then◌else◌, InRange, InRange-cons, Bool-cases,
  Option-cases, eq_of_==, ne_of_==, ==_refl, ==_of_ne, length, get_elem?, replicate, All, has,
  Outcome, ok, panic, out_of_fuel, ◌>>=◌,
}
use avx_loong_arch.Proc.{
  ProcState, unused, used, sleeping, runnable, running, zombie, is_unused, is_sleeping, is_runnable,
  is_running, is_zombie, Chan, null_chan, proc_chan, addr_chan, same_chan, is_proc, Proc, nproc,
  Table, set_proc, wake_one, wakeup, wakeup1, kill_one, kill_loop, kill, sleep_enter, sleep_leave,
  yield_enter, schedule_one, sched_check, procnum_loop, procnum, Release, page, vma_list,
  address_space, freeproc, reparent_one, reparent,
}
use avx_loong_arch.Proc

-- The four numbers of struct itimerval.
pub record Itimerval : Type 0 where
  pub interval_sec : ℕ
  pub interval_usec : ℕ
  pub value_sec : ℕ
  pub value_usec : ℕ

-- struct timer; a pid of 0 is that of a free timer.
pub record Timer : Type 0 where
  pub itimer : Itimerval
  pub which : ℕ
  pub pid : ℕ
  pub ticks : ℕ

abbrev pub ntimers : ℕ
ntimers = 10

abbrev pub sigalrm : ℕ
sigalrm = 14

-- The variables of timer.c.
pub record Clock : Type 0 where
  pub ticks : ℕ
  pub hastimer : Bool
  pub timers : ℕ → Timer

abbrev pub set_timer : (ℕ → Timer) → ℕ → Timer → ℕ → Timer
set_timer ts i t k = if i == k then t else ts k

abbrev pub no_timer : Timer
no_timer = record {
  itimer = record { interval_sec = 0; interval_usec = 0; value_sec = 0; value_usec = 0 };
  which = 0;
  pid = 0;
  ticks = 0;
}

pub timerinit : Clock
timerinit = record { ticks = 0; hastimer = false; timers = λ i. no_timer }

-- `ticks - timers[i].ticks >= 80`, on uint, for a timer in use
abbrev pub is_due : ℕ → Timer → Bool
is_due ticks t = not (t.pid == 0) && leb 80 ((ticks + 2 ^ 32 - t.ticks) % 2 ^ 32)

-- kill of a process, whose result is not looked at.
abbrev pub killed_table : ℕ → ℕ → Table → Table
killed_table pid sig t = elim (kill pid sig t) [ none ↦ t | some u ↦ u ]

-- What timer_tick does with timer i, which is due.
abbrev pub expire : ℕ → Clock × Table → Clock × Table
expire i (c, procs) = (
  record c { timers = set_timer c.timers i (record (c.timers i) { pid = 0 }); hastimer = false },
  killed_table (c.timers i).pid sigalrm procs,
)

abbrev pub tick_one : ℕ → Clock × Table → Clock × Table
tick_one i (c, procs) = if is_due c.ticks (c.timers i) then expire i (c, procs) else (c, procs)

-- The loop of timer_tick from timer i on, with `left` timers to look at.
pub tick_loop : ℕ → ℕ → Clock × Table → Clock × Table
tick_loop zero i s = s
tick_loop (suc left) i s = tick_loop left (i + 1) (tick_one i s)

-- timer_tick; `ticks_chan` is the address of `ticks`.
pub timer_tick : ℕ → Clock × Table → Clock × Table
timer_tick ticks_chan (c, procs) =
    let c' : Clock = record c { ticks = (c.ticks + 1) % 2 ^ 32 } in
    let procs' = wakeup (addr_chan ticks_chan) procs in
    if c'.hastimer then tick_loop ntimers 0 (c', procs') else (c', procs')

-- The first loop of setitimer: the timer of the process and kind.
pub find_timer : ℕ → ℕ → ℕ → ℕ → (ℕ → Timer) → Option ℕ
find_timer pid which zero i ts = none
find_timer pid which (suc left) i ts =
    let rest = find_timer pid which left (i + 1) ts in
    if ((ts i).pid == pid) && ((ts i).which == which) then some i else rest

-- The second one: a free timer is taken. Its interval is not set.
pub take_timer : ℕ → ℕ → ℕ → ℕ → Clock → Clock
take_timer pid which zero i c = c
take_timer pid which (suc left) i c =
    let rest = take_timer pid which left (i + 1) c in
    if (c.timers i).pid == 0
    then record c {
      timers =
          set_timer c.timers i (record (c.timers i) { pid = pid; which = which; ticks = c.ticks });
    }
    else rest

abbrev pub is_zero : Itimerval → Bool
is_zero v =
    (v.value_sec == 0) && (v.value_usec == 0) && (v.interval_sec == 0) && (v.interval_usec == 0)

abbrev pub arm : ℕ → ℕ → Itimerval → Clock → Option ℕ → Clock
arm pid which v c none = take_timer pid which ntimers 0 c
arm pid which v c (some i) = record c {
  timers = set_timer c.timers i (record { itimer = v; which = which; pid = pid; ticks = c.ticks });
}

-- What setitimer copies out to ovalue: the interval of the timer that it found.
abbrev pub old_value : Clock → Option ℕ → Option Itimerval
old_value c none = none
old_value c (some i) = some (c.timers i).itimer

abbrev pub arm_value : ℕ → ℕ → Clock → Option ℕ → Option Itimerval → Clock
arm_value pid which c found none = c
arm_value pid which c found (some v) =
    if is_zero v then c else record (arm pid which v c found) { hastimer = true }

-- setitimer of the process `pid`, with the value or none for NULL.
pub setitimer : ℕ → ℕ → Option Itimerval → Clock → Option Itimerval × Clock
setitimer pid which value c =
    let found = find_timer pid which ntimers 0 c.timers in
    (old_value c found, arm_value pid which c found value)

-- get_timeval on what r_time returned, for a clock of `clk_freq` ticks in a second.
pub get_timeval : ℕ → ℕ → ℕ × ℕ
get_timeval clk_freq time = (time / clk_freq, time / (clk_freq / 1000))

-- A number of ticks, with no other operation between them.
pub tick_n : ℕ → ℕ → Clock × Table → Clock × Table
tick_n zero ticks_chan s = s
tick_n (suc n) ticks_chan s = tick_n n ticks_chan (timer_tick ticks_chan s)
