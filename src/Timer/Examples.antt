-- ===== src/Timer/Examples.antt =====
-- The theorems of kernel/timer.c on two timers, of which one is due at tick 80.
use avx_loong_arch.Prelude.{ℕ, zero, suc, ◌≡◌, refl, ap, true, false, none, [], arith, InRange}
use avx_loong_arch.Timer.Expiry.{after_tick, timer_tick_lem, pending_never_expires}
use avx_loong_arch.Timer.{Timer, ntimers, Clock, no_timer, timer_tick, tick_n}
use avx_loong_arch.Proc.{unused, null_chan, Proc}

abbrev two_timers : ℕ → Timer
two_timers zero = record no_timer { pid = 3; ticks = 0 }
two_timers (suc zero) = record no_timer { pid = 4; ticks = 50 }
two_timers (suc (suc i)) = no_timer

abbrev clock : Clock
clock = record { ticks = 79; hastimer = true; timers = two_timers }

abbrev idle : Proc
idle = record {
  state = unused;
  parent = none;
  chan = null_chan;
  killed = 0;
  xstate = 0;
  pid = 0;
  sz = 0;
  pagetable = 0;
  trapframe = 0;
  exec_close = 0;
  vma = 0;
  ofile = [];
  cwd = 0;
  name = [];
  ktime = 0;
  utime = 0;
  filelimit = 0;
  sig_pending = 0;
}

-- The first timer is freed, the second one is not, and no timer is known to be set.
two_timers_tick : ((timer_tick 64 (clock, λ i. idle)).0.timers 0).pid ≡ 0
two_timers_tick =
    ap (λ t. t.pid) ((timer_tick_lem 64 clock (λ i. idle)).2 refl 0 (omega arith) (omega arith))

timer_tick_lem_example :
    let r = (timer_tick 64 (clock, λ i. idle)).0 in
    (r.ticks ≡ 80)
    × (true ≡ false → (j : ℕ) → r.timers j ≡ clock.timers j)
    × (true ≡ true → InRange (λ j. r.timers j ≡ after_tick 80 (clock.timers j)) 0 ntimers)
    × (r.hastimer ≡ false)
timer_tick_lem_example = timer_tick_lem 64 clock (λ i. idle)

pending_never_expires_example : (tick_n 1000 64 (clock, λ i. idle)).0.timers 1 ≡ two_timers 1
pending_never_expires_example =
    pending_never_expires 999 64 clock (λ i. idle) 0 1 (omega arith) refl refl (omega arith) refl
