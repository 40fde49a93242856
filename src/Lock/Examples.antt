-- ===== src/Lock/Examples.antt =====
-- The theorems of kernel/spinlock.c and kernel/intr.c at two CPUs.
use avx_loong_arch.Prelude.{ℕ, ◌≡◌, refl, ◌≢◌, true, false, panic}
use avx_loong_arch.Lock.Mutex.{
  outside, spinning, won, inside, leaving, System, moved, enter, win, Reach, here, next, IsStart,
  Reach-exclusive,
}
use avx_loong_arch.Lock.Nesting.{IsNested}
use avx_loong_arch.Lock.{
  Cpu, push_off, pop_off, initlock, holding, acquire_enter, test_and_set, release_enter,
}

-- A CPU with its interrupts on.
abbrev open_cpu : Cpu
open_cpu = record { noff = 0; intena = false; enabled = true }

open_cpu-IsNested : IsNested open_cpu
open_cpu-IsNested = record { off = λ ne. absurd (ne refl) }

-- All CPUs outside; then CPU 0 in the loop of acquire; then past it.
abbrev first : System
first = record { lock = initlock; cpus = λ i. open_cpu; pcs = λ i. outside }

abbrev first_spins : System
first_spins = moved first 0 spinning first.lock (push_off open_cpu)

abbrev first_won : System
first_won = moved first_spins 0 won (test_and_set first.lock).1 (push_off open_cpu)

first-IsStart : IsStart first
first-IsStart = record { fresh = refl; away = λ i. refl }

first_won-Reach : Reach first first_won
unfolding acquire_enter test_and_set initlock holding
first_won-Reach = next (next here (enter 0 (push_off open_cpu) refl refl)) (win 0 refl refl)

Reach-exclusive_example :
    ((i j : ℕ) → first_won.pcs i ≡ inside → first_won.pcs j ≡ inside → i ≡ j)
    × ((i : ℕ)
        → first_won.pcs i ≡ outside
        → acquire_enter i first_won.lock (first_won.cpus i) ≢ panic)
    × ((i : ℕ) → first_won.pcs i ≡ inside → release_enter i first_won.lock ≢ panic)
    × ((i : ℕ) → first_won.pcs i ≡ leaving → pop_off (first_won.cpus i) ≢ panic)
Reach-exclusive_example = Reach-exclusive first first_won first-IsStart first_won-Reach
