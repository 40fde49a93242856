-- ===== src/Lock.antt =====
-- kernel/intr.c and kernel/spinlock.c: nested disabling of interrupts, and spin locks.
pub mod Nesting
pub mod Mutex
mod Examples
use avx_loong_arch.Prelude.{
  ℕ, ◌+◌, ◌-◌, Bool, true, false, ◌&&◌, Option, none, some, ltb, ◌==◌, if◌then◌else◌, Outcome, ok,
  panic, out_of_fuel, ◌>>=◌,
}

-- The fields of struct cpu that intr.c uses, and the CPU's interrupt-enable bit (intr_get).
pub record Cpu : Type 0 where
  pub noff : ℕ
  pub intena : Bool
  pub enabled : Bool

pub push_off : Cpu → Cpu
push_off c = record c {
  enabled = false;
  intena = (if c.noff == 0 then c.enabled else c.intena);
  noff = c.noff + 1;
}

pub pop_off : Cpu → Outcome Cpu
pop_off c =
    if c.enabled
    then panic
    else (if ltb c.noff 1
        then panic
        else ok (record c {
          noff = c.noff - 1;
          enabled = (if (c.noff - 1 == 0) && c.intena then true else c.enabled);
        }))

-- struct spinlock; a CPU is its number, and `none` the null pointer.
pub record Spinlock : Type 0 where
  pub locked : Bool
  pub cpu : Option ℕ

pub initlock : Spinlock
initlock = record { locked = false; cpu = none }

abbrev pub is_cpu : Option ℕ → ℕ → Bool
is_cpu none me = false
is_cpu (some c) me = c == me

pub holding : ℕ → Spinlock → Bool
holding me lk = lk.locked && is_cpu lk.cpu me

-- acquire up to its loop: interrupts off, and a panic if this CPU holds the lock.
pub acquire_enter : ℕ → Spinlock → Cpu → Outcome Cpu
acquire_enter me lk c = if holding me lk then panic else ok (push_off c)

-- __sync_lock_test_and_set(&lk->locked, 1): the old value and the lock.
pub test_and_set : Spinlock → Bool × Spinlock
test_and_set lk = (lk.locked, record lk { locked = true })

-- The last line of acquire.
pub record_holder : ℕ → Spinlock → Spinlock
record_holder me lk = record lk { cpu = some me }

-- release up to its barrier.
pub release_enter : ℕ → Spinlock → Outcome Spinlock
release_enter me lk = if holding me lk then ok (record lk { cpu = none }) else panic

-- __sync_lock_release(&lk->locked)
pub lock_release : Spinlock → Spinlock
lock_release lk = record lk { locked = false }

-- acquire and release where no other CPU interferes: the loop ends at once on a free lock, and
-- spins for ever on one that is held (`out_of_fuel`).
pub acquire : ℕ → Spinlock → Cpu → Outcome (Spinlock × Cpu)
unfolding acquire_enter test_and_set record_holder
acquire me lk c = acquire_enter me lk c >>= λ c'.
    (let (old, lk') = test_and_set lk in if old then out_of_fuel else ok (record_holder me lk', c'))

pub release : ℕ → Spinlock → Cpu → Outcome (Spinlock × Cpu)
unfolding release_enter lock_release
release me lk c = release_enter me lk >>= λ lk'. (pop_off c >>= λ c'. ok (lock_release lk', c'))
