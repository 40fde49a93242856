-- ===== src/Lock/Mutex.antt =====
-- Mutual exclusion by kernel/spinlock.c among any number of CPUs, each line of acquire and release
-- that touches the lock being one step.
use avx_loong_arch.Prelude.{
  ℕ, ◌<◌, ◌≡◌, ◌≢◌, Bool, true, false, some, arith, ◌==◌, if◌then◌else◌, ok, panic,
}
use avx_loong_arch.Lock.{
  Cpu, push_off, pop_off, Spinlock, initlock, holding, acquire_enter, test_and_set, record_holder,
  release_enter, lock_release,
}

-- Where a CPU stands: outside; in the loop of acquire; past the loop, `cpu` not yet written; with
-- the lock; and in release, `cpu` cleared and `locked` not yet.
pub data Pc : Type 0 where
  outside spinning won inside leaving : Pc

pub record System : Type 0 where
  pub lock : Spinlock
  pub cpus : ℕ → Cpu
  pub pcs : ℕ → Pc

abbrev pub at {ℓ} : {A : Type ℓ} → (ℕ → A) → ℕ → A → ℕ → A
at f i v j = if i == j then v else f j

abbrev pub moved : System → ℕ → Pc → Spinlock → Cpu → System
moved s i pc lk c = record { lock = lk; cpus = at s.cpus i c; pcs = at s.pcs i pc }

-- One step of CPU i; a step that would panic is none.
pub data Step (s : System) : System → Type 0 where
  enter :
      (i : ℕ) (c : Cpu)
      → s.pcs i ≡ outside
      → acquire_enter i s.lock (s.cpus i) ≡ ok c
      → Step s (moved s i spinning s.lock c)
  spin :
      (i : ℕ)
      → s.pcs i ≡ spinning
      → (test_and_set s.lock).0 ≡ true
      → Step s (moved s i spinning (test_and_set s.lock).1 (s.cpus i))
  win :
      (i : ℕ)
      → s.pcs i ≡ spinning
      → (test_and_set s.lock).0 ≡ false
      → Step s (moved s i won (test_and_set s.lock).1 (s.cpus i))
  mark : (i : ℕ) → s.pcs i ≡ won → Step s (moved s i inside (record_holder i s.lock) (s.cpus i))
  leave :
      (i : ℕ) (lk : Spinlock)
      → s.pcs i ≡ inside
      → release_enter i s.lock ≡ ok lk
      → Step s (moved s i leaving lk (s.cpus i))
  free :
      (i : ℕ) (c : Cpu)
      → s.pcs i ≡ leaving
      → pop_off (s.cpus i) ≡ ok c
      → Step s (moved s i outside (lock_release s.lock) c)

pub data Reach (s : System) : System → Type 0 where
  here : Reach s s
  next : {t u : System} → Reach s t → Step t u → Reach s u

-- The program points at which the lock word is this CPU's.
abbrev pub owns : Pc → Bool
owns won = true
owns inside = true
owns leaving = true
owns _ = false

pub record IsExclusive (s : System) : Type 0 where
  pub taken : (i : ℕ) → owns (s.pcs i) ≡ true → s.lock.locked ≡ true
  pub single : (i j : ℕ) → owns (s.pcs i) ≡ true → owns (s.pcs j) ≡ true → i ≡ j
  pub marked : (i : ℕ) → s.pcs i ≡ inside → s.lock.cpu ≡ some i
  pub honest : (i : ℕ) → s.lock.cpu ≡ some i → s.pcs i ≡ inside

Step-IsExclusive : {s t : System} → Step s t → IsExclusive s → IsExclusive t
unfolding acquire_enter test_and_set record_holder release_enter lock_release
Step-IsExclusive (enter i c at_i e) v = record {
  taken = λ j h. ground (arith, v.taken j);
  single = λ j k hj hk. ground (arith, v.single j k);
  marked = λ j h. ground (arith, v.marked j);
  honest = λ j h. ground (arith, v.honest j);
}
Step-IsExclusive (spin i at_i e) v = record {
  taken = λ j h. ground (arith, v.taken j);
  single = λ j k hj hk. ground (arith, v.single j k);
  marked = λ j h. ground (arith, v.marked j);
  honest = λ j h. ground (arith, v.honest j);
}
Step-IsExclusive (win i at_i e) v = record {
  taken = λ j h. ground (arith, v.taken j);
  single = λ j k hj hk. ground (arith, v.single j k, v.taken j, v.taken k);
  marked = λ j h. ground (arith, v.marked j);
  honest = λ j h. ground (arith, v.honest j);
}
Step-IsExclusive (mark i at_i) v = record {
  taken = λ j h. ground (arith, v.taken j, v.taken i);
  single = λ j k hj hk. ground (arith, v.single j k, v.single i k, v.single j i);
  marked = λ j h. ground (arith, v.marked j, v.single i j);
  honest = λ j h. ground (arith, v.honest j);
}
Step-IsExclusive (leave i lk at_i e) v = record {
  taken = λ j h. ground (arith, v.taken j, v.taken i);
  single = λ j k hj hk. ground (arith, v.single j k, v.single i k, v.single j i);
  marked = λ j h. ground (arith, v.marked j, v.single i j);
  honest = λ j h. ground (arith, v.honest j);
}
Step-IsExclusive (free i c at_i e) v = record {
  taken = λ j h. ground (arith, v.single i j);
  single = λ j k hj hk. ground (arith, v.single j k);
  marked = λ j h. ground (arith, v.marked j);
  honest = λ j h. ground (arith, v.honest j);
}

-- A CPU past push_off has interrupts off.
abbrev pub Sheltered : System → Type 0
Sheltered s = (i : ℕ) → s.pcs i ≢ outside → ((s.cpus i).enabled ≡ false) × (0 < (s.cpus i).noff)

Step-Sheltered : {s t : System} → Step s t → Sheltered s → Sheltered t
unfolding acquire_enter test_and_set record_holder release_enter lock_release push_off
Step-Sheltered (enter i c at_i e) v = λ j h. ground (arith, v j)
Step-Sheltered (spin i at_i e) v = λ j h. ground (arith, v j)
Step-Sheltered (win i at_i e) v = λ j h. ground (arith, v j)
Step-Sheltered (mark i at_i) v = λ j h. ground (arith, v j)
Step-Sheltered (leave i lk at_i e) v = λ j h. ground (arith, v j)
Step-Sheltered (free i c at_i e) v = λ j h. ground (arith, v j)

Reach-IsExclusive :
    {s t : System} → IsExclusive s → Sheltered s → Reach s t → IsExclusive t × Sheltered t
Reach-IsExclusive v d here = (v, d)
Reach-IsExclusive v d (next r st) =
    let (v', d') = Reach-IsExclusive v d r in (Step-IsExclusive st v', Step-Sheltered st d')

-- The lock as initlock leaves it, with every CPU outside.
pub record IsStart (s : System) : Type 0 where
  pub fresh : s.lock ≡ initlock
  pub away : (i : ℕ) → s.pcs i ≡ outside

start-IsExclusive : {s : System} → IsStart s → IsExclusive s × Sheltered s
unfolding initlock
start-IsExclusive v = (
  record {
    taken = λ i h. ground (arith, v.away i);
    single = λ i j h k. ground (arith, v.away i);
    marked = λ i h. ground (arith, v.away i);
    honest = λ i h. ground (arith, v.fresh);
  },
  λ i h. absurd (h (v.away i)),
)

-- From a fresh lock, in every interleaving of the CPUs' steps: no two CPUs are between acquire and
-- release at once, and the tests of acquire, release and pop_off never panic.
pub Reach-exclusive :
    (s t : System)
    → IsStart s
    → Reach s t
    → ((i j : ℕ) → t.pcs i ≡ inside → t.pcs j ≡ inside → i ≡ j)
      × ((i : ℕ) → t.pcs i ≡ outside → acquire_enter i t.lock (t.cpus i) ≢ panic)
      × ((i : ℕ) → t.pcs i ≡ inside → release_enter i t.lock ≢ panic)
      × ((i : ℕ) → t.pcs i ≡ leaving → pop_off (t.cpus i) ≢ panic)
unfolding acquire_enter release_enter pop_off holding
Reach-exclusive s t start r =
    let (v₀, d₀) = start-IsExclusive start in
    let (v, d) = Reach-IsExclusive v₀ d₀ r in
    (
      λ i j h k. v.single i j (rw h) (rw k),
      λ i h. ground (arith, v.honest i),
      λ i h. ground (arith, v.marked i, v.taken i),
      λ i h. ground (arith, d i),
    )
