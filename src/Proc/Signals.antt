-- ===== src/Proc/Signals.antt =====
-- kill, wakeup and procnum of kernel/proc.c: which processes they reach, and what they change.
use Prim.Native.Nat.{bit_or}
use mathlib.Core.Path.{subst}
use avx_loong_arch.Prelude.{
  ℕ, zero, suc, ◌+◌, ◌≤◌, ◌<◌, min, ◌≡◌, refl, ◌≢◌, inl, inr, Option, none, some, arith, ◌==◌,
  InRange, InRange-cons, Bool-cases, eq_of_==, ne_of_==, ==_refl,
}
use avx_loong_arch.Proc.{sleeping, Proc, nproc, Table, set_proc, sig_bit, kill_one, kill_loop, kill}

-- The outcome of kill on the `left` processes from k on.
abbrev Killed : ℕ → ℕ → ℕ → ℕ → Table → Option Table → Type 0
Killed pid sig left k t none = InRange (λ j. (t j).pid ≢ pid) k left
Killed pid sig left k t (some u) =
    (j : ℕ) × (k ≤ j)
    × (j < k + left)
    × ((t j).pid ≡ pid)
    × ((h : ℕ) → k ≤ h → h < j → (t h).pid ≢ pid)
    × (u ≡ set_proc t j (kill_one sig (t j)))

Killed-suc :
    (pid sig left k : ℕ) (t : Table) (r : Option Table)
    → (t k).pid ≢ pid
    → Killed pid sig left (k + 1) t r
    → Killed pid sig (suc left) k t r
Killed-suc pid sig left k t none ne all = InRange-cons (λ j. (t j).pid ≢ pid) k left ne all
Killed-suc pid sig left k t (some u) ne (j, lo, hi, e, before, same) = (
  j,
  omega arith,
  omega arith,
  e,
  λ h l m. elim (Bool-cases (k == h)) [
    | inl here ↦ subst (λ x. (t x).pid ≢ pid) (eq_of_== here) ne
    | inr past ↦ let apart = ne_of_== past in before h (omega arith) m
  ],
  same,
)

kill_loop-Killed :
    (pid sig left k : ℕ) (t : Table) → Killed pid sig left k t (kill_loop pid sig left k t)
unfolding kill_loop
kill_loop-Killed pid sig zero k t = λ j lo hi. absurd (omega arith)
kill_loop-Killed pid sig (suc left) k t = elim (Bool-cases ((t k).pid == pid)) [
  | inl hit ↦
      rw hit (k, omega arith, omega arith, eq_of_== hit, λ h l m. absurd (omega arith), refl)
  | inr miss ↦ rw miss (
      Killed-suc pid sig left k t (kill_loop pid sig left (k + 1) t) (ne_of_== miss)
        (kill_loop-Killed pid sig left (k + 1) t))
]

-- What kill does to the one process that it reaches.
kill_one_lem :
    (sig : ℕ) (p : Proc)
    → let q = kill_one sig p in
      (q.state ≢ sleeping)
      × (p.state ≢ sleeping → q.state ≡ p.state)
      × (p.killed ≡ 0 → q.killed ≡ sig)
      × (p.killed ≢ 0 → q.killed ≡ min p.killed sig)
      × (q.pid ≡ p.pid)
      × (q.sig_pending ≡ bit_or p.sig_pending (sig_bit sig))
unfolding kill_one
kill_one_lem sig p = (ground arith, ground arith, ground arith, λ ne. ground arith, refl, refl)

-- How the table comes out of kill, whose result is r.
abbrev pub KillEnd : ℕ → ℕ → Table → Option Table → Type 0
KillEnd pid sig t none = InRange (λ j. (t j).pid ≢ pid) 0 nproc
KillEnd pid sig t (some u) =
    (j : ℕ) × (j < nproc)
    × ((t j).pid ≡ pid)
    × ((h : ℕ) → h < j → (t h).pid ≢ pid)
    × ((h : ℕ) → h ≢ j → u h ≡ t h)
    × ((u j).state ≢ sleeping)
    × ((t j).killed ≡ 0 → (u j).killed ≡ sig)
    × ((t j).killed ≢ 0 → (u j).killed ≡ min (t j).killed sig)
    × ((u j).sig_pending ≡ bit_or (t j).sig_pending (sig_bit sig))

KillEnd-of_Killed :
    (pid sig : ℕ) (t : Table) (r : Option Table) → Killed pid sig nproc 0 t r → KillEnd pid sig t r
KillEnd-of_Killed pid sig t none all = all
KillEnd-of_Killed pid sig t (some u) (j, lo, hi, found, before, same) =
    let here : u j ≡ kill_one sig (t j) = rw (same, ==_refl j) in
    let (awake, kept, first, least, pid_kept, pending) = kill_one_lem sig (t j) in
    (
      j,
      omega arith,
      found,
      λ h lt. before h (omega arith) lt,
      λ h ne. rw same (ground arith),
      rw here awake,
      rw here first,
      rw here least,
      rw here pending,
    )

-- kill returns -1 only when no process has the pid. Otherwise it changes only the first process
-- with the pid: that one does not sleep any more, has the signal pending, and is marked killed by
-- the signal, or by the smaller signal number if it was marked before.
pub kill_lem : (pid sig : ℕ) (t : Table) → KillEnd pid sig t (kill pid sig t)
unfolding kill
kill_lem pid sig t =
    KillEnd-of_Killed pid sig t (kill_loop pid sig nproc 0 t) (kill_loop-Killed pid sig nproc 0 t)
