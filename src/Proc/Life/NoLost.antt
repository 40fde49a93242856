-- ===== src/Proc/Life/NoLost.antt =====
-- The invariant of kernel/proc.c that no wakeup of wait or wait4pid is lost, and the operations that
-- keep it: waiting, killing and waking.
use avx_loong_arch.Prelude.{
  ℕ, zero, suc, ◌+◌, ◌<◌, ◌≡◌, refl, ◌≢◌, inl, inr, Bool, false, Option, none, some, List, arith,
  ◌==◌, InRange, Bool-cases,
}
use avx_loong_arch.Proc.Life.Wait4pid
use avx_loong_arch.Proc.Life.Wait.{IsChild, NotReapable, Waited}
use avx_loong_arch.Proc.Life.{WaitEnd, returned, failed, asleep, status_shifted}
use avx_loong_arch.Proc.{
  sleeping, zombie, Chan, proc_chan, is_proc, Proc, nproc, Table, set_proc, wake_one, wakeup,
  kill_one, kill_loop, sleep_enter, Release, freeproc,
}

pub record NoLost (initproc : ℕ) (t : Table) : Type 0 where
  pub rootless : (i : ℕ) → is_proc (t initproc).parent i ≡ false
  pub no_self : (k : ℕ) → is_proc (t k).parent k ≡ false
  pub any :
      (i k : ℕ)
      → i ≢ initproc
      → k < nproc
      → IsChild t i k
      → (t i).state ≡ sleeping
      → (t i).chan ≡ proc_chan i
      → (t k).state ≢ zombie
  pub one :
      (i k : ℕ)
      → i ≢ initproc
      → k < nproc
      → IsChild t i k
      → (t i).state ≡ sleeping
      → (t i).chan ≡ proc_chan k
      → (t k).state ≢ zombie

module _ (initproc : ℕ) (t : Table) (v : NoLost initproc t) where
  -- A process that does not sleep in wait afterwards, is no zombie and keeps its parent.
  pub calm-NoLost :
      (i : ℕ) (p : Proc)
      → p.parent ≡ (t i).parent
      → (p.state ≡ zombie → (t i).state ≡ zombie)
      → (p.state ≡ sleeping → (t i).state ≡ sleeping)
      → ((x : ℕ) → p.state ≡ sleeping → p.chan ≡ proc_chan x → (t i).chan ≡ proc_chan x)
      → NoLost initproc (set_proc t i p)
  calm-NoLost i p same z s c = record {
    rootless = λ j. ground (arith, v.rootless j);
    no_self = λ k. ground (arith, v.no_self k);
    any = λ j k ne lt child sl ch dead. ground (arith, v.any j k, c j);
    one = λ j k ne lt child sl ch dead. ground (arith, v.one j k, c k);
  }

  freed-NoLost : (k : ℕ) → NoLost initproc (set_proc t k (freeproc (t k)).1)
  unfolding freeproc
  freed-NoLost i = record {
    rootless = λ j. ground (arith, v.rootless j);
    no_self = λ k. ground (arith, v.no_self k);
    any = λ j k ne lt child sl ch dead. ground (arith, v.any j k);
    one = λ j k ne lt child sl ch dead. ground (arith, v.one j k);
  }

  pub asleep-NoLost :
      (i : ℕ) (c : Chan)
      → (c ≡ proc_chan i → InRange (NotReapable t i) 0 nproc)
      → ((k : ℕ) → c ≡ proc_chan k → k < nproc → NotReapable t i k)
      → NoLost initproc (set_proc t i (sleep_enter c (t i)))
  unfolding sleep_enter
  asleep-NoLost i c all this = record {
    rootless = λ j. ground (arith, v.rootless j);
    no_self = λ k. ground (arith, v.no_self k);
    any =
        λ j k ne lt child sl ch dead. ground (arith, v.any j k, (λ (e : c ≡ proc_chan i). all e k));
    one = λ j k ne lt child sl ch dead. ground (arith, v.one j k, this k);
  }

pub wait-NoLost :
    (initproc i addr : ℕ) (copied : Bool) (t : Table)
    → NoLost initproc t
    → (r : WaitEnd × List Release × Table) → Waited i addr copied t r
    → NoLost initproc r.2
wait-NoLost initproc i addr copied t v (returned pid status, freed, u)
      (k, lt, c, z, e, st, f, same) =
    rw same (freed-NoLost initproc t v k)
wait-NoLost initproc i addr copied t v (failed, freed, u) (same, f, rest) = rw same v
wait-NoLost initproc i addr copied t v (asleep c, freed, u) (e, same, f, alive, kid, all) =
    rw same (
      asleep-NoLost initproc t v i (proc_chan i) (λ _. all)
        (λ k ch lt. all k (omega arith) (omega arith)))

pub wait4pid-NoLost :
    (initproc : ℕ) (want : Option ℕ) (i addr : ℕ) (copied : Bool) (t : Table)
    → NoLost initproc t
    → (r : WaitEnd × List Release × Table) → Wait4pid.Waited want i addr copied t r
    → NoLost initproc r.2
wait4pid-NoLost initproc want i addr copied t v (returned pid status, freed, u)
      (k, lt, c, z, e, st, f, same) =
    rw same (freed-NoLost initproc t v k)
wait4pid-NoLost initproc want i addr copied t v (failed, freed, u) (none_freed, inl (same, _)) =
    rw same v
wait4pid-NoLost initproc want i addr copied t v (failed, freed, u)
      (_, inr (k, lt, m, z, a, b, same)) =
    rw same (calm-NoLost initproc t v k (status_shifted (t k)) refl (λ e. e) (λ e. e) (λ x s e. e))
wait4pid-NoLost initproc none i addr copied t v (asleep c, freed, u) (k₀, lt, m, e, same, f, all) =
    rw (same, e)
      (asleep-NoLost initproc t v i (proc_chan i) (λ _. all)
        (λ k ch lt'. all k (omega arith) (omega arith)))
wait4pid-NoLost initproc (some w) i addr copied t v (asleep c, freed, u)
      (k₀, lt, m, e, same, f, all) =
    rw (same, e)
      (asleep-NoLost initproc t v i (proc_chan k₀) (λ ch j lo hi child. ground (arith, v.no_self i))
        (λ k ch lt' child. ground (arith, all k₀)))

pub kill_loop-NoLost :
    (initproc pid sig left k : ℕ) (t u : Table)
    → NoLost initproc t
    → kill_loop pid sig left k t ≡ some u
    → NoLost initproc u
unfolding kill_loop kill_one
kill_loop-NoLost initproc pid sig zero k t u v e = cc
kill_loop-NoLost initproc pid sig (suc left) k t u v e = elim (Bool-cases ((t k).pid == pid)) [
  | inl hit ↦
      let same : set_proc t k (kill_one sig (t k)) ≡ u = ground arith in
      rw (← same) (
        calm-NoLost initproc t v k (kill_one sig (t k)) refl (λ z. ground arith) (λ s. ground arith)
          (λ x s c. c))
  | inr miss ↦ kill_loop-NoLost initproc pid sig left (k + 1) t u v (ground arith)
]

pub wakeup-NoLost :
    (initproc : ℕ) (c : Chan) (t : Table) → NoLost initproc t → NoLost initproc (wakeup c t)
unfolding wakeup wake_one
wakeup-NoLost initproc c t v = record {
  rootless = λ j. ground (arith, v.rootless j);
  no_self = λ k. ground (arith, v.no_self k);
  any = λ j k ne lt child sl ch dead. ground (arith, v.any j k);
  one = λ j k ne lt child sl ch dead. ground (arith, v.one j k);
}
