-- ===== src/Proc/Life/Parents.antt =====
-- What kernel/proc.c does to the parents of processes: they stay, or are cleared, or become init.
use avx_loong_arch.Prelude.{
  ℕ, zero, suc, ◌+◌, ◌≡◌, refl, ◌⊎◌, inl, inr, Bool, Option, some, List, arith, ◌==◌, Bool-cases,
  ok,
}
use avx_loong_arch.Proc.Life.Wait4pid
use avx_loong_arch.Proc.Life.Wait.{Waited}
use avx_loong_arch.Proc.Life.{
  WaitEnd, returned, failed, asleep, status_shifted, zeros, exit_begin, wake_waiter, exit_finish,
}
use avx_loong_arch.Proc.{
  Chan, proc_chan, Proc, Table, set_proc, wake_one, wakeup, wakeup1, kill_one, kill_loop,
  sleep_enter, Release, freeproc, reparent_one, reparent,
}

abbrev pub Kept : ℕ → Table → Table → Type 0
Kept initproc t u = (i q : ℕ) → (u i).parent ≡ some q → ((t i).parent ≡ some q) ⊎ (q ≡ initproc)

pub calm-Kept :
    (initproc : ℕ) (t : Table) (i : ℕ) (p : Proc)
    → p.parent ≡ (t i).parent
    → Kept initproc t (set_proc t i p)
calm-Kept initproc t i p same j q e = inl (ground (arith, e, same))

freed-Kept : (initproc : ℕ) (t : Table) (k : ℕ) → Kept initproc t (set_proc t k (freeproc (t k)).1)
unfolding freeproc
freed-Kept initproc t k j q e = inl (ground (arith, e))

asleep-Kept :
    (initproc : ℕ) (t : Table) (i : ℕ) (c : Chan)
    → Kept initproc t (set_proc t i (sleep_enter c (t i)))
unfolding sleep_enter
asleep-Kept initproc t i c j q e = inl (ground (arith, e))

pub wait-Kept :
    (initproc i addr : ℕ) (copied : Bool) (t : Table) (r : WaitEnd × List Release × Table)
    → Waited i addr copied t r
    → Kept initproc t r.2
wait-Kept initproc i addr copied t (returned pid status, freed, u) (k, lt, c, z, e, st, f, same) =
    rw same (freed-Kept initproc t k)
wait-Kept initproc i addr copied t (failed, freed, u) (same, f, rest) = rw same (λ j q e. inl e)
wait-Kept initproc i addr copied t (asleep c, freed, u) (e, same, f, alive, kid, all) =
    rw same (asleep-Kept initproc t i (proc_chan i))

pub wait4pid-Kept :
    (initproc : ℕ) (want : Option ℕ) (i addr : ℕ) (copied : Bool) (t : Table)
    (r : WaitEnd × List Release × Table)
    → Wait4pid.Waited want i addr copied t r
    → Kept initproc t r.2
wait4pid-Kept initproc want i addr copied t (returned pid status, freed, u)
      (k, lt, c, z, e, st, f, same) =
    rw same (freed-Kept initproc t k)
wait4pid-Kept initproc want i addr copied t (failed, freed, u) (none_freed, inl (same, _)) =
    rw same (λ j q e. inl e)
wait4pid-Kept initproc want i addr copied t (failed, freed, u) (_, inr (k, lt, m, z, a, b, same)) =
    rw same (calm-Kept initproc t k (status_shifted (t k)) refl)
wait4pid-Kept initproc want i addr copied t (asleep c, freed, u) (k, lt, m, e, same, f, all) =
    rw same (asleep-Kept initproc t i c)

pub wakeup-Kept : (initproc : ℕ) (c : Chan) (t : Table) → Kept initproc t (wakeup c t)
unfolding wakeup wake_one
wakeup-Kept initproc c t j q e = inl (ground (arith, e))

pub kill_loop-Kept :
    (initproc pid sig left k : ℕ) (t u : Table)
    → kill_loop pid sig left k t ≡ some u
    → Kept initproc t u
unfolding kill_loop kill_one
kill_loop-Kept initproc pid sig zero k t u e = cc
kill_loop-Kept initproc pid sig (suc left) k t u e = elim (Bool-cases ((t k).pid == pid)) [
  | inl hit ↦
      let same : set_proc t k (kill_one sig (t k)) ≡ u = ground arith in
      rw (← same) (calm-Kept initproc t k (kill_one sig (t k)) refl)
  | inr miss ↦ kill_loop-Kept initproc pid sig left (k + 1) t u (ground arith)
]

pub exit_begin-Kept :
    (initproc i entry : ℕ) (files : List ℕ) (t u : Table)
    → exit_begin initproc i t ≡ ok (files, entry, u)
    → Kept initproc t u
unfolding exit_begin wakeup1
exit_begin-Kept initproc i entry files t u e j q = elim (Bool-cases (i == initproc)) [
  | inl bad ↦ absurd (ground arith)
  | inr fine ↦
      let t₁ = set_proc t i (record (t i) { ofile = zeros (t i).ofile; cwd = 0 }) in
      let same : set_proc t₁ initproc (wakeup1 initproc (t₁ initproc)) ≡ u = ground arith in
      rw (← same) (λ p. inl (ground (arith, p)))
]

pub exit_finish-Kept :
    (initproc parent i status : ℕ) (t : Table)
    → Kept initproc t (exit_finish initproc parent i status t)
unfolding exit_finish reparent reparent_one wake_waiter wakeup1
exit_finish-Kept initproc parent i status t j q e = ground (arith, e)
