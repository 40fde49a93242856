-- ===== src/Proc/Life/Handover.antt =====
-- exit of kernel/proc.c keeps the invariant that no wakeup of wait or wait4pid is lost.
use mathlib.Core.Path.{subst}
use avx_loong_arch.Prelude.{
  ℕ, ◌<◌, ◌≡◌, refl, sym, ◌∙◌, ◌≢◌, ◌⊎◌, inl, inr, true, false, some, List, arith, ◌==◌, Bool-cases,
  Option-cases, eq_of_==, ==_refl, ok,
}
use avx_loong_arch.Proc.Life.NoLost.{NoLost, calm-NoLost}
use avx_loong_arch.Proc.Life.{zeros, exit_begin, wake_waiter, exit_finish}
use avx_loong_arch.Proc.{
  sleeping, zombie, proc_chan, is_proc, Proc, nproc, Table, set_proc, wakeup1, reparent_one,
  reparent,
}

reparent-NoLost :
    (initproc i : ℕ) (t : Table) → NoLost initproc t → NoLost initproc (reparent initproc i t)
unfolding reparent reparent_one
reparent-NoLost initproc i t v = record {
  rootless = λ j. ground (arith, v.rootless j, v.rootless i);
  no_self = λ k. ground (arith, v.no_self k, v.rootless i, v.rootless k);
  any = λ j k nej ltk child sl ch dead. ground (arith, v.any j k);
  one = λ j k nej ltk child sl ch dead. ground (arith, v.one j k);
}

reparent-parent :
    (initproc i : ℕ) (t : Table)
    → is_proc (t i).parent i ≡ false
    → (reparent initproc i t i).parent ≡ (t i).parent
unfolding reparent reparent_one
reparent-parent initproc i t other = ground arith

-- A process does not sleep on its own address, nor on that of process i.
abbrev Awake : ℕ → ℕ → Proc → Type 0
Awake j i p = p.state ≡ sleeping → p.chan ≢ proc_chan j × (p.chan ≢ proc_chan i)

wake_waiter-Awake : (j i : ℕ) (p : Proc) → Awake j i (wake_waiter i (wakeup1 j p))
unfolding wake_waiter wakeup1
wake_waiter-Awake j i p = λ s. (λ e. ground arith, λ e. ground arith)

wake_waiter-NoLost :
    (initproc parent i : ℕ) (t : Table)
    → NoLost initproc t
    → NoLost initproc (set_proc t parent (wake_waiter i (wakeup1 parent (t parent))))
unfolding wake_waiter wakeup1
wake_waiter-NoLost initproc parent i t v =
    calm-NoLost initproc t v parent (wake_waiter i (wakeup1 parent (t parent))) (ground arith)
      (λ z. ground arith) (λ s. ground arith) (λ x s c. ground arith)

-- A parent of the process is `parent` or init.
abbrev pub Leads : (initproc parent : ℕ) → Proc → Type 0
Leads initproc parent p = (q : ℕ) → p.parent ≡ some q → (q ≡ parent) ⊎ (q ≡ initproc)

led-Awake :
    (initproc parent i : ℕ) (t : Table) (j : ℕ)
    → Leads initproc parent (t i)
    → Awake parent i (t parent)
    → is_proc (t i).parent j ≡ true
    → j ≢ initproc
    → Awake j i (t j)
led-Awake initproc parent i t j lead awake mine ne = elim (Option-cases (t i).parent) [
  | inl orphan ↦ absurd (ground (arith, orphan))
  | inr (q, e) ↦
      let mine' : (q == j) ≡ true = rw e at mine in
      elim (lead q e) [
        | inl old ↦ subst (λ x. Awake x i (t x)) (sym old ∙ eq_of_== mine') awake
        | inr root ↦ absurd (ne (sym (eq_of_== mine') ∙ root))
      ]
]

zombie-NoLost :
    (initproc parent i status : ℕ) (t : Table)
    → NoLost initproc t
    → Leads initproc parent (t i)
    → Awake parent i (t parent)
    → NoLost initproc (set_proc t i (record (t i) { xstate = status; state = zombie }))
zombie-NoLost initproc parent i status t v lead awake = record {
  rootless = λ j. ground (arith, v.rootless j);
  no_self = λ k. ground (arith, v.no_self k);
  any = λ j k nej ltk child sl ch dead.
      let waking = led-Awake initproc parent i t j lead awake in ground (arith, v.any j k, waking);
  one = λ j k nej ltk child sl ch dead.
      let waking = led-Awake initproc parent i t j lead awake in ground (arith, v.one j k, waking);
}

set_proc-parent :
    (t : Table) (j i : ℕ) (p : Proc)
    → p.parent ≡ (t j).parent
    → (set_proc t j p i).parent ≡ (t i).parent
set_proc-parent t j i p e = ground arith

wake_waiter-parent : (j i : ℕ) (p : Proc) → (wake_waiter i (wakeup1 j p)).parent ≡ p.parent
unfolding wake_waiter wakeup1
wake_waiter-parent j i p = ground arith

pub exit_finish-NoLost :
    (initproc parent i status : ℕ) (t : Table)
    → NoLost initproc t
    → i ≢ initproc
    → i < nproc
    → Leads initproc parent (t i)
    → NoLost initproc (exit_finish initproc parent i status t)
exit_finish-NoLost initproc parent i status t v ne lt lead =
    let t₁ = reparent initproc i t in
    let p = wake_waiter i (wakeup1 parent (t₁ parent)) in
    let t₂ = set_proc t₁ parent p in
    let v₂ = wake_waiter-NoLost initproc parent i t₁ (reparent-NoLost initproc i t v) in
    let same : (t₂ i).parent ≡ (t i).parent =
      set_proc-parent t₁ parent i p (wake_waiter-parent parent i (t₁ parent))
      ∙ reparent-parent initproc i t (v.no_self i) in
    let kept : Leads initproc parent (t₂ i) = λ q e. lead q (sym same ∙ e) in
    let awake : Awake parent i (t₂ parent) =
      rw (==_refl parent) (wake_waiter-Awake parent i (t₁ parent)) in
    unfold exit_finish in zombie-NoLost initproc parent i status t₂ v₂ kept awake

pub exit_begin-NoLost :
    (initproc i entry : ℕ) (files : List ℕ) (t u : Table)
    → NoLost initproc t
    → exit_begin initproc i t ≡ ok (files, entry, u)
    → NoLost initproc u
unfolding exit_begin wakeup1
exit_begin-NoLost initproc i entry files t u v e = elim (Bool-cases (i == initproc)) [
  | inl bad ↦ absurd (ground arith)
  | inr fine ↦
      let p = record (t i) { ofile = zeros (t i).ofile; cwd = 0 } in
      let t₁ = set_proc t i p in
      let v₁ : NoLost initproc t₁ =
        calm-NoLost initproc t v i p refl (λ z. z) (λ s. s) (λ x s c. c) in
      let same : set_proc t₁ initproc (wakeup1 initproc (t₁ initproc)) ≡ u = ground arith in
      rw (← same) (
        calm-NoLost initproc t₁ v₁ initproc (wakeup1 initproc (t₁ initproc)) (ground arith)
          (λ z. ground arith) (λ s. ground arith) (λ x s c. ground arith))
]
