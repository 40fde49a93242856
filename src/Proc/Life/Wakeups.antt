-- ===== src/Proc/Life/Wakeups.antt =====
-- No process but init sleeps in wait or wait4pid while the child that it waits for is a zombie.
use mathlib.Core.Option.{none-ne-some, some-injective}
use avx_loong_arch.Prelude.{
  ℕ, ◌<◌, ◌≡◌, refl, sym, ap, ◌∙◌, ◌≢◌, ◌⊎◌, inl, inr, Bool, Option, none, some, List, arith, ok,
  ◌==◌, if◌then◌else◌, Bool-cases, eq_of_==,
}
use avx_loong_arch.Proc.Life.NoLost.{
  NoLost, calm-NoLost, asleep-NoLost, wait-NoLost, wait4pid-NoLost, kill_loop-NoLost, wakeup-NoLost,
}
use avx_loong_arch.Proc.Life.Parents.{
  Kept, calm-Kept, wait-Kept, wait4pid-Kept, wakeup-Kept, kill_loop-Kept, exit_begin-Kept,
  exit_finish-Kept,
}
use avx_loong_arch.Proc.Life.Handover.{exit_finish-NoLost, exit_begin-NoLost}
use avx_loong_arch.Proc.Life.Wait4pid
use avx_loong_arch.Proc.Life.Wait.{wait-Waited}
use avx_loong_arch.Proc.Life.{exit_begin, exit_finish, wait, wait4pid}
use avx_loong_arch.Proc.{
  unused, runnable, running, Chan, addr_chan, Proc, nproc, Table, set_proc, wakeup, kill,
  sleep_enter, sleep_leave, yield_enter, schedule_one,
}

-- The local variable original_parent of exit, for each process, where that has copied it.
abbrev pub Copies : Type 0
Copies = ℕ → Option ℕ

abbrev pub set_copy : Copies → ℕ → Option ℕ → Copies
set_copy c i o k = if i == k then o else c k

-- What the code of proc.c does to the table, a critical section at a time. Between the two that
-- exit has after its copy of the parent any others may come. A fork fills an unused slot with a
-- child that is runnable.
pub data Step (initproc : ℕ) (t : Table) (c : Copies) : Table → Copies → Type 0 where
  waits : (i addr : ℕ) (copied : Bool) → Step initproc t c (wait i addr copied t).2 c
  waits_for :
      (want : Option ℕ) (i addr : ℕ) (copied : Bool)
      → Step initproc t c (wait4pid want i addr copied t).2 c
  exit_begins :
      (i : ℕ) {files : List ℕ} {entry : ℕ} {u : Table}
      → exit_begin initproc i t ≡ ok (files, entry, u)
      → Step initproc t c u c
  exit_copies : (i : ℕ) → Step initproc t c t (set_copy c i (t i).parent)
  exits :
      (i parent status : ℕ)
      → i ≢ initproc
      → i < nproc
      → c i ≡ some parent
      → Step initproc t c (exit_finish initproc parent i status t) (set_copy c i none)
  wakes : (ch : Chan) → Step initproc t c (wakeup ch t) c
  kills : (pid sig : ℕ) {u : Table} → kill pid sig t ≡ some u → Step initproc t c u c
  sleeps : (i a : ℕ) → Step initproc t c (set_proc t i (sleep_enter (addr_chan a) (t i))) c
  resumes : (i : ℕ) → Step initproc t c (set_proc t i (sleep_leave (t i))) c
  yields : (i : ℕ) → (t i).state ≡ running → Step initproc t c (set_proc t i (yield_enter (t i))) c
  runs : (i : ℕ) → Step initproc t c (set_proc t i (schedule_one (t i)).1) c
  forks :
      (i k : ℕ) (child : Proc)
      → (t k).state ≡ unused
      → k ≢ i
      → k ≢ initproc
      → child.state ≡ runnable
      → child.parent ≡ some i
      → Step initproc t c (set_proc t k child) (set_copy c k none)

-- A parent that exit has copied is the parent still, or init is.
abbrev pub Follows : ℕ → Table → Copies → Type 0
Follows initproc t c =
    (i p : ℕ) → c i ≡ some p → (q : ℕ) → (t i).parent ≡ some q → (q ≡ p) ⊎ (q ≡ initproc)

Kept-Follows :
    (initproc : ℕ) (t u : Table) (c : Copies)
    → Kept initproc t u
    → Follows initproc t c
    → Follows initproc u c
Kept-Follows initproc t u c kept f i p e q e' = elim (kept i q e') [
  | inl same ↦ f i p e q same
  | inr root ↦ inr root
]

none-Follows :
    (initproc : ℕ) (t : Table) (c : Copies) (i : ℕ)
    → Follows initproc t c
    → Follows initproc t (set_copy c i none)
none-Follows initproc t c i f j p e q e' = f j p (ground (arith, e)) q e'

copy-Follows :
    (initproc : ℕ) (t : Table) (c : Copies) (i : ℕ)
    → Follows initproc t c
    → Follows initproc t (set_copy c i (t i).parent)
copy-Follows initproc t c i f j p e q e' = elim (Bool-cases (i == j)) [
  | inl here ↦
      let copied : (t i).parent ≡ some p = rw here at e in
      let now : (t i).parent ≡ some q = ap (λ x. (t x).parent) (eq_of_== here) ∙ e' in
      inl (some-injective q p (sym now ∙ copied))
  | inr apart ↦ f j p (rw apart at e) q e'
]

Step-Follows :
    {initproc : ℕ} {t u : Table} {c d : Copies}
    → Step initproc t c u d
    → Follows initproc t c
    → Follows initproc u d
unfolding sleep_enter sleep_leave yield_enter schedule_one kill
Step-Follows {initproc} {t} {u} {c} (waits i addr copied) =
    Kept-Follows initproc t u c
      (wait-Kept initproc i addr copied t (wait i addr copied t) (wait-Waited i addr copied t))
Step-Follows {initproc} {t} {u} {c} (waits_for want i addr copied) = Kept-Follows initproc t u c (
    wait4pid-Kept initproc want i addr copied t (wait4pid want i addr copied t)
      (Wait4pid.wait4pid-Waited want i addr copied t))
Step-Follows {initproc} {t} {c = c} (exit_begins i {files} {entry} {u} e) =
    Kept-Follows initproc t u c (exit_begin-Kept initproc i entry files t u e)
Step-Follows {initproc} {t} {c = c} (exit_copies i) = copy-Follows initproc t c i
Step-Follows {initproc} {t} {u} {c} (exits i parent status ne lt e) = λ f.
    none-Follows initproc u c i
      (Kept-Follows initproc t u c (exit_finish-Kept initproc parent i status t) f)
Step-Follows {initproc} {t} {u} {c} (wakes ch) =
    Kept-Follows initproc t u c (wakeup-Kept initproc ch t)
Step-Follows {initproc} {t} {c = c} (kills pid sig {u} e) =
    Kept-Follows initproc t u c (kill_loop-Kept initproc pid sig nproc 0 t u e)
Step-Follows {initproc} {t} {u} {c} (sleeps i a) =
    Kept-Follows initproc t u c (calm-Kept initproc t i (sleep_enter (addr_chan a) (t i)) refl)
Step-Follows {initproc} {t} {u} {c} (resumes i) =
    Kept-Follows initproc t u c (calm-Kept initproc t i (sleep_leave (t i)) refl)
Step-Follows {initproc} {t} {u} {c} (yields i r) =
    Kept-Follows initproc t u c (calm-Kept initproc t i (yield_enter (t i)) refl)
Step-Follows {initproc} {t} {u} {c} (runs i) =
    Kept-Follows initproc t u c (calm-Kept initproc t i (schedule_one (t i)).1 (ground arith))
Step-Follows {initproc} {t} {u} {c} (forks i k child free ne ni run mine) =
    λ f j p e q e'. f j p (ground (arith, e)) q (ground (arith, e, e'))

Step-NoLost :
    {initproc : ℕ} {t u : Table} {c d : Copies}
    → Step initproc t c u d
    → Follows initproc t c
    → NoLost initproc t
    → NoLost initproc u
unfolding sleep_leave yield_enter schedule_one kill
Step-NoLost {initproc} {t} (waits i addr copied) f v =
    wait-NoLost initproc i addr copied t v (wait i addr copied t) (wait-Waited i addr copied t)
Step-NoLost {initproc} {t} (waits_for want i addr copied) f v =
    wait4pid-NoLost initproc want i addr copied t v (wait4pid want i addr copied t)
      (Wait4pid.wait4pid-Waited want i addr copied t)
Step-NoLost {initproc} {t} {u} (exit_begins i {files} {entry} e) f v =
    exit_begin-NoLost initproc i entry files t u v e
Step-NoLost {initproc} {t} (exit_copies i) f v = v
Step-NoLost {initproc} {t} (exits i parent status ne lt e) f v =
    exit_finish-NoLost initproc parent i status t v ne lt (f i parent e)
Step-NoLost {initproc} {t} (wakes c) f v = wakeup-NoLost initproc c t v
Step-NoLost {initproc} {t} {u} (kills pid sig e) f v =
    kill_loop-NoLost initproc pid sig nproc 0 t u v e
Step-NoLost {initproc} {t} (sleeps i a) f v =
    asleep-NoLost initproc t v i (addr_chan a) (λ e. cc) (λ k e lt child. cc)
Step-NoLost {initproc} {t} (resumes i) f v =
    calm-NoLost initproc t v i (sleep_leave (t i)) refl (λ z. z) (λ s. s) (λ x s c. cc)
Step-NoLost {initproc} {t} (yields i r) f v =
    calm-NoLost initproc t v i (yield_enter (t i)) refl (λ z. cc) (λ s. cc) (λ x s c. c)
Step-NoLost {initproc} {t} (runs i) f v =
    calm-NoLost initproc t v i (schedule_one (t i)).1 (ground arith) (λ z. ground arith)
      (λ s. ground arith) (λ x s c. ground arith)
Step-NoLost {initproc} {t} (forks i k child free ne ni run mine) f v = record {
  rootless = λ j. ground (arith, v.rootless j);
  no_self = λ j. ground (arith, v.no_self j);
  any = λ j c nej lt kid sl ch dead. ground (arith, v.any j c);
  one = λ j c nej lt kid sl ch dead. ground (arith, v.one j c);
}

pub data Reach (initproc : ℕ) (t : Table) (c : Copies) : Table → Copies → Type 0 where
  here : Reach initproc t c t c
  next :
      {u w : Table} {d e : Copies}
      → Reach initproc t c u d
      → Step initproc u d w e
      → Reach initproc t c w e

Reach-Follows :
    (initproc : ℕ) (t : Table) (c : Copies) (u : Table) (d : Copies)
    → Follows initproc t c
    → NoLost initproc t
    → Reach initproc t c u d
    → Follows initproc u d × NoLost initproc u
Reach-Follows initproc t c u d f v here = (f, v)
Reach-Follows initproc t c w e f v (next {u} {d = d} r s) =
    let (f', v') = Reach-Follows initproc t c u d f v r in (Step-Follows s f', Step-NoLost s f' v')

-- In every sequence of the steps of proc.c from a table in which no wakeup is lost, and with no
-- process between exit's copy of its parent and its lock of that parent: no process other than init
-- sleeps in wait or wait4pid on its own address while a child of it is a zombie, nor sleeps in
-- wait4pid on the address of a child that is a zombie. In the sequence other steps may come between
-- that copy and that lock, so that the parent is no longer the one copied.
pub Reach-NoLost :
    (initproc : ℕ) (t u : Table) (d : Copies)
    → NoLost initproc t
    → Reach initproc t (λ i. none) u d
    → NoLost initproc u
Reach-NoLost initproc t u d v r =
    (Reach-Follows initproc t (λ i. none) u d (λ i p e. absurd (none-ne-some p e)) v r).1
