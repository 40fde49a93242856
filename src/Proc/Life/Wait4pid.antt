-- ===== src/Proc/Life/Wait4pid.antt =====
-- findchild and wait4pid of kernel/proc.c: what a round does, on every branch.
use mathlib.Core.Path.{subst}
use avx_loong_arch.Prelude.{
  ℕ, zero, suc, ◌+◌, ◌*◌, ◌%◌, ◌^◌, ◌≤◌, ◌<◌, ◌≡◌, refl, ◌≢◌, ◌⊎◌, inl, inr, Bool, true, false,
  ◌&&◌, not, Option, none, some, List, [], arith, ◌==◌, if◌then◌else◌, InRange, InRange-cons,
  Bool-cases,
}
use avx_loong_arch.Proc.Life.Wait.{IsZombie, Status, copied_status-Status}
use avx_loong_arch.Proc.Life.{
  WaitEnd, returned, failed, asleep, wanted, findchild, status_shifted, wait_chan, wait4pid_act,
  wait4pid,
}
use avx_loong_arch.Proc.{is_zombie, is_proc, nproc, Table, set_proc, sleep_enter, Release, freeproc}

-- Process j is a child of process i with the pid that is wanted.
abbrev pub is_match : Option ℕ → Table → ℕ → ℕ → Bool
is_match want t i j = wanted want (t j).pid && is_proc (t j).parent i

abbrev pub NotDone : Option ℕ → Table → ℕ → ℕ → Type 0
NotDone want t i j = is_match want t i j ≡ true → is_zombie (t j).state ≡ false

abbrev Found : Option ℕ → ℕ → ℕ → ℕ → Option ℕ → Table → Option ℕ × Option ℕ → Type 0
Found want i left k l t (some j, b) =
    (k ≤ j) × (j < k + left) × (is_match want t i j ≡ true) × IsZombie t j
Found want i left k l t (none, none) =
    (l ≡ none) × InRange (λ j. is_match want t i j ≡ false) k left
Found want i left k l t (none, some c) =
    InRange (NotDone want t i) k left
    × ((l ≡ some c) ⊎ ((k ≤ c) × (c < k + left) × (is_match want t i c ≡ true)))

Found-suc :
    (want : Option ℕ) (i left k : ℕ) (l : Option ℕ) (t : Table) (r : Option ℕ × Option ℕ)
    → NotDone want t i k
    → Found want i left (k + 1) (if is_match want t i k then some k else l) t r
    → Found want i (suc left) k l t r
Found-suc want i left k l t (some j, b) nz (lo, hi, m, z) = (omega arith, omega arith, m, z)
Found-suc want i left k l t (none, none) nz (e, all) = elim (Bool-cases (is_match want t i k)) [
  | inl mine ↦ let bad = rw mine at e in cc
  | inr other ↦ (rw other at e, InRange-cons (λ j. is_match want t i j ≡ false) k left other all)
]
Found-suc want i left k l t (none, some c) nz (all, from) = (
  InRange-cons (NotDone want t i) k left nz all,
  elim from [
    | inl e ↦ elim (Bool-cases (is_match want t i k)) [
      | inl mine ↦
          let same : k ≡ c = ground arith in
          inr (omega arith, omega arith, subst (λ x. is_match want t i x ≡ true) same mine)
      | inr other ↦ inl (rw other at e)
    ]
    | inr (lo, hi, m) ↦ inr (omega arith, omega arith, m)
  ],
)

findchild-Found :
    (want : Option ℕ) (i left k : ℕ) (l : Option ℕ) (t : Table)
    → Found want i left k l t (findchild want i left k l t)
unfolding findchild
findchild-Found want i zero k none t = (refl, λ j lo hi. absurd (omega arith))
findchild-Found want i zero k (some c) t = (λ j lo hi. absurd (omega arith), inl refl)
findchild-Found want i (suc left) k l t =
    elim (Bool-cases (is_match want t i k && is_zombie (t k).state)) [
      | inl hit ↦ rw hit (omega arith, omega arith, ground arith, ground arith)
      | inr miss ↦ rw miss (
          Found-suc want i left k l t
            (findchild want i left (k + 1) (if is_match want t i k then some k else l) t)
            (λ c. ground arith)
            (findchild-Found want i left (k + 1) (if is_match want t i k then some k else l) t))
    ]

-- What a round of wait4pid by process i does to the table t.
abbrev pub Waited : Option ℕ → ℕ → ℕ → Bool → Table → WaitEnd × List Release × Table → Type 0
Waited want i addr copied t (returned pid status, freed, u) =
    (k : ℕ) × (k < nproc)
    × (is_match want t i k ≡ true)
    × IsZombie t k
    × (pid ≡ (t k).pid)
    × Status addr ((t k).xstate * 256 % 2 ^ 32) status
    × (freed ≡ (freeproc (t k)).0)
    × (u ≡ set_proc t k (freeproc (t k)).1)
Waited want i addr copied t (failed, freed, u) =
    (freed ≡ [])
    × ((u ≡ t) × InRange (λ j. is_match want t i j ≡ false) 0 nproc
        ⊎ (k : ℕ) × (k < nproc)
          × (is_match want t i k ≡ true)
          × IsZombie t k
          × (addr ≢ 0)
          × (copied ≡ false)
          × (u ≡ set_proc t k (status_shifted (t k))))
Waited want i addr copied t (asleep c, freed, u) =
    (k : ℕ) × (k < nproc)
    × (is_match want t i k ≡ true)
    × (c ≡ wait_chan want i k)
    × (u ≡ set_proc t i (sleep_enter c (t i)))
    × (freed ≡ [])
    × InRange (NotDone want t i) 0 nproc

wait4pid_act-Waited :
    (want : Option ℕ) (i addr : ℕ) (copied : Bool) (t : Table) (r : Option ℕ × Option ℕ)
    → Found want i nproc 0 none t r
    → Waited want i addr copied t (wait4pid_act want i addr copied t r)
unfolding wait4pid_act freeproc
wait4pid_act-Waited want i addr copied t (some k, l) (lo, hi, m, z) =
    elim (Bool-cases (not (addr == 0) && not copied)) [
      | inl bad ↦ rw bad (refl, inr (k, omega arith, m, z, ground arith, ground arith, refl))
      | inr fine ↦
          rw fine (
            k,
            omega arith,
            m,
            z,
            refl,
            copied_status-Status addr (status_shifted (t k)),
            refl,
            refl,
          )
    ]
wait4pid_act-Waited want i addr copied t (none, none) (e, all) = (refl, inl (refl, all))
wait4pid_act-Waited want i addr copied t (none, some c) (all, from) = elim from [
  | inl e ↦ cc
  | inr (lo, hi, m) ↦ (c, omega arith, m, refl, refl, refl, all)
]

-- A round of wait4pid by process i reaps a zombie among the children with the wanted pid (any
-- child for -1): it returns that child's pid, copies out the child's status times 256 (as an int of
-- 32 bits) if it was given an address, frees the child, and changes no other process. It fails if there is no such child, changing nothing, or if the status cannot be copied out, which
-- leaves the zombie with its status shifted. Otherwise it sleeps, on its own address for -1 and on
-- that of a wanted child for a pid, where no wanted child is a zombie.
pub wait4pid-Waited :
    (want : Option ℕ) (i addr : ℕ) (copied : Bool) (t : Table)
    → Waited want i addr copied t (wait4pid want i addr copied t)
unfolding wait4pid
wait4pid-Waited want i addr copied t =
    wait4pid_act-Waited want i addr copied t (findchild want i nproc 0 none t)
      (findchild-Found want i nproc 0 none t)
