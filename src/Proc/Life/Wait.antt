-- ===== src/Proc/Life/Wait.antt =====
-- wait and wait4pid of kernel/proc.c: what a round does, on every branch.
use avx_loong_arch.Prelude.{
  ℕ, zero, suc, ◌+◌, ◌≤◌, ◌<◌, ◌≡◌, refl, ◌≢◌, ◌⊎◌, inl, inr, Bool, true, false, ◌&&◌, ◌||◌, not,
  Option, none, some, List, [], arith, ◌==◌, InRange, InRange-cons, Bool-cases, eq_of_==, ne_of_==,
}
use avx_loong_arch.Proc.Life.{
  WaitEnd, returned, failed, asleep, wait_scan, wait_act, wait, copied_status,
}
use avx_loong_arch.Proc.{
  Proc, is_zombie, proc_chan, is_proc, nproc, Table, set_proc, sleep_enter, Release, freeproc,
}

-- Process j is a child of process i; it stands among the `left` processes from k on.
abbrev pub IsChild : Table → ℕ → ℕ → Type 0
IsChild t i j = is_proc (t j).parent i ≡ true

abbrev pub IsZombie : Table → ℕ → Type 0
IsZombie t j = is_zombie (t j).state ≡ true

-- No zombie child of process i at index j.
abbrev pub NotReapable : Table → ℕ → ℕ → Type 0
NotReapable t i j = IsChild t i j → is_zombie (t j).state ≡ false

-- What the scan of wait says of the `left` processes from k on.
abbrev Scanned : ℕ → ℕ → ℕ → Bool → Table → Option ℕ × Bool → Type 0
Scanned i left k h t (some j, b) = (k ≤ j) × (j < k + left) × IsChild t i j × IsZombie t j
Scanned i left k h t (none, b) =
    InRange (NotReapable t i) k left
    × (b ≡ false → InRange (λ j. is_proc (t j).parent i ≡ false) k left)
    × (b ≡ true → (h ≡ true) ⊎ ((j : ℕ) × (k ≤ j) × (j < k + left) × IsChild t i j))

Scanned-suc :
    (i left k : ℕ) (h : Bool) (t : Table) (r : Option ℕ × Bool)
    → NotReapable t i k
    → Scanned i left (k + 1) (is_proc (t k).parent i || h) t r
    → (r.1 ≡ false → (is_proc (t k).parent i || h) ≡ false)
    → Scanned i (suc left) k h t r
Scanned-suc i left k h t (some j, b) nz (lo, hi, c, z) keep = (omega arith, omega arith, c, z)
Scanned-suc i left k h t (none, b) nz (all, none_left, some_left) keep = (
  InRange-cons (NotReapable t i) k left nz all,
  λ e.
      InRange-cons (λ j. is_proc (t j).parent i ≡ false) k left (ground (arith, keep e))
        (none_left e),
  λ e. elim (some_left e) [
    | inl old ↦ elim (Bool-cases (is_proc (t k).parent i)) [
      | inl mine ↦ inr (k, omega arith, omega arith, mine)
      | inr other ↦ inl (ground arith)
    ]
    | inr (j, lo, hi, c) ↦ inr (j, omega arith, omega arith, c)
  ],
)

havekids_mono :
    (i left k : ℕ) (h : Bool) (t : Table) → (wait_scan i left k h t).1 ≡ false → h ≡ false
unfolding wait_scan
havekids_mono i zero k h t e = e
havekids_mono i (suc left) k h t e =
    ground (arith, havekids_mono i left (k + 1) (is_proc (t k).parent i || h) t)

wait_scan-Scanned :
    (i left k : ℕ) (h : Bool) (t : Table) → Scanned i left k h t (wait_scan i left k h t)
unfolding wait_scan
wait_scan-Scanned i zero k h t =
    (λ j lo hi. absurd (omega arith), λ e j lo hi. absurd (omega arith), λ e. inl e)
wait_scan-Scanned i (suc left) k h t =
    let mine = is_proc (t k).parent i in
    elim (Bool-cases (mine && is_zombie (t k).state)) [
      | inl hit ↦ rw hit (omega arith, omega arith, ground arith, ground arith)
      | inr miss ↦ rw miss (
          Scanned-suc i left k h t (wait_scan i left (k + 1) (mine || h) t) (λ c. ground arith)
            (wait_scan-Scanned i left (k + 1) (mine || h) t)
            (havekids_mono i left (k + 1) (mine || h) t))
    ]

-- The status that the caller gets: none where it gave no address.
abbrev pub Status : ℕ → ℕ → Option ℕ → Type 0
Status addr value none = addr ≡ 0
Status addr value (some status) = (addr ≢ 0) × (status ≡ value)

pub copied_status-Status : (addr : ℕ) (p : Proc) → Status addr p.xstate (copied_status addr p)
copied_status-Status addr p = elim (Bool-cases (addr == 0)) [
  | inl e ↦ rw e (eq_of_== e)
  | inr ne ↦ rw ne (ne_of_== ne, refl)
]

-- What a round of wait by process i does to the table t.
abbrev pub Waited : ℕ → ℕ → Bool → Table → WaitEnd × List Release × Table → Type 0
Waited i addr copied t (returned pid status, freed, u) =
    (k : ℕ) × (k < nproc)
    × IsChild t i k
    × IsZombie t k
    × (pid ≡ (t k).pid)
    × Status addr (t k).xstate status
    × (freed ≡ (freeproc (t k)).0)
    × (u ≡ set_proc t k (freeproc (t k)).1)
Waited i addr copied t (failed, freed, u) =
    (u ≡ t)
    × (freed ≡ [])
    × (((addr ≢ 0) × (copied ≡ false) × ((k : ℕ) × (k < nproc) × IsChild t i k × IsZombie t k))
        ⊎ InRange (λ j. is_proc (t j).parent i ≡ false) 0 nproc
        ⊎ ((t i).killed ≢ 0) × InRange (NotReapable t i) 0 nproc)
Waited i addr copied t (asleep c, freed, u) =
    (c ≡ proc_chan i)
    × (u ≡ set_proc t i (sleep_enter (proc_chan i) (t i)))
    × (freed ≡ [])
    × ((t i).killed ≡ 0)
    × ((k : ℕ) × (k < nproc) × IsChild t i k)
    × InRange (NotReapable t i) 0 nproc

wait_act-Waited :
    (i addr : ℕ) (copied : Bool) (t : Table) (r : Option ℕ × Bool)
    → Scanned i nproc 0 false t r
    → Waited i addr copied t (wait_act i addr copied t r)
unfolding wait_act
wait_act-Waited i addr copied t (some k, h) (lo, hi, c, z) =
    elim (Bool-cases (not (addr == 0) && not copied)) [
      | inl bad ↦ rw bad (refl, refl, inl (ground arith, ground arith, (k, omega arith, c, z)))
      | inr fine ↦ rw fine (k, omega arith, c, z, refl, copied_status-Status addr (t k), refl, refl)
    ]
wait_act-Waited i addr copied t (none, h) (all, none_left, some_left) =
    elim (Bool-cases (not h || not ((t i).killed == 0))) [
      | inl stop ↦ rw stop (
        refl,
        refl,
        elim (Bool-cases h) [
          | inl kids ↦ inr (inr (ground arith, all))
          | inr none_h ↦ inr (inl (none_left none_h))
        ],
      )
      | inr go ↦ rw go (
        refl,
        refl,
        refl,
        ground arith,
        elim (some_left (ground arith)) [ inl e ↦ cc | inr (j, lo, hi, c) ↦ (j, omega arith, c) ],
        all,
      )
    ]

-- A round of wait by process i returns the pid of a zombie child, with its status where an address
-- was given, and frees that child, and changes nothing else in the table; or fails, changing nothing, if the status cannot be copied out, if there is no child
-- or if the process is killed and no child is a zombie; or puts the process to sleep on its own
-- address, where it has a child, none of its children is a zombie and it is not killed.
pub wait-Waited :
    (i addr : ℕ) (copied : Bool) (t : Table) → Waited i addr copied t (wait i addr copied t)
unfolding wait
wait-Waited i addr copied t =
    wait_act-Waited i addr copied t (wait_scan i nproc 0 false t)
      (wait_scan-Scanned i nproc 0 false t)
