-- ===== src/Proc/Fork/Child.antt =====
-- What fork of kernel/proc.c leaves in the three tables.
use avx_loong_arch.Prelude.{
  ℕ, zero, suc, ◌+◌, ◌<◌, ◌≡◌, refl, sym, ap, ◌∙◌, ◌≢◌, ◌⊎◌, inl, inr, true, false, some, [], arith,
  ◌==◌, Bool-cases, ==_refl, ==_of_ne, ok,
}
use avx_loong_arch.Proc.Fork.Descriptors.{named, Used, fork_ofile-named}
use avx_loong_arch.Proc.Fork.{Parts, Places, Tables, child_of, fork}
use avx_loong_arch.Proc.Life.{begun, alloc_slot, find_unused, zeros}
use avx_loong_arch.Proc.{runnable, is_unused, nproc, Table, set_proc}
use avx_loong_arch.Fat.Ecache.Counts.{plus, IsCache}
use avx_loong_arch.Fat.Ecache.{edup}
use avx_loong_arch.Fat.Ecache.Put.{edup-IsCache}

find_unused-unused :
    (left k : ℕ) (t : Table) {j : ℕ}
    → find_unused left k t ≡ some j
    → (is_unused (t j).state ≡ true) × (j < k + left)
unfolding find_unused
find_unused-unused zero k t e = absurd (cc)
find_unused-unused (suc left) k t {j} e = elim (Bool-cases (is_unused (t k).state)) [
  | inl free ↦
      let found : some k ≡ some j = rw free at e in
      let same : k ≡ j = cc in (ap (λ x. is_unused (t x).state) (sym same) ∙ free, omega arith)
  | inr busy ↦
      let on : find_unused left (k + 1) t ≡ some j = rw busy at e in
      let (free, lt) = find_unused-unused left (k + 1) t on in (free, omega arith)
]

-- A child of process `me` in slot k, with the process's descriptors, directory and size.
pub record IsChild (me k : ℕ) (parts : Parts) (s s' : Tables) : Type 0 where
  pub state : (s'.procs k).state ≡ runnable
  pub parent : (s'.procs k).parent ≡ some me
  pub pid : (s'.procs k).pid ≡ parts.pid
  pub pagetable : (s'.procs k).pagetable ≡ parts.pagetable
  pub vma : (s'.procs k).vma ≡ parts.vma
  pub sz : (s'.procs k).sz ≡ (s.procs me).sz
  pub ofile : (s'.procs k).ofile ≡ (s.procs me).ofile
  pub cwd : (s'.procs k).cwd ≡ (s.procs me).cwd
  pub others : (j : ℕ) → j ≢ k → s'.procs j ≡ s.procs j

-- fork by a process with a directory and with open files in use, where a slot is unused and has an
-- empty array of descriptors, and the pages and the memory are there: it returns the child's pid;
-- the slot is a runnable child with the same descriptors, no other slot changes, each file has a
-- reference more for each descriptor that names it, and the directory one more user.
pub fork-IsChild :
    (places : Places) (parts : Parts) (me k : ℕ) (s : Tables) (depth users : ℕ → ℕ)
    → find_unused nproc 0 s.procs ≡ some k
    → parts.trapframe ≢ 0
    → parts.pagetable ≢ 0
    → parts.exec_close ≢ 0
    → parts.copied ≡ true
    → parts.mapped ≡ true
    → zeros (s.procs me).ofile ≡ (s.procs k).ofile
    → Used places.file_of s.files (s.procs me).ofile
    → (s.procs me).cwd ≢ 0
    → IsCache depth users s.ecache
    → let entry = places.entry_of (s.procs me).cwd in
      (entry ≡ 0) ⊎ (0 < (s.ecache.entries entry).ref)
      → (s' : Tables) × (fork places parts me s ≡ ok (some parts.pid, [], s'))
        × IsChild me k parts s s'
        × (is_unused (s.procs k).state ≡ true)
        × ((i : ℕ) → (s'.files i).ref ≡ (s.files i).ref + named places.file_of i (s.procs me).ofile)
        × IsCache depth (plus entry users) s'.ecache
unfolding fork alloc_slot
fork-IsChild places parts me k s depth users found tf pt ec copied mapped empty in_use cwd cache
      used =
    let (free, _) = find_unused-unused nproc 0 s.procs found in
    let (files, run, count) =
      fork_ofile-named places.file_of (s.procs me).ofile (s.procs k).ofile s.files empty in_use in
    let has_cwd : ((s.procs me).cwd == 0) ≡ false = ==_of_ne cwd in
    let cache' = edup-IsCache depth users s.ecache (places.entry_of (s.procs me).cwd) cache used in
    rw (found, ==_of_ne tf, ==_of_ne pt, ==_of_ne ec, copied, mapped, run, has_cwd)
      (
        record {
          procs = set_proc s.procs k (
              child_of me (s.procs me)
                (record (begun parts.pid (s.procs k)) {
                  trapframe = parts.trapframe;
                  pagetable = parts.pagetable;
                  exec_close = parts.exec_close;
                })
                parts.vma (s.procs me).ofile);
          files = files;
          ecache = edup s.ecache (places.entry_of (s.procs me).cwd);
        },
        refl,
        record {
          state = rw (==_refl k) refl;
          parent = rw (==_refl k) refl;
          pid = rw (==_refl k) refl;
          pagetable = rw (==_refl k) refl;
          vma = rw (==_refl k) refl;
          sz = rw (==_refl k) refl;
          ofile = rw (==_refl k) refl;
          cwd = rw (==_refl k) refl;
          others =
              λ j ne. let apart : (k == j) ≡ false = ==_of_ne (λ e. ne (sym e)) in rw apart refl;
        },
        free,
        count,
        cache',
      )
