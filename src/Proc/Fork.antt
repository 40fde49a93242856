-- ===== src/Proc/Fork.antt =====
-- fork of kernel/proc.c, on the process table, the file table and the entry cache together. What the
-- allocator, uvmcopy and the areas' code answer is an argument. The registers and the tracing mask
-- are not among the fields of Proc.
pub mod Descriptors
pub mod Child
mod Examples
use avx_loong_arch.Prelude.{
  ℕ, Bool, true, false, not, Option, none, some, List, [], ◌∷◌, ◌==◌, if◌then◌else◌, take, Outcome,
  ok, ◌>>=◌,
}
use avx_loong_arch.Proc.Life.{alloc_slot, find_unused}
use avx_loong_arch.Proc.{runnable, Proc, nproc, Table, set_proc, Release, freeproc}
use avx_loong_arch.File.{filedup}
use avx_loong_arch.Fat.Ecache.{Ecache, edup}
use avx_loong_arch.File
use avx_loong_arch.Proc

-- The pages of allocproc, whether uvmcopy succeeded, the list of vma_copy, and whether vma_map
-- succeeded for all of it.
pub record Parts : Type 0 where
  pub pid : ℕ
  pub trapframe : ℕ
  pub pagetable : ℕ
  pub exec_close : ℕ
  pub copied : Bool
  pub vma : ℕ
  pub mapped : Bool

-- The entries of the file table and of the entry cache at an address.
pub record Places : Type 0 where
  pub file_of : ℕ → ℕ
  pub entry_of : ℕ → ℕ

pub record Tables : Type 0 where
  pub procs : Table
  pub files : File.Table
  pub ecache : Ecache

-- The loop over the descriptors, from the child's array as it was.
pub fork_ofile : (ℕ → ℕ) → (parent child : List ℕ) → File.Table → Outcome (List ℕ × File.Table)
fork_ofile file_of [] ys t = ok ([], t)
fork_ofile file_of (x ∷ xs) [] t = ok ([], t)
fork_ofile file_of (x ∷ xs) (y ∷ ys) t =
    let kept = fork_ofile file_of xs ys t >>= λ (zs, u). ok (y ∷ zs, u) in
    let dupped =
      filedup (file_of x) t >>= λ t₁. fork_ofile file_of xs ys t₁ >>= λ (zs, u). ok (x ∷ zs, u) in
    if x == 0 then kept else dupped

abbrev pub dup_cwd : Places → ℕ → Ecache → Ecache
dup_cwd places cwd c = if cwd == 0 then c else edup c (places.entry_of cwd)

-- The child once its descriptors are set.
abbrev pub child_of : ℕ → Proc → Proc → ℕ → List ℕ → Proc
child_of me p q vma ofile = record q {
  vma = vma;
  sz = p.sz;
  parent = some me;
  ofile = ofile;
  cwd = p.cwd;
  name = take 15 p.name;
  state = runnable;
}

-- fork behind allocproc: `q` is the slot k that it gave.
abbrev pub fork_slot :
    Places → Parts → (me k : ℕ) → Tables → Proc → Outcome (Option ℕ × List Release × Tables)
fork_slot places parts me k s q =
    let p = s.procs me in
    let freed : List Release × Proc = freeproc q in
    let done = fork_ofile places.file_of p.ofile q.ofile s.files >>= λ (ofile, files). ok (
      some q.pid,
      [],
      record {
        procs = set_proc s.procs k (child_of me p q parts.vma ofile);
        files = files;
        ecache = dup_cwd places p.cwd s.ecache;
      },
    ) in
    if not parts.copied
    then ok (none, freed.0, record s { procs = set_proc s.procs k freed.1 })
    else if not parts.mapped
    then ok (none, [], record s { procs = set_proc s.procs k (record q { vma = parts.vma }) })
    else done

abbrev pub fork_in :
    Places → Parts → ℕ → Tables → Option ℕ → Outcome (Option ℕ × List Release × Tables)
fork_in places parts me s none = ok (none, [], s)
fork_in places parts me s (some k) =
    alloc_slot parts.pid parts.trapframe parts.pagetable parts.exec_close (s.procs k)
    >>= λ (allocated, released, q).
        if allocated
        then fork_slot places parts me k s q
        else ok (none, released, record s { procs = set_proc s.procs k q })

-- fork by process `me`: the child's pid, none for -1, what freeproc handed on, and the tables.
pub fork : Places → Parts → ℕ → Tables → Outcome (Option ℕ × List Release × Tables)
fork places parts me s = fork_in places parts me s (find_unused nproc 0 s.procs)
