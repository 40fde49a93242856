-- ===== src/Proc/Fork/Examples.antt =====
-- fork by process 0, which has one open file and the root as its directory.
use avx_loong_arch.Prelude.{
  ℕ, ◌+◌, ◌≡◌, refl, inl, true, false, none, some, List, [], ◌∷◌, arith, ◌==◌, if◌then◌else◌, ok,
}
use avx_loong_arch.Proc.Fork.Child.{IsChild, fork-IsChild}
use avx_loong_arch.Proc.Fork.Descriptors.{named}
use avx_loong_arch.Proc.Fork.{Parts, Places, Tables, fork}
use avx_loong_arch.Proc.Life.{find_unused, zeros}
use avx_loong_arch.Proc.{ProcState, unused, running, null_chan, is_unused, Proc}
use avx_loong_arch.Fat.Ecache.Counts.{plus, IsCache}
use avx_loong_arch.Fat.Ecache.{cached, Ecache}
use avx_loong_arch.File.{fd_none}

abbrev slot : ProcState → List ℕ → ℕ → Proc
slot state ofile cwd = record {
  state = state;
  parent = none;
  chan = null_chan;
  killed = 0;
  xstate = 0;
  pid = 1;
  sz = 0x2000;
  pagetable = 0x8000;
  trapframe = 0x9000;
  exec_close = 0xa000;
  vma = 0;
  ofile = ofile;
  cwd = cwd;
  name = b's' ∷ b'h' ∷ [];
  ktime = 1;
  utime = 1;
  filelimit = 128;
  sig_pending = 0;
}

-- Only the root is in the cache of entries.
abbrev root_only : Ecache
root_only = record {
  entries = λ k. record {
    ref = 0;
    valid = cached;
    parent = 0;
    filename = [];
    dev = 0;
    off = 0;
    dirty = false;
  };
  order = [];
}

root_only-IsCache : IsCache (λ k. k) (λ i. 0) root_only
root_only-IsCache = record {
  distinct = tt;
  rootless = refl;
  root = refl;
  refs = λ i. omega arith;
  known = λ k n. absurd (cc (n.0));
  deeper = λ k n. absurd (cc (n.0));
  clean = λ k n. refl;
  recent = λ k n. absurd (cc (n.0));
}

abbrev tables : Tables
tables = record {
  procs = λ i. if i == 0 then slot running (100 ∷ 0 ∷ []) 7 else slot unused (0 ∷ 0 ∷ []) 0;
  files = λ i. record { kind = fd_none; ref = if i == 3 then 1 else 0; writable = true; off = 0 };
  ecache = root_only;
}

abbrev parts : Parts
parts = record {
  pid = 2;
  trapframe = 0x1000;
  pagetable = 0x2000;
  exec_close = 0x3000;
  copied = true;
  vma = 0;
  mapped = true;
}

-- The file is entry 3 of its table.
abbrev places : Places
places = record { file_of = λ x. 3; entry_of = λ x. 0 }

slot_found : find_unused 50 0 tables.procs ≡ some 1
unfolding find_unused
slot_found = refl

slot_empty : zeros (100 ∷ 0 ∷ []) ≡ 0 ∷ 0 ∷ []
unfolding zeros
slot_empty = refl

fork-IsChild_example :
    (s' : Tables) × (fork places parts 0 tables ≡ ok (some 2, [], s'))
    × IsChild 0 1 parts tables s'
    × (is_unused (tables.procs 1).state ≡ true)
    × ((i : ℕ) → (s'.files i).ref ≡ (tables.files i).ref + named (λ x. 3) i (100 ∷ 0 ∷ []))
    × IsCache (λ k. k) (plus 0 (λ i. 0)) s'.ecache
fork-IsChild_example =
    fork-IsChild places parts 0 1 tables (λ k. k) (λ i. 0) slot_found (omega arith) (omega arith)
      (omega arith) refl refl slot_empty (λ ne. omega arith, (λ ne. omega arith, tt)) (omega arith)
      root_only-IsCache (inl refl)
