-- ===== src/Vma.antt =====
-- kernel/vma.c: the areas of a process's user memory. The circular list of struct vma behind its
-- head is a list, a pointer into it an index. What kalloc and the page tables of vm.c answer is an
-- argument: `page`, whether kalloc gives a page, and `mapped`, whether uvmalloc1, uvmdealloc1 or
-- mappages succeeds.
pub mod Order
pub mod Stack
mod Examples
use avx_loong_arch.Prelude.{
  ℕ, zero, suc, ◌+◌, ◌-◌, ◌*◌, ◌/◌, ◌%◌, ◌^◌, Bool, true, false, ◌&&◌, ◌||◌, not, Option, none,
  some, List, ◌∷◌, ◌++◌, ltb, leb, ◌==◌, if◌then◌else◌, Outcome, ok, panic, out_of_fuel, ◌>>=◌, [],
}

abbrev pub pgsize : ℕ
pgsize = 4096

abbrev pub round_up : ℕ → ℕ
round_up a = (a + pgsize - 1) % 2 ^ 64 / pgsize * pgsize

abbrev pub round_down : ℕ → ℕ
round_down a = a / pgsize * pgsize

abbrev pub maxuva : ℕ
maxuva = 0x8000_0000

abbrev pub user_mmap_start : ℕ
user_mmap_start = maxuva - 0x1000_0000 - 2 * pgsize

abbrev pub user_stack_top : ℕ
user_stack_top = maxuva - pgsize

abbrev pub user_stack_down : ℕ
user_stack_down = user_mmap_start + pgsize

-- INIT_STACK_SIZE and INCREASE_STACK_SIZE_PER_FAULT
abbrev pub stack_step : ℕ
stack_step = 100 * pgsize

-- enum segtype
pub data SegType : Type 0 where
  none_seg mmap_seg stack_seg : SegType

abbrev pub is_mmap : SegType → Bool
is_mmap mmap_seg = true
is_mmap _ = false

abbrev pub is_stack : SegType → Bool
is_stack stack_seg = true
is_stack _ = false

-- struct vma without its links; `none` for fd is -1.
pub record Vma : Type 0 where
  pub kind : SegType
  pub perm : ℕ
  pub addr : ℕ
  pub sz : ℕ
  pub end : ℕ
  pub fd : Option ℕ
  pub f_off : ℕ

-- Where the search of alloc_vma stops: before the area of an index, in an area that holds the whole
-- range, or at one that overlaps it.
pub data Spot : Type 0 where
  before : ℕ → Spot
  inside : ℕ → Spot
  overlap : Spot

abbrev pub shift : Spot → Spot
shift (before k) = before (suc k)
shift (inside k) = inside (suc k)
shift overlap = overlap

pub find_spot : (start end : ℕ) → List Vma → Spot
find_spot start end [] = before 0
find_spot start end (v ∷ vs) =
    if leb end v.addr
    then before 0
    else (if leb v.end start
        then shift (find_spot start end vs)
        else (if leb v.addr start && leb end v.end then inside 0 else overlap))

abbrev pub insert_at : ℕ → Vma → List Vma → List Vma
insert_at zero n vs = n ∷ vs
insert_at (suc k) n [] = n ∷ []
insert_at (suc k) n (v ∷ vs) = v ∷ insert_at k n vs

abbrev pub remove_at : ℕ → List Vma → List Vma
remove_at k [] = []
remove_at zero (v ∷ vs) = vs
remove_at (suc k) (v ∷ vs) = v ∷ remove_at k vs

-- What alloc_vma does at the spot found; `refused`: kalloc or the page table fails.
abbrev pub place : (refused : Bool) → Vma → List Vma → Spot → Option ℕ × List Vma
place refused n vs (before k) = if refused then (none, vs) else (some k, insert_at k n vs)
place refused n vs (inside k) = (some k, vs)
place refused n vs overlap = (none, vs)

abbrev pub fresh_vma : SegType → (start end sz perm : ℕ) → Vma
fresh_vma kind start end sz perm = record {
  kind = kind;
  perm = perm;
  addr = start;
  sz = sz;
  end = end;
  fd = none;
  f_off = 0;
}

-- alloc_vma: the index of the area that it returns (`none` for NULL), and the list. A size of 0 maps
-- nothing, and so does a call with neither `alloc` nor a physical address.
pub alloc_vma :
    SegType
    → (addr sz perm : ℕ) → (alloc : Bool) → (pa : ℕ) → (page mapped : Bool) → List Vma
    → Option ℕ × List Vma
alloc_vma kind addr sz perm alloc pa page mapped vs =
    let start = round_down addr in
    let end = round_up ((addr + sz) % 2 ^ 64) in
    let maps = not (sz == 0) && (alloc || not (pa == 0)) in
    place (not page || (maps && not mapped)) (fresh_vma kind start end sz perm) vs
      (find_spot start end vs)

pub find_mmap_vma : List Vma → Option Vma
find_mmap_vma [] = none
find_mmap_vma (v ∷ vs) = let rest = find_mmap_vma vs in if is_mmap v.kind then some v else rest

-- `vma->fd = fd; vma->f_off = f_off` at an index
abbrev pub set_file : ℕ → ℕ → ℕ → List Vma → List Vma
set_file k fd off [] = []
set_file zero fd off (v ∷ vs) = record v { fd = some fd; f_off = off } ∷ vs
set_file (suc k) fd off (v ∷ vs) = v ∷ set_file k fd off vs

-- The address that alloc_mmap_vma maps at: below the first mapped area if the caller names none.
-- To read that area's address where there is none is a null pointer.
abbrev pub mmap_addr : ℕ → ℕ → Option Vma → Outcome ℕ
mmap_addr zero sz none = panic
mmap_addr zero sz (some first) =
    if ltb sz first.addr then ok (round_down (first.addr - sz)) else ok zero
mmap_addr (suc a) sz first = ok (suc a)

pub alloc_mmap_vma :
    (addr sz perm fd f_off : ℕ) → (page mapped : Bool) → List Vma → Outcome (Option ℕ × List Vma)
alloc_mmap_vma addr sz perm fd f_off page mapped vs = mmap_addr addr sz (find_mmap_vma vs) >>= (λ a.
    let (r, us) = alloc_vma mmap_seg a sz perm true 0 page mapped vs in
    elim r [ none ↦ ok (none, us) | some k ↦ ok (some k, set_file k fd f_off us) ])

-- vma_init: a page for the head, and the empty area at USER_MMAP_START that later mappings go
-- below. `none` is NULL.
abbrev pub started : Outcome (Option ℕ × List Vma) → Outcome (Option (List Vma))
started (ok (none, vs)) = ok none
started (ok (some k, vs)) = ok (some vs)
started panic = panic
started out_of_fuel = out_of_fuel

pub vma_init : (page page' : Bool) → Outcome (Option (List Vma))
vma_init page page' =
    if page then started (alloc_mmap_vma user_mmap_start 0 0 0 0 page' true []) else ok none

-- vma_copy, with as many pages as kalloc gives: the child's list, or NULL.
pub copy_nodes : ℕ → List Vma → Option (List Vma)
copy_nodes pages [] = some []
copy_nodes zero (v ∷ vs) = none
copy_nodes (suc pages) (v ∷ vs) = elim (copy_nodes pages vs) [
  | none ↦ none
  | some us ↦ some (v ∷ us)
]

pub vma_copy : ℕ → List Vma → Option (List Vma)
vma_copy zero vs = none
vma_copy (suc pages) vs = copy_nodes pages vs

-- free_vma of the area at an index: it is taken off the list whatever uvmdealloc1 answers, and the
-- answer is the result.
pub free_vma : ℕ → (mapped : Bool) → List Vma → Bool × List Vma
free_vma k mapped vs = (mapped, remove_at k vs)

abbrev pub new_stack : ℕ → Vma
new_stack perm = record {
  kind = stack_seg;
  perm = perm;
  addr = user_stack_top - stack_step;
  sz = stack_step;
  end = user_stack_top;
  fd = none;
  f_off = 2 ^ 64 - 1;
}

-- alloc_vma_stack: the stack goes behind the last area; `none` is the return of -1.
pub alloc_vma_stack : (perm : ℕ) → (page mapped : Bool) → List Vma → Option (List Vma)
alloc_vma_stack perm page mapped vs =
    if page && mapped then some (vs ++ new_stack perm ∷ []) else none

-- The first stack area as handle_stack_page_fault moves its start for a fault at va.
abbrev pub stack_start : Vma → ℕ → ℕ
stack_start v va =
    let start = (v.addr + 2 ^ 64 - stack_step) % 2 ^ 64 in
    if ltb va start then round_down va else start

abbrev pub grown : Vma → ℕ → Vma
grown v va = record v { addr = stack_start v va; sz = (v.sz + stack_step) % 2 ^ 64 }

pub grow_stack : ℕ → (mapped : Bool) → List Vma → Option (List Vma)
grow_stack va mapped [] = none
grow_stack va mapped (v ∷ vs) =
    if is_stack v.kind
    then (if mapped then some (grown v va ∷ vs) else none)
    else elim (grow_stack va mapped vs) [ none ↦ none | some us ↦ some (v ∷ us) ]

-- handle_stack_page_fault; `none` is the return of -1.
pub handle_stack_page_fault : ℕ → (mapped : Bool) → List Vma → Option (List Vma)
handle_stack_page_fault va mapped vs =
    if leb user_stack_down va && ltb va user_stack_top then grow_stack va mapped vs else none

-- `none` is the return of -1.
pub get_proc_sp : List Vma → Option ℕ
get_proc_sp [] = none
get_proc_sp (v ∷ vs) = let rest = get_proc_sp vs in if is_stack v.kind then some v.end else rest
