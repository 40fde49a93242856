-- ===== src/Vma/Stack.antt =====
-- The stack area of kernel/vma.c: where it stands and how a page fault grows it.
use avx_loong_arch.Prelude.{
  ℕ, ◌+◌, ◌-◌, ◌%◌, ◌^◌, ◌≤◌, ◌<◌, min, ◌≡◌, refl, ◌⊎◌, inl, inr, Bool, true, false, ◌&&◌, none,
  some, List, [], ◌∷◌, ◌++◌, arith, ltb, leb, Bool-cases, All,
}
use avx_loong_arch.Vma.{
  pgsize, round_down, user_stack_top, user_stack_down, stack_step, is_stack, Vma, new_stack,
  alloc_vma_stack, stack_start, grown, grow_stack, handle_stack_page_fault, get_proc_sp,
}

-- The first stack area of a list is the one from `lo` to `hi`.
abbrev pub StackAt : (lo hi : ℕ) → List Vma → Type 0
StackAt lo hi [] = ⊥
StackAt lo hi (v ∷ vs) =
    ((is_stack v.kind ≡ true) × (v.addr ≡ lo) × (v.end ≡ hi))
    ⊎ ((is_stack v.kind ≡ false) × StackAt lo hi vs)

-- No area of the list is a stack.
abbrev pub NoStack : List Vma → Type 0
NoStack vs = All (λ v. is_stack v.kind ≡ false) vs

-- The start that a fault at `va` gives a stack that starts at `lo`.
abbrev pub lowered : ℕ → ℕ → ℕ
lowered lo va = min (lo - stack_step) (round_down va)

append-StackAt :
    (lo hi : ℕ) (us vs : List Vma) → NoStack us → StackAt lo hi vs → StackAt lo hi (us ++ vs)
append-StackAt lo hi [] vs none_is h = h
append-StackAt lo hi (u ∷ us) vs (none_is, rest) h =
    inr (none_is, append-StackAt lo hi us vs rest h)

-- get_proc_sp answers the end of the first stack area.
get_proc_sp-StackAt : (lo hi : ℕ) (vs : List Vma) → StackAt lo hi vs → get_proc_sp vs ≡ some hi
unfolding get_proc_sp
get_proc_sp-StackAt lo hi [] none_is = absurd none_is
get_proc_sp-StackAt lo hi (v ∷ vs) (inl (k, a, e)) = rw (k, e)
get_proc_sp-StackAt lo hi (v ∷ vs) (inr (k, h)) = rw k (get_proc_sp-StackAt lo hi vs h)

-- On a list without a stack area, alloc_vma_stack adds the area from 100 pages below USER_STACK_TOP
-- up to it, and get_proc_sp then answers USER_STACK_TOP; it fails exactly when kalloc or uvmalloc1
-- fails.
pub alloc_vma_stack_lem :
    (perm : ℕ) (page mapped : Bool) (vs : List Vma)
    → NoStack vs
    → ((page && mapped ≡ true)
        × ((us : List Vma) × (alloc_vma_stack perm page mapped vs ≡ some us)
            × StackAt (user_stack_top - stack_step) user_stack_top us
            × (get_proc_sp us ≡ some user_stack_top)))
      ⊎ ((page && mapped ≡ false) × (alloc_vma_stack perm page mapped vs ≡ none))
unfolding alloc_vma_stack
alloc_vma_stack_lem perm page mapped vs none_is = elim (Bool-cases (page && mapped)) [
  | inl t ↦
      let one : StackAt (user_stack_top - stack_step) user_stack_top (new_stack perm ∷ []) =
        inl (refl, refl, refl) in
      let at = append-StackAt (user_stack_top - stack_step) user_stack_top vs _ none_is one in
      inl (
        t,
        (
          vs ++ new_stack perm ∷ [],
          rw t,
          at,
          get_proc_sp-StackAt (user_stack_top - stack_step) user_stack_top
              (vs ++ new_stack perm ∷ []) at,
        ),
      )
  | inr f ↦ inr (f, rw f)
]

stack_start-lowered :
    (v : Vma) (va lo : ℕ)
    → v.addr ≡ lo
    → lo % pgsize ≡ 0
    → stack_step ≤ lo
    → lo < 2 ^ 64
    → stack_start v va ≡ lowered lo va
stack_start-lowered v va lo a aligned room word =
    let wraps : (v.addr + 2 ^ 64 - stack_step) % 2 ^ 64 ≡ lo - stack_step = omega (arith, a) in
    rw wraps (elim (Bool-cases (ltb va (lo - stack_step))) [
      | inl t ↦ rw t (ground arith)
      | inr f ↦ rw f (ground arith)
    ])

grow_stack_lem :
    (va lo hi : ℕ) (vs : List Vma)
    → lo % pgsize ≡ 0
    → stack_step ≤ lo
    → lo < 2 ^ 64
    → StackAt lo hi vs
    → (us : List Vma) × (grow_stack va true vs ≡ some us) × StackAt (lowered lo va) hi us
unfolding grow_stack
grow_stack_lem va lo hi [] aligned room word none_is = absurd none_is
grow_stack_lem va lo hi (v ∷ vs) aligned room word (inl (k, a, e)) =
    (grown v va ∷ vs, rw k, inl (k, stack_start-lowered v va lo a aligned room word, e))
grow_stack_lem va lo hi (v ∷ vs) aligned room word (inr (k, h)) =
    let (us, run, at) = grow_stack_lem va lo hi vs aligned room word h in
    (v ∷ us, rw (k, run), inr (k, at))

-- For a fault at an address of the stack's range, with a stack area that starts at a page at least
-- 100 pages up, handle_stack_page_fault moves the start of that area 100 pages down, or further down to
-- the page of the address, and keeps its end: the area then covers the address up to its old start.
pub handle_stack_page_fault_lem :
    (va lo hi : ℕ) (vs : List Vma)
    → user_stack_down ≤ va
    → va < user_stack_top
    → lo % pgsize ≡ 0
    → stack_step ≤ lo
    → lo < 2 ^ 64
    → StackAt lo hi vs
    → (us : List Vma) × (handle_stack_page_fault va true vs ≡ some us)
      × StackAt (lowered lo va) hi us
      × lowered lo va ≤ va
      × lowered lo va + stack_step ≤ lo
unfolding handle_stack_page_fault
handle_stack_page_fault_lem va lo hi vs low high aligned room word at =
    let inside : leb user_stack_down va && ltb va user_stack_top ≡ true = ground arith in
    let (us, run, at') = grow_stack_lem va lo hi vs aligned room word at in
    (us, rw (inside, run), at', omega arith, omega arith)
