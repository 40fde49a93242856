-- ===== src/Kalloc/Range.antt =====
-- freerange and kinit of kernel/kalloc.c: the whole range of pages becomes free.
use avx_loong_arch.Prelude.{
  ℕ, zero, suc, ◌+◌, ◌-◌, ◌*◌, ◌/◌, ◌%◌, ◌≤◌, ◌<◌, ◌≡◌, refl, ◌≢◌, inl, inr, true, false, List, [],
  ◌∷◌, arith, leb, ◌==◌, Bool-cases, ne_of_==, length, All, has, ok,
}
use avx_loong_arch.Kalloc.{
  pgsize, ramstop, pg_round_up, Kmem, freed, freerange_loop, freerange, kinit,
}
use avx_loong_arch.Kalloc.FreeList.{IsPage, FreeList, kfree-FreeList}

-- The free list after `n` pages from `p` upwards were freed.
abbrev pub pages : ℕ → ℕ → List ℕ → List ℕ
pages p zero acc = acc
pages p (suc n) acc = pages (p + pgsize) n (p ∷ acc)

has_of_below : (p : ℕ) (xs : List ℕ) → All (λ x. x < p) xs → has p xs ≡ false
has_of_below p [] h = refl
has_of_below p (x ∷ xs) h = ground (arith, has_of_below p xs h.1)

All-below_mono : (p q : ℕ) (xs : List ℕ) → p ≤ q → All (λ x. x < p) xs → All (λ x. x < q) xs
All-below_mono p q [] le h = tt
All-below_mono p q (x ∷ xs) le h = (omega arith, All-below_mono p q xs le h.1)

length-pages : (p n : ℕ) (acc : List ℕ) → length (pages p n acc) ≡ n + length acc
length-pages p zero acc = omega arith
length-pages p (suc n) acc = omega (arith, length-pages (p + pgsize) n (p ∷ acc))

has-pages_acc : (a p n : ℕ) (acc : List ℕ) → has a acc ≡ true → has a (pages p n acc) ≡ true
has-pages_acc a p zero acc h = h
has-pages_acc a p (suc n) acc h = has-pages_acc a (p + pgsize) n (p ∷ acc) (ground arith)

has-pages :
    (a p n : ℕ) (acc : List ℕ)
    → p % pgsize ≡ 0
    → a % pgsize ≡ 0
    → p ≤ a
    → a < p + n * pgsize
    → has a (pages p n acc) ≡ true
has-pages a p zero acc hp ha lo hi = absurd (omega arith)
has-pages a p (suc n) acc hp ha lo hi = elim (Bool-cases (a == p)) [
  | inl e ↦ has-pages_acc a (p + pgsize) n (p ∷ acc) (ground arith)
  | inr ne ↦
      let gap : a ≢ p = ne_of_== ne in
      has-pages a (p + pgsize) n (p ∷ acc) (omega arith) ha (omega arith) (omega arith)
]

module _ (kernel_end pa_end : ℕ) (end_in : pa_end ≤ ramstop) where
  -- `n` pages fit between `p` and `pa_end`, and the fuel is for one round more.
  freerange_loop-FreeList :
      (fuel n p : ℕ) (k : Kmem) (xs : List ℕ)
      → n < fuel
      → p % pgsize ≡ 0
      → kernel_end ≤ p
      → p + n * pgsize ≤ pa_end
      → pa_end < p + n * pgsize + pgsize
      → FreeList kernel_end k xs
      → All (λ x. x < p) xs
      → (k' : Kmem) × (freerange_loop kernel_end fuel p pa_end k ≡ ok k')
        × FreeList kernel_end k' (pages p n xs)
  unfolding freerange_loop
  freerange_loop-FreeList zero n p k xs enough al lo fit last free below = absurd (omega arith)
  freerange_loop-FreeList (suc fuel) zero p k xs enough al lo fit last free below =
      let stop : leb (p + pgsize) pa_end ≡ false = ground arith in (k, rw stop, free)
  freerange_loop-FreeList (suc fuel) (suc n) p k xs enough al lo fit last free below =
      let go : leb (p + pgsize) pa_end ≡ true = ground arith in
      let page : IsPage kernel_end p = record { aligned = al; above = lo; below = omega arith } in
      let (k₁, freed, free₁, same) = kfree-FreeList k p xs free page (has_of_below p xs below) in
      let (k', run, free') =
        freerange_loop-FreeList fuel n (p + pgsize) k₁ (p ∷ xs) (omega arith) (omega arith)
          (omega arith) (omega arith) (omega arith) free₁
          (omega arith, All-below_mono p (p + pgsize) xs (omega arith) below) in
      (k', rw (go, freed) run, free')

-- kinit frees every page between the end of the kernel and RAMSTOP, without a panic and within its
-- fuel: the free list then holds each of those pages, and nothing else.
pub kinit-FreeList :
    (kernel_end : ℕ) (k : Kmem)
    → kernel_end ≤ ramstop
    → (k' : Kmem) × (xs : List ℕ) × (kinit kernel_end k ≡ ok k')
      × FreeList kernel_end k' xs
      × (length xs ≡ (ramstop - pg_round_up kernel_end) / pgsize)
      × ((a : ℕ) → IsPage kernel_end a → has a xs ≡ true)
unfolding kinit freerange
kinit-FreeList kernel_end k le =
    let p = pg_round_up kernel_end in
    let n = (ramstop - p) / pgsize in
    let (k', run, free) =
      freerange_loop-FreeList kernel_end ramstop (omega arith) (ramstop / pgsize + 1) n p
        (record k { freelist = 0; npage = 0 }) [] (omega arith) (omega arith) (omega arith)
        (omega arith) (omega arith) (record { chain = refl; count = refl }) tt in
    (
      k',
      pages p n [],
      run,
      free,
      omega (arith, length-pages p n []),
      λ a page.
          has-pages a p n [] (omega arith) page.aligned (omega (arith, page.aligned, page.above))
            (omega (arith, page.below, page.aligned)),
    )
