-- ===== src/Kalloc/FreeList.antt =====
-- The free list of kernel/kalloc.c as a list of pages, and what kfree and kalloc do to it.
use mathlib.Core.Path.{subst}
use avx_loong_arch.Prelude.{
  ℕ, ◌*◌, ◌%◌, ◌^◌, ◌≤◌, ◌<◌, ◌≡◌, refl, sym, ap, ◌∙◌, ◌≢◌, ◌↔◌, inl, inr, false, List, [], ◌∷◌,
  arith, Bool-cases, ==_of_ne, length, has, ok, panic,
}
use avx_loong_arch.Kalloc.{
  pgsize, ramstop, Kmem, update, junk_word, refused, freed, kfree, taken, kalloc, freemem_amount,
}

-- What kfree accepts.
pub record IsPage (kernel_end pa : ℕ) : Type 0 where
  pub aligned : pa % pgsize ≡ 0
  pub above : kernel_end ≤ pa
  pub below : pa < ramstop

-- From `p` the `next` words lead through the pages `xs`, each once, to the null pointer.
abbrev pub Chain : ℕ → (ℕ → ℕ) → ℕ → List ℕ → Type 0
Chain kernel_end next p [] = p ≡ 0
Chain kernel_end next p (x ∷ xs) =
    (p ≡ x) × IsPage kernel_end x × (has x xs ≡ false) × Chain kernel_end next (next x) xs

pub record FreeList (kernel_end : ℕ) (k : Kmem) (xs : List ℕ) : Type 0 where
  pub chain : Chain kernel_end k.next k.freelist xs
  pub count : k.npage ≡ length xs % 2 ^ 64

accepted_iff : (kernel_end pa : ℕ) → (refused kernel_end pa ≡ false) ↔ IsPage kernel_end pa
accepted_iff kernel_end pa = (λ h. ground arith, λ h. ground arith)

-- A write to a page off the list leaves the chain as it is.
pub Chain-update :
    (kernel_end : ℕ) (next : ℕ → ℕ) (a v : ℕ) (xs : List ℕ) (p : ℕ)
    → has a xs ≡ false
    → Chain kernel_end next p xs
    → Chain kernel_end (update next a v) p xs
Chain-update kernel_end next a v [] p out c = c
Chain-update kernel_end next a v (x ∷ xs) p out (e, page, new, c) =
    let skip : update next a v x ≡ next x = ground arith in
    let rest : has a xs ≡ false = ground arith in
    (e, page, new, rw skip (Chain-update kernel_end next a v xs (next x) rest c))

kalloc-taken : (k : Kmem) → k.freelist ≢ 0 → kalloc k ≡ (k.freelist, taken k)
unfolding kalloc
kalloc-taken k h = rw (==_of_ne h)

module _ {kernel_end : ℕ} where
  -- kfree panics exactly on an address that is not the start of a page between `kernel_end` and
  -- RAMSTOP.
  pub kfree-panic_iff :
      (k : Kmem) (pa : ℕ) → (kfree kernel_end k pa ≡ panic) ↔ (¬ IsPage kernel_end pa)
  unfolding kfree
  kfree-panic_iff k pa = (
    λ e page. ground (arith, (accepted_iff kernel_end pa).1 page),
    λ bad. elim (Bool-cases (refused kernel_end pa)) [
      | inl r ↦ rw r
      | inr r ↦ absurd (bad ((accepted_iff kernel_end pa).0 r))
    ],
  )

  pub kfree-ok :
      (k : Kmem) (pa : ℕ) → IsPage kernel_end pa → kfree kernel_end k pa ≡ ok (freed k pa)
  unfolding kfree
  kfree-ok k pa page = rw ((accepted_iff kernel_end pa).1 page)

  freed-FreeList :
      (k : Kmem) (pa : ℕ) (xs : List ℕ)
      → FreeList kernel_end k xs
      → IsPage kernel_end pa
      → has pa xs ≡ false
      → FreeList kernel_end (freed k pa) (pa ∷ xs)
  freed-FreeList k pa xs free page new =
      let m = update k.next pa (junk_word 1) in
      let back : update m pa k.freelist pa ≡ k.freelist = ground arith in
      let old : Chain kernel_end (update m pa k.freelist) k.freelist xs =
        Chain-update kernel_end m pa k.freelist xs k.freelist new
          (Chain-update kernel_end k.next pa (junk_word 1) xs k.freelist new free.chain) in
      record {
        chain = (
          refl,
          page,
          new,
          subst (λ p. Chain kernel_end (update m pa k.freelist) p xs) (sym back) old,
        );
        count = omega (arith, free.count);
      }

  -- kfree of a page that is not free puts it in front of the free list, counts it, and writes to
  -- no other page.
  pub kfree-FreeList :
      (k : Kmem) (pa : ℕ) (xs : List ℕ)
      → FreeList kernel_end k xs
      → IsPage kernel_end pa
      → has pa xs ≡ false
      → (k' : Kmem) × (kfree kernel_end k pa ≡ ok k')
        × FreeList kernel_end k' (pa ∷ xs)
        × ((q : ℕ) → q ≢ pa → (k'.next q ≡ k.next q) × (k'.fill q ≡ k.fill q))
  kfree-FreeList k pa xs free page new = (
    freed k pa,
    kfree-ok k pa page,
    freed-FreeList k pa xs free page new,
    λ q ne. (ground arith, ground arith),
  )

  -- On an empty free list kalloc returns 0 and changes nothing.
  pub kalloc-nil : (k : Kmem) → FreeList kernel_end k [] → kalloc k ≡ (0, k)
  unfolding kalloc
  kalloc-nil k free = rw free.chain

  taken-FreeList :
      (k : Kmem) (x : ℕ) (xs : List ℕ)
      → FreeList kernel_end k (x ∷ xs)
      → FreeList kernel_end (taken k) xs
  taken-FreeList k x xs free =
      let (e, page, new, rest) = free.chain in
      let away : has k.freelist xs ≡ false = rw e new in
      let next : Chain kernel_end k.next (k.next k.freelist) xs = rw e rest in
      record {
        chain =
            Chain-update kernel_end k.next k.freelist (junk_word 5) xs (k.next k.freelist) away
              next;
        count = omega (arith, free.count);
      }

  -- Where the free list is not empty, kalloc returns its first page filled with 5, takes it off
  -- the list and off the count, and writes to no other page.
  pub kalloc-cons :
      (k : Kmem) (x : ℕ) (xs : List ℕ)
      → 0 < kernel_end
      → FreeList kernel_end k (x ∷ xs)
      → (k' : Kmem) × (kalloc k ≡ (x, k'))
        × FreeList kernel_end k' xs
        × (k'.fill x ≡ 5)
        × ((q : ℕ) → q ≢ x → (k'.next q ≡ k.next q) × (k'.fill q ≡ k.fill q))
  kalloc-cons k x xs pos free =
      let (e, page, new, rest) = free.chain in
      (
        taken k,
        kalloc-taken k (omega (arith, page.above)) ∙ ap (λ p. (p, taken k)) e,
        taken-FreeList k x xs free,
        ground arith,
        λ q ne. (ground arith, ground arith),
      )

  -- freemem_amount is the size of the free pages in bytes, modulo 2 ^ 64.
  pub freemem_amount-length :
      (k : Kmem) (xs : List ℕ)
      → FreeList kernel_end k xs
      → freemem_amount k ≡ length xs * pgsize % 2 ^ 64
  unfolding freemem_amount
  freemem_amount-length k xs free = omega (arith, free.count)
