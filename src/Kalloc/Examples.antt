-- ===== src/Kalloc/Examples.antt =====
-- The theorems of kernel/kalloc.c at a machine with a kernel that ends at 0x90200000, and runs of
-- the allocator.
use avx_loong_arch.Prelude.{
  ℕ, ◌-◌, ◌/◌, ◌≡◌, refl, ◌≢◌, true, List, [], ◌∷◌, arith, length, has, ok,
}
use avx_loong_arch.Kalloc.Range.{kinit-FreeList}
use avx_loong_arch.Kalloc.FreeList.{IsPage, FreeList, kfree-FreeList}
use avx_loong_arch.Kalloc.{pgsize, ramstop, pg_round_up, Kmem, kfree, kinit}

abbrev kernel_end : ℕ
kernel_end = 0x9000_0000_9020_0000

abbrev page_a : ℕ
page_a = 0x9000_0000_9030_0000

abbrev page_b : ℕ
page_b = 0x9000_0000_9030_1000

-- Nothing is free.
abbrev no_pages : Kmem
no_pages = record { freelist = 0; npage = 0; next = λ p. 0; fill = λ p. 0 }

-- One page is free.
abbrev one_page : Kmem
one_page = record { freelist = page_a; npage = 1; next = λ p. 0; fill = λ p. 1 }

no_pages-FreeList : FreeList kernel_end no_pages []
no_pages-FreeList = record { chain = refl; count = refl }

page_a-IsPage : IsPage kernel_end page_a
page_a-IsPage = record { aligned = refl; above = omega arith; below = omega arith }

page_b-IsPage : IsPage kernel_end page_b
page_b-IsPage = record { aligned = refl; above = omega arith; below = omega arith }

one_page-FreeList : FreeList kernel_end one_page (page_a ∷ [])
one_page-FreeList = record { chain = (refl, page_a-IsPage, refl, refl); count = refl }

kfree-FreeList_example :
    (k' : Kmem) × (kfree kernel_end one_page page_b ≡ ok k')
    × FreeList kernel_end k' (page_b ∷ page_a ∷ [])
    × ((q : ℕ) → q ≢ page_b → (k'.next q ≡ one_page.next q) × (k'.fill q ≡ one_page.fill q))
kfree-FreeList_example =
    kfree-FreeList one_page page_b (page_a ∷ []) one_page-FreeList page_b-IsPage refl

kinit-FreeList_example :
    (k' : Kmem) × (xs : List ℕ) × (kinit kernel_end no_pages ≡ ok k')
    × FreeList kernel_end k' xs
    × (length xs ≡ (ramstop - pg_round_up kernel_end) / pgsize)
    × ((a : ℕ) → IsPage kernel_end a → has a xs ≡ true)
kinit-FreeList_example = kinit-FreeList kernel_end no_pages (omega arith)
