-- ===== src/Vm/Create.antt =====
-- uvmcreate of kernel/vm.c: an empty tree of page tables.
use avx_loong_arch.Prelude.{
  ℕ, suc, ◌+◌, ◌*◌, ◌/◌, ◌%◌, ◌≤◌, ◌<◌, ◌≡◌, refl, sym, ◌∙◌, ◌≢◌, ◌⊎◌, inl, inr, false, ◌&&◌, List,
  [], ◌∷◌, arith, ◌==◌, if◌then◌else◌, Bool-cases, ==_refl, ==_of_ne, has,
}
use avx_loong_arch.Vm.Map.{Maps}
use avx_loong_arch.Vm.Walk.{page-pos, alloc_page-none, alloc_page-one}
use avx_loong_arch.Vm.{dmwin_mask, Mem, set_page, uvmcreate}
use avx_loong_arch.Kalloc.FreeList.{IsPage, FreeList}
use avx_loong_arch.Kalloc.{pgsize}

-- The root is the only table.
abbrev pub only_root : ℕ → ℕ → ℕ → ℕ
only_root root l p = if (l == 3) && (p == 0) then root else 0

only_root-low : (root l p : ℕ) → l < 3 → only_root root l p ≡ 0
only_root-low root l p h = ground arith

only_root-cases :
    (root l p : ℕ) → only_root root l p ≢ 0 → (l ≡ 3) × (p ≡ 0) × (only_root root l p ≡ root)
only_root-cases root l p h = elim (Bool-cases ((l == 3) && (p == 0))) [
  | inl e ↦ (ground (arith, e), ground (arith, e), rw e refl)
  | inr e ↦ absurd (h (rw e refl))
]

empty-Maps :
    (kernel_end root : ℕ) (m : Mem) (xs : List ℕ)
    → dmwin_mask ≤ kernel_end
    → IsPage kernel_end root
    → has root xs ≡ false
    → FreeList kernel_end m.kmem xs
    → ((i : ℕ) → m.words (root + 8 * (i % 512)) ≡ 0)
    → Maps kernel_end root m (λ v. 0) xs
empty-Maps kernel_end root m xs low is_page away free zeros = record {
  page = only_root root;
  tree = record {
    top = refl;
    rooted = page-pos root low is_page;
    orphan = λ l p lt h. only_root-low root l p lt;
    link = λ l p lt up.
        let (_, _, e) = only_root-cases root (suc l) (p / 512) up in
        inl (rw (e, zeros p) refl, only_root-low root l p lt);
    once = λ l p l' p' h e.
        let (a, b, _) = only_root-cases root l p h in
        let (a', b', _) = only_root-cases root l' p' (λ z. h (e ∙ z)) in (a ∙ sym a', b ∙ sym b');
    pages = λ l p h. rw (only_root-cases root l p h).2 is_page;
    apart = λ l p h. rw (only_root-cases root l p h).2 away;
    free = free;
  };
  entries = λ v. refl;
}

-- uvmcreate takes a page from the free list where there is one: it is the root of a tree of page
-- tables without any entry, and the others are free as before. With no free page it returns 0 and
-- changes nothing.
pub uvmcreate-Maps :
    {kernel_end : ℕ} (m : Mem) (xs : List ℕ)
    → dmwin_mask ≤ kernel_end
    → FreeList kernel_end m.kmem xs
    → ((xs ≡ []) × (uvmcreate m ≡ (0, m)))
      ⊎ ((x : ℕ) × (ys : List ℕ) × (m' : Mem) × (xs ≡ x ∷ ys)
          × (uvmcreate m ≡ (x, m'))
          × Maps kernel_end x m' (λ v. 0) ys)
unfolding uvmcreate
uvmcreate-Maps m [] low free = inl (refl, rw (alloc_page-none m free) refl)
uvmcreate-Maps {kernel_end} m (x ∷ xs) low free =
    let (k, e, free') = alloc_page-one m x xs low free in
    let m' = set_page (set_page (record m { kmem = k }) x 5) x 0 in
    let is_page = free.chain.1 in
    inr (
      x,
      xs,
      m',
      refl,
      rw (e, ==_of_ne (page-pos x low is_page)) refl,
      empty-Maps kernel_end x m' xs low is_page free.chain.2 free' (λ i.
          let inside : (x + 8 * (i % 512)) / pgsize ≡ x / pgsize = omega (arith, is_page.aligned) in
          rw (inside, ==_refl (x / pgsize)) refl),
    )
