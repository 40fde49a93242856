-- ===== src/Vm/Translate.antt =====
-- walkaddr and kwalkaddr of kernel/vm.c on the map from virtual pages to entries.
use avx_loong_arch.Prelude.{
  ℕ, ◌+◌, ◌-◌, ◌*◌, ◌/◌, ◌%◌, ◌^◌, ◌≤◌, ◌<◌, ◌≡◌, refl, sym, ap, ◌∙◌, ◌≢◌, ◌⊎◌, inl, inr, Bool,
  true, false, ◌&&◌, not, List, arith, ltb, leb, ◌==◌, if◌then◌else◌, ==_of_ne, ok,
}
use avx_loong_arch.Vm.Range.{mapped}
use avx_loong_arch.Vm.Map.{Maps, Found-slot, entry-there, Found-there}
use avx_loong_arch.Vm.Walk.{page-pos, walk-Found}
use avx_loong_arch.Vm.Tree.{slot}
use avx_loong_arch.Vm.{
  dmwin_mask, maxva, is_direct, frame, pte2pa, is_valid, is_user, leaf_pte, pte_flags, Mem, walk,
  walkaddr,
}
use avx_loong_arch.Kalloc.{pgsize}

-- The word that walk found without alloc: none, for a page without an entry, or its entry.
pub Looked :
    {kernel_end root : ℕ} (m : Mem) (map : ℕ → ℕ) (xs : List ℕ) (va : ℕ)
    (low : dmwin_mask ≤ kernel_end) (s : Maps kernel_end root m map xs)
    → va < maxva
    → (a : ℕ) × (walk false m root va ≡ ok (a, m))
      × (((a ≡ 0) × (map (va / pgsize) ≡ 0))
          ⊎ ((a ≢ 0)
              × (s.page 0 (va / pgsize / 512) ≢ 0)
              × (a ≡ slot (s.page) 0 (va / pgsize))
              × (m.words a ≡ map (va / pgsize))))
Looked m map xs va low s lt =
    let (a, e, found) = walk-Found m (s.page) xs va (s.tree) lt in
    let v = va / pgsize in
    (
      a,
      e,
      elim found [
        | inl (no_table, z) ↦
            let table : s.page 0 (v / 512) ≡ 0 = ap (s.page 0) (omega arith) ∙ no_table in
            inl (z, sym (s.entries v) ∙ rw table refl)
        | inr (up, at_slot) ↦
            let e' : a ≡ slot (s.page) 0 v = at_slot ∙ Found-slot (s.page) va in
            let there = Found-there (s.page) va up in
            inr (
              (λ z.
                  page-pos (s.page 0 (v / 512)) low (s.tree.pages 0 (v / 512) there)
                    (omega (arith, z, e'))),
              there,
              e',
              ap (m.words) e' ∙ sym (entry-there (s.page) m v there) ∙ s.entries v,
            )
      ],
    )

both_tests :
    (a b : Bool) (x : ℕ) → (if not a then 0 else if not b then 0 else x) ≡ (if a && b then x else 0)
both_tests true true x = refl
both_tests true false x = refl
both_tests false b x = refl

-- walkaddr translates an address below MAXVA by the entry of its page: 0 where there is none, or
-- it is not valid, or not for users.
pub walkaddr_lem :
    {kernel_end root : ℕ} (m : Mem) (map : ℕ → ℕ) (xs : List ℕ) (va : ℕ)
    → dmwin_mask ≤ kernel_end
    → Maps kernel_end root m map xs
    → va < maxva
    → walkaddr m root va
      ≡ ok (let w = map (va / pgsize) in if is_valid w && is_user w then pte2pa w else 0)
unfolding walkaddr
walkaddr_lem m map xs va low s lt =
    let (a, e, found) = Looked m map xs va low s lt in
    let x : is_direct va ≡ false = ground arith in
    let y : leb maxva va ≡ false = ground arith in
    rw (x, y, e)
      (elim found [
        | inl (z, w) ↦ rw (z, w) refl
        | inr (nz, _, _, w) ↦
            rw (==_of_ne nz, w)
              (ap ok (
                both_tests (is_valid (map (va / pgsize))) (is_user (map (va / pgsize)))
                  (pte2pa (map (va / pgsize)))))
      ])

-- What mappages enters is valid, is for users where `perm` is, and leads to the page of `pa`.
pub leaf_pte_lem :
    (pa perm : ℕ)
    → perm < 2 ^ 9
    → (leaf_pte pa perm % 2 ≡ 1)
      × (leaf_pte pa perm / 4 % 4 ≡ perm / 4 % 4)
      × (frame (leaf_pte pa perm) ≡ frame pa)
      × (pte_flags (leaf_pte pa perm) ≢ 1)
unfolding leaf_pte
leaf_pte_lem pa perm h = (ground arith, ground arith, ground arith, λ e. ground (arith, e))

-- After mappages mapped n pages from v on for users, walkaddr takes an address in one of them to
-- the start of its physical page, in the direct window.
pub walkaddr-mapped :
    {kernel_end root : ℕ} (m : Mem) (map : ℕ → ℕ) (xs : List ℕ) (v n pa perm va : ℕ)
    → dmwin_mask ≤ kernel_end
    → Maps kernel_end root m (mapped map v n pa perm) xs
    → perm < 2 ^ 9
    → perm / 4 % 4 ≢ 0
    → va < maxva
    → v ≤ va / pgsize
    → va / pgsize < v + n
    → walkaddr m root va ≡ ok (pte2pa (pa + (va / pgsize - v) * pgsize))
walkaddr-mapped m map xs v n pa perm va low s small user lt from to =
    let within : (leb v (va / pgsize) && ltb (va / pgsize) (v + n)) ≡ true = ground arith in
    let (valid, plv, same, _) = leaf_pte_lem (pa + (va / pgsize - v) * pgsize) perm small in
    let tests : (leaf_pte (pa + (va / pgsize - v) * pgsize) perm / 4 % 4 == 0) ≡ false =
      ==_of_ne (λ z. user (sym plv ∙ z)) in
    walkaddr_lem m (mapped map v n pa perm) xs va low s lt ∙ rw (within, valid, tests, same) refl
