-- ===== src/Vm/Unmap.antt =====
-- vmunmap of kernel/vm.c without freeing, on the map from virtual pages to entries.
use mathlib.Core.Path.{subst}
use avx_loong_arch.Prelude.{
  ℕ, zero, suc, ◌+◌, ◌-◌, ◌*◌, ◌/◌, ◌%◌, ◌^◌, ◌≤◌, ◌<◌, ◌≡◌, refl, sym, ap, ◌∙◌, ◌≢◌, ◌⊎◌, inl, inr,
  Bool, true, false, ◌&&◌, not, List, arith, ltb, leb, ◌==◌, if◌then◌else◌, Bool-cases, ==_of_ne,
  Outcome, ok, panic, out_of_fuel,
}
use avx_loong_arch.Vm.Translate.{Looked, leaf_pte_lem}
use avx_loong_arch.Vm.Range.{mapped, Maps-ext, update-later}
use avx_loong_arch.Vm.Map.{Maps, set_leaf-IsTree, set_leaf-entry}
use avx_loong_arch.Vm.Tree.{entry}
use avx_loong_arch.Vm.{
  dmwin_mask, maxva, is_valid, pte_flags, Mem, set_word, clear_leaf, unmap_page, unmap_loop,
  vmunmap,
}
use avx_loong_arch.Kalloc.{pgsize, update}

-- An entry that vmunmap takes.
abbrev pub is_leaf : ℕ → Bool
is_leaf w = is_valid w && not (pte_flags w == 1)

abbrev pub unmapped : (ℕ → ℕ) → ℕ → ℕ → ℕ → ℕ
unmapped map v n u = if leb v u && ltb u (v + n) then 0 else map u

-- The ends of vmunmap without freeing: all entries were leaves and are 0 now, or one was not.
abbrev pub UnmapEnd : ℕ → ℕ → Mem → (ℕ → ℕ) → List ℕ → ℕ → ℕ → Outcome Mem → Type 0
UnmapEnd kernel_end root m map xs v n (ok m') =
    ((k : ℕ) → k < n → is_leaf (map (v + k)) ≡ true)
    × Maps kernel_end root m' (unmapped map v n) xs
    × ((b : ℕ) → m'.bytes b ≡ m.bytes b)
UnmapEnd kernel_end root m map xs v n panic = (k : ℕ) × (k < n) × (is_leaf (map (v + k)) ≡ false)
UnmapEnd kernel_end root m map xs v n out_of_fuel = ⊥

leaf_tests :
    (a b : Bool) (m : Mem)
    → (if not a then panic else if b then panic else ok m) ≡ (if a && not b then ok m else panic)
leaf_tests true true m = refl
leaf_tests true false m = refl
leaf_tests false b m = refl

clear_leaf-keep :
    (kernel_end : ℕ) (pte : ℕ) (m : Mem)
    → pte ≢ 0
    → clear_leaf kernel_end false (pte, m)
      ≡ (if is_leaf (m.words pte) then ok (set_word m pte 0) else panic)
clear_leaf-keep kernel_end pte m nz =
    rw (==_of_ne nz)
      (leaf_tests (is_valid (m.words pte)) (pte_flags (m.words pte) == 1) (set_word m pte 0))

-- One round of vmunmap without freeing.
unmap_page_lem :
    {kernel_end root : ℕ} (m : Mem) (map : ℕ → ℕ) (xs : List ℕ) (a : ℕ)
    → dmwin_mask ≤ kernel_end
    → Maps kernel_end root m map xs
    → a < maxva
    → ((is_leaf (map (a / pgsize)) ≡ false) × (unmap_page kernel_end false m root a ≡ panic))
      ⊎ ((is_leaf (map (a / pgsize)) ≡ true)
          × ((m' : Mem) × (unmap_page kernel_end false m root a ≡ ok m')
              × Maps kernel_end root m' (update map (a / pgsize) 0) xs
              × ((b : ℕ) → m'.bytes b ≡ m.bytes b)))
unfolding unmap_page
unmap_page_lem {kernel_end} m map xs a low s lt =
    let (pte, e, found) = Looked m map xs a low s lt in
    let v = a / pgsize in
    rw e (elim found [
      | inl (z, w) ↦ inl (rw w refl, rw z refl)
      | inr (nz, there, at_slot, w) ↦
          rw (clear_leaf-keep kernel_end pte m nz, w)
            (elim (Bool-cases (is_leaf (map v))) [
              | inr bad ↦ inl (bad, rw bad refl)
              | inl leaf ↦ inr (
                leaf,
                (
                  set_word m pte 0,
                  rw leaf refl,
                  record {
                    page = s.page;
                    tree = rw at_slot (set_leaf-IsTree m (s.page) xs (s.tree) v there 0);
                    entries = λ u.
                        ap (λ q. entry (s.page) (set_word m q 0) u) at_slot
                        ∙ set_leaf-entry m (s.page) xs (s.tree) v there 0 u
                        ∙ ap (λ q. if v == u then 0 else q) (s.entries u);
                  },
                  λ b. refl,
                ),
              )
            ])
    ])

unmapped-suc :
    (map : ℕ → ℕ) (v n u : ℕ) → unmapped (update map v 0) (v + 1) n u ≡ unmapped map v (suc n) u
unmapped-suc map v n u = elim (Bool-cases (v == u)) [
  | inl e ↦
      let before : leb (v + 1) u ≡ false = ground (arith, e) in
      let within : (leb v u && ltb u (v + suc n)) ≡ true = ground (arith, e) in
      rw (before, e, within) refl
  | inr ne ↦
      let same : (leb (v + 1) u && ltb u (v + 1 + n)) ≡ (leb v u && ltb u (v + suc n)) =
        ground (arith, ne) in
      rw (same, ne) refl
]

unmapped-zero : (map : ℕ → ℕ) (v u : ℕ) → map u ≡ unmapped map v 0 u
unmapped-zero map v u = let out : (leb v u && ltb u (v + 0)) ≡ false = ground arith in rw out refl

each_leaf :
    (map : ℕ → ℕ) (v n : ℕ)
    → is_leaf (map v) ≡ true
    → ((k : ℕ) → k < n → is_leaf (update map v 0 (v + 1 + k)) ≡ true)
    → (k : ℕ) → k < suc n
    → is_leaf (map (v + k)) ≡ true
each_leaf map v n leaf each zero lt = ap (λ q. is_leaf (map q)) (omega arith) ∙ leaf
each_leaf map v n leaf each (suc k) lt =
    ap is_leaf (sym (update-later map v 0 k)) ∙ each k (omega arith)

UnmapEnd-suc :
    (kernel_end root : ℕ) (m m₁ : Mem) (map : ℕ → ℕ) (xs : List ℕ) (v n : ℕ) (r : Outcome Mem)
    → is_leaf (map v) ≡ true
    → ((b : ℕ) → m₁.bytes b ≡ m.bytes b)
    → UnmapEnd kernel_end root m₁ (update map v 0) xs (v + 1) n r
    → UnmapEnd kernel_end root m map xs v (suc n) r
UnmapEnd-suc kernel_end root m m₁ map xs v n (ok m₂) leaf kept (each, s, kept') =
    (each_leaf map v n leaf each, Maps-ext (unmapped-suc map v n) s, λ b. kept' b ∙ kept b)
UnmapEnd-suc kernel_end root m m₁ map xs v n panic leaf kept (k, lt, e) =
    (suc k, omega arith, ap is_leaf (sym (update-later map v 0 k)) ∙ e)
UnmapEnd-suc kernel_end root m m₁ map xs v n out_of_fuel leaf kept h = h

unmap_loop-UnmapEnd :
    (kernel_end root : ℕ) (n : ℕ) (m : Mem) (map : ℕ → ℕ) (xs : List ℕ) (v : ℕ)
    → dmwin_mask ≤ kernel_end
    → Maps kernel_end root m map xs
    → v + n ≤ 2 ^ 34
    → UnmapEnd kernel_end root m map xs v n (unmap_loop n kernel_end false m root (v * pgsize))
unfolding unmap_loop
unmap_loop-UnmapEnd kernel_end root zero m map xs v low s lt =
    (λ k h. absurd (omega (arith, h)), Maps-ext (unmapped-zero map v) s, λ b. refl)
unmap_loop-UnmapEnd kernel_end root (suc n) m map xs v low s lt =
    let page : v * pgsize / pgsize ≡ v = omega arith in
    let next : v * pgsize + pgsize ≡ (v + 1) * pgsize = omega arith in
    elim (unmap_page_lem m map xs (v * pgsize) low s (omega arith)) [
      | inl (bad, e) ↦ rw e (0, omega arith, ap (λ q. is_leaf (map q)) (omega arith) ∙ bad)
      | inr (leaf, (m', e, s', kept)) ↦
          rw (e, next)
            (UnmapEnd-suc kernel_end root m m' map xs v n
              (unmap_loop n kernel_end false m' root ((v + 1) * pgsize))
              (ap (λ q. is_leaf (map q)) (sym page) ∙ leaf) kept
              (unmap_loop-UnmapEnd kernel_end root n m' (update map v 0) xs (v + 1) low
                (subst (λ q. Maps kernel_end root m' (update map q 0) xs) page s') (omega arith)))
    ]

-- vmunmap without freeing, on an aligned address and pages below MAXVA, ends as UnmapEnd says:
-- each page had a valid entry and has none now, the other entries and the data as they were, or
-- it panics, only where one of the pages had none.
pub vmunmap-UnmapEnd :
    (kernel_end root : ℕ) (m : Mem) (map : ℕ → ℕ) (xs : List ℕ) (va n : ℕ)
    → dmwin_mask ≤ kernel_end
    → Maps kernel_end root m map xs
    → va % pgsize ≡ 0
    → va / pgsize + n ≤ 2 ^ 34
    → UnmapEnd kernel_end root m map xs (va / pgsize) n (vmunmap kernel_end false m root va n)
unfolding vmunmap
vmunmap-UnmapEnd kernel_end root m map xs va n low s aligned lt =
    let start : va / pgsize * pgsize ≡ va = omega arith in
    rw aligned (
      subst
        (λ q.
          UnmapEnd kernel_end root m map xs (va / pgsize) n
            (unmap_loop n kernel_end false m root q))
        start (unmap_loop-UnmapEnd kernel_end root n m map xs (va / pgsize) low s lt))

unmapped-mapped :
    (map : ℕ → ℕ) (v n pa perm u : ℕ)
    → ((k : ℕ) → k < n → map (v + k) ≡ 0)
    → unmapped (mapped map v n pa perm) v n u ≡ map u
unmapped-mapped map v n pa perm u none_there = elim (Bool-cases (leb v u && ltb u (v + n))) [
  | inl within ↦
      let same : v + (u - v) ≡ u = ground (arith, within) in
      rw within (sym (none_there (u - v) (ground (arith, within))) ∙ ap map same)
  | inr out ↦ rw out refl
]

mapped-is_leaf :
    (map : ℕ → ℕ) (v n pa perm k : ℕ)
    → perm < 2 ^ 9
    → k < n
    → is_leaf (mapped map v n pa perm (v + k)) ≡ true
mapped-is_leaf map v n pa perm k small lt =
    let within : (leb v (v + k) && ltb (v + k) (v + n)) ≡ true = ground arith in
    let (valid, _, _, leaf) = leaf_pte_lem (pa + (v + k - v) * pgsize) perm small in
    rw (within, valid, ==_of_ne leaf) refl

undone :
    (kernel_end root : ℕ) (m : Mem) (map : ℕ → ℕ) (xs : List ℕ) (v n pa perm : ℕ) (r : Outcome Mem)
    → perm < 2 ^ 9
    → ((k : ℕ) → k < n → map (v + k) ≡ 0)
    → UnmapEnd kernel_end root m (mapped map v n pa perm) xs v n r
    → (m' : Mem) × (r ≡ ok m') × Maps kernel_end root m' map xs
undone kernel_end root m map xs v n pa perm (ok m') small none_there (_, s, _) =
    (m', refl, Maps-ext (λ u. unmapped-mapped map v n pa perm u none_there) s)
undone kernel_end root m map xs v n pa perm panic small none_there (k, lt, e) =
    absurd (ground (arith, e, mapped-is_leaf map v n pa perm k small lt))
undone kernel_end root m map xs v n pa perm out_of_fuel small none_there h = absurd h

-- After mappages mapped n pages from the aligned address va on, with flags of the low nine bits,
-- where no page had an entry before, vmunmap of the n pages without freeing does not panic and
-- leaves the map from pages to entries as it was before mappages.
pub vmunmap-mappages :
    (kernel_end root : ℕ) (m : Mem) (map : ℕ → ℕ) (xs : List ℕ) (va n pa perm : ℕ)
    → dmwin_mask ≤ kernel_end
    → Maps kernel_end root m (mapped map (va / pgsize) n pa perm) xs
    → perm < 2 ^ 9
    → ((k : ℕ) → k < n → map (va / pgsize + k) ≡ 0)
    → va % pgsize ≡ 0
    → va / pgsize + n ≤ 2 ^ 34
    → (m' : Mem) × (vmunmap kernel_end false m root va n ≡ ok m') × Maps kernel_end root m' map xs
vmunmap-mappages kernel_end root m map xs va n pa perm low s small none_there aligned lt =
    undone kernel_end root m map xs (va / pgsize) n pa perm (vmunmap kernel_end false m root va n)
      small none_there
      (vmunmap-UnmapEnd kernel_end root m (mapped map (va / pgsize) n pa perm) xs va n low s aligned
        lt)
