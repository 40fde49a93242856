-- ===== src/Vm/Walk.antt =====
-- walk of kernel/vm.c on a tree of page tables, without and with alloc.
use mathlib.Core.Path.{subst}
use avx_loong_arch.Prelude.{
  ℕ, zero, suc, ◌+◌, ◌*◌, ◌/◌, ◌%◌, ◌^◌, ◌≤◌, ◌<◌, ◌≡◌, refl, sym, ap, ◌∙◌, ◌≢◌, ◌⊎◌, inl, inr,
  Bool, true, false, List, [], ◌∷◌, arith, leb, ◌==◌, Bool-cases, eq_of_==, ne_of_==, ==_refl,
  ==_of_ne, has, ok,
}
use avx_loong_arch.Vm.Grow.{made, made-IsTree, made-entry}
use avx_loong_arch.Vm.Tree.{
  region, slot, IsTree, entry, with_table, next_table-old, next_table-none, next_table-make,
}
use avx_loong_arch.Vm.{dmwin_mask, maxva, px, Mem, set_page, alloc_page, walk_levels, walk}
use avx_loong_arch.Kalloc.FreeList.{IsPage, FreeList, kalloc-nil, kalloc-cons}
use avx_loong_arch.Kalloc.{pgsize, Kmem}

-- What walk found: the entry for va, or 0 where there is no table for it.
abbrev pub Found : (ℕ → ℕ → ℕ) → ℕ → ℕ → Type 0
Found page va a =
    ((page 0 (va / 2 ^ 21) ≡ 0) × (a ≡ 0))
    ⊎ ((page 0 (va / 2 ^ 21) ≢ 0) × (a ≡ page 0 (va / 2 ^ 21) + 8 * px 0 va))

pub page-pos : {kernel_end : ℕ} (x : ℕ) → dmwin_mask ≤ kernel_end → IsPage kernel_end x → x ≢ 0
page-pos x low p e = omega (arith, p.above, low, e)

orphan_below :
    {kernel_end root : ℕ} (m : Mem) (page : ℕ → ℕ → ℕ) (xs : List ℕ)
    → IsTree kernel_end root m page xs
    → (l va : ℕ) → l < 3
    → page l (region l va) ≡ 0
    → page 0 (va / 2 ^ 21) ≡ 0
orphan_below m page xs t zero va lt z = z
orphan_below m page xs t (suc l) va lt z =
    orphan_below m page xs t l va (omega arith) (t.orphan l (region l va) (omega arith) z)

-- Without alloc, the rounds change nothing and find the entry where there is a table for it.
pub walk_levels-Found :
    {kernel_end root : ℕ} (m : Mem) (page : ℕ → ℕ → ℕ) (xs : List ℕ)
    → IsTree kernel_end root m page xs
    → (l va : ℕ) → l ≤ 3
    → page l (region l va) ≢ 0
    → (a : ℕ) × (walk_levels l false m (page l (region l va)) va ≡ (a, m)) × Found page va a
unfolding walk_levels
walk_levels-Found m page xs t zero va le up = (_, refl, inr (up, refl))
walk_levels-Found m page xs t (suc l) va le up = elim (Bool-cases (page l (region l va) == 0)) [
  | inl z ↦
      rw (next_table-none m page xs t l va (omega arith) up (eq_of_== z))
        (0, refl, inl (orphan_below m page xs t l va (omega arith) (eq_of_== z), refl))
  | inr nz ↦
      rw (next_table-old m page xs t false l va (omega arith) up (ne_of_== nz), nz)
        (walk_levels-Found m page xs t l va (omega arith) (ne_of_== nz))
]

pub alloc_page-none :
    {kernel_end : ℕ} (m : Mem) → FreeList kernel_end m.kmem [] → alloc_page m ≡ (0, m)
alloc_page-none m free = rw (kalloc-nil m.kmem free) refl

pub alloc_page-one :
    {kernel_end : ℕ} (m : Mem) (x : ℕ) (xs : List ℕ)
    → dmwin_mask ≤ kernel_end
    → FreeList kernel_end m.kmem (x ∷ xs)
    → (k : Kmem) × (alloc_page m ≡ (x, set_page (record m { kmem = k }) x 5))
      × FreeList kernel_end k xs
alloc_page-one m x xs low free =
    let (k, e, rest, _, _) = kalloc-cons m.kmem x xs (omega (arith, low)) free in
    (k, rw (e, ==_of_ne (page-pos x low free.chain.1)) refl, rest)

-- What walk with alloc leaves, and the entry it found: a tree in which every entry at level 0 is
-- what it was, on the free pages `left` that it did not take. Where it found no entry, no page is
-- left. The data in pages that were not free is as it was.
pub record Grew (kernel_end root : ℕ) (m : Mem) (page : ℕ → ℕ → ℕ) (xs : List ℕ) (va : ℕ)
    (r : ℕ × Mem) : Type 0 where
  pub page' : ℕ → ℕ → ℕ
  pub left : List ℕ
  pub tree : IsTree kernel_end root (r.1) page' left
  pub entries : (v : ℕ) → entry page' (r.1) v ≡ entry page m v
  pub found :
      ((r.0 ≡ 0) × (left ≡ []) × (page' 0 (va / 2 ^ 21) ≡ 0))
      ⊎ ((page' 0 (va / 2 ^ 21) ≢ 0) × (r.0 ≡ page' 0 (va / 2 ^ 21) + 8 * px 0 va))
  pub fewer : (q : ℕ) → has q xs ≡ false → has q left ≡ false
  pub same_data : (b : ℕ) → has (b / pgsize * pgsize) xs ≡ false → (r.1).bytes b ≡ m.bytes b

made-bytes :
    {kernel_end : ℕ} (m : Mem) (k : Kmem) (x : ℕ) (xs : List ℕ) (pte : ℕ)
    → IsPage kernel_end x
    → (b : ℕ) → has (b / pgsize * pgsize) (x ∷ xs) ≡ false
    → (made m k x pte).bytes b ≡ m.bytes b
made-bytes m k x xs pte page b h =
    let ne : b / pgsize ≢ x / pgsize = λ e. ground (arith, h, e, page.aligned) in
    rw (==_of_ne ne) refl

-- What the rounds from level l down do.
abbrev Rounds : ℕ → ℕ → ℕ → Type 0
Rounds kernel_end root l =
    (m : Mem) (page : ℕ → ℕ → ℕ) (xs : List ℕ) (va : ℕ)
    → IsTree kernel_end root m page xs
    → page l (region l va) ≢ 0
    → Grew kernel_end root m page xs va (walk_levels l true m (page l (region l va)) va)

module _ {kernel_end root : ℕ} (low : dmwin_mask ≤ kernel_end) where
  -- The rounds after the one that made a table at x, taken together with it.
  Grew-made :
      (m : Mem) (page : ℕ → ℕ → ℕ) (x : ℕ) (xs : List ℕ)
      (t : IsTree kernel_end root m page (x ∷ xs))
      → (k : Kmem) (free : FreeList kernel_end k xs) (l p : ℕ) (lt : l < 3)
      → (up : page (suc l) (p / 512) ≢ 0) → (down : page l p ≡ 0) → (va : ℕ) (r : ℕ × Mem)
      → Grew kernel_end root (made m k x (slot page (suc l) p)) (with_table page l p x) xs va r
      → Grew kernel_end root m page (x ∷ xs) va r
  Grew-made m page x xs t k free l p lt up down va r g = record {
    page' = g.page';
    left = g.left;
    tree = g.tree;
    entries = λ v. g.entries v ∙ made-entry low m page x xs t k free l p lt up down v;
    found = g.found;
    fewer = λ q h. g.fewer q (ground (arith, h));
    same_data = λ b h.
        g.same_data b (ground (arith, h))
        ∙ made-bytes m k x xs (slot page (suc l) p) (t.free.chain.1) b h;
  }

  Grew-stop :
      (m : Mem) (page : ℕ → ℕ → ℕ) (xs : List ℕ) (va a : ℕ)
      → IsTree kernel_end root m page xs
      → ((a ≡ 0) × (xs ≡ []) × (page 0 (va / 2 ^ 21) ≡ 0))
        ⊎ ((page 0 (va / 2 ^ 21) ≢ 0) × (a ≡ page 0 (va / 2 ^ 21) + 8 * px 0 va))
      → Grew kernel_end root m page xs va (a, m)
  Grew-stop m page xs va a t found = record {
    page' = page;
    left = xs;
    tree = t;
    entries = λ v. refl;
    found = found;
    fewer = λ q h. h;
    same_data = λ b h. refl;
  }

  -- A round that needs a table, and those after it.
  walk_levels-make :
      (l : ℕ)
      → l < 3
      → Rounds kernel_end root l
      → (m : Mem) (page : ℕ → ℕ → ℕ) (xs : List ℕ) (va : ℕ) → IsTree kernel_end root m page xs
      → page (suc l) (region (suc l) va) ≢ 0
      → page l (region l va) ≡ 0
      → Grew kernel_end root m page xs va
          (walk_levels (suc l) true m (page (suc l) (region (suc l) va)) va)
  unfolding walk_levels
  walk_levels-make l lt rounds m page [] va t up z =
      rw (next_table-make m page [] t l va lt up z, alloc_page-none m t.free)
        (Grew-stop m page [] va 0 t (inl (refl, refl, orphan_below m page [] t l va lt z)))
  walk_levels-make l lt rounds m page (x ∷ xs) va t up z =
      let (k, e, free) = alloc_page-one m x xs low t.free in
      let nz = page-pos x low t.free.chain.1 in
      let p = region l va in
      let m' = made m k x (slot page (suc l) p) in
      let here : with_table page l p x l p ≡ x = rw (==_refl l, ==_refl p) refl in
      let next : Grew kernel_end root m' (with_table page l p x) xs va
          (walk_levels l true m' x va) =
        subst
          (λ q. Grew kernel_end root m' (with_table page l p x) xs va (walk_levels l true m' q va))
          here
          (rounds m' (with_table page l p x) xs va
            (made-IsTree low m page x xs t k free l p lt up z) (λ e'. nz (sym here ∙ e'))) in
      rw (next_table-make m page (x ∷ xs) t l va lt up z, e, ==_of_ne nz, ==_of_ne nz)
        (Grew-made m page x xs t k free l p lt up z va (walk_levels l true m' x va) next)

  pub walk_levels-Grew : (l : ℕ) → l ≤ 3 → Rounds kernel_end root l
  unfolding walk_levels
  walk_levels-Grew zero le m page xs va t up =
      Grew-stop m page xs va (page 0 (va / 2 ^ 21) + 8 * px 0 va) t (inr (up, refl))
  walk_levels-Grew (suc l) le m page xs va t up = elim (Bool-cases (page l (region l va) == 0)) [
    | inl z ↦
        walk_levels-make l (omega arith) (walk_levels-Grew l (omega arith)) m page xs va t up
          (eq_of_== z)
    | inr nz ↦
        rw (next_table-old m page xs t true l va (omega arith) up (ne_of_== nz), nz)
          (walk_levels-Grew l (omega arith) m page xs va t (ne_of_== nz))
  ]

walk-levels :
    (alloc : Bool) (m : Mem) (root va : ℕ)
    → va < maxva
    → walk alloc m root va ≡ ok (walk_levels 3 alloc m root va)
unfolding walk
walk-levels alloc m root va lt =
    let a : (va / 2 ^ 63 % 2 == 1) ≡ false = ==_of_ne (omega arith) in
    let b : (va / 2 ^ 60 % 2 == 1) ≡ false = ==_of_ne (omega arith) in
    let c : leb maxva va ≡ false = ground arith in rw (a, b, c) refl

-- The table of level 3 is the root.
top-region :
    {kernel_end root : ℕ} {m : Mem} {page : ℕ → ℕ → ℕ} {xs : List ℕ} (va : ℕ)
    → va < maxva
    → IsTree kernel_end root m page xs
    → page 3 (region 3 va) ≡ root
top-region {page = page} va lt t = ap (page 3) (omega arith) ∙ t.top

-- The entry for va without alloc, in memory as it was.
pub walk-Found :
    {kernel_end root : ℕ} (m : Mem) (page : ℕ → ℕ → ℕ) (xs : List ℕ) (va : ℕ)
    → IsTree kernel_end root m page xs
    → va < maxva
    → (a : ℕ) × (walk false m root va ≡ ok (a, m)) × Found page va a
walk-Found {root = root} m page xs va t lt =
    let top = top-region va lt t in
    let (a, e, found) =
      subst (λ q. (a : ℕ) × (walk_levels 3 false m q va ≡ (a, m)) × Found page va a) top
        (walk_levels-Found m page xs t 3 va (omega arith) (λ z. t.rooted (sym top ∙ z))) in
    (a, walk-levels false m root va lt ∙ ap ok e, found)

pub walk-Grew :
    {kernel_end root : ℕ} (m : Mem) (page : ℕ → ℕ → ℕ) (xs : List ℕ) (va : ℕ)
    → dmwin_mask ≤ kernel_end
    → IsTree kernel_end root m page xs
    → va < maxva
    → (r : ℕ × Mem) × (walk true m root va ≡ ok r) × Grew kernel_end root m page xs va r
walk-Grew {kernel_end} {root} m page xs va low t lt =
    let top = top-region va lt t in
    (
      walk_levels 3 true m root va,
      walk-levels true m root va lt,
      subst (λ q. Grew kernel_end root m page xs va (walk_levels 3 true m q va)) top
          (walk_levels-Grew low 3 (omega arith) m page xs va t (λ z. t.rooted (sym top ∙ z))),
    )
