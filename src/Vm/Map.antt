-- ===== src/Vm/Map.antt =====
-- The page tables of kernel/vm.c as a map from virtual pages to entries, and what mappages does
-- to it.
use avx_loong_arch.Prelude.{
  ℕ, suc, ◌+◌, ◌*◌, ◌/◌, ◌%◌, ◌^◌, ◌≤◌, ◌<◌, ◌≡◌, refl, sym, ap, ap₂, ◌∙◌, ◌≢◌, inl, inr, Bool,
  true, false, List, [], arith, ◌==◌, if◌then◌else◌, Bool-cases, eq_of_==, ne_of_==, ==_refl,
  ==_of_ne, has, Outcome, ok, panic, out_of_fuel,
}
use avx_loong_arch.Vm.Walk.{page-pos, Grew, walk-Grew}
use avx_loong_arch.Vm.Tree.{slot, IsTree, entry, slot_once}
use avx_loong_arch.Vm.{dmwin_mask, maxva, px, leaf_pte, Mem, set_word, enter_leaf, map_page}
use avx_loong_arch.Kalloc.{pgsize, update}

-- The page tables at root hold the entry `map v` for the virtual page v, 0 where there is none.
pub record Maps (kernel_end root : ℕ) (m : Mem) (map : ℕ → ℕ) (xs : List ℕ) : Type 0 where
  pub page : ℕ → ℕ → ℕ
  pub tree : IsTree kernel_end root m page xs
  pub entries : (v : ℕ) → entry page m v ≡ map v

-- An entry at level 0 is written.
module _ {kernel_end root : ℕ} (m : Mem) (page : ℕ → ℕ → ℕ) (xs : List ℕ)
    (t : IsTree kernel_end root m page xs) (v : ℕ) (there : page 0 (v / 512) ≢ 0) (w : ℕ) where
  set_leaf-other :
      (l p : ℕ)
      → page l (p / 512) ≢ 0
      → ((l ≡ 0) → ¬ (v ≡ p))
      → (set_word m (slot page 0 v) w).words (slot page l p) ≡ m.words (slot page l p)
  set_leaf-other l p h ne =
      let distinct : slot page 0 v ≢ slot page l p =
        λ e. let same = slot_once m page xs t 0 v l p there h e in ne (sym (same.0)) (same.1) in
      rw (==_of_ne distinct) refl

  pub set_leaf-IsTree : IsTree kernel_end root (set_word m (slot page 0 v) w) page xs
  set_leaf-IsTree = record {
    top = t.top;
    rooted = t.rooted;
    orphan = t.orphan;
    link = λ l p lt up.
        rw (set_leaf-other (suc l) p up (λ e. absurd (omega (arith, e)))) (t.link l p lt up);
    once = t.once;
    pages = t.pages;
    apart = t.apart;
    free = t.free;
  }

  pub set_leaf-entry :
      (u : ℕ) → entry page (set_word m (slot page 0 v) w) u ≡ update (entry page m) v w u
  set_leaf-entry u = elim (Bool-cases (v == u)) [
    | inl e ↦
        let here : page 0 (u / 512) ≢ 0 =
          λ z. there (ap (λ q. page 0 (q / 512)) (eq_of_== e) ∙ z) in
        let same : slot page 0 v ≡ slot page 0 u = ap (slot page 0) (eq_of_== e) in
        rw (e, ==_of_ne here, same, ==_refl (slot page 0 u)) refl
    | inr ne ↦ elim (Bool-cases (page 0 (u / 512) == 0)) [
      | inl z ↦ rw (ne, z) refl
      | inr nz ↦ rw (ne, nz, set_leaf-other 0 u (ne_of_== nz) (λ _. ne_of_== ne)) refl
    ]
  ]

-- No other page is free than before, and the data in the pages that were not free is as it was.
abbrev pub Kept : Mem → List ℕ → Mem → List ℕ → Type 0
Kept m xs m' xs' =
    ((q : ℕ) → has q xs ≡ false → has q xs' ≡ false)
    × ((b : ℕ) → has (b / pgsize * pgsize) xs ≡ false → m'.bytes b ≡ m.bytes b)

-- The ends of a round of mappages for the virtual page v that is to have the entry w: it is
-- entered, or no page is left for a table, or v is mapped already.
abbrev pub MapEnd : ℕ → ℕ → Mem → (ℕ → ℕ) → List ℕ → ℕ → ℕ → Outcome (Bool × Mem) → Type 0
MapEnd kernel_end root m map xs v w (ok (true, m')) =
    (map v % 2 ≢ 1)
    × ((xs' : List ℕ) × Maps kernel_end root m' (update map v w) xs' × Kept m xs m' xs')
MapEnd kernel_end root m map xs v w (ok (false, m')) =
    (map v % 2 ≢ 1) × Maps kernel_end root m' map [] × Kept m xs m' []
MapEnd kernel_end root m map xs v w panic = map v % 2 ≡ 1
MapEnd kernel_end root m map xs v w out_of_fuel = ⊥

-- The entry that walk found for the address a is that of the virtual page of a.
pub Found-slot :
    (page : ℕ → ℕ → ℕ) (a : ℕ) → page 0 (a / 2 ^ 21) + 8 * px 0 a ≡ slot page 0 (a / pgsize)
Found-slot page a = ap₂ (λ p i. page 0 p + 8 * i) (omega arith) (omega arith)

pub entry-there :
    (page : ℕ → ℕ → ℕ) (m : Mem) (v : ℕ)
    → page 0 (v / 512) ≢ 0
    → entry page m v ≡ m.words (slot page 0 v)
entry-there page m v h = rw (==_of_ne h) refl

pub Found-there :
    (page : ℕ → ℕ → ℕ) (a : ℕ) → page 0 (a / 2 ^ 21) ≢ 0 → page 0 (a / pgsize / 512) ≢ 0
Found-there page a h z = h (ap (page 0) (omega arith) ∙ z)

enter_leaf-MapEnd :
    {kernel_end root : ℕ} (m : Mem) (map : ℕ → ℕ) (xs : List ℕ) (s : Maps kernel_end root m map xs)
    → (a pa perm : ℕ) (r : ℕ × Mem) → dmwin_mask ≤ kernel_end
    → Grew kernel_end root m (s.page) xs a r
    → MapEnd kernel_end root m map xs (a / pgsize) (leaf_pte pa perm) (enter_leaf pa perm r)
enter_leaf-MapEnd {kernel_end} {root} m map xs s a pa perm (pte, m') low g = elim g.found [
  | inl (e, none_left, no_table) ↦
      let v = a / pgsize in
      let table : g.page' 0 (v / 512) ≡ 0 = ap (g.page' 0) (omega arith) ∙ no_table in
      let zero_entry : map v ≡ 0 = sym (s.entries v) ∙ sym (g.entries v) ∙ rw table refl in
      rw e (
        omega (arith, zero_entry),
        record {
          page = g.page';
          tree = rw (sym none_left) g.tree;
          entries = λ u. g.entries u ∙ s.entries u;
        },
        (λ q h. refl, g.same_data),
      )
  | inr (up, e) ↦
      let v = a / pgsize in
      let e' : pte ≡ slot (g.page') 0 v = e ∙ Found-slot (g.page') a in
      let there = Found-there (g.page') a up in
      let word : m'.words pte ≡ map v =
        ap (m'.words) e' ∙ sym (entry-there (g.page') m' v there) ∙ g.entries v ∙ s.entries v in
      let nz : pte ≢ 0 = λ z.
        page-pos (g.page' 0 (v / 512)) low (g.tree.pages 0 (v / 512) there)
          (omega (arith, z, e')) in
      elim (Bool-cases (map v % 2 == 1)) [
        | inl valid ↦ rw (==_of_ne nz, word, valid) (eq_of_== valid)
        | inr free ↦
            rw (==_of_ne nz, word, free, e')
              (
                ne_of_== free,
                (
                  g.left,
                  record {
                    page = g.page';
                    tree =
                        set_leaf-IsTree m' (g.page') (g.left) (g.tree) v there (leaf_pte pa perm);
                    entries = λ u.
                        set_leaf-entry m' (g.page') (g.left) (g.tree) v there (leaf_pte pa perm) u
                        ∙ ap (λ q. if v == u then leaf_pte pa perm else q)
                            (g.entries u ∙ s.entries u);
                  },
                  (g.fewer, g.same_data),
                ),
              )
      ]
]

-- One round of mappages, on every branch: see MapEnd.
pub map_page-MapEnd :
    {kernel_end root : ℕ} (m : Mem) (map : ℕ → ℕ) (xs : List ℕ) (a pa perm : ℕ)
    → dmwin_mask ≤ kernel_end
    → Maps kernel_end root m map xs
    → a < maxva
    → MapEnd kernel_end root m map xs (a / pgsize) (leaf_pte pa perm) (map_page m root a pa perm)
unfolding map_page
map_page-MapEnd m map xs a pa perm low s lt =
    let (r, e, g) = walk-Grew m (s.page) xs a low (s.tree) lt in
    rw e (enter_leaf-MapEnd m map xs s a pa perm r low g)
