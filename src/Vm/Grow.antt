-- ===== src/Vm/Grow.antt =====
-- walk with alloc set, where it makes a table.
use mathlib.Core.Path.{subst₂}
use avx_loong_arch.Prelude.{
  ℕ, suc, ◌+◌, ◌*◌, ◌/◌, ◌%◌, ◌≤◌, ◌<◌, ◌≡◌, refl, sym, ap₂, ◌∙◌, ◌≢◌, ◌⊎◌, inl, inr, false, List,
  ◌∷◌, arith, ◌==◌, Bool-cases, eq_of_==, ne_of_==, ==_refl, ==_of_ne, has,
}
use avx_loong_arch.Vm.Tree.{
  Link, slot, IsTree, entry, with_table, table_pte-Link, slot_once, slot-page,
}
use avx_loong_arch.Vm.{dmwin_mask, table_pte, Mem, set_page, set_word}
use avx_loong_arch.Kalloc.FreeList.{IsPage, FreeList}
use avx_loong_arch.Kalloc.{pgsize, Kmem}

-- The memory after a new table at x was entered in the word `pte`.
abbrev pub made : Mem → Kmem → ℕ → ℕ → Mem
made m k x pte = set_word (set_page (set_page (record m { kmem = k }) x 5) x 0) pte (table_pte x)

module _ {kernel_end root : ℕ} (low : dmwin_mask ≤ kernel_end) (m : Mem) (page : ℕ → ℕ → ℕ) (x : ℕ)
    (xs : List ℕ) (t : IsTree kernel_end root m page (x ∷ xs)) (k : Kmem)
    (free : FreeList kernel_end k xs) (l p : ℕ) (lt : l < 3) (up : page (suc l) (p / 512) ≢ 0)
    (down : page l p ≡ 0) where
  private_x : IsPage kernel_end x
  private_x = t.free.chain.1

  x-apart : has x xs ≡ false
  x-apart = t.free.chain.2

  -- The new page is none of the tables.
  x-new : (l' p' : ℕ) → page l' p' ≢ 0 → page l' p' ≢ x
  x-new l' p' h e = ground (arith, t.apart l' p' h, e)

  made-other :
      (l' p' : ℕ)
      → page l' (p' / 512) ≢ 0
      → ((l' ≡ suc l) → ¬ (p' ≡ p))
      → (made m k x (slot page (suc l) p)).words (slot page l' p') ≡ m.words (slot page l' p')
  made-other l' p' h ne =
      let distinct : slot page (suc l) p ≢ slot page l' p' = λ e.
        let same = slot_once m page (x ∷ xs) t l' p' (suc l) p h up (sym e) in
        ne (same.0) (same.1) in
      let in_page = slot-page m page (x ∷ xs) t l' p' h in
      let other : page l' (p' / 512) / pgsize ≢ x / pgsize = λ e.
        x-new l' (p' / 512) h
          (omega (arith, e, private_x.aligned, (t.pages l' (p' / 512) h).aligned)) in
      rw (==_of_ne distinct, in_page, ==_of_ne other)

  made-zero : (i : ℕ) → (made m k x (slot page (suc l) p)).words (x + 8 * (i % 512)) ≡ 0
  made-zero i =
      let in_page = slot-page m page (x ∷ xs) t (suc l) p up in
      let distinct : slot page (suc l) p ≢ x + 8 * (i % 512) = λ e.
        x-new (suc l) (p / 512) up
          (omega (arith, e, in_page, private_x.aligned, (t.pages (suc l) (p / 512) up).aligned)) in
      let inside : (x + 8 * (i % 512)) / pgsize ≡ x / pgsize = omega (arith, private_x.aligned) in
      rw (==_of_ne distinct, inside, ==_refl (x / pgsize))

  grown-here : with_table page l p x l p ≡ x
  grown-here = ground arith

  grown-other : (l' p' : ℕ) → ((l' ≡ l) → ¬ (p' ≡ p)) → with_table page l p x l' p' ≡ page l' p'
  grown-other l' p' ne = ground arith

  Place-cases :
      (l' p' : ℕ)
      → ((l' ≡ l) × (p' ≡ p) × (with_table page l p x l' p' ≡ x))
        ⊎ (((l' ≡ l) → ¬ (p' ≡ p)) × (with_table page l p x l' p' ≡ page l' p'))
  Place-cases l' p' = elim (Bool-cases (l == l')) [
    | inr ne ↦ inr (λ e. absurd (ne_of_== ne (sym e)), rw ne refl)
    | inl e ↦ elim (Bool-cases (p == p')) [
      | inl e' ↦ inl (sym (eq_of_== e), sym (eq_of_== e'), rw (e, e') refl)
      | inr ne ↦ inr (λ _ e'. absurd (ne_of_== ne (sym e')), rw (e, ne) refl)
    ]
  ]

  x-pos : x ≢ 0
  x-pos = omega (arith, private_x.above, low)

  not_up : (l' p' : ℕ) → page (suc l') (p' / 512) ≡ 0 → (l' ≡ l) → ¬ (p' ≡ p)
  not_up l' p' z e e' = up (subst₂ (λ a b. page (suc a) (b / 512) ≡ 0) e e' z)

  grown-orphan :
      (l' p' : ℕ)
      → l' < 3
      → with_table page l p x (suc l') (p' / 512) ≡ 0
      → with_table page l p x l' p' ≡ 0
  grown-orphan l' p' lt' z = elim (Place-cases (suc l') (p' / 512)) [
    | inl (_, _, v) ↦ absurd (x-pos (sym v ∙ z))
    | inr (_, v) ↦
        let z' : page (suc l') (p' / 512) ≡ 0 = sym v ∙ z in
        elim (Place-cases l' p') [
          | inl (e, e', _) ↦ absurd (not_up l' p' z' e e')
          | inr (_, v') ↦ v' ∙ t.orphan l' p' lt' z'
        ]
  ]

  -- No table is below the new one.
  below_new : (l' p' : ℕ) → suc l' ≡ l → p' / 512 ≡ p → with_table page l p x l' p' ≡ 0
  below_new l' p' e e' = elim (Place-cases l' p') [
    | inl (e'', _, _) ↦ absurd (omega (arith, e, e''))
    | inr (_, v) ↦ v ∙ t.orphan l' p' (omega (arith, e, lt)) (ap₂ page e e' ∙ down)
  ]

  old_linked :
      (l' p' : ℕ)
      → l' < 3
      → page (suc l') (p' / 512) ≢ 0
      → Link
          ((made m k x (slot page (suc l) p)).words (slot page (suc l') p'))
          (with_table page l p x l' p')
  old_linked l' p' lt' up' = elim (Place-cases l' p') [
    | inl (e, e', v) ↦
        let here : slot page (suc l) p ≡ slot page (suc l') p' =
          ap₂ (λ a b. slot page (suc a) b) (sym e) (sym e') in
        rw (v, here, ==_refl (slot page (suc l') p'))
          (inr ((table_pte-Link low x private_x).0, (table_pte-Link low x private_x).1, x-pos))
    | inr (ne, v) ↦
        rw (v, made-other (suc l') p' up' (λ e. ne (omega (arith, e)))) (t.link l' p' lt' up')
  ]

  grown_linked :
      (l' p' : ℕ)
      → l' < 3
      → with_table page l p x (suc l') (p' / 512) ≢ 0
      → Link
          ((made m k x (slot page (suc l) p)).words (slot (with_table page l p x) (suc l') p'))
          (with_table page l p x l' p')
  grown_linked l' p' lt' up' = elim (Place-cases (suc l') (p' / 512)) [
    | inl (e, e', v) ↦ rw (v, made-zero p') (inl (refl, below_new l' p' e e'))
    | inr (_, v) ↦ rw v (old_linked l' p' lt' (λ z. up' (v ∙ z)))
  ]

  grown-once :
      (l₁ p₁ l₂ p₂ : ℕ)
      → with_table page l p x l₁ p₁ ≢ 0
      → with_table page l p x l₁ p₁ ≡ with_table page l p x l₂ p₂
      → (l₁ ≡ l₂) × (p₁ ≡ p₂)
  grown-once l₁ p₁ l₂ p₂ h e = elim (Place-cases l₁ p₁) [
    | inl (a, b, v) ↦ elim (Place-cases l₂ p₂) [
      | inl (a', b', _) ↦ (a ∙ sym a', b ∙ sym b')
      | inr (_, v') ↦
          let e' : page l₂ p₂ ≡ x = sym v' ∙ sym e ∙ v in
          absurd (x-new l₂ p₂ (λ z. x-pos (sym e' ∙ z)) e')
    ]
    | inr (_, v) ↦
        let h' : page l₁ p₁ ≢ 0 = λ z. h (v ∙ z) in
        elim (Place-cases l₂ p₂) [
          | inl (_, _, v') ↦ absurd (x-new l₁ p₁ h' (sym v ∙ e ∙ v'))
          | inr (_, v') ↦ t.once l₁ p₁ l₂ p₂ h' (sym v ∙ e ∙ v')
        ]
  ]

  grown-each :
      (P : ℕ → Type 0)
      → P x
      → ((l' p' : ℕ) → page l' p' ≢ 0 → P (page l' p'))
      → (l' p' : ℕ) → with_table page l p x l' p' ≢ 0
      → P (with_table page l p x l' p')
  grown-each P new old l' p' h = elim (Place-cases l' p') [
    | inl (_, _, v) ↦ rw v new
    | inr (_, v) ↦ rw v (old l' p' (λ z. h (v ∙ z)))
  ]

  pub made-IsTree :
      IsTree kernel_end root (made m k x (slot page (suc l) p)) (with_table page l p x) xs
  made-IsTree = record {
    top = grown-other 3 0 (λ e. absurd (omega (arith, e, lt))) ∙ t.top;
    rooted = t.rooted;
    orphan = grown-orphan;
    link = grown_linked;
    once = grown-once;
    pages = grown-each (IsPage kernel_end) private_x t.pages;
    apart = grown-each (λ q. has q xs ≡ false) x-apart (λ l' p' h. ground (arith, t.apart l' p' h));
    free = free;
  }

  -- The entries at level 0 are what they were: a new table of level 0 has no valid entry.
  pub made-entry :
      (v : ℕ) → entry (with_table page l p x) (made m k x (slot page (suc l) p)) v ≡ entry page m v
  made-entry v = elim (Place-cases 0 (v / 512)) [
    | inl (e, e', w) ↦
        let none_there : page 0 (v / 512) ≡ 0 = ap₂ page e e' ∙ down in
        rw (w, none_there, ==_of_ne x-pos, made-zero v) refl
    | inr (_, w) ↦ elim (Bool-cases (page 0 (v / 512) == 0)) [
      | inl z ↦ rw (w, z) refl
      | inr nz ↦ rw (w, nz, made-other 0 v (ne_of_== nz) (λ e. absurd (omega (arith, e)))) refl
    ]
  ]
