-- ===== src/Fat/Ecache/Counts.antt =====
-- What holds of the entry cache of kernel/fat32.c between its calls.
use mathlib.Core.Path.{subst}
use avx_loong_arch.Prelude.{
  ℕ, ◌+◌, ◌<◌, ◌≡◌, refl, sym, ap, ◌∙◌, ◌⊎◌, inl, inr, true, false, arith, ◌==◌, Bool-cases,
  eq_of_==, ==_refl, has,
}
use avx_loong_arch.Fat.Ecache.Order.{pos}
use avx_loong_arch.Fat.Ecache.Children.{
  one_if, holds, children, Distinct, children-remove, children-set_entry, children-change,
}
use avx_loong_arch.Fat.Ecache.{is_blank, Entries, Ecache, set_entry}

-- One more user of entry k.
abbrev pub plus : ℕ → (ℕ → ℕ) → ℕ → ℕ
plus k users i = one_if (k == i) + users i

-- Entry k is in the list and holds a parent.
abbrev pub IsNode : Ecache → ℕ → Type 0
IsNode c k = (has k c.order ≡ true) × (is_blank (c.entries k).valid ≡ false)

-- Each entry has a reference from each of its users and from each used entry below it. Directories
-- are less deep than what is in them. A directory that nobody uses stands before all that it is the
-- parent of.
pub record IsCache (depth users : ℕ → ℕ) (c : Ecache) : Type 0 where
  pub distinct : Distinct c.order
  pub rootless : has 0 c.order ≡ false
  pub root : is_blank (c.entries 0).valid ≡ false
  pub refs : (i : ℕ) → (c.entries i).ref ≡ users i + children c.entries i c.order
  pub known :
      (k : ℕ) → IsNode c k → ((c.entries k).parent ≡ 0) ⊎ (has (c.entries k).parent c.order ≡ true)
  pub deeper : (k : ℕ) → IsNode c k → depth (c.entries k).parent < depth k
  pub clean : (k : ℕ) → IsNode c k → is_blank (c.entries (c.entries k).parent).valid ≡ false
  pub recent :
      (k : ℕ)
      → IsNode c k
      → ((c.entries k).parent ≡ 0)
        ⊎ ((0 < (c.entries (c.entries k).parent).ref)
            ⊎ (pos (c.entries k).parent c.order < pos k c.order))

-- A used entry holds a reference to its parent.
pub parent-used :
    {depth users : ℕ → ℕ} (c : Ecache) (k : ℕ)
    → IsCache depth users c
    → IsNode c k
    → 0 < (c.entries k).ref
    → 0 < (c.entries (c.entries k).parent).ref
parent-used c k s (inside, node) used =
    let p = (c.entries k).parent in
    let held : holds (c.entries k) p ≡ true = ground (arith, node, used, ==_refl p) in
    let mine = children-remove (c.entries) p k c.order inside in
    let one : one_if (holds (c.entries k) p) ≡ 1 = rw held refl in
    omega (arith, s.refs p, mine, one)

-- Entry k with another count.
abbrev pub changed : Ecache → ℕ → ℕ → Entries
changed c k r = set_entry c.entries k (record (c.entries k) { ref = r })

module _ (depth users users' : ℕ → ℕ) (c : Ecache) (k r : ℕ) (s : IsCache depth users c) where
  changed-parent : (j : ℕ) → ((changed c k r) j).parent ≡ (c.entries j).parent
  changed-parent j = elim (Bool-cases (k == j)) [
    | inl e ↦ rw e (ap (λ x. (c.entries x).parent) (eq_of_== e))
    | inr ne ↦ rw ne refl
  ]

  changed-valid : (j : ℕ) → ((changed c k r) j).valid ≡ (c.entries j).valid
  changed-valid j = elim (Bool-cases (k == j)) [
    | inl e ↦ rw e (ap (λ x. (c.entries x).valid) (eq_of_== e))
    | inr ne ↦ rw ne refl
  ]

  changed-IsNode : (j : ℕ) → IsNode (record c { entries = (changed c k r) }) j → IsNode c j
  changed-IsNode j (h, b) = (h, ap is_blank (sym (changed-valid j)) ∙ b)

  -- A change of a count that does not fall to 0 under a directory with entries below it.
  pub changed_counts-IsCache :
      ((i : ℕ) → (changed c k r i).ref ≡ users' i + children (changed c k r) i c.order)
      → ((k ≡ 0) ⊎ ((is_blank (c.entries k).valid ≡ true) ⊎ (0 < r)))
      → IsCache depth users' (record c { entries = (changed c k r) })
  changed_counts-IsCache counts safe = record {
    distinct = s.distinct;
    rootless = s.rootless;
    root = ap is_blank (changed-valid 0) ∙ s.root;
    refs = counts;
    known = λ j n.
        subst (λ p. (p ≡ 0) ⊎ (has p c.order ≡ true)) (sym (changed-parent j))
          (s.known j (changed-IsNode j n));
    deeper = λ j n.
        subst (λ p. depth p < depth j) (sym (changed-parent j)) (s.deeper j (changed-IsNode j n));
    clean = λ j n.
        ap (λ p. is_blank ((changed c k r) p).valid) (changed-parent j)
        ∙ ap is_blank (changed-valid (c.entries j).parent)
        ∙ s.clean j (changed-IsNode j n);
    recent = λ j n.
        subst (λ p. (p ≡ 0) ⊎ ((0 < ((changed c k r) p).ref) ⊎ (pos p c.order < pos j c.order)))
          (sym (changed-parent j))
          (elim (s.recent j (changed-IsNode j n)) [
            | inl at_root ↦ inl at_root
            | inr (inr before) ↦ inr (inr before)
            | inr (inl used) ↦ elim (Bool-cases (k == (c.entries j).parent)) [
              | inr other ↦ inr (inl (rw other used))
              | inl e ↦ elim safe [
                | inl k_root ↦ inl (sym (eq_of_== e) ∙ k_root)
                | inr (inl k_blank) ↦
                    let parent_blank : is_blank (c.entries (c.entries j).parent).valid ≡ true =
                      ap (λ x. is_blank (c.entries x).valid) (sym (eq_of_== e)) ∙ k_blank in
                    absurd (cc (parent_blank, s.clean j (changed-IsNode j n)))
                | inr (inr pos_r) ↦ inr (inl (rw e pos_r))
              ]
            ]
          ]);
  }

module _ (depth users users' : ℕ → ℕ) (c : Ecache) (k r : ℕ) (s : IsCache depth users c)
    (held : (has k c.order ≡ false)
      ⊎ ((i : ℕ) → holds (record (c.entries k) { ref = r }) i ≡ holds (c.entries k) i))
    (here : users' k + (c.entries k).ref ≡ users k + r)
    (others : (i : ℕ) → (k == i) ≡ false → users' i ≡ users i) where
  changed-children : (i : ℕ) → children (changed c k r) i c.order ≡ children c.entries i c.order
  changed-children i = elim (Bool-cases (has k c.order)) [
    | inr out ↦ children-set_entry c.entries i k (record (c.entries k) { ref = r }) c.order out
    | inl inside ↦ elim held [
      | inl out ↦ absurd (cc)
      | inr same ↦
          let change =
            children-change c.entries i k (record (c.entries k) { ref = r }) c.order s.distinct
              inside in
          let equal = ap one_if (same i) in omega (arith, change, equal)
    ]
  ]

  changed-refs : (i : ℕ) → ((changed c k r) i).ref ≡ users' i + children (changed c k r) i c.order
  changed-refs i = elim (Bool-cases (k == i)) [
    | inl e ↦
        let at_i : users' i + (c.entries i).ref ≡ users i + r =
          subst (λ x. users' x + (c.entries x).ref ≡ users x + r) (eq_of_== e) here in
        let now : ((changed c k r) i).ref ≡ r = rw e refl in
        omega (arith, at_i, now, s.refs i, changed-children i)
    | inr ne ↦
        let now : ((changed c k r) i).ref ≡ (c.entries i).ref = rw ne refl in
        omega (arith, now, s.refs i, changed-children i, others i ne)
  ]

  -- So is a change that keeps what the entry holds.
  pub changed-IsCache :
      ((k ≡ 0) ⊎ ((is_blank (c.entries k).valid ≡ true) ⊎ (0 < r)))
      → IsCache depth users' (record c { entries = (changed c k r) })
  changed-IsCache safe = changed_counts-IsCache depth users users' c k r s changed-refs safe
