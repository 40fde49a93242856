-- ===== src/Fat/Ecache/Put.antt =====
-- edup and eput of kernel/fat32.c on the counts of the entry cache.
use mathlib.Core.Path.{subst}
use avx_loong_arch.Prelude.{
  ℕ, zero, suc, ◌+◌, ◌-◌, ◌<◌, ◌≡◌, refl, sym, ap, ◌∙◌, ◌⊎◌, inl, inr, true, false, ◌&&◌, not, List,
  [], ◌∷◌, arith, ltb, ◌==◌, if◌then◌else◌, Bool-cases, eq_of_==, ne_of_==, ==_refl, ==_of_ne, has,
  ok,
}
use avx_loong_arch.Fat.Ecache.Counts.{plus, IsNode, IsCache, parent-used, changed-IsCache}
use avx_loong_arch.Fat.Ecache.Order.{pos, pos-remove, has-front}
use avx_loong_arch.Fat.Ecache.Children.{
  one_if, holds, children, has-remove_self, remove-Distinct, children-remove, children-set_entry,
}
use avx_loong_arch.Fat.Ecache.{
  is_gone, is_blank, Ecache, set_entry, edup, remove, Closed, truncated, updated, close_entry,
  last_use, eput,
}

abbrev pub parent_of : Ecache → ℕ → ℕ
parent_of c k = (c.entries k).parent

abbrev pub closed_cache : Ecache → ℕ → Ecache
closed_cache c k = record {
  entries = set_entry c.entries k (close_entry (c.entries k));
  order = k ∷ remove k c.order;
}

-- The entry k closed and moved to the front: its parent has a user more, in place of k.
module _ (depth users : ℕ → ℕ) (c : Ecache) (k : ℕ) (s : IsCache depth (plus k users) c)
    (inside : has k c.order ≡ true) (node : is_blank (c.entries k).valid ≡ false)
    (last : (c.entries k).ref ≡ 1) where
  not_parent : (k == (parent_of c k)) ≡ false
  not_parent = ==_of_ne (λ e. omega (arith, s.deeper k (inside, node), ap depth e))

  not_root : (k == 0) ≡ false
  not_root = ==_of_ne (λ e. cc (ap (λ x. has x c.order) e, s.rootless))

  holds_last : (i : ℕ) → holds (c.entries k) i ≡ ((parent_of c k) == i)
  holds_last i = rw (node, last) refl

  closed-refs :
      (i : ℕ)
      → ((closed_cache c k).entries i).ref
        ≡ plus (parent_of c k) users i
          + children (closed_cache c k).entries i (closed_cache c k).order
  closed-refs i =
      let old = children-remove c.entries i k c.order inside in
      let mine = holds_last i in
      let rest =
        children-set_entry c.entries i k (close_entry (c.entries k)) (remove k c.order)
          (has-remove_self k c.order s.distinct) in
      let none_held : holds ((closed_cache c k).entries k) i ≡ false =
        rw (==_refl k, last) (ground arith) in
      let none_here : one_if (holds ((closed_cache c k).entries k) i) ≡ 0 = rw none_held refl in
      let count : children c.entries i c.order
          ≡ one_if ((parent_of c k) == i) + children c.entries i (remove k c.order) =
        old ∙ ap (λ b. one_if b + children c.entries i (remove k c.order)) mine in
      let count' : children (closed_cache c k).entries i (closed_cache c k).order
          ≡ children c.entries i (remove k c.order) =
        omega (arith, none_here, rest) in
      elim (Bool-cases (k == i)) [
        | inl e ↦
            let apart : ((parent_of c k) == i) ≡ false = ground (arith, e, not_parent) in
            let before = s.refs i in
            let one : one_if (k == i) ≡ 1 = rw e refl in
            let zero_left : one_if ((parent_of c k) == i) ≡ 0 = rw apart refl in
            let at_k : (c.entries i).ref ≡ 1 =
              ap (λ x. (c.entries x).ref) (sym (eq_of_== e)) ∙ last in
            let now : ((closed_cache c k).entries i).ref ≡ 0 = rw e (omega (arith, last)) in
            omega (arith, before, one, zero_left, at_k, now, count, count')
        | inr ne ↦
            let before = s.refs i in
            let none_one : one_if (k == i) ≡ 0 = rw ne refl in
            let now : ((closed_cache c k).entries i).ref ≡ (c.entries i).ref = rw ne refl in
            omega (arith, before, none_one, now, count, count')
      ]

  closed-parent : (j : ℕ) → ((closed_cache c k).entries j).parent ≡ (c.entries j).parent
  closed-parent j = elim (Bool-cases (k == j)) [
    | inl e ↦ rw e (ap (λ x. (c.entries x).parent) (eq_of_== e))
    | inr ne ↦ rw ne refl
  ]

  closed-valid : (j : ℕ) → ((closed_cache c k).entries j).valid ≡ (c.entries j).valid
  closed-valid j = elim (Bool-cases (k == j)) [
    | inl e ↦ rw e (ap (λ x. (c.entries x).valid) (eq_of_== e))
    | inr ne ↦ rw ne refl
  ]

  closed-IsNode : (j : ℕ) → IsNode (closed_cache c k) j → IsNode c j
  closed-IsNode j (h, b) =
      (sym (has-front j k c.order inside) ∙ h, ap is_blank (sym (closed-valid j)) ∙ b)

  abbrev Recent : Ecache → ℕ → ℕ → Type 0
  Recent d p j = (p ≡ 0) ⊎ ((0 < (d.entries p).ref) ⊎ (pos p d.order < pos j d.order))

  closed-Recent : (j p : ℕ) → (k == j) ≡ false → Recent c p j → Recent (closed_cache c k) p j
  closed-Recent j p other (inl at_root) = inl at_root
  closed-Recent j p other (inr h) = elim (Bool-cases (k == p)) [
    | inl front ↦ inr (inr (rw (front, other) (omega arith)))
    | inr behind ↦ elim h [
      | inl used ↦ inr (inl (rw behind used))
      | inr before ↦
          let moved =
            pos-remove p j k c.order (λ e. ne_of_== behind (sym e)) (λ e. ne_of_== other (sym e))
              before in
          inr (inr (rw (behind, other) (omega (arith, moved))))
    ]
  ]

  closed-Recent_self : Recent (closed_cache c k) (parent_of c k) k
  closed-Recent_self =
      let used = parent-used c k s (inside, node) (omega (arith, last)) in
      inr (inl (rw not_parent used))

  pub closed-IsCache : IsCache depth (plus (parent_of c k) users) (closed_cache c k)
  closed-IsCache = record {
    distinct = (has-remove_self k c.order s.distinct, remove-Distinct k c.order s.distinct);
    rootless = has-front 0 k c.order inside ∙ s.rootless;
    root = rw not_root s.root;
    refs = closed-refs;
    known = λ j n. elim (s.known j (closed-IsNode j n)) [
      | inl at_root ↦ inl (closed-parent j ∙ at_root)
      | inr listed ↦ inr (
          ap (λ p. has p (k ∷ remove k c.order)) (closed-parent j)
          ∙ has-front (c.entries j).parent k c.order inside
          ∙ listed)
    ];
    deeper = λ j n.
        subst (λ p. depth p < depth j) (sym (closed-parent j)) (s.deeper j (closed-IsNode j n));
    clean = λ j n.
        ap (λ p. is_blank ((closed_cache c k).entries p).valid) (closed-parent j)
        ∙ ap is_blank (closed-valid (c.entries j).parent)
        ∙ s.clean j (closed-IsNode j n);
    recent = λ j n.
        subst (λ p. Recent (closed_cache c k) p j) (sym (closed-parent j))
          (elim (Bool-cases (k == j)) [
            | inl e ↦
                subst (λ x. Recent (closed_cache c k) (c.entries x).parent x) (eq_of_== e)
                  closed-Recent_self
            | inr other ↦
                closed-Recent j (c.entries j).parent other (s.recent j (closed-IsNode j n))
          ]);
  }

pub plus_self : (k : ℕ) (users : ℕ → ℕ) → plus k users k ≡ 1 + users k
plus_self k users = rw (==_refl k) refl

pub plus_other : (k i : ℕ) (users : ℕ → ℕ) → (k == i) ≡ false → plus k users i ≡ users i
plus_other k i users ne =
    let none_more : one_if (k == i) ≡ 0 = rw ne refl in omega (arith, none_more)

-- edup of root or of an entry in use counts one more user of it.
pub edup-IsCache :
    (depth users : ℕ → ℕ) (c : Ecache) (k : ℕ)
    → IsCache depth users c
    → (k ≡ 0) ⊎ (0 < (c.entries k).ref)
    → IsCache depth (plus k users) (edup c k)
unfolding edup
edup-IsCache depth users c k s used =
    changed-IsCache depth users (plus k users) c k ((c.entries k).ref + 1) s
      (elim used [
        | inl at_root ↦ inl (ap (λ x. has x c.order) at_root ∙ s.rootless)
        | inr pos_ref ↦ inr (λ i.
            let a : ltb 0 ((c.entries k).ref + 1) ≡ true = ground arith in
            let b : ltb 0 (c.entries k).ref ≡ true = ground (arith, pos_ref) in rw (a, b) refl)
      ])
      (omega (arith, plus_self k users)) (λ i ne. plus_other k i users ne) (inr (inr (omega arith)))

-- The use that is not the last.
drop_use :
    (depth users : ℕ → ℕ) (c : Ecache) (k : ℕ)
    → IsCache depth (plus k users) c
    → last_use k (c.entries k) ≡ false
    → IsCache depth users (record c {
      entries = set_entry c.entries k (record (c.entries k) { ref = (c.entries k).ref - 1 });
    })
drop_use depth users c k s more =
    let used : 0 < (c.entries k).ref = omega (arith, s.refs k, plus_self k users) in
    let safe : (k ≡ 0) ⊎ ((is_blank (c.entries k).valid ≡ true) ⊎ (0 < (c.entries k).ref - 1)) =
      elim (Bool-cases (k == 0)) [
        | inl at_root ↦ inl (eq_of_== at_root)
        | inr below ↦ elim (Bool-cases (is_blank (c.entries k).valid)) [
          | inl unset ↦ inr (inl unset)
          | inr set ↦ inr (inr (ground (arith, more, below, set, used)))
        ]
      ] in
    changed-IsCache depth (plus k users) users c k ((c.entries k).ref - 1) s
      (elim safe [
        | inl at_root ↦ inl (ap (λ x. has x c.order) at_root ∙ s.rootless)
        | inr (inl unset) ↦ inr (λ i. rw unset refl)
        | inr (inr pos_ref) ↦ inr (λ i.
            let a : ltb 0 ((c.entries k).ref - 1) ≡ true = ground (arith, pos_ref) in
            let b : ltb 0 (c.entries k).ref ≡ true = ground (arith, used) in rw (a, b) refl)
      ])
      (omega (arith, plus_self k users, used)) (λ i ne. sym (plus_other k i users ne)) safe

-- eput of an entry that has a user ends within one round for each directory above it, without a
-- panic, and takes that user off the counts; the references that it gives up to the directories
-- above go with it, and a directory that nobody uses any more stands before its entries.
pub eput-IsCache :
    (fuel : ℕ) (depth users : ℕ → ℕ) (c : Ecache) (k : ℕ)
    → depth k < fuel
    → IsCache depth (plus k users) c
    → (k ≡ 0) ⊎ (has k c.order ≡ true)
    → (closed : List Closed) × (c' : Ecache) × (eput fuel c k ≡ ok (closed, c'))
      × IsCache depth users c'
unfolding eput
eput-IsCache zero depth users c k enough s place = absurd (omega arith)
eput-IsCache (suc fuel) depth users c k enough s place =
    elim (Bool-cases (last_use k (c.entries k))) [
      | inr more ↦ rw more (
        [],
        record c {
          entries = set_entry c.entries k (record (c.entries k) { ref = (c.entries k).ref - 1 });
        },
        refl,
        drop_use depth users c k s more,
      )
      | inl last ↦
          let below : (k == 0) ≡ false = ground (arith, last) in
          let node : is_blank (c.entries k).valid ≡ false = ground (arith, last) in
          let one : (c.entries k).ref ≡ 1 = ground (arith, last) in
          let inside : has k c.order ≡ true = elim place [
            | inl at_root ↦ absurd (ne_of_== below at_root)
            | inr listed ↦ listed
          ] in
          let s' = closed-IsCache depth users c k s inside node one in
          let p = (c.entries k).parent in
          let place' : (p ≡ 0) ⊎ (has p (k ∷ remove k c.order) ≡ true) =
            elim (s.known k (inside, node)) [
              | inl at_root ↦ inl at_root
              | inr listed ↦ inr (has-front p k c.order inside ∙ listed)
            ] in
          let held : ((c.entries p).ref == 0) ≡ false =
            let used = parent-used c k s (inside, node) (omega (arith, one)) in
            ground (arith, used) in
          let fine : (not (is_gone (c.entries k).valid) && ((c.entries p).ref == 0)) ≡ false =
            ground (arith, held) in
          let (closed, c', run, s'') =
            eput-IsCache fuel depth users (closed_cache c k) p
              (omega (arith, s.deeper k (inside, node), enough)) s' place' in
          rw (last, fine, run)
            (
              (if is_gone (c.entries k).valid then truncated k else updated k) ∷ closed,
              c',
              refl,
              s'',
            )
    ]
