-- ===== src/Fat/Ecache/Recycle.antt =====
-- The entry that eget of kernel/fat32.c takes for a new name: none in the cache has it as its parent.
use mathlib.Core.Path.{subst}
use avx_loong_arch.Prelude.{
  ℕ, ◌+◌, ◌<◌, ◌≡◌, refl, sym, ap, ◌∙◌, ◌≢◌, ◌⊎◌, inl, inr, true, false, some, arith, ltb, ◌==◌,
  Bool-cases, eq_of_==, ==_of_ne, has,
}
use avx_loong_arch.Fat.Ecache.Order.{pos, Unused}
use avx_loong_arch.Fat.Ecache.Children.{one_if, holds, children, children-change}
use avx_loong_arch.Fat.Ecache.{blank, is_blank, Entry, Ecache, set_entry}
use avx_loong_arch.Fat.Ecache.Counts.{plus, IsNode, IsCache, parent-used}

-- An unused entry that stands last is the parent of none.
childless :
    {depth users : ℕ → ℕ} (c : Ecache) (k j : ℕ)
    → IsCache depth users c
    → Unused c.entries c.order (some k)
    → IsNode c j
    → (c.entries j).parent ≢ k
childless c k j s (inside, free, last) (listed, node) e =
    let not_used : (c.entries (c.entries j).parent).ref ≡ 0 =
      ap (λ x. (c.entries x).ref) e ∙ free in
    elim (s.recent j (listed, node)) [
      | inl at_root ↦ cc (ap (λ x. has x c.order) (sym e ∙ at_root), inside, s.rootless)
      | inr (inl used) ↦ omega (arith, used, not_used)
      | inr (inr before) ↦
          let before' : pos k c.order < pos j c.order =
            subst (λ x. pos x c.order < pos j c.order) e before in
          elim (Bool-cases (ltb 0 (c.entries j).ref)) [
            | inl held ↦
                let used = parent-used c j s (listed, node) (ground (arith, held)) in
                omega (arith, used, not_used)
            | inr none_held ↦
                let zero_ref : (c.entries j).ref ≡ 0 = ground (arith, none_held) in
                omega (arith, last j listed zero_ref, before')
          ]
    ]

abbrev pub blank_entry : Ecache → ℕ → ℕ → Entry
blank_entry c parent k = record (c.entries k) {
  ref = 1;
  dev = (c.entries parent).dev;
  off = 0;
  valid = blank;
  dirty = false;
}

abbrev pub recycled : Ecache → ℕ → ℕ → Ecache
recycled c parent k = record c { entries = set_entry c.entries k (blank_entry c parent k) }

module _ (depth users : ℕ → ℕ) (c : Ecache) (parent k : ℕ) (s : IsCache depth users c)
    (unused : Unused c.entries c.order (some k)) where
  recycled-IsNode : (j : ℕ) → IsNode (recycled c parent k) j → ((k == j) ≡ false) × IsNode c j
  recycled-IsNode j (h, b) = elim (Bool-cases (k == j)) [
    | inl e ↦
        let mine : is_blank ((recycled c parent k).entries j).valid ≡ true = rw e refl in
        absurd (cc (mine, b))
    | inr ne ↦ (ne, (h, rw ne at b))
  ]

  recycled-refs :
      (i : ℕ)
      → ((recycled c parent k).entries i).ref
        ≡ plus k users i + children (recycled c parent k).entries i c.order
  recycled-refs i =
      let (inside, free, _) = unused in
      let change =
        children-change c.entries i k (blank_entry c parent k) c.order s.distinct inside in
      let none_held : one_if (holds (c.entries k) i) ≡ 0 =
        let zero_ref : ltb 0 (c.entries k).ref ≡ false = ground (arith, free) in
        elim (Bool-cases (is_blank (c.entries k).valid)) [
          | inl unset ↦ rw unset refl
          | inr set ↦ rw (set, zero_ref) refl
        ] in
      elim (Bool-cases (k == i)) [
        | inl e ↦
            let free' : (c.entries i).ref ≡ 0 =
              ap (λ x. (c.entries x).ref) (sym (eq_of_== e)) ∙ free in
            let now : ((recycled c parent k).entries i).ref ≡ 1 = rw e refl in
            let one : one_if (k == i) ≡ 1 = rw e refl in
            omega (arith, change, none_held, free', now, one, s.refs i)
        | inr ne ↦
            let now : ((recycled c parent k).entries i).ref ≡ (c.entries i).ref = rw ne refl in
            let none_more : one_if (k == i) ≡ 0 = rw ne refl in
            omega (arith, change, none_held, now, none_more, s.refs i)
      ]

  -- An entry other than k is as it was, and so is its parent.
  recycled-entry :
      (j : ℕ)
      → IsNode (recycled c parent k) j
      → ((recycled c parent k).entries j ≡ c.entries j)
        × ((recycled c parent k).entries (c.entries j).parent ≡ c.entries (c.entries j).parent)
  recycled-entry j n =
      let (ne, n') = recycled-IsNode j n in
      let apart : (k == (c.entries j).parent) ≡ false =
        ==_of_ne (λ e. childless c k j s unused n' (sym e)) in
      (rw ne refl, rw apart refl)

  pub recycled-IsCache : IsCache depth (plus k users) (recycled c parent k)
  recycled-IsCache =
      let (inside, free, _) = unused in
      let not_root : (k == 0) ≡ false =
        ==_of_ne (λ e. cc (ap (λ x. has x c.order) e, inside, s.rootless)) in
      let keep : (P : Entry → Entry → ℕ → Type 0)
          → ((j : ℕ) → IsNode c j → P (c.entries j) (c.entries (c.entries j).parent) j)
          → (j : ℕ) → IsNode (recycled c parent k) j
          → P ((recycled c parent k).entries j)
              ((recycled c parent k).entries ((recycled c parent k).entries j).parent) j =
        λ P old j n.
          let (same, same_parent) = recycled-entry j n in
          subst (λ e. P e ((recycled c parent k).entries e.parent) j) (sym same)
            (subst (λ q. P (c.entries j) q j) (sym same_parent)
              (old j ((recycled-IsNode j n).1))) in
      record {
        distinct = s.distinct;
        rootless = s.rootless;
        root = rw not_root s.root;
        refs = recycled-refs;
        known = keep (λ e q j. (e.parent ≡ 0) ⊎ (has e.parent c.order ≡ true)) s.known;
        deeper = keep (λ e q j. depth e.parent < depth j) s.deeper;
        clean = keep (λ e q j. is_blank q.valid ≡ false) s.clean;
        recent =
            keep (λ e q j. (e.parent ≡ 0) ⊎ ((0 < q.ref) ⊎ (pos e.parent c.order < pos j c.order)))
              s.recent;
      }

  pub recycled-childless :
      (j : ℕ) → IsNode (recycled c parent k) j → ((recycled c parent k).entries j).parent ≢ k
  recycled-childless j n e =
      let (same, _) = recycled-entry j n in
      childless c k j s unused ((recycled-IsNode j n).1) (ap (λ x. x.parent) (sym same) ∙ e)
