-- ===== src/Fat/Ecache/Get.antt =====
-- eget of kernel/fat32.c: the entry of a name, or one for a new name.
use mathlib.Core.Path.{subst, fun_ext}
use avx_loong_arch.Prelude.{
  ℕ, ◌+◌, ◌<◌, ◌≡◌, refl, sym, ap, ◌∙◌, ◌≢◌, ◌⊎◌, inl, inr, true, false, Option, none, some, List,
  arith, ◌==◌, Bool-cases, Option-cases, eq_of_==, ne_of_==, ==_refl, ==_of_ne, has, Outcome, ok,
  panic, out_of_fuel,
}
use avx_loong_arch.Fat.Ecache.Order.{
  Unused, Absent, find_name-Absent, find_name-found, find_unused-Unused,
}
use avx_loong_arch.Fat.Ecache.Children.{one_if, holds, children, children-change}
use avx_loong_arch.Fat.Ecache.{
  is_blank, Entry, Entries, Ecache, add_ref, edup, is_named, find_name, find_unused, take_again,
  found_name, eget,
}
use avx_loong_arch.Fat.Ecache.Counts.{plus, IsNode, IsCache, changed, changed_counts-IsCache}
use avx_loong_arch.Fat.Ecache.Put.{edup-IsCache}
use avx_loong_arch.Fat.Ecache.Recycle.{recycled, recycled-IsCache, recycled-childless}

-- The entry of the name in the directory.
record IsHit (c : Ecache) (parent k : ℕ) : Type 0 where
  listed : has k c.order ≡ true
  node : is_blank (c.entries k).valid ≡ false
  below : (c.entries k).parent ≡ parent

named-IsHit :
    (c : Ecache) (parent k : ℕ) (name : List ℕ)
    → has k c.order ≡ true
    → is_named (c.entries k) parent name ≡ true
    → IsHit c parent k
named-IsHit c parent k name inside named = record {
  listed = inside;
  node = ground (arith, named);
  below = ground (arith, named);
}

module _ (depth users : ℕ → ℕ) (c : Ecache) (parent k : ℕ) (s : IsCache depth users c)
    (used : (parent ≡ 0) ⊎ (0 < (c.entries parent).ref)) (hit : IsHit c parent k) where
  parent_apart : (parent == k) ≡ false
  parent_apart =
      ==_of_ne
        (λ e. omega (arith, s.deeper k (hit.listed, hit.node), ap depth hit.below, ap depth e))

  module _ (free : (c.entries k).ref ≡ 0) where
    again-refs :
        (i : ℕ)
        → (changed (edup c parent) k 1 i).ref
          ≡ plus k users i + children (changed (edup c parent) k 1) i c.order
    unfolding edup
    again-refs i =
        let c₁ = edup c parent in
        let s₁ = edup-IsCache depth users c parent s used in
        let e₁ : Entry = record (c₁.entries k) { ref = 1 } in
        let change = children-change c₁.entries i k e₁ c.order s.distinct hit.listed in
        let before : one_if (holds (c₁.entries k) i) ≡ 0 = rw (parent_apart, hit.node, free) refl in
        let after : one_if (holds e₁ i) ≡ one_if (parent == i) =
          rw (parent_apart, hit.node, hit.below) refl in
        elim (Bool-cases (k == i)) [
          | inl e ↦
              let apart : (parent == i) ≡ false = ground (arith, e, parent_apart) in
              let none_held : one_if (parent == i) ≡ 0 = rw apart refl in
              let now : (changed c₁ k 1 i).ref ≡ 1 = rw e refl in
              let free' : (c₁.entries i).ref ≡ 0 =
                rw apart (ap (λ x. (c.entries x).ref) (sym (eq_of_== e)) ∙ free) in
              let one : one_if (k == i) ≡ 1 = rw e refl in
              omega (arith, change, before, after, none_held, now, free', one, s₁.refs i)
          | inr ne ↦
              let now : (changed c₁ k 1 i).ref ≡ (c₁.entries i).ref = rw ne refl in
              let none_more : one_if (k == i) ≡ 0 = rw ne refl in
              omega (arith, change, before, after, now, none_more, s₁.refs i)
        ]

    again-changed : (j : ℕ) → take_again c.entries k j ≡ changed (edup c parent) k 1 j
    unfolding edup
    again-changed j =
        let at_parent : (add_ref c.entries k k).parent ≡ parent = rw (==_refl k) hit.below in
        let apart : (k == parent) ≡ false = ==_of_ne (λ e. ne_of_== parent_apart (sym e)) in
        let unused : ((c.entries k).ref == 0) ≡ true = ground (arith, free) in
        rw (unused, at_parent, apart)
          (elim (Bool-cases (k == j)) [
            | inl e ↦
                let apart' : (parent == j) ≡ false = ground (arith, e, parent_apart) in
                rw (apart', e, parent_apart)
                  (ap (λ n. record (c.entries k) { ref = n }) (omega (arith, free)))
            | inr ne ↦ rw ne refl
          ])

  hit-IsCache : IsCache depth (plus k users) (record c { entries = take_again c.entries k })
  unfolding edup
  hit-IsCache = elim (Bool-cases ((c.entries k).ref == 0)) [
    | inl e ↦
        let free : (c.entries k).ref ≡ 0 = eq_of_== e in
        subst (λ t. IsCache depth (plus k users) (record c { entries = t }))
          (sym (fun_ext (again-changed free)))
          (changed_counts-IsCache depth (plus parent users) (plus k users) (edup c parent) k 1
            (edup-IsCache depth users c parent s used) (again-refs free) (inr (inr (omega arith))))
    | inr in_use ↦ rw in_use (edup-IsCache depth users c k s (inr (omega (arith, ne_of_== in_use))))
  ]

add_ref-named :
    (t : Entries) (q k parent : ℕ) (name : List ℕ)
    → is_named (add_ref t q k) parent name ≡ is_named (t k) parent name
add_ref-named t q k parent name = elim (Bool-cases (q == k)) [
  | inl e ↦ rw e (ap (λ x. is_named (t x) parent name) (eq_of_== e))
  | inr ne ↦ rw ne refl
]

again-named :
    (t : Entries) (k parent : ℕ) (name : List ℕ)
    → is_named (take_again t k k) parent name ≡ is_named (t k) parent name
again-named t k parent name = elim (Bool-cases ((t k).ref == 0)) [
  | inl free ↦ rw free (
      add_ref-named (add_ref t k) (add_ref t k k).parent k parent name
      ∙ add_ref-named t k k parent name)
  | inr used ↦ rw used (add_ref-named t k k parent name)
]

-- How eget ends: with an entry in the list, counted once more, that had the name in the directory
-- before and has it now; or, where no entry had the name, with the last one in the list that nobody
-- used, which is now blank and the parent of none; or, where no entry had it and every one is in use, with the panic.
abbrev pub Got : (depth users : ℕ → ℕ) → Ecache → ℕ → List ℕ → Outcome (ℕ × Ecache) → Type 0
Got depth users c parent name (ok (k, c')) =
    (has k c'.order ≡ true)
    × (c'.order ≡ c.order)
    × IsCache depth (plus k users) c'
    × ((is_named (c.entries k) parent name ≡ true) × (is_named (c'.entries k) parent name ≡ true)
        ⊎ Absent c.entries parent name c.order
          × Unused c.entries c.order (some k)
          × (is_blank (c'.entries k).valid ≡ true)
          × ((j : ℕ) → IsNode c' j → (c'.entries j).parent ≢ k))
Got depth users c parent name panic =
    Absent c.entries parent name c.order × ((j : ℕ) → has j c.order ≡ true → (c.entries j).ref ≢ 0)
Got depth users c parent name out_of_fuel = ⊥

miss-Got :
    (depth users : ℕ → ℕ) (c : Ecache) (parent : ℕ) (name : List ℕ) (o : Option ℕ)
    → IsCache depth users c
    → Absent c.entries parent name c.order
    → Unused c.entries c.order o
    → Got depth users c parent name (found_name c parent none o)
miss-Got depth users c parent name none s absent busy = (absent, busy)
miss-Got depth users c parent name (some k) s absent unused =
    let unset : is_blank ((recycled c parent k).entries k).valid ≡ true = rw (==_refl k) refl in
    (
      unused.0,
      refl,
      recycled-IsCache depth users c parent k s unused,
      inr (absent, unused, unset, recycled-childless depth users c parent k s unused),
    )

-- eget for a name in a directory that is root or in use: the counts of the cache hold with one more
-- user of the entry that it returns, and the order of the list stays. That entry had the name in
-- that directory and has it still; or no entry of the list had the name, and it is the last in
-- the list of those that nobody used, and is now blank. A blank one is the parent of no entry that is left in the cache, so that no
-- later call takes an entry of the directory that it was for one of the directory that it becomes.
-- It panics only when no entry of the list has the name and every one is in use.
pub eget-Got :
    (depth users : ℕ → ℕ) (c : Ecache) (parent : ℕ) (name : List ℕ)
    → IsCache depth users c
    → (parent ≡ 0) ⊎ (0 < (c.entries parent).ref)
    → Got depth users c parent name (eget c parent name)
unfolding eget
eget-Got depth users c parent name s used =
    elim (Option-cases (find_name c.entries parent name c.order)) [
      | inl none_named ↦ rw none_named (
          miss-Got depth users c parent name (find_unused c.entries c.order) s
            (find_name-Absent c.entries parent name c.order none_named)
            (find_unused-Unused c.entries c.order s.distinct))
      | inr (k, e) ↦
          let (inside, named) = find_name-found c.entries parent name c.order k e in
          rw e (
            inside,
            refl,
            hit-IsCache depth users c parent k s used (named-IsHit c parent k name inside named),
            inl (named, again-named c.entries k parent name ∙ named),
          )
    ]
