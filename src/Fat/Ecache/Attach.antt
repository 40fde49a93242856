-- ===== src/Fat/Ecache/Attach.antt =====
-- The blank entry of eget that dirlookup of kernel/fat32.c fills in.
use mathlib.Core.Path.{subst}
use avx_loong_arch.Prelude.{
  ℕ, suc, ◌+◌, ◌<◌, ◌≡◌, refl, sym, ap, ◌∙◌, ◌≢◌, ◌⊎◌, inl, inr, true, false, arith, ltb, ◌==◌,
  if◌then◌else◌, Bool-cases, eq_of_==, ==_refl, ==_of_ne, has,
}
use avx_loong_arch.Fat.Ecache.Order.{pos}
use avx_loong_arch.Fat.Ecache.Children.{one_if, holds, children, children-change}
use avx_loong_arch.Fat.Ecache.{cached, is_blank, Entry, Ecache, set_entry, add_ref, edup, attach}
use avx_loong_arch.Fat.Ecache.Counts.{plus, IsNode, IsCache}
use avx_loong_arch.Fat.Ecache.Put.{edup-IsCache}

-- The depths once k is in the directory dp.
abbrev pub below : (ℕ → ℕ) → (dp k : ℕ) → ℕ → ℕ
below depth dp k j = if k == j then suc (depth dp) else depth j

module _ (depth users : ℕ → ℕ) (c : Ecache) (dp k off : ℕ) (s : IsCache depth users c)
    (directory : (dp ≡ 0) ⊎ (0 < (c.entries dp).ref)) (place : (dp ≡ 0) ⊎ (has dp c.order ≡ true))
    (set : is_blank (c.entries dp).valid ≡ false) (listed : has k c.order ≡ true)
    (unset : is_blank (c.entries k).valid ≡ true) (used : 0 < (c.entries k).ref)
    (no_parent : (j : ℕ) → IsNode c j → (c.entries j).parent ≢ k) where
  abbrev opened : Ecache
  opened = record c { entries = add_ref c.entries dp }

  abbrev filled : Entry
  filled = record (opened.entries k) { parent = dp; off = off; valid = cached }

  abbrev attached : Ecache
  attached = record c { entries = set_entry opened.entries k filled }

  opened-IsCache : IsCache depth (plus dp users) opened
  unfolding edup
  opened-IsCache = edup-IsCache depth users c dp s directory

  apart : (k == dp) ≡ false
  apart = ==_of_ne (λ e. cc (ap (λ x. is_blank (c.entries x).valid) e, set, unset))

  opened_self : opened.entries k ≡ c.entries k
  opened_self = let apart' : (dp == k) ≡ false = ground (arith, apart) in rw apart' refl

  opened-same :
      (j : ℕ)
      → ((opened.entries j).parent ≡ (c.entries j).parent)
        × ((opened.entries j).valid ≡ (c.entries j).valid)
  opened-same j = elim (Bool-cases (dp == j)) [
    | inl e ↦
        rw e
          (ap (λ x. (c.entries x).parent) (eq_of_== e), ap (λ x. (c.entries x).valid) (eq_of_== e))
    | inr ne ↦ rw ne (refl, refl)
  ]

  attached-refs : (i : ℕ) → (attached.entries i).ref ≡ users i + children attached.entries i c.order
  attached-refs i =
      let change = children-change opened.entries i k filled c.order s.distinct listed in
      let before : one_if (holds (opened.entries k) i) ≡ 0 = rw (opened_self, unset) refl in
      let pos_ref : ltb 0 (c.entries k).ref ≡ true = ground (arith, used) in
      let after : one_if (holds filled i) ≡ one_if (dp == i) = rw (opened_self, pos_ref) refl in
      let same_ref : (attached.entries i).ref ≡ (opened.entries i).ref =
        elim (Bool-cases (k == i)) [
          | inl e ↦ rw e (ap (λ x. (opened.entries x).ref) (eq_of_== e))
          | inr ne ↦ rw ne refl
        ] in
      omega (arith, change, before, after, same_ref, opened-IsCache.refs i)

  -- Another entry, and the parent of another entry, are those of before.
  attached-other :
      (j : ℕ)
      → (k == j) ≡ false
      → IsNode attached j
      → IsNode opened j × ((opened.entries j).parent ≢ k)
  attached-other j ne (h, b) =
      let n : IsNode opened j = (h, rw ne at b) in
      let (same_parent, same_valid) = opened-same j in
      (n, λ e. no_parent j (h, ap is_blank (sym same_valid) ∙ n.1) (sym same_parent ∙ e))

  attached_cases :
      (P : Entry → Entry → ℕ → Type 0)
      → P filled (opened.entries dp) k
      → ((j : ℕ)
          → (k == j) ≡ false
          → IsNode opened j
          → (opened.entries j).parent ≢ k
          → P (opened.entries j) (opened.entries (opened.entries j).parent) j)
      → (j : ℕ) → IsNode attached j
      → P (attached.entries j) (attached.entries (attached.entries j).parent) j
  attached_cases P first others j n = elim (Bool-cases (k == j)) [
    | inl e ↦
        let here : P (attached.entries k) (attached.entries (attached.entries k).parent) k =
          rw (==_refl k, apart) first in
        subst (λ x. P (attached.entries x) (attached.entries (attached.entries x).parent) x)
          (eq_of_== e) here
    | inr ne ↦
        let (n', other) = attached-other j ne n in
        let apart' : (k == (opened.entries j).parent) ≡ false = ==_of_ne (λ e. other (sym e)) in
        rw (ne, apart') (others j ne n' other)
  ]

  -- A blank entry that eget returned for the directory dp, filled in by dirlookup as an entry of dp:
  -- the counts hold with the same users, as dp counts the new entry.
  pub attach-IsCache : IsCache (below depth dp k) users (attach c dp k off)
  unfolding attach edup
  attach-IsCache =
      let s₁ = opened-IsCache in
      let not_root : (k == 0) ≡ false =
        ==_of_ne (λ e. cc (ap (λ x. has x c.order) e, listed, s.rootless)) in
      record {
        distinct = s.distinct;
        rootless = s.rootless;
        root = rw not_root s₁.root;
        refs = attached-refs;
        known =
            attached_cases (λ e q j. (e.parent ≡ 0) ⊎ (has e.parent c.order ≡ true)) place
              (λ j ne n other. s₁.known j n);
        deeper =
            attached_cases (λ e q j. below depth dp k e.parent < below depth dp k j)
              (rw (apart, ==_refl k) (omega arith))
              (λ j ne n other.
                let apart' : (k == (opened.entries j).parent) ≡ false =
                  ==_of_ne (λ e. other (sym e)) in
                rw (apart', ne) (s₁.deeper j n));
        clean =
            attached_cases (λ e q j. is_blank q.valid ≡ false)
              (ap is_blank ((opened-same dp).1) ∙ set) (λ j ne n other. s₁.clean j n);
        recent =
            attached_cases
              (λ e q j. (e.parent ≡ 0) ⊎ ((0 < q.ref) ⊎ (pos e.parent c.order < pos j c.order)))
              (inr (inl (rw (==_refl dp) (omega arith)))) (λ j ne n other. s₁.recent j n);
      }
