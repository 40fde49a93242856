-- ===== src/Fat/Ecache/Examples.antt =====
-- The theorems of the entry cache at a cache with a directory, a file in it, and a blank entry.
use mathlib.Core.Path.{subst}
use avx_loong_arch.Prelude.{
  ℕ, zero, suc, ◌<◌, ◌≡◌, refl, sym, ◌≢◌, ◌⊎◌, inl, inr, true, false, List, [], ◌∷◌, arith, ◌==◌,
  if◌then◌else◌, has, ok,
}
use avx_loong_arch.Fat.Ecache.Attach.{below, attach-IsCache}
use avx_loong_arch.Fat.Ecache.Get.{Got, eget-Got}
use avx_loong_arch.Fat.Ecache.Put.{eput-IsCache}
use avx_loong_arch.Fat.Ecache.Order.{pos}
use avx_loong_arch.Fat.Ecache.Counts.{plus, IsNode, IsCache}
use avx_loong_arch.Fat.Ecache.{
  blank, cached, is_blank, Entry, Ecache, same_name, find_name, find_unused, recycle, Closed, eget,
  attach, eput,
}

abbrev entry_at : ℕ → Entry
entry_at k =
    if k == 0
    then record {
      ref = 1;
      valid = cached;
      parent = 0;
      filename = [];
      dev = 0;
      off = 0;
      dirty = false;
    }
    else if k == 1
    then record {
      ref = 1;
      valid = cached;
      parent = 0;
      filename = b'd' ∷ [];
      dev = 0;
      off = 64;
      dirty = false;
    }
    else if k == 2
    then record {
      ref = 1;
      valid = cached;
      parent = 1;
      filename = b'f' ∷ [];
      dev = 0;
      off = 64;
      dirty = true;
    }
    else record {
      ref = 0;
      valid = blank;
      parent = 0;
      filename = [];
      dev = 0;
      off = 0;
      dirty = false;
    }

abbrev cache : Ecache
cache = record { entries = entry_at; order = 2 ∷ 1 ∷ 3 ∷ [] }

abbrev one_user : ℕ → ℕ
one_user = plus 2 (λ i. 0)

abbrev depth : ℕ → ℕ
depth k = if k == 2 then 2 else if k == 1 then 1 else 0

-- The nodes are 1 and 2.
node_cases : (k : ℕ) → IsNode cache k → (k ≡ 1) ⊎ (k ≡ 2)
node_cases zero (h, b) = absurd (ground (arith, h))
node_cases (suc zero) n = inl refl
node_cases (suc (suc zero)) n = inr refl
node_cases (suc (suc (suc zero))) (h, b) = absurd (ground (arith, b))
node_cases (suc (suc (suc (suc k)))) (h, b) = absurd (ground (arith, h))

at_nodes : (P : ℕ → Type 0) → P 1 → P 2 → (k : ℕ) → IsNode cache k → P k
at_nodes P one two k n = elim (node_cases k n) [
  | inl e ↦ subst P (sym e) one
  | inr e ↦ subst P (sym e) two
]

cache-IsCache : IsCache depth one_user cache
cache-IsCache = record {
  distinct = (refl, (refl, (refl, tt)));
  rootless = refl;
  root = refl;
  refs = λ i. ground arith;
  known =
      at_nodes (λ k. ((entry_at k).parent ≡ 0) ⊎ (has (entry_at k).parent (2 ∷ 1 ∷ 3 ∷ []) ≡ true))
        (inl refl) (inr refl);
  deeper = at_nodes (λ k. depth (entry_at k).parent < depth k) (omega arith) (omega arith);
  clean = at_nodes (λ k. is_blank (entry_at (entry_at k).parent).valid ≡ false) refl refl;
  recent =
      at_nodes
        (λ k.
          ((entry_at k).parent ≡ 0)
          ⊎ ((0 < (entry_at (entry_at k).parent).ref)
              ⊎ (pos (entry_at k).parent (2 ∷ 1 ∷ 3 ∷ []) < pos k (2 ∷ 1 ∷ 3 ∷ []))))
        (inl refl) (inr (inl (omega arith)));
}

eput-IsCache_example :
    (closed : List Closed) × (c' : Ecache) × (eput 3 cache 2 ≡ ok (closed, c'))
    × IsCache depth (λ i. 0) c'
eput-IsCache_example = eput-IsCache 3 depth (λ i. 0) cache 2 (omega arith) cache-IsCache (inr refl)

eget-Got_example : Got depth one_user cache 1 (b'g' ∷ []) (eget cache 1 (b'g' ∷ []))
eget-Got_example = eget-Got depth one_user cache 1 (b'g' ∷ []) cache-IsCache (inr (omega arith))

-- The cache after that call: entry 3 is taken.
abbrev taken : Ecache
taken = record cache { entries = recycle entry_at 1 3 }

taken_lem :
    IsCache depth (plus 3 one_user) taken
    × ((j : ℕ) → IsNode taken j → (taken.entries j).parent ≢ 3)
unfolding eget find_name find_unused same_name
taken_lem =
    let got = eget-Got depth one_user cache 1 (b'g' ∷ []) cache-IsCache (inr (omega arith)) in
    (got.2, elim (got.3) [ inl (named, _) ↦ absurd (cc) | inr (_, _, _, none_below) ↦ none_below ])

attach-IsCache_example : IsCache (below depth 1 3) (plus 3 one_user) (attach taken 1 3 96)
attach-IsCache_example =
    attach-IsCache depth (plus 3 one_user) taken 1 3 96 (taken_lem.0) (inr (omega arith)) (inr refl)
      refl refl refl (omega arith) (taken_lem.1)
