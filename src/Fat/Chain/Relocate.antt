-- ===== src/Fat/Chain/Relocate.antt =====
-- reloc_clus of kernel/fat32.c: it finds the cluster of an offset in a file's chain.
use avx_loong_arch.Prelude.{
  ℕ, zero, suc, ◌+◌, ◌-◌, ◌/◌, ◌%◌, ◌^◌, ◌≤◌, ◌<◌, ◌≡◌, refl, ap, ◌∙◌, inl, inr, Bool, true, false,
  none, some, List, [], ◌∷◌, arith, ltb, leb, ◌==◌, Bool-cases, eq_of_==, length, ok,
}
use avx_loong_arch.Fat.Chain.{Dirent, is_end, reloc_step, rewound, grow, follow, reloc_clus}
use avx_loong_arch.Fat.Layout.{IsMounted, IsClus, entry, read_fat-entry}
use avx_loong_arch.Fat.{fat32_bad, fat32_eoc, Disk, Fat}

-- The chain, with `0` behind its end.
abbrev pub nth : List ℕ → ℕ → ℕ
nth [] i = 0
nth (x ∷ cs) zero = x
nth (x ∷ cs) (suc i) = nth cs i

-- The clusters of a file, one after the other in the FAT, the last with an end of chain in its word.
abbrev pub IsFileChain : Fat → Disk → List ℕ → Type 0
IsFileChain f d [] = Unit
IsFileChain f d (x ∷ []) = IsClus f x × (fat32_eoc ≤ entry f d x) × (entry f d x < 2 ^ 31)
IsFileChain f d (x ∷ y ∷ cs) = IsClus f x × (entry f d x ≡ y) × IsFileChain f d (y ∷ cs)

-- The position of the entry is that of its cluster number in the chain.
pub record IsPlaced (e : Dirent) (cs : List ℕ) : Type 0 where
  pub first : e.first_clus ≡ nth cs 0
  pub current : e.cur_clus ≡ nth cs e.clus_cnt
  pub inside : e.clus_cnt < length cs

module _ (f : Fat) (m : IsMounted f) (d : Disk) where
  pub nth-next :
      (cs : List ℕ) (i : ℕ)
      → IsFileChain f d cs
      → suc i < length cs
      → IsClus f (nth cs i) × IsClus f (nth cs (suc i)) × (entry f d (nth cs i) ≡ nth cs (suc i))
  nth-next [] i h lt = absurd (omega arith)
  nth-next (x ∷ []) i h lt = absurd (omega arith)
  nth-next (x ∷ y ∷ []) zero (k, e, rest) lt = (k, rest.0, e)
  nth-next (x ∷ y ∷ z ∷ cs) zero (k, e, rest) lt = (k, rest.0, e)
  nth-next (x ∷ y ∷ cs) (suc i) (k, e, rest) lt = nth-next (y ∷ cs) i rest (omega arith)

  pub nth-last :
      (cs : List ℕ) (i : ℕ)
      → IsFileChain f d cs
      → suc i ≡ length cs
      → IsClus f (nth cs i) × (is_end (entry f d (nth cs i)) ≡ true)
  nth-last [] i h e = absurd (omega arith)
  nth-last (x ∷ []) zero (k, lo, hi) e = (k, ground arith)
  nth-last (x ∷ []) (suc i) h e = absurd (omega arith)
  nth-last (x ∷ y ∷ cs) zero h e = absurd (omega arith)
  nth-last (x ∷ y ∷ cs) (suc i) (k, e', rest) e = nth-last (y ∷ cs) i rest (omega arith)

  -- An entry moved to position i of the chain.
  abbrev pub placed : Dirent → List ℕ → ℕ → Dirent
  placed e cs i = record e { cur_clus = nth cs i; clus_cnt = i }

  reloc_step-next :
      (e : Dirent) (cs : List ℕ) (i : ℕ) (alloc : Bool)
      → IsFileChain f d cs
      → suc i < length cs
      → reloc_step f d (placed e cs i) alloc ≡ ok (some (d, placed e cs (suc i)))
  unfolding reloc_step
  reloc_step-next e cs i alloc h lt =
      let (k, k', next) = nth-next cs i h lt in
      let go : is_end (nth cs (suc i)) ≡ false = ground (arith, k'.high, m.few) in
      let fine : (nth cs (suc i) == fat32_bad) ≡ false = ground (arith, k'.high, m.few) in
      rw (read_fat-entry f m d (nth cs i) k, next, go, fine)
        (ap (λ n. ok (some (d, record e { cur_clus = nth cs (suc i); clus_cnt = n })))
          (omega arith))

  grow-placed :
      (n i : ℕ) (e : Dirent) (cs : List ℕ) (alloc : Bool)
      → IsFileChain f d cs
      → i + n < length cs
      → grow n f d (placed e cs i) alloc ≡ ok (d, placed e cs (i + n), true)
  unfolding grow
  grow-placed zero i e cs alloc h lt = ap (λ x. ok (d, placed e cs x, true)) (omega arith)
  grow-placed (suc n) i e cs alloc h lt = rw (reloc_step-next e cs i alloc h (omega arith)) (
      grow-placed n (suc i) e cs alloc h (omega arith)
      ∙ ap (λ x. ok (d, placed e cs x, true)) (omega arith))

  follow-placed :
      (n i : ℕ) (e : Dirent) (cs : List ℕ)
      → IsFileChain f d cs
      → i + n < length cs
      → follow n f d (placed e cs i) ≡ ok (placed e cs (i + n))
  unfolding follow
  follow-placed zero i e cs h lt = ap (λ x. ok (placed e cs x)) (omega arith)
  follow-placed (suc n) i e cs h lt =
      let (k, k', next) = nth-next cs i h (omega arith) in
      let go : leb fat32_eoc (nth cs (suc i)) ≡ false = ground (arith, k'.high, m.few) in
      let step : record e { cur_clus = nth cs (suc i); clus_cnt = i + 1 } ≡ placed e cs (suc i) =
        ap (λ n. record e { cur_clus = nth cs (suc i); clus_cnt = n }) (omega arith) in
      rw (read_fat-entry f m d (nth cs i) k, next, go, step)
        (follow-placed n (suc i) e cs h (omega arith) ∙ ap (λ x. ok (placed e cs x)) (omega arith))

  placed_self : (e : Dirent) (cs : List ℕ) → IsPlaced e cs → e ≡ placed e cs e.clus_cnt
  placed_self e cs p = rw (← p.current)

  -- In a file's chain of clusters, from any position in it, reloc_clus goes to the cluster that holds
  -- the offset, forwards or from the start, and returns the offset in that cluster. It allocates
  -- nothing, whatever `alloc`, and leaves the disk as it is.
  pub reloc_clus_lem :
      (e : Dirent) (cs : List ℕ) (off : ℕ) (alloc : Bool)
      → IsFileChain f d cs
      → IsPlaced e cs
      → off / f.byts_per_clus < length cs
      → (e' : Dirent) × (reloc_clus f d e off alloc ≡ ok (some (off % f.byts_per_clus), d, e'))
        × IsPlaced e' cs
        × (e'.clus_cnt ≡ off / f.byts_per_clus)
        × (e'.file_size ≡ e.file_size)
        × (e'.first_clus ≡ e.first_clus)
  unfolding reloc_clus
  reloc_clus_lem e cs off alloc h p lt =
      let n = off / f.byts_per_clus in
      let start : (k : ℕ)
          → e.clus_cnt + k < length cs
          → grow k f d e alloc ≡ ok (d, placed e cs (e.clus_cnt + k), true) =
        λ k fit.
          ap (λ x. grow k f d x alloc) (placed_self e cs p)
          ∙ grow-placed k e.clus_cnt e cs alloc h fit in
      elim (Bool-cases (ltb n e.clus_cnt)) [
        | inl back ↦
            let none_left : n - e.clus_cnt ≡ 0 = ground arith in
            let here : ltb n (e.clus_cnt + 0) ≡ true = ground arith in
            let again : rewound (placed e cs (e.clus_cnt + 0)) ≡ placed e cs 0 =
              ap (λ x. record e { cur_clus = x; clus_cnt = 0 }) p.first in
            (
              placed e cs n,
              rw
                  (
                    none_left,
                    start 0 (omega (arith, p.inside)),
                    here,
                    again,
                    follow-placed n 0 e cs h (omega arith),
                  )
                  (ap (λ x. ok (some (off % f.byts_per_clus), d, placed e cs x)) (omega arith)),
              record { first = p.first; current = refl; inside = lt },
              refl,
              refl,
              refl,
            )
        | inr on ↦
            let sum : e.clus_cnt + (n - e.clus_cnt) ≡ n = ground arith in
            let done : ltb n n ≡ false = ground arith in
            (
              placed e cs n,
              rw (start (n - e.clus_cnt) (omega (arith, sum)), sum, done),
              record { first = p.first; current = refl; inside = lt },
              refl,
              refl,
              refl,
            )
      ]

  reloc_step-last :
      (e : Dirent) (cs : List ℕ) (i : ℕ)
      → IsFileChain f d cs
      → suc i ≡ length cs
      → reloc_step f d (placed e cs i) false ≡ ok none
  unfolding reloc_step
  reloc_step-last e cs i h eq =
      let (k, stop) = nth-last cs i h eq in rw (read_fat-entry f m d (nth cs i) k, stop)

  grow-past :
      (n i : ℕ) (e : Dirent) (cs : List ℕ)
      → IsFileChain f d cs
      → i < length cs
      → length cs ≤ i + n
      → grow n f d (placed e cs i) false ≡ ok (d, rewound e, false)
  unfolding grow
  grow-past zero i e cs h lt le = absurd (omega arith)
  grow-past (suc n) i e cs h lt le = elim (Bool-cases (suc i == length cs)) [
    | inl last ↦ rw (reloc_step-last e cs i h (eq_of_== last))
    | inr more ↦
        let lt' : suc i < length cs = ground arith in
        rw (reloc_step-next e cs i false h lt') (grow-past n (suc i) e cs h lt' (omega arith))
  ]

  -- Behind the last cluster of the chain, reloc_clus without `alloc` returns -1 and rewinds the
  -- entry to its first cluster.
  pub reloc_clus_past :
      (e : Dirent) (cs : List ℕ) (off : ℕ)
      → IsFileChain f d cs
      → IsPlaced e cs
      → length cs ≤ off / f.byts_per_clus
      → reloc_clus f d e off false
        ≡ ok (none, d, record e { cur_clus = e.first_clus; clus_cnt = 0 })
  unfolding reloc_clus
  reloc_clus_past e cs off h p le =
      let n = off / f.byts_per_clus - e.clus_cnt in
      let run : grow n f d e false ≡ ok (d, rewound e, false) =
        ap (λ x. grow n f d x false) (placed_self e cs p)
        ∙ grow-past n e.clus_cnt e cs h p.inside (omega (arith, p.inside)) in
      rw run
