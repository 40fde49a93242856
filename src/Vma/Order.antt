-- ===== src/Vma/Order.antt =====
-- alloc_vma of kernel/vma.c keeps the areas in order and apart, and finds or makes an area that
-- holds the range asked for.
use avx_loong_arch.Prelude.{
  ℕ, suc, ◌+◌, ◌%◌, ◌^◌, ◌≤◌, ◌<◌, ◌≡◌, refl, ap, ◌⊎◌, inl, inr, Bool, true, false, ◌&&◌, ◌||◌, not,
  Option, none, some, List, [], ◌∷◌, arith, leb, ◌==◌, Bool-cases, get_elem?,
}
use avx_loong_arch.Vma.{
  pgsize, round_up, round_down, SegType, Vma, Spot, before, inside, overlap, shift, find_spot,
  insert_at, remove_at, place, fresh_vma, alloc_vma,
}

-- The areas follow each other from `lo` upwards.
abbrev pub IsOrdered : ℕ → List Vma → Type 0
IsOrdered lo [] = Unit
IsOrdered lo (v ∷ vs) = lo ≤ v.addr × v.addr ≤ v.end × IsOrdered v.end vs

-- Some area meets the range from `start` to `end`.
abbrev pub Meets : (start end : ℕ) → List Vma → Type 0
Meets start end vs = (k : ℕ) × (v : Vma) × (get_elem? vs k ≡ some v) × v.addr < end × start < v.end

abbrev pub Placed : (start end lo : ℕ) → List Vma → Spot → Type 0
Placed start end lo vs (before k) =
    (n : Vma)
    → n.addr ≡ start
    → n.end ≡ end
    → IsOrdered lo (insert_at k n vs)
      × (get_elem? (insert_at k n vs) k ≡ some n)
      × (remove_at k (insert_at k n vs) ≡ vs)
Placed start end lo vs (inside k) =
    (v : Vma) × (get_elem? vs k ≡ some v) × v.addr ≤ start × end ≤ v.end
Placed start end lo vs overlap = Meets start end vs

Placed-shift :
    (start end lo : ℕ) (v : Vma) (vs : List Vma) (s : Spot)
    → lo ≤ v.addr
    → v.addr ≤ v.end
    → Placed start end v.end vs s
    → Placed start end lo (v ∷ vs) (shift s)
Placed-shift start end lo v vs (before k) le fits h =
    λ n a e. let (o, g, rest) = h n a e in ((le, fits, o), g, ap (λ us. v ∷ us) rest)
Placed-shift start end lo v vs (inside k) le fits h = h
Placed-shift start end lo v vs overlap le fits (k, w, g, lt, gt) = (suc k, w, g, lt, gt)

find_spot_lem :
    (start end lo : ℕ) (vs : List Vma)
    → start ≤ end
    → lo ≤ start
    → IsOrdered lo vs
    → Placed start end lo vs (find_spot start end vs)
unfolding find_spot
find_spot_lem start end lo [] le low o =
    λ n a e. ((omega (arith, a), omega (arith, a, e), tt), refl, refl)
find_spot_lem start end lo (v ∷ vs) le low (first, fits, o) = elim (Bool-cases (leb end v.addr)) [
  | inl t ↦
      rw t (λ n a e. ((omega (arith, a), omega (arith, a, e), (ground arith, fits, o)), refl, refl))
  | inr f ↦ elim (Bool-cases (leb v.end start)) [
    | inl t ↦
        rw (f, t)
          (Placed-shift start end lo v vs (find_spot start end vs) first fits
            (find_spot_lem start end v.end vs le (ground arith) o))
    | inr f₂ ↦ elim (Bool-cases (leb v.addr start && leb end v.end)) [
      | inl t ↦ rw (f, f₂, t) (v, refl, ground arith, ground arith)
      | inr f₃ ↦ rw (f, f₂, f₃) (0, v, refl, ground arith, ground arith)
    ]
  ]
]

-- What alloc_vma answers on areas in order.
abbrev pub Allocated :
    (addr sz : ℕ) → (page mapped : Bool) → List Vma → Option ℕ × List Vma → Type 0
Allocated addr sz page mapped vs (some k, us) =
    IsOrdered 0 us
    × ((v : Vma) × (get_elem? us k ≡ some v)
        × v.addr ≤ addr
        × addr + sz ≤ v.end
        × ((us ≡ vs)
            ⊎ ((remove_at k us ≡ vs)
                × (v.addr ≡ round_down addr)
                × (v.end ≡ round_up (addr + sz)))))
Allocated addr sz page mapped vs (none, us) =
    (us ≡ vs)
    × ((page ≡ false) ⊎ (mapped ≡ false) ⊎ Meets (round_down addr) (round_up (addr + sz)) vs)

place-Allocated :
    (addr sz : ℕ) (page mapped maps : Bool) (n : Vma) (vs : List Vma) (s : Spot)
    → n.addr ≡ round_down addr
    → n.end ≡ round_up (addr + sz)
    → addr + sz + pgsize ≤ 2 ^ 64
    → IsOrdered 0 vs
    → Placed n.addr n.end 0 vs s
    → Allocated addr sz page mapped vs (place (not page || (maps && not mapped)) n vs s)
place-Allocated addr sz false mapped maps n vs (before k) a e fits o h = (refl, inl refl)
place-Allocated addr sz true false true n vs (before k) a e fits o h = (refl, inr (inl refl))
place-Allocated addr sz true false false n vs (before k) a e fits o h =
    let (ordered, at, others) = h n refl refl in
    (ordered, (n, at, omega (arith, a), omega (arith, e), inr (others, a, e)))
place-Allocated addr sz true true true n vs (before k) a e fits o h =
    let (ordered, at, others) = h n refl refl in
    (ordered, (n, at, omega (arith, a), omega (arith, e), inr (others, a, e)))
place-Allocated addr sz true true false n vs (before k) a e fits o h =
    let (ordered, at, others) = h n refl refl in
    (ordered, (n, at, omega (arith, a), omega (arith, e), inr (others, a, e)))
place-Allocated addr sz page mapped maps n vs (inside k) a e fits o (v, at, lo, hi) =
    (o, (v, at, omega (arith, a, lo), omega (arith, e, hi), inl refl))
place-Allocated addr sz page mapped maps n vs overlap a e fits o (k, v, at, lo, hi) =
    (refl, inr (inr (k, v, at, omega (arith, e, lo), omega (arith, a, hi))))

module _ (kind : SegType) (addr sz perm : ℕ) (alloc : Bool) (pa : ℕ) where
  -- On areas in order, for a range that does not reach the last page of the address space,
  -- alloc_vma either returns an area that holds the whole range, in a list that is in order again,
  -- or it returns NULL and leaves the list as it was, and then kalloc or the page table has
  -- refused, or an area meets the range. Where it returns one, the list is as it was, or the area
  -- is new, made of the pages of the range, and the list without it is as it was.
  pub alloc_vma_lem :
      (page mapped : Bool) (vs : List Vma)
      → addr + sz + pgsize ≤ 2 ^ 64
      → IsOrdered 0 vs
      → Allocated addr sz page mapped vs (alloc_vma kind addr sz perm alloc pa page mapped vs)
  unfolding alloc_vma
  alloc_vma_lem page mapped vs fits o =
      let wraps : (addr + sz) % 2 ^ 64 ≡ addr + sz = omega arith in
      let maps = not (sz == 0) && (alloc || not (pa == 0)) in
      let n = fresh_vma kind (round_down addr) (round_up (addr + sz)) sz perm in
      rw wraps (
        place-Allocated addr sz page mapped maps n vs
          (find_spot (round_down addr) (round_up (addr + sz)) vs) refl refl fits o
          (find_spot_lem (round_down addr) (round_up (addr + sz)) 0 vs (omega arith) (omega arith)
            o))
