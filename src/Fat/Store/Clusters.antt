-- ===== src/Fat/Store/Clusters.antt =====
-- rw_clus of kernel/fat32.c that writes a cluster of a file, on the bytes of the file.
use native.Mathlib.Nat.{mod-lt, div-add-mod, div-lt_iff_lt-mul}
use avx_loong_arch.Prelude.{
  ℕ, zero, suc, ◌+◌, ◌-◌, ◌*◌, ◌/◌, ◌%◌, ◌^◌, ◌≤◌, ◌<◌, ◌≡◌, refl, sym, ap, ap₂, ◌∙◌, ◌≢◌, inl, inr,
  false, ◌&&◌, List, arith, ltb, leb, ◌==◌, Bool-cases, eq_of_==, ne_of_==, length, ok,
}
use avx_loong_arch.Fat.Store.Sectors.{linear, write_secs-stored}
use avx_loong_arch.Fat.Store.{get_kernel, rw_clus_write}
use avx_loong_arch.Fat.Data.File.{
  near_div, clus_sec, file_byte, clus_sec-end, first_sec-clus_sec, nth-IsClus,
}
use avx_loong_arch.Fat.Data.Read.{stored}
use avx_loong_arch.Fat.Chain.Relocate.{nth, IsFileChain, nth-next, nth-last}
use avx_loong_arch.Fat.Layout.{IsMounted, IsClus, entry, index_injective}
use avx_loong_arch.Fat.{bsize, Disk, Fat}

module _ (f : Fat) (m : IsMounted f) (few : f.byts_per_clus < 2 ^ 32) where
  -- The place of the first byte of a cluster on the disk.
  abbrev pub clus_at : ℕ → ℕ
  clus_at c = (c - 2) * f.byts_per_clus + f.first_data_sec * bsize

  clus_at-sec : (d : Disk) (c : ℕ) → clus_sec f m few d c * bsize ≡ clus_at c
  clus_at-sec d c = omega (arith, ap (λ (t : ℕ). (c - 2) * t) m.per_clus)

  file_byte-linear :
      (d : Disk) (cs : List ℕ) (i : ℕ)
      → file_byte f m few d cs i
        ≡ linear d (clus_at (nth cs (i / f.byts_per_clus)) + i % f.byts_per_clus)
  file_byte-linear d cs i =
      let at_sec = clus_at-sec d (nth cs (i / f.byts_per_clus)) in
      ap₂ d (omega (arith, at_sec)) (omega (arith, at_sec))

  pub rw_clus_write-stored :
      (mem : ℕ → ℕ) (d : Disk) (c src off n : ℕ)
      → IsClus f c
      → off + n ≤ f.byts_per_clus
      → 0 < n
      → (d' : Disk) × (rw_clus_write (get_kernel mem) f d c src off n ≡ ok (n, d'))
        × ((x : ℕ) → linear d' x ≡ stored (λ k. mem (src + k)) (clus_at c + off) n (linear d) x)
  unfolding rw_clus_write
  rw_clus_write-stored mem d c src off n k fits pos =
      let s = clus_sec f m few d c in
      let end = clus_sec-end f m few d c k in
      let inside : ltb f.byts_per_clus ((off + n) % 2 ^ 32) ≡ false = ground (arith, few, fits) in
      let sec : (s + off / f.byts_per_sec) % 2 ^ 32 ≡ s + off / bsize =
        ap (λ b. (s + off / b) % 2 ^ 32) m.sectors ∙ omega (arith, end, fits, pos, m.per_clus) in
      let in_sec : off % f.byts_per_sec ≡ off % bsize = ap (λ b. off % b) m.sectors in
      let (d', e, same) =
        write_secs-stored mem (n + 1) d (s + off / bsize) (off % bsize) src n 0 (omega arith)
          (omega arith) (omega (arith, end, fits, m.per_clus)) in
      rw (inside, first_sec-clus_sec f m few d c k, sec, in_sec)
        (
          d',
          e,
          λ x.
              same x
              ∙ ap₂ (λ a k. stored (λ k. mem (src + k)) a k (linear d) x)
                  (omega (arith, clus_at-sec d c)) (omega arith),
        )

  -- The clusters of a chain are different.
  nth-later :
      (fuel : ℕ) (d : Disk) (cs : List ℕ) (i j : ℕ)
      → IsFileChain f d cs
      → length cs ≤ j + fuel
      → i < j
      → j < length cs
      → nth cs i ≢ nth cs j
  nth-later zero d cs i j h enough lt inside e = omega arith
  nth-later (suc fuel) d cs i j h enough lt inside e =
      let (k, k', next) = nth-next f m d cs i h (omega arith) in
      elim (Bool-cases (suc j == length cs)) [
        | inl last ↦
            let (_, stop) = nth-last f m d cs j h (eq_of_== last) in
            let reached : entry f d (nth cs j) ≡ nth cs (suc i) = ap (entry f d) (sym e) ∙ next in
            ground (arith, stop, reached, k'.high, m.few)
        | inr more ↦
            let on : suc j < length cs = omega (arith, ne_of_== more) in
            let (_, _, next') = nth-next f m d cs j h on in
            nth-later fuel d cs (suc i) (suc j) h (omega arith) (omega arith) on
              (sym next ∙ ap (entry f d) e ∙ next')
      ]

  nth_injective :
      (d : Disk) (cs : List ℕ) (i j : ℕ)
      → IsFileChain f d cs
      → i < length cs
      → j < length cs
      → nth cs i ≡ nth cs j
      → i ≡ j
  nth_injective d cs i j h hi hj e = elim (Bool-cases (ltb i j)) [
    | inl lt ↦ absurd (nth-later (length cs) d cs i j h (omega arith) (ground (arith, lt)) hj e)
    | inr ge ↦ elim (Bool-cases (ltb j i)) [
      | inl gt ↦
          absurd (nth-later (length cs) d cs j i h (omega arith) (ground (arith, gt)) hi (sym e))
      | inr le ↦ ground (arith, ge, le)
    ]
  ]

  -- A chunk written to the cluster of an offset is written to the bytes of the file from there on.
  pub chunk-stored :
      (bytes : ℕ → ℕ) (d d' : Disk) (cs : List ℕ) (off n i : ℕ)
      → IsFileChain f d cs
      → off / f.byts_per_clus < length cs
      → i < length cs * f.byts_per_clus
      → n ≤ f.byts_per_clus - off % f.byts_per_clus
      → ((x : ℕ)
          → linear d' x
            ≡ stored bytes
                (clus_at (nth cs (off / f.byts_per_clus)) + off % f.byts_per_clus)
                n
                (linear d)
                x)
      → file_byte f m few d' cs i ≡ stored bytes off n (file_byte f m few d cs) i
  chunk-stored bytes d d' cs off n i h inside hi fits same =
      let b = f.byts_per_clus in
      let pos : 0 < b = omega (arith, m.clusters, m.per_clus) in
      let at_i = div-add-mod i b in
      let at_off = div-add-mod off b in
      let r_lt : i % b < b = mod-lt i pos in
      let o_lt : off % b < b = mod-lt off pos in
      let there = clus_at (nth cs (i / b)) + i % b in
      let here = clus_at (nth cs (off / b)) + off % b in
      file_byte-linear d' cs i ∙ same there ∙ elim (Bool-cases (i / b == off / b)) [
        | inl e ↦
            let c_eq : clus_at (nth cs (i / b)) ≡ clus_at (nth cs (off / b)) =
              ap (λ c. clus_at (nth cs c)) (eq_of_== e) in
            let blocks = ap (λ (c : ℕ). c * b) (eq_of_== e) in
            let within : (leb here there && ltb there (here + n)) ≡ (leb off i && ltb i (off + n)) =
              ground (arith, c_eq, blocks, at_i, at_off) in
            let place : there - here ≡ i - off = omega (arith, c_eq, blocks, at_i, at_off) in
            rw (within, place, file_byte-linear d cs i) refl
        | inr ne ↦
            let i_in : i / b < length cs = (div-lt_iff_lt-mul pos).1 hi in
            let k = nth-IsClus f m few d cs (i / b) h i_in in
            let k' = nth-IsClus f m few d cs (off / b) h inside in
            let apart : (leb here there && ltb there (here + n)) ≡ false =
              elim (Bool-cases (leb here there && ltb there (here + n))) [
                | inr out ↦ out
                | inl hit ↦
                    let (q, _) =
                      index_injective (nth cs (i / b) - 2) (nth cs (off / b) - 2) b (i % b)
                        (off % b + (there - here)) r_lt (ground (arith, hit, fits, o_lt))
                        (ground (arith, hit)) in
                    absurd (
                      ne_of_== ne (
                        nth_injective d cs (i / b) (off / b) h i_in inside
                          (omega (arith, q, k.low, k'.low))))
              ] in
            let out : (leb off i && ltb i (off + n)) ≡ false =
              elim (Bool-cases (leb off i && ltb i (off + n))) [
                | inr no_byte ↦ no_byte
                | inl hit ↦
                    let (q, _) = near_div off (i - off) b pos (ground (arith, hit, fits)) in
                    let sum : off + (i - off) ≡ i = ground (arith, hit) in
                    absurd (ne_of_== ne (ap (λ x. x / b) (sym sum) ∙ q))
              ] in
            rw (apart, out) (sym (file_byte-linear d cs i))
      ]
