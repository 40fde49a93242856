-- ===== src/Fat/Data/File.antt =====
-- eread of kernel/fat32.c over the clusters of a file.
use native.Mathlib.Nat.{mod-lt, div-add-mod, div-lt_iff_lt-mul}
use avx_loong_arch.Prelude.{
  ℕ, zero, suc, ◌+◌, ◌-◌, ◌*◌, ◌/◌, ◌%◌, ◌^◌, ◌≤◌, ◌<◌, min, ◌≡◌, refl, sym, ap, ap₂, ◌∙◌, inl, inr,
  true, false, ◌&&◌, ◌||◌, List, arith, ltb, ◌==◌, if◌then◌else◌, Bool-cases, eq_of_==, ne_of_==,
  ==_refl, length, ok,
}
use avx_loong_arch.Fat.Data.Read.{
  sec_byte, stored, stored-ext, stored-none, stored-rest, read_secs-stored,
}
use avx_loong_arch.Fat.Data.{put_kernel, rw_clus_read, read_clusters, eread}
use avx_loong_arch.Fat.Chain.Relocate.{
  nth, IsFileChain, IsPlaced, nth-next, nth-last, reloc_clus_lem,
}
use avx_loong_arch.Fat.Chain.{Dirent}
use avx_loong_arch.Fat.Layout.{IsMounted, IsClus, index_lt, index_injective}
use avx_loong_arch.Fat.{bsize, fat32_eoc, Disk, Fat, bad_clus, first_sec_of_clus}

-- Quotient and remainder do not leave a block of b.
pub near_div :
    (off k b : ℕ)
    → 0 < b
    → k < b - off % b
    → ((off + k) / b ≡ off / b) × ((off + k) % b ≡ off % b + k)
near_div off k b pos h =
    index_injective ((off + k) / b) (off / b) b ((off + k) % b) (off % b + k) (mod-lt (off + k) pos)
      (omega arith) (omega (arith, div-add-mod (off + k) b, div-add-mod off b))

module _ (f : Fat) (m : IsMounted f) (few : f.byts_per_clus < 2 ^ 32) (d : Disk) where
  -- The first sector of a cluster.
  abbrev pub clus_sec : ℕ → ℕ
  clus_sec c = (c - 2) * f.sec_per_clus + f.first_data_sec

  -- The i-th byte of the file with the clusters cs.
  abbrev pub file_byte : List ℕ → ℕ → ℕ
  file_byte cs i = sec_byte d (clus_sec (nth cs (i / f.byts_per_clus))) 0 (i % f.byts_per_clus)

  pub clus_sec-end : (c : ℕ) → IsClus f c → clus_sec c + f.sec_per_clus ≤ 2 ^ 32
  clus_sec-end c k =
      let fits =
        index_lt (c - 2) f.data_clus_cnt f.sec_per_clus (f.sec_per_clus - 1)
          (omega (arith, k.low, k.high)) (omega (arith, m.clusters)) in
      omega (arith, m.ends, m.clusters, fits)

  pub first_sec-clus_sec : (c : ℕ) → IsClus f c → first_sec_of_clus f c ≡ ok (clus_sec c)
  unfolding first_sec_of_clus
  first_sec-clus_sec c k =
      let fits = clus_sec-end c k in
      let good : bad_clus f c ≡ false = ground (arith, k.low, k.high) in
      let small : clus_sec c % 2 ^ 32 ≡ clus_sec c = omega (arith, fits, m.clusters) in
      rw (good, small) refl

  rw_clus_read-stored :
      (c off dst n : ℕ) (mem : ℕ → ℕ)
      → IsClus f c
      → off + n ≤ f.byts_per_clus
      → 0 < n
      → (mem' : ℕ → ℕ) × (rw_clus_read put_kernel f d c dst off n mem ≡ ok (n, mem'))
        × ((p : ℕ) → mem' p ≡ stored (λ k. sec_byte d (clus_sec c) 0 (off + k)) dst n mem p)
  unfolding rw_clus_read
  rw_clus_read-stored c off dst n mem k fits pos =
      let end = clus_sec-end c k in
      let inside : ltb f.byts_per_clus ((off + n) % 2 ^ 32) ≡ false = ground (arith, few, fits) in
      let sec : (clus_sec c + off / f.byts_per_sec) % 2 ^ 32 ≡ clus_sec c + off / bsize =
        ap (λ b. (clus_sec c + off / b) % 2 ^ 32) m.sectors
        ∙ omega (arith, end, fits, pos, m.per_clus) in
      let in_sec : off % f.byts_per_sec ≡ off % bsize = ap (λ b. off % b) m.sectors in
      let (mem', e, same) =
        read_secs-stored (n + 1) d (clus_sec c + off / bsize) (off % bsize) dst n 0 mem
          (omega arith) (omega arith) (omega (arith, end, fits, m.per_clus)) in
      rw (inside, first_sec-clus_sec c k, sec, in_sec)
        (
          mem',
          e,
          λ p.
              same p
              ∙ stored-ext (sec_byte d (clus_sec c + off / bsize) (off % bsize))
                  (λ k. sec_byte d (clus_sec c) 0 (off + k)) dst (n - 0) n mem p (omega arith)
                  (λ k lt. ap₂ d (omega arith) (omega arith)),
        )

  pub nth-IsClus : (cs : List ℕ) (i : ℕ) → IsFileChain f d cs → i < length cs → IsClus f (nth cs i)
  nth-IsClus cs i h lt = elim (Bool-cases (suc i == length cs)) [
    | inl e ↦ (nth-last f m d cs i h (eq_of_== e)).0
    | inr ne ↦ (nth-next f m d cs i h (omega (arith, lt, ne_of_== ne))).0
  ]

  -- A byte of the chunk is a byte of the file.
  chunk-file_byte :
      (cs : List ℕ) (off k : ℕ)
      → k < f.byts_per_clus - off % f.byts_per_clus
      → sec_byte d (clus_sec (nth cs (off / f.byts_per_clus))) 0 (off % f.byts_per_clus + k)
        ≡ file_byte cs (off + k)
  chunk-file_byte cs off k h =
      let (q, r) = near_div off k f.byts_per_clus (omega (arith, m.clusters, m.per_clus)) h in
      sym (ap₂ (λ c i. sec_byte d (clus_sec (nth cs c)) 0 i) q r)

  read_clusters-end :
      (fuel : ℕ) (e : Dirent) (dst off n tot : ℕ) (mem : ℕ → ℕ)
      → ltb tot n ≡ false
      → read_clusters put_kernel (suc fuel) f d e dst off n tot mem ≡ ok (tot, mem, e)
  unfolding read_clusters
  read_clusters-end fuel e dst off n tot mem all =
      let stop : (ltb e.cur_clus fat32_eoc && ltb tot n) ≡ false = ground (arith, all) in
      rw stop refl

  -- One round of the loop of eread.
  read_clusters-round :
      (fuel : ℕ) (e : Dirent) (cs : List ℕ) (dst off n tot : ℕ) (mem : ℕ → ℕ)
      → IsFileChain f d cs
      → IsPlaced e cs
      → tot < n
      → off + (n - tot) ≤ length cs * f.byts_per_clus
      → let m = min (f.byts_per_clus - off % f.byts_per_clus) (n - tot) in
        (mem₁ : ℕ → ℕ) × (e₁ : Dirent) × (read_clusters put_kernel
            (suc fuel)
            f
            d
            e
            dst
            off
            n
            tot
            mem
          ≡ read_clusters put_kernel fuel f d e₁ (dst + m) (off + m) n (tot + m) mem₁)
        × ((p : ℕ) → mem₁ p ≡ stored (λ k. file_byte cs (off + k)) dst m mem p)
        × IsPlaced e₁ cs
        × (e₁.file_size ≡ e.file_size)
  unfolding read_clusters
  read_clusters-round fuel e cs dst off n tot mem h at_e lt fits =
      let b = f.byts_per_clus in
      let pos : 0 < b = omega (arith, m.clusters, m.per_clus) in
      let c = off / b in
      let chunk = min (b - off % b) (n - tot) in
      let in_clus : off % b < b = mod-lt off pos in
      let inside : c < length cs = (div-lt_iff_lt-mul pos).1 (omega (arith, fits, lt)) in
      let k = nth-IsClus cs e.clus_cnt h at_e.inside in
      let good : ltb e.cur_clus fat32_eoc ≡ true = ground (arith, k.high, m.few, at_e.current) in
      let more : ltb tot n ≡ true = ground (arith, lt) in
      let (e₁, moved, at_e₁, cnt, size, _) = reloc_clus_lem f m d e cs off false h at_e inside in
      let here : e₁.cur_clus ≡ nth cs c = at_e₁.current ∙ ap (nth cs) cnt in
      let (mem₁, got, same) =
        rw_clus_read-stored (nth cs c) (off % b) dst chunk mem (nth-IsClus cs c h inside)
          (omega (arith, in_clus)) (omega (arith, in_clus, lt)) in
      rw (good, more, moved, here, got, ==_refl chunk)
        (
          mem₁,
          e₁,
          refl,
          λ p.
              same p
              ∙ stored-ext (λ j. sec_byte d (clus_sec (nth cs c)) 0 (off % b + j))
                  (λ j. file_byte cs (off + j)) dst chunk chunk mem p refl
                  (λ j hj. chunk-file_byte cs off j (omega (arith, hj))),
          at_e₁,
          size,
        )

  read_clusters-stored :
      (fuel : ℕ) (e : Dirent) (cs : List ℕ) (dst off n tot : ℕ) (mem : ℕ → ℕ)
      → IsFileChain f d cs
      → IsPlaced e cs
      → n - tot < fuel
      → tot ≤ n
      → off + (n - tot) ≤ length cs * f.byts_per_clus
      → (mem' : ℕ → ℕ) × (e' : Dirent) × (read_clusters put_kernel fuel f d e dst off n tot mem
          ≡ ok (n, mem', e'))
        × ((p : ℕ) → mem' p ≡ stored (λ k. file_byte cs (off + k)) dst (n - tot) mem p)
        × IsPlaced e' cs
        × (e'.file_size ≡ e.file_size)
  read_clusters-stored zero e cs dst off n tot mem h at_e enough le fits = absurd (omega arith)
  read_clusters-stored (suc fuel) e cs dst off n tot mem h at_e enough le fits =
      elim (Bool-cases (ltb tot n)) [
        | inr all ↦
            let same : tot ≡ n = ground (arith, all) in
            (
              mem,
              e,
              read_clusters-end fuel e dst off n tot mem all ∙ ap (λ t. ok (t, mem, e)) same,
              λ p.
                  sym (stored-none (λ k. file_byte cs (off + k)) dst (n - tot) mem p (omega arith)),
              at_e,
              refl,
            )
        | inl more ↦
            let b = f.byts_per_clus in
            let chunk = min (b - off % b) (n - tot) in
            let in_clus : off % b < b = mod-lt off (omega (arith, m.clusters, m.per_clus)) in
            let lt : tot < n = ground (arith, more) in
            let left : n - (tot + chunk) ≡ n - tot - chunk = omega arith in
            let (mem₁, e₁, step, same₁, at_e₁, size) =
              read_clusters-round fuel e cs dst off n tot mem h at_e lt fits in
            let (mem', e', rest, same, at_e', size') =
              read_clusters-stored fuel e₁ cs (dst + chunk) (off + chunk) n (tot + chunk) mem₁ h
                at_e₁ (omega (arith, in_clus, enough, lt)) (omega (arith, lt))
                (omega (arith, fits)) in
            (
              mem',
              e',
              step ∙ rest,
              λ p.
                  same p
                  ∙ stored-rest (file_byte cs) off dst n tot chunk mem mem₁ p (omega arith)
                      (same₁ p),
              at_e',
              size' ∙ size,
            )
      ]

  pub eread-stored :
      (e : Dirent) (cs : List ℕ) (dst off n : ℕ) (mem : ℕ → ℕ)
      → IsFileChain f d cs
      → IsPlaced e cs
      → off ≤ e.file_size
      → off + n < 2 ^ 32
      → e.file_size ≤ length cs * f.byts_per_clus
      → let k = min n (e.file_size - off) in
        (mem' : ℕ → ℕ) × (e' : Dirent) × (eread put_kernel f d e false dst off n mem
          ≡ ok (k, mem', e'))
        × ((p : ℕ) → mem' p ≡ stored (λ j. file_byte cs (off + j)) dst k mem p)
        × IsPlaced e' cs
        × (e'.file_size ≡ e.file_size)
  unfolding eread
  eread-stored e cs dst off n mem h at_e inside small size =
      let k = min n (e.file_size - off) in
      let exact : (off + n) % 2 ^ 32 ≡ off + n = omega arith in
      let start : (ltb e.file_size off || ltb (off + n) off || false) ≡ false =
        ground (arith, inside) in
      let clip : (if ltb e.file_size (off + n) then e.file_size - off else n) ≡ k =
        ground (arith, inside) in
      let (mem', e', run, same, at_e', size') =
        read_clusters-stored (k + 1) e cs dst off k 0 mem h at_e (omega arith) (omega arith)
          (omega (arith, inside, size)) in
      rw (exact, start, clip)
        (
          mem',
          e',
          run,
          λ p. same p ∙ ap (λ q. stored (λ j. file_byte cs (off + j)) dst q mem p) (omega arith),
          at_e',
          size',
        )
