-- ===== src/Fat/Store/File.antt =====
-- ewrite of kernel/fat32.c from the kernel's memory, within the clusters of a file, and eread after it.
use mathlib.Core.Path.{subst}
use native.Mathlib.Nat.{mod-lt, div-lt_iff_lt-mul}
use avx_loong_arch.Prelude.{
  ℕ, zero, suc, ◌+◌, ◌-◌, ◌*◌, ◌/◌, ◌%◌, ◌^◌, ◌≤◌, ◌<◌, min, ◌≡◌, refl, sym, ap, ap₂, ◌∙◌, ◌⊎◌, inl,
  inr, true, false, ◌&&◌, ◌||◌, some, List, [], ◌∷◌, arith, ltb, leb, ◌==◌, if◌then◌else◌,
  Bool-cases, ==_refl, length, ok, ◌>>=◌,
}
use avx_loong_arch.Fat.Store.Clusters.{clus_at, rw_clus_write-stored, chunk-stored}
use avx_loong_arch.Fat.Store.Sectors.{linear}
use avx_loong_arch.Fat.Store.{get_kernel, write_clusters, grown_to, ewrite}
use avx_loong_arch.Fat.Data.File.{file_byte, nth-IsClus, eread-stored}
use avx_loong_arch.Fat.Data.Read.{stored, stored-ext, stored-none, stored-rest}
use avx_loong_arch.Fat.Data.{put_kernel, eread}
use avx_loong_arch.Fat.Chain.Relocate.{nth, IsFileChain, IsPlaced, reloc_clus_lem}
use avx_loong_arch.Fat.Chain.{Dirent}
use avx_loong_arch.Fat.Layout.{IsMounted, IsClus, entry_sec, entry_off, entry}
use avx_loong_arch.Fat.{bsize, Disk, Fat}

module _ (f : Fat) (m : IsMounted f) (few : f.byts_per_clus < 2 ^ 32) where
  -- The byte of the disk at x is in none of the clusters.
  abbrev pub Outside : List ℕ → ℕ → Type 0
  Outside cs x =
      (j : ℕ)
      → j < length cs
      → (x < clus_at f m few (nth cs j)) ⊎ (clus_at f m few (nth cs j) + f.byts_per_clus ≤ x)

  -- Outside the clusters the disks are the same.
  abbrev pub Kept : List ℕ → Disk → Disk → Type 0
  Kept cs d d' = (x : ℕ) → Outside cs x → linear d' x ≡ linear d x

  entry-Kept :
      (cs : List ℕ) (d d' : Disk) (c : ℕ) → Kept cs d d' → IsClus f c → entry f d' c ≡ entry f d c
  entry-Kept cs d d' c same k =
      let byte : (i : ℕ)
          → i < 4
          → d' (entry_sec f c) (entry_off c + i) ≡ d (entry_sec f c) (entry_off c + i) =
        λ i lt.
          let x = entry_sec f c * bsize + entry_off c + i in
          let before : x < f.first_data_sec * bsize =
            omega (arith, k.high, m.words, m.first_data) in
          ap₂ d' (omega arith) (omega arith)
          ∙ same x (λ j hj. inl (omega (arith, before)))
          ∙ ap₂ d (omega arith) (omega arith) in
      let start : entry_off c + 0 ≡ entry_off c = omega arith in
      omega (
        arith,
        subst (λ o. d' (entry_sec f c) o ≡ d (entry_sec f c) o) start (byte 0 (omega arith)),
        byte 1 (omega arith),
        byte 2 (omega arith),
        byte 3 (omega arith),
      )

  IsFileChain-Kept :
      (xs cs : List ℕ) (d d' : Disk) → Kept xs d d' → IsFileChain f d cs → IsFileChain f d' cs
  IsFileChain-Kept xs [] d d' same h = tt
  IsFileChain-Kept xs (x ∷ []) d d' same (k, lo, hi) =
      let e = entry-Kept xs d d' x same k in (k, omega (arith, e), omega (arith, e))
  IsFileChain-Kept xs (x ∷ y ∷ cs) d d' same (k, e, rest) =
      (k, entry-Kept xs d d' x same k ∙ e, IsFileChain-Kept xs (y ∷ cs) d d' same rest)

  -- One round of the loop of ewrite.
  write_clusters-round :
      (mem : ℕ → ℕ) (fuel : ℕ) (d : Disk) (e : Dirent) (cs : List ℕ) (src off n tot : ℕ)
      → IsFileChain f d cs
      → IsPlaced e cs
      → tot < n
      → off + (n - tot) ≤ length cs * f.byts_per_clus
      → let k = min (f.byts_per_clus - off % f.byts_per_clus) (n - tot) in
        (d₁ : Disk) × (e₁ : Dirent) × (write_clusters
            (get_kernel mem)
            (suc fuel)
            f
            d
            e
            src
            off
            n
            tot
          ≡ write_clusters (get_kernel mem) fuel f d₁ e₁ (src + k) (off + k) n (tot + k))
        × ((i : ℕ)
            → i < length cs * f.byts_per_clus
            → file_byte f m few d₁ cs i
              ≡ stored (λ j. mem (src + j)) off k (file_byte f m few d cs) i)
        × Kept cs d d₁
        × IsPlaced e₁ cs
        × (e₁.file_size ≡ e.file_size)
  unfolding write_clusters
  write_clusters-round mem fuel d e cs src off n tot h at_e lt fits =
      let b = f.byts_per_clus in
      let pos : 0 < b = omega (arith, m.clusters, m.per_clus) in
      let c = off / b in
      let k = min (b - off % b) (n - tot) in
      let in_clus : off % b < b = mod-lt off pos in
      let inside : c < length cs = (div-lt_iff_lt-mul pos).1 (omega (arith, fits, lt)) in
      let more : ltb tot n ≡ true = ground (arith, lt) in
      let (e₁, moved, at_e₁, cnt, size, _) = reloc_clus_lem f m d e cs off true h at_e inside in
      let here : e₁.cur_clus ≡ nth cs c = at_e₁.current ∙ ap (nth cs) cnt in
      let (d₁, put, same) =
        rw_clus_write-stored f m few mem d (nth cs c) src (off % b) k
          (nth-IsClus f m few d cs c h inside) (omega (arith, in_clus))
          (omega (arith, in_clus, lt)) in
      rw (more, moved, here, put, ==_refl k)
        (
          d₁,
          e₁,
          refl,
          λ i hi.
              chunk-stored f m few (λ j. mem (src + j)) d d₁ cs off k i h inside hi (omega arith)
                same,
          λ x out.
              let a = clus_at f m few (nth cs c) + off % b in
              let no_byte : (leb a x && ltb x (a + k)) ≡ false = elim (out c inside) [
                | inl lo ↦ ground (arith, lo)
                | inr hi ↦ ground (arith, hi, in_clus)
              ] in
              same x ∙ rw no_byte refl,
          at_e₁,
          size,
        )

  write_clusters-stored :
      (mem : ℕ → ℕ) (fuel : ℕ) (d : Disk) (e : Dirent) (cs : List ℕ) (src off n tot : ℕ)
      → IsFileChain f d cs
      → IsPlaced e cs
      → n - tot < fuel
      → tot ≤ n
      → off + (n - tot) ≤ length cs * f.byts_per_clus
      → (d' : Disk) × (e' : Dirent) × (write_clusters (get_kernel mem) fuel f d e src off n tot
          ≡ ok (n, off + (n - tot), d', e'))
        × ((i : ℕ)
            → i < length cs * f.byts_per_clus
            → file_byte f m few d' cs i
              ≡ stored (λ j. mem (src + j)) off (n - tot) (file_byte f m few d cs) i)
        × Kept cs d d'
        × IsPlaced e' cs
        × (e'.file_size ≡ e.file_size)
  unfolding write_clusters
  write_clusters-stored mem zero d e cs src off n tot h at_e enough le fits = absurd (omega arith)
  write_clusters-stored mem (suc fuel) d e cs src off n tot h at_e enough le fits =
      elim (Bool-cases (ltb tot n)) [
        | inr all ↦
            let same : tot ≡ n = ground (arith, all) in
            (
              d,
              e,
              rw all (ap₂ (λ t o. ok (t, o, d, e)) same (omega (arith, same))),
              λ i hi. sym (
                  stored-none (λ j. mem (src + j)) off (n - tot) (file_byte f m few d cs) i
                    (omega (arith, same))),
              λ x out. refl,
              at_e,
              refl,
            )
        | inl more ↦
            let b = f.byts_per_clus in
            let k = min (b - off % b) (n - tot) in
            let in_clus : off % b < b = mod-lt off (omega (arith, m.clusters, m.per_clus)) in
            let lt : tot < n = ground (arith, more) in
            let end : off + k + (n - (tot + k)) ≡ off + (n - tot) = omega arith in
            let (d₁, e₁, step, same₁, kept₁, at_e₁, size) =
              write_clusters-round mem fuel d e cs src off n tot h at_e lt fits in
            let (d', e', rest, same, kept, at_e', size') =
              write_clusters-stored mem fuel d₁ e₁ cs (src + k) (off + k) n (tot + k)
                (IsFileChain-Kept cs cs d d₁ kept₁ h) at_e₁ (omega (arith, in_clus, enough, lt))
                (omega (arith, lt)) (omega (arith, fits)) in
            (
              d',
              e',
              step ∙ rest ∙ ap (λ o. ok (n, o, d', e')) end,
              λ i hi.
                  same i hi
                  ∙ stored-rest mem src off n tot k (file_byte f m few d cs)
                      (file_byte f m few d₁ cs) i (omega arith) (same₁ i hi),
              λ x out. kept x out ∙ kept₁ x out,
              at_e',
              size' ∙ size,
            )
      ]

  -- ewrite of n bytes to a file whose clusters are the chain cs, at an offset not behind its end and
  -- where the bytes fit its clusters: it returns n; the file then holds the bytes from the offset on
  -- and is otherwise as before, its size is what it was or the end of the write, whichever is larger,
  -- and outside its clusters the disk is as it was.
  pub ewrite-stored :
      (mem : ℕ → ℕ) (d : Disk) (e : Dirent) (cs : List ℕ) (src off n : ℕ)
      → IsFileChain f d cs
      → IsPlaced e cs
      → off ≤ e.file_size
      → off + n < 2 ^ 32
      → off + n ≤ length cs * f.byts_per_clus
      → (d' : Disk) × (e' : Dirent) × (ewrite (get_kernel mem) f d e false src off n
          ≡ ok (some n, d', e'))
        × ((i : ℕ)
            → i < length cs * f.byts_per_clus
            → file_byte f m few d' cs i
              ≡ stored (λ j. mem (src + j)) off n (file_byte f m few d cs) i)
        × Kept cs d d'
        × IsFileChain f d' cs
        × IsPlaced e' cs
        × (e'.file_size ≡ (if ltb e.file_size (off + n) then off + n else e.file_size))
  unfolding ewrite
  ewrite-stored mem d e cs src off n h at_e inside small fits =
      let k = nth-IsClus f m few d cs 0 h (omega (arith, at_e.inside)) in
      let has_clus : (e.first_clus == 0) ≡ false = ground (arith, at_e.first, k.low) in
      let exact : (off + n) % 2 ^ 32 ≡ off + n = omega arith in
      let start : (ltb e.file_size off || ltb (off + n) off || ltb 0xffff_ffff (off + n) || false)
          ≡ false =
        ground (arith, inside) in
      let (d', e', run, same, kept, at_e', size) =
        write_clusters-stored mem (n + 1) d e cs src off n 0 h at_e (omega arith) (omega arith)
          (omega (arith, fits)) in
      let end : off + (n - 0) ≡ off + n = omega arith in
      rw (exact, start, has_clus, run, end)
        (
          d',
          grown_to n (off + n) e',
          refl,
          λ i hi.
              same i hi
              ∙ ap (λ q. stored (λ j. mem (src + j)) off q (file_byte f m few d cs) i)
                  (omega arith),
          kept,
          IsFileChain-Kept cs cs d d' kept h,
          elim (Bool-cases (ltb 0 n && ltb e'.file_size (off + n))) [
            | inl grows ↦
                rw grows
                  (record { first = at_e'.first; current = at_e'.current; inside = at_e'.inside })
            | inr same_size ↦ rw same_size at_e'
          ],
          ground (arith, size, inside),
        )

  -- ewrite of n bytes and then eread of n bytes at the same offset, both with a kernel buffer, for a
  -- file whose clusters are the chain cs: where the offset is not behind the end of the file, its
  -- size and the end of the write are within the clusters that it has (so that none is allocated),
  -- and the end of the write is below 2 ^ 32, eread returns n, the bytes at dst are those that were
  -- at src, and the rest of the memory is as it was.
  pub eread-ewrite :
      (mem : ℕ → ℕ) (d : Disk) (e : Dirent) (cs : List ℕ) (src dst off n : ℕ) (mem₀ : ℕ → ℕ)
      → IsFileChain f d cs
      → IsPlaced e cs
      → off ≤ e.file_size
      → off + n < 2 ^ 32
      → off + n ≤ length cs * f.byts_per_clus
      → e.file_size ≤ length cs * f.byts_per_clus
      → (mem' : ℕ → ℕ) × (e' : Dirent) × ((ewrite (get_kernel mem) f d e false src off n
            >>= λ (put, d₁, e₁). eread put_kernel f d₁ e₁ false dst off n mem₀)
          ≡ ok (n, mem', e'))
        × ((p : ℕ) → mem' p ≡ stored (λ j. mem (src + j)) dst n mem₀ p)
  eread-ewrite mem d e cs src dst off n mem₀ h at_e inside small fits size =
      let (d', e', run, same, kept, h', at_e', size') =
        ewrite-stored mem d e cs src off n h at_e inside small fits in
      let all : min n (e'.file_size - off) ≡ n = ground (arith, size', inside) in
      let (mem', e'', run', same', _, _) =
        eread-stored f m few d' e' cs dst off n mem₀ h' at_e' (ground (arith, size', inside)) small
          (ground (arith, size', fits, size)) in
      (
        mem',
        e'',
        rw (run, run') (ap (λ k. ok (k, mem', e'')) all),
        λ p.
            same' p
            ∙ stored-ext (λ j. file_byte f m few d' cs (off + j)) (λ j. mem (src + j)) dst
                (min n (e'.file_size - off)) n mem₀ p all
                (λ j hj.
                  let within : (leb off (off + j) && ltb (off + j) (off + n)) ≡ true =
                    ground (arith, hj) in
                  let back : off + j - off ≡ j = omega arith in
                  same (off + j) (omega (arith, fits, hj)) ∙ rw (within, back) refl),
      )
