-- ===== src/Fat/Chain/Search.antt =====
-- The search of alloc_clus of kernel/fat32.c through the words of the FAT.
use mathlib.Core.Path.{subst, subst₂}
use avx_loong_arch.Prelude.{
  ℕ, zero, suc, ◌+◌, ◌-◌, ◌*◌, ◌/◌, ◌%◌, ◌^◌, ◌≤◌, ◌<◌, ◌≡◌, sym, ◌≢◌, inl, inr, false, Option,
  none, some, arith, ltb, ◌==◌, InRange, InRange-cons, Bool-cases, Option-cases, eq_of_==, ne_of_==,
  ok,
}
use avx_loong_arch.Fat.Chain.{find_word, take_word, after_search, alloc_loop}
use avx_loong_arch.Fat.Layout.{IsMounted, IsClus, entry_sec, entry_off, entry}
use avx_loong_arch.Fat.{
  fat32_eof, Disk, Fat, get32, put32, bad_clus, first_sec_of_clus, zero_secs, zero_clus,
}

-- What find_word says of the `left` words from j on.
abbrev pub FoundWord : Disk → ℕ → ℕ → ℕ → Option ℕ → Type 0
FoundWord d s left j none = InRange (λ h. get32 d s (h * 4) ≢ 0) j left
FoundWord d s left j (some h) =
    (j ≤ h)
    × (h < j + left)
    × (get32 d s (h * 4) ≡ 0)
    × ((g : ℕ) → j ≤ g → g < h → get32 d s (g * 4) ≢ 0)

FoundWord-suc :
    (d : Disk) (s left j : ℕ) (r : Option ℕ)
    → get32 d s (j * 4) ≢ 0
    → FoundWord d s left (j + 1) r
    → FoundWord d s (suc left) j r
FoundWord-suc d s left j none ne all = InRange-cons (λ h. get32 d s (h * 4) ≢ 0) j left ne all
FoundWord-suc d s left j (some h) ne (lo, hi, e, before) = (
  omega arith,
  omega arith,
  e,
  λ g l m. elim (Bool-cases (j == g)) [
    | inl here ↦ subst (λ x. get32 d s (x * 4) ≢ 0) (eq_of_== here) ne
    | inr past ↦ let apart = ne_of_== past in before g (omega arith) m
  ],
)

pub find_word-FoundWord : (d : Disk) (s left j : ℕ) → FoundWord d s left j (find_word d s left j)
unfolding find_word
find_word-FoundWord d s zero j = λ h lo hi. absurd (omega arith)
find_word-FoundWord d s (suc left) j = elim (Bool-cases (get32 d s (j * 4) == 0)) [
  | inl hit ↦ rw hit (omega arith, omega arith, eq_of_== hit, λ g l m. absurd (omega arith))
  | inr miss ↦ rw miss (
      FoundWord-suc d s left j (find_word d s left (j + 1)) (ne_of_== miss)
        (find_word-FoundWord d s left (j + 1)))
]

module _ (f : Fat) (m : IsMounted f) where
  -- The words of a sector in which find_word found none.
  pub sector_full :
      (d : Disk) (i w : ℕ)
      → InRange (λ h. get32 d (f.rsvd_sec_cnt + i) (h * 4) ≢ 0) 0 128
      → i * 128 ≤ w
      → w < (i + 1) * 128
      → entry f d w ≢ 0
  sector_full d i w all lo hi e =
      let sec : entry_sec f w ≡ f.rsvd_sec_cnt + i = omega arith in
      let off : entry_off w ≡ (w - i * 128) * 4 = omega arith in
      all (w - i * 128) (omega arith) (omega arith) (rw (sec, off) at e)

  take_word-returns :
      (d : Disk) (s j c : ℕ) → IsClus f c → (d' : Disk) × (take_word f d s j c ≡ ok (c, d'))
  unfolding take_word zero_clus first_sec_of_clus
  take_word-returns d s j c k =
      let good : bad_clus f c ≡ false = ground (arith, k.low, k.high) in
      (
        zero_secs f.sec_per_clus (((c - 2) * f.sec_per_clus + f.first_data_sec) % 2 ^ 32)
            (put32 d s (j * 4) fat32_eof),
        rw good,
      )

  -- A free word whose number is not among the last two ends the search.
  pub alloc_loop-returns :
      (d : Disk) (left i w : ℕ)
      → i + left ≡ f.fat_sz
      → i * 128 ≤ w
      → w < f.fat_sz * 128
      → w + 2 ≤ f.data_clus_cnt + 1
      → entry f d w ≡ 0
      → (c : ℕ) × (d' : Disk) × (alloc_loop f d left i ≡ ok (c, d'))
  unfolding alloc_loop after_search
  alloc_loop-returns d zero i w e lo hi clus free = absurd (omega arith)
  alloc_loop-returns d (suc left) i w e lo hi clus free =
      let words : f.byts_per_sec / 4 ≡ 128 = omega (arith, m.sectors) in
      let sec : (f.rsvd_sec_cnt + i) % 2 ^ 32 ≡ f.rsvd_sec_cnt + i =
        omega (arith, m.first_data, m.ends) in
      let found = find_word-FoundWord d (f.rsvd_sec_cnt + i) 128 0 in
      let Ends = λ (s n : ℕ).
        (c : ℕ) × (d' : Disk) × (after_search f d s n i (alloc_loop f d left (i + 1))
            (find_word d s n 0)
          ≡ ok (c, d')) in
      subst₂ Ends (sym sec) (sym words)
        (elim (Option-cases (find_word d (f.rsvd_sec_cnt + i) 128 0)) [
          | inl miss ↦
              let all = rw miss at found in
              let later : (i + 1) * 128 ≤ w = elim (Bool-cases (ltb w ((i + 1) * 128))) [
                | inl here ↦ absurd (sector_full d i w all lo (ground arith) free)
                | inr past ↦ ground arith
              ] in
              let (c, d', run) =
                alloc_loop-returns d left (i + 1) w (omega arith) later hi clus free in
              rw miss (c, d', run)
          | inr (j, hit) ↦
              let here : FoundWord d (f.rsvd_sec_cnt + i) 128 0 (some j) = rw hit at found in
              let at_most : i * 128 + j ≤ w = elim (Bool-cases (ltb w (i * 128 + j))) [
                | inl before ↦
                    let lt : w < i * 128 + j = ground arith in
                    let w_sec : entry_sec f w ≡ f.rsvd_sec_cnt + i = omega (arith, here.1) in
                    let w_off : entry_off w ≡ (w - i * 128) * 4 = omega (arith, here.1) in
                    absurd
                      (here.3 (w - i * 128) (omega arith) (omega arith) (rw (w_sec, w_off) at free))
                | inr not_before ↦ ground arith
              ] in
              let wrap : (i * 128 + j + 2) % 2 ^ 32 ≡ i * 128 + j + 2 =
                omega (arith, m.small, here.1) in
              let k : IsClus f (i * 128 + j + 2) = record {
                low = omega arith;
                high = omega arith;
              } in
              let (d', run) = take_word-returns d (f.rsvd_sec_cnt + i) j (i * 128 + j + 2) k in
              rw (hit, wrap) (i * 128 + j + 2, d', run)
        ])
