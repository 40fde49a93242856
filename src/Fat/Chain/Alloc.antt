-- ===== src/Fat/Chain/Alloc.antt =====
-- alloc_clus of kernel/fat32.c: the word that it takes, and the cluster number that it returns.
use mathlib.Core.Path.{subst₂}
use avx_loong_arch.Prelude.{
  ℕ, zero, suc, ◌+◌, ◌-◌, ◌*◌, ◌/◌, ◌%◌, ◌^◌, ◌≤◌, ◌<◌, ◌≡◌, refl, sym, ap, ◌∙◌, ◌≢◌, inl, inr,
  some, arith, ltb, ◌==◌, if◌then◌else◌, InRange, Bool-cases, Option-cases, ok,
}
use avx_loong_arch.Fat.Chain.{find_word, take_word, after_search, alloc_loop, alloc_clus}
use avx_loong_arch.Fat.Chain.Search.{
  FoundWord, find_word-FoundWord, sector_full, alloc_loop-returns,
}
use avx_loong_arch.Fat.Layout.{
  IsMounted, IsClus, entry_sec, entry_off, entry, get32-put32_self, get32-put32_ne, read_fat-entry,
  entry_apart, first_sec_of_clus_lem,
}
use avx_loong_arch.Fat.{
  fat32_eof, Disk, Fat, get32, put32, bad_clus, first_sec_of_clus, read_fat, zero_secs, zero_clus,
}

zero_secs-other :
    (n s : ℕ) (d : Disk) (s' o : ℕ) → s + n ≤ 2 ^ 32 → s' < s → zero_secs n s d s' o ≡ d s' o
unfolding zero_secs
zero_secs-other zero s d s' o fit lt = refl
zero_secs-other (suc zero) s d s' o fit lt = ground arith
zero_secs-other (suc (suc n)) s d s' o fit lt =
    zero_secs-other (suc n) ((s + 1) % 2 ^ 32) (λ s'' p. if s'' == s then 0 else d s'' p) s' o
      (omega arith) (omega arith)
    ∙ ground arith

module _ (f : Fat) (m : IsMounted f) where
  -- Word w is the first free one from word `from` on. It becomes an end of chain, and the sectors
  -- of the cluster w + 2 are zeroed.
  pub record Allocated (d : Disk) (from c : ℕ) (d' : Disk) : Type 0 where
    pub word : ℕ
    pub number : c ≡ word + 2
    pub free : entry f d word ≡ 0
    pub first : (w : ℕ) → from ≤ w → w < word → entry f d w ≢ 0
    pub from_le : from ≤ word
    pub word_lt : word < f.fat_sz * 128
    pub data_clus : IsClus f c
    pub sec : ℕ
    pub sec_at : first_sec_of_clus f c ≡ ok sec
    pub disk :
        d' ≡ zero_secs f.sec_per_clus sec (put32 d (entry_sec f word) (entry_off word) fat32_eof)

  Allocated-next :
      (d : Disk) (i c : ℕ) (d' : Disk)
      → InRange (λ h. get32 d (f.rsvd_sec_cnt + i) (h * 4) ≢ 0) 0 128
      → Allocated d ((i + 1) * 128) c d'
      → Allocated d (i * 128) c d'
  Allocated-next d i c d' all a = record {
    word = a.word;
    number = a.number;
    free = a.free;
    first = λ w lo lt. elim (Bool-cases (ltb w ((i + 1) * 128))) [
      | inl here ↦ sector_full f m d i w all lo (ground arith)
      | inr past ↦ a.first w (ground arith) lt
    ];
    from_le = omega (arith, a.from_le);
    word_lt = a.word_lt;
    data_clus = a.data_clus;
    sec = a.sec;
    sec_at = a.sec_at;
    disk = a.disk;
  }

  -- The word found, and then zero_clus of the cluster number.
  Allocated-here :
      (d : Disk) (i j c : ℕ) (d' : Disk)
      → i < f.fat_sz
      → FoundWord d (f.rsvd_sec_cnt + i) 128 0 (some j)
      → take_word f d (f.rsvd_sec_cnt + i) j (i * 128 + j + 2) ≡ ok (c, d')
      → Allocated d (i * 128) c d'
  unfolding take_word zero_clus first_sec_of_clus
  Allocated-here d i j c d' hi (lo, lt, zero_word, before) e =
      elim (Bool-cases (bad_clus f (i * 128 + j + 2))) [
        | inl bad ↦ absurd (ground arith)
        | inr good ↦
            let w = i * 128 + j in
            let sec_eq : entry_sec f w ≡ f.rsvd_sec_cnt + i = omega arith in
            let off_eq : entry_off w ≡ j * 4 = omega arith in
            let s = ((w + 2 - 2) * f.sec_per_clus + f.first_data_sec) % 2 ^ 32 in
            let c_eq : c ≡ w + 2 = ground arith in
            let d_eq : d'
                ≡ zero_secs f.sec_per_clus s (put32 d (f.rsvd_sec_cnt + i) (j * 4) fat32_eof) =
              ground arith in
            record {
              word = w;
              number = c_eq;
              free = rw (sec_eq, off_eq) zero_word;
              first = λ v l h g.
                  let v_sec : entry_sec f v ≡ f.rsvd_sec_cnt + i = omega arith in
                  let v_off : entry_off v ≡ (v - i * 128) * 4 = omega arith in
                  before (v - i * 128) (omega arith) (omega arith) (rw (v_sec, v_off) at g);
              from_le = omega arith;
              word_lt = omega arith;
              data_clus = record { low = ground arith; high = ground arith };
              sec = s;
              sec_at = rw c_eq (rw good);
              disk = rw (sec_eq, off_eq) d_eq;
            }
      ]

  alloc_loop-Allocated :
      (d : Disk) (left i c : ℕ) (d' : Disk)
      → i + left ≡ f.fat_sz
      → alloc_loop f d left i ≡ ok (c, d')
      → Allocated d (i * 128) c d'
  unfolding alloc_loop after_search
  alloc_loop-Allocated d zero i c d' e run = absurd (ground arith)
  alloc_loop-Allocated d (suc left) i c d' e run =
      let words : f.byts_per_sec / 4 ≡ 128 = omega (arith, m.sectors) in
      let sec : (f.rsvd_sec_cnt + i) % 2 ^ 32 ≡ f.rsvd_sec_cnt + i =
        omega (arith, m.first_data, m.ends) in
      let found = find_word-FoundWord d (f.rsvd_sec_cnt + i) 128 0 in
      let run' : after_search f d (f.rsvd_sec_cnt + i) 128 i (alloc_loop f d left (i + 1))
            (find_word d (f.rsvd_sec_cnt + i) 128 0)
          ≡ ok (c, d') =
        subst₂
          (λ s w.
            after_search f d s w i (alloc_loop f d left (i + 1)) (find_word d s w 0) ≡ ok (c, d'))
          sec words run in
      elim (Option-cases (find_word d (f.rsvd_sec_cnt + i) 128 0)) [
        | inl miss ↦
            let all = rw miss at found in
            Allocated-next d i c d' all
              (alloc_loop-Allocated d left (i + 1) c d' (omega arith) (rw miss at run'))
        | inr (j, hit) ↦
            let here : FoundWord d (f.rsvd_sec_cnt + i) 128 0 (some j) = rw hit at found in
            let wrap : (i * 128 + j + 2) % 2 ^ 32 ≡ i * 128 + j + 2 =
              omega (arith, m.small, here.1) in
            Allocated-here d i j c d' (omega arith) here (rw (hit, wrap) at run')
      ]

  -- The FAT after an allocation: zero_clus writes behind it.
  Allocated-entry :
      (d : Disk) (from c : ℕ) (d' : Disk) (a : Allocated d from c d') (y : ℕ)
      → y < f.fat_sz * 128
      → entry f d' y ≡ entry f (put32 d (entry_sec f a.word) (entry_off a.word) fat32_eof) y
  Allocated-entry d from c d' a y hy =
      let (s, s', at_s, at_s', lo, hi, same) =
        first_sec_of_clus_lem f m c c (f.sec_per_clus - 1) 0 a.data_clus a.data_clus
          (omega (arith, m.clusters)) m.clusters in
      let sec_eq : a.sec ≡ s = some_eq (sym a.sec_at ∙ at_s) in
      let fits : a.sec + f.sec_per_clus ≤ 2 ^ 32 = omega (arith, hi, sec_eq, m.clusters) in
      let keep : (o : ℕ)
          → d' (entry_sec f y) o
            ≡ put32 d (entry_sec f a.word) (entry_off a.word) fat32_eof (entry_sec f y) o =
        λ o. rw (a.disk) (
          zero_secs-other f.sec_per_clus a.sec
            (put32 d (entry_sec f a.word) (entry_off a.word) fat32_eof) (entry_sec f y) o fits
            (omega (arith, m.first_data))) in
      omega (
        arith,
        keep (entry_off y),
        keep (entry_off y + 1),
        keep (entry_off y + 2),
        keep (entry_off y + 3),
      )
    where
      some_eq : {x y : ℕ} → ok x ≡ ok y → x ≡ y
      some_eq e = cc

  alloc_clus-entry :
      (d : Disk) (c : ℕ) (d' : Disk)
      → alloc_clus f d ≡ ok (c, d')
      → (w : ℕ) × (c ≡ w + 2)
        × (entry f d w ≡ 0)
        × ((v : ℕ) → v < w → entry f d v ≢ 0)
        × (entry f d' w ≡ fat32_eof)
        × ((y : ℕ) → IsClus f y → y ≢ w → read_fat f d' y ≡ read_fat f d y)
        × (read_fat f d' c ≡ read_fat f d c)
  unfolding alloc_clus
  alloc_clus-entry d c d' run =
      let a = alloc_loop-Allocated d f.fat_sz 0 c d' (omega arith) run in
      let others : (y : ℕ) → IsClus f y → y ≢ a.word → read_fat f d' y ≡ read_fat f d y = λ y k ne.
        read_fat-entry f m d' y k
        ∙ ap ok (
            Allocated-entry d 0 c d' a y (omega (arith, k.high, m.words))
            ∙ get32-put32_ne d (entry_sec f a.word) (entry_off a.word) fat32_eof (entry_sec f y)
                (entry_off y) (omega arith) (omega arith) (entry_apart f m a.word y ne))
        ∙ sym (read_fat-entry f m d y k) in
      (
        a.word,
        a.number,
        a.free,
        λ v lt. a.first v (omega arith) lt,
        Allocated-entry d 0 c d' a a.word a.word_lt
            ∙ get32-put32_self d (entry_sec f a.word) (entry_off a.word) fat32_eof (omega arith),
        others,
        others c a.data_clus (omega (arith, a.number)),
      )

  -- Where some word of the FAT is 0 and the number two above it is that of a cluster, alloc_clus
  -- returns: the cluster c is two more than the number w of the first free word. The word w becomes
  -- the end of a chain, and no other data cluster's word changes. So the word of c itself, by which
  -- read_fat and write_fat know the cluster, is what it was.
  pub alloc_clus_lem :
      (d : Disk) (free : ℕ)
      → entry f d free ≡ 0
      → free + 2 ≤ f.data_clus_cnt + 1
      → (c : ℕ) × (d' : Disk) × (w : ℕ) × (alloc_clus f d ≡ ok (c, d'))
        × (c ≡ w + 2)
        × (entry f d w ≡ 0)
        × ((v : ℕ) → v < w → entry f d v ≢ 0)
        × (entry f d' w ≡ fat32_eof)
        × ((y : ℕ) → IsClus f y → y ≢ w → read_fat f d' y ≡ read_fat f d y)
        × (read_fat f d' c ≡ read_fat f d c)
  alloc_clus_lem d free zero_word clus =
      let (c, d', run) =
        alloc_loop-returns f m d f.fat_sz 0 free (omega arith) (omega arith)
          (omega (arith, m.words)) clus zero_word in
      let run' : alloc_clus f d ≡ ok (c, d') = unfold alloc_clus in run in
      let (w, number, was_free, first, ended, others, same) = alloc_clus-entry d c d' run' in
      (c, d', w, run', number, was_free, first, ended, others, same)
