-- ===== src/Fat/Chain/Truncate.antt =====
-- etrunc and etruncate of kernel/fat32.c on a file's chain of clusters.
use native.Mathlib.Nat.{div-add-mod}
use avx_loong_arch.Prelude.{
  ℕ, zero, suc, ◌+◌, ◌*◌, ◌/◌, ◌%◌, ◌≤◌, ◌<◌, ◌≡◌, refl, sym, ap, ◌∙◌, ◌≢◌, inl, inr, true, false,
  ◌&&◌, some, List, [], ◌∷◌, arith, ltb, ◌==◌, if◌then◌else◌, Bool-cases, eq_of_==, ne_of_==,
  length, All, has, ok,
}
use avx_loong_arch.Fat.Chain.{Dirent, in_chain, free_chain, etrunc, skip_chain, etruncate}
use avx_loong_arch.Fat.Layout.{
  IsMounted, IsClus, entry_sec, entry_off, entry, get32-put32_self, get32-put32_ne, put32-other,
  read_fat-entry, write_fat-put32, entry_apart,
}
use avx_loong_arch.Fat.{Disk, Fat, put32, read_fat, free_clus}

-- From c the FAT leads through the data clusters `cs`, each once, to a number that ends a chain.
abbrev pub ClusChain : Fat → Disk → ℕ → List ℕ → Type 0
ClusChain f d c [] = in_chain c ≡ false
ClusChain f d c (x ∷ cs) =
    (c ≡ x) × IsClus f x × (has x cs ≡ false) × ClusChain f d (entry f d x) cs

-- The clusters that `len` bytes take up are some, if there are bytes.
clus_num-pos : (b len : ℕ) → 0 < len → 0 < (if len % b == 0 then len / b else len / b + 1)
clus_num-pos b len pos = elim (Bool-cases (len % b == 0)) [
  | inl whole ↦ rw whole (positive (len / b) (eq_of_== whole) (div-add-mod len b))
  | inr part ↦ rw part (omega arith)
]
  where
    positive : (q : ℕ) → len % b ≡ 0 → b * q + len % b ≡ len → 0 < q
    positive zero none_left e = grind arith
    positive (suc q) none_left e = omega arith

module _ (f : Fat) (m : IsMounted f) where
  in_chain_of_IsClus : (c : ℕ) → IsClus f c → in_chain c ≡ true
  in_chain_of_IsClus c k = ground (arith, k.low, k.high, m.few)

  -- Writing the word of a cluster off the chain leaves the chain as it is.
  ClusChain-put32 :
      (d : Disk) (x v c : ℕ) (cs : List ℕ)
      → has x cs ≡ false
      → ClusChain f d c cs
      → ClusChain f (put32 d (entry_sec f x) (entry_off x) v) c cs
  ClusChain-put32 d x v c [] out h = h
  ClusChain-put32 d x v c (y ∷ cs) out (e, k, new, rest) =
      let apart : y ≢ x = ground arith in
      let same : entry f (put32 d (entry_sec f x) (entry_off x) v) y ≡ entry f d y =
        get32-put32_ne d (entry_sec f x) (entry_off x) v (entry_sec f y) (entry_off y) (omega arith)
          (omega arith) (entry_apart f m x y apart) in
      (e, k, new, rw same (ClusChain-put32 d x v (entry f d y) cs (ground arith) rest))

  -- The words of a chain are cleared, one after the other.
  abbrev pub cleared : Disk → List ℕ → Disk
  cleared d [] = d
  cleared d (x ∷ cs) = cleared (put32 d (entry_sec f x) (entry_off x) 0) cs

  free_chain-cleared :
      (fuel : ℕ) (d : Disk) (c : ℕ) (cs : List ℕ)
      → length cs < fuel
      → ClusChain f d c cs
      → free_chain fuel f d c ≡ ok (cleared d cs)
  unfolding free_chain free_clus
  free_chain-cleared zero d c cs enough h = absurd (omega arith)
  free_chain-cleared (suc fuel) d c [] enough h = rw h
  free_chain-cleared (suc fuel) d c (x ∷ cs) enough (e, k, new, rest) =
      let go : in_chain c ≡ true = rw e (in_chain_of_IsClus x k) in
      rw (go, e, read_fat-entry f m d x k, write_fat-put32 f m d x 0 k)
        (free_chain-cleared fuel (put32 d (entry_sec f x) (entry_off x) 0) (entry f d x) cs
          (omega arith) (ClusChain-put32 d x 0 (entry f d x) cs new rest))

  cleared-entry :
      (d : Disk) (cs : List ℕ) (y : ℕ)
      → All (IsClus f) cs
      → IsClus f y
      → entry f (cleared d cs) y ≡ (if has y cs then 0 else entry f d y)
  cleared-entry d [] y all k = refl
  cleared-entry d (x ∷ cs) y all k =
      cleared-entry (put32 d (entry_sec f x) (entry_off x) 0) cs y all.1 k
      ∙ elim (Bool-cases (y == x)) [
        | inl same ↦
            let at_x : entry f (put32 d (entry_sec f x) (entry_off x) 0) y ≡ 0 =
              rw (eq_of_== same)
                (get32-put32_self d (entry_sec f x) (entry_off x) 0 (omega arith)) in
            rw (same, at_x) (ground arith)
        | inr other ↦ rw (
          other,
          get32-put32_ne d (entry_sec f x) (entry_off x) 0 (entry_sec f y) (entry_off y)
              (omega arith) (omega arith) (entry_apart f m x y (ne_of_== other)),
        )
      ]

  pub ClusChain-All : (d : Disk) (c : ℕ) (cs : List ℕ) → ClusChain f d c cs → All (IsClus f) cs
  ClusChain-All d c [] h = tt
  ClusChain-All d c (x ∷ cs) (e, k, new, rest) = (k, ClusChain-All d (entry f d x) cs rest)

  cleared-sector :
      (d : Disk) (cs : List ℕ) (s o : ℕ)
      → All (IsClus f) cs
      → f.first_data_sec ≤ s
      → cleared d cs s o ≡ d s o
  cleared-sector d [] s o all hs = refl
  cleared-sector d (x ∷ cs) s o (k, all) hs =
      cleared-sector (put32 d (entry_sec f x) (entry_off x) 0) cs s o all hs
      ∙ put32-other d (entry_sec f x) (entry_off x) 0 s o
          (omega (arith, k.high, m.words, m.first_data))

  -- etrunc of a file whose clusters form a chain ends, with fuel for one round more than there are
  -- clusters: the file is empty, has no first cluster and is dirty, the word of each of its clusters
  -- is 0, that of every other cluster is as it was, and so is the data area.
  pub etrunc_lem :
      (fuel : ℕ) (d : Disk) (e : Dirent) (cs : List ℕ)
      → length cs < fuel
      → ClusChain f d e.first_clus cs
      → (d' : Disk) × (etrunc fuel f d e
          ≡ ok (d', record e { file_size = 0; first_clus = 0; dirty = true }))
        × ((y : ℕ) → IsClus f y → read_fat f d' y ≡ (if has y cs then ok 0 else read_fat f d y))
        × ((s o : ℕ) → f.first_data_sec ≤ s → d' s o ≡ d s o)
  unfolding etrunc
  etrunc_lem fuel d e cs enough h =
      let all = ClusChain-All d e.first_clus cs h in
      (
        cleared d cs,
        rw (free_chain-cleared fuel d e.first_clus cs enough h),
        λ y k.
            read_fat-entry f m (cleared d cs) y k
            ∙ ap ok (cleared-entry d cs y all k)
            ∙ elim (Bool-cases (has y cs)) [
              | inl mine ↦ rw mine
              | inr other ↦ rw other (sym (read_fat-entry f m d y k))
            ],
        λ s o hs. cleared-sector d cs s o all hs,
      )

  -- The first loop of etruncate runs to the end of the chain.
  skip_chain-end :
      (fuel : ℕ) (d : Disk) (n c : ℕ) (cs : List ℕ)
      → 0 < n
      → length cs < fuel
      → ClusChain f d c cs
      → (last : ℕ) × (skip_chain fuel f d 0 n c ≡ ok last) × (in_chain last ≡ false)
  unfolding skip_chain
  skip_chain-end zero d n c cs pos enough h = absurd (omega arith)
  skip_chain-end (suc fuel) d n c [] pos enough h = (c, ground arith, h)
  skip_chain-end (suc fuel) d n c (x ∷ cs) pos enough (e, k, new, rest) =
      let go : (ltb 0 n && in_chain c) ≡ true = rw e (ground (arith, in_chain_of_IsClus x k)) in
      let (last, run, out) = skip_chain-end fuel d n (entry f d x) cs pos (omega arith) rest in
      (last, rw (go, e, read_fat-entry f m d x k) run, out)

  -- etruncate to a length above 0 and at most the file's size sets the size, and frees no cluster:
  -- whatever the chain, the disk is as it was.
  pub etruncate_frees_nothing :
      (fuel : ℕ) (d : Disk) (e : Dirent) (cs : List ℕ) (len : ℕ)
      → length cs < fuel
      → ClusChain f d e.first_clus cs
      → 0 < len
      → len ≤ e.file_size
      → etruncate fuel f d e len ≡ ok (some (d, record e { file_size = len }))
  unfolding etruncate
  etruncate_frees_nothing zero d e cs len enough h pos le = absurd (omega arith)
  etruncate_frees_nothing (suc fuel) d e cs len enough h pos le =
      let n =
        if len % f.byts_per_clus == 0 then len / f.byts_per_clus else len / f.byts_per_clus + 1 in
      let some_clus : 0 < n = clus_num-pos f.byts_per_clus len pos in
      let (last, run, out) = skip_chain-end (suc fuel) d n e.first_clus cs some_clus enough h in
      let fits : ltb e.file_size len ≡ false = ground arith in
      rw (fits, run) (unfold free_chain in rw out)
