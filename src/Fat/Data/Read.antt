-- ===== src/Fat/Data/Read.antt =====
-- eread of kernel/fat32.c into the kernel's memory, on the bytes of a file.
use avx_loong_arch.Prelude.{
  ℕ, zero, suc, ◌+◌, ◌-◌, ◌*◌, ◌/◌, ◌%◌, ◌^◌, ◌≤◌, ◌<◌, min, ◌≡◌, refl, ap, ap₂, ◌∙◌, inl, inr,
  true, false, ◌&&◌, arith, ltb, leb, if◌then◌else◌, Bool-cases, ok,
}
use avx_loong_arch.Fat.Data.{put_kernel, read_secs}
use avx_loong_arch.Fat.{bsize, Disk}

-- The k-th byte from byte `off` of sector `sec` on.
abbrev pub sec_byte : Disk → ℕ → ℕ → ℕ → ℕ
sec_byte d sec off k = d (sec + (off % bsize + k) / bsize) ((off % bsize + k) % bsize)

-- Memory with n bytes stored at dst.
abbrev pub stored : (ℕ → ℕ) → ℕ → ℕ → (ℕ → ℕ) → ℕ → ℕ
stored bytes dst n mem p = if leb dst p && ltb p (dst + n) then bytes (p - dst) else mem p

pub stored-ext :
    (f g : ℕ → ℕ) (dst n n' : ℕ) (mem : ℕ → ℕ) (p : ℕ)
    → n ≡ n'
    → ((k : ℕ) → k < n' → f k ≡ g k)
    → stored f dst n mem p ≡ stored g dst n' mem p
stored-ext f g dst n n' mem p e same = elim (Bool-cases (leb dst p && ltb p (dst + n'))) [
  | inl within ↦ rw (e, within) (same (p - dst) (ground (arith, within)))
  | inr out ↦ rw (e, out) refl
]

pub stored-none :
    (bytes : ℕ → ℕ) (dst n : ℕ) (mem : ℕ → ℕ) (p : ℕ) → n ≡ 0 → stored bytes dst n mem p ≡ mem p
stored-none bytes dst n mem p e =
    let out : (leb dst p && ltb p (dst + n)) ≡ false = ground (arith, e) in rw out refl

-- A stretch of n bytes is its first m and then the others.
pub stored-split :
    (bytes first rest : ℕ → ℕ) (dst n m : ℕ) (mem : ℕ → ℕ) (p : ℕ)
    → m ≤ n
    → ((k : ℕ) → k < m → first k ≡ bytes k)
    → ((k : ℕ) → k < n - m → rest k ≡ bytes (m + k))
    → stored rest (dst + m) (n - m) (stored first dst m mem) p ≡ stored bytes dst n mem p
stored-split bytes first rest dst n m mem p le same same' =
    elim (Bool-cases (leb (dst + m) p && ltb p (dst + m + (n - m)))) [
      | inl later ↦
          let within : (leb dst p && ltb p (dst + n)) ≡ true = ground (arith, later) in
          rw (later, within)
            (same' (p - (dst + m)) (ground (arith, later)) ∙ ap bytes (ground (arith, later)))
      | inr not_later ↦ elim (Bool-cases (leb dst p && ltb p (dst + m))) [
        | inl early ↦
            let within : (leb dst p && ltb p (dst + n)) ≡ true = ground (arith, early) in
            rw (not_later, early, within) (same (p - dst) (ground (arith, early)))
        | inr not_early ↦
            let out : (leb dst p && ltb p (dst + n)) ≡ false =
              ground (arith, not_later, not_early) in
            rw (not_later, not_early, out) refl
      ]
    ]

-- The rest of a stretch, stored behind a chunk of it that was stored before.
pub stored-rest :
    (g : ℕ → ℕ) (off dst n tot m : ℕ) (mem mem₁ : ℕ → ℕ) (p : ℕ)
    → m ≤ n - tot
    → mem₁ p ≡ stored (λ k. g (off + k)) dst m mem p
    → stored (λ k. g (off + m + k)) (dst + m) (n - (tot + m)) mem₁ p
      ≡ stored (λ k. g (off + k)) dst (n - tot) mem p
stored-rest g off dst n tot m mem mem₁ p le same =
    let left : n - (tot + m) ≡ n - tot - m = omega arith in
    ap
      (λ q.
        if leb (dst + m) p && ltb p (dst + m + (n - (tot + m)))
        then g (off + m + (p - (dst + m)))
        else q)
      same
    ∙ ap (λ q. stored (λ k. g (off + m + k)) (dst + m) q (stored (λ k. g (off + k)) dst m mem) p)
        left
    ∙ stored-split (λ k. g (off + k)) (λ k. g (off + k)) (λ k. g (off + m + k)) dst (n - tot) m mem
        p le (λ k lt. refl) (λ k lt. ap g (omega arith))

-- The sector after a chunk, and the bytes behind it.
next_fits :
    (sec off n tot : ℕ)
    → tot < n
    → sec * bsize + off % bsize + (n - tot) ≤ 2 ^ 32 * bsize
    → let m = min (bsize - off % bsize) (n - tot) in
      (sec + 1) % 2 ^ 32 * bsize + (off + m) % bsize + (n - (tot + m)) ≤ 2 ^ 32 * bsize
next_fits sec off n tot h fits = omega arith

next_byte :
    (sec off n tot k : ℕ)
    → sec * bsize + off % bsize + (n - tot) ≤ 2 ^ 32 * bsize
    → k < n - tot - min (bsize - off % bsize) (n - tot)
    → let m = min (bsize - off % bsize) (n - tot) in
      ((sec + 1) % 2 ^ 32 + ((off + m) % bsize + k) / bsize ≡ sec + (off % bsize + (m + k)) / bsize)
      × (((off + m) % bsize + k) % bsize ≡ (off % bsize + (m + k)) % bsize)
next_byte sec off n tot k fits h = (omega arith, omega arith)

pub read_secs-stored :
    (fuel : ℕ) (d : Disk) (sec off dst n tot : ℕ) (mem : ℕ → ℕ)
    → n - tot < fuel
    → tot ≤ n
    → sec * bsize + off % bsize + (n - tot) ≤ 2 ^ 32 * bsize
    → (mem' : ℕ → ℕ) × (read_secs put_kernel fuel d sec off dst n tot mem ≡ ok (n, mem'))
      × ((p : ℕ) → mem' p ≡ stored (sec_byte d sec off) dst (n - tot) mem p)
unfolding read_secs
read_secs-stored zero d sec off dst n tot mem enough le fits = absurd (omega arith)
read_secs-stored (suc fuel) d sec off dst n tot mem enough le fits = elim (Bool-cases (ltb tot n)) [
  | inr all ↦
      let e : tot ≡ n = ground (arith, all) in
      let none_left : (p : ℕ) → (leb dst p && ltb p (dst + (n - tot))) ≡ false =
        λ p. ground (arith, e) in
      rw all (mem, ap (λ t. ok (t, mem)) e, λ p. rw (none_left p) refl)
  | inl more ↦
      let m = min (bsize - off % bsize) (n - tot) in
      let first : ℕ → ℕ = λ k. d sec (off % bsize + k) in
      let sec' = (sec + 1) % 2 ^ 32 in
      let h : tot < n = ground (arith, more) in
      let left : n - (tot + m) ≡ n - tot - m = omega arith in
      let (mem', e, same) =
        read_secs-stored fuel d sec' (off + m) (dst + m) n (tot + m) (stored first dst m mem)
          (omega (arith, h)) (omega arith) (next_fits sec off n tot (omega (arith, h)) fits) in
      rw more (
        mem',
        e,
        λ p.
            same p
            ∙ ap (λ q. stored (sec_byte d sec' (off + m)) (dst + m) q (stored first dst m mem) p)
                left
            ∙ stored-split (sec_byte d sec off) first (sec_byte d sec' (off + m)) dst (n - tot) m
                mem p (omega arith) (λ k lt. ap₂ d (omega arith) (omega arith))
                (λ k lt. let (a, b) = next_byte sec off n tot k fits lt in ap₂ d a b),
      )
]
