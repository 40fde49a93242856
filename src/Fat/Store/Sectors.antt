-- ===== src/Fat/Store/Sectors.antt =====
-- The loop of rw_clus of kernel/fat32.c that writes, on the bytes of the disk as one array.
use avx_loong_arch.Prelude.{
  ℕ, zero, suc, ◌+◌, ◌-◌, ◌*◌, ◌/◌, ◌%◌, ◌^◌, ◌≤◌, ◌<◌, min, ◌≡◌, refl, sym, ap, ◌∙◌, inl, inr,
  ◌&&◌, arith, ltb, leb, ◌==◌, Bool-cases, ok,
}
use avx_loong_arch.Fat.Data.Read.{stored, stored-none, stored-rest}
use avx_loong_arch.Fat.Store.{get_kernel, put_bytes, write_secs}
use avx_loong_arch.Fat.{bsize, Disk}

-- The disk as one array of bytes.
abbrev pub linear : Disk → ℕ → ℕ
linear d x = d (x / bsize) (x % bsize)

-- Where the write stands is of no account when nothing is left to write.
pub stored_at :
    (bytes : ℕ → ℕ) (a a' n : ℕ) (mem : ℕ → ℕ) (p : ℕ)
    → (0 < n → a ≡ a')
    → stored bytes a n mem p ≡ stored bytes a' n mem p
stored_at bytes a a' n mem p same = elim (Bool-cases (ltb 0 n)) [
  | inl pos ↦ rw (same (ground (arith, pos))) refl
  | inr none_left ↦
      let zero_left : n ≡ 0 = ground (arith, none_left) in
      stored-none bytes a n mem p zero_left ∙ sym (stored-none bytes a' n mem p zero_left)
]

linear-put_bytes :
    (d : Disk) (s o m : ℕ) (bytes : ℕ → ℕ) (x : ℕ)
    → o + m ≤ bsize
    → linear (put_bytes d s o m bytes) x ≡ stored bytes (s * bsize + o) m (linear d) x
linear-put_bytes d s o m bytes x fits =
    let same : ((x / bsize == s) && (leb o (x % bsize) && ltb (x % bsize) (o + m)))
        ≡ (leb (s * bsize + o) x && ltb x (s * bsize + o + m)) =
      ground (arith, fits) in
    elim (Bool-cases (leb (s * bsize + o) x && ltb x (s * bsize + o + m))) [
      | inl within ↦
          let place : x % bsize - o ≡ x - (s * bsize + o) = ground (arith, within, fits) in
          rw (same, within, place) refl
      | inr out ↦ rw (same, out) refl
    ]

-- The writing loop stores the bytes of the source from the place where it stands on, and nothing
-- else.
pub write_secs-stored :
    (mem : ℕ → ℕ) (fuel : ℕ) (d : Disk) (sec off src n tot : ℕ)
    → n - tot < fuel
    → tot ≤ n
    → sec * bsize + off % bsize + (n - tot) ≤ 2 ^ 32 * bsize
    → (d' : Disk) × (write_secs (get_kernel mem) fuel d sec off src n tot ≡ ok (n, d'))
      × ((x : ℕ)
          → linear d' x
            ≡ stored (λ k. mem (src + k)) (sec * bsize + off % bsize) (n - tot) (linear d) x)
unfolding write_secs
write_secs-stored mem zero d sec off src n tot enough le fits = absurd (omega arith)
write_secs-stored mem (suc fuel) d sec off src n tot enough le fits =
    elim (Bool-cases (ltb tot n)) [
      | inr all ↦
          let e : tot ≡ n = ground (arith, all) in
          rw all (
            d,
            ap (λ t. ok (t, d)) e,
            λ x. sym (
                stored-none (λ k. mem (src + k)) (sec * bsize + off % bsize) (n - tot) (linear d) x
                  (omega arith)),
          )
      | inl more ↦
          let m = min (bsize - off % bsize) (n - tot) in
          let at_now = sec * bsize + off % bsize in
          let sec' = (sec + 1) % 2 ^ 32 in
          let h : tot < n = ground (arith, more) in
          let d₁ = put_bytes d sec (off % bsize) m (λ k. mem (src + k)) in
          let (d', e, same) =
            write_secs-stored mem fuel d₁ sec' (off + m) (src + m) n (tot + m) (omega (arith, h))
              (omega arith) (omega (arith, h)) in
          rw more (
            d',
            e,
            λ x.
                same x
                ∙ stored_at (λ k. mem (src + m + k)) (sec' * bsize + (off + m) % bsize) (at_now + m)
                    (n - (tot + m)) (linear d₁) x (λ left. omega (arith, left, fits))
                ∙ stored-rest mem src at_now n tot m (linear d) (linear d₁) x (omega arith)
                    (linear-put_bytes d sec (off % bsize) m (λ k. mem (src + k)) x (omega arith)),
          )
    ]
