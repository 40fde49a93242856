-- ===== src/Vm/User/CopyIn.antt =====
-- copyin of kernel/vm.c, page by page through walkaddr.
use avx_loong_arch.Prelude.{
  ℕ, zero, suc, ◌+◌, ◌-◌, ◌/◌, ◌%◌, ◌≤◌, ◌<◌, ◌≡◌, refl, sym, ap, ◌∙◌, ◌≢◌, inl, inr, true, false,
  ◌&&◌, List, arith, ltb, leb, ◌==◌, Bool-cases, eq_of_==, ne_of_==, ==_of_ne, ok, ◌>>=◌,
}
use avx_loong_arch.Vm.User.Buffer.{
  phys, IsBuffer, in_window-pte2pa, Maps-bytes, phys-near, rest_at, IsBuffer-rest, walkaddr-page,
}
use avx_loong_arch.Vm.Map.{Maps}
use avx_loong_arch.Vm.User.Copy.{copyout-CopiedOut}
use avx_loong_arch.Vm.User.{move, chunk, copyin_loop, copyin, lowest_kstack, copyout}
use avx_loong_arch.Vm.{dmwin_mask, maxva, pte2pa, Mem}
use avx_loong_arch.Kalloc.{pgsize, pg_round_down}
use avx_loong_arch.String.{Memory, memmove}
use avx_loong_arch.String.Copy.{memmove-moved}

-- The `len` bytes at dst are now those of the user address va, and no others changed.
pub record CopiedIn (map : ℕ → ℕ) (b b' : Memory) (dst va len : ℕ) : Type 0 where
  pub inside : (j : ℕ) → j < len → b' (dst + j) ≡ b (phys map (va + j))
  pub outside : (p : ℕ) → ((j : ℕ) → j < len → dst + j ≢ p) → b' p ≡ b p

module _ (map : ℕ → ℕ) (dst va len : ℕ)
    (clear : (i j : ℕ) → i < len → j < len → phys map (va + i) ≢ dst + j) where
  abbrev first_read : Memory → Memory
  first_read b = memmove b dst (phys map va) (chunk va len)

  first_read-inside :
      (b : Memory) (j : ℕ) → j < chunk va len → first_read b (dst + j) ≡ b (phys map (va + j))
  first_read-inside b j h =
      let near : phys map va + j ≡ phys map (va + j) = sym (phys-near map va j (omega arith)) in
      let within : (leb dst (dst + j) && ltb (dst + j) (dst + chunk va len)) ≡ true =
        ground arith in
      let back : phys map va + (dst + j - dst) ≡ phys map va + j = omega arith in
      memmove-moved b dst (phys map va) (chunk va len) (dst + j) ∙ rw (within, back) (ap b near)

  first_read-outside :
      (b : Memory) (p : ℕ) → ((j : ℕ) → j < chunk va len → dst + j ≢ p) → first_read b p ≡ b p
  first_read-outside b p out =
      memmove-moved b dst (phys map va) (chunk va len) p
      ∙ elim (Bool-cases (leb dst p && ltb p (dst + chunk va len))) [
        | inl within ↦ absurd (out (p - dst) (ground (arith, within)) (ground (arith, within)))
        | inr no_byte ↦ rw no_byte refl
      ]

  -- The first chunk, and then the rest.
  CopiedIn-first :
      (b b' : Memory)
      → CopiedIn map
          (first_read b)
          b'
          (dst + chunk va len)
          (pg_round_down va + pgsize)
          (len - chunk va len)
      → CopiedIn map b b' dst va len
  CopiedIn-first b b' rest = record {
    inside = λ j h. elim (Bool-cases (ltb j (chunk va len))) [
      | inl first ↦
          let h' : j < chunk va len = ground (arith, first) in
          rest.outside (dst + j) (λ i hi e. omega (arith, e, h')) ∙ first_read-inside b j h'
      | inr later ↦
          let i = j - chunk va len in
          let hi : i < len - chunk va len = ground (arith, later) in
          let at_j : pg_round_down va + pgsize + i ≡ va + j =
            rest_at va len i hi ∙ ground (arith, later) in
          let at_dst : dst + chunk va len + i ≡ dst + j = ground (arith, later) in
          ap b' (sym at_dst)
          ∙ rest.inside i hi
          ∙ ap (λ q. first_read b (phys map q)) at_j
          ∙ first_read-outside b (phys map (va + j)) (λ k hk e. clear j k h (omega arith) (sym e))
    ];
    outside = λ p out.
        rest.outside p (λ i hi e. out (chunk va len + i) (omega arith) (omega (arith, e)))
        ∙ first_read-outside b p (λ j h. out j (omega arith));
  }

-- What is left of the buffer is as far from the destination as all of it.
rest_clear :
    (map : ℕ → ℕ) (dst va len : ℕ)
    → ((i j : ℕ) → i < len → j < len → phys map (va + i) ≢ dst + j)
    → (i j : ℕ) → i < len - chunk va len
    → j < len - chunk va len
    → phys map (pg_round_down va + pgsize + i) ≢ dst + chunk va len + j
rest_clear map dst va len clear i j hi hj e =
    clear (chunk va len + i) (chunk va len + j) (omega arith) (omega arith)
      (ap (phys map) (sym (rest_at va len i hi)) ∙ e ∙ omega arith)

copyin_loop-CopiedIn :
    {kernel_end root : ℕ} (fuel : ℕ) (m : Mem) (map : ℕ → ℕ) (xs : List ℕ) (dst va len : ℕ)
    → dmwin_mask ≤ kernel_end
    → Maps kernel_end root m map xs
    → len < fuel
    → IsBuffer map va len
    → ((i j : ℕ) → i < len → j < len → phys map (va + i) ≢ dst + j)
    → (b' : Memory) × (copyin_loop fuel m root dst va len ≡ ok (true, record m { bytes = b' }))
      × CopiedIn map (m.bytes) b' dst va len
unfolding copyin_loop
copyin_loop-CopiedIn zero m map xs dst va len low s enough buffer clear = absurd (omega arith)
copyin_loop-CopiedIn (suc fuel) m map xs dst va len low s enough buffer clear =
    elim (Bool-cases (len == 0)) [
      | inl none_left ↦ rw none_left (
        m.bytes,
        refl,
        record {
          inside = λ j h. absurd (omega (arith, h, eq_of_== none_left));
          outside = λ p out. refl;
        },
      )
      | inr some_left ↦
          let pos : 0 < len = omega (arith, ne_of_== some_left) in
          let nz : (pte2pa (map (va / pgsize)) == 0) ≡ false = ==_of_ne (λ z. omega (arith, z)) in
          let (b', e, rest) =
            copyin_loop-CopiedIn fuel (move m dst (phys map va) (chunk va len)) map xs
              (dst + chunk va len) (pg_round_down va + pgsize) (len - chunk va len) low
              (Maps-bytes (memmove (m.bytes) dst (phys map va) (chunk va len)) s) (omega arith)
              (IsBuffer-rest map va len pos buffer) (rest_clear map dst va len clear) in
          rw
            (
              some_left,
              walkaddr-page m map xs va len low s pos buffer,
              nz,
              in_window-pte2pa (map (va / pgsize)) (va % pgsize) (omega arith),
            )
            (b', e, CopiedIn-first map dst va len clear (m.bytes) b' rest)
    ]

-- copyin from a buffer that is mapped for users, to kernel memory that is not in the buffer: it
-- returns 0, the bytes at dst are those of the user addresses, and no other byte and no page table
-- changed.
pub copyin-CopiedIn :
    {kernel_end root : ℕ} (m : Mem) (map : ℕ → ℕ) (xs : List ℕ) (dst va len : ℕ)
    → dmwin_mask ≤ kernel_end
    → Maps kernel_end root m map xs
    → IsBuffer map va len
    → ((i j : ℕ) → i < len → j < len → phys map (va + i) ≢ dst + j)
    → (b' : Memory) × (copyin m root dst va len ≡ ok (true, record m { bytes = b' }))
      × CopiedIn map (m.bytes) b' dst va len
unfolding copyin
copyin-CopiedIn m map xs dst va len low s buffer clear =
    let x : ltb maxva va ≡ false = ground (arith, buffer.below) in
    rw x (copyin_loop-CopiedIn (len + 1) m map xs dst va len low s (omega arith) buffer clear)

-- copyout to a buffer that is mapped for users, each byte to a byte of its own, and then copyin from
-- it, where neither kernel range is in the buffer and src is an address of a stack or above: both
-- return 0, and the bytes at dst are those that were at src.
pub copyin-copyout :
    {kernel_end root : ℕ} (m : Mem) (map : ℕ → ℕ) (xs : List ℕ) (dst va src len : ℕ)
    → dmwin_mask ≤ kernel_end
    → Maps kernel_end root m map xs
    → lowest_kstack ≤ src
    → IsBuffer map va len
    → ((i j : ℕ) → i < len → j < len → phys map (va + i) ≢ src + j)
    → ((i j : ℕ) → i < len → j < len → phys map (va + i) ≢ dst + j)
    → (b' : Memory) × ((copyout m root va src len >>= λ r. copyin (r.1) root dst va len)
        ≡ ok (true, record m { bytes = b' }))
      × ((j : ℕ) → j < len → b' (dst + j) ≡ m.bytes (src + j))
copyin-copyout m map xs dst va src len low s stack buffer clear clear' =
    let (out, e, copied) = copyout-CopiedOut m map xs va src len low s stack buffer clear in
    let (b', e', read) =
      copyin-CopiedIn (record m { bytes = out }) map xs dst va len low (Maps-bytes out s) buffer
        clear' in
    (b', rw e e', λ j h. read.inside j h ∙ copied.inside j h)
