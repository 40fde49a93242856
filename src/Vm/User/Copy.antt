-- ===== src/Vm/User/Copy.antt =====
-- copyout and copyin of kernel/vm.c, page by page through walkaddr.
use avx_loong_arch.Prelude.{
  ℕ, zero, suc, ◌+◌, ◌-◌, ◌/◌, ◌%◌, ◌≤◌, ◌<◌, ◌≡◌, refl, sym, ap, ◌∙◌, ◌≢◌, inl, inr, true, false,
  ◌&&◌, List, arith, ltb, leb, ◌==◌, Bool-cases, eq_of_==, ne_of_==, ==_of_ne, ok,
}
use avx_loong_arch.Vm.Map.{Maps}
use avx_loong_arch.Vm.User.Buffer.{
  phys, IsBuffer, in_window-pte2pa, Maps-bytes, phys-near, rest_at, IsBuffer-rest, walkaddr-page,
}
use avx_loong_arch.Vm.User.{move, chunk, copyout_loop, lowest_kstack, copyout}
use avx_loong_arch.Vm.{dmwin_mask, maxva, pte2pa, Mem}
use avx_loong_arch.Kalloc.{pgsize, pg_round_down}
use avx_loong_arch.String.{Memory, memmove}
use avx_loong_arch.String.Copy.{memmove-moved}

-- The bytes at va are now those that were at src, and no others changed.
pub record CopiedOut (map : ℕ → ℕ) (b b' : Memory) (va src len : ℕ) : Type 0 where
  pub inside : (j : ℕ) → j < len → b' (phys map (va + j)) ≡ b (src + j)
  pub outside : (p : ℕ) → ((j : ℕ) → j < len → phys map (va + j) ≢ p) → b' p ≡ b p

module _ (map : ℕ → ℕ) (va src len : ℕ) (pos : 0 < len) (buffer : IsBuffer map va len)
    (clear : (i j : ℕ) → i < len → j < len → phys map (va + i) ≢ src + j) where
  abbrev first_moved : Memory → Memory
  first_moved b = memmove b (phys map va) src (chunk va len)

  first-inside :
      (b : Memory) (j : ℕ) → j < chunk va len → first_moved b (phys map (va + j)) ≡ b (src + j)
  first-inside b j h =
      let near : phys map (va + j) ≡ phys map va + j = phys-near map va j (omega arith) in
      let within : (leb (phys map va) (phys map va + j)
            && ltb (phys map va + j) (phys map va + chunk va len))
          ≡ true =
        ground arith in
      let back : src + (phys map va + j - phys map va) ≡ src + j = omega arith in
      ap (first_moved b) near
      ∙ memmove-moved b (phys map va) src (chunk va len) (phys map va + j)
      ∙ rw (within, back) refl

  first-outside :
      (b : Memory) (p : ℕ)
      → ((j : ℕ) → j < chunk va len → phys map (va + j) ≢ p)
      → first_moved b p ≡ b p
  first-outside b p out =
      memmove-moved b (phys map va) src (chunk va len) p
      ∙ elim (Bool-cases (leb (phys map va) p && ltb p (phys map va + chunk va len))) [
        | inl within ↦
            let j = p - phys map va in
            absurd (
              out j (ground (arith, within))
                (phys-near map va j (ground (arith, within)) ∙ ground (arith, within)))
        | inr no_byte ↦ rw no_byte refl
      ]

  -- The first chunk, and then the rest.
  CopiedOut-first :
      (b b' : Memory)
      → CopiedOut map
          (first_moved b)
          b'
          (pg_round_down va + pgsize)
          (src + chunk va len)
          (len - chunk va len)
      → CopiedOut map b b' va src len
  CopiedOut-first b b' rest = record {
    inside = λ j h. elim (Bool-cases (ltb j (chunk va len))) [
      | inl first ↦
          let h' : j < chunk va len = ground (arith, first) in
          rest.outside (phys map (va + j)) (λ i hi e.
            let same =
              buffer.apart (chunk va len + i) j (omega arith) h
                (ap (phys map) (sym (rest_at va len i hi)) ∙ e) in
            omega (arith, same))
          ∙ first-inside b j h'
      | inr later ↦
          let i = j - chunk va len in
          let hi : i < len - chunk va len = ground (arith, later) in
          let at_j : pg_round_down va + pgsize + i ≡ va + j =
            rest_at va len i hi ∙ ground (arith, later) in
          let at_src : src + chunk va len + i ≡ src + j = ground (arith, later) in
          ap (λ q. b' (phys map q)) (sym at_j)
          ∙ rest.inside i hi
          ∙ ap (first_moved b) at_src
          ∙ first-outside b (src + j) (λ k hk. clear k j (omega arith) h)
    ];
    outside = λ p out.
        rest.outside p (λ i hi e.
          out (chunk va len + i) (omega arith) (ap (phys map) (sym (rest_at va len i hi)) ∙ e))
        ∙ first-outside b p (λ j h. out j (omega arith));
  }

-- The rest of the buffer is as far from the source as all of it.
rest_clear :
    (map : ℕ → ℕ) (va src len : ℕ)
    → ((i j : ℕ) → i < len → j < len → phys map (va + i) ≢ src + j)
    → (i j : ℕ) → i < len - chunk va len
    → j < len - chunk va len
    → phys map (pg_round_down va + pgsize + i) ≢ src + chunk va len + j
rest_clear map va src len clear i j hi hj e =
    clear (chunk va len + i) (chunk va len + j) (omega arith) (omega arith)
      (ap (phys map) (sym (rest_at va len i hi)) ∙ e ∙ omega arith)

copyout_loop-CopiedOut :
    {kernel_end root : ℕ} (fuel : ℕ) (m : Mem) (map : ℕ → ℕ) (xs : List ℕ) (va src len : ℕ)
    → dmwin_mask ≤ kernel_end
    → Maps kernel_end root m map xs
    → len < fuel
    → IsBuffer map va len
    → ((i j : ℕ) → i < len → j < len → phys map (va + i) ≢ src + j)
    → (b' : Memory) × (copyout_loop fuel m root va src len ≡ ok (true, record m { bytes = b' }))
      × CopiedOut map (m.bytes) b' va src len
unfolding copyout_loop
copyout_loop-CopiedOut zero m map xs va src len low s enough buffer clear = absurd (omega arith)
copyout_loop-CopiedOut (suc fuel) m map xs va src len low s enough buffer clear =
    elim (Bool-cases (len == 0)) [
      | inl none_left ↦ rw none_left (
        m.bytes,
        refl,
        record {
          inside = λ j h. absurd (omega (arith, h, eq_of_== none_left));
          outside = λ p out. refl;
        },
      )
      | inr some_left ↦
          let pos : 0 < len = omega (arith, ne_of_== some_left) in
          let nz : (pte2pa (map (va / pgsize)) == 0) ≡ false = ==_of_ne (λ z. omega (arith, z)) in
          let (b', e, rest) =
            copyout_loop-CopiedOut fuel (move m (phys map va) src (chunk va len)) map xs
              (pg_round_down va + pgsize) (src + chunk va len) (len - chunk va len) low
              (Maps-bytes (memmove (m.bytes) (phys map va) src (chunk va len)) s) (omega arith)
              (IsBuffer-rest map va len pos buffer) (rest_clear map va src len clear) in
          rw
            (
              some_left,
              walkaddr-page m map xs va len low s pos buffer,
              nz,
              in_window-pte2pa (map (va / pgsize)) (va % pgsize) (omega arith),
            )
            (b', e, CopiedOut-first map va src len pos buffer clear (m.bytes) b' rest)
    ]

-- copyout of a buffer that is mapped for users, each byte to a byte of its own, from a kernel
-- address of a stack or above that is not in the buffer: it returns 0, the bytes at the user
-- addresses are those at src, and no other byte and no page table changed.
pub copyout-CopiedOut :
    {kernel_end root : ℕ} (m : Mem) (map : ℕ → ℕ) (xs : List ℕ) (va src len : ℕ)
    → dmwin_mask ≤ kernel_end
    → Maps kernel_end root m map xs
    → lowest_kstack ≤ src
    → IsBuffer map va len
    → ((i j : ℕ) → i < len → j < len → phys map (va + i) ≢ src + j)
    → (b' : Memory) × (copyout m root va src len ≡ ok (true, record m { bytes = b' }))
      × CopiedOut map (m.bytes) b' va src len
unfolding copyout
copyout-CopiedOut m map xs va src len low s stack buffer clear =
    let x : ltb maxva va ≡ false = ground (arith, buffer.below) in
    let y : ltb src lowest_kstack ≡ false = ground arith in
    rw (x, y)
      (copyout_loop-CopiedOut (len + 1) m map xs va src len low s (omega arith) buffer clear)
