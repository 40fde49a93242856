-- ===== src/Vm/User/Buffer.antt =====
-- Buffers of user memory as copyout and copyin of kernel/vm.c go through them: page by page, each
-- page at the physical address that walkaddr gives.
use mathlib.Core.Path.{subst}
use avx_loong_arch.Prelude.{
  ℕ, ◌+◌, ◌-◌, ◌/◌, ◌%◌, ◌^◌, ◌≤◌, ◌<◌, ◌≡◌, refl, sym, ap, ◌∙◌, true, false, ◌&&◌, List, arith,
  ◌==◌, ==_of_ne, ok,
}
use avx_loong_arch.Vm.Translate.{walkaddr_lem}
use avx_loong_arch.Vm.Map.{Maps}
use avx_loong_arch.Vm.User.{in_window, chunk}
use avx_loong_arch.Vm.{dmwin_mask, maxva, pte2pa, is_valid, is_user, Mem, walkaddr}
use avx_loong_arch.Kalloc.{pgsize, pg_round_down}
use avx_loong_arch.String.{Memory}

-- Where the kernel finds the byte at the user address va.
abbrev pub phys : (ℕ → ℕ) → ℕ → ℕ
phys map va = pte2pa (map (va / pgsize)) + va % pgsize

-- The `len` bytes from va on are mapped for users, each to a byte of its own.
pub record IsBuffer (map : ℕ → ℕ) (va len : ℕ) : Type 0 where
  pub below : va + len ≤ maxva
  pub user :
      (j : ℕ)
      → j < len
      → (is_valid (map ((va + j) / pgsize)) && is_user (map ((va + j) / pgsize))) ≡ true
  pub apart : (i j : ℕ) → i < len → j < len → phys map (va + i) ≡ phys map (va + j) → i ≡ j

pub in_window-pte2pa : (w off : ℕ) → off < pgsize → in_window (pte2pa w + off) ≡ pte2pa w + off
in_window-pte2pa w off h =
    let top : ((pte2pa w + off) / 2 ^ 63 % 2 == 0) ≡ false = ==_of_ne (λ e. omega (arith, e)) in
    let low : ((pte2pa w + off) / 2 ^ 60 % 2 == 0) ≡ false = ==_of_ne (λ e. omega (arith, e)) in
    rw (top, low) refl

pub Maps-bytes :
    {kernel_end root : ℕ} {m : Mem} {map : ℕ → ℕ} {xs : List ℕ} (b : Memory)
    → Maps kernel_end root m map xs
    → Maps kernel_end root (record m { bytes = b }) map xs
Maps-bytes b s = record {
  page = s.page;
  tree = record {
    top = s.tree.top;
    rooted = s.tree.rooted;
    orphan = s.tree.orphan;
    link = s.tree.link;
    once = s.tree.once;
    pages = s.tree.pages;
    apart = s.tree.apart;
    free = s.tree.free;
  };
  entries = s.entries;
}

-- Bytes of one page are next to each other.
pub phys-near :
    (map : ℕ → ℕ) (va j : ℕ) → j < pgsize - va % pgsize → phys map (va + j) ≡ phys map va + j
phys-near map va j h =
    let page : (va + j) / pgsize ≡ va / pgsize = omega arith in
    let off : (va + j) % pgsize ≡ va % pgsize + j = omega arith in rw (page, off) (omega arith)

-- Behind the first chunk the loop goes on at the next page, which is next in the buffer.
pub rest_at :
    (va len j : ℕ)
    → j < len - chunk va len
    → pg_round_down va + pgsize + j ≡ va + (chunk va len + j)
rest_at va len j h = omega arith

pub IsBuffer-rest :
    (map : ℕ → ℕ) (va len : ℕ)
    → 0 < len
    → IsBuffer map va len
    → IsBuffer map (pg_round_down va + pgsize) (len - chunk va len)
IsBuffer-rest map va len pos b = record {
  below = omega (arith, b.below);
  user = λ j h.
      subst (λ q. (is_valid (map (q / pgsize)) && is_user (map (q / pgsize))) ≡ true)
        (sym (rest_at va len j h)) (b.user (chunk va len + j) (omega arith));
  apart = λ i j hi hj e.
      let same =
        b.apart (chunk va len + i) (chunk va len + j) (omega arith) (omega arith)
          (ap (phys map) (sym (rest_at va len i hi)) ∙ e ∙ ap (phys map) (rest_at va len j hj)) in
      omega (arith, same);
}

-- What walkaddr gives for the page of a mapped byte.
pub walkaddr-page :
    {kernel_end root : ℕ} (m : Mem) (map : ℕ → ℕ) (xs : List ℕ) (va len : ℕ)
    → dmwin_mask ≤ kernel_end
    → Maps kernel_end root m map xs
    → 0 < len
    → IsBuffer map va len
    → walkaddr m root (pg_round_down va) ≡ ok (pte2pa (map (va / pgsize)))
walkaddr-page m map xs va len low s pos b =
    let page : pg_round_down va / pgsize ≡ va / pgsize = omega arith in
    let user : (is_valid (map (va / pgsize)) && is_user (map (va / pgsize))) ≡ true =
      subst (λ q. (is_valid (map (q / pgsize)) && is_user (map (q / pgsize))) ≡ true) (omega arith)
        (b.user 0 pos) in
    walkaddr_lem m map xs (pg_round_down va) low s (omega (arith, b.below)) ∙ rw (page, user) refl
