-- ===== src/Vm/Range.antt =====
-- A range of mapped pages, as mappages of kernel/vm.c builds it page by page.
use avx_loong_arch.Prelude.{
  ℕ, zero, suc, ◌+◌, ◌-◌, ◌*◌, ◌/◌, ◌%◌, ◌<◌, ◌≡◌, refl, ap, ◌∙◌, ◌≢◌, inl, inr, true, false, ◌&&◌,
  List, arith, ltb, leb, ◌==◌, if◌then◌else◌, Bool-cases, ==_of_ne,
}
use avx_loong_arch.Vm.Map.{Maps, Kept}
use avx_loong_arch.Vm.{leaf_pte, Mem}
use avx_loong_arch.Kalloc.{pgsize, update}

-- The map after n pages from v on were mapped to consecutive pages from pa on.
abbrev pub mapped : (ℕ → ℕ) → ℕ → ℕ → ℕ → ℕ → ℕ → ℕ
mapped map v n pa perm u =
    if leb v u && ltb u (v + n) then leaf_pte (pa + (u - v) * pgsize) perm else map u

pub Maps-ext :
    {kernel_end root : ℕ} {m : Mem} {f g : ℕ → ℕ} {xs : List ℕ}
    → ((u : ℕ) → f u ≡ g u)
    → Maps kernel_end root m f xs
    → Maps kernel_end root m g xs
Maps-ext e s = record { page = s.page; tree = s.tree; entries = λ v. s.entries v ∙ e v }

pub Kept-trans :
    (m m₁ m₂ : Mem) (xs ys zs : List ℕ) → Kept m xs m₁ ys → Kept m₁ ys m₂ zs → Kept m xs m₂ zs
Kept-trans m m₁ m₂ xs ys zs (a, b) (c, d) =
    (λ q h. c q (a q h), λ q h. d q (a (q / pgsize * pgsize) h) ∙ b q h)

pub mapped-suc :
    (map : ℕ → ℕ) (v n pa perm u : ℕ)
    → mapped (update map v (leaf_pte pa perm)) (v + 1) n (pa + pgsize) perm u
      ≡ mapped map v (suc n) pa perm u
mapped-suc map v n pa perm u = elim (Bool-cases (v == u)) [
  | inl e ↦
      let before : leb (v + 1) u ≡ false = ground (arith, e) in
      let within : (leb v u && ltb u (v + suc n)) ≡ true = ground (arith, e) in
      let first : pa + (u - v) * pgsize ≡ pa = ground (arith, e) in
      rw (before, e, within, first) refl
  | inr ne ↦
      let same : (leb (v + 1) u && ltb u (v + 1 + n)) ≡ (leb v u && ltb u (v + suc n)) =
        ground (arith, ne) in
      elim (Bool-cases (leb v u && ltb u (v + suc n))) [
        | inl within ↦
            let next : pa + pgsize + (u - (v + 1)) * pgsize ≡ pa + (u - v) * pgsize =
              ground (arith, ne, within) in
            rw (same, within, next) refl
        | inr out ↦ rw (same, out, ne) refl
      ]
]

pub mapped-zero : (map : ℕ → ℕ) (v pa perm u : ℕ) → map u ≡ mapped map v 0 pa perm u
mapped-zero map v pa perm u =
    let out : (leb v u && ltb u (v + 0)) ≡ false = ground arith in rw out refl

pub update-later : (map : ℕ → ℕ) (v w k : ℕ) → update map v w (v + 1 + k) ≡ map (v + suc k)
update-later map v w k =
    let later : v ≢ v + 1 + k = λ e. omega (arith, e) in rw (==_of_ne later) (ap map (omega arith))

pub each-suc :
    (map : ℕ → ℕ) (v w n : ℕ)
    → map v % 2 ≢ 1
    → ((k : ℕ) → k < n → update map v w (v + 1 + k) % 2 ≢ 1)
    → (k : ℕ) → k < suc n
    → map (v + k) % 2 ≢ 1
each-suc map v w n new each zero lt e = new (ap (λ q. map q % 2) (omega arith) ∙ e)
each-suc map v w n new each (suc k) lt e =
    each k (omega arith) (ap (λ q. q % 2) (update-later map v w k) ∙ e)
