-- ===== src/Vm/Mappages.antt =====
-- mappages of kernel/vm.c on a range of pages.
use mathlib.Core.Path.{subst}
use avx_loong_arch.Prelude.{
  ℕ, zero, suc, ◌+◌, ◌-◌, ◌*◌, ◌/◌, ◌%◌, ◌^◌, ◌≤◌, ◌<◌, ◌≡◌, refl, sym, ap, ◌∙◌, ◌≢◌, Bool, true,
  false, ◌||◌, not, List, [], arith, ◌==◌, if◌then◌else◌, Outcome, ok, panic, out_of_fuel, ◌>>=◌,
}
use avx_loong_arch.Vm.Range.{
  mapped, Maps-ext, Kept-trans, mapped-suc, mapped-zero, update-later, each-suc,
}
use avx_loong_arch.Vm.Map.{Maps, Kept, MapEnd, map_page-MapEnd}
use avx_loong_arch.Vm.{dmwin_mask, maxva, leaf_pte, Mem, map_page, map_loop, mappages}
use avx_loong_arch.Kalloc.{pgsize, update}

-- The ends of mappages on n pages from v on: all are mapped now and none was before; or the memory
-- for tables ran out after some of them; or one was mapped before.
abbrev pub RangeEnd : ℕ → ℕ → Mem → (ℕ → ℕ) → List ℕ → ℕ → ℕ → ℕ → ℕ → Outcome (Bool × Mem) → Type 0
RangeEnd kernel_end root m map xs v n pa perm (ok (true, m')) =
    ((k : ℕ) → k < n → map (v + k) % 2 ≢ 1)
    × ((xs' : List ℕ) × Maps kernel_end root m' (mapped map v n pa perm) xs' × Kept m xs m' xs')
RangeEnd kernel_end root m map xs v n pa perm (ok (false, m')) =
    (k : ℕ) × (k < n) × Maps kernel_end root m' (mapped map v k pa perm) [] × Kept m xs m' []
RangeEnd kernel_end root m map xs v n pa perm panic = (k : ℕ) × (k < n) × (map (v + k) % 2 ≡ 1)
RangeEnd kernel_end root m map xs v n pa perm out_of_fuel = ⊥

-- The rounds after the first, taken together with it.
RangeEnd-suc :
    (kernel_end root : ℕ) (m m₁ : Mem) (map : ℕ → ℕ) (xs ys : List ℕ) (v n pa perm : ℕ)
    (r : Outcome (Bool × Mem))
    → map v % 2 ≢ 1
    → Kept m xs m₁ ys
    → RangeEnd kernel_end root m₁
        (update map v (leaf_pte pa perm))
        ys
        (v + 1)
        n
        (pa + pgsize)
        perm
        r
    → RangeEnd kernel_end root m map xs v (suc n) pa perm r
RangeEnd-suc kernel_end root m m₁ map xs ys v n pa perm (ok (true, m₂)) new kept
      (each, (zs, s, kept')) =
    (
      each-suc map v (leaf_pte pa perm) n new each,
      (zs, Maps-ext (mapped-suc map v n pa perm) s, Kept-trans m m₁ m₂ xs ys zs kept kept'),
    )
RangeEnd-suc kernel_end root m m₁ map xs ys v n pa perm (ok (false, m₂)) new kept
      (k, lt, s, kept') =
    (
      suc k,
      omega arith,
      Maps-ext (mapped-suc map v k pa perm) s,
      Kept-trans m m₁ m₂ xs ys [] kept kept',
    )
RangeEnd-suc kernel_end root m m₁ map xs ys v n pa perm panic new kept (k, lt, e) =
    (suc k, omega arith, ap (λ q. q % 2) (sym (update-later map v (leaf_pte pa perm) k)) ∙ e)
RangeEnd-suc kernel_end root m m₁ map xs ys v n pa perm out_of_fuel new kept h = h

RangeEnd-one :
    (kernel_end root : ℕ) (m : Mem) (map : ℕ → ℕ) (xs : List ℕ) (v pa perm : ℕ)
    (r : Outcome (Bool × Mem))
    → MapEnd kernel_end root m map xs v (leaf_pte pa perm) r
    → RangeEnd kernel_end root m map xs v 1 pa perm r
RangeEnd-one kernel_end root m map xs v pa perm (ok (true, m')) (new, (ys, s, kept)) =
    RangeEnd-suc kernel_end root m m' map xs ys v 0 pa perm (ok (true, m')) new kept (
      (λ k lt e. omega (arith, lt)),
      (
        ys,
        Maps-ext (mapped-zero (update map v (leaf_pte pa perm)) (v + 1) (pa + pgsize) perm) s,
        (λ q h. h, λ b h. refl),
      ),
    )
RangeEnd-one kernel_end root m map xs v pa perm (ok (false, m')) (new, s, kept) =
    (0, omega arith, Maps-ext (mapped-zero map v pa perm) s, kept)
RangeEnd-one kernel_end root m map xs v pa perm panic e =
    (0, omega arith, ap (λ q. map q % 2) (omega arith) ∙ e)
RangeEnd-one kernel_end root m map xs v pa perm out_of_fuel h = h

-- What the loop does with the outcome of a round that is not the last.
go_on-RangeEnd :
    (kernel_end root : ℕ) (m : Mem) (map : ℕ → ℕ) (xs : List ℕ) (v n pa perm : ℕ)
    → (rest : Mem → Outcome (Bool × Mem))
    → ((m₁ : Mem) (ys : List ℕ)
        → Maps kernel_end root m₁ (update map v (leaf_pte pa perm)) ys
        → RangeEnd kernel_end root m₁
            (update map v (leaf_pte pa perm))
            ys
            (v + 1)
            n
            (pa + pgsize)
            perm
            (rest m₁))
    → (r : Outcome (Bool × Mem)) → MapEnd kernel_end root m map xs v (leaf_pte pa perm) r
    → RangeEnd kernel_end root m map xs v
        (suc n)
        pa
        perm
        (r >>= λ q. if not (q.0) || false then ok q else rest (q.1))
go_on-RangeEnd kernel_end root m map xs v n pa perm rest ih (ok (true, m')) (new, (ys, s, kept)) =
    RangeEnd-suc kernel_end root m m' map xs ys v n pa perm (rest m') new kept (ih m' ys s)
go_on-RangeEnd kernel_end root m map xs v n pa perm rest ih (ok (false, m')) (new, s, kept) =
    (0, omega arith, Maps-ext (mapped-zero map v pa perm) s, kept)
go_on-RangeEnd kernel_end root m map xs v n pa perm rest ih panic e =
    (0, omega arith, ap (λ q. map q % 2) (omega arith) ∙ e)
go_on-RangeEnd kernel_end root m map xs v n pa perm rest ih out_of_fuel h = h

-- What the loop does with the outcome of its last round.
last_round :
    (rest : Mem → Outcome (Bool × Mem)) (r : Outcome (Bool × Mem))
    → r ≡ (r >>= λ q. if not (q.0) || true then ok q else rest (q.1))
last_round rest (ok (true, m)) = refl
last_round rest (ok (false, m)) = refl
last_round rest panic = refl
last_round rest out_of_fuel = refl

map_loop-RangeEnd :
    (kernel_end root : ℕ) (n : ℕ) (m : Mem) (map : ℕ → ℕ) (xs : List ℕ) (v pa perm : ℕ)
    → dmwin_mask ≤ kernel_end
    → Maps kernel_end root m map xs
    → v + n < 2 ^ 34
    → pa + n * pgsize < 2 ^ 64
    → RangeEnd kernel_end root m map xs v
        (suc n)
        pa
        perm
        (map_loop (suc n) m root (v * pgsize) ((v + n) * pgsize) pa perm)
unfolding map_loop
map_loop-RangeEnd kernel_end root zero m map xs v pa perm low s lt fits =
    let e : (v * pgsize == (v + 0) * pgsize) ≡ true = ground arith in
    let page : v * pgsize / pgsize ≡ v = omega arith in
    rw e (
      subst (RangeEnd kernel_end root m map xs v 1 pa perm)
        (last_round
          (λ m'.
            map_loop 0 m' root ((v * pgsize + pgsize) % 2 ^ 64) ((v + 0) * pgsize)
              ((pa + pgsize) % 2 ^ 64) perm)
          (map_page m root (v * pgsize) pa perm))
        (RangeEnd-one kernel_end root m map xs v pa perm (map_page m root (v * pgsize) pa perm) (
          subst
            (λ u.
              MapEnd kernel_end root m map xs u (leaf_pte pa perm)
                (map_page m root (v * pgsize) pa perm))
            page (map_page-MapEnd m map xs (v * pgsize) pa perm low s (omega arith)))))
map_loop-RangeEnd kernel_end root (suc n) m map xs v pa perm low s lt fits =
    let e : (v * pgsize == (v + suc n) * pgsize) ≡ false = ground arith in
    let page : v * pgsize / pgsize ≡ v = omega arith in
    let next : (v * pgsize + pgsize) % 2 ^ 64 ≡ (v + 1) * pgsize = omega arith in
    let next_pa : (pa + pgsize) % 2 ^ 64 ≡ pa + pgsize = omega arith in
    let last : (v + suc n) * pgsize ≡ (v + 1 + n) * pgsize = omega arith in
    rw (e, next, next_pa, last)
      (go_on-RangeEnd kernel_end root m map xs v (suc n) pa perm
        (λ m'.
          map_loop (suc n) m' root ((v + 1) * pgsize) ((v + 1 + n) * pgsize) (pa + pgsize) perm)
        (λ m' ys s'.
          map_loop-RangeEnd kernel_end root n m' (update map v (leaf_pte pa perm)) ys (v + 1)
            (pa + pgsize) perm low s' (omega arith) (omega arith))
        (map_page m root (v * pgsize) pa perm)
        (subst
          (λ u.
            MapEnd kernel_end root m map xs u (leaf_pte pa perm)
              (map_page m root (v * pgsize) pa perm))
          page (map_page-MapEnd m map xs (v * pgsize) pa perm low s (omega arith))))

-- mappages of `size` bytes from va on, for addresses below MAXVA and physical addresses that do
-- not wrap: it maps the pages from that of va to that of the last byte, one by one, and ends as
-- RangeEnd says: with all of them mapped, where none was before; with -1, where the memory for
-- tables ran out after some of them; with the panic "remap", only where one was mapped before.
pub mappages-RangeEnd :
    (kernel_end root : ℕ) (m : Mem) (map : ℕ → ℕ) (xs : List ℕ) (va size pa perm : ℕ)
    → dmwin_mask ≤ kernel_end
    → Maps kernel_end root m map xs
    → 0 < size
    → va + size ≤ maxva
    → pa + size + pgsize ≤ 2 ^ 64
    → RangeEnd kernel_end root m map xs
        (va / pgsize)
        ((va + size - 1) / pgsize - va / pgsize + 1)
        pa
        perm
        (mappages m root va size pa perm)
unfolding mappages
mappages-RangeEnd kernel_end root m map xs va size pa perm low s pos lt fits =
    let v = va / pgsize in
    let n = (va + size - 1) / pgsize - v in
    let some_bytes : (size == 0) ≡ false = ground arith in
    let last : (va + size + 2 ^ 64 - 1) % 2 ^ 64 / pgsize * pgsize ≡ (v + n) * pgsize =
      omega arith in
    let fuel : ((v + n) * pgsize + 2 ^ 64 - v * pgsize) % 2 ^ 64 / pgsize + 1 ≡ suc n =
      omega arith in
    let count : n + 1 ≡ suc n = omega arith in
    rw (some_bytes, last, fuel, count)
      (map_loop-RangeEnd kernel_end root n m map xs v pa perm low s (omega arith) (omega arith))
