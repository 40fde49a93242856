-- ===== src/Futex/Wait.antt =====
-- futexWait of kernel/futex.c, from its call to its end.
use mathlib.Core.Path.{subst}
use avx_loong_arch.Prelude.{
  ℕ, zero, suc, ◌+◌, ◌-◌, ◌≤◌, ◌<◌, ◌≡◌, refl, sym, ap, ◌∙◌, inl, inr, true, List, [], ◌∷◌, arith,
  Bool-cases, length, All, Outcome, ok, panic, out_of_fuel, ◌>>=◌,
}
use avx_loong_arch.Futex.{FutexSlot, Slots, futex_wait, drop, futex_wait_run}

-- The ends of a stretch of futexWait from one of the slots `ss` on.
abbrev pub WaitEnd : ℕ → ℕ → Slots → Outcome (ℕ × Slots) → Type 0
WaitEnd addr thread ss (ok (k, ss')) = (0 < k) × (k ≤ length ss)
WaitEnd addr thread ss panic = All (λ s. s.valid ≡ true) ss
WaitEnd addr thread ss out_of_fuel = ⊥

WaitEnd-suc :
    (addr thread : ℕ) (s : FutexSlot) (ss : Slots) (r : Outcome (ℕ × Slots))
    → s.valid ≡ true
    → WaitEnd addr thread ss r
    → WaitEnd addr thread (s ∷ ss) (r >>= λ q. ok (suc (q.0), s ∷ q.1))
WaitEnd-suc addr thread s ss (ok (k, ss')) v (pos, le) = (omega arith, omega arith)
WaitEnd-suc addr thread s ss panic v all = (v, all)
WaitEnd-suc addr thread s ss out_of_fuel v h = h

pub futex_wait-WaitEnd :
    (addr thread : ℕ) (ss : Slots) → WaitEnd addr thread ss (futex_wait addr thread ss)
unfolding futex_wait
futex_wait-WaitEnd addr thread [] = tt
futex_wait-WaitEnd addr thread (s ∷ ss) = elim (Bool-cases (s.valid)) [
  | inl used ↦
      let step : futex_wait addr thread (s ∷ ss)
          ≡ (futex_wait addr thread ss >>= λ q. ok (suc (q.0), s ∷ q.1)) =
        rw used refl in
      subst (WaitEnd addr thread (s ∷ ss)) (sym step) (
        WaitEnd-suc addr thread s ss (futex_wait addr thread ss) used
          (futex_wait-WaitEnd addr thread ss))
  | inr free ↦ rw free (omega arith, omega arith)
]

length-drop {ℓ} : {A : Type ℓ} (n : ℕ) (xs : List A) → length (drop n xs) ≡ length xs - n
length-drop zero xs = omega arith
length-drop (suc n) [] = omega arith
length-drop (suc n) (x ∷ xs) = length-drop n xs ∙ omega arith

-- The stretches after the first.
run_on :
    (addr thread count i fuel : ℕ) (ss : Slots) (r : Outcome (ℕ × Slots))
    (rest : ℕ → Outcome (ℕ × Slots))
    → WaitEnd addr thread ss r
    → length ss ≡ count - i
    → ((k : ℕ) → 0 < k → i + k ≤ count → rest k ≡ panic)
    → (r >>= λ q. rest (q.0)) ≡ panic
run_on addr thread count i fuel ss (ok (k, ss')) rest (pos, le) size ih =
    ih k pos (omega (arith, le, size, pos))
run_on addr thread count i fuel ss panic rest h size ih = refl
run_on addr thread count i fuel ss out_of_fuel rest h size ih = absurd h

-- futexWait never returns: however the other threads change the table while it sleeps, it panics
-- after at most one stretch for each slot and one more.
pub futex_wait_run-panics :
    (tables : ℕ → Slots) (addr thread count fuel n i : ℕ)
    → ((k : ℕ) → length (tables k) ≡ count)
    → i ≤ count
    → count < fuel + i
    → futex_wait_run tables addr thread fuel n i ≡ panic
unfolding futex_wait_run
futex_wait_run-panics tables addr thread count zero n i size le enough = absurd (omega arith)
futex_wait_run-panics tables addr thread count (suc fuel) n i size le enough =
    run_on addr thread count i fuel (drop i (tables n)) (futex_wait addr thread (drop i (tables n)))
      (λ k. futex_wait_run tables addr thread fuel (n + 1) (i + k))
      (futex_wait-WaitEnd addr thread (drop i (tables n)))
      (length-drop i (tables n) ∙ ap (λ q. q - i) (size n))
      (λ k pos le'.
        futex_wait_run-panics tables addr thread count fuel (n + 1) (i + k) size le' (omega arith))
