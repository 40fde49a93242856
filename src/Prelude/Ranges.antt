-- ===== src/Prelude/Ranges.antt =====
-- Statements about the indices k, …, k + n - 1, by the first index and the others.
use Prim.Native.Nat.{ℕ, suc, ◌+◌, ◌≤◌, ◌<◌}
use mathlib.Core.Path.{subst}
use mathlib.Core.Logic.{inl, inr}
use native.Mathlib.Omega.{arith}
use avx_loong_arch.Prelude.Tests.{◌==◌, Bool-cases, eq_of_==, ne_of_==}

abbrev pub InRange {ℓ} : (ℕ → Type ℓ) → ℕ → ℕ → Type ℓ
InRange P k n = (j : ℕ) → k ≤ j → j < k + n → P j

pub InRange-cons {ℓ} : (P : ℕ → Type ℓ) (k n : ℕ) → P k → InRange P (k + 1) n → InRange P k (suc n)
InRange-cons P k n first rest j lo hi = elim (Bool-cases (k == j)) [
  | inl e ↦ subst P (eq_of_== e) first
  | inr ne ↦ let apart = ne_of_== ne in rest j (omega arith) (omega arith)
]
