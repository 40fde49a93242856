-- ===== src/Futex/Examples.antt =====
-- The theorems of kernel/futex.c on a small table.
use avx_loong_arch.Prelude.{ℕ, ◌≡◌, refl, ◌≢◌, true, false, [], ◌∷◌}
use avx_loong_arch.Futex.Queue.{take, waiters, futex_wake_lem}
use avx_loong_arch.Futex.{FutexSlot, Slots, futex_wake, drop}

abbrev slot : ℕ → ℕ → FutexSlot
slot a t = record { addr = a; thread = t; valid = true }

abbrev four : Slots
four = slot 100 1 ∷ slot 200 2 ∷ slot 100 3 ∷ slot 100 4 ∷ []

wake_two : futex_wake 100 2 four ≡ (
  1 ∷ 3 ∷ [],
  record (slot 100 1) { valid = false }
      ∷ slot 200 2
      ∷ record (slot 100 3) { valid = false }
      ∷ slot 100 4
      ∷ [],
)
unfolding futex_wake
wake_two = refl

futex_wake_lem_example :
    ((futex_wake 100 2 four).0 ≡ take 2 (waiters 100 four))
    × (waiters 100 (futex_wake 100 2 four).1 ≡ drop 2 (waiters 100 four))
    × ((b : ℕ) → b ≢ 100 → waiters b (futex_wake 100 2 four).1 ≡ waiters b four)
futex_wake_lem_example = futex_wake_lem 100 2 four
