-- ===== src/Pipe/Fifo.antt =====
-- A pipe of kernel/pipe.c as a queue of bytes, also past the wrap of its counters.
use avx_loong_arch.Prelude.{
  ℕ, zero, suc, ◌+◌, ◌-◌, ◌%◌, ◌^◌, ◌≤◌, ◌<◌, ◌≡◌, refl, ap, ◌≢◌, true, false, List, [], ◌∷◌, ◌++◌,
  arith, ◌==◌, if◌then◌else◌, length,
}
use avx_loong_arch.Pipe.{pipesize, Chan, Pipe, wake, is_full, is_empty, put, get}

-- How many bytes the pipe holds.
abbrev pub used : Pipe → ℕ
used pi = (pi.nwrite + 2 ^ 32 - pi.nread) % 2 ^ 32

pub record IsValid (pi : Pipe) : Type 0 where
  pub nread_fits : pi.nread < 2 ^ 32
  pub nwrite_fits : pi.nwrite < 2 ^ 32
  pub held : used pi ≤ pipesize

-- The `n` bytes from the counter value `r` on.
abbrev pub window : (ℕ → ℕ) → ℕ → ℕ → List ℕ
window cells r zero = []
window cells r (suc n) = cells (r % pipesize) ∷ window cells ((r + 1) % 2 ^ 32) n

abbrev pub contents : Pipe → List ℕ
contents pi = window pi.cells pi.nread (used pi)

pub length-window : (cells : ℕ → ℕ) (r n : ℕ) → length (window cells r n) ≡ n
length-window cells r zero = refl
length-window cells r (suc n) = omega (arith, length-window cells ((r + 1) % 2 ^ 32) n)

-- A write just past a window of fewer than PIPESIZE bytes extends it.
window-put :
    (cells : ℕ → ℕ) (ch r n w : ℕ)
    → r < 2 ^ 32
    → n < pipesize
    → w ≡ (r + n) % 2 ^ 32
    → window (λ i. if i == w % pipesize then ch else cells i) r (suc n)
      ≡ window cells r n ++ ch ∷ []
window-put cells ch r zero w hr hn e =
    let same : (r % pipesize == w % pipesize) ≡ true = ground arith in rw same
window-put cells ch r (suc n) w hr hn e =
    let other : (r % pipesize == w % pipesize) ≡ false = ground arith in
    rw other (
      ap (λ t. cells (r % pipesize) ∷ t)
        (window-put cells ch ((r + 1) % 2 ^ 32) n w (omega arith) (omega arith) (omega arith)))

module _ (pi : Pipe) (v : IsValid pi) where
  -- The tests of the code, as facts about the queue.
  pub is_full-used : is_full pi ≡ (used pi == pipesize)
  unfolding is_full
  is_full-used = ground arith

  pub is_empty-used : is_empty pi ≡ (used pi == 0)
  unfolding is_empty
  is_empty-used = ground arith

  -- A byte put in a pipe that is not full goes to the end of the queue.
  pub put-contents :
      (ch : ℕ)
      → is_full pi ≡ false
      → IsValid (put ch pi) × (contents (put ch pi) ≡ contents pi ++ ch ∷ [])
  unfolding put
  put-contents ch h =
      let room : used pi < pipesize = ground (arith, is_full-used) in
      let grown : used (put ch pi) ≡ suc (used pi) = omega arith in
      (
        record { nread_fits = v.nread_fits; nwrite_fits = omega arith; held = omega arith },
        rw grown
            (window-put pi.cells ch pi.nread (used pi) pi.nwrite v.nread_fits room (omega arith)),
      )

  -- The byte that get reads is the first of the queue, and get takes it off.
  pub get-contents :
      is_empty pi ≡ false → let (ch, q) = get pi in IsValid q × (contents pi ≡ ch ∷ contents q)
  unfolding get
  get-contents h =
      let some_held : used pi ≢ 0 = ground (arith, is_empty-used) in
      let shrunk : used pi ≡ suc (used (get pi).1) = omega arith in
      (
        record { nread_fits = omega arith; nwrite_fits = v.nwrite_fits; held = omega arith },
        ap (window pi.cells pi.nread) shrunk,
      )

pub wake-IsValid : (c : Chan) (pi : Pipe) → IsValid pi → IsValid (wake c pi)
wake-IsValid c pi v = record {
  nread_fits = v.nread_fits;
  nwrite_fits = v.nwrite_fits;
  held = v.held;
}
