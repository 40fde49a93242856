-- ===== src/Fat/LongName/Copy.antt =====
-- snstr of kernel/string.c: the places outside, the characters before a 0, and the 0.
use avx_loong_arch.Prelude.{
  ℕ, zero, suc, ◌+◌, ◌%◌, ◌^◌, ◌≤◌, ◌<◌, ◌≡◌, refl, sym, ap, ◌∙◌, ◌≢◌, ◌⊎◌, inl, inr, true, false,
  ◌&&◌, arith, ltb, leb, ◌==◌, if◌then◌else◌, Bool-cases, ==_of_ne,
}
use avx_loong_arch.Fat.LongName.{snstr}
use avx_loong_arch.String.{Memory}

pub lt-cases : (a b : ℕ) → (a < b) ⊎ (b ≤ a)
lt-cases a b = elim (Bool-cases (ltb a b)) [ inl e ↦ ground (arith, e) | inr e ↦ ground (arith, e) ]

pub snstr-outside :
    (len dst : ℕ) (mem : Memory) (src : ℕ → ℕ) (q : ℕ)
    → (q < dst) ⊎ (dst + len ≤ q)
    → snstr mem dst src len q ≡ mem q
unfolding snstr
snstr-outside zero dst mem src q out = refl
snstr-outside (suc len) dst mem src q out = elim (Bool-cases (src 0 == 0)) [
  | inl stop ↦
      let no_byte : (leb dst q && ltb q (dst + len)) ≡ false = ground (arith, out) in
      rw (stop, no_byte) refl
  | inr go ↦
      let apart : (dst == q) ≡ false = ground (arith, out) in
      let further : (q < dst + 1) ⊎ (dst + 1 + len ≤ q) = ground (arith, out) in
      rw go (
        snstr-outside len (dst + 1) (λ p. if dst == p then src 0 % 2 ^ 8 else mem p)
          (λ k. src (k + 1)) q further
        ∙ rw apart refl)
]

-- Up to a 0 the characters are copied.
pub snstr-char :
    (len dst k : ℕ) (mem : Memory) (src : ℕ → ℕ)
    → k < len
    → ((j : ℕ) → j ≤ k → src j ≢ 0)
    → snstr mem dst src len (dst + k) ≡ src k % 2 ^ 8
unfolding snstr
snstr-char zero dst k mem src lt full = absurd (omega arith)
snstr-char (suc len) dst zero mem src lt full =
    let go : (src 0 == 0) ≡ false = ==_of_ne (full 0 (omega arith)) in
    let here : (dst == dst + 0) ≡ true = ground arith in
    rw go (
      snstr-outside len (dst + 1) (λ p. if dst == p then src 0 % 2 ^ 8 else mem p)
        (λ k. src (k + 1)) (dst + 0) (inl (omega arith))
      ∙ rw here refl)
snstr-char (suc len) dst (suc k) mem src lt full =
    let go : (src 0 == 0) ≡ false = ==_of_ne (full 0 (omega arith)) in
    let place : dst + suc k ≡ dst + 1 + k = omega arith in
    let next : src (k + 1) ≡ src (suc k) = ap src (omega arith) in
    let mem' : Memory = λ p. if dst == p then src 0 % 2 ^ 8 else mem p in
    rw go (
      ap (snstr mem' (dst + 1) (λ j. src (j + 1)) len) place
      ∙ snstr-char len (dst + 1) k mem' (λ j. src (j + 1)) (omega arith)
          (λ j le z. full (suc j) (omega arith) (ap src (omega arith) ∙ z))
      ∙ ap (λ x. x % 2 ^ 8) next)

-- The first 0 is written, or left from before.
pub snstr-zero :
    (len dst k : ℕ) (mem : Memory) (src : ℕ → ℕ)
    → k < len
    → ((j : ℕ) → j < k → src j ≢ 0)
    → src k ≡ 0
    → mem (dst + k) ≡ 0
    → snstr mem dst src len (dst + k) ≡ 0
unfolding snstr
snstr-zero zero dst k mem src lt full z clear = absurd (omega arith)
snstr-zero (suc len) dst zero mem src lt full z clear =
    let stop : (src 0 == 0) ≡ true = ground (arith, z) in
    elim (Bool-cases (leb dst (dst + 0) && ltb (dst + 0) (dst + len))) [
      | inl written ↦ rw (stop, written) refl
      | inr left ↦ rw (stop, left) clear
    ]
snstr-zero (suc len) dst (suc k) mem src lt full z clear =
    let go : (src 0 == 0) ≡ false = ==_of_ne (full 0 (omega arith)) in
    let place : dst + suc k ≡ dst + 1 + k = omega arith in
    let mem' : Memory = λ p. if dst == p then src 0 % 2 ^ 8 else mem p in
    let apart : (dst == dst + 1 + k) ≡ false = ground arith in
    let clear' : mem' (dst + 1 + k) ≡ 0 = rw apart (ap mem (sym place) ∙ clear) in
    rw go (
      ap (snstr mem' (dst + 1) (λ j. src (j + 1)) len) place
      ∙ snstr-zero len (dst + 1) k mem' (λ j. src (j + 1)) (omega arith)
          (λ j le e. full (suc j) (omega arith) (ap src (omega arith) ∙ e))
          (ap src (omega arith) ∙ z) clear')
