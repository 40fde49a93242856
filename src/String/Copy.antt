-- ===== src/String/Copy.antt =====
-- memmove and safestrcpy of kernel/string.c: what is in memory afterwards.
use avx_loong_arch.Prelude.{
  ℕ, zero, suc, ◌+◌, ◌-◌, ◌≤◌, ◌<◌, min, ◌≡◌, ◌∙◌, ◌≢◌, ◌⊎◌, inl, inr, true, false, ◌&&◌, arith,
  ltb, leb, ◌==◌, if◌then◌else◌, Bool-cases, eq_of_==, ne_of_==,
}
use avx_loong_arch.String.{Memory, store, copy_up, copy_down, memmove, safestrcpy_loop, safestrcpy}

-- Memory with the n bytes from s on copied to d, all of them at once.
abbrev pub moved : Memory → (d s n : ℕ) → Memory
moved mem d s n p = if leb d p && ltb p (d + n) then mem (s + (p - d)) else mem p

-- A copy of n + 1 bytes is that of the first byte and then the others, where they are not yet
-- overwritten.
moved-first :
    (mem : Memory) (d s n p : ℕ)
    → (d ≤ s) ⊎ (s + suc n ≤ d)
    → moved (store mem d (mem s)) (d + 1) (s + 1) n p ≡ moved mem d s (suc n) p
moved-first mem d s n p apart = elim (Bool-cases (d == p)) [
  | inl here ↦
      let e : d ≡ p = eq_of_== here in
      let same : s + (p - d) ≡ s = omega (arith, e) in
      let out : leb (d + 1) p && ltb p (d + 1 + n) ≡ false = ground arith in
      let inn : leb d p && ltb p (d + suc n) ≡ true = ground arith in rw (out, inn, here, same)
  | inr other ↦ elim (Bool-cases (leb d p && ltb p (d + suc n))) [
    | inl inn ↦
        let inn' : leb (d + 1) p && ltb p (d + 1 + n) ≡ true = ground arith in
        let same : s + 1 + (p - (d + 1)) ≡ s + (p - d) = ground arith in
        let away : (d == s + (p - d)) ≡ false = ground arith in rw (inn, inn', same, away)
    | inr out ↦
        let out' : leb (d + 1) p && ltb p (d + 1 + n) ≡ false = ground arith in
        rw (out, out', other)
  ]
]

-- The same from the last byte downwards.
moved-last :
    (mem : Memory) (d s n p : ℕ)
    → s < d
    → moved (store mem (d + n) (mem (s + n))) d s n p ≡ moved mem d s (suc n) p
moved-last mem d s n p lt = elim (Bool-cases (d + n == p)) [
  | inl here ↦
      let same : s + (p - d) ≡ s + n = ground arith in
      let out : leb d p && ltb p (d + n) ≡ false = ground arith in
      let inn : leb d p && ltb p (d + suc n) ≡ true = ground arith in rw (out, inn, here, same)
  | inr other ↦ elim (Bool-cases (leb d p && ltb p (d + suc n))) [
    | inl inn ↦
        let inn' : leb d p && ltb p (d + n) ≡ true = ground arith in
        let away : (d + n == s + (p - d)) ≡ false = ground arith in rw (inn, inn', away)
    | inr out ↦ let out' : leb d p && ltb p (d + n) ≡ false = ground arith in rw (out, out', other)
  ]
]

moved-zero : (mem : Memory) (d s p : ℕ) → mem p ≡ moved mem d s 0 p
moved-zero mem d s p = let out : leb d p && ltb p (d + 0) ≡ false = ground arith in rw out

copy_up-moved :
    (mem : Memory) (d s n p : ℕ) → (d ≤ s) ⊎ (s + n ≤ d) → copy_up mem d s n p ≡ moved mem d s n p
unfolding copy_up
copy_up-moved mem d s zero p apart = moved-zero mem d s p
copy_up-moved mem d s (suc n) p apart =
    copy_up-moved (store mem d (mem s)) (d + 1) (s + 1) n p (grind arith)
    ∙ moved-first mem d s n p apart

copy_down-moved : (mem : Memory) (d s n p : ℕ) → s < d → copy_down mem d s n p ≡ moved mem d s n p
unfolding copy_down
copy_down-moved mem d s zero p lt = moved-zero mem d s p
copy_down-moved mem d s (suc n) p lt =
    copy_down-moved (store mem (d + n) (mem (s + n))) d s n p lt ∙ moved-last mem d s n p lt

-- memmove copies n bytes from src to dst as if all were read before any is written, however the
-- two ranges overlap, and changes no other byte.
pub memmove-moved :
    (mem : Memory) (dst src n p : ℕ) → memmove mem dst src n p ≡ moved mem dst src n p
unfolding memmove
memmove-moved mem dst src n p = elim (Bool-cases (ltb src dst && ltb dst (src + n))) [
  | inl down ↦ rw down (copy_down-moved mem dst src n p (ground arith))
  | inr up ↦ rw up (copy_up-moved mem dst src n p (ground arith))
]

-- The string at t, of length k: its bytes are not 0, and the one behind them is.
pub record IsString (mem : Memory) (t k : ℕ) : Type 0 where
  pub bytes : (j : ℕ) → j < k → mem (t + j) ≢ 0
  pub nul : mem (t + k) ≡ 0

-- safestrcpy's loop copies as many bytes as there is room for, up to the end of the string, and
-- writes 0 behind them.
abbrev pub Copied : (mem mem' : Memory) → (s t k left : ℕ) → Type 0
Copied mem mem' s t k left =
    ((j : ℕ) → j < k → j < left → mem' (s + j) ≡ mem (t + j))
    × (mem' (s + min k left) ≡ 0)
    × ((p : ℕ) → (p < s) ⊎ (s + left < p) → mem' p ≡ mem p)

-- The room of `left + 1` bytes at s and the string at t do not overlap.
abbrev pub Apart : (s t k left : ℕ) → Type 0
Apart s t k left = (s + left < t) ⊎ (t + left < s × t + k < s)

IsString-suc :
    (mem : Memory) (s t k left b : ℕ)
    → Apart s t (suc k) (suc left)
    → IsString mem t (suc k)
    → IsString (store mem s b) (t + 1) k
IsString-suc mem s t k left b (inl lt) str = record {
  bytes = λ j hj. ground (arith, str.bytes (suc j));
  nul = ground (arith, str.nul);
}
IsString-suc mem s t k left b (inr (lt, lt')) str = record {
  bytes = λ j hj. ground (arith, str.bytes (suc j));
  nul = ground (arith, str.nul);
}

Copied-suc :
    (mem mem' : Memory) (s t k left : ℕ)
    → Apart s t (suc k) (suc left)
    → Copied (store mem s (mem t)) mem' (s + 1) (t + 1) k left
    → Copied mem mem' s t (suc k) (suc left)
Copied-suc mem mem' s t k left apart (same, nul, rest) = (
  λ j lt room. elim (Bool-cases (j == 0)) [
    | inl first ↦
        let e : s + j ≡ s = ground arith in
        let e' : t + j ≡ t = ground arith in
        let there : mem' s ≡ mem t = rest s (inl (omega arith)) ∙ ground arith in rw (e, e') there
    | inr later ↦
        let gt = ne_of_== later in
        let here = same (j - 1) (omega arith) (omega arith) in
        let e : s + 1 + (j - 1) ≡ s + j = omega arith in
        let e' : t + 1 + (j - 1) ≡ t + j = omega arith in
        let away : (s == t + j) ≡ false = elim apart [
          | inl lt ↦ ground arith
          | inr (lt, lt') ↦ ground arith
        ] in
        rw (e, e', away) at here
  ],
  (let e : s + min (suc k) (suc left) ≡ s + 1 + min k left = omega arith in rw e nul),
  λ p out. rest p (grind arith) ∙ ground arith,
)

safestrcpy_loop-Copied :
    (mem : Memory) (s t k left : ℕ)
    → Apart s t k left
    → IsString mem t k
    → Copied mem (safestrcpy_loop mem s t left) s t k left
unfolding safestrcpy_loop
safestrcpy_loop-Copied mem s t k zero apart str =
    (λ j lt room. absurd (omega arith), ground arith, λ p out. ground arith)
safestrcpy_loop-Copied mem s t zero (suc left) apart str =
    let e : (mem t == 0) ≡ true = ground (arith, str.nul) in
    rw e (λ j lt room. absurd (omega arith), ground arith, λ p out. ground arith)
safestrcpy_loop-Copied mem s t (suc k) (suc left) apart str =
    let e : (mem t == 0) ≡ false = ground (arith, str.bytes 0) in
    rw e (
      Copied-suc mem (safestrcpy_loop (store mem s (mem t)) (s + 1) (t + 1) left) s t k left apart (
        safestrcpy_loop-Copied (store mem s (mem t)) (s + 1) (t + 1) k left (grind arith)
          (IsString-suc mem s t k left (mem t) apart str)))

-- safestrcpy of a string of k bytes to a buffer of `left` + 1 bytes that does not overlap it: the
-- buffer holds the first `left` of the bytes, or all, then a 0; no byte outside the buffer changes.
pub safestrcpy-Copied :
    (mem : Memory) (s t k left : ℕ)
    → Apart s t k left
    → IsString mem t k
    → Copied mem (safestrcpy mem s t (suc left)) s t k left
unfolding safestrcpy
safestrcpy-Copied mem s t k left apart str = safestrcpy_loop-Copied mem s t k left apart str
