-- ===== src/Fat/LongName/Entry.antt =====
-- read_entry_name of kernel/fat32.c on one long entry: its 13 places, in three fields.
use avx_loong_arch.Prelude.{
  ℕ, zero, suc, ◌+◌, ◌-◌, ◌%◌, ◌^◌, ◌≤◌, ◌<◌, ◌≡◌, refl, sym, ap, ◌∙◌, ◌≢◌, ◌⊎◌, inl, inr, false,
  arith, ◌==◌, ==_of_ne,
}
use avx_loong_arch.Fat.LongName.Copy.{lt-cases, snstr-outside, snstr-char, snstr-zero}
use avx_loong_arch.Fat.LongName.{char_long_name, ended, wide_char, snstr, read_entry_name}
use avx_loong_arch.String.{Memory}

module _ (mem : Memory) (b : ℕ) (w : ℕ → ℕ) where
  abbrev first : Memory
  first = snstr mem b w 5

  abbrev second : Memory
  second = snstr first (b + 5) (λ k. w (k + 5)) 6

  pub read_entry_name-outside :
      (q : ℕ) → (q < b) ⊎ (b + char_long_name ≤ q) → read_entry_name mem b w q ≡ mem q
  unfolding read_entry_name
  read_entry_name-outside q out =
      snstr-outside 2 (b + 11) second (λ k. w (k + 11)) q (ground (arith, out))
      ∙ snstr-outside 6 (b + 5) first (λ k. w (k + 5)) q (ground (arith, out))
      ∙ snstr-outside 5 b mem w q (ground (arith, out))

  pub read_entry_name-char :
      (k : ℕ)
      → k < char_long_name
      → ((j : ℕ) → j ≤ k → w j ≢ 0)
      → read_entry_name mem b w (b + k) ≡ w k % 2 ^ 8
  unfolding read_entry_name
  read_entry_name-char k lt full = elim (lt-cases k 5) [
    | inl in1 ↦
        snstr-outside 2 (b + 11) second (λ j. w (j + 11)) (b + k) (inl (omega arith))
        ∙ snstr-outside 6 (b + 5) first (λ j. w (j + 5)) (b + k) (inl (omega arith))
        ∙ snstr-char 5 b k mem w (omega arith) full
    | inr past1 ↦ elim (lt-cases k 11) [
      | inl in2 ↦
          let place : b + k ≡ b + 5 + (k - 5) = omega arith in
          let there : k - 5 + 5 ≡ k = omega arith in
          snstr-outside 2 (b + 11) second (λ j. w (j + 11)) (b + k) (inl (omega arith))
          ∙ ap second place
          ∙ snstr-char 6 (b + 5) (k - 5) first (λ j. w (j + 5)) (omega arith)
              (λ j le. full (j + 5) (omega arith))
          ∙ ap (λ x. w x % 2 ^ 8) there
      | inr past2 ↦
          let place : b + k ≡ b + 11 + (k - 11) = omega arith in
          let there : k - 11 + 11 ≡ k = omega arith in
          ap (read_entry_name mem b w) place
          ∙ snstr-char 2 (b + 11) (k - 11) second (λ j. w (j + 11)) (omega arith)
              (λ j le. full (j + 11) (omega arith))
          ∙ ap (λ x. w x % 2 ^ 8) there
    ]
  ]

  pub read_entry_name-zero :
      (k : ℕ)
      → k < char_long_name
      → ((j : ℕ) → j < k → w j ≢ 0)
      → w k ≡ 0
      → mem (b + k) ≡ 0
      → read_entry_name mem b w (b + k) ≡ 0
  unfolding read_entry_name
  read_entry_name-zero k lt full z clear = elim (lt-cases k 5) [
    | inl in1 ↦
        snstr-outside 2 (b + 11) second (λ j. w (j + 11)) (b + k) (inl (omega arith))
        ∙ snstr-outside 6 (b + 5) first (λ j. w (j + 5)) (b + k) (inl (omega arith))
        ∙ snstr-zero 5 b k mem w (omega arith) full z clear
    | inr past1 ↦
        let before : first (b + k) ≡ 0 =
          snstr-outside 5 b mem w (b + k) (inr (omega arith)) ∙ clear in
        elim (lt-cases k 11) [
          | inl in2 ↦
              let place : b + k ≡ b + 5 + (k - 5) = omega arith in
              snstr-outside 2 (b + 11) second (λ j. w (j + 11)) (b + k) (inl (omega arith))
              ∙ ap second place
              ∙ snstr-zero 6 (b + 5) (k - 5) first (λ j. w (j + 5)) (omega arith)
                  (λ j le. full (j + 5) (omega arith)) (ap w (omega arith) ∙ z)
                  (ap first (sym place) ∙ before)
          | inr past2 ↦
              let place : b + k ≡ b + 11 + (k - 11) = omega arith in
              ap (read_entry_name mem b w) place
              ∙ snstr-zero 2 (b + 11) (k - 11) second (λ j. w (j + 11)) (omega arith)
                  (λ j le. full (j + 11) (omega arith)) (ap w (omega arith) ∙ z)
                  (ap second (sym place)
                    ∙ snstr-outside 6 (b + 5) first (λ j. w (j + 5)) (b + k) (inr (omega arith))
                    ∙ before)
        ]
  ]

-- Up to a 0 of the name the entry has its characters.
ended-full :
    (name : Memory) (p j : ℕ) → ((i : ℕ) → i < j → name (p + i) ≢ 0) → ended name p j ≡ false
unfolding ended
ended-full name p zero full = refl
ended-full name p (suc j) full =
    let go : (name (p + j) == 0) ≡ false = ==_of_ne (full j (omega arith)) in
    rw (ended-full name p j (λ i lt. full i (omega arith)), go) refl

pub wide_char-full :
    (name : Memory) (p j : ℕ)
    → ((i : ℕ) → i < j → name (p + i) ≢ 0)
    → wide_char name p j ≡ name (p + j)
wide_char-full name p j full = rw (ended-full name p j full) refl
