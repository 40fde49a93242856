-- ===== src/Fat/LongName/RoundTrip.antt =====
-- The name that enext of kernel/fat32.c reads is the one for which emake wrote the entries.
use avx_loong_arch.Prelude.{
  ℕ, zero, suc, ◌+◌, ◌-◌, ◌*◌, ◌%◌, ◌^◌, ◌≤◌, ◌<◌, ◌≡◌, refl, sym, ap, ◌∙◌, ◌≢◌, inl, inr, arith,
}
use avx_loong_arch.Fat.LongName.Copy.{lt-cases}
use avx_loong_arch.Fat.LongName.Entry.{
  read_entry_name-outside, read_entry_name-char, read_entry_name-zero, wide_char-full,
}
use avx_loong_arch.Fat.LongName.{
  char_long_name, wide_char, long_entries, entcnt, read_entry_name, read_entries,
}
use avx_loong_arch.String.{Memory}

entries-suc :
    (name : Memory) (i : ℕ) (mem : Memory)
    → read_entries mem (long_entries name (suc i))
      ≡ read_entries
          (read_entry_name mem (i * char_long_name) (wide_char name (i * char_long_name)))
          (long_entries name i)
unfolding long_entries read_entries
entries-suc name i mem =
    let this : suc i - 1 ≡ i = omega arith in
    ap
      (λ m.
        read_entries
          (read_entry_name mem (m * char_long_name) (wide_char name (i * char_long_name)))
          (long_entries name i))
      this

entries-outside :
    (name : Memory) (i : ℕ) (mem : Memory) (q : ℕ)
    → i * char_long_name ≤ q
    → read_entries mem (long_entries name i) q ≡ mem q
unfolding long_entries read_entries
entries-outside name zero mem q out = refl
entries-outside name (suc i) mem q out =
    ap (λ m. m q) (entries-suc name i mem)
    ∙ entries-outside name i
        (read_entry_name mem (i * char_long_name) (wide_char name (i * char_long_name))) q
        (omega arith)
    ∙ read_entry_name-outside mem (i * char_long_name) (wide_char name (i * char_long_name)) q
        (inr (omega arith))

entries-char :
    (name : Memory) (i : ℕ) (mem : Memory) (q : ℕ)
    → q < i * char_long_name
    → ((j : ℕ) → j ≤ q → name j ≢ 0)
    → read_entries mem (long_entries name i) q ≡ name q % 2 ^ 8
unfolding long_entries read_entries
entries-char name zero mem q lt full = absurd (omega arith)
entries-char name (suc i) mem q lt full =
    let b : ℕ = i * char_long_name in
    let w : ℕ → ℕ = wide_char name b in
    ap (λ m. m q) (entries-suc name i mem) ∙ elim (lt-cases q b) [
      | inl below ↦ entries-char name i (read_entry_name mem b w) q (omega arith) full
      | inr here ↦
          let place : q ≡ b + (q - b) = omega arith in
          let copied : (j : ℕ) → j ≤ q - b → w j ≡ name (b + j) =
            λ j le. wide_char-full name b j (λ k kj. full (b + k) (omega arith)) in
          entries-outside name i (read_entry_name mem b w) q (omega arith)
          ∙ ap (read_entry_name mem b w) place
          ∙ read_entry_name-char mem b w (q - b) (omega arith)
              (λ j le z. full (b + j) (omega arith) (sym (copied j le) ∙ z))
          ∙ ap (λ x. x % 2 ^ 8) (copied (q - b) (omega arith) ∙ ap name (sym place))
    ]

entries-zero :
    (name : Memory) (i : ℕ) (mem : Memory) (q : ℕ)
    → ((j : ℕ) → j < q → name j ≢ 0)
    → name q ≡ 0
    → mem q ≡ 0
    → read_entries mem (long_entries name i) q ≡ 0
unfolding long_entries read_entries
entries-zero name zero mem q full z clear = clear
entries-zero name (suc i) mem q full z clear =
    let b : ℕ = i * char_long_name in
    let w : ℕ → ℕ = wide_char name b in
    ap (λ m. m q) (entries-suc name i mem) ∙ elim (lt-cases q b) [
      | inl below ↦
          entries-zero name i (read_entry_name mem b w) q full z
            (read_entry_name-outside mem b w q (inl (omega arith)) ∙ clear)
      | inr past ↦
          entries-outside name i (read_entry_name mem b w) q (omega arith)
          ∙ elim (lt-cases q (b + char_long_name)) [
            | inl here ↦
                let place : q ≡ b + (q - b) = omega arith in
                let copied : (j : ℕ) → j ≤ q - b → w j ≡ name (b + j) =
                  λ j le. wide_char-full name b j (λ k kj. full (b + k) (omega arith)) in
                ap (read_entry_name mem b w) place
                ∙ read_entry_name-zero mem b w (q - b) (omega arith)
                    (λ j lt e. full (b + j) (omega arith) (sym (copied j (omega arith)) ∙ e))
                    (copied (q - b) (omega arith) ∙ ap name (sym place) ∙ z)
                    (ap mem (sym place) ∙ clear)
            | inr further ↦ read_entry_name-outside mem b w q (inr (omega arith)) ∙ clear
          ]
    ]

-- Where emake writes the entries for a name of len bytes, none of them 0, and then a 0, and enext
-- reads them into an array that it has cleared, the array gets the bytes of the name, and a 0
-- behind them.
pub read_entries-long_entries :
    (name : Memory) (len : ℕ)
    → ((j : ℕ) → j < len → name j ≢ 0)
    → ((j : ℕ) → j < len → name j < 2 ^ 8)
    → name len ≡ 0
    → ((j : ℕ) → j ≤ len → read_entries (λ q. 0) (long_entries name (entcnt len)) j ≡ name j)
read_entries-long_entries name len full bytes z j le = elim (lt-cases j len) [
  | inl inside ↦
      let lt : j < len = omega arith in
      let byte = bytes j lt in
      entries-char name (entcnt len) (λ q. 0) j (omega arith) (λ i ij. full i (omega arith))
      ∙ omega arith
  | inr last ↦
      let at_end : j ≡ len = omega arith in
      ap (read_entries (λ q. 0) (long_entries name (entcnt len))) at_end
      ∙ entries-zero name (entcnt len) (λ q. 0) len full z refl
      ∙ sym z
      ∙ ap name (sym at_end)
]
