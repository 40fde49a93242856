-- ===== src/Proc/Fork/Descriptors.antt =====
-- The descriptors of a child of fork in kernel/proc.c, and the references to their files.
use avx_loong_arch.Prelude.{
  ℕ, ◌+◌, ◌≤◌, ◌≡◌, refl, sym, ap, ◌∙◌, ◌≢◌, inl, inr, List, [], ◌∷◌, arith, ◌==◌, if◌then◌else◌,
  Bool-cases, eq_of_==, ne_of_==, All, ok,
}
use avx_loong_arch.Proc.Fork.{fork_ofile}
use avx_loong_arch.Proc.Life.{zeros}
use avx_loong_arch.File.{Table}
use avx_loong_arch.File.Refs.{filedup-ref}

-- How many of the descriptors name file i.
abbrev pub named : (ℕ → ℕ) → ℕ → List ℕ → ℕ
named file_of i [] = 0
named file_of i (x ∷ xs) =
    let rest = named file_of i xs in
    if x == 0 then rest else if file_of x == i then 1 + rest else rest

-- Each open descriptor's file is in use.
abbrev pub Used : (ℕ → ℕ) → Table → List ℕ → Type 0
Used file_of t xs = All (λ x. x ≢ 0 → (t (file_of x)).ref ≢ 0) xs

Used-mono :
    (file_of : ℕ → ℕ) (t u : Table) (xs : List ℕ)
    → ((i : ℕ) → (t i).ref ≤ (u i).ref)
    → Used file_of t xs
    → Used file_of u xs
Used-mono file_of t u [] le h = tt
Used-mono file_of t u (x ∷ xs) le (h, hs) =
    (λ ne z. h ne (omega (arith, z, le (file_of x))), Used-mono file_of t u xs le hs)

-- With an empty array for the child, the loop copies the descriptors and counts each of them.
pub fork_ofile-named :
    (file_of : ℕ → ℕ) (xs ys : List ℕ) (t : Table)
    → zeros xs ≡ ys
    → Used file_of t xs
    → (u : Table) × (fork_ofile file_of xs ys t ≡ ok (xs, u))
      × ((i : ℕ) → (u i).ref ≡ (t i).ref + named file_of i xs)
unfolding fork_ofile zeros
fork_ofile-named file_of [] ys t e h = (t, refl, λ i. omega arith)
fork_ofile-named file_of (x ∷ xs) [] t e h = absurd (cc)
fork_ofile-named file_of (x ∷ xs) (y ∷ ys) t e (h, hs) =
    let empty : y ≡ 0 = cc in
    let rest : zeros xs ≡ ys = cc in
    elim (Bool-cases (x == 0)) [
      | inl closed ↦
          let (u, run, count) = fork_ofile-named file_of xs ys t rest hs in
          let same : y ∷ xs ≡ x ∷ xs = ap (λ z. z ∷ xs) (empty ∙ sym (eq_of_== closed)) in
          rw (closed, run) (u, ap (λ l. ok (l, u)) same, count)
      | inr open_file ↦
          let (t₁, dup, one, others) = filedup-ref (file_of x) t (h (ne_of_== open_file)) in
          let grown : (i : ℕ) → (t₁ i).ref ≡ (t i).ref + (if file_of x == i then 1 else 0) = λ i.
            elim (Bool-cases (file_of x == i)) [
              | inl here ↦ rw (here, ← eq_of_== here) one
              | inr other ↦
                  rw other (ap (λ f. f.ref) (others i (λ q. ne_of_== other (sym q))) ∙ omega arith)
            ] in
          let (u, run, count) =
            fork_ofile-named file_of xs ys t₁ rest
              (Used-mono file_of t t₁ xs (λ i. omega (arith, grown i)) hs) in
          rw (open_file, dup, run)
            (
              u,
              refl,
              λ i. elim (Bool-cases (file_of x == i)) [
                | inl here ↦
                    let g : (t₁ i).ref ≡ (t i).ref + 1 = rw here at (grown i) in
                    rw here (omega (arith, g, count i))
                | inr other ↦
                    let g : (t₁ i).ref ≡ (t i).ref + 0 = rw other at (grown i) in
                    rw other (omega (arith, g, count i))
              ],
            )
    ]
