-- ===== src/Sysfile/Fcntl/Lowest.antt =====
-- fdalloc2 of kernel/sysfile.c: which descriptor it takes.
use mathlib.Core.Option.{none-ne-some, some-injective}
use avx_loong_arch.Prelude.{
  ℕ, zero, suc, ◌^◌, ◌≤◌, ◌<◌, ◌≡◌, refl, sym, ap, inl, inr, Option, none, some, [], ◌∷◌, arith,
  leb, Bool-cases, get_elem?,
}
use avx_loong_arch.Sysfile.Fcntl.{fdalloc_from, fdalloc2}
use avx_loong_arch.Sysfile.{Ofile, set_fd, put_behind, fdalloc}

-- What a search from `start` on ends with: a descriptor from there on and below the limit, which
-- was free, as every other that the search passed was not, and the array with the file there; or
-- none, where each of them was in use.
abbrev pub IsLowest : (f start left : ℕ) → Ofile → Option (ℕ × Ofile) → Type 0
IsLowest f start left xs none = (i : ℕ) → start ≤ i → i < left → (get_elem? xs i ≡ some none → ⊥)
IsLowest f start left xs (some (fd, xs')) =
    (start ≤ fd)
    × (fd < left)
    × (get_elem? xs fd ≡ some none)
    × (xs' ≡ set_fd xs fd (some f))
    × ((i : ℕ) → start ≤ i → i < fd → (get_elem? xs i ≡ some none → ⊥))

-- The descriptors of a longer array that a search passed.
passed_behind :
    (s s' k : ℕ) (x : Option ℕ) (xs : Ofile)
    → ((i : ℕ) → s' ≤ suc i → s ≤ i)
    → (s' ≤ 0 → x ≡ none → ⊥)
    → ((i : ℕ) → s ≤ i → i < k → (get_elem? xs i ≡ some none → ⊥))
    → (i : ℕ) → s' ≤ i
    → i < suc k
    → (get_elem? (x ∷ xs) i ≡ some none → ⊥)
passed_behind s s' k x xs up first passed zero lo hi e = first lo (some-injective x none e)
passed_behind s s' k x xs up first passed (suc i) lo hi e = passed i (up i lo) (omega arith) e

put_behind-IsLowest :
    (f s s' left : ℕ) (x : Option ℕ) (xs : Ofile) (r : Option (ℕ × Ofile))
    → s' ≤ suc s
    → ((i : ℕ) → s' ≤ suc i → s ≤ i)
    → (s' ≤ 0 → x ≡ none → ⊥)
    → IsLowest f s left xs r
    → IsLowest f s' (suc left) (x ∷ xs) (put_behind x r)
put_behind-IsLowest f s s' left x xs none low up first passed =
    passed_behind s s' left x xs up first passed
put_behind-IsLowest f s s' left x xs (some (fd, xs')) low up first (lo, hi, free, same, passed) = (
  omega arith,
  omega arith,
  free,
  ap (λ ys. x ∷ ys) same,
  passed_behind s s' fd x xs up first passed,
)

fdalloc-IsLowest : (f left : ℕ) (xs : Ofile) → IsLowest f 0 left xs (fdalloc f left xs)
unfolding fdalloc
fdalloc-IsLowest f zero xs = λ i lo hi e. omega arith
fdalloc-IsLowest f (suc left) [] = λ i lo hi e. none-ne-some none e
fdalloc-IsLowest f (suc left) (none ∷ xs) =
    (omega arith, omega arith, refl, refl, λ i lo hi e. omega arith)
fdalloc-IsLowest f (suc left) (some g ∷ xs) =
    put_behind-IsLowest f 0 0 left (some g) xs (fdalloc f left xs) (omega arith)
      (λ i lo. omega arith) (λ lo e. none-ne-some g (sym e)) (fdalloc-IsLowest f left xs)

fdalloc_from-IsLowest :
    (f start left : ℕ) (xs : Ofile) → IsLowest f start left xs (fdalloc_from f start left xs)
unfolding fdalloc_from
fdalloc_from-IsLowest f zero left xs = fdalloc-IsLowest f left xs
fdalloc_from-IsLowest f (suc start) zero xs = λ i lo hi e. omega arith
fdalloc_from-IsLowest f (suc start) (suc left) [] = λ i lo hi e. none-ne-some none e
fdalloc_from-IsLowest f (suc start) (suc left) (x ∷ xs) =
    put_behind-IsLowest f start (suc start) left x xs (fdalloc_from f start left xs) (omega arith)
      (λ i lo. omega arith) (λ lo e. omega arith) (fdalloc_from-IsLowest f start left xs)

-- With a limit up to 2 ^ 31, fdalloc2 takes the lowest free descriptor from the start on, and
-- returns -24 only where there is none below the limit.
pub fdalloc2-IsLowest :
    (f start limit : ℕ) (xs : Ofile)
    → limit ≤ 2 ^ 31
    → IsLowest f start limit xs (fdalloc2 f start limit xs)
unfolding fdalloc2
fdalloc2-IsLowest f start limit xs small = elim (Bool-cases (leb (2 ^ 31) start)) [
  | inl negative ↦
      let beyond : 2 ^ 31 ≤ start = ground (arith, negative) in
      rw negative (λ i lo hi e. omega arith)
  | inr below ↦ rw below (fdalloc_from-IsLowest f start limit xs)
]
