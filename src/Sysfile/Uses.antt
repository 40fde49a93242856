-- ===== src/Sysfile/Uses.antt =====
-- How many descriptors of kernel/sysfile.c name a file, and what fdalloc, argfd and setting a
-- descriptor do to that number.
use mathlib.Core.Path.{subst}
use avx_loong_arch.Prelude.{
  ℕ, zero, suc, ◌+◌, ◌-◌, ◌^◌, ◌<◌, ◌≡◌, refl, ap, inl, inr, Bool, true, false, ◌||◌, Option, none,
  some, [], ◌∷◌, arith, leb, ◌==◌, Bool-cases, ==_refl, get_elem?,
}
use avx_loong_arch.Sysfile.{
  Ofile, nofile, set_fd, FdArg, found, file_at, argfd, put_behind, fdalloc, Files,
}

abbrev pub one_if : Bool → ℕ
one_if true = 1
one_if false = 0

-- How many descriptors name file i.
abbrev pub uses : ℕ → Ofile → ℕ
uses i [] = 0
uses i (none ∷ xs) = uses i xs
uses i (some g ∷ xs) = one_if (g == i) + uses i xs

-- Each file has as many references as descriptors name it, and those of others.
abbrev pub Counted : (ℕ → ℕ) → Files → Type 0
Counted others (xs, t) = (i : ℕ) → (t i).ref ≡ others i + uses i xs

-- What fdalloc does to the uses.
unfoldable pub FdallocEnd : ℕ → Ofile → Option (ℕ × Ofile) → Type 0
FdallocEnd f xs none = Unit
FdallocEnd f xs (some (fd, xs')) = (i : ℕ) → uses i xs' ≡ one_if (f == i) + uses i xs

put_behind-FdallocEnd :
    (f g : ℕ) (xs : Ofile) (r : Option (ℕ × Ofile))
    → FdallocEnd f xs r
    → FdallocEnd f (some g ∷ xs) (put_behind (some g) r)
unfolding FdallocEnd
put_behind-FdallocEnd f g xs none h = tt
put_behind-FdallocEnd f g xs (some (fd, xs')) h = λ i. omega (arith, h i)

pub fdalloc-FdallocEnd : (f left : ℕ) (xs : Ofile) → FdallocEnd f xs (fdalloc f left xs)
unfolding FdallocEnd fdalloc
fdalloc-FdallocEnd f zero xs = tt
fdalloc-FdallocEnd f (suc left) [] = tt
fdalloc-FdallocEnd f (suc left) (none ∷ xs) = λ i. refl
fdalloc-FdallocEnd f (suc left) (some g ∷ xs) =
    put_behind-FdallocEnd f g xs (fdalloc f left xs) (fdalloc-FdallocEnd f left xs)

-- What argfd finds is in the array.
unfoldable pub ArgEnd : Ofile → FdArg → Type 0
ArgEnd xs (found fd f) = get_elem? xs fd ≡ some (some f)
ArgEnd xs _ = Unit

file_at-ArgEnd :
    (xs : Ofile) (fd : ℕ) (o : Option (Option ℕ)) → get_elem? xs fd ≡ o → ArgEnd xs (file_at fd o)
unfolding ArgEnd
file_at-ArgEnd xs fd none e = tt
file_at-ArgEnd xs fd (some none) e = tt
file_at-ArgEnd xs fd (some (some f)) e = e

pub argfd-ArgEnd : (fd : ℕ) (xs : Ofile) → ArgEnd xs (argfd fd xs)
unfolding argfd ArgEnd
argfd-ArgEnd fd xs = elim (Bool-cases (fd == 2 ^ 32 - 1)) [
  | inl a ↦ rw a tt
  | inr a ↦ elim (Bool-cases (fd == 2 ^ 32 - 100)) [
    | inl b ↦ rw (a, b) tt
    | inr b ↦ elim (Bool-cases (leb (2 ^ 31) fd || leb nofile fd)) [
      | inl c ↦ rw (a, b, c) tt
      | inr c ↦ rw (a, b, c) (file_at-ArgEnd xs fd (get_elem? xs fd) refl)
    ]
  ]
]

uses-cons : (i : ℕ) (v : Option ℕ) (xs : Ofile) → uses i (v ∷ xs) ≡ uses i (v ∷ []) + uses i xs
uses-cons i none xs = omega arith
uses-cons i (some g) xs = omega arith

-- The file at an entry, 0 for none, to tell entries apart.
abbrev file_or_zero : Option (Option ℕ) → ℕ
file_or_zero (some (some f)) = f + 1
file_or_zero _ = 0

pub argfd-found :
    (fd f : ℕ) (xs : Ofile) → argfd fd xs ≡ found fd f → get_elem? xs fd ≡ some (some f)
unfolding ArgEnd
argfd-found fd f xs e = subst (ArgEnd xs) e (argfd-ArgEnd fd xs)

-- Setting a descriptor that names f.
pub set_fd-uses :
    (xs : Ofile) (fd f : ℕ) (v : Option ℕ) (i : ℕ)
    → get_elem? xs fd ≡ some (some f)
    → uses i (set_fd xs fd v) + one_if (f == i) ≡ uses i (v ∷ []) + uses i xs
set_fd-uses [] fd f v i e = absurd (omega (arith, ap file_or_zero e))
set_fd-uses (none ∷ xs) zero f v i e = absurd (omega (arith, ap file_or_zero e))
set_fd-uses (some g ∷ xs) zero f v i e =
    let same : one_if (g == i) ≡ one_if (f == i) =
      ap (λ q. one_if (q == i)) (omega (arith, ap file_or_zero e)) in
    omega (arith, uses-cons i v xs, same)
set_fd-uses (none ∷ xs) (suc fd) f v i e = set_fd-uses xs fd f v i e
set_fd-uses (some g ∷ xs) (suc fd) f v i e = omega (arith, set_fd-uses xs fd f v i e)

pub uses-found : (xs : Ofile) (fd f : ℕ) → get_elem? xs fd ≡ some (some f) → 0 < uses f xs
uses-found xs fd f e =
    let one : one_if (f == f) ≡ 1 = rw (==_refl f) refl in
    omega (arith, set_fd-uses xs fd f none f e, one)
