-- ===== src/Sysfile/Descriptors.antt =====
-- The reference counts of the files that descriptors name, over the calls of kernel/sysfile.c.
use mathlib.Core.Path.{subst}
use avx_loong_arch.Prelude.{
  ℕ, ◌+◌, ◌^◌, ◌<◌, ◌≡◌, refl, sym, ap, ◌∙◌, ◌≢◌, inl, inr, false, Option, none, some, arith, leb,
  ◌==◌, Bool-cases, eq_of_==, ne_of_==, ==_of_ne, get_elem?, Outcome, ok, panic, out_of_fuel,
}
use avx_loong_arch.File.Refs.{filedup-ref, fileclose-ref}
use avx_loong_arch.Sysfile.Uses.{
  one_if, uses, Counted, FdallocEnd, fdalloc-FdallocEnd, ArgEnd, argfd-ArgEnd, argfd-found,
  set_fd-uses, uses-found,
}
use avx_loong_arch.Sysfile.{
  Ofile, set_fd, FdArg, minus_one, minus_two, found, argfd, fdalloc, Files, dup_to, dup_arg,
  sys_dup, sys_dup3, close_arg, sys_close,
}
use avx_loong_arch.File.{Table}

-- The file table after one more reference to f, where `extra` references were lost.
pub refs-more :
    (others extra : ℕ → ℕ) (xs xs' : Ofile) (t t' : Table) (f : ℕ)
    → Counted others (xs, t)
    → ((i : ℕ) → uses i xs' + extra i ≡ one_if (f == i) + uses i xs)
    → (t' f).ref ≡ (t f).ref + 1
    → ((j : ℕ) → j ≢ f → t' j ≡ t j)
    → (i : ℕ) → (t' i).ref ≡ others i + (uses i xs' + extra i)
refs-more others extra xs xs' t t' f count more one same i = elim (Bool-cases (f == i)) [
  | inl e ↦
      let here : (t' i).ref ≡ (t i).ref + 1 =
        subst (λ q. (t' q).ref ≡ (t q).ref + 1) (eq_of_== e) one in
      let one_more : uses i xs' + extra i ≡ 1 + uses i xs =
        more i ∙ ap (λ b. one_if b + uses i xs) e in
      omega (arith, count i, one_more, here)
  | inr ne ↦
      let none_more : uses i xs' + extra i ≡ 0 + uses i xs =
        more i ∙ ap (λ b. one_if b + uses i xs) ne in
      ap (λ x. x.ref) (same i (λ e. ne_of_== ne (sym e))) ∙ omega (arith, count i, none_more)
]

-- After one less.
Counted-less :
    (others : ℕ → ℕ) (xs xs' : Ofile) (t t' : Table) (f : ℕ)
    → Counted others (xs, t)
    → ((i : ℕ) → uses i xs' + one_if (f == i) ≡ uses i xs)
    → (t' f).ref + 1 ≡ (t f).ref
    → ((j : ℕ) → j ≢ f → t' j ≡ t j)
    → Counted others (xs', t')
Counted-less others xs xs' t t' f count less one same = λ i. elim (Bool-cases (f == i)) [
  | inl e ↦
      let here : (t' i).ref + 1 ≡ (t i).ref =
        subst (λ q. (t' q).ref + 1 ≡ (t q).ref) (eq_of_== e) one in
      let less_one : uses i xs' + 1 ≡ uses i xs =
        ap (λ b. uses i xs' + one_if b) (sym e) ∙ less i in
      omega (arith, count i, less_one, here)
  | inr ne ↦
      let less_none : uses i xs' + 0 ≡ uses i xs =
        ap (λ b. uses i xs' + one_if b) (sym ne) ∙ less i in
      ap (λ x. x.ref) (same i (λ e. ne_of_== ne (sym e))) ∙ omega (arith, count i, less_none)
]

-- A call that ends with descriptors and a file table that are counted.
abbrev pub CountedEnd : {A : Type 0} → (ℕ → ℕ) → Outcome (A × Files) → Type 0
CountedEnd others (ok (r, s)) = Counted others s
CountedEnd others panic = ⊥
CountedEnd others out_of_fuel = ⊥

dup_to-CountedEnd :
    (others : ℕ → ℕ) (xs : Ofile) (t : Table) (f : ℕ) (r : Option (ℕ × Ofile))
    → Counted others (xs, t)
    → 0 < uses f xs
    → FdallocEnd f xs r
    → CountedEnd others (dup_to t f r xs)
unfolding FdallocEnd
dup_to-CountedEnd others xs t f none count pos h = count
dup_to-CountedEnd others xs t f (some (fd, xs')) count pos h =
    let (t', e, one, same) = filedup-ref f t (λ z. omega (arith, z, pos, count f)) in
    rw e (λ i.
      refs-more others (λ j. 0) xs xs' t t' f count (λ j. omega (arith, h j)) one same i
      ∙ omega arith)

dup_arg-CountedEnd :
    (others : ℕ → ℕ) (limit : ℕ) (xs : Ofile) (t : Table) (r : FdArg)
    → Counted others (xs, t)
    → ArgEnd xs r
    → CountedEnd others (dup_arg limit (xs, t) r)
unfolding ArgEnd
dup_arg-CountedEnd others limit xs t minus_one count h = count
dup_arg-CountedEnd others limit xs t minus_two count h = count
dup_arg-CountedEnd others limit xs t (found fd f) count h =
    dup_to-CountedEnd others xs t f (fdalloc f limit xs) count (uses-found xs fd f h)
      (fdalloc-FdallocEnd f limit xs)

-- sys_dup never panics and keeps the counts: each file has as many references as descriptors name
-- it, and those of others.
pub sys_dup-Counted :
    (others : ℕ → ℕ) (limit fd : ℕ) (xs : Ofile) (t : Table)
    → Counted others (xs, t)
    → CountedEnd others (sys_dup limit fd (xs, t))
unfolding sys_dup
sys_dup-Counted others limit fd xs t count =
    dup_arg-CountedEnd others limit xs t (argfd fd xs) count (argfd-ArgEnd fd xs)

close_arg-CountedEnd :
    (others : ℕ → ℕ) (xs : Ofile) (t : Table) (r : FdArg)
    → Counted others (xs, t)
    → ArgEnd xs r
    → CountedEnd others (close_arg (xs, t) r)
unfolding ArgEnd
close_arg-CountedEnd others xs t minus_one count h = count
close_arg-CountedEnd others xs t minus_two count h = count
close_arg-CountedEnd others xs t (found fd f) count h =
    let pos = uses-found xs fd f h in
    let (c, t', e, one, same) = fileclose-ref f t (λ z. omega (arith, z, pos, count f)) in
    rw e (
      Counted-less others xs (set_fd xs fd none) t t' f count
        (λ i. set_fd-uses xs fd f none i h ∙ omega arith) one same)

-- sys_close never panics and keeps the counts.
pub sys_close-Counted :
    (others : ℕ → ℕ) (fd : ℕ) (xs : Ofile) (t : Table)
    → Counted others (xs, t)
    → CountedEnd others (sys_close fd (xs, t))
unfolding sys_close
sys_close-Counted others fd xs t count =
    close_arg-CountedEnd others xs t (argfd fd xs) count (argfd-ArgEnd fd xs)

-- sys_dup3 onto a descriptor that names another file g loses a reference: it returns the
-- descriptor, and afterwards the references are those of the descriptors and of others, with one to
-- g that nothing names, so that g is never closed.
pub sys_dup3_loses :
    (others : ℕ → ℕ) (limit fd newfd f g : ℕ) (xs : Ofile) (t : Table)
    → Counted others (xs, t)
    → argfd fd xs ≡ found fd f
    → get_elem? xs newfd ≡ some (some g)
    → g ≢ f
    → newfd < limit
    → newfd < 2 ^ 31
    → (s : Files) × (sys_dup3 limit fd newfd (xs, t) ≡ ok (some newfd, s))
      × Counted (λ i. others i + one_if (g == i)) s
unfolding sys_dup3
sys_dup3_loses others limit fd newfd f g xs t count e there ne lt small =
    let in_array : get_elem? xs fd ≡ some (some f) = argfd-found fd f xs e in
    let (t', done, one, same) =
      filedup-ref f t (λ z. omega (arith, z, uses-found xs fd f in_array, count f)) in
    let positive : leb (2 ^ 31) newfd ≡ false = ground arith in
    let inside : leb limit newfd ≡ false = ground arith in
    let other : (g == f) ≡ false = ==_of_ne ne in
    rw (e, positive, inside, there, other, done)
      (
        (set_fd xs newfd (some f), t'),
        refl,
        λ i.
            refs-more others (λ j. one_if (g == j)) xs (set_fd xs newfd (some f)) t t' f count
              (λ j. set_fd-uses xs newfd g (some f) j there ∙ omega arith) one same i
            ∙ omega arith,
      )
