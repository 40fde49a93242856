-- ===== src/Sysfile/Fcntl/Counts.antt =====
-- sys_fcntl of kernel/sysfile.c: the reference counts, and the descriptor that a dup gets.
use avx_loong_arch.Prelude.{
  ℕ, zero, suc, ◌%◌, ◌^◌, ◌<◌, ◌∙◌, inl, inr, Option, none, some, [], ◌∷◌, arith, leb, ◌==◌,
  Bool-cases,
}
use avx_loong_arch.File.Refs.{filedup-ref}
use avx_loong_arch.File.{Table}
use avx_loong_arch.Sysfile.Descriptors.{refs-more, CountedEnd}
use avx_loong_arch.Sysfile.Fcntl.{
  Flags, set_flag, f_dupfd, f_getfd, f_setfd, f_dupfd_cloexec, fdalloc_from, fdalloc2, dup_from,
  fcntl_arg, sys_fcntl,
}
use avx_loong_arch.Sysfile.Uses.{
  uses, Counted, FdallocEnd, fdalloc-FdallocEnd, ArgEnd, argfd-ArgEnd, uses-found,
}
use avx_loong_arch.Sysfile.{Ofile, put_behind, FdArg, minus_one, minus_two, found, argfd}

put_behind-End :
    (f : ℕ) (x : Option ℕ) (xs : Ofile) (r : Option (ℕ × Ofile))
    → FdallocEnd f xs r
    → FdallocEnd f (x ∷ xs) (put_behind x r)
unfolding FdallocEnd
put_behind-End f x xs none h = tt
put_behind-End f none xs (some (fd, xs')) h = λ i. h i
put_behind-End f (some g) xs (some (fd, xs')) h = λ i. omega (arith, h i)

fdalloc_from-FdallocEnd :
    (f start left : ℕ) (xs : Ofile) → FdallocEnd f xs (fdalloc_from f start left xs)
unfolding fdalloc_from FdallocEnd
fdalloc_from-FdallocEnd f zero left xs = fdalloc-FdallocEnd f left xs
fdalloc_from-FdallocEnd f (suc start) zero xs = tt
fdalloc_from-FdallocEnd f (suc start) (suc left) [] = tt
fdalloc_from-FdallocEnd f (suc start) (suc left) (x ∷ xs) =
    put_behind-End f x xs (fdalloc_from f start left xs) (fdalloc_from-FdallocEnd f start left xs)

fdalloc2-FdallocEnd : (f start limit : ℕ) (xs : Ofile) → FdallocEnd f xs (fdalloc2 f start limit xs)
unfolding fdalloc2 FdallocEnd
fdalloc2-FdallocEnd f start limit xs = elim (Bool-cases (leb (2 ^ 31) start)) [
  | inl negative ↦ rw negative tt
  | inr below ↦ rw below (fdalloc_from-FdallocEnd f start limit xs)
]

dup_from-CountedEnd :
    (others : ℕ → ℕ) (mark : ℕ → Flags → Flags) (flags : Flags) (xs : Ofile) (t : Table) (f : ℕ)
    (r : Option (ℕ × Ofile))
    → Counted others (xs, t)
    → 0 < uses f xs
    → FdallocEnd f xs r
    → CountedEnd others (dup_from mark flags t f r xs)
unfolding FdallocEnd
dup_from-CountedEnd others mark flags xs t f none count pos h = count
dup_from-CountedEnd others mark flags xs t f (some (fd, xs')) count pos h =
    let (t', e, one, same) = filedup-ref f t (λ z. omega (arith, z, pos, count f)) in
    rw e (λ i.
      refs-more others (λ j. 0) xs xs' t t' f count (λ j. omega (arith, h j)) one same i
      ∙ omega arith)

fcntl_arg-CountedEnd :
    (others : ℕ → ℕ) (limit cmd arg : ℕ) (flags : Flags) (xs : Ofile) (t : Table) (r : FdArg)
    → Counted others (xs, t)
    → ArgEnd xs r
    → CountedEnd others (fcntl_arg limit cmd arg flags (xs, t) r)
unfolding ArgEnd
fcntl_arg-CountedEnd others limit cmd arg flags xs t minus_one count h = count
fcntl_arg-CountedEnd others limit cmd arg flags xs t minus_two count h = count
fcntl_arg-CountedEnd others limit cmd arg flags xs t (found fd f) count h =
    let duplicated : (mark : ℕ → Flags → Flags)
        → CountedEnd others (dup_from mark flags t f (fdalloc2 f (arg % 2 ^ 32) limit xs) xs) =
      λ mark.
        dup_from-CountedEnd others mark flags xs t f (fdalloc2 f (arg % 2 ^ 32) limit xs) count
          (uses-found xs fd f h) (fdalloc2-FdallocEnd f (arg % 2 ^ 32) limit xs) in
    elim (Bool-cases (cmd == f_getfd)) [
      | inl a ↦ rw a count
      | inr a ↦ elim (Bool-cases (cmd == f_setfd)) [
        | inl b ↦ rw (a, b) count
        | inr b ↦ elim (Bool-cases (cmd == f_dupfd)) [
          | inl c ↦ rw (a, b, c) (duplicated (λ d m. m))
          | inr c ↦ elim (Bool-cases (cmd == f_dupfd_cloexec)) [
            | inl d ↦ rw (a, b, c, d) (duplicated (λ d m. set_flag m d 1))
            | inr d ↦ rw (a, b, c, d) count
          ]
        ]
      ]
    ]

-- sys_fcntl never panics, whatever the command and its argument, and keeps the counts: each file
-- has as many references as descriptors name it, and those of others.
pub sys_fcntl-Counted :
    (others : ℕ → ℕ) (limit fd cmd arg : ℕ) (flags : Flags) (xs : Ofile) (t : Table)
    → Counted others (xs, t)
    → CountedEnd others (sys_fcntl limit fd cmd arg flags (xs, t))
unfolding sys_fcntl
sys_fcntl-Counted others limit fd cmd arg flags xs t count =
    fcntl_arg-CountedEnd others limit cmd arg flags xs t (argfd fd xs) count (argfd-ArgEnd fd xs)
