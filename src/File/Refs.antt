-- ===== src/File/Refs.antt =====
-- The reference counts of kernel/file.c: allocating, duplicating and closing files.
use mathlib.Core.Path.{subst}
use avx_loong_arch.Prelude.{
  ℕ, zero, suc, ◌+◌, ◌≤◌, ◌<◌, ◌≡◌, refl, ◌∙◌, sym, ◌≢◌, inl, inr, true, ==_of_ne, ◌-◌, false,
  Option, none, some, List, [], ◌∷◌, ◌++◌, arith, ltb, ◌==◌, InRange, InRange-cons, Bool-cases,
  eq_of_==, ne_of_==, ==_refl, replicate, Outcome, ok, panic, ◌>>=◌,
}
use avx_loong_arch.File.{
  fd_none, nfile, Table, set_file, filealloc_loop, filealloc, filedup, Closing, nothing, closing,
  fileclose,
}

-- How filealloc ends on the `left` files from k on.
abbrev pub Allocated : ℕ → ℕ → Table → Option (ℕ × Table) → Type 0
Allocated left k t none = InRange (λ j. (t j).ref ≢ 0) k left
Allocated left k t (some (i, u)) =
    (k ≤ i)
    × (i < k + left)
    × ((t i).ref ≡ 0)
    × ((j : ℕ) → k ≤ j → j < i → (t j).ref ≢ 0)
    × ((u i).ref ≡ 1)
    × ((j : ℕ) → j ≢ i → u j ≡ t j)

Allocated-suc :
    (left k : ℕ) (t : Table) (r : Option (ℕ × Table))
    → (t k).ref ≢ 0
    → Allocated left (k + 1) t r
    → Allocated (suc left) k t r
Allocated-suc left k t none busy all = InRange-cons (λ j. (t j).ref ≢ 0) k left busy all
Allocated-suc left k t (some (i, u)) busy (lo, hi, free, before, one, same) = (
  omega arith,
  omega arith,
  free,
  λ j l m. elim (Bool-cases (k == j)) [
    | inl here ↦ subst (λ x. (t x).ref ≢ 0) (eq_of_== here) busy
    | inr past ↦ let apart = ne_of_== past in before j (omega arith) m
  ],
  one,
  same,
)

filealloc_loop-Allocated : (left k : ℕ) (t : Table) → Allocated left k t (filealloc_loop left k t)
unfolding filealloc_loop
filealloc_loop-Allocated zero k t = λ j lo hi. absurd (omega arith)
filealloc_loop-Allocated (suc left) k t = elim (Bool-cases ((t k).ref == 0)) [
  | inl free ↦ rw free (
    omega arith,
    omega arith,
    eq_of_== free,
    λ j l m. absurd (omega arith),
    ground arith,
    λ j ne. ground arith,
  )
  | inr busy ↦ rw busy (
      Allocated-suc left k t (filealloc_loop left (k + 1) t) (ne_of_== busy)
        (filealloc_loop-Allocated left (k + 1) t))
]

-- filealloc takes the first file that nobody uses, gives it one user and changes no other; it
-- answers NULL only when every file of the table is in use.
pub filealloc-Allocated : (t : Table) → Allocated nfile 0 t (filealloc t)
unfolding filealloc
filealloc-Allocated t = filealloc_loop-Allocated nfile 0 t

-- A filedup of a file in use, undone by a fileclose, which hands nothing on.
pub filedup-fileclose :
    (i : ℕ) (t : Table)
    → (t i).ref ≢ 0
    → (u v : Table) × (filedup i t ≡ ok u)
      × (fileclose i u ≡ ok (nothing, v))
      × ((j : ℕ) → v j ≡ t j)
unfolding filedup fileclose
filedup-fileclose i t ne =
    let f = t i in
    let u = set_file t i (record f { ref = f.ref + 1 }) in
    let used : ltb f.ref 1 ≡ false = ground arith in
    let here : (i == i) ≡ true = ==_refl i in
    let more : ltb (f.ref + 1) 1 ≡ false = ground arith in
    let others : ltb 0 (f.ref + 1 - 1) ≡ true = ground arith in
    (
      u,
      set_file u i (record (u i) { ref = (u i).ref - 1 }),
      rw used,
      rw (here, more, others),
      λ j. elim (Bool-cases (i == j)) [
        | inl e ↦ let back : f.ref + 1 - 1 ≡ f.ref = omega arith in rw (e, here, back, ← eq_of_== e)
        | inr e ↦ rw e
      ],
    )

fileclose-more :
    (i n : ℕ) (t : Table)
    → (t i).ref ≡ suc (suc n)
    → fileclose i t ≡ ok (nothing, set_file t i (record (t i) { ref = suc n }))
unfolding fileclose
fileclose-more i n t e =
    let used : ltb (t i).ref 1 ≡ false = ground arith in
    let others : ltb 0 ((t i).ref - 1) ≡ true = ground arith in
    let less : (t i).ref - 1 ≡ suc n = omega arith in rw (used, others, less)

fileclose-last :
    (i : ℕ) (t : Table)
    → (t i).ref ≡ 1
    → fileclose i t
      ≡ ok (
        closing (t i).kind (t i).writable,
        set_file t i (record (t i) { ref = 0; kind = fd_none }),
      )
unfolding fileclose
fileclose-last i t e =
    let used : ltb (t i).ref 1 ≡ false = ground arith in
    let others : ltb 0 ((t i).ref - 1) ≡ false = ground arith in rw (used, others)

fileclose-unused : (i : ℕ) (t : Table) → (t i).ref ≡ 0 → fileclose i t ≡ panic
unfolding fileclose
fileclose-unused i t e = let free : ltb (t i).ref 1 ≡ true = ground arith in rw free

-- fileclose, n times, and what it hands on.
pub close_n : ℕ → ℕ → Table → Outcome (List Closing × Table)
close_n zero i t = ok ([], t)
close_n (suc n) i t = fileclose i t >>= λ (c, u). (close_n n i u >>= λ (cs, v). ok (c ∷ cs, v))

-- A file with n + 1 users is closed by n + 1 calls of fileclose: the first n hand nothing on, the
-- last hands on what stands behind the file, and leaves it unused; one call more panics. No other
-- file changes.
pub close_n_lem :
    (n i : ℕ) (t : Table)
    → (t i).ref ≡ suc n
    → (u : Table) × (close_n (suc n) i t
        ≡ ok (replicate n nothing ++ closing (t i).kind (t i).writable ∷ [], u))
      × ((u i).ref ≡ 0)
      × (fileclose i u ≡ panic)
      × ((j : ℕ) → j ≢ i → u j ≡ t j)
unfolding close_n
close_n_lem zero i t e =
    let u = set_file t i (record (t i) { ref = 0; kind = fd_none }) in
    let free : (u i).ref ≡ 0 = rw (==_refl i) in
    (u, rw (fileclose-last i t e), free, fileclose-unused i u free, λ j ne. ground arith)
close_n_lem (suc n) i t e =
    let u = set_file t i (record (t i) { ref = suc n }) in
    let at_i : u i ≡ record (t i) { ref = suc n } = rw (==_refl i) in
    let (v, run, free, stop, same) = close_n_lem n i u (rw at_i) in
    let kind : (u i).kind ≡ (t i).kind = rw at_i in
    let writable : (u i).writable ≡ (t i).writable = rw at_i in
    (
      v,
      rw (fileclose-more i n t e, run, kind, writable),
      free,
      stop,
      λ j ne. same j ne ∙ ground arith,
    )

-- The count of the one file after filedup and fileclose; the other files are as before.
pub filedup-ref :
    (i : ℕ) (t : Table)
    → (t i).ref ≢ 0
    → (t' : Table) × (filedup i t ≡ ok t')
      × ((t' i).ref ≡ (t i).ref + 1)
      × ((j : ℕ) → j ≢ i → t' j ≡ t j)
unfolding filedup
filedup-ref i t ne =
    let used : ltb (t i).ref 1 ≡ false = ground (arith, ne) in
    (
      set_file t i (record (t i) { ref = (t i).ref + 1 }),
      rw used refl,
      rw (==_refl i) refl,
      λ j other. rw (==_of_ne (λ e. other (sym e))) refl,
    )

pub fileclose-ref :
    (i : ℕ) (t : Table)
    → (t i).ref ≢ 0
    → (c : Closing) × (t' : Table) × (fileclose i t ≡ ok (c, t'))
      × ((t' i).ref + 1 ≡ (t i).ref)
      × ((j : ℕ) → j ≢ i → t' j ≡ t j)
unfolding fileclose
fileclose-ref i t ne =
    let used : ltb (t i).ref 1 ≡ false = ground (arith, ne) in
    elim (Bool-cases (ltb 0 ((t i).ref - 1))) [
      | inl more ↦ (
        nothing,
        set_file t i (record (t i) { ref = (t i).ref - 1 }),
        rw (used, more) refl,
        rw (==_refl i) (omega (arith, ne)),
        λ j other. rw (==_of_ne (λ e. other (sym e))) refl,
      )
      | inr last ↦ (
        closing (t i).kind (t i).writable,
        set_file t i (record (t i) { ref = 0; kind = fd_none }),
        rw (used, last) refl,
        rw (==_refl i) (ground (arith, ne, last)),
        λ j other. rw (==_of_ne (λ e. other (sym e))) refl,
      )
    ]
