-- ===== src/Fat/Ecache/Order.antt =====
-- The order of the list of the cache of kernel/fat32.c, and what the loops of eget find in it.
use mathlib.Core.Option.{none-ne-some}
use avx_loong_arch.Prelude.{
  ℕ, suc, ◌≤◌, ◌<◌, ◌≡◌, refl, sym, ap, ◌∙◌, ◌≢◌, inl, inr, true, false, ◌||◌, Option, none, some,
  List, [], ◌∷◌, arith, ◌==◌, if◌then◌else◌, Bool-cases, eq_of_==, ne_of_==, ==_refl, ==_of_ne, has,
}
use avx_loong_arch.Fat.Ecache.Children.{Distinct}
use avx_loong_arch.Fat.Ecache.{Entries, is_named, find_name, or_else, find_unused, remove}

-- The first place of an entry.
abbrev pub pos : ℕ → List ℕ → ℕ
pos j [] = 0
pos j (x ∷ xs) = if x == j then 0 else suc (pos j xs)

pub pos-remove :
    (p c k : ℕ) (xs : List ℕ)
    → p ≢ k
    → c ≢ k
    → pos p xs < pos c xs
    → pos p (remove k xs) < pos c (remove k xs)
pos-remove p c k [] np nc lt = lt
pos-remove p c k (x ∷ xs) np nc lt = elim (Bool-cases (x == k)) [
  | inl e ↦
      let a : (x == p) ≡ false = ground (arith, e, np) in
      let b : (x == c) ≡ false = ground (arith, e, nc) in
      let lt' : suc (pos p xs) < suc (pos c xs) = rw (a, b) at lt in rw e (omega (arith, lt'))
  | inr ne ↦ elim (Bool-cases (x == c)) [
    | inl at_c ↦
        let none_before : pos p (x ∷ xs) < 0 = rw at_c at lt in absurd (omega (arith, none_before))
    | inr not_c ↦ elim (Bool-cases (x == p)) [
      | inl at_p ↦ rw (ne, at_p, not_c) (omega arith)
      | inr not_p ↦
          let lt' : suc (pos p xs) < suc (pos c xs) = rw (not_p, not_c) at lt in
          rw (ne, not_p, not_c) (omega (arith, pos-remove p c k xs np nc (omega (arith, lt'))))
    ]
  ]
]

-- Moving an entry of the list to the front leaves the same entries in it.
pub has-front : (j k : ℕ) (xs : List ℕ) → has k xs ≡ true → has j (k ∷ remove k xs) ≡ has j xs
has-front j k [] h = absurd (ground (arith, h))
has-front j k (x ∷ xs) h = elim (Bool-cases (x == k)) [
  | inl e ↦ rw e (ap (λ y. (j == y) || has j xs) (sym (eq_of_== e)))
  | inr ne ↦
      let a : (k == x) ≡ false = ground (arith, ne) in
      let h' : has k xs ≡ true = ground (arith, a, h) in
      let ih : ((j == k) || has j (remove k xs)) ≡ has j xs = has-front j k xs h' in
      rw ne (ground (arith, ih))
]

pub find_name-found :
    (t : Entries) (parent : ℕ) (name xs : List ℕ) (k : ℕ)
    → find_name t parent name xs ≡ some k
    → (has k xs ≡ true) × (is_named (t k) parent name ≡ true)
unfolding find_name
find_name-found t parent name [] k h = absurd (cc)
find_name-found t parent name (x ∷ xs) k h = elim (Bool-cases (is_named (t x) parent name)) [
  | inl here ↦
      let h' : some x ≡ some k = rw here at h in
      let same : x ≡ k = cc in rw (← same) (rw (==_refl x) refl, here)
  | inr on ↦
      let h' : find_name t parent name xs ≡ some k = rw on at h in
      let (inside, named) = find_name-found t parent name xs k h' in (ground (arith, inside), named)
]

-- No entry of the list has the name in the directory.
abbrev pub Absent : Entries → ℕ → List ℕ → List ℕ → Type 0
Absent t parent name xs = (j : ℕ) → has j xs ≡ true → is_named (t j) parent name ≡ false

pub find_name-Absent :
    (t : Entries) (parent : ℕ) (name xs : List ℕ)
    → find_name t parent name xs ≡ none
    → Absent t parent name xs
unfolding find_name
find_name-Absent t parent name [] h j inside = absurd (ground (arith, inside))
find_name-Absent t parent name (x ∷ xs) h j inside =
    elim (Bool-cases (is_named (t x) parent name)) [
      | inl here ↦ let h' : some x ≡ none = rw here at h in absurd (none-ne-some x (sym h'))
      | inr other ↦
          let h' : find_name t parent name xs ≡ none = rw other at h in
          elim (Bool-cases (j == x)) [
            | inl same ↦ ap (λ k. is_named (t k) parent name) (eq_of_== same) ∙ other
            | inr apart ↦ find_name-Absent t parent name xs h' j (ground (arith, apart, inside))
          ]
    ]

-- The second loop finds the last entry that nobody uses.
abbrev pub Unused : Entries → List ℕ → Option ℕ → Type 0
Unused t xs none = (j : ℕ) → has j xs ≡ true → (t j).ref ≢ 0
Unused t xs (some k) =
    (has k xs ≡ true)
    × ((t k).ref ≡ 0)
    × ((j : ℕ) → has j xs ≡ true → (t j).ref ≡ 0 → pos j xs ≤ pos k xs)

Unused-cons :
    (t : Entries) (x : ℕ) (xs : List ℕ) (o : Option ℕ)
    → has x xs ≡ false
    → Unused t xs o
    → Unused t (x ∷ xs) (or_else o (if (t x).ref == 0 then some x else none))
Unused-cons t x xs (some k) fresh (inside, free, last) =
    let apart : (x == k) ≡ false = ==_of_ne (λ e. cc (ap (λ y. has y xs) e)) in
    (
      ground (arith, inside),
      free,
      λ j h zero_ref. elim (Bool-cases (x == j)) [
        | inl here ↦ rw (here, apart) (omega arith)
        | inr later ↦
            let h' : has j xs ≡ true = ground (arith, later, h) in
            rw (later, apart) (omega (arith, last j h' zero_ref))
      ],
    )
Unused-cons t x xs none fresh busy = elim (Bool-cases ((t x).ref == 0)) [
  | inl free ↦ rw free (
    rw (==_refl x) refl,
    eq_of_== free,
    λ j h zero_ref. elim (Bool-cases (x == j)) [
      | inl here ↦ rw here (omega arith)
      | inr later ↦ absurd (busy j (ground (arith, later, h)) zero_ref)
    ],
  )
  | inr used ↦ rw used (λ j h. elim (Bool-cases (x == j)) [
    | inl here ↦ rw (← eq_of_== here) (ne_of_== used)
    | inr later ↦ busy j (ground (arith, later, h))
  ])
]

pub find_unused-Unused : (t : Entries) (xs : List ℕ) → Distinct xs → Unused t xs (find_unused t xs)
unfolding find_unused
find_unused-Unused t [] d = λ j h. absurd (ground (arith, h))
find_unused-Unused t (x ∷ xs) (fresh, d) =
    Unused-cons t x xs (find_unused t xs) fresh (find_unused-Unused t xs d)
