-- ===== src/Fat/Ecache/Children.antt =====
-- How many entries of the cache of kernel/fat32.c hold a reference to an entry as their parent.
use avx_loong_arch.Prelude.{
  ℕ, ◌+◌, ◌≡◌, refl, ap, inl, inr, Bool, true, false, ◌&&◌, not, List, [], ◌∷◌, arith, ltb, ◌==◌,
  Bool-cases, eq_of_==, ==_refl, has,
}
use avx_loong_arch.Fat.Ecache.{Entry, Entries, is_blank, set_entry, remove}

abbrev pub one_if : Bool → ℕ
one_if true = 1
one_if false = 0

-- The entry is used and holds a reference to i.
abbrev pub holds : Entry → ℕ → Bool
holds e i = not (is_blank e.valid) && ltb 0 e.ref && (e.parent == i)

abbrev pub children : Entries → ℕ → List ℕ → ℕ
children t i [] = 0
children t i (k ∷ ks) = one_if (holds (t k) i) + children t i ks

abbrev pub Distinct : List ℕ → Type 0
Distinct [] = Unit
Distinct (x ∷ xs) = (has x xs ≡ false) × Distinct xs

pub has-remove : (j k : ℕ) (xs : List ℕ) → has j xs ≡ false → has j (remove k xs) ≡ false
has-remove j k [] h = refl
has-remove j k (x ∷ xs) h = elim (Bool-cases (x == k)) [
  | inl e ↦ rw e (ground (arith, h))
  | inr ne ↦
      let a : (j == x) ≡ false = ground (arith, h) in
      let b : has j xs ≡ false = ground (arith, h) in rw (ne, a) (has-remove j k xs b)
]

pub has-remove_self : (k : ℕ) (xs : List ℕ) → Distinct xs → has k (remove k xs) ≡ false
has-remove_self k [] d = refl
has-remove_self k (x ∷ xs) (fresh, d) = elim (Bool-cases (x == k)) [
  | inl e ↦ rw e (rw (← eq_of_== e) fresh)
  | inr ne ↦ let a : (k == x) ≡ false = ground (arith, ne) in rw (ne, a) (has-remove_self k xs d)
]

pub remove-Distinct : (k : ℕ) (xs : List ℕ) → Distinct xs → Distinct (remove k xs)
remove-Distinct k [] d = tt
remove-Distinct k (x ∷ xs) (fresh, d) = elim (Bool-cases (x == k)) [
  | inl e ↦ rw e d
  | inr ne ↦ rw ne (has-remove x k xs fresh, remove-Distinct k xs d)
]

-- An entry of the list counted by itself.
pub children-remove :
    (t : Entries) (i k : ℕ) (xs : List ℕ)
    → has k xs ≡ true
    → children t i xs ≡ one_if (holds (t k) i) + children t i (remove k xs)
children-remove t i k [] h = absurd (ground (arith, h))
children-remove t i k (x ∷ xs) h = elim (Bool-cases (x == k)) [
  | inl e ↦ rw e (ap (λ y. one_if (holds (t y) i) + children t i xs) (eq_of_== e))
  | inr ne ↦
      let a : (k == x) ≡ false = ground (arith, ne) in
      let h' : has k xs ≡ true = ground (arith, a, h) in
      rw ne (omega (arith, children-remove t i k xs h'))
]

pub children-set_entry :
    (t : Entries) (i k : ℕ) (e : Entry) (xs : List ℕ)
    → has k xs ≡ false
    → children (set_entry t k e) i xs ≡ children t i xs
children-set_entry t i k e [] h = refl
children-set_entry t i k e (x ∷ xs) h =
    let a : (k == x) ≡ false = ground (arith, h) in
    let h' : has k xs ≡ false = ground (arith, h) in
    rw a (ap (λ n. one_if (holds (t x) i) + n) (children-set_entry t i k e xs h'))

-- A change of one entry of the list.
pub children-change :
    (t : Entries) (i k : ℕ) (e : Entry) (xs : List ℕ)
    → Distinct xs
    → has k xs ≡ true
    → children (set_entry t k e) i xs + one_if (holds (t k) i)
      ≡ children t i xs + one_if (holds e i)
children-change t i k e xs d h =
    let old = children-remove t i k xs h in
    let new = children-remove (set_entry t k e) i k xs h in
    let rest = children-set_entry t i k e (remove k xs) (has-remove_self k xs d) in
    let here : one_if (holds (set_entry t k e k) i) ≡ one_if (holds e i) = rw (==_refl k) refl in
    omega (arith, old, new, rest, here)
