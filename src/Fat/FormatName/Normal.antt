-- ===== src/Fat/FormatName/Normal.antt =====
-- formatname of kernel/fat32.c: a name that it returns is one that it leaves as it is.
use mathlib.Core.Option.{some-injective}
use mathlib.Core.Path.{subst}
use avx_loong_arch.Prelude.{
  ℕ, ◌≡◌, refl, sym, ap, ◌∙◌, inl, inr, Bool, false, ◌||◌, none, some, List, [], ◌∷◌, arith, ◌==◌,
  Bool-cases, Option-cases,
}
use avx_loong_arch.Fat.FormatName.{blank, strip_front, any_refused, trim_end, trimmed, formatname}

-- A character at which strip_front stops.
abbrev pub is_skipped : ℕ → Bool
is_skipped c = (c == blank) || (c == 46)

-- What strip_front leaves: nothing, or a name that begins with a character at which it stops.
abbrev pub Stripped : List ℕ → Type 0
Stripped [] = Unit
Stripped (c ∷ cs) = is_skipped c ≡ false

pub strip_front-Stripped : (name : List ℕ) → Stripped (strip_front name)
unfolding strip_front
strip_front-Stripped [] = tt
strip_front-Stripped (c ∷ cs) = elim (Bool-cases (is_skipped c)) [
  | inl e ↦ rw e (strip_front-Stripped cs)
  | inr e ↦ rw e e
]

strip_front_fixed : (name : List ℕ) → Stripped name → strip_front name ≡ name
unfolding strip_front
strip_front_fixed [] s = refl
strip_front_fixed (c ∷ cs) s = rw s refl

-- What trim_end keeps is a name on which it stops at once, with no character that was not there.
abbrev pub Trimmed : List ℕ → List ℕ → Type 0
Trimmed name cs =
    (trim_end cs ≡ some cs)
    × (any_refused name ≡ false → any_refused cs ≡ false)
    × (Stripped name → Stripped cs)

pub trim_end-Trimmed : (name cs : List ℕ) → trim_end name ≡ some cs → Trimmed name cs
unfolding trim_end any_refused
trim_end-Trimmed [] cs e = absurd (ground (arith, e))
trim_end-Trimmed (c ∷ name) cs e = elim (Option-cases (trim_end name)) [
  | inl stop ↦ elim (Bool-cases (c == blank)) [
    | inl is_blank ↦
        let nothing : none ≡ some cs = sym (rw (stop, is_blank) refl) ∙ e in
        absurd (ground (arith, nothing))
    | inr ends ↦
        let same : some (c ∷ []) ≡ some cs = sym (rw (stop, ends) refl) ∙ e in
        subst (Trimmed (c ∷ name)) (some-injective _ _ same)
          ((rw ends refl, (λ all. ground (arith, all)), λ first. first))
  ]
  | inr (r, kept) ↦
      let same : some (c ∷ r) ≡ some cs = sym (rw kept refl) ∙ e in
      let (again, allowed, first) = trim_end-Trimmed name r kept in
      subst (Trimmed (c ∷ name)) (some-injective _ _ same)
        ((rw again refl, (λ all. ground (arith, all, allowed)), λ s. s))
]

pub trim_end_stops :
    (c : ℕ) (cs : List ℕ) → is_skipped c ≡ false → (cs' : List ℕ) × (trim_end (c ∷ cs) ≡ some cs')
unfolding trim_end
trim_end_stops c cs s = elim (Option-cases (trim_end cs)) [
  | inl stop ↦ let ends : (c == blank) ≡ false = ground (arith, s) in (c ∷ [], rw (stop, ends) refl)
  | inr (r, kept) ↦ (c ∷ r, rw kept refl)
]

abbrev Fixed : List ℕ → Type 0
Fixed n = (any_refused n ≡ false) × (formatname n ≡ some n)

formatname-Fixed :
    (n : List ℕ) → Stripped n → any_refused n ≡ false → trimmed n (trim_end n) ≡ n → Fixed n
unfolding formatname
formatname-Fixed n stripped good ends = (good, rw (strip_front_fixed n stripped, good, ends) refl)

trimmed-Fixed : (s : List ℕ) → any_refused s ≡ false → Stripped s → Fixed (trimmed s (trim_end s))
unfolding trim_end
trimmed-Fixed [] good stripped = formatname-Fixed [] tt good refl
trimmed-Fixed (c ∷ cs) good stripped =
    let (r, kept) = trim_end_stops c cs stripped in
    let (again, allowed, first) = trim_end-Trimmed (c ∷ cs) r kept in
    let fixed : trimmed r (trim_end r) ≡ r = ap (trimmed r) again in
    subst (λ o. Fixed (trimmed (c ∷ cs) o)) (sym kept)
      (formatname-Fixed r (first stripped) (allowed good) fixed)

-- Where formatname returns a name, no character of that is refused, and formatname returns the same
-- name for it.
pub formatname_twice :
    (name n : List ℕ) → formatname name ≡ some n → (any_refused n ≡ false) × (formatname n ≡ some n)
unfolding formatname
formatname_twice name n e = elim (Bool-cases (any_refused (strip_front name))) [
  | inl bad ↦
      let nothing : none ≡ some n = sym (rw bad refl) ∙ e in absurd (ground (arith, nothing))
  | inr good ↦
      let same : some (trimmed (strip_front name) (trim_end (strip_front name))) ≡ some n =
        sym (rw good refl) ∙ e in
      subst Fixed (some-injective _ _ same)
        (trimmed-Fixed (strip_front name) good (strip_front-Stripped name))
]
