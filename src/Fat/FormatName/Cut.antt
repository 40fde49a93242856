-- ===== src/Fat/FormatName/Cut.antt =====
-- formatname of kernel/fat32.c against a description of its own: which part of the name it returns,
-- and for which names it returns 0.
use avx_loong_arch.Prelude.{
  ℕ, ◌≤◌, ◌<◌, ◌≡◌, ◌≢◌, ◌⊎◌, Option, none, some, List, [], ◌∷◌, ◌++◌, All,
}

-- A printing character of ASCII that is none of " * / : < > ? \ |
abbrev pub IsLegal : ℕ → Type 0
IsLegal c =
    (0x20 ≤ c)
    × (c < 128)
    × (c ≢ 34)
    × (c ≢ 42)
    × (c ≢ 47)
    × (c ≢ 58)
    × (c ≢ 60)
    × (c ≢ 62)
    × (c ≢ 63)
    × (c ≢ 92)
    × (c ≢ 124)

-- The first character is no blank and no dot, the last one no blank.
abbrev pub Begins : List ℕ → Type 0
Begins [] = ⊥
Begins (c ∷ cs) = (c ≢ 32) × (c ≢ 46)

abbrev pub Ends : List ℕ → Type 0
Ends [] = ⊥
Ends (c ∷ []) = c ≢ 32
Ends (c ∷ d ∷ cs) = Ends (d ∷ cs)

-- A name n that is the part of `name` between blanks and dots in front and blanks behind; or, for
-- 0, a character that is not legal.
abbrev pub FormatEnd : List ℕ → Option (List ℕ) → Type 0
FormatEnd name (some n) =
    (front : List ℕ) × (back : List ℕ) × (name ≡ front ++ (n ++ back))
    × All (λ c. (c ≡ 32) ⊎ (c ≡ 46)) front
    × All (λ c. c ≡ 32) back
    × All IsLegal n
    × ((n ≡ []) ⊎ Begins n × Ends n)
FormatEnd name none =
    (front : List ℕ) × (c : ℕ) × (back : List ℕ) × (name ≡ front ++ (c ∷ back)) × (IsLegal c → ⊥)

-- The name is the part that is kept and blanks.
abbrev Cut : List ℕ → List ℕ → Type 0
Cut name cs = (back : List ℕ) × (name ≡ cs ++ back) × All (λ c. c ≡ 32) back × Ends cs
