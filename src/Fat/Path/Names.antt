-- ===== src/Fat/Path/Names.antt =====
-- skipelem of kernel/fat32.c on whole paths: the names come out as they were put together.
use avx_loong_arch.Prelude.{
  ℕ, zero, suc, ◌+◌, ◌<◌, ◌≡◌, refl, ap, ◌∙◌, inl, inr, false, none, some, List, [], ◌∷◌, ◌++◌,
  arith, ◌==◌, Bool-cases, length, replicate, has, ok, ◌>>=◌,
}
use avx_loong_arch.Fat.Path.{
  slash, fat32_max_filename, skip_slashes, split_name, first_chars, next_elem, skipelem, names_from,
  path_names,
}

-- A name in a path: not empty, and no slash in it.
abbrev pub IsName : List ℕ → Type 0
IsName cs = (0 < length cs) × (has slash cs ≡ false)

-- The path with n + 1 slashes before each name, where n goes with the name, and the slashes at
-- its end.
abbrev pub render : List (ℕ × List ℕ) → ℕ → List ℕ
render [] end = replicate end slash
render ((n, name) ∷ names) end = slash ∷ replicate n slash ++ (name ++ render names end)

abbrev pub names_of : List (ℕ × List ℕ) → List (List ℕ)
names_of [] = []
names_of ((n, name) ∷ names) = first_chars fat32_max_filename name ∷ names_of names

abbrev pub AllNames : List (ℕ × List ℕ) → Type 0
AllNames [] = Unit
AllNames ((n, name) ∷ names) = IsName name × AllNames names

skip_slashes-replicate :
    (n : ℕ) (cs : List ℕ) → skip_slashes (replicate n slash ++ cs) ≡ skip_slashes cs
unfolding skip_slashes
skip_slashes-replicate zero cs = refl
skip_slashes-replicate (suc n) cs = skip_slashes-replicate n cs

skip_slashes-end : (n : ℕ) → skip_slashes (replicate n slash) ≡ []
unfolding skip_slashes
skip_slashes-end zero = refl
skip_slashes-end (suc n) = skip_slashes-end n

-- A name is not skipped.
skip_slashes-name : (name cs : List ℕ) → IsName name → skip_slashes (name ++ cs) ≡ name ++ cs
unfolding skip_slashes
skip_slashes-name [] cs (ne, h) = absurd (omega (arith, ne))
skip_slashes-name (c ∷ name) cs (ne, h) =
    let other : (c == slash) ≡ false = ground (arith, h) in rw other refl

-- A path behind a name begins with a slash or is at its end.
abbrev Ends : List ℕ → Type 0
Ends [] = Unit
Ends (c ∷ cs) = c ≡ slash

split_name-append :
    (name cs : List ℕ) → has slash name ≡ false → Ends cs → split_name (name ++ cs) ≡ (name, cs)
unfolding split_name
split_name-append [] [] h ends = refl
split_name-append [] (c ∷ cs) h ends = rw ends refl
split_name-append (c ∷ name) cs h ends =
    let other : (c == slash) ≡ false = ground (arith, h) in
    let rest : has slash name ≡ false = ground (arith, h) in
    rw (other, split_name-append name cs rest ends) refl

render-Ends : (names : List (ℕ × List ℕ)) (end : ℕ) → Ends (render names end)
render-Ends [] zero = tt
render-Ends [] (suc end) = refl
render-Ends ((n, name) ∷ names) end = refl

skip_slashes-twice : (cs : List ℕ) → skip_slashes (skip_slashes cs) ≡ skip_slashes cs
unfolding skip_slashes
skip_slashes-twice [] = refl
skip_slashes-twice (c ∷ cs) = elim (Bool-cases (c == slash)) [
  | inl e ↦ rw e (skip_slashes-twice cs)
  | inr ne ↦ rw (ne, ne) refl
]

next_elem-name :
    (name cs : List ℕ)
    → IsName name
    → Ends cs
    → next_elem (name ++ cs) ≡ some (first_chars fat32_max_filename name, skip_slashes cs)
next_elem-name [] cs (ne, h) ends = absurd (omega (arith, ne))
next_elem-name (c ∷ name) cs (ne, h) ends = rw (split_name-append (c ∷ name) cs h ends) refl

skip_slashes-render :
    (n : ℕ) (name rest : List ℕ)
    → IsName name
    → skip_slashes (slash ∷ replicate n slash ++ (name ++ rest)) ≡ name ++ rest
skip_slashes-render n name rest h =
    skip_slashes-replicate (suc n) (name ++ rest) ∙ skip_slashes-name name rest h

skipelem-skip : (path rest : List ℕ) → skip_slashes path ≡ rest → skipelem path ≡ next_elem rest
unfolding skipelem
skipelem-skip path rest e = ap next_elem e

path_names-end :
    (fuel : ℕ) (path : List ℕ) → skipelem path ≡ none → path_names (suc fuel) path ≡ ok []
unfolding path_names
path_names-end fuel path e = ap (names_from (path_names fuel)) e

path_names-next :
    (fuel : ℕ) (path name rest : List ℕ) (names : List (List ℕ))
    → skipelem path ≡ some (name, rest)
    → path_names fuel rest ≡ ok names
    → path_names (suc fuel) path ≡ ok (name ∷ names)
unfolding path_names
path_names-next fuel path name rest names e e' =
    ap (names_from (path_names fuel)) e ∙ ap (λ r. r >>= λ q. ok (name ∷ q)) e'

path_names-render :
    (fuel : ℕ) (names : List (ℕ × List ℕ)) (end : ℕ) (path : List ℕ)
    → length names < fuel
    → AllNames names
    → skip_slashes path ≡ skip_slashes (render names end)
    → path_names fuel path ≡ ok (names_of names)
path_names-render zero names end path enough each e = absurd (omega arith)
path_names-render (suc fuel) [] end path enough each e =
    path_names-end fuel path (skipelem-skip path [] (e ∙ skip_slashes-end end))
path_names-render (suc fuel) ((n, name) ∷ names) end path enough (h, each) e =
    let rest = render names end in
    path_names-next fuel path (first_chars fat32_max_filename name) (skip_slashes rest)
      (names_of names)
      (skipelem-skip path (name ++ rest) (e ∙ skip_slashes-render n name rest h)
        ∙ next_elem-name name rest h (render-Ends names end))
      (path_names-render fuel names end (skip_slashes rest) (omega arith) each
        (skip_slashes-twice rest))

-- Calling skipelem until it returns NULL, as the condition of lookup_path's loop does, gives the
-- names that the path was put together from, in order, each cut to 255 characters. The path may
-- begin with any number of slashes, or with none, has one or more between two names, and any number
-- at its end.
pub path_names_lem :
    (lead : ℕ) (first : List ℕ) (names : List (ℕ × List ℕ)) (end fuel : ℕ)
    → IsName first
    → AllNames names
    → length names + 1 < fuel
    → path_names fuel (replicate lead slash ++ (first ++ render names end))
      ≡ ok (first_chars fat32_max_filename first ∷ names_of names)
path_names_lem lead first names end zero h each enough = absurd (omega arith)
path_names_lem lead first names end (suc fuel) h each enough =
    let rest = render names end in
    let path = replicate lead slash ++ (first ++ rest) in
    let skipped : skip_slashes path ≡ first ++ rest =
      skip_slashes-replicate lead (first ++ rest) ∙ skip_slashes-name first rest h in
    path_names-next fuel path (first_chars fat32_max_filename first) (skip_slashes rest)
      (names_of names)
      (skipelem-skip path (first ++ rest) skipped
        ∙ next_elem-name first rest h (render-Ends names end))
      (path_names-render fuel names end (skip_slashes rest) (omega arith) each
        (skip_slashes-twice rest))
