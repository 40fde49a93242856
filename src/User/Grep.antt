-- ===== src/User/Grep.antt =====
-- user/grep.c: the matcher, and the loop that cuts what it reads into lines. A text is the list of
-- its bytes before the NUL.
pub mod Regex
pub mod Lines
mod Examples
use avx_loong_arch.Prelude.{
  ℕ, zero, suc, ◌+◌, ◌-◌, Bool, true, false, ◌||◌, Option, none, some, List, [], ◌∷◌, ◌++◌, ◌==◌,
  if◌then◌else◌, length, take, drop, Outcome, ok, out_of_fuel, ◌>>=◌,
}

abbrev pub caret : ℕ
caret = b'^'

abbrev pub dollar : ℕ
dollar = b'$'

abbrev pub star : ℕ
star = b'*'

-- The character of the pattern takes the character of the text: `re[0] == '.' || re[0] == *text`.
abbrev pub fits : ℕ → ℕ → Bool
fits c x = (c == b'.') || (c == x)

-- matchstar, with `here` for matchhere on the rest of the pattern.
pub matchstar : (List ℕ → Bool) → ℕ → List ℕ → Bool
matchstar here c [] = here []
matchstar here c (x ∷ text) =
    let rest = matchstar here c text in
    if here (x ∷ text) then true else if fits c x then rest else false

abbrev pub is_end : List ℕ → Bool
is_end [] = true
is_end (x ∷ text) = false

-- The last test of matchhere, with matchhere on the rest of the pattern.
abbrev pub match_one : (List ℕ → Bool) → ℕ → List ℕ → Bool
match_one here c [] = false
match_one here c (x ∷ text) = if fits c x then here text else false

pub matchhere : List ℕ → List ℕ → Bool
matchhere [] text = true
matchhere (c ∷ []) text = if c == dollar then is_end text else match_one (matchhere []) c text
matchhere (c ∷ d ∷ re) text =
    let many = matchstar (matchhere re) c text in
    let one = match_one (matchhere (d ∷ re)) c text in if d == star then many else one

-- The loop of match.
pub match_from : (List ℕ → Bool) → List ℕ → Bool
match_from here [] = here []
match_from here (x ∷ text) =
    let rest = match_from here text in if here (x ∷ text) then true else rest

pub match : List ℕ → List ℕ → Bool
match [] text = match_from (matchhere []) text
match (c ∷ re) text = if c == caret then matchhere re text else match_from (matchhere (c ∷ re)) text

abbrev pub newline : ℕ
newline = 10

-- `strchr(p, '\n')`: the text before the newline and that behind it.
pub cut : List ℕ → Option (List ℕ × List ℕ)
cut [] = none
cut (x ∷ p) =
    let rest : Option (List ℕ × List ℕ) = elim (cut p) [
      | none ↦ none
      | some (line, q) ↦ some (x ∷ line, q)
    ] in
    if x == 0 then none else if x == newline then some ([], p) else rest

abbrev pub printed_line : List ℕ → List ℕ → List ℕ
printed_line pattern line = if match pattern line then line ++ newline ∷ [] else []

-- The inner loop of grep: what it writes, and what is left in the buffer.
pub print_lines : ℕ → List ℕ → List ℕ → Outcome (List ℕ × List ℕ)
print_lines zero pattern p = out_of_fuel
print_lines (suc fuel) pattern p = elim (cut p) [
  | none ↦ ok ([], p)
  | some (line, q) ↦
      print_lines fuel pattern q >>= λ (out, left). ok (printed_line pattern line ++ out, left)
]

-- grep on a file of which the bytes `file` are not read; `read` says how many of the bytes left a
-- read takes for a capacity, with 0 for an error too.
pub grep : (read : ℕ → ℕ → ℕ) → ℕ → List ℕ → (file buf : List ℕ) → Outcome (List ℕ)
grep read zero pattern file buf = out_of_fuel
grep read (suc fuel) pattern file buf =
    let n = read (1024 - length buf - 1) (length file) in
    let buf' = buf ++ take n file in
    let rest = print_lines (length buf' + 1) pattern buf' >>= λ (out, left).
    grep read fuel pattern (drop n file) left >>= λ more. ok (out ++ more) in
    if n == 0 then ok [] else rest
