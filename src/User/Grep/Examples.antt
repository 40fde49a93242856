-- ===== src/User/Grep/Examples.antt =====
-- The theorems of user/grep.c at small patterns and files.
use avx_loong_arch.Prelude.{
  ℕ, ◌+◌, ◌≡◌, ◌↔◌, refl, true, false, List, [], ◌∷◌, arith, length, ok, min,
}
use avx_loong_arch.User.Grep.Regex.{Found, match-Found}
use avx_loong_arch.User.Grep.Lines.{lines, printed, grep_lem}
use avx_loong_arch.User.Grep.{matchstar, matchhere, match_from, match, cut, print_lines, grep}

-- ^ab*c$
abbrev pattern_abc : List ℕ
pattern_abc = b'^' ∷ b'a' ∷ b'b' ∷ b'*' ∷ b'c' ∷ b'$' ∷ []

match_abbc : match pattern_abc (b'a' ∷ b'b' ∷ b'b' ∷ b'c' ∷ []) ≡ true
unfolding match matchhere matchstar match_from
match_abbc = refl

match_abcd : match pattern_abc (b'a' ∷ b'b' ∷ b'c' ∷ b'd' ∷ []) ≡ false
unfolding match matchhere matchstar match_from
match_abcd = refl

match-Found_example :
    (match pattern_abc (b'a' ∷ b'c' ∷ []) ≡ true) ↔ Found pattern_abc (b'a' ∷ b'c' ∷ [])
match-Found_example = match-Found pattern_abc (b'a' ∷ b'c' ∷ [])

-- Two lines, and one that no newline ends, read two bytes at a time.
abbrev two_lines : List ℕ
two_lines = b'a' ∷ b'c' ∷ 10 ∷ b'x' ∷ 10 ∷ b'a' ∷ []

abbrev read_two : ℕ → ℕ → ℕ
read_two room left = min 2 (min room left)

grep-two_lines : grep read_two 7 pattern_abc two_lines [] ≡ ok (b'a' ∷ b'c' ∷ 10 ∷ [])
unfolding grep print_lines cut match matchhere matchstar match_from
grep-two_lines = refl

grep_lem_example :
    grep read_two (length two_lines + 1) pattern_abc two_lines []
    ≡ ok (printed pattern_abc (lines [] two_lines))
grep_lem_example =
    grep_lem read_two pattern_abc two_lines
      (record {
        within = λ room left. omega arith;
        at_most = λ room left. omega arith;
        some_byte = λ room left p q. omega arith;
      })
      (omega arith) (omega arith)
