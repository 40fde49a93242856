-- ===== src/User/Grep/Lines.antt =====
-- grep of user/grep.c on whole files: it prints the lines that match.
use mathlib.Core.Path.{subst}
use avx_loong_arch.Prelude.{
  ℕ, zero, suc, ◌+◌, ◌-◌, ◌≤◌, ◌<◌, ◌≡◌, refl, sym, ap, ◌∙◌, ◌≢◌, inl, inr, true, false, none, some,
  List, [], ◌∷◌, ◌++◌, append-nil, append_assoc, arith, ◌==◌, if◌then◌else◌, Bool-cases, eq_of_==,
  ne_of_==, ==_of_ne, length, take, drop, take-append-drop, length-drop, length-append, All, ok,
}
use avx_loong_arch.User.Grep.{newline, cut, printed_line, print_lines, grep}

-- The line in progress after one more byte.
abbrev pub after : List ℕ → ℕ → List ℕ
after line x = if x == newline then [] else line ++ x ∷ []

-- The line in progress behind the bytes.
abbrev pub last_line : List ℕ → List ℕ → List ℕ
last_line line [] = line
last_line line (x ∷ xs) = last_line (after line x) xs

-- The lines that a newline ends, where the first has begun with `line`.
abbrev pub lines : List ℕ → List ℕ → List (List ℕ)
lines line [] = []
lines line (x ∷ xs) =
    let rest = lines (after line x) xs in if x == newline then line ∷ rest else rest

-- Those that match, one after the other.
abbrev pub printed : List ℕ → List (List ℕ) → List ℕ
printed pattern [] = []
printed pattern (line ∷ ls) = printed_line pattern line ++ printed pattern ls

-- At no place is the line in progress as long as the buffer.
abbrev pub Short : List ℕ → List ℕ → Type 0
Short line [] = length line < 1023
Short line (x ∷ xs) = (length line < 1023) × Short (after line x) xs

abbrev pub Text : List ℕ → Type 0
Text xs = All (λ x. x ≢ 0) xs

-- What read does on a file: it takes no more than there is room for, nor than there is, but
-- something where it can.
pub record IsRead (read : ℕ → ℕ → ℕ) : Type 0 where
  pub within : (room left : ℕ) → read room left ≤ room
  pub at_most : (room left : ℕ) → read room left ≤ left
  pub some_byte : (room left : ℕ) → 0 < room → 0 < left → 0 < read room left

abbrev Plain : List ℕ → Type 0
Plain line = All (λ x. (x ≢ 0) × (x ≢ newline)) line

Plain-after : (line : List ℕ) (x : ℕ) → x ≢ 0 → x ≢ newline → Plain line → Plain (line ++ x ∷ [])
Plain-after [] x p q h = ((p, q), tt)
Plain-after (y ∷ line) x p q (h, hs) = (h, Plain-after line x p q hs)

cut-Plain : (line : List ℕ) → Plain line → cut line ≡ none
unfolding cut
cut-Plain [] h = refl
cut-Plain (x ∷ line) ((p, q), hs) = rw (==_of_ne p, ==_of_ne q, cut-Plain line hs) refl

cut-newline : (line xs : List ℕ) → Plain line → cut (line ++ newline ∷ xs) ≡ some (line, xs)
unfolding cut
cut-newline [] xs h = refl
cut-newline (x ∷ line) xs ((p, q), hs) = rw (==_of_ne p, ==_of_ne q, cut-newline line xs hs) refl

-- The inner loop prints the lines of the buffer, and leaves the one in progress.
print_lines_lem :
    (fuel : ℕ) (pattern line xs : List ℕ)
    → length xs < fuel
    → Plain line
    → Text xs
    → (print_lines fuel pattern (line ++ xs)
        ≡ ok (printed pattern (lines line xs), last_line line xs))
      × Plain (last_line line xs)
unfolding print_lines
print_lines_lem zero pattern line xs enough plain text = absurd (omega arith)
print_lines_lem (suc fuel) pattern line [] enough plain text =
    (rw (append-nil line) (rw (cut-Plain line plain, print_lines) refl), plain)
print_lines_lem (suc fuel) pattern line (x ∷ xs) enough plain (nz, text) =
    elim (Bool-cases (x == newline)) [
      | inl e ↦
          let (run, plain') = print_lines_lem fuel pattern [] xs (omega arith) tt text in
          let found : cut (line ++ x ∷ xs) ≡ some (line, xs) =
            rw (eq_of_== e) (cut-newline line xs plain) in
          rw e (rw (found, print_lines) (rw run refl), plain')
      | inr ne ↦
          let (run, plain') =
            print_lines_lem (suc fuel) pattern (line ++ x ∷ []) xs (omega arith)
              (Plain-after line x nz (ne_of_== ne) plain) text in
          rw ne (
            ap (print_lines (suc fuel) pattern) (sym (append_assoc line (x ∷ []) xs)) ∙ run,
            plain',
          )
    ]

last_line-Short : (line xs ys : List ℕ) → Short line (xs ++ ys) → Short (last_line line xs) ys
last_line-Short line [] ys h = h
last_line-Short line (x ∷ xs) ys (lt, h) = last_line-Short (after line x) xs ys h

Short-length : (line xs : List ℕ) → Short line xs → length line < 1023
Short-length line [] h = h
Short-length line (x ∷ xs) h = h.0

printed-lines-append :
    (pattern line xs ys : List ℕ)
    → printed pattern (lines line (xs ++ ys))
      ≡ printed pattern (lines line xs) ++ printed pattern (lines (last_line line xs) ys)
printed-lines-append pattern line [] ys = refl
printed-lines-append pattern line (x ∷ xs) ys =
    let rest = printed-lines-append pattern (after line x) xs ys in
    elim (Bool-cases (x == newline)) [
      | inl e ↦
          let rest' : printed pattern (lines [] (xs ++ ys))
              ≡ printed pattern (lines [] xs) ++ printed pattern (lines (last_line [] xs) ys) =
            rw e at rest in
          rw e (
            ap (λ t. printed_line pattern line ++ t) rest'
            ∙ sym (
                append_assoc (printed_line pattern line) (printed pattern (lines [] xs))
                  (printed pattern (lines (last_line [] xs) ys))))
      | inr ne ↦ rw ne (rw ne at rest)
    ]

Text-take : (n : ℕ) (xs : List ℕ) → Text xs → Text (take n xs)
Text-take zero xs h = tt
Text-take (suc n) [] h = tt
Text-take (suc n) (x ∷ xs) (p, h) = (p, Text-take n xs h)

Text-drop : (n : ℕ) (xs : List ℕ) → Text xs → Text (drop n xs)
Text-drop zero xs h = h
Text-drop (suc n) [] h = tt
Text-drop (suc n) (x ∷ xs) (p, h) = Text-drop n xs h

grep-printed :
    (read : ℕ → ℕ → ℕ) (fuel : ℕ) (pattern file line : List ℕ)
    → IsRead read
    → length file < fuel
    → Plain line
    → Text file
    → Short line file
    → grep read fuel pattern file line ≡ ok (printed pattern (lines line file))
unfolding grep
grep-printed read zero pattern file line r enough plain text short = absurd (omega arith)
grep-printed read (suc fuel) pattern [] line r enough plain text short =
    let none_left : (read (1024 - length line - 1) 0 == 0) ≡ true =
      ground (arith, r.at_most (1024 - length line - 1) 0) in
    rw none_left refl
grep-printed read (suc fuel) pattern (x ∷ file) line r enough plain text short =
    let whole = x ∷ file in
    let room = 1024 - length line - 1 in
    let n = read room (length whole) in
    let fits = Short-length line whole short in
    let pos : 0 < n = r.some_byte room (length whole) (omega (arith, fits)) (omega arith) in
    let some_read : (n == 0) ≡ false = ground (arith, pos) in
    let chunk = take n whole in
    let split = take-append-drop n whole in
    let short' : Short line (chunk ++ drop n whole) = subst (λ t. Short line t) (sym split) short in
    let (run, plain') =
      print_lines_lem (length (line ++ chunk) + 1) pattern line chunk
        (omega (arith, length-append line chunk)) plain (Text-take n whole text) in
    let rest =
      grep-printed read fuel pattern (drop n whole) (last_line line chunk) r
        (omega (arith, length-drop n whole, pos, enough)) plain' (Text-drop n whole text)
        (last_line-Short line chunk (drop n whole) short') in
    rw (some_read, run, rest)
      (ap ok (
        sym (printed-lines-append pattern line chunk (drop n whole))
        ∙ ap (λ t. printed pattern (lines line t)) split))

-- grep on a file without NUL bytes of which no line, the unfinished one at the end included, is as
-- long as 1023 bytes, however read cuts the file into pieces: it ends and writes those of the lines
-- that end in a newline and that match, in their order.
pub grep_lem :
    (read : ℕ → ℕ → ℕ) (pattern file : List ℕ)
    → IsRead read
    → Text file
    → Short [] file
    → grep read (length file + 1) pattern file [] ≡ ok (printed pattern (lines [] file))
grep_lem read pattern file r text short =
    grep-printed read (length file + 1) pattern file [] r (omega arith) tt text short

-- Where the line in progress fills the buffer, grep stops and writes nothing of what is behind it.
pub grep_full :
    (read : ℕ → ℕ → ℕ) (fuel : ℕ) (pattern file line : List ℕ)
    → IsRead read
    → 1023 ≤ length line
    → grep read (suc fuel) pattern file line ≡ ok []
unfolding grep
grep_full read fuel pattern file line r full =
    let stop : (read (1024 - length line - 1) (length file) == 0) ≡ true =
      ground (arith, r.within (1024 - length line - 1) (length file), full) in
    rw stop refl
