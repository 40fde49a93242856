-- ===== src/User/Grep/Regex.antt =====
-- What a pattern of user/grep.c means, and that match decides it.
use mathlib.Core.Path.{subst}
use avx_loong_arch.Prelude.{
  ℕ, ◌≡◌, refl, sym, ap, ◌↔◌, inl, inr, Bool, true, false, List, [], ◌∷◌, ◌++◌, arith, ◌==◌,
  if◌then◌else◌, Bool-cases,
}
use avx_loong_arch.User.Grep.{
  caret, dollar, star, fits, matchstar, is_end, match_one, matchhere, match_from, match,
}

-- One character, or any number of the same.
pub data Item : Type 0 where
  one : ℕ → Item
  many : ℕ → Item

-- The texts that a sequence of items matches as a whole.
pub data Matches : List Item → List ℕ → Type 0 where
  empty : Matches [] []
  take :
      {c x : ℕ} {p : List Item} {s : List ℕ}
      → fits c x ≡ true
      → Matches p s
      → Matches (one c ∷ p) (x ∷ s)
  leave : {c : ℕ} {p : List Item} {s : List ℕ} → Matches p s → Matches (many c ∷ p) s
  again :
      {c x : ℕ} {p : List Item} {s : List ℕ}
      → fits c x ≡ true
      → Matches (many c ∷ p) s
      → Matches (many c ∷ p) (x ∷ s)

-- A pattern without its `^`: the items, and whether a `$` ends it.
pub record Pattern : Type 0 where
  pub items : List Item
  pub at_end : Bool

abbrev pub behind : Item → Pattern → Pattern
behind i p = record p { items = i ∷ p.items }

unfoldable pub parse : List ℕ → Pattern
parse [] = record { items = []; at_end = false }
parse (c ∷ []) =
    if c == dollar
    then record { items = []; at_end = true }
    else record { items = one c ∷ []; at_end = false }
parse (c ∷ d ∷ re) =
    let starred = behind (many c) (parse re) in
    let plain = behind (one c) (parse (d ∷ re)) in if d == star then starred else plain

-- The text begins with what the pattern matches, and is no longer where a `$` ends it.
abbrev pub MatchesHere : List Item → Bool → List ℕ → Type 0
MatchesHere p at_end text =
    (s : List ℕ) × (after : List ℕ) × (text ≡ s ++ after)
    × Matches p s
    × (at_end ≡ true → after ≡ [])

-- So it does from some place on.
abbrev pub MatchesFrom : Pattern → List ℕ → Type 0
MatchesFrom p text =
    (before : List ℕ) × (rest : List ℕ) × (text ≡ before ++ rest)
    × MatchesHere p.items p.at_end rest

abbrev pub Found : List ℕ → List ℕ → Type 0
Found [] text = MatchesFrom (parse []) text
Found (c ∷ re) text =
    if c == caret
    then MatchesHere (parse re).items (parse re).at_end text
    else MatchesFrom (parse (c ∷ re)) text

matchstar→ :
    (here : List ℕ → Bool) (c : ℕ) (p : List Item) (e : Bool)
    → ((t : List ℕ) → here t ≡ true → MatchesHere p e t)
    → (text : List ℕ) → matchstar here c text ≡ true
    → MatchesHere (many c ∷ p) e text
unfolding matchstar
matchstar→ here c p e sound [] h =
    let (s, after, eq, d, end) = sound [] h in (s, after, eq, leave d, end)
matchstar→ here c p e sound (x ∷ text) h = elim (Bool-cases (here (x ∷ text))) [
  | inl yes_here ↦
      let (s, after, eq, d, end) = sound (x ∷ text) yes_here in (s, after, eq, leave d, end)
  | inr not_here ↦ elim (Bool-cases (fits c x)) [
    | inl fit ↦
        let go : matchstar here c text ≡ true = rw (not_here, fit) at h in
        let (s, after, eq, d, end) = matchstar→ here c p e sound text go in
        (x ∷ s, after, ap (λ t. x ∷ t) eq, again fit d, end)
    | inr misfit ↦ absurd (ground (arith, not_here, misfit, h))
  ]
]

matchstar← :
    (here : List ℕ → Bool) (c : ℕ) (p : List Item) (e : Bool)
    → ((t : List ℕ) → MatchesHere p e t → here t ≡ true)
    → (text s after : List ℕ) → text ≡ s ++ after
    → Matches (many c ∷ p) s
    → (e ≡ true → after ≡ [])
    → matchstar here c text ≡ true
unfolding matchstar
matchstar← here c p e complete [] s after eq (leave d) end = complete [] (s, after, eq, d, end)
matchstar← here c p e complete [] _ after eq (again fit d) end = absurd (cc)
matchstar← here c p e complete (x ∷ text) s after eq (leave d) end =
    rw (complete (x ∷ text) (s, after, eq, d, end)) refl
matchstar← here c p e complete (x ∷ text) (y ∷ s) after eq (again fit d) end =
    let same : y ≡ x = cc in
    let rest : text ≡ s ++ after = cc in
    let go = matchstar← here c p e complete text s after rest d end in
    let fit' : fits c x ≡ true = rw (← same) fit in
    elim (Bool-cases (here (x ∷ text))) [
      | inl yes_here ↦ rw yes_here refl
      | inr not_here ↦ rw (not_here, fit') go
    ]

match_one→ :
    (here : List ℕ → Bool) (c : ℕ) (p : List Item) (e : Bool)
    → ((t : List ℕ) → here t ≡ true → MatchesHere p e t)
    → (text : List ℕ) → match_one here c text ≡ true
    → MatchesHere (one c ∷ p) e text
match_one→ here c p e sound [] h = absurd (cc)
match_one→ here c p e sound (x ∷ text) h = elim (Bool-cases (fits c x)) [
  | inl fit ↦
      let (s, after, eq, d, end) = sound text (rw fit at h) in
      (x ∷ s, after, ap (λ t. x ∷ t) eq, take fit d, end)
  | inr misfit ↦ absurd (ground (arith, misfit, h))
]

match_one← :
    (here : List ℕ → Bool) (c : ℕ) (p : List Item) (e : Bool)
    → ((t : List ℕ) → MatchesHere p e t → here t ≡ true)
    → (text s after : List ℕ) → text ≡ s ++ after
    → Matches (one c ∷ p) s
    → (e ≡ true → after ≡ [])
    → match_one here c text ≡ true
match_one← here c p e complete [] _ after eq (take fit d) end = absurd (cc)
match_one← here c p e complete (x ∷ text) [] after eq d end = elim d [ ]
match_one← here c p e complete (x ∷ text) (y ∷ s) after eq (take fit d) end =
    let same : y ≡ x = cc in
    let rest : text ≡ s ++ after = cc in
    let fit' : fits c x ≡ true = rw (← same) fit in rw fit' (complete text (s, after, rest, d, end))

matchhere→ :
    (re text : List ℕ)
    → matchhere re text ≡ true
    → MatchesHere (parse re).items (parse re).at_end text
unfolding matchhere parse
matchhere→ [] text h = ([], text, refl, empty, λ e. absurd (cc))
matchhere→ (c ∷ []) text h = elim (Bool-cases (c == dollar)) [
  | inl e ↦ rw e (at_end text (rw e at h))
  | inr ne ↦ rw ne (
      match_one→ (matchhere []) c [] false (λ t h'. ([], t, refl, empty, λ e. absurd (cc))) text
        (rw ne at h))
]
  where
    at_end : (t : List ℕ) → is_end t ≡ true → MatchesHere [] true t
    at_end [] h' = ([], [], refl, empty, λ e. refl)
    at_end (x ∷ t) h' = absurd (cc)
matchhere→ (c ∷ d ∷ re) text h = elim (Bool-cases (d == star)) [
  | inl e ↦ rw e (
      matchstar→ (matchhere re) c (parse re).items (parse re).at_end (matchhere→ re) text
        (rw e at h))
  | inr ne ↦ rw ne (
      match_one→ (matchhere (d ∷ re)) c (parse (d ∷ re)).items (parse (d ∷ re)).at_end
        (matchhere→ (d ∷ re)) text (rw ne at h))
]

matchhere← :
    (re text : List ℕ)
    → MatchesHere (parse re).items (parse re).at_end text
    → matchhere re text ≡ true
unfolding matchhere parse
matchhere← [] text h = refl
matchhere← (c ∷ []) text h = elim (Bool-cases (c == dollar)) [
  | inl e ↦ rw e (at_end text (rw e at h))
  | inr ne ↦
      let h' : MatchesHere (one c ∷ []) false text = rw ne at h in
      rw ne (match_one← (matchhere []) c [] false (λ t e. refl) text h'.0 h'.1 h'.2 h'.3 h'.4)
]
  where
    at_end : (t : List ℕ) → MatchesHere [] true t → is_end t ≡ true
    at_end [] h' = refl
    at_end (x ∷ t) (s, after, eq, empty, end) = let none_left = end refl in absurd (cc)
matchhere← (c ∷ d ∷ re) text h = elim (Bool-cases (d == star)) [
  | inl e ↦
      let h' : MatchesHere (many c ∷ (parse re).items) (parse re).at_end text = rw e at h in
      rw e (
        matchstar← (matchhere re) c (parse re).items (parse re).at_end (matchhere← re) text h'.0
          h'.1 h'.2 h'.3 h'.4)
  | inr ne ↦
      let h' : MatchesHere (one c ∷ (parse (d ∷ re)).items) (parse (d ∷ re)).at_end text =
        rw ne at h in
      rw ne (
        match_one← (matchhere (d ∷ re)) c (parse (d ∷ re)).items (parse (d ∷ re)).at_end
          (matchhere← (d ∷ re)) text h'.0 h'.1 h'.2 h'.3 h'.4)
]

match_from→ :
    (re text : List ℕ) → match_from (matchhere re) text ≡ true → MatchesFrom (parse re) text
unfolding match_from
match_from→ re [] h = ([], [], refl, matchhere→ re [] h)
match_from→ re (x ∷ text) h = elim (Bool-cases (matchhere re (x ∷ text))) [
  | inl here ↦ ([], x ∷ text, refl, matchhere→ re (x ∷ text) here)
  | inr not_here ↦
      let (before, rest, eq, found) = match_from→ re text (rw not_here at h) in
      (x ∷ before, rest, ap (λ t. x ∷ t) eq, found)
]

match_from← :
    (re text before rest : List ℕ)
    → text ≡ before ++ rest
    → MatchesHere (parse re).items (parse re).at_end rest
    → match_from (matchhere re) text ≡ true
unfolding match_from
match_from← re [] [] rest eq h =
    matchhere← re [] (subst (λ t. MatchesHere (parse re).items (parse re).at_end t) (sym eq) h)
match_from← re [] (y ∷ before) rest eq h = absurd (cc)
match_from← re (x ∷ text) [] rest eq h =
    rw
      (matchhere← re (x ∷ text)
        (subst (λ t. MatchesHere (parse re).items (parse re).at_end t) (sym eq) h))
      refl
match_from← re (x ∷ text) (y ∷ before) rest eq h =
    let go = match_from← re text before rest (cc) h in
    elim (Bool-cases (matchhere re (x ∷ text))) [
      | inl here ↦ rw here refl
      | inr not_here ↦ rw not_here go
    ]

-- match answers 1 exactly on the texts in which the pattern is found: from the start where a `^`
-- begins it, to the end where a `$` ends it, with `.` for any character and `*` behind a character
-- for any number of it.
pub match-Found : (re text : List ℕ) → (match re text ≡ true) ↔ Found re text
unfolding match
match-Found [] text = (match_from→ [] text, λ (b, r, e, h). match_from← [] text b r e h)
match-Found (c ∷ re) text = elim (Bool-cases (c == caret)) [
  | inl start ↦ rw start (matchhere→ re text, matchhere← re text)
  | inr any ↦ rw any (match_from→ (c ∷ re) text, λ (b, r, e, h). match_from← (c ∷ re) text b r e h)
]
