-- ===== src/Fat/FormatName/Examples.antt =====
-- The theorem on formatname at " .ab c " with two blanks at its end.
use avx_loong_arch.Prelude.{ℕ, ◌≡◌, refl, some, none, List, [], ◌∷◌}
use avx_loong_arch.Fat.FormatName.{strip_front, any_refused, trim_end, formatname}

abbrev ab_c : List ℕ
ab_c = 97 ∷ 98 ∷ 32 ∷ 99 ∷ []

formatname-ab_c : formatname (32 ∷ 46 ∷ 97 ∷ 98 ∷ 32 ∷ 99 ∷ 32 ∷ 32 ∷ []) ≡ some ab_c
unfolding formatname strip_front any_refused trim_end
formatname-ab_c = refl

-- A slash is refused.
formatname_slash : formatname (97 ∷ 47 ∷ []) ≡ none
unfolding formatname strip_front any_refused trim_end
formatname_slash = refl
