-- ===== src/Fat/Path/Examples.antt =====
-- The theorems on paths at the relative path "a//bc/d/".
use avx_loong_arch.Prelude.{ℕ, ◌≡◌, refl, List, [], ◌∷◌, arith, replicate, ok}
use avx_loong_arch.Fat.Path.Names.{path_names_lem}
use avx_loong_arch.Fat.Path.{path_names, checksum, cal_checksum}

abbrev bc_d : List (ℕ × List ℕ)
bc_d = (1, 98 ∷ 99 ∷ []) ∷ (0, 100 ∷ []) ∷ []

path_names_lem_example :
    path_names 4 (97 ∷ 47 ∷ 47 ∷ 98 ∷ 99 ∷ 47 ∷ 100 ∷ 47 ∷ [])
    ≡ ok ((97 ∷ []) ∷ (98 ∷ 99 ∷ []) ∷ (100 ∷ []) ∷ [])
path_names_lem_example =
    path_names_lem 0 (97 ∷ []) bc_d 1 4 (omega arith, refl)
      ((omega arith, refl), ((omega arith, refl), tt)) (omega arith)

checksum_dot : cal_checksum (46 ∷ replicate 10 32) ≡ 0x77
unfolding cal_checksum checksum
checksum_dot = refl
