-- ===== src/Fat/Path.antt =====
-- kernel/fat32.c: the names in a path, and the checksum of a short name. A path is the list of its
-- characters, without the 0 behind them.
pub mod Names
mod Examples
use avx_loong_arch.Prelude.{
  ℕ, zero, suc, ◌+◌, ◌-◌, ◌*◌, ◌/◌, ◌%◌, ◌^◌, ◌≤◌, ◌<◌, min, ◌≡◌, refl, sym, ap, ap₂, ◌∙◌, ◌≢◌, ◌↔◌,
  ◌⊎◌, inl, inr, Bool, true, false, ◌&&◌, ◌||◌, not, Option, none, some, List, [], ◌∷◌, ◌++◌,
  append-nil, append_assoc, arith, ltb, leb, ◌==◌, if◌then◌else◌, InRange, InRange-cons, Bool-cases,
  Option-cases, eq_of_==, ne_of_==, ==_refl, ==_of_ne, length, get_elem?, replicate, All, has,
  Outcome, ok, panic, out_of_fuel, ◌>>=◌,
}

-- '/'
abbrev pub slash : ℕ
slash = 47

abbrev pub fat32_max_filename : ℕ
fat32_max_filename = 255

-- `while (*path == '/') path++;`
pub skip_slashes : List ℕ → List ℕ
skip_slashes [] = []
skip_slashes (c ∷ cs) = let rest = skip_slashes cs in if c == slash then rest else c ∷ cs

-- `while (*path != '/' && *path != 0) path++;`: what was passed, and the rest.
pub split_name : List ℕ → List ℕ × List ℕ
split_name [] = ([], [])
split_name (c ∷ cs) =
    let rest : List ℕ × List ℕ = split_name cs in
    if c == slash then ([], c ∷ cs) else (c ∷ rest.0, rest.1)

-- The first characters of a name, FAT32_MAX_FILENAME at most.
abbrev pub first_chars : ℕ → List ℕ → List ℕ
first_chars zero cs = []
first_chars (suc n) [] = []
first_chars (suc n) (c ∷ cs) = c ∷ first_chars n cs

abbrev pub next_elem : List ℕ → Option (List ℕ × List ℕ)
next_elem [] = none
next_elem (c ∷ cs) =
    let parts : List ℕ × List ℕ = split_name (c ∷ cs) in
    some (first_chars fat32_max_filename (parts.0), skip_slashes (parts.1))

-- skipelem: the name and the rest of the path, or none for NULL.
pub skipelem : List ℕ → Option (List ℕ × List ℕ)
skipelem path = next_elem (skip_slashes path)

abbrev pub names_from :
    (List ℕ → Outcome (List (List ℕ))) → Option (List ℕ × List ℕ) → Outcome (List (List ℕ))
names_from more none = ok []
names_from more (some (name, rest)) = more rest >>= λ names. ok (name ∷ names)

-- The names that skipelem gives, called as in the condition of the loop of lookup_path until it
-- returns NULL.
pub path_names : ℕ → List ℕ → Outcome (List (List ℕ))
path_names zero path = out_of_fuel
path_names (suc fuel) path = names_from (path_names fuel) (skipelem path)

-- cal_checksum on the bytes of the short name, from a sum on.
pub checksum : ℕ → List ℕ → ℕ
checksum sum [] = sum
checksum sum (b ∷ bs) = checksum (((if sum % 2 == 1 then 0x80 else 0) + sum / 2 + b) % 2 ^ 8) bs

pub cal_checksum : List ℕ → ℕ
cal_checksum shortname = checksum 0 shortname
