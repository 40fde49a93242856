-- ===== src/Fat/FormatName.antt =====
-- formatname of kernel/fat32.c, on the characters of a name without the 0 behind them. A character is
-- a byte; the C type char is signed on this machine, so that a byte of 128 or more is less than 0x20.
pub mod Normal
pub mod Cut
mod Examples
use avx_loong_arch.Prelude.{
  ℕ, Bool, true, false, ◌||◌, Option, none, some, List, [], ◌∷◌, ltb, leb, ◌==◌, if◌then◌else◌, has,
}

abbrev pub blank : ℕ
blank = 32

-- `while (*name == ' ' || *name == '.') name++;`
pub strip_front : List ℕ → List ℕ
strip_front [] = []
strip_front (c ∷ cs) = let rest = strip_front cs in if c == blank || (c == 46) then rest else c ∷ cs

-- The array illegal: " * / : < > ? \ |
abbrev pub illegal : List ℕ
illegal = 34 ∷ 42 ∷ 47 ∷ 58 ∷ 60 ∷ 62 ∷ 63 ∷ 92 ∷ 124 ∷ []

-- `c < 0x20 || strchr(illegal, c)`
abbrev pub is_refused : ℕ → Bool
is_refused c = ltb c 0x20 || leb 128 c || has c illegal

pub any_refused : List ℕ → Bool
any_refused [] = false
any_refused (c ∷ cs) = is_refused c || any_refused cs

abbrev pub keep_char : ℕ → Option (List ℕ) → Option (List ℕ)
keep_char c none = if c == blank then none else some (c ∷ [])
keep_char c (some cs) = some (c ∷ cs)

-- The last loop: the characters up to the last one that is not a blank, or none, where there is no
-- such character and the loop runs to the front.
pub trim_end : List ℕ → Option (List ℕ)
trim_end [] = none
trim_end (c ∷ cs) = keep_char c (trim_end cs)

abbrev pub trimmed : List ℕ → Option (List ℕ) → List ℕ
trimmed name none = name
trimmed name (some cs) = cs

-- formatname: none for 0.
pub formatname : List ℕ → Option (List ℕ)
formatname name =
    let rest = strip_front name in
    if any_refused rest then none else some (trimmed rest (trim_end rest))
