-- ===== src/Fat/LongName.antt =====
-- kernel/fat32.c: the long name entries that emake writes for a name, and the name that enext reads
-- from them. A name is in an array of bytes; the 13 wide characters of an entry are a function of
-- their place in name1, name2 and name3.
pub mod Copy
pub mod Entry
pub mod RoundTrip
mod Examples
use avx_loong_arch.Prelude.{
  ℕ, zero, suc, ◌+◌, ◌-◌, ◌*◌, ◌/◌, ◌%◌, ◌^◌, Bool, true, false, ◌&&◌, ◌||◌, List, [], ◌∷◌, ltb,
  leb, ◌==◌, if◌then◌else◌,
}
use avx_loong_arch.String.{Memory}

abbrev pub char_long_name : ℕ
char_long_name = 13

-- `end` before the character j of the entry is written: a 0 of the name was.
pub ended : Memory → ℕ → ℕ → Bool
ended name p zero = false
ended name p (suc j) = ended name p j || (name (p + j) == 0)

-- The character j of the entry for the name from p on: 0xff in both bytes behind the 0.
abbrev pub wide_char : Memory → ℕ → ℕ → ℕ
wide_char name p j = if ended name p j then 0xffff else name (p + j)

-- The entries that emake writes, in its order: the number without LAST_LONG_ENTRY, and the
-- characters.
pub long_entries : Memory → ℕ → List (ℕ × (ℕ → ℕ))
long_entries name zero = []
long_entries name (suc i) = (suc i, wide_char name (i * char_long_name)) ∷ long_entries name i

abbrev pub entcnt : ℕ → ℕ
entcnt len = (len + char_long_name - 1) / char_long_name

-- The last loop of snstr.
abbrev pub put_zeros : Memory → (dst n : ℕ) → Memory
put_zeros mem dst n q = if leb dst q && ltb q (dst + n) then 0 else mem q

-- snstr: where it meets a 0, it writes one 0 less than there is room for.
pub snstr : Memory → (dst : ℕ) → (ℕ → ℕ) → (len : ℕ) → Memory
snstr mem dst src zero = mem
snstr mem dst src (suc len) =
    let rest =
      snstr (λ q. if dst == q then src 0 % 2 ^ 8 else mem q) (dst + 1) (λ k. src (k + 1)) len in
    if src 0 == 0 then put_zeros mem dst len else rest

-- read_entry_name of a long entry.
pub read_entry_name : Memory → ℕ → (ℕ → ℕ) → Memory
read_entry_name mem buffer chars =
    snstr (snstr (snstr mem buffer chars 5) (buffer + 5) (λ k. chars (k + 5)) 6) (buffer + 11)
      (λ k. chars (k + 11)) 2

-- What enext does with the long entries of a name, from a cleared name on.
pub read_entries : Memory → List (ℕ × (ℕ → ℕ)) → Memory
read_entries mem [] = mem
read_entries mem ((lcnt, chars) ∷ es) =
    read_entries (read_entry_name mem ((lcnt - 1) * char_long_name) chars) es
