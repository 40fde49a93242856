-- ===== src/Fat/LongName/Examples.antt =====
-- The theorem on long names at a name of 18 characters, in two entries.
use avx_loong_arch.Prelude.{◌+◌, ◌≡◌, refl, arith, ltb, if◌then◌else◌}
use avx_loong_arch.Fat.LongName.RoundTrip.{read_entries-long_entries}
use avx_loong_arch.Fat.LongName.{ended, entcnt, wide_char, long_entries, read_entries}
use avx_loong_arch.String.{Memory}

abbrev letters : Memory
letters q = if ltb q 18 then 97 + q else 0

read_entries-long_entries_example :
    read_entries (λ q. 0) (long_entries letters (entcnt 18)) 17 ≡ letters 17
read_entries-long_entries_example =
    read_entries-long_entries letters 18 (λ j lt. ground arith) (λ j lt. ground arith) refl 17
      (omega arith)

-- The name has 18 bytes, so that its 0 is the sixth character of the second entry, and ones follow.
wide_char_tail :
    (wide_char letters 13 4 ≡ 114)
    × (wide_char letters 13 5 ≡ 0)
    × (wide_char letters 13 6 ≡ 0xffff)
unfolding ended
wide_char_tail = (refl, refl, refl)
