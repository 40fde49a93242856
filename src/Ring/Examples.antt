-- ===== src/Ring/Examples.antt =====
-- The theorems of kernel/ring_buffer.c at a buffer whose bytes wrap around its end, with a copyout and
-- a copyin that succeed.
use avx_loong_arch.Prelude.{ℕ, ◌≤◌, ◌-◌, min, ◌≡◌, refl, ◌++◌, arith, length}
use avx_loong_arch.Ring.Queue.{IsValid, contents, read_ring_buffer_lem, write_ring_buffer_lem}
use avx_loong_arch.Ring.Values.{values, copied}
use avx_loong_arch.Ring.{ring_buffer_size, Ring, read_ring_buffer, write_ring_buffer}

-- Two bytes, the last cell and the first one.
abbrev wrapped : Ring
wrapped = record { head = 4094; tail = 1; cells = λ i. i }

wrapped-IsValid : IsValid wrapped
wrapped-IsValid = record { head_lt = omega arith; tail_lt = omega arith }

abbrev sevens : ℕ → ℕ
sevens i = 7

read_ring_buffer_lem_example :
    let (len, user, q) = read_ring_buffer copied wrapped sevens 5 in
    (len ≡ min (length (contents wrapped)) 5)
    × IsValid q
    × (contents wrapped ≡ values user 0 len ++ contents q)
    × ((j : ℕ) → len ≤ j → user j ≡ sevens j)
read_ring_buffer_lem_example =
    read_ring_buffer_lem copied wrapped sevens 5 (λ user dst cells src n k fits. refl)
      wrapped-IsValid

write_ring_buffer_lem_example :
    let (len, q) = write_ring_buffer copied wrapped sevens 3 in
    (len ≡ min (ring_buffer_size - 1 - length (contents wrapped)) 3)
    × IsValid q
    × (contents q ≡ contents wrapped ++ values sevens 0 len)
write_ring_buffer_lem_example =
    write_ring_buffer_lem copied wrapped sevens 3 (λ cells dst user src n k fits. refl)
      wrapped-IsValid
