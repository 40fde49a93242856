-- ===== src/Pipe/Examples.antt =====
-- The theorems of kernel/pipe.c at a pipe whose counters are about to wrap, and runs of it.
use avx_loong_arch.Prelude.{
  ℕ, zero, suc, ◌-◌, ◌^◌, ◌≡◌, refl, Bool, true, false, Option, none, some, List, [], ◌∷◌, ◌++◌,
  arith,
}
use avx_loong_arch.Pipe.Runs.{Op, write, read, close, values, run, run-fifo}
use avx_loong_arch.Pipe.Fifo.{IsValid, contents}
use avx_loong_arch.Pipe.{
  Pipe, is_full, is_empty, put, get, write_loop, pipewrite, read_loop, piperead, pipeclose,
}

-- One byte in the pipe, in its last cell.
abbrev late_pipe : Pipe
late_pipe = record {
  cells = λ i. 7;
  nread = 2 ^ 32 - 1;
  nwrite = 0;
  readopen = true;
  writeopen = true;
  woken = [];
}

late_pipe-IsValid : IsValid late_pipe
late_pipe-IsValid = record {
  nread_fits = omega arith;
  nwrite_fits = omega arith;
  held = omega arith;
}

-- Two bytes, then a fault.
abbrev two_bytes : ℕ → Option ℕ
two_bytes zero = some 65
two_bytes (suc zero) = some 66
two_bytes _ = none

abbrev takes_all : ℕ → Bool
takes_all i = true

abbrev steps : List Op
steps = write two_bytes false 0 2 (omega arith) ∷ read takes_all false 2 ∷ close true ∷ []

-- The byte from before the wrap comes out first.
run-steps : (run steps late_pipe).1 ≡ 7 ∷ 65 ∷ []
unfolding run pipewrite write_loop is_full put values piperead read_loop is_empty get pipeclose
run-steps = refl

run-fifo_example :
    let (sent, received, last) = run steps late_pipe in
    IsValid last × (contents late_pipe ++ sent ≡ received ++ contents last)
run-fifo_example = run-fifo steps late_pipe late_pipe-IsValid (tt, ((λ j. refl), (tt, tt)))
