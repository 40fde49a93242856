-- ===== src/Pipe.antt =====
-- kernel/pipe.c: a pipe between processes. The code from one acquire or wakeup of pi->lock to the
-- next sleep or release is one step. A sleep ends the step; what the process does when it runs
-- again is the next step, on the pipe as it then is.
pub mod Fifo
pub mod Write
pub mod Read
pub mod Runs
mod Examples
use avx_loong_arch.Prelude.{
  ℕ, zero, suc, ◌+◌, ◌-◌, ◌%◌, ◌^◌, Bool, true, false, ◌&&◌, ◌||◌, not, Option, none, some, List,
  ◌∷◌, ◌==◌, if◌then◌else◌, [],
}

abbrev pub pipesize : ℕ
pipesize = 512

-- The channels on which a process sleeps.
pub data Chan : Type 0 where
  nread_chan nwrite_chan : Chan

-- struct pipe, and the calls of wakeup so far, the latest first. `nread` and `nwrite` are uint.
pub record Pipe : Type 0 where
  pub cells : ℕ → ℕ
  pub nread : ℕ
  pub nwrite : ℕ
  pub readopen : Bool
  pub writeopen : Bool
  pub woken : List Chan

-- The pipe that pipealloc sets up.
pub fresh_pipe : Pipe
fresh_pipe = record {
  cells = λ i. 0;
  nread = 0;
  nwrite = 0;
  readopen = true;
  writeopen = true;
  woken = [];
}

abbrev pub wake : Chan → Pipe → Pipe
wake c pi = record pi { woken = c ∷ pi.woken }

-- `pi->nwrite == pi->nread + PIPESIZE` on uint
pub is_full : Pipe → Bool
is_full pi = pi.nwrite == (pi.nread + pipesize) % 2 ^ 32

pub is_empty : Pipe → Bool
is_empty pi = pi.nread == pi.nwrite

-- `pi->data[pi->nwrite++ % PIPESIZE] = ch`
pub put : ℕ → Pipe → Pipe
put ch pi = record pi {
  cells = (λ i. if i == pi.nwrite % pipesize then ch else pi.cells i);
  nwrite = (pi.nwrite + 1) % 2 ^ 32;
}

-- `ch = pi->data[pi->nread++ % PIPESIZE]`
pub get : Pipe → ℕ × Pipe
get pi = (pi.cells (pi.nread % pipesize), record pi { nread = (pi.nread + 1) % 2 ^ 32 })

-- What a step of pipewrite or piperead ends in: a return, or a sleep on a channel.
pub data End : Type 0 where
  returned : ℕ → End
  failed : End
  asleep : Chan → End

-- The loop of pipewrite from index i, with `left` bytes to go. `source i` is what either_copyin
-- gives for the byte at addr + i, `none` for a fault.
pub write_loop : (ℕ → Option ℕ) → Bool → ℕ → ℕ → Pipe → End × ℕ × Pipe
write_loop source killed i zero pi = (returned i, i, wake nread_chan pi)
write_loop source killed i (suc left) pi =
    if is_full pi
    then (if not pi.readopen || killed
        then (failed, i, pi)
        else (asleep nwrite_chan, i, wake nread_chan pi))
    else elim (source i) [
      | none ↦ (returned i, i, wake nread_chan pi)
      | some ch ↦ write_loop source killed (i + 1) left (put ch pi)
    ]

-- A step of pipewrite that has i of n bytes written: how it ends, the bytes written by then, and
-- the pipe.
pub pipewrite : (ℕ → Option ℕ) → Bool → ℕ → ℕ → Pipe → End × ℕ × Pipe
pipewrite source killed i n pi = write_loop source killed i (n - i) pi

-- The copying loop of piperead. `sink i` says whether either_copyout takes the byte at addr + i;
-- the byte of a refused copy is gone from the pipe, and is not counted. The list is what arrived.
pub read_loop : (ℕ → Bool) → ℕ → ℕ → Pipe → ℕ × List ℕ × Pipe
read_loop sink i zero pi = (i, [], wake nwrite_chan pi)
read_loop sink i (suc left) pi =
    if is_empty pi
    then (i, [], wake nwrite_chan pi)
    else (let (ch, pi') = get pi in
        if sink i
        then (let (r, bytes, q) = read_loop sink (i + 1) left pi' in (r, ch ∷ bytes, q))
        else (i, [], wake nwrite_chan pi'))

-- A step of piperead: how it ends, the bytes copied out, and the pipe.
pub piperead : (ℕ → Bool) → Bool → ℕ → Pipe → End × List ℕ × Pipe
piperead sink killed n pi =
    if is_empty pi && pi.writeopen
    then (if killed then (failed, [], pi) else (asleep nread_chan, [], pi))
    else (let (r, bytes, q) = read_loop sink 0 n pi in (returned r, bytes, q))

-- pipeclose: the pipe with one end closed, and whether its page is freed.
pub pipeclose : Bool → Pipe → Bool × Pipe
pipeclose writable pi =
    let q =
      if writable
      then wake nread_chan (record pi { writeopen = false })
      else wake nwrite_chan (record pi { readopen = false }) in
    (not q.readopen && not q.writeopen, q)
