-- ===== src/Ring/Queue.antt =====
-- The ring buffer of kernel/ring_buffer.c as a queue of bytes.
use avx_loong_arch.Prelude.{
  ℕ, ◌+◌, ◌-◌, ◌%◌, ◌≤◌, ◌<◌, min, ◌≡◌, refl, sym, ap, ap₂, ◌∙◌, ◌≢◌, inl, inr, List, ◌++◌,
  append-nil, arith, ◌==◌, Bool-cases, eq_of_==, ne_of_==, length,
}
use avx_loong_arch.Ring.Values.{
  values, values-eq, values-append, length-values, copied, CopiesOut, CopiesIn, user_after-copied,
  cells_after-copied,
}
use avx_loong_arch.Ring.{
  ring_buffer_size, Ring, ring_buffer_used, ring_buffer_free, Copy, user_after, read_ring_buffer,
  cells_after, write_ring_buffer,
}

pub record IsValid (r : Ring) : Type 0 where
  pub head_lt : r.head < ring_buffer_size
  pub tail_lt : r.tail < ring_buffer_size

abbrev pub contents : Ring → List ℕ
contents r = values (λ j. r.cells ((r.head + j) % ring_buffer_size)) 0 (ring_buffer_used r)

-- The first `len` bytes of the user's memory after the copy, and those behind.
user_after-new :
    (r : Ring) (user : ℕ → ℕ) (len j : ℕ)
    → IsValid r
    → len ≤ ring_buffer_size
    → j < len
    → user_after copied r user len j ≡ r.cells ((r.head + j) % ring_buffer_size)
user_after-new r user len j v le lt = ground (arith, v.head_lt)

user_after-old :
    (r : Ring) (user : ℕ → ℕ) (len j : ℕ)
    → IsValid r
    → len ≤ j
    → user_after copied r user len j ≡ user j
user_after-old r user len j v le = ground (arith, v.head_lt)

-- Whatever copyout does, read_ring_buffer takes the first bytes off the queue, as many as were asked
-- for or as there are, and returns their number. What copyout could not copy is lost.
pub read_ring_buffer_takes :
    (copyout : Copy) (r : Ring) (user : ℕ → ℕ) (size : ℕ)
    → IsValid r
    → let (len, user', q) = read_ring_buffer copyout r user size in
      (len ≡ min (length (contents r)) size)
      × IsValid q
      × (contents r ≡ values (λ j. r.cells ((r.head + j) % ring_buffer_size)) 0 len ++ contents q)
unfolding read_ring_buffer
read_ring_buffer_takes copyout r user size v =
    let used = ring_buffer_used r in
    let len = min used size in
    let cells : ℕ → ℕ = λ j. r.cells ((r.head + j) % ring_buffer_size) in
    let count : length (contents r) ≡ used = length-values cells 0 used in
    elim (Bool-cases (len == 0)) [
      | inl dry ↦
          let nothing : len ≡ 0 = eq_of_== dry in rw dry (omega (arith, count), v, rw nothing refl)
      | inr wet ↦
          let q : Ring = record r { head = (r.head + len) % ring_buffer_size } in
          let left : ring_buffer_used q ≡ used - len = omega (arith, v.head_lt, v.tail_lt) in
          let sum : used ≡ len + (used - len) = omega arith in
          rw wet (
            omega (arith, count),
            record { head_lt = omega arith; tail_lt = v.tail_lt },
            ap (values cells 0) sum
                ∙ values-append cells 0 len (used - len)
                ∙ ap (λ ys. values cells 0 len ++ ys)
                    (values-eq cells (λ j. q.cells ((q.head + j) % ring_buffer_size)) (0 + len) 0
                        (used - len) (λ j lt. ap r.cells (omega arith))
                      ∙ ap (values (λ j. q.cells ((q.head + j) % ring_buffer_size)) 0) (sym left)),
          )
    ]

read_ring_buffer-user :
    (copyout : Copy) (r : Ring) (user : ℕ → ℕ) (size : ℕ)
    → CopiesOut copyout size
    → IsValid r
    → let (len, user', q) = read_ring_buffer copyout r user size in
      ((j : ℕ) → j < len → user' j ≡ r.cells ((r.head + j) % ring_buffer_size))
      × ((j : ℕ) → len ≤ j → user' j ≡ user j)
unfolding read_ring_buffer
read_ring_buffer-user copyout r user size works v =
    let len = min (ring_buffer_used r) size in
    elim (Bool-cases (len == 0)) [
      | inl dry ↦
          let nothing : len ≡ 0 = eq_of_== dry in
          rw dry (λ j lt. absurd (omega (arith, nothing, lt)), λ j le. refl)
      | inr wet ↦
          rw (wet, user_after-copied copyout r user len size works (omega arith))
            (
              λ j lt. user_after-new r user len j v (omega arith) lt,
              λ j le. user_after-old r user len j v le,
            )
    ]

-- Where copyout succeeds on the user's buffer, read_ring_buffer takes the first bytes off the queue,
-- as many as were asked for or as there are, puts them at the start of the buffer in order, changes
-- nothing behind them there, and returns their number.
pub read_ring_buffer_lem :
    (copyout : Copy) (r : Ring) (user : ℕ → ℕ) (size : ℕ)
    → CopiesOut copyout size
    → IsValid r
    → let (len, user', q) = read_ring_buffer copyout r user size in
      (len ≡ min (length (contents r)) size)
      × IsValid q
      × (contents r ≡ values user' 0 len ++ contents q)
      × ((j : ℕ) → len ≤ j → user' j ≡ user j)
read_ring_buffer_lem copyout r user size works v =
    let (len, user', q) = read_ring_buffer copyout r user size in
    let (count, valid, queue) = read_ring_buffer_takes copyout r user size v in
    let (stored, outside) = read_ring_buffer-user copyout r user size works v in
    let cells : ℕ → ℕ = λ j. r.cells ((r.head + j) % ring_buffer_size) in
    (
      count,
      valid,
      queue
          ∙ ap (λ xs. xs ++ contents q)
              (values-eq cells user' 0 0 len (λ j lt. sym (stored (0 + j) (omega (arith, lt))))),
      outside,
    )

-- A cell after a write of `len` bytes that fit: the j-th from the tail on has the j-th byte, and
-- those before keep theirs.
cells_after-new :
    (r : Ring) (user : ℕ → ℕ) (len j : ℕ)
    → IsValid r
    → len < ring_buffer_size
    → j < len
    → cells_after copied r user len ((r.tail + j) % ring_buffer_size) ≡ user j
cells_after-new r user len j v le lt = ground (arith, v.tail_lt)

cells_after-old :
    (r : Ring) (user : ℕ → ℕ) (len j : ℕ)
    → IsValid r
    → len ≤ ring_buffer_free r
    → j < ring_buffer_used r
    → cells_after copied r user len ((r.head + j) % ring_buffer_size)
      ≡ r.cells ((r.head + j) % ring_buffer_size)
cells_after-old r user len j v le lt = ground (arith, v.head_lt, v.tail_lt)

-- Where copyin succeeds on the user's buffer, write_ring_buffer puts the first bytes of that at the
-- end of the queue, in order, as many as were given or as there is room for (RING_BUFFER_SIZE - 1 in
-- an empty buffer), and returns their number.
pub write_ring_buffer_lem :
    (copyin : Copy) (r : Ring) (user : ℕ → ℕ) (size : ℕ)
    → CopiesIn copyin size
    → IsValid r
    → let (len, q) = write_ring_buffer copyin r user size in
      (len ≡ min (ring_buffer_size - 1 - length (contents r)) size)
      × IsValid q
      × (contents q ≡ contents r ++ values user 0 len)
unfolding write_ring_buffer
write_ring_buffer_lem copyin r user size works v =
    let used = ring_buffer_used r in
    let len = min (ring_buffer_free r) size in
    let cells : ℕ → ℕ = λ j. r.cells ((r.head + j) % ring_buffer_size) in
    let count : length (contents r) ≡ used = length-values cells 0 used in
    elim (Bool-cases (len == 0)) [
      | inl full ↦
          let nothing : len ≡ 0 = eq_of_== full in
          rw full (omega (arith, count), v, rw nothing (sym (append-nil (contents r))))
      | inr room ↦
          let some_len : len ≢ 0 = ne_of_== room in
          let q : Ring = record r {
            cells = cells_after copied r user len;
            tail = (r.tail + len) % ring_buffer_size;
          } in
          let cells' : ℕ → ℕ = λ j. q.cells ((q.head + j) % ring_buffer_size) in
          let grown : ring_buffer_used q ≡ used + len = omega (arith, v.head_lt, v.tail_lt) in
          let to_copied = cells_after-copied copyin r user len size works (omega arith) in
          rw (room, to_copied)
            (
              omega (arith, count),
              record { head_lt = v.head_lt; tail_lt = omega arith },
              ap (values cells' 0) grown
                  ∙ values-append cells' 0 used len
                  ∙ ap₂ (λ xs ys. xs ++ ys)
                      (values-eq cells' cells 0 0 used
                        (λ j lt. cells_after-old r user len (0 + j) v (omega arith) (omega arith)))
                      (values-eq cells' user (0 + used) 0 len (λ j lt.
                        ap (cells_after copied r user len) (omega (arith, v.head_lt, v.tail_lt))
                        ∙ cells_after-new r user len (0 + j) v (omega arith) (omega arith))),
            )
    ]
