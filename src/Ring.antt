-- ===== src/Ring.antt =====
-- kernel/ring_buffer.c. The user's memory is the bytes from buf on. copyout and copyin are
-- arguments, from the memory before the call to the one after it; the code does not test whether
-- they fail. What runs under ring_buffer_lock is one step.
pub mod Values
pub mod Queue
mod Examples
use avx_loong_arch.Prelude.{
  ℕ, zero, suc, ◌+◌, ◌-◌, ◌%◌, ◌^◌, min, Bool, ◌&&◌, List, ◌∷◌, ◌++◌, ltb, leb, ◌==◌, if◌then◌else◌,
  [],
}

abbrev pub ring_buffer_size : ℕ
ring_buffer_size = 4095

-- struct ring_buffer. Its size is RING_BUFFER_SIZE from init_ring_buffer on.
pub record Ring : Type 0 where
  pub head : ℕ
  pub tail : ℕ
  pub cells : ℕ → ℕ

-- The memset clears RING_BUFFER_SIZE bytes of the struct, of which size, head and tail are 12, so
-- that the end of buf stays as it was.
pub init_ring_buffer : (ℕ → ℕ) → Ring
init_ring_buffer old = record {
  head = 0;
  tail = 0;
  cells = λ i. if ltb i (ring_buffer_size - 12) then 0 else old i;
}

-- `(tail - head + size) % size`, on uint
abbrev pub ring_buffer_used : Ring → ℕ
ring_buffer_used r =
    ((r.tail + 2 ^ 32 - r.head) % 2 ^ 32 + ring_buffer_size) % 2 ^ 32 % ring_buffer_size

abbrev pub ring_buffer_free : Ring → ℕ
ring_buffer_free r = ring_buffer_size - ring_buffer_used r - 1

pub ring_buffer_empty : Ring → Bool
ring_buffer_empty r = ring_buffer_used r == 0

pub ring_buffer_full : Ring → Bool
ring_buffer_full r = ring_buffer_free r == 0

-- copyout or copyin: `copy to dst from src n` is `to` after the n bytes of `from` from src on were to
-- be copied to dst.
abbrev pub Copy : Type 0
Copy = (ℕ → ℕ) → ℕ → (ℕ → ℕ) → ℕ → ℕ → (ℕ → ℕ)

-- The user's memory after read_ring_buffer has copied, in one piece or in two.
abbrev pub user_after : Copy → Ring → (ℕ → ℕ) → ℕ → (ℕ → ℕ)
user_after copyout r user len =
    let right = ring_buffer_size - r.head in
    if ltb ring_buffer_size (r.head + len)
    then copyout (copyout user 0 r.cells r.head right) right r.cells 0 (len - right)
    else copyout user 0 r.cells r.head len

pub read_ring_buffer : Copy → Ring → (user : ℕ → ℕ) → (size : ℕ) → ℕ × (ℕ → ℕ) × Ring
read_ring_buffer copyout r user size =
    let len = min (ring_buffer_used r) size in
    if len == 0
    then (len, user, r)
    else (len, user_after copyout r user len, record r { head = (r.head + len) % ring_buffer_size })

abbrev pub cells_after : Copy → Ring → (ℕ → ℕ) → ℕ → (ℕ → ℕ)
cells_after copyin r user len =
    let right = ring_buffer_size - r.tail in
    if ltb ring_buffer_size (r.tail + len)
    then copyin (copyin r.cells r.tail user 0 right) 0 user right (len - right)
    else copyin r.cells r.tail user 0 len

pub write_ring_buffer : Copy → Ring → (user : ℕ → ℕ) → (size : ℕ) → ℕ × Ring
write_ring_buffer copyin r user size =
    let len = min (ring_buffer_free r) size in
    if len == 0 then (len, r) else (
      len,
      record r { cells = cells_after copyin r user len; tail = (r.tail + len) % ring_buffer_size },
    )
