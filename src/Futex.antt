-- ===== src/Futex.antt =====
-- kernel/futex.c: the table of threads that wait on an address. What a woken thread is given
-- (state t_RUNNABLE and result 0) is returned as the list of the woken threads, in order.
pub mod Queue
pub mod Wait
mod Examples
use avx_loong_arch.Prelude.{
  ℕ, zero, suc, ◌+◌, ◌-◌, ◌*◌, ◌/◌, ◌%◌, ◌^◌, ◌≤◌, ◌<◌, min, ◌≡◌, refl, sym, ap, ap₂, ◌∙◌, ◌≢◌, ◌↔◌,
  ◌⊎◌, inl, inr, Bool, true, false, ◌&&◌, ◌||◌, not, Option, none, some, List, [], ◌∷◌, ◌++◌,
  append-nil, append_assoc, arith, ltb, leb, ◌==◌, if◌then◌else◌, InRange, InRange-cons, Bool-cases,
  Option-cases, eq_of_==, ne_of_==, ==_refl, ==_of_ne, length, get_elem?, replicate, All, has,
  Outcome, ok, panic, out_of_fuel, ◌>>=◌,
}

-- FutexQueue; a thread is its address.
pub record FutexSlot : Type 0 where
  pub addr : ℕ
  pub thread : ℕ
  pub valid : Bool

-- futexQueue, an array of FUTEX_COUNT slots.
abbrev pub Slots : Type 0
Slots = List FutexSlot

abbrev pub waits_on : ℕ → FutexSlot → Bool
waits_on addr s = s.valid && (s.addr == addr)

-- The loop of futexWake on the slots that are left; n of a thread less at each one woken.
pub futex_wake : ℕ → ℕ → Slots → List ℕ × Slots
futex_wake addr n [] = ([], [])
futex_wake addr zero (s ∷ ss) = ([], s ∷ ss)
futex_wake addr (suc n) (s ∷ ss) =
    let woken : List ℕ × Slots = futex_wake addr n ss in
    let passed : List ℕ × Slots = futex_wake addr (suc n) ss in
    if waits_on addr s
    then (s.thread ∷ woken.0, record s { valid = false } ∷ woken.1)
    else (passed.0, s ∷ passed.1)

-- The second loop of futexRequeue.
pub move_waiters : ℕ → ℕ → Slots → Slots
move_waiters addr new_addr [] = []
move_waiters addr new_addr (s ∷ ss) =
    (if waits_on addr s then record s { addr = new_addr } else s) ∷ move_waiters addr new_addr ss

pub futex_requeue : ℕ → ℕ → ℕ → Slots → List ℕ × Slots
futex_requeue addr n new_addr ss =
    let woken : List ℕ × Slots = futex_wake addr n ss in
    (woken.0, move_waiters addr new_addr (woken.1))

pub futex_clear : ℕ → Slots → Slots
futex_clear thread [] = []
futex_clear thread (s ∷ ss) =
    (if s.valid && (s.thread == thread) then record s { valid = false } else s)
    ∷ futex_clear thread ss

-- futexWait from the slot on at which its loop stands: it takes the next free slot and gives up the
-- processor, to go on behind that slot when it runs again, or finds none and panics. The number is
-- that of the slots it passed or took.
pub futex_wait : ℕ → ℕ → Slots → Outcome (ℕ × Slots)
futex_wait addr thread [] = panic
futex_wait addr thread (s ∷ ss) =
    let rest = futex_wait addr thread ss >>= λ r. ok (suc (r.0), s ∷ r.1) in
    let taken : FutexSlot = record { addr = addr; thread = thread; valid = true } in
    if s.valid then rest else ok (1, taken ∷ ss)

abbrev pub drop {ℓ} : {A : Type ℓ} → ℕ → List A → List A
drop zero xs = xs
drop (suc n) [] = []
drop (suc n) (x ∷ xs) = drop n xs

-- The whole of futexWait: the loop from slot i on, in the n-th stretch that the thread runs. Between
-- the stretches other threads run; `tables n` is the table when the n-th begins.
pub futex_wait_run : (ℕ → Slots) → ℕ → ℕ → ℕ → ℕ → ℕ → Outcome (ℕ × Slots)
futex_wait_run tables addr thread zero n i = out_of_fuel
futex_wait_run tables addr thread (suc fuel) n i =
    futex_wait addr thread (drop i (tables n)) >>= λ r.
    futex_wait_run tables addr thread fuel (n + 1) (i + r.0)
