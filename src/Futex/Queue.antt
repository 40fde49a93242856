-- ===== src/Futex/Queue.antt =====
-- futexWake, futexRequeue and futexClear of kernel/futex.c on the threads that wait on an address,
-- in the order of their slots.
use avx_loong_arch.Prelude.{
  ℕ, zero, suc, ◌+◌, ◌≡◌, refl, sym, ap, ap₂, ◌∙◌, ◌≢◌, inl, inr, true, false, List, [], ◌∷◌, arith,
  ◌==◌, if◌then◌else◌, Bool-cases, length,
}
use avx_loong_arch.Futex.{
  FutexSlot, Slots, waits_on, futex_wake, move_waiters, futex_requeue, futex_clear, drop,
}

abbrev pub take {ℓ} : {A : Type ℓ} → ℕ → List A → List A
take zero xs = []
take (suc n) [] = []
take (suc n) (x ∷ xs) = x ∷ take n xs

-- The threads that wait on addr.
abbrev pub waiters : ℕ → Slots → List ℕ
waiters addr [] = []
waiters addr (s ∷ ss) = if waits_on addr s then s.thread ∷ waiters addr ss else waiters addr ss

-- futexWake wakes the first n of the threads that wait on addr, or all where they are fewer; the
-- others wait as before, and so do those on another address.
pub futex_wake_lem :
    (addr n : ℕ) (ss : Slots)
    → ((futex_wake addr n ss).0 ≡ take n (waiters addr ss))
      × (waiters addr (futex_wake addr n ss).1 ≡ drop n (waiters addr ss))
      × ((b : ℕ) → b ≢ addr → waiters b (futex_wake addr n ss).1 ≡ waiters b ss)
unfolding futex_wake
futex_wake_lem addr zero [] = (refl, refl, λ b ne. refl)
futex_wake_lem addr (suc n) [] = (refl, refl, λ b ne. refl)
futex_wake_lem addr zero (s ∷ ss) = (refl, refl, λ b ne. refl)
futex_wake_lem addr (suc n) (s ∷ ss) = elim (Bool-cases (waits_on addr s)) [
  | inl here ↦
      let (a, b, c) = futex_wake_lem addr n ss in
      rw here (
        ap (λ q. s.thread ∷ q) a,
        b,
        λ d ne. let other : waits_on d s ≡ false = ground (arith, here, ne) in rw other (c d ne),
      )
  | inr past ↦
      let (a, b, c) = futex_wake_lem addr (suc n) ss in
      let skip : waiters addr (s ∷ (futex_wake addr (suc n) ss).1)
          ≡ waiters addr (futex_wake addr (suc n) ss).1 =
        rw past refl in
      rw past (a, skip ∙ b, λ d ne. ap (λ q. if waits_on d s then s.thread ∷ q else q) (c d ne))
]

waits_on-cases :
    (addr : ℕ) (s : FutexSlot) → waits_on addr s ≡ true → (s.valid ≡ true) × (s.addr ≡ addr)
waits_on-cases addr s h = (ground (arith, h), ground (arith, h))

-- The second loop of futexRequeue, one part of the table's view at a time.
moved-none :
    (addr new_addr : ℕ) (ss : Slots)
    → addr ≢ new_addr
    → waiters addr (move_waiters addr new_addr ss) ≡ []
unfolding move_waiters
moved-none addr new_addr [] ne = refl
moved-none addr new_addr (s ∷ ss) ne = elim (Bool-cases (waits_on addr s)) [
  | inl here ↦
      let gone : waits_on addr (record s { addr = new_addr }) ≡ false = ground (arith, ne) in
      rw (here, gone) (moved-none addr new_addr ss ne)
  | inr past ↦
      let skip : waiters addr (s ∷ move_waiters addr new_addr ss)
          ≡ waiters addr (move_waiters addr new_addr ss) =
        rw past refl in
      rw past (skip ∙ moved-none addr new_addr ss ne)
]

moved-length :
    (addr new_addr : ℕ) (ss : Slots)
    → addr ≢ new_addr
    → length (waiters new_addr (move_waiters addr new_addr ss))
      ≡ length (waiters new_addr ss) + length (waiters addr ss)
unfolding move_waiters
moved-length addr new_addr [] ne = refl
moved-length addr new_addr (s ∷ ss) ne = elim (Bool-cases (waits_on addr s)) [
  | inl here ↦
      let (v, e) = waits_on-cases addr s here in
      let come : waits_on new_addr (record s { addr = new_addr }) ≡ true = ground (arith, v) in
      let before : waits_on new_addr s ≡ false = ground (arith, e, ne) in
      rw (here, come, before) (omega (arith, moved-length addr new_addr ss ne))
  | inr past ↦ elim (Bool-cases (waits_on new_addr s)) [
    | inl there ↦ rw (past, there) (omega (arith, moved-length addr new_addr ss ne))
    | inr away ↦ rw (past, away) (moved-length addr new_addr ss ne)
  ]
]

moved-other :
    (addr new_addr : ℕ) (ss : Slots) (b : ℕ)
    → b ≢ addr
    → b ≢ new_addr
    → waiters b (move_waiters addr new_addr ss) ≡ waiters b ss
unfolding move_waiters
moved-other addr new_addr [] b h h' = refl
moved-other addr new_addr (s ∷ ss) b h h' = elim (Bool-cases (waits_on addr s)) [
  | inl here ↦
      let (v, e) = waits_on-cases addr s here in
      let after : waits_on b (record s { addr = new_addr }) ≡ false = ground (arith, h') in
      let before : waits_on b s ≡ false = ground (arith, e, h) in
      rw (here, after, before) (moved-other addr new_addr ss b h h')
  | inr past ↦
      rw past
        (ap (λ q. if waits_on b s then s.thread ∷ q else q) (moved-other addr new_addr ss b h h'))
]

-- futexRequeue to another address wakes the first n of the threads that wait on addr, and moves
-- the others: none waits on addr afterwards, as many more wait on the new address as were not
-- woken, and on any third address the same threads wait in the same order.
pub futex_requeue_lem :
    (addr n new_addr : ℕ) (ss : Slots)
    → addr ≢ new_addr
    → let r : List ℕ × Slots = futex_requeue addr n new_addr ss in
      (r.0 ≡ take n (waiters addr ss))
      × (waiters addr (r.1) ≡ [])
      × (length (waiters new_addr (r.1))
          ≡ length (waiters new_addr ss) + length (drop n (waiters addr ss)))
      × ((b : ℕ) → b ≢ addr → b ≢ new_addr → waiters b (r.1) ≡ waiters b ss)
unfolding futex_requeue
futex_requeue_lem addr n new_addr ss ne =
    let (woken, left, other) = futex_wake_lem addr n ss in
    let mid = (futex_wake addr n ss).1 in
    (
      woken,
      moved-none addr new_addr mid ne,
      moved-length addr new_addr mid ne
          ∙ ap₂ (λ p q. length p + length q) (other new_addr (λ e. ne (sym e))) left,
      λ b h h'. moved-other addr new_addr mid b h h' ∙ other b h,
    )

-- The slots that are in use, as pairs of an address and a thread.
abbrev pub pairs : Slots → List (ℕ × ℕ)
pairs [] = []
pairs (s ∷ ss) = if s.valid then (s.addr, s.thread) ∷ pairs ss else pairs ss

abbrev pub without : ℕ → List (ℕ × ℕ) → List (ℕ × ℕ)
without thread [] = []
without thread (p ∷ ps) = if p.1 == thread then without thread ps else p ∷ without thread ps

-- futexClear takes out exactly the slots in use of the thread, and keeps the order of the others.
pub futex_clear_lem :
    (thread : ℕ) (ss : Slots) → pairs (futex_clear thread ss) ≡ without thread (pairs ss)
unfolding futex_clear
futex_clear_lem thread [] = refl
futex_clear_lem thread (s ∷ ss) = elim (Bool-cases (s.valid)) [
  | inr free ↦ rw free (futex_clear_lem thread ss)
  | inl used ↦ elim (Bool-cases (s.thread == thread)) [
    | inl mine ↦ rw (used, mine) (futex_clear_lem thread ss)
    | inr other ↦ rw (used, other) (ap (λ q. (s.addr, s.thread) ∷ q) (futex_clear_lem thread ss))
  ]
]
