-- ===== src/Timer/Expiry.antt =====
-- Which timers of kernel/timer.c expire at a tick, and what becomes of the others.
use mathlib.Core.Path.{subst}
use avx_loong_arch.Prelude.{
  ℕ, zero, suc, ◌+◌, ◌%◌, ◌^◌, ◌≤◌, ◌<◌, ◌≡◌, refl, sym, ap₂, ◌∙◌, ◌⊎◌, inl, inr, Bool, true, false,
  ◌&&◌, ◌||◌, not, arith, ◌==◌, if◌then◌else◌, InRange, Bool-cases, eq_of_==, ne_of_==, ==_refl,
  ==_of_ne,
}
use avx_loong_arch.Timer.{Timer, ntimers, Clock, is_due, tick_one, tick_loop, timer_tick, tick_n}
use avx_loong_arch.Proc.{addr_chan, Table, wakeup}

-- A timer after a tick.
abbrev pub after_tick : ℕ → Timer → Timer
after_tick now t = if is_due now t then record t { pid = 0 } else t

tick_one-here :
    (i : ℕ) (c : Clock) (procs : Table)
    → (tick_one i (c, procs)).0.timers i ≡ after_tick c.ticks (c.timers i)
tick_one-here i c procs = elim (Bool-cases (is_due c.ticks (c.timers i))) [
  | inl due ↦ rw (due, ==_refl i) refl
  | inr not_due ↦ rw not_due refl
]

tick_one-other :
    (i j : ℕ) (c : Clock) (procs : Table)
    → (i == j) ≡ false
    → (tick_one i (c, procs)).0.timers j ≡ c.timers j
tick_one-other i j c procs ne = elim (Bool-cases (is_due c.ticks (c.timers i))) [
  | inl due ↦ rw (due, ne) refl
  | inr not_due ↦ rw not_due refl
]

tick_one-flags :
    (i : ℕ) (c : Clock) (procs : Table)
    → let r = (tick_one i (c, procs)).0 in
      (r.ticks ≡ c.ticks) × (r.hastimer ≡ (c.hastimer && not (is_due c.ticks (c.timers i))))
tick_one-flags i c procs = elim (Bool-cases (is_due c.ticks (c.timers i))) [
  | inl due ↦ rw due (refl, ground arith)
  | inr not_due ↦ rw not_due (refl, ground arith)
]

-- Whether one of the timers from i on is due.
abbrev pub any_due : ℕ → ℕ → Clock → Bool
any_due zero i c = false
any_due (suc left) i c = is_due c.ticks (c.timers i) || any_due left (i + 1) c

any_due-same :
    (left i : ℕ) (c d : Clock)
    → d.ticks ≡ c.ticks
    → InRange (λ j. d.timers j ≡ c.timers j) i left
    → any_due left i d ≡ any_due left i c
any_due-same zero i c d e each = refl
any_due-same (suc left) i c d e each =
    ap₂ (λ p q. p || q) (ap₂ is_due e (each i (omega arith) (omega arith)))
      (any_due-same left (i + 1) c d e (λ j lo hi. each j (omega arith) (omega arith)))

-- The loop keeps the ticks, treats each timer from i on alone, and clears `hastimer` where one of
-- them is due.
pub tick_loop_lem :
    (left i : ℕ) (c : Clock) (procs : Table)
    → let r = (tick_loop left i (c, procs)).0 in
      (r.ticks ≡ c.ticks)
      × ((j : ℕ) → i ≤ j → j < i + left → r.timers j ≡ after_tick c.ticks (c.timers j))
      × ((j : ℕ) → (j < i) ⊎ (i + left ≤ j) → r.timers j ≡ c.timers j)
      × (r.hastimer ≡ (c.hastimer && not (any_due left i c)))
unfolding tick_loop
tick_loop_lem zero i c procs = (refl, λ j lo hi. absurd (omega arith), λ j out. refl, ground arith)
tick_loop_lem (suc left) i c procs =
    let s = tick_one i (c, procs) in
    let (same, flag) = tick_one-flags i c procs in
    let (same', inside, outside, flag') = tick_loop_lem left (i + 1) (s.0) (s.1) in
    let due_same : any_due left (i + 1) (s.0) ≡ any_due left (i + 1) c =
      any_due-same left (i + 1) c (s.0) same
        (λ j lo hi. tick_one-other i j c procs (==_of_ne (λ e. omega (arith, e, lo)))) in
    (
      same' ∙ same,
      λ j lo hi. elim (Bool-cases (i == j)) [
        | inl e ↦
            outside j (inl (omega (arith, eq_of_== e)))
            ∙ subst (λ q. (s.0).timers q ≡ after_tick c.ticks (c.timers q)) (eq_of_== e)
                (tick_one-here i c procs)
        | inr ne ↦
            inside j (omega (arith, ne_of_== ne)) (omega arith)
            ∙ ap₂ after_tick same (tick_one-other i j c procs ne)
      ],
      λ j out.
          outside j (elim out [ inl b ↦ inl (omega arith) | inr b ↦ inr (omega arith) ])
          ∙ tick_one-other i j c procs (
              ==_of_ne
                (λ e. elim out [ inl b ↦ omega (arith, e, b) | inr b ↦ omega (arith, e, b) ])),
      flag' ∙ ap₂ (λ p q. p && not q) flag due_same ∙ ground arith,
    )

-- The clock when the loop of timer_tick begins.
abbrev pub ticked : Clock → Clock
ticked c = record c { ticks = (c.ticks + 1) % 2 ^ 32 }

timer_tick-on :
    (ticks_chan : ℕ) (c : Clock) (procs : Table)
    → c.hastimer ≡ true
    → timer_tick ticks_chan (c, procs)
      ≡ tick_loop ntimers 0 (ticked c, wakeup (addr_chan ticks_chan) procs)
unfolding timer_tick
timer_tick-on ticks_chan c procs on = rw on refl

timer_tick-off :
    (ticks_chan : ℕ) (c : Clock) (procs : Table)
    → c.hastimer ≡ false
    → timer_tick ticks_chan (c, procs) ≡ (ticked c, wakeup (addr_chan ticks_chan) procs)
unfolding timer_tick
timer_tick-off ticks_chan c procs off = rw off refl

or_true : (a b : Bool) → b ≡ true → (a || b) ≡ true
or_true true b h = refl
or_true false b h = h

any_due-true :
    (left i j : ℕ) (c : Clock)
    → i ≤ j
    → j < i + left
    → is_due c.ticks (c.timers j) ≡ true
    → any_due left i c ≡ true
any_due-true zero i j c lo hi due = absurd (omega arith)
any_due-true (suc left) i j c lo hi due = elim (Bool-cases (i == j)) [
  | inl e ↦
      let here : is_due c.ticks (c.timers i) ≡ true =
        subst (λ q. is_due c.ticks (c.timers q) ≡ true) (sym (eq_of_== e)) due in
      rw here refl
  | inr ne ↦
      let later = any_due-true left (i + 1) j c (omega (arith, ne_of_== ne)) (omega arith) due in
      or_true (is_due c.ticks (c.timers i)) (any_due left (i + 1) c) later
]

-- timer_tick counts one tick. Where no timer is set it does nothing to the timers; else it frees
-- each of the NTIMERS timers that is due, and no other, and forgets that timers are set as soon as
-- one of them was due.
pub timer_tick_lem :
    (ticks_chan : ℕ) (c : Clock) (procs : Table)
    → let r = (timer_tick ticks_chan (c, procs)).0 in
      (r.ticks ≡ (c.ticks + 1) % 2 ^ 32)
      × (c.hastimer ≡ false → (j : ℕ) → r.timers j ≡ c.timers j)
      × (c.hastimer ≡ true
          → InRange (λ j. r.timers j ≡ after_tick (ticked c).ticks (c.timers j)) 0 ntimers)
      × (r.hastimer ≡ (c.hastimer && not (any_due ntimers 0 (ticked c))))
timer_tick_lem ticks_chan c procs =
    let (e, inside, _, flag) =
      tick_loop_lem ntimers 0 (ticked c) (wakeup (addr_chan ticks_chan) procs) in
    elim (Bool-cases c.hastimer) [
      | inl on ↦
          rw (timer_tick-on ticks_chan c procs on)
            (e, λ off. absurd (ground (arith, on, off)), λ _. inside, flag)
      | inr off ↦
          rw (timer_tick-off ticks_chan c procs off)
            (refl, λ _ j. refl, λ on. absurd (ground (arith, on, off)), off ∙ rw off refl)
    ]

-- Where no timer is known to be set, ticks leave the timers as they are.
tick_n-stuck :
    (n ticks_chan : ℕ) (c : Clock) (procs : Table)
    → c.hastimer ≡ false
    → (j : ℕ) → (tick_n n ticks_chan (c, procs)).0.timers j ≡ c.timers j
unfolding tick_n
tick_n-stuck zero ticks_chan c procs off j = refl
tick_n-stuck (suc n) ticks_chan c procs off j =
    let (_, same, _, flag) = timer_tick_lem ticks_chan c procs in
    let s = timer_tick ticks_chan (c, procs) in
    tick_n-stuck n ticks_chan (s.0) (s.1) (flag ∙ rw off refl) j ∙ same off j

-- A timer that is not yet due when another one is due at a tick never expires by ticks, however
-- many follow: it stays as it is.
pub pending_never_expires :
    (n ticks_chan : ℕ) (c : Clock) (procs : Table) (i j : ℕ)
    → i < ntimers
    → is_due (ticked c).ticks (c.timers i) ≡ true
    → is_due (ticked c).ticks (c.timers j) ≡ false
    → j < ntimers
    → c.hastimer ≡ true
    → (tick_n (suc n) ticks_chan (c, procs)).0.timers j ≡ c.timers j
unfolding tick_n
pending_never_expires n ticks_chan c procs i j lt due pending lt' on =
    let (_, _, each, flag) = timer_tick_lem ticks_chan c procs in
    let s = timer_tick ticks_chan (c, procs) in
    tick_n-stuck n ticks_chan (s.0) (s.1)
      (flag ∙ ap₂ (λ p q. p && not q) on (any_due-true ntimers 0 i (ticked c) (omega arith) lt due))
      j
    ∙ each on j (omega arith) lt'
    ∙ rw pending refl
