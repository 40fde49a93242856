-- ===== src/Lock/Nesting.antt =====
-- push_off and pop_off are matched: so many of the one are undone by as many of the other.
use avx_loong_arch.Prelude.{
  ℕ, zero, suc, ◌+◌, ◌≡◌, refl, ◌≢◌, true, false, none, some, arith, ◌==◌, if◌then◌else◌, ==_refl,
  ==_of_ne, Outcome, ok, panic, ◌>>=◌,
}
use avx_loong_arch.Lock.{Cpu, push_off, pop_off, Spinlock, holding, acquire, release}

-- Interrupts are off inside a push_off.
pub record IsNested (c : Cpu) : Type 0 where
  pub off : c.noff ≢ 0 → c.enabled ≡ false

pub push_n : ℕ → Cpu → Cpu
push_n zero c = c
push_n (suc n) c = push_off (push_n n c)

pub pop_n : ℕ → Cpu → Outcome Cpu
pop_n zero c = ok c
pop_n (suc n) c = pop_off c >>= pop_n n

push_off-IsNested : (c : Cpu) → IsNested c → IsNested (push_off c)
unfolding push_off
push_off-IsNested c h = record { off = λ ne. refl }

push_n-IsNested : (n : ℕ) (c : Cpu) → IsNested c → IsNested (push_n n c)
unfolding push_n
push_n-IsNested zero c h = h
push_n-IsNested (suc n) c h = push_off-IsNested (push_n n c) (push_n-IsNested n c h)

-- What a CPU shows of its interrupts; `intena` counts only inside a push_off.
abbrev pub Same : Cpu → Cpu → Type 0
Same c d = (c.noff ≡ d.noff) × (c.enabled ≡ d.enabled) × (c.noff ≢ 0 → c.intena ≡ d.intena)

pop_off-push_off : (c : Cpu) → IsNested c → (c' : Cpu) × (pop_off (push_off c) ≡ ok c') × Same c' c
unfolding push_off pop_off
pop_off-push_off c h = (
  record c { intena = (if c.noff == 0 then c.enabled else c.intena) },
  ground (arith, h.off),
  (refl, refl, λ ne. rw (==_of_ne ne)),
)

-- Inside a push_off, even `intena` is restored.
pop_off-push_off_inner : (c : Cpu) → IsNested c → c.noff ≢ 0 → pop_off (push_off c) ≡ ok c
unfolding push_off pop_off
pop_off-push_off_inner c h ne = ground (arith, h.off)

noff-push_n : (n : ℕ) (c : Cpu) → (push_n n c).noff ≡ c.noff + n
unfolding push_n push_off
noff-push_n zero c = omega arith
noff-push_n (suc n) c = omega (arith, noff-push_n n c)

-- After n calls of push_off, interrupts are off (for n > 0), and n calls of pop_off do not panic
-- and give back the depth and the interrupt state from before, whatever those were.
pub pop_n-push_n :
    (n : ℕ) (c : Cpu)
    → IsNested c
    → ((push_n (suc n) c).enabled ≡ false)
      × ((c' : Cpu) × (pop_n (suc n) (push_n (suc n) c) ≡ ok c') × Same c' c)
unfolding push_n pop_n
pop_n-push_n zero c h =
    let (c', e, same) = pop_off-push_off c h in (unfold push_off in refl, (c', rw e, same))
pop_n-push_n (suc n) c h =
    let d = push_n (suc n) c in
    let step : pop_off (push_off d) ≡ ok d =
      pop_off-push_off_inner d (push_n-IsNested (suc n) c h)
        (omega (arith, noff-push_n (suc n) c)) in
    let (c', e, same) = (pop_n-push_n n c h).1 in (unfold push_off in refl, (c', rw step e, same))

-- On a free lock acquire succeeds and leaves interrupts off; taking the lock again panics; release
-- by the same CPU gives back a free lock and the interrupt state from before; and a release by
-- another CPU panics.
pub acquire-release :
    (me : ℕ) (lk : Spinlock) (c : Cpu)
    → lk.locked ≡ false
    → IsNested c
    → (lk₁ : Spinlock) × (c₁ : Cpu) × (lk₂ : Spinlock) × (c₂ : Cpu) × (acquire me lk c
        ≡ ok (lk₁, c₁))
      × (c₁.enabled ≡ false)
      × (acquire me lk₁ c₁ ≡ panic)
      × (release me lk₁ c₁ ≡ ok (lk₂, c₂))
      × (lk₂.locked ≡ false)
      × Same c₂ c
      × ((other : ℕ) → other ≢ me → release other lk₁ c₁ ≡ panic)
unfolding acquire release holding
acquire-release me lk c unlocked h =
    let (c₂, e, same) = pop_off-push_off c h in
    (
      record { locked = true; cpu = some me },
      push_off c,
      record { locked = false; cpu = none },
      c₂,
      rw unlocked,
      unfold push_off in refl,
      rw (==_refl me),
      rw (==_refl me, e),
      refl,
      same,
      λ other ne. ground arith,
    )
