-- ===== src/Bio/Recency.antt =====
-- brelse, bread and bwrite of kernel/bio.c: the order of the buffers, and what they hold.
use avx_loong_arch.Prelude.{
  ℕ, ◌+◌, ◌^◌, ◌<◌, ◌≡◌, refl, ap, ◌≢◌, ◌⊎◌, inl, inr, true, false, ◌&&◌, none, some, List, [], ◌∷◌,
  ◌++◌, arith, ◌==◌, if◌then◌else◌, Bool-cases, ==_refl, All, ok, panic,
}
use avx_loong_arch.Bio.{
  SleepLock, acquiresleep, releasesleep, holdingsleep, Buf, Disk, filled, bread_locked, bwrite,
  change, remove, dropped, brelse,
}

-- The buffer's number is none of these.
abbrev pub NotAmong : ℕ → List Buf → Type 0
NotAmong i bs = All (λ b. (b.id == i) ≡ false) bs

remove-append :
    (i : ℕ) (pre post : List Buf) (b : Buf)
    → NotAmong i pre
    → b.id ≡ i
    → remove i (pre ++ b ∷ post) ≡ pre ++ post
remove-append i [] post b out e = let here : (b.id == i) ≡ true = rw e (==_refl i) in rw here
remove-append i (c ∷ pre) post b (miss, out) e =
    rw miss (ap (λ t. c ∷ t) (remove-append i pre post b out e))

change-append :
    (f : Buf → Buf) (i : ℕ) (pre post : List Buf) (b : Buf)
    → NotAmong i pre
    → b.id ≡ i
    → change f i (pre ++ b ∷ post) ≡ pre ++ f b ∷ post
change-append f i [] post b out e = let here : (b.id == i) ≡ true = rw e (==_refl i) in rw here
change-append f i (c ∷ pre) post b (miss, out) e =
    rw miss (ap (λ t. c ∷ t) (change-append f i pre post b out e))

-- brelse by a process that does not hold the buffer's lock panics. By its holder, it frees the lock
-- and counts one user less; the buffer goes to the front of the list if that was its last user, and
-- stays in its place otherwise; the others keep their order.
pub brelse_lem :
    (pid : ℕ) (pre post : List Buf) (b : Buf)
    → NotAmong b.id pre
    → 0 < b.refcnt
    → b.refcnt < 2 ^ 32
    → ((holdingsleep pid b.lock ≡ false) × (brelse pid b (pre ++ b ∷ post) ≡ panic))
      ⊎ (holdingsleep pid b.lock ≡ true)
        × ((b' : Buf) × (b'.lock.locked ≡ false)
            × (b'.refcnt + 1 ≡ b.refcnt)
            × (b'.content ≡ b.content)
            × ((b.refcnt ≡ 1) × (brelse pid b (pre ++ b ∷ post) ≡ ok (b' ∷ pre ++ post))
                ⊎ (b.refcnt ≢ 1) × (brelse pid b (pre ++ b ∷ post) ≡ ok (pre ++ b' ∷ post))))
unfolding brelse releasesleep
brelse_lem pid pre post b out pos fits = elim (Bool-cases (holdingsleep pid b.lock)) [
  | inl held ↦ inr (
    held,
    (
      dropped b,
      refl,
      omega arith,
      refl,
      elim (Bool-cases ((dropped b).refcnt == 0)) [
        | inl last ↦ inl (ground arith, rw (held, last, remove-append b.id pre post b out refl))
        | inr more ↦
            inr (
              ground arith,
              rw (held, more, change-append (λ c. dropped b) b.id pre post b out refl),
            )
      ],
    ),
  )
  | inr free ↦ inl (free, rw free)
]

-- A valid buffer holds what is on the disk.
abbrev pub IsClean : Disk → Buf → Type 0
IsClean disk b = b.valid ≡ true → b.content ≡ disk b.dev b.sectorno

-- On a clean buffer, bread sleeps while its lock is held; else the process gets the lock, and the
-- buffer is valid and holds its sector of the disk.
pub bread_locked_lem :
    (pid : ℕ) (disk : Disk) (b : Buf)
    → IsClean disk b
    → ((b.lock.locked ≡ true) × (bread_locked pid disk b ≡ none))
      ⊎ (b.lock.locked ≡ false)
        × ((b' : Buf) × (bread_locked pid disk b ≡ some b')
            × (holdingsleep pid b'.lock ≡ true)
            × (b'.valid ≡ true)
            × (b'.content ≡ disk b.dev b.sectorno))
unfolding bread_locked acquiresleep holdingsleep
bread_locked_lem pid disk b clean = elim (Bool-cases b.lock.locked) [
  | inl held ↦ inl (held, rw held)
  | inr free ↦
      let lk : SleepLock = record { locked = true; pid = pid } in
      inr (free, (filled disk (record b { lock = lk }), rw free, holds lk, all_valid lk, same lk))
]
  where
    holds :
        (lk : SleepLock)
        → (holdingsleep pid
            (filled disk (record b { lock = record { locked = true; pid = pid } })).lock)
          ≡ true
    holds lk = elim (Bool-cases b.valid) [
      | inl v ↦ rw v (ground arith)
      | inr v ↦ rw v (ground arith)
    ]

    all_valid : (lk : SleepLock) → (filled disk (record b { lock = lk })).valid ≡ true
    all_valid lk = elim (Bool-cases b.valid) [ inl v ↦ rw v refl | inr v ↦ rw v ]

    same : (lk : SleepLock) → (filled disk (record b { lock = lk })).content ≡ disk b.dev b.sectorno
    same lk = elim (Bool-cases b.valid) [ inl v ↦ rw v (clean v) | inr v ↦ rw v ]

-- What bwrite writes is what a later bread of the same block into a buffer that is not valid reads;
-- every other block of the disk stays as it is. bwrite panics for a process without the lock.
pub bwrite-bread_locked :
    (pid pid' : ℕ) (b c : Buf) (disk : Disk)
    → c.dev ≡ b.dev
    → c.sectorno ≡ b.sectorno
    → c.valid ≡ false
    → c.lock.locked ≡ false
    → ((holdingsleep pid b.lock ≡ false) × (bwrite pid b disk ≡ panic))
      ⊎ ((disk' : Disk) × (c' : Buf) × (bwrite pid b disk ≡ ok disk')
          × (bread_locked pid' disk' c ≡ some c')
          × (c'.content ≡ b.content)
          × ((dev s : ℕ) → (dev ≢ b.dev) ⊎ (s ≢ b.sectorno) → disk' dev s ≡ disk dev s))
unfolding bwrite bread_locked acquiresleep
bwrite-bread_locked pid pid' b c disk dev sec invalid unlocked =
    elim (Bool-cases (holdingsleep pid b.lock)) [
      | inr free ↦ inl (free, rw free)
      | inl held ↦
          let disk' : Disk =
            λ dev s. if (dev == b.dev) && (s == b.sectorno) then b.content else disk dev s in
          let lk : SleepLock = record { locked = true; pid = pid' } in
          inr (
            disk',
            filled disk' (record c { lock = lk }),
            rw held,
            rw unlocked,
            rw (invalid, dev, sec, ==_refl b.dev, ==_refl b.sectorno),
            λ dv s ne. ground arith,
          )
    ]
