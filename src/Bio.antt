-- ===== src/Bio.antt =====
-- kernel/bio.c and kernel/sleeplock.c: the buffer cache, and the sleep locks of its buffers. What
-- runs under bcache.lock, or under the spin lock of a sleep lock, is one step. The disk's driver is
-- an argument, a function from a device and a sector to its bytes.
pub mod Lookup
pub mod Recency
mod Examples
use avx_loong_arch.Prelude.{
  ℕ, zero, suc, ◌+◌, ◌-◌, ◌%◌, ◌^◌, Bool, true, false, ◌&&◌, not, Option, none, some, List, ◌∷◌,
  ◌==◌, if◌then◌else◌, Outcome, ok, panic, [],
}

-- struct sleeplock
pub record SleepLock : Type 0 where
  pub locked : Bool
  pub pid : ℕ

pub initsleeplock : SleepLock
initsleeplock = record { locked = false; pid = 0 }

-- A round of acquiresleep's loop: `none` where the process sleeps and tries again when it is woken.
pub acquiresleep : (pid : ℕ) → SleepLock → Option SleepLock
acquiresleep pid lk = if lk.locked then none else some (record { locked = true; pid = pid })

-- releasesleep, up to its wakeup of the processes that sleep on the lock.
pub releasesleep : SleepLock → SleepLock
releasesleep lk = record { locked = false; pid = 0 }

pub holdingsleep : (pid : ℕ) → SleepLock → Bool
holdingsleep pid lk = lk.locked && (lk.pid == pid)

-- struct buf without its links: `id` is its index in bcache.buf.
pub record Buf : Type 0 where
  pub id : ℕ
  pub valid : Bool
  pub dev : ℕ
  pub sectorno : ℕ
  pub lock : SleepLock
  pub refcnt : ℕ
  pub content : ℕ → ℕ

abbrev pub Disk : Type 0
Disk = ℕ → ℕ → ℕ → ℕ

-- The list from bcache.head.next on, the most recent buffer first. binit puts each next buffer in
-- front.
abbrev pub blank : ℕ → Buf
blank i = record {
  id = i;
  valid = false;
  dev = 2 ^ 32 - 1;
  sectorno = 2 ^ 32 - 1;
  lock = initsleeplock;
  refcnt = 0;
  content = λ o. 0;
}

pub binit : ℕ → List Buf
binit zero = []
binit (suc nbuf) = blank nbuf ∷ binit nbuf

abbrev pub is_tag : (dev sectorno : ℕ) → Buf → Bool
is_tag dev sectorno b = (b.dev == dev) && (b.sectorno == sectorno)

-- `b->refcnt++` and `b->refcnt--` on uint
abbrev pub pinned : Buf → Buf
pinned b = record b { refcnt = (b.refcnt + 1) % 2 ^ 32 }

abbrev pub unpinned : Buf → Buf
unpinned b = record b { refcnt = (b.refcnt + 2 ^ 32 - 1) % 2 ^ 32 }

abbrev pub recycled : (dev sectorno : ℕ) → Buf → Buf
recycled dev sectorno b = record b { dev = dev; sectorno = sectorno; valid = false; refcnt = 1 }

-- A result for the rest of the list, with the buffer before it.
abbrev pub behind : Buf → Option (ℕ × List Buf) → Option (ℕ × List Buf)
behind b none = none
behind b (some (i, bs)) = some (i, b ∷ bs)

-- The two loops of bget: the first from the most recent buffer, the second from the least recent.
pub find_cached : (dev sectorno : ℕ) → List Buf → Option (ℕ × List Buf)
find_cached dev sectorno [] = none
find_cached dev sectorno (b ∷ bs) =
    let rest = find_cached dev sectorno bs in
    if is_tag dev sectorno b then some (b.id, pinned b ∷ bs) else behind b rest

abbrev pub recycle_here : (dev sectorno : ℕ) → Buf → List Buf → Option (ℕ × List Buf)
recycle_here dev sectorno b bs =
    if b.refcnt == 0 then some (b.id, recycled dev sectorno b ∷ bs) else none

abbrev pub first_of : Option (ℕ × List Buf) → Option (ℕ × List Buf) → Option (ℕ × List Buf)
first_of (some r) s = some r
first_of none s = s

pub find_free : (dev sectorno : ℕ) → List Buf → Option (ℕ × List Buf)
find_free dev sectorno [] = none
find_free dev sectorno (b ∷ bs) =
    first_of (behind b (find_free dev sectorno bs)) (recycle_here dev sectorno b bs)

-- bget up to its acquiresleep: the buffer, and the list.
abbrev pub or_panic : Option (ℕ × List Buf) → Outcome (ℕ × List Buf)
or_panic none = panic
or_panic (some r) = ok r

pub bget : (dev sectorno : ℕ) → List Buf → Outcome (ℕ × List Buf)
bget dev sectorno bs = or_panic (first_of (find_cached dev sectorno bs) (find_free dev sectorno bs))

-- bread from the acquiresleep of bget on, for a buffer: `none` where the process sleeps.
abbrev pub filled : Disk → Buf → Buf
filled disk b = if b.valid then b else record b { content = disk b.dev b.sectorno; valid = true }

pub bread_locked : (pid : ℕ) → Disk → Buf → Option Buf
bread_locked pid disk b = elim (acquiresleep pid b.lock) [
  | none ↦ none
  | some lk ↦ some (filled disk (record b { lock = lk }))
]

-- bwrite: the disk with the buffer's sector written.
pub bwrite : (pid : ℕ) → Buf → Disk → Outcome Disk
bwrite pid b disk =
    if holdingsleep pid b.lock
    then ok (λ dev s. if (dev == b.dev) && (s == b.sectorno) then b.content else disk dev s)
    else panic

-- A change to the buffer with an id, and the buffer taken off the list.
abbrev pub change : (Buf → Buf) → ℕ → List Buf → List Buf
change f i [] = []
change f i (b ∷ bs) = if b.id == i then f b ∷ bs else b ∷ change f i bs

abbrev pub remove : ℕ → List Buf → List Buf
remove i [] = []
remove i (b ∷ bs) = if b.id == i then bs else b ∷ remove i bs

-- brelse of buffer b, which stands in the list under its id.
abbrev pub dropped : Buf → Buf
dropped b = unpinned (record b { lock = releasesleep b.lock })

pub brelse : (pid : ℕ) → Buf → List Buf → Outcome (List Buf)
brelse pid b bs =
    if not (holdingsleep pid b.lock)
    then panic
    else (if (dropped b).refcnt == 0
        then ok (dropped b ∷ remove b.id bs)
        else ok (change (λ c. dropped b) b.id bs))

pub bpin : ℕ → List Buf → List Buf
bpin i bs = change pinned i bs

pub bunpin : ℕ → List Buf → List Buf
bunpin i bs = change unpinned i bs
