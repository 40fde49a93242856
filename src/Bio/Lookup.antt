-- ===== src/Bio/Lookup.antt =====
-- bget of kernel/bio.c: which buffer it answers, and that no block gets two buffers.
use avx_loong_arch.Prelude.{
  ℕ, ◌+◌, ◌≤◌, ◌≡◌, refl, ap, ◌≢◌, ◌⊎◌, inl, inr, true, false, Option, none, some, List, [], ◌∷◌,
  ◌++◌, arith, ◌==◌, if◌then◌else◌, Bool-cases, eq_of_==, ne_of_==, All, Outcome, ok, panic,
  out_of_fuel,
}
use avx_loong_arch.Bio.{
  Buf, is_tag, pinned, recycled, behind, find_cached, recycle_here, first_of, find_free, or_panic,
  bget,
}

abbrev pub Tagged : (dev sectorno : ℕ) → Buf → Type 0
Tagged dev sectorno b = is_tag dev sectorno b ≡ true

abbrev pub Untagged : (dev sectorno : ℕ) → Buf → Type 0
Untagged dev sectorno b = is_tag dev sectorno b ≡ false

abbrev pub Busy : Buf → Type 0
Busy b = b.refcnt ≢ 0

-- The list `us` is `bs` with its buffer b, the one with number i, made b'.
pub record Replaced (bs us pre post : List Buf) (i : ℕ) (b b' : Buf) : Type 0 where
  pub old : bs ≡ pre ++ b ∷ post
  pub new : us ≡ pre ++ b' ∷ post
  pub number : i ≡ b.id

Replaced-cons :
    {bs us pre post : List Buf} {i : ℕ} {b b' : Buf} (c : Buf)
    → Replaced bs us pre post i b b'
    → Replaced (c ∷ bs) (c ∷ us) (c ∷ pre) post i b b'
Replaced-cons c r = record {
  old = ap (λ t. c ∷ t) r.old;
  new = ap (λ t. c ∷ t) r.new;
  number = r.number;
}

abbrev pub Cached : (dev sectorno : ℕ) → List Buf → Option (ℕ × List Buf) → Type 0
Cached dev sectorno bs none = All (Untagged dev sectorno) bs
Cached dev sectorno bs (some (i, us)) =
    (pre post : List Buf) × (b : Buf) × Replaced bs us pre post i b (pinned b)
    × Tagged dev sectorno b
    × All (Untagged dev sectorno) pre

abbrev pub Recycled : (dev sectorno : ℕ) → List Buf → Option (ℕ × List Buf) → Type 0
Recycled dev sectorno bs none = All Busy bs
Recycled dev sectorno bs (some (i, us)) =
    (pre post : List Buf) × (b : Buf) × Replaced bs us pre post i b (recycled dev sectorno b)
    × (b.refcnt ≡ 0)
    × All Busy post

Cached-behind :
    (dev sectorno : ℕ) (c : Buf) (bs : List Buf) (r : Option (ℕ × List Buf))
    → Untagged dev sectorno c
    → Cached dev sectorno bs r
    → Cached dev sectorno (c ∷ bs) (behind c r)
Cached-behind dev sectorno c bs none miss h = (miss, h)
Cached-behind dev sectorno c bs (some (i, us)) miss (pre, post, b, r, hit, before) =
    (c ∷ pre, post, b, Replaced-cons c r, hit, (miss, before))

find_cached-Cached :
    (dev sectorno : ℕ) (bs : List Buf) → Cached dev sectorno bs (find_cached dev sectorno bs)
unfolding find_cached
find_cached-Cached dev sectorno [] = tt
find_cached-Cached dev sectorno (b ∷ bs) = elim (Bool-cases (is_tag dev sectorno b)) [
  | inl hit ↦ rw hit ([], bs, b, record { old = refl; new = refl; number = refl }, hit, tt)
  | inr miss ↦ rw miss (
      Cached-behind dev sectorno b bs (find_cached dev sectorno bs) miss
        (find_cached-Cached dev sectorno bs))
]

find_free-Recycled :
    (dev sectorno : ℕ) (bs : List Buf) → Recycled dev sectorno bs (find_free dev sectorno bs)
unfolding find_free
find_free-Recycled dev sectorno [] = tt
find_free-Recycled dev sectorno (c ∷ bs) =
    go (find_free dev sectorno bs) (find_free-Recycled dev sectorno bs)
  where
    go :
        (r : Option (ℕ × List Buf))
        → Recycled dev sectorno bs r
        → Recycled dev sectorno (c ∷ bs) (first_of (behind c r) (recycle_here dev sectorno c bs))
    go (some (i, us)) (pre, post, b, r, free, after) =
        (c ∷ pre, post, b, Replaced-cons c r, free, after)
    go none all = elim (Bool-cases (c.refcnt == 0)) [
      | inl free ↦
          rw free ([], bs, c, record { old = refl; new = refl; number = refl }, eq_of_== free, all)
      | inr busy ↦ rw busy (ne_of_== busy, all)
    ]

-- How bget ends.
abbrev pub Got : (dev sectorno : ℕ) → List Buf → Outcome (ℕ × List Buf) → Type 0
Got dev sectorno bs (ok r) =
    Cached dev sectorno bs (some r)
    ⊎ All (Untagged dev sectorno) bs × Recycled dev sectorno bs (some r)
Got dev sectorno bs panic = All (Untagged dev sectorno) bs × All Busy bs
Got dev sectorno bs out_of_fuel = ⊥

Got-first_of :
    (dev sectorno : ℕ) (bs : List Buf) (r s : Option (ℕ × List Buf))
    → Cached dev sectorno bs r
    → Recycled dev sectorno bs s
    → Got dev sectorno bs (or_panic (first_of r s))
Got-first_of dev sectorno bs (some (i, us)) s h k = inl h
Got-first_of dev sectorno bs none (some (i, us)) h k = inr (h, k)
Got-first_of dev sectorno bs none none h k = (h, k)

-- bget answers the first buffer of the block, counting one user more; if the block has none, the
-- least recent buffer without a user, made the block's, not valid and with one user. Every other
-- buffer stays as it is, in its place. It panics exactly when no buffer is the block's and every one
-- has a user.
pub bget-Got : (dev sectorno : ℕ) (bs : List Buf) → Got dev sectorno bs (bget dev sectorno bs)
unfolding bget
bget-Got dev sectorno bs =
    Got-first_of dev sectorno bs (find_cached dev sectorno bs) (find_free dev sectorno bs)
      (find_cached-Cached dev sectorno bs) (find_free-Recycled dev sectorno bs)

-- How many buffers a block has.
abbrev pub copies : (dev sectorno : ℕ) → List Buf → ℕ
copies dev sectorno [] = 0
copies dev sectorno (b ∷ bs) = (if is_tag dev sectorno b then 1 else 0) + copies dev sectorno bs

copies-append :
    (dev sectorno : ℕ) (bs cs : List Buf)
    → copies dev sectorno (bs ++ cs) ≡ copies dev sectorno bs + copies dev sectorno cs
copies-append dev sectorno [] cs = omega arith
copies-append dev sectorno (b ∷ bs) cs = omega (arith, copies-append dev sectorno bs cs)

copies-Untagged :
    (dev sectorno : ℕ) (bs : List Buf) → All (Untagged dev sectorno) bs → copies dev sectorno bs ≡ 0
copies-Untagged dev sectorno [] h = refl
copies-Untagged dev sectorno (b ∷ bs) (miss, h) =
    rw miss (omega (arith, copies-Untagged dev sectorno bs h))

copies-Replaced :
    (dev sectorno : ℕ) {bs us pre post : List Buf} {i : ℕ} {b b' : Buf}
    → Replaced bs us pre post i b b'
    → copies dev sectorno us + (if is_tag dev sectorno b then 1 else 0)
      ≡ copies dev sectorno bs + (if is_tag dev sectorno b' then 1 else 0)
copies-Replaced dev sectorno {bs} {us} {pre} {post} {i} {b} {b'} r =
    rw (r.old, r.new)
      (omega (
        arith,
        copies-append dev sectorno pre (b ∷ post),
        copies-append dev sectorno pre (b' ∷ post),
      ))

-- Whatever block bget is called for, a block that has at most one buffer before has at most one
-- afterwards.
pub bget-copies :
    (dev sectorno dev' sectorno' i : ℕ) (bs us : List Buf)
    → copies dev' sectorno' bs ≤ 1
    → bget dev sectorno bs ≡ ok (i, us)
    → copies dev' sectorno' us ≤ 1
bget-copies dev sectorno dev' sectorno' i bs us one run =
    let got : Got dev sectorno bs (ok (i, us)) = rw run at (bget-Got dev sectorno bs) in
    elim got [
      | inl (pre, post, b, r, hit, before) ↦ omega (arith, copies-Replaced dev' sectorno' r)
      | inr (all, (pre, post, b, r, free, after)) ↦
          elim (Bool-cases (is_tag dev' sectorno' (recycled dev sectorno b))) [
            | inl same ↦
                let e : dev ≡ dev' = ground arith in
                let e' : sectorno ≡ sectorno' = ground arith in
                let none_held : copies dev' sectorno' bs ≡ 0 =
                  rw (e, e') at (copies-Untagged dev sectorno bs all) in
                let sum = copies-Replaced dev' sectorno' r in ground arith
            | inr other ↦ let sum = copies-Replaced dev' sectorno' r in ground arith
          ]
    ]
