-- ===== src/Pipe/Write.antt =====
-- A step of pipewrite of kernel/pipe.c on the queue of bytes.
use avx_loong_arch.Prelude.{
  ℕ, zero, suc, ◌+◌, ◌-◌, ◌≤◌, ◌<◌, ◌≡◌, refl, sym, ap, ◌∙◌, ◌⊎◌, inl, inr, Bool, true, false, ◌||◌,
  not, Option, none, some, List, [], ◌∷◌, ◌++◌, append-nil, append_assoc, arith, Bool-cases,
  Option-cases, length,
}
use avx_loong_arch.Pipe.Fifo.{IsValid, contents, put-contents, wake-IsValid}
use avx_loong_arch.Pipe.{
  Chan, nread_chan, nwrite_chan, Pipe, wake, is_full, put, End, returned, failed, asleep,
  write_loop, pipewrite,
}

-- The source holds these bytes from index i on.
abbrev pub Sent : (ℕ → Option ℕ) → ℕ → List ℕ → Type 0
Sent source i [] = Unit
Sent source i (b ∷ bs) = (source i ≡ some b) × Sent source (i + 1) bs

-- How a step of pipewrite may end at index i, of n bytes.
abbrev pub WriteEnd : (ℕ → Option ℕ) → Bool → ℕ → End → ℕ → Pipe → Type 0
WriteEnd source killed n (returned r) i q = (r ≡ i) × ((i ≡ n) ⊎ (source i ≡ none))
WriteEnd source killed n failed i q =
    (is_full q ≡ true) × ((not q.readopen || killed) ≡ true) × (i < n)
WriteEnd source killed n (asleep c) i q =
    (c ≡ nwrite_chan) × (is_full q ≡ true) × (q.readopen ≡ true) × (killed ≡ false) × (i < n)

pub record Wrote (source : ℕ → Option ℕ) (killed : Bool) (i n : ℕ) (pi : Pipe)
    (out : End × ℕ × Pipe) (bs : List ℕ) : Type 0 where
  pub sent : Sent source i bs
  pub index : out.1 ≡ i + length bs
  pub valid : IsValid out.2
  pub queue : contents out.2 ≡ contents pi ++ bs
  pub end : WriteEnd source killed n out.0 out.1 out.2

is_full-wake : (c : Chan) (pi : Pipe) → is_full (wake c pi) ≡ is_full pi
unfolding is_full
is_full-wake c pi = refl

-- A step that writes nothing more.
Wrote-none :
    (source : ℕ → Option ℕ) (killed : Bool) (i n : ℕ) (pi q : Pipe) (e : End)
    → IsValid q
    → contents q ≡ contents pi
    → WriteEnd source killed n e i q
    → Wrote source killed i n pi (e, i, q) []
Wrote-none source killed i n pi q e v same end = record {
  sent = tt;
  index = omega arith;
  valid = v;
  queue = same ∙ sym (append-nil (contents pi));
  end = end;
}

-- A byte put, and then the rest of the step.
Wrote-cons :
    (source : ℕ → Option ℕ) (killed : Bool) (i n ch : ℕ) (pi : Pipe) (out : End × ℕ × Pipe)
    (bs : List ℕ)
    → source i ≡ some ch
    → contents (put ch pi) ≡ contents pi ++ ch ∷ []
    → Wrote source killed (i + 1) n (put ch pi) out bs
    → Wrote source killed i n pi out (ch ∷ bs)
Wrote-cons source killed i n ch pi out bs here grown w = record {
  sent = (here, w.sent);
  index = omega (arith, w.index);
  valid = w.valid;
  queue = w.queue ∙ ap (λ t. t ++ bs) grown ∙ append_assoc (contents pi) (ch ∷ []) bs;
  end = w.end;
}

write_loop-Wrote :
    (source : ℕ → Option ℕ) (killed : Bool) (n i left : ℕ) (pi : Pipe)
    → i + left ≡ n
    → IsValid pi
    → (bs : List ℕ) × Wrote source killed i n pi (write_loop source killed i left pi) bs
unfolding write_loop
write_loop-Wrote source killed n i zero pi e v = (
  [],
  Wrote-none source killed i n pi (wake nread_chan pi) (returned i) (wake-IsValid nread_chan pi v)
      refl (refl, inl (omega arith)),
)
write_loop-Wrote source killed n i (suc left) pi e v = elim (Bool-cases (is_full pi)) [
  | inl full ↦ rw full (elim (Bool-cases (not pi.readopen || killed)) [
    | inl stop ↦
        rw stop ([], Wrote-none source killed i n pi pi failed v refl (full, stop, omega arith))
    | inr wait ↦ rw wait (
      [],
      Wrote-none source killed i n pi (wake nread_chan pi) (asleep nwrite_chan)
          (wake-IsValid nread_chan pi v) refl
          (refl, is_full-wake nread_chan pi ∙ full, ground arith, ground arith, omega arith),
    )
  ])
  | inr room ↦ rw room (elim (Option-cases (source i)) [
    | inl fault ↦
        rw (fault, write_loop)
          (
            [],
            Wrote-none source killed i n pi (wake nread_chan pi) (returned i)
                (wake-IsValid nread_chan pi v) refl (refl, inr fault),
          )
    | inr (ch, here) ↦
        let (v', grown) = put-contents pi v ch room in
        let (bs, w) = write_loop-Wrote source killed n (i + 1) left (put ch pi) (omega arith) v' in
        rw (here, write_loop) (ch ∷ bs, Wrote-cons source killed i n ch pi _ bs here grown w)
  ])
]

-- A step of pipewrite that has i of n bytes written puts the next bytes of the source, in order,
-- at the end of the queue, as many as its index has grown by. It returns that index when all n
-- bytes are written or the source faults; on a full pipe it fails if the read end is closed or the
-- process is killed, and otherwise sleeps.
pub pipewrite-Wrote :
    (source : ℕ → Option ℕ) (killed : Bool) (n i : ℕ) (pi : Pipe)
    → i ≤ n
    → IsValid pi
    → (bs : List ℕ) × Wrote source killed i n pi (pipewrite source killed i n pi) bs
unfolding pipewrite
pipewrite-Wrote source killed n i pi le v =
    write_loop-Wrote source killed n i (n - i) pi (omega arith) v
