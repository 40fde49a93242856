-- ===== src/Pipe/Runs.antt =====
-- Any sequence of the steps of kernel/pipe.c: a pipe is a FIFO queue.
use avx_loong_arch.Prelude.{
  ℕ, zero, suc, ◌+◌, ◌-◌, ◌≤◌, ◌≡◌, refl, ap, ◌∙◌, inl, inr, Bool, true, false, Option, none, some,
  List, [], ◌∷◌, ◌++◌, append-nil, append_assoc, arith, length, All,
}
use avx_loong_arch.Pipe.Read.{piperead-Took}
use avx_loong_arch.Pipe.Write.{Sent, pipewrite-Wrote}
use avx_loong_arch.Pipe.Fifo.{IsValid, contents}
use avx_loong_arch.Pipe.{Pipe, pipewrite, piperead, pipeclose}

-- What the processes at the two ends do, a step at a time.
pub data Op : Type 0 where
  write : (source : ℕ → Option ℕ) (killed : Bool) (i n : ℕ) → i ≤ n → Op
  read : (sink : ℕ → Bool) (killed : Bool) (n : ℕ) → Op
  close : (writable : Bool) → Op

-- The bytes that the source gives for `k` indices from i on.
unfoldable pub values : (ℕ → Option ℕ) → ℕ → ℕ → List ℕ
values source i zero = []
values source i (suc k) = elim (source i) [ none ↦ [] | some b ↦ b ∷ values source (i + 1) k ]

-- The bytes sent and the bytes copied out by a sequence of steps, and the pipe that it leaves.
unfoldable pub run : List Op → Pipe → List ℕ × List ℕ × Pipe
run [] pi = ([], [], pi)
run (write source killed i n le ∷ ops) pi =
    let (e, i', q) = pipewrite source killed i n pi in
    let (sent, received, last) = run ops q in (values source i (i' - i) ++ sent, received, last)
run (read sink killed n ∷ ops) pi =
    let (e, bytes, q) = piperead sink killed n pi in
    let (sent, received, last) = run ops q in (sent, bytes ++ received, last)
run (close writable ∷ ops) pi = run ops (pipeclose writable pi).1

-- No copy to the reader's memory is refused.
abbrev pub Accepting : Op → Type 0
Accepting (read sink killed n) = (j : ℕ) → sink j ≡ true
Accepting _ = Unit

values-Sent :
    (source : ℕ → Option ℕ) (i : ℕ) (bs : List ℕ)
    → Sent source i bs
    → values source i (length bs) ≡ bs
unfolding values
values-Sent source i [] h = refl
values-Sent source i (b ∷ bs) h =
    rw (h.0, values) (ap (λ t. b ∷ t) (values-Sent source (i + 1) bs h.1))

close-IsValid :
    (w : Bool) (pi : Pipe)
    → IsValid pi
    → IsValid (pipeclose w pi).1 × (contents (pipeclose w pi).1 ≡ contents pi)
unfolding pipeclose
close-IsValid true pi v =
    (record { nread_fits = v.nread_fits; nwrite_fits = v.nwrite_fits; held = v.held }, refl)
close-IsValid false pi v =
    (record { nread_fits = v.nread_fits; nwrite_fits = v.nwrite_fits; held = v.held }, refl)

-- With an accepting reader a step of piperead takes exactly what it copies out.
piperead-exact :
    (sink : ℕ → Bool) (killed : Bool) (n : ℕ) (pi : Pipe)
    → IsValid pi
    → ((j : ℕ) → sink j ≡ true)
    → let (e, bytes, q) = piperead sink killed n pi in
      IsValid q × (contents pi ≡ bytes ++ contents q)
piperead-exact sink killed n pi v fine = elim (piperead-Took sink killed n pi v) [
  | inl (dry, opened, nothing, same, e) ↦ (rw same v, rw (nothing, same))
  | inr (why, (r, lost, e, t)) ↦ (
    t.valid,
    elim t.loss [
      | inl none_lost ↦
          t.queue
          ∙ ap (λ l. (piperead sink killed n pi).1 ++ l ++ contents (piperead sink killed n pi).2)
              none_lost
          ∙ ap (λ b. b ++ contents (piperead sink killed n pi).2)
              (append-nil (piperead sink killed n pi).1)
      | inr (one, bad) ↦ cc (fine r)
    ],
  )
]

-- In every interleaving of writing, reading and closing steps, with copies to the reader's memory
-- that succeed: what was in the pipe and then sent is what was received and then is in the pipe,
-- in the same order, and the pipe stays valid. The counters may wrap on the way.
pub run-fifo :
    (ops : List Op) (pi : Pipe)
    → IsValid pi
    → All Accepting ops
    → let (sent, received, last) = run ops pi in
      IsValid last × (contents pi ++ sent ≡ received ++ contents last)
unfolding run
run-fifo [] pi v a = (v, append-nil (contents pi))
run-fifo (write source killed i n le ∷ ops) pi v a =
    let (bs, w) = pipewrite-Wrote source killed n i pi le v in
    let q = (pipewrite source killed i n pi).2 in
    let (v', rest) = run-fifo ops q w.valid a.1 in
    let count : (pipewrite source killed i n pi).1 - i ≡ length bs = omega (arith, w.index) in
    (v', rw (count, values-Sent source i bs w.sent, ← append_assoc, ← w.queue) rest)
run-fifo (read sink killed n ∷ ops) pi v a =
    let (v₁, exact) = piperead-exact sink killed n pi v a.0 in
    let (v', rest) = run-fifo ops (piperead sink killed n pi).2 v₁ a.1 in
    (v', rw (exact, append_assoc, append_assoc) (ap (λ t. (piperead sink killed n pi).1 ++ t) rest))
run-fifo (close w ∷ ops) pi v a =
    let (v₁, same) = close-IsValid w pi v in
    let (v', rest) = run-fifo ops (pipeclose w pi).1 v₁ a.1 in (v', rw (← same) rest)
