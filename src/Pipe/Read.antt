-- ===== src/Pipe/Read.antt =====
-- A step of piperead of kernel/pipe.c on the queue of bytes.
use avx_loong_arch.Prelude.{
  ℕ, zero, suc, ◌+◌, ◌≡◌, refl, ap, ◌∙◌, ◌≢◌, ◌⊎◌, inl, inr, Bool, true, false, ◌&&◌, List, [], ◌∷◌,
  ◌++◌, arith, if◌then◌else◌, Bool-cases, length,
}
use avx_loong_arch.Pipe.Fifo.{
  used, IsValid, window, contents, is_empty-used, get-contents, wake-IsValid,
}
use avx_loong_arch.Pipe.{
  nread_chan, nwrite_chan, Pipe, is_empty, get, returned, failed, asleep, read_loop, piperead,
}

-- The queue `before` is the bytes copied out, then at most one byte whose copy was refused, then
-- the queue that is left. The copying stops early only at a refused copy or an empty pipe.
pub record Took (sink : ℕ → Bool) (i left : ℕ) (before bytes lost : List ℕ) (r : ℕ) (q : Pipe)
    : Type 0 where
  pub index : r ≡ i + length bytes
  pub valid : IsValid q
  pub queue : before ≡ bytes ++ lost ++ contents q
  pub loss : (lost ≡ []) ⊎ ((length lost ≡ 1) × (sink r ≡ false))
  pub stop : (length bytes ≡ left) ⊎ (contents q ≡ []) ⊎ (sink r ≡ false)

contents-empty : (pi : Pipe) → IsValid pi → is_empty pi ≡ true → contents pi ≡ []
contents-empty pi v e =
    let none_held : used pi ≡ 0 = ground (arith, is_empty-used pi v) in
    ap (window pi.cells pi.nread) none_held

read_loop-Took :
    (sink : ℕ → Bool) (i left : ℕ) (pi : Pipe)
    → IsValid pi
    → let (r, bytes, q) = read_loop sink i left pi in
      (lost : List ℕ) × Took sink i left (contents pi) bytes lost r q
unfolding read_loop
read_loop-Took sink i zero pi v = (
  [],
  record {
    index = omega arith;
    valid = wake-IsValid nwrite_chan pi v;
    queue = refl;
    loss = inl refl;
    stop = inl refl;
  },
)
read_loop-Took sink i (suc left) pi v = elim (Bool-cases (is_empty pi)) [
  | inl dry ↦ rw dry (
    [],
    record {
      index = omega arith;
      valid = wake-IsValid nwrite_chan pi v;
      queue = refl;
      loss = inl refl;
      stop = inr (inl (contents-empty pi v dry));
    },
  )
  | inr more ↦
      let (v', first) = get-contents pi v more in
      elim (Bool-cases (sink i)) [
        | inl fine ↦
            let (lost, t) = read_loop-Took sink (i + 1) left (get pi).1 v' in
            rw (more, fine)
              (
                lost,
                record {
                  index = omega (arith, t.index);
                  valid = t.valid;
                  queue = first ∙ ap (λ l. (get pi).0 ∷ l) t.queue;
                  loss = t.loss;
                  stop = elim t.stop [ inl e ↦ inl (ap suc e) | inr o ↦ inr o ];
                },
              )
        | inr bad ↦
            rw (more, bad)
              (
                (get pi).0 ∷ [],
                record {
                  index = omega arith;
                  valid = wake-IsValid nwrite_chan (get pi).1 v';
                  queue = first;
                  loss = inr (refl, bad);
                  stop = inr (inr bad);
                },
              )
      ]
]

-- A step of piperead on a pipe that is empty and still open for writing copies nothing and fails
-- if the process is killed, and sleeps otherwise. On any other pipe it returns the number of bytes
-- copied out: the first bytes of the queue, in order, up to n.
pub piperead-Took :
    (sink : ℕ → Bool) (killed : Bool) (n : ℕ) (pi : Pipe)
    → IsValid pi
    → let (e, bytes, q) = piperead sink killed n pi in
      ((contents pi ≡ [])
        × (pi.writeopen ≡ true)
        × (bytes ≡ [])
        × (q ≡ pi)
        × (e ≡ (if killed then failed else asleep nread_chan)))
      ⊎ ((contents pi ≢ []) ⊎ (pi.writeopen ≡ false))
        × ((r : ℕ) × (lost : List ℕ) × (e ≡ returned r)
            × Took sink 0 n (contents pi) bytes lost r q)
unfolding piperead
piperead-Took sink killed n pi v = elim (Bool-cases (is_empty pi && pi.writeopen)) [
  | inl wait ↦ rw wait (
      inl (
        contents-empty pi v (ground arith),
        ground arith,
        ground arith,
        ground arith,
        ground arith,
      ))
  | inr go ↦
      let (lost, t) = read_loop-Took sink 0 n pi v in
      rw go (
        inr (
          elim (Bool-cases (is_empty pi)) [
            | inl dry ↦ inr (ground arith)
            | inr more ↦ inl (let first = (get-contents pi v more).1 in λ e. cc)
          ],
          (_, lost, refl, t),
        ))
]
