-- ===== src/Ring/Values.antt =====
-- Stretches of bytes, and copies that succeed, for kernel/ring_buffer.c.
use mathlib.Core.Path.{fun_ext}
use avx_loong_arch.Prelude.{
  ℕ, zero, suc, ◌+◌, ◌-◌, ◌≤◌, ◌<◌, ◌≡◌, refl, ap, ap₂, ◌∙◌, inl, inr, ◌&&◌, List, [], ◌∷◌, ◌++◌,
  arith, ltb, leb, if◌then◌else◌, Bool-cases, length,
}
use avx_loong_arch.Ring.{ring_buffer_size, Ring, Copy, user_after, cells_after}

-- The n values of f from i on.
abbrev pub values : (ℕ → ℕ) → (i n : ℕ) → List ℕ
values f i zero = []
values f i (suc n) = f i ∷ values f (i + 1) n

pub values-eq :
    (f g : ℕ → ℕ) (i k n : ℕ)
    → ((j : ℕ) → j < n → f (i + j) ≡ g (k + j))
    → values f i n ≡ values g k n
values-eq f g i k zero h = refl
values-eq f g i k (suc n) h =
    ap₂ (λ x xs. x ∷ xs)
      (let e : i + 0 ≡ i = omega arith in
        let e' : k + 0 ≡ k = omega arith in rw (e, e') at (h 0 (omega arith)))
      (values-eq f g (i + 1) (k + 1) n (λ j lt.
        let e : i + suc j ≡ i + 1 + j = omega arith in
        let e' : k + suc j ≡ k + 1 + j = omega arith in rw (e, e') at (h (suc j) (omega arith))))

pub values-append :
    (f : ℕ → ℕ) (i m n : ℕ) → values f i (m + n) ≡ values f i m ++ values f (i + m) n
values-append f i zero n =
    let e : 0 + n ≡ n = omega arith in let e' : i + 0 ≡ i = omega arith in rw (e, e')
values-append f i (suc m) n =
    let e : suc m + n ≡ suc (m + n) = omega arith in
    let e' : i + suc m ≡ i + 1 + m = omega arith in
    rw (e, e') (ap (λ t. f i ∷ t) (values-append f (i + 1) m n))

pub length-values : (f : ℕ → ℕ) (i n : ℕ) → length (values f i n) ≡ n
length-values f i zero = refl
length-values f i (suc n) = omega (arith, length-values f (i + 1) n)

-- `to` after a copy that succeeds.
abbrev pub copied : Copy
copied to dst from src n k = if leb dst k && ltb k (dst + n) then from (src + (k - dst)) else to k

-- copyout succeeds on the user's `size` bytes from buf on, and so does copyin.
abbrev pub CopiesOut : Copy → ℕ → Type 0
CopiesOut copyout size =
    (user : ℕ → ℕ) (dst : ℕ) (cells : ℕ → ℕ) (src n k : ℕ)
    → dst + n ≤ size
    → copyout user dst cells src n k ≡ copied user dst cells src n k

abbrev pub CopiesIn : Copy → ℕ → Type 0
CopiesIn copyin size =
    (cells : ℕ → ℕ) (dst : ℕ) (user : ℕ → ℕ) (src n k : ℕ)
    → src + n ≤ size
    → copyin cells dst user src n k ≡ copied cells dst user src n k

pub user_after-copied :
    (copyout : Copy) (r : Ring) (user : ℕ → ℕ) (len size : ℕ)
    → CopiesOut copyout size
    → len ≤ size
    → user_after copyout r user len ≡ user_after copied r user len
user_after-copied copyout r user len size works le =
    elim (Bool-cases (ltb ring_buffer_size (r.head + len))) [
      | inl two ↦
          let right = ring_buffer_size - r.head in
          let fits : right + (len - right) ≤ size = ground (arith, two, le) in
          rw two (
            fun_ext (λ k.
              works (copyout user 0 r.cells r.head right) right r.cells 0 (len - right) k fits)
            ∙ ap (λ m. copied m right r.cells 0 (len - right))
                (fun_ext (λ k. works user 0 r.cells r.head right k (omega (arith, fits)))))
      | inr one ↦ rw one (fun_ext (λ k. works user 0 r.cells r.head len k (omega (arith, le))))
    ]

pub cells_after-copied :
    (copyin : Copy) (r : Ring) (user : ℕ → ℕ) (len size : ℕ)
    → CopiesIn copyin size
    → len ≤ size
    → cells_after copyin r user len ≡ cells_after copied r user len
cells_after-copied copyin r user len size works le =
    elim (Bool-cases (ltb ring_buffer_size (r.tail + len))) [
      | inl two ↦
          let right = ring_buffer_size - r.tail in
          let fits : right + (len - right) ≤ size = ground (arith, two, le) in
          rw two (
            fun_ext
              (λ k. works (copyin r.cells r.tail user 0 right) 0 user right (len - right) k fits)
            ∙ ap (λ m. copied m 0 user right (len - right))
                (fun_ext (λ k. works r.cells r.tail user 0 right k (omega (arith, fits)))))
      | inr one ↦ rw one (fun_ext (λ k. works r.cells r.tail user 0 len k (omega (arith, le))))
    ]
