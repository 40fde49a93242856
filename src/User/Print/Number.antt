-- ===== src/User/Print/Number.antt =====
-- printint of user/printf.c stays in its buffer, and atoi of user/ulib.c reads what it prints.
use native.Mathlib.Nat.{div-lt_iff_lt-mul, mul-le-mul_left}
use avx_loong_arch.Prelude.{
  ℕ, zero, suc, ◌+◌, ◌-◌, ◌*◌, ◌/◌, ◌%◌, ◌^◌, ◌≤◌, ◌<◌, ◌≡◌, ◌≢◌, refl, ap, ◌∙◌, inl, inr, Bool,
  true, false, ◌&&◌, List, [], ◌∷◌, arith, ltb, ◌==◌, Bool-cases, eq_of_==, ne_of_==, length, ok,
}
use avx_loong_arch.User.Print.{digit, put_digits, is_negative, printint, is_digit, atoi_loop, atoi}

abbrev pow10 : ℕ → ℕ
pow10 zero = 1
pow10 (suc k) = 10 * pow10 k

div_less : (x base k : ℕ) → 10 ≤ base → x < 10 * k → x / base < k
div_less x base k wide less =
    let wider : k * 10 ≤ k * base = mul-le-mul_left k wide in
    (div-lt_iff_lt-mul (omega (arith, wide))).1 (omega (arith, less, wider))

-- A number of at most k + 1 digits to base 10 takes no more characters to a larger base.
put_digits-length :
    (fuel base k x : ℕ) (buf : List ℕ)
    → 10 ≤ base
    → x < pow10 (suc k)
    → k < fuel
    → (out : List ℕ) × (put_digits fuel base x buf ≡ ok out) × (length out ≤ suc k + length buf)
unfolding put_digits
put_digits-length zero base k x buf wide less enough = absurd (omega arith)
put_digits-length (suc fuel) base zero x buf wide less enough =
    let small : x / base ≡ 0 = omega (arith, div_less x base 1 wide less) in
    let done : (x / base == 0) ≡ true = ground (arith, small) in
    rw done (digit (x % base) ∷ buf, refl, omega arith)
put_digits-length (suc fuel) base (suc k) x buf wide less enough =
    elim (Bool-cases (x / base == 0)) [
      | inl done ↦ rw done (digit (x % base) ∷ buf, refl, omega arith)
      | inr more ↦
          let (out, run, len) =
            put_digits-length fuel base k (x / base) (digit (x % base) ∷ buf) wide
              (div_less x base (pow10 (suc k)) wide less) (omega arith) in
          rw more (out, run, omega (arith, len))
    ]

-- For the bases that printint is called with, 10 and 16, and any other from 10 on, it ends with at
-- most 11 characters in its buffer, which has 16.
pub printint-length :
    (xx base : ℕ) (sgn : Bool)
    → xx < 2 ^ 32
    → 10 ≤ base
    → (out : List ℕ) × (printint xx base sgn ≡ ok out) × (length out ≤ 11)
unfolding printint
printint-length xx base sgn small wide = elim (Bool-cases (sgn && is_negative xx)) [
  | inl minus ↦
      let (out, run, len) =
        put_digits-length 32 base 9 (2 ^ 32 - xx) [] wide (omega arith) (omega arith) in
      rw (minus, run) (b'-' ∷ out, refl, omega (arith, len))
  | inr plus ↦
      let (out, run, len) =
        put_digits-length 32 base 9 xx [] wide (omega (arith, small)) (omega arith) in
      rw (plus, run) (out, refl, omega (arith, len))
]

-- A digit to base 10, and its value.
IsDecimal : ℕ → Type 0
IsDecimal c = (is_digit c ≡ true) × ((c == b'-') ≡ false)

digit-IsDecimal : (x : ℕ) → IsDecimal (digit (x % 10))
unfolding IsDecimal
digit-IsDecimal x =
    let low : ltb (x % 10) 10 ≡ true = ground arith in rw low (ground arith, ground arith)

-- Reading the digits of x is reading on from x.
atoi_loop-put_digits :
    (fuel x : ℕ) (buf : List ℕ)
    → x < 2 ^ fuel
    → x < 2 ^ 32
    → 0 < fuel
    → (c : ℕ) × (out : List ℕ) × (put_digits fuel 10 x buf ≡ ok (c ∷ out))
      × IsDecimal c
      × (atoi_loop 0 (c ∷ out) ≡ atoi_loop x buf)
unfolding put_digits atoi_loop IsDecimal
atoi_loop-put_digits zero x buf less small pos = absurd (omega arith)
atoi_loop-put_digits (suc fuel) x buf less small pos =
    let step : (n : ℕ)
        → n * 10 + x % 10 ≡ x
        → atoi_loop n (digit (x % 10) ∷ buf) ≡ atoi_loop x buf =
      λ n e.
        let low : ltb (x % 10) 10 ≡ true = ground arith in
        let fits : is_digit (b'0' + x % 10) ≡ true = ground arith in
        let value : (n * 10 + (b'0' + x % 10 - b'0')) % 2 ^ 32 ≡ x = omega (arith, e, small) in
        rw (low, fits, value) refl in
    elim (Bool-cases (x / 10 == 0)) [
      | inl done ↦
          rw done
            (digit (x % 10), buf, refl, digit-IsDecimal x, step 0 (omega (arith, eq_of_== done)))
      | inr more ↦
          let some_left = ne_of_== more in
          let (c, out, run, decimal, same) =
            atoi_loop-put_digits fuel (x / 10) (digit (x % 10) ∷ buf) (ground (arith, less))
              (omega (arith, small)) (some_fuel fuel x less some_left) in
          rw more (c, out, run, decimal, same ∙ step (x / 10) (omega arith))
    ]
  where
    some_fuel : (f y : ℕ) → y < 2 ^ suc f → y / 10 ≢ 0 → 0 < f
    some_fuel zero y h ne = absurd (ne (omega (arith, h)))
    some_fuel (suc f) y h ne = omega arith

-- atoi of what printint prints for an int as a signed decimal is that int, the smallest one too.
pub atoi-printint :
    (xx : ℕ) → xx < 2 ^ 32 → (out : List ℕ) × (printint xx 10 true ≡ ok out) × (atoi out ≡ xx)
unfolding printint atoi atoi_loop IsDecimal
atoi-printint xx small = elim (Bool-cases (is_negative xx)) [
  | inl minus ↦
      let (c, out, run, decimal, same) =
        atoi_loop-put_digits 32 (2 ^ 32 - xx) [] (ground (arith, minus)) (ground (arith, minus))
          (omega arith) in
      rw (minus, run)
        (b'-' ∷ c ∷ out, refl, ap (λ n. (2 ^ 32 - n) % 2 ^ 32) same ∙ ground (arith, minus, small))
  | inr plus ↦
      let (c, out, run, decimal, same) =
        atoi_loop-put_digits 32 xx [] (ground (arith, plus)) small (omega arith) in
      rw (plus, run) (c ∷ out, refl, rw decimal.1 same)
]
