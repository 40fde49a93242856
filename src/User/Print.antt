-- ===== src/User/Print.antt =====
-- user/printf.c and user/ulib.c: how an int is printed, and read back by atoi. An int is its 32 bits.
-- The buffer of printint is the list of what is in it, the last character first, which is the order
-- in which it is printed.
pub mod Number
mod Examples
use avx_loong_arch.Prelude.{
  ℕ, zero, suc, ◌+◌, ◌-◌, ◌*◌, ◌/◌, ◌%◌, ◌^◌, Bool, true, false, ◌&&◌, List, [], ◌∷◌, ltb, leb,
  ◌==◌, if◌then◌else◌, Outcome, ok, out_of_fuel, ◌>>=◌,
}

-- `digits[d]`
abbrev pub digit : ℕ → ℕ
digit d = if ltb d 10 then b'0' + d else b'A' + (d - 10)

-- The loop of printint. The number has 32 bits and the base is 2 at least, so 32 rounds are enough.
pub put_digits : ℕ → (base x : ℕ) → List ℕ → Outcome (List ℕ)
put_digits zero base x buf = out_of_fuel
put_digits (suc fuel) base x buf =
    let buf' = digit (x % base) ∷ buf in
    let rest = put_digits fuel base (x / base) buf' in if x / base == 0 then ok buf' else rest

abbrev pub is_negative : ℕ → Bool
is_negative xx = leb (2 ^ 31) xx

-- printint: what it prints.
pub printint : (xx base : ℕ) → Bool → Outcome (List ℕ)
printint xx base sgn =
    let neg = sgn && is_negative xx in
    put_digits 32 base (if neg then 2 ^ 32 - xx else xx) [] >>= λ buf.
    ok (if neg then b'-' ∷ buf else buf)

abbrev pub is_digit : ℕ → Bool
is_digit c = leb b'0' c && leb c b'9'

-- The loop of atoi, with the wrap of an int.
pub atoi_loop : ℕ → List ℕ → ℕ
atoi_loop n [] = n
atoi_loop n (c ∷ s) =
    let rest = atoi_loop ((n * 10 + (c - b'0')) % 2 ^ 32) s in if is_digit c then rest else n

pub atoi : List ℕ → ℕ
atoi [] = 0
atoi (c ∷ s) = if c == b'-' then (2 ^ 32 - atoi_loop 0 s) % 2 ^ 32 else atoi_loop 0 (c ∷ s)
