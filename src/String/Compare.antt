-- ===== src/String/Compare.antt =====
-- memcmp, strncmp and strlen of kernel/string.c.
use avx_loong_arch.Prelude.{
  ℕ, zero, suc, ◌+◌, ◌^◌, ◌≤◌, ◌<◌, ◌≡◌, refl, ap, ap₂, ◌≢◌, ◌↔◌, inl, inr, true, false, some, List,
  [], ◌∷◌, arith, ◌==◌, if◌then◌else◌, Bool-cases, eq_of_==, ne_of_==, ==_of_ne,
}
use avx_loong_arch.String.Copy.{IsString}
use avx_loong_arch.String.{Memory, int_sub, memcmp, strncmp, strlen_loop, strlen}

-- Memory holds bytes.
abbrev pub IsBytes : Memory → Type 0
IsBytes mem = (p : ℕ) → mem p < 2 ^ 8

-- The n bytes from p on, and the same up to the end of the string.
abbrev pub bytes : Memory → (p n : ℕ) → List ℕ
bytes mem p zero = []
bytes mem p (suc n) = mem p ∷ bytes mem (p + 1) n

abbrev pub prefix : Memory → (p n : ℕ) → List ℕ
prefix mem p zero = []
prefix mem p (suc n) = if mem p == 0 then [] else mem p ∷ prefix mem (p + 1) n

int_sub-ne : (x y : ℕ) → x < 2 ^ 8 → y < 2 ^ 8 → x ≢ y → int_sub x y ≢ 0
int_sub-ne x y hx hy ne e = ne (omega arith)

-- memcmp is 0 exactly where the two ranges of n bytes are equal.
pub memcmp_iff :
    (mem : Memory) (v1 v2 n : ℕ)
    → IsBytes mem
    → (memcmp mem v1 v2 n ≡ 0) ↔ (bytes mem v1 n ≡ bytes mem v2 n)
unfolding memcmp
memcmp_iff mem v1 v2 zero h = (λ e. refl, λ e. refl)
memcmp_iff mem v1 v2 (suc n) h = elim (Bool-cases (mem v1 == mem v2)) [
  | inl same ↦
      let (to, back) = memcmp_iff mem (v1 + 1) (v2 + 1) n h in
      rw same (λ e. ap₂ (λ x xs. x ∷ xs) (eq_of_== same) (to e), λ e. back (cc))
  | inr other ↦ rw other (
    λ e. absurd (int_sub-ne (mem v1) (mem v2) (h v1) (h v2) (ne_of_== other) e),
    λ e. absurd (ne_of_== other cc),
  )
]

-- strncmp is 0 exactly where the strings, cut after n bytes, are equal.
pub strncmp_iff :
    (mem : Memory) (p q n : ℕ)
    → IsBytes mem
    → (strncmp mem p q n ≡ 0) ↔ (prefix mem p n ≡ prefix mem q n)
unfolding strncmp
strncmp_iff mem p q zero h = (λ e. refl, λ e. refl)
strncmp_iff mem p q (suc n) h = elim (Bool-cases (mem p == 0)) [
  | inl end ↦ elim (Bool-cases (mem q == 0)) [
    | inl end' ↦ rw (end, end') (λ e. refl, λ e. ground arith)
    | inr more ↦
        rw (end, more)
          (λ e. absurd (int_sub-ne (mem p) (mem q) (h p) (h q) (λ g. ground arith) e), λ e. cc)
  ]
  | inr more ↦ elim (Bool-cases (mem p == mem q)) [
    | inl same ↦
        let (to, back) = strncmp_iff mem (p + 1) (q + 1) n h in
        let more' : (mem q == 0) ≡ false = ground arith in
        rw (more, more', same) (λ e. ap₂ (λ x xs. x ∷ xs) (eq_of_== same) (to e), λ e. back cc)
    | inr other ↦
        rw (more, other)
          (
            λ e. absurd (int_sub-ne (mem p) (mem q) (h p) (h q) (ne_of_== other) e),
            λ e. elim (Bool-cases (mem q == 0)) [
              | inl end ↦ let e' = rw end at e in cc
              | inr on ↦ let e' = rw on at e in absurd (ne_of_== other cc)
            ],
          )
  ]
]

strlen_loop-IsString :
    (mem : Memory) (s k i fuel : ℕ)
    → ((j : ℕ) → j < k → mem (s + j) ≢ 0)
    → mem (s + k) ≡ 0
    → i ≤ k
    → k < i + fuel
    → strlen_loop fuel mem s i ≡ some k
unfolding strlen_loop
strlen_loop-IsString mem s k i zero go stop le enough = absurd (omega arith)
strlen_loop-IsString mem s k i (suc fuel) go stop le enough = elim (Bool-cases (i == k)) [
  | inl here ↦
      let e : i ≡ k = eq_of_== here in
      let done : (mem (s + i) == 0) ≡ true = rw e (ground arith) in rw done (ap some e)
  | inr before ↦
      let ne = ne_of_== before in
      let on : (mem (s + i) == 0) ≡ false = ==_of_ne (go i (omega arith)) in
      rw on (strlen_loop-IsString mem s k (i + 1) fuel go stop (omega arith) (omega arith))
]

-- strlen of a string of k bytes is k, with fuel for its k + 1 rounds.
pub strlen-IsString :
    (mem : Memory) (s k fuel : ℕ) → IsString mem s k → k < fuel → strlen fuel mem s ≡ some k
unfolding strlen
strlen-IsString mem s k fuel str enough =
    strlen_loop-IsString mem s k 0 fuel str.bytes str.nul (omega arith) (omega arith)
