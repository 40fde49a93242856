-- ===== src/String.antt =====
-- kernel/string.c: the routines on bytes and strings. Memory is a function from addresses to bytes;
-- an object does not wrap around the end of the address space.
pub mod Copy
pub mod Compare
mod Examples
use avx_loong_arch.Prelude.{
  ℕ, zero, suc, ◌+◌, ◌-◌, ◌%◌, ◌^◌, ◌&&◌, not, Option, none, some, ltb, ◌==◌, if◌then◌else◌,
}

abbrev pub Memory : Type 0
Memory = ℕ → ℕ

abbrev pub store : Memory → ℕ → ℕ → Memory
store mem a b p = if a == p then b else mem p

-- `x - y` on int, as a word of 32 bits
abbrev pub int_sub : ℕ → ℕ → ℕ
int_sub x y = (x + 2 ^ 32 - y) % 2 ^ 32

pub memset : Memory → (dst c n : ℕ) → Memory
memset mem dst c zero = mem
memset mem dst c (suc n) = memset (store mem dst (c % 2 ^ 8)) (dst + 1) c n

pub memcmp : Memory → (v1 v2 n : ℕ) → ℕ
memcmp mem v1 v2 zero = 0
memcmp mem v1 v2 (suc n) =
    let rest = memcmp mem (v1 + 1) (v2 + 1) n in
    if mem v1 == mem v2 then rest else int_sub (mem v1) (mem v2)

-- The two loops of memmove. The second one's pointers start behind the n bytes.
pub copy_up : Memory → (d s n : ℕ) → Memory
copy_up mem d s zero = mem
copy_up mem d s (suc n) = copy_up (store mem d (mem s)) (d + 1) (s + 1) n

pub copy_down : Memory → (d s n : ℕ) → Memory
copy_down mem d s zero = mem
copy_down mem d s (suc n) = copy_down (store mem (d + n) (mem (s + n))) d s n

pub memmove : Memory → (dst src n : ℕ) → Memory
memmove mem dst src n =
    if ltb src dst && ltb dst (src + n) then copy_down mem dst src n else copy_up mem dst src n

pub strncmp : Memory → (p q n : ℕ) → ℕ
strncmp mem p q zero = 0
strncmp mem p q (suc n) =
    let rest = strncmp mem (p + 1) (q + 1) n in
    if not (mem p == 0) && (mem p == mem q) then rest else int_sub (mem p) (mem q)

-- strncpy; a negative n is 0.
pub strncpy : Memory → (s t n : ℕ) → Memory
strncpy mem s t zero = mem
strncpy mem s t (suc n) =
    let rest = strncpy (store mem s (mem t)) (s + 1) (t + 1) n in
    if mem t == 0 then memset (store mem s 0) (s + 1) 0 n else rest

-- The loop of safestrcpy, of at most n - 1 rounds, and the write behind it.
pub safestrcpy_loop : Memory → (s t left : ℕ) → Memory
safestrcpy_loop mem s t zero = store mem s 0
safestrcpy_loop mem s t (suc left) =
    let rest = safestrcpy_loop (store mem s (mem t)) (s + 1) (t + 1) left in
    if mem t == 0 then store (store mem s 0) (s + 1) 0 else rest

pub safestrcpy : Memory → (s t n : ℕ) → Memory
safestrcpy mem s t zero = mem
safestrcpy mem s t (suc left) = safestrcpy_loop mem s t left

-- strlen from index n on; `none` is no fuel left.
pub strlen_loop : ℕ → Memory → (s n : ℕ) → Option ℕ
strlen_loop zero mem s n = none
strlen_loop (suc fuel) mem s n =
    let rest = strlen_loop fuel mem s (n + 1) in if mem (s + n) == 0 then some n else rest

pub strlen : ℕ → Memory → ℕ → Option ℕ
strlen fuel mem s = strlen_loop fuel mem s 0

-- strchr: the address found, or 0; `none` is no fuel left.
pub strchr : ℕ → Memory → (s c : ℕ) → Option ℕ
strchr zero mem s c = none
strchr (suc fuel) mem s c =
    let rest = strchr fuel mem (s + 1) c in
    if mem s == 0 then some 0 else (if mem s == c then some s else rest)
