-- ===== src/User/Print/Examples.antt =====
-- printint and atoi at a negative number.
use avx_loong_arch.Prelude.{ℕ, ◌-◌, ◌^◌, ◌≤◌, ◌≡◌, true, List, arith, length, ok}
use avx_loong_arch.User.Print.Number.{printint-length, atoi-printint}
use avx_loong_arch.User.Print.{printint, atoi}

printint-length_example :
    (out : List ℕ) × (printint (2 ^ 32 - 120) 16 true ≡ ok out) × (length out ≤ 11)
printint-length_example = printint-length (2 ^ 32 - 120) 16 true (omega arith) (omega arith)

atoi-printint_example :
    (out : List ℕ) × (printint (2 ^ 32 - 120) 10 true ≡ ok out) × (atoi out ≡ 2 ^ 32 - 120)
atoi-printint_example = atoi-printint (2 ^ 32 - 120) (omega arith)
