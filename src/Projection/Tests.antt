-- ===== src/Projection/Tests.antt =====
-- A retried transaction on a counter that the others also change.
use wctm.Prelude.{ℕ, ◌+◌, ◌≡◌, refl, Bool, true, ◌==◌, ok, Action}
use wctm.Projection.Retry.{
  Environment, Once, with_projection_transaction, with_projection_transaction-Once,
}

-- The first attempt is refused, and the others add one before each attempt.
abbrev busy : Environment ℕ
busy = record { others = λ k n. n + 1; refuses = λ k. k == 2 }

abbrev double : Action Bool ℕ ℕ
double n = (ok n, n + n)

abbrev concurrent : Bool → Bool
concurrent e = e

double_run : with_projection_transaction concurrent true busy double 5 ≡ (ok 7, 14)
unfolding with_projection_transaction
double_run = refl

with_projection_transaction-Once_example :
    Once concurrent true busy double 5 (with_projection_transaction concurrent true busy double 5)
with_projection_transaction-Once_example =
    with_projection_transaction-Once concurrent true busy double 5
