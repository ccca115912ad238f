-- ===== src/Projection/Retry.antt =====
-- `withProjectionTransaction`, which both projection services have: a serializable transaction that
-- is run again, three times in all, where it meets a concurrent one. What the others commit before
-- an attempt, and whether the database refuses the attempt (`P2034`), is the environment's choice.
use wctm.Prelude.{
  ℕ, zero, suc, ◌≡◌, refl, Bool, false, not, ◌||◌, ◌==◌, arith, Bool-cases, inl, inr, if◌then◌else◌,
  Result, ok, err, Action, transaction, roll_back,
}

pub record Environment (S : Type 0) : Type 0 where
  -- with how many attempts left after it
  pub others : ℕ → S → S
  pub refuses : ℕ → Bool

abbrev pub projection_transaction_attempts : ℕ
projection_transaction_attempts = 3

-- States that the others make of a state, before any of the attempts.
pub data Others {S : Type 0} (env : Environment S) (s : S) : S → Type 0 where
  start : Others env s s
  commit : {t : S} (k : ℕ) → Others env s t → Others env s (env.others k t)

Others-trans :
    {S : Type 0} (env : Environment S) {s t u : S}
    → Others env s t
    → Others env t u
    → Others env s u
Others-trans env a start = a
Others-trans env a (commit k b) = commit k (Others-trans env a b)

module _ {E S A : Type 0} (is_concurrent : E → Bool) (refused : E) where
  -- One attempt, from the state that the others have left.
  unfoldable pub attempt : Environment S → Action E S A → ℕ → S → Result E A × S
  attempt env op left s =
      let t = env.others left s in if env.refuses left then (err refused, t) else transaction op t

  -- What follows an attempt: an error that a repetition cannot mend, or the last one, is thrown.
  abbrev pub after_attempt : ℕ → (S → Result E A × S) → Result E A × S → Result E A × S
  after_attempt left rest (ok a, t) = (ok a, t)
  after_attempt left rest (err e, t) =
      if left == 0 || not (is_concurrent e) then (err e, t) else rest t

  -- The loop, on the number of the attempts that are left.
  unfoldable pub attempts : ℕ → Environment S → Action E S A → Action E S A
  unfolding attempt
  attempts zero env op s = (err refused, s)
  attempts (suc left) env op s = after_attempt left (attempts left env op) (attempt env op left s)

  unfoldable pub with_projection_transaction : Environment S → Action E S A → Action E S A
  unfolding attempts
  with_projection_transaction = attempts projection_transaction_attempts

  -- The outcome of a retried transaction, from a state `t` that the others have made.
  abbrev pub Once : Environment S → Action E S A → S → Result E A × S → Type 0
  Once env op s (ok a, u) = (t : S) × Others env s t × (op t ≡ (ok a, u))
  Once env op s (err e, u) = Others env s u

  rolled_back-Once :
      (env : Environment S) (op : Action E S A) (s t : S)
      → Others env s t
      → (r : Result E A × S) → op t ≡ r
      → Once env op s (roll_back t r)
  rolled_back-Once env op s t o (ok a, u) e = (t, o, e)
  rolled_back-Once env op s t o (err x, u) e = o

  attempt-Once :
      (env : Environment S) (op : Action E S A) (left : ℕ) (s : S)
      → Once env op s (attempt env op left s)
  unfolding attempt
  attempt-Once env op left s =
      let t = env.others left s in
      elim (Bool-cases (env.refuses left)) [
        | inl y ↦ rw y (commit left start)
        | inr n ↦ rw n (rolled_back-Once env op s t (commit left start) (op t) refl)
      ]

  Once-before :
      (env : Environment S) (op : Action E S A) (s t : S) (r : Result E A × S)
      → Others env s t
      → Once env op t r
      → Once env op s r
  Once-before env op s t (ok a, u) o (v, p, e) = (v, Others-trans env o p, e)
  Once-before env op s t (err x, u) o p = Others-trans env o p

  -- After some attempts, the others' changes are all that has happened, or the transaction has run
  -- to its end exactly once, on a state that the others had left.
  pub attempts-Once :
      (n : ℕ) (env : Environment S) (op : Action E S A) (s : S)
      → Once env op s (attempts n env op s)
  unfolding attempts
  attempts-Once zero env op s = start
  attempts-Once (suc left) env op s =
      followed (attempt env op left s) (attempt-Once env op left s) (attempts-Once left env op)
    where
      followed :
          (r : Result E A × S)
          → Once env op s r
          → ((t : S) → Once env op t (attempts left env op t))
          → Once env op s (after_attempt left (attempts left env op) r)
      followed (ok a, t) o ih = o
      followed (err e, t) o ih = elim (Bool-cases (left == 0 || not (is_concurrent e))) [
        | inl y ↦ rw y o
        | inr n ↦ rw n (Once-before env op s t (attempts left env op t) o (ih t))
      ]

  -- The retried transaction takes effect once or not at all: where it answers, its body has run to
  -- its end on a state that the others had left, and the answer and the state are the body's; where
  -- it throws, nothing of it stays, only what the others have done.
  pub with_projection_transaction-Once :
      (env : Environment S) (op : Action E S A) (s : S)
      → Once env op s (with_projection_transaction env op s)
  unfolding with_projection_transaction
  with_projection_transaction-Once env op s = attempts-Once projection_transaction_attempts env op s

  settled :
      (left : ℕ) (rest : S → Result E A × S) (t : S) (r : Result E A × S)
      → ((e : E) → r.0 ≡ err e → is_concurrent e ≡ false)
      → after_attempt left rest (roll_back t r) ≡ roll_back t r
  settled left rest t (ok a, u) h = refl
  settled left rest t (err e, u) h = let n = h e refl in ground arith

  -- Where the first attempt is not refused and its body answers, or throws what is no conflict,
  -- there is no other attempt.
  pub with_projection_transaction_calm :
      (env : Environment S) (op : Action E S A) (s : S)
      → env.refuses 2 ≡ false
      → ((e : E) → (op (env.others 2 s)).0 ≡ err e → is_concurrent e ≡ false)
      → with_projection_transaction env op s ≡ transaction op (env.others 2 s)
  unfolding with_projection_transaction
  with_projection_transaction_calm env op s calm h =
      rw calm (settled 2 (attempts 2 env op) (env.others 2 s) (op (env.others 2 s)) h)
