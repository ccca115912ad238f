-- ===== src/Prelude/Actions.antt =====
-- An `async` method: it reads and writes a state, and returns a value or throws. What was written
-- before a `throw` stays written, except inside `transaction`, which rolls the state back.
use mathlib.Core.Bool.{Bool, true, false}
use mathlib.Core.Option.{Option, none, some}

pub data Result (E A : Type 0) : Type 0 where
  ok : A → Result E A
  err : E → Result E A

abbrev pub Action : Type 0 → Type 0 → Type 0 → Type 0
Action E S A = S → Result E A × S

abbrev pub ⊤ : Type 0
⊤ = Unit

module _ {E S A : Type 0} where
  abbrev pub pure : A → Action E S A
  pure a s = (ok a, s)

  abbrev pub throw : E → Action E S A
  throw e s = (err e, s)

  -- `null` is answered by a `throw`.
  abbrev pub or_throw : Option A → E → Action E S A
  or_throw none e s = (err e, s)
  or_throw (some a) e s = (ok a, s)

  abbrev pub lift : Result E A → Action E S A
  lift r s = (r, s)

  abbrev pub roll_back : S → Result E A × S → Result E A × S
  roll_back s (ok a, t) = (ok a, t)
  roll_back s (err e, t) = (err e, s)

  -- `prisma.$transaction`: all of the writes, or none of them.
  abbrev pub transaction : Action E S A → Action E S A
  transaction m s = roll_back s (m s)

module _ {E S A B : Type 0} where
  infixl 5 ◌>>=◌ ◌>>◌
  abbrev pub bind_result : Result E A × S → (A → Action E S B) → Result E B × S
  bind_result (ok a, t) f = f a t
  bind_result (err e, t) f = (err e, t)

  abbrev pub ◌>>=◌ : Action E S A → (A → Action E S B) → Action E S B
  ◌>>=◌ m f s = bind_result (m s) f

  abbrev pub ◌>>◌ : Action E S A → Action E S B → Action E S B
  ◌>>◌ m k s = bind_result (m s) (λ _. k)

module _ {E S : Type 0} where
  abbrev pub get : Action E S S
  get s = (ok s, s)

  abbrev pub put : S → Action E S ⊤
  put t s = (ok tt, t)

  -- `if (c) throw e`
  abbrev pub throw_if : Bool → E → Action E S ⊤
  throw_if true e s = (err e, s)
  throw_if false e s = (ok tt, s)
