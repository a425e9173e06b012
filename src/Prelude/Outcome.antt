-- ===== src/Prelude/Outcome.antt =====
-- What a Go call that may fail gives: a value, an `error` with its message, or a run-time panic,
-- which no caller of this program recovers from; and actions on a state that end so.
use mathlib.Core.Path.{◌≡◌, refl}
use ollie_9p.Prelude.Tests.{Bytes}

pub data Outcome {ℓ} (A : Type ℓ) : Type ℓ where
  ok : A → Outcome A
  err : Bytes → Outcome A
  panic : Outcome A

-- What was written before an error or a panic stays written.
abbrev pub Act {ℓ} : Type ℓ → Type ℓ → Type ℓ
Act S A = S → Outcome A × S

module _ {ℓ} {S A : Type ℓ} where
  abbrev pub pure : A → Act S A
  pure a s = (ok a, s)

  abbrev pub fail : Bytes → Act S A
  fail e s = (err e, s)

  abbrev pub lift : Outcome A → Act S A
  lift r s = (r, s)

  abbrev pub gets : (S → A) → Act S A
  gets f s = (ok (f s), s)

module _ {ℓ} {S A B : Type ℓ} where
  abbrev pub continue : Outcome A → (A → Act S B) → Act S B
  continue (ok a) f s = f a s
  continue (err e) f s = (err e, s)
  continue panic f s = (panic, s)

  infixl 5 ◌>>=◌ ◌>>◌
  abbrev pub ◌>>=◌ : Act S A → (A → Act S B) → Act S B
  ◌>>=◌ m f s = let (r, s') = m s in continue r f s'

  abbrev pub ◌>>◌ : Act S A → Act S B → Act S B
  m >> n = m >>= λ _. n

-- `modify` is a write that cannot fail.
abbrev pub modify {ℓ} : {S : Type ℓ} → (S → S) → Act S Unit
modify f s = (ok tt, f s)

-- The three ways a call may end, with the equation.
pub data Ends {ℓ} {A : Type ℓ} (r : Outcome A) : Type ℓ where
  gives : (a : A) → r ≡ ok a → Ends r
  fails : (e : Bytes) → r ≡ err e → Ends r
  panics : r ≡ panic → Ends r

pub Outcome-cases {ℓ} : {A : Type ℓ} (r : Outcome A) → Ends r
Outcome-cases (ok a) = gives a refl
Outcome-cases (err e) = fails e refl
Outcome-cases panic = panics refl
