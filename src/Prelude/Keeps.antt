-- ===== src/Prelude/Keeps.antt =====
-- Actions that keep a predicate of the state, whatever they return.
use ollie_9p.Prelude.Outcome.{Outcome, ok, err, panic, Act, continue, ◌>>=◌}
use ollie_9p.Prelude.Tests.{if◌then◌else◌}
use mathlib.Core.Path.{◌≡◌, refl}
use mathlib.Core.Bool.{Bool, true, false}

-- What holds of both sides of a test holds of the choice.
pub either {ℓ} :
    {A : Type ℓ} (P : A → Type 0) (b : Bool) (x y : A) → P x → P y → P (if b then x else y)
either P true x y h h' = h
either P false x y h h' = h'

module _ {S : Type 0} (P : S → Type 0) where
  abbrev pub Keeps : {A : Type 0} → Act S A → Type 0
  Keeps act = (s : S) → P s → P (act s).1

  Keeps-continue :
      {A B : Type 0} (r : Outcome A) (f : A → Act S B) (s : S)
      → ((a : A) → r ≡ ok a → Keeps (f a))
      → P s
      → P (continue r f s).1
  Keeps-continue (ok a) f s k h = k a refl s h
  Keeps-continue (err e) f s k h = h
  Keeps-continue panic f s k h = h

  -- What follows may rely on what the first action returned.
  pub Keeps-bind :
      {A B : Type 0} (m : Act S A) (f : A → Act S B)
      → Keeps m
      → ((s : S) → P s → (a : A) → (m s).0 ≡ ok a → Keeps (f a))
      → Keeps (m >>= f)
  Keeps-bind m f km kf s h = Keeps-continue (m s).0 f (m s).1 (kf s h) (km s h)

  pub Keeps-if :
      {A : Type 0} (b : Bool) (act act' : Act S A)
      → Keeps act
      → Keeps act'
      → Keeps (if b then act else act')
  Keeps-if true act act' k k' = k
  Keeps-if false act act' k k' = k'

  pub if-Keeps : {A : Type 0} (b : Bool) (r r' : A × S) → P r.1 → P r'.1 → P (if b then r else r').1
  if-Keeps true r r' h h' = h
  if-Keeps false r r' h h' = h'

  -- The same where the test chooses between actions
  pub if_at-Keeps :
      {A : Type 0} (b : Bool) (act act' : Act S A) (s : S)
      → P (act s).1
      → P (act' s).1
      → P ((if b then act else act') s).1
  if_at-Keeps true act act' s h h' = h
  if_at-Keeps false act act' s h h' = h'
