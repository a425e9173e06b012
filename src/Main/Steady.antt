-- ===== src/Main/Steady.antt =====
-- Actions of a process that never exit.
use ollie_9p.Prelude.{ℕ, Bytes, bytes_eq, ◌≡◌, ◌≢◌, refl, ap, ◌∙◌}
use ollie_9p.Prelude.Outcome.{Outcome, ok, err, panic}
use ollie_9p.Agent.{AgentCore}
use ollie_9p.Main.Calls.{
  End, returns, exits, stuck, done, failed, Process, Run, next, ◌>>=◌, pure, change, answered,
}
use ollie_9p.Server.{World}

module _ {C : AgentCore} {D : Type 0} where
  -- A result that is no exit
  pub data Stays {A : Type 0} : End A × Process C D → Type 0 where
    returned : (a : A) (q : Process C D) → Stays (returns a, q)
    halted : (q : Process C D) → Stays (stuck, q)

  -- An action that never exits
  pub data Steady {A : Type 0} (m : Run C D A) : Type 0 where
    steady : ((p : Process C D) → Stays (m p)) → Steady m

  pub Steady-at : {A : Type 0} (m : Run C D A) (p : Process C D) → Steady m → Stays (m p)
  Steady-at m p (steady h) = h p

  pub next-Stays :
      {A B : Type 0} (r : End A × Process C D) (f : A → Run C D B)
      → Stays r
      → ((a : A) → Steady (f a))
      → Stays (next r.0 f r.1)
  next-Stays _ f (returned a q) k = Steady-at (f a) q (k a)
  next-Stays _ f (halted q) k = halted q

  pub Steady-bind :
      {A B : Type 0} (m : Run C D A) (f : A → Run C D B)
      → Steady m
      → ((a : A) → Steady (f a))
      → Steady (m >>= f)
  Steady-bind m f h k = steady (λ p. next-Stays (m p) f (Steady-at m p h) k)

  pub pure-Steady : {A : Type 0} (a : A) → Steady (pure {C = C} {D = D} a)
  pure-Steady a = steady (λ p. returned a p)

  pub change-Steady : (f : World C D → World C D) → Steady (change f)
  change-Steady f = steady (λ p. returned tt (record p { world = f p.world }))

  pub exits_no_more :
      {A : Type 0} (r : End A × Process C D) (c : ℕ) (q : Process C D) → Stays r → r ≢ (exits c, q)
  exits_no_more _ c q (returned a p) e = cc (ap (λ x. x.0) e)
  exits_no_more _ c q (halted p) e = cc (ap (λ x. x.0) e)

  pub exits_later :
      {A B : Type 0} (r : End A × Process C D) (f : A → Run C D B) (c : ℕ) (q : Process C D)
      → Stays r
      → next r.0 f r.1 ≡ (exits c, q)
      → (a : A) × (p : Process C D) × (r ≡ (returns a, p)) × (f a p ≡ (exits c, q))
  exits_later _ f c q (returned a p) e = (a, p, refl, e)
  exits_later _ f c q (halted p) e = absurd (cc (ap (λ x. x.0) e))

  pub exits_earlier :
      {A B : Type 0} (r : End A) (p : Process C D) (f : A → Run C D B) (c : ℕ) (q : Process C D)
      → ((a : A) → Steady (f a))
      → next r f p ≡ (exits c, q)
      → ◌≡◌ {A = End A × Process C D} (r, p) (exits c, q)
  exits_earlier (returns a) p f c q k e =
      absurd (exits_no_more (f a p) c q (Steady-at (f a) p (k a)) e)
  exits_earlier (exits d) p f c q k e =
      let same : d ≡ c = cc (ap (λ x. x.0) e) in
      ap (λ n. (exits n, p)) same ∙ ap (λ x. (exits c, x.1)) e
  exits_earlier stuck p f c q k e = absurd (cc (ap (λ x. x.0) e))

  pub answered-Stays : (r : Outcome Bytes) (q : Process C D) → Stays (answered r q)
  answered-Stays (ok b) q = returned (done b) q
  answered-Stays (err e) q = returned (failed e) q
  answered-Stays panic q = halted q
