-- ===== src/Main/Runs.antt =====
-- Actions of a process that return, and what they leave as it was.
use ollie_9p.Prelude.{
  ℕ, bytes_eq, List, [], ◌++◌, ◌≡◌, refl, ap, sym, ◌∙◌, append_assoc, append-nil,
}
use ollie_9p.Agent.{AgentCore}
use ollie_9p.Main.Calls.{Call, End, returns, exits, stuck, Process, Run, next, ◌>>=◌, pure}

module _ {C : AgentCore} {D : Type 0} {A B : Type 0} where
  -- What a sequence that returns was made of
  pub data Passed (m : Run C D A) (f : A → Run C D B) (p : Process C D) (b : B) (p' : Process C D)
      : Type 0 where
    passed :
        (a : A) (q : Process C D)
        → m p ≡ (returns a, q)
        → f a q ≡ (returns b, p')
        → Passed m f p b p'

  next-inversion :
      (r : End A) (q : Process C D) (f : A → Run C D B) (b : B) (p' : Process C D)
      → next r f q ≡ (returns b, p')
      → (a : A) × (r ≡ returns a) × (f a q ≡ (returns b, p'))
  next-inversion (returns a) q f b p' h = (a, refl, h)
  next-inversion (exits code) q f b p' h = absurd (cc h)
  next-inversion stuck q f b p' h = absurd (cc h)

  pub inversion :
      (m : Run C D A) (f : A → Run C D B) (p : Process C D) (b : B) (p' : Process C D)
      → (m >>= f) p ≡ (returns b, p')
      → Passed m f p b p'
  inversion m f p b p' h =
      let (r, q) = m p in
      let (a, e, e') = next-inversion r q f b p' h in passed a q (ap (λ x. (x, q)) e) e'

  pub bind-returns :
      (m : Run C D A) (f : A → Run C D B) (p : Process C D) (a : A) (q : Process C D)
      (r : End B × Process C D)
      → m p ≡ (returns a, q)
      → f a q ≡ r
      → (m >>= f) p ≡ r
  bind-returns m f p a q r e e' = ap (λ x. next x.0 f x.1) e ∙ e'

  pub bind-exits :
      (m : Run C D A) (f : A → Run C D B) (p : Process C D) (code : ℕ) (q : Process C D)
      → m p ≡ (exits code, q)
      → (m >>= f) p ≡ (exits code, q)
  bind-exits m f p code q e = ap (λ x. next x.0 f x.1) e

module _ {C : AgentCore} {D : Type 0} where
  -- An action that returns, wherever it is run
  pub data Total {A : Type 0} (m : Run C D A) : Type 0 where
    total : ((p : Process C D) → (a : A) × (p' : Process C D) × (m p ≡ (returns a, p'))) → Total m

  pub Total-at :
      {A : Type 0} (m : Run C D A) (p : Process C D)
      → Total m
      → (a : A) × (p' : Process C D) × (m p ≡ (returns a, p'))
  Total-at m p (total h) = h p

  pub Total-bind :
      {A B : Type 0} (m : Run C D A) (f : A → Run C D B)
      → Total m
      → ((a : A) → Total (f a))
      → Total (m >>= f)
  Total-bind m f h k = total (λ p.
      let (a, q, e) = Total-at m p h in
      let (b, p', e') = Total-at (f a) q (k a) in (b, p', bind-returns m f p a q _ e e'))

  -- The calls made meanwhile; the table of sessions is as before.
  pub record Later (p p' : Process C D) (made : List Call) : Type 0 where
    pub sessions : p'.world.sessions ≡ p.world.sessions
    pub retired : p'.world.retired ≡ p.world.retired
    pub calls : p'.calls ≡ p.calls ++ made

  pub Later-trans :
      (p q r : Process C D) (xs ys : List Call) → Later p q xs → Later q r ys → Later p r (xs ++ ys)
  Later-trans p q r xs ys h h' = record {
    sessions = h'.sessions ∙ h.sessions;
    retired = h'.retired ∙ h.retired;
    calls = h'.calls ∙ ap (λ l. l ++ ys) h.calls ∙ append_assoc p.calls xs ys;
  }

  Later-same : (p p' : Process C D) → p' ≡ p → Later p p' []
  Later-same p p' e = record {
    sessions = ap (λ q. q.world.sessions) e;
    retired = ap (λ q. q.world.retired) e;
    calls = ap (λ q. q.calls) e ∙ sym (append-nil p.calls);
  }

  -- An action that leaves the sessions alone whenever it returns
  pub data Quiet {A : Type 0} (m : Run C D A) : Type 0 where
    quiet :
        ((p : Process C D) (a : A) (p' : Process C D)
          → m p ≡ (returns a, p')
          → (made : List Call) × Later p p' made)
        → Quiet m

  pub Quiet-at :
      {A : Type 0} (m : Run C D A) (p : Process C D) (a : A) (p' : Process C D)
      → Quiet m
      → m p ≡ (returns a, p')
      → (made : List Call) × Later p p' made
  Quiet-at m p a p' (quiet h) e = h p a p' e

  pub pure-Quiet : {A : Type 0} (a : A) → Quiet (pure a)
  pure-Quiet a = quiet (λ p b p' e. ([], Later-same p p' (sym (ap (λ x. x.1) e))))

  pub Quiet-bind :
      {A B : Type 0} (m : Run C D A) (f : A → Run C D B)
      → Quiet m
      → ((a : A) → Quiet (f a))
      → Quiet (m >>= f)
  Quiet-bind m f h k = quiet (λ p b p' e. elim (inversion m f p b p' e) [
    | passed a q e' e'' ↦
        let (xs, before) = Quiet-at m p a q h e' in
        let (ys, after) = Quiet-at (f a) q b p' (k a) e'' in
        (xs ++ ys, Later-trans p q p' xs ys before after)
  ])
