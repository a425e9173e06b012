-- ===== src/Main/Tame.antt =====
-- Actions of a process that remove no file, and exit with 1 if at all.
use ollie_9p.Prelude.{
  ℕ, Bytes, bytes_eq, List, [], ◌∷◌, ◌++◌, ◌≡◌, refl, ap, sym, ◌∙◌, append_assoc, append-nil, Bool,
  true, false,
}
use ollie_9p.Prelude.Outcome.{Outcome, ok, err, panic}
use ollie_9p.Agent.{AgentCore}
use ollie_9p.Main.Calls.{
  Call, removes, End, returns, exits, stuck, Process, Run, next, ◌>>=◌, pure, exit, change,
  answered,
}
use ollie_9p.Server.{World}

abbrev pub is_removal : Call → Bool
is_removal (removes path) = true
is_removal c = false

-- None of the calls removes a file.
abbrev pub NoRemoval : List Call → Type 0
NoRemoval [] = Unit
NoRemoval (c ∷ cs) = (is_removal c ≡ false) × NoRemoval cs

pub NoRemoval-append : (xs ys : List Call) → NoRemoval xs → NoRemoval ys → NoRemoval (xs ++ ys)
NoRemoval-append [] ys h k = k
NoRemoval-append (x ∷ xs) ys h k = (h.0, NoRemoval-append xs ys h.1 k)

module _ {C : AgentCore} {D : Type 0} where
  -- From a process to a result: an exit is with 1, and the calls on the way remove nothing.
  pub record Tidy {A : Type 0} (p : Process C D) (r : End A × Process C D) : Type 0 where
    pub code : (c : ℕ) → r.0 ≡ exits c → c ≡ 1
    pub made : (cs : List Call) × (r.1.calls ≡ p.calls ++ cs) × NoRemoval cs

  pub data Tame {A : Type 0} (m : Run C D A) : Type 0 where
    tame : ((p : Process C D) → Tidy p (m p)) → Tame m

  pub Tame-at : {A : Type 0} (m : Run C D A) (p : Process C D) → Tame m → Tidy p (m p)
  Tame-at m p (tame h) = h p

  pub Tidy-trans :
      {B : Type 0} (p q : Process C D) (cs : List Call) (r : End B × Process C D)
      → q.calls ≡ p.calls ++ cs
      → NoRemoval cs
      → Tidy q r
      → Tidy p r
  Tidy-trans p q cs r e h t =
      let (ds, e', h') = t.made in
      record {
        code = t.code;
        made = (
          cs ++ ds,
          e' ∙ ap (λ l. l ++ ds) e ∙ append_assoc p.calls cs ds,
          NoRemoval-append cs ds h h',
        );
      }

  pub next-Tidy :
      {A B : Type 0} (p : Process C D) (r : End A) (q : Process C D) (f : A → Run C D B)
      → Tidy p (r, q)
      → ((a : A) → Tame (f a))
      → Tidy p (next r f q)
  next-Tidy p (returns a) q f t k =
      let (cs, e, h) = t.made in Tidy-trans p q cs (f a q) e h (Tame-at (f a) q (k a))
  next-Tidy p (exits c) q f t k = record { code = λ d e. t.code d (cc e); made = t.made }
  next-Tidy p stuck q f t k = record { code = λ d e. absurd (cc e); made = t.made }

  pub Tame-bind :
      {A B : Type 0} (m : Run C D A) (f : A → Run C D B)
      → Tame m
      → ((a : A) → Tame (f a))
      → Tame (m >>= f)
  Tame-bind m f h k = tame (λ p. next-Tidy p (m p).0 (m p).1 f (Tame-at m p h) k)

  pub same_calls :
      (p q : Process C D)
      → q.calls ≡ p.calls
      → (cs : List Call) × (q.calls ≡ p.calls ++ cs) × NoRemoval cs
  same_calls p q e = ([], e ∙ sym (append-nil p.calls), tt)

  pub pure-Tame : {A : Type 0} (a : A) → Tame (pure {C = C} {D = D} a)
  pure-Tame a = tame (λ p. record { code = λ c e. absurd (cc e); made = same_calls p p refl })

  pub change-Tame : (f : World C D → World C D) → Tame (change f)
  change-Tame f = tame (λ p. record {
    code = λ c e. absurd (cc e);
    made = same_calls p (record p { world = f p.world }) refl;
  })

  pub exit-Tame : {A : Type 0} → Tame (exit {C = C} {D = D} {A = A} 1)
  exit-Tame = tame (λ p. record { code = λ c e. cc e; made = same_calls p p refl })

  pub answered-Tidy :
      (r : Outcome Bytes) (p q : Process C D) (c : Call)
      → q.calls ≡ p.calls ++ (c ∷ [])
      → is_removal c ≡ false
      → Tidy p (answered r q)
  answered-Tidy (ok b) p q c e h = record {
    code = λ d e'. absurd (cc e');
    made = (c ∷ [], e, (h, tt));
  }
  answered-Tidy (err m) p q c e h = record {
    code = λ d e'. absurd (cc e');
    made = (c ∷ [], e, (h, tt));
  }
  answered-Tidy panic p q c e h = record {
    code = λ d e'. absurd (cc e');
    made = (c ∷ [], e, (h, tt));
  }
