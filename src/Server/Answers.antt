-- ===== src/Server/Answers.antt =====
-- Handlers of server.go answer or panic: no error of Go is left over, and the answer is of the kind
-- that the request asks for. Here is what they are made of.
use ollie_9p.Prelude.{Bytes, ◌≢◌, refl, arith, Bool, true, false, ◌≡◌}
use ollie_9p.Prelude.Outcome.{Outcome, ok, err, panic, Act, continue, ◌>>=◌}
use ollie_9p.Server.{
  Rmsg, Tmsg, tversion, tattach, twalk, topen, tcreate, tread, twrite, tstat, twstat, tflush,
  tclunk, tremove, rversion, rerror, rattach, rwalk, ropen, rcreate, rread, rwrite, rstat, rwstat,
  rflush, rclunk, rremove,
}
use ollie_9p.Server.Walk.{or_rerror}

-- The call gives a value or panics.
pub data Answers {ℓ} {W : Type ℓ} {A : Type 0} (r : Outcome A × W) : Type 0 where
  answers : ((e : Bytes) → r.0 ≢ err e) → Answers r

module _ {ℓ} {W : Type ℓ} {A : Type 0} where
  pub Answers-no_error : (r : Outcome A × W) → Answers r → (e : Bytes) → r.0 ≢ err e
  Answers-no_error r (answers h) = h

  pub ok-Answers : (a : A) (w : W) → Answers {W = W} (ok a, w)
  ok-Answers a w = answers (λ e h. ground (arith, h))

  pub panic-Answers : (w : W) → Answers {W = W} {A = A} (panic, w)
  panic-Answers w = answers (λ e h. ground (arith, h))

-- The response is an Rerror, or the one that 9P has for the request. Other requests have none.
abbrev pub is_reply : Tmsg → Rmsg → Bool
is_reply m (rerror e) = true
is_reply (tversion msize) (rversion size name) = true
is_reply (tattach fid) (rattach q) = true
is_reply (twalk fid newfid names) (rwalk qids) = true
is_reply (topen fid mode) (ropen q) = true
is_reply (tcreate fid name perm mode) (rcreate q) = true
is_reply (tread fid offset count) (rread content) = true
is_reply (twrite fid offset content) (rwrite count) = true
is_reply (tstat fid) (rstat d) = true
is_reply (twstat fid d) rwstat = true
is_reply (tflush tag) rflush = true
is_reply (tclunk fid) rclunk = true
is_reply (tremove fid) rremove = true
is_reply m r = false

-- The call panics or gives a response that passes the test.
pub data Replies {ℓ} {W : Type ℓ} (test : Rmsg → Bool) (r : Outcome Rmsg × W) : Type 0 where
  replies :
      ((e : Bytes) → r.0 ≢ err e)
      → ((resp : Rmsg) → r.0 ≡ ok resp → test resp ≡ true)
      → Replies test r

module _ {ℓ} {W : Type ℓ} {test : Rmsg → Bool} where
  pub Replies-no_error : (r : Outcome Rmsg × W) → Replies test r → (e : Bytes) → r.0 ≢ err e
  Replies-no_error r (replies h k) = h

  pub Replies-test :
      (r : Outcome Rmsg × W) → Replies test r → (resp : Rmsg) → r.0 ≡ ok resp → test resp ≡ true
  Replies-test r (replies h k) = k

  pub ok-Replies : (resp : Rmsg) (w : W) → test resp ≡ true → Replies test (ok resp, w)
  ok-Replies resp w h = replies (λ e e'. ground (arith, e')) (λ other e. ground (arith, e, h))

  pub panic-Replies : (w : W) → Replies test (panic, w)
  panic-Replies w = replies (λ e e'. ground (arith, e')) (λ other e. absurd (ground (arith, e)))

  pub or_rerror-Replies :
      {A : Type 0}
      → ((e : Bytes) → test (rerror e) ≡ true)
      → (r : Outcome A × W) (k : A → W → Outcome Rmsg × W)
      → ((a : A) (w : W) → Replies test (k a w))
      → Replies test (or_rerror r k)
  or_rerror-Replies t (ok a, w) k h = h a w
  or_rerror-Replies t (err e, w) k h = ok-Replies (rerror e) w (t e)
  or_rerror-Replies t (panic, w) k h = panic-Replies w

module _ {S : Type 0} {A B : Type 0} where
  continue-Answers :
      (r : Outcome A) (s : S) (f : A → Act S B)
      → Answers (r, s)
      → ((a : A) (s : S) → Answers (f a s))
      → Answers (continue r f s)
  continue-Answers (ok a) s f h k = k a s
  continue-Answers (err e) s f (answers h) k = absurd (h e refl)
  continue-Answers panic s f h k = answers (λ e h'. ground (arith, h'))

  pub bind-Answers :
      (m : Act S A) (f : A → Act S B) (s : S)
      → Answers (m s)
      → ((a : A) (s : S) → Answers (f a s))
      → Answers ((m >>= f) s)
  bind-Answers m f s h k = let (r, s') = m s in continue-Answers r s' f h k

module _ {S : Type 0} {A : Type 0} {test : Rmsg → Bool} where
  continue-Replies :
      (r : Outcome A) (s : S) (f : A → Act S Rmsg)
      → Answers (r, s)
      → ((a : A) (s : S) → Replies test (f a s))
      → Replies test (continue r f s)
  continue-Replies (ok a) s f h k = k a s
  continue-Replies (err e) s f (answers h) k = absurd (h e refl)
  continue-Replies panic s f h k = panic-Replies s

  pub bind-Replies :
      (m : Act S A) (f : A → Act S Rmsg) (s : S)
      → Answers (m s)
      → ((a : A) (s : S) → Replies test (f a s))
      → Replies test ((m >>= f) s)
  bind-Replies m f s h k = let (r, s') = m s in continue-Replies r s' f h k
