-- ===== src/Server/Write/Answers.antt =====
-- write and clunk answer.
use ollie_9p.Prelude.{ℕ, Bytes, bytes_eq, nat_eq, arith, Option-cases, inl, inr, refl, []}
use ollie_9p.Prelude.Keeps.{either}
use ollie_9p.Prelude.Outcome.{Outcome, ok, err, panic, Outcome-cases, gives, fails, panics}
use ollie_9p.Agent.{AgentCore}
use ollie_9p.Server.Answers.{ok-Replies, panic-Replies, or_rerror-Replies, Replies, is_reply}
use ollie_9p.Server.{World, ServerConfig, get_fid, delete_fid, Rmsg, twrite, tclunk}
use ollie_9p.Server.Buffer.{write_at}
use ollie_9p.Server.Write
use ollie_9p.Server.Write.{
  buffered, write, is_async_write, is_writable, handle_write, in_background, flush_fid, clunk,
}
use ollie_9p.Text.Space.{trim_space}

abbrev IsRwrite {ℓ} : {W : Type ℓ} → Outcome Rmsg × W → Type 0
IsRwrite r = Replies (is_reply (twrite 0 0 [])) r

abbrev IsRclunk {ℓ} : {W : Type ℓ} → Outcome Rmsg × W → Type 0
IsRclunk r = Replies (is_reply (tclunk 0)) r

module _ {C : AgentCore} {D : Type 0} where
  pub write-Answers :
      (conn fid offset : ℕ) (content : Bytes) (w : World C D)
      → IsRwrite (write conn fid offset content w)
  unfolding write buffered
  write-Answers conn fid offset content w = elim (Option-cases (get_fid conn fid w)) [
    | inl e ↦ rw (e, Write.write) (ok-Replies _ w refl)
    | inr (f, e) ↦
        rw (e, Write.write)
          (elim (Outcome-cases (write_at offset content f.write_buf)) [
            | gives buf e' ↦ rw (e', buffered) (ok-Replies _ _ refl)
            | fails m e' ↦ absurd (unfold write_at in ground (arith, e'))
            | panics e' ↦ rw (e', buffered) (panic-Replies w)
          ])
  ]

module _ {C : AgentCore} {D : Type 0} (cfg : ServerConfig C D) where
  in_background-Answers : (r : Outcome (Unit {0}) × World C D) → IsRclunk (in_background cfg r)
  in_background-Answers (ok _, w) = ok-Replies _ w refl
  in_background-Answers (err e, w) = ok-Replies _ w refl
  in_background-Answers (panic, w) = panic-Replies w

  pub clunk-Answers : (conn fid : ℕ) (w : World C D) → IsRclunk (clunk cfg conn fid w)
  unfolding clunk flush_fid
  clunk-Answers conn fid w = elim (Option-cases (get_fid conn fid w)) [
    | inl e ↦ rw (e, Write.clunk) (ok-Replies _ w refl)
    | inr (f, e) ↦
        let written = handle_write cfg f.path (trim_space f.write_buf) (delete_fid conn fid w) in
        rw (e, Write.clunk)
          (either IsRclunk (is_writable f.mode) _ _
            (either IsRclunk (is_async_write f.path) _ _ (in_background-Answers written)
              (or_rerror-Replies (λ e. refl) written _ (λ _ w'. ok-Replies _ w' refl)))
            (ok-Replies _ _ refl))
  ]
