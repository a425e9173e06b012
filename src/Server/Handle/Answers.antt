-- ===== src/Server/Handle/Answers.antt =====
-- Every request is answered, unless it makes the server panic.
use ollie_9p.Prelude.{refl, ℕ, bytes_eq, nat_eq, ◌≡◌, ◌⊎◌, inl, inr, true}
use ollie_9p.Prelude.Outcome.{ok, panic, Outcome-cases, gives, fails, panics}
use ollie_9p.Agent.{AgentCore}
use ollie_9p.Server.{
  Tmsg, tversion, tauth, tattach, twalk, topen, tcreate, tread, twrite, tstat, twstat, tflush,
  tclunk, tremove, unsupported, Rmsg, World, ServerConfig,
}
use ollie_9p.Server.Change.Answers.{wstat-Answers, remove-Answers}
use ollie_9p.Server.Create.Answers.{create-Answers}
use ollie_9p.Server.Handle.{handle}
use ollie_9p.Server.Read.{Race}
use ollie_9p.Server.Read.Answers.{read-Answers}
use ollie_9p.Server.Stat.Answers.{stat-Answers}
use ollie_9p.Server.Walk.Answers.{attach-Answers, open_fid-Answers, walk-Answers}
use ollie_9p.Server.Write.Answers.{write-Answers, clunk-Answers}
use ollie_9p.Server.Answers.{Replies, is_reply, ok-Replies, Replies-no_error, Replies-test}

module _ {C : AgentCore} {D : Type 0} (cfg : ServerConfig C D) where
  pub handle-Answers :
      (race : Race) (conn : ℕ) (msg : Tmsg) (w : World C D)
      → Replies (is_reply msg) (handle cfg race conn msg w)
  unfolding handle
  handle-Answers race conn (tversion msize) w = ok-Replies _ w refl
  handle-Answers race conn tauth w = ok-Replies _ w refl
  handle-Answers race conn (tattach fid) w = attach-Answers conn fid w
  handle-Answers race conn (twalk fid newfid wname) w = walk-Answers cfg conn fid newfid wname w
  handle-Answers race conn (topen fid mode) w = open_fid-Answers conn fid mode w
  handle-Answers race conn (tcreate fid name perm mode) w =
      create-Answers cfg conn fid name perm mode w
  handle-Answers race conn (tread fid offset count) w =
      read-Answers cfg race conn fid offset count w
  handle-Answers race conn (twrite fid offset content) w = write-Answers conn fid offset content w
  handle-Answers race conn (tstat fid) w = stat-Answers cfg conn fid w
  handle-Answers race conn (twstat fid content) w = wstat-Answers cfg conn fid content w
  handle-Answers race conn (tflush oldtag) w = ok-Replies _ _ refl
  handle-Answers race conn (tclunk fid) w = clunk-Answers cfg conn fid w
  handle-Answers race conn (tremove fid) w = remove-Answers cfg conn fid w
  handle-Answers race conn unsupported w = ok-Replies _ w refl

  -- Whatever the request and the state, the handler gives a response or panics: an error of the
  -- stores, of the sessions or of a path never gets past it. The response is an Rerror or the one
  -- that 9P has for the request; to Tauth and to what is not supported it is an Rerror.
  pub handle_responds :
      (race : Race) (conn : ℕ) (msg : Tmsg) (w : World C D)
      → ((resp : Rmsg) × ((handle cfg race conn msg w).0 ≡ ok resp) × (is_reply msg resp ≡ true))
        ⊎ ((handle cfg race conn msg w).0 ≡ panic)
  handle_responds race conn msg w = elim (Outcome-cases (handle cfg race conn msg w).0) [
    | gives resp e ↦ inl (resp, e, Replies-test _ (handle-Answers race conn msg w) resp e)
    | fails m e ↦ absurd (Replies-no_error _ (handle-Answers race conn msg w) m e)
    | panics e ↦ inr e
  ]
