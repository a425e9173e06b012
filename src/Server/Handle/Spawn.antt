-- ===== src/Server/Handle/Spawn.antt =====
-- handle of server.go with the goroutine that a Tclunk may leave behind.
use ollie_9p.Prelude.{ℕ, Option, ◌≡◌, refl}
use ollie_9p.Prelude.Outcome.{Act}
use ollie_9p.Agent.{AgentCore}
use ollie_9p.Server.{Tmsg, tclunk, Rmsg, World, ServerConfig}
use ollie_9p.Server.Answers.{Answers, answers, Replies-no_error}
use ollie_9p.Server.Handle.{handle}
use ollie_9p.Server.Handle.Answers.{handle-Answers}
use ollie_9p.Server.Handle.Keeps.{handle-IsSound}
use ollie_9p.Server.Read.{Race}
use ollie_9p.Server.Sound.{IsSound}
use ollie_9p.Server.Write.Spawn.{
  Job, alone, clunk_spawns, joined, joined-alone, joined-clunk_spawns, clunk_spawns-Keeps,
  alone-Keeps, alone-Answers, clunk_spawns-Answers,
}

module _ {C : AgentCore} {D : Type 0} (cfg : ServerConfig C D) where
  -- handle, with what is left to be done in the background
  unfoldable pub handle_spawns : Race → ℕ → Tmsg → Act (World C D) (Rmsg × Option Job)
  handle_spawns race conn (tclunk fid) w = clunk_spawns cfg conn fid w
  handle_spawns race conn msg w = alone (handle cfg race conn msg w)

  data Spawns (race : Race) (conn : ℕ) (msg : Tmsg) (w : World C D) : Type 0 where
    clunks : (fid : ℕ) → msg ≡ tclunk fid → Spawns race conn msg w
    others :
        handle_spawns race conn msg w ≡ alone (handle cfg race conn msg w) → Spawns race conn msg w

  Spawns-cases : (race : Race) (conn : ℕ) (msg : Tmsg) (w : World C D) → Spawns race conn msg w
  unfolding handle_spawns
  Spawns-cases race conn (tclunk fid) w = clunks fid refl
  Spawns-cases race conn msg w = others refl

  -- With the goroutine at once, it does what `handle` does.
  pub joined-handle_spawns :
      (race : Race) (conn : ℕ) (msg : Tmsg) (w : World C D)
      → joined cfg (handle_spawns race conn msg w) ≡ handle cfg race conn msg w
  joined-handle_spawns race conn msg w = elim (Spawns-cases race conn msg w) [
    | clunks fid e ↦
        rw e (unfold handle_spawns in unfold handle in joined-clunk_spawns cfg conn fid w)
    | others e ↦ rw e (joined-alone cfg (handle cfg race conn msg w))
  ]

  pub handle_spawns-IsSound :
      (race : Race) (conn : ℕ) (msg : Tmsg) (w : World C D)
      → IsSound w
      → IsSound (handle_spawns race conn msg w).1
  handle_spawns-IsSound race conn msg w h = elim (Spawns-cases race conn msg w) [
    | clunks fid e ↦ rw e (unfold handle_spawns in clunk_spawns-Keeps cfg conn fid w h)
    | others e ↦ rw e (alone-Keeps cfg _ (handle-IsSound cfg race conn msg w h))
  ]

  pub handle_spawns-Answers :
      (race : Race) (conn : ℕ) (msg : Tmsg) (w : World C D)
      → Answers (handle_spawns race conn msg w)
  handle_spawns-Answers race conn msg w = elim (Spawns-cases race conn msg w) [
    | clunks fid e ↦ rw e (unfold handle_spawns in clunk_spawns-Answers cfg conn fid w)
    | others e ↦
        rw e
          (alone-Answers cfg _ (answers (Replies-no_error _ (handle-Answers cfg race conn msg w))))
  ]
