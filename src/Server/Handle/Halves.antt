-- ===== src/Server/Handle/Halves.antt =====
-- handle of server.go in two parts, where a handler gives up the lock of its connection: read, stat,
-- clunk and remove look up their fid, the last two take it out, and go on with copies.
use ollie_9p.Prelude.{
  ℕ, Bytes, bytes_eq, nat_eq, ◌==◌, Bool, Option, none, some, ◌≡◌, ◌⊎◌, inl, inr, refl, ap, ◌∙◌,
  if◌then◌else◌, Option-cases, Bool-cases,
}
use ollie_9p.Prelude.Outcome.{ok, panic, Act, Outcome-cases, gives, fails, panics}
use ollie_9p.Agent.{AgentCore}
use ollie_9p.Server.{
  Tmsg, tread, tstat, tclunk, tremove, Rmsg, rclunk, World, ServerConfig, get_fid, delete_fid,
  qt_dir,
}
use ollie_9p.Server.Answers.{Answers, answers, Answers-no_error, Replies-no_error, ok-Answers}
use ollie_9p.Server.Change
use ollie_9p.Server.Change.{remove_found, remove}
use ollie_9p.Server.Change.Answers.{remove_found-Answers}
use ollie_9p.Server.Change.Keeps.{remove_found-Keeps}
use ollie_9p.Server.Handle.{handle}
use ollie_9p.Server.Handle.Spawn.{
  handle_spawns, joined-handle_spawns, handle_spawns-IsSound, handle_spawns-Answers,
}
use ollie_9p.Server.Read
use ollie_9p.Server.Read.{Race, read_found, read}
use ollie_9p.Server.Read.Answers.{read_found-Answers}
use ollie_9p.Server.Read.Keeps.{read_found-Keeps}
use ollie_9p.Server.Sound.{IsSound, delete_fid-IsSound}
use ollie_9p.Server.Stat
use ollie_9p.Server.Stat.{stat_found, stat}
use ollie_9p.Server.Stat.Answers.{stat_found-Answers}
use ollie_9p.Server.Stat.Keeps.{stat_found-Keeps}
use ollie_9p.Server.Walk.{bad_fid}
use ollie_9p.Server.Write.{is_writable}
use ollie_9p.Server.Write.Spawn.{
  Job, alone, joined, flush_spawns, clunk_spawns, flush_spawns-Keeps, flush_spawns-Answers,
  alone-Keeps, alone-Answers,
}
use ollie_9p.Text.Space.{trim_space}

-- How far a handler is: its message, or what it goes on with once the lock is released. `reading`
-- has the fid, whether it is a directory, its path, the offset and the count; `flushing` the path
-- and the data.
pub data Half : Type 0 where
  whole : Tmsg → Half
  settled : Rmsg → Half
  reading : ℕ → Bool → Bytes → ℕ → ℕ → Half
  statting removing : Bytes → Half
  flushing : Bytes → Bytes → Half

module _ {C : AgentCore} {D : Type 0} where
  -- The part of a handler under the lock of its connection. The others hold it to their end, or,
  -- as wstat does, for each of their parts.
  unfoldable pub start_handler : ℕ → Tmsg → World C D → Half × World C D
  start_handler conn (tread fid offset count) w = elim (get_fid conn fid w) [
    | none ↦ (settled bad_fid, w)
    | some f ↦ (reading fid (f.qid.kind == qt_dir) f.path offset count, w)
  ]
  start_handler conn (tstat fid) w = elim (get_fid conn fid w) [
    | none ↦ (settled bad_fid, w)
    | some f ↦ (statting f.path, w)
  ]
  start_handler conn (tclunk fid) w = elim (get_fid conn fid w) [
    | none ↦ (settled rclunk, w)
    | some f ↦ (
      if is_writable f.mode then flushing f.path (trim_space f.write_buf) else settled rclunk,
      delete_fid conn fid w,
    )
  ]
  start_handler conn (tremove fid) w = elim (get_fid conn fid w) [
    | none ↦ (settled bad_fid, w)
    | some f ↦ (removing f.path, delete_fid conn fid w)
  ]
  start_handler conn msg w = (whole msg, w)

module _ {C : AgentCore} {D : Type 0} (cfg : ServerConfig C D) where
  -- The rest of a handler
  unfoldable pub finish_handler : Race → ℕ → Half → Act (World C D) (Rmsg × Option Job)
  finish_handler race conn (whole msg) w = handle_spawns cfg race conn msg w
  finish_handler race conn (settled resp) w = (ok (resp, none), w)
  finish_handler race conn (reading fid is_dir path offset count) w =
      alone (read_found cfg race conn fid is_dir path offset count w)
  finish_handler race conn (statting path) w = alone (stat_found cfg path w)
  finish_handler race conn (removing path) w = alone (remove_found cfg path w)
  finish_handler race conn (flushing path input) w = flush_spawns cfg path input w

  -- With nothing between its parts, a handler does what it does as a whole.
  finish_handler-start_handler :
      (race : Race) (conn : ℕ) (msg : Tmsg) (w : World C D)
      → finish_handler race conn (start_handler conn msg w).0 (start_handler conn msg w).1
        ≡ handle_spawns cfg race conn msg w
  unfolding start_handler finish_handler handle_spawns handle read stat remove clunk_spawns
  finish_handler-start_handler race conn (tread fid offset count) w =
      elim (Option-cases (get_fid conn fid w)) [
        | inl e ↦ rw (e, start_handler, finish_handler, Read.read) refl
        | inr (f, e) ↦ rw (e, start_handler, finish_handler, Read.read) refl
      ]
  finish_handler-start_handler race conn (tstat fid) w = elim (Option-cases (get_fid conn fid w)) [
    | inl e ↦ rw (e, start_handler, finish_handler, Stat.stat) refl
    | inr (f, e) ↦ rw (e, start_handler, finish_handler, Stat.stat) refl
  ]
  finish_handler-start_handler race conn (tclunk fid) w = elim (Option-cases (get_fid conn fid w)) [
    | inl e ↦ rw (e, start_handler, finish_handler, clunk_spawns) refl
    | inr (f, e) ↦
        rw (e, start_handler, finish_handler, clunk_spawns)
          (elim (Bool-cases (is_writable f.mode)) [
            | inl e' ↦ rw (e', finish_handler) refl
            | inr e' ↦ rw (e', finish_handler) refl
          ])
  ]
  finish_handler-start_handler race conn (tremove fid) w =
      elim (Option-cases (get_fid conn fid w)) [
        | inl e ↦ rw (e, start_handler, finish_handler, Change.remove) refl
        | inr (f, e) ↦ rw (e, start_handler, finish_handler, Change.remove) refl
      ]
  finish_handler-start_handler race conn msg w = refl

  -- With nothing of others between its parts, and the goroutine that it may start for a write run at
  -- once, its error dropped, a handler does what it does as a whole, with the write before its
  -- answer.
  pub joined-finish_handler :
      (race : Race) (conn : ℕ) (msg : Tmsg) (w : World C D)
      → joined cfg
          (finish_handler race conn (start_handler conn msg w).0 (start_handler conn msg w).1)
        ≡ handle cfg race conn msg w
  joined-finish_handler race conn msg w =
      ap (joined cfg) (finish_handler-start_handler race conn msg w)
      ∙ joined-handle_spawns cfg race conn msg w

  pub finish_handler-IsSound :
      (race : Race) (conn : ℕ) (half : Half) (w : World C D)
      → IsSound w
      → IsSound (finish_handler race conn half w).1
  unfolding finish_handler
  finish_handler-IsSound race conn (whole msg) w h = handle_spawns-IsSound cfg race conn msg w h
  finish_handler-IsSound race conn (settled resp) w h = h
  finish_handler-IsSound race conn (reading fid is_dir path offset count) w h =
      alone-Keeps cfg (read_found cfg race conn fid is_dir path offset count w)
        (read_found-Keeps cfg race conn fid is_dir path offset count w h)
  finish_handler-IsSound race conn (statting path) w h =
      alone-Keeps cfg (stat_found cfg path w) (stat_found-Keeps cfg path w h)
  finish_handler-IsSound race conn (removing path) w h =
      alone-Keeps cfg (remove_found cfg path w) (remove_found-Keeps cfg path w h)
  finish_handler-IsSound race conn (flushing path input) w h = flush_spawns-Keeps cfg path input w h

  finish_handler-Answers :
      (race : Race) (conn : ℕ) (half : Half) (w : World C D)
      → Answers (finish_handler race conn half w)
  unfolding finish_handler
  finish_handler-Answers race conn (whole msg) w = handle_spawns-Answers cfg race conn msg w
  finish_handler-Answers race conn (settled resp) w = ok-Answers _ w
  finish_handler-Answers race conn (reading fid is_dir path offset count) w = alone-Answers cfg _ (
      answers
        (Replies-no_error _ (read_found-Answers cfg race conn fid is_dir path offset count w)))
  finish_handler-Answers race conn (statting path) w =
      alone-Answers cfg _ (answers (Replies-no_error _ (stat_found-Answers cfg path w)))
  finish_handler-Answers race conn (removing path) w =
      alone-Answers cfg _ (answers (Replies-no_error _ (remove_found-Answers cfg path w)))
  finish_handler-Answers race conn (flushing path input) w = flush_spawns-Answers cfg path input w

  pub finish_handler_responds :
      (race : Race) (conn : ℕ) (half : Half) (w : World C D)
      → ((resp : Rmsg) × (job : Option Job) × ((finish_handler race conn half w).0
            ≡ ok (resp, job)))
        ⊎ ((finish_handler race conn half w).0 ≡ panic)
  finish_handler_responds race conn half w =
      elim (Outcome-cases (finish_handler race conn half w).0) [
        | gives (resp, job) e ↦ inl (resp, job, e)
        | fails m e ↦ absurd (Answers-no_error _ (finish_handler-Answers race conn half w) m e)
        | panics e ↦ inr e
      ]

module _ {C : AgentCore} {D : Type 0} where
  pub start_handler-IsSound :
      (conn : ℕ) (msg : Tmsg) (w : World C D) → IsSound w → IsSound (start_handler conn msg w).1
  unfolding start_handler
  start_handler-IsSound conn (tread fid offset count) w h =
      elim (Option-cases (get_fid conn fid w)) [
        | inl e ↦ rw (e, start_handler) h
        | inr (f, e) ↦ rw (e, start_handler) h
      ]
  start_handler-IsSound conn (tstat fid) w h = elim (Option-cases (get_fid conn fid w)) [
    | inl e ↦ rw (e, start_handler) h
    | inr (f, e) ↦ rw (e, start_handler) h
  ]
  start_handler-IsSound conn (tclunk fid) w h = elim (Option-cases (get_fid conn fid w)) [
    | inl e ↦ rw (e, start_handler) h
    | inr (f, e) ↦ rw (e, start_handler) (delete_fid-IsSound conn fid w h)
  ]
  start_handler-IsSound conn (tremove fid) w h = elim (Option-cases (get_fid conn fid w)) [
    | inl e ↦ rw (e, start_handler) h
    | inr (f, e) ↦ rw (e, start_handler) (delete_fid-IsSound conn fid w h)
  ]
  start_handler-IsSound conn msg w h = h
