-- ===== src/Server/Write/Spawn.antt =====
-- clunk of server.go with the goroutine that it starts for a write that may block:
-- `go s.handleWrite(path, input)`.
use ollie_9p.Prelude.{
  ℕ, Bytes, Option, none, some, ◌≡◌, refl, Bool-cases, Option-cases, inl, inr, if◌then◌else◌,
}
use ollie_9p.Prelude.Outcome.{Outcome, ok, err, panic, Act}
use ollie_9p.Agent.{AgentCore}
use ollie_9p.Server.{Rmsg, rclunk, World, ServerConfig, get_fid, delete_fid}
use ollie_9p.Server.Sound.{IsSound, delete_fid-IsSound}
use ollie_9p.Prelude.Keeps.{Keeps, if-Keeps, either}
use ollie_9p.Server.Answers.{Answers, Answers-no_error, ok-Answers, panic-Answers}
use ollie_9p.Server.Walk.{or_rerror}
use ollie_9p.Server.Walk.Keeps.{or_rerror-Keeps}
use ollie_9p.Server.Write
use ollie_9p.Server.Write.{
  is_async_write, is_writable, handle_write, in_background, flush_fid, clunk,
}
use ollie_9p.Server.Write.Keeps.{handle_write-Keeps}
use ollie_9p.Text.Space.{trim_space}

-- The arguments of the goroutine's handleWrite
pub record Job : Type 0 where
  pub path : Bytes
  pub input : Bytes

module _ {C : AgentCore} {D : Type 0} where
  -- A response, and no goroutine
  abbrev pub alone : Outcome Rmsg × World C D → Outcome (Rmsg × Option Job) × World C D
  alone (ok resp, w) = (ok (resp, none), w)
  alone (err e, w) = (err e, w)
  alone (panic, w) = (panic, w)

  -- The response once the goroutine has come to its end; the error of the write is dropped.
  abbrev after : Rmsg → Outcome (Unit {0}) × World C D → Outcome Rmsg × World C D
  after resp (ok _, w) = (ok resp, w)
  after resp (err _, w) = (ok resp, w)
  after resp (panic, w) = (panic, w)

module _ {C : AgentCore} {D : Type 0} (cfg : ServerConfig C D) where
  abbrev pub flush_spawns : Bytes → Bytes → Act (World C D) (Rmsg × Option Job)
  flush_spawns path input w =
      if is_async_write path
      then (ok (rclunk, some (record { path = path; input = input })), w)
      else alone (or_rerror (handle_write cfg path input w) (λ _ w'. (ok rclunk, w')))

  unfoldable pub clunk_spawns : ℕ → ℕ → Act (World C D) (Rmsg × Option Job)
  clunk_spawns conn fid w = elim (get_fid conn fid w) [
    | none ↦ (ok (rclunk, none), w)
    | some f ↦
        if is_writable f.mode
        then flush_spawns f.path (trim_space f.write_buf) (delete_fid conn fid w)
        else (ok (rclunk, none), delete_fid conn fid w)
  ]

  -- The goroutine, on its own
  abbrev pub run_job : Job → Act (World C D) (Unit {0})
  run_job job = handle_write cfg job.path job.input

  -- The goroutine runs at once.
  abbrev pub joined : Outcome (Rmsg × Option Job) × World C D → Outcome Rmsg × World C D
  joined (ok (resp, none), w) = (ok resp, w)
  joined (ok (resp, some job), w) = after resp (run_job job w)
  joined (err e, w) = (err e, w)
  joined (panic, w) = (panic, w)

  pub joined-alone : (r : Outcome Rmsg × World C D) → joined (alone r) ≡ r
  joined-alone (ok resp, w) = refl
  joined-alone (err e, w) = refl
  joined-alone (panic, w) = refl

  run_after : (r : Outcome (Unit {0}) × World C D) → after rclunk r ≡ in_background cfg r
  run_after (ok _, w) = refl
  run_after (err e, w) = refl
  run_after (panic, w) = refl

  joined-flush_spawns :
      (path input : Bytes) (w : World C D)
      → joined (flush_spawns path input w) ≡ flush_fid cfg path input w
  unfolding flush_fid
  joined-flush_spawns path input w = elim (Bool-cases (is_async_write path)) [
    | inl e ↦ rw e (run_after (handle_write cfg path input w))
    | inr e ↦ rw e (joined-alone _)
  ]

  pub joined-clunk_spawns :
      (conn fid : ℕ) (w : World C D) → joined (clunk_spawns conn fid w) ≡ clunk cfg conn fid w
  unfolding clunk clunk_spawns
  joined-clunk_spawns conn fid w = elim (Option-cases (get_fid conn fid w)) [
    | inl e ↦ rw (e, Write.clunk, clunk_spawns) refl
    | inr (f, e) ↦
        rw (e, Write.clunk, clunk_spawns)
          (elim (Bool-cases (is_writable f.mode)) [
            | inl e' ↦
                rw e' (joined-flush_spawns f.path (trim_space f.write_buf) (delete_fid conn fid w))
            | inr e' ↦ rw e' refl
          ])
  ]

  pub alone-Keeps : (r : Outcome Rmsg × World C D) → IsSound r.1 → IsSound (alone r).1
  alone-Keeps (ok resp, w) h = h
  alone-Keeps (err e, w) h = h
  alone-Keeps (panic, w) h = h

  pub run_job-Keeps : (job : Job) → Keeps IsSound (run_job job)
  run_job-Keeps job = handle_write-Keeps cfg job.path job.input

  pub flush_spawns-Keeps : (path input : Bytes) → Keeps IsSound (flush_spawns path input)
  flush_spawns-Keeps path input w h =
      let h' : IsSound (handle_write cfg path input w).1 = handle_write-Keeps cfg path input w h in
      if-Keeps IsSound (is_async_write path) _ _ h (
        alone-Keeps _ (
          or_rerror-Keeps IsSound (handle_write cfg path input w).0
            (handle_write cfg path input w).1 (λ _ w'. (ok rclunk, w')) h' (λ _. h')))

  pub clunk_spawns-Keeps : (conn fid : ℕ) → Keeps IsSound (clunk_spawns conn fid)
  unfolding clunk_spawns
  clunk_spawns-Keeps conn fid w h = elim (Option-cases (get_fid conn fid w)) [
    | inl e ↦ rw (e, clunk_spawns) h
    | inr (f, e) ↦
        rw (e, clunk_spawns)
          (if-Keeps IsSound (is_writable f.mode) _ _
            (flush_spawns-Keeps f.path (trim_space f.write_buf) (delete_fid conn fid w)
              (delete_fid-IsSound conn fid w h))
            (delete_fid-IsSound conn fid w h))
  ]

  or_rerror_answered :
      (r : Outcome (Unit {0}) × World C D) → Answers (or_rerror r (λ _ w'. (ok rclunk, w')))
  or_rerror_answered (ok _, w) = ok-Answers _ w
  or_rerror_answered (err e, w) = ok-Answers _ w
  or_rerror_answered (panic, w) = panic-Answers w

  pub alone-Answers : (r : Outcome Rmsg × World C D) → Answers r → Answers (alone r)
  alone-Answers (ok resp, w) h = ok-Answers _ w
  alone-Answers (err e, w) h = absurd (Answers-no_error _ h e refl)
  alone-Answers (panic, w) h = panic-Answers w

  pub flush_spawns-Answers :
      (path input : Bytes) (w : World C D) → Answers (flush_spawns path input w)
  flush_spawns-Answers path input w =
      either Answers (is_async_write path) _ _ (ok-Answers _ w)
        (alone-Answers _ (or_rerror_answered (handle_write cfg path input w)))

  pub clunk_spawns-Answers : (conn fid : ℕ) (w : World C D) → Answers (clunk_spawns conn fid w)
  unfolding clunk_spawns
  clunk_spawns-Answers conn fid w = elim (Option-cases (get_fid conn fid w)) [
    | inl e ↦ rw (e, clunk_spawns) (ok-Answers _ w)
    | inr (f, e) ↦
        let w' = delete_fid conn fid w in
        rw (e, clunk_spawns)
          (either Answers (is_writable f.mode) _ _
            (flush_spawns-Answers f.path (trim_space f.write_buf) w') (ok-Answers _ w'))
  ]
