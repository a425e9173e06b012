-- ===== src/Server/Read/Answers.antt =====
-- read answers.
use ollie_9p.Prelude.{
  Bool, ℕ, Bytes, bytes_eq, nat_eq, ltb, ◌==◌, ◌&&◌, List, [], ◌∷◌, arith, codes, Option-cases, inl,
  inr, refl,
}
use ollie_9p.Prelude.Keeps.{either}
use ollie_9p.Prelude.Outcome.{Outcome, Outcome-cases, gives, fails, panics}
use ollie_9p.Agent.{AgentCore}
use ollie_9p.Server.Answers.{ok-Replies, panic-Replies, or_rerror-Replies, Replies, is_reply}
use ollie_9p.Server.{World, ServerConfig, get_fid, session_config, qt_dir, Rmsg, tread}
use ollie_9p.Server.Buffer.{read_slice}
use ollie_9p.Server.Read
use ollie_9p.Server.Read.{
  read_found, Race, serve, to_rread, wait_base_of, keep_base, read_wait, read_session_file,
  read_session, read_file, read,
}
use ollie_9p.Server.Read.Bounds.{read_file-any}
use ollie_9p.SessionStore.Entries.{open_store}
use ollie_9p.Store.Flat.{store_blocking_read}
use ollie_9p.Store.RunFile.{RunFileStore, run_file_store}
use ollie_9p.Text.{has_suffix}

abbrev IsReply {ℓ} : {W : Type ℓ} → Outcome Rmsg × W → Type 0
IsReply r = Replies (is_reply (tread 0 0 0)) r

to_rread-Answers {ℓ} :
    {W : Type ℓ} (offset count : ℕ) (content : Bytes) (w : W)
    → IsReply (to_rread (read_slice offset count content), w)
to_rread-Answers offset count content w = elim (Outcome-cases (read_slice offset count content)) [
  | gives part e ↦ rw (e, to_rread) (ok-Replies _ w refl)
  | fails m e ↦ absurd (unfold read_slice in ground (arith, e))
  | panics e ↦ rw (e, to_rread) (panic-Replies w)
]

serve-Answers {ℓ} :
    {W : Type ℓ} (offset count : ℕ) (r : Outcome Bytes × W) → IsReply (serve offset count r)
serve-Answers offset count r =
    or_rerror-Replies (λ e. refl) r _ (λ content w. to_rread-Answers offset count content w)

module _ {C : AgentCore} {D : Type 0} (cfg : ServerConfig C D) (race : Race) (conn fid : ℕ) where
  read_session_file-Answers :
      (files : RunFileStore (World C D)) (name : Bytes) (offset count : ℕ) (w : World C D)
      → IsReply (read_session_file cfg race conn fid files name offset count w)
  unfolding read_session_file read_wait
  read_session_file-Answers files name offset count w =
      either IsReply (name == codes "fifo.out" && ltb 0 offset) _ _ (ok-Replies _ w refl) (
        either IsReply (has_suffix name (codes "wait")) _ _
          (either IsReply (ltb 0 offset) _ _ (ok-Replies _ w refl) (
            or_rerror-Replies (λ e. refl)
              (store_blocking_read (run_file_store files) name
                (wait_base_of cfg (get_fid conn fid w)) w)
              _ (λ content w'. to_rread-Answers offset count content _)))
          (serve-Answers offset count _))

  read_session-Answers :
      (parts : List Bytes) (offset count : ℕ) (w : World C D)
      → IsReply (read_session cfg race conn fid parts offset count w)
  unfolding read_session
  read_session-Answers (root ∷ id ∷ name ∷ []) offset count w =
      elim (Outcome-cases (open_store (session_config cfg) id w)) [
        | gives files e ↦ rw (e, read_session) (read_session_file-Answers files name offset count w)
        | fails m e ↦ rw (e, read_session) (ok-Replies _ w refl)
        | panics e ↦ rw (e, read_session) (panic-Replies w)
      ]
  read_session-Answers _ offset count w = ok-Replies _ w refl

  pub read_found-Answers :
      (is_dir : Bool) (path : Bytes) (offset count : ℕ) (w : World C D)
      → IsReply (read_found cfg race conn fid is_dir path offset count w)
  read_found-Answers is_dir path offset count w = either IsReply is_dir _ _ (ok-Replies _ _ refl) (
      read_file-any cfg race conn fid IsReply path offset count w (ok-Replies _ w refl)
        (serve-Answers offset count) (λ parts. read_session-Answers parts offset count w))

  pub read-Answers :
      (offset count : ℕ) (w : World C D) → IsReply (read cfg race conn fid offset count w)
  unfolding read
  read-Answers offset count w = elim (Option-cases (get_fid conn fid w)) [
    | inl e ↦ rw (e, Read.read) (ok-Replies _ w refl)
    | inr (f, e) ↦
        rw (e, Read.read) (read_found-Answers (f.qid.kind == qt_dir) f.path offset count w)
  ]
