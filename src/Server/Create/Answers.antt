-- ===== src/Server/Create/Answers.antt =====
-- create answers.
use ollie_9p.Prelude.Outcome.{Outcome}
use ollie_9p.Prelude.{
  ℕ, Bytes, bytes_eq, nat_eq, ◌==◌, ◌||◌, codes, Option-cases, inl, inr, refl, [],
}
use ollie_9p.Prelude.Keeps.{either}
use ollie_9p.Agent.{AgentCore}
use ollie_9p.Server.Answers.{ok-Replies, or_rerror-Replies, Replies, is_reply}
use ollie_9p.Server.{Fid, World, ServerConfig, get_fid, Rmsg, tcreate}
use ollie_9p.Server.Create
use ollie_9p.Server.Create.{
  rel_name, asks_dir, create_file, move_fid, create_dir, create_at, create,
}
use ollie_9p.Text.{has_prefix}

abbrev IsReply {ℓ} : {W : Type ℓ} → Outcome Rmsg × W → Type 0
IsReply r = Replies (is_reply (tcreate 0 [] 0 0)) r

module _ {C : AgentCore} {D : Type 0} (cfg : ServerConfig C D) where
  create_dir-Answers :
      (conn fid : ℕ) (f : Fid) (name : Bytes) (mode : ℕ) (w : World C D)
      → IsReply (create_dir cfg conn fid f name mode w)
  unfolding create_dir
  create_dir-Answers conn fid f name mode w =
      either IsReply (f.path == codes "/t" || has_prefix f.path (codes "/t/")) _ _
        (or_rerror-Replies (λ e. refl) _ _ (λ _ w'. ok-Replies _ _ refl)) (ok-Replies _ w refl)

  create_at-Answers :
      (conn fid : ℕ) (f : Fid) (name : Bytes) (perm mode : ℕ) (w : World C D)
      → IsReply (create_at cfg conn fid f name perm mode w)
  unfolding create_at
  create_at-Answers conn fid f name perm mode w =
      either IsReply (asks_dir perm) _ _ (create_dir-Answers conn fid f name mode w) (
        or_rerror-Replies (λ e. refl) (create_file cfg f.path name w) _
          (λ _ w'. ok-Replies _ _ refl))

  pub create-Answers :
      (conn fid : ℕ) (name : Bytes) (perm mode : ℕ) (w : World C D)
      → IsReply (create cfg conn fid name perm mode w)
  unfolding create
  create-Answers conn fid name perm mode w = elim (Option-cases (get_fid conn fid w)) [
    | inl e ↦ rw (e, Create.create) (ok-Replies _ w refl)
    | inr (f, e) ↦ rw (e, Create.create) (create_at-Answers conn fid f name perm mode w)
  ]
