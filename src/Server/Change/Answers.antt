-- ===== src/Server/Change/Answers.antt =====
-- wstat and remove answer.
use ollie_9p.Prelude.{
  ℕ, Bytes, bytes_eq, nat_eq, ◌==◌, ◌||◌, List, [], ◌∷◌, codes, Option-cases, inl, inr, refl,
}
use ollie_9p.Prelude.Keeps.{either}
use ollie_9p.Prelude.Outcome.{Outcome, ok, err, panic}
use ollie_9p.Agent.{AgentCore}
use ollie_9p.Server.Answers.{ok-Replies, panic-Replies, or_rerror-Replies, Replies, is_reply}
use ollie_9p.Path.{path_base}
use ollie_9p.Server.{
  Fid, rwstat, Rmsg, World, ServerConfig, get_fid, session_config, delete_fid, twstat, tremove,
}
use ollie_9p.Server.Change.{
  remove_found, rename_in, rename_dir, rename_at, wstat_to, wstat, remove_path, remove,
}
use ollie_9p.SessionStore.{rename_session}
use ollie_9p.Store.{Store}

abbrev IsRwstat {ℓ} : {W : Type ℓ} → Outcome Rmsg × W → Type 0
IsRwstat r = Replies (is_reply (twstat 0 [])) r

abbrev IsRremove {ℓ} : {W : Type ℓ} → Outcome Rmsg × W → Type 0
IsRremove r = Replies (is_reply (tremove 0)) r

module _ {C : AgentCore} {D : Type 0} (cfg : ServerConfig C D) where
  rename_in-Answers :
      (conn fid : ℕ) (f : Fid) (store : Store D) (prefix parent old_name new_name : Bytes)
      (w : World C D)
      → IsRwstat (rename_in cfg conn fid f store prefix parent old_name new_name w)
  unfolding rename_in
  rename_in-Answers conn fid f store prefix parent old_name new_name w =
      or_rerror-Replies (λ e. refl) _ _ (λ _ w'. ok-Replies _ _ refl)

  rename_dir-Answers :
      (parts : List Bytes) (new_name : Bytes) (w : World C D)
      → IsRwstat (rename_dir cfg parts new_name w)
  unfolding rename_dir
  rename_dir-Answers (root ∷ id ∷ []) new_name w =
      either IsRwstat (root == codes "s") _ _
        (or_rerror-Replies (λ e. refl) (rename_session (session_config cfg) id new_name w) _
          (λ _ w'. ok-Replies _ _ refl))
        (ok-Replies _ w refl)
  rename_dir-Answers _ new_name w = ok-Replies _ w refl

  rename_at-any :
      (P : Outcome Rmsg × World C D → Type 0) (conn fid : ℕ) (f : Fid) (new_name : Bytes)
      (w : World C D)
      → ((store : Store D) (prefix parent : Bytes)
          → P (rename_in cfg conn fid f store prefix parent (path_base f.path) new_name w))
      → ((parts : List Bytes) → P (rename_dir cfg parts new_name w))
      → P (ok rwstat, w)
      → P (rename_at cfg conn fid f new_name w)
  unfolding rename_at
  rename_at-any P conn fid f new_name w store dirs same = search (either P) depth 24

  wstat_to-Answers :
      (conn fid : ℕ) (f : Fid) (r : Outcome Bytes) (w : World C D)
      → IsRwstat (wstat_to cfg conn fid f r w)
  unfolding wstat_to
  wstat_to-Answers conn fid f (ok new_name) w =
      either IsRwstat (new_name == [] || new_name == path_base f.path) _ _ (ok-Replies _ w refl) (
        rename_at-any IsRwstat conn fid f new_name w
          (λ store prefix parent.
            rename_in-Answers conn fid f store prefix parent (path_base f.path) new_name w)
          (λ parts. rename_dir-Answers parts new_name w) (ok-Replies rwstat w refl))
  wstat_to-Answers conn fid f (err e) w = ok-Replies _ w refl
  wstat_to-Answers conn fid f panic w = panic-Replies w

  pub wstat-Answers :
      (conn fid : ℕ) (stat : Bytes) (w : World C D) → IsRwstat (wstat cfg conn fid stat w)
  unfolding wstat
  wstat-Answers conn fid stat w = elim (Option-cases (get_fid conn fid w)) [
    | inl e ↦ rw (e, wstat) (ok-Replies _ w refl)
    | inr (f, e) ↦ rw (e, wstat) (wstat_to-Answers conn fid f (cfg.unmarshal_name stat) w)
  ]

  pub remove_found-Answers : (path : Bytes) (w : World C D) → IsRremove (remove_found cfg path w)
  remove_found-Answers path w =
      or_rerror-Replies (λ e. refl) (remove_path cfg path w) _ (λ _ w'. ok-Replies _ w' refl)

  pub remove-Answers : (conn fid : ℕ) (w : World C D) → IsRremove (remove cfg conn fid w)
  unfolding remove
  remove-Answers conn fid w = elim (Option-cases (get_fid conn fid w)) [
    | inl e ↦ rw (e, remove) (ok-Replies _ w refl)
    | inr (f, e) ↦ rw (e, remove) (remove_found-Answers f.path (delete_fid conn fid w))
  ]
