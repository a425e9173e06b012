-- ===== src/Server/Stat/Answers.antt =====
-- stat answers.
use ollie_9p.Prelude.{
  ℕ, Bytes, bytes_eq, nat_eq, ◌==◌, ◌&&◌, not, Bool, List, [], ◌∷◌, codes, Option-cases, inl, inr,
  refl,
}
use ollie_9p.Prelude.Keeps.{either}
use ollie_9p.Prelude.Outcome.{Outcome, ok, err, panic, Outcome-cases, gives, fails, panics}
use ollie_9p.Agent.{AgentCore}
use ollie_9p.Server.Answers.{
  Answers, ok-Answers, ok-Replies, panic-Answers, panic-Replies, bind-Answers, bind-Replies,
  Replies, is_reply,
}
use ollie_9p.Server.{Dir, World, ServerConfig, get_fid, on_disk, session_config, Rmsg, tstat}
use ollie_9p.Server.Lookup.{PathType, path_type}
use ollie_9p.Server.Lookup.Answers.{path_type-Answers}
use ollie_9p.Server.Stat
use ollie_9p.Server.Stat.{
  stat_found, size_of_info, times_of_info, size_of_content, session_file_stat, length_stat,
  mem_stat, known_length, is_dir_type, stat_of_type, make_stat, to_rstat, stat,
}
use ollie_9p.Server.Stat.Laws.{length_stat-any}
use ollie_9p.SessionStore.Entries.{open_store}
use ollie_9p.Store.{FileInfo}
use ollie_9p.Store.RunFile
use ollie_9p.Text.{has_prefix}

abbrev IsRstat {ℓ} : {W : Type ℓ} → Outcome Rmsg × W → Type 0
IsRstat r = Replies (is_reply (tstat 0)) r

module _ {ℓ} {W : Type ℓ} (d : Dir) where
  size_of_info-Answers : (r : Outcome FileInfo × W) → Answers (size_of_info d r)
  size_of_info-Answers (ok info, w) = ok-Answers _ w
  size_of_info-Answers (err _, w) = ok-Answers d w
  size_of_info-Answers (panic, w) = panic-Answers w

  times_of_info-Answers : (r : Outcome FileInfo × W) → Answers (times_of_info d r)
  times_of_info-Answers (ok info, w) = ok-Answers _ w
  times_of_info-Answers (err _, w) = ok-Answers d w
  times_of_info-Answers (panic, w) = panic-Answers w

  size_of_content-Answers : (r : Outcome Bytes × W) → Answers (size_of_content d r)
  size_of_content-Answers (ok content, w) = ok-Answers _ w
  size_of_content-Answers (err _, w) = ok-Answers d w
  size_of_content-Answers (panic, w) = panic-Answers w

module _ {C : AgentCore} {D : Type 0} (cfg : ServerConfig C D) where
  session_file_stat-Answers :
      (parts : List Bytes) (d : Dir) (w : World C D) → Answers (session_file_stat cfg parts d w)
  unfolding session_file_stat
  session_file_stat-Answers (id ∷ name ∷ []) d w =
      elim (Outcome-cases (open_store (session_config cfg) id w)) [
        | gives files e ↦
            rw (e, session_file_stat) (size_of_info-Answers d (RunFile.stat files name w))
        | fails m e ↦ rw (e, session_file_stat) (ok-Answers d w)
        | panics e ↦ rw (e, session_file_stat) (panic-Answers w)
      ]
  session_file_stat-Answers _ d w = ok-Answers d w

  known_length-Answers :
      (is_dir : Bool) (path : Bytes) (d : Dir) (w : World C D)
      → Answers (known_length cfg is_dir path d w)
  unfolding known_length
  known_length-Answers is_dir path d w =
      either Answers (d.size == 0 && not is_dir) _ _
        (length_stat-any cfg Answers path d w (ok-Answers d w) (λ n. ok-Answers _ w)
          (size_of_info-Answers d) (times_of_info-Answers d) (size_of_content-Answers d)
          (λ parts. session_file_stat-Answers parts d w))
        (ok-Answers d w)

  mem_stat-Answers : (path : Bytes) (d : Dir) (w : World C D) → Answers (mem_stat cfg path d w)
  unfolding mem_stat
  mem_stat-Answers path d w =
      either Answers (has_prefix path (codes "/m/")) _ _
        (times_of_info-Answers d (on_disk (cfg.mem_store.stat_fn d.name) w)) (ok-Answers d w)

  stat_of_type-Answers :
      (path : Bytes) (kind : PathType) (w : World C D) → Answers (stat_of_type cfg path kind w)
  unfolding stat_of_type
  stat_of_type-Answers path kind w =
      bind-Answers (mem_stat cfg path _) (λ d''. known_length cfg (is_dir_type cfg kind) path d'') w
        (mem_stat-Answers path _ w) (λ d''. known_length-Answers (is_dir_type cfg kind) path d'')

  make_stat-Answers : (path : Bytes) (w : World C D) → Answers (make_stat cfg path w)
  unfolding make_stat
  make_stat-Answers path w =
      bind-Answers (path_type cfg path) (λ kind. stat_of_type cfg path kind) w
        (path_type-Answers cfg path w) (λ kind. stat_of_type-Answers path kind)

  to_rstat-Answers : (r : Outcome Bytes) (w : World C D) → IsRstat (to_rstat cfg (r, w))
  to_rstat-Answers (ok b) w = ok-Replies _ w refl
  to_rstat-Answers (err e) w = ok-Replies _ w refl
  to_rstat-Answers panic w = panic-Replies w

  pub stat_found-Answers : (path : Bytes) (w : World C D) → IsRstat (stat_found cfg path w)
  stat_found-Answers path w =
      bind-Replies (make_stat cfg path) (λ d w'. to_rstat cfg (cfg.dir_bytes d, w')) w
        (make_stat-Answers path w) (λ d w'. to_rstat-Answers (cfg.dir_bytes d) w')

  pub stat-Answers : (conn fid : ℕ) (w : World C D) → IsRstat (stat cfg conn fid w)
  unfolding stat
  stat-Answers conn fid w = elim (Option-cases (get_fid conn fid w)) [
    | inl e ↦ rw (e, Stat.stat) (ok-Replies _ w refl)
    | inr (f, e) ↦ rw (e, Stat.stat) (stat_found-Answers f.path w)
  ]
