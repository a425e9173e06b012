-- ===== src/Server/Stat/Keeps.antt =====
-- stat keeps the invariant of the server.
use ollie_9p.Prelude.{
  ℕ, Bytes, bytes_eq, nat_eq, ◌==◌, ◌&&◌, not, Bool, List, [], ◌∷◌, codes, Option-cases, inl, inr,
}
use ollie_9p.Prelude.Keeps.{Keeps, Keeps-bind, if-Keeps}
use ollie_9p.Prelude.Outcome.{Outcome, ok, err, panic, Act, Outcome-cases, gives, fails, panics}
use ollie_9p.Agent.{AgentCore}
use ollie_9p.Server.Sound.{IsSound, on_disk-Keeps}
use ollie_9p.Server.Sound.Sessions.{open_store-Keeps, session_store-Keeps}
use ollie_9p.Server.{World, ServerConfig, Dir, get_fid, on_disk, session_config}
use ollie_9p.Server.Lookup.{PathType, path_type}
use ollie_9p.Server.Lookup.Keeps.{path_type-Keeps}
use ollie_9p.Server.Stat.{
  stat_found, size_of_info, times_of_info, size_of_content, session_file_stat, length_stat,
  mem_stat, known_length, is_dir_type, stat_of_type, make_stat, to_rstat, stat,
}
use ollie_9p.SessionStore.Entries.{open_store, session_store}
use ollie_9p.Store.{FileInfo, Store}
use ollie_9p.Store.Flat.{store_read}
use ollie_9p.Store.Keeps.{store_read-Keeps}
use ollie_9p.Store.RunFile
use ollie_9p.Text.{has_prefix, trim_prefix, split_n}

module _ {ℓ} {W : Type ℓ} (P : W → Type 0) (d : Dir) where
  size_of_info-Keeps : (r : Outcome FileInfo × W) → P r.1 → P (size_of_info d r).1
  size_of_info-Keeps (ok info, w) h = h
  size_of_info-Keeps (err _, w) h = h
  size_of_info-Keeps (panic, w) h = h

  times_of_info-Keeps : (r : Outcome FileInfo × W) → P r.1 → P (times_of_info d r).1
  times_of_info-Keeps (ok info, w) h = h
  times_of_info-Keeps (err _, w) h = h
  times_of_info-Keeps (panic, w) h = h

  size_of_content-Keeps : (r : Outcome Bytes × W) → P r.1 → P (size_of_content d r).1
  size_of_content-Keeps (ok content, w) h = h
  size_of_content-Keeps (err _, w) h = h
  size_of_content-Keeps (panic, w) h = h

module _ {C : AgentCore} {D : Type 0} (cfg : ServerConfig C D) where
  session_file_stat-Keeps :
      (parts : List Bytes) (d : Dir) → Keeps IsSound (session_file_stat cfg parts d)
  unfolding session_file_stat
  session_file_stat-Keeps (id ∷ name ∷ []) d w h =
      elim (Outcome-cases (open_store (session_config cfg) id w)) [
        | gives files e ↦
            rw (e, session_file_stat)
              (size_of_info-Keeps IsSound d (RunFile.stat files name w)
                ((open_store-Keeps cfg id w files e).1 name w h))
        | fails m e ↦ rw (e, session_file_stat) h
        | panics e ↦ rw (e, session_file_stat) h
      ]
  session_file_stat-Keeps _ d w h = h

  length_stat_all :
      (P : World C D → Type 0) (path : Bytes) (d : Dir) (w : World C D)
      → P w
      → ((act : Act D FileInfo) → P (size_of_info d (on_disk act w)).1)
      → ((act : Act D FileInfo) → P (times_of_info d (on_disk act w)).1)
      → ((store : Store D) (name : Bytes)
          → P (size_of_content d (on_disk (store_read store name) w)).1)
      → P (size_of_content d (store_read (session_store (session_config cfg)) d.name w)).1
      → P (session_file_stat cfg (split_n (trim_prefix path (codes "/s/")) b'/' 1) d w).1
      → P (length_stat cfg path d w).1
  unfolding length_stat
  length_stat_all P path d w h info times content table files = search (if-Keeps P) depth 24

  length_stat-Keeps : (path : Bytes) (d : Dir) → Keeps IsSound (length_stat cfg path d)
  length_stat-Keeps path d w h =
      length_stat_all IsSound path d w h
        (λ act. size_of_info-Keeps IsSound d (on_disk act w) (on_disk-Keeps act w h))
        (λ act. times_of_info-Keeps IsSound d (on_disk act w) (on_disk-Keeps act w h))
        (λ store name.
          size_of_content-Keeps IsSound d (on_disk (store_read store name) w)
            (on_disk-Keeps (store_read store name) w h))
        (size_of_content-Keeps IsSound d (store_read (session_store (session_config cfg)) d.name w)
          (store_read-Keeps IsSound (session_store (session_config cfg)) (session_store-Keeps cfg)
            d.name w h))
        (session_file_stat-Keeps (split_n (trim_prefix path (codes "/s/")) b'/' 1) d w h)

  mem_stat-Keeps : (path : Bytes) (d : Dir) → Keeps IsSound (mem_stat cfg path d)
  unfolding mem_stat
  mem_stat-Keeps path d w h =
      if-Keeps IsSound (has_prefix path (codes "/m/")) _ _
        (times_of_info-Keeps IsSound d (on_disk (cfg.mem_store.stat_fn d.name) w)
          (on_disk-Keeps (cfg.mem_store.stat_fn d.name) w h))
        h

  known_length-Keeps :
      (is_dir : Bool) (path : Bytes) (d : Dir) → Keeps IsSound (known_length cfg is_dir path d)
  unfolding known_length
  known_length-Keeps is_dir path d w h =
      if-Keeps IsSound (d.size == 0 && not is_dir) _ _ (length_stat-Keeps path d w h) h

  stat_of_type-Keeps : (path : Bytes) (kind : PathType) → Keeps IsSound (stat_of_type cfg path kind)
  unfolding stat_of_type
  stat_of_type-Keeps path kind w h =
      Keeps-bind IsSound (mem_stat cfg path _)
        (λ d''. known_length cfg (is_dir_type cfg kind) path d'') (mem_stat-Keeps path _)
        (λ _ _ d'' _. known_length-Keeps (is_dir_type cfg kind) path d'') w h

  make_stat-Keeps : (path : Bytes) → Keeps IsSound (make_stat cfg path)
  unfolding make_stat
  make_stat-Keeps path =
      Keeps-bind IsSound (path_type cfg path) (λ kind. stat_of_type cfg path kind)
        (path_type-Keeps cfg path) (λ _ _ kind _. stat_of_type-Keeps path kind)

  to_rstat-Keeps : (r : Outcome Bytes) (w : World C D) → IsSound w → IsSound (to_rstat cfg (r, w)).1
  to_rstat-Keeps (ok b) w h = h
  to_rstat-Keeps (err e) w h = h
  to_rstat-Keeps panic w h = h

  pub stat_found-Keeps : (path : Bytes) → Keeps IsSound (stat_found cfg path)
  stat_found-Keeps path =
      Keeps-bind IsSound (make_stat cfg path) (λ d w'. to_rstat cfg (cfg.dir_bytes d, w'))
        (make_stat-Keeps path) (λ _ _ d _ w' h'. to_rstat-Keeps (cfg.dir_bytes d) w' h')

  pub stat-Keeps : (conn fid : ℕ) → Keeps IsSound (stat cfg conn fid)
  unfolding stat
  stat-Keeps conn fid w h = elim (Option-cases (get_fid conn fid w)) [
    | inl e ↦ rw (e, stat) h
    | inr (f, e) ↦ rw (e, stat) (stat_found-Keeps f.path w h)
  ]
