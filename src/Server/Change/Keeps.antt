-- ===== src/Server/Change/Keeps.antt =====
-- wstat and remove keep the invariant of the server.
use ollie_9p.Prelude.{
  ℕ, Bytes, bytes_eq, nat_eq, ◌==◌, ◌||◌, List, [], ◌∷◌, ◌++◌, refl, codes, Option-cases, inl, inr,
}
use ollie_9p.Prelude.Keeps.{Keeps, if-Keeps, if_at-Keeps}
use ollie_9p.Prelude.Outcome.{Outcome, ok, err, panic, Act}
use ollie_9p.Agent.{AgentCore}
use ollie_9p.Server.Sound.{IsSound, on_disk-Keeps, set_fid-IsSound, delete_fid-IsSound}
use ollie_9p.Server.Sound.Sessions.{rename_session-Keeps, del-Keeps}
use ollie_9p.Path.{path_base}
use ollie_9p.Server.{
  World, ServerConfig, Fid, rwstat, rremove, get_fid, delete_fid, on_disk, session_config,
}
use ollie_9p.Server.Change.{
  remove_found, rename_in, rename_dir, rename_at, wstat_to, wstat, remove_session, remove_path,
  remove,
}
use ollie_9p.Server.Walk.Keeps.{or_rerror-Keeps}
use ollie_9p.SessionStore.{rename_session}
use ollie_9p.Store.{Store}
use ollie_9p.Text.{trim_prefix, split_n}

module _ {C : AgentCore} {D : Type 0} (cfg : ServerConfig C D) where
  rename_in-Keeps :
      (conn fid : ℕ) (f : Fid) (store : Store D) (prefix parent old_name new_name : Bytes)
      → Keeps IsSound (rename_in cfg conn fid f store prefix parent old_name new_name)
  unfolding rename_in
  rename_in-Keeps conn fid f store prefix parent old_name new_name w h =
      let r = on_disk (store.rename_fn (parent ++ old_name) (parent ++ new_name)) w in
      let h' : IsSound r.1 =
        on_disk-Keeps (store.rename_fn (parent ++ old_name) (parent ++ new_name)) w h in
      or_rerror-Keeps IsSound r.0 r.1 _ h' (λ _. set_fid-IsSound conn fid _ r.1 refl h')

  rename_dir-Keeps :
      (parts : List Bytes) (new_name : Bytes) → Keeps IsSound (rename_dir cfg parts new_name)
  unfolding rename_dir
  rename_dir-Keeps (root ∷ id ∷ []) new_name w h =
      let r = rename_session (session_config cfg) id new_name w in
      let h' : IsSound r.1 = rename_session-Keeps cfg id new_name w h in
      if-Keeps IsSound (root == codes "s") _ _
        (or_rerror-Keeps IsSound r.0 r.1 (λ _ w'. (ok rwstat, w')) h' (λ _. h')) h
  rename_dir-Keeps _ new_name w h = h

  rename_at_all :
      (P : World C D → Type 0) (conn fid : ℕ) (f : Fid) (new_name : Bytes) (w : World C D)
      → P w
      → ((store : Store D) (prefix parent old_name new_name : Bytes)
          → P (rename_in cfg conn fid f store prefix parent old_name new_name w).1)
      → P (rename_dir cfg (split_n (trim_prefix f.path (codes "/")) b'/' 2) new_name w).1
      → P (rename_at cfg conn fid f new_name w).1
  unfolding rename_at
  rename_at_all P conn fid f new_name w h renames dirs = search (if-Keeps P) depth 24

  wstat_to-Keeps :
      (conn fid : ℕ) (f : Fid) (r : Outcome Bytes) → Keeps IsSound (wstat_to cfg conn fid f r)
  unfolding wstat_to
  wstat_to-Keeps conn fid f (ok new_name) w h =
      if-Keeps IsSound (new_name == [] || new_name == path_base f.path) _ _ h (
        rename_at_all IsSound conn fid f new_name w h
          (λ store prefix parent old_name new_name.
            rename_in-Keeps conn fid f store prefix parent old_name new_name w h)
          (rename_dir-Keeps (split_n (trim_prefix f.path (codes "/")) b'/' 2) new_name w h))
  wstat_to-Keeps conn fid f (err _) w h = h
  wstat_to-Keeps conn fid f panic w h = h

  pub wstat-Keeps : (conn fid : ℕ) (stat : Bytes) → Keeps IsSound (wstat cfg conn fid stat)
  unfolding wstat
  wstat-Keeps conn fid stat w h = elim (Option-cases (get_fid conn fid w)) [
    | inl e ↦ rw (e, wstat) h
    | inr (f, e) ↦ rw (e, wstat) (wstat_to-Keeps conn fid f (cfg.unmarshal_name stat) w h)
  ]

  remove_session-Keeps : (parts : List Bytes) → Keeps IsSound (remove_session cfg parts)
  unfolding remove_session
  remove_session-Keeps (id ∷ []) = del-Keeps id
  remove_session-Keeps _ = λ w h. h

  remove_path_all :
      (P : World C D → Type 0) (path : Bytes) (w : World C D)
      → P w
      → ((act : Act D (Unit {0})) → P (on_disk act w).1)
      → P (remove_session cfg (split_n (trim_prefix path (codes "/s/")) b'/' 1) w).1
      → P (remove_path cfg path w).1
  unfolding remove_path
  remove_path_all P path w h disk sessions = search (if_at-Keeps P) depth 24

  remove_path-Keeps : (path : Bytes) → Keeps IsSound (remove_path cfg path)
  remove_path-Keeps path w h =
      remove_path_all IsSound path w h (λ act. on_disk-Keeps act w h)
        (remove_session-Keeps (split_n (trim_prefix path (codes "/s/")) b'/' 1) w h)

  pub remove_found-Keeps : (path : Bytes) → Keeps IsSound (remove_found cfg path)
  remove_found-Keeps path w h =
      let h' : IsSound (remove_path cfg path w).1 = remove_path-Keeps path w h in
      or_rerror-Keeps IsSound (remove_path cfg path w).0 (remove_path cfg path w).1
        (λ _ w'. (ok rremove, w')) h' (λ _. h')

  pub remove-Keeps : (conn fid : ℕ) → Keeps IsSound (remove cfg conn fid)
  unfolding remove
  remove-Keeps conn fid w h = elim (Option-cases (get_fid conn fid w)) [
    | inl e ↦ rw (e, remove) h
    | inr (f, e) ↦
        rw (e, remove)
          (remove_found-Keeps f.path (delete_fid conn fid w) (delete_fid-IsSound conn fid w h))
  ]
