-- ===== src/Server/Change.antt =====
-- wstat and remove of server.go.
pub mod Keeps
pub mod Answers
use ollie_9p.Prelude.{
  ℕ, ◌-◌, ◌&&◌, ◌||◌, not, Bytes, bytes_eq, ◌==◌, none, some, List, [], ◌∷◌, ◌++◌, if◌then◌else◌,
  codes, length, take,
}
use ollie_9p.Prelude.Outcome.{Outcome, ok, err, panic, Act, pure, fail}
use ollie_9p.Agent.{AgentCore}
use ollie_9p.Path.{path_base, qid_path}
use ollie_9p.Server.{
  Fid, Rmsg, rerror, rwstat, rremove, World, ServerConfig, on_disk, get_fid, set_fid, delete_fid,
  session_config,
}
use ollie_9p.Server.Walk.{bad_fid, or_rerror}
use ollie_9p.SessionStore.{del, rename_session}
use ollie_9p.Store.{Store}
use ollie_9p.Text.{has_prefix, trim_prefix, split_n}

module _ {C : AgentCore} {D : Type 0} (cfg : ServerConfig C D) where
  -- `f.path = path; f.qid.Path = qidPath(f.path)`
  abbrev repoint : ℕ → ℕ → Fid → Bytes → World C D → World C D
  repoint conn fid f path =
      set_fid conn fid (record f { path = path; qid = record f.qid { path = qid_path path } })

  rename_in : ℕ → ℕ → Fid → Store D → Bytes → Bytes → Bytes → Bytes → Act (World C D) Rmsg
  rename_in conn fid f store prefix parent old_name new_name w =
      or_rerror (on_disk (store.rename_fn (parent ++ old_name) (parent ++ new_name)) w)
        (λ _ w'. (ok rwstat, repoint conn fid f (prefix ++ (parent ++ new_name)) w'))

  rename_dir : List Bytes → Bytes → Act (World C D) Rmsg
  rename_dir (root ∷ id ∷ []) new_name w =
      if root == codes "s"
      then or_rerror (rename_session (session_config cfg) id new_name w) (λ _ w'. (ok rwstat, w'))
      else (ok (rerror (codes "rename not supported")), w)
  rename_dir _ new_name w = (ok (rerror (codes "rename not supported")), w)

  -- The switch on the path. Below "/t/" the directory part of the path is kept:
  -- `oldRel[:len(oldRel)-len(oldName)]`.
  rename_at : ℕ → ℕ → Fid → Bytes → Act (World C D) Rmsg
  unfolding rename_in rename_dir
  rename_at conn fid f new_name w =
      let old_name = path_base f.path in
      if has_prefix f.path (codes "/a/")
      then rename_in conn fid f cfg.agent_store (codes "/a/") [] old_name new_name w
      else if has_prefix f.path (codes "/m/")
      then rename_in conn fid f cfg.mem_store (codes "/m/") [] old_name new_name w
      else if has_prefix f.path (codes "/sk/")
      then rename_in conn fid f cfg.skill_store (codes "/sk/") [] old_name new_name w
      else if has_prefix f.path (codes "/t/")
      then (let old_rel = trim_prefix f.path (codes "/t/") in
          rename_in conn fid f cfg.tool_store.store (codes "/t/")
            (take (length old_rel - length old_name) old_rel) old_name new_name w)
      else if has_prefix f.path (codes "/s/") && not (f.path == codes "/s/new")
      then rename_dir (split_n (trim_prefix f.path (codes "/")) b'/' 2) new_name w
      else (ok rwstat, w)

  -- A stat that cannot be read, has no name or keeps the name is accepted and does nothing.
  wstat_to : ℕ → ℕ → Fid → Outcome Bytes → Act (World C D) Rmsg
  unfolding rename_at
  wstat_to conn fid f (ok new_name) w =
      if new_name == [] || new_name == path_base f.path
      then (ok rwstat, w)
      else rename_at conn fid f new_name w
  wstat_to conn fid f (err _) w = (ok rwstat, w)
  wstat_to conn fid f panic w = (panic, w)

  unfoldable pub wstat : ℕ → ℕ → Bytes → Act (World C D) Rmsg
  unfolding wstat_to
  wstat conn fid stat w = elim (get_fid conn fid w) [
    | none ↦ (ok bad_fid, w)
    | some f ↦ wstat_to conn fid f (cfg.unmarshal_name stat) w
  ]

  -- A file of a session is left alone, so that `rm -r` comes to the directory.
  remove_session : List Bytes → Act (World C D) (Unit {0})
  remove_session (id ∷ []) = del id
  remove_session _ = pure tt

  unfoldable pub remove_path : Bytes → Act (World C D) (Unit {0})
  unfolding remove_session
  remove_path path =
      if has_prefix path (codes "/a/")
      then on_disk (cfg.agent_store.delete_fn (path_base path))
      else if has_prefix path (codes "/m/")
      then on_disk (cfg.mem_store.delete_fn (path_base path))
      else if has_prefix path (codes "/sk/")
      then on_disk (cfg.skill_store.delete_fn (path_base path))
      else if has_prefix path (codes "/t/")
      then on_disk (cfg.tool_store.store.delete_fn (trim_prefix path (codes "/t/")))
      else if has_prefix path (codes "/tmp/")
      then on_disk (cfg.tmp_store.delete_fn (path_base path))
      else if has_prefix path (codes "/tr/")
      then on_disk (cfg.transcript_store.delete_fn (path_base path))
      else if has_prefix path (codes "/s/") && not (path == codes "/s/new")
      then remove_session (split_n (trim_prefix path (codes "/s/")) b'/' 1)
      else fail (codes "remove not supported")

  -- What follows once the fid is found and deleted
  abbrev pub remove_found : Bytes → Act (World C D) Rmsg
  remove_found path w = or_rerror (remove_path path w) (λ _ w'. (ok rremove, w'))

  -- The fid goes, whether or not the file does.
  unfoldable pub remove : ℕ → ℕ → Act (World C D) Rmsg
  unfolding remove_path
  remove conn fid w = elim (get_fid conn fid w) [
    | none ↦ (ok bad_fid, w)
    | some f ↦ remove_found f.path (delete_fid conn fid w)
  ]
