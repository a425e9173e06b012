-- ===== src/Server/Create/Keeps.antt =====
-- create keeps the invariant of the server.
use ollie_9p.Prelude.{
  ℕ, Bytes, bytes_eq, nat_eq, ◌==◌, ◌||◌, ◌++◌, refl, arith, codes, Option-cases, inl, inr,
}
use ollie_9p.Prelude.Keeps.{Keeps, if-Keeps}
use ollie_9p.Prelude.Outcome.{Act}
use ollie_9p.Agent.{AgentCore}
use ollie_9p.Server.Sound.{IsSound, on_disk-Keeps, set_fid-IsSound}
use ollie_9p.Path.{path_join}
use ollie_9p.Server.{World, ServerConfig, Fid, get_fid, on_disk}
use ollie_9p.Server.Create.{
  rel_name, asks_dir, create_file, move_fid, create_dir, create_at, create,
}
use ollie_9p.Server.Lookup.{PathType, dir, file}
use ollie_9p.Server.Walk.{qid_of}
use ollie_9p.Server.Walk.Keeps.{or_rerror-Keeps}
use ollie_9p.Text.{trim_prefix, has_prefix}

module _ {C : AgentCore} {D : Type 0} (cfg : ServerConfig C D) where
  create_file_all :
      (P : World C D → Type 0) (path name : Bytes) (w : World C D)
      → P w
      → ((act : Act D (Unit {0})) → P (on_disk act w).1)
      → P (create_file cfg path name w).1
  unfolding create_file
  create_file_all P path name w h disk = ground (
    arith,
    h,
    disk (cfg.agent_store.create_fn name),
    disk (cfg.mem_store.create_fn name),
    disk (cfg.tool_store.store.create_fn name),
    disk (cfg.tmp_store.create_fn name),
    disk (cfg.skill_store.create_fn name),
    disk (cfg.tool_store.store.create_fn (trim_prefix path (codes "/t/") ++ (codes "/" ++ name))),
  )

  move_fid-Keeps :
      (conn fid : ℕ) (f : Fid) (kind : PathType) (name : Bytes) (mode : ℕ)
      → Keeps IsSound (move_fid cfg conn fid f kind name mode)
  move_fid-Keeps conn fid f kind name mode w h =
      set_fid-IsSound conn fid
        (record f {
          path = path_join f.path name;
          qid = qid_of kind (path_join f.path name);
          mode = mode;
        })
        w refl h

  create_dir-Keeps :
      (conn fid : ℕ) (f : Fid) (name : Bytes) (mode : ℕ)
      → Keeps IsSound (create_dir cfg conn fid f name mode)
  unfolding create_dir
  create_dir-Keeps conn fid f name mode w h =
      let act = cfg.tool_store.mkdir_all (rel_name (trim_prefix f.path (codes "/t")) name) in
      if-Keeps IsSound (f.path == codes "/t" || has_prefix f.path (codes "/t/")) _ _
        (or_rerror-Keeps IsSound (on_disk act w).0 (on_disk act w).1
          (λ _. move_fid cfg conn fid f dir name mode) (on_disk-Keeps act w h)
          (λ _. move_fid-Keeps conn fid f dir name mode (on_disk act w).1 (on_disk-Keeps act w h)))
        h

  create_at-Keeps :
      (conn fid : ℕ) (f : Fid) (name : Bytes) (perm mode : ℕ)
      → Keeps IsSound (create_at cfg conn fid f name perm mode)
  unfolding create_at
  create_at-Keeps conn fid f name perm mode w h =
      let made : IsSound (create_file cfg f.path name w).1 =
        create_file_all IsSound f.path name w h (λ act. on_disk-Keeps act w h) in
      if-Keeps IsSound (asks_dir perm) _ _ (create_dir-Keeps conn fid f name mode w h) (
        or_rerror-Keeps IsSound (create_file cfg f.path name w).0 (create_file cfg f.path name w).1
          (λ _. move_fid cfg conn fid f file name mode) made
          (λ _. move_fid-Keeps conn fid f file name mode (create_file cfg f.path name w).1 made))

  pub create-Keeps :
      (conn fid : ℕ) (name : Bytes) (perm mode : ℕ)
      → Keeps IsSound (create cfg conn fid name perm mode)
  unfolding create
  create-Keeps conn fid name perm mode w h = elim (Option-cases (get_fid conn fid w)) [
    | inl e ↦ rw (e, create) h
    | inr (f, e) ↦ rw (e, create) (create_at-Keeps conn fid f name perm mode w h)
  ]
