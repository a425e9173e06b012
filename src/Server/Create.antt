-- ===== src/Server/Create.antt =====
-- create of server.go.
pub mod Keeps
pub mod Answers
use ollie_9p.Prelude.{
  ℕ, ◌/◌, ◌%◌, ◌^◌, Bytes, bytes_eq, ◌==◌, nat_eq, ◌||◌, Bool, some, none, [], ◌∷◌, ◌++◌,
  if◌then◌else◌, codes,
}
use ollie_9p.Prelude.Outcome.{ok, Act, pure}
use ollie_9p.Agent.{AgentCore}
use ollie_9p.Path.{path_join}
use ollie_9p.Server.{Fid, Rmsg, rerror, rcreate, World, ServerConfig, on_disk, get_fid, set_fid}
use ollie_9p.Server.Walk.{bad_fid, or_rerror, qid_of}
use ollie_9p.Server.Lookup.{PathType, dir, file}
use ollie_9p.Text.{has_prefix, trim_prefix}

-- The directory's path relative to the tools root, with the new name behind it; `rel[1:]` drops
-- the slash.
abbrev rel_name : Bytes → Bytes → Bytes
rel_name [] name = name
rel_name (c ∷ rel) name = rel ++ (codes "/" ++ name)

-- `fc.Perm & plan9.DMDIR != 0`
abbrev pub asks_dir : ℕ → Bool
asks_dir perm = (perm / 2 ^ 31) % 2 == 1

module _ {C : AgentCore} {D : Type 0} (cfg : ServerConfig C D) where
  -- What is made in the store that the directory stands for; in other directories nothing is.
  unfoldable pub create_file : Bytes → Bytes → Act (World C D) (Unit {0})
  create_file path name =
      if path == codes "/a"
      then on_disk (cfg.agent_store.create_fn name)
      else if path == codes "/m"
      then on_disk (cfg.mem_store.create_fn name)
      else if path == codes "/t"
      then on_disk (cfg.tool_store.store.create_fn name)
      else if path == codes "/tmp"
      then on_disk (cfg.tmp_store.create_fn name)
      else if path == codes "/sk"
      then on_disk (cfg.skill_store.create_fn name)
      else if has_prefix path (codes "/t/")
      then on_disk
          (cfg.tool_store.store.create_fn (trim_prefix path (codes "/t/") ++ (codes "/" ++ name)))
      else pure tt

  -- The fid moves to what was created.
  abbrev pub move_fid : ℕ → ℕ → Fid → PathType → Bytes → ℕ → Act (World C D) Rmsg
  move_fid conn fid f kind name mode w =
      let path = path_join f.path name in
      (
        ok (rcreate (qid_of kind path)),
        set_fid conn fid (record f { path = path; qid = qid_of kind path; mode = mode }) w,
      )

  create_dir : ℕ → ℕ → Fid → Bytes → ℕ → Act (World C D) Rmsg
  create_dir conn fid f name mode w =
      if f.path == codes "/t" || has_prefix f.path (codes "/t/")
      then or_rerror
          (on_disk (cfg.tool_store.mkdir_all (rel_name (trim_prefix f.path (codes "/t")) name)) w)
          (λ _. move_fid conn fid f dir name mode)
      else (ok (rerror (codes "mkdir not supported")), w)

  create_at : ℕ → ℕ → Fid → Bytes → ℕ → ℕ → Act (World C D) Rmsg
  unfolding create_dir create_file
  create_at conn fid f name perm mode w =
      if asks_dir perm
      then create_dir conn fid f name mode w
      else or_rerror (create_file f.path name w) (λ _. move_fid conn fid f file name mode)

  unfoldable pub create : ℕ → ℕ → Bytes → ℕ → ℕ → Act (World C D) Rmsg
  unfolding create_at
  create conn fid name perm mode w = elim (get_fid conn fid w) [
    | none ↦ (ok bad_fid, w)
    | some f ↦ create_at conn fid f name perm mode w
  ]
