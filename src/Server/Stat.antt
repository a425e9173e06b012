-- ===== src/Server/Stat.antt =====
-- makeStat and stat of server.go.
pub mod Keeps
pub mod Answers
pub mod Laws
use ollie_9p.Prelude.{
  ℕ, ◌+◌, ◌&&◌, ◌||◌, not, Bytes, bytes_eq, ◌==◌, nat_eq, Bool, true, false, Option, none, some,
  List, [], ◌∷◌, ◌++◌, if◌then◌else◌, codes, length,
}
use ollie_9p.Prelude.Outcome.{Outcome, ok, err, panic, Act, ◌>>=◌}
use ollie_9p.Prelude.Dict
use ollie_9p.Agent.{AgentCore}
use ollie_9p.Path.{path_base}
use ollie_9p.Server.{
  Dir, Rmsg, rstat, rerror, World, ServerConfig, on_disk, get_fid, session_config,
}
use ollie_9p.Server.Dirs.{dm_dir}
use ollie_9p.Server.Lookup.{PathType, dir, file, absent, path_type}
use ollie_9p.Server.Read.{is_session_store_file}
use ollie_9p.Server.Walk.{bad_fid, qid_of}
use ollie_9p.Session.{log_info}
use ollie_9p.SessionStore.Entries.{open_store, session_store, session_store_file_mode}
use ollie_9p.Store.{FileInfo, Store}
use ollie_9p.Store.Flat.{store_read}
use ollie_9p.Store.RunFile
use ollie_9p.Text.{has_prefix, trim_prefix, split_n, join}

-- The mode of a directory
unfoldable pub dir_mode : Bytes → ℕ
dir_mode path =
    if path == codes "/t" || has_prefix path (codes "/t/")
    then dm_dir + 0o777
    else if path == codes "/a" || path == codes "/m" || path == codes "/tmp" || path == codes "/u"
    then dm_dir + 0o755
    else dm_dir + 0o555

abbrev or_zero : Option ℕ → ℕ
or_zero none = 0
or_zero (some mode) = mode

-- The mode of any other path, by where it lies
path_mode : Bytes → Bytes → ℕ
path_mode base path =
    if path == codes "/backends" || path == codes "/help"
    then 0o444
    else if is_session_store_file path
    then or_zero (session_store_file_mode base)
    else if has_prefix path (codes "/a/")
    then 0o666
    else if has_prefix path (codes "/p/")
    then 0o444
    else if has_prefix path (codes "/m/")
    then 0o666
    else if path == codes "/sk/idx"
    then 0o444
    else if has_prefix path (codes "/sk/")
    then 0o666
    else if path == codes "/t/idx"
    then 0o444
    else if has_prefix path (codes "/t/")
    then 0o777
    else if has_prefix path (codes "/u/")
    then 0o555
    else if has_prefix path (codes "/x/")
    then 0o555
    else 0o444

-- The switch on the base comes first, wherever the path lies.
unfoldable pub file_mode : Bytes → Bytes → ℕ
unfolding path_mode
file_mode base path =
    if base == codes "ctl" || base == codes "prompt" || base == codes "fifo.in"
    then 0o200
    else if base == codes "chat"
        || base == codes "usage"
        || base == codes "cost"
        || base == codes "ctxsz"
        || base == codes "models"
        || base == codes "fifo.out"
        || base == codes "offset"
        || base == codes "statewait"
        || base == codes "systemprompt"
    then 0o444
    else if base == codes "cfg"
    then 0o666
    else if base == codes "tail"
    then 0o555
    else path_mode base path

-- `if info, err := ...; err == nil`: the size, and the times where they are kept
abbrev size_of_info {ℓ} : {W : Type ℓ} → Dir → Outcome FileInfo × W → Outcome Dir × W
size_of_info d (ok info, w) = (ok (record d { size = info.size }), w)
size_of_info d (err _, w) = (ok d, w)
size_of_info d (panic, w) = (panic, w)

abbrev times_of_info {ℓ} : {W : Type ℓ} → Dir → Outcome FileInfo × W → Outcome Dir × W
times_of_info d (ok info, w) =
    (ok (record d { size = info.size; atime = info.mod_time; mtime = info.mod_time }), w)
times_of_info d (err _, w) = (ok d, w)
times_of_info d (panic, w) = (panic, w)

abbrev size_of_content {ℓ} : {W : Type ℓ} → Dir → Outcome Bytes × W → Outcome Dir × W
size_of_content d (ok content, w) = (ok (record d { size = length content }), w)
size_of_content d (err _, w) = (ok d, w)
size_of_content d (panic, w) = (panic, w)

module _ {C : AgentCore} {D : Type 0} where
  -- The size and the version of a log that is being followed
  log_stat : List Bytes → Dir → World C D → Dir
  log_stat (root ∷ id ∷ name ∷ []) d w = elim (Dict.lookup id w.sessions) [
    | none ↦ d
    | some sess ↦
        if root == codes "s" && d.name == codes "chat"
        then (let (size, vers) = log_info sess in
            record d { size = size; qid = record d.qid { vers = vers } })
        else d
  ]
  log_stat _ d w = d

module _ {C : AgentCore} {D : Type 0} (cfg : ServerConfig C D) where
  pub session_file_stat : List Bytes → Dir → Act (World C D) Dir
  session_file_stat (id ∷ name ∷ []) d w = elim (open_store (session_config cfg) id w) [
    | ok files ↦ size_of_info d (RunFile.stat files name w)
    | err _ ↦ (ok d, w)
    | panic ↦ (panic, w)
  ]
  session_file_stat _ d w = (ok d, w)

  -- The last switch: the length of other files, from their stat or from their content
  pub length_stat : Bytes → Dir → Act (World C D) Dir
  unfolding session_file_stat
  length_stat path d w =
      let base = d.name in
      let content =
        λ (store : Store D) (name : Bytes). size_of_content d (on_disk (store_read store name) w) in
      if is_session_store_file path
      then size_of_content d (store_read (session_store (session_config cfg)) base w)
      else if path == codes "/backends"
      then (ok (record d { size = length (join cfg.backends (codes "\n") ++ codes "\n") }), w)
      else if path == codes "/help"
      then size_of_info d (on_disk cfg.stat_help w)
      else if has_prefix path (codes "/a/")
      then size_of_info d (on_disk (cfg.agent_store.stat_fn base) w)
      else if has_prefix path (codes "/p/")
      then size_of_info d (on_disk (cfg.prompt_store.stat_fn base) w)
      else if has_prefix path (codes "/sk/")
      then content cfg.skill_store base
      else if has_prefix path (codes "/t/")
      then content cfg.tool_store.store (trim_prefix path (codes "/t/"))
      else if has_prefix path (codes "/u/")
      then content cfg.util_store base
      else if has_prefix path (codes "/x/")
      then content cfg.plugin_store base
      else if has_prefix path (codes "/tmp/")
      then times_of_info d (on_disk (cfg.tmp_store.stat_fn base) w)
      else if has_prefix path (codes "/tr/")
      then times_of_info d (on_disk (cfg.transcript_store.stat_fn base) w)
      else if has_prefix path (codes "/s/")
      then session_file_stat (split_n (trim_prefix path (codes "/s/")) b'/' 1) d w
      else (ok d, w)

  mem_stat : Bytes → Dir → Act (World C D) Dir
  mem_stat path d w =
      if has_prefix path (codes "/m/")
      then times_of_info d (on_disk (cfg.mem_store.stat_fn d.name) w)
      else (ok d, w)

  known_length : Bool → Bytes → Dir → Act (World C D) Dir
  unfolding length_stat
  known_length is_dir path d w =
      if d.size == 0 && not is_dir then length_stat path d w else (ok d, w)

  abbrev pub is_dir_type : PathType → Bool
  is_dir_type dir = true
  is_dir_type file = false
  is_dir_type absent = false

  stat_of_type : Bytes → PathType → Act (World C D) Dir
  unfolding log_stat mem_stat known_length
  stat_of_type path kind w =
      let base = if path == codes "/" then codes "." else path_base path in
      let is_dir = is_dir_type kind in
      let d : Dir = record {
        qid = qid_of kind path;
        mode = if is_dir then dir_mode path else file_mode base path;
        atime = 0;
        mtime = 0;
        size = 0;
        name = base;
      } in
      let d' : Dir =
        if has_prefix path (codes "/s/")
        then log_stat (split_n (trim_prefix path (codes "/")) b'/' 2) d w
        else d in
      (do d'' ← mem_stat path d'; known_length is_dir path d'') w

  -- makeStat
  unfoldable pub make_stat : Bytes → Act (World C D) Dir
  unfolding stat_of_type
  make_stat path = do kind ← path_type cfg path; stat_of_type path kind

  abbrev to_rstat : Outcome Bytes × World C D → Outcome Rmsg × World C D
  to_rstat (ok b, w) = (ok (rstat b), w)
  to_rstat (err e, w) = (ok (rerror e), w)
  to_rstat (panic, w) = (panic, w)

  -- What follows once the fid is found
  abbrev pub stat_found : Bytes → Act (World C D) Rmsg
  stat_found path = do d ← make_stat path; λ w'. to_rstat (cfg.dir_bytes d, w')

  -- stat
  unfoldable pub stat : ℕ → ℕ → Act (World C D) Rmsg
  unfolding make_stat
  stat conn fid w = elim (get_fid conn fid w) [
    | none ↦ (ok bad_fid, w)
    | some f ↦ stat_found f.path w
  ]
