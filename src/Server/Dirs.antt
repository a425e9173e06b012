-- ===== src/Server/Dirs.antt =====
-- readDir of server.go: the entries of a directory, and the part of them that a read returns.
pub mod Page
pub mod Keeps
use ollie_9p.Prelude.{
  ℕ, ◌+◌, ◌%◌, Bytes, bytes_eq, ◌==◌, Bool, true, false, Option, none, some, List, [], ◌∷◌, ◌++◌,
  if◌then◌else◌, codes, not,
}
use ollie_9p.Prelude.Outcome.{Outcome, ok, err, panic, Act}
use ollie_9p.Agent.{AgentCore}
use ollie_9p.Path.{path_base, qid_path}
use ollie_9p.Server.{Dir, Qid, qt_dir, qt_file, World, ServerEnv, ServerConfig, session_config}
use ollie_9p.SessionStore.Entries
use ollie_9p.SessionStore.Entries.{open_store}
use ollie_9p.Store.{FileInfo, DirEntry, Listing}
use ollie_9p.Store.RunFile
use ollie_9p.Text.{has_prefix, trim_prefix}

-- plan9.DMDIR
abbrev pub dm_dir : ℕ
dm_dir = 0x80000000

-- makeDir
unfoldable pub make_dir : Bytes → Bytes → Bool → ℕ → Dir
make_dir name path is_dir mode = record {
  qid = record { kind = if is_dir then qt_dir else qt_file; vers = 0; path = qid_path path };
  mode = mode;
  atime = 0;
  mtime = 0;
  size = 0;
  name = name;
}

-- boolToDir
abbrev pub bool_to_dir : Bool → ℕ
bool_to_dir is_dir = if is_dir then dm_dir else 0

-- The entries of "/"
abbrev pub root_dirs : List Dir
root_dirs =
    make_dir (codes "a") (codes "/a") true (dm_dir + 0o755)
    ∷ make_dir (codes "backends") (codes "/backends") false 0o444
    ∷ make_dir (codes "help") (codes "/help") false 0o444
    ∷ make_dir (codes "m") (codes "/m") true (dm_dir + 0o755)
    ∷ make_dir (codes "p") (codes "/p") true (dm_dir + 0o555)
    ∷ make_dir (codes "s") (codes "/s") true (dm_dir + 0o555)
    ∷ make_dir (codes "sk") (codes "/sk") true (dm_dir + 0o555)
    ∷ make_dir (codes "t") (codes "/t") true (dm_dir + 0o777)
    ∷ make_dir (codes "tmp") (codes "/tmp") true (dm_dir + 0o755)
    ∷ make_dir (codes "u") (codes "/u") true (dm_dir + 0o755)
    ∷ make_dir (codes "x") (codes "/x") true (dm_dir + 0o555)
    ∷ make_dir (codes "tr") (codes "/tr") true (dm_dir + 0o555)
    ∷ []

-- The loops over entries: a directory may be left out, the times may be kept, and the mode may
-- depend on the entry.
dirs_of : (DirEntry → Option Dir) → List DirEntry → List Dir
dirs_of f [] = []
dirs_of f (e ∷ entries) = elim (f e) [ none ↦ dirs_of f entries | some d ↦ d ∷ dirs_of f entries ]

-- For "/a" and "/p": files only
plain_file : Bytes → ℕ → DirEntry → Option Dir
plain_file prefix mode e =
    if e.is_dir then none else some (make_dir e.name (prefix ++ e.name) false mode)

abbrev with_times : Outcome FileInfo → Dir → Dir
with_times (ok info) d = record d { atime = info.mod_time; mtime = info.mod_time }
with_times (err _) d = d
with_times panic d = d

-- For "/m", "/tmp" and "/tr": files only, with their times
timed_file : Bytes → ℕ → DirEntry → Option Dir
timed_file prefix mode e =
    if e.is_dir
    then none
    else some (with_times e.info (make_dir e.name (prefix ++ e.name) false mode))

-- For "/sk": the index is read-only.
skill_file : DirEntry → Option Dir
skill_file e = some (
    make_dir e.name (codes "/sk/" ++ e.name) false (if e.name == codes "idx" then 0o444 else 0o666))

tool_entry : DirEntry → Option Dir
tool_entry e = some (
    make_dir e.name (codes "/t/" ++ e.name) e.is_dir
      ((if e.name == codes "idx" then 0o444 else 0o777) + bool_to_dir e.is_dir))

tool_sub_entry : Bytes → DirEntry → Option Dir
tool_sub_entry path e =
    some (make_dir e.name (path ++ (codes "/" ++ e.name)) e.is_dir (0o777 + bool_to_dir e.is_dir))

-- For "/u" and "/x"
script_file : Bytes → DirEntry → Option Dir
script_file prefix e = some (make_dir e.name (prefix ++ e.name) false 0o555)

abbrev mode_of : Outcome FileInfo → ℕ
mode_of (ok info) = info.mode
mode_of (err _) = 0
mode_of panic = 0

session_entry : DirEntry → Option Dir
session_entry e = some (
    make_dir e.name (codes "/s/" ++ e.name) e.is_dir
      (mode_of e.info % 0o1000 + bool_to_dir e.is_dir))

session_file : Bytes → DirEntry → Option Dir
session_file path e = some (make_dir e.name (path ++ (codes "/" ++ e.name)) false (mode_of e.info))

module _ {C : AgentCore} {D : Type 0} (cfg : ServerConfig C D) where
  -- `entries, _ := store.List()`
  abbrev entries_on_disk : (DirEntry → Option Dir) → Listing D → World C D → List Dir × World C D
  entries_on_disk f listing w =
      let (result, disk) = listing w.env.disk in
      (dirs_of f result.0, record w { env = record w.env { disk = disk } })

  -- The entries of a session's directory; the last element of the path is the session.
  session_dirs : Bytes → World C D → List Dir × World C D
  session_dirs path w = elim (open_store (session_config cfg) (path_base path) w) [
    | ok files ↦ (dirs_of (session_file path) (RunFile.list_specs files.specs), w)
    | err _ ↦ ([], w)
    | panic ↦ ([], w)
  ]

  unfoldable pub dirs_at : Bytes → World C D → List Dir × World C D
  unfolding dirs_of plain_file timed_file skill_file tool_entry tool_sub_entry script_file
      session_entry session_file session_dirs
  dirs_at path w =
      if path == codes "/"
      then (root_dirs, w)
      else if path == codes "/a"
      then entries_on_disk (plain_file (codes "/a/") 0o666) cfg.agent_store.list_fn w
      else if path == codes "/p"
      then entries_on_disk (plain_file (codes "/p/") 0o666) cfg.prompt_store.list_fn w
      else if path == codes "/m"
      then entries_on_disk (timed_file (codes "/m/") 0o666) cfg.mem_store.list_fn w
      else if path == codes "/sk"
      then entries_on_disk skill_file cfg.skill_store.list_fn w
      else if path == codes "/t"
      then entries_on_disk tool_entry cfg.tool_store.store.list_fn w
      else if has_prefix path (codes "/t/")
      then entries_on_disk (tool_sub_entry path)
          (cfg.tool_store.list_dir (trim_prefix path (codes "/t/"))) w
      else if path == codes "/tmp"
      then entries_on_disk (timed_file (codes "/tmp/") 0o600) cfg.tmp_store.list_fn w
      else if path == codes "/tr"
      then entries_on_disk (timed_file (codes "/tr/") 0o444) cfg.transcript_store.list_fn w
      else if path == codes "/u"
      then entries_on_disk (script_file (codes "/u/")) cfg.util_store.list_fn w
      else if path == codes "/x"
      then entries_on_disk (script_file (codes "/x/")) cfg.plugin_store.list_fn w
      else if path == codes "/s"
      then (let (result, w') = Entries.list w in (dirs_of session_entry result.0, w'))
      else session_dirs path w

  -- An entry that cannot be serialized is left out.
  unfoldable pub serialize : List Dir → Bytes
  serialize [] = []
  serialize (d ∷ dirs) = elim (cfg.dir_bytes d) [
    | ok b ↦ b ++ serialize dirs
    | err _ ↦ serialize dirs
    | panic ↦ serialize dirs
  ]

  -- readDir
  unfoldable pub read_dir : Bytes → ℕ → ℕ → World C D → Bytes × World C D
  read_dir path offset count w =
      let (dirs, w') = dirs_at path w in (Page.page_at offset count (serialize dirs), w')
