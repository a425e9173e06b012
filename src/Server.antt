-- ===== src/Server.antt =====
-- server.go: the state of the server and of its connections, the 9P messages, and New.
pub mod Fids
pub mod Lookup
pub mod Walk
pub mod Create
pub mod Buffer
pub mod Read
pub mod Dirs
pub mod Stat
pub mod Change
pub mod Handle
pub mod Write
pub mod Upload
pub mod Isolation
pub mod New
pub mod Sound
pub mod Serve
pub mod Answers
use ollie_9p.Prelude.{
  ℕ, ◌+◌, suc, Bytes, bytes_eq, ◌==◌, ◌||◌, nat_eq, Bool, true, false, Option, none, some, List, [],
  ◌∷◌, ◌++◌, if◌then◌else◌, codes, map, drop, length,
}
use ollie_9p.Prelude.Outcome.{Outcome, ok, err, panic, Act}
use ollie_9p.Prelude.Dict
use ollie_9p.Prelude.Dict.{Dict}
use ollie_9p.Agent.{AgentCore}
use ollie_9p.Path.{qid_path}
use ollie_9p.SessionStore.{SessionStore, SessionStoreConfig, on_env}
use ollie_9p.Store.{FileInfo, Listing, Store}
use ollie_9p.Store.Flat.{store_write}
use ollie_9p.Text.{has_prefix}

-- plan9.Qid
pub record Qid : Type 0 where
  pub kind : ℕ
  pub vers : ℕ
  pub path : ℕ

-- QTDir and QTFile
abbrev pub qt_dir : ℕ
qt_dir = 0x80

abbrev pub qt_file : ℕ
qt_file = 0

pub record Fid : Type 0 where
  pub path : Bytes
  pub qid : Qid
  pub mode : ℕ
  pub write_buf : Bytes
  pub wait_base : Bytes

-- &fid{path: path, qid: qid}
abbrev pub new_fid : Bytes → Qid → Fid
new_fid path qid = record { path = path; qid = qid; mode = 0; write_buf = []; wait_base = [] }

-- The requests of 9P, with the fields that the server reads. A tag is passed beside them.
pub data Tmsg : Type 0 where
  tversion : ℕ → Tmsg
  tauth : Tmsg
  -- fid
  tattach : ℕ → Tmsg
  -- fid, newfid, wname
  twalk : ℕ → ℕ → List Bytes → Tmsg
  -- fid, mode
  topen : ℕ → ℕ → Tmsg
  -- fid, name, perm, mode
  tcreate : ℕ → Bytes → ℕ → ℕ → Tmsg
  -- fid, offset, count
  tread : ℕ → ℕ → ℕ → Tmsg
  -- fid, offset, data
  twrite : ℕ → ℕ → Bytes → Tmsg
  tstat : ℕ → Tmsg
  -- fid, stat
  twstat : ℕ → Bytes → Tmsg
  -- oldtag
  tflush : ℕ → Tmsg
  tclunk : ℕ → Tmsg
  tremove : ℕ → Tmsg
  unsupported : Tmsg

-- The responses. The count of an Rread is the length of its data.
pub data Rmsg : Type 0 where
  rversion : ℕ → Bytes → Rmsg
  rerror : Bytes → Rmsg
  rattach : Qid → Rmsg
  rwalk : List Qid → Rmsg
  ropen rcreate : Qid → Rmsg
  rread : Bytes → Rmsg
  rwrite : ℕ → Rmsg
  rstat : Bytes → Rmsg
  rwstat rflush rclunk rremove : Rmsg

-- plan9.Dir; the owner, the group and the last to change a file are always "ollie".
pub record Dir : Type 0 where
  pub qid : Qid
  pub mode : ℕ
  pub atime : ℕ
  pub mtime : ℕ
  pub size : ℕ
  pub name : Bytes

-- connState: `pending` says of the tag of each request in flight whether it was cancelled.
pub record ConnState : Type 0 where
  pub fids : Dict ℕ Fid
  pub pending : Dict ℕ Bool

-- What the sessions' callbacks reach: the disk behind the stores, and `conns`, whose entries have a
-- number here, as they have an address in Go.
pub record ServerEnv (D : Type 0) : Type 0 where
  pub disk : D
  pub conns : Dict ℕ ConnState

-- The state of the whole server: its session store, with the rest as environment.
abbrev pub World : AgentCore → Type 0 → Type 0
World C D = SessionStore C (ServerEnv D)

-- ToolStore: the store, ListDir, and os.MkdirAll below its directory.
pub record ToolStore (D : Type 0) : Type 0 where
  pub store : Store D
  pub list_dir : Bytes → Listing D
  pub mkdir_all : Bytes → Act D (Unit {0})

-- The other fields of Server, and what it calls of packages outside the repository:
-- backend.Backends, time.Now, the file help.md, and plan9's Dir.Bytes and UnmarshalDir.
pub record ServerConfig (C : AgentCore) (D : Type 0) : Type 1 where
  pub agent_store : Store D
  pub prompt_store : Store D
  pub mem_store : Store D
  pub tool_store : ToolStore D
  pub util_store : Store D
  pub plugin_store : Store D
  pub skill_store : Store D
  pub transcript_store : Store D
  pub tmp_store : Store D
  pub sessions : SessionStoreConfig C D
  pub backends : List Bytes
  pub timestamp : D → Bytes
  pub read_help : Act D Bytes
  pub stat_help : Act D FileInfo
  pub dir_bytes : Dir → Outcome Bytes
  -- The name in the stat that a Twstat carries, which is all that is read of it.
  pub unmarshal_name : Bytes → Outcome Bytes

module _ {C : AgentCore} {D : Type 0} where
  abbrev pub on_disk : {A : Type 0} → Act D A → Act (World C D) A
  on_disk act = on_env (λ env. let (r, disk) = act env.disk in (r, record env { disk = disk }))

  -- The fids of a connection. A connection that is gone has none.
  unfoldable pub get_fid : ℕ → ℕ → World C D → Option Fid
  get_fid conn fid w = elim (Dict.lookup conn w.env.conns) [
    | none ↦ none
    | some cs ↦ Dict.lookup fid cs.fids
  ]

  unfoldable pub update_fids : ℕ → (Dict ℕ Fid → Dict ℕ Fid) → World C D → World C D
  update_fids conn f w = elim (Dict.lookup conn w.env.conns) [
    | none ↦ w
    | some cs ↦ record w {
      env = record w.env { conns = Dict.insert conn (record cs { fids = f cs.fids }) w.env.conns };
    }
  ]

  unfoldable pub update_pending : ℕ → (Dict ℕ Bool → Dict ℕ Bool) → World C D → World C D
  update_pending conn f w = elim (Dict.lookup conn w.env.conns) [
    | none ↦ w
    | some cs ↦ record w {
      env = record w.env {
        conns = Dict.insert conn (record cs { pending = f cs.pending }) w.env.conns;
      };
    }
  ]

  -- `cs.fids[fid] = f` and `delete(cs.fids, fid)`
  abbrev pub set_fid : ℕ → ℕ → Fid → World C D → World C D
  set_fid conn fid f = update_fids conn (Dict.insert fid f)

  abbrev pub delete_fid : ℕ → ℕ → World C D → World C D
  delete_fid conn fid = update_fids conn (Dict.erase fid)

-- The body of OnRename's loop: a path at or below the old prefix is rewritten.
unfoldable pub rename_fid : Bytes → Bytes → Fid → Fid
rename_fid old_prefix new_prefix f =
    if f.path == old_prefix || has_prefix f.path (old_prefix ++ codes "/")
    then (let path = new_prefix ++ drop (length old_prefix) f.path in
        record f { path = path; qid = record f.qid { path = qid_path path } })
    else f

unfoldable pub map_values {ℓ κ} : {K : Type ℓ} {V : Type κ} → (V → V) → Dict K V → Dict K V
map_values f [] = []
map_values f ((k, v) ∷ d) = (k, f v) ∷ map_values f d

-- OnRename of New
unfoldable pub rename_fids : {D : Type 0} → Bytes → Bytes → ServerEnv D → ServerEnv D
unfolding map_values
rename_fids old_id new_id env = record env {
  conns =
      map_values
        (λ cs. record cs {
          fids = map_values (rename_fid (codes "/s/" ++ old_id) (codes "/s/" ++ new_id)) cs.fids;
        })
        env.conns;
}

-- An action of the disk, as one of the environment of the sessions
abbrev pub on_env_disk : {D : Type 0} {A : Type 0} → Act D A → Act (ServerEnv D) A
on_env_disk act env = let (r, disk) = act env.disk in (r, record env { disk = disk })

abbrev pub core_of :
    {K D : Type 0}
    → Option (Bytes → Bytes → Bytes → Act D K)
    → Option (Bytes → Bytes → Bytes → Act (ServerEnv D) K)
core_of none = none
core_of (some make) = some (λ id agent cwd. on_env_disk (make id agent cwd))

-- The configuration that New gives to NewSessionStore. What the sessions call of other packages
-- reaches the disk, and not the connections; the two callbacks are the server's.
abbrev pub session_config :
    {C : AgentCore} {D : Type 0} → ServerConfig C D → SessionStoreConfig C (ServerEnv D)
session_config cfg = record {
  agents_dir = cfg.sessions.agents_dir;
  sessions_dir = cfg.sessions.sessions_dir;
  cfg_dir = cfg.sessions.cfg_dir;
  ollie_model = cfg.sessions.ollie_model;
  environ = cfg.sessions.environ;
  quote = cfg.sessions.quote;
  read_file = λ name. on_env_disk (cfg.sessions.read_file name);
  open_file = λ name. on_env_disk (cfg.sessions.open_file name);
  mkdir_all = λ name perm. on_env_disk (cfg.sessions.mkdir_all name perm);
  on_rename = rename_fids;
  save_transcript = λ content env.
      on_env_disk
        (store_write cfg.transcript_store (cfg.timestamp env.disk ++ codes "-chat.md") content) env;
  new_session_id = λ env.
      let (id, disk) = cfg.sessions.new_session_id env.disk in (id, record env { disk = disk });
  Backend = cfg.sessions.Backend;
  new_with_name = λ name. on_env_disk (cfg.sessions.new_with_name name);
  set_model = cfg.sessions.set_model;
  Config = cfg.sessions.Config;
  load_config = cfg.sessions.load_config;
  new_agent_core =
      λ be agent id cwd config. on_env_disk (cfg.sessions.new_agent_core be agent id cwd config);
  new_core = core_of cfg.sessions.new_core;
}
