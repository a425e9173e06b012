-- ===== src/Server/New.antt =====
-- New of server.go: the stores of the server and its session store over the operating system, with
-- UtilStore, ExecStore, ToolStore, the directories from the environment, and the empty server.
pub mod Laws
pub mod Confined
use ollie_9p.Prelude.{Bytes, Option, none, List, [], ◌∷◌, ◌++◌, codes}
use ollie_9p.Prelude.Outcome.{Outcome}
use ollie_9p.Agent.{AgentCore}
use ollie_9p.Path.Clean.{filepath_join}
use ollie_9p.Server.{Dir, ToolStore, ServerConfig, World}
use ollie_9p.SessionStore.{SessionStoreConfig}
use ollie_9p.Store.{Store}
use ollie_9p.Store.Flat.{new_flat_dir}
use ollie_9p.Store.Os.{Os}
use ollie_9p.Store.Skill.{Meta, skill_store}
use ollie_9p.Store.Tools.{tool_store, list_dir}
use ollie_9p.Text.{split}

-- What New calls of packages outside the repository: os.Getenv, the paths of ollie, its backends
-- and its front matter parser, time.Now and plan9. Of `sessions` the directories, the files and the
-- callbacks are New's own.
pub record Platform (C : AgentCore) (D : Type 0) : Type 1 where
  pub getenv : Bytes → Bytes
  -- paths.CfgDir() and paths.DataDir()
  pub cfg_dir : Bytes
  pub data_dir : Bytes
  -- agent.DefaultPromptsDir(), execute.PluginsPath() and execute.ToolsPath()
  pub prompts_dir : Bytes
  pub plugins_path : Bytes
  pub tools_path : Bytes
  pub parse_front_matter : Bytes → Bytes → Bytes → Option Meta
  pub backends : List Bytes
  pub timestamp : D → Bytes
  pub dir_bytes : Dir → Outcome Bytes
  pub unmarshal_name : Bytes → Outcome Bytes
  pub sessions : SessionStoreConfig C D

abbrev or_blank : Bytes → Bytes → Bytes
or_blank [] d = d
or_blank (c ∷ v) d = c ∷ v

abbrev skill_dirs_of : Bytes → Bytes → List Bytes
skill_dirs_of [] cfg_dir = (cfg_dir ++ codes "/skills") ∷ []
skill_dirs_of (c ∷ v) cfg_dir = split (c ∷ v) b':'

module _ {C : AgentCore} (os : Os) (platform : Platform C os.Disk) where
  open platform use {getenv, cfg_dir, data_dir}

  -- defaultTranscriptDir, defaultMemDir and defaultTmpDir
  unfoldable pub default_transcript_dir : Bytes
  default_transcript_dir =
      or_blank (getenv (codes "OLLIE_TRANSCRIPT_PATH")) (cfg_dir ++ codes "/transcript")

  unfoldable pub default_mem_dir : Bytes
  default_mem_dir = or_blank (getenv (codes "OLLIE_MEMORY_PATH")) (cfg_dir ++ codes "/memory")

  unfoldable pub default_tmp_dir : Bytes
  default_tmp_dir = or_blank (getenv (codes "OLLIE_TMP_PATH")) (data_dir ++ codes "/tmp")

  -- skillDirs of store/skill.go
  unfoldable pub skill_dirs : List Bytes
  skill_dirs = skill_dirs_of (getenv (codes "OLLIE_SKILLS_PATH")) cfg_dir

  -- NewUtilStore and NewExecStore: each call is passed on to the flat store.
  unfoldable pub new_util_store : Store os.Disk
  new_util_store = new_flat_dir os (cfg_dir ++ codes "/scripts/u") 0o555

  unfoldable pub new_exec_store : Store os.Disk
  new_exec_store = new_flat_dir os platform.plugins_path 0o555

  -- NewToolStore
  unfoldable pub new_tool_store : ToolStore os.Disk
  new_tool_store = record {
    store = tool_store (new_flat_dir os platform.tools_path 0o755);
    list_dir = list_dir os platform.tools_path;
    mkdir_all = λ rel. os.mkdir_all (filepath_join platform.tools_path rel) 0o755;
  }

  -- The literal of SessionStoreConfig, with the defaults of NewSessionStore
  new_session_settings : SessionStoreConfig C os.Disk
  new_session_settings = record platform.sessions {
    agents_dir = cfg_dir ++ codes "/agents";
    sessions_dir = cfg_dir ++ codes "/sessions";
    cfg_dir = cfg_dir;
    environ = os.environ;
    ollie_model = getenv (codes "OLLIE_MODEL");
    read_file = os.read_file;
    open_file = os.read_file;
    mkdir_all = os.mkdir_all;
    new_core = none;
  }

  -- The literal of Server in New, with the callees of its methods
  unfoldable pub new_server : ServerConfig C os.Disk
  unfolding default_transcript_dir default_mem_dir default_tmp_dir skill_dirs new_util_store
      new_exec_store new_tool_store new_session_settings
  new_server = record {
    agent_store = new_flat_dir os (cfg_dir ++ codes "/agents") 0o644;
    prompt_store = new_flat_dir os platform.prompts_dir 0o444;
    mem_store = new_flat_dir os default_mem_dir 0o644;
    tool_store = new_tool_store;
    util_store = new_util_store;
    plugin_store = new_exec_store;
    skill_store = skill_store os platform.parse_front_matter skill_dirs;
    transcript_store = new_flat_dir os default_transcript_dir 0o444;
    tmp_store = new_flat_dir os default_tmp_dir 0o600;
    sessions = new_session_settings;
    backends = platform.backends;
    timestamp = platform.timestamp;
    read_help = os.read_file (cfg_dir ++ codes "/help.md");
    stat_help = os.stat (cfg_dir ++ codes "/help.md");
    dir_bytes = platform.dir_bytes;
    unmarshal_name = platform.unmarshal_name;
  }

  -- The directories that New makes; an error is dropped.
  abbrev made : Bytes → os.Disk → os.Disk
  made dir disk = (os.mkdir_all dir 0o755 disk).1

  -- The literal of Server in New, with its empty table and no connections
  abbrev pub empty_world : os.Disk → World C os.Disk
  empty_world disk = record {
    sessions = [];
    retired = [];
    env = record { disk = disk; conns = [] };
  }

  unfoldable pub new_world : os.Disk → World C os.Disk
  new_world disk =
      empty_world (made default_tmp_dir (made default_transcript_dir (made default_mem_dir disk)))
