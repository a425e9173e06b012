-- ===== src/Tests/World.antt =====
-- A small server: cores that do what they are told, a disk that is a memory store, one connection
-- with two fids and two sessions.
use ollie_9p.Prelude.{Bytes, bytes_eq, false, none, some, [], ◌∷◌, codes}
use ollie_9p.Prelude.Int.{pos}
use ollie_9p.Prelude.Outcome.{ok, err, fail, pure}
use ollie_9p.Agent.{Floats, AgentCore}
use ollie_9p.Server.{Fid, ConnState, World, ServerConfig, qt_file}
use ollie_9p.Session.{Session}
use ollie_9p.SessionStore.{SessionStoreConfig}
use ollie_9p.Store.{Store, synthetic_info, not_blocking}
use ollie_9p.Store.Memory.{MemoryStore, memory_store, get, set}

abbrev pub text_floats : Floats
text_floats = record { Float = Bytes; parse_float = λ s. some s; format_float = λ f. f }

-- A core whose state is the ID of its session; it answers each prompt with a tool call.
abbrev pub echo_core : AgentCore
echo_core = record {
  floats = text_floats;
  K = Bytes;
  Message = Bytes;
  encode_json = λ m. m;
  state = λ _. codes "idle";
  cwd = λ _. codes "/tmp";
  backend_name = λ _. [];
  model_name = λ _. [];
  agent_name = λ _. [];
  usage = λ _. [];
  cost = λ _. [];
  ctx_sz = λ _. [];
  list_models = λ _. [];
  system_prompt = λ _. [];
  context = λ _. [];
  is_running = λ _. false;
  generation_params = λ _. record {
    max_tokens = pos 0;
    temperature = none;
    frequency_penalty = none;
    presence_penalty = none;
  };
  interrupt = λ k. k;
  close = λ k. k;
  submit = λ input k. (
    record { role = codes "assistant"; name = []; content = input }
        ∷ record { role = codes "tool"; name = codes "ls"; content = codes "x" }
        ∷ [],
    k,
  );
  queue = λ _ k. k;
  pop_queue = λ k. (none, k);
  set_cwd = λ _ k. (ok tt, k);
  set_session_id = λ id k. (ok tt, id);
  set_generation_params = λ _ k. (ok tt, k);
  wait_change = λ _ k. (none, k);
}

-- The files of the disk can be written.
abbrev pub writable_store : Store MemoryStore
writable_store = record memory_store {
  open_fn = λ name. pure (record {
    stat_fn = λ m. (ok (synthetic_info name 0o644 0), m);
    read_fn = λ m. (ok (get name m), m);
    write_fn = λ content m. (ok tt, set name content m);
    blocking_read_fn = not_blocking;
  });
}

abbrev pub session_settings : {E : Type 0} → SessionStoreConfig echo_core E
session_settings = record {
  agents_dir = codes "/agents";
  sessions_dir = codes "/sessions";
  cfg_dir = codes "/cfg";
  ollie_model = [];
  environ = [];
  quote = λ s. s;
  read_file = λ _. fail (codes "no file");
  open_file = λ _. fail (codes "no file");
  mkdir_all = λ _ _. pure tt;
  on_rename = λ _ _ e. e;
  save_transcript = λ _. pure tt;
  new_session_id = λ e. (codes "fresh", e);
  Backend = Bytes;
  new_with_name = pure;
  set_model = λ _ be. be;
  Config = Bytes;
  load_config = λ _. none;
  new_agent_core = λ _ _ id _ _. pure id;
  new_core = none;
}

abbrev pub settings : ServerConfig echo_core MemoryStore
settings = record {
  agent_store = memory_store;
  prompt_store = memory_store;
  mem_store = writable_store;
  tool_store = record {
    store = memory_store;
    list_dir = λ _ m. (([], none), m);
    mkdir_all = λ _. pure tt;
  };
  util_store = memory_store;
  plugin_store = memory_store;
  skill_store = memory_store;
  transcript_store = memory_store;
  tmp_store = memory_store;
  sessions = session_settings;
  backends = [];
  timestamp = λ _. codes "now";
  read_help = fail (codes "no help");
  stat_help = fail (codes "no help");
  dir_bytes = λ _. ok [];
  unmarshal_name = λ _. err (codes "bad stat");
}

abbrev pub session_of : Bytes → Session echo_core
session_of id = record {
  id = id;
  core = id;
  cancelled = false;
  log = codes "user: hi\n";
  log_vers = 1;
  chat_offset = 0;
  plan = [];
  prev_prompt = [];
  turns = [];
}

abbrev pub fid_at : Bytes → Fid
fid_at path = record {
  path = path;
  qid = record { kind = qt_file; vers = 0; path = 0 };
  mode = 0;
  write_buf = [];
  wait_base = [];
}

abbrev pub connection : ConnState
connection = record {
  fids = (1, fid_at (codes "/m/note")) ∷ (2, fid_at (codes "/s/one/chat")) ∷ [];
  pending = [];
}

abbrev pub world : World echo_core MemoryStore
world = record {
  sessions = (codes "one", session_of (codes "one")) ∷ (codes "two", session_of (codes "two")) ∷ [];
  retired = [];
  env = record { disk = record { entries = [] }; conns = (7, connection) ∷ [] };
}
