-- ===== src/SessionStore/Create.antt =====
-- createSession and LoadAgentConfig of store/session.go.
pub mod Laws
pub mod Env
pub mod Race
use ollie_9p.Prelude.{
  ℕ, Bytes, bytes_eq, ◌==◌, Bool, true, false, Option, none, some, List, [], ◌∷◌, ◌++◌,
  if◌then◌else◌, codes,
}
use ollie_9p.Prelude.Outcome.{Outcome, ok, err, panic, Act, pure, fail, lift, ◌>>=◌, ◌>>◌}
use ollie_9p.Prelude.Dict
use ollie_9p.Agent.{AgentCore}
use ollie_9p.Session.{Session, new_session}
use ollie_9p.SessionStore.{SessionStore, SessionStoreConfig, on_env}
use ollie_9p.Text.{cut}

-- The variables that the options set.
pub record NewOptions : Type 0 where
  pub name : Bytes
  pub backend : Bytes
  pub model : Bytes
  pub agent : Bytes
  pub cwd : Bytes

abbrev pub default_options : NewOptions
default_options = record { name = []; backend = []; model = []; agent = codes "default"; cwd = [] }

module _ (quote : Bytes → Bytes) where
  -- The switch on the key of an option
  set_option : Bytes → Bytes → NewOptions → Outcome NewOptions
  set_option k v o =
      if k == codes "name"
      then ok (record o { name = v })
      else if k == codes "backend"
      then ok (record o { backend = v })
      else if k == codes "model"
      then ok (record o { model = v })
      else if k == codes "agent"
      then ok (record o { agent = v })
      else if k == codes "cwd"
      then ok (record o { cwd = v })
      else err (
          codes "unknown option "
          ++ (quote k ++ codes " (valid: name, backend, model, agent, cwd)"))

  -- A blank value is passed over, whatever the key.
  read_option : Bytes → Option (Bytes × Bytes) → NewOptions → Outcome NewOptions
  unfolding set_option
  read_option arg none o =
      err (codes "invalid option " ++ (quote arg ++ codes " (expected key=value)"))
  read_option arg (some (k, [])) o = ok o
  read_option arg (some (k, c ∷ v)) o = set_option k (c ∷ v) o

  -- The loop over the arguments
  unfoldable pub read_options : List Bytes → NewOptions → Outcome NewOptions
  unfolding read_option
  read_options [] o = ok o
  read_options (arg ∷ args) o = elim (read_option arg (cut arg b'=') o) [
    | ok o' ↦ read_options args o'
    | err e ↦ err e
    | panic ↦ panic
  ]

module _ {C : AgentCore} {E : Type 0} (cfg : SessionStoreConfig C E) where
  open cfg use {Backend, Config}

  abbrev config_of : Outcome Bytes × E → Outcome (Option Config) × E
  config_of (ok text, env) = (ok (cfg.load_config text), env)
  config_of (err e, env) = (ok none, env)
  config_of (panic, env) = (panic, env)

  -- LoadAgentConfig: a file that cannot be opened gives no config.
  load_agent_config : Bytes → Act E (Option Config)
  load_agent_config name env =
      config_of (cfg.open_file (cfg.agents_dir ++ (codes "/" ++ (name ++ codes ".json"))) env)

  -- fmt.Errorf("...: %w", err)
  abbrev wrap : {A : Type 0} → Bytes → Outcome A × E → Outcome A × E
  wrap prefix (ok a, env) = (ok a, env)
  wrap prefix (err e, env) = (err (prefix ++ e), env)
  wrap prefix (panic, env) = (panic, env)

  abbrev or_default : Bytes → Bytes → Bytes
  or_default [] d = d
  or_default (c ∷ v) d = c ∷ v

  choose_model : Bytes → Backend → Backend
  choose_model [] be = be
  choose_model (c ∷ model) be = cfg.set_model (c ∷ model) be

  default_core : NewOptions → Bytes → Act E C.K
  unfolding load_agent_config choose_model
  default_core o id = do
    be ← λ env. wrap (codes "backend: ") (cfg.new_with_name o.backend env)
    let be' = choose_model (or_default o.model cfg.ollie_model) be
    λ env. wrap (codes "sessions dir: ") (cfg.mkdir_all cfg.sessions_dir 0o700 env)
    config ← load_agent_config o.agent
    cfg.new_agent_core be' o.agent id o.cwd config

  unfoldable pub build_core : NewOptions → Bytes → Act E C.K
  unfolding default_core
  build_core o id = elim cfg.new_core [
    | some new_core ↦ new_core id o.agent o.cwd
    | none ↦ default_core o id
  ]

  -- A session without a name gets a new ID.
  abbrev choose_id : Bytes → Act E Bytes
  choose_id [] env = let (id, env') = cfg.new_session_id env in (ok id, env')
  choose_id (c ∷ name) env = (ok (c ∷ name), env)

  -- `s.sessions[sessID] = sess` with a new session
  insert_session : Bytes → C.K → Act (SessionStore C E) (Unit {0})
  insert_session id core s =
      (ok tt, record s { sessions = Dict.insert id (new_session id core) s.sessions })

  refuse_existing : Bytes → Act (SessionStore C E) (Unit {0})
  refuse_existing id s = elim (Dict.lookup id s.sessions) [
    | none ↦ (ok tt, s)
    | some _ ↦ (err (codes "session already exists: " ++ id), s)
  ]

  -- createSession once the options are read
  create_with : NewOptions → Bytes → Act (SessionStore C E) (Unit {0})
  unfolding insert_session refuse_existing
  create_with o [] = fail (codes "cwd is required (e.g. new cwd=/path/to/project)")
  create_with o (c ∷ cwd) = do
    id ← on_env (choose_id o.name)
    refuse_existing id
    core ← on_env (build_core o id)
    insert_session id core

  -- createSession
  unfoldable pub create_session : List Bytes → Act (SessionStore C E) (Unit {0})
  unfolding create_with
  create_session args = do
    o ← lift (read_options cfg.quote args default_options)
    create_with o o.cwd
