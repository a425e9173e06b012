-- ===== src/SessionStore.antt =====
-- store/session.go: SessionStore, the table of sessions. Here are its state, its configuration and
-- the operations on the table; the children have the operations that make it a Store.
pub mod Create
pub mod Entries
pub mod Table
pub mod Keyed
pub mod Reach
pub mod Closed
use ollie_9p.Prelude.{
  ℕ, Bytes, bytes_eq, ◌==◌, Bool, true, false, Option, none, some, List, [], ◌∷◌, ◌++◌,
  if◌then◌else◌, codes,
}
use ollie_9p.Prelude.Outcome.{Outcome, ok, err, panic, Act, pure, fail}
use ollie_9p.Prelude.Dict
use ollie_9p.Prelude.Dict.{Dict}
use ollie_9p.Agent.{AgentCore}
use ollie_9p.Session.{Session, cancel, interrupt, append_log}

-- `env` is all that the callbacks of the configuration reach. `retired` keeps the sessions that
-- were killed, which the program has dropped.
pub record SessionStore (C : AgentCore) (E : Type 0) : Type 0 where
  pub sessions : Dict Bytes (Session C)
  pub retired : List (Session C)
  pub env : E

-- SessionStoreConfig, with what createSession calls of ollie/pkg/backend, ollie/pkg/config and
-- ollie/pkg/agent. A callback that is nil in Go does nothing.
pub record SessionStoreConfig (C : AgentCore) (E : Type 0) : Type 1 where
  pub agents_dir : Bytes
  pub sessions_dir : Bytes
  -- paths.CfgDir()
  pub cfg_dir : Bytes
  -- os.Getenv("OLLIE_MODEL") and os.Environ()
  pub ollie_model : Bytes
  pub environ : List Bytes
  -- the verb %q of fmt
  pub quote : Bytes → Bytes
  pub read_file : Bytes → Act E Bytes
  -- os.Open and the reading of the file
  pub open_file : Bytes → Act E Bytes
  pub mkdir_all : Bytes → ℕ → Act E (Unit {0})
  pub on_rename : Bytes → Bytes → E → E
  pub save_transcript : Bytes → Act E (Unit {0})
  -- agent.NewSessionID
  pub new_session_id : E → Bytes × E
  -- backend.NewWithName and SetModel
  pub Backend : Type 0
  pub new_with_name : Bytes → Act E Backend
  pub set_model : Bytes → Backend → Backend
  -- config.Load of the text of a file; a nil config is `none`
  pub Config : Type 0
  pub load_config : Bytes → Option Config
  -- agent.NewAgentCore with BuildAgentEnv: backend, agent, session, directory and config
  pub new_agent_core : Backend → Bytes → Bytes → Bytes → Option Config → Act E C.K
  -- NewCore: session, agent and directory; `none` if nil
  pub new_core : Option (Bytes → Bytes → Bytes → Act E C.K)

abbrev pub rename_note : Bytes → Bytes → Bytes
rename_note old_id new_id =
    codes ":: session renamed: " ++ (old_id ++ (codes " -> " ++ (new_id ++ codes "\n")))

module _ {C : AgentCore} where
  -- sess.Cancel() and sess.Core.Close()
  abbrev pub shut_down : Session C → Session C
  shut_down sess = record (cancel sess) { core = C.close sess.core }

  interrupt_all_of : Dict Bytes (Session C) → Dict Bytes (Session C)
  interrupt_all_of [] = []
  interrupt_all_of ((id, sess) ∷ d) = (id, interrupt sess) ∷ interrupt_all_of d

module _ {C : AgentCore} {E : Type 0} where
  -- An action of the environment.
  abbrev pub on_env : {A : Type 0} → Act E A → Act (SessionStore C E) A
  on_env act s = let (r, env) = act s.env in (r, record s { env = env })

  -- An action of the session that has an ID. OpenStore hands out such actions only for an ID that
  -- has a session; without one the error is OpenStore's.
  unfoldable pub on_session : Bytes → {A : Type 0} → Act (Session C) A → Act (SessionStore C E) A
  on_session id act s = elim (Dict.lookup id s.sessions) [
    | none ↦ (err (codes "session not found: " ++ id), s)
    | some sess ↦
        let (r, sess') = act sess in (r, record s { sessions = Dict.insert id sess' s.sessions })
  ]

  -- AddSession
  unfoldable pub add_session : Session C → SessionStore C E → SessionStore C E
  add_session sess s = record s { sessions = Dict.insert sess.id sess s.sessions }

  -- KillSession
  unfoldable pub kill_session : Bytes → SessionStore C E → SessionStore C E
  kill_session id s = elim (Dict.lookup id s.sessions) [
    | none ↦ record s { sessions = Dict.erase id s.sessions }
    | some sess ↦ record s {
      sessions = Dict.erase id s.sessions;
      retired = shut_down sess ∷ s.retired;
    }
  ]

  -- del
  unfoldable pub del : Bytes → Act (SessionStore C E) (Unit {0})
  unfolding kill_session
  del name s = elim (Dict.lookup name s.sessions) [
    | none ↦ (err (codes "session not found: " ++ name), s)
    | some _ ↦ (ok tt, kill_session name s)
  ]

  pub kill_all : List Bytes → SessionStore C E → SessionStore C E
  kill_all [] s = s
  kill_all (id ∷ ids) s = kill_all ids (kill_session id s)

  -- Shutdown
  unfoldable pub shutdown : SessionStore C E → SessionStore C E
  unfolding kill_all
  shutdown s = kill_all (Dict.keys s.sessions) s

  -- InterruptAll
  unfoldable pub interrupt_all : SessionStore C E → SessionStore C E
  unfolding interrupt_all_of
  interrupt_all s = record s { sessions = interrupt_all_of s.sessions }

  -- What renameSession does once SetSessionID has returned
  unfoldable pub finish_rename :
      SessionStoreConfig C E
      → Bytes
      → Bytes
      → Session C
      → Outcome (Unit {0}) × C.K
      → Act (SessionStore C E) (Unit {0})
  finish_rename cfg old_id new_id sess (err e, core) s =
      (err e, record s { sessions = Dict.insert old_id (record sess { core = core }) s.sessions })
  finish_rename cfg old_id new_id sess (panic, core) s =
      (panic, record s { sessions = Dict.insert old_id (record sess { core = core }) s.sessions })
  finish_rename cfg old_id new_id sess (ok _, core) s =
      let sess' : Session C = record sess { core = core; id = new_id } in
      (
        ok tt,
        record s {
          sessions =
              Dict.erase old_id
                (Dict.insert new_id (append_log (rename_note old_id new_id) sess') s.sessions);
          env = cfg.on_rename old_id new_id s.env;
        },
      )

  -- renameSession
  unfoldable pub rename_session :
      SessionStoreConfig C E → Bytes → Bytes → Act (SessionStore C E) (Unit {0})
  unfolding finish_rename
  rename_session cfg old_id new_id s = elim (Dict.lookup old_id s.sessions) [
    | none ↦ (err (codes "session not found: " ++ old_id), s)
    | some sess ↦ elim (Dict.lookup new_id s.sessions) [
      | some _ ↦ (err (codes "session already exists: " ++ new_id), s)
      | none ↦
          if C.is_running sess.core
          then (err (codes "cannot rename while agent is running"), s)
          else finish_rename cfg old_id new_id sess (C.set_session_id new_id sess.core) s
    ]
  ]
