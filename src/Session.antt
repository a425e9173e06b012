-- ===== src/Session.antt =====
-- store/session.go: the type Session and its methods. The mutex makes each method one step.
pub mod Events
pub mod Log
pub mod Params
pub mod Cfg
pub mod Ctl
pub mod Files
pub mod Identity
use ollie_9p.Prelude.{
  ℕ, ◌+◌, ◌%◌, ◌^◌, Bytes, Bool, true, false, List, [], ◌∷◌, ◌++◌, length, ◌==◌, nat_eq,
  if◌then◌else◌,
}
use ollie_9p.Agent.{AgentCore}

-- `cancelled` is the state of Ctx. `turns` are the inputs of the goroutines that a write to
-- "prompt" has started and that have not yet run.
pub record Session (C : AgentCore) : Type 0 where
  pub id : Bytes
  pub core : C.K
  pub cancelled : Bool
  pub log : Bytes
  pub log_vers : ℕ
  pub chat_offset : ℕ
  pub plan : Bytes
  pub prev_prompt : Bytes
  pub turns : List Bytes

-- logVers is a uint32.
abbrev pub next_vers : ℕ → ℕ
next_vers v = (v + 1) % 2 ^ 32

-- Whether a byte string is empty or ends with a newline.
unfoldable pub ends_line : Bytes → Bool
ends_line [] = true
ends_line (c ∷ []) = c == b'\n'
ends_line (c ∷ d ∷ s) = ends_line (d ∷ s)

module _ {C : AgentCore} where
  -- NewSession
  unfoldable pub new_session : Bytes → C.K → Session C
  new_session id core = record {
    id = id;
    core = core;
    cancelled = false;
    log = [];
    log_vers = 0;
    chat_offset = 0;
    plan = [];
    prev_prompt = [];
    turns = [];
  }

  unfoldable pub cancel : Session C → Session C
  cancel sess = record sess { cancelled = true }

  unfoldable pub interrupt : Session C → Session C
  interrupt sess = record sess { core = C.interrupt sess.core }

  unfoldable pub append_log : Bytes → Session C → Session C
  append_log [] sess = sess
  append_log (c ∷ content) sess = record sess {
    log = sess.log ++ (c ∷ content);
    log_vers = next_vers sess.log_vers;
  }

  unfoldable pub ensure_trailing_newline : Session C → Session C
  ensure_trailing_newline sess =
      if ends_line sess.log
      then sess
      else record sess { log = sess.log ++ (b'\n' ∷ []); log_vers = next_vers sess.log_vers }

  unfoldable pub log_info : Session C → ℕ × ℕ
  log_info sess = (length sess.log, sess.log_vers)
