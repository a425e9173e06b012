-- ===== src/Session/Files.antt =====
-- store/sessionfile.go: the table SessionFileList, and fileSpec, content, envContent and
-- NewSessionFileStore, which make it a RunFileStore.
pub mod Keeps
use mathlib.Core.List.{foldr}
use ollie_9p.Prelude.{
  ℕ, Bytes, bytes_eq, ◌==◌, ◌&&◌, not, Option, none, some, List, [], ◌∷◌, ◌++◌, if◌then◌else◌,
  codes, length, map,
}
use ollie_9p.Prelude.Outcome.{Outcome, ok, Act, pure, modify, gets}
use ollie_9p.Agent.{AgentCore}
use ollie_9p.Session.{Session}
use ollie_9p.Session.Cfg.{cfg_content, handle_cfg}
use ollie_9p.Session.Ctl.{SessionHelper, handle_ctl}
use ollie_9p.Store.RunFile
use ollie_9p.Store.RunFile.{FileSpec, RunFileStore}
use ollie_9p.Text.{has_prefix}
use ollie_9p.Text.Number.{print_nat}
use ollie_9p.Text.Space.{trim_space}

abbrev pub session_file_list : List (Bytes × ℕ)
session_file_list =
    (codes "plan", 0o666)
    ∷ (codes "ctl", 0o200)
    ∷ (codes "prompt", 0o200)
    ∷ (codes "fifo.in", 0o200)
    ∷ (codes "fifo.out", 0o444)
    ∷ (codes "chat", 0o666)
    ∷ (codes "offset", 0o444)
    ∷ (codes "cfg", 0o666)
    ∷ (codes "statewait", 0o444)
    ∷ (codes "usage", 0o444)
    ∷ (codes "cost", 0o444)
    ∷ (codes "ctxsz", 0o444)
    ∷ (codes "models", 0o444)
    ∷ (codes "systemprompt", 0o444)
    ∷ (codes "env", 0o444)
    ∷ (codes "tail", 0o555)
    ∷ (codes "prompt.prev", 0o444)
    ∷ (codes "context", 0o444)
    ∷ []

-- The lines of the environment that envContent passes on
unfoldable pub env_lines : List Bytes → Bytes
env_lines [] = []
env_lines (e ∷ rest) =
    let more = env_lines rest in
    if has_prefix e (codes "OLLIE_") && not (has_prefix e (codes "OLLIE_SESSION_ID="))
    then e ++ (codes "\n" ++ more)
    else more

abbrev or_nil : Option Bytes → Bytes
or_nil none = []
or_nil (some item) = item

module _ {C : AgentCore} where
  -- content, with os.Environ as its first argument
  unfoldable pub content : List Bytes → Bytes → Session C → Bytes
  unfolding env_lines
  content environ name sess =
      if name == codes "usage"
      then C.usage sess.core ++ codes "\n"
      else if name == codes "cost"
      then C.cost sess.core
      else if name == codes "ctxsz"
      then C.ctx_sz sess.core ++ codes "\n"
      else if name == codes "models"
      then C.list_models sess.core ++ codes "\n"
      else if name == codes "systemprompt"
      then C.system_prompt sess.core
      else if name == codes "offset"
      then print_nat sess.chat_offset ++ codes "\n"
      else if name == codes "env"
      then codes "OLLIE_SESSION_ID=" ++ (sess.id ++ (codes "\n" ++ env_lines environ))
      else if name == codes "tail"
      then codes "#!/bin/sh\nexec tail -f \"$(dirname \"$0\")/chat\"\n"
      else if name == codes "context"
      then foldr (λ m rest. C.encode_json m ++ rest) [] (C.context sess.core)
      else []

  -- Reading "fifo.out" takes an item off the queue.
  unfoldable pub pop_queue : Act (Session C) Bytes
  pop_queue sess =
      let (item, core) = C.pop_queue sess.core in (ok (or_nil item), record sess { core = core })

  -- A blank base stands for the present state; with no change in time the state is returned.
  wait_result : Option Bytes × C.K → Session C → Outcome Bytes × Session C
  wait_result (none, core) sess = (ok (C.state core ++ codes "\n"), record sess { core = core })
  wait_result (some v, core) sess = (ok (v ++ codes "\n"), record sess { core = core })

  unfoldable pub wait_state : Bytes → Act (Session C) Bytes
  unfolding wait_result
  wait_state [] sess = wait_result (C.wait_change (C.state sess.core) sess.core) sess
  wait_state (c ∷ base) sess = wait_result (C.wait_change (c ∷ base) sess.core) sess

module _ {C : AgentCore} {S : Type 0} (h : SessionHelper C S) (environ : List Bytes) where
  -- The first switch of fileSpec
  read_of : Bytes → Act S Bytes
  read_of name =
      if name == codes "plan"
      then h.on_sess (gets (λ sess. sess.plan))
      else if name == codes "prompt.prev"
      then h.on_sess (gets (λ sess. sess.prev_prompt))
      else if name == codes "chat"
      then h.on_sess (gets (λ sess. sess.log))
      else if name == codes "fifo.out"
      then h.on_sess pop_queue
      else if name == codes "cfg"
      then h.on_sess (gets cfg_content)
      else h.on_sess (gets (content environ name))

  size_of : Bytes → Option (Act S ℕ)
  size_of name =
      if name == codes "plan"
      then some (h.on_sess (gets (λ sess. length sess.plan)))
      else if name == codes "chat"
      then some (h.on_sess (gets (λ sess. length sess.log)))
      else none

  -- Blank input is accepted and does nothing.
  on_input : (Bytes → Act S (Unit {0})) → Bytes → Act S (Unit {0})
  on_input act [] = pure tt
  on_input act (c ∷ input) = act (c ∷ input)

  -- The write to "prompt" starts a goroutine for the turn.
  start_turn : Bytes → Session C → Session C
  start_turn input sess = record sess { prev_prompt = input; turns = sess.turns ++ (input ∷ []) }

  -- The second switch
  write_of : Bytes → Option (Bytes → Act S (Unit {0}))
  write_of name =
      if name == codes "plan"
      then some (λ content. h.on_sess (modify (λ sess. record sess { plan = content })))
      else if name == codes "chat"
      then some (λ content. on_input h.save_transcript (trim_space content))
      else if name == codes "prompt"
      then some (λ content.
        on_input (λ input. h.on_sess (modify (start_turn input))) (trim_space content))
      else if name == codes "fifo.in"
      then some (λ content.
        on_input
          (λ input. h.on_sess (modify (λ sess. record sess { core = C.queue input sess.core })))
          (trim_space content))
      else if name == codes "ctl"
      then some (λ content. on_input (handle_ctl h) (trim_space content))
      else if name == codes "cfg"
      then some (λ content. on_input (λ input. h.on_sess (handle_cfg input)) (trim_space content))
      else none

  wait_of : Bytes → Option (Bytes → Act S Bytes)
  wait_of name =
      if name == codes "statewait" then some (λ base. h.on_sess (wait_state base)) else none

  unfoldable pub file_spec : Bytes × ℕ → FileSpec S
  unfolding read_of size_of write_of wait_of on_input start_turn
  file_spec (name, mode) = record {
    name = name;
    mode = mode;
    read = read_of name;
    write = write_of name;
    wait = wait_of name;
    size = size_of name;
  }

  -- NewSessionFileStore
  unfoldable pub new_session_file_store : RunFileStore S
  new_session_file_store = RunFile.new (map file_spec session_file_list)
