-- ===== src/Session/Ctl.antt =====
-- sessionHelper and handleCtl of store/sessionfile.go: the file "ctl" of a session.
pub mod Keeps
pub mod Panics
use ollie_9p.Prelude.{
  ℕ, Bytes, bytes_eq, ◌==◌, Bool, true, false, List, [], ◌∷◌, ◌++◌, if◌then◌else◌, codes, leb,
  length, drop,
}
use ollie_9p.Prelude.Outcome.{Outcome, ok, err, panic, Act, fail, lift, modify, gets, ◌>>=◌}
use ollie_9p.Agent.{AgentCore}
use ollie_9p.Session.{Session, interrupt}
use ollie_9p.Session.Events.{submit}
use ollie_9p.Text.Space.{trim_space, fields}

-- sessionHelper: the session is reached through `on_sess`, an action of the whole state `S`; the
-- other fields are the callbacks that NewSessionFileStore is given.
pub record SessionHelper (C : AgentCore) (S : Type 0) : Type 1 where
  pub on_sess : {A : Type 0} → Act (Session C) A → Act S A
  pub kill : Act S (Unit {0})
  pub rename : Bytes → Act S (Unit {0})
  pub save_transcript : Bytes → Act S (Unit {0})

-- The commands that are passed on to the core.
abbrev pub passed_on : List Bytes
passed_on =
    codes "compact"
    ∷ codes "clear"
    ∷ codes "backend"
    ∷ codes "model"
    ∷ codes "models"
    ∷ codes "agents"
    ∷ codes "agent"
    ∷ codes "sessions"
    ∷ codes "cwd"
    ∷ codes "skills"
    ∷ codes "tools"
    ∷ codes "context"
    ∷ codes "usage"
    ∷ codes "cost"
    ∷ codes "history"
    ∷ codes "irw"
    ∷ codes "help"
    ∷ []

unfoldable pub is_one_of : Bytes → List Bytes → Bool
is_one_of s [] = false
is_one_of s (t ∷ rest) = if s == t then true else is_one_of s rest

pub data Command : Type 0 where
  stop kill rn save pass unknown : Command

-- The switch on `cmd[0]`
unfoldable pub command_of : Bytes → Command
unfolding is_one_of
command_of word =
    if word == codes "stop"
    then stop
    else if word == codes "kill"
    then kill
    else if word == codes "rn"
    then rn
    else if word == codes "save"
    then save
    else if is_one_of word passed_on
    then pass
    else unknown

-- `s[n:]`, which panics where the string is shorter
unfoldable pub slice_from : ℕ → Bytes → Outcome Bytes
slice_from n s = if leb n (length s) then ok (drop n s) else panic

module _ {C : AgentCore} {S : Type 0} (h : SessionHelper C S) where
  -- An error of the rename is only logged.
  log_error : Outcome (Unit {0}) × S → Outcome (Unit {0}) × S
  log_error (ok _, s) = (ok tt, s)
  log_error (err _, s) = (ok tt, s)
  log_error (panic, s) = (panic, s)

  rename_to : Bytes → Act S (Unit {0})
  unfolding log_error
  rename_to [] s = (ok tt, s)
  rename_to (c ∷ name) s = log_error (h.rename (c ∷ name) s)

  run_command : Command → Bytes → Bytes → Act S (Unit {0})
  unfolding rename_to slice_from
  run_command stop word input = h.on_sess (modify interrupt)
  run_command kill word input = h.kill
  run_command rn word input = do rest ← lift (slice_from 3 input); rename_to (trim_space rest)
  run_command save word input = do
    content ← h.on_sess (gets (λ sess. sess.log))
    h.save_transcript content
  run_command pass word input = h.on_sess (modify (submit (codes "/" ++ input)))
  run_command unknown word input = fail (codes "unknown ctl command: " ++ word)

  ctl_words : List Bytes → Bytes → Act S (Unit {0})
  unfolding run_command command_of
  ctl_words [] input = fail (codes "empty ctl command")
  ctl_words (word ∷ _) input = run_command (command_of word) word input

  -- handleCtl
  unfoldable pub handle_ctl : Bytes → Act S (Unit {0})
  unfolding ctl_words
  handle_ctl input = ctl_words (fields input) input
