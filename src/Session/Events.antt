-- ===== src/Session/Events.antt =====
-- FormatEvent and squashWhitespace of store/session.go, makePublish of store/sessionfile.go, and the
-- goroutine that a write to "prompt" starts.
use mathlib.Core.List.{foldl}
use ollie_9p.Prelude.{
  Bytes, bytes_eq, ◌==◌, Bool, true, false, [], ◌∷◌, ◌++◌, length, if◌then◌else◌, codes,
}
use ollie_9p.Agent.{AgentCore, Event}
use ollie_9p.Session.{Session, append_log, ensure_trailing_newline}
use ollie_9p.Text.{join, trim_right}
use ollie_9p.Text.Space.{fields}

unfoldable pub squash_whitespace : Bytes → Bytes
squash_whitespace s = join (fields s) (codes " ")

-- The roles of events that the program tells apart.
pub data Role : Type 0 where
  user assistant call tool retry error stalled reasoning info other : Role

unfoldable pub role_of : Bytes → Role
role_of role =
    if role == codes "user"
    then user
    else if role == codes "assistant"
    then assistant
    else if role == codes "call"
    then call
    else if role == codes "tool"
    then tool
    else if role == codes "retry"
    then retry
    else if role == codes "error"
    then error
    else if role == codes "stalled"
    then stalled
    else if role == codes "reasoning"
    then reasoning
    else if role == codes "info"
    then info
    else other

format_as : Role → Event → Bytes
format_as user ev = codes "user: " ++ (ev.content ++ codes "\n")
format_as assistant ev = ev.content
format_as call ev =
    codes "-> " ++ (ev.name ++ (codes "(" ++ (squash_whitespace ev.content ++ codes ")\n")))
format_as tool ev = trim_right ev.content b'\n' ++ codes "\n"
format_as retry ev = codes "retrying in " ++ (ev.content ++ codes "s...\n")
format_as error ev = codes "error: " ++ (ev.content ++ codes "\n")
format_as stalled ev = codes "agent stalled\n"
format_as reasoning ev = ev.content
format_as info ev = codes ":: " ++ ev.content
format_as other ev = []

-- FormatEvent; nil is the empty string
unfoldable pub format_event : Event → Bytes
unfolding format_as role_of
format_event ev = format_as (role_of ev.role) ev

-- The variable `assistantStarted` of the closure, beside the session.
abbrev pub Publisher : AgentCore → Type 0
Publisher C = Bool × Session C

module _ {C : AgentCore} where
  -- A line that the assistant has begun is ended.
  unfoldable pub end_assistant : Publisher C → Publisher C
  end_assistant (true, sess) = (false, append_log (codes "\n") sess)
  end_assistant (false, sess) = (false, sess)

  -- The header "assistant: " is written once, and the offset behind it kept.
  unfoldable pub begin_assistant : Publisher C → Publisher C
  begin_assistant (true, sess) = (true, sess)
  begin_assistant (false, sess) =
      let sess' = append_log (codes "assistant: ") sess in
      (true, record sess' { chat_offset = length sess'.log })

  unfoldable pub publish_prologue : Role → Publisher C → Publisher C
  unfolding begin_assistant end_assistant
  publish_prologue assistant p = begin_assistant p
  publish_prologue _ p = end_assistant p

  -- The function that makePublish returns
  unfoldable pub publish : Publisher C → Event → Publisher C
  unfolding publish_prologue
  publish p ev =
      let (started, sess) = publish_prologue (role_of ev.role) p in
      (started, append_log (format_event ev) sess)

  -- Core.Submit with a fresh makePublish
  unfoldable pub submit : Bytes → Session C → Session C
  unfolding publish
  submit input sess =
      let (events, core) = C.submit input sess.core in
      (foldl publish (false, record sess { core = core }) events).1

  -- The goroutine started for a prompt
  unfoldable pub run_turn : Session C → Session C
  unfolding submit
  run_turn sess = elim sess.turns [
    | [] ↦ sess
    | input ∷ turns ↦ ensure_trailing_newline (submit input (record sess { turns = turns }))
  ]
