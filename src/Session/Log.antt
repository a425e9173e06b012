-- ===== src/Session/Log.antt =====
-- What a turn of the agent leaves in the log.
pub mod Turn
use mathlib.Core.List.{foldl}
use ollie_9p.Prelude.{
  Bytes, bytes_eq, Bool, true, false, List, [], ◌∷◌, ◌++◌, if◌then◌else◌, codes, ◌≡◌, refl, sym,
  ◌∙◌, arith, append-nil, append_assoc,
}
use ollie_9p.Agent.{AgentCore, Event}
use ollie_9p.Session.{Session, append_log}
use ollie_9p.Session.Events.{
  Role, user, assistant, role_of, format_event, publish, publish_prologue, submit,
}

-- A stretch of the conversation: what the assistant says without a break, or one other event.
pub data Block : Type 0 where
  speech : Bytes → Block
  single : Event → Block

abbrev is_assistant : Role → Bool
is_assistant assistant = true
is_assistant _ = false

abbrev say : Bytes → List Block → List Block
say content (speech more ∷ blocks) = speech (content ++ more) ∷ blocks
say content (single ev ∷ blocks) = speech content ∷ single ev ∷ blocks
say content [] = speech content ∷ []

unfoldable pub blocks_of : List Event → List Block
blocks_of [] = []
blocks_of (ev ∷ events) =
    let rest = blocks_of events in
    if is_assistant (role_of ev.role) then say ev.content rest else single ev ∷ rest

-- Speech has a header, and a newline behind it if anything follows.
unfoldable pub render : List Block → Bytes
render [] = []
render (speech content ∷ []) = codes "assistant: " ++ content
render (speech content ∷ b ∷ blocks) =
    codes "assistant: " ++ (content ++ (codes "\n" ++ render (b ∷ blocks)))
render (single ev ∷ blocks) = format_event ev ++ render blocks

-- The same where speech has begun already.
render_on : List Block → Bytes
render_on [] = []
render_on (speech content ∷ []) = content
render_on (speech content ∷ b ∷ blocks) = content ++ (codes "\n" ++ render (b ∷ blocks))
render_on (single ev ∷ blocks) = codes "\n" ++ render (single ev ∷ blocks)

abbrev rendered : Bool → List Block → Bytes
rendered true blocks = render_on blocks
rendered false blocks = render blocks

-- What the prologue of an event adds to the log.
abbrev prologue : Bool → Role → Bytes
prologue true assistant = []
prologue false assistant = codes "assistant: "
prologue true _ = codes "\n"
prologue false _ = []

rendered-say :
    (b : Bool) (content : Bytes) (blocks : List Block)
    → rendered b (say content blocks) ≡ prologue b assistant ++ (content ++ render_on blocks)
unfolding render render_on
rendered-say true content [] = sym (append-nil content)
rendered-say false content [] = rw append-nil
rendered-say true content (speech more ∷ []) = refl
rendered-say false content (speech more ∷ []) = refl
rendered-say true content (speech more ∷ c ∷ blocks) = rw append_assoc
rendered-say false content (speech more ∷ c ∷ blocks) = rw append_assoc
rendered-say true content (single ev ∷ blocks) = refl
rendered-say false content (single ev ∷ blocks) = refl

abbrev add_block : Role → Event → List Block → List Block
add_block r ev blocks = if is_assistant r then say ev.content blocks else single ev ∷ blocks

rendered-add_block :
    (r : Role) (b : Bool) (ev : Event) (blocks : List Block)
    → role_of ev.role ≡ r
    → rendered b (add_block r ev blocks)
      ≡ prologue b r ++ (format_event ev ++ rendered (is_assistant r) blocks)
unfolding render render_on
rendered-add_block assistant b ev blocks e =
    let f : format_event ev ≡ ev.content = unfold format_event in ground arith in
    rw f (rendered-say b ev.content blocks)
rendered-add_block user true ev blocks e = refl
rendered-add_block _ true ev blocks e = refl
rendered-add_block _ false ev blocks e = refl

-- The transcript of an event and what follows it.
rendered-cons :
    (b : Bool) (ev : Event) (rest : List Event)
    → rendered b (blocks_of (ev ∷ rest))
      ≡ prologue b (role_of ev.role)
        ++ (format_event ev ++ rendered (is_assistant (role_of ev.role)) (blocks_of rest))
unfolding blocks_of
rendered-cons b ev rest = rendered-add_block (role_of ev.role) b ev (blocks_of rest) refl

module _ {C : AgentCore} where
  pub log-append_log :
      (content : Bytes) (sess : Session C) → (append_log content sess).log ≡ sess.log ++ content
  unfolding append_log
  log-append_log [] sess = sym (append-nil sess.log)
  log-append_log (c ∷ content) sess = refl

  log-prologue :
      (r : Role) (b : Bool) (sess : Session C)
      → (publish_prologue r (b, sess)).1.log ≡ sess.log ++ prologue b r
  unfolding publish_prologue append_log
  log-prologue assistant true sess = sym (append-nil sess.log)
  log-prologue assistant false sess = refl
  log-prologue user true sess = refl
  log-prologue _ true sess = refl
  log-prologue _ false sess = sym (append-nil sess.log)

  started-publish :
      (b : Bool) (sess : Session C) (ev : Event)
      → (publish (b, sess) ev).0 ≡ is_assistant (role_of ev.role)
  unfolding publish
  started-publish b sess ev = ground arith

  log-publish :
      (b : Bool) (sess : Session C) (ev : Event)
      → (publish (b, sess) ev).1.log ≡ sess.log ++ (prologue b (role_of ev.role) ++ format_event ev)
  log-publish b sess ev =
      unfold publish in
      log-append_log (format_event ev) (publish_prologue (role_of ev.role) (b, sess)).1
      ∙ rw (log-prologue (role_of ev.role) b sess)
          (append_assoc sess.log (prologue b (role_of ev.role)) (format_event ev))

  log-publish_all :
      (events : List Event) (b : Bool) (sess : Session C)
      → (foldl publish (b, sess) events).1.log ≡ sess.log ++ rendered b (blocks_of events)
  unfolding blocks_of render render_on
  log-publish_all [] true sess = sym (append-nil sess.log)
  log-publish_all [] false sess = sym (append-nil sess.log)
  log-publish_all (ev ∷ events) b sess =
      log-publish_all events (publish (b, sess) ev).0 (publish (b, sess) ev).1
      ∙ rw
          (
            started-publish b sess ev,
            log-publish b sess ev,
            rendered-cons b ev events,
            append_assoc,
            append_assoc,
          )
          refl

  -- A turn appends the transcript of its events to the log: each stretch of speech has one
  -- header.
  pub log-submit :
      (input : Bytes) (sess : Session C)
      → (submit input sess).log ≡ sess.log ++ render (blocks_of (C.submit input sess.core).0)
  log-submit input sess =
      unfold submit in
      log-publish_all (C.submit input sess.core).0 false
        (record sess { core = (C.submit input sess.core).1 })
