-- ===== src/Session/Identity.antt =====
-- What is done to a session through its own files leaves it its ID.
use mathlib.Core.List.{foldl}
use ollie_9p.Prelude.{Bytes, bytes_eq, true, false, List, [], ◌∷◌, ◌≡◌, refl, ◌∙◌, codes, arith}
use ollie_9p.Agent.{AgentCore, Event}
use ollie_9p.Session.{Session, append_log, interrupt, ensure_trailing_newline}
use ollie_9p.Session.Events.{
  Role, assistant, role_of, Publisher, publish, publish_prologue, begin_assistant, end_assistant,
  submit, format_event, run_turn,
}

-- Whether a prompt waits
data Turns (turns : List Bytes) : Type 0 where
  idle : turns ≡ [] → Turns turns
  waiting : (input : Bytes) (rest : List Bytes) → turns ≡ input ∷ rest → Turns turns

Turns-cases : (turns : List Bytes) → Turns turns
Turns-cases [] = idle refl
Turns-cases (input ∷ rest) = waiting input rest refl

module _ {C : AgentCore} where
  append_log-id : (content : Bytes) (sess : Session C) → (append_log content sess).id ≡ sess.id
  unfolding append_log
  append_log-id [] sess = refl
  append_log-id (c ∷ content) sess = refl

  begin_assistant-id : (p : Publisher C) → (begin_assistant p).1.id ≡ p.1.id
  unfolding begin_assistant
  begin_assistant-id (true, sess) = refl
  begin_assistant-id (false, sess) = append_log-id (codes "assistant: ") sess

  end_assistant-id : (p : Publisher C) → (end_assistant p).1.id ≡ p.1.id
  unfolding end_assistant
  end_assistant-id (true, sess) = append_log-id (codes "\n") sess
  end_assistant-id (false, sess) = refl

  publish_prologue-id : (role : Role) (p : Publisher C) → (publish_prologue role p).1.id ≡ p.1.id
  unfolding publish_prologue
  publish_prologue-id assistant p = begin_assistant-id p
  publish_prologue-id _ p = end_assistant-id p

  publish_all-id : (events : List Event) (p : Publisher C) → (foldl publish p events).1.id ≡ p.1.id
  unfolding publish
  publish_all-id [] p = refl
  publish_all-id (ev ∷ events) p =
      publish_all-id events (publish p ev)
      ∙ append_log-id (format_event ev) (publish_prologue (role_of ev.role) p).1
      ∙ publish_prologue-id (role_of ev.role) p

  pub submit-id : (input : Bytes) (sess : Session C) → (submit input sess).id ≡ sess.id
  unfolding submit
  submit-id input sess =
      let (events, core) = C.submit input sess.core in
      publish_all-id events (false, record sess { core = core })

  ensure_trailing_newline-id : (sess : Session C) → (ensure_trailing_newline sess).id ≡ sess.id
  unfolding ensure_trailing_newline
  ensure_trailing_newline-id sess = ground arith

  pub run_turn-id : (sess : Session C) → (run_turn sess).id ≡ sess.id
  unfolding run_turn
  run_turn-id sess = elim (Turns-cases sess.turns) [
    | idle e ↦ rw (e, run_turn) refl
    | waiting input turns e ↦
        rw (e, run_turn)
          (ensure_trailing_newline-id (submit input (record sess { turns = turns }))
            ∙ submit-id input (record sess { turns = turns }))
  ]

  pub interrupt-id : (sess : Session C) → (interrupt sess).id ≡ sess.id
  unfolding interrupt
  interrupt-id sess = refl

-- The session has this ID.
abbrev pub HasId : (C : AgentCore) → Bytes → Session C → Type 0
HasId C i sess = sess.id ≡ i
