-- ===== src/SessionStore/Keyed.antt =====
-- Each session of the table stands under its own ID, whatever the operations.
use ollie_9p.Prelude.{
  ◌==◌, ◌∙◌, some, Bytes, bytes_eq, bytes_beq_iff, List, [], ◌∷◌, ◌≡◌, refl, arith, Option-cases,
  Bool-cases, inl, inr,
}
use ollie_9p.Prelude.Outcome.{Outcome, Act, ok, err, panic}
use ollie_9p.Prelude.Dict
use ollie_9p.Prelude.Dict.{Dict, lookup-insert, lookup-erase, lookup-nil}
use ollie_9p.Prelude.Keeps.{Keeps}
use ollie_9p.Session.Identity.{HasId, interrupt-id}
use ollie_9p.Agent.{AgentCore}
use ollie_9p.Session.{Session, append_log}
use ollie_9p.SessionStore.{
  SessionStore, SessionStoreConfig, kill_session, kill_all, rename_session, finish_rename,
  rename_note, on_session, del, interrupt_all, interrupt_all_of,
}
use ollie_9p.SessionStore.Table.{find, IsKeyed, find-kill_session}

lookup-interrupt_all_of :
    {C : AgentCore} (id : Bytes) (sess : Session C) (d : Dict Bytes (Session C))
    → Dict.lookup id (interrupt_all_of d) ≡ some sess
    → (old : Session C) × (Dict.lookup id d ≡ some old) × (sess.id ≡ old.id)
unfolding Dict.lookup interrupt_all_of
lookup-interrupt_all_of id sess [] h = absurd (ground arith)
lookup-interrupt_all_of id sess ((j, x) ∷ d) h = elim (Bool-cases (j == id)) [
  | inl e ↦ (x, ground arith, ground (arith, interrupt-id x))
  | inr e ↦
      let (old, found, same) = lookup-interrupt_all_of id sess d (ground arith) in
      (old, ground arith, same)
]

module _ {C : AgentCore} {E : Type 0} where
  -- A table with one entry set keeps the property, if the entry is under its own ID.
  pub IsKeyed-insert :
      (s t : SessionStore C E) (id : Bytes) (sess : Session C)
      → IsKeyed s
      → sess.id ≡ id
      → t.sessions ≡ Dict.insert id sess s.sessions
      → IsKeyed t
  IsKeyed-insert s t id sess k own e = record {
    own_id = λ j other h.
        ground (arith, lookup-insert j id sess s.sessions, bytes_beq_iff id j, k.own_id j other);
  }

  IsKeyed-erase :
      (s t : SessionStore C E) (id : Bytes)
      → IsKeyed s
      → t.sessions ≡ Dict.erase id s.sessions
      → IsKeyed t
  IsKeyed-erase s t id k e = record {
    own_id = λ j other h. ground (arith, lookup-erase j id s.sessions, k.own_id j other);
  }

  pub IsKeyed-same : (s t : SessionStore C E) → IsKeyed s → t.sessions ≡ s.sessions → IsKeyed t
  IsKeyed-same s t k e = record { own_id = λ j other h. ground (arith, k.own_id j other) }

  pub kill_session-IsKeyed :
      (id : Bytes) (s : SessionStore C E) → IsKeyed s → IsKeyed (kill_session id s)
  kill_session-IsKeyed id s k = record {
    own_id = λ j other h. ground (arith, find-kill_session id j s, k.own_id j other);
  }

  finish_rename-IsKeyed :
      (cfg : SessionStoreConfig C E) (old_id new_id : Bytes) (sess : Session C)
      (r : Outcome (Unit {0})) (core : C.K) (s : SessionStore C E)
      → IsKeyed s
      → sess.id ≡ old_id
      → IsKeyed (finish_rename cfg old_id new_id sess (r, core) s).1
  unfolding finish_rename append_log
  finish_rename-IsKeyed cfg old_id new_id sess (err e) core s k own =
      IsKeyed-insert s _ old_id (record sess { core = core }) k own refl
  finish_rename-IsKeyed cfg old_id new_id sess panic core s k own =
      IsKeyed-insert s _ old_id (record sess { core = core }) k own refl
  finish_rename-IsKeyed cfg old_id new_id sess (ok _) core s k own =
      let moved : Session C =
        append_log (rename_note old_id new_id) (record sess { core = core; id = new_id }) in
      let t : SessionStore C E = record s { sessions = Dict.insert new_id moved s.sessions } in
      IsKeyed-erase t _ old_id (IsKeyed-insert s t new_id moved k refl refl) refl

  pub rename_session-IsKeyed :
      (cfg : SessionStoreConfig C E) (old_id new_id : Bytes) (s : SessionStore C E)
      → IsKeyed s
      → IsKeyed (rename_session cfg old_id new_id s).1
  unfolding rename_session
  rename_session-IsKeyed cfg old_id new_id s k = elim (Option-cases (find old_id s)) [
    | inl e ↦ IsKeyed-same s _ k (ground arith)
    | inr (sess, e) ↦ elim (Option-cases (find new_id s)) [
      | inr (other, e') ↦ IsKeyed-same s _ k (ground arith)
      | inl e' ↦ elim (Bool-cases (C.is_running sess.core)) [
        | inl e'' ↦ IsKeyed-same s _ k (ground arith)
        | inr e'' ↦
            let (r, core) = C.set_session_id new_id sess.core in
            rw (e, rename_session)
              (rw (e', rename_session)
                (rw (e'', rename_session)
                  (finish_rename-IsKeyed cfg old_id new_id sess r core s k
                    (k.own_id old_id sess e))))
      ]
    ]
  ]

  pub kill_all-IsKeyed :
      (ids : List Bytes) (s : SessionStore C E) → IsKeyed s → IsKeyed (kill_all ids s)
  unfolding kill_all
  kill_all-IsKeyed [] s k = k
  kill_all-IsKeyed (id ∷ ids) s k =
      kill_all-IsKeyed ids (kill_session id s) (kill_session-IsKeyed id s k)

  pub on_session-IsKeyed :
      {A : Type 0} (id : Bytes) (act : Act (Session C) A) (s : SessionStore C E)
      → ((i : Bytes) → Keeps (HasId C i) act)
      → IsKeyed s
      → IsKeyed (on_session id act s).1
  unfolding on_session
  on_session-IsKeyed id act s keeps k = elim (Option-cases (find id s)) [
    | inl gone ↦ IsKeyed-same s _ k (ground arith)
    | inr (sess, found) ↦
        let (r, sess') = act sess in
        rw (found, on_session)
          (IsKeyed-insert s _ id sess' k (keeps id sess (k.own_id id sess found)) refl)
  ]

  pub del-IsKeyed : (id : Bytes) (s : SessionStore C E) → IsKeyed s → IsKeyed (del id s).1
  unfolding del
  del-IsKeyed id s k = elim (Option-cases (find id s)) [
    | inl gone ↦ IsKeyed-same s _ k (ground arith)
    | inr (sess, found) ↦ rw (found, del) (kill_session-IsKeyed id s k)
  ]

  pub interrupt_all-IsKeyed : (s : SessionStore C E) → IsKeyed s → IsKeyed (interrupt_all s)
  unfolding interrupt_all
  interrupt_all-IsKeyed s k = record {
    own_id = λ id sess h.
        let (old, found, same) = lookup-interrupt_all_of id sess s.sessions h in
        same ∙ k.own_id id old found;
  }

-- Killing sessions is no business of the environment.
module _ {C : AgentCore} {E : Type 0} where
  kill_session-env : (id : Bytes) (s : SessionStore C E) → (kill_session id s).env ≡ s.env
  unfolding kill_session
  kill_session-env id s = elim (Option-cases (find id s)) [
    | inl gone ↦ ground arith
    | inr (sess, found) ↦ rw (found, kill_session) refl
  ]

  pub kill_all-env : (ids : List Bytes) (s : SessionStore C E) → (kill_all ids s).env ≡ s.env
  unfolding kill_all
  kill_all-env [] s = refl
  kill_all-env (id ∷ ids) s = kill_all-env ids (kill_session id s) ∙ kill_session-env id s
