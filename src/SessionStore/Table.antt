-- ===== src/SessionStore/Table.antt =====
-- What the operations do to the table of sessions.
use ollie_9p.Prelude.{
  Bytes, bytes_eq, ◌==◌, true, false, Option, none, some, ◌∷◌, ◌++◌, if◌then◌else◌, codes, ◌≡◌,
  refl, ◌≢◌, ◌⊎◌, inl, inr, arith, Option-cases,
}
use ollie_9p.Prelude.Outcome.{ok, err}
use ollie_9p.Prelude.Dict
use ollie_9p.Prelude.Dict.{Dict, lookup-insert, lookup-erase, lookup-nil, ==_refl}
use ollie_9p.Agent.{AgentCore}
use ollie_9p.Session.{Session, append_log}
use ollie_9p.Session.Log.{log-append_log}
use ollie_9p.SessionStore.{
  SessionStore, SessionStoreConfig, kill_session, shut_down, rename_session, rename_note,
}

module _ {C : AgentCore} {E : Type 0} where
  -- The session that an ID stands for.
  abbrev pub find : Bytes → SessionStore C E → Option (Session C)
  find id s = Dict.lookup id s.sessions

  -- Each session stands under its own ID.
  pub record IsKeyed (s : SessionStore C E) : Type 0 where
    pub own_id : (id : Bytes) (sess : Session C) → find id s ≡ some sess → sess.id ≡ id

  -- Killing a session takes it, and no other, out of the table.
  pub find-kill_session :
      (id j : Bytes) (s : SessionStore C E)
      → find j (kill_session id s) ≡ (if id == j then none else find j s)
  unfolding kill_session
  find-kill_session id j s = ground (arith, lookup-erase j id s.sessions)

  -- The session that is killed is cancelled and its core closed.
  pub retired-kill_session :
      (id : Bytes) (s : SessionStore C E) (sess : Session C)
      → find id s ≡ some sess
      → (kill_session id s).retired ≡ shut_down sess ∷ s.retired
  unfolding kill_session
  retired-kill_session id s sess h = ground arith

  module _ (cfg : SessionStoreConfig C E) (old_id new_id : Bytes) (s : SessionStore C E) where
    -- A rename is refused, and changes nothing, if the session is missing, the new ID is taken, or
    -- the agent is running.
    pub rename_session_refused :
        (find old_id s ≡ none)
          ⊎ ((sess : Session C) × (find old_id s ≡ some sess)
              × ((find new_id s ≢ none) ⊎ (C.is_running sess.core ≡ true)))
        → (message : Bytes) × (rename_session cfg old_id new_id s ≡ (err message, s))
    unfolding rename_session
    rename_session_refused (inl missing) = (codes "session not found: " ++ old_id, ground arith)
    rename_session_refused (inr (sess, found, why)) = elim (Option-cases (find new_id s)) [
      | inr (other, taken) ↦ (codes "session already exists: " ++ new_id, ground arith)
      | inl free ↦ (codes "cannot rename while agent is running", ground arith)
    ]

    -- A rename of a session that is there, to an ID that is free, while its agent is idle and
    -- takes the ID, moves the session, with its new ID and a note in its log, leaves all other
    -- sessions, and tells the callback.
    pub rename_session_moves :
        (sess : Session C) (core : C.K)
        → find old_id s ≡ some sess
        → find new_id s ≡ none
        → C.is_running sess.core ≡ false
        → C.set_session_id new_id sess.core ≡ (ok tt, core)
        → (sess' : Session C) × ((rename_session cfg old_id new_id s).0 ≡ ok tt)
          × ((j : Bytes)
              → find j (rename_session cfg old_id new_id s).1
                ≡ (if old_id == j then none else if new_id == j then some sess' else find j s))
          × (sess'.id ≡ new_id)
          × (sess'.core ≡ core)
          × (sess'.log ≡ sess.log ++ rename_note old_id new_id)
          × ((rename_session cfg old_id new_id s).1.env ≡ cfg.on_rename old_id new_id s.env)
    unfolding rename_session
    rename_session_moves sess core found free idle renamed =
        let moved : Session C =
          append_log (rename_note old_id new_id) (record sess { core = core; id = new_id }) in
        (
          moved,
          ground arith,
          (λ j. ground (
            arith,
            lookup-erase j old_id (Dict.insert new_id moved s.sessions),
            lookup-insert j new_id moved s.sessions,
          )),
          (unfold append_log in refl),
          (unfold append_log in refl),
          log-append_log (rename_note old_id new_id) (record sess { core = core; id = new_id }),
          ground arith,
        )
