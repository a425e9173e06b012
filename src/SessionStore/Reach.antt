-- ===== src/SessionStore/Reach.antt =====
-- The life of the table of sessions: the steps that the operations take, and what holds after any
-- number of them.
use ollie_9p.Prelude.{Bytes, bytes_eq, none, List, [], ◌∷◌, ◌≡◌, refl, ◌∙◌, arith}
use ollie_9p.Prelude.Outcome.{Act}
use ollie_9p.Prelude.Dict
use ollie_9p.Prelude.Dict.{Dict, lookup-nil, lookup-insert}
use ollie_9p.Agent.{AgentCore}
use ollie_9p.Session.{Session}
use ollie_9p.SessionStore.{
  SessionStore, SessionStoreConfig, kill_session, del, shutdown, kill_all, rename_session,
  add_session, on_session, interrupt_all,
}
use ollie_9p.SessionStore.Create.{create_session}
use ollie_9p.SessionStore.Create.Laws.{create_session-IsKeyed}
use ollie_9p.SessionStore.Keyed.{
  IsKeyed-insert, IsKeyed-same, kill_session-IsKeyed, on_session-IsKeyed, del-IsKeyed,
  interrupt_all-IsKeyed, kill_all-IsKeyed, rename_session-IsKeyed,
}
use ollie_9p.SessionStore.Table.{find, IsKeyed, find-kill_session}

module _ {C : AgentCore} {E : Type 0} where
  -- One operation on the table. What a session's own files do to it leaves it its ID.
  pub data Step (cfg : SessionStoreConfig C E) (s : SessionStore C E)
      : SessionStore C E → Type 0 where
    creates : (args : List Bytes) → Step cfg s (create_session cfg args s).1
    adds : (sess : Session C) → Step cfg s (add_session sess s)
    kills : (id : Bytes) → Step cfg s (kill_session id s)
    deletes : (id : Bytes) → Step cfg s (del id s).1
    renames : (old_id new_id : Bytes) → Step cfg s (rename_session cfg old_id new_id s).1
    interrupts : Step cfg s (interrupt_all s)
    shuts : Step cfg s (shutdown s)
    acts :
        (id : Bytes) (act : Act (Session C) (Unit {0}))
        → ((sess : Session C) → (act sess).1.id ≡ sess.id)
        → Step cfg s (on_session id act s).1
    -- The environment moves on.
    drifts : (env : E) → Step cfg s (record s { env = env })

  -- The tables that a server can come to, from the empty table of NewSessionStore
  pub data Reach (cfg : SessionStoreConfig C E) : SessionStore C E → Type 0 where
    starts : (env : E) → Reach cfg (record { sessions = []; retired = []; env = env })
    goes : (s t : SessionStore C E) → Reach cfg s → Step cfg s t → Reach cfg t

  Step-IsKeyed :
      (cfg : SessionStoreConfig C E) (s t : SessionStore C E) → Step cfg s t → IsKeyed s → IsKeyed t
  unfolding add_session shutdown
  Step-IsKeyed cfg s _ (creates args) k = create_session-IsKeyed cfg args s k
  Step-IsKeyed cfg s _ (adds sess) k = IsKeyed-insert s _ sess.id sess k refl refl
  Step-IsKeyed cfg s _ (kills id) k = kill_session-IsKeyed id s k
  Step-IsKeyed cfg s _ (deletes id) k = del-IsKeyed id s k
  Step-IsKeyed cfg s _ (renames old_id new_id) k = rename_session-IsKeyed cfg old_id new_id s k
  Step-IsKeyed cfg s _ interrupts k = interrupt_all-IsKeyed s k
  Step-IsKeyed cfg s _ shuts k = kill_all-IsKeyed (Dict.keys s.sessions) s k
  Step-IsKeyed cfg s _ (acts id act keeps) k =
      on_session-IsKeyed id act s (λ i sess e. keeps sess ∙ e) k
  Step-IsKeyed cfg s _ (drifts env) k = IsKeyed-same s _ k refl

  -- Whatever the operations and their order, each session stands under its own ID.
  pub Reach-IsKeyed :
      (cfg : SessionStoreConfig C E) (s : SessionStore C E) → Reach cfg s → IsKeyed s
  Reach-IsKeyed cfg _ (starts env) = record {
    own_id = λ id sess h. absurd (ground (arith, lookup-nil {V = Session C} id));
  }
  Reach-IsKeyed cfg _ (goes s t r step) = Step-IsKeyed cfg s t step (Reach-IsKeyed cfg s r)

  kill_all-none :
      (ids : List Bytes) (j : Bytes) (s : SessionStore C E)
      → find j s ≡ none
      → find j (kill_all ids s) ≡ none
  unfolding kill_all
  kill_all-none [] j s h = h
  kill_all-none (id ∷ ids) j s h =
      kill_all-none ids j (kill_session id s) (ground (arith, find-kill_session id j s))

  kill_all-find :
      (d : Dict Bytes (Session C)) (j : Bytes) (s : SessionStore C E)
      → (Dict.lookup j d ≡ none → find j s ≡ none)
      → find j (kill_all (Dict.keys d) s) ≡ none
  unfolding kill_all Dict.keys Dict.lookup
  kill_all-find [] j s h = h refl
  kill_all-find ((id, sess) ∷ d) j s h =
      kill_all-find d j (kill_session id s) (λ e. ground (arith, find-kill_session id j s))

  -- A shutdown leaves no session.
  pub find-shutdown : (j : Bytes) (s : SessionStore C E) → find j (shutdown s) ≡ none
  unfolding shutdown
  find-shutdown j s = kill_all-find s.sessions j s (λ e. e)
