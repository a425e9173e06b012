-- ===== src/SessionStore/Closed.antt =====
-- The end of the program: InterruptAll, then Shutdown, which kills every session.
use mathlib.Core.List.{Memᴰ}
use ollie_9p.Prelude.{
  Bytes, bytes_eq, bytes_beq_iff, ◌==◌, some, List, [], ◌∷◌, ◌≡◌, refl, arith, Bool-cases,
  Option-cases, inl, inr,
}
use ollie_9p.Prelude.Dict
use ollie_9p.Prelude.Dict.{Dict}
use ollie_9p.Agent.{AgentCore}
use ollie_9p.Session.{Session, interrupt}
use ollie_9p.SessionStore.{
  SessionStore, kill_session, kill_all, shutdown, interrupt_all, interrupt_all_of, shut_down,
}
use ollie_9p.SessionStore.Table.{find, find-kill_session, retired-kill_session}

lookup-interrupt_found :
    {C : AgentCore} (id : Bytes) (sess : Session C) (d : Dict Bytes (Session C))
    → Dict.lookup id d ≡ some sess
    → Dict.lookup id (interrupt_all_of d) ≡ some (interrupt sess)
unfolding Dict.lookup interrupt_all_of
lookup-interrupt_found id sess [] h = absurd (ground arith)
lookup-interrupt_found id sess ((j, x) ∷ d) h = elim (Bool-cases (j == id)) [
  | inl e ↦ ground arith
  | inr e ↦ ground (arith, lookup-interrupt_found id sess d)
]

module _ {C : AgentCore} {E : Type 0} where
  retired-stays :
      (id : Bytes) (x : Session C) (s : SessionStore C E)
      → Memᴰ x s.retired
      → Memᴰ x (kill_session id s).retired
  unfolding kill_session
  retired-stays id x s m = elim (Option-cases (find id s)) [
    | inl gone ↦ rw (gone, kill_session) m
    | inr (sess, found) ↦ rw (retired-kill_session id s sess found) (Memᴰ.tail m)
  ]

  kill_all-retired :
      (ids : List Bytes) (x : Session C) (s : SessionStore C E)
      → Memᴰ x s.retired
      → Memᴰ x (kill_all ids s).retired
  unfolding kill_all
  kill_all-retired [] x s m = m
  kill_all-retired (id ∷ ids) x s m =
      kill_all-retired ids x (kill_session id s) (retired-stays id x s m)

  kill_all-closes :
      (d : Dict Bytes (Session C)) (id : Bytes) (x sess : Session C) (s : SessionStore C E)
      → Dict.lookup id d ≡ some x
      → find id s ≡ some sess
      → Memᴰ (shut_down sess) (kill_all (Dict.keys d) s).retired
  unfolding kill_all Dict.keys Dict.lookup
  kill_all-closes [] id x sess s h found = absurd (ground arith)
  kill_all-closes ((j, y) ∷ d) id x sess s h found = elim (Bool-cases (j == id)) [
    | inl e ↦
        let same : j ≡ id = (bytes_beq_iff j id).0 e in
        kill_all-retired (Dict.keys d) (shut_down sess) (kill_session j s)
          (rw (retired-kill_session j s sess (rw same found)) (Memᴰ.head refl))
    | inr e ↦
        kill_all-closes d id x sess (kill_session j s) (ground arith)
          (ground (arith, find-kill_session j id s))
  ]

  pub find-interrupt_all :
      (id : Bytes) (sess : Session C) (s : SessionStore C E)
      → find id s ≡ some sess
      → find id (interrupt_all s) ≡ some (interrupt sess)
  unfolding interrupt_all
  find-interrupt_all id sess s h = lookup-interrupt_found id sess s.sessions h

  -- A session that is there at a shutdown is cancelled, and its core closed.
  pub shutdown-closes :
      (id : Bytes) (sess : Session C) (s : SessionStore C E)
      → find id s ≡ some sess
      → Memᴰ (shut_down sess) (shutdown s).retired
  unfolding shutdown
  shutdown-closes id sess s h = kill_all-closes s.sessions id sess sess s h h
