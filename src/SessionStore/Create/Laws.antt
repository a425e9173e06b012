-- ===== src/SessionStore/Create/Laws.antt =====
-- What createSession does to the table of sessions.
use ollie_9p.Prelude.{
  Bytes, codes, ◌++◌, bytes_eq, bytes_beq_iff, none, some, List, [], ◌∷◌, ◌≡◌, refl, ap, inl, inr,
  arith, Option-cases,
}
use ollie_9p.Prelude.Outcome.{Outcome, ok, err, panic, Act, ◌>>=◌, ◌>>◌, continue}
use ollie_9p.Prelude.Dict
use ollie_9p.Prelude.Dict.{Dict, lookup-insert}
use ollie_9p.Agent.{AgentCore}
use ollie_9p.Session.{Session, new_session}
use ollie_9p.SessionStore.{SessionStore, SessionStoreConfig, on_env}
use ollie_9p.SessionStore.Create.{
  NewOptions, default_options, read_options, create_with, create_session, build_core, choose_id,
  refuse_existing, insert_session,
}
use ollie_9p.SessionStore.Table.{find, IsKeyed}

new_session-id : (C : AgentCore) (id : Bytes) (core : C.K) → (new_session {C = C} id core).id ≡ id
unfolding new_session
new_session-id C id core = refl

module _ {C : AgentCore} {E : Type 0} where
  -- The table is as it was, or has one more session, new and under an ID that was free.
  pub data Created (s t : SessionStore C E) : Type 0 where
    unchanged : t.sessions ≡ s.sessions → Created s t
    entered :
        (id : Bytes) (core : C.K)
        → find id s ≡ none
        → t.sessions ≡ Dict.insert id (new_session id core) s.sessions
        → Created s t

  module _ (cfg : SessionStoreConfig C E) where
    after_build :
        (id : Bytes) (s t : SessionStore C E) (r : Outcome C.K)
        → find id s ≡ none
        → t.sessions ≡ s.sessions
        → Created s (continue r (insert_session cfg id) t).1
    unfolding insert_session
    after_build id s t (ok core) free same =
        entered id core free (ap (Dict.insert id (new_session id core)) same)
    after_build id s t (err e) free same = unchanged same
    after_build id s t panic free same = unchanged same

    -- createSession from the check of the ID on
    with_id : NewOptions → Bytes → Act (SessionStore C E) (Unit {0})
    with_id o id = do
      refuse_existing cfg id
      core ← on_env (build_core cfg o id)
      insert_session cfg id core

    refuse_existing_free :
        (id : Bytes) (t : SessionStore C E)
        → find id t ≡ none
        → refuse_existing cfg id t ≡ (ok tt, t)
    unfolding refuse_existing
    refuse_existing_free id t free = ground arith

    refuse_existing_taken :
        (id : Bytes) (t : SessionStore C E) (other : Session C)
        → find id t ≡ some other
        → refuse_existing cfg id t ≡ (err (codes "session already exists: " ++ id), t)
    unfolding refuse_existing
    refuse_existing_taken id t other taken = ground arith

    with_id-Created :
        (o : NewOptions) (id : Bytes) (s t : SessionStore C E)
        → t.sessions ≡ s.sessions
        → Created s (with_id o id t).1
    unfolding with_id
    with_id-Created o id s t same = elim (Option-cases (find id t)) [
      | inl free ↦
          let (r, env) = build_core cfg o id t.env in
          rw (refuse_existing_free id t free)
            (after_build id s (record t { env = env }) r (ground arith) same)
      | inr (other, taken) ↦ rw (refuse_existing_taken id t other taken) (unchanged same)
    ]

    after_choice :
        (o : NewOptions) (s t : SessionStore C E) (r : Outcome Bytes)
        → t.sessions ≡ s.sessions
        → Created s (continue r (with_id o) t).1
    after_choice o s t (ok id) same = with_id-Created o id s t same
    after_choice o s t (err e) same = unchanged same
    after_choice o s t panic same = unchanged same

    create_with-Created :
        (o : NewOptions) (cwd : Bytes) (s : SessionStore C E)
        → Created s (create_with cfg o cwd s).1
    unfolding create_with with_id
    create_with-Created o [] s = unchanged refl
    create_with-Created o (c ∷ cwd) s =
        let (r, env) = choose_id cfg o.name s.env in
        after_choice o s (record s { env = env }) r refl

    after_options :
        (s : SessionStore C E) (r : Outcome NewOptions)
        → Created s (continue r (λ o. create_with cfg o o.cwd) s).1
    after_options s (ok o) = create_with-Created o o.cwd s
    after_options s (err e) = unchanged refl
    after_options s panic = unchanged refl

    create_session-Created :
        (args : List Bytes) (s : SessionStore C E) → Created s (create_session cfg args s).1
    unfolding create_session
    create_session-Created args s = after_options s (read_options cfg.quote args default_options)

    -- A session that is there when `create_session` is called, as one step, stays as it is.
    pub find-create_session :
        (args : List Bytes) (s : SessionStore C E) (id : Bytes) (sess : Session C)
        → find id s ≡ some sess
        → find id (create_session cfg args s).1 ≡ some sess
    find-create_session args s id sess h = elim (create_session-Created args s) [
      | unchanged same ↦ ground arith
      | entered new core free e ↦
          ground
            (arith, lookup-insert id new (new_session new core) s.sessions, bytes_beq_iff new id)
    ]

    -- Creating a session keeps each session under its own ID.
    pub create_session-IsKeyed :
        (args : List Bytes) (s : SessionStore C E)
        → IsKeyed s
        → IsKeyed (create_session cfg args s).1
    create_session-IsKeyed args s k = record {
      own_id = λ j other h. elim (create_session-Created args s) [
        | unchanged same ↦ k.own_id j other (ground arith)
        | entered id core free e ↦ ground (
          arith,
          lookup-insert j id (new_session id core) s.sessions,
          bytes_beq_iff id j,
          k.own_id j other,
          new_session-id C id core,
        )
      ];
    }
