-- ===== src/SessionStore/Create/Race.antt =====
-- createSession of store/session.go as other goroutines see it. It holds the lock of the table only
-- while it looks for the ID and, later, while it enters the session, so that it is three steps.
pub mod Alone
pub mod Laws
use ollie_9p.Prelude.{
  Bytes, bytes_eq, bytes_beq_iff, codes, ◌++◌, Option, none, some, List, [], ◌∷◌, ◌≡◌, refl, ap,
  sym, ◌∙◌, inl, inr, arith, Option-cases,
}
use ollie_9p.Prelude.Outcome.{
  Outcome, ok, err, panic, Act, pure, fail, lift, ◌>>=◌, ◌>>◌, continue, Outcome-cases, gives,
  fails, panics,
}
use ollie_9p.Prelude.Dict
use ollie_9p.Prelude.Dict.{Dict, lookup-insert, ==_refl}
use ollie_9p.Agent.{AgentCore}
use ollie_9p.Session.{Session, new_session}
use ollie_9p.SessionStore.{SessionStore, SessionStoreConfig, on_env, kill_session, rename_session}
use ollie_9p.SessionStore.Create.{
  NewOptions, default_options, read_options, create_with, create_session, build_core, choose_id,
  refuse_existing, insert_session,
}
use ollie_9p.SessionStore.Keyed.{
  IsKeyed-insert, IsKeyed-same, kill_session-IsKeyed, rename_session-IsKeyed,
}
use ollie_9p.SessionStore.Table.{find, IsKeyed}

-- How far a call of createSession has come: it is yet to look for its ID, it has seen that no
-- session has it, it has the core, or it has returned.
pub data Call (C : AgentCore) : Type 0 where
  asked : List Bytes → Call C
  checked : NewOptions → Bytes → Call C
  built : Bytes → C.K → Call C
  ended : Outcome (Unit {0}) → Call C

module _ {C : AgentCore} where
  abbrev went_on : {A : Type 0} → (A → Call C) → Outcome A → Call C
  went_on f (ok a) = f a
  went_on f (err e) = ended (err e)
  went_on f panic = ended panic

module _ {C : AgentCore} {E : Type 0} (cfg : SessionStoreConfig C E) where
  -- Up to s.mu.RUnlock
  check : NewOptions → Bytes → Act (SessionStore C E) (NewOptions × Bytes)
  unfolding refuse_existing
  check o [] = fail (codes "cwd is required (e.g. new cwd=/path/to/project)")
  check o (c ∷ cwd) = do id ← on_env (choose_id cfg o.name); refuse_existing cfg id; pure (o, id)

  -- What the call does between two of the locks
  unfoldable pub advance : Call C → SessionStore C E → Call C × SessionStore C E
  unfolding check insert_session
  advance (asked args) s =
      let (r, s') = (lift (read_options cfg.quote args default_options) >>= λ o. check o o.cwd) s in
      (went_on (λ oid. checked oid.0 oid.1) r, s')
  advance (checked o id) s =
      let (r, s') = on_env (build_core cfg o id) s in (went_on (built id) r, s')
  advance (built id core) s = let (r, s') = insert_session cfg id core s in (ended r, s')
  advance (ended r) s = (ended r, s)

  abbrev pub next : Call C × SessionStore C E → Call C × SessionStore C E
  next (call, s) = advance call s

  abbrev pub returned : Outcome (Unit {0}) × SessionStore C E → Call C × SessionStore C E
  returned (r, s) = (ended r, s)

  abbrev to_checked : Outcome (NewOptions × Bytes) × SessionStore C E → Call C × SessionStore C E
  to_checked (r, s) = (went_on (λ oid. checked oid.0 oid.1) r, s)

  abbrev enter : NewOptions → Bytes → Act (SessionStore C E) (Unit {0})
  enter o id = on_env (build_core cfg o id) >>= insert_session cfg id

-- Calls under way and the table that they share
pub record Calls (C : AgentCore) (E : Type 0) : Type 0 where
  pub table : SessionStore C E
  pub calls : List (Call C)

module _ {C : AgentCore} {E : Type 0} (cfg : SessionStoreConfig C E) where
  -- Any call goes on, or a new one starts; a session is killed or renamed, both under the lock.
  pub data Move (s : Calls C E) : Calls C E → Type 0 where
    asks : (args : List Bytes) → Move s (record s { calls = asked args ∷ s.calls })
    goes_on :
        (before : List (Call C)) (call : Call C) (after : List (Call C))
        → s.calls ≡ before ++ (call ∷ after)
        → Move s (record {
          table = (advance cfg call s.table).1;
          calls = before ++ ((advance cfg call s.table).0 ∷ after);
        })
    kills : (id : Bytes) → Move s (record s { table = kill_session id s.table })
    renames :
        (old_id new_id : Bytes)
        → Move s (record s { table = (rename_session cfg old_id new_id s.table).1 })

  pub data Moves : Calls C E → Calls C E → Type 0 where
    rests : (s : Calls C E) → Moves s s
    moves : (s t u : Calls C E) → Move s t → Moves t u → Moves s u
