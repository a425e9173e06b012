-- ===== src/SessionStore/Create/Race/Laws.antt =====
-- Calls of createSession that come between each other's steps.
use ollie_9p.Prelude.{
  Bytes, bytes_eq, some, List, [], ◌∷◌, ◌≡◌, refl, ap, ◌∙◌, inl, inr, arith, Option-cases,
}
use ollie_9p.Prelude.Outcome.{Outcome, ok, err, panic, pure, ◌>>◌, continue}
use ollie_9p.Prelude.Dict
use ollie_9p.Prelude.Dict.{Dict, lookup-insert, ==_refl}
use ollie_9p.Agent.{AgentCore}
use ollie_9p.Session.{new_session}
use ollie_9p.SessionStore.{SessionStore, SessionStoreConfig}
use ollie_9p.SessionStore.Create.{
  NewOptions, default_options, read_options, choose_id, refuse_existing, insert_session,
}
use ollie_9p.SessionStore.Keyed.{
  IsKeyed-insert, IsKeyed-same, kill_session-IsKeyed, rename_session-IsKeyed,
}
use ollie_9p.SessionStore.Table.{find, IsKeyed}
use ollie_9p.SessionStore.Create.Race.{
  Call, asked, checked, built, ended, check, advance, Calls, Move, asks, goes_on, kills, renames,
  Moves, rests, moves,
}

module _ {C : AgentCore} {E : Type 0} where
  -- Only the environment differs.
  pub record SameTable (s t : SessionStore C E) : Type 0 where
    pub sessions : t.sessions ≡ s.sessions
    pub retired : t.retired ≡ s.retired

  refuse_existing-same :
      (cfg : SessionStoreConfig C E) (id : Bytes) (s : SessionStore C E)
      → (refuse_existing cfg id s).1 ≡ s
  unfolding refuse_existing
  refuse_existing-same cfg id s = elim (Option-cases (find id s)) [
    | inl free ↦ ground arith
    | inr (other, taken) ↦ rw (taken, refuse_existing) refl
  ]

module _ {C : AgentCore} {E : Type 0} (cfg : SessionStoreConfig C E) where
  stops-same :
      {A : Type 0} (r : Outcome (Unit {0})) (a : A) (s : SessionStore C E)
      → (continue r (λ _. pure {S = SessionStore C E} a) s).1 ≡ s
  stops-same (ok _) a s = refl
  stops-same (err e) a s = refl
  stops-same panic a s = refl

  id-same :
      (o : NewOptions) (r : Outcome Bytes) (s : SessionStore C E)
      → (continue {B = NewOptions × Bytes} r (λ id. refuse_existing cfg id >> pure (o, id)) s).1 ≡ s
  id-same o (ok id) s =
      let (r, s') = refuse_existing cfg id s in
      stops-same r (o, id) s' ∙ refuse_existing-same cfg id s
  id-same o (err e) s = refl
  id-same o panic s = refl

  check-same :
      (o : NewOptions) (cwd : Bytes) (s : SessionStore C E) → SameTable s (check cfg o cwd s).1
  unfolding check
  check-same o [] s = record { sessions = refl; retired = refl }
  check-same o (c ∷ cwd) s =
      let (r, env) = choose_id cfg o.name s.env in
      let same = id-same o r (record s { env = env }) in
      record { sessions = ap (λ t. t.sessions) same; retired = ap (λ t. t.retired) same }

  ask-same :
      (r : Outcome NewOptions) (s : SessionStore C E)
      → SameTable s (continue r (λ o. check cfg o o.cwd) s).1
  ask-same (ok o) s = check-same o o.cwd s
  ask-same (err e) s = record { sessions = refl; retired = refl }
  ask-same panic s = record { sessions = refl; retired = refl }

  -- Looking for the ID and building the core leave the table.
  asked-same :
      (args : List Bytes) (s : SessionStore C E) → SameTable s (advance cfg (asked args) s).1
  unfolding advance
  asked-same args s = ask-same (read_options cfg.quote args default_options) s

  checked-same :
      (o : NewOptions) (id : Bytes) (s : SessionStore C E)
      → SameTable s (advance cfg (checked o id) s).1
  unfolding advance
  checked-same o id s = record { sessions = refl; retired = refl }

  advance-IsKeyed :
      (call : Call C) (s : SessionStore C E) → IsKeyed s → IsKeyed (advance cfg call s).1
  unfolding advance insert_session
  advance-IsKeyed (asked args) s k = IsKeyed-same s _ k (asked-same args s).sessions
  advance-IsKeyed (checked o id) s k = IsKeyed-same s _ k refl
  advance-IsKeyed (built id core) s k =
      IsKeyed-insert s _ id (new_session id core) k (unfold new_session in refl) refl
  advance-IsKeyed (ended r) s k = k

module _ {C : AgentCore} {E : Type 0} (cfg : SessionStoreConfig C E) where
  Move-IsKeyed : (s t : Calls C E) → Move cfg s t → IsKeyed s.table → IsKeyed t.table
  Move-IsKeyed s _ (asks args) k = k
  Move-IsKeyed s _ (goes_on before call after e) k = advance-IsKeyed cfg call s.table k
  Move-IsKeyed s _ (kills id) k = kill_session-IsKeyed id s.table k
  Move-IsKeyed s _ (renames old_id new_id) k = rename_session-IsKeyed cfg old_id new_id s.table k

  -- However the steps of any calls of createSession, kills and renames follow each other, each
  -- session stands under its own ID if it did at the start.
  pub Moves-IsKeyed : (s t : Calls C E) → Moves cfg s t → IsKeyed s.table → IsKeyed t.table
  Moves-IsKeyed s _ (rests _) k = k
  Moves-IsKeyed s u (moves _ t _ move rest) k = Moves-IsKeyed t u rest (Move-IsKeyed s t move k)

  -- Two calls in the order in which the lock allows it: both look for the ID, both build a core,
  -- both enter their session.
  abbrev pub both_asked : List Bytes → List Bytes → SessionStore C E → SessionStore C E
  both_asked args args' s = (advance cfg (asked args') (advance cfg (asked args) s).1).1

  abbrev pub both_built : NewOptions → NewOptions → Bytes → SessionStore C E → SessionStore C E
  both_built o o' id s = (advance cfg (checked o' id) (advance cfg (checked o id) s).1).1

  abbrev pub both_entered : Bytes → C.K → C.K → SessionStore C E → SessionStore C E
  both_entered id core core' s = (advance cfg (built id core') (advance cfg (built id core) s).1).1

  both_entered_lem :
      (id : Bytes) (core core' : C.K) (s : SessionStore C E)
      → (find id (both_entered id core core' s) ≡ some (new_session id core'))
        × ((both_entered id core core' s).retired ≡ s.retired)
  unfolding advance insert_session
  both_entered_lem id core core' s =
      let first = Dict.insert id (new_session id core) s.sessions in
      (ground (arith, lookup-insert id id (new_session id core') first, ==_refl id), refl)

  -- If two calls look for the same ID before either enters its session, both find it free, and both
  -- get a core, then once both have entered theirs the table has the session of the second under
  -- the ID, and none has been shut down: that of the first is lost without being closed.
  pub second_call_wins :
      (args args' : List Bytes) (o o' : NewOptions) (id : Bytes) (core core' : C.K)
      (s : SessionStore C E)
      → (advance cfg (asked args) s).0 ≡ checked o id
      → (advance cfg (asked args') (advance cfg (asked args) s).1).0 ≡ checked o' id
      → (advance cfg (checked o id) (both_asked args args' s)).0 ≡ built id core
      → (advance cfg (checked o' id) (advance cfg (checked o id) (both_asked args args' s)).1).0
        ≡ built id core'
      → let entered = both_entered id core core' (both_built o o' id (both_asked args args' s)) in
        (find id entered ≡ some (new_session id core')) × (entered.retired ≡ s.retired)
  second_call_wins args args' o o' id core core' s a a' b b' =
      let built_both = both_built o o' id (both_asked args args' s) in
      let first = (advance cfg (asked args) s).1 in
      let mid = (advance cfg (checked o id) (both_asked args args' s)).1 in
      let (now, kept) = both_entered_lem id core core' built_both in
      (
        now,
        kept
            ∙ (checked-same cfg o' id mid).retired
            ∙ (checked-same cfg o id (both_asked args args' s)).retired
            ∙ (asked-same cfg args' first).retired
            ∙ (asked-same cfg args s).retired,
      )
