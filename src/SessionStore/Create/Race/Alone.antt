-- ===== src/SessionStore/Create/Race/Alone.antt =====
-- A call of createSession that no other call comes between.
use ollie_9p.Prelude.{some, Bytes, bytes_eq, List, [], ◌∷◌, ◌≡◌, refl, ap, ◌∙◌}
use ollie_9p.Prelude.Outcome.{Outcome, ok, err, panic, pure, ◌>>◌, continue}
use ollie_9p.Agent.{AgentCore}
use ollie_9p.SessionStore.{SessionStore, SessionStoreConfig}
use ollie_9p.SessionStore.Create.{
  NewOptions, default_options, read_options, create_with, create_session, build_core, choose_id,
  refuse_existing, insert_session,
}
use ollie_9p.Session.{Session}
use ollie_9p.SessionStore.Table.{find}
use ollie_9p.SessionStore.Create.Laws.{find-create_session}
use ollie_9p.SessionStore.Create.Race.{
  asked, checked, built, went_on, check, advance, next, returned, to_checked, enter,
}

module _ {C : AgentCore} {E : Type 0} (cfg : SessionStoreConfig C E) where
  build_alone :
      (id : Bytes) (r : Outcome C.K) (s : SessionStore C E)
      → next cfg (went_on (built id) r, s) ≡ returned cfg (continue r (insert_session cfg id) s)
  unfolding advance insert_session
  build_alone id (ok core) s = refl
  build_alone id (err e) s = refl
  build_alone id panic s = refl

  enter_alone :
      (o : NewOptions) (id : Bytes) (s : SessionStore C E)
      → next cfg (next cfg (checked o id, s)) ≡ returned cfg (enter cfg o id s)
  unfolding advance
  enter_alone o id s =
      let (r, env) = build_core cfg o id s.env in build_alone id r (record s { env = env })

  stops_alone :
      (r : Outcome (Unit {0})) (o : NewOptions) (id : Bytes) (s : SessionStore C E)
      → next cfg (next cfg (to_checked cfg (continue r (λ _. pure (o, id)) s)))
        ≡ returned cfg (continue r (λ _. enter cfg o id) s)
  stops_alone (ok _) o id s = enter_alone o id s
  stops_alone (err e) o id s = unfold advance in refl
  stops_alone panic o id s = unfold advance in refl

  id_alone :
      (r : Outcome Bytes) (o : NewOptions) (s : SessionStore C E)
      → next cfg
          (next cfg (to_checked cfg (continue r (λ id. refuse_existing cfg id >> pure (o, id)) s)))
        ≡ returned cfg (continue r (λ id. refuse_existing cfg id >> enter cfg o id) s)
  id_alone (ok id) o s = let (r, s') = refuse_existing cfg id s in stops_alone r o id s'
  id_alone (err e) o s = unfold advance in refl
  id_alone panic o s = unfold advance in refl

  check_alone :
      (o : NewOptions) (cwd : Bytes) (s : SessionStore C E)
      → next cfg (next cfg (to_checked cfg (check cfg o cwd s)))
        ≡ returned cfg (create_with cfg o cwd s)
  unfolding check create_with
  check_alone o [] s = unfold advance in refl
  check_alone o (c ∷ cwd) s =
      let (r, env) = choose_id cfg o.name s.env in id_alone r o (record s { env = env })

  options_alone :
      (r : Outcome NewOptions) (s : SessionStore C E)
      → next cfg (next cfg (to_checked cfg (continue r (λ o. check cfg o o.cwd) s)))
        ≡ returned cfg (continue r (λ o. create_with cfg o o.cwd) s)
  options_alone (ok o) s = check_alone o o.cwd s
  options_alone (err e) s = unfold advance in refl
  options_alone panic s = unfold advance in refl

  ask :
      (args : List Bytes) (s : SessionStore C E)
      → advance cfg (asked args) s
        ≡ to_checked cfg
            (continue (read_options cfg.quote args default_options) (λ o. check cfg o o.cwd) s)
  unfolding advance
  ask args s = refl

  -- With nothing of other calls between its three steps, a call of createSession returns and leaves
  -- what `create_session` does.
  advance_alone :
      (args : List Bytes) (s : SessionStore C E)
      → next cfg (next cfg (next cfg (asked args, s))) ≡ returned cfg (create_session cfg args s)
  unfolding create_session
  advance_alone args s =
      ap (λ x. next cfg (next cfg x)) (ask args s)
      ∙ options_alone (read_options cfg.quote args default_options) s

  -- If the three steps of a call of createSession follow each other with nothing of other calls
  -- between them, each session that was there before them is there as it was after them, whatever
  -- they come to.
  pub find-next :
      (args : List Bytes) (s : SessionStore C E) (id : Bytes) (sess : Session C)
      → find id s ≡ some sess
      → find id (next cfg (next cfg (next cfg (asked args, s)))).1 ≡ some sess
  find-next args s id sess h =
      ap (λ x. find id x.1) (advance_alone args s) ∙ find-create_session cfg args s id sess h
