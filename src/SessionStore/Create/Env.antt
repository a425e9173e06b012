-- ===== src/SessionStore/Create/Env.antt =====
-- createSession keeps what the functions that it is configured with keep of the environment.
use ollie_9p.Prelude.{
  ℕ, Bytes, bytes_eq, codes, ◌++◌, Option, some, List, [], ◌∷◌, ◌≡◌, arith, Option-cases, inl, inr,
}
use ollie_9p.Prelude.Keeps.{Keeps, Keeps-bind}
use ollie_9p.Prelude.Outcome.{Outcome, ok, err, panic, Act, lift}
use ollie_9p.Agent.{AgentCore}
use ollie_9p.SessionStore.{SessionStore, SessionStoreConfig, on_env}
use ollie_9p.SessionStore.Create.{
  NewOptions, default_options, read_options, create_with, create_session, build_core, default_core,
  load_agent_config, config_of, wrap, or_default, choose_model, choose_id, refuse_existing,
  insert_session,
}

module _ {C : AgentCore} {E : Type 0} (cfg : SessionStoreConfig C E) (Q : E → Type 0) where
  pub record KeepsConfig : Type 0 where
    pub new_ids : (env : E) → Q env → Q (cfg.new_session_id env).1
    pub opens : (name : Bytes) → Keeps Q (cfg.open_file name)
    pub makes : (name : Bytes) (perm : ℕ) → Keeps Q (cfg.mkdir_all name perm)
    pub backends : (name : Bytes) → Keeps Q (cfg.new_with_name name)
    pub cores :
        (be : cfg.Backend) (agent id cwd : Bytes) (config : Option cfg.Config)
        → Keeps Q (cfg.new_agent_core be agent id cwd config)
    pub given :
        (make : Bytes → Bytes → Bytes → Act E C.K)
        → cfg.new_core ≡ some make
        → (id agent cwd : Bytes) → Keeps Q (make id agent cwd)

  module _ (k : KeepsConfig) where
    wrap-Keeps :
        {A : Type 0} (prefix : Bytes) (r : Outcome A) (env : E)
        → Q env
        → Q (wrap cfg prefix (r, env)).1
    wrap-Keeps prefix (ok a) env q = q
    wrap-Keeps prefix (err e) env q = q
    wrap-Keeps prefix panic env q = q

    config_of-Keeps : (r : Outcome Bytes) (env : E) → Q env → Q (config_of cfg (r, env)).1
    config_of-Keeps (ok text) env q = q
    config_of-Keeps (err e) env q = q
    config_of-Keeps panic env q = q

    load_agent_config-Keeps : (name : Bytes) → Keeps Q (load_agent_config cfg name)
    unfolding load_agent_config
    load_agent_config-Keeps name env q =
        let path = cfg.agents_dir ++ (codes "/" ++ (name ++ codes ".json")) in
        config_of-Keeps (cfg.open_file path env).0 (cfg.open_file path env).1 (k.opens path env q)

    default_core-Keeps : (o : NewOptions) (id : Bytes) → Keeps Q (default_core cfg o id)
    unfolding default_core
    default_core-Keeps o id =
        let mk : Act E (Unit {0}) =
          λ env. wrap cfg (codes "sessions dir: ") (cfg.mkdir_all cfg.sessions_dir 0o700 env) in
        let nb : Act E cfg.Backend =
          λ env. wrap cfg (codes "backend: ") (cfg.new_with_name o.backend env) in
        Keeps-bind Q nb _
          (λ env q.
            wrap-Keeps (codes "backend: ") (cfg.new_with_name o.backend env).0
              (cfg.new_with_name o.backend env).1 (k.backends o.backend env q))
          (λ _ _ be _.
            Keeps-bind Q mk _
              (λ env q.
                wrap-Keeps (codes "sessions dir: ") (cfg.mkdir_all cfg.sessions_dir 0o700 env).0
                  (cfg.mkdir_all cfg.sessions_dir 0o700 env).1
                  (k.makes cfg.sessions_dir 0o700 env q))
              (λ _ _ _ _.
                Keeps-bind Q (load_agent_config cfg o.agent) _ (load_agent_config-Keeps o.agent)
                  (λ _ _ config _.
                    k.cores (choose_model cfg (or_default cfg o.model cfg.ollie_model) be) o.agent
                      id o.cwd config)))

    build_core-Keeps : (o : NewOptions) (id : Bytes) → Keeps Q (build_core cfg o id)
    unfolding build_core
    build_core-Keeps o id env q = elim (Option-cases cfg.new_core) [
      | inl e ↦ rw (e, build_core) (default_core-Keeps o id env q)
      | inr (make, e) ↦ rw (e, build_core) (k.given make e id o.agent o.cwd env q)
    ]

    abbrev KeepsEnv : SessionStore C E → Type 0
    KeepsEnv s = Q s.env

    choose_id-Keeps : (name : Bytes) → Keeps KeepsEnv (on_env (choose_id cfg name))
    choose_id-Keeps [] s q = k.new_ids s.env q
    choose_id-Keeps (c ∷ name) s q = q

    refuse_existing-Keeps : (id : Bytes) → Keeps KeepsEnv (refuse_existing cfg id)
    unfolding refuse_existing
    refuse_existing-Keeps id s q = ground (arith, q)

    create_with-Keeps : (o : NewOptions) (cwd : Bytes) → Keeps KeepsEnv (create_with cfg o cwd)
    unfolding create_with insert_session
    create_with-Keeps o [] = λ s q. q
    create_with-Keeps o (c ∷ cwd) =
        Keeps-bind KeepsEnv (on_env (choose_id cfg o.name)) _ (choose_id-Keeps o.name) (λ _ _ id _.
          Keeps-bind KeepsEnv (refuse_existing cfg id) _ (refuse_existing-Keeps id) (λ _ _ _ _.
            Keeps-bind KeepsEnv (on_env (build_core cfg o id)) (insert_session cfg id)
              (λ s q. build_core-Keeps o id s.env q) (λ _ _ core _ s q. q)))

    pub create_session-env :
        (args : List Bytes) (s : SessionStore C E) → Q s.env → Q (create_session cfg args s).1.env
    unfolding create_session
    create_session-env args =
        Keeps-bind KeepsEnv (lift (read_options cfg.quote args default_options))
          (λ o. create_with cfg o o.cwd) (λ s q. q) (λ _ _ o _. create_with-Keeps o o.cwd)
