-- ===== src/Session/Cfg.antt =====
-- cfgContent and handleCfg of store/sessionfile.go: the file "cfg" of a session.
pub mod Keeps
use ollie_9p.Prelude.{
  Bytes, bytes_eq, ◌==◌, ◌||◌, Bool, true, false, Option, none, some, List, [], ◌∷◌, ◌++◌,
  if◌then◌else◌, codes,
}
use ollie_9p.Prelude.Outcome.{Outcome, ok, err, Act, pure, ◌>>=◌, ◌>>◌}
use ollie_9p.Agent.{AgentCore, GenerationParams}
use ollie_9p.Session.{Session}
use ollie_9p.Session.Events.{submit}
use ollie_9p.Session.Params.{ParamKey, param_key, set_param, format_params}
use ollie_9p.Text.{cut, split}
use ollie_9p.Text.Space.{trim_space}

-- What a key of a cfg line asks for.
pub data CfgKey : Type 0 where
  switch : CfgKey
  cwd : CfgKey
  param : ParamKey → CfgKey
  ignored : CfgKey

abbrev or_ignored : Option ParamKey → CfgKey
or_ignored none = ignored
or_ignored (some key) = param key

unfoldable pub cfg_key : Bytes → CfgKey
cfg_key k =
    if k == codes "backend" || k == codes "model" || k == codes "agent"
    then switch
    else if k == codes "cwd"
    then cwd
    else or_ignored (param_key k)

-- The loop variables of handleCfg: `p` and `hasParams`.
abbrev pub CfgVars : AgentCore → Type 0
CfgVars C = GenerationParams C.floats.Float × Bool

-- A parameter that does not parse keeps its value.
abbrev or_keep {ℓ} : {A : Type ℓ} → A → Option A → A
or_keep p none = p
or_keep p (some p') = p'

module _ {C : AgentCore} where
  -- cfgContent
  unfoldable pub cfg_content : Session C → Bytes
  cfg_content sess =
      codes "state="
      ++ (C.state sess.core
          ++ (codes "\n"
              ++ (codes "backend="
                  ++ (C.backend_name sess.core
                      ++ (codes "\n"
                          ++ (codes "model="
                              ++ (C.model_name sess.core
                                  ++ (codes "\n"
                                      ++ (codes "agent="
                                          ++ (C.agent_name sess.core
                                              ++ (codes "\n"
                                                  ++ (codes "cwd="
                                                      ++ (C.cwd sess.core
                                                          ++ (codes "\n"
                                                            ++ format_params C.floats (
                                                            C.generation_params
                                                            sess.core)))))))))))))))

  -- An action of the core, on the core of a session.
  abbrev pub on_core {ℓ} :
      {A : Type ℓ} → (C.K → Outcome A × C.K) → Session C → Outcome A × Session C
  on_core act sess = let (r, core) = act sess.core in (r, record sess { core = core })

  -- A switch of the backend, the model or the agent is a command to the core.
  switch_to : Bytes → Bytes → CfgVars C → Act (Session C) (CfgVars C)
  switch_to k [] vars sess = (ok vars, sess)
  switch_to k (c ∷ v) vars sess =
      if C.is_running sess.core
      then (err (codes "cannot switch " ++ (k ++ codes " while agent is running")), sess)
      else (ok vars, submit (codes "/" ++ (k ++ (codes " " ++ (c ∷ v)))) sess)

  change_cwd : Bytes → CfgVars C → Act (Session C) (CfgVars C)
  change_cwd [] vars = pure vars
  change_cwd (c ∷ v) vars = do on_core (C.set_cwd (c ∷ v)); pure vars

  cfg_assign : CfgKey → Bytes → Bytes → CfgVars C → Act (Session C) (CfgVars C)
  unfolding switch_to change_cwd
  cfg_assign switch k v vars = switch_to k v vars
  cfg_assign cwd k v vars = change_cwd v vars
  cfg_assign (param key) k v (p, has_params) = pure (or_keep p (set_param C.floats key v p), true)
  cfg_assign ignored k v vars = pure vars

  cfg_cut : Option (Bytes × Bytes) → CfgVars C → Act (Session C) (CfgVars C)
  unfolding cfg_assign
  cfg_cut none vars = pure vars
  cfg_cut (some (k, v)) vars =
      cfg_assign (cfg_key (trim_space k)) (trim_space k) (trim_space v) vars

  -- One line of the input; an empty line has no "=".
  unfoldable pub cfg_line : Bytes → CfgVars C → Act (Session C) (CfgVars C)
  unfolding cfg_cut
  cfg_line line vars = cfg_cut (cut (trim_space line) b'=') vars

  unfoldable pub cfg_lines : List Bytes → CfgVars C → Act (Session C) (CfgVars C)
  cfg_lines [] vars = pure vars
  cfg_lines (line ∷ rest) vars = do vars' ← cfg_line line vars; cfg_lines rest vars'

  unfoldable pub cfg_finish : CfgVars C → Act (Session C) (Unit {0})
  cfg_finish (p, false) sess = (ok tt, sess)
  cfg_finish (p, true) sess =
      if C.is_running sess.core
      then (err (codes "cannot change params while agent is running"), sess)
      else on_core (C.set_generation_params p) sess

  -- handleCfg
  unfoldable pub handle_cfg : Bytes → Act (Session C) (Unit {0})
  unfolding cfg_lines cfg_line cfg_finish
  handle_cfg input sess =
      (do
        vars ← cfg_lines (split input b'\n') (C.generation_params sess.core, false)
        cfg_finish vars)
        sess
