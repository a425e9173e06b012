-- ===== src/Session/Cfg/Keeps.antt =====
-- A write to the file "cfg" leaves the session its ID.
use ollie_9p.Prelude.{
  Bytes, bytes_eq, true, false, Option, none, some, List, [], ◌∷◌, ◌++◌, arith, codes,
}
use ollie_9p.Prelude.Keeps.{Keeps, Keeps-bind}
use ollie_9p.Prelude.Outcome.{pure}
use ollie_9p.Agent.{AgentCore}
use ollie_9p.Session.Cfg.{
  CfgVars, CfgKey, switch, cwd, param, ignored, cfg_key, handle_cfg, cfg_lines, cfg_line, cfg_cut,
  cfg_assign, cfg_finish, switch_to, change_cwd, on_core,
}
use ollie_9p.Session.Identity.{HasId, submit-id}
use ollie_9p.Text.{cut, split}
use ollie_9p.Text.Space.{trim_space}

module _ {C : AgentCore} (i : Bytes) where
  switch_to-Keeps : (k v : Bytes) (vars : CfgVars C) → Keeps (HasId C i) (switch_to k v vars)
  unfolding switch_to
  switch_to-Keeps k [] vars s h = h
  switch_to-Keeps k (c ∷ v) vars s h =
      ground (arith, submit-id (codes "/" ++ (k ++ (codes " " ++ (c ∷ v)))) s)

  change_cwd-Keeps : (v : Bytes) (vars : CfgVars C) → Keeps (HasId C i) (change_cwd v vars)
  unfolding change_cwd
  change_cwd-Keeps [] vars = λ s h. h
  change_cwd-Keeps (c ∷ v) vars =
      Keeps-bind (HasId C i) (on_core (C.set_cwd (c ∷ v))) (λ _. pure vars) (λ s h. h)
        (λ _ _ _ _ s h. h)

  cfg_assign-Keeps :
      (key : CfgKey) (k v : Bytes) (vars : CfgVars C) → Keeps (HasId C i) (cfg_assign key k v vars)
  unfolding cfg_assign
  cfg_assign-Keeps switch k v vars = switch_to-Keeps k v vars
  cfg_assign-Keeps cwd k v vars = change_cwd-Keeps v vars
  cfg_assign-Keeps (param key) k v (p, has_params) = λ s h. h
  cfg_assign-Keeps ignored k v vars = λ s h. h

  cfg_cut-Keeps :
      (kv : Option (Bytes × Bytes)) (vars : CfgVars C) → Keeps (HasId C i) (cfg_cut kv vars)
  unfolding cfg_cut
  cfg_cut-Keeps none vars = λ s h. h
  cfg_cut-Keeps (some (k, v)) vars =
      cfg_assign-Keeps (cfg_key (trim_space k)) (trim_space k) (trim_space v) vars

  cfg_lines-Keeps :
      (lines : List Bytes) (vars : CfgVars C) → Keeps (HasId C i) (cfg_lines lines vars)
  unfolding cfg_lines cfg_line
  cfg_lines-Keeps [] vars = λ s h. h
  cfg_lines-Keeps (line ∷ rest) vars =
      Keeps-bind (HasId C i) (cfg_line line vars) (λ vars'. cfg_lines rest vars')
        (cfg_cut-Keeps (cut (trim_space line) b'=') vars)
        (λ _ _ vars' _. cfg_lines-Keeps rest vars')

  cfg_finish-Keeps : (vars : CfgVars C) → Keeps (HasId C i) (cfg_finish vars)
  unfolding cfg_finish
  cfg_finish-Keeps (p, false) s h = h
  cfg_finish-Keeps (p, true) s h = ground (arith, h)

  pub handle_cfg-Keeps : (input : Bytes) → Keeps (HasId C i) (handle_cfg input)
  unfolding handle_cfg
  handle_cfg-Keeps input sess =
      Keeps-bind (HasId C i) (cfg_lines (split input b'\n') (C.generation_params sess.core, false))
        cfg_finish (cfg_lines-Keeps (split input b'\n') (C.generation_params sess.core, false))
        (λ _ _ vars _. cfg_finish-Keeps vars) sess
