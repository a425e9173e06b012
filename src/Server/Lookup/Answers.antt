-- ===== src/Server/Lookup/Answers.antt =====
-- pathType always finds a type, unless a store panics.
use ollie_9p.Prelude.{Bytes, bytes_eq, ◌==◌, List, [], ◌∷◌, ◌++◌, codes}
use ollie_9p.Prelude.Keeps.{either}
use ollie_9p.Prelude.Outcome.{Outcome, ok, err, panic, Outcome-cases, gives, fails, panics}
use ollie_9p.Agent.{AgentCore}
use ollie_9p.Server.{World, ServerConfig, on_disk, session_config}
use ollie_9p.Server.Answers.{Answers, ok-Answers, panic-Answers}
use ollie_9p.Server.Lookup
use ollie_9p.Server.Lookup.{
  PathType, dir, file, absent, Root, root_of, root_type, file_if_ok, type_if_ok, second_type,
  session_file_type, third_type, parts_type, path_type,
}
use ollie_9p.SessionStore.Entries
use ollie_9p.SessionStore.Entries.{open_store}
use ollie_9p.Store.{FileInfo}
use ollie_9p.Store.RunFile
use ollie_9p.Text.{split_n, trim_prefix}

module _ {ℓ} {W : Type ℓ} where
  file_if_ok-Answers : (r : Outcome FileInfo × W) → Answers (file_if_ok r)
  file_if_ok-Answers (ok info, w) = ok-Answers file w
  file_if_ok-Answers (err e, w) = ok-Answers absent w
  file_if_ok-Answers (panic, w) = panic-Answers w

  type_if_ok-Answers : (r : Outcome FileInfo × W) → Answers (type_if_ok r)
  type_if_ok-Answers (ok info, w) = ok-Answers _ w
  type_if_ok-Answers (err e, w) = ok-Answers absent w
  type_if_ok-Answers (panic, w) = panic-Answers w

module _ {C : AgentCore} {D : Type 0} (cfg : ServerConfig C D) where
  second_type-Answers :
      (root : Root) (name : Bytes) (w : World C D) → Answers (second_type cfg root name w)
  unfolding second_type
  second_type-Answers Lookup.s name w = type_if_ok-Answers (Entries.stat name w)
  second_type-Answers Lookup.u name w = file_if_ok-Answers (on_disk (cfg.util_store.stat_fn name) w)
  second_type-Answers Lookup.x name w =
      file_if_ok-Answers (on_disk (cfg.plugin_store.stat_fn name) w)
  second_type-Answers Lookup.tr name w =
      file_if_ok-Answers (on_disk (cfg.transcript_store.stat_fn name) w)
  second_type-Answers Lookup.tmp name w =
      file_if_ok-Answers (on_disk (cfg.tmp_store.stat_fn name) w)
  second_type-Answers Lookup.a name w =
      file_if_ok-Answers (on_disk (cfg.agent_store.stat_fn name) w)
  second_type-Answers Lookup.p name w =
      file_if_ok-Answers (on_disk (cfg.prompt_store.stat_fn name) w)
  second_type-Answers Lookup.m name w = file_if_ok-Answers (on_disk (cfg.mem_store.stat_fn name) w)
  second_type-Answers Lookup.sk name w =
      file_if_ok-Answers (on_disk (cfg.skill_store.stat_fn name) w)
  second_type-Answers Lookup.t name w =
      type_if_ok-Answers (on_disk (cfg.tool_store.store.stat_fn name) w)
  second_type-Answers _ name w = ok-Answers absent w

  session_file_type-Answers :
      (id name : Bytes) (w : World C D) → Answers (session_file_type cfg id name w)
  unfolding session_file_type
  session_file_type-Answers id name w =
      elim (Outcome-cases (open_store (session_config cfg) id w)) [
        | gives files e ↦ rw (e, session_file_type) (file_if_ok-Answers (RunFile.stat files name w))
        | fails m e ↦ rw (e, session_file_type) (ok-Answers absent w)
        | panics e ↦ rw (e, session_file_type) (panic-Answers w)
      ]

  third_type-Answers :
      (root : Root) (name rest : Bytes) (w : World C D) → Answers (third_type cfg root name rest w)
  unfolding third_type
  third_type-Answers Lookup.t name rest w =
      type_if_ok-Answers (on_disk (cfg.tool_store.store.stat_fn (name ++ (codes "/" ++ rest))) w)
  third_type-Answers Lookup.s name rest w = session_file_type-Answers name rest w
  third_type-Answers _ name rest w = ok-Answers absent w

  parts_type-Answers : (parts : List Bytes) (w : World C D) → Answers (parts_type cfg parts w)
  unfolding parts_type
  parts_type-Answers (root ∷ []) w = ok-Answers (root_type (root_of root)) w
  parts_type-Answers (root ∷ name ∷ []) w = second_type-Answers (root_of root) name w
  parts_type-Answers (root ∷ name ∷ rest ∷ []) w = third_type-Answers (root_of root) name rest w
  parts_type-Answers _ w = ok-Answers absent w

  pub path_type-Answers : (path : Bytes) (w : World C D) → Answers (path_type cfg path w)
  unfolding path_type
  path_type-Answers path w =
      either Answers (path == codes "/") _ _ (ok-Answers dir w)
        (parts_type-Answers (split_n (trim_prefix path (codes "/")) b'/' 2) w)
