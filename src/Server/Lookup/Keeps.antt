-- ===== src/Server/Lookup/Keeps.antt =====
-- pathType keeps the invariant of the server.
use ollie_9p.Prelude.{Bytes, bytes_eq, nat_eq, ◌==◌, List, [], ◌∷◌, ◌++◌, arith, codes}
use ollie_9p.Prelude.Keeps.{Keeps, if-Keeps}
use ollie_9p.Prelude.Outcome.{Outcome, ok, err, panic, Act, Outcome-cases, gives, fails, panics}
use ollie_9p.Agent.{AgentCore}
use ollie_9p.Server.Sound.{IsSound, IsSound-same, on_disk-Keeps}
use ollie_9p.Server.Sound.Sessions.{open_store-Keeps}
use ollie_9p.Server.{World, ServerConfig, session_config, on_disk}
use ollie_9p.Server.Lookup.{
  Root, s, a, p, m, sk, t, u, x, tr, tmp, root_of, file_if_ok, type_if_ok, second_type, third_type,
  session_file_type, parts_type, path_type,
}
use ollie_9p.SessionStore.Entries
use ollie_9p.SessionStore.Entries.{open_store}
use ollie_9p.Store.{FileInfo}
use ollie_9p.Store.RunFile
use ollie_9p.Text.{split_n, trim_prefix}

module _ {C : AgentCore} {D : Type 0} where
  file_if_ok-Keeps :
      (r : Outcome FileInfo) (w : World C D) → IsSound w → IsSound (file_if_ok (r, w)).1
  file_if_ok-Keeps (ok _) w h = h
  file_if_ok-Keeps (err _) w h = h
  file_if_ok-Keeps panic w h = h

  type_if_ok-Keeps :
      (r : Outcome FileInfo) (w : World C D) → IsSound w → IsSound (type_if_ok (r, w)).1
  type_if_ok-Keeps (ok _) w h = h
  type_if_ok-Keeps (err _) w h = h
  type_if_ok-Keeps panic w h = h

  on_disk_file-Keeps :
      (act : Act D FileInfo) (w : World C D) → IsSound w → IsSound (file_if_ok (on_disk act w)).1
  on_disk_file-Keeps act w h =
      file_if_ok-Keeps (on_disk act w).0 (on_disk act w).1 (on_disk-Keeps act w h)

  on_disk_type-Keeps :
      (act : Act D FileInfo) (w : World C D) → IsSound w → IsSound (type_if_ok (on_disk act w)).1
  on_disk_type-Keeps act w h =
      type_if_ok-Keeps (on_disk act w).0 (on_disk act w).1 (on_disk-Keeps act w h)

  session_stat-Keeps : (name : Bytes) → Keeps (IsSound {C = C} {D = D}) (Entries.stat name)
  session_stat-Keeps name w h =
      IsSound-same w _ h (unfold Entries.stat in ground arith) (unfold Entries.stat in ground arith)

module _ {C : AgentCore} {D : Type 0} (cfg : ServerConfig C D) where
  second_type-Keeps :
      (root : Root) (name : Bytes) (w : World C D)
      → IsSound w
      → IsSound (second_type cfg root name w).1
  unfolding second_type
  second_type-Keeps s name w h =
      type_if_ok-Keeps (Entries.stat name w).0 (Entries.stat name w).1 (session_stat-Keeps name w h)
  second_type-Keeps u name w h = on_disk_file-Keeps (cfg.util_store.stat_fn name) w h
  second_type-Keeps x name w h = on_disk_file-Keeps (cfg.plugin_store.stat_fn name) w h
  second_type-Keeps tr name w h = on_disk_file-Keeps (cfg.transcript_store.stat_fn name) w h
  second_type-Keeps tmp name w h = on_disk_file-Keeps (cfg.tmp_store.stat_fn name) w h
  second_type-Keeps a name w h = on_disk_file-Keeps (cfg.agent_store.stat_fn name) w h
  second_type-Keeps p name w h = on_disk_file-Keeps (cfg.prompt_store.stat_fn name) w h
  second_type-Keeps m name w h = on_disk_file-Keeps (cfg.mem_store.stat_fn name) w h
  second_type-Keeps sk name w h = on_disk_file-Keeps (cfg.skill_store.stat_fn name) w h
  second_type-Keeps t name w h = on_disk_type-Keeps (cfg.tool_store.store.stat_fn name) w h
  second_type-Keeps _ name w h = h

  session_file_type-Keeps :
      (id name : Bytes) (w : World C D) → IsSound w → IsSound (session_file_type cfg id name w).1
  unfolding session_file_type
  session_file_type-Keeps id name w h =
      elim (Outcome-cases (open_store (session_config cfg) id w)) [
        | gives files e ↦
            rw (e, session_file_type)
              (file_if_ok-Keeps (RunFile.stat files name w).0 (RunFile.stat files name w).1
                ((open_store-Keeps cfg id w files e).1 name w h))
        | fails message e ↦ rw (e, session_file_type) h
        | panics e ↦ rw (e, session_file_type) h
      ]

  third_type-Keeps :
      (root : Root) (name rest : Bytes) (w : World C D)
      → IsSound w
      → IsSound (third_type cfg root name rest w).1
  unfolding third_type
  third_type-Keeps t name rest w h =
      on_disk_type-Keeps (cfg.tool_store.store.stat_fn (name ++ (codes "/" ++ rest))) w h
  third_type-Keeps s id name w h = session_file_type-Keeps id name w h
  third_type-Keeps _ name rest w h = h

  parts_type-Keeps :
      (parts : List Bytes) (w : World C D) → IsSound w → IsSound (parts_type cfg parts w).1
  unfolding parts_type
  parts_type-Keeps [] w h = h
  parts_type-Keeps (root ∷ []) w h = h
  parts_type-Keeps (root ∷ name ∷ []) w h = second_type-Keeps (root_of root) name w h
  parts_type-Keeps (root ∷ name ∷ rest ∷ []) w h = third_type-Keeps (root_of root) name rest w h
  parts_type-Keeps (root ∷ name ∷ rest ∷ more ∷ parts) w h = h

  pub path_type-Keeps : (path : Bytes) → Keeps IsSound (path_type cfg path)
  unfolding path_type
  path_type-Keeps path w h =
      if-Keeps IsSound (path == codes "/") _ _ h
        (parts_type-Keeps (split_n (trim_prefix path (codes "/")) b'/' 2) w h)
