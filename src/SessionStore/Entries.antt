-- ===== src/SessionStore/Entries.antt =====
-- The operations of SessionStore in store/session.go that make it a Store: stat, list, openEntry,
-- index and OpenStore.
use mathlib.Core.List.{foldr}
use ollie_9p.Prelude.{
  ℕ, Bytes, bytes_eq, ◌==◌, true, Option, none, some, List, [], ◌∷◌, ◌++◌, if◌then◌else◌, codes,
  map,
}
use ollie_9p.Prelude.Outcome.{Outcome, ok, err, Act, pure, fail}
use ollie_9p.Prelude.Dict
use ollie_9p.Prelude.Dict.{Dict}
use ollie_9p.Agent.{AgentCore}
use ollie_9p.Session.Ctl.{SessionHelper}
use ollie_9p.Session.Files.{new_session_file_store}
use ollie_9p.SessionStore.{
  SessionStore, SessionStoreConfig, on_env, on_session, kill_session, rename_session, del,
}
use ollie_9p.SessionStore.Create.{create_session}
use ollie_9p.Store.{
  FileInfo, synthetic_info, Listing, file_entry, dir_entry, StoreEntry, Store, not_blocking,
  not_found,
}
use ollie_9p.Store.RunFile.{RunFileStore}
use ollie_9p.Text.Order.{sort, sort_by}
use ollie_9p.Text.Space.{trim_space, fields}

-- sessionStoreFiles, in the order of sessionStoreOrder
abbrev pub session_store_files : List (Bytes × ℕ)
session_store_files =
    (codes "new", 0o666)
    ∷ (codes "idx", 0o444)
    ∷ (codes "ls", 0o555)
    ∷ (codes "kill", 0o555)
    ∷ (codes "sh", 0o555)
    ∷ (codes "b", 0o555)
    ∷ (codes "bfg", 0o555)
    ∷ (codes "bbg", 0o555)
    ∷ (codes "cleanup", 0o555)
    ∷ []

-- SessionStoreFileMode; `none` is false
unfoldable pub session_store_file_mode : Bytes → Option ℕ
session_store_file_mode name = Dict.lookup name session_store_files

module _ {C : AgentCore} {E : Type 0} where
  unfoldable pub stat : Bytes → Act (SessionStore C E) FileInfo
  stat name s = elim (session_store_file_mode name) [
    | some mode ↦ (ok (synthetic_info name mode 0), s)
    | none ↦ elim (Dict.lookup name s.sessions) [
      | some _ ↦ (ok (record (synthetic_info name 0o555 0) { is_dir = true }), s)
      | none ↦ (err (not_found name), s)
    ]
  ]

  unfoldable pub list : Listing (SessionStore C E)
  list s = (
    (
      map (λ (name, mode). file_entry name mode) session_store_files
          ++ map (λ id. dir_entry id 0o555) (Dict.keys s.sessions),
      none,
    ),
    s,
  )

  -- One line of the index
  index_line : SessionStore C E → Bytes → Bytes
  index_line s id = elim (Dict.lookup id s.sessions) [
    | none ↦ []
    | some sess ↦
        id
        ++ (codes "\t"
            ++ (C.state sess.core
                ++ (codes "\t"
                    ++ (C.cwd sess.core
                        ++ (codes "\t"
                            ++ (C.backend_name sess.core
                                ++ (codes "\t" ++ (C.model_name sess.core ++ codes "\n"))))))))
  ]

  unfoldable pub index : SessionStore C E → Bytes
  unfolding index_line sort_by
  index s = foldr (λ id rest. index_line s id ++ rest) [] (sort (Dict.keys s.sessions))

module _ {C : AgentCore} {E : Type 0} (cfg : SessionStoreConfig C E) where
  unfoldable pub script_entry :
      Bytes → Option ℕ → Act (SessionStore C E) (StoreEntry (SessionStore C E))
  script_entry name none = fail (not_found name)
  script_entry name (some mode) = pure (record {
    stat_fn = pure (synthetic_info name mode 0);
    read_fn = on_env (cfg.read_file (cfg.cfg_dir ++ (codes "/scripts/s/" ++ name)));
    write_fn = λ _. fail (name ++ codes ": not writable");
    blocking_read_fn = not_blocking;
  })

  -- openEntry
  unfoldable pub open_entry : Bytes → Act (SessionStore C E) (StoreEntry (SessionStore C E))
  unfolding script_entry
  open_entry name =
      if name == codes "new"
      then pure (record {
        stat_fn = pure (synthetic_info (codes "new") 0o666 0);
        read_fn = pure (codes "name=\ncwd=\nbackend=\nmodel=\nagent=\n");
        write_fn = λ content. create_session cfg (fields (trim_space content));
        blocking_read_fn = not_blocking;
      })
      else if name == codes "idx"
      then pure (record {
        stat_fn = pure (synthetic_info (codes "idx") 0o444 0);
        read_fn = λ s. (ok (index s), s);
        write_fn = λ _. fail (codes "idx: read-only");
        blocking_read_fn = not_blocking;
      })
      else script_entry name (session_store_file_mode name)

  -- *SessionStore as a Store
  abbrev pub session_store : Store (SessionStore C E)
  session_store = record {
    stat_fn = stat;
    list_fn = list;
    open_fn = open_entry;
    create_fn = λ _. fail (codes "create not supported for sessions");
    delete_fn = del;
    rename_fn = rename_session cfg;
  }

  -- What OpenStore hands to NewSessionFileStore
  abbrev pub session_helper : Bytes → SessionHelper C (SessionStore C E)
  session_helper id = record {
    on_sess = on_session id;
    kill = λ s. (ok tt, kill_session id s);
    rename = rename_session cfg id;
    save_transcript = λ content. on_env (cfg.save_transcript content);
  }

  -- OpenStore
  unfoldable pub open_store : Bytes → SessionStore C E → Outcome (RunFileStore (SessionStore C E))
  open_store id s = elim (Dict.lookup id s.sessions) [
    | none ↦ err (codes "session not found: " ++ id)
    | some _ ↦ ok (new_session_file_store (session_helper id) cfg.environ)
  ]
