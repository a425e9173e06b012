-- ===== src/Server/Sound/Sessions.antt =====
-- What the operations of the session store, and the files of the sessions, keep of the server.
use ollie_9p.Prelude.{
  ℕ, Bytes, bytes_eq, ◌==◌, Bool, true, false, Option, none, some, List, ◌++◌, ◌≡◌, refl, arith,
  codes, Option-cases, Bool-cases, inl, inr, if◌then◌else◌,
}
use ollie_9p.Prelude.Keeps.{Keeps}
use ollie_9p.Prelude.Outcome.{Outcome, ok, err, panic, Act, pure}
use ollie_9p.Agent.{AgentCore}
use ollie_9p.Server.{ServerEnv, World, ServerConfig, session_config, on_env_disk, core_of}
use ollie_9p.Server.Sound.{
  AllLabelled, AllLabelled-same, AllLabelled-rename_fids, IsSound, IsSound-same,
}
use ollie_9p.Session.{Session}
use ollie_9p.Session.Ctl.{SessionHelper}
use ollie_9p.Session.Ctl.Keeps.{KeepsHelper}
use ollie_9p.Session.Files.{new_session_file_store}
use ollie_9p.Session.Files.Keeps.{session_files-keep, session_file_stat-Keeps}
use ollie_9p.Session.Identity.{HasId}
use ollie_9p.SessionStore.{on_session, on_env, kill_session, del, rename_session, finish_rename}
use ollie_9p.SessionStore.Create.{create_session}
use ollie_9p.SessionStore.Create.Env.{KeepsConfig, create_session-env}
use ollie_9p.SessionStore.Create.Laws.{create_session-IsKeyed}
use ollie_9p.SessionStore.Entries.{
  session_helper, open_store, open_entry, session_store, script_entry, session_store_file_mode,
}
use ollie_9p.SessionStore.Keyed.{
  kill_session-IsKeyed, del-IsKeyed, on_session-IsKeyed, rename_session-IsKeyed,
}
use ollie_9p.SessionStore.Table.{find}
use ollie_9p.Store.{StoreEntry}
use ollie_9p.Text.Space.{trim_space, fields}
use ollie_9p.Store.Keeps.{KeepsEntry, KeepsOpen}
use ollie_9p.Store.RunFile
use ollie_9p.Store.RunFile.{RunFileStore, run_file_store}

module _ {C : AgentCore} {D : Type 0} where
  pub on_session-Keeps :
      {A : Type 0} (id : Bytes) (act : Act (Session C) A)
      → ((i : Bytes) → Keeps (HasId C i) act)
      → Keeps (IsSound {C = C} {D = D}) (on_session id act)
  on_session-Keeps id act keeps w h = record {
    keyed = on_session-IsKeyed id act w keeps h.keyed;
    labelled = AllLabelled-same w.env _ h.labelled (unfold on_session in ground arith);
  }

  pub kill_session-Keeps : (id : Bytes) (w : World C D) → IsSound w → IsSound (kill_session id w)
  kill_session-Keeps id w h = record {
    keyed = kill_session-IsKeyed id w h.keyed;
    labelled = AllLabelled-same w.env _ h.labelled (unfold kill_session in ground arith);
  }

  pub del-Keeps : (id : Bytes) → Keeps (IsSound {C = C} {D = D}) (del id)
  del-Keeps id w h = record {
    keyed = del-IsKeyed id w h.keyed;
    labelled =
        AllLabelled-same w.env _ h.labelled (unfold del in unfold kill_session in ground arith);
  }

module _ {C : AgentCore} {D : Type 0} (cfg : ServerConfig C D) where
  on_env_disk-Keeps : {A : Type 0} (act : Act D A) → Keeps (AllLabelled {D = D}) (on_env_disk act)
  on_env_disk-Keeps act env l = AllLabelled-same env _ l refl

  core-Keeps :
      (given : Option (Bytes → Bytes → Bytes → Act D C.K))
      (make : Bytes → Bytes → Bytes → Act (ServerEnv D) C.K)
      → core_of given ≡ some make
      → (id agent cwd : Bytes) → Keeps (AllLabelled {D = D}) (make id agent cwd)
  core-Keeps none make e = λ id agent cwd. absurd (ground arith)
  core-Keeps (some f) make e = λ id agent cwd.
      let same : (λ id agent cwd. on_env_disk (f id agent cwd)) ≡ make = ground (arith, e) in
      rw (← same) (on_env_disk-Keeps (f id agent cwd))

  config-Keeps : KeepsConfig (session_config cfg) AllLabelled
  config-Keeps = record {
    new_ids = λ env l. AllLabelled-same env _ l refl;
    opens = λ name. on_env_disk-Keeps (cfg.sessions.open_file name);
    makes = λ name perm. on_env_disk-Keeps (cfg.sessions.mkdir_all name perm);
    backends = λ name. on_env_disk-Keeps (cfg.sessions.new_with_name name);
    cores = λ be agent id cwd config.
        on_env_disk-Keeps (cfg.sessions.new_agent_core be agent id cwd config);
    given = core-Keeps cfg.sessions.new_core;
  }

  pub create_session-Keeps :
      (args : List Bytes) → Keeps IsSound (create_session (session_config cfg) args)
  create_session-Keeps args w h = record {
    keyed = create_session-IsKeyed (session_config cfg) args w h.keyed;
    labelled = create_session-env (session_config cfg) AllLabelled config-Keeps args w h.labelled;
  }

  finish_rename-env :
      (old_id new_id : Bytes) (sess : Session C) (r : Outcome (Unit {0})) (core : C.K)
      (w : World C D)
      → AllLabelled w.env
      → AllLabelled (finish_rename (session_config cfg) old_id new_id sess (r, core) w).1.env
  unfolding finish_rename
  finish_rename-env old_id new_id sess (ok _) core w l =
      AllLabelled-rename_fids old_id new_id w.env l
  finish_rename-env old_id new_id sess (err e) core w l = l
  finish_rename-env old_id new_id sess panic core w l = l

  rename_session-env :
      (old_id new_id : Bytes) (w : World C D)
      → AllLabelled w.env
      → AllLabelled (rename_session (session_config cfg) old_id new_id w).1.env
  unfolding rename_session
  rename_session-env old_id new_id w l = elim (Option-cases (find old_id w)) [
    | inl e ↦ AllLabelled-same w.env _ l (ground arith)
    | inr (sess, e) ↦ elim (Option-cases (find new_id w)) [
      | inr (other, e') ↦ AllLabelled-same w.env _ l (ground arith)
      | inl e' ↦ elim (Bool-cases (C.is_running sess.core)) [
        | inl e'' ↦ AllLabelled-same w.env _ l (ground arith)
        | inr e'' ↦
            let (r, core) = C.set_session_id new_id sess.core in
            rw (e, rename_session)
              (rw (e', rename_session)
                (rw (e'', rename_session) (finish_rename-env old_id new_id sess r core w l)))
      ]
    ]
  ]

  pub rename_session-Keeps :
      (old_id new_id : Bytes) → Keeps IsSound (rename_session (session_config cfg) old_id new_id)
  rename_session-Keeps old_id new_id w h = record {
    keyed = rename_session-IsKeyed (session_config cfg) old_id new_id w h.keyed;
    labelled = rename_session-env old_id new_id w h.labelled;
  }

  on_env-Keeps : {A : Type 0} (act : Act D A) → Keeps (IsSound {C = C}) (on_env (on_env_disk act))
  on_env-Keeps act w h = IsSound-same w _ h refl refl

  helper-Keeps : (id : Bytes) → KeepsHelper IsSound (session_helper (session_config cfg) id)
  helper-Keeps id = record {
    on_sess = on_session-Keeps id;
    kills = kill_session-Keeps id;
    renames = rename_session-Keeps id;
    saves = λ content w h. IsSound-same w _ h refl refl;
  }

  -- An opening that gives only entries which keep the invariant, and keeps it itself
  record Opening (open_it : Act (World C D) (StoreEntry (World C D))) : Type 0 where
    opens : Keeps IsSound open_it
    entries :
        (w : World C D) (e : StoreEntry (World C D)) → (open_it w).0 ≡ ok e → KeepsEntry IsSound e

  Opening-if :
      (b : Bool) (x y : Act (World C D) (StoreEntry (World C D)))
      → Opening x
      → Opening y
      → Opening (if b then x else y)
  Opening-if true x y ox oy = ox
  Opening-if false x y ox oy = oy

  Opening-pure : (e : StoreEntry (World C D)) → KeepsEntry IsSound e → Opening (pure e)
  Opening-pure e k = record {
    opens = λ w h. h;
    entries = λ w e' given. let same : e ≡ e' = ground arith in rw (← same) k;
  }

  Opening-script_entry :
      (name : Bytes) (mode : Option ℕ) → Opening (script_entry (session_config cfg) name mode)
  unfolding script_entry
  Opening-script_entry name none = record {
    opens = λ w h. h;
    entries = λ w e given. absurd (ground arith);
  }
  Opening-script_entry name (some mode) = Opening-pure _ (record {
    reads =
        on_env-Keeps
          (cfg.sessions.read_file (cfg.sessions.cfg_dir ++ (codes "/scripts/s/" ++ name)));
    writes = λ content w h. h;
    waits = λ base w h. h;
  })

  Opening-open_entry : (name : Bytes) → Opening (open_entry (session_config cfg) name)
  unfolding open_entry
  Opening-open_entry name =
      Opening-if (name == codes "new") _ _
        (Opening-pure _ (record {
          reads = λ w h. h;
          writes = λ content. create_session-Keeps (fields (trim_space content));
          waits = λ base w h. h;
        }))
        (Opening-if (name == codes "idx") _ _
          (Opening-pure _
            (record { reads = λ w h. h; writes = λ content w h. h; waits = λ base w h. h }))
          (Opening-script_entry name (session_store_file_mode name)))

  pub session_store-Keeps : KeepsOpen IsSound (session_store (session_config cfg)).open_fn
  session_store-Keeps = record {
    opens = λ name. (Opening-open_entry name).opens;
    entries = λ name. (Opening-open_entry name).entries;
  }

  -- The files of a session that is there
  pub open_store-Keeps :
      (id : Bytes) (w : World C D) (files : RunFileStore (World C D))
      → open_store (session_config cfg) id w ≡ ok files
      → KeepsOpen IsSound (run_file_store files).open_fn
        × ((name : Bytes) → Keeps IsSound (RunFile.stat files name))
  unfolding open_store
  open_store-Keeps id w files e = elim (Option-cases (find id w)) [
    | inl gone ↦ absurd (ground arith)
    | inr (sess, there) ↦
        let helper : SessionHelper C (World C D) = session_helper (session_config cfg) id in
        let same : new_session_file_store helper cfg.sessions.environ ≡ files = ground arith in
        rw (← same) (
          (
            session_files-keep IsSound helper cfg.sessions.environ (helper-Keeps id),
            session_file_stat-Keeps IsSound helper cfg.sessions.environ (helper-Keeps id),
          ))
  ]
