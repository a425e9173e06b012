-- ===== src/Server/Read/Keeps.antt =====
-- read keeps the invariant of the server.
use ollie_9p.Prelude.{
  Bool, ℕ, Bytes, bytes_eq, nat_eq, ltb, ◌==◌, ◌&&◌, List, [], ◌∷◌, ◌++◌, codes, Option-cases, inl,
  inr,
}
use ollie_9p.Prelude.Keeps.{Keeps, if-Keeps}
use ollie_9p.Prelude.Outcome.{Outcome, ok, err, panic, Outcome-cases, gives, fails, panics}
use ollie_9p.Agent.{AgentCore}
use ollie_9p.Server.Sound.{IsSound, on_disk-Keeps, set_fid-IsSound}
use ollie_9p.Server.Sound.Sessions.{open_store-Keeps, session_store-Keeps}
use ollie_9p.Path.{path_base}
use ollie_9p.Server.{World, ServerConfig, get_fid, on_disk, session_config, qt_dir}
use ollie_9p.Server.Dirs.Keeps.{read_dir-Keeps}
use ollie_9p.Server.Read.{
  read_found, Race, finished, cancelled, timed_out, raced, is_session_store_file, serve, disk_read,
  wait_base_of, keep_base, read_wait, read_session_file, read_session, read_file, read,
}
use ollie_9p.Server.Read
use ollie_9p.Server.Walk.Keeps.{or_rerror-Keeps, IsLabelled-get_fid}
use ollie_9p.SessionStore.Entries.{open_store, session_store}
use ollie_9p.Store.{Store}
use ollie_9p.Store.Flat.{store_read, store_blocking_read}
use ollie_9p.Store.Keeps.{KeepsOpen, store_read-Keeps, store_blocking_read-Keeps}
use ollie_9p.Store.RunFile.{RunFileStore, run_file_store}
use ollie_9p.Text.{has_suffix, trim_prefix, trim_suffix, split_n, join}

raced-Keeps {ℓ} :
    {W : Type ℓ} (P : W → Type 0) (race : Race) (r : Outcome Bytes) (w : W)
    → P w
    → P (raced race (r, w)).1
raced-Keeps P finished r w h = h
raced-Keeps P cancelled (ok _) w h = h
raced-Keeps P cancelled (err _) w h = h
raced-Keeps P cancelled panic w h = h
raced-Keeps P timed_out (ok _) w h = h
raced-Keeps P timed_out (err _) w h = h
raced-Keeps P timed_out panic w h = h

serve-Keeps {ℓ} :
    {W : Type ℓ} (P : W → Type 0) (offset count : ℕ) (r : Outcome Bytes) (w : W)
    → P w
    → P (serve offset count (r, w)).1
serve-Keeps P offset count (ok content) w h = h
serve-Keeps P offset count (err e) w h = h
serve-Keeps P offset count panic w h = h

served-Keeps {ℓ} :
    {W : Type ℓ} (P : W → Type 0) (offset count : ℕ) (race : Race) (r : Outcome Bytes × W)
    → P r.1
    → P (serve offset count (raced race r)).1
served-Keeps P offset count race (r, w) h =
    serve-Keeps P offset count (raced race (r, w)).0 (raced race (r, w)).1
      (raced-Keeps P race r w h)

module _ {C : AgentCore} {D : Type 0} (cfg : ServerConfig C D) where
  keep_base-Keeps :
      (conn fid : ℕ) (content : Bytes) (w : World C D)
      → IsSound w
      → IsSound (keep_base cfg conn fid content w)
  unfolding keep_base
  keep_base-Keeps conn fid content w h = elim (Option-cases (get_fid conn fid w)) [
    | inl e ↦ rw (e, keep_base) h
    | inr (f, e) ↦
        rw (e, keep_base)
          (set_fid-IsSound conn fid (record f { wait_base = trim_suffix content (codes "\n") }) w
            (IsLabelled-get_fid conn fid f w h e) h)
  ]

  module _ (race : Race) (conn fid : ℕ) where
    module _ (files : RunFileStore (World C D))
        (k : KeepsOpen IsSound (run_file_store files).open_fn) (name : Bytes)
        (offset count : ℕ) where
      read_wait-Keeps : Keeps IsSound (read_wait cfg conn fid files name offset count)
      unfolding read_wait
      read_wait-Keeps w h =
          let base = wait_base_of cfg (get_fid conn fid w) in
          let waited = store_blocking_read (run_file_store files) name base w in
          let h' : IsSound waited.1 =
            store_blocking_read-Keeps IsSound (run_file_store files) k name base w h in
          or_rerror-Keeps IsSound waited.0 waited.1 _ h'
            (λ content. keep_base-Keeps conn fid content waited.1 h')

      read_session_file-Keeps :
          Keeps IsSound (read_session_file cfg race conn fid files name offset count)
      unfolding read_session_file
      read_session_file-Keeps w h =
          if-Keeps IsSound (name == codes "fifo.out" && ltb 0 offset) _ _ h (
            if-Keeps IsSound (has_suffix name (codes "wait")) _ _
              (if-Keeps IsSound (ltb 0 offset) _ _ h (read_wait-Keeps w h))
              (served-Keeps IsSound offset count race (store_read (run_file_store files) name w)
                (store_read-Keeps IsSound (run_file_store files) k name w h)))

    read_session-Keeps :
        (parts : List Bytes) (offset count : ℕ)
        → Keeps IsSound (read_session cfg race conn fid parts offset count)
    unfolding read_session
    read_session-Keeps (root ∷ id ∷ name ∷ []) offset count w h =
        elim (Outcome-cases (open_store (session_config cfg) id w)) [
          | gives files e ↦
              rw (e, read_session)
                (read_session_file-Keeps files (open_store-Keeps cfg id w files e).0 name offset
                  count w h)
          | fails m e ↦ rw (e, read_session) h
          | panics e ↦ rw (e, read_session) h
        ]
    read_session-Keeps _ offset count w h = h

    read_file_all :
        (P : World C D → Type 0) (path : Bytes) (offset count : ℕ) (w : World C D)
        → P w
        → ((store : Store D) (name : Bytes)
            → P (serve offset count (raced race (disk_read cfg store name w))).1)
        → P
            (serve offset count
              (raced race (store_read (session_store (session_config cfg)) (path_base path) w))).1
        → P (serve offset count (ok (join cfg.backends (codes "\n") ++ codes "\n"), w)).1
        → P (serve offset count (on_disk cfg.read_help w)).1
        → P
            (read_session cfg race conn fid
              (split_n (trim_prefix path (codes "/")) b'/' 2)
              offset
              count
              w).1
        → P (read_file cfg race conn fid path offset count w).1
    unfolding read_file
    read_file_all P path offset count w h disk table backends help files =
        search (if-Keeps P) depth 24

    read_file-Keeps :
        (path : Bytes) (offset count : ℕ)
        → Keeps IsSound (read_file cfg race conn fid path offset count)
    read_file-Keeps path offset count w h =
        read_file_all IsSound path offset count w h
          (λ store name.
            served-Keeps IsSound offset count race (disk_read cfg store name w)
              (on_disk-Keeps (store_read store name) w h))
          (served-Keeps IsSound offset count race
            (store_read (session_store (session_config cfg)) (path_base path) w)
            (store_read-Keeps IsSound (session_store (session_config cfg)) (session_store-Keeps cfg)
              (path_base path) w h))
          h
          (serve-Keeps IsSound offset count (on_disk cfg.read_help w).0 (on_disk cfg.read_help w).1
            (on_disk-Keeps cfg.read_help w h))
          (read_session-Keeps (split_n (trim_prefix path (codes "/")) b'/' 2) offset count w h)

    pub read_found-Keeps :
        (is_dir : Bool) (path : Bytes) (offset count : ℕ)
        → Keeps IsSound (read_found cfg race conn fid is_dir path offset count)
    read_found-Keeps is_dir path offset count w h =
        if-Keeps IsSound is_dir _ _ (read_dir-Keeps cfg path offset count w h)
          (read_file-Keeps path offset count w h)

    pub read-Keeps : (offset count : ℕ) → Keeps IsSound (read cfg race conn fid offset count)
    unfolding read
    read-Keeps offset count w h = elim (Option-cases (get_fid conn fid w)) [
      | inl e ↦ rw (e, Read.read) h
      | inr (f, e) ↦
          rw (e, Read.read) (read_found-Keeps (f.qid.kind == qt_dir) f.path offset count w h)
    ]
