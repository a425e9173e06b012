-- ===== src/Server/Read.antt =====
-- read of server.go, with storeReadCtx.
pub mod Keeps
pub mod Answers
pub mod Bounds
pub mod Memory
use ollie_9p.Prelude.{
  ℕ, ◌&&◌, Bytes, bytes_eq, ◌==◌, nat_eq, ltb, Bool, true, false, Option, none, some, List, [], ◌∷◌,
  ◌++◌, if◌then◌else◌, codes,
}
use ollie_9p.Prelude.Outcome.{Outcome, ok, err, panic, Act}
use ollie_9p.Agent.{AgentCore}
use ollie_9p.Path.{path_base}
use ollie_9p.Server.{
  Fid, qt_dir, Rmsg, rread, World, ServerConfig, on_disk, get_fid, set_fid, session_config,
}
use ollie_9p.Server.Buffer.{read_slice}
use ollie_9p.Server.Dirs.{read_dir}
use ollie_9p.Server.Walk.{bad_fid, or_rerror}
use ollie_9p.SessionStore.Entries.{open_store, session_store, session_store_file_mode}
use ollie_9p.Store.{Store}
use ollie_9p.Store.Flat.{store_read, store_blocking_read}
use ollie_9p.Store.RunFile.{RunFileStore, run_file_store}
use ollie_9p.Text.{
  has_prefix, has_suffix, trim_prefix, trim_suffix, cut_prefix, contains, split_n, join,
}

-- What the select of storeReadCtx sees first: the result of the read, the end of the request's
-- context, or the timer. The read goes on to its end in each case.
pub data Race : Type 0 where
  finished : Race
  cancelled : Race
  timed_out : Race

abbrev pub raced {ℓ} : {W : Type ℓ} → Race → Outcome Bytes × W → Outcome Bytes × W
raced finished r = r
raced cancelled (ok _, w) = (err (codes "context canceled"), w)
raced cancelled (err _, w) = (err (codes "context canceled"), w)
raced cancelled (panic, w) = (panic, w)
raced timed_out (ok _, w) = (err (codes "read timeout"), w)
raced timed_out (err _, w) = (err (codes "read timeout"), w)
raced timed_out (panic, w) = (panic, w)

-- isSessionStoreFile
unfoldable pub is_session_store_file : Bytes → Bool
is_session_store_file path = elim (cut_prefix path (codes "/s/")) [
  | none ↦ false
  | some name ↦
      if contains name b'/'
      then false
      else (elim (session_store_file_mode name) [ none ↦ false | some _ ↦ true ])
]

abbrev pub to_rread : Outcome Bytes → Outcome Rmsg
to_rread (ok content) = ok (rread content)
to_rread (err e) = err e
to_rread panic = panic

-- A read's content, or its error, as the answer
abbrev pub serve {ℓ} : {W : Type ℓ} → ℕ → ℕ → Outcome Bytes × W → Outcome Rmsg × W
serve offset count r = or_rerror r (λ content w. (to_rread (read_slice offset count content), w))

module _ {C : AgentCore} {D : Type 0} (cfg : ServerConfig C D) where
  abbrev disk_read : Store D → Bytes → Act (World C D) Bytes
  disk_read store name = on_disk (store_read store name)

  -- The base of a wait is the value of the last one, kept in the fid.
  wait_base_of : Option Fid → Bytes
  wait_base_of none = []
  wait_base_of (some f) = f.wait_base

  keep_base : ℕ → ℕ → Bytes → World C D → World C D
  keep_base conn fid content w = elim (get_fid conn fid w) [
    | none ↦ w
    | some f ↦ set_fid conn fid (record f { wait_base = trim_suffix content (codes "\n") }) w
  ]

  read_wait : ℕ → ℕ → RunFileStore (World C D) → Bytes → ℕ → ℕ → Act (World C D) Rmsg
  unfolding wait_base_of keep_base
  read_wait conn fid files name offset count w =
      or_rerror
        (store_blocking_read (run_file_store files) name (wait_base_of (get_fid conn fid w)) w)
        (λ content w'. (to_rread (read_slice offset count content), keep_base conn fid content w'))

  read_session_file : Race → ℕ → ℕ → RunFileStore (World C D) → Bytes → ℕ → ℕ → Act (World C D) Rmsg
  unfolding read_wait
  read_session_file race conn fid files name offset count w =
      if name == codes "fifo.out" && ltb 0 offset
      then (ok (rread []), w)
      else if has_suffix name (codes "wait")
      then (if ltb 0 offset
          then (ok (rread []), w)
          else read_wait conn fid files name offset count w)
      else serve offset count (raced race (store_read (run_file_store files) name w))

  pub read_session : Race → ℕ → ℕ → List Bytes → ℕ → ℕ → Act (World C D) Rmsg
  unfolding read_session_file
  read_session race conn fid (root ∷ id ∷ name ∷ []) offset count w =
      elim (open_store (session_config cfg) id w) [
        | ok files ↦ read_session_file race conn fid files name offset count w
        | err _ ↦ (ok (rread []), w)
        | panic ↦ (panic, w)
      ]
  read_session race conn fid _ offset count w = (ok (rread []), w)

  unfoldable pub read_file : Race → ℕ → ℕ → Bytes → ℕ → ℕ → Act (World C D) Rmsg
  unfolding read_session
  read_file race conn fid path offset count w =
      let from = λ (store : Store D) (name : Bytes).
        serve offset count (raced race (disk_read store name w)) in
      if is_session_store_file path
      then serve offset count
          (raced race (store_read (session_store (session_config cfg)) (path_base path) w))
      else if path == codes "/backends"
      then serve offset count (ok (join cfg.backends (codes "\n") ++ codes "\n"), w)
      else if path == codes "/help"
      then serve offset count (on_disk cfg.read_help w)
      else if has_prefix path (codes "/a/")
      then from cfg.agent_store (path_base path)
      else if has_prefix path (codes "/p/")
      then from cfg.prompt_store (path_base path)
      else if has_prefix path (codes "/m/")
      then from cfg.mem_store (path_base path)
      else if has_prefix path (codes "/sk/")
      then from cfg.skill_store (path_base path)
      else if has_prefix path (codes "/t/")
      then from cfg.tool_store.store (trim_prefix path (codes "/t/"))
      else if has_prefix path (codes "/u/")
      then from cfg.util_store (path_base path)
      else if has_prefix path (codes "/x/")
      then from cfg.plugin_store (path_base path)
      else if has_prefix path (codes "/tmp/")
      then from cfg.tmp_store (path_base path)
      else if has_prefix path (codes "/tr/")
      then from cfg.transcript_store (path_base path)
      else if has_prefix path (codes "/s/")
      then read_session race conn fid (split_n (trim_prefix path (codes "/")) b'/' 2) offset count w
      else (ok (rread []), w)

  -- What follows once the fid is found and the lock released: whether it is a directory, and its
  -- path, are copies.
  abbrev pub read_found : Race → ℕ → ℕ → Bool → Bytes → ℕ → ℕ → Act (World C D) Rmsg
  read_found race conn fid is_dir path offset count w =
      if is_dir
      then (let (content, w') = read_dir cfg path offset count w in (ok (rread content), w'))
      else read_file race conn fid path offset count w

  -- The kinds that the server gives are 0 and the bit of a directory.
  unfoldable pub read : Race → ℕ → ℕ → ℕ → ℕ → Act (World C D) Rmsg
  unfolding read_file
  read race conn fid offset count w = elim (get_fid conn fid w) [
    | none ↦ (ok bad_fid, w)
    | some f ↦ read_found race conn fid (f.qid.kind == qt_dir) f.path offset count w
  ]
