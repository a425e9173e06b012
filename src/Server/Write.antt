-- ===== src/Server/Write.antt =====
-- write, clunk, isAsyncWrite and handleWrite of server.go.
pub mod Spawn
pub mod Keeps
pub mod Answers
use ollie_9p.Prelude.{
  ℕ, ◌%◌, ◌||◌, Bytes, bytes_eq, ◌==◌, nat_eq, Bool, false, none, some, List, [], ◌∷◌, ◌++◌,
  if◌then◌else◌, codes, length,
}
use ollie_9p.Prelude.Outcome.{Outcome, ok, err, panic, Act, pure}
use ollie_9p.Agent.{AgentCore}
use ollie_9p.Path.{path_base}
use ollie_9p.Server.{
  Fid, Rmsg, rwrite, rclunk, World, ServerConfig, on_disk, get_fid, set_fid, delete_fid,
  session_config,
}
use ollie_9p.Server.Buffer.{write_at}
use ollie_9p.Server.Walk.{bad_fid, or_rerror}
use ollie_9p.SessionStore.Entries.{open_store, session_store}
use ollie_9p.Store.{Store}
use ollie_9p.Store.Flat.{store_write}
use ollie_9p.Store.RunFile.{run_file_store}
use ollie_9p.Text.{has_prefix, trim_prefix, split_n}
use ollie_9p.Text.Space.{trim_space}

module _ {C : AgentCore} {D : Type 0} where
  buffered : ℕ → ℕ → Fid → Bytes → Outcome Bytes → Act (World C D) Rmsg
  buffered conn fid f content (ok buf) w =
      (ok (rwrite (length content)), set_fid conn fid (record f { write_buf = buf }) w)
  buffered conn fid f content (err e) w = (err e, w)
  buffered conn fid f content panic w = (panic, w)

  unfoldable pub write : ℕ → ℕ → ℕ → Bytes → Act (World C D) Rmsg
  unfolding buffered
  write conn fid offset content w = elim (get_fid conn fid w) [
    | none ↦ (ok bad_fid, w)
    | some f ↦ buffered conn fid f content (write_at offset content f.write_buf) w
  ]

-- isAsyncWrite
unfoldable pub is_async_write : Bytes → Bool
is_async_write path =
    if has_prefix path (codes "/s/")
    then (let base = path_base path in
        base == codes "prompt" || base == codes "fifo.in" || base == codes "ctl")
    else false

-- `m == plan9.OWRITE || m == plan9.ORDWR` for the lower two bits of the mode
unfoldable pub is_writable : ℕ → Bool
is_writable mode = mode % 4 == 1 || mode % 4 == 2

module _ {C : AgentCore} {D : Type 0} (cfg : ServerConfig C D) where
  abbrev write_new : Bytes → Act (World C D) (Unit {0})
  write_new [] = pure tt
  write_new (c ∷ input) = store_write (session_store (session_config cfg)) (codes "new") (c ∷ input)

  write_session : List Bytes → Bytes → Act (World C D) (Unit {0})
  write_session (root ∷ id ∷ name ∷ []) input w = elim (open_store (session_config cfg) id w) [
    | ok files ↦ store_write (run_file_store files) name input w
    | err _ ↦ (err (codes "session not found: " ++ id), w)
    | panic ↦ (panic, w)
  ]
  write_session _ input w = (ok tt, w)

  -- handleWrite
  unfoldable pub handle_write : Bytes → Bytes → Act (World C D) (Unit {0})
  unfolding write_session
  handle_write path input =
      let to : Store D → Bytes → Act (World C D) (Unit {0}) =
        λ store name. on_disk (store_write store name input) in
      if path == codes "/s/new"
      then write_new input
      else if has_prefix path (codes "/a/")
      then to cfg.agent_store (path_base path)
      else if has_prefix path (codes "/m/")
      then to cfg.mem_store (path_base path)
      else if has_prefix path (codes "/sk/")
      then to cfg.skill_store (path_base path)
      else if has_prefix path (codes "/t/")
      then to cfg.tool_store.store (trim_prefix path (codes "/t/"))
      else if has_prefix path (codes "/tmp/")
      then to cfg.tmp_store (path_base path)
      else if has_prefix path (codes "/s/")
      then write_session (split_n (trim_prefix path (codes "/")) b'/' 2) input
      else pure tt

  -- The goroutine of an asynchronous write runs at once here; its error is dropped.
  abbrev pub in_background : Outcome (Unit {0}) × World C D → Outcome Rmsg × World C D
  in_background (ok _, w) = (ok rclunk, w)
  in_background (err _, w) = (ok rclunk, w)
  in_background (panic, w) = (panic, w)

  unfoldable pub flush_fid : Bytes → Bytes → Act (World C D) Rmsg
  flush_fid path input w =
      if is_async_write path
      then in_background (handle_write path input w)
      else or_rerror (handle_write path input w) (λ _ w'. (ok rclunk, w'))

  -- A fid that is not known is clunked all the same.
  unfoldable pub clunk : ℕ → ℕ → Act (World C D) Rmsg
  unfolding flush_fid handle_write
  clunk conn fid w = elim (get_fid conn fid w) [
    | none ↦ (ok rclunk, w)
    | some f ↦
        if is_writable f.mode
        then flush_fid f.path (trim_space f.write_buf) (delete_fid conn fid w)
        else (ok rclunk, delete_fid conn fid w)
  ]
