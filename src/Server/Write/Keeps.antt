-- ===== src/Server/Write/Keeps.antt =====
-- write and clunk keep the invariant of the server.
use ollie_9p.Prelude.{ℕ, Bytes, bytes_eq, nat_eq, List, [], ◌∷◌, codes, Option-cases, inl, inr}
use ollie_9p.Prelude.Keeps.{Keeps, if-Keeps, if_at-Keeps}
use ollie_9p.Prelude.Outcome.{Outcome, ok, err, panic, Outcome-cases, gives, fails, panics}
use ollie_9p.Agent.{AgentCore}
use ollie_9p.Server.Sound.{IsSound, IsLabelled, on_disk-Keeps, set_fid-IsSound, delete_fid-IsSound}
use ollie_9p.Server.Sound.Sessions.{open_store-Keeps, session_store-Keeps}
use ollie_9p.Server.{World, ServerConfig, Fid, rclunk, get_fid, delete_fid, on_disk, session_config}
use ollie_9p.Server.Buffer.{write_at}
use ollie_9p.Server.Walk.Keeps.{or_rerror-Keeps, IsLabelled-get_fid}
use ollie_9p.Server.Write.{
  buffered, write, is_async_write, is_writable, write_new, write_session, handle_write,
  in_background, flush_fid, clunk,
}
use ollie_9p.SessionStore.Entries.{open_store, session_store}
use ollie_9p.Store.{Store}
use ollie_9p.Store.Flat.{store_write}
use ollie_9p.Store.Keeps.{store_write-Keeps}
use ollie_9p.Store.RunFile.{run_file_store}
use ollie_9p.Text.{trim_prefix, split_n}
use ollie_9p.Text.Space.{trim_space}

module _ {C : AgentCore} {D : Type 0} where
  buffered-Keeps :
      (conn fid : ℕ) (f : Fid) (content : Bytes) (r : Outcome Bytes) (w : World C D)
      → IsLabelled f
      → IsSound w
      → IsSound (buffered conn fid f content r w).1
  unfolding buffered
  buffered-Keeps conn fid f content (ok buf) w l h =
      set_fid-IsSound conn fid (record f { write_buf = buf }) w l h
  buffered-Keeps conn fid f content (err e) w l h = h
  buffered-Keeps conn fid f content panic w l h = h

  pub write-Keeps :
      (conn fid offset : ℕ) (content : Bytes)
      → Keeps (IsSound {C = C} {D = D}) (write conn fid offset content)
  unfolding write
  write-Keeps conn fid offset content w h = elim (Option-cases (get_fid conn fid w)) [
    | inl e ↦ rw (e, write) h
    | inr (f, e) ↦
        rw (e, write)
          (buffered-Keeps conn fid f content (write_at offset content f.write_buf) w
            (IsLabelled-get_fid conn fid f w h e) h)
  ]

module _ {C : AgentCore} {D : Type 0} (cfg : ServerConfig C D) where
  write_new-Keeps : (input : Bytes) → Keeps IsSound (write_new cfg input)
  write_new-Keeps [] = λ w h. h
  write_new-Keeps (c ∷ input) =
      store_write-Keeps IsSound (session_store (session_config cfg)) (session_store-Keeps cfg)
        (codes "new") (c ∷ input)

  write_session-Keeps :
      (parts : List Bytes) (input : Bytes) → Keeps IsSound (write_session cfg parts input)
  unfolding write_session
  write_session-Keeps (root ∷ id ∷ name ∷ []) input w h =
      elim (Outcome-cases (open_store (session_config cfg) id w)) [
        | gives files e ↦
            rw (e, write_session)
              (store_write-Keeps IsSound (run_file_store files)
                (open_store-Keeps cfg id w files e).0 name input w h)
        | fails m e ↦ rw (e, write_session) h
        | panics e ↦ rw (e, write_session) h
      ]
  write_session-Keeps _ input w h = h

  handle_write_all :
      (P : World C D → Type 0) (path input : Bytes) (w : World C D)
      → P w
      → ((store : Store D) (name : Bytes) → P (on_disk (store_write store name input) w).1)
      → P (write_new cfg input w).1
      → P (write_session cfg (split_n (trim_prefix path (codes "/")) b'/' 2) input w).1
      → P (handle_write cfg path input w).1
  unfolding handle_write
  handle_write_all P path input w h disk new files = search (if_at-Keeps P) depth 24

  pub handle_write-Keeps : (path input : Bytes) → Keeps IsSound (handle_write cfg path input)
  handle_write-Keeps path input w h =
      handle_write_all IsSound path input w h
        (λ store name. on_disk-Keeps (store_write store name input) w h) (write_new-Keeps input w h)
        (write_session-Keeps (split_n (trim_prefix path (codes "/")) b'/' 2) input w h)

  in_background-Keeps :
      (r : Outcome (Unit {0})) (w : World C D) → IsSound w → IsSound (in_background cfg (r, w)).1
  in_background-Keeps (ok _) w h = h
  in_background-Keeps (err _) w h = h
  in_background-Keeps panic w h = h

  flush_fid-Keeps : (path input : Bytes) → Keeps IsSound (flush_fid cfg path input)
  unfolding flush_fid
  flush_fid-Keeps path input w h =
      let h' : IsSound (handle_write cfg path input w).1 = handle_write-Keeps path input w h in
      if-Keeps IsSound (is_async_write path) _ _
        (in_background-Keeps (handle_write cfg path input w).0 (handle_write cfg path input w).1 h')
        (or_rerror-Keeps IsSound (handle_write cfg path input w).0 (handle_write cfg path input w).1
          (λ _ w'. (ok rclunk, w')) h' (λ _. h'))

  pub clunk-Keeps : (conn fid : ℕ) → Keeps IsSound (clunk cfg conn fid)
  unfolding clunk
  clunk-Keeps conn fid w h = elim (Option-cases (get_fid conn fid w)) [
    | inl e ↦ rw (e, clunk) h
    | inr (f, e) ↦
        rw (e, clunk)
          (if-Keeps IsSound (is_writable f.mode) _ _
            (flush_fid-Keeps f.path (trim_space f.write_buf) (delete_fid conn fid w)
              (delete_fid-IsSound conn fid w h))
            (delete_fid-IsSound conn fid w h))
  ]
