-- ===== src/Tests/Requests.antt =====
-- The theorems on requests, at a small server.
use ollie_9p.Prelude.{
  ◌^◌, leb, if◌then◌else◌, take, drop, ℕ, Bytes, bytes_beq, bytes_eq, List, [], ◌∷◌, ◌++◌, codes,
  some, ◌≡◌, refl, arith, get_elem?,
}
use ollie_9p.Prelude.Outcome.{ok, panic}
use ollie_9p.Prelude.Dict
use ollie_9p.Path.{qid_path, path_join, path_parent}
use ollie_9p.Server.{
  Qid, World, tread, rread, tattach, twrite, topen, tclunk, rclunk, get_fid, delete_fid, on_disk,
  session_config,
}
use ollie_9p.Server.Buffer.{write_at}
use ollie_9p.Server.Buffer.Laws.{written, write_at-written, read_pieces, read_pieces-content}
use ollie_9p.Server.Dirs.Page.Laws.{read_pages, flatten, read_pages-entries}
use ollie_9p.Server.Fids.{rename_session-fids}
use ollie_9p.Server.Handle.{handle}
use ollie_9p.Server.Read.{Race}
use ollie_9p.Server.Read.Memory.{handle-tread}
use ollie_9p.Store.Memory.{MemoryStore}
use ollie_9p.Server.Upload.{send, upload-stored}
use ollie_9p.Server.Walk.{walk_names, or_rerror, qid_of}
use ollie_9p.Server.Walk.Laws.{Route, walk_names-Route}
use ollie_9p.SessionStore.{rename_session}
use ollie_9p.Store.Flat.{store_read, store_write}
use ollie_9p.Server.Write.{is_writable}
use ollie_9p.Server.Isolation.{handle-isolates}
use ollie_9p.Server.Lookup.{dir, path_type, root_of}
use ollie_9p.Store.Memory
use ollie_9p.Text.{contains, split_n, cut, trim_prefix, cut_prefix}
use ollie_9p.Text.Space.{trim_space}
use ollie_9p.Tests.World.{echo_core, settings, world, connection, fid_at, session_of}

upload-stored_example :
    handle settings Race.finished 7 (tclunk 1) (
      send settings Race.finished 7 1 0
        (codes "one " ∷ codes "two\n" ∷ [])
        (handle settings Race.finished 7 (topen 1 1) world).1)
    ≡ or_rerror
        (on_disk
          (store_write settings.mem_store (codes "note") (trim_space (codes "one two\n")))
          (delete_fid 7 1 world))
        (λ _ w'. (ok rclunk, w'))
unfolding Dict.lookup contains is_writable
upload-stored_example =
    upload-stored settings Race.finished 7 1 1 (codes "note") (codes "one " ∷ codes "two\n" ∷ [])
      (fid_at (codes "/m/note")) world connection refl refl refl refl refl refl (omega arith)

rename_session-fids_example :
    get_fid 7 2 (rename_session (session_config settings) (codes "one") (codes "three") world).1
    ≡ some (record (fid_at (codes "/s/three/chat")) {
      qid = record { kind = 0; vers = 0; path = qid_path (codes "/s/three/chat") };
    })
unfolding Dict.lookup bytes_beq get_fid
rename_session-fids_example =
    rename_session-fids settings (codes "one") (codes "three") world (session_of (codes "one"))
      (codes "three") refl refl refl refl 7 2 (fid_at (codes "/s/one/chat")) (codes "chat") refl
      refl

read_pages-entries_example :
    read_pages 10 0 5 (flatten ((2 ∷ 0 ∷ 8 ∷ 9 ∷ []) ∷ (3 ∷ 0 ∷ 5 ∷ 6 ∷ 7 ∷ []) ∷ []))
    ≡ flatten ((2 ∷ 0 ∷ 8 ∷ 9 ∷ []) ∷ (3 ∷ 0 ∷ 5 ∷ 6 ∷ 7 ∷ []) ∷ [])
read_pages-entries_example =
    read_pages-entries 5 ((2 ∷ 0 ∷ 8 ∷ 9 ∷ []) ∷ (3 ∷ 0 ∷ 5 ∷ 6 ∷ 7 ∷ []) ∷ [])
      ((omega arith, omega arith, refl), ((omega arith, omega arith, refl), tt))
      (omega arith, (omega arith, tt)) (omega arith) (omega arith)

write_at-written_example :
    (buf' : Bytes) × (write_at 4 (codes "x") (codes "ab") ≡ ok buf')
    × ((i : ℕ) → get_elem? buf' i ≡ written 4 (codes "x") (codes "ab") i)
write_at-written_example = write_at-written 4 (codes "x") (codes "ab") (omega arith)

read_pieces-content_example : read_pieces 4 0 2 (codes "abc") ≡ ok (codes "abc")
read_pieces-content_example = read_pieces-content 2 (codes "abc") (omega arith) (omega arith)

-- A memory with one file, opened
abbrev noted : World echo_core MemoryStore
noted = record world {
  env = record world.env { disk = record { entries = (codes "note", codes "hello") ∷ [] } };
}

handle-tread_example : handle settings Race.finished 7 (tread 1 9223372036854775808 3) noted ≡ (
  if leb (2 ^ 63) 9223372036854775808
      then panic
      else ok (rread (take 3 (drop 9223372036854775808 (codes "hello")))),
  noted,
)
unfolding get_fid Dict.lookup contains store_read Memory.get bytes_beq
handle-tread_example =
    handle-tread settings 7 1 9223372036854775808 3 (codes "note") (codes "hello")
      (fid_at (codes "/m/note")) noted noted refl refl refl refl refl (omega arith)

walk_names-Route_example :
    (more : List Qid) × ((qid_of dir (codes "/m") ∷ []) ≡ [] ++ more)
    × Route settings world (codes "/") (codes "m" ∷ codes "x" ∷ []) more (codes "/m")
unfolding walk_names path_type root_of split_n cut trim_prefix cut_prefix path_join bytes_beq
    path_parent Memory.stat Dict.lookup
walk_names-Route_example =
    walk_names-Route settings (codes "m" ∷ codes "x" ∷ []) (codes "/") [] world
      (qid_of dir (codes "/m") ∷ []) (codes "/m") refl

handle-isolates_example :
    (get_fid 7 2 (handle settings Race.finished 7 (tattach 1) world).1 ≡ get_fid 7 2 world)
    × (get_fid 7 2 (handle settings Race.finished 7 (topen 1 1) world).1 ≡ get_fid 7 2 world)
    × (get_fid 7 2 (handle settings Race.finished 7 (twrite 1 0 (codes "x")) world).1
        ≡ get_fid 7 2 world)
handle-isolates_example = handle-isolates 7 1 7 2 world refl settings Race.finished 1 0 (codes "x")
