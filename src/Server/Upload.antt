-- ===== src/Server/Upload.antt =====
-- A client that writes a file: Topen, a Twrite for each piece, Tclunk.
use ollie_9p.Prelude.{
  ℕ, ◌+◌, ◌≤◌, Bytes, bytes_eq, bytes_beq, nat_eq, true, false, some, List, [], ◌∷◌, ◌++◌, codes,
  length, ◌≡◌, ap, arith, length-append, append_assoc, append-nil,
}
use ollie_9p.Prelude.Outcome.{ok}
use ollie_9p.Prelude.Dict
use ollie_9p.Prelude.Dict.{Dict, lookup-insert, insert-insert, erase-insert}
use ollie_9p.Agent.{AgentCore}
use ollie_9p.Path.{slash, path_base, path_join}
use ollie_9p.Path.Laws.{path_base-path_join}
use ollie_9p.Server.{
  Fid, ConnState, topen, twrite, tclunk, rclunk, World, ServerConfig, on_disk, get_fid, update_fids,
  set_fid, delete_fid,
}
use ollie_9p.Server.Buffer.{max_alloc}
use ollie_9p.Server.Buffer.Laws.{joined, write_at_end}
use ollie_9p.Server.Fids.{get_fid-set_fid}
use ollie_9p.Server.Handle.{handle}
use ollie_9p.Server.Read.{Race}
use ollie_9p.Server.Walk.{open_fid, or_rerror}
use ollie_9p.Server.Write.{write, clunk, flush_fid, handle_write, is_async_write, is_writable}
use ollie_9p.Store.Flat.{store_write}
use ollie_9p.Text.{contains, has_prefix, cut_prefix}
use ollie_9p.Text.Space.{trim_space}

pub base_mem : (name : Bytes) → contains name slash ≡ false → path_base (codes "/m/" ++ name) ≡ name
unfolding path_join bytes_beq
base_mem name plain = path_base-path_join (codes "/m") name plain

module _ {C : AgentCore} {D : Type 0} where
  set_fid-set_fid :
      (conn fid : ℕ) (f g : Fid) (w : World C D) (cs : ConnState)
      → Dict.lookup conn w.env.conns ≡ some cs
      → set_fid conn fid g (set_fid conn fid f w) ≡ set_fid conn fid g w
  unfolding update_fids
  set_fid-set_fid conn fid f g w cs h = ground (
    arith,
    lookup-insert conn conn (record cs { fids = Dict.insert fid f cs.fids }) w.env.conns,
    insert-insert conn (record cs { fids = Dict.insert fid f cs.fids })
        (record cs { fids = Dict.insert fid g (Dict.insert fid f cs.fids) }) w.env.conns,
    insert-insert fid f g cs.fids,
  )

  delete_fid-set_fid :
      (conn fid : ℕ) (f : Fid) (w : World C D) (cs : ConnState)
      → Dict.lookup conn w.env.conns ≡ some cs
      → delete_fid conn fid (set_fid conn fid f w) ≡ delete_fid conn fid w
  unfolding update_fids
  delete_fid-set_fid conn fid f w cs h = ground (
    arith,
    lookup-insert conn conn (record cs { fids = Dict.insert fid f cs.fids }) w.env.conns,
    insert-insert conn (record cs { fids = Dict.insert fid f cs.fids })
        (record cs { fids = Dict.erase fid (Dict.insert fid f cs.fids) }) w.env.conns,
    erase-insert fid f cs.fids,
  )

  write_next :
      (conn fid : ℕ) (piece : Bytes) (f : Fid) (w : World C D) (cs : ConnState)
      → Dict.lookup conn w.env.conns ≡ some cs
      → length f.write_buf + length piece ≤ max_alloc
      → (write conn fid (length f.write_buf) piece (set_fid conn fid f w)).1
        ≡ set_fid conn fid (record f { write_buf = f.write_buf ++ piece }) w
  unfolding write
  write_next conn fid piece f w cs h room = ground (
    arith,
    get_fid-set_fid conn fid conn fid f w cs h,
    write_at_end piece f.write_buf room,
    set_fid-set_fid conn fid f (record f { write_buf = f.write_buf ++ piece }) w cs h,
  )

  module _ (cfg : ServerConfig C D) (race : Race) (conn fid : ℕ) where
    -- The world after a Twrite for each piece, each at the end of the one before.
    unfoldable pub send : ℕ → List Bytes → World C D → World C D
    send offset [] w = w
    send offset (piece ∷ pieces) w =
        send (offset + length piece) pieces (handle cfg race conn (twrite fid offset piece) w).1

    send-set_fid :
        (pieces : List Bytes) (f : Fid) (w : World C D) (cs : ConnState)
        → Dict.lookup conn w.env.conns ≡ some cs
        → length f.write_buf + length (joined pieces) ≤ max_alloc
        → send (length f.write_buf) pieces (set_fid conn fid f w)
          ≡ set_fid conn fid (record f { write_buf = f.write_buf ++ joined pieces }) w
    unfolding send handle
    send-set_fid [] f w cs h room = ground (arith, append-nil f.write_buf)
    send-set_fid (piece ∷ pieces) f w cs h room =
        let f' : Fid = record f { write_buf = f.write_buf ++ piece } in
        ground (
          arith,
          length-append piece (joined pieces),
          length-append f.write_buf piece,
          append_assoc f.write_buf piece (joined pieces),
          write_next conn fid piece f w cs h (omega (arith, length-append piece (joined pieces))),
          send-set_fid pieces f' w cs h,
        )

  module _ (cfg : ServerConfig C D) where
    handle_write_mem :
        (name input : Bytes) (w : World C D)
        → contains name slash ≡ false
        → handle_write cfg (codes "/m/" ++ name) input w
          ≡ on_disk (store_write cfg.mem_store name input) w
    unfolding handle_write bytes_beq has_prefix cut_prefix
    handle_write_mem name input w plain =
        ap (λ (n : Bytes). on_disk {C = C} (store_write cfg.mem_store n input) w)
          (base_mem name plain)

    flush_fid-mem :
        (name input : Bytes) (w : World C D)
        → contains name slash ≡ false
        → flush_fid cfg (codes "/m/" ++ name) input w
          ≡ or_rerror (on_disk (store_write cfg.mem_store name input) w) (λ _ w'. (ok rclunk, w'))
    unfolding flush_fid is_async_write has_prefix cut_prefix
    flush_fid-mem name input w plain =
        ap (λ r. or_rerror {W = World C D} r (λ _ w'. (ok rclunk, w')))
          (handle_write_mem name input w plain)

    clunk-set_fid :
        (conn fid : ℕ) (f : Fid) (w : World C D) (cs : ConnState)
        → Dict.lookup conn w.env.conns ≡ some cs
        → is_writable f.mode ≡ true
        → clunk cfg conn fid (set_fid conn fid f w)
          ≡ flush_fid cfg f.path (trim_space f.write_buf) (delete_fid conn fid w)
    unfolding clunk
    clunk-set_fid conn fid f w cs h writable =
        ground
          (arith, get_fid-set_fid conn fid conn fid f w cs h, delete_fid-set_fid conn fid f w cs h)

    -- A client has a fid of a file directly below /m, with nothing written yet. If it opens it
    -- for writing, sends at most as much data as can be allocated, in pieces one behind the
    -- other, and clunks the fid, the memory store is made to write the data, less the white
    -- space around it, under the name of the file, however the data was cut; the fid is gone,
    -- and the answer tells of the error of the store.
    pub upload-stored :
        (race : Race) (conn fid mode : ℕ) (name : Bytes) (pieces : List Bytes) (f : Fid)
        (w : World C D) (cs : ConnState)
        → Dict.lookup conn w.env.conns ≡ some cs
        → Dict.lookup fid cs.fids ≡ some f
        → f.path ≡ codes "/m/" ++ name
        → contains name slash ≡ false
        → f.write_buf ≡ []
        → is_writable mode ≡ true
        → length (joined pieces) ≤ max_alloc
        → handle cfg race conn
            (tclunk fid)
            (send cfg race conn fid 0 pieces (handle cfg race conn (topen fid mode) w).1)
          ≡ or_rerror
              (on_disk
                (store_write cfg.mem_store name (trim_space (joined pieces)))
                (delete_fid conn fid w))
              (λ _ w'. (ok rclunk, w'))
    unfolding handle open_fid get_fid
    upload-stored race conn fid mode name pieces f w cs online known path plain fresh writable
          room =
        let opened : Fid = record f { mode = mode } in
        let full : Fid = record opened { write_buf = joined pieces } in
        ground (
          arith,
          send-set_fid cfg race conn fid pieces opened w cs online,
          clunk-set_fid conn fid full w cs online writable,
          flush_fid-mem name (trim_space (joined pieces)) (delete_fid conn fid w) plain,
        )
