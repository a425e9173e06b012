-- ===== src/Server/New/Laws.antt =====
-- A server as New makes it, from its requests down to the files of the operating system.
use ollie_9p.Prelude.{
  ℕ, nat_eq, ◌≤◌, Bytes, bytes_eq, List, [], ◌++◌, ◌≡◌, refl, ap, ◌∙◌, codes, true, false, some,
  length,
}
use ollie_9p.Prelude.Outcome.{ok, ◌>>◌}
use ollie_9p.Prelude.Dict
use ollie_9p.Agent.{AgentCore}
use ollie_9p.Path.{slash}
use ollie_9p.Path.Clean.{filepath_join, filepath_dir}
use ollie_9p.Server.{Fid, ConnState, World, topen, tclunk, rclunk, on_disk, delete_fid}
use ollie_9p.Server.Buffer.{max_alloc}
use ollie_9p.Server.Buffer.Laws.{joined}
use ollie_9p.Server.Handle.{handle}
use ollie_9p.Server.New.{Platform, new_server, default_mem_dir}
use ollie_9p.Server.Read.{Race}
use ollie_9p.Server.Upload.{send, upload-stored}
use ollie_9p.Server.Walk.{or_rerror}
use ollie_9p.Server.Write.{is_writable}
use ollie_9p.Store.Flat.{new_flat_dir, store_write, write_path}
use ollie_9p.Store.Os.{Os}
use ollie_9p.Text.{contains}
use ollie_9p.Text.Space.{trim_space}

module _ {C : AgentCore} (os : Os) (platform : Platform C os.Disk) where
  store_write-mem :
      (name content : Bytes)
      → store_write (new_server os platform).mem_store name content ≡ (
          os.mkdir_all (filepath_dir (filepath_join (default_mem_dir os platform) name)) 0o755
          >> os.write_file (filepath_join (default_mem_dir os platform) name) content 0o644)
  unfolding new_server new_flat_dir store_write write_path
  store_write-mem name content = refl

  -- A client of a server that New has made has a fid of a file directly below /m, with nothing
  -- written yet. If it opens it for writing, sends at most as much data as can be allocated, in
  -- pieces one behind the other, and clunks the fid, then the directory is made if need be and the
  -- data, less the white space around it, written to the file of that name in the memory directory;
  -- the fid is gone, and the answer tells of the error of the operating system.
  pub upload-written :
      (race : Race) (conn fid mode : ℕ) (name : Bytes) (pieces : List Bytes) (f : Fid)
      (w : World C os.Disk) (cs : ConnState)
      → Dict.lookup conn w.env.conns ≡ some cs
      → Dict.lookup fid cs.fids ≡ some f
      → f.path ≡ codes "/m/" ++ name
      → contains name slash ≡ false
      → f.write_buf ≡ []
      → is_writable mode ≡ true
      → length (joined pieces) ≤ max_alloc
      → let path = filepath_join (default_mem_dir os platform) name in
        handle (new_server os platform) race conn (tclunk fid) (
          send
            (new_server os platform)
            race
            conn
            fid
            0
            pieces
            (handle (new_server os platform) race conn (topen fid mode) w).1)
        ≡ or_rerror
            (on_disk
              (os.mkdir_all (filepath_dir path) 0o755
                >> os.write_file path (trim_space (joined pieces)) 0o644)
              (delete_fid conn fid w))
            (λ _ w'. (ok rclunk, w'))
  upload-written race conn fid mode name pieces f w cs online known path plain fresh writable room =
      upload-stored (new_server os platform) race conn fid mode name pieces f w cs online known path
        plain fresh writable room
      ∙ ap (λ act. or_rerror (on_disk act (delete_fid conn fid w)) (λ _ w'. (ok rclunk, w')))
          (store_write-mem name (trim_space (joined pieces)))
