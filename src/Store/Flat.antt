-- ===== src/Store/Flat.antt =====
-- NewFlatDir of store/store.go, and the stores of server.go over a directory: UtilStore and
-- ExecStore pass every call on to a flat store, ToolStore adds the entry "idx" and subdirectories.
use ollie_9p.Prelude.{ℕ, Bytes, bytes_eq, []}
use ollie_9p.Prelude.Outcome.{Act, pure, ◌>>=◌, ◌>>◌}
use ollie_9p.Path.Clean.{filepath_join, filepath_dir}
use ollie_9p.Store.{Store, not_blocking}
use ollie_9p.Store.Os.{Os}

-- storeRead and storeWrite of server.go
unfoldable pub store_read : {S : Type 0} → Store S → Bytes → Act S Bytes
store_read store name = do entry ← store.open_fn name; entry.read_fn

unfoldable pub store_write : {S : Type 0} → Store S → Bytes → Bytes → Act S Unit
store_write store name content = do entry ← store.open_fn name; entry.write_fn content

-- storeBlockingRead of server.go
unfoldable pub store_blocking_read : {S : Type 0} → Store S → Bytes → Bytes → Act S Bytes
store_blocking_read store name base = do entry ← store.open_fn name; entry.blocking_read_fn base

module _ (os : Os) where
  -- os.MkdirAll(filepath.Dir(path), 0755), then os.WriteFile
  unfoldable pub write_path : Bytes → ℕ → Bytes → Act os.Disk Unit
  write_path path perm content = do
    os.mkdir_all (filepath_dir path) 0o755
    os.write_file path content perm

  unfoldable pub new_flat_dir : Bytes → ℕ → Store os.Disk
  unfolding write_path
  new_flat_dir dir perm = record {
    stat_fn = λ name. os.stat (filepath_join dir name);
    list_fn = os.read_dir dir;
    open_fn = λ name. pure (record {
      stat_fn = os.stat (filepath_join dir name);
      read_fn = os.read_file (filepath_join dir name);
      write_fn = write_path (filepath_join dir name) perm;
      blocking_read_fn = not_blocking;
    });
    create_fn = λ name. write_path (filepath_join dir name) perm [];
    delete_fn = λ name. os.remove (filepath_join dir name);
    rename_fn = λ old new. os.rename (filepath_join dir old) (filepath_join dir new);
  }
