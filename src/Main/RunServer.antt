-- ===== src/Main/RunServer.antt =====
-- runServer of main.go, from the start of the server to its end.
use ollie_9p.Prelude.{Bytes, bytes_eq, Bool, true, false, [], ◌∷◌, ◌++◌, codes}
use ollie_9p.Agent.{AgentCore}
use ollie_9p.Path.Clean.{filepath_join}
use ollie_9p.Server.New.{
  Platform, empty_world, default_mem_dir, default_transcript_dir, default_tmp_dir,
}
use ollie_9p.SessionStore.{interrupt_all, shutdown}
use ollie_9p.Store.Os.{Os}
use ollie_9p.Text.Number.{print_nat}
use ollie_9p.Main.Calls.{
  Answer, prints, complains, makes_dir, runs, starts, waits_for, removes, stats, writes, listens,
  accepts, closes, ensures_defaults, awaits_signal, flushes, Flags, done, failed, Run, Host, ◌>>=◌,
  ◌>>◌, pure, exit, change, call, just,
}

module _ {C : AgentCore} (os : Os) (platform : Platform C os.Disk) (host : Host C os.Disk) where
  open host use {namespace, home}

  -- `if s == "" { s = d }`
  abbrev pub or_else : Bytes → Bytes → Bytes
  or_else [] d = d
  or_else (c ∷ s) d = c ∷ s

  -- `if _, err := os.Stat(sockPath); err == nil { os.Remove(sockPath) }`
  abbrev pub if_there : Bytes → Answer → Run C os.Disk (Unit {0})
  if_there sock_path (done _) = just os platform host (removes sock_path)
  if_there sock_path (failed _) = pure tt

  abbrev pub remove_stale : Bytes → Run C os.Disk (Unit {0})
  remove_stale sock_path = call os platform host (stats sock_path) >>= if_there sock_path

  -- New: the directories, whose errors are dropped, and the empty server
  abbrev pub make_server : Run C os.Disk (Unit {0})
  make_server = do
    just os platform host (makes_dir (default_mem_dir os platform) 0o755)
    just os platform host (makes_dir (default_transcript_dir os platform) 0o755)
    just os platform host (makes_dir (default_tmp_dir os platform) 0o755)
    change (λ w. empty_world os platform w.env.disk)

  -- `fmt.Fprintf(os.Stderr, ...); os.Exit(1)`
  abbrev pub give_up : {A : Type 0} → Bytes → Run C os.Disk A
  give_up message = just os platform host (complains message) >> exit 1

  -- The optional listener on TCP. The accept loop is a goroutine; what it serves is `meanwhile`.
  abbrev pub tcp_heard : Bytes → Answer → Run C os.Disk (Unit {0})
  tcp_heard addr (failed e) = give_up (codes "tcp listen: " ++ (e ++ codes "\n"))
  tcp_heard addr (done _) =
      just os platform host (accepts (codes "tcp") addr)
      >> just os platform host (prints (codes "olliesrv listening on tcp " ++ (addr ++ codes "\n")))

  abbrev pub listen_tcp : Bytes → Run C os.Disk (Unit {0})
  listen_tcp [] = pure tt
  listen_tcp (c ∷ addr) =
      call os platform host (listens (codes "tcp") (c ∷ addr)) >>= tcp_heard (c ∷ addr)

  unfoldable pub mount_point : Flags → Bytes
  mount_point flags = or_else flags.mount (
      or_else (platform.getenv (codes "OLLIE"))
        (filepath_join (filepath_join home (codes "mnt")) (codes "ollie")))

  -- The FUSE mount: the program is kept if it was started.
  abbrev pub fuse_started : Bytes → Answer → Run C os.Disk Bool
  fuse_started mnt (failed e) =
      just os platform host (complains (codes "warning: 9pfuse: " ++ (e ++ codes "\n")))
      >> pure false
  fuse_started mnt (done _) =
      just os platform host (prints (codes "mounted at " ++ (mnt ++ codes "\n"))) >> pure true

  abbrev pub fuse_dir_made : Bytes → Bytes → Answer → Run C os.Disk Bool
  fuse_dir_made sock_path mnt (failed e) =
      just os platform host
        (complains (codes "warning: cannot create mount dir: " ++ (e ++ codes "\n")))
      >> pure false
  fuse_dir_made sock_path mnt (done _) =
      call os platform host (starts (codes "9pfuse") (sock_path ∷ mnt ∷ [])) >>= fuse_started mnt

  abbrev pub start_fuse : Bytes → Bytes → Run C os.Disk Bool
  start_fuse sock_path mnt =
      call os platform host (makes_dir mnt 0o755) >>= fuse_dir_made sock_path mnt

  abbrev pub stop_fuse : Bool → Bytes → Bytes → Run C os.Disk (Unit {0})
  stop_fuse false sock_path mnt = pure tt
  stop_fuse true sock_path mnt = do
    just os platform host (runs (codes "fusermount") (codes "-u" ∷ mnt ∷ []))
    just os platform host (waits_for (codes "9pfuse") (sock_path ∷ mnt ∷ []))

  abbrev pub close_tcp : Bytes → Run C os.Disk (Unit {0})
  close_tcp [] = pure tt
  close_tcp (c ∷ addr) = just os platform host (closes (codes "tcp") (c ∷ addr))

  abbrev pub heard : Flags → Bytes → Answer → Run C os.Disk Bool
  heard flags sock_path (failed e) = give_up (codes "listen: " ++ (e ++ codes "\n"))
  heard flags sock_path (done _) = do
    just os platform host (accepts (codes "unix") sock_path)
    just os platform host (prints (codes "olliesrv listening on " ++ (sock_path ++ codes "\n")))
    listen_tcp flags.tcp
    start_fuse sock_path (mount_point flags)

  -- From the server on: whether 9pfuse was started
  abbrev pub open_server : Flags → Bytes → Run C os.Disk Bool
  open_server flags sock_path = do
    make_server
    call os platform host (listens (codes "unix") sock_path) >>= heard flags sock_path

  -- From the start to the signal
  unfoldable pub set_up : Flags → Bytes → Bytes → Run C os.Disk Bool
  unfolding mount_point
  set_up flags sock_path pid_path = do
    just os platform host ensures_defaults
    remove_stale sock_path
    just os platform host (writes pid_path (print_nat host.pid) 0o644)
    open_server flags sock_path

  abbrev pub let_go : Flags → Bytes → Bool → Run C os.Disk (Unit {0})
  let_go flags sock_path fuse = do
    stop_fuse fuse sock_path (mount_point flags)
    just os platform host (closes (codes "unix") sock_path)
    close_tcp flags.tcp

  abbrev pub clean_up : Bytes → Bytes → Run C os.Disk (Unit {0})
  clean_up sock_path pid_path = do
    just os platform host (removes sock_path)
    just os platform host (removes pid_path)
    just os platform host flushes

  -- From the signal to the end
  unfoldable pub tear_down : Flags → Bytes → Bytes → Bool → Run C os.Disk (Unit {0})
  unfolding mount_point
  tear_down flags sock_path pid_path fuse = do
    change interrupt_all
    change host.afterwards
    just os platform host (prints (codes "shutting down\n"))
    change shutdown
    change host.afterwards
    let_go flags sock_path fuse
    change host.afterwards
    clean_up sock_path pid_path

  -- runServer
  unfoldable pub run_server : Flags → Bytes → Bytes → Run C os.Disk (Unit {0})
  unfolding set_up tear_down
  run_server flags sock_path pid_path = do
    fuse ← set_up flags sock_path pid_path
    just os platform host awaits_signal
    change host.meanwhile
    tear_down flags sock_path pid_path fuse
