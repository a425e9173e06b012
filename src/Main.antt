-- ===== src/Main.antt =====
-- main.go: the command line of olliesrv and its commands.
pub mod Calls
pub mod Runs
pub mod RunServer
pub mod Ends
pub mod Steady
pub mod Tame
pub mod Exits
pub mod Running
use ollie_9p.Prelude.{
  ℕ, zero, suc, Bytes, bytes_eq, ◌==◌, Bool, true, false, Option, none, some, List, [], ◌∷◌, ◌++◌,
  if◌then◌else◌, codes,
}
use ollie_9p.Prelude.Int.{ℤ, pos, negsuc}
use ollie_9p.Prelude.Outcome.{Outcome, ok, err, panic}
use ollie_9p.Agent.{AgentCore}
use ollie_9p.Path.Clean.{filepath_join}
use ollie_9p.Server.{World, on_disk}
use ollie_9p.Server.New.{Platform, new_world}
use ollie_9p.SessionStore.{interrupt_all, shutdown}
use ollie_9p.Store.Os.{Os}
use ollie_9p.Text.Number.{print_nat}
use ollie_9p.Main.Calls.{
  Call, prints, complains, dials, hangs_up, makes_dir, runs, starts, waits_for, reads, removes,
  stats, writes, terminates, listens, accepts, closes, ensures_defaults, awaits_signal, flushes,
  Flags, End, returns, exits, stuck, Answer, done, failed, Process, Run, Host, next, ◌>>=◌, ◌>>◌,
  pure, exit, answered, change, perform, call, just,
}
use ollie_9p.Main.RunServer.{
  or_else, remove_stale, listen_tcp, mount_point, start_fuse, stop_fuse, close_tcp, set_up, let_go,
  clean_up, tear_down, run_server,
}

abbrev usage : Bytes
usage = codes "usage: olliesrv <start|fgstart|stop|status|mount>\n"

module _ {C : AgentCore} (os : Os) (platform : Platform C os.Disk) (host : Host C os.Disk) where
  open host use {namespace, home}

  -- isRunning
  unfoldable pub is_running : Bytes → Run C os.Disk Bool
  is_running sock_path = do
    r ← call os platform host (dials sock_path)
    elim r [
      | done _ ↦ just os platform host (hangs_up sock_path) >> pure true
      | failed _ ↦ pure false
    ]

  -- flag.Arg: "" behind the last argument
  abbrev first : List Bytes → Bytes
  first [] = []
  first (arg ∷ args) = arg

  mount_at : Bytes → Bytes → Run C os.Disk (Unit {0})
  mount_at addr mnt = do
    r ← call os platform host (makes_dir mnt 0o755)
    elim r [
      | failed e ↦
          just os platform host (complains (codes "cannot create mount dir: " ++ (e ++ codes "\n")))
          >> exit 1
      | done _ ↦ do
        ran ← call os platform host (runs (codes "9pfuse") (addr ∷ mnt ∷ []))
        elim ran [
          | failed e ↦
              just os platform host (complains (codes "9pfuse: " ++ (e ++ codes "\n"))) >> exit 1
          | done _ ↦
              just os platform host
                (prints (codes "mounted " ++ (addr ++ (codes " at " ++ (mnt ++ codes "\n")))))
        ]
    ]

  -- cmdMount
  unfoldable pub cmd_mount : List Bytes → Run C os.Disk (Unit {0})
  unfolding mount_at
  cmd_mount [] =
      just os platform host (complains (codes "usage: olliesrv mount <address> [mountpoint]\n"))
      >> exit 1
  cmd_mount (addr ∷ rest) = mount_at addr (
      or_else os platform host (first rest) (filepath_join (filepath_join home (codes "mnt")) addr))

  option_args : Bytes → Bytes → List Bytes
  option_args name [] = []
  option_args name (c ∷ value) = name ∷ (c ∷ value) ∷ []

  abbrev server_args : Flags → List Bytes
  server_args flags =
      codes "fgstart"
      ∷ (option_args (codes "-mount") flags.mount ++ option_args (codes "-tcp") flags.tcp)

  -- daemonize. Setsid is part of the call.
  unfoldable pub daemonize : Flags → Run C os.Disk (Unit {0})
  unfolding option_args
  daemonize flags = do
    r ← call os platform host (starts host.executable (server_args flags))
    elim r [
      | failed e ↦
          just os platform host (complains (codes "failed to start: " ++ (e ++ codes "\n")))
          >> exit 1
      | done pid ↦
          just os platform host (prints (codes "olliesrv started (pid " ++ (pid ++ codes ")\n")))
    ]

  -- `if pid > 0 { syscall.Kill(pid, syscall.SIGTERM) }`
  unfoldable pub terminate : ℤ → Run C os.Disk (Unit {0})
  terminate (pos zero) = pure tt
  terminate (pos (suc n)) = just os platform host (terminates (suc n))
  terminate (negsuc n) = pure tt

  -- stopServer
  unfoldable pub stop_server : Bytes → Bytes → Run C os.Disk (Unit {0})
  unfolding terminate
  stop_server sock_path pid_path = do
    r ← call os platform host (reads pid_path)
    elim r [
      | failed _ ↦ just os platform host (prints (codes "olliesrv not running\n"))
      | done content ↦ do
        terminate (host.scan_pid content)
        just os platform host (removes sock_path)
        just os platform host (removes pid_path)
        just os platform host (prints (codes "olliesrv stopped\n"))
    ]

  -- A server that is there already is left alone.
  abbrev unless_running : Bytes → Run C os.Disk (Unit {0}) → Run C os.Disk (Unit {0})
  unless_running sock_path act = is_running sock_path >>= λ running.
      if running
      then just os platform host (prints (codes "olliesrv already running\n")) >> exit 0
      else act

  abbrev status : Bytes → Run C os.Disk (Unit {0})
  status sock_path = is_running sock_path >>= λ running.
      if running
      then just os platform host (prints (codes "olliesrv running\n"))
      else just os platform host (prints (codes "olliesrv not running\n")) >> exit 1

  -- The second switch of main
  dispatch : Bytes → Flags → Bytes → Bytes → Run C os.Disk (Unit {0})
  unfolding daemonize is_running run_server stop_server
  dispatch subcmd flags sock_path pid_path =
      if subcmd == codes "start"
      then unless_running sock_path (daemonize flags)
      else if subcmd == codes "fgstart"
      then unless_running sock_path (run_server os platform host flags sock_path pid_path)
      else if subcmd == codes "stop"
      then stop_server sock_path pid_path
      else if subcmd == codes "status"
      then status sock_path
      else just os platform host (complains usage) >> exit 1

  main_with : Bytes → Flags → Run C os.Disk (Unit {0})
  unfolding dispatch cmd_mount
  main_with subcmd flags =
      if subcmd == codes "mount"
      then cmd_mount flags.args
      else if namespace == []
      then just os platform host (complains (codes "no namespace\n")) >> exit 1
      else dispatch subcmd flags (filepath_join namespace (codes "ollie"))
          (filepath_join namespace (codes "ollie.pid"))

  -- main, with os.Args
  unfoldable pub main : List Bytes → Run C os.Disk (Unit {0})
  unfolding main_with
  main [] = just os platform host (complains usage) >> exit 1
  main (program ∷ []) = just os platform host (complains usage) >> exit 1
  main (program ∷ subcmd ∷ args) = (λ p. (host.parse_flags args, p)) >>= main_with subcmd
