-- ===== src/Main/Calls.antt =====
-- The process of main.go: its calls, the answers to them, and how its commands are put together.
use ollie_9p.Prelude.{ℕ, Bytes, bytes_eq, List, [], ◌∷◌, ◌++◌}
use ollie_9p.Prelude.Int.{ℤ}
use ollie_9p.Prelude.Outcome.{Outcome, ok, err, panic}
use ollie_9p.Agent.{AgentCore}
use ollie_9p.Server.{World, on_disk}
use ollie_9p.Server.New.{Platform}
use ollie_9p.Store.Os.{Os}

-- What the process asks of the operating system and of packages outside the repository, in the
-- order of the source.
pub data Call : Type 0 where
  -- fmt.Print to the standard output and to the standard error
  prints complains : Bytes → Call
  -- net.Dial("unix", path), and the closing of the connection
  dials hangs_up : Bytes → Call
  makes_dir : Bytes → ℕ → Call
  -- cmd.Run, cmd.Start and cmd.Wait of a program with its arguments
  runs starts waits_for : Bytes → List Bytes → Call
  reads removes stats : Bytes → Call
  writes : Bytes → Bytes → ℕ → Call
  -- syscall.Kill(pid, syscall.SIGTERM)
  terminates : ℕ → Call
  -- net.Listen, the goroutine that accepts connections, and the listener's Close
  listens accepts closes : Bytes → Bytes → Call
  -- env.EnsureDefaults, <-sigChan and sink.Flush
  ensures_defaults awaits_signal flushes : Call

-- The variables of package flag, and the arguments that are left over
pub record Flags : Type 0 where
  pub mount : Bytes
  pub tcp : Bytes
  pub args : List Bytes

-- How a command ends: it returns, it calls os.Exit, or it does neither, by a panic or in a call that
-- blocks for ever.
pub data End (A : Type 0) : Type 0 where
  returns : A → End A
  exits : ℕ → End A
  stuck : End A

-- The answer to a call: what it gives, or its error
pub data Answer : Type 0 where
  done failed : Bytes → Answer

-- The process: the world of its server, whose disk all calls share, and the calls so far.
pub record Process (C : AgentCore) (D : Type 0) : Type 0 where
  pub world : World C D
  pub calls : List Call

abbrev pub Run : AgentCore → Type 0 → Type 0 → Type 0
Run C D A = Process C D → End A × Process C D

-- What main.go takes from outside. `answer` is for the calls that package os does not answer:
-- "starts" gives the process ID in decimal digits. The outcome `panic` stands for a call that does
-- not come back, as it panics or blocks for ever. `meanwhile` is what becomes of the world while the
-- server serves its connections until the signal, and `afterwards` what they do to it between any
-- two calls of the shutdown, since they are served to the end of the process.
pub record Host (C : AgentCore) (D : Type 0) : Type 0 where
  pub answer : Call → D → Outcome Bytes × D
  -- client.Namespace(), os.Executable() and os.UserHomeDir(), each "" if it fails
  pub namespace : Bytes
  pub executable : Bytes
  pub home : Bytes
  -- os.Getpid(), and fmt.Sscanf with "%d", which leaves 0 where there is no number
  pub pid : ℕ
  pub scan_pid : Bytes → ℤ
  -- flag.CommandLine.Parse, which exits where it cannot go on
  pub parse_flags : List Bytes → End Flags
  pub meanwhile : World C D → World C D
  pub afterwards : World C D → World C D

module _ {C : AgentCore} {D : Type 0} where
  abbrev pub next : {A B : Type 0} → End A → (A → Run C D B) → Run C D B
  next (returns a) f p = f a p
  next (exits code) f p = (exits code, p)
  next stuck f p = (stuck, p)

  infixl 5 ◌>>=◌ ◌>>◌
  abbrev pub ◌>>=◌ : {A B : Type 0} → Run C D A → (A → Run C D B) → Run C D B
  ◌>>=◌ m f p = let (r, p') = m p in next r f p'

  abbrev pub ◌>>◌ : {A B : Type 0} → Run C D A → Run C D B → Run C D B
  m >> n = m >>= λ _. n

  abbrev pub pure : {A : Type 0} → A → Run C D A
  pure a p = (returns a, p)

  -- os.Exit
  abbrev pub exit : {A : Type 0} → ℕ → Run C D A
  exit code p = (exits code, p)

  abbrev pub answered : Outcome Bytes → Run C D Answer
  answered (ok content) p = (returns (done content), p)
  answered (err e) p = (returns (failed e), p)
  answered panic p = (stuck, p)

  abbrev pub change : (World C D → World C D) → Run C D (Unit {0})
  change f p = (returns tt, record p { world = f p.world })

module _ {C : AgentCore} (os : Os) (platform : Platform C os.Disk) (host : Host C os.Disk) where
  abbrev no_content : {A D : Type 0} → Outcome A × D → Outcome Bytes × D
  no_content (ok _, d) = (ok [], d)
  no_content (err e, d) = (err e, d)
  no_content (panic, d) = (panic, d)

  -- The calls of package os go to the operating system.
  abbrev pub perform : Call → os.Disk → Outcome Bytes × os.Disk
  perform (reads path) d = os.read_file path d
  perform (removes path) d = no_content (os.remove path d)
  perform (writes path content perm) d = no_content (os.write_file path content perm d)
  perform (makes_dir path perm) d = no_content (os.mkdir_all path perm d)
  perform (stats path) d = no_content (os.stat path d)
  perform c d = host.answer c d

  unfoldable pub call : Call → Run C os.Disk Answer
  call c p =
      let (r, w) = on_disk (perform c) p.world in
      answered r (record p { world = w; calls = p.calls ++ (c ∷ []) })

  -- A call whose answer is dropped
  abbrev pub just : Call → Run C os.Disk (Unit {0})
  just c = call c >> pure tt
