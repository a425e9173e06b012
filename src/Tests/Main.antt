-- ===== src/Tests/Main.antt =====
-- The theorems on the commands of the program, at a small server.
use ollie_9p.Prelude.{
  ℕ, Bytes, List, ◌++◌, bytes_beq, bytes_eq, true, false, [], ◌∷◌, codes, ◌≡◌, ap, sym, ◌∙◌, refl,
  inl,
}
use ollie_9p.Prelude.Int.{pos}
use ollie_9p.Prelude.Outcome.{Outcome, err, ok}
use ollie_9p.Main.{main}
use ollie_9p.Main.Calls.{
  listens, Call, writes, makes_dir, reads, removes, stats, dials, hangs_up, awaits_signal, prints,
  Flags, returns, exits, Process, Host, perform, call, just,
}
use ollie_9p.Main.RunServer.{set_up, mount_point, run_server}
use ollie_9p.Main.Ends.{Ended, LeavesSessions, AlwaysReturns, run_server-Ended}
use ollie_9p.Main.Exits.{run_server-exits}
use ollie_9p.Main.Tame.{NoRemoval}
use ollie_9p.Main.Running.{socket, already, main-refuses}
use ollie_9p.Main.Runs.{Later}
use ollie_9p.Session.Ctl.Panics.{is_panic}
use ollie_9p.Store.Memory.{MemoryStore}
use ollie_9p.Text.Number.{print_nat}
use ollie_9p.Tests.Calls.{memory_disk, platform}
use ollie_9p.Tests.World.{echo_core, session_of, world}

abbrev flags : Flags
flags = record { mount = []; tcp = []; args = [] }

-- Every call succeeds, and by the signal a connection has made one session.
abbrev host : Host echo_core MemoryStore
host = record {
  answer = λ _ d. (ok [], d);
  namespace = codes "/ns";
  executable = codes "/bin/olliesrv";
  home = codes "/home";
  pid = 12;
  scan_pid = λ _. pos 12;
  parse_flags = λ _. returns flags;
  meanwhile = λ w. record w { sessions = (codes "one", session_of (codes "one")) ∷ [] };
  afterwards = λ w. w;
}

abbrev started : Process echo_core MemoryStore
started = record { world = world; calls = [] }

perform-calm :
    (c : Call) (d : MemoryStore) → is_panic (perform memory_disk platform host c d).0 ≡ false
perform-calm (writes p content perm) d = refl
perform-calm (makes_dir p perm) d = refl
perform-calm (reads p) d = refl
perform-calm (removes p) d = refl
perform-calm (stats p) d = refl
perform-calm c d = refl

host-AlwaysReturns : AlwaysReturns memory_disk platform host
host-AlwaysReturns = record {
  comes_back =
      λ c d e. let h : false ≡ true = sym (perform-calm c d) ∙ ap is_panic e in absurd (cc h);
}

host-LeavesSessions : LeavesSessions memory_disk platform host
host-LeavesSessions = record { sessions = λ w. refl; retired = λ w. refl }

abbrev ready : Process echo_core MemoryStore
ready =
    (set_up memory_disk platform host flags (codes "/ns/ollie") (codes "/ns/ollie.pid") started).1

up :
    set_up memory_disk platform host flags (codes "/ns/ollie") (codes "/ns/ollie.pid") started
    ≡ (returns true, ready)
unfolding set_up mount_point call
up = refl

run_server-Ended_example :
    (p' signalled : Process echo_core MemoryStore) × (run_server memory_disk platform host flags
        (codes "/ns/ollie")
        (codes "/ns/ollie.pid")
        started
      ≡ (returns tt, p'))
    × (just memory_disk platform host awaits_signal ready ≡ (returns tt, signalled))
    × Ended memory_disk platform host
        (codes "/ns/ollie")
        (codes "/ns/ollie.pid")
        (host.meanwhile signalled.world)
        p'
run_server-Ended_example =
    run_server-Ended memory_disk platform host host-AlwaysReturns host-LeavesSessions flags
      (codes "/ns/ollie") (codes "/ns/ollie.pid") started ready true up

-- The socket is in use by something that does not answer.
abbrev deaf : Call → MemoryStore → Outcome Bytes × MemoryStore
deaf (listens network addr) d = (err (codes "in use"), d)
deaf c d = (ok [], d)

abbrev deaf_host : Host echo_core MemoryStore
deaf_host = record host { answer = deaf }

abbrev left : Process echo_core MemoryStore
left =
    (run_server memory_disk platform deaf_host flags (codes "/ns/ollie") (codes "/ns/ollie.pid")
      started).1

gone :
    run_server memory_disk platform deaf_host flags
      (codes "/ns/ollie")
      (codes "/ns/ollie.pid")
      started
    ≡ (exits 1, left)
unfolding run_server set_up call
gone = refl

run_server-exits_example :
    ◌≡◌ {A = ℕ} 1 1
    × (before rest : List Call) × (left.calls
        ≡ before ++ (writes (codes "/ns/ollie.pid") (print_nat 12) 0o644 ∷ rest))
    × NoRemoval rest
run_server-exits_example =
    run_server-exits memory_disk platform deaf_host flags (codes "/ns/ollie")
      (codes "/ns/ollie.pid") started 1 left gone

main-refuses_example :
    (q : Process echo_core MemoryStore) × (main memory_disk platform host
        (codes "olliesrv" ∷ codes "start" ∷ [])
        started
      ≡ (exits 0, q))
    × Later started q (dials (socket host) ∷ hangs_up (socket host) ∷ prints already ∷ [])
unfolding bytes_beq
main-refuses_example =
    main-refuses memory_disk platform host host-AlwaysReturns (codes "olliesrv") (codes "start") []
      [] flags started refl refl (inl refl) refl
