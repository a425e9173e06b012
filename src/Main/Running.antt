-- ===== src/Main/Running.antt =====
-- A server that is running already is left alone.
use ollie_9p.Prelude.{
  Bytes, bytes_eq, bytes_beq, ◌==◌, true, false, List, [], ◌∷◌, ◌++◌, ◌≡◌, if◌then◌else◌, refl, ap,
  ◌∙◌, ◌⊎◌, inl, inr, codes,
}
use ollie_9p.Prelude.Outcome.{ok}
use ollie_9p.Agent.{AgentCore}
use ollie_9p.Main.{is_running, unless_running, dispatch, main_with, main, daemonize}
use ollie_9p.Main.Calls.{
  Call, dials, hangs_up, prints, Flags, returns, exits, done, Process, Run, Host, next, answered,
  perform, call, just,
}
use ollie_9p.Main.RunServer.{run_server}
use ollie_9p.Main.Runs.{bind-returns, Total-at, Later, Later-trans}
use ollie_9p.Main.Ends.{AlwaysReturns, just-Total, just-Later}
use ollie_9p.Path.Clean.{filepath_join}
use ollie_9p.Server.{on_disk}
use ollie_9p.Server.New.{Platform}
use ollie_9p.Store.Os.{Os}

-- The socket of the namespace
abbrev pub socket : {C : AgentCore} {D : Type 0} → Host C D → Bytes
socket host = filepath_join host.namespace (codes "ollie")

abbrev pub already : Bytes
already = codes "olliesrv already running\n"

module _ {C : AgentCore} (os : Os) (platform : Platform C os.Disk) (host : Host C os.Disk)
    (calm : AlwaysReturns os platform host) where
  call-done :
      (c : Call) (p : Process C os.Disk) (content : Bytes)
      → (perform os platform host c p.world.env.disk).0 ≡ ok content
      → (q : Process C os.Disk) × (call os platform host c p ≡ (returns (done content), q))
        × Later p q (c ∷ [])
  unfolding call
  call-done c p content e =
      let (r, w) = on_disk (perform os platform host c) p.world in
      let q : Process C os.Disk = record p { world = w; calls = p.calls ++ (c ∷ []) } in
      (q, ap (λ r. answered r q) e, record { sessions = refl; retired = refl; calls = refl })

  is_running-found :
      (sock content : Bytes) (p : Process C os.Disk)
      → (host.answer (dials sock) p.world.env.disk).0 ≡ ok content
      → (q : Process C os.Disk) × (is_running os platform host sock p ≡ (returns true, q))
        × Later p q (dials sock ∷ hangs_up sock ∷ [])
  unfolding is_running
  is_running-found sock content p e =
      let (q1, e1, l1) = call-done (dials sock) p content e in
      let (u, q2, e2) = Total-at _ q1 (just-Total os platform host calm (hangs_up sock)) in
      (
        q2,
        bind-returns (call os platform host (dials sock)) _ p (done content) q1 _ e1
            (bind-returns (just os platform host (hangs_up sock)) _ q1 u q2 _ e2 refl),
        Later-trans p q1 q2 _ _ l1 (just-Later os platform host (hangs_up sock) q1 u q2 e2),
      )

  unless_running-found :
      (sock content : Bytes) (act : Run C os.Disk (Unit {0})) (p : Process C os.Disk)
      → (host.answer (dials sock) p.world.env.disk).0 ≡ ok content
      → (q : Process C os.Disk) × (unless_running os platform host sock act p ≡ (exits 0, q))
        × Later p q (dials sock ∷ hangs_up sock ∷ prints already ∷ [])
  unless_running-found sock content act p e =
      let (q, e1, l) = is_running-found sock content p e in
      let (u, q', e2) = Total-at _ q (just-Total os platform host calm (prints already)) in
      (
        q',
        bind-returns (is_running os platform host sock) _ p true q _ e1
            (bind-returns (just os platform host (prints already)) _ q u q' _ e2 refl),
        Later-trans p q q' _ _ l (just-Later os platform host (prints already) q u q' e2),
      )

  main-dispatches :
      (program subcmd : Bytes) (args : List Bytes) (flags : Flags) (p : Process C os.Disk)
      → host.parse_flags args ≡ returns flags
      → (host.namespace == []) ≡ false
      → (subcmd == codes "mount") ≡ false
      → main os platform host (program ∷ subcmd ∷ args) p
        ≡ dispatch os platform host subcmd flags
            (socket host)
            (filepath_join host.namespace (codes "ollie.pid"))
            p
  unfolding main main_with
  main-dispatches program subcmd args flags p parsed there other =
      ap (λ r. next r (main_with os platform host subcmd) p) parsed
      ∙ rw (other, main_with) (rw (there, main_with) refl)

  -- What "start" and "fgstart" do where no server is running
  abbrev starts_server : Bytes → Flags → Run C os.Disk (Unit {0})
  starts_server subcmd flags =
      if subcmd == codes "start"
      then daemonize os platform host flags
      else run_server os platform host flags (socket host)
          (filepath_join host.namespace (codes "ollie.pid"))

  dispatch-starts :
      (subcmd : Bytes) (flags : Flags) (p : Process C os.Disk)
      → (subcmd ≡ codes "start") ⊎ (subcmd ≡ codes "fgstart")
      → ((subcmd == codes "mount") ≡ false)
        × (dispatch os platform host subcmd flags
              (socket host)
              (filepath_join host.namespace (codes "ollie.pid"))
              p
            ≡ unless_running os platform host (socket host) (starts_server subcmd flags) p)
  unfolding dispatch bytes_beq
  dispatch-starts subcmd flags p (inl e) = rw e (refl, refl)
  dispatch-starts subcmd flags p (inr e) = rw e (refl, refl)

  -- If each call comes back, the flags are read, there is a namespace and its socket answers, "start"
  -- and "fgstart" start nothing: the process exits with 0, and its only calls are those that find
  -- the server and say so.
  pub main-refuses :
      (program subcmd content : Bytes) (args : List Bytes) (flags : Flags) (p : Process C os.Disk)
      → host.parse_flags args ≡ returns flags
      → (host.namespace == []) ≡ false
      → (subcmd ≡ codes "start") ⊎ (subcmd ≡ codes "fgstart")
      → (host.answer (dials (socket host)) p.world.env.disk).0 ≡ ok content
      → (q : Process C os.Disk) × (main os platform host (program ∷ subcmd ∷ args) p ≡ (exits 0, q))
        × Later p q (dials (socket host) ∷ hangs_up (socket host) ∷ prints already ∷ [])
  main-refuses program subcmd content args flags p parsed there which e =
      let (other, same) = dispatch-starts subcmd flags p which in
      let (q, ends, l) =
        unless_running-found (socket host) content (starts_server subcmd flags) p e in
      (q, main-dispatches program subcmd args flags p parsed there other ∙ same ∙ ends, l)
