-- ===== src/Main/Ends.antt =====
-- How runServer ends.
use mathlib.Core.List.{Memᴰ}
use ollie_9p.Prelude.{
  Bytes, bytes_eq, Bool, true, false, none, some, List, [], ◌∷◌, ◌++◌, ◌≡◌, ◌≢◌, refl, ap, sym, ◌∙◌,
  codes,
}
use ollie_9p.Prelude.Outcome.{Outcome, ok, err, panic}
use ollie_9p.Prelude.Dict
use ollie_9p.Agent.{AgentCore}
use ollie_9p.Main.Calls.{
  Call, removes, flushes, awaits_signal, prints, closes, Flags, returns, Process, Host, ◌>>=◌, pure,
  answered, perform, call, just, change,
}
use ollie_9p.Main.RunServer.{
  set_up, tear_down, run_server, stop_fuse, close_tcp, mount_point, let_go, clean_up,
}
use ollie_9p.Server.{World, on_disk}
use ollie_9p.Server.New.{Platform}
use ollie_9p.Session.{Session, interrupt}
use ollie_9p.SessionStore.{interrupt_all, shutdown, shut_down}
use ollie_9p.SessionStore.Closed.{find-interrupt_all, shutdown-closes}
use ollie_9p.SessionStore.Reach.{find-shutdown}
use ollie_9p.SessionStore.Table.{find}
use ollie_9p.Store.Os.{Os}
use ollie_9p.Main.Runs.{
  passed, inversion, bind-returns, Total, total, Total-at, Total-bind, Later, Later-trans, Quiet,
  quiet, Quiet-at, pure-Quiet, Quiet-bind,
}

module _ {C : AgentCore} (os : Os) (platform : Platform C os.Disk) (host : Host C os.Disk) where
  answered_ends :
      (r : Outcome Bytes) (q : Process C os.Disk) (u : Unit {0}) (p' : Process C os.Disk)
      → ((answered r >>= λ _. pure tt) q ≡ (returns u, p'))
      → p' ≡ q
  answered_ends (ok b) q u p' e = sym (ap (λ x. x.1) e)
  answered_ends (err b) q u p' e = sym (ap (λ x. x.1) e)
  answered_ends panic q u p' e = sym (ap (λ x. x.1) e)

  pub just-Later :
      (c : Call) (p : Process C os.Disk) (u : Unit {0}) (p' : Process C os.Disk)
      → just os platform host c p ≡ (returns u, p')
      → Later p p' (c ∷ [])
  unfolding call
  just-Later c p u p' e =
      let (r, w) = on_disk (perform os platform host c) p.world in
      let q : Process C os.Disk = record p { world = w; calls = p.calls ++ (c ∷ []) } in
      let same : p' ≡ q = answered_ends r q u p' e in
      record {
        sessions = ap (λ x. x.world.sessions) same;
        retired = ap (λ x. x.world.retired) same;
        calls = ap (λ x. x.calls) same;
      }

  just-Quiet : (c : Call) → Quiet (just os platform host c)
  just-Quiet c = quiet (λ p u p' e. (c ∷ [], just-Later c p u p' e))

  stop_fuse-Quiet :
      (fuse : Bool) (sock mnt : Bytes) → Quiet (stop_fuse os platform host fuse sock mnt)
  stop_fuse-Quiet false sock mnt = pure-Quiet tt
  stop_fuse-Quiet true sock mnt = Quiet-bind _ _ (just-Quiet _) (λ _. just-Quiet _)

  close_tcp-Quiet : (addr : Bytes) → Quiet (close_tcp os platform host addr)
  close_tcp-Quiet [] = pure-Quiet tt
  close_tcp-Quiet (c ∷ addr) = just-Quiet _

  -- The last three calls
  cleaned_up :
      (sock pid : Bytes) (p : Process C os.Disk) (u : Unit {0}) (p' : Process C os.Disk)
      → clean_up os platform host sock pid p ≡ (returns u, p')
      → Later p p' (removes sock ∷ removes pid ∷ flushes ∷ [])
  cleaned_up sock pid p u p' e =
      elim (inversion (just os platform host (removes sock)) _ p u p' e) [
        | passed a q e1 e2 ↦ elim (inversion (just os platform host (removes pid)) _ q u p' e2) [
          | passed b r e3 e4 ↦ Later-trans p q p' _ _ (just-Later (removes sock) p a q e1) (
              Later-trans q r p' _ _ (just-Later (removes pid) q b r e3)
                (just-Later flushes r u p' e4))
        ]
      ]

  let_go-Quiet :
      (flags : Flags) (sock : Bytes) (fuse : Bool) → Quiet (let_go os platform host flags sock fuse)
  let_go-Quiet flags sock fuse =
      Quiet-bind _ _ (stop_fuse-Quiet fuse sock (mount_point os platform host flags)) (λ _.
        Quiet-bind _ _ (just-Quiet (closes (codes "unix") sock)) (λ _. close_tcp-Quiet flags.tcp))

  -- What holds once the process has let go of everything: no session is left, each that was there
  -- at the signal has been interrupted and shut down, and the last calls remove the two files.
  pub record Ended (sock pid : Bytes) (w : World C os.Disk) (p : Process C os.Disk) : Type 0 where
    pub empty : (id : Bytes) → find id p.world ≡ none
    pub closed :
        (id : Bytes) (sess : Session C)
        → find id w ≡ some sess
        → Memᴰ (shut_down (interrupt sess)) p.world.retired
    pub removed :
        (before : List Call) × (p.calls ≡ before ++ (removes sock ∷ removes pid ∷ flushes ∷ []))

  -- After the signal the connections leave the sessions alone.
  pub record LeavesSessions : Type 0 where
    pub sessions : (w : World C os.Disk) → (host.afterwards w).sessions ≡ w.sessions
    pub retired : (w : World C os.Disk) → (host.afterwards w).retired ≡ w.retired

  after_shutdown :
      LeavesSessions
      → (flags : Flags) (sock pid : Bytes) (fuse : Bool) (w : World C os.Disk)
        (q : Process C os.Disk) (u : Unit {0}) (p' : Process C os.Disk)
      → q.world.sessions ≡ (interrupt_all w).sessions
      → (change host.afterwards >>= λ _. let_go os platform host flags sock fuse >>= λ _.
            change host.afterwards >>= λ _. clean_up os platform host sock pid)
          (record q { world = shutdown q.world })
        ≡ (returns u, p')
      → Ended sock pid w p'
  after_shutdown alone flags sock pid fuse w q u p' same e =
      let p1 : Process C os.Disk = record q { world = host.afterwards (shutdown q.world) } in
      elim (inversion (let_go os platform host flags sock fuse)
        (λ _. change host.afterwards >>= λ _. clean_up os platform host sock pid) p1 u p' e) [
          | passed a r e1 e2 ↦
              let (xs, quietly) = Quiet-at _ p1 a r (let_go-Quiet flags sock fuse) e1 in
              let r' : Process C os.Disk = record r { world = host.afterwards r.world } in
              let last = cleaned_up sock pid r' u p' e2 in
              record {
                empty = λ id.
                    ap (Dict.lookup id) (
                      last.sessions
                      ∙ alone.sessions r.world
                      ∙ quietly.sessions
                      ∙ alone.sessions (shutdown q.world))
                    ∙ find-shutdown id q.world;
                closed = λ id sess found.
                    rw
                      (last.retired
                        ∙ alone.retired r.world
                        ∙ quietly.retired
                        ∙ alone.retired (shutdown q.world))
                      (shutdown-closes id (interrupt sess) q.world
                        (ap (Dict.lookup id) same ∙ find-interrupt_all id sess w found));
                removed = (r.calls, last.calls);
              }
        ]

  tear_down-Ended :
      LeavesSessions
      → (flags : Flags) (sock pid : Bytes) (fuse : Bool) (p : Process C os.Disk) (u : Unit {0})
        (p' : Process C os.Disk)
      → tear_down os platform host flags sock pid fuse p ≡ (returns u, p')
      → Ended sock pid p.world p'
  unfolding tear_down
  tear_down-Ended alone flags sock pid fuse p u p' e =
      let p1 : Process C os.Disk = record p { world = host.afterwards (interrupt_all p.world) } in
      elim (inversion (just os platform host (prints (codes "shutting down\n"))) _ p1 u p' e) [
        | passed a q e1 e2 ↦
            after_shutdown alone flags sock pid fuse p.world q u p'
              ((just-Later (prints (codes "shutting down\n")) p1 a q e1).sessions
                ∙ alone.sessions (interrupt_all p.world))
              e2
      ]

  -- Each call comes back: it neither panics nor blocks for ever. An error is an answer.
  pub record AlwaysReturns : Type 0 where
    pub comes_back : (c : Call) (d : os.Disk) → (perform os platform host c d).0 ≢ panic

  answered-returns :
      (r : Outcome Bytes) (q : Process C os.Disk)
      → r ≢ panic
      → (answered r >>= λ _. pure tt) q ≡ (returns tt, q)
  answered-returns (ok b) q h = refl
  answered-returns (err e) q h = refl
  answered-returns panic q h = absurd (h refl)

  module _ (calm : AlwaysReturns) where
    pub just-Total : (c : Call) → Total (just os platform host c)
    unfolding call
    just-Total c = total (λ p.
        let (r, w) = on_disk (perform os platform host c) p.world in
        let q : Process C os.Disk = record p { world = w; calls = p.calls ++ (c ∷ []) } in
        (tt, q, answered-returns r q (calm.comes_back c p.world.env.disk)))

    pure-Total : Total (pure {C = C} {D = os.Disk} tt)
    pure-Total = total (λ p. (tt, p, refl))

    change-Total : (f : World C os.Disk → World C os.Disk) → Total (change f)
    change-Total f = total (λ p. (tt, record p { world = f p.world }, refl))

    stop_fuse-Total :
        (fuse : Bool) (sock mnt : Bytes) → Total (stop_fuse os platform host fuse sock mnt)
    stop_fuse-Total false sock mnt = pure-Total
    stop_fuse-Total true sock mnt = Total-bind _ _ (just-Total _) (λ _. just-Total _)

    close_tcp-Total : (addr : Bytes) → Total (close_tcp os platform host addr)
    close_tcp-Total [] = pure-Total
    close_tcp-Total (c ∷ addr) = just-Total _

    let_go-Total :
        (flags : Flags) (sock : Bytes) (fuse : Bool)
        → Total (let_go os platform host flags sock fuse)
    let_go-Total flags sock fuse =
        Total-bind _ _ (stop_fuse-Total fuse sock (mount_point os platform host flags)) (λ _.
          Total-bind _ _ (just-Total (closes (codes "unix") sock)) (λ _. close_tcp-Total flags.tcp))

    clean_up-Total : (sock pid : Bytes) → Total (clean_up os platform host sock pid)
    clean_up-Total sock pid =
        Total-bind _ _ (just-Total (removes sock))
          (λ _. Total-bind _ _ (just-Total (removes pid)) (λ _. just-Total flushes))

    tear_down-Total :
        (flags : Flags) (sock pid : Bytes) (fuse : Bool)
        → Total (tear_down os platform host flags sock pid fuse)
    unfolding tear_down
    tear_down-Total flags sock pid fuse =
        Total-bind (change interrupt_all) _ (change-Total interrupt_all) (λ _.
          Total-bind (change host.afterwards) _ (change-Total host.afterwards) (λ _.
            Total-bind (just os platform host (prints (codes "shutting down\n"))) _
              (just-Total (prints (codes "shutting down\n")))
              (λ _. Total-bind (change shutdown) _ (change-Total shutdown) (λ _.
                Total-bind (change host.afterwards) _ (change-Total host.afterwards) (λ _.
                  Total-bind _ _ (let_go-Total flags sock fuse) (λ _.
                    Total-bind (change host.afterwards) _ (change-Total host.afterwards)
                      (λ _. clean_up-Total sock pid)))))))

    -- If each call comes back (also the wait for 9pfuse), runServer has come to wait for its signal,
    -- and the connections leave the sessions alone after it, then runServer returns; no session is
    -- left, each that was there at the signal, whatever the connections had made of it until then,
    -- has been interrupted, cancelled and its core closed, and the last calls of the process remove
    -- the socket and the file with its ID.
    pub run_server-Ended :
        LeavesSessions
        → (flags : Flags) (sock pid : Bytes) (p ready : Process C os.Disk) (fuse : Bool)
        → set_up os platform host flags sock pid p ≡ (returns fuse, ready)
        → (p' signalled : Process C os.Disk) × (run_server os platform host flags sock pid p
            ≡ (returns tt, p'))
          × (just os platform host awaits_signal ready ≡ (returns tt, signalled))
          × Ended sock pid (host.meanwhile signalled.world) p'
    unfolding run_server
    run_server-Ended alone flags sock pid p ready fuse up =
        let (a, signalled, got) =
          Total-at (just os platform host awaits_signal) ready (just-Total awaits_signal) in
        let served : Process C os.Disk = record signalled {
          world = host.meanwhile signalled.world;
        } in
        let (u, p', end) = Total-at _ served (tear_down-Total flags sock pid fuse) in
        (
          p',
          signalled,
          bind-returns (set_up os platform host flags sock pid) _ p fuse ready _ up
              (bind-returns (just os platform host awaits_signal) _ ready tt signalled _ got end),
          got,
          tear_down-Ended alone flags sock pid fuse served u p' end,
        )
