-- ===== src/Main/Exits.antt =====
-- How runServer exits before its time: what it has done, and what it leaves behind.
use ollie_9p.Prelude.{
  ℕ, Bytes, bytes_eq, List, [], ◌∷◌, ◌++◌, ◌≡◌, refl, ap, sym, ◌∙◌, append_assoc, codes, Bool, true,
  false,
}
use ollie_9p.Agent.{AgentCore}
use ollie_9p.Main.Calls.{
  Call, writes, listens, accepts, prints, complains, makes_dir, removes, stats, ensures_defaults,
  awaits_signal, closes, flushes, Flags, exits, Answer, done, failed, Process, Host, change,
  perform, call, just,
}
use ollie_9p.Main.Ends.{just-Later}
use ollie_9p.Main.RunServer.{
  if_there, remove_stale, make_server, give_up, tcp_heard, listen_tcp, mount_point, fuse_started,
  fuse_dir_made, stop_fuse, close_tcp, let_go, clean_up, heard, open_server, set_up, tear_down,
  run_server,
}
use ollie_9p.Server.{on_disk}
use ollie_9p.Server.New.{Platform}
use ollie_9p.SessionStore.{interrupt_all, shutdown}
use ollie_9p.Store.Os.{Os}
use ollie_9p.Text.Number.{print_nat}
use ollie_9p.Main.Steady.{
  Steady, steady, Steady-at, Steady-bind, pure-Steady, change-Steady, exits_later, exits_earlier,
  answered-Stays,
}
use ollie_9p.Main.Tame.{
  is_removal, NoRemoval, Tame, tame, Tame-at, Tame-bind, pure-Tame, change-Tame, exit-Tame,
  answered-Tidy,
}

module _ {C : AgentCore} (os : Os) (platform : Platform C os.Disk) (host : Host C os.Disk) where
  call-Steady : (c : Call) → Steady (call os platform host c)
  unfolding call
  call-Steady c = steady (λ p.
      let (r, w) = on_disk (perform os platform host c) p.world in
      answered-Stays r (record p { world = w; calls = p.calls ++ (c ∷ []) }))

  just-Steady : (c : Call) → Steady (just os platform host c)
  just-Steady c = Steady-bind (call os platform host c) _ (call-Steady c) (λ _. pure-Steady tt)

  if_there-Steady : (sock : Bytes) (r : Answer) → Steady (if_there os platform host sock r)
  if_there-Steady sock (done _) = just-Steady (removes sock)
  if_there-Steady sock (failed _) = pure-Steady tt

  remove_stale-Steady : (sock : Bytes) → Steady (remove_stale os platform host sock)
  remove_stale-Steady sock =
      Steady-bind (call os platform host (stats sock)) (if_there os platform host sock)
        (call-Steady (stats sock)) (if_there-Steady sock)

  stop_fuse-Steady :
      (fuse : Bool) (sock mnt : Bytes) → Steady (stop_fuse os platform host fuse sock mnt)
  stop_fuse-Steady false sock mnt = pure-Steady tt
  stop_fuse-Steady true sock mnt = Steady-bind _ _ (just-Steady _) (λ _. just-Steady _)

  close_tcp-Steady : (addr : Bytes) → Steady (close_tcp os platform host addr)
  close_tcp-Steady [] = pure-Steady tt
  close_tcp-Steady (c ∷ addr) = just-Steady _

  let_go-Steady :
      (flags : Flags) (sock : Bytes) (fuse : Bool)
      → Steady (let_go os platform host flags sock fuse)
  let_go-Steady flags sock fuse =
      Steady-bind _ _ (stop_fuse-Steady fuse sock (mount_point os platform host flags)) (λ _.
        Steady-bind _ _ (just-Steady (closes (codes "unix") sock))
          (λ _. close_tcp-Steady flags.tcp))

  clean_up-Steady : (sock pid : Bytes) → Steady (clean_up os platform host sock pid)
  clean_up-Steady sock pid =
      Steady-bind _ _ (just-Steady (removes sock))
        (λ _. Steady-bind _ _ (just-Steady (removes pid)) (λ _. just-Steady flushes))

  tear_down-Steady :
      (flags : Flags) (sock pid : Bytes) (fuse : Bool)
      → Steady (tear_down os platform host flags sock pid fuse)
  unfolding tear_down
  tear_down-Steady flags sock pid fuse =
      let later = change-Steady host.afterwards in
      Steady-bind (change interrupt_all) _ (change-Steady interrupt_all) (λ _.
        Steady-bind (change host.afterwards) _ later (λ _.
          Steady-bind (just os platform host (prints (codes "shutting down\n"))) _
            (just-Steady (prints (codes "shutting down\n")))
            (λ _. Steady-bind (change shutdown) _ (change-Steady shutdown) (λ _.
              Steady-bind (change host.afterwards) _ later (λ _.
                Steady-bind _ _ (let_go-Steady flags sock fuse) (λ _.
                  Steady-bind (change host.afterwards) _ later (λ _. clean_up-Steady sock pid)))))))

  call-Tame : (c : Call) → is_removal c ≡ false → Tame (call os platform host c)
  unfolding call
  call-Tame c h = tame (λ p.
      let (r, w) = on_disk (perform os platform host c) p.world in
      answered-Tidy r p (record p { world = w; calls = p.calls ++ (c ∷ []) }) c refl h)

  just-Tame : (c : Call) → is_removal c ≡ false → Tame (just os platform host c)
  just-Tame c h = Tame-bind (call os platform host c) _ (call-Tame c h) (λ _. pure-Tame tt)

  give_up-Tame : {A : Type 0} (message : Bytes) → Tame (give_up os platform host {A = A} message)
  give_up-Tame message =
      Tame-bind (just os platform host (complains message)) _ (just-Tame (complains message) refl)
        (λ _. exit-Tame)

  tcp_heard-Tame : (addr : Bytes) (r : Answer) → Tame (tcp_heard os platform host addr r)
  tcp_heard-Tame addr (failed e) = give_up-Tame _
  tcp_heard-Tame addr (done _) = Tame-bind _ _ (just-Tame _ refl) (λ _. just-Tame _ refl)

  listen_tcp-Tame : (addr : Bytes) → Tame (listen_tcp os platform host addr)
  listen_tcp-Tame [] = pure-Tame tt
  listen_tcp-Tame (c ∷ addr) = Tame-bind _ _ (call-Tame _ refl) (tcp_heard-Tame (c ∷ addr))

  fuse_started-Tame : (mnt : Bytes) (r : Answer) → Tame (fuse_started os platform host mnt r)
  fuse_started-Tame mnt (failed e) = Tame-bind _ _ (just-Tame _ refl) (λ _. pure-Tame false)
  fuse_started-Tame mnt (done _) = Tame-bind _ _ (just-Tame _ refl) (λ _. pure-Tame true)

  fuse_dir_made-Tame :
      (sock mnt : Bytes) (r : Answer) → Tame (fuse_dir_made os platform host sock mnt r)
  fuse_dir_made-Tame sock mnt (failed e) = Tame-bind _ _ (just-Tame _ refl) (λ _. pure-Tame false)
  fuse_dir_made-Tame sock mnt (done _) = Tame-bind _ _ (call-Tame _ refl) (fuse_started-Tame mnt)

  heard-Tame :
      (flags : Flags) (sock : Bytes) (r : Answer) → Tame (heard os platform host flags sock r)
  heard-Tame flags sock (failed e) = give_up-Tame _
  heard-Tame flags sock (done _) =
      Tame-bind _ _ (just-Tame (accepts (codes "unix") sock) refl) (λ _.
        Tame-bind _ _ (just-Tame (prints _) refl) (λ _.
          Tame-bind _ _ (listen_tcp-Tame flags.tcp) (λ _.
            Tame-bind _ _ (call-Tame (makes_dir (mount_point os platform host flags) 0o755) refl)
              (fuse_dir_made-Tame sock (mount_point os platform host flags)))))

  make_server-Tame : Tame (make_server os platform host)
  make_server-Tame = Tame-bind _ _ (just-Tame (makes_dir _ 0o755) refl) (λ _.
      Tame-bind _ _ (just-Tame (makes_dir _ 0o755) refl)
        (λ _. Tame-bind _ _ (just-Tame (makes_dir _ 0o755) refl) (λ _. change-Tame _)))

  open_server-Tame : (flags : Flags) (sock : Bytes) → Tame (open_server os platform host flags sock)
  open_server-Tame flags sock = Tame-bind (make_server os platform host) _ make_server-Tame (λ _.
      Tame-bind (call os platform host (listens (codes "unix") sock)) _ (call-Tame _ refl)
        (heard-Tame flags sock))

  set_up-exits :
      (flags : Flags) (sock pid : Bytes) (p : Process C os.Disk) (c : ℕ) (q : Process C os.Disk)
      → set_up os platform host flags sock pid p ≡ (exits c, q)
      → (c ≡ 1)
        × (before rest : List Call) × (q.calls
            ≡ before ++ (writes pid (print_nat host.pid) 0o644 ∷ rest))
        × NoRemoval rest
  unfolding set_up
  set_up-exits flags sock pid p c q e =
      let write = writes pid (print_nat host.pid) 0o644 in
      let (u1, q1, e1, x1) =
        exits_later (just os platform host ensures_defaults p) _ c q
          (Steady-at _ p (just-Steady ensures_defaults)) e in
      let (u2, q2, e2, x2) =
        exits_later (remove_stale os platform host sock q1) _ c q
          (Steady-at _ q1 (remove_stale-Steady sock)) x1 in
      let (u3, q3, e3, x3) =
        exits_later (just os platform host write q2) _ c q (Steady-at _ q2 (just-Steady write))
          x2 in
      let tidy =
        Tame-at (open_server os platform host flags sock) q3 (open_server-Tame flags sock) in
      let (rest, all, none) = tidy.made in
      (
        tidy.code c (ap (λ r. r.0) x3),
        q2.calls,
        rest,
        ap (λ r. r.1.calls) (sym x3)
            ∙ all
            ∙ ap (λ l. l ++ rest) (just-Later os platform host write q2 u3 q3 e3).calls
            ∙ append_assoc q2.calls (write ∷ []) rest,
        none,
      )

  -- Whenever runServer exits, wherever that is, it does so with 1, after it has written the file
  -- with its process ID, and no call that it has made since then removes a file: this one is left
  -- behind.
  pub run_server-exits :
      (flags : Flags) (sock pid : Bytes) (p : Process C os.Disk) (c : ℕ) (q : Process C os.Disk)
      → run_server os platform host flags sock pid p ≡ (exits c, q)
      → (c ≡ 1)
        × (before rest : List Call) × (q.calls
            ≡ before ++ (writes pid (print_nat host.pid) 0o644 ∷ rest))
        × NoRemoval rest
  unfolding run_server
  run_server-exits flags sock pid p c q e = set_up-exits flags sock pid p c q (
      exits_earlier (set_up os platform host flags sock pid p).0
        (set_up os platform host flags sock pid p).1 _ c q
        (λ fuse.
          Steady-bind (just os platform host awaits_signal) _ (just-Steady awaits_signal) (λ _.
            Steady-bind (change host.meanwhile) _ (change-Steady host.meanwhile)
              (λ _. tear_down-Steady flags sock pid fuse)))
        e)
