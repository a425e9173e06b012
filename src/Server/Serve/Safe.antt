-- ===== src/Server/Serve/Safe.antt =====
-- The invariant of the server holds in all that it can come to.
use ollie_9p.Prelude.{ℕ, Bytes, bytes_eq, nat_eq, false, some, [], ◌≡◌, refl, ap, ◌∙◌, arith}
use ollie_9p.Prelude.Keeps.{Keeps}
use ollie_9p.Prelude.Outcome.{ok}
use ollie_9p.Prelude.Dict
use ollie_9p.Prelude.Dict.{Dict, lookup-insert, lookup-erase, lookup-nil}
use ollie_9p.Agent.{AgentCore}
use ollie_9p.Server.{Fid, ConnState, World, ServerConfig}
use ollie_9p.Server.Handle.Halves.{finish_handler, finish_handler-IsSound, start_handler-IsSound}
use ollie_9p.Server.Write.Spawn.{run_job-Keeps}
use ollie_9p.Server.Serve.{
  Net, Step, accepts, receives, looks, answers, sends, loses, writes, hangs_up, closes, turns, acts,
  drifts, interrupts, shuts, Reach, starts, goes, connect, disconnect,
}
use ollie_9p.Server.Sound.{
  IsSound, IsSound-same, AllLabelled-same, IsLabelled, fid_of, update_pending-IsSound,
}
use ollie_9p.Server.Sound.Sessions.{on_session-Keeps}
use ollie_9p.Session.{Session}
use ollie_9p.Session.Events.{run_turn}
use ollie_9p.Session.Identity.{HasId, run_turn-id}
use ollie_9p.SessionStore.{interrupt_all, shutdown}
use ollie_9p.SessionStore.Keyed.{
  IsKeyed-same, interrupt_all-IsKeyed, kill_all-IsKeyed, kill_all-env,
}

turn-Keeps : (C : AgentCore) (i : Bytes) → Keeps (HasId C i) (λ sess. (ok tt, run_turn sess))
turn-Keeps C i sess e = run_turn-id sess ∙ e

module _ {C : AgentCore} {D : Type 0} where
  shutdown-IsSound : (w : World C D) → IsSound w → IsSound (shutdown w)
  unfolding shutdown
  shutdown-IsSound w h = record {
    keyed = kill_all-IsKeyed (Dict.keys w.sessions) w h.keyed;
    labelled =
        AllLabelled-same w.env _ h.labelled
          (ap (λ e. e.conns) (kill_all-env (Dict.keys w.sessions) w));
  }

  interrupt_all-IsSound : (w : World C D) → IsSound w → IsSound (interrupt_all w)
  unfolding interrupt_all
  interrupt_all-IsSound w h = record {
    keyed = interrupt_all-IsKeyed w h.keyed;
    labelled = AllLabelled-same w.env _ h.labelled refl;
  }

module _ {C : AgentCore} {D : Type 0} where
  connect-IsSound : (conn : ℕ) (w : World C D) → IsSound w → IsSound (connect conn w)
  connect-IsSound conn w h = record {
    keyed = IsKeyed-same w _ h.keyed (unfold connect in refl);
    labelled = record {
      labels = λ c j f e.
          let before : fid_of c j w.env ≡ some f → IsLabelled f = h.labelled.labels c j f in
          unfold connect in
          ground (
            arith,
            before,
            e,
            lookup-insert c conn (record { fids = []; pending = [] }) w.env.conns,
            lookup-nil {V = Fid} j,
          );
    };
  }

  disconnect-IsSound : (conn : ℕ) (w : World C D) → IsSound w → IsSound (disconnect conn w)
  disconnect-IsSound conn w h = record {
    keyed = IsKeyed-same w _ h.keyed (unfold disconnect in refl);
    labelled = record {
      labels = λ c j f e.
          let before : fid_of c j w.env ≡ some f → IsLabelled f = h.labelled.labels c j f in
          unfold disconnect in ground (arith, before, e, lookup-erase c conn w.env.conns);
    };
  }

module _ {C : AgentCore} {D : Type 0} (cfg : ServerConfig C D) where
  Step-IsSound : (s t : Net C D) → Step cfg s t → IsSound s.world → IsSound t.world
  Step-IsSound s _ (accepts conn new) h = connect-IsSound conn s.world h
  Step-IsSound s _ (receives conn tag msg cs there up) h =
      update_pending-IsSound conn (Dict.insert tag false) s.world h
  Step-IsSound s _ (looks before task after e fresh) h =
      start_handler-IsSound task.conn task.msg s.world h
  Step-IsSound s _ (answers race before task after resp job e r) h =
      update_pending-IsSound task.conn (Dict.erase task.tag)
        (finish_handler cfg race task.conn task.half s.world).1
        (finish_handler-IsSound cfg race task.conn task.half s.world h)
  Step-IsSound s _ (sends before r after cs e first there) h = h
  Step-IsSound s _ (loses before r after e first closed) h = h
  Step-IsSound s _ (writes before job after e r) h = run_job-Keeps cfg job s.world h
  Step-IsSound s _ (hangs_up conn) h = h
  Step-IsSound s _ (closes conn hung done) h = disconnect-IsSound conn s.world h
  Step-IsSound s _ (turns id) h =
      on_session-Keeps id (λ sess. (ok tt, run_turn sess)) (turn-Keeps C) s.world h
  Step-IsSound s _ (acts id act keeps) h = on_session-Keeps id act keeps s.world h
  Step-IsSound s _ (drifts disk) h = IsSound-same s.world _ h refl refl
  Step-IsSound s _ interrupts h = interrupt_all-IsSound s.world h
  Step-IsSound s _ shuts h = shutdown-IsSound s.world h

  -- In all that the server comes to from a world without connections and sessions, whatever the
  -- connections, the requests, the order of the parts of their handlers, the writes in the
  -- background, the turns of the sessions and what else is done to a session without changing its
  -- ID, the changes of the disk, InterruptAll and Shutdown: each session stands under its own ID,
  -- and each fid carries the qid of its path.
  pub Reach-IsSound : (disk : D) (s : Net C D) → Reach cfg disk s → IsSound s.world
  Reach-IsSound disk _ starts = record {
    keyed = record { own_id = λ id sess h. absurd (ground (arith, lookup-nil {V = Session C} id)) };
    labelled = record {
      labels = λ conn fid f h. absurd (ground (arith, lookup-nil {V = ConnState} conn));
    };
  }
  Reach-IsSound disk _ (goes s t r step) = Step-IsSound s t step (Reach-IsSound disk s r)
