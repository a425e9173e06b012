-- ===== src/Server/Serve.antt =====
-- Serve of server.go, and the life of the server: connections come and go, each request is handled
-- by a goroutine of its own, in any order, and the sessions run beside them. A handler that gives up
-- the lock of its connection on the way is two steps here, and the others one. A panic ends the program, so that no step follows it.
pub mod Safe
use ollie_9p.Prelude.{
  ℕ, Bytes, bytes_eq, nat_eq, ◌==◌, Bool, true, false, Option, none, some, List, [], ◌∷◌, ◌++◌, ◌≡◌,
  ◌≢◌, if◌then◌else◌,
}
use ollie_9p.Prelude.Keeps.{Keeps}
use ollie_9p.Prelude.Outcome.{panic, Outcome, ok, Act}
use ollie_9p.Prelude.Dict
use ollie_9p.Prelude.Dict.{Dict}
use ollie_9p.Agent.{AgentCore}
use ollie_9p.Server.{ConnState, ServerEnv, World, ServerConfig, Tmsg, Rmsg, update_pending}
use ollie_9p.Server.Handle.Halves.{Half, whole, start_handler, finish_handler}
use ollie_9p.Server.Write.Spawn.{Job, run_job}
use ollie_9p.Server.Read.{Race}
use ollie_9p.Session.{Session}
use ollie_9p.Session.Events.{run_turn}
use ollie_9p.Session.Identity.{HasId}
use ollie_9p.SessionStore.{on_session, interrupt_all, shutdown}

-- A request that a goroutine handles: its connection, its tag, the message, and how far it is.
pub record Task : Type 0 where
  pub conn : ℕ
  pub tag : ℕ
  pub msg : Tmsg
  pub half : Half

-- A response, with the connection and the tag of its request, which each handler copies to it
pub record Reply : Type 0 where
  pub conn : ℕ
  pub tag : ℕ
  pub msg : Rmsg

-- `tasks` are the goroutines under way, `responses` what they have handed to the writers of the
-- connections, in this order, and `replies` what was written, the last one first.
-- `jobs` are the writes that go on in goroutines of their own, behind their response, and
-- `hung_up` are the connections whose loop has ended and waits for its goroutines.
pub record Net (C : AgentCore) (D : Type 0) : Type 0 where
  pub world : World C D
  pub tasks : List Task
  pub responses : List Reply
  pub replies : List Reply
  pub jobs : List Job
  pub hung_up : List ℕ

abbrev pub mem_conn : ℕ → List ℕ → Bool
mem_conn c [] = false
mem_conn c (d ∷ ds) = if d == c then true else mem_conn c ds

-- No goroutine of the connection is under way: wg.Wait() returns.
abbrev pub all_done : ℕ → List Task → Bool
all_done c [] = true
all_done c (task ∷ tasks) = if task.conn == c then false else all_done c tasks

-- None of the responses is of the connection.
abbrev none_of : ℕ → List Reply → Bool
none_of c [] = true
none_of c (r ∷ rs) = if r.conn == c then false else none_of c rs

abbrev pub spawned : Option Job → List Job
spawned none = []
spawned (some job) = job ∷ []

module _ {C : AgentCore} {D : Type 0} where
  -- `s.conns = append(s.conns, cs)` with a fresh cs, and its removal
  unfoldable pub connect : ℕ → World C D → World C D
  connect conn w = record w {
    env = record w.env {
      conns = Dict.insert conn (record { fids = []; pending = [] }) w.env.conns;
    };
  }

  unfoldable pub disconnect : ℕ → World C D → World C D
  disconnect conn w = record w { env = record w.env { conns = Dict.erase conn w.env.conns } }

  abbrev pub begin : World C D → Net C D
  begin w = record { world = w; tasks = []; responses = []; replies = []; jobs = []; hung_up = [] }

module _ {C : AgentCore} {D : Type 0} (cfg : ServerConfig C D) where
  pub data Step (s : Net C D) : Net C D → Type 0 where
    accepts :
        (conn : ℕ)
        → Dict.lookup conn s.world.env.conns ≡ none
        → Step s (record s { world = connect conn s.world })
    -- ReadFcall returns a request; its tag is entered, and its goroutine starts.
    receives :
        (conn tag : ℕ) (msg : Tmsg) (cs : ConnState)
        → Dict.lookup conn s.world.env.conns ≡ some cs
        → mem_conn conn s.hung_up ≡ false
        → Step s (record s {
          world = update_pending conn (Dict.insert tag false) s.world;
          tasks = s.tasks ++ (record { conn = conn; tag = tag; msg = msg; half = whole msg } ∷ []);
        })
    -- A goroutine does the part of its handler under the lock of the connection.
    looks :
        (before : List Task) (task : Task) (after : List Task)
        → s.tasks ≡ before ++ (task ∷ after)
        → task.half ≡ whole task.msg
        → Step s (record s {
          world = (start_handler task.conn task.msg s.world).1;
          tasks =
              before
              ++ (record task { half = (start_handler task.conn task.msg s.world).0 } ∷ after);
        })
    -- Any of the goroutines does the rest of its handler, hands its response to the writer and takes
    -- the tag out.
    answers :
        (race : Race) (before : List Task) (task : Task) (after : List Task) (resp : Rmsg)
        (job : Option Job)
        → s.tasks ≡ before ++ (task ∷ after)
        → (finish_handler cfg race task.conn task.half s.world).0 ≡ ok (resp, job)
        → Step s (record s {
          world =
              update_pending task.conn
                (Dict.erase task.tag)
                (finish_handler cfg race task.conn task.half s.world).1;
          tasks = before ++ after;
          responses = s.responses ++ (record { conn = task.conn; tag = task.tag; msg = resp } ∷ []);
          jobs = s.jobs ++ spawned job;
        })
    -- The writer of a connection writes the oldest response that it has. Serve does not wait for it:
    -- once the connection is closed, what it still has is lost.
    sends :
        (before : List Reply) (r : Reply) (after : List Reply) (cs : ConnState)
        → s.responses ≡ before ++ (r ∷ after)
        → none_of r.conn before ≡ true
        → Dict.lookup r.conn s.world.env.conns ≡ some cs
        → Step s (record s { responses = before ++ after; replies = r ∷ s.replies })
    loses :
        (before : List Reply) (r : Reply) (after : List Reply)
        → s.responses ≡ before ++ (r ∷ after)
        → none_of r.conn before ≡ true
        → Dict.lookup r.conn s.world.env.conns ≡ none
        → Step s (record s { responses = before ++ after })
    -- Any of the writes in the background is done; its error is dropped.
    writes :
        (before : List Job) (job : Job) (after : List Job)
        → s.jobs ≡ before ++ (job ∷ after)
        → (run_job cfg job s.world).0 ≢ panic
        → Step s (record s { world = (run_job cfg job s.world).1; jobs = before ++ after })
    -- ReadFcall fails: the loop ends.
    hangs_up : (conn : ℕ) → Step s (record s { hung_up = conn ∷ s.hung_up })
    closes :
        (conn : ℕ)
        → mem_conn conn s.hung_up ≡ true
        → all_done conn s.tasks ≡ true
        → Step s (record s { world = disconnect conn s.world })
    -- The goroutine of a prompt, and what the agent does to a session meanwhile
    turns :
        (id : Bytes)
        → Step s (record s { world = (on_session id (λ sess. (ok tt, run_turn sess)) s.world).1 })
    acts :
        (id : Bytes) (act : Act (Session C) (Unit {0}))
        → ((i : Bytes) → Keeps (HasId C i) act)
        → Step s (record s { world = (on_session id act s.world).1 })
    -- Other programs change the disk.
    drifts :
        (disk : D)
        → Step s (record s { world = record s.world { env = record s.world.env { disk = disk } } })
    -- InterruptAll and Shutdown of Server, at the end of the program
    interrupts : Step s (record s { world = interrupt_all s.world })
    shuts : Step s (record s { world = shutdown s.world })

  -- What the server can come to from a world without connections and sessions
  pub data Reach (disk : D) : Net C D → Type 0 where
    starts :
        Reach disk
          (begin (record { sessions = []; retired = []; env = record { disk = disk; conns = [] } }))
    goes : (s t : Net C D) → Reach disk s → Step s t → Reach disk t
