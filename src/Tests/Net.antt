-- ===== src/Tests/Net.antt =====
-- The theorems on connections and on all requests, at a small server.
use ollie_9p.Prelude.{codes, true, bytes_eq, [], ◌∷◌, none, some, ◌≡◌, ◌⊎◌, refl, false, nat_eq}
use ollie_9p.Prelude.Outcome.{panic, ok}
use ollie_9p.Prelude.Dict
use ollie_9p.Prelude.Dict.{lookup-nil}
use ollie_9p.Server.{new_fid, update_fids, Rmsg, tattach, tclunk, rattach, update_pending}
use ollie_9p.Server.Handle.{handle}
use ollie_9p.Server.Answers.{is_reply}
use ollie_9p.Server.Handle.Answers.{handle_responds}
use ollie_9p.Server.Handle.Halves.{whole, start_handler, finish_handler}
use ollie_9p.Server.Handle.Spawn.{handle_spawns}
use ollie_9p.Server.Handle.Keeps.{handle-IsSound}
use ollie_9p.Server.Read.{finished}
use ollie_9p.Server.Serve.{
  Net, Task, begin, connect, accepts, receives, looks, answers, Reach, starts, goes,
}
use ollie_9p.Server.Serve.Safe.{Reach-IsSound}
use ollie_9p.Server.Sound.{IsSound}
use ollie_9p.Server.Walk.{attach, root_qid}
use ollie_9p.Store.Memory.{MemoryStore}
use ollie_9p.Tests.World.{echo_core, settings}

abbrev no_files : MemoryStore
no_files = record { entries = [] }

-- A connection, its Tattach, and the answer
abbrev start : Net echo_core MemoryStore
start = begin (record { sessions = []; retired = []; env = record { disk = no_files; conns = [] } })

abbrev connected : Net echo_core MemoryStore
connected = record start { world = connect 7 start.world }

abbrev attaching : Task
attaching = record { conn = 7; tag = 5; msg = tattach 3; half = whole (tattach 3) }

abbrev pending : Net echo_core MemoryStore
pending = record connected {
  world = update_pending 7 (Dict.insert 5 false) connected.world;
  tasks = attaching ∷ [];
}

abbrev attached : Net echo_core MemoryStore
attached = record pending {
  world =
      update_pending 7 (Dict.erase 5)
        (finish_handler settings finished 7 (whole (tattach 3)) pending.world).1;
  tasks = [];
  responses = record { conn = 7; tag = 5; msg = rattach root_qid } ∷ [];
}

attach_answered :
    (finish_handler settings finished 7 (whole (tattach 3)) pending.world).0
    ≡ ok (rattach root_qid, none)
unfolding finish_handler handle_spawns handle attach
attach_answered = refl

there : Dict.lookup 7 connected.world.env.conns ≡ some (record { fids = []; pending = [] })
unfolding connect Dict.lookup Dict.insert
there = refl

is_free : Dict.lookup 7 start.world.env.conns ≡ none
unfolding Dict.lookup
is_free = refl

way : Reach settings no_files attached
way =
    goes pending attached
      (goes connected pending (goes start connected starts (accepts 7 is_free))
        (receives 7 5 (tattach 3) (record { fids = []; pending = [] }) there refl))
      (answers finished [] attaching [] (rattach root_qid) none refl attach_answered)

-- A Tclunk of the fid, of which the part under the lock is done
abbrev clunking : Task
clunking = record { conn = 7; tag = 6; msg = tclunk 3; half = whole (tclunk 3) }

abbrev asked : Net echo_core MemoryStore
asked = record attached {
  world = update_pending 7 (Dict.insert 6 false) attached.world;
  tasks = clunking ∷ [];
}

abbrev looked_up : Net echo_core MemoryStore
looked_up = record asked {
  world = (start_handler 7 (tclunk 3) asked.world).1;
  tasks = record clunking { half = (start_handler 7 (tclunk 3) asked.world).0 } ∷ [];
}

still_there :
    Dict.lookup 7 attached.world.env.conns
    ≡ some (record { fids = (3, new_fid (codes "/") root_qid) ∷ []; pending = [] })
unfolding finish_handler handle_spawns handle attach Dict.lookup Dict.insert Dict.erase connect
    update_pending update_fids
still_there = refl

further : Reach settings no_files looked_up
further =
    goes asked looked_up
      (goes attached asked way (
        receives 7 6 (tclunk 3)
          (record { fids = (3, new_fid (codes "/") root_qid) ∷ []; pending = [] }) still_there
          refl))
      (looks [] clunking [] refl refl)

Reach-IsSound_example : IsSound looked_up.world
Reach-IsSound_example = Reach-IsSound settings no_files looked_up further

handle-IsSound_example : IsSound (handle settings finished 7 (tclunk 3) attached.world).1
handle-IsSound_example =
    handle-IsSound settings finished 7 (tclunk 3) attached.world
      (Reach-IsSound settings no_files attached way)

handle_responds_example :
    ((resp : Rmsg) × ((handle settings finished 7 (tclunk 3) attached.world).0 ≡ ok resp)
      × (is_reply (tclunk 3) resp ≡ true))
    ⊎ ((handle settings finished 7 (tclunk 3) attached.world).0 ≡ panic)
handle_responds_example = handle_responds settings finished 7 (tclunk 3) attached.world
