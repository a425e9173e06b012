-- ===== src/Tests/Sessions.antt =====
-- The theorems on the table of sessions, at a small table.
use ollie_9p.Prelude.{
  Bytes, bytes_eq, bytes_beq, ◌==◌, List, [], ◌∷◌, ◌++◌, codes, none, some, true, if◌then◌else◌,
  inl, ◌≡◌, refl,
}
use ollie_9p.Prelude.Outcome.{ok, err}
use ollie_9p.Prelude.Dict
use ollie_9p.Server.{session_config}
use ollie_9p.Session.{Session, ends_line}
use ollie_9p.Session.Events.{submit, run_turn}
use ollie_9p.Session.Log.Turn.{closed, run_turn-closed}
use ollie_9p.Session.Log.{log-submit, render, blocks_of}
use ollie_9p.SessionStore.{rename_session, rename_note, kill_session}
use ollie_9p.SessionStore.Create.{create_session}
use ollie_9p.SessionStore.Create.Race.{asked, next}
use ollie_9p.SessionStore.Create.Race.Alone.{find-next}
use ollie_9p.SessionStore.Reach.{starts, goes, creates, Reach-IsKeyed}
use ollie_9p.SessionStore.Table.{
  find, IsKeyed, find-kill_session, rename_session_moves, rename_session_refused,
}
use ollie_9p.Tests.World.{echo_core, settings, session_settings, world, session_of}

abbrev created : List Bytes
created = codes "name=one" ∷ codes "cwd=/tmp" ∷ []

Reach-IsKeyed_example :
    IsKeyed
      (create_session
        (session_settings {E = Unit {0}})
        created
        (record { sessions = []; retired = []; env = tt })).1
Reach-IsKeyed_example =
    Reach-IsKeyed session_settings
      (create_session session_settings created (record { sessions = []; retired = []; env = tt })).1
      (goes (record { sessions = []; retired = []; env = tt })
        (create_session session_settings created
          (record { sessions = []; retired = []; env = tt })).1
        (starts tt) (creates created))

rename_session_moves_example :
    (sess' : Session echo_core) × ((rename_session
        (session_config settings)
        (codes "one")
        (codes "three")
        world).0
      ≡ ok tt)
    × ((j : Bytes)
        → find j (rename_session (session_config settings) (codes "one") (codes "three") world).1
          ≡ (if codes "one" == j
              then none
              else if codes "three" == j
              then some sess'
              else find j world))
    × (sess'.id ≡ codes "three")
    × (sess'.core ≡ codes "three")
    × (sess'.log ≡ codes "user: hi\n" ++ rename_note (codes "one") (codes "three"))
    × ((rename_session (session_config settings) (codes "one") (codes "three") world).1.env
        ≡ (session_config settings).on_rename (codes "one") (codes "three") world.env)
unfolding Dict.lookup bytes_beq
rename_session_moves_example =
    rename_session_moves (session_config settings) (codes "one") (codes "three") world
      (session_of (codes "one")) (codes "three") refl refl refl refl

rename_session_refused_example :
    (message : Bytes) × (rename_session
        (session_config settings)
        (codes "three")
        (codes "one")
        world
      ≡ (err message, world))
unfolding Dict.lookup bytes_beq
rename_session_refused_example =
    rename_session_refused (session_config settings) (codes "three") (codes "one") world (inl refl)

find-next_example :
    find
      (codes "one")
      (next
        (session_config settings)
        (next (session_config settings) (next (session_config settings) (asked created, world)))).1
    ≡ some (session_of (codes "one"))
unfolding Dict.lookup bytes_beq
find-next_example =
    find-next (session_config settings) created world (codes "one") (session_of (codes "one")) refl

find-kill_session_example :
    find (codes "two") (kill_session (codes "one") world)
    ≡ (if codes "one" == codes "two" then none else find (codes "two") world)
find-kill_session_example = find-kill_session (codes "one") (codes "two") world

log-submit_example :
    (submit (codes "do") (session_of (codes "one"))).log
    ≡ (session_of (codes "one")).log
      ++ render (blocks_of (echo_core.submit (codes "do") (codes "one")).0)
log-submit_example = log-submit (codes "do") (session_of (codes "one"))

abbrev prompted : Session echo_core
prompted = record (session_of (codes "one")) { turns = codes "do" ∷ [] }

run_turn-closed_example :
    ((run_turn prompted).log
      ≡ closed (
          codes "user: hi\n" ++ render (blocks_of (echo_core.submit (codes "do") (codes "one")).0)))
    × (ends_line (run_turn prompted).log ≡ true)
run_turn-closed_example = run_turn-closed prompted (codes "do") [] refl
