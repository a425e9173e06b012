-- ===== src/Tests/Confined.antt =====
-- The theorems on where a Tcreate puts its file, at a small server.
use ollie_9p.Prelude.{bytes_beq, bytes_eq, [], ◌∷◌, ◌++◌, codes, ◌≡◌, refl}
use ollie_9p.Prelude.Dict
use ollie_9p.Path.Clean.Laws.{IsPlain, rooted}
use ollie_9p.Server.{World, tcreate}
use ollie_9p.Server.Handle.{handle}
use ollie_9p.Server.New.{new_server, default_mem_dir}
use ollie_9p.Server.New.Confined.{memory, made_at, create-stays, create-escapes}
use ollie_9p.Server.Read.{finished}
use ollie_9p.Store.Memory.{MemoryStore}
use ollie_9p.Text.{contains, join}
use ollie_9p.Tests.Calls.{memory_disk, platform}
use ollie_9p.Tests.World.{echo_core, fid_at, world}

abbrev at_memory : World echo_core MemoryStore
at_memory = record world {
  env = record world.env {
    conns = (7, record { fids = (1, fid_at (codes "/m")) ∷ []; pending = [] }) ∷ [];
  };
}

cfg-IsPlain : IsPlain (codes "cfg")
unfolding bytes_beq contains
cfg-IsPlain = record { no_slash = refl; some_bytes = refl; not_dot = refl; not_up = refl }

memory-IsPlain : IsPlain (codes "memory")
unfolding bytes_beq contains
memory-IsPlain = record { no_slash = refl; some_bytes = refl; not_dot = refl; not_up = refl }

note-IsPlain : IsPlain (codes "note")
unfolding bytes_beq contains
note-IsPlain = record { no_slash = refl; some_bytes = refl; not_dot = refl; not_up = refl }

create-stays_example :
    handle (new_server memory_disk platform) finished 7 (tcreate 1 (codes "note") 0 1) at_memory
    ≡ made_at memory_disk platform memory
        (rooted (codes "cfg" ∷ codes "memory" ∷ []))
        (rooted (codes "cfg" ∷ codes "memory" ∷ codes "note" ∷ []))
        7
        1
        (fid_at (codes "/m"))
        (codes "note")
        1
        at_memory
unfolding Dict.lookup default_mem_dir join
create-stays_example =
    create-stays memory_disk platform finished 7 1 0 1 memory (fid_at (codes "/m")) at_memory
      (record { fids = (1, fid_at (codes "/m")) ∷ []; pending = [] }) refl refl refl refl
      (codes "cfg") (codes "memory" ∷ []) (codes "note") refl (cfg-IsPlain, (memory-IsPlain, tt))
      note-IsPlain

create-escapes_example :
    handle
      (new_server memory_disk platform)
      finished
      7
      (tcreate 1 (codes "../" ++ codes "note") 0 1)
      at_memory
    ≡ made_at memory_disk platform memory
        (rooted (codes "cfg" ∷ []))
        (rooted (codes "cfg" ∷ codes "note" ∷ []))
        7
        1
        (fid_at (codes "/m"))
        (codes "../" ++ codes "note")
        1
        at_memory
unfolding Dict.lookup default_mem_dir join
create-escapes_example =
    create-escapes memory_disk platform finished 7 1 0 1 memory (fid_at (codes "/m")) at_memory
      (record { fids = (1, fid_at (codes "/m")) ∷ []; pending = [] }) refl refl refl refl
      (codes "cfg") [] (codes "memory") (codes "note") refl (cfg-IsPlain, tt) memory-IsPlain
      note-IsPlain
