-- ===== src/Server/Dirs/Keeps.antt =====
-- readDir keeps the invariant of the server.
use ollie_9p.Prelude.{ℕ, Bytes, bytes_eq, nat_eq, Option, refl}
use ollie_9p.Prelude.Keeps.{if-Keeps}
use ollie_9p.Prelude.Outcome.{Outcome-cases, gives, fails, panics}
use ollie_9p.Agent.{AgentCore}
use ollie_9p.Server.Sound.{IsSound, IsSound-same}
use ollie_9p.Server.{World, ServerConfig, session_config, Dir}
use ollie_9p.Server.Dirs.{dirs_at, read_dir, session_dirs, entries_on_disk}
use ollie_9p.SessionStore.Entries
use ollie_9p.SessionStore.Entries.{open_store}
use ollie_9p.Path.{path_base}
use ollie_9p.Store.{Listing, DirEntry}

module _ {C : AgentCore} {D : Type 0} (cfg : ServerConfig C D) where
  entries_on_disk-Keeps :
      (f : DirEntry → Option Dir) (listing : Listing D) (w : World C D)
      → IsSound w
      → IsSound (entries_on_disk cfg f listing w).1
  entries_on_disk-Keeps f listing w h = IsSound-same w _ h refl refl

  session_dirs-Keeps :
      (path : Bytes) (w : World C D) → IsSound w → IsSound (session_dirs cfg path w).1
  unfolding session_dirs
  session_dirs-Keeps path w h =
      elim (Outcome-cases (open_store (session_config cfg) (path_base path) w)) [
        | gives files e ↦ rw (e, session_dirs) h
        | fails m e ↦ rw (e, session_dirs) h
        | panics e ↦ rw (e, session_dirs) h
      ]

  dirs_at_all :
      (P : World C D → Type 0) (path : Bytes) (w : World C D)
      → P w
      → ((f : DirEntry → Option Dir) (listing : Listing D) → P (entries_on_disk cfg f listing w).1)
      → P (session_dirs cfg path w).1
      → P (Entries.list w).1
      → P (dirs_at cfg path w).1
  unfolding dirs_at
  dirs_at_all P path w h listed files table = search (if-Keeps P) depth 20

  dirs_at-Keeps : (path : Bytes) (w : World C D) → IsSound w → IsSound (dirs_at cfg path w).1
  dirs_at-Keeps path w h =
      dirs_at_all IsSound path w h (λ f listing. entries_on_disk-Keeps f listing w h)
        (session_dirs-Keeps path w h)
        (IsSound-same w _ h (unfold Entries.list in refl) (unfold Entries.list in refl))

  pub read_dir-Keeps :
      (path : Bytes) (offset count : ℕ) (w : World C D)
      → IsSound w
      → IsSound (read_dir cfg path offset count w).1
  unfolding read_dir
  read_dir-Keeps path offset count w h = dirs_at-Keeps path w h
