-- ===== src/Server/Handle/Keeps.antt =====
-- Every request keeps the invariant of the server.
use ollie_9p.Prelude.{ℕ, bytes_eq, nat_eq}
use ollie_9p.Agent.{AgentCore}
use ollie_9p.Server.Sound.{IsSound, update_pending-IsSound}
use ollie_9p.Server.{
  World, ServerConfig, Tmsg, tversion, tauth, tattach, twalk, topen, tcreate, tread, twrite, tstat,
  twstat, tflush, tclunk, tremove, unsupported,
}
use ollie_9p.Server.Change.Keeps.{wstat-Keeps, remove-Keeps}
use ollie_9p.Server.Create.Keeps.{create-Keeps}
use ollie_9p.Server.Handle.{cancel_pending, handle}
use ollie_9p.Server.Read.{Race}
use ollie_9p.Server.Read.Keeps.{read-Keeps}
use ollie_9p.Server.Stat.Keeps.{stat-Keeps}
use ollie_9p.Server.Walk.Keeps.{attach-Keeps, open_fid-Keeps, walk-Keeps}
use ollie_9p.Server.Write.Keeps.{write-Keeps, clunk-Keeps}

module _ {C : AgentCore} {D : Type 0} (cfg : ServerConfig C D) where
  -- Whatever the request, and whatever comes of it, the sessions stand under their own IDs and the
  -- fids of all connections carry the qids of their paths afterwards, if they did before.
  pub handle-IsSound :
      (race : Race) (conn : ℕ) (msg : Tmsg) (w : World C D)
      → IsSound w
      → IsSound (handle cfg race conn msg w).1
  unfolding handle
  handle-IsSound race conn (tversion msize) w h = h
  handle-IsSound race conn tauth w h = h
  handle-IsSound race conn (tattach fid) w h = attach-Keeps conn fid w h
  handle-IsSound race conn (twalk fid newfid wname) w h = walk-Keeps cfg conn fid newfid wname w h
  handle-IsSound race conn (topen fid mode) w h = open_fid-Keeps conn fid mode w h
  handle-IsSound race conn (tcreate fid name perm mode) w h =
      create-Keeps cfg conn fid name perm mode w h
  handle-IsSound race conn (tread fid offset count) w h =
      read-Keeps cfg race conn fid offset count w h
  handle-IsSound race conn (twrite fid offset content) w h = write-Keeps conn fid offset content w h
  handle-IsSound race conn (tstat fid) w h = stat-Keeps cfg conn fid w h
  handle-IsSound race conn (twstat fid content) w h = wstat-Keeps cfg conn fid content w h
  handle-IsSound race conn (tflush oldtag) w h =
      update_pending-IsSound conn (cancel_pending oldtag) w h
  handle-IsSound race conn (tclunk fid) w h = clunk-Keeps cfg conn fid w h
  handle-IsSound race conn (tremove fid) w h = remove-Keeps cfg conn fid w h
  handle-IsSound race conn unsupported w h = h
