-- ===== src/Server/Handle.antt =====
-- handle of server.go, and the life of a request in Serve.
pub mod Spawn
pub mod Halves
pub mod Keeps
pub mod Answers
use ollie_9p.Prelude.{ℕ, Bool, true, false, none, some, ltb, nat_eq, if◌then◌else◌, codes}
use ollie_9p.Prelude.Outcome.{ok, err, panic, Act}
use ollie_9p.Prelude.Dict
use ollie_9p.Prelude.Dict.{Dict}
use ollie_9p.Agent.{AgentCore}
use ollie_9p.Server.{
  Tmsg, tversion, tauth, tattach, twalk, topen, tcreate, tread, twrite, tstat, twstat, tflush,
  tclunk, tremove, unsupported, Rmsg, rversion, rerror, rflush, World, ServerConfig, update_pending,
}
use ollie_9p.Server.Change.{wstat, remove}
use ollie_9p.Server.Create.{create}
use ollie_9p.Server.Read.{Race, read}
use ollie_9p.Server.Stat.{stat}
use ollie_9p.Server.Walk.{attach, walk, open_fid}
use ollie_9p.Server.Write.{write, clunk}

-- A cancelled request stays so; a tag that is not pending has nothing to cancel.
abbrev cancel_pending : ℕ → Dict ℕ Bool → Dict ℕ Bool
cancel_pending tag pending = elim (Dict.lookup tag pending) [
  | none ↦ pending
  | some _ ↦ Dict.insert tag true pending
]

module _ {C : AgentCore} {D : Type 0} (cfg : ServerConfig C D) where
  -- handle: what the response is to a request of a connection. The tag of the response is the
  -- request's.
  unfoldable pub handle : Race → ℕ → Tmsg → Act (World C D) Rmsg
  handle race conn (tversion msize) w =
      (ok (rversion (if ltb 65536 msize then 65536 else msize) (codes "9P2000")), w)
  handle race conn tauth w = (ok (rerror (codes "no auth required")), w)
  handle race conn (tattach fid) w = attach conn fid w
  handle race conn (twalk fid newfid wname) w = walk cfg conn fid newfid wname w
  handle race conn (topen fid mode) w = open_fid conn fid mode w
  handle race conn (tcreate fid name perm mode) w = create cfg conn fid name perm mode w
  handle race conn (tread fid offset count) w = read cfg race conn fid offset count w
  handle race conn (twrite fid offset content) w = write conn fid offset content w
  handle race conn (tstat fid) w = stat cfg conn fid w
  handle race conn (twstat fid content) w = wstat cfg conn fid content w
  handle race conn (tflush oldtag) w = (ok rflush, update_pending conn (cancel_pending oldtag) w)
  handle race conn (tclunk fid) w = clunk cfg conn fid w
  handle race conn (tremove fid) w = remove cfg conn fid w
  handle race conn unsupported w = (ok (rerror (codes "unsupported operation")), w)

  -- The loop body of Serve: the request is entered under its tag, handled, and taken out.
  unfoldable pub serve_request : Race → ℕ → ℕ → Tmsg → Act (World C D) (ℕ × Rmsg)
  serve_request race conn tag msg w =
      let (r, w') = handle race conn msg (update_pending conn (Dict.insert tag false) w) in
      elim r [
        | ok resp ↦ (ok (tag, resp), update_pending conn (Dict.erase tag) w')
        | err e ↦ (err e, w')
        | panic ↦ (panic, w')
      ]
