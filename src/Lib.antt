-- ===== src/Lib.antt =====
-- The 9P file server of the Ollie agent: `main.go`, `server.go` and the package `store`.
--
-- The program serves a tree of files over 9P. A connection has fids, each with a path, a qid, a
-- mode and a buffer for what is written (`Server`). A request is handled by one function each, and
-- the path decides which store it goes to. The stores offer entries by name: directories on disk,
-- tools, skills, an in-memory map, and the synthetic files of a session (`Store`). The session
-- store is the table of running sessions; writes to its files create, rename and kill sessions, and
-- each session has files of its own, through which prompts go to the agent and its log is read
-- (`Session`, `SessionStore`). A rename of a session calls back into the server, which moves the
-- fids of all connections. The command line starts the server, as a process of its own or not, and
-- stops it by a signal to the process whose ID it finds in a file (`Main`).
--
-- The files and the code:
--   Prelude        lists, Boolean tests, association lists for maps, and outcomes: a value, an error
--                  or a run-time panic
--   Text           the functions of Go's `strings`, `strconv` and `sort` that the code calls
--   Path           pathParent, pathJoin, pathBase, qidPath of server.go; filepath.Join and Dir
--                  in Clean
--   Store          store/store.go, with the helpers storeRead, storeWrite and storeBlockingRead and
--                  ToolStore of server.go in Flat and Tools; store/skill.go in Skill;
--                  store/memory.go in Memory; store/runfilestore.go in RunFile
--   Agent          the interface agent.Core and the generation parameters, as parameters
--   Session        the type Session of store/session.go, and store/sessionfile.go: the events in
--                  Events, what they leave in the log in Log, generation parameters in Params, the
--                  files cfg and ctl in Cfg and Ctl, the table of files in Files
--   SessionStore   SessionStore of store/session.go: createSession in Create, and as three steps
--                  that other calls can come between in Create/Race; the files below /s in Entries;
--                  Table, Keyed, Reach and Closed are about the table of sessions
--   Server         server.go: pathType in Lookup, attach, walk and open in Walk, create in Create,
--                  read in Read, readSlice and the buffer of write in Buffer, write, clunk and
--                  handleWrite in Write, wstat and remove in Change, readDir in Dirs, makeStat in
--                  Stat, handle in Handle; clunk and handle with the goroutine of a write in the
--                  background in Write/Spawn and Handle/Spawn, and in two parts, under the
--                  lock of the connection and after it, in Handle/Halves; New with its stores
--                  and directories in New, and where files are made in New/Confined; Serve with
--                  its connections and goroutines in Serve, as steps of a relation; Fids,
--                  Isolation, Upload and Sound are about several of these
--   Main           main.go: each command as an action of a process that logs its calls (Calls);
--                  runServer in RunServer, how it ends in Ends and how it exits before in
--                  Exits, and that a server that runs is left alone in Running; Runs, Steady and
--                  Tame are about the sequences of such actions
--   Tests          runs, and the theorems at a small server
--
-- A module named Keeps shows that its parent leaves an invariant true, whatever it returns, and one
-- named Answers that no error of Go is left over, and of a handler that its response is an Rerror or of
-- the type that 9P has for the request.
--
-- Go's errors and panics are outcomes; what was written before one stays written. A method that
-- holds its lock throughout is one step on the state. Machine integers have their wrap-around
-- written out. A map is an association list, whose order of iteration is the order of insertion,
-- where Go leaves it open.
--
-- Parameters: the operating system (`Os`), the agent core (`AgentCore`), floats (`Floats`), the
-- callbacks and backends of `SessionStoreConfig`, the stores of `ServerConfig` with the two
-- functions of the plan9 package for stats, what New takes from its environment (`Platform`), and
-- what the commands take from theirs (`Host`): the answers to their calls, and what becomes of the
-- server until the signal and after it, which is what Serve is about. Nothing is assumed of them but where a
-- theorem says so.
--
-- Fuel: `page_from` takes as much as there are bytes, and each round takes two of them at least;
-- `read_pages` and `read_pieces` are clients that get one request more than there are bytes. The
-- theorems on them show that this is enough.
--
-- Requests of Serve are handled in any order, and turns of sessions, changes of the disk and the end
-- of the program come at any time between them; a handler is one step, or two where it gives up the
-- lock of its connection after it has looked up its fid (Tread, Tstat, Tclunk and Tremove). A write
-- that a Tclunk does in the background is a step of its own, at any time after the handler; `handle`
-- does it at once.
--
-- The goroutine of Serve that writes sends the responses of its connection in the order in which it
-- got them; what it still has when the connection is closed is lost.
--
-- Not modelled: the reading and writing of messages, and the inside of sockets and processes.
-- Handlers overlap only in the two parts above: Twstat is one step, although it takes the lock again
-- after a rename. A read that times out has still run to its end. createSession, as a request calls
-- it, is one step, although the program gives up the lock between its check and its insertion;
-- Create/Race is about that alone. Locks are not modelled, so that handlers never wait for each
-- other: that a walk and a rename may do so for ever is not seen. A listing of sessions is in the
-- order of insertion, while that of the program may change from one Tread to the next.
pub mod Prelude
pub mod Text
pub mod Path
pub mod Store
pub mod Agent
pub mod Session
pub mod SessionStore
pub mod Server
pub mod Main
mod Tests
