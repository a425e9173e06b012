-- ===== src/Server/Lookup.antt =====
-- pathType of server.go: what stands at a logical path.
pub mod Keeps
pub mod Answers
use ollie_9p.Prelude.{Bytes, bytes_eq, ◌==◌, List, [], ◌∷◌, ◌++◌, if◌then◌else◌, codes}
use ollie_9p.Prelude.Outcome.{Outcome, ok, err, panic, Act}
use ollie_9p.Agent.{AgentCore}
use ollie_9p.Server.{World, ServerConfig, on_disk}
use ollie_9p.SessionStore.Entries
use ollie_9p.SessionStore.Entries.{open_store, session_helper}
use ollie_9p.Server.{session_config}
use ollie_9p.Store.{FileInfo}
use ollie_9p.Store.RunFile
use ollie_9p.Text.{trim_prefix, split_n}

-- "dir", "file" and ""
pub data PathType : Type 0 where
  dir file absent : PathType

-- The names directly below "/"
pub data Root : Type 0 where
  s a p m sk t u x tr tmp backends help other : Root

unfoldable pub root_of : Bytes → Root
root_of name =
    if name == codes "s"
    then s
    else if name == codes "a"
    then a
    else if name == codes "p"
    then p
    else if name == codes "m"
    then m
    else if name == codes "sk"
    then sk
    else if name == codes "t"
    then t
    else if name == codes "u"
    then u
    else if name == codes "x"
    then x
    else if name == codes "tr"
    then tr
    else if name == codes "tmp"
    then tmp
    else if name == codes "backends"
    then backends
    else if name == codes "help"
    then help
    else other

-- The type of a path of one element
abbrev pub root_type : Root → PathType
root_type backends = file
root_type help = file
root_type other = absent
root_type _ = dir

-- `if _, err := ...Stat(...); err == nil { return "file" }`
abbrev pub file_if_ok {ℓ} : {W : Type ℓ} → Outcome FileInfo × W → Outcome PathType × W
file_if_ok (ok _, w) = (ok file, w)
file_if_ok (err _, w) = (ok absent, w)
file_if_ok (panic, w) = (panic, w)

-- The same where the entry may be a directory
abbrev pub type_if_ok {ℓ} : {W : Type ℓ} → Outcome FileInfo × W → Outcome PathType × W
type_if_ok (ok info, w) = (ok (if info.is_dir then dir else file), w)
type_if_ok (err _, w) = (ok absent, w)
type_if_ok (panic, w) = (panic, w)

module _ {C : AgentCore} {D : Type 0} (cfg : ServerConfig C D) where
  second_type : Root → Bytes → Act (World C D) PathType
  second_type s name w = type_if_ok (Entries.stat name w)
  second_type u name w = file_if_ok (on_disk (cfg.util_store.stat_fn name) w)
  second_type x name w = file_if_ok (on_disk (cfg.plugin_store.stat_fn name) w)
  second_type tr name w = file_if_ok (on_disk (cfg.transcript_store.stat_fn name) w)
  second_type tmp name w = file_if_ok (on_disk (cfg.tmp_store.stat_fn name) w)
  second_type a name w = file_if_ok (on_disk (cfg.agent_store.stat_fn name) w)
  second_type p name w = file_if_ok (on_disk (cfg.prompt_store.stat_fn name) w)
  second_type m name w = file_if_ok (on_disk (cfg.mem_store.stat_fn name) w)
  second_type sk name w = file_if_ok (on_disk (cfg.skill_store.stat_fn name) w)
  second_type t name w = type_if_ok (on_disk (cfg.tool_store.store.stat_fn name) w)
  second_type _ name w = (ok absent, w)

  -- The Stat of a session's file, through sessionFileStore
  session_file_type : Bytes → Bytes → Act (World C D) PathType
  session_file_type id name w = elim (open_store (session_config cfg) id w) [
    | ok files ↦ file_if_ok (RunFile.stat files name w)
    | err _ ↦ (ok absent, w)
    | panic ↦ (panic, w)
  ]

  third_type : Root → Bytes → Bytes → Act (World C D) PathType
  unfolding session_file_type
  third_type t name rest w =
      type_if_ok (on_disk (cfg.tool_store.store.stat_fn (name ++ (codes "/" ++ rest))) w)
  third_type s id name w = session_file_type id name w
  third_type _ name rest w = (ok absent, w)

  parts_type : List Bytes → Act (World C D) PathType
  unfolding second_type third_type
  parts_type (root ∷ []) w = (ok (root_type (root_of root)), w)
  parts_type (root ∷ name ∷ []) w = second_type (root_of root) name w
  parts_type (root ∷ name ∷ rest ∷ []) w = third_type (root_of root) name rest w
  parts_type _ w = (ok absent, w)

  -- pathType
  unfoldable pub path_type : Bytes → Act (World C D) PathType
  unfolding parts_type
  path_type path w =
      if path == codes "/"
      then (ok dir, w)
      else parts_type (split_n (trim_prefix path (codes "/")) b'/' 2) w
